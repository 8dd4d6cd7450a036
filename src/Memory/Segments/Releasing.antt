-- ===== src/Memory/Segments/Releasing.antt =====
-- Releasing a run keeps the total, and leaves no two free runs side by side.
use kernel_riscv.Base.{ℕ, ◌+◌, ◌≡◌, refl, false, List, [], ◌∷◌, ◌++◌, arith}
use kernel_riscv.Memory.Segments.{
  Seg, used, free, total, join_right, release, IsCoalesced, starts_free,
}

total-join_right : (k : ℕ) (ss : List Seg) → total (join_right k ss) ≡ k + total ss
unfolding join_right
total-join_right k [] = refl
total-join_right k (used q ∷ ss) = refl
total-join_right k (free q ∷ ss) = omega arith

pub total-release :
    (pre : List Seg) (k : ℕ) (post : List Seg)
    → total (release pre k post) ≡ total (pre ++ used k ∷ post)
unfolding release
total-release [] k post = total-join_right k post
total-release (free p ∷ []) k post = omega (arith, total-join_right (p + k) post)
total-release (used p ∷ []) k post = omega (arith, total-join_right k post)
total-release (s ∷ t ∷ pre) k post = omega (arith, total-release (t ∷ pre) k post)

join_right-IsCoalesced : (k : ℕ) (ss : List Seg) → IsCoalesced ss → IsCoalesced (join_right k ss)
unfolding join_right
join_right-IsCoalesced k [] c = (refl, tt)
join_right-IsCoalesced k (used q ∷ ss) c = (refl, c)
join_right-IsCoalesced k (free q ∷ ss) c = c

-- What stands in front of a released run stays as it was.
starts_free-release :
    (q k : ℕ) (s : Seg) (pre post : List Seg)
    → starts_free (s ∷ pre ++ used k ∷ post) ≡ false
    → starts_free (release (s ∷ pre) k post) ≡ false
unfolding release
starts_free-release q k (used p) [] post e = refl
starts_free-release q k (used p) (t ∷ pre) post e = refl
starts_free-release q k (free p) pre post e = cc

pub release-IsCoalesced :
    (pre : List Seg) (k : ℕ) (post : List Seg)
    → IsCoalesced (pre ++ used k ∷ post)
    → IsCoalesced (release pre k post)
unfolding release
release-IsCoalesced [] k post c = join_right-IsCoalesced k post c
release-IsCoalesced (free p ∷ []) k post c = join_right-IsCoalesced (p + k) post c.1
release-IsCoalesced (used p ∷ []) k post c = join_right-IsCoalesced k post c
release-IsCoalesced (used p ∷ t ∷ pre) k post c = release-IsCoalesced (t ∷ pre) k post c
release-IsCoalesced (free p ∷ t ∷ pre) k post c =
    (starts_free-release p k t pre post c.0, release-IsCoalesced (t ∷ pre) k post c.1)
