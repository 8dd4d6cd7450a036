-- ===== src/Memory/Segments.antt =====
-- The abstract view of the heap: the runs of blocks in address order, free or in use.
pub mod Placement
pub mod Undo
pub mod Releasing
use kernel_riscv.Base.{
  ℕ, ◌+◌, ◌-◌, List, [], ◌∷◌, ◌++◌, arith, Option, none, some, ltb, ◌==◌, ◌≡◌, Bool, true, false,
  if◌then◌else◌,
}

pub data Seg : Type 0 where
  used : ℕ → Seg
  free : ℕ → Seg

abbrev pub size : Seg → ℕ
size (used k) = k
size (free k) = k

abbrev pub total : List Seg → ℕ
total [] = 0
total (s ∷ ss) = size s + total ss

-- First fit from block `i` on: where the run starts, and the runs with `nblocks` of it in use.
abbrev pub keep : Seg → Option (ℕ × List Seg) → Option (ℕ × List Seg)
keep s none = none
keep s (some (j, ss)) = some (j, s ∷ ss)

unfoldable pub first_fit : ℕ → ℕ → List Seg → Option (ℕ × List Seg)
first_fit nblocks i [] = none
first_fit nblocks i (used k ∷ ss) = keep (used k) (first_fit nblocks (i + k) ss)
first_fit nblocks i (free k ∷ ss) =
    let later = keep (free k) (first_fit nblocks (i + k) ss) in
    if ltb nblocks k
    then some (i, used nblocks ∷ free (k - nblocks) ∷ ss)
    else if k == nblocks
    then some (i, used nblocks ∷ ss)
    else later

-- A run of `k` blocks that becomes free joins the free run behind it, if there is one.
unfoldable pub join_right : ℕ → List Seg → List Seg
join_right k (free q ∷ ss) = free (k + q) ∷ ss
join_right k ss = free k ∷ ss

-- The runs `before`, then one of `k` blocks that becomes free, then the runs `after`.
unfoldable pub release : List Seg → ℕ → List Seg → List Seg
unfolding join_right
release [] k after = join_right k after
release (free p ∷ []) k after = join_right (p + k) after
release (used p ∷ []) k after = used p ∷ join_right k after
release (s ∷ t ∷ before) k after = s ∷ release (t ∷ before) k after

-- No two free runs stand side by side.
abbrev pub starts_free : List Seg → Bool
starts_free (free k ∷ ss) = true
starts_free _ = false

abbrev pub IsCoalesced : List Seg → Type 0
IsCoalesced [] = Unit
IsCoalesced (used k ∷ ss) = IsCoalesced ss
IsCoalesced (free k ∷ ss) = (starts_free ss ≡ false) × IsCoalesced ss

pub total-append : (ss ts : List Seg) → total (ss ++ ts) ≡ total ss + total ts
total-append [] ts = omega arith
total-append (s ∷ ss) ts = omega (arith, total-append ss ts)
