-- ===== src/Memory/Free.antt =====
-- `__mem_free` of the start of an allocation: the run becomes free and joins its free neighbours.
mod Joins
use kernel_riscv.Base.{
  ℕ, zero, suc, ◌+◌, ◌-◌, ◌*◌, ◌/◌, ◌%◌, ◌^◌, ◌≤◌, ◌<◌, ◌≡◌, refl, ◌∙◌, ap, sym, subst, ◌⊎◌, inl,
  inr, Bool, true, false, not, ◌&&◌, List, [], ◌∷◌, ◌++◌, arith, ltb, if◌then◌else◌, lt→ltb, le→ltb,
  ℤ, pos, neg_ℕ, is_neg, is_pos, to_u64, add64, sub64, add64_lt, sub64_le, to_u64-pos, is_neg-neg_ℕ,
}
use kernel_riscv.Memory.{
  Words, set, mark_free, join_prev, join_next, Joined, joins, is_prev_free, is_next_free,
  free_entry,
}
use kernel_riscv.Memory.Segments.{Seg, used, free, size, total, starts_free, join_right, release}
use kernel_riscv.Memory.Tiles.{tag, Block, Tiles, Same, Tiles-frame, Block-frame}
use Joins
use Joins.{joined}

free_entry-joins :
    (n : ℕ) (w : Words) (e k : ℕ)
    → w e ≡ pos k
    → e + k < 2 ^ 31
    → free_entry n w e ≡ joins (is_prev_free w e) (is_next_free n w (e + k)) (joined w e k)
unfolding free_entry
free_entry-joins n w e k first h =
    rw (first, to_u64-pos k (omega arith), add64_lt e k (omega arith))

is_next_free-starts_free :
    (n : ℕ) (w : Words) (i : ℕ) (ss : List Seg)
    → Tiles w i ss
    → i + total ss ≡ n
    → is_next_free n w i ≡ starts_free ss
unfolding is_next_free
is_next_free-starts_free n w i [] t h = rw (le→ltb i n (omega arith))
is_next_free-starts_free n w i (used q ∷ ss) (b, t) h =
    rw (lt→ltb i n (omega (arith, b.nonempty)), b.first)
is_next_free-starts_free n w i (free q ∷ ss) (b, t) h =
    rw (lt→ltb i n (omega (arith, b.nonempty)), b.first) (is_neg-neg_ℕ q b.nonempty)

-- The words `v` represent `ss` from entry `i` up to the end, and are `w` elsewhere.
pub record Freed (n : ℕ) (w v : Words) (i : ℕ) (ss : List Seg) : Type 0 where
  pub tiles : Tiles v i ss
  pub below : Same 0 i w v
  pub above : (x : ℕ) → n ≤ x → v x ≡ w x

-- The run behind is joined if it is free.
module _ (n : ℕ) (w v : Words) (e k : ℕ) (small : n < 2 ^ 31) {t : ℤ} (b : Block w e k t)
    (c : Block v e k (neg_ℕ k)) (outside : (x : ℕ) → (x < e) ⊎ (e + k ≤ x) → v x ≡ w x) where
  no_join :
      (post : List Seg)
      → Tiles w (e + k) post
      → e + k + total post ≡ n
      → Freed n w v e (free k ∷ post)
  no_join post tiles h = record {
    tiles = (c, Tiles-frame (e + k) post tiles (λ x p q. outside x (inr p)));
    below = λ x p q. outside x (inl q);
    above = λ x p. outside x (inr (omega arith));
  }

  right-Freed :
      (post : List Seg)
      → Tiles w (e + k) post
      → e + k + total post ≡ n
      → Freed n w
          (if starts_free post then (join_next (joined w e k)).words else v)
          e
          (join_right k post)
  unfolding join_right
  right-Freed [] tiles h = no_join [] tiles h
  right-Freed (used q ∷ ss) tiles h = no_join (used q ∷ ss) tiles h
  right-Freed (free q ∷ ss) (b2, tiles) h = record {
    tiles = (
      Joins.join_next-Block w e k b.nonempty q b b2 (omega arith),
      Tiles-frame (e + (k + q)) ss (subst (λ x. Tiles w x ss) (omega arith) tiles)
          (λ x p r. same x (inr (omega arith))),
    );
    below = λ x p r. same x (inl r);
    above = λ x p. same x (inr (omega arith));
  }
    where
      same : (x : ℕ) → (x < e) ⊎ (e + k + q ≤ x) → (join_next (joined w e k)).words x ≡ w x
      same x = Joins.join_next-outside w e k b.nonempty q x b2.first b2.nonempty (omega arith)

-- What `joins` computes, by which neighbours are free.
joins-next :
    (next : Bool) (r : Joined)
    → joins false next r ≡ (if next then (join_next r).words else (mark_free r).words)
unfolding joins
joins-next true r = refl
joins-next false r = refl

joins-prev :
    (next : Bool) (r : Joined)
    → joins true next r ≡ (if next then (join_next (join_prev r)).words else (join_prev r).words)
unfolding joins
joins-prev true r = refl
joins-prev false r = refl

Freed-after :
    {n : ℕ} {w w' v : Words} {i : ℕ} {ss : List Seg}
    → ((x : ℕ) → (x < i) ⊎ (n ≤ x) → w' x ≡ w x)
    → Freed n w' v i ss
    → Freed n w v i ss
Freed-after same f = record {
  tiles = f.tiles;
  below = λ x p q. f.below x p q ∙ same x (inl q);
  above = λ x p. f.above x p ∙ same x (inr p);
}

Freed-cons :
    {n : ℕ} {w v : Words} {i : ℕ} {ss : List Seg} (s : Seg)
    → Block w i (size s) (tag s)
    → Freed n w v (i + size s) ss
    → Freed n w v i (s ∷ ss)
Freed-cons {i} s b f = record {
  tiles = (Block-frame i (size s) b (λ x p q. f.below x (omega arith) q), f.tiles);
  below = λ x p q. f.below x p (omega arith);
  above = f.above;
}

is_prev_free-start : (w : Words) → is_prev_free w 0 ≡ false
unfolding is_prev_free
is_prev_free-start w = refl

is_prev_free-last : (w : Words) (e : ℕ) → 0 < e → e < 2 ^ 31 → is_prev_free w e ≡ is_neg (w (e - 1))
unfolding is_prev_free
is_prev_free-last w e h q = rw (lt→ltb 0 e h, sub64_le e 1 (omega arith) (omega arith))

module _ (n : ℕ) (w : Words) (k : ℕ) (post : List Seg) (small : n < 2 ^ 31) where
  -- no free run before
  free-alone :
      (e : ℕ)
      → Tiles w e (used k ∷ post)
      → e + k + total post ≡ n
      → is_prev_free w e ≡ false
      → Freed n w (free_entry n w e) e (join_right k post)
  free-alone e (b, t) h p =
      rw
        (
          free_entry-joins n w e k b.first (omega arith),
          p,
          is_next_free-starts_free n w (e + k) post t h,
          joins-next,
        )
        (right-Freed n w (mark_free (joined w e k)).words e k small b
          (Joins.mark_free-Block w e k b.nonempty b (omega arith))
          (λ x. Joins.mark_free-outside w e k b.nonempty x (omega arith)) post t h)

  -- a free run of `p` blocks before
  free-behind :
      (d p : ℕ)
      → Tiles w d (free p ∷ used k ∷ post)
      → d + p + k + total post ≡ n
      → Freed n w (free_entry n w (d + p)) d (join_right (p + k) post)
  free-behind d p (c, (b, t)) h =
      rw
        (
          free_entry-joins n w (d + p) k b.first (omega arith),
          prev,
          is_next_free-starts_free n w (d + p + k) post t h,
          joins-prev,
          Joins.join_prev-joined w d p k b.nonempty c (omega arith),
        )
        (Freed-after
          (λ x out. Joins.prev_words-outside w d p k b.nonempty c (omega arith) x (ground arith))
          (right-Freed n v v d (p + k) small whole whole (λ x _. refl) post
            (subst (λ x. Tiles v x post) (omega arith)
              (Tiles-frame (d + p + k) post t
                (λ x q r. Joins.prev_words-outside w d p k b.nonempty c (omega arith) x (inr q))))
            (omega arith)))
    where
      v : Words
      v = Joins.prev_words w d p k b.nonempty c (omega arith)

      whole : Block v d (p + k) (neg_ℕ (p + k))
      whole = Joins.prev_words-Block w d p k b.nonempty c (omega arith) b

      prev : is_prev_free w (d + p) ≡ true
      prev =
          is_prev_free-last w (d + p) (omega (arith, c.nonempty)) (omega arith)
          ∙ ap is_neg c.last
          ∙ is_neg-neg_ℕ p c.nonempty

  -- The freed run lies behind the run `s` and the runs `pre`.
  free_entry-behind :
      (s : Seg) (pre : List Seg) (i e : ℕ)
      → Tiles w i (s ∷ pre ++ used k ∷ post)
      → e ≡ i + total (s ∷ pre)
      → i + total (s ∷ pre ++ used k ∷ post) ≡ n
      → Freed n w (free_entry n w e) i (release (s ∷ pre) k post)
  unfolding release
  free_entry-behind (used p) [] i e (b, (b2, t)) eq h =
      let at : e ≡ i + p = omega arith in
      rw at (
        Freed-cons (used p) b (
          free-alone (i + p) (b2, t) (omega arith)
            (is_prev_free-last w (i + p) (omega (arith, b.nonempty)) (omega arith)
              ∙ ap is_neg b.last)))
  free_entry-behind (free p) [] i e t eq h =
      let at : e ≡ i + p = omega arith in rw at (free-behind i p t (omega arith))
  free_entry-behind s (s2 ∷ pre) i e (b, t) eq h =
      Freed-cons s b (free_entry-behind s2 pre (i + size s) e t (omega arith) (omega arith))

  pub free_entry-release :
      (pre : List Seg)
      → Tiles w 0 (pre ++ used k ∷ post)
      → total (pre ++ used k ∷ post) ≡ n
      → Freed n w (free_entry n w (total pre)) 0 (release pre k post)
  unfolding release
  free_entry-release [] t h = free-alone 0 t (omega arith) (is_prev_free-start w)
  free_entry-release (s ∷ pre) t h =
      free_entry-behind s pre 0 (total (s ∷ pre)) t (omega arith) (omega arith)
