-- ===== src/Memory/Free/Joins.antt =====
-- The writes of `__mem_free`: marking a run free, and joining it to a free neighbour.
use kernel_riscv.Base.{
  ℕ, ◌+◌, ◌-◌, ◌^◌, ◌≤◌, ◌<◌, ◌≡◌, ◌⊎◌, ◌∙◌, arith, ℤ, pos, neg_ℕ, add64_lt, sub64_le, to_u64-pos,
  add64-neg_ℕ, pos-minus-neg_ℕ,
}
use mathlib.Core.Path.{ap₂}
use kernel_riscv.Memory.{Words, set, Joined, mark_free, join_prev, join_next}
use kernel_riscv.Memory.Tiles.{Block}

abbrev pub joined : Words → ℕ → ℕ → Joined
joined w e k = record { words = w; entry = e; extent = pos k }

-- two words at the ends of a run, behind two that are cleared
abbrev ends : Words → (e k : ℕ) → Words
ends w e k = set (set w e (neg_ℕ k)) (e + k - 1) (neg_ℕ k)

module _ (w : Words) (e k : ℕ) (nonempty : 0 < k) where
  mark_free_lem : e + k < 2 ^ 31 → (mark_free (joined w e k)).words ≡ ends w e k
  unfolding mark_free
  mark_free_lem h = rw (
    to_u64-pos k (omega arith),
    add64_lt e k (omega arith),
    sub64_le (e + k) 1 (omega arith) (omega arith),
  )

  pub mark_free-Block :
      {t : ℤ}
      → Block w e k t
      → e + k < 2 ^ 31
      → Block (mark_free (joined w e k)).words e k (neg_ℕ k)
  mark_free-Block b h = rw (mark_free_lem h) (record {
    nonempty = nonempty;
    first = ground arith;
    last = ground arith;
    inner = λ x p q. ground (arith, b.inner x p q);
  })

  pub mark_free-outside :
      (x : ℕ) → e + k < 2 ^ 31 → (x < e) ⊎ (e + k ≤ x) → (mark_free (joined w e k)).words x ≡ w x
  mark_free-outside x h out = rw (mark_free_lem h) (ground arith)

  join_next_lem :
      (q : ℕ)
      → e + k + q < 2 ^ 31
      → w (e + k) ≡ neg_ℕ q
      → (join_next (joined w e k)).words
        ≡ ends (set (set w (e + k - 1) (pos 0)) (e + k) (pos 0)) e (k + q)
  unfolding join_next
  join_next_lem q h eq = rw (
    to_u64-pos k (omega arith),
    add64_lt e k (omega arith),
    eq,
    pos-minus-neg_ℕ k q,
    to_u64-pos (k + q) (omega arith),
    add64_lt e (k + q) (omega arith),
    sub64_le (e + k) 1 (omega arith) (omega arith),
    sub64_le (e + (k + q)) 1 (omega arith) (omega arith),
  )

  pub join_next-Block :
      (q : ℕ) {t : ℤ}
      → Block w e k t
      → Block w (e + k) q (neg_ℕ q)
      → e + k + q < 2 ^ 31
      → Block (join_next (joined w e k)).words e (k + q) (neg_ℕ (k + q))
  join_next-Block q b b2 h = rw (join_next_lem q h b2.first) (record {
    nonempty = omega arith;
    first = ground arith;
    last = ground arith;
    inner = λ x p r. ground (arith, b.inner x, b2.inner x, b2.nonempty);
  })

  pub join_next-outside :
      (q x : ℕ)
      → w (e + k) ≡ neg_ℕ q
      → 0 < q
      → e + k + q < 2 ^ 31
      → (x < e) ⊎ (e + k + q ≤ x)
      → (join_next (joined w e k)).words x ≡ w x
  join_next-outside q x eq p h out = rw (join_next_lem q h eq) (ground arith)

  join_prev_lem :
      (p : ℕ)
      → 0 < p
      → p ≤ e
      → e + k < 2 ^ 31
      → w (e - 1) ≡ neg_ℕ p
      → join_prev (joined w e k)
        ≡ joined (ends (set (set w e (pos 0)) (e - 1) (pos 0)) (e - p) (k + p)) (e - p) (k + p)
  unfolding join_prev
  join_prev_lem p pp h h' eq = rw (
    sub64_le e 1 (omega arith) (omega arith),
    eq,
    pos-minus-neg_ℕ k p,
    add64-neg_ℕ e p h (omega arith),
    to_u64-pos (k + p) (omega arith),
    add64_lt (e - p) (k + p) (omega arith),
    sub64_le (e - p + (k + p)) 1 (omega arith) (omega arith),
  )

-- Behind a free run of `p` blocks from entry `d` on, a run of `k` blocks becomes part of it.
module _ (w : Words) (d p k : ℕ) (nonempty : 0 < k) (before : Block w d p (neg_ℕ p))
    (fits : d + p + k < 2 ^ 31) where
  abbrev pub prev_words : Words
  prev_words = ends (set (set w (d + p) (pos 0)) (d + p - 1) (pos 0)) d (p + k)

  pub join_prev-joined : join_prev (joined w (d + p) k) ≡ joined prev_words d (p + k)
  join_prev-joined =
      join_prev_lem w (d + p) k nonempty p before.nonempty (omega arith) fits before.last
      ∙ ap₂ (λ x y. joined (ends (set (set w (d + p) (pos 0)) (d + p - 1) (pos 0)) x y) x y)
          (omega arith) (omega arith)

  pub prev_words-Block : {t : ℤ} → Block w (d + p) k t → Block prev_words d (p + k) (neg_ℕ (p + k))
  prev_words-Block b = record {
    nonempty = omega arith;
    first = ground arith;
    last = ground arith;
    inner = λ x h r. ground (arith, b.inner x, before.inner x, before.nonempty);
  }

  pub prev_words-outside : (x : ℕ) → (x < d) ⊎ (d + p + k ≤ x) → prev_words x ≡ w x
  prev_words-outside x out = ground (arith, before.nonempty)
