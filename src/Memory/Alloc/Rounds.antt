-- ===== src/Memory/Alloc/Rounds.antt =====
-- One round of the loop of `__mem_alloc` at each kind of run.
use kernel_riscv.Base.{
  ℕ, suc, ◌+◌, ◌*◌, ◌^◌, ◌≤◌, ◌<◌, ◌≡◌, refl, ◌∙◌, sym, ◌⊎◌, inl, inr, false, Bool-cases, arith,
  if◌then◌else◌, pos, neg_ℕ, is_neg, is_zero, add64_lt, to_u64-pos, is_pos-pos, is_zero-pos,
  is_pos-neg_ℕ, is_neg-neg_ℕ, is_zero-neg_ℕ, neg-neg_ℕ, lt→ltb, le→ltb, eq→==, ne→==,
}
use kernel_riscv.Memory.{
  Layout, Words, Run, done, panic, split, take_all, alloc_loop, alloc_entry, check_entry,
  mem_block_size,
}
use kernel_riscv.Memory.Segments.{Seg, used, free, size}
use kernel_riscv.Memory.Tiles.{tag, Block}

abbrev pub Result : Type 0
Result = Run (ℕ × Words)

module _ (l : Layout) (n nb : ℕ) (w : Words) (small : n < 2 ^ 31) where
  abbrev pub loop : ℕ → ℕ → Result
  loop fuel i = alloc_loop l n nb fuel w i

  -- the body behind the step over a run in use
  abbrev pub entry : ℕ → ℕ → Result
  entry fuel i = alloc_entry l nb w (loop fuel) i

  pub loop-end : (fuel i : ℕ) → n ≤ i → loop (suc fuel) i ≡ done (0, w)
  unfolding alloc_loop
  loop-end fuel i h = rw (le→ltb i n h)

  pub loop-used :
      (fuel i k : ℕ) → Block w i k (pos k) → i + k ≤ n → loop (suc fuel) i ≡ entry fuel (i + k)
  unfolding alloc_loop
  loop-used fuel i k b h = rw (
    lt→ltb i n (omega (arith, b.nonempty)),
    b.first,
    is_pos-pos k b.nonempty,
    to_u64-pos k (omega arith),
    add64_lt i k (omega arith),
  )

  pub loop-free :
      (fuel i k : ℕ) → Block w i k (neg_ℕ k) → i + k ≤ n → loop (suc fuel) i ≡ entry fuel i
  unfolding alloc_loop
  loop-free fuel i k b h = rw (lt→ltb i n (omega (arith, b.nonempty)), b.first, is_pos-neg_ℕ k)

  pub check_entry-nonzero :
      (next : ℕ → Result) (i : ℕ) → is_zero (w i) ≡ false → check_entry w next i ≡ next i
  unfolding check_entry
  check_entry-nonzero next i e = rw (e, check_entry)

  pub entry-used : (fuel i k : ℕ) → Block w i k (pos k) → entry fuel i ≡ loop fuel i
  unfolding alloc_entry
  entry-used fuel i k b =
      rw b.first (check_entry-nonzero (loop fuel) i (rw b.first (is_zero-pos k b.nonempty)))

  pub entry-small :
      (fuel i k : ℕ)
      → Block w i k (neg_ℕ k)
      → i + k ≤ n
      → k < nb
      → entry fuel i ≡ check_entry w (loop fuel) (i + k)
  unfolding alloc_entry
  entry-small fuel i k b h q = rw (
    b.first,
    is_neg-neg_ℕ k b.nonempty,
    neg-neg_ℕ k,
    to_u64-pos k (omega arith),
    add64_lt i k (omega arith),
    le→ltb nb k (omega arith),
    ne→== k nb (omega arith),
  )

  pub entry-split :
      (fuel i k : ℕ)
      → Block w i k (neg_ℕ k)
      → i + k ≤ n
      → nb < k
      → entry fuel i ≡ done (l.heap_start + i * mem_block_size, split w i k nb)
  unfolding alloc_entry
  entry-split fuel i k b h q =
      rw
        (b.first, is_neg-neg_ℕ k b.nonempty, neg-neg_ℕ k, to_u64-pos k (omega arith), lt→ltb nb k q)

  pub entry-take_all :
      (fuel i : ℕ)
      → Block w i nb (neg_ℕ nb)
      → i + nb ≤ n
      → entry fuel i ≡ done (l.heap_start + i * mem_block_size, take_all w i nb)
  unfolding alloc_entry
  entry-take_all fuel i b h = rw (
    b.first,
    is_neg-neg_ℕ nb b.nonempty,
    neg-neg_ℕ nb,
    to_u64-pos nb (omega arith),
    le→ltb nb nb (omega arith),
    eq→== nb nb refl,
  )

  pub head_nonzero : (i : ℕ) (s : Seg) → Block w i (size s) (tag s) → is_zero (w i) ≡ false
  head_nonzero i (used k) b = rw b.first (is_zero-pos k b.nonempty)
  head_nonzero i (free k) b = rw b.first (is_zero-neg_ℕ k b.nonempty)

  -- The loop passes a run in use that has another run behind it.
  pub loop-pass :
      (fuel i k : ℕ) (s : Seg)
      → Block w i k (pos k)
      → Block w (i + k) (size s) (tag s)
      → i + k + size s ≤ n
      → (loop (suc fuel) i ≡ loop fuel (i + k)) ⊎ (loop (suc fuel) i ≡ loop (suc fuel) (i + k))
  loop-pass fuel i k (used k2) b b2 h =
      inl (loop-used fuel i k b (omega arith) ∙ entry-used fuel (i + k) k2 b2)
  loop-pass fuel i k (free k2) b b2 h =
      inr (loop-used fuel i k b (omega arith) ∙ sym (loop-free fuel (i + k) k2 b2 h))

  pub loop-small :
      (fuel i k : ℕ) (s : Seg)
      → Block w i k (neg_ℕ k)
      → Block w (i + k) (size s) (tag s)
      → i + k ≤ n
      → k < nb
      → loop (suc fuel) i ≡ loop fuel (i + k)
  loop-small fuel i k s b b2 h q =
      loop-free fuel i k b h
      ∙ entry-small fuel i k b h q
      ∙ check_entry-nonzero (loop fuel) (i + k) (head_nonzero (i + k) s b2)

  pub entry-nonneg :
      (fuel i : ℕ) → is_neg (w i) ≡ false → entry fuel i ≡ check_entry w (loop fuel) i
  unfolding alloc_entry
  entry-nonneg fuel i e = rw e

  -- what the code does when it has walked off the end of the index
  abbrev pub past_end : Result
  past_end = if is_zero (w n) then panic else done (0, w)

  pub check_entry-past_end : (fuel i : ℕ) → i ≡ n → check_entry w (loop (suc fuel)) i ≡ past_end
  unfolding check_entry
  check_entry-past_end fuel i e = rw e (elim (Bool-cases (is_zero (w n))) [
    | inl z ↦ rw (z, check_entry, past_end)
    | inr z ↦ rw (z, check_entry, past_end) (loop-end fuel n (omega arith))
  ])
