-- ===== src/Memory/Alloc.antt =====
-- `__mem_alloc` is first fit on the runs of the heap.
mod Writes
pub mod Rounds
use kernel_riscv.Base.{
  ℕ, zero, suc, ◌+◌, ◌-◌, ◌*◌, ◌^◌, ◌≤◌, ◌<◌, ◌≡◌, ◌≢◌, refl, ◌∙◌, sym, subst, lt_cases, eq_cases,
  ◌⊎◌, inl, inr, Bool, true, false, Bool-cases, List, [], ◌∷◌, Option, none, some, arith, ltb, ◌==◌,
  if◌then◌else◌, not, length, ℤ, pos, neg_ℕ, is_pos, is_neg, is_zero, neg, to_u64, add64_lt,
  sub64_le, to_i32_lt, to_i32-neg64, to_u64-pos, is_pos-pos, is_zero-pos, is_pos-neg_ℕ,
  is_neg-neg_ℕ, is_zero-neg_ℕ, neg-neg_ℕ, lt→ltb, le→ltb, eq→==, ne→==, add64, sub64,
}
use kernel_riscv.Memory.{
  Layout, Words, set, Mem, Run, done, panic, out_of_fuel, split, take_all, alloc_loop, alloc_entry,
  check_entry, mem_alloc, mem_block_size,
}
use kernel_riscv.Memory.Segments.{Seg, used, free, size, total, keep, first_fit}
use kernel_riscv.Memory.Segments.Placement.{keep-eq_some}
use kernel_riscv.Memory.Tiles.{tag, Block, Tiles, Same, IsHeap, Tiles-frame, Block-frame}
use Writes.{split-taken, split-left, split-outside, take_all-taken, take_all-outside}
use Rounds
use Rounds.{Result}

-- The call returns entry `j`, and from entry `i` on the words represent `ss`; the entries below `i`
-- and those behind the index are as before.
pub record Fits (l : Layout) (n : ℕ) (w : Words) (i j : ℕ) (ss : List Seg) (r : Result)
    : Type 0 where
  pub words : Words
  pub returns : r ≡ done (l.heap_start + j * mem_block_size, words)
  pub tiles : Tiles words i ss
  pub below : Same 0 i w words
  pub above : (x : ℕ) → n ≤ x → words x ≡ w x

module _ {l : Layout} {n : ℕ} {w : Words} where
  Fits-cons :
      {i j : ℕ} {ss : List Seg} {r : Result} (s : Seg)
      → Block w i (size s) (tag s)
      → Fits l n w (i + size s) j ss r
      → Fits l n w i j (s ∷ ss) r
  Fits-cons {i} s b f = record {
    words = f.words;
    returns = f.returns;
    tiles = (Block-frame i (size s) b (λ x h k. f.below x (omega arith) k), f.tiles);
    below = λ x h k. f.below x h (omega arith);
    above = f.above;
  }

  Fits-eq :
      {i j : ℕ} {ss : List Seg} {r r' : Result}
      → r' ≡ r
      → Fits l n w i j ss r
      → Fits l n w i j ss r'
  Fits-eq e f = record {
    words = f.words;
    returns = e ∙ f.returns;
    tiles = f.tiles;
    below = f.below;
    above = f.above;
  }

module _ (l : Layout) (n nb : ℕ) (w : Words) (small : n < 2 ^ 31) (positive : 0 < nb) where
  -- the free run at `i` that the loop takes
  Fits-split :
      (fuel i k : ℕ) (ss : List Seg)
      → Tiles w i (free k ∷ ss)
      → i + k ≤ n
      → nb < k
      → Fits l n w i i (used nb ∷ free (k - nb) ∷ ss) (alloc_loop l n nb (suc fuel) w i)
  Fits-split fuel i k ss (b, t) h q = record {
    words = split w i k nb;
    returns =
        Rounds.loop-free l n nb w small fuel i k b h
        ∙ Rounds.entry-split l n nb w small fuel i k b h q;
    tiles = (
      split-taken w i k nb positive q (omega arith) b,
      (
        split-left w i k nb positive q (omega arith) b,
        Tiles-frame (i + nb + (k - nb)) ss (subst (λ x. Tiles w x ss) (omega arith) t)
            (λ x h' k'. split-outside w i k nb x positive q (omega arith) (inr (omega arith))),
      ),
    );
    below = λ x h' k'. split-outside w i k nb x positive q (omega arith) (inl k');
    above = λ x h'. split-outside w i k nb x positive q (omega arith) (inr (omega arith));
  }

  Fits-take_all :
      (fuel i : ℕ) (ss : List Seg)
      → Tiles w i (free nb ∷ ss)
      → i + nb ≤ n
      → Fits l n w i i (used nb ∷ ss) (alloc_loop l n nb (suc fuel) w i)
  Fits-take_all fuel i ss (b, t) h = record {
    words = take_all w i nb;
    returns =
        Rounds.loop-free l n nb w small fuel i nb b h
        ∙ Rounds.entry-take_all l n nb w small fuel i b h;
    tiles = (
      take_all-taken w i nb positive (omega arith) b,
      Tiles-frame (i + nb) ss t
          (λ x h' k'. take_all-outside w i nb x positive (omega arith) (inr (omega arith))),
    );
    below = λ x h' k'. take_all-outside w i nb x positive (omega arith) (inl k');
    above = λ x h'. take_all-outside w i nb x positive (omega arith) (inr (omega arith));
  }

  -- the two outcomes of first fit that end at the run itself
  Fits-here :
      {i j : ℕ} {ss ss' : List Seg} {r : Result}
      → Fits l n w i i ss r
      → ◌≡◌ {A = Option (ℕ × List Seg)} (some (i, ss)) (some (j, ss'))
      → Fits l n w i j ss' r
  Fits-here {i} {j} {ss} {ss'} f e = let e1 : j ≡ i = cc in let e2 : ss' ≡ ss = cc in rw (e1, e2) f

  Fits-free :
      (fuel i k : ℕ) (ss : List Seg) {j : ℕ} {ss' : List Seg}
      → Tiles w i (free k ∷ ss)
      → i + k ≤ n
      → first_fit nb i (free k ∷ ss) ≡ some (j, ss')
      → Fits l n w i j ss' (alloc_loop l n nb (suc fuel) w i)
        ⊎ ((k < nb) × (keep (free k) (first_fit nb (i + k) ss) ≡ some (j, ss')))
  unfolding first_fit
  Fits-free fuel i k ss t h e = elim (lt_cases nb k) [
    | inl q ↦ inl (Fits-here (Fits-split fuel i k ss t h q) (rw (lt→ltb nb k q) at e))
    | inr q ↦ elim (eq_cases k nb) [
      | inl q' ↦ inl (
          Fits-here
            (Fits-take_all fuel i ss (subst (λ x. Tiles w i (free x ∷ ss)) q' t) (omega arith))
            (rw (le→ltb nb k q, eq→== k nb q') at e))
      | inr q' ↦ inr (omega arith, rw (le→ltb nb k q, ne→== k nb q') at e)
    ]
  ]

  pub alloc_loop-Fits :
      (ss : List Seg) (fuel i : ℕ) {j : ℕ} {ss' : List Seg}
      → Tiles w i ss
      → i + total ss ≤ n
      → length ss ≤ fuel
      → first_fit nb i ss ≡ some (j, ss')
      → Fits l n w i j ss' (alloc_loop l n nb (suc fuel) w i)
  unfolding first_fit
  alloc_loop-Fits [] fuel i t h len e = cc
  alloc_loop-Fits (used k ∷ []) fuel i t h len e = cc
  alloc_loop-Fits (used k ∷ s ∷ ss) zero i t h len e = absurd (omega arith)
  alloc_loop-Fits (used k ∷ s ∷ ss) (suc fuel) i (b, (b2, t)) h len e =
      let (ss'', e', eq) = keep-eq_some (used k) (first_fit nb (i + k) (s ∷ ss)) e in
      rw eq (
        Fits-cons (used k) b
          (elim (Rounds.loop-pass l n nb w small (suc fuel) i k s b b2 (omega arith)) [
            | inl p ↦
                Fits-eq p
                  (alloc_loop-Fits (s ∷ ss) fuel (i + k) (b2, t) (omega arith) (omega arith) e')
            | inr p ↦
                Fits-eq p (
                  alloc_loop-Fits (s ∷ ss) (suc fuel) (i + k) (b2, t) (omega arith) (omega arith)
                    e')
          ]))
  alloc_loop-Fits (free k ∷ []) fuel i t h len e = elim (Fits-free fuel i k [] t (omega arith) e) [
    | inl f ↦ f
    | inr (q, e') ↦ cc
  ]
  alloc_loop-Fits (free k ∷ s ∷ ss) zero i t h len e = absurd (omega arith)
  alloc_loop-Fits (free k ∷ s ∷ ss) (suc fuel) i (b, (b2, t)) h len e =
      elim (Fits-free (suc fuel) i k (s ∷ ss) (b, (b2, t)) (omega arith) e) [
        | inl f ↦ f
        | inr (q, e') ↦
            let (ss'', e'', eq) = keep-eq_some (free k) (first_fit nb (i + k) (s ∷ ss)) e' in
            rw eq (
              Fits-cons (free k) b (
                Fits-eq (Rounds.loop-small l n nb w small (suc fuel) i k s b b2 (omega arith) q)
                  (alloc_loop-Fits (s ∷ ss) fuel (i + k) (b2, t) (omega arith) (omega arith) e'')))
      ]
