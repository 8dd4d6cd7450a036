-- ===== src/Memory/Exhausted.antt =====
-- What `__mem_alloc` does when no free run is large enough.
use kernel_riscv.Base.{
  ℕ, zero, suc, ◌+◌, ◌^◌, ◌≤◌, ◌<◌, ◌≡◌, ◌∙◌, ap, inl, inr, false, List, [], ◌∷◌, none, arith,
  length, is_neg, is_zero, if◌then◌else◌,
}
use kernel_riscv.Memory.{Layout, Words, done, panic, alloc_loop}
use kernel_riscv.Memory.Segments.{Seg, used, free, total, first_fit}
use kernel_riscv.Memory.Segments.Placement.{keep-eq_none, first_fit-free_none}
use kernel_riscv.Memory.Tiles.{Tiles}
use kernel_riscv.Memory.Alloc.Rounds

module _ (l : Layout) (n nb : ℕ) (w : Words) (small : n < 2 ^ 31)
    (behind : is_neg (w n) ≡ false) where
  pub alloc_loop-exhausted :
      (s : Seg) (ss : List Seg) (fuel i : ℕ)
      → Tiles w i (s ∷ ss)
      → i + total (s ∷ ss) ≡ n
      → length (s ∷ ss) ≤ fuel
      → first_fit nb i (s ∷ ss) ≡ none
      → alloc_loop l n nb (suc fuel) w i ≡ (if is_zero (w n) then panic else done (0, w))
  unfolding first_fit
  alloc_loop-exhausted s ss zero i t h len e = absurd (omega arith)
  alloc_loop-exhausted (used k) [] (suc fuel) i (b, t) h len e =
      Rounds.loop-used l n nb w small (suc fuel) i k b (omega arith)
      ∙ Rounds.entry-nonneg l n nb w small (suc fuel) (i + k)
          (ap (λ x. is_neg (w x)) (omega arith) ∙ behind)
      ∙ Rounds.check_entry-past_end l n nb w small fuel (i + k) (omega arith)
  alloc_loop-exhausted (free k) [] (suc fuel) i (b, t) h len e =
      Rounds.loop-free l n nb w small (suc fuel) i k b (omega arith)
      ∙ Rounds.entry-small l n nb w small (suc fuel) i k b (omega arith)
          (first_fit-free_none nb i k [] e).0
      ∙ Rounds.check_entry-past_end l n nb w small fuel (i + k) (omega arith)
  alloc_loop-exhausted (used k) (s ∷ ss) (suc fuel) i (b, (b2, t)) h len e =
      let e' = keep-eq_none (used k) (first_fit nb (i + k) (s ∷ ss)) e in
      elim (Rounds.loop-pass l n nb w small (suc fuel) i k s b b2 (omega arith)) [
        | inl p ↦ p ∙ alloc_loop-exhausted s ss fuel (i + k) (b2, t) (omega arith) (omega arith) e'
        | inr p ↦
            p ∙ alloc_loop-exhausted s ss (suc fuel) (i + k) (b2, t) (omega arith) (omega arith) e'
      ]
  alloc_loop-exhausted (free k) (s ∷ ss) (suc fuel) i (b, (b2, t)) h len e =
      let small_run = first_fit-free_none nb i k (s ∷ ss) e in
      Rounds.loop-small l n nb w small (suc fuel) i k s b b2 (omega arith) small_run.0
      ∙ alloc_loop-exhausted s ss fuel (i + k) (b2, t) (omega arith) (omega arith) small_run.1
