-- ===== src/Trap/Slices.antt =====
-- The timer interrupt of `irq_handler` and a thread's time slice.
use kernel_riscv.Base.{
  ℕ, zero, suc, ◌^◌, ◌<◌, ◌≡◌, ◌≢◌, refl, ◌∙◌, ap, sym, subst, List, [], ◌∷◌, ◌++◌, arith, sub64,
  eq→==, ne→==, ◌==◌, eq_cases, inl, inr,
}
use kernel_riscv.Memory.{Layout, done}
use kernel_riscv.Kernel.{Kernel, M, ◌>>◌, pure, set_thread, put_self, and_then}
use kernel_riscv.Timer.{scheduler_tick}
use kernel_riscv.Trap.{timer_interrupt, dispatch}
use kernel_riscv.Trap.RoundRobin.{Running, dispatch-Running}

-- timer interrupts in a row
unfoldable pub interrupts : Layout → ℕ → M (Unit {0})
interrupts l zero = pure tt
interrupts l (suc n) = timer_interrupt l >> interrupts l n

-- how many ticks `time_left` stands for, as the interrupt counts them
abbrev pub slice : ℕ → ℕ
slice zero = 2 ^ 64
slice (suc n) = suc n

slice-one : (s : ℕ) → s < 2 ^ 64 → sub64 s 1 ≡ 0 → slice s ≡ 1
slice-one zero b e = absurd (omega (arith, e))
slice-one (suc s) b e = omega (arith, e)

slice-pos : (s : ℕ) → s ≢ 0 → slice s ≡ s
slice-pos zero n = absurd (n refl)
slice-pos (suc s) n = refl

slice-down : (s : ℕ) → s < 2 ^ 64 → sub64 s 1 ≢ 0 → slice s ≡ suc (slice (sub64 s 1))
slice-down zero b n = refl
slice-down (suc s) b n = omega (arith, slice-pos (sub64 (suc s) 1) n)

-- the running thread with a tick less
abbrev pub ticked : Kernel → Kernel
ticked k =
    let c = k.scheduler.thread_current in
    set_thread c (record (k.thread_at c) { time_left = sub64 (k.thread_at c).time_left 1 }) k

unfoldable pub left_of : Kernel → ℕ
left_of k = (k.thread_at k.scheduler.thread_current).time_left

ticked_left : (k : Kernel) → left_of (ticked k) ≡ sub64 (left_of k) 1
unfolding left_of
ticked_left k =
    ap (λ z. z.time_left)
      (put_self k.thread_at k.scheduler.thread_current
        (record (k.thread_at k.scheduler.thread_current) { time_left = sub64 (left_of k) 1 }))

pub timer_interrupt-keeps :
    (l : Layout) (k : Kernel)
    → k.scheduler.sleeping_threads ≡ 0
    → sub64 (left_of k) 1 ≢ 0
    → timer_interrupt l k ≡ done (tt, ticked k)
unfolding timer_interrupt scheduler_tick left_of
timer_interrupt-keeps l k e n =
    rw
      (
        eq→== k.scheduler.sleeping_threads 0 e,
        ap (λ z. z == 0) (ticked_left k) ∙ ne→== (sub64 (left_of k) 1) 0 n,
      )
      refl

pub timer_interrupt-ends :
    (l : Layout) (k : Kernel)
    → k.scheduler.sleeping_threads ≡ 0
    → sub64 (left_of k) 1 ≡ 0
    → timer_interrupt l k ≡ done (tt, dispatch (ticked k))
unfolding timer_interrupt scheduler_tick left_of
timer_interrupt-ends l k e n =
    rw
      (
        eq→== k.scheduler.sleeping_threads 0 e,
        ap (λ z. z == 0) (ticked_left k) ∙ eq→== (sub64 (left_of k) 1) 0 n,
      )
      refl

ticked-Running : (k : Kernel) (c : ℕ) (xs : List ℕ) → Running k c xs → Running (ticked k) c xs
ticked-Running k c xs r = record {
  current = r.current;
  ready = r.ready;
  distinct = r.distinct;
  nonnull = r.nonnull;
}

-- Nobody sleeps, thread `c` runs with a slice of `slice s` ticks, where `s` is its `time_left`, and
-- thread `h` is the first ready one. After fewer timer interrupts `c` still runs and the queue is as
-- it was; after exactly that many, `h` runs and `c` is last in the queue. A `time_left` of 0 stands
-- for 2^64 ticks.
pub interrupts-slice :
    (l : Layout) (n s c h : ℕ) (t : List ℕ) (k : Kernel)
    → k.scheduler.sleeping_threads ≡ 0
    → Running k c (h ∷ t)
    → (k.thread_at c).time_left ≡ s
    → s < 2 ^ 64
    → (n < slice s → (k' : Kernel) × (interrupts l n k ≡ done (tt, k')) × Running k' c (h ∷ t))
      × (n ≡ slice s
          → (k' : Kernel) × (interrupts l n k ≡ done (tt, k')) × Running k' h (t ++ (c ∷ [])))
unfolding interrupts left_of
interrupts-slice l zero s c h t k e r v b = (λ m. (k, refl, r), λ m. absurd (nonzero s m))
  where
    nonzero : (s : ℕ) → 0 ≡ slice s → ⊥
    nonzero zero m = omega arith
    nonzero (suc s) m = omega arith
interrupts-slice l (suc n) s c h t k e r v b =
    let at : left_of k ≡ s = ap (λ z. (k.thread_at z).time_left) r.current ∙ v in
    elim (eq_cases (sub64 s 1) 0) [
      | inl w ↦
          let one = slice-one s b w in
          let ends = timer_interrupt-ends l k e (ap (λ z. sub64 z 1) at ∙ w) in
          (
            λ m. absurd (omega (arith, one, m)),
            λ m.
                let none : 0 ≡ n = omega (arith, one, m) in
                subst
                  (λ z.
                    (k' : Kernel) × ((timer_interrupt l >> interrupts l z) k ≡ done (tt, k'))
                    × Running k' h (t ++ (c ∷ [])))
                  none
                  (
                    dispatch (ticked k),
                    ap (λ z. and_then z (λ _. interrupts l 0)) ends,
                    dispatch-Running (ticked k) c h (h ∷ t) (t ++ (c ∷ []))
                        (ticked-Running k c (h ∷ t) r) refl,
                  ),
          )
      | inr w ↦
          let down = slice-down s b w in
          let keeps = timer_interrupt-keeps l k e (λ z. w (sym (ap (λ y. sub64 y 1) at) ∙ z)) in
          let first = ap (λ y. and_then y (λ _. interrupts l n)) keeps in
          let rest =
            interrupts-slice l n (sub64 s 1) c h t (ticked k) e (ticked-Running k c (h ∷ t) r)
              (sym (ap (λ z. ((ticked k).thread_at z).time_left) r.current)
                ∙ ticked_left k
                ∙ ap (λ z. sub64 z 1) at)
              (omega arith) in
          (
            λ m. let (k', u, q) = rest.0 (omega (arith, down, m)) in (k', first ∙ u, q),
            λ m. let (k', u, q) = rest.1 (omega (arith, down, m)) in (k', first ∙ u, q),
          )
    ]
