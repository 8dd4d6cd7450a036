-- ===== src/Trap/RoundRobin.antt =====
-- `thread_dispatch` and the end of a time slice: the threads take turns.
use kernel_riscv.Base.{
  ℕ, zero, suc, ◌≡◌, refl, ◌∙◌, ap, sym, subst, List, [], ◌∷◌, ◌++◌, length, arith,
}
use mathlib.Core.List.{append_assoc}
use kernel_riscv.Links.Queue.{NotIn, Distinct, IsQueue, NotIn-append, Distinct-snoc}
use kernel_riscv.Kernel.{Kernel}
use kernel_riscv.Scheduler.{scheduler_push, scheduler_next}
use kernel_riscv.Scheduler.Ready.{
  Ready, PushedReady, scheduler_push-PushedReady, NextReady, scheduler_next-NextReady,
}
use kernel_riscv.Threads.{yield}
use kernel_riscv.Trap.{dispatch}

-- Thread `c` runs, and the threads `xs` are ready, in this order.
pub record Running (k : Kernel) (c : ℕ) (xs : List ℕ) : Type 0 where
  pub current : k.scheduler.thread_current ≡ c
  pub ready : Ready k xs
  pub distinct : Distinct (c ∷ xs)
  pub nonnull : NotIn 0 (c ∷ xs)

yield-scheduler : (a b : ℕ) (k : Kernel) → (yield a b k).scheduler ≡ k.scheduler
unfolding yield
yield-scheduler a b k = ground arith

yield-links : (a b : ℕ) (k : Kernel) → (yield a b k).links ≡ k.links
unfolding yield
yield-links a b k = ground arith

-- The running thread goes behind the ready ones, and the first of the queue runs.
pub dispatch-Running :
    (k : Kernel) (c h : ℕ) (xs t : List ℕ)
    → Running k c xs
    → xs ++ (c ∷ []) ≡ h ∷ t
    → Running (dispatch k) h t
unfolding dispatch
dispatch-Running k c h xs t r e = record {
  current = ap (λ s. s.thread_current) (yield-scheduler current _ _) ∙ n.current;
  ready =
      subst (λ s. IsQueue s.0 s.1 t)
        (Σ_eq (sym (yield-links current (scheduler_next k1).0 (scheduler_next k1).1)) (
          sym (
            ap (λ s. s.ready_threads)
              (yield-scheduler current (scheduler_next k1).0 (scheduler_next k1).1))))
        n.ready;
  distinct = subst Distinct e (Distinct-snoc c xs r.distinct.1 r.distinct.0);
  nonnull = subst (NotIn 0) e (NotIn-append 0 xs (c ∷ []) r.nonnull.1 (r.nonnull.0, tt));
}
  where
    current : ℕ
    current = k.scheduler.thread_current

    k1 : Kernel
    k1 = scheduler_push current k

    Σ_eq : {A B : Type 0} {a a' : A} {b b' : B} → a ≡ a' → b ≡ b' → ◌≡◌ {A = A × B} (a, b) (a', b')
    Σ_eq p q = λ i. (p i, q i)

    p : PushedReady k k1 current xs
    p =
        scheduler_push-PushedReady k current xs r.ready (λ z. r.nonnull.0 (sym z ∙ r.current))
          (subst (λ x. NotIn x xs) (sym r.current) r.distinct.0)

    n : NextReady k1 h t (scheduler_next k1)
    n =
        scheduler_next-NextReady k1 h t
          (subst (Ready k1) (ap (λ x. xs ++ (x ∷ [])) r.current ∙ e) p.ready)

-- `n` dispatches in a row; between them the threads run, which changes neither queue nor current.
unfoldable pub dispatches : ℕ → Kernel → Kernel
dispatches zero k = k
dispatches (suc n) k = dispatches n (dispatch k)

-- A thread behind `n` others in the ready queue runs after `n + 1` dispatches, and the order is a
-- rotation of the old one.
pub dispatches-Running :
    (pre post : List ℕ) (k : Kernel) (c x : ℕ)
    → Running k c (pre ++ x ∷ post)
    → Running (dispatches (suc (length pre)) k) x (post ++ c ∷ pre)
unfolding dispatches
dispatches-Running [] post k c x r = dispatch-Running k c x (x ∷ post) (post ++ (c ∷ [])) r refl
dispatches-Running (p ∷ pre) post k c x r =
    subst (Running (dispatches (suc (length pre)) (dispatch k)) x)
      (append_assoc post (c ∷ []) (p ∷ pre))
      (dispatches-Running pre (post ++ (c ∷ [])) (dispatch k) p x (
        subst (Running (dispatch k) p) (append_assoc pre (x ∷ post) (c ∷ []))
          (dispatch-Running k c p (p ∷ pre ++ x ∷ post) ((pre ++ x ∷ post) ++ (c ∷ [])) r refl)))
