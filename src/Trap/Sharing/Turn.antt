-- ===== src/Trap/Sharing/Turn.antt =====
-- A turn: the running thread goes behind the ready ones, whatever waits on the semaphore.
use kernel_riscv.Base.{
  ℕ, ◌≡◌, ◌≢◌, ◌∙◌, ap, sym, subst, List, [], ◌∷◌, ◌++◌, arith, eq→==, ne→==, eq_cases, inl, inr,
}
use mathlib.Core.List.{append_assoc}
use kernel_riscv.Links.Queue.{
  NotIn, Distinct, IsQueue, IsQueue-frame, Distinct-Apart, NotIn-of_append, Apart-cons,
}
use kernel_riscv.Kernel.{Kernel}
use kernel_riscv.Scheduler.{scheduler_push, scheduler_next}
use kernel_riscv.Scheduler.Ready.{
  Ready, PushedReady, scheduler_push-PushedReady, NextReady, scheduler_next-NextReady,
}
use kernel_riscv.Threads.{yield}
use kernel_riscv.Threads.Switch.{yield-shape}
use kernel_riscv.Semaphores.Blocking.{debt, Waiting}
use kernel_riscv.Links.Insert.Rings.{NotIn-insert, Distinct-insert}
use kernel_riscv.Trap.RoundRobin.{dispatch-Running}
use kernel_riscv.Trap.{dispatch}

-- No thread's time slice is used up.
abbrev pub Untimed : Kernel → Type 0
Untimed k = (t : ℕ) → (k.thread_at t).time_left ≢ 0

pub yield-time_left :
    (a b t : ℕ) (k : Kernel) → ((yield a b k).thread_at t).time_left ≡ (k.thread_at t).time_left
unfolding yield
yield-time_left a b t k = ground arith

pub scheduler_push-Untimed : (k : Kernel) (t : ℕ) → Untimed k → Untimed (scheduler_push t k)
unfolding scheduler_push
scheduler_push-Untimed k t u z = elim (eq_cases z t) [
  | inl e ↦ rw (eq→== z t e) (λ w. omega (arith, w))
  | inr e ↦ rw (ne→== z t e) (u z)
]

pub scheduler_next_threads : (k : Kernel) → (scheduler_next k).1.thread_at ≡ k.thread_at
unfolding scheduler_next
scheduler_next_threads k = ground arith

pub scheduler_next_sems : (k : Kernel) → (scheduler_next k).1.sem_at ≡ k.sem_at
unfolding scheduler_next
scheduler_next_sems k = ground arith

pub dispatch-Untimed : (k : Kernel) → Untimed k → Untimed (dispatch k)
unfolding dispatch
dispatch-Untimed k u t e =
    let current = k.scheduler.thread_current in
    let k1 = scheduler_push current k in
    scheduler_push-Untimed k current u t (
      sym (ap (λ z. (z t).time_left) (scheduler_next_threads k1))
      ∙ sym (yield-time_left current (scheduler_next k1).0 t (scheduler_next k1).1)
      ∙ e)

module _ (k : Kernel) (s c h : ℕ) (xs t ws : List ℕ) where
  -- the threads, with the running one behind the ready ones
  behind-Distinct : Waiting k s c xs ws → xs ++ (c ∷ []) ≡ h ∷ t → Distinct (h ∷ t ++ ws)
  behind-Distinct w e =
      subst (λ z. Distinct (z ++ ws)) e
        (subst Distinct (sym (append_assoc xs (c ∷ []) ws))
          (Distinct-insert c xs ws w.distinct.0 w.distinct.1))

  behind-nonnull : Waiting k s c xs ws → xs ++ (c ∷ []) ≡ h ∷ t → NotIn 0 (h ∷ t ++ ws)
  behind-nonnull w e =
      subst (λ z. NotIn 0 (z ++ ws)) e
        (subst (NotIn 0) (sym (append_assoc xs (c ∷ []) ws))
          (NotIn-insert 0 c xs ws w.nonnull.0 w.nonnull.1))

  -- The queue of the semaphore stays as it is.
  dispatch-queue :
      Waiting k s c xs ws
      → xs ++ (c ∷ []) ≡ h ∷ t
      → IsQueue (dispatch k).links (k.sem_at s).waiting_threads ws
  unfolding dispatch
  dispatch-queue w e =
      let current = k.scheduler.thread_current in
      let k1 = scheduler_push current k in
      let parts = Distinct-Apart xs ws w.distinct.1 in
      let p : PushedReady k k1 current xs =
        scheduler_push-PushedReady k current xs w.ready (λ z. w.nonnull.0 (sym z ∙ w.current))
          (subst (λ x. NotIn x xs) (sym w.current) (NotIn-of_append c xs ws w.distinct.0).0) in
      let n : NextReady k1 h t (scheduler_next k1) =
        scheduler_next-NextReady k1 h t
          (subst (Ready k1) (ap (λ x. xs ++ (x ∷ [])) w.current ∙ e) p.ready) in
      let (threads, cpu, y) = yield-shape current (scheduler_next k1).0 (scheduler_next k1).1 in
      let fresh =
        subst (λ x. NotIn x ws) (sym w.current) (NotIn-of_append c xs ws w.distinct.0).1 in
      subst (λ z. IsQueue z (k.sem_at s).waiting_threads ws) (sym (ap (λ z. z.links) y))
        (IsQueue-frame k1.links (scheduler_next k1).1.links t (k.sem_at s).waiting_threads ws
          n.links (Distinct-Apart t ws (behind-Distinct w e).1).1
          (IsQueue-frame k.links k1.links (current ∷ xs) (k.sem_at s).waiting_threads ws p.links
            (Apart-cons current ws xs fresh parts.1) w.queue))

  dispatch-sems : (dispatch k).sem_at ≡ k.sem_at
  unfolding dispatch scheduler_push
  dispatch-sems =
      let current = k.scheduler.thread_current in
      let k1 = scheduler_push current k in
      let (threads, cpu, y) = yield-shape current (scheduler_next k1).0 (scheduler_next k1).1 in
      ap (λ z. z.sem_at) y ∙ scheduler_next_sems k1

  -- After a turn the first of the queue, with the running thread behind it, runs.
  pub dispatch-Waiting :
      Waiting k s c xs ws
      → xs ++ (c ∷ []) ≡ h ∷ t
      → Waiting (dispatch k) s h t ws × ((dispatch k).sem_at s ≡ k.sem_at s)
  dispatch-Waiting w e =
      let r =
        dispatch-Running k c h xs t
          (record {
            current = w.current;
            ready = w.ready;
            distinct =
                ((NotIn-of_append c xs ws w.distinct.0).0, (Distinct-Apart xs ws w.distinct.1).2);
            nonnull = (w.nonnull.0, (NotIn-of_append 0 xs ws w.nonnull.1).0);
          })
          e in
      let same : (dispatch k).sem_at s ≡ k.sem_at s = ap (λ f. f s) dispatch-sems in
      (
        record {
          current = r.current;
          ready = r.ready;
          queue =
              subst (λ z. IsQueue (dispatch k).links z ws) (sym (ap (λ z. z.waiting_threads) same))
                (dispatch-queue w e);
          count = ap (λ z. debt z.val) same ∙ w.count;
          distinct = behind-Distinct w e;
          nonnull = behind-nonnull w e;
        },
        same,
      )
