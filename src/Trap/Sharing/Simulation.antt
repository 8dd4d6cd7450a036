-- ===== src/Trap/Sharing/Simulation.antt =====
-- The kernel follows the view: each event, and any sequence of them, through `__sem_wait`,
-- `__sem_signal` and the exchange of threads.
use kernel_riscv.Base.{
  ℕ, ◌≡◌, ◌≢◌, refl, ◌∙◌, ap, sym, subst, true, false, List, [], ◌∷◌, ◌++◌, ℤ, pos, negsuc, ◌+ℤ◌,
  is_neg, arith, least_i32, Bool, if◌then◌else◌, eq_cases, inl, inr,
}
use mathlib.Core.List.{append_assoc, Perm, perm_middle, perm_append_singleton}
use mathlib.Core.List.Perm
use kernel_riscv.Memory.{Layout, done}
use kernel_riscv.Links.{push_node}
use kernel_riscv.Kernel.{Kernel, put_self}
use kernel_riscv.Scheduler.{scheduler_next}
use kernel_riscv.Threads.{switch_away}
use kernel_riscv.Threads.Switch.{yield-shape}
use kernel_riscv.Semaphores.{sem_wait, sem_push, lower_val}
use kernel_riscv.Semaphores.Values.{add_val, lower_val-add, passes_least}
use kernel_riscv.Semaphores.Blocking.{debt, sem_wait-passes, sem_wait-blocks}
use kernel_riscv.Semaphores.Waking.{sem_signal-raises, sem_signal-wakes}
use kernel_riscv.Trap.{dispatch}
use kernel_riscv.Trap.Sharing.{
  Event, act, acts, View, Step, pass, block, raise, wake, last, rotate, Steps, here, next, Shows,
  population,
}
use kernel_riscv.Trap.Sharing.Turn.{
  Untimed, yield-time_left, scheduler_next_threads, scheduler_next_sems, dispatch-Untimed,
  dispatch-Waiting,
}

switch_away_sems : (k : Kernel) → (switch_away k).1.sem_at ≡ k.sem_at
unfolding switch_away
switch_away_sems k =
    let (threads, cpu, y) =
      yield-shape k.scheduler.thread_current (scheduler_next k).0 (scheduler_next k).1 in
    ap (λ z. z.sem_at) y ∙ scheduler_next_sems k

switch_away_time :
    (k : Kernel) (t : ℕ) → ((switch_away k).1.thread_at t).time_left ≡ (k.thread_at t).time_left
unfolding switch_away
switch_away_time k t =
    yield-time_left k.scheduler.thread_current (scheduler_next k).0 t (scheduler_next k).1
    ∙ ap (λ z. (z t).time_left) (scheduler_next_threads k)

if_both {ℓ κ} :
    {A : Type ℓ} (P : A → Type κ) (b : Bool) (x y : A) → P x → P y → P (if b then x else y)
if_both P true x y p q = p
if_both P false x y p q = q

-- A wait lowers the value, and gives no thread a timeout.
sem_wait_value :
    (k : Kernel) (s : ℕ)
    → (k.sem_at s).val ≢ least_i32
    → ((sem_wait s k).1.sem_at s).val ≡ (k.sem_at s).val +ℤ negsuc 0
unfolding sem_wait sem_push
sem_wait_value k s m =
    let k1 = add_val (negsuc 0) s k in
    let k2 = (switch_away k1).1 in
    let there : (k1.sem_at s).val ≡ (k.sem_at s).val +ℤ negsuc 0 =
      ap (λ z. z.val)
        (put_self k.sem_at s (record (k.sem_at s) { val = (k.sem_at s).val +ℤ negsuc 0 })) in
    rw (lower_val-add s k m) (
      if_both {A = ℤ × Kernel} (λ z. (z.1.sem_at s).val ≡ (k.sem_at s).val +ℤ negsuc 0)
        (is_neg (k1.sem_at s).val) (pos 1, sem_push s (switch_away k1).0 k2) (pos 0, k1)
        (ap (λ z. z.val)
            (put_self k2.sem_at s (record (k2.sem_at s) {
              waiting_threads =
                  (push_node k2.links (k2.sem_at s).waiting_threads (switch_away k1).0).1;
            }))
          ∙ ap (λ z. (z s).val) (switch_away_sems k1)
          ∙ there)
        there)

sem_wait-Untimed : (k : Kernel) (s : ℕ) → Untimed k → Untimed (sem_wait s k).1
unfolding sem_wait sem_push lower_val
sem_wait-Untimed k s u t =
    let k1 = lower_val s k in
    if_both {A = ℤ × Kernel} (λ z. (z.1.thread_at t).time_left ≢ 0) (is_neg (k1.sem_at s).val)
      (pos 1, sem_push s (switch_away k1).0 (switch_away k1).1) (pos 0, k1)
      (λ e. u t (sym (switch_away_time k1 t) ∙ e)) (u t)

module _ (l : Layout) (s : ℕ) where
  act-Shows :
      {a b : View} {e : Event}
      → Step a e b
      → (k : Kernel) → Shows s k a
      → (k' : Kernel) × (act l s e k ≡ done (tt, k')) × Shows s k' b
  unfolding act
  act-Shows (pass v c xs h) k w =
      let r =
        sem_wait-passes k s c xs [] w.waiting (ap (λ z. is_neg (z +ℤ negsuc 0)) w.value ∙ h) in
      (
        add_val (negsuc 0) s k,
        rw r.0 refl,
        record {
          waiting = r.1;
          value =
              ap (λ z. (z.1.sem_at s).val) (sym r.0)
              ∙ sem_wait_value k s (λ e. passes_least v h (sym w.value ∙ e))
              ∙ ap (λ z. z +ℤ negsuc 0) w.value;
          untimed = w.untimed;
        },
      )
  act-Shows (block v c x xs ws h few) k w =
      let r =
        sem_wait-blocks k s c x xs ws w.waiting (ap (λ z. is_neg (z +ℤ negsuc 0)) w.value ∙ h)
          few in
      (
        (sem_wait s k).1,
        refl,
        record {
          waiting = r.1;
          value =
              sem_wait_value k s (λ e. omega (arith, w.waiting.count, ap debt e, few))
              ∙ ap (λ z. z +ℤ negsuc 0) w.value;
          untimed = sem_wait-Untimed k s w.untimed;
        },
      )
  act-Shows (raise v c xs m) k w =
      let r = sem_signal-raises l k s (λ e. m (sym w.value ∙ e)) w.waiting.count in
      let k' = add_val (pos 1) s k in
      let there : k'.sem_at s ≡ record (k.sem_at s) { val = (k.sem_at s).val +ℤ pos 1 } =
        put_self k.sem_at s (record (k.sem_at s) { val = (k.sem_at s).val +ℤ pos 1 }) in
      (
        k',
        rw r.0 refl,
        record {
          waiting = record {
            current = w.waiting.current;
            ready = w.waiting.ready;
            queue = ap (λ z. z.waiting_threads) there ∙ w.waiting.queue;
            count = ap (λ z. debt z.val) there ∙ r.1;
            distinct = w.waiting.distinct;
            nonnull = w.waiting.nonnull;
          };
          value = ap (λ z. z.val) there ∙ ap (λ z. z +ℤ pos 1) w.value;
          untimed = w.untimed;
        },
      )
  act-Shows (wake v c x xs ws) k w =
      let (k', r, q, result, value, slice, others) =
        sem_signal-wakes l k s c x xs ws w.waiting (w.untimed x) in
      (
        k',
        rw r refl,
        record {
          waiting = q;
          value = value ∙ ap (λ z. z +ℤ pos 1) w.value;
          untimed = λ t z. elim (eq_cases t x) [
            | inl e ↦ omega (
              arith,
              sym (ap (λ y. (k'.thread_at y).time_left) e) ∙ z,
              ap (λ y. y.time_left) slice,
            )
            | inr e ↦ w.untimed t (sym (ap (λ y. y.time_left) (others t e)) ∙ z)
          ];
        },
      )
  act-Shows (last v c ws) k w =
      let r = dispatch-Waiting k s c c [] [] ws w.waiting refl in
      (
        dispatch k,
        refl,
        record {
          waiting = r.0;
          value = ap (λ z. z.val) r.1 ∙ w.value;
          untimed = dispatch-Untimed k w.untimed;
        },
      )
  act-Shows (rotate v c x xs ws) k w =
      let r = dispatch-Waiting k s c x (x ∷ xs) (xs ++ (c ∷ [])) ws w.waiting refl in
      (
        dispatch k,
        refl,
        record {
          waiting = r.0;
          value = ap (λ z. z.val) r.1 ∙ w.value;
          untimed = dispatch-Untimed k w.untimed;
        },
      )

-- An event moves threads about.
Step-population : {a b : View} {e : Event} → Step a e b → Perm (population a) (population b)
Step-population (pass v c xs h) = Perm.refl (c ∷ xs ++ [])
Step-population (block v c x xs ws h few) =
    subst (Perm (c ∷ x ∷ xs ++ ws)) (append_assoc (x ∷ xs) ws (c ∷ []))
      (Perm.symm (perm_append_singleton c (x ∷ xs ++ ws)))
Step-population (raise v c xs m) = Perm.refl (c ∷ xs ++ [])
Step-population (wake v c w xs ws) =
    subst (λ z. Perm (c ∷ xs ++ w ∷ ws) (c ∷ z)) (sym (append_assoc xs (w ∷ []) ws))
      (Perm.refl (c ∷ xs ++ w ∷ ws))
Step-population (last v c ws) = Perm.refl (c ∷ ws)
Step-population (rotate v c x xs ws) =
    subst (λ z. Perm (c ∷ x ∷ xs ++ ws) (x ∷ z)) (sym (append_assoc xs (c ∷ []) ws))
      (Perm.symm (perm_middle (x ∷ xs) ws))

-- From a state of the kernel that a view shows, where no thread has a `time_left` of 0: after any
-- sequence of waits and signals on the semaphore and of turns that the view allows, the kernel is
-- in a state that the view's outcome shows, and the threads of both views are the same, each as
-- often: none is lost, and none is in two places.
pub acts-Shows :
    (l : Layout) (s : ℕ) {a b : View} {es : List Event}
    → Steps a es b
    → (k : Kernel) → Shows s k a
    → (k' : Kernel) × (acts l s es k ≡ done (tt, k'))
      × Shows s k' b
      × Perm (population a) (population b)
unfolding acts
acts-Shows l s (here {a}) k w = (k, refl, w, Perm.refl (population a))
acts-Shows l s (next {a} {b} {c} {e} {es} h t) k w =
    let (k1, r1, w1) = act-Shows l s h k w in
    let (k2, r2, w2, p) = acts-Shows l s t k1 w1 in
    (k2, rw (r1, r2) refl, w2, Perm.trans (Step-population h) p)
