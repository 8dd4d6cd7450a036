-- ===== src/Semaphores/Waking.antt =====
-- `__sem_signal`: the thread that has waited longest goes on.
use kernel_riscv.Base.{
  ℕ, suc, ◌≡◌, ◌≢◌, refl, ◌∙◌, ap, sym, subst, true, false, List, [], ◌∷◌, ◌++◌, length, eq→==,
  ne→==, arith, ℤ, pos, negsuc, ◌+ℤ◌, is_pos, greatest_i32,
}
use mathlib.Core.List.{append_assoc}
use kernel_riscv.Memory.{Layout, done}
use kernel_riscv.Links.{pop_node}
use kernel_riscv.Links.Queue.{
  NotIn, Distinct, Apart, IsQueue, IsQueue-frame, Distinct-Apart, NotIn-of_append, Apart-cons,
  Apart-drop, Popped, pop_node-Popped,
}
use kernel_riscv.Kernel.{Kernel, put_self, set_a0, and_then, pure}
use kernel_riscv.Scheduler.{scheduler_push}
use kernel_riscv.Scheduler.Ready.{Ready, PushedReady, scheduler_push-PushedReady}
use kernel_riscv.Semaphores.Values.{add_val, raise_val-add}
use kernel_riscv.Semaphores.{sem_next, sem_unblock_thread, sem_signal}
use kernel_riscv.Semaphores.Blocking.{debt, Waiting}

pub debt-up :
    (v : ℤ) (n : ℕ) → debt v ≡ suc n → (is_pos (v +ℤ pos 1) ≡ false) × (debt (v +ℤ pos 1) ≡ n)
debt-up (pos m) n h = absurd (omega arith)
debt-up (negsuc m) n h = ground arith

abbrev pub head_of : ℕ → Kernel → ℕ
head_of s k = (k.sem_at s).waiting_threads

-- what `__sem_unblock_thread` leaves
abbrev pub unblocked : ℕ → Kernel → Kernel
unblocked s k = scheduler_push (head_of s k) (set_a0 (head_of s k) 0 (sem_next s k).1)

sem_unblock_thread-unblocked :
    (l : Layout) (k : Kernel) (s : ℕ)
    → (k.thread_at (head_of s k)).time_left ≢ 0
    → sem_unblock_thread l s k ≡ done (pos 0, unblocked s k)
unfolding sem_unblock_thread sem_next
sem_unblock_thread-unblocked l k s t = rw (ne→== (k.thread_at (head_of s k)).time_left 0 t)

pub sem_signal-unblocked :
    (l : Layout) (k : Kernel) (s : ℕ)
    → (k.sem_at s).val ≢ greatest_i32
    → is_pos ((add_val (pos 1) s k).sem_at s).val ≡ false
    → head_of s (add_val (pos 1) s k) ≢ 0
    → (k.thread_at (head_of s (add_val (pos 1) s k))).time_left ≢ 0
    → sem_signal l s k ≡ done (pos 0, unblocked s (add_val (pos 1) s k))
unfolding sem_signal
sem_signal-unblocked l k s m h nz t =
    rw (raise_val-add s k m, h, ne→== (head_of s (add_val (pos 1) s k)) 0 nz)
      (ap (λ r. and_then r (λ _. pure (pos 0)))
        (sem_unblock_thread-unblocked l (add_val (pos 1) s k) s t))

-- A signal with nobody waiting only raises the value.
pub sem_signal-raises :
    (l : Layout) (k : Kernel) (s : ℕ)
    → (k.sem_at s).val ≢ greatest_i32
    → debt (k.sem_at s).val ≡ 0
    → (sem_signal l s k ≡ done (pos 0, add_val (pos 1) s k))
      × (debt ((k.sem_at s).val +ℤ pos 1) ≡ 0)
unfolding sem_signal
sem_signal-raises l k s m e =
    let up = raised (k.sem_at s).val e in
    (rw (raise_val-add s k m, eq→== s s refl, up.0) refl, up.1)
  where
    raised : (v : ℤ) → debt v ≡ 0 → (is_pos (v +ℤ pos 1) ≡ true) × (debt (v +ℤ pos 1) ≡ 0)
    raised (pos n) e = ground arith
    raised (negsuc n) e = absurd (omega arith)

module _ (l : Layout) (k : Kernel) (s c w : ℕ) (xs ws : List ℕ) where
  -- With a thread waiting without a timeout, the call returns 0: the first waiting thread `w` is
  -- last in the ready queue, the order of the others stays, and `w` will see the result 0. The value
  -- is one more, and of the threads' structures only the time slice of `w` changes, to 2.
  pub sem_signal-wakes :
      Waiting k s c xs (w ∷ ws)
      → (k.thread_at w).time_left ≢ 0
      → (k' : Kernel) × (sem_signal l s k ≡ done (pos 0, k'))
        × Waiting k' s c (xs ++ (w ∷ [])) ws
        × ((k'.context_at (k.thread_at w).sp).a0 ≡ 0)
        × ((k'.sem_at s).val ≡ (k.sem_at s).val +ℤ pos 1)
        × (k'.thread_at w ≡ record (k.thread_at w) { time_left = 2 })
        × ((t : ℕ) → t ≢ w → k'.thread_at t ≡ k.thread_at t)
  unfolding sem_next scheduler_push
  sem_signal-wakes v t = (
    unblocked s k1,
    sem_signal-unblocked l k s (λ e. omega (arith, v.count, ap debt e))
        (ap (λ r. is_pos r.val) there ∙ up.0)
        (λ e. (NotIn-of_append 0 xs (w ∷ ws) v.nonnull.1).1.0 (sym e ∙ first))
        (λ e. t (sym (ap (λ x. (k.thread_at x).time_left) first) ∙ e)),
    record {
      current = v.current;
      ready = subst (λ x. Ready (unblocked s k1) (xs ++ (x ∷ []))) first pushed.ready;
      queue =
          subst (λ h. IsQueue (unblocked s k1).links h ws) (sym behind)
            (IsQueue-frame k3.links (unblocked s k1).links (head_of s k1 ∷ xs)
              (pop_node k.links (head_of s k1)).1 ws pushed.links
              (subst (λ x. Apart ws (x ∷ xs)) (sym first) (Apart-cons w ws xs parts.3.0 parts.1.1))
              popped.queue);
      count = ap debt value ∙ up.1;
      distinct = subst (λ ys. Distinct (c ∷ ys)) (sym (append_assoc xs (w ∷ []) ws)) v.distinct;
      nonnull = subst (λ ys. NotIn 0 (c ∷ ys)) (sym (append_assoc xs (w ∷ []) ws)) v.nonnull;
    },
    result,
    value,
    slice,
    others,
  )
    where
      k1 : Kernel
      k1 = add_val (pos 1) s k

      k3 : Kernel
      k3 = set_a0 (head_of s k1) 0 (sem_next s k1).1

      up :
          (is_pos ((k.sem_at s).val +ℤ pos 1) ≡ false)
          × (debt ((k.sem_at s).val +ℤ pos 1) ≡ length ws)
      up = debt-up (k.sem_at s).val (length ws) v.count

      there : k1.sem_at s ≡ record (k.sem_at s) { val = (k.sem_at s).val +ℤ pos 1 }
      there = rw (eq→== s s refl)

      first : head_of s k1 ≡ w
      first = ap (λ r. r.waiting_threads) there ∙ v.queue.first

      parts : Apart xs (w ∷ ws) × Apart (w ∷ ws) xs × Distinct xs × Distinct (w ∷ ws)
      parts = Distinct-Apart xs (w ∷ ws) v.distinct.1

      popped : Popped k.links ws (pop_node k.links (head_of s k1))
      popped = pop_node-Popped k.links (head_of s k1) w ws (
          subst (λ h. IsQueue k.links h (w ∷ ws)) (sym (ap (λ r. r.waiting_threads) there)) v.queue)

      pushed : PushedReady k3 (unblocked s k1) (head_of s k1) xs
      pushed =
          scheduler_push-PushedReady k3 (head_of s k1) xs
            (IsQueue-frame k.links k3.links ws k.scheduler.ready_threads xs popped.outside
              (Apart-drop w xs ws parts.0) v.ready)
            (λ e. (NotIn-of_append 0 xs (w ∷ ws) v.nonnull.1).1.0 (sym e ∙ first))
            (subst (λ x. NotIn x xs) (sym first) parts.1.0)

      behind : ((unblocked s k1).sem_at s).waiting_threads ≡ (pop_node k.links (head_of s k1)).1
      behind =
          ap (λ r. r.waiting_threads)
            (put_self k1.sem_at s
              (record (k1.sem_at s) { waiting_threads = (pop_node k.links (head_of s k1)).1 }))

      value : ((unblocked s k1).sem_at s).val ≡ (k.sem_at s).val +ℤ pos 1
      value =
          ap (λ r. r.val)
            (put_self k1.sem_at s
              (record (k1.sem_at s) { waiting_threads = (pop_node k.links (head_of s k1)).1 }))
          ∙ ap (λ r. r.val) there

      result : ((unblocked s k1).context_at (k.thread_at w).sp).a0 ≡ 0
      result =
          subst (λ x. ((unblocked s k1).context_at (k.thread_at x).sp).a0 ≡ 0) first
            (rw (eq→== _ _ refl))

      slice : (unblocked s k1).thread_at w ≡ record (k.thread_at w) { time_left = 2 }
      slice =
          subst (λ x. (unblocked s k1).thread_at x ≡ record (k.thread_at x) { time_left = 2 }) first
            (put_self k.thread_at (head_of s k1)
              (record (k.thread_at (head_of s k1)) { time_left = 2 }))

      others : (t : ℕ) → t ≢ w → (unblocked s k1).thread_at t ≡ k.thread_at t
      others t n = rw (ne→== t (head_of s k1) (λ e. n (e ∙ first))) refl
