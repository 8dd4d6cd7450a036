-- ===== src/Threads/Exit.antt =====
-- `__thread_exit` of src/thread.c, for a user thread.
use kernel_riscv.Base.{
  ℕ, ◌≤◌, ◌≡◌, ◌≢◌, refl, ◌∙◌, ap, sym, subst, false, List, ◌∷◌, sub64, arith, le→ltb,
}
use kernel_riscv.Memory.{Layout, Mem, mem_free, free_ok, done}
use kernel_riscv.Kernel.{Kernel, free_or_panic}
use kernel_riscv.Scheduler.{scheduler_next, user_thread_decrement}
use kernel_riscv.Scheduler.Ready.{Ready, NextReady, scheduler_next-NextReady}
use kernel_riscv.Threads.{thread_exit, thread_delete, yield, bit}
use kernel_riscv.Threads.Switch.{Saved, yield-shape, yield_lem}

-- What is left: `x` runs from where it was, `xs` are ready, and `m` is the allocator's state.
pub record Exited (k k' : Kernel) (m : Mem) (x : ℕ) (xs : List ℕ) : Type 0 where
  pub mem : k'.mem ≡ m
  pub current : k'.scheduler.thread_current ≡ x
  pub ready : Ready k' xs
  pub counted : k'.scheduler.user_thread_count ≡ sub64 k.scheduler.user_thread_count 1
  pub resumes : Saved k x k'.cpu
  pub sems : k'.sem_at ≡ k.sem_at
  pub contexts : k'.context_at ≡ k.context_at

yield-bp : (a b : ℕ) (k : Kernel) → ((yield a b k).thread_at a).bp ≡ (k.thread_at a).bp
unfolding yield
yield-bp a b k = ground arith

-- The switch away from `c`, which is counted no longer.
abbrev counted_down : Kernel → Kernel
counted_down k = (scheduler_next (user_thread_decrement k)).1

abbrev left : (c x : ℕ) → Kernel → Kernel
left c x k = yield c x (counted_down k)

next_of :
    (k : Kernel) (x : ℕ) (xs : List ℕ)
    → Ready k (x ∷ xs)
    → NextReady (user_thread_decrement k) x xs (scheduler_next (user_thread_decrement k))
unfolding user_thread_decrement
next_of k x xs q = scheduler_next-NextReady (user_thread_decrement k) x xs q

left-Exited :
    (k : Kernel) (m : Mem) (c x : ℕ) (xs : List ℕ)
    → Ready k (x ∷ xs)
    → c ≢ x
    → Exited k (record (left c x k) { mem = m }) m x xs
unfolding user_thread_decrement scheduler_next
left-Exited k m c x xs q ne =
    let n = next_of k x xs q in
    let (threads, cpu, y) = yield-shape c x (counted_down k) in
    let s = (yield_lem c x (counted_down k) ne).1 in
    record {
      mem = refl;
      current = ap (λ z. z.scheduler.thread_current) y ∙ n.current;
      ready = subst (λ z. Ready z xs) (sym y) n.ready;
      counted = ap (λ z. z.scheduler.user_thread_count) y ∙ ground arith;
      resumes = (
        sym (ap (λ f. (f x).sp) n.threads) ∙ s.0,
        sym (ap (λ f. (f x).sstatus) n.threads) ∙ s.1,
        sym (ap (λ f. (f x).sepc) n.threads) ∙ s.2,
      );
      sems = ap (λ z. z.sem_at) y ∙ ground arith;
      contexts = ap (λ z. z.context_at) y ∙ ground arith;
    }

thread_delete-frees :
    (l : Layout) (k : Kernel) (m1 m : Mem) (c : ℕ)
    → (k.thread_at c).bp ≤ (k.thread_at c).sp
    → mem_free l k.mem (k.thread_at c).bp ≡ (free_ok, m1)
    → mem_free l m1 c ≡ (free_ok, m)
    → thread_delete l c k ≡ done (tt, record k { mem = m })
unfolding thread_delete free_or_panic
thread_delete-frees l k m1 m c above f1 f2 =
    rw (le→ltb (k.thread_at c).sp (k.thread_at c).bp above, f1, f2) refl

left_mem : (k : Kernel) (c x : ℕ) → (left c x k).mem ≡ k.mem
unfolding user_thread_decrement scheduler_next
left_mem k c x =
    let (threads, cpu, y) = yield-shape c x (counted_down k) in ap (λ z. z.mem) y ∙ ground arith

-- User thread `c` runs, `x` is the first ready thread, the stack pointer is not below the thread's
-- stack, and the allocator frees the stack and then the structure of `c`: the call ends, `x` goes
-- on with what was saved for it, the others stay ready in their order, one user thread less is
-- counted, and the stack and the structure are freed; no semaphore and no context changes.
pub thread_exit-Exited :
    (l : Layout) (k : Kernel) (m1 m : Mem) (c x : ℕ) (xs : List ℕ)
    → k.scheduler.thread_current ≡ c
    → bit k.cpu.sstatus 8 ≡ false
    → Ready k (x ∷ xs)
    → c ≢ x
    → (k.thread_at c).bp ≤ k.cpu.sscratch
    → mem_free l k.mem (k.thread_at c).bp ≡ (free_ok, m1)
    → mem_free l m1 c ≡ (free_ok, m)
    → (k' : Kernel) × (thread_exit l k ≡ done (tt, k')) × Exited k k' m x xs
unfolding thread_exit user_thread_decrement thread_delete yield scheduler_next
thread_exit-Exited l k m1 m c x xs cur mode q ne above f1 f2 =
    let n = next_of k x xs q in
    let k2 = left c x k in
    let bp : (k2.thread_at c).bp ≡ (k.thread_at c).bp =
      yield-bp c x (counted_down k) ∙ ap (λ f. (f c).bp) n.threads in
    let sp : (k2.thread_at c).sp ≡ k.cpu.sscratch =
      (yield_lem c x (counted_down k) ne).0.0 ∙ ap (λ z. z.sscratch) n.cpu in
    let frees =
      thread_delete-frees l k2 m1 m c (omega (arith, above, bp, sp))
        (ap (λ z. mem_free l z (k2.thread_at c).bp) (left_mem k c x)
          ∙ ap (mem_free l k.mem) bp
          ∙ f1)
        f2 in
    (record k2 { mem = m }, rw (mode, cur, n.next, frees) refl, left-Exited k m c x xs q ne)
