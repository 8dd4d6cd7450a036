-- ===== src/Timer/Defects.antt =====
-- Two ways in which a timed wait on a semaphore and the timer do not fit together.
use kernel_riscv.Base.{
  ℕ, ◌-◌, ◌^◌, ◌<◌, ◌≡◌, ◌≢◌, refl, ◌∙◌, ap, sym, subst, false, [], ◌∷◌, arith, eq→==, ne→==, pos,
  negsuc, ◌+ℤ◌, is_neg,
}
use kernel_riscv.Memory.{Layout, Mem, mem_alloc, done, panic}
use kernel_riscv.Kernel.{
  Kernel, ◌>>◌, ◌>>=◌, and_then, blocks_of, sizeof_sleeping_thread, set_thread, state,
}
use kernel_riscv.Scheduler.{scheduler_timeout, scheduler_current}
use kernel_riscv.Scheduler.Sleepers.Entries.{Asleep}
use kernel_riscv.Scheduler.Sleepers.Sleep.{scheduler_timeout-Slept}
use kernel_riscv.Scheduler.Sleepers.Times.{delta}
use kernel_riscv.Semaphores.{sem_timed_wait, sem_wait, sem_remove_thread}
use kernel_riscv.Semaphores.Values.{add_val, lower_val-add, passes_least}
use kernel_riscv.Timer.{scheduler_tick, wake, wake_last, tick_loop}
use kernel_riscv.Timer.Loop.{last}
use kernel_riscv.Timer.Tick.{head_sooner, head_sooner-delta, head_sooner-Asleep, some_sleeper}
use kernel_riscv.Timer.Ticks.{ticks, ticks-early, ticks-last, head_sooner-entries}

-- A tick with the head's delta at 0 makes it 2^64 - 1.
tick-wraps :
    (l : Layout) (k : Kernel) (p : ℕ)
    → Asleep k ((p, 0) ∷ [])
    → (scheduler_tick l k ≡ done (tt, head_sooner k)) × (delta (head_sooner k) p ≡ 2 ^ 64 - 1)
unfolding scheduler_tick
tick-wraps l k p a =
    let head = k.scheduler.sleeping_threads in
    let zero : delta k head ≡ 0 = ap (delta k) a.queue.first ∙ omega (arith, a.times.0) in
    let wrapped : delta (head_sooner k) head ≡ 2 ^ 64 - 1 =
      rw (eq→== head head refl, zero, delta) refl in
    (
      rw
          (
            ne→== head 0 (some_sleeper k p 0 [] a),
            ne→== (delta (head_sooner k) head) 0 (λ e. omega (arith, e, wrapped)),
          )
          refl,
      ap (delta (head_sooner k)) (sym a.queue.first) ∙ wrapped,
    )

-- Nobody sleeps, and the allocator gives the block `p` for the entry: after a timeout of 0 ticks
-- and a tick, the entry, which should have run out, has 2^64 - 1 ticks to go, and the ready queue
-- is as it was.
scheduler_timeout-zero :
    (l : Layout) (k : Kernel) (m : Mem) (thread semaphore p : ℕ)
    → k.scheduler.sleeping_threads ≡ 0
    → mem_alloc l k.mem (blocks_of sizeof_sleeping_thread) ≡ done (p, m)
    → p ≢ 0
    → (k' : Kernel) × ((scheduler_timeout l thread 0 semaphore >> scheduler_tick l) k
        ≡ done (tt, k'))
      × (k'.scheduler.sleeping_threads ≡ p)
      × ((k'.sleeping_at p).delta ≡ 2 ^ 64 - 1)
      × (k'.scheduler.ready_threads ≡ k.scheduler.ready_threads)
scheduler_timeout-zero l k m thread semaphore p none e nz =
    let (k1, e1, s) =
      scheduler_timeout-Slept l k m thread semaphore 0 p [] (record { queue = none; times = tt })
        (omega arith) (omega arith) e nz tt in
    let w = tick-wraps l k1 p s.asleep in
    (
      head_sooner k1,
      ap (λ z. and_then z (λ _. scheduler_tick l)) e1 ∙ w.0,
      s.asleep.queue.first,
      w.1,
      ap (λ z. z.scheduler.ready_threads) s.frame,
    )

wake_last-panics :
    (l : Layout) (k : Kernel) (p : ℕ)
    → (k.sleeping_at p).semaphore ≢ 0
    → (k.sem_at (k.sleeping_at p).semaphore).waiting_threads ≡ 0
    → wake_last l p k ≡ panic
unfolding wake_last wake sem_remove_thread
wake_last-panics l k p s w =
    rw
      (
        ne→== (k.sleeping_at p).semaphore 0 s,
        eq→== (k.sem_at (k.sleeping_at p).semaphore).waiting_threads 0 w,
      )
      refl

-- When the entry of a thread runs out that waits for a semaphore on which nobody waits, the kernel
-- panics.
tick-panics :
    (l : Layout) (k : Kernel) (p : ℕ)
    → Asleep k ((p, 1) ∷ [])
    → (k.sleeping_at p).semaphore ≢ 0
    → (k.sem_at (k.sleeping_at p).semaphore).waiting_threads ≡ 0
    → 0 < k.mem.n_mem_blocks
    → scheduler_tick l k ≡ panic
unfolding scheduler_tick
tick-panics l k p a s w b =
    let head = k.scheduler.sleeping_threads in
    let k1 = head_sooner k in
    let same = (head_sooner-entries k p).1 in
    rw
      (
        ne→== head 0 (some_sleeper k p 1 [] a),
        eq→== (delta k1 head) 0 (head_sooner-delta k p 1 [] a (omega arith)),
      )
      (ap (λ z. tick_loop l z k1) (omega (arith, b))
        ∙ last l (k.mem.n_mem_blocks - 1) k1 p (head_sooner-Asleep k p 1 [] a (omega arith))
        ∙ wake_last-panics l k1 p (λ z. s (sym same ∙ z))
            (ap (λ z. (k.sem_at z).waiting_threads) same ∙ w))

passes :
    (s : ℕ) (k : Kernel)
    → is_neg ((k.sem_at s).val +ℤ negsuc 0) ≡ false
    → sem_wait s k ≡ (pos 0, add_val (negsuc 0) s k)
unfolding sem_wait
passes s k h = rw (lower_val-add s k (passes_least (k.sem_at s).val h), eq→== s s refl, h) refl

-- Nobody sleeps, nobody waits on the semaphore `s`, whose value is positive, and the allocator
-- gives a block for the entry: a wait on `s` of at most `time` > 0 ticks returns 0 at once, but its
-- timeout stays, and the kernel panics `time` ticks later.
pub sem_timed_wait-panics :
    (l : Layout) (k : Kernel) (m : Mem) (s time p : ℕ)
    → k.scheduler.sleeping_threads ≡ 0
    → mem_alloc l k.mem (blocks_of sizeof_sleeping_thread) ≡ done (p, m)
    → p ≢ 0
    → s ≢ 0
    → (k.sem_at s).waiting_threads ≡ 0
    → is_neg ((k.sem_at s).val +ℤ negsuc 0) ≡ false
    → 0 < time
    → time < 2 ^ 64
    → 0 < m.n_mem_blocks
    → ((k' : Kernel) × (sem_timed_wait l s time k ≡ done (pos 0, k')))
      × ((sem_timed_wait l s time >>= λ r. ticks l time) k ≡ panic)
unfolding sem_timed_wait
sem_timed_wait-panics l k m s time p none e nz sn w v t b g =
    let current = scheduler_current k in
    let k0 = set_thread current (record (k.thread_at current) { time_left = 0 }) k in
    let (k1, e1, d) =
      scheduler_timeout-Slept l k0 m current s time p [] (record { queue = none; times = tt })
        (omega arith) b e nz tt in
    let sems : k1.sem_at ≡ k.sem_at = ap (λ z. z.sem_at) d.frame in
    let k2 = add_val (negsuc 0) s k1 in
    let call : sem_timed_wait l s time k ≡ done (pos 0, k2) =
      ap (λ z. and_then z (λ _. state (sem_wait s))) e1
      ∙ ap (λ z. done z)
          (passes s k1 (subst (λ z. is_neg ((z s).val +ℤ negsuc 0) ≡ false) (sym sems) v)) in
    let (k3, e3, a3, o) = ticks-early l (time - 1) 0 k2 p (
      subst (λ z. Asleep k2 ((p, z) ∷ [])) (omega (arith, t))
        (record { queue = d.asleep.queue; times = d.asleep.times })) in
    let entry : (k3.sleeping_at p).semaphore ≡ s = (o.entries p).1 ∙ d.entry.1 in
    let nobody : (k3.sem_at s).waiting_threads ≡ 0 =
      ap (λ z. (z s).waiting_threads) o.sem_at
      ∙ rw (eq→== s s refl) (ap (λ z. (z s).waiting_threads) sems ∙ w) in
    (
      (k2, call),
      ap (λ z. and_then z (λ _. ticks l time)) call
          ∙ ticks-last l time k2 t
          ∙ ap (λ z. and_then z (λ _. scheduler_tick l)) e3
          ∙ tick-panics l k3 p a3 (λ z. sn (sym entry ∙ z))
              (ap (λ z. (k3.sem_at z).waiting_threads) entry ∙ nobody)
              (subst (λ z. 0 < z.n_mem_blocks) (sym (o.mem ∙ ap (λ z. z.mem) d.frame)) g),
    )
