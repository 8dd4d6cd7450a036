-- ===== src/Semaphores.antt =====
-- src/semaphore.c.
pub mod Values
pub mod Blocking
pub mod Waking
pub mod Removal
pub mod Closing
use kernel_riscv.Base.{
  ℕ, zero, suc, ℤ, pos, negsuc, is_neg, is_pos, to_u64, to_i32, ◌+ℤ◌, ◌+◌, ◌-◌, ◌^◌, greatest_i32,
  least_i32, ltb, ◌==◌, if◌then◌else◌, add64,
}
use kernel_riscv.Memory.{Layout, done, out_of_fuel, undefined}
use kernel_riscv.Links.{Links, push_node, pop_node, unlink}
use kernel_riscv.Kernel.{
  Kernel, put, set_thread, set_sem, set_a0, M, ◌>>=◌, ◌>>◌, pure, get, modify, stop, state, alloc,
  free_or_panic, blocks_of, sizeof_sem,
}
use kernel_riscv.Scheduler.{
  scheduler_push, scheduler_current, scheduler_timeout, scheduler_remove_timeout,
}
use kernel_riscv.Threads.{switch_away}

-- the codes of semaphore.c
abbrev pub sem_create_no_memory : ℤ
sem_create_no_memory = negsuc 0

abbrev pub sem_closed_externally : ℤ
sem_closed_externally = negsuc 0

abbrev pub sem_wait_timeout : ℤ
sem_wait_timeout = negsuc 1

abbrev pub sem_signal_no_threads : ℤ
sem_signal_no_threads = negsuc 0

-- `sem_t semaphores[10]`
abbrev pub max_semaphores : ℕ
max_semaphores = 10

-- `semaphores[sem_cnt] = new_sem; sem_cnt++`, and `first_semaphore` if it is the first
unfoldable pub register_sem : ℕ → M (Unit {0})
register_sem s k =
    let t = k.sem_table in
    if ltb t.sem_cnt max_semaphores
    then done (
      tt,
      record k {
        sem_table = record {
          first_semaphore = if t.first_semaphore == 0 then s else t.first_semaphore;
          semaphores = put t.semaphores t.sem_cnt s;
          sem_cnt = add64 t.sem_cnt 1;
        };
      },
    )
    else undefined

-- The result is the returned code and what is stored at `handle`.
unfoldable pub sem_open : Layout → ℕ → M (ℤ × ℕ)
sem_open l init = do
  s ← alloc l (blocks_of sizeof_sem)
  if s == 0 then pure (sem_create_no_memory, 0) else do
    modify (set_sem s (record { val = to_i32 init; init = to_i32 init; waiting_threads = 0 }))
    register_sem s
    pure (pos 0, s)

-- The loop of `__sem_close`: every thread of the ring that ends at `first` becomes ready.
unfoldable pub close_loop : (fuel first current : ℕ) → M (Unit {0})
close_loop zero first current k = out_of_fuel
close_loop (suc fuel) first current k =
    let next = k.links.next current in
    let k1 = set_a0 current (to_u64 sem_closed_externally) (scheduler_push current k) in
    let rest = close_loop fuel first next k1 in if next == first then done (tt, k1) else rest

-- Each waiting thread takes a block of the heap, so `n_mem_blocks` rounds are enough.
unfoldable pub sem_close : Layout → ℕ → M ℤ
sem_close l handle = do
  k ← get
  let first = (k.sem_at handle).waiting_threads
  if first == 0 then pure tt else close_loop k.mem.n_mem_blocks first first
  free_or_panic l handle
  pure (pos 0)

abbrev pub set_waiting : ℕ → Links × ℕ → Kernel → Kernel
set_waiting s (l, h) k =
    set_sem s (record (k.sem_at s) { waiting_threads = h }) (record k { links = l })

unfoldable pub sem_push : (handle thread : ℕ) → Kernel → Kernel
sem_push s thread k = set_waiting s (push_node k.links (k.sem_at s).waiting_threads thread) k

-- `v++` and `v--` on an i32. C leaves the step past an end undefined; here it wraps.
unfoldable pub up_i32 : ℤ → ℤ
up_i32 (pos n) = if n == 2 ^ 31 - 1 then least_i32 else pos (n + 1)
up_i32 (negsuc n) = negsuc n +ℤ pos 1

unfoldable pub down_i32 : ℤ → ℤ
down_i32 (pos n) = pos n +ℤ negsuc 0
down_i32 (negsuc n) = if n == 2 ^ 31 - 1 then greatest_i32 else negsuc n +ℤ negsuc 0

-- `handle->val++` and `handle->val--`
unfoldable pub raise_val : ℕ → Kernel → Kernel
raise_val s k = set_sem s (record (k.sem_at s) { val = up_i32 (k.sem_at s).val }) k

unfoldable pub lower_val : ℕ → Kernel → Kernel
lower_val s k = set_sem s (record (k.sem_at s) { val = down_i32 (k.sem_at s).val }) k

-- 1 if the caller now waits, else 0
unfoldable pub sem_wait : ℕ → Kernel → ℤ × Kernel
sem_wait s k =
    let k1 = lower_val s k in
    let (current, k2) = switch_away k1 in
    if is_neg (k1.sem_at s).val then (pos 1, sem_push s current k2) else (pos 0, k1)

unfoldable pub sem_next : ℕ → Kernel → ℕ × Kernel
sem_next s k =
    let head = (k.sem_at s).waiting_threads in (head, set_waiting s (pop_node k.links head) k)

unfoldable pub sem_unblock_thread : Layout → ℕ → M ℤ
sem_unblock_thread l s = do
  t ← state (sem_next s)
  k ← get
  if (k.thread_at t).time_left == 0 then scheduler_remove_timeout l t else pure tt
  modify (set_a0 t 0)
  modify (scheduler_push t)
  pure (pos 0)

unfoldable pub sem_signal : Layout → ℕ → M ℤ
sem_signal l s = do
  modify (raise_val s)
  k ← get
  if is_pos (k.sem_at s).val
      then pure (pos 0)
      else if (k.sem_at s).waiting_threads == 0
      then pure sem_signal_no_threads
      else (do r ← sem_unblock_thread l s; pure (pos 0))

unfoldable pub sem_timed_wait : Layout → (handle time : ℕ) → M ℤ
sem_timed_wait l s time = do
  k ← get
  let current = scheduler_current k
  modify (set_thread current (record (k.thread_at current) { time_left = 0 }))
  scheduler_timeout l current time s
  state (sem_wait s)

-- The loop in the source compares the head with itself, so it makes no step: the node that is
-- unlinked is the head, whatever `thread` is, and the head pointer stays.
unfoldable pub sem_remove_thread : (handle thread : ℕ) → M (Unit {0})
sem_remove_thread s thread = do
  k ← get
  let head = (k.sem_at s).waiting_threads
  if head == 0 then stop else do
    modify (raise_val s)
    if head == k.links.next head
        then modify (λ k1. set_sem s (record (k1.sem_at s) { waiting_threads = 0 }) k1)
        else modify (λ k1.
          set_a0 thread (to_u64 sem_wait_timeout) (record k1 { links = unlink k1.links head }))
