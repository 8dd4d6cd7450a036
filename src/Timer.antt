-- ===== src/Timer.antt =====
-- `__scheduler_tick` of src/scheduler.c.
pub mod Wake
pub mod Loop
pub mod Tick
pub mod Ticks
pub mod Defects
use kernel_riscv.Base.{ℕ, zero, suc, not, ◌==◌, if◌then◌else◌, sub64}
use kernel_riscv.Memory.{Layout, done, out_of_fuel}
use kernel_riscv.Links.{unlink}
use kernel_riscv.Kernel.{M, ◌>>=◌, ◌>>◌, pure, get, modify, free_or_panic}
use kernel_riscv.Scheduler.{scheduler_push, set_asleep, set_delta}
use kernel_riscv.Semaphores.{sem_remove_thread}

-- the part of both branches before the list changes: leave the semaphore, become ready
unfoldable pub wake : ℕ → M (Unit {0})
wake node = do
  k ← get
  let s = k.sleeping_at node
  if s.semaphore == 0 then pure tt else sem_remove_thread s.semaphore s.thread
  modify (scheduler_push s.thread)

unfoldable pub wake_last : Layout → ℕ → M (Unit {0})
wake_last l node = do wake node; modify (set_asleep 0); free_or_panic l node

unfoldable pub wake_first : Layout → ℕ → M (Unit {0})
wake_first l node = do
  wake node
  modify (λ k. record k { links = unlink k.links node })
  modify (λ k. set_asleep (k.links.next node) k)
  free_or_panic l node

-- The `while` loop; each round frees a sleeper, so `n_mem_blocks` rounds are enough.
unfoldable pub tick_loop : Layout → (fuel : ℕ) → M (Unit {0})
tick_loop l zero k = out_of_fuel
tick_loop l (suc fuel) k =
    let node = k.scheduler.sleeping_threads in
    let more = (wake_first l node >> tick_loop l fuel) k in
    if not ((k.sleeping_at node).delta == 0)
    then done (tt, k)
    else if k.links.next node == node
    then wake_last l node k
    else more

unfoldable pub scheduler_tick : Layout → M (Unit {0})
scheduler_tick l k =
    let node = k.scheduler.sleeping_threads in
    let k1 = set_delta node (sub64 (k.sleeping_at node).delta 1) k in
    if node == 0
    then done (tt, k)
    else if not ((k1.sleeping_at node).delta == 0)
    then done (tt, k1)
    else tick_loop l k.mem.n_mem_blocks k1
