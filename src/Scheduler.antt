-- ===== src/Scheduler.antt =====
-- src/scheduler.c without the timer: the ready queue, the current thread and the timeouts.
-- `__scheduler_tick` calls the semaphores, and stands in Timer.antt.
pub mod Ready
pub mod Sleepers
use kernel_riscv.Base.{ℕ, zero, suc, ◌&&◌, not, ltb, ◌==◌, if◌then◌else◌, add64, sub64}
use kernel_riscv.Memory.{Layout, Run, done, panic, out_of_fuel, undefined}
use kernel_riscv.Links.{Links, list_insert, unlink, push_node, pop_node, set_next, set_prev}
use kernel_riscv.Kernel.{
  Kernel, set_thread, set_sleeping, M, ◌>>=◌, ◌>>◌, pure, get, modify, stop, alloc, free_or_panic,
  require_nonnull, blocks_of, sizeof_sleeping_thread, sizeof_scheduler, default_time_slice,
}

-- The scheduler's own structure is allocated once and never freed; its fields are `k.scheduler`.
unfoldable pub scheduler_init : Layout → ℕ → M (Unit {0})
scheduler_init l kernel_main = do
  p ← alloc l (blocks_of sizeof_scheduler)
  if p == 0
      then stop
      else modify (λ k. record k {
        scheduler = record {
          user_thread_count = 0;
          ready_threads = 0;
          sleeping_threads = 0;
          thread_current = kernel_main;
          kernel_main = kernel_main;
        };
      })

abbrev pub set_ready : Links × ℕ → Kernel → Kernel
set_ready (l, h) k = record k { links = l; scheduler = record (k.scheduler) { ready_threads = h } }

abbrev pub set_current : ℕ → Kernel → Kernel
set_current t k = record k { scheduler = record (k.scheduler) { thread_current = t } }

abbrev pub set_asleep : ℕ → Kernel → Kernel
set_asleep h k = record k { scheduler = record (k.scheduler) { sleeping_threads = h } }

unfoldable pub scheduler_push : ℕ → Kernel → Kernel
scheduler_push new_thread k =
    let k1 =
      set_thread new_thread (record (k.thread_at new_thread) { time_left = default_time_slice })
        k in
    set_ready (push_node k1.links k1.scheduler.ready_threads new_thread) k1

unfoldable pub scheduler_next : Kernel → ℕ × Kernel
scheduler_next k =
    let head = k.scheduler.ready_threads in
    let main = k.scheduler.kernel_main in
    if head == 0
    then (main, set_current main k)
    else (head, set_current head (set_ready (pop_node k.links head) k))

abbrev pub scheduler_current : Kernel → ℕ
scheduler_current k = k.scheduler.thread_current

unfoldable pub user_thread_increment : Kernel → Kernel
user_thread_increment k = record k {
  scheduler = record (k.scheduler) { user_thread_count = add64 k.scheduler.user_thread_count 1 };
}

unfoldable pub user_thread_decrement : Kernel → Kernel
user_thread_decrement k = record k {
  scheduler = record (k.scheduler) { user_thread_count = sub64 k.scheduler.user_thread_count 1 };
}

abbrev pub user_thread_count : Kernel → ℕ
user_thread_count k = k.scheduler.user_thread_count

-- a new `struct __sleeping_thread_t` with its three values
unfoldable pub new_sleeping : Layout → (thread semaphore delta : ℕ) → M ℕ
new_sleeping l thread semaphore delta = do
  p ← alloc l (blocks_of sizeof_sleeping_thread)
  require_nonnull p
  modify (set_sleeping p (record { thread = thread; semaphore = semaphore; delta = delta }))
  pure p

-- The `do` loop of `__scheduler_timeout`, from its test on: `node` is the node that the walk has
-- reached, and `delta` the sum of those before it. The result is where it stops, with that sum.
unfoldable pub timeout_walk : (fuel : ℕ) → Kernel → (time node delta : ℕ) → Run (ℕ × ℕ)
timeout_walk zero k time node delta = out_of_fuel
timeout_walk (suc fuel) k time node delta =
    let here = (k.sleeping_at node).delta in
    let rest = timeout_walk fuel k time (k.links.next node) (add64 delta here) in
    if not (node == k.scheduler.sleeping_threads) && ltb (add64 delta here) time
    then rest
    else done (node, delta)

abbrev pub set_delta : ℕ → ℕ → Kernel → Kernel
set_delta p d k = set_sleeping p (record (k.sleeping_at p) { delta = d }) k

-- the branch for an empty list
unfoldable pub timeout_alone : Layout → (thread time semaphore : ℕ) → M (Unit {0})
timeout_alone l thread time semaphore = do
  p ← new_sleeping l thread semaphore time
  modify (λ k. set_asleep p (record k { links = set_prev (set_next k.links p p) p p }))

-- the branch for a time before that of the first sleeper
unfoldable pub timeout_first : Layout → (thread time semaphore : ℕ) → M (Unit {0})
timeout_first l thread time semaphore = do
  k ← get
  let head = k.scheduler.sleeping_threads
  modify (set_delta head (sub64 (k.sleeping_at head).delta time))
  p ← new_sleeping l thread semaphore time
  modify (λ k1. set_asleep p (record k1 { links = list_insert k1.links head p }))

-- the rest, once the walk has stopped at `node`
unfoldable pub timeout_behind : Layout → (thread time semaphore node delta : ℕ) → M (Unit {0})
timeout_behind l thread time semaphore node delta = do
  p ← new_sleeping l thread semaphore (sub64 time delta)
  modify (λ k. record k { links = list_insert k.links node p })
  modify (λ k.
      if node == k.scheduler.sleeping_threads
      then k
      else set_delta node (sub64 (k.sleeping_at node).delta (k.sleeping_at p).delta) k)

-- Each sleeper takes a block of the heap, so `n_mem_blocks` rounds are enough for the walk.
unfoldable pub scheduler_timeout : Layout → (thread time semaphore : ℕ) → M (Unit {0})
scheduler_timeout l thread time semaphore k =
    let head = k.scheduler.sleeping_threads in
    let first = (k.sleeping_at head).delta in
    let walk = timeout_walk k.mem.n_mem_blocks k time (k.links.next head) (add64 0 first) in
    if head == 0
    then timeout_alone l thread time semaphore k
    else if ltb time first
    then timeout_first l thread time semaphore k
    else elim walk [
      | done (node, delta) ↦ timeout_behind l thread time semaphore node delta k
      | panic ↦ panic
      | undefined ↦ undefined
      | out_of_fuel ↦ out_of_fuel
    ]

-- The loop of `__scheduler_remove_timeout`: where it stops.
unfoldable pub find_timeout : (fuel : ℕ) → Kernel → (thread node : ℕ) → Run ℕ
find_timeout zero k thread node = out_of_fuel
find_timeout (suc fuel) k thread node =
    let rest = find_timeout fuel k thread (k.links.next node) in
    if not ((k.sleeping_at node).thread == thread)
      && not (k.links.next node == k.scheduler.sleeping_threads)
    then rest
    else done node

abbrev unlink_node : ℕ → Kernel → Kernel
unlink_node p k = record k { links = unlink k.links p }

-- the end of `__scheduler_remove_timeout`, at the node where the loop stops
unfoldable pub remove_found : Layout → (thread node : ℕ) → M (Unit {0})
remove_found l thread node k =
    let here = k.sleeping_at node in
    let next = k.links.next node in
    if not (here.thread == thread)
    then panic
    else if next == k.scheduler.sleeping_threads
    then (do modify (unlink_node node); free_or_panic l node) k
    else (do
      modify (set_delta next (add64 (k.sleeping_at next).delta here.delta))
      modify (unlink_node node)
      free_or_panic l node)
        k

unfoldable pub scheduler_remove_timeout : Layout → ℕ → M (Unit {0})
scheduler_remove_timeout l thread k =
    let head = k.scheduler.sleeping_threads in
    let walk = find_timeout k.mem.n_mem_blocks k thread head in
    if head == 0
    then panic
    else if k.links.next head == head
    then (if not ((k.sleeping_at head).thread == thread)
        then panic
        else (do free_or_panic l head; modify (set_asleep 0)) k)
    else elim walk [
      | done node ↦ remove_found l thread node k
      | panic ↦ panic
      | undefined ↦ undefined
      | out_of_fuel ↦ out_of_fuel
    ]
