-- ===== src/Tests/Sleeping.antt =====
-- The timer's list at concrete states.
use kernel_riscv.Base.{ℕ, ◌+◌, ◌≡◌, refl, true, false, [], ◌∷◌, some, arith, pos, ◌==◌}
use kernel_riscv.Memory.{Mem, done, panic, mem_init}
use kernel_riscv.Memory.Segments.{used, free, first_fit, release}
use kernel_riscv.Memory.Contract.{Allocates, mem_alloc-first_fit}
use kernel_riscv.Memory.Release.{Releases, block_address, mem_free-release}
use kernel_riscv.Links.{Links}
use kernel_riscv.Links.Queue.{IsQueue}
use kernel_riscv.Kernel.{Kernel, Sleeping, ◌>>=◌}
use kernel_riscv.Scheduler.{scheduler_timeout, scheduler_remove_timeout}
use kernel_riscv.Scheduler.Sleepers.Entries.{Asleep}
use kernel_riscv.Scheduler.Sleepers.Sleep.{Slept, scheduler_timeout-Slept}
use kernel_riscv.Scheduler.Sleepers.Cancel.{Cancelled, scheduler_remove_timeout-Cancelled}
use kernel_riscv.Scheduler.Sleepers.Dangling.{scheduler_remove_timeout-dangling}
use kernel_riscv.Semaphores.{sem_timed_wait}
use kernel_riscv.Timer.{scheduler_tick}
use kernel_riscv.Timer.Tick.{Ticked, scheduler_tick-Ticked}
use kernel_riscv.Timer.Ticks.{ticks, Sleeps, scheduler_timeout-Sleeps}
use kernel_riscv.Timer.Defects.{sem_timed_wait-panics}
use kernel_riscv.Tests.{layout, heap, heap-IsHeap}
use kernel_riscv.Tests.Threading.{kernel, ring-IsQueue}

first_one : first_fit 1 0 (used 1 ∷ free 7 ∷ []) ≡ some (1, used 1 ∷ used 1 ∷ free 6 ∷ [])
unfolding first_fit
first_one = refl

-- the entry of a sleeper is the heap's second block
one_block : Allocates layout heap 1 1 (used 1 ∷ free 7 ∷ []) (used 1 ∷ used 1 ∷ free 6 ∷ [])
one_block = mem_alloc-first_fit layout heap 1 heap-IsHeap (omega arith) first_one

abbrev block : ℕ
block = block_address layout 1

freed : Releases layout one_block.after block (release (used 1 ∷ []) 1 (free 6 ∷ []))
unfolding mem_init
freed =
    mem_free-release layout one_block.after (used 1 ∷ []) 1 (free 6 ∷ [])
      (omega (arith, one_block.count)) one_block.heap

-- nodes `a`, `b` and `c` in a ring, and every other node by itself
abbrev ring_of : (a b c : ℕ) → Links
ring_of a b c = record {
  next = λ z. elim (z == a) [
    | true ↦ b
    | false ↦ elim (z == b) [ true ↦ c | false ↦ elim (z == c) [ true ↦ a | false ↦ z ] ]
  ];
  prev = λ z. elim (z == a) [
    | true ↦ c
    | false ↦ elim (z == b) [ true ↦ a | false ↦ elim (z == c) [ true ↦ b | false ↦ z ] ]
  ];
}

-- the entries of threads 20, 24 and 25
abbrev entry : ℕ → Sleeping
entry p = elim (p == block) [
  | true ↦ record { thread = 20; semaphore = 0; delta = 1 }
  | false ↦ record { thread = p + 20; semaphore = 0; delta = 2 }
]

-- sleepers in a ring of three, with thread 9 ready
abbrev sleepers : (a b c : ℕ) → Mem → Kernel
sleepers a b c m = record (kernel (pos 1) 0) {
  mem = m;
  links = ring_of a b c;
  sleeping_at = entry;
  scheduler = record {
    user_thread_count = 4;
    ready_threads = 9;
    sleeping_threads = a;
    thread_current = 8;
    kernel_main = 1;
  };
}

plain-Asleep : (m : Mem) → Asleep (sleepers 3 4 5 m) ((3, 2) ∷ (4, 4) ∷ (5, 6) ∷ [])
plain-Asleep m = record {
  queue = record {
    first = refl;
    linked = (refl, refl, (refl, refl, (refl, refl)));
    distinct = omega arith;
    nonnull = omega arith;
  };
  times = omega arith;
}

first-Asleep : (m : Mem) → Asleep (sleepers block 4 5 m) ((block, 1) ∷ (4, 3) ∷ (5, 5) ∷ [])
first-Asleep m = record {
  queue = record {
    first = refl;
    linked = (refl, refl, (refl, refl, (refl, refl)));
    distinct = omega arith;
    nonnull = omega arith;
  };
  times = omega arith;
}

second-Asleep : (m : Mem) → Asleep (sleepers 4 block 5 m) ((4, 2) ∷ (block, 3) ∷ (5, 5) ∷ [])
second-Asleep m = record {
  queue = record {
    first = refl;
    linked = (refl, refl, (refl, refl, (refl, refl)));
    distinct = omega arith;
    nonnull = omega arith;
  };
  times = omega arith;
}

scheduler_timeout-Slept_example :
    (k' : Kernel) × (scheduler_timeout layout 20 5 0 (sleepers 3 4 5 heap) ≡ done (tt, k'))
    × Slept
        (sleepers 3 4 5 heap)
        k'
        one_block.after
        20
        0
        block
        ((3, 2) ∷ (4, 4) ∷ (5, 6) ∷ [])
        ((3, 2) ∷ (4, 4) ∷ (block, 5) ∷ (5, 6) ∷ [])
unfolding mem_init
scheduler_timeout-Slept_example =
    scheduler_timeout-Slept layout (sleepers 3 4 5 heap) one_block.after 20 0 5 block
      ((3, 2) ∷ (4, 4) ∷ (5, 6) ∷ []) (plain-Asleep heap) (omega arith) (omega arith)
      one_block.returns (omega arith) (omega arith)

scheduler_tick-Ticked_example :
    (k' : Kernel) × (scheduler_tick layout (sleepers block 4 5 one_block.after) ≡ done (tt, k'))
    × Ticked
        (sleepers block 4 5 one_block.after)
        k'
        ((4, 2) ∷ (5, 4) ∷ [])
        (9 ∷ 20 ∷ [])
        freed.after
unfolding mem_init
scheduler_tick-Ticked_example =
    scheduler_tick-Ticked layout (λ p. (entry p).thread) (sleepers block 4 5 one_block.after)
      freed.after (block ∷ []) ((4, 3) ∷ (5, 5) ∷ []) (9 ∷ []) (omega (arith, one_block.count))
      (first-Asleep one_block.after) (omega arith)
      (record {
        first = refl;
        linked = (refl, refl);
        distinct = omega arith;
        nonnull = omega arith;
      })
      (record { nodes_apart = omega arith; distinct = omega arith; nonnull = omega arith })
      (λ p. refl) (refl, tt) (freed.after, freed.returns, refl)

scheduler_timeout-Sleeps_example :
    Sleeps layout (record (kernel (pos 1) 0) { mem = heap }) 8 5 (3 ∷ 4 ∷ 5 ∷ []) freed.after
unfolding mem_init
scheduler_timeout-Sleeps_example =
    scheduler_timeout-Sleeps layout (record (kernel (pos 1) 0) { mem = heap }) one_block.after
      freed.after 8 5 block (3 ∷ 4 ∷ 5 ∷ []) refl (omega arith) (omega arith) one_block.returns
      freed.returns (omega (arith, one_block.count)) (omega arith) ring-IsQueue (omega arith)
      (omega arith)

sem_timed_wait-panics_example :
    ((k' : Kernel) × (sem_timed_wait layout 7 5 (record (kernel (pos 1) 0) { mem = heap })
        ≡ done (pos 0, k')))
    × ((sem_timed_wait layout 7 5 >>= λ r. ticks layout 5)
          (record (kernel (pos 1) 0) { mem = heap })
        ≡ panic)
unfolding mem_init
sem_timed_wait-panics_example =
    sem_timed_wait-panics layout (record (kernel (pos 1) 0) { mem = heap }) one_block.after 7 5
      block refl one_block.returns (omega arith) (omega arith) refl refl (omega arith) (omega arith)
      (omega (arith, one_block.count))

scheduler_remove_timeout-Cancelled_example :
    (k' : Kernel) × (scheduler_remove_timeout layout 20 (sleepers 4 block 5 one_block.after)
      ≡ done (tt, k'))
    × Cancelled
        (sleepers 4 block 5 one_block.after)
        k'
        freed.after
        ((4, 2) ∷ (block, 3) ∷ (5, 5) ∷ [])
        ((4, 2) ∷ (5, 5) ∷ [])
unfolding mem_init
scheduler_remove_timeout-Cancelled_example =
    scheduler_remove_timeout-Cancelled layout (sleepers 4 block 5 one_block.after) freed.after 20
      block 3 4 2 [] ((5, 5) ∷ []) (second-Asleep one_block.after) (omega arith) refl
      (omega (arith, one_block.count)) freed.returns

scheduler_remove_timeout-dangling_example :
    (k' : Kernel) × (scheduler_remove_timeout layout 20 (sleepers block 4 5 one_block.after)
      ≡ done (tt, k'))
    × (k'.mem ≡ freed.after)
    × (k'.scheduler.sleeping_threads ≡ block)
    × IsQueue k'.links 4 (4 ∷ 5 ∷ [])
unfolding mem_init
scheduler_remove_timeout-dangling_example =
    scheduler_remove_timeout-dangling layout (sleepers block 4 5 one_block.after) freed.after 20
      block 1 4 3 ((5, 5) ∷ []) (first-Asleep one_block.after) refl (omega (arith, one_block.count))
      freed.returns
