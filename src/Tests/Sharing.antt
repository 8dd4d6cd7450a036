-- ===== src/Tests/Sharing.antt =====
-- Threads that share a semaphore, at a concrete state.
use kernel_riscv.Base.{◌+◌, ◌≤◌, ◌<◌, ◌≡◌, refl, List, [], ◌∷◌, arith, pos, negsuc}
use kernel_riscv.Memory.{done}
use kernel_riscv.Kernel.{Kernel}
use kernel_riscv.Trap.Sharing.{
  Event, waits, signals, turn, acts, view, pass, block, wake, rotate, Steps, here, next, Shows,
  waits_of, signals_of,
}
use kernel_riscv.Trap.Sharing.Bounds.{acts-bounded}
use kernel_riscv.Tests.{layout}
use kernel_riscv.Tests.Threading.{kernel, ring-IsQueue}

-- Thread 8 takes the semaphore, thread 3 gets a turn and has to wait, and so has thread 4; thread 5
-- gives the semaphore back, and thread 3 becomes ready.
abbrev story : List Event
story = waits ∷ turn ∷ waits ∷ waits ∷ signals ∷ []

story-Steps :
    Steps (view (pos 1) 8 (3 ∷ 4 ∷ 5 ∷ []) []) story (view (negsuc 0) 5 (8 ∷ 3 ∷ []) (4 ∷ []))
story-Steps = next (pass (pos 1) 8 (3 ∷ 4 ∷ 5 ∷ []) refl) (
    next (rotate (pos 0) 8 3 (4 ∷ 5 ∷ []) []) (
      next (block (pos 0) 3 4 (5 ∷ 8 ∷ []) [] refl (omega arith)) (
        next (block (negsuc 0) 4 5 (8 ∷ []) (3 ∷ []) refl (omega arith))
          (next (wake (negsuc 1) 5 3 (8 ∷ []) (4 ∷ [])) here))))

start-Shows : Shows 7 (kernel (pos 1) 0) (view (pos 1) 8 (3 ∷ 4 ∷ 5 ∷ []) [])
start-Shows = record {
  waiting = record {
    current = refl;
    ready = ring-IsQueue;
    queue = refl;
    count = refl;
    distinct = omega arith;
    nonnull = omega arith;
  };
  value = refl;
  untimed = λ t. omega arith;
}

acts-bounded_example :
    (k' : Kernel) × (acts layout 7 story (kernel (pos 1) 0) ≡ done (tt, k'))
    × Shows 7 k' (view (negsuc 0) 5 (8 ∷ 3 ∷ []) (4 ∷ []))
    × (waits_of story ≤ 1 + signals_of story + 1)
    × (0 < 1 → waits_of story ≡ 1 + signals_of story + 1)
acts-bounded_example =
    acts-bounded layout 7 1 8 (3 ∷ 4 ∷ 5 ∷ []) story-Steps (kernel (pos 1) 0) start-Shows
