-- ===== src/Tests.antt =====
-- Concrete runs, and the theorems at inputs that meet their hypotheses.
mod Threading
mod ConsoleRuns
mod Sleeping
mod Calls
mod Sharing
mod Starting
mod Slicing
mod Exiting
mod Whole
mod Printouts
use kernel_riscv.Base.{
  ℕ, zero, suc, ◌+◌, ◌*◌, ◌^◌, ◌<◌, ◌≤◌, ◌≡◌, ◌≢◌, refl, ◌∙◌, inl, inr, true, false, List, [], ◌∷◌,
  ◌++◌, some, none, arith, length, ℤ, pos, negsuc, ◌+ℤ◌,
}
use kernel_riscv.Memory.{
  Layout, Words, Mem, Run, done, panic, mem_init, clear, mem_alloc, mem_free, set, free_ok,
  free_not_alloced,
}
use kernel_riscv.Kernel.{Kernel}
use kernel_riscv.Semaphores.{sem_close}
use kernel_riscv.Semaphores.Closing.{ClosedAll, sem_close-ClosedAll}
use kernel_riscv.Tests.Threading.{all_wait, ring-IsQueue}
use kernel_riscv.Memory.Segments.{used, free, total, first_fit, release, join_right}
use kernel_riscv.Memory.Segments.Placement.{FreeIn}
use kernel_riscv.Memory.Tiles.{IsHeap}
use kernel_riscv.Memory.Init.{mem_init-IsHeap}
use kernel_riscv.Memory.Contract.{Allocates, mem_alloc-first_fit, mem_alloc-exhausted}
use kernel_riscv.Memory.Release.{
  interior, Fits, Releases, block_address, mem_free-release, mem_free-refuses,
}
use kernel_riscv.Memory.RoundTrip.{Restored, mem_alloc-mem_free}
use kernel_riscv.Memory.Defects.{mem_free-accepts_inner}

-- a heap of eight blocks, and the memory behind it
abbrev pub layout : Layout
layout = record { heap_start = 0x8000_0000; heap_end = 0x8000_0200 }

abbrev pub blank : Words
blank x = pos 7

abbrev pub heap : Mem
heap = mem_init layout blank

pub heap-IsHeap : IsHeap heap (used 1 ∷ free 7 ∷ [])
heap-IsHeap = mem_init-IsHeap layout blank (omega arith) (omega arith) (omega arith) (omega arith)

heap-Fits : Fits layout heap
unfolding mem_init
heap-Fits = omega arith

mem_init-IsHeap_example : IsHeap (mem_init layout blank) (used 1 ∷ free 7 ∷ [])
mem_init-IsHeap_example =
    mem_init-IsHeap layout blank (omega arith) (omega arith) (omega arith) (omega arith)

first_two : first_fit 2 0 (used 1 ∷ free 7 ∷ []) ≡ some (1, used 1 ∷ used 2 ∷ free 5 ∷ [])
unfolding first_fit
first_two = refl

next_two :
    first_fit 2 0 (used 1 ∷ used 2 ∷ free 5 ∷ []) ≡ some (3, used 1 ∷ used 2 ∷ used 2 ∷ free 3 ∷ [])
unfolding first_fit
next_two = refl

mem_alloc-first_fit_example :
    Allocates layout heap 2 1 (used 1 ∷ free 7 ∷ []) (used 1 ∷ used 2 ∷ free 5 ∷ [])
mem_alloc-first_fit_example = mem_alloc-first_fit layout heap 2 heap-IsHeap (omega arith) first_two

-- after an allocation of two blocks, and after one of two more
one_taken : Allocates layout heap 2 1 (used 1 ∷ free 7 ∷ []) (used 1 ∷ used 2 ∷ free 5 ∷ [])
one_taken = mem_alloc-first_fit layout heap 2 heap-IsHeap (omega arith) first_two

two_taken :
    Allocates layout one_taken.after 2 3
      (used 1 ∷ used 2 ∷ free 5 ∷ [])
      (used 1 ∷ used 2 ∷ used 2 ∷ free 3 ∷ [])
two_taken = mem_alloc-first_fit layout one_taken.after 2 one_taken.heap (omega arith) next_two

two_taken-Fits : Fits layout two_taken.after
unfolding mem_init
two_taken-Fits = omega (arith, two_taken.count, one_taken.count)

-- what the two calls return, run on the words
heap_runs : heap.mem_index 1 ≡ negsuc 6
unfolding mem_init clear
heap_runs = refl

no_room : first_fit 9 0 (used 1 ∷ free 7 ∷ []) ≡ none
unfolding first_fit
no_room = refl

-- the word behind the index is 7, so that a call for nine blocks returns the null pointer
mem_alloc-exhausted_example :
    (mem_alloc layout heap 9 ≡ done (0, heap)) × ((k : ℕ) → FreeIn k (used 1 ∷ free 7 ∷ []) → k < 9)
unfolding mem_init clear
mem_alloc-exhausted_example =
    mem_alloc-exhausted layout heap 9 (used 1 ∷ free 7 ∷ []) heap-IsHeap no_room refl

mem_free-release_example :
    Releases layout two_taken.after
      (block_address layout 3)
      (release (used 1 ∷ used 2 ∷ []) 2 (free 3 ∷ []))
mem_free-release_example =
    mem_free-release layout two_taken.after (used 1 ∷ used 2 ∷ []) 2 (free 3 ∷ []) two_taken-Fits
      two_taken.heap

mem_free-refuses_example : mem_free layout heap (block_address layout 4) ≡ (free_not_alloced, heap)
mem_free-refuses_example =
    mem_free-refuses layout heap (used 1 ∷ free 7 ∷ []) (block_address layout 4) heap-Fits
      heap-IsHeap (omega arith) (interior 4 refl (inr (inl (omega arith, omega arith))))

mem_alloc-mem_free_example : Restored layout heap 2 1
mem_alloc-mem_free_example =
    mem_alloc-mem_free layout heap 2 heap-Fits heap-IsHeap (refl, tt) (omega arith) first_two

mem_free-accepts_inner_example :
    (mem_free layout two_taken.after (block_address layout 2)).0 ≡ free_ok
mem_free-accepts_inner_example =
    mem_free-accepts_inner layout two_taken.after (used 1 ∷ []) (free 3 ∷ []) two_taken-Fits
      two_taken.heap

-- threads 3, 4 and 5 wait on a semaphore at the heap's second block
abbrev closing : Kernel
closing = record all_wait { mem = one_taken.after }

handle_freed :
    Releases layout one_taken.after (block_address layout 1) (release (used 1 ∷ []) 2 (free 5 ∷ []))
unfolding mem_init
handle_freed =
    mem_free-release layout one_taken.after (used 1 ∷ []) 2 (free 5 ∷ [])
      (omega (arith, one_taken.count)) one_taken.heap

sem_close-ClosedAll_example :
    (k' : Kernel) × (sem_close layout (block_address layout 1) closing ≡ done (pos 0, k'))
    × ClosedAll (λ t. t) closing k' handle_freed.after (3 ∷ 4 ∷ 5 ∷ []) []
unfolding mem_init
sem_close-ClosedAll_example =
    sem_close-ClosedAll (λ t. t) layout closing (block_address layout 1) handle_freed.after
      (3 ∷ 4 ∷ 5 ∷ []) [] ring-IsQueue refl (omega arith) (omega arith) (λ t. refl) (omega arith)
      (omega (arith, one_taken.count)) handle_freed.returns
