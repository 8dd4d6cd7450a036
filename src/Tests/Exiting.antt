-- ===== src/Tests/Exiting.antt =====
-- The end of a thread at a concrete state.
use kernel_riscv.Base.{ℕ, ◌≡◌, refl, [], ◌∷◌, arith, pos}
use kernel_riscv.Memory.{mem_init, done}
use kernel_riscv.Memory.Segments.{used, free, release, join_right}
use kernel_riscv.Memory.Tiles.{IsHeap}
use kernel_riscv.Memory.Release.{Releases, mem_free-release}
use kernel_riscv.Kernel.{Kernel}
use kernel_riscv.Threads.{thread_exit}
use kernel_riscv.Threads.Exit.{Exited, thread_exit-Exited}
use kernel_riscv.Tests.Calls.{wide, with_stack, with_thread}
use kernel_riscv.Tests.Threading.{kernel, ring-IsQueue}

-- the thread's structure and its stack lie in the heap
abbrev self : ℕ
self = 0x8000_11c0

abbrev stack : ℕ
stack = 0x8000_01c0

stack_freed :
    Releases wide with_thread.after stack (release (used 7 ∷ []) 64 (used 1 ∷ free 28 ∷ []))
unfolding mem_init
stack_freed =
    mem_free-release wide with_thread.after (used 7 ∷ []) 64 (used 1 ∷ free 28 ∷ [])
      (omega (arith, with_thread.count, with_stack.count)) with_thread.heap

between : IsHeap stack_freed.after (used 7 ∷ free 64 ∷ used 1 ∷ free 28 ∷ [])
unfolding release join_right
between = stack_freed.heap

thread_freed :
    Releases wide stack_freed.after self (release (used 7 ∷ free 64 ∷ []) 1 (free 28 ∷ []))
unfolding mem_init
thread_freed =
    mem_free-release wide stack_freed.after (used 7 ∷ free 64 ∷ []) 1 (free 28 ∷ [])
      (omega (arith, stack_freed.count, with_thread.count, with_stack.count)) between

abbrev exiting : Kernel
exiting = record (kernel (pos 1) 0) {
  mem = with_thread.after;
  thread_at = λ t. record { sp = 0; bp = stack; sstatus = 32; sepc = t; time_left = 2 };
  cpu = record { sstatus = 0; sepc = 100; sscratch = 0x8000_1000; gp = 0; tp = 0 };
  scheduler = record {
    user_thread_count = 4;
    ready_threads = 3;
    sleeping_threads = 0;
    thread_current = self;
    kernel_main = 1;
  };
}

thread_exit-Exited_example :
    (k' : Kernel) × (thread_exit wide exiting ≡ done (tt, k'))
    × Exited exiting k' thread_freed.after 3 (4 ∷ 5 ∷ [])
thread_exit-Exited_example =
    thread_exit-Exited wide exiting stack_freed.after thread_freed.after self 3 (4 ∷ 5 ∷ []) refl
      refl ring-IsQueue (omega arith) (omega arith) stack_freed.returns thread_freed.returns
