-- ===== src/Tests/Calls.antt =====
-- User calls at concrete states.
use kernel_riscv.Base.{
  ◌+◌, ℕ, ◌≤◌, ◌≡◌, refl, ◌∙◌, ap, List, [], ◌∷◌, some, none, arith, pos, negsuc, if◌then◌else◌,
  is_neg, is_zero,
}
use kernel_riscv.Memory.{Layout, Mem, Run, done, panic, mem_init, mem_block_size, clear, set}
use kernel_riscv.Memory as Memory
use kernel_riscv.Memory.Segments.{used, free, first_fit}
use kernel_riscv.Memory.Tiles.{IsHeap}
use kernel_riscv.Memory.Init.{mem_init-IsHeap}
use kernel_riscv.Memory.Contract.{Allocates, mem_alloc-first_fit, mem_alloc-exhausted}
use kernel_riscv.Kernel.{Context, Kernel}
use kernel_riscv.Syscalls.{mem_alloc, mem_free, sem_trywait, thread_create}
use kernel_riscv.Syscalls.Returning.{
  ReturnsWith, user_ecall, mem_alloc-Allocates, mem_free-sem_trywait_unknown,
}
use kernel_riscv.Syscalls.Creating.{Started, thread_create-Started, thread_create-leaks}
use kernel_riscv.Tests.{blank}
use kernel_riscv.Tests.Threading.{kernel, ring-IsQueue}
use kernel_riscv.Tests.ConsoleRuns.{device}

-- heaps of 100 blocks and of 69, of which the index takes 7 and 5
abbrev pub wide : Layout
wide = record { heap_start = 0x8000_0000; heap_end = 0x8000_1900 }

abbrev tight : Layout
tight = record { heap_start = 0x8000_0000; heap_end = 0x8000_1140 }

wide-IsHeap : IsHeap (mem_init wide blank) (used 7 ∷ free 93 ∷ [])
wide-IsHeap = mem_init-IsHeap wide blank (omega arith) (omega arith) (omega arith) (omega arith)

tight-IsHeap : IsHeap (mem_init tight blank) (used 5 ∷ free 64 ∷ [])
tight-IsHeap = mem_init-IsHeap tight blank (omega arith) (omega arith) (omega arith) (omega arith)

-- user code with its stack pointer at 0x8100_0000 and 1, 2, 3, 4 in a1 to a4
abbrev regs : Context
regs = record { sp = 0x8100_0000; gp = 0; tp = 0; a0 = 9; a1 = 1; a2 = 2; a3 = 3; a4 = 4 }

-- the kernel with a fresh heap; threads 3, 4 and 5 are ready
abbrev fresh : Layout → Kernel
fresh l = record (kernel (pos 1) 0) { mem = mem_init l blank }

-- no interrupt is pending
abbrev World : Type 0
World = List ℕ × List ℕ

abbrev claim : World → ℕ × World
claim d = (0, d)

abbrev complete : ℕ → World → World
complete irq d = d

abbrev ecall : Layout → Context → Kernel × World → Run (Context × (Kernel × World))
ecall l = user_ecall device claim complete l 400

two_blocks : first_fit 2 0 (used 7 ∷ free 93 ∷ []) ≡ some (7, used 7 ∷ used 2 ∷ free 91 ∷ [])
unfolding first_fit
two_blocks = refl

mem_alloc-Allocates_example :
    (a : Allocates wide
      (fresh wide).mem
      2
      7
      (used 7 ∷ free 93 ∷ [])
      (used 7 ∷ used 2 ∷ free 91 ∷ []))
    × (k' : Kernel) × (r' : Context) × (mem_alloc (ecall wide) 100 (regs, (fresh wide, ([], [])))
        ≡ done (0x8000_01c0, (r', (k', ([], [])))))
    × ReturnsWith (fresh wide) k' regs r' 0x8000_01c0 a.after
    × (100 ≤ 128)
mem_alloc-Allocates_example =
    mem_alloc-Allocates device claim complete wide 400 100 7 (used 7 ∷ free 93 ∷ [])
      (used 7 ∷ used 2 ∷ free 91 ∷ []) regs (fresh wide) ([], []) (omega arith) (omega arith)
      (omega arith) wide-IsHeap two_blocks

mem_free-sem_trywait_unknown_example :
    ((k' : Kernel) × (r' : Context) × (mem_free
          (ecall wide)
          0x8000_01c0
          (regs, (fresh wide, ([], [])))
        ≡ done (pos 2, (r', (k', ([], [])))))
      × ReturnsWith (fresh wide) k' regs r' 2 (fresh wide).mem)
    × ((k' : Kernel) × (r' : Context) × (sem_trywait (ecall wide) 7 (regs, (fresh wide, ([], [])))
          ≡ done (pos 38, (r', (k', ([], [])))))
        × ReturnsWith (fresh wide) k' regs r' 38 (fresh wide).mem)
mem_free-sem_trywait_unknown_example =
    mem_free-sem_trywait_unknown device claim complete wide 400 0x8000_01c0 7 regs (fresh wide)
      ([], []) (omega arith)

stack_fits : first_fit 64 0 (used 7 ∷ free 93 ∷ []) ≡ some (7, used 7 ∷ used 64 ∷ free 29 ∷ [])
unfolding first_fit
stack_fits = refl

pub with_stack :
    Allocates wide (fresh wide).mem 64 7 (used 7 ∷ free 93 ∷ []) (used 7 ∷ used 64 ∷ free 29 ∷ [])
with_stack = mem_alloc-first_fit wide (fresh wide).mem 64 wide-IsHeap (omega arith) stack_fits

thread_fits :
    first_fit 1 0 (used 7 ∷ used 64 ∷ free 29 ∷ [])
    ≡ some (71, used 7 ∷ used 64 ∷ used 1 ∷ free 28 ∷ [])
unfolding first_fit
thread_fits = refl

pub with_thread :
    Allocates wide with_stack.after 1 71
      (used 7 ∷ used 64 ∷ free 29 ∷ [])
      (used 7 ∷ used 64 ∷ used 1 ∷ free 28 ∷ [])
with_thread = mem_alloc-first_fit wide with_stack.after 1 with_stack.heap (omega arith) thread_fits

thread_create-Started_example :
    (k' : Kernel) × (thread_create (ecall wide) 0x9000_0000 500 77 (regs, (fresh wide, ([], [])))
      ≡ done (pos 0, (record regs { a0 = 0; a1 = 500; a2 = 77 }, (k', ([], [])))))
    × Started (fresh wide) k' with_thread.after 400 500 77 0x8000_01c0 0x8000_11c0 (3 ∷ 4 ∷ 5 ∷ [])
thread_create-Started_example =
    thread_create-Started device claim complete wide 400 0x9000_0000 500 77 0x8000_01c0 0x8000_11c0
      (3 ∷ 4 ∷ 5 ∷ []) with_stack.after with_thread.after regs (fresh wide) ([], []) (omega arith)
      ring-IsQueue with_stack.returns (omega arith) (omega arith) with_thread.returns (omega arith)
      (omega arith) (omega arith)

stack_fills : first_fit 64 0 (used 5 ∷ free 64 ∷ []) ≡ some (5, used 5 ∷ used 64 ∷ [])
unfolding first_fit
stack_fills = refl

nothing_left : first_fit 1 0 (used 5 ∷ used 64 ∷ []) ≡ none
unfolding first_fit
nothing_left = refl

full : Allocates tight (fresh tight).mem 64 5 (used 5 ∷ free 64 ∷ []) (used 5 ∷ used 64 ∷ [])
full = mem_alloc-first_fit tight (fresh tight).mem 64 tight-IsHeap (omega arith) stack_fills

-- the word behind the index is 7
behind_index : full.after.mem_index full.after.n_mem_blocks ≡ pos 7
unfolding mem_init clear
behind_index = ap full.after.mem_index full.count ∙ full.behind 69 (omega arith)

refused : Memory.mem_alloc tight full.after 1 ≡ done (0, full.after)
refused =
    (mem_alloc-exhausted tight full.after 1 (used 5 ∷ used 64 ∷ []) full.heap nothing_left
      (ap is_neg behind_index)).0
    ∙ ap (λ z. if is_zero z then panic else done (0, full.after)) behind_index

thread_create-leaks_example :
    (k' : Kernel) × (r' : Context) × (thread_create
        (ecall tight)
        0x9000_0000
        500
        77
        (regs, (fresh tight, ([], [])))
      ≡ done (negsuc 0, (r', (k', ([], [])))))
    × (k'.mem ≡ full.after)
    × (k'.links ≡ (fresh tight).links)
    × (k'.thread_at ≡ (fresh tight).thread_at)
    × (k'.scheduler ≡ (fresh tight).scheduler)
thread_create-leaks_example =
    thread_create-leaks device claim complete tight 400 0x9000_0000 500 77 0x8000_0140 full.after
      regs (fresh tight) ([], []) (omega arith) full.returns (omega arith) refused

-- the characters 65, 66 and 67 have come in; the running thread, 8, last gave way elsewhere
abbrev typed : Kernel
typed = record (fresh wide) {
  console = record {
    receive_buffer = λ i. 65 + i;
    send_buffer = λ i. 0;
    receive_cnt = 3;
    send_cnt = 0;
    waiting_for_input = 0;
  };
}
