-- ===== src/Tests/Threading.antt =====
-- Threads, semaphores and printing at concrete states.
use kernel_riscv.Base.{some, ℕ, ◌≡◌, ◌≢◌, refl, true, false, [], ◌∷◌, arith, ℤ, pos, negsuc, ◌==◌}
use kernel_riscv.Memory.{done}
use kernel_riscv.Links.{Links, push_node, pop_node}
use kernel_riscv.Links.Queue.{IsQueue, Pushed, Popped, push_node-Pushed, pop_node-Popped}
use kernel_riscv.Kernel.{Kernel, Thread, Cpu}
use kernel_riscv.Threads.{yield}
use kernel_riscv.Threads.Switch.{Saved, SameState, with_cpu, yield-yield}
use kernel_riscv.Trap.RoundRobin.{Running, dispatches, dispatches-Running}
use kernel_riscv.Semaphores.{sem_signal, sem_remove_thread}
use kernel_riscv.Semaphores.Removal.{HeadLost, sem_remove_thread-HeadLost}
use kernel_riscv.Semaphores.Blocking.{Waiting}
use kernel_riscv.Semaphores.Waking.{sem_signal-wakes}
use kernel_riscv.Printing.{print_u64}
use kernel_riscv.Printing.Decimal.{read_from, read_from-print_u64}

-- nodes 3, 4 and 5 in a ring, and every other node by itself
abbrev ring : Links
ring = record {
  next = λ a. elim (a == 3) [
    | true ↦ 4
    | false ↦ elim (a == 4) [ true ↦ 5 | false ↦ elim (a == 5) [ true ↦ 3 | false ↦ a ] ]
  ];
  prev = λ a. elim (a == 3) [
    | true ↦ 5
    | false ↦ elim (a == 4) [ true ↦ 3 | false ↦ elim (a == 5) [ true ↦ 4 | false ↦ a ] ]
  ];
}

pub ring-IsQueue : IsQueue ring 3 (3 ∷ 4 ∷ 5 ∷ [])
ring-IsQueue = record {
  first = refl;
  linked = (refl, refl, (refl, refl, (refl, refl)));
  distinct = omega arith;
  nonnull = omega arith;
}

push_node-Pushed_example : Pushed ring 9 (3 ∷ 4 ∷ 5 ∷ []) (push_node ring 3 9)
push_node-Pushed_example =
    push_node-Pushed ring 3 9 (3 ∷ 4 ∷ 5 ∷ []) ring-IsQueue (omega arith) (omega arith)

pop_node-Popped_example : Popped ring (4 ∷ 5 ∷ []) (pop_node ring 3)
pop_node-Popped_example = pop_node-Popped ring 3 3 (4 ∷ 5 ∷ []) ring-IsQueue

abbrev cpu : Cpu
cpu = record { sstatus = 0; sepc = 100; sscratch = 200; gp = 0; tp = 0 }

abbrev thread : ℕ → Thread
thread a = record { sp = a; bp = 0; sstatus = 32; sepc = a; time_left = 2 }

-- Thread 8 runs, and 3, 4 and 5 are ready; semaphore 7 has the given value and queue.
abbrev pub kernel : ℤ → ℕ → Kernel
kernel v waiting = record {
  mem = record { mem_index = λ _. pos 0; n_mem_blocks = 0; mem_index_len_in_blocks = 0 };
  links = ring;
  thread_at = thread;
  sleeping_at = λ _. record { thread = 0; semaphore = 0; delta = 0 };
  sem_at = λ _. record { val = v; init = v; waiting_threads = waiting };
  context_at = λ _. record { sp = 0; gp = 0; tp = 0; a0 = 0; a1 = 0; a2 = 0; a3 = 0; a4 = 0 };
  scheduler = record {
    user_thread_count = 4;
    ready_threads = 3;
    sleeping_threads = 0;
    thread_current = 8;
    kernel_main = 1;
  };
  sem_table = record { first_semaphore = 7; semaphores = λ _. 0; sem_cnt = 1 };
  console = record {
    receive_buffer = λ _. 0;
    send_buffer = λ _. 0;
    receive_cnt = 0;
    send_cnt = 0;
    waiting_for_input = 0;
  };
  cpu = cpu;
}

-- the same with the queue of nodes 3, 4 and 5 waiting on the semaphore, and none ready
abbrev pub all_wait : Kernel
all_wait = record (kernel (negsuc 2) 3) {
  scheduler = record {
    user_thread_count = 4;
    ready_threads = 0;
    sleeping_threads = 0;
    thread_current = 8;
    kernel_main = 1;
  };
}

pub kernel-Running : Running (kernel (pos 0) 0) 8 (3 ∷ 4 ∷ 5 ∷ [])
kernel-Running = record {
  current = refl;
  ready = ring-IsQueue;
  distinct = omega arith;
  nonnull = omega arith;
}

dispatches-Running_example : Running (dispatches 2 (kernel (pos 0) 0)) 4 (5 ∷ 8 ∷ 3 ∷ [])
dispatches-Running_example =
    dispatches-Running (3 ∷ []) (5 ∷ []) (kernel (pos 0) 0) 8 4 kernel-Running

yield-yield_example :
    SameState (yield 3 8 (with_cpu cpu (yield 8 3 (kernel (pos 0) 0)))).cpu cpu
    × Saved (yield 3 8 (with_cpu cpu (yield 8 3 (kernel (pos 0) 0)))) 3 cpu
yield-yield_example = yield-yield 8 3 (kernel (pos 0) 0) cpu (omega arith)

sem_signal-wakes_example :
    (k' : Kernel) × (sem_signal (record { heap_start = 0; heap_end = 0 }) 7 all_wait
      ≡ done (pos 0, k'))
    × Waiting k' 7 8 (3 ∷ []) (4 ∷ 5 ∷ [])
    × ((k'.context_at 3).a0 ≡ 0)
    × ((k'.sem_at 7).val ≡ negsuc 1)
    × (k'.thread_at 3 ≡ record (thread 3) { time_left = 2 })
    × ((t : ℕ) → t ≢ 3 → k'.thread_at t ≡ thread t)
sem_signal-wakes_example =
    sem_signal-wakes (record { heap_start = 0; heap_end = 0 }) all_wait 7 8 3 [] (4 ∷ 5 ∷ [])
      (record {
        current = refl;
        ready = refl;
        queue = ring-IsQueue;
        count = refl;
        distinct = omega arith;
        nonnull = omega arith;
      })
      (omega arith)

sem_remove_thread-HeadLost_example :
    (k' : Kernel) × (sem_remove_thread 7 4 all_wait ≡ done (tt, k'))
    × HeadLost all_wait k' 7 4 3 4 (5 ∷ [])
sem_remove_thread-HeadLost_example =
    sem_remove_thread-HeadLost all_wait 7 4 3 4 (5 ∷ []) ring-IsQueue

read_from-print_u64_example : read_from 0 (print_u64 1024) ≡ some 1024
read_from-print_u64_example = read_from-print_u64 1024 (omega arith)
