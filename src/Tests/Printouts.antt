-- ===== src/Tests/Printouts.antt =====
-- Reports at concrete states.
use kernel_riscv.Base.{ℕ, ◌+◌, ◌≡◌, refl, List, [], ◌∷◌, ◌++◌, arith}
use kernel_riscv.Memory.{done, mem_init}
use kernel_riscv.Memory.Segments.{used, free}
use kernel_riscv.Kernel.{Kernel, Console}
use kernel_riscv.ConsoleIo.{Device}
use kernel_riscv.ConsoleIo.Buffers.{unsent}
use kernel_riscv.ConsoleIo.Putting.{Wire}
use kernel_riscv.Printing.{text, print_str, print_mem}
use kernel_riscv.Printing.Heap.{runs_report}
use kernel_riscv.Printing.Reports.{sem_all_print}
use kernel_riscv.Printing.Rings.{sems_report, sem_all_print-sems_report}
use kernel_riscv.Printing.Output.{panic}
use kernel_riscv.Printing.Output.Panic.{panic-Wire}
use kernel_riscv.Tests.{heap, heap-IsHeap}
use kernel_riscv.Tests.Threading.{all_wait, ring-IsQueue}

-- a controller that takes every character
abbrev ready_device : Device
ready_device = record {
  Dev = List ℕ;
  status = λ d. (32, d);
  read_rx = λ d. (0, d);
  write_tx = λ x d. d ++ (x ∷ []);
}

-- three characters that are not sent yet
abbrev console : Console
console = record {
  receive_buffer = λ i. 0;
  send_buffer = λ i. 97 + i;
  receive_cnt = 0;
  send_cnt = 3;
  waiting_for_input = 0;
}

panic-Wire_example :
    Wire ready_device
      (unsent console
        ++ ((runs_report (used 1 ∷ free 7 ∷ []) ++ print_str (text "\n"))
            ++ (print_str (text "KERNEL PANIC!\n") ++ print_str (text "out of memory"))))
      []
      (panic ready_device (text "out of memory") heap console []).1
    × (unsent (panic ready_device (text "out of memory") heap console []).0 ≡ [])
panic-Wire_example =
    panic-Wire ready_device (λ d. refl) (text "out of memory") heap (used 1 ∷ free 7 ∷ []) console
      [] heap-IsHeap (omega arith)

abbrev reported : Kernel
reported = record all_wait { mem = heap }

sem_all_print-sems_report_example :
    sem_all_print reported
    ≡ done (print_mem (text "Semaphore count") 1 ++ sems_report reported 0 ((3 ∷ 4 ∷ 5 ∷ []) ∷ []))
unfolding mem_init
sem_all_print-sems_report_example =
    sem_all_print-sems_report reported ((3 ∷ 4 ∷ 5 ∷ []) ∷ []) (ring-IsQueue, omega arith, tt) refl
      (omega arith)
