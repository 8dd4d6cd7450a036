-- ===== src/Tests/ConsoleRuns.antt =====
-- The console at a concrete controller.
use kernel_riscv.Base.{
  ℕ, ◌+◌, ◌≡◌, refl, List, [], ◌∷◌, ◌++◌, arith, pos, negsuc, ltb, length, if◌then◌else◌, ◌⊎◌,
}
use kernel_riscv.Kernel.{Kernel, Console}
use kernel_riscv.ConsoleIo.{Device, send_loop, console_send, putc, console_receive}
use kernel_riscv.ConsoleIo.Sending.{Sent, console_send-Sent}
use kernel_riscv.ConsoleIo.Putting.{PutIn, Refused, putc-PutIn}
use kernel_riscv.ConsoleIo.Delivery.{Received, console_receive-Received}
use kernel_riscv.Tests.Threading.{kernel, ring-IsQueue}

-- The characters to come, and those taken; the controller takes two.
abbrev rest : List ℕ → List ℕ
rest [] = []
rest (x ∷ xs) = xs

abbrev first : List ℕ → ℕ
first [] = 0
first (x ∷ xs) = x

abbrev pub device : Device
device = record {
  Dev = List ℕ × List ℕ;
  status = λ d. ((if ltb 0 (length d.0) then 1 else 0) + (if ltb (length d.1) 2 then 32 else 0), d);
  read_rx = λ d. (first d.0, (rest d.0, d.1));
  write_tx = λ x d. (d.0, d.1 ++ (x ∷ []));
}

-- three characters in each buffer, and threads 3, 4 and 5 waiting for input
abbrev console : Console
console = record {
  receive_buffer = λ i. 65 + i;
  send_buffer = λ i. 97 + i;
  receive_cnt = 3;
  send_cnt = 3;
  waiting_for_input = 3;
}

abbrev awaiting : Kernel
awaiting = record (kernel (pos 0) 0) {
  console = record console { receive_cnt = 1 };
  scheduler = record {
    user_thread_count = 4;
    ready_threads = 0;
    sleeping_threads = 0;
    thread_current = 8;
    kernel_main = 1;
  };
}

console_send-Sent_example : Sent device console ([], []) (console_send device console ([], []))
console_send-Sent_example = console_send-Sent device console ([], [])

-- Two characters are taken, and the third stays.
sends_two : (console_send device console ([], [])).1 ≡ ([], 97 ∷ 98 ∷ [])
unfolding console_send send_loop
sends_two = refl

putc-PutIn_example :
    (((putc device 33 console ([], [])).0 ≡ pos 0)
      × PutIn device 33 console
          (putc device 33 console ([], [])).1
          ([], [])
          (putc device 33 console ([], [])).2)
    ⊎ (((putc device 33 console ([], [])).0 ≡ negsuc 1)
        × Refused device console
            (putc device 33 console ([], [])).1
            ([], [])
            (putc device 33 console ([], [])).2)
putc-PutIn_example = putc-PutIn device 33 console ([], []) (omega arith)

console_receive-Received_example :
    Received device
      (λ t. t)
      awaiting
      (3 ∷ 4 ∷ 5 ∷ [])
      []
      (70 ∷ [], [])
      (console_receive device awaiting (70 ∷ [], []))
console_receive-Received_example =
    console_receive-Received device (λ t. t) awaiting (3 ∷ 4 ∷ 5 ∷ []) [] (70 ∷ [], [])
      (record {
        waiting = ring-IsQueue;
        ready = refl;
        distinct = omega arith;
        nonnull = omega arith;
      })
      (λ t. refl) (omega arith) (omega arith)
