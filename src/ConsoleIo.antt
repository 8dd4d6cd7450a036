-- ===== src/ConsoleIo.antt =====
-- src/console.c. The controller is hardware: its registers are an interface.
pub mod Buffers
pub mod Sending
pub mod Putting
pub mod Receiving
pub mod Sharing
pub mod Delivery
use kernel_riscv.Base.{ℕ, zero, suc, ◌+◌, ◌-◌, ℤ, pos, negsuc, not, ◌&&◌, ltb, ◌==◌, if◌then◌else◌}
use kernel_riscv.Memory.{Layout}
use kernel_riscv.Links.{Links, push_node, pop_node}
use kernel_riscv.Kernel.{Console, Kernel, put, set_a0, M, ◌>>=◌, modify, alloc, blocks_of}
use kernel_riscv.Scheduler.{scheduler_push, scheduler_current}
use kernel_riscv.Threads.{bit, switch_away}

-- Reading `CONSOLE_STATUS` and `CONSOLE_RX_DATA` may change the controller, as writing
-- `CONSOLE_TX_DATA` does.
pub record Device : Type 1 where
  pub Dev : Type 0
  pub status : Dev → ℕ × Dev
  pub read_rx : Dev → ℕ × Dev
  pub write_tx : ℕ → Dev → Dev

abbrev pub console_buffer_size : ℕ
console_buffer_size = 1024

abbrev pub console_receive_buffer_empty : ℤ
console_receive_buffer_empty = negsuc 0

abbrev pub console_send_buffer_full : ℤ
console_send_buffer_full = negsuc 1

-- The two buffers are allocated once; what they hold is `k.console`.
unfoldable pub console_init : Layout → M (Unit {0})
console_init l = do
  r ← alloc l (blocks_of console_buffer_size)
  s ← alloc l (blocks_of console_buffer_size)
  modify (λ k. record k {
    console = record (k.console) { receive_cnt = 0; send_cnt = 0; waiting_for_input = 0 };
  })

-- `for(i = 0; i < n; i++) buffer[i] = buffer[by + i];` as the rounds from `i` on, `n` of them
unfoldable pub shift_from : (n i by : ℕ) → (ℕ → ℕ) → ℕ → ℕ
shift_from zero i by buffer = buffer
shift_from (suc n) i by buffer = shift_from n (suc i) by (put buffer i (buffer (by + i)))

abbrev pub set_waiting_input : Links × ℕ → Kernel → Kernel
set_waiting_input (l, h) k = record k {
  links = l;
  console = record (k.console) { waiting_for_input = h };
}

unfoldable pub waiting_push : ℕ → Kernel → Kernel
waiting_push t k = set_waiting_input (push_node k.links k.console.waiting_for_input t) k

unfoldable pub waiting_pop : Kernel → ℕ × Kernel
waiting_pop k =
    let head = k.console.waiting_for_input in (head, set_waiting_input (pop_node k.links head) k)

-- the branch of `__getc` that takes a character
unfoldable pub take_char : Kernel → Kernel
take_char k =
    let c = k.console in
    let left = c.receive_cnt - 1 in
    let k1 = set_a0 (scheduler_current k) (c.receive_buffer 0) k in
    record k1 {
      console = record c {
        receive_cnt = left;
        receive_buffer = shift_from left 0 1 c.receive_buffer;
      };
    }

unfoldable pub getc : Kernel → ℤ × Kernel
getc k =
    let (current, k1) = switch_away k in
    if k.console.receive_cnt == 0
    then (console_receive_buffer_empty, waiting_push current k1)
    else (pos 0, take_char k)

-- The second loop of `__console_receive`, with `cnt` characters in the buffer: each waiting thread
-- gets one. The result is the number of threads that became ready.
unfoldable pub hand_out : (fuel unblocked cnt : ℕ) → Kernel → ℕ × Kernel
hand_out zero unblocked cnt k = (unblocked, k)
hand_out (suc fuel) unblocked cnt k =
    let (t, k1) = waiting_pop k in
    let k2 = scheduler_push t (set_a0 t (k.console.receive_buffer unblocked) k1) in
    let rest = hand_out fuel (suc unblocked) cnt k2 in
    if not (k.console.waiting_for_input == 0) && ltb unblocked cnt then rest else (unblocked, k)

-- from the line `u64 unblocked_cnt = 0;` on; at most `receive_cnt` rounds
unfoldable pub deliver : Kernel → Kernel
deliver k =
    let (n, k1) = hand_out k.console.receive_cnt 0 k.console.receive_cnt k in
    let left = k1.console.receive_cnt - n in
    record k1 {
      console = record (k1.console) {
        receive_cnt = left;
        receive_buffer = shift_from left 0 n k1.console.receive_buffer;
      };
    }

-- `console_send_buffer[console_send_cnt] = c; console_send_cnt++;`
unfoldable pub append_char : ℕ → Console → Console
append_char x c = record c {
  send_buffer = put c.send_buffer c.send_cnt x;
  send_cnt = c.send_cnt + 1;
}

module _ (dev : Device) where
  open dev use {Dev, status, read_rx, write_tx}

  -- The first loop of `__console_receive`; it ends when the buffer is full, so 1025 rounds are enough.
  unfoldable pub receive_loop : ℕ → Console → Dev → Console × Dev
  receive_loop zero c d = (c, d)
  receive_loop (suc fuel) c d =
      let (s, d1) = status d in
      let (x, d2) = read_rx d1 in
      let rest =
        receive_loop fuel
          (record c {
            receive_buffer = put c.receive_buffer c.receive_cnt x;
            receive_cnt = c.receive_cnt + 1;
          })
          d2 in
      if bit s 0 && ltb c.receive_cnt console_buffer_size then rest else (c, d1)

  unfoldable pub console_receive : Kernel → Dev → Kernel × Dev
  console_receive k d =
      let (c, d1) = receive_loop (suc console_buffer_size) k.console d in
      (deliver (record k { console = c }), d1)

  -- The first loop of `__console_send`: the number of characters sent.
  unfoldable pub send_loop : (fuel bytes_sent : ℕ) → Console → Dev → ℕ × Dev
  send_loop zero bytes_sent c d = (bytes_sent, d)
  send_loop (suc fuel) bytes_sent c d =
      let (s, d1) = status d in
      let rest = send_loop fuel (suc bytes_sent) c (write_tx (c.send_buffer bytes_sent) d1) in
      if bit s 5 && ltb bytes_sent c.send_cnt then rest else (bytes_sent, d1)

  unfoldable pub console_send : Console → Dev → Console × Dev
  console_send c d =
      let (n, d1) = send_loop (suc c.send_cnt) 0 c d in
      let left = c.send_cnt - n in
      (record c { send_cnt = left; send_buffer = shift_from left 0 n c.send_buffer }, d1)

  unfoldable pub putc : ℕ → Console → Dev → ℤ × Console × Dev
  putc x c d =
      let (c1, d1) = console_send c d in
      let (c2, d2) = if c.send_cnt == console_buffer_size then (c1, d1) else (c, d) in
      let (c3, d3) = console_send c2 d2 in
      if (c.send_cnt == console_buffer_size) && (c1.send_cnt == console_buffer_size)
      then (console_send_buffer_full, c1, d1)
      else (pos 0, append_char x c3, d3)
