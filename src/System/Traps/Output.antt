-- ===== src/System/Traps/Output.antt =====
-- The output of the console on a state that shows a machine: `__putc` and `__console_send`.
use kernel_riscv.Base.{ℕ, ◌≤◌, ◌≡◌, refl, ◌∙◌, ap, inl, inr, arith, length}
use kernel_riscv.Kernel.{Console, Kernel}
use kernel_riscv.ConsoleIo.{Device, putc, console_send, append_char}
use kernel_riscv.ConsoleIo.Buffers.{chars, length-chars, unsent}
use kernel_riscv.ConsoleIo.Sending.{console_send-Sent}
use kernel_riscv.ConsoleIo.Putting.{putc-PutIn}
use kernel_riscv.System.Machine.{Machine}
use kernel_riscv.System.Calls.{Follows}
use kernel_riscv.System.Input.Arrivals.{Follows-console}

-- `__putc` and `__console_send` leave the input alone.
abbrev SameInput : Console → Console → Type 0
SameInput c c' =
    (c'.receive_buffer ≡ c.receive_buffer)
    × (c'.receive_cnt ≡ c.receive_cnt)
    × (c'.waiting_for_input ≡ c.waiting_for_input)

module _ (dev : Device) (d : dev.Dev) where
  putc_input : (x : ℕ) (c : Console) → SameInput c (putc dev x c d).1
  unfolding putc console_send append_char
  putc_input x c = (ground arith, ground arith, ground arith)

  send_input : (c : Console) → SameInput c (console_send dev c d).0
  unfolding console_send
  send_input c = (refl, refl, refl)

  send_cnt_of : (c c' : Console) → unsent c' ≡ unsent c → c'.send_cnt ≡ c.send_cnt
  send_cnt_of c c' e = omega (
    arith,
    ap length e,
    length-chars c.send_buffer 0 c.send_cnt,
    length-chars c'.send_buffer 0 c'.send_cnt,
  )

  SameInput-Follows :
      (con : Console) {k : Kernel} {a : Machine}
      → Follows k a
      → SameInput k.console con
      → con.send_cnt ≤ 1024
      → Follows (record k { console = con }) (record a { output = unsent con })
  SameInput-Follows con {k} {a} f (b, n, w) m =
      Follows-console con a.buffer (unsent con) f w
        (ap (λ g. chars g 0 con.receive_cnt) b
          ∙ ap (chars k.console.receive_buffer 0) n
          ∙ f.shows.buffer)
        f.machine.bounded refl m

  pub putc-Follows :
      (x : ℕ) {k : Kernel} {a : Machine}
      → Follows k a
      → Follows
          (record k { console = (putc dev x k.console d).1 })
          (record a { output = unsent (putc dev x k.console d).1 })
  putc-Follows x {k} f =
      let c = k.console in
      SameInput-Follows (putc dev x c d).1 f (putc_input x c)
        (elim (putc-PutIn dev x c d f.shows.unsent) [
          | inl (_, p) ↦ p.count
          | inr (_, p) ↦ omega (arith, send_cnt_of c (putc dev x c d).1 p.same, f.shows.unsent)
        ])

  pub send-Follows :
      {k : Kernel} {a : Machine}
      → Follows k a
      → Follows
          (record k { console = (console_send dev k.console d).0 })
          (record a { output = unsent (console_send dev k.console d).0 })
  send-Follows {k} f =
      SameInput-Follows (console_send dev k.console d).0 f (send_input k.console)
        (omega (arith, f.shows.unsent, (console_send-Sent dev k.console d).count))
