-- ===== src/Printing/Output/Panic.antt =====
-- What `__panic` of src/kernel.c gives to a controller that is always ready.
use kernel_riscv.Base.{
  ℕ, ◌≤◌, ◌≡◌, ◌∙◌, ap, sym, subst, List, [], ◌∷◌, ◌++◌, arith, inl, inr, true, false,
}
use mathlib.Core.List.{append-nil}
use kernel_riscv.Memory.{Mem}
use kernel_riscv.Memory.Segments.{Seg}
use kernel_riscv.Memory.Tiles.{IsHeap}
use kernel_riscv.Printing.Heap.{runs_report, mem_print-runs_report}
use kernel_riscv.Kernel.{Console}
use kernel_riscv.Threads.{bit}
use kernel_riscv.ConsoleIo.{Device, putc, console_send}
use kernel_riscv.ConsoleIo.Buffers.{unsent}
use kernel_riscv.ConsoleIo.Sending.{console_send-Sent}
use kernel_riscv.ConsoleIo.Putting.{Wire, quiet, putc-PutIn}
use kernel_riscv.Printing.{text, print_str}
use kernel_riscv.Printing.Reports.{mem_print}
use kernel_riscv.Printing.Output.{emit, stop, panic}
use kernel_riscv.Printing.Output.Flow.{Flow, Flow-append, console_send-Flow, PutIn-Flow, Flow-le}

true-ne-false : true ≡ false → ⊥
true-ne-false e = cc

module _ (dev : Device) where
  open dev use {Dev, status}

  -- The controller can take a character whenever it is asked.
  abbrev pub AlwaysReady : Type 0
  AlwaysReady = (d : Dev) → bit (status d).0 5 ≡ true

  module _ (ready : AlwaysReady) where
    emit-Flow :
        (xs : List ℕ) (c : Console) (d : Dev)
        → c.send_cnt ≤ 1024
        → Flow dev xs c d (emit dev xs c d) × ((emit dev xs c d).0.send_cnt ≤ 1024)
    unfolding emit
    emit-Flow [] c d h = (record { sent = []; split = append-nil (unsent c); wire = quiet }, h)
    emit-Flow (x ∷ xs) c d h =
        let (_, c1, d1) = putc dev x c d in
        elim (putc-PutIn dev x c d h) [
          | inl (_, p) ↦
              let (f, n) = emit-Flow xs c1 d1 p.count in
              (
                Flow-append dev (x ∷ []) xs c d (c1, d1) (emit dev xs c1 d1)
                    (PutIn-Flow dev x c c1 d d1 p) f,
                n,
              )
          | inr (_, p) ↦ absurd (true-ne-false (sym (ready d) ∙ p.not_ready))
        ]

    console_send-empties : (c : Console) (d : Dev) → unsent (console_send dev c d).0 ≡ []
    console_send-empties c d =
        let s = console_send-Sent dev c d in
        elim s.stops [ inl e ↦ e | inr b ↦ absurd (true-ne-false (sym (ready s.before) ∙ b)) ]

    headline : List ℕ
    headline = print_str (text "KERNEL PANIC!\n")

    -- Sending at the end takes nothing in.
    Flow-sent :
        (xs : List ℕ) (c : Console) (d : Dev) (r : Console × Dev)
        → Flow dev xs c d r
        → Flow dev xs c d (console_send dev r.0 r.1)
    Flow-sent xs c d r f =
        subst (λ l. Flow dev l c d (console_send dev r.0 r.1)) (append-nil xs)
          (Flow-append dev xs [] c d r (console_send dev r.0 r.1) f (console_send-Flow dev r.0 r.1))

    -- Once the buffer is empty, the controller has taken everything.
    Flow-Wire :
        (xs : List ℕ) (c : Console) (d : Dev) (r : Console × Dev)
        → Flow dev xs c d r
        → unsent r.0 ≡ []
        → Wire dev (unsent c ++ xs) d r.1
    Flow-Wire xs c d r f e =
        subst (λ l. Wire dev l d r.1) (sym (f.split ∙ ap (λ l. f.sent ++ l) e ∙ append-nil f.sent))
          f.wire

    panic-Flow :
        (msg : List ℕ) (m : Mem) (c : Console) (d : Dev)
        → c.send_cnt ≤ 1024
        → Flow dev (mem_print m ++ (headline ++ print_str msg)) c d (panic dev msg m c d)
    unfolding panic stop headline
    panic-Flow msg m c d h =
        let start = console_send dev c d in
        let f0 = console_send-Flow dev c d in
        let n : start.0.send_cnt ≤ 1024 = omega (arith, Flow-le dev [] c d start f0) in
        let index = emit dev (mem_print m) start.0 start.1 in
        let (f1, n1) = emit-Flow (mem_print m) start.0 start.1 n in
        let line = emit dev headline index.0 index.1 in
        let (f2, n2) = emit-Flow headline index.0 index.1 n1 in
        let end = emit dev (print_str msg) line.0 line.1 in
        let (f3, n3) = emit-Flow (print_str msg) line.0 line.1 n2 in
        let off = console_send dev end.0 end.1 in
        let f4 = Flow-sent (print_str msg) line.0 line.1 end f3 in
        let text_flow = Flow-append dev headline (print_str msg) index.0 index.1 line off f2 f4 in
        let rest = headline ++ print_str msg in
        Flow-append dev [] (mem_print m ++ rest) c d start off f0
          (Flow-append dev (mem_print m) rest start.0 start.1 index off f1 text_flow)

    panic-empties :
        (msg : List ℕ) (m : Mem) (c : Console) (d : Dev) → unsent (panic dev msg m c d).0 ≡ []
    unfolding panic stop
    panic-empties msg m c d = console_send-empties _ _

    -- On a buffer of at most 1024 characters and a heap with the runs `ss`, a controller that is
    -- always ready has taken, before the machine is turned off, all that was in the buffer, the
    -- report of the runs, the line of the panic and the message, in this order.
    pub panic-Wire :
        (msg : List ℕ) (m : Mem) (ss : List Seg) (c : Console) (d : Dev)
        → IsHeap m ss
        → c.send_cnt ≤ 1024
        → Wire dev
            (unsent c
              ++ ((runs_report ss ++ print_str (text "\n"))
                  ++ (print_str (text "KERNEL PANIC!\n") ++ print_str msg)))
            d
            (panic dev msg m c d).1
          × (unsent (panic dev msg m c d).0 ≡ [])
    unfolding headline
    panic-Wire msg m ss c d heap h =
        let rest = headline ++ print_str msg in
        let empty = panic-empties msg m c d in
        let e = ap (λ l. unsent c ++ (l ++ rest)) (mem_print-runs_report m ss heap) in
        (
          subst (λ l. Wire dev l d (panic dev msg m c d).1) e
              (Flow-Wire (mem_print m ++ rest) c d (panic dev msg m c d) (panic-Flow msg m c d h)
                empty),
          empty,
        )
