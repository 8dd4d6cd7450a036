-- ===== src/Printing/Output.antt =====
-- The characters of the printers as calls of `__putc`; `__stop` and `__panic` of src/kernel.c.
pub mod Flow
pub mod Panic
use kernel_riscv.Base.{
  ℕ, ◌+◌, ◌≤◌, ◌<◌, ◌≡◌, refl, ◌∙◌, ap, sym, subst, List, [], ◌∷◌, ◌++◌, arith, length,
  length-append, inl, inr, true, false, ◌⊎◌,
}
use mathlib.Core.List.{append_assoc, append-nil}
use kernel_riscv.Memory.{Mem}
use kernel_riscv.Memory.Segments.{Seg}
use kernel_riscv.Memory.Tiles.{IsHeap}
use kernel_riscv.Printing.Heap.{runs_report, mem_print-runs_report}
use kernel_riscv.Kernel.{Console}
use kernel_riscv.Threads.{bit}
use kernel_riscv.ConsoleIo.{Device, putc, console_send}
use kernel_riscv.ConsoleIo.Buffers.{unsent, length-chars}
use kernel_riscv.ConsoleIo.Sending.{console_send-Sent}
use kernel_riscv.ConsoleIo.Putting.{
  Wire, quiet, idle, PutIn, Refused, putc-PutIn, Wire-append, Transmits-Wire,
}
use kernel_riscv.Printing.{text, print_str}
use kernel_riscv.Printing.Reports.{mem_print}

module _ (dev : Device) where
  open dev use {Dev}

  -- The calls of `__putc` that a printer makes, which disregard its result.
  unfoldable pub emit : List ℕ → Console → Dev → Console × Dev
  emit [] c d = (c, d)
  emit (x ∷ xs) c d = let (_, c1, d1) = putc dev x c d in emit xs c1 d1

  -- `__stop` up to the store that turns the machine off.
  unfoldable pub stop : Console → Dev → Console × Dev
  stop c d = console_send dev c d

  unfoldable pub panic : (msg : List ℕ) → Mem → Console → Dev → Console × Dev
  panic msg m c d =
      let (c1, d1) = console_send dev c d in
      let (c2, d2) = emit (mem_print m) c1 d1 in
      let (c3, d3) = emit (print_str (text "KERNEL PANIC!\n")) c2 d2 in
      let (c4, d4) = emit (print_str msg) c3 d3 in stop c4 d4
