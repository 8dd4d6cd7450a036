-- ===== src/Trap/Entry.antt =====
-- `irq_wrap` of src/trap.S: a trap as the thread that runs sees it.
use kernel_riscv.Base.{ℕ, add64, sub64}
use kernel_riscv.Memory.{Layout, Run, done, panic, undefined, out_of_fuel}
use kernel_riscv.Kernel.{Context, Kernel, set_context}
use kernel_riscv.ConsoleIo.{Device}
use kernel_riscv.Trap.{irq_handler}

-- The registers are stored in a context below the stack pointer, to which `sscratch` points.
unfoldable pub save_context : Context → Kernel → Kernel
save_context r k =
    let p = sub64 r.sp 0x100 in
    let cpu = record (k.cpu) { sscratch = p; gp = r.gp; tp = r.tp } in
    record (set_context p (record r { sp = p }) k) { cpu = cpu }

-- The registers come from the context to which `sscratch` then points; once `sp` is loaded, the
-- others are loaded relative to it.
unfoldable pub restore_context : Kernel → Context
restore_context k =
    let sp = (k.context_at k.cpu.sscratch).sp in record (k.context_at sp) { sp = add64 sp 0x100 }

module _ (dev : Device) (plic_claim : dev.Dev → ℕ × dev.Dev)
    (plic_complete : ℕ → dev.Dev → dev.Dev) where
  abbrev leave : Run (Kernel × dev.Dev) → Run (Context × (Kernel × dev.Dev))
  leave (done (k, d)) = done (restore_context k, (k, d))
  leave panic = panic
  leave undefined = undefined
  leave out_of_fuel = out_of_fuel

  unfoldable pub irq_wrap :
      Layout
      → (wrapper scause : ℕ) → Context
      → Kernel × dev.Dev
      → Run (Context × (Kernel × dev.Dev))
  irq_wrap l wrapper scause r (k, d) =
      leave (irq_handler dev plic_claim plic_complete l wrapper scause (save_context r k) d)
