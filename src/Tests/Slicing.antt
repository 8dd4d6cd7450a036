-- ===== src/Tests/Slicing.antt =====
-- Time slices at a concrete state.
use kernel_riscv.Base.{◌<◌, ◌≡◌, refl, [], ◌∷◌, arith, pos}
use kernel_riscv.Memory.{done}
use kernel_riscv.Kernel.{Kernel}
use kernel_riscv.Trap.RoundRobin.{Running}
use kernel_riscv.Trap.Slices.{slice, interrupts, interrupts-slice}
use kernel_riscv.Tests.{layout}
use kernel_riscv.Tests.Threading.{kernel, kernel-Running}

interrupts-slice_example :
    (2 < slice 2
      → (k' : Kernel) × (interrupts layout 2 (kernel (pos 0) 0) ≡ done (tt, k'))
        × Running k' 8 (3 ∷ 4 ∷ 5 ∷ []))
    × (2 ≡ slice 2
        → (k' : Kernel) × (interrupts layout 2 (kernel (pos 0) 0) ≡ done (tt, k'))
          × Running k' 3 (4 ∷ 5 ∷ 8 ∷ []))
interrupts-slice_example =
    interrupts-slice layout 2 2 8 3 (4 ∷ 5 ∷ []) (kernel (pos 0) 0) refl kernel-Running refl
      (omega arith)
