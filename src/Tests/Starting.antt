-- ===== src/Tests/Starting.antt =====
-- Starting the kernel at a concrete heap.
use kernel_riscv.Base.{◌≡◌, [], ◌∷◌, arith, pos}
use kernel_riscv.Memory.{Layout, done}
use kernel_riscv.Kernel.{Kernel}
use kernel_riscv.Boot.{boot}
use kernel_riscv.Boot.Bump.{runs}
use kernel_riscv.Boot.Booted.{Booted, boot-Booted}
use kernel_riscv.Tests.Threading.{kernel}

-- a heap of 200 blocks, of which the index takes 13
abbrev pub roomy : Layout
roomy = record { heap_start = 0x8000_0000; heap_end = 0x8000_3200 }

boot-Booted_example :
    (k' : Kernel) × (boot roomy 400 500 (kernel (pos 1) 0) ≡ done ((0x8000_1bb8, 0x8000_2bc0), k'))
    × Booted k' 400 500 0x8000_0b40 0x8000_2bc0 0x8000_1bc0
        (runs (13 ∷ 16 ∷ 16 ∷ 1 ∷ 1 ∷ 64 ∷ 64 ∷ 1 ∷ []) 24)
boot-Booted_example =
    boot-Booted roomy 400 500 (kernel (pos 1) 0) (omega arith) (omega arith) (omega arith)
      (omega arith)
