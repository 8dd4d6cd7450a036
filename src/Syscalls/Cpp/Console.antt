-- ===== src/Syscalls/Cpp/Console.antt =====
-- The class `Console` of src/syscall_cpp.cpp.
use kernel_riscv.Base.{ℕ}
use kernel_riscv.Memory.{Run}
use kernel_riscv.Kernel.{Context}
use kernel_riscv.Syscalls as Calls
use kernel_riscv.Syscalls.{User}

module _ {S : Type 0} (ecall : Context → S → Run (Context × S)) where
  unfoldable pub getc : User ecall ℕ
  getc = Calls.getc ecall

  unfoldable pub putc : ℕ → User ecall (Unit {0})
  putc c = Calls.putc ecall c
