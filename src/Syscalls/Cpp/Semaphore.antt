-- ===== src/Syscalls/Cpp/Semaphore.antt =====
-- The class `Semaphore` of src/syscall_cpp.cpp.
use kernel_riscv.Base.{ℕ, ◌+◌, ℤ}
use kernel_riscv.Memory.{Run}
use kernel_riscv.Kernel.{Context}
use kernel_riscv.Syscalls.{
  User, pure, ◌>>=◌, sem_open, sem_close, sem_wait, sem_signal, sem_timed_wait, sem_trywait,
}
use kernel_riscv.Syscalls.Cpp.{read}

-- the address of `myHandle`
abbrev pub my_handle : ℕ → ℕ
my_handle this = this + 8

module _ {S : Type 0} (ecall : Context → S → Run (Context × S)) (load : ℕ → S → ℕ) where
  unfoldable pub init : (this cnt : ℕ) → User ecall (Unit {0})
  init this cnt = do res ← sem_open ecall (my_handle this) cnt; pure ecall tt

  unfoldable pub wait : ℕ → User ecall ℤ
  wait this = do handle ← read ecall load (my_handle this); sem_wait ecall handle

  unfoldable pub signal : ℕ → User ecall ℤ
  signal this = do handle ← read ecall load (my_handle this); sem_signal ecall handle

  unfoldable pub timed_wait : (this t : ℕ) → User ecall ℤ
  timed_wait this t = do handle ← read ecall load (my_handle this); sem_timed_wait ecall handle t

  unfoldable pub try_wait : ℕ → User ecall ℤ
  try_wait this = do handle ← read ecall load (my_handle this); sem_trywait ecall handle

  unfoldable pub destroy : ℕ → User ecall (Unit {0})
  destroy this = do
    handle ← read ecall load (my_handle this)
    res ← sem_close ecall handle
    pure ecall tt
