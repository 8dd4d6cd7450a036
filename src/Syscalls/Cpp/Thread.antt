-- ===== src/Syscalls/Cpp/Thread.antt =====
-- The class `Thread` of src/syscall_cpp.cpp.
use kernel_riscv.Base.{ℕ, ◌+◌, ℤ, ◌==◌, if◌then◌else◌}
use kernel_riscv.Memory.{Run}
use kernel_riscv.Kernel.{Context}
use kernel_riscv.Syscalls.{User, pure, ◌>>=◌, ◌>>◌, thread_create, thread_dispatch, time_sleep}
use kernel_riscv.Syscalls.Cpp.{read, write, delete}

-- the members' addresses
abbrev pub my_handle : ℕ → ℕ
my_handle this = this + 8

abbrev pub body_of : ℕ → ℕ
body_of this = this + 16

abbrev pub arg_of : ℕ → ℕ
arg_of this = this + 24

module _ {S : Type 0} (ecall : Context → S → Run (Context × S)) (load : ℕ → S → ℕ)
    (store : ℕ → ℕ → S → S) where
  unfoldable pub init : (this body arg : ℕ) → User ecall (Unit {0})
  init this body arg = do write ecall store (body_of this) body; write ecall store (arg_of this) arg

  -- the constructor of a derived class's base; `func` is the address of `__hack::__func`, which
  -- calls `run` of its argument
  unfoldable pub init_run : (func this : ℕ) → User ecall (Unit {0})
  init_run func this = do
    write ecall store (body_of this) func
    write ecall store (arg_of this) this

  unfoldable pub start : ℕ → User ecall ℤ
  start this = do
    body ← read ecall load (body_of this)
    arg ← read ecall load (arg_of this)
    thread_create ecall (my_handle this) body arg

  unfoldable pub dispatch : User ecall (Unit {0})
  dispatch = thread_dispatch ecall

  unfoldable pub sleep : ℕ → User ecall ℤ
  sleep time = time_sleep ecall time

  -- `delete` of a null pointer does nothing.
  unfoldable pub destroy : ℕ → User ecall (Unit {0})
  destroy this = do
    handle ← read ecall load (my_handle this)
    if handle == 0 then pure ecall tt else delete ecall handle
