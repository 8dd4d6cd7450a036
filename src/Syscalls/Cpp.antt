-- ===== src/Syscalls/Cpp.antt =====
-- src/syscall_cpp.cpp: memory, and the user's memory as the classes' members use it. An object is
-- named by its address; behind the pointer to its class come its members, eight bytes each.
pub mod Thread
pub mod Semaphore
pub mod Console
use kernel_riscv.Base.{ℕ}
use kernel_riscv.Memory.{Run, done}
use kernel_riscv.Kernel.{Context}
use kernel_riscv.Syscalls.{User, pure, ◌>>=◌, mem_alloc, mem_free}

-- `load` and `store` are the user's memory in `S`.
module _ {S : Type 0} (ecall : Context → S → Run (Context × S)) where
  abbrev pub read : (ℕ → S → ℕ) → ℕ → User ecall ℕ
  read load p (r, s) = done (load p s, (r, s))

  abbrev pub write : (ℕ → ℕ → S → S) → (p x : ℕ) → User ecall (Unit {0})
  write store p x (r, s) = done (tt, (r, store p x s))

  -- `operator new` and `operator new[]`
  unfoldable pub new : ℕ → User ecall ℕ
  new size = mem_alloc ecall size

  -- `operator delete` and `operator delete[]`
  unfoldable pub delete : ℕ → User ecall (Unit {0})
  delete ptr = do res ← mem_free ecall ptr; pure ecall tt
