-- ===== src/Syscalls/Reading.antt =====
-- `getc` of src/syscall_c.c with a character in the buffer, through `irq_wrap` and `irq_handler`.
use kernel_riscv.Base.{ℕ}
use kernel_riscv.Kernel.{Kernel}
use kernel_riscv.ConsoleIo as ConsoleIo

-- the context that the running thread's structure points to, as the last switch left it
abbrev pub pointed : Kernel → ℕ
pointed k = (k.thread_at k.scheduler.thread_current).sp
