-- ===== src/Boot.antt =====
-- `main` of src/main.c, up to the first `ecall` and the test of its final loop.
pub mod Bump
pub mod Booted
use kernel_riscv.Base.{ℕ, ◌-◌, Bool, not, ◌==◌, if◌then◌else◌, add64, is_zero}
use kernel_riscv.Memory.{Layout, mem_init}
use kernel_riscv.Kernel.{
  Kernel, set_thread, M, ◌>>=◌, ◌>>◌, pure, modify, stop, alloc, blocks_of, sizeof_thread,
  default_stack_size,
}
use kernel_riscv.Scheduler.{scheduler_init, user_thread_count}
use kernel_riscv.Threads.{exec_mode_user, thread_create, clear_bit}
use kernel_riscv.ConsoleIo.{console_init}

unfoldable pub init_heap : Layout → Kernel → Kernel
init_heap l k = record k { mem = mem_init l k.mem.mem_index }

-- The result is the top of the system stack and the thread of `userMain`, whose address is
-- `user_main`; `wrapper` is that of `__thread_wrapper`.
unfoldable pub boot : Layout → (wrapper user_main : ℕ) → M (ℕ × ℕ)
boot l wrapper user_main = do
  modify (λ k. record k { cpu = record (k.cpu) { sstatus = clear_bit k.cpu.sstatus 1 } })
  modify (init_heap l)
  console_init l
  kernel_main ← alloc l (blocks_of sizeof_thread)
  if kernel_main == 0 then stop else do
    modify
        (λ k. set_thread kernel_main (record (k.thread_at kernel_main) { bp = 0; time_left = 1 }) k)
    scheduler_init l kernel_main
    system_stack ← alloc l (blocks_of default_stack_size)
    user_stack ← alloc l (blocks_of default_stack_size)
    if system_stack == 0 then stop else if user_stack == 0 then stop else do
      (r, t) ←
          thread_create l wrapper user_main 0 (add64 user_stack (default_stack_size - 8))
            exec_mode_user
      if not (is_zero r) then stop else pure (add64 system_stack (default_stack_size - 8), t)

-- `while(__scheduler_user_thread_count())`
unfoldable pub keeps_running : Kernel → Bool
keeps_running k = not (user_thread_count k == 0)
