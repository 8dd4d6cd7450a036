-- ===== src/Threads.antt =====
-- src/thread.c: creating, switching and deleting threads.
pub mod Switch
pub mod Create
pub mod Exit
use kernel_riscv.Base.{
  ℕ, ◌+◌, ◌-◌, ◌/◌, ◌%◌, ◌^◌, ℤ, pos, negsuc, Bool, ltb, ◌==◌, if◌then◌else◌, add64, sub64,
}
use kernel_riscv.Memory.{Layout}
use kernel_riscv.Kernel.{
  Thread, Context, Kernel, set_thread, set_context, M, ◌>>=◌, ◌>>◌, pure, get, modify, stop, state,
  alloc, free_or_panic, blocks_of, sizeof_thread, default_stack_size, default_time_slice,
}
use kernel_riscv.Scheduler.{
  scheduler_push, scheduler_next, scheduler_current, user_thread_increment, user_thread_decrement,
}

pub data ExecMode : Type 0 where
  exec_mode_user exec_mode_kernel : ExecMode

-- bit `b` of a register, and the register with that bit cleared or set
abbrev pub bit : ℕ → ℕ → Bool
bit x b = x / 2 ^ b % 2 == 1

abbrev pub clear_bit : ℕ → ℕ → ℕ
clear_bit x b = if bit x b then x - 2 ^ b else x

abbrev pub set_bit : ℕ → ℕ → ℕ
set_bit x b = if bit x b then x else x + 2 ^ b

-- SPP is bit 8 of sstatus, the mode that `sret` returns to; SIE is bit 1.
unfoldable pub new_sstatus : ExecMode → ℕ → ℕ
new_sstatus exec_mode_user s = clear_bit s 8
new_sstatus exec_mode_kernel s = clear_bit (set_bit s 8) 1

abbrev count_user : ExecMode → Kernel → Kernel
count_user exec_mode_user k = user_thread_increment k
count_user exec_mode_kernel k = k

abbrev first_context : (sp start_f arg : ℕ) → Kernel → Context
first_context sp start_f arg k = record (k.context_at sp) {
  sp = sp;
  gp = k.cpu.gp;
  tp = k.cpu.tp;
  a0 = start_f;
  a1 = arg;
}

-- The structure and the first context of a new thread; `wrapper` is the address of
-- `__thread_wrapper`.
unfoldable pub setup_thread :
    (wrapper thread start_f arg stack_space : ℕ) → ExecMode → Kernel → Kernel
setup_thread wrapper thread start_f arg stack_space mode k =
    let sp = sub64 stack_space 0x100 in
    let k1 = set_context sp (first_context sp start_f arg k) k in
    let k2 = count_user mode k1 in
    set_thread thread
      (record {
        sp = sp;
        bp = add64 (sub64 stack_space default_stack_size) 8;
        sstatus = new_sstatus mode k.cpu.sstatus;
        sepc = wrapper;
        time_left = default_time_slice;
      })
      k2

-- The result is the returned code and what is stored at `handle`, which is written only on success.
unfoldable pub thread_create : Layout → (wrapper start_f arg stack_space : ℕ) → ExecMode → M (ℤ × ℕ)
thread_create l wrapper start_f arg stack_space mode = do
  t ← alloc l (blocks_of sizeof_thread)
  if t == 0 then pure (negsuc 0, 0) else do
    modify (setup_thread wrapper t start_f arg stack_space mode)
    modify (scheduler_push t)
    pure (pos 0, t)

abbrev swap_in : Thread → Kernel → Kernel
swap_in t k = record k { cpu = record (k.cpu) { sstatus = t.sstatus; sepc = t.sepc } }

abbrev set_sscratch : ℕ → Kernel → Kernel
set_sscratch p k = record k { cpu = record (k.cpu) { sscratch = p } }

unfoldable pub yield : (thread_old thread_new : ℕ) → Kernel → Kernel
yield thread_old thread_new k =
    let here = record (k.thread_at thread_old) { sp = k.cpu.sscratch } in
    let away = record (k.thread_at thread_old) {
      sp = k.cpu.sscratch;
      sstatus = k.cpu.sstatus;
      sepc = k.cpu.sepc;
    } in
    let k1 = set_thread thread_old away (swap_in (k.thread_at thread_new) k) in
    if thread_old == thread_new
    then set_thread thread_old here k
    else set_sscratch (k1.thread_at thread_new).sp k1

unfoldable pub thread_delete : Layout → ℕ → M (Unit {0})
thread_delete l thread = do
  k ← get
  if ltb (k.thread_at thread).sp (k.thread_at thread).bp
      then stop
      else do free_or_panic l (k.thread_at thread).bp; free_or_panic l thread

unfoldable pub thread_exit : Layout → M (Unit {0})
thread_exit l = do
  modify (λ k. if bit k.cpu.sstatus 8 then k else user_thread_decrement k)
  k ← get
  let current = scheduler_current k
  next ← state scheduler_next
  modify (yield current next)
  thread_delete l current

-- The running thread gives way to the next one; main.c and semaphore.c do this in several places.
unfoldable pub switch_away : Kernel → ℕ × Kernel
switch_away k =
    let current = scheduler_current k in
    let (next, k1) = scheduler_next k in (current, yield current next k1)
