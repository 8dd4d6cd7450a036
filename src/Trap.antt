-- ===== src/Trap.antt =====
-- `irq_handler` of src/main.c: interrupts, and the system calls. `DEBUG` is off, as in the source.
pub mod RoundRobin
pub mod Entry
pub mod Sharing
pub mod Slices
use kernel_riscv.Base.{ℕ, ◌+◌, ◌^◌, ◌%◌, ℤ, to_u64, is_zero, ◌==◌, if◌then◌else◌, add64, sub64}
use kernel_riscv.Memory.{Layout, Run, done, panic, undefined, out_of_fuel}
use kernel_riscv.Kernel.{
  Context, Kernel, set_thread, set_context, M, ◌>>=◌, ◌>>◌, pure, get, modify, state, alloc,
}
use kernel_riscv.Scheduler.{scheduler_push, scheduler_current, scheduler_next, scheduler_timeout}
use kernel_riscv.Threads.{exec_mode_user, thread_create, thread_exit, yield}
use kernel_riscv.Semaphores.{sem_open, sem_close, sem_wait, sem_signal, sem_timed_wait}
use kernel_riscv.Timer.{scheduler_tick}
use kernel_riscv.ConsoleIo.{Device, getc, putc, console_receive, console_send}

-- `scause`
abbrev pub irq_timer : ℕ
irq_timer = 2 ^ 63 + 1

abbrev pub irq_hw : ℕ
irq_hw = 2 ^ 63 + 9

-- The switch on `scause`; the last is what no case names.
pub data Cause : Type 0 where
  timer hw illegal_op illegal_read illegal_write ecall_user ecall_kernel other_cause : Cause

unfoldable pub cause_of : ℕ → Cause
cause_of scause =
    if scause == irq_timer
    then timer
    else if scause == irq_hw
    then hw
    else if scause == 2
    then illegal_op
    else if scause == 5
    then illegal_read
    else if scause == 7
    then illegal_write
    else if scause == 8
    then ecall_user
    else if scause == 9
    then ecall_kernel
    else other_cause

-- `enum SYSCALL_CODE`, as far as the switch has a case for it
pub data Syscall : Type 0 where
  sys_mem_alloc sys_getc sys_putc sys_thread_create sys_thread_exit sys_thread_dispatch : Syscall
  sys_sem_open sys_sem_close sys_sem_wait sys_sem_signal sys_sem_timed_wait sys_timed_sleep :
      Syscall
  sys_unknown : Syscall

unfoldable pub syscall_of : ℕ → Syscall
syscall_of code =
    if code == 0x1
    then sys_mem_alloc
    else if code == 0x41
    then sys_getc
    else if code == 0x42
    then sys_putc
    else if code == 0x11
    then sys_thread_create
    else if code == 0x12
    then sys_thread_exit
    else if code == 0x13
    then sys_thread_dispatch
    else if code == 0x21
    then sys_sem_open
    else if code == 0x22
    then sys_sem_close
    else if code == 0x23
    then sys_sem_wait
    else if code == 0x24
    then sys_sem_signal
    else if code == 0x25
    then sys_sem_timed_wait
    else if code == 0x31
    then sys_timed_sleep
    else sys_unknown

-- The running thread goes to the end of the ready queue, and the next one runs.
unfoldable pub dispatch : Kernel → Kernel
dispatch k =
    let current = scheduler_current k in
    let (next, k1) = scheduler_next (scheduler_push current k) in yield current next k1

unfoldable pub timer_interrupt : Layout → M (Unit {0})
timer_interrupt l = do
  scheduler_tick l
  k ← get
  let current = scheduler_current k
  let t = k.thread_at current
  modify (set_thread current (record t { time_left = sub64 t.time_left 1 }))
  modify (λ k1. if (k1.thread_at current).time_left == 0 then dispatch k1 else k1)

-- `context->a0 = v` for the context that `sscratch` points to
abbrev pub return_to : ℕ → ℕ → Kernel → Kernel
return_to p v k = set_context p (record (k.context_at p) { a0 = v }) k

abbrev pub code : ℤ → ℕ
code r = to_u64 r

-- A full send buffer: the call is repeated when the thread runs again. The value stored in the
-- thread is overwritten by `yield` unless it yields to itself.
unfoldable pub retry_putc : Kernel → Kernel
retry_putc k =
    let back = sub64 k.cpu.sepc 4 in
    let k1 = record k { cpu = record (k.cpu) { sepc = back } } in
    let current = scheduler_current k1 in
    dispatch (set_thread current (record (k1.thread_at current) { sepc = sub64 back 4 }) k1)

unfoldable pub timed_sleep : Layout → (context time : ℕ) → M (Unit {0})
timed_sleep l p time = do
  modify (return_to p 0)
  if time == 0 then pure tt else do
    k ← get
    let current = scheduler_current k
    scheduler_timeout l current time 0
    next ← state scheduler_next
    modify (yield current next)

-- What a call does to the kernel; `__putc` also works on the console controller, and stands apart.
-- The handles that `thread_create` and `sem_open` write are in the caller's memory.
unfoldable pub syscall : Layout → (wrapper : ℕ) → (context : ℕ) → Context → Syscall → M (Unit {0})
syscall l wrapper p c sys_mem_alloc = do r ← alloc l c.a1; modify (return_to p r)
syscall l wrapper p c sys_getc = do r ← state getc; pure tt
syscall l wrapper p c sys_putc = pure tt
syscall l wrapper p c sys_thread_create = do
  (r, handle) ← thread_create l wrapper c.a2 c.a3 c.a4 exec_mode_user
  modify (return_to p (code r))
syscall l wrapper p c sys_thread_exit = thread_exit l
syscall l wrapper p c sys_thread_dispatch = modify dispatch
syscall l wrapper p c sys_sem_open = do (r, handle) ← sem_open l c.a2; modify (return_to p (code r))
syscall l wrapper p c sys_sem_close = do r ← sem_close l c.a1; modify (return_to p (code r))
syscall l wrapper p c sys_sem_wait = do
  r ← state (sem_wait c.a1)
  modify (if is_zero r then return_to p 0 else (λ k. k))
syscall l wrapper p c sys_sem_signal = do r ← sem_signal l c.a1; modify (return_to p (code r))
syscall l wrapper p c sys_sem_timed_wait = do
  r ← sem_timed_wait l c.a1 c.a2
  modify (if is_zero r then return_to p 0 else (λ k. k))
syscall l wrapper p c sys_timed_sleep = timed_sleep l p c.a1
syscall l wrapper p c sys_unknown = pure tt

abbrev pub skip_ecall : Kernel → Kernel
skip_ecall k = record k { cpu = record (k.cpu) { sepc = add64 k.cpu.sepc 4 } }

-- `SYSCALL_KERNEL_DISPATCH`, the only call of the kernel's own thread
unfoldable pub kernel_dispatch : Kernel → Kernel
kernel_dispatch k =
    let current = scheduler_current k in
    let (next, k1) = scheduler_next k in
    let k2 = yield current next k1 in
    record k2 { cpu = record (k2.cpu) { sscratch = (k2.thread_at next).sp } }

module _ (dev : Device) (plic_claim : dev.Dev → ℕ × dev.Dev)
    (plic_complete : ℕ → dev.Dev → dev.Dev) where
  open dev use {Dev}

  abbrev pub with_dev : Dev → Run (Unit {0} × Kernel) → Run (Kernel × Dev)
  with_dev d (done (u, k)) = done (k, d)
  with_dev d panic = panic
  with_dev d undefined = undefined
  with_dev d out_of_fuel = out_of_fuel

  unfoldable pub putc_call : Context → Kernel → Dev → Kernel × Dev
  putc_call c k d =
      let (r, con, d1) = putc dev (c.a1 % 256) k.console d in
      let k1 = record k { console = con } in if is_zero r then (k1, d1) else (retry_putc k1, d1)

  unfoldable pub user_call : Layout → ℕ → Kernel → Dev → Run (Kernel × Dev)
  user_call l wrapper k d =
      let p = k.cpu.sscratch in
      let c = k.context_at p in
      let k1 = skip_ecall k in
      elim (syscall_of c.a0) [
        | sys_putc ↦ done (putc_call c k1 d)
        | s ↦ with_dev d (syscall l wrapper p c s k1)
      ]

  unfoldable pub kernel_call : Kernel → Kernel
  kernel_call k =
      let k1 = skip_ecall k in
      if (k.context_at k.cpu.sscratch).a0 == 0x91 then kernel_dispatch k1 else k1

  unfoldable pub hw_interrupt : Kernel → Dev → Kernel × Dev
  hw_interrupt k d =
      let (plic, d1) = plic_claim d in
      let (k1, d2) = console_receive dev k d1 in
      let (con, d3) = console_send dev k1.console d2 in
      if plic == 10
      then (record k1 { console = con }, plic_complete 10 d3)
      else (k, plic_complete 10 d1)

  unfoldable pub irq_handler : Layout → (wrapper scause : ℕ) → Kernel → Dev → Run (Kernel × Dev)
  irq_handler l wrapper scause k d = elim (cause_of scause) [
    | timer ↦ with_dev d (timer_interrupt l k)
    | hw ↦ done (hw_interrupt k d)
    | ecall_user ↦ user_call l wrapper k d
    | ecall_kernel ↦ done (kernel_call k, d)
    | other_cause ↦ done (k, d)
    | _ ↦ panic
  ]
