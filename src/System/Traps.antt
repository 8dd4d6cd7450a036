-- ===== src/System/Traps.antt =====
-- `irq_handler` of src/main.c and the abstract machine: the traps, when each can be, and what it does
-- to the machine.
pub mod Answers
pub mod Output
pub mod Calls
pub mod Handler
use kernel_riscv.Base.{
  ◌%◌, ℕ, zero, suc, ◌≤◌, ◌≡◌, ◌≢◌, refl, ◌∙◌, ap, sym, subst, Bool, true, false, List, [], ◌∷◌,
  ◌++◌, ◌⊎◌, inl, inr, ℤ, ◌+ℤ◌, arith, length, pos, negsuc, eq_cases, eq→==, ne→==, sub64, is_zero,
  least_i32, greatest_i32, if◌then◌else◌,
}
use kernel_riscv.Memory.{Layout, Run, done}
use kernel_riscv.Kernel.{Console, Context, Kernel, set_context, set_thread, put_self}
use kernel_riscv.ConsoleIo.{Device, getc, putc, console_send, append_char}
use kernel_riscv.ConsoleIo.Buffers.{chars, length-chars, received, unsent}
use kernel_riscv.ConsoleIo.Sending.{console_send-Sent}
use kernel_riscv.Links.Queue.{IsQueue}
use kernel_riscv.Semaphores.{sem_wait}
use kernel_riscv.ConsoleIo.Putting.{putc-PutIn}
use kernel_riscv.System.Lines.{Lines-cong}
use kernel_riscv.Trap.{
  Syscall, sys_thread_dispatch, sys_sem_wait, sys_sem_signal, sys_getc, syscall, skip_ecall,
  putc_call, timer_interrupt, dispatch, irq_handler, irq_timer, irq_hw, return_to, syscall_of,
  sys_unknown, cause_of, other_cause,
}
use kernel_riscv.Trap.Slices.{ticked, left_of, timer_interrupt-keeps, timer_interrupt-ends}
use kernel_riscv.System.{Place, ready, input, asleep, waits, put_at, head_of, Live}
use kernel_riscv.Threads.{bit}
use kernel_riscv.ConsoleIo.Receiving.{Reads}
use kernel_riscv.ConsoleIo.Sending.{Transmits}
use kernel_riscv.ConsoleIo.Putting.{Wire}
use kernel_riscv.Trap.Entry.{save_context}
use kernel_riscv.System.Machine.{
  Machine, enqueue, dequeue, switch, turn, wait_at, signal_at, get_char, arrive, IsMachine, Queues,
  Runner,
}
use kernel_riscv.System.Shows.{Shows, Shows-frame}
use kernel_riscv.System.Calls.{Follows, dispatch-Follows, dispatch_spent-Follows}
use kernel_riscv.System.Calls.Waits.{sem_wait-Follows, sem_signal-Follows}
use kernel_riscv.System.Input.{getc-Follows}
use kernel_riscv.System.Input.Arrivals.{console_receive-Arrived, Follows-console}

-- The traps: a tick of the timer, an interrupt of the console, the calls of a user thread, `asks n`
-- one whose number `n` the kernel does not know, that of the kernel's own thread, and one for a cause
-- that the handler does not name.
pub data Event : Type 0 where
  ticks receives yields reads kernel_yields : Event
  waits_on signals writes asks strays : ℕ → Event

abbrev pub scause_of : Event → ℕ
scause_of ticks = irq_timer
scause_of receives = irq_hw
scause_of kernel_yields = 9
scause_of (strays n) = n
scause_of _ = 8

-- the registers of the thread that makes the call; `r` holds those that the call does not use
abbrev pub registers : Event → Context → Context
registers yields r = record r { a0 = 0x13 }
registers (waits_on s) r = record r { a0 = 0x23; a1 = s }
registers (signals s) r = record r { a0 = 0x24; a1 = s }
registers reads r = record r { a0 = 0x41 }
registers (writes x) r = record r { a0 = 0x42; a1 = x }
registers (asks n) r = record r { a0 = n }
registers kernel_yields r = record r { a0 = 0x91 }
registers _ r = r

-- When an event can be: only open semaphores are used, and no value leaves an i32; only the kernel's
-- own thread makes its call, and it makes no other; for a tick, nobody sleeps.
abbrev pub Allowed : Machine → Event → Type 0
Allowed a ticks = a.lines asleep ≡ []
Allowed a receives = Unit
Allowed a kernel_yields = a.runs ≡ a.main
Allowed a yields = a.runs ≢ a.main
Allowed a reads = a.runs ≢ a.main
Allowed a (waits_on s) = (a.opened s ≡ true) × (a.value s ≢ least_i32) × (a.runs ≢ a.main)
Allowed a (signals s) = (a.opened s ≡ true) × (a.value s ≢ greatest_i32) × (a.runs ≢ a.main)
Allowed a (writes x) = a.runs ≢ a.main
Allowed a (asks n) = (syscall_of n ≡ sys_unknown) × (a.runs ≢ a.main)
Allowed a (strays n) = cause_of n ≡ other_cause

-- The trap has saved the caller's registers in a context below its stack pointer, to which `sscratch`
-- points.
abbrev pub entered : Context → Kernel → Kernel
entered = save_context

module _ (dev : Device) (plic_claim : dev.Dev → ℕ × dev.Dev)
    (plic_complete : ℕ → dev.Dev → dev.Dev) where
  open dev use {Dev, status}

  -- An interrupt of the console: `new` comes in, until the controller has no more or the buffer is
  -- full, and of the characters to be sent the controller takes the first ones, until it is not
  -- ready.
  pub record Served (a b : Machine) (d d' : Dev) : Type 0 where
    pub new : List ℕ
    pub read : Dev
    pub reads : Reads dev new (plic_claim d).1 read
    pub full : (length (a.buffer ++ new) ≡ 1024) ⊎ (bit (status read).0 0 ≡ false)
    pub sent : List ℕ
    pub left : List ℕ
    pub split : a.output ≡ sent ++ left
    pub written : Dev
    pub transmits : Transmits dev sent (status read).1 written
    pub stops : (left ≡ []) ⊎ (bit (status written).0 5 ≡ false)
    pub device : d' ≡ plic_complete 10 (status written).1
    pub machine : b ≡ record (arrive new a) { output = left }

  -- A character is accepted: it is sent or waits, behind those that waited before it.
  pub record Accepted (x : ℕ) (a b : Machine) (d d' : Dev) : Type 0 where
    pub sent : List ℕ
    pub left : List ℕ
    pub split : a.output ++ (x ∷ []) ≡ sent ++ left
    pub wire : Wire dev sent d d'
    pub machine : b ≡ record a { output = left }

  -- A character is refused, and its thread has to write it again in a later turn.
  pub record Deferred (a b : Machine) (d d' : Dev) : Type 0 where
    pub full : length a.output ≡ 1024
    pub not_ready : bit (status d).0 5 ≡ false
    pub device : d' ≡ (status d).1
    pub machine : b ≡ turn a

  -- What an event does to the machine and to the controller. A tick ends the turn of the thread
  -- whose time slice it ends.
  abbrev pub After : Event → Kernel → (a b : Machine) → (d d' : Dev) → Type 0
  After ticks k a b d d' =
      (((sub64 (left_of k) 1 ≢ 0) × (b ≡ a)) ⊎ ((sub64 (left_of k) 1 ≡ 0) × (b ≡ turn a)))
      × (d' ≡ d)
  After receives k a b d d' =
      (((plic_claim d).0 ≡ 10) × Served a b d d')
      ⊎ (((plic_claim d).0 ≢ 10) × (b ≡ a) × (d' ≡ plic_complete 10 (plic_claim d).1))
  After kernel_yields k a b d d' = (b ≡ switch a) × (d' ≡ d)
  After yields k a b d d' = (b ≡ turn a) × (d' ≡ d)
  After reads k a b d d' = (b ≡ get_char a) × (d' ≡ d)
  After (waits_on s) k a b d d' = (b ≡ wait_at s a) × (d' ≡ d)
  After (signals s) k a b d d' = (b ≡ signal_at s a) × (d' ≡ d)
  After (writes x) k a b d d' = Accepted (x % 256) a b d d' ⊎ Deferred a b d d'
  After (asks n) k a b d d' = (b ≡ a) × (d' ≡ d)
  After (strays n) k a b d d' = (b ≡ a) × (d' ≡ d)

  -- The trap returns, and what it leaves shows a machine as the event makes it.
  pub record Handled (k : Kernel) (a : Machine) (e : Event) (d : Dev) (r : Run (Kernel × Dev))
      : Type 0 where
    pub kernel : Kernel
    pub device : Dev
    pub machine : Machine
    pub returns : r ≡ done (kernel, device)
    pub after : After e k a machine d device
    pub follows : Follows kernel machine

  module _ (l : Layout) (wrapper : ℕ) where
    -- A trap, with the registers `r` but for those that the call uses.
    abbrev pub trap : Event → Context → Kernel → Dev → Run (Kernel × Dev)
    trap e r k d =
        irq_handler dev plic_claim plic_complete l wrapper (scause_of e) (entered (registers e r) k)
          d
