-- ===== src/Kernel.antt =====
-- The state that the kernel's parts share, src/scheduler.c, semaphore.c, thread.c, console.c and main.c:
-- the structures in the heap by their address, the global variables, and the registers of the hart.
use kernel_riscv.Base.{◌≡◌, refl, eq→==, ℕ, ◌==◌, ◌+◌, ◌-◌, ◌/◌, if◌then◌else◌, ℤ}
use kernel_riscv.Memory.{
  Layout, Mem, Run, done, panic, undefined, out_of_fuel, FreeResult, free_ok, mem_alloc, mem_free,
}
use kernel_riscv.Links.{Links}

-- h/thread.h; the member `list_node` is in `Links`.
pub record Thread : Type 0 where
  pub sp : ℕ
  pub bp : ℕ
  pub sstatus : ℕ
  pub sepc : ℕ
  pub time_left : ℕ

-- h/scheduler.h; 0 is the null semaphore of a plain sleep.
pub record Sleeping : Type 0 where
  pub thread : ℕ
  pub semaphore : ℕ
  pub delta : ℕ

-- h/semaphore.h
pub record Sem : Type 0 where
  pub val : ℤ
  pub init : ℤ
  pub waiting_threads : ℕ

-- h/kernel.h: the saved registers that the kernel reads or writes
pub record Context : Type 0 where
  pub sp : ℕ
  pub gp : ℕ
  pub tp : ℕ
  pub a0 : ℕ
  pub a1 : ℕ
  pub a2 : ℕ
  pub a3 : ℕ
  pub a4 : ℕ

pub record Scheduler : Type 0 where
  pub user_thread_count : ℕ
  pub ready_threads : ℕ
  pub sleeping_threads : ℕ
  pub thread_current : ℕ
  pub kernel_main : ℕ

-- the globals of semaphore.c
pub record SemTable : Type 0 where
  pub first_semaphore : ℕ
  pub semaphores : ℕ → ℕ
  pub sem_cnt : ℕ

-- the globals of console.c; a buffer is an array of 1024 characters
pub record Console : Type 0 where
  pub receive_buffer : ℕ → ℕ
  pub send_buffer : ℕ → ℕ
  pub receive_cnt : ℕ
  pub send_cnt : ℕ
  pub waiting_for_input : ℕ

-- the registers that `csrr`, `csrw` and `move` reach
pub record Cpu : Type 0 where
  pub sstatus : ℕ
  pub sepc : ℕ
  pub sscratch : ℕ
  pub gp : ℕ
  pub tp : ℕ

pub record Kernel : Type 0 where
  pub mem : Mem
  pub links : Links
  pub thread_at : ℕ → Thread
  pub sleeping_at : ℕ → Sleeping
  pub sem_at : ℕ → Sem
  pub context_at : ℕ → Context
  pub scheduler : Scheduler
  pub sem_table : SemTable
  pub console : Console
  pub cpu : Cpu

-- A store to one address of a kind of structure.
abbrev pub put {ℓ} : {A : Type ℓ} → (ℕ → A) → ℕ → A → ℕ → A
put f p a q = if q == p then a else f q

pub put_self {ℓ} : {A : Type ℓ} (f : ℕ → A) (p : ℕ) (a : A) → put f p a p ≡ a
put_self f p a = rw (eq→== p p refl)

-- `thread->f = …` and the like
abbrev pub set_thread : ℕ → Thread → Kernel → Kernel
set_thread t v k = record k { thread_at = put k.thread_at t v }

abbrev pub set_sleeping : ℕ → Sleeping → Kernel → Kernel
set_sleeping t v k = record k { sleeping_at = put k.sleeping_at t v }

abbrev pub set_sem : ℕ → Sem → Kernel → Kernel
set_sem t v k = record k { sem_at = put k.sem_at t v }

abbrev pub set_context : ℕ → Context → Kernel → Kernel
set_context p v k = record k { context_at = put k.context_at p v }

-- `((context_t)thread->sp)->a0 = v`
abbrev pub set_a0 : ℕ → ℕ → Kernel → Kernel
set_a0 t v k = let p = (k.thread_at t).sp in set_context p (record (k.context_at p) { a0 = v }) k

-- The contexts of the threads are where `sp` says.
abbrev pub ContextsAt : (ℕ → ℕ) → Kernel → Type 0
ContextsAt sp k = (t : ℕ) → (k.thread_at t).sp ≡ sp t

-- Code that can panic.
abbrev pub M : Type 0 → Type 0
M A = Kernel → Run (A × Kernel)

module _ {A B : Type 0} where
  abbrev pub and_then : Run (A × Kernel) → (A → M B) → Run (B × Kernel)
  and_then (done (a, k)) f = f a k
  and_then panic f = panic
  and_then undefined f = undefined
  and_then out_of_fuel f = out_of_fuel

  infixl 5 ◌>>=◌ ◌>>◌
  abbrev pub ◌>>=◌ : M A → (A → M B) → M B
  m >>= f = λ k. and_then (m k) f

  abbrev pub ◌>>◌ : M A → M B → M B
  m >> n = m >>= λ _. n

abbrev pub pure : {A : Type 0} → A → M A
pure a k = done (a, k)

abbrev pub get : M Kernel
get k = done (k, k)

abbrev pub modify : (Kernel → Kernel) → M (Unit {0})
modify f k = done (tt, f k)

-- an operation that returns a value and cannot panic
abbrev pub state : {A : Type 0} → (Kernel → A × Kernel) → M A
state f k = done (f k)

abbrev pub stop : {A : Type 0} → M A
stop k = panic

-- The two calls of the allocator; `if(__mem_free(p)) __panic(…)` is `free_or_panic`.
abbrev stored : Kernel → Run (ℕ × Mem) → Run (ℕ × Kernel)
stored k (done (p, m)) = done (p, record k { mem = m })
stored k panic = panic
stored k undefined = undefined
stored k out_of_fuel = out_of_fuel

unfoldable pub alloc : Layout → ℕ → M ℕ
alloc l nblocks k = stored k (mem_alloc l k.mem nblocks)

abbrev freed : Kernel → FreeResult × Mem → Run (Unit {0} × Kernel)
freed k (free_ok, m) = done (tt, record k { mem = m })
freed k (_, m) = panic

unfoldable pub free_or_panic : Layout → ℕ → M (Unit {0})
free_or_panic l p k = freed k (mem_free l k.mem p)

-- what a store to `p` needs
abbrev pub require_nonnull : ℕ → M (Unit {0})
require_nonnull p k = if p == 0 then undefined else done (tt, k)

-- `(sizeof(...) + MEM_BLOCK_SIZE - 1) / MEM_BLOCK_SIZE`; the structures' sizes under the lp64 ABI
abbrev pub blocks_of : ℕ → ℕ
blocks_of bytes = (bytes + 64 - 1) / 64

abbrev pub sizeof_thread : ℕ
sizeof_thread = 56

abbrev pub sizeof_sleeping_thread : ℕ
sizeof_sleeping_thread = 40

abbrev pub sizeof_sem : ℕ
sizeof_sem = 16

abbrev pub sizeof_scheduler : ℕ
sizeof_scheduler = 40

abbrev pub default_stack_size : ℕ
default_stack_size = 4096

abbrev pub default_time_slice : ℕ
default_time_slice = 2
