-- ===== src/Syscalls.antt =====
-- src/syscall_c.c: the functions that a user program calls. An `asm` statement acts on the
-- registers; a function's arguments are in a0, a1 and a2 when it is entered.
pub mod Cpp
pub mod Reading
pub mod Returning
pub mod Creating
use kernel_riscv.Base.{
  ℕ, ◌/◌, ◌%◌, ◌^◌, ℤ, negsuc, to_i32, is_zero, pos, ◌-◌, ◌==◌, if◌then◌else◌, add64, sub64,
}
use kernel_riscv.Memory.{Run, done, panic, undefined, out_of_fuel, mem_block_size}
use kernel_riscv.Kernel.{Context, default_stack_size}

module _ {W A B : Type 0} where
  abbrev pub and_then : Run (A × W) → (A → W → Run (B × W)) → Run (B × W)
  and_then (done (a, w)) f = f a w
  and_then panic f = panic
  and_then undefined f = undefined
  and_then out_of_fuel f = out_of_fuel

  infixl 5 ◌>>=◌ ◌>>◌
  abbrev pub ◌>>=◌ : (W → Run (A × W)) → (A → W → Run (B × W)) → W → Run (B × W)
  m >>= f = λ w. and_then (m w) f

  abbrev pub ◌>>◌ : (W → Run (A × W)) → (W → Run (B × W)) → W → Run (B × W)
  m >> n = m >>= λ _. n

-- What user code does to its registers and to the rest of the machine, `S`. A call of `ecall` is a
-- trap and all that runs until the thread goes on.
module _ {S : Type 0} (ecall : Context → S → Run (Context × S)) where
  abbrev pub User : Type 0 → Type 0
  User A = Context × S → Run (A × (Context × S))

  abbrev pub pure : {A : Type 0} → A → User A
  pure a w = done (a, w)

  abbrev reg : (Context → ℕ) → User ℕ
  reg f (r, s) = done (f r, (r, s))

  abbrev move : (Context → Context) → User (Unit {0})
  move f (r, s) = done (tt, (f r, s))

  abbrev trapped : Run (Context × S) → Run (Unit {0} × (Context × S))
  trapped (done w) = done (tt, w)
  trapped panic = panic
  trapped undefined = undefined
  trapped out_of_fuel = out_of_fuel

  -- `li a0, code` and `ecall`
  abbrev trap : (code : ℕ) → User (Unit {0})
  trap code (r, s) = trapped (ecall (record r { a0 = code }) s)

  -- the result of a function that returns a signed 32-bit number
  abbrev result : User ℤ
  result = do x ← reg (λ r. r.a0); pure (to_i32 x)

  unfoldable pub putc : ℕ → User (Unit {0})
  putc c = do
    move (λ r. record r { a0 = c })
    a1 ← reg (λ r. r.a1)
    move (λ r. record r { a1 = r.a0 })
    trap 0x42
    move (λ r. record r { a1 = a1 })

  unfoldable pub getc : User ℕ
  getc = do trap 0x41; x ← reg (λ r. r.a0); pure (x % 2 ^ 8)

  unfoldable pub mem_alloc : ℕ → User ℕ
  mem_alloc nbytes = do
    move (λ r. record r { a0 = nbytes })
    a1 ← reg (λ r. r.a1)
    move (λ r. record r { a1 = sub64 (add64 nbytes mem_block_size) 1 / mem_block_size })
    trap 0x1
    move (λ r. record r { a1 = a1 })
    reg (λ r. r.a0)

  unfoldable pub mem_free : ℕ → User ℤ
  mem_free ptr = do
    move (λ r. record r { a0 = ptr })
    a1 ← reg (λ r. r.a1)
    move (λ r. record r { a1 = ptr })
    trap 0x2
    move (λ r. record r { a1 = a1 })
    result

  -- the end of `thread_create`: from the allocated stack on, with what was saved on entry
  unfoldable pub create_with : (a1 a2 a3 a4 stack : ℕ) → User ℤ
  create_with a1 a2 a3 a4 stack = do
    let new_stack = add64 stack (default_stack_size - 8)
    move (λ r. record r { a1 = r.a2 })
    move (λ r. record r { a2 = r.a3 })
    move (λ r. record r { a3 = r.a4 })
    move (λ r. record r { a4 = new_stack })
    trap 0x11
    move (λ r. record r { a1 = a1; a2 = a2; a3 = a3; a4 = a4 })
    res ← result
    if is_zero res
        then pure res
        else do freed ← mem_free (add64 (sub64 new_stack default_stack_size) 8); pure res

  unfoldable pub thread_create : (handle start_f arg : ℕ) → User ℤ
  thread_create handle start_f arg = do
    move (λ r. record r { a0 = handle; a1 = start_f; a2 = arg })
    a1 ← reg (λ r. r.a1)
    a2 ← reg (λ r. r.a2)
    a3 ← reg (λ r. r.a3)
    a4 ← reg (λ r. r.a4)
    move (λ r. record r { a4 = r.a2 })
    move (λ r. record r { a3 = r.a1 })
    move (λ r. record r { a2 = r.a0 })
    stack ← mem_alloc default_stack_size
    if stack == 0 then pure (negsuc 0) else create_with a1 a2 a3 a4 stack

  unfoldable pub thread_exit : User ℤ
  thread_exit = do trap 0x12; pure (pos 0)

  unfoldable pub thread_dispatch : User (Unit {0})
  thread_dispatch = trap 0x13

  -- a call with one argument, and one with two; the source repeats these statements
  unfoldable pub call_with_1 : (code x : ℕ) → User ℤ
  call_with_1 code x = do
    move (λ r. record r { a0 = x })
    a1 ← reg (λ r. r.a1)
    move (λ r. record r { a1 = r.a0 })
    trap code
    move (λ r. record r { a1 = a1 })
    result

  unfoldable pub call_with_2 : (code x y : ℕ) → User ℤ
  call_with_2 code x y = do
    move (λ r. record r { a0 = x; a1 = y })
    a1 ← reg (λ r. r.a1)
    a2 ← reg (λ r. r.a2)
    move (λ r. record r { a2 = r.a1 })
    move (λ r. record r { a1 = r.a0 })
    trap code
    move (λ r. record r { a1 = a1; a2 = a2 })
    result

  unfoldable pub sem_open : (handle cnt : ℕ) → User ℤ
  sem_open handle cnt = call_with_2 0x21 handle cnt

  unfoldable pub sem_close : ℕ → User ℤ
  sem_close handle = call_with_1 0x22 handle

  unfoldable pub sem_wait : ℕ → User ℤ
  sem_wait handle = call_with_1 0x23 handle

  unfoldable pub sem_signal : ℕ → User ℤ
  sem_signal handle = call_with_1 0x24 handle

  unfoldable pub sem_timed_wait : (handle timeout : ℕ) → User ℤ
  sem_timed_wait handle timeout = call_with_2 0x25 handle timeout

  unfoldable pub sem_trywait : ℕ → User ℤ
  sem_trywait handle = call_with_1 0x26 handle

  unfoldable pub time_sleep : ℕ → User ℤ
  time_sleep time = call_with_1 0x31 time
