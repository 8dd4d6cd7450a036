-- ===== src/Threads/Switch.antt =====
-- A context switch saves and restores what a thread needs to go on.
use kernel_riscv.Base.{ℕ, ◌≡◌, ◌≢◌, arith}
use kernel_riscv.Kernel.{Kernel, Cpu, Thread}
use kernel_riscv.Threads.{yield}

-- the three values of a thread that a switch exchanges with the registers
abbrev pub Saved : Kernel → ℕ → Cpu → Type 0
Saved k t c =
    ((k.thread_at t).sp ≡ c.sscratch)
    × ((k.thread_at t).sstatus ≡ c.sstatus)
    × ((k.thread_at t).sepc ≡ c.sepc)

abbrev pub SameState : Cpu → Cpu → Type 0
SameState c d = (c.sscratch ≡ d.sscratch) × (c.sstatus ≡ d.sstatus) × (c.sepc ≡ d.sepc)

abbrev pub with_cpu : Cpu → Kernel → Kernel
with_cpu c k = record k { cpu = c }

-- For two different threads, a switch saves the state of the old one, loads that of the new one,
-- and touches no other thread.
pub yield_lem :
    (a b : ℕ) (k : Kernel)
    → a ≢ b
    → Saved (yield a b k) a k.cpu
      × Saved k b (yield a b k).cpu
      × ((t : ℕ) → t ≢ a → (yield a b k).thread_at t ≡ k.thread_at t)
unfolding yield
yield_lem a b k ne = (
  (ground arith, ground arith, ground arith),
  (ground arith, ground arith, ground arith),
  λ t h. ground arith,
)

-- For two different threads: the one switched away from and later switched back to goes on where
-- it was, whatever the registers hold by then, and what they hold then is saved for the other.
pub yield-yield :
    (a b : ℕ) (k : Kernel) (later : Cpu)
    → a ≢ b
    → SameState (yield b a (with_cpu later (yield a b k))).cpu k.cpu
      × Saved (yield b a (with_cpu later (yield a b k))) b later
unfolding yield
yield-yield a b k later ne =
    ((ground arith, ground arith, ground arith), (ground arith, ground arith, ground arith))

-- A switch changes nothing but threads and registers.
pub yield-shape :
    (a b : ℕ) (k : Kernel)
    → (threads : ℕ → Thread) × (cpu : Cpu) × (yield a b k
        ≡ record k { thread_at = threads; cpu = cpu })
unfolding yield
yield-shape a b k = ((yield a b k).thread_at, (yield a b k).cpu, ground arith)
