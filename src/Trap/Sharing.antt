-- ===== src/Trap/Sharing.antt =====
-- Threads that share a semaphore: any order of `__sem_wait`, `__sem_signal` and of turns.
pub mod Turn
pub mod Simulation
pub mod Bounds
use kernel_riscv.Base.{
  ℕ, zero, suc, ◌+◌, ◌≡◌, ◌≢◌, true, false, List, [], ◌∷◌, ◌++◌, ℤ, pos, negsuc, ◌+ℤ◌, is_neg,
  length, greatest_i32, ◌<◌, ◌^◌,
}
use kernel_riscv.Memory.{Layout}
use kernel_riscv.Kernel.{Kernel, M, ◌>>=◌, ◌>>◌, pure, modify, state}
use kernel_riscv.Semaphores.{sem_wait, sem_signal}
use kernel_riscv.Semaphores.Blocking.{Waiting}
use kernel_riscv.Trap.{dispatch}

-- what the running thread does, or, for a turn, what is done to it
pub data Event : Type 0 where
  waits signals turn : Event

-- the kernel's part of an event, for the semaphore `s`
unfoldable pub act : Layout → (s : ℕ) → Event → M (Unit {0})
act l s waits = do r ← state (sem_wait s); pure tt
act l s signals = do r ← sem_signal l s; pure tt
act l s turn = modify dispatch

unfoldable pub acts : Layout → (s : ℕ) → List Event → M (Unit {0})
acts l s [] = pure tt
acts l s (e ∷ es) = do act l s e; acts l s es

-- The abstract view: the semaphore's value, the running thread, and who is ready and who waits, in
-- order.
pub record View : Type 0 where
  pub value : ℤ
  pub runs : ℕ
  pub ready : List ℕ
  pub waiting : List ℕ

abbrev pub view : ℤ → ℕ → (xs ws : List ℕ) → View
view v c xs ws = record { value = v; runs = c; ready = xs; waiting = ws }

-- What an event does to the view. A thread that blocks needs another one that is
-- ready, and the value stays within an i32.
pub data Step : View → Event → View → Type 0 where
  pass :
      (v : ℤ) (c : ℕ) (xs : List ℕ)
      → is_neg (v +ℤ negsuc 0) ≡ false
      → Step (view v c xs []) waits (view (v +ℤ negsuc 0) c xs [])
  block :
      (v : ℤ) (c x : ℕ) (xs ws : List ℕ)
      → is_neg (v +ℤ negsuc 0) ≡ true
      → length ws < 2 ^ 31
      → Step (view v c (x ∷ xs) ws) waits (view (v +ℤ negsuc 0) x xs (ws ++ (c ∷ [])))
  raise :
      (v : ℤ) (c : ℕ) (xs : List ℕ)
      → v ≢ greatest_i32
      → Step (view v c xs []) signals (view (v +ℤ pos 1) c xs [])
  wake :
      (v : ℤ) (c w : ℕ) (xs ws : List ℕ)
      → Step (view v c xs (w ∷ ws)) signals (view (v +ℤ pos 1) c (xs ++ (w ∷ [])) ws)
  last : (v : ℤ) (c : ℕ) (ws : List ℕ) → Step (view v c [] ws) turn (view v c [] ws)
  rotate :
      (v : ℤ) (c x : ℕ) (xs ws : List ℕ)
      → Step (view v c (x ∷ xs) ws) turn (view v x (xs ++ (c ∷ [])) ws)

pub data Steps : View → List Event → View → Type 0 where
  here : {a : View} → Steps a [] a
  next :
      {a b c : View} {e : Event} {es : List Event} → Step a e b → Steps b es c → Steps a (e ∷ es) c

-- The kernel is in a state with that view, and no thread has the mark of a timed wait, a
-- `time_left` of 0.
pub record Shows (s : ℕ) (k : Kernel) (a : View) : Type 0 where
  pub waiting : Waiting k s a.runs a.ready a.waiting
  pub value : (k.sem_at s).val ≡ a.value
  pub untimed : (t : ℕ) → (k.thread_at t).time_left ≢ 0

-- all threads of a view
abbrev pub population : View → List ℕ
population a = a.runs ∷ a.ready ++ a.waiting

-- how many of the events are waits, and how many are signals
abbrev pub waits_of : List Event → ℕ
waits_of [] = 0
waits_of (waits ∷ es) = suc (waits_of es)
waits_of (_ ∷ es) = waits_of es

abbrev pub signals_of : List Event → ℕ
signals_of [] = 0
signals_of (signals ∷ es) = suc (signals_of es)
signals_of (_ ∷ es) = signals_of es
