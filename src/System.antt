-- ===== src/System.antt =====
-- The kernel as a whole: every circular list that a thread can stand in at once. The operations are
-- those of src/scheduler.c, src/semaphore.c, src/console.c and src/main.c.
pub mod Lines
pub mod Machine
pub mod Shows
pub mod Keeps
pub mod Calls
pub mod Input
pub mod Traps
pub mod Presence
pub mod Executions
pub mod Started
use kernel_riscv.Base.{ℕ, ◌≡◌, Bool, true, false, List, ◌==◌, if◌then◌else◌}
use kernel_riscv.Kernel.{Kernel}

-- The circular lists: the ready threads, those that wait for input, the entries of the sleepers, and
-- the threads that wait on each semaphore.
pub data Place : Type 0 where
  ready input asleep : Place
  waits : ℕ → Place

abbrev pub same : Place → Place → Bool
same ready ready = true
same input input = true
same asleep asleep = true
same (waits s) (waits t) = s == t
same _ _ = false

abbrev pub put_at {ℓ} : {A : Type ℓ} → Place → A → (Place → A) → Place → A
put_at p v f r = if same r p then v else f r

-- the head pointer of each list
abbrev pub head_of : Kernel → Place → ℕ
head_of k ready = k.scheduler.ready_threads
head_of k input = k.console.waiting_for_input
head_of k asleep = k.scheduler.sleeping_threads
head_of k (waits s) = (k.sem_at s).waiting_threads

-- The lists that there are: of the semaphores, those of the open ones.
abbrev pub Live : (ℕ → Bool) → Place → Type 0
Live opened (waits s) = opened s ≡ true
Live opened _ = Unit
