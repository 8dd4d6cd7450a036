-- ===== src/System/Machine.antt =====
-- The kernel as an abstract machine: who runs, the queues, the values of the semaphores and the
-- characters that came in. Its operations are written for it, independently of the kernel's.
use kernel_riscv.Base.{
  ℕ, ◌≤◌, ◌≡◌, ◌≢◌, Bool, true, List, [], ◌∷◌, ◌++◌, ℤ, pos, negsuc, ◌+ℤ◌, is_neg, length,
  if◌then◌else◌,
}
use kernel_riscv.Kernel.{put}
use kernel_riscv.Links.Queue.{NotIn}
use kernel_riscv.Semaphores.Blocking.{debt}
use kernel_riscv.ConsoleIo.Sharing.{leftover}
use kernel_riscv.System.{Place, ready, input, asleep, waits, put_at, Live}
use kernel_riscv.System.Lines.{Outside}

-- `buffer` are the characters that came in, `output` those that wait to be sent; `threads` are the
-- threads that there are, `opened` the semaphores.
pub record Machine : Type 0 where
  pub runs : ℕ
  pub main : ℕ
  pub lines : Place → List ℕ
  pub value : ℕ → ℤ
  pub buffer : List ℕ
  pub output : List ℕ
  pub opened : ℕ → Bool
  pub threads : ℕ → Bool

abbrev pub enqueue : Place → ℕ → Machine → Machine
enqueue p t a = record a { lines = put_at p (a.lines p ++ (t ∷ [])) a.lines }

abbrev pub first_or : ℕ → List ℕ → ℕ
first_or d [] = d
first_or d (x ∷ xs) = x

abbrev pub rest : List ℕ → List ℕ
rest [] = []
rest (x ∷ xs) = xs

abbrev pub dequeue : Place → Machine → Machine
dequeue p a = record a { lines = put_at p (rest (a.lines p)) a.lines }

-- The first ready thread runs, or the kernel's own one if none is ready.
abbrev pub switch : Machine → Machine
switch a = record (dequeue ready a) { runs = first_or a.main (a.lines ready) }

abbrev pub turn : Machine → Machine
turn a = switch (enqueue ready a.runs a)

abbrev pub add_value : ℤ → ℕ → Machine → Machine
add_value d s a = record a { value = put a.value s (a.value s +ℤ d) }

abbrev pub wait_at : ℕ → Machine → Machine
wait_at s a =
    let b = add_value (negsuc 0) s a in
    if is_neg (a.value s +ℤ negsuc 0) then enqueue (waits s) a.runs (switch b) else b

abbrev pub wake_from : Place → List ℕ → Machine → Machine
wake_from p [] a = a
wake_from p (w ∷ ws) a = enqueue ready w (dequeue p a)

abbrev pub signal_at : ℕ → Machine → Machine
signal_at s a = wake_from (waits s) (a.lines (waits s)) (add_value (pos 1) s a)

abbrev pub take_first : List ℕ → Machine → Machine
take_first [] a = enqueue input a.runs (switch a)
take_first (x ∷ xs) a = record a { buffer = xs }

abbrev pub get_char : Machine → Machine
get_char a = take_first a.buffer a

-- What the machine's operations rely on and keep: the running thread is in no queue, the kernel's
-- own thread waits for nothing, a value counts the threads that wait, and all are threads.
abbrev pub Known : (ℕ → Bool) → List ℕ → Type 0
Known threads [] = Unit
Known threads (x ∷ xs) = (threads x ≡ true) × Known threads xs

pub record Queues (a : Machine) : Type 0 where
  pub main_nonnull : a.main ≢ 0
  pub main_known : a.threads a.main ≡ true
  pub main_ready : (p : Place) → Live a.opened p → p ≢ ready → NotIn a.main (a.lines p)
  pub known : (p : Place) → Live a.opened p → p ≢ asleep → Known a.threads (a.lines p)

abbrev pub Counts : Machine → Type 0
Counts a = (s : ℕ) → a.opened s ≡ true → debt (a.value s) ≡ length (a.lines (waits s))

-- The running thread is a thread, and in no queue.
pub record Runner (a : Machine) : Type 0 where
  pub free : Outside a.opened a.lines a.runs
  pub nonnull : a.runs ≢ 0
  pub known : a.threads a.runs ≡ true

pub record IsMachine (a : Machine) : Type 0 where
  pub queues : Queues a
  pub runner : Runner a
  pub counts : Counts a
  pub bounded : length a.buffer ≤ 1024

-- Characters for the threads that wait for one: each becomes ready.
abbrev pub serve : (ws cs : List ℕ) → Machine → Machine
serve [] cs a = a
serve (w ∷ ws) [] a = a
serve (w ∷ ws) (c ∷ cs) a = serve ws cs (enqueue ready w (dequeue input a))

-- The characters in the buffer are handed out.
abbrev pub hand_over : Machine → Machine
hand_over a =
    let ws = a.lines input in record (serve ws a.buffer a) { buffer = leftover ws a.buffer }

-- The characters `cs` come in.
abbrev pub arrive : List ℕ → Machine → Machine
arrive cs a = hand_over (record a { buffer = a.buffer ++ cs })
