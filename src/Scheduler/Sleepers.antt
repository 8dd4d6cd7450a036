-- ===== src/Scheduler/Sleepers.antt =====
-- The list of sleepers, in which each node holds the time between the one before and its own.
pub mod Times
pub mod Entries
pub mod Sleep
pub mod Removing
pub mod Cancel
pub mod Dangling
use kernel_riscv.Base.{
  ℕ, zero, suc, ◌+◌, ◌^◌, ◌<◌, ◌≡◌, refl, ◌∙◌, sym, List, [], ◌∷◌, length, arith, eq→==, ne→==,
  lt→ltb, le→ltb, ltb, lt_cases, add64, add64_lt, if◌then◌else◌, inl, inr,
}
use kernel_riscv.Memory.{done}
use kernel_riscv.Links.Queue.{NotIn, Linked}
use kernel_riscv.Kernel.{Kernel}
use kernel_riscv.Scheduler.{timeout_walk}

-- A sleeper is its node and the ticks until it wakes.
abbrev pub nodes : List (ℕ × ℕ) → List ℕ
nodes [] = []
nodes ((p, t) ∷ l) = p ∷ nodes l

-- Each node's delta leads from the time of the node before to its own.
abbrev pub Timed : Kernel → ℕ → List (ℕ × ℕ) → Type 0
Timed k before [] = Unit
Timed k before ((p, t) ∷ l) = (before + (k.sleeping_at p).delta ≡ t) × (t < 2 ^ 64) × Timed k t l

-- the sleepers at the front that wake before `time`, and those from the first other one on
abbrev pub earlier : ℕ → List (ℕ × ℕ) → List (ℕ × ℕ)
earlier time [] = []
earlier time ((p, t) ∷ l) = let rest = earlier time l in if ltb t time then (p, t) ∷ rest else []

abbrev pub later : ℕ → List (ℕ × ℕ) → List (ℕ × ℕ)
later time [] = []
later time ((p, t) ∷ l) = let rest = later time l in if ltb t time then rest else (p, t) ∷ l

abbrev pub node_or : ℕ → List (ℕ × ℕ) → ℕ
node_or head [] = head
node_or head ((p, t) ∷ l) = p

abbrev pub last_time : ℕ → List (ℕ × ℕ) → ℕ
last_time before [] = before
last_time before ((p, t) ∷ l) = last_time t l

pub Linked-next :
    (k : Kernel) (a head : ℕ) (l : List (ℕ × ℕ))
    → Linked k.links a (nodes l) head
    → k.links.next a ≡ node_or head l
Linked-next k a head [] (n, p) = n
Linked-next k a head ((q, t) ∷ l) (n, p, r) = n

-- In a ring whose deltas, from the time `before` of the node `a`, lead to the times of the sleepers
-- `l`, below 2^64: the walk from the first of them on stops at the first sleeper that wakes at
-- `time` or later, and at the head if there is none, and its sum is the time of the sleeper before.
-- A round for each sleeper and one more are enough.
pub timeout_walk-later :
    (fuel : ℕ) (k : Kernel) (time a before : ℕ) (l : List (ℕ × ℕ))
    → length l < fuel
    → Linked k.links a (nodes l) k.scheduler.sleeping_threads
    → NotIn k.scheduler.sleeping_threads (nodes l)
    → Timed k before l
    → timeout_walk fuel k time (node_or k.scheduler.sleeping_threads l) before
      ≡ done
          (node_or k.scheduler.sleeping_threads (later time l), last_time before (earlier time l))
unfolding timeout_walk
timeout_walk-later zero k time a before l f r n d = absurd (omega arith)
timeout_walk-later (suc fuel) k time a before [] f r n d =
    rw (eq→== k.scheduler.sleeping_threads k.scheduler.sleeping_threads refl) refl
timeout_walk-later (suc fuel) k time a before ((q, t) ∷ l) f r n d =
    let other = ne→== q k.scheduler.sleeping_threads (λ e. n.0 (sym e)) in
    let sum : add64 before (k.sleeping_at q).delta ≡ t =
      add64_lt before (k.sleeping_at q).delta (omega arith) ∙ d.0 in
    elim (lt_cases t time) [
      | inl b ↦
          rw (other, sum, lt→ltb t time b, Linked-next k q k.scheduler.sleeping_threads l r.2)
            (timeout_walk-later fuel k time q t l (omega arith) r.2 n.1 d.2)
      | inr b ↦ rw (other, sum, le→ltb t time b) refl
    ]
