-- ===== src/Scheduler/Sleepers/Removing.antt =====
-- Steps of `__scheduler_remove_timeout`: the walk to the entry, and the deltas without it.
use kernel_riscv.Base.{
  ℕ, zero, suc, ◌+◌, ◌^◌, ◌<◌, ◌≡◌, ◌≢◌, refl, ◌∙◌, ap, sym, false, List, [], ◌∷◌, ◌++◌, arith,
  eq→==, ne→==, ◌==◌, length,
}
use kernel_riscv.Memory.{done}
use kernel_riscv.Links.{Links}
use kernel_riscv.Links.Queue.{NotIn, NotIn-of_append, Distinct, Linked, Apart-one, IsQueue}
use kernel_riscv.Links.Insert.{first_or-ne}
use kernel_riscv.Kernel.{Kernel}
use kernel_riscv.Scheduler.{find_timeout}
use kernel_riscv.Scheduler.Sleepers.{nodes, Timed, node_or}
use kernel_riscv.Scheduler.Sleepers.Times.{delta, node_or-nodes, Timed-frame}

-- None of the nodes is the entry of `thread`.
abbrev pub NotOf : Kernel → ℕ → List ℕ → Type 0
NotOf k thread [] = Unit
NotOf k thread (p ∷ ps) = ((k.sleeping_at p).thread ≢ thread) × NotOf k thread ps

-- The walk stops at the first entry of the thread.
pub find_timeout-found :
    (fuel : ℕ) (k : Kernel) (thread p a : ℕ) (es : List ℕ) (ls : List ℕ)
    → suc (length es) < fuel
    → Linked k.links a (es ++ p ∷ ls) k.scheduler.sleeping_threads
    → NotIn k.scheduler.sleeping_threads (es ++ p ∷ ls)
    → NotOf k thread (a ∷ es)
    → (k.sleeping_at p).thread ≡ thread
    → find_timeout fuel k thread a ≡ done p
unfolding find_timeout
find_timeout-found zero k thread p a es ls f r n o e = absurd (omega arith)
find_timeout-found (suc zero) k thread p a es ls f r n o e = absurd (omega arith)
find_timeout-found (suc (suc fuel)) k thread p a [] ls f r n o e =
    rw
      (
        ne→== (k.sleeping_at a).thread thread o.0,
        ne→== (k.links.next a) k.scheduler.sleeping_threads (λ z. n.0 (sym z ∙ r.0)),
        r.0,
        eq→== (k.sleeping_at p).thread thread e,
      )
      refl
find_timeout-found (suc (suc fuel)) k thread p a (x ∷ es) ls f r n o e =
    rw
      (
        ne→== (k.sleeping_at a).thread thread o.0,
        ne→== (k.links.next a) k.scheduler.sleeping_threads (λ z. n.0 (sym z ∙ r.0)),
        r.0,
      )
      (find_timeout-found (suc fuel) k thread p x es ls (omega arith) r.2 n.1 o.1 e)

-- The time of the removed sleeper goes to the one behind it.
pub Timed-remove :
    (k k' : Kernel) (head p u before : ℕ) (es ls : List (ℕ × ℕ))
    → Timed k before (es ++ (p, u) ∷ ls)
    → Distinct (nodes es ++ p ∷ nodes ls)
    → NotIn head (nodes es ++ p ∷ nodes ls)
    → (node_or head ls ≢ head → delta k' (node_or head ls) ≡ delta k (node_or head ls) + delta k p)
    → ((z : ℕ) → NotIn z (node_or head ls ∷ []) → delta k' z ≡ delta k z)
    → Timed k' before (es ++ ls)
Timed-remove k k' head p u before [] [] t d o y r = tt
Timed-remove k k' head p u before [] ((q, v) ∷ ls) t d o y r = (
  omega (arith, y (λ z. o.1.0 (sym z)), t.0, t.2.0),
  t.2.1,
  Timed-frame k k' (q ∷ []) v ls r (Apart-one q (nodes ls) d.1.0) t.2.2,
)
Timed-remove k k' head p u before ((q, v) ∷ es) ls t d o y r = (
  omega (
    arith,
    t.0,
    r q (
      (λ z.
          first_or-ne q head (nodes ls) (λ w. o.0 (sym w))
            (NotIn-of_append q (nodes es) (p ∷ nodes ls) d.0).1.1 (z ∙ node_or-nodes head ls)),
      tt,
    ),
  ),
  t.1,
  Timed-remove k k' head p u v es ls t.2 d.1 o.1 y r,
)

pub Timed-pair :
    (k : Kernel) (p u y v before : ℕ) (es ls : List (ℕ × ℕ))
    → Timed k before (es ++ (p, u) ∷ (y, v) ∷ ls)
    → delta k y + delta k p < 2 ^ 64
Timed-pair k p u y v before [] ls t = omega (arith, t.0, t.2.0, t.2.1)
Timed-pair k p u y v before ((q, w) ∷ es) ls t = Timed-pair k p u y v w es ls t.2

pub not_alone :
    (l : Links) (head x p : ℕ) (xs ys : List ℕ)
    → IsQueue l head (x ∷ xs ++ p ∷ ys)
    → (l.next head == head) ≡ false
not_alone l head x p [] ys q =
    ne→== (l.next head) head
      (λ e. q.distinct.0.0 (sym q.first ∙ sym e ∙ ap l.next q.first ∙ q.linked.0))
not_alone l head x p (w ∷ xs) ys q =
    ne→== (l.next head) head
      (λ e. q.distinct.0.0 (sym q.first ∙ sym e ∙ ap l.next q.first ∙ q.linked.0))
