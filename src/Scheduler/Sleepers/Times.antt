-- ===== src/Scheduler/Sleepers/Times.antt =====
-- The deltas of the sleepers' list when a sleeper is put in.
use kernel_riscv.Base.{
  ℕ, ◌+◌, ◌-◌, ◌^◌, ◌<◌, ◌≤◌, ◌≡◌, ◌≢◌, refl, ◌∙◌, ap, sym, List, [], ◌∷◌, ◌++◌, arith, lt→ltb,
  le→ltb, lt_cases, inl, inr,
}
use kernel_riscv.Links.Queue.{NotIn, Distinct, Apart, NotIn-of_append}
use kernel_riscv.Links.Insert.{first_or, first_or-ne, Apart-pair}
use kernel_riscv.Kernel.{Kernel}
use kernel_riscv.Scheduler.Sleepers.{nodes, Timed, earlier, later, node_or, last_time}

pub nodes-append : (xs ys : List (ℕ × ℕ)) → nodes (xs ++ ys) ≡ nodes xs ++ nodes ys
nodes-append [] ys = refl
nodes-append ((p, t) ∷ xs) ys = ap (λ l. p ∷ l) (nodes-append xs ys)

pub node_or-nodes : (head : ℕ) (l : List (ℕ × ℕ)) → node_or head l ≡ first_or head (nodes l)
node_or-nodes head [] = refl
node_or-nodes head ((p, t) ∷ l) = refl

pub earlier-later : (time : ℕ) (l : List (ℕ × ℕ)) → earlier time l ++ later time l ≡ l
earlier-later time [] = refl
earlier-later time ((q, t) ∷ l) = elim (lt_cases t time) [
  | inl b ↦ rw (lt→ltb t time b) (ap (λ z. (q, t) ∷ z) (earlier-later time l))
  | inr b ↦ rw (le→ltb t time b) refl
]

pub last_time-earlier :
    (time before : ℕ) (l : List (ℕ × ℕ)) → before ≤ time → last_time before (earlier time l) ≤ time
last_time-earlier time before [] h = h
last_time-earlier time before ((q, t) ∷ l) h = elim (lt_cases t time) [
  | inl b ↦ rw (lt→ltb t time b) (last_time-earlier time t l (omega arith))
  | inr b ↦ rw (le→ltb t time b) h
]

-- the first of the sleepers wakes at `time` or later
abbrev pub NotBefore : ℕ → List (ℕ × ℕ) → Type 0
NotBefore time [] = Unit
NotBefore time ((q, t) ∷ l) = time ≤ t

pub later-NotBefore : (time : ℕ) (l : List (ℕ × ℕ)) → NotBefore time (later time l)
later-NotBefore time [] = tt
later-NotBefore time ((q, t) ∷ l) = elim (lt_cases t time) [
  | inl b ↦ rw (lt→ltb t time b) (later-NotBefore time l)
  | inr b ↦ rw (le→ltb t time b) b
]

abbrev pub delta : Kernel → ℕ → ℕ
delta k p = (k.sleeping_at p).delta

pub Timed-frame :
    (k k' : Kernel) (s : List ℕ) (before : ℕ) (l : List (ℕ × ℕ))
    → ((z : ℕ) → NotIn z s → delta k' z ≡ delta k z)
    → Apart (nodes l) s
    → Timed k before l
    → Timed k' before l
Timed-frame k k' s before [] f a t = tt
Timed-frame k k' s before ((q, u) ∷ l) f (n, a) (e, b, t) =
    (omega (arith, f q n, e), b, Timed-frame k k' s u l f a t)

-- The delta of the first of `ls` leads to its time.
pub Timed-later :
    (k : Kernel) (head time before : ℕ) (es ls : List (ℕ × ℕ))
    → Timed k before (es ++ ls)
    → NotBefore time ls
    → node_or head ls ≢ head
    → (time ≤ last_time before es + delta k (node_or head ls))
      × (last_time before es + delta k (node_or head ls) < 2 ^ 64)
Timed-later k head time before [] [] t n o = absurd (o refl)
Timed-later k head time before [] ((q, u) ∷ ls) t n o = omega (arith, t.0, t.1, n)
Timed-later k head time before ((q, u) ∷ es) ls t n o = Timed-later k head time u es ls t.2 n o

-- Node `p` gets what is left of `time` behind the sleepers `es`, and the first of `ls`, if there is
-- one, gets that much less.
pub Timed-insert :
    (k k' : Kernel) (head p time before : ℕ) (es ls : List (ℕ × ℕ))
    → Timed k before (es ++ ls)
    → last_time before es ≤ time
    → time < 2 ^ 64
    → NotBefore time ls
    → Distinct (nodes es ++ nodes ls)
    → NotIn head (nodes es ++ nodes ls)
    → NotIn p (nodes es ++ nodes ls)
    → delta k' p ≡ time - last_time before es
    → (node_or head ls ≢ head
        → delta k' (node_or head ls) ≡ delta k (node_or head ls) - (time - last_time before es))
    → ((z : ℕ) → NotIn z (p ∷ node_or head ls ∷ []) → delta k' z ≡ delta k z)
    → Timed k' before (es ++ (p, time) ∷ ls)
Timed-insert k k' head p time before [] [] t h b n d o f e y r = (omega arith, b, tt)
Timed-insert k k' head p time before [] ((q, u) ∷ ls) t h b n d o f e y r = (
  omega arith,
  b,
  (
    omega (arith, y (λ z. o.0 (sym z)), t.0),
    t.1,
    Timed-frame k k' (p ∷ q ∷ []) u ls r (Apart-pair p q (nodes ls) f.1 d.0) t.2,
  ),
)
Timed-insert k k' head p time before ((q, u) ∷ es) ls t h b n d o f e y r =
    let other : q ≢ first_or head (nodes ls) =
      first_or-ne q head (nodes ls) (λ z. o.0 (sym z))
        (NotIn-of_append q (nodes es) (nodes ls) d.0).1 in
    (
      omega (arith, t.0, r q ((λ z. f.0 (sym z)), ((λ z. other (z ∙ node_or-nodes head ls)), tt))),
      t.1,
      Timed-insert k k' head p time u es ls t.2 h b n d.1 o.1 f.1 e y r,
    )
