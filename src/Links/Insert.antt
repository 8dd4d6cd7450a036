-- ===== src/Links/Insert.antt =====
-- `list_insert` in front of any node of a ring.
pub mod Rings
use kernel_riscv.Base.{ℕ, ◌≡◌, ◌≢◌, ◌∙◌, sym, List, [], ◌∷◌, ◌++◌, arith}
use kernel_riscv.Links.{Links, list_insert}
use kernel_riscv.Links.Queue.{NotIn, Distinct, Apart, Linked, NotIn-of_append}

-- the first node of `ys`, or `b`
abbrev pub first_or : ℕ → List ℕ → ℕ
first_or b [] = b
first_or b (y ∷ ys) = y

pub Linked-frame_pair :
    (l l' : Links) (s t : List ℕ) (a b : ℕ) (xs : List ℕ)
    → ((z : ℕ) → NotIn z s → l'.next z ≡ l.next z)
    → ((z : ℕ) → NotIn z t → l'.prev z ≡ l.prev z)
    → Apart (a ∷ xs) s
    → Apart xs t
    → NotIn b t
    → Linked l a xs b
    → Linked l' a xs b
Linked-frame_pair l l' s t a b [] f g p q o (n, m) = (f a p.0 ∙ n, g b o ∙ m)
Linked-frame_pair l l' s t a b (x ∷ xs) f g p q o (n, m, k) =
    (f a p.0 ∙ n, g x q.0 ∙ m, Linked-frame_pair l l' s t x b xs f g p.1 q.1 o k)

pub Apart-pair : (u v : ℕ) (zs : List ℕ) → NotIn u zs → NotIn v zs → Apart zs (u ∷ v ∷ [])
Apart-pair u v [] p q = tt
Apart-pair u v (z ∷ zs) p q =
    (((λ e. p.0 (sym e)), ((λ e. q.0 (sym e)), tt)), Apart-pair u v zs p.1 q.1)

pub prev-ne :
    (l : Links) (z a b : ℕ) (xs ys : List ℕ)
    → Linked l a (xs ++ ys) b
    → NotIn z (a ∷ xs ++ ys)
    → l.prev (first_or b ys) ≢ z
prev-ne l z a b [] [] (n, p) h e = h.0 (sym e ∙ p)
prev-ne l z a b [] (y ∷ ys) (n, p, k) h e = h.0 (sym e ∙ p)
prev-ne l z a b (x ∷ xs) ys (n, p, k) h e = prev-ne l z x b xs ys k h.1 e

pub first_or-ne : (z b : ℕ) (ys : List ℕ) → z ≢ b → NotIn z ys → z ≢ first_or b ys
first_or-ne z b [] n h = n
first_or-ne z b (y ∷ ys) n h = h.0

-- From `a` on, a chain of distinct nodes `xs` and `ys` leads to `b`, and `p` is none of these nodes:
-- inserting `p` in front of the first of `ys`, or of `b` if there is none, puts it between `xs` and
-- `ys` in the chain.
pub list_insert-Linked :
    (l : Links) (p b a : ℕ) (xs ys : List ℕ)
    → Linked l a (xs ++ ys) b
    → Distinct (a ∷ xs ++ ys)
    → NotIn b (xs ++ ys)
    → NotIn p (b ∷ a ∷ xs ++ ys)
    → Linked (list_insert l (first_or b ys) p) a (xs ++ p ∷ ys) b
unfolding list_insert
list_insert-Linked l p b a [] [] (n, m) d o f =
    (ground arith, ground arith, (ground arith, ground arith))
list_insert-Linked l p b a [] (y ∷ ys) (n, m, k) d o f = (
  ground arith,
  ground arith,
  (
    ground arith,
    ground arith,
    Linked-frame_pair l (list_insert l y p) (p ∷ a ∷ []) (p ∷ y ∷ []) y b ys
        (λ z h. ground (arith, m, h.0, h.1.0)) (λ z h. ground (arith, h.0, h.1.0))
        (Apart-pair p a (y ∷ ys) f.1.1 d.0) (Apart-pair p y ys f.1.1.1 d.1.0)
        ((λ e. f.0 (sym e)), (o.0, tt)) k,
  ),
)
list_insert-Linked l p b a (x ∷ xs) ys (n, m, k) d o f =
    let y = first_or b ys in
    let up : l.prev y ≢ a = prev-ne l a x b xs ys k d.0 in
    let other : x ≢ y = first_or-ne x b ys (λ e. o.0 (sym e)) (NotIn-of_append x xs ys d.1.0).1 in
    (
      ground (arith, up, f.1.0),
      ground (arith, other, f.1.1.0),
      list_insert-Linked l p b x xs ys k d.1 o.1 (f.0, f.1.1),
    )
