-- ===== src/Links/Queue.antt =====
-- When a head pointer and the links represent a queue, and what pushing and popping do to it.
use kernel_riscv.Base.{
  ℕ, ◌≡◌, ◌≢◌, refl, ◌∙◌, false, List, [], ◌∷◌, ◌++◌, arith, ◌==◌, eq→==, ne→==, sym,
}
use kernel_riscv.Links.{Links, list_insert, unlink, push_node, pop_node}

abbrev pub NotIn : ℕ → List ℕ → Type 0
NotIn a [] = Unit
NotIn a (x ∷ xs) = (a ≢ x) × NotIn a xs

abbrev pub Distinct : List ℕ → Type 0
Distinct [] = Unit
Distinct (x ∷ xs) = NotIn x xs × Distinct xs

-- no node of `ys` is in `xs`
abbrev pub Apart : List ℕ → List ℕ → Type 0
Apart [] xs = Unit
Apart (y ∷ ys) xs = NotIn y xs × Apart ys xs

-- From `a` the `next` pointers lead through `xs` to `b`, and the `prev` pointers lead back.
abbrev pub Linked : Links → ℕ → List ℕ → ℕ → Type 0
Linked l a [] b = (l.next a ≡ b) × (l.prev b ≡ a)
Linked l a (x ∷ xs) b = (l.next a ≡ x) × (l.prev x ≡ a) × Linked l x xs b

-- The ring of distinct nodes that starts at `head`.
pub record Ring (l : Links) (head x : ℕ) (xs : List ℕ) : Type 0 where
  pub first : head ≡ x
  pub linked : Linked l x xs x
  pub distinct : Distinct (x ∷ xs)
  pub nonnull : NotIn 0 (x ∷ xs)

abbrev pub IsQueue : Links → ℕ → List ℕ → Type 0
IsQueue l head [] = head ≡ 0
IsQueue l head (x ∷ xs) = Ring l head x xs

-- `l'` has the links of `l` at every node outside `xs`.
abbrev pub SameOutside : List ℕ → Links → Links → Type 0
SameOutside xs l l' = (z : ℕ) → NotIn z xs → (l'.next z ≡ l.next z) × (l'.prev z ≡ l.prev z)

pub NotIn-append : (z : ℕ) (xs ys : List ℕ) → NotIn z xs → NotIn z ys → NotIn z (xs ++ ys)
NotIn-append z [] ys p q = q
NotIn-append z (x ∷ xs) ys (n, p) q = (n, NotIn-append z xs ys p q)

-- The node before the end of a chain is one of the chain.
last-ne : (l : Links) (a b z : ℕ) (xs : List ℕ) → Linked l a xs b → NotIn z (a ∷ xs) → l.prev b ≢ z
last-ne l a b z [] (n, p) h e = h.0 (sym e ∙ p)
last-ne l a b z (x ∷ xs) (n, p, t) h e = last-ne l x b z xs t h.1 e

pub Distinct-snoc : (y : ℕ) (xs : List ℕ) → Distinct xs → NotIn y xs → Distinct (xs ++ (y ∷ []))
Distinct-snoc y [] d n = (tt, tt)
Distinct-snoc y (x ∷ xs) (p, d) (ne, n) =
    (NotIn-append x xs (y ∷ []) p ((λ e. ne (sym e)), tt), Distinct-snoc y xs d n)

-- Linking `y` in behind the chain's last node.
pub Linked-insert :
    (l : Links) (head y a : ℕ) (xs : List ℕ)
    → Linked l a xs head
    → Distinct (a ∷ xs)
    → NotIn head xs
    → NotIn y (head ∷ a ∷ xs)
    → Linked (list_insert l head y) a (xs ++ (y ∷ [])) head
unfolding list_insert
Linked-insert l head y a [] (n, p) d h f =
    (ground arith, ground arith, (ground arith, ground arith))
Linked-insert l head y a (x ∷ xs) (n, p, t) d h f = (
  ground (arith, last-ne l x head a xs t d.0),
  ground arith,
  Linked-insert l head y x xs t d.1 h.1 (f.0, f.1.1),
)

pub list_insert-outside :
    (l : Links) (head y : ℕ) (z : ℕ)
    → z ≢ y
    → z ≢ head
    → z ≢ l.prev head
    → ((list_insert l head y).next z ≡ l.next z) × ((list_insert l head y).prev z ≡ l.prev z)
unfolding list_insert
list_insert-outside l head y z p q r = (ground arith, ground arith)

-- What pushing `y` on the queue of `xs` comes to.
pub record Pushed (l : Links) (y : ℕ) (xs : List ℕ) (r : Links × ℕ) : Type 0 where
  pub queue : IsQueue r.0 r.1 (xs ++ (y ∷ []))
  pub outside : SameOutside (y ∷ xs) l r.0

-- A push of a node that is not null and not in the queue appends it, and touches no link of any
-- node but it and those of the queue.
pub push_node-Pushed :
    (l : Links) (head y : ℕ) (xs : List ℕ)
    → IsQueue l head xs
    → y ≢ 0
    → NotIn y xs
    → Pushed l y xs (push_node l head y)
unfolding push_node
push_node-Pushed l head y [] e nz f = rw e (record {
  queue = record {
    first = refl;
    linked = (ground arith, ground arith);
    distinct = (tt, tt);
    nonnull = ((λ e'. nz (sym e')), tt);
  };
  outside = λ z o. (ground arith, ground arith);
})
push_node-Pushed l head y (x ∷ xs) r nz f =
    rw (r.first, test, push_node)
      (record {
        queue = record {
          first = refl;
          linked = Linked-insert l x y x xs r.linked r.distinct r.distinct.0 (f.0, f);
          distinct = Distinct-snoc y (x ∷ xs) r.distinct f;
          nonnull = NotIn-append 0 (x ∷ xs) (y ∷ []) r.nonnull ((λ e. nz (sym e)), tt);
        };
        outside = λ z o.
            list_insert-outside l x y z o.0 o.1.0 (λ e. last-ne l x x z xs r.linked o.1 (sym e));
      })
  where
    test : (x == 0) ≡ false
    test = ne→== x 0 (λ e. r.nonnull.0 (sym e))

Linked-unlink :
    (l : Links) (x y a : ℕ) (ys : List ℕ)
    → l.next x ≡ y
    → Linked l a ys x
    → Distinct (a ∷ ys)
    → NotIn x (a ∷ ys)
    → NotIn y ys
    → x ≢ y
    → Linked (unlink l x) a ys y
unfolding unlink
Linked-unlink l x y a [] e (n, p) d f g ne = (ground arith, ground arith)
Linked-unlink l x y a (b ∷ ys) e (n, p, t) d f g ne = (
  ground (arith, last-ne l b x a ys t d.0),
  ground arith,
  Linked-unlink l x y b ys e t d.1 f.1 g.1 ne,
)

pub unlink-outside :
    (l : Links) (x z : ℕ)
    → z ≢ l.prev x
    → z ≢ l.next x
    → x ≢ l.prev x
    → ((unlink l x).next z ≡ l.next z) × ((unlink l x).prev z ≡ l.prev z)
unfolding unlink
unlink-outside l x z p q ne = (ground arith, ground arith)

-- What popping the queue of `x` and `xs` comes to.
pub record Popped (l : Links) (xs : List ℕ) (r : Links × ℕ) : Type 0 where
  pub queue : IsQueue r.0 r.1 xs
  pub outside : SameOutside xs l r.0

-- A pop takes the first node off, and touches no link of a node outside the queue.
pub pop_node-Popped :
    (l : Links) (head x : ℕ) (xs : List ℕ) → IsQueue l head (x ∷ xs) → Popped l xs (pop_node l head)
unfolding pop_node
pop_node-Popped l head x [] r =
    rw (r.first, eq→== (l.next x) x r.linked.0, pop_node)
      (record { queue = refl; outside = λ z o. (refl, refl) })
pop_node-Popped l head x (y ∷ ys) r =
    rw (r.first, ne→== (l.next x) x more, pop_node)
      (record {
        queue = record {
          first =
              (unlink-outside l x x (λ e. back (sym e)) (λ e. more (sym e)) (λ e. back (sym e))).0
              ∙ r.linked.0;
          linked =
              Linked-unlink l x y y ys r.linked.0 r.linked.2 r.distinct.1 r.distinct.0
                r.distinct.1.0 r.distinct.0.0;
          distinct = r.distinct.1;
          nonnull = r.nonnull.1;
        };
        outside = λ z o.
            unlink-outside l x z (λ e. last-ne l y x z ys r.linked.2 o (sym e))
              (λ e. o.0 (e ∙ r.linked.0)) (λ e. back (sym e));
      })
  where
    more : l.next x ≢ x
    more e = r.distinct.0.0 (sym e ∙ r.linked.0)

    back : l.prev x ≢ x
    back = last-ne l y x x ys r.linked.2 r.distinct.0

Linked-frame :
    (l l' : Links) (t : List ℕ) (a b : ℕ) (xs : List ℕ)
    → SameOutside t l l'
    → Apart (a ∷ xs) t
    → NotIn b t
    → Linked l a xs b
    → Linked l' a xs b
Linked-frame l l' t a b [] s p q (n, m) = ((s a p.0).0 ∙ n, (s b q).1 ∙ m)
Linked-frame l l' t a b (x ∷ xs) s p q (n, m, k) =
    ((s a p.0).0 ∙ n, (s x p.1.0).1 ∙ m, Linked-frame l l' t x b xs s p.1 q k)

-- A queue is not affected by what happens to the links of other nodes.
pub IsQueue-frame :
    (l l' : Links) (t : List ℕ) (head : ℕ) (xs : List ℕ)
    → SameOutside t l l'
    → Apart xs t
    → IsQueue l head xs
    → IsQueue l' head xs
IsQueue-frame l l' t head [] s p e = e
IsQueue-frame l l' t head (x ∷ xs) s p r = record {
  first = r.first;
  linked = Linked-frame l l' t x x xs s p p.0 r.linked;
  distinct = r.distinct;
  nonnull = r.nonnull;
}

pub NotIn-of_append : (z : ℕ) (xs ys : List ℕ) → NotIn z (xs ++ ys) → NotIn z xs × NotIn z ys
NotIn-of_append z [] ys p = (tt, p)
NotIn-of_append z (x ∷ xs) ys (n, p) = let r = NotIn-of_append z xs ys p in ((n, r.0), r.1)

pub Apart-cons : (x : ℕ) (ys xs : List ℕ) → NotIn x ys → Apart ys xs → Apart ys (x ∷ xs)
Apart-cons x [] xs p a = tt
Apart-cons x (y ∷ ys) xs (n, p) (m, a) = (((λ e. n (sym e)), m), Apart-cons x ys xs p a)

pub Apart-nil : (ys : List ℕ) → Apart ys []
Apart-nil [] = tt
Apart-nil (y ∷ ys) = (tt, Apart-nil ys)

pub Apart-one : (p : ℕ) (xs : List ℕ) → NotIn p xs → Apart xs (p ∷ [])
Apart-one p xs n = Apart-cons p xs [] n (Apart-nil xs)

-- Two parts of a list of distinct nodes have no node in common.
pub Distinct-Apart :
    (xs ys : List ℕ) → Distinct (xs ++ ys) → Apart xs ys × Apart ys xs × Distinct xs × Distinct ys
Distinct-Apart [] ys d = (tt, Apart-nil ys, tt, d)
Distinct-Apart (x ∷ xs) ys (n, d) =
    let r = Distinct-Apart xs ys d in
    let m = NotIn-of_append x xs ys n in ((m.1, r.0), Apart-cons x ys xs m.1 r.1, (m.0, r.2), r.3)

pub Apart-drop : (x : ℕ) (ys xs : List ℕ) → Apart ys (x ∷ xs) → Apart ys xs
Apart-drop x [] xs a = tt
Apart-drop x (y ∷ ys) xs (n, a) = (n.1, Apart-drop x ys xs a)
