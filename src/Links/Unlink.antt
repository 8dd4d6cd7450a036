-- ===== src/Links/Unlink.antt =====
-- Taking the head out of a ring by its links alone, as the timer and the semaphores do.
use kernel_riscv.Base.{
  ℕ, ◌≡◌, ◌≢◌, refl, ◌∙◌, ap, sym, false, List, [], ◌∷◌, ◌++◌, arith, ne→==, ◌==◌, subst,
}
use kernel_riscv.Links.{Links, unlink, pop_node}
use kernel_riscv.Links.Insert.{first_or, first_or-ne, prev-ne, Linked-frame_pair}
use kernel_riscv.Links.Queue.{
  Linked, Distinct, NotIn, Apart-one, unlink-outside, NotIn-of_append, IsQueue, SameOutside, Popped,
  pop_node-Popped,
}

-- With more than one node in the queue, a pop is an unlinking of the head.
pub pop_node-unlink :
    (l : Links) (head w x : ℕ) (ws : List ℕ)
    → IsQueue l head (w ∷ x ∷ ws)
    → (pop_node l head ≡ (unlink l head, (unlink l head).next head))
      × ((head == l.next head) ≡ false)
      × ((head == 0) ≡ false)
unfolding pop_node
pop_node-unlink l head w x ws q = (
  rw (ne→== (l.next head) head other) refl,
  ne→== head (l.next head) (λ e. other (sym e)),
  ne→== head 0 (λ e. q.nonnull.0 (sym e ∙ q.first)),
)
  where
    other : l.next head ≢ head
    other e = q.distinct.0.0 (sym q.first ∙ sym e ∙ ap l.next q.first ∙ q.linked.0)

-- What is left is the queue of the others.
pub unlink-Popped :
    (l : Links) (head w x : ℕ) (ws : List ℕ)
    → IsQueue l head (w ∷ x ∷ ws)
    → Popped l (x ∷ ws) (unlink l head, (unlink l head).next head)
unlink-Popped l head w x ws q =
    subst (Popped l (x ∷ ws)) (pop_node-unlink l head w x ws q).0
      (pop_node-Popped l head w (x ∷ ws) q)

pub next-first_or :
    (l : Links) (p b a : ℕ) (xs ys : List ℕ)
    → Linked l a (xs ++ p ∷ ys) b
    → l.next p ≡ first_or b ys
next-first_or l p b a [] [] (n, m, k) = k.0
next-first_or l p b a [] (y ∷ ys) (n, m, k) = k.0
next-first_or l p b a (x ∷ xs) ys (n, m, k) = next-first_or l p b x xs ys k

-- Unlinking takes a node out of a chain that leads from `a` to `b`.
pub unlink-Linked :
    (l : Links) (p b a : ℕ) (xs ys : List ℕ)
    → Linked l a (xs ++ p ∷ ys) b
    → Distinct (a ∷ xs ++ p ∷ ys)
    → NotIn b (xs ++ p ∷ ys)
    → Linked (unlink l p) a (xs ++ ys) b
unfolding unlink
unlink-Linked l p b a [] [] (n, m, k) d o = (ground (arith, k.0), ground (arith, k.0))
unlink-Linked l p b a [] (y ∷ ys) (n, m, k) d o = (
  ground (arith, k.0, d.0.1.0),
  ground (arith, k.0, d.0.1.0, d.0.0, d.1.0.0),
  Linked-frame_pair l (unlink l p) (a ∷ []) (y ∷ []) y b ys (λ z h. ground (arith, h.0))
      (λ z h. ground (arith, k.0, h.0, d.0.0)) (Apart-one a (y ∷ ys) d.0.1) (Apart-one y ys d.1.1.0)
      (o.1.0, tt) k.2,
)
unlink-Linked l p b a (x ∷ xs) ys (n, m, k) d o =
    let after = next-first_or l p b x xs ys k in
    let up : l.prev p ≢ a = prev-ne l a x b xs (p ∷ ys) k d.0 in
    let rest = NotIn-of_append x xs (p ∷ ys) d.1.0 in
    let other : x ≢ first_or b ys = first_or-ne x b ys (λ e. o.0 (sym e)) rest.1.1 in
    (
      ground (arith, up),
      ground (arith, after, other, rest.1.0),
      unlink-Linked l p b x xs ys k d.1 o.1,
    )

-- What taking a node that is not the head out of a queue comes to.
pub record Removed (l l' : Links) (head : ℕ) (xs xs' : List ℕ) : Type 0 where
  pub queue : IsQueue l' head xs'
  pub outside : SameOutside xs l l'

NotIn-remove : (z p : ℕ) (xs ys : List ℕ) → NotIn z (xs ++ p ∷ ys) → NotIn z (xs ++ ys)
NotIn-remove z p [] ys n = n.1
NotIn-remove z p (x ∷ xs) ys n = (n.0, NotIn-remove z p xs ys n.1)

Distinct-remove : (p : ℕ) (xs ys : List ℕ) → Distinct (xs ++ p ∷ ys) → Distinct (xs ++ ys)
Distinct-remove p [] ys d = d.1
Distinct-remove p (x ∷ xs) ys d = (NotIn-remove x p xs ys d.0, Distinct-remove p xs ys d.1)

prev_self :
    (l : Links) (p b a : ℕ) (xs ys : List ℕ)
    → Linked l a (xs ++ p ∷ ys) b
    → Distinct (a ∷ xs ++ p ∷ ys)
    → p ≢ l.prev p
prev_self l p b a [] ys (n, m, k) d e = d.0.0 (sym (e ∙ m))
prev_self l p b a (x ∷ xs) ys (n, m, k) d e = prev_self l p b x xs ys k d.1 e

-- A node behind the head leaves the queue, and no link of another node changes.
pub unlink_behind :
    (l : Links) (head p x : ℕ) (xs ys : List ℕ)
    → IsQueue l head (x ∷ xs ++ p ∷ ys)
    → Removed l (unlink l p) head (x ∷ xs ++ p ∷ ys) (x ∷ xs ++ ys)
unlink_behind l head p x xs ys q = record {
  queue = record {
    first = q.first;
    linked = unlink-Linked l p x x xs ys q.linked q.distinct q.distinct.0;
    distinct = (NotIn-remove x p xs ys q.distinct.0, Distinct-remove p xs ys q.distinct.1);
    nonnull = (q.nonnull.0, NotIn-remove 0 p xs ys q.nonnull.1);
  };
  outside = λ z o.
      unlink-outside l p z (λ e. prev-ne l z x x xs (p ∷ ys) q.linked o (sym e))
        (λ e.
          first_or-ne z x ys o.0 (NotIn-of_append z xs (p ∷ ys) o.1).1.1
            (e ∙ next-first_or l p x x xs ys q.linked))
        (prev_self l p x x xs ys q.linked q.distinct);
}
