-- ===== src/Links/Insert/Rings.antt =====
-- `list_insert` on a ring: the new node is behind the head, or it becomes the head.
use kernel_riscv.Base.{ℕ, ◌≡◌, ◌≢◌, refl, sym, subst, List, [], ◌∷◌, ◌++◌}
use mathlib.Core.List.{append-nil}
use kernel_riscv.Links.{Links, list_insert}
use kernel_riscv.Links.Queue.{
  NotIn, Distinct, Linked, IsQueue, SameOutside, Linked-insert, list_insert-outside,
  NotIn-of_append,
}
use kernel_riscv.Links.Insert.{first_or, prev-ne, first_or-ne, list_insert-Linked}

pub NotIn-insert : (z p : ℕ) (xs ys : List ℕ) → z ≢ p → NotIn z (xs ++ ys) → NotIn z (xs ++ p ∷ ys)
NotIn-insert z p [] ys e n = (e, n)
NotIn-insert z p (x ∷ xs) ys e (n, m) = (n, NotIn-insert z p xs ys e m)

pub Distinct-insert :
    (p : ℕ) (xs ys : List ℕ) → NotIn p (xs ++ ys) → Distinct (xs ++ ys) → Distinct (xs ++ p ∷ ys)
Distinct-insert p [] ys n d = (n, d)
Distinct-insert p (x ∷ xs) ys (e, n) (m, d) =
    (NotIn-insert x p xs ys (λ z. e (sym z)) m, Distinct-insert p xs ys n d)

-- The chain up to the last node, and the links of that node.
Linked-init :
    (l : Links) (a p b : ℕ) (xs : List ℕ)
    → Linked l a (xs ++ (p ∷ [])) b
    → Linked l a xs p × (l.next p ≡ b) × (l.prev b ≡ p)
Linked-init l a p b [] (n, m, k) = ((n, m), k.0, k.1)
Linked-init l a p b (x ∷ xs) (n, m, k) = let r = Linked-init l x p b xs k in ((n, m, r.0), r.1, r.2)

-- What an insertion that does not touch the head comes to.
pub record Inserted (l l' : Links) (head' p : ℕ) (xs xs' : List ℕ) : Type 0 where
  pub queue : IsQueue l' head' xs'
  pub outside : SameOutside (p ∷ xs) l l'

-- Behind the head: in front of the first of `ys`, or at the end if there is none.
pub insert_behind :
    (l : Links) (head p x : ℕ) (xs ys : List ℕ)
    → IsQueue l head (x ∷ xs ++ ys)
    → p ≢ 0
    → NotIn p (x ∷ xs ++ ys)
    → Inserted l (list_insert l (first_or x ys) p) head p (x ∷ xs ++ ys) (x ∷ xs ++ p ∷ ys)
insert_behind l head p x xs ys q nz f = record {
  queue = record {
    first = q.first;
    linked = list_insert-Linked l p x x xs ys q.linked q.distinct q.distinct.0 (f.0, f);
    distinct = (
      NotIn-insert x p xs ys (λ e. f.0 (sym e)) q.distinct.0,
      Distinct-insert p xs ys f.1 q.distinct.1,
    );
    nonnull = (q.nonnull.0, NotIn-insert 0 p xs ys (λ e. nz (sym e)) q.nonnull.1);
  };
  outside = λ z o.
      list_insert-outside l (first_or x ys) p z o.0
        (first_or-ne z x ys o.1.0 (NotIn-of_append z xs ys o.1.1).1)
        (λ e. prev-ne l z x x xs ys q.linked o.1 (sym e));
}

-- In front of the head, which the new node becomes.
pub insert_front :
    (l : Links) (head p x : ℕ) (xs : List ℕ)
    → IsQueue l head (x ∷ xs)
    → p ≢ 0
    → NotIn p (x ∷ xs)
    → Inserted l (list_insert l head p) p p (x ∷ xs) (p ∷ x ∷ xs)
insert_front l head p x xs q nz f =
    let ring =
      Linked-init l' x p x xs
        (Linked-insert l x p x xs q.linked q.distinct q.distinct.0 (f.0, f)) in
    subst (λ h. Inserted l (list_insert l h p) p p (x ∷ xs) (p ∷ x ∷ xs)) (sym q.first)
      (record {
        queue = record {
          first = refl;
          linked = (ring.1, ring.2, ring.0);
          distinct = (f, q.distinct);
          nonnull = ((λ e. nz (sym e)), q.nonnull);
        };
        outside = λ z o. list_insert-outside l x p z o.0 o.1.0 (λ e.
            prev-ne l z x x xs [] (subst (λ n. Linked l x n x) (sym (append-nil xs)) q.linked)
              (o.1.0, subst (NotIn z) (sym (append-nil xs)) o.1.1) (sym e));
      })
  where
    l' : Links
    l' = list_insert l x p
