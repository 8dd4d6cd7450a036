-- ===== src/System/Lines.antt =====
-- Several circular lists through the same memory of links, with no node in two of them.
use kernel_riscv.Base.{
  ℕ, ◌≡◌, ◌≢◌, refl, ◌∙◌, ap, sym, subst, Bool, true, false, List, [], ◌∷◌, ◌++◌, ◌⊎◌, inl, inr,
  eq→==, ne→==, eq_cases,
}
use mathlib.Core.Path.{fun_ext}
use kernel_riscv.Links.{Links, push_node, pop_node}
use kernel_riscv.Links.Queue.{
  NotIn, Apart, IsQueue, IsQueue-frame, NotIn-append, Apart-cons, Apart-drop, push_node-Pushed,
  pop_node-Popped,
}
use kernel_riscv.System.{Place, ready, input, asleep, waits, same, put_at, Live}

pub same-cases : (p r : Place) → ((p ≡ r) × (same p r ≡ true)) ⊎ ((p ≢ r) × (same p r ≡ false))
same-cases ready ready = inl (refl, refl)
same-cases ready input = inr ((λ e. cc), refl)
same-cases ready asleep = inr ((λ e. cc), refl)
same-cases ready (waits s) = inr ((λ e. cc), refl)
same-cases input ready = inr ((λ e. cc), refl)
same-cases input input = inl (refl, refl)
same-cases input asleep = inr ((λ e. cc), refl)
same-cases input (waits s) = inr ((λ e. cc), refl)
same-cases asleep ready = inr ((λ e. cc), refl)
same-cases asleep input = inr ((λ e. cc), refl)
same-cases asleep asleep = inl (refl, refl)
same-cases asleep (waits s) = inr ((λ e. cc), refl)
same-cases (waits s) ready = inr ((λ e. cc), refl)
same-cases (waits s) input = inr ((λ e. cc), refl)
same-cases (waits s) asleep = inr ((λ e. cc), refl)
same-cases (waits s) (waits t) = elim (eq_cases s t) [
  | inl e ↦ inl (ap waits e, eq→== s t e)
  | inr n ↦ inr ((λ e. n (cc e)), ne→== s t n)
]

-- A property of a map with one place changed: it holds at the place, and elsewhere.
pub put_at-elim {ℓ κ} :
    {A : Type ℓ} (P : Place → A → Type κ) (p : Place) (v : A) (f : Place → A) (r : Place)
    → (r ≡ p → P r v)
    → (r ≢ p → P r (f r))
    → P r (put_at p v f r)
put_at-elim P p v f r here there = elim (same-cases r p) [
  | inl (e, t) ↦ rw t (here e)
  | inr (n, t) ↦ rw t (there n)
]

-- Each list that there is represents its queue, and no node is in two of them.
pub record Lines (opened : ℕ → Bool) (l : Links) (heads : Place → ℕ) (lines : Place → List ℕ)
    : Type 0 where
  pub queue : (p : Place) → Live opened p → IsQueue l (heads p) (lines p)
  pub apart : (p r : Place) → Live opened p → Live opened r → p ≢ r → Apart (lines p) (lines r)

-- a node that is in none of the lists
abbrev pub Outside : (ℕ → Bool) → (Place → List ℕ) → ℕ → Type 0
Outside opened lines t = (p : Place) → Live opened p → NotIn t (lines p)

pub Apart-append : (xs ys zs : List ℕ) → Apart xs zs → Apart ys zs → Apart (xs ++ ys) zs
Apart-append [] ys zs a b = b
Apart-append (x ∷ xs) ys zs (n, a) b = (n, Apart-append xs ys zs a b)

pub Apart-snoc : (y : ℕ) (zs xs : List ℕ) → Apart zs xs → NotIn y zs → Apart zs (xs ++ (y ∷ []))
Apart-snoc y [] xs a n = tt
Apart-snoc y (z ∷ zs) xs (m, a) (d, n) =
    (NotIn-append z xs (y ∷ []) m ((λ e. d (sym e)), tt), Apart-snoc y zs xs a n)

module _ {opened : ℕ → Bool} {l : Links} {heads : Place → ℕ} {lines : Place → List ℕ} where
  -- One list with new links, head and nodes, and the others with theirs.
  pub Lines-put :
      (p : Place) (l' : Links) (h : ℕ) (ys : List ℕ)
      → Lines opened l heads lines
      → IsQueue l' h ys
      → ((r : Place) → Live opened r → r ≢ p → IsQueue l' (heads r) (lines r))
      → ((r : Place) → Live opened r → r ≢ p → Apart ys (lines r) × Apart (lines r) ys)
      → Lines opened l' (put_at p h heads) (put_at p ys lines)
  Lines-put p l' h ys w q frame apart = record {
    queue = λ r live. elim (same-cases r p) [
      | inl (e, t) ↦ rw t q
      | inr (n, t) ↦ rw t (frame r live n)
    ];
    apart = λ r s live live' ne. elim (same-cases r p) [
      | inl (e, t) ↦ elim (same-cases s p) [
        | inl (e', t') ↦ absurd (ne (e ∙ sym e'))
        | inr (n', t') ↦ rw (t, t') (apart s live' n').0
      ]
      | inr (n, t) ↦ elim (same-cases s p) [
        | inl (e', t') ↦ rw (t, t') (apart r live n).1
        | inr (n', t') ↦ rw (t, t') (w.apart r s live live' ne)
      ]
    ];
  }

  -- Pushing a new node on one of the lists.
  pub push_node-Lines :
      (p : Place) (t : ℕ)
      → Lines opened l heads lines
      → Live opened p
      → t ≢ 0
      → Outside opened lines t
      → Lines opened
          (push_node l (heads p) t).0
          (put_at p (push_node l (heads p) t).1 heads)
          (put_at p (lines p ++ (t ∷ [])) lines)
  push_node-Lines p t w live nz out =
      let pushed = push_node-Pushed l (heads p) t (lines p) (w.queue p live) nz (out p live) in
      Lines-put p (push_node l (heads p) t).0 (push_node l (heads p) t).1 (lines p ++ (t ∷ [])) w
        pushed.queue
        (λ r at n.
          IsQueue-frame l (push_node l (heads p) t).0 (t ∷ lines p) (heads r) (lines r)
            pushed.outside (Apart-cons t (lines r) (lines p) (out r at) (w.apart r p at live n))
            (w.queue r at))
        (λ r at n. (
          Apart-append (lines p) (t ∷ []) (lines r) (w.apart p r live at (λ e. n (sym e)))
              (out r at, tt),
          Apart-snoc t (lines r) (lines p) (w.apart r p at live n) (out r at),
        ))

  -- Popping the first node of one of the lists; it is then in none.
  pub pop_node-Lines :
      (p : Place) (x : ℕ) (xs : List ℕ)
      → Lines opened l heads lines
      → Live opened p
      → lines p ≡ x ∷ xs
      → Lines opened
          (pop_node l (heads p)).0
          (put_at p (pop_node l (heads p)).1 heads)
          (put_at p xs lines)
        × Outside opened (put_at p xs lines) x
        × (heads p ≡ x)
        × (x ≢ 0)
  pop_node-Lines p x xs w live e =
      let q : IsQueue l (heads p) (x ∷ xs) = subst (IsQueue l (heads p)) e (w.queue p live) in
      let popped = pop_node-Popped l (heads p) x xs q in
      let mine : (r : Place) → Live opened r → r ≢ p → Apart (x ∷ xs) (lines r) =
        λ r at n. subst (λ ys. Apart ys (lines r)) e (w.apart p r live at (λ e'. n (sym e'))) in
      let theirs : (r : Place) → Live opened r → r ≢ p → Apart (lines r) (x ∷ xs) =
        λ r at n. subst (Apart (lines r)) e (w.apart r p at live n) in
      (
        Lines-put p (pop_node l (heads p)).0 (pop_node l (heads p)).1 xs w popped.queue
            (λ r at n.
              IsQueue-frame l (pop_node l (heads p)).0 xs (heads r) (lines r) popped.outside
                (Apart-drop x (lines r) xs (theirs r at n)) (w.queue r at))
            (λ r at n. ((mine r at n).1, Apart-drop x (lines r) xs (theirs r at n))),
        λ r at. elim (same-cases r p) [
          | inl (e', t) ↦ rw t q.distinct.0
          | inr (n, t) ↦ rw t (mine r at n).0
        ],
        q.first,
        λ z. q.nonnull.0 (sym z),
      )

-- The lists depend on their heads and nodes alone.
pub Lines-cong :
    {opened : ℕ → Bool} {l : Links} {heads heads' : Place → ℕ} {lines lines' : Place → List ℕ}
    → ((p : Place) → heads' p ≡ heads p)
    → ((p : Place) → lines' p ≡ lines p)
    → Lines opened l heads lines
    → Lines opened l heads' lines'
Lines-cong {opened} {l} {heads} {heads'} {lines} {lines'} e d w =
    subst (λ h. Lines opened l h lines') (sym (fun_ext e))
      (subst (Lines opened l heads) (sym (fun_ext d)) w)
