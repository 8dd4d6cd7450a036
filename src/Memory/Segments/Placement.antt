-- ===== src/Memory/Segments/Placement.antt =====
-- Where first fit puts an allocation: inside one free run, apart from all that is in use.
use kernel_riscv.Base.{
  ℕ, ◌+◌, ◌-◌, ◌≤◌, ◌<◌, ◌≡◌, refl, sym, subst, some-ne-none, ◌⊎◌, inl, inr, List, [], ◌∷◌, Option,
  none, some, arith, lt_cases, eq_cases, lt→ltb, le→ltb, eq→==, ne→==,
}
use kernel_riscv.Memory.Segments.{Seg, used, free, total, keep, first_fit}

pub keep-eq_some :
    (s : Seg) (o : Option (ℕ × List Seg)) {j : ℕ} {ss : List Seg}
    → keep s o ≡ some (j, ss)
    → (ss' : List Seg) × (o ≡ some (j, ss')) × (ss ≡ s ∷ ss')
keep-eq_some s none e = cc
keep-eq_some s (some (j', ss')) e = (ss', cc, cc)

pub keep-eq_none : (s : Seg) (o : Option (ℕ × List Seg)) → keep s o ≡ none → o ≡ none
keep-eq_none s none e = refl
keep-eq_none s (some (j, ss)) e = cc

-- First fit passes a free run only if it is too small.
pub first_fit-free_none :
    (nb i k : ℕ) (ss : List Seg)
    → first_fit nb i (free k ∷ ss) ≡ none
    → (k < nb) × (first_fit nb (i + k) ss ≡ none)
unfolding first_fit
first_fit-free_none nb i k ss e = elim (lt_cases nb k) [
  | inl q ↦ absurd (some-ne-none {a = (i, used nb ∷ free (k - nb) ∷ ss)} (rw (lt→ltb nb k q) at e))
  | inr q ↦ elim (eq_cases k nb) [
    | inl q' ↦
        absurd (some-ne-none {a = (i, used nb ∷ ss)} (rw (le→ltb nb k q, eq→== k nb q') at e))
    | inr q' ↦ (
      omega arith,
      keep-eq_none (free k) (first_fit nb (i + k) ss) (rw (le→ltb nb k q, ne→== k nb q') at e),
    )
  ]
]

pub some-inj {ℓ} : {A : Type ℓ} {a b : A} → ◌≡◌ {A = Option A} (some a) (some b) → a ≡ b
some-inj e = cc

-- Of the runs `ss` from block `i` on, one in use starts at block `j` and has `k` blocks.
abbrev pub UsedAt : (j k i : ℕ) → List Seg → Type 0
UsedAt j k i [] = ⊥
UsedAt j k i (used k' ∷ ss) = ((j ≡ i) × (k ≡ k')) ⊎ UsedAt j k (i + k') ss
UsedAt j k i (free k' ∷ ss) = UsedAt j k (i + k') ss

-- The outcome `(j, ss')` of placing `nb` blocks in the runs `ss` from block `i` on.
pub record Placed (nb i : ℕ) (ss : List Seg) (j : ℕ) (ss' : List Seg) : Type 0 where
  pub taken : UsedAt j nb i ss'
  pub inside : (i ≤ j) × (j + nb ≤ i + total ss)
  pub kept : (x k : ℕ) → UsedAt x k i ss → UsedAt x k i ss'
  pub apart : (x k : ℕ) → UsedAt x k i ss → (x + k ≤ j) ⊎ (j + nb ≤ x)
  pub only : (x k : ℕ) → UsedAt x k i ss' → UsedAt x k i ss ⊎ ((x ≡ j) × (k ≡ nb))
  pub filled : total ss' ≡ total ss

UsedAt-le : (x k i : ℕ) (ss : List Seg) → UsedAt x k i ss → (i ≤ x) × (x + k ≤ i + total ss)
UsedAt-le x k i [] u = elim u [ ]
UsedAt-le x k i (used k' ∷ ss) (inl u) = omega arith
UsedAt-le x k i (used k' ∷ ss) (inr u) = omega (arith, UsedAt-le x k (i + k') ss u)
UsedAt-le x k i (free k' ∷ ss) u = omega (arith, UsedAt-le x k (i + k') ss u)

Placed-used :
    {nb i j k' : ℕ} {ss ss' : List Seg}
    → Placed nb (i + k') ss j ss'
    → Placed nb i (used k' ∷ ss) j (used k' ∷ ss')
Placed-used {nb} {i} {j} {k'} {ss} {ss'} p = record {
  taken = inr p.taken;
  inside = omega (arith, p.inside.0, p.inside.1);
  kept = λ x k u. elim u [ inl h ↦ inl h | inr h ↦ inr (p.kept x k h) ];
  apart = λ x k u. elim u [ inl h ↦ inl (omega (arith, p.inside.0)) | inr h ↦ p.apart x k h ];
  only = λ x k u. elim u [
    | inl h ↦ inl (inl h)
    | inr h ↦ elim (p.only x k h) [ inl h' ↦ inl (inr h') | inr h' ↦ inr h' ]
  ];
  filled = omega (arith, p.filled);
}

Placed-free :
    {nb i j k' : ℕ} {ss ss' : List Seg}
    → Placed nb (i + k') ss j ss'
    → Placed nb i (free k' ∷ ss) j (free k' ∷ ss')
Placed-free p = record {
  taken = p.taken;
  inside = omega (arith, p.inside.0, p.inside.1);
  kept = p.kept;
  apart = p.apart;
  only = p.only;
  filled = omega (arith, p.filled);
}

Placed-take_all : (nb i : ℕ) (ss : List Seg) → Placed nb i (free nb ∷ ss) i (used nb ∷ ss)
Placed-take_all nb i ss = record {
  taken = inl (refl, refl);
  inside = omega arith;
  kept = λ x k u. inr u;
  apart = λ x k u. inr (UsedAt-le x k (i + nb) ss u).0;
  only = λ x k u. elim u [ inl h ↦ inr h | inr h ↦ inl h ];
  filled = refl;
}

Placed-split :
    (nb k' i : ℕ) (ss : List Seg)
    → nb < k'
    → Placed nb i (free k' ∷ ss) i (used nb ∷ free (k' - nb) ∷ ss)
Placed-split nb k' i ss h = record {
  taken = inl (refl, refl);
  inside = omega arith;
  kept = λ x k u. inr (subst (λ y. UsedAt x k y ss) (omega arith) u);
  apart = λ x k u. inr (omega (arith, UsedAt-le x k (i + k') ss u));
  only = λ x k u. elim u [
    | inl e ↦ inr e
    | inr e ↦ inl (subst (λ y. UsedAt x k y ss) (omega arith) e)
  ];
  filled = omega arith;
}

-- First fit ends at this run, or goes on behind it.
first_fit-free_cases :
    (nb i k : ℕ) (ss : List Seg) {j : ℕ} {ss' : List Seg}
    → first_fit nb i (free k ∷ ss) ≡ some (j, ss')
    → Placed nb i (free k ∷ ss) j ss'
      ⊎ ((k < nb) × (keep (free k) (first_fit nb (i + k) ss) ≡ some (j, ss')))
unfolding first_fit
first_fit-free_cases nb i k ss {j} {ss'} e = elim (lt_cases nb k) [
  | inl q ↦ inl (
      subst (λ (x : ℕ × List Seg). Placed nb i (free k ∷ ss) x.0 x.1)
        (some-inj (rw (lt→ltb nb k q) at e)) (Placed-split nb k i ss q))
  | inr q ↦ elim (eq_cases k nb) [
    | inl q' ↦ inl (
        subst (λ (x : ℕ × List Seg). Placed nb i (free k ∷ ss) x.0 x.1)
          (some-inj (rw (le→ltb nb k q, eq→== k nb q') at e))
          (subst (λ y. Placed nb i (free y ∷ ss) i (used nb ∷ ss)) (sym q')
            (Placed-take_all nb i ss)))
    | inr q' ↦ inr (omega arith, rw (le→ltb nb k q, ne→== k nb q') at e)
  ]
]

-- Where first fit finds room, the allocation lies in what was free, nothing in use is moved or
-- overlapped, and nothing else comes into use.
pub first_fit-Placed :
    (nb i : ℕ) (ss : List Seg) {j : ℕ} {ss' : List Seg}
    → first_fit nb i ss ≡ some (j, ss')
    → Placed nb i ss j ss'
unfolding first_fit
first_fit-Placed nb i [] e = cc
first_fit-Placed nb i (used k ∷ ss) e =
    let (ss'', e', eq) = keep-eq_some (used k) (first_fit nb (i + k) ss) e in
    rw eq (Placed-used (first_fit-Placed nb (i + k) ss e'))
first_fit-Placed nb i (free k ∷ ss) e = elim (first_fit-free_cases nb i k ss e) [
  | inl p ↦ p
  | inr (q, e') ↦
      let (ss'', e'', eq) = keep-eq_some (free k) (first_fit nb (i + k) ss) e' in
      rw eq (Placed-free (first_fit-Placed nb (i + k) ss e''))
]

-- a free run of `k` blocks is among `ss`
abbrev pub FreeIn : ℕ → List Seg → Type 0
FreeIn k [] = ⊥
FreeIn k (used k' ∷ ss) = FreeIn k ss
FreeIn k (free k' ∷ ss) = (k ≡ k') ⊎ FreeIn k ss

-- First fit fails only if every free run is too small.
pub first_fit-none :
    (nb i : ℕ) (ss : List Seg) → first_fit nb i ss ≡ none → (k : ℕ) → FreeIn k ss → k < nb
unfolding first_fit
first_fit-none nb i [] e k f = elim f [ ]
first_fit-none nb i (used k' ∷ ss) e k f =
    first_fit-none nb (i + k') ss (keep-eq_none (used k') (first_fit nb (i + k') ss) e) k f
first_fit-none nb i (free k' ∷ ss) e k (inl f) = omega (arith, (first_fit-free_none nb i k' ss e).0)
first_fit-none nb i (free k' ∷ ss) e k (inr f) =
    first_fit-none nb (i + k') ss (first_fit-free_none nb i k' ss e).1 k f
