-- ===== src/Memory/Segments/Undo.antt =====
-- Freeing what first fit has just placed gives the runs back, if no two free runs are neighbours.
use kernel_riscv.Base.{
  ℕ, ◌+◌, ◌-◌, ◌<◌, ◌≡◌, refl, ◌∙◌, ap, sym, subst, inl, inr, Bool, true, false, List, [], ◌∷◌,
  ◌++◌, Option, some, arith, lt_cases, eq_cases, lt→ltb, le→ltb, eq→==, ne→==,
}
use kernel_riscv.Memory.Segments.{
  Seg, used, free, total, first_fit, join_right, release, IsCoalesced, starts_free,
}
use kernel_riscv.Memory.Segments.Placement.{keep-eq_some, some-inj}

join_right-alone : (k : ℕ) (ss : List Seg) → starts_free ss ≡ false → join_right k ss ≡ free k ∷ ss
unfolding join_right
join_right-alone k [] e = refl
join_right-alone k (used q ∷ ss) e = refl
join_right-alone k (free q ∷ ss) e = cc

release-used :
    (p k : ℕ) (pre post : List Seg) → release (used p ∷ pre) k post ≡ used p ∷ release pre k post
unfolding release
release-used p k [] post = refl
release-used p k (s ∷ pre) post = refl

-- The allocation of `nb` blocks at `j` can be found in `ss'`, and its release is `ss`.
pub record Undo (nb i : ℕ) (ss : List Seg) (j : ℕ) (ss' : List Seg) : Type 0 where
  pub pre : List Seg
  pub post : List Seg
  pub found : ss' ≡ pre ++ used nb ∷ post
  pub at : j ≡ i + total pre
  pub undone : release pre nb post ≡ ss
  pub front : pre ≡ [] → starts_free ss ≡ true
  pub coalesced : IsCoalesced ss'
  pub same_front : starts_free ss' ≡ true → starts_free ss ≡ true

Undo-split :
    (nb k i : ℕ) (ss : List Seg)
    → nb < k
    → IsCoalesced (free k ∷ ss)
    → Undo nb i (free k ∷ ss) i (used nb ∷ free (k - nb) ∷ ss)
unfolding release
Undo-split nb k i ss h c = record {
  pre = [];
  post = free (k - nb) ∷ ss;
  found = refl;
  at = omega arith;
  undone = ap (λ x. free x ∷ ss) (omega arith);
  front = λ _. refl;
  coalesced = c;
  same_front = λ e. cc;
}

Undo-take_all :
    (nb i : ℕ) (ss : List Seg)
    → IsCoalesced (free nb ∷ ss)
    → Undo nb i (free nb ∷ ss) i (used nb ∷ ss)
unfolding release
Undo-take_all nb i ss c = record {
  pre = [];
  post = ss;
  found = refl;
  at = omega arith;
  undone = join_right-alone nb ss c.0;
  front = λ _. refl;
  coalesced = c.1;
  same_front = λ e. cc;
}

Undo-used :
    {nb i j k : ℕ} {ss ss' : List Seg}
    → Undo nb (i + k) ss j ss'
    → Undo nb i (used k ∷ ss) j (used k ∷ ss')
Undo-used {nb} {i} {j} {k} u = record {
  pre = used k ∷ u.pre;
  post = u.post;
  found = ap (λ x. used k ∷ x) u.found;
  at = omega (arith, u.at);
  undone = release-used k nb u.pre u.post ∙ ap (λ x. used k ∷ x) u.undone;
  front = λ e. cc;
  coalesced = u.coalesced;
  same_front = λ e. cc;
}

release-free :
    (nb k : ℕ) (pre post ss : List Seg)
    → release pre nb post ≡ ss
    → (pre ≡ [] → starts_free ss ≡ true)
    → starts_free ss ≡ false
    → release (free k ∷ pre) nb post ≡ free k ∷ ss
unfolding release
release-free nb k [] post ss e f c = let f' = f refl in cc
release-free nb k (s ∷ pre) post ss e f c = ap (λ x. free k ∷ x) e

not_starts_free : (b b' : Bool) → (b' ≡ true → b ≡ true) → b ≡ false → b' ≡ false
not_starts_free b true h e = let h' = h refl in cc
not_starts_free b false h e = refl

Undo-free :
    {nb i j k : ℕ} {ss ss' : List Seg}
    → Undo nb (i + k) ss j ss'
    → starts_free ss ≡ false
    → Undo nb i (free k ∷ ss) j (free k ∷ ss')
Undo-free {nb} {i} {j} {k} {ss} {ss'} u c = record {
  pre = free k ∷ u.pre;
  post = u.post;
  found = ap (λ x. free k ∷ x) u.found;
  at = omega (arith, u.at);
  undone = release-free nb k u.pre u.post ss u.undone u.front c;
  front = λ e. refl;
  coalesced = (not_starts_free (starts_free ss) (starts_free ss') u.same_front c, u.coalesced);
  same_front = λ e. refl;
}

Undo-here :
    {nb i i' j : ℕ} {ss rs ss' : List Seg}
    → Undo nb i ss i' rs
    → ◌≡◌ {A = Option (ℕ × List Seg)} (some (i', rs)) (some (j, ss'))
    → Undo nb i ss j ss'
Undo-here {nb} {i} {ss} u e = subst (λ (x : ℕ × List Seg). Undo nb i ss x.0 x.1) (some-inj e) u

pub first_fit-Undo :
    (nb i : ℕ) (ss : List Seg) {j : ℕ} {ss' : List Seg}
    → IsCoalesced ss
    → first_fit nb i ss ≡ some (j, ss')
    → Undo nb i ss j ss'
unfolding first_fit
first_fit-Undo nb i [] c e = cc
first_fit-Undo nb i (used k ∷ ss) c e =
    let (ss'', e', eq) = keep-eq_some (used k) (first_fit nb (i + k) ss) e in
    rw eq (Undo-used (first_fit-Undo nb (i + k) ss c e'))
first_fit-Undo nb i (free k ∷ ss) c e = elim (lt_cases nb k) [
  | inl q ↦ Undo-here (Undo-split nb k i ss q c) (rw (lt→ltb nb k q) at e)
  | inr q ↦ elim (eq_cases k nb) [
    | inl q' ↦
        Undo-here
          (subst (λ x. Undo nb i (free x ∷ ss) i (used nb ∷ ss)) (sym q')
            (Undo-take_all nb i ss (subst (λ x. IsCoalesced (free x ∷ ss)) q' c)))
          (rw (le→ltb nb k q, eq→== k nb q') at e)
    | inr q' ↦
        let (ss'', e', eq) =
          keep-eq_some (free k) (first_fit nb (i + k) ss)
            (rw (le→ltb nb k q, ne→== k nb q') at e) in
        rw eq (Undo-free (first_fit-Undo nb (i + k) ss c.1 e') c.0)
  ]
]
