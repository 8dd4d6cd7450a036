-- ===== src/Memory/Tiles.antt =====
-- When the index words represent the runs of the abstract view.
use kernel_riscv.Base.{
  ℕ, ◌+◌, ◌-◌, ◌^◌, ◌≤◌, ◌<◌, ◌≡◌, ◌∙◌, List, [], ◌∷◌, ◌++◌, subst, lt_cases, eq_cases, ◌⊎◌, inl,
  inr, false, is_pos, is_pos-neg_ℕ, arith, ℤ, pos, neg_ℕ,
}
use kernel_riscv.Memory.{Words, Mem}
use kernel_riscv.Memory.Segments.{Seg, used, free, size, total}

abbrev pub tag : Seg → ℤ
tag (used k) = pos k
tag (free k) = neg_ℕ k

-- A run of `k` blocks from entry `i` on: its two ends hold `t`, and what is between them is 0.
pub record Block (w : Words) (i k : ℕ) (t : ℤ) : Type 0 where
  pub nonempty : 0 < k
  pub first : w i ≡ t
  pub last : w (i + k - 1) ≡ t
  pub inner : (x : ℕ) → i < x → x < i + k - 1 → w x ≡ pos 0

abbrev pub Tiles : Words → ℕ → List Seg → Type 0
Tiles w i [] = Unit
Tiles w i (s ∷ ss) = Block w i (size s) (tag s) × Tiles w (i + size s) ss

-- The runs fill the heap, whose block count fits an i32.
pub record IsHeap (m : Mem) (ss : List Seg) : Type 0 where
  pub tiles : Tiles m.mem_index 0 ss
  pub filled : total ss ≡ m.n_mem_blocks
  pub nonempty : 0 < m.n_mem_blocks
  pub small : m.n_mem_blocks < 2 ^ 31

-- `w'` agrees with `w` on the entries from `lo` up to `hi`.
abbrev pub Same : (lo hi : ℕ) → Words → Words → Type 0
Same lo hi w w' = (x : ℕ) → lo ≤ x → x < hi → w' x ≡ w x

pub Block-frame :
    {w w' : Words} (i k : ℕ) {t : ℤ} → Block w i k t → Same i (i + k) w w' → Block w' i k t
Block-frame i k b same = record {
  nonempty = b.nonempty;
  first = same i (omega arith) (omega (arith, b.nonempty)) ∙ b.first;
  last = same (i + k - 1) (omega (arith, b.nonempty)) (omega (arith, b.nonempty)) ∙ b.last;
  inner = λ x h k. same x (omega arith) (omega arith) ∙ b.inner x h k;
}

pub Tiles-frame :
    {w w' : Words} (i : ℕ) (ss : List Seg)
    → Tiles w i ss
    → Same i (i + total ss) w w'
    → Tiles w' i ss
Tiles-frame i [] t same = tt
Tiles-frame i (s ∷ ss) (b, t) same = (
  Block-frame i (size s) b (λ x h k. same x h (omega arith)),
  Tiles-frame (i + size s) ss t (λ x h k. same x (omega arith) (omega arith)),
)

pub Tiles-append :
    (w : Words) (i : ℕ) (pre ss : List Seg) → Tiles w i (pre ++ ss) → Tiles w (i + total pre) ss
Tiles-append w i [] ss t = subst (λ x. Tiles w x ss) (omega arith) t
Tiles-append w i (r ∷ pre) ss (b, t) =
    subst (λ x. Tiles w x ss) (omega arith) (Tiles-append w (i + size r) pre ss t)

pub Tiles-at :
    {w : Words} (i : ℕ) (pre : List Seg) (s : Seg) (post : List Seg)
    → Tiles w i (pre ++ s ∷ post)
    → Block w (i + total pre) (size s) (tag s)
Tiles-at {w} i pre s post t = (Tiles-append w i pre (s ∷ post) t).0

Block-unique : {w v : Words} (i k : ℕ) {t : ℤ} → Block w i k t → Block v i k t → Same i (i + k) w v
Block-unique i k b c x h r =
    ground (arith, b.first, b.last, c.first, c.last, b.inner x, c.inner x, b.nonempty)

-- The runs determine the index.
pub Tiles-unique :
    (w v : Words) (i : ℕ) (ss : List Seg) → Tiles w i ss → Tiles v i ss → Same i (i + total ss) w v
Tiles-unique w v i [] t u x h r = absurd (omega arith)
Tiles-unique w v i (s ∷ ss) (b, t) (c, u) x h r = elim (lt_cases x (i + size s)) [
  | inl q ↦ Block-unique i (size s) b c x h q
  | inr q ↦ Tiles-unique w v (i + size s) ss t u x q (omega arith)
]

-- Block `x` is in a free run, or in one in use and at neither end of it.
abbrev pub Interior : (x i : ℕ) → List Seg → Type 0
Interior x i [] = ⊥
Interior x i (used k ∷ ss) = ((i < x) × (x < i + k - 1)) ⊎ Interior x (i + k) ss
Interior x i (free k ∷ ss) = ((i ≤ x) × (x < i + k)) ⊎ Interior x (i + k) ss

free-not_pos :
    (w : Words) (i k x : ℕ) → Block w i k (neg_ℕ k) → i ≤ x → x < i + k → is_pos (w x) ≡ false
free-not_pos w i k x b h q = elim (eq_cases x i) [
  | inl e ↦ rw (e, b.first) (is_pos-neg_ℕ k)
  | inr e ↦ elim (eq_cases x (i + k - 1)) [
    | inl e' ↦ rw (e', b.last) (is_pos-neg_ℕ k)
    | inr e' ↦ rw (b.inner x (omega arith) (omega arith))
  ]
]

pub Interior-not_pos :
    (w : Words) (x i : ℕ) (ss : List Seg)
    → Tiles w i ss
    → Interior x i ss
    → (is_pos (w x) ≡ false) × (x < i + total ss)
Interior-not_pos w x i [] t u = elim u [ ]
Interior-not_pos w x i (used k ∷ ss) (b, t) (inl u) = (rw (b.inner x u.0 u.1), omega arith)
Interior-not_pos w x i (used k ∷ ss) (b, t) (inr u) =
    let r = Interior-not_pos w x (i + k) ss t u in (r.0, omega (arith, r.1))
Interior-not_pos w x i (free k ∷ ss) (b, t) (inl u) = (free-not_pos w i k x b u.0 u.1, omega arith)
Interior-not_pos w x i (free k ∷ ss) (b, t) (inr u) =
    let r = Interior-not_pos w x (i + k) ss t u in (r.0, omega (arith, r.1))
