-- ===== src/Memory/Alloc/Writes.antt =====
-- The writes of `__mem_alloc`, and the runs that they leave.
use kernel_riscv.Base.{
  ℕ, ◌+◌, ◌-◌, ◌^◌, ◌≤◌, ◌<◌, ◌≡◌, ◌⊎◌, arith, pos, neg_ℕ, add64_lt, sub64_le, to_i32_lt,
  to_i32-neg64,
}
use kernel_riscv.Memory.{Words, set, split, take_all}
use kernel_riscv.Memory.Tiles.{Block}

-- The two writing branches, where nothing wraps.
pub split_lem :
    (w : Words) (i f nb : ℕ)
    → 0 < nb
    → nb < f
    → i + f < 2 ^ 31
    → split w i f nb
      ≡ set
          (set
            (set (set w (i + f - 1) (neg_ℕ (f - nb))) (i + nb) (neg_ℕ (f - nb)))
            (i + nb - 1)
            (pos nb))
          i
          (pos nb)
unfolding split
split_lem w i f nb p q b = rw (
  add64_lt i f (omega arith),
  add64_lt i nb (omega arith),
  sub64_le (i + f) 1 (omega arith) (omega arith),
  sub64_le (i + nb) 1 (omega arith) (omega arith),
  sub64_le f nb (omega arith) (omega arith),
  to_i32-neg64 (f - nb) (omega arith),
  to_i32_lt nb (omega arith),
)

take_all_lem :
    (w : Words) (i nb : ℕ)
    → 0 < nb
    → i + nb < 2 ^ 31
    → take_all w i nb ≡ set (set w i (pos nb)) (i + nb - 1) (pos nb)
unfolding take_all
take_all_lem w i nb p b = rw (
  add64_lt i nb (omega arith),
  sub64_le (i + nb) 1 (omega arith) (omega arith),
  to_i32_lt nb (omega arith),
)

pub split-taken :
    (w : Words) (i f nb : ℕ)
    → 0 < nb
    → nb < f
    → i + f < 2 ^ 31
    → Block w i f (neg_ℕ f)
    → Block (split w i f nb) i nb (pos nb)
split-taken w i f nb p q b o = rw (split_lem w i f nb p q b) (record {
  nonempty = p;
  first = ground arith;
  last = ground arith;
  inner = λ x h k. ground (arith, o.inner x (omega arith) (omega arith));
})

pub split-left :
    (w : Words) (i f nb : ℕ)
    → 0 < nb
    → nb < f
    → i + f < 2 ^ 31
    → Block w i f (neg_ℕ f)
    → Block (split w i f nb) (i + nb) (f - nb) (neg_ℕ (f - nb))
split-left w i f nb p q b o = rw (split_lem w i f nb p q b) (record {
  nonempty = omega arith;
  first = ground arith;
  last = ground arith;
  inner = λ x h k. ground (arith, o.inner x (omega arith) (omega arith));
})

pub split-outside :
    (w : Words) (i f nb x : ℕ)
    → 0 < nb
    → nb < f
    → i + f < 2 ^ 31
    → (x < i) ⊎ (i + f ≤ x)
    → split w i f nb x ≡ w x
split-outside w i f nb x p q b out = rw (split_lem w i f nb p q b) (ground arith)

pub take_all-taken :
    (w : Words) (i nb : ℕ)
    → 0 < nb
    → i + nb < 2 ^ 31
    → Block w i nb (neg_ℕ nb)
    → Block (take_all w i nb) i nb (pos nb)
take_all-taken w i nb p b o = rw (take_all_lem w i nb p b) (record {
  nonempty = p;
  first = ground arith;
  last = ground arith;
  inner = λ x h k. ground (arith, o.inner x (omega arith) (omega arith));
})

pub take_all-outside :
    (w : Words) (i nb x : ℕ)
    → 0 < nb
    → i + nb < 2 ^ 31
    → (x < i) ⊎ (i + nb ≤ x)
    → take_all w i nb x ≡ w x
take_all-outside w i nb x p b out = rw (take_all_lem w i nb p b) (ground arith)
