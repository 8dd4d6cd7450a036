-- ===== src/Base/Wrap.antt =====
-- Where the machine arithmetic of mem.c does not wrap.
use Prim.Native.Nat.{ℕ, zero, suc, ◌+◌, ◌-◌, ◌^◌, ◌<◌, ◌≤◌}
use mathlib.Core.Path.{◌≡◌, refl}
use mathlib.Core.Bool.{true, false}
use native.Mathlib.Omega.{arith}
use kernel_riscv.Base.Int.{
  pos, is_pos, is_neg, is_zero, neg_ℕ, neg, ◌-ℤ◌, to_u64, to_i32, add64, sub64, neg64, eq_int?, ℤ,
}

pub add64_lt : (a b : ℕ) → a + b < 2 ^ 64 → add64 a b ≡ a + b
add64_lt a b h = omega arith

pub sub64_le : (a b : ℕ) → b ≤ a → a < 2 ^ 64 → sub64 a b ≡ a - b
sub64_le a b h k = omega arith

pub to_i32_lt : (n : ℕ) → n < 2 ^ 31 → to_i32 n ≡ pos n
to_i32_lt n h = ground arith

pub to_i32-neg64 : (n : ℕ) → n < 2 ^ 31 → to_i32 (neg64 n) ≡ neg_ℕ n
to_i32-neg64 zero h = refl
to_i32-neg64 (suc n) h = ground arith

pub to_u64-pos : (n : ℕ) → n < 2 ^ 64 → to_u64 (pos n) ≡ n
to_u64-pos n h = omega arith

pub is_pos-pos : (n : ℕ) → 0 < n → is_pos (pos n) ≡ true
is_pos-pos n h = ground arith

pub is_zero-pos : (n : ℕ) → 0 < n → is_zero (pos n) ≡ false
is_zero-pos n h = ground arith

pub is_pos-neg_ℕ : (n : ℕ) → is_pos (neg_ℕ n) ≡ false
is_pos-neg_ℕ zero = refl
is_pos-neg_ℕ (suc n) = refl

pub is_neg-neg_ℕ : (n : ℕ) → 0 < n → is_neg (neg_ℕ n) ≡ true
is_neg-neg_ℕ zero h = elim h [ ]
is_neg-neg_ℕ (suc n) h = refl

pub is_zero-neg_ℕ : (n : ℕ) → 0 < n → is_zero (neg_ℕ n) ≡ false
is_zero-neg_ℕ zero h = elim h [ ]
is_zero-neg_ℕ (suc n) h = refl

pub neg-neg_ℕ : (n : ℕ) → neg (neg_ℕ n) ≡ pos n
neg-neg_ℕ zero = refl
neg-neg_ℕ (suc n) = refl

-- Adding a negative size moves back by it.
pub add64-neg_ℕ : (a n : ℕ) → n ≤ a → a < 2 ^ 63 → add64 a (to_u64 (neg_ℕ n)) ≡ a - n
add64-neg_ℕ a zero h k = omega arith
add64-neg_ℕ a (suc n) h k = omega arith

pub pos-minus-neg_ℕ : (a n : ℕ) → pos a -ℤ neg_ℕ n ≡ pos (a + n)
pos-minus-neg_ℕ a zero = ground arith
pos-minus-neg_ℕ a (suc n) = refl

pub eq_int?_refl : (a : ℤ) → eq_int? a a ≡ true
eq_int?_refl (pos n) = ground arith
eq_int?_refl (ℤ.negsuc n) = ground arith
