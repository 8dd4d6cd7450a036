-- ===== src/Printing/Decimal.antt =====
-- Reading back what `__print_u64` prints.
use kernel_riscv.Base.{
  Bool, true, ◌&&◌, leb, Option, some, none, lt_cases, ℕ, zero, suc, ◌+◌, ◌-◌, ◌*◌, ◌/◌, ◌%◌, ◌^◌,
  ◌≤◌, ◌<◌, ◌≡◌, ◌≢◌, refl, ◌∙◌, inl, inr, List, [], ◌∷◌, arith, eq_cases, eq→==, ne→==, ap, ◌==◌,
  if◌then◌else◌, ℤ, pos, negsuc, neg,
}
use native.Mathlib.Nat.{div-add-mod, mod-lt, div-eq_of_lt, div-lt_iff_lt-mul}
use mathlib.Core.Option
use kernel_riscv.Printing.{skip_zeros, put_digits, print_u64, magnitude, print_i32}

-- 10 ^ j by recursion
abbrev ten : ℕ → ℕ
ten zero = 1
ten (suc j) = 10 * ten j

abbrev pub is_digit : ℕ → Bool
is_digit c = leb b'0' c && leb c b'9'

-- The number that a text of decimal digits stands for, behind the digits of `acc`; other texts stand
-- for none.
unfoldable pub read_from : ℕ → List ℕ → Option ℕ
read_from acc [] = some acc
read_from acc (c ∷ cs) =
    let rest = read_from (10 * acc + (c - b'0')) cs in if is_digit c then rest else none

ten_pos : (j : ℕ) → 0 < ten j
ten_pos zero = omega arith
ten_pos (suc j) = omega (arith, ten_pos j)

put_digits-done : (fuel v : ℕ) → put_digits fuel v 0 ≡ []
unfolding put_digits
put_digits-done zero v = refl
put_digits-done (suc fuel) v = refl

is_digit-plus : (n : ℕ) → n < 10 → is_digit (b'0' + n) ≡ true
is_digit-plus n h = ground arith

read_from-put_digits :
    (j fuel v acc : ℕ)
    → j < fuel
    → v < ten (suc j)
    → read_from acc (put_digits fuel v (ten j)) ≡ some (acc * ten (suc j) + v)
unfolding read_from put_digits
read_from-put_digits j zero v acc h b = absurd (omega arith)
read_from-put_digits zero (suc fuel) v acc h b =
    rw (put_digits-done fuel (v % 1), is_digit-plus (v / 1) (omega arith))
      (ap {A = ℕ} some (omega arith))
read_from-put_digits (suc j) (suc fuel) v acc h b =
    rw
      (
        ne→== (ten (suc j)) 0 (omega (arith, ten_pos j)),
        tenth,
        is_digit-plus (v / ten (suc j)) digit,
      )
      (read_from-put_digits j fuel (v % ten (suc j)) (10 * acc + (b'0' + v / ten (suc j) - b'0'))
          (omega arith) (mod-lt v (ten_pos (suc j)))
        ∙ ap {A = ℕ} some regroup)
  where
    tenth : ten (suc j) / 10 ≡ ten j
    tenth = omega arith

    digit : v / ten (suc j) < 10
    digit = (div-lt_iff_lt-mul (ten_pos (suc j))).1 (omega (arith, b))

    regroup :
        (10 * acc + (b'0' + v / ten (suc j) - b'0')) * ten (suc j) + v % ten (suc j)
        ≡ acc * ten (suc (suc j)) + v
    regroup =
        let q : b'0' + v / ten (suc j) - b'0' ≡ v / ten (suc j) = omega arith in
        rw q (grind (arith, div-add-mod v (ten (suc j))))

lt_of_div_zero : (v m : ℕ) → 0 < m → v / m ≡ 0 → v < m
lt_of_div_zero v m p e = omega (arith, mod-lt v p, rw e at (div-add-mod v m))

-- Where the first loop stops: at the highest power of ten in `v`.
record Leading (top v m : ℕ) : Type 0 where
  exponent : ℕ
  is_power : m ≡ ten exponent
  below : v < ten (suc exponent)
  within : ten exponent ≤ v
  bound : exponent ≤ top

raise : {top v m : ℕ} → Leading top v m → Leading (suc top) v m
raise l = record {
  exponent = l.exponent;
  is_power = l.is_power;
  below = l.below;
  within = l.within;
  bound = omega (arith, l.bound);
}

ge_of_div : (v m : ℕ) → v / m ≢ 0 → m ≤ v
ge_of_div v m e = elim (lt_cases v m) [ inl h ↦ absurd (e (div-eq_of_lt h)) | inr h ↦ h ]

skip_zeros-Leading :
    (j fuel v : ℕ) → j ≤ fuel → 0 < v → v < ten (suc j) → Leading j v (skip_zeros fuel v (ten j))
unfolding skip_zeros
skip_zeros-Leading zero zero v h p b = record {
  exponent = 0;
  is_power = refl;
  below = b;
  within = p;
  bound = omega arith;
}
skip_zeros-Leading (suc j) zero v h p b = absurd (omega arith)
skip_zeros-Leading zero (suc fuel) v h p b =
    rw (ne→== (v / 1) 0 (omega arith))
      (record { exponent = 0; is_power = refl; below = b; within = p; bound = omega arith })
skip_zeros-Leading (suc j) (suc fuel) v h p b = elim (eq_cases (v / ten (suc j)) 0) [
  | inl e ↦ rw (eq→== _ _ e, tenth) (raise (skip_zeros-Leading j fuel v (omega arith) p (small e)))
  | inr e ↦ rw (ne→== _ _ e) (record {
    exponent = suc j;
    is_power = refl;
    below = b;
    within = large e;
    bound = omega arith;
  })
]
  where
    tenth : ten (suc j) / 10 ≡ ten j
    tenth = omega arith

    small : v / ten (suc j) ≡ 0 → v < ten (suc j)
    small e = lt_of_div_zero v (ten (suc j)) (ten_pos (suc j)) e

    large : v / ten (suc j) ≢ 0 → ten (suc j) ≤ v
    large e = ge_of_div v (ten (suc j)) e

read_from-Leading :
    {top v m : ℕ} (fuel : ℕ)
    → top < fuel
    → Leading top v m
    → read_from 0 (put_digits fuel v m) ≡ some v
read_from-Leading {v = v} fuel h lead = rw lead.is_power (
    read_from-put_digits lead.exponent fuel v 0 (omega (arith, lead.bound)) lead.below
    ∙ ap {A = ℕ} some (omega arith))

read_zero : read_from 0 (b'0' ∷ []) ≡ some 0
unfolding read_from
read_zero = refl

-- What is printed for a u64 consists of decimal digits, and reads back as it.
pub read_from-print_u64 : (v : ℕ) → v < 2 ^ 64 → read_from 0 (print_u64 v) ≡ some v
unfolding print_u64
read_from-print_u64 v h = elim (eq_cases v 0) [
  | inl e ↦ rw (eq→== v 0 e, e) read_zero
  | inr e ↦ rw (ne→== v 0 e) (
      read_from-Leading 20 (omega arith)
        (skip_zeros-Leading 19 20 v (omega arith) (omega arith) (omega arith)))
]

-- The number that a text stands for, which may begin with a minus sign.
unfoldable pub read_signed : List ℕ → Option ℤ
read_signed [] = none
read_signed (c ∷ cs) =
    if c == b'-'
    then Option.map (λ n. neg (pos n)) (read_from 0 cs)
    else Option.map pos (read_from 0 (c ∷ cs))

ten_digits : (v : ℕ) → 0 < v → v < 2 ^ 32 → Leading 9 v (skip_zeros 10 v (10 ^ 9))
ten_digits v p h = skip_zeros-Leading 9 10 v (omega arith) p (omega arith)

-- The first character is a digit, and no sign.
read_signed-put_digits :
    (fuel v m : ℕ)
    → Leading 9 v m
    → read_signed (put_digits (suc fuel) v m)
      ≡ Option.map pos (read_from 0 (put_digits (suc fuel) v m))
unfolding read_signed put_digits
read_signed-put_digits fuel v m lead =
    rw
      (
        lead.is_power,
        ne→== (ten lead.exponent) 0 (omega (arith, ten_pos lead.exponent)),
        ne→== (b'0' + v / ten lead.exponent) b'-' (omega arith),
      )
      refl

signed_zero : read_signed (b'0' ∷ []) ≡ some (pos 0)
unfolding read_signed read_from
signed_zero = refl

-- What `__print_i32` prints for an i32 but the least one reads back as it.
pub read_signed-print_i32 : (v : ℤ) → magnitude v < 2 ^ 31 → read_signed (print_i32 v) ≡ some v
unfolding print_i32 read_signed
read_signed-print_i32 (pos n) h = elim (eq_cases n 0) [
  | inl e ↦ rw (eq→== n 0 e, e) signed_zero
  | inr e ↦
      let lead = ten_digits n (omega arith) (omega arith) in
      rw (ne→== n 0 e) (
        read_signed-put_digits 9 n (skip_zeros 10 n (10 ^ 9)) lead
        ∙ ap (Option.map pos) (read_from-Leading 10 (omega arith) lead))
]
read_signed-print_i32 (negsuc n) h =
    ap (Option.map (λ z. neg (pos z)))
      (read_from-Leading 10 (omega arith) (ten_digits (suc n) (omega arith) (omega arith)))
