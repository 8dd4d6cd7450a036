-- ===== src/Printing.antt =====
-- The printers of src/kernel.c, as the characters that they hand to `__putc`, in order.
pub mod Decimal
pub mod Reports
pub mod Rings
pub mod Heap
pub mod Output
use Prim.Native.Char.{code}
use Prim.Native.String.{String}
use kernel_riscv.Base.{
  ℕ, zero, suc, ◌+◌, ◌-◌, ◌*◌, ◌/◌, ◌%◌, ◌^◌, ℤ, pos, negsuc, Bool, List, [], ◌∷◌, ◌++◌, ltb, ◌==◌,
  if◌then◌else◌,
}

-- The first loop of `__print_u64`: `mod` loses zeros until `var / mod` is not 0.
unfoldable pub skip_zeros : (fuel var m : ℕ) → ℕ
skip_zeros zero var m = m
skip_zeros (suc fuel) var m =
    let rest = skip_zeros fuel var (m / 10) in if var / m == 0 then rest else m

-- The second loop: a digit for each power of ten down to 1.
unfoldable pub put_digits : (fuel var m : ℕ) → List ℕ
put_digits zero var m = []
put_digits (suc fuel) var m =
    let rest = put_digits fuel (var % m) (m / 10) in if m == 0 then [] else (b'0' + var / m) ∷ rest

-- 10 ^ 19 has twenty powers of ten down to 1.
unfoldable pub print_u64 : ℕ → List ℕ
print_u64 var = if var == 0 then b'0' ∷ [] else put_digits 20 var (skip_zeros 20 var (10 ^ 19))

-- the value that an i32 has once its sign is gone; the least i32 keeps its bit pattern
abbrev pub magnitude : ℤ → ℕ
magnitude (pos n) = n
magnitude (negsuc n) = suc n

unfoldable pub print_i32 : ℤ → List ℕ
print_i32 (pos n) = if n == 0 then b'0' ∷ [] else put_digits 10 n (skip_zeros 10 n (10 ^ 9))
print_i32 (negsuc n) = b'-' ∷ put_digits 10 (suc n) (skip_zeros 10 (suc n) (10 ^ 9))

-- the table `hex`
unfoldable pub hex : ℕ → ℕ
hex d = if ltb d 10 then b'0' + d else b'A' + (d - 10)

-- The loop of `__print_h64` and `__print_h32`, whose rounds are fixed.
unfoldable pub put_hex : (rounds var m : ℕ) → List ℕ
put_hex zero var m = []
put_hex (suc rounds) var m =
    let rest = put_hex rounds (var % m) (m / 16) in if m == 0 then [] else hex (var / m) ∷ rest

unfoldable pub print_h64 : ℕ → List ℕ
print_h64 var = put_hex 16 var (2 ^ 60)

unfoldable pub print_h32 : ℕ → List ℕ
print_h32 var = put_hex 8 var (2 ^ 28)

-- The characters that a text literal stores: those of the text, and the one that ends it.
abbrev pub text : String → List ℕ
text String.[] = 0 ∷ []
text (String.◌∷◌ c s) = code c ∷ text s

-- The loop runs up to the character 0.
unfoldable pub print_str : List ℕ → List ℕ
print_str [] = []
print_str (c ∷ cs) = if c == 0 then [] else c ∷ print_str cs

unfoldable pub print_mem : (msg : List ℕ) → (mem : ℕ) → List ℕ
unfolding print_str
print_mem msg mem =
    print_str msg
    ++ (print_str (text ": ")
        ++ (print_u64 mem ++ (print_str (text " : ") ++ (print_h64 mem ++ (b'\n' ∷ [])))))
