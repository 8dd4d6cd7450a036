-- ===== src/Semaphores/Values.antt =====
-- A semaphore's value as a number, as long as it stays within an i32.
use kernel_riscv.Base.{
  ℕ, ◌-◌, ◌^◌, ◌≡◌, ◌≢◌, refl, ap, false, ℤ, pos, negsuc, ◌+ℤ◌, is_neg, greatest_i32, least_i32,
  ne→==,
}
use kernel_riscv.Kernel.{Kernel, set_sem}
use kernel_riscv.Semaphores.{up_i32, down_i32, raise_val, lower_val}

abbrev pub add_val : ℤ → ℕ → Kernel → Kernel
add_val d s k = set_sem s (record (k.sem_at s) { val = (k.sem_at s).val +ℤ d }) k

pub up_i32-add : (v : ℤ) → v ≢ greatest_i32 → up_i32 v ≡ v +ℤ pos 1
unfolding up_i32
up_i32-add (pos n) h = rw (ne→== n (2 ^ 31 - 1) (λ e. h (ap pos e))) refl
up_i32-add (negsuc n) h = refl

pub down_i32-add : (v : ℤ) → v ≢ least_i32 → down_i32 v ≡ v +ℤ negsuc 0
unfolding down_i32
down_i32-add (pos n) h = refl
down_i32-add (negsuc n) h = rw (ne→== n (2 ^ 31 - 1) (λ e. h (ap negsuc e))) refl

pub raise_val-add :
    (s : ℕ) (k : Kernel) → (k.sem_at s).val ≢ greatest_i32 → raise_val s k ≡ add_val (pos 1) s k
unfolding raise_val
raise_val-add s k h =
    ap (λ v. set_sem s (record (k.sem_at s) { val = v }) k) (up_i32-add (k.sem_at s).val h)

pub lower_val-add :
    (s : ℕ) (k : Kernel) → (k.sem_at s).val ≢ least_i32 → lower_val s k ≡ add_val (negsuc 0) s k
unfolding lower_val
lower_val-add s k h =
    ap (λ v. set_sem s (record (k.sem_at s) { val = v }) k) (down_i32-add (k.sem_at s).val h)

-- A value that a wait does not make negative is not the least.
pub passes_least : (v : ℤ) → is_neg (v +ℤ negsuc 0) ≡ false → v ≢ least_i32
passes_least (pos n) h e = cc
passes_least (negsuc n) h e = cc
