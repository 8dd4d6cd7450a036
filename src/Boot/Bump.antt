-- ===== src/Boot/Bump.antt =====
-- The allocator while nothing has been freed: each allocation starts where the last one ends.
use kernel_riscv.Base.{ℕ, ◌+◌, ◌-◌, ◌<◌, ◌≡◌, ◌∙◌, ap, List, [], ◌∷◌, ◌++◌, some, arith, lt→ltb}
use kernel_riscv.Memory.{Layout, Mem}
use kernel_riscv.Memory.Segments.{Seg, used, free, first_fit}
use kernel_riscv.Memory.Tiles.{IsHeap}
use kernel_riscv.Memory.Contract.{Allocates, mem_alloc-first_fit}

-- allocations of the given sizes, and `f` free blocks behind them
abbrev pub runs : List ℕ → ℕ → List Seg
runs [] f = free f ∷ []
runs (n ∷ ns) f = used n ∷ runs ns f

abbrev pub sum : List ℕ → ℕ
sum [] = 0
sum (n ∷ ns) = n + sum ns

first_fit-runs :
    (n f i : ℕ) (ns : List ℕ)
    → n < f
    → first_fit n i (runs ns f) ≡ some (i + sum ns, runs (ns ++ (n ∷ [])) (f - n))
unfolding first_fit
first_fit-runs n f i [] h =
    rw (lt→ltb n f h) (ap {A = ℕ} (λ z. some (z, used n ∷ free (f - n) ∷ [])) (omega arith))
first_fit-runs n f i (m ∷ ns) h =
    rw (first_fit-runs n f (i + m) ns h)
      (ap {A = ℕ} (λ z. some (z, used m ∷ runs (ns ++ (n ∷ [])) (f - n))) (omega arith))

-- The next allocation starts behind the others.
pub mem_alloc-runs :
    (l : Layout) (m : Mem) (n f : ℕ) (ns : List ℕ)
    → IsHeap m (runs ns f)
    → 0 < n
    → n < f
    → Allocates l m n (sum ns) (runs ns f) (runs (ns ++ (n ∷ [])) (f - n))
mem_alloc-runs l m n f ns h p q = mem_alloc-first_fit l m n h p (
    first_fit-runs n f 0 ns q
    ∙ ap {A = ℕ} (λ z. some (z, runs (ns ++ (n ∷ [])) (f - n))) (omega arith))
