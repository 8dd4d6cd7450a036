-- ===== src/Printing/Heap.antt =====
-- The report of `__mem_print`, src/mem.c, on a heap that represents runs.
use kernel_riscv.Base.{
  ℕ, zero, suc, ◌+◌, ◌-◌, ◌≤◌, ◌<◌, ◌≡◌, refl, ◌∙◌, ap, sym, List, [], ◌∷◌, ◌++◌, arith, ℤ, pos,
  is_zero, false, if◌then◌else◌, ltb, lt→ltb,
}
use mathlib.Core.List.{append_assoc, append-nil}
use kernel_riscv.Memory.{Words, Mem}
use kernel_riscv.Memory.Segments.{Seg, used, free, size, total}
use kernel_riscv.Memory.Tiles.{Block, Tiles, IsHeap, tag}
use kernel_riscv.Printing.{text, print_str, print_i32}
use kernel_riscv.Printing.Reports.{print_entries, mem_print}

-- how an entry is written
unfoldable pub word : ℤ → List ℕ
word v = print_i32 v ++ print_str (text " ")

-- A run has an entry at either end, and the other ones of it are 0.
unfoldable pub run_report : Seg → List ℕ
run_report s = if ltb 1 (size s) then word (tag s) ++ word (tag s) else word (tag s)

unfoldable pub runs_report : List Seg → List ℕ
runs_report [] = []
runs_report (s ∷ ss) = run_report s ++ runs_report ss

print_entries-append :
    (n m i : ℕ) (w : Words)
    → print_entries (n + m) i w ≡ print_entries n i w ++ print_entries m (n + i) w
unfolding print_entries
print_entries-append zero m i w =
    let e : 0 + m ≡ m = omega arith in let d : 0 + i ≡ i = omega arith in rw (e, d) refl
print_entries-append (suc n) m i w =
    let e : suc n + m ≡ suc (n + m) = omega arith in
    let d : suc n + i ≡ n + suc i = omega arith in
    rw (e, d, print_entries-append n m (suc i) w)
      (sym (append_assoc _ (print_entries n (suc i) w) (print_entries m (n + suc i) w)))

-- Entries that are 0 are passed over.
print_entries-zeros :
    (n i : ℕ) (w : Words) → ((x : ℕ) → i ≤ x → x < i + n → w x ≡ pos 0) → print_entries n i w ≡ []
unfolding print_entries
print_entries-zeros zero i w z = refl
print_entries-zeros (suc n) i w z =
    rw
      (
        z i (omega arith) (omega arith),
        print_entries-zeros n (suc i) w (λ x h b. z x (omega arith) (omega arith)),
      )
      refl

print_entries-one :
    (i : ℕ) (w : Words) (v : ℤ) → w i ≡ v → is_zero v ≡ false → print_entries 1 i w ≡ word v
unfolding print_entries word
print_entries-one i w v e z = rw (e, z) (append-nil (print_i32 v ++ print_str (text " ")))

tag-nonzero : (s : Seg) → 0 < size s → is_zero (tag s) ≡ false
tag-nonzero (used (suc k)) h = ground arith
tag-nonzero (free (suc k)) h = ground arith
tag-nonzero (used zero) h = absurd (omega arith)
tag-nonzero (free zero) h = absurd (omega arith)

print_entries-long :
    (i k : ℕ) (w : Words) (v : ℤ)
    → w i ≡ v
    → w (suc k + i) ≡ v
    → ((x : ℕ) → i < x → x < suc k + i → w x ≡ pos 0)
    → is_zero v ≡ false
    → print_entries (1 + (k + 1)) i w ≡ word v ++ word v
print_entries-long i k w v first last zeros z =
    let e : 1 + i ≡ suc i = omega arith in
    let d : k + suc i ≡ suc k + i = omega arith in
    rw
      (
        print_entries-append 1 (k + 1) i w,
        e,
        print_entries-append k 1 (suc i) w,
        d,
        print_entries-one i w v first z,
        print_entries-zeros k (suc i) w (λ x h b. zeros x (omega arith) (omega arith)),
        print_entries-one (suc k + i) w v last z,
      )
      refl

print_entries-run :
    (w : Words) (i k : ℕ) (s : Seg)
    → size s ≡ suc k
    → Block w i (size s) (tag s)
    → print_entries (size s) i w ≡ run_report s
unfolding run_report
print_entries-run w i zero s e b =
    rw (e, print_entries-one i w (tag s) b.first (tag-nonzero s b.nonempty)) refl
print_entries-run w i (suc k) s e b =
    let n : size s ≡ 1 + (k + 1) = omega arith in
    let end : i + size s - 1 ≡ suc k + i = omega arith in
    ap (λ j. print_entries j i w) n
    ∙ print_entries-long i k w (tag s) b.first (ap w (sym end) ∙ b.last)
        (λ x h l. b.inner x h (omega arith)) (tag-nonzero s b.nonempty)
    ∙ rw (lt→ltb 1 (size s) (omega arith)) refl

print_entries-runs :
    (w : Words) (i : ℕ) (ss : List Seg)
    → Tiles w i ss
    → print_entries (total ss) i w ≡ runs_report ss
unfolding runs_report
print_entries-runs w i [] t = print_entries-zeros 0 i w (λ x h b. absurd (omega arith))
print_entries-runs w i (s ∷ ss) (b, t) =
    let k : size s ≡ suc (size s - 1) = omega (arith, b.nonempty) in
    let e : size s + i ≡ i + size s = omega arith in
    print_entries-append (size s) (total ss) i w
    ∙ rw (e, print_entries-run w i (size s - 1) s k b, print_entries-runs w (i + size s) ss t) refl

-- On a heap that represents the runs `ss` the report gives, run by run and in order, the number of
-- blocks, negative for a free run, at either end of the run, and one number for a run of one block.
pub mem_print-runs_report :
    (m : Mem) (ss : List Seg) → IsHeap m ss → mem_print m ≡ runs_report ss ++ print_str (text "\n")
unfolding mem_print
mem_print-runs_report m ss h = rw (sym h.filled, print_entries-runs m.mem_index 0 ss h.tiles) refl
