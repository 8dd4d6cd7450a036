-- ===== src/Memory/Defects.antt =====
-- Where `__mem_alloc` and `__mem_free` do not do what their callers rely on.
use kernel_riscv.Base.{
  ℕ, ◌+◌, ◌-◌, ◌^◌, ◌<◌, ◌≡◌, ap, ◌∙◌, List, ◌∷◌, ◌++◌, arith, pos, neg_ℕ, to_u64-pos, add64_lt,
  sub64_le,
}
use kernel_riscv.Memory.{
  Layout, Words, set, Mem, free_ok, done, panic, Run, mem_alloc, mem_free, alloc_entry, alloc_loop,
}
use kernel_riscv.Memory.Segments.{Seg, used, total, total-append}
use kernel_riscv.Memory.Tiles.{Tiles, Tiles-append, IsHeap}
use kernel_riscv.Memory.Alloc.Rounds
use kernel_riscv.Boot.Bump.{sum}
use kernel_riscv.Memory.Release.{Fits, block_address, mem_free-entry_result}

-- On a well-formed heap with two neighbouring allocations of two blocks each, `__mem_free` accepts
-- the second block of the first as if an allocation began there.
pub mem_free-accepts_inner :
    (l : Layout) (m : Mem) (pre post : List Seg)
    → Fits l m
    → IsHeap m (pre ++ used 2 ∷ used 2 ∷ post)
    → (mem_free l m (block_address l (total pre + 1))).0 ≡ free_ok
mem_free-accepts_inner l m pre post f h =
    ap (λ x. x.0) (mem_free-entry_result l m (total pre + 1) f (omega (arith, h.filled, sum)))
    ∙ rw (
      last,
      to_u64-pos 2 (omega arith),
      add64_lt (total pre + 1) 2 (omega (arith, h.small, h.filled, sum)),
      sub64_le (total pre + 1 + 2) 1 (omega arith) (omega (arith, h.small, h.filled, sum)),
      next,
    )
  where
    sum : total (pre ++ used 2 ∷ used 2 ∷ post) ≡ total pre + (2 + (2 + total post))
    sum = total-append pre (used 2 ∷ used 2 ∷ post)

    at : Tiles m.mem_index (0 + total pre) (used 2 ∷ used 2 ∷ post)
    at = Tiles-append m.mem_index 0 pre (used 2 ∷ used 2 ∷ post) h.tiles

    last : m.mem_index (total pre + 1) ≡ pos 2
    last = ap m.mem_index (omega arith) ∙ at.0.last

    next : m.mem_index (total pre + 1 + 2 - 1) ≡ pos 2
    next = ap m.mem_index (omega arith) ∙ at.1.0.first

-- the index after `__mem_alloc(0)` has split the free run of `f` blocks at entry `k`
abbrev zeroed : Words → (k f : ℕ) → Words
zeroed w k f = set (set (set (set w (k + f - 1) (neg_ℕ f)) k (neg_ℕ f)) (k - 1) (pos 0)) k (pos 0)

module _ (l : Layout) (n nb k f : ℕ) (w : Words) (small : n < 2 ^ 31) (positive : 0 < f)
    (sum_n : k + f ≡ n) where
  abbrev ruined_entry : (fuel i : ℕ) → Run (ℕ × Words)
  ruined_entry fuel i = alloc_entry l nb (zeroed w k f) (alloc_loop l n nb fuel (zeroed w k f)) i

-- After `__mem_alloc(0)` the heap's next allocation, of any size, panics.
pub record Ruined (l : Layout) (m : Mem) : Type 0 where
  pub after : Mem
  pub at : ℕ
  pub returns : mem_alloc l m 0 ≡ done (block_address l at, after)
  pub next : (nblocks : ℕ) → mem_alloc l after nblocks ≡ panic
