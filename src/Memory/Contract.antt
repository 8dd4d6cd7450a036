-- ===== src/Memory/Contract.antt =====
-- `__mem_alloc` as a caller sees it, on a heap whose index represents a list of runs.
use kernel_riscv.Base.{
  ℕ, suc, ◌+◌, ◌*◌, ◌≤◌, ◌<◌, ◌≡◌, refl, ◌∙◌, ap, Bool, true, false, List, [], ◌∷◌, none, some,
  arith, length, is_neg, is_zero, if◌then◌else◌,
}
use kernel_riscv.Memory.{
  Layout, Words, Mem, done, panic, alloc_loop, mem_alloc, with_index, mem_block_size,
}
use kernel_riscv.Memory.Segments.{Seg, size, total, first_fit}
use kernel_riscv.Memory.Segments.Placement.{Placed, first_fit-Placed, FreeIn, first_fit-none}
use kernel_riscv.Memory.Tiles.{Tiles, IsHeap}
use kernel_riscv.Memory.Alloc.{Fits, alloc_loop-Fits}
use kernel_riscv.Memory.Exhausted.{alloc_loop-exhausted}

pub length-le-total : (w : Words) (i : ℕ) (ss : List Seg) → Tiles w i ss → length ss ≤ total ss
length-le-total w i [] t = omega arith
length-le-total w i (s ∷ ss) (b, t) = omega (arith, b.nonempty, length-le-total w (i + size s) ss t)

-- The call returns the address of block `j` and a heap of the runs `ss'`, in which the new allocation
-- lies in what was free in `ss`; memory behind the index is untouched.
pub record Allocates (l : Layout) (m : Mem) (nblocks j : ℕ) (ss ss' : List Seg) : Type 0 where
  pub after : Mem
  pub returns : mem_alloc l m nblocks ≡ done (l.heap_start + j * mem_block_size, after)
  pub heap : IsHeap after ss'
  pub placed : Placed nblocks 0 ss j ss'
  pub count : after.n_mem_blocks ≡ m.n_mem_blocks
  pub behind : (x : ℕ) → m.n_mem_blocks ≤ x → after.mem_index x ≡ m.mem_index x

-- On a well-formed heap, where first fit places a run of `nblocks` > 0 blocks at `j`,
-- `__mem_alloc` returns the address of block `j`, the index afterwards represents the list first
-- fit gives, and neither the number of blocks nor the words behind the index change.
pub mem_alloc-first_fit :
    (l : Layout) (m : Mem) (nblocks : ℕ) {ss ss' : List Seg} {j : ℕ}
    → IsHeap m ss
    → 0 < nblocks
    → first_fit nblocks 0 ss ≡ some (j, ss')
    → Allocates l m nblocks j ss ss'
unfolding mem_alloc
mem_alloc-first_fit l m nblocks {ss} {ss'} {j} h p e = record {
  after = record m { mem_index = fits.words };
  returns = ap (with_index m) fits.returns;
  heap = record {
    tiles = fits.tiles;
    filled = (first_fit-Placed nblocks 0 ss e).filled ∙ h.filled;
    nonempty = h.nonempty;
    small = h.small;
  };
  placed = first_fit-Placed nblocks 0 ss e;
  count = refl;
  behind = fits.above;
}
  where
    fits :
        Fits l m.n_mem_blocks m.mem_index 0 j ss'
          (alloc_loop l m.n_mem_blocks nblocks (suc m.n_mem_blocks) m.mem_index 0)
    fits =
        alloc_loop-Fits l m.n_mem_blocks nblocks m.mem_index h.small p ss m.n_mem_blocks 0 h.tiles
          (omega (arith, h.filled))
          (omega (arith, h.filled, length-le-total m.mem_index 0 ss h.tiles)) e

with_index-if :
    (b : Bool) (m : Mem)
    → with_index m (if b then panic else done (0, m.mem_index)) ≡ (if b then panic else done (0, m))
with_index-if true m = refl
with_index-if false m = refl

-- On a well-formed heap where first fit fails, and with a word behind the index that is not
-- negative, the call panics if that word is 0 and returns the null pointer with the state
-- unchanged if it is positive; and every free run is too small for the request.
pub mem_alloc-exhausted :
    (l : Layout) (m : Mem) (nblocks : ℕ) (ss : List Seg)
    → IsHeap m ss
    → first_fit nblocks 0 ss ≡ none
    → is_neg (m.mem_index m.n_mem_blocks) ≡ false
    → (mem_alloc l m nblocks
        ≡ (if is_zero (m.mem_index m.n_mem_blocks) then panic else done (0, m)))
      × ((k : ℕ) → FreeIn k ss → k < nblocks)
unfolding mem_alloc
mem_alloc-exhausted l m nblocks [] h e out = absurd (omega (arith, h.filled, h.nonempty))
mem_alloc-exhausted l m nblocks (s ∷ ss) h e out = (
  ap (with_index m) loop ∙ with_index-if (is_zero (m.mem_index m.n_mem_blocks)) m,
  first_fit-none nblocks 0 (s ∷ ss) e,
)
  where
    loop :
        alloc_loop l m.n_mem_blocks nblocks (suc m.n_mem_blocks) m.mem_index 0
        ≡ (if is_zero (m.mem_index m.n_mem_blocks) then panic else done (0, m.mem_index))
    loop =
        alloc_loop-exhausted l m.n_mem_blocks nblocks m.mem_index h.small out s ss m.n_mem_blocks 0
          h.tiles (omega (arith, h.filled))
          (omega (arith, h.filled, length-le-total m.mem_index 0 (s ∷ ss) h.tiles)) e
