-- ===== src/Memory/Release.antt =====
-- `__mem_free` as a caller sees it.
use kernel_riscv.Base.{
  ℕ, ◌+◌, ◌-◌, ◌*◌, ◌/◌, ◌%◌, ◌^◌, ◌≤◌, ◌<◌, ◌≡◌, refl, ◌∙◌, subst, true, false, List, ◌∷◌, ◌++◌,
  arith, leb, ◌==◌, lt→ltb, le→ltb, eq→==, pos, is_pos, to_u64, add64, sub64, add64_lt, sub64_le,
  to_u64-pos, is_pos-pos, eq_int?, not, if◌then◌else◌, ◌≢◌,
}
use kernel_riscv.Memory.{
  Layout, Mem, FreeResult, free_ok, free_out_of_heap, free_not_block_aligned, free_not_alloced,
  free_not_start_of_alloc, free_entry, mem_free, mem_block_size,
}
use kernel_riscv.Memory.Segments.{Seg, used, total, total-append, release}
use kernel_riscv.Memory.Segments.Releasing.{total-release}
use kernel_riscv.Memory.Tiles.{Block, Tiles-at, IsHeap, Interior, Interior-not_pos}
use kernel_riscv.Memory.Free.{Freed, free_entry-release}

-- The blocks of the index lie within the heap's bounds, which are addresses of 64 bits.
pub record Fits (l : Layout) (m : Mem) : Type 0 where
  pub room : l.heap_start + m.n_mem_blocks * mem_block_size ≤ l.heap_end
  pub small : l.heap_end < 2 ^ 64

abbrev pub block_address : Layout → ℕ → ℕ
block_address l e = l.heap_start + e * mem_block_size

-- the tests on the entry, behind those on the address
abbrev pub entry_result : Mem → ℕ → FreeResult × Mem
entry_result m e =
    let w = m.mem_index in
    if not (is_pos (w e))
    then (free_not_alloced, m)
    else if not (eq_int? (w e) (w (sub64 (add64 e (to_u64 (w e))) 1)))
    then (free_not_start_of_alloc, m)
    else (free_ok, record m { mem_index = free_entry m.n_mem_blocks w e })

block_inside :
    (l : Layout) (m : Mem) (e : ℕ)
    → Fits l m
    → e < m.n_mem_blocks
    → leb l.heap_end (block_address l e) ≡ false
block_inside l m e f h = ground (arith, f.room)

block_aligned : (l : Layout) (e : ℕ) → ((block_address l e - l.heap_start) % 64 == 0) ≡ true
block_aligned l e = eq→== _ _ (omega arith)

pub mem_free-entry_result :
    (l : Layout) (m : Mem) (e : ℕ)
    → Fits l m
    → e < m.n_mem_blocks
    → mem_free l m (block_address l e) ≡ entry_result m e
unfolding mem_free
mem_free-entry_result l m e f h = rw (
  sub64_le (block_address l e) l.heap_start (omega arith) (omega (arith, f.room, f.small)),
  index,
  le→ltb (block_address l e) l.heap_start (omega arith),
  block_inside l m e f h,
  block_aligned l e,
)
  where
    index : (block_address l e - l.heap_start) / 64 ≡ e
    index = omega arith

-- The call succeeds and leaves a heap of the runs `ss`; memory behind the index is untouched.
pub record Releases (l : Layout) (m : Mem) (ptr : ℕ) (ss : List Seg) : Type 0 where
  pub after : Mem
  pub returns : mem_free l m ptr ≡ (free_ok, after)
  pub heap : IsHeap after ss
  pub count : after.n_mem_blocks ≡ m.n_mem_blocks
  pub behind : (x : ℕ) → m.n_mem_blocks ≤ x → after.mem_index x ≡ m.mem_index x

-- On a well-formed heap in the address space, freeing the address at which an allocation begins
-- succeeds, and the index afterwards represents the list in which the allocation is free and
-- joined with the free runs beside it; the words behind the index stay.
pub mem_free-release :
    (l : Layout) (m : Mem) (pre : List Seg) (k : ℕ) (post : List Seg)
    → Fits l m
    → IsHeap m (pre ++ used k ∷ post)
    → Releases l m (block_address l (total pre)) (release pre k post)
mem_free-release l m pre k post f h = record {
  after = record m { mem_index = free_entry m.n_mem_blocks m.mem_index (total pre) };
  returns =
      mem_free-entry_result l m (total pre) f (omega (arith, bounds))
      ∙ rw (
        b.first,
        is_pos-pos k b.nonempty,
        to_u64-pos k (omega (arith, bounds, h.small)),
        add64_lt (total pre) k (omega (arith, bounds, h.small)),
        sub64_le (total pre + k) 1 (omega (arith, b.nonempty)) (omega (arith, bounds, h.small)),
        b.last,
        eq→== k k refl,
      );
  heap = record {
    tiles = freed.tiles;
    filled = total-release pre k post ∙ h.filled;
    nonempty = h.nonempty;
    small = h.small;
  };
  count = refl;
  behind = freed.above;
}
  where
    b : Block m.mem_index (total pre) k (pos k)
    b =
        subst (λ x. Block m.mem_index x k (pos k)) (omega arith)
          (Tiles-at 0 pre (used k) post h.tiles)

    bounds : (0 < k) × (total pre + k ≤ m.n_mem_blocks)
    bounds = omega (arith, b.nonempty, total-append pre (used k ∷ post), h.filled)

    freed :
        Freed m.n_mem_blocks m.mem_index
          (free_entry m.n_mem_blocks m.mem_index (total pre))
          0
          (release pre k post)
    freed = free_entry-release m.n_mem_blocks m.mem_index k post h.small pre h.tiles h.filled

-- The code that a pointer gets which is outside the heap, off the block boundaries, or the address of
-- a block that is free or inside an allocation, neither its first nor its last block.
pub data Refusal (l : Layout) (ss : List Seg) (ptr : ℕ) : FreeResult → Type 0 where
  below : ptr < l.heap_start → Refusal l ss ptr free_out_of_heap
  above : l.heap_end ≤ ptr → Refusal l ss ptr free_out_of_heap
  unaligned :
      l.heap_start ≤ ptr
      → ptr < l.heap_end
      → (ptr - l.heap_start) % mem_block_size ≢ 0
      → Refusal l ss ptr free_not_block_aligned
  interior : (x : ℕ) → ptr ≡ block_address l x → Interior x 0 ss → Refusal l ss ptr free_not_alloced

-- On a well-formed heap in the address space, a 64-bit pointer outside the heap is refused as such,
-- one inside it but off the block boundaries as not aligned, and one to a free block, or to a block
-- of an allocation that is neither its first nor its last, as not allocated; nothing changes.
pub mem_free-refuses :
    (l : Layout) (m : Mem) (ss : List Seg) (ptr : ℕ) {r : FreeResult}
    → Fits l m
    → IsHeap m ss
    → ptr < 2 ^ 64
    → Refusal l ss ptr r
    → mem_free l m ptr ≡ (r, m)
unfolding mem_free
mem_free-refuses l m ss ptr f h b (below u) = rw (lt→ltb ptr l.heap_start u) refl
mem_free-refuses l m ss ptr f h b (above u) = ground arith
mem_free-refuses l m ss ptr f h b (unaligned u v n) =
    rw (le→ltb ptr l.heap_start u, sub64_le ptr l.heap_start u b) (ground arith)
mem_free-refuses l m ss ptr f h b (interior x e u) =
    let (p, q) = Interior-not_pos m.mem_index x 0 ss h.tiles u in
    rw e (mem_free-entry_result l m x f (omega (arith, q, h.filled)) ∙ rw p refl)
