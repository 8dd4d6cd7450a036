-- ===== src/Memory.antt =====
-- The block allocator, src/mem.c: `mem_index` is an array of i32, one entry for each 64-byte block of
-- the heap, stored at the beginning of the heap itself. An entry at either end of an allocation holds
-- its number of blocks, one at either end of a free run the negated number.
pub mod Segments
pub mod Tiles
pub mod Alloc
pub mod Exhausted
pub mod Contract
pub mod Free
pub mod Release
pub mod Defects
pub mod Init
pub mod RoundTrip
use kernel_riscv.Base.{
  ℕ, zero, suc, ◌+◌, ◌-◌, ◌*◌, ◌/◌, ◌%◌, ◌^◌, ◌≤◌, ◌<◌, Bool, true, false, ◌&&◌, not, ltb, leb,
  ◌==◌, if◌then◌else◌, ℤ, pos, negsuc, is_pos, is_neg, is_zero, eq_int?, neg, ◌-ℤ◌, to_u64, to_i32,
  add64, sub64, neg64,
}

-- lib/hw.h: the bounds of the heap are constants of the hardware library.
pub record Layout : Type 0 where
  pub heap_start : ℕ
  pub heap_end : ℕ

abbrev pub mem_block_size : ℕ
mem_block_size = 64

-- The memory from `HEAP_START_ADDR` on, read as an array of i32. The entries below `n_mem_blocks`
-- are the index; those behind it are whatever the heap's blocks hold.
abbrev pub Words : Type 0
Words = ℕ → ℤ

abbrev pub set : Words → ℕ → ℤ → Words
set w i v j = if j == i then v else w j

pub record Mem : Type 0 where
  pub mem_index : Words
  pub n_mem_blocks : ℕ
  pub mem_index_len_in_blocks : ℕ

-- How a function ends: it returns, or `__panic` stops the machine, or it does what C gives no meaning
-- to (a store through a null pointer or past an array); `out_of_fuel` is the model's own.
pub data Run {ℓ} (A : Type ℓ) : Type ℓ where
  done : A → Run A
  panic : Run A
  undefined : Run A
  out_of_fuel : Run A

-- `enum FREE_ERRORS` and success
pub data FreeResult : Type 0 where
  free_ok : FreeResult
  free_out_of_heap : FreeResult
  free_not_block_aligned : FreeResult
  free_not_alloced : FreeResult
  free_not_start_of_alloc : FreeResult

-- the loop that clears the entries 0 .. k - 1, in that order
unfoldable pub clear : ℕ → Words → Words
clear zero w = w
clear (suc k) w = set (clear k w) k (pos 0)

unfoldable pub mem_init : Layout → Words → Mem
unfolding clear
mem_init l w =
    let n = sub64 l.heap_end l.heap_start / mem_block_size in
    let len = add64 (4 * n) (mem_block_size - 1) / mem_block_size in
    let rest = to_i32 (neg64 (sub64 n len)) in
    let w0 = clear n w in
    let w1 = set w0 0 (to_i32 len) in
    let w2 = set w1 (len - 1) (to_i32 len) in
    let w3 = set w2 len rest in
    record { mem_index = set w3 (n - 1) rest; n_mem_blocks = n; mem_index_len_in_blocks = len }

-- the writes of the branch that splits a free run: `f` blocks from entry `i` on, of which `nblocks`
-- are taken
unfoldable pub split : Words → (i f nblocks : ℕ) → Words
split w i f nblocks =
    let rest = to_i32 (neg64 (sub64 f nblocks)) in
    let w1 = set w (sub64 (add64 i f) 1) rest in
    let w2 = set w1 (add64 i nblocks) rest in
    let w3 = set w2 (sub64 (add64 i nblocks) 1) (to_i32 nblocks) in set w3 i (to_i32 nblocks)

-- the writes of the branch that takes a whole free run
unfoldable pub take_all : Words → (i nblocks : ℕ) → Words
take_all w i nblocks = set (set w i (to_i32 nblocks)) (sub64 (add64 i nblocks) 1) (to_i32 nblocks)

-- The test at the end of the loop's body, and what comes behind it.
unfoldable pub check_entry : Words → (ℕ → Run (ℕ × Words)) → ℕ → Run (ℕ × Words)
check_entry w next i = elim (is_zero (w i)) [ true ↦ panic | false ↦ next i ]

-- The loop's body from `if(mem_index[i] < 0)` on; `next` is the rest of the loop.
unfoldable pub alloc_entry :
    Layout → (nblocks : ℕ) → Words → (ℕ → Run (ℕ × Words)) → ℕ → Run (ℕ × Words)
alloc_entry l nblocks w next i =
    let f = to_u64 (neg (w i)) in
    if not (is_neg (w i))
    then check_entry w next i
    else if ltb nblocks f
    then done (l.heap_start + i * mem_block_size, split w i f nblocks)
    else if f == nblocks
    then done (l.heap_start + i * mem_block_size, take_all w i nblocks)
    else check_entry w next (add64 i f)

-- The loop of `__mem_alloc` at entry `i`; the result is the pointer (0 for null) and the new index.
unfoldable pub alloc_loop : Layout → (n nblocks fuel : ℕ) → Words → ℕ → Run (ℕ × Words)
alloc_loop l n nblocks zero w i = out_of_fuel
alloc_loop l n nblocks (suc fuel) w i =
    let round =
      alloc_entry l nblocks w (λ (j : ℕ). alloc_loop l n nblocks fuel w j)
        (if is_pos (w i) then add64 i (to_u64 (w i)) else i) in
    if ltb i n then round else done (0, w)

abbrev pub with_index : Mem → Run (ℕ × Words) → Run (ℕ × Mem)
with_index m (done (p, w)) = done (p, record m { mem_index = w })
with_index m panic = panic
with_index m undefined = undefined
with_index m out_of_fuel = out_of_fuel

-- `__mem_alloc`. Each round moves on by a block or more, so `n_mem_blocks + 1` rounds are enough.
unfoldable pub mem_alloc : Layout → Mem → ℕ → Run (ℕ × Mem)
mem_alloc l m nblocks =
    with_index m (alloc_loop l m.n_mem_blocks nblocks (suc m.n_mem_blocks) m.mem_index 0)

-- What the joins of `__mem_free` work on: the index, the entry and the size of the run.
pub record Joined : Type 0 where
  pub words : Words
  pub entry : ℕ
  pub extent : ℤ

-- the branch with no free neighbour
unfoldable pub mark_free : Joined → Joined
mark_free r = record r {
  words =
      set (set r.words r.entry (neg r.extent)) (sub64 (add64 r.entry (to_u64 r.extent)) 1)
        (neg r.extent);
}

-- the branch `if(prev_free)`
unfoldable pub join_prev : Joined → Joined
join_prev r =
    let w = r.words in
    let e = r.entry in
    let before = w (sub64 e 1) in
    let prev_index = add64 e (to_u64 before) in
    let joined_size = r.extent -ℤ before in
    let w1 = set (set w e (pos 0)) (sub64 e 1) (pos 0) in
    let w2 = set w1 prev_index (neg joined_size) in
    record {
      words = set w2 (sub64 (add64 prev_index (to_u64 joined_size)) 1) (neg joined_size);
      entry = prev_index;
      extent = joined_size;
    }

-- the branch `if(next_free)`
unfoldable pub join_next : Joined → Joined
join_next r =
    let w = r.words in
    let e = r.entry in
    let e2 = add64 e (to_u64 r.extent) in
    let joined_size = r.extent -ℤ w e2 in
    let w1 = set (set w (sub64 e2 1) (pos 0)) e2 (pos 0) in
    let w2 = set w1 e (neg joined_size) in
    record r { words = set w2 (sub64 (add64 e (to_u64 joined_size)) 1) (neg joined_size) }

-- the three branches of `__mem_free` that write, in their order
unfoldable pub joins : (prev_free next_free : Bool) → Joined → Words
joins prev_free next_free r =
    let r1 = if not prev_free && not next_free then mark_free r else r in
    let r2 = if prev_free then join_prev r1 else r1 in
    (if next_free then join_next r2 else r2).words

unfoldable pub is_prev_free : Words → ℕ → Bool
is_prev_free w e = if ltb 0 e then is_neg (w (sub64 e 1)) else false

unfoldable pub is_next_free : (n : ℕ) → Words → (e2 : ℕ) → Bool
is_next_free n w e2 = if ltb e2 n then is_neg (w e2) else false

-- `__mem_free` from the line `i32 size = ...` on
unfoldable pub free_entry : (n : ℕ) → Words → ℕ → Words
free_entry n w e =
    joins (is_prev_free w e) (is_next_free n w (add64 e (to_u64 (w e))))
      (record { words = w; entry = e; extent = w e })

unfoldable pub mem_free : Layout → Mem → ℕ → FreeResult × Mem
mem_free l m ptr =
    let w = m.mem_index in
    let offset = sub64 ptr l.heap_start in
    let e = offset / mem_block_size in
    if ltb ptr l.heap_start
    then (free_out_of_heap, m)
    else if leb l.heap_end ptr
    then (free_out_of_heap, m)
    else if not (offset % mem_block_size == 0)
    then (free_not_block_aligned, m)
    else if not (is_pos (w e))
    then (free_not_alloced, m)
    else if not (eq_int? (w e) (w (sub64 (add64 e (to_u64 (w e))) 1)))
    then (free_not_start_of_alloc, m)
    else (free_ok, record m { mem_index = free_entry m.n_mem_blocks w e })
