-- ===== src/Memory/Init.antt =====
-- `__mem_init`: the heap that the kernel starts with.
use kernel_riscv.Base.{
  ℕ, zero, suc, ◌+◌, ◌-◌, ◌*◌, ◌/◌, ◌^◌, ◌≤◌, ◌<◌, ◌≡◌, refl, inl, inr, [], ◌∷◌, arith, pos, neg_ℕ,
  sub64_le, add64_lt, to_i32_lt, to_i32-neg64, eq_cases,
}
use kernel_riscv.Memory.{Layout, Words, set, Mem, clear, mem_init, mem_block_size}
use kernel_riscv.Memory.Segments.{used, free}
use kernel_riscv.Memory.Tiles.{Block, IsHeap}

clear-lt : (k : ℕ) (w : Words) (x : ℕ) → x < k → clear k w x ≡ pos 0
unfolding clear
clear-lt zero w x h = elim h [ ]
clear-lt (suc k) w x h = elim (eq_cases x k) [
  | inl e ↦ ground arith
  | inr e ↦ ground (arith, clear-lt k w x (omega arith))
]

clear-ge : (k : ℕ) (w : Words) (x : ℕ) → k ≤ x → clear k w x ≡ w x
unfolding clear
clear-ge zero w x h = refl
clear-ge (suc k) w x h = ground (arith, clear-ge k w x (omega arith))

abbrev pub blocks : Layout → ℕ
blocks l = (l.heap_end - l.heap_start) / mem_block_size

-- the blocks that the index takes, rounded up
abbrev pub index_blocks : Layout → ℕ
index_blocks l = (4 * blocks l + 63) / 64

abbrev start_words : (n len : ℕ) → Words → Words
start_words n len w =
    set (set (set (set (clear n w) 0 (pos len)) (len - 1) (pos len)) len (neg_ℕ (n - len))) (n - 1)
      (neg_ℕ (n - len))

module _ (n len : ℕ) (w : Words) (p : 0 < len) (q : len < n) where
  index_Block : Block (start_words n len w) 0 len (pos len)
  index_Block = record {
    nonempty = p;
    first = ground arith;
    last = ground arith;
    inner = λ x h k. ground (arith, clear-lt n w x (omega arith));
  }

  rest_Block : Block (start_words n len w) (0 + len) (n - len) (neg_ℕ (n - len))
  rest_Block = record {
    nonempty = omega arith;
    first = ground arith;
    last = ground arith;
    inner = λ x h k. ground (arith, clear-lt n w x (omega arith));
  }

abbrev start_mem : Layout → Words → Mem
start_mem l w = record {
  mem_index = start_words (blocks l) (index_blocks l) w;
  n_mem_blocks = blocks l;
  mem_index_len_in_blocks = index_blocks l;
}

module _ (l : Layout) (w : Words) (ordered : l.heap_start ≤ l.heap_end)
    (address : l.heap_end < 2 ^ 64) (enough : 2 ≤ blocks l) (small : blocks l < 2 ^ 31) where
  mem_init-start_mem : mem_init l w ≡ start_mem l w
  unfolding mem_init
  mem_init-start_mem = rw (
    sub64_le l.heap_end l.heap_start ordered address,
    add64_lt (4 * blocks l) 63 (omega arith),
    sub64_le (blocks l) (index_blocks l) (omega arith) (omega arith),
    to_i32_lt (index_blocks l) (omega arith),
    to_i32-neg64 (blocks l - index_blocks l) (omega arith),
  )

  -- For a heap of at least two blocks and fewer than 2^31, whatever the memory held, the index
  -- that `__mem_init` writes is well formed: one allocation, the index itself, at the start of the
  -- heap, and one free run, the rest.
  pub mem_init-IsHeap :
      IsHeap (mem_init l w) (used (index_blocks l) ∷ free (blocks l - index_blocks l) ∷ [])
  mem_init-IsHeap = rw mem_init-start_mem (record {
    tiles = (
      index_Block (blocks l) (index_blocks l) w (omega arith) (omega arith),
      (rest_Block (blocks l) (index_blocks l) w (omega arith) (omega arith), tt),
    );
    filled = omega arith;
    nonempty = omega arith;
    small = small;
  })
