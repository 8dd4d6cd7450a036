-- ===== src/Memory/RoundTrip.antt =====
-- `__mem_free` undoes `__mem_alloc`.
use kernel_riscv.Base.{ℕ, ◌<◌, ◌≡◌, ◌∙◌, subst, inl, inr, List, some, arith, lt_cases}
use kernel_riscv.Memory.{Layout, Mem, done, free_ok, mem_alloc, mem_free}
use kernel_riscv.Memory.Segments.{Seg, total, first_fit, release, IsCoalesced}
use kernel_riscv.Memory.Segments.Undo.{Undo, first_fit-Undo}
use kernel_riscv.Memory.Tiles.{IsHeap, Tiles-unique}
use kernel_riscv.Memory.Contract.{Allocates, mem_alloc-first_fit}
use kernel_riscv.Memory.Release.{Fits, block_address, Releases, mem_free-release}

-- An allocation that is given back at once: both calls succeed, and every entry is what it was.
pub record Restored (l : Layout) (m : Mem) (nblocks j : ℕ) : Type 0 where
  pub between : Mem
  pub after : Mem
  pub allocated : mem_alloc l m nblocks ≡ done (block_address l j, between)
  pub freed : mem_free l between (block_address l j) ≡ (free_ok, after)
  pub same : (x : ℕ) → after.mem_index x ≡ m.mem_index x

module _ (l : Layout) (m : Mem) (nblocks : ℕ) {ss ss' : List Seg} {j : ℕ} where
  -- On a well-formed heap without neighbouring free runs, where first fit places a request of at
  -- least one block, allocating and then freeing the address that was returned restores every word
  -- of the index.
  pub mem_alloc-mem_free :
      Fits l m
      → IsHeap m ss
      → IsCoalesced ss
      → 0 < nblocks
      → first_fit nblocks 0 ss ≡ some (j, ss')
      → Restored l m nblocks j
  mem_alloc-mem_free f h c p e = record {
    between = a.after;
    after = r.after;
    allocated = a.returns;
    freed = at_j (λ x. mem_free l a.after (block_address l x) ≡ (free_ok, r.after)) r.returns;
    same = λ x. elim (lt_cases x m.n_mem_blocks) [
      | inl q ↦
          Tiles-unique m.mem_index r.after.mem_index 0 ss h.tiles
            (subst (λ rs. IsHeap r.after rs) u.undone r.heap).tiles x (omega arith)
            (omega (arith, h.filled))
      | inr q ↦ r.behind x (omega (arith, a.count)) ∙ a.behind x q
    ];
  }
    where
      a : Allocates l m nblocks j ss ss'
      a = mem_alloc-first_fit l m nblocks h p e

      u : Undo nblocks 0 ss j ss'
      u = first_fit-Undo nblocks 0 ss c e

      at_j : (P : ℕ → Type 0) → P (total u.pre) → P j
      at_j P = subst P (omega (arith, u.at))

      r : Releases l a.after (block_address l (total u.pre)) (release u.pre nblocks u.post)
      r =
          mem_free-release l a.after u.pre nblocks u.post
            (record { room = omega (arith, a.count, f.room); small = f.small })
            (subst (λ rs. IsHeap a.after rs) u.found a.heap)
