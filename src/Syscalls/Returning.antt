-- ===== src/Syscalls/Returning.antt =====
-- Calls from src/syscall_c.c that come back to the caller at once, through `irq_wrap` and
-- `irq_handler`.
use kernel_riscv.Base.{
  ℕ, ◌+◌, ◌-◌, ◌*◌, ◌/◌, ◌^◌, ◌≤◌, ◌<◌, ◌≡◌, ◌≢◌, refl, ◌∙◌, ap, subst, pos, List, some, arith,
  ne→==, add64, sub64, to_i32,
}
use kernel_riscv.Memory.{Layout, Mem, Run, done, mem_block_size}
use kernel_riscv.Memory as Memory
use kernel_riscv.Memory.Segments.{Seg, first_fit}
use kernel_riscv.Memory.Tiles.{IsHeap}
use kernel_riscv.Memory.Contract.{Allocates, mem_alloc-first_fit}
use kernel_riscv.Kernel.{Context, Kernel, alloc, blocks_of, put_self}
use kernel_riscv.ConsoleIo.{Device}
use kernel_riscv.Trap.{
  irq_handler, user_call, cause_of, syscall_of, sys_unknown, syscall, skip_ecall, return_to,
}
use kernel_riscv.Trap.Entry.{irq_wrap, save_context, restore_context}
use kernel_riscv.Syscalls.{mem_alloc, mem_free, sem_trywait, call_with_1}

-- The caller goes on behind the `ecall` with `v` in a0 and its other registers as they were; of the
-- kernel only the allocator's state, the caller's context and the registers have changed.
pub record ReturnsWith (k k' : Kernel) (r r' : Context) (v : ℕ) (m : Mem) : Type 0 where
  pub registers : r' ≡ record r { a0 = v }
  pub next : k'.cpu.sepc ≡ add64 k.cpu.sepc 4
  pub contexts : (q : ℕ) → q ≢ sub64 r.sp 0x100 → k'.context_at q ≡ k.context_at q
  pub frame : k' ≡ record k { mem = m; context_at = k'.context_at; cpu = k'.cpu }

pub stack_back : (sp : ℕ) → sp < 2 ^ 64 → add64 (sub64 sp 0x100) 0x100 ≡ sp
stack_back sp h = omega arith

module _ (dev : Device) (plic_claim : dev.Dev → ℕ × dev.Dev) (plic_complete : ℕ → dev.Dev → dev.Dev)
    (l : Layout) (wrapper : ℕ) where
  -- a trap by an `ecall` in user mode
  abbrev pub user_ecall : Context → Kernel × dev.Dev → Run (Context × (Kernel × dev.Dev))
  user_ecall = irq_wrap dev plic_claim plic_complete l wrapper 8

  -- What `irq_handler` gets, and leaves, when it answers with `v`.
  abbrev pub entered : Context → Kernel → Kernel
  entered r k = skip_ecall (save_context r k)

  abbrev answered : Context → ℕ → Mem → Kernel → Kernel
  answered r v m k = return_to (sub64 r.sp 0x100) v (record (entered r k) { mem = m })

  -- The registers after an answer, if the caller's context is still there.
  pub back :
      (r : Context) (v : ℕ) (k : Kernel)
      → r.sp < 2 ^ 64
      → k.cpu.sscratch ≡ sub64 r.sp 0x100
      → k.context_at (sub64 r.sp 0x100) ≡ record r { sp = sub64 r.sp 0x100 }
      → restore_context (return_to (sub64 r.sp 0x100) v k) ≡ record r { a0 = v }
  unfolding restore_context
  back r v k h here saved =
      let p = sub64 r.sp 0x100 in
      let k' = return_to p v k in
      let s : k'.context_at p ≡ record r { sp = p; a0 = v } =
        put_self k.context_at p (record (k.context_at p) { a0 = v })
        ∙ ap {A = Context} (λ z. record z { a0 = v }) saved in
      ap {A = ℕ}
        (λ z. record (k'.context_at (k'.context_at z).sp) { sp = add64 (k'.context_at z).sp 0x100 })
        here
      ∙ ap {A = Context} (λ z. record (k'.context_at z.sp) { sp = add64 z.sp 0x100 }) s
      ∙ ap {A = Context} (λ z. record z { sp = add64 p 0x100 }) s
      ∙ ap {B = Context} (λ z. record r { sp = z; a0 = v }) (stack_back r.sp h)

  answered-ReturnsWith :
      (r : Context) (v : ℕ) (m : Mem) (k : Kernel)
      → r.sp < 2 ^ 64
      → ReturnsWith k (answered r v m k) r (restore_context (answered r v m k)) v m
  unfolding restore_context save_context
  answered-ReturnsWith r v m k h =
      let p = sub64 r.sp 0x100 in
      record {
        registers =
            back r v (record (entered r k) { mem = m }) h refl
              (put_self k.context_at (sub64 r.sp 0x100) (record r { sp = sub64 r.sp 0x100 }));
        next = refl;
        contexts = λ q n. rw (ne→== q p n) refl;
        frame = refl;
      }

  -- A call that `irq_handler` does not know only moves the program counter.
  entered-ReturnsWith :
      (r : Context) (k : Kernel)
      → r.sp < 2 ^ 64
      → ReturnsWith k (entered r k) r (restore_context (entered r k)) r.a0 k.mem
  unfolding restore_context save_context
  entered-ReturnsWith r k h =
      let p = sub64 r.sp 0x100 in
      let k' = entered r k in
      let s = put_self k.context_at p (record r { sp = p }) in
      record {
        registers =
            ap {A = Context} (λ z. record (k'.context_at z.sp) { sp = add64 z.sp 0x100 }) s
            ∙ ap {A = Context} (λ z. record z { sp = add64 p 0x100 }) s
            ∙ ap {B = Context} (λ z. record r { sp = z }) (stack_back r.sp h);
        next = refl;
        contexts = λ q n. rw (ne→== q p n) refl;
        frame = refl;
      }

  -- the calls, as `irq_handler` answers them
  user_call-alloc :
      (k : Kernel) (d : dev.Dev) (v : ℕ) (m : Mem)
      → (k.context_at k.cpu.sscratch).a0 ≡ 1
      → Memory.mem_alloc l k.mem (k.context_at k.cpu.sscratch).a1 ≡ done (v, m)
      → user_call dev plic_claim plic_complete l wrapper k d
        ≡ done (return_to k.cpu.sscratch v (record (skip_ecall k) { mem = m }), d)
  unfolding user_call syscall_of syscall alloc
  user_call-alloc k d v m a e = rw (user_call, a, e) refl

  user_call-unknown :
      (k : Kernel) (d : dev.Dev)
      → syscall_of (k.context_at k.cpu.sscratch).a0 ≡ sys_unknown
      → user_call dev plic_claim plic_complete l wrapper k d ≡ done (skip_ecall k, d)
  unfolding user_call syscall
  user_call-unknown k d a = rw (user_call, a) refl

  alloc_call :
      (r : Context) (v : ℕ) (m : Mem) (k : Kernel) (d : dev.Dev)
      → r.a0 ≡ 1
      → Memory.mem_alloc l k.mem r.a1 ≡ done (v, m)
      → user_ecall r (k, d) ≡ done (restore_context (answered r v m k), (answered r v m k, d))
  unfolding irq_wrap irq_handler cause_of save_context
  alloc_call r v m k d a e =
      let p = sub64 r.sp 0x100 in
      let saved = put_self k.context_at p (record r { sp = p }) in
      rw
        (user_call-alloc (save_context r k) d v m (ap (λ c. c.a0) saved ∙ a)
          (ap (λ c. Memory.mem_alloc l k.mem c.a1) saved ∙ e))
        refl

  unknown_call :
      (r : Context) (k : Kernel) (d : dev.Dev)
      → syscall_of r.a0 ≡ sys_unknown
      → user_ecall r (k, d) ≡ done (restore_context (entered r k), (entered r k, d))
  unfolding irq_wrap irq_handler cause_of save_context
  unknown_call r k d a =
      let p = sub64 r.sp 0x100 in
      let saved = put_self k.context_at p (record r { sp = p }) in
      rw (user_call-unknown (save_context r k) d (ap (λ c. syscall_of c.a0) saved ∙ a)) refl

  -- A call with a code that the kernel does not know.
  pub unknown_code :
      (code x : ℕ) (r : Context) (k : Kernel) (d : dev.Dev)
      → r.sp < 2 ^ 64
      → syscall_of code ≡ sys_unknown
      → (k' : Kernel) × (r' : Context) × (call_with_1 user_ecall code x (r, (k, d))
          ≡ done (to_i32 code, (r', (k', d))))
        × ReturnsWith k k' r r' code k.mem
  unfolding call_with_1
  unknown_code code x r k d h u =
      let r1 = record r { a0 = code; a1 = x } in
      let w = entered-ReturnsWith r1 k h in
      (
        entered r1 k,
        record r { a0 = code },
        rw (unknown_call r1 k d u, w.registers) refl,
        record { registers = refl; next = w.next; contexts = w.contexts; frame = w.frame },
      )

  -- With the stack pointer below 2^64, a call of `mem_free` and one of `sem_trywait`, with any
  -- argument, come back at once with the code of the call, 2 and 38: nothing is freed, no semaphore
  -- changes, and the other registers are as they were.
  pub mem_free-sem_trywait_unknown :
      (ptr handle : ℕ) (r : Context) (k : Kernel) (d : dev.Dev)
      → r.sp < 2 ^ 64
      → ((k' : Kernel) × (r' : Context) × (mem_free user_ecall ptr (r, (k, d))
            ≡ done (pos 2, (r', (k', d))))
          × ReturnsWith k k' r r' 2 k.mem)
        × ((k' : Kernel) × (r' : Context) × (sem_trywait user_ecall handle (r, (k, d))
              ≡ done (pos 38, (r', (k', d))))
            × ReturnsWith k k' r r' 38 k.mem)
  unfolding mem_free sem_trywait call_with_1 syscall_of
  mem_free-sem_trywait_unknown ptr handle r k d h =
      (unknown_code 2 ptr r k d h refl, unknown_code 38 handle r k d h refl)

  -- the number of blocks that `mem_alloc` asks for
  abbrev pub rounded : ℕ → ℕ
  rounded nbytes = sub64 (add64 nbytes mem_block_size) 1 / mem_block_size

  pub mem_alloc_call :
      (nbytes v : ℕ) (m : Mem) (r : Context) (k : Kernel) (d : dev.Dev)
      → r.sp < 2 ^ 64
      → Memory.mem_alloc l k.mem (rounded nbytes) ≡ done (v, m)
      → (k' : Kernel) × (mem_alloc user_ecall nbytes (r, (k, d))
          ≡ done (v, (record r { a0 = v }, (k', d))))
        × ReturnsWith k k' r (record r { a0 = v }) v m
  unfolding mem_alloc
  mem_alloc_call nbytes v m r k d h e =
      let r1 = record r { a0 = 1; a1 = rounded nbytes } in
      let w = answered-ReturnsWith r1 v m k h in
      (
        answered r1 v m k,
        rw (alloc_call r1 v m k d refl e, w.registers) refl,
        record { registers = refl; next = w.next; contexts = w.contexts; frame = w.frame },
      )

  -- On a heap of the runs `ss`, where first fit finds room at block `j` for a positive number of
  -- bytes below 2^64 - 64, `mem_alloc` returns the address of that block, and the blocks that it
  -- stands for have room for the bytes. The index then represents the runs with that allocation,
  -- and the caller goes on with its other registers as they were.
  pub mem_alloc-Allocates :
      (nbytes j : ℕ) (ss ss' : List Seg) (r : Context) (k : Kernel) (d : dev.Dev)
      → r.sp < 2 ^ 64
      → 0 < nbytes
      → nbytes < 2 ^ 64 - 64
      → IsHeap k.mem ss
      → first_fit (blocks_of nbytes) 0 ss ≡ some (j, ss')
      → (a : Allocates l k.mem (blocks_of nbytes) j ss ss') × (k' : Kernel) × (r' : Context)
        × (mem_alloc user_ecall nbytes (r, (k, d))
            ≡ done (l.heap_start + j * mem_block_size, (r', (k', d))))
        × ReturnsWith k k' r r' (l.heap_start + j * mem_block_size) a.after
        × (nbytes ≤ blocks_of nbytes * mem_block_size)
  mem_alloc-Allocates nbytes j ss ss' r k d h pos_bytes small heap fit =
      let n = blocks_of nbytes in
      let v = l.heap_start + j * mem_block_size in
      let a : Allocates l k.mem n j ss ss' = mem_alloc-first_fit l k.mem n heap (omega arith) fit in
      let round : n ≡ rounded nbytes = omega arith in
      let (k', e, w) =
        mem_alloc_call nbytes v a.after r k d h
          (subst (λ z. Memory.mem_alloc l k.mem z ≡ done (v, a.after)) round a.returns) in
      (a, k', record r { a0 = v }, e, w, omega arith)
