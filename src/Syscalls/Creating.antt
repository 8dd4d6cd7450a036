-- ===== src/Syscalls/Creating.antt =====
-- `thread_create` of src/syscall_c.c, through both of its traps.
use kernel_riscv.Base.{
  ℕ, ◌+◌, ◌-◌, ◌^◌, ◌≤◌, ◌<◌, ◌≡◌, ◌≢◌, refl, ◌∙◌, ap, sym, subst, ℤ, pos, negsuc, List, [], ◌∷◌,
  ◌++◌, arith, ne→==, add64, sub64, to_u64,
}
use kernel_riscv.Memory.{Layout, Mem, Run, done}
use kernel_riscv.Memory as Memory
use kernel_riscv.Links.Queue.{NotIn}
use kernel_riscv.Kernel.{Context, Kernel, blocks_of, put_self, sizeof_thread, default_stack_size}
use kernel_riscv.ConsoleIo.{Device}
use kernel_riscv.Scheduler.{user_thread_increment}
use kernel_riscv.Scheduler.Ready.{Ready}
use kernel_riscv.Threads as Threads
use kernel_riscv.Threads.{exec_mode_user}
use kernel_riscv.Threads.Create.{thread_create-Created, thread_create-none}
use kernel_riscv.Trap.{irq_handler, user_call, cause_of, syscall_of, syscall, skip_ecall, return_to}
use kernel_riscv.Trap.Entry.{irq_wrap, save_context}
use kernel_riscv.Syscalls.{thread_create, create_with, mem_free, call_with_1}
use kernel_riscv.Syscalls.Returning.{user_ecall, entered, back, mem_alloc_call, unknown_code}

-- The new thread `t`, on a stack at `stack`, is ready behind `xs`, and will enter the wrapper with
-- the function and its argument; its stack and first context lie in the allocated block.
pub record Started (k k' : Kernel) (m : Mem) (wrapper start_f arg stack t : ℕ) (xs : List ℕ)
    : Type 0 where
  pub mem : k'.mem ≡ m
  pub ready : Ready k' (xs ++ (t ∷ []))
  pub entry : (k'.thread_at t).sepc ≡ wrapper
  pub starts :
      ((k'.context_at (k'.thread_at t).sp).a0 ≡ start_f)
      × ((k'.context_at (k'.thread_at t).sp).a1 ≡ arg)
  pub inside : (stack ≤ (k'.thread_at t).sp) × ((k'.thread_at t).sp + 0x100 ≤ stack + 4096)
  pub frees : (k'.thread_at t).bp ≡ stack
  pub slice : (k'.thread_at t).time_left ≡ 2
  pub others : (q : ℕ) → q ≢ t → k'.thread_at q ≡ k.thread_at q
  pub current : k'.scheduler.thread_current ≡ k.scheduler.thread_current
  pub counted : k'.scheduler.user_thread_count ≡ add64 k.scheduler.user_thread_count 1

module _ (dev : Device) (plic_claim : dev.Dev → ℕ × dev.Dev) (plic_complete : ℕ → dev.Dev → dev.Dev)
    (l : Layout) (wrapper : ℕ) where
  abbrev ecall : Context → Kernel × dev.Dev → Run (Context × (Kernel × dev.Dev))
  ecall = user_ecall dev plic_claim plic_complete l wrapper

  abbrev at_ecall : Context → Kernel → Kernel
  at_ecall = entered dev plic_claim plic_complete l wrapper

  user_call-create :
      (k k3 : Kernel) (d : dev.Dev) (res : ℤ) (t : ℕ)
      → (k.context_at k.cpu.sscratch).a0 ≡ 0x11
      → (let c = k.context_at k.cpu.sscratch in
          Threads.thread_create l wrapper c.a2 c.a3 c.a4 exec_mode_user (skip_ecall k)
          ≡ done ((res, t), k3))
      → user_call dev plic_claim plic_complete l wrapper k d
        ≡ done (return_to k.cpu.sscratch (to_u64 res) k3, d)
  unfolding user_call syscall_of syscall
  user_call-create k k3 d res t a e = rw (user_call, a, e) refl

  create_call :
      (r : Context) (k k3 : Kernel) (d : dev.Dev) (res : ℤ) (t : ℕ)
      → r.sp < 2 ^ 64
      → r.a0 ≡ 0x11
      → Threads.thread_create l wrapper r.a2 r.a3 r.a4 exec_mode_user (at_ecall r k)
        ≡ done ((res, t), k3)
      → k3.cpu.sscratch ≡ sub64 r.sp 0x100
      → k3.context_at (sub64 r.sp 0x100) ≡ record r { sp = sub64 r.sp 0x100 }
      → ecall r (k, d)
        ≡ done (record r { a0 = to_u64 res }, (return_to (sub64 r.sp 0x100) (to_u64 res) k3, d))
  unfolding irq_wrap irq_handler cause_of save_context
  create_call r k k3 d res t h a e here saved =
      let p = sub64 r.sp 0x100 in
      let s = put_self k.context_at p (record r { sp = p }) in
      rw
        (
          user_call-create (save_context r k) k3 d res t (ap (λ c. c.a0) s ∙ a) (
              ap (λ c. Threads.thread_create l wrapper c.a2 c.a3 c.a4 exec_mode_user (at_ecall r k))
                s
              ∙ e),
          back dev plic_claim plic_complete l wrapper r (to_u64 res) k3 h here saved,
        )
        refl

  -- the registers at the second trap
  abbrev passed : (stack : ℕ) → Context → Context
  passed stack r = record r {
    a0 = 0x11;
    a1 = r.a2;
    a2 = r.a3;
    a3 = r.a4;
    a4 = add64 stack (default_stack_size - 8);
  }

  create_with-Started :
      (a1 a2 a3 a4 stack t : ℕ) (xs : List ℕ) (m : Mem) (r : Context) (k : Kernel) (d : dev.Dev)
      → r.sp < 2 ^ 64
      → Ready k xs
      → Memory.mem_alloc l k.mem (blocks_of sizeof_thread) ≡ done (t, m)
      → t ≢ 0
      → NotIn t xs
      → stack + 4096 < 2 ^ 64
      → sub64 r.sp 0x100 ≢ stack + 3832
      → (k' : Kernel) × (create_with ecall a1 a2 a3 a4 stack (r, (k, d))
          ≡ done (pos 0, (record r { a0 = 0; a1 = a1; a2 = a2; a3 = a3; a4 = a4 }, (k', d))))
        × Started k k' m wrapper r.a3 r.a4 stack t xs
  unfolding create_with save_context user_thread_increment
  create_with-Started a1 a2 a3 a4 stack t xs m r k d h q e nz n b apart =
      let r4 = passed stack r in
      let p = sub64 r.sp 0x100 in
      let sp : sub64 r4.a4 0x100 ≡ stack + 3832 = omega (arith, b) in
      let (k3, e3, c) =
        thread_create-Created l (at_ecall r4 k) m wrapper r4.a2 r4.a3 r4.a4 t xs q e nz n in
      let saved =
        c.contexts p (λ z. apart (z ∙ sp)) ∙ put_self k.context_at p (record r4 { sp = p }) in
      let k' = return_to p 0 k3 in
      let new = sub64 r4.a4 0x100 in
      let other : k'.context_at new ≡ k3.context_at new =
        rw (ne→== new p (λ z. apart (sym z ∙ sp))) refl in
      let first : k'.context_at (k'.thread_at t).sp ≡ k3.context_at new =
        ap k'.context_at (ap (λ z. z.sp) c.thread) ∙ other in
      let at : (k3.thread_at t).sp ≡ stack + 3832 = ap (λ z. z.sp) c.thread ∙ sp in
      (
        k',
        rw (create_call r4 k k3 d (pos 0) t h refl e3 (ap (λ z. z.cpu.sscratch) c.frame) saved)
            refl,
        record {
          mem = ap (λ z. z.mem) c.frame;
          ready = c.ready;
          entry = ap (λ z. z.sepc) c.thread;
          starts = (ap (λ z. z.a0) first ∙ c.starts.1, ap (λ z. z.a1) first ∙ c.starts.2);
          inside = (omega (arith, at), omega (arith, at));
          frees = ap (λ z. z.bp) c.thread ∙ omega (arith, b);
          slice = ap (λ z. z.time_left) c.thread;
          others = c.threads;
          current = ap (λ z. z.scheduler.thread_current) c.frame;
          counted = c.counted;
        },
      )

  create_with-none :
      (a1 a2 a3 a4 stack : ℕ) (m : Mem) (r : Context) (k : Kernel) (d : dev.Dev)
      → r.sp < 2 ^ 64
      → Memory.mem_alloc l k.mem (blocks_of sizeof_thread) ≡ done (0, m)
      → (k' : Kernel) × (r' : Context) × (create_with ecall a1 a2 a3 a4 stack (r, (k, d))
          ≡ done (negsuc 0, (r', (k', d))))
        × (k' ≡ record k { mem = m; context_at = k'.context_at; cpu = k'.cpu })
  unfolding create_with save_context mem_free call_with_1 syscall_of
  create_with-none a1 a2 a3 a4 stack m r k d h e =
      let r4 = passed stack r in
      let p = sub64 r.sp 0x100 in
      let k2 = at_ecall r4 k in
      let k3 = record k2 { mem = m } in
      let k4 = return_to p (2 ^ 64 - 1) k3 in
      let r5 = record r { a0 = 2 ^ 64 - 1; a1 = a1; a2 = a2; a3 = a3; a4 = a4 } in
      let ptr = add64 (sub64 (add64 stack (default_stack_size - 8)) default_stack_size) 8 in
      let (k', r', run, w) =
        unknown_code dev plic_claim plic_complete l wrapper 2 ptr r5 k4 d h refl in
      (
        k',
        r',
        rw
            (
              create_call r4 k k3 d (negsuc 0) 0 h refl
                  (thread_create-none l k2 m wrapper r4.a2 r4.a3 r4.a4 e) refl
                  (put_self k.context_at p (record r4 { sp = p })),
              run,
            )
            refl,
        w.frame,
      )

  -- The stack pointer is below 2^64, `xs` are ready, the allocator gives the blocks at `stack` for
  -- the stack, below 2^64, and then the block `t` for the structure, which is not in `xs`, and the
  -- caller's context is not where the new thread's will be. Then `thread_create` returns 0 with the
  -- caller's other registers as they were on entry, and the new thread is ready last, to enter the
  -- wrapper with the function and its argument on that stack; no other thread changes, and there
  -- is one user thread more.
  pub thread_create-Started :
      (handle start_f arg stack t : ℕ) (xs : List ℕ) (m1 m : Mem) (r : Context) (k : Kernel)
      (d : dev.Dev)
      → r.sp < 2 ^ 64
      → Ready k xs
      → Memory.mem_alloc l k.mem (blocks_of default_stack_size) ≡ done (stack, m1)
      → stack ≢ 0
      → stack + 4096 < 2 ^ 64
      → Memory.mem_alloc l m1 (blocks_of sizeof_thread) ≡ done (t, m)
      → t ≢ 0
      → NotIn t xs
      → sub64 r.sp 0x100 ≢ stack + 3832
      → (k' : Kernel) × (thread_create ecall handle start_f arg (r, (k, d))
          ≡ done (pos 0, (record r { a0 = 0; a1 = start_f; a2 = arg }, (k', d))))
        × Started k k' m wrapper start_f arg stack t xs
  unfolding thread_create
  thread_create-Started handle start_f arg stack t xs m1 m r k d h q e1 some b e2 nz n apart =
      let r1 = record r { a0 = handle; a1 = start_f; a2 = handle; a3 = start_f; a4 = arg } in
      let (k1, run1, w) =
        mem_alloc_call dev plic_claim plic_complete l wrapper default_stack_size stack m1 r1 k d h
          e1 in
      let (k', run2, s) =
        create_with-Started start_f arg r.a3 r.a4 stack t xs m (record r1 { a0 = stack }) k1 d h
          (subst (λ z. Ready z xs) (sym w.frame) q)
          (subst (λ z. Memory.mem_alloc l z 1 ≡ done (t, m)) (sym (ap (λ z. z.mem) w.frame)) e2) nz
          n b apart in
      (
        k',
        rw (run1, ne→== stack 0 some, run2) refl,
        record {
          mem = s.mem;
          ready = s.ready;
          entry = s.entry;
          starts = s.starts;
          inside = s.inside;
          frees = s.frees;
          slice = s.slice;
          others = λ z o. s.others z o ∙ ap (λ v. v.thread_at z) w.frame;
          current = s.current ∙ ap (λ v. v.scheduler.thread_current) w.frame;
          counted = s.counted ∙ ap (λ v. add64 v.scheduler.user_thread_count 1) w.frame;
        },
      )

  -- The stack pointer is below 2^64, the allocator gives the blocks at `stack` for the stack, and
  -- then none for the structure: `thread_create` returns -1 and creates no thread, and the blocks
  -- of the stack stay allocated.
  pub thread_create-leaks :
      (handle start_f arg stack : ℕ) (m1 : Mem) (r : Context) (k : Kernel) (d : dev.Dev)
      → r.sp < 2 ^ 64
      → Memory.mem_alloc l k.mem (blocks_of default_stack_size) ≡ done (stack, m1)
      → stack ≢ 0
      → Memory.mem_alloc l m1 (blocks_of sizeof_thread) ≡ done (0, m1)
      → (k' : Kernel) × (r' : Context) × (thread_create ecall handle start_f arg (r, (k, d))
          ≡ done (negsuc 0, (r', (k', d))))
        × (k'.mem ≡ m1)
        × (k'.links ≡ k.links)
        × (k'.thread_at ≡ k.thread_at)
        × (k'.scheduler ≡ k.scheduler)
  unfolding thread_create
  thread_create-leaks handle start_f arg stack m1 r k d h e1 some e2 =
      let r1 = record r { a0 = handle; a1 = start_f; a2 = handle; a3 = start_f; a4 = arg } in
      let (k1, run1, w) =
        mem_alloc_call dev plic_claim plic_complete l wrapper default_stack_size stack m1 r1 k d h
          e1 in
      let (k', r', run2, f) =
        create_with-none start_f arg r.a3 r.a4 stack m1 (record r1 { a0 = stack }) k1 d h
          (subst (λ z. Memory.mem_alloc l z 1 ≡ done (0, m1)) (sym (ap (λ z. z.mem) w.frame)) e2) in
      (
        k',
        r',
        rw (run1, ne→== stack 0 some, run2) refl,
        ap (λ z. z.mem) f,
        ap (λ z. z.links) f ∙ ap (λ z. z.links) w.frame,
        ap (λ z. z.thread_at) f ∙ ap (λ z. z.thread_at) w.frame,
        ap (λ z. z.scheduler) f ∙ ap (λ z. z.scheduler) w.frame,
      )
