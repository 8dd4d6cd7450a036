-- ===== src/Threads/Create.antt =====
-- `__thread_create` of src/thread.c, for a user thread.
use kernel_riscv.Base.{
  ℕ, ◌≡◌, ◌≢◌, refl, pos, negsuc, List, [], ◌∷◌, ◌++◌, sub64, add64, eq→==, ne→==, arith,
}
use kernel_riscv.Memory.{Layout, Mem, mem_alloc, done}
use kernel_riscv.Links.Queue.{NotIn, SameOutside}
use kernel_riscv.Kernel.{Kernel, alloc, blocks_of, sizeof_thread, default_stack_size}
use kernel_riscv.Scheduler.{scheduler_push, user_thread_increment}
use kernel_riscv.Scheduler.Ready.{Ready, scheduler_push-PushedReady}
use kernel_riscv.Threads.{thread_create, setup_thread, exec_mode_user, clear_bit, new_sstatus}

-- What is left of `k` with a new thread `t`, which has its first context at `sp`; `xs` were ready.
pub record Created (k k' : Kernel) (m : Mem) (wrapper start_f arg stack_space t : ℕ) (xs : List ℕ)
    : Type 0 where
  pub ready : Ready k' (xs ++ (t ∷ []))
  pub thread : k'.thread_at t ≡ record {
    sp = sub64 stack_space 0x100;
    bp = add64 (sub64 stack_space default_stack_size) 8;
    sstatus = clear_bit k.cpu.sstatus 8;
    sepc = wrapper;
    time_left = 2;
  }
  pub starts :
      ((k'.context_at (sub64 stack_space 0x100)).sp ≡ sub64 stack_space 0x100)
      × ((k'.context_at (sub64 stack_space 0x100)).a0 ≡ start_f)
      × ((k'.context_at (sub64 stack_space 0x100)).a1 ≡ arg)
  pub threads : (q : ℕ) → q ≢ t → k'.thread_at q ≡ k.thread_at q
  pub contexts : (q : ℕ) → q ≢ sub64 stack_space 0x100 → k'.context_at q ≡ k.context_at q
  pub links : SameOutside (t ∷ xs) k.links k'.links
  pub counted :
      k'.scheduler.user_thread_count ≡ (user_thread_increment k).scheduler.user_thread_count
  pub frame : k' ≡ record k {
    mem = m;
    links = k'.links;
    thread_at = k'.thread_at;
    context_at = k'.context_at;
    scheduler = record (k.scheduler) {
      user_thread_count = k'.scheduler.user_thread_count;
      ready_threads = k'.scheduler.ready_threads;
    };
  }

created :
    (k : Kernel) (m : Mem) (wrapper start_f arg stack_space t : ℕ) (xs : List ℕ)
    → Ready k xs
    → t ≢ 0
    → NotIn t xs
    → Created k
        (scheduler_push t
          (setup_thread wrapper t start_f arg stack_space exec_mode_user (record k { mem = m })))
        m
        wrapper
        start_f
        arg
        stack_space
        t
        xs
unfolding setup_thread scheduler_push user_thread_increment new_sstatus
created k m wrapper start_f arg stack_space t xs q nz n =
    let k1 = setup_thread wrapper t start_f arg stack_space exec_mode_user (record k { mem = m }) in
    let p = scheduler_push-PushedReady k1 t xs q nz n in
    record {
      ready = p.ready;
      thread = rw (eq→== t t refl) refl;
      starts = (ground arith, ground arith, ground arith);
      threads = λ z o. ground (arith, o);
      contexts = λ z o. ground (arith, o);
      links = p.links;
      counted = refl;
      frame = refl;
    }

-- Where the allocator gives the block `t`, which is not in the ready queue `xs`, for the structure:
-- the call returns 0 and `t`, a thread that is ready last, with a full time slice, in user mode,
-- and that will enter the wrapper with the given function and argument. No other thread and no
-- other context changes.
pub thread_create-Created :
    (l : Layout) (k : Kernel) (m : Mem) (wrapper start_f arg stack_space t : ℕ) (xs : List ℕ)
    → Ready k xs
    → mem_alloc l k.mem (blocks_of sizeof_thread) ≡ done (t, m)
    → t ≢ 0
    → NotIn t xs
    → (k' : Kernel) × (thread_create l wrapper start_f arg stack_space exec_mode_user k
        ≡ done ((pos 0, t), k'))
      × Created k k' m wrapper start_f arg stack_space t xs
unfolding thread_create alloc
thread_create-Created l k m wrapper start_f arg stack_space t xs q e nz n =
    let k1 = setup_thread wrapper t start_f arg stack_space exec_mode_user (record k { mem = m }) in
    (
      scheduler_push t k1,
      rw (e, ne→== t 0 nz) refl,
      created k m wrapper start_f arg stack_space t xs q nz n,
    )

-- Where the allocator returns the null pointer, the call returns -1 and changes nothing else.
pub thread_create-none :
    (l : Layout) (k : Kernel) (m : Mem) (wrapper start_f arg stack_space : ℕ)
    → mem_alloc l k.mem (blocks_of sizeof_thread) ≡ done (0, m)
    → thread_create l wrapper start_f arg stack_space exec_mode_user k
      ≡ done ((negsuc 0, 0), record k { mem = m })
unfolding thread_create alloc
thread_create-none l k m wrapper start_f arg stack_space e = rw e refl
