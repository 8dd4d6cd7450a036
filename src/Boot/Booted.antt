-- ===== src/Boot/Booted.antt =====
-- What `main` of src/main.c has set up when it leaves for the first thread.
use kernel_riscv.Base.{
  ℕ, ◌+◌, ◌-◌, ◌*◌, ◌^◌, ◌≤◌, ◌<◌, ◌≡◌, ◌≢◌, refl, ◌∙◌, ap, sym, subst, List, [], ◌∷◌, arith, add64,
  add64_lt, ne→==,
}
use kernel_riscv.Memory.{Layout, Mem, mem_init, mem_alloc, done, mem_block_size}
use kernel_riscv.Memory.Segments.{Seg}
use kernel_riscv.Memory.Tiles.{IsHeap}
use kernel_riscv.Memory.Init.{blocks, index_blocks, mem_init-IsHeap}
use kernel_riscv.Kernel.{Kernel, alloc, put_self, set_thread}
use kernel_riscv.Scheduler.{scheduler_init, user_thread_increment}
use kernel_riscv.Scheduler.Ready.{Ready}
use kernel_riscv.Threads.{clear_bit}
use kernel_riscv.Threads.Create.{Created, thread_create-Created}
use kernel_riscv.ConsoleIo.{console_init}
use kernel_riscv.Boot.{init_heap, boot}
use kernel_riscv.Boot.Bump.{runs, mem_alloc-runs}

-- the kernel before the first thread is made: `main` is the kernel's own thread
abbrev prepared : (main : ℕ) → Mem → Kernel → Kernel
prepared main m k =
    record (set_thread main (record (k.thread_at main) { bp = 0; time_left = 1 }) k) {
      mem = m;
      cpu = record (k.cpu) { sstatus = clear_bit k.cpu.sstatus 1 };
      console = record (k.console) { receive_cnt = 0; send_cnt = 0; waiting_for_input = 0 };
      scheduler = record {
        user_thread_count = 0;
        ready_threads = 0;
        sleeping_threads = 0;
        thread_current = main;
        kernel_main = main;
      };
    }

module _ (l : Layout) (wrapper user_main : ℕ) (k : Kernel) where
  -- the run of `main`, given what its seven allocations return
  boot_run :
      (m1 m2 m3 m4 m5 m6 m7 : Mem) (p1 p2 main p4 system user t : ℕ)
      → mem_alloc l (mem_init l k.mem.mem_index) 16 ≡ done (p1, m1)
      → mem_alloc l m1 16 ≡ done (p2, m2)
      → mem_alloc l m2 1 ≡ done (main, m3)
      → mem_alloc l m3 1 ≡ done (p4, m4)
      → mem_alloc l m4 64 ≡ done (system, m5)
      → mem_alloc l m5 64 ≡ done (user, m6)
      → mem_alloc l m6 1 ≡ done (t, m7)
      → main ≢ 0
      → p4 ≢ 0
      → system ≢ 0
      → user ≢ 0
      → t ≢ 0
      → (k' : Kernel) × (boot l wrapper user_main k ≡ done ((add64 system 4088, t), k'))
        × Created (prepared main m6 k) k' m7 wrapper user_main 0 (add64 user 4088) t []
  unfolding boot init_heap console_init scheduler_init alloc
  boot_run m1 m2 m3 m4 m5 m6 m7 p1 p2 main p4 system user t e1 e2 e3 e4 e5 e6 e7 n3 n4 n5 n6 n7 =
      let (k', run, c) =
        thread_create-Created l (prepared main m6 k) m7 wrapper user_main 0 (add64 user 4088) t []
          refl e7 n7 tt in
      (
        k',
        rw
            (
              e1,
              e2,
              e3,
              ne→== main 0 n3,
              e4,
              ne→== p4 0 n4,
              e5,
              e6,
              ne→== system 0 n5,
              ne→== user 0 n6,
              run,
            )
            refl,
        c,
      )

-- the address of block `j`
abbrev pub block : Layout → ℕ → ℕ
block l j = l.heap_start + j * mem_block_size

-- The kernel's own thread `main` is current, the thread `t` alone is ready, to enter the wrapper
-- with `user_main` on a stack at `stack`; both have time left, nobody sleeps or waits for input, and
-- the runs `ss` describe the heap.
pub record Booted (k' : Kernel) (wrapper user_main main t stack : ℕ) (ss : List Seg) : Type 0 where
  pub heap : IsHeap k'.mem ss
  pub ready : Ready k' (t ∷ [])
  pub current : (k'.scheduler.thread_current ≡ main) × (k'.scheduler.kernel_main ≡ main)
  pub asleep : k'.scheduler.sleeping_threads ≡ 0
  pub counted : k'.scheduler.user_thread_count ≡ 1
  pub console :
      (k'.console.receive_cnt ≡ 0) × (k'.console.send_cnt ≡ 0) × (k'.console.waiting_for_input ≡ 0)
  pub entry : (k'.thread_at t).sepc ≡ wrapper
  pub starts :
      ((k'.context_at (k'.thread_at t).sp).a0 ≡ user_main)
      × ((k'.context_at (k'.thread_at t).sp).a1 ≡ 0)
  pub inside : (stack ≤ (k'.thread_at t).sp) × ((k'.thread_at t).sp + 0x100 ≤ stack + 4096)
  pub frees : (k'.thread_at t).bp ≡ stack
  pub slices : ((k'.thread_at main).time_left ≡ 1) × ((k'.thread_at t).time_left ≡ 2)

booted :
    (wrapper user_main main t stack : ℕ) (k k' : Kernel) (m6 m7 : Mem) (ss : List Seg)
    → Created (prepared main m6 k) k' m7 wrapper user_main 0 (add64 stack 4088) t []
    → IsHeap m7 ss
    → stack + 4096 ≤ 2 ^ 64
    → main ≢ t
    → Booted k' wrapper user_main main t stack ss
unfolding user_thread_increment
booted wrapper user_main main t stack k k' m6 m7 ss c h b apart =
    let sp : (k'.thread_at t).sp ≡ stack + 3832 = ap (λ z. z.sp) c.thread ∙ omega (arith, b) in
    record {
      heap = subst (λ z. IsHeap z ss) (sym (ap (λ z. z.mem) c.frame)) h;
      ready = c.ready;
      current =
          (ap (λ z. z.scheduler.thread_current) c.frame, ap (λ z. z.scheduler.kernel_main) c.frame);
      asleep = ap (λ z. z.scheduler.sleeping_threads) c.frame;
      counted = c.counted;
      console = (
        ap (λ z. z.console.receive_cnt) c.frame,
        ap (λ z. z.console.send_cnt) c.frame,
        ap (λ z. z.console.waiting_for_input) c.frame,
      );
      entry = ap (λ z. z.sepc) c.thread;
      starts = (
        ap (λ z. (k'.context_at z.sp).a0) c.thread ∙ c.starts.1,
        ap (λ z. (k'.context_at z.sp).a1) c.thread ∙ c.starts.2,
      );
      inside = (omega (arith, sp), omega (arith, sp));
      frees = ap (λ z. z.bp) c.thread ∙ omega (arith, b);
      slices = (
        ap (λ z. z.time_left) (c.threads main apart ∙ put_self k.thread_at main _),
        ap (λ z. z.time_left) c.thread,
      );
    }

-- the sizes of the allocations: the index, both console buffers, the kernel's thread, the
-- scheduler, both stacks, and the first thread
abbrev pub boot_sizes : Layout → List ℕ
boot_sizes l = index_blocks l ∷ 16 ∷ 16 ∷ 1 ∷ 1 ∷ 64 ∷ 64 ∷ 1 ∷ []

-- On a heap with room for what `main` allocates and one block more, fewer than 2^31 blocks, below
-- 2^64, whatever the memory held: `main` comes to its first `ecall`, with the system's stack and the
-- first user thread in the blocks that it allocated one behind the other, and the first user thread
-- is the only ready one.
pub boot-Booted :
    (l : Layout) (wrapper user_main : ℕ) (k : Kernel)
    → l.heap_start ≤ l.heap_end
    → l.heap_end < 2 ^ 64
    → index_blocks l + 163 < blocks l
    → blocks l < 2 ^ 31
    → (k' : Kernel) × (boot l wrapper user_main k
        ≡ done ((block l (index_blocks l + 34) + 4088, block l (index_blocks l + 162)), k'))
      × Booted k' wrapper user_main
          (block l (index_blocks l + 32))
          (block l (index_blocks l + 162))
          (block l (index_blocks l + 98))
          (runs (boot_sizes l) (blocks l - index_blocks l - 163))
boot-Booted l wrapper user_main k ordered address enough small =
    let i = index_blocks l in
    let f = blocks l - i in
    let start = mem_init-IsHeap l k.mem.mem_index ordered address (omega arith) small in
    let a1 =
      mem_alloc-runs l (mem_init l k.mem.mem_index) 16 f (i ∷ []) start (omega arith)
        (omega arith) in
    let a2 =
      mem_alloc-runs l a1.after 16 (f - 16) (i ∷ 16 ∷ []) a1.heap (omega arith) (omega arith) in
    let a3 =
      mem_alloc-runs l a2.after 1 (f - 16 - 16) (i ∷ 16 ∷ 16 ∷ []) a2.heap (omega arith)
        (omega arith) in
    let a4 =
      mem_alloc-runs l a3.after 1 (f - 16 - 16 - 1) (i ∷ 16 ∷ 16 ∷ 1 ∷ []) a3.heap (omega arith)
        (omega arith) in
    let a5 =
      mem_alloc-runs l a4.after 64 (f - 16 - 16 - 1 - 1) (i ∷ 16 ∷ 16 ∷ 1 ∷ 1 ∷ []) a4.heap
        (omega arith) (omega arith) in
    let a6 =
      mem_alloc-runs l a5.after 64 (f - 16 - 16 - 1 - 1 - 64) (i ∷ 16 ∷ 16 ∷ 1 ∷ 1 ∷ 64 ∷ [])
        a5.heap (omega arith) (omega arith) in
    let a7 =
      mem_alloc-runs l a6.after 1 (f - 16 - 16 - 1 - 1 - 64 - 64)
        (i ∷ 16 ∷ 16 ∷ 1 ∷ 1 ∷ 64 ∷ 64 ∷ []) a6.heap (omega arith) (omega arith) in
    let (k', run, c) =
      boot_run l wrapper user_main k a1.after a2.after a3.after a4.after a5.after a6.after a7.after
        (block l (i + 0)) (block l (i + (16 + 0))) (block l (i + 32)) (block l (i + 33))
        (block l (i + 34)) (block l (i + 98)) (block l (i + 162)) a1.returns a2.returns a3.returns
        a4.returns a5.returns a6.returns a7.returns (omega arith) (omega arith) (omega arith)
        (omega arith) (omega arith) in
    let left : f - 16 - 16 - 1 - 1 - 64 - 64 - 1 ≡ f - 163 = omega arith in
    (
      k',
      subst (λ z. boot l wrapper user_main k ≡ done ((z, block l (i + 162)), k'))
          (add64_lt (block l (i + 34)) 4088 (omega (arith, ordered, address, enough))) run,
      booted wrapper user_main (block l (i + 32)) (block l (i + 162)) (block l (i + 98)) k k'
          a6.after a7.after (runs (boot_sizes l) (f - 163)) c
          (subst (λ z. IsHeap a7.after (runs (boot_sizes l) z)) left a7.heap)
          (omega (arith, ordered, address, enough)) (omega arith),
    )
