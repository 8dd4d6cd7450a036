-- ===== src/Timer/Ticks.antt =====
-- Several ticks in a row: how long a thread sleeps.
use kernel_riscv.Base.{
  ℕ, zero, suc, ◌+◌, ◌-◌, ◌^◌, ◌<◌, ◌≡◌, ◌≢◌, refl, ◌∙◌, ap, sym, subst, List, [], ◌∷◌, ◌++◌, arith,
}
use kernel_riscv.Memory.{Layout, Mem, mem_alloc, mem_free, free_ok, done}
use kernel_riscv.Links.Queue.{NotIn, Distinct, IsQueue, IsQueue-frame, Apart-one}
use kernel_riscv.Kernel.{Kernel, M, ◌>>◌, and_then, pure, blocks_of, sizeof_sleeping_thread}
use kernel_riscv.Scheduler.{scheduler_timeout}
use kernel_riscv.Scheduler.Ready.{Ready}
use kernel_riscv.Scheduler.Sleepers.Entries.{Asleep}
use kernel_riscv.Scheduler.Sleepers.Sleep.{Slept, scheduler_timeout-Slept}
use kernel_riscv.Timer.{scheduler_tick}
use kernel_riscv.Timer.Wake.{ApartQueues}
use kernel_riscv.Timer.Tick.{
  scheduler_tick-Ticked, scheduler_tick-early, head_sooner, head_sooner-Asleep,
}

unfoldable pub ticks : Layout → ℕ → M (Unit {0})
ticks l zero = pure tt
ticks l (suc n) = ticks l n >> scheduler_tick l

-- Only deltas have changed.
pub record OnlyDeltas (k k' : Kernel) : Type 0 where
  pub mem : k'.mem ≡ k.mem
  pub links : k'.links ≡ k.links
  pub scheduler : k'.scheduler ≡ k.scheduler
  pub thread_at : k'.thread_at ≡ k.thread_at
  pub sem_at : k'.sem_at ≡ k.sem_at
  pub context_at : k'.context_at ≡ k.context_at
  pub entries :
      (p : ℕ)
      → ((k'.sleeping_at p).thread ≡ (k.sleeping_at p).thread)
        × ((k'.sleeping_at p).semaphore ≡ (k.sleeping_at p).semaphore)

pub head_sooner-entries :
    (k : Kernel) (q : ℕ)
    → (((head_sooner k).sleeping_at q).thread ≡ (k.sleeping_at q).thread)
      × (((head_sooner k).sleeping_at q).semaphore ≡ (k.sleeping_at q).semaphore)
head_sooner-entries k q = (ground arith, ground arith)

-- While the only sleeper is not due, ticks change only its delta.
pub ticks-early :
    (l : Layout) (n r : ℕ) (k : Kernel) (p : ℕ)
    → Asleep k ((p, n + suc r) ∷ [])
    → (k' : Kernel) × (ticks l n k ≡ done (tt, k')) × Asleep k' ((p, suc r) ∷ []) × OnlyDeltas k k'
unfolding ticks
ticks-early l zero r k p a = (
  k,
  refl,
  subst (λ t. Asleep k ((p, t) ∷ [])) (omega arith) a,
  record {
    mem = refl;
    links = refl;
    scheduler = refl;
    thread_at = refl;
    sem_at = refl;
    context_at = refl;
    entries = λ q. (refl, refl);
  },
)
ticks-early l (suc n) r k p a =
    let (k1, e, a1, o) =
      ticks-early l n (suc r) k p (subst (λ t. Asleep k ((p, t) ∷ [])) (omega arith) a) in
    (
      head_sooner k1,
      ap (λ z. and_then z (λ _. scheduler_tick l)) e
          ∙ scheduler_tick-early l k1 p (suc (suc r)) [] a1 (omega arith),
      subst (λ t. Asleep (head_sooner k1) ((p, t) ∷ [])) (omega arith)
          (head_sooner-Asleep k1 p (suc (suc r)) [] a1 (omega arith)),
      record {
        mem = o.mem;
        links = o.links;
        scheduler = o.scheduler;
        thread_at = o.thread_at;
        sem_at = o.sem_at;
        context_at = o.context_at;
        entries =
            λ q. let h = head_sooner-entries k1 q in (h.0 ∙ (o.entries q).0, h.1 ∙ (o.entries q).1);
      },
    )

-- What a sleep of `time` ticks comes to, for `thread`, when nobody else sleeps and `xs` are ready.
pub record Sleeps (l : Layout) (k : Kernel) (thread time : ℕ) (xs : List ℕ) (m : Mem) : Type 0 where
  pub after : Kernel
  pub wakes : (scheduler_timeout l thread time 0 >> ticks l time) k ≡ done (tt, after)
  pub ready : Ready after (xs ++ (thread ∷ []))
  pub alone : after.scheduler.sleeping_threads ≡ 0
  pub mem : after.mem ≡ m
  pub before :
      (n : ℕ)
      → n < time
      → (k' : Kernel) × ((scheduler_timeout l thread time 0 >> ticks l n) k ≡ done (tt, k'))
        × Ready k' xs
        × (k'.scheduler.sleeping_threads ≢ 0)

-- A ready queue without the new entry is as before.
Slept-Ready :
    (k k' : Kernel) (m : Mem) (thread semaphore p : ℕ) (ss : List (ℕ × ℕ)) (xs : List ℕ)
    → Slept k k' m thread semaphore p [] ss
    → NotIn p xs
    → Ready k xs
    → Ready k' xs
Slept-Ready k k' m thread semaphore p ss xs s n r =
    subst (λ h. IsQueue k'.links h xs) (sym (ap (λ z. z.scheduler.ready_threads) s.frame))
      (IsQueue-frame k.links k'.links (p ∷ []) k.scheduler.ready_threads xs s.outside
        (Apart-one p xs n) r)

OnlyDeltas-Ready : (k k' : Kernel) (xs : List ℕ) → OnlyDeltas k k' → Ready k xs → Ready k' xs
OnlyDeltas-Ready k k' xs o r =
    subst (λ z. IsQueue z k'.scheduler.ready_threads xs) (sym o.links)
      (subst (λ z. IsQueue k.links z.ready_threads xs) (sym o.scheduler) r)

pub ticks-last :
    (l : Layout) (n : ℕ) (k : Kernel)
    → 0 < n
    → ticks l n k ≡ and_then (ticks l (n - 1) k) (λ _. scheduler_tick l)
unfolding ticks
ticks-last l zero k h = absurd (omega arith)
ticks-last l (suc n) k h =
    let e : suc n - 1 ≡ n = omega arith in
    ap (λ z. and_then (ticks l z k) (λ _. scheduler_tick l)) (sym e)

alone_apart :
    (th : ℕ → ℕ) (p thread : ℕ) (xs : List ℕ)
    → th p ≡ thread
    → Distinct (p ∷ thread ∷ xs)
    → NotIn 0 (thread ∷ xs)
    → ApartQueues th ((p, 1) ∷ []) xs
alone_apart th p thread xs e d o = record {
  nodes_apart = (subst (λ z. NotIn p (z ∷ xs)) (sym e) d.0, tt);
  distinct = subst (λ z. Distinct (z ∷ xs)) (sym e) d.1;
  nonnull = subst (λ z. NotIn 0 (z ∷ xs)) (sym e) o;
}

-- Nobody sleeps, the allocator gives a block for the entry and frees it later, and neither the
-- thread nor the entry is in the ready queue `xs`: a thread that sleeps for `time` > 0 ticks
-- without a semaphore is asleep after fewer ticks, with the ready queue as it was, and last in the
-- ready queue after exactly `time` ticks.
pub scheduler_timeout-Sleeps :
    (l : Layout) (k : Kernel) (m1 m : Mem) (thread time p : ℕ) (xs : List ℕ)
    → k.scheduler.sleeping_threads ≡ 0
    → 0 < time
    → time < 2 ^ 64
    → mem_alloc l k.mem (blocks_of sizeof_sleeping_thread) ≡ done (p, m1)
    → mem_free l m1 p ≡ (free_ok, m)
    → 1 < m1.n_mem_blocks
    → p ≢ 0
    → Ready k xs
    → Distinct (p ∷ thread ∷ xs)
    → NotIn 0 (thread ∷ xs)
    → Sleeps l k thread time xs m
scheduler_timeout-Sleeps l k m1 m thread time p xs none t b e f g nz r d o =
    let (k1, e1, s) =
      scheduler_timeout-Slept l k m1 thread 0 time p [] (record { queue = none; times = tt })
        (omega arith) b e nz tt in
    let r1 = Slept-Ready k k1 m1 thread 0 p ((p, time) ∷ []) xs s d.0.1 r in
    let mem1 : k1.mem ≡ m1 = ap (λ z. z.mem) s.frame in
    let (k2, e2, a2, w) =
      ticks-early l (time - 1) 0 k1 p
        (subst (λ z. Asleep k1 ((p, z) ∷ [])) (omega arith) s.asleep) in
    let th : ℕ → ℕ = λ q. (k2.sleeping_at q).thread in
    let same : th p ≡ thread = (w.entries p).0 ∙ s.entry.0 in
    let mem2 = w.mem ∙ mem1 in
    let (k3, e3, u) =
      scheduler_tick-Ticked l th k2 m (p ∷ []) [] xs (subst (λ z. 1 < z.n_mem_blocks) (sym mem2) g)
        a2 tt (OnlyDeltas-Ready k1 k2 xs w r1) (alone_apart th p thread xs same d o) (λ q. refl)
        ((w.entries p).1 ∙ s.entry.1, tt)
        (m, subst (λ z. mem_free l z p ≡ (free_ok, m)) (sym mem2) f, refl) in
    record {
      after = k3;
      wakes =
          ap (λ z. and_then z (λ _. ticks l time)) e1
          ∙ ticks-last l time k1 t
          ∙ ap (λ z. and_then z (λ _. scheduler_tick l)) e2
          ∙ e3;
      ready = subst (λ z. Ready k3 (xs ++ (z ∷ []))) same u.ready;
      alone = u.asleep.queue;
      mem = u.mem;
      before = λ n h.
          let (k', e', a', w') =
            ticks-early l n (time - suc n) k1 p
              (subst (λ z. Asleep k1 ((p, z) ∷ [])) (omega (arith, h)) s.asleep) in
          (
            k',
            ap (λ z. and_then z (λ _. ticks l n)) e1 ∙ e',
            OnlyDeltas-Ready k1 k' xs w' r1,
            (λ z. a'.queue.nonnull.0 (sym z ∙ a'.queue.first)),
          );
    }
