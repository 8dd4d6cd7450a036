-- ===== src/Timer/Tick.antt =====
-- `__scheduler_tick`: who wakes, and when the others will.
use mathlib.Core.List.{append-nil}
use kernel_riscv.Base.{
  ℕ, ◌-◌, ◌<◌, ◌≡◌, ◌≢◌, refl, ◌∙◌, ap, sym, subst, List, [], ◌∷◌, ◌++◌, map, arith, eq→==, ne→==,
  length, sub64, sub64_le,
}
use kernel_riscv.Memory.{Layout, Mem, done}
use kernel_riscv.Links.Queue.{NotIn, Apart, Distinct, IsQueue}
use kernel_riscv.Kernel.{Kernel}
use kernel_riscv.Scheduler.{set_delta}
use kernel_riscv.Scheduler.Ready.{Ready}
use kernel_riscv.Scheduler.Sleepers.{nodes, Timed}
use kernel_riscv.Scheduler.Sleepers.Entries.{Asleep}
use kernel_riscv.Scheduler.Sleepers.Times.{delta}
use kernel_riscv.Timer.{scheduler_tick}
use kernel_riscv.Timer.Wake.{ApartQueues, SameElse}
use kernel_riscv.Timer.Loop.{
  at_time, NotDue, Frees, Plain, Plain-same, ThreadsAre, SameElse-refl, tick_loop-Woken,
}

-- a tick later
abbrev pub sooner : List (ℕ × ℕ) → List (ℕ × ℕ)
sooner [] = []
sooner ((p, t) ∷ l) = (p, t - 1) ∷ sooner l

nodes-sooner : (ss : List (ℕ × ℕ)) → nodes (sooner ss) ≡ nodes ss
nodes-sooner [] = refl
nodes-sooner ((p, t) ∷ ss) = ap (λ z. p ∷ z) (nodes-sooner ss)

sooner-at_time :
    (ds : List ℕ) (us : List (ℕ × ℕ)) → sooner (at_time 1 ds ++ us) ≡ at_time 0 ds ++ sooner us
sooner-at_time [] us = refl
sooner-at_time (d ∷ ds) us = ap (λ z. (d, 0) ∷ z) (sooner-at_time ds us)

NotDue-sooner : (us : List (ℕ × ℕ)) → NotDue 1 us → NotDue 0 (sooner us)
NotDue-sooner [] n = tt
NotDue-sooner ((q, u) ∷ us) n = omega (arith, n)

-- Only the node `x` has another delta.
Timed-sooner :
    (k k1 : Kernel) (x before : ℕ) (ss : List (ℕ × ℕ))
    → 0 < before
    → ((z : ℕ) → z ≢ x → delta k1 z ≡ delta k z)
    → NotIn x (nodes ss)
    → Timed k before ss
    → Timed k1 (before - 1) (sooner ss)
Timed-sooner k k1 x before [] b f n t = tt
Timed-sooner k k1 x before ((q, u) ∷ ss) b f n t = (
  omega (arith, f q (λ z. n.0 (sym z)), t.0),
  omega (arith, t.1),
  Timed-sooner k k1 x u ss (omega (arith, t.0)) f n.1 t.2,
)

ApartQueues-nodes :
    (th : ℕ → ℕ) (ss ss' : List (ℕ × ℕ)) (xs : List ℕ)
    → nodes ss' ≡ nodes ss
    → ApartQueues th ss xs
    → ApartQueues th ss' xs
ApartQueues-nodes th ss ss' xs e q = record {
  nodes_apart = subst (λ z. Apart z (map th z ++ xs)) (sym e) q.nodes_apart;
  distinct = subst (λ z. Distinct (map th z ++ xs)) (sym e) q.distinct;
  nonnull = subst (λ z. NotIn 0 (map th z ++ xs)) (sym e) q.nonnull;
}

abbrev pub head_sooner : Kernel → Kernel
head_sooner k =
    let node = k.scheduler.sleeping_threads in set_delta node (sub64 (k.sleeping_at node).delta 1) k

pub head_sooner-delta :
    (k : Kernel) (x t : ℕ) (ss : List (ℕ × ℕ))
    → Asleep k ((x, t) ∷ ss)
    → 0 < t
    → delta (head_sooner k) k.scheduler.sleeping_threads ≡ t - 1
head_sooner-delta k x t ss a b =
    let head = k.scheduler.sleeping_threads in
    let starts : delta k head ≡ t = ap (delta k) a.queue.first ∙ omega (arith, a.times.0) in
    rw (eq→== head head refl, delta)
      (sub64_le (delta k head) 1 (omega (arith, starts, b)) (omega (arith, starts, a.times.1))
        ∙ omega (arith, starts))

-- The list after the head's delta is one less.
pub head_sooner-Asleep :
    (k : Kernel) (x t : ℕ) (ss : List (ℕ × ℕ))
    → Asleep k ((x, t) ∷ ss)
    → 0 < t
    → Asleep (head_sooner k) (sooner ((x, t) ∷ ss))
head_sooner-Asleep k x t ss a b = record {
  queue =
      subst (λ z. IsQueue k.links k.scheduler.sleeping_threads (x ∷ z)) (sym (nodes-sooner ss))
        a.queue;
  times = (
    omega (arith, ap (delta (head_sooner k)) (sym a.queue.first) ∙ head_sooner-delta k x t ss a b),
    omega (arith, a.times.1),
    Timed-sooner k (head_sooner k) x t ss b
        (λ z n. rw (ne→== z k.scheduler.sleeping_threads (λ e. n (e ∙ a.queue.first)), delta) refl)
        a.queue.distinct.0 a.times.2,
  );
}

pub some_sleeper :
    (k : Kernel) (x t : ℕ) (ss : List (ℕ × ℕ))
    → Asleep k ((x, t) ∷ ss)
    → k.scheduler.sleeping_threads ≢ 0
some_sleeper k x t ss a e = a.queue.nonnull.0 (sym e ∙ a.queue.first)

-- While nobody is due, a tick only lowers the head's delta.
pub scheduler_tick-early :
    (l : Layout) (k : Kernel) (x u : ℕ) (us : List (ℕ × ℕ))
    → Asleep k ((x, u) ∷ us)
    → 1 < u
    → scheduler_tick l k ≡ done (tt, head_sooner k)
unfolding scheduler_tick
scheduler_tick-early l k x u us a n =
    rw
      (
        ne→== k.scheduler.sleeping_threads 0 (some_sleeper k x u us a),
        ne→== (delta (head_sooner k) k.scheduler.sleeping_threads) 0
            (λ e. omega (arith, e, head_sooner-delta k x u us a (omega (arith, n)), n)),
      )
      refl

-- What a tick leaves: `us` sleep on, `xs` are ready, and `m` is the allocator's state.
pub record Ticked (k k' : Kernel) (us : List (ℕ × ℕ)) (xs : List ℕ) (m : Mem) : Type 0 where
  pub asleep : Asleep k' us
  pub ready : Ready k' xs
  pub mem : k'.mem ≡ m
  pub same : SameElse k k'

-- Sleepers `ds` wake after one tick, wait on no semaphore and have the threads that `th` says,
-- and the allocator frees their entries; the sleepers `us` behind them wake later; the ready
-- threads are `xs`; and no thread is in two places. Then the tick makes the threads of `ds` ready
-- behind `xs`, in their order, and the others sleep on with a tick less to go. The current thread,
-- the contexts, the semaphores, the console and the registers stay.
pub scheduler_tick-Ticked :
    (l : Layout) (th : ℕ → ℕ) (k : Kernel) (m : Mem) (ds : List ℕ) (us : List (ℕ × ℕ)) (xs : List ℕ)
    → length ds < k.mem.n_mem_blocks
    → Asleep k (at_time 1 ds ++ us)
    → NotDue 1 us
    → Ready k xs
    → ApartQueues th (at_time 1 ds ++ us) xs
    → ThreadsAre th k
    → Plain k ds
    → Frees l k.mem ds m
    → (k' : Kernel) × (scheduler_tick l k ≡ done (tt, k'))
      × Ticked k k' (sooner us) (xs ++ map th ds) m
unfolding scheduler_tick
scheduler_tick-Ticked l th k m [] [] xs b a n r q t s f = (
  k,
  rw (eq→== k.scheduler.sleeping_threads 0 a.queue) refl,
  record {
    asleep = record { queue = a.queue; times = tt };
    ready = subst (Ready k) (sym (append-nil xs)) r;
    mem = f;
    same = SameElse-refl k;
  },
)
scheduler_tick-Ticked l th k m [] ((x, u) ∷ us) xs b a n r q t s f = (
  head_sooner k,
  scheduler_tick-early l k x u us a n,
  record {
    asleep = head_sooner-Asleep k x u us a (omega (arith, n));
    ready = subst (Ready k) (sym (append-nil xs)) r;
    mem = f;
    same = record {
      current = refl;
      contexts = refl;
      sems = refl;
      console = refl;
      cpu = refl;
      sp = λ z. refl;
    };
  },
)
scheduler_tick-Ticked l th k m (d ∷ ds) us xs b a n r q t s f =
    let k1 = head_sooner k in
    let rest = at_time 1 ds ++ us in
    let early = sooner-at_time (d ∷ ds) us in
    let names : nodes (at_time 0 (d ∷ ds) ++ sooner us) ≡ nodes (at_time 1 (d ∷ ds) ++ us) =
      ap nodes (sym early) ∙ nodes-sooner ((d, 1) ∷ rest) in
    let (k', e, w) =
      tick_loop-Woken l th k.mem.n_mem_blocks k1 m (d ∷ ds) (sooner us) xs b (λ z. omega (arith, z))
        (subst (Asleep k1) early (head_sooner-Asleep k d 1 rest a (omega arith)))
        (NotDue-sooner us n) r
        (ApartQueues-nodes th (at_time 1 (d ∷ ds) ++ us) (at_time 0 (d ∷ ds) ++ sooner us) xs names
          q)
        (λ p. ground (arith, t p)) (Plain-same k k1 (d ∷ ds) (λ p. ground arith) s) f in
    (
      k',
      rw
          (
            ne→== k.scheduler.sleeping_threads 0 (some_sleeper k d 1 rest a),
            eq→== (delta k1 k.scheduler.sleeping_threads) 0
                (head_sooner-delta k d 1 rest a (omega arith)),
          )
          e,
      record {
        asleep = w.asleep;
        ready = w.ready;
        mem = w.mem;
        same = record {
          current = w.same.current;
          contexts = w.same.contexts;
          sems = w.same.sems;
          console = w.same.console;
          cpu = w.same.cpu;
          sp = w.same.sp;
        };
      },
    )
