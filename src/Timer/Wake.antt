-- ===== src/Timer/Wake.antt =====
-- One round of the loop of `__scheduler_tick`, for a thread that waits on no semaphore.
use mathlib.Core.List.{append_assoc}
use kernel_riscv.Base.{ℕ, ◌≡◌, refl, sym, subst, List, [], ◌∷◌, ◌++◌, map, arith}
use kernel_riscv.Memory.{Layout, Mem, mem_free, free_ok, done}
use kernel_riscv.Links.{unlink}
use kernel_riscv.Links.Queue.{
  NotIn, Distinct, Apart, IsQueue, IsQueue-frame, Distinct-snoc, Apart-nil, Apart-cons,
  NotIn-of_append, NotIn-append,
}
use kernel_riscv.Links.Unlink.{unlink-Popped}
use kernel_riscv.Kernel.{Kernel, free_or_panic}
use kernel_riscv.Scheduler.{scheduler_push, set_asleep}
use kernel_riscv.Scheduler.Ready.{Ready, scheduler_push-PushedReady}
use kernel_riscv.Scheduler.Sleepers.{nodes}
use kernel_riscv.Scheduler.Sleepers.Entries.{Asleep}
use kernel_riscv.Timer.{wake, wake_first, wake_last}

-- The threads of the sleepers.
abbrev pub threads : (ℕ → ℕ) → List (ℕ × ℕ) → List ℕ
threads th ss = map th (nodes ss)

-- Sleepers `ss`, whose threads `th` gives, and ready threads `xs`: no thread is in both or twice,
-- and no node of the sleepers' list is a thread.
pub record ApartQueues (th : ℕ → ℕ) (ss : List (ℕ × ℕ)) (xs : List ℕ) : Type 0 where
  pub nodes_apart : Apart (nodes ss) (threads th ss ++ xs)
  pub distinct : Distinct (threads th ss ++ xs)
  pub nonnull : NotIn 0 (threads th ss ++ xs)

NotIn-rotate : (z a : ℕ) (l xs : List ℕ) → NotIn z (a ∷ l ++ xs) → NotIn z (l ++ (xs ++ (a ∷ [])))
NotIn-rotate z a l xs n =
    subst (NotIn z) (append_assoc l xs (a ∷ [])) (NotIn-append z (l ++ xs) (a ∷ []) n.1 (n.0, tt))

Apart-rotate :
    (zs : List ℕ) (a : ℕ) (l xs : List ℕ)
    → Apart zs (a ∷ l ++ xs)
    → Apart zs (l ++ (xs ++ (a ∷ [])))
Apart-rotate [] a l xs p = tt
Apart-rotate (z ∷ zs) a l xs p = (NotIn-rotate z a l xs p.0, Apart-rotate zs a l xs p.1)

Apart-forget : (zs : List ℕ) (a : ℕ) (l xs : List ℕ) → Apart zs (a ∷ l ++ xs) → Apart zs (a ∷ xs)
Apart-forget [] a l xs p = tt
Apart-forget (z ∷ zs) a l xs p =
    ((p.0.0, (NotIn-of_append z l xs p.0.1).1), Apart-forget zs a l xs p.1)

Apart-sym : (zs ys : List ℕ) → Apart zs ys → Apart ys zs
Apart-sym [] ys p = Apart-nil ys
Apart-sym (z ∷ zs) ys p = Apart-cons z ys zs p.0 (Apart-sym zs ys p.1)

Apart-snoc : (xs zs : List ℕ) (a : ℕ) → Apart xs zs → NotIn a zs → Apart (xs ++ (a ∷ [])) zs
Apart-snoc [] zs a p n = (n, tt)
Apart-snoc (x ∷ xs) zs a p n = (p.0, Apart-snoc xs zs a p.1 n)

-- The first sleeper becomes the last ready thread.
pub ApartQueues-step :
    (th : ℕ → ℕ) (p t : ℕ) (ss : List (ℕ × ℕ)) (xs : List ℕ)
    → ApartQueues th ((p, t) ∷ ss) xs
    → ApartQueues th ss (xs ++ (th p ∷ []))
ApartQueues-step th p t ss xs a = record {
  nodes_apart = Apart-rotate (nodes ss) (th p) (threads th ss) xs a.nodes_apart.1;
  distinct =
      subst Distinct (append_assoc (threads th ss) xs (th p ∷ []))
        (Distinct-snoc (th p) (threads th ss ++ xs) a.distinct.1 a.distinct.0);
  nonnull = NotIn-rotate 0 (th p) (threads th ss) xs a.nonnull;
}

-- What stays while sleepers wake: all but the two lists, the deltas, the time slices and the
-- allocator.
pub record SameElse (k k' : Kernel) : Type 0 where
  pub current : k'.scheduler.thread_current ≡ k.scheduler.thread_current
  pub contexts : k'.context_at ≡ k.context_at
  pub sems : k'.sem_at ≡ k.sem_at
  pub console : k'.console ≡ k.console
  pub cpu : k'.cpu ≡ k.cpu
  pub sp : (t : ℕ) → (k'.thread_at t).sp ≡ (k.thread_at t).sp

-- What waking comes to: `us` sleep on, `xs` are ready, and `m` is the allocator's state.
pub record Woken (k k' : Kernel) (us : List (ℕ × ℕ)) (xs : List ℕ) (m : Mem) : Type 0 where
  pub asleep : Asleep k' us
  pub ready : Ready k' xs
  pub mem : k'.mem ≡ m
  pub sleeping : k'.sleeping_at ≡ k.sleeping_at
  pub same : SameElse k k'

module _ (l : Layout) (th : ℕ → ℕ) where
  wake-ready :
      (k : Kernel) (p : ℕ)
      → (k.sleeping_at p).semaphore ≡ 0
      → (k.sleeping_at p).thread ≡ th p
      → wake p k ≡ done (tt, scheduler_push (th p) k)
  unfolding wake
  wake-ready k p s e = rw (s, e) refl

  -- The queues after the push.
  pushed :
      (k : Kernel) (p t : ℕ) (ss : List (ℕ × ℕ)) (xs : List ℕ)
      → Asleep k ((p, t) ∷ ss)
      → Ready k xs
      → ApartQueues th ((p, t) ∷ ss) xs
      → Ready (scheduler_push (th p) k) (xs ++ (th p ∷ []))
        × IsQueue (scheduler_push (th p) k).links k.scheduler.sleeping_threads (p ∷ nodes ss)
        × SameElse k (scheduler_push (th p) k)
  unfolding scheduler_push
  pushed k p t ss xs a r q =
      let fresh = (NotIn-of_append (th p) (threads th ss) xs q.distinct.0).1 in
      let u = scheduler_push-PushedReady k (th p) xs r (λ z. q.nonnull.0 (sym z)) fresh in
      (
        u.ready,
        IsQueue-frame k.links (scheduler_push (th p) k).links (th p ∷ xs)
            k.scheduler.sleeping_threads (p ∷ nodes ss) u.links
            (Apart-forget (p ∷ nodes ss) (th p) (threads th ss) xs q.nodes_apart) a.queue,
        record {
          current = refl;
          contexts = refl;
          sems = refl;
          console = refl;
          cpu = refl;
          sp = λ z. ground arith;
        },
      )

  -- The only sleeper wakes.
  pub wake_last-Woken :
      (k : Kernel) (m : Mem) (p : ℕ) (xs : List ℕ)
      → Asleep k ((p, 0) ∷ [])
      → Ready k xs
      → ApartQueues th ((p, 0) ∷ []) xs
      → (k.sleeping_at p).semaphore ≡ 0
      → (k.sleeping_at p).thread ≡ th p
      → mem_free l k.mem p ≡ (free_ok, m)
      → (k' : Kernel) × (wake_last l p k ≡ done (tt, k')) × Woken k k' [] (xs ++ (th p ∷ [])) m
  unfolding wake_last free_or_panic scheduler_push
  wake_last-Woken k m p xs a r q s e f =
      let u = pushed k p 0 [] xs a r q in
      (
        record (set_asleep 0 (scheduler_push (th p) k)) { mem = m },
        rw (wake-ready k p s e, f) refl,
        record {
          asleep = record { queue = refl; times = tt };
          ready = u.0;
          mem = refl;
          sleeping = refl;
          same = record {
            current = u.2.current;
            contexts = u.2.contexts;
            sems = u.2.sems;
            console = u.2.console;
            cpu = u.2.cpu;
            sp = u.2.sp;
          };
        },
      )

  -- The first of several sleepers wakes.
  pub wake_first-Woken :
      (k : Kernel) (m : Mem) (p y t : ℕ) (ss : List (ℕ × ℕ)) (xs : List ℕ)
      → Asleep k ((p, 0) ∷ (y, t) ∷ ss)
      → Ready k xs
      → ApartQueues th ((p, 0) ∷ (y, t) ∷ ss) xs
      → (k.sleeping_at p).semaphore ≡ 0
      → (k.sleeping_at p).thread ≡ th p
      → mem_free l k.mem p ≡ (free_ok, m)
      → (k' : Kernel) × (wake_first l p k ≡ done (tt, k'))
        × Woken k k' ((y, t) ∷ ss) (xs ++ (th p ∷ [])) m
  unfolding wake_first free_or_panic scheduler_push
  wake_first-Woken k m p y t ss xs a r q s e f =
      let u = pushed k p 0 ((y, t) ∷ ss) xs a r q in
      let k1 = scheduler_push (th p) k in
      let left = (unlink k1.links p).next p in
      let ring : IsQueue k1.links p (p ∷ y ∷ nodes ss) = record {
        first = refl;
        linked = u.1.linked;
        distinct = u.1.distinct;
        nonnull = u.1.nonnull;
      } in
      let o = unlink-Popped k1.links p p y (nodes ss) ring in
      let others =
        Apart-sym (y ∷ nodes ss) (th p ∷ xs)
          (Apart-forget (y ∷ nodes ss) (th p) (threads th ((y, t) ∷ ss)) xs q.nodes_apart.1) in
      (
        record (set_asleep left (record k1 { links = unlink k1.links p })) { mem = m },
        rw (wake-ready k p s e, f) refl,
        record {
          asleep = record { queue = o.queue; times = a.times.2 };
          ready =
              IsQueue-frame k1.links (unlink k1.links p) (y ∷ nodes ss) k1.scheduler.ready_threads
                (xs ++ (th p ∷ [])) o.outside
                (Apart-snoc xs (y ∷ nodes ss) (th p) others.1 others.0) u.0;
          mem = refl;
          sleeping = refl;
          same = record {
            current = u.2.current;
            contexts = u.2.contexts;
            sems = u.2.sems;
            console = u.2.console;
            cpu = u.2.cpu;
            sp = u.2.sp;
          };
        },
      )
