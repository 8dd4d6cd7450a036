-- ===== src/Timer/Loop.antt =====
-- The loop of `__scheduler_tick`.
use mathlib.Core.List.{append_assoc, append-nil}
use kernel_riscv.Base.{
  ℕ, zero, suc, ◌<◌, ◌≡◌, ◌≢◌, refl, ◌∙◌, ap, sym, subst, List, [], ◌∷◌, ◌++◌, map, arith, eq→==,
  ne→==, length,
}
use kernel_riscv.Memory.{Layout, Mem, mem_free, free_ok, done}
use kernel_riscv.Kernel.{Kernel}
use kernel_riscv.Scheduler.Ready.{Ready}
use kernel_riscv.Scheduler.Sleepers.Entries.{Asleep}
use kernel_riscv.Scheduler.Sleepers.Times.{delta}
use kernel_riscv.Timer.{tick_loop, wake_first, wake_last}
use kernel_riscv.Timer.Wake.{
  ApartQueues, ApartQueues-step, SameElse, Woken, wake_first-Woken, wake_last-Woken,
}

-- sleepers that all wake at `t`
abbrev pub at_time : ℕ → List ℕ → List (ℕ × ℕ)
at_time t [] = []
at_time t (p ∷ ps) = (p, t) ∷ at_time t ps

-- the first of the sleepers wakes after `n` ticks at the earliest
abbrev pub NotDue : ℕ → List (ℕ × ℕ) → Type 0
NotDue n [] = Unit
NotDue n ((p, t) ∷ l) = n < t

-- The allocator frees the nodes one after the other.
abbrev pub Frees : Layout → Mem → List ℕ → Mem → Type 0
Frees l m [] m' = m ≡ m'
Frees l m (p ∷ ps) m' = (m1 : Mem) × (mem_free l m p ≡ (free_ok, m1)) × Frees l m1 ps m'

-- The sleepers wait on no semaphore.
abbrev pub Plain : Kernel → List ℕ → Type 0
Plain k [] = Unit
Plain k (p ∷ ps) = ((k.sleeping_at p).semaphore ≡ 0) × Plain k ps

pub SameElse-refl : (k : Kernel) → SameElse k k
SameElse-refl k = record {
  current = refl;
  contexts = refl;
  sems = refl;
  console = refl;
  cpu = refl;
  sp = λ z. refl;
}

SameElse-trans : (k k1 k2 : Kernel) → SameElse k k1 → SameElse k1 k2 → SameElse k k2
SameElse-trans k k1 k2 a b = record {
  current = b.current ∙ a.current;
  contexts = b.contexts ∙ a.contexts;
  sems = b.sems ∙ a.sems;
  console = b.console ∙ a.console;
  cpu = b.cpu ∙ a.cpu;
  sp = λ t. b.sp t ∙ a.sp t;
}

pub Plain-same :
    (k k' : Kernel) (ps : List ℕ)
    → ((p : ℕ) → (k'.sleeping_at p).semaphore ≡ (k.sleeping_at p).semaphore)
    → Plain k ps
    → Plain k' ps
Plain-same k k' [] e p = tt
Plain-same k k' (q ∷ ps) e p = (e q ∙ p.0, Plain-same k k' ps e p.1)

Woken-trans :
    (k k1 k2 : Kernel) (ss us : List (ℕ × ℕ)) (xs ys : List ℕ) (a : ℕ) (m1 m2 : Mem)
    → Woken k k1 ss (xs ++ (a ∷ [])) m1
    → Woken k1 k2 us ((xs ++ (a ∷ [])) ++ ys) m2
    → Woken k k2 us (xs ++ a ∷ ys) m2
Woken-trans k k1 k2 ss us xs ys a m1 m2 v w = record {
  asleep = w.asleep;
  ready = subst (Ready k2) (append_assoc xs (a ∷ []) ys) w.ready;
  mem = w.mem;
  sleeping = w.sleeping ∙ v.sleeping;
  same = SameElse-trans k k1 k2 v.same w.same;
}

-- The threads of the sleepers are as `th` says.
abbrev pub ThreadsAre : (ℕ → ℕ) → Kernel → Type 0
ThreadsAre th k = (p : ℕ) → (k.sleeping_at p).thread ≡ th p

module _ (l : Layout) where
  -- The three ways in which a round goes.
  round :
      (fuel : ℕ) (k k1 : Kernel) (d y t : ℕ) (ss : List (ℕ × ℕ))
      → Asleep k ((d, 0) ∷ (y, t) ∷ ss)
      → wake_first l d k ≡ done (tt, k1)
      → tick_loop l (suc fuel) k ≡ tick_loop l fuel k1
  unfolding tick_loop
  round fuel k k1 d y t ss a w =
      let head = k.scheduler.sleeping_threads in
      let h : head ≡ d = a.queue.first in
      let due : delta k head ≡ 0 = ap (delta k) h ∙ omega (arith, a.times.0) in
      let more : k.links.next head ≢ head =
        λ e. a.queue.distinct.0.0 (sym h ∙ sym e ∙ ap k.links.next h ∙ a.queue.linked.0) in
      rw
        (
          eq→== (delta k head) 0 due,
          ne→== (k.links.next head) head more,
          ap (λ z. wake_first l z k) h ∙ w,
        )
        refl

  stops :
      (fuel : ℕ) (k : Kernel) (q u : ℕ) (us : List (ℕ × ℕ))
      → Asleep k ((q, u) ∷ us)
      → 0 < u
      → tick_loop l (suc fuel) k ≡ done (tt, k)
  unfolding tick_loop
  stops fuel k q u us a h =
      let head = k.scheduler.sleeping_threads in
      let later : delta k head ≡ u = ap (delta k) a.queue.first ∙ omega (arith, a.times.0) in
      rw (ne→== (delta k head) 0 (λ e. omega (arith, later, e, h))) refl

  pub last :
      (fuel : ℕ) (k : Kernel) (d : ℕ)
      → Asleep k ((d, 0) ∷ [])
      → tick_loop l (suc fuel) k ≡ wake_last l d k
  unfolding tick_loop
  last fuel k d a =
      let head = k.scheduler.sleeping_threads in
      let h : head ≡ d = a.queue.first in
      let due : delta k head ≡ 0 = ap (delta k) h ∙ omega (arith, a.times.0) in
      let only : k.links.next head ≡ head = ap k.links.next h ∙ a.queue.linked.0 ∙ sym h in
      rw (eq→== (delta k head) 0 due, eq→== (k.links.next head) head only)
        (ap (λ z. wake_last l z k) h)

module _ (l : Layout) (th : ℕ → ℕ) where
  -- The loop wakes the sleepers `ds`, whose time has come, in order, and then stops.
  pub tick_loop-Woken :
      (fuel : ℕ) (k : Kernel) (m : Mem) (ds : List ℕ) (us : List (ℕ × ℕ)) (xs : List ℕ)
      → length ds < fuel
      → length (at_time 0 ds ++ us) ≢ 0
      → Asleep k (at_time 0 ds ++ us)
      → NotDue 0 us
      → Ready k xs
      → ApartQueues th (at_time 0 ds ++ us) xs
      → ThreadsAre th k
      → Plain k ds
      → Frees l k.mem ds m
      → (k' : Kernel) × (tick_loop l fuel k ≡ done (tt, k')) × Woken k k' us (xs ++ map th ds) m
  tick_loop-Woken zero k m ds us xs b o a n r q t s f = absurd (omega arith)
  tick_loop-Woken (suc fuel) k m [] [] xs b o a n r q t s f = absurd (o refl)
  tick_loop-Woken (suc fuel) k m [] ((w, u) ∷ us) xs b o a n r q t s f = (
    k,
    stops l fuel k w u us a n,
    record {
      asleep = a;
      ready = subst (Ready k) (sym (append-nil xs)) r;
      mem = f;
      sleeping = refl;
      same = SameElse-refl k;
    },
  )
  tick_loop-Woken (suc fuel) k m (d ∷ []) [] xs b o a n r q t s f =
      let (k1, e, w) = wake_last-Woken l th k f.0 d xs a r q s.0 (t d) f.1 in
      (k1, last l fuel k d a ∙ e, subst (Woken k k1 [] (xs ++ (th d ∷ []))) f.2 w)
  tick_loop-Woken (suc fuel) k m (d ∷ []) ((y, u) ∷ us) xs b o a n r q t s f =
      let ss = (y, u) ∷ us in
      let (k1, e, w) = wake_first-Woken l th k f.0 d y u us xs a r q s.0 (t d) f.1 in
      let (k2, e2, w2) =
        tick_loop-Woken fuel k1 m [] ss (xs ++ (th d ∷ [])) (omega arith) (λ z. omega (arith, z))
          w.asleep n w.ready (ApartQueues-step th d 0 ss xs q)
          (λ z. ap (λ g. (g z).thread) w.sleeping ∙ t z) tt (w.mem ∙ f.2) in
      (k2, round l fuel k k1 d y u us a e ∙ e2, Woken-trans k k1 k2 ss ss xs [] (th d) f.0 m w w2)
  tick_loop-Woken (suc fuel) k m (d ∷ y ∷ ds) us xs b o a n r q t s f =
      let ss = at_time 0 ds ++ us in
      let (k1, e, w) = wake_first-Woken l th k f.0 d y 0 ss xs a r q s.0 (t d) f.1 in
      let (k2, e2, w2) =
        tick_loop-Woken fuel k1 m (y ∷ ds) us (xs ++ (th d ∷ [])) (omega arith)
          (λ z. omega (arith, z)) w.asleep n w.ready (ApartQueues-step th d 0 ((y, 0) ∷ ss) xs q)
          (λ z. ap (λ g. (g z).thread) w.sleeping ∙ t z)
          (Plain-same k k1 (y ∷ ds) (λ z. ap (λ g. (g z).semaphore) w.sleeping) s.1)
          (subst (λ z. Frees l z (y ∷ ds) m) (sym w.mem) f.2) in
      (
        k2,
        round l fuel k k1 d y 0 ss a e ∙ e2,
        Woken-trans k k1 k2 ((y, 0) ∷ ss) us xs (th y ∷ map th ds) (th d) f.0 m w w2,
      )
