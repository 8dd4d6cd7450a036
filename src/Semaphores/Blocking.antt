-- ===== src/Semaphores/Blocking.antt =====
-- A semaphore's value and its queue: who waits, who goes on, and in what order.
use kernel_riscv.Base.{
  ℕ, suc, ◌<◌, ◌^◌, ◌≡◌, ◌≢◌, refl, ◌∙◌, ap, sym, subst, true, false, List, [], ◌∷◌, ◌++◌, length,
  length-append, eq→==, arith, ℤ, pos, negsuc, ◌+ℤ◌, is_neg,
}
use mathlib.Core.List.{append_assoc}
use kernel_riscv.Links.{push_node}
use kernel_riscv.Links.Queue.{
  NotIn, Distinct, Apart, IsQueue, SameOutside, IsQueue-frame, Distinct-snoc, Distinct-Apart,
  NotIn-of_append, NotIn-append, Apart-cons, push_node-Pushed,
}
use kernel_riscv.Kernel.{Kernel}
use kernel_riscv.Scheduler.{scheduler_next}
use kernel_riscv.Scheduler.Ready.{Ready, scheduler_next-NextReady}
use kernel_riscv.Threads.{switch_away}
use kernel_riscv.Threads.Switch.{yield-shape}
use kernel_riscv.Semaphores.{sem_wait, sem_push}
use kernel_riscv.Semaphores.Values.{add_val, lower_val-add, passes_least}

-- how many threads a value says are waiting
abbrev pub debt : ℤ → ℕ
debt (pos n) = 0
debt (negsuc n) = suc n

-- Thread `c` runs, `xs` are ready, and `ws` wait on the semaphore `s`, whose value says how many
-- they are.
pub record Waiting (k : Kernel) (s c : ℕ) (xs ws : List ℕ) : Type 0 where
  pub current : k.scheduler.thread_current ≡ c
  pub ready : Ready k xs
  pub queue : IsQueue k.links (k.sem_at s).waiting_threads ws
  pub count : debt (k.sem_at s).val ≡ length ws
  pub distinct : Distinct (c ∷ xs ++ ws)
  pub nonnull : NotIn 0 (c ∷ xs ++ ws)

-- The running thread gives way: what is left in place.
switch_away-shape :
    (k : Kernel) (x : ℕ) (xs : List ℕ)
    → Ready k (x ∷ xs)
    → (k' : Kernel) × (switch_away k ≡ (k.scheduler.thread_current, k'))
      × (k'.scheduler.thread_current ≡ x)
      × Ready k' xs
      × SameOutside xs k.links k'.links
      × (k'.sem_at ≡ k.sem_at)
unfolding switch_away scheduler_next
switch_away-shape k x xs q =
    let n = scheduler_next-NextReady k x xs q in
    let (threads, cpu, e) =
      yield-shape k.scheduler.thread_current (scheduler_next k).0 (scheduler_next k).1 in
    (
      record ((scheduler_next k).1) { thread_at = threads; cpu = cpu },
      ap (λ z. (k.scheduler.thread_current, z)) e,
      n.current,
      n.ready,
      n.links,
      ground arith,
    )

pub debt-down : (v : ℤ) → is_neg (v +ℤ negsuc 0) ≡ true → debt (v +ℤ negsuc 0) ≡ suc (debt v)
debt-down (pos n) h = ground arith
debt-down (negsuc n) h = omega arith

pub passes-down :
    (v : ℤ) → is_neg (v +ℤ negsuc 0) ≡ false → (debt (v +ℤ negsuc 0) ≡ 0) × (debt v ≡ 0)
passes-down (pos n) h = ground arith
passes-down (negsuc n) h = cc

abbrev nobody : (ws : List ℕ) → length ws ≡ 0 → ws ≡ []
nobody [] e = refl
nobody (w ∷ ws) e = absurd (omega arith)

-- `__sem_push` on a queue that the current one is not part of.
sem_push-IsQueue :
    (k : Kernel) (s c : ℕ) (xs ws : List ℕ)
    → Ready k xs
    → IsQueue k.links (k.sem_at s).waiting_threads ws
    → c ≢ 0
    → NotIn c ws
    → Apart xs (c ∷ ws)
    → Ready (sem_push s c k) xs
      × IsQueue (sem_push s c k).links ((sem_push s c k).sem_at s).waiting_threads (ws ++ (c ∷ []))
      × (((sem_push s c k).sem_at s).val ≡ (k.sem_at s).val)
      × ((sem_push s c k).scheduler ≡ k.scheduler)
unfolding sem_push
sem_push-IsQueue k s c xs ws r q nz f a =
    let p = push_node-Pushed k.links (k.sem_at s).waiting_threads c ws q nz f in
    (
      IsQueue-frame k.links (push_node k.links (k.sem_at s).waiting_threads c).0 (c ∷ ws)
          k.scheduler.ready_threads xs p.outside a r,
      rw (eq→== s s refl) p.queue,
      rw (eq→== s s refl),
      refl,
    )

module _ (k : Kernel) (s c : ℕ) where
  -- Where the value is not negative once lowered, the call returns
  -- 0, only the value changes, and nobody waits.
  pub sem_wait-passes :
      (xs ws : List ℕ)
      → Waiting k s c xs ws
      → is_neg ((k.sem_at s).val +ℤ negsuc 0) ≡ false
      → (sem_wait s k ≡ (pos 0, add_val (negsuc 0) s k))
        × Waiting (add_val (negsuc 0) s k) s c xs []
  unfolding sem_wait
  sem_wait-passes xs ws w h = (
    rw (lower_val-add s k (passes_least (k.sem_at s).val h), eq→== s s refl, h),
    record {
      current = w.current;
      ready = w.ready;
      queue =
          rw (eq→== s s refl)
            (subst (λ l. IsQueue k.links (k.sem_at s).waiting_threads l) none w.queue);
      count = rw (eq→== s s refl) (passes-down (k.sem_at s).val h).0;
      distinct = subst (λ l. Distinct (c ∷ xs ++ l)) none w.distinct;
      nonnull = subst (λ l. NotIn 0 (c ∷ xs ++ l)) none w.nonnull;
    },
  )
    where
      none : ws ≡ []
      none = nobody ws (sym w.count ∙ (passes-down (k.sem_at s).val h).1)

  -- Where the lowered value is negative, fewer than 2^31 threads wait and one is ready, the call returns 1, the caller is
  -- last in the semaphore's queue, and the first ready thread runs.
  pub sem_wait-blocks :
      (x : ℕ) (xs ws : List ℕ)
      → Waiting k s c (x ∷ xs) ws
      → is_neg ((k.sem_at s).val +ℤ negsuc 0) ≡ true
      → length ws < 2 ^ 31
      → ((sem_wait s k).0 ≡ pos 1) × Waiting (sem_wait s k).1 s x xs (ws ++ (c ∷ []))
  unfolding sem_wait
  sem_wait-blocks x xs ws w h few =
      let (k2, e, cur, rdy, out, sems) = switch_away-shape k1 x xs w.ready in
      let call : sem_wait s k ≡ (pos 1, sem_push s c k2) = rw (
        lower_val-add s k (λ z. omega (arith, w.count, ap debt z, few)),
        eq→== s s refl,
        h,
        e,
        w.current,
      ) in
      let there : k2.sem_at s ≡ record (k.sem_at s) { val = (k.sem_at s).val +ℤ negsuc 0 } =
        rw (sems, eq→== s s refl) in
      let before : IsQueue k2.links (k2.sem_at s).waiting_threads ws =
        rw there
          (IsQueue-frame k.links k2.links xs (k.sem_at s).waiting_threads ws out parts.1 w.queue) in
      let fresh = NotIn-of_append c xs ws w.distinct.0.1 in
      let pushed =
        sem_push-IsQueue k2 s c xs ws rdy before (λ z. w.nonnull.0 (sym z)) fresh.1
          (Apart-cons c xs ws fresh.0 parts.0) in
      (
        ap (λ r. r.0) call,
        subst (λ r. Waiting r s x xs (ws ++ (c ∷ []))) (sym (ap (λ r. r.1) call))
            (record {
              current = ap (λ r. r.thread_current) pushed.3 ∙ cur;
              ready = pushed.0;
              queue = pushed.1;
              count =
                  ap debt (pushed.2 ∙ ap (λ r. r.val) there)
                  ∙ debt-down (k.sem_at s).val h
                  ∙ omega (arith, w.count, length-append ws (c ∷ []));
              distinct =
                  subst Distinct (append_assoc (x ∷ xs) ws (c ∷ []))
                    (Distinct-snoc c (x ∷ xs ++ ws) w.distinct.1 w.distinct.0);
              nonnull =
                  subst (NotIn 0) (append_assoc (x ∷ xs) ws (c ∷ []))
                    (NotIn-append 0 (x ∷ xs ++ ws) (c ∷ []) w.nonnull.1 (w.nonnull.0, tt));
            }),
      )
    where
      k1 : Kernel
      k1 = add_val (negsuc 0) s k

      parts : Apart xs ws × Apart ws xs × Distinct xs × Distinct ws
      parts = Distinct-Apart xs ws w.distinct.1.1
