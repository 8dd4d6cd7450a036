-- ===== src/Semaphores/Closing.antt =====
-- `__sem_close`: the threads that wait on the semaphore go on.
use kernel_riscv.Base.{
  ℕ, zero, suc, ◌<◌, ◌≤◌, ◌≡◌, ◌≢◌, refl, ◌∙◌, ap, sym, subst, List, [], ◌∷◌, ◌++◌, map, length,
  arith, eq→==, ne→==, pos, to_u64,
}
use mathlib.Core.List.{append_assoc, append-nil}
use kernel_riscv.Memory.{Layout, Mem, free_ok, mem_free, done}
use kernel_riscv.Links.{Links}
use kernel_riscv.Links.Queue.{
  NotIn, Distinct, Apart, IsQueue, Linked, SameOutside, NotIn-of_append, NotIn-append,
  Distinct-snoc, Distinct-Apart, Apart-cons, push_node-Pushed,
}
use kernel_riscv.Kernel.{ContextsAt, Kernel, set_a0, free_or_panic}
use kernel_riscv.Scheduler.{scheduler_push}
use kernel_riscv.Scheduler.Ready.{Ready}
use kernel_riscv.Semaphores.{close_loop, sem_close, sem_closed_externally}

-- From `a` the `next` pointers lead through `xs` to `b`.
abbrev Leads : Links → ℕ → List ℕ → ℕ → Type 0
Leads l a [] b = l.next a ≡ b
Leads l a (x ∷ xs) b = (l.next a ≡ x) × Leads l x xs b

Leads-of_Linked : (l : Links) (a b : ℕ) (xs : List ℕ) → Linked l a xs b → Leads l a xs b
Leads-of_Linked l a b [] (n, p) = n
Leads-of_Linked l a b (x ∷ xs) (n, p, t) = (n, Leads-of_Linked l x b xs t)

Leads-frame :
    (l l' : Links) (t : List ℕ) (a b : ℕ) (xs : List ℕ)
    → SameOutside t l l'
    → Apart (a ∷ xs) t
    → Leads l a xs b
    → Leads l' a xs b
Leads-frame l l' t a b [] s p n = (s a p.0).0 ∙ n
Leads-frame l l' t a b (x ∷ xs) s p (n, k) = ((s a p.0).0 ∙ n, Leads-frame l l' t x b xs s p.1 k)

-- one round of the loop
abbrev close_one : ℕ → Kernel → Kernel
close_one t k = set_a0 t (to_u64 sem_closed_externally) (scheduler_push t k)

module _ (sp : ℕ → ℕ) where
  -- Each of the threads will see that the semaphore was closed.
  abbrev pub AllSee : Kernel → List ℕ → Type 0
  AllSee k [] = Unit
  AllSee k (w ∷ ws) = ((k.context_at (sp w)).a0 ≡ to_u64 sem_closed_externally) × AllSee k ws

  -- What the loop leaves of `k`.
  record Closed (k k' : Kernel) (ws xs : List ℕ) : Type 0 where
    pub ready : Ready k' (xs ++ ws)
    pub sees : AllSee k' ws
    pub others : (p : ℕ) → NotIn p (map sp ws) → k'.context_at p ≡ k.context_at p
    pub mem : k'.mem ≡ k.mem
    pub current : k'.scheduler.thread_current ≡ k.scheduler.thread_current

  close_one-seen :
      (t : ℕ) (k : Kernel)
      → ContextsAt sp k
      → (((close_one t k).context_at (sp t)).a0 ≡ to_u64 sem_closed_externally)
        × ((p : ℕ) → p ≢ sp t → (close_one t k).context_at p ≡ k.context_at p)
        × ContextsAt sp (close_one t k)
        × ((close_one t k).mem ≡ k.mem)
        × ((close_one t k).scheduler.thread_current ≡ k.scheduler.thread_current)
  unfolding scheduler_push
  close_one-seen t k c =
      let e : ((scheduler_push t k).thread_at t).sp ≡ sp t = ground (arith, c t) in
      (ground (arith, e), λ p n. ground (arith, e), λ u. ground (arith, c u), refl, refl)

  close_one-Ready :
      (t : ℕ) (k : Kernel) (xs : List ℕ)
      → Ready k xs
      → t ≢ 0
      → NotIn t xs
      → Ready (close_one t k) (xs ++ (t ∷ [])) × SameOutside (t ∷ xs) k.links (close_one t k).links
  unfolding scheduler_push
  close_one-Ready t k xs r nz f =
      let p = push_node-Pushed k.links k.scheduler.ready_threads t xs r nz f in (p.queue, p.outside)

  close_loop-Closed :
      (fuel : ℕ) (k : Kernel) (first w : ℕ) (ws xs : List ℕ)
      → length ws < fuel
      → Leads k.links w ws first
      → NotIn first ws
      → Ready k xs
      → Distinct (w ∷ ws ++ xs)
      → NotIn 0 (w ∷ ws ++ xs)
      → ContextsAt sp k
      → Distinct (map sp (w ∷ ws))
      → (k' : Kernel) × (close_loop fuel first w k ≡ done (tt, k')) × Closed k k' (w ∷ ws) xs
  unfolding close_loop
  close_loop-Closed zero k first w ws xs b l f r d nz c s = absurd (omega arith)
  close_loop-Closed (suc fuel) k first w [] xs b l f r d nz c s =
      let v = close_one-seen w k c in
      (
        close_one w k,
        rw (eq→== (k.links.next w) first l) refl,
        record {
          ready = (close_one-Ready w k xs r (λ z. nz.0 (sym z)) d.0).0;
          sees = (v.0, tt);
          others = λ p o. v.1 p o.0;
          mem = v.3;
          current = v.4;
        },
      )
  close_loop-Closed (suc fuel) k first w (x ∷ ws) xs b l f r d nz c s =
      let v = close_one-seen w k c in
      let fresh = NotIn-of_append w (x ∷ ws) xs d.0 in
      let q = close_one-Ready w k xs r (λ z. nz.0 (sym z)) fresh.1 in
      let apart = Apart-cons w (x ∷ ws) xs fresh.0 (Distinct-Apart (x ∷ ws) xs d.1).0 in
      let (k', e, h) =
        close_loop-Closed fuel (close_one w k) first x ws (xs ++ (w ∷ [])) (omega arith)
          (Leads-frame k.links (close_one w k).links (w ∷ xs) x first ws q.1 apart l.1) f.1 q.0
          (subst Distinct (append_assoc (x ∷ ws) xs (w ∷ []))
            (Distinct-snoc w (x ∷ ws ++ xs) d.1 d.0))
          (subst (NotIn 0) (append_assoc (x ∷ ws) xs (w ∷ []))
            (NotIn-append 0 (x ∷ ws ++ xs) (w ∷ []) nz.1 (nz.0, tt)))
          v.2 s.1 in
      (
        k',
        rw (ne→== (k.links.next w) first (λ z. f.0 (sym z ∙ l.0)), l.0) e,
        record {
          ready = subst (Ready k') (append_assoc xs (w ∷ []) (x ∷ ws)) h.ready;
          sees = (ap (λ z. z.a0) (h.others (sp w) s.0) ∙ v.0, h.sees);
          others = λ p o. h.others p o.1 ∙ v.1 p o.0;
          mem = h.mem ∙ v.3;
          current = h.current ∙ v.4;
        },
      )

  -- What `__sem_close` leaves of `k`, with `m` the allocator's state once the semaphore is freed.
  pub record ClosedAll (k k' : Kernel) (m : Mem) (ws xs : List ℕ) : Type 0 where
    pub ready : Ready k' (xs ++ ws)
    pub sees : AllSee k' ws
    pub others : (p : ℕ) → NotIn p (map sp ws) → k'.context_at p ≡ k.context_at p
    pub mem : k'.mem ≡ m
    pub current : k'.scheduler.thread_current ≡ k.scheduler.thread_current

  -- Threads `ws`, at most as many as the heap has blocks and with contexts apart, wait on a
  -- semaphore that the allocator can free, and threads `xs` are ready: the call returns 0, the
  -- waiting threads are ready behind `xs` in the order in which they waited, each of them will see
  -- the code for a closed semaphore, no other saved register changes, and the semaphore is freed.
  pub sem_close-ClosedAll :
      (l : Layout) (k : Kernel) (s : ℕ) (m : Mem) (ws xs : List ℕ)
      → IsQueue k.links (k.sem_at s).waiting_threads ws
      → Ready k xs
      → Distinct (ws ++ xs)
      → NotIn 0 (ws ++ xs)
      → ContextsAt sp k
      → Distinct (map sp ws)
      → length ws ≤ k.mem.n_mem_blocks
      → mem_free l k.mem s ≡ (free_ok, m)
      → (k' : Kernel) × (sem_close l s k ≡ done (pos 0, k')) × ClosedAll k k' m ws xs
  unfolding sem_close free_or_panic
  sem_close-ClosedAll l k s m [] xs q r d nz c e b free = (
    record k { mem = m },
    rw (eq→== (k.sem_at s).waiting_threads 0 q, free) refl,
    record {
      ready = subst (Ready k) (sym (append-nil xs)) r;
      sees = tt;
      others = λ p o. refl;
      mem = refl;
      current = refl;
    },
  )
  sem_close-ClosedAll l k s m (w ∷ ws) xs q r d nz c e b free =
      let (k', loop, h) =
        close_loop-Closed k.mem.n_mem_blocks k w w ws xs (omega arith)
          (Leads-of_Linked k.links w w ws q.linked) q.distinct.0 r d nz c e in
      (
        record k' { mem = m },
        rw
            (
              ne→== (k.sem_at s).waiting_threads 0 (λ z. nz.0 (sym z ∙ q.first)),
              q.first,
              loop,
              h.mem,
              free,
            )
            refl,
        record {
          ready = h.ready;
          sees = h.sees;
          others = h.others;
          mem = refl;
          current = h.current;
        },
      )
