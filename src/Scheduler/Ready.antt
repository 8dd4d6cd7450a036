-- ===== src/Scheduler/Ready.antt =====
-- The ready queue and the current thread.
use kernel_riscv.Base.{
  ℕ, ◌≡◌, ◌≢◌, refl, ◌∙◌, sym, true, false, List, [], ◌∷◌, ◌++◌, ◌==◌, eq→==, ne→==,
}
use kernel_riscv.Links.{push_node, pop_node}
use kernel_riscv.Links.Queue.{
  NotIn, IsQueue, SameOutside, Pushed, push_node-Pushed, Popped, pop_node-Popped,
}
use kernel_riscv.Kernel.{Kernel}
use kernel_riscv.Scheduler.{scheduler_push, scheduler_next}

abbrev pub Ready : Kernel → List ℕ → Type 0
Ready k xs = IsQueue k.links k.scheduler.ready_threads xs

-- `__scheduler_push` puts the thread last in the ready queue, with a full time slice.
pub record PushedReady (k k' : Kernel) (t : ℕ) (xs : List ℕ) : Type 0 where
  pub ready : Ready k' (xs ++ (t ∷ []))
  pub slice : (k'.thread_at t).time_left ≡ 2
  pub links : SameOutside (t ∷ xs) k.links k'.links
  pub current : k'.scheduler.thread_current ≡ k.scheduler.thread_current
  pub main : k'.scheduler.kernel_main ≡ k.scheduler.kernel_main
  pub asleep : k'.scheduler.sleeping_threads ≡ k.scheduler.sleeping_threads

-- A thread, not null and not in the ready queue, becomes the last ready one, with a time slice of
-- 2; the links of other nodes, the current thread and the sleepers stay.
pub scheduler_push-PushedReady :
    (k : Kernel) (t : ℕ) (xs : List ℕ)
    → Ready k xs
    → t ≢ 0
    → NotIn t xs
    → PushedReady k (scheduler_push t k) t xs
unfolding scheduler_push
scheduler_push-PushedReady k t xs q nz f = record {
  ready = p.queue;
  slice = rw (eq→== t t refl);
  links = p.outside;
  current = refl;
  main = refl;
  asleep = refl;
}
  where
    p : Pushed k.links t xs (push_node k.links k.scheduler.ready_threads t)
    p = push_node-Pushed k.links k.scheduler.ready_threads t xs q nz f

-- `__scheduler_next` makes the first ready thread the current one, and the kernel's own thread if
-- there is none.
pub record NextReady (k : Kernel) (t : ℕ) (xs : List ℕ) (r : ℕ × Kernel) : Type 0 where
  pub next : r.0 ≡ t
  pub current : r.1.scheduler.thread_current ≡ t
  pub ready : Ready r.1 xs
  pub links : SameOutside xs k.links r.1.links
  pub threads : r.1.thread_at ≡ k.thread_at
  pub cpu : r.1.cpu ≡ k.cpu
  pub main : r.1.scheduler.kernel_main ≡ k.scheduler.kernel_main

-- With a thread ready, `__scheduler_next` returns the first ready thread and makes it the current
-- one; the others stay ready in their order, and the links of other nodes, the thread structures
-- and the registers stay.
pub scheduler_next-NextReady :
    (k : Kernel) (t : ℕ) (xs : List ℕ) → Ready k (t ∷ xs) → NextReady k t xs (scheduler_next k)
unfolding scheduler_next
scheduler_next-NextReady k t xs q =
    rw (test, scheduler_next)
      (record {
        next = q.first;
        current = q.first;
        ready = p.queue;
        links = p.outside;
        threads = refl;
        cpu = refl;
        main = refl;
      })
  where
    test : (k.scheduler.ready_threads == 0) ≡ false
    test = ne→== k.scheduler.ready_threads 0 (λ e. q.nonnull.0 (sym e ∙ q.first))

    p : Popped k.links xs (pop_node k.links k.scheduler.ready_threads)
    p = pop_node-Popped k.links k.scheduler.ready_threads t xs q

-- With no thread ready, the kernel's own thread becomes the current one.
pub scheduler_next-NextReady_idle :
    (k : Kernel) → Ready k [] → NextReady k k.scheduler.kernel_main [] (scheduler_next k)
unfolding scheduler_next
scheduler_next-NextReady_idle k q =
    rw (idle, scheduler_next)
      (record {
        next = refl;
        current = refl;
        ready = q;
        links = λ z o. (refl, refl);
        threads = refl;
        cpu = refl;
        main = refl;
      })
  where
    idle : (k.scheduler.ready_threads == 0) ≡ true
    idle = eq→== k.scheduler.ready_threads 0 q
