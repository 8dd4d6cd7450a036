-- ===== src/ConsoleIo/Sharing.antt =====
-- `__console_receive` of src/console.c: the queues of threads while characters are handed out.
use kernel_riscv.Base.{ℕ, ◌≡◌, sym, subst, List, [], ◌∷◌, ◌++◌}
use mathlib.Core.List.{append_assoc}
use kernel_riscv.Links.{push_node, pop_node}
use kernel_riscv.Links.Queue.{
  NotIn, Distinct, IsQueue, IsQueue-frame, Distinct-snoc, Distinct-Apart, NotIn-of_append,
  NotIn-append, Apart-cons, push_node-Pushed, pop_node-Popped,
}
use kernel_riscv.Kernel.{Kernel, set_a0}
use kernel_riscv.Scheduler.{scheduler_push}
use kernel_riscv.Scheduler.Ready.{Ready}
use kernel_riscv.ConsoleIo.{waiting_pop}

-- How the threads `ws` share out the characters `cs`: who is served, who still waits, and what is
-- left.
abbrev pub served : List ℕ → List ℕ → List ℕ
served [] cs = []
served (w ∷ ws) [] = []
served (w ∷ ws) (c ∷ cs) = w ∷ served ws cs

abbrev pub unserved : List ℕ → List ℕ → List ℕ
unserved [] cs = []
unserved (w ∷ ws) [] = w ∷ ws
unserved (w ∷ ws) (c ∷ cs) = unserved ws cs

abbrev pub leftover : List ℕ → List ℕ → List ℕ
leftover [] cs = cs
leftover (w ∷ ws) [] = []
leftover (w ∷ ws) (c ∷ cs) = leftover ws cs

-- Each thread finds its character in the `a0` of its context.
abbrev pub Sees : (sp : ℕ → ℕ) → Kernel → (ws cs : List ℕ) → Type 0
Sees sp k [] cs = Unit
Sees sp k (w ∷ ws) [] = Unit
Sees sp k (w ∷ ws) (c ∷ cs) = ((k.context_at (sp w)).a0 ≡ c) × Sees sp k ws cs

-- Threads `ws` wait for input, and `xs` are ready.
pub record Awaiting (k : Kernel) (ws xs : List ℕ) : Type 0 where
  pub waiting : IsQueue k.links k.console.waiting_for_input ws
  pub ready : Ready k xs
  pub distinct : Distinct (ws ++ xs)
  pub nonnull : NotIn 0 (ws ++ xs)

-- one round of the second loop
abbrev pub hand_one : ℕ → Kernel → Kernel
hand_one x k = let (t, k1) = waiting_pop k in scheduler_push t (set_a0 t x k1)

-- One round keeps the queues, with the first waiting thread now last in the ready queue.
pub hand_one-Awaiting :
    (x : ℕ) (k : Kernel) (w : ℕ) (ws xs : List ℕ)
    → Awaiting k (w ∷ ws) xs
    → Awaiting (hand_one x k) ws (xs ++ (w ∷ []))
unfolding waiting_pop scheduler_push
hand_one-Awaiting x k w ws xs a =
    let p = pop_node-Popped k.links k.console.waiting_for_input w ws a.waiting in
    let (l1, h1) = pop_node k.links k.console.waiting_for_input in
    let (aw, ax, dw, dx) = Distinct-Apart ws xs a.distinct.1 in
    let fresh = NotIn-of_append w ws xs a.distinct.0 in
    let rdy : IsQueue l1 k.scheduler.ready_threads xs =
      IsQueue-frame k.links l1 ws k.scheduler.ready_threads xs p.outside ax a.ready in
    let q =
      push_node-Pushed l1 k.scheduler.ready_threads w xs rdy (λ z. a.nonnull.0 (sym z)) fresh.1 in
    subst (λ t. Awaiting (scheduler_push t (set_a0 t x (waiting_pop k).1)) ws (xs ++ (w ∷ [])))
      (sym a.waiting.first)
      (record {
        waiting =
            IsQueue-frame l1 (push_node l1 k.scheduler.ready_threads w).0 (w ∷ xs) h1 ws q.outside
              (Apart-cons w ws xs fresh.0 aw) p.queue;
        ready = q.queue;
        distinct =
            subst Distinct (append_assoc ws xs (w ∷ []))
              (Distinct-snoc w (ws ++ xs) a.distinct.1 a.distinct.0);
        nonnull =
            subst (NotIn 0) (append_assoc ws xs (w ∷ []))
              (NotIn-append 0 (ws ++ xs) (w ∷ []) a.nonnull.1 (a.nonnull.0, tt));
      })
