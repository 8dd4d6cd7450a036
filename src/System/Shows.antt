-- ===== src/System/Shows.antt =====
-- When a state of the kernel shows a state of the abstract machine, and the steps that the kernel's
-- operations are made of.
pub mod Waits
use kernel_riscv.Base.{
  ℕ, ◌≤◌, ◌≡◌, ◌≢◌, refl, ◌∙◌, ap, sym, subst, true, List, [], ◌∷◌, inl, inr, eq→==, ne→==,
  eq_cases, arith, ℤ, ◌+ℤ◌,
}
use kernel_riscv.Links.{push_node, pop_node}
use kernel_riscv.Links.Queue.{IsQueue}
use kernel_riscv.Kernel.{Kernel, set_a0}
use kernel_riscv.Scheduler.{set_current, set_ready, scheduler_push, scheduler_next}
use kernel_riscv.Threads.{yield}
use kernel_riscv.Threads.Switch.{yield-shape}
use kernel_riscv.Trap.Sharing.Turn.{yield-time_left}
use kernel_riscv.Semaphores.{sem_push, sem_next}
use kernel_riscv.ConsoleIo.{waiting_push, waiting_pop}
use kernel_riscv.ConsoleIo.Buffers.{received, unsent}
use kernel_riscv.System.{Place, ready, input, asleep, waits, put_at, head_of}
use kernel_riscv.System.Lines.{Lines, Outside, push_node-Lines, pop_node-Lines, Lines-cong}
use kernel_riscv.System.Machine.{Machine, enqueue, dequeue, switch, first_or, rest, add_value}

pub record Shows (k : Kernel) (a : Machine) : Type 0 where
  pub current : k.scheduler.thread_current ≡ a.runs
  pub main : k.scheduler.kernel_main ≡ a.main
  pub lines : Lines a.opened k.links (head_of k) a.lines
  pub value : (s : ℕ) → a.opened s ≡ true → (k.sem_at s).val ≡ a.value s
  pub slices : (t : ℕ) → a.threads t ≡ true → (k.thread_at t).time_left ≢ 0
  pub buffer : received k.console ≡ a.buffer
  pub output : unsent k.console ≡ a.output
  pub unsent : k.console.send_cnt ≤ 1024

-- What does not touch the lists, the semaphores, the console and the time slices.
pub Shows-frame :
    {k k' : Kernel} {a : Machine}
    → k'.links ≡ k.links
    → k'.scheduler ≡ k.scheduler
    → k'.console ≡ k.console
    → ((s : ℕ) → k'.sem_at s ≡ k.sem_at s)
    → ((t : ℕ) → (k'.thread_at t).time_left ≡ (k.thread_at t).time_left)
    → Shows k a
    → Shows k' a
Shows-frame {k} {k'} {a} links scheduler console sems slices w = record {
  current = ap (λ z. z.thread_current) scheduler ∙ w.current;
  main = ap (λ z. z.kernel_main) scheduler ∙ w.main;
  lines =
      subst (λ z. Lines a.opened z (head_of k') a.lines) (sym links)
        (Lines-cong heads (λ p. refl) w.lines);
  value = λ s o. ap (λ z. z.val) (sems s) ∙ w.value s o;
  slices = λ t h e. w.slices t h (sym (slices t) ∙ e);
  buffer = ap received console ∙ w.buffer;
  output = ap unsent console ∙ w.output;
  unsent = subst (λ z. z.send_cnt ≤ 1024) (sym console) w.unsent;
}
  where
    heads : (p : Place) → head_of k' p ≡ head_of k p
    heads ready = ap (λ z. z.ready_threads) scheduler
    heads input = ap (λ z. z.waiting_for_input) console
    heads asleep = ap (λ z. z.sleeping_threads) scheduler
    heads (waits s) = ap (λ z. z.waiting_threads) (sems s)

pub scheduler_push-Shows :
    (t : ℕ) {k : Kernel} {a : Machine}
    → Shows k a
    → t ≢ 0
    → Outside a.opened a.lines t
    → Shows (scheduler_push t k) (enqueue ready t a)
unfolding scheduler_push
scheduler_push-Shows t {k} {a} w nz out = record {
  current = w.current;
  main = w.main;
  lines = Lines-cong heads (λ p. refl) (push_node-Lines ready t w.lines tt nz out);
  value = w.value;
  slices = λ u h. elim (eq_cases u t) [
    | inl e ↦ rw (eq→== u t e) (λ z. omega (arith, z))
    | inr n ↦ rw (ne→== u t n) (w.slices u h)
  ];
  buffer = w.buffer;
  output = w.output;
  unsent = w.unsent;
}
  where
    heads :
        (p : Place)
        → head_of (scheduler_push t k) p
          ≡ put_at ready (push_node k.links (head_of k ready) t).1 (head_of k) p
    heads ready = refl
    heads input = refl
    heads asleep = refl
    heads (waits s) = refl

pub yield-Shows : (o n : ℕ) {k : Kernel} {a : Machine} → Shows k a → Shows (yield o n k) a
yield-Shows o n {k} w =
    let (threads, cpu, e) = yield-shape o n k in
    Shows-frame (ap (λ z. z.links) e) (ap (λ z. z.scheduler) e) (ap (λ z. z.console) e)
      (λ s. ap (λ z. z.sem_at s) e) (λ t. yield-time_left o n t k) w

-- `__scheduler_next` with nobody ready, and with `x` the first ready thread.
next-idle :
    {k : Kernel} {a : Machine}
    → Shows k a
    → a.lines ready ≡ []
    → ((scheduler_next k).0 ≡ a.main) × Shows (scheduler_next k).1 (switch a)
unfolding scheduler_next
next-idle {k} {a} w e =
    rw
      (
        eq→== k.scheduler.ready_threads 0
            (subst (IsQueue k.links k.scheduler.ready_threads) e (w.lines.queue ready tt)),
        scheduler_next,
      )
      (
        w.main,
        record {
          current = w.main ∙ sym (ap (first_or a.main) e);
          main = w.main;
          lines = Lines-cong (heads k k.scheduler.kernel_main) lines w.lines;
          value = w.value;
          slices = w.slices;
          buffer = w.buffer;
          output = w.output;
          unsent = w.unsent;
        },
      )
  where
    heads : (k : Kernel) (t : ℕ) (p : Place) → head_of (set_current t k) p ≡ head_of k p
    heads k t ready = refl
    heads k t input = refl
    heads k t asleep = refl
    heads k t (waits s) = refl

    lines : (p : Place) → put_at ready (rest (a.lines ready)) a.lines p ≡ a.lines p
    lines ready = ap rest e ∙ sym e
    lines input = refl
    lines asleep = refl
    lines (waits s) = refl

next-first :
    (x : ℕ) (xs : List ℕ) {k : Kernel} {a : Machine}
    → Shows k a
    → a.lines ready ≡ x ∷ xs
    → ((scheduler_next k).0 ≡ x) × Shows (scheduler_next k).1 (switch a)
unfolding scheduler_next
next-first x xs {k} {a} w e =
    let (lines, out, first, nz) = pop_node-Lines ready x xs w.lines tt e in
    rw (ne→== k.scheduler.ready_threads 0 (λ z. nz (sym first ∙ z)), scheduler_next)
      (
        first,
        record {
          current = first ∙ sym (ap (first_or a.main) e);
          main = w.main;
          lines = Lines-cong heads (λ p. ap (λ ys. put_at ready ys a.lines p) (ap rest e)) lines;
          value = w.value;
          slices = w.slices;
          buffer = w.buffer;
          output = w.output;
          unsent = w.unsent;
        },
      )
  where
    heads :
        (p : Place)
        → head_of
            (set_current k.scheduler.ready_threads
              (set_ready (pop_node k.links k.scheduler.ready_threads) k))
            p
          ≡ put_at ready (pop_node k.links (head_of k ready)).1 (head_of k) p
    heads ready = refl
    heads input = refl
    heads asleep = refl
    heads (waits s) = refl

-- The result of `__scheduler_next` runs.
pub scheduler_next-Shows :
    {k : Kernel} {a : Machine}
    → Shows k a
    → ((scheduler_next k).0 ≡ first_or a.main (a.lines ready))
      × Shows (scheduler_next k).1 (switch a)
scheduler_next-Shows {k} {a} w = from (a.lines ready) refl
  where
    from :
        (xs : List ℕ)
        → a.lines ready ≡ xs
        → ((scheduler_next k).0 ≡ first_or a.main xs) × Shows (scheduler_next k).1 (switch a)
    from [] e = next-idle w e
    from (x ∷ xs) e = next-first x xs w e

pub set_a0-Shows : (t v : ℕ) {k : Kernel} {a : Machine} → Shows k a → Shows (set_a0 t v k) a
set_a0-Shows t v w = Shows-frame refl refl refl (λ s. refl) (λ u. refl) w
