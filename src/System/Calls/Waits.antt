-- ===== src/System/Calls/Waits.antt =====
-- `__sem_wait` and `__sem_signal` of src/semaphore.c and the abstract machine.
use kernel_riscv.Base.{
  ℕ, ◌≡◌, ◌≢◌, refl, ◌∙◌, ap, sym, subst, Bool, true, false, List, [], ◌∷◌, inl, inr, ℤ, ◌+ℤ◌,
  arith, length, length-append, suc, pos, negsuc, is_neg, is_pos, eq_cases, eq→==, ne→==,
  Bool-cases, greatest_i32, least_i32,
}
use kernel_riscv.Memory.{Layout, done}
use kernel_riscv.Kernel.{Kernel, put_self, set_a0}
use kernel_riscv.Scheduler.{scheduler_push}
use kernel_riscv.Threads.{switch_away}
use kernel_riscv.System.{ready, waits}
use kernel_riscv.System.Machine.{
  wake_from, Machine, enqueue, dequeue, switch, rest, Known, Queues, Counts, Runner, wait_at,
  signal_at, add_value,
}
use kernel_riscv.System.Shows.{Shows, scheduler_push-Shows, set_a0-Shows}
use kernel_riscv.System.Shows.Waits.{sem_push-Shows, sem_next-Shows, add_val-Shows}
use kernel_riscv.Semaphores.{sem_wait, sem_signal, sem_push, sem_next}
use kernel_riscv.Semaphores.Values.{add_val, lower_val-add}
use kernel_riscv.Semaphores.Blocking.{debt, debt-down, passes-down}
use kernel_riscv.Semaphores.Waking.{debt-up, unblocked, sem_signal-unblocked, sem_signal-raises}
use kernel_riscv.System.Keeps.{wake-Runner, block-Runner, Outside-dequeue, Queues-with}
use kernel_riscv.System.Calls.{Follows, switch_away-Shows}

-- Another value of one semaphore.
add_value-Runner : (d : ℤ) (s : ℕ) {a : Machine} → Runner a → Runner (add_value d s a)
add_value-Runner d s r = record { free = r.free; nonnull = r.nonnull; known = r.known }

-- The counts are right again when the thread is in the queue.
wait-Counts :
    (s : ℕ) (a : Machine)
    → Counts a
    → is_neg (a.value s +ℤ negsuc 0) ≡ true
    → Counts (enqueue (waits s) a.runs (switch (add_value (negsuc 0) s a)))
wait-Counts s a c h u o = elim (eq_cases u s) [
  | inl e ↦ rw (eq→== u s e) (
      debt-down (a.value s) h
      ∙ ap suc (ap (λ z. debt (a.value z)) (sym e) ∙ c u o ∙ ap (λ z. length (a.lines (waits z))) e)
      ∙ omega (arith, length-append (a.lines (waits s)) (a.runs ∷ [])))
  | inr n ↦ rw (ne→== u s n) (c u o)
]

pass-Counts :
    (s : ℕ) (a : Machine)
    → Counts a
    → is_neg (a.value s +ℤ negsuc 0) ≡ false
    → Counts (add_value (negsuc 0) s a)
pass-Counts s a c h u o = elim (eq_cases u s) [
  | inl e ↦
      let d = passes-down (a.value s) h in
      rw (eq→== u s e) (d.0 ∙ sym d.1 ∙ ap (λ z. debt (a.value z)) (sym e) ∙ c u o)
  | inr n ↦ rw (ne→== u s n) (c u o)
]

abbrev pub answer : Bool → ℤ
answer true = pos 1
answer false = pos 0

pub sem_wait-Follows :
    (s : ℕ) {k : Kernel} {a : Machine}
    → Follows k a
    → a.opened s ≡ true
    → a.value s ≢ least_i32
    → a.runs ≢ a.main
    → ((sem_wait s k).0 ≡ answer (is_neg (a.value s +ℤ negsuc 0)))
      × Follows (sem_wait s k).1 (wait_at s a)
unfolding sem_wait
sem_wait-Follows s {k} {a} f o m ne =
    let b = add_value (negsuc 0) s a in
    let k1 = add_val (negsuc 0) s k in
    let w = add_val-Shows (negsuc 0) s f.shows o in
    let q = Queues-with a.runs b.value a.buffer f.machine.queues in
    let r = add_value-Runner (negsuc 0) s f.machine.runner in
    let test : is_neg (k1.sem_at s).val ≡ is_neg (a.value s +ℤ negsuc 0) =
      ap is_neg (w.value s o ∙ put_self a.value s (a.value s +ℤ negsuc 0)) in
    elim (Bool-cases (is_neg (a.value s +ℤ negsuc 0))) [
      | inl h ↦
          let (c, away) = switch_away-Shows w in
          let blocked = block-Runner (waits s) w q r ne in
          rw (lower_val-add s k (λ z. m (sym (f.shows.value s o) ∙ z)), test, h)
            (
              refl,
              record {
                shows =
                    subst
                      (λ t.
                        Shows (sem_push s t (switch_away k1).1)
                          (enqueue (waits s) a.runs (switch b)))
                      (sym c)
                      (sem_push-Shows s a.runs away o r.nonnull
                        (Outside-dequeue ready a.runs b r.free));
                machine = record {
                  queues = blocked.0;
                  runner = blocked.1;
                  counts = wait-Counts s a f.machine.counts h;
                  bounded = f.machine.bounded;
                };
              },
            )
      | inr h ↦
          rw (lower_val-add s k (λ z. m (sym (f.shows.value s o) ∙ z)), test, h)
            (
              refl,
              record {
                shows = w;
                machine = record {
                  queues = q;
                  runner = r;
                  counts = pass-Counts s a f.machine.counts h;
                  bounded = f.machine.bounded;
                };
              },
            )
    ]

signal-Counts :
    (s x : ℕ) (xs : List ℕ) (a : Machine)
    → Counts a
    → a.opened s ≡ true
    → a.lines (waits s) ≡ x ∷ xs
    → Counts (enqueue ready x (dequeue (waits s) (add_value (pos 1) s a)))
signal-Counts s x xs a c o e u h = elim (eq_cases u s) [
  | inl d ↦ rw (eq→== u s d) (
      (debt-up (a.value s) (length xs) (c s o ∙ ap length e)).1 ∙ sym (ap (λ z. length (rest z)) e))
  | inr n ↦ rw (ne→== u s n) (c u h)
]

raise-Counts :
    (s : ℕ) (a : Machine)
    → Counts a
    → a.opened s ≡ true
    → a.lines (waits s) ≡ []
    → debt (a.value s +ℤ pos 1) ≡ 0
    → Counts (add_value (pos 1) s a)
raise-Counts s a c o e d u h = elim (eq_cases u s) [
  | inl z ↦ rw (eq→== u s z) (d ∙ sym (ap (λ v. length (a.lines (waits v))) z ∙ ap length e))
  | inr n ↦ rw (ne→== u s n) (c u h)
]

pub sem_signal-Follows :
    (l : Layout) (s : ℕ) {k : Kernel} {a : Machine}
    → Follows k a
    → a.opened s ≡ true
    → a.value s ≢ greatest_i32
    → (k' : Kernel) × (sem_signal l s k ≡ done (pos 0, k')) × Follows k' (signal_at s a)
unfolding sem_next
sem_signal-Follows l s {k} {a} f o m = from (a.lines (waits s)) refl
  where
    b : Machine
    b = add_value (pos 1) s a

    k1 : Kernel
    k1 = add_val (pos 1) s k

    w : Shows k1 b
    w = add_val-Shows (pos 1) s f.shows o

    q : Queues b
    q = Queues-with a.runs b.value a.buffer f.machine.queues

    r : Runner b
    r = add_value-Runner (pos 1) s f.machine.runner

    counted : (ys : List ℕ) → a.lines (waits s) ≡ ys → debt (k.sem_at s).val ≡ length ys
    counted ys e = ap debt (f.shows.value s o) ∙ f.machine.counts s o ∙ ap length e

    below : (k.sem_at s).val ≢ greatest_i32
    below z = m (sym (f.shows.value s o) ∙ z)

    from :
        (ys : List ℕ)
        → a.lines (waits s) ≡ ys
        → (k' : Kernel) × (sem_signal l s k ≡ done (pos 0, k'))
          × Follows k' (wake_from (waits s) ys b)
    from [] e =
        let (returns, d) = sem_signal-raises l k s below (counted [] e) in
        (
          k1,
          returns,
          record {
            shows = w;
            machine = record {
              queues = q;
              runner = r;
              counts =
                  raise-Counts s a f.machine.counts o e
                    (ap (λ v. debt (v +ℤ pos 1)) (sym (f.shows.value s o)) ∙ d);
              bounded = f.machine.bounded;
            };
          },
        )
    from (x ∷ xs) e =
        let (first, popped, out, nz) = sem_next-Shows s x xs w o e in
        let there : (k1.sem_at s).val ≡ (k.sem_at s).val +ℤ pos 1 =
          ap (λ z. z.val)
            (put_self k.sem_at s (record (k.sem_at s) { val = (k.sem_at s).val +ℤ pos 1 })) in
        let moved = wake-Runner (waits s) x xs w q r o (λ z. cc) e in
        (
          unblocked s k1,
          sem_signal-unblocked l k s below
              (ap is_pos there ∙ (debt-up (k.sem_at s).val (length xs) (counted (x ∷ xs) e)).0)
              (λ z. nz (sym first ∙ z))
              (λ z.
                w.slices x (subst (Known a.threads) e (q.known (waits s) o (λ z'. cc))).0
                  (ap (λ t. (k.thread_at t).time_left) (sym first) ∙ z)),
          record {
            shows =
                subst
                  (λ t.
                    Shows (scheduler_push t (set_a0 t 0 (sem_next s k1).1))
                      (enqueue ready x (dequeue (waits s) b)))
                  (sym first) (scheduler_push-Shows x (set_a0-Shows x 0 popped) nz out);
            machine = record {
              queues = moved.0;
              runner = moved.1;
              counts = signal-Counts s x xs a f.machine.counts o e;
              bounded = f.machine.bounded;
            };
          },
        )
