-- ===== src/System/Shows/Waits.antt =====
-- The threads that wait, on a semaphore or for input, and what a state then shows.
use kernel_riscv.Base.{
  ℕ, ◌≡◌, ◌≢◌, refl, ◌∙◌, ap, sym, subst, true, List, ◌∷◌, inl, inr, eq→==, ne→==, eq_cases, ℤ,
  ◌+ℤ◌,
}
use kernel_riscv.Links.{push_node, pop_node}
use kernel_riscv.Kernel.{Kernel}
use kernel_riscv.Semaphores.{sem_push, sem_next}
use kernel_riscv.Semaphores.Values.{add_val}
use kernel_riscv.ConsoleIo.{waiting_push, waiting_pop}
use kernel_riscv.System.{Place, ready, input, asleep, waits, put_at, head_of}
use kernel_riscv.System.Lines.{Outside, push_node-Lines, pop_node-Lines, Lines-cong}
use kernel_riscv.System.Machine.{Machine, enqueue, dequeue, rest, add_value}
use kernel_riscv.System.Shows.{Shows}

pub sem_push-Shows :
    (s t : ℕ) {k : Kernel} {a : Machine}
    → Shows k a
    → a.opened s ≡ true
    → t ≢ 0
    → Outside a.opened a.lines t
    → Shows (sem_push s t k) (enqueue (waits s) t a)
unfolding sem_push
sem_push-Shows s t {k} {a} w o nz out = record {
  current = w.current;
  main = w.main;
  lines = Lines-cong heads (λ p. refl) (push_node-Lines (waits s) t w.lines o nz out);
  value = λ u h. elim (eq_cases u s) [
    | inl e ↦ rw (eq→== u s e) (ap (λ z. (k.sem_at z).val) (sym e) ∙ w.value u h)
    | inr n ↦ rw (ne→== u s n) (w.value u h)
  ];
  slices = w.slices;
  buffer = w.buffer;
  output = w.output;
  unsent = w.unsent;
}
  where
    heads :
        (p : Place)
        → head_of (sem_push s t k) p
          ≡ put_at (waits s) (push_node k.links (head_of k (waits s)) t).1 (head_of k) p
    heads ready = refl
    heads input = refl
    heads asleep = refl
    heads (waits u) = elim (eq_cases u s) [
      | inl e ↦ rw (eq→== u s e, head_of) refl
      | inr n ↦ rw (ne→== u s n, head_of) refl
    ]

-- `thread_next` of the first thread that waits on the semaphore.
pub sem_next-Shows :
    (s x : ℕ) (xs : List ℕ) {k : Kernel} {a : Machine}
    → Shows k a
    → a.opened s ≡ true
    → a.lines (waits s) ≡ x ∷ xs
    → ((sem_next s k).0 ≡ x)
      × Shows (sem_next s k).1 (dequeue (waits s) a)
      × Outside a.opened (dequeue (waits s) a).lines x
      × (x ≢ 0)
unfolding sem_next
sem_next-Shows s x xs {k} {a} w o e =
    let (lines, out, first, nz) = pop_node-Lines (waits s) x xs w.lines o e in
    (
      first,
      record {
        current = w.current;
        main = w.main;
        lines = Lines-cong heads (λ p. ap (λ ys. put_at (waits s) ys a.lines p) (ap rest e)) lines;
        value = λ u h. elim (eq_cases u s) [
          | inl e ↦ rw (eq→== u s e) (ap (λ z. (k.sem_at z).val) (sym e) ∙ w.value u h)
          | inr n ↦ rw (ne→== u s n) (w.value u h)
        ];
        slices = w.slices;
        buffer = w.buffer;
        output = w.output;
        unsent = w.unsent;
      },
      subst (λ ys. Outside a.opened (put_at (waits s) ys a.lines) x) (sym (ap rest e)) out,
      nz,
    )
  where
    heads :
        (p : Place)
        → head_of (sem_next s k).1 p
          ≡ put_at (waits s) (pop_node k.links (head_of k (waits s))).1 (head_of k) p
    heads ready = refl
    heads input = refl
    heads asleep = refl
    heads (waits u) = elim (eq_cases u s) [
      | inl e ↦ rw (eq→== u s e, head_of) refl
      | inr n ↦ rw (ne→== u s n, head_of) refl
    ]

pub add_val-Shows :
    (d : ℤ) (s : ℕ) {k : Kernel} {a : Machine}
    → Shows k a
    → a.opened s ≡ true
    → Shows (add_val d s k) (add_value d s a)
add_val-Shows d s {k} {a} w o = record {
  current = w.current;
  main = w.main;
  lines = Lines-cong heads (λ p. refl) w.lines;
  value = λ u h. elim (eq_cases u s) [
    | inl e ↦ rw (eq→== u s e) (ap (λ z. z +ℤ d) (w.value s o))
    | inr n ↦ rw (ne→== u s n) (w.value u h)
  ];
  slices = w.slices;
  buffer = w.buffer;
  output = w.output;
  unsent = w.unsent;
}
  where
    heads : (p : Place) → head_of (add_val d s k) p ≡ head_of k p
    heads ready = refl
    heads input = refl
    heads asleep = refl
    heads (waits u) = elim (eq_cases u s) [
      | inl e ↦ rw (eq→== u s e, head_of) (ap (λ z. (k.sem_at z).waiting_threads) (sym e))
      | inr n ↦ rw (ne→== u s n, head_of) refl
    ]

pub waiting_push-Shows :
    (t : ℕ) {k : Kernel} {a : Machine}
    → Shows k a
    → t ≢ 0
    → Outside a.opened a.lines t
    → Shows (waiting_push t k) (enqueue input t a)
unfolding waiting_push
waiting_push-Shows t {k} {a} w nz out = record {
  current = w.current;
  main = w.main;
  lines = Lines-cong heads (λ p. refl) (push_node-Lines input t w.lines tt nz out);
  value = w.value;
  slices = w.slices;
  buffer = w.buffer;
  output = w.output;
  unsent = w.unsent;
}
  where
    heads :
        (p : Place)
        → head_of (waiting_push t k) p
          ≡ put_at input (push_node k.links (head_of k input) t).1 (head_of k) p
    heads ready = refl
    heads input = refl
    heads asleep = refl
    heads (waits s) = refl

pub waiting_pop-Shows :
    (x : ℕ) (xs : List ℕ) {k : Kernel} {a : Machine}
    → Shows k a
    → a.lines input ≡ x ∷ xs
    → ((waiting_pop k).0 ≡ x)
      × Shows (waiting_pop k).1 (dequeue input a)
      × Outside a.opened (dequeue input a).lines x
      × (x ≢ 0)
unfolding waiting_pop
waiting_pop-Shows x xs {k} {a} w e =
    let (lines, out, first, nz) = pop_node-Lines input x xs w.lines tt e in
    (
      first,
      record {
        current = w.current;
        main = w.main;
        lines = Lines-cong heads (λ p. ap (λ ys. put_at input ys a.lines p) (ap rest e)) lines;
        value = w.value;
        slices = w.slices;
        buffer = w.buffer;
        output = w.output;
        unsent = w.unsent;
      },
      subst (λ ys. Outside a.opened (put_at input ys a.lines) x) (sym (ap rest e)) out,
      nz,
    )
  where
    heads :
        (p : Place)
        → head_of (waiting_pop k).1 p
          ≡ put_at input (pop_node k.links (head_of k input)).1 (head_of k) p
    heads ready = refl
    heads input = refl
    heads asleep = refl
    heads (waits s) = refl
