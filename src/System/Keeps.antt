-- ===== src/System/Keeps.antt =====
-- The machine's own operations keep what it relies on.
use kernel_riscv.Base.{ℕ, ◌≡◌, ◌≢◌, refl, ◌∙◌, ap, sym, subst, Bool, true, List, [], ◌∷◌, ◌++◌, ℤ}
use kernel_riscv.Links.Queue.{NotIn, NotIn-append}
use kernel_riscv.Kernel.{Kernel}
use kernel_riscv.System.{Place, ready, input, asleep, waits, put_at, Live}
use kernel_riscv.System.Lines.{Outside, put_at-elim, pop_node-Lines}
use kernel_riscv.System.Machine.{
  Machine, enqueue, dequeue, switch, first_or, rest, Known, Queues, Runner,
}
use kernel_riscv.System.Shows.{Shows}

pub NotIn-rest : (z : ℕ) (xs : List ℕ) → NotIn z xs → NotIn z (rest xs)
NotIn-rest z [] n = tt
NotIn-rest z (x ∷ xs) n = n.1

pub Known-rest : (threads : ℕ → Bool) (xs : List ℕ) → Known threads xs → Known threads (rest xs)
Known-rest threads [] n = tt
Known-rest threads (x ∷ xs) n = n.1

Known-append :
    (threads : ℕ → Bool) (xs ys : List ℕ)
    → Known threads xs
    → Known threads ys
    → Known threads (xs ++ ys)
Known-append threads [] ys p q = q
Known-append threads (x ∷ xs) ys (e, p) q = (e, Known-append threads xs ys p q)

pub Outside-enqueue :
    (p : Place) (t u : ℕ) (a : Machine)
    → Outside a.opened a.lines u
    → u ≢ t
    → Outside a.opened (enqueue p t a).lines u
Outside-enqueue p t u a out ne r live =
    put_at-elim (λ q ys. Live a.opened q → NotIn u ys) p (a.lines p ++ (t ∷ [])) a.lines r
      (λ e at. NotIn-append u (a.lines p) (t ∷ []) (out p (subst (Live a.opened) e at)) (ne, tt))
      (λ n at. out r at) live

pub Outside-dequeue :
    (p : Place) (u : ℕ) (a : Machine)
    → Outside a.opened a.lines u
    → Outside a.opened (dequeue p a).lines u
Outside-dequeue p u a out r live =
    put_at-elim (λ q ys. Live a.opened q → NotIn u ys) p (rest (a.lines p)) a.lines r
      (λ e at. NotIn-rest u (a.lines p) (out p (subst (Live a.opened) e at))) (λ n at. out r at)
      live

-- Who runs, the values and the characters do not matter for the queues.
pub Queues-with :
    (r : ℕ) (value : ℕ → ℤ) (cs : List ℕ) {a : Machine}
    → Queues a
    → Queues (record a { runs = r; value = value; buffer = cs })
Queues-with r value cs q = record {
  main_nonnull = q.main_nonnull;
  main_known = q.main_known;
  main_ready = q.main_ready;
  known = q.known;
}

pub Queues-output : (o : List ℕ) {a : Machine} → Queues a → Queues (record a { output = o })
Queues-output o q = record {
  main_nonnull = q.main_nonnull;
  main_known = q.main_known;
  main_ready = q.main_ready;
  known = q.known;
}

pub enqueue-Queues :
    (p : Place) (t : ℕ) {a : Machine}
    → Queues a
    → a.threads t ≡ true
    → (p ≢ ready → a.main ≢ t)
    → Queues (enqueue p t a)
enqueue-Queues p t {a} q known other = record {
  main_nonnull = q.main_nonnull;
  main_known = q.main_known;
  main_ready = λ r.
      put_at-elim (λ r ys. Live a.opened r → r ≢ ready → NotIn a.main ys) p (a.lines p ++ (t ∷ []))
        a.lines r
        (λ e live n.
          NotIn-append a.main (a.lines p) (t ∷ [])
            (q.main_ready p (subst (Live a.opened) e live) (λ z. n (e ∙ z)))
            (other (λ z. n (e ∙ z)), tt))
        (λ n. q.main_ready r);
  known = λ r.
      put_at-elim (λ r ys. Live a.opened r → r ≢ asleep → Known a.threads ys) p
        (a.lines p ++ (t ∷ [])) a.lines r
        (λ e live n.
          Known-append a.threads (a.lines p) (t ∷ [])
            (q.known p (subst (Live a.opened) e live) (λ z. n (e ∙ z))) (known, tt))
        (λ n. q.known r);
}

pub dequeue-Queues : (p : Place) {a : Machine} → Queues a → Queues (dequeue p a)
dequeue-Queues p {a} q = record {
  main_nonnull = q.main_nonnull;
  main_known = q.main_known;
  main_ready = λ r.
      put_at-elim (λ r ys. Live a.opened r → r ≢ ready → NotIn a.main ys) p (rest (a.lines p))
        a.lines r
        (λ e live n.
          NotIn-rest a.main (a.lines p)
            (q.main_ready p (subst (Live a.opened) e live) (λ z. n (e ∙ z))))
        (λ n. q.main_ready r);
  known = λ r.
      put_at-elim (λ r ys. Live a.opened r → r ≢ asleep → Known a.threads ys) p (rest (a.lines p))
        a.lines r
        (λ e live n.
          Known-rest a.threads (a.lines p)
            (q.known p (subst (Live a.opened) e live) (λ z. n (e ∙ z))))
        (λ n. q.known r);
}

pub switch-Queues : {a : Machine} → Queues a → Queues (switch a)
switch-Queues {a} q =
    Queues-with (first_or a.main (a.lines ready)) a.value a.buffer (dequeue-Queues ready q)

-- Whoever runs after a switch is in no queue.
pub switch-Runner : {k : Kernel} {a : Machine} → Shows k a → Queues a → Runner (switch a)
switch-Runner {k} {a} w q = from (a.lines ready) refl
  where
    idle : a.lines ready ≡ [] → Outside a.opened (switch a).lines a.main
    idle e ready live = subst (λ ys. NotIn a.main (rest ys)) (sym e) tt
    idle e input live = q.main_ready input live (λ z. cc)
    idle e asleep live = q.main_ready asleep live (λ z. cc)
    idle e (waits s) live = q.main_ready (waits s) live (λ z. cc)

    from : (xs : List ℕ) → a.lines ready ≡ xs → Runner (switch a)
    from [] e = record {
      free = subst (Outside a.opened (switch a).lines) (sym (ap (first_or a.main) e)) (idle e);
      nonnull = λ z. q.main_nonnull (sym (ap (first_or a.main) e) ∙ z);
      known = ap (λ ys. a.threads (first_or a.main ys)) e ∙ q.main_known;
    }
    from (x ∷ xs) e =
        let (lines, out, first, nz) = pop_node-Lines ready x xs w.lines tt e in
        record {
          free =
              subst (λ ys. Outside a.opened (put_at ready (rest ys) a.lines) (first_or a.main ys))
                (sym e) out;
          nonnull = λ z. nz (sym (ap (first_or a.main) e) ∙ z);
          known =
              ap (λ ys. a.threads (first_or a.main ys)) e
              ∙ (subst (Known a.threads) e (q.known ready tt (λ z. cc))).0;
        }

-- A thread that gives way is not the one that then runs.
pub switch-ne :
    {a : Machine} → Runner a → a.runs ≢ a.main → first_or a.main (a.lines ready) ≢ a.runs
switch-ne {a} m ne = from (a.lines ready) (m.free ready tt)
  where
    from : (xs : List ℕ) → NotIn a.runs xs → first_or a.main xs ≢ a.runs
    from [] n e = ne (sym e)
    from (x ∷ xs) n e = n.0 (sym e)

-- The running thread gives way and waits in a queue.
pub block-Runner :
    (p : Place) {k : Kernel} {a : Machine}
    → Shows k a
    → Queues a
    → Runner a
    → a.runs ≢ a.main
    → Queues (enqueue p a.runs (switch a)) × Runner (enqueue p a.runs (switch a))
block-Runner p {k} {a} w q m ne =
    let s = switch-Runner w q in
    (
      enqueue-Queues p a.runs (switch-Queues q) m.known (λ z e. ne (sym e)),
      record {
        free = Outside-enqueue p a.runs (switch a).runs (switch a) s.free (switch-ne m ne);
        nonnull = s.nonnull;
        known = s.known;
      },
    )

-- The first of a queue becomes ready.
pub wake-Runner :
    (p : Place) (x : ℕ) (xs : List ℕ) {k : Kernel} {a : Machine}
    → Shows k a
    → Queues a
    → Runner a
    → Live a.opened p
    → p ≢ asleep
    → a.lines p ≡ x ∷ xs
    → Queues (enqueue ready x (dequeue p a)) × Runner (enqueue ready x (dequeue p a))
wake-Runner p x xs {k} {a} w q r live n e =
    let known = (subst (Known a.threads) e (q.known p live n)).0 in
    let other = (subst (NotIn a.runs) e (r.free p live)).0 in
    (
      enqueue-Queues ready x (dequeue-Queues p q) known (λ z. absurd (z refl)),
      record {
        free =
            Outside-enqueue ready x a.runs (dequeue p a) (Outside-dequeue p a.runs a r.free) other;
        nonnull = r.nonnull;
        known = r.known;
      },
    )
