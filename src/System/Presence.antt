-- ===== src/System/Presence.antt =====
-- No thread is lost: who runs or stands in a queue does so after every event.
use kernel_riscv.Base.{
  ℕ, ◌≡◌, ◌≢◌, refl, ◌∙◌, ap, sym, subst, true, List, [], ◌∷◌, ◌++◌, ◌⊎◌, inl, inr, ℤ, ◌+ℤ◌, pos,
  negsuc, is_neg, Bool-cases,
}
use kernel_riscv.System.{Place, ready, input, asleep, waits, Live}
use kernel_riscv.System.Lines.{put_at-elim}
use kernel_riscv.ConsoleIo.Sharing.{leftover}
use kernel_riscv.System.Machine.{
  Machine, enqueue, dequeue, switch, first_or, rest, turn, wait_at, signal_at, wake_from, get_char,
  take_first, serve, arrive, add_value,
}
use kernel_riscv.ConsoleIo.{Device}
use kernel_riscv.Kernel.{Kernel}
use kernel_riscv.System.Traps.{
  Event, ticks, receives, yields, reads, kernel_yields, waits_on, signals, writes, asks, strays,
  Allowed, After,
}

abbrev pub In : ℕ → List ℕ → Type 0
In t [] = ⊥
In t (x ∷ xs) = (t ≡ x) ⊎ In t xs

-- The thread can run again: it is the kernel's own, or in one of the queues of threads.
pub data Queued (a : Machine) (t : ℕ) : Type 0 where
  kernel_own : t ≡ a.main → Queued a t
  queued : (p : Place) → Live a.opened p → p ≢ asleep → In t (a.lines p) → Queued a t

abbrev pub Present : Machine → ℕ → Type 0
Present a t = (t ≡ a.runs) ⊎ Queued a t

In-before : (t : ℕ) (xs ys : List ℕ) → In t xs → In t (xs ++ ys)
In-before t [] ys i = elim i [ ]
In-before t (x ∷ xs) ys (inl e) = inl e
In-before t (x ∷ xs) ys (inr i) = inr (In-before t xs ys i)

In-last : (t : ℕ) (xs : List ℕ) → In t (xs ++ (t ∷ []))
In-last t [] = inl refl
In-last t (x ∷ xs) = inr (In-last t xs)

enqueue-Queued : (p : Place) (t u : ℕ) {a : Machine} → Queued a u → Queued (enqueue p t a) u
enqueue-Queued p t u (kernel_own e) = kernel_own e
enqueue-Queued p t u {a} (queued r live n i) = queued r live n (
    put_at-elim (λ q ys. In u (a.lines q) → In u ys) p (a.lines p ++ (t ∷ [])) a.lines r
      (λ e j. In-before u (a.lines p) (t ∷ []) (subst (λ q. In u (a.lines q)) e j)) (λ n' j. j) i)

enqueued-Queued :
    (p : Place) (t : ℕ) {a : Machine} → Live a.opened p → p ≢ asleep → Queued (enqueue p t a) t
enqueued-Queued p t {a} live n = queued p live n (
    put_at-elim (λ q ys. q ≡ p → In t ys) p (a.lines p ++ (t ∷ [])) a.lines p
      (λ e e'. In-last t (a.lines p)) (λ n' e. absurd (n' e)) refl)

-- Only the first of a queue leaves it.
dequeue-Queued :
    (p : Place) (x : ℕ) (xs : List ℕ) (u : ℕ) {a : Machine}
    → a.lines p ≡ x ∷ xs
    → Queued a u
    → (u ≡ x) ⊎ Queued (dequeue p a) u
dequeue-Queued p x xs u e (kernel_own m) = inr (kernel_own m)
dequeue-Queued p x xs u {a} e (queued r live n i) =
    let j : (u ≡ x) ⊎ In u ((dequeue p a).lines r) =
      put_at-elim (λ q ys. In u (a.lines q) → (u ≡ x) ⊎ In u ys) p (rest (a.lines p)) a.lines r
        (λ d j'. elim (subst (In u) e (subst (λ q. In u (a.lines q)) d j')) [
          | inl z ↦ inl z
          | inr z ↦ inr (subst (λ ys. In u (rest ys)) (sym e) z)
        ])
        (λ n' j'. inr j') i in
    elim j [ inl z ↦ inl z | inr z ↦ inr (queued r live n z) ]

-- Who runs, the values and the characters do not matter for the queues.
Queued-with :
    (r : ℕ) (value : ℕ → ℤ) (cs : List ℕ) (u : ℕ) {a : Machine}
    → Queued a u
    → Queued (record a { runs = r; value = value; buffer = cs }) u
Queued-with r value cs u (kernel_own e) = kernel_own e
Queued-with r value cs u (queued p live n i) = queued p live n i

-- Whoever waits or is ready does so after a switch, or runs.
switch-Present : (u : ℕ) {a : Machine} → Queued a u → Present (switch a) u
switch-Present u {a} q = from (a.lines ready) refl
  where
    nobody : a.lines ready ≡ [] → Queued a u → Queued (switch a) u
    nobody e (kernel_own m) = kernel_own m
    nobody e (queued ready live n i) = elim (subst (In u) e i) [ ]
    nobody e (queued input live n i) = queued input live n i
    nobody e (queued asleep live n i) = absurd (n refl)
    nobody e (queued (waits s) live n i) = queued (waits s) live n i

    from : (xs : List ℕ) → a.lines ready ≡ xs → Present (switch a) u
    from [] e = inr (nobody e q)
    from (x ∷ xs) e = elim (dequeue-Queued ready x xs u e q) [
      | inl z ↦ inl (z ∙ sym (ap (first_or a.main) e))
      | inr z ↦ inr (Queued-with (first_or a.main (a.lines ready)) a.value a.buffer u z)
    ]

turn-Present : (u : ℕ) {a : Machine} → Present a u → Present (turn a) u
turn-Present u {a} (inl e) = switch-Present u (
    subst (Queued (enqueue ready a.runs a)) (sym e)
      (enqueued-Queued ready a.runs {a = a} tt (λ z. cc)))
turn-Present u {a} (inr q) = switch-Present u (enqueue-Queued ready a.runs u q)

-- The running thread gives way and waits in a queue.
block-Present :
    (p : Place) (u : ℕ) {a : Machine}
    → Live a.opened p
    → p ≢ asleep
    → Present a u
    → Present (enqueue p a.runs (switch a)) u
block-Present p u {a} live n (inl e) = inr (
    subst (Queued (enqueue p a.runs (switch a))) (sym e)
      (enqueued-Queued p a.runs {a = switch a} live n))
block-Present p u {a} live n (inr q) = elim (switch-Present u q) [
  | inl z ↦ inl z
  | inr z ↦ inr (enqueue-Queued p a.runs u z)
]

-- The first of a queue becomes ready.
wake-Present :
    (p : Place) (w : ℕ) (ws : List ℕ) (u : ℕ) {a : Machine}
    → a.lines p ≡ w ∷ ws
    → Present a u
    → Present (enqueue ready w (dequeue p a)) u
wake-Present p w ws u e (inl z) = inl z
wake-Present p w ws u {a} e (inr q) = elim (dequeue-Queued p w ws u e q) [
  | inl z ↦ inr (
      subst (Queued (enqueue ready w (dequeue p a))) (sym z)
        (enqueued-Queued ready w {a = dequeue p a} tt (λ z'. cc)))
  | inr z ↦ inr (enqueue-Queued ready w u z)
]

Present-with :
    (value : ℕ → ℤ) (cs : List ℕ) (u : ℕ) {a : Machine}
    → Present a u
    → Present (record a { value = value; buffer = cs }) u
Present-with value cs u (inl e) = inl e
Present-with value cs u {a} (inr q) = inr (Queued-with a.runs value cs u q)

wait-Present : (s u : ℕ) {a : Machine} → a.opened s ≡ true → Present a u → Present (wait_at s a) u
wait-Present s u {a} o q =
    let b = add_value (negsuc 0) s a in
    let q' = Present-with b.value a.buffer u q in
    elim (Bool-cases (is_neg (a.value s +ℤ negsuc 0))) [
      | inl h ↦ rw h (block-Present (waits s) u {a = b} o (λ z. cc) q')
      | inr h ↦ rw h q'
    ]

signal-Present : (s u : ℕ) {a : Machine} → Present a u → Present (signal_at s a) u
signal-Present s u {a} q = from (a.lines (waits s)) refl
  where
    b : Machine
    b = add_value (pos 1) s a

    from : (ws : List ℕ) → a.lines (waits s) ≡ ws → Present (wake_from (waits s) ws b) u
    from [] e = Present-with b.value a.buffer u q
    from (w ∷ ws) e = wake-Present (waits s) w ws u {a = b} e (Present-with b.value a.buffer u q)

get_char-Present : (u : ℕ) {a : Machine} → Present a u → Present (get_char a) u
get_char-Present u {a} q = from a.buffer
  where
    from : (cs : List ℕ) → Present (take_first cs a) u
    from [] = block-Present input u tt (λ z. cc) q
    from (x ∷ xs) = Present-with a.value xs u q

serve-Present :
    (ws cs : List ℕ) (u : ℕ) {a : Machine}
    → a.lines input ≡ ws
    → Present a u
    → Present (serve ws cs a) u
serve-Present [] cs u e q = q
serve-Present (w ∷ ws) [] u e q = q
serve-Present (w ∷ ws) (c ∷ cs) u e q =
    serve-Present ws cs u (ap rest e) (wake-Present input w ws u e q)

arrive-Present : (cs : List ℕ) (u : ℕ) {a : Machine} → Present a u → Present (arrive cs a) u
arrive-Present cs u {a} q =
    let all = a.buffer ++ cs in
    let ws = a.lines input in
    let b = record a { buffer = all } in
    Present-with (serve ws all b).value (leftover ws all) u
      (serve-Present ws all u {a = b} refl (Present-with a.value all u q))

Present-output :
    (o : List ℕ) (u : ℕ) {a : Machine} → Present a u → Present (record a { output = o }) u
Present-output o u (inl e) = inl e
Present-output o u (inr (kernel_own e)) = inr (kernel_own e)
Present-output o u (inr (queued p live n i)) = inr (queued p live n i)

-- Whoever runs, waits or is ready still does so after an event that the machine allows; the
-- kernel's own thread is always there.
module _ (dev : Device) (plic_claim : dev.Dev → ℕ × dev.Dev) (plic_complete : ℕ → dev.Dev → dev.Dev)
    (k : Kernel) (a b : Machine) (d d' : dev.Dev) (u : ℕ) where
  same-Present : {m : Machine} → b ≡ m → Present m u → Present b u
  same-Present e q = subst (λ m. Present m u) (sym e) q

  pub After-Present :
      (e : Event)
      → Allowed a e
      → After dev plic_claim plic_complete e k a b d d'
      → Present a u
      → Present b u
  After-Present ticks h (inl (n, e), f) q = same-Present e q
  After-Present ticks h (inr (n, e), f) q = same-Present e (turn-Present u q)
  After-Present receives h (inl (c, s)) q =
      same-Present s.machine (Present-output s.left u (arrive-Present s.new u q))
  After-Present receives h (inr (n, e, f)) q = same-Present e q
  After-Present yields h (e, f) q = same-Present e (turn-Present u q)
  After-Present reads h (e, f) q = same-Present e (get_char-Present u q)
  After-Present kernel_yields h (e, f) (inl r) =
      same-Present e (switch-Present u {a = a} (kernel_own (r ∙ h)))
  After-Present kernel_yields h (e, f) (inr q) = same-Present e (switch-Present u {a = a} q)
  After-Present (waits_on s) h (e, f) q = same-Present e (wait-Present s u h.0 q)
  After-Present (signals s) h (e, f) q = same-Present e (signal-Present s u q)
  After-Present (writes x) h (inl s) q = same-Present s.machine (Present-output s.left u q)
  After-Present (writes x) h (inr s) q = same-Present s.machine (turn-Present u q)
  After-Present (asks n) h (e, f) q = same-Present e q
  After-Present (strays n) h (e, f) q = same-Present e q
