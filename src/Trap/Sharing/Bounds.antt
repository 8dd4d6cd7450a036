-- ===== src/Trap/Sharing/Bounds.antt =====
-- What a semaphore promises: how many waits it lets through.
use kernel_riscv.Base.{
  ℕ, zero, suc, ◌+◌, ◌≤◌, ◌<◌, ◌≡◌, refl, ◌∙◌, ap, sym, List, [], ◌∷◌, ℤ, pos, negsuc, ◌+ℤ◌, arith,
  length,
}
use kernel_riscv.Memory.{Layout, done}
use kernel_riscv.Kernel.{Kernel}
use kernel_riscv.Semaphores.Blocking.{debt}
use kernel_riscv.Trap.Sharing.{
  Event, waits, signals, turn, acts, View, view, Step, pass, block, raise, wake, last, rotate,
  Steps, here, next, Shows, waits_of, signals_of,
}
use kernel_riscv.Trap.Sharing.Simulation.{acts-Shows}

-- how many waits a value still lets through at once
abbrev pub units : ℤ → ℕ
units (pos n) = n
units (negsuc n) = 0

units-down : (v : ℤ) → units (v +ℤ negsuc 0) + debt v + 1 ≡ units v + debt (v +ℤ negsuc 0)
units-down (pos zero) = refl
units-down (pos (suc n)) = ground arith
units-down (negsuc n) = ground arith

units-up : (v : ℤ) → units (v +ℤ pos 1) + debt v ≡ units v + debt (v +ℤ pos 1) + 1
units-up (pos n) = ground arith
units-up (negsuc zero) = refl
units-up (negsuc (suc n)) = ground arith

-- The value is what it was, less the waits, and more by the signals.
abbrev Balance : View → (w s : ℕ) → View → Type 0
Balance a w s b = units b.value + debt a.value + w ≡ units a.value + debt b.value + s

Step-Balance :
    {a b : View} {e : Event} → Step a e b → Balance a (waits_of (e ∷ [])) (signals_of (e ∷ [])) b
Step-Balance (pass v c xs h) = omega (arith, units-down v)
Step-Balance (block v c x xs ws h few) = omega (arith, units-down v)
Step-Balance (raise v c xs m) = omega (arith, units-up v)
Step-Balance (wake v c w xs ws) = omega (arith, units-up v)
Step-Balance (last v c ws) = omega arith
Step-Balance (rotate v c x xs ws) = omega arith

more_waits : (e : Event) (es : List Event) → waits_of (e ∷ es) ≡ waits_of (e ∷ []) + waits_of es
more_waits waits es = omega arith
more_waits signals es = omega arith
more_waits turn es = omega arith

more_signals :
    (e : Event) (es : List Event) → signals_of (e ∷ es) ≡ signals_of (e ∷ []) + signals_of es
more_signals waits es = omega arith
more_signals signals es = omega arith
more_signals turn es = omega arith

Steps-Balance :
    {a b : View} {es : List Event} → Steps a es b → Balance a (waits_of es) (signals_of es) b
Steps-Balance here = omega arith
Steps-Balance (next {a} {b} {c} {e} {es} h t) =
    omega (arith, Step-Balance h, Steps-Balance t, more_waits e es, more_signals e es)

owes : (v : ℤ) → 0 < debt v → units v ≡ 0
owes (pos n) h = absurd (omega arith)
owes (negsuc n) h = refl

-- A semaphore with the value `n` on which nobody waits, in a state without timeouts: after any
-- sequence of events that the view allows, in which the value stays within an i32, the waits that were let through, all but those of the
-- threads that still wait, are at most `n` more than the signals; and if a thread still waits they
-- are exactly as many.
pub acts-bounded :
    (l : Layout) (s n c : ℕ) (xs : List ℕ) {b : View} {es : List Event}
    → Steps (view (pos n) c xs []) es b
    → (k : Kernel) → Shows s k (view (pos n) c xs [])
    → (k' : Kernel) × (acts l s es k ≡ done (tt, k'))
      × Shows s k' b
      × (waits_of es ≤ n + signals_of es + length b.waiting)
      × (0 < length b.waiting → waits_of es ≡ n + signals_of es + length b.waiting)
acts-bounded l s n c xs {b} {es} t k w =
    let (k', r, u, p) = acts-Shows l s t k w in
    let total = Steps-Balance t in
    let owed : debt b.value ≡ length b.waiting = ap debt (sym u.value) ∙ u.waiting.count in
    (
      k',
      r,
      u,
      omega (arith, total, owed),
      λ h. omega (arith, total, owed, owes b.value (omega (arith, owed, h))),
    )
