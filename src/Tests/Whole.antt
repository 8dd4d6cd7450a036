-- ===== src/Tests/Whole.antt =====
-- Traps in a row, at a concrete state.
use kernel_riscv.Base.{
  ℤ, negsuc, is_neg, false, least_i32, ℕ, ◌≢◌, ◌≡◌, refl, true, List, [], ◌∷◌, arith, pos, ◌==◌,
  eq→==, ne→==, eq_cases, Bool-cases, inl, inr, if◌then◌else◌,
}
use kernel_riscv.Kernel.{Context, Kernel}
use kernel_riscv.Links.Queue.{IsQueue, NotIn, Apart, Apart-nil}
use kernel_riscv.System.{head_of, Place, ready, input, asleep, waits}
use kernel_riscv.System.Machine.{Machine, IsMachine, Known}
use kernel_riscv.System.Calls.{Follows}
use kernel_riscv.System.Traps.{kernel_yields, waits_on, yields, Allowed, trap, Handled}
use kernel_riscv.System.Traps.Handler.{trap-Handled}
use kernel_riscv.System.Executions.{Plan, Executed, plan-Executed}
use kernel_riscv.System.Started.{initial, boot-Executed}
use kernel_riscv.Boot.{boot}
use kernel_riscv.Memory.{done}
use kernel_riscv.Tests.{layout}
use kernel_riscv.Tests.Starting.{roomy}
use kernel_riscv.Tests.Threading.{kernel, ring-IsQueue}
use kernel_riscv.Tests.ConsoleRuns.{device}

abbrev in_line : Place → List ℕ
in_line ready = 3 ∷ 4 ∷ 5 ∷ []
in_line _ = []

-- thread 8 runs, 3, 4 and 5 are ready, and semaphore 7 is open
abbrev machine : Machine
machine = record {
  runs = 8;
  main = 1;
  lines = in_line;
  value = λ _. pos 1;
  buffer = [];
  output = [];
  opened = λ s. s == 7;
  threads = λ _. true;
}

abbrev start : Kernel
start = kernel (pos 1) 0

start-queue : (p : Place) → IsQueue start.links (head_of start p) (in_line p)
start-queue ready = ring-IsQueue
start-queue input = refl
start-queue asleep = refl
start-queue (waits s) = refl

start-Apart : (p r : Place) → p ≢ r → Apart (in_line p) (in_line r)
start-Apart ready ready n = absurd (n refl)
start-Apart ready input n = Apart-nil (3 ∷ 4 ∷ 5 ∷ [])
start-Apart ready asleep n = Apart-nil (3 ∷ 4 ∷ 5 ∷ [])
start-Apart ready (waits s) n = Apart-nil (3 ∷ 4 ∷ 5 ∷ [])
start-Apart input r n = tt
start-Apart asleep r n = tt
start-Apart (waits s) r n = tt

-- a thread that is not ready, and whose number is not 0, is in no queue
absent : (t : ℕ) → t ≢ 3 → t ≢ 4 → t ≢ 5 → (p : Place) → NotIn t (in_line p)
absent t a b c ready = (a, (b, (c, tt)))
absent t a b c input = tt
absent t a b c asleep = tt
absent t a b c (waits s) = tt

start-Known : (p : Place) → Known (λ _. true) (in_line p)
start-Known ready = (refl, (refl, (refl, tt)))
start-Known input = tt
start-Known asleep = tt
start-Known (waits s) = tt

pub start-Follows : Follows start machine
start-Follows = record {
  shows = record {
    current = refl;
    main = refl;
    lines = record { queue = λ p live. start-queue p; apart = λ p r at at'. start-Apart p r };
    value = λ s o. refl;
    slices = λ t h. omega arith;
    buffer = refl;
    output = refl;
    unsent = omega arith;
  };
  machine = record {
    queues = record {
      main_nonnull = omega arith;
      main_known = refl;
      main_ready = λ p live n. absent 1 (omega arith) (omega arith) (omega arith) p;
      known = λ p live n. start-Known p;
    };
    runner = record {
      free = λ p live. absent 8 (omega arith) (omega arith) (omega arith) p;
      nonnull = omega arith;
      known = refl;
    };
    counts = λ s o. refl;
    bounded = omega arith;
  };
}

abbrev anything : Context
anything = record { sp = 0; gp = 0; tp = 0; a0 = 0; a1 = 0; a2 = 0; a3 = 0; a4 = 0 }

-- The kernel's own thread yields, and every other thread takes semaphore 7 unless others wait for it.
abbrev plan : Plan
plan i b =
    if b.runs == b.main
    then (kernel_yields, anything)
    else if b.opened 7
    then (if is_neg (b.value 7) then (yields, anything) else (waits_on 7, anything))
    else (yields, anything)

not_least : (v : ℤ) → is_neg v ≡ false → v ≢ least_i32
not_least (pos n) h e = cc
not_least (negsuc n) h e = cc

plan-Allowed : (i : ℕ) (b : Machine) → IsMachine b → Allowed b (plan i b).0
plan-Allowed i b m = elim (eq_cases b.runs b.main) [
  | inl e ↦ rw (eq→== b.runs b.main e) e
  | inr n ↦ elim (Bool-cases (b.opened 7)) [
    | inl o ↦ elim (Bool-cases (is_neg (b.value 7))) [
      | inl v ↦ rw (ne→== b.runs b.main n, o, v) n
      | inr v ↦ rw (ne→== b.runs b.main n, o, v) (o, not_least (b.value 7) v, n)
    ]
    | inr o ↦ rw (ne→== b.runs b.main n, o) n
  ]
]

plan-Executed_example :
    Executed device (λ d. (10, d)) (λ x d. d) layout 400 plan 6 start ([], []) machine
plan-Executed_example =
    plan-Executed device (λ d. (10, d)) (λ x d. d) layout 400 plan plan-Allowed 6 start ([], [])
      machine start-Follows

trap-Handled_example :
    Handled device
      (λ d. (10, d))
      (λ x d. d)
      start
      machine
      (waits_on 7)
      ([], [])
      (trap device (λ d. (10, d)) (λ x d. d) layout 400 (waits_on 7) anything start ([], []))
trap-Handled_example =
    trap-Handled device (λ d. (10, d)) (λ x d. d) layout 400 (waits_on 7) anything ([], []) start
      machine start-Follows (refl, not_least (pos 1) refl, omega arith)

boot-Executed_example :
    (k' : Kernel) × (boot roomy 400 500 (kernel (pos 1) 0) ≡ done ((0x8000_1bb8, 0x8000_2bc0), k'))
    × Executed device
        (λ d. (10, d))
        (λ x d. d)
        roomy
        400
        plan
        6
        k'
        ([], [])
        (initial 0x8000_0b40 0x8000_2bc0)
boot-Executed_example =
    boot-Executed device (λ d. (10, d)) (λ x d. d) roomy 400 plan 500 (kernel (pos 1) 0) 6 ([], [])
      plan-Allowed (omega arith) (omega arith) (omega arith) (omega arith)
