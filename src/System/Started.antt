-- ===== src/System/Started.antt =====
-- From power-on: `main` of src/main.c, and then any number of traps, `irq_handler` each time.
use kernel_riscv.Base.{
  ℕ, ◌+◌, ◌^◌, ◌≤◌, ◌<◌, ◌≡◌, ◌≢◌, refl, ap, true, false, List, [], ◌∷◌, ◌==◌, eq→==, ne→==, sym,
  pos, eq_cases, inl, inr, if◌then◌else◌, arith,
}
use kernel_riscv.Memory.{Layout, done}
use kernel_riscv.Memory.Segments.{Seg}
use kernel_riscv.Memory.Init.{blocks, index_blocks}
use kernel_riscv.Kernel.{Kernel}
use kernel_riscv.Links.Queue.{IsQueue, NotIn, Apart, Apart-nil}
use kernel_riscv.ConsoleIo.{Device}
use kernel_riscv.ConsoleIo.Buffers.{chars}
use kernel_riscv.Boot.{boot}
use kernel_riscv.Boot.Booted.{Booted, block, boot-Booted}
use kernel_riscv.System.{Place, ready, input, asleep, waits, head_of, Live}
use kernel_riscv.System.Machine.{Machine, IsMachine, Known}
use kernel_riscv.System.Calls.{Follows}
use kernel_riscv.System.Traps.{Allowed}
use kernel_riscv.System.Executions.{Plan, Executed, plan-Executed}

abbrev pub first_line : ℕ → Place → List ℕ
first_line t ready = t ∷ []
first_line t _ = []

-- The kernel's own thread runs, the thread `t` is ready, and there is no semaphore and no input.
abbrev pub initial : (main t : ℕ) → Machine
initial main t = record {
  runs = main;
  main = main;
  lines = first_line t;
  value = λ s. pos 0;
  buffer = [];
  output = [];
  opened = λ s. false;
  threads = λ u. if u == main then true else u == t;
}

module _ {k : Kernel} {wrapper user_main main t stack : ℕ} {ss : List Seg}
    (b : Booted k wrapper user_main main t stack ss) where
  first-queue : (p : Place) → Live (λ s. false) p → IsQueue k.links (head_of k p) (first_line t p)
  first-queue ready live = b.ready
  first-queue input live = b.console.2
  first-queue asleep live = b.asleep
  first-queue (waits s) live = cc

  first-Apart : (p r : Place) → p ≢ r → Apart (first_line t p) (first_line t r)
  first-Apart ready ready n = absurd (n refl)
  first-Apart ready input n = Apart-nil (t ∷ [])
  first-Apart ready asleep n = Apart-nil (t ∷ [])
  first-Apart ready (waits s) n = Apart-nil (t ∷ [])
  first-Apart input r n = tt
  first-Apart asleep r n = tt
  first-Apart (waits s) r n = tt

  first-slices : (u : ℕ) → (initial main t).threads u ≡ true → (k.thread_at u).time_left ≢ 0
  first-slices u h = elim (eq_cases u main) [
    | inl e ↦ rw (e, b.slices.0) (omega arith)
    | inr n ↦ elim (eq_cases u t) [
      | inl e ↦ rw (e, b.slices.1) (omega arith)
      | inr o ↦ cc (rw (ne→== u main n, ne→== u t o) at h)
    ]
  ]

  -- What `main` leaves shows the initial machine.
  initial-Follows : main ≢ 0 → main ≢ t → Follows k (initial main t)
  initial-Follows nz apart = record {
    shows = record {
      current = b.current.0;
      main = b.current.1;
      lines = record { queue = first-queue; apart = λ p r at at'. first-Apart p r };
      value = λ s o. cc;
      slices = first-slices;
      buffer = ap (chars k.console.receive_buffer 0) b.console.0;
      output = ap (chars k.console.send_buffer 0) b.console.1;
      unsent = omega (arith, b.console.1);
    };
    machine = record {
      queues = record {
        main_nonnull = nz;
        main_known = rw (eq→== main main refl) refl;
        main_ready = main_waits;
        known = λ p live n. first_known p;
      };
      runner = record {
        free = λ p live. main_outside p;
        nonnull = nz;
        known = rw (eq→== main main refl) refl;
      };
      counts = λ s o. cc;
      bounded = omega arith;
    };
  }
    where
      main_outside : (p : Place) → NotIn main (first_line t p)
      main_outside ready = (apart, tt)
      main_outside input = tt
      main_outside asleep = tt
      main_outside (waits s) = tt

      main_waits : (p : Place) → Live (λ s. false) p → p ≢ ready → NotIn main (first_line t p)
      main_waits p live n = main_outside p

      first_known : (p : Place) → Known (initial main t).threads (first_line t p)
      first_known ready = (rw (ne→== t main (λ e. apart (sym e)), eq→== t t refl) refl, tt)
      first_known input = tt
      first_known asleep = tt
      first_known (waits s) = tt

module _ (dev : Device) (plic_claim : dev.Dev → ℕ × dev.Dev) (plic_complete : ℕ → dev.Dev → dev.Dev)
    (l : Layout) (wrapper : ℕ) where
  -- On a heap with room for what `main` allocates and one block more, fewer than 2^31 blocks, below
  -- 2^64, whatever the memory held, and with events of System/Traps.antt that the machine of the
  -- moment allows: `main` comes to its first `ecall`, and from there every trap returns, with no panic
  -- and nothing that the model counts as undefined; each changes the machine and the controller as
  -- its event does, and the first user thread still runs, waits or is ready.
  pub boot-Executed :
      (plan : Plan) (user_main : ℕ) (k : Kernel) (n : ℕ) (d : dev.Dev)
      → ((i : ℕ) (b : Machine) → IsMachine b → Allowed b (plan i b).0)
      → l.heap_start ≤ l.heap_end
      → l.heap_end < 2 ^ 64
      → index_blocks l + 163 < blocks l
      → blocks l < 2 ^ 31
      → (k' : Kernel) × (boot l wrapper user_main k
          ≡ done ((block l (index_blocks l + 34) + 4088, block l (index_blocks l + 162)), k'))
        × Executed dev plic_claim plic_complete l wrapper plan n k' d
            (initial (block l (index_blocks l + 32)) (block l (index_blocks l + 162)))
  boot-Executed plan user_main k n d allowed ordered address enough small =
      let (k', run, b) = boot-Booted l wrapper user_main k ordered address enough small in
      (
        k',
        run,
        plan-Executed dev plic_claim plic_complete l wrapper plan allowed n k' d (initial _ _)
            (initial-Follows b (omega arith) (omega arith)),
      )
