-- ===== src/System/Executions.antt =====
-- Any number of traps in a row, `irq_handler` of src/main.c each time: user programs that make the
-- calls of System/Traps.antt, with interrupts in between.
use kernel_riscv.Base.{ℕ, zero, suc, ◌≡◌}
use kernel_riscv.Memory.{Layout, done}
use kernel_riscv.Kernel.{Context, Kernel}
use kernel_riscv.ConsoleIo.{Device}
use kernel_riscv.System.Machine.{Machine, IsMachine}
use kernel_riscv.System.Calls.{Follows}
use kernel_riscv.System.Traps.{Event, Allowed, After, trap}
use kernel_riscv.System.Traps.Handler.{trap-Handled}
use kernel_riscv.System.Presence.{Present, After-Present}

-- What happens next, and with which registers: the programs and the hardware choose. They may know
-- all of the machine.
abbrev pub Plan : Type 0
Plan = ℕ → Machine → Event × Context

module _ (dev : Device) (plic_claim : dev.Dev → ℕ × dev.Dev) (plic_complete : ℕ → dev.Dev → dev.Dev)
    (l : Layout) (wrapper : ℕ) (plan : Plan) where
  open dev use {Dev}

  -- After `n` traps of the plan, each of which returned, the machine having changed as the events do.
  pub data Executes : (n : ℕ) → Kernel → Dev → Machine → Kernel → Dev → Machine → Type 0 where
    ends : {k : Kernel} {d : Dev} {a : Machine} → Executes zero k d a k d a
    traps :
        {n : ℕ} {k k1 k' : Kernel} {d d1 d' : Dev} {a b a' : Machine}
        → trap dev plic_claim plic_complete l wrapper (plan n a).0 (plan n a).1 k d ≡ done (k1, d1)
        → After dev plic_claim plic_complete (plan n a).0 k a b d d1
        → Executes n k1 d1 b k' d' a'
        → Executes (suc n) k d a k' d' a'

  pub record Executed (n : ℕ) (k : Kernel) (d : Dev) (a : Machine) : Type 0 where
    pub kernel : Kernel
    pub device : Dev
    pub machine : Machine
    pub executes : Executes n k d a kernel device machine
    pub follows : Follows kernel machine
    pub present : (u : ℕ) → Present a u → Present machine u

  -- From a state that shows a machine, with events of System/Traps.antt that the machine of the
  -- moment allows: every trap returns, with no panic and nothing that the model counts as undefined;
  -- each changes the machine and the controller as its event does, the last state shows the machine,
  -- and whoever ran, waited or was ready still does so.
  pub plan-Executed :
      ((i : ℕ) (b : Machine) → IsMachine b → Allowed b (plan i b).0)
      → (n : ℕ) (k : Kernel) (d : Dev) (a : Machine) → Follows k a
      → Executed n k d a
  plan-Executed allowed zero k d a f = record {
    kernel = k;
    device = d;
    machine = a;
    executes = ends;
    follows = f;
    present = λ u q. q;
  }
  plan-Executed allowed (suc n) k d a f =
      let (e, r) = plan n a in
      let h = allowed n a f.machine in
      let s = trap-Handled dev plic_claim plic_complete l wrapper e r d k a f h in
      let t = plan-Executed allowed n s.kernel s.device s.machine s.follows in
      record {
        kernel = t.kernel;
        device = t.device;
        machine = t.machine;
        executes = traps s.returns s.after t.executes;
        follows = t.follows;
        present = λ u q.
            t.present u
              (After-Present dev plic_claim plic_complete k a s.machine d s.device u e h s.after q);
      }
