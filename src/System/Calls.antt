-- ===== src/System/Calls.antt =====
-- The kernel's switches on a state that shows a machine: each does what the machine's does.
pub mod Waits
use kernel_riscv.Base.{
  ℕ, ◌≡◌, ◌≢◌, refl, ◌∙◌, ap, sym, subst, Bool, true, false, List, [], ◌∷◌, inl, inr, ℤ, ◌+ℤ◌,
  arith, length, length-append, suc, pos, negsuc, is_neg, is_pos, eq_cases, eq→==, ne→==,
  Bool-cases,
}
use kernel_riscv.Memory.{Layout, done}
use kernel_riscv.Kernel.{Thread, set_thread, Kernel, put_self, set_a0}
use kernel_riscv.Scheduler.{scheduler_push}
use kernel_riscv.Threads.{switch_away}
use kernel_riscv.Trap.{dispatch}
use kernel_riscv.System.{ready, waits}
use kernel_riscv.System.Machine.{
  wake_from, Machine, enqueue, dequeue, switch, turn, rest, Known, Queues, Counts, IsMachine,
  Runner, wait_at, signal_at, add_value,
}
use kernel_riscv.System.Shows.{
  Shows-frame, Shows, scheduler_push-Shows, scheduler_next-Shows, yield-Shows, set_a0-Shows,
}
use kernel_riscv.System.Shows.Waits.{sem_push-Shows, sem_next-Shows, add_val-Shows}
use kernel_riscv.Semaphores.{sem_wait, sem_signal, sem_push, sem_next}
use kernel_riscv.Semaphores.Blocking.{debt, debt-down, passes-down}
use kernel_riscv.Semaphores.Waking.{debt-up, unblocked, sem_signal-unblocked, sem_signal-raises}
use kernel_riscv.System.Keeps.{
  wake-Runner, block-Runner, switch-Queues, switch-Runner, Outside-dequeue, Queues-with,
  enqueue-Queues,
}

pub record Follows (k : Kernel) (a : Machine) : Type 0 where
  pub shows : Shows k a
  pub machine : IsMachine a

dispatched-Follows :
    (k : Kernel) {a : Machine}
    → IsMachine a
    → Shows (scheduler_push k.scheduler.thread_current k) (enqueue ready a.runs a)
    → Follows (dispatch k) (turn a)
unfolding dispatch
dispatched-Follows k {a} m pushed =
    let queues = enqueue-Queues ready a.runs m.queues m.runner.known (λ n. absurd (n refl)) in
    record {
      shows = yield-Shows k.scheduler.thread_current _ (scheduler_next-Shows pushed).1;
      machine = record {
        queues = switch-Queues queues;
        runner = switch-Runner pushed queues;
        counts = m.counts;
        bounded = m.bounded;
      };
    }

pushed-Shows :
    {k : Kernel} {a : Machine}
    → Follows k a
    → Shows (scheduler_push k.scheduler.thread_current k) (enqueue ready a.runs a)
pushed-Shows {k} {a} f =
    subst (λ t. Shows (scheduler_push t k) (enqueue ready a.runs a)) (sym f.shows.current)
      (scheduler_push-Shows a.runs f.shows f.machine.runner.nonnull f.machine.runner.free)

pub dispatch-Follows : {k : Kernel} {a : Machine} → Follows k a → Follows (dispatch k) (turn a)
dispatch-Follows f = dispatched-Follows _ f.machine (pushed-Shows f)

-- Only the thread that is pushed may have used up its time slice.
pub dispatch_spent-Follows :
    (t : Thread) {k : Kernel} {a : Machine}
    → Follows k a
    → Follows (dispatch (set_thread k.scheduler.thread_current t k)) (turn a)
unfolding scheduler_push
dispatch_spent-Follows t {k} {a} f =
    let c = k.scheduler.thread_current in
    dispatched-Follows (set_thread c t k) f.machine (
      Shows-frame {k = scheduler_push c k} refl refl refl (λ s. refl)
        (λ u. elim (eq_cases u c) [ inl e ↦ rw (eq→== u c e) refl | inr n ↦ rw (ne→== u c n) refl ])
        (pushed-Shows f))

pub switch_away-Shows :
    {k : Kernel} {a : Machine}
    → Shows k a
    → ((switch_away k).0 ≡ a.runs) × Shows (switch_away k).1 (switch a)
unfolding switch_away
switch_away-Shows {k} w =
    (w.current, yield-Shows k.scheduler.thread_current _ (scheduler_next-Shows w).1)
