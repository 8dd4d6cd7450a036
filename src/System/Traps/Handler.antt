-- ===== src/System/Traps/Handler.antt =====
-- `irq_handler` of src/main.c on a state that shows a machine: it returns, and does what the event
-- does to the machine.
use kernel_riscv.ConsoleIo.Sending.{Transmits, console_send-Sent}
use kernel_riscv.ConsoleIo.Buffers.{unsent}
use kernel_riscv.Trap.Slices.{left_of}
use kernel_riscv.Trap.Entry.{save_context}
use kernel_riscv.Base.{
  sub64, sym, subst, eq_cases, eq→==, ne→==, ℕ, ◌≡◌, refl, ◌∙◌, ap, [], inl, inr, ◌==◌,
  if◌then◌else◌,
}
use kernel_riscv.Memory.{Layout, done}
use kernel_riscv.Kernel.{Context, Kernel, put_self}
use kernel_riscv.ConsoleIo.{console_receive, Device, console_send}
use kernel_riscv.Trap.{
  kernel_call, kernel_dispatch, hw_interrupt, with_dev, cause_of, irq_handler, other_cause,
}
use kernel_riscv.System.{asleep}
use kernel_riscv.System.Machine.{Machine, switch, arrive}
use kernel_riscv.System.Shows.{yield-Shows, scheduler_next-Shows, Shows-frame}
use kernel_riscv.System.Keeps.{switch-Queues, switch-Runner}
use kernel_riscv.System.Calls.{Follows}
use kernel_riscv.System.Input.Arrivals.{arrive_output, console_receive-Arrived}
use kernel_riscv.System.Traps.{
  Event, ticks, receives, yields, reads, kernel_yields, waits_on, signals, writes, asks, strays,
  registers, Allowed, entered, trap, Handled,
}
use kernel_riscv.System.Traps.Answers.{Follows-frame, tick-Follows, stepped, stepped-Follows}
use kernel_riscv.System.Traps.Output.{send-Follows}
use kernel_riscv.System.Traps.Calls.{
  yields-Handled, waits_on-Handled, signals-Handled, reads-Handled, writes-Handled, asks-Handled,
}

kernel_dispatch-Follows :
    {k : Kernel} {a : Machine} → Follows k a → Follows (kernel_dispatch k) (switch a)
unfolding kernel_dispatch
kernel_dispatch-Follows {k} f = record {
  shows =
      Shows-frame refl refl refl (λ s. refl) (λ t. refl)
        (yield-Shows k.scheduler.thread_current _ (scheduler_next-Shows f.shows).1);
  machine = record {
    queues = switch-Queues f.machine.queues;
    runner = switch-Runner f.shows f.machine.queues;
    counts = f.machine.counts;
    bounded = f.machine.bounded;
  };
}

module _ (dev : Device) (plic_claim : dev.Dev → ℕ × dev.Dev) (plic_complete : ℕ → dev.Dev → dev.Dev)
    (l : Layout) (wrapper : ℕ) where
  open dev use {Dev}

  module _ (r : Context) (d : Dev) {k : Kernel} {a : Machine} (f : Follows k a) where
    strays-Handled :
        (n : ℕ)
        → cause_of n ≡ other_cause
        → Handled dev plic_claim plic_complete k a
            (strays n)
            d
            (trap dev plic_claim plic_complete l wrapper (strays n) r k d)
    unfolding irq_handler save_context
    strays-Handled n e = record {
      kernel = entered r k;
      device = d;
      machine = a;
      returns = rw (irq_handler, e) refl;
      after = (refl, refl);
      follows = Follows-frame refl refl refl refl refl f;
    }

    ticks-Handled :
        a.lines asleep ≡ []
        → Handled dev plic_claim plic_complete k a ticks d
            (trap dev plic_claim plic_complete l wrapper ticks r k d)
    unfolding irq_handler cause_of save_context left_of
    ticks-Handled e =
        let (k', b, call, after, f') =
          tick-Follows l {k = entered r k} (Follows-frame refl refl refl refl refl f) e in
        record {
          kernel = k';
          device = d;
          machine = b;
          returns = ap (with_dev dev plic_claim plic_complete d) call;
          after = (after, refl);
          follows = f';
        }

    kernel_call-dispatch :
        (c : Context)
        → c.a0 ≡ 0x91
        → kernel_call dev plic_claim plic_complete (entered c k) ≡ kernel_dispatch (stepped c k)
    unfolding kernel_call save_context
    kernel_call-dispatch c e =
        ap (λ x. if x == 0x91 then kernel_dispatch (stepped c k) else stepped c k)
          (ap (λ x. x.a0)
              (put_self k.context_at (sub64 c.sp 0x100) (record c { sp = sub64 c.sp 0x100 }))
            ∙ e)

    -- The kernel's own thread is not put in a queue.
    kernel_yields-Handled :
        a.runs ≡ a.main
        → Handled dev plic_claim plic_complete k a kernel_yields d
            (trap dev plic_claim plic_complete l wrapper kernel_yields r k d)
    unfolding irq_handler cause_of save_context
    kernel_yields-Handled e =
        let c = registers kernel_yields r in
        record {
          kernel = kernel_dispatch (stepped c k);
          device = d;
          machine = switch a;
          returns = ap (λ k'. done (k', d)) (kernel_call-dispatch c refl);
          after = (refl, refl);
          follows = kernel_dispatch-Follows (stepped-Follows c f);
        }

    receives-Handled :
        Handled dev plic_claim plic_complete k a receives d
          (trap dev plic_claim plic_complete l wrapper receives r k d)
    unfolding irq_handler cause_of hw_interrupt save_context
    receives-Handled =
        let k0 = entered r k in
        let f0 = Follows-frame {k' = k0} refl refl refl refl refl f in
        let (plic, d1) = plic_claim d in
        let g = console_receive-Arrived dev d1 f0 in
        let (k1, d2) = console_receive dev k0 d1 in
        let (con, d3) = console_send dev k1.console d2 in
        let sends = console_send-Sent dev k1.console d2 in
        elim (eq_cases plic 10) [
          | inl t ↦ record {
            kernel = record k1 { console = con };
            device = plic_complete 10 d3;
            machine = record (arrive g.new a) { output = unsent con };
            returns = rw (eq→== plic 10 t) refl;
            after = inl (
              t,
              record {
                new = g.new;
                read = g.before;
                reads = g.reads;
                full = g.stops;
                sent = sends.sent;
                left = unsent con;
                split = sym (arrive_output g.new a) ∙ sym g.follows.shows.output ∙ sends.split;
                written = sends.before;
                transmits =
                    subst (λ z. Transmits dev sends.sent z sends.before) g.device sends.transmitted;
                stops = sends.stops;
                device = ap (plic_complete 10) sends.device;
                machine = refl;
              },
            );
            follows = send-Follows dev d2 g.follows;
          }
          | inr n ↦ record {
            kernel = k0;
            device = plic_complete 10 d1;
            machine = a;
            returns = rw (ne→== plic 10 n) refl;
            after = inr (n, refl, refl);
            follows = f0;
          }
        ]

  -- From a state that shows a machine, every trap that the machine allows returns, and what it leaves
  -- shows the machine as the event makes it, with the controller written and read as the event says.
  pub trap-Handled :
      (e : Event) (r : Context) (d : Dev) (k : Kernel) (a : Machine)
      → Follows k a
      → Allowed a e
      → Handled dev plic_claim plic_complete k a e d
          (trap dev plic_claim plic_complete l wrapper e r k d)
  trap-Handled ticks r d k a f h = ticks-Handled r d f h
  trap-Handled receives r d k a f h = receives-Handled r d f
  trap-Handled yields r d k a f h = yields-Handled dev plic_claim plic_complete l wrapper r d f
  trap-Handled reads r d k a f h = reads-Handled dev plic_claim plic_complete l wrapper r d f h
  trap-Handled kernel_yields r d k a f h = kernel_yields-Handled r d f h
  trap-Handled (waits_on s) r d k a f h =
      waits_on-Handled dev plic_claim plic_complete l wrapper r d f s h.0 h.1 h.2
  trap-Handled (signals s) r d k a f h =
      signals-Handled dev plic_claim plic_complete l wrapper r d f s h.0 h.1
  trap-Handled (writes x) r d k a f h =
      writes-Handled dev plic_claim plic_complete l wrapper r d f x
  trap-Handled (asks n) r d k a f h =
      asks-Handled dev plic_claim plic_complete l wrapper r d f n h.0
  trap-Handled (strays n) r d k a f h = strays-Handled r d f n h
