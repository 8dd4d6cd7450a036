-- ===== src/System/Traps/Calls.antt =====
-- The system calls of a user thread, from its trap to the return, on a state that shows a machine.
use kernel_riscv.Base.{
  sub64, sym, subst, length, ◌++◌, [], ◌∷◌, least_i32, greatest_i32, ℕ, ◌≡◌, ◌≢◌, refl, ◌∙◌, ap,
  true, ◌⊎◌, inl, inr, ◌%◌, is_zero,
}
use kernel_riscv.Memory.{Layout, Run, done}
use kernel_riscv.Kernel.{Context, Kernel, put_self}
use kernel_riscv.ConsoleIo.{Device, putc}
use kernel_riscv.Trap.{
  retry_putc, user_call, with_dev, syscall_of, cause_of, sys_putc, Syscall, sys_thread_dispatch,
  sys_sem_wait, sys_sem_signal, sys_getc, syscall, putc_call, irq_handler, sys_unknown,
}
use kernel_riscv.ConsoleIo.Buffers.{unsent, length-chars}
use kernel_riscv.ConsoleIo.Putting.{putc-PutIn}
use kernel_riscv.Trap.Entry.{save_context}
use kernel_riscv.System.Machine.{Machine, turn, wait_at, signal_at, get_char}
use kernel_riscv.System.Calls.{Follows, dispatch_spent-Follows}
use kernel_riscv.System.Traps.{
  Event, yields, reads, waits_on, signals, writes, asks, scause_of, registers, After, entered, trap,
  Handled, Accepted, Deferred,
}
use kernel_riscv.System.Traps.Answers.{
  Follows-frame, stepped, stepped-Follows, Answers, yields-Answers, waits_on-Answers,
  signals-Answers, reads-Answers,
}
use kernel_riscv.System.Traps.Output.{putc-Follows}

module _ (dev : Device) (plic_claim : dev.Dev → ℕ × dev.Dev) (plic_complete : ℕ → dev.Dev → dev.Dev)
    (l : Layout) (wrapper : ℕ) where
  open dev use {Dev}

  -- `__putc` on behalf of the running thread.
  putc_call-Follows :
      (c : Context) (d : Dev) {k : Kernel} {a : Machine}
      → Follows k a
      → (b : Machine) × (Accepted dev plic_claim plic_complete
            (c.a1 % 256)
            a
            b
            d
            (putc_call dev plic_claim plic_complete c k d).1
          ⊎ Deferred dev plic_claim plic_complete a b d
              (putc_call dev plic_claim plic_complete c k d).1)
        × Follows (putc_call dev plic_claim plic_complete c k d).0 b
  unfolding putc_call retry_putc
  putc_call-Follows c d {k} {a} f =
      let x = c.a1 % 256 in
      let con = (putc dev x k.console d).1 in
      let f1 = putc-Follows dev d x f in
      elim (putc-PutIn dev x k.console d f.shows.unsent) [
        | inl (z, p) ↦ (
          record a { output = unsent con },
          rw (z, is_zero)
              (inl (record {
                sent = p.sent;
                left = unsent con;
                split = ap (λ o. o ++ (x ∷ [])) (sym f.shows.output) ∙ p.split;
                wire = p.wire;
                machine = refl;
              })),
          rw (z, is_zero) f1,
        )
        | inr (z, p) ↦ (
          turn a,
          rw (z, is_zero)
              (inr (record {
                full =
                    ap length (sym f.shows.output)
                    ∙ length-chars k.console.send_buffer 0 k.console.send_cnt
                    ∙ p.full;
                not_ready = p.not_ready;
                device = p.device;
                machine = refl;
              })),
          rw (z, is_zero)
              (dispatch_spent-Follows _ (
                Follows-frame refl refl refl refl refl (
                  subst (λ o. Follows (record k { console = con }) (record a { output = o }))
                    (p.same ∙ f.shows.output) f1))),
        )
      ]

  -- where the registers are, and what is there
  abbrev under : Context → ℕ
  under c = sub64 c.sp 0x100

  abbrev saved : Context → Context
  saved c = record c { sp = under c }

  -- What `user_call` does once the number of the call is known.
  abbrev answered : Context → Kernel → Dev → Syscall → Run (Kernel × Dev)
  answered c k d s = elim s [
    | sys_putc ↦ done (putc_call dev plic_claim plic_complete (saved c) (stepped c k) d)
    | s' ↦
        with_dev dev plic_claim plic_complete d
          (syscall l wrapper (under c) (saved c) s' (stepped c k))
  ]

  user_call-answered :
      (c : Context) (k : Kernel) (d : Dev)
      → user_call dev plic_claim plic_complete l wrapper (entered c k) d
        ≡ answered c k d (syscall_of c.a0)
  unfolding user_call save_context
  user_call-answered c k d =
      let p = under c in
      ap
        (λ x. elim (syscall_of x.a0) [
          | sys_putc ↦ done (putc_call dev plic_claim plic_complete x (stepped c k) d)
          | s' ↦ with_dev dev plic_claim plic_complete d (syscall l wrapper p x s' (stepped c k))
        ])
        (put_self k.context_at p (saved c))

  user_call-Follows :
      (c : Context) (s : Syscall) (k : Kernel) (d : Dev) (b : Machine)
      → syscall_of c.a0 ≡ s
      → answered c k d s
        ≡ with_dev dev plic_claim plic_complete d
            (syscall l wrapper (under c) (saved c) s (stepped c k))
      → Answers l wrapper (under c) (saved c) s (stepped c k) b
      → (k' : Kernel) × (user_call dev plic_claim plic_complete l wrapper (entered c k) d
          ≡ done (k', d))
        × Follows k' b
  user_call-Follows c s k d b e is (k', call, f) = (
    k',
    user_call-answered c k d
        ∙ ap (answered c k d) e
        ∙ is
        ∙ ap (with_dev dev plic_claim plic_complete d) call,
    f,
  )

  module _ (r : Context) (d : Dev) {k : Kernel} {a : Machine} (f : Follows k a) where
    call-Handled :
        (e : Event) (s : Syscall) (b : Machine)
        → irq_handler dev plic_claim plic_complete l wrapper
            (scause_of e)
            (entered (registers e r) k)
            d
          ≡ user_call dev plic_claim plic_complete l wrapper (entered (registers e r) k) d
        → syscall_of (registers e r).a0 ≡ s
        → answered (registers e r) k d s
          ≡ with_dev dev plic_claim plic_complete d (
              syscall l wrapper
                (under (registers e r))
                (saved (registers e r))
                s
                (stepped (registers e r) k))
        → Answers l wrapper
            (under (registers e r))
            (saved (registers e r))
            s
            (stepped (registers e r) k)
            b
        → After dev plic_claim plic_complete e k a b d d
        → Handled dev plic_claim plic_complete k a e d
            (trap dev plic_claim plic_complete l wrapper e r k d)
    call-Handled e s b goes code is answers after =
        let (k', returns, f') = user_call-Follows (registers e r) s k d b code is answers in
        record {
          kernel = k';
          device = d;
          machine = b;
          returns = goes ∙ returns;
          after = after;
          follows = f';
        }

    pub yields-Handled :
        Handled dev plic_claim plic_complete k a yields d
          (trap dev plic_claim plic_complete l wrapper yields r k d)
    unfolding irq_handler cause_of syscall_of
    yields-Handled =
        call-Handled yields sys_thread_dispatch (turn a) refl refl refl
          (yields-Answers l wrapper (under r) (saved (registers yields r))
            (stepped-Follows (registers yields r) f))
          (refl, refl)

    pub waits_on-Handled :
        (s : ℕ)
        → a.opened s ≡ true
        → a.value s ≢ least_i32
        → a.runs ≢ a.main
        → Handled dev plic_claim plic_complete k a
            (waits_on s)
            d
            (trap dev plic_claim plic_complete l wrapper (waits_on s) r k d)
    unfolding irq_handler cause_of syscall_of
    waits_on-Handled s o m n =
        let c = registers (waits_on s) r in
        call-Handled (waits_on s) sys_sem_wait (wait_at s a) refl refl refl
          (waits_on-Answers l wrapper (under c) (saved c) (stepped-Follows c f) o m n) (refl, refl)

    pub signals-Handled :
        (s : ℕ)
        → a.opened s ≡ true
        → a.value s ≢ greatest_i32
        → Handled dev plic_claim plic_complete k a
            (signals s)
            d
            (trap dev plic_claim plic_complete l wrapper (signals s) r k d)
    unfolding irq_handler cause_of syscall_of
    signals-Handled s o m =
        let c = registers (signals s) r in
        call-Handled (signals s) sys_sem_signal (signal_at s a) refl refl refl
          (signals-Answers l wrapper (under c) (saved c) (stepped-Follows c f) o m) (refl, refl)

    pub reads-Handled :
        a.runs ≢ a.main
        → Handled dev plic_claim plic_complete k a reads d
            (trap dev plic_claim plic_complete l wrapper reads r k d)
    unfolding irq_handler cause_of syscall_of
    reads-Handled n =
        let c = registers reads r in
        call-Handled reads sys_getc (get_char a) refl refl refl
          (reads-Answers l wrapper (under c) (saved c) (stepped-Follows c f) n) (refl, refl)

    pub writes-Handled :
        (x : ℕ)
        → Handled dev plic_claim plic_complete k a
            (writes x)
            d
            (trap dev plic_claim plic_complete l wrapper (writes x) r k d)
    unfolding irq_handler cause_of syscall_of
    writes-Handled x =
        let c = registers (writes x) r in
        let (b, after, f') = putc_call-Follows (saved c) d (stepped-Follows c f) in
        record {
          kernel = (putc_call dev plic_claim plic_complete (saved c) (stepped c k) d).0;
          device = (putc_call dev plic_claim plic_complete (saved c) (stepped c k) d).1;
          machine = b;
          returns = user_call-answered c k d;
          after = after;
          follows = f';
        }

    -- The caller's registers stay as they were.
    pub asks-Handled :
        (n : ℕ)
        → syscall_of n ≡ sys_unknown
        → Handled dev plic_claim plic_complete k a
            (asks n)
            d
            (trap dev plic_claim plic_complete l wrapper (asks n) r k d)
    unfolding irq_handler cause_of syscall
    asks-Handled n u =
        let c = registers (asks n) r in
        call-Handled (asks n) sys_unknown a refl u refl (stepped c k, refl, stepped-Follows c f)
          (refl, refl)
