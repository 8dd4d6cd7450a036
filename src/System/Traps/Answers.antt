-- ===== src/System/Traps/Answers.antt =====
-- A tick of the timer, and the system calls that do not use the console controller, on a state that
-- shows a machine: src/main.c.
use kernel_riscv.Base.{
  ◌⊎◌, ℕ, ◌≡◌, ◌≢◌, refl, ap, subst, Bool, true, false, [], inl, inr, eq_cases, eq→==, ne→==, sub64,
  is_zero, if◌then◌else◌, least_i32, greatest_i32,
}
use kernel_riscv.Memory.{Layout, done}
use kernel_riscv.Kernel.{Context, Kernel}
use kernel_riscv.ConsoleIo.{getc}
use kernel_riscv.Links.Queue.{IsQueue}
use kernel_riscv.Semaphores.{sem_wait}
use kernel_riscv.System.Lines.{Lines-cong}
use kernel_riscv.Trap.{
  Syscall, sys_thread_dispatch, sys_sem_wait, sys_sem_signal, sys_getc, syscall, skip_ecall,
  timer_interrupt, dispatch, return_to,
}
use kernel_riscv.Trap.Slices.{ticked, left_of, timer_interrupt-keeps, timer_interrupt-ends}
use kernel_riscv.System.{Place, ready, input, asleep, waits, head_of}
use kernel_riscv.System.Machine.{Machine, turn, wait_at, signal_at, get_char}
use kernel_riscv.System.Shows.{Shows-frame}
use kernel_riscv.System.Calls.{Follows, dispatch-Follows, dispatch_spent-Follows}
use kernel_riscv.System.Calls.Waits.{sem_wait-Follows, sem_signal-Follows}
use kernel_riscv.System.Input.{getc-Follows}
use kernel_riscv.System.Traps.{entered}
use kernel_riscv.Trap.Entry.{save_context}

-- What touches neither the lists nor the semaphores, the console or the time slices.
pub Follows-frame :
    {k k' : Kernel} {a : Machine}
    → k'.links ≡ k.links
    → k'.scheduler ≡ k.scheduler
    → k'.console ≡ k.console
    → k'.sem_at ≡ k.sem_at
    → k'.thread_at ≡ k.thread_at
    → Follows k a
    → Follows k' a
Follows-frame l s c m t f = record {
  shows = Shows-frame l s c (λ z. ap (λ g. g z) m) (λ z. ap (λ g. (g z).time_left) t) f.shows;
  machine = f.machine;
}

ticked-Follows :
    {k : Kernel} {a : Machine} → Follows k a → sub64 (left_of k) 1 ≢ 0 → Follows (ticked k) a
unfolding left_of
ticked-Follows {k} {a} f n = record {
  shows = record {
    current = f.shows.current;
    main = f.shows.main;
    lines = Lines-cong heads (λ p. refl) f.shows.lines;
    value = f.shows.value;
    slices = λ u h. elim (eq_cases u k.scheduler.thread_current) [
      | inl e ↦ rw (eq→== u k.scheduler.thread_current e) n
      | inr m ↦ rw (ne→== u k.scheduler.thread_current m) (f.shows.slices u h)
    ];
    buffer = f.shows.buffer;
    output = f.shows.output;
    unsent = f.shows.unsent;
  };
  machine = f.machine;
}
  where
    heads : (p : Place) → head_of (ticked k) p ≡ head_of k p
    heads ready = refl
    heads input = refl
    heads asleep = refl
    heads (waits s) = refl

-- A tick with nobody asleep.
pub tick-Follows :
    (l : Layout) {k : Kernel} {a : Machine}
    → Follows k a
    → a.lines asleep ≡ []
    → (k' : Kernel) × (b : Machine) × (timer_interrupt l k ≡ done (tt, k'))
      × (((sub64 (left_of k) 1 ≢ 0) × (b ≡ a)) ⊎ ((sub64 (left_of k) 1 ≡ 0) × (b ≡ turn a)))
      × Follows k' b
tick-Follows l {k} {a} f e = elim (eq_cases (sub64 (left_of k) 1) 0) [
  | inl z ↦ (
    dispatch (ticked k),
    turn a,
    timer_interrupt-ends l k alone z,
    inr (z, refl),
    dispatch_spent-Follows _ f,
  )
  | inr n ↦ (ticked k, a, timer_interrupt-keeps l k alone n, inl (n, refl), ticked-Follows f n)
]
  where
    alone : k.scheduler.sleeping_threads ≡ 0
    alone = subst (IsQueue k.links k.scheduler.sleeping_threads) e (f.shows.lines.queue asleep tt)

abbrev pub stepped : Context → Kernel → Kernel
stepped c k = skip_ecall (entered c k)

pub stepped-Follows :
    (c : Context) {k : Kernel} {a : Machine} → Follows k a → Follows (stepped c k) a
unfolding save_context
stepped-Follows c f = Follows-frame refl refl refl refl refl f

maybe_return :
    (b : Bool) (p v : ℕ) {k : Kernel} {a : Machine}
    → Follows k a
    → Follows ((if b then return_to p v else (λ z. z)) k) a
maybe_return true p v f = Follows-frame refl refl refl refl refl f
maybe_return false p v f = f

-- What a call that is not `__putc` does.
abbrev pub Answers : Layout → (wrapper p : ℕ) → Context → Syscall → Kernel → Machine → Type 0
Answers l wrapper p c s k b =
    (k' : Kernel) × (syscall l wrapper p c s k ≡ done (tt, k')) × Follows k' b

module _ (l : Layout) (wrapper p : ℕ) (c : Context) {k : Kernel} {a : Machine}
    (f : Follows k a) where
  pub yields-Answers : Answers l wrapper p c sys_thread_dispatch k (turn a)
  unfolding syscall
  yields-Answers = (dispatch k, refl, dispatch-Follows f)

  pub waits_on-Answers :
      a.opened c.a1 ≡ true
      → a.value c.a1 ≢ least_i32
      → a.runs ≢ a.main
      → Answers l wrapper p c sys_sem_wait k (wait_at c.a1 a)
  unfolding syscall
  waits_on-Answers o m n =
      let r = sem_wait-Follows c.a1 f o m n in
      (
        (if is_zero (sem_wait c.a1 k).0 then return_to p 0 else (λ z. z)) (sem_wait c.a1 k).1,
        refl,
        maybe_return (is_zero (sem_wait c.a1 k).0) p 0 r.1,
      )

  pub signals-Answers :
      a.opened c.a1 ≡ true
      → a.value c.a1 ≢ greatest_i32
      → Answers l wrapper p c sys_sem_signal k (signal_at c.a1 a)
  unfolding syscall
  signals-Answers o m =
      let (k', call, f') = sem_signal-Follows l c.a1 f o m in
      (return_to p 0 k', rw call refl, Follows-frame refl refl refl refl refl f')

  pub reads-Answers : a.runs ≢ a.main → Answers l wrapper p c sys_getc k (get_char a)
  unfolding syscall
  reads-Answers n = ((getc k).1, refl, (getc-Follows f n).1)
