-- ===== src/System/Input.antt =====
-- The console's input on a state that shows a machine: `__getc`.
pub mod Arrivals
use kernel_riscv.Base.{
  ℕ, zero, suc, ◌+◌, ◌-◌, ◌≤◌, ◌≡◌, ◌≢◌, refl, ◌∙◌, ap, sym, subst, List, [], ◌∷◌, ◌++◌, ℤ, arith,
  length, pos, negsuc, eq→==, ne→==, lt→ltb,
}
use kernel_riscv.Links.Queue.{IsQueue}
use kernel_riscv.Kernel.{Console, Kernel, set_a0}
use kernel_riscv.Threads.{switch_away}
use kernel_riscv.Scheduler.{scheduler_push}
use kernel_riscv.ConsoleIo.{
  shift_from, Device, getc, waiting_push, take_char, waiting_pop, hand_out, deliver, receive_loop,
  console_receive,
}
use kernel_riscv.ConsoleIo.Buffers.{chars, chars-shift_from, length-chars, received, chars-uncons}
use kernel_riscv.ConsoleIo.Receiving.{Reads, receive_loop-Got}
use kernel_riscv.ConsoleIo.Sharing.{leftover, hand_one}
use kernel_riscv.System.{Place, ready, input, asleep, waits, head_of}
use kernel_riscv.System.Lines.{Lines-cong}
use kernel_riscv.System.Machine.{
  Machine, enqueue, dequeue, switch, get_char, take_first, rest, hand_over, serve, arrive, Runner,
}
use kernel_riscv.System.Shows.{Shows, scheduler_push-Shows, set_a0-Shows}
use kernel_riscv.System.Shows.Waits.{waiting_push-Shows, waiting_pop-Shows}
use kernel_riscv.System.Keeps.{block-Runner, wake-Runner, Outside-dequeue, Queues-with}
use kernel_riscv.System.Calls.{Follows, switch_away-Shows}

pub with_buffer : (cs : List ℕ) {a : Machine} → Runner a → Runner (record a { buffer = cs })
with_buffer cs r = record { free = r.free; nonnull = r.nonnull; known = r.known }

take_char-Shows :
    (x : ℕ) (xs : List ℕ) {k : Kernel} {a : Machine}
    → Shows k a
    → a.buffer ≡ x ∷ xs
    → (getc k ≡ (pos 0, take_char k)) × Shows (take_char k) (record a { buffer = xs })
unfolding getc take_char
take_char-Shows x xs {k} {a} w e =
    let c = k.console in
    let (some_char, first, others) =
      chars-uncons c.receive_buffer 0 c.receive_cnt x xs (w.buffer ∙ e) in
    (
      rw (ne→== c.receive_cnt 0 some_char, getc) refl,
      record {
        current = w.current;
        main = w.main;
        lines = Lines-cong heads (λ p. refl) w.lines;
        value = w.value;
        slices = w.slices;
        buffer = chars-shift_from (c.receive_cnt - 1) 0 1 c.receive_buffer ∙ others;
        output = w.output;
        unsent = w.unsent;
      },
    )
  where
    heads : (p : Place) → head_of (take_char k) p ≡ head_of k p
    heads ready = refl
    heads input = refl
    heads asleep = refl
    heads (waits s) = refl

-- With no character there, the caller waits for input.
getc-waits :
    {k : Kernel} {a : Machine}
    → Follows k a
    → a.runs ≢ a.main
    → a.buffer ≡ []
    → ((getc k).0 ≡ negsuc 0) × Follows (getc k).1 (enqueue input a.runs (switch a))
unfolding getc
getc-waits {k} {a} f ne e =
    let c = k.console in
    let r = f.machine.runner in
    let empty : c.receive_cnt ≡ 0 =
      sym (length-chars c.receive_buffer 0 c.receive_cnt) ∙ ap length (f.shows.buffer ∙ e) in
    let (who, away) = switch_away-Shows f.shows in
    let blocked = block-Runner input f.shows f.machine.queues r ne in
    rw (eq→== c.receive_cnt 0 empty, getc)
      (
        refl,
        record {
          shows =
              subst
                (λ t. Shows (waiting_push t (switch_away k).1) (enqueue input a.runs (switch a)))
                (sym who)
                (waiting_push-Shows a.runs away r.nonnull (Outside-dequeue ready a.runs a r.free));
          machine = record {
            queues = blocked.0;
            runner = blocked.1;
            counts = f.machine.counts;
            bounded = f.machine.bounded;
          };
        },
      )

abbrev pub input_answer : List ℕ → ℤ
input_answer [] = negsuc 0
input_answer (x ∷ xs) = pos 0

pub getc-Follows :
    {k : Kernel} {a : Machine}
    → Follows k a
    → a.runs ≢ a.main
    → ((getc k).0 ≡ input_answer a.buffer) × Follows (getc k).1 (get_char a)
getc-Follows {k} {a} f ne = from a.buffer refl
  where
    from :
        (cs : List ℕ)
        → a.buffer ≡ cs
        → ((getc k).0 ≡ input_answer cs) × Follows (getc k).1 (take_first cs a)
    from [] e = getc-waits f ne e
    from (x ∷ xs) e =
        let (call, shows) = take_char-Shows x xs f.shows e in
        (
          ap (λ r. r.0) call,
          subst (λ r. Follows r.1 (record a { buffer = xs })) (sym call)
              (record {
                shows = shows;
                machine = record {
                  queues = Queues-with a.runs a.value xs f.machine.queues;
                  runner = with_buffer xs f.machine.runner;
                  counts = f.machine.counts;
                  bounded = omega (arith, f.machine.bounded, ap length e);
                };
              }),
        )
