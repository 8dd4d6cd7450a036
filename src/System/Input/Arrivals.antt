-- ===== src/System/Input/Arrivals.antt =====
-- `__console_receive` of src/console.c and the abstract machine: characters that arrive are handed out.
use kernel_riscv.Threads.{bit}
use kernel_riscv.Base.{
  ◌⊎◌, inl, inr, false, ℕ, zero, suc, ◌+◌, ◌-◌, ◌≤◌, ◌≡◌, ◌≢◌, refl, ◌∙◌, ap, sym, subst, List, [],
  ◌∷◌, ◌++◌, arith, length, eq→==, ne→==, lt→ltb,
}
use kernel_riscv.Links.Queue.{IsQueue}
use kernel_riscv.Kernel.{Console, Kernel, set_a0}
use kernel_riscv.Scheduler.{scheduler_push}
use kernel_riscv.ConsoleIo.{
  shift_from, Device, waiting_pop, hand_out, deliver, receive_loop, console_receive,
}
use kernel_riscv.ConsoleIo.Buffers.{chars, chars-shift_from, length-chars, received, unsent}
use kernel_riscv.ConsoleIo.Receiving.{Reads, receive_loop-Got}
use kernel_riscv.ConsoleIo.Sharing.{leftover, hand_one}
use kernel_riscv.System.{Place, ready, input, asleep, waits, head_of}
use kernel_riscv.System.Lines.{Lines-cong}
use kernel_riscv.System.Machine.{Machine, enqueue, dequeue, rest, hand_over, serve, arrive}
use kernel_riscv.System.Shows.{Shows, scheduler_push-Shows, set_a0-Shows}
use kernel_riscv.System.Shows.Waits.{waiting_pop-Shows}
use kernel_riscv.System.Keeps.{wake-Runner, Queues-with, Queues-output}
use kernel_riscv.System.Calls.{Follows}

-- What the loop that hands out characters leaves, from the character in entry `u` on.
record Handed (k : Kernel) (a : Machine) (cnt : ℕ) (ws cs : List ℕ) (r : ℕ × Kernel) : Type 0 where
  follows : Follows r.1 (serve ws cs a)
  used : r.0 + length (leftover ws cs) ≡ cnt
  left : chars k.console.receive_buffer r.0 (length (leftover ws cs)) ≡ leftover ws cs
  buffer : r.1.console.receive_buffer ≡ k.console.receive_buffer
  count : r.1.console.receive_cnt ≡ k.console.receive_cnt

-- One character for the first of the waiting threads.
hand_one-Follows :
    (x w : ℕ) (ws : List ℕ) {k : Kernel} {a : Machine}
    → Follows k a
    → a.lines input ≡ w ∷ ws
    → Follows (hand_one x k) (enqueue ready w (dequeue input a)) × (k.console.waiting_for_input ≢ 0)
unfolding waiting_pop
hand_one-Follows x w ws {k} {a} f e =
    let (first, popped, out, nz) = waiting_pop-Shows w ws f.shows e in
    let moved = wake-Runner input w ws f.shows f.machine.queues f.machine.runner tt (λ z. cc) e in
    (
      record {
        shows =
            subst
              (λ t.
                Shows (scheduler_push t (set_a0 t x (waiting_pop k).1))
                  (enqueue ready w (dequeue input a)))
              (sym first) (scheduler_push-Shows w (set_a0-Shows w x popped) nz out);
        machine = record {
          queues = moved.0;
          runner = moved.1;
          counts = f.machine.counts;
          bounded = f.machine.bounded;
        };
      },
      λ z. nz (sym first ∙ z),
    )

hand_one_console :
    (x : ℕ) (k : Kernel)
    → ((hand_one x k).console.receive_buffer ≡ k.console.receive_buffer)
      × ((hand_one x k).console.receive_cnt ≡ k.console.receive_cnt)
unfolding waiting_pop scheduler_push
hand_one_console x k = (refl, refl)

hand_out-Handed :
    (n u cnt : ℕ) (ws : List ℕ) {k : Kernel} {a : Machine}
    → Follows k a
    → a.lines input ≡ ws
    → n + u ≡ cnt
    → Handed k a cnt ws (chars k.console.receive_buffer u n) (hand_out n u cnt k)
unfolding hand_out
hand_out-Handed zero u cnt [] f e d = record {
  follows = f;
  used = omega (arith, d);
  left = refl;
  buffer = refl;
  count = refl;
}
hand_out-Handed zero u cnt (w ∷ ws) f e d = record {
  follows = f;
  used = omega (arith, d);
  left = refl;
  buffer = refl;
  count = refl;
}
hand_out-Handed (suc n) u cnt [] {k} {a} f e d =
    let cs = chars k.console.receive_buffer u (suc n) in
    let size : length cs ≡ suc n = length-chars k.console.receive_buffer u (suc n) in
    rw
      (eq→== k.console.waiting_for_input 0
        (subst (IsQueue k.links k.console.waiting_for_input) e (f.shows.lines.queue input tt)))
      (record {
        follows = f;
        used = omega (arith, d, size);
        left = ap (chars k.console.receive_buffer u) size;
        buffer = refl;
        count = refl;
      })
hand_out-Handed (suc n) u cnt (w ∷ ws) {k} {a} f e d =
    let x = k.console.receive_buffer u in
    let k2 = hand_one x k in
    let (f2, nz) = hand_one-Follows x w ws f e in
    let (buf, cnt_same) = hand_one_console x k in
    let h = hand_out-Handed n (suc u) cnt ws f2 (ap rest e) (omega (arith, d)) in
    let h2 : Handed k2 (enqueue ready w (dequeue input a)) cnt ws
        (chars k.console.receive_buffer (suc u) n) (hand_out n (suc u) cnt k2) =
      subst
        (λ g.
          Handed k2 (enqueue ready w (dequeue input a)) cnt ws (chars g (suc u) n)
            (hand_out n (suc u) cnt k2))
        buf h in
    rw (ne→== k.console.waiting_for_input 0 nz, lt→ltb u cnt (omega (arith, d)))
      (record {
        follows = h2.follows;
        used = h2.used;
        left =
            subst
              (λ g.
                chars g (hand_out n (suc u) cnt k2).0
                  (length (leftover ws (chars k.console.receive_buffer (suc u) n)))
                ≡ leftover ws (chars k.console.receive_buffer (suc u) n))
              buf h2.left;
        buffer = h2.buffer ∙ buf;
        count = h2.count ∙ cnt_same;
      })

length-leftover : (ws cs : List ℕ) → length (leftover ws cs) ≤ length cs
length-leftover [] cs = omega arith
length-leftover (w ∷ ws) [] = omega arith
length-leftover (w ∷ ws) (c ∷ cs) = omega (arith, length-leftover ws cs)

-- Other characters in the buffers of the console.
pub Follows-console :
    (con : Console) (cs out : List ℕ) {k : Kernel} {a : Machine}
    → Follows k a
    → con.waiting_for_input ≡ k.console.waiting_for_input
    → received con ≡ cs
    → length cs ≤ 1024
    → unsent con ≡ out
    → con.send_cnt ≤ 1024
    → Follows (record k { console = con }) (record a { buffer = cs; output = out })
Follows-console con cs out {k} {a} f same e n o m = record {
  shows = record {
    current = f.shows.current;
    main = f.shows.main;
    lines = Lines-cong heads (λ p. refl) f.shows.lines;
    value = f.shows.value;
    slices = f.shows.slices;
    buffer = e;
    output = o;
    unsent = m;
  };
  machine = record {
    queues = Queues-output out (Queues-with a.runs a.value cs f.machine.queues);
    runner = record {
      free = f.machine.runner.free;
      nonnull = f.machine.runner.nonnull;
      known = f.machine.runner.known;
    };
    counts = f.machine.counts;
    bounded = n;
  };
}
  where
    heads : (p : Place) → head_of (record k { console = con }) p ≡ head_of k p
    heads ready = refl
    heads input = same
    heads asleep = refl
    heads (waits s) = refl

-- The end of `__console_receive`, with all characters in the buffer.
deliver-Follows : {k : Kernel} {a : Machine} → Follows k a → Follows (deliver k) (hand_over a)
unfolding deliver
deliver-Follows {k} {a} f =
    let n = k.console.receive_cnt in
    let ws = a.lines input in
    let h = hand_out-Handed n 0 n ws f refl (omega arith) in
    let h2 : Handed k a n ws a.buffer (hand_out n 0 n k) =
      subst (λ cs. Handed k a n ws cs (hand_out n 0 n k)) f.shows.buffer h in
    let (m, k1) = hand_out n 0 n k in
    let rest : k1.console.receive_cnt - m ≡ length (leftover ws a.buffer) =
      omega (arith, h2.used, h2.count) in
    let start : m + 0 ≡ m = omega arith in
    let left = chars-shift_from (k1.console.receive_cnt - m) 0 m k1.console.receive_buffer in
    Follows-console
      (record (k1.console) {
        receive_cnt = k1.console.receive_cnt - m;
        receive_buffer = shift_from (k1.console.receive_cnt - m) 0 m k1.console.receive_buffer;
      })
      (leftover ws a.buffer) (hand_over a).output h2.follows refl
      (left ∙ rw (rest, start, h2.buffer) h2.left)
      (omega (arith, length-leftover ws a.buffer, f.machine.bounded)) h2.follows.shows.output
      h2.follows.shows.unsent

serve_output : (ws cs : List ℕ) (a : Machine) → (serve ws cs a).output ≡ a.output
serve_output [] cs a = refl
serve_output (w ∷ ws) [] a = refl
serve_output (w ∷ ws) (c ∷ cs) a = serve_output ws cs (enqueue ready w (dequeue input a))

-- What comes in does not change what is to be sent.
pub arrive_output : (cs : List ℕ) (a : Machine) → (arrive cs a).output ≡ a.output
arrive_output cs a =
    let b = record a { buffer = a.buffer ++ cs } in serve_output (b.lines input) b.buffer b

-- What a receive interrupt takes from the controller, and what it does to the machine.
pub record Arrived (dev : Device) (a : Machine) (d : dev.Dev) (r : Kernel × dev.Dev) : Type 0 where
  pub new : List ℕ
  pub before : dev.Dev
  pub reads : Reads dev new d before
  pub device : r.1 ≡ (dev.status before).1
  pub stops : (length (a.buffer ++ new) ≡ 1024) ⊎ (bit (dev.status before).0 0 ≡ false)
  pub follows : Follows r.0 (arrive new a)

pub console_receive-Arrived :
    (dev : Device) (d : dev.Dev) {k : Kernel} {a : Machine}
    → Follows k a
    → Arrived dev a d (console_receive dev k d)
unfolding console_receive
console_receive-Arrived dev d {k} {a} f =
    let c = k.console in
    let within : c.receive_cnt ≤ 1024 = omega (
      arith,
      f.machine.bounded,
      ap length f.shows.buffer,
      length-chars c.receive_buffer 0 c.receive_cnt,
    ) in
    let g = receive_loop-Got dev 1025 c d within (omega arith) in
    let con = (receive_loop dev 1025 c d).0 in
    let all : received con ≡ a.buffer ++ g.new = g.appended ∙ ap (λ l. l ++ g.new) f.shows.buffer in
    let room : length (a.buffer ++ g.new) ≤ 1024 =
      omega (arith, g.count, ap length all, length-chars con.receive_buffer 0 con.receive_cnt) in
    let sends : con.send_cnt ≤ 1024 = omega (
      arith,
      f.shows.unsent,
      ap length g.unsent_same,
      length-chars con.send_buffer 0 con.send_cnt,
      length-chars c.send_buffer 0 c.send_cnt,
    ) in
    record {
      new = g.new;
      before = g.before;
      reads = g.reads;
      device = g.device;
      stops = elim g.stops [
        | inl e ↦ inl (ap length (sym all) ∙ length-chars con.receive_buffer 0 con.receive_cnt ∙ e)
        | inr e ↦ inr e
      ];
      follows = deliver-Follows (
          Follows-console con (a.buffer ++ g.new) a.output f g.waiting_same all room
            (g.unsent_same ∙ f.shows.output) sends);
    }
