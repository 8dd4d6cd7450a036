-- ===== src/ConsoleIo/Receiving.antt =====
-- `__console_receive` of src/console.c: what comes in, and who gets it.
use kernel_riscv.Base.{
  ℕ, zero, suc, ◌+◌, ◌<◌, ◌≤◌, ◌≡◌, refl, ◌∙◌, ap, sym, true, false, List, [], ◌∷◌, ◌++◌, arith,
  lt→ltb, le→ltb, ◌⊎◌, inl, inr, Bool-cases, lt_cases,
}
use mathlib.Core.List.{append_assoc, append-nil}
use kernel_riscv.Kernel.{Console, put}
use kernel_riscv.Threads.{bit}
use kernel_riscv.ConsoleIo.{Device, receive_loop}
use kernel_riscv.ConsoleIo.Buffers.{chars-put, received, unsent}

module _ (dev : Device) where
  open dev use {Dev, status, read_rx, write_tx}

  -- The characters that the controller gives, each when its status says that it has one.
  abbrev pub Reads : List ℕ → Dev → Dev → Type 0
  Reads [] d d' = d ≡ d'
  Reads (x ∷ xs) d d' =
      (bit (status d).0 0 ≡ true)
      × ((read_rx (status d).1).0 ≡ x)
      × Reads xs (read_rx (status d).1).1 d'

  -- What the receiving loop leaves.
  pub record Got (c : Console) (d : Dev) (r : Console × Dev) : Type 0 where
    pub new : List ℕ
    pub before : Dev
    pub appended : received r.0 ≡ received c ++ new
    pub reads : Reads new d before
    pub device : r.1 ≡ (status before).1
    pub count : r.0.receive_cnt ≤ 1024
    pub stops : (r.0.receive_cnt ≡ 1024) ⊎ (bit (status before).0 0 ≡ false)
    pub unsent_same : unsent r.0 ≡ unsent c
    pub waiting_same : r.0.waiting_for_input ≡ c.waiting_for_input

  nothing :
      (c : Console) (d : Dev)
      → c.receive_cnt ≤ 1024
      → (c.receive_cnt ≡ 1024) ⊎ (bit (status d).0 0 ≡ false)
      → Got c d (c, (status d).1)
  nothing c d h e = record {
    new = [];
    before = d;
    appended = sym (append-nil (received c));
    reads = refl;
    device = refl;
    count = h;
    stops = e;
    unsent_same = refl;
    waiting_same = refl;
  }

  abbrev append_received : ℕ → Console → Console
  append_received x c = record c {
    receive_buffer = put c.receive_buffer c.receive_cnt x;
    receive_cnt = c.receive_cnt + 1;
  }

  one_more :
      (c : Console) (d : Dev) (r : Console × Dev)
      → bit (status d).0 0 ≡ true
      → Got (append_received (read_rx (status d).1).0 c) (read_rx (status d).1).1 r
      → Got c d r
  one_more c d r b g =
      let x = (read_rx (status d).1).0 in
      record {
        new = x ∷ g.new;
        before = g.before;
        appended =
            g.appended
            ∙ ap (λ l. l ++ g.new) (chars-put c.receive_buffer c.receive_cnt x)
            ∙ append_assoc (received c) (x ∷ []) g.new;
        reads = (b, refl, g.reads);
        device = g.device;
        count = g.count;
        stops = g.stops;
        unsent_same = g.unsent_same;
        waiting_same = g.waiting_same;
      }

  -- With enough rounds of fuel, and `console_receive` has enough, the loop appends the characters
  -- that the controller gives, in order, until it gives none or the buffer holds 1024.
  pub receive_loop-Got :
      (fuel : ℕ) (c : Console) (d : Dev)
      → c.receive_cnt ≤ 1024
      → 1024 < fuel + c.receive_cnt
      → Got c d (receive_loop dev fuel c d)
  unfolding receive_loop
  receive_loop-Got zero c d h f = absurd (omega arith)
  receive_loop-Got (suc fuel) c d h f = elim (Bool-cases (bit (status d).0 0)) [
    | inr b ↦ rw b (nothing c d h (inr b))
    | inl b ↦ elim (lt_cases c.receive_cnt 1024) [
      | inr q ↦ rw (b, le→ltb c.receive_cnt 1024 q) (nothing c d h (inl (omega arith)))
      | inl q ↦
          let (x, d2) = read_rx (status d).1 in
          rw (b, lt→ltb c.receive_cnt 1024 q)
            (one_more c d (receive_loop dev fuel (append_received x c) d2) b
              (receive_loop-Got fuel (append_received x c) d2 (omega arith) (omega arith)))
    ]
  ]
