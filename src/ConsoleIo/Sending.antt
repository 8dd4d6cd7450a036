-- ===== src/ConsoleIo/Sending.antt =====
-- `__console_send` of src/console.c: what reaches the controller, and in what order.
use kernel_riscv.Base.{
  ℕ, zero, suc, ◌+◌, ◌-◌, ◌≤◌, ◌≡◌, refl, ◌∙◌, ap, sym, true, false, List, [], ◌∷◌, ◌++◌, arith,
  lt→ltb, le→ltb, ◌⊎◌, inl, inr, subst, Bool-cases,
}
use kernel_riscv.Kernel.{Console}
use kernel_riscv.Threads.{bit}
use kernel_riscv.ConsoleIo.{Device, shift_from, send_loop, console_send}
use kernel_riscv.ConsoleIo.Buffers.{chars, chars-append, chars-shift_from, received, unsent}

module _ (dev : Device) where
  open dev use {Dev, status, read_rx, write_tx}

  -- The controller takes the characters one by one, each when its status says that it can.
  abbrev pub Transmits : List ℕ → Dev → Dev → Type 0
  Transmits [] d d' = d ≡ d'
  Transmits (x ∷ xs) d d' = (bit (status d).0 5 ≡ true) × Transmits xs (write_tx x (status d).1) d'

  Transmits-append :
      (xs ys : List ℕ) (d d1 d2 : Dev)
      → Transmits xs d d1
      → Transmits ys d1 d2
      → Transmits (xs ++ ys) d d2
  Transmits-append [] ys d d1 d2 p q = subst (λ z. Transmits ys z d2) (sym p) q
  Transmits-append (x ∷ xs) ys d d1 d2 (b, p) q =
      (b, Transmits-append xs ys (write_tx x (status d).1) d1 d2 p q)

  -- What the sending loop comes to with `n` characters from entry `i` on: `j` of them are sent.
  record Loop (f : ℕ → ℕ) (i n : ℕ) (d : Dev) (r : ℕ × Dev) : Type 0 where
    pub j : ℕ
    pub before : Dev
    pub bound : j ≤ n
    pub sent : Transmits (chars f i j) d before
    pub result : r ≡ (j + i, (status before).1)
    pub stops : (j ≡ n) ⊎ (bit (status before).0 5 ≡ false)

  send_loop-Loop :
      (n i : ℕ) (c : Console) (d : Dev)
      → n + i ≡ c.send_cnt
      → Loop c.send_buffer i n d (send_loop dev (suc n) i c d)
  unfolding send_loop
  send_loop-Loop zero i c d h = record {
    j = 0;
    before = d;
    bound = omega arith;
    sent = refl;
    result = rw (le→ltb i c.send_cnt (omega arith)) (ground arith);
    stops = inl refl;
  }
  send_loop-Loop (suc n) i c d h = elim (Bool-cases (bit (status d).0 5)) [
    | inl b ↦
        let r =
          send_loop-Loop n (suc i) c (write_tx (c.send_buffer i) (status d).1) (omega arith) in
        record {
          j = suc r.j;
          before = r.before;
          bound = omega (arith, r.bound);
          sent = (b, r.sent);
          result =
              rw (b, lt→ltb i c.send_cnt (omega arith))
                (r.result ∙ ap (λ x. (x, (status r.before).1)) (omega arith));
          stops = elim r.stops [ inl e ↦ inl (ap suc e) | inr e ↦ inr e ];
        }
    | inr b ↦ record {
      j = 0;
      before = d;
      bound = omega arith;
      sent = refl;
      result = rw b (ground arith);
      stops = inr b;
    }
  ]

  -- What `__console_send` leaves: `sent` went to the controller, and the rest is still there.
  pub record Sent (c : Console) (d : Dev) (r : Console × Dev) : Type 0 where
    pub sent : List ℕ
    pub before : Dev
    pub split : unsent c ≡ sent ++ unsent r.0
    pub transmitted : Transmits sent d before
    pub device : r.1 ≡ (status before).1
    pub stops : (unsent r.0 ≡ []) ⊎ (bit (status before).0 5 ≡ false)
    pub count : r.0.send_cnt ≤ c.send_cnt
    pub received_same : received r.0 ≡ received c

  -- `__console_send` gives the controller the first characters of the buffer, in order, each while
  -- its status allows it, and keeps the others in order; it stops only when the buffer is empty or
  -- the controller is not ready.
  pub console_send-Sent : (c : Console) (d : Dev) → Sent c d (console_send dev c d)
  unfolding console_send
  console_send-Sent c d =
      rw (result, console_send)
        (record {
          sent = chars c.send_buffer 0 r.j;
          before = r.before;
          split =
              ap (chars c.send_buffer 0) total
              ∙ chars-append c.send_buffer 0 r.j (c.send_cnt - r.j)
              ∙ ap (λ l. chars c.send_buffer 0 r.j ++ l) (sym (left (c.send_cnt - r.j)));
          transmitted = r.sent;
          device = refl;
          stops = elim r.stops [
            | inl e ↦
                inl (ap (chars (shift_from (c.send_cnt - r.j) 0 r.j c.send_buffer) 0) (drained e))
            | inr e ↦ inr e
          ];
          count = omega arith;
          received_same = refl;
        })
    where
      r : Loop c.send_buffer 0 c.send_cnt d (send_loop dev (suc c.send_cnt) 0 c d)
      r = send_loop-Loop c.send_cnt 0 c d (omega arith)

      result : send_loop dev (suc c.send_cnt) 0 c d ≡ (r.j, (status r.before).1)
      result = r.result ∙ ap (λ x. (x, (status r.before).1)) (omega arith)

      total : c.send_cnt ≡ r.j + (c.send_cnt - r.j)
      total = omega (arith, r.bound)

      left :
          (n : ℕ) → chars (shift_from n 0 r.j c.send_buffer) 0 n ≡ chars c.send_buffer (r.j + 0) n
      left n = chars-shift_from n 0 r.j c.send_buffer

      drained : r.j ≡ c.send_cnt → c.send_cnt - r.j ≡ 0
      drained e = omega arith
