-- ===== src/ConsoleIo/Putting.antt =====
-- `__putc` of src/console.c: what reaches the controller, and in what order.
use kernel_riscv.Base.{
  ℕ, ◌<◌, ◌≤◌, ◌≡◌, refl, ◌∙◌, ap, sym, true, false, List, [], ◌∷◌, ◌++◌, arith, pos, negsuc, eq→==,
  ne→==, ◌⊎◌, inl, inr, subst, eq_cases, length, length-append,
}
use mathlib.Core.List.{append_assoc}
use kernel_riscv.Kernel.{Console}
use kernel_riscv.Threads.{bit}
use kernel_riscv.ConsoleIo.{Device, console_send, putc, append_char}
use kernel_riscv.ConsoleIo.Buffers.{length-chars, chars-put, received, unsent}
use kernel_riscv.ConsoleIo.Sending.{Transmits, Sent, console_send-Sent}

module _ (dev : Device) where
  open dev use {Dev, status, write_tx}

  -- The characters that the controller takes, with its status read any number of times in between.
  pub data Wire : List ℕ → Dev → Dev → Type 0 where
    quiet : {d : Dev} → Wire [] d d
    idle : {xs : List ℕ} {d d' : Dev} → Wire xs (status d).1 d' → Wire xs d d'
    write :
        {x : ℕ} {xs : List ℕ} {d d' : Dev}
        → bit (status d).0 5 ≡ true
        → Wire xs (write_tx x (status d).1) d'
        → Wire (x ∷ xs) d d'

  pub Wire-append :
      {xs ys : List ℕ} {d d1 d2 : Dev} → Wire xs d d1 → Wire ys d1 d2 → Wire (xs ++ ys) d d2
  Wire-append quiet q = q
  Wire-append (idle p) q = idle (Wire-append p q)
  Wire-append (write b p) q = write b (Wire-append p q)

  pub Transmits-Wire : (xs : List ℕ) (d b : Dev) → Transmits dev xs d b → Wire xs d (status b).1
  Transmits-Wire [] d b e = subst (λ z. Wire [] d (status z).1) e (idle quiet)
  Transmits-Wire (x ∷ xs) d b (r, t) = write r (Transmits-Wire xs (write_tx x (status d).1) b t)

  append_char-unsent : (x : ℕ) (c : Console) → unsent (append_char x c) ≡ unsent c ++ (x ∷ [])
  unfolding append_char
  append_char-unsent x c = chars-put c.send_buffer c.send_cnt x

  -- What `__putc` leaves.
  pub record PutIn (x : ℕ) (c c' : Console) (d d' : Dev) : Type 0 where
    pub sent : List ℕ
    pub split : unsent c ++ (x ∷ []) ≡ sent ++ unsent c'
    pub wire : Wire sent d d'
    pub count : c'.send_cnt ≤ 1024
    pub received_same : received c' ≡ received c

  -- A character is refused by a full buffer and a controller that is not ready.
  pub record Refused (c c' : Console) (d d' : Dev) : Type 0 where
    pub full : c.send_cnt ≡ 1024
    pub not_ready : bit (status d).0 5 ≡ false
    pub same : unsent c' ≡ unsent c
    pub device : d' ≡ (status d).1

  -- The end of `__putc`: send, then append.
  send_and_append :
      (x : ℕ) (c : Console) (d : Dev)
      → c.send_cnt < 1024
      → PutIn x c (append_char x (console_send dev c d).0) d (console_send dev c d).1
  unfolding append_char
  send_and_append x c d h =
      let s = console_send-Sent dev c d in
      record {
        sent = s.sent;
        split =
            ap (λ l. l ++ (x ∷ [])) s.split
            ∙ append_assoc s.sent (unsent (console_send dev c d).0) (x ∷ [])
            ∙ ap (λ l. s.sent ++ l) (sym (append_char-unsent x (console_send dev c d).0));
        wire =
            subst (Wire s.sent d) (sym s.device) (Transmits-Wire s.sent d s.before s.transmitted);
        count = omega (arith, s.count);
        received_same = s.received_same;
      }

  then_PutIn :
      (x : ℕ) (c c' : Console) (d d' : Dev) (r : Console × Dev)
      → Sent dev c d r
      → PutIn x r.0 c' r.1 d'
      → PutIn x c c' d d'
  then_PutIn x c c' d d' r s t = record {
    sent = s.sent ++ t.sent;
    split =
        ap (λ l. l ++ (x ∷ [])) s.split
        ∙ append_assoc s.sent (unsent r.0) (x ∷ [])
        ∙ ap (λ l. s.sent ++ l) t.split
        ∙ sym (append_assoc s.sent t.sent (unsent c'));
    wire =
        Wire-append
          (subst (Wire s.sent d) (sym s.device) (Transmits-Wire s.sent d s.before s.transmitted))
          t.wire;
    count = t.count;
    received_same = t.received_same ∙ s.received_same;
  }

  none_sent :
      (sent : List ℕ) (d before : Dev)
      → length sent ≡ 0
      → Transmits dev sent d before
      → (sent ≡ []) × (d ≡ before)
  none_sent [] d before e t = (refl, t)
  none_sent (x ∷ xs) d before e t = absurd (omega arith)

  refused :
      (c : Console) (d : Dev)
      → c.send_cnt ≡ 1024
      → (console_send dev c d).0.send_cnt ≡ 1024
      → Refused c (console_send dev c d).0 d (console_send dev c d).1
  refused c d e e1 = record {
    full = e;
    not_ready = elim s.stops [
      | inl z ↦ absurd (omega (arith, left, ap length z))
      | inr b ↦ subst (λ z. bit (status z).0 5 ≡ false) (sym none.1) b
    ];
    same = sym (s.split ∙ ap (λ l. l ++ unsent (console_send dev c d).0) none.0);
    device = s.device ∙ ap (λ z. (status z).1) (sym none.1);
  }
    where
      s : Sent dev c d (console_send dev c d)
      s = console_send-Sent dev c d

      left : length (unsent (console_send dev c d).0) ≡ 1024
      left =
          length-chars (console_send dev c d).0.send_buffer 0 (console_send dev c d).0.send_cnt ∙ e1

      none : (s.sent ≡ []) × (d ≡ s.before)
      none =
          none_sent s.sent d s.before
            (omega (
              arith,
              left,
              length-chars c.send_buffer 0 c.send_cnt,
              e,
              ap length s.split ∙ length-append s.sent (unsent (console_send dev c d).0),
            ))
            s.transmitted

  -- On a buffer of at most 1024 characters, `__putc` either returns 0, and then the buffer's
  -- characters and the new one are those that the controller took, in order, followed by those in
  -- the buffer, which is within its bound; or it returns that the buffer is full, and then it was,
  -- the controller was not ready, and nothing changed but that its status was read.
  pub putc-PutIn :
      (x : ℕ) (c : Console) (d : Dev)
      → c.send_cnt ≤ 1024
      → (((putc dev x c d).0 ≡ pos 0) × PutIn x c (putc dev x c d).1 d (putc dev x c d).2)
        ⊎ (((putc dev x c d).0 ≡ negsuc 1) × Refused c (putc dev x c d).1 d (putc dev x c d).2)
  unfolding putc
  putc-PutIn x c d h = elim (eq_cases c.send_cnt 1024) [
    | inr n ↦ rw (ne→== c.send_cnt 1024 n) (inl (refl, send_and_append x c d (omega arith)))
    | inl e ↦ elim (eq_cases (console_send dev c d).0.send_cnt 1024) [
      | inl e1 ↦
          rw (eq→== c.send_cnt 1024 e, eq→== (console_send dev c d).0.send_cnt 1024 e1)
            (inr (refl, refused c d e e1))
      | inr n ↦
          let s = console_send-Sent dev c d in
          let (c1, d1) = console_send dev c d in
          let t = send_and_append x c1 d1 (omega (arith, s.count)) in
          rw (eq→== c.send_cnt 1024 e, ne→== (console_send dev c d).0.send_cnt 1024 n)
            (inl (
              refl,
              then_PutIn x c (append_char x (console_send dev c1 d1).0) d (console_send dev c1 d1).1
                  (c1, d1) s t,
            ))
    ]
  ]
