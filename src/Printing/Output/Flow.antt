-- ===== src/Printing/Output/Flow.antt =====
-- What printing leaves out, and what of the rest reaches the controller.
use kernel_riscv.Base.{
  ℕ, ◌+◌, ◌≤◌, ◌<◌, ◌≡◌, refl, ◌∙◌, ap, sym, subst, List, [], ◌∷◌, ◌++◌, arith, length,
  length-append, inl, inr, ◌⊎◌,
}
use mathlib.Core.List.{append_assoc, append-nil}
use kernel_riscv.Kernel.{Console}
use kernel_riscv.ConsoleIo.{Device, putc, console_send}
use kernel_riscv.ConsoleIo.Buffers.{unsent, length-chars}
use kernel_riscv.ConsoleIo.Sending.{console_send-Sent}
use kernel_riscv.ConsoleIo.Putting.{
  Wire, quiet, idle, PutIn, Refused, putc-PutIn, Wire-append, Transmits-Wire,
}
use kernel_riscv.Printing.Output.{emit}

-- `xs` with some of its characters left out
pub data Thinned : (xs ys : List ℕ) → Type 0 where
  none_left : Thinned [] []
  kept : {x : ℕ} {xs ys : List ℕ} → Thinned xs ys → Thinned (x ∷ xs) (x ∷ ys)
  dropped : {x : ℕ} {xs ys : List ℕ} → Thinned xs ys → Thinned (x ∷ xs) ys

module _ (dev : Device) where
  open dev use {Dev, status}

  -- The buffer takes in `xs` while the controller takes `sent`; none is lost, and their order stays.
  pub record Flow (xs : List ℕ) (c : Console) (d : Dev) (r : Console × Dev) : Type 0 where
    pub sent : List ℕ
    pub split : unsent c ++ xs ≡ sent ++ unsent r.0
    pub wire : Wire dev sent d r.1

  pub Flow-append :
      (xs ys : List ℕ) (c : Console) (d : Dev) (r s : Console × Dev)
      → Flow xs c d r
      → Flow ys r.0 r.1 s
      → Flow (xs ++ ys) c d s
  Flow-append xs ys c d r s p q = record {
    sent = p.sent ++ q.sent;
    split =
        sym (append_assoc (unsent c) xs ys)
        ∙ ap (λ l. l ++ ys) p.split
        ∙ append_assoc p.sent (unsent r.0) ys
        ∙ ap (λ l. p.sent ++ l) q.split
        ∙ sym (append_assoc p.sent q.sent (unsent s.0));
    wire = Wire-append dev p.wire q.wire;
  }

  pub console_send-Flow : (c : Console) (d : Dev) → Flow [] c d (console_send dev c d)
  console_send-Flow c d =
      let s = console_send-Sent dev c d in
      record {
        sent = s.sent;
        split = append-nil (unsent c) ∙ s.split;
        wire =
            subst (Wire dev s.sent d) (sym s.device)
              (Transmits-Wire dev s.sent d s.before s.transmitted);
      }

  pub PutIn-Flow :
      (x : ℕ) (c c' : Console) (d d' : Dev) → PutIn dev x c c' d d' → Flow (x ∷ []) c d (c', d')
  PutIn-Flow x c c' d d' p = record { sent = p.sent; split = p.split; wire = p.wire }

  Refused-Flow : (c c' : Console) (d d' : Dev) → Refused dev c c' d d' → Flow [] c d (c', d')
  Refused-Flow c c' d d' p = record {
    sent = [];
    split = append-nil (unsent c) ∙ sym p.same;
    wire = subst (Wire dev [] d) (sym p.device) (idle quiet);
  }

  length-unsent : (c : Console) → length (unsent c) ≡ c.send_cnt
  length-unsent c = length-chars c.send_buffer 0 c.send_cnt

  -- The buffer grows by at most what it takes in.
  pub Flow-le :
      (xs : List ℕ) (c : Console) (d : Dev) (r : Console × Dev)
      → Flow xs c d r
      → r.0.send_cnt ≤ c.send_cnt + length xs
  Flow-le xs c d r f = omega (
    arith,
    length-unsent c,
    length-unsent r.0,
    ap length f.split,
    length-append (unsent c) xs,
    length-append f.sent (unsent r.0),
  )

  -- What printing `xs` comes to.
  pub record Emitted (xs : List ℕ) (c : Console) (d : Dev) (r : Console × Dev) : Type 0 where
    pub accepted : List ℕ
    pub flow : Flow accepted c d r
    pub thinned : Thinned xs accepted
    pub complete : (accepted ≡ xs) ⊎ (1024 < c.send_cnt + length xs)
    pub count : r.0.send_cnt ≤ 1024

  -- From a buffer of at most 1024 characters, the buffer and the controller have after printing, in
  -- order, what was in the buffer and then the characters of `xs`, of which some are left out only
  -- where the buffer has no room for all.
  pub emit-Emitted :
      (xs : List ℕ) (c : Console) (d : Dev) → c.send_cnt ≤ 1024 → Emitted xs c d (emit dev xs c d)
  unfolding emit
  emit-Emitted [] c d h = record {
    accepted = [];
    flow = record { sent = []; split = append-nil (unsent c); wire = quiet };
    thinned = none_left;
    complete = inl refl;
    count = h;
  }
  emit-Emitted (x ∷ xs) c d h =
      let (_, c1, d1) = putc dev x c d in
      elim (putc-PutIn dev x c d h) [
        | inl (_, p) ↦
            let f = PutIn-Flow x c c1 d d1 p in
            let e = emit-Emitted xs c1 d1 p.count in
            record {
              accepted = x ∷ e.accepted;
              flow = Flow-append (x ∷ []) e.accepted c d (c1, d1) (emit dev xs c1 d1) f e.flow;
              thinned = kept e.thinned;
              complete = elim e.complete [
                | inl a ↦ inl (ap (λ l. x ∷ l) a)
                | inr b ↦ inr (omega (arith, Flow-le (x ∷ []) c d (c1, d1) f))
              ];
              count = e.count;
            }
        | inr (_, p) ↦
            let e =
              emit-Emitted xs c1 d1
                (omega (arith, p.full, length-unsent c, length-unsent c1, ap length p.same)) in
            record {
              accepted = e.accepted;
              flow =
                  Flow-append [] e.accepted c d (c1, d1) (emit dev xs c1 d1)
                    (Refused-Flow c c1 d d1 p) e.flow;
              thinned = dropped e.thinned;
              complete = inr (omega (arith, p.full));
              count = e.count;
            }
      ]
