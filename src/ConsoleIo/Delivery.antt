-- ===== src/ConsoleIo/Delivery.antt =====
-- `__console_receive` of src/console.c: which thread gets which character.
use kernel_riscv.Base.{
  ℕ, zero, suc, ◌+◌, ◌-◌, ◌≤◌, ◌≡◌, ◌≢◌, refl, ◌∙◌, ap, sym, subst, false, List, [], ◌∷◌, ◌++◌, map,
  arith, eq→==, ne→==, lt→ltb, ◌⊎◌, inl, inr, length,
}
use mathlib.Core.List.{append_assoc, append-nil}
use kernel_riscv.Links.Queue.{NotIn, Distinct, IsQueue}
use kernel_riscv.Kernel.{ContextsAt, Kernel}
use kernel_riscv.Threads.{bit}
use kernel_riscv.Scheduler.{scheduler_push}
use kernel_riscv.ConsoleIo.{Device, waiting_pop, hand_out, deliver, receive_loop, console_receive}
use kernel_riscv.ConsoleIo.Buffers.{chars, chars-shift_from, length-chars, received, unsent}
use kernel_riscv.ConsoleIo.Receiving.{Reads, receive_loop-Got}
use kernel_riscv.ConsoleIo.Sharing.{
  served, unserved, leftover, Sees, Awaiting, hand_one, hand_one-Awaiting,
}

module _ (sp : ℕ → ℕ) where
  hand_one-seen :
      (x : ℕ) (k : Kernel) (w : ℕ)
      → k.console.waiting_for_input ≡ w
      → ContextsAt sp k
      → (((hand_one x k).context_at (sp w)).a0 ≡ x)
        × ((p : ℕ) → p ≢ sp w → (hand_one x k).context_at p ≡ k.context_at p)
        × ContextsAt sp (hand_one x k)
  unfolding waiting_pop scheduler_push
  hand_one-seen x k w e c =
      rw e (rw (c w) (ground arith, λ p n. ground arith, λ t. ground (arith, c t)))

  -- What the loop leaves, from the character in entry `u` on, with `cnt` in the buffer.
  record Handed (k : Kernel) (cnt : ℕ) (ws xs cs : List ℕ) (r : ℕ × Kernel) : Type 0 where
    pub lines : Awaiting r.1 (unserved ws cs) (xs ++ served ws cs)
    pub sees : Sees sp r.1 ws cs
    pub frame : (p : ℕ) → NotIn p (map sp ws) → r.1.context_at p ≡ k.context_at p
    pub used : r.0 + length (leftover ws cs) ≡ cnt
    pub left : chars k.console.receive_buffer r.0 (length (leftover ws cs)) ≡ leftover ws cs
    pub buffer : r.1.console.receive_buffer ≡ k.console.receive_buffer
    pub count : r.1.console.receive_cnt ≡ k.console.receive_cnt
    pub unsent_same : unsent r.1.console ≡ unsent k.console

  Awaiting-append_nil : (k : Kernel) (ws xs : List ℕ) → Awaiting k ws xs → Awaiting k ws (xs ++ [])
  Awaiting-append_nil k ws xs a = subst (Awaiting k ws) (sym (append-nil xs)) a

  -- nobody waits
  nobody :
      (n u cnt : ℕ) (k : Kernel) (xs : List ℕ)
      → Awaiting k [] xs
      → n + u ≡ cnt
      → Handed k cnt [] xs (chars k.console.receive_buffer u n) (u, k)
  nobody n u cnt k xs a e = record {
    lines = Awaiting-append_nil k [] xs a;
    sees = tt;
    frame = λ p o. refl;
    used = omega (arith, e, length-chars k.console.receive_buffer u n);
    left = ap (chars k.console.receive_buffer u) (length-chars k.console.receive_buffer u n);
    buffer = refl;
    count = refl;
    unsent_same = refl;
  }

  -- no character is left
  no_more :
      (u cnt : ℕ) (k : Kernel) (w : ℕ) (ws xs : List ℕ)
      → Awaiting k (w ∷ ws) xs
      → u ≡ cnt
      → Handed k cnt (w ∷ ws) xs [] (u, k)
  no_more u cnt k w ws xs a e = record {
    lines = Awaiting-append_nil k (w ∷ ws) xs a;
    sees = tt;
    frame = λ p o. refl;
    used = omega (arith, e);
    left = refl;
    buffer = refl;
    count = refl;
    unsent_same = refl;
  }

  one_round :
      (x cnt : ℕ) (k : Kernel) (w : ℕ) (ws xs cs : List ℕ) (r : ℕ × Kernel)
      → k.console.waiting_for_input ≡ w
      → ContextsAt sp k
      → NotIn (sp w) (map sp ws)
      → Handed (hand_one x k) cnt ws (xs ++ (w ∷ [])) cs r
      → Handed k cnt (w ∷ ws) xs (x ∷ cs) r
  unfolding waiting_pop scheduler_push
  one_round x cnt k w ws xs cs r e c d h =
      let s = hand_one-seen x k w e c in
      record {
        lines =
            subst (Awaiting r.1 (unserved ws cs)) (append_assoc xs (w ∷ []) (served ws cs)) h.lines;
        sees = (ap (λ z. z.a0) (h.frame (sp w) d) ∙ s.0, h.sees);
        frame = λ p o. h.frame p o.1 ∙ s.1 p o.0;
        used = h.used;
        left = h.left;
        buffer = h.buffer;
        count = h.count;
        unsent_same = h.unsent_same;
      }

  hand_one-buffer :
      (x : ℕ) (k : Kernel) → (hand_one x k).console.receive_buffer ≡ k.console.receive_buffer
  unfolding waiting_pop scheduler_push
  hand_one-buffer x k = refl

  hand_out-Handed :
      (n u cnt : ℕ) (k : Kernel) (ws xs : List ℕ)
      → Awaiting k ws xs
      → ContextsAt sp k
      → Distinct (map sp ws)
      → n + u ≡ cnt
      → Handed k cnt ws xs (chars k.console.receive_buffer u n) (hand_out n u cnt k)
  unfolding hand_out
  hand_out-Handed zero u cnt k [] xs a c d e = nobody 0 u cnt k xs a e
  hand_out-Handed zero u cnt k (w ∷ ws) xs a c d e = no_more u cnt k w ws xs a (omega arith)
  hand_out-Handed (suc n) u cnt k [] xs a c d e =
      rw (eq→== k.console.waiting_for_input 0 a.waiting) (nobody (suc n) u cnt k xs a e)
  hand_out-Handed (suc n) u cnt k (w ∷ ws) xs a c d e =
      let x = k.console.receive_buffer u in
      let s = hand_one-seen x k w a.waiting.first c in
      let k2 = hand_one x k in
      let r = hand_out n (suc u) cnt k2 in
      let h =
        hand_out-Handed n (suc u) cnt k2 ws (xs ++ (w ∷ [])) (hand_one-Awaiting x k w ws xs a) s.2
          d.1 (omega arith) in
      rw
        (
          ne→== k.console.waiting_for_input 0 (λ z. a.nonnull.0 (sym z ∙ a.waiting.first)),
          lt→ltb u cnt (omega arith),
        )
        (one_round x cnt k w ws xs (chars k.console.receive_buffer (suc u) n) r a.waiting.first c
          d.0
          (subst (λ f. Handed k2 cnt ws (xs ++ (w ∷ [])) (chars f (suc u) n) r)
            (hand_one-buffer x k) h))

  -- What `__console_receive` does to the threads `ws` that wait and the characters `cs` in the
  -- buffer: how many threads there are, who sees what, and what is left.
  pub record Delivered (k k' : Kernel) (ws xs cs : List ℕ) : Type 0 where
    pub lines : Awaiting k' (unserved ws cs) (xs ++ served ws cs)
    pub sees : Sees sp k' ws cs
    pub others : (p : ℕ) → NotIn p (map sp ws) → k'.context_at p ≡ k.context_at p
    pub left : received k'.console ≡ leftover ws cs
    pub unsent_same : unsent k'.console ≡ unsent k.console

  -- Threads `ws`, whose contexts are apart, wait, and threads `xs` are ready: the waiting threads
  -- get the characters of the buffer in order, one each, as far as both go, and are ready behind
  -- `xs` in the order in which they waited; the others wait on, and what is left stays in order.
  pub deliver-Delivered :
      (k : Kernel) (ws xs : List ℕ)
      → Awaiting k ws xs
      → ContextsAt sp k
      → Distinct (map sp ws)
      → Delivered k (deliver k) ws xs (received k.console)
  unfolding deliver
  deliver-Delivered k ws xs a c d =
      let n = k.console.receive_cnt in
      let h = hand_out-Handed n 0 n k ws xs a c d (omega arith) in
      let cs = received k.console in
      let (m, k1) = hand_out n 0 n k in
      let rest : k1.console.receive_cnt - m ≡ length (leftover ws cs) =
        omega (arith, h.used, h.count) in
      let start : m + 0 ≡ m = omega arith in
      record {
        lines = record {
          waiting = h.lines.waiting;
          ready = h.lines.ready;
          distinct = h.lines.distinct;
          nonnull = h.lines.nonnull;
        };
        sees = h.sees;
        others = h.frame;
        left =
            chars-shift_from (k1.console.receive_cnt - m) 0 m k1.console.receive_buffer
            ∙ rw (rest, start, h.buffer) h.left;
        unsent_same = h.unsent_same;
      }

-- What a receive interrupt does: the characters `new` come in, and are delivered behind those that
-- the buffer held.
pub record Received (dev : Device) (sp : ℕ → ℕ) (k : Kernel) (ws xs : List ℕ) (d : dev.Dev)
    (r : Kernel × dev.Dev) : Type 0 where
  pub new : List ℕ
  pub before : dev.Dev
  pub reads : Reads dev new d before
  pub device : r.1 ≡ (dev.status before).1
  pub delivered : Delivered sp k r.0 ws xs (received k.console ++ new)
  pub stops : (length (received k.console ++ new) ≡ 1024) ⊎ (bit (dev.status before).0 0 ≡ false)

-- With at most 1024 characters in the buffer, threads `ws` waiting for input, whose contexts are
-- apart, and threads `xs` ready, `__console_receive` takes characters until the controller has none
-- or the buffer holds 1024, and then hands out what was in the buffer followed by what came in: one
-- character to each waiting thread, in order, which becomes ready behind `xs`; the threads and the
-- characters that are left stay in order.
pub console_receive-Received :
    (dev : Device) (sp : ℕ → ℕ) (k : Kernel) (ws xs : List ℕ) (d : dev.Dev)
    → Awaiting k ws xs
    → ContextsAt sp k
    → Distinct (map sp ws)
    → k.console.receive_cnt ≤ 1024
    → Received dev sp k ws xs d (console_receive dev k d)
unfolding console_receive
console_receive-Received dev sp k ws xs d a c s b =
    let g = receive_loop-Got dev 1025 k.console d b (omega arith) in
    let (con, d1) = receive_loop dev 1025 k.console d in
    let k1 = record k { console = con } in
    let a1 : Awaiting k1 ws xs = record {
      waiting = subst (λ h. IsQueue k.links h ws) (sym g.waiting_same) a.waiting;
      ready = a.ready;
      distinct = a.distinct;
      nonnull = a.nonnull;
    } in
    let del = deliver-Delivered sp k1 ws xs a1 c s in
    let del' = subst (Delivered sp k1 (deliver k1) ws xs) g.appended del in
    record {
      new = g.new;
      before = g.before;
      reads = g.reads;
      device = g.device;
      delivered = record {
        lines = del'.lines;
        sees = del'.sees;
        others = del'.others;
        left = del'.left;
        unsent_same = del'.unsent_same ∙ g.unsent_same;
      };
      stops = elim g.stops [
        | inl e ↦
            inl (ap length (sym g.appended) ∙ length-chars con.receive_buffer 0 con.receive_cnt ∙ e)
        | inr e ↦ inr e
      ];
    }
