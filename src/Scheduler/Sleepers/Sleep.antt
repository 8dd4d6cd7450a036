-- ===== src/Scheduler/Sleepers/Sleep.antt =====
-- `__scheduler_timeout` puts a sleeper into the list of those who sleep, by the time it wakes.
use kernel_riscv.Base.{
  ℕ, ◌-◌, ◌^◌, ◌<◌, ◌≤◌, ◌≡◌, ◌≢◌, refl, ◌∙◌, ap, sym, subst, List, [], ◌∷◌, ◌++◌, arith, lt→ltb,
  le→ltb, ltb, lt_cases, eq→==, ne→==, if◌then◌else◌, inl, inr, length, add64, sub64, sub64_le,
  eq_cases,
}
use kernel_riscv.Memory.{Layout, Mem, mem_alloc, done}
use kernel_riscv.Links.{list_insert, set_next, set_prev}
use kernel_riscv.Links.Queue.{NotIn, NotIn-of_append, Linked, IsQueue, SameOutside}
use kernel_riscv.Links.Insert.{first_or, first_or-ne, Apart-pair}
use kernel_riscv.Links.Insert.Rings.{insert_behind, insert_front}
use kernel_riscv.Kernel.{Kernel, blocks_of, sizeof_sleeping_thread}
use kernel_riscv.Scheduler.{
  scheduler_timeout, timeout_alone, timeout_first, timeout_behind, set_delta, set_asleep,
}
use kernel_riscv.Scheduler.Sleepers.{
  nodes, earlier, later, node_or, last_time, Linked-next, timeout_walk-later,
}
use kernel_riscv.Scheduler.Sleepers.Times.{
  delta, nodes-append, node_or-nodes, earlier-later, last_time-earlier, NotBefore, later-NotBefore,
  Timed-insert, Timed-frame, Timed-later,
}
use kernel_riscv.Scheduler.Sleepers.Entries.{
  Asleep, filled, new_sleeping-done, relaid, Entries, relaid-Entries,
}

-- Node `p` put into the list by its time: in front of the first sleeper if that wakes later, and
-- else behind it, in front of the first other one that does not wake earlier.
abbrev pub insert : (p time : ℕ) → List (ℕ × ℕ) → List (ℕ × ℕ)
insert p time [] = (p, time) ∷ []
insert p time ((q, t) ∷ l) =
    let rest = earlier time l ++ (p, time) ∷ later time l in
    if ltb time t then (p, time) ∷ (q, t) ∷ l else (q, t) ∷ rest

-- What a timeout leaves, for `thread` in node `p`, with `m` the allocator's state.
pub record Slept (k k' : Kernel) (m : Mem) (thread semaphore p : ℕ) (ss ss' : List (ℕ × ℕ))
    : Type 0 where
  pub asleep : Asleep k' ss'
  pub entry : ((k'.sleeping_at p).thread ≡ thread) × ((k'.sleeping_at p).semaphore ≡ semaphore)
  pub others :
      (q : ℕ)
      → q ≢ p
      → ((k'.sleeping_at q).thread ≡ (k.sleeping_at q).thread)
        × ((k'.sleeping_at q).semaphore ≡ (k.sleeping_at q).semaphore)
  pub outside : SameOutside (p ∷ nodes ss) k.links k'.links
  pub frame : k' ≡ record k {
    mem = m;
    links = k'.links;
    sleeping_at = k'.sleeping_at;
    scheduler = record (k.scheduler) { sleeping_threads = k'.scheduler.sleeping_threads };
  }

module _ (l : Layout) (m : Mem) (thread semaphore time p : ℕ) where
  alone :
      (k : Kernel)
      → mem_alloc l k.mem (blocks_of sizeof_sleeping_thread) ≡ done (p, m)
      → p ≢ 0
      → time < 2 ^ 64
      → k.scheduler.sleeping_threads ≡ 0
      → (k' : Kernel) × (timeout_alone l thread time semaphore k ≡ done (tt, k'))
        × Slept k k' m thread semaphore p [] ((p, time) ∷ [])
  unfolding timeout_alone
  alone k e nz b h =
      let k1 = filled l m thread semaphore p time k in
      let k' = set_asleep p (record k1 { links = set_prev (set_next k1.links p p) p p }) in
      (
        k',
        rw (new_sleeping-done l m thread semaphore p k time e nz) refl,
        record {
          asleep = record {
            queue = record {
              first = refl;
              linked = (ground arith, ground arith);
              distinct = (tt, tt);
              nonnull = ((λ z. nz (sym z)), tt);
            };
            times = (ground arith, b, tt);
          };
          entry = (ground arith, ground arith);
          others = λ q n. (ground arith, ground arith);
          outside = λ z o. (ground arith, ground arith);
          frame = refl;
        },
      )

  front :
      (k : Kernel) (x t : ℕ) (ss : List (ℕ × ℕ))
      → mem_alloc l k.mem (blocks_of sizeof_sleeping_thread) ≡ done (p, m)
      → p ≢ 0
      → NotIn p (x ∷ nodes ss)
      → Asleep k ((x, t) ∷ ss)
      → time < t
      → (k' : Kernel) × (timeout_first l thread time semaphore k ≡ done (tt, k'))
        × Slept k k' m thread semaphore p ((x, t) ∷ ss) ((p, time) ∷ (x, t) ∷ ss)
  unfolding timeout_first
  front k x t ss e nz f a b =
      let head = k.scheduler.sleeping_threads in
      let k0 = set_delta head (sub64 (k.sleeping_at head).delta time) k in
      let k1 = filled l m thread semaphore p time k0 in
      let k' = set_asleep p (record k1 { links = list_insert k1.links head p }) in
      let h : head ≡ x = a.queue.first in
      let r = insert_front k.links head p x (nodes ss) a.queue nz f in
      let d : sub64 (k.sleeping_at head).delta time ≡ t - time = rw h (
        sub64_le (k.sleeping_at x).delta time (omega (arith, a.times.0))
          (omega (arith, a.times.0, a.times.1))
        ∙ omega (arith, a.times.0)) in
      (
        k',
        rw (new_sleeping-done l m thread semaphore p k0 time e nz) refl,
        record {
          asleep = record {
            queue = r.queue;
            times = (
              ground arith,
              omega (arith, a.times.1),
              (
                rw (ne→== x p (λ z. f.0 (sym z)), eq→== x head (sym h), d) (omega (arith, b)),
                a.times.1,
                Timed-frame k k' (p ∷ x ∷ []) t ss (λ z o. ground (arith, h, o.0, o.1.0))
                    (Apart-pair p x (nodes ss) f.1 a.queue.distinct.0) a.times.2,
              ),
            );
          };
          entry = (ground arith, ground arith);
          others = λ q n. (ground arith, ground arith);
          outside = r.outside;
          frame = refl;
        },
      )

  -- The walk has stopped at the first of `ls`, or the head if there is none; the sleepers between
  -- the head and there are `es`.
  behind :
      (k : Kernel) (x t : ℕ) (es ls : List (ℕ × ℕ))
      → mem_alloc l k.mem (blocks_of sizeof_sleeping_thread) ≡ done (p, m)
      → p ≢ 0
      → time < 2 ^ 64
      → NotIn p (x ∷ nodes es ++ nodes ls)
      → Asleep k ((x, t) ∷ es ++ ls)
      → NotBefore time ls
      → last_time t es ≤ time
      → (k' : Kernel) × (timeout_behind l thread time semaphore (node_or x ls) (last_time t es) k
          ≡ done (tt, k'))
        × Slept k k' m thread semaphore p ((x, t) ∷ es ++ ls) ((x, t) ∷ es ++ (p, time) ∷ ls)
  unfolding timeout_behind
  behind k x t es ls e nz b f a n o =
      let y = node_or x ls in
      let d = sub64 time (last_time t es) in
      let k' = relaid l m thread semaphore p y d k in
      let left : d ≡ time - last_time t es = sub64_le time (last_time t es) o b in
      let q : IsQueue k.links k.scheduler.sleeping_threads (x ∷ nodes es ++ nodes ls) =
        subst (λ z. IsQueue k.links k.scheduler.sleeping_threads (x ∷ z)) (nodes-append es ls)
          a.queue in
      let py : p ≢ y = λ z.
        first_or-ne p x (nodes ls) f.0 (NotIn-of_append p (nodes es) (nodes ls) f.1).1
          (z ∙ node_or-nodes x ls) in
      let r : Entries l m thread semaphore p k k' y d =
        relaid-Entries l m thread semaphore p k y d py in
      let i = insert_behind k.links k.scheduler.sleeping_threads p x (nodes es) (nodes ls) q nz f in
      let head = q.first in
      let links : k'.links ≡ list_insert k.links (first_or x (nodes ls)) p =
        r.links ∙ ap (λ v. list_insert k.links v p) (node_or-nodes x ls) in
      let dx : delta k' x ≡ delta k x =
        r.same x (λ z. f.0 (sym z))
          (elim (eq_cases y x) [ inl w ↦ inr (w ∙ sym head) | inr w ↦ inl (λ z. w (sym z)) ]) in
      let dy : y ≢ x → delta k' y ≡ delta k y - (time - last_time t es) = λ ne.
        let u = Timed-later k x time t es ls a.times.2 n ne in
        r.shorter (λ z. ne (z ∙ head))
        ∙ sub64_le (delta k y) d (omega (arith, u.0, left)) (omega (arith, u.1))
        ∙ ap (λ v. delta k y - v) left in
      let split = nodes-append es ((p, time) ∷ ls) in
      (
        k',
        rw (new_sleeping-done l m thread semaphore p k d e nz) refl,
        record {
          asleep = record {
            queue =
                subst (λ z. IsQueue k'.links k'.scheduler.sleeping_threads (x ∷ z)) (sym split)
                  (subst
                    (λ z. IsQueue z k'.scheduler.sleeping_threads (x ∷ nodes es ++ p ∷ nodes ls))
                    (sym links)
                    (subst
                      (λ z.
                        IsQueue (list_insert k.links (first_or x (nodes ls)) p) z
                          (x ∷ nodes es ++ p ∷ nodes ls))
                      (sym r.head) i.queue));
            times = (
              omega (arith, a.times.0, dx),
              a.times.1,
              Timed-insert k k' x p time t es ls a.times.2 o b n q.distinct.1 q.distinct.0 f.1
                  (ap (λ v. v.delta) r.new ∙ left) dy (λ z w. r.same z w.0 (inl w.1.0)),
            );
          };
          entry = (ap (λ v. v.thread) r.new, ap (λ v. v.semaphore) r.new);
          others = r.others;
          outside =
              subst (λ z. SameOutside (p ∷ x ∷ z) k.links k'.links) (sym (nodes-append es ls))
                (subst (SameOutside (p ∷ x ∷ nodes es ++ nodes ls) k.links) (sym links) i.outside);
          frame = r.frame;
        },
      )

-- With at most as many sleepers as the heap has blocks, a time below 2^64, and a block that the
-- allocator gives for the new entry, in a node `p` that no sleeper has: the call puts the thread,
-- with its semaphore and its wake-up time, into the list by that time, the other sleepers keep
-- their wake-up times, threads and semaphores, and nothing changes but the list, the links of its
-- nodes and the allocator.
pub scheduler_timeout-Slept :
    (l : Layout) (k : Kernel) (m : Mem) (thread semaphore time p : ℕ) (ss : List (ℕ × ℕ))
    → Asleep k ss
    → length ss ≤ k.mem.n_mem_blocks
    → time < 2 ^ 64
    → mem_alloc l k.mem (blocks_of sizeof_sleeping_thread) ≡ done (p, m)
    → p ≢ 0
    → NotIn p (nodes ss)
    → (k' : Kernel) × (scheduler_timeout l thread time semaphore k ≡ done (tt, k'))
      × Slept k k' m thread semaphore p ss (insert p time ss)
unfolding scheduler_timeout
scheduler_timeout-Slept l k m thread semaphore time p [] a f b e nz n =
    rw (eq→== k.scheduler.sleeping_threads 0 a.queue)
      (alone l m thread semaphore time p k e nz b a.queue)
scheduler_timeout-Slept l k m thread semaphore time p ((x, t) ∷ ss) a f b e nz n =
    let head = k.scheduler.sleeping_threads in
    let some = ne→== head 0 (λ z. a.queue.nonnull.0 (sym z ∙ a.queue.first)) in
    let starts : delta k head ≡ t = ap (delta k) a.queue.first ∙ omega (arith, a.times.0) in
    elim (lt_cases time t) [
      | inl c ↦
          rw (some, starts, lt→ltb time t c) (front l m thread semaphore time p k x t ss e nz n a c)
      | inr c ↦
          let sum : add64 0 t ≡ t = omega (arith, a.times.1) in
          let ring =
            subst (λ z. Linked k.links x (nodes ss) z) (sym a.queue.first) a.queue.linked in
          let next : k.links.next head ≡ node_or head ss =
            ap k.links.next a.queue.first ∙ Linked-next k x head ss ring in
          let walk =
            timeout_walk-later k.mem.n_mem_blocks k time x t ss (omega arith) ring
              (subst (λ z. NotIn z (nodes ss)) (sym a.queue.first) a.queue.distinct.0) a.times.2 in
          let whole = earlier-later time ss in
          let names = ap nodes (sym whole) ∙ nodes-append (earlier time ss) (later time ss) in
          rw
            (
              some,
              starts,
              le→ltb time t c,
              sum,
              next,
              walk,
              ap (λ z. node_or z (later time ss)) a.queue.first,
            )
            (subst
              (λ z.
                (k' : Kernel) × (timeout_behind l thread time semaphore (node_or x (later time ss))
                    (last_time t (earlier time ss)) k
                  ≡ done (tt, k'))
                × Slept k k' m thread semaphore p ((x, t) ∷ z)
                    ((x, t) ∷ earlier time ss ++ (p, time) ∷ later time ss))
              whole
              (behind l m thread semaphore time p k x t (earlier time ss) (later time ss) e nz b
                (subst (λ z. NotIn p (x ∷ z)) names n)
                (subst (λ z. Asleep k ((x, t) ∷ z)) (sym whole) a) (later-NotBefore time ss)
                (last_time-earlier time t ss c)))
    ]
