-- ===== src/Scheduler/Sleepers/Cancel.antt =====
-- `__scheduler_remove_timeout` takes a sleeper out of the list before its time.
use kernel_riscv.Base.{
  ℕ, suc, ◌<◌, ◌≡◌, ◌≢◌, refl, ◌∙◌, ap, sym, subst, List, [], ◌∷◌, ◌++◌, arith, eq→==, ne→==,
  length, add64, add64_lt,
}
use kernel_riscv.Memory.{Layout, Mem, mem_free, free_ok, done}
use kernel_riscv.Links.{unlink}
use kernel_riscv.Links.Queue.{NotIn, NotIn-of_append, Linked, IsQueue, SameOutside}
use kernel_riscv.Links.Unlink.{unlink_behind, next-first_or}
use kernel_riscv.Kernel.{Kernel, free_or_panic}
use kernel_riscv.Scheduler.{
  set_asleep, scheduler_remove_timeout, remove_found, find_timeout, set_delta,
}
use kernel_riscv.Scheduler.Sleepers.{nodes}
use kernel_riscv.Scheduler.Sleepers.Times.{delta, nodes-append}
use kernel_riscv.Scheduler.Sleepers.Entries.{Asleep}
use kernel_riscv.Scheduler.Sleepers.Removing.{
  NotOf, find_timeout-found, Timed-remove, Timed-pair, not_alone,
}

-- What a cancelled timeout leaves: sleepers `ss'` of the sleepers `ss`, with `m` the allocator's
-- state.
pub record Cancelled (k k' : Kernel) (m : Mem) (ss ss' : List (ℕ × ℕ)) : Type 0 where
  pub asleep : Asleep k' ss'
  pub entries :
      (q : ℕ)
      → ((k'.sleeping_at q).thread ≡ (k.sleeping_at q).thread)
        × ((k'.sleeping_at q).semaphore ≡ (k.sleeping_at q).semaphore)
  pub outside : SameOutside (nodes ss) k.links k'.links
  pub frame : k' ≡ record k { mem = m; links = k'.links; sleeping_at = k'.sleeping_at }

module _ (l : Layout) (k : Kernel) (m : Mem) (thread p u x t : ℕ) where
  found :
      (es ls : List (ℕ × ℕ))
      → Asleep k ((x, t) ∷ es ++ (p, u) ∷ ls)
      → (k.sleeping_at p).thread ≡ thread
      → mem_free l k.mem p ≡ (free_ok, m)
      → (k' : Kernel) × (remove_found l thread p k ≡ done (tt, k'))
        × Cancelled k k' m ((x, t) ∷ es ++ (p, u) ∷ ls) ((x, t) ∷ es ++ ls)
  unfolding remove_found free_or_panic
  found es [] a e f =
      let k' = record k { mem = m; links = unlink k.links p } in
      let head = k.scheduler.sleeping_threads in
      let q = subst (λ z. IsQueue k.links head (x ∷ z)) (nodes-append es ((p, u) ∷ [])) a.queue in
      let r = unlink_behind k.links head p x (nodes es) [] q in
      let next : k.links.next p ≡ head =
        next-first_or k.links p x x (nodes es) [] q.linked ∙ sym q.first in
      (
        k',
        rw (eq→== (k.sleeping_at p).thread thread e, eq→== (k.links.next p) head next, f) refl,
        record {
          asleep = record {
            queue = subst (λ z. IsQueue k'.links head (x ∷ z)) (sym (nodes-append es [])) r.queue;
            times = (
              a.times.0,
              a.times.1,
              Timed-remove k k' x p u t es [] a.times.2 q.distinct.1 q.distinct.0
                  (λ z. absurd (z refl)) (λ z o. refl),
            );
          };
          entries = λ z. (refl, refl);
          outside =
              subst (λ z. SameOutside (x ∷ z) k.links k'.links)
                (sym (nodes-append es ((p, u) ∷ []))) r.outside;
          frame = refl;
        },
      )
  found es ((y, v) ∷ ls) a e f =
      let head = k.scheduler.sleeping_threads in
      let q =
        subst (λ z. IsQueue k.links head (x ∷ z)) (nodes-append es ((p, u) ∷ (y, v) ∷ ls))
          a.queue in
      let r = unlink_behind k.links head p x (nodes es) (y ∷ nodes ls) q in
      let next : k.links.next p ≡ y =
        next-first_or k.links p x x (nodes es) (y ∷ nodes ls) q.linked in
      let ynx : y ≢ x =
        λ z. (NotIn-of_append x (nodes es) (p ∷ y ∷ nodes ls) q.distinct.0).1.1.0 (sym z) in
      let k1 = set_delta y (add64 (delta k y) (delta k p)) k in
      let k' = record k1 { mem = m; links = unlink k.links p } in
      let sum = add64_lt (delta k y) (delta k p) (Timed-pair k p u y v t es ls a.times.2) in
      (
        k',
        rw (eq→== (k.sleeping_at p).thread thread e, next, ne→== y head (λ z. ynx (z ∙ q.first)), f)
            refl,
        record {
          asleep = record {
            queue =
                subst (λ z. IsQueue k'.links head (x ∷ z)) (sym (nodes-append es ((y, v) ∷ ls)))
                  r.queue;
            times = (
              ground (arith, ynx, a.times.0),
              a.times.1,
              Timed-remove k k' x p u t es ((y, v) ∷ ls) a.times.2 q.distinct.1 q.distinct.0
                  (λ z. ground (arith, sum)) (λ z o. ground (arith, o.0)),
            );
          };
          entries = λ z. (ground arith, ground arith);
          outside =
              subst (λ z. SameOutside (x ∷ z) k.links k'.links)
                (sym (nodes-append es ((p, u) ∷ (y, v) ∷ ls))) r.outside;
          frame = refl;
        },
      )

-- With a thread's sleeper behind the head of the list, no sleeper before it of that thread, fewer
-- of those than the memory has blocks, and its structure one that the allocator frees: removing
-- the thread's timeout leaves the list of the other sleepers, each with the time that it had, and
-- frees the structure. No other part of the kernel changes.
pub scheduler_remove_timeout-Cancelled :
    (l : Layout) (k : Kernel) (m : Mem) (thread p u x t : ℕ) (es ls : List (ℕ × ℕ))
    → Asleep k ((x, t) ∷ es ++ (p, u) ∷ ls)
    → NotOf k thread (x ∷ nodes es)
    → (k.sleeping_at p).thread ≡ thread
    → suc (length (nodes es)) < k.mem.n_mem_blocks
    → mem_free l k.mem p ≡ (free_ok, m)
    → (k' : Kernel) × (scheduler_remove_timeout l thread k ≡ done (tt, k'))
      × Cancelled k k' m ((x, t) ∷ es ++ (p, u) ∷ ls) ((x, t) ∷ es ++ ls)
unfolding scheduler_remove_timeout
scheduler_remove_timeout-Cancelled l k m thread p u x t es ls a o e n f =
    let head = k.scheduler.sleeping_threads in
    let q = subst (λ z. IsQueue k.links head (x ∷ z)) (nodes-append es ((p, u) ∷ ls)) a.queue in
    let walk : find_timeout k.mem.n_mem_blocks k thread head ≡ done p =
      ap (find_timeout k.mem.n_mem_blocks k thread) q.first
      ∙ find_timeout-found k.mem.n_mem_blocks k thread p x (nodes es) (nodes ls) n
          (subst (Linked k.links x (nodes es ++ p ∷ nodes ls)) (sym q.first) q.linked)
          (subst (λ z. NotIn z (nodes es ++ p ∷ nodes ls)) (sym q.first) q.distinct.0) o e in
    let (k', run, c) = found l k m thread p u x t es ls a e f in
    (
      k',
      rw
          (
            ne→== head 0 (λ z. q.nonnull.0 (sym z ∙ q.first)),
            not_alone k.links head x p (nodes es) (nodes ls) q,
            walk,
            run,
          )
          refl,
      c,
    )

-- With one sleeper in the list, of the thread, whose structure the allocator frees: removing the
-- thread's timeout leaves nobody asleep and frees the structure.
alone-Cancelled :
    (l : Layout) (k : Kernel) (m : Mem) (thread p u : ℕ)
    → Asleep k ((p, u) ∷ [])
    → (k.sleeping_at p).thread ≡ thread
    → mem_free l k.mem p ≡ (free_ok, m)
    → scheduler_remove_timeout l thread k ≡ done (tt, set_asleep 0 (record k { mem = m }))
unfolding scheduler_remove_timeout free_or_panic
alone-Cancelled l k m thread p u a e f =
    rw
      (
        ne→== k.scheduler.sleeping_threads 0 (λ z. a.queue.nonnull.0 (sym z ∙ a.queue.first)),
        eq→== (k.links.next k.scheduler.sleeping_threads) k.scheduler.sleeping_threads
            (ap k.links.next a.queue.first ∙ a.queue.linked.0 ∙ sym a.queue.first),
        eq→== (k.sleeping_at k.scheduler.sleeping_threads).thread thread
            (ap (λ z. (k.sleeping_at z).thread) a.queue.first ∙ e),
        ap (mem_free l k.mem) a.queue.first ∙ f,
      )
      refl
