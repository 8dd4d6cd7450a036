-- ===== src/Scheduler/Sleepers/Dangling.antt =====
-- `__scheduler_remove_timeout` at the head of a list of several sleepers.
use kernel_riscv.Base.{
  ℕ, suc, ◌<◌, ◌≡◌, refl, ◌∙◌, ap, sym, subst, List, ◌∷◌, eq→==, ne→==, arith, zero, add64,
}
use kernel_riscv.Memory.{Layout, Mem, mem_free, free_ok, done}
use kernel_riscv.Links.{unlink}
use kernel_riscv.Links.Queue.{IsQueue, Linked}
use kernel_riscv.Links.Unlink.{unlink-Popped}
use kernel_riscv.Kernel.{Kernel, free_or_panic}
use kernel_riscv.Scheduler.{scheduler_remove_timeout, remove_found, find_timeout, set_delta}
use kernel_riscv.Scheduler.Sleepers.{nodes}
use kernel_riscv.Scheduler.Sleepers.Times.{delta}
use kernel_riscv.Scheduler.Sleepers.Entries.{Asleep}

find_timeout-head :
    (n : ℕ) (k : Kernel) (thread p : ℕ)
    → 0 < n
    → (k.sleeping_at p).thread ≡ thread
    → find_timeout n k thread p ≡ done p
unfolding find_timeout
find_timeout-head zero k thread p f e = absurd (omega arith)
find_timeout-head (suc n) k thread p f e = rw (eq→== (k.sleeping_at p).thread thread e) refl

-- With several sleepers, the first of them of the thread, a memory of at least one block, and the
-- sleeper's structure one that the allocator frees: removing the thread's timeout frees the
-- structure and leaves the other sleepers in a ring of their own, which begins at the second one,
-- but the scheduler's list still begins at the structure that was freed.
pub scheduler_remove_timeout-dangling :
    (l : Layout) (k : Kernel) (m : Mem) (thread p u y v : ℕ) (ls : List (ℕ × ℕ))
    → Asleep k ((p, u) ∷ (y, v) ∷ ls)
    → (k.sleeping_at p).thread ≡ thread
    → 0 < k.mem.n_mem_blocks
    → mem_free l k.mem p ≡ (free_ok, m)
    → (k' : Kernel) × (scheduler_remove_timeout l thread k ≡ done (tt, k'))
      × (k'.mem ≡ m)
      × (k'.scheduler.sleeping_threads ≡ p)
      × IsQueue k'.links y (y ∷ nodes ls)
unfolding scheduler_remove_timeout remove_found free_or_panic
scheduler_remove_timeout-dangling l k m thread p u y v ls a e n f =
    let head = k.scheduler.sleeping_threads in
    let q = a.queue in
    let next : k.links.next p ≡ y = q.linked.0 in
    let after = unlink-Popped k.links head p y (nodes ls) q in
    let walk : find_timeout k.mem.n_mem_blocks k thread head ≡ done p =
      ap (find_timeout k.mem.n_mem_blocks k thread) q.first
      ∙ find_timeout-head k.mem.n_mem_blocks k thread p n e in
    let k1 = set_delta y (add64 (delta k y) (delta k p)) k in
    (
      record k1 { mem = m; links = unlink k.links p },
      rw
          (
            ne→== head 0 (λ z. q.nonnull.0 (sym z ∙ q.first)),
            ne→== (k.links.next head) head
                (λ z. q.distinct.0.0 (sym q.first ∙ sym z ∙ ap k.links.next q.first ∙ next)),
            walk,
            eq→== (k.sleeping_at p).thread thread e,
            next,
            ne→== y head (λ z. q.distinct.0.0 (sym (z ∙ q.first))),
            f,
          )
          refl,
      refl,
      q.first,
      record {
        first = refl;
        linked = subst (λ z. Linked (unlink k.links z) y (nodes ls) y) q.first after.queue.linked;
        distinct = after.queue.distinct;
        nonnull = after.queue.nonnull;
      },
    )
