-- ===== src/Scheduler/Sleepers/Entries.antt =====
-- The entry that `__scheduler_timeout` allocates, and the state once the entry is in the list.
use kernel_riscv.Base.{
  ℕ, ◌≡◌, ◌≢◌, refl, List, arith, eq→==, ne→==, ◌==◌, if◌then◌else◌, inl, inr, ◌⊎◌, sub64, eq_cases,
}
use kernel_riscv.Memory.{Layout, Mem, mem_alloc, done}
use kernel_riscv.Links.{list_insert}
use kernel_riscv.Links.Queue.{IsQueue}
use kernel_riscv.Kernel.{Kernel, Sleeping, set_sleeping, alloc, blocks_of, sizeof_sleeping_thread}
use kernel_riscv.Scheduler.{new_sleeping, set_delta}
use kernel_riscv.Scheduler.Sleepers.{nodes, Timed}
use kernel_riscv.Scheduler.Sleepers.Times.{delta}

-- The sleepers' list holds the nodes of `ss`, which wake at the times that `ss` says.
pub record Asleep (k : Kernel) (ss : List (ℕ × ℕ)) : Type 0 where
  pub queue : IsQueue k.links k.scheduler.sleeping_threads (nodes ss)
  pub times : Timed k 0 ss

abbrev pub entry : (thread semaphore delta : ℕ) → Sleeping
entry thread semaphore delta = record { thread = thread; semaphore = semaphore; delta = delta }

module _ (l : Layout) (m : Mem) (thread semaphore p : ℕ) where
  -- the structure is allocated and filled
  abbrev pub filled : ℕ → Kernel → Kernel
  filled d k = set_sleeping p (entry thread semaphore d) (record k { mem = m })

  pub new_sleeping-done :
      (k : Kernel) (d : ℕ)
      → mem_alloc l k.mem (blocks_of sizeof_sleeping_thread) ≡ done (p, m)
      → p ≢ 0
      → new_sleeping l thread semaphore d k ≡ done (p, filled d k)
  unfolding new_sleeping alloc
  new_sleeping-done k d e nz = rw (e, ne→== p 0 nz) refl

  -- the state in which the new node stands in front of `y`, and `y`, unless it is the head, has a
  -- smaller delta
  abbrev pub relaid : (y d : ℕ) → Kernel → Kernel
  relaid y d k =
      let k1 = filled d k in
      let k2 = record k1 { links = list_insert k1.links y p } in
      if y == k2.scheduler.sleeping_threads
      then k2
      else set_delta y (sub64 (k2.sleeping_at y).delta (k2.sleeping_at p).delta) k2

  -- the entries and the other parts of that state
  pub record Entries (k k' : Kernel) (y d : ℕ) : Type 0 where
    pub new : k'.sleeping_at p ≡ entry thread semaphore d
    pub shorter : y ≢ k.scheduler.sleeping_threads → delta k' y ≡ sub64 (delta k y) d
    pub same :
        (z : ℕ) → z ≢ p → (z ≢ y) ⊎ (y ≡ k.scheduler.sleeping_threads) → delta k' z ≡ delta k z
    pub others :
        (q : ℕ)
        → q ≢ p
        → ((k'.sleeping_at q).thread ≡ (k.sleeping_at q).thread)
          × ((k'.sleeping_at q).semaphore ≡ (k.sleeping_at q).semaphore)
    pub links : k'.links ≡ list_insert k.links y p
    pub head : k'.scheduler.sleeping_threads ≡ k.scheduler.sleeping_threads
    pub frame : k' ≡ record k {
      mem = m;
      links = k'.links;
      sleeping_at = k'.sleeping_at;
      scheduler = record (k.scheduler) { sleeping_threads = k'.scheduler.sleeping_threads };
    }

  pub relaid-Entries : (k : Kernel) (y d : ℕ) → p ≢ y → Entries k (relaid y d k) y d
  relaid-Entries k y d n = elim (eq_cases y k.scheduler.sleeping_threads) [
    | inl e ↦ rw (eq→== y k.scheduler.sleeping_threads e) (record {
      new = ground arith;
      shorter = λ o. absurd (o e);
      same = λ z o w. ground arith;
      others = λ q o. (ground arith, ground arith);
      links = refl;
      head = refl;
      frame = refl;
    })
    | inr e ↦ rw (ne→== y k.scheduler.sleeping_threads e) (record {
      new = rw (ne→== p y n, eq→== p p refl) refl;
      shorter = λ o. ground (arith, n);
      same = λ z o w. elim w [ inl v ↦ ground (arith, o, v) | inr v ↦ absurd (e v) ];
      others = λ q o. (ground arith, ground arith);
      links = refl;
      head = refl;
      frame = refl;
    })
  ]
