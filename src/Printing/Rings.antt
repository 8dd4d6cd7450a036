-- ===== src/Printing/Rings.antt =====
-- The queue reports of src/scheduler.c and src/semaphore.c, against lists of nodes.
use kernel_riscv.Base.{
  ℕ, zero, suc, ◌+◌, ◌≤◌, ◌<◌, ◌≡◌, refl, ◌∙◌, ap, sym, List, [], ◌∷◌, ◌++◌, arith, length, eq→==,
  ne→==, lt→ltb,
}
use kernel_riscv.Memory.{done}
use kernel_riscv.Links.{Links}
use kernel_riscv.Links.Queue.{Linked, IsQueue, NotIn}
use kernel_riscv.Kernel.{Kernel}
use kernel_riscv.Printing.{text, print_str, print_mem}
use kernel_riscv.Printing.Reports.{
  print_ring, print_queue, thread_line, scheduler_queue_print, print_waiting, sem_line, print_sems,
  sem_all_print, prepend,
}

-- a line for each node, in order
unfoldable pub lines : (ℕ → List ℕ) → List ℕ → List ℕ
lines line [] = []
lines line (x ∷ xs) = line x ++ lines line xs

-- what a report on a queue says
unfoldable pub queue_report : (ℕ → List ℕ) → List ℕ → (empty first last : List ℕ) → List ℕ
queue_report line [] empty first last = print_str empty
queue_report line (x ∷ xs) empty first last =
    print_str first ++ (lines line (x ∷ xs) ++ print_str last)

print_ring-lines :
    (l : Links) (line : ℕ → List ℕ) (fuel head x : ℕ) (xs : List ℕ)
    → Linked l x xs head
    → NotIn head xs
    → length xs < fuel
    → print_ring l.next line fuel head x ≡ done (lines line (x ∷ xs))
unfolding print_ring lines
print_ring-lines l line zero head x xs p d h = absurd (omega arith)
print_ring-lines l line (suc fuel) head x [] p d h = rw (eq→== (l.next x) head p.0) refl
print_ring-lines l line (suc fuel) head x (y ∷ ys) (n, b, t) d h =
    rw
      (
        n,
        ne→== y head (λ e. d.0 (sym e)),
        print_ring-lines l line fuel head y ys t d.1 (omega arith),
      )
      refl

pub print_queue-queue_report :
    (k : Kernel) (line : ℕ → List ℕ) (head : ℕ) (xs : List ℕ) (empty first last : List ℕ)
    → IsQueue k.links head xs
    → length xs ≤ k.mem.n_mem_blocks
    → print_queue k line head empty first last ≡ done (queue_report line xs empty first last)
unfolding print_queue queue_report
print_queue-queue_report k line head [] empty first last q h = rw (eq→== head 0 q) refl
print_queue-queue_report k line head (x ∷ xs) empty first last q h =
    rw
      (
        q.first,
        ne→== x 0 (λ e. q.nonnull.0 (sym e)),
        print_ring-lines k.links line k.mem.n_mem_blocks x x xs q.linked q.distinct.0 (omega arith),
      )
      refl

-- Where the ready queue holds `xs`, at most as many as the heap has blocks, the report ends and
-- has a line for each ready thread, in the order in which they will run.
pub scheduler_queue_print-queue_report :
    (k : Kernel) (xs : List ℕ)
    → IsQueue k.links k.scheduler.ready_threads xs
    → length xs ≤ k.mem.n_mem_blocks
    → scheduler_queue_print k
      ≡ done (
          queue_report thread_line xs
            (text "Scheduler thread list empty\n")
            (text "Scheduler thread list:\n")
            (text "Scheduler thread list over\n"))
unfolding scheduler_queue_print
scheduler_queue_print-queue_report k xs q h =
    print_queue-queue_report k thread_line k.scheduler.ready_threads xs _ _ _ q h

-- From entry `i` of the table on, the semaphores have the waiting threads of `qs`.
abbrev pub Registered : Kernel → (i : ℕ) → List (List ℕ) → Type 0
Registered k i [] = Unit
Registered k i (xs ∷ qs) =
    IsQueue k.links (k.sem_at (k.sem_table.semaphores i)).waiting_threads xs
    × (length xs ≤ k.mem.n_mem_blocks)
    × Registered k (suc i) qs

unfoldable pub waiting_report : List ℕ → List ℕ
waiting_report xs =
    queue_report thread_line xs (text "Semaphore waiting thread list empty\n")
      (text "Semaphore waiting thread list:\n") (text "Semaphore waiting thread list over\n")

unfoldable pub sems_report : Kernel → (i : ℕ) → List (List ℕ) → List ℕ
sems_report k i [] = []
sems_report k i (xs ∷ qs) =
    sem_line k i (k.sem_table.semaphores i) ++ (waiting_report xs ++ sems_report k (suc i) qs)

print_waiting-waiting_report :
    (k : Kernel) (s : ℕ) (xs : List ℕ)
    → IsQueue k.links (k.sem_at s).waiting_threads xs
    → length xs ≤ k.mem.n_mem_blocks
    → print_waiting k s ≡ done (waiting_report xs)
unfolding print_waiting waiting_report
print_waiting-waiting_report k s xs q h =
    print_queue-queue_report k thread_line (k.sem_at s).waiting_threads xs _ _ _ q h

print_sems-sems_report :
    (k : Kernel) (i : ℕ) (qs : List (List ℕ))
    → Registered k i qs
    → i + length qs ≤ 10
    → print_sems (length qs) i k ≡ done (sems_report k i qs)
unfolding print_sems sems_report
print_sems-sems_report k i [] r h = refl
print_sems-sems_report k i (xs ∷ qs) (q, n, r) h =
    rw
      (
        lt→ltb i 10 (omega arith),
        print_waiting-waiting_report k (k.sem_table.semaphores i) xs q n,
        print_sems-sems_report k (suc i) qs r (omega arith),
      )
      refl

-- Where the table has at most ten entries and each semaphore's waiting threads are at most as many
-- as the heap has blocks, the report ends: it gives the count, and for each semaphore its value and
-- a line for each waiting thread, in the order of waiting.
pub sem_all_print-sems_report :
    (k : Kernel) (qs : List (List ℕ))
    → Registered k 0 qs
    → k.sem_table.sem_cnt ≡ length qs
    → length qs ≤ 10
    → sem_all_print k ≡ done (print_mem (text "Semaphore count") (length qs) ++ sems_report k 0 qs)
unfolding sem_all_print
sem_all_print-sems_report k qs r e h =
    ap (λ n. prepend (print_mem (text "Semaphore count") n) (print_sems n 0 k)) e
    ∙ rw (print_sems-sems_report k 0 qs r (omega arith)) refl
