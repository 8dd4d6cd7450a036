-- ===== src/Printing/Reports.antt =====
-- The reports of src/mem.c, src/scheduler.c and src/semaphore.c, as the characters that they hand to
-- `__putc`, in order.
use kernel_riscv.Base.{ℕ, zero, suc, List, [], ◌++◌, ltb, ◌==◌, if◌then◌else◌, is_zero}
use kernel_riscv.Memory.{Words, Mem, Run, done, panic, undefined, out_of_fuel}
use kernel_riscv.Kernel.{Kernel}
use kernel_riscv.Semaphores.{max_semaphores}
use kernel_riscv.Printing.{text, print_str, print_u64, print_i32, print_mem}

-- the loop of `__mem_print` from entry `i` on, with `rounds` entries to go
unfoldable pub print_entries : (rounds i : ℕ) → Words → List ℕ
print_entries zero i w = []
print_entries (suc rounds) i w =
    (if is_zero (w i) then [] else print_i32 (w i) ++ print_str (text " "))
    ++ print_entries rounds (suc i) w

unfoldable pub mem_print : Mem → List ℕ
mem_print m = print_entries m.n_mem_blocks 0 m.mem_index ++ print_str (text "\n")

abbrev pub prepend : List ℕ → Run (List ℕ) → Run (List ℕ)
prepend cs (done out) = done (cs ++ out)
prepend cs panic = panic
prepend cs undefined = undefined
prepend cs out_of_fuel = out_of_fuel

abbrev pub followed : Run (List ℕ) → List ℕ → Run (List ℕ)
followed (done out) cs = done (out ++ cs)
followed panic cs = panic
followed undefined cs = undefined
followed out_of_fuel cs = out_of_fuel

-- The `do` loop of every queue printer, at `node` of the ring that starts at `head`.
unfoldable pub print_ring :
    (next : ℕ → ℕ) → (line : ℕ → List ℕ) → (fuel head node : ℕ) → Run (List ℕ)
print_ring next line zero head node = out_of_fuel
print_ring next line (suc fuel) head node =
    let rest = print_ring next line fuel head (next node) in
    prepend (line node) (if next node == head then done [] else rest)

-- The body of the queue printers: a line for an empty queue, or the list between two lines. Each
-- node takes a block of the heap, so `n_mem_blocks` rounds are enough.
unfoldable pub print_queue :
    Kernel → (line : ℕ → List ℕ) → (head : ℕ) → (empty first last : List ℕ) → Run (List ℕ)
print_queue k line head empty first last =
    if head == 0
    then done (print_str empty)
    else prepend (print_str first)
        (followed (print_ring k.links.next line k.mem.n_mem_blocks head head) (print_str last))

unfoldable pub thread_line : ℕ → List ℕ
thread_line t = print_mem (text "Thread") t

unfoldable pub scheduler_queue_print : Kernel → Run (List ℕ)
scheduler_queue_print k =
    print_queue k thread_line k.scheduler.ready_threads (text "Scheduler thread list empty\n")
      (text "Scheduler thread list:\n") (text "Scheduler thread list over\n")

-- The sleeping structure's own address is printed as the thread.
unfoldable pub sleeping_line : Kernel → ℕ → List ℕ
sleeping_line k p =
    print_mem (text "Thread") p ++ print_mem (text "Time delta") (k.sleeping_at p).delta

unfoldable pub scheduler_blocked_print : Kernel → Run (List ℕ)
scheduler_blocked_print k =
    print_queue k (sleeping_line k) k.scheduler.sleeping_threads
      (text "Scheduler blocked thread list empty\n") (text "Scheduler blocked thread list:\n")
      (text "Scheduler blocked thread list over\n")

unfoldable pub print_waiting : Kernel → ℕ → Run (List ℕ)
print_waiting k s =
    print_queue k thread_line (k.sem_at s).waiting_threads
      (text "Semaphore waiting thread list empty\n") (text "Semaphore waiting thread list:\n")
      (text "Semaphore waiting thread list over\n")

unfoldable pub sem_first_print : Kernel → Run (List ℕ)
sem_first_print k =
    let s = k.sem_table.first_semaphore in
    if s == 0 then done (print_str (text "No semaphores yet\n")) else print_waiting k s

-- the line of the semaphore `s` in entry `i`
unfoldable pub sem_line : Kernel → (i s : ℕ) → List ℕ
sem_line k i s =
    print_str (text "Semaphore ")
    ++ (print_u64 i
        ++ (print_str (text " ") ++ (print_i32 (k.sem_at s).val ++ print_str (text "\n"))))

abbrev pub and_print : Run (List ℕ) → Run (List ℕ) → Run (List ℕ)
and_print (done out) r = prepend out r
and_print panic r = panic
and_print undefined r = undefined
and_print out_of_fuel r = out_of_fuel

-- the loop of `__sem_all_print` from entry `i` on, with `rounds` entries to go
unfoldable pub print_sems : (rounds i : ℕ) → Kernel → Run (List ℕ)
print_sems zero i k = done []
print_sems (suc rounds) i k =
    let s = k.sem_table.semaphores i in
    let rest = print_sems rounds (suc i) k in
    if ltb i max_semaphores
    then prepend (sem_line k i s) (and_print (print_waiting k s) rest)
    else undefined

unfoldable pub sem_all_print : Kernel → Run (List ℕ)
sem_all_print k =
    prepend (print_mem (text "Semaphore count") k.sem_table.sem_cnt)
      (print_sems k.sem_table.sem_cnt 0 k)
