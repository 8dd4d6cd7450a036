-- ===== src/Lib.antt =====
-- A model of a small kernel for RISC-V with preemptive threads, semaphores, a sleep queue, a
-- console and a block allocator, and proofs about it. Paths below are those of the repository.
--
-- The kernel is entered by irq_wrap (src/trap.S), which saves the registers in a context on the
-- stack of the running thread and calls irq_handler (src/main.c). That calls the scheduler, the
-- semaphores, the console and the allocator; each of these moves threads between circular lists
-- that run through the threads' own list_node. A call that blocks exchanges the running thread by
-- yield.
--
-- The files, and what they model:
--
-- - Memory.antt: src/mem.c. The index is a function from entries to signed numbers; u64 arithmetic
--   is written out with its wrap-around (Base/Int.antt). Memory/Segments.antt is the abstract
--   heap, a list of runs with first fit and release; Memory/Tiles.antt says when an index
--   represents a list of runs.
-- - Links.antt: src/list.c and the queue code that scheduler.c, semaphore.c and console.c repeat.
--   Links/Queue.antt relates a ring of nodes to a queue; Links/Insert.antt is about insertion in
--   front of any node, Links/Unlink.antt about taking any node out.
-- - Kernel.antt: the state shared by the parts, and the monad of code that can panic.
-- - Scheduler.antt, Timer.antt: src/scheduler.c, the latter __scheduler_tick.
--   Scheduler/Sleepers.antt and its child modules relate the chain of deltas to a list of wake-up
--   times and are about setting a timeout (Sleep.antt) and removing one (Cancel.antt,
--   Dangling.antt); the child modules of Timer.antt are about the loop of a tick, a tick, and
--   several ticks in a row.
-- - Threads.antt: src/thread.c; its child modules are about the switch, creating a thread, and its
--   end. Semaphores.antt: src/semaphore.c, with child modules for values, blocking, waking,
--   closing, and the removal of a thread whose wait timed out.
-- - ConsoleIo.antt: src/console.c. Its child modules view both buffers as queues of characters,
--   ConsoleIo/Sharing.antt says how waiting threads share out what came in.
-- - Trap.antt: irq_handler of src/main.c. Trap/RoundRobin.antt is about turns, Trap/Slices.antt
--   about the timer; Trap/Sharing.antt and its child modules relate any order of turns and of
--   operations on a semaphore to an abstract machine. Boot.antt: main of src/main.c;
--   Boot/Booted.antt is about the state that it reaches.
-- - Trap/Entry.antt: irq_wrap of src/trap.S.
-- - Syscalls.antt: src/syscall_c.c, with the trap as a parameter; Syscalls/Cpp.antt and its child
--   modules: the classes of src/syscall_cpp.cpp. Syscalls/Returning.antt, Syscalls/Reading.antt
--   and Syscalls/Creating.antt put irq_wrap in for the trap.
-- - System.antt: the kernel as a whole. System/Lines.antt keeps several circular lists apart,
--   System/Machine.antt is an abstract machine of queues with any number of semaphores,
--   System/Shows.antt says when a kernel shows a machine, System/Calls.antt and System/Input.antt,
--   with their child modules, are about the operations, System/Traps.antt and its child modules
--   about irq_handler, System/Presence.antt about where the threads are, System/Executions.antt
--   about traps in a row, System/Started.antt about those from power-on.
-- - Printing.antt: the printers of src/kernel.c; Printing/Reports.antt: the reports of src/mem.c,
--   src/scheduler.c and src/semaphore.c, with Printing/Rings.antt and Printing/Heap.antt about
--   them; Printing/Output.antt: the printers' characters as calls of __putc, __panic and __stop.
-- - Tests.antt: concrete runs, and the theorems at concrete inputs.
--
-- A structure in the heap is named by its address and kept in a map for its type; a list node is
-- named by the structure that it stands in, as container_of computes it. So two types never share
-- memory in the model, also after a structure is freed. A call of __panic ends a run, since __stop
-- turns the machine off. The store of a sleeper's entry through a null pointer, and one past the
-- array of semaphores, end it too, as undefined; a semaphore's handle 0 is an address like others.
-- A semaphore's value is an i32, and the step past one of its ends, which C leaves undefined,
-- wraps (Semaphores/Values.antt: within its ends it is a number). A context has the eight
-- registers that the kernel reads or writes of the 32 that irq_wrap saves, and what is said of
-- registers is said of these.
--
-- Loops: the one of __mem_alloc moves on by a block a round and has n_mem_blocks + 1 rounds of
-- fuel, which mem_alloc-first_fit and mem_alloc-exhausted show to be enough. Walks over lists of
-- heap structures have n_mem_blocks rounds, since each structure takes a block. The console's
-- loops are bounded by their buffers, the printers' by the powers of ten or sixteen in a word.
--
-- Parameters: the bounds of the heap (lib/hw.h), the console controller, the interrupt controller,
-- the address of __thread_wrapper, and, in Syscalls.antt, the trap and all that runs until the
-- thread goes on. Handles that a call writes to user memory are returned by the kernel's
-- functions, and left out by irq_handler.
--
-- The whole-kernel invariant says nothing of a tick with sleepers, nor of calls that use the
-- allocator: those are treated by themselves.
--
-- Not modelled: the debug output, which is off, src/ubsan.c, which is another project's, the
-- interrupt window in the last loop of main, and the tests.
pub mod Base
pub mod Memory
pub mod Links
pub mod Kernel
pub mod Scheduler
pub mod Threads
pub mod Semaphores
pub mod Timer
pub mod ConsoleIo
pub mod Trap
pub mod System
pub mod Boot
pub mod Printing
pub mod Tests
pub mod Syscalls
