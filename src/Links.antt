-- ===== src/Links.antt =====
-- The circular doubly linked lists of h/list.h and src/list.c, and the two ways in which the kernel
-- uses them as queues: scheduler.c, semaphore.c and console.c each spell out the same code.
pub mod Queue
pub mod Insert
pub mod Unlink
use kernel_riscv.Base.{ℕ, ◌==◌, if◌then◌else◌}

-- The memory of all `list_t` nodes. A node is named by the address of the structure that it stands
-- in, which is what `container_of` computes; 0 is the null pointer.
pub record Links : Type 0 where
  pub next : ℕ → ℕ
  pub prev : ℕ → ℕ

abbrev pub update : (ℕ → ℕ) → ℕ → ℕ → ℕ → ℕ
update f a v b = if b == a then v else f b

abbrev pub set_next : Links → ℕ → ℕ → Links
set_next l a v = record l { next = update l.next a v }

abbrev pub set_prev : Links → ℕ → ℕ → Links
set_prev l a v = record l { prev = update l.prev a v }

unfoldable pub list_insert : Links → (head new_node : ℕ) → Links
list_insert l head new_node =
    let l1 = set_prev l new_node (l.prev head) in
    let l2 = set_next l1 new_node head in
    let l3 = set_next l2 (l2.prev head) new_node in set_prev l3 head new_node

-- `node->prev->next = node->next; node->next->prev = node->prev;`
unfoldable pub unlink : Links → ℕ → Links
unlink l node =
    let l1 = set_next l (l.prev node) (l.next node) in set_prev l1 (l1.next node) (l1.prev node)

-- Appends to the queue at `head`; the result is its new head.
unfoldable pub push_node : Links → (head node : ℕ) → Links × ℕ
push_node l head node =
    if head == 0
    then (set_prev (set_next l node node) node node, node)
    else (list_insert l head node, head)

-- Takes the first node, which is `head` itself; the result is the new head.
unfoldable pub pop_node : Links → (head : ℕ) → Links × ℕ
pop_node l head =
    let l1 = unlink l head in if l.next head == head then (l, 0) else (l1, l1.next head)
