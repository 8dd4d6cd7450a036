-- ===== src/Semaphores/Removal.antt =====
-- `__sem_remove_thread`, which the timer calls when the wait of a thread has timed out.
use kernel_riscv.Base.{
  ℕ, ◌≡◌, refl, ◌∙◌, ap, sym, subst, false, List, [], ◌∷◌, eq→==, ne→==, to_u64, ◌==◌,
}
use kernel_riscv.Memory.{done}
use kernel_riscv.Links.{unlink, pop_node}
use kernel_riscv.Links.Unlink.{pop_node-unlink}
use kernel_riscv.Links.Queue.{NotIn, IsQueue, pop_node-Popped}
use kernel_riscv.Kernel.{Kernel, set_a0, set_sem}
use kernel_riscv.Semaphores.{up_i32, raise_val, sem_remove_thread, sem_wait_timeout}

-- What the call leaves when `w`, `x` and `ws` wait, whichever thread it is for.
pub record HeadLost (k k' : Kernel) (s t w x : ℕ) (ws : List ℕ) : Type 0 where
  pub ring : IsQueue k'.links x (x ∷ ws)
  pub outside : NotIn w (x ∷ ws)
  pub head : (k'.sem_at s).waiting_threads ≡ w
  pub val : (k'.sem_at s).val ≡ up_i32 (k.sem_at s).val
  pub result : (k'.context_at (k.thread_at t).sp).a0 ≡ to_u64 sem_wait_timeout

module _ (k : Kernel) (s t w : ℕ) where
  -- With several threads waiting on a semaphore, the call for any thread `t` takes the first of
  -- them, `w`, out of the ring, and leaves the semaphore's head pointer at `w`: the ring is that of
  -- the others, with `t` still in it if `t` is not `w`, and the pointer is outside it. The value is
  -- raised, and `t` will see the code for a timeout.
  pub sem_remove_thread-HeadLost :
      (x : ℕ) (ws : List ℕ)
      → IsQueue k.links (k.sem_at s).waiting_threads (w ∷ x ∷ ws)
      → (k' : Kernel) × (sem_remove_thread s t k ≡ done (tt, k')) × HeadLost k k' s t w x ws
  unfolding sem_remove_thread raise_val
  sem_remove_thread-HeadLost x ws q = (
    k2,
    rw (parts.2, parts.1) refl,
    record {
      ring = subst (λ h. IsQueue k2.links h (x ∷ ws)) popped.first popped;
      outside = q.distinct.0;
      head = rw (eq→== s s refl) q.first;
      val = rw (eq→== s s refl) refl;
      result = rw (eq→== (k.thread_at t).sp (k.thread_at t).sp refl) refl;
    },
  )
    where
      head : ℕ
      head = (k.sem_at s).waiting_threads

      k1 : Kernel
      k1 = raise_val s k

      k2 : Kernel
      k2 = set_a0 t (to_u64 sem_wait_timeout) (record k1 { links = unlink k.links head })

      parts :
          (pop_node k.links head ≡ (unlink k.links head, (unlink k.links head).next head))
          × ((head == k.links.next head) ≡ false)
          × ((head == 0) ≡ false)
      parts = pop_node-unlink k.links head w x ws q

      popped : IsQueue (unlink k.links head) ((unlink k.links head).next head) (x ∷ ws)
      popped =
          subst (λ r. IsQueue r.0 r.1 (x ∷ ws)) parts.0
            (pop_node-Popped k.links head w (x ∷ ws) q).queue

  -- With `w` alone waiting, the call empties the queue and raises the value by one, but no saved
  -- register changes: the thread does not see the code for a timeout.
  pub sem_remove_thread-alone :
      IsQueue k.links (k.sem_at s).waiting_threads (w ∷ [])
      → (k' : Kernel) × (sem_remove_thread s t k ≡ done (tt, k'))
        × (k'.context_at ≡ k.context_at)
        × (k'.sem_at s ≡ record (k.sem_at s) { val = up_i32 (k.sem_at s).val; waiting_threads = 0 })
  unfolding sem_remove_thread raise_val
  sem_remove_thread-alone q = (
    k2,
    rw (ne→== head 0 (λ e. q.nonnull.0 (sym e ∙ q.first)), eq→== head (k.links.next head) back)
        refl,
    refl,
    rw (eq→== s s refl) refl,
  )
    where
      head : ℕ
      head = (k.sem_at s).waiting_threads

      k1 : Kernel
      k1 = raise_val s k

      k2 : Kernel
      k2 = set_sem s (record (k1.sem_at s) { waiting_threads = 0 }) k1

      back : head ≡ k.links.next head
      back = q.first ∙ sym (ap k.links.next q.first ∙ q.linked.0)
