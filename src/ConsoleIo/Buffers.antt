-- ===== src/ConsoleIo/Buffers.antt =====
-- The two buffers of src/console.c as queues of characters.
use kernel_riscv.Base.{
  ℕ, zero, suc, ◌+◌, ◌-◌, ◌<◌, ◌≤◌, ◌≡◌, ◌≢◌, refl, ◌∙◌, ap, List, [], ◌∷◌, ◌++◌, arith, pos, eq→==,
  ne→==, length,
}
use kernel_riscv.Kernel.{Console, Kernel, put}
use kernel_riscv.Scheduler.{scheduler_current}
use kernel_riscv.ConsoleIo.{shift_from, take_char, getc}

-- the `n` characters from entry `i` on
abbrev pub chars : (ℕ → ℕ) → (i n : ℕ) → List ℕ
chars f i zero = []
chars f i (suc n) = f i ∷ chars f (suc i) n

shift_from-below : (n i by : ℕ) (f : ℕ → ℕ) (x : ℕ) → x < i → shift_from n i by f x ≡ f x
unfolding shift_from
shift_from-below zero i by f x h = refl
shift_from-below (suc n) i by f x h =
    shift_from-below n (suc i) by (put f i (f (by + i))) x (omega arith)
    ∙ rw (ne→== x i (omega arith))

pub chars-cong :
    (f g : ℕ → ℕ) (i n : ℕ) → ((x : ℕ) → i ≤ x → x < n + i → f x ≡ g x) → chars f i n ≡ chars g i n
chars-cong f g i zero e = refl
chars-cong f g i (suc n) e =
    rw
      (
        e i (omega arith) (omega arith),
        chars-cong f g (suc i) n (λ x h b. e x (omega arith) (omega arith)),
      )
      refl

pub chars-append : (f : ℕ → ℕ) (i n m : ℕ) → chars f i (n + m) ≡ chars f i n ++ chars f (n + i) m
chars-append f i zero m =
    let e : 0 + m ≡ m = omega arith in let d : 0 + i ≡ i = omega arith in rw (e, d) refl
chars-append f i (suc n) m =
    let e : suc n + m ≡ suc (n + m) = omega arith in
    let d : suc n + i ≡ n + suc i = omega arith in
    rw (e, d) (ap (λ l. f i ∷ l) (chars-append f (suc i) n m))

-- The copying loop moves the characters down.
pub chars-shift_from :
    (n i by : ℕ) (f : ℕ → ℕ) → chars (shift_from n i by f) i n ≡ chars f (by + i) n
unfolding shift_from
chars-shift_from zero i by f = refl
chars-shift_from (suc n) i by f =
    let g = put f i (f (by + i)) in
    let e : by + suc i ≡ suc (by + i) = omega arith in
    rw
      (
        shift_from-below n (suc i) by g i (omega arith),
        chars-shift_from n (suc i) by g,
        chars-cong g f (by + suc i) n (λ x h b. rw (ne→== x i (omega arith))),
        eq→== i i refl,
        e,
      )
      refl

pub chars-uncons :
    (f : ℕ → ℕ) (i n x : ℕ) (xs : List ℕ)
    → chars f i n ≡ x ∷ xs
    → (n ≢ 0) × (f i ≡ x) × (chars f (suc i) (n - 1) ≡ xs)
chars-uncons f i zero x xs e = absurd (cc e)
chars-uncons f i (suc n) x xs e =
    let d : suc n - 1 ≡ n = omega arith in (omega arith, cc e, rw d (cc e))

pub length-chars : (f : ℕ → ℕ) (i n : ℕ) → length (chars f i n) ≡ n
length-chars f i zero = refl
length-chars f i (suc n) = ap suc (length-chars f (suc i) n)

-- A character stored behind the last one is appended.
pub chars-put : (f : ℕ → ℕ) (n x : ℕ) → chars (put f n x) 0 (n + 1) ≡ chars f 0 n ++ (x ∷ [])
chars-put f n x =
    let e : n + 0 ≡ n = omega arith in
    chars-append (put f n x) 0 n 1
    ∙ rw (chars-cong (put f n x) f 0 n (λ y h b. rw (ne→== y n (omega arith))), e, eq→== n n refl)
        refl

-- the characters waiting in each buffer
abbrev pub received : Console → List ℕ
received c = chars c.receive_buffer 0 c.receive_cnt

abbrev pub unsent : Console → List ℕ
unsent c = chars c.send_buffer 0 c.send_cnt

-- What `__getc` leaves when `x` is the first character and `xs` are the others.
pub record Took (k k' : Kernel) (x : ℕ) (xs : List ℕ) : Type 0 where
  pub rest : received k'.console ≡ xs
  pub seen : (k'.context_at (k.thread_at (scheduler_current k)).sp).a0 ≡ x
  pub unsent_same : unsent k'.console ≡ unsent k.console
  pub scheduler : k'.scheduler ≡ k.scheduler

-- With characters in the receive buffer, `__getc` returns 0: the first of them is in the context that
-- the structure of the running thread points to, the others stay in their order, and no thread is
-- switched.
pub getc-Took :
    (k : Kernel) (x : ℕ) (xs : List ℕ)
    → received k.console ≡ x ∷ xs
    → ((getc k).0 ≡ pos 0) × Took k (getc k).1 x xs
unfolding getc take_char
getc-Took k x xs h =
    let c = k.console in
    let (some_char, first, others) = chars-uncons c.receive_buffer 0 c.receive_cnt x xs h in
    rw (ne→== c.receive_cnt 0 some_char, getc)
      (
        refl,
        record {
          rest = chars-shift_from (c.receive_cnt - 1) 0 1 c.receive_buffer ∙ others;
          seen = rw (eq→== p p refl) first;
          unsent_same = refl;
          scheduler = refl;
        },
      )
  where
    p : ℕ
    p = (k.thread_at (scheduler_current k)).sp
