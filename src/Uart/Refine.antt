-- ===== src/Uart/Refine.antt =====
-- The ring of lib.c behaves as the queue that it stands for.
use vibeos_fpga.Common.{
  ℕ, zero, suc, ◌+◌, ◌-◌, ◌%◌, ◌<◌, ◌≡◌, ◌≢◌, refl, sym, ◌∙◌, ap, ap₂, inl, inr, none, some, List,
  [], ◌∷◌, ◌++◌, ◌==◌, true, false, if◌then◌else◌, u8, arith, length, get_or, set, Bool-cases,
  ==→eq, ==→ne, eq→==, length-set, get_or-set_self, get_or-set_ne,
}
use native.Mathlib.Decide.{ℕ_discrete}
use vibeos_fpga.Uart.{Reading, lib_getc, lib_isr, Uart, queue_size, next_index, push, pop}
use vibeos_fpga.Uart.Queue
use vibeos_fpga.Uart.Queue.{drop_oldest, capacity}

-- The indices are in range, and the array has its size and holds bytes.
pub record IsValid (u : Uart) : Type 0 where
  pub head_in : u.head < queue_size
  pub tail_in : u.tail < queue_size
  pub sized : length u.queue ≡ queue_size
  pub bytes : (i : ℕ) → get_or u.queue i 0 < 256

-- The `n` characters from index `h` on; the index goes round.
abbrev span : List ℕ → ℕ → ℕ → List ℕ
span q h zero = []
span q h (suc n) = get_or q (h % queue_size) 0 ∷ span q (suc h) n

abbrev held : Uart → ℕ
held u = (u.tail + queue_size - u.head) % queue_size

-- Oldest first.
abbrev pub contents : Uart → List ℕ
contents u = span u.queue u.head (held u)

length-span : (q : List ℕ) (h n : ℕ) → length (span q h n) ≡ n
length-span q h zero = refl
length-span q h (suc n) = ap suc (length-span q (suc h) n)

span-cong : (q : List ℕ) (a b n : ℕ) → a % queue_size ≡ b % queue_size → span q a n ≡ span q b n
span-cong q a b zero e = refl
span-cong q a b (suc n) e =
    ap₂ ◌∷◌ (ap (λ (t : ℕ). get_or q t 0) e) (span-cong q (suc a) (suc b) n (omega arith))

-- A write outside the span is not seen in it.
span-set :
    (q : List ℕ) (i v h n : ℕ)
    → ((k : ℕ) → k < n → i ≢ (h + k) % queue_size)
    → span (set q i v) h n ≡ span q h n
span-set q i v h zero away = refl
span-set q i v h (suc n) away =
    ap₂ ◌∷◌ (get_or-set_ne q i (h % queue_size) v 0 (λ e. away 0 (omega arith) (omega arith)))
      (span-set q i v (suc h) n (λ k p e. away (suc k) (omega arith) (omega arith)))

span-snoc :
    (q : List ℕ) (h n : ℕ) → span q h (suc n) ≡ span q h n ++ get_or q ((h + n) % queue_size) 0 ∷ []
span-snoc q h zero = ap (λ (t : ℕ). get_or q (t % queue_size) 0 ∷ []) (omega arith)
span-snoc q h (suc n) = ap (◌∷◌ (get_or q (h % queue_size) 0)) (
    span-snoc q (suc h) n
    ∙ ap (λ (t : ℕ). span q (suc h) n ++ get_or q (t % queue_size) 0 ∷ []) (omega arith))

-- The character written behind the span joins it.
span-write :
    (q : List ℕ) (h n v : ℕ)
    → length q ≡ queue_size
    → n < queue_size
    → span (set q ((h + n) % queue_size) v) h (suc n) ≡ span q h n ++ v ∷ []
span-write q h n v sized lt =
    span-snoc (set q ((h + n) % queue_size) v) h n
    ∙ ap₂ (λ xs (x : ℕ). xs ++ x ∷ [])
        (span-set q ((h + n) % queue_size) v h n (λ k p e. absurd (omega arith)))
        (get_or-set_self q ((h + n) % queue_size) v 0 (omega arith))

-- uart_input_push keeps the ring valid.
pub push-IsValid : (c : ℕ) {u : Uart} → IsValid u → IsValid (push c u)
unfolding push
push-IsValid c {u} v = record {
  head_in = ground (arith, v.head_in);
  tail_in = omega arith;
  sized = length-set u.queue u.tail (u8 c) ∙ v.sized;
  bytes = λ i. elim (ℕ_discrete u.tail i) [
    | yes e ↦
        rw (← e) (rw (get_or-set_self u.queue u.tail (u8 c) 0 (omega (arith, v))) (omega arith))
    | no ne ↦ rw (get_or-set_ne u.queue u.tail i (u8 c) 0 ne) (v.bytes i)
  ];
}

-- uart_input_pop keeps the ring valid.
pub pop-IsValid : {u : Uart} → IsValid u → IsValid (pop u).1
unfolding pop
pop-IsValid {u} v = elim (Bool-cases (u.head == u.tail)) [
  | inl e ↦ rw e v
  | inr ne ↦
      rw ne
        (record { head_in = omega arith; tail_in = v.tail_in; sized = v.sized; bytes = v.bytes })
]

-- The ring with room left, and the full one, over any number of characters held.
room_case :
    (q : List ℕ) (h t c n next : ℕ)
    → length q ≡ queue_size
    → t ≡ (h + n) % queue_size
    → next ≡ suc n
    → n < capacity
    → span (set q t c) h next ≡ Queue.push c (span q h n)
unfolding Queue.push
room_case q h t c n next sized at len lt =
    rw (at, len)
      (span-write q h n c sized (omega arith)
        ∙ ap (λ xs. xs ++ c ∷ []) (sym (kept (span q h n) (omega (arith, length-span q h n)))))
  where
    kept :
        (xs : List ℕ)
        → length xs < capacity
        → (if length xs == capacity then drop_oldest xs else xs) ≡ xs
    kept xs h = ground arith

full_case :
    (q : List ℕ) (h h' t c m next : ℕ)
    → length q ≡ queue_size
    → t ≡ (suc h + m) % queue_size
    → h' % queue_size ≡ suc h % queue_size
    → next ≡ suc m
    → suc m ≡ capacity
    → span (set q t c) h' next ≡ Queue.push c (span q h (suc m))
unfolding Queue.push
full_case q h h' t c m next sized at moved len cap =
    rw (at, len)
      (span-cong (set q ((suc h + m) % queue_size) c) h' (suc h) (suc m) moved
        ∙ span-write q (suc h) m c sized (omega arith)
        ∙ ap (λ xs. xs ++ c ∷ [])
            (sym (
              dropped (get_or q (h % queue_size) 0) (span q (suc h) m)
                (omega (arith, length-span q (suc h) m)))))
  where
    dropped :
        (x : ℕ) (xs : List ℕ)
        → suc (length xs) ≡ capacity
        → (if length (x ∷ xs) == capacity then drop_oldest (x ∷ xs) else x ∷ xs) ≡ xs
    dropped x xs e = rw (eq→== (suc (length xs)) capacity e)

-- uart_input_push puts the character at the end, and drops the oldest one from a full ring.
pub contents-push :
    (c : ℕ) (u : Uart) → IsValid u → contents (push c u) ≡ Queue.push (u8 c) (contents u)
unfolding push
contents-push c u v = elim (Bool-cases (next_index u.tail == u.head)) [
  | inl full ↦
      let e : next_index u.tail ≡ u.head = ==→eq _ _ full in
      rw full (
        full_case u.queue u.head (next_index u.head) u.tail (u8 c) 1022 _ v.sized
          (omega (arith, v, e)) (omega arith) (omega (arith, v, e)) refl
        ∙ ap (λ (n : ℕ). Queue.push (u8 c) (span u.queue u.head n)) {x = 1023}
            (omega (arith, v, e)))
  | inr room ↦
      let ne : next_index u.tail ≢ u.head = ==→ne _ _ room in
      rw room (
        room_case u.queue u.head u.tail (u8 c) (held u) _ v.sized (omega (arith, v))
          (omega (arith, v, ne)) (omega (arith, v, ne)))
]

pop_case :
    (q : List ℕ) (h n : ℕ) (x : ℕ) (xs : List ℕ)
    → 0 < n
    → get_or q (h % queue_size) 0 ≡ x
    → span q (suc h) (n - 1) ≡ xs
    → Queue.pop (span q h n) ≡ (some x, xs)
unfolding Queue.pop
pop_case q h zero x xs pos e f = absurd (omega arith)
pop_case q h (suc n) x xs pos e f =
    ap₂ (λ (y : ℕ) ys. (some y, ys)) e (ap (span q (suc h)) (omega arith) ∙ f)

pop_empty : (q : List ℕ) (h n : ℕ) → n ≡ 0 → Queue.pop (span q h n) ≡ (none, span q h n)
unfolding Queue.pop
pop_empty q h zero e = refl
pop_empty q h (suc n) e = absurd (omega arith)

-- uart_input_pop takes the oldest character, or none from the empty ring.
pub contents-pop : (u : Uart) → IsValid u → ((pop u).0, contents (pop u).1) ≡ Queue.pop (contents u)
unfolding pop
contents-pop u v = elim (Bool-cases (u.head == u.tail)) [
  | inl e ↦ rw e (sym (pop_empty u.queue u.head (held u) (omega (arith, v, ==→eq _ _ e))))
  | inr ne ↦
      let apart : u.head ≢ u.tail = ==→ne _ _ ne in
      rw ne (
        sym (
          pop_case u.queue u.head (held u) _ _ (omega (arith, v, apart))
            (whole (u.head % queue_size) (omega (arith, v)))
            (span-cong u.queue (suc u.head) (next_index u.head) (held u - 1) (omega arith)
              ∙ ap (span u.queue (next_index u.head)) (omega (arith, v, apart)))))
]
  where
    whole : (i : ℕ) → i ≡ u.head → get_or u.queue i 0 ≡ u8 (get_or u.queue u.head 0)
    whole i e = rw e (omega (arith, v.bytes u.head))

-- What the code reads from the device before the first look that shows no character: a look whose
-- first read of the register is a carriage return gives a line feed, and any other look gives the
-- second read.
pub data Received : List Reading → List ℕ → Type 0 where
  out_of_looks : Received [] []
  nothing_ready : {r : Reading} {rs : List Reading} → r.ready ≡ false → Received (r ∷ rs) []
  line_end :
      {r : Reading} {rs : List Reading} {cs : List ℕ}
      → r.ready ≡ true
      → r.first ≡ 13
      → Received rs cs
      → Received (r ∷ rs) (10 ∷ cs)
  other_char :
      {r : Reading} {rs : List Reading} {cs : List ℕ}
      → r.ready ≡ true
      → r.first ≢ 13
      → Received rs cs
      → Received (r ∷ rs) (r.second ∷ cs)

abbrev pub push_all : List ℕ → List ℕ → List ℕ
push_all [] q = q
push_all (c ∷ cs) q = push_all cs (Queue.push (u8 c) q)

abbrev pub Handled : List Reading → Uart → Type 0
Handled rs u =
    (cs : List ℕ) × Received rs cs
    × (contents (lib_isr rs u) ≡ push_all cs (contents u))
    × IsValid (lib_isr rs u)

-- A look that gives a character: the rest of the handler goes on from the ring that has it.
looked :
    (c : ℕ) (r : Reading) (rs : List Reading) (u : Uart)
    → lib_getc r ≡ some c
    → ((cs : List ℕ) → Received rs cs → Received (r ∷ rs) (c ∷ cs))
    → Handled rs (push c u)
    → IsValid u
    → Handled (r ∷ rs) u
unfolding lib_isr
looked c r rs u e more (cs, got, same, valid) v =
    let step : lib_isr (r ∷ rs) u ≡ lib_isr rs (push c u) = rw (e, lib_isr) refl in
    (
      c ∷ cs,
      more cs got,
      ap contents step ∙ (same ∙ ap (push_all cs) (contents-push c u v)),
      rw (step) valid,
    )

-- The interrupt handler stops at the first look that shows no character. It queues, in order, what
-- it reads before: a line feed for a look whose first read of the register is a carriage return, and
-- else the second read of that look. It keeps the ring valid.
pub contents-lib_isr : (rs : List Reading) (u : Uart) → IsValid u → Handled rs u
unfolding lib_isr lib_getc
contents-lib_isr [] u v = ([], out_of_looks, refl, v)
contents-lib_isr (r ∷ rs) u v = elim (Bool-cases r.ready) [
  | inr idle ↦
      let step : lib_isr (r ∷ rs) u ≡ u = simp (idle, lib_isr, lib_getc) in
      ([], nothing_ready idle, ap contents step, rw (step) v)
  | inl ready ↦ elim (Bool-cases (r.first == b'\r')) [
    | inl e ↦
        looked 10 r rs u (simp (lib_getc, ready, e)) (λ cs. line_end ready (==→eq _ _ e))
          (contents-lib_isr rs (push 10 u) (push-IsValid 10 v)) v
    | inr e ↦
        looked r.second r rs u (simp (lib_getc, ready, e)) (λ cs. other_char ready (==→ne _ _ e))
          (contents-lib_isr rs (push r.second u) (push-IsValid r.second v)) v
  ]
]
