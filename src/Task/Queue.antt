-- ===== src/Task/Queue.antt =====
-- The run queue of one level: the first `running` entries of its array.
use vibeos_fpga.Common.{
  ℕ, zero, suc, ◌+◌, ◌-◌, ◌≤◌, ◌<◌, ◌≡◌, ◌≢◌, refl, sym, ◌∙◌, ap, false, ◌⊎◌, inl, inr, List, [],
  ◌∷◌, ◌++◌, ◌==◌, if◌then◌else◌, arith, length, get_or, set, take, Bool-cases, ==→eq, ==→ne, eq→==,
  ne→==, length-take, length-set,
}
use native.Mathlib.Nat.{sub-zero}
use vibeos_fpga.Common.Sums.{total, total-add, total-one, total-zero, total-lt}
use native.Mathlib.Decide.{ℕ_discrete}
use vibeos_fpga.Task.{TaskLevel, Sched, find_task, shift_tasks, is_bad_task}

abbrev pub queue : TaskLevel → List ℕ
queue tl = take tl.running tl.tasks

-- How often `x` stands in a list.
abbrev pub count : ℕ → List ℕ → ℕ
count x [] = 0
count x (y ∷ ys) = (if x == y then 1 else 0) + count x ys

pub count-append : (x : ℕ) (xs ys : List ℕ) → count x (xs ++ ys) ≡ count x xs + count x ys
count-append x [] ys = omega arith
count-append x (y ∷ xs) ys = omega (arith, count-append x xs ys)

-- An entry stored behind the queue joins it at the end.
pub take-set_end :
    (xs : List ℕ) (n v : ℕ) → n < length xs → take (suc n) (set xs n v) ≡ take n xs ++ v ∷ []
take-set_end [] n v h = absurd (omega arith)
take-set_end (x ∷ xs) zero v h = refl
take-set_end (x ∷ xs) (suc n) v h = ap (◌∷◌ x) (take-set_end xs n v (omega arith))

-- The list without its entry at `i`.
abbrev pub erase_at : ℕ → List ℕ → List ℕ
erase_at i [] = []
erase_at zero (x ∷ xs) = xs
erase_at (suc i) (x ∷ xs) = x ∷ erase_at i xs

pub count-erase_at :
    (x i : ℕ) (xs : List ℕ)
    → i < length xs
    → count x xs ≡ count x (erase_at i xs) + (if x == get_or xs i 0 then 1 else 0)
count-erase_at x i [] h = absurd (omega arith)
count-erase_at x zero (y ∷ xs) h = omega arith
count-erase_at x (suc i) (y ∷ xs) h = omega (arith, count-erase_at x i xs (omega arith))

pub length-erase_at : (i : ℕ) (xs : List ℕ) → i < length xs → length (erase_at i xs) + 1 ≡ length xs
length-erase_at i [] h = absurd (omega arith)
length-erase_at zero (y ∷ xs) h = omega arith
length-erase_at (suc i) (y ∷ xs) h = omega (arith, length-erase_at i xs (omega arith))

module _ (s : Sched) where
  -- The first `n` entries are ids of tasks that exist.
  abbrev pub AreTasks : ℕ → List ℕ → Type 0
  AreTasks n xs = (k : ℕ) → k < n → is_bad_task s (get_or xs k 0) ≡ false

  shift_tasks-cons :
      (left i x : ℕ) (xs : List ℕ)
      → shift_tasks s left (suc i) (x ∷ xs) ≡ x ∷ shift_tasks s left i xs
  unfolding shift_tasks
  shift_tasks-cons zero i x xs = refl
  shift_tasks-cons (suc left) i x xs =
      let e : suc i + 1 ≡ suc (i + 1) = omega arith in rw e (shift_tasks-cons left (suc i) x _)

  shift_tasks-front :
      (left x : ℕ) (xs : List ℕ)
      → left ≤ length xs
      → AreTasks (suc left) (x ∷ xs)
      → take left (shift_tasks s left 0 (x ∷ xs)) ≡ take left xs
  unfolding shift_tasks
  shift_tasks-front zero x xs h v = refl
  shift_tasks-front (suc left) x [] h v = absurd (omega arith)
  shift_tasks-front (suc left) x (y ∷ xs) h v =
      rw (one, v 1 (omega arith), shift_tasks-cons left 0 y (y ∷ xs))
        (ap (◌∷◌ y) (shift_tasks-front left y xs (omega arith) (λ k p. v (suc k) (omega arith))))
    where
      one : ◌≡◌ {A = ℕ} (0 + 1) 1
      one = omega arith

  -- Closing the gap at `i` takes the entry there out of the queue, in order.
  pub shift_tasks_lem :
      (i m : ℕ) (xs : List ℕ)
      → i ≤ m
      → m < length xs
      → AreTasks (suc m) xs
      → take m (shift_tasks s (m - i) i xs) ≡ erase_at i (take (suc m) xs)
  shift_tasks_lem i m [] h lt v = absurd (omega arith)
  shift_tasks_lem zero m (x ∷ xs) h lt v = rw sub-zero (shift_tasks-front m x xs (omega arith) v)
  shift_tasks_lem (suc i) zero (x ∷ xs) h lt v = absurd (omega arith)
  shift_tasks_lem (suc i) (suc m) (x ∷ xs) h lt v =
      rw (gap, shift_tasks-cons (m - i) i x xs)
        (ap (◌∷◌ x)
          (shift_tasks_lem i m xs (omega arith) (omega arith) (λ k p. v (suc k) (omega arith))))
    where
      gap : suc m - suc i ≡ m - i
      gap = omega arith

  pub length-shift_tasks : (left i : ℕ) (xs : List ℕ) → length (shift_tasks s left i xs) ≡ length xs
  unfolding shift_tasks
  length-shift_tasks zero i xs = refl
  length-shift_tasks (suc left) i xs = length-shift_tasks left (suc i) _ ∙ length-set xs i _

-- The search of task_remove: an entry equal to the task, or the end if there is none.
pub find_task_lem :
    (xs : List ℕ) (x left i end : ℕ)
    → i + left ≡ end
    → ((find_task xs x left i < end)
        × (i ≤ find_task xs x left i)
        × (get_or xs (find_task xs x left i) 0 ≡ x))
      ⊎ ((find_task xs x left i ≡ end) × ((k : ℕ) → i ≤ k → k < end → get_or xs k 0 ≢ x))
unfolding find_task
find_task_lem xs x zero i end e = inr (omega arith, λ k p q. absurd (omega arith))
find_task_lem xs x (suc left) i end e = elim (Bool-cases (get_or xs i 0 == x)) [
  | inl hit ↦ rw hit (inl (omega arith, omega arith, ==→eq _ _ hit))
  | inr miss ↦ rw miss (elim (find_task_lem xs x left (suc i) end (omega arith)) [
    | inl (lt, ge, at) ↦ inl (lt, omega arith, at)
    | inr (at_end, none_there) ↦ inr (
      at_end,
      λ k p q. elim (ℕ_discrete i k) [
        | yes here ↦ rw (← here) (==→ne _ _ miss)
        | no past ↦ none_there k (omega arith) q
      ],
    )
  ])
]

pub count_absent :
    (x n : ℕ) (xs : List ℕ)
    → ((k : ℕ) → k < n → get_or xs k 0 ≢ x)
    → n ≤ length xs
    → count x (take n xs) ≡ 0
count_absent x zero xs h le = refl
count_absent x (suc n) [] h le = absurd (omega arith)
count_absent x (suc n) (y ∷ xs) h le =
    ground
      (arith, h 0 (omega arith), count_absent x n xs (λ k p. h (suc k) (omega arith)) (omega arith))

pub get_or-take : (n i : ℕ) (xs : List ℕ) → i < n → get_or (take n xs) i 0 ≡ get_or xs i 0
get_or-take zero i xs h = absurd (omega arith)
get_or-take (suc n) i [] h = refl
get_or-take (suc n) zero (x ∷ xs) h = refl
get_or-take (suc n) (suc i) (x ∷ xs) h = get_or-take n i xs (omega arith)

pub length-queue : (tl : TaskLevel) → tl.running ≤ length tl.tasks → length (queue tl) ≡ tl.running
length-queue tl h = omega (arith, length-take tl.running tl.tasks)

-- Every entry below `n`: the length is the sum of the counts.
length-total :
    (n : ℕ) (xs : List ℕ)
    → ((k : ℕ) → k < length xs → get_or xs k 0 < n)
    → total (λ x. count x xs) 0 n ≡ length xs
length-total n [] h = total-zero 0 n
length-total n (y ∷ xs) h = omega (
  arith,
  total-add (λ x. if x == y then 1 else 0) (λ x. count x xs) 0 n,
  total-one y 0 n (omega arith) (omega (arith, h 0 (omega arith))),
  length-total n xs (λ k p. h (suc k) (omega arith)),
)

-- Entries below `n`, all different, one of the numbers below `n` missing: fewer than `n` of them.
pub length-lt :
    (n x : ℕ) (xs : List ℕ)
    → ((k : ℕ) → k < length xs → get_or xs k 0 < n)
    → ((y : ℕ) → count y xs ≤ 1)
    → x < n
    → count x xs ≡ 0
    → length xs < n
length-lt n x xs small once lt missing = omega (
  arith,
  length-total n xs small,
  total-lt (λ y. count y xs) 0 n x once (omega arith) (omega arith) missing,
)

pub count_present : (i : ℕ) (xs : List ℕ) → i < length xs → 0 < count (get_or xs i 0) xs
count_present i [] h = absurd (omega arith)
count_present zero (x ∷ xs) h = ground arith
count_present (suc i) (x ∷ xs) h = omega (arith, count_present i xs (omega arith))

-- The list without `x`.
abbrev pub without : ℕ → List ℕ → List ℕ
without x [] = []
without x (y ∷ ys) = if x == y then without x ys else y ∷ without x ys

pub without-absent : (x : ℕ) (xs : List ℕ) → count x xs ≡ 0 → without x xs ≡ xs
without-absent x [] h = refl
without-absent x (y ∷ ys) h = elim (ℕ_discrete x y) [
  | yes e ↦ absurd (ground (arith, eq→== x y e))
  | no ne ↦ rw (ne→== x y ne) (ap (◌∷◌ y) (without-absent x ys (omega arith)))
]

pub erase_at-without :
    (x i : ℕ) (xs : List ℕ)
    → i < length xs
    → get_or xs i 0 ≡ x
    → count x xs ≤ 1
    → erase_at i xs ≡ without x xs
erase_at-without x i [] h e once = absurd (omega arith)
erase_at-without x zero (y ∷ ys) h e once =
    rw (eq→== x y (sym e)) (sym (without-absent x ys (ground (arith, eq→== x y (sym e)))))
erase_at-without x (suc i) (y ∷ ys) h e once = elim (ℕ_discrete x y) [
  | yes same ↦ absurd (ground (arith, eq→== x y same, count_present i ys (omega arith)))
  | no ne ↦ rw (ne→== x y ne) (ap (◌∷◌ y) (erase_at-without x i ys (omega arith) e (omega arith)))
]

pub count-without :
    (x y : ℕ) (xs : List ℕ) → count x (without y xs) ≡ (if y == x then 0 else count x xs)
count-without x y [] = ground arith
count-without x y (z ∷ zs) = ground (arith, count-without x y zs)
