-- ===== src/Fs/Dirs/Slots.antt =====
-- vibeos/fs.c and vibeos/user.c: what the search for an entry finds.
use vibeos_fpga.Strings.{strcmp, strcmp_same}
use vibeos_fpga.Fs.{
  Entry, Dir, Fs, as_dir, dir_block, write_block, empty_entry, stored_entries, is_free,
}
use vibeos_fpga.Fs.Dirs.{find_from, matches, same_name, write_entry, load_current_dir}
use vibeos_fpga.Fs.Blocks.Invariant.{prepare-ready}
use vibeos_fpga.Common.{
  ℕ, zero, suc, ◌+◌, ◌<◌, ◌≡◌, ◌≢◌, refl, ap, Bool, true, false, ◌⊎◌, inl, inr, Option, none, some,
  List, [], ◌∷◌, ◌++◌, ◌==◌, arith, length, get_or, set, Bool-cases, lt→ltb, ne→==, ==-refl,
}

-- No entry in front of slot `k` passes the test.
abbrev pub NoneBefore : (Entry → Bool) → List Entry → ℕ → Type 0
NoneBefore test es k = (j : ℕ) → j < k → test (get_or es j empty_entry) ≡ false

NoneBefore-step :
    (test : Entry → Bool) (e : Entry) (es : List Entry) (k : ℕ)
    → test e ≡ false
    → NoneBefore test es k
    → NoneBefore test (e ∷ es) (suc k)
NoneBefore-step test e es k h all zero p = h
NoneBefore-step test e es k h all (suc j) p = all j (omega arith)

-- The slot that the search gives, or that none passes.
pub find_from_lem :
    (test : Entry → Bool) (i : ℕ) (es : List Entry)
    → ((find_from test i es ≡ none) × NoneBefore test es (length es))
      ⊎ ((k : ℕ) × (find_from test i es ≡ some (i + k))
          × (k < length es)
          × (test (get_or es k empty_entry) ≡ true)
          × NoneBefore test es k)
unfolding find_from
find_from_lem test i [] = inl (refl, λ j p. absurd (omega arith))
find_from_lem test i (e ∷ es) = elim (Bool-cases (test e)) [
  | inl h ↦
      let same : i + 0 ≡ i = omega arith in
      inr (0, rw (h, same) refl, omega arith, h, λ j p. absurd (omega arith))
  | inr h ↦ elim (find_from_lem test (suc i) es) [
    | inl (n, all) ↦ inl (rw (h) n, NoneBefore-step test e es (length es) h all)
    | inr (k, f, lt, t, all) ↦
        let same : i + suc k ≡ suc i + k = omega arith in
        inr (suc k, rw (h, same) f, omega arith, t, NoneBefore-step test e es k h all)
  ]
]

-- A slot that was written is found when no entry in front of it passes.
pub find_from-set :
    (test : Entry → Bool) (i : ℕ) (es : List Entry) (k : ℕ) (e : Entry)
    → k < length es
    → test e ≡ true
    → NoneBefore test es k
    → find_from test i (set es k e) ≡ some (i + k)
unfolding find_from
find_from-set test i [] k e lt h all = absurd (omega arith)
find_from-set test i (x ∷ es) zero e lt h all =
    let same : i + 0 ≡ i = omega arith in rw (h, same) refl
find_from-set test i (x ∷ es) (suc k) e lt h all =
    let same : i + suc k ≡ suc i + k = omega arith in
    rw (all 0 (omega arith), same)
      (find_from-set test (suc i) es k e (omega arith) h (λ j p. all (suc j) (omega arith)))

pub find_from_first :
    (test : Entry → Bool) (i : ℕ) (es : List Entry) (k : ℕ)
    → k < length es
    → test (get_or es k empty_entry) ≡ true
    → NoneBefore test es k
    → find_from test i es ≡ some (i + k)
unfolding find_from
find_from_first test i [] k lt h all = absurd (omega arith)
find_from_first test i (x ∷ es) zero lt h all =
    let same : i + 0 ≡ i = omega arith in rw (h, same) refl
find_from_first test i (x ∷ es) (suc k) lt h all =
    let same : i + suc k ≡ suc i + k = omega arith in
    rw (all 0 (omega arith), same)
      (find_from_first test (suc i) es k (omega arith) h (λ j p. all (suc j) (omega arith)))

-- A write of another slot by an entry that does not pass changes nothing for the search.
pub find_from-set_other :
    (test : Entry → Bool) (i : ℕ) (es : List Entry) (k idx : ℕ) (e : Entry)
    → k < length es
    → test (get_or es k empty_entry) ≡ true
    → NoneBefore test es k
    → idx ≢ k
    → test e ≡ false
    → find_from test i (set es idx e) ≡ some (i + k)
unfolding find_from
find_from-set_other test i [] k idx e lt h all ne f = absurd (omega arith)
find_from-set_other test i (x ∷ es) zero zero e lt h all ne f = absurd (ne refl)
find_from-set_other test i (x ∷ es) zero (suc idx) e lt h all ne f =
    let same : i + 0 ≡ i = omega arith in rw (h, same) refl
find_from-set_other test i (x ∷ es) (suc k) zero e lt h all ne f =
    let same : i + suc k ≡ suc i + k = omega arith in
    rw (f, same)
      (find_from_first test (suc i) es k (omega arith) h (λ j p. all (suc j) (omega arith)))
find_from-set_other test i (x ∷ es) (suc k) (suc idx) e lt h all ne f =
    let same : i + suc k ≡ suc i + k = omega arith in
    rw (all 0 (omega arith), same)
      (find_from-set_other test (suc i) es k idx e (omega arith) h
        (λ j p. all (suc j) (omega arith)) (λ q. ne (ap suc q)) f)

pub set-append {ℓ} :
    {A : Type ℓ} (xs ys : List A) (k : ℕ) (a : A)
    → k < length xs
    → set (xs ++ ys) k a ≡ set xs k a ++ ys
set-append [] ys k a lt = absurd (omega arith)
set-append (x ∷ xs) ys zero a lt = refl
set-append (x ∷ xs) ys (suc k) a lt = rw (set-append xs ys k a (omega arith)) refl

pub write_entry_lem :
    (n : ℕ) (db : Dir) (i : ℕ) (e : Entry) (s : Fs)
    → i < stored_entries
    → write_entry n db i e s
      ≡ some (write_block n (dir_block (record db { entries = set db.entries i e })) s)
unfolding write_entry
write_entry_lem n db i e s lt = rw (lt→ltb i stored_entries lt) refl

pub load_current_dir-ready :
    (s : Fs) (n : ℕ) → s.alloc_ready ≡ true → load_current_dir s n ≡ (as_dir (s.disk n), s)
unfolding load_current_dir
load_current_dir-ready s n h = rw (prepare-ready s h) refl

-- An entry that a filter lets through passes without the filter too.
pub matches-unfiltered :
    (name : List ℕ) (filter : Option ℕ) (e : Entry)
    → matches name none e ≡ false
    → matches name filter e ≡ false
unfolding matches
matches-unfiltered name none e h = h
matches-unfiltered name (some t) e h = elim (Bool-cases (e.type == t)) [
  | inl y ↦ rw (y) h
  | inr n ↦ rw (n) (elim (Bool-cases (is_free e)) [ inl f ↦ rw (f) refl | inr f ↦ rw (f) refl ])
]

-- A used entry of the right type and name is what a search looks for.
pub matches_lem :
    (name : List ℕ) (filter : ℕ) (e : Entry)
    → is_free e ≡ false
    → e.name ≡ name
    → e.type ≡ filter
    → matches name (some filter) e ≡ true
unfolding matches same_name
matches_lem name filter e used n t =
    rw (used, t, n, strcmp_same name, ==-refl filter, matches, same_name) refl

-- An entry of another name is not.
pub matches_other :
    (name : List ℕ) (filter : ℕ) (e : Entry)
    → strcmp e.name name ≢ 0
    → matches name (some filter) e ≡ false
unfolding matches same_name
matches_other name filter e ne = elim (Bool-cases (is_free e)) [
  | inl f ↦ rw (f, matches) refl
  | inr f ↦ elim (Bool-cases (e.type == filter)) [
    | inl t ↦ rw (f, t, ne→== _ 0 ne, matches, same_name) refl
    | inr t ↦ rw (f, t, matches) refl
  ]
]
