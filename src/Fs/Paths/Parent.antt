-- ===== src/Fs/Paths/Parent.antt =====
-- vibeos/fs.c: going up from a directory leads back to where its path was built from.
use mathlib.Core.List.{reverse-append, reverse-reverse, append_assoc}
use vibeos_fpga.Strings.{printable, lib_strncat}
use vibeos_fpga.Fs.Paths.{
  slash, last_or, fs_path_set_child, cut_while, fs_path_set_parent, cut_separator,
}
use vibeos_fpga.Common.{
  ℕ, zero, suc, ◌≤◌, ◌<◌, ◌≡◌, ◌≢◌, refl, ◌∙◌, ap, Bool, true, false, not, ◌&&◌, inl, inr, List, [],
  ◌∷◌, ◌++◌, reverse, leb, ◌==◌, arith, length, Bool-cases, lt→ltb, ne→==, length-append,
}

-- A character of a name: printable, and not '/'.
unfoldable pub is_name_char : ℕ → Bool
is_name_char c = (leb 32 c && leb c 126) && not (c == slash)

unfoldable pub all_of : (ℕ → Bool) → List ℕ → Bool
all_of test [] = true
all_of test (c ∷ s) = test c && all_of test s

and_true : (a b : Bool) → (a && b) ≡ true → (a ≡ true) × (b ≡ true)
and_true true b h = (refl, h)
and_true false b h = absurd (cc)

both_true : (a b : Bool) → a ≡ true → b ≡ true → (a && b) ≡ true
both_true a b h k = rw (h) k

all_of-append :
    (test : ℕ → Bool) (xs ys : List ℕ)
    → all_of test xs ≡ true
    → all_of test ys ≡ true
    → all_of test (xs ++ ys) ≡ true
unfolding all_of
all_of-append test [] ys h k = k
all_of-append test (x ∷ xs) ys h k =
    let (a, b) = and_true (test x) (all_of test xs) h in
    both_true (test x) (all_of test (xs ++ ys)) a (all_of-append test xs ys b k)

all_of-reverse :
    (test : ℕ → Bool) (xs : List ℕ) → all_of test xs ≡ true → all_of test (reverse xs) ≡ true
unfolding all_of
all_of-reverse test [] h = refl
all_of-reverse test (x ∷ xs) h =
    let (a, b) = and_true (test x) (all_of test xs) h in
    rw (reverse-append (x ∷ []) xs) (
      all_of-append test (reverse xs) (x ∷ []) (all_of-reverse test xs b)
        (both_true (test x) true a refl))

all_of_weaker :
    (test test' : ℕ → Bool) (xs : List ℕ)
    → ((c : ℕ) → test c ≡ true → test' c ≡ true)
    → all_of test xs ≡ true
    → all_of test' xs ≡ true
unfolding all_of
all_of_weaker test test' [] h k = refl
all_of_weaker test test' (x ∷ xs) h k =
    let (a, b) = and_true (test x) (all_of test xs) k in
    both_true (test' x) (all_of test' xs) (h x a) (all_of_weaker test test' xs h b)

length-reverse : (xs : List ℕ) → length (reverse xs) ≡ length xs
length-reverse [] = refl
length-reverse (x ∷ xs) =
    rw (reverse-append (x ∷ []) xs)
      (omega (arith, length-append (reverse xs) (x ∷ []), length-reverse xs))

-- A name is appended whole.
printable_name :
    (n : ℕ) (s : List ℕ) → length s ≤ n → all_of is_name_char s ≡ true → printable n s ≡ s
unfolding printable all_of is_name_char
printable_name zero [] le h = refl
printable_name zero (c ∷ s) le h = absurd (omega arith)
printable_name (suc n) [] le h = refl
printable_name (suc n) (c ∷ s) le h =
    let (a, b) = and_true (is_name_char c) (all_of is_name_char s) h in
    let (p, q) = and_true (leb 32 c && leb c 126) (not (c == slash)) a in
    rw (p, printable_name n s (omega arith) b, printable) refl

-- The loops of fs_path_set_parent stop at a character that fails their test.
cut_while_stop :
    (test : ℕ → Bool) (d : ℕ) (s : List ℕ) → test d ≡ false → cut_while test (d ∷ s) ≡ d ∷ s
unfolding cut_while
cut_while_stop test d s h = elim (Bool-cases (length s == 0)) [
  | inl e ↦ rw (h, e) refl
  | inr e ↦ rw (h, e) refl
]

cut_while_all :
    (test : ℕ → Bool) (r : List ℕ) (d : ℕ) (s : List ℕ)
    → all_of test r ≡ true
    → test d ≡ false
    → cut_while test (r ++ d ∷ s) ≡ d ∷ s
unfolding cut_while all_of
cut_while_all test [] d s h stop = cut_while_stop test d s stop
cut_while_all test (c ∷ r) d s h stop =
    let (a, b) = and_true (test c) (all_of test r) h in
    let more : (length (r ++ d ∷ s) == 0) ≡ false =
      ne→== _ 0 (λ e. absurd (omega (arith, length-append r (d ∷ s)))) in
    rw (a, more) (cut_while_all test r d s b stop)

cut_while_keep :
    (test : ℕ → Bool) (r s : List ℕ)
    → 0 < length r
    → all_of (λ c. not (test c)) r ≡ true
    → cut_while test (r ++ s) ≡ r ++ s
unfolding all_of
cut_while_keep test [] s lt h = absurd (omega arith)
cut_while_keep test (c ∷ r) s lt h =
    let (a, b) = and_true (not (test c)) (all_of (λ d. not (test d)) r) h in
    cut_while_stop test c (r ++ s) (from_not (test c) a)
  where
    from_not : (b : Bool) → not b ≡ true → b ≡ false
    from_not true h = cc
    from_not false h = refl

cut_separator_lem : (c : ℕ) (r : List ℕ) → 0 < length r → cut_separator (c ∷ r) ≡ reverse r
cut_separator_lem c [] lt = absurd (omega arith)
cut_separator_lem c (d ∷ r) lt = refl

reverse_joined :
    (cwd name : List ℕ) → reverse (cwd ++ slash ∷ name) ≡ reverse name ++ slash ∷ reverse cwd
reverse_joined cwd name =
    reverse-append cwd (slash ∷ name)
    ∙ (ap (λ (t : List ℕ). t ++ reverse cwd) (reverse-append (slash ∷ []) name)
        ∙ append_assoc (reverse name) (slash ∷ []) (reverse cwd))

-- The path of a subdirectory, built by fs_path_set_child from a path of two characters at least
-- that does not end in '/' and a name of 1 to 19 printable characters without '/', is the path, a
-- '/' and the name; and fs_path_set_parent makes the first path of it again.
pub fs_path_set_parent-fs_path_set_child :
    (cwd name : List ℕ)
    → 1 < length cwd
    → last_or cwd 0 ≢ slash
    → 0 < length name
    → length name ≤ 19
    → all_of is_name_char name ≡ true
    → (fs_path_set_child cwd name ≡ cwd ++ slash ∷ name)
      × (fs_path_set_parent (fs_path_set_child cwd name) ≡ cwd)
unfolding fs_path_set_child fs_path_set_parent lib_strncat is_name_char
fs_path_set_parent-fs_path_set_child cwd name long open_end some_name short ok =
    let joined : fs_path_set_child cwd name ≡ cwd ++ slash ∷ name =
      rw
        (
          lt→ltb 1 (length cwd) long,
          ne→== (last_or cwd 0) slash open_end,
          printable_name 19 name short ok,
          fs_path_set_child,
          lib_strncat,
        )
        (append_assoc cwd (slash ∷ []) name) in
    let no_slash : all_of (λ c. not (c == slash)) (reverse name) ≡ true =
      all_of-reverse (λ c. not (c == slash)) name
        (all_of_weaker is_name_char (λ c. not (c == slash)) name
          (λ c h. (and_true (leb 32 c && leb c 126) (not (c == slash)) h).1) ok) in
    let big : leb (length (cwd ++ slash ∷ name)) 1 ≡ false =
      ground (arith, length-append cwd (slash ∷ name)) in
    (
      joined,
      rw
          (
            joined,
            big,
            reverse_joined cwd name,
            cut_while_keep (λ c. c == slash) (reverse name) (slash ∷ reverse cwd)
                (omega (arith, length-reverse name)) no_slash,
            cut_while_all (λ c. not (c == slash)) (reverse name) slash (reverse cwd) no_slash refl,
            cut_separator_lem slash (reverse cwd) (omega (arith, length-reverse cwd)),
            fs_path_set_parent,
          )
          (reverse-reverse cwd),
    )
