-- ===== src/Strings.antt =====
-- vibeos/user_utils.c and vibeos/user_fs_shell.c: strings.
--
-- A character is a byte. A string is the list of the characters in front of its terminator, so a
-- read of the terminator is a read of the end of the list. An `int` is a 32-bit word.
use vibeos_fpga.Common.{
  ℕ, zero, suc, ◌≡◌, refl, ◌&&◌, Option, none, some, List, [], ◌∷◌, ◌++◌, leb, ◌==◌, if◌then◌else◌,
  sub32, take, ==-refl,
}

unfoldable pub strcmp : List ℕ → List ℕ → ℕ
strcmp [] [] = 0
strcmp [] (c ∷ s2) = sub32 0 c
strcmp (c ∷ s1) [] = c
strcmp (c ∷ s1) (d ∷ s2) = if c == d then strcmp s1 s2 else sub32 c d

unfoldable pub strncmp : List ℕ → List ℕ → ℕ → ℕ
strncmp s1 s2 zero = 0
strncmp [] [] (suc n) = 0
strncmp [] (c ∷ s2) (suc n) = sub32 0 c
strncmp (c ∷ s1) [] (suc n) = c
strncmp (c ∷ s1) (d ∷ s2) (suc n) = if c == d then strncmp s1 s2 n else sub32 c d

-- strchr of a character that is not the terminator: what is left of the string from there on.
unfoldable pub strchr : List ℕ → ℕ → Option (List ℕ)
strchr [] ch = none
strchr (c ∷ s) ch = if c == ch then some (c ∷ s) else strchr s ch

-- The characters that lib_strncat appends: printable ones, `n` at most.
unfoldable pub printable : ℕ → List ℕ → List ℕ
printable zero s = []
printable (suc n) [] = []
printable (suc n) (c ∷ s) = if leb 32 c && leb c 126 then c ∷ printable n s else []

unfoldable pub lib_strncat : List ℕ → List ℕ → ℕ → List ℕ
unfolding printable
lib_strncat dst src n = dst ++ printable n src

-- copy_name20
abbrev pub copy_name20 : List ℕ → List ℕ
copy_name20 src = take 19 src

pub strcmp_same : (s : List ℕ) → strcmp s s ≡ 0
unfolding strcmp
strcmp_same [] = refl
strcmp_same (c ∷ s) = rw (==-refl c) (strcmp_same s)
