-- ===== src/Fs/Paths.antt =====
-- vibeos/fs.c, vibeos/user_fs_shell.c and vibeos/user_terminal.c: paths.
--
-- A buffer for a path is taken to be long enough, and a NULL argument is not modelled.
pub mod Parent
use vibeos_fpga.Strings.{strcmp, strncmp, lib_strncat, copy_name20}
use vibeos_fpga.Fs.{Entry, Dir, Fs, Window}
use vibeos_fpga.Fs.Dirs.{find_entry_index, entry_at, load_current_dir, same_name}
use vibeos_fpga.Common.{
  ℕ, zero, suc, ◌-◌, Bool, not, ◌&&◌, ◌||◌, Option, none, some, List, [], ◌∷◌, ◌++◌, reverse, ltb,
  leb, ◌==◌, if◌then◌else◌, length, take, drop,
}

abbrev pub slash : ℕ
slash = b'/'

abbrev pub root : List ℕ
root = b'/' ∷ b'r' ∷ b'o' ∷ b'o' ∷ b't' ∷ []

-- `cwd[0] ? cwd : "/root"`
abbrev pub or_root : List ℕ → List ℕ
or_root [] = root
or_root (c ∷ cwd) = c ∷ cwd

-- The last character, `d` for the empty string.
unfoldable pub last_or : List ℕ → ℕ → ℕ
last_or [] d = d
last_or (c ∷ s) d = last_or s c

-- fs_path_set_child and path_set_child
unfoldable pub fs_path_set_child : (cwd name : List ℕ) → List ℕ
fs_path_set_child cwd name =
    let joined =
      if ltb 1 (length cwd) && not (last_or cwd 0 == slash) then cwd ++ slash ∷ [] else cwd in
    lib_strncat joined name 19

-- A loop of fs_path_set_parent on the reversed string: it cuts characters that pass the test as
-- long as more than one is left.
unfoldable pub cut_while : (ℕ → Bool) → List ℕ → List ℕ
cut_while test [] = []
cut_while test (c ∷ s) =
    let rest = cut_while test s in if not (length s == 0) && test c then rest else c ∷ s

-- The end of fs_path_set_parent: the separator goes, unless it is all that is left.
abbrev pub cut_separator : List ℕ → List ℕ
cut_separator [] = slash ∷ []
cut_separator (c ∷ []) = slash ∷ []
cut_separator (c ∷ d ∷ s) = reverse (d ∷ s)

-- fs_path_set_parent and path_set_parent
unfoldable pub fs_path_set_parent : (cwd : List ℕ) → List ℕ
fs_path_set_parent cwd =
    if leb (length cwd) 1
    then slash ∷ []
    else cut_separator
        (cut_while (λ c. not (c == slash)) (cut_while (λ c. c == slash) (reverse cwd)))

-- The two loops that copy a path's text into what is left of the buffer.
abbrev pub fill : (room : ℕ) → (dst src : List ℕ) → List ℕ
fill room dst src = dst ++ take (room - length dst) src

abbrev pub skip_one : List ℕ → List ℕ
skip_one [] = []
skip_one (c ∷ s) = if c == slash then s else c ∷ s

-- What terminal_expand_home_path makes of `~` and `rest` behind it, for `room` characters.
unfoldable pub expand_home : (room : ℕ) → (home rest : List ℕ) → List ℕ
expand_home room home rest =
    let dst = take room home in
    let fits = ltb 0 (length dst) && ltb (length dst) room in
    let ends = last_or dst 0 == slash in
    let src = skip_one rest in
    fill room (if fits && not ends then dst ++ slash ∷ [] else dst)
      (if fits && ends then skip_one src else src)

unfoldable pub terminal_expand_home_path : Window → (room : ℕ) → List ℕ → List ℕ
terminal_expand_home_path w room [] = []
terminal_expand_home_path w room (c ∷ []) =
    if c == b'~' then expand_home room (or_root w.home) [] else take room (c ∷ [])
terminal_expand_home_path w room (c ∷ d ∷ s) =
    if c == b'~' && d == slash
    then expand_home room (or_root w.home) (d ∷ s)
    else take room (c ∷ d ∷ s)

-- `while (*p == '/') p++;`
unfoldable pub skip_slashes : List ℕ → List ℕ
skip_slashes [] = []
skip_slashes (c ∷ s) = let rest = skip_slashes s in if c == slash then rest else c ∷ s

-- `while (*p == ' ' || *p == '\t') p++;`
unfoldable pub skip_blanks : List ℕ → List ℕ
skip_blanks [] = []
skip_blanks (c ∷ s) = let rest = skip_blanks s in if c == b' ' || c == 9 then rest else c ∷ s

-- The segment in front of the next '/', and what is left from there on.
unfoldable pub segment : List ℕ → List ℕ × List ℕ
segment [] = ([], [])
segment (c ∷ s) = let (seg, rest) = segment s in if c == slash then ([], c ∷ s) else (c ∷ seg, rest)

-- What resolve_fs_target gives: the directory's block, its path, and the leaf.
pub record Resolved : Type 0 where
  pub dir_bno : ℕ
  pub dir_cwd : List ℕ
  pub leaf : List ℕ

-- After a segment: the end, with a target or an error, or the directory to go on from.
pub data Step : Type 0 where
  ends : Option Resolved → Step
  goes : (bno : ℕ) (cwd : List ℕ) → Step

-- `bno ? bno : 1`
abbrev pub or_one : ℕ → ℕ
or_one n = if n == 0 then 1 else n

-- A `..` segment and a segment in front of others, behind the load of the directory.
unfoldable pub parent_step : (cwd : List ℕ) → Option Dir × Fs → Step × Fs
parent_step cwd (none, s) = (ends none, s)
parent_step cwd (some db, s) =
    let bno = or_one db.parent_bno in
    (goes bno (if bno == 1 then root else fs_path_set_parent cwd), s)

unfoldable pub child_step : (seg cwd : List ℕ) → Option Dir × Fs → Step × Fs
child_step seg cwd (none, s) = (ends none, s)
child_step seg cwd (some db, s) = elim (find_entry_index s db seg (some 1)) [
  | none ↦ (ends none, s)
  | some idx ↦ let e = entry_at s db idx in (goes e.bno (fs_path_set_child cwd e.name), s)
]

-- A round of resolve_fs_target; `final` is whether nothing follows the segment.
unfoldable pub segment_step :
    (seg : List ℕ) → (final : Bool) → (bno : ℕ) → (cwd : List ℕ) → Fs → Step × Fs
segment_step seg final bno cwd s =
    if ltb 19 (length seg)
    then (ends none, s)
    else if length seg == 0 || same_name seg (b'.' ∷ [])
    then (goes bno cwd, s)
    else if same_name seg (b'.' ∷ b'.' ∷ [])
    then parent_step cwd (load_current_dir s bno)
    else if final
    then (
      ends (some (record { dir_bno = or_one bno; dir_cwd = or_root cwd; leaf = copy_name20 seg })),
      s,
    )
    else child_step seg cwd (load_current_dir s bno)

-- The loop of resolve_fs_target. A round takes a character at least, so the length of the path is
-- enough fuel.
unfoldable pub resolve_loop :
    ℕ → (input p : List ℕ) → (bno : ℕ) → (cwd : List ℕ) → Fs → Option Resolved × Fs
resolve_loop fuel input [] bno cwd s =
    (some (record { dir_bno = or_one bno; dir_cwd = or_root cwd; leaf = copy_name20 input }), s)
resolve_loop zero input (c ∷ p) bno cwd s = (none, s)
resolve_loop (suc fuel) input (c ∷ p) bno cwd s =
    let (seg, rest) = segment (c ∷ p) in
    let left = skip_slashes rest in
    let (step, s') = segment_step seg (length left == 0) bno cwd s in
    elim step [ ends r ↦ (r, s') | goes bno' cwd' ↦ resolve_loop fuel input left bno' cwd' s' ]

-- What is left of a path behind a first segment `root`, if it has one.
unfoldable pub behind_root : List ℕ → Option (List ℕ)
behind_root p =
    if strncmp p (b'r' ∷ b'o' ∷ b'o' ∷ b't' ∷ slash ∷ []) 5 == 0
    then some (drop 5 p)
    else if same_name p (b'r' ∷ b'o' ∷ b'o' ∷ b't' ∷ [])
    then some (drop 4 p)
    else none

-- resolve_fs_target behind the blanks: `home_bno` and `home_cwd` are the window's directory.
unfoldable pub resolve_from :
    (input p : List ℕ) → (home_bno : ℕ) → (home_cwd : List ℕ) → Fs → Option Resolved × Fs
resolve_from input [] home_bno home_cwd s = (none, s)
resolve_from input (c ∷ p) home_bno home_cwd s =
    let absolute = c == slash in
    let p' = if absolute then skip_slashes (c ∷ p) else c ∷ p in
    elim (behind_root p') [
      | some rest ↦ let left = skip_slashes rest in resolve_loop (length left) input left 1 root s
      | none ↦
          let left = skip_slashes p' in
          if absolute
          then resolve_loop (length left) input left 1 root s
          else resolve_loop (length left) input left home_bno home_cwd s
    ]

-- resolve_fs_target; `none` is -1. Its buffer for the expanded path has 64 bytes.
unfoldable pub resolve_fs_target : Window → (path : List ℕ) → Fs → Option Resolved × Fs
resolve_fs_target w path s =
    let input = terminal_expand_home_path w 63 path in
    resolve_from input (skip_blanks input) (or_one w.cwd_bno) (or_root w.cwd) s
