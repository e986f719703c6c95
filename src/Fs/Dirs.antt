-- ===== src/Fs/Dirs.antt =====
-- vibeos/fs.c and vibeos/user.c: the entries of a directory.
pub mod Slots
use vibeos_fpga.Strings.{strcmp, copy_name20}
use vibeos_fpga.Fs.{
  Entry, Dir, Block, dir_block, data_block, other, Fs, write_block, as_dir, next_of, view, is_free,
  empty_entry, stored_entries, Status, ok, error, set_next, data_payload, bsize,
}
use vibeos_fpga.Fs.Blocks.{prepare, balloc, bfree, fs_free_chain}
use vibeos_fpga.Common.{
  ◌>>=◌, ℕ, zero, suc, Bool, true, false, not, ◌&&◌, ◌||◌, Option, none, some, List, [], ◌∷◌, ltb,
  leb, ◌==◌, if◌then◌else◌, is_some, get_or, set,
}

-- The first entry from slot `i` on that passes the test.
unfoldable pub find_from : (Entry → Bool) → ℕ → List Entry → Option ℕ
find_from test i [] = none
find_from test i (e ∷ es) = let rest = find_from test (suc i) es in if test e then some i else rest

-- `strcmp(a, b) == 0`
unfoldable pub same_name : List ℕ → List ℕ → Bool
same_name a b = strcmp a b == 0

-- What find_entry_index looks for; the filter -1 is `none`.
unfoldable pub matches : List ℕ → Option ℕ → Entry → Bool
matches name filter e =
    let right_type : Bool = elim filter [ none ↦ true | some t ↦ e.type == t ] in
    not (is_free e) && (right_type && same_name e.name name)

abbrev pub find_entry_index : Fs → Dir → List ℕ → Option ℕ → Option ℕ
find_entry_index s db name filter = find_from (matches name filter) 0 (view s db)

abbrev pub find_free_entry_index : Fs → Dir → Option ℕ
find_free_entry_index s db = find_from is_free 0 (view s db)

-- The entry in a slot.
abbrev pub entry_at : Fs → Dir → ℕ → Entry
entry_at s db i = get_or (view s db) i empty_entry

-- A write of a slot and then of the block `n` that holds it.
unfoldable pub write_entry : (n : ℕ) → Dir → ℕ → Entry → Fs → Option Fs
write_entry n db i e s =
    if ltb i stored_entries
    then some (write_block n (dir_block (record db { entries = set db.entries i e })) s)
    else none

unfoldable pub fs_load_dir_block : Fs → ℕ → Option Dir
fs_load_dir_block s bno = if bno == 0 || leb s.max_blocks bno then none else as_dir (s.disk bno)

unfoldable pub load_current_dir : Fs → (cwd_bno : ℕ) → Option Dir × Fs
load_current_dir s cwd_bno = let s' = prepare s in (as_dir (s'.disk cwd_bno), s')

unfoldable pub dir_block_is_empty : Fs → ℕ → Bool
dir_block_is_empty s bno = elim (as_dir (s.disk bno)) [
  | none ↦ false
  | some db ↦ not (is_some (find_from (λ e. not (is_free e)) 0 (view s db)))
]

-- What remove_entry_named frees of an entry.
unfoldable pub release : (fuel : ℕ) → Entry → Fs → Option Fs
release fuel old s =
    if old.bno == 0
    then some s
    else if old.type == 1
    then some (bfree old.bno s)
    else fs_free_chain fuel old.bno s

-- remove_entry_named behind the load of the directory.
unfoldable pub remove_from :
    (fuel : ℕ) → (cwd_bno : ℕ) → Dir → (name : List ℕ) → Fs → Option (Status × Fs)
remove_from fuel cwd_bno db name s = elim (find_entry_index s db name none) [
  | none ↦ some (error 2, s)
  | some idx ↦
      let old = entry_at s db idx in
      if old.type == 1 && not (dir_block_is_empty s old.bno) then some (error 3, s) else do
        s' ← write_entry cwd_bno db idx empty_entry s
        s'' ← release fuel old s'
        some (ok, s'')
]

unfoldable pub remove_entry_named :
    (fuel : ℕ) → (cwd_bno : ℕ) → (name : List ℕ) → Fs → Option (Status × Fs)
remove_entry_named fuel cwd_bno name s =
    let (found, s') = load_current_dir s cwd_bno in
    elim found [ none ↦ some (error 1, s') | some db ↦ remove_from fuel cwd_bno db name s' ]

-- The loop of fs_dir_is_ancestor; its guard counts the rounds.
unfoldable pub ancestor_loop : ℕ → Fs → (ancestor child : ℕ) → Bool
ancestor_loop zero s ancestor child = false
ancestor_loop (suc guard) s ancestor child =
    if child == 0
    then false
    else if child == ancestor
    then true
    else if child == 1
    then false
    else elim (fs_load_dir_block s child) [
      | none ↦ false
      | some db ↦ ancestor_loop guard s ancestor (if db.parent_bno == 0 then 1 else db.parent_bno)
    ]

unfoldable pub fs_dir_is_ancestor : Fs → (ancestor child : ℕ) → Bool
fs_dir_is_ancestor s ancestor child = ancestor_loop 64 s ancestor child
