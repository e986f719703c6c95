-- ===== src/Fs/Calls.antt =====
-- vibeos/fs.c: the operations on files by their paths.
--
-- `fuel` bounds the chains that an operation frees, `now` is what current_fs_time gives.
use vibeos_fpga.Strings.{strchr, copy_name20}
use vibeos_fpga.Fs.{Entry, Dir, Fs, dir_block, Window, Status, ok, error, empty_entry, write_block}
use vibeos_fpga.Fs.Dirs.{
  find_entry_index, find_free_entry_index, entry_at, write_entry, fs_load_dir_block,
  fs_dir_is_ancestor, same_name,
}
use vibeos_fpga.Fs.Files.{store_in, load_in, load_alloc_in}
use vibeos_fpga.Fs.Paths.{Resolved, resolve_fs_target, or_one, slash}
use vibeos_fpga.Common.{
  ℕ, Bool, false, not, ◌&&◌, ◌||◌, Option, none, some, List, [], ◌∷◌, ◌==◌, if◌then◌else◌, is_some,
  ◌>>=◌, length, get_or,
}

-- Whether a name is a path: it holds a '/' or begins with '~'.
unfoldable pub is_path : List ℕ → Bool
is_path name = is_some (strchr name slash) || get_or name 0 0 == b'~'

-- The directory's block and the leaf of a name, as store_file_bytes and load_file_bytes find them.
unfoldable pub target_of : Window → (name : List ℕ) → Fs → Option (ℕ × List ℕ) × Fs
target_of w name s =
    let (found, s') = resolve_fs_target w name s in
    if is_path name
    then (elim found [ none ↦ none | some r ↦ some (r.dir_bno, r.leaf) ], s')
    else (some (w.cwd_bno, name), s)

unfoldable pub store_at :
    (fuel now : ℕ) → (bytes : List ℕ) → Option (ℕ × List ℕ) × Fs → Option (Status × Fs)
store_at fuel now bytes (none, s) = some (error 1, s)
store_at fuel now bytes (some (dir_bno, leaf), s) = store_in fuel now (or_one dir_bno) leaf bytes s

unfoldable pub store_file_bytes :
    (fuel now : ℕ) → Window → (name bytes : List ℕ) → Fs → Option (Status × Fs)
store_file_bytes fuel now w name bytes s = store_at fuel now bytes (target_of w name s)

unfoldable pub load_at : (max_size : ℕ) → Option (ℕ × List ℕ) × Fs → Option ((Status × List ℕ) × Fs)
load_at max_size (none, s) = some ((error 1, []), s)
load_at max_size (some (dir_bno, leaf), s) = load_in dir_bno leaf max_size s

unfoldable pub load_file_bytes :
    Window → (name : List ℕ) → (max_size : ℕ) → Fs → Option ((Status × List ℕ) × Fs)
load_file_bytes w name max_size s = load_at max_size (target_of w name s)

unfoldable pub load_alloc_at :
    (got : Bool) → Option (ℕ × List ℕ) × Fs → Option ((Status × List ℕ) × Fs)
load_alloc_at got (none, s) = some ((error 1, []), s)
load_alloc_at got (some (dir_bno, leaf), s) = load_alloc_in dir_bno leaf got s

-- load_file_bytes_alloc; `got` is whether malloc gives a buffer.
unfoldable pub load_file_bytes_alloc :
    Window → (name : List ℕ) → (got : Bool) → Fs → Option ((Status × List ℕ) × Fs)
load_file_bytes_alloc w name got s = load_alloc_at got (target_of w name s)

-- `while (*input == ' ') input++;`
unfoldable pub skip_spaces : List ℕ → List ℕ
skip_spaces [] = []
skip_spaces (c ∷ s) = let rest = skip_spaces s in if c == b' ' then rest else c ∷ s

-- The end of move_entry_named: a directory that was moved learns its new parent.
unfoldable pub adopt : (parent : ℕ) → Entry → Fs → Fs
adopt parent e s =
    if e.type == 1 && not (e.bno == 0)
    then (elim (fs_load_dir_block s e.bno) [
      | none ↦ s
      | some db ↦ write_block e.bno (dir_block (record db { parent_bno = parent })) s
    ])
    else s

-- move_entry_named within a directory, where `found` is the slot of the new name.
unfoldable pub rename_entry :
    (now dir_bno : ℕ)
    → Dir
    → (idx : ℕ) → (found : Option ℕ) → (leaf : List ℕ) → Fs
    → Option (Status × Fs)
rename_entry now dir_bno db idx found leaf s =
    let taken : Bool = elim found [ none ↦ false | some k ↦ not (k == idx) ] in
    if taken then some (error 4, s) else do
      s' ←
          write_entry dir_bno db idx
            (record (entry_at s db idx) { name = copy_name20 leaf; mtime = now }) s
      some (ok, s')

-- move_entry_named from one directory to another.
unfoldable pub transfer_entry :
    (now src_bno dst_bno : ℕ)
    → (src_db dst_db : Dir) → (idx : ℕ) → (found : Option ℕ) → (leaf : List ℕ) → Fs
    → Option (Status × Fs)
transfer_entry now src_bno dst_bno src_db dst_db idx found leaf s =
    let e = entry_at s src_db idx in
    if is_some found then some (error 4, s) else (elim (find_free_entry_index s dst_db) [
      | none ↦ some (error 5, s)
      | some k ↦ do
        s1 ← write_entry src_bno src_db idx empty_entry s
        s2 ← write_entry dst_bno dst_db k (record e { name = copy_name20 leaf; mtime = now }) s1
        some (ok, adopt dst_bno e s2)
    ])

unfoldable pub place_entry :
    (now src_bno dst_bno : ℕ)
    → (src_db dst_db : Dir) → (idx : ℕ) → (found : Option ℕ) → (leaf : List ℕ) → Fs
    → Option (Status × Fs)
place_entry now src_bno dst_bno src_db dst_db idx found leaf s =
    if src_bno == dst_bno
    then rename_entry now src_bno src_db idx found leaf s
    else transfer_entry now src_bno dst_bno src_db dst_db idx found leaf s

-- move_entry_named once the entry is found: a destination that is a directory takes the entry in.
unfoldable pub move_found :
    (now : ℕ) → (src dst : Resolved) → (src_db dst_db : Dir) → (idx : ℕ) → Fs → Option (Status × Fs)
move_found now src dst src_db dst_db idx s =
    let e = entry_at s src_db idx in
    let found = find_entry_index s dst_db dst.leaf none in
    let existing : Option ℕ = elim found [
      | none ↦ none
      | some k ↦ if (entry_at s dst_db k).type == 1 then some (entry_at s dst_db k).bno else none
    ] in
    elim existing [
      | none ↦ place_entry now src.dir_bno dst.dir_bno src_db dst_db idx found dst.leaf s
      | some inner ↦
          if e.type == 1 && fs_dir_is_ancestor s e.bno inner
          then some (error 6, s)
          else (elim (fs_load_dir_block s inner) [
            | none ↦ some (error 2, s)
            | some inner_db ↦
                place_entry now src.dir_bno inner src_db inner_db idx
                  (find_entry_index s inner_db (copy_name20 src.leaf) none) (copy_name20 src.leaf) s
          ])
    ]

-- move_entry_named once both paths are resolved.
unfoldable pub move_resolved : (now : ℕ) → (src dst : Resolved) → Fs → Option (Status × Fs)
move_resolved now src dst s =
    if src.dir_bno == dst.dir_bno && same_name src.leaf dst.leaf
    then some (ok, s)
    else (elim (fs_load_dir_block s src.dir_bno) [
      | none ↦ some (error 2, s)
      | some src_db ↦ elim (find_entry_index s src_db src.leaf none) [
        | none ↦ some (error 3, s)
        | some idx ↦ elim (fs_load_dir_block s dst.dir_bno) [
          | none ↦ some (error 2, s)
          | some dst_db ↦ move_found now src dst src_db dst_db idx s
        ]
      ]
    ])

unfoldable pub move_entry_named :
    (now : ℕ) → Window → (src_input dst_input : List ℕ) → Fs → Option (Status × Fs)
move_entry_named now w src_input dst_input s =
    let src = skip_spaces src_input in
    let dst = skip_spaces dst_input in
    let (from, s1) = resolve_fs_target w src s in
    let (to, s2) = resolve_fs_target w dst s1 in
    if length src == 0 || length dst == 0 then some (error 1, s) else (elim from [
      | none ↦ some (error 1, s1)
      | some a ↦ elim to [ none ↦ some (error 1, s2) | some b ↦ move_resolved now a b s2 ]
    ])
