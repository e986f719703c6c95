-- ===== src/Fs/Files.antt =====
-- vibeos/fs.c: the contents of files.
pub mod Rounds
pub mod Write
pub mod Store
pub mod RoundTrip
pub mod Others
use vibeos_fpga.Strings.{strcmp, copy_name20}
use vibeos_fpga.Fs.{
  Entry, Dir, Block, dir_block, data_block, other, Fs, write_block, as_dir, next_of, view, is_free,
  empty_entry, stored_entries, Status, ok, error, set_next, data_payload, bsize,
}
use vibeos_fpga.Fs.Blocks.{prepare, balloc, bfree, fs_free_chain}
use vibeos_fpga.Fs.Dirs.{
  find_entry_index, find_free_entry_index, entry_at, write_entry, load_current_dir,
}
use vibeos_fpga.Common.{
  ◌>>=◌, ℕ, zero, suc, ◌-◌, min, Bool, not, ◌||◌, Option, none, some, List, [], ◌∷◌, ◌++◌, ltb,
  ◌==◌, if◌then◌else◌, length, take, drop, replicate,
}

-- The bytes behind magic and next_bno: the chunk, and zeros up to the end of the block.
unfoldable pub payload_of : List ℕ → List ℕ
payload_of chunk = chunk ++ replicate (data_payload - length chunk) 0

-- The round of store_file_bytes that writes a chunk into the new block `bno`, and links the
-- previous block to it.
unfoldable pub write_chunk : (bno prev : ℕ) → (chunk : List ℕ) → Fs → Fs
write_chunk bno prev chunk s =
    let s' = write_block bno (data_block 0 (payload_of chunk)) s in
    if prev == 0 then s' else write_block prev (set_next bno (s'.disk prev)) s'

-- The loop of store_file_bytes over the bytes that are left: the first block, or `none` when the
-- disk is full. A round writes a byte at least, so their number is enough fuel.
unfoldable pub store_loop : ℕ → (bytes : List ℕ) → (first prev : ℕ) → Fs → Option ℕ × Fs
store_loop zero bytes first prev s = (some first, s)
store_loop (suc fuel) [] first prev s = (some first, s)
store_loop (suc fuel) (b ∷ bs) first prev s =
    let (bno, s') = balloc s in
    let rest =
      store_loop fuel (drop data_payload (b ∷ bs)) (if prev == 0 then bno else first) bno
        (write_chunk bno prev (take data_payload (b ∷ bs)) s') in
    if bno == 0 then (none, s') else rest

-- The blocks of store_file_bytes: those of an empty file are one empty block.
unfoldable pub store_blocks : List ℕ → Fs → Option ℕ × Fs
store_blocks [] s =
    let (bno, s') = balloc s in
    if bno == 0 then (none, s') else (some bno, write_block bno (data_block 0 (payload_of [])) s')
store_blocks (b ∷ bs) s = store_loop (length (b ∷ bs)) (b ∷ bs) 0 0 s

-- The entry that store_file_bytes commits.
unfoldable pub file_entry : (leaf : List ℕ) → (first size created_at now : ℕ) → Entry
file_entry leaf first size created_at now = record {
  name = copy_name20 leaf;
  bno = first;
  size = size;
  ctime = created_at;
  mtime = now;
  mode = 7;
  type = 0;
}

abbrev pub created_at : ℕ → Option Entry → ℕ
created_at now none = now
created_at now (some e) = e.ctime

abbrev pub old_bno : Option Entry → ℕ
old_bno none = 0
old_bno (some e) = e.bno

-- store_file_bytes behind the loop, into slot `idx` of the directory `db` of block `dir_bno`, over
-- the entry `old`, if there is one.
unfoldable pub commit :
    (fuel now dir_bno : ℕ)
    → Dir
    → (idx : ℕ) → (old : Option Entry) → (leaf : List ℕ) → (size : ℕ) → Option ℕ × Fs
    → Option (Status × Fs)
commit fuel now dir_bno db idx old leaf size (none, s) = some (error 4, s)
commit fuel now dir_bno db idx old leaf size (some first, s) = do
  s' ← write_entry dir_bno db idx (file_entry leaf first size (created_at now old) now) s
  s'' ← if old_bno old == 0 then some s' else fs_free_chain fuel (old_bno old) s'
  some (ok, s'')

unfoldable pub store_entry :
    (fuel now dir_bno : ℕ)
    → Dir
    → (idx : ℕ) → (old : Option Entry) → (leaf bytes : List ℕ) → Fs
    → Option (Status × Fs)
store_entry fuel now dir_bno db idx old leaf bytes s =
    commit fuel now dir_bno db idx old leaf (length bytes) (store_blocks bytes s)

-- store_file_bytes once the directory's block and the leaf are known.
unfoldable pub store_in : (fuel now dir_bno : ℕ) → (leaf bytes : List ℕ) → Fs → Option (Status × Fs)
store_in fuel now dir_bno leaf bytes s = elim (as_dir (s.disk dir_bno)) [
  | none ↦ some (error 1, s)
  | some db ↦ elim (find_entry_index s db leaf none) [
    | some idx ↦
        if (entry_at s db idx).type == 1
        then some (error 3, s)
        else store_entry fuel now dir_bno db idx (some (entry_at s db idx)) leaf bytes s
    | none ↦ elim (find_free_entry_index s db) [
      | none ↦ some (error 2, s)
      | some idx ↦ store_entry fuel now dir_bno db idx none leaf bytes s
    ]
  ]
]

-- The bytes that a round of load_file_bytes copies of a block, and those of the rounds behind it.
-- The bytes of a directory's block are not modelled: `none`.
unfoldable pub read_block :
    (rest : (remaining bno : ℕ) → Option (List ℕ)) → (remaining : ℕ) → Block → Option (List ℕ)
read_block rest remaining (dir_block db) = none
read_block rest remaining (other bytes) = some (take (min remaining bsize) bytes)
read_block rest remaining (data_block next_bno payload) = do
  let chunk = min remaining data_payload
  later ← rest (remaining - chunk) next_bno
  some (take chunk payload ++ later)

-- The loop of load_file_bytes: the bytes copied. A round copies a byte at least, so `remaining` is
-- enough fuel.
unfoldable pub load_loop : ℕ → (remaining bno : ℕ) → Fs → Option (List ℕ)
load_loop zero remaining bno s = if remaining == 0 || bno == 0 then some [] else none
load_loop (suc fuel) remaining bno s =
    if remaining == 0 || bno == 0
    then some []
    else read_block (λ left next. load_loop fuel left next s) remaining (s.disk bno)

-- load_file_bytes behind the load of the directory: the status and the bytes.
unfoldable pub load_found :
    (leaf : List ℕ) → (max_size : ℕ) → Option Dir × Fs → Option ((Status × List ℕ) × Fs)
load_found leaf max_size (none, s) = some ((error 1, []), s)
load_found leaf max_size (some db, s) = elim (find_entry_index s db leaf (some 0)) [
  | none ↦ some ((error 2, []), s)
  | some idx ↦
      let e = entry_at s db idx in
      if ltb max_size e.size
      then some ((error 3, []), s)
      else do bytes ← load_loop e.size e.size e.bno s; some ((ok, bytes), s)
]

-- load_file_bytes once the directory's block and the leaf are known.
unfoldable pub load_in :
    (dir_bno : ℕ) → (leaf : List ℕ) → (max_size : ℕ) → Fs → Option ((Status × List ℕ) × Fs)
load_in dir_bno leaf max_size s = load_found leaf max_size (load_current_dir s dir_bno)

-- load_file_bytes_alloc behind the load of the directory; `got` is whether malloc gives a buffer.
unfoldable pub load_alloc_found :
    (leaf : List ℕ) → (got : Bool) → Option Dir × Fs → Option ((Status × List ℕ) × Fs)
load_alloc_found leaf got (none, s) = some ((error 1, []), s)
load_alloc_found leaf got (some db, s) = elim (find_entry_index s db leaf (some 0)) [
  | none ↦ some ((error 2, []), s)
  | some idx ↦
      let e = entry_at s db idx in
      if not got then some ((error 4, []), s) else if e.bno == 0 then some ((ok, []), s) else do
        bytes ← load_loop e.size e.size e.bno s
        some (if length bytes == e.size then (ok, bytes) else (error 5, []), s)
]

unfoldable pub load_alloc_in :
    (dir_bno : ℕ) → (leaf : List ℕ) → (got : Bool) → Fs → Option ((Status × List ℕ) × Fs)
load_alloc_in dir_bno leaf got s = load_alloc_found leaf got (load_current_dir s dir_bno)
