-- ===== src/Fs/Files/Store.antt =====
-- vibeos/fs.c: what store_file_bytes does with a directory that has room for the file.
use mathlib.Core.Option.{some-injective}
use vibeos_fpga.Common.Bitmap.{bit}
use vibeos_fpga.Fs.{
  Entry, Dir, Fs, Block, dir_block, view, ok, data_payload, stored_entries, is_free, next_of,
}
use vibeos_fpga.Fs.Blocks.Invariant.{IsFs, IsFree}
use vibeos_fpga.Fs.Blocks.Space.{free_blocks, with_disk, with_disk-IsFs}
use vibeos_fpga.Fs.Blocks.Release.{IsChain, member, fs_free_chain-Freed, fs_free_chain_guarded}
use vibeos_fpga.Fs.Dirs.{matches, find_entry_index, find_free_entry_index, entry_at}
use vibeos_fpga.Fs.Dirs.Slots.{NoneBefore, find_from_lem, write_entry_lem, matches-unfiltered}
use vibeos_fpga.Fs.Files.{store_in, store_entry, commit, created_at, old_bno, file_entry}
use vibeos_fpga.Fs.Files.Rounds.{Reads}
use vibeos_fpga.Fs.Files.Write.{store_blocks-Written}
use vibeos_fpga.Common.{
  ℕ, zero, suc, ◌+◌, ◌*◌, ◌≤◌, ◌<◌, ◌≡◌, ◌≢◌, refl, sym, ◌∙◌, ap, true, inl, inr, Option, none,
  some, List, [], ◌∷◌, ◌==◌, if◌then◌else◌, arith, length, set, take, ne→==, ==-refl,
}

-- The slot that store_file_bytes writes, and the entry that it replaces.
pub data Slot (s : Fs) (db : Dir) (leaf : List ℕ) : ℕ → Option Entry → Type 0 where
  replaces :
      (idx : ℕ)
      → find_entry_index s db leaf none ≡ some idx
      → (entry_at s db idx).type ≢ 1
      → Slot s db leaf idx (some (entry_at s db idx))
  creates :
      (idx : ℕ)
      → find_entry_index s db leaf none ≡ none
      → find_free_entry_index s db ≡ some idx
      → Slot s db leaf idx none

-- The blocks of a chain are in use and apart from the directory's block.
abbrev pub AllUsed : (s : Fs) → (dir_bno : ℕ) → List ℕ → Type 0
AllUsed s dir_bno blocks =
    (b : ℕ) → member b blocks ≡ true → (bit s.block_map b ≡ 1) × (b ≢ dir_bno)

-- The block is a directory with room for a file of this name: its own block is in use, the slot
-- lies in it, and the chain of a file that is replaced ends within the fuel and is in use.
pub record Target (s : Fs) (fuel dir_bno : ℕ) (leaf : List ℕ) : Type 0 where
  pub db : Dir
  pub at : s.disk dir_bno ≡ dir_block db
  pub whole : length db.entries ≡ stored_entries
  pub used : bit s.block_map dir_bno ≡ 1
  pub named : 0 < length leaf
  pub short : length leaf ≤ 19
  pub idx : ℕ
  pub old : Option Entry
  pub slot : Slot s db leaf idx old
  pub inside : idx < stored_entries
  pub blocks : List ℕ
  pub chain : IsChain s.disk (old_bno old) blocks
  pub enough : length blocks ≤ fuel
  pub chain_used : AllUsed s dir_bno blocks

-- There are free blocks for the bytes, and one for an empty file.
pub record HasRoom (s : Fs) (bytes : List ℕ) : Type 0 where
  pub one : 1 ≤ free_blocks s
  pub all : length bytes ≤ free_blocks s * data_payload

pub take_all : (n : ℕ) (xs : List ℕ) → length xs ≤ n → take n xs ≡ xs
take_all zero [] le = refl
take_all zero (x ∷ xs) le = absurd (omega arith)
take_all (suc n) [] le = refl
take_all (suc n) (x ∷ xs) le = ap (λ (t : List ℕ). x ∷ t) (take_all n xs (omega arith))

-- A chain stays one when its blocks do.
IsChain-same :
    (disk disk' : ℕ → Block) (s : Fs) (dir_bno bno : ℕ) (blocks : List ℕ)
    → ((b : ℕ) → bit s.block_map b ≡ 1 → b ≢ dir_bno → disk' b ≡ disk b)
    → AllUsed s dir_bno blocks
    → IsChain disk bno blocks
    → IsChain disk' bno blocks
unfolding IsChain member
IsChain-same disk disk' s dir_bno bno [] same all c = c
IsChain-same disk disk' s dir_bno bno (b ∷ bs) same all (e, nz, c) =
    let (m, ne) = all b (rw (==-refl b) refl) in
    (
      e,
      nz,
      rw (same b m ne) (
          IsChain-same disk disk' s dir_bno (next_of (disk b)) bs same
            (λ x h. all x (ground (arith, h))) c),
    )

-- No entry in front of the slot is a file of that name.
pub Slot-first :
    {s : Fs} {db : Dir} {leaf : List ℕ} {idx : ℕ} {old : Option Entry}
    → Slot s db leaf idx old
    → (idx < length (view s db)) × NoneBefore (matches leaf (some 0)) (view s db) idx
Slot-first {s} {db} {leaf} (replaces idx f t) =
    elim (find_from_lem (matches leaf none) 0 (view s db)) [
      | inl (n, all) ↦ absurd (cc)
      | inr (k, g, lt, h, all) ↦
          let same : idx ≡ 0 + k = some-injective _ _ (sym f ∙ g) in
          (omega arith, λ j p. matches-unfiltered leaf (some 0) _ (all j (omega arith)))
    ]
Slot-first {s} {db} {leaf} (creates idx n f) = elim (find_from_lem is_free 0 (view s db)) [
  | inl (m, all) ↦ absurd (cc)
  | inr (k, g, lt, h, all) ↦
      let same : idx ≡ 0 + k = some-injective _ _ (sym f ∙ g) in
      elim (find_from_lem (matches leaf none) 0 (view s db)) [
        | inl (n', none_at_all) ↦
            (omega arith, λ j p. matches-unfiltered leaf (some 0) _ (none_at_all j (omega arith)))
        | inr (k', g', lt', h', all') ↦ absurd (cc)
      ]
]

-- What store_file_bytes leaves: the new entry in its slot, the new blocks, and every other block
-- that was in use as it was.
pub record Stored (now dir_bno : ℕ) (leaf bytes : List ℕ) (s s' : Fs) (db : Dir) (idx : ℕ)
    (old : Option Entry) : Type 0 where
  pub valid : IsFs s'
  pub first : ℕ
  pub directory :
      s'.disk dir_bno
      ≡ dir_block (record db {
        entries =
            set db.entries idx (file_entry leaf first (length bytes) (created_at now old) now);
      })
  pub keeps : (b : ℕ) → bit s.block_map b ≡ 1 → b ≢ dir_bno → s'.disk b ≡ s.disk b
  pub same_behind : s'.behind ≡ s.behind
  pub reads : Reads s s' first bytes

-- The entry that is committed.
abbrev pub new_entry : (now : ℕ) → (leaf : List ℕ) → (first size : ℕ) → Option Entry → Entry
new_entry now leaf first size old = file_entry leaf first size (created_at now old) now

store_entry_lem :
    {s : Fs} (fuel now dir_bno : ℕ) (leaf bytes : List ℕ)
    → IsFs s
    → (t : Target s fuel dir_bno leaf) → HasRoom s bytes
    → (s' : Fs) × (store_entry fuel now dir_bno t.db t.idx t.old leaf bytes s ≡ some (ok, s'))
      × Stored now dir_bno leaf bytes s s' t.db t.idx t.old
unfolding store_entry commit
store_entry_lem {s} fuel now dir_bno leaf bytes v t room =
    let (first, s1, got, w) = store_blocks-Written bytes v room.one room.all in
    let e = new_entry now leaf first (length bytes) t.old in
    let s2 : Fs =
      with_disk
        (λ m.
          if m == dir_bno
          then dir_block (record t.db { entries = set t.db.entries t.idx e })
          else s1.disk m)
        s1 in
    let keeps : (b : ℕ) → bit s.block_map b ≡ 1 → b ≢ dir_bno → s2.disk b ≡ s.disk b =
      λ b m ne. rw (ne→== b dir_bno ne) (w.keeps b m) in
    let (s3, freed, f) =
      fs_free_chain-Freed {s = s2} fuel (old_bno t.old) t.blocks (with_disk-IsFs _ w.grown.valid)
        (IsChain-same s.disk s2.disk s dir_bno (old_bno t.old) t.blocks keeps t.chain_used t.chain)
        t.enough in
    let at : s3.disk dir_bno ≡ s2.disk dir_bno = rw (f.frame.same_disk) refl in
    let is_used : (b : ℕ) → IsFree s.block_map b → b ≢ dir_bno =
      λ b free h. absurd (ground (arith, h, free, t.used)) in
    let same : s3.disk ≡ s2.disk = f.frame.same_disk in
    (
      s3,
      rw
          (
            got,
            write_entry_lem dir_bno t.db t.idx e s1 t.inside,
            fs_free_chain_guarded fuel (old_bno t.old) s2,
            freed,
            store_entry,
            commit,
          )
          refl,
      record {
        valid = f.valid;
        first = first;
        directory = at ∙ rw (==-refl dir_bno) refl;
        keeps = λ b m ne. ap (λ (d : ℕ → Block). d b) same ∙ keeps b m ne;
        same_behind = f.frame.same_behind ∙ w.grown.same_behind;
        reads = λ u agree fuel' le.
            w.reads u
              (λ b free.
                agree b free
                ∙ (ap (λ (d : ℕ → Block). d b) same ∙ rw (ne→== b dir_bno (is_used b free)) refl))
              fuel' le;
      },
    )

store_in-Slot :
    {s : Fs} (fuel now dir_bno : ℕ) (leaf bytes : List ℕ) {db : Dir} {idx : ℕ} {old : Option Entry}
    → s.disk dir_bno ≡ dir_block db
    → Slot s db leaf idx old
    → store_in fuel now dir_bno leaf bytes s ≡ store_entry fuel now dir_bno db idx old leaf bytes s
unfolding store_in
store_in-Slot {s} fuel now dir_bno leaf bytes {db} at (replaces idx f t) =
    rw (at, f, ne→== _ 1 t, store_in) refl
store_in-Slot {s} fuel now dir_bno leaf bytes {db} at (creates idx n f) =
    rw (at, n, f, store_in) refl

-- store_file_bytes on a directory with room for the name and on a disk with room for the bytes
-- returns 0. It commits the entry in its slot and leaves the other slots, every other block that was
-- in use, and the map's well-formedness.
pub store_in-Stored :
    {s : Fs} (fuel now dir_bno : ℕ) (leaf bytes : List ℕ)
    → IsFs s
    → (t : Target s fuel dir_bno leaf) → HasRoom s bytes
    → (s' : Fs) × (store_in fuel now dir_bno leaf bytes s ≡ some (ok, s'))
      × Stored now dir_bno leaf bytes s s' t.db t.idx t.old
store_in-Stored fuel now dir_bno leaf bytes v t room =
    let (s', e, r) = store_entry_lem fuel now dir_bno leaf bytes v t room in
    (s', store_in-Slot fuel now dir_bno leaf bytes t.at t.slot ∙ e, r)
