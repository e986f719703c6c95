-- ===== src/Fs/Files/Others.antt =====
-- vibeos/fs.c: what store_file_bytes does to the other files, and that reading a file ends.
use mathlib.Core.Option.{some-injective}
use vibeos_fpga.Strings.{strcmp}
use vibeos_fpga.Fs.{
  Entry, Dir, Fs, Block, dir_block, data_block, other, view, Status, ok, error, empty_entry,
  next_of,
}
use vibeos_fpga.Fs.Blocks.Invariant.{IsFs}
use vibeos_fpga.Fs.Blocks.Release.{IsChain, member}
use vibeos_fpga.Fs.Dirs.{matches, find_entry_index, entry_at}
use vibeos_fpga.Fs.Dirs.Slots.{
  find_from_lem, find_from-set_other, set-append, load_current_dir-ready, matches_other,
}
use vibeos_fpga.Fs.Files.{store_in, file_entry, load_in, load_found, load_loop, read_block}
use vibeos_fpga.Fs.Files.Store.{
  AllUsed, Target, HasRoom, take_all, Stored, new_entry, store_in-Stored,
}
use vibeos_fpga.Common.{
  ℕ, zero, suc, ◌+◌, ◌≡◌, ◌≢◌, refl, sym, ◌∙◌, ap, Bool, true, false, ◌||◌, inl, inr, Option, none,
  some, List, [], ◌∷◌, ◌++◌, ltb, ◌==◌, if◌then◌else◌, ◌>>=◌, arith, length, get_or, set,
  Bool-cases, ==-refl, get_or-set_ne,
}

-- Two ways to read on that agree behind a block read the block the same.
read_block_same :
    (f g : ℕ → ℕ → Option (List ℕ)) (remaining : ℕ) (k : Block)
    → ((left : ℕ) → f left (next_of k) ≡ g left (next_of k))
    → read_block f remaining k ≡ read_block g remaining k
unfolding read_block
read_block_same f g remaining (dir_block db) h = refl
read_block_same f g remaining (other bytes) h = refl
read_block_same f g remaining (data_block next_bno payload) h = rw (h _) refl

-- A read of a chain that ends reads the same from a disk that agrees on its blocks.
load_loop_same :
    (fuel remaining bno : ℕ) (s s' : Fs) (blocks : List ℕ)
    → IsChain s.disk bno blocks
    → ((b : ℕ) → member b blocks ≡ true → s'.disk b ≡ s.disk b)
    → load_loop fuel remaining bno s' ≡ load_loop fuel remaining bno s
unfolding load_loop IsChain member
load_loop_same zero remaining bno s s' blocks c same = refl
load_loop_same (suc fuel) remaining bno s s' [] c same =
    let z : (remaining == 0 || bno == 0) ≡ true = ground (arith, c) in rw (z) refl
load_loop_same (suc fuel) remaining bno s s' (b ∷ bs) (e, nz, c) same =
    elim (Bool-cases (remaining == 0 || bno == 0)) [
      | inl z ↦ rw (z) refl
      | inr z ↦
          let head = same b (rw (==-refl b) refl) in
          rw (z, e, head)
            (read_block_same (λ left next. load_loop fuel left next s')
              (λ left next. load_loop fuel left next s) remaining (s.disk b)
              (λ left.
                load_loop_same fuel left (next_of (s.disk b)) s s' bs c
                  (λ x h. same x (ground (arith, h)))))
    ]

-- Another file of the directory: its slot, and the chain of its blocks, which are in use.
pub record Other (s : Fs) (dir_bno idx : ℕ) (db : Dir) (name : List ℕ) : Type 0 where
  pub slot : ℕ
  pub found : find_entry_index s db name (some 0) ≡ some slot
  pub apart : idx ≢ slot
  pub blocks : List ℕ
  pub chain : IsChain s.disk (entry_at s db slot).bno blocks
  pub chain_used : AllUsed s dir_bno blocks

get_or-set_other :
    (xs : List Entry) (i j : ℕ) (v : Entry)
    → i ≢ j
    → get_or (set xs i v) j empty_entry ≡ get_or xs j empty_entry
get_or-set_other xs i j v ne = get_or-set_ne xs i j v empty_entry ne

-- The other file is found in its slot, with its entry.
find_other :
    {s : Fs} (fuel now dir_bno : ℕ) (leaf bytes name : List ℕ) (t : Target s fuel dir_bno leaf)
    (s' : Fs)
    → (r : Stored now dir_bno leaf bytes s s' t.db t.idx t.old)
    → (o : Other s dir_bno t.idx t.db name) → strcmp leaf name ≢ 0
    → let e = new_entry now leaf r.first (length bytes) t.old in
      let db' : Dir = record t.db { entries = set t.db.entries t.idx e } in
      (find_entry_index s' db' name (some 0) ≡ some o.slot)
      × (entry_at s' db' o.slot ≡ entry_at s t.db o.slot)
unfolding file_entry
find_other {s} fuel now dir_bno leaf bytes name t s' r o ne =
    let e = new_entry now leaf r.first (length bytes) t.old in
    let same : set t.db.entries t.idx e ++ s'.behind ≡ set (view s t.db) t.idx e =
      rw (r.same_behind)
        (sym (set-append t.db.entries s.behind t.idx e (omega (arith, t.whole, t.inside)))) in
    let miss : matches name (some 0) e ≡ false =
      matches_other name 0 e (rw (take_all 19 leaf t.short) ne) in
    (
      rw (same) (elim (find_from_lem (matches name (some 0)) 0 (view s t.db)) [
        | inl (n, all) ↦ absurd (cc)
        | inr (k, g, lt, h, all) ↦
            let at : o.slot ≡ 0 + k = some-injective _ _ (sym o.found ∙ g) in
            let ne' : t.idx ≢ k = λ q. o.apart (omega arith) in
            find_from-set_other (matches name (some 0)) 0 (view s t.db) k t.idx e lt h all ne' miss
            ∙ ap some (sym at)
      ]),
      rw (same) (get_or-set_other (view s t.db) t.idx o.slot e o.apart),
    )

-- The result of load_file_bytes, without the state.
abbrev pub result : Option ((Status × List ℕ) × Fs) → Option (Status × List ℕ)
result none = none
result (some (r, s)) = some r

same_result :
    (refused : Bool) (got : Option (List ℕ)) (s s' : Fs)
    → result
        (if refused then some ((error 3, []), s) else (got >>= (λ bytes. some ((ok, bytes), s))))
      ≡ result (
          if refused then some ((error 3, []), s') else (got >>= (λ bytes. some ((ok, bytes), s'))))
same_result true got s s' = refl
same_result false none s s' = refl
same_result false (some bytes) s s' = refl

-- After a file was stored in a directory with room for it, load_file_bytes of another name of that
-- directory, whose entry lies in another slot and whose blocks were in use, gives the same status
-- and the same bytes as before, into a buffer of any size.
pub load_in-store_in_other :
    {s : Fs} (fuel now dir_bno max_size : ℕ) (leaf bytes name : List ℕ)
    → IsFs s
    → (t : Target s fuel dir_bno leaf) → HasRoom s bytes
    → Other s dir_bno t.idx t.db name
    → strcmp leaf name ≢ 0
    → (s' : Fs) × (store_in fuel now dir_bno leaf bytes s ≡ some (ok, s'))
      × (result (load_in dir_bno name max_size s') ≡ result (load_in dir_bno name max_size s))
unfolding load_in load_found
load_in-store_in_other {s} fuel now dir_bno max_size leaf bytes name v t room o ne =
    let (s', e, r) = store_in-Stored fuel now dir_bno leaf bytes v t room in
    let (f, g) = find_other fuel now dir_bno leaf bytes name t s' r o ne in
    let old = entry_at s t.db o.slot in
    (
      s',
      e,
      rw
          (
            load_current_dir-ready s' dir_bno r.valid.ready,
            load_current_dir-ready s dir_bno v.ready,
            r.directory,
            t.at,
            f,
            g,
            o.found,
            load_loop_same old.size old.size old.bno s s' o.blocks o.chain
                (λ b h. let (m, q) = o.chain_used b h in r.keeps b m q),
            load_in,
            load_found,
          )
          (same_result (ltb max_size old.size) (load_loop old.size old.size old.bno s) s' s),
    )
