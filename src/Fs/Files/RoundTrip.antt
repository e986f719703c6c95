-- ===== src/Fs/Files/RoundTrip.antt =====
-- vibeos/fs.c: load_file_bytes gives back what store_file_bytes stored.
use vibeos_fpga.Strings.{copy_name20}
use vibeos_fpga.Fs.{Dir, Fs, view, ok, empty_entry}
use vibeos_fpga.Fs.Blocks.Invariant.{IsFs}
use vibeos_fpga.Fs.Dirs.{matches, find_entry_index, entry_at}
use vibeos_fpga.Fs.Dirs.Slots.{find_from-set, set-append, load_current_dir-ready, matches_lem}
use vibeos_fpga.Fs.Files.{store_in, load_found, file_entry, load_in}
use vibeos_fpga.Fs.Files.Store.{
  Target, HasRoom, take_all, Slot-first, Stored, new_entry, store_in-Stored,
}
use vibeos_fpga.Common.{
  ℕ, ◌+◌, ◌≤◌, ◌≡◌, refl, sym, ◌∙◌, ap, true, some, List, ◌++◌, arith, length, set, le→ltb, ne→==,
  get_or-set_self,
}

zero_plus : (n : ℕ) → 0 + n ≡ n
zero_plus n = omega arith

-- The entry that was committed is the one that load_file_bytes finds.
find-Stored :
    {s : Fs} (fuel now dir_bno : ℕ) (leaf bytes : List ℕ) (t : Target s fuel dir_bno leaf) (s' : Fs)
    → (r : Stored now dir_bno leaf bytes s s' t.db t.idx t.old)
    → let e = new_entry now leaf r.first (length bytes) t.old in
      let db' : Dir = record t.db { entries = set t.db.entries t.idx e } in
      (find_entry_index s' db' leaf (some 0) ≡ some t.idx) × (entry_at s' db' t.idx ≡ e)
unfolding file_entry
find-Stored {s} fuel now dir_bno leaf bytes t s' r =
    let e = new_entry now leaf r.first (length bytes) t.old in
    let same : set t.db.entries t.idx e ++ s'.behind ≡ set (view s t.db) t.idx e =
      rw (r.same_behind)
        (sym (set-append t.db.entries s.behind t.idx e (omega (arith, t.whole, t.inside)))) in
    let (lt, before) = Slot-first t.slot in
    let whole_name : copy_name20 leaf ≡ leaf = take_all 19 leaf t.short in
    let hit : matches leaf (some 0) e ≡ true =
      matches_lem leaf 0 e (rw (whole_name) (ne→== _ 0 (λ h. absurd (omega (arith, t.named)))))
        whole_name refl in
    (
      rw (same) (
          find_from-set (matches leaf (some 0)) 0 (view s t.db) t.idx e lt hit before
          ∙ ap some (zero_plus t.idx)),
      rw (same) (get_or-set_self (view s t.db) t.idx e empty_entry lt),
    )

-- On a directory with room for the name and a disk with room for the bytes, store_file_bytes
-- returns 0, and load_file_bytes of that name into a buffer that is large enough then returns 0 and
-- exactly the bytes that were stored.
pub load_in-store_in :
    {s : Fs} (fuel now dir_bno max_size : ℕ) (leaf bytes : List ℕ)
    → IsFs s
    → Target s fuel dir_bno leaf
    → HasRoom s bytes
    → length bytes ≤ max_size
    → (s' : Fs) × (store_in fuel now dir_bno leaf bytes s ≡ some (ok, s'))
      × (load_in dir_bno leaf max_size s' ≡ some ((ok, bytes), s'))
unfolding load_in load_found file_entry
load_in-store_in {s} fuel now dir_bno max_size leaf bytes v t room le =
    let (s', e, r) = store_in-Stored fuel now dir_bno leaf bytes v t room in
    let (f, g) = find-Stored fuel now dir_bno leaf bytes t s' r in
    (
      s',
      e,
      rw
          (
            load_current_dir-ready s' dir_bno r.valid.ready,
            r.directory,
            f,
            g,
            le→ltb max_size (length bytes) le,
            r.reads s' (λ b h. refl) (length bytes) (omega arith),
            load_in,
            load_found,
          )
          refl,
    )
