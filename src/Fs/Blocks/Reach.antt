-- ===== src/Fs/Blocks/Reach.antt =====
-- vibeos/fs.c: after a rebuild no block that a path leads to is free.
use vibeos_fpga.Common.Bitmap.{bit}
use vibeos_fpga.Fs.{Dir, Fs, Block, dir_block, next_of, view, is_free, empty_entry}
use vibeos_fpga.Fs.Blocks.{scan_dir, fs_scan_dir, reserve_system, fs_rebuild_alloc_state}
use vibeos_fpga.Fs.Blocks.Rebuild.{
  Scanned-nothing, IsSized, reserve_system-IsFs, reserve_system_free,
}
use vibeos_fpga.Fs.Blocks.Chains.{InRange}
use vibeos_fpga.Fs.Blocks.Scans.{DirScan, scan_dir-DirScan}
use vibeos_fpga.Fs.Blocks.Trees.{Marked, IsDir, AllDone, Good, IsTree}
use vibeos_fpga.Common.{
  ℕ, ◌<◌, ◌≡◌, refl, ◌∙◌, ap, true, false, inl, inr, ◌==◌, arith, length, get_or,
}

-- The directories that paths from the root lead to.
pub data Reach (s : Fs) : ℕ → Type 0 where
  top : Reach s 1
  sub :
      (d : ℕ) (db : Dir) (j child : ℕ)
      → Reach s d
      → s.disk d ≡ dir_block db
      → j < length (view s db)
      → is_free (get_or (view s db) j empty_entry) ≡ false
      → ((get_or (view s db) j empty_entry).type == 1) ≡ true
      → (get_or (view s db) j empty_entry).bno ≡ child
      → InRange s child
      → IsDir s child
      → Reach s child

-- The blocks that they need: those of the directories, of their files, and what these link to.
pub data Needed (s : Fs) : ℕ → Type 0 where
  directory : (d : ℕ) → Reach s d → Needed s d
  file :
      (d : ℕ) (db : Dir) (j b : ℕ)
      → Reach s d
      → s.disk d ≡ dir_block db
      → j < length (view s db)
      → is_free (get_or (view s db) j empty_entry) ≡ false
      → ((get_or (view s db) j empty_entry).type == 1) ≡ false
      → (get_or (view s db) j empty_entry).bno ≡ b
      → Needed s b
  link : (b c : ℕ) → Needed s b → InRange s b → next_of (s.disk b) ≡ c → Needed s c

module _ (s : Fs) (rank : ℕ → ℕ) (tree : IsTree s rank) (sized : IsSized s) where
  base : Fs
  base = reserve_system s

  base-IsTree : IsTree base rank
  unfolding base reserve_system
  base-IsTree = record {
    top = tree.top;
    lower = tree.lower;
    files_apart = tree.files_apart;
    links_apart = tree.links_apart;
  }

  base-Good : Good base base (λ d. false)
  unfolding base
  base-Good =
      let v = reserve_system-IsFs sized in
      record {
        scanned = Scanned-nothing (reserve_system s);
        whole = v.whole;
        system = λ i lt. v.packed i (omega (arith, v.system_le));
        closed = λ b r m n. absurd (omega (arith, m, reserve_system_free b sized r.0));
        dirs = λ d db r m at free. absurd (omega (arith, m, reserve_system_free d sized r.0));
      }

  rebuilt : Fs
  rebuilt = scan_dir 34 1 0 base

  root-DirScan : DirScan base rebuilt 1 0 (λ d. false)
  unfolding rebuilt
  root-DirScan =
      scan_dir-DirScan base rank base-IsTree 34 1 0 base (λ d. false) (omega arith) base-Good
        (λ d c. omega (arith, tree.top))

  Reach-AllDone :
      (d : ℕ) (db : Dir) → Reach s d → s.disk d ≡ dir_block db → AllDone base rebuilt (view s db)
  unfolding base reserve_system
  Reach-AllDone d db top at =
      root-DirScan.done db refl (omega arith) (omega (arith, sized.large)) at
  Reach-AllDone d db (sub p db' j child up at' lt used dir same range is_dir) at =
      let done = Reach-AllDone p db' up at' j lt used (rw (same) range) (inr (rw (same) is_dir)) in
      root-DirScan.good.dirs child db range (rw (same) at done) at refl

  Needed-Marked : (b : ℕ) → Needed s b → InRange s b → Marked rebuilt b
  unfolding base reserve_system
  Needed-Marked b (directory d top) r = absurd (omega (arith, r.0))
  Needed-Marked b (directory d (sub p db' j child up at' lt used dir same range is_dir)) r =
      rw (same) at (Reach-AllDone p db' up at' j lt used (rw (same) range) (inr (rw (same) is_dir)))
  Needed-Marked b (file d db j c up at lt used plain same) r =
      rw (same) at (Reach-AllDone d db up at j lt used (rw (same) r) (inl plain))
  Needed-Marked b (link a c from range same) r =
      let f = root-DirScan.good.scanned in
      let m = Needed-Marked a from range in
      let e : next_of (rebuilt.disk a) ≡ c =
        ap (λ (d : ℕ → Block). next_of (d a)) f.same_disk ∙ same in
      let range' : InRange rebuilt a = (range.0, omega (arith, range.1, f.same_max)) in
      let next' : InRange rebuilt (next_of (rebuilt.disk a)) =
        rw (e) (r.0, omega (arith, r.1, f.same_max)) in
      elim (root-DirScan.good.closed a range' m next') [
        | inl h ↦ rw (e) at h
        | inr z ↦ absurd (omega (arith, r.0, e, z))
      ]

-- After fs_rebuild_alloc_state on a disk whose directories form a tree of at most 32 levels below a
-- root that is one, apart from its files, every block from 60 on that a path leads to is marked as
-- used: the block of a directory, and each block of a chain that an entry of a directory starts.
pub fs_rebuild_alloc_state-Needed :
    {s : Fs} (rank : ℕ → ℕ) (b : ℕ)
    → IsTree s rank
    → IsSized s
    → IsDir s 1
    → Needed s b
    → InRange s b
    → bit (fs_rebuild_alloc_state s).block_map b ≡ 1
unfolding fs_rebuild_alloc_state fs_scan_dir reserve_system base rebuilt
fs_rebuild_alloc_state-Needed {s} rank b tree sized (db, at) n r =
    rw (at, fs_rebuild_alloc_state) (Needed-Marked s rank tree sized b n r)
