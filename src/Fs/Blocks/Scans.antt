-- ===== src/Fs/Blocks/Scans.antt =====
-- vibeos/fs.c: fs_scan_dir marks whole trees of directories.
use native.Mathlib.Decide.{ℕ_discrete}
use mathlib.Core.Option.{some-injective}
use vibeos_fpga.Common.Bitmap.{mark, bit-mark}
use vibeos_fpga.Fs.{Dir, Fs, Block, dir_block, data_block, other, as_dir, next_of, view}
use vibeos_fpga.Fs.Blocks.{fs_block_is_used, fs_block_set_used, scan_entries, scan_dir}
use vibeos_fpga.Fs.Blocks.Rebuild.{
  Scanned, Scanned-then, fs_block_set_used-Scanned, scan_entries-Scanned, scan_dir-Scanned,
}
use vibeos_fpga.Fs.Blocks.Chains.{
  InRange, Whole, is_used-bit, Closed-mark, Closed-any, set_used_map,
}
use vibeos_fpga.Fs.Blocks.Trees.{
  Marked, IsDir, AllDone, Good, IsTree, AllDone-later, ScanGood, scan_entries-Good, Whole-later,
}
use vibeos_fpga.Common.{
  ℕ, zero, suc, ◌+◌, ◌≤◌, ◌<◌, ◌≡◌, refl, sym, ◌∙◌, ap, Bool, true, false, ◌&&◌, ◌||◌, ◌⊎◌, inl,
  inr, none, some, ltb, leb, ◌==◌, arith, Bool-cases, Option-cases, ltb→lt, ltb→le, ne→==,
}

-- While a directory is scanned it is busy.
abbrev with_busy : ℕ → (ℕ → Bool) → ℕ → Bool
with_busy bno busy d = d == bno || busy d

start-Good :
    (s s1 : Fs) (busy : ℕ → Bool) (bno : ℕ) (db : Dir)
    → Good s s1 busy
    → s.disk bno ≡ dir_block db
    → bno < s.max_blocks
    → Good s (fs_block_set_used bno s1) (with_busy bno busy) × Marked (fs_block_set_used bno s1) bno
start-Good s s1 busy bno db g at lt =
    let lt1 : bno < s1.max_blocks = omega (arith, g.scanned.same_max) in
    let s2 : Fs = record s1 { block_map = mark s1.block_map bno } in
    let f : Scanned s1 s2 = rw (set_used_map bno s1 lt1) at (fs_block_set_used-Scanned bno s1) in
    let no_next : next_of (s1.disk bno) ≡ 0 = rw (g.scanned.same_disk, at) refl in
    rw (set_used_map bno s1 lt1) (
      record {
        scanned = Scanned-then g.scanned f;
        whole = Whole-later s1 s2 g.whole f;
        system = λ i h. f.marked i g.whole (g.system i h);
        closed = rw (no_next) at (Closed-mark s1 bno g.whole lt1 (Closed-any s1 bno g.closed));
        dirs = λ d db' r m at' free. AllDone-later s s1 s2 (view s db') g.whole f (
            g.dirs d db' r (ground (arith, m, free, bit-mark s1.block_map bno d, g.whole, lt1)) at'
              (ground (arith, free)));
      },
      ground (arith, bit-mark s1.block_map bno bno, g.whole, lt1),
    )

-- The directory is done: it is busy no more.
finish-Good :
    (s s1 : Fs) (busy : ℕ → Bool) (bno : ℕ) (db : Dir)
    → Good s s1 (with_busy bno busy)
    → s.disk bno ≡ dir_block db
    → AllDone s s1 (view s db)
    → Good s s1 busy
finish-Good s s1 busy bno db g at all = record {
  scanned = g.scanned;
  whole = g.whole;
  system = g.system;
  closed = g.closed;
  dirs = λ d db' r m at' free. elim (ℕ_discrete d bno) [
    | yes e ↦
        let same : db' ≡ db = some-injective _ _ (ap as_dir (sym at' ∙ (ap s.disk e ∙ at))) in
        rw (same) all
    | no ne ↦ g.dirs d db' r m at' (rw (ne→== d bno ne) free)
  ];
}

as_dir-some : (k : Block) (db : Dir) → as_dir k ≡ some db → k ≡ dir_block db
as_dir-some (dir_block d) db e = ap dir_block (some-injective _ _ e)
as_dir-some (data_block n p) db e = absurd (cc)
as_dir-some (other b) db e = absurd (cc)

-- What a scan of a directory leaves: it is marked, and it is done if it is the root.
pub record DirScan (s s' : Fs) (bno depth : ℕ) (busy : ℕ → Bool) : Type 0 where
  pub good : Good s s' busy
  pub marked : IsDir s bno → InRange s bno → Marked s' bno
  pub done :
      (db : Dir)
      → depth ≡ 0
      → 0 < bno
      → bno < s.max_blocks
      → s.disk bno ≡ dir_block db
      → AllDone s s' (view s db)

-- The tests at the start of fs_scan_dir.
abbrev skips : (bno depth : ℕ) → Fs → Bool
skips bno depth s =
    bno == 0 || (leb s.max_blocks bno || (ltb 32 depth || (ltb 0 depth && fs_block_is_used s bno)))

skip-DirScan :
    (s s1 : Fs) (rank : ℕ → ℕ) (bno depth : ℕ) (busy : ℕ → Bool)
    → Good s s1 busy
    → (IsDir s bno → InRange s bno ⊎ (depth ≡ 0) → depth + rank bno ≤ 32)
    → skips bno depth s1 ≡ true
    → DirScan s s1 bno depth busy
skip-DirScan s s1 rank bno depth busy g fit e = record {
  good = g;
  marked = λ d r.
      let lt1 : bno < s1.max_blocks = omega (arith, r.1, g.scanned.same_max) in
      ground (arith, e, r.0, lt1, fit d (inl r), is_used-bit bno s1 lt1);
  done = λ db z lt l at.
      let lt1 : bno < s1.max_blocks = omega (arith, l, g.scanned.same_max) in
      absurd (ground (arith, e, z, lt, lt1));
}

-- A directory that is scanned is in range, or the root.
shallow :
    (s s1 : Fs) (bno depth : ℕ) (busy : ℕ → Bool)
    → Good s s1 busy
    → skips bno depth s1 ≡ false
    → (0 < bno) × (bno < s.max_blocks) × (InRange s bno ⊎ (depth ≡ 0))
shallow s s1 bno depth busy g e =
    let lt1 : bno < s1.max_blocks = ground (arith, e) in
    let lt : bno < s.max_blocks = omega (arith, lt1, g.scanned.same_max) in
    let pos : 0 < bno = ground (arith, e) in
    (
      pos,
      lt,
      elim (Bool-cases (ltb bno 60)) [
        | inr ge ↦ inl (ltb→le _ _ ge, lt)
        | inl sys ↦ inr (ground (arith, e, g.system bno (ltb→lt _ _ sys), is_used-bit bno s1 lt1))
      ],
    )

no_dir-DirScan :
    (s s1 : Fs) (bno depth : ℕ) (busy : ℕ → Bool)
    → Good s s1 busy
    → as_dir (s1.disk bno) ≡ none
    → DirScan s s1 bno depth busy
no_dir-DirScan s s1 bno depth busy g n = record {
  good = g;
  marked = λ d r. let h = clash d.0 d.1 in absurd (cc);
  done = λ db z lt l at. let h = clash db at in absurd (cc);
}
  where
    clash : (db : Dir) → s.disk bno ≡ dir_block db → none ≡ some db
    clash db at =
        sym n ∙ (ap (λ (d : ℕ → Block). as_dir (d bno)) g.scanned.same_disk ∙ ap as_dir at)

-- The entries are scanned, and with them the directory.
entries-DirScan :
    (s s2 s3 : Fs) (bno depth : ℕ) (busy : ℕ → Bool) (db : Dir)
    → s.disk bno ≡ dir_block db
    → Whole s2
    → Marked s2 bno
    → Scanned s2 s3
    → Good s s3 (with_busy bno busy)
    → AllDone s s3 (view s db)
    → DirScan s s3 bno depth busy
entries-DirScan s s2 s3 bno depth busy db at w m f g all = record {
  good = finish-Good s s3 busy bno db g at all;
  marked = λ d r. f.marked bno w m;
  done = λ db' z lt l at'.
      let same : db' ≡ db = some-injective _ _ (ap as_dir (sym at' ∙ at)) in rw (same) all;
}

pub scan_dir-DirScan :
    (s : Fs) (rank : ℕ → ℕ)
    → IsTree s rank
    → (fuel bno depth : ℕ) (s1 : Fs) (busy : ℕ → Bool) → fuel + depth ≡ 34
    → Good s s1 busy
    → (IsDir s bno → InRange s bno ⊎ (depth ≡ 0) → depth + rank bno ≤ 32)
    → DirScan s (scan_dir fuel bno depth s1) bno depth busy
unfolding scan_dir
scan_dir-DirScan s rank tree zero bno depth s1 busy all g fit = record {
  good = g;
  marked = λ d r. absurd (omega (arith, fit d (inl r)));
  done = λ db z lt l at. absurd (omega arith);
}
scan_dir-DirScan s rank tree (suc fuel) bno depth s1 busy all g fit =
    elim (Bool-cases (skips bno depth s1)) [
      | inl e ↦ rw (e, scan_dir) (skip-DirScan s s1 rank bno depth busy g fit e)
      | inr e ↦ elim (Option-cases (as_dir (s1.disk bno))) [
        | inl n ↦ rw (e, n, scan_dir) (no_dir-DirScan s s1 bno depth busy g n)
        | inr (db, f) ↦
            let at1 = as_dir-some (s1.disk bno) db f in
            let at : s.disk bno ≡ dir_block db =
              sym (ap (λ (d : ℕ → Block). d bno) g.scanned.same_disk) ∙ at1 in
            let (pos, lt, near) = shallow s s1 bno depth busy g e in
            let deep = fit (db, at) near in
            let started = start-Good s s1 busy bno db g at lt in
            let s2 : Fs = fs_block_set_used bno s1 in
            let scan : ℕ → Fs → Fs = λ child t. scan_dir fuel child (suc depth) t in
            let busy' = with_busy bno busy in
            let ih : ScanGood s rank (suc depth) busy' scan = λ child t h q.
              let r =
                scan_dir-DirScan s rank tree fuel child (suc depth) t busy' (omega arith) h
                  (λ d c. elim c [ inl range ↦ q d range | inr z ↦ absurd (omega arith) ]) in
              (r.good, r.marked) in
            let r =
              scan_entries-Good s s2 rank (suc depth) busy' scan (view s db) ih
                (λ child t. scan_dir-Scanned fuel child (suc depth) t) tree.links_apart
                (λ j l u d is_dir. omega (arith, tree.lower bno db j at l u d is_dir, deep))
                (λ j l u d. tree.files_apart bno db j at l u d) started.0 in
            let same : view s1 db ≡ view s db = rw (g.scanned.same_behind) refl in
            rw (e, f, same, scan_dir)
              (entries-DirScan s s2 (scan_entries scan (view s db) s2) bno depth busy db at
                started.0.whole started.1
                (scan_entries-Scanned scan (view s db) s2
                  (λ child t. scan_dir-Scanned fuel child (suc depth) t))
                r.0 r.1)
      ]
    ]
