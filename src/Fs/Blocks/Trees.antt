-- ===== src/Fs/Blocks/Trees.antt =====
-- vibeos/fs.c: what a scan of the directories keeps, and the scan of their entries.
use vibeos_fpga.Common.Bitmap.{bit}
use vibeos_fpga.Fs.{Entry, Dir, Fs, dir_block, view, is_free, empty_entry}
use vibeos_fpga.Fs.Blocks.{fs_scan_chain, scan_entries}
use vibeos_fpga.Fs.Blocks.Rebuild.{
  Scanned, Scanned-nothing, Scanned-then, fs_scan_chain-Scanned, scan_entries-Scanned,
}
use vibeos_fpga.Fs.Blocks.Chains.{
  InRange, Whole, Closed, fs_scan_chain-Closed, LinksApart, fs_scan_chain-apart,
}
use vibeos_fpga.Common.{
  ℕ, zero, suc, ◌+◌, ◌≤◌, ◌<◌, ◌≡◌, ◌≢◌, Bool, true, false, ◌⊎◌, inl, inr, List, [], ◌∷◌, ◌==◌,
  if◌then◌else◌, arith, length, get_or, Bool-cases,
}

abbrev pub Marked : Fs → ℕ → Type 0
Marked s b = bit s.block_map b ≡ 1

abbrev pub IsDir : Fs → ℕ → Type 0
IsDir s b = (db : Dir) × (s.disk b ≡ dir_block db)

-- An entry in use leads to a file or to a directory.
abbrev pub Leads : Fs → Entry → Type 0
Leads s e = ((e.type == 1) ≡ false) ⊎ IsDir s e.bno

-- The block that an entry leads to is marked in `s'`.
abbrev pub EntryDone : (s s' : Fs) → Entry → Type 0
EntryDone s s' e = is_free e ≡ false → InRange s e.bno → Leads s e → Marked s' e.bno

abbrev pub AllDone : (s s' : Fs) → List Entry → Type 0
AllDone s s' es = (j : ℕ) → j < length es → EntryDone s s' (get_or es j empty_entry)

-- A state of a scan that began in `s`: its marks are closed, and a marked directory that is not
-- being scanned is done.
pub record Good (s s' : Fs) (busy : ℕ → Bool) : Type 0 where
  pub scanned : Scanned s s'
  pub whole : Whole s'
  pub system : (i : ℕ) → i < 60 → Marked s' i
  pub closed : Closed s' 0
  pub dirs :
      (d : ℕ) (db : Dir)
      → InRange s d
      → Marked s' d
      → s.disk d ≡ dir_block db
      → busy d ≡ false
      → AllDone s s' (view s db)

-- The directories of the disk form a tree of at most 32 levels below the root, apart from its files.
pub record IsTree (s : Fs) (rank : ℕ → ℕ) : Type 0 where
  pub top : rank 1 ≤ 32
  pub lower :
      (d : ℕ) (db : Dir) (j : ℕ)
      → s.disk d ≡ dir_block db
      → j < length (view s db)
      → is_free (get_or (view s db) j empty_entry) ≡ false
      → ((get_or (view s db) j empty_entry).type == 1) ≡ true
      → IsDir s (get_or (view s db) j empty_entry).bno
      → rank (get_or (view s db) j empty_entry).bno < rank d
  pub files_apart :
      (d : ℕ) (db : Dir) (j : ℕ)
      → s.disk d ≡ dir_block db
      → j < length (view s db)
      → is_free (get_or (view s db) j empty_entry) ≡ false
      → ((get_or (view s db) j empty_entry).type == 1) ≡ false
      → (db' : Dir) → s.disk (get_or (view s db) j empty_entry).bno ≢ dir_block db'
  pub links_apart : LinksApart s

-- What is done stays done.
pub AllDone-later :
    (s s1 s2 : Fs) (es : List Entry) → Whole s1 → Scanned s1 s2 → AllDone s s1 es → AllDone s s2 es
AllDone-later s s1 s2 es w f all j lt used r l =
    f.marked (get_or es j empty_entry).bno w (all j lt used r l)

pub Whole-later : (s1 s2 : Fs) → Whole s1 → Scanned s1 s2 → Whole s2
Whole-later s1 s2 w f = omega (arith, f.same_length, f.same_max)

-- The scan of a file keeps a state good.
fs_scan_chain-Good :
    (s s1 : Fs) (busy : ℕ → Bool) (bno : ℕ)
    → LinksApart s
    → Good s s1 busy
    → ((db : Dir) → s.disk bno ≢ dir_block db)
    → Good s (fs_scan_chain bno s1) busy × (InRange s bno → Marked (fs_scan_chain bno s1) bno)
fs_scan_chain-Good s s1 busy bno links g apart =
    let f = fs_scan_chain-Scanned bno s1 in
    let c = fs_scan_chain-Closed bno s1 g.whole g.closed in
    let links1 : LinksApart s1 =
      rw (g.scanned.same_disk)
        (λ b db r. links b db (r.0, omega (arith, r.1, g.scanned.same_max))) in
    (
      record {
        scanned = Scanned-then g.scanned f;
        whole = Whole-later s1 (fs_scan_chain bno s1) g.whole f;
        system = λ i lt. f.marked i g.whole (g.system i lt);
        closed = c.0;
        dirs = λ d db r m at free. AllDone-later s s1 (fs_scan_chain bno s1) (view s db) g.whole f (
            g.dirs d db r
              (fs_scan_chain-apart bno s1 g.whole links1
                (λ q db'. rw (g.scanned.same_disk) (apart db')) d db (rw (g.scanned.same_disk) at)
                m)
              at free);
      },
      λ r. c.1 (r.0, omega (arith, r.1, g.scanned.same_max)),
    )

-- What the scan of one entry leaves.
record Visit (s s1 s2 : Fs) (busy : ℕ → Bool) (e : Entry) : Type 0 where
  good : Good s s2 busy
  done : EntryDone s s2 e
  later : Scanned s1 s2

-- The scan of a directory keeps a state good and marks the directory, when it is not too deep.
abbrev pub ScanGood :
    (s : Fs) (rank : ℕ → ℕ) (depth : ℕ) (busy : ℕ → Bool) (scan : ℕ → Fs → Fs) → Type 0
ScanGood s rank depth busy scan =
    (child : ℕ) (t : Fs)
    → Good s t busy
    → (IsDir s child → InRange s child → depth + rank child ≤ 32)
    → Good s (scan child t) busy × (IsDir s child → InRange s child → Marked (scan child t) child)

scan_entry-Visit :
    (s s1 : Fs) (rank : ℕ → ℕ) (depth : ℕ) (busy : ℕ → Bool) (scan : ℕ → Fs → Fs) (e : Entry)
    → ScanGood s rank depth busy scan
    → ((child : ℕ) (t : Fs) → Scanned t (scan child t))
    → LinksApart s
    → (is_free e ≡ false → (e.type == 1) ≡ true → IsDir s e.bno → depth + rank e.bno ≤ 32)
    → (is_free e ≡ false → (e.type == 1) ≡ false → (db : Dir) → s.disk e.bno ≢ dir_block db)
    → Good s s1 busy
    → Visit s s1
        (if is_free e then s1 else if e.type == 1 then scan e.bno s1 else fs_scan_chain e.bno s1)
        busy
        e
scan_entry-Visit s s1 rank depth busy scan e good mono links fit apart g =
    elim (Bool-cases (is_free e)) [
      | inl f ↦ rw (f) (record { good = g; done = λ used. absurd (cc); later = Scanned-nothing s1 })
      | inr f ↦ elim (Bool-cases (e.type == 1)) [
        | inl d ↦
            let r = good e.bno s1 g (λ is_dir q. fit f d is_dir) in
            rw (f, d)
              (record {
                good = r.0;
                done = λ used q l. elim l [ inl file ↦ absurd (cc) | inr is_dir ↦ r.1 is_dir q ];
                later = mono e.bno s1;
              })
        | inr d ↦
            let r = fs_scan_chain-Good s s1 busy e.bno links g (apart f d) in
            rw (f, d)
              (record {
                good = r.0;
                done = λ used q l. r.1 q;
                later = fs_scan_chain-Scanned e.bno s1;
              })
      ]
    ]

pub scan_entries-Good :
    (s s1 : Fs) (rank : ℕ → ℕ) (depth : ℕ) (busy : ℕ → Bool) (scan : ℕ → Fs → Fs) (es : List Entry)
    → ScanGood s rank depth busy scan
    → ((child : ℕ) (t : Fs) → Scanned t (scan child t))
    → LinksApart s
    → ((j : ℕ)
        → j < length es
        → is_free (get_or es j empty_entry) ≡ false
        → ((get_or es j empty_entry).type == 1) ≡ true
        → IsDir s (get_or es j empty_entry).bno
        → depth + rank (get_or es j empty_entry).bno ≤ 32)
    → ((j : ℕ)
        → j < length es
        → is_free (get_or es j empty_entry) ≡ false
        → ((get_or es j empty_entry).type == 1) ≡ false
        → (db : Dir) → s.disk (get_or es j empty_entry).bno ≢ dir_block db)
    → Good s s1 busy
    → Good s (scan_entries scan es s1) busy × AllDone s (scan_entries scan es s1) es
unfolding scan_entries
scan_entries-Good s s1 rank depth busy scan [] good mono links fit apart g =
    (g, λ j lt. absurd (omega arith))
scan_entries-Good s s1 rank depth busy scan (e ∷ es) good mono links fit apart g =
    let one =
      scan_entry-Visit s s1 rank depth busy scan e good mono links (fit 0 (omega arith))
        (apart 0 (omega arith)) g in
    let s2 : Fs =
      if is_free e then s1 else if e.type == 1 then scan e.bno s1 else fs_scan_chain e.bno s1 in
    let rest =
      scan_entries-Good s s2 rank depth busy scan es good mono links
        (λ j lt. fit (suc j) (omega arith)) (λ j lt. apart (suc j) (omega arith)) one.good in
    (
      rest.0,
      all_done s s2 (scan_entries scan es s2) e es one.good.whole
          (scan_entries-Scanned scan es s2 mono) one.done rest.1,
    )
  where
    all_done :
        (s s2 s3 : Fs) (e : Entry) (es : List Entry)
        → Whole s2
        → Scanned s2 s3
        → EntryDone s s2 e
        → AllDone s s3 es
        → AllDone s s3 (e ∷ es)
    all_done s s2 s3 e es w f done all zero lt used r l = f.marked e.bno w (done used r l)
    all_done s s2 s3 e es w f done all (suc j) lt used r l = all j (omega arith) used r l
