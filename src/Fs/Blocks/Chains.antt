-- ===== src/Fs/Blocks/Chains.antt =====
-- vibeos/fs.c: fs_scan_chain marks whole chains.
use native.Mathlib.Decide.{ℕ_discrete}
use vibeos_fpga.Common.Bitmap.{bit, bit-lt, mark, bit-mark, length-mark}
use vibeos_fpga.Fs.{Fs, Dir, dir_block, next_of}
use vibeos_fpga.Fs.Blocks.{fs_block_is_used, fs_block_set_used, scan_chain_loop, fs_scan_chain}
use vibeos_fpga.Fs.Blocks.Space.{free_from, free_from_same}
use vibeos_fpga.Fs.Blocks.Rebuild.{scan_chain_loop-Scanned}
use vibeos_fpga.Common.{
  ℕ, zero, suc, ◌+◌, ◌*◌, ◌/◌, ◌≤◌, ◌<◌, ◌≡◌, ◌≢◌, refl, false, not, ◌&&◌, ◌||◌, ◌⊎◌, inl, inr,
  List, ltb, leb, ◌==◌, arith, length, Bool-cases,
}

-- A block that the map describes, behind the first 60.
abbrev pub InRange : Fs → ℕ → Type 0
InRange s b = (60 ≤ b) × (b < s.max_blocks)

abbrev pub Whole : Fs → Type 0
Whole s = length s.block_map * 8 ≡ s.max_blocks

-- What a marked block is linked to is marked, or it is the block that a scan goes to next.
abbrev pub Closed : Fs → (pending : ℕ) → Type 0
Closed s pending =
    (b : ℕ)
    → InRange s b
    → bit s.block_map b ≡ 1
    → InRange s (next_of (s.disk b))
    → (bit s.block_map (next_of (s.disk b)) ≡ 1) ⊎ (next_of (s.disk b) ≡ pending)

free_from-mark :
    (left i k : ℕ) (bm : List ℕ)
    → k / 8 < length bm
    → i ≤ k
    → k < i + left
    → bit bm k ≡ 0
    → free_from left i bm ≡ suc (free_from left i (mark bm k))
unfolding free_from
free_from-mark zero i k bm w p q f = absurd (omega arith)
free_from-mark (suc left) i k bm w p q f = elim (ℕ_discrete i k) [
  | yes e ↦
      let same =
        free_from_same left (suc i) bm (mark bm k) (λ j h. ground (arith, bit-mark bm k j w)) in
      let at : bit (mark bm k) i ≡ 1 = ground (arith, bit-mark bm k i w) in
      let was : bit bm i ≡ 0 = rw (e) f in omega (arith, same, at, was)
  | no ne ↦
      let ih = free_from-mark left (suc i) k bm w (omega arith) (omega arith) f in
      let at : bit (mark bm k) i ≡ bit bm i = ground (arith, bit-mark bm k i w) in
      omega (arith, ih, at)
]

free_from-none :
    (left i k : ℕ) (bm : List ℕ) → free_from left i bm ≡ 0 → i ≤ k → k < i + left → bit bm k ≡ 1
unfolding free_from
free_from-none zero i k bm e p q = absurd (omega arith)
free_from-none (suc left) i k bm e p q = elim (ℕ_discrete i k) [
  | yes same ↦ rw (← same) (omega (arith, bit-lt bm i))
  | no ne ↦ free_from-none left (suc i) k bm (omega arith) (omega arith) (omega arith)
]

-- The blocks that are not marked.
pub unmarked : Fs → ℕ
unmarked s = free_from s.max_blocks 0 s.block_map

-- A used block is where a scan may stop.
pub Closed-stop :
    (s : Fs) (bno : ℕ) → (InRange s bno → bit s.block_map bno ≡ 1) → Closed s bno → Closed s 0
Closed-stop s bno used c b r m n = elim (c b r m n) [
  | inl h ↦ inl h
  | inr e ↦ inl (rw (e) (used (rw (← e) n)))
]

pub set_used_map :
    (bno : ℕ) (s : Fs)
    → bno < s.max_blocks
    → fs_block_set_used bno s ≡ record s { block_map = mark s.block_map bno }
unfolding fs_block_set_used
set_used_map bno s lt = let e : leb s.max_blocks bno ≡ false = ground arith in rw (e) refl

-- A block that is marked now may wait for what it is linked to.
pub Closed-mark :
    (s : Fs) (bno : ℕ)
    → Whole s
    → bno < s.max_blocks
    → Closed s bno
    → Closed (record s { block_map = mark s.block_map bno }) (next_of (s.disk bno))
Closed-mark s bno w lt c b r m n = elim (ℕ_discrete bno b) [
  | yes e ↦ inr (rw (e) refl)
  | no ne ↦
      let was : bit s.block_map b ≡ 1 = ground (arith, bit-mark s.block_map bno b) in
      elim (c b r was n) [
        | inl h ↦ inl (ground (arith, bit-mark s.block_map bno (next_of (s.disk b))))
        | inr e ↦ inl (ground (arith, bit-mark s.block_map bno (next_of (s.disk b))))
      ]
]

unmarked-mark :
    (s : Fs) (bno : ℕ)
    → Whole s
    → bno < s.max_blocks
    → bit s.block_map bno ≡ 0
    → unmarked s ≡ suc (unmarked (record s { block_map = mark s.block_map bno }))
unfolding unmarked
unmarked-mark s bno w lt f =
    free_from-mark s.max_blocks 0 bno s.block_map (omega arith) (omega arith) (omega arith) f

pub is_used-bit :
    (bno : ℕ) (s : Fs) → bno < s.max_blocks → fs_block_is_used s bno ≡ (bit s.block_map bno == 1)
unfolding fs_block_is_used
is_used-bit bno s lt = let e : leb s.max_blocks bno ≡ false = ground arith in rw (e) refl

scan_chain_loop-Closed :
    (guard bno : ℕ) (s : Fs)
    → Whole s
    → unmarked s ≤ guard
    → Closed s bno
    → Closed (scan_chain_loop guard bno s) 0
      × (InRange s bno → bit (scan_chain_loop guard bno s).block_map bno ≡ 1)
unfolding scan_chain_loop unmarked
scan_chain_loop-Closed zero bno s w few c =
    let all : InRange s bno → bit s.block_map bno ≡ 1 = λ r.
      free_from-none s.max_blocks 0 bno s.block_map (omega arith) (omega arith)
        (omega (arith, r.1)) in
    (Closed-stop s bno all c, all)
scan_chain_loop-Closed (suc guard) bno s w few c =
    elim (Bool-cases (leb 60 bno && (ltb bno s.max_blocks && not (fs_block_is_used s bno)))) [
      | inr e ↦
          let used : InRange s bno → bit s.block_map bno ≡ 1 =
            λ r. ground (arith, e, r.0, r.1, is_used-bit bno s r.1, bit-lt s.block_map bno) in
          rw (e, scan_chain_loop) (Closed-stop s bno used c, used)
      | inl e ↦
          let lt : bno < s.max_blocks = ground (arith, e) in
          let free : bit s.block_map bno ≡ 0 =
            ground (arith, e, is_used-bit bno s lt, bit-lt s.block_map bno) in
          let next = next_of (s.disk bno) in
          let s' : Fs = record s { block_map = mark s.block_map bno } in
          let now : bit s'.block_map bno ≡ 1 = ground (arith, bit-mark s.block_map bno bno) in
          let c' = Closed-mark s bno w lt c in
          elim (Bool-cases (next == 0 || next == bno)) [
            | inl z ↦
                rw (e, z, set_used_map bno s lt, scan_chain_loop)
                  (Closed-stop s' next (λ r. ground (arith, z, r.0, now)) c', λ r. now)
            | inr z ↦
                let w' : Whole s' = rw (length-mark s.block_map bno) w in
                let ih =
                  scan_chain_loop-Closed guard next s' w'
                    (omega (arith, few, unmarked-mark s bno w lt free)) c' in
                rw (e, z, set_used_map bno s lt, scan_chain_loop)
                  (ih.0, λ r. (scan_chain_loop-Scanned guard next s').marked bno w' now)
          ]
    ]

free_from_le : (left i : ℕ) (bm : List ℕ) → free_from left i bm ≤ left
unfolding free_from
free_from_le zero i bm = omega arith
free_from_le (suc left) i bm = omega (arith, free_from_le left (suc i) bm)

-- No block waits for block 0.
pub Closed-any : (s : Fs) (bno : ℕ) → Closed s 0 → Closed s bno
Closed-any s bno c b r m n = elim (c b r m n) [
  | inl h ↦ inl h
  | inr e ↦ absurd (omega (arith, e, n.0))
]

-- fs_scan_chain keeps the marks closed and marks the block that it starts from.
pub fs_scan_chain-Closed :
    (bno : ℕ) (s : Fs)
    → Whole s
    → Closed s 0
    → Closed (fs_scan_chain bno s) 0 × (InRange s bno → bit (fs_scan_chain bno s).block_map bno ≡ 1)
unfolding fs_scan_chain unmarked
fs_scan_chain-Closed bno s w c =
    scan_chain_loop-Closed s.max_blocks bno s w (free_from_le s.max_blocks 0 s.block_map)
      (Closed-any s bno c)

-- Links of data blocks do not lead to directories.
abbrev pub LinksApart : Fs → Type 0
LinksApart s =
    (b : ℕ) (db : Dir) → InRange s (next_of (s.disk b)) → s.disk (next_of (s.disk b)) ≢ dir_block db

scan_chain_loop-apart :
    (guard bno : ℕ) (s : Fs)
    → Whole s
    → LinksApart s
    → (InRange s bno → (db : Dir) → s.disk bno ≢ dir_block db)
    → (d : ℕ) (db : Dir) → s.disk d ≡ dir_block db
    → bit (scan_chain_loop guard bno s).block_map d ≡ 1
    → bit s.block_map d ≡ 1
unfolding scan_chain_loop
scan_chain_loop-apart zero bno s w links not_dir d db at m = m
scan_chain_loop-apart (suc guard) bno s w links not_dir d db at m =
    elim (Bool-cases (leb 60 bno && (ltb bno s.max_blocks && not (fs_block_is_used s bno)))) [
      | inr e ↦ rw (e, scan_chain_loop) at m
      | inl e ↦
          let lt : bno < s.max_blocks = ground (arith, e) in
          let ge : 60 ≤ bno = ground (arith, e) in
          let ne : bno ≢ d = λ q. not_dir (ge, lt) db (rw (q) at) in
          let s' : Fs = record s { block_map = mark s.block_map bno } in
          let next = next_of (s.disk bno) in
          let w' : Whole s' = rw (length-mark s.block_map bno) w in
          let before : bit s'.block_map d ≡ 1 → bit s.block_map d ≡ 1 =
            λ h. ground (arith, h, bit-mark s.block_map bno d) in
          elim (Bool-cases (next == 0 || next == bno)) [
            | inl z ↦ before (rw (e, z, set_used_map bno s lt, scan_chain_loop) at m)
            | inr z ↦ before (
                scan_chain_loop-apart guard next s' w' links (λ r db'. links bno db' r) d db at
                  (rw (e, z, set_used_map bno s lt, scan_chain_loop) at m))
          ]
    ]

-- fs_scan_chain of a file's blocks marks no directory.
pub fs_scan_chain-apart :
    (bno : ℕ) (s : Fs)
    → Whole s
    → LinksApart s
    → (InRange s bno → (db : Dir) → s.disk bno ≢ dir_block db)
    → (d : ℕ) (db : Dir) → s.disk d ≡ dir_block db
    → bit (fs_scan_chain bno s).block_map d ≡ 1
    → bit s.block_map d ≡ 1
unfolding fs_scan_chain
fs_scan_chain-apart bno s w links not_dir d db at m =
    scan_chain_loop-apart s.max_blocks bno s w links not_dir d db at m
