-- ===== src/Fs/Blocks/Rebuild.antt =====
-- vibeos/fs.c: the map that is built anew from the disk.
use native.Mathlib.Decide.{ℕ_discrete}
use vibeos_fpga.Common.Digits.{digit}
use vibeos_fpga.Common.Bitmap.{bit, mark, bit-mark, length-mark}
use vibeos_fpga.Fs.{Entry, Fs, as_dir, next_of, view, is_free}
use vibeos_fpga.Fs.Blocks.{
  fs_block_is_used, fs_block_set_used, scan_chain_loop, fs_scan_chain, scan_entries, scan_dir,
  fs_scan_dir, reserve_system, fs_rebuild_alloc_state,
}
use vibeos_fpga.Fs.Blocks.Invariant.{IsFs}
use vibeos_fpga.Common.{
  ℕ, zero, suc, ◌*◌, ◌/◌, ◌%◌, ◌≤◌, ◌<◌, ◌≡◌, refl, ◌∙◌, not, ◌&&◌, ◌||◌, inl, inr, List, [], ◌∷◌,
  ltb, leb, ◌==◌, arith, length, replicate, for_range_inv, Bool-cases, Option-cases, leb→lt, eq→==,
  ne→==, length-replicate, get_or,
}

-- The map fits the number of blocks, a multiple of 8 with room for the first 60.
pub record IsSized (s : Fs) : Type 0 where
  pub eights : s.max_blocks % 8 ≡ 0
  pub large : 60 ≤ s.max_blocks

-- What a scan does: it sets marks.
pub record Scanned (s s' : Fs) : Type 0 where
  pub same_disk : s'.disk ≡ s.disk
  pub same_max : s'.max_blocks ≡ s.max_blocks
  pub same_ready : s'.alloc_ready ≡ s.alloc_ready
  pub same_behind : s'.behind ≡ s.behind
  pub same_length : length s'.block_map ≡ length s.block_map
  pub marked :
      (b : ℕ)
      → length s.block_map * 8 ≡ s.max_blocks
      → bit s.block_map b ≡ 1
      → bit s'.block_map b ≡ 1

pub Scanned-nothing : (s : Fs) → Scanned s s
Scanned-nothing s = record {
  same_disk = refl;
  same_max = refl;
  same_ready = refl;
  same_behind = refl;
  same_length = refl;
  marked = λ b w h. h;
}

pub Scanned-then : {s s' s'' : Fs} → Scanned s s' → Scanned s' s'' → Scanned s s''
Scanned-then f g = record {
  same_disk = g.same_disk ∙ f.same_disk;
  same_max = g.same_max ∙ f.same_max;
  same_ready = g.same_ready ∙ f.same_ready;
  same_behind = g.same_behind ∙ f.same_behind;
  same_length = g.same_length ∙ f.same_length;
  marked = λ b w h. g.marked b (omega (arith, f.same_length, f.same_max)) (f.marked b w h);
}

pub fs_block_set_used-Scanned : (bno : ℕ) (s : Fs) → Scanned s (fs_block_set_used bno s)
unfolding fs_block_set_used
fs_block_set_used-Scanned bno s = elim (Bool-cases (leb s.max_blocks bno)) [
  | inl e ↦ rw (e, fs_block_set_used) (Scanned-nothing s)
  | inr e ↦
      rw (e, fs_block_set_used)
        (record {
          same_disk = refl;
          same_max = refl;
          same_ready = refl;
          same_behind = refl;
          same_length = length-mark s.block_map bno;
          marked = λ b w h. ground (arith, bit-mark s.block_map bno b, leb→lt s.max_blocks bno e);
        })
]

pub scan_chain_loop-Scanned : (guard bno : ℕ) (s : Fs) → Scanned s (scan_chain_loop guard bno s)
unfolding scan_chain_loop
scan_chain_loop-Scanned zero bno s = Scanned-nothing s
scan_chain_loop-Scanned (suc guard) bno s =
    elim (Bool-cases (leb 60 bno && (ltb bno s.max_blocks && not (fs_block_is_used s bno)))) [
      | inr e ↦ rw (e, scan_chain_loop) (Scanned-nothing s)
      | inl e ↦
          let next = next_of (s.disk bno) in
          let one = fs_block_set_used-Scanned bno s in
          elim (Bool-cases (next == 0 || next == bno)) [
            | inl z ↦ rw (e, z, scan_chain_loop) one
            | inr z ↦
                rw (e, z, scan_chain_loop)
                  (Scanned-then one (scan_chain_loop-Scanned guard next (fs_block_set_used bno s)))
          ]
    ]

pub fs_scan_chain-Scanned : (bno : ℕ) (s : Fs) → Scanned s (fs_scan_chain bno s)
unfolding fs_scan_chain
fs_scan_chain-Scanned bno s = scan_chain_loop-Scanned s.max_blocks bno s

pub scan_entries-Scanned :
    (scan : ℕ → Fs → Fs) (es : List Entry) (s : Fs)
    → ((child : ℕ) (t : Fs) → Scanned t (scan child t))
    → Scanned s (scan_entries scan es s)
unfolding scan_entries fs_scan_chain
scan_entries-Scanned scan [] s h = Scanned-nothing s
scan_entries-Scanned scan (e ∷ es) s h = elim (Bool-cases (is_free e)) [
  | inl f ↦ rw (f, scan_entries) (scan_entries-Scanned scan es s h)
  | inr f ↦ elim (Bool-cases (e.type == 1)) [
    | inl d ↦
        rw (f, d, scan_entries)
          (Scanned-then (h e.bno s) (scan_entries-Scanned scan es (scan e.bno s) h))
    | inr d ↦
        rw (f, d, scan_entries)
          (Scanned-then (scan_chain_loop-Scanned s.max_blocks e.bno s)
            (scan_entries-Scanned scan es (fs_scan_chain e.bno s) h))
  ]
]

pub scan_dir-Scanned : (fuel bno depth : ℕ) (s : Fs) → Scanned s (scan_dir fuel bno depth s)
unfolding scan_dir
scan_dir-Scanned zero bno depth s = Scanned-nothing s
scan_dir-Scanned (suc fuel) bno depth s =
    elim (Bool-cases (
      bno == 0
      || (leb s.max_blocks bno || (ltb 32 depth || (ltb 0 depth && fs_block_is_used s bno))))) [
        | inl e ↦ rw (e, scan_dir) (Scanned-nothing s)
        | inr e ↦ elim (Option-cases (as_dir (s.disk bno))) [
          | inl n ↦ rw (e, n, scan_dir) (Scanned-nothing s)
          | inr (db, d) ↦
              rw (e, d, scan_dir)
                (Scanned-then (fs_block_set_used-Scanned bno s) (
                  scan_entries-Scanned (λ child t. scan_dir fuel child (suc depth) t) (view s db)
                    (fs_block_set_used bno s)
                    (λ child t. scan_dir-Scanned fuel child (suc depth) t)))
        ]
      ]

pub reserve_system-IsFs : {s : Fs} → IsSized s → IsFs (reserve_system s)
unfolding reserve_system
reserve_system-IsFs {s} z =
    let r =
      for_range_inv (λ k bm. (length bm ≡ s.max_blocks / 8) × ((i : ℕ) → i < k → bit bm i ≡ 1))
        (λ i bm. mark bm i) 60 0 60 (replicate (s.max_blocks / 8) 0) (omega arith)
        (λ k bm p q h. (
          length-mark bm k ∙ h.0,
          λ i lt. elim (ℕ_discrete k i) [
            | yes e ↦ rw (bit-mark bm k i (omega (arith, h.0, z.large, z.eights)), eq→== k i e) refl
            | no ne ↦
                rw (bit-mark bm k i (omega (arith, h.0, z.large, z.eights)), ne→== k i ne)
                  (h.1 i (omega arith))
          ],
        ))
        (length-replicate (s.max_blocks / 8) 0, λ i lt. absurd (omega arith)) in
    record {
      ready = refl;
      whole = omega (arith, r.0, z.eights);
      system_le = omega arith;
      next_le = z.large;
      packed = r.1;
    }

zero_bytes : (n i : ℕ) → get_or {A = ℕ} (replicate n 0) i 0 ≡ 0
zero_bytes zero i = refl
zero_bytes (suc n) zero = refl
zero_bytes (suc n) (suc i) = zero_bytes n i

digit_zero : (k : ℕ) → digit 0 k ≡ 0
digit_zero zero = refl
digit_zero (suc k) = digit_zero k

bit-zero_bytes : (n i : ℕ) → bit (replicate n 0) i ≡ 0
unfolding bit
bit-zero_bytes n i = rw (zero_bytes n (i / 8)) (digit_zero (i % 8))

-- No block from 60 on is in use before the scan.
pub reserve_system_free :
    {s : Fs} (i : ℕ) → IsSized s → 60 ≤ i → bit (reserve_system s).block_map i ≡ 0
unfolding reserve_system
reserve_system_free {s} i z ge =
    let r =
      for_range_inv (λ k bm. (length bm ≡ s.max_blocks / 8) × (bit bm i ≡ 0)) (λ k bm. mark bm k) 60
        0 60 (replicate (s.max_blocks / 8) 0) (omega arith)
        (λ k bm p q h. (
          length-mark bm k ∙ h.0,
          rw
              (
                bit-mark bm k i (omega (arith, h.0, z.large, z.eights)),
                ne→== k i (λ e. absurd (omega arith)),
              )
              h.1,
        ))
        (length-replicate (s.max_blocks / 8) 0, bit-zero_bytes (s.max_blocks / 8) i) in
    r.1

-- fs_rebuild_alloc_state makes a well-formed map of any disk, whatever its blocks hold, and leaves
-- the disk as it is.
pub fs_rebuild_alloc_state-IsFs :
    {s : Fs}
    → IsSized s
    → IsFs (fs_rebuild_alloc_state s)
      × ((fs_rebuild_alloc_state s).disk ≡ s.disk)
      × ((fs_rebuild_alloc_state s).max_blocks ≡ s.max_blocks)
unfolding fs_rebuild_alloc_state fs_scan_dir
fs_rebuild_alloc_state-IsFs {s} z =
    let v = reserve_system-IsFs z in
    let same : SameFrame s (reserve_system s) = reserve_system-SameFrame s in
    elim (Option-cases (as_dir ((reserve_system s).disk 1))) [
      | inl n ↦ rw (n, fs_rebuild_alloc_state) (v, same.0, same.1)
      | inr (db, d) ↦
          let r = scan_dir-Scanned 34 1 0 (reserve_system s) in
          rw (d, fs_rebuild_alloc_state)
            (
              record {
                ready = r.same_ready ∙ v.ready;
                whole = omega (arith, r.same_length, r.same_max, v.whole);
                system_le = omega arith;
                next_le = omega (arith, r.same_max, v.next_le, v.system_le);
                packed = λ i h. r.marked i v.whole (v.packed i (omega (arith, v.system_le)));
              },
              r.same_disk ∙ same.0,
              r.same_max ∙ same.1,
            )
    ]
  where
    SameFrame : (s s' : Fs) → Type 0
    SameFrame s s' = (s'.disk ≡ s.disk) × (s'.max_blocks ≡ s.max_blocks)

    reserve_system-SameFrame : (s : Fs) → SameFrame s (reserve_system s)
    reserve_system-SameFrame s = unfold reserve_system in (refl, refl)
