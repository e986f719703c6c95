-- ===== src/Fs/Blocks.antt =====
-- vibeos/fs.c: the map of used blocks, its operations, and the chains of data blocks.
pub mod Invariant
pub mod Space
pub mod Release
pub mod Rebuild
pub mod Chains
pub mod Trees
pub mod Scans
pub mod Reach
use vibeos_fpga.Common.Bitmap.{bit, bit_mask, mark, unmark}
use vibeos_fpga.Fs.{
  Entry, Dir, Block, dir_block, data_block, other, Fs, write_block, as_dir, next_of, zero_block,
  view, is_free, empty_entry, stored_entries,
}
use vibeos_fpga.Common.{
  ℕ, zero, suc, ◌+◌, ◌-◌, ◌/◌, bit_and, Bool, true, false, not, ◌&&◌, ◌||◌, Option, none, some,
  List, [], ◌∷◌, ltb, leb, ◌==◌, if◌then◌else◌, sub32, get_or, replicate, for_range,
}

unfoldable pub fs_block_is_used : Fs → ℕ → Bool
fs_block_is_used s bno = if leb s.max_blocks bno then true else bit s.block_map bno == 1

unfoldable pub fs_block_set_used : ℕ → Fs → Fs
fs_block_set_used bno s =
    if leb s.max_blocks bno then s else record s { block_map = mark s.block_map bno }

-- The source defines it and does not call it.
unfoldable pub fs_block_clear_used : ℕ → Fs → Fs
fs_block_clear_used bno s =
    if leb s.max_blocks bno then s else record s { block_map = unmark s.block_map bno }

-- `fs_block_map[i >> 3] & (1u << (i & 7))`
unfoldable pub in_map : List ℕ → ℕ → Bool
in_map bm i = not (bit_and (get_or bm (i / 8) 0) (bit_mask i) == 0)

-- The loop of fs_scan_chain; its guard counts the rounds.
unfoldable pub scan_chain_loop : ℕ → ℕ → Fs → Fs
scan_chain_loop zero bno s = s
scan_chain_loop (suc guard) bno s =
    elim (leb 60 bno && (ltb bno s.max_blocks && not (fs_block_is_used s bno))) [
      | false ↦ s
      | true ↦
          let s' = fs_block_set_used bno s in
          let next = next_of (s.disk bno) in
          elim (next == 0 || next == bno) [ true ↦ s' | false ↦ scan_chain_loop guard next s' ]
    ]

unfoldable pub fs_scan_chain : ℕ → Fs → Fs
fs_scan_chain bno s = scan_chain_loop s.max_blocks bno s

-- The loop of fs_scan_dir over the entries; `scan` is the call for a directory.
unfoldable pub scan_entries : (scan : ℕ → Fs → Fs) → List Entry → Fs → Fs
scan_entries scan [] s = s
scan_entries scan (e ∷ es) s =
    scan_entries scan es
      (if is_free e then s else if e.type == 1 then scan e.bno s else fs_scan_chain e.bno s)

-- fs_scan_dir with fuel for the depths that are left, 34 at depth 0.
unfoldable pub scan_dir : ℕ → (bno depth : ℕ) → Fs → Fs
scan_dir zero bno depth s = s
scan_dir (suc fuel) bno depth s =
    elim (bno == 0
      || (leb s.max_blocks bno || (ltb 32 depth || (ltb 0 depth && fs_block_is_used s bno)))) [
        | true ↦ s
        | false ↦ elim (as_dir (s.disk bno)) [
          | none ↦ s
          | some db ↦
              scan_entries (λ child t. scan_dir fuel child (suc depth) t) (view s db)
                (fs_block_set_used bno s)
        ]
      ]

unfoldable pub fs_scan_dir : (bno depth : ℕ) → Fs → Fs
fs_scan_dir bno depth s = scan_dir (34 - depth) bno depth s

-- The map with the first 60 blocks in use, as fs_format_root and fs_rebuild_alloc_state set it up.
unfoldable pub reserve_system : Fs → Fs
reserve_system s = record s {
  block_map = for_range 60 0 (λ i bm. mark bm i) (replicate (s.max_blocks / 8) 0);
  next_free_block = 60;
  alloc_ready = true;
}

unfoldable pub fs_rebuild_alloc_state : Fs → Fs
fs_rebuild_alloc_state s =
    let s' = reserve_system s in
    elim (as_dir (s'.disk 1)) [
      | none ↦ s'
      | some db ↦ record (fs_scan_dir 1 0 s') { next_free_block = 60 }
    ]

unfoldable pub prepare : Fs → Fs
prepare s = if s.alloc_ready then s else fs_rebuild_alloc_state s

-- The loop of balloc: the first free block of the `left` blocks from `i` on.
unfoldable pub first_free : ℕ → ℕ → List ℕ → Option ℕ
first_free zero i bm = none
first_free (suc left) i bm =
    let rest = first_free left (suc i) bm in if in_map bm i then rest else some i

-- balloc once the map is set up: the block, or 0, and the state.
unfoldable pub take_first : Fs → ℕ × Fs
take_first s = elim (first_free (s.max_blocks - s.next_free_block) s.next_free_block s.block_map) [
  | none ↦ (0, s)
  | some i ↦ (
    i,
    write_block i zero_block (record s { block_map = mark s.block_map i; next_free_block = suc i }),
  )
]

unfoldable pub balloc : Fs → ℕ × Fs
balloc s = take_first (prepare s)

-- fs_usage_info: the number of blocks, of used ones and of free ones.
unfoldable pub fs_usage_info : Fs → (ℕ × ℕ × ℕ) × Fs
fs_usage_info s =
    let s' = prepare s in
    let used = for_range s'.max_blocks 0 (λ i n. if in_map s'.block_map i then n + 1 else n) 0 in
    ((s'.max_blocks, used, sub32 s'.max_blocks used), s')

unfoldable pub bfree : ℕ → Fs → Fs
bfree bno s = if ltb bno 60 || leb s.max_blocks bno then s else record s {
  block_map = unmark s.block_map bno;
  next_free_block = if ltb bno s.next_free_block then bno else s.next_free_block;
}

-- fs_free_chain, which ends when the chain does; `none` when the fuel does first.
unfoldable pub fs_free_chain : ℕ → ℕ → Fs → Option Fs
fs_free_chain zero bno s = if bno == 0 then some s else none
fs_free_chain (suc fuel) bno s =
    let rest = fs_free_chain fuel (next_of (s.disk bno)) (bfree bno s) in
    if bno == 0 then some s else rest

-- The part of fs_format_root that is about the disk and the map; the windows it also resets are not
-- part of the state.
unfoldable pub fs_format_root : Fs → Fs
fs_format_root s = reserve_system (
    write_block 1
      (dir_block (record { parent_bno = 1; entries = replicate stored_entries empty_entry })) s)
