-- ===== src/Fs/Tests.antt =====
-- vibeos/fs.c: runs on a disk of 64 blocks.
mod Runs
mod Opened
mod Examples
mod Rebuilt
use vibeos_fpga.Fs.{zero_block}
use vibeos_fpga.Strings.{strcmp, strncmp, strchr, printable, lib_strncat}
use vibeos_fpga.Fs.Blocks.{
  fs_block_is_used, fs_block_set_used, fs_block_clear_used, in_map, scan_chain_loop, fs_scan_chain,
  scan_entries, scan_dir, fs_scan_dir, reserve_system, fs_rebuild_alloc_state, prepare, first_free,
  take_first, balloc, fs_usage_info, bfree, fs_free_chain, fs_format_root,
}
use vibeos_fpga.Fs.Dirs.{
  find_from, same_name, matches, write_entry, fs_load_dir_block, load_current_dir,
  dir_block_is_empty, release, remove_from, remove_entry_named, ancestor_loop, fs_dir_is_ancestor,
}
use vibeos_fpga.Fs.Files.{
  payload_of, write_chunk, store_loop, store_blocks, file_entry, commit, store_entry, store_in,
  read_block, load_loop, load_found, load_in, load_alloc_found, load_alloc_in,
}
use vibeos_fpga.Common.Bitmap.{mark, unmark, bit}
use vibeos_fpga.Common.Digits.{digit}
use vibeos_fpga.Fs.{
  Entry, Dir, Block, dir_block, data_block, other, Fs, Window, Status, ok, error, empty_entry,
  write_block,
}
use vibeos_fpga.Common.{
  ℕ, ◌≡◌, refl, true, false, Option, none, some, List, [], ◌∷◌, replicate, for_range,
}

abbrev pub blank : Fs
blank = record {
  disk = λ b. other [];
  block_map = [];
  next_free_block = 60;
  alloc_ready = false;
  max_blocks = 64;
  behind = replicate 18 empty_entry;
}

-- The disk after fs_format_root.
abbrev pub boot : Fs
boot = fs_format_root blank

abbrev pub status : Option (Status × Fs) → Option Status
status none = none
status (some (r, s)) = some r

abbrev pub state : Option (Status × Fs) → Fs
state none = blank
state (some (r, s)) = s

abbrev pub bytes_of : Option ((Status × List ℕ) × Fs) → Option (Status × List ℕ)
bytes_of none = none
bytes_of (some (r, s)) = some r

abbrev a_txt : List ℕ
a_txt = b'a' ∷ b'.' ∷ b't' ∷ []

abbrev stored : Fs
stored = state (store_in 9 100 1 a_txt (7 ∷ 8 ∷ 9 ∷ []) boot)

blocks_test :
    (first_free 4 60 boot.block_map ≡ some 60)
    × (fs_block_is_used (fs_block_set_used 61 boot) 61 ≡ true)
    × (fs_block_is_used (fs_block_clear_used 59 boot) 59 ≡ false)
    × ((fs_usage_info stored).0 ≡ (64, 61, 3))
    × (bytes_of (load_in 1 a_txt 3 stored) ≡ some (ok, 7 ∷ 8 ∷ 9 ∷ []))
    × (bytes_of (load_in 1 a_txt 2 stored) ≡ some (error 3, []))
    × (bytes_of (load_alloc_in 1 a_txt true stored) ≡ some (ok, 7 ∷ 8 ∷ 9 ∷ []))
    × (bytes_of (load_in 1 (b'b' ∷ []) 3 stored) ≡ some (error 2, []))
    × ((fs_usage_info (fs_rebuild_alloc_state stored)).0 ≡ (64, 61, 3))
    × (status (remove_entry_named 9 1 a_txt stored) ≡ some ok)
    × ((fs_usage_info (state (remove_entry_named 9 1 a_txt stored))).0 ≡ (64, 60, 4))
    × (fs_dir_is_ancestor stored 1 1 ≡ true)
    × ((balloc (bfree 60 stored)).0 ≡ 60)
unfolding zero_block strcmp strchr printable lib_strncat fs_block_is_used fs_block_set_used
    fs_block_clear_used in_map scan_chain_loop fs_scan_chain scan_entries scan_dir fs_scan_dir
    reserve_system fs_rebuild_alloc_state prepare first_free take_first balloc fs_usage_info bfree
    fs_free_chain fs_format_root find_from same_name matches write_entry fs_load_dir_block
    load_current_dir dir_block_is_empty release remove_from remove_entry_named ancestor_loop
    fs_dir_is_ancestor payload_of write_chunk store_loop store_blocks file_entry commit store_entry
    store_in read_block load_loop load_found load_in load_alloc_found load_alloc_in for_range mark
    unmark bit
blocks_test = (refl, refl, refl, refl, refl, refl, refl, refl, refl, refl, refl, refl, refl)
