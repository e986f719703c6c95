-- ===== src/Fs/Tests/Runs.antt =====
-- vibeos/fs.c: paths, and the operations on files by their paths.
use vibeos_fpga.Fs.{zero_block}
use vibeos_fpga.Strings.{strcmp, strncmp, strchr, printable, lib_strncat}
use vibeos_fpga.Fs.Blocks.{
  fs_block_is_used, fs_block_set_used, fs_block_clear_used, in_map, scan_chain_loop, fs_scan_chain,
  scan_entries, scan_dir, fs_scan_dir, reserve_system, fs_rebuild_alloc_state, prepare, first_free,
  take_first, balloc, fs_usage_info, bfree, fs_free_chain, fs_format_root,
}
use vibeos_fpga.Fs.Dirs.{
  find_from, same_name, matches, write_entry, fs_load_dir_block, load_current_dir,
  dir_block_is_empty, release, remove_from, remove_entry_named, ancestor_loop, fs_dir_is_ancestor,
}
use vibeos_fpga.Fs.Files.{
  payload_of, write_chunk, store_loop, store_blocks, file_entry, commit, store_entry, store_in,
  read_block, load_loop, load_found, load_in, load_alloc_found, load_alloc_in,
}
use vibeos_fpga.Fs.Paths.{
  last_or, fs_path_set_child, cut_while, fs_path_set_parent, expand_home, terminal_expand_home_path,
  skip_slashes, skip_blanks, segment, parent_step, child_step, segment_step, resolve_loop,
  behind_root, resolve_from, resolve_fs_target,
}
use vibeos_fpga.Fs.Calls.{
  is_path, target_of, store_at, store_file_bytes, load_at, load_file_bytes, load_alloc_at,
  load_file_bytes_alloc, skip_spaces, adopt, rename_entry, transfer_entry, place_entry, move_found,
  move_resolved, move_entry_named,
}
use vibeos_fpga.Common.Bitmap.{mark, unmark, bit}
use vibeos_fpga.Fs.{Entry, dir_block, Fs, Window, ok, error, empty_entry, write_block}
use vibeos_fpga.Fs.Paths.{root, slash}
use vibeos_fpga.Fs.Tests.{boot, status, state, bytes_of}
use vibeos_fpga.Common.{ℕ, ◌≡◌, refl, false, some, List, [], ◌∷◌, ◌++◌, set, replicate, for_range}

abbrev console : Window
console = record { cwd_bno = 1; cwd = root; home = [] }

abbrev a : List ℕ
a = b'a' ∷ []

abbrev dir : List ℕ
dir = b'd' ∷ []

-- A disk with the directory `d` in block 60 and in it a file `a`.
abbrev tree : Fs
tree =
    let d : Entry = record empty_entry { name = dir; bno = 60; type = 1 } in
    let s : Fs =
      write_block 1
        (dir_block (record { parent_bno = 1; entries = set (replicate 102 empty_entry) 0 d }))
        boot in
    write_block 60 (dir_block (record { parent_bno = 1; entries = replicate 102 empty_entry }))
      (record s { block_map = mark s.block_map 60; next_free_block = 61 })

abbrev d_a : List ℕ
d_a = b'd' ∷ slash ∷ a

abbrev stored : Fs
stored = state (store_file_bytes 9 100 console d_a (7 ∷ []) tree)

abbrev moved : Fs
moved = state (move_entry_named 101 console d_a (b' ' ∷ b'b' ∷ []) stored)

paths_test :
    (fs_path_set_child root a ≡ root ++ slash ∷ a)
    × (fs_path_set_parent (root ++ slash ∷ a) ≡ root)
    × (fs_path_set_parent root ≡ slash ∷ [])
    × (terminal_expand_home_path console 63 (b'~' ∷ slash ∷ a) ≡ root ++ slash ∷ a)
    × (terminal_expand_home_path console 63 (b'~' ∷ []) ≡ root ++ slash ∷ [])
    × (bytes_of (load_file_bytes console d_a 9 stored) ≡ some (ok, 7 ∷ []))
    × (bytes_of (load_file_bytes console (slash ∷ b'd' ∷ slash ∷ b'.' ∷ slash ∷ a) 9 stored)
        ≡ some (ok, 7 ∷ []))
    × (bytes_of (
          load_file_bytes console
            (root ++ slash ∷ b'd' ∷ slash ∷ b'.' ∷ b'.' ∷ slash ∷ d_a)
            9
            stored)
        ≡ some (ok, 7 ∷ []))
    × (bytes_of (load_file_bytes console (b'x' ∷ slash ∷ a) 9 stored) ≡ some (error 1, []))
    × (bytes_of (load_file_bytes_alloc console d_a false stored) ≡ some (error 4, []))
    × (status (move_entry_named 101 console dir (b'd' ∷ slash ∷ b'e' ∷ []) stored) ≡ some ok)
    × (bytes_of (load_file_bytes console (b'b' ∷ []) 9 moved) ≡ some (ok, 7 ∷ []))
    × (bytes_of (load_file_bytes console d_a 9 moved) ≡ some (error 2, []))
    × (status (move_entry_named 101 console (b'b' ∷ []) dir moved) ≡ some ok)
    × (status (move_entry_named 101 console dir dir moved) ≡ some ok)
    × (status (move_entry_named 101 console dir (b'b' ∷ []) moved) ≡ some (error 4))
unfolding zero_block strcmp strchr printable lib_strncat fs_block_is_used fs_block_set_used
    fs_block_clear_used in_map scan_chain_loop fs_scan_chain scan_entries scan_dir fs_scan_dir
    reserve_system fs_rebuild_alloc_state prepare first_free take_first balloc fs_usage_info bfree
    fs_free_chain fs_format_root find_from same_name matches write_entry fs_load_dir_block
    load_current_dir dir_block_is_empty release remove_from remove_entry_named ancestor_loop
    fs_dir_is_ancestor payload_of write_chunk store_loop store_blocks file_entry commit store_entry
    store_in read_block load_loop load_found load_in load_alloc_found load_alloc_in last_or
    fs_path_set_child cut_while fs_path_set_parent expand_home terminal_expand_home_path
    skip_slashes skip_blanks segment parent_step child_step segment_step resolve_loop behind_root
    resolve_from resolve_fs_target is_path target_of store_at store_file_bytes load_at
    load_file_bytes load_alloc_at load_file_bytes_alloc skip_spaces adopt rename_entry
    transfer_entry place_entry move_found move_resolved move_entry_named strncmp for_range mark
    unmark bit
paths_test =
    (refl, refl, refl, refl, refl, refl, refl, refl, refl, refl, refl, refl, refl, refl, refl, refl)
