-- ===== src/Fs/Tests/Opened.antt =====
-- vibeos/fs.c: the calls of a program.
use vibeos_fpga.Fs.{zero_block}
use vibeos_fpga.Strings.{strcmp, strncmp, strchr, printable, lib_strncat}
use vibeos_fpga.Fs.Blocks.{
  fs_block_is_used, fs_block_set_used, fs_block_clear_used, in_map, scan_chain_loop, fs_scan_chain,
  scan_entries, scan_dir, fs_scan_dir, reserve_system, fs_rebuild_alloc_state, prepare, first_free,
  take_first, balloc, fs_usage_info, bfree, fs_free_chain, fs_format_root,
}
use vibeos_fpga.Fs.Dirs.{
  find_from, same_name, matches, write_entry, fs_load_dir_block, load_current_dir,
  dir_block_is_empty, release, remove_from, remove_entry_named, ancestor_loop, fs_dir_is_ancestor,
}
use vibeos_fpga.Fs.Files.{
  payload_of, write_chunk, store_loop, store_blocks, file_entry, commit, store_entry, store_in,
  read_block, load_loop, load_found, load_in, load_alloc_found, load_alloc_in,
}
use vibeos_fpga.Fs.Paths.{
  last_or, fs_path_set_child, cut_while, fs_path_set_parent, expand_home, terminal_expand_home_path,
  skip_slashes, skip_blanks, segment, parent_step, child_step, segment_step, resolve_loop,
  behind_root, resolve_from, resolve_fs_target,
}
use vibeos_fpga.Fs.Calls.{
  is_path, target_of, store_at, store_file_bytes, load_at, load_file_bytes, load_alloc_at,
  load_file_bytes_alloc, skip_spaces, adopt, rename_entry, transfer_entry, place_entry, move_found,
  move_resolved, move_entry_named,
}
use vibeos_fpga.Fs.Handles.{
  has, grow, adopt_buffer, appfs_reserve, fd_read, overwrite, write_bytes, fd_write, seek_base,
  seek_far, seek_to, fd_seek,
}
use vibeos_fpga.Fs.Opening.{
  appfs_reset_table, appfs_set_cwd, appfs_path_to_name, find_fd_from, fill_buffer, load_reserved,
  load_entry, load_looked_up, appfs_load_file, appfs_commit, is_output, appfs_close_fd, close_loop,
  appfs_close_all, open_target, open_reserved, open_truncate, open_loaded, open_named, appfs_open,
}
use vibeos_fpga.Fs.Programs.{
  used_fd, appfs_read, appfs_write, appfs_seek, appfs_tell, appfs_close, unlink_target,
  appfs_unlink,
}
use vibeos_fpga.Common.Bitmap.{mark, unmark, bit}
use vibeos_fpga.Fs.{Status, ok, error}
use vibeos_fpga.Fs.Paths.{root}
use vibeos_fpga.Fs.Opening.{Apps, fresh_window}
use vibeos_fpga.Fs.Tests.{boot}
use vibeos_fpga.Common.{ℕ, ◌≡◌, refl, Option, some, List, [], ◌∷◌, ◌>>=◌, replicate, for_range}

abbrev heap : ℕ → Option (List ℕ)
heap n = some (replicate n 255)

abbrev a : List ℕ
a = b'a' ∷ []

abbrev start : Apps
start = appfs_set_cwd 0 [] (record {
  fs = boot;
  app_fs_cwd_bno = 1;
  app_fs_cwd = root;
  app_fs_window = fresh_window 0 [];
  app_fd_table = [];
})

abbrev code : Status → ℕ
code ok = 0
code (error k) = k

-- Writes a file, closes it, opens it again and reads it from its second byte on.
abbrev session : Option (List (Option (List ℕ)))
session = do
  opened ← appfs_open heap a 0x102 start
  written ← appfs_write heap 3 (7 ∷ 8 ∷ 9 ∷ []) opened.1
  closed ← appfs_close 9 100 3 written.1
  again ← appfs_open heap a 1 closed.1
  sought ← appfs_seek heap 3 1 0 again.1
  let got = appfs_read 3 9 sought.1
  let rest = appfs_read 3 9 got.1
  missing ← appfs_open heap (b'b' ∷ []) 1 rest.1
  gone ← appfs_close_all 9 100 missing.1
  removed ← appfs_unlink 9 a gone.1
  refused ← appfs_open heap a 1 removed.1
  some (
      got.0
      ∷ (rest.0 ∷ (some (code missing.0.0 ∷ (code removed.0 ∷ (code refused.0.0 ∷ []))) ∷ [])))

session_test : session ≡ some (some (8 ∷ 9 ∷ []) ∷ some [] ∷ some (3 ∷ 0 ∷ 3 ∷ []) ∷ [])
unfolding zero_block strcmp strchr printable lib_strncat fs_block_is_used fs_block_set_used
    fs_block_clear_used in_map scan_chain_loop fs_scan_chain scan_entries scan_dir fs_scan_dir
    reserve_system fs_rebuild_alloc_state prepare first_free take_first balloc fs_usage_info bfree
    fs_free_chain fs_format_root find_from same_name matches write_entry fs_load_dir_block
    load_current_dir dir_block_is_empty release remove_from remove_entry_named ancestor_loop
    fs_dir_is_ancestor payload_of write_chunk store_loop store_blocks file_entry commit store_entry
    store_in read_block load_loop load_found load_in load_alloc_found load_alloc_in last_or
    fs_path_set_child cut_while fs_path_set_parent expand_home terminal_expand_home_path
    skip_slashes skip_blanks segment parent_step child_step segment_step resolve_loop behind_root
    resolve_from resolve_fs_target is_path target_of store_at store_file_bytes load_at
    load_file_bytes load_alloc_at load_file_bytes_alloc skip_spaces adopt rename_entry
    transfer_entry place_entry move_found move_resolved move_entry_named strncmp has grow
    adopt_buffer appfs_reserve fd_read overwrite write_bytes fd_write seek_base seek_far seek_to
    fd_seek appfs_reset_table appfs_set_cwd appfs_path_to_name find_fd_from fill_buffer
    load_reserved load_entry load_looked_up appfs_load_file appfs_commit is_output appfs_close_fd
    close_loop appfs_close_all open_target open_reserved open_truncate open_loaded open_named
    appfs_open used_fd appfs_read appfs_write appfs_seek appfs_tell appfs_close unlink_target
    appfs_unlink for_range mark unmark bit
session_test = refl
