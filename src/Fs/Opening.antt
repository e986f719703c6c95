-- ===== src/Fs/Opening.antt =====
-- vibeos/fs.c: the table of open files.
use vibeos_fpga.Strings.{copy_name20}
use vibeos_fpga.Fs.{Fs, Window, Entry, Dir, Status, ok, error}
use vibeos_fpga.Fs.Dirs.{find_entry_index, entry_at, load_current_dir}
use vibeos_fpga.Fs.Paths.{resolve_fs_target, or_one, or_root, skip_slashes, segment}
use vibeos_fpga.Fs.Calls.{store_file_bytes, load_file_bytes, is_path}
use vibeos_fpga.Fs.Handles.{Fd, closed_fd, o_read, o_write, o_creat, o_trunc, has, appfs_reserve}
use vibeos_fpga.Common.{
  ℕ, zero, suc, max, Bool, true, false, not, ◌&&◌, ◌||◌, Option, none, some, List, [], ◌∷◌, ◌++◌,
  ltb, leb, ◌==◌, if◌then◌else◌, ◌>>=◌, length, get_or, set, take, drop, replicate,
}

-- The globals of the calls for programs; app_fs_window is the window they work in.
pub record Apps : Type 0 where
  pub fs : Fs
  pub app_fs_cwd_bno : ℕ
  pub app_fs_cwd : List ℕ
  pub app_fs_window : Window
  pub app_fd_table : List Fd

-- APP_MAX_FDS
abbrev pub max_fds : ℕ
max_fds = 16

-- A window that was cleared and given a directory.
abbrev pub fresh_window : ℕ → List ℕ → Window
fresh_window bno cwd = record { cwd_bno = bno; cwd = cwd; home = [] }

-- appfs_reset_table; what it gives back to the heap is not part of the state.
unfoldable pub appfs_reset_table : Apps → Apps
appfs_reset_table a = record a { app_fd_table = replicate max_fds closed_fd }

unfoldable pub appfs_set_cwd : (cwd_bno : ℕ) → (cwd : List ℕ) → Apps → Apps
appfs_set_cwd cwd_bno cwd a = record (appfs_reset_table a) {
  app_fs_cwd_bno = or_one cwd_bno;
  app_fs_cwd = or_root cwd;
}

-- appfs_path_to_name; `none` is its 0.
unfoldable pub appfs_path_to_name : List ℕ → Option (List ℕ)
appfs_path_to_name path =
    let (seg, rest) = segment (skip_slashes path) in
    if length seg == 0 || (ltb 19 (length seg) || not (length rest == 0)) then none else some seg

-- appfs_find_fd from descriptor `i` on.
unfoldable pub find_fd_from : ℕ → List Fd → Option ℕ
find_fd_from i [] = none
find_fd_from i (fd ∷ fds) = let rest = find_fd_from (suc i) fds in if fd.used then rest else some i

abbrev pub appfs_find_fd : Apps → Option ℕ
appfs_find_fd a = find_fd_from 0 a.app_fd_table

abbrev pub fd_at : Apps → ℕ → Fd
fd_at a i = get_or a.app_fd_table i closed_fd

abbrev pub set_fd : ℕ → Fd → Apps → Apps
set_fd i fd a = record a { app_fd_table = set a.app_fd_table i fd }

-- The directory that the calls for a descriptor work in.
abbrev pub window_of : Fd → Apps → Window
window_of fd a =
    fresh_window (if fd.cwd_bno == 0 then a.app_fs_cwd_bno else fd.cwd_bno)
      (if length fd.cwd == 0 then a.app_fs_cwd else fd.cwd)

-- The end of appfs_load_file: the bytes in the buffer.
unfoldable pub fill_buffer :
    Fd → Apps → Option ((Status × List ℕ) × Fs) → Option (Status × Fd × Apps)
fill_buffer fd a none = none
fill_buffer fd a (some ((ok, bytes), s)) = some (
  ok,
  record fd { buf = bytes ++ drop (length bytes) fd.buf; size = length bytes },
  record a { fs = s },
)
fill_buffer fd a (some ((error k, bytes), s)) = some (error 4, fd, record a { fs = s })

-- appfs_load_file behind the reserve.
unfoldable pub load_reserved :
    (name : List ℕ) → Entry → Window → Apps → Bool × Fd → Option (Status × Fd × Apps)
load_reserved name e w a (false, fd) = some (error 3, fd, a)
load_reserved name e w a (true, fd) =
    if e.size == 0
    then some (ok, record fd { buf = set fd.buf 0 0 }, a)
    else fill_buffer fd a (load_file_bytes w name fd.cap a.fs)

-- appfs_load_file behind the search, for a file that is there.
unfoldable pub load_entry :
    (malloc : ℕ → Option (List ℕ))
    → Fd
    → (name : List ℕ) → Entry
    → Window
    → Apps
    → Option (Status × Fd × Apps)
load_entry malloc fd name e w a =
    appfs_reserve malloc (max 1 e.size) (record fd { size = e.size; cap = 0; buf = [] })
    >>= load_reserved name e w a

unfoldable pub load_looked_up :
    (malloc : ℕ → Option (List ℕ))
    → Fd
    → (name : List ℕ) → (flags : ℕ) → Window
    → Apps
    → Option Dir × Fs
    → Option (Status × Fd × Apps)
load_looked_up malloc fd name flags w a (none, s) = some (error 1, fd, record a { fs = s })
load_looked_up malloc fd name flags w a (some db, s) =
    let a' = record a { fs = s } in
    elim (find_entry_index s db name (some 0)) [
      | none ↦
          if has o_creat flags
          then some (ok, record fd { size = 0; cap = 0; buf = [] }, a')
          else some (error 2, fd, a')
      | some idx ↦ load_entry malloc fd name (entry_at s db idx) w a'
    ]

unfoldable pub appfs_load_file :
    (malloc : ℕ → Option (List ℕ))
    → Fd
    → (name : List ℕ) → (flags : ℕ) → Apps
    → Option (Status × Fd × Apps)
appfs_load_file malloc fd name flags a =
    let w = window_of fd a in
    load_looked_up malloc fd name flags w (record a { app_fs_window = w })
      (load_current_dir a.fs w.cwd_bno)

-- appfs_commit of a descriptor in use: whether it succeeds.
unfoldable pub appfs_commit : (fuel now : ℕ) → Fd → Apps → Option (Bool × Apps)
appfs_commit fuel now fd a =
    let w = window_of fd a in
    elim (store_file_bytes fuel now w fd.name (take fd.size fd.buf) a.fs) [
      | none ↦ none
      | some (status, s) ↦
          let a' = record a { app_fs_window = w; fs = s } in
          elim status [ ok ↦ some (true, a') | error k ↦ some (false, a') ]
    ]

unfoldable pub is_output : ℕ → Bool
is_output flags = has o_write flags || (has o_creat flags || has o_trunc flags)

-- appfs_close_fd: whether it succeeds.
unfoldable pub appfs_close_fd : (fuel now i : ℕ) → Apps → Option (Bool × Apps)
appfs_close_fd fuel now i a =
    let fd = fd_at a i in
    if leb max_fds i || not fd.used
    then some (false, a)
    else if is_output fd.flags
    then (do
      committed ← appfs_commit fuel now fd a
      some (if committed.0 then (true, set_fd i closed_fd committed.1) else committed))
    else some (true, set_fd i closed_fd a)

-- The loop of appfs_close_all over the `left` descriptors from `i` on; `rc` is whether all went well.
unfoldable pub close_loop : (left fuel now i : ℕ) → (rc : Bool) → Apps → Option (Bool × Apps)
close_loop zero fuel now i rc a = some (rc, a)
close_loop (suc left) fuel now i rc a = do
  closed ← if (fd_at a i).used then appfs_close_fd fuel now i a else some (true, a)
  close_loop left fuel now (suc i) (rc && closed.0) closed.1

unfoldable pub appfs_close_all : (fuel now : ℕ) → Apps → Option (Bool × Apps)
appfs_close_all fuel now a = close_loop max_fds fuel now 0 true a

-- What appfs_open makes of its path: the name, and the descriptor's directory. A relative path with
-- a '/' starts from the window as the last call left it.
unfoldable pub open_target : (path : List ℕ) → Apps → Option (List ℕ × ℕ × List ℕ) × Fs
open_target path a =
    let (found, s) = resolve_fs_target a.app_fs_window path a.fs in
    if is_path path
    then (
      elim found [
        | none ↦ none
        | some r ↦
            if length r.leaf == 0 then none else some (r.leaf, or_one r.dir_bno, or_root r.dir_cwd)
      ],
      s,
    )
    else (
      elim (appfs_path_to_name path) [
        | none ↦ none
        | some name ↦ some (name, or_one a.app_fs_cwd_bno, or_root a.app_fs_cwd)
      ],
      a.fs,
    )

unfoldable pub open_reserved : (i : ℕ) → Apps → Bool × Fd → Option (Status × Apps)
open_reserved i a (false, fd) = some (error 4, set_fd i closed_fd a)
open_reserved i a (true, fd) = some (ok, set_fd i (record fd { pos = 0 }) a)

-- The end of appfs_open, once the file is loaded: truncation.
unfoldable pub open_truncate :
    (malloc : ℕ → Option (List ℕ)) → (flags i : ℕ) → Fd → Apps → Option (Status × Apps)
open_truncate malloc flags i fd a =
    if has o_trunc flags
    then (if fd.cap == 0
        then (appfs_reserve malloc 1 (record fd { size = 0 }) >>= open_reserved i a)
        else open_reserved i a (true, record fd { size = 0 }))
    else some (ok, set_fd i (record fd { pos = 0 }) a)

-- appfs_open behind the load.
unfoldable pub open_loaded :
    (malloc : ℕ → Option (List ℕ)) → (flags i : ℕ) → Status × Fd × Apps → Option (Status × Apps)
open_loaded malloc flags i (ok, fd, a) = open_truncate malloc flags i fd a
open_loaded malloc flags i (error k, fd, a) =
    if has o_read flags || not (has o_creat flags)
    then some (error 3, set_fd i closed_fd a)
    else open_truncate malloc flags i (record fd { size = 0; cap = 0; buf = [] }) a

-- appfs_open once the descriptor is set up.
unfoldable pub open_named :
    (malloc : ℕ → Option (List ℕ)) → (flags i : ℕ) → Fd → Apps → Option (Status × Apps)
open_named malloc flags i fd a =
    if has o_write flags && (has o_creat flags || has o_trunc flags)
    then some (ok, set_fd i fd a)
    else (appfs_load_file malloc fd fd.name flags a >>= open_loaded malloc flags i)

-- appfs_open: the descriptor is `i + 3` for the first free `i`; the status, that `i`, and the state.
unfoldable pub appfs_open :
    (malloc : ℕ → Option (List ℕ))
    → (path : List ℕ) → (flags : ℕ) → Apps
    → Option ((Status × ℕ) × Apps)
appfs_open malloc path flags a = elim (appfs_find_fd a) [
  | none ↦ some ((error 2, 0), a)
  | some i ↦
      let (target, s) = open_target path a in
      let a' = record a { fs = s } in
      elim target [
        | none ↦ some ((error 1, i), set_fd i closed_fd a')
        | some (name, bno, cwd) ↦ do
          opened ←
              open_named malloc flags i
                (record closed_fd {
                  used = true;
                  flags = flags;
                  cwd_bno = bno;
                  cwd = cwd;
                  name = copy_name20 name;
                })
                a'
          some ((opened.0, i), opened.1)
      ]
]
