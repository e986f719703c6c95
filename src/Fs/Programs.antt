-- ===== src/Fs/Programs.antt =====
-- vibeos/fs.c: the calls that a program makes on its open files, by their numbers.
use vibeos_fpga.Fs.{Fs, Status, error}
use vibeos_fpga.Fs.Dirs.{remove_entry_named, same_name}
use vibeos_fpga.Fs.Paths.{Resolved, resolve_fs_target, or_one, or_root}
use vibeos_fpga.Fs.Handles.{fd_read, fd_write, fd_seek}
use vibeos_fpga.Fs.Opening.{Apps, max_fds, fresh_window, fd_at, set_fd, appfs_close_fd}
use vibeos_fpga.Common.{
  ℕ, Bool, false, ◌&&◌, ◌||◌, Option, none, some, List, [], ◌∷◌, ltb, ◌==◌, if◌then◌else◌, ◌>>=◌,
  sub32, length,
}

-- `fd_no - 3`, when it is the number of a descriptor in use.
unfoldable pub used_fd : (fd_no : ℕ) → Apps → Option ℕ
used_fd fd_no a =
    let i = sub32 fd_no 3 in if ltb i max_fds && (fd_at a i).used then some i else none

-- appfs_read: the bytes, whose number it returns, or `none` for -1.
unfoldable pub appfs_read : (fd_no count : ℕ) → Apps → Option (List ℕ) × Apps
appfs_read fd_no count a = elim (used_fd fd_no a) [
  | none ↦ (none, a)
  | some i ↦ let (r, fd) = fd_read count (fd_at a i) in (r, set_fd i fd a)
]

-- appfs_write: whether it returns the number of the bytes, or -1.
unfoldable pub appfs_write :
    (malloc : ℕ → Option (List ℕ)) → (fd_no : ℕ) → (bytes : List ℕ) → Apps → Option (Bool × Apps)
appfs_write malloc fd_no bytes a = elim (used_fd fd_no a) [
  | none ↦ some (false, a)
  | some i ↦ do r ← fd_write malloc bytes (fd_at a i); some (r.0, set_fd i r.1 a)
]

-- appfs_seek: the position, or `none` for -1.
unfoldable pub appfs_seek :
    (malloc : ℕ → Option (List ℕ)) → (fd_no offset whence : ℕ) → Apps → Option (Option ℕ × Apps)
appfs_seek malloc fd_no offset whence a = elim (used_fd fd_no a) [
  | none ↦ some (none, a)
  | some i ↦ do r ← fd_seek malloc offset whence (fd_at a i); some (r.0, set_fd i r.1 a)
]

-- appfs_tell: the position, or `none` for -1.
unfoldable pub appfs_tell : (fd_no : ℕ) → Apps → Option ℕ
appfs_tell fd_no a = elim (used_fd fd_no a) [ none ↦ none | some i ↦ some (fd_at a i).pos ]

unfoldable pub appfs_close : (fuel now fd_no : ℕ) → Apps → Option (Bool × Apps)
appfs_close fuel now fd_no a = appfs_close_fd fuel now (sub32 fd_no 3) a

-- appfs_unlink behind the resolution of the path.
unfoldable pub unlink_target : (fuel : ℕ) → Option Resolved × Fs → Option (Status × ℕ × List ℕ × Fs)
unlink_target fuel (none, s) = some (error 1, 0, [], s)
unlink_target fuel (some r, s) =
    if length r.leaf == 0 || (same_name r.leaf (b'.' ∷ []) || same_name r.leaf (b'.' ∷ b'.' ∷ []))
    then some (error 1, 0, [], s)
    else (remove_entry_named fuel (or_one r.dir_bno) r.leaf s >>= λ removed.
        some (removed.0, or_one r.dir_bno, or_root r.dir_cwd, removed.1))

unfoldable pub appfs_unlink : (fuel : ℕ) → (path : List ℕ) → Apps → Option (Status × Apps)
appfs_unlink fuel [] a = some (error 1, a)
appfs_unlink fuel (c ∷ path) a =
    let w = fresh_window (or_one a.app_fs_cwd_bno) (or_root a.app_fs_cwd) in
    unlink_target fuel (resolve_fs_target w (c ∷ path) a.fs) >>= λ r.
    let (status, bno, cwd, s) = r in
    some (status, record a { fs = s; app_fs_window = if bno == 0 then w else fresh_window bno cwd })
