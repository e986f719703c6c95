-- ===== src/Fs/Handles.antt =====
-- vibeos/fs.c: an open file, its buffer and its position.
--
-- `buf` is the list of the bytes of the buffer, empty for NULL. `malloc` is a parameter: the
-- contents of the block that it returns for a size, or `none`. An `int` is a 32-bit word; an
-- operation returns `none` where the source is undefined or does not end.
pub mod Reserve
pub mod Splice
pub mod Write
pub mod Read
pub mod Gap
pub mod Seek
use vibeos_fpga.Fs.{Fs, Window}
use vibeos_fpga.Common.{
  ℕ, zero, suc, ◌+◌, ◌-◌, ◌*◌, ◌^◌, min, max, bit_and, Bool, true, false, not, Option, none, some,
  List, [], ◌++◌, ltb, leb, ◌==◌, if◌then◌else◌, ◌>>=◌, u32, add32, length, take, drop, replicate,
}

-- struct app_fd_entry
pub record Fd : Type 0 where
  pub used : Bool
  pub flags : ℕ
  pub pos : ℕ
  pub size : ℕ
  pub cap : ℕ
  pub buf : List ℕ
  pub cwd_bno : ℕ
  pub name : List ℕ
  pub cwd : List ℕ

-- memset(fd, 0, sizeof(*fd))
abbrev pub closed_fd : Fd
closed_fd = record {
  used = false;
  flags = 0;
  pos = 0;
  size = 0;
  cap = 0;
  buf = [];
  cwd_bno = 0;
  name = [];
  cwd = [];
}

-- APP_O_READ, APP_O_WRITE, APP_O_CREAT, APP_O_TRUNC
abbrev pub o_read : ℕ
o_read = 1

abbrev pub o_write : ℕ
o_write = 2

abbrev pub o_creat : ℕ
o_creat = 0x100

abbrev pub o_trunc : ℕ
o_trunc = 0x200

-- `flags & mask`
unfoldable pub has : (mask flags : ℕ) → Bool
has mask flags = not (bit_and flags mask == 0)

-- The loop of appfs_reserve: the new capacity, or `none` inside for its error. 32 doublings leave
-- 0, and a capacity of 0 stays what it is, so a loop that goes on for 34 rounds never ends.
unfoldable pub grow : ℕ → (need cap new_cap : ℕ) → Option (Option ℕ)
grow zero need cap new_cap = none
grow (suc fuel) need cap new_cap =
    let doubled = u32 (new_cap * 2) in
    let rest = grow fuel need cap doubled in
    if leb need new_cap then some (some new_cap) else if ltb doubled cap then some none else rest

-- The new buffer with the old contents.
unfoldable pub adopt_buffer : (new_cap : ℕ) → (fresh : List ℕ) → Fd → Fd
adopt_buffer new_cap fresh fd =
    let kept = take fd.size fd.buf in
    record fd { buf = kept ++ drop (length kept) fresh; cap = new_cap }

-- appfs_reserve: whether it succeeds, and the descriptor.
unfoldable pub appfs_reserve : (malloc : ℕ → Option (List ℕ)) → (need : ℕ) → Fd → Option (Bool × Fd)
appfs_reserve malloc need fd =
    if leb need fd.cap
    then some (true, fd)
    else (elim (grow 34 need fd.cap (if fd.cap == 0 then 256 else fd.cap)) [
      | none ↦ none
      | some none ↦ some (false, fd)
      | some (some new_cap) ↦ elim (malloc new_cap) [
        | none ↦ some (false, fd)
        | some fresh ↦ some (true, adopt_buffer new_cap fresh fd)
      ]
    ])

-- appfs_read of an open file: the bytes, whose number it returns, or `none` for -1.
unfoldable pub fd_read : (count : ℕ) → Fd → Option (List ℕ) × Fd
fd_read count fd =
    let chunk = min count (fd.size - fd.pos) in
    if not (has o_read fd.flags)
    then (none, fd)
    else if leb fd.size fd.pos
    then (some [], fd)
    else (some (take chunk (drop fd.pos fd.buf)), record fd { pos = u32 (fd.pos + chunk) })

-- memcpy(buf + at, bytes, size); `none` when it leaves the buffer.
unfoldable pub overwrite : (at : ℕ) → (bytes buf : List ℕ) → Option (List ℕ)
overwrite at bytes buf =
    if leb (at + length bytes) (length buf)
    then some (take at buf ++ (bytes ++ drop (at + length bytes) buf))
    else none

-- appfs_write behind the reserve.
unfoldable pub write_bytes : (bytes : List ℕ) → Bool × Fd → Option (Bool × Fd)
write_bytes bytes (false, fd) = some (false, fd)
write_bytes bytes (true, fd) = do
  buf' ← overwrite fd.pos bytes fd.buf
  let pos' = u32 (fd.pos + length bytes)
  some (true, record fd { buf = buf'; pos = pos'; size = max fd.size pos' })

-- appfs_write of an open file: whether it succeeds, when it returns the number of bytes, or -1.
unfoldable pub fd_write :
    (malloc : ℕ → Option (List ℕ)) → (bytes : List ℕ) → Fd → Option (Bool × Fd)
fd_write malloc bytes fd =
    if has o_write fd.flags
    then (appfs_reserve malloc (u32 (fd.pos + length bytes)) fd >>= write_bytes bytes)
    else some (false, fd)

-- The position that appfs_seek goes to: `none` for a `whence` that it does not know.
unfoldable pub seek_base : (whence : ℕ) → Fd → Option ℕ
seek_base whence fd =
    if whence == 0
    then some 0
    else if whence == 1
    then some fd.pos
    else if whence == 2
    then some fd.size
    else none

-- appfs_seek behind the reserve, to a position behind the end: the gap is filled with zeros.
unfoldable pub seek_far : (next : ℕ) → Bool × Fd → Option (Option ℕ × Fd)
seek_far next (false, fd) = some (none, fd)
seek_far next (true, fd) = do
  buf' ← overwrite fd.size (replicate (next - fd.size) 0) fd.buf
  some (some next, record fd { buf = buf'; size = next; pos = next })

unfoldable pub seek_to : (malloc : ℕ → Option (List ℕ)) → (next : ℕ) → Fd → Option (Option ℕ × Fd)
seek_to malloc next fd =
    if leb (2 ^ 31) next
    then some (none, fd)
    else if leb next fd.size
    then some (some next, record fd { pos = next })
    else if has o_write fd.flags
    then (appfs_reserve malloc next fd >>= seek_far next)
    else some (none, fd)

-- appfs_seek of an open file: the new position, or `none` for -1.
unfoldable pub fd_seek :
    (malloc : ℕ → Option (List ℕ)) → (offset whence : ℕ) → Fd → Option (Option ℕ × Fd)
fd_seek malloc offset whence fd = elim (seek_base whence fd) [
  | none ↦ some (none, fd)
  | some base ↦ seek_to malloc (add32 base offset) fd
]
