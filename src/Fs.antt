-- ===== src/Fs.antt =====
-- vibeos/user.h and vibeos/fs.c: the blocks of the file system and its state.
--
-- A block is read by its magic number: a directory, a part of a file, or other bytes. A name is the
-- list of the characters in front of its terminator, and an entry is free when its name is empty.
-- The disk is the block at each number, and virtio_disk_rw reads or writes one; what the device
-- does with a number that it lacks is not modelled.
--
-- The source takes a directory for 120 entries, but 102 fit in a block. `behind` is what the memory
-- behind a block's buffer reads as, 18 entries more. A write there is undefined, and an operation
-- that makes one returns `none`. A status `error k` is the return of -k.
pub mod Blocks
pub mod Dirs
pub mod Files
pub mod Paths
pub mod Calls
pub mod Handles
pub mod Opening
pub mod Programs
mod Tests
use vibeos_fpga.Common.{
  ℕ, ◌/◌, ◌^◌, Bool, Option, none, some, List, [], ◌∷◌, ◌++◌, ◌==◌, if◌then◌else◌, u8, length, take,
  drop, replicate,
}

-- struct file_entry
pub record Entry : Type 0 where
  pub name : List ℕ
  pub bno : ℕ
  pub size : ℕ
  pub ctime : ℕ
  pub mtime : ℕ
  pub mode : ℕ
  pub type : ℕ

-- struct dir_block, with the entries that lie in the block
pub record Dir : Type 0 where
  pub parent_bno : ℕ
  pub entries : List Entry

-- `!entry.name[0]`
abbrev pub is_free : Entry → Bool
is_free e = length e.name == 0

pub data Block : Type 0 where
  dir_block : Dir → Block
  data_block : (next_bno : ℕ) (payload : List ℕ) → Block
  other : (bytes : List ℕ) → Block

abbrev pub bsize : ℕ
bsize = 4096

-- FS_DATA_PAYLOAD
abbrev pub data_payload : ℕ
data_payload = 4088

-- The entries that lie in a block.
abbrev pub stored_entries : ℕ
stored_entries = 102

abbrev pub empty_entry : Entry
empty_entry = record { name = []; bno = 0; size = 0; ctime = 0; mtime = 0; mode = 0; type = 0 }

-- The globals. The build fixes `max_blocks`; no operation writes it or `behind`.
pub record Fs : Type 0 where
  pub disk : ℕ → Block
  pub block_map : List ℕ
  pub next_free_block : ℕ
  pub alloc_ready : Bool
  pub max_blocks : ℕ
  pub behind : List Entry

pub data Status : Type 0 where
  ok : Status
  error : ℕ → Status

-- The directory of a window, and its variable HOME.
pub record Window : Type 0 where
  pub cwd_bno : ℕ
  pub cwd : List ℕ
  pub home : List ℕ

-- virtio_disk_rw(b, 1)
abbrev pub write_block : ℕ → Block → Fs → Fs
write_block n b s = record s { disk = λ m. if m == n then b else s.disk m }

-- The test of FS_MAGIC.
abbrev pub as_dir : Block → Option Dir
as_dir (dir_block d) = some d
as_dir (data_block next_bno payload) = none
as_dir (other bytes) = none

-- next_bno behind the test of FS_DATA_MAGIC, 0 in any other block.
abbrev pub next_of : Block → ℕ
next_of (dir_block d) = 0
next_of (data_block next_bno payload) = next_bno
next_of (other bytes) = 0

abbrev pub word_bytes : ℕ → List ℕ
word_bytes n = u8 n ∷ u8 (n / 2 ^ 8) ∷ u8 (n / 2 ^ 16) ∷ u8 (n / 2 ^ 24) ∷ []

-- A write of next_bno, the second word, into a block of any kind.
abbrev pub set_next : ℕ → Block → Block
set_next n (dir_block d) = dir_block (record d { parent_bno = n })
set_next n (data_block next_bno payload) = data_block n payload
set_next n (other bytes) = other (take 4 bytes ++ (word_bytes n ++ drop 8 bytes))

-- memset(&b, 0, sizeof(b))
unfoldable pub zero_block : Block
zero_block = other (replicate bsize 0)

-- The entries that the source goes through.
abbrev pub view : Fs → Dir → List Entry
view s d = d.entries ++ s.behind
