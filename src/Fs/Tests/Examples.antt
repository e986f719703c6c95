-- ===== src/Fs/Tests/Examples.antt =====
-- vibeos/fs.c: the theorems at a disk of 64 blocks with a file `b` of one byte in block 60.
use vibeos_fpga.Common.Bitmap.{bit}
use mathlib.Core.Option.{some-injective}
use vibeos_fpga.Strings.{strcmp}
use vibeos_fpga.Fs.{Entry, Dir, dir_block, data_block, other, Fs, ok, empty_entry}
use vibeos_fpga.Fs.Blocks.{balloc, fs_free_chain}
use vibeos_fpga.Fs.Blocks.Invariant.{IsFs, Found, balloc_lem}
use vibeos_fpga.Fs.Blocks.Space.{free_blocks, free_from}
use vibeos_fpga.Fs.Blocks.Release.{IsChain, member, fs_free_chain-Freed, Freed}
use vibeos_fpga.Fs.Dirs.{find_from, matches, same_name}
use vibeos_fpga.Fs.Files.{payload_of, store_in, load_in}
use vibeos_fpga.Fs.Files.Store.{creates, Target, HasRoom}
use vibeos_fpga.Fs.Files.RoundTrip.{load_in-store_in}
use vibeos_fpga.Fs.Files.Others.{Other, result, load_in-store_in_other}
use vibeos_fpga.Fs.Paths.{slash, root, last_or, fs_path_set_child, fs_path_set_parent}
use vibeos_fpga.Fs.Paths.Parent.{fs_path_set_parent-fs_path_set_child, is_name_char, all_of}
use vibeos_fpga.Fs.Handles.{
  Fd, closed_fd, has, fd_read, fd_write, fd_seek, grow, write_bytes, overwrite, appfs_reserve,
}
use vibeos_fpga.Fs.Handles.Reserve.{IsFd, IsMalloc, content, grow-ends}
use vibeos_fpga.Fs.Handles.Splice.{splice}
use vibeos_fpga.Fs.Handles.Write.{Now, fd_write-splice}
use vibeos_fpga.Fs.Handles.Read.{fd_read-fd_write}
use vibeos_fpga.Fs.Handles.Seek.{Sought, fd_seek-Sought}
use vibeos_fpga.Common.{
  ℕ, ◌≤◌, ◌<◌, ◌≡◌, ◌≢◌, refl, true, false, ◌⊎◌, Option, none, some, List, [], ◌∷◌, ◌++◌, ◌==◌,
  if◌then◌else◌, arith, replicate, all_below, all_below_sound, ==→eq, length-replicate,
}

abbrev a : List ℕ
a = b'a' ∷ []

abbrev pub b : List ℕ
b = b'b' ∷ []

abbrev pub file : Entry
file = record empty_entry { name = b; bno = 60; size = 1 }

abbrev pub top : Dir
top = record { parent_bno = 1; entries = file ∷ replicate 101 empty_entry }

abbrev pub small : Fs
small = record {
  disk = λ n.
      if n == 1
      then dir_block top
      else if n == 60
      then data_block 0 (payload_of (5 ∷ []))
      else other [];
  block_map = 255 ∷ 255 ∷ 255 ∷ 255 ∷ 255 ∷ 255 ∷ 255 ∷ 31 ∷ [];
  next_free_block = 61;
  alloc_ready = true;
  max_blocks = 64;
  behind = replicate 18 empty_entry;
}

marks_test : all_below 61 (λ i. bit small.block_map i == 1) ≡ true
unfolding all_below bit
marks_test = refl

small-IsFs : IsFs small
small-IsFs = record {
  ready = refl;
  whole = refl;
  system_le = omega arith;
  next_le = omega arith;
  packed = λ i h. ==→eq _ _ (all_below_sound 61 (λ i. bit small.block_map i == 1) i marks_test h);
}

in_use : (i : ℕ) → i < 61 → bit small.block_map i ≡ 1
in_use i h = small-IsFs.packed i h

target : Target small 0 1 a
unfolding find_from matches same_name strcmp IsChain member
target = record {
  db = top;
  at = refl;
  whole = refl;
  used = in_use 1 (omega arith);
  named = omega arith;
  short = omega arith;
  idx = 1;
  old = none;
  slot = creates 1 refl refl;
  inside = omega arith;
  blocks = [];
  chain = refl;
  enough = omega arith;
  chain_used = λ n h. absurd (cc);
}

room : HasRoom small (7 ∷ 8 ∷ [])
unfolding free_blocks free_from bit
room = record { one = omega arith; all = omega arith }

load_in-store_in_example :
    (s' : Fs) × (store_in 0 100 1 a (7 ∷ 8 ∷ []) small ≡ some (ok, s'))
    × (load_in 1 a 5 s' ≡ some ((ok, 7 ∷ 8 ∷ []), s'))
load_in-store_in_example =
    load_in-store_in 0 100 1 5 a (7 ∷ 8 ∷ []) small-IsFs target room (omega arith)

pub IsChain-b : IsChain small.disk 60 (60 ∷ [])
unfolding IsChain
IsChain-b = (refl, (λ h. absurd (omega arith)), refl)

others : Other small 1 1 top b
unfolding find_from matches same_name strcmp member
others = record {
  slot = 0;
  found = refl;
  apart = λ h. absurd (omega arith);
  blocks = 60 ∷ [];
  chain = IsChain-b;
  chain_used = λ n h. used n h;
}
  where
    used : (n : ℕ) → member n (60 ∷ []) ≡ true → (bit small.block_map n ≡ 1) × (n ≢ 1)
    used n h = let e : n ≡ 60 = ground arith in (in_use n (omega arith), λ k. absurd (omega arith))

other_name : strcmp a b ≢ 0
unfolding strcmp
other_name h = absurd (omega arith)

load_in-store_in_other_example :
    (s' : Fs) × (store_in 0 100 1 a (7 ∷ 8 ∷ []) small ≡ some (ok, s'))
    × (result (load_in 1 b 5 s') ≡ result (load_in 1 b 5 small))
unfolding find_from matches same_name strcmp IsChain member target
load_in-store_in_other_example =
    load_in-store_in_other 0 100 1 5 a (7 ∷ 8 ∷ []) b small-IsFs target room others other_name

balloc_example : Found small (balloc small)
balloc_example = balloc_lem small-IsFs

fs_free_chain-Freed_example :
    (s' : Fs) × (fs_free_chain 1 60 small ≡ some s') × Freed small s' (60 ∷ [])
fs_free_chain-Freed_example = fs_free_chain-Freed 1 60 (60 ∷ []) small-IsFs IsChain-b (omega arith)

fs_path_set_parent-fs_path_set_child_example :
    (fs_path_set_child root a ≡ root ++ slash ∷ a)
    × (fs_path_set_parent (fs_path_set_child root a) ≡ root)
unfolding last_or is_name_char all_of
fs_path_set_parent-fs_path_set_child_example =
    fs_path_set_parent-fs_path_set_child root a (omega arith) (λ h. absurd (omega arith))
      (omega arith) (omega arith) refl

-- A file that is open for reading and writing, with three bytes and its position at the second.
abbrev opened : Fd
opened = record closed_fd {
  used = true;
  flags = 3;
  pos = 1;
  size = 3;
  cap = 4;
  buf = 1 ∷ 2 ∷ 3 ∷ 4 ∷ [];
}

opened-IsFd : IsFd opened
opened-IsFd = record {
  whole = refl;
  size_le = omega arith;
  pos_le = omega arith;
  cap_lt = omega arith;
}

abbrev heap : ℕ → Option (List ℕ)
heap n = some (replicate n 255)

heap-IsMalloc : IsMalloc heap
heap-IsMalloc n c e = rw (← some-injective _ _ e) (length-replicate n 255)

abbrev written : Fd
written = record opened { pos = 3; buf = 1 ∷ 8 ∷ 9 ∷ 4 ∷ [] }

write_test : fd_write heap (8 ∷ 9 ∷ []) opened ≡ some (true, written)
unfolding fd_write has appfs_reserve write_bytes overwrite
write_test = refl

fd_read-fd_write_example :
    (back : Fd) × (fd_seek heap 1 0 written ≡ some (some 1, back))
    × ((fd_read 2 back).0 ≡ some (8 ∷ 9 ∷ []))
unfolding has
fd_read-fd_write_example =
    fd_read-fd_write heap (8 ∷ 9 ∷ []) heap-IsMalloc opened-IsFd refl (omega arith) (omega arith)
      write_test

fd_write-splice_example :
    (fd_write heap (8 ∷ 9 ∷ []) opened ≡ some (false, opened))
    ⊎ ((fd' : Fd) × (fd_write heap (8 ∷ 9 ∷ []) opened ≡ some (true, fd'))
        × Now opened fd' (splice 1 (8 ∷ 9 ∷ []) (content opened)) 3)
fd_write-splice_example = fd_write-splice heap (8 ∷ 9 ∷ []) heap-IsMalloc opened-IsFd (omega arith)

-- 600 behind the end
fd_seek-Sought_example : Sought heap 600 2 opened (fd_seek heap 600 2 opened)
fd_seek-Sought_example =
    fd_seek-Sought heap 600 2 heap-IsMalloc opened-IsFd (omega arith) (omega arith)

grow-ends_example : (c : ℕ) × (grow 34 1000 256 256 ≡ some (some c)) × (1000 ≤ c)
grow-ends_example = grow-ends 1000 256 (omega arith) (omega arith)
