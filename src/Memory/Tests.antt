-- ===== src/Memory/Tests.antt =====
-- A move by one byte within a range that overlaps itself.
use vibeos_fpga.Common.{ℕ, ◌%◌, ◌≡◌}
use vibeos_fpga.Memory.{memmove, memcpy, memset}
use vibeos_fpga.Memory.Laws.{moved, filled, memmove-moved, memset-filled}

-- Each byte holds the low byte of its address.
abbrev own_address : ℕ → ℕ
own_address x = x % 256

memcpy_test : memcpy 101 100 4 own_address 104 ≡ 103
unfolding memcpy memmove
memcpy_test = memmove-moved 101 100 4 own_address 104

memmove-moved_example : memmove 101 100 4 own_address 104 ≡ moved 101 100 4 own_address 104
memmove-moved_example = memmove-moved 101 100 4 own_address 104

memset-filled_example : memset 100 0x141 4 own_address 103 ≡ filled 100 0x141 4 own_address 103
memset-filled_example = memset-filled 100 0x141 4 own_address 103
