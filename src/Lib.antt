-- ===== src/Lib.antt =====
-- Vibe OS for an FPGA: a small operating system for a 32-bit RISC-V core. This library models parts
-- of its kernel and states what makes them correct.
--
-- Common: Boolean tests, lists over the native numbers, machine words, loops, bits of a bitmap.
-- Alloc (vibeos/alloc.c): the page allocator. The record Heap holds the globals, the word at each
-- address and the machine status word; malloc and free are functions of it. The bitmap is a list
-- of bytes apart from the words. Alloc/Invariant says what a well-formed heap with a list of live
-- blocks is, and Alloc/History what a program may do with it.
-- Task (vibeos/task.c): the multi-level round-robin scheduler. The record Sched holds the globals;
-- an operation that can panic returns an Option, and one that can switch contexts also returns
-- which. An `int` is a 32-bit word in two's complement.
-- Uart (vibeos/lib.c): the queue between the interrupt handler and the terminal. Uart/Queue is its
-- abstract view, a list of at most 1023 characters.
-- Division (vibeos/lib.c): the 64-bit division that the compiler calls.
-- Format (vibeos/lib.c): lib_vsnprintf. Format/Text is the text that a format means, with no buffer.
-- Timer (vibeos/timer.c): the calendar, the wall clock and the random numbers. A read of the counter
-- is an argument, and the counter runs at 10 MHz, as in the build without FPGA_MINIMAL.
-- Memory (vibeos/string.c): memset, memmove and memcpy on the byte at each address.
-- Url (vibeos/user_utils.c): percent encoding and decoding of addresses.
--
-- Strings (vibeos/user_utils.c): comparison and search of strings, as lists of characters.
-- Fs (vibeos/fs.c): the file system. The record Fs holds the disk, a function from block numbers to
-- blocks, and the map of used blocks. Fs/Blocks is the map and the chains of data blocks, Fs/Dirs the
-- entries of a directory, Fs/Files the contents of files, Fs/Paths the resolution of paths (with
-- vibeos/user_terminal.c), Fs/Calls the operations by path, Fs/Handles an open file, Fs/Opening the
-- table of open files, and Fs/Programs the calls of a program. A directory has 120 entries in the
-- source and 102 in its block: the others are what stands in memory behind the block.
--
-- The tasks of the scheduler are the code that calls malloc and free; the allocator holds
-- interrupts off while it changes its bitmap, so each of its calls is one step here.
--
-- Bounds: the search of malloc has fuel for one more round than there are pages, and each round
-- moves on by a page at least. The division loops run 64 rounds, and a 64-bit number has at most 64
-- digits. The loop over a format has its length as fuel, since each round takes a character, the
-- loop over the years the number of days, and the decoding of an address its room.
-- A read of a file copies a byte in each round and a store writes one, so the number of bytes is
-- enough fuel for both. A chain of blocks is freed with fuel that the caller gives: a theorem says
-- that its number of blocks is enough. The doubling of a buffer has fuel for 34 rounds, and a
-- theorem says when that is enough. All other loops recur on the count that the code compares
-- with.
--
-- Not modelled: path buffers that are too short, the log and the device behind the disk; the
-- drawing and window code, the drivers, the network applications and the vendored libraries, which
-- are device access or calls of other projects' code; the context switch itself, which is
-- assembly.
pub mod Common
pub mod Alloc
pub mod Division
pub mod Uart
pub mod Task
pub mod Format
pub mod Timer
pub mod Url
pub mod Memory
pub mod Strings
pub mod Fs
