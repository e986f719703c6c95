-- ===== src/Memory.antt =====
-- vibeos/string.c: memset, memmove and memcpy.
--
-- The memory is the byte at each address. A pointer is a number; the sums of pointers do not go round,
-- since no object reaches over the end of the address space.
pub mod Laws
mod Tests
use vibeos_fpga.Common.{ℕ, zero, suc, ◌+◌, ◌-◌, ◌&&◌, ltb, ◌==◌, if◌then◌else◌, u8}

abbrev pub store : (ℕ → ℕ) → ℕ → ℕ → ℕ → ℕ
store memory address value x = if address == x then value else memory x

-- The loop of memset: `left` bytes from `dst + i` on.
pub memset_loop : ℕ → (dst c i : ℕ) → (ℕ → ℕ) → ℕ → ℕ
memset_loop zero dst c i memory = memory
memset_loop (suc left) dst c i memory =
    memset_loop left dst c (suc i) (store memory (dst + i) (u8 c))

pub memset : (dst c n : ℕ) → (ℕ → ℕ) → ℕ → ℕ
memset dst c n memory = memset_loop n dst c 0 memory

-- `while (n-- > 0) *--d = *--s`
pub copy_down : ℕ → (d s : ℕ) → (ℕ → ℕ) → ℕ → ℕ
copy_down zero d s memory = memory
copy_down (suc n) d s memory = copy_down n (d - 1) (s - 1) (store memory (d - 1) (memory (s - 1)))

-- `while (n-- > 0) *d++ = *s++`
pub copy_up : ℕ → (d s : ℕ) → (ℕ → ℕ) → ℕ → ℕ
copy_up zero d s memory = memory
copy_up (suc n) d s memory = copy_up n (d + 1) (s + 1) (store memory d (memory s))

pub memmove : (dst src n : ℕ) → (ℕ → ℕ) → ℕ → ℕ
memmove dst src n memory =
    if ltb src dst && ltb dst (src + n)
    then copy_down n (dst + n) (src + n) memory
    else copy_up n dst src memory

pub memcpy : (dst src n : ℕ) → (ℕ → ℕ) → ℕ → ℕ
memcpy dst src n memory = memmove dst src n memory
