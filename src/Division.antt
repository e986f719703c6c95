-- ===== src/Division.antt =====
-- vibeos/lib.c: the 64-bit division routines that the compiler calls on this 32-bit machine.
--
-- A 64-bit word is a number below 2 ^ 64; a signed one is two's complement. A loop from `i = 63`
-- down to 0 recurs on `i + 1`.
pub mod Laws
pub mod Signed
mod Tests
use vibeos_fpga.Common.{
  ℕ, zero, suc, ◌-◌, ◌*◌, ◌/◌, ◌%◌, ◌^◌, bit_and, bit_or, Bool, leb, ◌==◌, if◌then◌else◌, u64,
}

-- One round: the next bit of `n` comes in below the remainder.
abbrev pub shift_in : ℕ → ℕ → ℕ → ℕ
shift_in n i r = bit_or (u64 (r * 2)) (bit_and (n / 2 ^ i) 1)

pub umoddi3_loop : ℕ → (n d r : ℕ) → ℕ
umoddi3_loop zero n d r = r
umoddi3_loop (suc i) n d r =
    let r' = shift_in n i r in umoddi3_loop i n d (if leb d r' then r' - d else r')

-- __umoddi3
pub umoddi3 : ℕ → ℕ → ℕ
umoddi3 n d = umoddi3_loop 64 n d 0

-- The quotient and the remainder.
pub udivdi3_loop : ℕ → (n d quotient remainder : ℕ) → ℕ × ℕ
udivdi3_loop zero n d q r = (q, r)
udivdi3_loop (suc i) n d q r =
    let r' = shift_in n i r in
    udivdi3_loop i n d (if leb d r' then bit_or q (2 ^ i) else q) (if leb d r' then r' - d else r')

-- __udivdi3
pub udivdi3 : ℕ → ℕ → ℕ
udivdi3 n d = if d == 0 then 2 ^ 64 - 1 else (udivdi3_loop 64 n d 0 0).0

abbrev pub is_negative : ℕ → Bool
is_negative n = leb (2 ^ 63) n

-- `-n`
abbrev pub neg64 : ℕ → ℕ
neg64 n = (2 ^ 64 - n) % 2 ^ 64

-- __divdi3: `sign` is 1 or -1.
pub divdi3 : ℕ → ℕ → ℕ
divdi3 n d =
    let n' = if is_negative n then neg64 n else n in
    let sign = if is_negative n then neg64 1 else 1 in
    let d' = if is_negative d then neg64 d else d in
    let sign' = if is_negative d then neg64 sign else sign in u64 (sign' * udivdi3 n' d')

-- __moddi3
pub moddi3 : ℕ → ℕ → ℕ
moddi3 n d =
    let n' = if is_negative n then neg64 n else n in
    let sign = if is_negative n then neg64 1 else 1 in
    let d' = if is_negative d then neg64 d else d in u64 (sign * umoddi3 n' d')
