-- ===== src/Division/Tests.antt =====
-- The division routines on a few words.
use vibeos_fpga.Common.{◌+◌, ◌-◌, ◌/◌, ◌%◌, ◌^◌, ◌≡◌, arith}
use vibeos_fpga.Division.{udivdi3, umoddi3, divdi3, moddi3}
use vibeos_fpga.Division.Laws.{udivdi3_lem, umoddi3_lem}
use vibeos_fpga.Division.Signed.{Truncated, divdi3-moddi3}

udivdi3_example : udivdi3 (2 ^ 63 + 5) 1000 ≡ (2 ^ 63 + 5) / 1000
udivdi3_example = udivdi3_lem (2 ^ 63 + 5) 1000 (omega arith) (omega arith)

umoddi3_example : umoddi3 (2 ^ 63 + 5) 1000 ≡ (2 ^ 63 + 5) % 1000
umoddi3_example = umoddi3_lem (2 ^ 63 + 5) 1000 (omega arith) (omega arith)

-- -7 by 2
divdi3-moddi3_example : Truncated (2 ^ 64 - 7) 2 (divdi3 (2 ^ 64 - 7) 2) (moddi3 (2 ^ 64 - 7) 2)
divdi3-moddi3_example = divdi3-moddi3 (2 ^ 64 - 7) 2 (omega arith) (omega arith) (omega arith)
