-- ===== src/Format/Digits.antt =====
-- print_unsigned: the digits that it prints.
use vibeos_fpga.Common.{ℕ, ◌+◌, ◌-◌, ◌*◌, ◌<◌, List, [], ◌∷◌, ltb, if◌then◌else◌}

-- The value of a character as a digit.
abbrev pub digit_value : ℕ → ℕ
digit_value c = if ltb c 58 then c - b'0' else if ltb c 97 then c - b'A' + 10 else c - b'a' + 10

-- The number that a text in a base stands for, from the left, after the number `acc`.
abbrev pub value : ℕ → ℕ → List ℕ → ℕ
value base acc [] = acc
value base acc (c ∷ cs) = value base (acc * base + digit_value c) cs

-- The same with the lowest digit first.
low_value : ℕ → List ℕ → ℕ
low_value base [] = 0
low_value base (c ∷ cs) = digit_value c + base * low_value base cs

-- Every character is a digit of the base.
abbrev pub AreDigits : ℕ → List ℕ → Type 0
AreDigits base [] = Unit
AreDigits base (c ∷ cs) = (digit_value c < base) × AreDigits base cs
