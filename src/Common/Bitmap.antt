-- ===== src/Common/Bitmap.antt =====
-- A bitmap: one bit for each item, eight to a byte, lowest first.
use Prim.Native.Nat.{ℕ, zero, suc, ◌-◌, ◌*◌, ◌/◌, ◌%◌, ◌^◌, ◌<◌, bit_and, bit_or}
use mathlib.Core.Path.{◌≡◌, refl}
use mathlib.Core.Bool.{true, not}
use mathlib.Core.Logic.{◌⊎◌}
use mathlib.Core.List.{List}
use native.Mathlib.Decide.{ℕ_discrete}
use native.Mathlib.Omega.{arith}
use vibeos_fpga.Common.Tests.{◌==◌, if◌then◌else◌, ==→eq, ltb, ltb→lt}
use vibeos_fpga.Common.Tables.{all_below, all_below_sound}
use vibeos_fpga.Common.Lists.{length, get_or, set, get_or-set_self, get_or-set_ne, length-set}
use vibeos_fpga.Common.Words.{u8}
use vibeos_fpga.Common.Digits.{
  digit, digit-lt, digit-or, digit-and, digit-pow, bit_and-pow, pow-pos,
}

abbrev byte_of : List ℕ → ℕ → ℕ
byte_of bm i = get_or bm (i / 8) 0

-- The bit of item `i`, as 0 or 1.
unfoldable pub bit : List ℕ → ℕ → ℕ
bit bm i = digit (byte_of bm i) (i % 8)

pub bit-lt : (bm : List ℕ) (i : ℕ) → bit bm i < 2
unfolding bit
bit-lt bm i = digit-lt (byte_of bm i) (i % 8)

-- A byte keeps its eight digits.
digit-u8 : (a k : ℕ) → k < 8 → digit (u8 a) k ≡ digit a k
digit-u8 a zero h = omega arith
digit-u8 a (suc zero) h = omega arith
digit-u8 a (suc (suc zero)) h = omega arith
digit-u8 a (suc (suc (suc zero))) h = omega arith
digit-u8 a (suc (suc (suc (suc zero)))) h = omega arith
digit-u8 a (suc (suc (suc (suc (suc zero))))) h = omega arith
digit-u8 a (suc (suc (suc (suc (suc (suc zero)))))) h = omega arith
digit-u8 a (suc (suc (suc (suc (suc (suc (suc zero))))))) h = omega arith
digit-u8 a (suc (suc (suc (suc (suc (suc (suc (suc k)))))))) h = absurd (omega arith)

mask_table :
    all_below 8 (λ k. all_below 8 (λ j. digit (255 - 2 ^ k) j == (if k == j then 0 else 1))) ≡ true
unfolding all_below
mask_table = refl

-- The digits of a byte with one bit off.
digit-mask : (k j : ℕ) → k < 8 → j < 8 → digit (255 - 2 ^ k) j ≡ (if k == j then 0 else 1)
digit-mask k j hk hj = ==→eq _ _ (all_below_sound 8 _ j (all_below_sound 8 _ k mask_table hk) hj)

pub pow-lt-256 : (k : ℕ) → k < 8 → 2 ^ k < 256
pow-lt-256 k h = ltb→lt _ _ (all_below_sound 8 (λ j. ltb (2 ^ j) 256) k pow_table h)
  where
    pow_table : all_below 8 (λ j. ltb (2 ^ j) 256) ≡ true
    pow_table = unfold all_below in refl

-- The mask `1 << (i & 7)` of item `i`, and the byte with all bits but that.
abbrev pub bit_mask : ℕ → ℕ
bit_mask i = 2 ^ (i % 8)

-- Sets the bit of item `i`: `map[i >> 3] |= mask`, stored as a byte.
unfoldable pub mark : List ℕ → ℕ → List ℕ
mark bm i = set bm (i / 8) (u8 (bit_or (byte_of bm i) (bit_mask i)))

-- Clears it: `map[i >> 3] &= ~mask`.
unfoldable pub unmark : List ℕ → ℕ → List ℕ
unmark bm i = set bm (i / 8) (u8 (bit_and (byte_of bm i) (255 - bit_mask i)))

-- The test: `map[i >> 3] & mask`.
pub bit_and-mask :
    (bm : List ℕ) (i : ℕ) → bit_and (byte_of bm i) (bit_mask i) ≡ bit bm i * bit_mask i
unfolding bit
bit_and-mask bm i = bit_and-pow (i % 8) (byte_of bm i)

pub is_marked :
    (bm : List ℕ) (i : ℕ) → not (bit_and (byte_of bm i) (bit_mask i) == 0) ≡ (bit bm i == 1)
is_marked bm i =
    ground (arith, bit_and-mask bm i, bit-lt bm i, pow-pos (i % 8), small (bit bm i) (bit-lt bm i))
  where
    small : (b : ℕ) → b < 2 → (b ≡ 0) ⊎ (b ≡ 1)
    small b h = ground arith

pub bit-mark :
    (bm : List ℕ) (i j : ℕ)
    → i / 8 < length bm
    → bit (mark bm i) j ≡ (if i == j then 1 else bit bm j)
unfolding bit mark
bit-mark bm i j h = elim (ℕ_discrete (i / 8) (j / 8)) [
  | yes e ↦
      rw
        (
          ← e,
          get_or-set_self bm (i / 8) (u8 (bit_or (byte_of bm i) (bit_mask i))) 0 h,
          digit-u8 (bit_or (byte_of bm i) (bit_mask i)) (j % 8) (omega arith),
          digit-or (byte_of bm i) (bit_mask i) (j % 8),
          digit-pow (i % 8) (j % 8),
        )
        (ground (arith, digit-lt (byte_of bm i) (j % 8)))
  | no ne ↦
      rw (get_or-set_ne bm (i / 8) (j / 8) (u8 (bit_or (byte_of bm i) (bit_mask i))) 0 ne)
        (ground arith)
]

pub bit-unmark :
    (bm : List ℕ) (i j : ℕ)
    → i / 8 < length bm
    → bit (unmark bm i) j ≡ (if i == j then 0 else bit bm j)
unfolding bit unmark
bit-unmark bm i j h = elim (ℕ_discrete (i / 8) (j / 8)) [
  | yes e ↦
      rw
        (
          ← e,
          get_or-set_self bm (i / 8) (u8 (bit_and (byte_of bm i) (255 - bit_mask i))) 0 h,
          digit-u8 (bit_and (byte_of bm i) (255 - bit_mask i)) (j % 8) (omega arith),
          digit-and (byte_of bm i) (255 - bit_mask i) (j % 8),
          digit-mask (i % 8) (j % 8) (omega arith) (omega arith),
        )
        (ground (arith, digit-lt (byte_of bm i) (j % 8)))
  | no ne ↦
      rw (get_or-set_ne bm (i / 8) (j / 8) (u8 (bit_and (byte_of bm i) (255 - bit_mask i))) 0 ne)
        (ground arith)
]

pub length-mark : (bm : List ℕ) (i : ℕ) → length (mark bm i) ≡ length bm
unfolding mark
length-mark bm i = length-set bm (i / 8) _

pub length-unmark : (bm : List ℕ) (i : ℕ) → length (unmark bm i) ≡ length bm
unfolding unmark
length-unmark bm i = length-set bm (i / 8) _
