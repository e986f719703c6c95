-- ===== src/Common/Digits.antt =====
-- Binary digits of the native bit operations, at every width.
use Prim.Native.Nat.{
  ◌-◌, ℕ, zero, suc, ◌+◌, ◌*◌, ◌/◌, ◌%◌, ◌^◌, ◌≤◌, ◌<◌, min, max, digits, bitwise,
}
use Prim.Native.Nat.{bit_and, bit_or, bit_and-bitwise, bit_or-bitwise}
use mathlib.Core.Path.{ap₂, ◌∙◌, sym, ◌≡◌, refl, ap}
use native.Mathlib.Nat.{
  le_refl, pow-suc, pow-succ', add-mul-mod_self_right, mod-eq_of_lt, mod-lt, div-add-mod,
  div-div-eq-div-mul,
}
use native.Mathlib.Omega.{arith}
use vibeos_fpga.Common.Tests.{◌==◌, if◌then◌else◌}

-- Enough fuel is as good as more.
module _ (rest : ℕ → ℕ) (op : ℕ → ℕ → ℕ) where
  digits-fuel : (p q a b : ℕ) → a ≤ p → a ≤ q → digits rest op p a b ≡ digits rest op q a b
  digits-fuel zero zero a b hp hq = refl
  digits-fuel zero (suc q) zero b hp hq = refl
  digits-fuel zero (suc q) (suc a) b hp hq = absurd (omega arith)
  digits-fuel (suc p) zero zero b hp hq = refl
  digits-fuel (suc p) zero (suc a) b hp hq = absurd (omega arith)
  digits-fuel (suc p) (suc q) zero b hp hq = refl
  digits-fuel (suc p) (suc q) (suc a) b hp hq =
      rw (digits-fuel p q (suc a / 2) (b / 2) (omega arith) (omega arith))

  bitwise-step :
      (a b : ℕ)
      → bitwise rest op (suc a) b ≡ bitwise rest op (suc a / 2) (b / 2) * 2 + op (suc a % 2) (b % 2)
  bitwise-step a b =
      omega (arith, digits-fuel a (suc a / 2) (suc a / 2) (b / 2) (omega arith) (le_refl _))

-- The lowest digit and the rest.
pub bit_or-step : (a b : ℕ) → bit_or a b ≡ bit_or (a / 2) (b / 2) * 2 + max (a % 2) (b % 2)
bit_or-step zero b = simp bit_or-bitwise (omega arith)
bit_or-step (suc a) b = simp bit_or-bitwise (bitwise-step (λ y. y) max a b)

pub bit_and-step : (a b : ℕ) → bit_and a b ≡ bit_and (a / 2) (b / 2) * 2 + min (a % 2) (b % 2)
bit_and-step zero b = simp bit_and-bitwise (omega arith)
bit_and-step (suc a) b = simp bit_and-bitwise (bitwise-step (λ y. 0) min a b)

-- The digit at a position.
abbrev pub digit : ℕ → ℕ → ℕ
digit a zero = a % 2
digit a (suc k) = digit (a / 2) k

pub digit-lt : (a k : ℕ) → digit a k < 2
digit-lt a zero = omega arith
digit-lt a (suc k) = digit-lt (a / 2) k

halves-or : (a b : ℕ) → bit_or a b / 2 ≡ bit_or (a / 2) (b / 2)
halves-or a b = omega (arith, bit_or-step a b)

halves-and : (a b : ℕ) → bit_and a b / 2 ≡ bit_and (a / 2) (b / 2)
halves-and a b = omega (arith, bit_and-step a b)

pub digit-or : (a b k : ℕ) → digit (bit_or a b) k ≡ max (digit a k) (digit b k)
digit-or a b zero = omega (arith, bit_or-step a b)
digit-or a b (suc k) = rw (halves-or a b) (digit-or (a / 2) (b / 2) k)

pub digit-and : (a b k : ℕ) → digit (bit_and a b) k ≡ min (digit a k) (digit b k)
digit-and a b zero = omega (arith, bit_and-step a b)
digit-and a b (suc k) = rw (halves-and a b) (digit-and (a / 2) (b / 2) k)

digit-zero : (k : ℕ) → digit 0 k ≡ 0
digit-zero zero = refl
digit-zero (suc k) = digit-zero k

half-pow : (k : ℕ) → 2 ^ suc k / 2 ≡ 2 ^ k
half-pow k = omega (arith, pow-suc 2 k)

pub digit-pow : (k j : ℕ) → digit (2 ^ k) j ≡ (if k == j then 1 else 0)
digit-pow zero zero = refl
digit-pow zero (suc j) = ground (arith, digit-zero j)
digit-pow (suc k) zero = ground (arith, pow-suc 2 k)
digit-pow (suc k) (suc j) = rw (half-pow k) (ground (arith, digit-pow k j))

bit_and-zero : (k a : ℕ) → a ≤ k → bit_and a 0 ≡ 0
bit_and-zero k zero h = refl
bit_and-zero zero (suc a) h = absurd (omega arith)
bit_and-zero (suc k) (suc a) h =
    omega (arith, bit_and-step (suc a) 0, bit_and-zero k (suc a / 2) (omega arith))

-- A mask of one bit picks out that digit.
pub bit_and-pow : (k a : ℕ) → bit_and a (2 ^ k) ≡ digit a k * 2 ^ k
bit_and-pow zero a = omega (arith, bit_and-step a 1, bit_and-zero (a / 2) (a / 2) (le_refl _))
bit_and-pow (suc k) a = ground (
  arith,
  bit_and-step a (2 ^ suc k),
  half-pow k,
  pow-suc 2 k,
  bit_and-pow k (a / 2),
  ap (λ (t : ℕ). digit (a / 2) k * t) (pow-suc 2 k),
)

pub pow-pos : (k : ℕ) → 0 < 2 ^ k
pow-pos zero = omega arith
pow-pos (suc k) = omega (arith, pow-suc 2 k, pow-pos k)

mod-two-mul : (a m : ℕ) → 0 < m → a % (2 * m) ≡ 2 * (a / 2 % m) + a % 2
mod-two-mul a m h =
    ap (λ t. t % (2 * m)) split
    ∙ add-mul-mod_self_right (2 * (a / 2 % m) + a % 2) (a / 2 / m) (2 * m)
    ∙ mod-eq_of_lt (omega (arith, mod-lt (a / 2) h))
  where
    split : a ≡ (2 * (a / 2 % m) + a % 2) + (a / 2 / m) * (2 * m)
    split = omega (arith, div-add-mod (a / 2) m)

-- A mask of low ones is a remainder.
pub bit_and-low : (k a : ℕ) → bit_and a (2 ^ k - 1) ≡ a % 2 ^ k
bit_and-low zero a = omega (arith, bit_and-zero a a (le_refl _))
bit_and-low (suc k) a = ground (
  arith,
  bit_and-step a (2 ^ suc k - 1),
  pow-suc 2 k,
  pow-pos k,
  bit_and-low k (a / 2),
  mod-two-mul a (2 ^ k),
)

-- A mask moved up cuts the low bits off.
pub bit_and-high : (k a m : ℕ) → bit_and a (m * 2 ^ k) ≡ bit_and (a / 2 ^ k) m * 2 ^ k
bit_and-high zero a m = ground (arith, ap (bit_and a) (times_one m), div_one a)
  where
    times_one : (n : ℕ) → n * 1 ≡ n
    times_one n = omega arith

    div_one : (n : ℕ) → n / 1 ≡ n
    div_one n = omega arith
bit_and-high (suc k) a m = rw twice (
    omega
      (arith, bit_and-step a (2 * (m * 2 ^ k)), halves, bit_and-high k (a / 2) m, div-twice, again))
  where
    twice : m * 2 ^ suc k ≡ 2 * (m * 2 ^ k)
    twice = omega (arith, ap (λ (t : ℕ). m * t) (pow-suc 2 k))

    halves : bit_and (a / 2) (2 * (m * 2 ^ k) / 2) ≡ bit_and (a / 2) (m * 2 ^ k)
    halves = ap (bit_and (a / 2)) (omega arith)

    div-twice : bit_and (a / 2 ^ suc k) m * 2 ^ suc k ≡ bit_and (a / 2 / 2 ^ k) m * 2 ^ suc k
    div-twice =
        ap (λ t. bit_and t m * 2 ^ suc k)
          (ap (λ t. a / t) (pow-succ' 2 k) ∙ sym (div-div-eq-div-mul a 2 (2 ^ k)))

    again : bit_and (a / 2 / 2 ^ k) m * 2 ^ suc k ≡ 2 * (bit_and (a / 2 / 2 ^ k) m * 2 ^ k)
    again = omega (arith, ap (λ (t : ℕ). bit_and (a / 2 / 2 ^ k) m * t) (pow-suc 2 k))

bit_or-zero : (k a : ℕ) → a ≤ k → bit_or a 0 ≡ a
bit_or-zero k zero h = refl
bit_or-zero zero (suc a) h = absurd (omega arith)
bit_or-zero (suc k) (suc a) h =
    omega (arith, bit_or-step (suc a) 0, bit_or-zero k (suc a / 2) (omega arith))

-- `(a << 1) | b` for a single bit `b`.
pub bit_or-low : (a b : ℕ) → b < 2 → bit_or (a * 2) b ≡ a * 2 + b
bit_or-low a b h = omega (arith, bit_or-step (a * 2) b, rest)
  where
    rest : bit_or (a * 2 / 2) (b / 2) ≡ a
    rest = ap₂ bit_or (omega arith) (omega arith) ∙ bit_or-zero a a (le_refl _)

-- `q | (1 << i)` where the digits of `q` up to `i` are 0.
pub bit_or-pow : (i a : ℕ) → bit_or (a * 2 ^ suc i) (2 ^ i) ≡ a * 2 ^ suc i + 2 ^ i
bit_or-pow zero a = bit_or-low a 1 (omega arith)
bit_or-pow (suc i) a = omega (
  arith,
  bit_or-step (a * 2 ^ suc (suc i)) (2 ^ suc i),
  halves,
  bit_or-pow i a,
  twice,
  pow-suc 2 i,
)
  where
    twice : a * 2 ^ suc (suc i) ≡ 2 * (a * 2 ^ suc i)
    twice = omega (arith, ap (λ (t : ℕ). a * t) (pow-suc 2 (suc i)))

    halves : bit_or (a * 2 ^ suc (suc i) / 2) (2 ^ suc i / 2) ≡ bit_or (a * 2 ^ suc i) (2 ^ i)
    halves = ap₂ bit_or (omega (arith, twice)) (half-pow i)
