-- ===== src/Common/Sums.antt =====
-- Sums over a range of numbers.
use Prim.Native.Nat.{ℕ, zero, suc, ◌+◌, ◌≤◌, ◌<◌}
use mathlib.Core.Path.{◌≡◌, refl}
use native.Mathlib.Decide.{ℕ_discrete}
use native.Mathlib.Omega.{arith}
use vibeos_fpga.Common.Tests.{◌==◌, if◌then◌else◌}

-- The sum of `f` over the `left` numbers from `page` on.
unfoldable pub total : (ℕ → ℕ) → ℕ → ℕ → ℕ
total f page zero = 0
total f page (suc left) = f page + total f (suc page) left

pub total-ext :
    (f g : ℕ → ℕ) (page left : ℕ)
    → ((i : ℕ) → page ≤ i → i < page + left → f i ≡ g i)
    → total f page left ≡ total g page left
unfolding total
total-ext f g page zero h = refl
total-ext f g page (suc left) h = omega (
  arith,
  h page (omega arith) (omega arith),
  total-ext f g (suc page) left (λ i p q. h i (omega arith) (omega arith)),
)

pub total-add :
    (f g : ℕ → ℕ) (page left : ℕ)
    → total (λ i. f i + g i) page left ≡ total f page left + total g page left
unfolding total
total-add f g page zero = omega arith
total-add f g page (suc left) = omega (arith, total-add f g (suc page) left)

pub total-zero : (page left : ℕ) → total (λ _. 0) page left ≡ 0
unfolding total
total-zero page zero = refl
total-zero page (suc left) = omega (arith, total-zero (suc page) left)

-- A range that does not hold `y` counts it 0 times, and one that does, once.
total-none : (y page left : ℕ) → y < page → total (λ x. if x == y then 1 else 0) page left ≡ 0
unfolding total
total-none y page zero h = refl
total-none y page (suc left) h = ground (arith, total-none y (suc page) left)

pub total-one :
    (y page left : ℕ)
    → page ≤ y
    → y < page + left
    → total (λ x. if x == y then 1 else 0) page left ≡ 1
unfolding total
total-one y page zero lo hi = absurd (omega arith)
total-one y page (suc left) lo hi =
    ground (arith, total-one y (suc page) left, total-none y (suc page) left)

-- A sum of numbers that are at most 1.
pub total-le : (f : ℕ → ℕ) (page left : ℕ) → ((i : ℕ) → f i ≤ 1) → total f page left ≤ left
unfolding total
total-le f page zero h = omega arith
total-le f page (suc left) h = omega (arith, h page, total-le f (suc page) left h)

-- Where one of them is 0 the sum is less than their number.
pub total-lt :
    (f : ℕ → ℕ) (page left j : ℕ)
    → ((i : ℕ) → f i ≤ 1)
    → page ≤ j
    → j < page + left
    → f j ≡ 0
    → total f page left < left
unfolding total
total-lt f page zero j h lo hi e = absurd (omega arith)
total-lt f page (suc left) j h lo hi e = elim (ℕ_discrete page j) [
  | yes here ↦ omega (arith, rw (← here) at e, total-le f (suc page) left h)
  | no later ↦ omega (arith, h page, total-lt f (suc page) left j h (omega arith) (omega arith) e)
]
