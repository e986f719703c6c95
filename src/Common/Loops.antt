-- ===== src/Common/Loops.antt =====
-- `for (k = i; k < i + n; k++) s = body k s`, by recursion on the rounds left, and its rule.
use Prim.Native.Nat.{ℕ, zero, suc, ◌+◌, ◌<◌, ◌≤◌}
use mathlib.Core.Path.{◌≡◌}
use native.Mathlib.Omega.{arith}

unfoldable pub for_range {ℓ} : {S : Type ℓ} → ℕ → ℕ → (ℕ → S → S) → S → S
for_range zero i body s = s
for_range (suc n) i body s = for_range n (suc i) body (body i s)

-- An invariant that each round carries from `k` to `k + 1` holds at the end.
pub for_range_inv {ℓ κ} :
    {S : Type ℓ} (P : ℕ → S → Type κ) (body : ℕ → S → S) (n i j : ℕ) (s : S)
    → i + n ≡ j
    → ((k : ℕ) (t : S) → i ≤ k → k < j → P k t → P (suc k) (body k t))
    → P i s
    → P j (for_range n i body s)
unfolding for_range
for_range_inv P body zero i j s e keep h = let e' : i ≡ j = omega arith in rw (← e') h
for_range_inv P body (suc n) i j s e keep h =
    for_range_inv P body n (suc i) j (body i s) (omega arith)
      (λ k t p q r. keep k t (omega arith) q r) (keep i s (omega arith) (omega arith) h)
