-- ===== src/Division/Laws.antt =====
-- vibeos/lib.c: the unsigned division routines compute the quotient and the remainder.
use native.Mathlib.Nat.{
  div-eq_of_lt, pow-suc, div-div-eq-div-mul, mod-eq_of_lt, add-mul-mod_self_right,
  add-mul-div_right,
}
use vibeos_fpga.Common.{
  ℕ, zero, suc, ◌+◌, ◌-◌, ◌*◌, ◌/◌, ◌%◌, ◌^◌, ◌≤◌, ◌<◌, ◌≡◌, refl, sym, ◌∙◌, ap, inl, inr, leb,
  arith, Bool-cases, leb→le, leb→lt,
}
use vibeos_fpga.Common.Digits.{bit_and-low, bit_or-low, bit_or-pow, pow-pos}
use vibeos_fpga.Division.{shift_in, umoddi3_loop, umoddi3, udivdi3_loop, udivdi3}

-- The digits of `n` from `i` on are those from `i + 1` on and one more.
next_digit : (n i : ℕ) → n / 2 ^ i ≡ n / 2 ^ suc i * 2 + n / 2 ^ i % 2
next_digit n i = omega (arith, div-div-eq-div-mul n (2 ^ i) 2, ap (λ (t : ℕ). n / t) (pow-suc 2 i))

quotient-le : (n i : ℕ) → n / 2 ^ i ≤ n
quotient-le n i = grind (arith, pow-pos i)

-- No bit is lost in the shift: the remainder is at most the part of `n` that has been read.
shift_in_lem :
    (n i q d r : ℕ)
    → n < 2 ^ 64
    → n / 2 ^ suc i ≡ q * d + r
    → shift_in n i r ≡ r * 2 + n / 2 ^ i % 2
shift_in_lem n i q d r word e = rw (
  bit_and-low 1 (n / 2 ^ i),
  mod-eq_of_lt {n = r * 2} {m = 2 ^ 64} (omega (arith, e, next_digit n i, quotient-le n i)),
  bit_or-low r (n / 2 ^ i % 2) (omega arith),
)

-- The two loops run alike.
loops_agree : (k n d q r : ℕ) → (udivdi3_loop k n d q r).1 ≡ umoddi3_loop k n d r
unfolding udivdi3_loop umoddi3_loop
loops_agree zero n d q r = refl
loops_agree (suc i) n d q r = loops_agree i n d _ _

-- From a quotient and remainder of the digits read so far the loop goes on to those of `n`.
udivdi3_loop_lem :
    (k n d q r : ℕ)
    → n < 2 ^ 64
    → n / 2 ^ k ≡ q * d + r
    → r < d
    → let out = udivdi3_loop k n d (q * 2 ^ k) r in (n ≡ out.0 * d + out.1) × (out.1 < d)
unfolding udivdi3_loop
udivdi3_loop_lem zero n d q r word e lt = (omega (arith, e, whole, times), lt)
  where
    whole : n / 1 ≡ n
    whole = omega arith

    times : q * 1 * d ≡ q * d
    times = ap (λ (t : ℕ). t * d) (omega arith)
udivdi3_loop_lem (suc i) n d q r word e lt =
    rw (shift_in_lem n i q d r word e, udivdi3_loop)
      (elim (Bool-cases (leb d (r * 2 + n / 2 ^ i % 2))) [
        | inl over ↦
            rw (over, bit_or-pow i q, odd)
              (udivdi3_loop_lem i n d (q * 2 + 1) (r * 2 + n / 2 ^ i % 2 - d) word
                (omega (arith, e, next_digit n i, leb→le _ _ over))
                (omega (arith, leb→le _ _ over)))
        | inr under ↦
            rw (under, even)
              (udivdi3_loop_lem i n d (q * 2) (r * 2 + n / 2 ^ i % 2) word
                (omega (arith, e, next_digit n i)) (leb→lt _ _ under))
      ])
  where
    even : q * 2 ^ suc i ≡ q * 2 * 2 ^ i
    even = omega (arith, ap (λ (t : ℕ). q * t) (pow-suc 2 i))

    odd : q * 2 ^ suc i + 2 ^ i ≡ (q * 2 + 1) * 2 ^ i
    odd = omega (arith, even)

loop64 :
    (n d : ℕ)
    → n < 2 ^ 64
    → 0 < d
    → let out = udivdi3_loop 64 n d 0 0 in (n ≡ out.0 * d + out.1) × (out.1 < d)
loop64 n d word pos = udivdi3_loop_lem 64 n d 0 0 word (omega (arith, word)) pos

-- The quotient and the remainder are determined by what they satisfy.
divided : (n d q r : ℕ) → n ≡ q * d + r → r < d → (n / d ≡ q) × (n % d ≡ r)
divided n d q r e lt = (
  omega (arith, ap (λ (t : ℕ). t / d) turned, add-mul-div_right r q pos, div-eq_of_lt lt),
  omega (arith, ap (λ (t : ℕ). t % d) turned, add-mul-mod_self_right r q d, mod-eq_of_lt lt),
)
  where
    pos : 0 < d
    pos = omega arith

    turned : n ≡ r + q * d
    turned = omega (arith, e)

-- __udivdi3 is the quotient of 64-bit words, for every divisor but 0.
pub udivdi3_lem : (n d : ℕ) → n < 2 ^ 64 → 0 < d → udivdi3 n d ≡ n / d
unfolding udivdi3
udivdi3_lem n d word pos =
    ground (arith, divided n d _ _ (loop64 n d word pos).0 (loop64 n d word pos).1)

-- __umoddi3 is the remainder of 64-bit words, for every divisor but 0.
pub umoddi3_lem : (n d : ℕ) → n < 2 ^ 64 → 0 < d → umoddi3 n d ≡ n % d
unfolding umoddi3
umoddi3_lem n d word pos =
    sym (loops_agree 64 n d 0 0)
    ∙ sym (divided n d _ _ (loop64 n d word pos).0 (loop64 n d word pos).1).1
