-- ===== src/Division/Signed.antt =====
-- vibeos/lib.c: __divdi3 and __moddi3 round toward 0.
use native.Mathlib.Decide.{ℕ_discrete}
use native.Mathlib.Nat.{div-mul-le_self, mul-le-mul_left, mod-lt}
use vibeos_fpga.Common.{
  ℕ, ◌-◌, ◌*◌, ◌/◌, ◌%◌, ◌^◌, ◌≤◌, ◌<◌, ◌≡◌, refl, sym, ◌∙◌, ap₂, Bool, true, false, not, ◌⊎◌, inl,
  inr, if◌then◌else◌, u64, arith, Bool-cases,
}
use vibeos_fpga.Division.{is_negative, neg64, divdi3, moddi3}
use vibeos_fpga.Division.Laws.{udivdi3_lem, umoddi3_lem}

-- The magnitude of a signed word.
abbrev pub magnitude : ℕ → ℕ
magnitude n = if is_negative n then 2 ^ 64 - n else n

-- Whether the signs are not alike.
abbrev pub differ : Bool → Bool → Bool
differ true b = not b
differ false b = b

-- A word stands for the number `x`, negated or not; 0 has no sign.
abbrev pub Signed : (w x : ℕ) → Bool → Type 0
Signed w x negative = (magnitude w ≡ x) × ((w ≡ 0) ⊎ (is_negative w ≡ negative))

negated_parts : (x : ℕ) → x ≤ 2 ^ 63 → Signed (u64 (neg64 1 * x)) x true
negated_parts x h = (ground arith, ground arith)

kept_parts : (x : ℕ) → x < 2 ^ 63 → Signed (u64 (1 * x)) x false
kept_parts x h = (ground arith, ground arith)

-- A quotient of magnitudes is a magnitude, and the largest only for the largest by 1.
quotient-bound : (a b : ℕ) → a ≤ 2 ^ 63 → 0 < b → a / b ≤ 2 ^ 63
quotient-bound a b h pos = grind (arith, div-mul-le_self a b)

quotient-lt : (a b : ℕ) → a ≤ 2 ^ 63 → 1 < b → a / b < 2 ^ 63
quotient-lt a b h lo = omega (arith, div-mul-le_self a b, mul-le-mul_left (a / b) lo)

-- The pair whose quotient, 2 ^ 63, is no signed word.
abbrev pub Overflows : (n d : ℕ) → Type 0
Overflows n d = (n ≡ 2 ^ 63) × (d ≡ 2 ^ 64 - 1)

largest_parts :
    (x : ℕ)
    → x ≤ 2 ^ 63
    → (magnitude (u64 (1 * x)) ≡ x) × ((is_negative (u64 (1 * x)) ≡ false) ⊎ (x ≡ 2 ^ 63))
largest_parts x h = (ground arith, ground arith)

largest_quotient : (a b : ℕ) → a ≤ 2 ^ 63 → 0 < b → a / b ≡ 2 ^ 63 → (a ≡ 2 ^ 63) × (b ≡ 1)
largest_quotient a b h pos e = elim (ℕ_discrete b 1) [
  | yes one ↦ let all : a / b ≡ a = rw (one) (omega arith) in (omega (arith, all, e), one)
  | no ne ↦ absurd (omega (arith, e, quotient-lt a b h (omega arith)))
]

-- The result of a signed division, over the words of the quotient and the remainder.
abbrev pub Truncated : (n d q r : ℕ) → Type 0
Truncated n d q r =
    (magnitude q ≡ magnitude n / magnitude d)
    × ((q ≡ 0) ⊎ (is_negative q ≡ differ (is_negative n) (is_negative d)) ⊎ Overflows n d)
    × (magnitude r ≡ magnitude n % magnitude d)
    × ((r ≡ 0) ⊎ (is_negative r ≡ is_negative n))

-- A magnitude as the code computes it.
negated_magnitude :
    (n : ℕ)
    → n < 2 ^ 64
    → is_negative n ≡ true
    → (neg64 n ≡ magnitude n) × (neg64 n ≤ 2 ^ 63) × (0 < neg64 n)
negated_magnitude n w e = (ground arith, ground arith, ground arith)

kept_magnitude : (n : ℕ) → is_negative n ≡ false → (n ≡ magnitude n) × (n < 2 ^ 63)
kept_magnitude n e = (ground arith, ground arith)

-- The parts of a case of the signs.
of_parts :
    (n d a b q r : ℕ)
    → a ≡ magnitude n
    → b ≡ magnitude d
    → divdi3 n d ≡ q
    → moddi3 n d ≡ r
    → (magnitude q ≡ a / b)
      × ((q ≡ 0) ⊎ (is_negative q ≡ differ (is_negative n) (is_negative d)) ⊎ Overflows n d)
    → Signed r (a % b) (is_negative n)
    → Truncated n d (divdi3 n d) (moddi3 n d)
of_parts n d a b q r ea eb eq er hq hr =
    rw (eq, er) (hq.0 ∙ ap₂ ◌/◌ ea eb, hq.1, hr.0 ∙ ap₂ ◌%◌ ea eb, hr.1)

-- The sign that a part has is the one that is asked for.
with_sign :
    {n d w : ℕ} {b : Bool}
    → differ (is_negative n) (is_negative d) ≡ b
    → (w ≡ 0) ⊎ (is_negative w ≡ b)
    → (w ≡ 0) ⊎ (is_negative w ≡ differ (is_negative n) (is_negative d)) ⊎ Overflows n d
with_sign e (inl z) = inl z
with_sign e (inr f) = inr (inl (f ∙ sym e))

negated_quotient :
    (n d a b : ℕ)
    → differ (is_negative n) (is_negative d) ≡ true
    → a ≤ 2 ^ 63
    → 0 < b
    → let w = u64 (neg64 1 * (a / b)) in
      (magnitude w ≡ a / b)
      × ((w ≡ 0) ⊎ (is_negative w ≡ differ (is_negative n) (is_negative d)) ⊎ Overflows n d)
negated_quotient n d a b e h pos =
    let q = negated_parts (a / b) (quotient-bound a b h pos) in (q.0, with_sign e q.1)

negated_remainder :
    (n a b : ℕ)
    → is_negative n ≡ true
    → b ≤ 2 ^ 63
    → 0 < b
    → Signed (u64 (neg64 1 * (a % b))) (a % b) (is_negative n)
negated_remainder n a b e h pos =
    rw (e) (negated_parts (a % b) (omega (arith, mod-lt a {m = b} pos)))

kept_remainder :
    (n a b : ℕ)
    → is_negative n ≡ false
    → b ≤ 2 ^ 63
    → 0 < b
    → Signed (u64 (1 * (a % b))) (a % b) (is_negative n)
kept_remainder n a b e h pos = rw (e) (kept_parts (a % b) (omega (arith, mod-lt a {m = b} pos)))

-- The quotient of two negative words.
both_negative :
    (n d : ℕ)
    → n < 2 ^ 64
    → d < 2 ^ 64
    → is_negative n ≡ true
    → is_negative d ≡ true
    → let q = neg64 n / neg64 d in
      (magnitude (u64 (1 * q)) ≡ q)
      × ((u64 (1 * q) ≡ 0)
          ⊎ (is_negative (u64 (1 * q)) ≡ differ (is_negative n) (is_negative d))
          ⊎ Overflows n d)
both_negative n d wn wd nn nd =
    let (en, bn, pn) = negated_magnitude n wn nn in
    let (ed, bd, pd) = negated_magnitude d wd nd in
    let q = largest_parts (neg64 n / neg64 d) (quotient-bound (neg64 n) (neg64 d) bn pd) in
    (
      q.0,
      elim q.1 [
        | inl e ↦ inr (inl (e ∙ ap₂ differ (sym nn) (sym nd)))
        | inr e ↦
            let (largest, one) = largest_quotient (neg64 n) (neg64 d) bn pd e in
            inr (inr (omega arith, omega arith))
      ],
    )

by_negative :
    (n d : ℕ)
    → n < 2 ^ 64
    → d < 2 ^ 64
    → is_negative d ≡ true
    → Truncated n d (divdi3 n d) (moddi3 n d)
unfolding divdi3 moddi3
by_negative n d wn wd nd =
    let (ed, bd, pd) = negated_magnitude d wd nd in
    elim (Bool-cases (is_negative n)) [
      | inl nn ↦
          let (en, bn, pn) = negated_magnitude n wn nn in
          of_parts n d (neg64 n) (neg64 d) (u64 (1 * (neg64 n / neg64 d)))
            (u64 (neg64 1 * (neg64 n % neg64 d))) en ed
            (rw (nn, nd, divdi3, udivdi3_lem (neg64 n) (neg64 d) (omega arith) pd) refl)
            (rw (nn, nd, moddi3, umoddi3_lem (neg64 n) (neg64 d) (omega arith) pd) refl)
            (both_negative n d wn wd nn nd) (negated_remainder n (neg64 n) (neg64 d) nn bd pd)
      | inr nn ↦
          let (en, bn) = kept_magnitude n nn in
          of_parts n d n (neg64 d) (u64 (neg64 1 * (n / neg64 d))) (u64 (1 * (n % neg64 d))) en ed
            (rw (nn, nd, divdi3, udivdi3_lem n (neg64 d) wn pd) refl)
            (rw (nn, nd, moddi3, umoddi3_lem n (neg64 d) wn pd) refl)
            (negated_quotient n d n (neg64 d) (ap₂ differ nn nd) (omega arith) pd)
            (kept_remainder n n (neg64 d) nn bd pd)
    ]

by_positive :
    (n d : ℕ) → n < 2 ^ 64 → 0 < d → is_negative d ≡ false → Truncated n d (divdi3 n d) (moddi3 n d)
unfolding divdi3 moddi3
by_positive n d wn pd nd =
    let (ed, bd) = kept_magnitude d nd in
    elim (Bool-cases (is_negative n)) [
      | inl nn ↦
          let (en, bn, pn) = negated_magnitude n wn nn in
          of_parts n d (neg64 n) d (u64 (neg64 1 * (neg64 n / d))) (u64 (neg64 1 * (neg64 n % d)))
            en ed (rw (nn, nd, divdi3, udivdi3_lem (neg64 n) d (omega arith) pd) refl)
            (rw (nn, nd, moddi3, umoddi3_lem (neg64 n) d (omega arith) pd) refl)
            (negated_quotient n d (neg64 n) d (ap₂ differ nn nd) bn pd)
            (negated_remainder n (neg64 n) d nn (omega arith) pd)
      | inr nn ↦
          let (en, bn) = kept_magnitude n nn in
          let small : n / d < 2 ^ 63 = grind (arith, div-mul-le_self n d) in
          let q = kept_parts (n / d) small in
          of_parts n d n d (u64 (1 * (n / d))) (u64 (1 * (n % d))) en ed
            (rw (nn, nd, divdi3, udivdi3_lem n d wn pd) refl)
            (rw (nn, nd, moddi3, umoddi3_lem n d wn pd) refl)
            (q.0, with_sign (ap₂ differ nn nd) q.1) (kept_remainder n n d nn (omega arith) pd)
    ]

-- Signed division rounds toward 0. For 64-bit words and a divisor other than 0, the magnitudes of the
-- quotient and the remainder are those of the division of the magnitudes. The quotient is 0 or is
-- negative when the signs differ, but for -2^63 by -1, whose quotient is no signed word. The
-- remainder is 0 or has the sign of the dividend.
pub divdi3-moddi3 :
    (n d : ℕ) → n < 2 ^ 64 → d < 2 ^ 64 → 0 < d → Truncated n d (divdi3 n d) (moddi3 n d)
divdi3-moddi3 n d wn wd pos = elim (Bool-cases (is_negative d)) [
  | inl e ↦ by_negative n d wn wd e
  | inr e ↦ by_positive n d wn pos e
]
