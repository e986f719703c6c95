-- ===== src/Memory/Laws.antt =====
-- What the memory holds after the copies.
use vibeos_fpga.Common.{
  ℕ, zero, suc, ◌+◌, ◌-◌, ◌≤◌, ◌<◌, ◌≡◌, ◌∙◌, false, ◌&&◌, ◌⊎◌, inl, inr, ltb, leb, if◌then◌else◌,
  u8, arith, Bool-cases,
}
use native.Mathlib.Decide.{ℕ_discrete, dec_lt}
use vibeos_fpga.Memory.{store, memset_loop, memset, copy_down, copy_up, memmove}

-- The memory in which the `n` bytes at `dst` are those that stood at `src`.
abbrev pub moved : (dst src n : ℕ) → (ℕ → ℕ) → ℕ → ℕ
moved dst src n memory x =
    if leb dst x && ltb x (dst + n) then memory (src + (x - dst)) else memory x

abbrev pub filled : (dst c n : ℕ) → (ℕ → ℕ) → ℕ → ℕ
filled dst c n memory x = if leb dst x && ltb x (dst + n) then u8 c else memory x

memset_loop_lem :
    (left dst c i : ℕ) (memory : ℕ → ℕ) (x : ℕ)
    → memset_loop left dst c i memory x ≡ filled (dst + i) c left memory x
unfolding memset_loop
memset_loop_lem zero dst c i memory x = ground arith
memset_loop_lem (suc left) dst c i memory x =
    memset_loop_lem left dst c (suc i) (store memory (dst + i) (u8 c)) x ∙ ground arith

-- From the last byte on, towards higher addresses.
copy_down_lem :
    (n dst src : ℕ) (memory : ℕ → ℕ) (x : ℕ)
    → src < dst
    → copy_down n (dst + n) (src + n) memory x ≡ moved dst src n memory x
unfolding copy_down
copy_down_lem zero dst src memory x lt = ground arith
copy_down_lem (suc n) dst src memory x lt =
    let d : dst + suc n - 1 ≡ dst + n = omega arith in
    let e : src + suc n - 1 ≡ src + n = omega arith in
    rw (d, e)
      (copy_down_lem n dst src (store memory (dst + n) (memory (src + n))) x lt
        ∙ (elim (ℕ_discrete x (dst + n)) [
          | yes here ↦ let p : src + (x - dst) ≡ src + n = omega arith in rw p (ground arith)
          | no ne ↦ ground arith
        ]))

-- From the first byte on, towards lower addresses or without an overlap.
copy_up_lem :
    (n dst src : ℕ) (memory : ℕ → ℕ) (x : ℕ)
    → (dst ≤ src) ⊎ (src + n ≤ dst)
    → copy_up n dst src memory x ≡ moved dst src n memory x
unfolding copy_up
copy_up_lem zero dst src memory x apart = ground arith
copy_up_lem (suc n) dst src memory x apart =
    copy_up_lem n (dst + 1) (src + 1) (store memory dst (memory src)) x (grind (arith, apart))
    ∙ (elim (dec_lt dst x) [
      | yes past ↦
          let p : src + 1 + (x - (dst + 1)) ≡ src + (x - dst) = omega arith in
          rw p (grind (arith, apart))
      | no here ↦ let p : src + (x - dst) ≡ src = omega arith in rw p (ground arith)
    ])

-- memmove leaves the bytes that stood at the source at the destination, and every other byte as it
-- was, however the two ranges overlap.
pub memmove-moved :
    (dst src n : ℕ) (memory : ℕ → ℕ) (x : ℕ) → memmove dst src n memory x ≡ moved dst src n memory x
unfolding memmove
memmove-moved dst src n memory x = elim (Bool-cases (ltb src dst && ltb dst (src + n))) [
  | inl overlaps ↦
      rw (memmove, overlaps) (copy_down_lem n dst src memory x (ground (arith, overlaps)))
  | inr apart ↦ rw (memmove, apart) (copy_up_lem n dst src memory x (far apart))
]
  where
    far : (ltb src dst && ltb dst (src + n)) ≡ false → (dst ≤ src) ⊎ (src + n ≤ dst)
    far apart = elim (dec_lt src dst) [
      | yes before ↦ inr (ground (arith, apart, before))
      | no behind ↦ inl (omega arith)
    ]

-- memset fills its range with the low byte of the value, and leaves every other byte.
pub memset-filled :
    (dst c n : ℕ) (memory : ℕ → ℕ) (x : ℕ) → memset dst c n memory x ≡ filled dst c n memory x
unfolding memset
memset-filled dst c n memory x = memset_loop_lem n dst c 0 memory x ∙ ground arith
