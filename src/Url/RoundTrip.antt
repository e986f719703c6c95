-- ===== src/Url/RoundTrip.antt =====
-- Decoding takes back what encoding did.
use vibeos_fpga.Common.{
  ℕ, zero, suc, ◌+◌, ◌-◌, ◌/◌, ◌%◌, ◌^◌, ◌≤◌, ◌<◌, ◌≡◌, refl, sym, ◌∙◌, ap, Bool, true, false, inl,
  inr, none, some, List, [], ◌∷◌, ◌++◌, leb, ◌==◌, arith, length, get_or, all_below,
  all_below_sound, Bool-cases, Option-cases, ==→eq, length-append,
}
use mathlib.Core.List.{append-nil, append_assoc}
use vibeos_fpga.Url.{
  is_unreserved, append_char, append_str, hex, hex_val, encoded, append_encoded, hex_pair,
  decode_one, decode_loop, percent_decode,
}

-- The encoded text of a string: each character as it is when it is unreserved, and as '%' and its
-- two digits when it is not.
unfoldable pub encoding : List ℕ → List ℕ
encoding [] = []
encoding (c ∷ s) = encoded c ++ encoding s

append_char_lem :
    (out_max : ℕ) (out : List ℕ) (c : ℕ)
    → length out + 1 < out_max
    → append_char out_max out c ≡ (out ++ c ∷ [], true)
unfolding append_char
append_char_lem out_max out c h = rw (not_empty, room) refl
  where
    not_empty : (out_max == 0) ≡ false
    not_empty = ground (arith, h)

    room : leb (out_max - 1) (length out) ≡ false
    room = ground (arith, h)

-- With room for the whole text, it is appended.
append_str_lem :
    (out_max : ℕ) (out s : List ℕ)
    → length out + length s < out_max
    → append_str out_max out s ≡ (out ++ s, true)
unfolding append_str
append_str_lem out_max out [] h = ap (λ (t : List ℕ). (t, true)) (sym (append-nil out))
append_str_lem out_max out (c ∷ s) h = rw (append_char_lem out_max out c (omega arith)) (
    append_str_lem out_max (out ++ c ∷ []) s (omega (arith, length-append out (c ∷ [])))
    ∙ ap (λ (t : List ℕ). (t, true)) (append_assoc out (c ∷ []) s))

append_encoded_lem :
    (out_max : ℕ) (out s : List ℕ)
    → length out + length (encoding s) < out_max
    → append_encoded out_max out s ≡ (out ++ encoding s, true)
unfolding append_encoded encoding
append_encoded_lem out_max out [] h = ap (λ (t : List ℕ). (t, true)) (sym (append-nil out))
append_encoded_lem out_max out (c ∷ s) h =
    rw
      (append_str_lem out_max out (encoded c)
        (omega (arith, length-append (encoded c) (encoding s))))
      (append_encoded_lem out_max (out ++ encoded c) s
          (omega (arith, length-append out (encoded c), length-append (encoded c) (encoding s)))
        ∙ ap (λ (t : List ℕ). (t, true)) (append_assoc out (encoded c) (encoding s)))

-- The two digits of a byte are read back as the byte.
is_read_back : ℕ → Bool
is_read_back c = elim (hex_pair (hex (c / 2 ^ 4 % 16)) (hex (c % 16))) [
  | none ↦ false
  | some d ↦ d == c
]

all_read_back : all_below 256 is_read_back ≡ true
unfolding all_below is_read_back hex_pair hex hex_val
all_read_back = refl

hex_pair_lem : (c : ℕ) → c < 256 → hex_pair (hex (c / 2 ^ 4 % 16)) (hex (c % 16)) ≡ some c
unfolding is_read_back
hex_pair_lem c h = elim (Option-cases (hex_pair (hex (c / 2 ^ 4 % 16)) (hex (c % 16)))) [
  | inl e ↦ absurd (ground (arith, e, all_below_sound 256 is_read_back c all_read_back h))
  | inr (d, e) ↦
      e
      ∙ ap some
          (==→eq d c (rw (is_read_back, e) at (all_below_sound 256 is_read_back c all_read_back h)))
]

decode_one-plain : (c : ℕ) (src : List ℕ) → is_unreserved c ≡ true → decode_one c src ≡ (c, src)
unfolding decode_one is_unreserved
decode_one-plain c [] u = ground (arith, u)
decode_one-plain c (h ∷ []) u = ground (arith, u)
decode_one-plain c (h ∷ l ∷ src) u = ground (arith, u)

decode_one-escape :
    (c : ℕ) (src : List ℕ)
    → c < 256
    → decode_one b'%' (hex (c / 2 ^ 4 % 16) ∷ hex (c % 16) ∷ src) ≡ (c, src)
unfolding decode_one
decode_one-escape c src h = rw (hex_pair_lem c h) refl

-- A byte comes back from its encoding.
decode-encoded :
    (c room : ℕ) (src : List ℕ)
    → c < 256
    → decode_loop (suc room) (encoded c ++ src) ≡ c ∷ decode_loop room src
unfolding decode_loop encoded
decode-encoded c room src h = elim (Bool-cases (is_unreserved c)) [
  | inl u ↦ rw (encoded, u, decode_one-plain c src u) refl
  | inr r ↦ rw (encoded, r, decode_one-escape c src h) refl
]

decode_loop-encoding :
    (s : List ℕ) (room : ℕ)
    → ((i : ℕ) → i < length s → get_or s i 0 < 256)
    → length s ≤ room
    → decode_loop room (encoding s) ≡ s
unfolding decode_loop encoding
decode_loop-encoding [] room bytes h = refl
decode_loop-encoding (c ∷ s) zero bytes h = absurd (omega arith)
decode_loop-encoding (c ∷ s) (suc room) bytes h =
    decode-encoded c room (encoding s) (bytes 0 (omega arith))
    ∙ ap (◌∷◌ c) (decode_loop-encoding s room (λ i p. bytes (suc i) (omega arith)) (omega arith))

-- A string of bytes that was encoded into a buffer with room for its encoding and the terminator,
-- and decoded into one with room for the string and the terminator, is the string again, and the
-- encoding reports that it found room.
pub percent_decode-append_encoded :
    (s : List ℕ) (out_max dst_max : ℕ)
    → ((i : ℕ) → i < length s → get_or s i 0 < 256)
    → length (encoding s) < out_max
    → length s < dst_max
    → ((append_encoded out_max [] s).1 ≡ true)
      × (percent_decode (append_encoded out_max [] s).0 dst_max ≡ s)
unfolding percent_decode
percent_decode-append_encoded s out_max dst_max bytes room room' =
    rw (append_encoded_lem out_max [] s (omega arith))
      (refl, decode_loop-encoding s (dst_max - 1) bytes (omega arith))
