-- ===== src/Url.antt =====
-- vibeos/user_utils.c: percent encoding and decoding of the browser's addresses.
--
-- A character is a byte. A string under construction is the list of the characters in front of its
-- terminator, which stands behind them after each step; `out_max` is the size of its buffer.
pub mod RoundTrip
mod Tests
use vibeos_fpga.Common.{
  ℕ, zero, suc, ◌+◌, ◌-◌, ◌*◌, ◌/◌, ◌%◌, ◌^◌, bit_or, Bool, true, false, ◌&&◌, ◌||◌, Option, none,
  some, List, [], ◌∷◌, ◌++◌, ltb, leb, ◌==◌, if◌then◌else◌, u8, length,
}

abbrev pub is_between : ℕ → ℕ → ℕ → Bool
is_between low high ch = leb low ch && leb ch high

-- ns_is_unreserved
pub is_unreserved : ℕ → Bool
is_unreserved ch =
    is_between b'A' b'Z' ch
    || (is_between b'a' b'z' ch
        || (is_between b'0' b'9' ch || (ch == b'-' || (ch == b'_' || (ch == b'.' || ch == b'~')))))

-- ns_append_char: the text, and whether the character found room.
pub append_char : ℕ → List ℕ → ℕ → List ℕ × Bool
append_char out_max out ch =
    if out_max == 0 || leb (out_max - 1) (length out) then (out, false) else (out ++ ch ∷ [], true)

-- ns_append_str
pub append_str : ℕ → List ℕ → List ℕ → List ℕ × Bool
append_str out_max out [] = (out, true)
append_str out_max out (c ∷ s) =
    let (out', fits) = append_char out_max out c in
    let rest = append_str out_max out' s in if fits then rest else (out', false)

-- "0123456789ABCDEF"
pub hex : ℕ → ℕ
hex d = if ltb d 10 then b'0' + d else b'A' + (d - 10)

-- ns_hex_val; `none` is -1.
pub hex_val : ℕ → Option ℕ
hex_val ch =
    if is_between b'0' b'9' ch
    then some (ch - b'0')
    else if is_between b'a' b'f' ch
    then some (10 + (ch - b'a'))
    else if is_between b'A' b'F' ch
    then some (10 + (ch - b'A'))
    else none

-- What ns_append_encoded appends for a character.
pub encoded : ℕ → List ℕ
encoded ch = if is_unreserved ch then ch ∷ [] else b'%' ∷ hex (ch / 2 ^ 4 % 16) ∷ hex (ch % 16) ∷ []

-- ns_append_encoded
pub append_encoded : ℕ → List ℕ → List ℕ → List ℕ × Bool
append_encoded out_max out [] = (out, true)
append_encoded out_max out (c ∷ s) =
    let (out', fits) = append_str out_max out (encoded c) in
    let rest = append_encoded out_max out' s in if fits then rest else (out', false)

-- The two digits behind a '%'.
pub hex_pair : ℕ → ℕ → Option ℕ
hex_pair h l = elim (hex_val h) [
  | none ↦ none
  | some hi ↦ elim (hex_val l) [ none ↦ none | some lo ↦ some (u8 (bit_or (hi * 2 ^ 4) lo)) ]
]

-- One round of ns_percent_decode: the character, and what is left of the source.
pub decode_one : ℕ → List ℕ → ℕ × List ℕ
decode_one c [] = (if c == b'+' then b' ' else c, [])
decode_one c (h ∷ []) = (if c == b'+' then b' ' else c, h ∷ [])
decode_one c (h ∷ l ∷ src) =
    let plain : ℕ × List ℕ = (if c == b'+' then b' ' else c, h ∷ l ∷ src) in
    if c == b'%' then elim (hex_pair h l) [ none ↦ plain | some d ↦ (d, src) ] else plain

-- The loop of ns_percent_decode: `room` characters fit. Each round takes one room, so the room is
-- the fuel.
pub decode_loop : ℕ → List ℕ → List ℕ
decode_loop room [] = []
decode_loop zero (c ∷ src) = []
decode_loop (suc room) (c ∷ src) = let (d, src') = decode_one c src in d ∷ decode_loop room src'

-- ns_percent_decode of pointers that are not NULL, into a buffer of one byte at least.
pub percent_decode : List ℕ → ℕ → List ℕ
percent_decode src dst_max = decode_loop (dst_max - 1) src
