-- ===== src/Url/Tests.antt =====
-- A string with a space, a plus sign and a letter, encoded and decoded.
use vibeos_fpga.Common.{ℕ, zero, suc, ◌<◌, ◌≡◌, refl, true, List, [], ◌∷◌, arith, length, get_or}
use vibeos_fpga.Url.{
  is_unreserved, append_char, append_str, hex, encoded, append_encoded, percent_decode,
}
use vibeos_fpga.Url.RoundTrip.{encoding, percent_decode-append_encoded}

-- "a +"
abbrev string : List ℕ
string = b'a' ∷ b' ' ∷ b'+' ∷ []

-- "a%20%2B"
append_encoded_test :
    append_encoded 256 [] string ≡ (b'a' ∷ b'%' ∷ b'2' ∷ b'0' ∷ b'%' ∷ b'2' ∷ b'B' ∷ [], true)
unfolding append_encoded append_str append_char encoded is_unreserved hex
append_encoded_test = refl

string-bytes : (i : ℕ) → i < 3 → get_or string i 0 < 256
string-bytes zero h = omega arith
string-bytes (suc zero) h = omega arith
string-bytes (suc (suc zero)) h = omega arith
string-bytes (suc (suc (suc i))) h = omega arith

encoding-fits : length (encoding string) < 8
unfolding encoding encoded is_unreserved hex
encoding-fits = omega arith

-- A buffer that just fits the encoding.
percent_decode-append_encoded_example :
    ((append_encoded 8 [] string).1 ≡ true)
    × (percent_decode (append_encoded 8 [] string).0 4 ≡ string)
percent_decode-append_encoded_example =
    percent_decode-append_encoded string 8 4 string-bytes encoding-fits (omega arith)
