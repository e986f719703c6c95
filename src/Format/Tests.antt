-- ===== src/Format/Tests.antt =====
-- lib_vsnprintf on a short format.
use vibeos_fpga.Common.{
  ℕ, ◌-◌, ◌^◌, ◌≡◌, refl, some, List, [], ◌∷◌, arith, length, get_or, replicate,
}
use vibeos_fpga.Format.{
  Arg, Out, word, text, number, digits_loop, digit_char, signed_arg, unsigned_arg, lib_vsnprintf,
}
use vibeos_fpga.Format.Text.{
  render, round_text, percent_text, directive_text, arg_text, signed_text, unsigned_text,
}
use vibeos_fpga.Format.Printf.{lib_vsnprintf_lem, render_enough, snprintf_char}

-- "a%d %s"
abbrev format : List ℕ
format = b'a' ∷ b'%' ∷ b'd' ∷ b' ' ∷ b'%' ∷ b's' ∷ []

abbrev arguments : List Arg
arguments = word (2 ^ 32 - 42) ∷ text (some (b'o' ∷ b'k' ∷ [])) ∷ []

-- "a-42 ok"
abbrev expected : List ℕ
expected = b'a' ∷ b'-' ∷ b'4' ∷ b'2' ∷ b' ' ∷ b'o' ∷ b'k' ∷ []

render_test : render (length format) format arguments ≡ some expected
unfolding render round_text percent_text directive_text arg_text signed_text unsigned_text number
    digits_loop digit_char signed_arg unsigned_arg
render_test = refl

lib_vsnprintf_example :
    (after : List ℕ) × (lib_vsnprintf (some (replicate 5 255)) 5 format arguments
      ≡ some (some after, 7))
    × (length after ≡ 5)
    × ((i : ℕ) → get_or after i 0 ≡ snprintf_char 5 expected (replicate 5 255) i)
lib_vsnprintf_example =
    lib_vsnprintf_lem (replicate 5 255) 5 format arguments expected render_test (omega arith)
      (omega arith)

abbrev empty_out : Out
empty_out = record { buffer = some (replicate 8 255); pos = 0 }

render_enough_example : render 100 format arguments ≡ render 6 format arguments
render_enough_example = render_enough 6 100 format arguments (omega arith) (omega arith)
