-- ===== src/Format/Text.antt =====
-- The text that lib_vsnprintf means: what each directive of a format stands for, with no buffer.
use vibeos_fpga.Common.{
  ℕ, zero, suc, ◌-◌, ◌%◌, ◌^◌, Bool, true, false, not, Option, none, some, List, [], ◌∷◌, ◌++◌, leb,
  ◌==◌, if◌then◌else◌, u8,
}
use vibeos_fpga.Format.{
  Arg, word, long, text, number, signed_arg, unsigned_arg, null_text, takes_arg,
}

abbrev pub backwards : List ℕ → List ℕ
backwards [] = []
backwards (c ∷ cs) = backwards cs ++ c ∷ []

-- The text of each directive.
unfoldable pub unsigned_text : ℕ → ℕ → Bool → List ℕ
unsigned_text val base uppercase = backwards (number val base uppercase)

unfoldable pub signed_text : ℕ → List ℕ
signed_text val =
    if leb (2 ^ 63) val
    then b'-' ∷ unsigned_text ((2 ^ 64 - val) % 2 ^ 64) 10 false
    else unsigned_text val 10 false

unfoldable pub arg_text : ℕ → Bool → Arg → Option (List ℕ)
arg_text spec longlong arg =
    if spec == b'd'
    then elim (signed_arg longlong arg) [ none ↦ none | some v ↦ some (signed_text v) ]
    else if spec == b'u'
    then elim (unsigned_arg longlong arg) [ none ↦ none | some v ↦ some (unsigned_text v 10 false) ]
    else if spec == b'x'
    then elim (unsigned_arg longlong arg) [ none ↦ none | some v ↦ some (unsigned_text v 16 false) ]
    else if spec == b'X'
    then elim (unsigned_arg longlong arg) [ none ↦ none | some v ↦ some (unsigned_text v 16 true) ]
    else if spec == b'c'
    then elim arg [ word v ↦ some (u8 v ∷ []) | long v ↦ none | text s ↦ none ]
    else elim arg [
      | word v ↦ none
      | long v ↦ none
      | text s ↦ some (elim s [ none ↦ null_text | some chars ↦ chars ])
    ]

unfoldable pub directive_text : Bool → List ℕ → List Arg → Option (List ℕ × List Arg × List ℕ)
directive_text longlong [] args = none
directive_text longlong (spec ∷ fmt) args =
    if takes_arg spec
    then elim args [
      | [] ↦ none
      | arg ∷ args' ↦ elim (arg_text spec longlong arg) [
        | none ↦ none
        | some t ↦ some (fmt, args', t)
      ]
    ]
    else some (fmt, args, b'%' ∷ spec ∷ [])

unfoldable pub percent_text : List ℕ → List Arg → Option (List ℕ × List Arg × List ℕ)
percent_text [] args = none
percent_text (c ∷ fmt) args =
    if c == b'%'
    then some (fmt, args, b'%' ∷ [])
    else if not (c == b'l')
    then directive_text false (c ∷ fmt) args
    else elim fmt [
      | [] ↦ none
      | d ∷ fmt' ↦
          if d == b'l' then directive_text true fmt' args else directive_text false (d ∷ fmt') args
    ]

unfoldable pub round_text : ℕ → List ℕ → List Arg → Option (List ℕ × List Arg × List ℕ)
round_text c fmt args = if not (c == b'%') then some (fmt, args, c ∷ []) else percent_text fmt args

-- The whole text; none if the arguments do not fit the format.
unfoldable pub render : ℕ → List ℕ → List Arg → Option (List ℕ)
render fuel [] args = some []
render zero (c ∷ fmt) args = none
render (suc fuel) (c ∷ fmt) args = elim (round_text c fmt args) [
  | none ↦ none
  | some (fmt', args', t) ↦ elim (render fuel fmt' args') [
    | none ↦ none
    | some rest ↦ some (t ++ rest)
  ]
]
