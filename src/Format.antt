-- ===== src/Format.antt =====
-- vibeos/lib.c: lib_vsnprintf, the formatted output.
--
-- A `char` is a byte, a format and a text are lists without their terminator. The buffer is a list,
-- or none for NULL; `n` is its size as the caller gives it. An argument is a 32-bit word (int and
-- long), a 64-bit word, or a string pointer, NULL included. What C leaves undefined, an argument
-- of another type or a format that ends behind '%', gives none.
pub mod Text
pub mod Write
pub mod Laws
pub mod Printf
pub mod Digits
mod Tests
use vibeos_fpga.Common.{
  ℕ, zero, suc, ◌+◌, ◌-◌, ◌/◌, ◌%◌, ◌^◌, Bool, true, false, not, ◌||◌, Option, none, some, List, [],
  ◌∷◌, ltb, leb, ◌==◌, if◌then◌else◌, u8, add32, length, set,
}

pub data Arg : Type 0 where
  word : (value : ℕ) → Arg
  long : (value : ℕ) → Arg
  text : (string : Option (List ℕ)) → Arg

-- `out` and `pos`
pub record Out : Type 0 where
  pub buffer : Option (List ℕ)
  pub pos : ℕ

pub put_char : ℕ → ℕ → Out → Out
put_char n c w = record {
  buffer = elim w.buffer [
    | none ↦ none
    | some b ↦ some (if ltb (add32 w.pos 1) n then set b w.pos c else b)
  ];
  pos = add32 w.pos 1;
}

-- A loop that puts the characters in order, and one that puts them from the last on.
pub put_all : ℕ → List ℕ → Out → Out
put_all n [] w = w
put_all n (c ∷ cs) w = put_all n cs (put_char n c w)

pub put_back : ℕ → List ℕ → Out → Out
put_back n [] w = w
put_back n (c ∷ cs) w = put_char n c (put_back n cs w)

pub digit_char : ℕ → Bool → ℕ
digit_char d uppercase =
    if ltb d 10 then b'0' + d else (if uppercase then b'A' else b'a') + (d - 10)

-- The `while (val)` loop of print_unsigned: buf, the lowest digit first.
pub digits_loop : ℕ → (val base : ℕ) → Bool → List ℕ
digits_loop zero val base uppercase = []
digits_loop (suc fuel) val base uppercase =
    let rest = digits_loop fuel (val / base) base uppercase in
    if val == 0 then [] else digit_char (val % base) uppercase ∷ rest

-- A 64-bit number has at most 64 digits.
pub number : (val base : ℕ) → Bool → List ℕ
number val base uppercase = if val == 0 then b'0' ∷ [] else digits_loop 64 val base uppercase

pub print_unsigned : ℕ → (val base : ℕ) → Bool → Out → Out
print_unsigned n val base uppercase w = put_back n (number val base uppercase) w

pub print_signed : ℕ → ℕ → Out → Out
print_signed n val w =
    if leb (2 ^ 63) val
    then print_unsigned n ((2 ^ 64 - val) % 2 ^ 64) 10 false (put_char n b'-' w)
    else print_unsigned n val 10 false w

-- An int as a long long.
abbrev pub extended : ℕ → ℕ
extended v = if leb (2 ^ 31) v then v + (2 ^ 64 - 2 ^ 32) else v

-- va_arg at type long long if there are two 'l', else at int or long, which are alike.
pub signed_arg : Bool → Arg → Option ℕ
signed_arg longlong (word v) = if longlong then none else some (extended v)
signed_arg longlong (long v) = if longlong then some v else none
signed_arg longlong (text s) = none

pub unsigned_arg : Bool → Arg → Option ℕ
unsigned_arg longlong (word v) = if longlong then none else some v
unsigned_arg longlong (long v) = if longlong then some v else none
unsigned_arg longlong (text s) = none

-- "(null)"
abbrev pub null_text : List ℕ
null_text = b'(' ∷ b'n' ∷ b'u' ∷ b'l' ∷ b'l' ∷ b')' ∷ []

pub print_text : ℕ → Option (List ℕ) → Out → Out
print_text n none w = put_all n null_text w
print_text n (some s) w = put_all n s w

-- The specifiers that take an argument.
pub print_arg : ℕ → (spec : ℕ) → Bool → Arg → Out → Option Out
print_arg n spec longlong arg w =
    if spec == b'd'
    then elim (signed_arg longlong arg) [ none ↦ none | some v ↦ some (print_signed n v w) ]
    else if spec == b'u'
    then elim (unsigned_arg longlong arg) [
      | none ↦ none
      | some v ↦ some (print_unsigned n v 10 false w)
    ]
    else if spec == b'x'
    then elim (unsigned_arg longlong arg) [
      | none ↦ none
      | some v ↦ some (print_unsigned n v 16 false w)
    ]
    else if spec == b'X'
    then elim (unsigned_arg longlong arg) [
      | none ↦ none
      | some v ↦ some (print_unsigned n v 16 true w)
    ]
    else if spec == b'c'
    then elim arg [ word v ↦ some (put_char n (u8 v) w) | long v ↦ none | text s ↦ none ]
    else elim arg [ word v ↦ none | long v ↦ none | text s ↦ some (print_text n s w) ]

-- The specifiers that take an argument are these six.
abbrev pub takes_arg : ℕ → Bool
takes_arg c = c == b'd' || (c == b'u' || (c == b'x' || (c == b'X' || (c == b'c' || c == b's'))))

-- The switch on the specifier: the format behind it, the arguments left, the output.
pub directive : ℕ → Bool → List ℕ → List Arg → Out → Option (List ℕ × List Arg × Out)
directive n longlong [] args w = none
directive n longlong (spec ∷ fmt) args w =
    if takes_arg spec
    then elim args [
      | [] ↦ none
      | arg ∷ args' ↦ elim (print_arg n spec longlong arg w) [
        | none ↦ none
        | some w' ↦ some (fmt, args', w')
      ]
    ]
    else some (fmt, args, put_char n spec (put_char n b'%' w))

-- What stands behind a '%'.
pub percent : ℕ → List ℕ → List Arg → Out → Option (List ℕ × List Arg × Out)
percent n [] args w = none
percent n (c ∷ fmt) args w =
    if c == b'%'
    then some (fmt, args, put_char n b'%' w)
    else if not (c == b'l')
    then directive n false (c ∷ fmt) args w
    else elim fmt [
      | [] ↦ none
      | d ∷ fmt' ↦
          if d == b'l' then directive n true fmt' args w else directive n false (d ∷ fmt') args w
    ]

-- One round of the loop over the format.
pub round : ℕ → ℕ → List ℕ → List Arg → Out → Option (List ℕ × List Arg × Out)
round n c fmt args w =
    if not (c == b'%') then some (fmt, args, put_char n c w) else percent n fmt args w

-- Each round takes at least one character, so the length of the format is enough fuel.
pub format_loop : ℕ → ℕ → List ℕ → List Arg → Out → Option Out
format_loop fuel n [] args w = some w
format_loop zero n (c ∷ fmt) args w = none
format_loop (suc fuel) n (c ∷ fmt) args w = elim (round n c fmt args w) [
  | none ↦ none
  | some (fmt', args', w') ↦ format_loop fuel n fmt' args' w'
]

-- The terminator.
pub terminate : ℕ → Out → Option (List ℕ)
terminate n w = elim w.buffer [
  | none ↦ none
  | some b ↦ some (if ltb w.pos n then set b w.pos 0 else if n == 0 then b else set b (n - 1) 0)
]

-- lib_vsnprintf: the buffer afterwards, and what it returns.
pub lib_vsnprintf : Option (List ℕ) → ℕ → List ℕ → List Arg → Option (Option (List ℕ) × ℕ)
lib_vsnprintf out n fmt args =
    elim (format_loop (length fmt) n fmt args (record { buffer = out; pos = 0 })) [
      | none ↦ none
      | some w ↦ some (terminate n w, w.pos)
    ]
