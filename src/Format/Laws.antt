-- ===== src/Format/Laws.antt =====
-- lib_vsnprintf: the text is that of the format and the arguments, whatever the buffer.
use vibeos_fpga.Common.{
  ℕ, zero, suc, ◌^◌, ◌≡◌, refl, sym, ◌∙◌, ap, Bool, true, false, not, inl, inr, Option, none, some,
  List, [], ◌∷◌, ◌++◌, leb, ◌==◌, if◌then◌else◌, u8, Bool-cases, Option-cases,
}
use vibeos_fpga.Format.{
  Arg, word, long, text, Out, put_char, put_all, put_back, number, print_unsigned, print_signed,
  signed_arg, unsigned_arg, null_text, print_text, print_arg, takes_arg, directive, percent, round,
  format_loop,
}
use vibeos_fpga.Format.Text.{
  backwards, unsigned_text, signed_text, arg_text, directive_text, percent_text, round_text, render,
}

put_all-append :
    (n : ℕ) (s t : List ℕ) (w : Out) → put_all n (s ++ t) w ≡ put_all n t (put_all n s w)
unfolding put_all
put_all-append n [] t w = refl
put_all-append n (c ∷ s) t w = put_all-append n s t (put_char n c w)

put_back-put_all : (n : ℕ) (t : List ℕ) (w : Out) → put_back n t w ≡ put_all n (backwards t) w
unfolding put_all put_back
put_back-put_all n [] w = refl
put_back-put_all n (c ∷ t) w =
    ap (put_char n c) (put_back-put_all n t w) ∙ sym (put_all-append n (backwards t) (c ∷ []) w)

-- The output `w` with the text of a directive put.
abbrev pub put_text :
    ℕ → Out → Option (List ℕ × List Arg × List ℕ) → Option (List ℕ × List Arg × Out)
put_text n w none = none
put_text n w (some (fmt, args, t)) = some (fmt, args, put_all n t w)

abbrev pub put_rest : ℕ → Out → Option (List ℕ) → Option Out
put_rest n w none = none
put_rest n w (some t) = some (put_all n t w)

-- Both branches of a test.
branch :
    {A B : Type 0} (f : A → B) (b : Bool) {x y : B} {s t : A}
    → x ≡ f s
    → y ≡ f t
    → (if b then x else y) ≡ f (if b then s else t)
branch f true p q = p
branch f false p q = q

-- A number that the argument may not be.
of_number :
    (n : ℕ) (w : Out) (print : ℕ → Out) (shown : ℕ → List ℕ)
    → ((v : ℕ) → print v ≡ put_all n (shown v) w)
    → (o : Option ℕ)
    → elim o as (λ x. Option Out) [ none ↦ none | some v ↦ some (print v) ]
      ≡ put_rest n w (elim o as (λ x. Option (List ℕ)) [ none ↦ none | some v ↦ some (shown v) ])
of_number n w print shown h none = refl
of_number n w print shown h (some v) = ap some (h v)

pub print_unsigned-put_all :
    (n val base : ℕ) (u : Bool) (w : Out)
    → print_unsigned n val base u w ≡ put_all n (unsigned_text val base u) w
unfolding print_unsigned unsigned_text
print_unsigned-put_all n val base u w = put_back-put_all n (number val base u) w

print_signed-put_all : (n val : ℕ) (w : Out) → print_signed n val w ≡ put_all n (signed_text val) w
unfolding print_signed signed_text put_all
print_signed-put_all n val w = elim (Bool-cases (leb (2 ^ 63) val)) [
  | inl e ↦ rw e (print_unsigned-put_all n _ 10 false (put_char n b'-' w))
  | inr e ↦ rw e (print_unsigned-put_all n val 10 false w)
]

print_arg-put_all :
    (n spec : ℕ) (longlong : Bool) (arg : Arg) (w : Out)
    → print_arg n spec longlong arg w ≡ put_rest n w (arg_text spec longlong arg)
unfolding print_arg arg_text print_text put_all
print_arg-put_all n spec longlong arg w =
    branch (put_rest n w) (spec == b'd')
      (of_number n w (λ v. print_signed n v w) signed_text (λ v. print_signed-put_all n v w)
        (signed_arg longlong arg))
      (branch (put_rest n w) (spec == b'u') (number_of 10 false) (
        branch (put_rest n w) (spec == b'x') (number_of 16 false) (
          branch (put_rest n w) (spec == b'X') (number_of 16 true)
            (branch (put_rest n w) (spec == b'c') (char_of arg) (text_of arg)))))
  where
    number_of :
        (base : ℕ) (u : Bool)
        → elim (unsigned_arg longlong arg) as (λ x. Option Out) [
          | none ↦ none
          | some v ↦ some (print_unsigned n v base u w)
        ]
          ≡ put_rest n w (elim (unsigned_arg longlong arg) as (λ x. Option (List ℕ)) [
            | none ↦ none
            | some v ↦ some (unsigned_text v base u)
          ])
    number_of base u =
        of_number n w (λ v. print_unsigned n v base u w) (λ v. unsigned_text v base u)
          (λ v. print_unsigned-put_all n v base u w) (unsigned_arg longlong arg)

    char_of :
        (a : Arg)
        → elim a as (λ x. Option Out) [
          | word v ↦ some (put_char n (u8 v) w)
          | long v ↦ none
          | text s ↦ none
        ]
          ≡ put_rest n w (elim a as (λ x. Option (List ℕ)) [
            | word v ↦ some (u8 v ∷ [])
            | long v ↦ none
            | text s ↦ none
          ])
    char_of (word v) = refl
    char_of (long v) = refl
    char_of (text s) = refl

    text_of :
        (a : Arg)
        → elim a as (λ x. Option Out) [
          | word v ↦ none
          | long v ↦ none
          | text s ↦ some (print_text n s w)
        ]
          ≡ put_rest n w (elim a as (λ x. Option (List ℕ)) [
            | word v ↦ none
            | long v ↦ none
            | text s ↦ some (elim s [ none ↦ null_text | some chars ↦ chars ])
          ])
    text_of (word v) = refl
    text_of (long v) = refl
    text_of (text none) = refl
    text_of (text (some s)) = refl

directive-put_all :
    (n : ℕ) (longlong : Bool) (fmt : List ℕ) (args : List Arg) (w : Out)
    → directive n longlong fmt args w ≡ put_text n w (directive_text longlong fmt args)
unfolding directive directive_text put_all
directive-put_all n longlong [] args w = refl
directive-put_all n longlong (spec ∷ fmt) args w =
    branch (put_text n w) (takes_arg spec) (taken args) refl
  where
    done :
        (o : Option Out) (args' : List Arg) (t : Option (List ℕ))
        → o ≡ put_rest n w t
        → elim o as (λ x. Option (List ℕ × List Arg × Out)) [
          | none ↦ none
          | some w' ↦ some (fmt, args', w')
        ]
          ≡ put_text n w (elim t as (λ x. Option (List ℕ × List Arg × List ℕ)) [
            | none ↦ none
            | some chars ↦ some (fmt, args', chars)
          ])
    done o args' none e = rw e refl
    done o args' (some chars) e = rw e refl

    taken :
        (args : List Arg)
        → elim args as (λ x. Option (List ℕ × List Arg × Out)) [
          | [] ↦ none
          | arg ∷ args' ↦ elim (print_arg n spec longlong arg w) [
            | none ↦ none
            | some w' ↦ some (fmt, args', w')
          ]
        ]
          ≡ put_text n w (elim args as (λ x. Option (List ℕ × List Arg × List ℕ)) [
            | [] ↦ none
            | arg ∷ args' ↦ elim (arg_text spec longlong arg) [
              | none ↦ none
              | some t ↦ some (fmt, args', t)
            ]
          ])
    taken [] = refl
    taken (arg ∷ args') = done _ args' _ (print_arg-put_all n spec longlong arg w)

percent-put_all :
    (n : ℕ) (fmt : List ℕ) (args : List Arg) (w : Out)
    → percent n fmt args w ≡ put_text n w (percent_text fmt args)
unfolding percent percent_text put_all
percent-put_all n [] args w = refl
percent-put_all n (c ∷ fmt) args w = branch (put_text n w) (c == b'%') refl (
    branch (put_text n w) (not (c == b'l')) (directive-put_all n false (c ∷ fmt) args w)
      (long_of fmt))
  where
    long_of :
        (fmt : List ℕ)
        → elim fmt as (λ x. Option (List ℕ × List Arg × Out)) [
          | [] ↦ none
          | d ∷ fmt' ↦
              if d == b'l'
              then directive n true fmt' args w
              else directive n false (d ∷ fmt') args w
        ]
          ≡ put_text n w (elim fmt as (λ x. Option (List ℕ × List Arg × List ℕ)) [
            | [] ↦ none
            | d ∷ fmt' ↦
                if d == b'l'
                then directive_text true fmt' args
                else directive_text false (d ∷ fmt') args
          ])
    long_of [] = refl
    long_of (d ∷ fmt') =
        branch (put_text n w) (d == b'l') (directive-put_all n true fmt' args w)
          (directive-put_all n false (d ∷ fmt') args w)

round-put_all :
    (n c : ℕ) (fmt : List ℕ) (args : List Arg) (w : Out)
    → round n c fmt args w ≡ put_text n w (round_text c fmt args)
unfolding round round_text put_all
round-put_all n c fmt args w = elim (Bool-cases (c == b'%')) [
  | inl e ↦ rw e (percent-put_all n fmt args w)
  | inr e ↦ rw e refl
]

pub format_loop-put_all :
    (fuel n : ℕ) (fmt : List ℕ) (args : List Arg) (w : Out)
    → format_loop fuel n fmt args w ≡ put_rest n w (render fuel fmt args)
unfolding format_loop render put_all
format_loop-put_all fuel n [] args w = refl
format_loop-put_all zero n (c ∷ fmt) args w = refl
format_loop-put_all (suc fuel) n (c ∷ fmt) args w = elim (Option-cases (round_text c fmt args)) [
  | inl e ↦ rw (format_loop, render, round-put_all n c fmt args w, e) refl
  | inr ((fmt', args', t), e) ↦
      rw (format_loop, render, round-put_all n c fmt args w, e)
        (format_loop-put_all fuel n fmt' args' (put_all n t w) ∙ joined t (render fuel fmt' args'))
]
  where
    joined :
        (t : List ℕ) (o : Option (List ℕ))
        → put_rest n (put_all n t w) o
          ≡ put_rest n w
              (elim o as (λ x. Option (List ℕ)) [ none ↦ none | some rest ↦ some (t ++ rest) ])
    joined t none = refl
    joined t (some rest) = ap some (sym (put_all-append n t rest w))
