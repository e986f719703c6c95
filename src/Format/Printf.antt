-- ===== src/Format/Printf.antt =====
-- lib_vsnprintf: what the buffer holds afterwards.
use vibeos_fpga.Common.{
  ℕ, zero, suc, ◌-◌, ◌^◌, ◌≤◌, ◌<◌, min, ◌≡◌, refl, ◌∙◌, ap₂, Bool, true, false, not, inl, inr,
  Option, none, some, List, [], ◌∷◌, ltb, ◌==◌, if◌then◌else◌, arith, length, get_or, set,
  Bool-cases, Option-cases, length-set, get_or-set,
}
use vibeos_fpga.Format.{Arg, Out, put_all, terminate, lib_vsnprintf}
use vibeos_fpga.Format.Write.{put_all-pos, put_all-Written, written}
use vibeos_fpga.Format.Text.{render, round_text, percent_text, directive_text, arg_text}
use vibeos_fpga.Format.Laws.{format_loop-put_all}
use vibeos_fpga.Format.{takes_arg}

-- The format that a round leaves is not longer than `k`.
abbrev IsShorter : ℕ → Option (List ℕ × List Arg × List ℕ) → Type 0
IsShorter k none = Unit {0}
IsShorter k (some r) = length r.0 ≤ k

either :
    (k : ℕ) (b : Bool) (x y : Option (List ℕ × List Arg × List ℕ))
    → IsShorter k x
    → IsShorter k y
    → IsShorter k (if b then x else y)
either k true x y p q = p
either k false x y p q = q

directive_text-IsShorter :
    (k : ℕ) (longlong : Bool) (fmt : List ℕ) (args : List Arg)
    → length fmt ≤ k
    → IsShorter k (directive_text longlong fmt args)
unfolding directive_text
directive_text-IsShorter k longlong [] args h = tt
directive_text-IsShorter k longlong (spec ∷ fmt) args h =
    either k (takes_arg spec) _ _ (taken args) (omega arith)
  where
    taken :
        (args : List Arg)
        → IsShorter k (elim args as (λ x. Option (List ℕ × List Arg × List ℕ)) [
          | [] ↦ none
          | arg ∷ args' ↦ elim (arg_text spec longlong arg) [
            | none ↦ none
            | some t ↦ some (fmt, args', t)
          ]
        ])
    taken [] = tt
    taken (arg ∷ args') =
        elim (arg_text spec longlong arg)
          as (λ o. IsShorter k (elim o as (λ x. Option (List ℕ × List Arg × List ℕ)) [
            | none ↦ none
            | some t ↦ some (fmt, args', t)
          ])) [ none ↦ tt | some t ↦ omega arith ]

percent_text-IsShorter :
    (k : ℕ) (fmt : List ℕ) (args : List Arg) → length fmt ≤ k → IsShorter k (percent_text fmt args)
unfolding percent_text
percent_text-IsShorter k [] args h = tt
percent_text-IsShorter k (c ∷ []) args h =
    either k (c == b'%') _ _ (omega arith)
      (either k (not (c == b'l')) _ _ (directive_text-IsShorter k false (c ∷ []) args h) tt)
percent_text-IsShorter k (c ∷ d ∷ fmt) args h = either k (c == b'%') _ _ (omega arith) (
    either k (not (c == b'l')) _ _ (directive_text-IsShorter k false (c ∷ d ∷ fmt) args h) (
      either k (d == b'l') _ _ (directive_text-IsShorter k true fmt args (omega arith))
        (directive_text-IsShorter k false (d ∷ fmt) args (omega arith))))

round_text-IsShorter :
    (k c : ℕ) (fmt : List ℕ) (args : List Arg)
    → length fmt ≤ k
    → IsShorter k (round_text c fmt args)
unfolding round_text
round_text-IsShorter k c fmt args h =
    either k (not (c == b'%')) _ _ h (percent_text-IsShorter k fmt args h)

-- The length of the format is enough fuel: more of it changes nothing.
pub render_enough :
    (fuel more : ℕ) (fmt : List ℕ) (args : List Arg)
    → length fmt ≤ fuel
    → fuel ≤ more
    → render more fmt args ≡ render fuel fmt args
unfolding render
render_enough fuel more [] args h le = refl
render_enough zero more (c ∷ fmt) args h le = absurd (omega arith)
render_enough (suc fuel) zero (c ∷ fmt) args h le = absurd (omega arith)
render_enough (suc fuel) (suc more) (c ∷ fmt) args h le =
    elim (Option-cases (round_text c fmt args)) [
      | inl e ↦ rw (render, e) refl
      | inr ((fmt', args', t), e) ↦
          let short : length fmt' ≤ fuel =
            rw e at (round_text-IsShorter fuel c fmt args (omega arith)) in
          rw (render, e, render_enough fuel more fmt' args' short (omega arith)) refl
    ]

-- What snprintf is meant to leave: the text up to the room there is, its terminator, and behind it
-- what the buffer held.
abbrev pub snprintf_char : ℕ → List ℕ → List ℕ → ℕ → ℕ
snprintf_char n t b i =
    if n == 0
    then get_or b i 0
    else if ltb i (min (length t) (n - 1))
    then get_or t i 0
    else if i == min (length t) (n - 1)
    then 0
    else get_or b i 0

abbrev start : Option (List ℕ) → Out
start out = record { buffer = out; pos = 0 }

-- The result, over the text.
lib_vsnprintf-render :
    (out : Option (List ℕ)) (n : ℕ) (fmt : List ℕ) (args : List Arg) (t : List ℕ)
    → render (length fmt) fmt args ≡ some t
    → lib_vsnprintf out n fmt args
      ≡ some (terminate n (put_all n t (start out)), (put_all n t (start out)).pos)
unfolding lib_vsnprintf
lib_vsnprintf-render out n fmt args t e =
    rw (lib_vsnprintf, format_loop-put_all (length fmt) n fmt args (start out), e) refl

-- The buffer with the terminator stored.
abbrev ended : ℕ → ℕ → List ℕ → List ℕ
ended n len a = if ltb len n then set a len 0 else if n == 0 then a else set a (n - 1) 0

length-ended : (n len : ℕ) (a : List ℕ) → length (ended n len a) ≡ length a
length-ended n len a = ground (arith, length-set a len 0, length-set a (n - 1) 0)

get_or-ended :
    (n : ℕ) (t a b : List ℕ) (i : ℕ)
    → n ≤ length a
    → get_or a i 0 ≡ written n 0 t b i
    → get_or (ended n (length t) a) i 0 ≡ snprintf_char n t b i
get_or-ended n t a b i fits h = elim (Bool-cases (ltb (length t) n)) [
  | inl room ↦
      rw (room, get_or-set a (length t) i 0 0 (ground (arith, room))) (ground (arith, h, room))
  | inr full ↦ elim (Bool-cases (n == 0)) [
    | inl empty ↦ rw (full, empty) (ground (arith, h, empty))
    | inr some_room ↦
        rw (full, some_room, get_or-set a (n - 1) i 0 0 (ground (arith, some_room)))
          (ground (arith, h, full, some_room))
  ]
]

terminate-ended :
    (n len : ℕ) (a : List ℕ) (w : Out)
    → w.buffer ≡ some a
    → w.pos ≡ len
    → terminate n w ≡ some (ended n len a)
unfolding terminate
terminate-ended n len a w e p = rw (terminate, e, p) refl

-- For a format whose arguments fit, lib_vsnprintf returns the length of the whole text. The buffer
-- keeps its length and holds as much of the text as fits in front of a terminator within the first
-- `n` bytes.
pub lib_vsnprintf_lem :
    (b : List ℕ) (n : ℕ) (fmt : List ℕ) (args : List Arg) (t : List ℕ)
    → render (length fmt) fmt args ≡ some t
    → n ≤ length b
    → length t < 2 ^ 32
    → (after : List ℕ) × (lib_vsnprintf (some b) n fmt args ≡ some (some after, length t))
      × (length after ≡ length b)
      × ((i : ℕ) → get_or after i 0 ≡ snprintf_char n t b i)
lib_vsnprintf_lem b n fmt args t e fits small =
    let r = put_all-Written n t (start (some b)) b refl fits (omega (arith, small)) in
    let p = put_all-pos n t (start (some b)) (omega (arith, small)) in
    (
      ended n (length t) r.after,
      lib_vsnprintf-render (some b) n fmt args t e
          ∙ ap₂ (λ (o : Option (List ℕ)) (k : ℕ). some (o, k))
              (terminate-ended n (length t) r.after _ r.is (p ∙ omega arith)) (p ∙ omega arith),
      length-ended n (length t) r.after ∙ r.same_length,
      λ i. get_or-ended n t r.after b i (omega (arith, r.same_length)) (r.at_index i),
    )
