-- ===== src/Format/Write.antt =====
-- put_char and the loops over it: what the buffer holds.
use vibeos_fpga.Common.{
  ℕ, suc, ◌+◌, ◌-◌, ◌^◌, ◌≤◌, ◌<◌, ◌≡◌, refl, ◌∙◌, ◌&&◌, inl, inr, Option, some, List, [], ◌∷◌, ltb,
  leb, ◌==◌, if◌then◌else◌, add32, arith, length, get_or, set, Bool-cases, length-set, get_or-set,
}
use native.Mathlib.Decide.{dec_lt}
use vibeos_fpga.Format.{Out, put_char, put_all}

pub put_all-pos :
    (n : ℕ) (t : List ℕ) (w : Out)
    → w.pos + length t < 2 ^ 32
    → (put_all n t w).pos ≡ w.pos + length t
unfolding put_all put_char
put_all-pos n [] w h = omega arith
put_all-pos n (c ∷ t) w h = put_all-pos n t (put_char n c w) (omega arith) ∙ omega arith

-- What the buffer holds after the text `t` was put at `pos`: as much of it as fits below `n - 1`.
abbrev pub written : ℕ → ℕ → List ℕ → List ℕ → ℕ → ℕ
written n pos t b i =
    if leb pos i && (ltb i (pos + length t) && ltb (i + 1) n)
    then get_or t (i - pos) 0
    else get_or b i 0

pub record Written (n pos : ℕ) (t b : List ℕ) (o : Option (List ℕ)) : Type 0 where
  pub after : List ℕ
  pub is : o ≡ some after
  pub same_length : length after ≡ length b
  pub at_index : (i : ℕ) → get_or after i 0 ≡ written n pos t b i

-- The buffer after one character.
abbrev pub stored : ℕ → ℕ → ℕ → List ℕ → List ℕ
stored n c pos b = if ltb (add32 pos 1) n then set b pos c else b

pub length-stored : (n c pos : ℕ) (b : List ℕ) → length (stored n c pos b) ≡ length b
length-stored n c pos b = ground (arith, length-set b pos c)

pub get_or-stored :
    (n c pos : ℕ) (b : List ℕ) (i : ℕ)
    → pos + 1 < 2 ^ 32
    → n ≤ length b
    → get_or (stored n c pos b) i 0 ≡ (if pos == i && ltb (i + 1) n then c else get_or b i 0)
get_or-stored n c pos b i small fits = elim (Bool-cases (ltb (add32 pos 1) n)) [
  | inl room ↦ rw (room, get_or-set b pos i c 0 (ground (arith, room))) (ground (arith, room))
  | inr full ↦ rw full (ground (arith, full))
]

written-stored :
    (n c pos next : ℕ) (t b : List ℕ) (i : ℕ)
    → next ≡ pos + 1
    → pos + 1 < 2 ^ 32
    → n ≤ length b
    → written n next t (stored n c pos b) i ≡ written n pos (c ∷ t) b i
written-stored n c pos next t b i e small fits = elim (dec_lt pos i) [
  | yes past ↦
      let step : i - pos ≡ suc (i - next) = omega arith in
      rw (get_or-stored n c pos b i small fits, step) (ground arith)
  | no here ↦
      let step : i - pos ≡ 0 = omega arith in
      rw (get_or-stored n c pos b i small fits, step) (ground arith)
]

pub put_all-Written :
    (n : ℕ) (t : List ℕ) (w : Out) (b : List ℕ)
    → w.buffer ≡ some b
    → n ≤ length b
    → w.pos + length t < 2 ^ 32
    → Written n w.pos t b (put_all n t w).buffer
unfolding put_all put_char
put_all-Written n [] w b e fits h = record {
  after = b;
  is = e;
  same_length = refl;
  at_index = λ i. ground arith;
}
put_all-Written n (c ∷ t) w b e fits h =
    let next_pos : (put_char n c w).pos ≡ w.pos + 1 = omega arith in
    let r =
      put_all-Written n t (put_char n c w) (stored n c w.pos b) (rw e refl)
        (omega (arith, length-stored n c w.pos b)) (omega (arith, next_pos)) in
    record {
      after = r.after;
      is = r.is;
      same_length = r.same_length ∙ length-stored n c w.pos b;
      at_index = λ i.
          r.at_index i
          ∙ written-stored n c w.pos (put_char n c w).pos t b i next_pos (omega arith) fits;
    }
