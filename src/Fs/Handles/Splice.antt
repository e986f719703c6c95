-- ===== src/Fs/Handles/Splice.antt =====
-- vibeos/fs.c: a write into a buffer.
use vibeos_fpga.Fs.Handles.{overwrite}
use vibeos_fpga.Common.{
  ℕ, zero, suc, ◌+◌, ◌≤◌, max, ◌≡◌, refl, ◌∙◌, ap, true, some, List, [], ◌∷◌, ◌++◌, leb, arith,
  length, take, drop, length-append, length-take, length-drop,
}

-- The text with the bytes written at a position within it, or at its end.
unfoldable pub splice : (at : ℕ) → (bytes text : List ℕ) → List ℕ
splice at bytes text = take at text ++ (bytes ++ drop (at + length bytes) text)

pub drop_nil : (n : ℕ) → drop {A = ℕ} n [] ≡ []
drop_nil zero = refl
drop_nil (suc n) = refl

-- `length bytes` of the buffer are overwritten, and what counts as contents grows with them.
take_overwritten :
    (bytes buf : List ℕ) (size m : ℕ)
    → m ≡ max size (length bytes)
    → length bytes ≤ length buf
    → take m (bytes ++ drop (length bytes) buf) ≡ bytes ++ drop (length bytes) (take size buf)
take_overwritten [] buf size m e le = let same : m ≡ size = omega arith in rw (same) refl
take_overwritten (b ∷ bs) [] size m e le = absurd (omega arith)
take_overwritten (b ∷ bs) (x ∷ xs) size zero e le = absurd (omega arith)
take_overwritten (b ∷ bs) (x ∷ xs) zero (suc m) e le =
    ap (λ (t : List ℕ). b ∷ t)
      (take_overwritten bs xs 0 m (omega arith) (omega arith)
        ∙ ap (λ (t : List ℕ). bs ++ t) (drop_nil (length bs)))
take_overwritten (b ∷ bs) (x ∷ xs) (suc size) (suc m) e le =
    ap (λ (t : List ℕ). b ∷ t) (take_overwritten bs xs size m (omega arith) (omega arith))

pub take-splice :
    (at : ℕ) (bytes buf : List ℕ) (size m : ℕ)
    → m ≡ max size (at + length bytes)
    → at ≤ size
    → at + length bytes ≤ length buf
    → take m (splice at bytes buf) ≡ splice at bytes (take size buf)
unfolding splice
take-splice zero bytes buf size m e le fits =
    let same : 0 + length bytes ≡ length bytes = omega arith in
    rw (same) (take_overwritten bytes buf size m (omega arith) (omega arith))
take-splice (suc at) bytes [] size m e le fits = absurd (omega arith)
take-splice (suc at) bytes (x ∷ xs) zero m e le fits = absurd (omega arith)
take-splice (suc at) bytes (x ∷ xs) (suc size) zero e le fits = absurd (omega arith)
take-splice (suc at) bytes (x ∷ xs) (suc size) (suc m) e le fits =
    let same : suc at + length bytes ≡ suc (at + length bytes) = omega arith in
    rw (same) (
      ap (λ (t : List ℕ). x ∷ t)
        (take-splice at bytes xs size m (omega arith) (omega arith) (omega arith)))

pub length-splice :
    (at : ℕ) (bytes buf : List ℕ)
    → at + length bytes ≤ length buf
    → length (splice at bytes buf) ≡ length buf
unfolding splice
length-splice at bytes buf fits = omega (
  arith,
  length-append (take at buf) (bytes ++ drop (at + length bytes) buf),
  length-append bytes (drop (at + length bytes) buf),
  length-take at buf,
  length-drop (at + length bytes) buf,
)

pub overwrite-splice :
    (at : ℕ) (bytes buf : List ℕ)
    → at + length bytes ≤ length buf
    → overwrite at bytes buf ≡ some (splice at bytes buf)
unfolding overwrite splice
overwrite-splice at bytes buf fits = rw (le→leb (at + length bytes) (length buf) fits) refl
  where
    le→leb : (a b : ℕ) → a ≤ b → leb a b ≡ true
    le→leb a b h = ground arith
