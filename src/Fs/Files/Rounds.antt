-- ===== src/Fs/Files/Rounds.antt =====
-- vibeos/fs.c: a round of store_file_bytes and a round of load_file_bytes.
use native.Mathlib.Decide.{ℕ_discrete}
use vibeos_fpga.Fs.{Fs, Block, data_block, set_next, data_payload}
use vibeos_fpga.Fs.Blocks.Invariant.{IsFree}
use vibeos_fpga.Fs.Blocks.Space.{with_disk}
use vibeos_fpga.Fs.Files.{payload_of, write_chunk, load_loop, read_block}
use vibeos_fpga.Common.{
  ℕ, zero, suc, ◌-◌, ◌≤◌, min, ◌≡◌, ◌≢◌, refl, sym, ap, false, inl, inr, some, List, [], ◌∷◌, ◌++◌,
  ◌==◌, if◌then◌else◌, arith, length, take, drop, replicate, Bool-cases, ne→==, ==-refl,
  length-take, length-drop,
}

take-drop : (n : ℕ) (xs : List ℕ) → take n xs ++ drop n xs ≡ xs
take-drop zero xs = refl
take-drop (suc n) [] = refl
take-drop (suc n) (x ∷ xs) = ap (λ (t : List ℕ). x ∷ t) (take-drop n xs)

take-append : (xs ys : List ℕ) (n : ℕ) → n ≡ length xs → take n (xs ++ ys) ≡ xs
take-append [] ys n e = rw (e) refl
take-append (x ∷ xs) ys n e =
    rw (e) (ap (λ (t : List ℕ). x ∷ t) (take-append xs ys (length xs) refl))

-- In any state whose disk agrees with `s'` on the blocks that are free in `s`, the chain from `bno`
-- reads as these bytes.
abbrev pub Reads : (s s' : Fs) → ℕ → List ℕ → Type 0
Reads s s' bno bytes =
    (u : Fs)
    → ((b : ℕ) → IsFree s.block_map b → u.disk b ≡ s'.disk b)
    → (fuel : ℕ) → length bytes ≤ fuel
    → load_loop fuel (length bytes) bno u ≡ some bytes

-- Nothing is left to read.
pub load_loop_end : (fuel bno : ℕ) (s : Fs) → load_loop fuel 0 bno s ≡ some []
unfolding load_loop
load_loop_end zero bno s = refl
load_loop_end (suc fuel) bno s = refl

-- A round of load_file_bytes at a block that a round of store_file_bytes wrote.
pub load_loop_round :
    (fuel bno next b : ℕ) (bs : List ℕ) (s : Fs)
    → bno ≢ 0
    → s.disk bno ≡ data_block next (payload_of (take data_payload (b ∷ bs)))
    → load_loop fuel (length (drop data_payload (b ∷ bs))) next s
      ≡ some (drop data_payload (b ∷ bs))
    → load_loop (suc fuel) (length (b ∷ bs)) bno s ≡ some (b ∷ bs)
unfolding load_loop read_block payload_of
load_loop_round fuel bno next b bs s nz e rest =
    let bytes = b ∷ bs in
    let len : ℕ = min (length bytes) data_payload in
    let left : length bytes - len ≡ length (drop data_payload bytes) =
      omega (arith, length-drop data_payload bytes) in
    let got : take len
          (take data_payload bytes ++ replicate (data_payload - length (take data_payload bytes)) 0)
        ≡ take data_payload bytes =
      take-append _ _ len (omega (arith, length-take data_payload bytes)) in
    let some_left : (length bytes == 0) ≡ false =
      ne→== (length bytes) 0 (λ h. absurd (omega arith)) in
    rw
      (
        ne→== bno 0 nz,
        some_left,
        e,
        left,
        rest,
        got,
        take-drop data_payload bytes,
        load_loop,
        read_block,
      )
      refl

-- The disk after write_chunk.
unfoldable pub chunk_disk : (bno prev : ℕ) → List ℕ → Fs → ℕ → Block
chunk_disk bno prev chunk s b =
    let written : ℕ → Block = λ m. if m == bno then data_block 0 (payload_of chunk) else s.disk m in
    if prev == 0 then written b else if b == prev then set_next bno (written prev) else written b

pub write_chunk-with_disk :
    (bno prev : ℕ) (chunk : List ℕ) (s : Fs)
    → write_chunk bno prev chunk s ≡ with_disk (chunk_disk bno prev chunk s) s
unfolding write_chunk chunk_disk
write_chunk-with_disk bno prev chunk s = elim (Bool-cases (prev == 0)) [
  | inl e ↦ rw (e, write_chunk, chunk_disk) refl
  | inr e ↦ rw (e, write_chunk, chunk_disk) refl
]

-- The new block, the block before it, and the others.
pub record Chained (bno prev : ℕ) (chunk pay : List ℕ) (s : Fs) : Type 0 where
  pub new_block : chunk_disk bno prev chunk s bno ≡ data_block 0 (payload_of chunk)
  pub link : prev ≢ 0 → chunk_disk bno prev chunk s prev ≡ data_block bno pay
  pub others : (b : ℕ) → b ≢ bno → (prev ≢ 0 → b ≢ prev) → chunk_disk bno prev chunk s b ≡ s.disk b

pub write_chunk-Chained :
    (bno prev : ℕ) (chunk pay : List ℕ) (s : Fs)
    → bno ≢ prev
    → (prev ≢ 0 → s.disk prev ≡ data_block 0 pay)
    → Chained bno prev chunk pay s
unfolding chunk_disk
write_chunk-Chained bno prev chunk pay s ne e = elim (ℕ_discrete prev 0) [
  | yes z ↦ record {
    new_block = rw (z, ==-refl bno, chunk_disk) refl;
    link = λ nz. absurd (nz z);
    others = λ b p q. rw (z, ne→== b bno p, chunk_disk) refl;
  }
  | no nz ↦ record {
    new_block = rw (ne→== prev 0 nz, ne→== bno prev ne, ==-refl bno, chunk_disk) refl;
    link = λ nz'.
        rw (ne→== prev 0 nz, ==-refl prev, ne→== prev bno (λ h. ne (sym h)), e nz, chunk_disk) refl;
    others = λ b p q. rw (ne→== prev 0 nz, ne→== b prev (q nz), ne→== b bno p, chunk_disk) refl;
  }
]
