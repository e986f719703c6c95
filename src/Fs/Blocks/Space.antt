-- ===== src/Fs/Blocks/Space.antt =====
-- vibeos/fs.c: how many blocks balloc can still give, and what it leaves alone.
use native.Mathlib.Decide.{ℕ_discrete}
use vibeos_fpga.Common.Bitmap.{bit, mark}
use vibeos_fpga.Fs.{Fs, Block}
use vibeos_fpga.Fs.Blocks.{balloc}
use vibeos_fpga.Fs.Blocks.Invariant.{
  IsFs, IsFree, Found, full, found, taken, balloc_lem, taken-IsFs, bit-taken,
}
use vibeos_fpga.Common.{ℕ, zero, suc, ◌+◌, ◌-◌, ◌≤◌, ◌<◌, ◌≡◌, ◌≢◌, refl, List, arith, ne→==}

-- The free blocks among the `left` from `i` on.
unfoldable pub free_from : ℕ → ℕ → List ℕ → ℕ
free_from zero i bm = 0
free_from (suc left) i bm = (1 - bit bm i) + free_from left (suc i) bm

unfoldable pub free_blocks : Fs → ℕ
free_blocks s = free_from (s.max_blocks - s.next_free_block) s.next_free_block s.block_map

free_from_used :
    (left i : ℕ) (bm : List ℕ)
    → ((j : ℕ) → i ≤ j → j < i + left → bit bm j ≡ 1)
    → free_from left i bm ≡ 0
unfolding free_from
free_from_used zero i bm h = refl
free_from_used (suc left) i bm h = omega (
  arith,
  h i (omega arith) (omega arith),
  free_from_used left (suc i) bm (λ j p q. h j (omega arith) (omega arith)),
)

free_from_first :
    (left i k rest : ℕ) (bm : List ℕ)
    → i + left ≡ k + suc rest
    → i ≤ k
    → ((j : ℕ) → i ≤ j → j < k → bit bm j ≡ 1)
    → IsFree bm k
    → free_from left i bm ≡ suc (free_from rest (suc k) bm)
unfolding free_from
free_from_first zero i k rest bm e le h f = absurd (omega arith)
free_from_first (suc left) i k rest bm e le h f = elim (ℕ_discrete i k) [
  | yes same ↦ let same_left : left ≡ rest = omega arith in rw (same, same_left, f) (omega arith)
  | no ne ↦
      let ih =
        free_from_first left (suc i) k rest bm (omega arith) (omega arith)
          (λ j p q. h j (omega arith) q) f in
      omega (arith, h i (omega arith) (omega arith), ih)
]

pub free_from_same :
    (left i : ℕ) (bm bm' : List ℕ)
    → ((j : ℕ) → i ≤ j → bit bm' j ≡ bit bm j)
    → free_from left i bm' ≡ free_from left i bm
unfolding free_from
free_from_same zero i bm bm' h = refl
free_from_same (suc left) i bm bm' h =
    omega (arith, h i (omega arith), free_from_same left (suc i) bm bm' (λ j p. h j (omega arith)))

pub free_blocks-taken :
    {s : Fs} (i : ℕ)
    → IsFs s
    → s.next_free_block ≤ i
    → i < s.max_blocks
    → IsFree s.block_map i
    → ((j : ℕ) → j < i → bit s.block_map j ≡ 1)
    → free_blocks s ≡ suc (free_blocks (taken i s))
unfolding free_blocks
free_blocks-taken {s} i v ge lt f below =
    let rest = s.max_blocks - suc i in
    let first =
      free_from_first (s.max_blocks - s.next_free_block) s.next_free_block i rest s.block_map
        (omega arith) ge (λ j p q. below j q) f in
    let same =
      free_from_same rest (suc i) s.block_map (mark s.block_map i)
        (λ j p. ground (arith, bit-taken i j v lt)) in
    omega (arith, first, same)

-- What stays of a state `s` when blocks are only taken: a marked block is as it was, and marked.
pub record Grown (s s' : Fs) : Type 0 where
  pub valid : IsFs s'
  pub same_max : s'.max_blocks ≡ s.max_blocks
  pub same_behind : s'.behind ≡ s.behind
  pub marked : (b : ℕ) → bit s.block_map b ≡ 1 → bit s'.block_map b ≡ 1

-- Another disk.
abbrev pub with_disk : (ℕ → Block) → Fs → Fs
with_disk d s = record s { disk = d }

pub with_disk-IsFs : {s : Fs} (d : ℕ → Block) → IsFs s → IsFs (with_disk d s)
with_disk-IsFs d v = record {
  ready = v.ready;
  whole = v.whole;
  system_le = v.system_le;
  next_le = v.next_le;
  packed = v.packed;
}

pub free_blocks-with_disk : (d : ℕ → Block) (s : Fs) → free_blocks (with_disk d s) ≡ free_blocks s
unfolding free_blocks
free_blocks-with_disk d s = refl

-- A block was taken.
pub record Taken (s s' : Fs) (i : ℕ) : Type 0 where
  pub grown : Grown s s'
  pub not_zero : i ≢ 0
  pub was_free : IsFree s.block_map i
  pub now_used : bit s'.block_map i ≡ 1
  pub same_disk : (b : ℕ) → b ≢ i → s'.disk b ≡ s.disk b
  pub one_less : free_blocks s ≡ suc (free_blocks s')

-- With a free block, balloc takes one.
pub balloc-Taken :
    {s : Fs}
    → IsFs s
    → 1 ≤ free_blocks s
    → (i : ℕ) × (s' : Fs) × (balloc s ≡ (i, s')) × Taken s s' i
unfolding free_blocks
balloc-Taken {s} v h = take_found (balloc s) refl (balloc_lem v)
  where
    take_found :
        (r : ℕ × Fs)
        → balloc s ≡ r
        → Found s r
        → (i : ℕ) × (s' : Fs) × (balloc s ≡ (i, s')) × Taken s s' i
    take_found _ e (full all) = absurd (
        omega (
          arith,
          free_from_used (s.max_blocks - s.next_free_block) s.next_free_block s.block_map
              (λ j p q. all j (omega (arith, v.next_le))),
        ))
    take_found _ e (found i ge lt f below) = (
      i,
      taken i s,
      e,
      record {
        grown = record {
          valid = taken-IsFs i v ge lt below;
          same_max = refl;
          same_behind = refl;
          marked = λ b m. ground (arith, bit-taken i b v lt);
        };
        not_zero = omega (arith, v.system_le);
        was_free = f;
        now_used = ground (arith, bit-taken i i v lt);
        same_disk = λ b ne. rw (ne→== b i ne) refl;
        one_less = free_blocks-taken i v ge lt f below;
      },
    )
