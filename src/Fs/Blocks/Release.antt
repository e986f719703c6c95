-- ===== src/Fs/Blocks/Release.antt =====
-- vibeos/fs.c: what bfree and fs_free_chain do.
use vibeos_fpga.Common.Bitmap.{bit, bit-unmark}
use vibeos_fpga.Fs.{Fs, Block, next_of}
use vibeos_fpga.Fs.Blocks.{bfree, fs_free_chain}
use vibeos_fpga.Fs.Blocks.Invariant.{IsFs, bfree-IsFs}
use vibeos_fpga.Common.{
  ℕ, zero, suc, ◌≤◌, ◌≡◌, ◌≢◌, refl, ◌∙◌, Bool, false, ◌&&◌, ◌||◌, inl, inr, none, some, List, [],
  ◌∷◌, ltb, leb, ◌==◌, if◌then◌else◌, arith, length, Bool-cases, ne→==,
}

-- The chain of blocks that starts at `bno` ends, and these are its blocks.
unfoldable pub IsChain : (ℕ → Block) → ℕ → List ℕ → Type 0
IsChain disk bno [] = bno ≡ 0
IsChain disk bno (b ∷ bs) = (bno ≡ b) × (b ≢ 0) × IsChain disk (next_of (disk b)) bs

unfoldable pub member : ℕ → List ℕ → Bool
member a [] = false
member a (b ∷ bs) = b == a || member a bs

-- A block that bfree clears when it is given it.
abbrev pub freeable : Fs → ℕ → Bool
freeable s b = leb 60 b && ltb b s.max_blocks

pub record SameDisk (s s' : Fs) : Type 0 where
  pub same_disk : s'.disk ≡ s.disk
  pub same_max : s'.max_blocks ≡ s.max_blocks
  pub same_behind : s'.behind ≡ s.behind

pub bfree-SameDisk : (bno : ℕ) (s : Fs) → SameDisk s (bfree bno s)
unfolding bfree
bfree-SameDisk bno s = elim (Bool-cases (ltb bno 60 || leb s.max_blocks bno)) [
  | inl e ↦ rw (e, bfree) (record { same_disk = refl; same_max = refl; same_behind = refl })
  | inr e ↦ rw (e, bfree) (record { same_disk = refl; same_max = refl; same_behind = refl })
]

pub bit-bfree :
    {s : Fs} (bno j : ℕ)
    → IsFs s
    → bit (bfree bno s).block_map j ≡ (if freeable s bno && bno == j then 0 else bit s.block_map j)
unfolding bfree
bit-bfree {s} bno j v = elim (Bool-cases (ltb bno 60 || leb s.max_blocks bno)) [
  | inl e ↦ rw (e, bfree) (ground arith)
  | inr e ↦ rw (e, bfree) (ground (arith, bit-unmark s.block_map bno j, v.whole))
]

pub record Freed (s s' : Fs) (blocks : List ℕ) : Type 0 where
  pub valid : IsFs s'
  pub frame : SameDisk s s'
  pub marks :
      (j : ℕ)
      → bit s'.block_map j ≡ (if freeable s j && member j blocks then 0 else bit s.block_map j)

-- fs_free_chain returns on a chain that ends, with fuel for its blocks; it clears the marks of the
-- chain's blocks from 60 on, and changes no other mark and no block of the disk.
pub fs_free_chain-Freed :
    {s : Fs} (fuel bno : ℕ) (blocks : List ℕ)
    → IsFs s
    → IsChain s.disk bno blocks
    → length blocks ≤ fuel
    → (s' : Fs) × (fs_free_chain fuel bno s ≡ some s') × Freed s s' blocks
unfolding fs_free_chain IsChain member
fs_free_chain-Freed {s} zero bno [] v c le = (
  s,
  rw (c) refl,
  record {
    valid = v;
    frame = record { same_disk = refl; same_max = refl; same_behind = refl };
    marks = λ j. ground arith;
  },
)
fs_free_chain-Freed {s} (suc fuel) bno [] v c le = (
  s,
  rw (c) refl,
  record {
    valid = v;
    frame = record { same_disk = refl; same_max = refl; same_behind = refl };
    marks = λ j. ground arith;
  },
)
fs_free_chain-Freed zero bno (b ∷ bs) v c le = absurd (omega arith)
fs_free_chain-Freed {s} (suc fuel) bno (b ∷ bs) v (e, nz, c) le =
    let f = bfree-SameDisk b s in
    let next : ℕ = next_of (s.disk b) in
    let (s', r, d) =
      fs_free_chain-Freed {s = bfree b s} fuel next bs (bfree-IsFs b v) (rw (f.same_disk) c)
        (omega arith) in
    (
      s',
      rw (e, ne→== b 0 nz) r,
      record {
        valid = d.valid;
        frame = record {
          same_disk = d.frame.same_disk ∙ f.same_disk;
          same_max = d.frame.same_max ∙ f.same_max;
          same_behind = d.frame.same_behind ∙ f.same_behind;
        };
        marks = λ j. ground (arith, d.marks j, bit-bfree b j v, f.same_max);
      },
    )

-- On a block that is linked to itself, fs_free_chain never returns.
pub fs_free_chain_cycle :
    (fuel bno : ℕ) (s : Fs) → bno ≢ 0 → next_of (s.disk bno) ≡ bno → fs_free_chain fuel bno s ≡ none
unfolding fs_free_chain
fs_free_chain_cycle zero bno s nz e = rw (ne→== bno 0 nz) refl
fs_free_chain_cycle (suc fuel) bno s nz e =
    rw (ne→== bno 0 nz, e)
      (fs_free_chain_cycle fuel bno (bfree bno s) nz (rw ((bfree-SameDisk bno s).same_disk) e))

-- The guard in front of a call of fs_free_chain says what the call says by itself.
pub fs_free_chain_guarded :
    (fuel bno : ℕ) (s : Fs)
    → (if bno == 0 then some s else fs_free_chain fuel bno s) ≡ fs_free_chain fuel bno s
unfolding fs_free_chain
fs_free_chain_guarded zero bno s = elim (Bool-cases (bno == 0)) [
  | inl e ↦ rw (e) refl
  | inr e ↦ rw (e) refl
]
fs_free_chain_guarded (suc fuel) bno s = elim (Bool-cases (bno == 0)) [
  | inl e ↦ rw (e) refl
  | inr e ↦ rw (e) refl
]
