-- ===== src/Fs/Blocks/Invariant.antt =====
-- vibeos/fs.c: the map of used blocks, and what balloc does with it.
use native.Mathlib.Decide.{ℕ_discrete}
use vibeos_fpga.Common.Bitmap.{
  bit, bit-lt, is_marked, mark, bit-mark, bit-unmark, length-mark, length-unmark,
}
use vibeos_fpga.Fs.{Fs, write_block, zero_block}
use vibeos_fpga.Fs.Blocks.{in_map, first_free, take_first, balloc, bfree, prepare}
use vibeos_fpga.Common.{
  ℕ, zero, suc, ◌+◌, ◌-◌, ◌*◌, ◌≤◌, ◌<◌, ◌≡◌, refl, true, false, ◌||◌, ◌⊎◌, inl, inr, none, some,
  List, ltb, leb, ◌==◌, if◌then◌else◌, arith, length, Bool-cases, ltb→lt, ltb→le, eq→==, ne→==,
}

-- The map is set up and has a bit for each block, and no block below the mark where the search for
-- a free one starts is free; so none of the first 60 is.
pub record IsFs (s : Fs) : Type 0 where
  pub ready : s.alloc_ready ≡ true
  pub whole : length s.block_map * 8 ≡ s.max_blocks
  pub system_le : 60 ≤ s.next_free_block
  pub next_le : s.next_free_block ≤ s.max_blocks
  pub packed : (i : ℕ) → i < s.next_free_block → bit s.block_map i ≡ 1

pub prepare-ready : (s : Fs) → s.alloc_ready ≡ true → prepare s ≡ s
unfolding prepare
prepare-ready s h = rw (h) refl

in_map-bit : (bm : List ℕ) (i : ℕ) → in_map bm i ≡ (bit bm i == 1)
unfolding in_map
in_map-bit bm i = is_marked bm i

-- A free block.
abbrev pub IsFree : List ℕ → ℕ → Type 0
IsFree bm i = bit bm i ≡ 0

pub record First (bm : List ℕ) (i left k : ℕ) : Type 0 where
  pub from : i ≤ k
  pub below : k < i + left
  pub is_free : IsFree bm k
  pub used_below : (j : ℕ) → i ≤ j → j < k → bit bm j ≡ 1

-- The search finds the first free block of its range, if there is one.
pub first_free_lem :
    (left i : ℕ) (bm : List ℕ)
    → ((first_free left i bm ≡ none) × ((j : ℕ) → i ≤ j → j < i + left → bit bm j ≡ 1))
      ⊎ ((k : ℕ) × (first_free left i bm ≡ some k) × First bm i left k)
unfolding first_free
first_free_lem zero i bm = inl (refl, λ j p q. absurd (omega arith))
first_free_lem (suc left) i bm = elim (ℕ_discrete (bit bm i) 1) [
  | yes e ↦
      let t : in_map bm i ≡ true = rw (in_map-bit bm i) (eq→== _ _ e) in
      elim (first_free_lem left (suc i) bm) [
        | inl (n, all) ↦ inl (rw (t) n, used_from i left bm e all)
        | inr (k, f, r) ↦ inr (
          k,
          rw (t) f,
          record {
            from = omega (arith, r.from);
            below = omega (arith, r.below);
            is_free = r.is_free;
            used_below = λ j p q. elim (ℕ_discrete i j) [
              | yes same ↦ rw (← same) e
              | no ne ↦ r.used_below j (omega arith) q
            ];
          },
        )
      ]
  | no ne ↦
      let t : in_map bm i ≡ false = rw (in_map-bit bm i) (ne→== _ _ ne) in
      inr (
        i,
        rw (t) refl,
        record {
          from = omega arith;
          below = omega arith;
          is_free = omega (arith, bit-lt bm i);
          used_below = λ j p q. absurd (omega arith);
        },
      )
]
  where
    used_from :
        (i left : ℕ) (bm : List ℕ)
        → bit bm i ≡ 1
        → ((j : ℕ) → suc i ≤ j → j < suc i + left → bit bm j ≡ 1)
        → (j : ℕ) → i ≤ j
        → j < i + suc left
        → bit bm j ≡ 1
    used_from i left bm e all j p q = elim (ℕ_discrete i j) [
      | yes same ↦ rw (← same) e
      | no ne ↦ all j (omega arith) (omega arith)
    ]

-- The state after balloc took the block `i`.
abbrev pub taken : ℕ → Fs → Fs
taken i s =
    write_block i zero_block (record s { block_map = mark s.block_map i; next_free_block = suc i })

-- What balloc finds in a state whose map is set up: a full disk, or the lowest free block.
pub data Found (s : Fs) : ℕ × Fs → Type 0 where
  full : ((i : ℕ) → i < s.max_blocks → bit s.block_map i ≡ 1) → Found s (0, s)
  found :
      (i : ℕ)
      → s.next_free_block ≤ i
      → i < s.max_blocks
      → IsFree s.block_map i
      → ((j : ℕ) → j < i → bit s.block_map j ≡ 1)
      → Found s (i, taken i s)

take_first_lem : {s : Fs} → IsFs s → Found s (take_first s)
unfolding take_first
take_first_lem {s} v =
    elim (first_free_lem (s.max_blocks - s.next_free_block) s.next_free_block s.block_map) [
      | inl (n, all) ↦
          rw (n, take_first)
            (full (λ i h. elim (Bool-cases (ltb i s.next_free_block)) [
              | inl lt ↦ v.packed i (ltb→lt _ _ lt)
              | inr ge ↦ all i (ltb→le _ _ ge) (omega (arith, v.next_le))
            ]))
      | inr (k, f, r) ↦
          rw (f, take_first)
            (found k r.from (omega (arith, r.below, v.next_le)) r.is_free (λ j h.
              elim (Bool-cases (ltb j s.next_free_block)) [
                | inl lt ↦ v.packed j (ltb→lt _ _ lt)
                | inr ge ↦ r.used_below j (ltb→le _ _ ge) h
              ]))
    ]

-- In a state whose map is set up, balloc returns 0 and leaves the state when every block is in use;
-- otherwise it takes the lowest free block: that block is filled with zeros and marked as used, no
-- other block or mark changes, and the next search starts behind it.
pub balloc_lem : {s : Fs} → IsFs s → Found s (balloc s)
unfolding balloc
balloc_lem {s} v = rw (prepare-ready s v.ready) (take_first_lem v)

pub bit-taken :
    {s : Fs} (i j : ℕ)
    → IsFs s
    → i < s.max_blocks
    → bit (mark s.block_map i) j ≡ (if i == j then 1 else bit s.block_map j)
bit-taken {s} i j v h = bit-mark s.block_map i j (omega (arith, v.whole))

pub taken-IsFs :
    {s : Fs} (i : ℕ)
    → IsFs s
    → s.next_free_block ≤ i
    → i < s.max_blocks
    → ((j : ℕ) → j < i → bit s.block_map j ≡ 1)
    → IsFs (taken i s)
taken-IsFs {s} i v ge lt below = record {
  ready = v.ready;
  whole = rw (length-mark s.block_map i) v.whole;
  system_le = omega (arith, v.system_le);
  next_le = omega arith;
  packed = λ j h. rw (bit-taken i j v lt) (elim (ℕ_discrete i j) [
    | yes same ↦ rw (eq→== _ _ same) refl
    | no ne ↦ rw (ne→== _ _ ne) (below j (omega arith))
  ]);
}

pub bfree-IsFs : {s : Fs} (bno : ℕ) → IsFs s → IsFs (bfree bno s)
unfolding bfree
bfree-IsFs {s} bno v = elim (Bool-cases (ltb bno 60 || leb s.max_blocks bno)) [
  | inl e ↦ rw (e) v
  | inr e ↦ rw (e) (record {
    ready = v.ready;
    whole = rw (length-unmark s.block_map bno) v.whole;
    system_le = ground (arith, v.system_le);
    next_le = ground (arith, v.next_le);
    packed = λ j h. ground (arith, bit-unmark s.block_map bno j, v.packed j, v.whole);
  })
]
