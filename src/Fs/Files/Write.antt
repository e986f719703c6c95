-- ===== src/Fs/Files/Write.antt =====
-- vibeos/fs.c: the blocks that store_file_bytes writes.
use native.Mathlib.Decide.{ℕ_discrete}
use vibeos_fpga.Common.Bitmap.{bit, bit-lt}
use vibeos_fpga.Fs.{Fs, Block, data_block, data_payload}
use vibeos_fpga.Fs.Blocks.Invariant.{IsFs, IsFree}
use vibeos_fpga.Fs.Blocks.Space.{
  free_blocks, Grown, Taken, balloc-Taken, with_disk, with_disk-IsFs, free_blocks-with_disk,
}
use vibeos_fpga.Fs.Files.{payload_of, write_chunk, store_loop, store_blocks, load_loop}
use vibeos_fpga.Fs.Files.Rounds.{
  Reads, load_loop_end, load_loop_round, chunk_disk, write_chunk-with_disk, write_chunk-Chained,
}
use vibeos_fpga.Common.{
  ℕ, zero, suc, ◌*◌, ◌≤◌, ◌≡◌, ◌≢◌, refl, sym, ◌∙◌, some, List, [], ◌∷◌, arith, length, take, drop,
  ne→==, length-drop,
}

-- The blocks that were written behind the block `prev`, from `s` to `s'`.
record Linked (s s' : Fs) (prev : ℕ) (pay bytes : List ℕ) : Type 0 where
  grown : Grown s s'
  keeps : (b : ℕ) → bit s.block_map b ≡ 1 → b ≢ prev → s'.disk b ≡ s.disk b
  next : ℕ
  link : s'.disk prev ≡ data_block next pay
  reads : Reads s s' next bytes

-- A round of the loop behind a block: the one in front of it is linked to it and is the next one
-- that a read goes to.
Linked-round :
    {s s1 s' : Fs} (i prev b : ℕ) (bs pay : List ℕ) (d : ℕ → Block)
    → Taken s s1 i
    → (chunk : d i ≡ data_block 0 (payload_of (take data_payload (b ∷ bs))))
    → (others : (c : ℕ) → c ≢ i → (prev ≢ 0 → c ≢ prev) → d c ≡ s1.disk c)
    → Linked
        (with_disk d s1)
        s'
        i
        (payload_of (take data_payload (b ∷ bs)))
        (drop data_payload (b ∷ bs))
    → Grown s s'
      × ((c : ℕ) → bit s.block_map c ≡ 1 → (prev ≢ 0 → c ≢ prev) → s'.disk c ≡ s.disk c)
      × Reads s s' i (b ∷ bs)
Linked-round {s} {s1} {s'} i prev b bs pay d tk chunk others l =
    let apart : (c : ℕ) → bit s.block_map c ≡ 1 → c ≢ i =
      λ c m e. absurd (ground (arith, e, m, tk.was_free)) in
    (
      record {
        valid = l.grown.valid;
        same_max = l.grown.same_max ∙ tk.grown.same_max;
        same_behind = l.grown.same_behind ∙ tk.grown.same_behind;
        marked = λ c m. l.grown.marked c (tk.grown.marked c m);
      },
      (λ c m ne.
          l.keeps c (tk.grown.marked c m) (apart c m)
          ∙ (others c (apart c m) ne ∙ tk.same_disk c (apart c m))),
      λ u same fuel le. reads_round fuel u same le,
    )
  where
    still_free : (c : ℕ) → IsFree s1.block_map c → IsFree s.block_map c
    still_free c f = elim (ℕ_discrete (bit s.block_map c) 1) [
      | yes m ↦ absurd (omega (arith, tk.grown.marked c m, f))
      | no ne ↦ omega (arith, bit-lt s.block_map c)
    ]

    reads_round :
        (fuel : ℕ) (u : Fs)
        → ((c : ℕ) → IsFree s.block_map c → u.disk c ≡ s'.disk c)
        → length (b ∷ bs) ≤ fuel
        → load_loop fuel (length (b ∷ bs)) i u ≡ some (b ∷ bs)
    reads_round zero u same le = absurd (omega arith)
    reads_round (suc fuel) u same le =
        load_loop_round fuel i l.next b bs u tk.not_zero (same i tk.was_free ∙ l.link) (
          l.reads u (λ c f. same c (still_free c f)) fuel
            (omega (arith, length-drop data_payload (b ∷ bs))))

-- The loop behind a block, with room for the bytes.
store_loop-Linked :
    {s : Fs} (fuel : ℕ) (bytes : List ℕ) (first prev : ℕ) (pay : List ℕ)
    → IsFs s
    → length bytes ≤ fuel
    → length bytes ≤ free_blocks s * data_payload
    → prev ≢ 0
    → bit s.block_map prev ≡ 1
    → s.disk prev ≡ data_block 0 pay
    → (s' : Fs) × (store_loop fuel bytes first prev s ≡ (some first, s'))
      × Linked s s' prev pay bytes
unfolding store_loop
store_loop-Linked {s} zero [] first prev pay v le room nz m e = (s, refl, nothing s prev pay v e)
  where
    nothing :
        (s : Fs) (prev : ℕ) (pay : List ℕ)
        → IsFs s
        → s.disk prev ≡ data_block 0 pay
        → Linked s s prev pay []
    nothing s prev pay v e = record {
      grown = record { valid = v; same_max = refl; same_behind = refl; marked = λ b h. h };
      keeps = λ b h ne. refl;
      next = 0;
      link = e;
      reads = λ u same fuel le. load_loop_end fuel 0 u;
    }
store_loop-Linked zero (b ∷ bs) first prev pay v le room nz m e = absurd (omega arith)
store_loop-Linked {s} (suc fuel) [] first prev pay v le room nz m e = (
  s,
  refl,
  record {
    grown = record { valid = v; same_max = refl; same_behind = refl; marked = λ b h. h };
    keeps = λ b h ne. refl;
    next = 0;
    link = e;
    reads = λ u same fuel' le'. load_loop_end fuel' 0 u;
  },
)
store_loop-Linked {s} (suc fuel) (b ∷ bs) first prev pay v le room nz m e =
    let (i, s1, got, tk) = balloc-Taken v (omega arith) in
    let bytes = b ∷ bs in
    let ne : i ≢ prev = λ h. absurd (ground (arith, h, m, tk.was_free)) in
    let ne' : prev ≢ i = λ h. ne (sym h) in
    let chunk = take data_payload bytes in
    let c = write_chunk-Chained i prev chunk pay s1 ne (λ p. tk.same_disk prev ne' ∙ e) in
    let d : ℕ → Block = chunk_disk i prev chunk s1 in
    let (s', done, l) =
      store_loop-Linked {s = with_disk d s1} fuel (drop data_payload bytes) first i
        (payload_of chunk) (with_disk-IsFs d tk.grown.valid)
        (omega (arith, length-drop data_payload bytes))
        (omega (arith, length-drop data_payload bytes, tk.one_less, free_blocks-with_disk d s1))
        tk.not_zero tk.now_used c.new_block in
    let (grown, keeps, reads) = Linked-round i prev b bs pay d tk c.new_block c.others l in
    (
      s',
      rw (got, ne→== i 0 tk.not_zero, ne→== prev 0 nz, write_chunk-with_disk i prev chunk s1) done,
      record {
        grown = grown;
        keeps = λ c p q. keeps c p (λ nz'. q);
        next = i;
        link = l.keeps prev (tk.grown.marked prev m) ne' ∙ c.link nz;
        reads = reads;
      },
    )

-- What store_file_bytes has written when it commits the entry.
pub record Written (s s' : Fs) (first : ℕ) (bytes : List ℕ) : Type 0 where
  pub grown : Grown s s'
  pub keeps : (b : ℕ) → bit s.block_map b ≡ 1 → s'.disk b ≡ s.disk b
  pub not_zero : first ≢ 0
  pub reads : Reads s s' first bytes

-- The blocks of a file, with room for its bytes.
pub store_blocks-Written :
    {s : Fs} (bytes : List ℕ)
    → IsFs s
    → 1 ≤ free_blocks s
    → length bytes ≤ free_blocks s * data_payload
    → (first : ℕ) × (s' : Fs) × (store_blocks bytes s ≡ (some first, s')) × Written s s' first bytes
unfolding store_blocks store_loop chunk_disk write_chunk
store_blocks-Written {s} [] v one room =
    let (i, s1, got, tk) = balloc-Taken v one in
    let c = write_chunk-Chained i 0 [] [] s1 tk.not_zero (λ p. absurd (p refl)) in
    (
      i,
      with_disk (chunk_disk i 0 [] s1) s1,
      rw (got, ne→== i 0 tk.not_zero) refl,
      record {
        grown = record {
          valid = with_disk-IsFs (chunk_disk i 0 [] s1) tk.grown.valid;
          same_max = tk.grown.same_max;
          same_behind = tk.grown.same_behind;
          marked = tk.grown.marked;
        };
        keeps = λ b m.
            let ne : b ≢ i = λ h. absurd (ground (arith, h, m, tk.was_free)) in
            c.others b ne (λ p. absurd (p refl)) ∙ tk.same_disk b ne;
        not_zero = tk.not_zero;
        reads = λ u same fuel le. load_loop_end fuel i u;
      },
    )
store_blocks-Written {s} (b ∷ bs) v one room =
    let (i, s1, got, tk) = balloc-Taken v one in
    let bytes = b ∷ bs in
    let chunk = take data_payload bytes in
    let c = write_chunk-Chained i 0 chunk [] s1 tk.not_zero (λ p. absurd (p refl)) in
    let d : ℕ → Block = chunk_disk i 0 chunk s1 in
    let (s', done, l) =
      store_loop-Linked {s = with_disk d s1} (length bs) (drop data_payload bytes) i i
        (payload_of chunk) (with_disk-IsFs d tk.grown.valid)
        (omega (arith, length-drop data_payload bytes))
        (omega (arith, length-drop data_payload bytes, tk.one_less, free_blocks-with_disk d s1))
        tk.not_zero tk.now_used c.new_block in
    let (grown, keeps, reads) = Linked-round i 0 b bs [] d tk c.new_block c.others l in
    (
      i,
      s',
      rw (got, ne→== i 0 tk.not_zero, write_chunk-with_disk i 0 chunk s1) done,
      record {
        grown = grown;
        keeps = λ e m. keeps e m (λ p. absurd (p refl));
        not_zero = tk.not_zero;
        reads = reads;
      },
    )
