-- ===== src/Fs/Handles/Read.antt =====
-- vibeos/fs.c: appfs_read, and appfs_seek within the contents.
use mathlib.Core.Option.{some-injective}
use vibeos_fpga.Fs.Handles.{Fd, o_read, has, fd_read, fd_write, fd_seek, seek_to, seek_base}
use vibeos_fpga.Fs.Handles.Reserve.{IsFd, IsMalloc, content}
use vibeos_fpga.Fs.Handles.Splice.{splice}
use vibeos_fpga.Fs.Handles.Write.{Now, fd_write-splice}
use vibeos_fpga.Common.{
  ℕ, zero, suc, ◌+◌, ◌-◌, ◌^◌, ◌≤◌, ◌<◌, min, ◌≡◌, refl, sym, ◌∙◌, ap, Bool, true, false, inl, inr,
  Option, some, List, [], ◌∷◌, ◌++◌, leb, u32, add32, arith, length, take, drop, Bool-cases, leb→le,
  length-take,
}

take-min : (n m : ℕ) (xs : List ℕ) → take (min n m) xs ≡ take n (take m xs)
take-min zero m xs = let same : min 0 m ≡ 0 = omega arith in rw (same) refl
take-min (suc n) zero xs = let same : min (suc n) 0 ≡ 0 = omega arith in rw (same) refl
take-min (suc n) (suc m) [] =
    let same : min (suc n) (suc m) ≡ suc (min n m) = omega arith in rw (same) refl
take-min (suc n) (suc m) (x ∷ xs) =
    let same : min (suc n) (suc m) ≡ suc (min n m) = omega arith in
    rw (same) (ap (λ (t : List ℕ). x ∷ t) (take-min n m xs))

drop-take : (n m : ℕ) (xs : List ℕ) → drop n (take m xs) ≡ take (m - n) (drop n xs)
drop-take zero m xs = let same : m - 0 ≡ m = omega arith in rw (same) refl
drop-take (suc n) zero xs = let same : 0 - suc n ≡ 0 = omega arith in rw (same) refl
drop-take (suc n) (suc m) [] = take_nil (suc m - suc n)
  where
    take_nil : (k : ℕ) → [] ≡ take {A = ℕ} k []
    take_nil zero = refl
    take_nil (suc k) = refl
drop-take (suc n) (suc m) (x ∷ xs) =
    let same : suc m - suc n ≡ m - n = omega arith in rw (same) (drop-take n m xs)

-- appfs_read of a file that is open for reading gives the next bytes of the contents, as many as it
-- was asked for or as there are, moves the position behind them and keeps the contents.
pub fd_read-content :
    (count : ℕ) {fd : Fd}
    → IsFd fd
    → has o_read fd.flags ≡ true
    → (fd' : Fd) × (fd_read count fd ≡ (some (take count (drop fd.pos (content fd))), fd'))
      × Now fd fd' (content fd) (fd.pos + min count (fd.size - fd.pos))
unfolding fd_read content
fd_read-content count {fd} v r =
    let chunk : ℕ = min count (fd.size - fd.pos) in
    let text : take chunk (drop fd.pos fd.buf) ≡ take count (drop fd.pos (take fd.size fd.buf)) =
      take-min count (fd.size - fd.pos) (drop fd.pos fd.buf)
      ∙ ap (take count) (sym (drop-take fd.pos fd.size fd.buf)) in
    elim (Bool-cases (leb fd.size fd.pos)) [
      | inl e ↦
          let none_left : chunk ≡ 0 = omega (arith, leb→le _ _ e) in
          let at : fd.pos + chunk ≡ fd.pos = omega arith in
          (
            fd,
            rw (r, e, ← text, none_left, fd_read) refl,
            record {
              valid = v;
              same_content = refl;
              same_pos = omega (arith, none_left);
              same_flags = refl;
            },
          )
      | inr e ↦
          let pos' : u32 (fd.pos + chunk) ≡ fd.pos + chunk =
            omega (arith, v.size_le, v.cap_lt, v.pos_le) in
          (
            record fd { pos = fd.pos + chunk },
            rw (r, e, ← text, pos', fd_read) refl,
            record {
              valid = record {
                whole = v.whole;
                size_le = v.size_le;
                pos_le = omega (arith, v.pos_le);
                cap_lt = v.cap_lt;
              };
              same_content = refl;
              same_pos = refl;
              same_flags = refl;
            },
          )
    ]

-- A seek within the contents.
fd_seek_within :
    (malloc : ℕ → Option (List ℕ)) (at : ℕ) {fd : Fd}
    → IsFd fd
    → at ≤ fd.size
    → at < 2 ^ 31
    → fd_seek malloc at 0 fd ≡ some (some at, record fd { pos = at })
unfolding fd_seek seek_base seek_to
fd_seek_within malloc at {fd} v le lt =
    let same : add32 0 at ≡ at = omega arith in
    let in_file : leb at fd.size ≡ true = ground arith in
    let positive : leb (2 ^ 31) at ≡ false = ground arith in rw (same, positive, in_file) refl

seek-IsFd : (at : ℕ) {fd : Fd} → IsFd fd → at ≤ fd.size → IsFd (record fd { pos = at })
seek-IsFd at v le = record { whole = v.whole; size_le = v.size_le; pos_le = le; cap_lt = v.cap_lt }

take-all_of : (xs ys : List ℕ) → take (length xs) (xs ++ ys) ≡ xs
take-all_of [] ys = refl
take-all_of (x ∷ xs) ys = ap (λ (t : List ℕ). x ∷ t) (take-all_of xs ys)

-- The bytes that were spliced in are what stands at their position.
read_splice :
    (at : ℕ) (bytes text : List ℕ)
    → at ≤ length text
    → take (length bytes) (drop at (splice at bytes text)) ≡ bytes
unfolding splice
read_splice zero bytes text le = take-all_of bytes (drop (0 + length bytes) text)
read_splice (suc at) bytes [] le = absurd (omega arith)
read_splice (suc at) bytes (x ∷ text) le =
    let same : suc at + length bytes ≡ suc (at + length bytes) = omega arith in
    rw (same) (read_splice at bytes text (omega arith))

length-content : {fd : Fd} → IsFd fd → length (content fd) ≡ fd.size
unfolding content
length-content {fd} v = omega (arith, length-take fd.size fd.buf, v.whole, v.size_le)

-- A file that is open for reading too, at a position below 2^31: after a write that succeeds, and
-- whose bytes end at 2^31 at most, a seek back to the position succeeds, and a read of as many bytes
-- gives the bytes that were written.
pub fd_read-fd_write :
    (malloc : ℕ → Option (List ℕ)) (bytes : List ℕ) {fd fd' : Fd}
    → IsMalloc malloc
    → IsFd fd
    → has o_read fd.flags ≡ true
    → fd.pos + length bytes ≤ 2 ^ 31
    → fd.pos < 2 ^ 31
    → fd_write malloc bytes fd ≡ some (true, fd')
    → (back : Fd) × (fd_seek malloc fd.pos 0 fd' ≡ some (some fd.pos, back))
      × ((fd_read (length bytes) back).0 ≡ some bytes)
unfolding content
fd_read-fd_write malloc bytes {fd} {fd'} m v r small lt e =
    elim (fd_write-splice malloc bytes m v small) [
      | inl f ↦ absurd (cc)
      | inr (fd1, f, n) ↦
          let same : fd1 ≡ fd' = ap (λ (p : Bool × Fd). p.1) (some-injective _ _ (sym f ∙ e)) in
          read_back fd1 n same
    ]
  where
    read_back :
        (fd1 : Fd)
        → Now fd fd1 (splice fd.pos bytes (content fd)) (fd.pos + length bytes)
        → fd1 ≡ fd'
        → (back : Fd) × (fd_seek malloc fd.pos 0 fd' ≡ some (some fd.pos, back))
          × ((fd_read (length bytes) back).0 ≡ some bytes)
    read_back fd1 n same =
        let le : fd.pos ≤ fd1.size = omega (arith, n.valid.pos_le, n.same_pos) in
        let (after, got, now) =
          fd_read-content (length bytes) (seek-IsFd fd.pos n.valid le) (rw (n.same_flags) r) in
        (
          record fd1 { pos = fd.pos },
          rw (← same) (fd_seek_within malloc fd.pos n.valid le lt),
          rw (got) (
              rw (n.same_content) (
                ap some (
                  read_splice fd.pos bytes (content fd)
                    (omega (arith, v.pos_le, length-content v))))),
        )
