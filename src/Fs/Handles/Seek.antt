-- ===== src/Fs/Handles/Seek.antt =====
-- vibeos/fs.c: appfs_seek.
use vibeos_fpga.Fs.Handles.{Fd, o_write, has, fd_seek, seek_to, seek_far, seek_base, appfs_reserve}
use vibeos_fpga.Fs.Handles.Reserve.{IsFd, IsMalloc, content, appfs_reserve-Reserved}
use vibeos_fpga.Fs.Handles.Write.{Now}
use mathlib.Core.List.{append-nil}
use vibeos_fpga.Common.{
  ℕ, zero, suc, ◌+◌, ◌-◌, ◌^◌, ◌≤◌, ◌<◌, ◌≡◌, refl, sym, ◌∙◌, ap, Bool, true, false, ◌⊎◌, inl, inr,
  Option, none, some, List, ◌++◌, leb, ◌>>=◌, add32, arith, replicate, Bool-cases, leb→le, leb→lt,
}
use vibeos_fpga.Fs.Handles.Gap.{seek_far-Now}

-- Where appfs_seek counts from: the start, the position or the end.
pub data Origin (fd : Fd) : (whence base : ℕ) → Type 0 where
  from_start : Origin fd 0 0
  from_position : Origin fd 1 fd.pos
  from_end : Origin fd 2 fd.size

-- The position that lies at a signed 32-bit offset from a base.
abbrev pub Moved : (base offset next : ℕ) → Type 0
Moved base offset next =
    ((offset < 2 ^ 31) × (next ≡ base + offset))
    ⊎ ((2 ^ 31 ≤ offset) × (next + (2 ^ 32 - offset) ≡ base))

-- There is none: it would lie before the start, or be no positive int.
abbrev pub IsOutside : (base offset : ℕ) → Type 0
IsOutside base offset =
    ((offset < 2 ^ 31) × (2 ^ 31 ≤ base + offset)) ⊎ ((2 ^ 31 ≤ offset) × (base < 2 ^ 32 - offset))

-- Why a position behind the end is not reached.
pub data Unreachable (malloc : ℕ → Option (List ℕ)) (next : ℕ) (fd : Fd) : Type 0 where
  read_only : fd.size < next → has o_write fd.flags ≡ false → Unreachable malloc next fd
  no_memory : (c : ℕ) → fd.size < next → next ≤ c → malloc c ≡ none → Unreachable malloc next fd

-- Why a seek is refused.
pub data Refused (malloc : ℕ → Option (List ℕ)) (offset whence : ℕ) (fd : Fd) : Type 0 where
  unknown_whence : 2 < whence → Refused malloc offset whence fd
  outside :
      {base : ℕ} → Origin fd whence base → IsOutside base offset → Refused malloc offset whence fd
  unreachable :
      {base next : ℕ}
      → Origin fd whence base
      → Moved base offset next
      → Unreachable malloc next fd
      → Refused malloc offset whence fd

-- A seek that goes to a position, and fills a gap behind the end with zeros.
abbrev pub Went : (next : ℕ) → Fd → Option (Option ℕ × Fd) → Type 0
Went next fd o =
    (fd' : Fd) × (o ≡ some (some next, fd'))
    × Now fd fd' (content fd ++ replicate (next - fd.size) 0) next

abbrev pub Sought :
    (malloc : ℕ → Option (List ℕ)) (offset whence : ℕ) → Fd → Option (Option ℕ × Fd) → Type 0
Sought malloc offset whence fd o =
    ((o ≡ some (none, fd)) × Refused malloc offset whence fd)
    ⊎ ((base next : ℕ) × Origin fd whence base × Moved base offset next × Went next fd o)

-- A seek to a position within the contents.
seek_within-Went :
    (malloc : ℕ → Option (List ℕ)) (next : ℕ) {fd : Fd}
    → IsFd fd
    → next < 2 ^ 31
    → next ≤ fd.size
    → Went next fd (seek_to malloc next fd)
unfolding seek_to content
seek_within-Went malloc next {fd} v lt le =
    let gap : next - fd.size ≡ 0 = omega arith in
    (
      record fd { pos = next },
      rw (lt→leb_false next lt, le→leb next fd.size le) refl,
      record {
        valid = record { whole = v.whole; size_le = v.size_le; pos_le = le; cap_lt = v.cap_lt };
        same_content = rw (gap) (sym (append-nil (content fd)));
        same_pos = refl;
        same_flags = refl;
      },
    )
  where
    lt→leb_false : (n : ℕ) → n < 2 ^ 31 → leb (2 ^ 31) n ≡ false
    lt→leb_false n h = ground arith

    le→leb : (n m : ℕ) → n ≤ m → leb n m ≡ true
    le→leb n m h = ground arith

seek_to-Went :
    (malloc : ℕ → Option (List ℕ)) (next : ℕ) {fd : Fd}
    → IsMalloc malloc
    → IsFd fd
    → next < 2 ^ 31
    → ((seek_to malloc next fd ≡ some (none, fd)) × Unreachable malloc next fd)
      ⊎ Went next fd (seek_to malloc next fd)
unfolding seek_to seek_far
seek_to-Went malloc next {fd} m v lt = elim (Bool-cases (leb next fd.size)) [
  | inl i ↦ inr (seek_within-Went malloc next v lt (leb→le _ _ i))
  | inr i ↦
      let low : leb (2 ^ 31) next ≡ false = ground arith in
      let far : fd.size < next = leb→lt _ _ i in
      elim (Bool-cases (has o_write fd.flags)) [
        | inr w ↦ inl (rw (low, i, w, seek_to) refl, read_only far w)
        | inl w ↦
            let step : seek_to malloc next fd ≡ (appfs_reserve malloc next fd >>= seek_far next) =
              rw (low, i, w, seek_to) refl in
            elim (appfs_reserve-Reserved malloc next m v (omega arith)) [
              | inl (f, (c, le, out)) ↦ inl (
                step ∙ ap (λ (r : Option (Bool × Fd)). r >>= seek_far next) f,
                no_memory c far le out,
              )
              | inr (fd1, f, r) ↦
                  let (fd', s, n) = seek_far-Now next r (omega arith) in
                  inr (fd', step ∙ (ap (λ (o : Option (Bool × Fd)). o >>= seek_far next) f ∙ s), n)
            ]
      ]
]

seek_to-outside :
    (malloc : ℕ → Option (List ℕ)) (next : ℕ) (fd : Fd)
    → 2 ^ 31 ≤ next
    → seek_to malloc next fd ≡ some (none, fd)
unfolding seek_to
seek_to-outside malloc next fd h =
    let high : leb (2 ^ 31) next ≡ true = ground arith in rw (high) refl

seek_base-Origin :
    (whence : ℕ) {fd : Fd}
    → IsFd fd
    → ((2 < whence) × (seek_base whence fd ≡ none))
      ⊎ ((base : ℕ) × Origin fd whence base × (seek_base whence fd ≡ some base) × (base ≤ fd.size))
unfolding seek_base
seek_base-Origin zero v = inr (0, from_start, refl, omega arith)
seek_base-Origin (suc zero) v = inr (_, from_position, refl, v.pos_le)
seek_base-Origin (suc (suc zero)) v = inr (_, from_end, refl, omega arith)
seek_base-Origin (suc (suc (suc n))) v = inl (omega arith, ground arith)

-- The 32-bit sum of a base and an offset.
add32-Moved :
    (base offset : ℕ)
    → base < 2 ^ 31
    → offset < 2 ^ 32
    → (IsOutside base offset × (2 ^ 31 ≤ add32 base offset))
      ⊎ (Moved base offset (add32 base offset) × (add32 base offset < 2 ^ 31))
add32-Moved base offset b o = ground arith

-- appfs_seek by any 32-bit offset in a file shorter than 2^31 bytes never leaves the buffer and keeps
-- the descriptor well-formed. It goes to the position that lies at the signed offset from the
-- start, the position or the end, as `whence` says, keeps the contents and fills a gap behind their
-- end with zeros. It refuses, and leaves the file, only when it does not know `whence`, when the
-- position would be negative or 2^31 and more, or when the position lies behind the end and the file
-- is not open for writing or malloc has no buffer for it.
pub fd_seek-Sought :
    (malloc : ℕ → Option (List ℕ)) (offset whence : ℕ) {fd : Fd}
    → IsMalloc malloc
    → IsFd fd
    → fd.size < 2 ^ 31
    → offset < 2 ^ 32
    → Sought malloc offset whence fd (fd_seek malloc offset whence fd)
unfolding fd_seek
fd_seek-Sought malloc offset whence {fd} m v small word = elim (seek_base-Origin whence v) [
  | inl (unknown, e) ↦ rw (e, fd_seek) (inl (refl, unknown_whence unknown))
  | inr (base, from, e, le) ↦
      rw (e, fd_seek)
        (elim (add32-Moved base offset (omega arith) word) [
          | inl (out, high) ↦ inl (seek_to-outside malloc _ fd high, outside from out)
          | inr (at, low) ↦ elim (seek_to-Went malloc (add32 base offset) m v low) [
            | inl (o, why) ↦ inl (o, unreachable from at why)
            | inr went ↦ inr (base, add32 base offset, from, at, went)
          ]
        ])
]
