-- ===== src/Fs/Handles/Write.antt =====
-- vibeos/fs.c: appfs_write on an open file as its contents and a position.
use vibeos_fpga.Fs.Handles.{Fd, o_write, has, fd_write, write_bytes, appfs_reserve}
use vibeos_fpga.Fs.Handles.Reserve.{IsFd, IsMalloc, content, Reserved, appfs_reserve-Reserved}
use vibeos_fpga.Fs.Handles.Splice.{splice, take-splice, length-splice, overwrite-splice}
use vibeos_fpga.Common.{
  ℕ, ◌+◌, ◌^◌, ◌≤◌, max, ◌≡◌, refl, ◌∙◌, ap, ap₂, Bool, true, false, ◌⊎◌, inl, inr, Option, some,
  List, ◌>>=◌, u32, arith, length, Bool-cases,
}

-- A file at a position: what an operation that succeeds makes of the contents and the position.
pub record Now (old fd : Fd) (text : List ℕ) (at : ℕ) : Type 0 where
  pub valid : IsFd fd
  pub same_content : content fd ≡ text
  pub same_pos : fd.pos ≡ at
  pub same_flags : fd.flags ≡ old.flags

write_bytes-Now :
    (bytes : List ℕ) {fd : Fd}
    → IsFd fd
    → fd.pos + length bytes ≤ fd.cap
    → (fd' : Fd) × (write_bytes bytes (true, fd) ≡ some (true, fd'))
      × Now fd fd' (splice fd.pos bytes (content fd)) (fd.pos + length bytes)
unfolding write_bytes content
write_bytes-Now bytes {fd} v room =
    let fits : fd.pos + length bytes ≤ length fd.buf = omega (arith, v.whole) in
    let pos' : u32 (fd.pos + length bytes) ≡ fd.pos + length bytes = omega (arith, v.cap_lt) in
    (
      record fd {
        buf = splice fd.pos bytes fd.buf;
        pos = fd.pos + length bytes;
        size = max fd.size (fd.pos + length bytes);
      },
      rw (overwrite-splice fd.pos bytes fd.buf fits, pos') refl,
      record {
        valid = record {
          whole = length-splice fd.pos bytes fd.buf fits ∙ v.whole;
          size_le = omega (arith, v.size_le);
          pos_le = omega arith;
          cap_lt = v.cap_lt;
        };
        same_content =
            take-splice fd.pos bytes fd.buf fd.size (max fd.size (fd.pos + length bytes)) refl
              v.pos_le fits;
        same_pos = refl;
        same_flags = refl;
      },
    )

-- The descriptor may have been given a larger buffer first.
pub Now-of :
    {fd fd1 fd' : Fd} {text text1 : List ℕ} {at at1 : ℕ}
    → fd1.flags ≡ fd.flags
    → text1 ≡ text
    → at1 ≡ at
    → Now fd1 fd' text1 at1
    → Now fd fd' text at
Now-of f e e' n = record {
  valid = n.valid;
  same_content = n.same_content ∙ e;
  same_pos = n.same_pos ∙ e';
  same_flags = n.same_flags ∙ f;
}

write-Reserved :
    (bytes : List ℕ) {fd fd1 : Fd}
    → Reserved (fd.pos + length bytes) fd fd1
    → (fd' : Fd) × (write_bytes bytes (true, fd1) ≡ some (true, fd'))
      × Now fd fd' (splice fd.pos bytes (content fd)) (fd.pos + length bytes)
write-Reserved bytes {fd} {fd1} r =
    let (fd', w, n) = write_bytes-Now bytes r.valid (omega (arith, r.room, r.same_pos)) in
    (
      fd',
      w,
      Now-of r.same_flags (ap₂ (λ (p : ℕ) (t : List ℕ). splice p bytes t) r.same_pos r.same_content)
          (ap (λ (p : ℕ). p + length bytes) r.same_pos) n,
    )

fd_write-reserve :
    (malloc : ℕ → Option (List ℕ)) (bytes : List ℕ) (fd : Fd)
    → has o_write fd.flags ≡ true
    → fd.pos + length bytes ≤ 2 ^ 31
    → fd_write malloc bytes fd
      ≡ (appfs_reserve malloc (fd.pos + length bytes) fd >>= write_bytes bytes)
unfolding fd_write
fd_write-reserve malloc bytes fd e small =
    let need : u32 (fd.pos + length bytes) ≡ fd.pos + length bytes = omega arith in
    rw (e, need) refl

-- appfs_write at a position from which the bytes end at 2^31 at most never leaves the buffer: it
-- refuses and leaves the file, or it splices the bytes into the contents at the position, moves the
-- position behind them, and keeps the descriptor well-formed.
pub fd_write-splice :
    (malloc : ℕ → Option (List ℕ)) (bytes : List ℕ) {fd : Fd}
    → IsMalloc malloc
    → IsFd fd
    → fd.pos + length bytes ≤ 2 ^ 31
    → (fd_write malloc bytes fd ≡ some (false, fd))
      ⊎ ((fd' : Fd) × (fd_write malloc bytes fd ≡ some (true, fd'))
          × Now fd fd' (splice fd.pos bytes (content fd)) (fd.pos + length bytes))
unfolding fd_write write_bytes
fd_write-splice malloc bytes {fd} m v small = elim (Bool-cases (has o_write fd.flags)) [
  | inr e ↦ inl (rw (e, fd_write) refl)
  | inl e ↦
      let step = fd_write-reserve malloc bytes fd e small in
      elim (appfs_reserve-Reserved malloc (fd.pos + length bytes) m v small) [
        | inl (f, out) ↦ inl (step ∙ ap (λ (r : Option (Bool × Fd)). r >>= write_bytes bytes) f)
        | inr (fd1, f, r) ↦
            let (fd', w, n) = write-Reserved bytes r in
            inr (fd', step ∙ (ap (λ (o : Option (Bool × Fd)). o >>= write_bytes bytes) f ∙ w), n)
      ]
]
