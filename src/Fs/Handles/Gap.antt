-- ===== src/Fs/Handles/Gap.antt =====
-- vibeos/fs.c: appfs_seek behind the end: the gap that it fills with zeros.
use vibeos_fpga.Fs.Handles.{Fd, seek_far}
use vibeos_fpga.Fs.Handles.Reserve.{content, Reserved}
use vibeos_fpga.Fs.Handles.Splice.{splice, take-splice, length-splice, overwrite-splice}
use vibeos_fpga.Fs.Handles.Write.{Now}
use mathlib.Core.List.{append-nil}
use vibeos_fpga.Common.{
  ℕ, zero, suc, ◌+◌, ◌-◌, ◌≤◌, max, ◌≡◌, refl, ◌∙◌, ap, ap₂, true, some, List, [], ◌∷◌, ◌++◌, arith,
  length, take, drop, replicate, length-replicate, length-take,
}

take_whole : (xs : List ℕ) (n : ℕ) → n ≡ length xs → take n xs ≡ xs
take_whole [] zero e = refl
take_whole [] (suc n) e = refl
take_whole (x ∷ xs) zero e = absurd (omega arith)
take_whole (x ∷ xs) (suc n) e = ap (λ (t : List ℕ). x ∷ t) (take_whole xs n (omega arith))

drop_whole : (xs : List ℕ) (n : ℕ) → length xs ≤ n → drop n xs ≡ []
drop_whole [] zero le = refl
drop_whole [] (suc n) le = refl
drop_whole (x ∷ xs) zero le = absurd (omega arith)
drop_whole (x ∷ xs) (suc n) le = drop_whole xs n (omega arith)

-- Bytes that are spliced in at the end are appended.
splice_end : (bytes text : List ℕ) (n : ℕ) → n ≡ length text → splice n bytes text ≡ text ++ bytes
unfolding splice
splice_end bytes text n e =
    rw (take_whole text n e, drop_whole text (n + length bytes) (omega arith), append-nil bytes)
      refl

-- A seek behind the end, once there is room.
pub seek_far-Now :
    (next : ℕ) {fd fd1 : Fd}
    → Reserved next fd fd1
    → fd.size ≤ next
    → (fd' : Fd) × (seek_far next (true, fd1) ≡ some (some next, fd'))
      × Now fd fd' (content fd ++ replicate (next - fd.size) 0) next
unfolding seek_far content
seek_far-Now next {fd} {fd1} r le =
    let zeros : List ℕ = replicate (next - fd1.size) 0 in
    let len : length zeros ≡ next - fd1.size = length-replicate (next - fd1.size) 0 in
    let fits : fd1.size + length zeros ≤ length fd1.buf =
      omega (arith, r.valid.whole, r.room, r.same_size, len) in
    let text_len : fd1.size ≡ length (content fd1) =
      omega (arith, length-take fd1.size fd1.buf, r.valid.whole, r.valid.size_le) in
    let all : next ≡ max fd1.size (fd1.size + length zeros) = omega (arith, r.same_size, len) in
    (
      record fd1 { buf = splice fd1.size zeros fd1.buf; size = next; pos = next },
      rw (overwrite-splice fd1.size zeros fd1.buf fits) refl,
      record {
        valid = record {
          whole = length-splice fd1.size zeros fd1.buf fits ∙ r.valid.whole;
          size_le = r.room;
          pos_le = omega arith;
          cap_lt = r.valid.cap_lt;
        };
        same_content =
            take-splice fd1.size zeros fd1.buf fd1.size next all (omega arith) fits
            ∙ (splice_end zeros (content fd1) fd1.size text_len
                ∙ ap₂ (λ (t : List ℕ) (n : ℕ). t ++ replicate (next - n) 0) r.same_content
                    r.same_size);
        same_pos = refl;
        same_flags = r.same_flags;
      },
    )
