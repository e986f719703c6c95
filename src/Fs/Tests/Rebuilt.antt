-- ===== src/Fs/Tests/Rebuilt.antt =====
-- vibeos/fs.c: the rebuild of the map on the disk with a file of one block.
use native.Mathlib.Decide.{ℕ_discrete}
use vibeos_fpga.Common.Bitmap.{bit}
use mathlib.Core.Option.{some-injective}
use vibeos_fpga.Fs.{Entry, Dir, dir_block, data_block, other, as_dir, view, empty_entry, next_of}
use vibeos_fpga.Fs.Blocks.{fs_rebuild_alloc_state}
use vibeos_fpga.Fs.Blocks.Rebuild.{IsSized}
use vibeos_fpga.Fs.Blocks.Trees.{IsTree}
use vibeos_fpga.Fs.Blocks.Reach.{file, top, fs_rebuild_alloc_state-Needed}
use vibeos_fpga.Fs.Files.{payload_of}
use vibeos_fpga.Fs.Tests.Examples as Disk
use vibeos_fpga.Common.{
  ℕ, zero, suc, ◌≡◌, ◌≢◌, refl, sym, ◌∙◌, ap, inl, inr, none, some, [], ◌∷◌, ◌++◌, ◌==◌,
  if◌then◌else◌, arith, get_or, replicate, Bool-cases, ne→==,
}

small-IsSized : IsSized Disk.small
small-IsSized = record { eights = refl; large = omega arith }

free_slots :
    (n m j : ℕ)
    → get_or (replicate n empty_entry ++ replicate m empty_entry) j empty_entry ≡ empty_entry
free_slots zero zero j = refl
free_slots zero (suc m) zero = refl
free_slots zero (suc m) (suc j) = free_slots zero m j
free_slots (suc n) m zero = refl
free_slots (suc n) m (suc j) = free_slots n m j

other_block :
    (d : ℕ) → as_dir (if d == 60 then data_block 0 (payload_of (5 ∷ [])) else other []) ≡ none
other_block d = elim (Bool-cases (d == 60)) [ inl e ↦ rw (e) refl | inr e ↦ rw (e) refl ]

-- The root is the only directory.
only_root : (d : ℕ) (db : Dir) → Disk.small.disk d ≡ dir_block db → (d ≡ 1) × (db ≡ Disk.top)
only_root d db at = elim (ℕ_discrete d 1) [
  | yes e ↦ (e, some-injective _ _ (ap as_dir (sym at ∙ ap Disk.small.disk e)))
  | no ne ↦
      let no_dir : as_dir (Disk.small.disk d) ≡ none = rw (ne→== d 1 ne) (other_block d) in
      let h : none ≡ some db = sym no_dir ∙ ap as_dir at in absurd (cc)
]

abbrev slot : ℕ → Entry
slot j = get_or (view Disk.small Disk.top) j empty_entry

-- The only entry in use is the file.
slot_cases : (j : ℕ) → ((slot j).type ≡ 0) × ((slot j).bno ≢ 1)
slot_cases zero = (refl, λ e. absurd (omega arith))
slot_cases (suc j) =
    let e : slot (suc j) ≡ empty_entry = free_slots 101 18 j in
    (ap (λ (x : Entry). x.type) e, rw (e) (λ h. absurd (omega arith)))

slot_of :
    (db : Dir) (j : ℕ)
    → db ≡ Disk.top
    → ((get_or (view Disk.small db) j empty_entry).type ≡ 0)
      × ((get_or (view Disk.small db) j empty_entry).bno ≢ 1)
slot_of db j e = rw (e) (slot_cases j)

small-IsTree : IsTree Disk.small (λ d. 0)
small-IsTree = record {
  top = omega arith;
  lower = λ d db j at lt used is_dir sub.
      let q = (slot_of db j (only_root d db at).1).0 in absurd (ground (arith, q, is_dir));
  files_apart = λ d db j at lt used plain db' sub.
      (slot_of db j (only_root d db at).1).1 ((only_root _ db' sub).0);
  links_apart =
      λ c db r at. absurd (omega (arith, r.0, (only_root (next_of (Disk.small.disk c)) db at).0));
}

fs_rebuild_alloc_state-Needed_example : bit (fs_rebuild_alloc_state Disk.small).block_map 60 ≡ 1
fs_rebuild_alloc_state-Needed_example =
    fs_rebuild_alloc_state-Needed (λ d. 0) 60 small-IsTree small-IsSized (Disk.top, refl)
      (file 1 Disk.top 0 60 top refl (omega arith) refl refl refl) (omega arith, omega arith)
