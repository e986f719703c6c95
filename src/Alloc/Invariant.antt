-- ===== src/Alloc/Invariant.antt =====
-- The well-formedness of the heap of alloc.c, relative to the list of blocks that are live.
use mathlib.Core.Path.{subst}
use vibeos_fpga.Common.{
  ℕ, ◌+◌, ◌*◌, ◌%◌, ◌^◌, ◌≤◌, ◌<◌, ◌≡◌, ◌≢◌, sym, ◌∙◌, ◌⊎◌, List, [], ◌∷◌, ◌++◌, ◌==◌,
  if◌then◌else◌, arith, length,
}
use vibeos_fpga.Common.Bitmap.{bit, bit-lt}
use vibeos_fpga.Alloc.{
  Heap, alloc_magic, first_page, last_page, header_of_page, claim, release, write_header, set_pages,
  clear_pages, irq_save, irq_restore,
}
use vibeos_fpga.Alloc.Pages.{inside, IsFreeRun, bit-set_pages, bit-clear_pages}

-- A live block: the run of pages that malloc took, and the size that was asked for.
pub record Block : Type 0 where
  pub page : ℕ
  pub npages : ℕ
  pub size : ℕ

-- How many of the blocks hold page `i`.
abbrev pub cover : List Block → ℕ → ℕ
cover [] i = 0
cover (b ∷ bs) i = inside b.page b.npages i + cover bs i

abbrev pub header_of : ℕ → ℕ → ℕ
header_of heap_start page = heap_start + page * 4096

-- The block lies within the pages `first` to `last`, and its header is in place.
abbrev pub HasHeader : ℕ → ℕ → ℕ → (ℕ → ℕ) → Block → Type 0
HasHeader start first last memory b =
    (0 < b.npages)
    × (first ≤ b.page)
    × (b.page + b.npages ≤ last)
    × (memory (header_of start b.page) ≡ alloc_magic)
    × (memory (header_of start b.page + 4) ≡ b.npages)
    × (memory (header_of start b.page + 8) ≡ b.size)

abbrev pub HaveHeaders : ℕ → ℕ → ℕ → (ℕ → ℕ) → List Block → Type 0
HaveHeaders start first last memory [] = Unit {0}
HaveHeaders start first last memory (b ∷ bs) =
    HasHeader start first last memory b × HaveHeaders start first last memory bs

-- Where the pages lie.
pub record HasLayout (h : Heap) : Type 0 where
  pub aligned : h.heap_start % 4096 ≡ 0
  pub begins : h.alloc_start ≡ h.heap_start + first_page h * 4096
  pub ends : h.alloc_end ≡ h.heap_start + (first_page h + h.alloc_pages) * 4096
  pub below : h.alloc_end < 2 ^ 32
  pub not_empty : 0 < h.alloc_pages
  pub has_bits : first_page h + h.alloc_pages ≤ 8 * length h.bitmap

-- Every page of the allocator's is in use just as often as live blocks hold it, plus `kept i` for a
-- page that was reserved. A bit is 0 or 1, so no two live blocks share a page.
pub record IsHeap (h : Heap) (kept : ℕ → ℕ) (blocks : List Block) : Type 0 where
  pub layout : HasLayout h
  pub headers :
      HaveHeaders h.heap_start (first_page h) (first_page h + h.alloc_pages) h.memory blocks
  pub accounted :
      (i : ℕ)
      → first_page h ≤ i
      → i < first_page h + h.alloc_pages
      → bit h.bitmap i ≡ cover blocks i + kept i

pub last_page_lem : {h : Heap} → HasLayout h → last_page h ≡ first_page h + h.alloc_pages
unfolding last_page
last_page_lem v = omega arith

pub header_of_page_lem :
    (h : Heap) (page : ℕ)
    → HasLayout h
    → page < first_page h + h.alloc_pages
    → header_of_page h page ≡ header_of h.heap_start page
unfolding header_of_page
header_of_page_lem h page v lt = omega arith

-- The words of a header, and the words elsewhere.
pub write_header-words :
    (m : ℕ → ℕ) (hdr a b c : ℕ)
    → hdr + 16 ≤ 2 ^ 32
    → (write_header m hdr a b c hdr ≡ a)
      × (write_header m hdr a b c (hdr + 4) ≡ b)
      × (write_header m hdr a b c (hdr + 8) ≡ c)
unfolding write_header
write_header-words m hdr a b c h = (ground arith, ground arith, ground arith)

pub write_header-elsewhere :
    (m : ℕ → ℕ) (hdr a b c x : ℕ)
    → hdr + 16 ≤ 2 ^ 32
    → (x < hdr) ⊎ (hdr + 12 < x)
    → write_header m hdr a b c x ≡ m x
unfolding write_header
write_header-elsewhere m hdr a b c x h away = ground arith

-- A header written at a page that no block begins at leaves the blocks' headers.
pub HaveHeaders-write :
    (start first last : ℕ) (m : ℕ → ℕ) (page a b c : ℕ) (bs : List Block)
    → header_of start page + 16 ≤ 2 ^ 32
    → cover bs page ≡ 0
    → HaveHeaders start first last m bs
    → HaveHeaders start first last (write_header m (header_of start page) a b c) bs
HaveHeaders-write start first last m page a b c [] h none_here hs = tt
HaveHeaders-write start first last m page a b c (x ∷ bs) h none_here (hx, hs) = (
  (
    hx.0,
    hx.1,
    hx.2,
    write_header-elsewhere m (header_of start page) a b c (header_of start x.page) h away ∙ hx.3,
    write_header-elsewhere m (header_of start page) a b c (header_of start x.page + 4) h away4
        ∙ hx.4,
    write_header-elsewhere m (header_of start page) a b c (header_of start x.page + 8) h away8
        ∙ hx.5,
  ),
  HaveHeaders-write start first last m page a b c bs h (omega arith) hs,
)
  where
    other : x.page ≢ page
    other = ground (arith, hx.0)

    away :
        (header_of start x.page < header_of start page)
        ⊎ (header_of start page + 12 < header_of start x.page)
    away = grind (arith, other)

    away4 :
        (header_of start x.page + 4 < header_of start page)
        ⊎ (header_of start page + 12 < header_of start x.page + 4)
    away4 = grind (arith, other)

    away8 :
        (header_of start x.page + 8 < header_of start page)
        ⊎ (header_of start page + 12 < header_of start x.page + 8)
    away8 = grind (arith, other)

abbrev pub block : ℕ → ℕ → ℕ → Block
block page npages size = record { page = page; npages = npages; size = size }

-- To claim a free run adds a block.
pub claim-IsHeap :
    (page npages size : ℕ) {h : Heap} {kept : ℕ → ℕ} {blocks : List Block}
    → IsHeap h kept blocks
    → 0 < npages
    → first_page h ≤ page
    → page + npages ≤ first_page h + h.alloc_pages
    → IsFreeRun h.bitmap page npages
    → IsHeap (claim page npages size h) kept (block page npages size ∷ blocks)
unfolding claim first_page
claim-IsHeap page npages size {h} {kept} {blocks} v pos from to run = record {
  layout = record {
    aligned = v.layout.aligned;
    begins = v.layout.begins;
    ends = v.layout.ends;
    below = v.layout.below;
    not_empty = v.layout.not_empty;
    has_bits = omega (arith, v.layout, changed);
  };
  headers = (
    (pos, from, to, rw hdr written.0, rw hdr written.1, rw hdr written.2),
    subst
        (λ (a : ℕ).
          HaveHeaders h.heap_start (first_page h) (first_page h + h.alloc_pages)
            (write_header h.memory a alloc_magic npages size) blocks)
        (sym hdr)
        (HaveHeaders-write h.heap_start (first_page h) (first_page h + h.alloc_pages) h.memory page
          alloc_magic npages size blocks room
          (omega (arith, v.accounted page from (omega arith), run page (omega arith) (omega arith)))
          v.headers),
  );
  accounted = λ i p q. rw (changed.1 i) (ground (arith, v.accounted i p q, run i));
}
  where
    changed :
        (length (set_pages h.bitmap page npages) ≡ length h.bitmap)
        × ((i : ℕ)
            → bit (set_pages h.bitmap page npages) i
              ≡ (if inside page npages i == 1 then 1 else bit h.bitmap i))
    changed = bit-set_pages h.bitmap page npages (omega (arith, v.layout), omega (arith, v.layout))

    hdr : header_of_page h page ≡ header_of h.heap_start page
    hdr = header_of_page_lem h page v.layout (omega arith)

    room : header_of h.heap_start page + 16 ≤ 2 ^ 32
    room = omega (arith, v.layout)

    written :
        (write_header h.memory
            (header_of h.heap_start page)
            alloc_magic
            npages
            size
            (header_of h.heap_start page)
          ≡ alloc_magic)
        × (write_header h.memory
              (header_of h.heap_start page)
              alloc_magic
              npages
              size
              (header_of h.heap_start page + 4)
            ≡ npages)
        × (write_header h.memory
              (header_of h.heap_start page)
              alloc_magic
              npages
              size
              (header_of h.heap_start page + 8)
            ≡ size)
    written = write_header-words h.memory (header_of h.heap_start page) alloc_magic npages size room

pub cover-append : (xs ys : List Block) (i : ℕ) → cover (xs ++ ys) i ≡ cover xs i + cover ys i
cover-append [] ys i = omega arith
cover-append (x ∷ xs) ys i = omega (arith, cover-append xs ys i)

-- The block between `xs` and `ys` has its header, and the others have theirs.
pub HaveHeaders-split :
    (start first last : ℕ) (m : ℕ → ℕ) (xs ys : List Block) (b : Block)
    → HaveHeaders start first last m (xs ++ b ∷ ys)
    → HasHeader start first last m b × HaveHeaders start first last m (xs ++ ys)
HaveHeaders-split start first last m [] ys b hs = hs
HaveHeaders-split start first last m (x ∷ xs) ys b (hx, hs) =
    let rest = HaveHeaders-split start first last m xs ys b hs in (rest.0, (hx, rest.1))

-- To release a live block takes it out.
pub release-IsHeap :
    (xs ys : List Block) (b : Block) {h : Heap} {kept : ℕ → ℕ}
    → IsHeap h kept (xs ++ b ∷ ys)
    → IsHeap (release (header_of h.heap_start b.page) b.page b.npages h) kept (xs ++ ys)
unfolding release first_page irq_save irq_restore
release-IsHeap xs ys b {h} {kept} v = record {
  layout = record {
    aligned = v.layout.aligned;
    begins = v.layout.begins;
    ends = v.layout.ends;
    below = v.layout.below;
    not_empty = v.layout.not_empty;
    has_bits = omega (arith, v.layout, changed);
  };
  headers =
      HaveHeaders-write h.heap_start (first_page h) (first_page h + h.alloc_pages) h.memory b.page 0
        0 0 (xs ++ ys) (omega (arith, v.layout, split.0)) alone split.1;
  accounted = λ i p q. rw (changed.1 i) (
      ground (
        arith,
        v.accounted i p q,
        bit-lt h.bitmap i,
        cover-append xs ys i,
        cover-append xs (b ∷ ys) i,
      ));
}
  where
    split :
        HasHeader h.heap_start (first_page h) (first_page h + h.alloc_pages) h.memory b
        × HaveHeaders h.heap_start (first_page h) (first_page h + h.alloc_pages) h.memory (xs ++ ys)
    split =
        HaveHeaders-split h.heap_start (first_page h) (first_page h + h.alloc_pages) h.memory xs ys
          b v.headers

    changed :
        (length (clear_pages h.bitmap b.page b.npages) ≡ length h.bitmap)
        × ((i : ℕ)
            → bit (clear_pages h.bitmap b.page b.npages) i
              ≡ (if inside b.page b.npages i == 1 then 0 else bit h.bitmap i))
    changed =
        bit-clear_pages h.bitmap b.page b.npages
          (omega (arith, v.layout, split.0), omega (arith, v.layout, split.0))

    alone : cover (xs ++ ys) b.page ≡ 0
    alone = ground (
      arith,
      split.0,
      v.accounted b.page split.0.1 (omega (arith, split.0)),
      bit-lt h.bitmap b.page,
      cover-append xs ys b.page,
      cover-append xs (b ∷ ys) b.page,
    )
