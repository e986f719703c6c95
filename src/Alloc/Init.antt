-- ===== src/Alloc/Init.antt =====
-- page_init: the heap that it lays out.
use vibeos_fpga.Common.{
  ℕ, ◌+◌, ◌-◌, ◌*◌, ◌/◌, ◌%◌, ◌^◌, ◌≤◌, ◌<◌, bit_and, ◌≡◌, refl, ◌∙◌, ap, false, ◌||◌, some, List,
  [], leb, ◌==◌, add32, arith, length, replicate, for_range, for_range_inv, length-replicate,
}
use vibeos_fpga.Common.Bitmap.{bit}
use vibeos_fpga.Common.Bitmap.{bit-unmark, length-unmark}
use vibeos_fpga.Alloc.Pages.{page_clear_used_lem}
use vibeos_fpga.Common.Digits.{bit_and-low, bit_and-high}
use vibeos_fpga.Alloc.{Heap, page_base, first_page, layout, init_bitmap, page_init, page_clear_used}
use vibeos_fpga.Alloc.Invariant.{IsHeap}

-- `& ~PAGE_MASK` rounds down to a page.
pub bit_and-page_base : (a : ℕ) → a < 2 ^ 32 → bit_and a page_base ≡ a / 4096 * 4096
bit_and-page_base a h =
    bit_and-high 12 a 0xfffff ∙ ap (λ (t : ℕ). t * 4096) (bit_and-low 20 (a / 4096) ∙ omega arith)

-- The loop that clears the bits from `first` to `total`.
clear_loop :
    (bm : List ℕ) (first total : ℕ)
    → total ≤ 8 * length bm
    → first ≤ total
    → let out = for_range (total - first) first (λ page t. page_clear_used t page) bm in
      (length out ≡ length bm) × ((i : ℕ) → first ≤ i → i < total → bit out i ≡ 0)
clear_loop bm first total fits le =
    for_range_inv (λ k t. (length t ≡ length bm) × ((i : ℕ) → first ≤ i → i < k → bit t i ≡ 0))
      (λ page t. page_clear_used t page) (total - first) first total bm (omega arith)
      (λ k t p q r. (
        rw (page_clear_used_lem t k) (length-unmark t k ∙ r.0),
        λ i a b.
            rw (page_clear_used_lem t k)
              (rw (bit-unmark t k i (omega (arith, r.0))) (ground (arith, r.1 i))),
      ))
      (refl, λ i a b. absurd (omega arith))

-- A heap that the linker script allows: page-aligned, of two pages at least, below the top.
pub record IsLinked (h : Heap) : Type 0 where
  pub aligned : h.heap_start % 4096 ≡ 0
  pub two_pages : 8192 ≤ h.heap_size
  pub below : h.heap_start + h.heap_size < 2 ^ 32

module _ (h : Heap) (v : IsLinked h) where
  laid : Heap
  laid = layout h.heap_size h

  pages : ℕ
  pages = h.heap_size / 4096

  bytes : ℕ
  bytes = (pages + 7) / 8

  laid_fields :
      (laid.heap_total_pages ≡ pages)
      × (laid.bitmap_bytes ≡ bytes)
      × (laid.alloc_start ≡ h.heap_start + (bytes + 4095) / 4096 * 4096)
      × (laid.alloc_end ≡ h.heap_start + pages * 4096)
      × (laid.alloc_pages ≡ pages - (bytes + 4095) / 4096)
  unfolding laid layout pages bytes
  laid_fields = (
    refl,
    omega arith,
    rw (bit_and-page_base (add32 (add32 h.heap_start (add32 pages 7 / 8)) 4095) (omega arith))
        (omega (arith, v)),
    omega (arith, v),
    rw (bit_and-page_base (add32 (add32 h.heap_start (add32 pages 7 / 8)) 4095) (omega arith))
        (omega (arith, v)),
  )

  -- The pages that hold the bitmap itself.
  own : ℕ
  own = (bytes + 4095) / 4096

  first_page-laid : first_page laid ≡ own
  unfolding first_page own laid layout
  first_page-laid = omega (arith, v, laid_fields)

  own-lt : own < pages
  unfolding own bytes pages
  own-lt = omega (arith, v)

  bytes_enough : pages ≤ 8 * bytes
  unfolding bytes
  bytes_enough = omega arith

  -- The loop of page_init clears the bits from the first page on, and keeps the length.
  cleared :
      (length (init_bitmap laid).bitmap ≡ bytes)
      × ((i : ℕ) → own ≤ i → i < pages → bit (init_bitmap laid).bitmap i ≡ 0)
  unfolding init_bitmap
  cleared =
      rw (first_page-laid, laid_fields.0, laid_fields.1)
        (let loop =
            clear_loop (replicate bytes 255) own pages
              (omega (arith, length-replicate {A = ℕ} bytes 255, bytes_enough))
              (omega (arith, own-lt)) in
          (loop.0 ∙ length-replicate {A = ℕ} bytes 255, loop.1))

  first_page-ready : first_page (init_bitmap laid) ≡ own
  unfolding init_bitmap first_page
  first_page-ready = first_page-laid

  start-laid : laid.heap_start ≡ h.heap_start
  unfolding laid layout
  start-laid = refl

  -- The layout in plain numbers.
  placed :
      (laid.alloc_start ≡ h.heap_start + own * 4096)
      × (laid.alloc_end ≡ h.heap_start + pages * 4096)
      × (laid.alloc_pages ≡ pages - own)
      × (h.heap_start + pages * 4096 < 2 ^ 32)
  unfolding own pages
  placed = omega (arith, laid_fields, v)

  init-IsHeap : IsHeap (init_bitmap laid) (λ _. 0) []
  unfolding init_bitmap
  init-IsHeap = record {
    layout = record {
      aligned = rw start-laid v.aligned;
      begins = omega (arith, first_page-ready, start-laid, placed);
      ends = omega (arith, first_page-ready, start-laid, placed, own-lt);
      below = omega (arith, placed);
      not_empty = omega (arith, placed, own-lt);
      has_bits = omega (arith, first_page-ready, placed, own-lt, cleared.0, bytes_enough);
    };
    headers = tt;
    accounted = λ i p q.
        cleared.1 i (omega (arith, first_page-ready))
          (omega (arith, first_page-ready, placed, own-lt));
  }

-- page_init succeeds on every heap that the linker script allows, and leaves a well-formed heap
-- with no live block.
pub page_init-IsHeap :
    (h : Heap) → IsLinked h → (h' : Heap) × (page_init h ≡ some h') × IsHeap h' (λ _. 0) []
unfolding page_init laid
page_init-IsHeap h v = (
  init_bitmap (laid h v),
  rw (
      accepted (laid h v) (omega (arith, placed h v, own-lt h v))
        (omega (arith, placed h v, own-lt h v))),
  init-IsHeap h v,
)
  where
    accepted :
        (l : Heap)
        → l.alloc_start < l.alloc_end
        → 0 < l.alloc_pages
        → (leb l.alloc_end l.alloc_start || l.alloc_pages == 0) ≡ false
    accepted l a b = ground arith
