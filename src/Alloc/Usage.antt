-- ===== src/Alloc/Usage.antt =====
-- mem_usage_info: what its counts mean.
use vibeos_fpga.Common.{ℕ, zero, suc, ◌+◌, ◌-◌, ◌≤◌, min, max, ◌≡◌, refl, ◌∙◌, List, [], ◌∷◌, arith}
use vibeos_fpga.Common.Sums.{total, total-ext, total-add, total-zero}
use vibeos_fpga.Common.Bitmap.{bit, bit-lt}
use vibeos_fpga.Alloc.{Heap, first_page, count_used, mem_usage_info}
use vibeos_fpga.Alloc.Pages.{inside, page_is_used_lem}
use vibeos_fpga.Alloc.Invariant.{Block, IsHeap, HaveHeaders, cover}

total-inside :
    (p n page left : ℕ) → total (inside p n) page left ≡ min (p + n) (page + left) - max p page
unfolding total
total-inside p n page zero = omega arith
total-inside p n page (suc left) = ground (arith, total-inside p n (suc page) left)

count_used-total :
    (bm : List ℕ) (page left : ℕ) → count_used bm page left ≡ total (bit bm) page left
unfolding count_used total
count_used-total bm page zero = refl
count_used-total bm page (suc left) =
    ground (arith, page_is_used_lem bm page, bit-lt bm page, count_used-total bm (suc page) left)

count_used-le : (bm : List ℕ) (page left : ℕ) → count_used bm page left ≤ left
unfolding count_used
count_used-le bm page zero = omega arith
count_used-le bm page (suc left) = ground (arith, count_used-le bm (suc page) left)

-- The pages of the live blocks.
abbrev pub pages_of : List Block → ℕ
pages_of [] = 0
pages_of (b ∷ bs) = b.npages + pages_of bs

total-cover :
    (start first n : ℕ) (m : ℕ → ℕ) (bs : List Block)
    → HaveHeaders start first (first + n) m bs
    → total (cover bs) first n ≡ pages_of bs
total-cover start first n m [] hs = total-zero first n
total-cover start first n m (b ∷ bs) (hb, hs) = omega (
  arith,
  total-add (inside b.page b.npages) (cover bs) first n,
  total-inside b.page b.npages first n,
  total-cover start first n m bs hs,
  hb.1,
  hb.2,
)

-- In a well-formed heap with no page kept back, the pages reported as used are those of the live
-- blocks, and those reported as free are all others.
pub mem_usage_info_lem :
    (h : Heap) (blocks : List Block)
    → IsHeap h (λ _. 0) blocks
    → let (all, used, unused, _, _) = mem_usage_info h in
      (all ≡ h.alloc_pages) × (used ≡ pages_of blocks) × (used + unused ≡ all)
unfolding mem_usage_info
mem_usage_info_lem h blocks v =
    (refl, used_lem, omega (arith, count_used-le h.bitmap (first_page h) h.alloc_pages, v.layout))
  where
    used_lem : count_used h.bitmap (first_page h) h.alloc_pages ≡ pages_of blocks
    used_lem =
        count_used-total h.bitmap (first_page h) h.alloc_pages
        ∙ total-ext (bit h.bitmap) (cover blocks) (first_page h) h.alloc_pages
            (λ i p q. omega (arith, v.accounted i p q))
        ∙ total-cover h.heap_start (first_page h) h.alloc_pages h.memory blocks v.headers
