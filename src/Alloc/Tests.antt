-- ===== src/Alloc/Tests.antt =====
-- The allocator on a heap of four pages at 0x10000, of which the bitmap takes the first.
use mathlib.Core.Option.{some-injective}
use mathlib.Core.Path.{subst}
use vibeos_fpga.Common.{◌+◌, ◌*◌, ◌≡◌, refl, sym, ◌∙◌, some, [], ◌∷◌, arith, for_range, add32}
use vibeos_fpga.Alloc
use vibeos_fpga.Alloc.{Heap}
use vibeos_fpga.Alloc.Invariant.{IsHeap, block, Block}
use vibeos_fpga.Alloc.Init.{IsLinked, page_init-IsHeap}
use vibeos_fpga.Alloc.Malloc.{Outcome, malloc-Outcome, pointer_to, SameFrame, malloc-SameFrame}
use vibeos_fpga.Alloc.Free.{free-IsHeap, free_twice, free-SameFrame}
use vibeos_fpga.Alloc.History.{
  Reach, here, next, grants, frees, Reach-AreApart, AreApart, free-malloc,
}
use vibeos_fpga.Alloc.Usage.{mem_usage_info_lem, pages_of}
use vibeos_fpga.Common.Bitmap.{bit}

abbrev raw : Heap
raw = record {
  heap_start = 0x10000;
  heap_size = 4 * 4096;
  alloc_start = 0;
  alloc_end = 0;
  heap_total_pages = 0;
  alloc_pages = 0;
  bitmap_bytes = 0;
  bitmap = [];
  malloc_calls = 0;
  free_calls = 0;
  memory = λ _. 0;
  mstatus = 8;
}

abbrev boot : Heap
boot = record raw {
  heap_total_pages = 4;
  bitmap_bytes = 1;
  alloc_start = 0x11000;
  alloc_end = 0x14000;
  alloc_pages = 3;
  bitmap = 241 ∷ [];
}

boot_test : Alloc.page_init raw ≡ some boot
unfolding Alloc.page_init Alloc.layout Alloc.init_bitmap Alloc.first_page Alloc.page_clear_used
    Alloc.page_bit_mask for_range
boot_test = refl

raw-IsLinked : IsLinked raw
raw-IsLinked = record { aligned = refl; two_pages = omega arith; below = omega arith }

boot-IsHeap : IsHeap boot (λ _. 0) []
boot-IsHeap =
    let r = page_init-IsHeap raw raw-IsLinked in
    subst (λ (h : Heap). IsHeap h (λ _. 0) []) (some-injective _ _ (sym r.1 ∙ boot_test)) r.2

-- The heap after malloc(100).
abbrev one : Heap
one = record boot {
  bitmap = 243 ∷ [];
  malloc_calls = 1;
  memory = Alloc.write_header (λ _. 0) 0x11000 0x4d415030 1 100;
}

abbrev hundred : Block
hundred = block 1 1 100

one_test : Alloc.malloc 100 boot ≡ (0x10000 + 1 * 4096 + 16, one)
unfolding Alloc.malloc Alloc.take_pages Alloc.claim Alloc.search_pages Alloc.first_used
    Alloc.page_is_used Alloc.page_bit_mask Alloc.set_pages Alloc.page_set_used Alloc.first_page
    Alloc.last_page Alloc.pages_for_size Alloc.irq_save Alloc.irq_restore Alloc.header_of_page
    for_range
one_test = refl

granted : Reach boot [] one (hundred ∷ [])
granted = next here (grants 100 1 (omega arith) one_test)

one-IsHeap : IsHeap one (λ _. 0) (hundred ∷ [])
one-IsHeap = (Reach-AreApart (λ _. 0) granted boot-IsHeap).0

freed : Reach boot [] (Alloc.free (pointer_to one hundred) one) []
freed = next granted (frees [] [] hundred refl refl)

Reach-AreApart_example : IsHeap (Alloc.free (pointer_to one hundred) one) (λ _. 0) [] × AreApart []
Reach-AreApart_example = Reach-AreApart (λ _. 0) freed boot-IsHeap

malloc-Outcome_example : Outcome 5000 one (Alloc.malloc 5000 one) (λ _. 0) (hundred ∷ [])
malloc-Outcome_example = malloc-Outcome 5000 one (λ _. 0) (hundred ∷ []) (omega arith) one-IsHeap

free-IsHeap_example : IsHeap (Alloc.free (pointer_to one hundred) one) (λ _. 0) []
free-IsHeap_example = free-IsHeap [] [] hundred one (λ _. 0) one-IsHeap

free_twice_example :
    let h' = Alloc.free (pointer_to one hundred) one in
    Alloc.free (pointer_to one hundred) h' ≡ record h' { free_calls = add32 h'.free_calls 1 }
free_twice_example = free_twice [] [] hundred one (λ _. 0) one-IsHeap

page_init-IsHeap_example : (h : Heap) × (Alloc.page_init raw ≡ some h) × IsHeap h (λ _. 0) []
page_init-IsHeap_example = page_init-IsHeap raw raw-IsLinked

free-malloc_example : bit (Alloc.free (0x10000 + 1 * 4096 + 16) one).bitmap 2 ≡ bit boot.bitmap 2
unfolding Alloc.first_page
free-malloc_example =
    free-malloc 100 1 boot one (λ _. 0) [] (omega arith) boot-IsHeap one_test 2 (omega arith)
      (omega arith)

mem_usage_info_example :
    let (all, used, unused, _, _) = Alloc.mem_usage_info one in
    (all ≡ one.alloc_pages) × (used ≡ pages_of (hundred ∷ [])) × (used + unused ≡ all)
mem_usage_info_example = mem_usage_info_lem one (hundred ∷ []) one-IsHeap

malloc-SameFrame_example : SameFrame one (Alloc.malloc 5000 one).1
malloc-SameFrame_example = malloc-SameFrame 5000 one

free-SameFrame_example : SameFrame one (Alloc.free 0x12010 one)
free-SameFrame_example = free-SameFrame 0x12010 one

-- The pages of the USB DMA window are kept back where it lies in the heap.
reserve_test : (Alloc.reserve_page_range 0x12000 0x13000 boot).bitmap ≡ 245 ∷ []
unfolding Alloc.reserve_page_range Alloc.align_page Alloc.page_set_used Alloc.page_bit_mask
    for_range
reserve_test = refl

page_init_fpga_test : Alloc.page_init_fpga raw ≡ some boot
unfolding Alloc.page_init_fpga Alloc.layout Alloc.init_bitmap Alloc.first_page Alloc.page_clear_used
    Alloc.page_bit_mask Alloc.reserve_page_range Alloc.align_page for_range
page_init_fpga_test = refl

kernel_heap_range_info_test : Alloc.kernel_heap_range_info one ≡ (0x11000, 0x14000)
unfolding Alloc.kernel_heap_range_info
kernel_heap_range_info_test = refl

page_index_test : Alloc.page_index_from_addr one 0x12010 ≡ 2
unfolding Alloc.page_index_from_addr
page_index_test = refl
