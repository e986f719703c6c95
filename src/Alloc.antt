-- ===== src/Alloc.antt =====
-- vibeos/alloc.c: the page allocator behind malloc and free. A page is in use if its bit is set in a
-- bitmap at the start of the heap; a block is a run of pages with a header of four words in front
-- of what the caller gets.
--
-- `memory` holds the 32-bit word at each address. The bitmap is kept apart from it: the code
-- reaches it by byte and never through a header. The linker's symbols HEAP_START and HEAP_SIZE
-- are fields that nothing writes.
pub mod Pages
pub mod Invariant
pub mod Malloc
pub mod Free
pub mod Init
pub mod History
pub mod Usage
mod Tests
use vibeos_fpga.Common.{
  ℕ, zero, suc, ◌+◌, ◌-◌, ◌*◌, ◌/◌, ◌%◌, ◌^◌, bit_and, bit_or, Bool, true, false, not, ◌&&◌, ◌||◌,
  Option, none, some, List, [], ◌∷◌, ltb, leb, ◌==◌, if◌then◌else◌, u8, add32, sub32, get_or, set,
  replicate, for_range,
}

-- The globals of alloc.c, the memory, and the machine status word.
pub record Heap : Type 0 where
  pub heap_start : ℕ
  pub heap_size : ℕ
  pub alloc_start : ℕ
  pub alloc_end : ℕ
  pub heap_total_pages : ℕ
  pub alloc_pages : ℕ
  pub bitmap_bytes : ℕ
  pub bitmap : List ℕ
  pub malloc_calls : ℕ
  pub free_calls : ℕ
  pub memory : ℕ → ℕ
  pub mstatus : ℕ

abbrev pub page_size : ℕ
page_size = 4096

abbrev pub page_mask : ℕ
page_mask = 4095

abbrev pub header_size : ℕ
header_size = 16

-- "MAP0"
abbrev pub alloc_magic : ℕ
alloc_magic = 0x4d415030

-- `~PAGE_MASK`
abbrev pub page_base : ℕ
page_base = 0xfffff000

-- FPGA_MINIMAL_HEAP_SIZE, FPGA_USB_DMA_CPU_BASE and FPGA_USB_DMA_CPU_SIZE
abbrev pub fpga_heap_size : ℕ
fpga_heap_size = 32 * 1024 * 1024

abbrev pub usb_dma_base : ℕ
usb_dma_base = 0x851da000

abbrev pub usb_dma_size : ℕ
usb_dma_size = 0x10000

pub align_page : ℕ → ℕ
align_page address = bit_and (add32 address page_mask) page_base

pub page_index_from_addr : Heap → ℕ → ℕ
page_index_from_addr h address = sub32 address h.heap_start / 2 ^ 12

pub page_bit_mask : ℕ → ℕ
page_bit_mask page_index = u8 (2 ^ bit_and page_index 7)

pub page_is_used : List ℕ → ℕ → Bool
unfolding page_bit_mask
page_is_used bitmap i = not (bit_and (get_or bitmap (i / 2 ^ 3) 0) (page_bit_mask i) == 0)

pub page_set_used : List ℕ → ℕ → List ℕ
unfolding page_bit_mask
page_set_used bitmap i =
    set bitmap (i / 2 ^ 3) (u8 (bit_or (get_or bitmap (i / 2 ^ 3) 0) (page_bit_mask i)))

-- `&= (uint8_t)~mask`
pub page_clear_used : List ℕ → ℕ → List ℕ
unfolding page_bit_mask
page_clear_used bitmap i =
    set bitmap (i / 2 ^ 3) (u8 (bit_and (get_or bitmap (i / 2 ^ 3) 0) (255 - page_bit_mask i)))

pub pages_for_size : ℕ → ℕ
pages_for_size size = sub32 (add32 size page_size) 1 / 2 ^ 12

-- `_irq_save` clears MSTATUS_MIE, bit 3.
pub irq_save : Heap → ℕ × Heap
irq_save h = (h.mstatus, record h { mstatus = bit_and h.mstatus (2 ^ 32 - 1 - 8) })

pub irq_restore : ℕ → Heap → Heap
irq_restore state h = record h { mstatus = state }

-- One word of memory changed.
abbrev pub store : (ℕ → ℕ) → ℕ → ℕ → ℕ → ℕ
store memory address value x = if address == x then value else memory x

-- The four words of a header.
pub write_header : (ℕ → ℕ) → ℕ → ℕ → ℕ → ℕ → ℕ → ℕ
write_header memory hdr magic npages req_size =
    store (store (store (store memory hdr magic) (add32 hdr 4) npages) (add32 hdr 8) req_size)
      (add32 hdr 12) 0

-- The first page of the allocator's, and the end of its pages.
pub first_page : Heap → ℕ
first_page h = sub32 h.alloc_start h.heap_start / page_size

pub last_page : Heap → ℕ
last_page h = add32 (first_page h) h.alloc_pages

-- The inner loop of malloc: the offset of the first used page among the `left` from `page + j` on.
pub first_used : List ℕ → ℕ → ℕ → ℕ → Option ℕ
first_used bitmap page zero j = none
first_used bitmap page (suc left) j =
    if page_is_used bitmap (add32 page j) then some j else first_used bitmap page left (suc j)

-- The outer loop: a used page at offset `j` moves the search to the page behind it.
pub search_pages : ℕ → List ℕ → (page npages last : ℕ) → Option ℕ
search_pages zero bitmap page npages last = none
search_pages (suc fuel) bitmap page npages last = elim (leb (add32 page npages) last) [
  | false ↦ none
  | true ↦ elim (first_used bitmap page npages 0) [
    | none ↦ some page
    | some j ↦ search_pages fuel bitmap (add32 (add32 page j) 1) npages last
  ]
]

pub set_pages : List ℕ → ℕ → ℕ → List ℕ
set_pages bitmap page npages = for_range npages 0 (λ j bm. page_set_used bm (add32 page j)) bitmap

pub clear_pages : List ℕ → ℕ → ℕ → List ℕ
clear_pages bitmap page npages =
    for_range npages 0 (λ j bm. page_clear_used bm (add32 page j)) bitmap

pub header_of_page : Heap → ℕ → ℕ
header_of_page h page = add32 h.heap_start (page * page_size % 2 ^ 32)

-- What malloc does with the run of pages that it found.
pub claim : ℕ → ℕ → ℕ → Heap → Heap
claim page npages size h = record h {
  bitmap = set_pages h.bitmap page npages;
  memory = write_header h.memory (header_of_page h page) alloc_magic npages size;
}

-- The part of malloc that runs with interrupts off. Each round of the search moves on by a page.
pub take_pages : ℕ → ℕ → Heap → ℕ × Heap
take_pages npages size h =
    let (irq_state, h1) = irq_save h in
    elim (search_pages (suc (last_page h)) h.bitmap (first_page h) npages (last_page h)) [
      | none ↦ (0, irq_restore irq_state h1)
      | some page ↦ (
        add32 (header_of_page h page) header_size,
        irq_restore irq_state (claim page npages size h1),
      )
    ]

abbrev pub at_least_one : ℕ → ℕ
at_least_one size = if size == 0 then 1 else size

-- Pointers are addresses, and NULL is 0.
pub malloc : ℕ → Heap → ℕ × Heap
malloc asked h =
    let h1 = record h { malloc_calls = add32 h.malloc_calls 1 } in
    let size = at_least_one asked in
    if ltb (0xffffffff - header_size) size
    then (0, h1)
    else let npages = pages_for_size (add32 size header_size) in
      if npages == 0 || ltb h.alloc_pages npages then (0, h1) else take_pages npages size h1

-- The end of free, with interrupts off.
pub release : ℕ → ℕ → ℕ → Heap → Heap
release hdr start_page npages h =
    let (irq_state, h1) = irq_save h in
    irq_restore irq_state (record h1 {
      bitmap = clear_pages h1.bitmap start_page npages;
      memory = write_header h1.memory hdr 0 0 0;
    })

-- The checks of free on the header at `hdr`, in the order of the code.
pub free_header : ℕ → Heap → Heap
free_header hdr h =
    if not (h.memory hdr == alloc_magic)
    then h
    else if ltb hdr h.alloc_start || leb h.alloc_end hdr
    then h
    else if not (bit_and (sub32 hdr h.alloc_start) page_mask == 0)
    then h
    else let start_page = page_index_from_addr h hdr in
      if ltb start_page (first_page h) || leb (last_page h) start_page
      then h
      else let npages = h.memory (add32 hdr 4) in
        if ltb (last_page h) (add32 start_page npages) || npages == 0
        then h
        else release hdr start_page npages h

pub free : ℕ → Heap → Heap
free p h =
    let h1 = record h { free_calls = add32 h.free_calls 1 } in
    if p == 0
    then h1
    else if ltb p (add32 h.heap_start header_size) || leb h.alloc_end p
    then h1
    else free_header (sub32 p header_size) h1

-- _reserve_page_range
pub reserve_page_range : ℕ → ℕ → Heap → Heap
reserve_page_range start end h =
    if leb end start || leb h.alloc_end h.heap_start
    then h
    else let s = bit_and start page_base in
      let e = align_page end in
      if leb e h.heap_start || leb h.alloc_end s
      then h
      else let s' = if ltb s h.heap_start then h.heap_start else s in
        let e' = if ltb h.alloc_end e then h.alloc_end else e in
        let first = sub32 s' h.heap_start / 2 ^ 12 in
        let last = sub32 e' h.heap_start / 2 ^ 12 in
        record h {
          bitmap = for_range (last - first) first (λ page bm. page_set_used bm page) h.bitmap;
        }

-- The globals that page_init computes from the heap's place and size.
pub layout : ℕ → Heap → Heap
layout heap_size h =
    let total = heap_size / page_size in
    let bytes = add32 total 7 / 8 in
    let alloc_start = bit_and (add32 (add32 h.heap_start bytes) page_mask) page_base in
    let alloc_end = add32 h.heap_start (total * page_size % 2 ^ 32) in
    record h {
      heap_total_pages = total;
      bitmap_bytes = bytes;
      alloc_start = alloc_start;
      alloc_end = alloc_end;
      alloc_pages = sub32 alloc_end alloc_start / page_size;
    }

-- All bits are set, then those of the pages behind the bitmap cleared.
pub init_bitmap : Heap → Heap
init_bitmap h = record h {
  bitmap =
      for_range (h.heap_total_pages - first_page h) (first_page h)
        (λ page bm. page_clear_used bm page) (replicate h.bitmap_bytes 255);
}

-- page_init; `none` is its panic. The lock that it initialises is used nowhere else in alloc.c.
pub page_init : Heap → Option Heap
page_init h =
    let h1 = layout h.heap_size h in
    if leb h1.alloc_end h1.alloc_start || h1.alloc_pages == 0 then none else some (init_bitmap h1)

-- page_init in the FPGA_MINIMAL build: the heap is cut to 32 MiB, and the pages of the USB DMA
-- window are kept back. `none` is its idle loop on an invalid layout.
pub page_init_fpga : Heap → Option Heap
page_init_fpga h =
    let heap_size = if ltb fpga_heap_size h.heap_size then fpga_heap_size else h.heap_size in
    let h1 = layout heap_size h in
    if leb h1.alloc_end h1.alloc_start || h1.alloc_pages == 0
    then none
    else some (reserve_page_range usb_dma_base (add32 usb_dma_base usb_dma_size) (init_bitmap h1))

-- The loop of mem_usage_info: how many of the `left` pages from `page` on are in use.
pub count_used : List ℕ → ℕ → ℕ → ℕ
count_used bitmap page zero = 0
count_used bitmap page (suc left) =
    let rest = count_used bitmap (suc page) left in
    if page_is_used bitmap page then suc rest else rest

-- mem_usage_info: total, used and free pages, and the calls of malloc and free.
pub mem_usage_info : Heap → ℕ × ℕ × ℕ × ℕ × ℕ
mem_usage_info h =
    let used = count_used h.bitmap (first_page h) h.alloc_pages in
    (h.alloc_pages, used, sub32 h.alloc_pages used, h.malloc_calls, h.free_calls)

-- kernel_heap_range_info
pub kernel_heap_range_info : Heap → ℕ × ℕ
kernel_heap_range_info h = (h.alloc_start, h.alloc_end)
