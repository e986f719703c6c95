-- ===== src/Alloc/Malloc.antt =====
-- malloc: what it returns, and what it does to the heap.
use native.Mathlib.Decide.{dec_lt}
use vibeos_fpga.Common.{
  ℕ, suc, ◌+◌, ◌-◌, ◌*◌, ◌/◌, ◌^◌, ◌≤◌, ◌<◌, ◌≡◌, refl, ◌||◌, ◌⊎◌, inl, inr, Option, none, some,
  List, ◌∷◌, ltb, ◌==◌, if◌then◌else◌, add32, arith, Bool-cases, Option-cases, ltb→lt, ltb→le,
}
use vibeos_fpga.Alloc.{
  Heap, header_size, first_page, last_page, header_of_page, claim, irq_save, irq_restore,
  search_pages, take_pages, malloc, at_least_one, pages_for_size,
}
use vibeos_fpga.Alloc.Pages.{IsFreeRun, Searched, search_pages-Searched}
use vibeos_fpga.Alloc.Invariant.{
  Block, HasLayout, IsHeap, block, claim-IsHeap, last_page_lem, header_of_page_lem,
}

-- The search of malloc in `h`.
abbrev pub found_in : Heap → ℕ → Option ℕ
found_in h npages = search_pages (suc (last_page h)) h.bitmap (first_page h) npages (last_page h)

-- The interrupt state is restored on both ways out.
abbrev taken : ℕ → ℕ → Heap → Option ℕ → ℕ × Heap
taken npages size h none = (0, h)
taken npages size h (some page) =
    (add32 (header_of_page h page) header_size, claim page npages size h)

take_pages_lem :
    (npages size : ℕ) (h : Heap) (o : Option ℕ)
    → found_in h npages ≡ o
    → take_pages npages size h ≡ taken npages size h o
unfolding take_pages irq_save irq_restore claim first_page last_page header_of_page
take_pages_lem npages size h none e = rw (e, take_pages)
take_pages_lem npages size h (some page) e = rw (e, take_pages)

-- The pointer to block `b`.
abbrev pub pointer_to : Heap → Block → ℕ
pointer_to h b = h.heap_start + b.page * 4096 + 16

-- No run of `npages` free pages is left.
abbrev pub IsExhausted : Heap → ℕ → Type 0
IsExhausted h npages =
    (q : ℕ)
    → first_page h ≤ q
    → q + npages ≤ first_page h + h.alloc_pages
    → ¬ IsFreeRun h.bitmap q npages

-- How many pages a block of `size` bytes takes, without wrap-around.
abbrev pub pages_needed : ℕ → ℕ
pages_needed size = (size + 16 + 4095) / 4096

-- malloc gave out a new block: the first free run that is large enough.
pub record IsGranted (size : ℕ) (h h' : Heap) (p : ℕ) (kept : ℕ → ℕ) (blocks : List Block)
    : Type 0 where
  pub page : ℕ
  pub pointer : p ≡ pointer_to h (block page (pages_needed size) size)
  pub was_free : IsFreeRun h.bitmap page (pages_needed size)
  pub first_fit : (q : ℕ) → first_page h ≤ q → q < page → ¬ IsFreeRun h.bitmap q (pages_needed size)
  pub heap : IsHeap h' kept (block page (pages_needed size) size ∷ blocks)

-- malloc returned NULL: no run of free pages is large enough, and no block has changed.
pub record IsRefused (size : ℕ) (h h' : Heap) (p : ℕ) (kept : ℕ → ℕ) (blocks : List Block)
    : Type 0 where
  pub null : p ≡ 0
  pub exhausted : IsExhausted h (pages_needed size)
  pub heap : IsHeap h' kept blocks

abbrev pub Outcome : ℕ → Heap → ℕ × Heap → (ℕ → ℕ) → List Block → Type 0
Outcome size h r kept blocks =
    IsGranted size h (r.1) (r.0) kept blocks ⊎ IsRefused size h (r.1) (r.0) kept blocks

count_call : Heap → Heap
count_call h = record h { malloc_calls = add32 h.malloc_calls 1 }

count_call-IsHeap :
    {h : Heap} {kept : ℕ → ℕ} {blocks : List Block}
    → IsHeap h kept blocks
    → IsHeap (count_call h) kept blocks
unfolding count_call first_page
count_call-IsHeap v = record {
  layout = record {
    aligned = v.layout.aligned;
    begins = v.layout.begins;
    ends = v.layout.ends;
    below = v.layout.below;
    not_empty = v.layout.not_empty;
    has_bits = v.layout.has_bits;
  };
  headers = v.headers;
  accounted = v.accounted;
}

taken-Outcome :
    (size : ℕ) (h : Heap) (o : Option ℕ) (kept : ℕ → ℕ) (blocks : List Block)
    → 0 < pages_needed size
    → IsHeap h kept blocks
    → Searched h.bitmap (first_page h) (pages_needed size) (first_page h + h.alloc_pages) o
    → Outcome size h (taken (pages_needed size) size h o) kept blocks
taken-Outcome size h none kept blocks pos v s =
    inr (record { null = refl; exhausted = s; heap = v })
taken-Outcome size h (some page) kept blocks pos v s = inl (record {
  page = page;
  pointer = rw (header_of_page_lem h page v.layout (omega (arith, s))) (omega (arith, v.layout, s));
  was_free = s.2;
  first_fit = s.3;
  heap = claim-IsHeap page (pages_needed size) size v pos s.0 s.1 s.2;
})

take_pages-Outcome :
    (size : ℕ) (h : Heap) (kept : ℕ → ℕ) (blocks : List Block)
    → pages_needed size ≤ h.alloc_pages
    → IsHeap h kept blocks
    → Outcome size h (take_pages (pages_needed size) size h) kept blocks
take_pages-Outcome size h kept blocks fits v =
    rw (take_pages_lem (pages_needed size) size h _ refl) (
      taken-Outcome size h _ kept blocks (omega arith) v (
        rw (last_page_lem v.layout) (
          search_pages-Searched (suc (first_page h + h.alloc_pages)) h.bitmap (first_page h)
            (pages_needed size) (first_page h + h.alloc_pages) (omega arith) (omega arith)
            (omega (arith, v.layout)) (omega (arith, v.layout)) (omega arith))))

-- A size that no heap can hold.
too_large :
    (size : ℕ) (h h' : Heap) (kept : ℕ → ℕ) (blocks : List Block)
    → h.alloc_pages < pages_needed size
    → IsHeap h' kept blocks
    → Outcome size h (0, h') kept blocks
too_large size h h' kept blocks big v =
    inr (record { null = refl; exhausted = λ q p r. absurd (omega arith); heap = v })

-- The count of calls plays no part in the outcome.
Outcome-count_call :
    (size : ℕ) (h : Heap) (r : ℕ × Heap) (kept : ℕ → ℕ) (blocks : List Block)
    → Outcome size (count_call h) r kept blocks
    → Outcome size h r kept blocks
unfolding count_call first_page
Outcome-count_call size h r kept blocks (inl g) = inl (record {
  page = g.page;
  pointer = g.pointer;
  was_free = g.was_free;
  first_fit = g.first_fit;
  heap = g.heap;
})
Outcome-count_call size h r kept blocks (inr n) =
    inr (record { null = n.null; exhausted = n.exhausted; heap = n.heap })

-- The page count of the code is the true one, unless it is 0 for a size that no heap can hold.
pages_for_size-cases :
    (size : ℕ)
    → size < 2 ^ 32 - 16
    → (pages_for_size (add32 size header_size) ≡ pages_needed size)
      ⊎ ((pages_for_size (add32 size header_size) ≡ 0) × (2 ^ 20 ≤ pages_needed size))
unfolding pages_for_size
pages_for_size-cases size h = elim (dec_lt (size + 16 + 4095) (2 ^ 32)) [
  | yes fits ↦ inl (omega arith)
  | no wraps ↦ inr (omega arith, omega arith)
]

pages_lt : {h : Heap} → HasLayout h → h.alloc_pages < 2 ^ 20
pages_lt v = omega (arith, v)

-- malloc past its check of the size.
sized-Outcome :
    (size npages : ℕ) (h : Heap) (kept : ℕ → ℕ) (blocks : List Block)
    → (npages ≡ pages_needed size) ⊎ ((npages ≡ 0) × (2 ^ 20 ≤ pages_needed size))
    → IsHeap h kept blocks
    → Outcome size h
        (if npages == 0 || ltb h.alloc_pages npages
          then (0, count_call h)
          else take_pages npages size (count_call h))
        kept
        blocks
unfolding count_call
sized-Outcome size npages h kept blocks cases v =
    elim (Bool-cases (npages == 0 || ltb h.alloc_pages npages)) [
      | inl refused ↦ rw refused (
          too_large size h (count_call h) kept blocks
            (ground (arith, pages_lt v.layout, cases, pos)) (count_call-IsHeap v))
      | inr granted ↦
          let fits : (npages ≡ pages_needed size) × (pages_needed size ≤ h.alloc_pages) =
            (ground (arith, cases), ground (arith, cases)) in
          rw granted (
            rw fits.0 (
              Outcome-count_call size h _ kept blocks
                (take_pages-Outcome size (count_call h) kept blocks fits.1 (count_call-IsHeap v))))
    ]
  where
    pos : 0 < pages_needed size
    pos = omega arith

-- malloc keeps the heap well formed. It gives out the first run of free pages that holds the size
-- and the header, or returns NULL if there is no such run.
pub malloc-Outcome :
    (asked : ℕ) (h : Heap) (kept : ℕ → ℕ) (blocks : List Block)
    → asked < 2 ^ 32
    → IsHeap h kept blocks
    → Outcome (at_least_one asked) h (malloc asked h) kept blocks
unfolding malloc count_call
malloc-Outcome asked h kept blocks word v =
    elim (Bool-cases (ltb (0xffffffff - header_size) (at_least_one asked))) [
      | inl big ↦ rw big (
          too_large (at_least_one asked) h (count_call h) kept blocks
            (omega (arith, pages_lt v.layout, ltb→lt _ _ big)) (count_call-IsHeap v))
      | inr small ↦ rw small (
          sized-Outcome (at_least_one asked) _ h kept blocks
            (pages_for_size-cases (at_least_one asked) (omega (arith, ltb→le _ _ small))) v)
    ]

-- Where the allocator's pages lie, which page_init alone sets, and the interrupt state.
abbrev pub SameFrame : Heap → Heap → Type 0
SameFrame h h' =
    (h'.heap_start ≡ h.heap_start)
    × (first_page h' ≡ first_page h)
    × (h'.alloc_pages ≡ h.alloc_pages)
    × (h'.mstatus ≡ h.mstatus)

take_pages-SameFrame : (npages size : ℕ) (h : Heap) → SameFrame h (take_pages npages size h).1
unfolding claim first_page
take_pages-SameFrame npages size h = elim (Option-cases (found_in h npages)) [
  | inl e ↦ rw (take_pages_lem npages size h none e) (refl, refl, refl, refl)
  | inr (page, e) ↦ rw (take_pages_lem npages size h (some page) e) (refl, refl, refl, refl)
]

-- malloc never moves the allocator's pages, and leaves the interrupt state as it was, on every
-- branch and for any heap.
pub malloc-SameFrame : (asked : ℕ) (h : Heap) → SameFrame h (malloc asked h).1
unfolding malloc first_page
malloc-SameFrame asked h = ground (
  arith,
  take_pages-SameFrame (pages_for_size (add32 (at_least_one asked) header_size))
      (at_least_one asked) (record h { malloc_calls = add32 h.malloc_calls 1 }),
)
