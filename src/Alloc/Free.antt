-- ===== src/Alloc/Free.antt =====
-- free: on the pointer to a live block, and on any other.
use vibeos_fpga.Common.{
  ℕ, ◌+◌, ◌/◌, ◌^◌, ◌≤◌, ◌<◌, ◌≡◌, ◌≢◌, ◌∙◌, List, ◌∷◌, ◌++◌, add32, sub32, arith,
}
use vibeos_fpga.Common.Digits.{bit_and-low}
use vibeos_fpga.Alloc.{
  Heap, alloc_magic, header_size, first_page, page_index_from_addr, release, free_header, free,
  irq_save, irq_restore,
}
use vibeos_fpga.Alloc.Invariant.{
  Block, HasLayout, IsHeap, HasHeader, HaveHeaders-split, header_of, release-IsHeap, last_page_lem,
  write_header-words,
}
use vibeos_fpga.Alloc.Malloc.{pointer_to, SameFrame}

-- The header of a live block passes every check.
free_header-live :
    (b : Block) (h : Heap)
    → HasLayout h
    → HasHeader h.heap_start (first_page h) (first_page h + h.alloc_pages) h.memory b
    → free_header (header_of h.heap_start b.page) h
      ≡ release (header_of h.heap_start b.page) b.page b.npages h
unfolding free_header page_index_from_addr
free_header-live b h v k =
    rw
      (
        last_page_lem v,
        bit_and-low 12 (sub32 (header_of h.heap_start b.page) h.alloc_start),
        here,
        word,
        k.4,
        k.3,
      )
      (ground (arith, v))
  where
    here : sub32 (header_of h.heap_start b.page) h.heap_start / 2 ^ 12 ≡ b.page
    here = omega (arith, v, k)

    word : add32 (header_of h.heap_start b.page) 4 ≡ header_of h.heap_start b.page + 4
    word = omega (arith, v, k)

count_call : Heap → Heap
count_call h = record h { free_calls = add32 h.free_calls 1 }

count_call-IsHeap :
    {h : Heap} {kept : ℕ → ℕ} {blocks : List Block}
    → IsHeap h kept blocks
    → IsHeap (count_call h) kept blocks
unfolding count_call first_page
count_call-IsHeap v = record {
  layout = record {
    aligned = v.layout.aligned;
    begins = v.layout.begins;
    ends = v.layout.ends;
    below = v.layout.below;
    not_empty = v.layout.not_empty;
    has_bits = v.layout.has_bits;
  };
  headers = v.headers;
  accounted = v.accounted;
}

-- free gets as far as the header of a live block.
free-live :
    (b : Block) (h : Heap)
    → HasLayout h
    → b.page < first_page h + h.alloc_pages
    → free (pointer_to h b) h ≡ free_header (header_of h.heap_start b.page) (count_call h)
unfolding free count_call
free-live b h v lt = rw back (ground (arith, v))
  where
    back : sub32 (pointer_to h b) header_size ≡ header_of h.heap_start b.page
    back = omega (arith, v)

freed_as :
    (xs ys : List Block) (b : Block) (h : Heap) (kept : ℕ → ℕ)
    → IsHeap h kept (xs ++ b ∷ ys)
    → free (pointer_to h b) h
      ≡ release (header_of h.heap_start b.page) b.page b.npages (count_call h)
unfolding count_call first_page
freed_as xs ys b h kept v =
    free-live b h v.layout (omega (arith, k))
    ∙ free_header-live b (count_call h) (count_call-IsHeap v).layout k
  where
    k : HasHeader h.heap_start (first_page h) (first_page h + h.alloc_pages) h.memory b
    k =
        (HaveHeaders-split h.heap_start (first_page h) (first_page h + h.alloc_pages) h.memory xs ys
          b v.headers).0

-- To free a live block takes that block out of the heap, and no other.
pub free-IsHeap :
    (xs ys : List Block) (b : Block) (h : Heap) (kept : ℕ → ℕ)
    → IsHeap h kept (xs ++ b ∷ ys)
    → IsHeap (free (pointer_to h b) h) kept (xs ++ ys)
unfolding count_call
free-IsHeap xs ys b h kept v =
    rw (freed_as xs ys b h kept v) (release-IsHeap xs ys b (count_call-IsHeap v))

-- free of a pointer with no magic number in front of it only counts the call.
free_no_magic :
    (p : ℕ) (h : Heap)
    → h.memory (sub32 p header_size) ≢ alloc_magic
    → free p h ≡ record h { free_calls = add32 h.free_calls 1 }
unfolding free free_header
free_no_magic p h ne = ground arith

no_magic :
    (b : Block) (h : Heap)
    → header_of h.heap_start b.page + 16 ≤ 2 ^ 32
    → (release (header_of h.heap_start b.page) b.page b.npages h).memory
        (header_of h.heap_start b.page)
      ≢ alloc_magic
unfolding release irq_save irq_restore
no_magic b h room e =
    absurd (omega (arith, write_header-words h.memory (header_of h.heap_start b.page) 0 0 0 room))

-- To free the same live block again changes nothing but the count of calls.
pub free_twice :
    (xs ys : List Block) (b : Block) (h : Heap) (kept : ℕ → ℕ)
    → IsHeap h kept (xs ++ b ∷ ys)
    → let h' = free (pointer_to h b) h in
      free (pointer_to h b) h' ≡ record h' { free_calls = add32 h'.free_calls 1 }
unfolding count_call
free_twice xs ys b h kept v = free_no_magic (pointer_to h b) (free (pointer_to h b) h) gone
  where
    room : header_of h.heap_start b.page + 16 ≤ 2 ^ 32
    room = omega (
      arith,
      v.layout,
      HaveHeaders-split h.heap_start (first_page h) (first_page h + h.alloc_pages) h.memory xs ys b
          v.headers,
    )

    back : sub32 (pointer_to h b) header_size ≡ header_of h.heap_start b.page
    back = omega (arith, room)

    gone : (free (pointer_to h b) h).memory (sub32 (pointer_to h b) header_size) ≢ alloc_magic
    gone = rw (back, freed_as xs ys b h kept v) (no_magic b (count_call h) room)

-- free never moves the allocator's pages, and leaves the interrupt state as it was, for any pointer
-- and any heap.
pub free-SameFrame : (p : ℕ) (h : Heap) → SameFrame h (free p h)
unfolding free free_header release irq_save irq_restore first_page
free-SameFrame p h = ground arith
