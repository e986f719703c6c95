-- ===== src/Alloc/History.antt =====
-- Programs that use the heap: calls of malloc and free, and writes into their own blocks.
use vibeos_fpga.Common.{
  ℕ, ◌+◌, ◌-◌, ◌*◌, ◌/◌, ◌^◌, ◌≤◌, ◌<◌, ◌≡◌, ◌≢◌, refl, sym, ◌⊎◌, inl, inr, List, [], ◌∷◌, ◌++◌,
  arith,
}
use mathlib.Core.Path.{subst}
use native.Mathlib.Decide.{dec_lt}
use vibeos_fpga.Common.Bitmap.{bit, bit-lt}
use vibeos_fpga.Alloc.{Heap, store, malloc, free, first_page, at_least_one}
use vibeos_fpga.Alloc.Invariant.{
  Block, IsHeap, HasHeader, HaveHeaders, HaveHeaders-split, cover, cover-append, block,
}
use vibeos_fpga.Alloc.Malloc.{
  pointer_to, pages_needed, malloc-Outcome, malloc-SameFrame, SameFrame, IsGranted, IsRefused,
}
use vibeos_fpga.Alloc.Free.{free-IsHeap, free-SameFrame}

-- Heaps with their live blocks, and what a program may do to them. The blocks are what the program
-- knows: a block is live from the malloc that returned it to its first free.
pub data Step (h : Heap) (blocks : List Block) (h' : Heap) : List Block → Type 0 where
  grants :
      (asked page : ℕ)
      → asked < 2 ^ 32
      → malloc asked h ≡ (h.heap_start + page * 4096 + 16, h')
      → Step h blocks h'
          (block page (pages_needed (at_least_one asked)) (at_least_one asked) ∷ blocks)
  refuses : (asked : ℕ) → asked < 2 ^ 32 → malloc asked h ≡ (0, h') → Step h blocks h' blocks
  frees :
      (xs ys : List Block) (b : Block)
      → blocks ≡ xs ++ b ∷ ys
      → h' ≡ free (pointer_to h b) h
      → Step h blocks h' (xs ++ ys)
  -- a word of a live block, behind the block's header
  writes :
      (xs ys : List Block) (b : Block) (address value : ℕ)
      → blocks ≡ xs ++ b ∷ ys
      → pointer_to h b ≤ address
      → address + 4 ≤ h.heap_start + (b.page + b.npages) * 4096
      → h' ≡ record h { memory = store h.memory address value }
      → Step h blocks h' blocks

pub data Reach (h : Heap) (blocks : List Block) : Heap → List Block → Type 0 where
  here : Reach h blocks h blocks
  next :
      {h1 h2 : Heap} {bs cs : List Block}
      → Reach h blocks h1 bs
      → Step h1 bs h2 cs
      → Reach h blocks h2 cs

HaveHeaders-join :
    (start first last : ℕ) (m : ℕ → ℕ) (xs ys : List Block) (b : Block)
    → HasHeader start first last m b
    → HaveHeaders start first last m (xs ++ ys)
    → HaveHeaders start first last m (xs ++ b ∷ ys)
HaveHeaders-join start first last m [] ys b hb hs = (hb, hs)
HaveHeaders-join start first last m (x ∷ xs) ys b hb (hx, hs) =
    (hx, HaveHeaders-join start first last m xs ys b hb hs)

-- A word written at page `q` leaves the headers of the blocks that do not hold that page.
HaveHeaders-store :
    (start first last : ℕ) (m : ℕ → ℕ) (address value q : ℕ) (bs : List Block)
    → start + q * 4096 ≤ address
    → address < start + q * 4096 + 4096
    → cover bs q ≡ 0
    → HaveHeaders start first last m bs
    → HaveHeaders start first last (store m address value) bs
HaveHeaders-store start first last m address value q [] lo hi c hs = tt
HaveHeaders-store start first last m address value q (x ∷ bs) lo hi c (hx, hs) =
    let other : x.page ≢ q = ground (arith, hx.0) in
    (
      (
        hx.0,
        hx.1,
        hx.2,
        ground (arith, hx.3, other),
        ground (arith, hx.4, other),
        ground (arith, hx.5, other),
      ),
      HaveHeaders-store start first last m address value q bs lo hi (omega arith) hs,
    )

module _ (h : Heap) (kept : ℕ → ℕ) (xs ys : List Block) (b : Block) (address value : ℕ)
    (v : IsHeap h kept (xs ++ b ∷ ys)) (from : pointer_to h b ≤ address)
    (to : address + 4 ≤ h.heap_start + (b.page + b.npages) * 4096) where
  last : ℕ
  last = first_page h + h.alloc_pages

  split :
      HasHeader h.heap_start (first_page h) (first_page h + h.alloc_pages) h.memory b
      × HaveHeaders h.heap_start (first_page h) (first_page h + h.alloc_pages) h.memory (xs ++ ys)
  split =
      HaveHeaders-split h.heap_start (first_page h) (first_page h + h.alloc_pages) h.memory xs ys b
        v.headers

  -- The page that the word lies in.
  at : ℕ
  at = (address - h.heap_start) / 4096

  at_bounds :
      (b.page ≤ at)
      × (at < b.page + b.npages)
      × (h.heap_start + at * 4096 ≤ address)
      × (address < h.heap_start + at * 4096 + 4096)
  unfolding at
  at_bounds = omega arith

  alone : cover (xs ++ ys) at ≡ 0
  alone = ground (
    arith,
    split.0,
    at_bounds,
    v.accounted at (omega (arith, split.0, at_bounds)) (omega (arith, split.0, at_bounds)),
    bit-lt h.bitmap at,
    cover-append xs ys at,
    cover-append xs (b ∷ ys) at,
  )

  -- A program that writes within a block does not disturb the heap.
  writes-IsHeap : IsHeap (record h { memory = store h.memory address value }) kept (xs ++ b ∷ ys)
  unfolding first_page
  writes-IsHeap = record {
    layout = record {
      aligned = v.layout.aligned;
      begins = v.layout.begins;
      ends = v.layout.ends;
      below = v.layout.below;
      not_empty = v.layout.not_empty;
      has_bits = v.layout.has_bits;
    };
    headers =
        HaveHeaders-join h.heap_start (first_page h) (first_page h + h.alloc_pages)
          (store h.memory address value) xs ys b
          (
            split.0.0,
            split.0.1,
            split.0.2,
            ground (arith, split.0.3),
            ground (arith, split.0.4),
            ground (arith, split.0.5),
          )
          (HaveHeaders-store h.heap_start (first_page h) (first_page h + h.alloc_pages) h.memory
            address value at (xs ++ ys) at_bounds.2 at_bounds.3 alone split.1);
    accounted = v.accounted;
  }

-- malloc that returned a pointer granted the block at that pointer.
grants-IsHeap :
    (size p page : ℕ) (h h' : Heap) (kept : ℕ → ℕ) (blocks : List Block)
    → p ≡ h.heap_start + page * 4096 + 16
    → IsGranted size h h' p kept blocks ⊎ IsRefused size h h' p kept blocks
    → IsHeap h' kept (block page (pages_needed size) size ∷ blocks)
grants-IsHeap size p page h h' kept blocks e (inl g) =
    let same : g.page ≡ page = omega (arith, g.pointer) in
    subst (λ (q : ℕ). IsHeap h' kept (block q (pages_needed size) size ∷ blocks)) same g.heap
grants-IsHeap size p page h h' kept blocks e (inr n) = absurd (omega (arith, n.null))

refuses-IsHeap :
    (size p : ℕ) (h h' : Heap) (kept : ℕ → ℕ) (blocks : List Block)
    → p ≡ 0
    → IsGranted size h h' p kept blocks ⊎ IsRefused size h h' p kept blocks
    → IsHeap h' kept blocks
refuses-IsHeap size p h h' kept blocks e (inl g) = absurd (omega (arith, g.pointer))
refuses-IsHeap size p h h' kept blocks e (inr n) = n.heap

pub Step-IsHeap :
    (kept : ℕ → ℕ) {h h' : Heap} {blocks blocks' : List Block}
    → Step h blocks h' blocks'
    → IsHeap h kept blocks
    → IsHeap h' kept blocks'
Step-IsHeap kept {h} {h'} {blocks} (grants asked page word e) v =
    grants-IsHeap (at_least_one asked) _ page h h' kept blocks refl
      (rw e at (malloc-Outcome asked h kept blocks word v))
Step-IsHeap kept {h} {h'} {blocks} (refuses asked word e) v =
    refuses-IsHeap (at_least_one asked) _ h h' kept blocks refl
      (rw e at (malloc-Outcome asked h kept blocks word v))
Step-IsHeap kept {h} (frees xs ys b e f) v =
    rw f (free-IsHeap xs ys b h kept (subst (IsHeap h kept) e v))
Step-IsHeap kept {h} (writes xs ys b address value e from to f) v = rw f (
    subst (IsHeap (record h { memory = store h.memory address value }) kept) (sym e)
      (writes-IsHeap h kept xs ys b address value (subst (IsHeap h kept) e v) from to))

pub Reach-IsHeap :
    (kept : ℕ → ℕ) {h : Heap} {blocks : List Block} {h' : Heap} {blocks' : List Block}
    → Reach h blocks h' blocks'
    → IsHeap h kept blocks
    → IsHeap h' kept blocks'
Reach-IsHeap kept here v = v
Reach-IsHeap kept (next r s) v = Step-IsHeap kept s (Reach-IsHeap kept r v)

-- No page belongs to two blocks.
abbrev pub AreApart : List Block → Type 0
AreApart blocks = (i : ℕ) → cover blocks i ≤ 1

outside :
    (start first last : ℕ) (m : ℕ → ℕ) (bs : List Block) (i : ℕ)
    → HaveHeaders start first last m bs
    → (i < first) ⊎ (last ≤ i)
    → cover bs i ≡ 0
outside start first last m [] i hs away = refl
outside start first last m (x ∷ bs) i (hx, hs) away =
    ground (arith, hx.0, hx.1, hx.2, outside start first last m bs i hs away)

pub IsHeap-AreApart :
    {h : Heap} {kept : ℕ → ℕ} {blocks : List Block} → IsHeap h kept blocks → AreApart blocks
IsHeap-AreApart {h} {kept} {blocks} v i = elim (dec_lt i (first_page h)) [
  | yes before ↦ omega (arith, out (inl before))
  | no from ↦ elim (dec_lt i (first_page h + h.alloc_pages)) [
    | yes to ↦ omega (arith, v.accounted i (omega arith) to, bit-lt h.bitmap i)
    | no after ↦ omega (arith, out (inr (omega arith)))
  ]
]
  where
    out : (i < first_page h) ⊎ (first_page h + h.alloc_pages ≤ i) → cover blocks i ≡ 0
    out =
        outside h.heap_start (first_page h) (first_page h + h.alloc_pages) h.memory blocks i
          v.headers

-- Whatever a program does with malloc, free of its live blocks and writes into its own blocks, from
-- a well-formed heap on: the heap stays well formed, and no page ever belongs to two live blocks.
pub Reach-AreApart :
    (kept : ℕ → ℕ) {h : Heap} {blocks : List Block} {h' : Heap} {blocks' : List Block}
    → Reach h blocks h' blocks'
    → IsHeap h kept blocks
    → IsHeap h' kept blocks' × AreApart blocks'
Reach-AreApart kept r v = let w = Reach-IsHeap kept r v in (w, IsHeap-AreApart w)

-- In a well-formed heap, the bits of the allocator's pages are after malloc returned a block and free
-- took it back what they were before.
pub free-malloc :
    (asked page : ℕ) (h h' : Heap) (kept : ℕ → ℕ) (blocks : List Block)
    → asked < 2 ^ 32
    → IsHeap h kept blocks
    → malloc asked h ≡ (h.heap_start + page * 4096 + 16, h')
    → (i : ℕ) → first_page h ≤ i
    → i < first_page h + h.alloc_pages
    → bit (free (h.heap_start + page * 4096 + 16) h').bitmap i ≡ bit h.bitmap i
free-malloc asked page h h' kept blocks word v e i p q = omega (
  arith,
  v.accounted i p q,
  freed.accounted i (omega (arith, frame, frame')) (omega (arith, frame, frame')),
)
  where
    b : Block
    b = block page (pages_needed (at_least_one asked)) (at_least_one asked)

    granted : IsHeap h' kept (b ∷ blocks)
    granted = Step-IsHeap kept (grants asked page word e) v

    frame : SameFrame h h'
    frame = rw e at (malloc-SameFrame asked h)

    frame' : SameFrame h' (free (h.heap_start + page * 4096 + 16) h')
    frame' = free-SameFrame (h.heap_start + page * 4096 + 16) h'

    freed : IsHeap (free (h.heap_start + page * 4096 + 16) h') kept blocks
    freed =
        subst (λ (start : ℕ). IsHeap (free (start + page * 4096 + 16) h') kept blocks) frame.0
          (free-IsHeap [] blocks b h' kept granted)
