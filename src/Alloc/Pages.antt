-- ===== src/Alloc/Pages.antt =====
-- The page bits of alloc.c as the bits of a bitmap, and its loops over runs of pages.
use vibeos_fpga.Common.{
  ℕ, zero, suc, ◌+◌, ◌-◌, ◌*◌, ◌/◌, ◌%◌, ◌^◌, ◌≤◌, ◌<◌, bit_and, ◌≡◌, refl, ◌∙◌, ap, true, false,
  inl, inr, Option, none, some, List, ◌==◌, if◌then◌else◌, add32, arith, length, get_or, set,
  for_range_inv, Bool-cases, Option-cases, ltb, leb, leb→le, leb→lt, u8, bit_or,
}
use native.Mathlib.Nat.{mod-eq_of_lt}
use native.Mathlib.Decide.{ℕ_discrete, dec_lt}
use vibeos_fpga.Common.Digits.{bit_and-low}
use vibeos_fpga.Common.Bitmap.{
  bit, bit-lt, mark, unmark, is_marked, bit-mark, bit-unmark, length-mark, length-unmark,
  pow-lt-256,
}
use vibeos_fpga.Alloc.{
  page_bit_mask, page_is_used, page_set_used, page_clear_used, set_pages, clear_pages, first_used,
  search_pages,
}

page_bit_mask_lem : (i : ℕ) → page_bit_mask i ≡ 2 ^ (i % 8)
unfolding page_bit_mask
page_bit_mask_lem i = rw (bit_and-low 3 i) (mod-eq_of_lt (pow-lt-256 (i % 8) (omega arith)))

pub page_is_used_lem : (bm : List ℕ) (i : ℕ) → page_is_used bm i ≡ (bit bm i == 1)
unfolding page_is_used
page_is_used_lem bm i = rw (page_bit_mask_lem i) (is_marked bm i)

pub page_set_used_lem : (bm : List ℕ) (i : ℕ) → page_set_used bm i ≡ mark bm i
unfolding page_set_used mark
page_set_used_lem bm i =
    ap (λ (m : ℕ). set bm (i / 8) (u8 (bit_or (get_or bm (i / 8) 0) m))) (page_bit_mask_lem i)

pub page_clear_used_lem : (bm : List ℕ) (i : ℕ) → page_clear_used bm i ≡ unmark bm i
unfolding page_clear_used unmark
page_clear_used_lem bm i =
    ap (λ (m : ℕ). set bm (i / 8) (u8 (bit_and (get_or bm (i / 8) 0) (255 - m))))
      (page_bit_mask_lem i)

-- 1 inside the run of `n` pages from `page` on, 0 outside.
abbrev pub inside : ℕ → ℕ → ℕ → ℕ
inside page n i = if leb page i then (if ltb i (page + n) then 1 else 0) else 0

-- A run that the bitmap has bits for, at indices that do not wrap.
abbrev pub Fits : List ℕ → ℕ → ℕ → Type 0
Fits bm page n = (page + n ≤ 8 * length bm) × (page + n < 2 ^ 32)

-- Setting a run changes its bits and no other.
pub bit-set_pages :
    (bm : List ℕ) (page n : ℕ)
    → Fits bm page n
    → (length (set_pages bm page n) ≡ length bm)
      × ((i : ℕ) → bit (set_pages bm page n) i ≡ (if inside page n i == 1 then 1 else bit bm i))
unfolding set_pages
bit-set_pages bm page n (fits, small) =
    for_range_inv
      (λ k t.
        (length t ≡ length bm)
        × ((i : ℕ) → bit t i ≡ (if inside page k i == 1 then 1 else bit bm i)))
      (λ j t. page_set_used t (add32 page j)) n 0 n bm (omega arith)
      (λ k t p q r. (
        rw (page_set_used_lem t (add32 page k)) (length-mark t (add32 page k) ∙ r.0),
        λ i.
            rw (page_set_used_lem t (add32 page k))
              (rw (bit-mark t (add32 page k) i (omega (arith, r.0))) (ground (arith, r.1 i))),
      ))
      (refl, λ i. ground arith)

pub bit-clear_pages :
    (bm : List ℕ) (page n : ℕ)
    → Fits bm page n
    → (length (clear_pages bm page n) ≡ length bm)
      × ((i : ℕ) → bit (clear_pages bm page n) i ≡ (if inside page n i == 1 then 0 else bit bm i))
unfolding clear_pages
bit-clear_pages bm page n (fits, small) =
    for_range_inv
      (λ k t.
        (length t ≡ length bm)
        × ((i : ℕ) → bit t i ≡ (if inside page k i == 1 then 0 else bit bm i)))
      (λ j t. page_clear_used t (add32 page j)) n 0 n bm (omega arith)
      (λ k t p q r. (
        rw (page_clear_used_lem t (add32 page k)) (length-unmark t (add32 page k) ∙ r.0),
        λ i.
            rw (page_clear_used_lem t (add32 page k))
              (rw (bit-unmark t (add32 page k) i (omega (arith, r.0))) (ground (arith, r.1 i))),
      ))
      (refl, λ i. ground arith)

-- What the inner loop of malloc finds: none of the pages used, or the first used one.
abbrev Found : List ℕ → ℕ → ℕ → ℕ → Option ℕ → Type 0
Found bm page j end none = (k : ℕ) → j ≤ k → k < end → bit bm (page + k) ≡ 0
Found bm page j end (some hit) = (j ≤ hit) × (hit < end) × (bit bm (page + hit) ≡ 1)

used→bit : (bm : List ℕ) (i : ℕ) → page_is_used bm i ≡ true → bit bm i ≡ 1
used→bit bm i h = ground (arith, page_is_used_lem bm i)

unused→bit : (bm : List ℕ) (i : ℕ) → page_is_used bm i ≡ false → bit bm i ≡ 0
unused→bit bm i h = ground (arith, page_is_used_lem bm i, bit-lt bm i)

Found-tail :
    (bm : List ℕ) (page j end : ℕ) (o : Option ℕ)
    → bit bm (page + j) ≡ 0
    → Found bm page (suc j) end o
    → Found bm page j end o
Found-tail bm page j end none here f =
    λ k p q. elim (ℕ_discrete j k) [ yes e ↦ rw (← e) here | no ne ↦ f k (omega arith) q ]
Found-tail bm page j end (some hit) here f = omega arith

first_used-Found :
    (bm : List ℕ) (page left j end : ℕ)
    → j + left ≡ end
    → page + end < 2 ^ 32
    → Found bm page j end (first_used bm page left j)
unfolding first_used
first_used-Found bm page zero j end e h = λ k p q. absurd (omega arith)
first_used-Found bm page (suc left) j end e h =
    let here : add32 page j ≡ page + j = omega arith in
    elim (Bool-cases (page_is_used bm (add32 page j))) [
      | inl used ↦
          rw (used, first_used)
            (omega arith, omega arith, rw (← here) (used→bit bm (add32 page j) used))
      | inr unused ↦
          rw (unused, first_used)
            (Found-tail bm page j end _ (rw (← here) (unused→bit bm (add32 page j) unused))
              (first_used-Found bm page left (suc j) end (omega arith) h))
    ]

-- All pages of the run are free.
abbrev pub IsFreeRun : List ℕ → ℕ → ℕ → Type 0
IsFreeRun bm page n = (i : ℕ) → page ≤ i → i < page + n → bit bm i ≡ 0

-- What the search of malloc finds: the first free run of `n` pages that starts at `page` or later
-- and ends at `last` at most, or that there is none.
abbrev pub Searched : List ℕ → ℕ → ℕ → ℕ → Option ℕ → Type 0
Searched bm page n last none = (q : ℕ) → page ≤ q → q + n ≤ last → ¬ IsFreeRun bm q n
Searched bm page n last (some p) =
    (page ≤ p)
    × (p + n ≤ last)
    × IsFreeRun bm p n
    × ((q : ℕ) → page ≤ q → q < p → ¬ IsFreeRun bm q n)

spoiled :
    (bm : List ℕ) (page n hit q : ℕ)
    → hit < n
    → bit bm (page + hit) ≡ 1
    → page ≤ q
    → q ≤ page + hit
    → ¬ IsFreeRun bm q n
spoiled bm page n hit q h b p r run = omega (arith, run (page + hit) (omega arith) (omega arith))

-- A used page inside a run spoils it, so the search may skip to the page behind it.
Searched-skip :
    (bm : List ℕ) (page n last hit : ℕ) (o : Option ℕ)
    → hit < n
    → bit bm (page + hit) ≡ 1
    → Searched bm (page + hit + 1) n last o
    → Searched bm page n last o
Searched-skip bm page n last hit none h b s = λ q p r. elim (dec_lt (page + hit) q) [
  | yes past ↦ s q (omega arith) r
  | no short ↦ spoiled bm page n hit q h b p (omega arith)
]
Searched-skip bm page n last hit (some x) h b s = (
  omega (arith, s.0),
  s.1,
  s.2,
  λ q p r. elim (dec_lt (page + hit) q) [
    | yes past ↦ s.3 q (omega arith) r
    | no short ↦ spoiled bm page n hit q h b p (omega arith)
  ],
)

pub search_pages-Searched :
    (fuel : ℕ) (bm : List ℕ) (page n last : ℕ)
    → last < page + fuel
    → page ≤ last
    → last < 2 ^ 31
    → n < 2 ^ 31
    → 0 < n
    → Searched bm page n last (search_pages fuel bm page n last)
unfolding search_pages
search_pages-Searched zero bm page n last f le small fits pos = absurd (omega arith)
search_pages-Searched (suc fuel) bm page n last f le small fits pos =
    elim (Bool-cases (leb (add32 page n) last)) [
      | inl in_reach ↦
          let reach : page + n ≤ last = omega (arith, leb→le _ _ in_reach) in
          elim (Option-cases (first_used bm page n 0)) [
            | inl all_free ↦
                rw (in_reach, all_free, search_pages)
                  (
                    omega arith,
                    reach,
                    free_run all_free (first_used-Found bm page n 0 n (omega arith) (omega arith)),
                    λ q p r. absurd (omega arith),
                  )
            | inr (j, hit) ↦
                let found =
                  Found-some hit (first_used-Found bm page n 0 n (omega arith) (omega arith)) in
                let next : add32 (add32 page j) 1 ≡ page + j + 1 = omega (arith, found) in
                rw (in_reach, hit, search_pages)
                  (rw next (
                    Searched-skip bm page n last j _ found.0 found.1 (
                      search_pages-Searched fuel bm (page + j + 1) n last (omega arith)
                        (omega (arith, found)) small fits pos)))
          ]
      | inr out ↦ rw (out, search_pages) (λ q p r. absurd (omega (arith, leb→lt _ _ out)))
    ]
  where
    free_run :
        first_used bm page n 0 ≡ none
        → Found bm page 0 n (first_used bm page n 0)
        → IsFreeRun bm page n
    free_run e f' i p q =
        let g = rw e at f' in
        let there : page + (i - page) ≡ i = omega arith in
        rw there at (g (i - page) (omega arith) (omega arith))

    Found-some :
        {j : ℕ}
        → first_used bm page n 0 ≡ some j
        → Found bm page 0 n (first_used bm page n 0)
        → (j < n) × (bit bm (page + j) ≡ 1)
    Found-some e f' = let g = rw e at f' in (g.1, g.2)
