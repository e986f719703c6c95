-- ===== src/Fs/Handles/Reserve.antt =====
-- vibeos/fs.c: what appfs_reserve gives, and when it ends.
use native.Mathlib.Decide.{ℕ_discrete}
use native.Mathlib.Nat.{pow-suc, pow-le-pow_right}
use vibeos_fpga.Fs.Handles.{Fd, grow, adopt_buffer, appfs_reserve}
use vibeos_fpga.Common.{
  ℕ, zero, suc, ◌*◌, ◌^◌, ◌≤◌, ◌<◌, ◌≡◌, ◌≢◌, refl, ap, true, false, ◌⊎◌, inl, inr, Option, none,
  some, List, [], ◌∷◌, ◌++◌, leb, ◌==◌, if◌then◌else◌, u32, arith, length, take, drop, Bool-cases,
  Option-cases, le→ltb, leb→le, leb→lt, eq→==, ne→==, length-append, length-take, length-drop,
}

-- A well-formed descriptor: its buffer has its capacity, and its position lies within its size.
pub record IsFd (fd : Fd) : Type 0 where
  pub whole : length fd.buf ≡ fd.cap
  pub size_le : fd.size ≤ fd.cap
  pub pos_le : fd.pos ≤ fd.size
  pub cap_lt : fd.cap < 2 ^ 32

-- malloc gives a block of the size that it is asked for.
abbrev pub IsMalloc : (ℕ → Option (List ℕ)) → Type 0
IsMalloc malloc = (n : ℕ) (b : List ℕ) → malloc n ≡ some b → length b ≡ n

-- The contents of the file.
unfoldable pub content : Fd → List ℕ
content fd = take fd.size fd.buf

grow_lem :
    (fuel need cap c : ℕ)
    → need ≤ 2 ^ 31
    → need ≤ c * 2 ^ fuel
    → cap ≤ c
    → c < 2 ^ 32
    → (c' : ℕ) × (grow (suc fuel) need cap c ≡ some (some c'))
      × (need ≤ c')
      × (cap ≤ c')
      × (c' < 2 ^ 32)
unfolding grow
grow_lem zero need cap c small enough ge lt = elim (Bool-cases (leb need c)) [
  | inl e ↦ (c, rw (e) refl, leb→le _ _ e, ge, lt)
  | inr e ↦ absurd (omega (arith, leb→lt _ _ e))
]
grow_lem (suc fuel) need cap c small enough ge lt = elim (Bool-cases (leb need c)) [
  | inl e ↦ (c, rw (e) refl, leb→le _ _ e, ge, lt)
  | inr e ↦
      let less = leb→lt _ _ e in
      let doubled : u32 (c * 2) ≡ c * 2 = omega arith in
      let room : need ≤ u32 (c * 2) * 2 ^ fuel =
        rw (doubled) (omega (arith, ap (λ (t : ℕ). c * t) (pow-suc 2 fuel))) in
      let (c', f, n, g, l) =
        grow_lem fuel need cap (u32 (c * 2)) small room (omega arith) (omega arith) in
      (c', rw (e, le→ltb (u32 (c * 2)) cap (omega arith)) f, n, g, l)
]

-- The capacity that a loop that never ends goes through: powers of two, and then 0.
abbrev Doubling : ℕ → Type 0
Doubling c = (c ≡ 0) ⊎ ((j : ℕ) × (j ≤ 31) × (c ≡ 2 ^ j))

Doubling-le : (c : ℕ) → Doubling c → c ≤ 2 ^ 31
Doubling-le c (inl e) = omega arith
Doubling-le c (inr (j, le, e)) = omega (arith, e, pow-le-pow_right {n = 2} (omega arith) le)

at_most_30 : (j : ℕ) → j ≤ 31 → j ≢ 31 → j ≤ 30
at_most_30 j le ne = omega arith

Doubling-step : (c : ℕ) → Doubling c → Doubling (u32 (c * 2))
Doubling-step c (inl e) = inl (omega arith)
Doubling-step c (inr (j, le, e)) = elim (ℕ_discrete j 31) [
  | yes last ↦ inl (rw (e, last) refl)
  | no ne ↦
      let bound = pow-le-pow_right {n = 2} (omega arith) (at_most_30 j le ne) in
      inr (suc j, omega arith, omega (arith, e, bound, pow-suc 2 j))
]

grow_forever : (fuel need c : ℕ) → 2 ^ 31 < need → Doubling c → grow fuel need 0 c ≡ none
unfolding grow
grow_forever zero need c big d = refl
grow_forever (suc fuel) need c big d =
    let short : leb need c ≡ false = ground (arith, Doubling-le c d) in
    rw (short, le→ltb (u32 (c * 2)) 0 (omega arith))
      (grow_forever fuel need (u32 (c * 2)) big (Doubling-step c d))

-- For a larger size the loop never ends while the descriptor has no buffer.
grow_never : (fuel need : ℕ) → 2 ^ 31 < need → grow fuel need 0 256 ≡ none
grow_never fuel need big = grow_forever fuel need 256 big (inr (8, omega arith, refl))

-- The loop of appfs_reserve ends within the fuel for every size up to 2^31 and every capacity, with
-- a capacity that has room for the size.
pub grow-ends :
    (need cap : ℕ)
    → need ≤ 2 ^ 31
    → cap < 2 ^ 32
    → (c : ℕ) × (grow 34 need cap (if cap == 0 then 256 else cap) ≡ some (some c)) × (need ≤ c)
grow-ends need cap small lt = elim (ℕ_discrete cap 0) [
  | yes e ↦
      let (c, f, n, g, l) =
        grow_lem 33 need cap 256 small (omega arith) (omega arith) (omega arith) in
      (c, rw (eq→== cap 0 e) f, n)
  | no ne ↦
      let (c, f, n, g, l) = grow_lem 33 need cap cap small (omega arith) (omega arith) lt in
      (c, rw (ne→== cap 0 ne) f, n)
]

-- What a reserve that succeeds leaves.
pub record Reserved (need : ℕ) (fd fd' : Fd) : Type 0 where
  pub valid : IsFd fd'
  pub room : need ≤ fd'.cap
  pub same_pos : fd'.pos ≡ fd.pos
  pub same_size : fd'.size ≡ fd.size
  pub same_flags : fd'.flags ≡ fd.flags
  pub same_content : content fd' ≡ content fd

take-take_append : (n : ℕ) (xs ys : List ℕ) → n ≤ length xs → take n (take n xs ++ ys) ≡ take n xs
take-take_append zero xs ys le = refl
take-take_append (suc n) [] ys le = absurd (omega arith)
take-take_append (suc n) (x ∷ xs) ys le =
    ap (λ (t : List ℕ). x ∷ t) (take-take_append n xs ys (omega arith))

adopt_buffer-Reserved :
    (need c : ℕ) (fresh : List ℕ) {fd : Fd}
    → IsFd fd
    → need ≤ c
    → fd.cap ≤ c
    → c < 2 ^ 32
    → length fresh ≡ c
    → Reserved need fd (adopt_buffer c fresh fd)
unfolding adopt_buffer content
adopt_buffer-Reserved need c fresh {fd} v n g l e =
    let kept = take fd.size fd.buf in
    let len : length kept ≡ fd.size =
      omega (arith, length-take fd.size fd.buf, v.whole, v.size_le) in
    record {
      valid = record {
        whole = omega (
          arith,
          length-append kept (drop (length kept) fresh),
          length-drop (length kept) fresh,
          len,
          v.size_le,
        );
        size_le = omega (arith, v.size_le);
        pos_le = v.pos_le;
        cap_lt = l;
      };
      room = n;
      same_pos = refl;
      same_size = refl;
      same_flags = refl;
      same_content =
          take-take_append fd.size fd.buf (drop (length kept) fresh)
            (omega (arith, v.whole, v.size_le));
    }

-- appfs_reserve of a size up to 2^31 returns: it fails when malloc gives no buffer that is large
-- enough, and leaves the descriptor, or it makes room and keeps the contents and the position.
pub appfs_reserve-Reserved :
    (malloc : ℕ → Option (List ℕ)) (need : ℕ) {fd : Fd}
    → IsMalloc malloc
    → IsFd fd
    → need ≤ 2 ^ 31
    → ((appfs_reserve malloc need fd ≡ some (false, fd))
        × ((c : ℕ) × (need ≤ c) × (malloc c ≡ none)))
      ⊎ ((fd' : Fd) × (appfs_reserve malloc need fd ≡ some (true, fd')) × Reserved need fd fd')
unfolding appfs_reserve
appfs_reserve-Reserved malloc need {fd} m v small = elim (Bool-cases (leb need fd.cap)) [
  | inl e ↦ inr (
    fd,
    rw (e, appfs_reserve) refl,
    record {
      valid = v;
      room = leb→le _ _ e;
      same_pos = refl;
      same_size = refl;
      same_flags = refl;
      same_content = refl;
    },
  )
  | inr e ↦
      let (c, f, n, g, l) = grown in
      elim (Option-cases (malloc c)) [
        | inl out ↦ inl (rw (e, f, out, appfs_reserve) refl, (c, n, out))
        | inr (fresh, got) ↦ inr (
          adopt_buffer c fresh fd,
          rw (e, f, got, appfs_reserve) refl,
          adopt_buffer-Reserved need c fresh v n g l (m c fresh got),
        )
      ]
]
  where
    grown :
        (c' : ℕ) × (grow 34 need fd.cap (if fd.cap == 0 then 256 else fd.cap) ≡ some (some c'))
        × (need ≤ c')
        × (fd.cap ≤ c')
        × (c' < 2 ^ 32)
    grown = elim (ℕ_discrete fd.cap 0) [
      | yes z ↦
          rw (eq→== fd.cap 0 z)
            (grow_lem 33 need fd.cap 256 small (omega arith) (omega arith) (omega arith))
      | no ne ↦
          rw (ne→== fd.cap 0 ne)
            (grow_lem 33 need fd.cap fd.cap small (omega arith) (omega arith) v.cap_lt)
    ]
