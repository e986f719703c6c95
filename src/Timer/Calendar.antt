-- ===== src/Timer/Calendar.antt =====
-- The calendar: the date of a time, and the time of a date.
pub mod Gregorian
use vibeos_fpga.Common.{
  ℕ, zero, suc, ◌+◌, ◌-◌, ◌*◌, ◌/◌, ◌%◌, ◌^◌, ◌≤◌, ◌<◌, min, ◌≡◌, refl, ◌∙◌, ap, true, false, ◌&&◌,
  ◌⊎◌, inl, inr, ltb, leb, ◌==◌, if◌then◌else◌, u32, u64, add32, arith, get_or, for_range,
  all_below, all_below_sound, Bool-cases, ltb→lt, ltb→le, leb→le,
}
use native.Mathlib.Decide.{ℕ_discrete}
use vibeos_fpga.Timer.{
  mdays, is_leap_year, days_before_month, year_length, ymd_hms_to_unix, year_loop, month_length,
  month_loop, gmtime_r,
}

-- The days of `n` years from `year` on, and of `n` months from `month` on.
pub years : ℕ → ℕ → ℕ
years zero year = 0
years (suc n) year = year_length year + years n (suc year)

pub months : ℕ → (year month : ℕ) → ℕ
months zero year month = 0
months (suc n) year month = month_length year month + months n year (suc month)

year_length-bounds : (year : ℕ) → (365 ≤ year_length year) × (year_length year ≤ 366)
year_length-bounds year = (ground arith, ground arith)

-- Where the loop over the years stops: within a year that begins after whole years.
year_loop_lem :
    (fuel days year : ℕ)
    → days < fuel
    → year + fuel < 2 ^ 32
    → (n : ℕ) × ((year_loop fuel days year).1 ≡ year + n)
      × (days ≡ years n year + (year_loop fuel days year).0)
      × ((year_loop fuel days year).0 < year_length (year_loop fuel days year).1)
      × (n ≤ fuel)
unfolding year_loop years
year_loop_lem zero days year h w = absurd (omega arith)
year_loop_lem (suc fuel) days year h w = elim (Bool-cases (ltb days (year_length year))) [
  | inl e ↦ rw (year_loop, e) (0, omega arith, omega arith, ltb→lt _ _ e, omega arith)
  | inr e ↦
      let next_year : add32 year 1 ≡ suc year = omega arith in
      let le : year_length year ≤ days = ltb→le _ _ e in
      let r =
        year_loop_lem fuel (days - year_length year) (suc year)
          (omega (arith, year_length-bounds year, le)) (omega arith) in
      rw (year_loop, e, next_year)
        (suc r.0, omega (arith, r.1), omega (arith, r.2, le), r.3, omega (arith, r.4))
]

month_loop_lem :
    (left year days month : ℕ)
    → (n : ℕ) × ((month_loop left year days month).1 ≡ month + n)
      × (days ≡ months n year month + (month_loop left year days month).0)
      × (n ≤ left)
      × (((month_loop left year days month).0
            < month_length year (month_loop left year days month).1)
          ⊎ (n ≡ left))
unfolding month_loop months
month_loop_lem zero year days month = (0, omega arith, omega arith, omega arith, inr refl)
month_loop_lem (suc left) year days month = elim (Bool-cases (ltb days (month_length year month))) [
  | inl e ↦ rw (month_loop, e) (0, omega arith, omega arith, omega arith, inl (ltb→lt _ _ e))
  | inr e ↦
      let le : month_length year month ≤ days = ltb→le _ _ e in
      let r = month_loop_lem left year (days - month_length year month) (suc month) in
      rw (month_loop, e)
        (
          suc r.0,
          omega (arith, r.1),
          omega (arith, r.2, le),
          omega (arith, r.3),
          elim r.4 [ inl lt ↦ inl lt | inr all ↦ inr (omega arith) ],
        )
]

-- All months together are a year.
months_year : (year : ℕ) → months 12 year 0 ≡ year_length year
unfolding months
months_year year = ground arith

-- The sums of the code are those.
years-for_range :
    (n year s : ℕ)
    → s + 366 * n < 2 ^ 64
    → for_range n year (λ y days. u64 (days + year_length y)) s ≡ s + years n year
unfolding years for_range
years-for_range zero year s h = omega arith
years-for_range (suc n) year s h =
    let e : u64 (s + year_length year) ≡ s + year_length year =
      omega (arith, year_length-bounds year) in
    rw e (
      years-for_range n (suc year) (s + year_length year) (omega (arith, year_length-bounds year))
      ∙ omega arith)

mdays-le : (m : ℕ) → m < 12 → get_or mdays m 0 ≤ 31
unfolding all_below
mdays-le m h = leb→le _ _ (all_below_sound 12 (λ i. leb (get_or mdays i 0) 31) m small h)
  where
    small : all_below 12 (λ i. leb (get_or mdays i 0) 31) ≡ true
    small = refl

month_length-le : (year month : ℕ) → month < 12 → month_length year month ≤ 32
month_length-le year month h = ground (arith, mdays-le month h)

-- A round of the loop in days_before_month.
month_round :
    (year month s : ℕ)
    → month < 12
    → s + 32 < 2 ^ 32
    → (if suc month == 2 && is_leap_year year
        then add32 (add32 s (get_or mdays (suc month - 1) 0)) 1
        else add32 s (get_or mdays (suc month - 1) 0))
      ≡ s + month_length year month
month_round year month s h w =
    let same : suc month - 1 ≡ month = omega arith in rw same (ground (arith, mdays-le month h))

months-for_range :
    (n year month s : ℕ)
    → month + n ≤ 12
    → s + 32 * n < 2 ^ 32
    → for_range n
        (suc month)
        (λ m days.
          let days' = add32 days (get_or mdays (m - 1) 0) in
          if m == 2 && is_leap_year year then add32 days' 1 else days')
        s
      ≡ s + months n year month
unfolding months for_range
months-for_range zero year month s h w = omega arith
months-for_range (suc n) year month s h w =
    rw (month_round year month s (omega arith) (omega arith)) (
      months-for_range n year (suc month) (s + month_length year month) (omega arith)
        (omega (arith, month_length-le year month (omega arith)))
      ∙ omega arith)

days_before_month_lem :
    (year month : ℕ) → month < 12 → days_before_month year (month + 1) ≡ months month year 0
unfolding days_before_month
days_before_month_lem year month h =
    rw (one, small, one_less)
      (months-for_range month year 0 0 (omega arith) (omega arith) ∙ omega arith)
  where
    one : ltb (month + 1) 1 ≡ false
    one = ground arith

    small : ltb 12 (month + 1) ≡ false
    small = ground (arith, h)

    one_less : month + 1 - 1 ≡ month
    one_less = omega arith

years-ge : (n year : ℕ) → 365 * n ≤ years n year
unfolding years
years-ge zero year = omega arith
years-ge (suc n) year = omega (arith, years-ge n (suc year), year_length-bounds year)

months-le : (n year month : ℕ) → month + n ≤ 12 → months n year month ≤ 32 * n
unfolding months
months-le zero year month h = omega arith
months-le (suc n) year month h =
    omega
      (arith, months-le n year (suc month) (omega arith), month_length-le year month (omega arith))

years-le : (n year : ℕ) → years n year ≤ 366 * n
unfolding years
years-le zero year = omega arith
years-le (suc n) year = omega (arith, years-le n (suc year), year_length-bounds year)

-- The loop over the months stops before the year is over.
before_end :
    (k year yday mday : ℕ)
    → k ≤ 12
    → yday < year_length year
    → yday ≡ months k year 0 + mday
    → k < 12
before_end k year yday mday le lt e = elim (ℕ_discrete k 12) [
  | yes all ↦ absurd (omega (arith, months_year year, ap (λ (j : ℕ). months j year 0) all))
  | no ne ↦ omega arith
]

-- The time of a date in or after 1970.
pub ymd_hms_to_unix_lem :
    (n month day hour min sec : ℕ)
    → n ≤ 100000
    → month < 12
    → 1 ≤ day
    → day < 2 ^ 32
    → ymd_hms_to_unix (1970 + n) (month + 1) day hour min sec
      ≡ u32 (
          u64 (
            (years n 1970 + months month (1970 + n) 0 + (day - 1)) * 86400
            + hour * 3600
            + min * 60
            + sec))
unfolding ymd_hms_to_unix
ymd_hms_to_unix_lem n month day hour min sec few h one word =
    rw
      (
        late,
        is_day,
        count,
        years-for_range n 1970 0 (omega arith),
        days_before_month_lem (1970 + n) month h,
        sum,
      )
      refl
  where
    late : ltb (1970 + n) 1970 ≡ false
    late = ground arith

    is_day : ltb day 1 ≡ false
    is_day = ground (arith, one)

    count : 1970 + n - 1970 ≡ n
    count = omega arith

    sum :
        u64 (u64 (0 + years n 1970 + months month (1970 + n) 0) + (day - 1))
        ≡ years n 1970 + months month (1970 + n) 0 + (day - 1)
    sum = omega (arith, years-le n 1970, months-le month (1970 + n) 0 (omega arith))

-- The fields that the loops give lead back to the time.
date_back :
    (t n yday year k mday month : ℕ)
    → t < 2 ^ 32
    → year ≡ 1970 + n
    → t / 86400 ≡ years n 1970 + yday
    → yday ≡ months k year 0 + mday
    → month ≡ k
    → k < 12
    → ymd_hms_to_unix
        (year - 1900 + 1900)
        (month + 1)
        (mday + 1)
        (t % 86400 / 3600)
        (t % 86400 % 3600 / 60)
        (t % 86400 % 3600 % 60)
      ≡ t
date_back t n yday year k mday month h ey ed em ek lt =
    rw (whole, ek)
      (ymd_hms_to_unix_lem n k (mday + 1) _ _ _ (omega (arith, years-ge n 1970)) lt (omega arith)
          (omega arith)
        ∙ total)
  where
    whole : year - 1900 + 1900 ≡ 1970 + n
    whole = omega arith

    total :
        u32 (
          u64 (
            (years n 1970 + months k (1970 + n) 0 + (mday + 1 - 1)) * 86400
            + t % 86400 / 3600 * 3600
            + t % 86400 % 3600 / 60 * 60
            + t % 86400 % 3600 % 60))
        ≡ t
    total = omega (arith, ap (λ (y : ℕ). months k y 0) ey)

-- gmtime_r gives the date and time of day of every 32-bit time, and ymd_hms_to_unix of that date
-- and time of day is the time again.
pub ymd_hms_to_unix-gmtime_r :
    (t : ℕ)
    → t < 2 ^ 32
    → let g = gmtime_r t in
      (ymd_hms_to_unix (g.tm_year + 1900) (g.tm_mon + 1) g.tm_mday g.tm_hour g.tm_min g.tm_sec ≡ t)
      × (g.tm_sec < 60)
      × (g.tm_min < 60)
      × (g.tm_hour < 24)
      × (g.tm_mon < 12)
      × (1 ≤ g.tm_mday)
      × (g.tm_mday ≤ month_length (g.tm_year + 1900) g.tm_mon)
unfolding gmtime_r
ymd_hms_to_unix-gmtime_r t h =
    let signed : leb (2 ^ 63) t ≡ false = ground (arith, h) in
    let r = year_loop_lem (suc (t / 86400)) (t / 86400) 1970 (omega arith) (omega arith) in
    let yday = (year_loop (suc (t / 86400)) (t / 86400) 1970).0 in
    let year = (year_loop (suc (t / 86400)) (t / 86400) 1970).1 in
    let q = month_loop_lem 12 year yday 0 in
    let mday = (month_loop 12 year yday 0).0 in
    let month = (month_loop 12 year yday 0).1 in
    let lt = before_end q.0 year yday mday q.3 r.3 q.2 in
    let same_year : year - 1900 + 1900 ≡ year = omega (arith, r.1) in
    rw signed (
      date_back t r.0 yday year q.0 mday month h r.1 r.2 q.2 (omega (arith, q.1)) lt,
      omega arith,
      omega arith,
      omega arith,
      omega (arith, q.1, lt),
      omega arith,
      rw same_year (elim q.4 [
        | inl within ↦ omega (arith, within)
        | inr all ↦ absurd (omega (arith, all, lt))
      ]),
    )
