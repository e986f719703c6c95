-- ===== src/Timer/Calendar/Gregorian.antt =====
-- The calendar against the Gregorian rule.
use mathlib.Core.Path.{subst}
use vibeos_fpga.Common.{ℕ, zero, suc, ◌+◌, ◌-◌, ◌*◌, ◌/◌, ◌≤◌, ◌≡◌, ◌∙◌, ap, u32, arith}
use vibeos_fpga.Timer.{is_leap_year, year_length, ymd_hms_to_unix}
use vibeos_fpga.Timer.Calendar.{years, months, ymd_hms_to_unix_lem}

-- The days of the Gregorian calendar in front of a year, from the year 1 on.
abbrev pub gregorian : ℕ → ℕ
gregorian year = 365 * (year - 1) + (year - 1) / 4 + (year - 1) / 400 - (year - 1) / 100

gregorian-suc : (year : ℕ) → 1 ≤ year → gregorian (suc year) ≡ gregorian year + year_length year
unfolding is_leap_year
gregorian-suc year h = ground arith

years-gregorian : (n year : ℕ) → 1 ≤ year → gregorian (year + n) ≡ gregorian year + years n year
unfolding years
years-gregorian zero year h = omega arith
years-gregorian (suc n) year h =
    let e : year + suc n ≡ suc year + n = omega arith in
    rw e (years-gregorian n (suc year) (omega arith) ∙ omega (arith, gregorian-suc year h))

-- A year from 1970 to 100000 begins as many days after 1 January 1970 as the Gregorian calendar has
-- between them, counted in seconds modulo 2 ^ 32.
pub ymd_hms_to_unix-gregorian :
    (year : ℕ)
    → 1970 ≤ year
    → year ≤ 100000
    → ymd_hms_to_unix year 1 1 0 0 0 ≡ u32 ((gregorian year - gregorian 1970) * 86400)
unfolding months
ymd_hms_to_unix-gregorian year h few =
    let e : 1970 + (year - 1970) ≡ year = omega arith in
    subst (λ (y : ℕ). ymd_hms_to_unix y 1 1 0 0 0 ≡ u32 ((gregorian year - gregorian 1970) * 86400))
      e
      (ymd_hms_to_unix_lem (year - 1970) 0 1 0 0 0 (omega arith) (omega arith) (omega arith)
          (omega arith)
        ∙ omega (arith, ap gregorian e, years-gregorian (year - 1970) 1970 (omega arith)))
