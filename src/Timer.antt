-- ===== src/Timer.antt =====
-- vibeos/timer.c: the calendar, the wall clock and the random numbers.
--
-- What the hardware counter shows is an argument: `mtime` in ticks. set_next_timer and timer_init
-- only write device registers. A `time_t` is a 64-bit word, the fields of a struct tm are numbers.
pub mod Calendar
pub mod Clock
mod Tests
use vibeos_fpga.Common.{
  ℕ, zero, suc, ◌+◌, ◌-◌, ◌*◌, ◌/◌, ◌%◌, ◌^◌, min, bit_xor, Bool, true, false, not, ◌&&◌, ◌||◌,
  List, [], ◌∷◌, ltb, leb, ◌==◌, if◌then◌else◌, u32, u64, add32, sub32, get_or, for_range,
}

-- The lengths of the months, and 1 more for a leap February.
abbrev pub mdays : List ℕ
mdays = 31 ∷ 28 ∷ 31 ∷ 30 ∷ 31 ∷ 30 ∷ 31 ∷ 31 ∷ 30 ∷ 31 ∷ 30 ∷ 31 ∷ []

pub is_leap_year : ℕ → Bool
is_leap_year year = (year % 4 == 0 && not (year % 100 == 0)) || year % 400 == 0

pub days_before_month : (year month : ℕ) → ℕ
days_before_month year month =
    let from_one = if ltb month 1 then 1 else month in
    let clamped = if ltb 12 from_one then 12 else from_one in
    for_range (clamped - 1) 1
      (λ m days.
        let days' = add32 days (get_or mdays (m - 1) 0) in
        if m == 2 && is_leap_year year then add32 days' 1 else days')
      0

abbrev pub year_length : ℕ → ℕ
year_length year = if is_leap_year year then 366 else 365

pub ymd_hms_to_unix : (year month day hour min sec : ℕ) → ℕ
ymd_hms_to_unix year month day hour min sec =
    let year' = if ltb year 1970 then 1970 else year in
    let day' = if ltb day 1 then 1 else day in
    let years = for_range (year' - 1970) 1970 (λ y days. u64 (days + year_length y)) 0 in
    let days = u64 (u64 (years + days_before_month year' month) + (day' - 1)) in
    u32 (u64 (days * 86400 + hour * 3600 + min * 60 + sec))

-- struct tm; tm_isdst is 0.
pub record Tm : Type 0 where
  pub tm_sec : ℕ
  pub tm_min : ℕ
  pub tm_hour : ℕ
  pub tm_mday : ℕ
  pub tm_mon : ℕ
  pub tm_year : ℕ
  pub tm_wday : ℕ
  pub tm_yday : ℕ

-- The loop over the years: the days left and the year. A year takes at least a day, so the number
-- of days is enough fuel.
pub year_loop : ℕ → (days year : ℕ) → ℕ × ℕ
year_loop zero days year = (days, year)
year_loop (suc fuel) days year = elim (ltb days (year_length year)) [
  | true ↦ (days, year)
  | false ↦ year_loop fuel (days - year_length year) (add32 year 1)
]

abbrev pub month_length : (year month : ℕ) → ℕ
month_length year month = get_or mdays month 0 + (if month == 1 && is_leap_year year then 1 else 0)

-- The loop over the `left` months from `month` on: the days left and the month.
pub month_loop : ℕ → (year days month : ℕ) → ℕ × ℕ
month_loop zero year days month = (days, month)
month_loop (suc left) year days month = elim (ltb days (month_length year month)) [
  | true ↦ (days, month)
  | false ↦ month_loop left year (days - month_length year month) (suc month)
]

-- gmtime_r of pointers that are not NULL.
pub gmtime_r : ℕ → Tm
gmtime_r timer =
    let t = if leb (2 ^ 63) timer then 0 else timer in
    let days = t / 86400 in
    let rem = t % 86400 in
    let (yday, year) = year_loop (suc days) days 1970 in
    let (mday, month) = month_loop 12 year yday 0 in
    record {
      tm_sec = rem % 3600 % 60;
      tm_min = rem % 3600 / 60;
      tm_hour = rem / 3600;
      tm_mday = mday + 1;
      tm_mon = month;
      tm_year = year - 1900;
      tm_wday = (days + 4) % 7;
      tm_yday = yday;
    }

-- The state of the timer; the build's time is a constant of the build.
pub record Timer : Type 0 where
  pub build_time : ℕ
  pub timer_count : ℕ
  pub lwip_rand_state : ℕ
  pub wall_clock_base_epoch : ℕ
  pub wall_clock_base_ms : ℕ
  pub wall_clock_initialized : Bool
  pub wall_clock_synced : Bool

-- MTIME_TICKS_PER_MS, for a counter of 10 MHz
abbrev pub ticks_per_ms : ℕ
ticks_per_ms = 10000

pub get_millisecond_timer : ℕ → ℕ
get_millisecond_timer mtime = u32 (mtime / ticks_per_ms)

pub wall_clock_init_if_needed : ℕ → Timer → Timer
wall_clock_init_if_needed mtime s = if s.wall_clock_initialized then s else record s {
  wall_clock_base_epoch = s.build_time;
  wall_clock_base_ms = get_millisecond_timer mtime;
  wall_clock_initialized = true;
}

-- get_wall_clock_seconds; the counter is read again after the clock was set up.
pub get_wall_clock_seconds : (first second : ℕ) → Timer → ℕ × Timer
get_wall_clock_seconds first second s =
    let s' = wall_clock_init_if_needed first s in
    (
      add32 s'.wall_clock_base_epoch
          (sub32 (get_millisecond_timer second) s'.wall_clock_base_ms / 1000),
      s',
    )

pub set_wall_clock_unix_seconds : (unix_seconds mtime : ℕ) → Timer → Timer
set_wall_clock_unix_seconds unix_seconds mtime s = record s {
  wall_clock_base_epoch = unix_seconds;
  wall_clock_base_ms = get_millisecond_timer mtime;
  wall_clock_initialized = true;
  wall_clock_synced = true;
}

-- timer_handler, beside the write of the next deadline.
pub timer_handler : Timer → Timer
timer_handler s = record s { timer_count = add32 s.timer_count 1 }

-- The three shifts of lwip_rand.
pub scramble : ℕ → ℕ
scramble x =
    let x1 = bit_xor x (u32 (x * 2 ^ 13)) in
    let x2 = bit_xor x1 (x1 / 2 ^ 17) in bit_xor x2 (u32 (x2 * 2 ^ 5))

pub lwip_rand : (mtime hart : ℕ) → Timer → ℕ × Timer
lwip_rand mtime hart s =
    let x =
      bit_xor
        (bit_xor (bit_xor (scramble s.lwip_rand_state) (get_millisecond_timer mtime))
          (u32 (hart * 2 ^ 16)))
        s.timer_count in
    (x, record s { lwip_rand_state = x })
