-- ===== src/Timer/Clock.antt =====
-- The wall clock over time.
use vibeos_fpga.Common.{ℕ, ◌+◌, ◌-◌, ◌/◌, ◌^◌, ◌≤◌, ◌<◌, ◌≡◌, refl, u32, sub32, arith}
use vibeos_fpga.Timer.{
  Timer, get_millisecond_timer, get_wall_clock_seconds, set_wall_clock_unix_seconds,
  wall_clock_init_if_needed,
}

-- The milliseconds that the counter of 10 MHz shows, before they are cut to 32 bits.
abbrev pub milliseconds : ℕ → ℕ
milliseconds mtime = mtime / 10000

-- In the build whose counter runs at 10 MHz, a clock that was set goes on with the counter, for as
-- long as 32 bits of milliseconds last, even across the turn of those bits.
pub get_wall_clock_seconds-set_wall_clock_unix_seconds :
    (unix_seconds start first second : ℕ) (s : Timer)
    → unix_seconds < 2 ^ 32
    → milliseconds start ≤ milliseconds second
    → milliseconds second < milliseconds start + 2 ^ 32
    → (get_wall_clock_seconds first second (set_wall_clock_unix_seconds unix_seconds start s)).0
      ≡ u32 (unix_seconds + (milliseconds second - milliseconds start) / 1000)
unfolding get_wall_clock_seconds set_wall_clock_unix_seconds wall_clock_init_if_needed
    get_millisecond_timer
get_wall_clock_seconds-set_wall_clock_unix_seconds unix_seconds start first second s word le lt =
    rw elapsed refl
  where
    elapsed : sub32 (u32 (second / 10000)) (u32 (start / 10000)) ≡ second / 10000 - start / 10000
    elapsed = omega arith
