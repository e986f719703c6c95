-- ===== src/Timer/Tests.antt =====
-- The calendar and the clock on a few times.
use vibeos_fpga.Common.{◌*◌, ◌+◌, ◌-◌, ◌/◌, ◌≤◌, ◌<◌, ◌≡◌, refl, false, u32, arith, for_range}
use vibeos_fpga.Timer.{
  Timer, gmtime_r, ymd_hms_to_unix, days_before_month, month_length, year_loop, month_loop,
  is_leap_year, timer_handler, lwip_rand, scramble, get_wall_clock_seconds,
  set_wall_clock_unix_seconds,
}
use vibeos_fpga.Timer.Calendar.{ymd_hms_to_unix-gmtime_r}
use vibeos_fpga.Timer.Calendar.Gregorian.{gregorian, ymd_hms_to_unix-gregorian}
use vibeos_fpga.Timer.Clock.{milliseconds, get_wall_clock_seconds-set_wall_clock_unix_seconds}

-- 29 February 2024, 12:34:56
leap_day_test : ymd_hms_to_unix 2024 2 29 12 34 56 ≡ 1709210096
unfolding ymd_hms_to_unix days_before_month is_leap_year for_range
leap_day_test = refl

gmtime_r_test : gmtime_r 1709210096 ≡ record {
  tm_sec = 56;
  tm_min = 34;
  tm_hour = 12;
  tm_mday = 29;
  tm_mon = 1;
  tm_year = 124;
  tm_wday = 4;
  tm_yday = 59;
}
unfolding gmtime_r year_loop month_loop is_leap_year
gmtime_r_test = refl

ymd_hms_to_unix-gmtime_r_example :
    let g = gmtime_r 1709210096 in
    (ymd_hms_to_unix (g.tm_year + 1900) (g.tm_mon + 1) g.tm_mday g.tm_hour g.tm_min g.tm_sec
      ≡ 1709210096)
    × (g.tm_sec < 60)
    × (g.tm_min < 60)
    × (g.tm_hour < 24)
    × (g.tm_mon < 12)
    × (1 ≤ g.tm_mday)
    × (g.tm_mday ≤ month_length (g.tm_year + 1900) g.tm_mon)
ymd_hms_to_unix-gmtime_r_example = ymd_hms_to_unix-gmtime_r 1709210096 (omega arith)

abbrev fresh : Timer
fresh = record {
  build_time = 1700000000;
  timer_count = 0;
  lwip_rand_state = 0x6d2b79f5;
  wall_clock_base_epoch = 0;
  wall_clock_base_ms = 0;
  wall_clock_initialized = false;
  wall_clock_synced = false;
}

get_wall_clock_seconds-set_wall_clock_unix_seconds_example :
    (get_wall_clock_seconds 0 123450000 (set_wall_clock_unix_seconds 1709210096 100000000 fresh)).0
    ≡ u32 (1709210096 + (milliseconds 123450000 - milliseconds 100000000) / 1000)
get_wall_clock_seconds-set_wall_clock_unix_seconds_example =
    get_wall_clock_seconds-set_wall_clock_unix_seconds 1709210096 100000000 0 123450000 fresh
      (omega arith) (omega arith) (omega arith)

timer_handler_test : (timer_handler (timer_handler fresh)).timer_count ≡ 2
unfolding timer_handler
timer_handler_test = refl

lwip_rand_test : (lwip_rand 0 0 fresh).1.lwip_rand_state ≡ (lwip_rand 0 0 fresh).0
unfolding lwip_rand scramble
lwip_rand_test = refl

ymd_hms_to_unix-gregorian_example :
    ymd_hms_to_unix 2024 1 1 0 0 0 ≡ u32 ((gregorian 2024 - gregorian 1970) * 86400)
ymd_hms_to_unix-gregorian_example = ymd_hms_to_unix-gregorian 2024 (omega arith) (omega arith)
