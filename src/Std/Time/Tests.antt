-- ===== src/Std/Time/Tests.antt =====
-- Clocks at concrete values, for lib/std_api/src/sa_time.c.
use rmm_2023_pre.Common.{◌-◌, ◌/◌, ◌≡◌, refl, arith}
use rmm_2023_pre.Std.Time.{Timespec, kilo, mega, timer_get_us, timer_get_ms, timespec_add_ms}
use rmm_2023_pre.Std.Time.Sums.{IsNormal, total}
use rmm_2023_pre.Std.Time.Timers.{timer_get_us_lem}

abbrev started : Timespec
started = record { tv_sec = 7; tv_nsec = 999999000 }

abbrev ended : Timespec
ended = record { tv_sec = 9; tv_nsec = 1500 }

started-IsNormal : IsNormal started
started-IsNormal = record { seconds = omega arith; nanoseconds = omega arith }

ended-IsNormal : IsNormal ended
ended-IsNormal = record { seconds = omega arith; nanoseconds = omega arith }

-- 1.0000025 seconds.
timer_get_us_lem_example :
    (timer_get_us started ended ≡ (total ended - total started) / kilo)
    × (timer_get_ms started ended ≡ (total ended - total started) / mega)
timer_get_us_lem_example =
    timer_get_us_lem started ended started-IsNormal ended-IsNormal (omega arith) (omega arith)

timer_get_us_run : timer_get_us started ended ≡ 1000002
unfolding timer_get_us
timer_get_us_run = refl

-- The nanoseconds run over.
timespec_add_ms_run : timespec_add_ms started 1001 ≡ record { tv_sec = 9; tv_nsec = 999000 }
unfolding timespec_add_ms
timespec_add_ms_run = refl
