-- ===== src/Std/Time/Timers.antt =====
-- The timers of sa_time.c against the difference in nanoseconds, also when the clock is set back, and
-- the delays.
use rmm_2023_pre.Common.{ℕ, ◌+◌, ◌-◌, ◌*◌, ◌/◌, ◌^◌, ◌≤◌, ◌<◌, ◌≡◌, arith}
use rmm_2023_pre.Std.Time.{
  Timespec, giga, mega, kilo, timespec_sub, timespec_add_ms, timer_get_us, timer_get_ms, delay_us,
  delay_ms,
}
use rmm_2023_pre.Std.Time.Sums.{IsNormal, total, timespec_sub_lem}

-- The difference taken modulo 2^64 nanoseconds of a second count, when the clock went back.
sub_back :
    (now befo : Timespec)
    → IsNormal now
    → IsNormal befo
    → total now < total befo
    → (IsNormal (timespec_sub now befo))
      × (total (timespec_sub now befo) + total befo ≡ total now + 2 ^ 64 * giga)
unfolding timespec_sub
sub_back now befo h k l = ground arith

-- A unit that divides the second: `unit` nanoseconds, `per` of them a second.
timer_us_of :
    (d : Timespec)
    → IsNormal d
    → d.tv_sec < 2 ^ 40
    → d.tv_sec * mega + d.tv_nsec / kilo ≡ total d / kilo
timer_us_of d h k = omega arith

-- If the clock did not go back, the microseconds and milliseconds of a timer are the difference of
-- the times in nanoseconds, divided and rounded down, below 2^40 seconds.
pub timer_get_us_lem :
    (befo now : Timespec)
    → IsNormal befo
    → IsNormal now
    → total befo ≤ total now
    → now.tv_sec < 2 ^ 40
    → (timer_get_us befo now ≡ (total now - total befo) / kilo)
      × (timer_get_ms befo now ≡ (total now - total befo) / mega)
unfolding timer_get_us timer_get_ms
timer_get_us_lem befo now h k l b = omega (arith, timespec_sub_lem now befo k h l)

pub timer_back :
    (befo now : Timespec)
    → IsNormal befo
    → IsNormal now
    → total now < total befo
    → befo.tv_sec < 2 ^ 40
    → timer_get_us befo now ≡ 2 ^ 64 - (total befo - total now + 999) / kilo
unfolding timer_get_us
timer_back befo now h k l b = omega (arith, sub_back now befo k h l)

pub delay_us_lem :
    (us ms : ℕ)
    → us < 2 ^ 64
    → ms < 2 ^ 64
    → (IsNormal (delay_us us) × (total (delay_us us) ≡ us * kilo))
      × (IsNormal (delay_ms ms) × (total (delay_ms ms) ≡ ms * mega))
unfolding delay_us delay_ms
delay_us_lem us ms h k = ground arith

pub deadline_lem :
    (now : Timespec) (ms : ℕ)
    → IsNormal now
    → ms < 2 ^ 64
    → timespec_sub (timespec_add_ms now ms) now ≡ delay_ms ms
unfolding timespec_sub timespec_add_ms delay_ms
deadline_lem now ms h k = ground arith
