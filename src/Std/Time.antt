-- ===== src/Std/Time.antt =====
-- lib/std_api/src/sa_time.c: times of seconds and nanoseconds, timers and delays. A number of C's
-- `long` is its bit pattern; what the clock shows is an argument, and what a delay hands to
-- `nanosleep` is its result. The two functions on `float` are left out.
pub mod Sums
pub mod Timers
mod Tests
use rmm_2023_pre.Common.{
  ℕ, ◌+◌, ◌*◌, ◌/◌, ◌%◌, ◌^◌, Bool, ltb, leb, if◌then◌else◌, add_size, sub_size,
}

-- `struct timespec`.
pub record Timespec : Type 0 where
  pub tv_sec : ℕ
  pub tv_nsec : ℕ

-- `(uint64_t)1e9`, `(uint64_t)1e6`, `(uint64_t)1e3`.
abbrev pub giga : ℕ
giga = 1000000000

abbrev pub mega : ℕ
mega = 1000000

abbrev pub kilo : ℕ
kilo = 1000

-- A product of `uint64_t`, and `<` of `long`.
abbrev pub mul_size : ℕ → ℕ → ℕ
mul_size a b = a * b % 2 ^ 64

abbrev pub lt_long : ℕ → ℕ → Bool
lt_long a b = ltb (add_size a (2 ^ 63)) (add_size b (2 ^ 63))

-- The carry of the nanoseconds, which `SATime_timespecAdd` and `SATime_timespecAddMs` share.
carry : ℕ → ℕ → Timespec
carry sec nsec =
    if leb giga nsec
    then record { tv_sec = add_size sec 1; tv_nsec = sub_size nsec giga }
    else record { tv_sec = sec; tv_nsec = nsec }

pub timespec_add : Timespec → Timespec → Timespec
unfolding carry
timespec_add a b = carry (add_size a.tv_sec b.tv_sec) (add_size a.tv_nsec b.tv_nsec)

pub timespec_sub : Timespec → Timespec → Timespec
timespec_sub a b =
    let sec = sub_size a.tv_sec b.tv_sec in
    if lt_long a.tv_nsec b.tv_nsec
    then record { tv_sec = sub_size sec 1; tv_nsec = sub_size (add_size a.tv_nsec giga) b.tv_nsec }
    else record { tv_sec = sec; tv_nsec = sub_size a.tv_nsec b.tv_nsec }

pub timespec_add_ms : Timespec → ℕ → Timespec
unfolding carry
timespec_add_ms now ms =
    carry (add_size now.tv_sec (ms / kilo)) (add_size now.tv_nsec (mul_size (ms % kilo) mega))

pub timer_get_us : Timespec → Timespec → ℕ
unfolding timespec_sub
timer_get_us befo_time now =
    let diff = timespec_sub now befo_time in
    add_size (mul_size diff.tv_sec mega) (diff.tv_nsec / kilo)

pub timer_get_ms : Timespec → Timespec → ℕ
unfolding timespec_sub
timer_get_ms befo_time now =
    let diff = timespec_sub now befo_time in
    add_size (mul_size diff.tv_sec kilo) (diff.tv_nsec / mega)

pub delay_us : ℕ → Timespec
delay_us us = record { tv_sec = us / mega; tv_nsec = mul_size (us % mega) kilo }

pub delay_ms : ℕ → Timespec
delay_ms ms = record { tv_sec = ms / kilo; tv_nsec = mul_size (ms % kilo) mega }

pub get_us : Timespec → ℕ
get_us now = add_size (mul_size now.tv_sec mega) (now.tv_nsec / kilo)

pub get_ms : Timespec → ℕ
get_ms now = add_size (mul_size now.tv_sec kilo) (now.tv_nsec / mega)

pub get_sec : Timespec → ℕ
get_sec now = now.tv_sec
