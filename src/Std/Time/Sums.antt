-- ===== src/Std/Time/Sums.antt =====
-- Times as numbers of nanoseconds: the sums and the difference of sa_time.c against plain arithmetic.
use rmm_2023_pre.Common.{ℕ, ◌+◌, ◌*◌, ◌^◌, ◌≤◌, ◌<◌, ◌≡◌, arith}
use rmm_2023_pre.Std.Time.{Timespec, giga, mega, timespec_add, timespec_sub, timespec_add_ms}

-- What the clock shows: less than a second of nanoseconds.
pub record IsNormal (t : Timespec) : Type 0 where
  pub seconds : t.tv_sec < 2 ^ 64
  pub nanoseconds : t.tv_nsec < giga

abbrev pub total : Timespec → ℕ
total t = t.tv_sec * giga + t.tv_nsec

pub timespec_add_lem :
    (a b : Timespec)
    → IsNormal a
    → IsNormal b
    → a.tv_sec + b.tv_sec + 1 < 2 ^ 64
    → IsNormal (timespec_add a b) × (total (timespec_add a b) ≡ total a + total b)
unfolding timespec_add
timespec_add_lem a b h k l = ground arith

pub timespec_sub_lem :
    (a b : Timespec)
    → IsNormal a
    → IsNormal b
    → total b ≤ total a
    → IsNormal (timespec_sub a b) × (total (timespec_sub a b) + total b ≡ total a)
unfolding timespec_sub
timespec_sub_lem a b h k l = ground arith

pub sub-add : (a b : Timespec) → IsNormal a → IsNormal b → timespec_sub (timespec_add a b) b ≡ a
unfolding timespec_add timespec_sub
sub-add a b h k = ground arith

pub timespec_add_ms_lem :
    (now : Timespec) (ms : ℕ)
    → IsNormal now
    → now.tv_sec + ms + 1 < 2 ^ 64
    → IsNormal (timespec_add_ms now ms) × (total (timespec_add_ms now ms) ≡ total now + ms * mega)
unfolding timespec_add_ms
timespec_add_ms_lem now ms h k = ground arith
