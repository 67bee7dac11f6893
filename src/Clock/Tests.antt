-- ===== src/Clock/Tests.antt =====
-- Runs of trunk/include/common/time_utils.h and trunk/src/common/time_utils.cpp.
use my_git_hub.Common.{◌+◌, ◌*◌, ◌≡◌, refl, arith, some}
use my_git_hub.Common.Int.{pos, negsuc, ◌+ℤ◌, ◌-ℤ◌}
use my_git_hub.Clock.Defs.{Utime, normalize, utime, plus, plus_assign}
use my_git_hub.Clock.Duration.{IsNormal, nanoseconds, nanoseconds-plus}
use my_git_hub.Clock.Calendar.{
  Tm, is_leap, is_leap_year, days_from_0, carry_months, internal_timegm, days_from_1970,
  days_from_1jan, ◌*ℤ◌, ◌/ℤ◌, ◌%ℤ◌,
}
use my_git_hub.Clock.Days.{leap, days_since_epoch, total_seconds, internal_timegm-days}

-- A whole second of nanoseconds is left as it is.
second_left : (utime 5 1000000000).tv_nsec ≡ 1000000000
unfolding utime normalize
second_left = refl

abbrev early : Utime
early = record { tv_sec = 3; tv_nsec = 900000000 }

abbrev late : Utime
late = record { tv_sec = 7; tv_nsec = 200000000 }

early-IsNormal : IsNormal early
early-IsNormal = record { sec = omega arith; nsec = omega arith }

late-IsNormal : IsNormal late
late-IsNormal = record { sec = omega arith; nsec = omega arith }

nanoseconds-plus_example :
    IsNormal (plus late early)
    × (nanoseconds (plus late early) ≡ 11100000000)
    × (plus_assign late early ≡ plus late early)
nanoseconds-plus_example = nanoseconds-plus late early late-IsNormal early-IsNormal (omega arith)

-- The first of March of the year 2000, given as the tenth month before January 2001.
abbrev march : Tm
march = record {
  tm_year = pos 101;
  tm_mon = negsuc 9;
  tm_mday = pos 1;
  tm_hour = pos 0;
  tm_min = pos 0;
  tm_sec = pos 7;
}

march_seconds : internal_timegm march ≡ some (pos 951868807)
unfolding internal_timegm carry_months days_from_1970 days_from_0 days_from_1jan is_leap ◌+ℤ◌ ◌-ℤ◌
    ◌*ℤ◌ ◌/ℤ◌ ◌%ℤ◌
march_seconds = refl

march_months : 12 *ℤ (pos 101 +ℤ pos 1900) +ℤ negsuc 9 ≡ pos (12 * 2000 + 2)
unfolding ◌+ℤ◌ ◌*ℤ◌
march_months = refl

internal_timegm-days_example :
    (internal_timegm march ≡ total_seconds march (days_since_epoch 1999 2 (pos 1)))
    × (is_leap (pos 2000) ≡ leap 2000)
    × (is_leap_year (pos 2000) ≡ leap 2000)
internal_timegm-days_example = internal_timegm-days march 1999 2 (omega arith) march_months
