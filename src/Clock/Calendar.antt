-- ===== src/Clock/Calendar.antt =====
-- The calendar of trunk/src/common/time_utils.cpp. An `int` is an integer: the sums and products are
-- those of the source as long as they fit. A quotient is cut towards zero.
use my_git_hub.Common.{
  ℕ, zero, suc, ◌*◌, ◌/◌, ◌%◌, Bool, true, false, ◌&&◌, ◌||◌, not, Option, none, some, List, [],
  ◌∷◌, if◌then◌else◌, get_elem?,
}
use my_git_hub.Common.Int.{ℤ, pos, negsuc, ◌+ℤ◌, ◌-ℤ◌, ltb_ℤ, eqb_ℤ, neg_part}

-- `-n`
abbrev pub neg_ℕ : ℕ → ℤ
neg_ℕ zero = pos 0
neg_ℕ (suc n) = negsuc n

infixl 70 ◌*ℤ◌ ◌/ℤ◌ ◌%ℤ◌
unfoldable pub ◌*ℤ◌ : ℕ → ℤ → ℤ
k *ℤ pos n = pos (k * n)
k *ℤ negsuc n = neg_ℕ (k * suc n)

unfoldable pub ◌/ℤ◌ : ℤ → ℕ → ℤ
pos n /ℤ k = pos (n / k)
negsuc n /ℤ k = neg_ℕ (suc n / k)

unfoldable pub ◌%ℤ◌ : ℤ → ℕ → ℤ
pos n %ℤ k = pos (n % k)
negsuc n %ℤ k = neg_ℕ (suc n % k)

unfoldable pub is_leap : ℤ → Bool
unfolding ◌%ℤ◌
is_leap year =
    if eqb_ℤ (year %ℤ 400) (pos 0)
    then true
    else if eqb_ℤ (year %ℤ 100) (pos 0)
    then false
    else if eqb_ℤ (year %ℤ 4) (pos 0)
    then true
    else false

-- `TimeUtils::is_leap_year`
unfoldable pub is_leap_year : ℤ → Bool
unfolding ◌%ℤ◌
is_leap_year year =
    eqb_ℤ (pos 0) (year %ℤ 4) && not (eqb_ℤ (pos 0) (year %ℤ 100)) || eqb_ℤ (pos 0) (year %ℤ 400)

unfoldable pub days_from_0 : ℤ → ℤ
unfolding ◌+ℤ◌ ◌-ℤ◌ ◌*ℤ◌ ◌/ℤ◌
days_from_0 year = let y = year -ℤ pos 1 in 365 *ℤ y +ℤ y /ℤ 400 -ℤ y /ℤ 100 +ℤ y /ℤ 4

unfoldable pub days_from_1970 : ℤ → ℤ
unfolding days_from_0 ◌-ℤ◌
days_from_1970 year = days_from_0 year -ℤ days_from_0 (pos 1970)

abbrev pub days : Bool → List ℕ
days false = 0 ∷ 31 ∷ 59 ∷ 90 ∷ 120 ∷ 151 ∷ 181 ∷ 212 ∷ 243 ∷ 273 ∷ 304 ∷ 334 ∷ []
days true = 0 ∷ 31 ∷ 60 ∷ 91 ∷ 121 ∷ 152 ∷ 182 ∷ 213 ∷ 244 ∷ 274 ∷ 305 ∷ 335 ∷ []

-- `days[leap][i]`; `none` is a place that the table does not have.
abbrev pub days_before : Bool → ℤ → Option ℕ
days_before leap (pos i) = get_elem? (days leap) i
days_before leap (negsuc i) = none

abbrev pub day_in_year : ℤ → Option ℕ → Option ℤ
day_in_year day none = none
day_in_year day (some n) = some (pos n +ℤ day -ℤ pos 1)

unfoldable pub days_from_1jan : ℤ → ℤ → ℤ → Option ℤ
unfolding is_leap ◌-ℤ◌
days_from_1jan year month day = day_in_year day (days_before (is_leap year) (month -ℤ pos 1))

-- `struct tm`, as far as it is read.
pub record Tm : Type 0 where
  pub tm_year : ℤ
  pub tm_mon : ℤ
  pub tm_mday : ℤ
  pub tm_hour : ℤ
  pub tm_min : ℤ
  pub tm_sec : ℤ

-- The year and the month that `internal_timegm` goes on with; the quotient is `years_diff`.
unfoldable pub carry_months : ℤ → ℤ → ℤ × ℤ
unfolding ◌+ℤ◌ ◌-ℤ◌ ◌*ℤ◌ ◌/ℤ◌ ◌%ℤ◌
carry_months year month =
    if ltb_ℤ (pos 11) month
    then (year +ℤ month /ℤ 12, month %ℤ 12)
    else if ltb_ℤ month (pos 0)
    then (
      year -ℤ (pos (neg_part month) +ℤ pos 11) /ℤ 12,
      month +ℤ 12 *ℤ ((pos (neg_part month) +ℤ pos 11) /ℤ 12),
    )
    else (year, month)

-- The seconds, from the days since 1970 before the year and the day in the year.
abbrev pub seconds : Tm → ℤ → Option ℤ → Option ℤ
seconds t days_before_year none = none
seconds t days_before_year (some day_of_year) = some (
    3600 * 24 *ℤ (days_before_year +ℤ day_of_year)
    +ℤ 3600 *ℤ t.tm_hour
    +ℤ 60 *ℤ t.tm_min
    +ℤ t.tm_sec)

abbrev pub in_year : Tm → ℤ × ℤ → Option ℤ
in_year t (year, month) =
    seconds t (days_from_1970 year) (days_from_1jan year (month +ℤ pos 1) t.tm_mday)

unfoldable pub internal_timegm : Tm → Option ℤ
unfolding carry_months ◌+ℤ◌
internal_timegm t = in_year t (carry_months (t.tm_year +ℤ pos 1900) t.tm_mon)
