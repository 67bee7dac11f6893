-- ===== src/Clock/Days.antt =====
-- The calendar against a count of the days, year by year and month by month.
use my_git_hub.Common.{
  ℕ, zero, suc, ◌+◌, ◌*◌, ◌/◌, ◌%◌, ◌<◌, ◌≡◌, refl, ap, ap₂, ◌∙◌, Bool, true, false, ◌&&◌, ◌||◌,
  not, Option, none, some, List, [], ◌∷◌, ◌==◌, if◌then◌else◌, arith, get_elem?, holds_up_to,
  holds_up_to_lem, Option-cases, Bool-cases, ltb, inl, inr,
}
use my_git_hub.Common.Int.{
  ℤ, pos, negsuc, pos_part, neg_part, ◌+ℤ◌, ◌-ℤ◌, eq_of_parts, +ℤ_parts, -ℤ_parts,
}
use my_git_hub.Clock.Calendar.{
  neg_ℕ, ◌*ℤ◌, ◌/ℤ◌, ◌%ℤ◌, is_leap, is_leap_year, days_from_0, days_from_1970, days, days_before,
  days_from_1jan, Tm, carry_months, internal_timegm, day_in_year, seconds, in_year,
}

-- The Gregorian rule.
abbrev pub leap : ℕ → Bool
leap y = y % 4 == 0 && (not (y % 100 == 0) || y % 400 == 0)

abbrev pub year_length : ℕ → ℕ
year_length y = if leap y then 366 else 365

-- The days of the years from 1 to `n`.
abbrev pub days_of_years : ℕ → ℕ
days_of_years zero = 0
days_of_years (suc n) = days_of_years n + year_length (suc n)

abbrev pub month_lengths : Bool → List ℕ
month_lengths b = 31 ∷ (if b then 29 else 28) ∷ 31 ∷ 30 ∷ 31 ∷ 30 ∷ 31 ∷ 31 ∷ 30 ∷ 31 ∷ 30 ∷ 31 ∷ []

-- The days of the first `n` months.
abbrev pub sum_of_first : ℕ → List ℕ → ℕ
sum_of_first zero xs = 0
sum_of_first (suc n) [] = 0
sum_of_first (suc n) (x ∷ xs) = x + sum_of_first n xs

days_of_years_lem : (n : ℕ) → days_of_years n + n / 100 ≡ 365 * n + n / 400 + n / 4
days_of_years_lem zero = omega arith
days_of_years_lem (suc n) = ground (arith, days_of_years_lem n)

count_days : ℤ → ℤ
count_days y = 365 *ℤ y +ℤ y /ℤ 400 -ℤ y /ℤ 100 +ℤ y /ℤ 4

count_days_lem : (n a b c d : ℕ) → n + c ≡ a + b + d → pos a +ℤ pos b -ℤ pos c +ℤ pos d ≡ pos n
count_days_lem n a b c d e = eq_of_parts (pos a +ℤ pos b -ℤ pos c +ℤ pos d) (pos n) (
    omega (
      arith,
      +ℤ_parts (pos a) (pos b),
      -ℤ_parts (pos a +ℤ pos b) (pos c),
      +ℤ_parts (pos a +ℤ pos b -ℤ pos c) (pos d),
      e,
    ))

days_from_0_lem : (n : ℕ) → days_from_0 (pos (suc n)) ≡ pos (days_of_years n)
unfolding days_from_0 ◌*ℤ◌ ◌/ℤ◌ count_days
days_from_0_lem n =
    let last : pos (suc n) -ℤ pos 1 ≡ pos n =
      eq_of_parts (pos (suc n) -ℤ pos 1) (pos n) (omega (arith, -ℤ_parts (pos (suc n)) (pos 1))) in
    ap count_days last
    ∙ count_days_lem (days_of_years n) (365 * n) (n / 400) (n / 100) (n / 4) (days_of_years_lem n)

is_leap_lem : (n : ℕ) → is_leap (pos n) ≡ leap n
unfolding is_leap ◌%ℤ◌
is_leap_lem n = ground arith

is_leap_year_lem : (n : ℕ) → is_leap_year (pos n) ≡ leap n
unfolding is_leap_year ◌%ℤ◌
is_leap_year_lem n = ground arith

in_table : Bool → ℕ → Bool
in_table b m = elim (get_elem? (days b) m) [
  | none ↦ false
  | some n ↦ n == sum_of_first m (month_lengths b)
]

table_right : (b : Bool) → holds_up_to (in_table b) 12 ≡ true
unfolding holds_up_to in_table
table_right true = refl
table_right false = refl

days_lem :
    (b : Bool) (m : ℕ) → m < 12 → get_elem? (days b) m ≡ some (sum_of_first m (month_lengths b))
unfolding in_table
days_lem b m h =
    let right : in_table b m ≡ true = holds_up_to_lem (in_table b) 12 m h (table_right b) in
    elim (Option-cases (get_elem? (days b) m)) [
      | inl e ↦ absurd (ground (arith, right))
      | inr (n, e) ↦ e ∙ ap some (ground (arith, right))
    ]

neg_parts : (k : ℕ) → (pos_part (neg_ℕ k) ≡ 0) × (neg_part (neg_ℕ k) ≡ k)
neg_parts zero = (refl, refl)
neg_parts (suc k) = (refl, refl)

scale_parts :
    (z : ℤ) → (pos_part (12 *ℤ z) ≡ 12 * pos_part z) × (neg_part (12 *ℤ z) ≡ 12 * neg_part z)
unfolding ◌*ℤ◌
scale_parts (pos k) = (refl, refl)
scale_parts (negsuc k) = neg_parts (12 * suc k)

pair : ℤ → ℤ → ℤ × ℤ
pair a b = (a, b)

module _ (year : ℤ) (n m : ℕ) (h : m < 12) where
  -- What the months since the year 0 say about the parts of the year.
  months_parts :
      (month : ℤ)
      → 12 *ℤ year +ℤ month ≡ pos (12 * suc n + m)
      → 12 * pos_part year + pos_part month ≡ 12 * neg_part year + neg_part month + (12 * suc n + m)
  months_parts month e =
      omega (arith, +ℤ_parts (12 *ℤ year) month, scale_parts year, ap pos_part e, ap neg_part e)

  -- `internal_timegm` carries the months that pass a year, in either direction.
  carry_months_lem :
      (month : ℤ)
      → 12 *ℤ year +ℤ month ≡ pos (12 * suc n + m)
      → carry_months year month ≡ (pos (suc n), pos m)
  unfolding carry_months ◌/ℤ◌ ◌%ℤ◌ pair
  carry_months_lem (pos j) e =
      let parts = months_parts (pos j) e in
      elim (Bool-cases (ltb 11 (j + 0))) [
        | inl y ↦
            let year' : year +ℤ pos (j / 12) ≡ pos (suc n) =
              eq_of_parts (year +ℤ pos (j / 12)) (pos (suc n))
                (ground (arith, +ℤ_parts year (pos (j / 12)), parts)) in
            let month' : pos (j % 12) ≡ pos m = ap pos (ground (arith, parts)) in
            rw y (ap₂ pair year' month')
        | inr k ↦
            let not_less : ltb (j + 0) 0 ≡ false = ground arith in
            let year' : year ≡ pos (suc n) =
              eq_of_parts year (pos (suc n)) (ground (arith, parts)) in
            let month' : pos j ≡ pos m = ap pos (ground (arith, parts)) in
            rw (k, not_less) (ap₂ pair year' month')
      ]
  carry_months_lem (negsuc j) e =
      let parts = months_parts (negsuc j) e in
      let q = (suc j + 11) / 12 in
      let not_greater : ltb (11 + suc j) 0 ≡ false = ground arith in
      let less : ltb 0 (0 + suc j) ≡ true = ground arith in
      let sum : pos (suc j) +ℤ pos 11 ≡ pos (suc j + 11) =
        eq_of_parts (pos (suc j) +ℤ pos 11) (pos (suc j + 11))
          (omega (arith, +ℤ_parts (pos (suc j)) (pos 11))) in
      let year' : year -ℤ pos q ≡ pos (suc n) =
        eq_of_parts (year -ℤ pos q) (pos (suc n)) (omega (arith, -ℤ_parts year (pos q), parts)) in
      let month' : negsuc j +ℤ 12 *ℤ pos q ≡ pos m =
        eq_of_parts (negsuc j +ℤ 12 *ℤ pos q) (pos m)
          (omega (arith, +ℤ_parts (negsuc j) (12 *ℤ pos q), scale_parts (pos q), parts)) in
      rw (not_greater, less)
        (ap (λ z. (year -ℤ z /ℤ 12, negsuc j +ℤ 12 *ℤ (z /ℤ 12))) sum ∙ ap₂ pair year' month')

-- The days from 1970 to the day `mday` of the month `m`, from 0 on, of the year `n + 1`.
abbrev pub days_since_epoch : ℕ → ℕ → ℤ → ℤ
days_since_epoch n m mday =
    pos (days_of_years n + sum_of_first m (month_lengths (leap (suc n)))) +ℤ mday -ℤ pos 719163

day_of_year :
    (n m : ℕ) (mday : ℤ)
    → m < 12
    → days_from_1jan (pos (suc n)) (pos m +ℤ pos 1) mday
      ≡ some (pos (sum_of_first m (month_lengths (leap (suc n)))) +ℤ mday -ℤ pos 1)
unfolding days_from_1jan
day_of_year n m mday h =
    let place : pos m +ℤ pos 1 -ℤ pos 1 ≡ pos m =
      eq_of_parts (pos m +ℤ pos 1 -ℤ pos 1) (pos m)
        (omega (arith, +ℤ_parts (pos m) (pos 1), -ℤ_parts (pos m +ℤ pos 1) (pos 1))) in
    ap (λ b. day_in_year mday (days_before b (pos m +ℤ pos 1 -ℤ pos 1))) (is_leap_lem (suc n))
    ∙ ap (λ z. day_in_year mday (days_before (leap (suc n)) z)) place
    ∙ ap (day_in_year mday) (days_lem (leap (suc n)) m h)

epoch : days_from_0 (pos 1970) ≡ pos 719162
unfolding days_from_0 ◌+ℤ◌ ◌-ℤ◌ ◌*ℤ◌ ◌/ℤ◌
epoch = refl

sum_of_days :
    (a b : ℕ) (mday : ℤ)
    → pos a -ℤ pos 719162 +ℤ (pos b +ℤ mday -ℤ pos 1) ≡ pos (a + b) +ℤ mday -ℤ pos 719163
sum_of_days a b mday = eq_of_parts _ _ (
    omega (
      arith,
      -ℤ_parts (pos a) (pos 719162),
      +ℤ_parts (pos b) mday,
      -ℤ_parts (pos b +ℤ mday) (pos 1),
      +ℤ_parts (pos a -ℤ pos 719162) (pos b +ℤ mday -ℤ pos 1),
      +ℤ_parts (pos (a + b)) mday,
      -ℤ_parts (pos (a + b) +ℤ mday) (pos 719163),
    ))

-- The seconds of a day since 1970 and of the time in the day.
abbrev pub total_seconds : Tm → ℤ → Option ℤ
total_seconds t d = some (3600 * 24 *ℤ d +ℤ 3600 *ℤ t.tm_hour +ℤ 60 *ℤ t.tm_min +ℤ t.tm_sec)

-- `internal_timegm` of a time in the month `m`, from 0 on, of the year `n + 1`, where the months may be
-- given as any number, also a negative one, that comes to that month: the seconds of the days from 1970
-- on, counted year by year by the Gregorian rule and month by month, and of the time in the day. The
-- numbers are those of the source where they fit in an `int`. `is_leap` and `TimeUtils::is_leap_year`
-- follow the Gregorian rule.
pub internal_timegm-days :
    (t : Tm) (n m : ℕ)
    → m < 12
    → 12 *ℤ (t.tm_year +ℤ pos 1900) +ℤ t.tm_mon ≡ pos (12 * suc n + m)
    → (internal_timegm t ≡ total_seconds t (days_since_epoch n m t.tm_mday))
      × (is_leap (pos (suc n)) ≡ leap (suc n))
      × (is_leap_year (pos (suc n)) ≡ leap (suc n))
unfolding internal_timegm days_from_1970
internal_timegm-days t n m h e =
    let start : days_from_1970 (pos (suc n)) ≡ pos (days_of_years n) -ℤ pos 719162 =
      ap₂ ◌-ℤ◌ (days_from_0_lem n) epoch in
    (
      ap (in_year t) (carry_months_lem (t.tm_year +ℤ pos 1900) n m h t.tm_mon e)
          ∙ ap₂ (seconds t) start (day_of_year n m t.tm_mday h)
          ∙ ap (total_seconds t) (
              sum_of_days (days_of_years n) (sum_of_first m (month_lengths (leap (suc n))))
                t.tm_mday),
      is_leap_lem (suc n),
      is_leap_year_lem (suc n),
    )
