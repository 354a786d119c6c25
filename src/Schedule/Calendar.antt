-- ===== src/Schedule/Calendar.antt =====
-- The Gregorian calendar of Go's `time` package, as internal/schedule/schedule.go uses it: month
-- lengths, weekdays and the seconds of a civil time. Years count from 1.
use herdr_woof.Prelude.{
  ℕ, zero, suc, ◌+◌, ◌-◌, ◌*◌, ◌/◌, ◌%◌, Bool, ◌&&◌, ◌||◌, not, ◌==◌, if◌then◌else◌,
}
use herdr_woof.Prelude.Int.{ℤ, sub_ℕ}

pub record Civil : Type 0 where
  pub y : ℕ
  pub mo : ℕ
  pub d : ℕ
  pub h : ℕ
  pub mi : ℕ

unfoldable pub is_leap : ℕ → Bool
is_leap y = (y % 4 == 0) && (not (y % 100 == 0) || (y % 400 == 0))

-- `time.Date(y, mo+1, 0, …).Day()`: the last day of a month from 1 to 12.
unfoldable pub days_in : ℕ → ℕ → ℕ
unfolding is_leap
days_in y mo =
    if mo == 2
    then if is_leap y then 29 else 28
    else if ((mo == 4) || (mo == 6)) || ((mo == 9) || (mo == 11))
    then 30
    else 31

-- Days of the year before the month.
unfoldable pub days_before : ℕ → ℕ → ℕ
days_before y zero = 0
days_before y (suc zero) = 0
days_before y (suc mo) = days_before y mo + days_in y mo

-- Days before the year, from year 1.
unfoldable pub days_to_year : ℕ → ℕ
days_to_year y = (y - 1) * 365 + (y - 1) / 4 - (y - 1) / 100 + (y - 1) / 400

-- Days before the date, from 1 January of year 1.
unfoldable pub day_number : ℕ → ℕ → ℕ → ℕ
unfolding days_before days_to_year days_in
day_number y mo d = days_to_year y + days_before y mo + (d - 1)

-- `time.Date(y, mo, d, …).Weekday()`, with Sunday 0; day 0 was a Monday.
unfoldable pub weekday : ℕ → ℕ → ℕ → ℕ
unfolding day_number
weekday y mo d = (day_number y mo d + 1) % 7

-- The days from 1 January of year 1 to the Unix epoch.
abbrev pub epoch_days : ℕ
epoch_days = 719162

unfoldable pub seconds : Civil → ℕ
unfolding day_number
seconds c = day_number c.y c.mo c.d * 86400 + c.h * 3600 + c.mi * 60

-- (c civil) unix
unfoldable pub unix : Civil → ℤ
unfolding seconds
unix c = sub_ℕ (seconds c) (epoch_days * 86400)
