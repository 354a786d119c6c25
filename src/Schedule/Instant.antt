-- ===== src/Schedule/Instant.antt =====
-- Instants and civil times of Go's `time` package, as Expr.Next of internal/schedule/schedule.go
-- uses them: In with Year to Minute, and AddDate. An instant is its nanosecond count from the Unix
-- epoch, as an integer.
pub mod RoundTrip
pub mod Reading
use herdr_woof.Prelude.{
  ℕ, zero, suc, ◌+◌, ◌-◌, ◌*◌, ◌/◌, ◌%◌, Bool, true, false, ltb, ◌==◌, if◌then◌else◌,
}
use herdr_woof.Prelude.Int.{ℤ, pos, negsuc, ◌+ℤ◌, ◌-ℤ◌, pos_part, sub_ℕ}
use herdr_woof.Schedule.Calendar.{Civil, days_in, days_before, days_to_year, day_number, epoch_days}
use herdr_woof.Schedule.Zone.{Location, wall, date_in}

abbrev pub nanos : ℕ
nanos = 1000000000

-- `t.Unix()`: rounded down, also before 1970.
unfoldable pub unix_of : ℤ → ℤ
unix_of (pos n) = pos (n / nanos)
unix_of (negsuc n) = negsuc (n / nanos)

-- `time.Unix(s, 0)`
unfoldable pub at_second : ℤ → ℤ
at_second (pos n) = pos (n * nanos)
at_second (negsuc n) = sub_ℕ 0 (suc n * nanos)

-- The nanoseconds within the second.
unfoldable pub nanos_of : ℤ → ℕ
nanos_of (pos n) = n % nanos
nanos_of (negsuc n) = nanos - 1 - n % nanos

-- The year that holds the day `n`, from a year that begins at it or before it.
unfoldable pub year_loop : ℕ → ℕ → ℕ → ℕ
unfolding days_to_year
year_loop zero y n = y
year_loop (suc fuel) y n =
    let later = year_loop fuel (y + 1) n in if ltb n (days_to_year (y + 1)) then y else later

-- No year is longer than 366 days, so that the search begins a few years before the result, and none
-- is shorter than 365, so that it ends within `n` rounds.
unfoldable pub year_of : ℕ → ℕ
unfolding year_loop
year_of n = year_loop (suc n) (n / 366 + 1) n

-- The month that holds the day `yd` of the year, from a month that begins at it or before it.
unfoldable pub month_loop : ℕ → ℕ → ℕ → ℕ → ℕ
unfolding days_before
month_loop zero y mo yd = mo
month_loop (suc left) y mo yd =
    let later = month_loop left y (mo + 1) yd in
    if ltb yd (days_before y (mo + 1)) then mo else later

unfoldable pub month_of : ℕ → ℕ → ℕ
unfolding month_loop
month_of y yd = month_loop 11 y 1 yd

abbrev pub civil_at : ℕ → ℕ → ℕ → ℕ → Civil
civil_at y yd mo s = record {
  y = y;
  mo = mo;
  d = yd - days_before y mo + 1;
  h = s % 86400 / 3600;
  mi = s % 3600 / 60;
}

-- The civil time of a wall clock that reads `s` seconds from 1 January of year 1.
unfoldable pub civil_of : ℕ → Civil
unfolding year_of month_of days_before days_to_year
civil_of s =
    let y = year_of (s / 86400) in
    let yd = s / 86400 - days_to_year y in civil_at y yd (month_of y yd) s

-- The wall clock's seconds from year 1; a time before that year reads as its start.
unfoldable pub clock : Location → ℤ → ℕ
clock loc t = pos_part (wall loc (unix_of t) +ℤ pos (epoch_days * 86400))

-- `t.AddDate(years, 0, 0)` for a time in the location `loc`: 29 February becomes 1 March.
unfoldable pub add_years : ℕ → Location → ℤ → ℤ
unfolding clock civil_of date_in day_number at_second nanos_of
add_years years loc t =
    let s = clock loc t in
    let c = civil_of s in
    let day = day_number (c.y + years) c.mo c.d in
    let u = sub_ℕ (day * 86400 + s % 86400) (epoch_days * 86400) in
    at_second (date_in loc u) +ℤ pos (nanos_of t)
