-- ===== src/Schedule/Search.antt =====
-- The search of internal/schedule/schedule.go for the next civil time that matches a spec: nextBit,
-- dayMatches, addMinute and (s *spec) next.
pub mod NextBit
pub mod Order
pub mod Steps
pub mod Rounds
pub mod Next
use herdr_woof.Prelude.{
  ℕ, zero, suc, ◌+◌, ◌-◌, ◌*◌, ◌^◌, bit_and, Bool, true, false, not, ◌&&◌, ◌||◌, Option, none, some,
  ltb, leb, ◌==◌, if◌then◌else◌,
}
use herdr_woof.Prelude.Bits.{trailing_zeros}
use herdr_woof.Prelude.Word.{max_uint64, shl, complement}
use herdr_woof.Schedule.Fields.{Spec, star_bit}
use herdr_woof.Schedule.Calendar.{Civil, days_in, weekday}

unfoldable pub add_minute : Civil → Civil
add_minute c =
    if ltb 59 (c.mi + 1)
    then if ltb 23 (c.h + 1)
      then record c { mi = 0; h = 0; d = c.d + 1 }
      else record c { mi = 0; h = c.h + 1 }
    else record c { mi = c.mi + 1 }

-- `mask &^ starBit & (math.MaxUint64 << from)`
unfoldable pub masked : ℕ → ℕ → ℕ
masked mask from = bit_and (bit_and mask (complement star_bit)) (shl max_uint64 from)

unfoldable pub next_bit : ℕ → ℕ → ℕ → Option ℕ
next_bit mask from max =
    let m = masked mask from in
    if m == 0
    then none
    else if leb (trailing_zeros 64 m) max
    then some (trailing_zeros 64 m)
    else none

unfoldable pub day_matches : Spec → ℕ → ℕ → ℕ → Bool
day_matches s y mo d =
    let dom_match = not (bit_and s.dom (shl 1 d) == 0) in
    let dow_match = not (bit_and s.dow (shl 1 (weekday y mo d)) == 0) in
    if not (bit_and s.dom star_bit == 0) || not (bit_and s.dow star_bit == 0)
    then dom_match && dow_match
    else dom_match || dow_match

-- One round of the loop of `next`: `continue` with another time, or the result.
pub data Round : Type 0 where
  again : Civil → Round
  done : Civil → Round

abbrev pub at : ℕ → ℕ → ℕ → Civil
at y mo d = record { y = y; mo = mo; d = d; h = 0; mi = 0 }

abbrev minute_round : Option ℕ → Civil → Round
minute_round none c = again (add_minute (record c { mi = 59 }))
minute_round (some mi) c = done (record c { mi = mi })

unfoldable pub step_minute : Spec → Civil → Round
step_minute s c = minute_round (next_bit s.minute c.mi 59) c

abbrev hour_round : Spec → Option ℕ → Civil → Round
hour_round s none c = again (at c.y c.mo (c.d + 1))
hour_round s (some h) c = step_minute s (if h == c.h then c else record c { h = h; mi = 0 })

unfoldable pub step_hour : Spec → Civil → Round
step_hour s c = hour_round s (next_bit s.hour c.h 23) c

unfoldable pub step_day : Spec → Civil → Round
step_day s c =
    if ltb (days_in c.y c.mo) c.d
    then again (if ltb 12 (c.mo + 1) then at (c.y + 1) 1 1 else at c.y (c.mo + 1) 1)
    else if not (day_matches s c.y c.mo c.d)
    then again (at c.y c.mo (c.d + 1))
    else step_hour s c

abbrev month_round : Spec → Option ℕ → Civil → Round
month_round s none c = again (at (c.y + 1) 1 1)
month_round s (some m) c = step_day s (at c.y m 1)

unfoldable pub round : Spec → Civil → Round
round s c =
    if bit_and s.month (shl 1 c.mo) == 0
    then month_round s (next_bit s.month (c.mo + 1) 12) c
    else step_day s c

pub data Found : Type 0 where
  found : Civil → Found
  exhausted : Found
  out_of_fuel : Found

abbrev pub with_round : Round → (Civil → Found) → Found
with_round (again c) continue = continue c
with_round (done c) continue = found c

-- `for c.y <= maxYear { … }` with fuel.
unfoldable pub search_loop : ℕ → Spec → Civil → ℕ → Found
search_loop zero s c max_year = out_of_fuel
search_loop (suc fuel) s c max_year = elim (leb c.y max_year) [
  | true ↦ with_round (round s c) (λ c'. search_loop fuel s c' max_year)
  | false ↦ exhausted
]

-- The hours from year 0, counting 13 months to the year and 33 days to the month, so that also the
-- times that `next` normalises later have one each. A round takes the hour forward.
abbrev pub hour_key : Civil → ℕ
hour_key c = ((c.y * 13 + c.mo) * 33 + c.d) * 24 + c.h

abbrev pub search_fuel : Civil → ℕ → ℕ
search_fuel c max_year = suc (((max_year + 1) * 13 + 13) * 33 * 24 - hour_key c)

unfoldable pub next : Spec → Civil → ℕ → Found
unfolding search_loop round step_day step_hour step_minute day_matches next_bit masked add_minute
next s c max_year = search_loop (search_fuel c max_year) s c max_year
