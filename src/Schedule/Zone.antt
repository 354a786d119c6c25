-- ===== src/Schedule/Zone.antt =====
-- resolve of internal/schedule/schedule.go: from a civil time to the instant of a time zone.
-- An instant is its Unix second, as an integer.
pub mod Resolve
use herdr_woof.Prelude.{
  ℕ, zero, suc, ◌+◌, ◌≤◌, ◌≡◌, Bool, true, false, ◌||◌, Option, none, some, if◌then◌else◌, not, ltb,
}
use herdr_woof.Prelude.Int.{ℤ, pos, ◌+ℤ◌, ◌-ℤ◌, ◌≤ℤ◌, ◌<ℤ◌, pos_part, neg_part, ltb_ℤ, max_ℤ}
use herdr_woof.Schedule.Calendar.{Civil, unix}

-- The stretch of time with one offset that `Time.Zone` and `Time.ZoneBounds` report; a bound is
-- `none` where the zone has no transition.
pub record Period : Type 0 where
  pub off : ℤ
  pub start : Option ℤ
  pub stop : Option ℤ

-- A `*time.Location`: the period in force at a Unix second. The time zone database is data that
-- comes with Go, so a location is a parameter.
abbrev pub Location : Type 0
Location = ℤ → Period

-- The wall clock, as a second count like that of `Civil` times.
abbrev pub wall : Location → ℤ → ℤ
wall loc t = t +ℤ (loc t).off

abbrev pub two_days : ℤ
two_days = pos 172800

-- Where a period ends after `t`, or never.
abbrev pub InPeriod : Option ℤ → ℤ → Type 0
InPeriod none t = Unit
InPeriod (some e) t = t <ℤ e

-- What `time` documents of a location: an instant lies in its period, the period's offset is in
-- force up to its end, and an offset is less than two days.
pub record IsLocation (loc : Location) : Type 0 where
  pub inside : (t : ℤ) → InPeriod (loc t).stop t
  pub constant : (t u : ℤ) → t ≤ℤ u → InPeriod (loc t).stop u → (loc u).off ≡ (loc t).off
  pub off_high : (t : ℤ) → (loc t).off ≤ℤ two_days
  pub off_low : (t : ℤ) → pos 0 ≤ℤ (loc t).off +ℤ two_days

abbrev ends_past : Period → ℤ → Bool
ends_past p u = elim p.stop [ none ↦ true | some e ↦ ltb_ℤ u (e +ℤ p.off) ]

-- The loop `for range 64 { … }`; `none` where it runs to its end.
unfoldable pub resolve_loop : ℕ → Location → ℤ → ℤ → Option ℤ
resolve_loop zero loc u i = none
resolve_loop (suc n) loc u i =
    let off = (loc i).off in
    elim (loc i).stop [
      | none ↦ some (max_ℤ i (u -ℤ off))
      | some e ↦ elim (ltb_ℤ u (e +ℤ off)) [
        | true ↦ some (max_ℤ i (u -ℤ off))
        | false ↦ resolve_loop n loc u e
      ]
    ]

abbrev outside : Period → ℤ → Bool
outside p t =
    elim p.start [ none ↦ false | some s ↦ ltb_ℤ t s ]
    || elim p.stop [ none ↦ false | some e ↦ not (ltb_ℤ t e) ]

-- `time.Date(…, loc)` for a wall clock that reads `u`: it tries the offset at `u`, and looks the
-- offset up again where the result falls out of that period.
unfoldable pub date_in : Location → ℤ → ℤ
date_in loc u =
    let p = loc u in let utc = u -ℤ p.off in if outside p utc then u -ℤ (loc utc).off else utc

unfoldable pub resolve : Civil → Location → ℤ
unfolding resolve_loop date_in
resolve c loc = elim (resolve_loop 64 loc (unix c) (unix c -ℤ two_days)) [
  | some r ↦ r
  | none ↦ date_in loc (unix c)
]
