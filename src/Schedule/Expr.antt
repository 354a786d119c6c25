-- ===== src/Schedule/Expr.antt =====
-- Expr of internal/schedule/schedule.go: Next, Due and latest over a parsed expression.
pub mod Order
pub mod Next
pub mod Later
use herdr_woof.Prelude.{
  ℕ, zero, suc, ◌+◌, ◌-◌, ◌*◌, ◌/◌, Bool, true, false, Option, none, some, ltb, ◌==◌, if◌then◌else◌,
}
use herdr_woof.Prelude.Int.{ℤ, pos, ◌+ℤ◌, ◌-ℤ◌, pos_part, ltb_ℤ}
use herdr_woof.Prelude.Result.{Result, ok, err, ◌>>=◌, ◌>>◌, refuse}
use herdr_woof.Schedule.Fields.{Spec}
use herdr_woof.Schedule.Calendar.{Civil}
use herdr_woof.Schedule.Search.{Found, found, exhausted, out_of_fuel, next, add_minute, hour_key}
use herdr_woof.Schedule.Zone.{Location, resolve}
use herdr_woof.Schedule.Every.{EveryError, Due, no_due, next_every, due_every}
use herdr_woof.Schedule.Instant.{unix_of, at_second, civil_of, clock, add_years}

-- The texts of the expression and the zone are left out: what is kept is what they parse to.
pub record Expr : Type 0 where
  pub loc : Location
  pub every : ℕ
  pub spec : Spec

-- ErrNever, and the errors of @every schedules. `stuck` is the model's own.
pub data ExprError : Type 0 where
  never stuck bad_limit : ExprError
  bad_every : EveryError → ExprError

abbrev pub every_result {ℓ} : {A : Type ℓ} → Result EveryError A → Result ExprError A
every_result (ok a) = ok a
every_result (err e) = err (bad_every e)

abbrev pub search_years : ℕ
search_years = 5

unfoldable pub resolved : Expr → Civil → ℤ
unfolding resolve at_second
resolved x c = at_second (resolve c x.loc)

-- What a round makes of a match: the end of the loop, or the time to go on from.
abbrev pub judge : ℤ → ℤ → ℤ → Result ExprError ℤ → Result ExprError ℤ
judge limit after t later =
    if ltb_ℤ limit t then err ExprError.never else if ltb_ℤ after t then ok t else later

unfoldable pub next_loop : ℕ → Expr → ℕ → ℤ → ℤ → Civil → Result ExprError ℤ
unfolding next resolved add_minute
next_loop zero x max_year limit after c = err stuck
next_loop (suc fuel) x max_year limit after c = elim (next x.spec c max_year) [
  | exhausted ↦ err never
  | out_of_fuel ↦ err stuck
  | found c' ↦
      judge limit after (resolved x c') (next_loop fuel x max_year limit after (add_minute c'))
]

-- A round takes the time forward by a minute, and ends with the year `max_year`.
abbrev pub next_fuel : ℕ → Civil → ℕ
next_fuel max_year c =
    suc (suc ((((max_year + 1) * 13 + 13) * 33 * 24) * 60 - (hour_key c * 60 + c.mi)))

-- A cron expression from a wall clock that reads `c`, up to the instant `limit`.
unfoldable pub next_cron : Expr → Civil → ℤ → ℤ → Result ExprError ℤ
unfolding next_loop
next_cron x c limit after =
    let max_year = c.y + search_years + 1 in
    next_loop (next_fuel max_year c) x max_year limit after c

-- `here` is the location that `after` is expressed in.
unfoldable pub expr_next : Location → Expr → ℤ → Option ℤ → Result ExprError ℤ
unfolding next_every next_cron add_years civil_of clock
expr_next here x after anchor =
    if ltb 0 x.every
    then every_result (next_every x.every after anchor)
    else next_cron x (civil_of (clock x.loc after)) (add_years search_years here after) after

-- The binary search over the seconds between two; `out_of_fuel` cannot be: each round at least
-- halves the distance, and the fuel is the distance.
unfoldable pub latest_loop : ℕ → Location → Expr → ℤ → ℤ → ℤ → ℤ
unfolding expr_next at_second
latest_loop zero here x now lo hi = lo
latest_loop (suc fuel) here x now lo hi =
    let mid = lo +ℤ pos (pos_part (hi -ℤ lo) / 2) in
    let up = latest_loop fuel here x now mid hi in
    let down = latest_loop fuel here x now lo mid in
    if ltb 1 (pos_part (hi -ℤ lo))
    then elim (expr_next here x (at_second mid) none) [
      | ok t ↦ if ltb_ℤ now t then down else up
      | err _ ↦ down
    ]
    else lo

abbrev or_zero : Result ExprError ℤ → Option ℤ
or_zero (ok t) = some t
or_zero (err _) = none

unfoldable pub latest : Location → Expr → ℤ → ℤ → Option ℤ
unfolding latest_loop expr_next at_second unix_of
latest here x lo now =
    let s =
      latest_loop (pos_part (unix_of now -ℤ unix_of lo)) here x now (unix_of lo) (unix_of now) in
    or_zero (expr_next here x (at_second s) none)

abbrev first_of : Due → ℤ → Option ℤ
first_of due t = if due.count == 0 then some t else due.first

abbrev counted : Due → ℤ → Due
counted due t = record due { count = due.count + 1; first = first_of due t; latest = some t }

-- The loop of Due over the occurrences up to `now`, with room for `room` more of them.
unfoldable pub due_loop : ℕ → Expr → ℤ → Option ℤ → Due → Result ExprError ℤ → Result ExprError Due
unfolding expr_next
due_loop room x now anchor due (err never) = ok due
due_loop room x now anchor due (err e) = err e
due_loop zero x now anchor due (ok t) =
    if ltb_ℤ now t then ok due else ok (record due { capped = true })
due_loop (suc room) x now anchor due (ok t) =
    let more = due_loop room x now anchor (counted due t) (expr_next x.loc x t anchor) in
    if ltb_ℤ now t then ok due else more

abbrev with_latest : Location → Expr → ℤ → Due → Due
with_latest here x now due = elim due.latest [
  | some t ↦ if due.capped then record due { latest = latest here x t now } else due
  | none ↦ due
]

unfoldable pub expr_due : Location → Expr → ℤ → ℤ → Option ℤ → ℕ → Result ExprError Due
unfolding due_every due_loop latest expr_next
expr_due here x from now anchor limit =
    if limit == 0
    then err bad_limit
    else if ltb 0 x.every
    then every_result (due_every x.every from now anchor limit)
    else if ltb_ℤ now from
    then ok no_due
    else (do
      due ← due_loop limit x now anchor no_due (expr_next here x (from -ℤ pos 1) anchor)
      ok (with_latest here x now due))
