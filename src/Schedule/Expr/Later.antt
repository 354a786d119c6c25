-- ===== src/Schedule/Expr/Later.antt =====
-- Next of internal/schedule/schedule.go goes forward, whatever the zone.
use herdr_woof.Prelude.{ℕ, zero, suc, ◌+◌, ◌<◌, ◌≡◌, refl, subst, Option, none, some, ltb, ltb→lt}
use herdr_woof.Prelude.Int.{ℤ, ◌<ℤ◌, ltb_ℤ, ltb_ℤ→lt}
use herdr_woof.Prelude.Result.{Result, ok, err, ok-inj, by_branch}
use herdr_woof.Schedule.Calendar.{Civil}
use herdr_woof.Schedule.Search.{Found, found, exhausted, out_of_fuel, next, add_minute}
use herdr_woof.Schedule.Zone.{Location}
use herdr_woof.Schedule.Every.{EveryError, next_every}
use herdr_woof.Schedule.Every.Occurrences.{next_every-IsNextOccurrence}
use herdr_woof.Schedule.Instant.{civil_of, clock, add_years}
use herdr_woof.Schedule.Expr.{
  Expr, ExprError, never, stuck, resolved, judge, next_loop, next_fuel, next_cron, every_result,
  search_years, expr_next,
}

judge_later :
    (limit after t r : ℤ) (later : Result ExprError ℤ)
    → (later ≡ ok r → after <ℤ r)
    → judge limit after t later ≡ ok r
    → after <ℤ r
judge_later limit after t r later k h =
    by_branch (ltb_ℤ limit t) (err never) _ h (λ _ p. cc)
      λ _ p.
        by_branch (ltb_ℤ after t) (ok t) later p
          (λ q e. subst (λ z. after <ℤ z) (ok-inj e) (ltb_ℤ→lt after t q)) (λ _ e. k e)

found_later :
    (x : Expr) (limit after r : ℤ) (rest : Civil → Result ExprError ℤ) (a : Found)
    → ((c : Civil) → rest c ≡ ok r → after <ℤ r)
    → elim a [
      | exhausted ↦ err never
      | out_of_fuel ↦ err stuck
      | found c ↦ judge limit after (resolved x c) (rest c)
    ]
      ≡ ok r
    → after <ℤ r
found_later x limit after r rest exhausted k h = cc
found_later x limit after r rest out_of_fuel k h = cc
found_later x limit after r rest (found c) k h =
    judge_later limit after (resolved x c) r (rest c) (k c) h

next_loop_later :
    (fuel : ℕ) (x : Expr) (max_year : ℕ) (limit after r : ℤ) (c : Civil)
    → next_loop fuel x max_year limit after c ≡ ok r
    → after <ℤ r
unfolding next_loop
next_loop_later zero x max_year limit after r c h = cc
next_loop_later (suc fuel) x max_year limit after r c h =
    found_later x limit after r (λ c'. next_loop fuel x max_year limit after (add_minute c'))
      (next x.spec c max_year)
      (λ c' k. next_loop_later fuel x max_year limit after r (add_minute c') k) h

no_anchor_fails : (every : ℕ) (after t : ℤ) → next_every every after none ≡ ok t → ⊥
unfolding next_every
no_anchor_fails every after t h = cc

every_later :
    (every : ℕ) (after r : ℤ) (anchor : Option ℤ)
    → 0 < every
    → every_result (next_every every after anchor) ≡ ok r
    → after <ℤ r
every_later every after r anchor p h = of_anchor anchor (next_every every after anchor) refl h
  where
    of_anchor :
        (o : Option ℤ) (e : Result EveryError ℤ)
        → next_every every after o ≡ e
        → every_result e ≡ ok r
        → after <ℤ r
    of_anchor o (err x) e h = cc
    of_anchor none (ok t) e h = absurd (no_anchor_fails every after t e)
    of_anchor (some a) (ok t) e h =
        subst (λ z. after <ℤ z) (ok-inj h) (next_every-IsNextOccurrence every a after t p e).later

next_cron_later :
    (x : Expr) (c : Civil) (limit after r : ℤ) → next_cron x c limit after ≡ ok r → after <ℤ r
unfolding next_cron
next_cron_later x c limit after r h =
    let max_year = c.y + search_years + 1 in
    next_loop_later (next_fuel max_year c) x max_year limit after r c h

-- What Next returns is later than its argument.
pub expr_next_later :
    (here : Location) (x : Expr) (after r : ℤ) (anchor : Option ℤ)
    → expr_next here x after anchor ≡ ok r
    → after <ℤ r
unfolding expr_next
expr_next_later here x after r anchor h =
    let c = civil_of (clock x.loc after) in
    let limit = add_years search_years here after in
    by_branch (ltb 0 x.every) (every_result (next_every x.every after anchor))
      (next_cron x c limit after) h
      (λ p k. every_later x.every after r anchor (ltb→lt 0 x.every p) k)
      (λ _ k. next_cron_later x c limit after r k)
