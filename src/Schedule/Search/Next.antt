-- ===== src/Schedule/Search/Next.antt =====
-- (s *spec) next of internal/schedule/schedule.go against its comment: the smallest civil time at or
-- after a start that matches, up to the end of a year.
use mathlib.Core.Path.{subst}
use herdr_woof.Prelude.{
  ℕ, zero, suc, ◌+◌, ◌*◌, ◌≤◌, ◌<◌, ◌≡◌, sym, inl, inr, true, false, arith, leb, leb→le, Bool-cases,
}
use herdr_woof.Schedule.Fields.{Spec}
use herdr_woof.Schedule.Calendar.{Civil}
use herdr_woof.Schedule.Search.{
  Round, again, done, round, Found, found, exhausted, out_of_fuel, with_round, search_loop,
  hour_key, search_fuel, next,
}
use herdr_woof.Schedule.Search.Order.{IsCivil, Matches, key, days_in-le}
use herdr_woof.Schedule.Search.Steps.{InSearch, Skips, IsLater, Good}
use herdr_woof.Schedule.Search.Rounds.{round-Good}

-- `r` is the first match at or after `c`, and lies in a year up to `max_year`.
pub record IsFirstMatch (s : Spec) (c : Civil) (max_year : ℕ) (r : Civil) : Type 0 where
  pub civil : IsCivil r
  pub matches : Matches s r
  pub in_time : r.y ≤ max_year
  pub not_before : key c ≤ key r
  pub first : Skips s c r

abbrev pub IsAnswer : Spec → Civil → ℕ → Found → Type 0
IsAnswer s c max_year (found r) = IsFirstMatch s c max_year r
IsAnswer s c max_year exhausted =
    (x : Civil) → IsCivil x → Matches s x → key c ≤ key x → max_year < x.y
IsAnswer s c max_year out_of_fuel = ⊥

IsAnswer-later :
    (s : Spec) (c c' : Civil) (max_year : ℕ) (a : Found)
    → IsLater s c c'
    → key c ≤ key c'
    → IsAnswer s c' max_year a
    → IsAnswer s c max_year a
IsAnswer-later s c c' max_year (found r) l k a = record {
  civil = a.civil;
  matches = a.matches;
  in_time = a.in_time;
  not_before = omega (arith, a.not_before);
  first = λ x v m h. a.first x v m (l.skips x v m h);
}
IsAnswer-later s c c' max_year exhausted l k a = λ x v m h. a x v m (l.skips x v m h)
IsAnswer-later s c c' max_year out_of_fuel l k a = a

abbrev fuel_bound : ℕ → ℕ
fuel_bound max_year = ((max_year + 1) * 13 + 13) * 33 * 24

years_over :
    (s : Spec) (c : Civil) (max_year : ℕ)
    → InSearch c
    → max_year < c.y
    → IsAnswer s c max_year exhausted
years_over s c max_year b over x v m h =
    omega (
      arith,
      b.month_low,
      v.month_high,
      v.hour_high,
      v.minute_high,
      days_in-le x.y x.mo,
      v.day_high,
    )

-- What one round, and the rest of the loop after it, come to.
with_round-IsAnswer :
    (s : Spec) (c : Civil) (max_year : ℕ) (r : Round) (rest : Civil → Found)
    → InSearch c
    → c.y ≤ max_year
    → Good s c r
    → ((c' : Civil) → IsLater s c c' → IsAnswer s c' max_year (rest c'))
    → IsAnswer s c max_year (with_round r rest)
with_round-IsAnswer s c max_year (again c') rest b y l k =
    IsAnswer-later s c c' max_year (rest c') l (omega (arith, l.forward, b.minute_high)) (k c' l)
with_round-IsAnswer s c max_year (done r) rest b y g k = record {
  civil = g.civil;
  matches = g.matches;
  in_time = omega (arith, g.same_year);
  not_before = g.not_before;
  first = g.skips;
}

search_loop_over :
    (fuel : ℕ) (s : Spec) (c : Civil) (max_year : ℕ)
    → leb c.y max_year ≡ false
    → search_loop (suc fuel) s c max_year ≡ exhausted
unfolding search_loop
search_loop_over fuel s c max_year h = rw (h, search_loop)

search_loop_more :
    (fuel : ℕ) (s : Spec) (c : Civil) (max_year : ℕ)
    → leb c.y max_year ≡ true
    → search_loop (suc fuel) s c max_year
      ≡ with_round (round s c) (λ c'. search_loop fuel s c' max_year)
unfolding search_loop
search_loop_more fuel s c max_year h = rw (h, search_loop)

search_loop-IsAnswer :
    (fuel : ℕ) (s : Spec) (c : Civil) (max_year : ℕ)
    → InSearch c
    → c.y ≤ max_year + 1
    → fuel_bound max_year < hour_key c + fuel
    → IsAnswer s c max_year (search_loop fuel s c max_year)
search_loop-IsAnswer zero s c max_year b y f =
    absurd (omega (arith, b.month_high, b.day_high, b.hour_high))
search_loop-IsAnswer (suc fuel) s c max_year b y f = elim (Bool-cases (leb c.y max_year)) [
  | inr over ↦
      subst (IsAnswer s c max_year) (sym (search_loop_over fuel s c max_year over))
        (years_over s c max_year b (ground arith))
  | inl more ↦
      let low : c.y ≤ max_year = leb→le c.y max_year more in
      subst (IsAnswer s c max_year) (sym (search_loop_more fuel s c max_year more)) (
        with_round-IsAnswer s c max_year (round s c) (λ c'. search_loop fuel s c' max_year) b low
          (round-Good s c b)
          (λ c' l.
            search_loop-IsAnswer fuel s c' max_year l.bounded (omega (arith, l.year))
              (omega (arith, l.forward))))
]

-- From a time of the calendar `next` always ends. It returns the first civil time at or after the
-- start that matches the spec, if one lies in a year up to `max_year`, and nothing otherwise.
pub next-IsAnswer :
    (s : Spec) (c : Civil) (max_year : ℕ) → InSearch c → IsAnswer s c max_year (next s c max_year)
unfolding next
next-IsAnswer s c max_year b = elim (Bool-cases (leb c.y max_year)) [
  | inr over ↦
      subst (IsAnswer s c max_year) (sym (search_loop_over _ s c max_year over))
        (years_over s c max_year b (ground arith))
  | inl more ↦
      let low : c.y ≤ max_year = leb→le c.y max_year more in
      search_loop-IsAnswer (search_fuel c max_year) s c max_year b (omega arith) (omega arith)
]
