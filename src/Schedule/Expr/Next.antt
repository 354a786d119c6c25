-- ===== src/Schedule/Expr/Next.antt =====
-- Next of internal/schedule/schedule.go on a cron expression, against its comment: the first
-- occurrence strictly after an instant, over the search of civil times and their resolution.
use herdr_woof.Prelude.{
  ℕ, zero, suc, ◌+◌, ◌*◌, ◌≤◌, ◌<◌, ◌≡◌, refl, sym, Option, inl, inr, Bool, true, false, arith,
  subst, lt-or-le_ℕ, if◌then◌else◌,
}
use herdr_woof.Prelude.Int.{ℤ, ◌≤ℤ◌, ◌<ℤ◌, ltb_ℤ, ltb_ℤ→lt, not-ltb_ℤ→le, lt-or-le}
use herdr_woof.Prelude.Result.{Result, ok, err}
use herdr_woof.Schedule.Calendar.{Civil, seconds, unix}
use herdr_woof.Schedule.Search.{Found, found, exhausted, out_of_fuel, next, add_minute}
use herdr_woof.Schedule.Search.Order.{key, days_in-le}
use herdr_woof.Schedule.Search.Steps.{InSearch, IsCivil-InSearch, add_minute-InSearch}
use herdr_woof.Schedule.Search.Next.{IsFirstMatch, IsAnswer, next-IsAnswer}
use herdr_woof.Schedule.Zone.{Location, wall, IsLocation, resolve}
use herdr_woof.Schedule.Zone.Resolve.{IsEarliest, IsSpaced, resolve-IsEarliest}
use herdr_woof.Schedule.Instant.{unix_of, civil_of, clock, add_years}
use herdr_woof.Schedule.Instant.RoundTrip.{IsCivilOf, civil_of-IsCivilOf, seconds_mono}
use herdr_woof.Schedule.Expr.{
  Expr, ExprError, never, stuck, bad_limit, bad_every, resolved, judge, next_loop, next_fuel,
  next_cron, search_years, expr_next,
}
use herdr_woof.Schedule.Expr.Order.{
  key-add_minute, year-add_minute, around, lt_irrefl, le_irrefl, before_after, clock_passed,
  resolved_passed, resolved_mono, IsMatch,
}

-- A property of a conditional from that of its branches.
by_test {ℓ} :
    {A : Type ℓ} (P : A → Type 0) (b : Bool) {x y : A}
    → (b ≡ true → P x)
    → (b ≡ false → P y)
    → P (if b then x else y)
by_test P true p q = p refl
by_test P false p q = q refl

judge_cases :
    (P : Result ExprError ℤ → Type 0) (limit after t : ℤ) (later : Result ExprError ℤ)
    → (limit <ℤ t → P (err never))
    → (t ≤ℤ limit → after <ℤ t → P (ok t))
    → (t ≤ℤ after → P later)
    → P (judge limit after t later)
judge_cases P limit after t later past hit miss =
    by_test P (ltb_ℤ limit t) (λ h. past (ltb_ℤ→lt limit t h))
      λ low.
        by_test P (ltb_ℤ after t) (λ h. hit (not-ltb_ℤ→le limit t low) (ltb_ℤ→lt after t h))
          λ h. miss (not-ltb_ℤ→le after t h)

-- `t` is the first occurrence after `after`, and not past `limit`.
pub record IsNextTime (x : Expr) (limit after t : ℤ) : Type 0 where
  pub civil : Civil
  pub is_match : IsMatch x civil
  pub is_at : t ≡ resolved x civil
  pub later : after <ℤ t
  pub in_time : t ≤ℤ limit
  pub first : (c : Civil) → IsMatch x c → after <ℤ resolved x c → t ≤ℤ resolved x c

abbrev pub IsNextAnswer : Expr → ℕ → ℤ → ℤ → Result ExprError ℤ → Type 0
IsNextAnswer x max_year limit after (ok t) = IsNextTime x limit after t
IsNextAnswer x max_year limit after (err never) =
    (c : Civil) → IsMatch x c → c.y ≤ max_year → after <ℤ resolved x c → limit <ℤ resolved x c
IsNextAnswer x max_year limit after (err stuck) = ⊥
IsNextAnswer x max_year limit after (err bad_limit) = ⊥
IsNextAnswer x max_year limit after (err (bad_every e)) = ⊥

-- Every match that resolves to after `after` is still ahead.
abbrev AllAhead : Expr → ℤ → Civil → Type 0
AllAhead x after c = (c' : Civil) → IsMatch x c' → after <ℤ resolved x c' → key c ≤ key c'

module _ (x : Expr) (l : IsLocation x.loc) (sp : IsSpaced x.loc) where
  -- The round at a match `c'`.
  judge-IsNextAnswer :
      (max_year : ℕ) (limit after : ℤ) (c c' : Civil) (later : Result ExprError ℤ)
      → 1 ≤ c'.y
      → IsFirstMatch x.spec c max_year c'
      → AllAhead x after c
      → (AllAhead x after (add_minute c') → IsNextAnswer x max_year limit after later)
      → IsNextAnswer x max_year limit after (judge limit after (resolved x c') later)
  judge-IsNextAnswer max_year limit after c c' later p f ahead rest =
      let t = resolved x c' in
      let low : (d : Civil) → IsMatch x d → after <ℤ resolved x d → t ≤ℤ resolved x d = λ d m h.
        resolved_mono x l sp c' d p f.civil m.civil (f.first d m.civil m.matches (ahead d m h)) in
      let ahead' : t ≤ℤ after → AllAhead x after (add_minute c') = λ le d m h.
        elim (lt-or-le_ℕ (key c') (key d)) [
          | inl more ↦ omega (arith, key-add_minute c' f.civil)
          | inr same ↦
              let up : resolved x d ≤ℤ t =
                resolved_mono x l sp d c' m.from_one m.civil f.civil same in
              absurd (around (resolved x d) t after h up le)
        ] in
      judge_cases (IsNextAnswer x max_year limit after) limit after t later
        (λ past d m y h. before_after limit t (resolved x d) past (low d m h))
        (λ in_time later. record {
          civil = c';
          is_match = record { from_one = p; civil = f.civil; matches = f.matches };
          is_at = refl;
          later = later;
          in_time = in_time;
          first = low;
        })
        (λ le. rest (ahead' le))

  next_loop-found :
      (fuel max_year : ℕ) (limit after : ℤ) (c c' : Civil)
      → next x.spec c max_year ≡ found c'
      → next_loop (suc fuel) x max_year limit after c
        ≡ judge limit after (resolved x c') (next_loop fuel x max_year limit after (add_minute c'))
  unfolding next_loop
  next_loop-found fuel max_year limit after c c' h = rw (h, next_loop)

  next_loop_never :
      (fuel max_year : ℕ) (limit after : ℤ) (c : Civil)
      → next x.spec c max_year ≡ exhausted
      → next_loop (suc fuel) x max_year limit after c ≡ err never
  unfolding next_loop
  next_loop_never fuel max_year limit after c h = rw (h, next_loop)

  found_from_one :
      (max_year : ℕ) (c c' : Civil)
      → InSearch c
      → 1 ≤ c.y
      → IsFirstMatch x.spec c max_year c'
      → 1 ≤ c'.y
  found_from_one max_year c c' b p f = omega (
    arith,
    days_in-le c'.y c'.mo,
    b.month_low,
    b.day_low,
    f.not_before,
    f.civil.month_high,
    f.civil.day_high,
    f.civil.hour_high,
    f.civil.minute_high,
  )

  -- What the search of a round comes to; `rest` is the loop from a later time.
  round-IsNextAnswer :
      (fuel max_year : ℕ) (limit after : ℤ) (c : Civil) (a : Found)
      → InSearch c
      → 1 ≤ c.y
      → AllAhead x after c
      → next x.spec c max_year ≡ a
      → IsAnswer x.spec c max_year a
      → ((c' : Civil)
          → IsFirstMatch x.spec c max_year c'
          → AllAhead x after (add_minute c')
          → IsNextAnswer x max_year limit after
              (next_loop fuel x max_year limit after (add_minute c')))
      → IsNextAnswer x max_year limit after (next_loop (suc fuel) x max_year limit after c)
  round-IsNextAnswer fuel max_year limit after c out_of_fuel b p ahead e a rest = absurd a
  round-IsNextAnswer fuel max_year limit after c exhausted b p ahead e a rest =
      subst (IsNextAnswer x max_year limit after)
        (sym (next_loop_never fuel max_year limit after c e))
        (λ d m u h. absurd (le_irrefl (a d m.civil m.matches (ahead d m h)) u))
  round-IsNextAnswer fuel max_year limit after c (found c') b p ahead e a rest =
      subst (IsNextAnswer x max_year limit after)
        (sym (next_loop-found fuel max_year limit after c c' e))
        (judge-IsNextAnswer max_year limit after c c' _ (found_from_one max_year c c' b p a) a ahead
          (rest c' a))

  next_loop-IsNextAnswer :
      (fuel max_year : ℕ) (limit after : ℤ) (c : Civil)
      → InSearch c
      → 1 ≤ c.y
      → c.y ≤ max_year
      → (((max_year + 1) * 13 + 13) * 33 * 24) * 60 < key c + fuel
      → AllAhead x after c
      → IsNextAnswer x max_year limit after (next_loop fuel x max_year limit after c)
  next_loop-IsNextAnswer zero max_year limit after c b p y f ahead =
      absurd (omega (arith, b.month_high, b.day_high, b.hour_high, b.minute_high))
  next_loop-IsNextAnswer (suc fuel) max_year limit after c b p y f ahead =
      round-IsNextAnswer fuel max_year limit after c (next x.spec c max_year) b p ahead refl
        (next-IsAnswer x.spec c max_year b)
        (λ c' a.
          let e = year-add_minute c' in
          let q = found_from_one max_year c c' b p a in
          next_loop-IsNextAnswer fuel max_year limit after (add_minute c')
            (add_minute-InSearch c' a.civil) (omega (arith, e, q)) (omega (arith, e, a.in_time))
            (omega (arith, key-add_minute c' a.civil, a.not_before)))

  -- A match before the minute that the wall clock reads resolves to no later instant.
  clock-AllAhead : (after : ℤ) → AllAhead x after (civil_of (clock x.loc after))
  clock-AllAhead after d m h =
      let c = civil_of (clock x.loc after) in
      let o : IsCivilOf (clock x.loc after) c = civil_of-IsCivilOf (clock x.loc after) in
      elim (lt-or-le_ℕ (key d) (key c)) [
        | inr ahead ↦ ahead
        | inl before ↦
            let below : seconds d + 1 ≤ seconds c =
              seconds_mono 1 d c (omega arith) m.from_one m.civil o.civil (omega arith) in
            let passed : unix d ≤ℤ wall x.loc (unix_of after) =
              clock_passed x.loc after d (omega (arith, o.to_minute)) in
            let a : IsEarliest x.loc (unix d) (resolve d x.loc) = resolve-IsEarliest d x.loc l sp in
            absurd (
              lt_irrefl after (resolved x d) h (elim (lt-or-le (unix_of after) (resolve d x.loc)) [
                | inl late ↦ absurd (
                    lt_irrefl (wall x.loc (unix_of after)) (unix d)
                      (a.earliest (unix_of after) late) passed)
                | inr early ↦ resolved_passed x d after early
              ]))
      ]

expr_next_cron :
    (here : Location) (x : Expr) (after : ℤ) (anchor : Option ℤ)
    → x.every ≡ 0
    → expr_next here x after anchor
      ≡ next_cron x (civil_of (clock x.loc after)) (add_years search_years here after) after
unfolding expr_next
expr_next_cron here x after anchor h = rw (h, expr_next)

-- In a zone that keeps its offsets for three hours or more, Next on a cron expression always ends. It
-- returns the first instant strictly after its argument that some matching civil time resolves to,
-- which is at most five years later; and it returns ErrNever only if every matching civil time up to
-- the end of the sixth year that resolves to a later instant does so past those five years.
pub expr_next-IsNextAnswer :
    (here : Location) (x : Expr) (after : ℤ) (anchor : Option ℤ)
    → IsLocation x.loc
    → IsSpaced x.loc
    → x.every ≡ 0
    → IsNextAnswer x
        ((civil_of (clock x.loc after)).y + search_years + 1)
        (add_years search_years here after)
        after
        (expr_next here x after anchor)
unfolding next_cron
expr_next-IsNextAnswer here x after anchor l sp e =
    let c = civil_of (clock x.loc after) in
    let o : IsCivilOf (clock x.loc after) c = civil_of-IsCivilOf (clock x.loc after) in
    let limit = add_years search_years here after in
    let max_year = c.y + search_years + 1 in
    let a : IsNextAnswer x max_year limit after (next_cron x c limit after) =
      next_loop-IsNextAnswer x l sp (next_fuel max_year c) max_year limit after c
        (IsCivil-InSearch c o.civil) o.from_one (omega arith) (omega arith)
        (clock-AllAhead x l sp after) in
    subst (IsNextAnswer x max_year limit after) (sym (expr_next_cron here x after anchor e)) a
