-- ===== src/Schedule/Search/Rounds.antt =====
-- The day, the month and a whole round of the loop of (s *spec) next in
-- internal/schedule/schedule.go.
use mathlib.Core.Path.{ap₂}
use herdr_woof.Prelude.{
  ℕ, ◌+◌, ◌≤◌, ◌<◌, ◌≡◌, refl, sym, ap, ◌∙◌, inl, inr, true, false, Option, none, some, arith, ltb,
  ◌==◌, if◌then◌else◌, Bool-cases, lt-or-le_ℕ,
}
use herdr_woof.Prelude.Bits.{test_bit}
use herdr_woof.Schedule.Fields.{Spec}
use herdr_woof.Schedule.Calendar.{Civil, days_in, weekday}
use herdr_woof.Schedule.Search.{
  next_bit, at, step_minute, hour_round, step_hour, step_day, month_round, round, hour_key,
}
use herdr_woof.Schedule.Search.NextBit.{IsNextBit, next_bit-some, next_bit-none}
use herdr_woof.Schedule.Search.Order.{
  IsCivil, day_rule, key, days_in-le, mask_test, day_matches_lem,
}
use herdr_woof.Schedule.Search.Steps.{
  InSearch, Skips, IsLater, Good, Good-trans, AtHour, clash, step_minute-Good, AtDay,
  next_day-IsLater, IsCivil-InSearch,
}

abbrev with_hour : ℕ → Civil → Civil
with_hour h c = if h == c.h then c else record c { h = h; mi = 0 }

-- Going to the next hour that is set.
record HourFacts (s : Spec) (c c1 : Civil) : Type 0 where
  at_hour : AtHour s c1
  year : c1.y ≡ c.y
  hour_forward : hour_key c ≤ hour_key c1
  forward : key c ≤ key c1
  skips : Skips s c c1

with_hour_lem :
    (s : Spec) (c : Civil) (h : ℕ)
    → AtDay s c
    → IsNextBit s.hour c.h 23 h
    → HourFacts s c (with_hour h c)
with_hour_lem s c h a b = elim (Bool-cases (h == c.h)) [
  | inl same ↦
      let e : h ≡ c.h = ground arith in
      rw same (record {
        at_hour = record {
          civil = a.civil;
          month_set = a.month_set;
          day_set = a.day_set;
          hour_set = ap (test_bit s.hour) (sym e) ∙ b.is_set;
        };
        year = refl;
        hour_forward = omega arith;
        forward = omega arith;
        skips = λ x v m l. l;
      })
  | inr moved ↦
      let ne : c.h < h = ground (arith, b.low) in
      rw moved (record {
        at_hour = record {
          civil = record {
            month_low = a.civil.month_low;
            month_high = a.civil.month_high;
            day_low = a.civil.day_low;
            day_high = a.civil.day_high;
            hour_high = omega (arith, b.high);
            minute_high = omega arith;
          };
          month_set = a.month_set;
          day_set = a.day_set;
          hour_set = b.is_set;
        };
        year = refl;
        hour_forward = omega (arith, ne);
        forward = omega (arith, ne, a.civil.minute_high);
        skips = λ x v m l. elim (lt-or-le_ℕ (key x) (key (record c { h = h; mi = 0 }))) [
          | inr le ↦ le
          | inl lt ↦ absurd (
              clash m.hour_set (
                b.first x.h
                  (omega (
                    arith, ne, a.civil.hour_high, a.civil.minute_high, v.hour_high, v.minute_high,
                    b.high,
                  ))
                  (omega (
                    arith, ne, a.civil.hour_high, a.civil.minute_high, v.hour_high, v.minute_high,
                    b.high,
                  ))))
        ];
      })
]

-- A time between `c` and the end of its day is on that day, at the hour of `c` or later.
same_day_hour :
    (c x : Civil)
    → InSearch c
    → IsCivil x
    → key c ≤ key x
    → key x < key (at c.y c.mo (c.d + 1))
    → c.h ≤ x.h
same_day_hour c x b v l lt = omega (arith, b.hour_high, v.hour_high, b.minute_high, v.minute_high)

hour_round-Good :
    (s : Spec) (c : Civil) (o : Option ℕ)
    → AtDay s c
    → next_bit s.hour c.h 23 ≡ o
    → Good s c (hour_round s o c)
hour_round-Good s c none a e =
    let b = IsCivil-InSearch c a.civil in
    next_day-IsLater s c b (omega (arith, a.civil.day_high, days_in-le c.y c.mo)) λ x v m l lt.
      clash m.hour_set (
        next_bit-none s.hour c.h 23 x.h (omega (arith, b.hour_high)) (omega arith) e
          (same_day_hour c x b v l lt) (omega (arith, v.hour_high)))
hour_round-Good s c (some h) a e =
    let b = next_bit-some s.hour c.h 23 h (omega (arith, a.civil.hour_high)) (omega arith) e in
    let f = with_hour_lem s c h a b in
    Good-trans s c (with_hour h c) (step_minute s (with_hour h c)) f.year f.hour_forward f.forward
      f.skips (step_minute-Good s (with_hour h c) f.at_hour)

step_hour-Good : (s : Spec) (c : Civil) → AtDay s c → Good s c (step_hour s c)
unfolding step_hour
step_hour-Good s c a = hour_round-Good s c (next_bit s.hour c.h 23) a refl

-- The month after that of `c`, where `next` goes from a day past the end of the month.
abbrev next_month : Civil → Civil
next_month c = if ltb 12 (c.mo + 1) then at (c.y + 1) 1 1 else at c.y (c.mo + 1) 1

next_month-InSearch : (c : Civil) → InSearch c → InSearch (next_month c)
next_month-InSearch c b = ground arith

next_month_forward : (c : Civil) → InSearch c → hour_key c < hour_key (next_month c)
next_month_forward c b = ground arith

before_next_month :
    (c x : Civil)
    → InSearch c
    → IsCivil x
    → key c ≤ key x
    → key x < key (next_month c)
    → (x.y ≡ c.y) × (x.mo ≡ c.mo)
before_next_month c x b v l lt = elim (Bool-cases (ltb 12 (c.mo + 1))) [
  | inl last ↦ december c x b v (ground arith) l (rw last at lt)
  | inr inner ↦ other c x b v l (rw inner at lt)
]
  where
    december :
        (c x : Civil)
        → InSearch c
        → IsCivil x
        → 12 ≤ c.mo
        → key c ≤ key x
        → key x < key (at (c.y + 1) 1 1)
        → (x.y ≡ c.y) × (x.mo ≡ c.mo)
    december c x b v m l lt = omega (arith, v.day_high, days_in-le x.y x.mo)

    other :
        (c x : Civil)
        → InSearch c
        → IsCivil x
        → key c ≤ key x
        → key x < key (at c.y (c.mo + 1) 1)
        → (x.y ≡ c.y) × (x.mo ≡ c.mo)
    other c x b v l lt = omega (arith, v.day_high, days_in-le x.y x.mo)

past_month-Good :
    (s : Spec) (c : Civil) → InSearch c → days_in c.y c.mo < c.d → IsLater s c (next_month c)
past_month-Good s c b past = record {
  bounded = next_month-InSearch c b;
  forward = next_month_forward c b;
  year = ground arith;
  skips = λ x v m l. elim (lt-or-le_ℕ (key x) (key (next_month c))) [
    | inr le ↦ le
    | inl lt ↦
        let (ey, em) = before_next_month c x b v l lt in
        let e : days_in x.y x.mo ≡ days_in c.y c.mo = ap₂ days_in ey em in
        absurd
          (omega (arith, e, v.day_high, v.hour_high, v.minute_high, b.hour_high, b.minute_high))
  ];
}

same_date :
    (c x : Civil)
    → InSearch c
    → IsCivil x
    → c.d ≤ 31
    → key c ≤ key x
    → key x < key (at c.y c.mo (c.d + 1))
    → (x.y ≡ c.y) × (x.mo ≡ c.mo) × (x.d ≡ c.d)
same_date c x b v d l lt = omega (arith, v.day_high, days_in-le x.y x.mo)

wrong_day-Good :
    (s : Spec) (c : Civil)
    → InSearch c
    → c.d ≤ 31
    → day_rule s c.d (weekday c.y c.mo c.d) ≡ false
    → IsLater s c (at c.y c.mo (c.d + 1))
wrong_day-Good s c b d wrong = next_day-IsLater s c b d λ x v m l lt.
    let (ey, em, ed) = same_date c x b v d l lt in
    let e : weekday x.y x.mo x.d ≡ weekday c.y c.mo c.d =
      ap₂ (λ y mo. weekday y mo x.d) ey em ∙ ap (weekday c.y c.mo) ed in
    clash m.day_set (ap₂ (day_rule s) ed e ∙ wrong)

step_day-Good :
    (s : Spec) (c : Civil) → InSearch c → test_bit s.month c.mo ≡ true → Good s c (step_day s c)
unfolding step_day
step_day-Good s c b m = elim (Bool-cases (ltb (days_in c.y c.mo) c.d)) [
  | inl past ↦ rw past (past_month-Good s c b (ground arith))
  | inr inside ↦
      let low : c.d ≤ days_in c.y c.mo = ground arith in
      let d : c.d ≤ 31 = omega (arith, days_in-le c.y c.mo) in
      let e = day_matches_lem s c.y c.mo c.d (omega arith) in
      elim (Bool-cases (day_rule s c.d (weekday c.y c.mo c.d))) [
        | inl right ↦
            rw (inside, e ∙ right)
              (step_hour-Good s c (record {
                civil = record {
                  month_low = b.month_low;
                  month_high = b.month_high;
                  day_low = b.day_low;
                  day_high = low;
                  hour_high = b.hour_high;
                  minute_high = b.minute_high;
                };
                month_set = m;
                day_set = right;
              }))
        | inr wrong ↦ rw (inside, e ∙ wrong) (wrong_day-Good s c b d wrong)
      ]
]

-- Times of the months before `m` of the same year do not match.
month-Skips :
    (s : Spec) (c : Civil) (m : ℕ)
    → InSearch c
    → test_bit s.month c.mo ≡ false
    → IsNextBit s.month (c.mo + 1) 12 m
    → Skips s c (at c.y m 1)
month-Skips s c m b clear n x v mx l = elim (lt-or-le_ℕ (key x) (key (at c.y m 1))) [
  | inr le ↦ le
  | inl lt ↦ elim (lt-or-le_ℕ c.mo x.mo) [
    | inl above ↦ absurd (
        clash mx.month_set (
          n.first x.mo (omega arith)
            (omega (arith, n.high, v.day_low, v.day_high, days_in-le x.y x.mo, v.month_high))))
    | inr below ↦
        let e : x.mo ≡ c.mo = omega (
          arith,
          n.high,
          n.low,
          v.day_high,
          days_in-le x.y x.mo,
          v.hour_high,
          v.minute_high,
          b.month_low,
          b.day_low,
        ) in
        absurd (clash mx.month_set (ap (test_bit s.month) e ∙ clear))
  ]
]

month_round-Good :
    (s : Spec) (c : Civil) (o : Option ℕ)
    → InSearch c
    → test_bit s.month c.mo ≡ false
    → next_bit s.month (c.mo + 1) 12 ≡ o
    → Good s c (month_round s o c)
month_round-Good s c none b clear e = record {
  bounded = ground arith;
  forward = omega (arith, b.month_high, b.day_high, b.hour_high);
  year = omega arith;
  skips = λ x v m l. elim (lt-or-le_ℕ (key x) (key (at (c.y + 1) 1 1))) [
    | inr le ↦ le
    | inl lt ↦ elim (lt-or-le_ℕ c.mo x.mo) [
      | inl above ↦ absurd (
          clash m.month_set (
            next_bit-none s.month (c.mo + 1) 12 x.mo (omega (arith, b.month_high)) (omega arith) e
              (omega arith) v.month_high))
      | inr below ↦
          let k : x.mo ≡ c.mo = omega (
            arith,
            v.day_high,
            days_in-le x.y x.mo,
            v.hour_high,
            v.minute_high,
            v.month_low,
            v.day_low,
            b.month_low,
            b.day_low,
          ) in
          absurd (clash m.month_set (ap (test_bit s.month) k ∙ clear))
    ]
  ];
}
month_round-Good s c (some m) b clear e =
    let n = next_bit-some s.month (c.mo + 1) 12 m (omega (arith, b.month_high)) (omega arith) e in
    Good-trans s c (at c.y m 1) (step_day s (at c.y m 1)) refl
      (omega (arith, n.low, b.day_high, b.hour_high))
      (omega (arith, n.low, b.day_high, b.hour_high, b.minute_high)) (month-Skips s c m b clear n)
      (step_day-Good s (at c.y m 1)
        (record {
          month_low = omega (arith, n.low);
          month_high = n.high;
          day_low = omega arith;
          day_high = omega arith;
          hour_high = omega arith;
          minute_high = omega arith;
        })
        n.is_set)

-- A round from a time that the loop may hold gives a matching time, or goes on from a later time;
-- in both cases no matching time lies between.
pub round-Good : (s : Spec) (c : Civil) → InSearch c → Good s c (round s c)
unfolding round
round-Good s c b = elim (Bool-cases (test_bit s.month c.mo)) [
  | inl set ↦
      rw (mask_test s.month c.mo (omega (arith, b.month_high)), set) (step_day-Good s c b set)
  | inr clear ↦
      rw (mask_test s.month c.mo (omega (arith, b.month_high)), clear)
        (month_round-Good s c (next_bit s.month (c.mo + 1) 12) b clear refl)
]
