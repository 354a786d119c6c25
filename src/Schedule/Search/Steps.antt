-- ===== src/Schedule/Search/Steps.antt =====
-- One round of the loop of (s *spec) next in internal/schedule/schedule.go: it finds a match or
-- goes to a later time, and no matching time lies between.
use herdr_woof.Prelude.{
  ℕ, ◌+◌, ◌*◌, ◌≤◌, ◌<◌, ◌≡◌, refl, ◌∙◌, inl, inr, Bool, true, false, Option, none, some, arith,
  lt-or-le_ℕ,
}
use herdr_woof.Prelude.Bits.{test_bit}
use herdr_woof.Schedule.Fields.{Spec}
use herdr_woof.Schedule.Calendar.{Civil, weekday}
use herdr_woof.Schedule.Search.{
  add_minute, next_bit, Round, again, done, at, minute_round, step_minute, hour_key,
}
use herdr_woof.Schedule.Search.NextBit.{next_bit-some, next_bit-none}
use herdr_woof.Schedule.Search.Order.{IsCivil, day_rule, Matches, key, days_in-le}

-- A time that the loop may hold: its day can be past the end of the month by one.
pub record InSearch (c : Civil) : Type 0 where
  pub month_low : 1 ≤ c.mo
  pub month_high : c.mo ≤ 12
  pub day_low : 1 ≤ c.d
  pub day_high : c.d ≤ 32
  pub hour_high : c.h < 24
  pub minute_high : c.mi < 60

-- No matching time lies from `c` up to `c'`.
abbrev pub Skips : Spec → Civil → Civil → Type 0
Skips s c c' = (x : Civil) → IsCivil x → Matches s x → key c ≤ key x → key c' ≤ key x

pub record IsLater (s : Spec) (c c' : Civil) : Type 0 where
  pub bounded : InSearch c'
  pub forward : hour_key c < hour_key c'
  pub year : c'.y ≤ c.y + 1
  pub skips : Skips s c c'

pub record IsResult (s : Spec) (c c' : Civil) : Type 0 where
  pub civil : IsCivil c'
  pub matches : Matches s c'
  pub same_year : c'.y ≡ c.y
  pub not_before : key c ≤ key c'
  pub skips : Skips s c c'

abbrev pub Good : Spec → Civil → Round → Type 0
Good s c (again c') = IsLater s c c'
Good s c (done c') = IsResult s c c'

-- A round may first move within the year, over times that do not match.
pub Good-trans :
    (s : Spec) (c c1 : Civil) (r : Round)
    → c1.y ≡ c.y
    → hour_key c ≤ hour_key c1
    → key c ≤ key c1
    → Skips s c c1
    → Good s c1 r
    → Good s c r
Good-trans s c c1 (again c') e hk k sk g = record {
  bounded = g.bounded;
  forward = omega (arith, g.forward);
  year = omega (arith, g.year, e);
  skips = λ x v m l. g.skips x v m (sk x v m l);
}
Good-trans s c c1 (done c') e hk k sk g = record {
  civil = g.civil;
  matches = g.matches;
  same_year = g.same_year ∙ e;
  not_before = omega (arith, g.not_before);
  skips = λ x v m l. g.skips x v m (sk x v m l);
}

-- `c` is a date whose month, day and hour match.
pub record AtHour (s : Spec) (c : Civil) : Type 0 where
  pub civil : IsCivil c
  pub month_set : test_bit s.month c.mo ≡ true
  pub day_set : day_rule s c.d (weekday c.y c.mo c.d) ≡ true
  pub hour_set : test_bit s.hour c.h ≡ true

add_minute-last : (c : Civil) → c.mi ≡ 59 → c.h < 24 → key (add_minute c) ≡ (hour_key c + 1) * 60
unfolding add_minute
add_minute-last c e h = ground arith

pub add_minute-InSearch : (c : Civil) → IsCivil c → InSearch (add_minute c)
unfolding add_minute
add_minute-InSearch c v = ground (arith, days_in-le c.y c.mo)

pub clash : {b : Bool} → b ≡ true → b ≡ false → ⊥
clash h k = cc

minute_round-Good :
    (s : Spec) (c : Civil) (o : Option ℕ)
    → AtHour s c
    → next_bit s.minute c.mi 59 ≡ o
    → Good s c (minute_round o c)
minute_round-Good s c none a e =
    let last = record c { mi = 59 } in
    let k : key (add_minute last) ≡ (hour_key c + 1) * 60 =
      add_minute-last last refl a.civil.hour_high in
    let b : InSearch (add_minute last) = add_minute-InSearch last (record {
      month_low = a.civil.month_low;
      month_high = a.civil.month_high;
      day_low = a.civil.day_low;
      day_high = a.civil.day_high;
      hour_high = a.civil.hour_high;
      minute_high = omega arith;
    }) in
    record {
      bounded = b;
      forward = omega (arith, k, b.minute_high);
      year = unfold add_minute in ground arith;
      skips = λ x v m l. elim (lt-or-le_ℕ (key x) (key (add_minute last))) [
        | inr le ↦ le
        | inl lt ↦ absurd (
            clash m.minute_set (
              next_bit-none s.minute c.mi 59 x.mi (omega (arith, a.civil.minute_high)) (omega arith)
                e (omega (arith, k, a.civil.minute_high, v.minute_high))
                (omega (arith, v.minute_high))))
      ];
    }
minute_round-Good s c (some mi) a e =
    let b =
      next_bit-some s.minute c.mi 59 mi (omega (arith, a.civil.minute_high)) (omega arith) e in
    record {
      civil = record {
        month_low = a.civil.month_low;
        month_high = a.civil.month_high;
        day_low = a.civil.day_low;
        day_high = a.civil.day_high;
        hour_high = a.civil.hour_high;
        minute_high = omega (arith, b.high);
      };
      matches = record {
        month_set = a.month_set;
        day_set = a.day_set;
        hour_set = a.hour_set;
        minute_set = b.is_set;
      };
      same_year = refl;
      not_before = omega (arith, b.low);
      skips = λ x v m l. elim (lt-or-le_ℕ (key x) (key (record c { mi = mi }))) [
        | inr le ↦ le
        | inl lt ↦ absurd (
            clash m.minute_set (
              b.first x.mi (omega (arith, a.civil.minute_high, v.minute_high, b.high))
                (omega (arith, a.civil.minute_high, v.minute_high, b.high))))
      ];
    }

pub step_minute-Good : (s : Spec) (c : Civil) → AtHour s c → Good s c (step_minute s c)
unfolding step_minute
step_minute-Good s c a = minute_round-Good s c (next_bit s.minute c.mi 59) a refl

-- `c` is a date whose month and day match.
pub record AtDay (s : Spec) (c : Civil) : Type 0 where
  pub civil : IsCivil c
  pub month_set : test_bit s.month c.mo ≡ true
  pub day_set : day_rule s c.d (weekday c.y c.mo c.d) ≡ true

-- The start of the next day, where `next` goes when nothing is left of this one.
pub next_day-IsLater :
    (s : Spec) (c : Civil)
    → InSearch c
    → c.d ≤ 31
    → ((x : Civil)
        → IsCivil x
        → Matches s x
        → key c ≤ key x
        → key x < key (at c.y c.mo (c.d + 1))
        → ⊥)
    → IsLater s c (at c.y c.mo (c.d + 1))
next_day-IsLater s c b d none_left = record {
  bounded = record {
    month_low = b.month_low;
    month_high = b.month_high;
    day_low = omega arith;
    day_high = omega arith;
    hour_high = omega arith;
    minute_high = omega arith;
  };
  forward = omega (arith, b.hour_high);
  year = omega arith;
  skips = λ x v m l. elim (lt-or-le_ℕ (key x) (key (at c.y c.mo (c.d + 1)))) [
    | inr le ↦ le
    | inl lt ↦ absurd (none_left x v m l lt)
  ];
}

pub IsCivil-InSearch : (c : Civil) → IsCivil c → InSearch c
IsCivil-InSearch c v = record {
  month_low = v.month_low;
  month_high = v.month_high;
  day_low = v.day_low;
  day_high = omega (arith, v.day_high, days_in-le c.y c.mo);
  hour_high = v.hour_high;
  minute_high = v.minute_high;
}
