-- ===== src/Schedule/Examples/Expressions.antt =====
-- Concrete expressions of internal/schedule: tests of Next and Due, and the theorems at these inputs.
use herdr_woof.Prelude.{◌≡◌, refl, true, false, none, some, ◌+◌, arith}
use herdr_woof.Prelude.Int.{ℤ, pos, ◌+ℤ◌, ◌-ℤ◌}
use herdr_woof.Prelude.Result.{ok}
use herdr_woof.Prelude.Bits.{trailing_zeros}
use herdr_woof.Schedule.Calendar.{Civil, unix, weekday, days_in}
use herdr_woof.Schedule.Zone.{resolve}
use herdr_woof.Schedule.Instant.{civil_of, clock, add_years, at_second, unix_of}
use herdr_woof.Schedule.Instant.Reading.{IsReading, resolve-IsReading}
use herdr_woof.Schedule.Expr.{Expr, expr_next, expr_due, search_years}
use herdr_woof.Schedule.Expr.Next.{IsNextAnswer, expr_next-IsNextAnswer}
use herdr_woof.Schedule.Examples.{new_york, new_york-IsLocation, new_york-IsSpaced, spring}

-- "30 2 * * *": half past two every day.
abbrev pub half_past_two : Expr
half_past_two = record {
  loc = new_york;
  every = 0;
  spec = record {
    minute = 1073741824;
    hour = 4;
    dom = 9223372041149743102;
    month = 9223372036854783998;
    dow = 9223372036854775935;
  };
}

-- 2026-03-07 20:00 UTC, the afternoon before the clocks go forward.
abbrev pub day_before : ℤ
day_before = pos 1772913600000000000

next_in_gap : expr_next new_york half_past_two day_before none ≡ ok (at_second spring)
unfolding expr_next at_second unix_of resolve unix ◌+ℤ◌ ◌-ℤ◌ trailing_zeros weekday days_in
next_in_gap = refl

expr_next-IsNextAnswer_example :
    IsNextAnswer half_past_two
      ((civil_of (clock new_york day_before)).y + search_years + 1)
      (add_years search_years new_york day_before)
      day_before
      (expr_next new_york half_past_two day_before none)
expr_next-IsNextAnswer_example =
    expr_next-IsNextAnswer new_york half_past_two day_before none new_york-IsLocation
      new_york-IsSpaced refl

-- The two occurrences from that afternoon to 2026-03-09 12:00 UTC, and the same with room for one.
abbrev later_noon : ℤ
later_noon = pos 1773057600000000000

abbrev second_morning : ℤ
second_morning = pos 1773037800000000000

due_two :
    expr_due new_york half_past_two day_before later_noon none 10
    ≡ ok (record {
      count = 2;
      first = some (at_second spring);
      latest = some second_morning;
      capped = false;
    })
unfolding expr_due expr_next at_second unix_of resolve unix ◌+ℤ◌ ◌-ℤ◌ trailing_zeros weekday days_in
due_two = refl

due_capped :
    expr_due new_york half_past_two day_before later_noon none 1
    ≡ ok (record {
      count = 1;
      first = some (at_second spring);
      latest = some second_morning;
      capped = true;
    })
unfolding expr_due expr_next at_second unix_of resolve unix ◌+ℤ◌ ◌-ℤ◌ trailing_zeros weekday days_in
due_capped = refl

-- Half past one exists on that morning, and half past two does not.
abbrev before_gap : Civil
before_gap = record { y = 2026; mo = 3; d = 8; h = 1; mi = 30 }

reads_before_gap : civil_of (clock new_york (at_second (resolve before_gap new_york))) ≡ before_gap
unfolding clock civil_of at_second unix_of resolve unix ◌+ℤ◌ ◌-ℤ◌
reads_before_gap = refl

resolve-IsReading_example : IsReading new_york before_gap (resolve before_gap new_york)
resolve-IsReading_example =
    resolve-IsReading before_gap new_york (omega arith) (unfold days_in in omega arith)
      new_york-IsLocation new_york-IsSpaced
