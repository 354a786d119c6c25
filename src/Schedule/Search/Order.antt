-- ===== src/Schedule/Search/Order.antt =====
-- What a schedule's search in internal/schedule/schedule.go looks for, without its bit masks: the
-- civil times that match a spec, and their order.
use herdr_woof.Prelude.{
  ℕ, ◌+◌, ◌*◌, ◌≤◌, ◌<◌, bit_and, ◌≡◌, refl, ap, ◌∙◌, Bool, true, false, not, ◌&&◌, ◌||◌, arith,
  ◌==◌, if◌then◌else◌,
}
use herdr_woof.Prelude.Bits.{test_bit, bit_and-pow_test}
use herdr_woof.Prelude.Word.{shl}
use herdr_woof.Schedule.Fields.{Spec}
use herdr_woof.Schedule.Fields.Bits.{shl_one}
use herdr_woof.Schedule.Calendar.{Civil, days_in, weekday}
use herdr_woof.Schedule.Search.{day_matches, hour_key}

-- A date of the calendar with a time of day.
pub record IsCivil (c : Civil) : Type 0 where
  pub month_low : 1 ≤ c.mo
  pub month_high : c.mo ≤ 12
  pub day_low : 1 ≤ c.d
  pub day_high : c.d ≤ days_in c.y c.mo
  pub hour_high : c.h < 24
  pub minute_high : c.mi < 60

-- The day rule of cron: if a day field is unrestricted a day must match both, otherwise either.
abbrev pub day_rule : Spec → ℕ → ℕ → Bool
day_rule s d wd =
    if test_bit s.dom 63 || test_bit s.dow 63
    then test_bit s.dom d && test_bit s.dow wd
    else test_bit s.dom d || test_bit s.dow wd

pub record Matches (s : Spec) (c : Civil) : Type 0 where
  pub month_set : test_bit s.month c.mo ≡ true
  pub day_set : day_rule s c.d (weekday c.y c.mo c.d) ≡ true
  pub hour_set : test_bit s.hour c.h ≡ true
  pub minute_set : test_bit s.minute c.mi ≡ true

-- The order of civil times.
abbrev pub key : Civil → ℕ
key c = hour_key c * 60 + c.mi

pub weekday-lt : (y mo d : ℕ) → weekday y mo d < 7
unfolding weekday
weekday-lt y mo d = omega arith

pub days_in-le : (y mo : ℕ) → days_in y mo ≤ 31
unfolding days_in
days_in-le y mo = ground arith

pub mask_test : (m i : ℕ) → i < 64 → (bit_and m (shl 1 i) == 0) ≡ not (test_bit m i)
mask_test m i h = ap (λ t. bit_and m t == 0) (shl_one i h) ∙ bit_and-pow_test m i

not-not : (b : Bool) → not (not b) ≡ b
not-not true = refl
not-not false = refl

pub day_matches_lem :
    (s : Spec) (y mo d : ℕ) → d < 64 → day_matches s y mo d ≡ day_rule s d (weekday y mo d)
unfolding day_matches
day_matches_lem s y mo d h = rw (
  mask_test s.dom d h,
  mask_test s.dow (weekday y mo d) (omega (arith, weekday-lt y mo d)),
  bit_and-pow_test s.dom 63,
  bit_and-pow_test s.dow 63,
  not-not (test_bit s.dom d),
  not-not (test_bit s.dow (weekday y mo d)),
  not-not (test_bit s.dom 63),
  not-not (test_bit s.dow 63),
)
