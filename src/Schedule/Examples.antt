-- ===== src/Schedule/Examples.antt =====
-- Concrete schedules: tests of internal/schedule and the theorems at these inputs.
mod Expressions
use mathlib.Core.Path.{subst}
use herdr_woof.Prelude.{
  All, ℕ, ◌≡◌, refl, true, false, none, some, List, [], ◌∷◌, length, arith, if◌then◌else◌,
  Bool-cases, sym, inl, inr,
}
use herdr_woof.Prelude.Int.{ℤ, pos, negsuc, ◌+ℤ◌, ◌-ℤ◌, ltb_ℤ, ltb_ℤ→lt}
use herdr_woof.Prelude.Bits.{test_bit, trailing_zeros}
use herdr_woof.Prelude.Result.{ok, err}
use herdr_woof.Prelude.Text.{Text, codes, split, to_lower, lookup, text_eq}
use herdr_woof.Schedule.Fields.{
  Spec, minutes, get_bits, get_field, parse_fields, beyond_end, parse_uint, parse_int_or_name,
  get_ends, get_range_parts, get_range, get_items, with_step, close_range, get_bits_loop,
  fold_sunday,
}
use herdr_woof.Schedule.Fields.Bits.{in_range, get_bits_lem}
use herdr_woof.Schedule.Fields.Items.{IsItem, any_item, get_field_lem}
use herdr_woof.Schedule.Fields.Valid.{IsValidSpec, IsRead, parse_fields-IsValidSpec}
use herdr_woof.Schedule.Calendar.{Civil, unix, weekday, days_in}
use herdr_woof.Schedule.Search.{found, next}
use herdr_woof.Schedule.Search.Next.{IsAnswer, next-IsAnswer}
use herdr_woof.Schedule.Zone.{Location, Period, IsLocation, resolve, InPeriod}
use herdr_woof.Schedule.Zone.Resolve.{IsEarliest, IsSpaced, resolve-IsEarliest}
use herdr_woof.Schedule.Every.{next_every, due_every, Due}
use herdr_woof.Schedule.Every.Occurrences.{
  IsNextOccurrence, next_every-IsNextOccurrence, next_every_total,
}
use herdr_woof.Schedule.Every.Windows.{IsDueReport, due_every-IsDueReport}

get_bits_lem_example : test_bit (get_bits 0 59 15) 45 ≡ in_range 0 59 15 45
get_bits_lem_example =
    get_bits_lem 0 59 15 45 (omega arith) (omega arith) (omega arith) (omega arith)

-- "0,30 9-17/4 */2 jan MON-fri": both day fields are restricted, so that either may match.
abbrev office : List Text
office = codes "0,30" ∷ codes "9-17/4" ∷ codes "*/2" ∷ codes "jan" ∷ codes "MON-fri" ∷ []

abbrev pub office_spec : Spec
office_spec = record { minute = 1073741825; hour = 139776; dom = 2863311530; month = 2; dow = 62 }

-- What a test of the parser computes with.
parser : Unit {0}
unfolding parse_fields get_field get_items get_range get_range_parts get_ends with_step close_range
    get_bits get_bits_loop parse_uint parse_int_or_name fold_sunday split to_lower lookup text_eq
parser = tt

office_parsed : parse_fields office ≡ ok office_spec
unfolding parser
office_parsed = refl

swapped_range :
    parse_fields (codes "30-10" ∷ codes "*" ∷ codes "*" ∷ codes "*" ∷ codes "*" ∷ [])
    ≡ err (beyond_end 30 10)
unfolding parser
swapped_range = refl

parse_fields-IsValidSpec_example : IsValidSpec office_spec × IsRead office office_spec
parse_fields-IsValidSpec_example = parse_fields-IsValidSpec office office_spec office_parsed

half_hours : get_field (codes "0,30") minutes ≡ ok 1073741825
unfolding parser
half_hours = refl

get_field_lem_example :
    All (IsItem minutes) (split b',' (codes "0,30"))
    × ((i : ℕ) → test_bit 1073741825 i ≡ any_item minutes (split b',' (codes "0,30")) i)
get_field_lem_example = get_field_lem (codes "0,30") minutes 1073741825 (omega arith) half_hours

-- The evening of Friday 30 January 2026.
abbrev friday_evening : Civil
friday_evening = record { y = 2026; mo = 1; d = 30; h = 17; mi = 31 }

-- The 31st is an odd day: day-of-month */2 has the star bit off, so that either day field serves.
next_office :
    next office_spec friday_evening 2031
    ≡ found (record { y = 2026; mo = 1; d = 31; h = 9; mi = 0 })
unfolding next trailing_zeros weekday days_in
next_office = refl

next-IsAnswer_example :
    IsAnswer office_spec friday_evening 2031 (next office_spec friday_evening 2031)
next-IsAnswer_example = next-IsAnswer office_spec friday_evening 2031 (omega arith)

-- A zone that goes from UTC-5 to UTC-4 at 2026-03-08 07:00 UTC.
abbrev pub spring : ℤ
spring = pos 1772953200

abbrev pub new_york : Location
new_york t =
    if ltb_ℤ t spring
    then record { off = negsuc 17999; start = none; stop = some spring }
    else record { off = negsuc 14399; start = some spring; stop = none }

new_york_early :
    (t : ℤ)
    → ltb_ℤ t spring ≡ true
    → new_york t ≡ record { off = negsuc 17999; start = none; stop = some spring }
new_york_early t h = rw h

new_york_late :
    (t : ℤ)
    → ltb_ℤ t spring ≡ false
    → new_york t ≡ record { off = negsuc 14399; start = some spring; stop = none }
new_york_late t h = rw h

pub new_york-IsLocation : IsLocation new_york
new_york-IsLocation = record {
  inside = λ t. elim (Bool-cases (ltb_ℤ t spring)) [
    | inl h ↦
        subst (λ p. InPeriod (Period.stop p) t) (sym (new_york_early t h)) (ltb_ℤ→lt t spring h)
    | inr h ↦ subst (λ p. InPeriod (Period.stop p) t) (sym (new_york_late t h)) tt
  ];
  constant = λ t u h k. ground arith;
  off_high = λ t. ground arith;
  off_low = λ t. unfold ◌+ℤ◌ in ground arith;
}

pub new_york-IsSpaced : IsSpaced new_york
new_york-IsSpaced = record { spaced = λ t e e' h k. ground arith }

-- 02:30 on that morning does not exist; the answer is the end of the gap.
abbrev pub in_gap : Civil
in_gap = record { y = 2026; mo = 3; d = 8; h = 2; mi = 30 }

resolve_gap : resolve in_gap new_york ≡ spring
unfolding resolve unix ◌+ℤ◌ ◌-ℤ◌
resolve_gap = refl

resolve-IsEarliest_example : IsEarliest new_york (unix in_gap) (resolve in_gap new_york)
resolve-IsEarliest_example =
    resolve-IsEarliest in_gap new_york new_york-IsLocation new_york-IsSpaced

next_every_third : next_every 3 (pos 10) (some (pos 4)) ≡ ok (pos 13)
unfolding next_every ◌+ℤ◌ ◌-ℤ◌
next_every_third = refl

next_every-IsNextOccurrence_example : IsNextOccurrence 3 (pos 4) (pos 10) (pos 13)
next_every-IsNextOccurrence_example =
    next_every-IsNextOccurrence 3 (pos 4) (pos 10) (pos 13) (omega arith) next_every_third

next_every_total_example : (t : ℤ) × (next_every 3 (pos 10) (some (pos 4)) ≡ ok t)
unfolding ◌-ℤ◌
next_every_total_example = next_every_total 3 (pos 4) (pos 10) (omega arith) (omega arith)

abbrev two_of_four : Due
two_of_four = record { count = 2; first = some (pos 7); latest = some (pos 16); capped = true }

due_thirds : due_every 3 (pos 5) (pos 17) (some (pos 4)) 2 ≡ ok two_of_four
unfolding due_every ◌+ℤ◌ ◌-ℤ◌
due_thirds = refl

due_every-IsDueReport_example : IsDueReport 3 (pos 4) (pos 5) (pos 17) 2 two_of_four
due_every-IsDueReport_example =
    due_every-IsDueReport 3 (pos 5) (pos 17) (pos 4) 2 two_of_four (omega arith) due_thirds
