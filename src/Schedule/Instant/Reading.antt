-- ===== src/Schedule/Instant/Reading.antt =====
-- What a wall clock of the zone reads at the instant that resolve of internal/schedule/schedule.go
-- gives for a civil time.
use herdr_woof.Prelude.{ℕ, ◌*◌, ◌%◌, ◌≤◌, ◌≡◌, ◌⊎◌, inl, inr, ◌∙◌, ap, arith}
use herdr_woof.Prelude.Int.{ℤ, pos, ◌+ℤ◌, ◌-ℤ◌, ◌≤ℤ◌, ◌<ℤ◌, pos_part, int_laws, lt-or-le}
use herdr_woof.Schedule.Calendar.{Civil, seconds, unix, epoch_days}
use herdr_woof.Schedule.Search.Order.{IsCivil}
use herdr_woof.Schedule.Zone.{Location, wall, IsLocation, resolve}
use herdr_woof.Schedule.Zone.Resolve.{IsEarliest, IsSpaced, resolve-IsEarliest}
use herdr_woof.Schedule.Instant.{unix_of, at_second, civil_of, clock}
use herdr_woof.Schedule.Instant.RoundTrip.{civil_of-seconds}

unix_of-at_second : (t : ℤ) → unix_of (at_second t) ≡ t
unfolding unix_of at_second
unix_of-at_second t = ground arith

-- The seconds of the year 1 that a Unix second stands for.
since_year_one : (c : Civil) → pos_part (unix c +ℤ pos (epoch_days * 86400)) ≡ seconds c
unfolding unix ◌+ℤ◌
since_year_one c = ground arith

clock_at :
    (loc : Location) (c : Civil) (r : ℤ) → wall loc r ≡ unix c → clock loc (at_second r) ≡ seconds c
unfolding clock
clock_at loc c r h =
    ap (λ t. pos_part (wall loc t +ℤ pos (epoch_days * 86400))) (unix_of-at_second r)
    ∙ ap (λ u. pos_part (u +ℤ pos (epoch_days * 86400))) h
    ∙ since_year_one c

full_minute : (c : Civil) → seconds c % 60 ≡ 0
unfolding seconds
full_minute c = omega arith

-- The clock reads the civil time and no second more, or it skips the civil time: it is before it one
-- second earlier, and past it now.
abbrev pub IsReading : Location → Civil → ℤ → Type 0
IsReading loc c r =
    ((civil_of (clock loc (at_second r)) ≡ c) × (clock loc (at_second r) % 60 ≡ 0))
    ⊎ ((wall loc (r -ℤ pos 1) <ℤ unix c) × (unix c <ℤ wall loc r))

second_before : (r : ℤ) → r -ℤ pos 1 <ℤ r
second_before r = omega int_laws

same_of_le : (a b : ℤ) → a ≤ℤ b → b ≤ℤ a → a ≡ b
same_of_le a b h k = omega int_laws

-- In a zone that keeps its offsets for three hours or more: at the instant that a time of the
-- calendar resolves to, the wall clock reads that time, at the start of the minute; or the time does
-- not exist there, and it is the instant at which a transition leads over it.
pub resolve-IsReading :
    (c : Civil) (loc : Location)
    → 1 ≤ c.y
    → IsCivil c
    → IsLocation loc
    → IsSpaced loc
    → IsReading loc c (resolve c loc)
resolve-IsReading c loc p v l sp =
    let r = resolve c loc in
    let e : IsEarliest loc (unix c) r = resolve-IsEarliest c loc l sp in
    elim (lt-or-le (unix c) (wall loc r)) [
      | inl past ↦ inr (e.earliest (r -ℤ pos 1) (second_before r), past)
      | inr low ↦
          let reads : clock loc (at_second r) ≡ seconds c =
            clock_at loc c r (same_of_le (wall loc r) (unix c) low e.reached) in
          inl (
            ap civil_of reads ∙ civil_of-seconds c p v,
            ap {A = ℕ} (λ s. s % 60) reads ∙ full_minute c,
          )
    ]
