-- ===== src/Schedule/Instant/RoundTrip.antt =====
-- The civil time of a wall clock, against the seconds of a civil time: the two are inverse to each
-- other up to the seconds within a minute, and keep the order.
use herdr_woof.Prelude.{
  ℕ, zero, suc, ◌+◌, ◌-◌, ◌*◌, ◌/◌, ◌≤◌, ◌<◌, ◌≡◌, inl, inr, true, false, ltb, ltb→lt, arith, sym,
  subst, if◌then◌else◌, Bool-cases, lt-or-le_ℕ,
}
use native.Mathlib.Numerals.{unary_clauses}
use herdr_woof.Schedule.Calendar.{
  Civil, is_leap, days_in, days_before, days_to_year, day_number, seconds,
}
use herdr_woof.Schedule.Search.Order.{IsCivil, key, days_in-le}
use herdr_woof.Schedule.Instant.{year_loop, year_of, month_loop, month_of, civil_at, civil_of}

year_length : ℕ → ℕ
unfolding is_leap
year_length y = if is_leap y then 366 else 365

year_step : (y : ℕ) → 1 ≤ y → days_to_year (y + 1) ≡ days_to_year y + year_length y
unfolding days_to_year year_length is_leap
year_step y p = ground arith

months_length : (y : ℕ) → days_before y 13 ≡ year_length y
unfolding days_before days_in year_length is_leap
months_length y = ground arith

year_at_least : (y : ℕ) → 1 ≤ y → days_to_year y + 365 ≤ days_to_year (y + 1)
unfolding year_length
year_at_least y p = ground (arith, year_step y)

year_at_most : (k : ℕ) → days_to_year (k + 1) ≤ k * 366
unfolding days_to_year
year_at_most k = omega arith

-- `y` is the year that holds the day `n`.
record HoldsDay (n y : ℕ) : Type 0 where
  from_one : 1 ≤ y
  begun : days_to_year y ≤ n
  not_over : n < days_to_year (y + 1)

year_loop_here : (fuel y n : ℕ) → ltb n (days_to_year (y + 1)) ≡ true → year_loop (suc fuel) y n ≡ y
unfolding year_loop
year_loop_here fuel y n h = rw (h, year_loop)

year_loop_later :
    (fuel y n : ℕ)
    → ltb n (days_to_year (y + 1)) ≡ false
    → year_loop (suc fuel) y n ≡ year_loop fuel (y + 1) n
unfolding year_loop
year_loop_later fuel y n h = rw (h, year_loop)

year_loop-HoldsDay :
    (fuel y n : ℕ)
    → 1 ≤ y
    → days_to_year y ≤ n
    → n < days_to_year y + 365 * fuel
    → HoldsDay n (year_loop fuel y n)
year_loop-HoldsDay zero y n p h k = absurd (omega arith)
year_loop-HoldsDay (suc fuel) y n p h k = elim (Bool-cases (ltb n (days_to_year (y + 1)))) [
  | inl here ↦
      subst (HoldsDay n) (sym (year_loop_here fuel y n here))
        (record { from_one = p; begun = h; not_over = ltb→lt _ _ here })
  | inr later ↦
      let past : days_to_year (y + 1) ≤ n = ground arith in
      subst (HoldsDay n) (sym (year_loop_later fuel y n later))
        (year_loop-HoldsDay fuel (y + 1) n (omega arith) past (omega (arith, year_at_least y p)))
]

year_of-HoldsDay : (n : ℕ) → HoldsDay n (year_of n)
unfolding year_of
year_of-HoldsDay n =
    let low : days_to_year (n / 366 + 1) ≤ n = omega (arith, year_at_most (n / 366)) in
    year_loop-HoldsDay (suc n) (n / 366 + 1) n (omega arith) low (omega arith)

-- `mo` is the month that holds the day `yd` of the year.
record HoldsDayOfYear (y yd mo : ℕ) : Type 0 where
  month_low : 1 ≤ mo
  month_high : mo ≤ 12
  begun : days_before y mo ≤ yd
  not_over : yd < days_before y (mo + 1)

month_loop_here :
    (left y mo yd : ℕ) → ltb yd (days_before y (mo + 1)) ≡ true → month_loop (suc left) y mo yd ≡ mo
unfolding month_loop
month_loop_here left y mo yd h = rw (h, month_loop)

month_loop_later :
    (left y mo yd : ℕ)
    → ltb yd (days_before y (mo + 1)) ≡ false
    → month_loop (suc left) y mo yd ≡ month_loop left y (mo + 1) yd
unfolding month_loop
month_loop_later left y mo yd h = rw (h, month_loop)

month_loop-HoldsDayOfYear :
    (left y mo yd : ℕ)
    → mo + left ≡ 12
    → 1 ≤ mo
    → days_before y mo ≤ yd
    → yd < days_before y 13
    → HoldsDayOfYear y yd (month_loop left y mo yd)
unfolding month_loop
month_loop-HoldsDayOfYear zero y mo yd e p h k =
    let twelve : 12 ≡ mo = omega arith in
    subst (HoldsDayOfYear y yd) twelve (record {
      month_low = omega arith;
      month_high = omega arith;
      begun = subst (λ m. days_before y m ≤ yd) (sym twelve) h;
      not_over = k;
    })
month_loop-HoldsDayOfYear (suc left) y mo yd e p h k =
    elim (Bool-cases (ltb yd (days_before y (mo + 1)))) [
      | inl here ↦ subst (HoldsDayOfYear y yd) (sym (month_loop_here left y mo yd here)) (record {
        month_low = p;
        month_high = omega arith;
        begun = h;
        not_over = ltb→lt _ _ here;
      })
      | inr later ↦
          let past : days_before y (mo + 1) ≤ yd = ground arith in
          subst (HoldsDayOfYear y yd) (sym (month_loop_later left y mo yd later))
            (month_loop-HoldsDayOfYear left y (mo + 1) yd (omega arith) (omega arith) past k)
    ]

month_step : (y mo : ℕ) → 1 ≤ mo → days_before y (mo + 1) ≡ days_before y mo + days_in y mo
unfolding days_before
month_step y zero p = absurd (omega arith)
month_step y (suc mo) p = simp unary_clauses

-- The civil time of a clock, and the clock of a civil time.
pub record IsCivilOf (s : ℕ) (c : Civil) : Type 0 where
  pub from_one : 1 ≤ c.y
  pub civil : IsCivil c
  pub to_minute : seconds c ≡ s / 60 * 60

civil_at-IsCivilOf :
    (y mo s : ℕ)
    → HoldsDay (s / 86400) y
    → HoldsDayOfYear y (s / 86400 - days_to_year y) mo
    → IsCivilOf s (civil_at y (s / 86400 - days_to_year y) mo s)
unfolding seconds day_number
civil_at-IsCivilOf y mo s h m =
    let step = month_step y mo m.month_low in
    record {
      from_one = h.from_one;
      civil = record {
        month_low = m.month_low;
        month_high = m.month_high;
        day_low = omega arith;
        day_high = omega (arith, step, m.begun, m.not_over);
        hour_high = omega arith;
        minute_high = omega arith;
      };
      to_minute = omega (arith, h.begun, m.begun);
    }

first_month : (y n : ℕ) → days_before y 1 ≤ n
unfolding days_before
first_month y n = omega arith

day_of_year-lt : (n y : ℕ) → HoldsDay n y → n - days_to_year y < days_before y 13
unfolding year_length
day_of_year-lt n y h =
    ground (arith, h.begun, h.not_over, h.from_one, year_step y h.from_one, months_length y)

-- A wall clock reads a time of the calendar, whose seconds are those of the clock without the ones
-- after the full minute.
pub civil_of-IsCivilOf : (s : ℕ) → IsCivilOf s (civil_of s)
unfolding civil_of month_of
civil_of-IsCivilOf s =
    let y = year_of (s / 86400) in
    let h : HoldsDay (s / 86400) y = year_of-HoldsDay (s / 86400) in
    let yd = s / 86400 - days_to_year y in
    let m : HoldsDayOfYear y yd (month_loop 11 y 1 yd) =
      month_loop-HoldsDayOfYear 11 y 1 yd (omega arith) (omega arith) (first_month y yd)
        (day_of_year-lt (s / 86400) y h) in
    civil_at-IsCivilOf y (month_loop 11 y 1 yd) s h m

years_mono : (y z : ℕ) → y ≤ z → days_to_year y ≤ days_to_year z
unfolding days_to_year
years_mono y z h = omega arith

months_mono :
    (y mo mo' : ℕ) → 1 ≤ mo → mo < mo' → days_before y mo + days_in y mo ≤ days_before y mo'
months_mono y mo zero p h = absurd (omega arith)
months_mono y mo (suc k) p h = elim (lt-or-le_ℕ mo k) [
  | inl before ↦
      let one_more : k + 1 ≡ suc k = omega arith in
      subst (λ m. days_before y mo + days_in y mo ≤ days_before y m) one_more
        (omega (arith, months_mono y mo k p before, month_step y k (omega arith)))
  | inr at_end ↦
      let last : mo + 1 ≡ suc k = omega arith in
      subst (λ m. days_before y mo + days_in y mo ≤ days_before y m) last
        (omega (arith, month_step y mo p))
]

year_before-lt :
    (a b : Civil)
    → 1 ≤ a.y
    → IsCivil a
    → a.y < b.y
    → day_number a.y a.mo a.d + 1 ≤ day_number b.y b.mo b.d
unfolding day_number year_length
year_before-lt a b p v h =
    let whole = months_mono a.y a.mo 13 v.month_low (omega (arith, v.month_high)) in
    let later = years_mono (a.y + 1) b.y (omega arith) in
    ground (arith, whole, later, v.day_low, v.day_high, year_step a.y p, months_length a.y)

month_before-lt :
    (a b : Civil)
    → IsCivil a
    → a.y ≡ b.y
    → a.mo < b.mo
    → day_number a.y a.mo a.d + 1 ≤ day_number b.y b.mo b.d
unfolding day_number
month_before-lt a b v e h =
    subst (λ y. day_number a.y a.mo a.d + 1 ≤ day_number y b.mo b.d) e
      (omega (arith, months_mono a.y a.mo b.mo v.month_low h, v.day_low, v.day_high))

within_month-le :
    (a b : Civil)
    → a.y ≡ b.y
    → a.mo ≡ b.mo
    → day_number b.y b.mo b.d + (a.d - 1) ≡ day_number a.y a.mo a.d + (b.d - 1)
unfolding day_number
within_month-le a b e f =
    subst (λ y. day_number y b.mo b.d + (a.d - 1) ≡ day_number a.y a.mo a.d + (b.d - 1)) e
      (subst (λ m. day_number a.y m b.d + (a.d - 1) ≡ day_number a.y a.mo a.d + (b.d - 1)) f
        (omega arith))

same_year :
    (a b : Civil)
    → IsCivil a
    → IsCivil b
    → key a ≤ key b
    → b.y ≤ a.y
    → (a.y ≡ b.y)
      × ((a.mo * 33 + a.d) * 1440 + a.h * 60 + a.mi ≤ (b.mo * 33 + b.d) * 1440 + b.h * 60 + b.mi)
same_year a b va vb h k =
    let x = days_in-le a.y a.mo in
    let z = days_in-le b.y b.mo in (omega (arith, x, z), omega (arith, x, z))

same_month :
    (a b : Civil) → IsCivil a → IsCivil b → key a ≤ key b → a.y ≡ b.y → b.mo ≤ a.mo → a.mo ≡ b.mo
same_month a b va vb h e k = omega (arith, days_in-le a.y a.mo, days_in-le b.y b.mo)

-- The order of civil times is that of their seconds; with 1 for `j` it is the strict order.
pub seconds_mono :
    (j : ℕ) (a b : Civil)
    → j ≤ 1
    → 1 ≤ a.y
    → IsCivil a
    → IsCivil b
    → key a + j ≤ key b
    → seconds a + j ≤ seconds b
unfolding seconds
seconds_mono j a b q p va vb h = elim (lt-or-le_ℕ a.y b.y) [
  | inl year_before ↦
      omega (arith, year_before-lt a b p va year_before, va.hour_high, va.minute_high)
  | inr year_same ↦
      let (e, k) = same_year a b va vb (omega arith) year_same in
      elim (lt-or-le_ℕ a.mo b.mo) [
        | inl month_before ↦
            omega (arith, month_before-lt a b va e month_before, va.hour_high, va.minute_high)
        | inr month_same ↦
            let f = same_month a b va vb (omega arith) e month_same in
            omega (
              arith,
              e,
              f,
              within_month-le a b e f,
              va.day_low,
              vb.day_low,
              va.hour_high,
              va.minute_high,
            )
      ]
]

key-inj : (a b : Civil) → IsCivil a → IsCivil b → key a ≡ key b → a ≡ b
key-inj a b va vb h =
    let x = days_in-le a.y a.mo in
    let z = days_in-le b.y b.mo in
    let y : a.y ≡ b.y = omega (arith, x, z) in
    let mo : a.mo ≡ b.mo = omega (arith, x, z) in
    let d : a.d ≡ b.d = omega (arith, x, z) in
    let hour : a.h ≡ b.h = omega (arith, x, z) in
    let mi : a.mi ≡ b.mi = omega (arith, x, z) in
    λ i. record { y = y i; mo = mo i; d = d i; h = hour i; mi = mi i }

-- A wall clock at the start of the minute of a civil time reads that time.
pub civil_of-seconds : (c : Civil) → 1 ≤ c.y → IsCivil c → civil_of (seconds c) ≡ c
unfolding seconds
civil_of-seconds c p v =
    let o = civil_of-IsCivilOf (seconds c) in
    let c' = civil_of (seconds c) in
    let e : seconds c' ≡ seconds c = omega (arith, o.to_minute) in
    key-inj c' c o.civil v (elim (lt-or-le_ℕ (key c') (key c)) [
      | inl less ↦
          absurd
            (omega (arith, e, seconds_mono 1 c' c (omega arith) o.from_one o.civil v (omega arith)))
      | inr more ↦ elim (lt-or-le_ℕ (key c) (key c')) [
        | inl less ↦
            absurd (omega (arith, e, seconds_mono 1 c c' (omega arith) p v o.civil (omega arith)))
        | inr less ↦ omega arith
      ]
    ])
