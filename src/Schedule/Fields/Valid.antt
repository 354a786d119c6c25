-- ===== src/Schedule/Fields/Valid.antt =====
-- The guarantee that the search of internal/schedule/schedule.go has of a spec from parseFields of
-- internal/schedule/parse.go: every field is a set of values of its range, and none is empty.
use herdr_woof.Prelude.{
  ℕ, ◌-◌, ◌≤◌, ◌<◌, bit_or, bit_and, ◌≡◌, refl, sym, ◌∙◌, ◌⊎◌, inl, inr, Bool, true, false, not,
  ◌&&◌, ◌||◌, List, [], ◌∷◌, All, length, arith, ◌==◌, Bool-cases, if◌then◌else◌, ap, subst,
}
use herdr_woof.Prelude.Bits.{
  test_bit, test_bit-bit_or, test_bit-bit_and, test_bit-pow, bit_and-pow_test, all_below,
  all_below-at,
}
use herdr_woof.Prelude.Word.{shl, complement, agree, agree→eq}
use herdr_woof.Prelude.Result.{ok}
use herdr_woof.Prelude.Text.{Text, split}
use herdr_woof.Schedule.Fields.{
  Bounds, minutes, hours, doms, months, dows, Spec, get_field, fold_sunday, parse_fields,
}
use herdr_woof.Schedule.Fields.Bits.{in_range}
use herdr_woof.Schedule.Fields.Items.{Interval, IsInside, any_interval, Denotes, get_field-Denotes}

-- Below the star bit the set has only values from `low` to `high`, and at least one.
pub record IsField (low high bits : ℕ) : Type 0 where
  pub within : (i : ℕ) → i < 63 → test_bit bits i ≡ true → (low ≤ i) × (i ≤ high)
  pub value : ℕ
  pub value_low : low ≤ value
  pub value_high : value ≤ high
  pub value_set : test_bit bits value ≡ true

pub record IsValidSpec (s : Spec) : Type 0 where
  pub minute_set : IsField 0 59 s.minute
  pub hour_set : IsField 0 23 s.hour
  pub dom_set : IsField 1 31 s.dom
  pub month_set : IsField 1 12 s.month
  pub dow_set : IsField 0 6 s.dow

any_interval-within :
    (r : Bounds) (vs : List Interval) (i : ℕ)
    → All (IsInside r) vs
    → any_interval vs i ≡ true
    → (r.min ≤ i) × (i ≤ r.max)
unfolding in_range
any_interval-within r [] i h k = cc
any_interval-within r (v ∷ vs) i h k = elim (Bool-cases (any_interval vs i)) [
  | inl rest ↦ any_interval-within r vs i h.1 rest
  | inr here ↦ ground arith
]

first-in_range : (v : Interval) → v.first ≤ v.last → in_range v.first v.last v.step v.first ≡ true
unfolding in_range
first-in_range v h = let e : v.first - v.first ≡ 0 = omega arith in ground arith

or_true : (a b : Bool) → a ≡ true → (a || b) ≡ true
or_true a b h = ground arith

Denotes-IsField :
    (r : Bounds) (v : Interval) (vs : List Interval) (bits : ℕ)
    → r.max < 63
    → Denotes r (v ∷ vs) bits
    → IsField r.min r.max bits
Denotes-IsField r v vs bits m d = record {
  within = λ i k h. any_interval-within r (v ∷ vs) i d.inside (sym (d.exact i k) ∙ h);
  value = v.first;
  value_low = d.inside.0.low;
  value_high = omega (arith, d.inside.0.ordered, d.inside.0.high);
  value_set =
      d.exact v.first (omega (arith, d.inside.0.ordered, d.inside.0.high))
      ∙ or_true _ _ (first-in_range v d.inside.0.ordered);
}

split-nonempty : (sep : ℕ) (s : Text) → 0 < length (split sep s)
unfolding split
split-nonempty sep [] = omega arith
split-nonempty sep (c ∷ s) = ground (arith, split-nonempty sep s)

get_field-IsField :
    (field : Text) (r : Bounds) (bits : ℕ)
    → r.max < 63
    → get_field field r ≡ ok bits
    → IsField r.min r.max bits
get_field-IsField field r bits m h =
    let (vs, n, d) = get_field-Denotes field r bits m h in go vs n d
  where
    go :
        (vs : List Interval)
        → length vs ≡ length (split b',' field)
        → Denotes r vs bits
        → IsField r.min r.max bits
    go [] n d = absurd (omega (arith, n, split-nonempty b',' field))
    go (v ∷ vs) n d = Denotes-IsField r v vs bits m d

-- The bit 7 is cleared, and the bit 0 stands in for it.
sunday_table : all_below 64 (λ i. agree (test_bit (complement (shl 1 7)) i) (not (i == 7))) ≡ true
unfolding all_below test_bit
sunday_table = refl

test_bit-sunday : (i : ℕ) → i < 64 → test_bit (complement (shl 1 7)) i ≡ not (i == 7)
test_bit-sunday i h = agree→eq _ _ (all_below-at 64 _ i sunday_table h)

test_bit-folded :
    (dow i : ℕ)
    → i < 64
    → test_bit (bit_or (bit_and dow (complement (shl 1 7))) 1) i
      ≡ ((test_bit dow i && not (i == 7)) || (i == 0))
test_bit-folded dow i h = rw (
  test_bit-bit_or i (bit_and dow (complement (shl 1 7))) 1,
  test_bit-bit_and i dow (complement (shl 1 7)),
  test_bit-sunday i h,
  test_bit-pow 0 i,
)

fold_sunday_cases :
    (dow : ℕ)
    → ((test_bit dow 7 ≡ false) × (fold_sunday dow ≡ dow))
      ⊎ ((test_bit dow 7 ≡ true)
          × (fold_sunday dow ≡ bit_or (bit_and dow (complement (shl 1 7))) 1))
unfolding fold_sunday
fold_sunday_cases dow = ground (arith, bit_and-pow_test dow 7)

fold_sunday-IsField : (dow : ℕ) → IsField 0 7 dow → IsField 0 6 (fold_sunday dow)
fold_sunday-IsField dow f = elim (fold_sunday_cases dow) [
  | inl (clear, e) ↦ rw e (record {
    within = λ i k h. ground (arith, f.within i k h);
    value = f.value;
    value_low = omega arith;
    value_high = ground (arith, f.value_high, f.value_set);
    value_set = f.value_set;
  })
  | inr (_, e) ↦ rw e (record {
    within = λ i k h. ground (arith, test_bit-folded dow i (omega (arith, k)), f.within i k);
    value = 0;
    value_low = omega arith;
    value_high = omega arith;
    value_set = ground (arith, test_bit-folded dow 0);
  })
]

-- A day set that has day 7 gets day 0 in its place; all else of it, the star too, stays as it was.
abbrev pub IsFolded : ℕ → ℕ → Type 0
IsFolded dow folded =
    (i : ℕ)
    → i < 64
    → test_bit folded i ≡ (if i == 7 then false else test_bit dow i || (i == 0 && test_bit dow 7))

fold_sunday-IsFolded : (dow : ℕ) → IsFolded dow (fold_sunday dow)
fold_sunday-IsFolded dow i h = elim (fold_sunday_cases dow) [
  | inl (clear, e) ↦ ap (λ t. test_bit t i) e ∙ kept i clear
  | inr (set, e) ↦ ap (λ t. test_bit t i) e ∙ test_bit-folded dow i h ∙ moved i set
]
  where
    kept :
        (i : ℕ)
        → test_bit dow 7 ≡ false
        → test_bit dow i ≡ (if i == 7 then false else test_bit dow i || (i == 0 && test_bit dow 7))
    kept i clear = ground arith

    moved :
        (i : ℕ)
        → test_bit dow 7 ≡ true
        → ((test_bit dow i && not (i == 7)) || (i == 0))
          ≡ (if i == 7 then false else test_bit dow i || (i == 0 && test_bit dow 7))
    moved i set = ground arith

-- The five fields that a spec was read from.
pub record IsRead (fields : List Text) (s : Spec) : Type 0 where
  pub f1 : Text
  pub f2 : Text
  pub f3 : Text
  pub f4 : Text
  pub f5 : Text
  pub shape : fields ≡ f1 ∷ f2 ∷ f3 ∷ f4 ∷ f5 ∷ []
  pub minute_read : get_field f1 minutes ≡ ok s.minute
  pub hour_read : get_field f2 hours ≡ ok s.hour
  pub dom_read : get_field f3 doms ≡ ok s.dom
  pub month_read : get_field f4 months ≡ ok s.month
  pub days : ℕ
  pub dow_read : get_field f5 dows ≡ ok days
  pub sunday : IsFolded days s.dow

parse_fields_cases :
    (f1 f2 f3 f4 f5 : Text) (s : Spec)
    → parse_fields (f1 ∷ f2 ∷ f3 ∷ f4 ∷ f5 ∷ []) ≡ ok s
    → (get_field f1 minutes ≡ ok s.minute)
      × (get_field f2 hours ≡ ok s.hour)
      × (get_field f3 doms ≡ ok s.dom)
      × (get_field f4 months ≡ ok s.month)
      × ((dow : ℕ) × (get_field f5 dows ≡ ok dow) × (s.dow ≡ fold_sunday dow))
unfolding parse_fields
parse_fields_cases f1 f2 f3 f4 f5 s h = ground arith

-- An accepted expression has five fields, and its spec has what getField reads from each of them in
-- their order; in the days of the week a 7 has become a 0, and no other bit has changed. The five
-- sets are not empty, and have minutes (0-59), hours (0-23), days of the month (1-31), months (1-12)
-- and days of the week (0-6) only.
pub parse_fields-IsValidSpec :
    (fields : List Text) (s : Spec) → parse_fields fields ≡ ok s → IsValidSpec s × IsRead fields s
parse_fields-IsValidSpec (f1 ∷ f2 ∷ f3 ∷ f4 ∷ f5 ∷ []) s h =
    let (h1, h2, h3, h4, (dow, h5, e)) = parse_fields_cases f1 f2 f3 f4 f5 s h in
    (
      record {
        minute_set = get_field-IsField f1 minutes s.minute (omega arith) h1;
        hour_set = get_field-IsField f2 hours s.hour (omega arith) h2;
        dom_set = get_field-IsField f3 doms s.dom (omega arith) h3;
        month_set = get_field-IsField f4 months s.month (omega arith) h4;
        dow_set = rw e (fold_sunday-IsField dow (get_field-IsField f5 dows dow (omega arith) h5));
      },
      record {
        f1 = f1;
        f2 = f2;
        f3 = f3;
        f4 = f4;
        f5 = f5;
        shape = refl;
        minute_read = h1;
        hour_read = h2;
        dom_read = h3;
        month_read = h4;
        days = dow;
        dow_read = h5;
        sunday = subst (IsFolded dow) (sym e) (fold_sunday-IsFolded dow);
      },
    )
parse_fields-IsValidSpec [] s h = (unfold parse_fields in cc, unfold parse_fields in cc)
parse_fields-IsValidSpec (_ ∷ []) s h = (unfold parse_fields in cc, unfold parse_fields in cc)
parse_fields-IsValidSpec (_ ∷ _ ∷ []) s h = (unfold parse_fields in cc, unfold parse_fields in cc)
parse_fields-IsValidSpec (_ ∷ _ ∷ _ ∷ []) s h =
    (unfold parse_fields in cc, unfold parse_fields in cc)
parse_fields-IsValidSpec (_ ∷ _ ∷ _ ∷ _ ∷ []) s h =
    (unfold parse_fields in cc, unfold parse_fields in cc)
parse_fields-IsValidSpec (_ ∷ _ ∷ _ ∷ _ ∷ _ ∷ _ ∷ _) s h =
    (unfold parse_fields in cc, unfold parse_fields in cc)
