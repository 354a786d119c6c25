-- ===== src/Schedule/Fields.antt =====
-- internal/schedule/parse.go: the five cron fields as bit sets. A text is its code points; an
-- error is named after its message, with the numbers that the message prints.
pub mod Bits
pub mod Items
pub mod Valid
use herdr_woof.Prelude.{
  ℕ, zero, suc, ◌+◌, ◌-◌, ◌*◌, ◌^◌, bit_and, bit_or, Bool, true, false, not, ◌&&◌, ◌||◌, Option,
  none, some, List, [], ◌∷◌, map, ltb, leb, ◌==◌, if◌then◌else◌, length,
}
use herdr_woof.Prelude.Word.{max_uint64, shl, complement}
use herdr_woof.Prelude.Result.{Result, ok, err, ◌>>=◌, ◌>>◌, refuse}
use herdr_woof.Prelude.Text.{Text, codes, text_eq, split, to_lower, lookup}

pub record Bounds : Type 0 where
  pub min : ℕ
  pub max : ℕ
  pub step_max : ℕ
  pub names : List (Text × ℕ)

abbrev pub minutes : Bounds
minutes = record { min = 0; max = 59; step_max = 59; names = [] }

abbrev pub hours : Bounds
hours = record { min = 0; max = 23; step_max = 23; names = [] }

abbrev pub doms : Bounds
doms = record { min = 1; max = 31; step_max = 31; names = [] }

abbrev pub months : Bounds
months = record {
  min = 1;
  max = 12;
  step_max = 12;
  names =
      (codes "jan", 1)
      ∷ (codes "feb", 2)
      ∷ (codes "mar", 3)
      ∷ (codes "apr", 4)
      ∷ (codes "may", 5)
      ∷ (codes "jun", 6)
      ∷ (codes "jul", 7)
      ∷ (codes "aug", 8)
      ∷ (codes "sep", 9)
      ∷ (codes "oct", 10)
      ∷ (codes "nov", 11)
      ∷ (codes "dec", 12)
      ∷ [];
}

abbrev pub dows : Bounds
dows = record {
  min = 0;
  max = 7;
  step_max = 6;
  names =
      (codes "sun", 0)
      ∷ (codes "mon", 1)
      ∷ (codes "tue", 2)
      ∷ (codes "wed", 3)
      ∷ (codes "thu", 4)
      ∷ (codes "fri", 5)
      ∷ (codes "sat", 6)
      ∷ [];
}

abbrev pub star_bit : ℕ
star_bit = 2 ^ 63

pub record Spec : Type 0 where
  pub minute : ℕ
  pub hour : ℕ
  pub dom : ℕ
  pub month : ℕ
  pub dow : ℕ

pub data FieldError : Type 0 where
  field_count : ℕ → FieldError
  empty_item : FieldError
  too_many_slashes too_many_hyphens wildcard_range : FieldError
  beyond_end below_minimum above_maximum : ℕ → ℕ → FieldError
  zero_step : FieldError
  invalid_number : FieldError

abbrev pub Parsed : Type 0 → Type 0
Parsed A = Result FieldError A

-- The loop `for i := min; i <= max; i += step { bits |= 1 << i }`.
unfoldable pub get_bits_loop : ℕ → ℕ → ℕ → ℕ → ℕ → ℕ
get_bits_loop zero i max step bits = bits
get_bits_loop (suc fuel) i max step bits =
    let rest = get_bits_loop fuel (i + step) max step (bit_or bits (shl 1 i)) in
    if leb i max then rest else bits

unfoldable pub get_bits : ℕ → ℕ → ℕ → ℕ
get_bits min max step =
    if step == 1
    then bit_and (complement (shl max_uint64 (max + 1))) (shl max_uint64 min)
    else get_bits_loop (suc max) min max step 0

unfoldable pub is_digit : ℕ → Bool
is_digit c = leb b'0' c && leb c b'9'

unfoldable pub all_digits : Text → Bool
unfolding is_digit
all_digits [] = true
all_digits (c ∷ s) = is_digit c && all_digits s

-- The value of decimal digits after `n`.
unfoldable pub decimal : ℕ → Text → ℕ
decimal n [] = n
decimal n (c ∷ s) = decimal (n * 10 + (c - b'0')) s

-- `strconv.ParseUint(expr, 10, 16)` refuses what does not fit 16 bits.
unfoldable pub parse_uint : Text → Parsed ℕ
unfolding all_digits decimal
parse_uint [] = err invalid_number
parse_uint (c ∷ s) =
    let expr = c ∷ s in
    if all_digits expr && ltb (decimal 0 expr) 65536
    then ok (decimal 0 expr)
    else err invalid_number

abbrev number_or : Option ℕ → Text → Parsed ℕ
number_or (some n) expr = ok n
number_or none expr = parse_uint expr

unfoldable pub parse_int_or_name : Text → List (Text × ℕ) → Parsed ℕ
parse_int_or_name expr names = number_or (lookup (map to_lower expr) names) expr

-- `start`, `end` and `extra` of getRange.
pub record Range : Type 0 where
  pub start : ℕ
  pub stop : ℕ
  pub extra : ℕ

abbrev is_wildcard : Text → Bool
is_wildcard s = text_eq s (codes "*") || text_eq s (codes "?")

-- The part before the slash, split at its hyphens.
unfoldable pub get_ends : List Text → Bounds → Parsed Range
get_ends [] r = err invalid_number
get_ends (low ∷ []) r =
    if is_wildcard low
    then ok (record { start = r.min; stop = r.step_max; extra = star_bit })
    else (do
      start ← parse_int_or_name low r.names
      ok (record { start = start; stop = start; extra = 0 }))
get_ends (low ∷ high ∷ []) r = if is_wildcard low then err wildcard_range else (do
  start ← parse_int_or_name low r.names
  stop ← parse_int_or_name high r.names
  ok (record { start = start; stop = stop; extra = 0 }))
get_ends (_ ∷ _ ∷ _ ∷ _) r = err too_many_hyphens

-- The step after the slash: a lone number runs on to the field's maximum, and a step above 1
-- takes the star bit away.
unfoldable pub with_step : Bool → Bounds → Range → ℕ → Parsed Range
with_step lone r w step =
    let stop = if lone && w.extra == 0 then r.step_max else w.stop in
    if (lone && w.extra == 0) && ltb r.step_max w.start
    then err (beyond_end w.start r.step_max)
    else ok (record { start = w.start; stop = stop; extra = if ltb 1 step then 0 else w.extra })

-- The checks at the end of getRange, and its result.
unfoldable pub close_range : Bounds → Range → ℕ → Parsed ℕ
close_range r w step = do
  refuse (ltb w.start r.min) (below_minimum w.start r.min)
  refuse (ltb r.max w.stop) (above_maximum w.stop r.max)
  refuse (ltb w.stop w.start) (beyond_end w.start w.stop)
  refuse (step == 0) zero_step
  ok (bit_or (get_bits w.start w.stop step) w.extra)

abbrev is_lone : List Text → Bool
is_lone (_ ∷ []) = true
is_lone _ = false

unfoldable pub get_range_parts : List Text → Bounds → Parsed ℕ
get_range_parts [] r = err invalid_number
get_range_parts (ends ∷ []) r = do w ← get_ends (split b'-' ends) r; close_range r w 1
get_range_parts (ends ∷ step_text ∷ []) r = do
  w ← get_ends (split b'-' ends) r
  step ← parse_uint step_text
  w' ← with_step (is_lone (split b'-' ends)) r w step
  close_range r w' step
get_range_parts (_ ∷ _ ∷ _ ∷ _) r = err too_many_slashes

unfoldable pub get_range : Text → Bounds → Parsed ℕ
get_range expr r = get_range_parts (split b'/' expr) r

-- The loop of getField over the items, with the bits found so far.
unfoldable pub get_items : ℕ → List Text → Bounds → Parsed ℕ
get_items bits [] r = ok bits
get_items bits ([] ∷ items) r = err empty_item
get_items bits ((c ∷ s) ∷ items) r = do
  bit ← get_range (c ∷ s) r
  get_items (bit_or bits bit) items r

unfoldable pub get_field : Text → Bounds → Parsed ℕ
get_field field r = get_items 0 (split b',' field) r

-- Day-of-week 7 is Sunday once more.
unfoldable pub fold_sunday : ℕ → ℕ
fold_sunday dow =
    if bit_and dow (shl 1 7) == 0 then dow else bit_or (bit_and dow (complement (shl 1 7))) 1

unfoldable pub parse_fields : List Text → Parsed Spec
parse_fields (f1 ∷ f2 ∷ f3 ∷ f4 ∷ f5 ∷ []) = do
  minute ← get_field f1 minutes
  hour ← get_field f2 hours
  dom ← get_field f3 doms
  month ← get_field f4 months
  dow ← get_field f5 dows
  ok (record { minute = minute; hour = hour; dom = dom; month = month; dow = fold_sunday dow })
parse_fields fields = err (field_count (length fields))

-- all in parse.go: every value of the field, with the star bit.
unfoldable pub all : Bounds → ℕ
unfolding get_bits
all r = bit_or (get_bits r.min r.step_max 1) star_bit

unfoldable pub descriptors : List (Text × Spec)
unfolding all
descriptors =
    (
      codes "@yearly",
      record { minute = 1; hour = 1; dom = shl 1 1; month = shl 1 1; dow = all dows },
    )
    ∷ (
      codes "@annually",
      record { minute = 1; hour = 1; dom = shl 1 1; month = shl 1 1; dow = all dows },
    )
    ∷ (
      codes "@monthly",
      record { minute = 1; hour = 1; dom = shl 1 1; month = all months; dow = all dows },
    )
    ∷ (
      codes "@weekly",
      record { minute = 1; hour = 1; dom = all doms; month = all months; dow = 1 },
    )
    ∷ (
      codes "@daily",
      record { minute = 1; hour = 1; dom = all doms; month = all months; dow = all dows },
    )
    ∷ (
      codes "@midnight",
      record { minute = 1; hour = 1; dom = all doms; month = all months; dow = all dows },
    )
    ∷ (
      codes "@hourly",
      record { minute = 1; hour = all hours; dom = all doms; month = all months; dow = all dows },
    )
    ∷ []
