-- ===== src/Schedule/Fields/Items.antt =====
-- What getRange, getField and parseFields of internal/schedule/parse.go accept: the set that the
-- bits of an accepted field denote.
use herdr_woof.Prelude.{
  ℕ, ◌+◌, ◌≤◌, ◌<◌, bit_or, ◌≡◌, refl, ap, ◌∙◌, ◌⊎◌, inl, inr, Bool, false, ◌||◌, List, [], ◌∷◌,
  ◌++◌, All, length, length-append, arith,
}
use herdr_woof.Prelude.Bits.{test_bit, test_bit-bit_or, test_bit-pow, test_bit-none}
use herdr_woof.Prelude.Result.{ok, err, ok_steps}
use herdr_woof.Prelude.Text.{Text, split}
use herdr_woof.Schedule.Fields.{
  Bounds, star_bit, Range, get_bits, parse_uint, get_ends, with_step, close_range, get_range_parts,
  get_range, get_items, get_field,
}
use herdr_woof.Schedule.Fields.Bits.{in_range, get_bits_lem}

-- One item of a field: the values `first`, `first + step`, … up to `last`.
pub record Interval : Type 0 where
  pub first : ℕ
  pub last : ℕ
  pub step : ℕ

pub record IsInside (r : Bounds) (v : Interval) : Type 0 where
  pub low : r.min ≤ v.first
  pub ordered : v.first ≤ v.last
  pub high : v.last ≤ r.max
  pub moving : 0 < v.step

abbrev pub any_interval : List Interval → ℕ → Bool
any_interval [] i = false
any_interval (v ∷ vs) i = in_range v.first v.last v.step i || any_interval vs i

-- The bits below the star bit are those of a union of items that lie inside the field's bounds.
pub record Denotes (r : Bounds) (vs : List Interval) (bits : ℕ) : Type 0 where
  pub inside : All (IsInside r) vs
  pub exact : (i : ℕ) → i < 63 → test_bit bits i ≡ any_interval vs i

abbrev IsStar : ℕ → Type 0
IsStar extra = (extra ≡ 0) ⊎ (extra ≡ star_bit)

test_bit-IsStar : (extra i : ℕ) → IsStar extra → i < 63 → test_bit extra i ≡ false
test_bit-IsStar extra i (inl e) h = ap (λ t. test_bit t i) e ∙ test_bit-none i
test_bit-IsStar extra i (inr e) h = ap (λ t. test_bit t i) e ∙ test_bit-pow 63 i ∙ ground arith

get_ends-IsStar :
    (parts : List Text) (r : Bounds) (w : Range) → get_ends parts r ≡ ok w → IsStar w.extra
unfolding get_ends
get_ends-IsStar [] r w h = cc
get_ends-IsStar (low ∷ []) r w h = ground arith
get_ends-IsStar (low ∷ high ∷ []) r w h = ground arith
get_ends-IsStar (_ ∷ _ ∷ _ ∷ _) r w h = cc

with_step-IsStar :
    (lone : Bool) (r : Bounds) (w v : Range) (step : ℕ)
    → IsStar w.extra
    → with_step lone r w step ≡ ok v
    → IsStar v.extra
unfolding with_step
with_step-IsStar lone r w v step s h = ground arith

-- The four checks at the end of getRange leave an item inside the bounds.
close_range_cases :
    (r : Bounds) (w : Range) (step bits : ℕ)
    → close_range r w step ≡ ok bits
    → IsInside r (record { first = w.start; last = w.stop; step = step })
      × (bits ≡ bit_or (get_bits w.start w.stop step) w.extra)
unfolding close_range
close_range_cases r w step bits h = ground arith

or_assoc : (a b c : Bool) → ((a || b) || c) ≡ (a || (b || c))
or_assoc a b c = ground arith

or_none : (a b c : Bool) → b ≡ false → a ≡ c → (a || b) ≡ (c || false)
or_none a b c h k = ground arith

close_range-Denotes :
    (r : Bounds) (w : Range) (step bits : ℕ)
    → r.max < 63
    → IsStar w.extra
    → close_range r w step ≡ ok bits
    → Denotes r (record { first = w.start; last = w.stop; step = step } ∷ []) bits
close_range-Denotes r w step bits m s h =
    let (ins, e) = close_range_cases r w step bits h in
    record {
      inside = (ins, tt);
      exact = λ i k.
          ap (λ t. test_bit t i) e
          ∙ test_bit-bit_or i (get_bits w.start w.stop step) w.extra
          ∙ or_none _ _ _ (test_bit-IsStar w.extra i s k) (
              get_bits_lem w.start w.stop step i ins.moving ins.ordered (omega (arith, ins.high))
                (omega arith));
    }

get_range_parts-Denotes :
    (parts : List Text) (r : Bounds) (bits : ℕ)
    → r.max < 63
    → get_range_parts parts r ≡ ok bits
    → (v : Interval) × Denotes r (v ∷ []) bits
unfolding get_range_parts
get_range_parts-Denotes [] r bits m h = cc
get_range_parts-Denotes (ends ∷ []) r bits m h =
    let (w, e, k) = ok_steps (get_ends (split b'-' ends) r) _ h in
    (_, close_range-Denotes r w 1 bits m (get_ends-IsStar _ r w e) k)
get_range_parts-Denotes (ends ∷ step_text ∷ []) r bits m h =
    let (w, e, k) = ok_steps (get_ends (split b'-' ends) r) _ h in
    let (step, e', k') = ok_steps (parse_uint step_text) _ k in
    let (v, e'', k'') = ok_steps (with_step _ r w step) _ k' in
    (
      _,
      close_range-Denotes r v step bits m
          (with_step-IsStar _ r w v step (get_ends-IsStar _ r w e) e'') k'',
    )
get_range_parts-Denotes (_ ∷ _ ∷ _ ∷ _) r bits m h = cc

get_range-Denotes :
    (expr : Text) (r : Bounds) (bits : ℕ)
    → r.max < 63
    → get_range expr r ≡ ok bits
    → (v : Interval) × Denotes r (v ∷ []) bits
unfolding get_range
get_range-Denotes expr r bits m h = get_range_parts-Denotes (split b'/' expr) r bits m h

any_interval-append :
    (vs ws : List Interval) (i : ℕ)
    → any_interval (vs ++ ws) i ≡ (any_interval vs i || any_interval ws i)
any_interval-append [] ws i = refl
any_interval-append (v ∷ vs) ws i = ground (arith, any_interval-append vs ws i)

All-append :
    (r : Bounds) (vs ws : List Interval)
    → All (IsInside r) vs
    → All (IsInside r) ws
    → All (IsInside r) (vs ++ ws)
All-append r [] ws h k = k
All-append r (v ∷ vs) ws h k = (h.0, All-append r vs ws h.1 k)

Denotes-bit_or :
    (r : Bounds) (vs ws : List Interval) (a b : ℕ)
    → Denotes r vs a
    → Denotes r ws b
    → Denotes r (vs ++ ws) (bit_or a b)
Denotes-bit_or r vs ws a b d e = record {
  inside = All-append r vs ws d.inside e.inside;
  exact = λ i k. rw (test_bit-bit_or i a b, d.exact i k, e.exact i k, any_interval-append vs ws i);
}

-- What getRange reads from an item is one interval inside the bounds.
abbrev pub IsItem : Bounds → Text → Type 0
IsItem r item =
    (bits : ℕ) × (get_range item r ≡ ok bits) × ((v : Interval) × Denotes r (v ∷ []) bits)

-- Whether one of the items has the value.
unfoldable pub any_item : Bounds → List Text → ℕ → Bool
any_item r [] i = false
any_item r (item ∷ items) i = elim (get_range item r) [
  | ok bits ↦ test_bit bits i || any_item r items i
  | err _ ↦ any_item r items i
]

any_item_step :
    (r : Bounds) (item : Text) (items : List Text) (bits i : ℕ)
    → get_range item r ≡ ok bits
    → any_item r (item ∷ items) i ≡ (test_bit bits i || any_item r items i)
unfolding any_item
any_item_step r item items bits i h = ground arith

get_items_lem :
    (items : List Text) (r : Bounds) (bits out : ℕ)
    → r.max < 63
    → get_items bits items r ≡ ok out
    → All (IsItem r) items × ((i : ℕ) → test_bit out i ≡ (test_bit bits i || any_item r items i))
unfolding get_items any_item
get_items_lem [] r bits out m h = (tt, λ i. ground arith)
get_items_lem ([] ∷ items) r bits out m h = (cc, cc)
get_items_lem ((c ∷ s) ∷ items) r bits out m h =
    let (bit, e, k) = ok_steps (get_range (c ∷ s) r) _ h in
    let (rest, exact) = get_items_lem items r (bit_or bits bit) out m k in
    (
      ((bit, e, get_range-Denotes (c ∷ s) r bit m e), rest),
      λ i.
          exact i
          ∙ rw (test_bit-bit_or i bits bit, any_item_step r (c ∷ s) items bit i e)
              (or_assoc (test_bit bits i) (test_bit bit i) (any_item r items i)),
    )

-- An accepted field is the union of its comma-separated items: getRange accepts each of them, as the
-- values of one interval inside the bounds of the field with a positive step, and a bit of the field
-- is set exactly where it is set in what getRange reads from one of the items.
pub get_field_lem :
    (field : Text) (r : Bounds) (bits : ℕ)
    → r.max < 63
    → get_field field r ≡ ok bits
    → All (IsItem r) (split b',' field)
      × ((i : ℕ) → test_bit bits i ≡ any_item r (split b',' field) i)
unfolding get_field
get_field_lem field r bits m h =
    let (items, exact) = get_items_lem (split b',' field) r 0 bits m h in
    (items, λ i. exact i ∙ ap (λ b. b || any_item r (split b',' field) i) (test_bit-none i))

get_items-Denotes :
    (items : List Text) (r : Bounds) (vs : List Interval) (bits out : ℕ)
    → r.max < 63
    → Denotes r vs bits
    → get_items bits items r ≡ ok out
    → (ws : List Interval) × (length ws ≡ length vs + length items) × Denotes r ws out
unfolding get_items
get_items-Denotes [] r vs bits out m d h = (vs, omega arith, ground arith)
get_items-Denotes ([] ∷ items) r vs bits out m d h = cc
get_items-Denotes ((c ∷ s) ∷ items) r vs bits out m d h =
    let (bit, e, k) = ok_steps (get_range (c ∷ s) r) _ h in
    let (v, dv) = get_range-Denotes (c ∷ s) r bit m e in
    let (ws, n, dw) =
      get_items-Denotes items r (vs ++ v ∷ []) (bit_or bits bit) out m
        (Denotes-bit_or r vs (v ∷ []) bits bit d dv) k in
    (ws, omega (arith, n, length-append vs (v ∷ [])), dw)

-- The same as a union of intervals.
pub get_field-Denotes :
    (field : Text) (r : Bounds) (bits : ℕ)
    → r.max < 63
    → get_field field r ≡ ok bits
    → (vs : List Interval) × (length vs ≡ length (split b',' field)) × Denotes r vs bits
unfolding get_field
get_field-Denotes field r bits m h =
    let (vs, n, d) =
      get_items-Denotes (split b',' field) r [] 0 bits m
        (record { inside = tt; exact = λ i k. test_bit-none i }) h in
    (vs, omega (arith, n), d)
