-- ===== src/Schedule/Search/NextBit.antt =====
-- nextBit of internal/schedule/schedule.go finds the lowest set bit of a field from a value on.
use herdr_woof.Prelude.{
  ℕ, ◌^◌, ◌≤◌, ◌<◌, bit_and, ◌≡◌, ◌≢◌, sym, ap, ◌∙◌, ◌⊎◌, inl, inr, true, false, ◌&&◌, none, some,
  arith, leb,
}
use herdr_woof.Prelude.Bits.{
  test_bit, test_bit-bit_and, trailing_zeros, trailing_zeros-test, trailing_zeros-below, bit_and-le,
  bit_and-le_right, test_bit-of-zero,
}
use herdr_woof.Prelude.Word.{max_uint64, shl, complement, test_bit-shl, test_bit-star}
use herdr_woof.Schedule.Fields.{star_bit}
use herdr_woof.Schedule.Search.{masked, next_bit}

test_bit-masked :
    (mask from i : ℕ)
    → from < 64
    → i < 63
    → test_bit (masked mask from) i ≡ (test_bit mask i && leb from i)
unfolding masked
test_bit-masked mask from i p q =
    rw
      (
        test_bit-bit_and i (bit_and mask (complement star_bit)) (shl max_uint64 from),
        test_bit-bit_and i mask (complement star_bit),
        test_bit-star i (omega arith),
        test_bit-shl from i p (omega arith),
      )
      (ground arith)

masked-lt : (mask from : ℕ) → masked mask from < 2 ^ 63
unfolding masked
masked-lt mask from = omega (
  arith,
  bit_and-le (bit_and mask (complement star_bit)) (bit_and mask (complement star_bit))
      (shl max_uint64 from) (omega arith),
  bit_and-le_right mask mask (complement star_bit) (omega arith),
)

-- A bit that nextBit returns is set, lies in the range, and no bit below it in the range is set.
pub record IsNextBit (mask from max b : ℕ) : Type 0 where
  pub low : from ≤ b
  pub high : b ≤ max
  pub is_set : test_bit mask b ≡ true
  pub first : (j : ℕ) → from ≤ j → j < b → test_bit mask j ≡ false

next_bit_cases :
    (mask from max b : ℕ)
    → next_bit mask from max ≡ some b
    → (masked mask from ≢ 0) × (b ≡ trailing_zeros 64 (masked mask from)) × (b ≤ max)
unfolding next_bit
next_bit_cases mask from max b h = (λ e. ground arith, ground arith, ground arith)

next_bit-none_cases :
    (mask from max : ℕ)
    → next_bit mask from max ≡ none
    → (masked mask from ≡ 0) ⊎ (max < trailing_zeros 64 (masked mask from))
unfolding next_bit
next_bit-none_cases mask from max h = ground arith

masked_clear :
    (mask from j : ℕ)
    → from < 64
    → j < 63
    → from ≤ j
    → test_bit (masked mask from) j ≡ false
    → test_bit mask j ≡ false
masked_clear mask from j p q low h = ground (arith, test_bit-masked mask from j)

pub next_bit-some :
    (mask from max b : ℕ)
    → from < 64
    → max < 63
    → next_bit mask from max ≡ some b
    → IsNextBit mask from max b
next_bit-some mask from max b p q h =
    let (nonzero, e, high) = next_bit_cases mask from max b h in
    let hit : test_bit (masked mask from) b ≡ true =
      ap (test_bit (masked mask from)) e
      ∙ trailing_zeros-test 64 (masked mask from) nonzero (omega (arith, masked-lt mask from)) in
    let here : (test_bit mask b && leb from b) ≡ true =
      sym (test_bit-masked mask from b p (omega arith)) ∙ hit in
    record {
      low = ground arith;
      high = high;
      is_set = ground arith;
      first = λ j low below.
          masked_clear mask from j p (omega arith) low
            (trailing_zeros-below 64 (masked mask from) j (omega arith));
    }

pub next_bit-none :
    (mask from max j : ℕ)
    → from < 64
    → max < 63
    → next_bit mask from max ≡ none
    → from ≤ j
    → j ≤ max
    → test_bit mask j ≡ false
next_bit-none mask from max j p q h low high =
    masked_clear mask from j p (omega arith) low (elim (next_bit-none_cases mask from max h) [
      | inl e ↦ test_bit-of-zero (masked mask from) j e
      | inr far ↦ trailing_zeros-below 64 (masked mask from) j (omega arith)
    ])
