-- ===== src/Schedule/Fields/Bits.antt =====
-- What getBits of internal/schedule/parse.go sets: the multiples of the step from `min` up to `max`.
use native.Mathlib.Nat.{mod-eq_of_lt, mod-eq-sub-mod, mod-eq_of_lt}
use mathlib.Core.Path.{ap₂}
use herdr_woof.Prelude.{
  ℕ, zero, suc, ◌+◌, ◌-◌, ◌%◌, ◌^◌, ◌≤◌, ◌<◌, bit_or, ◌≡◌, refl, sym, ap, ◌∙◌, inl, inr, Bool, true,
  false, ◌&&◌, ◌||◌, arith, ltb, leb, ◌==◌, Bool-cases,
}
use herdr_woof.Prelude.Bits.{
  test_bit, test_bit-bit_or, test_bit-bit_and, test_bit-pow, test_bit-none, all_below, all_below-at,
}
use herdr_woof.Prelude.Word.{shl, complement, max_uint64, test_bit-shl, test_bit-complement}
use herdr_woof.Schedule.Fields.{get_bits, get_bits_loop}

-- `i` is one of `min`, `min + step`, … up to `max`.
unfoldable pub in_range : ℕ → ℕ → ℕ → ℕ → Bool
in_range min max step i = leb min i && (leb i max && ((i - min) % step == 0))

shl_one_table : all_below 64 (λ i. shl 1 i == 2 ^ i) ≡ true
unfolding all_below
shl_one_table = refl

pub shl_one : (i : ℕ) → i < 64 → shl 1 i ≡ 2 ^ i
shl_one i h = ground (arith, all_below-at 64 (λ i. shl 1 i == 2 ^ i) i shl_one_table h)

pub test_bit-shl_one : (k i : ℕ) → k < 64 → test_bit (shl 1 k) i ≡ (i == k)
test_bit-shl_one k i h = ap (λ t. test_bit t i) (shl_one k h) ∙ test_bit-pow k i

step_mod_small : (d step : ℕ) → d < step → (d % step == 0) ≡ (d == 0)
step_mod_small d step h = ap (λ t. t == 0) (mod-eq_of_lt h)

step_mod_back :
    (i start step : ℕ) → start + step ≤ i → (i - start) % step ≡ (i - (start + step)) % step
step_mod_back i start step h =
    let e : i - start - step ≡ i - (start + step) = omega arith in
    mod-eq-sub-mod (omega arith) ∙ ap (λ t. t % step) e

-- One round of the loop takes `start` out of the range.
in_range_step :
    (start max step i : ℕ)
    → 0 < step
    → start ≤ max
    → in_range start max step i ≡ ((i == start) || in_range (start + step) max step i)
unfolding in_range
in_range_step start max step i p q = elim (Bool-cases (leb (start + step) i)) [
  | inl far ↦ ground (arith, step_mod_back i start step)
  | inr near ↦ elim (Bool-cases (leb start i)) [
    | inl in_step ↦ ground (arith, step_mod_small (i - start) step)
    | inr below ↦ ground arith
  ]
]

in_range_past : (start max step i : ℕ) → max < start → in_range start max step i ≡ false
unfolding in_range
in_range_past start max step i h = ground arith

or_assoc : (a b c : Bool) → (a || b || c) ≡ (a || (b || c))
or_assoc a b c = ground arith

or_false : (a b : Bool) → b ≡ false → a ≡ (a || b)
or_false a b h = ground arith

get_bits_loop_lem :
    (fuel start max step bits i : ℕ)
    → 0 < step
    → max < 63
    → i < 64
    → max < start + fuel
    → test_bit (get_bits_loop fuel start max step bits) i
      ≡ (test_bit bits i || in_range start max step i)
unfolding get_bits_loop
get_bits_loop_lem zero start max step bits i p q r h =
    or_false _ _ (in_range_past start max step i (omega arith))
get_bits_loop_lem (suc fuel) start max step bits i p q r h = elim (Bool-cases (leb start max)) [
  | inl more ↦
      let low : start ≤ max = ground arith in
      rw more (
        get_bits_loop_lem fuel (start + step) max step (bit_or bits (shl 1 start)) i p q r
          (omega arith)
        ∙ ap (λ b. b || in_range (start + step) max step i)
            (test_bit-bit_or i bits (shl 1 start)
              ∙ ap (λ b. test_bit bits i || b) (test_bit-shl_one start i (omega arith)))
        ∙ or_assoc (test_bit bits i) (i == start) (in_range (start + step) max step i)
        ∙ ap (λ b. test_bit bits i || b) (sym (in_range_step start max step i p low)))
  | inr done ↦ rw done (or_false _ _ (in_range_past start max step i (ground arith)))
]

in_range_one : (min max i : ℕ) → (ltb i (max + 1) && leb min i) ≡ in_range min max 1 i
unfolding in_range
in_range_one min max i = ground arith

-- getBits sets exactly the values of the range, for every step that is not 0: its loop ends by its
-- own test, and the shifted masks of the shortcut for step 1 give the same set.
pub get_bits_lem :
    (min max step i : ℕ)
    → 0 < step
    → min ≤ max
    → max < 63
    → i < 64
    → test_bit (get_bits min max step) i ≡ in_range min max step i
unfolding get_bits
get_bits_lem min max step i p l q r = elim (Bool-cases (step == 1)) [
  | inl one ↦
      let e : step ≡ 1 = ground arith in
      rw one (
        test_bit-bit_and i (complement (shl max_uint64 (max + 1))) (shl max_uint64 min)
        ∙ ap₂ (λ a b. a && b) (test_bit-complement (max + 1) i (omega arith) r)
            (test_bit-shl min i (omega arith) r)
        ∙ in_range_one min max i
        ∙ ap (λ t. in_range min max t i) (sym e))
  | inr other ↦ rw other (
      get_bits_loop_lem (suc max) min max step 0 i p q r (omega arith)
      ∙ ap (λ b. b || in_range min max step i) (test_bit-none i))
]
