-- ===== src/Schedule/Every/Occurrences.antt =====
-- nextEvery and dueEvery of internal/schedule/schedule.go against the occurrences anchor + n*every
-- for n >= 0 that the comment of Next defines.
use native.Mathlib.Nat.{
  div-add-mod, mod-lt, div-lt_iff_lt-mul, lt-div-mul-add, mul-le-mul_right, le-div_iff_mul-le,
  div-mul-le_self,
}
use herdr_woof.Prelude.{ℕ, ◌+◌, ◌*◌, ◌/◌, ◌≤◌, ◌<◌, ◌≡◌, refl, inl, inr, some, arith, Bool-cases}
use herdr_woof.Prelude.Int.{
  ℤ, ◌-ℤ◌, ◌≤ℤ◌, ◌<ℤ◌, pos_part, neg_part, ltb_ℤ, int_laws, sub_forward, not-ltb_ℤ→le, ltb_ℤ→lt,
}
use herdr_woof.Prelude.Result.{ok, ◌>>=◌, ok_steps}
use herdr_woof.Schedule.Every.{max_int64, span, occurrence, next_after, next_every}

-- Division: n is at most d / every exactly when n * every is at most d.
mul-le_of_le-div : (n d every : ℕ) → 0 < every → n ≤ d / every → n * every ≤ d
mul-le_of_le-div n d every p h = grind (arith, div-add-mod d every)

le-div_of_mul-le : (n d every : ℕ) → 0 < every → n * every ≤ d → n ≤ d / every
le-div_of_mul-le n d every p h = grind (arith, div-add-mod d every, mod-lt d p)

-- The span from the anchor to a later instant, where it does not run out of an int64.
pub span_forward : (a b d : ℤ) → a ≤ℤ b → span a b ≡ ok d → d ≡ b -ℤ a
unfolding span
span_forward a b d h k = ground arith

-- `t` is the first occurrence strictly after `after`.
pub record IsNextOccurrence (every : ℕ) (anchor after t : ℤ) : Type 0 where
  pub number : ℕ
  pub is_occurrence : t ≡ occurrence anchor every number
  pub later : after <ℤ t
  pub first : (m : ℕ) → after <ℤ occurrence anchor every m → t ≤ℤ occurrence anchor every m

anchor-IsNextOccurrence :
    (every : ℕ) (anchor after : ℤ) → after <ℤ anchor → IsNextOccurrence every anchor after anchor
anchor-IsNextOccurrence every anchor after h = record {
  number = 0;
  is_occurrence = omega int_laws;
  later = h;
  first = λ m k. omega int_laws;
}

next_number : (every d m : ℕ) → 0 < every → d < m * every → (d / every + 1) * every ≤ m * every
next_number every d m p h =
    let k : d / every < m = (div-lt_iff_lt-mul p).1 h in mul-le-mul_right every (omega (arith, k))

past_number : (every d : ℕ) → 0 < every → d < (d / every + 1) * every
past_number every d p = omega (arith, lt-div-mul-add {a = d} p)

after-IsNextOccurrence :
    (every : ℕ) (anchor after d : ℤ)
    → 0 < every
    → anchor ≤ℤ after
    → d ≡ after -ℤ anchor
    → IsNextOccurrence every anchor after (occurrence anchor every (pos_part d / every + 1))
after-IsNextOccurrence every anchor after d p h e =
    let split : (pos_part d + pos_part anchor + neg_part after ≡ pos_part after + neg_part anchor) =
      rw e (sub_forward after anchor h) in
    record {
      number = pos_part d / every + 1;
      is_occurrence = refl;
      later = omega (int_laws, split, past_number every (pos_part d) p);
      first = λ m k.
          let far : pos_part d < m * every = omega (int_laws, split) in
          omega (int_laws, next_number every (pos_part d) m p far);
    }

next_after_cases :
    (every : ℕ) (anchor d t : ℤ)
    → next_after every anchor d ≡ ok t
    → t ≡ occurrence anchor every (pos_part d / every + 1)
unfolding next_after
next_after_cases every anchor d t h = ground arith

-- An instant that nextEvery returns is the first occurrence strictly after its argument.
pub next_every-IsNextOccurrence :
    (every : ℕ) (anchor after t : ℤ)
    → 0 < every
    → next_every every after (some anchor) ≡ ok t
    → IsNextOccurrence every anchor after t
unfolding next_every
next_every-IsNextOccurrence every anchor after t p h = elim (Bool-cases (ltb_ℤ after anchor)) [
  | inl early ↦
      let e : t ≡ anchor = ground arith in
      rw e (anchor-IsNextOccurrence every anchor after (ltb_ℤ→lt after anchor early))
  | inr late ↦
      let h' : (span anchor after >>= next_after every anchor) ≡ ok t =
        rw (late, next_every) at h in
      let (d, sp, k) = ok_steps (span anchor after) (next_after every anchor) h' in
      let low : anchor ≤ℤ after = not-ltb_ℤ→le after anchor late in
      rw (next_after_cases every anchor d t k)
        (after-IsNextOccurrence every anchor after d p low (span_forward anchor after d low sp))
]

span_short : (a b : ℤ) → a ≤ℤ b → pos_part (b -ℤ a) < max_int64 → span a b ≡ ok (b -ℤ a)
unfolding span ◌-ℤ◌
span_short a b h k = ground arith

next_after_short :
    (every : ℕ) (anchor d : ℤ)
    → 0 < every
    → pos_part d + every ≤ max_int64
    → next_after every anchor d ≡ ok (occurrence anchor every (pos_part d / every + 1))
unfolding next_after
next_after_short every anchor d p h =
    let fits : pos_part d / every + 1 ≤ max_int64 / every =
      (le-div_iff_mul-le p).1 (omega (arith, div-mul-le_self (pos_part d) every)) in
    ground (arith, fits)

-- nextEvery returns an instant at every argument whose span from the anchor, with one more interval,
-- stays within an int64 of nanoseconds.
pub next_every_total :
    (every : ℕ) (anchor after : ℤ)
    → 0 < every
    → pos_part (after -ℤ anchor) + every ≤ max_int64
    → (t : ℤ) × (next_every every after (some anchor) ≡ ok t)
unfolding next_every
next_every_total every anchor after p h = elim (Bool-cases (ltb_ℤ after anchor)) [
  | inl early ↦ (anchor, rw early)
  | inr late ↦
      let low : anchor ≤ℤ after = not-ltb_ℤ→le after anchor late in
      (
        occurrence anchor every (pos_part (after -ℤ anchor) / every + 1),
        rw (late, span_short anchor after low (omega arith))
            (next_after_short every anchor (after -ℤ anchor) p h),
      )
]
