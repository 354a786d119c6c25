-- ===== src/Schedule/Every/Windows.antt =====
-- dueEvery of internal/schedule/schedule.go against the set of the occurrences that lie between two
-- instants.
use native.Mathlib.Nat.{lt-div-mul-add, mul-le-mul_right, le-div_iff_mul-le, div-add-mod'}
use herdr_woof.Prelude.{
  ℕ, ◌+◌, ◌-◌, ◌*◌, ◌/◌, ◌%◌, ◌≤◌, ◌<◌, min, ◌≡◌, ◌↔◌, refl, inl, inr, true, false, some, arith,
  ltb, ◌==◌, if◌then◌else◌, Bool-cases, lt-or-le_ℕ,
}
use herdr_woof.Prelude.Int.{
  ℤ, pos, ◌+ℤ◌, ◌-ℤ◌, ◌≤ℤ◌, ◌<ℤ◌, pos_part, ltb_ℤ, max_ℤ, int_laws, sub_forward, not-ltb_ℤ→le,
  ltb_ℤ→lt,
}
use herdr_woof.Prelude.Result.{ok, ok_steps}
use herdr_woof.Schedule.Every.{span, occurrence, Due, no_due, round_up, due_between, due_every}
use herdr_woof.Schedule.Every.Occurrences.{span_forward}

-- An occurrence that is due: it lies between the two instants, both included.
abbrev pub InWindow : ℕ → ℤ → ℤ → ℤ → ℕ → Type 0
InWindow every anchor from now n =
    (from ≤ℤ occurrence anchor every n) × (occurrence anchor every n ≤ℤ now)

-- The occurrences that are due, from number `low` to number `high`, as `due` reports them.
pub record Reports (every : ℕ) (anchor from now : ℤ) (limit : ℕ) (due : Due) (low high : ℕ)
    : Type 0 where
  pub some_due : low ≤ high
  pub due_are : (n : ℕ) → InWindow every anchor from now n ↔ ((low ≤ n) × (n ≤ high))
  pub counted : due.count ≡ min limit (high - low + 1)
  pub first_is : due.first ≡ some (occurrence anchor every low)
  pub latest_is : due.latest ≡ some (occurrence anchor every high)
  pub capped_is : due.capped ≡ ltb limit (high - low + 1)

pub data IsDueReport (every : ℕ) (anchor from now : ℤ) (limit : ℕ) (due : Due) : Type 0 where
  nothing :
      due ≡ no_due
      → ((n : ℕ) → ¬ InWindow every anchor from now n)
      → IsDueReport every anchor from now limit due
  reported :
      (low high : ℕ)
      → Reports every anchor from now limit due low high
      → IsDueReport every anchor from now limit due

lt_of_mul-lt : (q n every : ℕ) → q * every < n * every → q < n
lt_of_mul-lt q n every h = elim (lt-or-le_ℕ q n) [
  | inl lt ↦ lt
  | inr le ↦ absurd (omega (arith, mul-le-mul_right every le))
]

round_up_iff : (lo every n : ℕ) → 0 < every → (round_up lo every ≤ n) ↔ (lo ≤ n * every)
round_up_iff lo every n p = elim (Bool-cases (lo % every == 0)) [
  | inl exact ↦
      let e : lo / every * every ≡ lo = ground (arith, div-add-mod' lo every) in
      rw exact (
        (λ h. omega (arith, e, mul-le-mul_right every h)),
        (λ h. elim (lt-or-le_ℕ n (lo / every)) [
          | inr le ↦ le
          | inl lt ↦ absurd (omega (arith, e, p, mul-le-mul_right every lt))
        ]),
      )
  | inr rest ↦
      let e : lo / every * every < lo = ground (arith, div-add-mod' lo every) in
      rw rest (
        (λ h. omega (arith, lt-div-mul-add {a = lo} p, mul-le-mul_right every h)),
        (λ h. omega (arith, lt_of_mul-lt (lo / every) n every (omega arith))),
      )
]

max_ℤ_forward :
    (from anchor : ℤ) (k : ℕ)
    → (from ≤ℤ anchor +ℤ pos k) ↔ (pos_part (max_ℤ from anchor -ℤ anchor) ≤ k)
unfolding ◌+ℤ◌ ◌-ℤ◌
max_ℤ_forward from anchor k = ground arith

from_window :
    (every : ℕ) (anchor from : ℤ) (n : ℕ)
    → 0 < every
    → (from ≤ℤ occurrence anchor every n)
      ↔ (round_up (pos_part (max_ℤ from anchor -ℤ anchor)) every ≤ n)
from_window every anchor from n p =
    let a = max_ℤ_forward from anchor (n * every) in
    let b = round_up_iff (pos_part (max_ℤ from anchor -ℤ anchor)) every n p in
    ((λ h. b.1 (a.0 h)), (λ h. a.1 (b.0 h)))

now_window :
    (every : ℕ) (anchor now : ℤ) (n : ℕ)
    → 0 < every
    → anchor ≤ℤ now
    → (occurrence anchor every n ≤ℤ now) ↔ (n ≤ pos_part (now -ℤ anchor) / every)
now_window every anchor now n p h =
    let e = sub_forward now anchor h in
    let b = le-div_iff_mul-le {k = every} {x = n} {y = pos_part (now -ℤ anchor)} p in
    ((λ k. b.1 (omega (int_laws, e))), (λ k. omega (int_laws, e, b.0 k)))

window_iff :
    (every : ℕ) (anchor from now : ℤ) (n : ℕ)
    → 0 < every
    → anchor ≤ℤ now
    → InWindow every anchor from now n ↔ (
        (round_up (pos_part (max_ℤ from anchor -ℤ anchor)) every ≤ n)
        × (n ≤ pos_part (now -ℤ anchor) / every))
window_iff every anchor from now n p h =
    let a = from_window every anchor from n p in
    let b = now_window every anchor now n p h in
    ((λ w. (a.0 w.0, b.0 w.1)), (λ w. (a.1 w.0, b.1 w.1)))

due_between-none :
    (every : ℕ) (anchor : ℤ) (limit : ℕ) (lo hi : ℤ)
    → ltb (pos_part hi / every) (round_up (pos_part lo) every) ≡ true
    → due_between every anchor limit lo hi ≡ no_due
unfolding due_between
due_between-none every anchor limit lo hi h = rw h

capped_min : (limit n : ℕ) → (if ltb limit n then limit else n) ≡ min limit n
capped_min limit n = ground arith

due_between-some :
    (every : ℕ) (anchor : ℤ) (limit : ℕ) (lo hi : ℤ)
    → let first = round_up (pos_part lo) every in
      let last = pos_part hi / every in
      let due = due_between every anchor limit lo hi in
      ltb last first ≡ false
      → (due.count ≡ min limit (last - first + 1))
        × (due.first ≡ some (occurrence anchor every first))
        × (due.latest ≡ some (occurrence anchor every last))
        × (due.capped ≡ ltb limit (last - first + 1))
unfolding due_between
due_between-some every anchor limit lo hi h =
    rw (h, due_between)
      (capped_min limit (pos_part hi / every - round_up (pos_part lo) every + 1), refl, refl, refl)

due_between-IsDueReport :
    (every : ℕ) (anchor from now : ℤ) (limit : ℕ)
    → 0 < every
    → anchor ≤ℤ now
    → IsDueReport every anchor from now limit
        (due_between every anchor limit (max_ℤ from anchor -ℤ anchor) (now -ℤ anchor))
due_between-IsDueReport every anchor from now limit p h =
    let lo = max_ℤ from anchor -ℤ anchor in
    let hi = now -ℤ anchor in
    elim (Bool-cases (ltb (pos_part hi / every) (round_up (pos_part lo) every))) [
      | inl apart ↦
          nothing (due_between-none every anchor limit lo hi apart)
            λ n w. let (a, b) = (window_iff every anchor from now n p h).0 w in ground (arith, a, b)
      | inr meet ↦
          let (c, f, l, k) = due_between-some every anchor limit lo hi meet in
          reported (round_up (pos_part lo) every) (pos_part hi / every) (record {
            some_due = ground arith;
            due_are = λ n. window_iff every anchor from now n p h;
            counted = c;
            first_is = f;
            latest_is = l;
            capped_is = k;
          })
    ]

due_every_cases :
    (every : ℕ) (from now anchor : ℤ) (limit : ℕ) (due : Due)
    → ltb_ℤ now from ≡ false
    → ltb_ℤ now anchor ≡ false
    → due_every every from now (some anchor) limit ≡ ok due
    → (lo hi : ℤ) × (span anchor (max_ℤ from anchor) ≡ ok lo)
      × (span anchor now ≡ ok hi)
      × (due ≡ due_between every anchor limit lo hi)
unfolding due_every
due_every_cases every from now anchor limit due p q h =
    let (lo, a, k) = ok_steps (span anchor (max_ℤ from anchor)) _ (rw (p, q, due_every) at h) in
    let (hi, b, e) = ok_steps (span anchor now) _ k in (lo, hi, a, b, ground arith)

-- What dueEvery reports: if no occurrence anchor + n*every lies between `from` and `now`, both
-- included, nothing; otherwise the first and the last of those that do, and how many they are, cut
-- off at the limit and then marked as capped.
pub due_every-IsDueReport :
    (every : ℕ) (from now anchor : ℤ) (limit : ℕ) (due : Due)
    → 0 < every
    → due_every every from now (some anchor) limit ≡ ok due
    → IsDueReport every anchor from now limit due
unfolding due_every
due_every-IsDueReport every from now anchor limit due p h = elim (Bool-cases (ltb_ℤ now from)) [
  | inl reversed ↦
      let e : due ≡ no_due = ground arith in
      nothing e
        λ n w. let r : now <ℤ from = ltb_ℤ→lt now from reversed in omega (int_laws, w.0, w.1)
  | inr reversed' ↦ elim (Bool-cases (ltb_ℤ now anchor)) [
    | inl early ↦
        let e : due ≡ no_due = ground arith in
        nothing e λ n w. let r : now <ℤ anchor = ltb_ℤ→lt now anchor early in omega (int_laws, w.1)
    | inr late ↦
        let low : anchor ≤ℤ now = not-ltb_ℤ→le now anchor late in
        let (lo, hi, sp, sq, e) =
          due_every_cases every from now anchor limit due reversed' late h in
        rw
          (
            e,
            span_forward anchor (max_ℤ from anchor) lo (ground arith) sp,
            span_forward anchor now hi low sq,
          )
          (due_between-IsDueReport every anchor from now limit p low)
  ]
]
