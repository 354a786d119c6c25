-- ===== src/Schedule/Every.antt =====
-- nextEvery and dueEvery of internal/schedule/schedule.go: the occurrences anchor + n*every. An
-- instant is its nanosecond count, as an integer; the zero `time.Time` is `none`.
pub mod Occurrences
pub mod Windows
use herdr_woof.Prelude.{
  ℕ, zero, suc, ◌+◌, ◌-◌, ◌*◌, ◌/◌, ◌%◌, ◌≤◌, Bool, true, false, Option, none, some, ltb, leb, ◌==◌,
  if◌then◌else◌, max,
}
use herdr_woof.Prelude.Int.{ℤ, pos, negsuc, ◌+ℤ◌, ◌-ℤ◌, pos_part, neg_part, ltb_ℤ, max_ℤ}
use herdr_woof.Prelude.Result.{Result, ok, err, ◌>>=◌}

abbrev pub max_int64 : ℕ
max_int64 = 9223372036854775807

pub data EveryError : Type 0 where
  no_anchor out_of_range : EveryError

-- `b.Sub(a)` saturates at the ends of an int64.
abbrev pub saturate : ℤ → ℤ
saturate (pos n) = pos (if ltb max_int64 n then max_int64 else n)
saturate (negsuc n) = negsuc (if ltb max_int64 n then max_int64 else n)

unfoldable pub span : ℤ → ℤ → Result EveryError ℤ
span a b = elim (saturate (b -ℤ a)) [
  | pos n ↦ if n == max_int64 then err out_of_range else ok (pos n)
  | negsuc n ↦ if n == max_int64 then err out_of_range else ok (negsuc n)
]

-- The occurrence number n.
abbrev pub occurrence : ℤ → ℕ → ℕ → ℤ
occurrence anchor every n = anchor +ℤ pos (n * every)

-- The span is not negative here, so that Go's division is that of ℕ.
unfoldable pub next_after : ℕ → ℤ → ℤ → Result EveryError ℤ
next_after every anchor d =
    let n = pos_part d / every + 1 in
    if ltb (max_int64 / every) n then err out_of_range else ok (occurrence anchor every n)

unfoldable pub next_every : ℕ → ℤ → Option ℤ → Result EveryError ℤ
unfolding span next_after
next_every every after none = err no_anchor
next_every every after (some anchor) =
    if ltb_ℤ after anchor then ok anchor else span anchor after >>= next_after every anchor

pub record Due : Type 0 where
  pub count : ℕ
  pub first : Option ℤ
  pub latest : Option ℤ
  pub capped : Bool

abbrev pub no_due : Due
no_due = record { count = 0; first = none; latest = none; capped = false }

-- The number of the first occurrence at or after a span.
abbrev pub round_up : ℕ → ℕ → ℕ
round_up lo every = if lo % every == 0 then lo / every else lo / every + 1

unfoldable pub due_between : ℕ → ℤ → ℕ → ℤ → ℤ → Due
due_between every anchor limit lo hi =
    let first = round_up (pos_part lo) every in
    let last = pos_part hi / every in
    let count = last - first + 1 in
    if ltb last first then no_due else record {
      count = if ltb limit count then limit else count;
      first = some (occurrence anchor every first);
      latest = some (occurrence anchor every last);
      capped = ltb limit count;
    }

unfoldable pub due_every : ℕ → ℤ → ℤ → Option ℤ → ℕ → Result EveryError Due
unfolding span due_between
due_every every from now none limit = err no_anchor
due_every every from now (some anchor) limit =
    if ltb_ℤ now from then ok no_due else if ltb_ℤ now anchor then ok no_due else do
      lo ← span anchor (max_ℤ from anchor)
      hi ← span anchor now
      ok (due_between every anchor limit lo hi)
