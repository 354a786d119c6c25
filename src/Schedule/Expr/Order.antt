-- ===== src/Schedule/Expr/Order.antt =====
-- What Next of internal/schedule/schedule.go needs of instants: the occurrences of an expression are
-- in the order of their civil times, and a wall clock has passed the times before it.
use herdr_woof.Prelude.{ℕ, ◌+◌, ◌*◌, ◌≤◌, ◌<◌, ◌≡◌, inl, inr, arith}
use herdr_woof.Prelude.Int.{ℤ, pos, ◌≤ℤ◌, ◌<ℤ◌, +ℤ_parts, lt-or-le}
use herdr_woof.Schedule.Calendar.{Civil, seconds, unix, epoch_days}
use herdr_woof.Schedule.Search.{add_minute}
use herdr_woof.Schedule.Search.Order.{IsCivil, Matches, key}
use herdr_woof.Schedule.Zone.{Location, wall, IsLocation, resolve}
use herdr_woof.Schedule.Zone.Resolve.{IsEarliest, IsSpaced, resolve-IsEarliest}
use herdr_woof.Schedule.Instant.{unix_of, at_second, clock}
use herdr_woof.Schedule.Instant.RoundTrip.{seconds_mono}
use herdr_woof.Schedule.Expr.{Expr, resolved}

at_second_mono : (a b : ℤ) → a ≤ℤ b → at_second a ≤ℤ at_second b
unfolding at_second
at_second_mono a b h = ground arith

-- An instant is at or after the start of its second.
at_second-unix_of : (t : ℤ) → at_second (unix_of t) ≤ℤ t
unfolding at_second unix_of
at_second-unix_of t = ground arith

unix_mono : (a b : Civil) → seconds a ≤ seconds b → unix a ≤ℤ unix b
unfolding unix
unix_mono a b h = ground arith

pub around : (u v w : ℤ) → w <ℤ u → u ≤ℤ v → v ≤ℤ w → ⊥
around u v w a b c = omega arith

-- The first instant of a later wall clock is not earlier.
IsEarliest_mono :
    (loc : Location) (u v r s : ℤ) → IsEarliest loc u r → IsEarliest loc v s → u ≤ℤ v → r ≤ℤ s
IsEarliest_mono loc u v r s a b h = elim (lt-or-le s r) [
  | inr le ↦ le
  | inl lt ↦ absurd (around u v (wall loc s) (a.earliest s lt) h b.reached)
]

pub key-add_minute : (c : Civil) → IsCivil c → key (add_minute c) ≡ key c + 1
unfolding add_minute
key-add_minute c v = ground arith

pub year-add_minute : (c : Civil) → (add_minute c).y ≡ c.y
unfolding add_minute
year-add_minute c = ground arith

pub lt_irrefl : (a b : ℤ) → a <ℤ b → b ≤ℤ a → ⊥
lt_irrefl a b h k = omega arith

pub le_irrefl : {a b : ℕ} → a < b → b ≤ a → ⊥
le_irrefl h k = omega arith

pub before_after : (a b c : ℤ) → a <ℤ b → b ≤ℤ c → a <ℤ c
before_after a b c h k = omega arith

-- A civil time that an expression stands for.
pub record IsMatch (x : Expr) (c : Civil) : Type 0 where
  pub from_one : 1 ≤ c.y
  pub civil : IsCivil c
  pub matches : Matches x.spec c

pub clock_passed :
    (loc : Location) (t : ℤ) (c : Civil)
    → seconds c + 1 ≤ clock loc t
    → unix c ≤ℤ wall loc (unix_of t)
unfolding clock unix
clock_passed loc t c h =
    let w = wall loc (unix_of t) in
    let parts = +ℤ_parts w (pos (epoch_days * 86400)) in ground (arith, parts)

le_trans : (a b c : ℤ) → a ≤ℤ b → b ≤ℤ c → a ≤ℤ c
le_trans a b c h k = omega arith

pub resolved_passed :
    (x : Expr) (c : Civil) (t : ℤ) → resolve c x.loc ≤ℤ unix_of t → resolved x c ≤ℤ t
unfolding resolved
resolved_passed x c t h =
    le_trans (resolved x c) (at_second (unix_of t)) t
      (at_second_mono (resolve c x.loc) (unix_of t) h) (at_second-unix_of t)

module _ (x : Expr) (l : IsLocation x.loc) (sp : IsSpaced x.loc) where
  pub resolved_mono :
      (a b : Civil) → 1 ≤ a.y → IsCivil a → IsCivil b → key a ≤ key b → resolved x a ≤ℤ resolved x b
  unfolding resolved
  resolved_mono a b p va vb h = at_second_mono (resolve a x.loc) (resolve b x.loc) (
      IsEarliest_mono x.loc (unix a) (unix b) (resolve a x.loc) (resolve b x.loc)
        (resolve-IsEarliest a x.loc l sp) (resolve-IsEarliest b x.loc l sp)
        (unix_mono a b (omega (arith, seconds_mono 0 a b (omega arith) p va vb (omega arith)))))
