-- ===== src/Schedule/Zone/Resolve.antt =====
-- What resolve of internal/schedule/schedule.go promises: the earliest instant whose wall clock is
-- at or after a civil time, also where a transition skips that time or repeats it.
use herdr_woof.Prelude.{
  ℕ, zero, suc, ◌*◌, ◌≡◌, sym, ◌∙◌, inl, inr, true, false, Option, none, some, arith, Bool-cases,
  Option-cases,
}
use mathlib.Core.Path.{subst}
use herdr_woof.Prelude.Int.{
  ℤ, pos, ◌+ℤ◌, ◌-ℤ◌, ◌≤ℤ◌, ◌<ℤ◌, ltb_ℤ, max_ℤ, int_laws, ltb_ℤ→lt, not-ltb_ℤ→le, lt-or-le,
}
use herdr_woof.Schedule.Calendar.{Civil, unix}
use herdr_woof.Schedule.Zone.{Location, wall, two_days, InPeriod, IsLocation, resolve_loop, resolve}

-- `r` is the earliest instant whose wall clock reads `u` or later.
pub record IsEarliest (loc : Location) (u r : ℤ) : Type 0 where
  pub reached : u ≤ℤ wall loc r
  pub earliest : (t : ℤ) → t <ℤ r → wall loc t <ℤ u

-- No instant before `i` has reached `u`.
abbrev Unreached : Location → ℤ → ℤ → Type 0
Unreached loc u i = (t : ℤ) → t <ℤ i → wall loc t <ℤ u

max_ℤ_cases : (a b : ℤ) → (a ≤ℤ max_ℤ a b) × (b ≤ℤ max_ℤ a b)
max_ℤ_cases a b = ground arith

below_max : (t a b : ℤ) → t <ℤ max_ℤ a b → a ≤ℤ t → t <ℤ b
below_max t a b h k = ground arith

wall_reached : (u r o o' : ℤ) → o' ≡ o → u -ℤ o ≤ℤ r → u ≤ℤ r +ℤ o'
wall_reached u r o o' e h = rw e (omega int_laws)

wall_before : (u t o o' : ℤ) → o' ≡ o → t <ℤ u -ℤ o → t +ℤ o' <ℤ u
wall_before u t o o' e h = rw e (omega int_laws)

wall_before_end : (u t x o o' : ℤ) → o' ≡ o → t <ℤ x → x +ℤ o ≤ℤ u → t +ℤ o' <ℤ u
wall_before_end u t x o o' e h k = rw e (omega int_laws)

InPeriod-earlier : (o : Option ℤ) (t r : ℤ) → InPeriod o r → t <ℤ r → InPeriod o t
InPeriod-earlier none t r p h = tt
InPeriod-earlier (some x) t r p h = omega (arith, p)

-- Within one period the wall clock is the instant and the offset.
InPeriod-IsEarliest :
    (loc : Location) (u i : ℤ)
    → IsLocation loc
    → Unreached loc u i
    → InPeriod (loc i).stop (max_ℤ i (u -ℤ (loc i).off))
    → IsEarliest loc u (max_ℤ i (u -ℤ (loc i).off))
InPeriod-IsEarliest loc u i l un p =
    let r = max_ℤ i (u -ℤ (loc i).off) in
    let (a, b) = max_ℤ_cases i (u -ℤ (loc i).off) in
    record {
      reached = wall_reached u r (loc i).off (loc r).off (l.constant i r a p) b;
      earliest = λ t h. elim (lt-or-le t i) [
        | inl early ↦ un t early
        | inr late ↦
            wall_before u t (loc i).off (loc t).off
              (l.constant i t late (InPeriod-earlier (loc i).stop t r p h))
              (below_max t i (u -ℤ (loc i).off) h late)
      ];
    }

-- A period that ends before the wall clock reaches `u` is passed over.
next_period-Unreached :
    (loc : Location) (u i x : ℤ)
    → IsLocation loc
    → Unreached loc u i
    → (loc i).stop ≡ some x
    → x +ℤ (loc i).off ≤ℤ u
    → Unreached loc u x
next_period-Unreached loc u i x l un e h t k = elim (lt-or-le t i) [
  | inl early ↦ un t early
  | inr late ↦
      wall_before_end u t x (loc i).off (loc t).off
        (l.constant i t late (subst (λ o. InPeriod o t) (sym e) k)) k h
]

-- The three ways of a round.
resolve_loop_forever :
    (n : ℕ) (loc : Location) (u i : ℤ)
    → (loc i).stop ≡ none
    → resolve_loop (suc n) loc u i ≡ some (max_ℤ i (u -ℤ (loc i).off))
unfolding resolve_loop
resolve_loop_forever n loc u i e = rw (e, resolve_loop)

resolve_loop_hit :
    (n : ℕ) (loc : Location) (u i x : ℤ)
    → (loc i).stop ≡ some x
    → ltb_ℤ u (x +ℤ (loc i).off) ≡ true
    → resolve_loop (suc n) loc u i ≡ some (max_ℤ i (u -ℤ (loc i).off))
unfolding resolve_loop
resolve_loop_hit n loc u i x e h = rw (e, h, resolve_loop)

resolve_loop_miss :
    (n : ℕ) (loc : Location) (u i x : ℤ)
    → (loc i).stop ≡ some x
    → ltb_ℤ u (x +ℤ (loc i).off) ≡ false
    → resolve_loop (suc n) loc u i ≡ resolve_loop n loc u x
unfolding resolve_loop
resolve_loop_miss n loc u i x e h = rw (e, h, resolve_loop)

-- A zone keeps each offset for three hours at least, between two transitions.
pub record IsSpaced (loc : Location) : Type 0 where
  pub spaced : (t e e' : ℤ) → (loc t).stop ≡ some e → (loc e).stop ≡ some e' → e +ℤ pos 10800 ≤ℤ e'

-- What the loop comes to.
record Resolves (n : ℕ) (loc : Location) (u i : ℤ) : Type 0 where
  instant : ℤ
  returned : resolve_loop n loc u i ≡ some instant
  is_earliest : IsEarliest loc u instant

-- `n` rounds of three hours lead past `u` by the largest offset.
abbrev Room : ℕ → ℤ → ℤ → Type 0
Room n u i = u +ℤ two_days ≤ℤ i +ℤ pos (n * 10800)

hit-Resolves :
    (n : ℕ) (loc : Location) (u i : ℤ)
    → IsLocation loc
    → Unreached loc u i
    → InPeriod (loc i).stop (max_ℤ i (u -ℤ (loc i).off))
    → resolve_loop (suc n) loc u i ≡ some (max_ℤ i (u -ℤ (loc i).off))
    → Resolves (suc n) loc u i
hit-Resolves n loc u i l un p e = record {
  instant = max_ℤ i (u -ℤ (loc i).off);
  returned = e;
  is_earliest = InPeriod-IsEarliest loc u i l un p;
}

max_ℤ-lt : (a b x : ℤ) → a <ℤ x → b <ℤ x → max_ℤ a b <ℤ x
max_ℤ-lt a b x h k = ground arith

sub-lt : (u x o : ℤ) → u <ℤ x +ℤ o → u -ℤ o <ℤ x
sub-lt u x o h = omega int_laws

-- A round that does not return goes on, from the end of its period.
miss-Resolves :
    (n : ℕ) (loc : Location) (u i x : ℤ)
    → (loc i).stop ≡ some x
    → ltb_ℤ u (x +ℤ (loc i).off) ≡ false
    → Resolves n loc u x
    → Resolves (suc n) loc u i
miss-Resolves n loc u i x e h r = record {
  instant = r.instant;
  returned = resolve_loop_miss n loc u i x e h ∙ r.returned;
  is_earliest = r.is_earliest;
}

round-Resolves :
    (n : ℕ) (loc : Location) (u i : ℤ)
    → IsLocation loc
    → Unreached loc u i
    → ((x : ℤ)
        → (loc i).stop ≡ some x
        → i <ℤ x
        → x +ℤ (loc i).off ≤ℤ u
        → Unreached loc u x
        → Resolves n loc u x)
    → Resolves (suc n) loc u i
round-Resolves n loc u i l un rest = elim (Option-cases (loc i).stop) [
  | inl never ↦
      hit-Resolves n loc u i l un
        (subst (λ o. InPeriod o (max_ℤ i (u -ℤ (loc i).off))) (sym never) tt)
        (resolve_loop_forever n loc u i never)
  | inr (x, e) ↦
      let after : i <ℤ x = subst (λ o. InPeriod o i) e (l.inside i) in
      elim (Bool-cases (ltb_ℤ u (x +ℤ (loc i).off))) [
        | inl hit ↦
            let far : u -ℤ (loc i).off <ℤ x =
              sub-lt u x (loc i).off (ltb_ℤ→lt u (x +ℤ (loc i).off) hit) in
            hit-Resolves n loc u i l un
              (subst (λ o. InPeriod o (max_ℤ i (u -ℤ (loc i).off))) (sym e)
                (max_ℤ-lt i (u -ℤ (loc i).off) x after far))
              (resolve_loop_hit n loc u i x e hit)
        | inr miss ↦
            let low : x +ℤ (loc i).off ≤ℤ u = not-ltb_ℤ→le u (x +ℤ (loc i).off) miss in
            miss-Resolves n loc u i x e miss
              (rest x e after low (next_period-Unreached loc u i x l un e low))
      ]
]

no-Room : (u i x o : ℤ) → Room 0 u i → i <ℤ x → pos 0 ≤ℤ o +ℤ two_days → x +ℤ o ≤ℤ u → ⊥
no-Room u i x o r h low k = omega int_laws

less-Room : (n : ℕ) (u i x : ℤ) → Room (suc n) u i → i +ℤ pos 10800 ≤ℤ x → Room n u x
less-Room n u i x r h = omega int_laws

-- From the end of a period the loop returns within the rounds that there is room for.
resolve_loop-Resolves :
    (n : ℕ) (loc : Location) (u t i : ℤ)
    → IsLocation loc
    → IsSpaced loc
    → (loc t).stop ≡ some i
    → Unreached loc u i
    → Room n u i
    → Resolves (suc n) loc u i
resolve_loop-Resolves zero loc u t i l sp en un r =
    round-Resolves zero loc u i l un
      λ x e after low un'. absurd (no-Room u i x (loc i).off r after (l.off_low i) low)
resolve_loop-Resolves (suc n) loc u t i l sp en un r =
    round-Resolves (suc n) loc u i l un λ x e after low un'.
      resolve_loop-Resolves n loc u i x l sp e un' (less-Room n u i x r (sp.spaced t i x en e))

start-Unreached : (loc : Location) (u : ℤ) → IsLocation loc → Unreached loc u (u -ℤ two_days)
start-Unreached loc u l t h = let high = l.off_high t in omega int_laws

start-Room : (u x : ℤ) → u -ℤ two_days <ℤ x → Room 62 u x
start-Room u x h = omega int_laws

-- In a zone that keeps its offsets for three hours or more the loop of 64 rounds always returns,
-- and `resolve` gives the earliest instant whose wall clock reads the civil time or later.
pub resolve-IsEarliest :
    (c : Civil) (loc : Location)
    → IsLocation loc
    → IsSpaced loc
    → IsEarliest loc (unix c) (resolve c loc)
unfolding resolve
resolve-IsEarliest c loc l sp =
    let u = unix c in
    let i = u -ℤ two_days in
    let r : Resolves 64 loc u i =
      round-Resolves 63 loc u i l (start-Unreached loc u l)
        λ x e after low un'. resolve_loop-Resolves 62 loc u i x l sp e un' (start-Room u x after) in
    rw (r.returned, resolve) r.is_earliest
