-- ===== src/Daemon/Scheduling/Progress.antt =====
-- A claim takes its schedule forward (claimDue and advance of internal/daemon/schedule.go): the loop
-- cannot stall on a time that has passed.
use herdr_woof.Prelude.{
  ℕ, ◌+◌, ◌*◌, ◌/◌, ◌<◌, lt-or-le_ℕ, ◌≡◌, refl, sym, ap, ◌∙◌, subst, ◌⊎◌, inl, inr, Bool, true,
  false, not, ◌&&◌, ◌||◌, Option, some, none, List, [], ◌∷◌, arith,
}
use herdr_woof.Prelude.Int.{ℤ, pos, negsuc, ◌<ℤ◌}
use herdr_woof.Prelude.Text.{codes}
use herdr_woof.Prelude.Result.{Result, ok, err, ok-inj, ok_steps, by_branch}
use herdr_woof.Schedule.Every.{Due}
use herdr_woof.Schedule.Expr.{Expr, ExprError, expr_next}
use herdr_woof.Schedule.Expr.Later.{expr_next_later}
use herdr_woof.Daemon.Model.{
  Schedule, ScheduleRun, OccurrenceKey, OccurrenceState, Outcome, EventType,
}
use herdr_woof.Daemon.Store.{Db, find, get, put_schedule, event}
use herdr_woof.Daemon.Occurrences.{
  By, the_daemon, Fresh, cancel_outstanding, create_run, put_run, runs_in_state, is_outstanding,
  key_exists,
}
use herdr_woof.Daemon.Schedules.{
  Moment, now_of, milli, millis, at_milli, is_active, advanced, advance, revised,
}
use herdr_woof.Daemon.Claims.{
  is_due, due_from, or_itself, fires, missed_of, claim_missed, claim_run, claim_or_skip,
  claim_latest, skipped, timed_new, instant, disable_invalid, claim_with, claim_expr, claim_due,
}
use herdr_woof.Daemon.Scheduling.Cancel.{put_schedule_row}

-- Not due again in the current millisecond, or the next time is an instant of it still to come.
abbrev pub IsNotDue : ℕ → ℕ → ℤ → Type 0
IsNotDue clock next_run_at t =
    (clock / milli < next_run_at) ⊎ (t <ℤ pos ((clock / milli + 1) * milli))

-- The schedule is off, or its next time is the first occurrence of its expression after the clock.
abbrev pub IsAhead : Moment → Schedule → Type 0
IsAhead m sc =
    (sc.enabled ≡ false)
    ⊎ ((e : Expr) × (t : ℤ) × (sc.expr ≡ some e)
        × (expr_next m.here e (pos m.clock) (some (at_milli sc.anchor_at)) ≡ ok t)
        × (pos m.clock <ℤ t)
        × (sc.next_run_at ≡ millis t)
        × IsNotDue m.clock sc.next_run_at t)

later_millis : (clock : ℕ) (t : ℤ) → pos clock <ℤ t → IsNotDue clock (millis t) t
later_millis clock (pos n) h = elim (lt-or-le_ℕ (clock / milli) (n / milli)) [
  | inl after ↦ inl after
  | inr not_after ↦ inr (omega arith)
]
later_millis clock (negsuc n) h = absurd (omega arith)

-- The schedule with another time or without one; nothing else of it matters here.
record IsMoved (m : Moment) (sc sc' : Schedule) : Type 0 where
  same_id : sc'.id ≡ sc.id
  ahead : IsAhead m sc'

advanced-IsMoved :
    (m : Moment) (by : By) (expr : Expr) (sc sc' : Schedule) (db db' : Db)
    (next : Result ExprError ℤ)
    → sc.expr ≡ some expr
    → next ≡ expr_next m.here expr (pos m.clock) (some (at_milli sc.anchor_at))
    → advanced m by sc db next ≡ ok (sc', db')
    → IsMoved m sc sc'
advanced-IsMoved m by expr sc sc' db db' (ok t) own e h =
    let later =
      expr_next_later m.here expr (pos m.clock) t (some (at_milli sc.anchor_at)) (sym e) in
    subst {A = Schedule × Db} (λ z. IsMoved m sc z.0) (ok-inj h)
      (record {
        same_id = refl;
        ahead = inr (expr, t, own, sym e, later, refl, later_millis m.clock t later);
      })
advanced-IsMoved m by expr sc sc' db db' (err e) own _ h =
    let why = Outcome.reason (codes "schedule has no future occurrence") in
    let sc1 = record sc { enabled = false } in
    let (db1, c, k) = ok_steps (cancel_outstanding (now_of m) why by sc1 db) _ h in
    subst {A = Schedule × Db} (λ z. IsMoved m sc z.0) (ok-inj k)
      (record { same_id = refl; ahead = inl refl })

not_on : (a b : Bool) → not a || not b ≡ true → b ≡ true → a ≡ false
not_on a b h k = ground arith

advance-IsMoved :
    (m : Moment) (expr : Expr) (by : By) (sc sc' : Schedule) (db db' : Db)
    → is_active sc ≡ true
    → sc.expr ≡ some expr
    → advance m expr by sc db ≡ ok (sc', db')
    → IsMoved m sc sc'
unfolding advance
advance-IsMoved m expr by sc sc' db db' active own h =
    let sc0 = record sc { next_run_at = 0 } in
    let next = expr_next m.here expr (pos m.clock) (some (at_milli sc.anchor_at)) in
    by_branch (not sc.enabled || not (is_active sc)) (ok (sc0, db)) (advanced m by sc0 db next) h
      (λ p k.
        subst {A = Schedule × Db} (λ z. IsMoved m sc z.0) (ok-inj k)
          (record { same_id = refl; ahead = inl (not_on sc.enabled (is_active sc) p active) }))
      (λ _ k.
        let r = advanced-IsMoved m by expr sc0 sc' db db' next own refl k in
        record { same_id = r.same_id; ahead = r.ahead })

-- The claim of an occurrence leaves the times of the schedule to come.
record IsSame (sc sc' : Schedule) : Type 0 where
  id : sc'.id ≡ sc.id
  enabled : sc'.enabled ≡ sc.enabled
  next_run_at : sc'.next_run_at ≡ sc.next_run_at
  expr : sc'.expr ≡ sc.expr
  anchor_at : sc'.anchor_at ≡ sc.anchor_at

IsSame-refl : (sc : Schedule) → IsSame sc sc
IsSame-refl sc = record {
  id = refl;
  enabled = refl;
  next_run_at = refl;
  expr = refl;
  anchor_at = refl;
}

claim_or_skip-IsSame :
    (f : Fresh) (sc sc' : Schedule) (at : ℕ) (runs : List ScheduleRun) (run : Option ScheduleRun)
    (db db' : Db)
    → claim_or_skip f sc at runs db ≡ ok (run, sc', db')
    → IsSame sc sc'
unfolding claim_run
claim_or_skip-IsSame f sc sc' at [] run db db' h =
    let ((run1, db1), c, k) = ok_steps (create_run f the_daemon sc (timed_new at) db) _ h in
    subst {A = Option ScheduleRun × Schedule × Db} (λ z. IsSame sc z.1) (ok-inj k)
      (record { id = refl; enabled = refl; next_run_at = refl; expr = refl; anchor_at = refl })
claim_or_skip-IsSame f sc sc' at (held ∷ others) run db db' h =
    let (db1, p, k) =
      ok_steps
        (put_run (EventType.occurrence_now OccurrenceState.skipped) the_daemon sc
          (skipped f.now at held) db)
        _ h in
    subst {A = Option ScheduleRun × Schedule × Db} (λ z. IsSame sc z.1) (ok-inj k)
      (record { id = refl; enabled = refl; next_run_at = refl; expr = refl; anchor_at = refl })

claim_latest-IsSame :
    (f : Fresh) (sc sc' : Schedule) (fire : Bool) (due : Due) (run : Option ScheduleRun)
    (db db' : Db)
    → claim_latest f sc fire due db ≡ ok (run, sc', db')
    → IsSame sc sc'
unfolding claim_latest
claim_latest-IsSame f sc sc' fire due run db db' h =
    let at = millis (instant due.latest) in
    let runs = runs_in_state sc.id is_outstanding db.schedule_runs in
    by_branch (fire && not (key_exists sc.id (OccurrenceKey.at_time at) db.schedule_runs))
      (claim_or_skip f sc at runs db) (ok (none, sc, db)) h
      (λ _ k. claim_or_skip-IsSame f sc sc' at runs run db db' k)
      (λ _ k.
        subst {A = Option ScheduleRun × Schedule × Db} (λ z. IsSame sc z.1) (ok-inj k)
          (IsSame-refl sc))

same-IsAhead : (m : Moment) (sc sc' : Schedule) → IsSame sc sc' → IsAhead m sc → IsAhead m sc'
same-IsAhead m sc sc' s (inl off) = inl (s.enabled ∙ off)
same-IsAhead m sc sc' s (inr (e, t, own, next, later, at, not_due)) = inr (
  e,
  t,
  s.expr ∙ own,
  subst (λ a. expr_next m.here e (pos m.clock) (some (at_milli a)) ≡ ok t) (sym s.anchor_at) next,
  later,
  s.next_run_at ∙ at,
  subst (λ n. IsNotDue m.clock n t) (sym s.next_run_at) not_due,
)

-- The schedule that a database has stored under an id lies ahead.
abbrev pub IsStoredAhead : Moment → ℕ → Db → Type 0
IsStoredAhead m id db = (x : Schedule) × (find db.schedules id ≡ some x) × IsAhead m x

claim_with-IsStoredAhead :
    (m : Moment) (for_missed f : Fresh) (expr : Expr) (sc : Schedule) (run : Option ScheduleRun)
    (db db' : Db)
    → is_active sc ≡ true
    → sc.expr ≡ some expr
    → claim_with m for_missed f expr sc db ≡ ok (run, db')
    → IsStoredAhead m sc.id db'
unfolding claim_with
claim_with-IsStoredAhead m for_missed f expr sc run db db' active own_expr h =
    let (found, _, h1) =
      ok_steps (due_from m expr sc (at_milli sc.next_run_at) (pos m.clock)) _ h in
    let due = or_itself (at_milli sc.next_run_at) found in
    let fire = fires m sc due in
    let (missed, _, h2) = ok_steps (missed_of m expr sc fire due) _ h1 in
    let ((sc1, db1), a, h3) = ok_steps (advance m expr the_daemon sc db) _ h2 in
    let (db2, _, h4) = ok_steps (claim_missed for_missed sc1 due missed db1) _ h3 in
    let ((run1, sc2, db3), c, h5) = ok_steps (claim_latest f sc1 fire due db2) _ h4 in
    let sc3 = revised (now_of m) sc2 in
    let (schedules, p, h6) = ok_steps (put_schedule sc3.id sc3 db3.schedules) _ h5 in
    let moved = advance-IsMoved m expr the_daemon sc sc1 db db1 active own_expr a in
    let same = claim_latest-IsSame f sc1 sc2 fire due run1 db2 db3 c in
    let own : sc2.id ≡ sc.id = same.id ∙ moved.same_id in
    let stored : find schedules sc.id ≡ some sc3 =
      subst (λ i. find schedules i ≡ some sc3) own (put_schedule_row sc3 db3.schedules p) in
    let e : schedules ≡ db'.schedules =
      ap {A = Option ScheduleRun × Db} (λ z. z.1.schedules) (ok-inj h6) in
    (sc3, subst (λ t. find t sc.id ≡ some sc3) e stored, same-IsAhead m sc1 sc2 same moved.ahead)

disable_invalid-IsStoredAhead :
    (m : Moment) (now : ℕ) (sc : Schedule) (db db' : Db)
    → disable_invalid now sc db ≡ ok db'
    → IsStoredAhead m sc.id db'
unfolding disable_invalid event
disable_invalid-IsStoredAhead m now sc db db' h =
    let sc1 = record sc { enabled = false; next_run_at = 0; revision = sc.revision + 1 } in
    let why = Outcome.reason (codes "schedule expression is no longer valid") in
    let (db1, c, k) = ok_steps (cancel_outstanding now why the_daemon sc1 db) _ h in
    let (schedules, p, k1) = ok_steps (put_schedule sc1.id sc1 db1.schedules) _ k in
    let e : schedules ≡ db'.schedules = ap {A = Db} (λ z. z.schedules) (ok-inj k1) in
    (sc1, subst (λ t. find t sc.id ≡ some sc1) e (put_schedule_row sc1 db1.schedules p), inl refl)

claim_expr-IsStoredAhead :
    (m : Moment) (for_missed f : Fresh) (sc : Schedule) (expr : Option Expr)
    (run : Option ScheduleRun) (db db' : Db)
    → is_active sc ≡ true
    → sc.expr ≡ expr
    → claim_expr m for_missed f sc expr db ≡ ok (run, db')
    → IsStoredAhead m sc.id db'
claim_expr-IsStoredAhead m for_missed f sc none run db db' active own h =
    let (db1, c, k) = ok_steps (disable_invalid (now_of m) sc db) _ h in
    subst {A = Option ScheduleRun × Db} (λ z. IsStoredAhead m sc.id z.1) (ok-inj k)
      (disable_invalid-IsStoredAhead m (now_of m) sc db db1 c)
claim_expr-IsStoredAhead m for_missed f sc (some expr) run db db' active own h =
    claim_with-IsStoredAhead m for_missed f expr sc run db db' active own h

due_active : (now : ℕ) (sc : Schedule) → is_due now sc ≡ true → is_active sc ≡ true
unfolding is_due
due_active now sc h = ground arith

-- A claim of a due schedule that commits stores it as disabled, or with the next time of its
-- expression, an instant strictly after the clock, in milliseconds: the schedule is not due again in
-- the current millisecond, unless that instant still to come lies within it. This holds too where
-- the occurrence was claimed before or is held back.
pub claim_due-IsStoredAhead :
    (m : Moment) (for_missed f : Fresh) (id : ℕ) (sc : Schedule) (run : Option ScheduleRun)
    (db db' : Db)
    → get db.schedules id ≡ ok sc
    → sc.id ≡ id
    → is_due (now_of m) sc ≡ true
    → claim_due m for_missed f id db ≡ ok (run, db')
    → IsStoredAhead m id db'
unfolding claim_due
claim_due-IsStoredAhead m for_missed f id sc run db db' g named due h =
    let (sc0, g0, h1) = ok_steps (get db.schedules id) _ h in
    let same : sc0 ≡ sc = ok-inj (sym g0 ∙ g) in
    let own : sc0.id ≡ id = ap (λ z. z.id) same ∙ named in
    let due0 : is_due (now_of m) sc0 ≡ true = ap (is_due (now_of m)) same ∙ due in
    subst (λ i. IsStoredAhead m i db') own
      (by_branch (not (is_due (now_of m) sc0)) (ok (none, db))
        (claim_expr m for_missed f sc0 sc0.expr db) h1 (λ p _. cc)
        (λ _ k.
          claim_expr-IsStoredAhead m for_missed f sc0 sc0.expr run db db'
            (due_active (now_of m) sc0 due0) refl k))
