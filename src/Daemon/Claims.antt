-- ===== src/Daemon/Claims.antt =====
-- claimDue of internal/daemon/schedule.go: the due occurrence of a schedule is claimed in the
-- transaction that advances the schedule, and the missed ones become one row of history.
use herdr_woof.Prelude.{
  ℕ, ◌+◌, ◌-◌, Bool, true, false, not, ◌&&◌, ◌||◌, Option, none, some, List, [], ◌∷◌, ltb, ◌==◌,
  if◌then◌else◌,
}
use herdr_woof.Prelude.Int.{ℤ, pos, ◌-ℤ◌, ltb_ℤ}
use herdr_woof.Prelude.Text.{codes}
use herdr_woof.Prelude.Result.{Result, ok, err, ◌>>=◌}
use herdr_woof.Schedule.Every.{Due}
use herdr_woof.Schedule.Expr.{Expr, ExprError, expr_due}
use herdr_woof.Daemon.Model.{
  Code, Schedule, ScheduleRun, MissedPolicy, OccurrenceState, OccurrenceKey, Outcome, Trigger,
  EventType,
}
use herdr_woof.Daemon.Store.{Db, get, put_schedule, is_removed, event}
use herdr_woof.Daemon.Occurrences.{
  the_daemon, Fresh, NewRun, schedule_scope, runs_in_state, key_exists, is_outstanding,
  cancel_outstanding, create_run, put_run,
}
use herdr_woof.Daemon.Schedules.{
  Moment, now_of, milli, at_milli, millis, millis_or_zero, advance, revised,
}

abbrev pub due_limit : ℕ
due_limit = 10000

abbrev pub missed_grace : ℤ
missed_grace = pos 60000000000

unfoldable pub is_due : ℕ → Schedule → Bool
is_due now sc =
    sc.enabled
    && not (is_removed sc.state)
    && not (sc.next_run_at == 0)
    && not (ltb now sc.next_run_at)

abbrev pub due_result : Result ExprError Due → Result Code Due
due_result (ok due) = ok due
due_result (err e) = err Code.internal_error

-- Due over the times of the daemon.
unfoldable pub due_from : Moment → Expr → Schedule → ℤ → ℤ → Result Code Due
unfolding expr_due
due_from m expr sc from until =
    due_result (expr_due m.here expr from until (some (at_milli sc.anchor_at)) due_limit)

-- A time that has come is due, also if the expression has no occurrence there. Two occurrences in
-- one millisecond make such a time.
unfoldable pub or_itself : ℤ → Due → Due
or_itself at due =
    if due.count == 0
    then record { count = 1; first = some at; latest = some at; capped = due.capped }
    else due

-- The first and the latest of an answer that has counted one at least.
abbrev pub instant : Option ℤ → ℤ
instant (some t) = t
instant none = pos 0

abbrev pub is_skip : MissedPolicy → Bool
is_skip MissedPolicy.skip = true
is_skip MissedPolicy.latest = false

unfoldable pub fires : Moment → Schedule → Due → Bool
fires m sc due =
    not (is_skip sc.missed) || not (ltb_ℤ missed_grace (pos m.clock -ℤ instant due.latest))

-- How many occurrences were missed, and the last of them.
unfoldable pub missed_of : Moment → Expr → Schedule → Bool → Due → Result Code (ℕ × Option ℤ)
unfolding due_from
missed_of m expr sc fire due =
    if not fire
    then ok (due.count, due.latest)
    else if ltb 0 (due.count - 1) && not due.capped
    then (do
      before ← due_from m expr sc (instant due.first) (instant due.latest -ℤ pos milli)
      ok (due.count - 1, before.latest))
    else ok (due.count - 1, none)

abbrev pub missed_new : Due → ℕ × Option ℤ → NewRun
missed_new due missed = record {
  occurrence_key = OccurrenceKey.missed_from (millis (instant due.first));
  trigger = Trigger.scheduled;
  missed = true;
  reason = if due.capped then Outcome.missed_at_least missed.0 else Outcome.missed_exactly missed.0;
  scheduled_for = millis (instant due.first);
  missed_count = missed.0;
  missed_last = millis_or_zero missed.1;
  request_id = 0;
}

unfoldable pub claim_missed : Fresh → Schedule → Due → ℕ × Option ℤ → Db → Result Code Db
unfolding key_exists create_run
claim_missed f sc due missed db =
    if key_exists sc.id (missed_new due missed).occurrence_key db.schedule_runs || missed.0 == 0
    then ok db
    else (do (_, db1) ← create_run f the_daemon sc (missed_new due missed) db; ok db1)

unfoldable pub skipped : ℕ → ℕ → ScheduleRun → ScheduleRun
skipped now at run = record run {
  skipped_count = run.skipped_count + 1;
  skipped_last = at;
  updated_at = now;
}

-- What is claimed, if anything, and the schedule with it.
abbrev pub Claimed : Type 0
Claimed = Result Code (Option ScheduleRun × Schedule × Db)

abbrev pub timed_new : ℕ → NewRun
timed_new at = record {
  occurrence_key = OccurrenceKey.at_time at;
  trigger = Trigger.scheduled;
  missed = false;
  reason = Outcome.no_outcome;
  scheduled_for = at;
  missed_count = 0;
  missed_last = pos 0;
  request_id = 0;
}

unfoldable pub claim_run : Fresh → Schedule → ℕ → Db → Claimed
unfolding create_run
claim_run f sc at db = do
  (run, db1) ← create_run f the_daemon sc (timed_new at) db
  ok (some run, record sc { last_run_id = run.id; last_run_at = at }, db1)

-- An occurrence that is outstanding holds the schedule: this one is counted on it.
abbrev pub claim_or_skip : Fresh → Schedule → ℕ → List ScheduleRun → Db → Claimed
claim_or_skip f sc at [] db = claim_run f sc at db
claim_or_skip f sc at (run ∷ _) db = do
  db1 ←
      put_run (EventType.occurrence_now OccurrenceState.skipped) the_daemon sc
        (skipped f.now at run) db
  ok (none, record sc { last_run_at = at }, db1)

unfoldable pub claim_latest : Fresh → Schedule → Bool → Due → Db → Claimed
unfolding key_exists runs_in_state claim_run put_run skipped
claim_latest f sc fire due db =
    let at = millis (instant due.latest) in
    if fire && not (key_exists sc.id (OccurrenceKey.at_time at) db.schedule_runs)
    then claim_or_skip f sc at (runs_in_state sc.id is_outstanding db.schedule_runs) db
    else ok (none, sc, db)

-- The expression of a stored schedule is refused, which takes a zone that the host no longer knows.
unfoldable pub disable_invalid : ℕ → Schedule → Db → Result Code Db
unfolding cancel_outstanding put_schedule event schedule_scope
disable_invalid now sc db = do
  let sc1 = record sc { enabled = false; next_run_at = 0; revision = sc.revision + 1 }
  db1 ←
      cancel_outstanding now (Outcome.reason (codes "schedule expression is no longer valid"))
        the_daemon sc1 db
  schedules ← put_schedule sc1.id sc1 db1.schedules
  ok (
      event EventType.schedule_disabled (schedule_scope sc1) the_daemon.0 the_daemon.1
        (record db1 { schedules = schedules }))

unfoldable pub claim_with :
    Moment → Fresh → Fresh → Expr → Schedule → Db → Result Code (Option ScheduleRun × Db)
unfolding due_from or_itself fires missed_of advance claim_missed claim_latest put_schedule
claim_with m for_missed f expr sc db = do
  found ← due_from m expr sc (at_milli sc.next_run_at) (pos m.clock)
  let due = or_itself (at_milli sc.next_run_at) found
  let fire = fires m sc due
  missed ← missed_of m expr sc fire due
  (sc1, db1) ← advance m expr the_daemon sc db
  db2 ← claim_missed for_missed sc1 due missed db1
  (run, sc2, db3) ← claim_latest f sc1 fire due db2
  let sc3 = revised (now_of m) sc2
  schedules ← put_schedule sc3.id sc3 db3.schedules
  ok (run, record db3 { schedules = schedules })

abbrev pub claim_expr :
    Moment → Fresh → Fresh → Schedule → Option Expr → Db → Result Code (Option ScheduleRun × Db)
claim_expr m for_missed f sc none db = do db1 ← disable_invalid (now_of m) sc db; ok (none, db1)
claim_expr m for_missed f sc (some expr) db = claim_with m for_missed f expr sc db

unfoldable pub claim_due : Moment → Fresh → Fresh → ℕ → Db → Result Code (Option ScheduleRun × Db)
unfolding is_due claim_with disable_invalid
claim_due m for_missed f id db = do
  sc ← get db.schedules id
  if not (is_due (now_of m) sc) then ok (none, db) else claim_expr m for_missed f sc sc.expr db
