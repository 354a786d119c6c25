-- ===== src/Daemon/Scheduling/Due.antt =====
-- scheduleAdd, scheduleManualRun and claimDue of internal/daemon/schedule.go over the table of
-- occurrences.
use herdr_woof.Prelude.{
  ℕ, ◌+◌, ◌≡◌, refl, sym, ap, ◌∙◌, subst, Bool, false, not, ◌&&◌, ◌||◌, Option, some, none, List,
  [], ◌∷◌, ◌==◌, arith,
}
use herdr_woof.Prelude.Int.{ℤ, pos}
use herdr_woof.Prelude.Text.{codes}
use herdr_woof.Prelude.Result.{ok, ok-inj, ok_steps, refuse_passed, by_branch}
use herdr_woof.Schedule.Every.{Due}
use herdr_woof.Schedule.Expr.{Expr}
use herdr_woof.Daemon.Model.{
  Code, Schedule, ScheduleRun, OccurrenceState, OccurrenceKey, Outcome, EventType, Resource, Reply,
  OperationState, terminal_recipient,
}
use herdr_woof.Daemon.Store.{Table, Db, find, get, put_schedule, is_removed, event}
use herdr_woof.Daemon.Store.Listed.{Listed}
use herdr_woof.Daemon.Settle.{finish_op}
use herdr_woof.Daemon.Occurrences.{
  By, the_daemon, Fresh, is_outstanding, runs_in_state, cancel_outstanding, create_run,
  schedule_scope, put_run, key_exists,
}
use herdr_woof.Daemon.Schedules.{
  Moment, now_of, at_milli, millis, advance, operation_resource, finish_request, schedule_add_tx,
  is_empty, manual_run_tx, manual_new, with_last_run, revised,
}
use herdr_woof.Daemon.Claims.{
  is_due, due_from, or_itself, fires, missed_of, claim_missed, claim_latest, claim_or_skip,
  claim_run, missed_new, timed_new, skipped, disable_invalid, claim_with, claim_expr, claim_due,
  instant,
}
use herdr_woof.Daemon.Scheduling.{IsSoundRun, AreSoundRuns, IsRunAdvance}
use herdr_woof.Daemon.Scheduling.Advance.{IsRunAdvance-refl, IsRunAdvance-trans}
use herdr_woof.Daemon.Scheduling.Moves.{skipped-RunEvolves}
use herdr_woof.Daemon.Scheduling.Puts.{
  cancel_outstanding-IsRunAdvance, put_run_changed, run_id_of, runs_in_state-Listed,
}
use herdr_woof.Daemon.Scheduling.Claims.{
  IsIdle, none_outstanding, create_run-IsRunAdvance, create_run_absent,
}
use herdr_woof.Daemon.Scheduling.Series.{
  advance-IsRunAdvance, advance-IsUpdate, finish_request_runs,
}

operation_resource_runs :
    (now request : ℕ) (made : Resource) (db : Db) {db' : Db}
    → operation_resource now request made db ≡ ok db'
    → db.schedule_runs ≡ db'.schedule_runs
unfolding operation_resource
operation_resource_runs now request made db h = ground arith

pub schedule_add-IsRunAdvance :
    (m : Moment) (request : ℕ) (by : By) (expr : Expr) (sc : Schedule) (db db' : Db)
    → AreSoundRuns db.schedule_runs
    → schedule_add_tx m request by expr sc db ≡ ok db'
    → IsRunAdvance db.schedule_runs db'.schedule_runs
unfolding schedule_add_tx event
schedule_add-IsRunAdvance m request by expr sc db db' s h =
    let (w, _, h1) = ok_steps (get db.workers sc.worker_id) _ h in
    let (_, h2) =
      refuse_passed (terminal_recipient w || not (w.workspace_id == sc.workspace_id))
        Code.worker_not_live _ h1 in
    let ((sc1, db1), a, h3) = ok_steps (advance m expr by sc db) _ h2 in
    let (schedules, _, h4) = ok_steps (put_schedule sc1.id sc1 db1.schedules) _ h3 in
    let db2 = record db1 { schedules = schedules } in
    let made = Resource.of_schedule sc1.id in
    let (db3, r, h5) = ok_steps (operation_resource (now_of m) request made db2) _ h4 in
    let e : db1.schedule_runs ≡ db3.schedule_runs =
      operation_resource_runs (now_of m) request made db2 r in
    let db4 = event EventType.schedule_created (schedule_scope sc1) by.0 by.1 db3 in
    let (operations, _, h6) =
      ok_steps
        (finish_op (now_of m) request (Reply.of_schedule sc1) none OperationState.completed
          db4.operations)
        _ h5 in
    let e' : db3.schedule_runs ≡ db'.schedule_runs = ap (λ z. z.schedule_runs) (ok-inj h6) in
    subst (IsRunAdvance db.schedule_runs) (e ∙ e')
      (advance-IsRunAdvance m expr by sc sc1 db db1 s a)

is_empty_lem {ℓ} : {A : Type ℓ} (xs : List A) → not (is_empty xs) ≡ false → xs ≡ []
is_empty_lem [] h = refl
is_empty_lem (x ∷ xs) h = cc

pub manual_run-IsRunAdvance :
    (f : Fresh) (request : ℕ) (by : By) (id : ℕ) (run : ScheduleRun) (db db' : Db)
    → AreSoundRuns db.schedule_runs
    → find db.schedule_runs f.run ≡ none
    → manual_run_tx f request by id db ≡ ok (run, db')
    → IsRunAdvance db.schedule_runs db'.schedule_runs
unfolding manual_run_tx
manual_run-IsRunAdvance f request by id run db db' s fresh h =
    let (sc, _, h1) = ok_steps (get db.schedules id) _ h in
    let (_, h2) = refuse_passed (is_removed sc.state) Code.schedule_removed _ h1 in
    let (free, h3) =
      refuse_passed (not (is_empty (runs_in_state sc.id is_outstanding db.schedule_runs)))
        Code.run_outstanding _ h2 in
    let idle =
      none_outstanding db.schedule_runs sc.id
        (is_empty_lem (runs_in_state sc.id is_outstanding db.schedule_runs) free) in
    let ((run1, db1), c, h4) = ok_steps (create_run f by sc (manual_new f.now request) db) _ h3 in
    let sc1 = with_last_run f.now run1 sc in
    let (schedules, _, h5) = ok_steps (put_schedule sc1.id sc1 db1.schedules) _ h4 in
    let db2 = record db1 { schedules = schedules } in
    let (db3, r, h6) =
      ok_steps
        (finish_request f.now request (Resource.of_occurrence run1.id) (Reply.of_occurrence run1)
          db2)
        _ h5 in
    let e : db1.schedule_runs ≡ db3.schedule_runs =
      finish_request_runs f.now request (Resource.of_occurrence run1.id) (Reply.of_occurrence run1)
        db2 r in
    subst (IsRunAdvance db.schedule_runs) (e ∙ ap (λ z. z.1.schedule_runs) (ok-inj h6))
      (create_run-IsRunAdvance f by sc (manual_new f.now request) run1 db db1 s fresh (λ _. idle) c)

-- The row of history: an advance, and the id of the next occurrence stays free.
record IsSafeFor (j : ℕ) (rows rows' : Table ScheduleRun) : Type 0 where
  advance : IsRunAdvance rows rows'
  free : find rows j ≡ none → find rows' j ≡ none

claim_missed-IsSafeFor :
    (f : Fresh) (sc : Schedule) (due : Due) (missed : ℕ × Option ℤ) (db db' : Db) (j : ℕ)
    → AreSoundRuns db.schedule_runs
    → find db.schedule_runs f.run ≡ none
    → (f.run == j) ≡ false
    → claim_missed f sc due missed db ≡ ok db'
    → IsSafeFor j db.schedule_runs db'.schedule_runs
unfolding claim_missed
claim_missed-IsSafeFor f sc due missed db db' j s fresh other h =
    let n = missed_new due missed in
    by_branch (key_exists sc.id n.occurrence_key db.schedule_runs || missed.0 == 0) (ok db) _ h
      (λ _ k.
        subst (λ z. IsSafeFor j db.schedule_runs z.schedule_runs) (ok-inj k)
          (record { advance = IsRunAdvance-refl s; free = λ p. p }))
      (λ _ k.
        let ((run, db1), c, k1) = ok_steps (create_run f the_daemon sc n db) _ k in
        subst (λ z. IsSafeFor j db.schedule_runs z.schedule_runs) (ok-inj k1)
          (record {
            advance = create_run-IsRunAdvance f the_daemon sc n run db db1 s fresh (λ m. cc) c;
            free = λ p. create_run_absent f the_daemon sc n run db db1 j other p c;
          }))

claim_run-IsRunAdvance :
    (f : Fresh) (sc sc' : Schedule) (at : ℕ) (run : Option ScheduleRun) (db db' : Db)
    → AreSoundRuns db.schedule_runs
    → find db.schedule_runs f.run ≡ none
    → IsIdle db.schedule_runs sc.id
    → claim_run f sc at db ≡ ok (run, sc', db')
    → IsRunAdvance db.schedule_runs db'.schedule_runs
unfolding claim_run
claim_run-IsRunAdvance f sc sc' at run db db' s fresh idle h =
    let ((run1, db1), c, k) = ok_steps (create_run f the_daemon sc (timed_new at) db) _ h in
    subst (IsRunAdvance db.schedule_runs) (ap (λ z. z.2.schedule_runs) (ok-inj k))
      (create_run-IsRunAdvance f the_daemon sc (timed_new at) run1 db db1 s fresh (λ _. idle) c)

skipped_id : (now at : ℕ) (run : ScheduleRun) → (skipped now at run).id ≡ run.id
unfolding skipped
skipped_id now at run = refl

skipped-IsSoundRun :
    (now at : ℕ) (run : ScheduleRun) → IsSoundRun run → IsSoundRun (skipped now at run)
unfolding skipped
skipped-IsSoundRun now at run s = record { no_message = s.no_message; no_dispatch = s.no_dispatch }

claim_or_skip-IsRunAdvance :
    (f : Fresh) (sc sc' : Schedule) (at : ℕ) (runs : List ScheduleRun) (run : Option ScheduleRun)
    (db db' : Db)
    → AreSoundRuns db.schedule_runs
    → find db.schedule_runs f.run ≡ none
    → runs_in_state sc.id is_outstanding db.schedule_runs ≡ runs
    → claim_or_skip f sc at runs db ≡ ok (run, sc', db')
    → IsRunAdvance db.schedule_runs db'.schedule_runs
claim_or_skip-IsRunAdvance f sc sc' at [] run db db' s fresh e h =
    claim_run-IsRunAdvance f sc sc' at run db db' s fresh
      (none_outstanding db.schedule_runs sc.id e) h
claim_or_skip-IsRunAdvance f sc sc' at (held ∷ others) run db db' s fresh e h =
    let held' = skipped f.now at held in
    let (_, stored, _) =
      subst (Listed run_id_of db.schedule_runs 0) e
        (runs_in_state-Listed sc.id is_outstanding db.schedule_runs s) in
    let (db1, p, k) =
      ok_steps (put_run (EventType.occurrence_now OccurrenceState.skipped) the_daemon sc held' db) _
        h in
    subst (IsRunAdvance db.schedule_runs) (ap (λ z. z.2.schedule_runs) (ok-inj k)) (
      put_run_changed _ the_daemon sc held' held db s p
        (subst (λ i. find db.schedule_runs i ≡ some held) (sym (skipped_id f.now at held)) stored)
        (skipped-IsSoundRun f.now at held (s.sound held.id held stored))
        (skipped-RunEvolves f.now at held))

claim_latest-IsRunAdvance :
    (f : Fresh) (sc sc' : Schedule) (fire : Bool) (due : Due) (run : Option ScheduleRun)
    (db db' : Db)
    → AreSoundRuns db.schedule_runs
    → find db.schedule_runs f.run ≡ none
    → claim_latest f sc fire due db ≡ ok (run, sc', db')
    → IsRunAdvance db.schedule_runs db'.schedule_runs
unfolding claim_latest
claim_latest-IsRunAdvance f sc sc' fire due run db db' s fresh h =
    let at = millis (instant due.latest) in
    let runs = runs_in_state sc.id is_outstanding db.schedule_runs in
    by_branch (fire && not (key_exists sc.id (OccurrenceKey.at_time at) db.schedule_runs))
      (claim_or_skip f sc at runs db) _ h
      (λ _ k. claim_or_skip-IsRunAdvance f sc sc' at runs run db db' s fresh refl k)
      (λ _ k.
        subst (λ z. IsRunAdvance db.schedule_runs z.2.schedule_runs) (ok-inj k)
          (IsRunAdvance-refl s))

claim_with-IsRunAdvance :
    (m : Moment) (for_missed f : Fresh) (expr : Expr) (sc : Schedule) (run : Option ScheduleRun)
    (db db' : Db)
    → AreSoundRuns db.schedule_runs
    → find db.schedule_runs for_missed.run ≡ none
    → find db.schedule_runs f.run ≡ none
    → (for_missed.run == f.run) ≡ false
    → claim_with m for_missed f expr sc db ≡ ok (run, db')
    → IsRunAdvance db.schedule_runs db'.schedule_runs
unfolding claim_with
claim_with-IsRunAdvance m for_missed f expr sc run db db' s fresh fresh' other h =
    let (found, _, h1) =
      ok_steps (due_from m expr sc (at_milli sc.next_run_at) (pos m.clock)) _ h in
    let due = or_itself (at_milli sc.next_run_at) found in
    let fire = fires m sc due in
    let (missed, _, h2) = ok_steps (missed_of m expr sc fire due) _ h1 in
    let ((sc1, db1), a, h3) = ok_steps (advance m expr the_daemon sc db) _ h2 in
    let (db2, b, h4) = ok_steps (claim_missed for_missed sc1 due missed db1) _ h3 in
    let ((run1, sc2, db3), c, h5) = ok_steps (claim_latest f sc1 fire due db2) _ h4 in
    let sc3 = revised (now_of m) sc2 in
    let (schedules, _, h6) = ok_steps (put_schedule sc3.id sc3 db3.schedules) _ h5 in
    let first = advance-IsUpdate m expr the_daemon sc sc1 db db1 s a in
    let second =
      claim_missed-IsSafeFor for_missed sc1 due missed db1 db2 f.run first.advance.still_sound
        (first.absent for_missed.run fresh) other b in
    let third =
      claim_latest-IsRunAdvance f sc1 sc2 fire due run1 db2 db3 second.advance.still_sound
        (second.free (first.absent f.run fresh')) c in
    subst (IsRunAdvance db.schedule_runs) (ap (λ z. z.1.schedule_runs) (ok-inj h6))
      (IsRunAdvance-trans first.advance (IsRunAdvance-trans second.advance third))

disable_invalid-IsRunAdvance :
    (now : ℕ) (sc : Schedule) (db db' : Db)
    → AreSoundRuns db.schedule_runs
    → disable_invalid now sc db ≡ ok db'
    → IsRunAdvance db.schedule_runs db'.schedule_runs
unfolding disable_invalid event
disable_invalid-IsRunAdvance now sc db db' s h =
    let sc1 = record sc { enabled = false; next_run_at = 0; revision = sc.revision + 1 } in
    let why = Outcome.reason (codes "schedule expression is no longer valid") in
    let (db1, c, k) = ok_steps (cancel_outstanding now why the_daemon sc1 db) _ h in
    let (schedules, _, k1) = ok_steps (put_schedule sc1.id sc1 db1.schedules) _ k in
    subst (IsRunAdvance db.schedule_runs) (ap (λ z. z.schedule_runs) (ok-inj k1))
      (cancel_outstanding-IsRunAdvance now why the_daemon sc1 db db1 s c)

pub claim_due-IsRunAdvance :
    (m : Moment) (for_missed f : Fresh) (id : ℕ) (run : Option ScheduleRun) (db db' : Db)
    → AreSoundRuns db.schedule_runs
    → find db.schedule_runs for_missed.run ≡ none
    → find db.schedule_runs f.run ≡ none
    → (for_missed.run == f.run) ≡ false
    → claim_due m for_missed f id db ≡ ok (run, db')
    → IsRunAdvance db.schedule_runs db'.schedule_runs
unfolding claim_due
claim_due-IsRunAdvance m for_missed f id run db db' s fresh fresh' other h =
    let (sc, _, h1) = ok_steps (get db.schedules id) _ h in
    by_branch (not (is_due (now_of m) sc)) (ok (none, db)) (claim_expr m for_missed f sc sc.expr db)
      h1
      (λ _ k.
        subst (λ z. IsRunAdvance db.schedule_runs z.1.schedule_runs) (ok-inj k)
          (IsRunAdvance-refl s))
      (λ _ k. by_expr sc sc.expr k)
  where
    by_expr :
        (sc : Schedule) (expr : Option Expr)
        → claim_expr m for_missed f sc expr db ≡ ok (run, db')
        → IsRunAdvance db.schedule_runs db'.schedule_runs
    by_expr sc none k =
        let (db1, c, k1) = ok_steps (disable_invalid (now_of m) sc db) _ k in
        subst (λ z. IsRunAdvance db.schedule_runs z.1.schedule_runs) (ok-inj k1)
          (disable_invalid-IsRunAdvance (now_of m) sc db db1 s c)
    by_expr sc (some expr) k =
        claim_with-IsRunAdvance m for_missed f expr sc run db db' s fresh fresh' other k
