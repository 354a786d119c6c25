-- ===== src/Daemon/Scheduling/Series.antt =====
-- advance, scheduleMutate, scheduleAdd and scheduleManualRun of internal/daemon/schedule.go over the
-- table of occurrences.
use herdr_woof.Prelude.{ℕ, ◌≡◌, sym, ◌∙◌, subst, true, false, not, ◌||◌, Option, some, none, arith}
use herdr_woof.Prelude.Int.{ℤ, pos}
use herdr_woof.Prelude.Text.{codes}
use herdr_woof.Prelude.Result.{Result, ok, err, ok_steps, refuse_passed, by_branch}
use herdr_woof.Schedule.Expr.{Expr, ExprError, expr_next}
use herdr_woof.Daemon.Model.{Code, Schedule, Outcome, EventType, Resource, Reply}
use herdr_woof.Daemon.Store.{Db, get, is_removed, event}
use herdr_woof.Daemon.Occurrences.{By, cancel_outstanding}
use herdr_woof.Daemon.Schedules.{
  Moment, now_of, at_milli, advance, advanced, is_active, operation_resource, finish_request,
  ScheduleOp, enable, disable, remove, enable_schedule, disable_schedule, remove_schedule, apply_op,
  store_change, no_expr, cancel_and, schedule_mutate,
}
use herdr_woof.Daemon.Scheduling.{AreSoundRuns, IsRunAdvance, IsUpdate}
use herdr_woof.Daemon.Scheduling.Advance.{IsRunAdvance-refl, IsUpdate-refl}
use herdr_woof.Daemon.Scheduling.Puts.{cancel_outstanding-IsRunAdvance, cancel_outstanding-IsUpdate}

-- A step that gives a value and a database, of which the database is the one it was given.
kept_db {ℓ} :
    {A : Type ℓ} (a b : A) (db db' : Db)
    → AreSoundRuns db.schedule_runs
    → Path (Result Code (A × Db)) (ok (a, db)) (ok (b, db'))
    → IsUpdate db.schedule_runs db'.schedule_runs
kept_db a b db db' s h = let e : db ≡ db' = ground arith in rw (sym e) (IsUpdate-refl s)

advanced-IsUpdate :
    (m : Moment) (by : By) (sc sc' : Schedule) (db db' : Db) (next : Result ExprError ℤ)
    → AreSoundRuns db.schedule_runs
    → advanced m by sc db next ≡ ok (sc', db')
    → IsUpdate db.schedule_runs db'.schedule_runs
unfolding event
advanced-IsUpdate m by sc sc' db db' (ok next) s h = kept_db _ sc' db db' s h
advanced-IsUpdate m by sc sc' db db' (err e) s h =
    let why = Outcome.reason (codes "schedule has no future occurrence") in
    let sc1 = record sc { enabled = false } in
    let (db1, c, k) = ok_steps (cancel_outstanding (now_of m) why by sc1 db) _ h in
    let e : db1.schedule_runs ≡ db'.schedule_runs = ground arith in
    subst (IsUpdate db.schedule_runs) e
      (cancel_outstanding-IsUpdate (now_of m) why by sc1 db db1 s c)

pub advance-IsUpdate :
    (m : Moment) (expr : Expr) (by : By) (sc sc' : Schedule) (db db' : Db)
    → AreSoundRuns db.schedule_runs
    → advance m expr by sc db ≡ ok (sc', db')
    → IsUpdate db.schedule_runs db'.schedule_runs
unfolding advance
advance-IsUpdate m expr by sc sc' db db' s h =
    let sc0 = record sc { next_run_at = 0 } in
    let next = expr_next m.here expr (pos m.clock) (some (at_milli sc.anchor_at)) in
    by_branch (not sc.enabled || not (is_active sc)) (ok (sc0, db)) (advanced m by sc0 db next) h
      (λ _ k. kept_db sc0 sc' db db' s k) (λ _ k. advanced-IsUpdate m by sc0 sc' db db' next s k)

pub advance-IsRunAdvance :
    (m : Moment) (expr : Expr) (by : By) (sc sc' : Schedule) (db db' : Db)
    → AreSoundRuns db.schedule_runs
    → advance m expr by sc db ≡ ok (sc', db')
    → IsRunAdvance db.schedule_runs db'.schedule_runs
advance-IsRunAdvance m expr by sc sc' db db' s h =
    (advance-IsUpdate m expr by sc sc' db db' s h).advance

-- The receipt and the schedule are no occurrences.
pub finish_request_runs :
    (now request : ℕ) (made : Resource) (reply : Reply) (db : Db) {db' : Db}
    → finish_request now request made reply db ≡ ok db'
    → db.schedule_runs ≡ db'.schedule_runs
unfolding finish_request operation_resource
finish_request_runs now request made reply db h = ground arith

pub store_change_runs :
    (m : Moment) (by : By) (type : Option EventType) (sc sc' : Schedule) (db db' : Db)
    → store_change m by type sc db ≡ ok (sc', db')
    → db.schedule_runs ≡ db'.schedule_runs
unfolding event
store_change_runs m by none sc sc' db db' h = ground arith
store_change_runs m by (some type) sc sc' db db' h = ground arith

-- The middle of a step that gives a schedule, an event and a database.
mutated :
    (m : Moment) (by : By) (why : Outcome) (sc1 sc' : Schedule) (type type' : Option EventType)
    (db db' : Db)
    → AreSoundRuns db.schedule_runs
    → cancel_and m by why sc1 type db ≡ ok (sc', type', db')
    → IsRunAdvance db.schedule_runs db'.schedule_runs
mutated m by why sc1 sc' type type' db db' s h =
    let (db1, c, k) = ok_steps (cancel_outstanding (now_of m) why by sc1 db) _ h in
    let e : db1 ≡ db' = ground arith in
    subst (λ z. IsRunAdvance db.schedule_runs z.schedule_runs) e
      (cancel_outstanding-IsRunAdvance (now_of m) why by sc1 db db1 s c)

apply_op-IsRunAdvance :
    (m : Moment) (by : By) (op : ScheduleOp) (sc sc' : Schedule) (type : Option EventType)
    (db db' : Db)
    → AreSoundRuns db.schedule_runs
    → apply_op m by op sc db ≡ ok (sc', type, db')
    → IsRunAdvance db.schedule_runs db'.schedule_runs
unfolding apply_op enable_schedule disable_schedule remove_schedule
apply_op-IsRunAdvance m by enable sc sc' type db db' s h =
    by_branch sc.enabled (ok (sc, none, db)) _ h
      (λ _ k. let e : db ≡ db' = ground arith in rw (sym e) (IsRunAdvance-refl s))
      (λ _ k.
        let sc0 = record sc { enabled = true; anchor_at = now_of m } in
        let (expr, _, k1) = ok_steps (no_expr sc.expr Code.invalid_cron) _ k in
        let ((sc1, db1), a, k2) = ok_steps (advance m expr by sc0 db) _ k1 in
        let e : db1 ≡ db' = ground arith in
        subst (λ z. IsRunAdvance db.schedule_runs z.schedule_runs) e
          (advance-IsRunAdvance m expr by sc0 sc1 db db1 s a))
apply_op-IsRunAdvance m by disable sc sc' type db db' s h =
    mutated m by (Outcome.reason (codes "schedule disabled")) _ sc' _ type db db' s h
apply_op-IsRunAdvance m by remove sc sc' type db db' s h =
    mutated m by (Outcome.reason (codes "schedule removed")) _ sc' _ type db db' s h

pub schedule_mutate-IsRunAdvance :
    (m : Moment) (request : ℕ) (by : By) (op : ScheduleOp) (id : ℕ) (db db' : Db)
    → AreSoundRuns db.schedule_runs
    → schedule_mutate m request by op id db ≡ ok db'
    → IsRunAdvance db.schedule_runs db'.schedule_runs
unfolding schedule_mutate
schedule_mutate-IsRunAdvance m request by op id db db' s h =
    let (sc, _, h1) = ok_steps (get db.schedules id) _ h in
    let (_, h2) = refuse_passed (is_removed sc.state) Code.schedule_removed _ h1 in
    let ((sc1, type, db1), a, h3) = ok_steps (apply_op m by op sc db) _ h2 in
    let ((sc2, db2), b, h4) = ok_steps (store_change m by type sc1 db1) _ h3 in
    let e = store_change_runs m by type sc1 sc2 db1 db2 b in
    let e' = finish_request_runs _ request _ _ db2 h4 in
    subst (IsRunAdvance db.schedule_runs) (e ∙ e')
      (apply_op-IsRunAdvance m by op sc sc1 type db db1 s a)
