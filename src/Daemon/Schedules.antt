-- ===== src/Daemon/Schedules.antt =====
-- The schedules of internal/daemon/schedule.go: advance, scheduleMutate, scheduleManualRun,
-- claimDue and the transaction of scheduleAdd.
use herdr_woof.Prelude.{
  ℕ, ◌+◌, ◌*◌, ◌/◌, Bool, true, false, not, ◌||◌, Option, none, some, List, [], ◌∷◌, ◌==◌,
  if◌then◌else◌,
}
use herdr_woof.Prelude.Int.{ℤ, pos, negsuc, pos_part}
use herdr_woof.Prelude.Text.{codes}
use herdr_woof.Prelude.Result.{Result, ok, err, ◌>>=◌, ◌>>◌, refuse}
use herdr_woof.Schedule.Zone.{Location}
use herdr_woof.Schedule.Expr.{Expr, ExprError, expr_next}
use herdr_woof.Daemon.Model.{
  Code, Schedule, ScheduleState, ScheduleRun, OccurrenceKey, Outcome, Trigger, EventType,
  OperationState, Resource, Reply, terminal_recipient,
}
use herdr_woof.Daemon.Store.{Db, get, put, put_schedule, is_removed, event}
use herdr_woof.Daemon.Settle.{finish_op}
use herdr_woof.Daemon.Occurrences.{
  By, Fresh, NewRun, schedule_scope, runs_in_state, is_outstanding, cancel_outstanding, create_run,
}

-- `e.opts.Now()`: the clock in nanoseconds and the location of the host.
pub record Moment : Type 0 where
  pub clock : ℕ
  pub here : Location

abbrev pub milli : ℕ
milli = 1000000

abbrev pub now_of : Moment → ℕ
now_of m = m.clock / milli

-- `time.UnixMilli(ms)`, and `t.UnixMilli()` for a time after 1970.
abbrev pub at_milli : ℕ → ℤ
at_milli ms = pos (ms * milli)

abbrev pub millis : ℤ → ℕ
millis t = pos_part t / milli

-- The same for a time that may be the zero `time.Time`, which is 1 January of year 1.
abbrev pub millis_or_zero : Option ℤ → ℤ
millis_or_zero (some t) = pos (millis t)
millis_or_zero none = negsuc 62135596799999

abbrev pub is_active : Schedule → Bool
is_active sc = not (is_removed sc.state)

-- A series that goes on, and one without a future occurrence, which is disabled.
abbrev pub advanced : Moment → By → Schedule → Db → Result ExprError ℤ → Result Code (Schedule × Db)
advanced m by sc db (ok next) = ok (record sc { next_run_at = millis next }, db)
advanced m by sc db (err _) =
    let sc1 = record sc { enabled = false } in
    do
      db1 ←
          cancel_outstanding (now_of m) (Outcome.reason (codes "schedule has no future occurrence"))
            by sc1 db
      ok (sc1, event EventType.schedule_disabled (schedule_scope sc1) by.0 by.1 db1)

unfoldable pub advance : Moment → Expr → By → Schedule → Db → Result Code (Schedule × Db)
unfolding cancel_outstanding schedule_scope event expr_next
advance m expr by sc db =
    let sc0 = record sc { next_run_at = 0 } in
    if not sc.enabled || not (is_active sc)
    then ok (sc0, db)
    else advanced m by sc0 db (expr_next m.here expr (pos m.clock) (some (at_milli sc.anchor_at)))

unfoldable pub operation_resource : ℕ → ℕ → Resource → Db → Result Code Db
operation_resource now id resource db = do
  op ← get db.operations id
  operations ← put op.id op.id (record op { resource = resource; updated_at = now }) db.operations
  ok (record db { operations = operations })

-- The receipt names the record, and is finished.
unfoldable pub finish_request : ℕ → ℕ → Resource → Reply → Db → Result Code Db
unfolding operation_resource
finish_request now request resource reply db = do
  db1 ← operation_resource now request resource db
  operations ← finish_op now request reply none OperationState.completed db1.operations
  ok (record db1 { operations = operations })

pub data ScheduleOp : Type 0 where
  enable disable remove : ScheduleOp

abbrev pub is_enable : ScheduleOp → Bool
is_enable enable = true
is_enable _ = false

-- What an operation leaves of the schedule, the event that it owes, if any, and the database.
abbrev pub Mutated : Type 0
Mutated = Result Code (Schedule × Option EventType × Db)

abbrev pub no_expr {ℓ} : {A : Type ℓ} → Option A → Code → Result Code A
no_expr none code = err code
no_expr (some a) code = ok a

unfoldable pub enable_schedule : Moment → By → Schedule → Db → Mutated
unfolding advance
enable_schedule m by sc db = if sc.enabled then ok (sc, none, db) else (do
  expr ← no_expr sc.expr Code.invalid_cron
  (sc1, db1) ← advance m expr by (record sc { enabled = true; anchor_at = now_of m }) db
  ok (sc1, some EventType.schedule_enabled, db1))

abbrev pub cancel_and : Moment → By → Outcome → Schedule → Option EventType → Db → Mutated
cancel_and m by why sc type db = do
  db1 ← cancel_outstanding (now_of m) why by sc db
  ok (sc, type, db1)

unfoldable pub disable_schedule : Moment → By → Schedule → Db → Mutated
unfolding cancel_outstanding
disable_schedule m by sc db =
    let sc1 = if sc.enabled then record sc { enabled = false; next_run_at = 0 } else sc in
    let type = if sc.enabled then some EventType.schedule_disabled else none in
    cancel_and m by (Outcome.reason (codes "schedule disabled")) sc1 type db

unfoldable pub remove_schedule : Moment → By → Schedule → Db → Mutated
unfolding cancel_outstanding
remove_schedule m by sc db =
    let sc1 = record sc {
      enabled = false;
      state = ScheduleState.removed;
      next_run_at = 0;
      removed_at = now_of m;
    } in
    cancel_and m by (Outcome.reason (codes "schedule removed")) sc1
      (some EventType.schedule_removed) db

unfoldable pub apply_op : Moment → By → ScheduleOp → Schedule → Db → Mutated
unfolding enable_schedule disable_schedule remove_schedule
apply_op m by enable sc db = enable_schedule m by sc db
apply_op m by disable sc db = disable_schedule m by sc db
apply_op m by remove sc db = remove_schedule m by sc db

abbrev pub revised : ℕ → Schedule → Schedule
revised now sc = record sc { revision = sc.revision + 1; updated_at = now }

abbrev pub store_change :
    Moment → By → Option EventType → Schedule → Db → Result Code (Schedule × Db)
store_change m by none sc db = ok (sc, db)
store_change m by (some type) sc db = do
  let sc1 = revised (now_of m) sc
  schedules ← put_schedule sc1.id sc1 db.schedules
  ok (sc1, event type (schedule_scope sc1) by.0 by.1 (record db { schedules = schedules }))

-- enable, disable and remove on a schedule that was resolved before; 0 is no request.
unfoldable pub schedule_mutate : Moment → ℕ → By → ScheduleOp → ℕ → Db → Result Code Db
unfolding apply_op put_schedule finish_request
schedule_mutate m request by op id db = do
  sc ← get db.schedules id
  refuse (is_removed sc.state) Code.schedule_removed
  (sc1, type, db1) ← apply_op m by op sc db
  (sc2, db2) ← store_change m by type sc1 db1
  finish_request (now_of m) request (Resource.of_schedule sc2.id) (Reply.of_schedule sc2) db2

-- The transaction of scheduleAdd: `sc` is the record that the handler made for the worker.
unfoldable pub schedule_add_tx : Moment → ℕ → By → Expr → Schedule → Db → Result Code Db
unfolding advance put_schedule finish_request terminal_recipient event schedule_scope
schedule_add_tx m request by expr sc db = do
  w ← get db.workers sc.worker_id
  refuse (terminal_recipient w || not (w.workspace_id == sc.workspace_id)) Code.worker_not_live
  (sc1, db1) ← advance m expr by sc db
  schedules ← put_schedule sc1.id sc1 db1.schedules
  let db2 = record db1 { schedules = schedules }
  db3 ← operation_resource (now_of m) request (Resource.of_schedule sc1.id) db2
  let db4 = event EventType.schedule_created (schedule_scope sc1) by.0 by.1 db3
  operations ←
      finish_op (now_of m) request (Reply.of_schedule sc1) none OperationState.completed
        db4.operations
  ok (record db4 { operations = operations })

abbrev pub is_empty {ℓ} : {A : Type ℓ} → List A → Bool
is_empty [] = true
is_empty (_ ∷ _) = false

abbrev pub manual_new : ℕ → ℕ → NewRun
manual_new now request = record {
  occurrence_key = OccurrenceKey.manual request;
  trigger = Trigger.manual;
  missed = false;
  reason = Outcome.no_outcome;
  scheduled_for = now;
  missed_count = 0;
  missed_last = pos 0;
  request_id = request;
}

abbrev pub with_last_run : ℕ → ScheduleRun → Schedule → Schedule
with_last_run now run sc = record (revised now sc) {
  last_run_at = run.scheduled_for;
  last_run_id = run.id;
}

unfoldable pub manual_run_tx : Fresh → ℕ → By → ℕ → Db → Result Code (ScheduleRun × Db)
unfolding create_run put_schedule finish_request runs_in_state
manual_run_tx f request by id db = do
  sc ← get db.schedules id
  refuse (is_removed sc.state) Code.schedule_removed
  refuse (not (is_empty (runs_in_state sc.id is_outstanding db.schedule_runs))) Code.run_outstanding
  (run, db1) ← create_run f by sc (manual_new f.now request) db
  let sc1 = with_last_run f.now run sc
  schedules ← put_schedule sc1.id sc1 db1.schedules
  let db2 = record db1 { schedules = schedules }
  db3 ← finish_request f.now request (Resource.of_occurrence run.id) (Reply.of_occurrence run) db2
  ok (run, db3)
