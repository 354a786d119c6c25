-- ===== src/Daemon/Control.antt =====
-- dispatchControl of internal/daemon/dispatch.go and fenceWorkerTx of internal/daemon/workers.go:
-- a dispatch that is failed by a caller, and those of a worker that goes away.
use herdr_woof.Prelude.{ℕ, not, none, List, [], ◌∷◌, ◌+◌, ◌==◌, if◌then◌else◌}
use herdr_woof.Prelude.Result.{Result, ok, ◌>>=◌, ◌>>◌, refuse}
use herdr_woof.Prelude.Text.{Text, text_eq}
use herdr_woof.Daemon.Model.{
  Code, Dispatch, DispatchStatus, Outcome, Reply, OperationState, EventType, Actor, Caller,
  active_dispatch, dispatch_scope,
}
use herdr_woof.Daemon.Store.{Db, get, list, put_dispatch, event}
use herdr_woof.Daemon.Settle.{settle_run, finish_op, sync_schedule_run}

unfoldable pub failed_by : ℕ → Text → Dispatch → Dispatch
failed_by now reason d = record d {
  status = DispatchStatus.failed;
  outcome = Outcome.reason reason;
  settled_at = now;
}

abbrev pub actor_of : Caller → Actor
actor_of caller = if caller.worker_id == 0 then Actor.human else Actor.worker

unfoldable pub fail_tx : ℕ → ℕ → Caller → Text → ℕ → Db → Result Code Db
unfolding failed_by active_dispatch
fail_tx now request caller reason id db = do
  current ← get db.dispatches id
  refuse (not (active_dispatch current)) Code.dispatch_finished
  dispatches ← put_dispatch id (failed_by now reason current) db.dispatches
  runs ← settle_run now (failed_by now reason current) db.runs
  db1 ← sync_schedule_run now (failed_by now reason current) (actor_of caller) caller.worker_id (
      event (EventType.dispatch_now DispatchStatus.failed) (dispatch_scope current) Actor.worker
        caller.worker_id (record db { dispatches = dispatches; runs = runs }))
  operations ←
      finish_op now request (Reply.of_dispatch (failed_by now reason current)) none
        OperationState.completed db1.operations
  ok (record db1 { operations = operations })

unfoldable pub fail : ℕ → ℕ → Caller → Text → ℕ → Db → Result Code Db
unfolding fail_tx active_dispatch
fail now request caller reason id db = do
  d ← get db.dispatches id
  refuse (not (active_dispatch d)) Code.dispatch_finished
  refuse (text_eq reason []) Code.invalid_args
  fail_tx now request caller reason id db

-- The count that a sent nudge leaves on the dispatch.
unfoldable pub nudge_tx : ℕ → Db → Result Code Db
nudge_tx id db = do
  current ← get db.dispatches id
  dispatches ← put_dispatch id (record current { nudges = current.nudges + 1 }) db.dispatches
  ok (record db { dispatches = dispatches })

unfoldable pub fence_one : ℕ → Text → Dispatch → Db → Result Code Db
unfolding failed_by
fence_one now reason d db = do
  dispatches ← put_dispatch d.id (failed_by now reason d) db.dispatches
  runs ← settle_run now (failed_by now reason d) db.runs
  sync_schedule_run now (failed_by now reason d) Actor.daemon 0 (
      event EventType.dispatch_fenced (dispatch_scope d) Actor.daemon 0
        (record db { dispatches = dispatches; runs = runs }))

unfoldable pub fence_all : ℕ → Text → List Dispatch → Db → Result Code Db
unfolding fence_one active_dispatch
fence_all now reason [] db = ok db
fence_all now reason (d ∷ ds) db = do
  db1 ← (if active_dispatch d then fence_one now reason d db else ok db)
  fence_all now reason ds db1

unfoldable pub fence_worker : ℕ → ℕ → Text → Db → Result Code Db
unfolding fence_all
fence_worker now worker_id reason db =
    fence_all now reason (list (λ d. d.worker_id == worker_id) db.dispatches) db
