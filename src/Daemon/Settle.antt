-- ===== src/Daemon/Settle.antt =====
-- The parts of a transaction that dispatch.go, core.go and schedule.go share: settleRunTx,
-- finishTx, dispatchEventTx, finishAttemptTx and syncScheduleRunTx.
use herdr_woof.Prelude.{
  ℕ, Bool, true, false, not, ◌&&◌, ◌||◌, Option, none, some, ◌==◌, if◌then◌else◌,
}
use herdr_woof.Prelude.Result.{Result, ok, ◌>>=◌}
use herdr_woof.Daemon.Model.{
  Code, Scope, Run, RunStatus, Dispatch, DispatchStatus, Schedule, ScheduleRun, OccurrenceState,
  Operation, OperationState, Reply, EventType, Actor, worker_scope, dispatch_scope,
}
use herdr_woof.Daemon.Store.{Table, Db, get, put, put_schedule_run, event}

unfoldable pub settle_run : ℕ → Dispatch → Table Run → Result Code (Table Run)
settle_run now d runs = do
  run ← get runs d.run_id
  if not run.implicit
      then ok runs
      else put run.id run.id
          (record run { status = RunStatus.completed; completed_at = now; updated_at = now }) runs

unfoldable pub is_finished : OperationState → Bool
is_finished OperationState.completed = true
is_finished OperationState.failed = true
is_finished _ = false

-- With an error the result stays as it is.
unfoldable pub with_outcome : Reply → Option Code → Operation → Operation
with_outcome out none o = record o { result = out }
with_outcome out (some code) o = record o { error_code = some code }

unfoldable pub finish_op :
    ℕ → ℕ → Reply → Option Code → OperationState → Table Operation → Result Code (Table Operation)
unfolding is_finished with_outcome
finish_op now id out error state operations = do
  o ← get operations id
  let o' = with_outcome out error (record o { state = state; updated_at = now }) in
      if is_finished o.state then ok operations else put id o'.id o' operations

unfoldable pub dispatch_event : EventType → Dispatch → Db → Result Code Db
dispatch_event type d db =
    let first = event type (dispatch_scope d) Actor.daemon 0 db in
    do
      run ← get first.runs d.run_id
      if not (run.invoker_worker_id == 0) && not (run.invoker_worker_id == d.worker_id)
          then (do
            w ← get first.workers run.invoker_worker_id
            ok (event type (record (worker_scope w) { run_id = d.run_id }) Actor.daemon 0 first))
          else ok first

unfoldable pub prompt_landed : Dispatch → Bool
prompt_landed d =
    elim d.status [ DispatchStatus.active ↦ true | DispatchStatus.settled ↦ true | _ ↦ false ]
    || not (d.done_message_id == 0)
    || not (d.observed_working_at == 0)
    || d.turn_ended

unfoldable pub finish_attempt :
    ℕ → Operation → Dispatch → Table Operation → Result Code (Table Operation)
unfolding prompt_landed
finish_attempt now op d operations =
    if is_finished op.state
    then ok operations
    else if prompt_landed d
    then finish_op now op.id (Reply.of_dispatch d) none OperationState.completed operations
    else elim op.state [
      | OperationState.accepted ↦
          finish_op now op.id Reply.no_reply (some Code.uncertain) OperationState.uncertain
            operations
      | _ ↦ ok operations
    ]

unfoldable pub schedule_event_scope : Schedule → ScheduleRun → Scope
schedule_event_scope sc run = record {
  session_id = sc.session_id;
  workspace_id = sc.workspace_id;
  worktree_id = sc.worktree_id;
  run_id = run.run_id;
  worker_id = sc.worker_id;
}

-- The state that a finished dispatch gives its occurrence.
abbrev pub final_state : DispatchStatus → Option OccurrenceState
final_state DispatchStatus.settled = some OccurrenceState.settled
final_state DispatchStatus.failed = some OccurrenceState.failed
final_state _ = none

unfoldable pub follows : ScheduleRun → Dispatch → Bool
follows run d = run.dispatch_id == d.id && elim run.state [
  | OccurrenceState.dispatched ↦ true
  | OccurrenceState.uncertain ↦ true
  | _ ↦ false
]

abbrev pub attempt_of : ℕ → ScheduleRun → Dispatch → Table Operation → Result Code (Table Operation)
attempt_of now run d operations =
    if run.attempt_id == 0
    then ok operations
    else (do op ← get operations run.attempt_id; finish_attempt now op d operations)

unfoldable pub synced : ℕ → Dispatch → OccurrenceState → ScheduleRun → ScheduleRun
synced now d state run = record run {
  state = state;
  reason = d.outcome;
  error = none;
  updated_at = now;
  finished_at = now;
}

unfoldable pub sync_final : ℕ → Dispatch → OccurrenceState → Actor → ℕ → Db → Result Code Db
unfolding follows synced
sync_final now d state actor_kind actor_id db = do
  run ← get db.schedule_runs d.schedule_run_id
  if not (follows run d) then ok db else (do
    sc ← get db.schedules run.schedule_id
    operations ← attempt_of now run d db.operations
    let run' = synced now d state run in
        (do
          schedule_runs ← put_schedule_run run'.id run' db.schedule_runs
          ok (
              event (EventType.occurrence_now state) (schedule_event_scope sc run') actor_kind
                actor_id (record db { operations = operations; schedule_runs = schedule_runs }))))

unfoldable pub sync_schedule_run : ℕ → Dispatch → Actor → ℕ → Db → Result Code Db
sync_schedule_run now d actor_kind actor_id db =
    if d.schedule_run_id == 0 then ok db else elim (final_state d.status) [
      | none ↦ ok db
      | some state ↦ sync_final now d state actor_kind actor_id db
    ]
