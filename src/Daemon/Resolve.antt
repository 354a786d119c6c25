-- ===== src/Daemon/Resolve.antt =====
-- operation.resolve of internal/daemon/mutations.go: a person closes a receipt that stayed open, or
-- the wake of a delivery that no turn answered, with what it stands for. The operations that are
-- modelled never stand for a worker, so that the branch of a launch is left out.
use herdr_woof.Prelude.{ℕ, Bool, true, false, not, ◌&&◌, some, none, ◌==◌, if◌then◌else◌, []}
use herdr_woof.Prelude.Result.{Result, ok, ◌>>=◌, ◌>>◌, refuse}
use herdr_woof.Prelude.Text.{Text, text_eq}
use herdr_woof.Daemon.Model.{
  Code, Caller, Scope, Delivery, DeliveryStatus, WakeStatus, Operation, OperationState, Resource,
  Reply, EventType, Actor, active_dispatch, dispatch_scope,
}
use herdr_woof.Daemon.Store.{Db, get, put, put_dispatch, event}
use herdr_woof.Daemon.Settle.{settle_run, finish_op, sync_schedule_run}
use herdr_woof.Daemon.Control.{failed_by, actor_of}

-- What `--as` may say.
pub data Resolution : Type 0 where
  as_completed as_failed unknown : Resolution

abbrev pub is_failed : Resolution → Bool
is_failed Resolution.as_failed = true
is_failed _ = false

abbrev is_known : Resolution → Bool
is_known Resolution.unknown = false
is_known _ = true

pub record ResolveArgs : Type 0 where
  pub request : ℕ
  pub caller : Caller
  pub operation : ℕ
  pub resolution : Resolution
  pub reason : Text
  pub in_flight : Bool
  pub now : ℕ

abbrev at_least_delivered : DeliveryStatus → DeliveryStatus
at_least_delivered DeliveryStatus.pending = DeliveryStatus.delivered
at_least_delivered status = status

unfoldable pub resolved_delivery : ResolveArgs → Delivery → Delivery
resolved_delivery a d =
    if is_failed a.resolution
    then record d { wake_status = WakeStatus.abandoned; error = a.reason; updated_at = a.now }
    else record d {
      wake_status = WakeStatus.resolved;
      status = at_least_delivered d.status;
      delivered_at = if d.delivered_at == 0 then a.now else d.delivered_at;
      error = a.reason;
      updated_at = a.now;
    }

-- A wake that was sent, without the end of its turn.
abbrev pub awaits_turn : WakeStatus → Bool
awaits_turn WakeStatus.sent = true
awaits_turn WakeStatus.acknowledged = true
awaits_turn WakeStatus.uncertain = true
awaits_turn _ = false

abbrev delivery_scope : Delivery → Scope
delivery_scope d = record {
  session_id = d.session_id;
  workspace_id = d.workspace_id;
  worktree_id = 0;
  run_id = d.run_id;
  worker_id = d.worker_id;
}

-- `final`: the receipt of the attempt is completed.
unfoldable pub resolve_delivery : ResolveArgs → ℕ → Bool → ℕ → Db → Result Code Db
unfolding resolved_delivery
resolve_delivery a attempt final id db = do
  d ← get db.deliveries id
  refuse (not (d.attempt_id == attempt)) Code.stale_operation
  refuse (final && not (awaits_turn d.wake_status)) Code.invalid_state
  deliveries ← put d.id d.id (resolved_delivery a d) db.deliveries
  ok (
      event EventType.delivery_resolved (delivery_scope d) Actor.human a.caller.worker_id
        (record db { deliveries = deliveries }))

unfoldable pub resolve_dispatch : ResolveArgs → ℕ → Db → Result Code Db
unfolding failed_by active_dispatch
resolve_dispatch a id db = do
  d ← get db.dispatches id
  if active_dispatch d && is_failed a.resolution
      then (do
        dispatches ← put_dispatch d.id (failed_by a.now a.reason d) db.dispatches
        runs ← settle_run a.now (failed_by a.now a.reason d) db.runs
        sync_schedule_run a.now (failed_by a.now a.reason d) (actor_of a.caller) a.caller.worker_id
            (event EventType.dispatch_resolved (dispatch_scope d) Actor.human a.caller.worker_id
              (record db { dispatches = dispatches; runs = runs })))
      else ok db

abbrev pub resolve_resource : ResolveArgs → ℕ → Bool → Resource → Db → Result Code Db
resolve_resource a attempt final (Resource.of_delivery id) db =
    resolve_delivery a attempt final id db
resolve_resource a attempt final (Resource.of_dispatch id) db = resolve_dispatch a id db
resolve_resource a attempt final _ db = ok db

abbrev result_or_resolved : Reply → Reply
result_or_resolved Reply.no_reply = Reply.resolved
result_or_resolved r = r

unfoldable pub resolved_operation : ResolveArgs → Operation → Operation
resolved_operation a v =
    if is_failed a.resolution
    then record v {
      state = OperationState.failed;
      error_code = some Code.explicitly_failed;
      updated_at = a.now;
    }
    else record v {
      state = OperationState.completed;
      result = result_or_resolved v.result;
      updated_at = a.now;
    }

abbrev pub is_unfinished : OperationState → Bool
is_unfinished OperationState.uncertain = true
is_unfinished OperationState.accepted = true
is_unfinished _ = false

-- A wake whose receipt is final, which only its turn may still close.
abbrev pub is_final_receipt : Operation → Bool
is_final_receipt v = elim v.state [
  | OperationState.completed ↦ elim v.resource [ Resource.of_delivery _ ↦ true | _ ↦ false ]
  | _ ↦ false
]

abbrev nowhere : Scope
nowhere = record { session_id = 0; workspace_id = 0; worktree_id = 0; run_id = 0; worker_id = 0 }

-- A final receipt stays as it is.
abbrev pub close_receipt : ResolveArgs → Bool → Operation → Db → Result Code Db
close_receipt a final v db = if final then ok db else (do
  operations ← put v.id v.id (resolved_operation a v) db.operations
  ok (record db { operations = operations }))

abbrev pub answer_resolution : ResolveArgs → ℕ → Db → Result Code Db
answer_resolution a operation db = do
  operations ←
      finish_op a.now a.request (Reply.of_operation operation) none OperationState.completed
        db.operations
  ok (
      event EventType.operation_resolved nowhere Actor.worker a.caller.worker_id
        (record db { operations = operations }))

unfoldable pub resolve_tx : ResolveArgs → Db → Result Code Db
unfolding resolve_delivery resolve_dispatch resolved_operation
resolve_tx a db = do
  v ← get db.operations a.operation
  refuse (v.id == a.request) Code.invalid_args
  refuse (not (is_unfinished v.state) && not (is_final_receipt v)) Code.invalid_state
  db1 ← resolve_resource a v.id (is_final_receipt v) v.resource db
  db2 ← close_receipt a (is_final_receipt v) v db1
  answer_resolution a v.id db2

unfoldable pub resolve_operation : ResolveArgs → Db → Result Code Db
unfolding resolve_tx
resolve_operation a db = do
  refuse (not (is_known a.resolution)) Code.invalid_args
  refuse (text_eq a.reason []) Code.invalid_args
  refuse a.in_flight Code.operation_in_flight
  resolve_tx a db
