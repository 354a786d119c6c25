-- ===== src/Daemon/Requests.antt =====
-- Handle of internal/daemon/core.go on a mutation: a request is carried out once, and its receipt
-- answers when it comes again.
pub mod Replay
use herdr_woof.Prelude.{ℕ, Bool, true, false, not, Option, none, some, ◌==◌, if◌then◌else◌}
use herdr_woof.Prelude.Result.{Result, ok, err}
use herdr_woof.Daemon.Model.{Code, Operation, Resource, OperationState, Reply}
use herdr_woof.Daemon.Store.{Db, find, put}
use herdr_woof.Daemon.Settle.{is_finished, finish_op}
use herdr_woof.Daemon.Dispatch.{is_uncertain}

abbrev code_or_empty : Option Code → Code
code_or_empty (some code) = code
code_or_empty none = Code.operation_failed

unfoldable pub receipt_result : Operation → ℕ → Result Code Reply
receipt_result o fingerprint =
    if not (o.fingerprint == fingerprint) then err Code.request_conflict else elim o.state [
      | OperationState.completed ↦ ok o.result
      | OperationState.failed ↦ err (code_or_empty o.error_code)
      | _ ↦ err Code.uncertain
    ]

-- `admit` stands for the checks of the caller and the scope; `in_flight` says that the same request
-- runs already.
pub record Call : Type 0 where
  pub id : ℕ
  pub fingerprint : ℕ
  pub now : ℕ
  pub admit : Result Code (Unit {0})
  pub in_flight : Bool

unfoldable pub accepted : Call → Operation
accepted c = record {
  id = c.id;
  fingerprint = c.fingerprint;
  state = OperationState.accepted;
  resource = Resource.no_resource;
  result = Reply.no_reply;
  error_code = none;
  created_at = c.now;
  updated_at = c.now;
}

abbrev pub reply_of : Result Code Reply → Reply
reply_of (ok r) = r
reply_of (err _) = Reply.no_reply

abbrev pub error_of : Result Code Reply → Option Code
error_of (ok _) = none
error_of (err code) = some code

unfoldable pub state_of : Result Code Reply → OperationState
unfolding is_uncertain
state_of (ok _) = OperationState.completed
state_of (err code) = if is_uncertain code then OperationState.uncertain else OperationState.failed

abbrev Outcome : Type 0
Outcome = Result Code Reply × Db

unfoldable pub save : Call → Result Code Reply → Db → Outcome
unfolding state_of
save c out db =
    elim (finish_op c.now c.id (reply_of out) (error_of out) (state_of out) db.operations) [
      | err _ ↦ (err Code.uncertain, db)
      | ok operations ↦ (out, record db { operations = operations })
    ]

-- The operation that finished its own receipt is left as it is.
unfoldable pub conclude : Call → Result Code Reply → Db → Outcome
unfolding save find
conclude c out db = elim (find db.operations c.id) [
  | none ↦ save c out db
  | some o ↦ if is_finished o.state then (out, db) else save c out db
]

-- The receipt is looked for again in the transaction that accepts the request; nothing runs between
-- the two here, since transactions are atomic.
unfoldable pub run_once : Call → (Db → Outcome) → Db → Outcome
unfolding conclude accepted
run_once c mutate db = elim (put c.id c.id (accepted c) db.operations) [
  | err code ↦ (err code, db)
  | ok operations ↦
      let (out, db') = mutate (record db { operations = operations }) in conclude c out db'
]

unfoldable pub handle : Call → (Db → Outcome) → Db → Outcome
unfolding run_once receipt_result find
handle c mutate db =
    if c.id == 0 then (err Code.request_id_required, db) else elim (find db.operations c.id) [
      | some o ↦ (receipt_result o c.fingerprint, db)
      | none ↦ elim c.admit [
        | err code ↦ (err code, db)
        | ok _ ↦ if c.in_flight then (err Code.uncertain, db) else run_once c mutate db
      ]
    ]
