-- ===== src/Daemon/Mailbox.antt =====
-- internal/daemon/messaging.go: messages in the workers' mailboxes, their receipts, and the wakes
-- that tell a worker of them.
pub mod Once
use herdr_woof.Prelude.{
  ℕ, Bool, true, false, not, ◌&&◌, ◌||◌, Option, none, some, List, [], ◌∷◌, ◌==◌, if◌then◌else◌,
}
use herdr_woof.Prelude.Result.{Result, ok, err, ◌>>=◌, ◌>>◌, refuse}
use herdr_woof.Prelude.Text.{Text, codes, text_eq}
use herdr_woof.Daemon.Model.{
  Code, Caller, Scope, Worker, Pane, Message, Delivery, DeliveryStatus, WakeStatus, Operation,
  Resource, OperationState, Reply, EventType, Actor, terminal_recipient, worker_scope,
}
use herdr_woof.Daemon.Store.{Table, Db, find, get, put, list, event}
use herdr_woof.Daemon.Settle.{is_finished, finish_op}
use herdr_woof.Daemon.Dispatch.{prompt_state, is_uncertain}

unfoldable pub delivery_belongs : ℕ → ℕ → ℕ → Bool → Bool
delivery_belongs caller scope_worker worker human =
    if human
    then caller == 0
    else if not (caller == 0)
    then caller == worker
    else not (scope_worker == 0) && scope_worker == worker

abbrev first_time : ℕ → ℕ → ℕ
first_time at now = if at == 0 then now else at

-- An acknowledgment ends a wake that is still queued, and marks one that is under way.
unfoldable pub acked_wake : WakeStatus → WakeStatus
acked_wake WakeStatus.sending = WakeStatus.acknowledged
acked_wake WakeStatus.sent = WakeStatus.acknowledged
acked_wake WakeStatus.uncertain = WakeStatus.acknowledged
acked_wake WakeStatus.queued = WakeStatus.ended
acked_wake wake = wake

unfoldable pub acked : ℕ → Bool → Delivery → Delivery
unfolding acked_wake
acked now consume d =
    let consumed = if consume then first_time d.consumed_at now else d.consumed_at in
    record d {
      acknowledged_at = first_time d.acknowledged_at now;
      consumed_at = consumed;
      status = if consumed == 0 then DeliveryStatus.acknowledged else DeliveryStatus.consumed;
      wake_status = acked_wake d.wake_status;
      updated_at = now;
      error = [];
    }

abbrev pub close_attempt : ℕ → Delivery → Table Operation → Result Code (Table Operation)
close_attempt now d operations =
    if d.attempt_id == 0 then ok operations else elim (find operations d.attempt_id) [
      | none ↦ ok operations
      | some op ↦
          if is_finished op.state
          then ok operations
          else finish_op now op.id (Reply.acknowledged d.message_id) none OperationState.completed
              operations
    ]

unfoldable pub ack_delivery : ℕ → Bool → Delivery → Db → Result Code Db
unfolding acked find
ack_delivery now consume d db = do
  operations ← close_attempt now d db.operations
  deliveries ← put d.id d.id (acked now consume d) db.deliveries
  ok (record db { operations = operations; deliveries = deliveries })

-- `ack` and `consume`, with what they need of the request.
pub record AckArgs : Type 0 where
  pub request : ℕ
  pub caller : ℕ
  pub scope : Scope
  pub consume : Bool
  pub message : ℕ
  pub now : ℕ

unfoldable pub ack_all : AckArgs → ℕ → List Delivery → Db → Result Code (List Delivery × Db)
unfolding ack_delivery delivery_belongs acked
ack_all a message [] db = ok ([], db)
ack_all a message (d ∷ ds) db =
    if d.message_id == message && delivery_belongs a.caller a.scope.worker_id d.worker_id d.human
    then (do
      db1 ← ack_delivery a.now a.consume d db
      (out, db2) ← ack_all a message ds db1
      ok (acked a.now a.consume d ∷ out, db2))
    else ack_all a message ds db

abbrev is_empty {ℓ} : {A : Type ℓ} → List A → Bool
is_empty [] = true
is_empty (_ ∷ _) = false

unfoldable pub ack : AckArgs → Db → Result Code Db
unfolding ack_all
ack a db = do
  m ← get db.messages a.message
  (out, db1) ← ack_all a m.id (list (λ d. true) db.deliveries) db
  refuse (is_empty out) Code.wrong_recipient
  let db2 =
        event (if a.consume then EventType.message_consumed else EventType.message_acknowledged)
          a.scope (if a.caller == 0 then Actor.human else Actor.worker) a.caller db1 in
      (do
        operations ←
            finish_op a.now a.request (Reply.receipts out) none OperationState.completed
              db2.operations
        ok (record db2 { operations = operations }))

-- A delivery to a worker that joins its queue.
unfoldable pub queued_delivery : ℕ → ℕ → Message → Worker → Delivery
queued_delivery now id m w = record {
  id = id;
  message_id = m.id;
  worker_id = w.id;
  session_id = w.session_id;
  workspace_id = w.workspace_id;
  run_id = m.scope.run_id;
  human = false;
  status = DeliveryStatus.pending;
  wake_status = WakeStatus.queued;
  attempt_id = 0;
  attachment_id = 0;
  baseline_seq = 0;
  working_seq = 0;
  baseline_completion_seq = none;
  created_at = now;
  updated_at = now;
  attempted_at = 0;
  delivered_at = 0;
  acknowledged_at = 0;
  consumed_at = 0;
  escalated = false;
  error = [];
}

-- The recipients, each with the id of its delivery.
unfoldable pub put_deliveries : ℕ → Message → List (ℕ × Worker) → Db → Result Code Db
unfolding queued_delivery
put_deliveries now m [] db = ok db
put_deliveries now m ((id, w) ∷ ws) db = do
  deliveries ← put id id (queued_delivery now id m w) db.deliveries
  put_deliveries now m ws (
      event EventType.message_available
        (record {
          session_id = w.session_id;
          workspace_id = w.workspace_id;
          worktree_id = w.worktree_id;
          run_id = m.scope.run_id;
          worker_id = w.id;
        })
        m.from_kind m.from_worker_id (record db { deliveries = deliveries }))

unfoldable pub put_message : ℕ → Message → List (ℕ × Worker) → Db → Result Code Db
unfolding put_deliveries
put_message now m recipients db = do
  messages ← put m.id m.id m db.messages
  put_deliveries now m recipients (record db { messages = messages })

-- `strings.HasPrefix(s, prefix)`
abbrev pub has_prefix : Text → Text → Bool
has_prefix s [] = true
has_prefix [] (c ∷ prefix) = false
has_prefix (d ∷ s) (c ∷ prefix) = d == c && has_prefix s prefix

abbrev is_queued : WakeStatus → Bool
is_queued WakeStatus.queued = true
is_queued _ = false

abbrev is_sending_wake : WakeStatus → Bool
is_sending_wake WakeStatus.sending = true
is_sending_wake _ = false

-- internal/daemon/inbox_recovery.go
unfoldable pub inbox_read_recoverable : Delivery → Bool
inbox_read_recoverable d =
    not d.human
    && not (d.worker_id == 0)
    && is_queued d.wake_status
    && d.acknowledged_at == 0
    && d.consumed_at == 0
    && d.attempt_id == 0
    && d.attempted_at == 0
    && has_prefix d.error (codes "held: readiness read failed: ")

unfoldable pub may_wake : Delivery → Bool
may_wake d = is_queued d.wake_status && d.consumed_at == 0 && d.acknowledged_at == 0

unfoldable pub attempted : ℕ → ℕ → Worker → Pane → Delivery → Delivery
attempted now attempt w p d = record d {
  wake_status = WakeStatus.sending;
  attempt_id = attempt;
  attachment_id = w.attachment_id;
  baseline_seq = p.state_change_seq;
  baseline_completion_seq = p.completion_seq;
  working_seq = 0;
  error = [];
  attempted_at = now;
  updated_at = now;
}

unfoldable pub wake_operation : ℕ → ℕ → ℕ → ℕ → Operation
wake_operation now attempt fingerprint pending = record {
  id = attempt;
  fingerprint = fingerprint;
  state = OperationState.accepted;
  resource = Resource.of_delivery pending;
  result = Reply.no_reply;
  error_code = none;
  created_at = now;
  updated_at = now;
}

-- The intent of processInbox: one pending delivery, and an operation for the attempt.
unfoldable pub wake_intent_tx : ℕ → ℕ → ℕ → Bool → Worker → Pane → ℕ → Db → Result Code Db
unfolding attempted may_wake inbox_read_recoverable terminal_recipient wake_operation
wake_intent_tx now attempt fingerprint recovery w p pending db = do
  current ← get db.workers w.id
  refuse (not (current.attachment_id == w.attachment_id) || terminal_recipient current)
      Code.stale_attachment
  operations ← put attempt attempt (wake_operation now attempt fingerprint pending) db.operations
  d ← get db.deliveries pending
  refuse (recovery && not (inbox_read_recoverable d)) Code.delivery_changed
  refuse (not (may_wake d)) Code.delivery_changed
  deliveries ← put d.id d.id (attempted now attempt w p d) db.deliveries
  ok (
      event EventType.delivery_attempted (worker_scope w) Actor.daemon 0
        (record db { operations = operations; deliveries = deliveries }))

-- A certain refusal gives the delivery back to the queue.
unfoldable pub wake_after : Option Code → WakeStatus
unfolding is_uncertain
wake_after none = WakeStatus.sent
wake_after (some code) = if is_uncertain code then WakeStatus.uncertain else WakeStatus.queued

abbrev is_closed_wake : WakeStatus → Bool
is_closed_wake WakeStatus.ended = true
is_closed_wake WakeStatus.acknowledged = true
is_closed_wake WakeStatus.resolved = true
is_closed_wake _ = false

-- The outcome of the attempt; `text` is that of the error.
unfoldable pub with_wake_outcome : ℕ → Option Code → Text → Delivery → Delivery
unfolding wake_after
with_wake_outcome now answer text d =
    let wake = if is_sending_wake d.wake_status then wake_after answer else d.wake_status in
    let seen = record d { wake_status = wake; updated_at = now } in
    elim answer [
      | none ↦ record seen {
        status = if d.acknowledged_at == 0 then DeliveryStatus.delivered else d.status;
        delivered_at = now;
      }
      | some _ ↦ if is_closed_wake wake then seen else record seen { error = text }
    ]

unfoldable pub wake_outcome_tx : ℕ → ℕ → Option Code → Text → Worker → ℕ → Db → Result Code Db
unfolding with_wake_outcome wake_after prompt_state
wake_outcome_tx now attempt answer text w pending db = do
  d ← get db.deliveries pending
  let own = d.attempt_id == attempt in
      let d' = if own then with_wake_outcome now answer text d else d in
      let wake = if own then d'.wake_status else wake_after answer in
      (do
        deliveries ← (if own then put d.id d.id d' db.deliveries else ok db.deliveries)
        operations ←
            finish_op now attempt (Reply.wake pending wake) answer (prompt_state answer)
              db.operations
        ok (
            event (EventType.delivery_now wake) (worker_scope w) Actor.daemon 0
              (record db { deliveries = deliveries; operations = operations })))

unfoldable pub held : ℕ → Text → Delivery → Delivery
held now reason d = record d { error = reason; updated_at = now }

unfoldable pub hold_all : ℕ → ℕ → Text → List Delivery → Db → Result Code Db
unfolding held may_wake
hold_all now worker_id reason [] db = ok db
hold_all now worker_id reason (d ∷ ds) db =
    if may_wake d && not (text_eq d.error reason)
    then (do
      deliveries ← put d.id d.id (held now reason d) db.deliveries
      w ← get db.workers worker_id
      hold_all now worker_id reason ds (
          event EventType.delivery_held (worker_scope w) Actor.daemon 0
            (record db { deliveries = deliveries })))
    else hold_all now worker_id reason ds db

unfoldable pub hold_queued_deliveries : ℕ → ℕ → Text → Db → Result Code Db
unfolding hold_all
hold_queued_deliveries now worker_id reason db =
    hold_all now worker_id reason (list (λ d. d.worker_id == worker_id) db.deliveries) db

unfoldable pub lost_wake : ℕ → Delivery → Delivery
lost_wake now d = record d {
  wake_status = WakeStatus.uncertain;
  error =
      codes
        "wake intent has no live transport attempt; inspect operation and worker before explicit resolution";
  updated_at = now;
}

abbrev is_accepted : OperationState → Bool
is_accepted OperationState.accepted = true
is_accepted _ = false

abbrev lose_attempt : ℕ → Delivery → Table Operation → Result Code (Table Operation)
lose_attempt now d operations = elim (find operations d.attempt_id) [
  | none ↦ ok operations
  | some op ↦
      if is_accepted op.state
      then finish_op now op.id Reply.no_reply (some Code.uncertain) OperationState.uncertain
          operations
      else ok operations
]

-- `live`: the attempt is still in flight.
unfoldable pub mark_lost_wake : ℕ → Bool → ℕ → ℕ → Db → Result Code Db
unfolding lost_wake find
mark_lost_wake now live id attempt db = do
  d ← get db.deliveries id
  if not (is_sending_wake d.wake_status) || not (d.attempt_id == attempt) || live
      then ok db
      else (do
        deliveries ← put d.id d.id (lost_wake now d) db.deliveries
        operations ← lose_attempt now d db.operations
        w ← get db.workers d.worker_id
        ok (
            event (EventType.delivery_now WakeStatus.uncertain) (worker_scope w) Actor.daemon 0
              (record db { deliveries = deliveries; operations = operations })))
