-- ===== src/Daemon/Send.antt =====
-- send of internal/daemon/messaging.go: a message, a question or a reply to one worker, to the
-- workers of a run or to the human; and resolveWorker of internal/daemon/core.go.
pub mod Replies
use herdr_woof.Prelude.{
  ℕ, Bool, true, false, not, ◌&&◌, ◌||◌, Option, none, some, List, [], ◌∷◌, ◌++◌, ◌==◌, map,
  if◌then◌else◌,
}
use herdr_woof.Prelude.Result.{Result, ok, err, ◌>>=◌, ◌>>◌, refuse}
use herdr_woof.Prelude.Text.{Text}
use herdr_woof.Daemon.Model.{
  Code, Scope, Worker, Run, Message, MessageKind, MessageStatus, Recipient, Delivery, Dispatch,
  OperationState, Reply, EventType, Actor, terminal_recipient,
}
use herdr_woof.Daemon.Store.{Table, Db, find, get, put, list, event}
use herdr_woof.Daemon.Settle.{finish_op}
use herdr_woof.Daemon.Dispatch.{is_blank}
use herdr_woof.Daemon.Mailbox.{AckArgs, delivery_belongs, ack_all, queued_delivery, put_message}
use herdr_woof.Daemon.Watchdog.{human_delivery}

-- `a.To`: the human, a run, or a worker by its id or its name.
pub data Target : Type 0 where
  human : Target
  run : ℕ → Target
  worker : ℕ → Target

pub data SendOp : Type 0 where
  send ask reply : SendOp

-- What the handler uses of a request, and the ids that it may make.
pub record SendArgs : Type 0 where
  pub request : ℕ
  pub op : SendOp
  pub caller : ℕ
  pub scope : Scope
  pub kind : MessageKind
  pub to : Target
  pub question : ℕ
  pub subject : Text
  pub body : Text
  pub artifacts : Result Code (List Text)
  pub new_message : ℕ
  pub new_delivery : ℕ → ℕ
  pub new_human : ℕ
  pub now : ℕ

-- resolveWorker: an id first, and else a name within the session and the workspace.
abbrev is_within : Scope → Worker → Bool
is_within s w =
    (s.session_id == 0 || w.session_id == s.session_id)
    && (s.workspace_id == 0 || w.workspace_id == s.workspace_id)

abbrev only_match : List Worker → Result Code Worker
only_match [] = err Code.not_found
only_match (w ∷ []) = ok w
only_match (w ∷ v ∷ ws) = err Code.ambiguous_worker

unfoldable pub resolve_worker : ℕ → Scope → Db → Result Code Worker
unfolding find list terminal_recipient
resolve_worker id s db = elim (find db.workers id) [
  | some w ↦ ok w
  | none ↦
      only_match
        (list (λ w. is_within s w && w.name == id && not (terminal_recipient w)) db.workers)
]

abbrev pub is_question : MessageKind → Bool
is_question MessageKind.question = true
is_question _ = false

abbrev pub is_replied : MessageStatus → Bool
is_replied MessageStatus.replied = true
is_replied MessageStatus.persisted = false

abbrev pub is_human : Recipient → Bool
is_human Recipient.human = true
is_human _ = false

-- What is sent, after the checks of the handler; `reply_to` is 0 for no question.
pub record Sending : Type 0 where
  pub kind : MessageKind
  pub to : Target
  pub scope : Scope
  pub reply_to : ℕ

abbrev pub asker : Message → Target
asker q = if q.from_worker_id == 0 then Target.human else Target.worker q.from_worker_id

abbrev pub within_question : Scope → Message → Scope
within_question s q = record q.scope { worker_id = s.worker_id }

-- The recipient of the question, and no other, may reply.
unfoldable pub is_asked : ℕ → Scope → Message → Bool
unfolding delivery_belongs
is_asked caller scope q = delivery_belongs caller scope.worker_id q.to_id (is_human q.to_kind)

unfoldable pub sending_of : SendArgs → Db → Result Code Sending
unfolding is_asked
sending_of a db = elim a.op [
  | SendOp.send ↦ ok (record { kind = a.kind; to = a.to; scope = a.scope; reply_to = 0 })
  | SendOp.ask ↦
      ok (record { kind = MessageKind.question; to = a.to; scope = a.scope; reply_to = 0 })
  | SendOp.reply ↦ (do
    q ← get db.messages a.question
    refuse (not (is_question q.kind)) Code.invalid_args
    refuse (is_replied q.status) Code.already_replied
    refuse (not (is_asked a.caller a.scope q)) Code.wrong_recipient
    ok (record {
      kind = MessageKind.reply;
      to = asker q;
      scope = within_question a.scope q;
      reply_to = q.id;
    }))
]

abbrev pub resolved_target : Sending → Db → Result Code Target
resolved_target s db = elim s.to [
  | Target.human ↦ ok Target.human
  | Target.run id ↦ (do refuse (is_question s.kind) Code.invalid_recipient; ok (Target.run id))
  | Target.worker id ↦ (do w ← resolve_worker id s.scope db; ok (Target.worker w.id))
]

abbrev pub run_scope : Run → Scope
run_scope r = record {
  session_id = r.session_id;
  workspace_id = r.workspace_id;
  worktree_id = r.worktree_id;
  run_id = r.id;
  worker_id = 0;
}

abbrev pub or_else : ℕ → ℕ → ℕ
or_else id other = if id == 0 then other else id

abbrev pub worker_place : Scope → Worker → Scope
worker_place s w = record s {
  session_id = or_else s.session_id w.session_id;
  workspace_id = or_else s.workspace_id w.workspace_id;
}

-- The members of a run: its own workers, and those that it has a dispatch for.
unfoldable pub has_dispatch : ℕ → ℕ → Table Dispatch → Bool
has_dispatch of_run by [] = false
has_dispatch of_run by ((_, d) ∷ rows) =
    (d.run_id == of_run && d.worker_id == by) || has_dispatch of_run by rows

unfoldable pub is_member : Run → Db → Worker → Bool
unfolding has_dispatch
is_member r db w = w.run_id == r.id || has_dispatch r.id w.id db.dispatches

-- The recipients and the scope, read in the transaction: the live members of a run, or one worker.
unfoldable pub recipients : Sending → Db → Result Code (List Worker × Scope)
unfolding list terminal_recipient is_member
recipients s db = elim s.to [
  | Target.human ↦ ok ([], s.scope)
  | Target.run id ↦ (do
    r ← get db.runs id
    ok (list (λ w. is_member r db w && not (terminal_recipient w)) db.workers, run_scope r))
  | Target.worker id ↦ (do
    w ← get db.workers id
    refuse (terminal_recipient w) Code.released
    ok (w ∷ [], worker_place s.scope w))
]

abbrev kind_of : Target → Recipient
kind_of Target.human = Recipient.human
kind_of (Target.run id) = Recipient.run
kind_of (Target.worker id) = Recipient.worker

abbrev id_of : Target → ℕ
id_of Target.human = 0
id_of (Target.run id) = id
id_of (Target.worker id) = id

abbrev pub sender : ℕ → Actor
sender caller = if caller == 0 then Actor.human else Actor.worker

abbrev pub message_scope : Scope → Scope
message_scope s = record s { worker_id = 0 }

unfoldable pub sent_message : SendArgs → Sending → Scope → List Text → Message
sent_message a s scope refs = record {
  id = a.new_message;
  scope = message_scope scope;
  from_kind = sender a.caller;
  from_worker_id = a.caller;
  to_kind = kind_of s.to;
  to_id = id_of s.to;
  subject = a.subject;
  kind = s.kind;
  status = MessageStatus.persisted;
  reply_to_message_id = s.reply_to;
  body = a.body;
  artifacts = refs;
  dispatch_id = 0;
  schedule_run_id = 0;
  created_at = a.now;
}

abbrev pub question_ack : SendArgs → Scope → ℕ → AckArgs
question_ack a scope question = record {
  request = a.request;
  caller = a.caller;
  scope = scope;
  consume = false;
  message = question;
  now = a.now;
}

-- A reply marks its question, and acknowledges the question's delivery to the one who replies.
unfoldable pub mark_replied : SendArgs → Sending → Scope → Db → Result Code Db
unfolding is_asked ack_all list
mark_replied a s scope db = if s.reply_to == 0 then ok db else (do
  q ← get db.messages s.reply_to
  refuse (is_replied q.status) Code.already_replied
  refuse (not (is_asked a.caller scope q)) Code.wrong_recipient
  messages ← put q.id q.id (record q { status = MessageStatus.replied }) db.messages
  (_, db1) ←
      ack_all (question_ack a scope q.id) q.id (list (λ d. true) db.deliveries)
        (record db { messages = messages })
  ok db1)

abbrev pub numbered : SendArgs → List Worker → List (ℕ × Worker)
numbered a ws = map (λ (w : Worker). (a.new_delivery w.id, w)) ws

abbrev pub to_the_human : SendArgs → Message → Delivery
to_the_human a m =
    record (human_delivery
      (record { now = a.now; message = m.id; delivery = a.new_human; body = m.body }) m.scope) {
        delivered_at = a.now;
      }

unfoldable pub put_for_human : SendArgs → Message → Db → Result Code Db
unfolding human_delivery event
put_for_human a m db = if not (is_human m.to_kind) then ok db else (do
  deliveries ← put a.new_human a.new_human (to_the_human a m) db.deliveries
  ok (
      event EventType.message_available m.scope m.from_kind m.from_worker_id
        (record db { deliveries = deliveries })))

unfoldable pub all_deliveries : SendArgs → Message → List Worker → List Delivery
unfolding queued_delivery human_delivery
all_deliveries a m ws =
    map (λ (w : Worker). queued_delivery a.now (a.new_delivery w.id) m w) ws
    ++ (if is_human m.to_kind then to_the_human a m ∷ [] else [])

abbrev pub announced : Sending → Scope → Message → Db → Db
announced s scope m db =
    let db1 = event EventType.message_persisted scope m.from_kind m.from_worker_id db in
    if s.reply_to == 0
    then db1
    else event EventType.question_replied scope m.from_kind m.from_worker_id db1

unfoldable pub send_tx : SendArgs → Sending → List Text → Db → Result Code Db
unfolding recipients sent_message mark_replied put_message put_for_human all_deliveries event
send_tx a s refs db = do
  (ws, scope) ← recipients s db
  let m = sent_message a s scope refs
  db1 ← mark_replied a s scope db
  db2 ← put_message a.now m (numbered a ws) db1
  db3 ← put_for_human a m db2
  let db4 = announced s scope m db3
  operations ←
      finish_op a.now a.request (Reply.sent m (all_deliveries a m ws)) none OperationState.completed
        db4.operations
  ok (record db4 { operations = operations })

unfoldable pub send_message : SendArgs → Db → Result Code Db
unfolding sending_of resolve_worker send_tx
send_message a db = do
  s ← sending_of a db
  refuse (is_blank a.body) Code.invalid_args
  refs ← a.artifacts
  to ← resolved_target s db
  send_tx a (record s { to = to }) refs db
