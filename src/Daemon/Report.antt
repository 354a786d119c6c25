-- ===== src/Daemon/Report.antt =====
-- done of internal/daemon/dispatch.go: a worker reports that its dispatch is done or has failed.
use herdr_woof.Prelude.{
  ℕ, Bool, true, false, not, ◌&&◌, ◌||◌, none, List, [], leb, ◌==◌, if◌then◌else◌,
}
use herdr_woof.Prelude.Result.{Result, ok, ◌>>=◌, ◌>>◌, refuse}
use herdr_woof.Prelude.Text.{Text}
use herdr_woof.Daemon.Model.{
  Code, Worker, WorkerState, Message, Recipient, MessageKind, MessageStatus, Dispatch,
  DispatchStatus, Outcome, Reply, OperationState, EventType, Actor, is_idle, active_dispatch,
  dispatch_scope,
}
use herdr_woof.Daemon.Store.{Db, get, put, put_dispatch, event}
use herdr_woof.Daemon.Settle.{settle_run, finish_op, dispatch_event, sync_schedule_run}

-- The outcome argument: empty means done.
pub data Report : Type 0 where
  unnamed done_report failed_report other : Report

abbrev pub report_outcome_of : Report → Outcome
report_outcome_of Report.failed_report = Outcome.failed
report_outcome_of _ = Outcome.done

abbrev pub is_other : Report → Bool
is_other Report.other = true
is_other _ = false

pub record DoneArgs : Type 0 where
  pub request : ℕ
  pub caller_worker : ℕ
  pub dispatch : ℕ
  pub attachment : ℕ
  pub outcome : Report
  pub body : Text
  pub artifacts : Result Code (List Text)
  pub new_message : ℕ
  pub now : ℕ

-- `a != b` on two outcomes.
abbrev pub same_outcome : Outcome → Outcome → Bool
same_outcome Outcome.done Outcome.done = true
same_outcome Outcome.failed Outcome.failed = true
same_outcome _ _ = false

unfoldable pub not_lost : WorkerState → Bool
not_lost WorkerState.offline = false
not_lost WorkerState.lost = false
not_lost _ = true

-- The turn has ended already, and the worker still reads as idle.
unfoldable pub can_settle : Dispatch → Worker → Bool
unfolding not_lost is_idle
can_settle d w =
    d.turn_ended && is_idle w.raw_status && leb d.end_seq w.state_seq && not_lost w.state

unfoldable pub report_message : DoneArgs → List Text → Dispatch → Message
unfolding dispatch_scope
report_message a refs d = record {
  id = a.new_message;
  scope = record (dispatch_scope d) { worker_id = 0 };
  from_kind = Actor.worker;
  from_worker_id = d.worker_id;
  to_kind = Recipient.human;
  to_id = 0;
  subject = [];
  kind = MessageKind.report;
  status = MessageStatus.persisted;
  reply_to_message_id = 0;
  body = a.body;
  artifacts = refs;
  dispatch_id = d.id;
  schedule_run_id = 0;
  created_at = a.now;
}

unfoldable pub reported : DoneArgs → Dispatch → Dispatch
reported a d = record d {
  done_message_id = a.new_message;
  done_at = a.now;
  report_outcome = report_outcome_of a.outcome;
}

unfoldable pub settled : ℕ → Outcome → Dispatch → Dispatch
settled now outcome d = record d {
  status = DispatchStatus.settled;
  settled_at = now;
  outcome = outcome;
}

unfoldable pub with_report : DoneArgs → Worker → Dispatch → Dispatch
unfolding reported settled can_settle
with_report a w d =
    if can_settle (reported a d) w
    then settled a.now (report_outcome_of a.outcome) (reported a d)
    else reported a d

unfoldable pub finish_settled : DoneArgs → Dispatch → Db → Result Code Db
finish_settled a d db = do
  runs ← settle_run a.now d db.runs
  db1 ← dispatch_event (EventType.dispatch_now DispatchStatus.settled) d (record db { runs = runs })
  sync_schedule_run a.now d Actor.worker d.worker_id db1

abbrev pub finish_done : DoneArgs → Dispatch → Db → Result Code Db
finish_done a d db = do
  operations ←
      finish_op a.now a.request (Reply.of_dispatch d) none OperationState.completed db.operations
  ok (record db { operations = operations })

abbrev pub after_report : DoneArgs → Dispatch → Db → Result Code Db
after_report a d db = elim d.status [ DispatchStatus.settled ↦ finish_settled a d db | _ ↦ ok db ]

-- The first report of a dispatch.
unfoldable pub record_report : DoneArgs → List Text → Worker → Dispatch → Db → Result Code Db
unfolding with_report report_message finish_settled
record_report a refs w d db = do
  refuse (not (active_dispatch d)) Code.dispatch_finished
  messages ← put a.new_message a.new_message (report_message a refs d) db.messages
  dispatches ← put_dispatch d.id (with_report a w d) db.dispatches
  db1 ← after_report a (with_report a w d) (
      event EventType.dispatch_reported (dispatch_scope d) Actor.worker d.worker_id
        (record db { messages = messages; dispatches = dispatches }))
  finish_done a (with_report a w d) db1

unfoldable pub done_tx : DoneArgs → List Text → Db → Result Code Db
unfolding record_report
done_tx a refs db = do
  d ← get db.dispatches a.dispatch
  w ← get db.workers d.worker_id
  refuse (not (d.attachment_id == a.attachment) || not (w.attachment_id == a.attachment))
      Code.stale_attachment
  refuse (not (a.caller_worker == 0) && not (a.caller_worker == d.worker_id)) Code.wrong_worker
  if d.done_message_id == 0 then record_report a refs w d db else (do
    refuse (not (same_outcome d.report_outcome (report_outcome_of a.outcome))) Code.report_conflict
    finish_done a d db)

unfoldable pub done : DoneArgs → Db → Result Code Db
unfolding done_tx
done a db = do
  refuse (a.dispatch == 0 || a.attachment == 0) Code.invalid_args
  refs ← a.artifacts
  refuse (is_other a.outcome) Code.invalid_args
  done_tx a refs db
