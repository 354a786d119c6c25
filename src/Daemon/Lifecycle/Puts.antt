-- ===== src/Daemon/Lifecycle/Puts.antt =====
-- Which dispatch each transaction of internal/daemon/dispatch.go and workers.go puts, where it
-- commits.
use herdr_woof.Prelude.{
  ℕ, ◌+◌, ◌≡◌, ◌≢◌, ◌⊎◌, inl, inr, ◌∙◌, Bool, true, not, Option, none, arith, Bool-cases, ◌&&◌,
  ◌||◌, ◌==◌, List,
}
use herdr_woof.Prelude.Result.{ok, refuse, ok_steps, refuse_passed, ◌>>◌}
use herdr_woof.Prelude.Text.{Text}
use herdr_woof.Daemon.Model.{
  Code, Caller, Actor, EventType, Reply, OperationState, Message, Worker, Run, Pane, Dispatch,
  active_dispatch,
}
use herdr_woof.Daemon.Store.{Db, Table, get, put, put_dispatch, event}
use herdr_woof.Daemon.Store.Rows.{put_lem}
use herdr_woof.Daemon.Dispatch.{
  Request, intent_tx, put_run_created, commit_tx, commit_sending, after_prompt, is_sending,
}
use herdr_woof.Daemon.Control.{failed_by, fail_tx, nudge_tx, fence_one}
use herdr_woof.Daemon.Report.{
  DoneArgs, done_tx, record_report, with_report, finish_settled, after_report, report_message,
  finish_done, same_outcome, report_outcome_of,
}
use herdr_woof.Daemon.Observe.{settle_observed, observe_one, observe_dispatch}
use herdr_woof.Daemon.Settle.{sync_schedule_run, dispatch_event, finish_op}
use herdr_woof.Daemon.Lifecycle.Frames.{dispatch_event-IsFrame, sync_schedule_run-IsFrame}

sync_dispatches :
    (now : ℕ) (d : Dispatch) (kind : Actor) (id : ℕ) (db db' : Db)
    → sync_schedule_run now d kind id db ≡ ok db'
    → db'.dispatches ≡ db.dispatches
sync_dispatches now d kind id db db' h = (sync_schedule_run-IsFrame now d kind id db h).dispatches

event_dispatches :
    (type : EventType) (d : Dispatch) (db db' : Db)
    → dispatch_event type d db ≡ ok db'
    → db'.dispatches ≡ db.dispatches
event_dispatches type d db db' h = (dispatch_event-IsFrame type d db h).dispatches

message_id :
    (id : ℕ) (m : Message) (rows rows' : Table Message) → put id id m rows ≡ ok rows' → id ≢ 0
message_id id m rows rows' h = (put_lem id id m rows h).0

pub intent_put :
    (r : Request) (w : Worker) (p : Pane) (d : Dispatch) (run : Option Run) (db : Db) {db' : Db}
    → intent_tx r w p d run db ≡ ok db'
    → put_dispatch d.id d db.dispatches ≡ ok db'.dispatches
unfolding intent_tx put_run_created event
intent_put r w p d run db h = ground arith

pub commit_put :
    (now request id : ℕ) (answer : Option Code) (db : Db) {db' : Db} (current : Dispatch)
    → get db.dispatches id ≡ ok current
    → commit_tx now request id answer db ≡ ok db'
    → ((is_sending current.status ≡ true)
        × (put_dispatch
              (after_prompt now answer current).id
              (after_prompt now answer current)
              db.dispatches
            ≡ ok db'.dispatches))
      ⊎ (db'.dispatches ≡ db.dispatches)
unfolding commit_tx commit_sending event
commit_put now request id answer db current h k = ground arith

pub fail_put :
    (now request : ℕ) (caller : Caller) (reason : Text) (id : ℕ) (db : Db) {db' : Db}
    (current : Dispatch)
    → get db.dispatches id ≡ ok current
    → fail_tx now request caller reason id db ≡ ok db'
    → (active_dispatch current ≡ true)
      × (put_dispatch id (failed_by now reason current) db.dispatches ≡ ok db'.dispatches)
unfolding fail_tx event
fail_put now request caller reason id db current h k = grind (arith, sync_dispatches)

pub nudge_put :
    (id : ℕ) (db : Db) {db' : Db} (current : Dispatch)
    → get db.dispatches id ≡ ok current
    → nudge_tx id db ≡ ok db'
    → put_dispatch id (record current { nudges = current.nudges + 1 }) db.dispatches
      ≡ ok db'.dispatches
unfolding nudge_tx
nudge_put id db current h k = ground arith

pub fence_put :
    (now : ℕ) (reason : Text) (d : Dispatch) (db : Db) {db' : Db}
    → fence_one now reason d db ≡ ok db'
    → put_dispatch d.id (failed_by now reason d) db.dispatches ≡ ok db'.dispatches
unfolding fence_one event
fence_put now reason d db h = grind (arith, sync_dispatches)

after_report_dispatches :
    (a : DoneArgs) (d : Dispatch) (db db' : Db)
    → after_report a d db ≡ ok db'
    → db'.dispatches ≡ db.dispatches
unfolding finish_settled
after_report_dispatches a d db db' h = grind (arith, sync_dispatches, event_dispatches)

sync_workers :
    (now : ℕ) (d : Dispatch) (kind : Actor) (id : ℕ) (db db' : Db)
    → sync_schedule_run now d kind id db ≡ ok db'
    → db'.workers ≡ db.workers
sync_workers now d kind id db db' h = (sync_schedule_run-IsFrame now d kind id db h).workers

event_workers :
    (type : EventType) (d : Dispatch) (db db' : Db)
    → dispatch_event type d db ≡ ok db'
    → db'.workers ≡ db.workers
event_workers type d db db' h = (dispatch_event-IsFrame type d db h).workers

after_report_workers :
    (a : DoneArgs) (d : Dispatch) (db db' : Db)
    → after_report a d db ≡ ok db'
    → db'.workers ≡ db.workers
unfolding finish_settled
after_report_workers a d db db' h = grind (arith, sync_workers, event_workers)

pub record_workers :
    (a : DoneArgs) (refs : List Text) (w : Worker) (d : Dispatch) (db db' : Db)
    → record_report a refs w d db ≡ ok db'
    → db'.workers ≡ db.workers
unfolding record_report event
record_workers a refs w d db db' h = grind (arith, after_report_workers)

-- A first report: the dispatch is active, and the message that reports it has an id.
pub record_put :
    (a : DoneArgs) (refs : List Text) (w : Worker) (d : Dispatch) (db : Db) {db' : Db}
    → record_report a refs w d db ≡ ok db'
    → (active_dispatch d ≡ true)
      × (a.new_message ≢ 0)
      × (put_dispatch d.id (with_report a w d) db.dispatches ≡ ok db'.dispatches)
unfolding record_report event
record_put a refs w d db h =
    let (free, p) = refuse_passed (not (active_dispatch d)) Code.dispatch_finished _ h in
    let (messages, q, p1) =
      ok_steps (put a.new_message a.new_message (report_message a refs d) db.messages) _ p in
    let (dispatches, q', p2) =
      ok_steps (put_dispatch d.id (with_report a w d) db.dispatches) _ p1 in
    let (db1, r, p3) = ok_steps (after_report a (with_report a w d) _) _ p2 in
    let same : db1.dispatches ≡ dispatches =
      after_report_dispatches a (with_report a w d) _ db1 r in
    let last =
      ok_steps
        (finish_op a.now a.request (Reply.of_dispatch (with_report a w d)) none
          OperationState.completed db1.operations)
        _ p3 in
    let end = last.2 in
    (
      ground arith,
      message_id a.new_message _ db.messages messages q,
      q' ∙ ground (arith, same, end),
    )

repeat_dispatches :
    (a : DoneArgs) (d : Dispatch) (db db' : Db)
    → (refuse
          (not (same_outcome d.report_outcome (report_outcome_of a.outcome)))
          Code.report_conflict
        >> finish_done a d db)
      ≡ ok db'
    → db'.dispatches ≡ db.dispatches
repeat_dispatches a d db db' h = ground arith

pub done_put :
    (a : DoneArgs) (refs : List Text) (db db' : Db)
    → done_tx a refs db ≡ ok db'
    → (d : Dispatch) × (w : Worker) × (get db.dispatches a.dispatch ≡ ok d)
      × (((d.done_message_id ≡ 0)
            × (active_dispatch d ≡ true)
            × (a.new_message ≢ 0)
            × (put_dispatch d.id (with_report a w d) db.dispatches ≡ ok db'.dispatches))
          ⊎ (db'.dispatches ≡ db.dispatches))
unfolding done_tx
done_put a refs db db' h =
    let (d, p, h1) = ok_steps (get db.dispatches a.dispatch) _ h in
    let (w, q, h2) = ok_steps (get db.workers d.worker_id) _ h1 in
    let (_, h3) =
      refuse_passed (not (d.attachment_id == a.attachment) || not (w.attachment_id == a.attachment))
        Code.stale_attachment _ h2 in
    let (_, h4) =
      refuse_passed (not (a.caller_worker == 0) && not (a.caller_worker == d.worker_id))
        Code.wrong_worker _ h3 in
    (
      d,
      w,
      p,
      elim (Bool-cases (d.done_message_id == 0)) [
        | inl e ↦
            let r : record_report a refs w d db ≡ ok db' = ground (arith, h4, e) in
            let (a1, a2, a3) = record_put a refs w d db r in inl (ground arith, a1, a2, a3)
        | inr e ↦ inr (repeat_dispatches a d db db' (ground (arith, h4, e)))
      ],
    )

settle_observed_dispatches :
    (now : ℕ) (d : Dispatch) (db db' : Db)
    → settle_observed now d db ≡ ok db'
    → db'.dispatches ≡ db.dispatches
unfolding settle_observed
settle_observed_dispatches now d db db' h = grind (arith, sync_dispatches, event_dispatches)

pub observe_put :
    (now : ℕ) (changed : Bool) (p : Pane) (d : Dispatch) (db : Db) {db' : Db}
    → observe_one now changed p d db ≡ ok db'
    → put_dispatch d.id (observe_dispatch now changed p d) db.dispatches ≡ ok db'.dispatches
unfolding observe_one
observe_put now changed p d db h = grind (arith, settle_observed_dispatches)
