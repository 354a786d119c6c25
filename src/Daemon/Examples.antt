-- ===== src/Daemon/Examples.antt =====
-- One worker from its dispatch to the settled report: tests of internal/daemon and the theorems at
-- these inputs.
use herdr_woof.Prelude.{
  ℕ, ◌≡◌, ◌≢◌, ◌⊎◌, ◌↔◌, inr, refl, sym, subst, Bool, arith, true, false, none, some, [], ◌∷◌,
}
use herdr_woof.Prelude.Result.{Result, ok, err}
use herdr_woof.Prelude.Text.{codes, text_eq}
use herdr_woof.Daemon.Model.{
  Code, Worker, WorkerState, Note, Pane, Dispatch, DispatchStatus, Outcome, Operation, Resource,
  OperationState, Reply, Delivery, DeliveryStatus, WakeStatus, terminal_recipient, active_dispatch,
  is_idle, is_open, session_active, same_session_binding, same_native, clear_native_recovery,
  clear_blocked, worker_scope, dispatch_scope,
}
use herdr_woof.Daemon.Store.{
  Db, find, get, put, put_row, list, put_dispatch, has_other_active, event,
}
use herdr_woof.Daemon.Settle.{
  settle_run, finish_op, dispatch_event, sync_schedule_run, is_finished, with_outcome,
}
use herdr_woof.Daemon.Dispatch.{
  World, Request, dispatch, check_dispatch, choose_run, new_run, new_dispatch, intent_tx, commit_tx,
  commit_sending, commit_or_keep, after_prompt, prompt_state, is_uncertain, any_active, is_offline,
  is_ready, wake_pending, put_run_created, spec_of, is_blank, is_space,
}
use herdr_woof.Daemon.Control.{fail_tx, failed_by}
use herdr_woof.Daemon.Report.{
  Report, DoneArgs, done_tx, record_report, with_report, reported, settled, can_settle, not_lost,
  report_message, finish_settled,
}
use herdr_woof.Daemon.Observe.{
  Identified, observe_dispatch, observe_tx, observe_current, observe_all, observe_one,
  observe_deliveries, finish_observation, settle_observed, see_working, see_end, may_settle,
  turn_evidence, completed_at, not_observable, recovered, with_reset, with_pane, with_blocked,
  has_changed,
}
use herdr_woof.Daemon.Observe.Evidence.{TurnIsOver, observe_dispatch-settles}
use herdr_woof.Daemon.Mailbox.{
  wake_intent_tx, wake_operation, attempted, may_wake, inbox_read_recoverable,
}
use herdr_woof.Daemon.Mailbox.Once.{wake_intent_tx_once}
use herdr_woof.Daemon.Requests.{
  Call, accepted, receipt_result, handle, run_once, conclude, save, state_of,
}
use herdr_woof.Daemon.Requests.Replay.{IsLeft, accepted_db, handle_again}
use herdr_woof.Daemon.Lifecycle.{AreSound, IsAdvance}
use herdr_woof.Daemon.Lifecycle.Reach.{Step, Reaches, reach-IsAdvance}
use herdr_woof.Daemon.Lifecycle.Repeat.{done_tx_repeated}
use herdr_woof.Daemon.Lifecycle.Ends.{ended_run, fail_tx_lem}
use herdr_woof.Daemon.Lifecycle.Safe.{IsSafe, dispatch-IsSafe}

abbrev pub builder : Worker
builder = record {
  id = 1;
  session_id = 2;
  workspace_id = 3;
  worktree_id = 0;
  run_id = 0;
  name = 4;
  agent_kind = 5;
  pane_id = 6;
  pane_aliases = [];
  agent_name = 0;
  terminal_id = 7;
  native_session = none;
  agent_process = none;
  attachment_id = 8;
  generation = 1;
  state = WorkerState.idle;
  raw_status = WorkerState.idle;
  revision = 1;
  state_seq = 3;
  completion_seq = none;
  ready = true;
  recovery_held = false;
  recovery_pane_id = 0;
  recovery_read_at = 0;
  updated_at = 50;
  last_seen_at = 50;
  blocked_at = 0;
  blocked_alerted_at = 0;
  blocked_alert_delivery_id = 0;
  blocked_escalated_at = 0;
  error = Note.no_note;
}

abbrev pane_at : WorkerState → ℕ → Pane
pane_at status seq = record {
  pane_id = 6;
  terminal_id = 7;
  agent_session = none;
  agent = none;
  agent_status = status;
  interactive_ready = some true;
  revision = seq;
  state_change_seq = seq;
  completion_seq = none;
}

abbrev operation : ℕ → Operation
operation id = record {
  id = id;
  fingerprint = 0;
  state = OperationState.accepted;
  resource = Resource.no_resource;
  result = Reply.no_reply;
  error_code = none;
  created_at = 90;
  updated_at = 90;
}

abbrev pub start : Db
start = record {
  workers = (1, builder) ∷ [];
  runs = [];
  messages = [];
  deliveries = [];
  dispatches = [];
  schedules = [];
  schedule_runs = [];
  operations = (10, operation 10) ∷ (11, operation 11) ∷ (12, operation 12) ∷ [];
  events = [];
}

abbrev pub request : Request
request = record {
  id = 10;
  caller = record { worker_id = 0; pane_id = 0 };
  scope_run_id = 0;
  spec = codes "build";
  body = [];
  handoff = [];
  schedule_run = 0;
  new_dispatch = 20;
  new_run = 30;
  now = 100;
}

abbrev all_well : World
all_well = record {
  connected = true;
  subscription_ready = true;
  agent_get = some (pane_at WorkerState.idle 3);
  attachment_verified = true;
  screen_read = true;
  prompt_safe = true;
  handoff_path = λ path. ok path;
}

abbrev pub value : Result Code Db → Db
value (ok db) = db
value (err _) = start

abbrev pub built : Dispatch
built = new_dispatch request builder (pane_at WorkerState.idle 3) [] 30

abbrev intended : Db
intended = value (
    intent_tx request builder (pane_at WorkerState.idle 3) built (some (new_run request builder))
      start)

abbrev prompted : Db
prompted = value (commit_tx 101 10 20 none intended)

abbrev seen : WorkerState → ℕ → Identified
seen status seq = record {
  snapshot = builder;
  pane = pane_at status seq;
  recovery = false;
  continuous = true;
  native_continuity = false;
  recovered_process = none;
  recovered_attachment = 0;
  reset_attachment = 0;
}

abbrev working : Db
working = value (observe_tx 110 (seen WorkerState.working 4) prompted)

abbrev report_args : ℕ → ℕ → Report → DoneArgs
report_args request message outcome = record {
  request = request;
  caller_worker = 1;
  dispatch = 20;
  attachment = 8;
  outcome = outcome;
  body = codes "built";
  artifacts = ok [];
  new_message = message;
  now = 120;
}

abbrev told : Db
told = value (done_tx (report_args 11 40 Report.unnamed) [] working)

abbrev finished : Db
finished = value (observe_tx 130 (seen WorkerState.idle 5) told)

-- What a test computes with.
engine : Unit {0}
unfolding dispatch check_dispatch choose_run new_run new_dispatch intent_tx commit_tx commit_sending
    commit_or_keep after_prompt prompt_state is_uncertain any_active is_offline is_ready
    wake_pending put_run_created spec_of is_blank is_space find get put put_row list put_dispatch
    has_other_active event settle_run finish_op dispatch_event sync_schedule_run is_finished
    with_outcome fail_tx failed_by done_tx record_report with_report reported settled can_settle
    not_lost report_message finish_settled observe_dispatch observe_tx observe_current observe_all
    observe_one observe_deliveries finish_observation settle_observed see_working see_end may_settle
    turn_evidence completed_at not_observable recovered with_reset with_pane with_blocked
    has_changed active_dispatch is_idle is_open session_active same_session_binding same_native
    clear_native_recovery clear_blocked worker_scope dispatch_scope text_eq
engine = tt

start-AreSound : AreSound start.dispatches
unfolding find
start-AreSound = record {
  sorted = tt;
  named = λ id d h. cc;
  sound = λ id d h. cc;
  one_active = λ i j d e h k a b w. cc;
}

fresh_id : find start.dispatches 20 ≡ none
unfolding engine
fresh_id = refl

intent_runs :
    intent_tx request builder
      (pane_at WorkerState.idle 3)
      built
      (some (new_run request builder))
      start
    ≡ ok intended
unfolding engine
intent_runs = refl

commit_runs : commit_tx 101 10 20 none intended ≡ ok prompted
unfolding engine
commit_runs = refl

working_runs : observe_tx 110 (seen WorkerState.working 4) prompted ≡ ok working
unfolding engine
working_runs = refl

report_runs : done_tx (report_args 11 40 Report.unnamed) [] working ≡ ok told
unfolding engine
report_runs = refl

idle_runs : observe_tx 130 (seen WorkerState.idle 5) told ≡ ok finished
unfolding engine
idle_runs = refl

to_working : Reaches start working
to_working =
    Reaches.after
      (Reaches.after
        (Reaches.after Reaches.here (
          Step.intent request builder (pane_at WorkerState.idle 3) [] 30
            (some (new_run request builder)) fresh_id intent_runs))
        (Step.commit 101 10 20 none commit_runs))
      (Step.observe 110 (seen WorkerState.working 4) working_runs)

to_finished : Reaches start finished
to_finished =
    Reaches.after
      (Reaches.after to_working (Step.report (report_args 11 40 Report.unnamed) [] report_runs))
      (Step.observe 130 (seen WorkerState.idle 5) idle_runs)

reach-IsAdvance_example : IsAdvance start.dispatches finished.dispatches
reach-IsAdvance_example = reach-IsAdvance start finished start-AreSound to_finished

-- The dispatch of the example is settled at its end.
finished_settled : DispatchStatus × Outcome
unfolding engine
finished_settled = elim (find finished.dispatches 20) [
  | none ↦ (DispatchStatus.sending, Outcome.no_outcome)
  | some d ↦ (d.status, d.outcome)
]

finished_test : finished_settled ≡ (DispatchStatus.settled, Outcome.done)
unfolding finished_settled
finished_test = refl

abbrev dispatched : Db
dispatched = value (dispatch all_well request 1 none start)

dispatch_runs : dispatch all_well request 1 none start ≡ ok dispatched
unfolding engine
dispatch_runs = refl

dispatch-IsSafe_example : (w : Worker) × (p : Pane) × IsSafe all_well 1 start w p
dispatch-IsSafe_example = dispatch-IsSafe all_well request 1 none start dispatched dispatch_runs

-- The report once more, and one that contradicts it.
done_tx_repeated_example :
    (d : Dispatch) × (get told.dispatches 20 ≡ ok d)
    × (done_tx (report_args 12 41 Report.failed_report) [] told ≡ err Code.report_conflict)
done_tx_repeated_example =
    done_tx_repeated (report_args 11 40 Report.unnamed) (report_args 12 41 Report.failed_report) []
      [] working told (reach-IsAdvance start working start-AreSound to_working).still_sound
      report_runs refl refl refl

abbrev reported_dispatch : Dispatch
reported_dispatch = record built {
  status = DispatchStatus.active;
  working_seq = 4;
  done_message_id = 40;
  done_at = 120;
  report_outcome = Outcome.done;
}

reported_active : active_dispatch reported_dispatch ≡ true
unfolding engine
reported_active = refl

observe_dispatch-settles_example :
    ((observe_dispatch 130 true (pane_at WorkerState.idle 5) reported_dispatch).status
      ≡ DispatchStatus.settled)
    ↔ ((is_idle (pane_at WorkerState.idle 5).agent_status ≡ true)
        × (reported_dispatch.done_at ≢ 0)
        × ((reported_dispatch.turn_ended ≡ true)
            ⊎ TurnIsOver (pane_at WorkerState.idle 5) reported_dispatch))
observe_dispatch-settles_example =
    observe_dispatch-settles 130 true (pane_at WorkerState.idle 5) reported_dispatch reported_active

-- The caller gives the dispatch up while the worker works on it.
abbrev given_up : Db
given_up = value (fail_tx 140 12 (record { worker_id = 0; pane_id = 0 }) (codes "stuck") 20 working)

abbrev worked_dispatch : Dispatch
worked_dispatch = record built {
  status = DispatchStatus.active;
  observed_working_at = 110;
  last_activity_at = 110;
  working_seq = 4;
}

given_up_runs :
    fail_tx 140 12 (record { worker_id = 0; pane_id = 0 }) (codes "stuck") 20 working ≡ ok given_up
unfolding engine
given_up_runs = refl

worked_stored : get working.dispatches 20 ≡ ok worked_dispatch
unfolding engine
worked_stored = refl

run_stored : get working.runs worked_dispatch.run_id ≡ ok (new_run request builder)
unfolding engine
run_stored = refl

run_named : (new_run request builder).id ≡ worked_dispatch.run_id
unfolding engine
run_named = refl

other_run : 31 ≢ worked_dispatch.run_id
unfolding engine
other_run = omega arith

fail_tx_lem_example :
    (active_dispatch worked_dispatch ≡ true)
    × (get given_up.dispatches 20
        ≡ ok (record worked_dispatch {
          status = DispatchStatus.failed;
          outcome = Outcome.reason (codes "stuck");
          settled_at = 140;
        }))
    × (get given_up.runs worked_dispatch.run_id ≡ ok (ended_run 140 (new_run request builder)))
    × (find given_up.runs 31 ≡ find working.runs 31)
fail_tx_lem_example =
    fail_tx_lem 140 12 (record { worker_id = 0; pane_id = 0 }) (codes "stuck") 20 working given_up
      worked_dispatch (new_run request builder) 31 worked_stored run_stored run_named other_run
      given_up_runs

-- A note to the worker, in its queue.
abbrev note : Delivery
note = record {
  id = 50;
  message_id = 60;
  worker_id = 1;
  session_id = 2;
  workspace_id = 3;
  run_id = 0;
  human = false;
  status = DeliveryStatus.pending;
  wake_status = WakeStatus.queued;
  attempt_id = 0;
  attachment_id = 0;
  baseline_seq = 0;
  working_seq = 0;
  baseline_completion_seq = none;
  created_at = 95;
  updated_at = 95;
  attempted_at = 0;
  delivered_at = 0;
  acknowledged_at = 0;
  consumed_at = 0;
  escalated = false;
  error = [];
}

abbrev with_note : Db
with_note = record start { deliveries = (50, note) ∷ [] }

abbrev waking : Db
waking = value (wake_intent_tx 100 70 0 false builder (pane_at WorkerState.idle 3) 50 with_note)

mailbox : Unit {0}
unfolding engine wake_intent_tx wake_operation attempted may_wake inbox_read_recoverable
    terminal_recipient
mailbox = tt

waking_runs :
    wake_intent_tx 100 70 0 false builder (pane_at WorkerState.idle 3) 50 with_note ≡ ok waking
unfolding mailbox
waking_runs = refl

note_stored : get with_note.deliveries 50 ≡ ok note
unfolding mailbox
note_stored = refl

wake_intent_tx_once_example :
    (may_wake note ≡ true)
    × (get waking.deliveries 50 ≡ ok (attempted 100 70 builder (pane_at WorkerState.idle 3) note))
    × ((now attempt fingerprint : ℕ) (recovery : Bool) (w : Worker) (p : Pane) (db : Db)
        → wake_intent_tx now attempt fingerprint recovery w p 50 waking ≢ ok db)
wake_intent_tx_once_example =
    wake_intent_tx_once 100 70 0 false builder (pane_at WorkerState.idle 3) 50 with_note waking note
      note_stored refl waking_runs

-- A request that gives the dispatch up and finishes its own receipt, and comes again with the same
-- and with another payload.
abbrev call : ℕ → Call
call fingerprint = record {
  id = 15;
  fingerprint = fingerprint;
  now = 140;
  admit = ok tt;
  in_flight = false;
}

abbrev failed_reply : Reply
failed_reply = Reply.of_dispatch (record worked_dispatch {
  status = DispatchStatus.failed;
  outcome = Outcome.reason (codes "stuck");
  settled_at = 140;
})

abbrev give_up : Db → Result Code Reply × Db
give_up db = elim (fail_tx 140 15 (record { worker_id = 0; pane_id = 0 }) (codes "stuck") 20 db) [
  | err code ↦ (err code, db)
  | ok db' ↦ (ok failed_reply, db')
]

abbrev refused : Db → Result Code Reply × Db
refused db = (err Code.invalid_args, db)

unknown : find working.operations 15 ≡ none
unfolding engine
unknown = refl

handling : Unit {0}
unfolding engine handle run_once conclude save accepted receipt_result state_of
handling = tt

give_up-IsLeft : IsLeft (call 1) (ok failed_reply) (give_up (accepted_db (call 1) working)).1
unfolding handling
give_up-IsLeft = (
  record (accepted (call 1)) { state = OperationState.completed; result = failed_reply },
  refl,
  refl,
  refl,
  inr (refl, refl),
)

given_up_once : (give_up (accepted_db (call 1) working)).0 ≡ ok failed_reply
unfolding handling
given_up_once = refl

handle_again_example :
    ((handle (call 1) give_up working).0 ≡ (give_up (accepted_db (call 1) working)).0)
    × ((call 1).fingerprint ≡ (call 1).fingerprint
        → handle (call 1) refused (handle (call 1) give_up working).1
          ≡ ((give_up (accepted_db (call 1) working)).0, (handle (call 1) give_up working).1))
    × ((call 1).fingerprint ≢ (call 1).fingerprint
        → handle (call 1) refused (handle (call 1) give_up working).1
          ≡ (err Code.request_conflict, (handle (call 1) give_up working).1))
handle_again_example =
    handle_again (call 1) (call 1) give_up refused working (omega arith) unknown refl refl
      (subst (λ out. IsLeft (call 1) out (give_up (accepted_db (call 1) working)).1)
        (sym given_up_once) give_up-IsLeft)
      refl
