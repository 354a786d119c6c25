-- ===== src/Daemon/Dispatch.antt =====
-- dispatch of internal/daemon/dispatch.go, from the checks before it to the record of the prompt's
-- outcome. What Herdr, the prompt reader and the artifact reader answer is a parameter.
use herdr_woof.Prelude.{
  ℕ, Bool, true, false, not, ◌&&◌, ◌||◌, Option, none, some, List, [], ◌∷◌, leb, ltb, ◌==◌,
  if◌then◌else◌,
}
use herdr_woof.Prelude.Result.{Result, ok, err, ◌>>=◌, ◌>>◌, refuse}
use herdr_woof.Prelude.Text.{Text, codes, text_eq}
use herdr_woof.Daemon.Model.{
  Code, Caller, Run, RunStatus, Worker, WorkerState, Pane, Delivery, WakeStatus, Dispatch,
  DispatchStatus, Outcome, Reply, Resource, OperationState, EventType, Actor, is_idle,
  session_active, active_dispatch, same_session_binding, dispatch_scope,
}
use herdr_woof.Daemon.Store.{Table, Db, get, put, list, put_dispatch, event}
use herdr_woof.Daemon.Settle.{settle_run, finish_op}

-- What the world answers on the way: no live connection is `none`, and so is a failed call.
pub record World : Type 0 where
  pub connected : Bool
  pub subscription_ready : Bool
  pub agent_get : Option Pane
  pub attachment_verified : Bool
  pub screen_read : Bool
  pub prompt_safe : Bool
  pub handoff_path : Text → Result Code Text

-- The request and the arguments that the handler reads, the ids it makes and the clock it reads.
pub record Request : Type 0 where
  pub id : ℕ
  pub caller : Caller
  pub scope_run_id : ℕ
  pub spec : Text
  pub body : Text
  pub handoff : Text
  pub schedule_run : ℕ
  pub new_dispatch : ℕ
  pub new_run : ℕ
  pub now : ℕ

unfoldable pub is_offline : WorkerState → Bool
is_offline WorkerState.offline = true
is_offline _ = false

unfoldable pub unresolved_wake : WakeStatus → Bool
unresolved_wake WakeStatus.sending = true
unresolved_wake WakeStatus.uncertain = true
unresolved_wake WakeStatus.sent = true
unresolved_wake WakeStatus.acknowledged = true
unresolved_wake _ = false

unfoldable pub wake_pending : Worker → List Delivery → Bool
unfolding unresolved_wake
wake_pending w [] = false
wake_pending w (d ∷ ds) =
    (d.attachment_id == w.attachment_id && unresolved_wake d.wake_status) || wake_pending w ds

unfoldable pub is_ready : Pane → Bool
unfolding is_idle
is_ready p =
    is_idle p.agent_status && elim p.interactive_ready [ none ↦ false | some ready ↦ ready ]

abbrev pub answer {ℓ} : {A : Type ℓ} → Option A → Code → Result Code A
answer none code = err code
answer (some a) code = ok a

-- `unicode.IsSpace`.
unfoldable pub is_space : ℕ → Bool
is_space c =
    (leb 9 c && leb c 13)
    || c == 32
    || c == 133
    || c == 160
    || c == 5760
    || (leb 8192 c && leb c 8202)
    || c == 8232
    || c == 8233
    || c == 8239
    || c == 8287
    || c == 12288

-- `strings.TrimSpace(s) == ""`
unfoldable pub is_blank : Text → Bool
unfolding is_space
is_blank [] = true
is_blank (c ∷ s) = is_space c && is_blank s

-- What the dispatch asks for: the spec, else the body, else the handoff file.
unfoldable pub spec_of : Text → Text → Text → Text
unfolding is_blank
spec_of spec body handoff =
    let spec' = if is_blank spec then body else spec in
    if is_blank spec' && not (text_eq handoff [])
    then codes "Read the handoff file and carry out its request."
    else spec'

-- The checks of the handler up to the intent; the worker and its pane.
unfoldable pub check_dispatch : World → Request → ℕ → Db → Result Code (Worker × Pane)
unfolding session_active is_offline wake_pending is_ready spec_of
check_dispatch world r target db = do
  w ← get db.workers target
  refuse (not (session_active w) || is_offline w.state) Code.worker_not_live
  refuse (is_blank (spec_of r.spec r.body r.handoff)) Code.invalid_args
  refuse (not world.connected) Code.offline
  refuse (not world.subscription_ready) Code.subscription_not_ready
  p ← answer world.agent_get Code.precondition_unavailable
  refuse (not world.attachment_verified) Code.stale_attachment
  refuse (not (is_ready p)) Code.worker_busy
  refuse (not world.screen_read) Code.precondition_unavailable
  refuse (not world.prompt_safe) Code.input_draft
  refuse (wake_pending w (list (λ d. d.worker_id == w.id) db.deliveries)) Code.wake_pending
  ok (w, p)

unfoldable pub new_dispatch : Request → Worker → Pane → Text → ℕ → Dispatch
new_dispatch r w p handoff run_id = record {
  id = r.new_dispatch;
  session_id = w.session_id;
  workspace_id = w.workspace_id;
  worktree_id = w.worktree_id;
  run_id = run_id;
  worker_id = w.id;
  attachment_id = w.attachment_id;
  spec = spec_of r.spec r.body r.handoff;
  handoff = handoff;
  status = DispatchStatus.sending;
  attempt = 1;
  baseline_seq = p.state_change_seq;
  baseline_completion_seq = p.completion_seq;
  observed_working_at = 0;
  last_activity_at = r.now;
  working_seq = 0;
  turn_ended = false;
  end_seq = 0;
  done_message_id = 0;
  report_outcome = Outcome.no_outcome;
  done_at = 0;
  created_at = r.now;
  sent_at = r.now;
  idle_at = 0;
  settled_at = 0;
  outcome = Outcome.no_outcome;
  nudges = 0;
  operation_id = r.id;
  schedule_run_id = r.schedule_run;
  alerts = [];
}

unfoldable pub new_run : Request → Worker → Run
new_run r w = record {
  id = r.new_run;
  session_id = w.session_id;
  workspace_id = w.workspace_id;
  worktree_id = w.worktree_id;
  invoker_worker_id = r.caller.worker_id;
  invoker_pane_ref = r.caller.pane_id;
  title = spec_of r.spec r.body r.handoff;
  status = RunStatus.active;
  implicit = true;
  created_at = r.now;
  updated_at = r.now;
  completed_at = 0;
}

-- The run that the dispatch belongs to: a new implicit one where no run is selected.
unfoldable pub choose_run : Request → Worker → Db → Result Code (ℕ × Option Run)
unfolding new_run
choose_run r w db =
    let run_id = if r.scope_run_id == 0 then w.run_id else r.scope_run_id in
    if run_id == 0 then ok (r.new_run, some (new_run r w)) else (do
      v ← get db.runs run_id
      refuse
          (not (v.session_id == w.session_id)
            || (not (v.workspace_id == 0) && not (v.workspace_id == w.workspace_id)))
          Code.invalid_scope
      ok (run_id, none))

unfoldable pub any_active : List Dispatch → Bool
unfolding active_dispatch
any_active [] = false
any_active (d ∷ ds) = active_dispatch d || any_active ds

abbrev pub dispatch_actor : Request → Actor
dispatch_actor r = if r.schedule_run == 0 then Actor.worker else Actor.schedule

unfoldable pub put_run_created : Request → Dispatch → Option Run → Db → Result Code Db
put_run_created r d none db = ok db
put_run_created r d (some run) db = do
  runs ← put run.id run.id run db.runs
  ok (
      event EventType.run_created (dispatch_scope d) (dispatch_actor r) r.caller.worker_id
        (record db { runs = runs }))

-- The transaction that records the intent to prompt.
unfoldable pub intent_tx : Request → Worker → Pane → Dispatch → Option Run → Db → Result Code Db
unfolding any_active put_run_created session_active is_offline same_session_binding
intent_tx r w p d run db = do
  current ← get db.workers w.id
  refuse
      (not (same_session_binding w current)
        || not (session_active current)
        || is_offline current.state
        || ltb p.state_change_seq current.state_seq)
      Code.stale_attachment
  refuse (any_active (list (λ x. x.worker_id == w.id) db.dispatches)) Code.dispatch_active
  db1 ← put_run_created r d run db
  dispatches ← put_dispatch d.id d db1.dispatches
  op ← get db1.operations r.id
  operations ← put op.id op.id (record op { resource = Resource.of_dispatch d.id }) db1.operations
  ok (
      event EventType.dispatch_created (dispatch_scope d) (dispatch_actor r) r.caller.worker_id
        (record db1 { dispatches = dispatches; operations = operations }))

-- How the prompt ended: sent, or an error with its code.
unfoldable pub is_uncertain : Code → Bool
is_uncertain Code.uncertain = true
is_uncertain _ = false

unfoldable pub after_prompt : ℕ → Option Code → Dispatch → Dispatch
unfolding is_uncertain
after_prompt now none d = record d { status = DispatchStatus.active }
after_prompt now (some code) d =
    if is_uncertain code then record d { status = DispatchStatus.uncertain } else record d {
      status = DispatchStatus.failed;
      outcome = Outcome.prompt_refused;
      settled_at = now;
    }

unfoldable pub prompt_state : Option Code → OperationState
unfolding is_uncertain
prompt_state none = OperationState.completed
prompt_state (some code) =
    if is_uncertain code then OperationState.uncertain else OperationState.failed

abbrev pub is_sending : DispatchStatus → Bool
is_sending DispatchStatus.sending = true
is_sending _ = false

abbrev settle_refused : ℕ → Dispatch → Table Run → Result Code (Table Run)
settle_refused now d runs = elim d.status [
  | DispatchStatus.failed ↦ settle_run now d runs
  | _ ↦ ok runs
]

-- The transaction that records the outcome, if the dispatch still waits for it.
unfoldable pub commit_sending : ℕ → Option Code → Dispatch → Db → Result Code Db
unfolding after_prompt
commit_sending now answer current db =
    let d = after_prompt now answer current in
    do
      dispatches ← put_dispatch d.id d db.dispatches
      runs ← settle_refused now d db.runs
      ok (
          event (EventType.dispatch_now d.status) (dispatch_scope d) Actor.daemon 0
            (record db { dispatches = dispatches; runs = runs }))

unfoldable pub commit_tx : ℕ → ℕ → ℕ → Option Code → Db → Result Code Db
unfolding commit_sending prompt_state after_prompt
commit_tx now request id answer db = do
  current ← get db.dispatches id
  db1 ← (if is_sending current.status then commit_sending now answer current db else ok db)
  let d = if is_sending current.status then after_prompt now answer current else current in
      (do
        operations ←
            finish_op now request (Reply.of_dispatch d) answer (prompt_state answer) db1.operations
        ok (record db1 { operations = operations }))

-- The handler: where the outcome cannot be recorded, the intent stays as it is.
unfoldable pub commit_or_keep : Result Code Db → Db → Db
commit_or_keep (ok db) kept = db
commit_or_keep (err code) kept = kept

unfoldable pub dispatch : World → Request → ℕ → Option Code → Db → Result Code Db
unfolding check_dispatch choose_run new_dispatch intent_tx commit_tx commit_or_keep
dispatch world r target prompt_answer db = do
  (w, p) ← check_dispatch world r target db
  handoff ← (if text_eq r.handoff [] then ok [] else world.handoff_path r.handoff)
  (run_id, run) ← choose_run r w db
  let d = new_dispatch r w p handoff run_id in
      (do
        db1 ← intent_tx r w p d run db
        ok (commit_or_keep (commit_tx r.now r.id d.id prompt_answer db1) db1))
