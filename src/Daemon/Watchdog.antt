-- ===== src/Daemon/Watchdog.antt =====
-- internal/daemon/watchdog.go and the transaction of internal/daemon/inbox_recovery.go: the alerts of
-- the daemon. They tell a worker or the human of work that needs attention, and change nothing else.
pub mod Once
pub mod Episode
pub mod Human
pub mod Dispatches
use herdr_woof.Prelude.{
  ℕ, ◌+◌, Bool, true, false, not, ◌&&◌, ◌||◌, Option, none, some, List, [], ◌∷◌, ◌++◌, leb, ltb,
  ◌==◌, if◌then◌else◌,
}
use herdr_woof.Prelude.Result.{Result, ok, err, ◌>>=◌, ◌>>◌, refuse}
use herdr_woof.Prelude.Text.{Text}
use herdr_woof.Daemon.Model.{
  Code, Scope, Worker, WorkerState, Run, Message, MessageKind, MessageStatus, Recipient, Delivery,
  DeliveryStatus, WakeStatus, Dispatch, DispatchStatus, Alert, EventType, Actor, is_idle,
  active_dispatch, session_active, same_session_binding, terminal_recipient, worker_scope,
  dispatch_scope,
}
use herdr_woof.Daemon.Store.{Table, Db, find, get, put, put_dispatch, list, event}
use herdr_woof.Daemon.Mailbox.{inbox_read_recoverable}

-- The options of the engine, in milliseconds.
pub record Timeouts : Type 0 where
  pub quiet : ℕ
  pub idle : ℕ
  pub blocked : ℕ
  pub blocked_escalation : ℕ

-- `e.now()-at >= limit`, with a clock that may stand before `at`.
abbrev pub outlasts : ℕ → ℕ → ℕ → Bool
outlasts now at limit = leb (at + limit) now

abbrev pub alert_number : Alert → ℕ
alert_number Alert.attachment_changed = 0
alert_number Alert.prompt_outcome_unobserved = 1
alert_number Alert.turn_unobserved = 2
alert_number Alert.prompt_outcome_uncertain = 3
alert_number Alert.report_without_turn_end = 4
alert_number Alert.idle_without_report = 5
alert_number Alert.no_activity = 6
alert_number Alert.attachment_unavailable = 7
alert_number Alert.continuously_blocked = 8
alert_number Alert.blocked_unresolved = 9

-- `Alerts[why]`, and the assignment that makes it true.
unfoldable pub has_alert : Alert → List Alert → Bool
has_alert why [] = false
has_alert why (a ∷ alerts) = alert_number a == alert_number why || has_alert why alerts

unfoldable pub with_alert : Alert → Dispatch → Dispatch
with_alert why d = record d { alerts = why ∷ d.alerts }

abbrev is_sending : DispatchStatus → Bool
is_sending DispatchStatus.sending = true
is_sending _ = false

abbrev is_unsure : DispatchStatus → Bool
is_unsure DispatchStatus.uncertain = true
is_unsure _ = false

abbrev pub is_blocked_state : WorkerState → Bool
is_blocked_state WorkerState.blocked = true
is_blocked_state _ = false

abbrev pub is_unreachable : WorkerState → Bool
is_unreachable WorkerState.lost = true
is_unreachable WorkerState.offline = true
is_unreachable _ = false

abbrev when : Bool → Alert → List Alert
when b why = if b then why ∷ [] else []

-- What the watchdog has to say of an active dispatch and its worker, in the order of the source.
unfoldable pub reasons : Timeouts → ℕ → Worker → Dispatch → List Alert
unfolding is_idle
reasons t now w d =
    when (not (d.attachment_id == w.attachment_id)) Alert.attachment_changed
    ++ when (is_sending d.status && outlasts now d.sent_at t.quiet) Alert.prompt_outcome_unobserved
    ++ when
        (d.observed_working_at == 0
          && not d.turn_ended
          && not (d.sent_at == 0)
          && outlasts now d.sent_at t.quiet)
        Alert.turn_unobserved
    ++ when (is_unsure d.status) Alert.prompt_outcome_uncertain
    ++ when (not (d.done_at == 0) && not d.turn_ended && outlasts now d.done_at t.quiet)
        Alert.report_without_turn_end
    ++ when
        (is_idle w.raw_status
          && d.done_at == 0
          && not (d.idle_at == 0)
          && outlasts now d.idle_at t.idle)
        Alert.idle_without_report
    ++ when
        (not (is_idle w.raw_status)
          && not (is_blocked_state w.state)
          && not (d.last_activity_at == 0)
          && outlasts now d.last_activity_at t.quiet)
        Alert.no_activity
    ++ when (is_unreachable w.state) Alert.attachment_unavailable

-- What a message of the daemon needs: the clock, the ids and the text for people.
pub record Notice : Type 0 where
  pub now : ℕ
  pub message : ℕ
  pub delivery : ℕ
  pub body : Text

unfoldable pub human_message : Notice → Scope → ℕ → Message
human_message n scope dispatch = record {
  id = n.message;
  scope = scope;
  from_kind = Actor.daemon;
  from_worker_id = 0;
  to_kind = Recipient.human;
  to_id = 0;
  subject = [];
  kind = MessageKind.escalation;
  status = MessageStatus.persisted;
  reply_to_message_id = 0;
  body = n.body;
  artifacts = [];
  dispatch_id = dispatch;
  schedule_run_id = 0;
  created_at = n.now;
}

unfoldable pub human_delivery : Notice → Scope → Delivery
human_delivery n scope = record {
  id = n.delivery;
  message_id = n.message;
  worker_id = 0;
  session_id = scope.session_id;
  workspace_id = scope.workspace_id;
  run_id = scope.run_id;
  human = true;
  status = DeliveryStatus.delivered;
  wake_status = WakeStatus.human;
  attempt_id = 0;
  attachment_id = 0;
  baseline_seq = 0;
  working_seq = 0;
  baseline_completion_seq = none;
  created_at = n.now;
  updated_at = n.now;
  attempted_at = 0;
  delivered_at = 0;
  acknowledged_at = 0;
  consumed_at = 0;
  escalated = false;
  error = [];
}

unfoldable pub worker_delivery : Notice → Scope → Worker → Delivery
unfolding human_delivery
worker_delivery n scope w = record (human_delivery n scope) {
  human = false;
  worker_id = w.id;
  session_id = w.session_id;
  workspace_id = w.workspace_id;
  status = DeliveryStatus.pending;
  wake_status = WakeStatus.queued;
}

-- The candidate, where it can be told.
unfoldable pub available : ℕ → Table Worker → Option Worker
unfolding find session_active
available candidate workers = if candidate == 0 then none else elim (find workers candidate) [
  | none ↦ none
  | some w ↦ if session_active w && not (is_unreachable w.state) then some w else none
]

abbrev addressed : Notice → Scope → ℕ → Option Worker → Message × Delivery
addressed n scope dispatch none = (human_message n scope dispatch, human_delivery n scope)
addressed n scope dispatch (some w) = (
  record (human_message n scope dispatch) { to_kind = Recipient.worker; to_id = w.id },
  worker_delivery n scope w,
)

abbrev pub put_notice : Message × Delivery → Db → Result Code (Delivery × Db)
put_notice (m, delivery) db = do
  messages ← put m.id m.id m db.messages
  deliveries ← put delivery.id delivery.id delivery db.deliveries
  ok (delivery, record db { messages = messages; deliveries = deliveries })

-- escalationTx
unfoldable pub escalation_tx : Notice → Scope → ℕ → ℕ → Db → Result Code (Delivery × Db)
unfolding available human_message human_delivery worker_delivery
escalation_tx n scope dispatch candidate db =
    put_notice (addressed n scope dispatch (available candidate db.workers)) db

-- humanEscalationTx
unfoldable pub human_escalation_tx : Notice → Scope → Db → Result Code Db
unfolding human_message human_delivery event
human_escalation_tx n scope db = do
  (_, db1) ← put_notice (human_message n scope 0, human_delivery n scope) db
  ok (event EventType.delivery_escalated scope Actor.daemon 0 db1)

abbrev pub dispatch_notice : Dispatch → Scope
dispatch_notice d = record {
  session_id = d.session_id;
  workspace_id = d.workspace_id;
  worktree_id = d.worktree_id;
  run_id = d.run_id;
  worker_id = 0;
}

-- The transaction of escalate, for a dispatch that was read before.
unfoldable pub escalate_tx : Notice → Alert → ℕ → Db → Result Code Db
unfolding active_dispatch has_alert with_alert put_dispatch escalation_tx dispatch_scope event
escalate_tx n why id db = do
  d ← get db.dispatches id
  if has_alert why d.alerts || not (active_dispatch d) then ok db else (do
    dispatches ← put_dispatch d.id (with_alert why d) db.dispatches
    run ← get db.runs d.run_id
    (_, db1) ←
        escalation_tx n (dispatch_notice d) d.id run.invoker_worker_id
          (record db { dispatches = dispatches })
    ok (event EventType.dispatch_escalated (dispatch_scope d) Actor.daemon 0 db1))

-- blockedDue: whether the first alert, or the escalation to the human, is owed.
unfoldable pub blocked_due : Timeouts → ℕ → Worker → Bool × Bool
blocked_due t now w =
    if not (is_blocked_state w.state)
      || w.blocked_at == 0
      || not (outlasts now w.blocked_at t.blocked)
    then (false, false)
    else (
      w.blocked_alerted_at == 0,
      not (w.blocked_alerted_at == 0)
          && w.blocked_escalated_at == 0
          && outlasts now w.blocked_alerted_at t.blocked_escalation,
    )

unfoldable pub first_active : List Dispatch → Option Dispatch
unfolding active_dispatch
first_active [] = none
first_active (d ∷ ds) = if active_dispatch d then some d else first_active ds

abbrev pub episode_run : Worker → Option Dispatch → ℕ
episode_run w none = w.run_id
episode_run w (some d) = d.run_id

abbrev pub episode_dispatch : Option Dispatch → ℕ
episode_dispatch none = 0
episode_dispatch (some d) = d.id

abbrev pub episode_scope : Worker → Option Dispatch → Scope
episode_scope w d = record {
  session_id = w.session_id;
  workspace_id = w.workspace_id;
  worktree_id = w.worktree_id;
  run_id = episode_run w d;
  worker_id = 0;
}

-- The invoker of the run; a worker never gets its own alert.
unfoldable pub requester : Worker → ℕ → Table Run → ℕ
unfolding find
requester w run runs = if run == 0 then 0 else elim (find runs run) [
  | none ↦ 0
  | some r ↦ if r.invoker_worker_id == w.id then 0 else r.invoker_worker_id
]

unfoldable pub marked : ℕ → Bool → Delivery → Worker → Worker
marked now first delivery w =
    let w1 = if first then record w { blocked_alerted_at = now } else w in
    if delivery.human
    then record w1 { blocked_escalated_at = now }
    else record w1 { blocked_alert_delivery_id = delivery.id }

-- The alert is an event of the worker, or one of its dispatch, which keeps the reason.
abbrev pub record_alert : Alert → Worker → Option Dispatch → Db → Result Code Db
record_alert why w none db =
    ok (event EventType.worker_escalated (worker_scope w) Actor.daemon 0 db)
record_alert why w (some d) db = do
  dispatches ← put_dispatch d.id (with_alert why d) db.dispatches
  ok (
      event EventType.dispatch_escalated (dispatch_scope d) Actor.daemon 0
        (record db { dispatches = dispatches }))

abbrev pub alert_of : Bool → Alert
alert_of first = if first then Alert.continuously_blocked else Alert.blocked_unresolved

unfoldable pub tell_blocked : Notice → Bool → ℕ → Worker → Option Dispatch → Db → Result Code Db
unfolding escalation_tx marked worker_scope dispatch_scope with_alert put_dispatch event
tell_blocked n first candidate w d db = do
  (delivery, db1) ← escalation_tx n (episode_scope w d) (episode_dispatch d) candidate db
  workers ← put w.id w.id (marked n.now first delivery w) db1.workers
  record_alert (alert_of first) w d (record db1 { workers = workers })

-- The human is told once in an episode: the alert's own delivery may have told already.
abbrev pub tell_alert : Notice → Worker → Option Dispatch → Option Delivery → Db → Result Code Db
tell_alert n w d none db = tell_blocked n false 0 w d db
tell_alert n w d (some alert) db = do
  deliveries ← put alert.id alert.id (record alert { escalated = true }) db.deliveries
  let db1 = record db { deliveries = deliveries }
  if alert.escalated
      then (do
        workers ← put w.id w.id (record w { blocked_escalated_at = n.now }) db1.workers
        ok (record db1 { workers = workers }))
      else tell_blocked n false 0 w d db1

unfoldable pub tell_human : Notice → Worker → Option Dispatch → Db → Result Code Db
unfolding tell_blocked find
tell_human n w d db = tell_alert n w d (find db.deliveries w.blocked_alert_delivery_id) db

-- The transaction of escalateBlocked, for a worker that was read before.
unfoldable pub escalate_blocked_tx : Timeouts → Notice → ℕ → Db → Result Code Db
unfolding blocked_due first_active requester tell_blocked tell_human list
escalate_blocked_tx t n id db = do
  w ← get db.workers id
  let (first, human) = blocked_due t n.now w
  let d = first_active (list (λ d. d.worker_id == w.id) db.dispatches)
  if not first && not human
      then ok db
      else if human
      then tell_human n w d db
      else tell_blocked n true (requester w (episode_run w d) db.runs) w d db

abbrev is_queued : WakeStatus → Bool
is_queued WakeStatus.queued = true
is_queued _ = false

abbrev is_escalation : MessageKind → Bool
is_escalation MessageKind.escalation = true
is_escalation _ = false

abbrev is_under_way : WakeStatus → Bool
is_under_way WakeStatus.uncertain = true
is_under_way WakeStatus.sending = true
is_under_way WakeStatus.sent = true
is_under_way WakeStatus.acknowledged = true
is_under_way _ = false

-- An escalation that did not reach its worker, and a wake without an end of its turn.
unfoldable pub is_undelivered : Timeouts → ℕ → Delivery → Message → Bool
is_undelivered t now d m =
    not d.human
    && not d.escalated
    && is_queued d.wake_status
    && outlasts now d.created_at t.quiet
    && is_escalation m.kind

unfoldable pub is_unanswered : Timeouts → ℕ → Delivery → Message → Bool
is_unanswered t now d m =
    not (d.human || d.escalated || d.attempted_at == 0 || not (outlasts now d.attempted_at t.quiet))
    && is_under_way d.wake_status
    && not (is_escalation m.kind)

abbrev run_scope : ℕ → ℕ → ℕ → Scope
run_scope session workspace run = record {
  session_id = session;
  workspace_id = workspace;
  worktree_id = 0;
  run_id = run;
  worker_id = 0;
}

-- The two transactions that turn a delivery, which was read before, to the human.
unfoldable pub turn_to_human : Notice → Scope → ℕ → Db → Result Code Db
unfolding human_escalation_tx
turn_to_human n scope id db = do
  d ← get db.deliveries id
  if d.escalated then ok db else (do
    deliveries ← put d.id d.id (record d { escalated = true }) db.deliveries
    human_escalation_tx n scope (record db { deliveries = deliveries }))

unfoldable pub escalate_undelivered : Notice → Message → ℕ → Db → Result Code Db
unfolding turn_to_human
escalate_undelivered n m id db =
    turn_to_human n (run_scope m.scope.session_id m.scope.workspace_id m.scope.run_id) id db

unfoldable pub escalate_unanswered : Notice → ℕ → Db → Result Code Db
unfolding turn_to_human
escalate_unanswered n id db = do
  d ← get db.deliveries id
  turn_to_human n (run_scope d.session_id d.workspace_id d.run_id) id db

-- recoverHeldWorkers: what makes a worker's recovery read due, and the transaction that takes it,
-- with whether it was taken.
unfoldable pub is_held : ℕ → Worker → Bool
unfolding session_active
is_held now w = w.recovery_held && session_active w && outlasts now w.recovery_read_at 1000

unfoldable pub recover_held_tx : ℕ → Worker → Db → Result Code (Bool × Db)
unfolding is_held same_session_binding
recover_held_tx now w db = do
  current ← get db.workers w.id
  if not (same_session_binding w current) || not (is_held now current) then ok (false, db) else (do
    workers ← put current.id current.id (record current { recovery_read_at = now }) db.workers
    ok (true, record db { workers = workers }))

-- recoverInboxReads: the deliveries that are read again, and the transaction for one worker, with
-- whether any was taken.
unfoldable pub is_readable : ℕ → Delivery → Bool
unfolding inbox_read_recoverable
is_readable now d = inbox_read_recoverable d && outlasts now d.updated_at 1000

unfoldable pub retry_reads : ℕ → Worker → List Delivery → Db → Result Code (Bool × Db)
unfolding is_readable worker_scope event
retry_reads now w [] db = ok (false, db)
retry_reads now w (d ∷ ds) db = if not (is_readable now d) then retry_reads now w ds db else (do
  deliveries ← put d.id d.id (record d { updated_at = now }) db.deliveries
  (_, db1) ← retry_reads now w ds (
      event EventType.delivery_read_recovery (worker_scope w) Actor.daemon 0
        (record db { deliveries = deliveries }))
  ok (true, db1))

unfoldable pub recover_reads_tx : ℕ → ℕ → Db → Result Code (Bool × Db)
unfolding retry_reads terminal_recipient list
recover_reads_tx now id db = do
  w ← get db.workers id
  if terminal_recipient w || is_unreachable w.state
      then ok (false, db)
      else retry_reads now w (list (λ d. d.worker_id == id) db.deliveries) db
