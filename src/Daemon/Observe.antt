-- ===== src/Daemon/Observe.antt =====
-- observeWorker of internal/daemon/dispatch.go and observeDeliveriesTx of
-- internal/daemon/messaging.go: what fresh evidence of a pane does to a worker, its dispatches and
-- its deliveries.
pub mod Evidence
use herdr_woof.Prelude.{
  ℕ, Bool, true, false, not, ◌&&◌, ◌||◌, Option, none, some, List, [], ◌∷◌, ◌++◌, ◌+◌, ltb, ◌==◌,
  if◌then◌else◌,
}
use herdr_woof.Prelude.Result.{Result, ok, ◌>>=◌}
use herdr_woof.Daemon.Model.{
  Code, Worker, WorkerState, Note, ProcessIdentity, Pane, Dispatch, DispatchStatus, Delivery,
  DeliveryStatus, WakeStatus, Reply, Operation, OperationState, EventType, Actor, is_idle,
  session_active, active_dispatch, same_session_binding, matching_native, clear_native_recovery,
  clear_blocked, worker_scope,
}
use herdr_woof.Daemon.Store.{Table, Db, find, get, put, list, put_dispatch, event}
use herdr_woof.Daemon.Settle.{is_finished, settle_run, finish_op, dispatch_event, sync_schedule_run}
use herdr_woof.Daemon.Dispatch.{unresolved_wake}
use herdr_woof.Daemon.Report.{settled}

abbrev pub is_busy : WorkerState → Bool
is_busy WorkerState.working = true
is_busy WorkerState.blocked = true
is_busy _ = false

-- `a != nil && b != nil && *b > *a && *b == seq`
unfoldable pub completed_at : Option ℕ → Option ℕ → ℕ → Bool
completed_at (some baseline) (some completion) seq = ltb baseline completion && completion == seq
completed_at _ _ seq = false

-- The turn of a dispatch has ended: a busy state was seen in it and the sequence went on, or Herdr
-- counts its completion.
unfoldable pub turn_evidence : Pane → Dispatch → Bool
unfolding is_idle completed_at
turn_evidence p d =
    is_idle p.agent_status
    && ltb d.baseline_seq p.state_change_seq
    && ((ltb d.baseline_seq d.working_seq && ltb d.working_seq p.state_change_seq)
        || completed_at d.baseline_completion_seq p.completion_seq p.state_change_seq)

abbrev first_time : ℕ → ℕ → ℕ
first_time at now = if at == 0 then now else at

unfoldable pub see_working : ℕ → Bool → Pane → Dispatch → Dispatch
see_working now changed p d =
    if not d.turn_ended && ltb d.baseline_seq p.state_change_seq && is_busy p.agent_status
    then record d {
      observed_working_at = first_time d.observed_working_at now;
      working_seq = p.state_change_seq;
      last_activity_at = if changed then now else d.last_activity_at;
    }
    else d

unfoldable pub see_end : ℕ → Pane → Dispatch → Dispatch
unfolding turn_evidence
see_end now p d =
    if turn_evidence p d && not d.turn_ended
    then record d {
      turn_ended = true;
      end_seq = p.state_change_seq;
      idle_at = first_time d.idle_at now;
    }
    else d

unfoldable pub may_settle : Pane → Dispatch → Bool
unfolding is_idle
may_settle p d = d.turn_ended && not (d.done_at == 0) && is_idle p.agent_status

unfoldable pub observe_dispatch : ℕ → Bool → Pane → Dispatch → Dispatch
unfolding see_working see_end may_settle settled
observe_dispatch now changed p d =
    let seen = see_end now p (see_working now changed p d) in
    if may_settle p seen then settled now seen.report_outcome seen else seen

unfoldable pub settle_observed : ℕ → Dispatch → Db → Result Code Db
settle_observed now d db = elim d.status [
  | DispatchStatus.settled ↦ (do
    runs ← settle_run now d db.runs
    db1 ←
        dispatch_event (EventType.dispatch_now DispatchStatus.settled) d (record db { runs = runs })
    sync_schedule_run now d Actor.daemon 0 db1)
  | _ ↦ ok db
]

-- One active dispatch of this attachment: its run is settled first, and it is put last.
unfoldable pub observe_one : ℕ → Bool → Pane → Dispatch → Db → Result Code Db
unfolding settle_observed observe_dispatch
observe_one now changed p d db = do
  db1 ← settle_observed now (observe_dispatch now changed p d) db
  dispatches ← put_dispatch d.id (observe_dispatch now changed p d) db1.dispatches
  ok (record db1 { dispatches = dispatches })

unfoldable pub observe_all : ℕ → Bool → Bool → ℕ → Pane → List Dispatch → Db → Result Code Db
unfolding observe_one active_dispatch
observe_all now changed reset attachment p [] db = ok db
observe_all now changed reset attachment p (d ∷ ds) db = do
  db1 ←
      (if not (active_dispatch d) || not (d.attachment_id == attachment) || reset
        then ok db
        else observe_one now changed p d db)
  observe_all now changed reset attachment p ds db1

unfoldable pub delivery_works : Pane → Delivery → Bool
delivery_works p d =
    ltb d.baseline_seq p.state_change_seq
    && is_busy p.agent_status
    && ltb d.working_seq p.state_change_seq

unfoldable pub see_delivery_working : ℕ → Pane → Delivery → Delivery
unfolding delivery_works
see_delivery_working now p d =
    if delivery_works p d
    then record d { working_seq = p.state_change_seq; updated_at = now }
    else d

unfoldable pub delivery_ended : Pane → Delivery → Bool
unfolding is_idle completed_at
delivery_ended p d =
    is_idle p.agent_status
    && ((ltb d.baseline_seq d.working_seq && ltb d.working_seq p.state_change_seq)
        || (completed_at d.baseline_completion_seq p.completion_seq p.state_change_seq
            && ltb d.baseline_seq p.state_change_seq))

unfoldable pub end_delivery : ℕ → Delivery → Delivery
end_delivery now d =
    let ended = record d { wake_status = WakeStatus.ended; updated_at = now; error = [] } in
    elim d.status [
      | DeliveryStatus.pending ↦ record ended {
        status = DeliveryStatus.delivered;
        delivered_at = now;
      }
      | _ ↦ ended
    ]

-- The wake's own receipt, where there is one.
unfoldable pub finish_wake : ℕ → Delivery → Table Operation → Result Code (Table Operation)
unfolding find
finish_wake now d operations =
    if d.attempt_id == 0 then ok operations else elim (find operations d.attempt_id) [
      | none ↦ ok operations
      | some op ↦
          if is_finished op.state
          then ok operations
          else finish_op now op.id (Reply.turn_ended d.id) none OperationState.completed operations
    ]

unfoldable pub observe_delivery : ℕ → Worker → Pane → Delivery → Db → Result Code Db
unfolding see_delivery_working delivery_ended end_delivery finish_wake
observe_delivery now current p d db = do
  deliveries ←
      (if delivery_works p d
        then put d.id d.id (see_delivery_working now p d) db.deliveries
        else ok db.deliveries)
  if not (delivery_ended p (see_delivery_working now p d))
      then ok (record db { deliveries = deliveries })
      else (do
        deliveries' ← put d.id d.id (end_delivery now (see_delivery_working now p d)) deliveries
        operations ← finish_wake now d db.operations
        ok (
            event EventType.delivery_turn_ended (worker_scope current) Actor.daemon 0
              (record db { deliveries = deliveries'; operations = operations })))

unfoldable pub observe_deliveries : ℕ → Worker → Pane → List Delivery → Db → Result Code Db
unfolding observe_delivery unresolved_wake
observe_deliveries now current p [] db = ok db
observe_deliveries now current p (d ∷ ds) db = do
  db1 ←
      (if not (d.attachment_id == current.attachment_id)
          || ltb p.state_change_seq d.baseline_seq
          || not (unresolved_wake d.wake_status)
        then ok db
        else observe_delivery now current p d db)
  observe_deliveries now current p ds db1

-- How the pane was identified before the transaction, with the worker read at that time.
pub record Identified : Type 0 where
  pub snapshot : Worker
  pub pane : Pane
  pub recovery : Bool
  pub continuous : Bool
  pub native_continuity : Bool
  pub recovered_process : Option ProcessIdentity
  pub recovered_attachment : ℕ
  pub reset_attachment : ℕ

abbrev is_unset {ℓ} : {A : Type ℓ} → Option A → Bool
is_unset none = true
is_unset (some _) = false

abbrev is_starting : WorkerState → Bool
is_starting WorkerState.starting = true
is_starting _ = false

-- The binding changed, the worker is terminal, or its launch has bound nothing yet.
unfoldable pub not_observable : Worker → Worker → Bool
unfolding same_session_binding session_active
not_observable snapshot current =
    not (same_session_binding snapshot current)
    || not (session_active current)
    || (is_starting current.state
        && is_unset current.native_session
        && is_unset current.agent_process)

unfoldable pub recovered : Identified → Worker → Worker
recovered i w =
    if not i.continuous && i.native_continuity
    then record w {
      attachment_id = i.recovered_attachment;
      generation = w.generation + 1;
      pane_aliases = [];
      agent_process = i.recovered_process;
      terminal_id = i.pane.terminal_id;
      state_seq = i.pane.state_change_seq;
      completion_seq = i.pane.completion_seq;
      error = Note.recovered_native;
    }
    else w

unfoldable pub with_reset : Identified → Bool → Worker → Worker
with_reset i reset w =
    if reset
    then record w {
      attachment_id = i.reset_attachment;
      generation = w.generation + 1;
      error = Note.sequence_reset;
    }
    else w

abbrev is_set_true : Option Bool → Bool
is_set_true (some b) = b
is_set_true none = false

unfoldable pub with_blocked : ℕ → WorkerState → Worker → Worker
unfolding clear_blocked
with_blocked now WorkerState.blocked w = record w { blocked_at = first_time w.blocked_at now }
with_blocked now _ w = clear_blocked w

unfoldable pub with_pane : ℕ → Identified → Bool → Worker → Worker
unfolding with_blocked
with_pane now i reset w = with_blocked now i.pane.agent_status (record w {
  pane_aliases =
      if not (w.pane_id == i.pane.pane_id) && i.continuous
      then w.pane_aliases ++ w.pane_id ∷ []
      else w.pane_aliases;
  pane_id = i.pane.pane_id;
  raw_status = i.pane.agent_status;
  state = i.pane.agent_status;
  ready = not reset && is_set_true i.pane.interactive_ready;
  updated_at = now;
  last_seen_at = now;
})

-- Two statuses are spelt alike.
abbrev same_status : WorkerState → WorkerState → Bool
same_status WorkerState.idle WorkerState.idle = true
same_status WorkerState.done WorkerState.done = true
same_status WorkerState.working WorkerState.working = true
same_status WorkerState.blocked WorkerState.blocked = true
same_status WorkerState.unknown WorkerState.unknown = true
same_status _ _ = false

unfoldable pub has_changed : Pane → Worker → Bool
has_changed p w =
    not (w.state_seq == p.state_change_seq)
    || not (same_status w.raw_status p.agent_status)
    || not (w.pane_id == p.pane_id)

unfoldable pub finish_observation : Identified → Bool → Worker → Db → Result Code Db
finish_observation i changed current db =
    let w = record current {
      revision = i.pane.revision;
      state_seq = i.pane.state_change_seq;
      completion_seq = i.pane.completion_seq;
    } in
    do
      workers ← put w.id w.id w db.workers
      if changed || not i.continuous
          then ok (
              event EventType.worker_observed (worker_scope w) Actor.daemon 0
                (record db { workers = workers }))
          else ok (record db { workers = workers })

unfoldable pub observe_current : ℕ → Identified → Bool → Bool → Worker → Db → Result Code Db
unfolding observe_all observe_deliveries finish_observation
observe_current now i changed reset w db = do
  db1 ←
      observe_all now changed reset w.attachment_id i.pane
        (list (λ d. d.worker_id == i.snapshot.id) db.dispatches) db
  db2 ← observe_deliveries now w i.pane (list (λ d. d.worker_id == w.id) db1.deliveries) db1
  finish_observation i changed w db2

-- The transaction of observeWorker for a pane that is identified.
unfoldable pub observe_tx : ℕ → Identified → Db → Result Code Db
unfolding not_observable recovered has_changed with_reset with_pane observe_current
    clear_native_recovery
observe_tx now i db = do
  current ← get db.workers i.snapshot.id
  let w = clear_native_recovery (recovered i current) in
      let reset = ltb i.pane.state_change_seq w.state_seq in
      let stale =
        ltb i.pane.revision w.revision && not i.recovery && not i.snapshot.recovery_held in
      if not_observable i.snapshot current || stale
      then ok db
      else observe_current now i (has_changed i.pane w) reset
          (with_pane now i reset (with_reset i reset w)) db

-- The pane or its agent is missing.
unfoldable pub missing_tx : ℕ → Worker → Db → Result Code Db
unfolding not_observable
missing_tx now snapshot db = do
  current ← get db.workers snapshot.id
  if not_observable snapshot current || current.recovery_held
      then ok db
      else (let w = record current {
        state = WorkerState.lost;
        ready = false;
        error = Note.pane_missing;
        updated_at = now;
      } in
          (do
            workers ← put snapshot.id w.id w db.workers
            ok (
                event EventType.worker_lost (worker_scope w) Actor.daemon 0
                  (record db { workers = workers }))))

-- Another incarnation of the agent sits in the pane.
unfoldable pub identity_lost_tx : Worker → Pane → Db → Result Code Db
unfolding not_observable clear_native_recovery matching_native
identity_lost_tx snapshot p db = do
  current ← get db.workers snapshot.id
  if not_observable snapshot current || (current.recovery_held && matching_native current p)
      then ok db
      else (let w = record (clear_native_recovery current) {
        state = WorkerState.lost;
        ready = false;
        error = Note.incarnation_changed;
      } in
          (do
            workers ← put snapshot.id w.id w db.workers
            ok (
                event EventType.worker_identity_lost (worker_scope w) Actor.daemon 0
                  (record db { workers = workers }))))
