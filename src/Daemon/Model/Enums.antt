-- ===== src/Daemon/Model/Enums.antt =====
-- internal/model/model.go: the statuses, kinds and codes of the records, which are texts there.
use herdr_woof.Prelude.{ℕ}
use herdr_woof.Prelude.Text.{Text}

-- The codes of `model.Error`; the messages are left out.
pub data Code : Type 0 where
  not_found invalid_record busy_worker : Code
  worker_not_live invalid_args offline subscription_not_ready precondition_unavailable : Code
  stale_attachment worker_busy input_draft wake_pending invalid_scope dispatch_active : Code
  wrong_worker report_conflict dispatch_finished uncertain prompt_refused : Code
  wrong_recipient delivery_changed : Code
  request_id_required request_conflict operation_failed : Code
  invalid_cron scope_required schedule_removed run_outstanding run_changed occurrence_claimed : Code
  name_conflict ambiguous_schedule unknown_operation attempt_interrupted internal_error : Code
  already_replied invalid_recipient ambiguous_worker released : Code
  invalid_state stale_operation operation_in_flight explicitly_failed : Code

-- What a Herdr pane reports as its agent's status, and the states that the daemon adds.
pub data WorkerState : Type 0 where
  idle done working blocked unknown : WorkerState
  starting lost offline released stopped failed : WorkerState

pub data DispatchStatus : Type 0 where
  sending active uncertain settled failed cancelled : DispatchStatus

pub data WakeStatus : Type 0 where
  queued sending sent uncertain acknowledged ended resolved human abandoned : WakeStatus

pub data DeliveryStatus : Type 0 where
  pending delivered acknowledged consumed : DeliveryStatus

pub data OperationState : Type 0 where
  accepted completed failed uncertain : OperationState

pub data RunStatus : Type 0 where
  active completed : RunStatus

pub data OccurrenceState : Type 0 where
  claimed blocked dispatching dispatched persisted uncertain : OccurrenceState
  settled failed cancelled missed skipped : OccurrenceState

-- `Outcome`: a worker reports done or failed, and the daemon and callers give reasons.
pub data Outcome : Type 0 where
  no_outcome done failed prompt_refused : Outcome
  reason : Text → Outcome
  code : Code → Outcome
  refused : Code → Outcome
  target_terminal target_unavailable : ℕ → WorkerState → Outcome
  missed_exactly missed_at_least : ℕ → Outcome

pub data Actor : Type 0 where
  worker human daemon schedule : Actor

-- The texts that the lifecycle code puts in a worker's `Error`.
pub data Note : Type 0 where
  no_note pane_missing incarnation_changed recovered_native sequence_reset : Note

pub data Recipient : Type 0 where
  worker run human : Recipient

pub data MessageKind : Type 0 where
  message question reply report nudge escalation : MessageKind

pub data MessageStatus : Type 0 where
  persisted replied : MessageStatus

-- The reasons for which the watchdog reports a dispatch; `Alerts` is a set of them.
pub data Alert : Type 0 where
  attachment_changed prompt_outcome_unobserved turn_unobserved : Alert
  prompt_outcome_uncertain report_without_turn_end idle_without_report no_activity : Alert
  attachment_unavailable continuously_blocked blocked_unresolved : Alert

pub data MissedPolicy : Type 0 where
  latest skip : MissedPolicy

pub data Action : Type 0 where
  message dispatch : Action

pub data ScheduleState : Type 0 where
  active removed : ScheduleState

-- `missed:<ms>`, `t:<ms>` and `manual:<request>`.
pub data OccurrenceKey : Type 0 where
  missed_from at_time manual : ℕ → OccurrenceKey

pub data Trigger : Type 0 where
  scheduled manual : Trigger

-- The kind and the id of the record that an operation made.
pub data Resource : Type 0 where
  no_resource : Resource
  of_delivery of_dispatch of_schedule of_occurrence : ℕ → Resource

pub data EventType : Type 0 where
  run_created dispatch_created dispatch_reported dispatch_fenced : EventType
  dispatch_now : DispatchStatus → EventType
  occurrence_now : OccurrenceState → EventType
  worker_lost worker_identity_lost worker_observed delivery_turn_ended : EventType
  message_available message_acknowledged message_consumed : EventType
  delivery_attempted delivery_held : EventType
  delivery_now : WakeStatus → EventType
  schedule_created schedule_enabled schedule_disabled schedule_removed : EventType
  message_persisted dispatch_escalated worker_escalated delivery_escalated : EventType
  delivery_read_recovery question_replied : EventType
  delivery_resolved dispatch_resolved operation_resolved : EventType
