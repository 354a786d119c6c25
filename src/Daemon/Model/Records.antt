-- ===== src/Daemon/Model/Records.antt =====
-- internal/model/model.go: the records that the daemon keeps. An identity is a number with 0 for
-- the empty string, numbered in the order of the strings; a time is in milliseconds, 0 for unset.
use herdr_woof.Prelude.{ℕ, Bool, Option, List}
use herdr_woof.Prelude.Int.{ℤ}
use herdr_woof.Prelude.Text.{Text}
use herdr_woof.Schedule.Expr.{Expr}
use herdr_woof.Daemon.Model.Enums.{
  Code, WorkerState, DispatchStatus, WakeStatus, DeliveryStatus, OperationState, RunStatus,
  OccurrenceState, Outcome, Actor, Note, Recipient, MessageKind, MessageStatus, Alert, MissedPolicy,
  Action, ScheduleState, OccurrenceKey, Trigger, Resource, EventType,
}

pub record Scope : Type 0 where
  pub session_id : ℕ
  pub workspace_id : ℕ
  pub worktree_id : ℕ
  pub run_id : ℕ
  pub worker_id : ℕ

pub record Run : Type 0 where
  pub id : ℕ
  pub session_id : ℕ
  pub workspace_id : ℕ
  pub worktree_id : ℕ
  pub invoker_worker_id : ℕ
  pub invoker_pane_ref : ℕ
  pub title : Text
  pub status : RunStatus
  pub implicit : Bool
  pub created_at : ℕ
  pub updated_at : ℕ
  pub completed_at : ℕ

pub record NativeSession : Type 0 where
  pub source : ℕ
  pub agent : ℕ
  pub kind : ℕ
  pub value : ℕ

pub record ProcessIdentity : Type 0 where
  pub pid : ℕ
  pub birth : ℕ
  pub tty : ℕ

pub record Worker : Type 0 where
  pub id : ℕ
  pub session_id : ℕ
  pub workspace_id : ℕ
  pub worktree_id : ℕ
  pub run_id : ℕ
  pub name : ℕ
  pub agent_kind : ℕ
  pub pane_id : ℕ
  pub pane_aliases : List ℕ
  pub agent_name : ℕ
  pub terminal_id : ℕ
  pub native_session : Option NativeSession
  pub agent_process : Option ProcessIdentity
  pub attachment_id : ℕ
  pub generation : ℕ
  pub state : WorkerState
  pub raw_status : WorkerState
  pub revision : ℕ
  pub state_seq : ℕ
  pub completion_seq : Option ℕ
  pub ready : Bool
  pub recovery_held : Bool
  pub recovery_pane_id : ℕ
  pub recovery_read_at : ℕ
  pub updated_at : ℕ
  pub last_seen_at : ℕ
  pub blocked_at : ℕ
  pub blocked_alerted_at : ℕ
  pub blocked_alert_delivery_id : ℕ
  pub blocked_escalated_at : ℕ
  pub error : Note

pub record Message : Type 0 where
  pub id : ℕ
  pub scope : Scope
  pub from_kind : Actor
  pub from_worker_id : ℕ
  pub to_kind : Recipient
  pub to_id : ℕ
  pub subject : Text
  pub kind : MessageKind
  pub status : MessageStatus
  pub reply_to_message_id : ℕ
  pub body : Text
  pub artifacts : List Text
  pub dispatch_id : ℕ
  pub schedule_run_id : ℕ
  pub created_at : ℕ

pub record Delivery : Type 0 where
  pub id : ℕ
  pub message_id : ℕ
  pub worker_id : ℕ
  pub session_id : ℕ
  pub workspace_id : ℕ
  pub run_id : ℕ
  pub human : Bool
  pub status : DeliveryStatus
  pub wake_status : WakeStatus
  pub attempt_id : ℕ
  pub attachment_id : ℕ
  pub baseline_seq : ℕ
  pub working_seq : ℕ
  pub baseline_completion_seq : Option ℕ
  pub created_at : ℕ
  pub updated_at : ℕ
  pub attempted_at : ℕ
  pub delivered_at : ℕ
  pub acknowledged_at : ℕ
  pub consumed_at : ℕ
  pub escalated : Bool
  pub error : Text

pub record Dispatch : Type 0 where
  pub id : ℕ
  pub session_id : ℕ
  pub workspace_id : ℕ
  pub worktree_id : ℕ
  pub run_id : ℕ
  pub worker_id : ℕ
  pub attachment_id : ℕ
  pub spec : Text
  pub handoff : Text
  pub status : DispatchStatus
  pub attempt : ℕ
  pub baseline_seq : ℕ
  pub baseline_completion_seq : Option ℕ
  pub observed_working_at : ℕ
  pub last_activity_at : ℕ
  pub working_seq : ℕ
  pub turn_ended : Bool
  pub end_seq : ℕ
  pub done_message_id : ℕ
  pub report_outcome : Outcome
  pub done_at : ℕ
  pub created_at : ℕ
  pub sent_at : ℕ
  pub idle_at : ℕ
  pub settled_at : ℕ
  pub outcome : Outcome
  pub nudges : ℕ
  pub operation_id : ℕ
  pub schedule_run_id : ℕ
  pub alerts : List Alert

-- `expr` is what `schedule.Parse` makes of the expression and the zone, or `none` where it refuses
-- them; these two texts are used in no other way.
pub record Schedule : Type 0 where
  pub id : ℕ
  pub session_id : ℕ
  pub workspace_id : ℕ
  pub worktree_id : ℕ
  pub worker_id : ℕ
  pub target_name : ℕ
  pub name : Text
  pub expr : Option Expr
  pub missed : MissedPolicy
  pub action : Action
  pub subject : Text
  pub body : Text
  pub spec : Text
  pub handoff : Text
  pub enabled : Bool
  pub state : ScheduleState
  pub anchor_at : ℕ
  pub next_run_at : ℕ
  pub last_run_at : ℕ
  pub last_run_id : ℕ
  pub revision : ℕ
  pub created_by_kind : Actor
  pub created_by_worker_id : ℕ
  pub created_at : ℕ
  pub updated_at : ℕ
  pub removed_at : ℕ

pub record ScheduleRun : Type 0 where
  pub id : ℕ
  pub schedule_id : ℕ
  pub session_id : ℕ
  pub workspace_id : ℕ
  pub worktree_id : ℕ
  pub worker_id : ℕ
  pub run_id : ℕ
  pub occurrence_key : OccurrenceKey
  pub trigger : Trigger
  pub action : Action
  pub state : OccurrenceState
  pub reason : Outcome
  pub scheduled_for : ℕ
  pub missed_count : ℕ
  pub missed_last : ℤ
  pub skipped_count : ℕ
  pub skipped_last : ℕ
  pub attempts : ℕ
  pub attempt_id : ℕ
  pub next_attempt_at : ℕ
  pub message_id : ℕ
  pub delivery_ids : List ℕ
  pub dispatch_id : ℕ
  pub request_id : ℕ
  pub error : Option Code
  pub claimed_at : ℕ
  pub updated_at : ℕ
  pub finished_at : ℕ

-- The values that an operation's `Result` holds as JSON.
pub data Reply : Type 0 where
  no_reply : Reply
  of_dispatch : Dispatch → Reply
  turn_ended : ℕ → Reply
  acknowledged : ℕ → Reply
  wake : ℕ → WakeStatus → Reply
  receipts : List Delivery → Reply
  sent : Message → List Delivery → Reply
  of_schedule : Schedule → Reply
  of_occurrence : ScheduleRun → Reply
  of_operation : ℕ → Reply
  resolved : Reply

pub record Operation : Type 0 where
  pub id : ℕ
  pub fingerprint : ℕ
  pub state : OperationState
  pub resource : Resource
  pub result : Reply
  pub error_code : Option Code
  pub created_at : ℕ
  pub updated_at : ℕ

-- An event, without its payload and its random identity; its sequence number is its place.
pub record Event : Type 0 where
  pub type : EventType
  pub scope : Scope
  pub actor_kind : Actor
  pub actor_id : ℕ

pub record Caller : Type 0 where
  pub worker_id : ℕ
  pub pane_id : ℕ

-- `herdr.Pane`: what `agent.get` reports.
pub record Pane : Type 0 where
  pub pane_id : ℕ
  pub terminal_id : ℕ
  pub agent_session : Option NativeSession
  pub agent : Option ℕ
  pub agent_status : WorkerState
  pub interactive_ready : Option Bool
  pub revision : ℕ
  pub state_change_seq : ℕ
  pub completion_seq : Option ℕ
