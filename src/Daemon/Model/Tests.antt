-- ===== src/Daemon/Model/Tests.antt =====
-- The tests and updates of records that the daemon's parts share: idle and activeDispatch of
-- internal/daemon/dispatch.go and core.go, the bindings of sessions.go and attachment.go.
use herdr_woof.Prelude.{ℕ, Bool, true, false, ◌&&◌, Option, none, some, ◌==◌}
use herdr_woof.Daemon.Model.Enums.{WorkerState, DispatchStatus}
use herdr_woof.Daemon.Model.Records.{Scope, NativeSession, ProcessIdentity, Worker, Dispatch, Pane}

unfoldable pub same_native : NativeSession → NativeSession → Bool
same_native a b =
    a.source == b.source && a.agent == b.agent && a.kind == b.kind && a.value == b.value

abbrev same_process : ProcessIdentity → ProcessIdentity → Bool
same_process a b = a.pid == b.pid && a.birth == b.birth && a.tty == b.tty

-- `reflect.DeepEqual` on pointers.
abbrev same_option {ℓ} : {A : Type ℓ} → (A → A → Bool) → Option A → Option A → Bool
same_option same none none = true
same_option same (some a) (some b) = same a b
same_option same _ _ = false

unfoldable pub is_idle : WorkerState → Bool
is_idle WorkerState.idle = true
is_idle WorkerState.done = true
is_idle _ = false

unfoldable pub session_active : Worker → Bool
session_active w = elim w.state [
  | WorkerState.released ↦ false
  | WorkerState.stopped ↦ false
  | WorkerState.failed ↦ false
  | WorkerState.lost ↦ false
  | _ ↦ true
]

unfoldable pub terminal_recipient : Worker → Bool
terminal_recipient w = elim w.state [
  | WorkerState.released ↦ true
  | WorkerState.stopped ↦ true
  | WorkerState.failed ↦ true
  | _ ↦ false
]

unfoldable pub is_open : DispatchStatus → Bool
is_open DispatchStatus.settled = false
is_open DispatchStatus.failed = false
is_open DispatchStatus.cancelled = false
is_open _ = true

unfoldable pub active_dispatch : Dispatch → Bool
unfolding is_open
active_dispatch d = is_open d.status

unfoldable pub same_session_binding : Worker → Worker → Bool
same_session_binding a b =
    a.session_id == b.session_id
    && a.workspace_id == b.workspace_id
    && a.pane_id == b.pane_id
    && a.terminal_id == b.terminal_id
    && a.attachment_id == b.attachment_id
    && a.agent_kind == b.agent_kind
    && a.agent_name == b.agent_name
    && same_option same_native a.native_session b.native_session
    && same_option same_process a.agent_process b.agent_process

abbrev matches : Option NativeSession → Option NativeSession → Option ℕ → ℕ → Bool
matches (some a) (some b) (some agent) kind = same_native a b && agent == kind
matches _ _ _ kind = false

unfoldable pub matching_native : Worker → Pane → Bool
unfolding same_native
matching_native w p = matches w.native_session p.agent_session p.agent w.agent_kind

unfoldable pub clear_native_recovery : Worker → Worker
clear_native_recovery w = record w {
  recovery_held = false;
  recovery_pane_id = 0;
  recovery_read_at = 0;
}

unfoldable pub clear_blocked : Worker → Worker
clear_blocked w = record w {
  blocked_at = 0;
  blocked_alerted_at = 0;
  blocked_alert_delivery_id = 0;
  blocked_escalated_at = 0;
}

unfoldable pub worker_scope : Worker → Scope
worker_scope w = record {
  session_id = w.session_id;
  workspace_id = w.workspace_id;
  worktree_id = w.worktree_id;
  run_id = w.run_id;
  worker_id = w.id;
}

unfoldable pub dispatch_scope : Dispatch → Scope
dispatch_scope d = record {
  session_id = d.session_id;
  workspace_id = d.workspace_id;
  worktree_id = d.worktree_id;
  run_id = d.run_id;
  worker_id = d.worker_id;
}
