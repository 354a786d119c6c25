-- ===== src/Daemon/WatchdogExamples.antt =====
-- A worker of internal/daemon/watchdog.go that stays blocked while another one waits for it: tests of
-- the alerts, and the theorems at these inputs.
use herdr_woof.Prelude.{ℕ, ◌+◌, ◌≡◌, some, refl, [], ◌∷◌, arith}
use herdr_woof.Prelude.Result.{ok}
use herdr_woof.Prelude.Text.{codes}
use herdr_woof.Daemon.Model.{
  Scope, Worker, WorkerState, Dispatch, DispatchStatus, Run, Delivery, Alert,
}
use herdr_woof.Daemon.Store.{
  Db, find, get, put, put_row, put_dispatch, has_other_active, list, event,
}
use herdr_woof.Daemon.Dispatch.{new_run, new_dispatch}
use herdr_woof.Daemon.Examples.{builder, start, value, built, request}
use herdr_woof.Daemon.Watchdog.{
  Timeouts, Notice, reasons, has_alert, with_alert, blocked_due, escalate_tx, escalate_blocked_tx,
  turn_to_human, escalation_tx, human_escalation_tx, human_message, human_delivery, worker_delivery,
  available, marked, requester, first_active, tell_blocked, tell_human,
}
use herdr_woof.Daemon.Watchdog.Human.{told_message, human_told_once}

abbrev timeouts : Timeouts
timeouts = record { quiet = 90000; idle = 30000; blocked = 20000; blocked_escalation = 300000 }

abbrev notice : ℕ → ℕ → Notice
notice now id = record { now = now; message = id; delivery = id + 1; body = codes "blocked" }

abbrev asking : Worker
asking = record builder {
  state = WorkerState.blocked;
  raw_status = WorkerState.blocked;
  blocked_at = 1000;
}

abbrev invoker : Worker
invoker = record builder { id = 2; pane_id = 9 }

abbrev work : Dispatch
work = record built { status = DispatchStatus.active; last_activity_at = 1000 }

abbrev asked_run : Run
asked_run = record (new_run request builder) { invoker_worker_id = 2 }

abbrev waiting : Db
waiting = record start {
  workers = (1, asking) ∷ (2, invoker) ∷ [];
  runs = (30, asked_run) ∷ [];
  dispatches = (20, work) ∷ [];
}

-- What a test computes with.
watch : Unit {0}
unfolding reasons has_alert with_alert blocked_due escalate_tx escalate_blocked_tx turn_to_human
    escalation_tx human_escalation_tx human_message human_delivery worker_delivery available marked
    requester first_active tell_blocked tell_human find get put put_row put_dispatch
    has_other_active list event new_run new_dispatch
watch = tt

abbrev alerted : Db
alerted = value (escalate_blocked_tx timeouts (notice 40000 60) 1 waiting)

-- A blocked worker is not reported as inactive.
silent_test : reasons timeouts 200000 asking work ≡ (Alert.turn_unobserved ∷ [])
unfolding watch
silent_test = refl

abbrev told : Db
told = value (escalate_tx (notice 200000 70) Alert.turn_unobserved 20 waiting)

-- The worker after its alert, and the alert's delivery to the invoker.
abbrev asked : Worker
asked = record asking { blocked_alerted_at = 40000; blocked_alert_delivery_id = 61 }

abbrev place : Scope
place = record { session_id = 2; workspace_id = 3; worktree_id = 0; run_id = 30; worker_id = 0 }

abbrev alert : Delivery
alert = worker_delivery (notice 40000 60) place invoker

abbrev turned : Db
turned = value (turn_to_human (notice 400000 80) place 61 alerted)

abbrev turned_first : Db
turned_first = value (escalate_blocked_tx timeouts (notice 400000 90) 1 turned)

abbrev escalated_first : Db
escalated_first = value (escalate_blocked_tx timeouts (notice 400000 90) 1 alerted)

turned_runs : turn_to_human (notice 400000 80) place 61 alerted ≡ ok turned
unfolding watch
turned_runs = refl

turned_first_runs : escalate_blocked_tx timeouts (notice 400000 90) 1 turned ≡ ok turned_first
unfolding watch
turned_first_runs = refl

escalated_first_runs :
    escalate_blocked_tx timeouts (notice 400000 90) 1 alerted ≡ ok escalated_first
unfolding watch
escalated_first_runs = refl

human_told_once_example :
    ((put 80 80 (human_message (notice 400000 80) place 0) alerted.messages ≡ ok turned.messages)
      × (turned_first.messages ≡ turned.messages))
    × ((put 90 90 (told_message (notice 400000 90) asked (some work)) alerted.messages
          ≡ ok escalated_first.messages)
        × (turn_to_human (notice 400000 80) place 61 escalated_first ≡ ok escalated_first))
unfolding watch
human_told_once_example =
    human_told_once timeouts (notice 400000 90) (notice 400000 80) place 1 asked alert alerted
      turned turned_first escalated_first refl refl refl refl refl refl (omega arith) (omega arith)
      turned_runs turned_first_runs escalated_first_runs
