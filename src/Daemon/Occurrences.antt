-- ===== src/Daemon/Occurrences.antt =====
-- The occurrences of a schedule: the queries of internal/store/schedules.go, and of
-- internal/daemon/schedule.go cancelOutstandingTx, createRunTx, blockRun and
-- persistScheduledMessageTx. A transaction reads the clock once, and gets the ids that it makes.
use herdr_woof.Prelude.{
  ℕ, ◌+◌, ◌-◌, ◌/◌, min, max, Bool, true, false, not, ◌&&◌, ◌||◌, none, List, [], ◌∷◌, ◌++◌, ◌==◌,
  if◌then◌else◌,
}
use herdr_woof.Prelude.Int.{ℤ}
use herdr_woof.Prelude.Text.{Text, codes}
use herdr_woof.Prelude.Result.{Result, ok, ◌>>=◌}
use herdr_woof.Daemon.Model.{
  Code, Scope, Worker, Message, MessageKind, MessageStatus, Recipient, Schedule, ScheduleRun,
  OccurrenceState, OccurrenceKey, Outcome, Action, Trigger, EventType, Actor, terminal_recipient,
}
use herdr_woof.Daemon.Store.{Table, Db, get, list, put_schedule_run, same_key, event}
use herdr_woof.Daemon.Settle.{schedule_event_scope}
use herdr_woof.Daemon.Mailbox.{put_message}

abbrev pub is_claimed_or_blocked : OccurrenceState → Bool
is_claimed_or_blocked OccurrenceState.claimed = true
is_claimed_or_blocked OccurrenceState.blocked = true
is_claimed_or_blocked _ = false

abbrev pub is_dispatching : OccurrenceState → Bool
is_dispatching OccurrenceState.dispatching = true
is_dispatching _ = false

-- outstandingRuns
abbrev pub is_outstanding : OccurrenceState → Bool
is_outstanding state = is_claimed_or_blocked state || is_dispatching state

-- ScheduleRunsInState of one schedule, and of all of them.
unfoldable pub runs_in_state : ℕ → (OccurrenceState → Bool) → Table ScheduleRun → List ScheduleRun
unfolding list
runs_in_state schedule in_state rows =
    list (λ run. in_state run.state && (schedule == 0 || run.schedule_id == schedule)) rows

-- ScheduleRunByKey: whether the key was claimed.
unfoldable pub key_exists : ℕ → OccurrenceKey → Table ScheduleRun → Bool
key_exists schedule key [] = false
key_exists schedule key ((k, run) ∷ rows) =
    (run.schedule_id == schedule && same_key run.occurrence_key key) || key_exists schedule key rows

unfoldable pub schedule_scope : Schedule → Scope
schedule_scope sc = record {
  session_id = sc.session_id;
  workspace_id = sc.workspace_id;
  worktree_id = sc.worktree_id;
  run_id = 0;
  worker_id = sc.worker_id;
}

-- Who acts: its kind and its id.
abbrev pub By : Type 0
By = Actor × ℕ

abbrev pub the_daemon : By
the_daemon = (Actor.daemon, 0)

unfoldable pub put_run : EventType → By → Schedule → ScheduleRun → Db → Result Code Db
unfolding put_schedule_run event schedule_event_scope
put_run type by sc run db = do
  schedule_runs ← put_schedule_run run.id run db.schedule_runs
  ok (
      event type (schedule_event_scope sc run) by.0 by.1
        (record db { schedule_runs = schedule_runs }))

unfoldable pub cancelled : ℕ → Outcome → ScheduleRun → ScheduleRun
cancelled now why run = record run {
  state = OccurrenceState.cancelled;
  reason = why;
  next_attempt_at = 0;
  updated_at = now;
  finished_at = now;
}

unfoldable pub cancel_all : ℕ → Outcome → By → Schedule → List ScheduleRun → Db → Result Code Db
unfolding put_run cancelled
cancel_all now why by sc [] db = ok db
cancel_all now why by sc (run ∷ runs) db = do
  db1 ←
      put_run (EventType.occurrence_now OccurrenceState.cancelled) by sc (cancelled now why run) db
  cancel_all now why by sc runs db1

unfoldable pub cancel_outstanding : ℕ → Outcome → By → Schedule → Db → Result Code Db
unfolding cancel_all runs_in_state
cancel_outstanding now why by sc db =
    cancel_all now why by sc (runs_in_state sc.id is_claimed_or_blocked db.schedule_runs) db

abbrev pub retry_min : ℕ
retry_min = 30000

abbrev pub retry_max : ℕ
retry_max = 900000

-- The backoff of an occurrence of some age, in milliseconds. The source halves the age in
-- nanoseconds, which gives the same milliseconds.
unfoldable pub backoff : ℕ → ℕ
backoff age = min (max (age / 2) retry_min) retry_max

unfoldable pub block_run : ℕ → Outcome → ScheduleRun → ScheduleRun
unfolding backoff
block_run now why run = record run {
  state = OccurrenceState.blocked;
  reason = why;
  next_attempt_at = now + backoff (now - run.claimed_at);
  updated_at = now;
}

abbrev subject_of : Schedule → Text
subject_of sc = elim sc.subject [ [] ↦ codes "Scheduled: " ++ sc.name | c ∷ s ↦ c ∷ s ]

unfoldable pub scheduled_message : ℕ → ℕ → Schedule → ScheduleRun → Worker → Message
scheduled_message now id sc run w = record {
  id = id;
  scope = record {
    session_id = sc.session_id;
    workspace_id = sc.workspace_id;
    worktree_id = sc.worktree_id;
    run_id = 0;
    worker_id = 0;
  };
  from_kind = Actor.schedule;
  from_worker_id = 0;
  to_kind = Recipient.worker;
  to_id = w.id;
  subject = subject_of sc;
  kind = MessageKind.message;
  status = MessageStatus.persisted;
  reply_to_message_id = 0;
  body = sc.body;
  artifacts = [];
  dispatch_id = 0;
  schedule_run_id = run.id;
  created_at = now;
}

unfoldable pub persisted : ℕ → ℕ → ScheduleRun → ScheduleRun
persisted message delivery run = record run {
  state = OccurrenceState.persisted;
  reason = Outcome.no_outcome;
  next_attempt_at = 0;
  message_id = message;
  delivery_ids = delivery ∷ [];
}

-- The clock and the ids that a transaction may make: an occurrence, a message and its delivery.
pub record Fresh : Type 0 where
  pub now : ℕ
  pub run : ℕ
  pub message : ℕ
  pub delivery : ℕ

unfoldable pub persist_scheduled_message :
    Fresh → Schedule → ScheduleRun → Db → Result Code (ScheduleRun × Db)
unfolding block_run persisted scheduled_message put_message terminal_recipient event
persist_scheduled_message f sc run db = do
  w ← get db.workers sc.worker_id
  if terminal_recipient w
      then ok (block_run f.now (Outcome.target_terminal w.id w.state) run, db)
      else (do
        let m = scheduled_message f.now f.message sc run w
        db1 ← put_message f.now m ((f.delivery, w) ∷ []) db
        ok (
          persisted f.message f.delivery run,
          event EventType.message_persisted m.scope Actor.schedule 0 db1,
        ))

-- The occurrence that a caller of createRunTx gives: the zero fields are left out, and `missed` says
-- whether its state is set.
pub record NewRun : Type 0 where
  pub occurrence_key : OccurrenceKey
  pub trigger : Trigger
  pub missed : Bool
  pub reason : Outcome
  pub scheduled_for : ℕ
  pub missed_count : ℕ
  pub missed_last : ℤ
  pub request_id : ℕ

unfoldable pub new_run : Fresh → Schedule → NewRun → ScheduleRun
new_run f sc n = record {
  id = f.run;
  schedule_id = sc.id;
  session_id = sc.session_id;
  workspace_id = sc.workspace_id;
  worktree_id = sc.worktree_id;
  worker_id = sc.worker_id;
  run_id = 0;
  occurrence_key = n.occurrence_key;
  trigger = n.trigger;
  action = sc.action;
  state = if n.missed then OccurrenceState.missed else OccurrenceState.claimed;
  reason = n.reason;
  scheduled_for = n.scheduled_for;
  missed_count = n.missed_count;
  missed_last = n.missed_last;
  skipped_count = 0;
  skipped_last = 0;
  attempts = 0;
  attempt_id = 0;
  next_attempt_at = 0;
  message_id = 0;
  delivery_ids = [];
  dispatch_id = 0;
  request_id = n.request_id;
  error = none;
  claimed_at = f.now;
  updated_at = f.now;
  finished_at = 0;
}

abbrev pub with_message :
    Fresh → Schedule → Bool → ScheduleRun → Db → Result Code (ScheduleRun × Db)
with_message f sc missed run db = if missed then ok (run, db) else elim sc.action [
  | Action.message ↦ persist_scheduled_message f sc run db
  | Action.dispatch ↦ ok (run, db)
]

unfoldable pub ended : ℕ → ScheduleRun → ScheduleRun
ended now run =
    if not (is_outstanding run.state) && run.finished_at == 0
    then record run { finished_at = now }
    else run

unfoldable pub create_run : Fresh → By → Schedule → NewRun → Db → Result Code (ScheduleRun × Db)
unfolding persist_scheduled_message new_run ended put_run
create_run f by sc n db = do
  (run, db1) ← with_message f sc n.missed (new_run f sc n) db
  let run' = ended f.now run
  db2 ← put_run (EventType.occurrence_now run'.state) by sc run' db1
  ok (run', db2)
