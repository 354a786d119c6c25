-- ===== src/Daemon/Attempts.antt =====
-- The attempts to carry out an occurrence: executeRun, reblock, retryMessageRun, settleAttempt,
-- classifyAttemptTx and recoverRuns of internal/daemon/schedule.go.
use herdr_woof.Prelude.{
  ℕ, ◌+◌, Bool, true, false, not, ◌&&◌, ◌||◌, Option, none, some, [], ◌==◌, if◌then◌else◌,
}
use herdr_woof.Prelude.Result.{Result, ok, err, ◌>>=◌, ◌>>◌, refuse}
use herdr_woof.Daemon.Model.{
  Code, Worker, WorkerState, Dispatch, DispatchStatus, Schedule, ScheduleRun, OccurrenceState,
  Outcome, Action, EventType, Operation, OperationState, Resource, Reply, terminal_recipient,
}
use herdr_woof.Daemon.Store.{Db, find, get, put, put_schedule_run}
use herdr_woof.Daemon.Settle.{finish_op, finish_attempt}
use herdr_woof.Daemon.Dispatch.{World, Request, dispatch}
use herdr_woof.Daemon.Occurrences.{
  the_daemon, Fresh, is_claimed_or_blocked, is_dispatching, block_run, persist_scheduled_message,
  put_run,
}

-- A state in a number, to compare two of them.
abbrev state_number : WorkerState → ℕ
state_number WorkerState.idle = 0
state_number WorkerState.done = 1
state_number WorkerState.working = 2
state_number WorkerState.blocked = 3
state_number WorkerState.unknown = 4
state_number WorkerState.starting = 5
state_number WorkerState.lost = 6
state_number WorkerState.offline = 7
state_number WorkerState.released = 8
state_number WorkerState.stopped = 9
state_number WorkerState.failed = 10

abbrev same_state : WorkerState → WorkerState → Bool
same_state a b = state_number a == state_number b

-- `a == b` where one of the reasons is that of a target which cannot be reached.
abbrev pub same_reason : Outcome → Outcome → Bool
same_reason (Outcome.target_terminal w s) (Outcome.target_terminal v t) = w == v && same_state s t
same_reason (Outcome.target_unavailable w s) (Outcome.target_unavailable v t) =
    w == v && same_state s t
same_reason _ _ = false

unfoldable pub new_attempt : ℕ → ℕ → ℕ → Operation
new_attempt now id fingerprint = record {
  id = id;
  fingerprint = fingerprint;
  state = OperationState.accepted;
  resource = Resource.no_resource;
  result = Reply.no_reply;
  error_code = none;
  created_at = now;
  updated_at = now;
}

unfoldable pub dispatching : ℕ → ℕ → ScheduleRun → ScheduleRun
dispatching now attempt run = record run {
  state = OccurrenceState.dispatching;
  attempt_id = attempt;
  next_attempt_at = 0;
  error = none;
  attempts = run.attempts + 1;
  updated_at = now;
}

-- The transaction of executeRun that begins an attempt, with a receipt of its own.
unfoldable pub start_attempt : ℕ → ℕ → ℕ → Schedule → ℕ → Db → Result Code Db
unfolding new_attempt dispatching put_run
start_attempt now attempt fingerprint sc id db = do
  run ← get db.schedule_runs id
  refuse (not (is_claimed_or_blocked run.state)) Code.run_changed
  operations ← put attempt attempt (new_attempt now attempt fingerprint) db.operations
  put_run (EventType.occurrence_now OccurrenceState.dispatching) the_daemon sc
      (dispatching now attempt run) (record db { operations = operations })

abbrev pub is_blocked : OccurrenceState → Bool
is_blocked OccurrenceState.blocked = true
is_blocked _ = false

-- A block for the same reason as before is stored without an event.
unfoldable pub store_blocked : Bool → Schedule → ScheduleRun → Db → Result Code Db
unfolding put_run
store_blocked changed sc run db =
    if changed
    then put_run (EventType.occurrence_now OccurrenceState.blocked) the_daemon sc run db
    else (do
      schedule_runs ← put_schedule_run run.id run db.schedule_runs
      ok (record db { schedule_runs = schedule_runs }))

unfoldable pub reblock : ℕ → Outcome → Schedule → ℕ → Db → Result Code Db
unfolding block_run store_blocked
reblock now why sc id db = do
  run ← get db.schedule_runs id
  if not (is_claimed_or_blocked run.state)
      then ok db
      else store_blocked (not (is_blocked run.state) || not (same_reason run.reason why)) sc
          (block_run now why run) db

unfoldable pub retried : ℕ → ScheduleRun → ScheduleRun
retried now run = elim run.state [
  | OccurrenceState.persisted ↦ record run { finished_at = now; updated_at = now }
  | _ ↦ record run { updated_at = now }
]

unfoldable pub retry_message_run : Fresh → Schedule → ℕ → Db → Result Code Db
unfolding persist_scheduled_message store_blocked retried put_run
retry_message_run f sc id db = do
  run ← get db.schedule_runs id
  if not (is_claimed_or_blocked run.state) then ok db else (do
    (run1, db1) ← persist_scheduled_message f sc (record run { attempts = run.attempts + 1 }) db
    if is_blocked run1.state && same_reason run1.reason run.reason
        then store_blocked false sc run1 db1
        else put_run (EventType.occurrence_now (retried f.now run1).state) the_daemon sc
            (retried f.now run1) db1)

-- permanentDispatchRefusals
unfoldable pub is_permanent : Code → Bool
is_permanent Code.not_found = true
is_permanent Code.invalid_args = true
is_permanent Code.invalid_scope = true
is_permanent _ = false

-- An attempt whose intent was committed: the occurrence follows the dispatch.
unfoldable pub follow : ℕ → Dispatch → ScheduleRun → ScheduleRun
follow now d run0 =
    let run = record run0 { dispatch_id = d.id; run_id = d.run_id; finished_at = now } in
    elim d.status [
      | DispatchStatus.sending ↦ record run {
        state = OccurrenceState.uncertain;
        error = some Code.uncertain;
      }
      | DispatchStatus.uncertain ↦ record run {
        state = OccurrenceState.uncertain;
        error = some Code.uncertain;
      }
      | DispatchStatus.failed ↦ record run { state = OccurrenceState.failed; reason = d.outcome }
      | DispatchStatus.settled ↦ record run {
        state = OccurrenceState.settled;
        reason = d.outcome;
        error = none;
      }
      | _ ↦ record run {
        state = OccurrenceState.dispatched;
        reason = Outcome.no_outcome;
        error = none;
      }
    ]

-- An attempt that sent nothing.
unfoldable pub turned_down : ℕ → Code → ScheduleRun → ScheduleRun
unfolding block_run
turned_down now code run0 =
    let run = record run0 { error = some code } in
    if is_permanent code
    then record run {
      state = OccurrenceState.failed;
      reason = Outcome.code code;
      finished_at = now;
    }
    else block_run now (Outcome.refused code) run

abbrev pub error_or_internal : Option Code → Code
error_or_internal (some code) = code
error_or_internal none = Code.internal_error

abbrev pub linked_dispatch : Resource → ℕ
linked_dispatch (Resource.of_dispatch id) = id
linked_dispatch _ = 0

abbrev pub Classified : Type 0
Classified = Result Code (ScheduleRun × Db)

abbrev pub classify_linked : ℕ → Operation → ScheduleRun → Db → Classified
classify_linked now op run db = do
  d ← get db.dispatches (linked_dispatch op.resource)
  operations ← finish_attempt now op d db.operations
  ok (follow now d run, record db { operations = operations })

abbrev pub classify_refused : ℕ → Operation → Code → ScheduleRun → Db → Classified
classify_refused now op code run db = do
  operations ← finish_op now op.id Reply.no_reply (some code) OperationState.failed db.operations
  ok (turned_down now code run, record db { operations = operations })

-- The receipt and not the returned error tells whether the intent was committed.
unfoldable pub classify_attempt : ℕ → Option Code → ScheduleRun → Db → Classified
unfolding follow turned_down finish_op finish_attempt
classify_attempt now error run0 db = do
  op ← get db.operations run0.attempt_id
  let run = record run0 { updated_at = now }
  if not (linked_dispatch op.resource == 0)
      then classify_linked now op run db
      else classify_refused now op (error_or_internal error) run db

unfoldable pub settle_attempt : ℕ → ℕ → ℕ → Option Code → Db → Result Code Db
unfolding classify_attempt put_run
settle_attempt now id attempt error db = do
  run ← get db.schedule_runs id
  if not (is_dispatching run.state) || not (run.attempt_id == attempt) then ok db else (do
    sc ← get db.schedules run.schedule_id
    (run1, db1) ← classify_attempt now error run db
    put_run (EventType.occurrence_now run1.state) the_daemon sc run1 db1)

-- An interrupted attempt that sent nothing is retried at once.
unfoldable pub promptly : ℕ → ScheduleRun → ScheduleRun
promptly now run = if is_blocked run.state then record run { next_attempt_at = now } else run

-- The transaction of recoverRuns for an attempt that was read before; `live` says that its
-- goroutine still runs.
unfoldable pub recover_run : ℕ → ℕ → ℕ → Bool → Db → Result Code Db
unfolding classify_attempt promptly put_run
recover_run now id attempt live db = do
  run ← get db.schedule_runs id
  if not (is_dispatching run.state) || not (run.attempt_id == attempt) || live then ok db else (do
    sc ← get db.schedules run.schedule_id
    (run1, db1) ← classify_attempt now (some Code.attempt_interrupted) run db
    put_run (EventType.occurrence_now (promptly now run1).state) the_daemon sc (promptly now run1)
        db1)

-- What executeRun reads and makes beside the database: the answers of the world and of the prompt,
-- and the ids of the attempt and of what it leads to.
pub record Execution : Type 0 where
  pub world : World
  pub prompt_answer : Option Code
  pub attempt : ℕ
  pub fingerprint : ℕ
  pub new_dispatch : ℕ
  pub new_run : ℕ
  pub fresh : Fresh
  pub in_flight : Bool

unfoldable pub attempt_request : Execution → Schedule → ScheduleRun → Request
attempt_request x sc run = record {
  id = x.attempt;
  caller = record { worker_id = 0; pane_id = 0 };
  scope_run_id = 0;
  spec = sc.spec;
  body = [];
  handoff = sc.handoff;
  schedule_run = run.id;
  new_dispatch = x.new_dispatch;
  new_run = x.new_run;
  now = x.fresh.now;
}

abbrev kept : Db → Result Code Db → Db
kept db (ok db') = db'
kept db (err _) = db

-- The attempt itself, and the record of its outcome.
unfoldable pub run_attempt : Execution → Schedule → ScheduleRun → Db → Db
unfolding dispatch attempt_request settle_attempt
run_attempt x sc run db =
    let r = attempt_request x sc run in
    elim (dispatch x.world r run.worker_id x.prompt_answer db) [
      | ok db1 ↦ kept db1 (settle_attempt x.fresh.now run.id x.attempt none db1)
      | err code ↦ kept db (settle_attempt x.fresh.now run.id x.attempt (some code) db)
    ]

abbrev is_away : WorkerState → Bool
is_away WorkerState.lost = true
is_away WorkerState.offline = true
is_away _ = false

abbrev why_away : Worker → Outcome
why_away w =
    if terminal_recipient w
    then Outcome.target_terminal w.id w.state
    else Outcome.target_unavailable w.id w.state

abbrev execute_dispatch : Execution → Schedule → ScheduleRun → Worker → Db → Db
execute_dispatch x sc run w db =
    if terminal_recipient w || is_away w.state
    then kept db (reblock x.fresh.now (why_away w) sc run.id db)
    else elim (start_attempt x.fresh.now x.attempt x.fingerprint sc run.id db) [
      | ok db1 ↦ run_attempt x sc run db1
      | err _ ↦ db
    ]

abbrev execute_with : Execution → ScheduleRun → Option Schedule → Option Worker → Db → Db
execute_with x run (some sc) (some w) db = elim run.action [
  | Action.message ↦ kept db (retry_message_run x.fresh sc run.id db)
  | Action.dispatch ↦ execute_dispatch x sc run w db
]
execute_with x run _ _ db = db

-- executeRun; its errors leave the database as it was and are reported nowhere.
unfoldable pub execute_run : Execution → ℕ → Db → Db
unfolding find retry_message_run reblock start_attempt run_attempt terminal_recipient
execute_run x id db = if x.in_flight then db else elim (find db.schedule_runs id) [
  | none ↦ db
  | some run ↦
      if not (is_claimed_or_blocked run.state)
      then db
      else execute_with x run (find db.schedules run.schedule_id) (find db.workers run.worker_id) db
]
