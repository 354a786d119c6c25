-- ===== src/Daemon/ScheduleExamples.antt =====
-- A schedule of internal/daemon/schedule.go and its first minutes: tests of its transactions and the
-- theorems at these inputs.
use herdr_woof.Prelude.{ℕ, ◌≤◌, ◌≡◌, refl, true, false, some, none, [], ◌∷◌, arith, ◌==◌, ◌&&◌, not}
use herdr_woof.Prelude.Int.{pos, ◌+ℤ◌, ◌-ℤ◌}
use herdr_woof.Prelude.Text.{codes, text_eq}
use herdr_woof.Prelude.Result.{Result, ok, err}
use herdr_woof.Schedule.Zone.{Location}
use herdr_woof.Schedule.Every.{next_every, due_every}
use herdr_woof.Schedule.Expr.{Expr, expr_next, expr_due}
use herdr_woof.Daemon.Model.{
  Code, Schedule, ScheduleState, ScheduleRun, OccurrenceState, OccurrenceKey, Outcome, MissedPolicy,
  Action, Trigger, Actor, Operation, OperationState, Resource, Reply,
}
use herdr_woof.Daemon.Store.{
  Db, find, get, put, put_row, list, put_schedule, put_schedule_run, is_claimed, is_named, event,
}
use herdr_woof.Daemon.Settle.{finish_op, schedule_event_scope}
use herdr_woof.Daemon.Occurrences.{
  Fresh, backoff, runs_in_state, key_exists, put_run, cancel_outstanding, cancel_all, cancelled,
  create_run, new_run, ended, is_claimed_or_blocked, schedule_scope, block_run,
}
use herdr_woof.Daemon.Schedules.{
  Moment, advance, disable, schedule_mutate, apply_op, disable_schedule, finish_request,
  operation_resource,
}
use herdr_woof.Daemon.Claims.{
  claim_due, claim_with, is_due, due_from, or_itself, fires, missed_of, claim_missed, claim_latest,
  claim_run,
}
use herdr_woof.Daemon.Attempts.{
  start_attempt, new_attempt, dispatching, settle_attempt, classify_attempt, turned_down,
  is_permanent, linked_dispatch, error_or_internal,
}
use herdr_woof.Daemon.Scheduling.{AreSoundRuns, IsRunAdvance}
use herdr_woof.Daemon.Scheduling.Reach.{
  ScheduleReaches, ScheduleStep, here, after, schedule_reach-IsRunAdvance,
}
use herdr_woof.Daemon.Scheduling.Retries.{classify_attempt_retries}
use herdr_woof.Daemon.Scheduling.Cancelled.{AreCancelled}
use herdr_woof.Daemon.Scheduling.Cancel.{NoneToTry, schedule_mutate_closes}
use herdr_woof.Daemon.Scheduling.Progress.{IsStoredAhead, claim_due-IsStoredAhead}
use herdr_woof.Daemon.Wake.{
  idle_wake, is_eligible, wake_runs, is_in, is_waiting, wake_schedules, wake_after,
}
use herdr_woof.Daemon.Wake.Sleep.{NoRetryWithin, NoneDueWithin, wake_after_bounds}

-- UTC.
abbrev utc : Location
utc t = record { off = pos 0; start = none; stop = none }

-- "@every 1m"
abbrev every_minute : Expr
every_minute = record {
  loc = utc;
  every = 60000000000;
  spec = record { minute = 0; hour = 0; dom = 0; month = 0; dow = 0 };
}

abbrev review : Schedule
review = record {
  id = 5;
  session_id = 2;
  workspace_id = 3;
  worktree_id = 0;
  worker_id = 1;
  target_name = 0;
  name = codes "review";
  expr = some every_minute;
  missed = MissedPolicy.latest;
  action = Action.dispatch;
  subject = [];
  body = [];
  spec = codes "Review";
  handoff = [];
  enabled = true;
  state = ScheduleState.active;
  anchor_at = 1000000;
  next_run_at = 1060000;
  last_run_at = 0;
  last_run_id = 0;
  revision = 0;
  created_by_kind = Actor.human;
  created_by_worker_id = 0;
  created_at = 1000000;
  updated_at = 1000000;
  removed_at = 0;
}

abbrev receipt : Operation
receipt = record {
  id = 40;
  fingerprint = 0;
  state = OperationState.accepted;
  resource = Resource.no_resource;
  result = Reply.no_reply;
  error_code = none;
  created_at = 1060000;
  updated_at = 1060000;
}

abbrev base : Db
base = record {
  workers = [];
  runs = [];
  messages = [];
  deliveries = [];
  dispatches = [];
  schedules = (5, review) ∷ [];
  schedule_runs = [];
  operations = (40, receipt) ∷ [];
  events = [];
}

base-AreSoundRuns : AreSoundRuns base.schedule_runs
unfolding find
base-AreSoundRuns = record {
  sorted = tt;
  named = λ id run h. cc;
  sound = λ id run h. cc;
  one_claim = λ i j x y h k s c. cc;
  one_outstanding = λ i j x y h k s a b. cc;
}

-- Half a second after the occurrence at 1060000.
abbrev moment : Moment
moment = record { clock = 1060500000000; here = utc }

abbrev fresh : ℕ → Fresh
fresh id = record { now = 1060500; run = id; message = 60; delivery = 61 }

abbrev db_of {ℓ} : {A : Type ℓ} → Result Code (A × Db) → Db
db_of (ok (a, db)) = db
db_of (err e) = base

abbrev plain_db : Result Code Db → Db
plain_db (ok db) = db
plain_db (err e) = base

-- What the tests compute with.
engine : Unit {0}
unfolding claim_due claim_with is_due due_from or_itself fires missed_of claim_missed claim_latest
    claim_run expr_due expr_next due_every next_every advance create_run new_run ended put_run
    key_exists runs_in_state put_schedule put_schedule_run is_claimed is_named put put_row get find
    list event schedule_event_scope start_attempt new_attempt dispatching settle_attempt
    classify_attempt turned_down is_permanent block_run backoff finish_op schedule_scope text_eq
    ◌+ℤ◌ ◌-ℤ◌ schedule_mutate apply_op disable_schedule cancel_outstanding cancel_all cancelled
    finish_request operation_resource
engine = tt

abbrev claimed_run : ScheduleRun
claimed_run = record {
  id = 50;
  schedule_id = 5;
  session_id = 2;
  workspace_id = 3;
  worktree_id = 0;
  worker_id = 1;
  run_id = 0;
  occurrence_key = OccurrenceKey.at_time 1060000;
  trigger = Trigger.scheduled;
  action = Action.dispatch;
  state = OccurrenceState.claimed;
  reason = Outcome.no_outcome;
  scheduled_for = 1060000;
  missed_count = 0;
  missed_last = pos 0;
  skipped_count = 0;
  skipped_last = 0;
  attempts = 0;
  attempt_id = 0;
  next_attempt_at = 0;
  message_id = 0;
  delivery_ids = [];
  dispatch_id = 0;
  request_id = 0;
  error = none;
  claimed_at = 1060500;
  updated_at = 1060500;
  finished_at = 0;
}

abbrev claimed_db : Db
claimed_db = db_of (claim_due moment (fresh 49) (fresh 50) 5 base)

claim : claim_due moment (fresh 49) (fresh 50) 5 base ≡ ok (some claimed_run, claimed_db)
unfolding engine
claim = refl

-- The schedule goes on to the next minute.
claim_advances :
    find claimed_db.schedules 5
    ≡ some (record review {
      next_run_at = 1120000;
      last_run_at = 1060000;
      last_run_id = 50;
      revision = 1;
      updated_at = 1060500;
    })
unfolding engine
claim_advances = refl

-- The first attempt is turned down, since Herdr is not connected: the occurrence waits.
abbrev attempting : Db
attempting = plain_db (start_attempt 1060600 70 9 review 50 claimed_db)

started : start_attempt 1060600 70 9 review 50 claimed_db ≡ ok attempting
unfolding engine
started = refl

abbrev waiting : Db
waiting = plain_db (settle_attempt 1060700 50 70 (some Code.offline) attempting)

turned : settle_attempt 1060700 50 70 (some Code.offline) attempting ≡ ok waiting
unfolding engine
turned = refl

waits :
    find waiting.schedule_runs 50
    ≡ some (record claimed_run {
      state = OccurrenceState.blocked;
      reason = Outcome.refused Code.offline;
      error = some Code.offline;
      attempts = 1;
      attempt_id = 70;
      next_attempt_at = 1090700;
      updated_at = 1060700;
    })
unfolding engine
waits = refl

first_minute : ScheduleReaches base waiting
unfolding engine
first_minute =
    after
      (after
        (after here (
          ScheduleStep.claim moment (fresh 49) (fresh 50) 5 (some claimed_run) refl refl refl
            claim))
        (ScheduleStep.start 1060600 70 9 review 50 started))
      (ScheduleStep.settle 1060700 50 70 (some Code.offline) turned)

schedule_reach-IsRunAdvance_example : IsRunAdvance base.schedule_runs waiting.schedule_runs
schedule_reach-IsRunAdvance_example =
    schedule_reach-IsRunAdvance base waiting base-AreSoundRuns first_minute

waiting-AreSoundRuns : AreSoundRuns waiting.schedule_runs
waiting-AreSoundRuns =
    (schedule_reach-IsRunAdvance base waiting base-AreSoundRuns first_minute).still_sound

abbrev attempted_run : ScheduleRun
attempted_run = record claimed_run {
  state = OccurrenceState.dispatching;
  attempt_id = 70;
  attempts = 1;
  updated_at = 1060600;
}

abbrev attempt_receipt : Operation
attempt_receipt = record receipt {
  id = 70;
  fingerprint = 9;
  created_at = 1060600;
  updated_at = 1060600;
}

abbrev refused_run : ScheduleRun
refused_run = record attempted_run {
  state = OccurrenceState.failed;
  reason = Outcome.code Code.invalid_args;
  error = some Code.invalid_args;
  updated_at = 1060700;
  finished_at = 1060700;
}

abbrev classified_db : Db
classified_db = db_of (classify_attempt 1060700 (some Code.invalid_args) attempted_run attempting)

attempt_stored : get attempting.operations 70 ≡ ok attempt_receipt
unfolding engine
attempt_stored = refl

attempt_refused :
    classify_attempt 1060700 (some Code.invalid_args) attempted_run attempting
    ≡ ok (refused_run, classified_db)
unfolding engine
attempt_refused = refl

classify_attempt_retries_example :
    is_claimed_or_blocked refused_run.state
    ≡ (linked_dispatch attempt_receipt.resource == 0)
      && not (is_permanent (error_or_internal (some Code.invalid_args)))
classify_attempt_retries_example =
    classify_attempt_retries 1060700 (some Code.invalid_args) attempted_run refused_run
      attempt_receipt attempting classified_db attempt_stored attempt_refused

-- The schedule is disabled while its occurrence waits.
abbrev later_review : Schedule
later_review = record review {
  next_run_at = 1120000;
  last_run_at = 1060000;
  last_run_id = 50;
  revision = 1;
  updated_at = 1060500;
}

abbrev off : Db
off = plain_db (schedule_mutate moment 40 (Actor.human, 0) disable 5 waiting)

disabled : schedule_mutate moment 40 (Actor.human, 0) disable 5 waiting ≡ ok off
unfolding engine
disabled = refl

still_stored : get waiting.schedules 5 ≡ ok later_review
unfolding engine
still_stored = refl

schedule_mutate_closes_example :
    NoneToTry off.schedule_runs 5
    × ((why : Outcome) × AreCancelled 1060500 why 5 waiting.schedule_runs off.schedule_runs)
    × ((x : Schedule) × (find off.schedules 5 ≡ some x) × (x.enabled ≡ false))
schedule_mutate_closes_example =
    schedule_mutate_closes moment 40 (Actor.human, 0) disable 5 later_review waiting off
      waiting-AreSoundRuns (omega arith) refl still_stored refl disabled

review_stored : get base.schedules 5 ≡ ok review
unfolding engine
review_stored = refl

review_due : is_due 1060500 review ≡ true
unfolding engine
review_due = refl

claim_due-IsStoredAhead_example : IsStoredAhead moment 5 claimed_db
claim_due-IsStoredAhead_example =
    claim_due-IsStoredAhead moment (fresh 49) (fresh 50) 5 review (some claimed_run) base claimed_db
      review_stored refl review_due claim

abbrev waiting_run : ScheduleRun
waiting_run = record attempted_run { state = OccurrenceState.blocked; next_attempt_at = 1090700 }

wake_after_bounds_example :
    (10 ≤ wake_after 1080700 (λ _. false) [] (waiting_run ∷ []) (later_review ∷ []))
    × (wake_after 1080700 (λ _. false) [] (waiting_run ∷ []) (later_review ∷ []) ≤ idle_wake)
    × NoRetryWithin 1080700
        (λ _. false)
        (wake_after 1080700 (λ _. false) [] (waiting_run ∷ []) (later_review ∷ []))
        (waiting_run ∷ [])
    × NoneDueWithin 1080700 []
        (wake_after 1080700 (λ _. false) [] (waiting_run ∷ []) (later_review ∷ []))
        (later_review ∷ [])
wake_after_bounds_example =
    wake_after_bounds 1080700 (λ _. false) [] (waiting_run ∷ []) (later_review ∷ [])

-- It sleeps until the retry, which is ten seconds away.
sleeps_ten_seconds :
    wake_after 1080700 (λ _. false) [] (waiting_run ∷ []) (later_review ∷ []) ≡ 10000
unfolding wake_after wake_runs wake_schedules is_eligible is_waiting is_in
sleeps_ten_seconds = refl
