-- ===== src/Daemon/Wake.antt =====
-- scheduleOnce of internal/daemon/schedule.go: one round of the scheduler's loop, with the attempts
-- that it starts and the time that the loop may sleep. The clock is read once in a round.
pub mod Sleep
use herdr_woof.Prelude.{
  ℕ, ◌-◌, min, max, Bool, true, false, not, ◌&&◌, ◌||◌, List, [], ◌∷◌, ◌++◌, none, some, leb, ◌==◌,
  if◌then◌else◌,
}
use herdr_woof.Prelude.Result.{Result, ok, err}
use herdr_woof.Daemon.Model.{Code, Schedule, ScheduleRun, OccurrenceState}
use herdr_woof.Daemon.Store.{Table, Db, list, is_removed}
use herdr_woof.Daemon.Occurrences.{
  Fresh, runs_in_state, is_claimed_or_blocked, is_dispatching, retry_min,
}
use herdr_woof.Daemon.Schedules.{Moment, now_of}
use herdr_woof.Daemon.Claims.{is_due, claim_due}
use herdr_woof.Daemon.Attempts.{recover_run}

abbrev pub idle_wake : ℕ
idle_wake = 30000

-- recoverRuns: `live` tells of an occurrence or an attempt whether its goroutine still runs. An error
-- ends the loop, and is logged.
unfoldable pub recover_all : ℕ → (ℕ → Bool) → List ScheduleRun → Db → Db
unfolding recover_run
recover_all now live [] db = db
recover_all now live (run ∷ runs) db =
    if live run.id || live run.attempt_id
    then recover_all now live runs db
    else elim (recover_run now run.id run.attempt_id (live run.attempt_id) db) [
      | ok db1 ↦ recover_all now live runs db1
      | err _ ↦ db
    ]

-- The due schedules are claimed one after the other; the ids of those whose claim failed.
unfoldable pub claim_all : Moment → (ℕ → Fresh × Fresh) → List Schedule → Db → List ℕ × Db
unfolding claim_due is_due
claim_all m fresh [] db = ([], db)
claim_all m fresh (sc ∷ scs) db =
    if not (is_due (now_of m) sc)
    then claim_all m fresh scs db
    else elim (claim_due m (fresh sc.id).0 (fresh sc.id).1 sc.id db) [
      | ok (_, db1) ↦ claim_all m fresh scs db1
      | err _ ↦ let (failed, db1) = claim_all m fresh scs db in (sc.id ∷ failed, db1)
    ]

abbrev is_claimed : OccurrenceState → Bool
is_claimed OccurrenceState.claimed = true
is_claimed _ = false

-- Whether a pending occurrence is attempted in this round.
unfoldable pub is_eligible : ℕ → (ℕ → Bool) → ScheduleRun → Bool
is_eligible now kicked run =
    is_claimed run.state || leb run.next_attempt_at now || kicked run.worker_id

unfoldable pub to_start : ℕ → (ℕ → Bool) → List ScheduleRun → List ℕ
unfolding is_eligible
to_start now kicked [] = []
to_start now kicked (run ∷ runs) =
    let rest = to_start now kicked runs in
    if is_eligible now kicked run then run.id ∷ rest else rest

-- The wake after the pending occurrences.
unfoldable pub wake_runs : ℕ → (ℕ → Bool) → List ScheduleRun → ℕ → ℕ
unfolding is_eligible
wake_runs now kicked [] wake = wake
wake_runs now kicked (run ∷ runs) wake =
    wake_runs now kicked runs
      (if is_eligible now kicked run then wake else min wake (run.next_attempt_at - now))

unfoldable pub is_in : ℕ → List ℕ → Bool
is_in id [] = false
is_in id (x ∷ xs) = x == id || is_in id xs

unfoldable pub is_waiting : Schedule → Bool
is_waiting sc = sc.enabled && not (is_removed sc.state) && not (sc.next_run_at == 0)

-- The wake after the schedules. A time that has passed counts as 0, where the source has a negative
-- duration; both give the least sleep.
unfoldable pub wake_schedules : ℕ → List ℕ → List Schedule → ℕ → ℕ
unfolding is_in is_waiting
wake_schedules now failed [] wake = wake
wake_schedules now failed (sc ∷ scs) wake = wake_schedules now failed scs (
    if is_in sc.id failed
    then min wake retry_min
    else if is_waiting sc
    then min wake (sc.next_run_at - now)
    else wake)

unfoldable pub wake_after : ℕ → (ℕ → Bool) → List ℕ → List ScheduleRun → List Schedule → ℕ
unfolding wake_runs wake_schedules
wake_after now kicked failed pending scs =
    max (wake_schedules now failed scs (wake_runs now kicked pending idle_wake)) 10

pub record Round : Type 0 where
  pub started : List ℕ
  pub wake : ℕ
  pub db : Db

unfoldable pub schedule_once : Moment → (ℕ → Fresh × Fresh) → (ℕ → Bool) → (ℕ → Bool) → Db → Round
unfolding recover_all claim_all to_start wake_after runs_in_state list
schedule_once m fresh live kicked db =
    let now = now_of m in
    let db1 = recover_all now live (runs_in_state 0 is_dispatching db.schedule_runs) db in
    let (failed, db2) = claim_all m fresh (list (λ sc. true) db1.schedules) db1 in
    let pending = runs_in_state 0 is_claimed_or_blocked db2.schedule_runs in
    record {
      started = to_start now kicked pending;
      wake = wake_after now kicked failed pending (list (λ sc. true) db2.schedules);
      db = db2;
    }
