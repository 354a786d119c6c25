-- ===== src/Daemon/Scheduling/Reach.antt =====
-- The transactions of internal/daemon/schedule.go in any order: claims, changes of schedules,
-- attempts with their outcomes, recovery, and the end of a dispatch.
use herdr_woof.Prelude.{ℕ, ◌≡◌, Bool, false, Option, none, ◌==◌}
use herdr_woof.Prelude.Result.{ok}
use herdr_woof.Schedule.Expr.{Expr}
use herdr_woof.Daemon.Model.{Code, Schedule, ScheduleRun, Outcome, Dispatch, Actor}
use herdr_woof.Daemon.Store.{Db, find}
use herdr_woof.Daemon.Settle.{sync_schedule_run}
use herdr_woof.Daemon.Occurrences.{By, Fresh}
use herdr_woof.Daemon.Schedules.{
  Moment, ScheduleOp, schedule_mutate, schedule_add_tx, manual_run_tx,
}
use herdr_woof.Daemon.Claims.{claim_due}
use herdr_woof.Daemon.Attempts.{
  start_attempt, reblock, retry_message_run, settle_attempt, recover_run,
}
use herdr_woof.Daemon.Scheduling.{AreSoundRuns, IsRunAdvance}
use herdr_woof.Daemon.Scheduling.Advance.{IsRunAdvance-refl, IsRunAdvance-trans}
use herdr_woof.Daemon.Scheduling.Attempts.{
  start_attempt-IsRunAdvance, reblock-IsRunAdvance, settle_attempt-IsRunAdvance,
  recover_run-IsRunAdvance,
}
use herdr_woof.Daemon.Scheduling.Messages.{
  retry_message_run-IsRunAdvance, sync_schedule_run-IsRunAdvance,
}
use herdr_woof.Daemon.Scheduling.Series.{schedule_mutate-IsRunAdvance}
use herdr_woof.Daemon.Scheduling.Due.{
  schedule_add-IsRunAdvance, manual_run-IsRunAdvance, claim_due-IsRunAdvance,
}

-- One transaction that commits; `sync` is the part of a transaction on a dispatch that concerns the
-- occurrence. A new occurrence has an id that is not in use.
pub data ScheduleStep (db db' : Db) : Type 0 where
  add :
      (m : Moment) (request : ℕ) (by : By) (expr : Expr) (sc : Schedule)
      → schedule_add_tx m request by expr sc db ≡ ok db'
      → ScheduleStep db db'
  mutate :
      (m : Moment) (request : ℕ) (by : By) (op : ScheduleOp) (id : ℕ)
      → schedule_mutate m request by op id db ≡ ok db'
      → ScheduleStep db db'
  run_now :
      (f : Fresh) (request : ℕ) (by : By) (id : ℕ) (run : ScheduleRun)
      → find db.schedule_runs f.run ≡ none
      → manual_run_tx f request by id db ≡ ok (run, db')
      → ScheduleStep db db'
  claim :
      (m : Moment) (for_missed f : Fresh) (id : ℕ) (run : Option ScheduleRun)
      → find db.schedule_runs for_missed.run ≡ none
      → find db.schedule_runs f.run ≡ none
      → (for_missed.run == f.run) ≡ false
      → claim_due m for_missed f id db ≡ ok (run, db')
      → ScheduleStep db db'
  start :
      (now attempt fingerprint : ℕ) (sc : Schedule) (id : ℕ)
      → start_attempt now attempt fingerprint sc id db ≡ ok db'
      → ScheduleStep db db'
  block :
      (now : ℕ) (why : Outcome) (sc : Schedule) (id : ℕ)
      → reblock now why sc id db ≡ ok db'
      → ScheduleStep db db'
  retry :
      (f : Fresh) (sc : Schedule) (id : ℕ)
      → retry_message_run f sc id db ≡ ok db'
      → ScheduleStep db db'
  settle :
      (now id attempt : ℕ) (error : Option Code)
      → settle_attempt now id attempt error db ≡ ok db'
      → ScheduleStep db db'
  recover :
      (now id attempt : ℕ) (live : Bool)
      → recover_run now id attempt live db ≡ ok db'
      → ScheduleStep db db'
  sync :
      (now : ℕ) (d : Dispatch) (kind : Actor) (actor : ℕ)
      → sync_schedule_run now d kind actor db ≡ ok db'
      → ScheduleStep db db'

-- Transactions one after the other.
pub data ScheduleReaches (db : Db) : Db → Type 0 where
  here : ScheduleReaches db db
  after : {db1 db2 : Db} → ScheduleReaches db db1 → ScheduleStep db1 db2 → ScheduleReaches db db2

step-IsRunAdvance :
    (db db' : Db)
    → AreSoundRuns db.schedule_runs
    → ScheduleStep db db'
    → IsRunAdvance db.schedule_runs db'.schedule_runs
step-IsRunAdvance db db' s (ScheduleStep.add m request by expr sc h) =
    schedule_add-IsRunAdvance m request by expr sc db db' s h
step-IsRunAdvance db db' s (ScheduleStep.mutate m request by op id h) =
    schedule_mutate-IsRunAdvance m request by op id db db' s h
step-IsRunAdvance db db' s (ScheduleStep.run_now f request by id run fresh h) =
    manual_run-IsRunAdvance f request by id run db db' s fresh h
step-IsRunAdvance db db' s (ScheduleStep.claim m for_missed f id run fresh fresh' other h) =
    claim_due-IsRunAdvance m for_missed f id run db db' s fresh fresh' other h
step-IsRunAdvance db db' s (ScheduleStep.start now attempt fingerprint sc id h) =
    start_attempt-IsRunAdvance now attempt fingerprint sc id db db' s h
step-IsRunAdvance db db' s (ScheduleStep.block now why sc id h) =
    reblock-IsRunAdvance now why sc id db db' s h
step-IsRunAdvance db db' s (ScheduleStep.retry f sc id h) =
    retry_message_run-IsRunAdvance f sc id db db' s h
step-IsRunAdvance db db' s (ScheduleStep.settle now id attempt error h) =
    settle_attempt-IsRunAdvance now id attempt error db db' s h
step-IsRunAdvance db db' s (ScheduleStep.recover now id attempt live h) =
    recover_run-IsRunAdvance now id attempt live db db' s h
step-IsRunAdvance db db' s (ScheduleStep.sync now d kind actor h) =
    sync_schedule_run-IsRunAdvance now d kind actor db db' s h

-- From a database whose occurrences are sound, after any transactions of the scheduler in any order:
-- no two occurrences of a schedule have the same key, and no two are outstanding; no occurrence is
-- lost; one that is no longer outstanding never is again, so that no attempt starts for it; and the
-- message or the dispatch that it led to never changes.
pub schedule_reach-IsRunAdvance :
    (db db' : Db)
    → AreSoundRuns db.schedule_runs
    → ScheduleReaches db db'
    → IsRunAdvance db.schedule_runs db'.schedule_runs
schedule_reach-IsRunAdvance db db' s ScheduleReaches.here = IsRunAdvance-refl s
schedule_reach-IsRunAdvance db db' s (ScheduleReaches.after {db1 = db1} r step) =
    let before = schedule_reach-IsRunAdvance db db1 s r in
    IsRunAdvance-trans before (step-IsRunAdvance db1 db' before.still_sound step)
