-- ===== src/Daemon/Scheduling.antt =====
-- What holds of the occurrences that internal/daemon/schedule.go keeps, whatever transactions run
-- and in whatever order.
pub mod Advance
pub mod Moves
pub mod Puts
pub mod Attempts
pub mod Messages
pub mod Claims
pub mod Series
pub mod Due
pub mod Reach
pub mod Retries
pub mod Cancel
pub mod Cancelled
pub mod Progress
use herdr_woof.Prelude.{ℕ, ◌≤◌, ◌≡◌, ◌≢◌, Bool, true, false, none, some}
use herdr_woof.Daemon.Model.{ScheduleRun, OccurrenceState}
use herdr_woof.Daemon.Store.{Table, find, same_key}
use herdr_woof.Daemon.Store.Rows.{Above}
use herdr_woof.Daemon.Occurrences.{is_outstanding}

-- How an occurrence may change: it keeps its identity, its schedule and its key; once it is no longer
-- outstanding it never is again; and the message and the dispatch that it led to stay the same.
pub record RunEvolves (run later : ScheduleRun) : Type 0 where
  pub same_id : later.id ≡ run.id
  pub same_schedule : later.schedule_id ≡ run.schedule_id
  pub same_key_as : later.occurrence_key ≡ run.occurrence_key
  pub final : is_outstanding run.state ≡ false → is_outstanding later.state ≡ false
  pub same_message : run.message_id ≢ 0 → later.message_id ≡ run.message_id
  pub same_dispatch : run.dispatch_id ≢ 0 → later.dispatch_id ≡ run.dispatch_id
  pub counted : run.attempts ≤ later.attempts

-- An outstanding occurrence has led to no message and to no dispatch yet.
pub record IsSoundRun (run : ScheduleRun) : Type 0 where
  pub no_message : is_outstanding run.state ≡ true → run.message_id ≡ 0
  pub no_dispatch : is_outstanding run.state ≡ true → run.dispatch_id ≡ 0

-- The occurrences of a database: in the order of their ids, each under its own id, each sound; no
-- two of one schedule have the same key, and no two of one schedule are outstanding.
pub record AreSoundRuns (rows : Table ScheduleRun) : Type 0 where
  pub sorted : Above 0 rows
  pub named : (id : ℕ) (run : ScheduleRun) → find rows id ≡ some run → run.id ≡ id
  pub sound : (id : ℕ) (run : ScheduleRun) → find rows id ≡ some run → IsSoundRun run
  pub one_claim :
      (i j : ℕ) (x y : ScheduleRun)
      → find rows i ≡ some x
      → find rows j ≡ some y
      → x.schedule_id ≡ y.schedule_id
      → same_key x.occurrence_key y.occurrence_key ≡ true
      → i ≡ j
  pub one_outstanding :
      (i j : ℕ) (x y : ScheduleRun)
      → find rows i ≡ some x
      → find rows j ≡ some y
      → x.schedule_id ≡ y.schedule_id
      → is_outstanding x.state ≡ true
      → is_outstanding y.state ≡ true
      → i ≡ j

-- From one table to a later one: no occurrence is lost, and each changes as it may.
pub record IsRunAdvance (rows rows' : Table ScheduleRun) : Type 0 where
  pub still_sound : AreSoundRuns rows'
  pub kept :
      (id : ℕ) (run : ScheduleRun)
      → find rows id ≡ some run
      → (later : ScheduleRun) × (find rows' id ≡ some later) × RunEvolves run later

-- The same where no occurrence is new.
pub record IsUpdate (rows rows' : Table ScheduleRun) : Type 0 where
  pub advance : IsRunAdvance rows rows'
  pub absent : (j : ℕ) → find rows j ≡ none → find rows' j ≡ none
