-- ===== src/Daemon/Lifecycle.antt =====
-- What holds of the dispatches that internal/daemon/dispatch.go keeps, whatever transactions run and
-- in whatever order.
pub mod Advance
pub mod Frames
pub mod Moves
pub mod Ends
pub mod Safe
pub mod Repeat
pub mod Reach
pub mod Loops
pub mod Puts
pub mod Steps
pub mod Alerts
pub mod Resolved
use herdr_woof.Prelude.{ℕ, ◌<◌, ◌≡◌, ◌≢◌, Bool, true, false, Option, none, some, List, [], ◌∷◌}
use herdr_woof.Daemon.Model.{Dispatch, DispatchStatus, Outcome, active_dispatch}
use herdr_woof.Daemon.Store.{Table, find, list}
use herdr_woof.Daemon.Store.Rows.{Above}

-- How a dispatch may change: it keeps its identity; a final dispatch keeps everything but its count
-- of nudges; a recorded report stays, and so does the end of the turn.
pub record Evolves (d e : Dispatch) : Type 0 where
  pub same_id : e.id ≡ d.id
  pub same_worker : e.worker_id ≡ d.worker_id
  pub same_baseline : e.baseline_seq ≡ d.baseline_seq
  pub final : active_dispatch d ≡ false → (n : ℕ) × (e ≡ record d { nudges = n })
  pub same_report :
      d.done_message_id ≢ 0
      → (e.done_message_id ≡ d.done_message_id)
        × (e.report_outcome ≡ d.report_outcome)
        × (e.done_at ≡ d.done_at)
  pub same_end : d.turn_ended ≡ true → (e.turn_ended ≡ true) × (e.end_seq ≡ d.end_seq)

-- A settled dispatch has ended its turn and was reported, and its outcome is the reported one. The
-- turn ended after the sequence number at which the dispatch was sent.
pub record IsSound (d : Dispatch) : Type 0 where
  pub settled_ended : d.status ≡ DispatchStatus.settled → d.turn_ended ≡ true
  pub settled_reported : d.status ≡ DispatchStatus.settled → d.done_message_id ≢ 0
  pub settled_outcome : d.status ≡ DispatchStatus.settled → d.outcome ≡ d.report_outcome
  pub end_later : d.turn_ended ≡ true → d.baseline_seq < d.end_seq
  pub done_reported : d.done_at ≢ 0 → d.done_message_id ≢ 0

-- The dispatches of a database: in the order of their ids, each under its own id, each sound, and
-- no two of one worker active.
pub record AreSound (rows : Table Dispatch) : Type 0 where
  pub sorted : Above 0 rows
  pub named : (id : ℕ) (d : Dispatch) → find rows id ≡ some d → d.id ≡ id
  pub sound : (id : ℕ) (d : Dispatch) → find rows id ≡ some d → IsSound d
  pub one_active :
      (i j : ℕ) (d e : Dispatch)
      → find rows i ≡ some d
      → find rows j ≡ some e
      → active_dispatch d ≡ true
      → active_dispatch e ≡ true
      → d.worker_id ≡ e.worker_id
      → i ≡ j

-- From one table to a later one: no dispatch is lost, and each changes as it may.
pub record IsAdvance (rows rows' : Table Dispatch) : Type 0 where
  pub still_sound : AreSound rows'
  pub kept :
      (id : ℕ) (d : Dispatch)
      → find rows id ≡ some d
      → (e : Dispatch) × (find rows' id ≡ some e) × Evolves d e
