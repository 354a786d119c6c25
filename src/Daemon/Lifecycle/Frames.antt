-- ===== src/Daemon/Lifecycle/Frames.antt =====
-- What the shared parts of a transaction (internal/daemon/dispatch.go, schedule.go) leave as it was.
use herdr_woof.Prelude.{ℕ, ◌≡◌, refl, arith}
use herdr_woof.Prelude.Result.{ok}
use herdr_woof.Daemon.Model.{Dispatch, EventType, Actor}
use herdr_woof.Daemon.Store.{Db, event}
use herdr_woof.Daemon.Settle.{dispatch_event, sync_schedule_run, sync_final}

-- The tables of dispatches, workers and messages stay.
pub record IsFrame (db db' : Db) : Type 0 where
  pub dispatches : db'.dispatches ≡ db.dispatches
  pub workers : db'.workers ≡ db.workers
  pub messages : db'.messages ≡ db.messages

abbrev pub IsFrame_refl : (db : Db) → IsFrame db db
IsFrame_refl db = record { dispatches = refl; workers = refl; messages = refl }

pub dispatch_event-IsFrame :
    (type : EventType) (d : Dispatch) (db : Db) {db' : Db}
    → dispatch_event type d db ≡ ok db'
    → IsFrame db db'
unfolding dispatch_event event
dispatch_event-IsFrame type d db h = record {
  dispatches = ground arith;
  workers = ground arith;
  messages = ground arith;
}

pub sync_schedule_run-IsFrame :
    (now : ℕ) (d : Dispatch) (actor_kind : Actor) (actor_id : ℕ) (db : Db) {db' : Db}
    → sync_schedule_run now d actor_kind actor_id db ≡ ok db'
    → IsFrame db db'
unfolding sync_schedule_run sync_final event
sync_schedule_run-IsFrame now d actor_kind actor_id db h = record {
  dispatches = ground arith;
  workers = ground arith;
  messages = ground arith;
}
