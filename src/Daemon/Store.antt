-- ===== src/Daemon/Store.antt =====
-- internal/store/store.go: the tables of the database and the records put into them. A table is
-- its rows in the order of their ids, which is the order that List gives them in.
pub mod Rows
pub mod Listed
use herdr_woof.Prelude.{
  ℕ, zero, Bool, true, false, not, ◌&&◌, ◌||◌, Option, none, some, List, [], ◌∷◌, ◌++◌, ltb, ◌==◌,
  if◌then◌else◌,
}
use herdr_woof.Prelude.Result.{Result, ok, err, ◌>>=◌, ◌>>◌, refuse}
use herdr_woof.Prelude.Text.{text_eq}
use herdr_woof.Daemon.Model.{
  Code, Scope, Worker, Run, Message, Delivery, Dispatch, Schedule, ScheduleRun, Operation, Event,
  EventType, Actor, OccurrenceKey, ScheduleState, active_dispatch,
}

abbrev pub Table {ℓ} : Type ℓ → Type ℓ
Table A = List (ℕ × A)

module _ {ℓ} {A : Type ℓ} where
  unfoldable pub find : Table A → ℕ → Option A
  find [] id = none
  find ((k, a) ∷ rows) id = if k == id then some a else find rows id

  unfoldable pub put_row : ℕ → A → Table A → Table A
  put_row id a [] = (id, a) ∷ []
  put_row id a ((k, b) ∷ rows) =
      let rest = put_row id a rows in
      if k == id
      then (id, a) ∷ rows
      else if ltb id k
      then (id, a) ∷ (k, b) ∷ rows
      else (k, b) ∷ rest

  -- Get.
  unfoldable pub get : Table A → ℕ → Result Code A
  unfolding find
  get rows id = elim (find rows id) [ none ↦ err Code.not_found | some a ↦ ok a ]

  -- Put: the record's own id must be the key, and the key must not be empty.
  unfoldable pub put : ℕ → ℕ → A → Table A → Result Code (Table A)
  unfolding put_row
  put id record_id a rows = do
    refuse (id == 0 || not (record_id == id)) Code.invalid_record
    ok (put_row id a rows)

  -- List with a selector.
  unfoldable pub list : (A → Bool) → Table A → List A
  list keep [] = []
  list keep ((k, a) ∷ rows) = let rest = list keep rows in if keep a then a ∷ rest else rest

-- The index dispatches_active_worker of internal/store/schema.go: another active dispatch of the
-- same worker.
unfoldable pub has_other_active : Dispatch → Table Dispatch → Bool
unfolding active_dispatch
has_other_active d [] = false
has_other_active d ((k, x) ∷ rows) =
    (not (k == d.id) && x.worker_id == d.worker_id && active_dispatch x) || has_other_active d rows

unfoldable pub put_dispatch : ℕ → Dispatch → Table Dispatch → Result Code (Table Dispatch)
unfolding put has_other_active active_dispatch
put_dispatch id d rows = do
  refuse (active_dispatch d && has_other_active d rows) Code.busy_worker
  put id d.id d rows

abbrev pub same_key : OccurrenceKey → OccurrenceKey → Bool
same_key (OccurrenceKey.missed_from a) (OccurrenceKey.missed_from b) = a == b
same_key (OccurrenceKey.at_time a) (OccurrenceKey.at_time b) = a == b
same_key (OccurrenceKey.manual a) (OccurrenceKey.manual b) = a == b
same_key _ _ = false

-- The index schedule_runs_occurrence: another occurrence of the schedule with the key.
unfoldable pub is_claimed : ScheduleRun → Table ScheduleRun → Bool
is_claimed run [] = false
is_claimed run ((k, x) ∷ rows) =
    (not (k == run.id)
      && x.schedule_id == run.schedule_id
      && same_key x.occurrence_key run.occurrence_key)
    || is_claimed run rows

unfoldable pub put_schedule_run :
    ℕ → ScheduleRun → Table ScheduleRun → Result Code (Table ScheduleRun)
unfolding put is_claimed
put_schedule_run id run rows = do
  refuse (is_claimed run rows) Code.occurrence_claimed
  put id run.id run rows

abbrev pub is_removed : ScheduleState → Bool
is_removed ScheduleState.removed = true
is_removed ScheduleState.active = false

-- The index schedules_active_name: another schedule of the workspace that is not removed.
unfoldable pub is_named : Schedule → Table Schedule → Bool
unfolding text_eq
is_named sc [] = false
is_named sc ((k, x) ∷ rows) =
    (not (k == sc.id)
      && x.workspace_id == sc.workspace_id
      && text_eq x.name sc.name
      && not (is_removed x.state))
    || is_named sc rows

unfoldable pub put_schedule : ℕ → Schedule → Table Schedule → Result Code (Table Schedule)
unfolding put is_named
put_schedule id sc rows = do
  refuse (not (is_removed sc.state) && is_named sc rows) Code.name_conflict
  put id sc.id sc rows

pub record Db : Type 0 where
  pub workers : Table Worker
  pub runs : Table Run
  pub messages : Table Message
  pub deliveries : Table Delivery
  pub dispatches : Table Dispatch
  pub schedules : Table Schedule
  pub schedule_runs : Table ScheduleRun
  pub operations : Table Operation
  pub events : List Event

-- Event: the log is append-only.
unfoldable pub event : EventType → Scope → Actor → ℕ → Db → Db
event type scope actor_kind actor_id db = record db {
  events =
      db.events
      ++ (record { type = type; scope = scope; actor_kind = actor_kind; actor_id = actor_id }) ∷ [];
}
