-- ===== src/Daemon/Scheduling/Messages.antt =====
-- persistScheduledMessageTx, retryMessageRun and syncScheduleRunTx of internal/daemon/schedule.go
-- over the table of occurrences.
use herdr_woof.Prelude.{
  ℕ, ◌+◌, ◌≡◌, refl, sym, subst, true, false, not, ◌&&◌, Option, some, none, List, [], ◌∷◌, ◌==◌,
  arith,
}
use herdr_woof.Prelude.Result.{Result, ok, ok_steps, by_branch}
use herdr_woof.Daemon.Model.{
  Code, ScheduleRun, OccurrenceState, Outcome, Schedule, EventType, Dispatch, DispatchStatus, Actor,
  Worker, Message, terminal_recipient,
}
use herdr_woof.Daemon.Store.{Db, get, put, put_schedule_run, event}
use herdr_woof.Daemon.Settle.{
  sync_schedule_run, sync_final, follows, attempt_of, final_state, synced,
}
use herdr_woof.Daemon.Mailbox.{put_message, put_deliveries, queued_delivery}
use herdr_woof.Daemon.Occurrences.{
  the_daemon, Fresh, is_outstanding, is_claimed_or_blocked, put_run, persist_scheduled_message,
  persisted, scheduled_message,
}
use herdr_woof.Daemon.Attempts.{retry_message_run, retried, store_blocked, same_reason, is_blocked}
use herdr_woof.Daemon.Scheduling.{RunEvolves, IsSoundRun, AreSoundRuns, IsRunAdvance}
use herdr_woof.Daemon.Scheduling.Advance.{IsRunAdvance-refl, RunEvolves-trans}
use herdr_woof.Daemon.Scheduling.Moves.{
  open-RunEvolves, claimed_or_blocked-outstanding, over-IsSoundRun, unlinked-IsSoundRun,
}
use herdr_woof.Daemon.Scheduling.Attempts.{
  IsClassified, stored_run, put_over, unless, not-not, store_blocked_lem, blocked-Moves,
  classified_put,
}

put_deliveries_runs :
    (now : ℕ) (m : Message) (ws : List (ℕ × Worker)) (db : Db) {db' : Db}
    → put_deliveries now m ws db ≡ ok db'
    → db'.schedule_runs ≡ db.schedule_runs
unfolding put_deliveries event
put_deliveries_runs now m [] db h = ground arith
put_deliveries_runs now m ((id, w) ∷ ws) db h =
    let (deliveries, _, h1) = ok_steps (put id id (queued_delivery now id m w) db.deliveries) _ h in
    put_deliveries_runs now m ws _ h1

put_message_runs :
    (now : ℕ) (m : Message) (ws : List (ℕ × Worker)) (db : Db) {db' : Db}
    → put_message now m ws db ≡ ok db'
    → db'.schedule_runs ≡ db.schedule_runs
unfolding put_message
put_message_runs now m ws db h =
    let (messages, _, h1) = ok_steps (put m.id m.id m db.messages) _ h in
    put_deliveries_runs now m ws _ h1

persisted-Moves :
    (message delivery : ℕ) (run : ScheduleRun)
    → IsSoundRun run
    → is_outstanding run.state ≡ true
    → IsSoundRun (persisted message delivery run) × RunEvolves run (persisted message delivery run)
unfolding persisted
persisted-Moves message delivery run s h =
    (over-IsSoundRun _ refl, open-RunEvolves run _ s h refl refl refl (omega arith))

same_outcome :
    (run run1 run2 : ScheduleRun) (db db1 db2 : Db)
    → IsSoundRun run2 × RunEvolves run run2
    → db2.schedule_runs ≡ db.schedule_runs
    → Path (Result Code (ScheduleRun × Db)) (ok (run2, db2)) (ok (run1, db1))
    → IsClassified run run1 db db1
same_outcome run run1 run2 db db1 db2 (s, v) u h =
    let e : run2 ≡ run1 = ground arith in
    let d : db2 ≡ db1 = ground arith in
    record {
      untouched = subst (λ z. z.schedule_runs ≡ db.schedule_runs) d u;
      sound = subst IsSoundRun e s;
      evolves = subst (RunEvolves run) e v;
    }

-- What came after a change of the occurrence.
since :
    {run run0 run1 : ScheduleRun} {db db1 : Db}
    → RunEvolves run run0
    → IsClassified run0 run1 db db1
    → IsClassified run run1 db db1
since {run = run} {run0 = run0} {run1 = run1} v c = record {
  untouched = c.untouched;
  sound = c.sound;
  evolves = RunEvolves-trans run run0 run1 v c.evolves;
}

stored_over :
    (id : ℕ) (run run1 : ScheduleRun) (db db1 db' : Db)
    → AreSoundRuns db.schedule_runs
    → get db.schedule_runs id ≡ ok run
    → IsClassified run run1 db db1
    → put_schedule_run run1.id run1 db1.schedule_runs ≡ ok db'.schedule_runs
    → IsRunAdvance db.schedule_runs db'.schedule_runs
stored_over id run run1 db db1 db' s g c h =
    put_over db.schedule_runs id run run1 s g
      (subst (λ t. put_schedule_run run1.id run1 t ≡ ok db'.schedule_runs) c.untouched h) c.sound
      c.evolves

-- A message for an occurrence: it is persisted, or the occurrence is blocked.
pub persist-IsClassified :
    (f : Fresh) (sc : Schedule) (run run1 : ScheduleRun) (db db1 : Db)
    → IsSoundRun run
    → is_outstanding run.state ≡ true
    → persist_scheduled_message f sc run db ≡ ok (run1, db1)
    → IsClassified run run1 db db1
unfolding persist_scheduled_message event
persist-IsClassified f sc run run1 db db1 s h k =
    let (w, _, k1) = ok_steps (get db.workers sc.worker_id) _ k in
    let m = scheduled_message f.now f.message sc run w in
    by_branch (terminal_recipient w) _ _ k1
      (λ _ k2.
        same_outcome run run1 _ db db1 db
          (blocked-Moves f.now (Outcome.target_terminal w.id w.state) run s h) refl k2)
      (λ _ k2.
        let (db2, p, k3) = ok_steps (put_message f.now m ((f.delivery, w) ∷ []) db) _ k2 in
        same_outcome run run1 _ db db1 _ (persisted-Moves f.message f.delivery run s h)
          (put_message_runs f.now m ((f.delivery, w) ∷ []) db p) k3)

counted-RunEvolves :
    (run : ScheduleRun) → RunEvolves run (record run { attempts = run.attempts + 1 })
counted-RunEvolves run = record {
  same_id = refl;
  same_schedule = refl;
  same_key_as = refl;
  final = λ h. h;
  same_message = λ _. refl;
  same_dispatch = λ _. refl;
  counted = omega arith;
}

retried-IsClassified :
    (now : ℕ) (run run1 : ScheduleRun) (db db1 : Db)
    → IsClassified run run1 db db1
    → IsClassified run (retried now run1) db db1
unfolding retried
retried-IsClassified now run run1 db db1 c = record {
  untouched = c.untouched;
  sound = ground (arith, c.sound);
  evolves = ground (arith, c.evolves);
}

pub retry_message_run-IsRunAdvance :
    (f : Fresh) (sc : Schedule) (id : ℕ) (db db' : Db)
    → AreSoundRuns db.schedule_runs
    → retry_message_run f sc id db ≡ ok db'
    → IsRunAdvance db.schedule_runs db'.schedule_runs
unfolding retry_message_run
retry_message_run-IsRunAdvance f sc id db db' s h =
    let (run, g, h1) = ok_steps (get db.schedule_runs id) _ h in
    unless (not (is_claimed_or_blocked run.state)) _ db h1 s λ p h2.
      let run0 = record run { attempts = run.attempts + 1 } in
      let ((run1, db1), k, h3) = ok_steps (persist_scheduled_message f sc run0 db) _ h2 in
      let (_, sound) = stored_run db.schedule_runs id s g in
      let out = claimed_or_blocked-outstanding run.state (not-not _ p) in
      let c : IsClassified run run1 db db1 = since (counted-RunEvolves run) (
        persist-IsClassified f sc run0 run1 db db1
          (unlinked-IsSoundRun run0 (sound.no_message out) (sound.no_dispatch out)) out k) in
      by_branch (is_blocked run1.state && same_reason run1.reason run.reason)
        (store_blocked false sc run1 db1)
        (put_run (EventType.occurrence_now (retried f.now run1).state) the_daemon sc
          (retried f.now run1) db1)
        h3
        (λ _ h4. stored_over id run run1 db db1 db' s g c (store_blocked_lem false sc run1 db1 h4))
        (λ _ h4.
          classified_put id run (retried f.now run1) _ sc db db1 db' s g
            (retried-IsClassified f.now run run1 db db1 c) h4)

-- The states that a final dispatch gives.
final_state-over :
    (status : DispatchStatus) (state : OccurrenceState)
    → final_state status ≡ some state
    → is_outstanding state ≡ false
final_state-over status state h = ground arith

synced-RunEvolves :
    (now : ℕ) (d : Dispatch) (state : OccurrenceState) (run : ScheduleRun)
    → is_outstanding state ≡ false
    → RunEvolves run (synced now d state run)
unfolding synced
synced-RunEvolves now d state run h = record {
  same_id = refl;
  same_schedule = refl;
  same_key_as = refl;
  final = λ _. h;
  same_message = λ _. refl;
  same_dispatch = λ _. refl;
  counted = omega arith;
}

synced-IsSoundRun :
    (now : ℕ) (d : Dispatch) (state : OccurrenceState) (run : ScheduleRun)
    → is_outstanding state ≡ false
    → IsSoundRun (synced now d state run)
unfolding synced
synced-IsSoundRun now d state run h = over-IsSoundRun _ h

sync_final-IsRunAdvance :
    (now : ℕ) (d : Dispatch) (state : OccurrenceState) (kind : Actor) (actor : ℕ) (db db' : Db)
    → AreSoundRuns db.schedule_runs
    → is_outstanding state ≡ false
    → sync_final now d state kind actor db ≡ ok db'
    → IsRunAdvance db.schedule_runs db'.schedule_runs
unfolding sync_final event
sync_final-IsRunAdvance now d state kind actor db db' s out h =
    let (run, g, h1) = ok_steps (get db.schedule_runs d.schedule_run_id) _ h in
    unless (not (follows run d)) _ db h1 s λ _ h2.
      let (sc, _, h3) = ok_steps (get db.schedules run.schedule_id) _ h2 in
      let (operations, _, h4) = ok_steps (attempt_of now run d db.operations) _ h3 in
      let run' = synced now d state run in
      let (rows, k, h5) = ok_steps (put_schedule_run run'.id run' db.schedule_runs) _ h4 in
      let e : rows ≡ db'.schedule_runs = ground arith in
      subst (IsRunAdvance db.schedule_runs) e (
        put_over db.schedule_runs d.schedule_run_id run run' s g k
          (synced-IsSoundRun now d state run out) (synced-RunEvolves now d state run out))

pub sync_schedule_run-IsRunAdvance :
    (now : ℕ) (d : Dispatch) (kind : Actor) (actor : ℕ) (db db' : Db)
    → AreSoundRuns db.schedule_runs
    → sync_schedule_run now d kind actor db ≡ ok db'
    → IsRunAdvance db.schedule_runs db'.schedule_runs
unfolding sync_schedule_run
sync_schedule_run-IsRunAdvance now d kind actor db db' s h =
    unless (d.schedule_run_id == 0) _ db h s λ _ h1. by_state (final_state d.status) refl h1
  where
    by_state :
        (o : Option OccurrenceState)
        → final_state d.status ≡ o
        → elim o [ none ↦ ok db | some state ↦ sync_final now d state kind actor db ] ≡ ok db'
        → IsRunAdvance db.schedule_runs db'.schedule_runs
    by_state none e h = let same : db ≡ db' = ground arith in rw (sym same) (IsRunAdvance-refl s)
    by_state (some state) e h =
        sync_final-IsRunAdvance now d state kind actor db db' s (final_state-over d.status state e)
          h
