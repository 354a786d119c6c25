-- ===== src/Daemon/Scheduling/Attempts.antt =====
-- The transactions on attempts of internal/daemon/schedule.go over the table of occurrences.
use herdr_woof.Prelude.{
  ℕ, ◌≡◌, refl, sym, subst, Bool, true, false, not, ◌||◌, Option, some, ◌==◌, arith, if◌then◌else◌,
}
use herdr_woof.Prelude.Result.{Result, ok, ok_steps, refuse_passed, by_branch}
use herdr_woof.Daemon.Model.{
  Code, ScheduleRun, Outcome, Schedule, EventType, Dispatch, Operation, OperationState, Reply,
}
use herdr_woof.Daemon.Store.{Table, Db, find, get, put, put_schedule_run}
use herdr_woof.Daemon.Store.Rows.{found}
use herdr_woof.Daemon.Settle.{finish_op, finish_attempt}
use herdr_woof.Daemon.Occurrences.{
  the_daemon, is_outstanding, is_claimed_or_blocked, is_dispatching, put_run, block_run,
}
use herdr_woof.Daemon.Attempts.{
  start_attempt, new_attempt, dispatching, reblock, store_blocked, settle_attempt, recover_run,
  classify_attempt, classify_linked, classify_refused, linked_dispatch, error_or_internal, follow,
  turned_down, promptly,
}
use herdr_woof.Daemon.Scheduling.{RunEvolves, IsSoundRun, AreSoundRuns, IsRunAdvance}
use herdr_woof.Daemon.Scheduling.Advance.{IsRunAdvance-refl, put_changed}
use herdr_woof.Daemon.Scheduling.Moves.{
  open-RunEvolves, claimed_or_blocked-outstanding, dispatching-outstanding, over-IsSoundRun,
  unlinked-IsSoundRun, follow-over,
}
use herdr_woof.Daemon.Scheduling.Puts.{put_run_lem}

pub stored_run :
    (rows : Table ScheduleRun) (id : ℕ) {run : ScheduleRun}
    → AreSoundRuns rows
    → get rows id ≡ ok run
    → (find rows run.id ≡ some run) × IsSoundRun run
stored_run rows id {run = run} s h =
    let f : find rows id ≡ some run = found rows id h in
    let e : run.id ≡ id = s.named id run f in
    (subst (λ i. find rows i ≡ some run) (sym e) f, s.sound id run f)

-- A put over the occurrence that was got.
pub put_over :
    (rows : Table ScheduleRun) (id : ℕ) (run run' : ScheduleRun) {rows' : Table ScheduleRun}
    → AreSoundRuns rows
    → get rows id ≡ ok run
    → put_schedule_run run'.id run' rows ≡ ok rows'
    → IsSoundRun run'
    → RunEvolves run run'
    → IsRunAdvance rows rows'
put_over rows id run run' s g h sound evolves =
    let (f, _) = stored_run rows id s g in
    put_changed run' run rows s h (subst (λ i. find rows i ≡ some run) (sym evolves.same_id) f)
      sound evolves

pub not-not : (b : Bool) → not b ≡ false → b ≡ true
not-not b h = ground arith

dispatching-Moves :
    (now attempt : ℕ) (run : ScheduleRun)
    → IsSoundRun run
    → is_outstanding run.state ≡ true
    → IsSoundRun (dispatching now attempt run) × RunEvolves run (dispatching now attempt run)
unfolding dispatching
dispatching-Moves now attempt run s h = (
  unlinked-IsSoundRun _ (s.no_message h) (s.no_dispatch h),
  open-RunEvolves run _ s h refl refl refl (omega arith),
)

pub start_attempt-IsRunAdvance :
    (now attempt fingerprint : ℕ) (sc : Schedule) (id : ℕ) (db db' : Db)
    → AreSoundRuns db.schedule_runs
    → start_attempt now attempt fingerprint sc id db ≡ ok db'
    → IsRunAdvance db.schedule_runs db'.schedule_runs
unfolding start_attempt
start_attempt-IsRunAdvance now attempt fingerprint sc id db db' s h =
    let (run, g, h1) = ok_steps (get db.schedule_runs id) _ h in
    let (p, h2) = refuse_passed (not (is_claimed_or_blocked run.state)) Code.run_changed _ h1 in
    let (operations, _, h3) =
      ok_steps (put attempt attempt (new_attempt now attempt fingerprint) db.operations) _ h2 in
    let out = claimed_or_blocked-outstanding run.state (not-not _ p) in
    let (_, sound) = stored_run db.schedule_runs id s g in
    let (sound', evolves) = dispatching-Moves now attempt run sound out in
    put_over db.schedule_runs id run (dispatching now attempt run) s g
      (put_run_lem _ the_daemon sc (dispatching now attempt run)
        (record db { operations = operations }) h3)
      sound' evolves

pub blocked-Moves :
    (now : ℕ) (why : Outcome) (run : ScheduleRun)
    → IsSoundRun run
    → is_outstanding run.state ≡ true
    → IsSoundRun (block_run now why run) × RunEvolves run (block_run now why run)
unfolding block_run
blocked-Moves now why run s h = (
  unlinked-IsSoundRun _ (s.no_message h) (s.no_dispatch h),
  open-RunEvolves run _ s h refl refl refl (omega arith),
)

pub store_blocked_lem :
    (changed : Bool) (sc : Schedule) (run : ScheduleRun) (db : Db) {db' : Db}
    → store_blocked changed sc run db ≡ ok db'
    → put_schedule_run run.id run db.schedule_runs ≡ ok db'.schedule_runs
unfolding store_blocked
store_blocked_lem true sc run db h = put_run_lem _ the_daemon sc run db h
store_blocked_lem false sc run db h = ground arith

-- A transaction that does nothing where a guard holds.
pub unless :
    (b : Bool) (rest : Result Code Db) (db : Db) {db' : Db}
    → (if b then ok db else rest) ≡ ok db'
    → AreSoundRuns db.schedule_runs
    → (b ≡ false → rest ≡ ok db' → IsRunAdvance db.schedule_runs db'.schedule_runs)
    → IsRunAdvance db.schedule_runs db'.schedule_runs
unless true rest db {db' = db'} h s k =
    let e : db ≡ db' = ground arith in rw (sym e) (IsRunAdvance-refl s)
unless false rest db h s k = k refl h

pub reblock-IsRunAdvance :
    (now : ℕ) (why : Outcome) (sc : Schedule) (id : ℕ) (db db' : Db)
    → AreSoundRuns db.schedule_runs
    → reblock now why sc id db ≡ ok db'
    → IsRunAdvance db.schedule_runs db'.schedule_runs
unfolding reblock
reblock-IsRunAdvance now why sc id db db' s h =
    let (run, g, h1) = ok_steps (get db.schedule_runs id) _ h in
    unless (not (is_claimed_or_blocked run.state)) _ db h1 s λ p h2.
      let out = claimed_or_blocked-outstanding run.state (not-not _ p) in
      let (_, sound) = stored_run db.schedule_runs id s g in
      let (sound', evolves) = blocked-Moves now why run sound out in
      put_over db.schedule_runs id run (block_run now why run) s g
        (store_blocked_lem _ sc (block_run now why run) db h2) sound' evolves

follow-Moves :
    (now : ℕ) (d : Dispatch) (run : ScheduleRun)
    → IsSoundRun run
    → is_outstanding run.state ≡ true
    → IsSoundRun (follow now d (record run { updated_at = now }))
      × RunEvolves run (follow now d (record run { updated_at = now }))
unfolding follow
follow-Moves now d run s h = (
  over-IsSoundRun _ (follow-over now d (record run { updated_at = now })),
  open-RunEvolves run _ s h (ground arith) (ground arith) (ground arith) (ground arith),
)

turned_down-Moves :
    (now : ℕ) (code : Code) (run : ScheduleRun)
    → IsSoundRun run
    → is_outstanding run.state ≡ true
    → IsSoundRun (turned_down now code (record run { updated_at = now }))
      × RunEvolves run (turned_down now code (record run { updated_at = now }))
unfolding turned_down block_run
turned_down-Moves now code run s h = (
  unlinked-IsSoundRun _ (ground (arith, s.no_message h)) (ground (arith, s.no_dispatch h)),
  open-RunEvolves run _ s h (ground arith) (ground arith) (ground arith) (ground arith),
)

-- What an attempt has come to, in the table and for its occurrence.
pub record IsClassified (run run1 : ScheduleRun) (db db1 : Db) : Type 0 where
  pub untouched : db1.schedule_runs ≡ db.schedule_runs
  pub sound : IsSoundRun run1
  pub evolves : RunEvolves run run1

classified :
    (run run1 run2 : ScheduleRun) (db db1 : Db) (operations : Table Operation)
    → IsSoundRun run2 × RunEvolves run run2
    → Path
        (Result Code (ScheduleRun × Db))
        (ok (run2, record db { operations = operations }))
        (ok (run1, db1))
    → IsClassified run run1 db db1
classified run run1 run2 db db1 operations (s, v) h =
    let e : run2 ≡ run1 = ground arith in
    record {
      untouched = ground arith;
      sound = subst IsSoundRun e s;
      evolves = subst (RunEvolves run) e v;
    }

classify_attempt-IsClassified :
    (now : ℕ) (error : Option Code) (run run1 : ScheduleRun) (db db1 : Db)
    → IsSoundRun run
    → is_outstanding run.state ≡ true
    → classify_attempt now error run db ≡ ok (run1, db1)
    → IsClassified run run1 db db1
unfolding classify_attempt
classify_attempt-IsClassified now error run run1 db db1 s h k =
    let (op, _, k1) = ok_steps (get db.operations run.attempt_id) _ k in
    let run0 = record run { updated_at = now } in
    by_branch (not (linked_dispatch op.resource == 0)) (classify_linked now op run0 db)
      (classify_refused now op (error_or_internal error) run0 db) k1
      (λ _ k2.
        let (d, _, k3) = ok_steps (get db.dispatches (linked_dispatch op.resource)) _ k2 in
        let (operations, _, k4) = ok_steps (finish_attempt now op d db.operations) _ k3 in
        classified run run1 _ db db1 operations (follow-Moves now d run s h) k4)
      (λ _ k2.
        let (operations, _, k3) =
          ok_steps
            (finish_op now op.id Reply.no_reply (some (error_or_internal error))
              OperationState.failed db.operations)
            _ k2 in
        classified run run1 _ db db1 operations
          (turned_down-Moves now (error_or_internal error) run s h) k3)

-- An attempt that was classified is stored over the occurrence as it was.
pub classified_put :
    (id : ℕ) (run run1 : ScheduleRun) (type : EventType) (sc : Schedule) (db db1 db' : Db)
    → AreSoundRuns db.schedule_runs
    → get db.schedule_runs id ≡ ok run
    → IsClassified run run1 db db1
    → put_run type the_daemon sc run1 db1 ≡ ok db'
    → IsRunAdvance db.schedule_runs db'.schedule_runs
classified_put id run run1 type sc db db1 db' s g c h =
    put_over db.schedule_runs id run run1 s g
      (subst (λ t. put_schedule_run run1.id run1 t ≡ ok db'.schedule_runs) c.untouched
        (put_run_lem type the_daemon sc run1 db1 h))
      c.sound c.evolves

not_first : (a b : Bool) → not a || b ≡ false → a ≡ true
not_first a b h = ground arith

pub settle_attempt-IsRunAdvance :
    (now id attempt : ℕ) (error : Option Code) (db db' : Db)
    → AreSoundRuns db.schedule_runs
    → settle_attempt now id attempt error db ≡ ok db'
    → IsRunAdvance db.schedule_runs db'.schedule_runs
unfolding settle_attempt
settle_attempt-IsRunAdvance now id attempt error db db' s h =
    let (run, g, h1) = ok_steps (get db.schedule_runs id) _ h in
    unless (not (is_dispatching run.state) || not (run.attempt_id == attempt)) _ db h1 s λ p h2.
      let (sc, _, h3) = ok_steps (get db.schedules run.schedule_id) _ h2 in
      let ((run1, db1), k, h4) = ok_steps (classify_attempt now error run db) _ h3 in
      let (_, sound) = stored_run db.schedule_runs id s g in
      let out = dispatching-outstanding run.state (not_first _ _ p) in
      classified_put id run run1 _ sc db db1 db' s g
        (classify_attempt-IsClassified now error run run1 db db1 sound out k) h4

promptly-IsClassified :
    (now : ℕ) (run run1 : ScheduleRun) (db db1 : Db)
    → IsClassified run run1 db db1
    → IsClassified run (promptly now run1) db db1
unfolding promptly
promptly-IsClassified now run run1 db db1 c = record {
  untouched = c.untouched;
  sound = ground (arith, c.sound);
  evolves = ground (arith, c.evolves);
}

not_first_of : (a b c : Bool) → (not a || b) || c ≡ false → a ≡ true
not_first_of a b c h = ground arith

pub recover_run-IsRunAdvance :
    (now id attempt : ℕ) (live : Bool) (db db' : Db)
    → AreSoundRuns db.schedule_runs
    → recover_run now id attempt live db ≡ ok db'
    → IsRunAdvance db.schedule_runs db'.schedule_runs
unfolding recover_run
recover_run-IsRunAdvance now id attempt live db db' s h =
    let (run, g, h1) = ok_steps (get db.schedule_runs id) _ h in
    unless (not (is_dispatching run.state) || not (run.attempt_id == attempt) || live) _ db h1 s
      λ p h2.
        let (sc, _, h3) = ok_steps (get db.schedules run.schedule_id) _ h2 in
        let ((run1, db1), k, h4) =
          ok_steps (classify_attempt now (some Code.attempt_interrupted) run db) _ h3 in
        let (_, sound) = stored_run db.schedule_runs id s g in
        let out = dispatching-outstanding run.state (not_first_of _ _ _ p) in
        classified_put id run (promptly now run1) _ sc db db1 db' s g
          (promptly-IsClassified now run run1 db db1 (
            classify_attempt-IsClassified now (some Code.attempt_interrupted) run run1 db db1 sound
              out k))
          h4
