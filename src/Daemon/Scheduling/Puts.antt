-- ===== src/Daemon/Scheduling/Puts.antt =====
-- The puts that the transactions of internal/daemon/schedule.go are made of, and the loop of
-- cancelOutstandingTx, over the table of occurrences.
use herdr_woof.Prelude.{
  ℕ, ◌<◌, ◌≡◌, refl, sym, ◌∙◌, subst, Bool, true, false, ◌&&◌, ◌||◌, some, List, [], ◌∷◌, ◌==◌,
  arith, if◌then◌else◌,
}
use herdr_woof.Prelude.Result.{ok, ok_steps}
use herdr_woof.Daemon.Model.{ScheduleRun, OccurrenceState, Outcome, Schedule, EventType}
use herdr_woof.Daemon.Store.{Table, Db, find, list, put_schedule_run, event}
use herdr_woof.Daemon.Store.Rows.{find-put_row}
use herdr_woof.Daemon.Store.Listed.{Listed, Listed-other, list-Listed}
use herdr_woof.Daemon.Occurrences.{
  By, is_claimed_or_blocked, runs_in_state, put_run, cancelled, cancel_all, cancel_outstanding,
}
use herdr_woof.Daemon.Scheduling.{RunEvolves, IsSoundRun, AreSoundRuns, IsRunAdvance, IsUpdate}
use herdr_woof.Daemon.Scheduling.Advance.{
  IsUpdate-refl, IsUpdate-trans, put_changed, put_changed-IsUpdate, put_schedule_run_lem,
}
use herdr_woof.Daemon.Scheduling.Moves.{
  open-RunEvolves, claimed_or_blocked-outstanding, over-IsSoundRun, cancelled-over,
}

abbrev pub run_id_of : ScheduleRun → ℕ
run_id_of run = run.id

pub put_run_lem :
    (type : EventType) (by : By) (sc : Schedule) (run : ScheduleRun) (db : Db) {db' : Db}
    → put_run type by sc run db ≡ ok db'
    → put_schedule_run run.id run db.schedule_runs ≡ ok db'.schedule_runs
unfolding put_run event
put_run_lem type by sc run db h = ground arith

pub put_run_changed :
    (type : EventType) (by : By) (sc : Schedule) (run old : ScheduleRun) (db : Db) {db' : Db}
    → AreSoundRuns db.schedule_runs
    → put_run type by sc run db ≡ ok db'
    → find db.schedule_runs run.id ≡ some old
    → IsSoundRun run
    → RunEvolves old run
    → IsRunAdvance db.schedule_runs db'.schedule_runs
put_run_changed type by sc run old db s h =
    put_changed run old db.schedule_runs s (put_run_lem type by sc run db h)

abbrev AllOpen : List ScheduleRun → Type 0
AllOpen [] = Unit
AllOpen (run ∷ runs) = (is_claimed_or_blocked run.state ≡ true) × AllOpen runs

list-AllOpen :
    (keep : ScheduleRun → Bool) (rows : Table ScheduleRun)
    → ((run : ScheduleRun) → keep run ≡ true → is_claimed_or_blocked run.state ≡ true)
    → AllOpen (list keep rows)
unfolding list
list-AllOpen keep [] h = tt
list-AllOpen keep ((k, run) ∷ rows) h =
    if-AllOpen (keep run) run (list keep rows) (h run) (list-AllOpen keep rows h)
  where
    if-AllOpen :
        (b : Bool) (run : ScheduleRun) (runs : List ScheduleRun)
        → (b ≡ true → is_claimed_or_blocked run.state ≡ true)
        → AllOpen runs
        → AllOpen (if b then run ∷ runs else runs)
    if-AllOpen true run runs p q = (p refl, q)
    if-AllOpen false run runs p q = q

put_other :
    (run : ScheduleRun) (rows : Table ScheduleRun) {rows' : Table ScheduleRun}
    → put_schedule_run run.id run rows ≡ ok rows'
    → (j : ℕ) → run.id < j
    → find rows' j ≡ find rows j
put_other run rows h j p =
    let (_, _, _, e) = put_schedule_run_lem run.id run rows h in
    rw e (find-put_row rows run.id j run ∙ ground arith)

cancelled-RunEvolves :
    (now : ℕ) (why : Outcome) (run : ScheduleRun)
    → IsSoundRun run
    → is_claimed_or_blocked run.state ≡ true
    → RunEvolves run (cancelled now why run)
unfolding cancelled
cancelled-RunEvolves now why run s h =
    open-RunEvolves run _ s (claimed_or_blocked-outstanding run.state h) refl refl refl
      (omega arith)

cancelled_id : (now : ℕ) (why : Outcome) (run : ScheduleRun) → (cancelled now why run).id ≡ run.id
unfolding cancelled
cancelled_id now why run = refl

pub cancel_all-IsUpdate :
    (now : ℕ) (why : Outcome) (by : By) (sc : Schedule) (low : ℕ) (runs : List ScheduleRun)
    (db db' : Db)
    → AreSoundRuns db.schedule_runs
    → Listed run_id_of db.schedule_runs low runs
    → AllOpen runs
    → cancel_all now why by sc runs db ≡ ok db'
    → IsUpdate db.schedule_runs db'.schedule_runs
unfolding cancel_all
cancel_all-IsUpdate now why by sc low [] db db' s l o h =
    let e : db ≡ db' = ground arith in rw (sym e) (IsUpdate-refl s)
cancel_all-IsUpdate now why by sc low (run ∷ runs) db db' s (p, stored, l) (o, os) h =
    let run' = cancelled now why run in
    let same : run'.id ≡ run.id = cancelled_id now why run in
    let (db1, k, h') =
      ok_steps (put_run (EventType.occurrence_now OccurrenceState.cancelled) by sc run' db) _ h in
    let put1 = put_run_lem _ by sc run' db k in
    let step : IsUpdate db.schedule_runs db1.schedule_runs =
      put_changed-IsUpdate run' run db.schedule_runs s put1
        (subst (λ i. find db.schedule_runs i ≡ some run) (sym same) stored)
        (over-IsSoundRun run' (cancelled-over now why run))
        (cancelled-RunEvolves now why run (s.sound run.id run stored) o) in
    IsUpdate-trans step (
      cancel_all-IsUpdate now why by sc run.id runs db1 db' step.advance.still_sound
        (Listed-other run_id_of db.schedule_runs db1.schedule_runs run.id runs
          (λ j q. put_other run' db.schedule_runs put1 j (subst (λ i. i < j) (sym same) q)) l)
        os h')

pub cancel_outstanding-IsUpdate :
    (now : ℕ) (why : Outcome) (by : By) (sc : Schedule) (db db' : Db)
    → AreSoundRuns db.schedule_runs
    → cancel_outstanding now why by sc db ≡ ok db'
    → IsUpdate db.schedule_runs db'.schedule_runs
unfolding cancel_outstanding runs_in_state
cancel_outstanding-IsUpdate now why by sc db db' s h =
    let keep = λ (run : ScheduleRun).
      is_claimed_or_blocked run.state && (sc.id == 0 || run.schedule_id == sc.id) in
    cancel_all-IsUpdate now why by sc 0 (list keep db.schedule_runs) db db' s
      (list-Listed run_id_of keep db.schedule_runs 0 s.sorted (λ id run _ k. s.named id run k))
      (list-AllOpen keep db.schedule_runs (λ run k. ground arith)) h

pub cancel_outstanding-IsRunAdvance :
    (now : ℕ) (why : Outcome) (by : By) (sc : Schedule) (db db' : Db)
    → AreSoundRuns db.schedule_runs
    → cancel_outstanding now why by sc db ≡ ok db'
    → IsRunAdvance db.schedule_runs db'.schedule_runs
cancel_outstanding-IsRunAdvance now why by sc db db' s h =
    (cancel_outstanding-IsUpdate now why by sc db db' s h).advance

pub runs_in_state-Listed :
    (schedule : ℕ) (in_state : OccurrenceState → Bool) (rows : Table ScheduleRun)
    → AreSoundRuns rows
    → Listed run_id_of rows 0 (runs_in_state schedule in_state rows)
unfolding runs_in_state
runs_in_state-Listed schedule in_state rows s =
    let keep =
      λ (run : ScheduleRun). in_state run.state && (schedule == 0 || run.schedule_id == schedule) in
    list-Listed run_id_of keep rows 0 s.sorted (λ id run _ k. s.named id run k)
