-- ===== src/Daemon/Scheduling/Claims.antt =====
-- The transactions that claim an occurrence or change a schedule (internal/daemon/schedule.go),
-- over the table of occurrences.
use herdr_woof.Prelude.{
  ℕ, ◌≡◌, refl, sym, ap, ◌∙◌, subst, Bool, true, false, ◌&&◌, ◌||◌, some, none, [], ◌∷◌, ◌==◌,
  arith, if◌then◌else◌,
}
use herdr_woof.Prelude.Result.{Result, ok, ok-inj, ok_steps, by_branch}
use herdr_woof.Daemon.Model.{Code, ScheduleRun, Schedule, EventType, Action}
use herdr_woof.Daemon.Store.{Table, Db, find, list, put_schedule_run}
use herdr_woof.Daemon.Store.Rows.{find-put_row}
use herdr_woof.Daemon.Occurrences.{
  By, Fresh, NewRun, is_outstanding, runs_in_state, put_run, persist_scheduled_message, new_run,
  with_message, ended, create_run,
}
use herdr_woof.Daemon.Scheduling.{IsSoundRun, AreSoundRuns, IsRunAdvance}
use herdr_woof.Daemon.Scheduling.Advance.{IsFree, put_new, put_schedule_run_lem}
use herdr_woof.Daemon.Scheduling.Moves.{unlinked-IsSoundRun}
use herdr_woof.Daemon.Scheduling.Puts.{put_run_lem}
use herdr_woof.Daemon.Scheduling.Messages.{persist-IsClassified}

-- No occurrence of the schedule is outstanding.
abbrev pub IsIdle : Table ScheduleRun → ℕ → Type 0
IsIdle rows schedule =
    (j : ℕ) (x : ScheduleRun)
    → find rows j ≡ some x
    → x.schedule_id ≡ schedule
    → is_outstanding x.state ≡ false

-- A list that is empty leaves no record that it would keep.
list_empty {ℓ} :
    {A : Type ℓ} (keep : A → Bool) (rows : Table A)
    → list keep rows ≡ []
    → (j : ℕ) (x : A) → find rows j ≡ some x
    → keep x ≡ false
unfolding list find
list_empty keep [] h j x f = cc
list_empty keep ((k, y) ∷ rows) h j x f =
    let rest : list keep rows ≡ [] → find rows j ≡ some x → keep x ≡ false =
      λ e. list_empty keep rows e j x in
    ground (arith, rest)

pub none_outstanding :
    (rows : Table ScheduleRun) (schedule : ℕ)
    → runs_in_state schedule is_outstanding rows ≡ []
    → IsIdle rows schedule
unfolding runs_in_state
none_outstanding rows schedule h j x f e =
    let k =
      list_empty
        (λ (run : ScheduleRun).
          is_outstanding run.state && (schedule == 0 || run.schedule_id == schedule))
        rows h j x f in
    ground arith

-- A new occurrence is as `new_run` makes it, or as its message leaves it.
record IsMade (f : Fresh) (sc : Schedule) (n : NewRun) (run : ScheduleRun) (db db1 : Db)
    : Type 0 where
  untouched : db1.schedule_runs ≡ db.schedule_runs
  same_id : run.id ≡ f.run
  same_schedule : run.schedule_id ≡ sc.id
  sound : IsSoundRun run
  missed_over : n.missed ≡ true → is_outstanding run.state ≡ false

new_run-Made :
    (f : Fresh) (sc : Schedule) (n : NewRun)
    → IsSoundRun (new_run f sc n)
      × ((new_run f sc n).id ≡ f.run)
      × ((new_run f sc n).schedule_id ≡ sc.id)
      × (n.missed ≡ true → is_outstanding (new_run f sc n).state ≡ false)
      × (n.missed ≡ false → is_outstanding (new_run f sc n).state ≡ true)
unfolding new_run
new_run-Made f sc n =
    (unlinked-IsSoundRun _ refl refl, refl, refl, (λ h. ground arith), (λ h. ground arith))

IsMade-as_new :
    (f : Fresh) (sc : Schedule) (n : NewRun) (run : ScheduleRun) (db db1 : Db)
    → Path (Result Code (ScheduleRun × Db)) (ok (new_run f sc n, db)) (ok (run, db1))
    → IsMade f sc n run db db1
IsMade-as_new f sc n run db db1 h =
    let e : new_run f sc n ≡ run = ground arith in
    let d : db ≡ db1 = ground arith in
    let (s, i, c, m, _) = new_run-Made f sc n in
    record {
      untouched = ap (λ z. z.schedule_runs) (sym d);
      same_id = subst (λ r. r.id ≡ f.run) e i;
      same_schedule = subst (λ r. r.schedule_id ≡ sc.id) e c;
      sound = subst IsSoundRun e s;
      missed_over = subst (λ r. n.missed ≡ true → is_outstanding r.state ≡ false) e m;
    }

IsMade-with_message :
    (f : Fresh) (sc : Schedule) (n : NewRun) (run : ScheduleRun) (db db1 : Db)
    → n.missed ≡ false
    → persist_scheduled_message f sc (new_run f sc n) db ≡ ok (run, db1)
    → IsMade f sc n run db db1
IsMade-with_message f sc n run db db1 claimed h =
    let (s, i, c, _, o) = new_run-Made f sc n in
    let p = persist-IsClassified f sc (new_run f sc n) run db db1 s (o claimed) h in
    record {
      untouched = p.untouched;
      same_id = p.evolves.same_id ∙ i;
      same_schedule = p.evolves.same_schedule ∙ c;
      sound = p.sound;
      missed_over = λ m. cc;
    }

with_message-IsMade :
    (f : Fresh) (sc : Schedule) (n : NewRun) (run : ScheduleRun) (db db1 : Db)
    → with_message f sc n.missed (new_run f sc n) db ≡ ok (run, db1)
    → IsMade f sc n run db db1
with_message-IsMade f sc n run db db1 h =
    by_branch n.missed (ok (new_run f sc n, db)) _ h (λ _ h1. IsMade-as_new f sc n run db db1 h1)
      (λ claimed h1. by_action sc.action claimed h1)
  where
    by_action :
        (a : Action)
        → n.missed ≡ false
        → elim a [
          | Action.message ↦ persist_scheduled_message f sc (new_run f sc n) db
          | Action.dispatch ↦ ok (new_run f sc n, db)
        ]
          ≡ ok (run, db1)
        → IsMade f sc n run db db1
    by_action Action.message claimed k = IsMade-with_message f sc n run db db1 claimed k
    by_action Action.dispatch claimed k = IsMade-as_new f sc n run db db1 k

ended_lem :
    (now : ℕ) (run : ScheduleRun)
    → IsSoundRun run
    → IsSoundRun (ended now run)
      × ((ended now run).id ≡ run.id)
      × ((ended now run).schedule_id ≡ run.schedule_id)
      × ((ended now run).state ≡ run.state)
unfolding ended
ended_lem now run s = (ground (arith, s), ground arith, ground arith, ground arith)

only_claimed :
    (sc : Schedule) (rows : Table ScheduleRun) (run run' : ScheduleRun) (missed : Bool)
    → (missed ≡ false → IsIdle rows sc.id)
    → (missed ≡ true → is_outstanding run.state ≡ false)
    → run'.schedule_id ≡ sc.id
    → run'.state ≡ run.state
    → is_outstanding run'.state ≡ true
    → IsFree rows run'.schedule_id run'.id
only_claimed sc rows run run' true idle over same state out j x f e o =
    let closed = over refl in
    let opened : is_outstanding run.state ≡ true = ap is_outstanding (sym state) ∙ out in cc
only_claimed sc rows run run' false idle over same state out j x f e o =
    let closed : is_outstanding x.state ≡ false = idle refl j x f (e ∙ same) in cc

-- Where the schedule is idle, or the occurrence is a missed one, createRunTx is an advance.
pub create_run-IsRunAdvance :
    (f : Fresh) (by : By) (sc : Schedule) (n : NewRun) (run : ScheduleRun) (db db' : Db)
    → AreSoundRuns db.schedule_runs
    → find db.schedule_runs f.run ≡ none
    → (n.missed ≡ false → IsIdle db.schedule_runs sc.id)
    → create_run f by sc n db ≡ ok (run, db')
    → IsRunAdvance db.schedule_runs db'.schedule_runs
unfolding create_run
create_run-IsRunAdvance f by sc n run db db' s fresh idle h =
    let ((run1, db1), k, h1) = ok_steps (with_message f sc n.missed (new_run f sc n) db) _ h in
    let m = with_message-IsMade f sc n run1 db db1 k in
    let run' = ended f.now run1 in
    let (sound, same_id, same_schedule, same_state) = ended_lem f.now run1 m.sound in
    let (db2, k2, h2) =
      ok_steps (put_run (EventType.occurrence_now run'.state) by sc run' db1) _ h1 in
    let e : db2 ≡ db' = ground arith in
    let put1 : put_schedule_run run'.id run' db.schedule_runs ≡ ok db'.schedule_runs =
      subst (λ t. put_schedule_run run'.id run' t ≡ ok db'.schedule_runs) m.untouched
        (put_run_lem _ by sc run' db1 k2
          ∙ ap {A = Db} {B = Result Code (Table ScheduleRun)} (λ z. ok z.schedule_runs) e) in
    put_new run' db.schedule_runs s put1
      (subst (λ i. find db.schedule_runs i ≡ none) (sym (same_id ∙ m.same_id)) fresh) sound
      (only_claimed sc db.schedule_runs run1 run' n.missed idle m.missed_over
        (same_schedule ∙ m.same_schedule) same_state)

-- createRunTx adds one occurrence and no other.
pub create_run_absent :
    (f : Fresh) (by : By) (sc : Schedule) (n : NewRun) (run : ScheduleRun) (db db' : Db) (j : ℕ)
    → (f.run == j) ≡ false
    → find db.schedule_runs j ≡ none
    → create_run f by sc n db ≡ ok (run, db')
    → find db'.schedule_runs j ≡ none
unfolding create_run
create_run_absent f by sc n run db db' j other none_there h =
    let ((run1, db1), k, h1) = ok_steps (with_message f sc n.missed (new_run f sc n) db) _ h in
    let m = with_message-IsMade f sc n run1 db db1 k in
    let run' = ended f.now run1 in
    let (_, same_id, _, _) = ended_lem f.now run1 m.sound in
    let (db2, k2, h2) =
      ok_steps (put_run (EventType.occurrence_now run'.state) by sc run' db1) _ h1 in
    let e : db2.schedule_runs ≡ db'.schedule_runs = ap (λ z. z.1.schedule_runs) (ok-inj h2) in
    let (_, _, _, p) =
      put_schedule_run_lem run'.id run' db1.schedule_runs (put_run_lem _ by sc run' db1 k2) in
    let at_id : run'.id ≡ f.run = same_id ∙ m.same_id in
    let there : find db1.schedule_runs j ≡ none =
      subst (λ t. find t j ≡ none) (sym m.untouched) none_there in
    subst (λ t. find t j ≡ none) (sym p ∙ e)
      (find-put_row db1.schedule_runs run'.id j run'
        ∙ subst (λ i. (if i == j then some run' else find db1.schedule_runs j) ≡ none) (sym at_id)
            (ground (arith, there, other)))
