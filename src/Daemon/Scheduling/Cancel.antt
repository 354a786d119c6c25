-- ===== src/Daemon/Scheduling/Cancel.antt =====
-- Disabling or removing a schedule (cancelOutstandingTx and scheduleMutate of
-- internal/daemon/schedule.go) leaves nothing to be tried again.
use herdr_woof.Prelude.{
  ℕ, ◌≡◌, ◌≢◌, refl, sym, ap, ◌∙◌, subst, ◌⊎◌, inl, inr, Bool, true, false, not, ◌&&◌, ◌||◌, Option,
  some, none, List, [], ◌∷◌, ◌==◌, arith, if◌then◌else◌, Bool-cases,
}
use herdr_woof.Prelude.Text.{codes}
use herdr_woof.Prelude.Result.{ok, ok-inj, ok_steps, refuse_passed}
use herdr_woof.Daemon.Model.{
  Code, Schedule, ScheduleRun, OccurrenceState, Outcome, EventType, Resource, Reply,
}
use herdr_woof.Daemon.Store.{
  Table, Db, find, list, get, put, put_row, put_schedule, is_named, is_removed, event,
}
use herdr_woof.Daemon.Store.Rows.{found, find-put_row, put_row_cases, put_lem}
use herdr_woof.Daemon.Occurrences.{
  By, is_claimed_or_blocked, runs_in_state, put_run, cancelled, cancel_all, cancel_outstanding,
}
use herdr_woof.Daemon.Schedules.{
  Moment, now_of, ScheduleOp, enable, disable, remove, apply_op, disable_schedule, remove_schedule,
  cancel_and, store_change, schedule_mutate, finish_request, operation_resource, revised, is_enable,
}
use herdr_woof.Daemon.Scheduling.{AreSoundRuns}
use herdr_woof.Daemon.Scheduling.Advance.{put_schedule_run_lem}
use herdr_woof.Daemon.Scheduling.Cancelled.{
  AreCancelled, MayBeCancelled, cancel_outstanding-MayBeCancelled, all_reached,
}
use herdr_woof.Daemon.Scheduling.Puts.{put_run_lem}
use herdr_woof.Daemon.Scheduling.Series.{finish_request_runs, store_change_runs}

-- No occurrence of the schedule is claimed or blocked.
abbrev pub NoneToTry : Table ScheduleRun → ℕ → Type 0
NoneToTry rows schedule =
    (j : ℕ) (x : ScheduleRun)
    → find rows j ≡ some x
    → x.schedule_id ≡ schedule
    → is_claimed_or_blocked x.state ≡ false

abbrev Among : ScheduleRun → List ScheduleRun → Type 0
Among x [] = ⊥
Among x (run ∷ runs) = (run ≡ x) ⊎ Among x runs

-- What is still to try stands in the list.
abbrev Covered : Table ScheduleRun → ℕ → List ScheduleRun → Type 0
Covered rows schedule runs =
    (j : ℕ) (x : ScheduleRun)
    → find rows j ≡ some x
    → x.schedule_id ≡ schedule
    → is_claimed_or_blocked x.state ≡ true
    → Among x runs

abbrev AreNamed : Table ScheduleRun → Type 0
AreNamed rows = (id : ℕ) (run : ScheduleRun) → find rows id ≡ some run → run.id ≡ id

Among-kept :
    (b : Bool) (y x : ScheduleRun) (runs : List ScheduleRun)
    → Among x runs
    → Among x (if b then y ∷ runs else runs)
Among-kept true y x runs h = inr h
Among-kept false y x runs h = h

Among-head :
    (b : Bool) (y x : ScheduleRun) (runs : List ScheduleRun)
    → b ≡ true
    → y ≡ x
    → Among x (if b then y ∷ runs else runs)
Among-head true y x runs h e = inl e
Among-head false y x runs h e = cc

list-Among :
    (keep : ScheduleRun → Bool) (rows : Table ScheduleRun) (j : ℕ) (x : ScheduleRun)
    → find rows j ≡ some x
    → keep x ≡ true
    → Among x (list keep rows)
unfolding list find
list-Among keep [] j x h k = cc
list-Among keep ((i, y) ∷ rows) j x h k = elim (Bool-cases (i == j)) [
  | inl p ↦
      let e : y ≡ x = ground arith in
      Among-head (keep y) y x (list keep rows) (subst (λ z. keep z ≡ true) (sym e) k) e
  | inr p ↦ Among-kept (keep y) y x (list keep rows) (list-Among keep rows j x (ground arith) k)
]

cancelled_closed :
    (now : ℕ) (why : Outcome) (run : ScheduleRun)
    → (is_claimed_or_blocked (cancelled now why run).state ≡ false)
      × ((cancelled now why run).id ≡ run.id)
unfolding cancelled
cancelled_closed now why run = (refl, refl)

cancelled-Covered :
    (now : ℕ) (why : Outcome) (rows : Table ScheduleRun) (schedule : ℕ) (run : ScheduleRun)
    (runs : List ScheduleRun)
    → AreNamed rows
    → Covered rows schedule (run ∷ runs)
    → Covered (put_row (cancelled now why run).id (cancelled now why run) rows) schedule runs
cancelled-Covered now why rows schedule run runs named c j x f e o =
    let run' = cancelled now why run in
    let (closed, same) = cancelled_closed now why run in
    elim (put_row_cases rows run'.id j run' f) [
      | inl (p, q) ↦
          let shut : is_claimed_or_blocked x.state ≡ false =
            subst (λ z. is_claimed_or_blocked z.state ≡ false) q closed in
          cc
      | inr (p, q) ↦ elim (c j x q e o) [
        | inl r ↦ absurd (p (same ∙ ap (λ z. z.id) r ∙ named j x q))
        | inr rest ↦ rest
      ]
    ]

put_row-AreNamed :
    (rows : Table ScheduleRun) (run : ScheduleRun)
    → AreNamed rows
    → AreNamed (put_row run.id run rows)
put_row-AreNamed rows run named j x h = elim (put_row_cases rows run.id j run h) [
  | inl (p, q) ↦ ap (λ z. z.id) (sym q) ∙ p
  | inr (p, q) ↦ named j x q
]

cancel_all-NoneToTry :
    (now : ℕ) (why : Outcome) (by : By) (sc : Schedule) (runs : List ScheduleRun) (db db' : Db)
    → AreNamed db.schedule_runs
    → Covered db.schedule_runs sc.id runs
    → cancel_all now why by sc runs db ≡ ok db'
    → NoneToTry db'.schedule_runs sc.id
unfolding cancel_all
cancel_all-NoneToTry now why by sc [] db db' named c h = λ j x f e.
    let same : db ≡ db' = ok-inj h in
    let f' : find db.schedule_runs j ≡ some x =
      subst (λ z. find z.schedule_runs j ≡ some x) (sym same) f in
    elim (Bool-cases (is_claimed_or_blocked x.state)) [
      | inl still ↦ absurd (c j x f' e still)
      | inr closed ↦ closed
    ]
cancel_all-NoneToTry now why by sc (run ∷ runs) db db' named c h =
    let run' = cancelled now why run in
    let (db1, k, h1) =
      ok_steps (put_run (EventType.occurrence_now OccurrenceState.cancelled) by sc run' db) _ h in
    let (_, _, _, p) =
      put_schedule_run_lem run'.id run' db.schedule_runs (put_run_lem _ by sc run' db k) in
    cancel_all-NoneToTry now why by sc runs db1 db'
      (subst AreNamed (sym p) (put_row-AreNamed db.schedule_runs run' named))
      (subst (λ t. Covered t sc.id runs) (sym p)
        (cancelled-Covered now why db.schedule_runs sc.id run runs named c))
      h1

pub cancel_outstanding-NoneToTry :
    (now : ℕ) (why : Outcome) (by : By) (sc : Schedule) (db db' : Db)
    → AreSoundRuns db.schedule_runs
    → cancel_outstanding now why by sc db ≡ ok db'
    → NoneToTry db'.schedule_runs sc.id
unfolding cancel_outstanding runs_in_state
cancel_outstanding-NoneToTry now why by sc db db' s h =
    let keep = λ (run : ScheduleRun).
      is_claimed_or_blocked run.state && (sc.id == 0 || run.schedule_id == sc.id) in
    cancel_all-NoneToTry now why by sc (list keep db.schedule_runs) db db' s.named
      (λ j x f e o. list-Among keep db.schedule_runs j x f (ground arith)) h

-- What disabling and removing come to: the schedule that they leave is off, is stored if it changed,
-- and has nothing to try.
record IsClosed (now : ℕ) (sc sc' : Schedule) (type : Option EventType)
    (before rows : Table ScheduleRun) : Type 0 where
  same_id : sc'.id ≡ sc.id
  off : sc'.enabled ≡ false
  changed : type ≡ none → sc' ≡ sc
  none_to_try : NoneToTry rows sc.id
  why : Outcome
  only : AreCancelled now why sc.id before rows

cancel_and-IsClosed :
    (m : Moment) (by : By) (why : Outcome) (sc sc1 sc' : Schedule) (type type' : Option EventType)
    (db db' : Db)
    → AreSoundRuns db.schedule_runs
    → sc.id ≢ 0
    → sc1.id ≡ sc.id
    → sc1.enabled ≡ false
    → (type ≡ none → sc1 ≡ sc)
    → cancel_and m by why sc1 type db ≡ ok (sc', type', db')
    → IsClosed (now_of m) sc sc' type' db.schedule_runs db'.schedule_runs
cancel_and-IsClosed m by why sc sc1 sc' type type' db db' s some_id i o c h =
    let (db1, k, k1) = ok_steps (cancel_outstanding (now_of m) why by sc1 db) _ h in
    let free : NoneToTry db1.schedule_runs sc1.id =
      cancel_outstanding-NoneToTry (now_of m) why by sc1 db db1 s k in
    let may : MayBeCancelled (now_of m) why sc.id db.schedule_runs db1.schedule_runs =
      subst (λ x. MayBeCancelled (now_of m) why x db.schedule_runs db1.schedule_runs) i
        (cancel_outstanding-MayBeCancelled (now_of m) why by sc1 db db1 (λ e. some_id (sym i ∙ e)) s
          k) in
    let none_left = subst (NoneToTry db1.schedule_runs) i free in
    subst {A = Schedule × Option EventType × Db}
      (λ z. IsClosed (now_of m) sc z.0 z.1 db.schedule_runs z.2.schedule_runs) (ok-inj k1)
      (record {
        same_id = i;
        off = o;
        changed = c;
        none_to_try = none_left;
        why = why;
        only = all_reached (now_of m) why sc.id db.schedule_runs db1.schedule_runs may none_left;
      })

disabled_fields :
    (sc : Schedule)
    → ((if sc.enabled then record sc { enabled = false; next_run_at = 0 } else sc).id ≡ sc.id)
      × ((if sc.enabled then record sc { enabled = false; next_run_at = 0 } else sc).enabled
          ≡ false)
disabled_fields sc = (ground arith, ground arith)

disabled_changed :
    (b : Bool) (sc sc1 : Schedule) (type : EventType)
    → (if b then some type else none) ≡ none
    → (if b then sc1 else sc) ≡ sc
disabled_changed true sc sc1 type h = cc
disabled_changed false sc sc1 type h = refl

apply_op-IsClosed :
    (m : Moment) (by : By) (op : ScheduleOp) (sc sc' : Schedule) (type : Option EventType)
    (db db' : Db)
    → AreSoundRuns db.schedule_runs
    → sc.id ≢ 0
    → is_enable op ≡ false
    → apply_op m by op sc db ≡ ok (sc', type, db')
    → IsClosed (now_of m) sc sc' type db.schedule_runs db'.schedule_runs
unfolding apply_op disable_schedule remove_schedule
apply_op-IsClosed m by enable sc sc' type db db' s some_id o h = cc
apply_op-IsClosed m by disable sc sc' type db db' s some_id o h =
    let (i, off) = disabled_fields sc in
    cancel_and-IsClosed m by (Outcome.reason (codes "schedule disabled")) sc _ sc' _ type db db' s
      some_id i off (disabled_changed sc.enabled sc _ EventType.schedule_disabled) h
apply_op-IsClosed m by remove sc sc' type db db' s some_id o h =
    cancel_and-IsClosed m by (Outcome.reason (codes "schedule removed")) sc _ sc' _ type db db' s
      some_id refl refl (λ e. cc) h

pub put_schedule_row :
    (sc : Schedule) (rows : Table Schedule) {rows' : Table Schedule}
    → put_schedule sc.id sc rows ≡ ok rows'
    → find rows' sc.id ≡ some sc
unfolding put_schedule
put_schedule_row sc rows h =
    let (_, k) =
      refuse_passed (not (is_removed sc.state) && is_named sc rows) Code.name_conflict
        (put sc.id sc.id sc rows) h in
    let (_, _, e) = put_lem sc.id sc.id sc rows k in
    rw e (find-put_row rows sc.id sc.id sc ∙ ground arith)

-- The stored schedule of an id, after a change was stored.
stored_off :
    (m : Moment) (by : By) (type : Option EventType) (sc sc1 sc2 : Schedule) (db db1 db' : Db)
    (before : Table ScheduleRun)
    → db1.schedules ≡ db.schedules
    → find db.schedules sc.id ≡ some sc
    → IsClosed (now_of m) sc sc1 type before db1.schedule_runs
    → store_change m by type sc1 db1 ≡ ok (sc2, db')
    → (x : Schedule) × (find db'.schedules sc.id ≡ some x) × (x.enabled ≡ false)
unfolding event
stored_off m by none sc sc1 sc2 db db1 db' before e f c h =
    let same : db1.schedules ≡ db'.schedules = ap (λ z. z.1.schedules) (ok-inj h) in
    (
      sc,
      subst (λ t. find t sc.id ≡ some sc) (sym e ∙ same) f,
      subst (λ z. z.enabled ≡ false) (c.changed refl) c.off,
    )
stored_off m by (some type) sc sc1 sc2 db db1 db' before e f c h =
    let x = revised (now_of m) sc1 in
    let (schedules, k, h1) = ok_steps (put_schedule x.id x db1.schedules) _ h in
    let same : schedules ≡ db'.schedules = ap (λ z. z.1.schedules) (ok-inj h1) in
    (
      x,
      subst (λ t. find t sc.id ≡ some x) same
          (subst (λ i. find schedules i ≡ some x) c.same_id (put_schedule_row x db1.schedules k)),
      c.off,
    )

put_run_schedules :
    (type : EventType) (by : By) (sc : Schedule) (run : ScheduleRun) (db : Db) {db' : Db}
    → put_run type by sc run db ≡ ok db'
    → db'.schedules ≡ db.schedules
unfolding put_run event
put_run_schedules type by sc run db h = ground arith

cancel_all_schedules :
    (now : ℕ) (why : Outcome) (by : By) (sc : Schedule) (runs : List ScheduleRun) (db db' : Db)
    → cancel_all now why by sc runs db ≡ ok db'
    → db'.schedules ≡ db.schedules
unfolding cancel_all
cancel_all_schedules now why by sc [] db db' h = ap (λ z. z.schedules) (sym (ok-inj h))
cancel_all_schedules now why by sc (run ∷ runs) db db' h =
    let run' = cancelled now why run in
    let (db1, k, h1) =
      ok_steps (put_run (EventType.occurrence_now OccurrenceState.cancelled) by sc run' db) _ h in
    cancel_all_schedules now why by sc runs db1 db' h1 ∙ put_run_schedules _ by sc run' db k

cancel_and_schedules :
    (m : Moment) (by : By) (why : Outcome) (sc sc' : Schedule) (type type' : Option EventType)
    (db db' : Db)
    → cancel_and m by why sc type db ≡ ok (sc', type', db')
    → db'.schedules ≡ db.schedules
unfolding cancel_outstanding
cancel_and_schedules m by why sc sc' type type' db db' h =
    let (db1, k, h1) = ok_steps (cancel_outstanding (now_of m) why by sc db) _ h in
    ap (λ z. z.2.schedules) (sym (ok-inj h1))
    ∙ cancel_all_schedules (now_of m) why by sc
        (runs_in_state sc.id is_claimed_or_blocked db.schedule_runs) db db1 k

apply_op_schedules :
    (m : Moment) (by : By) (op : ScheduleOp) (sc sc' : Schedule) (type : Option EventType)
    (db db' : Db)
    → is_enable op ≡ false
    → apply_op m by op sc db ≡ ok (sc', type, db')
    → db'.schedules ≡ db.schedules
unfolding apply_op disable_schedule remove_schedule
apply_op_schedules m by enable sc sc' type db db' o h = cc
apply_op_schedules m by disable sc sc' type db db' o h =
    cancel_and_schedules m by (Outcome.reason (codes "schedule disabled")) _ sc' _ type db db' h
apply_op_schedules m by remove sc sc' type db db' o h =
    cancel_and_schedules m by (Outcome.reason (codes "schedule removed")) _ sc' _ type db db' h

finish_request_schedules :
    (now request : ℕ) (made : Resource) (reply : Reply) (db : Db) {db' : Db}
    → finish_request now request made reply db ≡ ok db'
    → db.schedules ≡ db'.schedules
unfolding finish_request operation_resource
finish_request_schedules now request made reply db h = ground arith

-- Where a schedule, whose id is not empty and its own, is disabled or removed, it is stored as off,
-- and no occurrence of it is claimed or blocked any more. Each of its occurrences that was has ended
-- as cancelled at this time, for one reason and without another attempt, and every other occurrence,
-- of this schedule and of the others, is stored as it was.
pub schedule_mutate_closes :
    (m : Moment) (request : ℕ) (by : By) (op : ScheduleOp) (id : ℕ) (sc : Schedule) (db db' : Db)
    → AreSoundRuns db.schedule_runs
    → id ≢ 0
    → is_enable op ≡ false
    → get db.schedules id ≡ ok sc
    → sc.id ≡ id
    → schedule_mutate m request by op id db ≡ ok db'
    → NoneToTry db'.schedule_runs id
      × ((why : Outcome) × AreCancelled (now_of m) why id db.schedule_runs db'.schedule_runs)
      × ((x : Schedule) × (find db'.schedules id ≡ some x) × (x.enabled ≡ false))
unfolding schedule_mutate
schedule_mutate_closes m request by op id sc db db' s some_id o g named h =
    let (sc0, g0, h1) = ok_steps (get db.schedules id) _ h in
    let same : sc0 ≡ sc = ok-inj (sym g0 ∙ g) in
    let own : sc0.id ≡ id = ap (λ z. z.id) same ∙ named in
    let (_, h2) = refuse_passed (is_removed sc0.state) Code.schedule_removed _ h1 in
    let ((sc1, type, db1), a, h3) = ok_steps (apply_op m by op sc0 db) _ h2 in
    let ((sc2, db2), b, h4) = ok_steps (store_change m by type sc1 db1) _ h3 in
    let c = apply_op-IsClosed m by op sc0 sc1 type db db1 s (λ e. some_id (sym own ∙ e)) o a in
    let stored : find db.schedules sc0.id ≡ some sc0 =
      subst (λ i. find db.schedules i ≡ some sc0) (sym own) (found db.schedules id g0) in
    let (x, p, off) =
      stored_off m by type sc0 sc1 sc2 db db1 db2 db.schedule_runs
        (apply_op_schedules m by op sc0 sc1 type db db1 o a) stored c b in
    let runs = store_change_runs m by type sc1 sc2 db1 db2 b in
    let made = Resource.of_schedule sc2.id in
    let reply = Reply.of_schedule sc2 in
    let runs' = finish_request_runs (now_of m) request made reply db2 h4 in
    let schedules' = finish_request_schedules (now_of m) request made reply db2 h4 in
    (
      subst (λ t. NoneToTry t id) (runs ∙ runs')
          (subst (NoneToTry db1.schedule_runs) own c.none_to_try),
      (
        c.why,
        subst (AreCancelled (now_of m) c.why id db.schedule_runs) (runs ∙ runs') (
            subst (λ i. AreCancelled (now_of m) c.why i db.schedule_runs db1.schedule_runs) own
              c.only),
      ),
      (
        x,
        subst (λ t. find t id ≡ some x) schedules'
            (subst (λ i. find db2.schedules i ≡ some x) own p),
        off,
      ),
    )
