-- ===== src/Daemon/Scheduling/Cancelled.antt =====
-- What cancelOutstandingTx of internal/daemon/schedule.go changes: the waiting occurrences of its
-- schedule, and no others.
use herdr_woof.Prelude.{
  ℕ, ◌≡◌, ◌≢◌, refl, sym, ap, ◌∙◌, subst, ◌⊎◌, inl, inr, Bool, true, false, ◌&&◌, ◌||◌, some, List,
  [], ◌∷◌, All, ◌==◌, arith, if◌then◌else◌, Bool-cases,
}
use herdr_woof.Prelude.Result.{ok, ok-inj, ok_steps}
use herdr_woof.Daemon.Model.{Schedule, ScheduleRun, OccurrenceState, Outcome, EventType}
use herdr_woof.Daemon.Store.{Table, Db, find, list, put_row}
use herdr_woof.Daemon.Store.Rows.{find-put_row, some-inj}
use herdr_woof.Daemon.Store.Listed.{Listed, list-Listed}
use herdr_woof.Daemon.Occurrences.{
  By, is_claimed_or_blocked, runs_in_state, put_run, cancelled, cancel_all, cancel_outstanding,
}
use herdr_woof.Daemon.Scheduling.{AreSoundRuns}
use herdr_woof.Daemon.Scheduling.Advance.{put_schedule_run_lem}
use herdr_woof.Daemon.Scheduling.Puts.{put_run_lem}

abbrev pub cancelled_run : ℕ → Outcome → ScheduleRun → ScheduleRun
cancelled_run now why x = record x {
  state = OccurrenceState.cancelled;
  reason = why;
  next_attempt_at = 0;
  updated_at = now;
  finished_at = now;
}

-- An occurrence that is cancelled, and one that is not this schedule's or does not wait.
abbrev pub closed_run : ℕ → Outcome → ℕ → ScheduleRun → ScheduleRun
closed_run now why schedule x =
    if x.schedule_id == schedule && is_claimed_or_blocked x.state
    then cancelled_run now why x
    else x

-- Each occurrence of the first table is cancelled in the second, or is there as it was.
abbrev pub AreCancelled : ℕ → Outcome → ℕ → Table ScheduleRun → Table ScheduleRun → Type 0
AreCancelled now why schedule rows rows' =
    (j : ℕ) (x : ScheduleRun)
    → find rows j ≡ some x
    → find rows' j ≡ some (closed_run now why schedule x)

-- The same, while the loop has not reached all of them.
abbrev pub MayBeCancelled : ℕ → Outcome → ℕ → Table ScheduleRun → Table ScheduleRun → Type 0
MayBeCancelled now why schedule rows rows' =
    (j : ℕ) (x : ScheduleRun)
    → find rows j ≡ some x
    → (find rows' j ≡ some x) ⊎ (find rows' j ≡ some (closed_run now why schedule x))

abbrev waits : ℕ → ScheduleRun → Bool
waits schedule run =
    is_claimed_or_blocked run.state && (schedule == 0 || run.schedule_id == schedule)

cancelled-closed_run :
    (now : ℕ) (why : Outcome) (schedule : ℕ) (run : ScheduleRun)
    → schedule ≢ 0
    → waits schedule run ≡ true
    → cancelled now why run ≡ closed_run now why schedule run
unfolding cancelled
cancelled-closed_run now why schedule run some_id h =
    let both : (run.schedule_id == schedule && is_claimed_or_blocked run.state) ≡ true =
      ground arith in
    sym (ap (λ b. if b then cancelled now why run else run) both)

if-All :
    (P : ScheduleRun → Bool) (x : ScheduleRun) (xs : List ScheduleRun)
    → All (λ r. P r ≡ true) xs
    → All (λ r. P r ≡ true) (if P x then x ∷ xs else xs)
if-All P x xs h = elim (Bool-cases (P x)) [
  | inl p ↦ subst (λ b. All (λ r. P r ≡ true) (if b then x ∷ xs else xs)) (sym p) (p, h)
  | inr p ↦ subst (λ b. All (λ r. P r ≡ true) (if b then x ∷ xs else xs)) (sym p) h
]

list-All : (P : ScheduleRun → Bool) (rows : Table ScheduleRun) → All (λ r. P r ≡ true) (list P rows)
unfolding list
list-All P [] = tt
list-All P ((k, x) ∷ rows) = if-All P x (list P rows) (list-All P rows)

cancelled_id : (now : ℕ) (why : Outcome) (run : ScheduleRun) → (cancelled now why run).id ≡ run.id
unfolding cancelled
cancelled_id now why run = refl

put_cancelled :
    (now : ℕ) (why : Outcome) (schedule : ℕ) (rows mid : Table ScheduleRun) (run : ScheduleRun)
    → schedule ≢ 0
    → find rows run.id ≡ some run
    → waits schedule run ≡ true
    → MayBeCancelled now why schedule rows mid
    → MayBeCancelled now why schedule rows (put_row run.id (cancelled now why run) mid)
put_cancelled now why schedule rows mid run some_id stored w before j x h =
    let row = find-put_row mid run.id j (cancelled now why run) in
    elim (Bool-cases (run.id == j)) [
      | inl p ↦
          let here : run.id ≡ j = ground arith in
          let same : run ≡ x = some-inj (sym stored ∙ ap (find rows) here ∙ h) in
          inr (
            row
            ∙ ap (λ b. if b then some (cancelled now why run) else find mid j) p
            ∙ ap some (cancelled-closed_run now why schedule run some_id w)
            ∙ ap (λ r. some (closed_run now why schedule r)) same)
      | inr p ↦
          let other = row ∙ ap (λ b. if b then some (cancelled now why run) else find mid j) p in
          elim (before j x h) [ inl q ↦ inl (other ∙ q) | inr q ↦ inr (other ∙ q) ]
    ]

cancel_all-MayBeCancelled :
    (now : ℕ) (why : Outcome) (by : By) (sc : Schedule) (rows : Table ScheduleRun) (low : ℕ)
    (runs : List ScheduleRun) (db db' : Db)
    → sc.id ≢ 0
    → Listed (λ r. r.id) rows low runs
    → All (λ r. waits sc.id r ≡ true) runs
    → MayBeCancelled now why sc.id rows db.schedule_runs
    → cancel_all now why by sc runs db ≡ ok db'
    → MayBeCancelled now why sc.id rows db'.schedule_runs
unfolding cancel_all
cancel_all-MayBeCancelled now why by sc rows low [] db db' some_id l w before h =
    subst {A = Db} (λ z. MayBeCancelled now why sc.id rows z.schedule_runs) (ok-inj h) before
cancel_all-MayBeCancelled now why by sc rows low (run ∷ runs) db db' some_id (_, stored, l) w before
      h =
    let run' = cancelled now why run in
    let (db1, k, h1) =
      ok_steps (put_run (EventType.occurrence_now OccurrenceState.cancelled) by sc run' db) _ h in
    let (_, _, _, p) =
      put_schedule_run_lem run'.id run' db.schedule_runs (put_run_lem _ by sc run' db k) in
    let q : db1.schedule_runs ≡ put_row run.id run' db.schedule_runs =
      p ∙ ap (λ i. put_row i run' db.schedule_runs) (cancelled_id now why run) in
    cancel_all-MayBeCancelled now why by sc rows run.id runs db1 db' some_id l w.1
      (subst (MayBeCancelled now why sc.id rows) (sym q)
        (put_cancelled now why sc.id rows db.schedule_runs run some_id stored w.0 before))
      h1

pub cancel_outstanding-MayBeCancelled :
    (now : ℕ) (why : Outcome) (by : By) (sc : Schedule) (db db' : Db)
    → sc.id ≢ 0
    → AreSoundRuns db.schedule_runs
    → cancel_outstanding now why by sc db ≡ ok db'
    → MayBeCancelled now why sc.id db.schedule_runs db'.schedule_runs
unfolding cancel_outstanding runs_in_state
cancel_outstanding-MayBeCancelled now why by sc db db' some_id s h =
    cancel_all-MayBeCancelled now why by sc db.schedule_runs 0 (list (waits sc.id) db.schedule_runs)
      db db' some_id
      (list-Listed (λ (r : ScheduleRun). r.id) (waits sc.id) db.schedule_runs 0 s.sorted
        (λ i x _ p. s.named i x p))
      (list-All (waits sc.id) db.schedule_runs) (λ j x p. inl p) h

-- All are reached where none of them waits any more.
pub all_reached :
    (now : ℕ) (why : Outcome) (schedule : ℕ) (rows rows' : Table ScheduleRun)
    → MayBeCancelled now why schedule rows rows'
    → ((j : ℕ) (x : ScheduleRun)
        → find rows' j ≡ some x
        → x.schedule_id ≡ schedule
        → is_claimed_or_blocked x.state ≡ false)
    → AreCancelled now why schedule rows rows'
all_reached now why schedule rows rows' may none_waits j x h = elim (may j x h) [
  | inl same ↦ elim (Bool-cases (x.schedule_id == schedule && is_claimed_or_blocked x.state)) [
    | inl p ↦
        let over : is_claimed_or_blocked x.state ≡ false = none_waits j x same (ground arith) in
        let still : is_claimed_or_blocked x.state ≡ true = ground arith in
        let never : true ≡ false = sym still ∙ over in cc
    | inr p ↦ same ∙ ap some (sym (ap (λ b. if b then cancelled_run now why x else x) p))
  ]
  | inr q ↦ q
]
