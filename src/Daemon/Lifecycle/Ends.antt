-- ===== src/Daemon/Lifecycle/Ends.antt =====
-- The run of a dispatch that a caller fails (dispatchControl of internal/daemon/dispatch.go).
use herdr_woof.Prelude.{
  ℕ, ◌≡◌, ◌≢◌, sym, ap, ◌∙◌, subst, Bool, true, false, not, some, if◌then◌else◌, arith,
}
use herdr_woof.Prelude.Result.{ok, ok-inj, by_branch}
use herdr_woof.Prelude.Text.{Text}
use herdr_woof.Daemon.Model.{
  Caller, Actor, Run, RunStatus, Dispatch, DispatchStatus, Outcome, active_dispatch,
}
use herdr_woof.Daemon.Store.{Db, Table, find, get, put, event}
use herdr_woof.Daemon.Store.Rows.{find-put_row, put_lem, put-find_other}
use herdr_woof.Daemon.Settle.{settle_run, sync_schedule_run, sync_final}
use herdr_woof.Daemon.Control.{fail_tx, failed_by}
use herdr_woof.Daemon.Lifecycle.Puts.{fail_put}
use herdr_woof.Daemon.Lifecycle.Repeat.{stored_lem}

sync_runs :
    (now : ℕ) (d : Dispatch) (kind : Actor) (id : ℕ) (db db' : Db)
    → sync_schedule_run now d kind id db ≡ ok db'
    → db'.runs ≡ db.runs
unfolding sync_schedule_run sync_final event
sync_runs now d kind id db db' h = ground arith

-- The run as settleRunTx leaves it.
abbrev pub ended_run : ℕ → Run → Run
ended_run now run =
    if run.implicit
    then record run { status = RunStatus.completed; completed_at = now; updated_at = now }
    else run

settled_or_not :
    (b : Bool) (run run' : Run) (runs runs' : Table Run)
    → get runs run.id ≡ ok run
    → (if not b then ok runs else put run.id run.id run' runs) ≡ ok runs'
    → get runs' run.id ≡ ok (if b then run' else run)
unfolding get
settled_or_not true run run' runs runs' h k =
    let (_, _, e) = put_lem run.id run.id run' runs k in
    let f : find runs' run.id ≡ some run' =
      ap (λ t. find t run.id) e ∙ find-put_row runs run.id run.id run' ∙ ground arith in
    ground (arith, f)
settled_or_not false run run' runs runs' h k =
    let e : runs ≡ runs' = ground arith in subst (λ t. get t run.id ≡ ok run) e h

settle_run_cases :
    (now : ℕ) (d : Dispatch) (runs runs' : Table Run) (run : Run)
    → get runs d.run_id ≡ ok run
    → settle_run now d runs ≡ ok runs'
    → (if not run.implicit
        then ok runs
        else put run.id run.id
            (record run { status = RunStatus.completed; completed_at = now; updated_at = now })
            runs)
      ≡ ok runs'
unfolding settle_run
settle_run_cases now d runs runs' run h k = ground arith

pub settle_run_lem :
    (now : ℕ) (d : Dispatch) (runs runs' : Table Run) (run : Run)
    → get runs d.run_id ≡ ok run
    → run.id ≡ d.run_id
    → settle_run now d runs ≡ ok runs'
    → get runs' d.run_id ≡ ok (ended_run now run)
settle_run_lem now d runs runs' run h named k =
    subst (λ i. get runs' i ≡ ok (ended_run now run)) named
      (settled_or_not run.implicit run
        (record run { status = RunStatus.completed; completed_at = now; updated_at = now }) runs
        runs' (ap (get runs) named ∙ h) (settle_run_cases now d runs runs' run h k))

fail_runs :
    (now request : ℕ) (caller : Caller) (reason : Text) (id : ℕ) (db db' : Db) (d : Dispatch)
    → get db.dispatches id ≡ ok d
    → fail_tx now request caller reason id db ≡ ok db'
    → settle_run now (failed_by now reason d) db.runs ≡ ok db'.runs
unfolding fail_tx event
fail_runs now request caller reason id db db' d h k = grind (arith, sync_runs)

settle_run_other :
    (now : ℕ) (d : Dispatch) (runs runs' : Table Run) (run : Run) (j : ℕ)
    → get runs d.run_id ≡ ok run
    → run.id ≡ d.run_id
    → j ≢ d.run_id
    → settle_run now d runs ≡ ok runs'
    → find runs' j ≡ find runs j
settle_run_other now d runs runs' run j h named other k =
    let ended = record run { status = RunStatus.completed; completed_at = now; updated_at = now } in
    by_branch (not run.implicit) (ok runs) (put run.id run.id ended runs)
      (settle_run_cases now d runs runs' run h k) (λ _ p. ap (λ t. find t j) (sym (ok-inj p)))
      (λ _ p. put-find_other run.id run.id ended runs runs' j p (λ e. other (sym e ∙ named)))

-- Where a caller's failure of a dispatch commits, the dispatch was active, and only its status, its
-- outcome and its end have changed: it is failed, with the reason, at this time. Its run, which is
-- stored under its own id, is completed if it was made for the dispatch and stays as it is otherwise,
-- and every other run stays as it is.
pub fail_tx_lem :
    (now request : ℕ) (caller : Caller) (reason : Text) (id : ℕ) (db db' : Db) (d : Dispatch)
    (run : Run) (j : ℕ)
    → get db.dispatches id ≡ ok d
    → get db.runs d.run_id ≡ ok run
    → run.id ≡ d.run_id
    → j ≢ d.run_id
    → fail_tx now request caller reason id db ≡ ok db'
    → (active_dispatch d ≡ true)
      × (get db'.dispatches id
          ≡ ok (record d {
            status = DispatchStatus.failed;
            outcome = Outcome.reason reason;
            settled_at = now;
          }))
      × (get db'.runs d.run_id ≡ ok (ended_run now run))
      × (find db'.runs j ≡ find db.runs j)
unfolding failed_by
fail_tx_lem now request caller reason id db db' d run j h k named other t =
    let (active, q) = fail_put now request caller reason id db d h t in
    let settled = fail_runs now request caller reason id db db' d h t in
    (
      active,
      stored_lem id (failed_by now reason d) db db' q,
      settle_run_lem now (failed_by now reason d) db.runs db'.runs run k named settled,
      settle_run_other now (failed_by now reason d) db.runs db'.runs run j k named other settled,
    )
