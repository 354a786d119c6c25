-- ===== src/Daemon/Lifecycle/Steps.antt =====
-- The transactions of internal/daemon/dispatch.go and workers.go on a sound table of dispatches, one
-- by one and in any order.
use herdr_woof.Prelude.{ℕ, ◌+◌, ◌≡◌, inl, inr, sym, ◌∙◌, subst, Option, none, some, List}
use herdr_woof.Prelude.Result.{ok, ok_steps}
use herdr_woof.Prelude.Text.{Text}
use herdr_woof.Daemon.Model.{Code, Caller, Worker, Run, Pane, Dispatch}
use herdr_woof.Daemon.Store.{Db, Table, find, get, put_dispatch}
use herdr_woof.Daemon.Store.Rows.{found}
use herdr_woof.Daemon.Dispatch.{Request, new_dispatch, intent_tx, commit_tx, after_prompt}
use herdr_woof.Daemon.Control.{failed_by, fail_tx, nudge_tx}
use herdr_woof.Daemon.Report.{DoneArgs, done_tx, with_report}
use herdr_woof.Daemon.Lifecycle.{Evolves, IsSound, AreSound, IsAdvance}
use herdr_woof.Daemon.Lifecycle.Advance.{IsAdvance-refl, put_dispatch-IsAdvance}
use herdr_woof.Daemon.Lifecycle.Puts.{intent_put, commit_put, fail_put, nudge_put, done_put}
use herdr_woof.Daemon.Lifecycle.Moves.{
  nudged-Evolves, nudged-IsSound, failed_by-Evolves, failed_by-IsSound, after_prompt-Evolves,
  after_prompt-IsSound, new_dispatch-IsSound, with_report-Evolves, with_report-IsSound,
}

-- A put over the dispatch that stands there: what it may change to.
module _ {rows rows' : Table Dispatch} (s : AreSound rows) where
  pub over-IsAdvance :
      (id : ℕ) (d e : Dispatch)
      → find rows id ≡ some d
      → put_dispatch id e rows ≡ ok rows'
      → Evolves d e
      → IsSound e
      → IsAdvance rows rows'
  over-IsAdvance id d e h k evolves sound =
      put_dispatch-IsAdvance id e rows s k sound
        (λ old p. let q : d ≡ old = cc in subst (λ x. Evolves x e) q evolves)

  pub still-IsAdvance : rows' ≡ rows → IsAdvance rows rows'
  still-IsAdvance e = subst (λ t. IsAdvance rows t) (sym e) (IsAdvance-refl s)

pub intent-IsAdvance :
    (r : Request) (w : Worker) (p : Pane) (handoff : Text) (run_id : ℕ) (run : Option Run)
    (db db' : Db)
    → AreSound db.dispatches
    → find db.dispatches r.new_dispatch ≡ none
    → intent_tx r w p (new_dispatch r w p handoff run_id) run db ≡ ok db'
    → IsAdvance db.dispatches db'.dispatches
unfolding new_dispatch
intent-IsAdvance r w p handoff run_id run db db' s fresh h =
    let d = new_dispatch r w p handoff run_id in
    put_dispatch-IsAdvance d.id d db.dispatches s (intent_put r w p d run db h)
      (new_dispatch-IsSound r w p handoff run_id) (λ old k. cc)

pub commit-IsAdvance :
    (now request id : ℕ) (answer : Option Code) (db db' : Db)
    → AreSound db.dispatches
    → commit_tx now request id answer db ≡ ok db'
    → IsAdvance db.dispatches db'.dispatches
unfolding commit_tx
commit-IsAdvance now request id answer db db' s h =
    let (d, p, _) = ok_steps (get db.dispatches id) _ h in
    let old = found db.dispatches id p in
    elim (commit_put now request id answer db d p h) [
      | inl (waits, q) ↦
          let evolves = after_prompt-Evolves now answer d waits in
          let same : (after_prompt now answer d).id ≡ id = evolves.same_id ∙ s.named id d old in
          over-IsAdvance s (after_prompt now answer d).id d (after_prompt now answer d)
            (subst (λ i. find db.dispatches i ≡ some d) (sym same) old) q evolves
            (after_prompt-IsSound now answer d (s.sound id d old))
      | inr e ↦ still-IsAdvance s e
    ]

pub fail-IsAdvance :
    (now request : ℕ) (caller : Caller) (reason : Text) (id : ℕ) (db db' : Db)
    → AreSound db.dispatches
    → fail_tx now request caller reason id db ≡ ok db'
    → IsAdvance db.dispatches db'.dispatches
unfolding fail_tx
fail-IsAdvance now request caller reason id db db' s h =
    let (d, p, _) = ok_steps (get db.dispatches id) _ h in
    let (active, q) = fail_put now request caller reason id db d p h in
    over-IsAdvance s id d (failed_by now reason d) (found db.dispatches id p) q
      (failed_by-Evolves now reason d active)
      (failed_by-IsSound now reason d (s.sound id d (found db.dispatches id p)))

pub nudge-IsAdvance :
    (id : ℕ) (db db' : Db)
    → AreSound db.dispatches
    → nudge_tx id db ≡ ok db'
    → IsAdvance db.dispatches db'.dispatches
unfolding nudge_tx
nudge-IsAdvance id db db' s h =
    let (d, p, _) = ok_steps (get db.dispatches id) _ h in
    over-IsAdvance s id d (record d { nudges = d.nudges + 1 }) (found db.dispatches id p)
      (nudge_put id db d p h) (nudged-Evolves (d.nudges + 1) d)
      (nudged-IsSound (d.nudges + 1) d (s.sound id d (found db.dispatches id p)))

pub done-IsAdvance :
    (a : DoneArgs) (refs : List Text) (db db' : Db)
    → AreSound db.dispatches
    → done_tx a refs db ≡ ok db'
    → IsAdvance db.dispatches db'.dispatches
done-IsAdvance a refs db db' s h =
    let (d, w, p, cases) = done_put a refs db db' h in
    let old = found db.dispatches a.dispatch p in
    elim cases [
      | inl (unreported, active, fresh, q) ↦
          over-IsAdvance s d.id d (with_report a w d)
            (subst (λ i. find db.dispatches i ≡ some d) (sym (s.named a.dispatch d old)) old) q
            (with_report-Evolves a w d active unreported)
            (with_report-IsSound a w d active fresh (s.sound a.dispatch d old))
      | inr e ↦ still-IsAdvance s e
    ]
