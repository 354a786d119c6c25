-- ===== src/Daemon/Lifecycle/Reach.antt =====
-- The transactions on dispatches of internal/daemon/dispatch.go, messaging.go, workers.go,
-- watchdog.go and mutations.go in any order: a prompt's outcome may come late, between other
-- transactions, or never.
use herdr_woof.Prelude.{ℕ, ◌≡◌, Option, none, List}
use herdr_woof.Prelude.Result.{ok}
use herdr_woof.Prelude.Text.{Text}
use herdr_woof.Daemon.Model.{Code, Caller, Worker, Run, Pane, Alert}
use herdr_woof.Daemon.Store.{Db, find}
use herdr_woof.Daemon.Dispatch.{Request, new_dispatch, intent_tx, commit_tx}
use herdr_woof.Daemon.Control.{fail_tx, nudge_tx, fence_worker}
use herdr_woof.Daemon.Report.{DoneArgs, done_tx}
use herdr_woof.Daemon.Observe.{Identified, observe_tx, missing_tx, identity_lost_tx}
use herdr_woof.Daemon.Watchdog.{Notice, Timeouts, escalate_tx, escalate_blocked_tx}
use herdr_woof.Daemon.Resolve.{ResolveArgs, resolve_tx}
use herdr_woof.Daemon.Lifecycle.Resolved.{resolve-IsAdvance}
use herdr_woof.Daemon.Lifecycle.Alerts.{escalate-IsAdvance, escalate_blocked-IsAdvance}
use herdr_woof.Daemon.Lifecycle.{AreSound, IsAdvance}
use herdr_woof.Daemon.Lifecycle.Advance.{IsAdvance-refl, IsAdvance-trans}
use herdr_woof.Daemon.Lifecycle.Steps.{
  intent-IsAdvance, commit-IsAdvance, fail-IsAdvance, nudge-IsAdvance, done-IsAdvance,
}
use herdr_woof.Daemon.Lifecycle.Loops.{
  fence_worker-IsAdvance, observe-IsAdvance, missing-IsAdvance, identity_lost-IsAdvance,
}

-- One transaction that commits. A new dispatch has an id that is not in use.
pub data Step (db db' : Db) : Type 0 where
  intent :
      (r : Request) (w : Worker) (p : Pane) (handoff : Text) (run_id : ℕ) (run : Option Run)
      → find db.dispatches r.new_dispatch ≡ none
      → intent_tx r w p (new_dispatch r w p handoff run_id) run db ≡ ok db'
      → Step db db'
  commit :
      (now request id : ℕ) (answer : Option Code)
      → commit_tx now request id answer db ≡ ok db'
      → Step db db'
  report : (a : DoneArgs) (refs : List Text) → done_tx a refs db ≡ ok db' → Step db db'
  fail :
      (now request : ℕ) (caller : Caller) (reason : Text) (id : ℕ)
      → fail_tx now request caller reason id db ≡ ok db'
      → Step db db'
  nudge : (id : ℕ) → nudge_tx id db ≡ ok db' → Step db db'
  fence :
      (now worker_id : ℕ) (reason : Text)
      → fence_worker now worker_id reason db ≡ ok db'
      → Step db db'
  observe : (now : ℕ) (i : Identified) → observe_tx now i db ≡ ok db' → Step db db'
  missing : (now : ℕ) (w : Worker) → missing_tx now w db ≡ ok db' → Step db db'
  identity_lost : (w : Worker) (p : Pane) → identity_lost_tx w p db ≡ ok db' → Step db db'
  escalate : (n : Notice) (why : Alert) (id : ℕ) → escalate_tx n why id db ≡ ok db' → Step db db'
  escalate_blocked :
      (t : Timeouts) (n : Notice) (id : ℕ) → escalate_blocked_tx t n id db ≡ ok db' → Step db db'
  resolve : (a : ResolveArgs) → resolve_tx a db ≡ ok db' → Step db db'

-- Transactions one after the other.
pub data Reaches (db : Db) : Db → Type 0 where
  here : Reaches db db
  after : {db1 db2 : Db} → Reaches db db1 → Step db1 db2 → Reaches db db2

pub step-IsAdvance :
    (db db' : Db) → AreSound db.dispatches → Step db db' → IsAdvance db.dispatches db'.dispatches
step-IsAdvance db db' s (Step.intent r w p handoff run_id run fresh h) =
    intent-IsAdvance r w p handoff run_id run db db' s fresh h
step-IsAdvance db db' s (Step.commit now request id answer h) =
    commit-IsAdvance now request id answer db db' s h
step-IsAdvance db db' s (Step.report a refs h) = done-IsAdvance a refs db db' s h
step-IsAdvance db db' s (Step.fail now request caller reason id h) =
    fail-IsAdvance now request caller reason id db db' s h
step-IsAdvance db db' s (Step.nudge id h) = nudge-IsAdvance id db db' s h
step-IsAdvance db db' s (Step.fence now worker_id reason h) =
    fence_worker-IsAdvance now worker_id reason db db' s h
step-IsAdvance db db' s (Step.observe now i h) = observe-IsAdvance now i db db' s h
step-IsAdvance db db' s (Step.missing now w h) = missing-IsAdvance now w db db' s h
step-IsAdvance db db' s (Step.identity_lost w p h) = identity_lost-IsAdvance w p db db' s h
step-IsAdvance db db' s (Step.escalate n why id h) = escalate-IsAdvance n why id db db' s h
step-IsAdvance db db' s (Step.escalate_blocked t n id h) =
    escalate_blocked-IsAdvance t n id db db' s h
step-IsAdvance db db' s (Step.resolve a h) = resolve-IsAdvance a db db' s h

-- From a database whose dispatches are sound, after any transactions in any order: the dispatches
-- are sound (one active dispatch per worker; a settled one has ended its turn after it was sent, was
-- reported, and has the reported outcome), none is lost, a final one keeps everything but its count
-- of nudges, and a recorded report and the recorded end of a turn never change.
pub reach-IsAdvance :
    (db db' : Db) → AreSound db.dispatches → Reaches db db' → IsAdvance db.dispatches db'.dispatches
reach-IsAdvance db db' s Reaches.here = IsAdvance-refl s
reach-IsAdvance db db' s (Reaches.after {db1 = db1} r step) =
    let before = reach-IsAdvance db db1 s r in
    IsAdvance-trans before (step-IsAdvance db1 db' before.still_sound step)
