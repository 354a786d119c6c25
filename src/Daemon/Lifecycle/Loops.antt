-- ===== src/Daemon/Lifecycle/Loops.antt =====
-- The loops of internal/daemon/dispatch.go and workers.go over a worker's dispatches.
use herdr_woof.Prelude.{
  ℕ, ◌<◌, ◌≡◌, inl, inr, sym, ap, ◌∙◌, subst, Bool, true, false, not, arith, Bool-cases, ◌&&◌, ◌||◌,
  ◌==◌, if◌then◌else◌, List, [], ◌∷◌, ltb,
}
use herdr_woof.Prelude.Result.{ok, ok_steps, ◌>>=◌}
use herdr_woof.Prelude.Text.{Text}
use herdr_woof.Daemon.Model.{
  Worker, Delivery, Pane, Dispatch, active_dispatch, clear_native_recovery,
}
use herdr_woof.Daemon.Store.{Db, Table, find, get, list, put_dispatch, event}
use herdr_woof.Daemon.Store.Rows.{find-put_row}
use herdr_woof.Daemon.Dispatch.{unresolved_wake}
use herdr_woof.Daemon.Control.{failed_by, fence_one, fence_all, fence_worker}
use herdr_woof.Daemon.Observe.{
  observe_one, observe_all, observe_dispatch, observe_tx, observe_deliveries, observe_delivery,
  observe_current, finish_observation, not_observable, recovered, Identified, missing_tx,
  identity_lost_tx,
}
use herdr_woof.Daemon.Lifecycle.{AreSound, IsAdvance}
use herdr_woof.Daemon.Lifecycle.Advance.{IsAdvance-trans, put_dispatch_lem}
use herdr_woof.Daemon.Store.Listed.{Listed, Listed-other, list-Listed}
use herdr_woof.Daemon.Lifecycle.Puts.{fence_put, observe_put}
use herdr_woof.Daemon.Lifecycle.Moves.{
  failed_by-Evolves, failed_by-IsSound, observe_dispatch-Evolves, observe_dispatch-IsSound,
}
use herdr_woof.Daemon.Lifecycle.Steps.{over-IsAdvance, still-IsAdvance}

abbrev id_of : Dispatch → ℕ
id_of d = d.id

-- Another dispatch's put is not seen.
put_other :
    (id : ℕ) (d : Dispatch) (rows rows' : Table Dispatch)
    → put_dispatch id d rows ≡ ok rows'
    → (j : ℕ) → id < j
    → find rows' j ≡ find rows j
put_other id d rows rows' h j p =
    let (_, _, _, e) = put_dispatch_lem id d rows h in
    ap (λ t. find t j) e ∙ find-put_row rows id j d ∙ ground arith

fence_all-IsAdvance :
    (now : ℕ) (reason : Text) (ds : List Dispatch) (low : ℕ) (db db' : Db)
    → AreSound db.dispatches
    → Listed id_of db.dispatches low ds
    → fence_all now reason ds db ≡ ok db'
    → IsAdvance db.dispatches db'.dispatches
unfolding fence_all
fence_all-IsAdvance now reason [] low db db' s l h = still-IsAdvance s (ground arith)
fence_all-IsAdvance now reason (d ∷ ds) low db db' s (p, q, l) h =
    elim (Bool-cases (active_dispatch d)) [
      | inl active ↦
          let h1 : (fence_one now reason d db >>= fence_all now reason ds) ≡ ok db' =
            ground (arith, h, active) in
          let (db1, k, h2) = ok_steps (fence_one now reason d db) (fence_all now reason ds) h1 in
          let put1 = fence_put now reason d db {db' = db1} k in
          let move =
            over-IsAdvance {rows' = db1.dispatches} s d.id d (failed_by now reason d) q put1
              (failed_by-Evolves now reason d active)
              (failed_by-IsSound now reason d (s.sound d.id d q)) in
          let l1 =
            Listed-other id_of db.dispatches db1.dispatches d.id ds
              (put_other d.id (failed_by now reason d) db.dispatches db1.dispatches put1) l in
          IsAdvance-trans move
            (fence_all-IsAdvance now reason ds d.id db1 db' move.still_sound l1 h2)
      | inr ended ↦
          let h1 : fence_all now reason ds db ≡ ok db' = ground (arith, h, ended) in
          fence_all-IsAdvance now reason ds d.id db db' s l h1
    ]

observe_all-IsAdvance :
    (now : ℕ) (changed reset : Bool) (attachment : ℕ) (p : Pane) (ds : List Dispatch) (low : ℕ)
    (db db' : Db)
    → AreSound db.dispatches
    → Listed id_of db.dispatches low ds
    → observe_all now changed reset attachment p ds db ≡ ok db'
    → IsAdvance db.dispatches db'.dispatches
unfolding observe_all
observe_all-IsAdvance now changed reset attachment p [] low db db' s l h =
    still-IsAdvance s (ground arith)
observe_all-IsAdvance now changed reset attachment p (d ∷ ds) low db db' s (_, q, l) h =
    elim (Bool-cases (not (active_dispatch d) || not (d.attachment_id == attachment) || reset)) [
      | inr seen ↦
          let active : active_dispatch d ≡ true = ground arith in
          let h1 : (observe_one now changed p d db
                >>= observe_all now changed reset attachment p ds)
              ≡ ok db' =
            ground (arith, h, seen) in
          let (db1, k, h2) =
            ok_steps (observe_one now changed p d db)
              (observe_all now changed reset attachment p ds) h1 in
          let put1 = observe_put now changed p d db {db' = db1} k in
          let move =
            over-IsAdvance {rows' = db1.dispatches} s d.id d (observe_dispatch now changed p d) q
              put1 (observe_dispatch-Evolves now changed p d active)
              (observe_dispatch-IsSound now changed p d active (s.sound d.id d q)) in
          let l1 =
            Listed-other id_of db.dispatches db1.dispatches d.id ds
              (put_other d.id (observe_dispatch now changed p d) db.dispatches db1.dispatches put1)
              l in
          IsAdvance-trans {b = db1.dispatches} move (
            observe_all-IsAdvance now changed reset attachment p ds d.id db1 db' move.still_sound l1
              h2)
      | inl skipped ↦
          let h1 : observe_all now changed reset attachment p ds db ≡ ok db' =
            ground (arith, h, skipped) in
          observe_all-IsAdvance now changed reset attachment p ds d.id db db' s l h1
    ]

pub fence_worker-IsAdvance :
    (now worker_id : ℕ) (reason : Text) (db db' : Db)
    → AreSound db.dispatches
    → fence_worker now worker_id reason db ≡ ok db'
    → IsAdvance db.dispatches db'.dispatches
unfolding fence_worker
fence_worker-IsAdvance now worker_id reason db db' s h =
    let keep : Dispatch → Bool = λ d. d.worker_id == worker_id in
    fence_all-IsAdvance now reason (list keep db.dispatches) 0 db db' s
      (list-Listed id_of keep db.dispatches 0 s.sorted (λ id d _ k. s.named id d k)) h

delivery_dispatches :
    (now : ℕ) (w : Worker) (p : Pane) (d : Delivery) (db db' : Db)
    → observe_delivery now w p d db ≡ ok db'
    → db'.dispatches ≡ db.dispatches
unfolding observe_delivery event
delivery_dispatches now w p d db db' h = ground arith

delivery_or_not_dispatches :
    (skip : Bool) (now : ℕ) (w : Worker) (p : Pane) (d : Delivery) (db db' : Db)
    → (if skip then ok db else observe_delivery now w p d db) ≡ ok db'
    → db'.dispatches ≡ db.dispatches
delivery_or_not_dispatches true now w p d db db' h = ground arith
delivery_or_not_dispatches false now w p d db db' h = delivery_dispatches now w p d db db' h

deliveries_dispatches :
    (now : ℕ) (w : Worker) (p : Pane) (ds : List Delivery) (db db' : Db)
    → observe_deliveries now w p ds db ≡ ok db'
    → db'.dispatches ≡ db.dispatches
unfolding observe_deliveries
deliveries_dispatches now w p [] db db' h = ground arith
deliveries_dispatches now w p (d ∷ ds) db db' h =
    let skip =
      not (d.attachment_id == w.attachment_id)
      || ltb p.state_change_seq d.baseline_seq
      || not (unresolved_wake d.wake_status) in
    let (db1, k, h1) = ok_steps (if skip then ok db else observe_delivery now w p d db) _ h in
    deliveries_dispatches now w p ds db1 db' h1 ∙ delivery_or_not_dispatches skip now w p d db db1 k

finish_dispatches :
    (i : Identified) (changed : Bool) (w : Worker) (db db' : Db)
    → finish_observation i changed w db ≡ ok db'
    → db'.dispatches ≡ db.dispatches
unfolding finish_observation event
finish_dispatches i changed w db db' h = ground arith

observe_current-IsAdvance :
    (now : ℕ) (i : Identified) (changed reset : Bool) (w : Worker) (db db' : Db)
    → AreSound db.dispatches
    → observe_current now i changed reset w db ≡ ok db'
    → IsAdvance db.dispatches db'.dispatches
unfolding observe_current
observe_current-IsAdvance now i changed reset w db db' s h =
    let keep : Dispatch → Bool = λ d. d.worker_id == i.snapshot.id in
    let (db1, k1, h1) =
      ok_steps (observe_all now changed reset w.attachment_id i.pane (list keep db.dispatches) db) _
        h in
    let (db2, k2, h2) =
      ok_steps
        (observe_deliveries now w i.pane (list (λ d. d.worker_id == w.id) db1.deliveries) db1) _
        h1 in
    let move =
      observe_all-IsAdvance now changed reset w.attachment_id i.pane (list keep db.dispatches) 0 db
        db1 s (list-Listed id_of keep db.dispatches 0 s.sorted (λ id d _ k. s.named id d k)) k1 in
    let same =
      finish_dispatches i changed w db2 db' h2 ∙ deliveries_dispatches now w i.pane _ db1 db2 k2 in
    subst (λ t. IsAdvance db.dispatches t) (sym same) move

observe_or_not-IsAdvance :
    (skip : Bool) (now : ℕ) (i : Identified) (changed reset : Bool) (w : Worker) (db db' : Db)
    → AreSound db.dispatches
    → (if skip then ok db else observe_current now i changed reset w db) ≡ ok db'
    → IsAdvance db.dispatches db'.dispatches
observe_or_not-IsAdvance true now i changed reset w db db' s h = still-IsAdvance s (ground arith)
observe_or_not-IsAdvance false now i changed reset w db db' s h =
    observe_current-IsAdvance now i changed reset w db db' s h

pub observe-IsAdvance :
    (now : ℕ) (i : Identified) (db db' : Db)
    → AreSound db.dispatches
    → observe_tx now i db ≡ ok db'
    → IsAdvance db.dispatches db'.dispatches
unfolding observe_tx
observe-IsAdvance now i db db' s h =
    let (current, p, k) = ok_steps (get db.workers i.snapshot.id) _ h in
    let skip =
      not_observable i.snapshot current
      || (ltb i.pane.revision (clear_native_recovery (recovered i current)).revision
          && not i.recovery
          && not i.snapshot.recovery_held) in
    observe_or_not-IsAdvance skip now i _ _ _ db db' s k

pub missing-IsAdvance :
    (now : ℕ) (w : Worker) (db db' : Db)
    → AreSound db.dispatches
    → missing_tx now w db ≡ ok db'
    → IsAdvance db.dispatches db'.dispatches
unfolding missing_tx event
missing-IsAdvance now w db db' s h = still-IsAdvance s (ground arith)

pub identity_lost-IsAdvance :
    (w : Worker) (p : Pane) (db db' : Db)
    → AreSound db.dispatches
    → identity_lost_tx w p db ≡ ok db'
    → IsAdvance db.dispatches db'.dispatches
unfolding identity_lost_tx event
identity_lost-IsAdvance w p db db' s h = still-IsAdvance s (ground arith)
