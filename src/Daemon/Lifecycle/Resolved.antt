-- ===== src/Daemon/Lifecycle/Resolved.antt =====
-- What operation.resolve of internal/daemon/mutations.go does to the dispatches.
use herdr_woof.Prelude.{ℕ, ◌≡◌, some, not, ◌==◌, true, sym, ap, ◌∙◌, subst, ◌&&◌, Bool, arith}
use herdr_woof.Prelude.Result.{ok, ok_steps, refuse_passed, by_branch, ok-inj}
use herdr_woof.Daemon.Model.{Code, Operation, Resource, active_dispatch}
use herdr_woof.Daemon.Store.{Db, find, get, put_dispatch, event}
use herdr_woof.Daemon.Store.Rows.{found}
use herdr_woof.Daemon.Settle.{settle_run}
use herdr_woof.Daemon.Control.{failed_by}
use herdr_woof.Daemon.Resolve.{
  ResolveArgs, is_failed, resolve_dispatch, resolve_delivery, resolve_resource, close_receipt,
  answer_resolution, resolve_tx, is_final_receipt, is_unfinished,
}
use herdr_woof.Daemon.Lifecycle.{AreSound, IsAdvance}
use herdr_woof.Daemon.Lifecycle.Frames.{sync_schedule_run-IsFrame}
use herdr_woof.Daemon.Lifecycle.Moves.{failed_by-Evolves, failed_by-IsSound}
use herdr_woof.Daemon.Lifecycle.Steps.{over-IsAdvance, still-IsAdvance}

both : (a b : Bool) → a && b ≡ true → a ≡ true
both a b h = ground arith

resolve_dispatch-IsAdvance :
    (a : ResolveArgs) (id : ℕ) (db db' : Db)
    → AreSound db.dispatches
    → resolve_dispatch a id db ≡ ok db'
    → IsAdvance db.dispatches db'.dispatches
unfolding resolve_dispatch event
resolve_dispatch-IsAdvance a id db db' s h =
    let (d, p, h1) = ok_steps (get db.dispatches id) _ h in
    let stored = found db.dispatches id p in
    by_branch (active_dispatch d && is_failed a.resolution) _ (ok db) h1
      (λ b k.
        let active : active_dispatch d ≡ true =
          both (active_dispatch d) (is_failed a.resolution) b in
        let d' = failed_by a.now a.reason d in
        let (dispatches, q, k1) = ok_steps (put_dispatch d.id d' db.dispatches) _ k in
        let (runs, _, k2) = ok_steps (settle_run a.now d' db.runs) _ k1 in
        let same : db'.dispatches ≡ dispatches =
          (sync_schedule_run-IsFrame _ d' _ _ _ k2).dispatches in
        over-IsAdvance s d.id d d'
          (subst (λ i. find db.dispatches i ≡ some d) (sym (s.named id d stored)) stored)
          (q ∙ ap ok (sym same)) (failed_by-Evolves a.now a.reason d active)
          (failed_by-IsSound a.now a.reason d (s.sound id d stored)))
      (λ _ k. still-IsAdvance s (ap (λ z. z.dispatches) (sym (ok-inj k))))

resolve_delivery_dispatches :
    (a : ResolveArgs) (attempt : ℕ) (final : Bool) (id : ℕ) (db db' : Db)
    → resolve_delivery a attempt final id db ≡ ok db'
    → db'.dispatches ≡ db.dispatches
unfolding resolve_delivery event
resolve_delivery_dispatches a attempt final id db db' h = ground arith

close_receipt_tables :
    (a : ResolveArgs) (final : Bool) (v : Operation) (db db' : Db)
    → close_receipt a final v db ≡ ok db'
    → (db'.dispatches ≡ db.dispatches) × (db'.deliveries ≡ db.deliveries)
close_receipt_tables a final v db db' h = (ground arith, ground arith)

answer_tables :
    (a : ResolveArgs) (operation : ℕ) (db db' : Db)
    → answer_resolution a operation db ≡ ok db'
    → (db'.dispatches ≡ db.dispatches) × (db'.deliveries ≡ db.deliveries)
unfolding event
answer_tables a operation db db' h = (ground arith, ground arith)

resolve_resource-IsAdvance :
    (a : ResolveArgs) (attempt : ℕ) (final : Bool) (r : Resource) (db db' : Db)
    → AreSound db.dispatches
    → resolve_resource a attempt final r db ≡ ok db'
    → IsAdvance db.dispatches db'.dispatches
resolve_resource-IsAdvance a attempt final Resource.no_resource db db' s h =
    still-IsAdvance s (ap (λ z. z.dispatches) (sym (ok-inj h)))
resolve_resource-IsAdvance a attempt final (Resource.of_delivery id) db db' s h =
    still-IsAdvance s (resolve_delivery_dispatches a attempt final id db db' h)
resolve_resource-IsAdvance a attempt final (Resource.of_dispatch id) db db' s h =
    resolve_dispatch-IsAdvance a id db db' s h
resolve_resource-IsAdvance a attempt final (Resource.of_schedule id) db db' s h =
    still-IsAdvance s (ap (λ z. z.dispatches) (sym (ok-inj h)))
resolve_resource-IsAdvance a attempt final (Resource.of_occurrence id) db db' s h =
    still-IsAdvance s (ap (λ z. z.dispatches) (sym (ok-inj h)))

-- What a resolution that commits did to the resource of its operation; nothing else of it changes
-- dispatches or deliveries.
pub resolve_tx_lem :
    (a : ResolveArgs) (db db' : Db)
    → resolve_tx a db ≡ ok db'
    → (v : Operation) × (final : Bool) × (db1 : Db) × (resolve_resource a v.id final v.resource db
        ≡ ok db1)
      × (db'.dispatches ≡ db1.dispatches)
      × (db'.deliveries ≡ db1.deliveries)
unfolding resolve_tx
resolve_tx_lem a db db' h =
    let (v, _, h1) = ok_steps (get db.operations a.operation) _ h in
    let final = is_final_receipt v in
    let (_, h2) = refuse_passed (v.id == a.request) Code.invalid_args _ h1 in
    let (_, h3) =
      refuse_passed (not (is_unfinished v.state) && not (is_final_receipt v)) Code.invalid_state _
        h2 in
    let (db1, r, h4) = ok_steps (resolve_resource a v.id final v.resource db) _ h3 in
    let (db2, c, h5) = ok_steps (close_receipt a final v db1) _ h4 in
    let (p, p') = close_receipt_tables a final v db1 db2 c in
    let (q, q') = answer_tables a v.id db2 db' h5 in (v, final, db1, r, q ∙ p, q' ∙ p')

pub resolve-IsAdvance :
    (a : ResolveArgs) (db db' : Db)
    → AreSound db.dispatches
    → resolve_tx a db ≡ ok db'
    → IsAdvance db.dispatches db'.dispatches
resolve-IsAdvance a db db' s h =
    let (v, final, db1, r, same, _) = resolve_tx_lem a db db' h in
    subst (IsAdvance db.dispatches) (sym same)
      (resolve_resource-IsAdvance a v.id final v.resource db db1 s r)
