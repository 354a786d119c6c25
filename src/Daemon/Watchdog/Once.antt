-- ===== src/Daemon/Watchdog/Once.antt =====
-- The alerts of a dispatch (internal/daemon/watchdog.go): each reason is told once.
use herdr_woof.Prelude.{
  Bool, ℕ, ◌≡◌, ◌⊎◌, inl, inr, refl, sym, ap, ◌∙◌, subst, true, false, not, ◌&&◌, ◌||◌,
}
use herdr_woof.Prelude.Result.{ok, ok_steps, refuse_passed, by_branch, ok-inj}
use herdr_woof.Daemon.Model.{Code, Scope, Alert, Message, Delivery, Dispatch, active_dispatch}
use herdr_woof.Daemon.Store.{Db, Table, get, put, put_dispatch, has_other_active, event}
use herdr_woof.Daemon.Store.Rows.{put-get}
use herdr_woof.Daemon.Watchdog.{
  Notice, has_alert, with_alert, put_notice, escalation_tx, escalate_tx, dispatch_notice,
}

pub put_notice_frame :
    (m : Message × Delivery) (db : Db) {x : Delivery × Db}
    → put_notice m db ≡ ok x
    → (x.0 ≡ m.1)
      × (x.1.dispatches ≡ db.dispatches)
      × (x.1.workers ≡ db.workers)
      × (x.1.runs ≡ db.runs)
      × (put m.1.id m.1.id m.1 db.deliveries ≡ ok x.1.deliveries)
put_notice_frame (m, delivery) db {x = x} h =
    let (messages, _, h1) = ok_steps (put m.id m.id m db.messages) _ h in
    let (deliveries, e, h2) = ok_steps (put delivery.id delivery.id delivery db.deliveries) _ h1 in
    let y : Delivery × Db =
      (delivery, record db { messages = messages; deliveries = deliveries }) in
    subst {A = Delivery × Db}
      (λ z.
        (z.0 ≡ delivery)
        × (z.1.dispatches ≡ db.dispatches)
        × (z.1.workers ≡ db.workers)
        × (z.1.runs ≡ db.runs)
        × (put delivery.id delivery.id delivery db.deliveries ≡ ok z.1.deliveries))
      (ok-inj h2) (refl, refl, refl, refl, e)

pub put_notice_messages :
    (m : Message × Delivery) (db : Db) {x : Delivery × Db}
    → put_notice m db ≡ ok x
    → put m.0.id m.0.id m.0 db.messages ≡ ok x.1.messages
put_notice_messages (m, delivery) db {x = x} h =
    let (messages, e, h1) = ok_steps (put m.id m.id m db.messages) _ h in
    let (deliveries, _, h2) = ok_steps (put delivery.id delivery.id delivery db.deliveries) _ h1 in
    e ∙ ap ok (ap {A = Delivery × Db} (λ z. z.1.messages) (ok-inj h2))

pub escalation_tx_frame :
    (n : Notice) (scope : Scope) (dispatch candidate : ℕ) (db : Db) {x : Delivery × Db}
    → escalation_tx n scope dispatch candidate db ≡ ok x
    → (x.1.dispatches ≡ db.dispatches) × (x.1.workers ≡ db.workers)
unfolding escalation_tx
escalation_tx_frame n scope dispatch candidate db h =
    let (_, p, q, _, _) = put_notice_frame _ db h in (p, q)

pub put_dispatch-get :
    (id : ℕ) (d : Dispatch) (rows rows' : Table Dispatch)
    → put_dispatch id d rows ≡ ok rows'
    → get rows' id ≡ ok d
unfolding put_dispatch
put_dispatch-get id d rows rows' h =
    let (_, h1) =
      refuse_passed (active_dispatch d && has_other_active d rows) Code.busy_worker _ h in
    put-get id d.id d rows rows' h1

-- What an alert that commits puts.
pub escalate_put :
    (n : Notice) (why : Alert) (id : ℕ) (db db' : Db)
    → escalate_tx n why id db ≡ ok db'
    → (d : Dispatch) × (get db.dispatches id ≡ ok d)
      × (((has_alert why d.alerts || not (active_dispatch d)) ≡ true) × (db' ≡ db)
          ⊎ ((has_alert why d.alerts || not (active_dispatch d)) ≡ false)
            × (put_dispatch d.id (with_alert why d) db.dispatches ≡ ok db'.dispatches))
unfolding escalate_tx event
escalate_put n why id db db' h =
    let (d, e, h1) = ok_steps (get db.dispatches id) _ h in
    (
      d,
      e,
      by_branch (has_alert why d.alerts || not (active_dispatch d)) (ok db) _ h1
          (λ b p. inl (b, sym (ok-inj p)))
          (λ b p.
            let (dispatches, f, p1) =
              ok_steps (put_dispatch d.id (with_alert why d) db.dispatches) _ p in
            let (run, _, p2) = ok_steps (get db.runs d.run_id) _ p1 in
            let db0 = record db { dispatches = dispatches } in
            let (x, q, p3) =
              ok_steps (escalation_tx n (dispatch_notice d) d.id run.invoker_worker_id db0) _ p2 in
            let (same, _) =
              escalation_tx_frame n (dispatch_notice d) d.id run.invoker_worker_id db0 q in
            let last : x.1.dispatches ≡ db'.dispatches = ap (λ z. z.dispatches) (ok-inj p3) in
            inr (b, f ∙ ap ok (sym same ∙ last))),
    )

-- Whether the alert is to be told: the dispatch is active, and the reason was not told before.
abbrev pub is_owed : Alert → Dispatch → Bool
is_owed why d = active_dispatch d && not (has_alert why d.alerts)
