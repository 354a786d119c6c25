-- ===== src/Daemon/Mailbox/Once.antt =====
-- A delivery is taken from its queue once (processInbox of internal/daemon/messaging.go).
use herdr_woof.Prelude.{
  ℕ, ◌≡◌, ◌≢◌, refl, sym, ap, ◌∙◌, subst, Bool, true, false, not, ◌&&◌, ◌||◌, ◌==◌, arith,
}
use herdr_woof.Prelude.Result.{ok, ok_steps, refuse_passed}
use herdr_woof.Daemon.Model.{Code, Worker, Pane, Delivery, terminal_recipient}
use herdr_woof.Daemon.Store.{Db, get, put, event}
use herdr_woof.Daemon.Store.Rows.{put-get}
use herdr_woof.Daemon.Mailbox.{
  wake_intent_tx, attempted, wake_operation, may_wake, inbox_read_recoverable,
}

intent_put :
    (now attempt fingerprint : ℕ) (recovery : Bool) (w : Worker) (p : Pane) (id : ℕ) (db db' : Db)
    → wake_intent_tx now attempt fingerprint recovery w p id db ≡ ok db'
    → (d : Delivery) × (get db.deliveries id ≡ ok d)
      × (may_wake d ≡ true)
      × (put d.id d.id (attempted now attempt w p d) db.deliveries ≡ ok db'.deliveries)
unfolding wake_intent_tx event
intent_put now attempt fingerprint recovery w p id db db' h =
    let (current, _, h1) = ok_steps (get db.workers w.id) _ h in
    let (_, h2) =
      refuse_passed (not (current.attachment_id == w.attachment_id) || terminal_recipient current)
        Code.stale_attachment _ h1 in
    let (_, _, h3) =
      ok_steps (put attempt attempt (wake_operation now attempt fingerprint id) db.operations) _
        h2 in
    let (d, e, h4) = ok_steps (get db.deliveries id) _ h3 in
    let (_, h5) =
      refuse_passed (recovery && not (inbox_read_recoverable d)) Code.delivery_changed _ h4 in
    let (may, h6) = refuse_passed (not (may_wake d)) Code.delivery_changed _ h5 in
    (d, e, ground arith, ground (arith, h6))

attempted-may_wake :
    (now attempt : ℕ) (w : Worker) (p : Pane) (d : Delivery)
    → may_wake (attempted now attempt w p d) ≡ false
unfolding may_wake attempted
attempted-may_wake now attempt w p d = refl

-- Where the intent to wake a worker for a delivery, which is stored under its own id, commits, the
-- delivery was queued without a receipt and now is being sent by this attempt; and no second intent
-- for it commits on the new database, by whatever attempt, worker or recovery.
pub wake_intent_tx_once :
    (now attempt fingerprint : ℕ) (recovery : Bool) (w : Worker) (p : Pane) (id : ℕ) (db db' : Db)
    (d : Delivery)
    → get db.deliveries id ≡ ok d
    → d.id ≡ id
    → wake_intent_tx now attempt fingerprint recovery w p id db ≡ ok db'
    → (may_wake d ≡ true)
      × (get db'.deliveries id ≡ ok (attempted now attempt w p d))
      × ((now' attempt' fingerprint' : ℕ) (recovery' : Bool) (w' : Worker) (p' : Pane) (db'' : Db)
          → wake_intent_tx now' attempt' fingerprint' recovery' w' p' id db' ≢ ok db'')
wake_intent_tx_once now attempt fingerprint recovery w p id db db' d h named k =
    let (d1, h1, may, q) = intent_put now attempt fingerprint recovery w p id db db' k in
    let same : d1 ≡ d = cc in
    let put_d : put d.id d.id (attempted now attempt w p d) db.deliveries ≡ ok db'.deliveries =
      subst (λ x. put x.id x.id (attempted now attempt w p x) db.deliveries ≡ ok db'.deliveries)
        same q in
    let stored : get db'.deliveries id ≡ ok (attempted now attempt w p d) =
      subst (λ i. get db'.deliveries i ≡ ok (attempted now attempt w p d)) named
        (put-get d.id d.id (attempted now attempt w p d) db.deliveries db'.deliveries put_d) in
    (
      ap may_wake (sym same) ∙ may,
      stored,
      λ now' attempt' fingerprint' recovery' w' p' db'' t.
          let (e, g, again, _) =
            intent_put now' attempt' fingerprint' recovery' w' p' id db' db'' t in
          let same' : e ≡ attempted now attempt w p d = cc in
          let never : may_wake e ≡ false =
            ap may_wake same' ∙ attempted-may_wake now attempt w p d in
          cc,
    )
