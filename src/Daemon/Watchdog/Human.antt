-- ===== src/Daemon/Watchdog/Human.antt =====
-- The two ways from a block alert to the human (internal/daemon/watchdog.go): the alert that did not
-- reach its worker, and the block that lasts. Only one of them is taken, in either order.
use herdr_woof.Prelude.{
  ℕ, ◌≡◌, ◌≢◌, inl, inr, refl, sym, ap, ◌∙◌, subst, true, false, Option, some, ◌==◌, arith,
}
use herdr_woof.Prelude.Result.{ok, ok_steps, by_branch, ok-inj}
use herdr_woof.Daemon.Model.{Scope, Worker, Message, Delivery, Dispatch}
use herdr_woof.Daemon.Store.{Db, Table, find, get, put, list, event}
use herdr_woof.Daemon.Store.Rows.{found, some-inj, put-find_other, put-get}
use herdr_woof.Daemon.Watchdog.{
  Timeouts, Notice, blocked_due, tell_human, tell_alert, tell_blocked, escalate_blocked_tx,
  first_active, turn_to_human, human_escalation_tx, human_delivery, human_message, episode_scope,
  episode_dispatch, escalation_tx,
}
use herdr_woof.Daemon.Watchdog.Once.{put_notice_frame, put_notice_messages}
use herdr_woof.Daemon.Watchdog.Episode.{alert_put, tell_blocked_lem, due_human}

-- An escalation without a candidate puts a delivery to the human.
escalation_tx-put :
    (n : Notice) (scope : Scope) (dispatch : ℕ) (db : Db) {x : Delivery × Db}
    → escalation_tx n scope dispatch 0 db ≡ ok x
    → put n.delivery n.delivery (human_delivery n scope) db.deliveries ≡ ok x.1.deliveries
unfolding escalation_tx human_delivery
escalation_tx-put n scope dispatch db h = let (_, _, _, _, p) = put_notice_frame _ db h in p

IsEscalated : ℕ → Table Delivery → Type 0
IsEscalated id rows = (d : Delivery) × (find rows id ≡ some d) × (d.escalated ≡ true)

put-IsEscalated :
    (id k r : ℕ) (x : Delivery) (rows rows' : Table Delivery)
    → put k r x rows ≡ ok rows'
    → k ≢ id
    → IsEscalated id rows
    → IsEscalated id rows'
unfolding IsEscalated
put-IsEscalated id k r x rows rows' h other (d, e, p) =
    (d, put-find_other k r x rows rows' id h other ∙ e, p)

put_escalated :
    (id : ℕ) (d : Delivery) (rows rows' : Table Delivery)
    → d.id ≡ id
    → put d.id d.id (record d { escalated = true }) rows ≡ ok rows'
    → IsEscalated id rows'
unfolding IsEscalated
put_escalated id d rows rows' named h = (
  record d { escalated = true },
  subst (λ i. find rows' i ≡ some (record d { escalated = true })) named
      (found rows' d.id (put-get d.id d.id (record d { escalated = true }) rows rows' h)),
  refl,
)

turned_again :
    (n : Notice) (scope : Scope) (id : ℕ) (db : Db)
    → IsEscalated id db.deliveries
    → turn_to_human n scope id db ≡ ok db
unfolding turn_to_human IsEscalated get
turned_again n scope id db (d, e, p) = ground arith

turned :
    (n : Notice) (scope : Scope) (id : ℕ) (db db' : Db) (d : Delivery)
    → find db.deliveries id ≡ some d
    → d.id ≡ id
    → n.delivery ≢ id
    → turn_to_human n scope id db ≡ ok db'
    → (db'.workers ≡ db.workers) × IsEscalated id db'.deliveries
unfolding turn_to_human human_escalation_tx human_delivery IsEscalated event
turned n scope id db db' d h named other k =
    let (e, g, k1) = ok_steps (get db.deliveries id) _ k in
    let same : e ≡ d = some-inj (sym (found db.deliveries id g) ∙ h) in
    let named' : e.id ≡ id = ap (λ x. x.id) same ∙ named in
    by_branch e.escalated (ok db) _ k1
      (λ p q.
        let last = ok-inj q in
        (
          ap (λ z. z.workers) (sym last),
          subst (λ z. IsEscalated id z.deliveries) last (e, found db.deliveries id g, p),
        ))
      (λ p q.
        let (deliveries, f, q1) =
          ok_steps (put e.id e.id (record e { escalated = true }) db.deliveries) _ q in
        let (x, put_x, q2) = ok_steps _ _ q1 in
        let (_, _, workers, _, put_n) =
          put_notice_frame _ (record db { deliveries = deliveries }) put_x in
        let last = ok-inj q2 in
        (
          ap (λ z. z.workers) (sym last) ∙ workers,
          subst (λ z. IsEscalated id z.deliveries) last
              (put-IsEscalated id n.delivery n.delivery (human_delivery n scope) deliveries
                x.1.deliveries put_n other (put_escalated id e db.deliveries deliveries named' f)),
        ))

-- A round that owes the escalation tells the human, or finds that it was told.
owed :
    (t : Timeouts) (n : Notice) (id : ℕ) (db db' : Db) (w : Worker)
    → get db.workers id ≡ ok w
    → (blocked_due t n.now w).1 ≡ true
    → escalate_blocked_tx t n id db ≡ ok db'
    → tell_human n w (first_active (list (λ d. d.worker_id == w.id) db.dispatches)) db ≡ ok db'
owed t n id db db' w h due k =
    let (w0, e, outcome) = alert_put t n id db db' k in
    let same : w0 ≡ w = cc in
    elim outcome [
      | inl (p, _) ↦
          let never : false ≡ true =
            ap (λ x. x.1) (sym p) ∙ ap (λ x. (blocked_due t n.now x).1) same ∙ due in
          cc
      | inr (inl (_, told)) ↦
          subst
            (λ x.
              tell_human n x (first_active (list (λ d. d.worker_id == x.id) db.dispatches)) db
              ≡ ok db')
            same told
      | inr (inr (p, _, _)) ↦
          let (_, _, first) = due_human t n.now w due in
          let never : true ≡ false = sym p ∙ ap (λ x. (blocked_due t n.now x).0) same ∙ first in cc
    ]

told_before :
    (n : Notice) (w : Worker) (d : Option Dispatch) (db db' : Db)
    → IsEscalated w.blocked_alert_delivery_id db.deliveries
    → tell_human n w d db ≡ ok db'
    → db'.messages ≡ db.messages
unfolding tell_human IsEscalated
told_before n w d db db' (a, e, p) h =
    let h' : tell_alert n w d (some a) db ≡ ok db' = ap (λ x. tell_alert n w d x db) (sym e) ∙ h in
    let (deliveries, _, h1) =
      ok_steps (put a.id a.id (record a { escalated = true }) db.deliveries) _ h' in
    let db1 = record db { deliveries = deliveries } in
    by_branch a.escalated _ (tell_blocked n false 0 w d db1) h1
      (λ _ k.
        let (workers, _, k1) =
          ok_steps (put w.id w.id (record w { blocked_escalated_at = n.now }) db.workers) _ k in
        ap (λ z. z.messages) (sym (ok-inj k1)))
      (λ q _. let never : true ≡ false = sym p ∙ q in cc)

told_after :
    (n : Notice) (w : Worker) (d : Option Dispatch) (db db' : Db) (a : Delivery)
    → find db.deliveries w.blocked_alert_delivery_id ≡ some a
    → a.id ≡ w.blocked_alert_delivery_id
    → n.delivery ≢ w.blocked_alert_delivery_id
    → tell_human n w d db ≡ ok db'
    → IsEscalated w.blocked_alert_delivery_id db'.deliveries
unfolding tell_human
told_after n w d db db' a e named other h =
    let id = w.blocked_alert_delivery_id in
    let h' : tell_alert n w d (some a) db ≡ ok db' = ap (λ x. tell_alert n w d x db) (sym e) ∙ h in
    let (deliveries, f, h1) =
      ok_steps (put a.id a.id (record a { escalated = true }) db.deliveries) _ h' in
    let db1 = record db { deliveries = deliveries } in
    let marks : IsEscalated id deliveries = put_escalated id a db.deliveries deliveries named f in
    by_branch a.escalated _ (tell_blocked n false 0 w d db1) h1
      (λ _ k.
        let (workers, _, k1) =
          ok_steps (put w.id w.id (record w { blocked_escalated_at = n.now }) db.workers) _ k in
        subst (λ z. IsEscalated id z.deliveries) (ok-inj k1) marks)
      (λ _ k.
        let (x, g, _, same, _) = tell_blocked_lem n false 0 w d db1 db' k in
        subst (IsEscalated id) (sym same) (
          put-IsEscalated id n.delivery n.delivery (human_delivery n (episode_scope w d)) deliveries
            x.1.deliveries (escalation_tx-put n (episode_scope w d) (episode_dispatch d) db1 g)
            other marks))

-- The message of a round to the human.
abbrev pub told_message : Notice → Worker → Option Dispatch → Message
told_message n w d = human_message n (episode_scope w d) (episode_dispatch d)

-- Turning a delivery to the human that was not turned before puts one message, to the human.
turned_tells :
    (n : Notice) (scope : Scope) (id : ℕ) (db db' : Db) (d : Delivery)
    → find db.deliveries id ≡ some d
    → d.escalated ≡ false
    → turn_to_human n scope id db ≡ ok db'
    → put n.message n.message (human_message n scope 0) db.messages ≡ ok db'.messages
unfolding turn_to_human human_escalation_tx human_message event
turned_tells n scope id db db' d h unseen k =
    let (e, g, k1) = ok_steps (get db.deliveries id) _ k in
    let same : e ≡ d = some-inj (sym (found db.deliveries id g) ∙ h) in
    by_branch e.escalated (ok db) _ k1
      (λ p _. let never : true ≡ false = sym p ∙ ap (λ x. x.escalated) same ∙ unseen in cc)
      (λ _ q.
        let (deliveries, _, q1) =
          ok_steps (put e.id e.id (record e { escalated = true }) db.deliveries) _ q in
        let (x, put_x, q2) = ok_steps _ _ q1 in
        put_notice_messages _ (record db { deliveries = deliveries }) put_x
        ∙ ap ok (ap {A = Db} (λ z. z.messages) (ok-inj q2)))

escalation_tx_tells :
    (n : Notice) (scope : Scope) (dispatch : ℕ) (db : Db) {x : Delivery × Db}
    → escalation_tx n scope dispatch 0 db ≡ ok x
    → put n.message n.message (human_message n scope dispatch) db.messages ≡ ok x.1.messages
unfolding escalation_tx human_message
escalation_tx_tells n scope dispatch db h = put_notice_messages _ db h

told_tells :
    (n : Notice) (w : Worker) (d : Option Dispatch) (db db' : Db) (a : Delivery)
    → find db.deliveries w.blocked_alert_delivery_id ≡ some a
    → a.escalated ≡ false
    → tell_human n w d db ≡ ok db'
    → put n.message n.message (told_message n w d) db.messages ≡ ok db'.messages
unfolding tell_human human_message
told_tells n w d db db' a e unseen h =
    let h' : tell_alert n w d (some a) db ≡ ok db' = ap (λ x. tell_alert n w d x db) (sym e) ∙ h in
    let (deliveries, _, h1) =
      ok_steps (put a.id a.id (record a { escalated = true }) db.deliveries) _ h' in
    let db1 = record db { deliveries = deliveries } in
    by_branch a.escalated _ (tell_blocked n false 0 w d db1) h1
      (λ p _. let never : true ≡ false = sym p ∙ unseen in cc)
      (λ _ k.
        let (x, g, _, _, same) = tell_blocked_lem n false 0 w d db1 db' k in
        escalation_tx_tells n (episode_scope w d) (episode_dispatch d) db1 g ∙ ap ok (sym same))

-- Where a worker, stored under its own id, owes the escalation of a block to the human, its alert's
-- delivery is stored under its own id and was not turned to the human before, and new ids are not in
-- use: turning that delivery to the human puts one message, to the human, and the round that commits
-- for the worker after it leaves the messages as they are; a round that commits for the worker first
-- puts one message, to the human, and turning the delivery to the human after it changes nothing.
pub human_told_once :
    (t : Timeouts) (n n1 : Notice) (scope : Scope) (id : ℕ) (w : Worker) (alert : Delivery)
    (db db1 db2 db3 : Db)
    → get db.workers id ≡ ok w
    → w.id ≡ id
    → (blocked_due t n.now w).1 ≡ true
    → find db.deliveries w.blocked_alert_delivery_id ≡ some alert
    → alert.id ≡ w.blocked_alert_delivery_id
    → alert.escalated ≡ false
    → n.delivery ≢ alert.id
    → n1.delivery ≢ alert.id
    → turn_to_human n1 scope alert.id db ≡ ok db1
    → escalate_blocked_tx t n id db1 ≡ ok db2
    → escalate_blocked_tx t n id db ≡ ok db3
    → ((put n1.message n1.message (human_message n1 scope 0) db.messages ≡ ok db1.messages)
        × (db2.messages ≡ db1.messages))
      × ((put n.message n.message
              (told_message n w (first_active (list (λ d. d.worker_id == w.id) db.dispatches)))
              db.messages
            ≡ ok db3.messages)
          × (turn_to_human n1 scope alert.id db3 ≡ ok db3))
human_told_once t n n1 scope id w alert db db1 db2 db3 h named due stored own unseen fresh fresh1 k
      k2 k3 =
    let stored' : find db.deliveries alert.id ≡ some alert =
      subst (λ i. find db.deliveries i ≡ some alert) (sym own) stored in
    let (workers, marks) = turned n1 scope alert.id db db1 alert stored' refl fresh1 k in
    let same : get db1.workers id ≡ ok w = ap (λ rows. get rows id) workers ∙ h in
    let round = owed t n id db db3 w h due k3 in
    let last : IsEscalated alert.id db3.deliveries =
      subst (λ i. IsEscalated i db3.deliveries) (sym own)
        (told_after n w _ db db3 alert stored own (subst (λ i. n.delivery ≢ i) own fresh) round) in
    (
      (
        turned_tells n1 scope alert.id db db1 alert stored' unseen k,
        told_before n w _ db1 db2 (subst (λ i. IsEscalated i db1.deliveries) own marks)
            (owed t n id db1 db2 w same due k2),
      ),
      (told_tells n w _ db db3 alert stored unseen round, turned_again n1 scope alert.id db3 last),
    )
