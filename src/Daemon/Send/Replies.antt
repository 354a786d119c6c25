-- ===== src/Daemon/Send/Replies.antt =====
-- A question is replied once (send of internal/daemon/messaging.go).
use herdr_woof.Prelude.{
  ℕ, ◌≡◌, ◌≢◌, refl, sym, ap, ◌∙◌, subst, Bool, true, false, not, ◌&&◌, List, [], ◌∷◌, ◌==◌, arith,
  none,
}
use herdr_woof.Prelude.Result.{ok, ok_steps, refuse_passed, by_branch, ok-inj}
use herdr_woof.Prelude.Text.{Text}
use herdr_woof.Daemon.Model.{
  Code, Scope, Worker, Message, MessageStatus, Delivery, Reply, OperationState,
}
use herdr_woof.Daemon.Store.{Db, Table, get, put, list, event}
use herdr_woof.Daemon.Store.Rows.{put-get, put-get_other}
use herdr_woof.Daemon.Settle.{finish_op}
use herdr_woof.Daemon.Mailbox.{
  AckArgs, delivery_belongs, ack_delivery, ack_all, acked, queued_delivery, put_deliveries,
  put_message, close_attempt,
}
use herdr_woof.Daemon.Send.{
  SendArgs, Sending, recipients, sent_message, mark_replied, is_asked, is_replied, numbered,
  put_for_human, is_human, question_ack, to_the_human, all_deliveries, announced, send_tx,
}

ack_delivery_frame :
    (now : ℕ) (consume : Bool) (d : Delivery) (db db' : Db)
    → ack_delivery now consume d db ≡ ok db'
    → db'.messages ≡ db.messages
unfolding ack_delivery
ack_delivery_frame now consume d db db' h =
    let (operations, _, h1) = ok_steps (close_attempt now d db.operations) _ h in
    let (deliveries, _, h2) = ok_steps (put d.id d.id (acked now consume d) db.deliveries) _ h1 in
    ap (λ z. z.messages) (sym (ok-inj h2))

ack_all_frame :
    (a : AckArgs) (message : ℕ) (ds : List Delivery) (db : Db) {x : List Delivery × Db}
    → ack_all a message ds db ≡ ok x
    → x.1.messages ≡ db.messages
unfolding ack_all
ack_all_frame a message [] db h = ap (λ (z : List Delivery × Db). z.1.messages) (sym (ok-inj h))
ack_all_frame a message (d ∷ ds) db h =
    by_branch
      (d.message_id == message && delivery_belongs a.caller a.scope.worker_id d.worker_id d.human) _
      (ack_all a message ds db) h
      (λ _ k.
        let (db1, e, k1) = ok_steps (ack_delivery a.now a.consume d db) _ k in
        let (y, f, k2) = ok_steps (ack_all a message ds db1) _ k1 in
        ap (λ (z : List Delivery × Db). z.1.messages) (sym (ok-inj k2))
        ∙ ack_all_frame a message ds db1 f
        ∙ ack_delivery_frame a.now a.consume d db db1 e)
      (λ _ k. ack_all_frame a message ds db k)

put_deliveries_frame :
    (now : ℕ) (m : Message) (ws : List (ℕ × Worker)) (db db' : Db)
    → put_deliveries now m ws db ≡ ok db'
    → db'.messages ≡ db.messages
unfolding put_deliveries event
put_deliveries_frame now m [] db db' h = ap (λ z. z.messages) (sym (ok-inj h))
put_deliveries_frame now m ((id, w) ∷ ws) db db' h =
    let (deliveries, _, h1) = ok_steps (put id id (queued_delivery now id m w) db.deliveries) _ h in
    put_deliveries_frame now m ws _ db' h1

put_for_human_frame :
    (a : SendArgs) (m : Message) (db db' : Db)
    → put_for_human a m db ≡ ok db'
    → db'.messages ≡ db.messages
unfolding put_for_human event
put_for_human_frame a m db db' h =
    by_branch (not (is_human m.to_kind)) (ok db) _ h (λ _ k. ap (λ z. z.messages) (sym (ok-inj k)))
      (λ _ k.
        let (deliveries, _, k1) =
          ok_steps (put a.new_human a.new_human (to_the_human a m) db.deliveries) _ k in
        ap (λ z. z.messages) (sym (ok-inj k1)))

announced_frame :
    (s : Sending) (scope : Scope) (m : Message) (db : Db)
    → (announced s scope m db).messages ≡ db.messages
unfolding event
announced_frame s scope m db = ground arith

not-inj : {b : Bool} → not b ≡ false → b ≡ true
not-inj {b = true} h = refl
not-inj {b = false} h = sym h

-- The question is marked.
mark_replied_lem :
    (a : SendArgs) (s : Sending) (scope : Scope) (db db' : Db)
    → s.reply_to ≢ 0
    → mark_replied a s scope db ≡ ok db'
    → (q : Message) × (get db.messages s.reply_to ≡ ok q)
      × (is_replied q.status ≡ false)
      × (is_asked a.caller scope q ≡ true)
      × (put q.id q.id (record q { status = MessageStatus.replied }) db.messages ≡ ok db'.messages)
unfolding mark_replied
mark_replied_lem a s scope db db' asked h =
    by_branch (s.reply_to == 0) (ok db) _ h (λ p _. absurd (asked (ground arith)))
      (λ _ k.
        let (q, e, k1) = ok_steps (get db.messages s.reply_to) _ k in
        let (open_still, k2) = refuse_passed (is_replied q.status) Code.already_replied _ k1 in
        let (is_his, k3) =
          refuse_passed (not (is_asked a.caller scope q)) Code.wrong_recipient _ k2 in
        let (messages, f, k4) =
          ok_steps (put q.id q.id (record q { status = MessageStatus.replied }) db.messages) _ k3 in
        let (x, g, k5) =
          ok_steps
            (ack_all (question_ack a scope q.id) q.id (list (λ d. true) db.deliveries)
              (record db { messages = messages }))
            _ k4 in
        let same =
          ack_all_frame (question_ack a scope q.id) q.id (list (λ d. true) db.deliveries)
            (record db { messages = messages }) g in
        (q, e, open_still, not-inj is_his, f ∙ ap ok (sym same ∙ ap (λ z. z.messages) (ok-inj k5))))

reply_put :
    (a : SendArgs) (s : Sending) (refs : List Text) (db db' : Db)
    → s.reply_to ≢ 0
    → send_tx a s refs db ≡ ok db'
    → (scope : Scope) × (q : Message) × (m : Message) × (rows : Table Message) × (get db.messages
          s.reply_to
        ≡ ok q)
      × (is_replied q.status ≡ false)
      × (is_asked a.caller scope q ≡ true)
      × (put q.id q.id (record q { status = MessageStatus.replied }) db.messages ≡ ok rows)
      × (put a.new_message a.new_message m rows ≡ ok db'.messages)
unfolding send_tx put_message sent_message
reply_put a s refs db db' asked h =
    let ((ws, scope), _, h1) = ok_steps (recipients s db) _ h in
    let m = sent_message a s scope refs in
    let (db1, e1, h2) = ok_steps (mark_replied a s scope db) _ h1 in
    let (db2, e2, h3) = ok_steps (put_message a.now m (numbered a ws) db1) _ h2 in
    let (db3, e3, h4) = ok_steps (put_for_human a m db2) _ h3 in
    let (q, found_q, still, his, f) = mark_replied_lem a s scope db db1 asked e1 in
    let (messages, g, e4) = ok_steps (put a.new_message a.new_message m db1.messages) _ e2 in
    let (operations, _, h5) =
      ok_steps
        (finish_op a.now a.request (Reply.sent m (all_deliveries a m ws)) none
          OperationState.completed (announced s scope m db3).operations)
        _ h4 in
    let last : db'.messages ≡ messages =
      ap (λ z. z.messages) (sym (ok-inj h5))
      ∙ announced_frame s scope m db3
      ∙ put_for_human_frame a m db2 db3 e3
      ∙ put_deliveries_frame a.now m (numbered a ws) (record db1 { messages = messages }) db2 e4 in
    (scope, q, m, db1.messages, found_q, still, his, f, g ∙ ap ok (sym last))

-- Where a reply commits, its question is stored under its own id and the reply has a new id: the
-- question had no reply, the one who replies is its recipient, the question is marked, and no other
-- reply to it commits on the new database, whoever sends it.
pub send_tx_replies_once :
    (a : SendArgs) (s : Sending) (refs : List Text) (db db' : Db) (q : Message)
    → s.reply_to ≢ 0
    → get db.messages s.reply_to ≡ ok q
    → q.id ≡ s.reply_to
    → a.new_message ≢ s.reply_to
    → send_tx a s refs db ≡ ok db'
    → (is_replied q.status ≡ false)
      × ((scope : Scope) × (is_asked a.caller scope q ≡ true))
      × (get db'.messages s.reply_to ≡ ok (record q { status = MessageStatus.replied }))
      × ((a' : SendArgs) (s' : Sending) (refs' : List Text) (db'' : Db)
          → s'.reply_to ≡ s.reply_to
          → send_tx a' s' refs' db' ≢ ok db'')
send_tx_replies_once a s refs db db' q asked h named fresh k =
    let (scope, q0, m, rows, h0, still, his, f, g) = reply_put a s refs db db' asked k in
    let same : q0 ≡ q = cc in
    let marked : get rows s.reply_to ≡ ok (record q { status = MessageStatus.replied }) =
      subst (λ i. get rows i ≡ ok (record q { status = MessageStatus.replied })) named
        (subst (λ x. get rows x.id ≡ ok (record x { status = MessageStatus.replied })) same
          (put-get q0.id q0.id (record q0 { status = MessageStatus.replied }) db.messages rows
            f)) in
    let stored : get db'.messages s.reply_to ≡ ok (record q { status = MessageStatus.replied }) =
      put-get_other a.new_message a.new_message m rows db'.messages s.reply_to g fresh ∙ marked in
    (
      ap (λ x. is_replied x.status) (sym same) ∙ still,
      (scope, ap (is_asked a.caller scope) (sym same) ∙ his),
      stored,
      λ a' s' refs' db'' to again.
          let (_, q1, _, _, h1, still', _, _, _) =
            reply_put a' s' refs' db' db'' (subst (λ i. i ≢ 0) (sym to) asked) again in
          let same' : q1 ≡ record q { status = MessageStatus.replied } = cc in
          let never : true ≡ false = ap (λ x. is_replied x.status) (sym same') ∙ still' in cc,
    )
