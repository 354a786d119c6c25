-- ===== src/Daemon/SendExamples.antt =====
-- A question and its reply (send of internal/daemon/messaging.go): tests of the handler, and the
-- theorem at these inputs.
use herdr_woof.Prelude.{ℕ, ◌+◌, ◌≡◌, ◌≢◌, refl, true, false, List, [], arith}
use herdr_woof.Prelude.Result.{ok, err}
use herdr_woof.Prelude.Text.{Text, codes}
use herdr_woof.Daemon.Model.{
  Code, Scope, Message, MessageKind, MessageStatus, Recipient, Actor, terminal_recipient,
}
use herdr_woof.Daemon.Store.{Db, find, get, put, put_row, list, event}
use herdr_woof.Daemon.Settle.{finish_op, is_finished, with_outcome}
use herdr_woof.Daemon.Dispatch.{is_blank, is_space}
use herdr_woof.Daemon.Mailbox.{
  delivery_belongs, ack_all, ack_delivery, acked, acked_wake, queued_delivery, put_deliveries,
  put_message,
}
use herdr_woof.Daemon.Watchdog.{human_delivery}
use herdr_woof.Daemon.Examples.{start, value}
use herdr_woof.Daemon.Send.{
  SendArgs, SendOp, Sending, Target, send_message, send_tx, sending_of, resolve_worker, recipients,
  sent_message, mark_replied, is_asked, is_replied, put_for_human, all_deliveries,
}
use herdr_woof.Daemon.Send.Replies.{send_tx_replies_once}

abbrev place : Scope
place = record { session_id = 2; workspace_id = 3; worktree_id = 0; run_id = 0; worker_id = 0 }

abbrev args : ℕ → SendOp → ℕ → ℕ → SendArgs
args request op caller id = record {
  request = request;
  op = op;
  caller = caller;
  scope = place;
  kind = MessageKind.message;
  to = Target.worker 4;
  question = 50;
  subject = [];
  body = codes "Ready?";
  artifacts = ok [];
  new_message = id;
  new_delivery = λ w. id + w;
  new_human = id + 5;
  now = 100;
}

-- The question goes to the worker by its name.
abbrev asked : Db
asked = value (send_message (args 10 SendOp.ask 0 50) start)

abbrev reply : Sending
reply = record { kind = MessageKind.reply; to = Target.human; scope = place; reply_to = 50 }

abbrev replied : Db
replied = value (send_tx (args 11 SendOp.reply 1 60) reply [] asked)

-- What a test computes with.
post : Unit {0}
unfolding send_message send_tx sending_of resolve_worker recipients sent_message mark_replied
    is_asked put_for_human all_deliveries delivery_belongs ack_all ack_delivery acked acked_wake
    queued_delivery put_deliveries put_message human_delivery find get put put_row list event
    finish_op is_finished with_outcome is_blank is_space terminal_recipient
post = tt

abbrev question : Message
question = record {
  id = 50;
  scope = place;
  from_kind = Actor.human;
  from_worker_id = 0;
  to_kind = Recipient.worker;
  to_id = 1;
  subject = [];
  kind = MessageKind.question;
  status = MessageStatus.persisted;
  reply_to_message_id = 0;
  body = codes "Ready?";
  artifacts = [];
  dispatch_id = 0;
  schedule_run_id = 0;
  created_at = 100;
}

asked_test : get asked.messages 50 ≡ ok question
unfolding post
asked_test = refl

-- The handler sends the reply in this form.
reply_test : send_message (args 11 SendOp.reply 1 60) asked ≡ ok replied
unfolding post
reply_test = refl

again_test : send_message (args 12 SendOp.reply 1 70) replied ≡ err Code.already_replied
unfolding post
again_test = refl

reply_runs : send_tx (args 11 SendOp.reply 1 60) reply [] asked ≡ ok replied
unfolding post
reply_runs = refl

send_tx_replies_once_example :
    (is_replied question.status ≡ false)
    × ((scope : Scope) × (is_asked 1 scope question ≡ true))
    × (get replied.messages 50 ≡ ok (record question { status = MessageStatus.replied }))
    × ((a' : SendArgs) (s' : Sending) (refs' : List Text) (db'' : Db)
        → s'.reply_to ≡ 50
        → send_tx a' s' refs' replied ≢ ok db'')
send_tx_replies_once_example =
    send_tx_replies_once (args 11 SendOp.reply 1 60) reply [] asked replied question (omega arith)
      asked_test refl (omega arith) reply_runs
