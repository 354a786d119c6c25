-- ===== src/Daemon/Lifecycle/Repeat.antt =====
-- A report that is repeated (done of internal/daemon/dispatch.go).
use herdr_woof.Prelude.{
  ℕ, ◌≡◌, ◌≢◌, sym, ap, ◌∙◌, subst, true, false, not, ◌&&◌, ◌||◌, some, List, ◌==◌, if◌then◌else◌,
  arith, inl, inr, Bool-cases,
}
use herdr_woof.Prelude.Result.{ok, err, ok_steps, refuse, refuse_passed, ◌>>◌}
use herdr_woof.Prelude.Text.{Text}
use herdr_woof.Daemon.Model.{Code, Worker, Dispatch, Outcome}
use herdr_woof.Daemon.Store.{Db, find, get, put_dispatch}
use herdr_woof.Daemon.Store.Rows.{found, find-put_row}
use herdr_woof.Daemon.Report.{
  Report, DoneArgs, done_tx, record_report, with_report, reported, settled, finish_done,
  same_outcome, report_outcome_of,
}
use herdr_woof.Daemon.Lifecycle.{AreSound}
use herdr_woof.Daemon.Lifecycle.Advance.{put_dispatch_lem}
use herdr_woof.Daemon.Lifecycle.Puts.{record_put, record_workers}

-- What stands in the database after a report by `a`.
record IsReported (a : DoneArgs) (db : Db) (d : Dispatch) (w : Worker) : Type 0 where
  stored : get db.dispatches a.dispatch ≡ ok d
  worker : get db.workers d.worker_id ≡ ok w
  dispatch_attached : d.attachment_id ≡ a.attachment
  worker_attached : w.attachment_id ≡ a.attachment
  own : not (a.caller_worker == 0) && not (a.caller_worker == d.worker_id) ≡ false
  has_message : d.done_message_id ≢ 0
  has_outcome : d.report_outcome ≡ report_outcome_of a.outcome

with_report_facts :
    (a : DoneArgs) (w : Worker) (d : Dispatch)
    → ((with_report a w d).worker_id ≡ d.worker_id)
      × ((with_report a w d).attachment_id ≡ d.attachment_id)
      × ((with_report a w d).done_message_id ≡ a.new_message)
      × ((with_report a w d).report_outcome ≡ report_outcome_of a.outcome)
unfolding with_report reported settled
with_report_facts a w d = (ground arith, ground arith, ground arith, ground arith)

same_outcome_lem :
    (o : Outcome) (r : Report)
    → same_outcome o (report_outcome_of r) ≡ true
    → o ≡ report_outcome_of r
same_outcome_lem o r h = ground arith

same_outcome_refl : (r : Report) → same_outcome (report_outcome_of r) (report_outcome_of r) ≡ true
same_outcome_refl r = ground arith

pub stored_lem :
    (id : ℕ) (d : Dispatch) (db db' : Db)
    → put_dispatch id d db.dispatches ≡ ok db'.dispatches
    → get db'.dispatches id ≡ ok d
unfolding get
stored_lem id d db db' h =
    let (_, _, _, e) = put_dispatch_lem id d db.dispatches h in
    let f : find db'.dispatches id ≡ some d =
      ap (λ t. find t id) e ∙ find-put_row db.dispatches id id d ∙ ground arith in
    ground (arith, f)

first_report :
    (a : DoneArgs) (refs : List Text) (db db' : Db) (d : Dispatch) (w : Worker)
    → d.id ≡ a.dispatch
    → get db.workers d.worker_id ≡ ok w
    → d.attachment_id ≡ a.attachment
    → w.attachment_id ≡ a.attachment
    → not (a.caller_worker == 0) && not (a.caller_worker == d.worker_id) ≡ false
    → record_report a refs w d db ≡ ok db'
    → IsReported a db' (with_report a w d) w
first_report a refs db db' d w named p e f own h =
    let (active, fresh, q) = record_put a refs w d db h in
    let (s1, s2, s3, s4) = with_report_facts a w d in
    record {
      stored =
          subst (λ i. get db'.dispatches i ≡ ok (with_report a w d)) named
            (stored_lem d.id (with_report a w d) db db' q);
      worker =
          ap (λ t. get t (with_report a w d).worker_id) (record_workers a refs w d db db' h)
          ∙ ap (get db.workers) s1
          ∙ p;
      dispatch_attached = s2 ∙ e;
      worker_attached = f;
      own = ap (λ i. not (a.caller_worker == 0) && not (a.caller_worker == i)) s1 ∙ own;
      has_message = λ z. fresh (sym s3 ∙ z);
      has_outcome = s4;
    }

repeated :
    (a : DoneArgs) (db db' : Db) (d : Dispatch) (w : Worker)
    → get db.dispatches a.dispatch ≡ ok d
    → get db.workers d.worker_id ≡ ok w
    → d.attachment_id ≡ a.attachment
    → w.attachment_id ≡ a.attachment
    → not (a.caller_worker == 0) && not (a.caller_worker == d.worker_id) ≡ false
    → d.done_message_id ≢ 0
    → (refuse
          (not (same_outcome d.report_outcome (report_outcome_of a.outcome)))
          Code.report_conflict
        >> finish_done a d db)
      ≡ ok db'
    → IsReported a db' d w
repeated a db db' d w s p e f own m h =
    let (same, h1) =
      refuse_passed (not (same_outcome d.report_outcome (report_outcome_of a.outcome)))
        Code.report_conflict (finish_done a d db) h in
    let t1 : db'.dispatches ≡ db.dispatches = ground (arith, h1) in
    let t2 : db'.workers ≡ db.workers = ground (arith, h1) in
    record {
      stored = ap (λ t. get t a.dispatch) t1 ∙ s;
      worker = ap (λ t. get t d.worker_id) t2 ∙ p;
      dispatch_attached = e;
      worker_attached = f;
      own = own;
      has_message = m;
      has_outcome = same_outcome_lem d.report_outcome a.outcome (ground (arith, same));
    }

done_tx-IsReported :
    (a : DoneArgs) (refs : List Text) (db db' : Db)
    → AreSound db.dispatches
    → done_tx a refs db ≡ ok db'
    → (d : Dispatch) × (w : Worker) × IsReported a db' d w
unfolding done_tx
done_tx-IsReported a refs db db' s h =
    let (d, p, h1) = ok_steps (get db.dispatches a.dispatch) _ h in
    let (w, q, h2) = ok_steps (get db.workers d.worker_id) _ h1 in
    let (b1, h3) =
      refuse_passed (not (d.attachment_id == a.attachment) || not (w.attachment_id == a.attachment))
        Code.stale_attachment _ h2 in
    let (b2, h4) =
      refuse_passed (not (a.caller_worker == 0) && not (a.caller_worker == d.worker_id))
        Code.wrong_worker _ h3 in
    let e : d.attachment_id ≡ a.attachment = ground (arith, b1) in
    let f : w.attachment_id ≡ a.attachment = ground (arith, b1) in
    let named = s.named a.dispatch d (found db.dispatches a.dispatch p) in
    elim (Bool-cases (d.done_message_id == 0)) [
      | inl z ↦ (
        with_report a w d,
        w,
        first_report a refs db db' d w named q e f b2 (ground (arith, h4, z)),
      )
      | inr z ↦ (d, w, repeated a db db' d w p q e f b2 (ground (arith, z)) (ground (arith, h4, z)))
    ]

second_report :
    (b : DoneArgs) (refs : List Text) (db : Db) (d : Dispatch) (w : Worker)
    → get db.dispatches b.dispatch ≡ ok d
    → get db.workers d.worker_id ≡ ok w
    → (not (d.attachment_id == b.attachment) || not (w.attachment_id == b.attachment)) ≡ false
    → (not (b.caller_worker == 0) && not (b.caller_worker == d.worker_id)) ≡ false
    → (d.done_message_id == 0) ≡ false
    → done_tx b refs db ≡ (
        if same_outcome d.report_outcome (report_outcome_of b.outcome)
        then finish_done b d db
        else err Code.report_conflict)
unfolding done_tx
second_report b refs db d w p q e f m = ground arith

-- After a report of a dispatch in a sound table, another report of it by the same caller and
-- attachment, with any texts, finds a stored dispatch: where its outcome is the recorded one it does
-- no more than to finish its own receipt with that dispatch for its answer, and otherwise it is
-- refused as a conflict.
pub done_tx_repeated :
    (a b : DoneArgs) (refs refs' : List Text) (db db' : Db)
    → AreSound db.dispatches
    → done_tx a refs db ≡ ok db'
    → b.dispatch ≡ a.dispatch
    → b.attachment ≡ a.attachment
    → b.caller_worker ≡ a.caller_worker
    → (d : Dispatch) × (get db'.dispatches a.dispatch ≡ ok d)
      × (done_tx b refs' db' ≡ (
          if same_outcome (report_outcome_of a.outcome) (report_outcome_of b.outcome)
          then finish_done b d db'
          else err Code.report_conflict))
done_tx_repeated a b refs refs' db db' s h e1 e2 e3 =
    let (d, w, r) = done_tx-IsReported a refs db db' s h in
    let attached : (not (d.attachment_id == b.attachment) || not (w.attachment_id == b.attachment))
        ≡ false =
      ground (arith, r.dispatch_attached, r.worker_attached, e2) in
    let own : (not (b.caller_worker == 0) && not (b.caller_worker == d.worker_id)) ≡ false =
      ap (λ c. not (c == 0) && not (c == d.worker_id)) e3 ∙ r.own in
    let m : (d.done_message_id == 0) ≡ false = ground (arith, r.has_message) in
    (
      d,
      r.stored,
      second_report b refs' db' d w (ap (get db'.dispatches) e1 ∙ r.stored) r.worker attached own m
          ∙ ap
              (λ o.
                if same_outcome o (report_outcome_of b.outcome)
                then finish_done b d db'
                else err Code.report_conflict)
              r.has_outcome,
    )
