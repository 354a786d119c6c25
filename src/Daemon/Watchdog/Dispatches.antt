-- ===== src/Daemon/Watchdog/Dispatches.antt =====
-- The dispatch that a block alert puts (escalateBlocked of internal/daemon/watchdog.go): the worker's
-- active one, with the reason among its alerts.
use herdr_woof.Prelude.{
  ℕ, ◌≡◌, ◌⊎◌, inl, inr, sym, ap, ◌∙◌, subst, Bool, true, false, not, ◌&&◌, Option, some, none,
  List, [], ◌∷◌, ◌==◌, if◌then◌else◌, Bool-cases,
}
use herdr_woof.Prelude.Result.{ok, ok_steps, by_branch, ok-inj}
use herdr_woof.Daemon.Model.{Alert, Worker, Delivery, Dispatch, active_dispatch}
use herdr_woof.Daemon.Store.{Db, Table, find, get, put, put_dispatch, list}
use herdr_woof.Daemon.Store.Rows.{some-inj}
use herdr_woof.Daemon.Store.Listed.{Listed}
use herdr_woof.Daemon.Watchdog.{
  Timeouts, Notice, blocked_due, escalation_tx, marked, tell_blocked, tell_human, tell_alert,
  escalate_blocked_tx, episode_scope, episode_dispatch, episode_run, requester, alert_of,
  with_alert, first_active,
}
use herdr_woof.Daemon.Watchdog.Once.{escalation_tx_frame}
use herdr_woof.Daemon.Watchdog.Episode.{record_alert_put}

-- Nothing, or the active dispatch with a new alert.
abbrev pub IsAlerted : Option Dispatch → Table Dispatch → Table Dispatch → Type 0
IsAlerted d rows rows' =
    (rows' ≡ rows)
    ⊎ ((why : Alert) × (e : Dispatch) × (d ≡ some e)
        × (put_dispatch e.id (with_alert why e) rows ≡ ok rows'))

tell_blocked-IsAlerted :
    (n : Notice) (first : Bool) (candidate : ℕ) (w : Worker) (d : Option Dispatch) (db db' : Db)
    → tell_blocked n first candidate w d db ≡ ok db'
    → IsAlerted d db.dispatches db'.dispatches
unfolding tell_blocked
tell_blocked-IsAlerted n first candidate w d db db' h =
    let (x, e, h1) =
      ok_steps (escalation_tx n (episode_scope w d) (episode_dispatch d) candidate db) _ h in
    let (same, _) = escalation_tx_frame n (episode_scope w d) (episode_dispatch d) candidate db e in
    let (workers, _, h2) = ok_steps (put w.id w.id (marked n.now first x.0 w) x.1.workers) _ h1 in
    elim (record_alert_put (alert_of first) w d (record x.1 { workers = workers }) db' h2) [
      | inl p ↦ inl (p ∙ same)
      | inr (e, p, q) ↦ inr (
        alert_of first,
        e,
        p,
        subst (λ rows. put_dispatch e.id (with_alert (alert_of first) e) rows ≡ ok db'.dispatches)
            same q,
      )
    ]

tell_alert-IsAlerted :
    (n : Notice) (w : Worker) (d : Option Dispatch) (alert : Option Delivery) (db db' : Db)
    → tell_alert n w d alert db ≡ ok db'
    → IsAlerted d db.dispatches db'.dispatches
tell_alert-IsAlerted n w d none db db' h = tell_blocked-IsAlerted n false 0 w d db db' h
tell_alert-IsAlerted n w d (some a) db db' h =
    let (deliveries, _, h1) =
      ok_steps (put a.id a.id (record a { escalated = true }) db.deliveries) _ h in
    let db1 = record db { deliveries = deliveries } in
    by_branch a.escalated _ (tell_blocked n false 0 w d db1) h1
      (λ _ k.
        let (workers, _, k1) =
          ok_steps (put w.id w.id (record w { blocked_escalated_at = n.now }) db.workers) _ k in
        inl (ap (λ z. z.dispatches) (sym (ok-inj k1))))
      (λ _ k. tell_blocked-IsAlerted n false 0 w d db1 db' k)

abbrev active_of : Worker → Table Dispatch → Option Dispatch
active_of w rows = first_active (list (λ d. d.worker_id == w.id) rows)

pub escalate_blocked-IsAlerted :
    (t : Timeouts) (n : Notice) (id : ℕ) (db db' : Db)
    → escalate_blocked_tx t n id db ≡ ok db'
    → (w : Worker) × IsAlerted
        (first_active (list (λ d. d.worker_id == w.id) db.dispatches))
        db.dispatches
        db'.dispatches
unfolding escalate_blocked_tx tell_human
escalate_blocked-IsAlerted t n id db db' h =
    let (w, _, h1) = ok_steps (get db.workers id) _ h in
    let d = active_of w db.dispatches in
    (
      w,
      by_branch (not (blocked_due t n.now w).0 && not (blocked_due t n.now w).1) (ok db) _ h1
          (λ _ k. inl (ap (λ z. z.dispatches) (sym (ok-inj k))))
          (λ _ k.
            by_branch (blocked_due t n.now w).1 (tell_human n w d db) _ k
              (λ _ k1.
                tell_alert-IsAlerted n w d (find db.deliveries w.blocked_alert_delivery_id) db db'
                  k1)
              (λ _ k1.
                tell_blocked-IsAlerted n true (requester w (episode_run w d) db.runs) w d db db'
                  k1)),
    )

-- The first active dispatch of a list that was read from the table.
pub first_active_found :
    (rows : Table Dispatch) (low : ℕ) (ds : List Dispatch) (e : Dispatch)
    → Listed (λ d. d.id) rows low ds
    → first_active ds ≡ some e
    → (active_dispatch e ≡ true) × (find rows e.id ≡ some e)
unfolding first_active
first_active_found rows low [] e l h = cc
first_active_found rows low (d ∷ ds) e (p, q, l) h = elim (Bool-cases (active_dispatch d)) [
  | inl a ↦
      let same : d ≡ e = some-inj (sym (ap (λ b. if b then some d else first_active ds) a) ∙ h) in
      subst (λ x. (active_dispatch x ≡ true) × (find rows x.id ≡ some x)) same (a, q)
  | inr a ↦
      first_active_found rows d.id ds e l
        (sym (ap (λ b. if b then some d else first_active ds) a) ∙ h)
]
