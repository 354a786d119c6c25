-- ===== src/Daemon/Lifecycle/Alerts.antt =====
-- The alerts of internal/daemon/watchdog.go in the life of a dispatch: they only inform.
use herdr_woof.Prelude.{
  ℕ, ◌≡◌, inl, inr, refl, sym, ap, ◌∙◌, subst, Bool, true, false, not, ◌||◌, some, ◌==◌,
}
use herdr_woof.Prelude.Result.{ok}
use herdr_woof.Daemon.Model.{Alert, Dispatch, active_dispatch}
use herdr_woof.Daemon.Store.{Db, Table, find, put_dispatch, list}
use herdr_woof.Daemon.Store.Rows.{found}
use herdr_woof.Daemon.Store.Listed.{list-Listed}
use herdr_woof.Daemon.Watchdog.{
  Notice, Timeouts, has_alert, with_alert, escalate_tx, escalate_blocked_tx,
}
use herdr_woof.Daemon.Watchdog.Once.{escalate_put}
use herdr_woof.Daemon.Watchdog.Dispatches.{escalate_blocked-IsAlerted, first_active_found}
use herdr_woof.Daemon.Lifecycle.{Evolves, IsSound, AreSound, IsAdvance}
use herdr_woof.Daemon.Lifecycle.Steps.{over-IsAdvance, still-IsAdvance}

with_alert-Evolves :
    (why : Alert) (d : Dispatch) → active_dispatch d ≡ true → Evolves d (with_alert why d)
unfolding with_alert
with_alert-Evolves why d a = record {
  same_id = refl;
  same_worker = refl;
  same_baseline = refl;
  final = λ p. (let never : true ≡ false = sym a ∙ p in cc);
  same_report = λ _. (refl, refl, refl);
  same_end = λ h. (h, refl);
}

with_alert-IsSound : (why : Alert) (d : Dispatch) → IsSound d → IsSound (with_alert why d)
unfolding with_alert
with_alert-IsSound why d s = record {
  settled_ended = s.settled_ended;
  settled_reported = s.settled_reported;
  settled_outcome = s.settled_outcome;
  end_later = s.end_later;
  done_reported = s.done_reported;
}

-- An active dispatch with a new alert.
alerted-IsAdvance :
    {rows rows' : Table Dispatch} (why : Alert) (d : Dispatch)
    → AreSound rows
    → active_dispatch d ≡ true
    → find rows d.id ≡ some d
    → put_dispatch d.id (with_alert why d) rows ≡ ok rows'
    → IsAdvance rows rows'
alerted-IsAdvance why d s a h k =
    over-IsAdvance s d.id d (with_alert why d) h k (with_alert-Evolves why d a)
      (with_alert-IsSound why d (s.sound d.id d h))

still_active : (b c : Bool) → (b || not c) ≡ false → c ≡ true
still_active false true h = refl
still_active false false h = sym h
still_active true c h = cc

pub escalate-IsAdvance :
    (n : Notice) (why : Alert) (id : ℕ) (db db' : Db)
    → AreSound db.dispatches
    → escalate_tx n why id db ≡ ok db'
    → IsAdvance db.dispatches db'.dispatches
escalate-IsAdvance n why id db db' s h =
    let (d, e, outcome) = escalate_put n why id db db' h in
    elim outcome [
      | inl (_, same) ↦ still-IsAdvance s (ap (λ z. z.dispatches) same)
      | inr (fresh, k) ↦
          let old = found db.dispatches id e in
          alerted-IsAdvance why d s
            (still_active (has_alert why d.alerts) (active_dispatch d) fresh)
            (subst (λ i. find db.dispatches i ≡ some d) (sym (s.named id d old)) old) k
    ]

pub escalate_blocked-IsAdvance :
    (t : Timeouts) (n : Notice) (id : ℕ) (db db' : Db)
    → AreSound db.dispatches
    → escalate_blocked_tx t n id db ≡ ok db'
    → IsAdvance db.dispatches db'.dispatches
escalate_blocked-IsAdvance t n id db db' s h =
    let (w, outcome) = escalate_blocked-IsAlerted t n id db db' h in
    elim outcome [
      | inl same ↦ still-IsAdvance s same
      | inr (why, d, first, k) ↦
          let (a, stored) =
            first_active_found db.dispatches 0 (list (λ x. x.worker_id == w.id) db.dispatches) d
              (list-Listed (λ (x : Dispatch). x.id) (λ x. x.worker_id == w.id) db.dispatches 0
                s.sorted (λ i x _ p. s.named i x p))
              first in
          alerted-IsAdvance why d s a stored k
    ]
