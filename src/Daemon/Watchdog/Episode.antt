-- ===== src/Daemon/Watchdog/Episode.antt =====
-- The alerts of a worker that stays blocked (escalateBlocked of internal/daemon/watchdog.go): one
-- alert and one escalation to the human in an episode.
use herdr_woof.Prelude.{
  ℕ, ◌≡◌, ◌≢◌, ◌⊎◌, inl, inr, refl, sym, ap, ◌∙◌, subst, Bool, true, false, not, ◌&&◌, Option, some,
  none, ◌==◌, arith,
}
use herdr_woof.Prelude.Result.{ok, ok_steps, by_branch, ok-inj}
use herdr_woof.Daemon.Model.{Alert, Worker, Delivery, Dispatch, clear_blocked}
use herdr_woof.Daemon.Store.{Db, get, put, put_dispatch, list, event}
use herdr_woof.Daemon.Watchdog.{
  Timeouts, Notice, blocked_due, escalation_tx, marked, tell_blocked, tell_human,
  escalate_blocked_tx, episode_scope, episode_dispatch, episode_run, requester, record_alert,
  alert_of, with_alert, first_active,
}
use herdr_woof.Daemon.Watchdog.Once.{escalation_tx_frame}

-- Only the marks of the episode differ.
abbrev pub IsSameEpisode : Worker → Worker → Type 0
IsSameEpisode w w' = (clear_blocked w' ≡ clear_blocked w) × (w'.blocked_at ≡ w.blocked_at)

-- What the episode owes no more.
abbrev pub OwesNoFirst : Timeouts → Worker → Type 0
OwesNoFirst t w = (now : ℕ) → (blocked_due t now w).0 ≡ false

abbrev pub OwesNothing : Timeouts → Worker → Type 0
OwesNothing t w = (now : ℕ) → blocked_due t now w ≡ (false, false)

pub due_human :
    (t : Timeouts) (now : ℕ) (w : Worker)
    → (blocked_due t now w).1 ≡ true
    → (now ≢ 0) × (w.blocked_alerted_at ≢ 0) × ((blocked_due t now w).0 ≡ false)
unfolding blocked_due
due_human t now w h = (ground arith, ground arith, ground arith)

-- The dispatch that an alert of its worker puts.
pub record_alert_put :
    (why : Alert) (w : Worker) (d : Option Dispatch) (db db' : Db)
    → record_alert why w d db ≡ ok db'
    → (db'.dispatches ≡ db.dispatches)
      ⊎ ((e : Dispatch) × (d ≡ some e)
          × (put_dispatch e.id (with_alert why e) db.dispatches ≡ ok db'.dispatches))
unfolding event
record_alert_put why w none db db' h = inl (ap (λ z. z.dispatches) (sym (ok-inj h)))
record_alert_put why w (some e) db db' h =
    let (dispatches, f, h1) = ok_steps (put_dispatch e.id (with_alert why e) db.dispatches) _ h in
    inr (e, refl, f ∙ ap ok (ap (λ z. z.dispatches) (ok-inj h1)))

record_alert_frame :
    (why : Alert) (w : Worker) (d : Option Dispatch) (db : Db) {db' : Db}
    → record_alert why w d db ≡ ok db'
    → (db'.workers ≡ db.workers) × (db'.deliveries ≡ db.deliveries) × (db'.messages ≡ db.messages)
unfolding event
record_alert_frame why w none db {db' = db'} h =
    subst {A = Db}
      (λ z. (z.workers ≡ db.workers) × (z.deliveries ≡ db.deliveries) × (z.messages ≡ db.messages))
      (ok-inj h) (refl, refl, refl)
record_alert_frame why w (some d) db {db' = db'} h =
    let (_, _, h1) = ok_steps (put_dispatch d.id (with_alert why d) db.dispatches) _ h in
    subst {A = Db}
      (λ z. (z.workers ≡ db.workers) × (z.deliveries ≡ db.deliveries) × (z.messages ≡ db.messages))
      (ok-inj h1) (refl, refl, refl)

pub tell_blocked_lem :
    (n : Notice) (first : Bool) (candidate : ℕ) (w : Worker) (d : Option Dispatch) (db db' : Db)
    → tell_blocked n first candidate w d db ≡ ok db'
    → (x : Delivery × Db) × (escalation_tx n (episode_scope w d) (episode_dispatch d) candidate db
        ≡ ok x)
      × (put w.id w.id (marked n.now first x.0 w) x.1.workers ≡ ok db'.workers)
      × (db'.deliveries ≡ x.1.deliveries)
      × (db'.messages ≡ x.1.messages)
unfolding tell_blocked
tell_blocked_lem n first candidate w d db db' h =
    let (x, e, h1) =
      ok_steps (escalation_tx n (episode_scope w d) (episode_dispatch d) candidate db) _ h in
    let (workers, f, h2) = ok_steps (put w.id w.id (marked n.now first x.0 w) x.1.workers) _ h1 in
    let (p, q, r) = record_alert_frame (alert_of first) w d (record x.1 { workers = workers }) h2 in
    (x, e, f ∙ ap ok (sym p), q, r)

-- What an escalation to the human leaves of the worker.
IsTold : ℕ → Worker → Worker → Type 0
IsTold now w w' =
    IsSameEpisode w w'
    × (w'.blocked_alerted_at ≡ w.blocked_alerted_at)
    × (w'.blocked_escalated_at ≡ now)

neither : (p : Bool × Bool) → not p.0 && not p.1 ≡ true → p ≡ (false, false)
neither (false, false) h = refl
neither (true, b) h = cc
neither (false, true) h = cc

which : (p : Bool × Bool) → not p.0 && not p.1 ≡ false → p.1 ≡ false → p.0 ≡ true
which (true, b) h k = refl
which (false, true) h k = sym k
which (false, false) h k = sym h

pub alert_put :
    (t : Timeouts) (n : Notice) (id : ℕ) (db db' : Db)
    → escalate_blocked_tx t n id db ≡ ok db'
    → (w : Worker) × (get db.workers id ≡ ok w)
      × (((blocked_due t n.now w ≡ (false, false)) × (db' ≡ db))
          ⊎ (((blocked_due t n.now w).1 ≡ true)
              × tell_human n w (first_active (list (λ d. d.worker_id == w.id) db.dispatches)) db
                ≡ ok db')
          ⊎ (((blocked_due t n.now w).0 ≡ true)
              × (x : Delivery) × (put w.id w.id (marked n.now true x w) db.workers
                  ≡ ok db'.workers)))
unfolding escalate_blocked_tx
alert_put t n id db db' h =
    let (w, e, h1) = ok_steps (get db.workers id) _ h in
    let d = first_active (list (λ d. d.worker_id == w.id) db.dispatches) in
    (
      w,
      e,
      by_branch (not (blocked_due t n.now w).0 && not (blocked_due t n.now w).1) (ok db) _ h1
          (λ b k. inl (neither (blocked_due t n.now w) b, sym (ok-inj k)))
          (λ b k.
            by_branch (blocked_due t n.now w).1 (tell_human n w d db) _ k
              (λ c k1. inr (inl (c, k1)))
              (λ c k1.
                let (x, g, f, _, _) =
                  tell_blocked_lem n true (requester w (episode_run w d) db.runs) w d db db' k1 in
                let (_, same) =
                  escalation_tx_frame n (episode_scope w d) (episode_dispatch d)
                    (requester w (episode_run w d) db.runs) db g in
                inr (
                  inr (
                    which (blocked_due t n.now w) b c,
                    x.0,
                    ap (put w.id w.id (marked n.now true x.0 w)) (sym same) ∙ f,
                  )))),
    )

-- What a round leaves of the worker `w`, stored as `id`.
abbrev pub IsRound : Timeouts → ℕ → ℕ → Worker → Db → Db → Type 0
IsRound t now id w db db' =
    ((blocked_due t now w ≡ (false, false)) × (db' ≡ db))
    ⊎ ((w' : Worker) × (get db'.workers id ≡ ok w')
        × IsSameEpisode w w'
        × (((blocked_due t now w ≡ (true, false)) × OwesNoFirst t w')
            ⊎ ((blocked_due t now w ≡ (false, true)) × OwesNothing t w')))
