-- ===== src/Daemon/Lifecycle/Safe.antt =====
-- When a prompt may be sent (dispatch of internal/daemon/dispatch.go).
use herdr_woof.Prelude.{
  ℕ, ◌≡◌, refl, sym, subst, Bool, true, false, not, ◌||◌, Option, some, none, [], ◌∷◌, ◌==◌,
  if◌then◌else◌, arith,
}
use herdr_woof.Prelude.Result.{ok, ok_steps, refuse_passed}
use herdr_woof.Prelude.Text.{text_eq}
use herdr_woof.Daemon.Model.{
  Code, Worker, Pane, Run, Dispatch, Delivery, active_dispatch, session_active,
}
use herdr_woof.Daemon.Store.{Db, Table, find, get, list}
use herdr_woof.Daemon.Dispatch.{
  World, Request, check_dispatch, choose_run, new_dispatch, intent_tx, dispatch, any_active,
  is_offline, is_ready, wake_pending, answer, is_blank, spec_of, unresolved_wake,
}

any_active-list :
    (rows : Table Dispatch) (worker j : ℕ) (x : Dispatch)
    → any_active (list (λ d. d.worker_id == worker) rows) ≡ false
    → find rows j ≡ some x
    → x.worker_id ≡ worker
    → active_dispatch x ≡ false
unfolding any_active list find
any_active-list [] worker j x h p w = cc
any_active-list ((k, d) ∷ rows) worker j x h p w =
    ground (arith, any_active-list rows worker j x, w)

wake_pending-list :
    (rows : Table Delivery) (w : Worker) (j : ℕ) (x : Delivery)
    → wake_pending w (list (λ d. d.worker_id == w.id) rows) ≡ false
    → find rows j ≡ some x
    → x.worker_id ≡ w.id
    → x.attachment_id ≡ w.attachment_id
    → unresolved_wake x.wake_status ≡ false
unfolding wake_pending list find
wake_pending-list [] w j x h p e f = cc
wake_pending-list ((k, d) ∷ rows) w j x h p e f = ground (arith, wake_pending-list rows w j x, e, f)

-- What the handler has verified of the worker `w` and its pane `p` when it prompts.
pub record IsSafe (world : World) (target : ℕ) (db : Db) (w : Worker) (p : Pane) : Type 0 where
  pub stored : get db.workers target ≡ ok w
  pub live : (session_active w ≡ true) × (is_offline w.state ≡ false)
  pub connected : (world.connected ≡ true) × (world.subscription_ready ≡ true)
  pub pane : world.agent_get ≡ some p
  pub attached : world.attachment_verified ≡ true
  pub ready : is_ready p ≡ true
  pub undrafted : (world.screen_read ≡ true) × (world.prompt_safe ≡ true)
  pub no_wake :
      (j : ℕ) (x : Delivery)
      → find db.deliveries j ≡ some x
      → x.worker_id ≡ w.id
      → x.attachment_id ≡ w.attachment_id
      → unresolved_wake x.wake_status ≡ false
  pub no_active :
      (j : ℕ) (x : Dispatch)
      → find db.dispatches j ≡ some x
      → x.worker_id ≡ w.id
      → active_dispatch x ≡ false

not-not : (b : Bool) → not b ≡ false → b ≡ true
not-not b h = ground arith

intent_free :
    (r : Request) (w : Worker) (p : Pane) (d : Dispatch) (run : Option Run) (db db' : Db)
    → intent_tx r w p d run db ≡ ok db'
    → any_active (list (λ x. x.worker_id == w.id) db.dispatches) ≡ false
unfolding intent_tx
intent_free r w p d run db db' h = ground arith

live_lem : (a b : Bool) → not a || b ≡ false → (a ≡ true) × (b ≡ false)
live_lem true b h = (refl, h)
live_lem false b h = cc

answered : (o : Option Pane) (p : Pane) → answer o Code.precondition_unavailable ≡ ok p → o ≡ some p
answered none p h = cc
answered (some q) p h = cc

-- What the checks before the intent have verified.
check_lem :
    (world : World) (r : Request) (target : ℕ) (db : Db) (c : Worker × Pane)
    → check_dispatch world r target db ≡ ok c
    → any_active (list (λ x. x.worker_id == c.0.id) db.dispatches) ≡ false
    → IsSafe world target db c.0 c.1
unfolding check_dispatch
check_lem world r target db c h free =
    let (w, s, h1) = ok_steps (get db.workers target) _ h in
    let (live, h2) =
      refuse_passed (not (session_active w) || is_offline w.state) Code.worker_not_live _ h1 in
    let (_, h3) =
      refuse_passed (is_blank (spec_of r.spec r.body r.handoff)) Code.invalid_args _ h2 in
    let (on, h4) = refuse_passed (not world.connected) Code.offline _ h3 in
    let (sub, h5) = refuse_passed (not world.subscription_ready) Code.subscription_not_ready _ h4 in
    let (p, pane, h6) = ok_steps (answer world.agent_get Code.precondition_unavailable) _ h5 in
    let (attached, h7) = refuse_passed (not world.attachment_verified) Code.stale_attachment _ h6 in
    let (ready, h8) = refuse_passed (not (is_ready p)) Code.worker_busy _ h7 in
    let (read, h9) = refuse_passed (not world.screen_read) Code.precondition_unavailable _ h8 in
    let (safe, h10) = refuse_passed (not world.prompt_safe) Code.input_draft _ h9 in
    let (wakes, h11) =
      refuse_passed (wake_pending w (list (λ d. d.worker_id == w.id) db.deliveries))
        Code.wake_pending _ h10 in
    let e : (w, p) ≡ c = cc in
    let free' : any_active (list (λ x. x.worker_id == w.id) db.dispatches) ≡ false =
      subst {A = Worker × Pane}
        (λ c. any_active (list (λ x. x.worker_id == c.0.id) db.dispatches) ≡ false) (sym e) free in
    subst {A = Worker × Pane} (λ c. IsSafe world target db c.0 c.1) e
      (record {
        stored = s;
        live = live_lem (session_active w) (is_offline w.state) live;
        connected = (not-not world.connected on, not-not world.subscription_ready sub);
        pane = answered world.agent_get p pane;
        attached = not-not world.attachment_verified attached;
        ready = not-not (is_ready p) ready;
        undrafted = (not-not world.screen_read read, not-not world.prompt_safe safe);
        no_wake = λ j x. wake_pending-list db.deliveries w j x wakes;
        no_active = λ j x. any_active-list db.dispatches w.id j x free';
      })

-- Where a dispatch returns with its intent recorded, its worker is live under a verified attachment,
-- Herdr is connected and subscribed, its pane reads as idle and ready with no draft, no wake of that
-- attachment is unresolved, and the worker had no active dispatch.
pub dispatch-IsSafe :
    (world : World) (r : Request) (target : ℕ) (answer : Option Code) (db db' : Db)
    → dispatch world r target answer db ≡ ok db'
    → (w : Worker) × (p : Pane) × IsSafe world target db w p
unfolding dispatch
dispatch-IsSafe world r target answer db db' h =
    let ((w, p), k, h1) = ok_steps (check_dispatch world r target db) _ h in
    let (handoff, _, h2) =
      ok_steps (if text_eq r.handoff [] then ok [] else world.handoff_path r.handoff) _ h1 in
    let ((run_id, run), _, h3) = ok_steps (choose_run r w db) _ h2 in
    let d = new_dispatch r w p handoff run_id in
    let (db1, t, _) = ok_steps (intent_tx r w p d run db) _ h3 in
    (w, p, check_lem world r target db (w, p) k (intent_free r w p d run db db1 t))
