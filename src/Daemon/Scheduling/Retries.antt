-- ===== src/Daemon/Scheduling/Retries.antt =====
-- When an occurrence is tried again (blockRun, executeRun, settleAttempt and recoverRuns of
-- internal/daemon/schedule.go).
use herdr_woof.Prelude.{
  ℕ, ◌/◌, ◌≤◌, ◌<◌, ◌≡◌, sym, ap, ◌∙◌, subst, ◌⊎◌, false, not, ◌&&◌, Option, some, arith, ◌==◌,
}
use herdr_woof.Prelude.Result.{ok, ok_steps, by_branch, ok-inj}
use herdr_woof.Daemon.Model.{Code, ScheduleRun, Dispatch, Operation, OperationState, Reply}
use herdr_woof.Daemon.Store.{Db, get}
use herdr_woof.Daemon.Settle.{finish_op, finish_attempt}
use herdr_woof.Daemon.Occurrences.{block_run, is_claimed_or_blocked}
use herdr_woof.Daemon.Attempts.{
  classify_attempt, classify_linked, classify_refused, linked_dispatch, error_or_internal, follow,
  turned_down, is_permanent,
}

-- What an age of `age` milliseconds has to wait: half of it, within 30 seconds and 15 minutes.
abbrev pub IsWait : ℕ → ℕ → Type 0
IsWait age wait =
    ((age < 60000) × (wait ≡ 30000))
    ⊎ ((60000 ≤ age) × (age ≤ 1800000) × (wait ≡ age / 2))
    ⊎ ((1800000 < age) × (wait ≡ 900000))

follow_closed :
    (now : ℕ) (d : Dispatch) (run : ScheduleRun)
    → is_claimed_or_blocked (follow now d run).state ≡ false
unfolding follow
follow_closed now d run = ground arith

turned_down_open :
    (now : ℕ) (code : Code) (run : ScheduleRun)
    → is_claimed_or_blocked (turned_down now code run).state ≡ not (is_permanent code)
unfolding turned_down block_run
turned_down_open now code run = ground arith

-- An attempt leaves its occurrence to be tried again exactly where its receipt names no dispatch, so
-- that no prompt was sent, and the refusal is not one that stays. The returned error alone never
-- decides it.
pub classify_attempt_retries :
    (now : ℕ) (error : Option Code) (run run1 : ScheduleRun) (op : Operation) (db db1 : Db)
    → get db.operations run.attempt_id ≡ ok op
    → classify_attempt now error run db ≡ ok (run1, db1)
    → is_claimed_or_blocked run1.state
      ≡ (linked_dispatch op.resource == 0) && not (is_permanent (error_or_internal error))
unfolding classify_attempt
classify_attempt_retries now error run run1 op db db1 stored h =
    let (op', g, h1) = ok_steps (get db.operations run.attempt_id) _ h in
    let same : op' ≡ op = ok-inj (sym g ∙ stored) in
    let code = error_or_internal error in
    let run0 = record run { updated_at = now } in
    subst
      (λ (o : Operation).
        is_claimed_or_blocked run1.state
        ≡ (linked_dispatch o.resource == 0) && not (is_permanent code))
      same
      (by_branch (not (linked_dispatch op'.resource == 0)) (classify_linked now op' run0 db)
        (classify_refused now op' code run0 db) h1
        (λ linked k.
          let (d, _, k1) = ok_steps (get db.dispatches (linked_dispatch op'.resource)) _ k in
          let (operations, _, k2) = ok_steps (finish_attempt now op' d db.operations) _ k1 in
          let e : follow now d run0 ≡ run1 = ap (λ z. z.0) (ok-inj k2) in
          ap (λ (r : ScheduleRun). is_claimed_or_blocked r.state) (sym e)
          ∙ follow_closed now d run0
          ∙ ground arith)
        (λ unlinked k.
          let (operations, _, k1) =
            ok_steps
              (finish_op now op'.id Reply.no_reply (some code) OperationState.failed db.operations)
              _ k in
          let e : turned_down now code run0 ≡ run1 = ap (λ z. z.0) (ok-inj k1) in
          ap (λ (r : ScheduleRun). is_claimed_or_blocked r.state) (sym e)
          ∙ turned_down_open now code run0
          ∙ ground arith))
