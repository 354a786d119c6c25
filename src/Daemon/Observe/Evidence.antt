-- ===== src/Daemon/Observe/Evidence.antt =====
-- When an observation settles a dispatch (observeWorker of internal/daemon/dispatch.go).
use herdr_woof.Prelude.{
  ℕ, ◌<◌, ◌≡◌, ◌≢◌, ◌⊎◌, ◌↔◌, Bool, true, Option, none, some, arith, if◌then◌else◌, inl, inr, refl,
  sym, subst,
}
use herdr_woof.Daemon.Model.{Pane, Dispatch, DispatchStatus, is_idle, active_dispatch, is_open}
use herdr_woof.Daemon.Observe.{
  observe_dispatch, see_working, see_end, may_settle, turn_evidence, completed_at,
}
use herdr_woof.Daemon.Report.{settled}

-- The pane proves that the turn of the dispatch is over: Herdr went on past the sequence number at
-- which it was seen busy after the prompt, or counts a completion of its own for this very state.
pub data TurnIsOver (p : Pane) (d : Dispatch) : Type 0 where
  by_turn : d.baseline_seq < d.working_seq → d.working_seq < p.state_change_seq → TurnIsOver p d
  by_completion :
      (baseline completion : ℕ)
      → d.baseline_completion_seq ≡ some baseline
      → p.completion_seq ≡ some completion
      → baseline < completion
      → completion ≡ p.state_change_seq
      → d.baseline_seq < p.state_change_seq
      → TurnIsOver p d

completion→over :
    (p : Pane) (d : Dispatch) (b c : Option ℕ)
    → d.baseline_completion_seq ≡ b
    → p.completion_seq ≡ c
    → completed_at b c p.state_change_seq ≡ true
    → d.baseline_seq < p.state_change_seq
    → TurnIsOver p d
unfolding completed_at
completion→over p d (some b) (some c) e f h k =
    TurnIsOver.by_completion b c e f (ground arith) (ground arith) k
completion→over p d (some b) none e f h k = cc
completion→over p d none c e f h k = cc

evidence_cases :
    (p : Pane) (d : Dispatch)
    → turn_evidence p d ≡ true
    → (((d.baseline_seq < d.working_seq) × (d.working_seq < p.state_change_seq))
        ⊎ ((completed_at d.baseline_completion_seq p.completion_seq p.state_change_seq ≡ true)
            × (d.baseline_seq < p.state_change_seq)))
unfolding turn_evidence
evidence_cases p d h = ground arith

evidence→over : (p : Pane) (d : Dispatch) → turn_evidence p d ≡ true → TurnIsOver p d
evidence→over p d h = elim (evidence_cases p d h) [
  | inl (k, l) ↦ TurnIsOver.by_turn k l
  | inr (k, l) ↦ completion→over p d d.baseline_completion_seq p.completion_seq refl refl k l
]

over→evidence :
    (p : Pane) (d : Dispatch)
    → is_idle p.agent_status ≡ true
    → TurnIsOver p d
    → turn_evidence p d ≡ true
unfolding turn_evidence completed_at
over→evidence p d idle (TurnIsOver.by_turn h k) = ground arith
over→evidence p d idle (TurnIsOver.by_completion b c e f h k l) = ground arith

-- What is busy is not idle, so that an idle pane leaves the working marks.
idle_see_working :
    (now : ℕ) (changed : Bool) (p : Pane) (d : Dispatch)
    → is_idle p.agent_status ≡ true
    → see_working now changed p d ≡ d
unfolding see_working is_idle
idle_see_working now changed p d h = ground arith

abbrev after_work : ℕ → Pane → Dispatch → Dispatch
after_work now p d =
    if may_settle p (see_end now p d)
    then settled now (see_end now p d).report_outcome (see_end now p d)
    else see_end now p d

after_work-settles :
    (now : ℕ) (p : Pane) (d : Dispatch)
    → active_dispatch d ≡ true
    → is_idle p.agent_status ≡ true
    → ((after_work now p d).status ≡ DispatchStatus.settled)
      ↔ ((d.done_at ≢ 0) × ((d.turn_ended ≡ true) ⊎ (turn_evidence p d ≡ true)))
unfolding see_end may_settle settled active_dispatch is_open
after_work-settles now p d active idle =
    (λ h. (λ z. ground arith, ground arith), λ (h, k). ground arith)

settled_when :
    (now : ℕ) (changed : Bool) (p : Pane) (d : Dispatch)
    → active_dispatch d ≡ true
    → is_idle p.agent_status ≡ true
    → ((observe_dispatch now changed p d).status ≡ DispatchStatus.settled)
      ↔ ((d.done_at ≢ 0) × ((d.turn_ended ≡ true) ⊎ (turn_evidence p d ≡ true)))
unfolding observe_dispatch
settled_when now changed p d active idle =
    subst
      (λ x.
        ((after_work now p x).status ≡ DispatchStatus.settled)
        ↔ ((d.done_at ≢ 0) × ((d.turn_ended ≡ true) ⊎ (turn_evidence p d ≡ true))))
      (sym (idle_see_working now changed p d idle)) (after_work-settles now p d active idle)

settled_idle :
    (now : ℕ) (changed : Bool) (p : Pane) (d : Dispatch)
    → active_dispatch d ≡ true
    → (observe_dispatch now changed p d).status ≡ DispatchStatus.settled
    → is_idle p.agent_status ≡ true
unfolding observe_dispatch see_end see_working may_settle settled active_dispatch is_open
settled_idle now changed p d active h = ground arith

-- An observation of an active dispatch settles it exactly when the pane reads as idle, a report is
-- recorded, and the turn had ended before or is now proved to be over.
pub observe_dispatch-settles :
    (now : ℕ) (changed : Bool) (p : Pane) (d : Dispatch)
    → active_dispatch d ≡ true
    → ((observe_dispatch now changed p d).status ≡ DispatchStatus.settled) ↔ (
        (is_idle p.agent_status ≡ true)
        × (d.done_at ≢ 0)
        × ((d.turn_ended ≡ true) ⊎ TurnIsOver p d))
observe_dispatch-settles now changed p d active = (
  λ h.
      let idle = settled_idle now changed p d active h in
      let (reported, over) = (settled_when now changed p d active idle).0 h in
      (idle, reported, elim over [ inl t ↦ inl t | inr e ↦ inr (evidence→over p d e) ]),
  λ (idle, reported, over).
      (settled_when now changed p d active idle).1
        (reported, elim over [ inl t ↦ inl t | inr o ↦ inr (over→evidence p d idle o) ]),
)
