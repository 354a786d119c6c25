-- ===== src/Daemon/Lifecycle/Moves.antt =====
-- What each transaction of internal/daemon/dispatch.go makes of one dispatch: it may change so, and
-- it stays sound.
use herdr_woof.Prelude.{ℕ, ◌≡◌, ◌≢◌, refl, Bool, true, Option, arith}
use herdr_woof.Prelude.Text.{Text}
use herdr_woof.Daemon.Model.{Code, Worker, Pane, Dispatch, active_dispatch, is_open}
use herdr_woof.Daemon.Dispatch.{after_prompt, is_sending, Request, new_dispatch}
use herdr_woof.Daemon.Report.{DoneArgs, with_report, reported, settled, can_settle}
use herdr_woof.Daemon.Control.{failed_by}
use herdr_woof.Daemon.Observe.{observe_dispatch, see_working, see_end, may_settle, turn_evidence}
use herdr_woof.Daemon.Lifecycle.{Evolves, IsSound}

pub nudged-Evolves : (n : ℕ) (d : Dispatch) → Evolves d (record d { nudges = n })
nudged-Evolves n d = record {
  same_id = refl;
  same_worker = refl;
  same_baseline = refl;
  final = λ _. (n, refl);
  same_report = λ _. (refl, refl, refl);
  same_end = λ h. (h, refl);
}

pub nudged-IsSound : (n : ℕ) (d : Dispatch) → IsSound d → IsSound (record d { nudges = n })
nudged-IsSound n d s = record {
  settled_ended = s.settled_ended;
  settled_reported = s.settled_reported;
  settled_outcome = s.settled_outcome;
  end_later = s.end_later;
  done_reported = s.done_reported;
}

pub failed_by-Evolves :
    (now : ℕ) (reason : Text) (d : Dispatch)
    → active_dispatch d ≡ true
    → Evolves d (failed_by now reason d)
unfolding failed_by
failed_by-Evolves now reason d a = record {
  same_id = refl;
  same_worker = refl;
  same_baseline = refl;
  final = λ f. cc;
  same_report = λ _. (refl, refl, refl);
  same_end = λ h. (h, refl);
}

pub failed_by-IsSound :
    (now : ℕ) (reason : Text) (d : Dispatch) → IsSound d → IsSound (failed_by now reason d)
unfolding failed_by
failed_by-IsSound now reason d s = record {
  settled_ended = λ h. cc;
  settled_reported = λ h. cc;
  settled_outcome = λ h. cc;
  end_later = s.end_later;
  done_reported = s.done_reported;
}

pub sending-active : (d : Dispatch) → is_sending d.status ≡ true → active_dispatch d ≡ true
unfolding active_dispatch is_open
sending-active d h = ground arith

pub after_prompt-Evolves :
    (now : ℕ) (answer : Option Code) (d : Dispatch)
    → is_sending d.status ≡ true
    → Evolves d (after_prompt now answer d)
unfolding after_prompt
after_prompt-Evolves now answer d h =
    let a : active_dispatch d ≡ true = sending-active d h in
    record {
      same_id = ground arith;
      same_worker = ground arith;
      same_baseline = ground arith;
      final = λ f. cc;
      same_report = λ _. (ground arith, ground arith, ground arith);
      same_end = λ h. (ground arith, ground arith);
    }

pub after_prompt-IsSound :
    (now : ℕ) (answer : Option Code) (d : Dispatch)
    → IsSound d
    → IsSound (after_prompt now answer d)
unfolding after_prompt
after_prompt-IsSound now answer d s = record {
  settled_ended = λ h. ground arith;
  settled_reported = λ h. ground arith;
  settled_outcome = λ h. ground arith;
  end_later = λ h. ground (arith, s.end_later);
  done_reported = λ h. ground (arith, s.done_reported);
}

pub new_dispatch-IsSound :
    (r : Request) (w : Worker) (p : Pane) (handoff : Text) (run_id : ℕ)
    → IsSound (new_dispatch r w p handoff run_id)
unfolding new_dispatch
new_dispatch-IsSound r w p handoff run_id = record {
  settled_ended = λ h. cc;
  settled_reported = λ h. cc;
  settled_outcome = λ h. cc;
  end_later = λ h. cc;
  done_reported = λ h. ground arith;
}

pub with_report-Evolves :
    (a : DoneArgs) (w : Worker) (d : Dispatch)
    → active_dispatch d ≡ true
    → d.done_message_id ≡ 0
    → Evolves d (with_report a w d)
unfolding with_report reported settled
with_report-Evolves a w d active unreported = record {
  same_id = ground arith;
  same_worker = ground arith;
  same_baseline = ground arith;
  final = λ f. cc;
  same_report = λ h. absurd (h unreported);
  same_end = λ h. (ground arith, ground arith);
}

pub with_report-IsSound :
    (a : DoneArgs) (w : Worker) (d : Dispatch)
    → active_dispatch d ≡ true
    → a.new_message ≢ 0
    → IsSound d
    → IsSound (with_report a w d)
unfolding with_report reported settled can_settle active_dispatch is_open
with_report-IsSound a w d active fresh s = record {
  settled_ended = λ h. ground arith;
  settled_reported = λ h. ground (arith, fresh);
  settled_outcome = λ h. ground arith;
  end_later = λ h. ground (arith, s.end_later);
  done_reported = λ h. ground (arith, fresh);
}

pub observe_dispatch-Evolves :
    (now : ℕ) (changed : Bool) (p : Pane) (d : Dispatch)
    → active_dispatch d ≡ true
    → Evolves d (observe_dispatch now changed p d)
unfolding observe_dispatch see_working see_end settled
observe_dispatch-Evolves now changed p d active = record {
  same_id = ground arith;
  same_worker = ground arith;
  same_baseline = ground arith;
  final = λ f. cc;
  same_report = λ h. (ground arith, ground arith, ground arith);
  same_end = λ h. (ground arith, ground arith);
}

pub observe_dispatch-IsSound :
    (now : ℕ) (changed : Bool) (p : Pane) (d : Dispatch)
    → active_dispatch d ≡ true
    → IsSound d
    → IsSound (observe_dispatch now changed p d)
unfolding observe_dispatch see_working see_end settled may_settle turn_evidence active_dispatch
    is_open
observe_dispatch-IsSound now changed p d active s = record {
  settled_ended = λ h. ground arith;
  settled_reported = λ h. ground (arith, s.done_reported);
  settled_outcome = λ h. ground arith;
  end_later = λ h. ground (arith, s.end_later);
  done_reported = λ h. ground (arith, s.done_reported);
}
