-- ===== src/Daemon/Scheduling/Moves.antt =====
-- What each change of internal/daemon/schedule.go makes of one occurrence: it may change so, and it
-- stays sound.
use herdr_woof.Prelude.{ℕ, ◌≤◌, ◌≡◌, refl, true, false, arith}
use herdr_woof.Daemon.Model.{ScheduleRun, OccurrenceState, Outcome, Dispatch}
use herdr_woof.Daemon.Occurrences.{
  is_outstanding, is_claimed_or_blocked, is_dispatching, cancelled, block_run,
}
use herdr_woof.Daemon.Claims.{skipped}
use herdr_woof.Daemon.Attempts.{follow}
use herdr_woof.Daemon.Scheduling.{RunEvolves, IsSoundRun}

-- An outstanding occurrence may change as it likes, but for its identity and its count of attempts.
pub open-RunEvolves :
    (run later : ScheduleRun)
    → IsSoundRun run
    → is_outstanding run.state ≡ true
    → later.id ≡ run.id
    → later.schedule_id ≡ run.schedule_id
    → later.occurrence_key ≡ run.occurrence_key
    → run.attempts ≤ later.attempts
    → RunEvolves run later
open-RunEvolves run later s h i sc k n = record {
  same_id = i;
  same_schedule = sc;
  same_key_as = k;
  final = λ p. cc;
  same_message = λ p. absurd (p (s.no_message h));
  same_dispatch = λ p. absurd (p (s.no_dispatch h));
  counted = n;
}

pub claimed_or_blocked-outstanding :
    (state : OccurrenceState) → is_claimed_or_blocked state ≡ true → is_outstanding state ≡ true
claimed_or_blocked-outstanding state h = ground arith

pub dispatching-outstanding :
    (state : OccurrenceState) → is_dispatching state ≡ true → is_outstanding state ≡ true
dispatching-outstanding state h = ground arith

-- What is no longer outstanding is sound, and so is what keeps its links empty.
pub over-IsSoundRun : (run : ScheduleRun) → is_outstanding run.state ≡ false → IsSoundRun run
over-IsSoundRun run h = record { no_message = λ k. cc; no_dispatch = λ k. cc }

pub unlinked-IsSoundRun :
    (run : ScheduleRun) → run.message_id ≡ 0 → run.dispatch_id ≡ 0 → IsSoundRun run
unlinked-IsSoundRun run m d = record { no_message = λ _. m; no_dispatch = λ _. d }

pub cancelled-over :
    (now : ℕ) (why : Outcome) (run : ScheduleRun)
    → is_outstanding (cancelled now why run).state ≡ false
unfolding cancelled
cancelled-over now why run = refl

pub block_run-IsSoundRun :
    (now : ℕ) (why : Outcome) (run : ScheduleRun)
    → run.message_id ≡ 0
    → run.dispatch_id ≡ 0
    → IsSoundRun (block_run now why run)
unfolding block_run
block_run-IsSoundRun now why run m d = unlinked-IsSoundRun _ m d

pub follow-over :
    (now : ℕ) (d : Dispatch) (run : ScheduleRun) → is_outstanding (follow now d run).state ≡ false
unfolding follow
follow-over now d run = ground arith

-- Counting on an occurrence leaves the rest of it.
pub skipped-RunEvolves : (now at : ℕ) (run : ScheduleRun) → RunEvolves run (skipped now at run)
unfolding skipped
skipped-RunEvolves now at run = record {
  same_id = refl;
  same_schedule = refl;
  same_key_as = refl;
  final = λ h. h;
  same_message = λ _. refl;
  same_dispatch = λ _. refl;
  counted = omega arith;
}
