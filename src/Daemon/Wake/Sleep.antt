-- ===== src/Daemon/Wake/Sleep.antt =====
-- How long the scheduler sleeps (scheduleOnce of internal/daemon/schedule.go): never past the time at
-- which something is to be done, and never more than its bounds.
use herdr_woof.Prelude.{
  ℕ, ◌-◌, ◌≤◌, ◌≡◌, ◌⊎◌, inl, inr, min, max, Bool, true, false, List, [], ◌∷◌, arith, if◌then◌else◌,
  Bool-cases,
}
use herdr_woof.Daemon.Model.{Schedule, ScheduleRun}
use herdr_woof.Daemon.Occurrences.{retry_min}
use herdr_woof.Daemon.Wake.{
  idle_wake, is_eligible, wake_runs, is_in, is_waiting, wake_schedules, wake_after,
}

-- Each occurrence is attempted now, or is to be tried again no earlier than after `wake`.
abbrev pub NoRetryWithin : ℕ → (ℕ → Bool) → ℕ → List ScheduleRun → Type 0
NoRetryWithin now kicked wake [] = Unit
NoRetryWithin now kicked wake (run ∷ runs) =
    ((is_eligible now kicked run ≡ true) ⊎ (wake ≤ max (run.next_attempt_at - now) 10))
    × NoRetryWithin now kicked wake runs

-- Each schedule that waits for its time, and whose claim did not fail, has it no earlier than after
-- `wake`.
abbrev pub NoneDueWithin : ℕ → List ℕ → ℕ → List Schedule → Type 0
NoneDueWithin now failed wake [] = Unit
NoneDueWithin now failed wake (sc ∷ scs) =
    (is_in sc.id failed ≡ false → is_waiting sc ≡ true → wake ≤ max (sc.next_run_at - now) 10)
    × NoneDueWithin now failed wake scs

either_le : (b : Bool) (w x : ℕ) → (if b then w else min w x) ≤ w
either_le true w x = omega arith
either_le false w x = omega arith

second_le : (b : Bool) (w x : ℕ) → b ≡ false → (if b then w else min w x) ≤ x
second_le true w x h = cc
second_le false w x h = omega arith

wake_runs_le :
    (now : ℕ) (kicked : ℕ → Bool) (runs : List ScheduleRun) (w : ℕ)
    → wake_runs now kicked runs w ≤ w
unfolding wake_runs
wake_runs_le now kicked [] w = omega arith
wake_runs_le now kicked (run ∷ runs) w =
    let next = if is_eligible now kicked run then w else min w (run.next_attempt_at - now) in
    omega (
      arith,
      wake_runs_le now kicked runs next,
      either_le (is_eligible now kicked run) w (run.next_attempt_at - now),
    )

wake_runs-NoRetryWithin :
    (now : ℕ) (kicked : ℕ → Bool) (runs : List ScheduleRun) (w wake : ℕ)
    → wake ≤ max (wake_runs now kicked runs w) 10
    → NoRetryWithin now kicked wake runs
unfolding wake_runs
wake_runs-NoRetryWithin now kicked [] w wake h = tt
wake_runs-NoRetryWithin now kicked (run ∷ runs) w wake h =
    let next = if is_eligible now kicked run then w else min w (run.next_attempt_at - now) in
    let below = wake_runs_le now kicked runs next in
    (
      elim (Bool-cases (is_eligible now kicked run)) [
        | inl p ↦ inl p
        | inr p ↦ inr (
            omega (
              arith,
              h,
              below,
              second_le (is_eligible now kicked run) w (run.next_attempt_at - now) p,
            ))
      ],
      wake_runs-NoRetryWithin now kicked runs next wake h,
    )

-- What a schedule makes of the wake.
abbrev chosen : ℕ → List ℕ → Schedule → ℕ → ℕ
chosen now failed sc w =
    if is_in sc.id failed
    then min w retry_min
    else if is_waiting sc
    then min w (sc.next_run_at - now)
    else w

chosen_le : (now : ℕ) (failed : List ℕ) (sc : Schedule) (w : ℕ) → chosen now failed sc w ≤ w
chosen_le now failed sc w = ground arith

chosen_waiting :
    (now : ℕ) (failed : List ℕ) (sc : Schedule) (w : ℕ)
    → is_in sc.id failed ≡ false
    → is_waiting sc ≡ true
    → chosen now failed sc w ≤ sc.next_run_at - now
chosen_waiting now failed sc w h k = ground arith

wake_schedules_le :
    (now : ℕ) (failed : List ℕ) (scs : List Schedule) (w : ℕ) → wake_schedules now failed scs w ≤ w
unfolding wake_schedules
wake_schedules_le now failed [] w = omega arith
wake_schedules_le now failed (sc ∷ scs) w =
    omega
      (arith, wake_schedules_le now failed scs (chosen now failed sc w), chosen_le now failed sc w)

wake_schedules-NoneDueWithin :
    (now : ℕ) (failed : List ℕ) (scs : List Schedule) (w wake : ℕ)
    → wake ≤ max (wake_schedules now failed scs w) 10
    → NoneDueWithin now failed wake scs
unfolding wake_schedules
wake_schedules-NoneDueWithin now failed [] w wake h = tt
wake_schedules-NoneDueWithin now failed (sc ∷ scs) w wake h =
    let next = chosen now failed sc w in
    let below = wake_schedules_le now failed scs next in
    (
      (λ p q. omega (arith, h, below, chosen_waiting now failed sc w p q)),
      wake_schedules-NoneDueWithin now failed scs next wake h,
    )

-- The scheduler sleeps for 10 milliseconds to 30 seconds. But for those least 10 milliseconds it never
-- sleeps past the time of an occurrence that waits to be tried again, nor past the next time of a
-- schedule whose claim did not fail.
pub wake_after_bounds :
    (now : ℕ) (kicked : ℕ → Bool) (failed : List ℕ) (pending : List ScheduleRun)
    (scs : List Schedule)
    → (10 ≤ wake_after now kicked failed pending scs)
      × (wake_after now kicked failed pending scs ≤ idle_wake)
      × NoRetryWithin now kicked (wake_after now kicked failed pending scs) pending
      × NoneDueWithin now failed (wake_after now kicked failed pending scs) scs
unfolding wake_after
wake_after_bounds now kicked failed pending scs =
    let w = wake_runs now kicked pending idle_wake in
    let low = wake_runs_le now kicked pending idle_wake in
    let low' = wake_schedules_le now failed scs w in
    let wake = max (wake_schedules now failed scs w) 10 in
    (
      omega arith,
      omega (arith, low, low'),
      wake_runs-NoRetryWithin now kicked pending idle_wake wake (omega (arith, low')),
      wake_schedules-NoneDueWithin now failed scs w wake (omega arith),
    )
