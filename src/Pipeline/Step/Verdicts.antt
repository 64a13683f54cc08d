-- ===== src/Pipeline/Step/Verdicts.antt =====
-- The verdict of one step: its state, its events and the calls it made.
use mirabilis.Base.{
  ℕ, ◌<◌, ◌≡◌, ◌⊎◌, true, false, none, List, [], ◌∷◌, map, arith, is_some, if◌then◌else◌, ltb, suc,
  max, ◌-◌, ◌↔◌,
}
use mirabilis.Pipeline.Types.{
  Meta, Event, EventKind, step_started, done, failed, skipped, StepState, state_done, state_skipped,
  state_failed, Answers, Round,
}
use mirabilis.Pipeline.Step.{is_handoff, run_step, run_attempts, run_rounds}
use mirabilis.Pipeline.Step.Attempts.{runs}

-- The event that announces a state.
abbrev pub announces : StepState → EventKind
announces state_done = done
announces state_skipped = skipped
announces state_failed = failed

abbrev pub kinds : List Event → List EventKind
kinds = map (λ e. e.kind)

first_round_runs :
    (n : ℕ) (m : Meta) (rounds : ℕ → Round) → 0 < runs (run_rounds (suc n) 0 m rounds none).calls
unfolding run_rounds
first_round_runs n m rounds = ground arith

-- The loop always makes the first attempt.
run_attempts-runs : (m : Meta) (rounds : ℕ → Round) → 0 < runs (run_attempts m rounds).calls
unfolding run_attempts
run_attempts-runs m rounds =
    let some_left : max m.retry.attempts 1 ≡ suc (max m.retry.attempts 1 - 1) = omega arith in
    rw some_left (first_round_runs (max m.retry.attempts 1 - 1) m rounds)

-- A step announces its verdict once and last, by the event of its state, before which stands the
-- start exactly where a run was made.
pub run_step-announces :
    (m : Meta) (a : Answers)
    → let v = run_step m a in
      kinds v.events ≡ (
        if ltb 0 (runs v.calls)
        then step_started ∷ announces v.state ∷ []
        else announces v.state ∷ [])
unfolding run_step
run_step-announces m a = ground (arith, run_attempts-runs m a.rounds)

-- An optional step never fails, and a failed step carries its error; every other verdict has none.
pub run_step_failure :
    (m : Meta) (a : Answers)
    → let v = run_step m a in
      ((v.state ≡ state_failed) × (is_some v.err ≡ true) × (m.optional ≡ false))
      ⊎ ((announces v.state ≡ done) × (v.err ≡ none))
      ⊎ ((v.state ≡ state_skipped) × (m.optional ≡ true) × (v.err ≡ none))
unfolding run_step
run_step_failure m a = ground arith

-- `Run` is not called exactly where a step that is no hand-off has its first check satisfied or in
-- error. A hand-off runs whatever its check would say, and is not asked.
pub run_step_skips :
    (m : Meta) (a : Answers)
    → (runs (run_step m a).calls ≡ 0) ↔ (
        (is_handoff m.kind ≡ false) × ((is_some a.first_check.1 ≡ true) ⊎ (a.first_check.0 ≡ true)))
unfolding run_step
run_step_skips m a = (
  λ e. ground (arith, run_attempts-runs m a.rounds),
  λ h. ground (arith, run_attempts-runs m a.rounds),
)
