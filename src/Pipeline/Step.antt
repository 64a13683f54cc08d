-- ===== src/Pipeline/Step.antt =====
-- `runStep`, `runAttempts` and `sleep` of internal/engine/pipeline/pipeline.go. A step's answers
-- stand for what its `Check` and `Run` and the context did; the calls made are recorded.
pub mod Attempts
pub mod Verdicts
use mirabilis.Base.{
  ℕ, zero, suc, ◌+◌, max, Bool, true, false, not, ◌&&◌, Option, none, some, List, [], ◌∷◌, ◌++◌,
  if◌then◌else◌, is_some, is_none, ◌==◌,
}
use mirabilis.Pipeline.Types.{
  Kind, handoff, Meta, Error, Event, EventKind, step_started, done, failed, skipped, event,
  line_satisfied, StepState, state_done, state_skipped, state_failed, Checked, Round, Answers,
}

-- What a step has its environment do.
pub data Call : Type 0 where
  slept : ℕ → Call
  checked ran : Call

-- The result of the retry loop, with the calls that it made.
pub record Tried : Type 0 where
  pub err : Option Error
  pub calls : List Call

-- `cerr == nil && satisfied`
abbrev pub is_satisfied : Checked → Bool
is_satisfied (satisfied, err) = is_none err && satisfied

-- With no delay the context alone decides, else the timer races its end.
unfoldable pub sleep : ℕ → Round → Bool
sleep d r = if d == 0 then is_none r.ctx_before else r.timer_won

-- The second half of a round: the attempt, after the calls `before`.
unfoldable pub attempt_round : List Call → Round → Tried → Tried
attempt_round before r rest = elim r.outcome [
  | none ↦ record { err = none; calls = before ++ ran ∷ [] }
  | some e ↦
      if is_some r.ctx_after
      then record { err = some e; calls = before ++ ran ∷ [] }
      else record { err = rest.err; calls = before ++ ran ∷ rest.calls }
]

-- The loop of `runAttempts` from round `i`, with the rounds left and the last error.
unfoldable pub run_rounds : ℕ → ℕ → Meta → (ℕ → Round) → Option Error → Tried
unfolding sleep attempt_round
run_rounds zero i m rounds last = record { err = last; calls = [] }
run_rounds (suc n) i m rounds last =
    let r = rounds i in
    let wait = slept m.retry.delay in
    let rest = run_rounds n (suc i) m rounds r.outcome in
    if i == 0
    then attempt_round [] r rest
    else if sleep m.retry.delay r
    then (if is_satisfied r.recheck
        then record { err = none; calls = wait ∷ checked ∷ [] }
        else attempt_round (wait ∷ checked ∷ []) r rest)
    else record { err = r.ctx_before; calls = wait ∷ [] }

unfoldable pub run_attempts : Meta → (ℕ → Round) → Tried
unfolding run_rounds
run_attempts m rounds = run_rounds (max m.retry.attempts 1) 0 m rounds none

-- What `runStep` returns, emits and calls.
pub record Verdict : Type 0 where
  pub state : StepState
  pub err : Option Error
  pub events : List Event
  pub calls : List Call

abbrev pub is_handoff : Kind → Bool
is_handoff handoff = true
is_handoff _ = false

-- The part of `runStep` from "step started" on.
unfoldable pub start_step : Meta → List Call → Tried → Verdict
start_step m before t =
    let started = event step_started m.name in
    let calls = before ++ t.calls in
    elim t.err [
      | none ↦ record {
        state = state_done;
        err = none;
        events = started ∷ event done m.name ∷ [];
        calls = calls;
      }
      | some e ↦
          if m.optional
          then record {
            state = state_skipped;
            err = none;
            events = started ∷ record (event skipped m.name) { err = some e } ∷ [];
            calls = calls;
          }
          else record {
            state = state_failed;
            err = some e;
            events = started ∷ record (event failed m.name) { err = some e } ∷ [];
            calls = calls;
          }
    ]

-- The `switch` on the first check.
unfoldable pub judge : Meta → Checked → Tried → Verdict
unfolding start_step
judge m (satisfied, some e) t =
    if m.optional
    then record {
      state = state_skipped;
      err = none;
      events = record (event skipped m.name) { err = some e } ∷ [];
      calls = checked ∷ [];
    }
    else record {
      state = state_failed;
      err = some e;
      events = record (event failed m.name) { err = some e } ∷ [];
      calls = checked ∷ [];
    }
judge m (true, none) t = record {
  state = state_done;
  err = none;
  events = record (event done m.name) { text = line_satisfied } ∷ [];
  calls = checked ∷ [];
}
judge m (false, none) t = start_step m (checked ∷ []) t

unfoldable pub run_step : Meta → Answers → Verdict
unfolding judge run_attempts
run_step m a =
    let tried = run_attempts m a.rounds in
    if is_handoff m.kind then start_step m [] tried else judge m a.first_check tried
