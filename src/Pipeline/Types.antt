-- ===== src/Pipeline/Types.antt =====
-- internal/engine/pipeline/command.go, and the errors and states of pipeline.go.
-- The integers of a policy (attempts, delays, timeouts) are natural numbers: the code treats a
-- negative one as it treats 0. `any` values are numbers, 0 for nil.
use mirabilis.Base.{ℕ, String, Bool, false, Option, none, List, []}

pub data Kind : Type 0 where
  auto interactive terminal handoff : Kind

pub record RetryPolicy : Type 0 where
  pub attempts : ℕ
  pub delay : ℕ

pub record Meta : Type 0 where
  pub name : String
  pub title : String
  pub deps : List String
  pub retry : RetryPolicy
  pub timeout : ℕ
  pub kind : Kind
  pub optional : Bool
  pub parallel : Bool

-- What a paused step is resumed with.
pub record Resumption : Type 0 where
  pub value : ℕ
  pub cancelled : Bool

-- The errors that the package makes, and those that it passes on. `step_failed` and `timed_out`
-- wrap another error.
pub data Error : Type 0 where
  empty_name : Error
  duplicate_step : String → Error
  unknown_dependency : String → String → Error
  dependency_cycle : String → String → Error
  already_started : Error
  not_waiting : String → Error
  step_failed : String → Error → Error
  timed_out : String → ℕ → Error → Error
  deadline_exceeded : Error
  context_canceled : Error
  other : String → Error

pub data Result {ℓ} (A : Type ℓ) : Type ℓ where
  ok : A → Result A
  err : Error → Result A

infixl 5 ◌>>=◌
abbrev pub ◌>>=◌ {ℓ κ} : {A : Type ℓ} {B : Type κ} → Result A → (A → Result B) → Result B
ok a >>= f = f a
err e >>= f = err e

pub data EventKind : Type 0 where
  step_started spawn line done failed skipped waiting pipeline_done : EventKind

pub record Event : Type 0 where
  pub payload : ℕ
  pub err : Option Error
  pub step : String
  pub text : String
  pub argv : List String
  pub kind : EventKind
  pub has_failed : Bool

-- `Event{Kind: k, Step: step}`
abbrev pub event : EventKind → String → Event
event k step = record {
  payload = 0;
  err = none;
  step = step;
  text = "";
  argv = [];
  kind = k;
  has_failed = false;
}

abbrev pub line_satisfied : String
line_satisfied = "satisfied"

pub data StepState : Type 0 where
  state_done state_skipped state_failed : StepState

-- What `Check` returned: `(satisfied, err)`.
abbrev pub Checked : Type 0
Checked = Bool × Option Error

-- What one round of the retry loop meets: the errors of the context before and after, whether the
-- timer won the wait, what the check returned, and what the attempt returned.
pub record Round : Type 0 where
  pub ctx_before : Option Error
  pub timer_won : Bool
  pub recheck : Checked
  pub outcome : Option Error
  pub ctx_after : Option Error

-- What a command answers while it runs: the error of the context as its goroutine starts, the
-- first check, and the rounds.
pub record Answers : Type 0 where
  pub ctx_start : Option Error
  pub first_check : Checked
  pub rounds : ℕ → Round

pub record Command : Type 0 where
  pub meta : Meta
  pub answers : Answers

abbrev pub name : Command → String
name c = c.meta.name

-- The mutable part of a `Pipeline`: the flag of `Run`, and the step that waits with its channel.
pub record Pipeline : Type 0 where
  pub steps : List Command
  pub started : Bool
  pub waiting : String
  pub resume : Bool
