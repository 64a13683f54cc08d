-- ===== src/Pipeline/Run.antt =====
-- `Run`, `failedDep`, `collectAutoBatch` and `runAutoBatch` of internal/engine/pipeline/pipeline.go.
-- The goroutines of a batch are taken in any order: a schedule says in which order their results
-- arrive, how their events mix, and in which order a map is ranged over.
pub mod Judge
pub mod Arrival
pub mod Batch
pub mod Equal
pub mod Settled
use Prim.Native.String.{◌++◌ as str_append}
use mirabilis.Base.{
  ℕ, zero, suc, ◌+◌, String, Bool, true, false, not, ◌&&◌, Option, none, some, List, [], ◌∷◌, ◌++◌,
  map, if◌then◌else◌, is_some, length, drop, contains, StringMap, lookup, insert, insert_all,
}
use mirabilis.Pipeline.Types.{
  Kind, auto, Meta, Error, already_started, step_failed, other, Event, pipeline_done, skipped,
  event, StepState, state_skipped, state_failed, Command, name, Pipeline,
}
use mirabilis.Pipeline.Step.{Call, Verdict, run_step}

-- `states[dep] == stateFailed`: a step that is not in the map reads as done.
abbrev pub is_failed : Option StepState → Bool
is_failed (some state_failed) = true
is_failed _ = false

unfoldable pub failed_dep : List String → StringMap StepState → Option String
failed_dep [] states = none
failed_dep (d ∷ ds) states =
    let rest = failed_dep ds states in if is_failed (lookup d states) then some d else rest

abbrev pub is_auto : Kind → Bool
is_auto auto = true
is_auto _ = false

abbrev pub is_parallel : Meta → Bool
is_parallel m = is_auto m.kind && m.parallel

-- The inner loop of `collectAutoBatch`: does the step depend on one of the batch?
unfoldable pub depends_on : List String → List String → Bool
depends_on batch_names [] = false
depends_on batch_names (d ∷ ds) =
    let rest = depends_on batch_names ds in if contains batch_names d then true else rest

-- The batch is a part of the list that begins at the current step, so it is given by its commands.
unfoldable pub collect_auto_batch : List String → StringMap StepState → List Command → List Command
collect_auto_batch batch_names states [] = []
collect_auto_batch batch_names states (c ∷ cs) =
    let rest = collect_auto_batch (name c ∷ batch_names) states cs in
    if not (is_parallel c.meta)
    then []
    else if is_some (failed_dep c.meta.deps states)
    then []
    else if depends_on batch_names c.meta.deps
    then []
    else c ∷ rest

pub record BatchResult : Type 0 where
  pub step : String
  pub state : StepState
  pub err : Option Error

-- What the run takes from its environment. `ctx i` is the error of the context where the loop
-- stands at step `i`.
pub record Schedule : Type 0 where
  pub ctx : ℕ → Option Error
  pub arrive : List BatchResult → List BatchResult
  pub range : StringMap (Option Error) → StringMap (Option Error)
  pub interleave : List (List Event) → List Event

-- The goroutine of a batch member.
unfoldable pub batch_step : Command → Verdict
batch_step c = elim c.answers.ctx_start [
  | some e ↦ record { state = state_failed; err = some e; events = []; calls = [] }
  | none ↦ run_step c.meta c.answers
]

abbrev pub result_of : Command → BatchResult
result_of c = let v = batch_step c in record { step = name c; state = v.state; err = v.err }

-- The loop over `results`: the states, and the errors of the steps that failed.
unfoldable pub out_states : List BatchResult → StringMap StepState → StringMap StepState
out_states [] m = m
out_states (r ∷ rs) m = out_states rs (insert r.step r.state m)

unfoldable pub out_errs : List BatchResult → StringMap (Option Error) → StringMap (Option Error)
out_errs [] m = m
out_errs (r ∷ rs) m = out_errs rs (if is_failed (some r.state) then insert r.step r.err m else m)

-- `fmt.Errorf("pipeline: step %q: %w", name, err)`, which is an error also around nil.
abbrev pub wrap : String → Option Error → Error
wrap n (some e) = step_failed n e
wrap n none = step_failed n (other "%!w(<nil>)")

-- `if firstErr == nil { firstErr = ... }` for each entry of the map.
unfoldable pub keep_first : Option Error → StringMap (Option Error) → Option Error
keep_first first [] = first
keep_first none ((n, e) ∷ es) = keep_first (some (wrap n e)) es
keep_first (some x) ((n, e) ∷ es) = keep_first (some x) es

-- The variables of `Run`, with what it has emitted and what the steps were asked to do.
pub record Progress : Type 0 where
  pub states : StringMap StepState
  pub first_err : Option Error
  pub events : List Event
  pub calls : StringMap (List Call)

abbrev pub start : Progress
start = record { states = []; first_err = none; events = []; calls = [] }

-- The branch of a step with a failed dependency.
unfoldable pub skip_blocked : Command → String → Progress → Progress
skip_blocked c dep p = record p {
  states = insert (name c) state_skipped p.states;
  events =
      p.events
      ++ record (event skipped (name c)) { text = str_append "dependency failed: " dep } ∷ [];
  calls = insert (name c) [] p.calls;
}

-- The branch that runs one step.
unfoldable pub run_single : Command → Progress → Progress
run_single c p =
    let v = run_step c.meta c.answers in
    record p {
      states = insert (name c) v.state p.states;
      first_err =
          if is_failed (some v.state)
          then keep_first p.first_err ((name c, v.err) ∷ [])
          else p.first_err;
      events = p.events ++ v.events;
      calls = insert (name c) v.calls p.calls;
    }

unfoldable pub run_auto_batch : Schedule → List Command → Progress → Progress
run_auto_batch s batch p =
    let results = s.arrive (map result_of batch) in
    record p {
      states = insert_all (out_states results []) p.states;
      first_err = keep_first p.first_err (s.range (out_errs results []));
      events = p.events ++ s.interleave (map (λ c. (batch_step c).events) batch);
      calls = insert_all (map (λ c. (name c, (batch_step c).calls)) batch) p.calls;
    }

pub record Outcome : Type 0 where
  pub progress : Progress
  pub err : Option Error
  pub last : Option Event
  pub left : List Command

abbrev pub done_event : Bool → Event
done_event b = record (event pipeline_done "") { has_failed = b }

-- The ways out of the loop: the context has ended, or no step is left.
unfoldable pub finish : Option Error → List Command → Progress → Outcome
finish (some e) left p = record {
  progress = p;
  err = some e;
  last = some (done_event true);
  left = left;
}
finish none left p = record {
  progress = p;
  err = p.first_err;
  last = some (done_event (is_some p.first_err));
  left = left;
}

-- The end of a round: one step alone, or the batch that begins with it. The second part is the
-- number of steps dealt with.
unfoldable pub run_batch : Schedule → Command → Progress → List Command → Progress × ℕ
run_batch s c p [] = (run_single c p, 1)
run_batch s c p (b ∷ bs) = (run_auto_batch s (b ∷ bs) p, length (b ∷ bs))

-- One round of the loop, where the steps `c ∷ cs` are left.
unfoldable pub advance : Schedule → Command → List Command → Progress → Progress × ℕ
unfolding run_batch
advance s c cs p = elim (failed_dep c.meta.deps p.states) [
  | some dep ↦ (skip_blocked c dep p, 1)
  | none ↦
      if not (is_parallel c.meta)
      then (run_single c p, 1)
      else run_batch s c p (collect_auto_batch [] p.states (c ∷ cs))
]

-- The loop of `Run` at step `i`, with fuel for its rounds.
unfoldable pub run_from : ℕ → Schedule → ℕ → List Command → Progress → Outcome
run_from fuel s i [] p = finish (s.ctx i) [] p
run_from zero s i (c ∷ cs) p = record { progress = p; err = none; last = none; left = c ∷ cs }
run_from (suc fuel) s i (c ∷ cs) p =
    let (p', n) = advance s c cs p in
    let rest = run_from fuel s (i + n) (drop n (c ∷ cs)) p' in
    if is_some (s.ctx i) then finish (s.ctx i) (c ∷ cs) p else rest

unfoldable pub run : Schedule → Pipeline → Outcome × Pipeline
run s p =
    let rest = run_from (length p.steps) s 0 p.steps start in
    if p.started
    then (record { progress = start; err = some already_started; last = none; left = p.steps }, p)
    else (rest, record p { started = true })
