-- ===== src/Steps/Batch.antt =====
-- internal/engine/steps/batch.go: a step that runs other steps in waves.
-- The goroutines of a wave are given by the order in which they finish. The events of one
-- goroutine are listed together, though another's may come between them.
pub mod Waves
pub mod Effects
use Prim.Native.Nat.{Ordering}
use Prim.Native.String.{compare}
use mirabilis.Base.{
  ℕ, zero, suc, String, Bool, true, false, not, ◌&&◌, ◌||◌, Option, none, some, List, [], ◌∷◌, ◌++◌,
  map, if◌then◌else◌, contains, length,
}
use mirabilis.Pipeline.Types.{
  Meta, auto, Error, Event, event, step_started, done, failed, skipped, line_satisfied, Checked,
  Command, name,
}

pub record Batch : Type 0 where
  pub name : String
  pub title : String
  pub deps : List String
  pub cmds : List Command

-- The errors of batch.go, which wrap the error of a step or of the context.
pub data BatchError : Type 0 where
  check_error : String → String → Error → BatchError
  run_error : String → String → Error → BatchError
  cycle_error : String → ℕ → BatchError
  ctx_error : Error → BatchError
  out_of_fuel : BatchError

-- Both loops of `outerDeps`: over the commands, and over the dependencies of each.
unfoldable pub add_deps : List String → List String → List String → List String
add_deps inner deps [] = deps
add_deps inner deps (d ∷ ds) =
    add_deps inner (if contains inner d || contains deps d then deps else deps ++ d ∷ []) ds

unfoldable pub collect_deps : List String → List String → List Command → List String
unfolding add_deps
collect_deps inner deps [] = deps
collect_deps inner deps (c ∷ cs) = collect_deps inner (add_deps inner deps c.meta.deps) cs

-- `sort.Strings`
unfoldable pub insert_sorted : String → List String → List String
insert_sorted x [] = x ∷ []
insert_sorted x (y ∷ ys) =
    let rest = insert_sorted x ys in elim (compare x y) [ Ordering.gt ↦ y ∷ rest | _ ↦ x ∷ y ∷ ys ]

unfoldable pub sort_strings : List String → List String
unfolding insert_sorted
sort_strings [] = []
sort_strings (x ∷ xs) = insert_sorted x (sort_strings xs)

unfoldable pub outer_deps : List Command → List String
unfolding collect_deps sort_strings
outer_deps cmds = sort_strings (collect_deps (map name cmds) [] cmds)

unfoldable pub new_batch : String → String → List Command → Batch
unfolding outer_deps
new_batch n title cmds = record { name = n; title = title; deps = outer_deps cmds; cmds = cmds }

unfoldable pub batch_meta : Batch → Meta
batch_meta b = record {
  name = b.name;
  title = b.title;
  deps = b.deps;
  retry = record { attempts = 0; delay = 0 };
  timeout = 0;
  kind = auto;
  optional = false;
  parallel = false;
}

-- `Check`: satisfied if each step is; a check of an optional step may fail.
unfoldable pub check_batch : String → List Command → Bool × Option BatchError
check_batch b [] = (true, none)
check_batch b (c ∷ cs) =
    let rest = check_batch b cs in
    elim c.answers.first_check.1 [
      | some e ↦ if c.meta.optional then rest else (false, some (check_error b (name c) e))
      | none ↦ if c.answers.first_check.0 then rest else (false, none)
    ]

unfoldable pub inner_deps_satisfied : List String → List String → List String → Bool
inner_deps_satisfied inner finished [] = true
inner_deps_satisfied inner finished (d ∷ ds) =
    let rest = inner_deps_satisfied inner finished ds in
    if contains inner d && not (contains finished d) then false else rest

-- The inner loop of `waves`: what can run now, and what is blocked.
unfoldable pub split_wave : List String → List String → List Command → List Command × List Command
unfolding inner_deps_satisfied
split_wave inner finished [] = ([], [])
split_wave inner finished (c ∷ cs) =
    let (wave, blocked) = split_wave inner finished cs in
    if inner_deps_satisfied inner finished c.meta.deps
    then (c ∷ wave, blocked)
    else (wave, c ∷ blocked)

pub data Planned : Type 0 where
  in_waves : List (List Command) → Planned
  no_waves : BatchError → Planned

abbrev pub then_waves : List Command → Planned → Planned
then_waves w (in_waves ws) = in_waves (w ∷ ws)
then_waves w (no_waves e) = no_waves e

-- The outer loop, on fuel: each round takes a wave off the remaining steps.
unfoldable pub waves_from : ℕ → String → List String → List String → List Command → Planned
unfolding split_wave
waves_from fuel b inner finished [] = in_waves []
waves_from zero b inner finished (c ∷ cs) = no_waves out_of_fuel
waves_from (suc fuel) b inner finished (c ∷ cs) =
    let (wave, blocked) = split_wave inner finished (c ∷ cs) in
    let rest = waves_from fuel b inner (map name wave ++ finished) blocked in
    elim wave [ [] ↦ no_waves (cycle_error b (length blocked)) | x ∷ xs ↦ then_waves (x ∷ xs) rest ]

unfoldable pub waves : Batch → Planned
unfolding waves_from
waves b = waves_from (length b.cmds) b.name (map name b.cmds) [] b.cmds

-- `runOne`: the events it forwards, and its error. `lines` are those that the step itself sends.
unfoldable pub run_one : String → List Event → Command → List Event × Option BatchError
run_one b lines c = elim c.answers.first_check.1 [
  | some e ↦
      if c.meta.optional
      then (record (event skipped (name c)) { err = some e } ∷ [], none)
      else ([], some (check_error b (name c) e))
  | none ↦
      if c.answers.first_check.0
      then (record (event done (name c)) { text = line_satisfied } ∷ [], none)
      else elim (c.answers.rounds 0).outcome [
        | none ↦ (event step_started (name c) ∷ lines ++ event done (name c) ∷ [], none)
        | some e ↦
            if c.meta.optional
            then (
              event step_started (name c) ∷ lines
                  ++ record (event skipped (name c)) { err = some e } ∷ [],
              none,
            )
            else (
              event step_started (name c) ∷ lines
                  ++ record (event failed (name c)) { err = some e } ∷ [],
              some (run_error b (name c) e),
            )
      ]
]

-- The goroutines of a wave in the order they finish: `Wait` waits for all and returns the first
-- error.
unfoldable pub run_wave :
    String → (String → List Event) → List Command → List Event × Option BatchError
unfolding run_one
run_wave b lines [] = ([], none)
run_wave b lines (c ∷ cs) =
    let (evs, e) = run_one b (lines (name c)) c in
    let (rest, f) = run_wave b lines cs in (evs ++ rest, elim e [ some x ↦ some x | none ↦ f ])

-- The waves one after another. `order` is the order in which a wave finishes and `ctx` the error
-- of the context after each wave.
unfoldable pub run_waves :
    String
    → (String → List Event)
    → (List Command → List Command)
    → (ℕ → Option Error)
    → List (List Command)
    → List Event × Option BatchError
unfolding run_wave
run_waves b lines order ctx [] = ([], none)
run_waves b lines order ctx (w ∷ ws) =
    let (evs, e) = run_wave b lines (order w) in
    let (rest, f) = run_waves b lines order (λ i. ctx (suc i)) ws in
    elim e [
      | some x ↦ (evs, some x)
      | none ↦ elim (ctx 0) [ some x ↦ (evs, some (ctx_error x)) | none ↦ (evs ++ rest, f) ]
    ]

unfoldable pub run_batch :
    (String → List Event)
    → (List Command → List Command)
    → (ℕ → Option Error)
    → Batch
    → List Event × Option BatchError
unfolding waves run_waves
run_batch lines order ctx b = elim (waves b) [
  | in_waves ws ↦ run_waves b.name lines order ctx ws
  | no_waves e ↦ ([], some e)
]
