-- ===== src/Pipeline/Examples.antt =====
-- Runs of the pipeline on a small launch: a check, two pulls in parallel of which one fails, and
-- an image that needs both.
use mirabilis.Base.{
  ℕ, zero, suc, String, ◌≡◌, refl, Bool, true, false, none, some, List, [], ◌∷◌, ◌++◌, map, is_some,
  lookup, contains, insert, insert_all,
}
use mirabilis.Pipeline.Types.{
  auto, Meta, other, state_done, state_skipped, state_failed, Round, Answers, Command, ok,
}
use mirabilis.Pipeline.Build.{new, check_deps}
use mirabilis.Pipeline.Build.Order.{IsOrdered, new-ok_iff, fresh}
use mirabilis.Pipeline.Step.{run_step}
use mirabilis.Pipeline.Run.{
  Schedule, start, run, failed_dep, depends_on, collect_auto_batch, skip_blocked, run_single,
  run_auto_batch, run_from, advance, keep_first, out_states, out_errs, batch_step, finish,
}
use mirabilis.Pipeline.Run.Batch.{Starts}
use mirabilis.Pipeline.Run.Judge.{verdict, Same}
use mirabilis.Pipeline.Run.Equal.{IsFair, Judges, run-Judges}
use mirabilis.Pipeline.Run.Settled.{unbatched, run-unbatched, run_settles}

-- The attempt fails twice and then succeeds.
abbrev flaky : ℕ → Round
flaky zero = record {
  ctx_before = none;
  timer_won = true;
  recheck = (false, none);
  outcome = some (other "boom");
  ctx_after = none;
}
flaky (suc zero) = record {
  ctx_before = none;
  timer_won = true;
  recheck = (false, none);
  outcome = some (other "boom");
  ctx_after = none;
}
flaky (suc (suc _)) = record {
  ctx_before = none;
  timer_won = true;
  recheck = (false, none);
  outcome = none;
  ctx_after = none;
}

abbrev answers : Answers
answers = record { ctx_start = none; first_check = (false, none); rounds = flaky }

abbrev launch_meta : String → List String → ℕ → Bool → Meta
launch_meta n deps attempts parallel = record {
  name = n;
  title = n;
  deps = deps;
  retry = record { attempts = attempts; delay = 5 };
  timeout = 60;
  kind = auto;
  optional = false;
  parallel = parallel;
}

abbrev command : String → List String → ℕ → Bool → Command
command n deps attempts parallel = record {
  meta = launch_meta n deps attempts parallel;
  answers = answers;
}

abbrev preflight : Command
preflight = command "preflight" [] 3 false

abbrev pulls : List Command
pulls =
    command "pull-build" ("preflight" ∷ []) 1 true
    ∷ command "pull-runtime" ("preflight" ∷ []) 3 true
    ∷ []

abbrev image : Command
image = command "image" ("pull-build" ∷ "pull-runtime" ∷ []) 3 false

abbrev launch : List Command
launch = preflight ∷ pulls ++ image ∷ []

abbrev in_order : Schedule
in_order = record { ctx = λ i. none; arrive = λ rs. rs; range = λ m. m; interleave = λ ls. [] }

in_order-IsFair : IsFair in_order
in_order-IsFair = record {
  received = λ rs r. (λ m. m, λ m. m);
  ranged = λ m e. (λ n. n, λ n. n);
  alive = λ i. refl;
}

launch_made : new launch ≡ ok (fresh launch)
unfolding new check_deps contains
launch_made = refl

new-ok_iff_example : IsOrdered launch
new-ok_iff_example = (new-ok_iff launch).0 launch_made

launch_states :
    let states = (run in_order (fresh launch)).0.progress.states in
    (lookup "pull-build" states ≡ some state_failed)
    × (lookup "pull-runtime" states ≡ some state_done)
    × (lookup "image" states ≡ some state_skipped)
unfolding run run_from advance skip_blocked run_single run_auto_batch collect_auto_batch failed_dep
    depends_on contains lookup insert insert_all out_states out_errs batch_step run_step keep_first
    finish
launch_states = (refl, refl, refl)

launch-Starts : Starts launch
launch-Starts = (refl, (refl, (refl, (refl, tt))))

run-Judges_example : Judges start launch (run in_order (fresh launch)).0
run-Judges_example = run-Judges launch in_order new-ok_iff_example launch-Starts in_order-IsFair

run-unbatched_example :
    let batched = (run in_order (fresh launch)).0 in
    let single = (run in_order (fresh (map unbatched launch))).0 in
    Same batched.progress.states single.progress.states × (is_some batched.err ≡ is_some single.err)
run-unbatched_example =
    run-unbatched launch in_order in_order new-ok_iff_example launch-Starts in_order-IsFair
      in_order-IsFair

run_settles_example :
    let states = (run in_order (fresh launch)).0.progress.states in
    lookup "image" states ≡ some (verdict states image)
run_settles_example =
    run_settles (preflight ∷ pulls) [] image in_order new-ok_iff_example launch-Starts
      in_order-IsFair
