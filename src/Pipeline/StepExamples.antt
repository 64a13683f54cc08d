-- ===== src/Pipeline/StepExamples.antt =====
-- Single steps and attempts of the pipeline on small inputs.
use mirabilis.Base.{
  inl, inr, ℕ, zero, suc, ◌≤◌, ◌<◌, ◌≡◌, refl, ◌≢◌, true, false, none, some, List, [], ◌∷◌, arith,
  is_some, length, eq_iff,
}
use mirabilis.Pipeline.Types.{auto, Meta, Resumption, other, event, waiting, Round, Answers}
use mirabilis.Pipeline.Step.{sleep, run_attempts}
use mirabilis.Pipeline.Step.Attempts.{
  runs, CtxLaw, Fails, run_attempts_recovers, run_attempts_exhausts,
}
use mirabilis.Pipeline.Attempt.{
  Delivery, Input, out_event, resume_taken, ctx_done, run_returned, resume_called, begin, attempt,
  step, drive, on_event, stay, turn,
}
use mirabilis.Pipeline.Attempt.Waiting.{IsClear, attempt-handed}
use mirabilis.Pipeline.Attempt.Answers.{IsPatient, attempt-answers}
use mirabilis.Pipeline.Attempt.Deadline.{wait_keeps_time}

-- The attempt fails once and then succeeds.
abbrev second_time : ℕ → Round
second_time zero = record {
  ctx_before = none;
  timer_won = true;
  recheck = (false, none);
  outcome = some (other "boom");
  ctx_after = none;
}
second_time (suc _) = record {
  ctx_before = none;
  timer_won = true;
  recheck = (false, none);
  outcome = none;
  ctx_after = none;
}

abbrev pull : Meta
pull = record {
  name = "pull-build";
  title = "Pull";
  deps = [];
  retry = record { attempts = 3; delay = 5 };
  timeout = 60;
  kind = auto;
  optional = false;
  parallel = true;
}

abbrev pull_answers : Answers
pull_answers = record { ctx_start = none; first_check = (false, none); rounds = second_time }

second_time-CtxLaw : CtxLaw second_time
second_time-CtxLaw zero e = cc
second_time-CtxLaw (suc i) e = cc

second_time_err : (run_attempts pull second_time).err ≡ none
unfolding run_attempts
second_time_err = refl

abbrev never : ℕ → Round
never i = second_time zero

first-Fails : (l : ℕ) → l < 1 → Fails pull second_time l
unfolding sleep
first-Fails zero h = (refl, refl, refl, refl)
first-Fails (suc l) h = absurd (omega arith)

run_attempts_recovers_example :
    ((run_attempts pull second_time).err ≡ none) × (runs (run_attempts pull second_time).calls ≡ 2)
unfolding sleep
run_attempts_recovers_example =
    run_attempts_recovers pull second_time 1 (omega arith) first-Fails refl refl refl

run_attempts_exhausts_example :
    (is_some (run_attempts pull never).err ≡ true) × (runs (run_attempts pull never).calls ≡ 3)
unfolding sleep
run_attempts_exhausts_example = run_attempts_exhausts pull never (λ l h. (refl, refl, refl, refl))

pull_named : pull.name ≢ ""
pull_named e = ground (arith, eq_iff "pull-build" "")

abbrev taken : Delivery
taken = record { forwarded = []; exit = none }

abbrev reply : Resumption
reply = record { value = 7; cancelled = false }

-- The step asks, the user answers, the step takes the answer and returns.
abbrev dialogue : List Input
dialogue =
    out_event (event waiting "x") 10 taken
    ∷ resume_called "pull-build" reply
    ∷ resume_taken taken
    ∷ run_returned none
    ∷ []

attempt-handed_example : length (attempt pull dialogue).handed ≤ 1
attempt-handed_example = attempt-handed pull dialogue pull_named

-- The step asks, is answered, and asks again.
abbrev asking : List Input
asking =
    out_event (event waiting "x") 10 taken
    ∷ resume_called "pull-build" reply
    ∷ resume_taken taken
    ∷ out_event (event waiting "y") 10 taken
    ∷ []

asking-IsPatient : IsPatient pull 0 (stay (begin pull) []) asking
unfolding IsPatient turn step begin
asking-IsPatient = (inr refl, (inl refl, (inl refl, (inr refl, tt))))

attempt-answers_example :
    let end = drive pull (attempt pull asking) (ctx_done taken ∷ resume_taken taken ∷ []) in
    (length end.handed ≡ 2) × (end.result ≡ none) × IsClear end.state
unfolding attempt drive turn step begin
attempt-answers_example =
    attempt-answers pull asking taken taken pull_named asking-IsPatient refl refl refl

wait_keeps_time_example :
    let end =
      (drive pull
        (on_event pull (event waiting "x") 10 taken (begin pull))
        (ctx_done taken ∷ [])).state in
    (end.timer_on ≡ false) × (end.timed ≡ false) × (end.remaining ≡ 50)
unfolding begin
wait_keeps_time_example =
    wait_keeps_time pull (begin pull) (event waiting "x") 10 taken (ctx_done taken ∷ []) refl refl
      tt
