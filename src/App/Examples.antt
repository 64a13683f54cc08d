-- ===== src/App/Examples.antt =====
-- Runs of the terminal interface from its start.
use mirabilis.Base.{if◌then◌else◌, ℕ, String, true, false, ◌≡◌, refl, none, some, [], ◌∷◌}
use mirabilis.Text.{Text, codes, text_eq}
use mirabilis.Config.Env.{content}
use mirabilis.Config.Tune.{Repo}
use mirabilis.Pipeline.Types.{Answers, Pipeline}
use mirabilis.Steps.Launch.{review, fresh_pipeline}
use mirabilis.App.State.{
  no_notice, no_payload, menu, Payload, LoadoutChoice, action_launch, action_review, Facade, App,
  launch_steps,
}
use mirabilis.App.Update.{menu_chosen, pipeline_done_msg, update}
use mirabilis.App.Single.{Keeps, update-Keeps}
use mirabilis.App.Review.{updates, review_sticks}

abbrev quiet : String → Answers
quiet n = record {
  ctx_start = none;
  first_check = (false, none);
  rounds = λ i. record {
    ctx_before = none;
    timer_won = true;
    recheck = (false, none);
    outcome = none;
    ctx_after = none;
  };
}

abbrev repo : Repo
repo = record {
  env = content (codes "LOADOUT=solo\n");
  packs = none;
  manifests = λ n. if text_eq n (codes "solo") then some (codes "effort high\n") else none;
}

abbrev facade : Facade
facade = record {
  repo = repo;
  catalog = codes "solo" ∷ [];
  write_error = none;
  read_error = codes "cannot read";
  recreates = true;
  version = codes "v1";
  review_mode = false;
  reduced_motion = true;
  answers = quiet;
}

abbrev at_start : App
at_start = record {
  facade = facade;
  version_status = none;
  frame_busy = false;
  frame_chrome = 0;
  above = [];
  root = menu no_notice no_notice;
  pipe = none;
  waiting = "";
  launch_cancelled = false;
  awaiting_gate = false;
  awaiting_role = false;
  awaiting_tune = false;
  awaiting_restart = false;
  gate_all_packs = false;
  gate_notice = no_notice;
  busy = false;
  busy_frame = 0;
  busy_gen = 0;
  chrome_gen = 0;
  err_notice = no_notice;
}

abbrev payloads : ℕ → Payload
payloads n = no_payload

abbrev some_pipeline : Pipeline
some_pipeline = fresh_pipeline []

abbrev launching : App
launching = record at_start { pipe = some some_pipeline; busy = true }

update-Keeps_example : Keeps none (update payloads (menu_chosen action_review) at_start)
update-Keeps_example = update-Keeps payloads (menu_chosen action_review) at_start

review_sticks_example :
    launch_steps
      (updates payloads
        (menu_chosen action_review ∷ pipeline_done_msg false ∷ menu_chosen action_launch ∷ [])
        at_start).facade
    ≡ review quiet
review_sticks_example =
    review_sticks payloads (pipeline_done_msg false ∷ menu_chosen action_launch ∷ []) at_start refl
      refl

abbrev solo : LoadoutChoice
solo = record { key = codes "solo"; effort = codes "high"; batch = false; is_default = true }
