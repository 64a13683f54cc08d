-- ===== src/Steps/Launch.antt =====
-- The lists of steps that a launch can run, in internal/engine/steps: `Launch`, `LaunchBatched` and
-- `Review`, with the `Meta` of each step. Times are in seconds. What the steps answer is an argument;
-- that of the batch step is not tied to its own steps here.
use mirabilis.Base.{ℕ, String, true, false, ◌≡◌, refl, List, [], ◌∷◌, contains}
use mirabilis.Pipeline.Types.{
  Kind, auto, interactive, terminal, handoff, Meta, Answers, Command, Pipeline, ok,
}
use mirabilis.Pipeline.Build.{new, check_deps}
use mirabilis.Steps.Batch.{Batch, batch_meta, new_batch, outer_deps}

-- A `Meta` with the fields that a step leaves out.
abbrev pub step_meta : String → String → List String → Kind → ℕ → Meta
step_meta n title deps kind timeout = record {
  name = n;
  title = title;
  deps = deps;
  retry = record { attempts = 0; delay = 0 };
  timeout = timeout;
  kind = kind;
  optional = false;
  parallel = false;
}

abbrev pub preflight : Meta
preflight = step_meta "preflight" "Preflight" [] auto 90

abbrev pub claude_auth : Meta
claude_auth = step_meta "claude-auth" "Claude auth" ("preflight" ∷ []) terminal 0

abbrev pub config : Meta
config = step_meta "config" "Config" [] interactive 0

abbrev pub pull_build : Meta
pull_build =
    record (step_meta "pull-build"
      "Pull (golang:1.26-trixie@sha256:bbf22ddccb3205344f2755ea8fa4fe39f7a8b2b77b9f7b764ec2aad31406f6fc)"
      ("preflight" ∷ []) auto 900) { parallel = true }

abbrev pub pull_runtime : Meta
pull_runtime =
    record (step_meta "pull-runtime"
      "Pull (node:26-trixie-slim@sha256:191ef878ecb351d68b78219593de18bd8942afd59af59f29960dc4b24805a3f1)"
      ("preflight" ∷ []) auto 900) { parallel = true }

abbrev pub image : Meta
image =
    step_meta "image" "Image" ("preflight" ∷ "config" ∷ "pull-build" ∷ "pull-runtime" ∷ []) auto 900

abbrev pub container : Meta
container = record (step_meta "container" "Container" ("image" ∷ []) auto 180) {
  retry = record { attempts = 2; delay = 2 };
}

abbrev pub provision_create : Meta
provision_create =
    record (step_meta "provision-create" "Provision (create)" ("container" ∷ []) auto 300) {
      retry = record { attempts = 2; delay = 2 };
    }

abbrev pub provision_start : Meta
provision_start =
    record (step_meta "provision-start" "Provision (start)" ("provision-create" ∷ []) auto 300) {
      retry = record { attempts = 2; delay = 2 };
    }

abbrev pub gh_auth : Meta
gh_auth = step_meta "gh-auth" "GitHub sign-in" ("container" ∷ []) interactive 0

abbrev pub plugins_apply : Meta
plugins_apply =
    record (step_meta "plugins" "Plugins" ("provision-start" ∷ "config" ∷ []) auto 300) {
      optional = true;
    }

abbrev pub skills_apply : Meta
skills_apply = record (step_meta "skills" "Skills" ("provision-start" ∷ "config" ∷ []) auto 300) {
  optional = true;
}

abbrev pub harness : Meta
harness = record (step_meta "harness" "Harness" ("provision-start" ∷ []) auto 300) {
  optional = true;
}

abbrev pub attach : Meta
attach = step_meta "attach" "Claude" ("claude-auth" ∷ "provision-start" ∷ []) handoff 0

abbrev pub review_harvest : Meta
review_harvest = step_meta "review-harvest" "Harvest" [] auto 120

abbrev pub review_present : Meta
review_present = step_meta "review-present" "Review" ("review-harvest" ∷ []) terminal 0

-- The commands with those metas, each with what it will answer.
abbrev pub answering : (String → Answers) → List Meta → List Command
answering a [] = []
answering a (m ∷ ms) = record { meta = m; answers = a m.name } ∷ answering a ms

unfoldable pub launch : (String → Answers) → List Command
launch a = answering a (
    preflight ∷ claude_auth ∷ config ∷ pull_build ∷ pull_runtime ∷ image ∷ container
    ∷ provision_create ∷ provision_start ∷ gh_auth ∷ plugins_apply ∷ skills_apply ∷ harness ∷ attach
    ∷ [])

unfoldable pub apply_batch : (String → Answers) → Batch
unfolding new_batch
apply_batch a =
    new_batch "apply-batch" "Apply" (answering a (plugins_apply ∷ skills_apply ∷ harness ∷ []))

unfoldable pub launch_batched : (String → Answers) → List Command
unfolding apply_batch batch_meta
launch_batched a = answering a (
    preflight
    ∷ claude_auth
    ∷ config
    ∷ pull_build
    ∷ pull_runtime
    ∷ image
    ∷ container
    ∷ provision_create
    ∷ provision_start
    ∷ gh_auth
    ∷ batch_meta (apply_batch a)
    ∷ attach
    ∷ [])

unfoldable pub review : (String → Answers) → List Command
review a = answering a (review_harvest ∷ review_present ∷ [])

-- A pipeline that has not run.
abbrev pub fresh_pipeline : List Command → Pipeline
fresh_pipeline cs = record { steps = cs; started = false; waiting = ""; resume = false }

-- `New` accepts each of the three lists, whatever their steps will answer, and the batch of the
-- second waits for the two steps that its own steps wait for.
pub new-launches :
    (a : String → Answers)
    → (new (launch a) ≡ ok (fresh_pipeline (launch a)))
      × (new (launch_batched a) ≡ ok (fresh_pipeline (launch_batched a)))
      × (new (review a) ≡ ok (fresh_pipeline (review a)))
      × ((apply_batch a).deps ≡ "config" ∷ "provision-start" ∷ [])
unfolding new launch launch_batched review outer_deps contains check_deps
new-launches a = (refl, refl, refl, refl)
