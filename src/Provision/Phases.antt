-- ===== src/Provision/Phases.antt =====
-- The phases of the provisioning and the `Meta` of their steps: provision.go and carry.go of
-- internal/engine/provision, with the `Meta` of each step's file. Times are in seconds.
use mirabilis.Base.{
  String, true, Option, none, some, ◌≡◌, refl, List, [], ◌∷◌, ◌++◌, if◌then◌else◌, str_eq, contains,
  Bool, true, false, subst, arith,
}
use mirabilis.Pipeline.Types.{auto, Meta, Answers, ok}
use mirabilis.Pipeline.Build.{new, check_deps}
use mirabilis.Steps.Launch.{step_meta, answering, fresh_pipeline}

abbrev pub carry_meta : String → String → List String → Meta
carry_meta n title deps = record (step_meta n title deps auto 300) {
  optional = true;
  parallel = true;
}

abbrev pub install_meta : String → String → Meta
install_meta n title = record (carry_meta n title []) { timeout = 900 }

abbrev pub carry_create : List Meta
carry_create =
    carry_meta "loadout" "Sandbox loadout" []
    ∷ carry_meta "settings" "Claude settings" []
    ∷ carry_meta "onboarding" "Claude onboarding" []
    ∷ carry_meta "theme" "Claude theme" ("settings" ∷ [])
    ∷ carry_meta "effort" "Effort level" ("settings" ∷ [])
    ∷ carry_meta "memory" "Persistent memory" []
    ∷ carry_meta "git-identity" "Git identity" []
    ∷ carry_meta "claude-hud" "claude-hud config" []
    ∷ carry_meta "mcp" "MCP servers" []
    ∷ carry_meta "cav-shrink" "MCP description shrink" []
    ∷ install_meta "rtk" "rtk gateway"
    ∷ carry_meta "rtk-config" "rtk config" []
    ∷ []

abbrev pub carry_start : List Meta
carry_start =
    install_meta "ecosystem" "Ecosystem repos"
    ∷ install_meta "harness" "neuro-matrix harness"
    ∷ install_meta "plugins" "Claude plugins"
    ∷ install_meta "skills" "Claude skills"
    ∷ install_meta "mathtools" "Math anchor toolchain"
    ∷ []

abbrev pub create_marker : Meta
create_marker = step_meta "create-marker" "Provision marker" [] auto 10

abbrev pub start_marker : Meta
start_marker = step_meta "start-marker" "Session marker" ("settings-env" ∷ []) auto 10

abbrev pub credentials : Meta
credentials = step_meta "claude-credentials" "Claude credentials guard" [] auto 10

abbrev pub headroom : Meta
headroom = record (step_meta "headroom" "Headroom proxy" [] auto 900) { optional = true }

abbrev pub local_offload : Meta
local_offload = record (step_meta "local-offload" "Local LLM offload MCP" [] auto 300) {
  optional = true;
}

abbrev pub settings_env : Meta
settings_env = step_meta "settings-env" "Auth chain settings" ("headroom" ∷ []) auto 30

abbrev pub create : List Meta
create = carry_create ++ create_marker ∷ []

abbrev pub start : List Meta
start = credentials ∷ headroom ∷ local_offload ∷ settings_env ∷ (carry_start ++ start_marker ∷ [])

abbrev pub plugins : List Meta
plugins = install_meta "plugins" "Claude plugins" ∷ []

abbrev pub skills : List Meta
skills = install_meta "skills" "Claude skills" ∷ []

abbrev pub update : List Meta
update =
    install_meta "ecosystem" "Ecosystem repos" ∷ install_meta "harness" "neuro-matrix harness" ∷ []

-- The `switch` of `RunPhase`, which returns an error for another name.
unfoldable pub phase_steps : String → Option (List Meta)
phase_steps phase =
    if str_eq phase "create"
    then some create
    else if str_eq phase "start"
    then some start
    else if str_eq phase "plugins"
    then some plugins
    else if str_eq phase "skills"
    then some skills
    else if str_eq phase "update"
    then some update
    else none

IsAccepted : (String → Answers) → List Meta → Type 0
IsAccepted a ms = new (answering a ms) ≡ ok (fresh_pipeline (answering a ms))

chosen :
    (a : String → Answers) (b : Bool) (xs ms : List Meta) (o : Option (List Meta))
    → IsAccepted a xs
    → (o ≡ some ms → IsAccepted a ms)
    → (if b then some xs else o) ≡ some ms
    → IsAccepted a ms
chosen a true xs ms o h k e = subst (IsAccepted a) (ground (arith, e)) h
chosen a false xs ms o h k e = k e

-- `New` accepts the steps of every phase, whatever they will answer.
pub phase_steps-new :
    (a : String → Answers) (phase : String) (ms : List Meta)
    → phase_steps phase ≡ some ms
    → new (answering a ms) ≡ ok (fresh_pipeline (answering a ms))
unfolding phase_steps IsAccepted new check_deps contains
phase_steps-new a phase ms = chosen a (str_eq phase "create") create ms _ refl (
    chosen a (str_eq phase "start") start ms _ refl (
      chosen a (str_eq phase "plugins") plugins ms _ refl (
        chosen a (str_eq phase "skills") skills ms _ refl
          (chosen a (str_eq phase "update") update ms none refl (λ e. cc)))))
