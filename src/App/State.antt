-- ===== src/App/State.antt =====
-- `App` of internal/tui/app/app.go, the messages of messages.go and internal/bus/bus.go, and the
-- facade of cmd/mirabilis/facade.go.
-- A command (`tea.Cmd`) and a call that leaves the program are a `Request` that a handler returns.
-- Screens are what they are made from: what they draw and their sizes are left out.
use mirabilis.Base.{false, ◌||◌, ℕ, String, Bool, Option, none, some, List, [], ◌∷◌, if◌then◌else◌}
use mirabilis.Text.{Text, text_eq, split_lines}
use mirabilis.Config.Loadout.{read_loadout_manifest}
use mirabilis.Config.Env.{Read, missing, unreadable, content, sets_key, env_read}
use mirabilis.Config.Tune.{
  effort_key, batch_key, Repo, loadout_key, default_loadout, or_default, write_loadout, write_tune,
  clear_tune, launch_batched,
}
use mirabilis.Pipeline.Types.{Error, Answers, Command, Pipeline}
use mirabilis.Steps.Launch.{launch_batched as batched_launch, launch, review}

-- The strings that a notice begins with, each with what the code appends. `no_notice` is "".
pub data Notice : Type 0 where
  no_notice busy_wait vscode_opening vscode_opened update_running self_update_running
        self_update_staged launch_failed launch_canceled :
      Notice
  vscode_error self_update_degraded loadout_error : Text → Notice
  launch_error : Error → Notice

pub data Action : Type 0 where
  action_launch action_review action_vscode action_quit action_other : Action

pub record LoadoutChoice : Type 0 where
  pub key : Text
  pub effort : Text
  pub batch : Bool
  pub is_default : Bool

pub data Screen : Type 0 where
  menu : Notice → Notice → Screen
  update_gate : Text → Text → Screen
  role_picker : List LoadoutChoice → Screen
  tune : Text → Bool → Screen
  restart_warn : Screen
  launch_screen : List (String × String) → Screen
  form_screen : ℕ → Screen
  gh_auth : Text → Text → Screen

-- `bus.ScreenResult`: the `Value` by its Go type, or the `Values` of a form.
pub data Value : Type 0 where
  no_value : Value
  text_value : Text → Value
  tune_value : Text → Bool → Value
  choices : List (String × List String) → Value

pub data StepEventKind : Type 0 where
  step_started step_line step_done step_failed step_skipped step_waiting : StepEventKind

pub record StepEvent : Type 0 where
  pub step : String
  pub kind : StepEventKind
  pub line : String
  pub error : Option Error
  pub argv : List String

-- `Payload` of an event that waits, by its Go type.
pub data Payload : Type 0 where
  no_payload : Payload
  wizard : ℕ → Payload
  gh_code : Text → Text → Payload

pub data Key : Type 0 where
  key_q key_x key_esc key_tab key_up key_down key_enter key_other : Key

pub data Request : Type 0 where
  quit cancel crash toggle_cmdlog pump_events watch_status open_vscode self_update update_ecosystem
        run_pipeline :
      Request
  busy_tick chrome_tick : ℕ → Request
  open_url copy_text : Text → Request
  exec_terminal : String → List String → Request
  push_screen : Screen → Request
  choose : Action → Request
  deliver : StepEvent → Request
  deliver_copied : Bool → Request
  frame_key top_key : Key → Request
  resume : String → Value → Bool → Request

-- The facade: the files, and what the outside answers to it. `write_error` is the error of a write
-- to `.env`, `read_error` that of a read.
pub record Facade : Type 0 where
  pub repo : Repo
  pub catalog : List Text
  pub write_error : Option Text
  pub read_error : Text
  pub recreates : Bool
  pub version : Text
  pub review_mode : Bool
  pub reduced_motion : Bool
  pub answers : String → Answers

-- The first loop of `Loadouts`.
unfoldable pub loadouts_from : Repo → Text → List Text → List LoadoutChoice
unfolding text_eq
loadouts_from r active [] = []
loadouts_from r active (n ∷ ns) =
    let rest = loadouts_from r active ns in
    let (lo, found) = read_loadout_manifest r.packs n (r.manifests n) in
    if found
    then record { key = n; effort = lo.effort; batch = lo.batch; is_default = text_eq n active }
      ∷ rest
    else rest

unfoldable pub loadouts : Facade → List LoadoutChoice
unfolding loadouts_from or_default
loadouts f =
    loadouts_from f.repo (or_default default_loadout (env_read loadout_key f.repo.env)) f.catalog

unfoldable pub select_loadout : Text → Facade → Facade × Option Text
unfolding write_loadout
select_loadout n f = elim f.write_error [
  | some e ↦ (f, some e)
  | none ↦ (record f { repo = write_loadout n f.repo }, none)
]

unfoldable pub save_tune : Text → Bool → Facade → Facade × Option Text
save_tune effort fleet f = elim f.write_error [
  | some e ↦ (f, some e)
  | none ↦ (record f { repo = write_tune effort fleet f.repo }, none)
]

-- Does `ClearTune` write to `.env`, where it can read it?
unfoldable pub sets_tune : Read → Bool
unfolding sets_key split_lines
sets_tune missing = false
sets_tune unreadable = false
sets_tune (content s) = sets_key effort_key (split_lines s) || sets_key batch_key (split_lines s)

-- The first write that fails leaves the file as it is.
unfoldable pub drop_tune : Facade → Facade × Option Text
unfolding clear_tune sets_tune
drop_tune f =
    let (repo, failed) = clear_tune f.repo in
    if failed then (record f { repo = repo }, some f.read_error) else elim f.write_error [
      | none ↦ (record f { repo = repo }, none)
      | some e ↦ if sets_tune f.repo.env then (f, some e) else (record f { repo = repo }, none)
    ]

abbrev pub set_review_mode : Bool → Facade → Facade
set_review_mode on f = record f { review_mode = on }

unfoldable pub launch_steps : Facade → List Command
launch_steps f =
    if f.review_mode
    then review f.answers
    else if launch_batched f.repo
    then batched_launch f.answers
    else launch f.answers

pub data State : Type 0 where
  unknown ok_state degraded off : State

pub record NodeStatus : Type 0 where
  pub detail : Text
  pub state : State

-- `router` holds the stack of screens, the top one first; its root stands apart, since the router
-- never drops it.
pub record App : Type 0 where
  pub facade : Facade
  pub version_status : Option NodeStatus
  pub frame_busy : Bool
  pub frame_chrome : ℕ
  pub above : List Screen
  pub root : Screen
  pub pipe : Option Pipeline
  pub waiting : String
  pub launch_cancelled : Bool
  pub awaiting_gate : Bool
  pub awaiting_role : Bool
  pub awaiting_tune : Bool
  pub awaiting_restart : Bool
  pub gate_all_packs : Bool
  pub gate_notice : Notice
  pub busy : Bool
  pub busy_frame : ℕ
  pub busy_gen : ℕ
  pub chrome_gen : ℕ
  pub err_notice : Notice

abbrev pub Handled : Type 0
Handled = App × List Request
