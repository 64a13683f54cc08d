-- ===== src/App/Path.antt =====
-- The way of the user from the menu to a launch, choice by choice.
use mirabilis.Base.{
  Option, ◌⊎◌, ℕ, Bool, true, false, ◌≡◌, none, some, List, [], ◌∷◌, if◌then◌else◌,
}
use mirabilis.Text.{Text, codes, trim_space}
use mirabilis.Config.Tune.{write_tune, effective_tune}
use mirabilis.Steps.Launch.{launch_batched as batched_launch, launch, fresh_pipeline}
use mirabilis.App.State.{
  Screen, restart_warn, text_value, tune_value, Payload, action_launch, Facade, App, launch_steps,
}
use mirabilis.App.Menu.{pop_screen}
use mirabilis.App.Update.{Message, menu_chosen, screen_result}
use mirabilis.App.Review.{updates}

-- No pipeline runs, the facade is that one, and the program awaits those choices.
record At (f : Facade) (g r t w : Bool) (a : App) : Type 0 where
  no_pipe : a.pipe ≡ none
  same : a.facade ≡ f
  gate : a.awaiting_gate ≡ g
  role : a.awaiting_role ≡ r
  tune : a.awaiting_tune ≡ t
  restart : a.awaiting_restart ≡ w

-- The pipeline of the facade's steps runs.
abbrev Launched : Facade → App → Type 0
Launched f a = (a.pipe ≡ some (fresh_pipeline (launch_steps f))) × (a.busy ≡ true) × (a.facade ≡ f)

-- The state when the tune's screen has been closed and what it holds is saved.
abbrev tuned : Text → Bool → App → App
tuned effort fleet a = record (pop_screen a) {
  awaiting_tune = false;
  facade = record a.facade { repo = write_tune effort fleet a.facade.repo };
}

-- The user has the program at rest.
pub record IsIdle (a : App) : Type 0 where
  pub at_rest : a.busy ≡ false
  pub no_pipeline : a.pipe ≡ none
  pub not_gate : a.awaiting_gate ≡ false
  pub not_role : a.awaiting_role ≡ false
  pub not_tune : a.awaiting_tune ≡ false
  pub not_restart : a.awaiting_restart ≡ false

-- The choices on the way: launch, no update, the loadout, its tune.
abbrev pub four_choices : Text → Text → Bool → List Message
four_choices n effort fleet =
    menu_chosen action_launch
    ∷ screen_result (text_value (codes "skip"))
    ∷ screen_result (text_value n)
    ∷ screen_result (tune_value effort fleet)
    ∷ []

abbrev pub confirm : Message
confirm = screen_result (text_value (codes "restart-confirm"))

abbrev pub cancel : Message
cancel = screen_result (text_value (codes "restart-cancel"))

-- The result of the way: the pipeline of the plain or of the batched steps runs, and the tune is in
-- effect.
abbrev pub IsTuned : Facade → Text → Bool → App → Type 0
IsTuned f effort fleet b =
    (b.pipe ≡ some (fresh_pipeline (if fleet then batched_launch f.answers else launch f.answers)))
    × (b.busy ≡ true)
    × (effective_tune b.facade.repo ≡ (trim_space effort, fleet))

abbrev on_top : App → Option Screen
on_top b = elim b.above [ [] ↦ none | s ∷ ss ↦ some s ]

-- The state at the warning: nothing runs, and the warning is the screen on top.
abbrev Warned : App → Type 0
Warned b = (b.pipe ≡ none) × (b.awaiting_restart ≡ true) × (on_top b ≡ some restart_warn)

-- Back at the menu, with nothing that runs or is awaited.
abbrev Returned : App → Type 0
Returned b = (b.pipe ≡ none) × (b.awaiting_restart ≡ false) × (b.above ≡ [])

-- What follows the four choices: the warning, which leads to a launch or back, or the launch.
abbrev pub Follows : (ℕ → Payload) → Facade → Text → Bool → App → Type 0
Follows payloads f effort fleet four =
    ((f.recreates ≡ true)
      × Warned four
      × IsTuned f effort fleet (updates payloads (confirm ∷ []) four)
      × Returned (updates payloads (cancel ∷ []) four))
    ⊎ ((f.recreates ≡ false) × IsTuned f effort fleet four)
