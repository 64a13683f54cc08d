-- ===== src/Screens/Tune/Examples.antt =====
-- Keys on the tune (internal/tui/screens/tune.go).
use mirabilis.Base.{◌≡◌, refl, true, false, none, List, [], ◌∷◌, Memᴰ}
use mirabilis.Text.{codes, text_eq}
use mirabilis.Config.Env.{missing}
use mirabilis.Config.Tune.{Repo, effective_tune, write_tune}
use mirabilis.Screens.{Press, press_right, press_down, press_left, press_enter, move_on}
use mirabilis.Screens.Tune.{
  effort_cycle, index_from, normalize_effort, effort_index, new_tune, effort_at, back_index,
  on_index, tuned, set_effort, adjust, press_tune, press_all,
}
use mirabilis.Screens.Tune.Known.{press_all-effective}

-- The effort of the tune is turned twice, and the fleet once.
abbrev keys : List Press
keys = press_right ∷ press_right ∷ press_down ∷ press_left ∷ []

enter :
    (press_tune press_enter (press_all keys (new_tune (codes "medium") false))).1
    ≡ tuned (codes "xhigh") true
unfolding press_tune press_all new_tune adjust set_effort effort_index index_from normalize_effort
    effort_at back_index on_index move_on text_eq
enter = refl

abbrev no_files : Repo
no_files = record { env = missing; packs = none; manifests = λ n. none }

press_all-effective_example :
    Memᴰ (codes "xhigh") effort_cycle
    × (effective_tune (write_tune (codes "xhigh") true no_files) ≡ (codes "xhigh", true))
press_all-effective_example =
    press_all-effective (codes "medium") false keys press_enter (codes "xhigh") true no_files enter
