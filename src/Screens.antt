-- ===== src/Screens.antt =====
-- The screens with options on the way to a launch (internal/tui/screens): updategate.go,
-- restartwarn.go and rolepicker.go. A key is named by its first name in the code ("k" is "up", and so on).
-- What a screen asks for is the value of a `ScreenResult`, or a `ScreenPop`. What it draws is left
-- out.
pub mod Cursor
pub mod Tune
use mirabilis.Base.{
  ℕ, zero, suc, ◌+◌, ◌-◌, ◌/◌, ltb, leb, ◌==◌, Bool, true, false, not, ◌&&◌, Option, none, some,
  List, [], ◌∷◌, length, map, if◌then◌else◌,
}
use mirabilis.Text.{Text, codes, text_eq}
use mirabilis.App.State.{LoadoutChoice}

pub data Press : Type 0 where
  press_up press_down press_left press_right press_space press_enter press_esc press_other : Press

-- `out_of_range` is the panic of an index that is out of range.
pub data Asked : Type 0 where
  nothing pop out_of_range : Asked
  result : Text → Asked

-- `target := cursor + delta`, for a delta that goes back and one that goes on.
unfoldable pub move_back : ℕ → ℕ → ℕ
move_back d cursor = if leb d cursor then cursor - d else cursor

unfoldable pub move_on : ℕ → ℕ → ℕ → ℕ
move_on d len cursor = if ltb (cursor + d) len then cursor + d else cursor

unfoldable pub at_index : ℕ → List Text → Asked
at_index n [] = out_of_range
at_index zero (t ∷ ts) = result t
at_index (suc n) (t ∷ ts) = at_index n ts

abbrev pub gate_options : List Text
gate_options = codes "skip" ∷ codes "self" ∷ codes "packs" ∷ codes "all" ∷ []

abbrev pub warn_options : List Text
warn_options = codes "restart-cancel" ∷ codes "restart-confirm" ∷ []

-- `Update` of the two screens with a list, which differ in their options and in what `esc` answers.
unfoldable pub press_list : List Text → Text → Press → ℕ → ℕ × Asked
unfolding move_back move_on at_index
press_list options leave press_up cursor = (move_back 1 cursor, nothing)
press_list options leave press_down cursor = (move_on 1 (length options) cursor, nothing)
press_list options leave press_enter cursor = (cursor, at_index cursor options)
press_list options leave press_esc cursor = (cursor, result leave)
press_list options leave _ cursor = (cursor, nothing)

unfoldable pub press_gate : Press → ℕ → ℕ × Asked
unfolding press_list
press_gate = press_list gate_options (codes "skip")

unfoldable pub press_warn : Press → ℕ → ℕ × Asked
unfolding press_list
press_warn = press_list warn_options (codes "restart-cancel")

pub record RolePicker : Type 0 where
  pub options : List LoadoutChoice
  pub cursor : ℕ
  pub win_w : ℕ

-- The index of the first default, if there is one.
unfoldable pub default_index : ℕ → List LoadoutChoice → ℕ
default_index i [] = 0
default_index i (c ∷ cs) = let rest = default_index (suc i) cs in if c.is_default then i else rest

unfoldable pub new_role_picker : List LoadoutChoice → RolePicker
unfolding default_index
new_role_picker options = record { options = options; cursor = default_index 0 options; win_w = 0 }

-- The tiles of a row: each is 28 wide, with a gap of 1.
unfoldable pub columns : RolePicker → ℕ
columns r =
    let cols = (r.win_w + 1) / 29 in
    if r.win_w == 0
    then 1
    else if ltb cols 1
    then 1
    else if ltb (length r.options) cols && ltb 0 (length r.options)
    then length r.options
    else cols

unfoldable pub press_role : Press → RolePicker → RolePicker × Asked
unfolding columns move_back move_on at_index
press_role press_left r = (record r { cursor = move_back 1 r.cursor }, nothing)
press_role press_right r = (record r { cursor = move_on 1 (length r.options) r.cursor }, nothing)
press_role press_up r = (record r { cursor = move_back (columns r) r.cursor }, nothing)
press_role press_down r =
    (record r { cursor = move_on (columns r) (length r.options) r.cursor }, nothing)
press_role press_enter r = (
  r,
  elim r.options [
    | [] ↦ nothing
    | c ∷ cs ↦ at_index r.cursor (map (λ (x : LoadoutChoice). x.key) (c ∷ cs))
  ],
)
press_role press_esc r = (r, pop)
press_role press_space r = (r, nothing)
press_role press_other r = (r, nothing)
