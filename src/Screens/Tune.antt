-- ===== src/Screens/Tune.antt =====
-- The screen of a quick tune: internal/tui/screens/tune.go. What it draws is left out.
pub mod Known
mod Examples
use mirabilis.Base.{
  ℕ, zero, suc, ◌+◌, ◌-◌, ltb, leb, Bool, true, false, not, Option, none, some, List, [], ◌∷◌,
  length, if◌then◌else◌,
}
use mirabilis.Text.{Text, codes, text_eq}
use mirabilis.Screens.{
  Press, press_up, press_down, press_left, press_right, press_space, press_enter, press_esc,
  press_other, move_back, move_on,
}

abbrev pub medium : Text
medium = codes "medium"

abbrev pub effort_cycle : List Text
effort_cycle = codes "low" ∷ medium ∷ codes "high" ∷ codes "xhigh" ∷ codes "max" ∷ []

pub record Tune : Type 0 where
  pub effort : Text
  pub row : ℕ
  pub fleet : Bool

-- The index of a text from some index on, if it is there.
unfoldable pub index_from : ℕ → Text → List Text → Option ℕ
unfolding text_eq
index_from i t [] = none
index_from i t (e ∷ es) = let rest = index_from (suc i) t es in if text_eq e t then some i else rest

unfoldable pub normalize_effort : Text → Text
unfolding index_from
normalize_effort effort = elim (index_from 0 effort effort_cycle) [
  | none ↦ medium
  | some i ↦ effort
]

unfoldable pub effort_index : Text → ℕ
unfolding index_from
effort_index effort = elim (index_from 0 effort effort_cycle) [ none ↦ 0 | some i ↦ i ]

unfoldable pub new_tune : Text → Bool → Tune
unfolding normalize_effort
new_tune effort fleet = record { effort = normalize_effort effort; row = 0; fleet = fleet }

-- `effortCycle[i]`; an index that is out of range would be a panic, which is no text.
unfoldable pub effort_at : ℕ → List Text → Option Text
effort_at n [] = none
effort_at zero (e ∷ es) = some e
effort_at (suc n) (e ∷ es) = effort_at n es

unfoldable pub back_index : ℕ → ℕ
back_index i = if leb 1 i then i - 1 else 0

unfoldable pub on_index : ℕ → ℕ
on_index i = if ltb (i + 1) (length effort_cycle) then i + 1 else length effort_cycle - 1

-- What a key asks for, with `out_of_range` for the panic.
pub data TuneAsked : Type 0 where
  no_ask leave out_of_range : TuneAsked
  tuned : Text → Bool → TuneAsked

unfoldable pub set_effort : ℕ → Tune → Tune × TuneAsked
unfolding effort_at
set_effort i t = elim (effort_at i effort_cycle) [
  | none ↦ (t, out_of_range)
  | some e ↦ (record t { effort = e }, no_ask)
]

-- `adjust`, with the row and the new index of the effort: on the second row the fleet is turned, and on
-- no other.
unfoldable pub adjust : ℕ → ℕ → Tune → Tune × TuneAsked
unfolding set_effort
adjust zero i t = set_effort i t
adjust (suc zero) i t = (record t { fleet = not t.fleet }, no_ask)
adjust (suc (suc n)) i t = (t, no_ask)

unfoldable pub press_tune : Press → Tune → Tune × TuneAsked
unfolding move_back move_on adjust effort_index back_index on_index
press_tune press_up t = (record t { row = move_back 1 t.row }, no_ask)
press_tune press_down t = (record t { row = move_on 1 2 t.row }, no_ask)
press_tune press_left t = adjust t.row (back_index (effort_index t.effort)) t
press_tune press_right t = adjust t.row (on_index (effort_index t.effort)) t
press_tune press_space t = adjust t.row (on_index (effort_index t.effort)) t
press_tune press_enter t = (t, tuned t.effort t.fleet)
press_tune press_esc t = (t, leave)
press_tune press_other t = (t, no_ask)

unfoldable pub press_all : List Press → Tune → Tune
unfolding press_tune
press_all [] t = t
press_all (k ∷ ks) t = press_all ks (press_tune k t).0
