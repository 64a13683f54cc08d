-- ===== src/Steplist.antt =====
-- The list of steps on the launch screen: internal/tui/components/steplist/steplist.go, and the launch
-- screen itself, internal/tui/app/screens.go. The position of the bar is a spring of a library on
-- floating-point numbers: only whether it moves is kept, and its aim, as two numbers.
pub mod Verdicts
pub mod Height
mod Examples
use mirabilis.Base.{
  ℕ, zero, suc, ◌+◌, ◌-◌, ◌/◌, max, Bool, true, false, not, ◌||◌, Option, none, some, String, List,
  [], ◌∷◌, ◌++◌, map, if◌then◌else◌, ltb, leb, ◌==◌, length, take, str_eq,
}
use mirabilis.App.State.{
  StepEvent, StepEventKind, step_started, step_line, step_done, step_failed, step_skipped,
  step_waiting,
}
use mirabilis.Cmdlog as Cmdlog

pub data RowState : Type 0 where
  pending running done failed skipped waiting : RowState

pub record StepRow : Type 0 where
  pub name : String
  pub title : String
  pub detail : String
  pub state : RowState

pub record StepList : Type 0 where
  pub rows : List StepRow
  pub width : ℕ
  pub height : ℕ
  pub animate : Bool
  pub aim : ℕ × ℕ

-- What is asked of the toolkit: the next picture of the spinner, or of the bar.
pub data Tick : Type 0 where
  no_tick spin_tick progress_tick : Tick

-- Done, failed and skipped steps count.
abbrev pub is_settled : RowState → Bool
is_settled pending = false
is_settled running = false
is_settled done = true
is_settled failed = true
is_settled skipped = true
is_settled waiting = false

unfoldable pub completed : List StepRow → ℕ
completed [] = 0
completed (r ∷ rs) = let rest = completed rs in if is_settled r.state then suc rest else rest

-- `ratio`, the number of completed steps of those there are; none of none for an empty list.
abbrev pub ratio : List StepRow → ℕ × ℕ
ratio rs = (completed rs, length rs)

unfoldable pub new : List StepRow → StepList
unfolding completed
new rows = record { rows = rows; width = 0; height = 0; animate = false; aim = ratio rows }

-- `setDetail`
abbrev pub or_kept : String → String → String
or_kept line detail = if str_eq line "" then detail else line

-- What an event of its step does to a row.
unfoldable pub apply_row : StepEventKind → String → StepRow → StepRow
apply_row step_started line r = record r { state = running; detail = line }
apply_row step_line line r = record r { detail = line }
apply_row step_done line r = record r { state = done; detail = or_kept line r.detail }
apply_row step_failed line r = record r { state = failed; detail = or_kept line r.detail }
apply_row step_skipped line r = record r { state = skipped; detail = or_kept line r.detail }
apply_row step_waiting line r = record r {
  state = waiting;
  detail = if str_eq line "" then "waiting" else line;
}

-- The loop of `apply`.
unfoldable pub apply_rows : StepEvent → List StepRow → List StepRow
unfolding apply_row
apply_rows ev [] = []
apply_rows ev (r ∷ rs) =
    (if str_eq r.name ev.step then apply_row ev.kind ev.line r else r) ∷ apply_rows ev rs

-- With reduced motion nothing is animated.
module _ (reduced_motion : Bool) where
  unfoldable pub retarget : StepList → StepList × Tick
  unfolding completed
  retarget m =
      let aimed = record m { aim = ratio m.rows } in
      if reduced_motion
      then (record aimed { animate = false }, no_tick)
      else if m.animate
      then (aimed, no_tick)
      else (record aimed { animate = true }, progress_tick)

  unfoldable pub apply : StepEvent → StepList → StepList × Tick
  unfolding apply_rows retarget
  apply ev m =
      let applied = record m { rows = apply_rows ev m.rows } in
      elim ev.kind [
        | step_started ↦ (applied, (if reduced_motion then no_tick else spin_tick))
        | step_done ↦ retarget applied
        | step_failed ↦ retarget applied
        | step_skipped ↦ retarget applied
        | step_line ↦ (applied, no_tick)
        | step_waiting ↦ (applied, no_tick)
      ]

abbrev pub is_running : RowState → Bool
is_running pending = false
is_running running = true
is_running done = false
is_running failed = false
is_running skipped = false
is_running waiting = false

unfoldable pub any_running : List StepRow → Bool
any_running [] = false
any_running (r ∷ rs) = is_running r.state || any_running rs

-- What `View` lists, an entry for each. An entry is a text of one line or of more: a title is wrapped at
-- 17 columns, and a detail at the width of the list.
pub data Drawn : Type 0 where
  bar : ℕ → ℕ → Drawn
  row : StepRow → Drawn
  more : ℕ → Drawn
  detail_line : String → Drawn

unfoldable pub progress_view : List StepRow → List Drawn
unfolding completed
progress_view rs =
    if length rs == 0 || completed rs == 0 then [] else bar (completed rs) (length rs) ∷ []

-- The detail of the first step that runs or waits; a blank line if none does.
abbrev pub is_active : RowState → Bool
is_active pending = false
is_active running = true
is_active done = false
is_active failed = false
is_active skipped = false
is_active waiting = true

unfoldable pub active_detail : List StepRow → Drawn
active_detail [] = detail_line " "
active_detail (r ∷ rs) =
    let rest = active_detail rs in
    if is_active r.state then detail_line (if str_eq r.detail "" then " " else r.detail) else rest

unfoldable pub clamp_height : ℕ → List Drawn → List Drawn
clamp_height height ls =
    let budget = height - 1 in
    if budget == 0 || leb (length ls) budget
    then ls
    else let keep = max (budget - 1) 1 in take keep ls ++ more (length ls - keep) ∷ []

unfoldable pub view : StepList → List Drawn
unfolding progress_view clamp_height active_detail
view m = clamp_height m.height (progress_view m.rows ++ map row m.rows) ++ active_detail m.rows ∷ []

abbrev pub title_width : ℕ
title_width = 17

-- How many lines an entry takes. `lines_at` is the library that draws: how many lines a text takes at a
-- width, at its own width where that is 0. Truncating a line does not change the number.
unfoldable pub entry_lines : (ℕ → String → ℕ) → ℕ → Drawn → ℕ
entry_lines lines_at width (bar n total) = 1
entry_lines lines_at width (row r) = lines_at title_width r.title
entry_lines lines_at width (more hidden) = 1
entry_lines lines_at width (detail_line detail) = lines_at width detail

unfoldable pub count_lines : (ℕ → String → ℕ) → ℕ → List Drawn → ℕ
unfolding entry_lines
count_lines lines_at width [] = 0
count_lines lines_at width (d ∷ ds) = entry_lines lines_at width d + count_lines lines_at width ds

-- The lines of what `View` draws.
unfoldable pub view_lines : (ℕ → String → ℕ) → StepList → ℕ
unfolding view count_lines
view_lines lines_at m = count_lines lines_at m.width (view m)

-- The launch screen: the steps above, the command log below.
pub record LaunchScreen : Type 0 where
  pub steps : StepList
  pub log : Cmdlog.Log
  pub log_size : ℕ × ℕ
  pub tab_focus : Bool

pub data Message : Type 0 where
  window_size : ℕ → ℕ → Message
  toggle_cmdlog : Message
  step_event : StepEvent → Message

unfoldable pub update : Bool → Message → LaunchScreen → LaunchScreen × Tick
unfolding apply
update reduced (window_size w h) s =
    let log_h = h / 3 in
    (
      record s {
        steps = record s.steps { width = w; height = h - log_h - 1 };
        log_size = (w, log_h);
      },
      no_tick,
    )
update reduced toggle_cmdlog s = (record s { tab_focus = not s.tab_focus }, no_tick)
update reduced (step_event ev) s =
    let (steps, tick) = apply reduced ev s.steps in
    (record s { steps = steps; log = Cmdlog.update ev s.log }, tick)
