-- ===== src/Steplist/Examples.antt =====
-- Runs of the list of steps, and its theorems at concrete steps and events.
use mirabilis.Base.{
  ◌-◌, ◌/◌, ℕ, ◌==◌, max, if◌then◌else◌, ◌+◌, ◌≤◌, ◌≡◌, refl, false, String, none, List, [], ◌∷◌,
  length,
}
use mirabilis.Text.{codes}
use mirabilis.App.State.{StepEvent, StepEventKind, step_started, step_line, step_done, step_failed}
use mirabilis.Cmdlog.{empty_log}
use mirabilis.Frame as Frame
use mirabilis.Steplist.{
  entry_lines, count_lines, progress_view, clamp_height, active_detail, view, StepRow, StepList,
  pending, new, completed, view_lines, LaunchScreen, window_size, toggle_cmdlog, step_event,
}
use mirabilis.Steplist.Verdicts.{apply_all}
use mirabilis.Steplist.Height.{updates, wrapped_titles, wrapped_detail, view-fits, IsKept}

abbrev a_row : String → StepRow
a_row n = record { name = n; title = n; detail = ""; state = pending }

abbrev says : String → StepEventKind → String → StepEvent
says n k line = record { step = n; kind = k; line = line; error = none; argv = [] }

abbrev two_steps : StepList
two_steps = new (a_row "image" ∷ a_row "harness" ∷ [])

abbrev a_run : List StepEvent
a_run =
    says "image" step_started ""
    ∷ says "harness" step_started ""
    ∷ says "image" step_done ""
    ∷ says "image" step_line "late"
    ∷ says "harness" step_failed "no plugin"
    ∷ []

all_done : completed (apply_all false a_run two_steps).rows ≡ 2
unfolding apply_all completed new
all_done = refl

abbrev the_screen : LaunchScreen
the_screen = record { steps = two_steps; log = empty_log; log_size = (0, 0); tab_focus = false }

abbrev the_frame : Frame.Frame
the_frame = Frame.new (codes "mirabilis") [] []

-- Each character takes a column, and words are broken anywhere.
abbrev lines_at : ℕ → String → ℕ
lines_at width text = if width == 0 then 1 else max 1 ((length (codes text) + (width - 1)) / width)

abbrev long_row : StepRow
long_row = record (a_row "pull") { title = "Pull (golang:1.24-bookworm)" }

-- A long title takes two lines of a list that counts one.
two_lines : view_lines lines_at (record (new (long_row ∷ [])) { height = 3; width = 40 }) ≡ 3
unfolding new view_lines view count_lines entry_lines progress_view completed clamp_height
    active_detail
two_lines = refl

view-fits_example :
    let (w, h) = Frame.main_size the_frame in
    let t =
      updates false
        (window_size w h ∷ toggle_cmdlog ∷ step_event (says "image" step_started "") ∷ [])
        the_screen in
    (view_lines lines_at t.steps + t.log_size.1 + 1
      ≤ h
        + (wrapped_titles lines_at t.steps.rows
            + wrapped_detail lines_at t.steps.width t.steps.rows))
    × (1 ≤ t.log_size.1)
unfolding Frame.breakpoint Frame.new IsKept
view-fits_example =
    view-fits lines_at the_frame false
      (toggle_cmdlog ∷ step_event (says "image" step_started "") ∷ []) the_screen (λ h. cc)
      (tt, (tt, tt))
