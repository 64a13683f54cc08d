-- ===== src/App/Terminal.antt =====
-- A terminal step that has ended still counts as the step that waits.
use mirabilis.Base.{ℕ, Bool, false, ◌≡◌, ◌≢◌, some, [], ◌∷◌, arith, eq_iff}
use mirabilis.Pipeline.Types.{Event, Pipeline, waiting as ev_waiting}
use mirabilis.App.State.{Payload, menu, launch_canceled, App}
use mirabilis.App.Menu.{handle_screen_pop}
use mirabilis.App.Events.{handle_pipeline_event, handle_pipeline_done, handle_exec_done}
use mirabilis.App.Update.{pipeline_event, exec_done, screen_pop, pipeline_done_msg, update}
use mirabilis.App.Review.{updates}

-- While a pipeline runs and no choice of the user is awaited: if a step with a name waits, its
-- terminal ends, the user closes the screen and the pipeline is done, the menu reports a launch that
-- was canceled, whether it failed or not.
pub exec_done-cancels :
    (payloads : ℕ → Payload) (a : App) (p : Pipeline) (ev : Event) (has_failed : Bool)
    → a.pipe ≡ some p
    → a.awaiting_gate ≡ false
    → a.awaiting_role ≡ false
    → a.awaiting_tune ≡ false
    → a.awaiting_restart ≡ false
    → ev.kind ≡ ev_waiting
    → ev.step ≢ ""
    → (updates payloads
        (pipeline_event ev ∷ exec_done ev.step ∷ screen_pop ∷ pipeline_done_msg has_failed ∷ [])
        a).root
      ≡ menu launch_canceled a.err_notice
unfolding update handle_pipeline_event handle_exec_done handle_screen_pop handle_pipeline_done
exec_done-cancels payloads a p ev has_failed h g r t w k named =
    ground (arith, h, g, r, t, w, k, named, eq_iff ev.step "")
