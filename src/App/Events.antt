-- ===== src/App/Events.antt =====
-- What the pipeline and the tasks in the background report: handlers_pipeline.go,
-- handlers_actions.go, and the ticks of busy.go and app.go.
-- The payload of an event of the pipeline is a number there; `payloads` says what it stands for.
use mirabilis.Base.{
  ℕ, suc, String, Bool, true, false, Option, none, some, List, [], ◌∷◌, ◌++◌, if◌then◌else◌, ◌==◌,
}
use mirabilis.Text.{Text}
use mirabilis.Pipeline.Types.{
  Event, step_started as ev_started, spawn, line, done, failed, skipped, waiting as ev_waiting,
  pipeline_done,
}
use mirabilis.App.State.{
  no_notice, vscode_opened, vscode_error, self_update_staged, self_update_degraded, launch_failed,
  launch_canceled, form_screen, gh_auth, no_value, StepEventKind, step_started, step_line,
  step_done, step_failed, step_skipped, step_waiting, StepEvent, Payload, no_payload, wizard,
  gh_code, Request, crash, pump_events, update_ecosystem, busy_tick, chrome_tick, open_url,
  exec_terminal, push_screen, deliver, resume, App, Handled,
}
use mirabilis.App.Launch.{reset_menu, back_to_menu, fail_to_menu, start_busy, pick_role}

abbrev pub step_event : String → StepEventKind → StepEvent
step_event s k = record { step = s; kind = k; line = ""; error = none; argv = [] }

unfoldable pub handle_pipeline_done : Bool → App → App
unfolding back_to_menu fail_to_menu
handle_pipeline_done has_failed a = elim a.pipe [
  | none ↦ a
  | some p ↦
      let idle = record a {
        pipe = none;
        busy = false;
        frame_busy = false;
        launch_cancelled = false;
      } in
      if a.launch_cancelled
      then back_to_menu launch_canceled idle
      else if has_failed
      then fail_to_menu launch_failed idle
      else back_to_menu no_notice idle
]

-- What a step that waits asks for: a terminal, or the screen of its payload.
unfoldable pub handle_waiting : (ℕ → Payload) → Event → List Request
handle_waiting payloads ev = elim ev.argv [
  | c ∷ cs ↦ exec_terminal ev.step (c ∷ cs) ∷ []
  | [] ↦ elim (payloads ev.payload) [
    | wizard groups ↦ push_screen (form_screen groups) ∷ []
    | gh_code code url ↦ push_screen (gh_auth code url) ∷ open_url url ∷ []
    | no_payload ↦ []
  ]
]

-- `a.pipe.Events()` is the first thing that the handler reads: without a pipeline it crashes.
unfoldable pub handle_pipeline_event : (ℕ → Payload) → Event → App → Handled
unfolding handle_pipeline_done handle_waiting
handle_pipeline_event payloads ev a = elim a.pipe [
  | none ↦ (a, crash ∷ [])
  | some p ↦ elim ev.kind [
    | ev_started ↦ (a, deliver (step_event ev.step step_started) ∷ pump_events ∷ [])
    | spawn ↦ (
      a,
      deliver (record (step_event ev.step step_started) { argv = ev.argv }) ∷ pump_events ∷ [],
    )
    | line ↦
        (a, deliver (record (step_event ev.step step_line) { line = ev.text }) ∷ pump_events ∷ [])
    | done ↦
        (a, deliver (record (step_event ev.step step_done) { line = ev.text }) ∷ pump_events ∷ [])
    | failed ↦
        (a, deliver (record (step_event ev.step step_failed) { error = ev.err }) ∷ pump_events ∷ [])
    | skipped ↦ (a, deliver (step_event ev.step step_skipped) ∷ pump_events ∷ [])
    | ev_waiting ↦ (
      record a { waiting = ev.step },
      deliver (step_event ev.step step_waiting) ∷ pump_events ∷ handle_waiting payloads ev,
    )
    | pipeline_done ↦ (handle_pipeline_done ev.has_failed a, [])
  ]
]

unfoldable pub handle_exec_done : String → App → Handled
handle_exec_done step a = elim a.pipe [
  | none ↦ (a, [])
  | some p ↦ (a, resume step no_value false ∷ [])
]

unfoldable pub handle_vscode_done : Option Text → App → App
unfolding back_to_menu fail_to_menu
handle_vscode_done e a = elim e [
  | some x ↦ fail_to_menu (vscode_error x) (record a { busy = false })
  | none ↦ back_to_menu vscode_opened (record a { busy = false })
]

unfoldable pub proceed_after_gate : App → Handled
unfolding reset_menu pick_role
proceed_after_gate a =
    let idle =
      reset_menu a.gate_notice
        (record a { gate_all_packs = false; busy = false; frame_busy = false }) in
    pick_role (record idle { gate_notice = no_notice })

unfoldable pub handle_self_update_done : Option Text → App → Handled
unfolding start_busy proceed_after_gate
handle_self_update_done e a =
    let noted = record a {
      gate_notice = elim e [ some x ↦ self_update_degraded x | none ↦ self_update_staged ];
    } in
    if a.gate_all_packs
    then (let (busied, tick) = start_busy noted in (busied, tick ++ update_ecosystem ∷ []))
    else proceed_after_gate noted

-- An error is only logged.
unfoldable pub handle_gate_packs_done : Option Text → App → Handled
unfolding proceed_after_gate
handle_gate_packs_done e a = proceed_after_gate a

unfoldable pub handle_busy_tick : ℕ → App → Handled
handle_busy_tick gen a =
    if gen == a.busy_gen
    then (if a.busy
        then (
          record a { busy_frame = suc a.busy_frame; frame_busy = true },
          if a.facade.reduced_motion then [] else busy_tick a.busy_gen ∷ [],
        )
        else (record a { frame_busy = false }, []))
    else (a, [])

unfoldable pub handle_chrome_tick : ℕ → App → Handled
handle_chrome_tick gen a =
    if gen == a.chrome_gen
    then (
      record a { frame_chrome = suc a.frame_chrome },
      if a.facade.reduced_motion then [] else chrome_tick a.chrome_gen ∷ [],
    )
    else (a, [])
