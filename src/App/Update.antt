-- ===== src/App/Update.antt =====
-- `Update` of internal/tui/app/app.go: which handler a message goes to.
use mirabilis.Base.{ℕ, String, Bool, Option, none, some, [], ◌∷◌}
use mirabilis.Text.{Text}
use mirabilis.Pipeline.Types.{Event}
use mirabilis.App.State.{
  Action, Value, Screen, Key, Payload, NodeStatus, watch_status, copy_text, deliver_copied, App,
  Handled,
}
use mirabilis.App.Launch.{push}
use mirabilis.App.Menu.{handle_menu_chosen, handle_screen_result, handle_screen_pop, handle_key}
use mirabilis.App.Events.{
  handle_pipeline_event, handle_pipeline_done, handle_exec_done, handle_vscode_done,
  handle_self_update_done, handle_gate_packs_done, handle_busy_tick, handle_chrome_tick,
}

-- The messages of the program. A snapshot of the statuses is the status of the version node, which
-- alone is read here.
pub data Message : Type 0 where
  status_msg : Option NodeStatus → Message
  key_press : Key → Message
  busy_tick_msg chrome_tick_msg : ℕ → Message
  menu_chosen : Action → Message
  pipeline_event : Event → Message
  pipeline_done_msg : Bool → Message
  screen_result : Value → Message
  screen_pop : Message
  screen_push : Screen → Message
  exec_done : String → Message
  vscode_done self_update_done gate_packs_done copy_done : Option Text → Message
  copy_request : Text → Message
  open_url_done : Message

unfoldable pub update : (ℕ → Payload) → Message → App → Handled
unfolding handle_menu_chosen handle_screen_result handle_screen_pop handle_key handle_pipeline_event
    handle_pipeline_done handle_exec_done handle_vscode_done handle_self_update_done
    handle_gate_packs_done handle_busy_tick handle_chrome_tick
update payloads (status_msg st) a = (record a { version_status = st }, watch_status ∷ [])
update payloads (key_press k) a = handle_key k a
update payloads (busy_tick_msg gen) a = handle_busy_tick gen a
update payloads (chrome_tick_msg gen) a = handle_chrome_tick gen a
update payloads (menu_chosen action) a = handle_menu_chosen action a
update payloads (pipeline_event ev) a = handle_pipeline_event payloads ev a
update payloads (pipeline_done_msg has_failed) a = (handle_pipeline_done has_failed a, [])
update payloads (screen_result v) a = handle_screen_result v a
update payloads screen_pop a = handle_screen_pop a
update payloads (screen_push s) a = (push s a, [])
update payloads (exec_done step) a = handle_exec_done step a
update payloads (vscode_done e) a = (handle_vscode_done e a, [])
update payloads (self_update_done e) a = handle_self_update_done e a
update payloads (gate_packs_done e) a = handle_gate_packs_done e a
update payloads (copy_request t) a = (a, copy_text t ∷ [])
update payloads (copy_done e) a =
    (a, deliver_copied (elim e [ none ↦ Bool.true | some x ↦ Bool.false ]) ∷ [])
update payloads open_url_done a = (a, [])
