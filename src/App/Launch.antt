-- ===== src/App/Launch.antt =====
-- The way from the menu to a launch: bridge.go, `startBusy` of busy.go, and the handlers of
-- handlers_menu.go that one choice after another leads to.
use mirabilis.Base.{
  String, suc, Bool, true, false, Option, none, some, List, [], ◌∷◌, ◌++◌, if◌then◌else◌,
}
use mirabilis.Text.{Text, codes, text_eq}
use mirabilis.Config.Tune.{effective_tune}
use mirabilis.Pipeline.Types.{ok, err, Command}
use mirabilis.Pipeline.Build.{new}
use mirabilis.App.State.{
  Notice, update_running, self_update_running, launch_error, Screen, menu, update_gate, role_picker,
  tune, restart_warn, launch_screen, Request, pump_events, self_update, update_ecosystem,
  run_pipeline, busy_tick, loadouts, launch_steps, set_review_mode, degraded, NodeStatus, App,
  Handled,
}

-- `resetMenu`: the router starts again with a menu that shows the notices.
unfoldable pub reset_menu : Notice → App → App
reset_menu n a = record a {
  frame_busy = if a.busy then a.frame_busy else false;
  above = [];
  root = menu n a.err_notice;
}

unfoldable pub back_to_menu : Notice → App → App
unfolding reset_menu
back_to_menu n a = reset_menu n a

unfoldable pub fail_to_menu : Notice → App → App
unfolding back_to_menu
fail_to_menu n a = back_to_menu n (record a { err_notice = n })

unfoldable pub start_busy : App → Handled
start_busy a = (
  record a { busy_gen = suc a.busy_gen; busy_frame = 0; frame_busy = true },
  if a.facade.reduced_motion then [] else busy_tick (suc a.busy_gen) ∷ [],
)

abbrev pub push : Screen → App → App
push s a = record a { above = s ∷ a.above }

abbrev pub rows : List Command → List (String × String)
rows [] = []
rows (c ∷ cs) = (c.meta.name, c.meta.title) ∷ rows cs

unfoldable pub start_launch : App → Handled
unfolding start_busy fail_to_menu launch_steps
start_launch a = elim a.pipe [
  | some p ↦ (a, [])
  | none ↦
      let cleared = record a { launch_cancelled = false } in
      elim (new (launch_steps a.facade)) [
        | err e ↦ (fail_to_menu (launch_error e) cleared, [])
        | ok p ↦
            let (busied, tick) = start_busy (record cleared { pipe = some p; busy = true }) in
            (
              push (launch_screen (rows (launch_steps a.facade))) busied,
              run_pipeline ∷ tick ++ pump_events ∷ [],
            )
      ]
]

unfoldable pub start_review : App → Handled
unfolding start_launch
start_review a = elim a.pipe [
  | some p ↦ (a, [])
  | none ↦ start_launch (record a { facade = set_review_mode true a.facade })
]

unfoldable pub push_restart_warn : App → Handled
push_restart_warn a = (push restart_warn (record a { awaiting_restart = true }), [])

unfoldable pub maybe_warn_restart : App → Handled
unfolding start_launch push_restart_warn
maybe_warn_restart a = elim a.pipe [
  | some p ↦ (a, [])
  | none ↦ if a.facade.recreates then push_restart_warn a else start_launch a
]

unfoldable pub push_tune : App → Handled
push_tune a = elim a.pipe [
  | some p ↦ (a, [])
  | none ↦
      let (effort, fleet) = effective_tune a.facade.repo in
      (push (tune effort fleet) (record a { awaiting_tune = true }), [])
]

unfoldable pub pick_role : App → Handled
unfolding maybe_warn_restart loadouts
pick_role a = elim a.pipe [
  | some p ↦ (a, [])
  | none ↦ elim (loadouts a.facade) [
    | [] ↦ maybe_warn_restart a
    | c ∷ cs ↦ (push (role_picker (c ∷ cs)) (record a { awaiting_role = true }), [])
  ]
]

-- The detail of a degraded version node, else "".
unfoldable pub outdated_tag : Option NodeStatus → Text
outdated_tag none = []
outdated_tag (some st) = elim st.state [ degraded ↦ st.detail | _ ↦ [] ]

unfoldable pub push_gate : App → Handled
unfolding outdated_tag
push_gate a = elim a.pipe [
  | some p ↦ (a, [])
  | none ↦ (
    push (update_gate a.facade.version (outdated_tag a.version_status))
        (record a { awaiting_gate = true }),
    [],
  )
]

-- Busy with a task in the background, back at the menu.
unfoldable pub run_task : Bool → Notice → Request → App → Handled
unfolding start_busy back_to_menu
run_task all n task a =
    let (busied, tick) = start_busy (record a { gate_all_packs = all; busy = true }) in
    (back_to_menu n busied, tick ++ task ∷ [])

unfoldable pub run_gate : Text → App → Handled
unfolding run_task pick_role text_eq
run_gate choice a =
    if text_eq choice (codes "self")
    then run_task false self_update_running self_update a
    else if text_eq choice (codes "packs")
    then run_task false update_running update_ecosystem a
    else if text_eq choice (codes "all")
    then run_task true self_update_running self_update a
    else pick_role a
