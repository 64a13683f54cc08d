-- ===== src/App/Menu.antt =====
-- The choices of the user: `handleMenuChosen`, `handleScreenResult` and `handleKey` of
-- handlers_menu.go, and `handleScreenPop` of handlers_pipeline.go.
use mirabilis.Base.{
  Bool, true, false, ◌&&◌, ◌||◌, not, is_some, Option, none, some, [], ◌∷◌, ◌++◌, if◌then◌else◌,
  str_eq,
}
use mirabilis.Text.{Text, codes, text_eq}
use mirabilis.App.State.{
  Notice, no_notice, busy_wait, vscode_opening, loadout_error, Action, action_launch, action_review,
  action_vscode, action_quit, action_other, Value, no_value, text_value, tune_value, choices, Key,
  key_q, key_x, key_esc, key_tab, key_up, key_down, key_enter, key_other, quit, cancel,
  toggle_cmdlog, open_vscode, resume, frame_key, top_key, Facade, select_loadout, save_tune,
  drop_tune, App, Handled,
}
use mirabilis.App.Launch.{
  back_to_menu, fail_to_menu, start_busy, start_launch, start_review, maybe_warn_restart, push_tune,
  push_gate, run_gate,
}

abbrev pub is_quit : Action → Bool
is_quit action_quit = true
is_quit _ = false

unfoldable pub handle_menu_chosen : Action → App → Handled
unfolding back_to_menu push_gate start_review start_busy
handle_menu_chosen action a =
    if (a.busy || is_some a.pipe) && not (is_quit action)
    then (back_to_menu busy_wait a, [])
    else elim action [
      | action_launch ↦ push_gate a
      | action_review ↦ start_review a
      | action_quit ↦ (a, cancel ∷ quit ∷ [])
      | action_vscode ↦
          let (busied, tick) = start_busy (record a { busy = true }) in
          (back_to_menu vscode_opening busied, tick ++ open_vscode ∷ [])
      | action_other ↦ (a, [])
    ]

-- `bus.ScreenPop`: the router drops the top screen, if it is not the root.
unfoldable pub pop_screen : App → App
pop_screen a = record a { above = elim a.above [ [] ↦ [] | s ∷ ss ↦ ss ] }

-- `choice, _ := msg.Value.(string)`
abbrev pub as_text : Value → Text
as_text (text_value t) = t
as_text _ = []

unfoldable pub after_role : Value → App → Handled
unfolding back_to_menu fail_to_menu select_loadout push_tune
after_role (text_value n) a =
    let (f, e) = select_loadout n a.facade in
    elim e [
      | some x ↦ (fail_to_menu (loadout_error x) (record a { facade = f }), [])
      | none ↦ push_tune (record a { facade = f })
    ]
after_role no_value a = (back_to_menu no_notice a, [])
after_role (tune_value effort fleet) a = (back_to_menu no_notice a, [])
after_role (choices cs) a = (back_to_menu no_notice a, [])

-- After the tune is saved or dropped.
unfoldable pub after_tune : Facade × Option Text → App → Handled
unfolding fail_to_menu maybe_warn_restart
after_tune (f, e) a = elim e [
  | some x ↦ (fail_to_menu (loadout_error x) (record a { facade = f }), [])
  | none ↦ maybe_warn_restart (record a { facade = f })
]

unfoldable pub after_tune_screen : Value → App → Handled
unfolding after_tune back_to_menu save_tune
after_tune_screen (tune_value effort fleet) a = after_tune (save_tune effort fleet a.facade) a
after_tune_screen no_value a = (back_to_menu no_notice a, [])
after_tune_screen (text_value t) a = (back_to_menu no_notice a, [])
after_tune_screen (choices cs) a = (back_to_menu no_notice a, [])

-- The step that waits, if a pipeline runs, is resumed.
unfoldable pub resume_waiting : Value → Bool → App → Handled
resume_waiting v cancelled a =
    if is_some a.pipe && not (str_eq a.waiting "")
    then (
      record a { waiting = ""; launch_cancelled = a.launch_cancelled || cancelled },
      resume a.waiting v cancelled ∷ [],
    )
    else (record a { waiting = "" }, [])

unfoldable pub handle_screen_result : Value → App → Handled
unfolding pop_screen run_gate after_role after_tune_screen start_launch back_to_menu resume_waiting
    text_eq
handle_screen_result v a =
    let popped = pop_screen a in
    if a.awaiting_gate
    then run_gate (as_text v) (record popped { awaiting_gate = false })
    else if a.awaiting_role
    then after_role v (record popped { awaiting_role = false })
    else if a.awaiting_tune
    then after_tune_screen v (record popped { awaiting_tune = false })
    else if a.awaiting_restart
    then (if text_eq (as_text v) (codes "restart-confirm")
        then start_launch (record popped { awaiting_restart = false })
        else (back_to_menu no_notice (record popped { awaiting_restart = false }), []))
    else resume_waiting v false popped

unfoldable pub handle_screen_pop : App → Handled
unfolding pop_screen run_gate after_tune drop_tune back_to_menu resume_waiting
handle_screen_pop a =
    let popped = pop_screen a in
    if a.awaiting_gate
    then run_gate (codes "skip") (record popped { awaiting_gate = false })
    else if a.awaiting_role
    then (back_to_menu no_notice (record popped { awaiting_role = false }), [])
    else if a.awaiting_tune
    then after_tune (drop_tune a.facade) (record popped { awaiting_tune = false })
    else if a.awaiting_restart
    then (back_to_menu no_notice (record popped { awaiting_restart = false }), [])
    else resume_waiting no_value true popped

abbrev pub at_root : App → Bool
at_root a = elim a.above [ [] ↦ true | s ∷ ss ↦ false ]

abbrev pub is_notice : Notice → Bool
is_notice no_notice = false
is_notice _ = true

unfoldable pub handle_key : Key → App → Handled
unfolding handle_screen_pop back_to_menu
handle_key key_q a = if at_root a then (a, cancel ∷ quit ∷ []) else (a, top_key key_q ∷ [])
handle_key key_x a =
    if at_root a && is_notice a.err_notice
    then (back_to_menu no_notice (record a { err_notice = no_notice }), [])
    else (a, top_key key_x ∷ [])
handle_key key_esc a = if at_root a then (a, top_key key_esc ∷ []) else handle_screen_pop a
handle_key key_tab a = (a, toggle_cmdlog ∷ [])
handle_key key_up a = (a, if at_root a then frame_key key_up ∷ [] else top_key key_up ∷ [])
handle_key key_down a = (a, if at_root a then frame_key key_down ∷ [] else top_key key_down ∷ [])
handle_key key_enter a = (a, if at_root a then frame_key key_enter ∷ [] else top_key key_enter ∷ [])
handle_key key_other a = (a, top_key key_other ∷ [])
