-- ===== src/App/Single.antt =====
-- No handler starts a pipeline while one runs.
use mirabilis.Base.{
  refl, inl, inr, if◌then◌else◌, ℕ, Bool, true, false, ◌||◌, ◌≡◌, ◌⊎◌, is_some, Option, none, some,
  List, [], ◌∷◌, arith,
}
use mirabilis.Text.{text_eq, Text, codes}
use mirabilis.Pipeline.Types.{Pipeline, Event}
use mirabilis.App.State.{
  Notice, Value, Payload, Request, run_pipeline, Action, Key, no_value, no_notice, drop_tune,
  Facade, App, Handled,
}
use mirabilis.App.Launch.{
  reset_menu, start_launch, start_review, maybe_warn_restart, push_tune, pick_role, push_gate,
  run_gate,
}
use mirabilis.App.Menu.{
  pop_screen, as_text, handle_menu_chosen, after_role, after_tune, after_tune_screen,
  resume_waiting, handle_screen_result, handle_screen_pop, handle_key,
}
use mirabilis.App.Events.{
  handle_waiting, handle_pipeline_done, handle_pipeline_event, proceed_after_gate,
  handle_self_update_done, handle_busy_tick, handle_chrome_tick, handle_exec_done,
  handle_vscode_done,
}
use mirabilis.App.Update.{Message, update}

abbrev pub is_run : Request → Bool
is_run run_pipeline = true
is_run _ = false

abbrev pub runs : List Request → Bool
runs [] = false
runs (r ∷ rs) = is_run r || runs rs

-- A pipeline starts where none ran, and the program is busy then; or none starts, and what runs
-- goes on or ends.
abbrev pub Keeps : Option Pipeline → Handled → Type 0
Keeps before (after, requests) =
    ((before ≡ none) × (is_some after.pipe ≡ true) × (after.busy ≡ true) × (runs requests ≡ true))
    ⊎ ((runs requests ≡ false) × ((after.pipe ≡ before) ⊎ (after.pipe ≡ none)))

start_launch-Keeps : (a : App) → Keeps a.pipe (start_launch a)
unfolding start_launch
start_launch-Keeps a = ground arith

start_review-Keeps : (a : App) → Keeps a.pipe (start_review a)
unfolding start_review
start_review-Keeps a =
    ground
      (arith, start_launch-Keeps (record a { facade = record a.facade { review_mode = true } }))

maybe_warn_restart-Keeps : (a : App) → Keeps a.pipe (maybe_warn_restart a)
unfolding maybe_warn_restart
maybe_warn_restart-Keeps a = ground (arith, start_launch-Keeps a)

push_tune-Keeps : (a : App) → Keeps a.pipe (push_tune a)
unfolding push_tune
push_tune-Keeps a = ground arith

pick_role-Keeps : (a : App) → Keeps a.pipe (pick_role a)
unfolding pick_role
pick_role-Keeps a = ground (arith, maybe_warn_restart-Keeps a)

push_gate-Keeps : (a : App) → Keeps a.pipe (push_gate a)
unfolding push_gate
push_gate-Keeps a = ground arith

run_gate-Keeps : (choice : Text) (a : App) → Keeps a.pipe (run_gate choice a)
unfolding run_gate
run_gate-Keeps choice a = ground (arith, pick_role-Keeps a)

handle_menu_chosen-Keeps : (action : Action) (a : App) → Keeps a.pipe (handle_menu_chosen action a)
unfolding handle_menu_chosen
handle_menu_chosen-Keeps action a = ground (arith, push_gate-Keeps a, start_review-Keeps a)

after_role-Keeps : (v : Value) (a : App) → Keeps a.pipe (after_role v a)
unfolding after_role
after_role-Keeps v a = ground (arith, λ (f : Facade). push_tune-Keeps (record a { facade = f }))

after_tune-Keeps : (r : Facade × Option Text) (a : App) → Keeps a.pipe (after_tune r a)
unfolding after_tune
after_tune-Keeps (f, none) a = maybe_warn_restart-Keeps (record a { facade = f })
after_tune-Keeps (f, some e) a = ground arith

after_tune_screen-Keeps : (v : Value) (a : App) → Keeps a.pipe (after_tune_screen v a)
unfolding after_tune_screen
after_tune_screen-Keeps v a = ground (arith, λ (r : Facade × Option Text). after_tune-Keeps r a)

resume_waiting-Keeps :
    (v : Value) (cancelled : Bool) (a : App) → Keeps a.pipe (resume_waiting v cancelled a)
unfolding resume_waiting
resume_waiting-Keeps v cancelled a = ground arith

Keeps-if :
    (p : Option Pipeline) (b : Bool) (x y : Handled)
    → Keeps p x
    → Keeps p y
    → Keeps p (if b then x else y)
Keeps-if p true x y h k = h
Keeps-if p false x y h k = k

handle_screen_result-Keeps : (v : Value) (a : App) → Keeps a.pipe (handle_screen_result v a)
unfolding handle_screen_result pop_screen
handle_screen_result-Keeps v a =
    let popped = pop_screen a in
    Keeps-if a.pipe a.awaiting_gate _ _
      (run_gate-Keeps (as_text v) (record popped { awaiting_gate = false }))
      (Keeps-if a.pipe a.awaiting_role _ _
        (after_role-Keeps v (record popped { awaiting_role = false }))
        (Keeps-if a.pipe a.awaiting_tune _ _
          (after_tune_screen-Keeps v (record popped { awaiting_tune = false }))
          (Keeps-if a.pipe a.awaiting_restart _ _
            (Keeps-if a.pipe (text_eq (as_text v) (codes "restart-confirm")) _ _
              (start_launch-Keeps (record popped { awaiting_restart = false }))
              (inr (refl, inl refl)))
            (resume_waiting-Keeps v false popped))))

handle_screen_pop-Keeps : (a : App) → Keeps a.pipe (handle_screen_pop a)
unfolding handle_screen_pop pop_screen
handle_screen_pop-Keeps a =
    let popped = pop_screen a in
    Keeps-if a.pipe a.awaiting_gate _ _
      (run_gate-Keeps (codes "skip") (record popped { awaiting_gate = false }))
      (Keeps-if a.pipe a.awaiting_role _ _ (inr (refl, inl refl)) (
        Keeps-if a.pipe a.awaiting_tune _ _
          (after_tune-Keeps (drop_tune a.facade) (record popped { awaiting_tune = false }))
          (Keeps-if a.pipe a.awaiting_restart _ _ (inr (refl, inl refl))
            (resume_waiting-Keeps no_value true popped))))

handle_key-Keeps : (k : Key) (a : App) → Keeps a.pipe (handle_key k a)
unfolding handle_key
handle_key-Keeps k a = ground (arith, handle_screen_pop-Keeps a)

proceed_after_gate-Keeps : (a : App) → Keeps a.pipe (proceed_after_gate a)
unfolding proceed_after_gate
proceed_after_gate-Keeps a =
    pick_role-Keeps
      (record (reset_menu a.gate_notice
        (record a { gate_all_packs = false; busy = false; frame_busy = false })) {
          gate_notice = no_notice;
        })

handle_self_update_done-Keeps :
    (e : Option Text) (a : App) → Keeps a.pipe (handle_self_update_done e a)
unfolding handle_self_update_done
handle_self_update_done-Keeps e a =
    ground (arith, λ (n : Notice). proceed_after_gate-Keeps (record a { gate_notice = n }))

handle_waiting-runs :
    (payloads : ℕ → Payload) (ev : Event) → runs (handle_waiting payloads ev) ≡ false
unfolding handle_waiting
handle_waiting-runs payloads ev = ground arith

handle_pipeline_event-Keeps :
    (payloads : ℕ → Payload) (ev : Event) (a : App)
    → Keeps a.pipe (handle_pipeline_event payloads ev a)
unfolding handle_pipeline_event
handle_pipeline_event-Keeps payloads ev a = ground (arith, handle_waiting-runs payloads ev)

-- Whatever message arrives, in whatever state: either a start is requested, and then no pipeline was
-- there before, one is there after and the program is busy; or no start is requested, and the
-- pipeline is the same as before or gone.
pub update-Keeps :
    (payloads : ℕ → Payload) (m : Message) (a : App) → Keeps a.pipe (update payloads m a)
unfolding update handle_busy_tick handle_chrome_tick handle_pipeline_done handle_exec_done
    handle_vscode_done
update-Keeps payloads (Message.status_msg st) a = ground arith
update-Keeps payloads (Message.key_press k) a = handle_key-Keeps k a
update-Keeps payloads (Message.busy_tick_msg gen) a = ground arith
update-Keeps payloads (Message.chrome_tick_msg gen) a = ground arith
update-Keeps payloads (Message.menu_chosen action) a = handle_menu_chosen-Keeps action a
update-Keeps payloads (Message.pipeline_event ev) a = handle_pipeline_event-Keeps payloads ev a
update-Keeps payloads (Message.pipeline_done_msg has_failed) a = ground arith
update-Keeps payloads (Message.screen_result v) a = handle_screen_result-Keeps v a
update-Keeps payloads Message.screen_pop a = handle_screen_pop-Keeps a
update-Keeps payloads (Message.screen_push s) a = ground arith
update-Keeps payloads (Message.exec_done step) a = ground arith
update-Keeps payloads (Message.vscode_done e) a = ground arith
update-Keeps payloads (Message.self_update_done e) a = handle_self_update_done-Keeps e a
update-Keeps payloads (Message.gate_packs_done e) a = proceed_after_gate-Keeps a
update-Keeps payloads (Message.copy_request t) a = ground arith
update-Keeps payloads (Message.copy_done e) a = ground arith
update-Keeps payloads Message.open_url_done a = ground arith
