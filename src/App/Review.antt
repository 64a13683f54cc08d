-- ===== src/App/Review.antt =====
-- The review mode of the facade: what sets it, and that nothing takes it back.
use mirabilis.Base.{
  Bool, if◌then◌else◌, ℕ, true, false, ◌≡◌, refl, ◌∙◌, Option, none, some, List, [], ◌∷◌, arith,
}
use mirabilis.Text.{text_eq, Text, codes}
use mirabilis.Steps.Launch.{review}
use mirabilis.App.State.{
  Handled, no_value, Notice, Value, Payload, Action, action_review, no_notice, drop_tune, Facade,
  App, launch_steps,
}
use mirabilis.App.Launch.{
  reset_menu, start_launch, start_review, maybe_warn_restart, push_tune, pick_role, run_gate,
}
use mirabilis.App.Menu.{
  resume_waiting, pop_screen, as_text, handle_menu_chosen, after_role, after_tune,
  after_tune_screen, handle_screen_result, handle_screen_pop, handle_key,
}
use mirabilis.App.Events.{
  handle_pipeline_done, handle_pipeline_event, proceed_after_gate, handle_self_update_done,
  handle_busy_tick, handle_chrome_tick, handle_exec_done, handle_vscode_done,
}
use mirabilis.App.Update.{Message, menu_chosen, update}

-- The mode and the answers of the commands stay.
abbrev pub Stays : App → App → Type 0
Stays a b = (b.facade.review_mode ≡ a.facade.review_mode) × (b.facade.answers ≡ a.facade.answers)

-- The mode stays or is set, and the answers stay.
abbrev pub Rises : App → App → Type 0
Rises a b =
    (a.facade.review_mode ≡ true → b.facade.review_mode ≡ true)
    × (b.facade.answers ≡ a.facade.answers)

start_launch-Stays : (a : App) → Stays a (start_launch a).0
unfolding start_launch
start_launch-Stays a = ground arith

maybe_warn_restart-Stays : (a : App) → Stays a (maybe_warn_restart a).0
unfolding maybe_warn_restart
maybe_warn_restart-Stays a = ground (arith, start_launch-Stays a)

push_tune-Stays : (a : App) → Stays a (push_tune a).0
unfolding push_tune
push_tune-Stays a = ground arith

pick_role-Stays : (a : App) → Stays a (pick_role a).0
unfolding pick_role
pick_role-Stays a = ground (arith, maybe_warn_restart-Stays a)

run_gate-Stays : (choice : Text) (a : App) → Stays a (run_gate choice a).0
unfolding run_gate
run_gate-Stays choice a = ground (arith, pick_role-Stays a)

handle_menu_chosen-Rises : (action : Action) (a : App) → Rises a (handle_menu_chosen action a).0
unfolding handle_menu_chosen
handle_menu_chosen-Rises action a =
    ground
      (arith, start_launch-Stays (record a { facade = record a.facade { review_mode = true } }))

after_role-Stays : (v : Value) (a : App) → Stays a (after_role v a).0
unfolding after_role
after_role-Stays v a = ground (arith, λ (f : Facade). push_tune-Stays (record a { facade = f }))

after_tune-Stays :
    (r : Facade × Option Text) (a : App)
    → r.0.review_mode ≡ a.facade.review_mode
    → r.0.answers ≡ a.facade.answers
    → Stays a (after_tune r a).0
unfolding after_tune
after_tune-Stays (f, none) a h k =
    ground (arith, h, k, maybe_warn_restart-Stays (record a { facade = f }))
after_tune-Stays (f, some e) a h k = ground (arith, h, k)

after_tune_screen-Stays : (v : Value) (a : App) → Stays a (after_tune_screen v a).0
unfolding after_tune_screen
after_tune_screen-Stays v a = ground (arith, λ (r : Facade × Option Text). after_tune-Stays r a)

drop_tune-mode :
    (f : Facade)
    → ((drop_tune f).0.review_mode ≡ f.review_mode) × ((drop_tune f).0.answers ≡ f.answers)
unfolding drop_tune
drop_tune-mode f = ground arith

resume_waiting-Stays :
    (v : Value) (cancelled : Bool) (a : App) → Stays a (resume_waiting v cancelled a).0
unfolding resume_waiting
resume_waiting-Stays v cancelled a = ground arith

Stays-if :
    (a : App) (b : Bool) (x y : Handled)
    → Stays a x.0
    → Stays a y.0
    → Stays a (if b then x else y).0
Stays-if a true x y h k = h
Stays-if a false x y h k = k

handle_screen_result-Stays : (v : Value) (a : App) → Stays a (handle_screen_result v a).0
unfolding handle_screen_result pop_screen
handle_screen_result-Stays v a =
    let popped = pop_screen a in
    Stays-if a a.awaiting_gate _ _
      (run_gate-Stays (as_text v) (record popped { awaiting_gate = false }))
      (Stays-if a a.awaiting_role _ _ (after_role-Stays v (record popped { awaiting_role = false }))
        (Stays-if a a.awaiting_tune _ _
          (after_tune_screen-Stays v (record popped { awaiting_tune = false }))
          (Stays-if a a.awaiting_restart _ _
            (Stays-if a (text_eq (as_text v) (codes "restart-confirm")) _ _
              (start_launch-Stays (record popped { awaiting_restart = false })) (refl, refl))
            (resume_waiting-Stays v false popped))))

handle_screen_pop-Stays : (a : App) → Stays a (handle_screen_pop a).0
unfolding handle_screen_pop pop_screen
handle_screen_pop-Stays a =
    let popped = pop_screen a in
    Stays-if a a.awaiting_gate _ _
      (run_gate-Stays (codes "skip") (record popped { awaiting_gate = false }))
      (Stays-if a a.awaiting_role _ _ (refl, refl)
        (Stays-if a a.awaiting_tune _ _
          (after_tune-Stays (drop_tune a.facade) (record popped { awaiting_tune = false })
            (drop_tune-mode a.facade).0 (drop_tune-mode a.facade).1)
          (Stays-if a a.awaiting_restart _ _ (refl, refl)
            (resume_waiting-Stays no_value true popped))))

proceed_after_gate-Stays : (a : App) → Stays a (proceed_after_gate a).0
unfolding proceed_after_gate
proceed_after_gate-Stays a =
    pick_role-Stays
      (record (reset_menu a.gate_notice
        (record a { gate_all_packs = false; busy = false; frame_busy = false })) {
          gate_notice = no_notice;
        })

handle_self_update_done-Stays :
    (e : Option Text) (a : App) → Stays a (handle_self_update_done e a).0
unfolding handle_self_update_done
handle_self_update_done-Stays e a =
    ground (arith, λ (n : Notice). proceed_after_gate-Stays (record a { gate_notice = n }))

Stays-Rises : (a b : App) → Stays a b → Rises a b
Stays-Rises a b (mode, answers) = ((λ h. mode ∙ h), answers)

update-Rises : (payloads : ℕ → Payload) (m : Message) (a : App) → Rises a (update payloads m a).0
unfolding update handle_key handle_busy_tick handle_chrome_tick handle_pipeline_event
    handle_pipeline_done handle_exec_done handle_vscode_done
update-Rises payloads (Message.status_msg st) a = ground arith
update-Rises payloads (Message.key_press k) a = ground (arith, handle_screen_pop-Stays a)
update-Rises payloads (Message.busy_tick_msg gen) a = ground arith
update-Rises payloads (Message.chrome_tick_msg gen) a = ground arith
update-Rises payloads (Message.menu_chosen action) a = handle_menu_chosen-Rises action a
update-Rises payloads (Message.pipeline_event ev) a = ground arith
update-Rises payloads (Message.pipeline_done_msg has_failed) a = ground arith
update-Rises payloads (Message.screen_result v) a =
    Stays-Rises a (handle_screen_result v a).0 (handle_screen_result-Stays v a)
update-Rises payloads Message.screen_pop a =
    Stays-Rises a (handle_screen_pop a).0 (handle_screen_pop-Stays a)
update-Rises payloads (Message.screen_push s) a = ground arith
update-Rises payloads (Message.exec_done step) a = ground arith
update-Rises payloads (Message.vscode_done e) a = ground arith
update-Rises payloads (Message.self_update_done e) a =
    Stays-Rises a (handle_self_update_done e a).0 (handle_self_update_done-Stays e a)
update-Rises payloads (Message.gate_packs_done e) a =
    Stays-Rises a (proceed_after_gate a).0 (proceed_after_gate-Stays a)
update-Rises payloads (Message.copy_request t) a = ground arith
update-Rises payloads (Message.copy_done e) a = ground arith
update-Rises payloads Message.open_url_done a = ground arith

-- The program after a sequence of messages.
abbrev pub updates : (ℕ → Payload) → List Message → App → App
updates payloads [] a = a
updates payloads (m ∷ ms) a = updates payloads ms (update payloads m a).0

updates-Rises :
    (payloads : ℕ → Payload) (ms : List Message) (a : App) → Rises a (updates payloads ms a)
updates-Rises payloads [] a = ((λ h. h), refl)
updates-Rises payloads (m ∷ ms) a =
    let (mode, answers) = update-Rises payloads m a in
    let (later, kept) = updates-Rises payloads ms (update payloads m a).0 in
    ((λ h. later (mode h)), kept ∙ answers)

handle_review-mode :
    (a : App)
    → a.busy ≡ false
    → a.pipe ≡ none
    → ((handle_menu_chosen action_review a).0.facade.review_mode ≡ true)
      × ((handle_menu_chosen action_review a).0.facade.answers ≡ a.facade.answers)
unfolding handle_menu_chosen start_review
handle_review-mode a idle no_pipe =
    let launched =
      start_launch-Stays (record a { facade = record a.facade { review_mode = true } }) in
    ground (arith, idle, no_pipe, launched)

-- Once a review has been chosen from the menu of a program that is not busy and runs no pipeline,
-- the steps of each later launch are those of a review, whatever messages come between.
pub review_sticks :
    (payloads : ℕ → Payload) (ms : List Message) (a : App)
    → a.busy ≡ false
    → a.pipe ≡ none
    → launch_steps (updates payloads (menu_chosen action_review ∷ ms) a).facade
      ≡ review a.facade.answers
unfolding launch_steps update
review_sticks payloads ms a idle no_pipe =
    let (mode, answers) = handle_review-mode a idle no_pipe in
    let (later, kept) = updates-Rises payloads ms (handle_menu_chosen action_review a).0 in
    rw (later mode, kept, answers) refl
