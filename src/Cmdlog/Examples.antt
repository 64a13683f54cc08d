-- ===== src/Cmdlog/Examples.antt =====
-- A command that starts and writes two lines, one of them empty.
use mirabilis.Base.{String, ◌≡◌, none, List, [], ◌∷◌}
use mirabilis.App.State.{StepEvent, StepEventKind, step_started, step_line, step_done}
use mirabilis.Cmdlog.{ran, wrote, lines, empty_log}
use mirabilis.Cmdlog.Ring.{updates_log, updates_log-lines}

abbrev event_of : StepEventKind → List String → String → StepEvent
event_of k argv line = record { step = "image"; kind = k; line = line; error = none; argv = argv }

abbrev events : List StepEvent
events =
    event_of step_started ("docker" ∷ "build" ∷ []) ""
    ∷ event_of step_line [] "one"
    ∷ event_of step_line [] ""
    ∷ event_of step_done [] "two"
    ∷ []

updates_log-lines_example :
    lines (updates_log events empty_log) ≡ ran ("docker" ∷ "build" ∷ []) ∷ wrote "one" ∷ []
updates_log-lines_example = updates_log-lines events
