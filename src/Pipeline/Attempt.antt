-- ===== src/Pipeline/Attempt.antt =====
-- `attempt`, `deliver`, `settle`, `setWaiting`, `takeWaiting`, `Resume` and `forward` of
-- internal/engine/pipeline/pipeline.go. Each case of the `select` is an input, which the state
-- allows or not; the inner loop of `deliver` comes with what it met. The channel of a waiting step
-- holds one value. The waiting slot belongs to the pipeline; here each attempt has it to itself, as the
-- steps that the program runs in parallel never wait.
pub mod Waiting
pub mod Answers
pub mod Deadline
use mirabilis.Base.{
  ℕ, ◌-◌, String, Bool, true, false, not, ◌&&◌, Option, none, some, List, [], ◌∷◌, ◌++◌, map,
  if◌then◌else◌, is_some, is_none, ◌==◌, ltb, str_eq,
}
use mirabilis.Pipeline.Types.{
  Meta, Resumption, Error, not_waiting, timed_out, deadline_exceeded, Event, EventKind, waiting,
}

-- The variables of `attempt`, and `p.waiting` and `p.resume` (not nil) of the pipeline.
pub record Attempt : Type 0 where
  pub waits : String
  pub resume : Bool
  pub buffer : Option Resumption
  pub timer : Bool
  pub timer_on : Bool
  pub remaining : ℕ
  pub done_on : Bool
  pub cancelled : Bool
  pub timed : Bool

-- What `deliver` met: the events that it forwarded, and the error of `Run` if that came first.
pub record Delivery : Type 0 where
  pub forwarded : List Event
  pub exit : Option (Option Error)

pub data Input : Type 0 where
  out_event : Event → ℕ → Delivery → Input
  resume_taken : Delivery → Input
  timer_fired : Input
  ctx_done : Delivery → Input
  run_returned : Option Error → Input
  resume_called : String → Resumption → Input

-- The state after an input, the events sent on, what `Run` was handed, and the result at the end.
pub record Moved : Type 0 where
  pub state : Attempt
  pub events : List Event
  pub handed : List Resumption
  pub result : Option (Option Error)

unfoldable pub begin : Meta → Attempt
begin m = record {
  waits = "";
  resume = false;
  buffer = none;
  timer = ltb 0 m.timeout;
  timer_on = ltb 0 m.timeout;
  remaining = m.timeout;
  done_on = true;
  cancelled = false;
  timed = false;
}

abbrev pub forward : String → Event → Event
forward step ev = record ev { step = step }

unfoldable pub set_waiting : String → Attempt → Attempt
set_waiting step a = record a { waits = step; resume = true }

unfoldable pub take_waiting : String → Attempt → Attempt × Bool
take_waiting step a =
    if str_eq a.waits step then (record a { waits = ""; resume = false }, true) else (a, false)

-- `Resume`: the error where the step does not wait, else the value goes into the channel.
unfoldable pub resume_step : String → Resumption → Attempt → Attempt × Option Error
resume_step step r a =
    if str_eq a.waits step && a.resume
    then (record a { waits = ""; resume = false; buffer = some r }, none)
    else (a, some (not_waiting step))

unfoldable pub settle : Meta → Option Error → Attempt → Attempt × Option Error
unfolding take_waiting
settle m err a =
    let b = (take_waiting m.name a).0 in
    if is_some err && a.timed
    then (b, some (timed_out m.name m.timeout deadline_exceeded))
    else (b, err)

-- The loop goes on, or `settle` ends it.
abbrev pub stay : Attempt → List Event → Moved
stay a evs = record { state = a; events = evs; handed = []; result = none }

unfoldable pub finish : Meta → Option Error → Attempt → List Event → Moved
unfolding settle
finish m err a evs =
    let (b, e) = settle m err a in record { state = b; events = evs; handed = []; result = some e }

-- `if exited, err := p.deliver(...); exited { return p.settle(...) }`
unfoldable pub deliver : Meta → Delivery → Resumption → Attempt → List Event → Moved
unfolding finish
deliver m d r a before =
    let evs = before ++ map (forward m.name) d.forwarded in
    elim d.exit [
      | some err ↦ finish m err a evs
      | none ↦ record { state = a; events = evs; handed = r ∷ []; result = none }
    ]

abbrev pub cancel_result : Resumption
cancel_result = record { value = 0; cancelled = true }

abbrev pub is_waiting : EventKind → Bool
is_waiting waiting = true
is_waiting _ = false

-- `case ev := <-out`, with the time since the timer was started.
unfoldable pub on_event : Meta → Event → ℕ → Delivery → Attempt → Moved
unfolding deliver set_waiting
on_event m ev elapsed d a =
    let evs = forward m.name ev ∷ [] in
    let stopped =
      if a.timer_on then record a { remaining = a.remaining - elapsed; timer_on = false } else a in
    if not (is_waiting ev.kind)
    then stay a evs
    else if a.cancelled
    then deliver m d cancel_result stopped evs
    else stay (set_waiting m.name stopped) evs

-- `case r := <-resume`
unfoldable pub on_resume : Meta → Resumption → Delivery → Attempt → Moved
unfolding deliver
on_resume m r d a =
    let taken = record a { buffer = none } in
    let timed_again =
      if a.timer && not a.cancelled
      then (if a.remaining == 0
          then record taken { timed = true }
          else record taken { timer_on = true })
      else taken in
    deliver m d r timed_again []

-- `case <-done`
unfoldable pub on_done : Meta → Delivery → Attempt → Moved
unfolding deliver take_waiting
on_done m d a =
    let (b, taken) = take_waiting m.name (record a { done_on = false; cancelled = true }) in
    if taken then deliver m d cancel_result b [] else stay b []

-- One turn of the loop; `none` where the state does not allow the input. A call of `Resume` waits
-- for room in the channel.
unfoldable pub step : Meta → Attempt → Input → Option Moved
unfolding on_event on_resume on_done resume_step finish
step m a (out_event ev elapsed d) = some (on_event m ev elapsed d a)
step m a (resume_taken d) = elim a.buffer [ none ↦ none | some r ↦ some (on_resume m r d a) ]
step m a timer_fired =
    if a.timer_on then some (stay (record a { timer_on = false; timed = true }) []) else none
step m a (ctx_done d) = if a.done_on then some (on_done m d a) else none
step m a (run_returned err) = some (finish m err a [])
step m a (resume_called name r) =
    if is_none a.buffer then some (stay (resume_step name r a).0 []) else none

-- What has been sent and handed on so far comes before what the next turn adds.
abbrev pub follow : Moved → Moved → Moved
follow moved next = record {
  state = next.state;
  events = moved.events ++ next.events;
  handed = moved.handed ++ next.handed;
  result = next.result;
}

-- One input after a result is of no account, and one that the state does not allow does not come.
unfoldable pub turn : Meta → Moved → Input → Moved
turn m moved i =
    if is_some moved.result
    then moved
    else elim (step m moved.state i) [ none ↦ moved | some next ↦ follow moved next ]

unfoldable pub drive : Meta → Moved → List Input → Moved
drive m moved [] = moved
drive m moved (i ∷ is) = drive m (turn m moved i) is

unfoldable pub attempt : Meta → List Input → Moved
unfolding drive begin
attempt m is = drive m (stay (begin m) []) is
