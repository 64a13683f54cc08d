-- ===== src/Pipeline/Attempt/Deadline.antt =====
-- The timeout of a step counts its own time, not the time that it waits for the user.
use mirabilis.Base.{
  ℕ, ◌-◌, ◌≡◌, inl, inr, false, Option, none, some, List, [], ◌∷◌, arith, if◌then◌else◌,
  Option-cases, subst,
}
use mirabilis.Pipeline.Types.{Meta, Event, waiting}
use mirabilis.Pipeline.Attempt.{
  Attempt, Delivery, Input, out_event, resume_taken, timer_fired, ctx_done, run_returned,
  resume_called, Moved, step, turn, drive, on_event,
}

-- Inputs among which the step is not resumed.
abbrev pub IsUnresumed : List Input → Type 0
IsUnresumed [] = Unit
IsUnresumed (resume_taken d ∷ is) = ⊥
IsUnresumed (_ ∷ is) = IsUnresumed is

-- The clock stands, with `left` on it.
abbrev IsStopped : ℕ → Attempt → Type 0
IsStopped left a = (a.timer_on ≡ false) × (a.timed ≡ false) × (a.remaining ≡ left)

abbrev Stays : ℕ → Option Moved → Type 0
Stays left none = Unit
Stays left (some next) = IsStopped left next.state

step-Stays :
    (m : Meta) (a : Attempt) (i : Input) (left : ℕ)
    → IsUnresumed (i ∷ [])
    → IsStopped left a
    → Stays left (step m a i)
unfolding step
step-Stays m a (out_event ev elapsed d) left u s = ground arith
step-Stays m a (resume_taken d) left u s = absurd u
step-Stays m a timer_fired left u s = ground arith
step-Stays m a (ctx_done d) left u s = ground arith
step-Stays m a (run_returned err) left u s = ground arith
step-Stays m a (resume_called name r) left u s = ground arith

turn-Stays :
    (m : Meta) (moved : Moved) (i : Input) (left : ℕ)
    → IsUnresumed (i ∷ [])
    → IsStopped left moved.state
    → IsStopped left (turn m moved i).state
unfolding turn
turn-Stays m moved i left u s = elim (Option-cases (step m moved.state i)) [
  | inl e ↦ rw (e, turn) (ground arith)
  | inr (next, e) ↦
      let stopped : IsStopped left next.state =
        subst (Stays left) e (step-Stays m moved.state i left u s) in
      rw (e, turn) (ground (arith, stopped))
]

IsUnresumed-cons :
    (i : Input) (is : List Input) → IsUnresumed (i ∷ is) → IsUnresumed (i ∷ []) × IsUnresumed is
IsUnresumed-cons (out_event ev elapsed d) is u = (tt, u)
IsUnresumed-cons (resume_taken d) is u = absurd u
IsUnresumed-cons timer_fired is u = (tt, u)
IsUnresumed-cons (ctx_done d) is u = (tt, u)
IsUnresumed-cons (run_returned err) is u = (tt, u)
IsUnresumed-cons (resume_called name r) is u = (tt, u)

drive-Stays :
    (m : Meta) (moved : Moved) (is : List Input) (left : ℕ)
    → IsUnresumed is
    → IsStopped left moved.state
    → IsStopped left (drive m moved is).state
unfolding drive
drive-Stays m moved [] left u s = s
drive-Stays m moved (i ∷ is) left u s =
    let (now, later) = IsUnresumed-cons i is u in
    drive-Stays m (turn m moved i) is left later (turn-Stays m moved i left now s)

-- From the moment a step that has not timed out asks the user, it cannot time out and loses none
-- of its remaining time until it is resumed, whatever happens meanwhile: what is left is what it
-- had when it asked, less the time since its timer was started.
pub wait_keeps_time :
    (m : Meta) (a : Attempt) (ev : Event) (elapsed : ℕ) (d : Delivery) (is : List Input)
    → ev.kind ≡ waiting
    → a.timed ≡ false
    → IsUnresumed is
    → let end = (drive m (on_event m ev elapsed d a) is).state in
      (end.timer_on ≡ false)
      × (end.timed ≡ false)
      × (end.remaining ≡ (if a.timer_on then a.remaining - elapsed else a.remaining))
wait_keeps_time m a ev elapsed d is w t u =
    drive-Stays m (on_event m ev elapsed d a) is
      (if a.timer_on then a.remaining - elapsed else a.remaining) u
      (unfold on_event in ground arith)
