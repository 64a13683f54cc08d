-- ===== src/Pipeline/Attempt/Waiting.antt =====
-- Who waits, and what a waiting step is handed.
use mirabilis.Base.{
  ℕ, ◌+◌, ◌≤◌, ◌≡◌, ◌≢◌, ◌⊎◌, inl, inr, true, false, not, Option, none, some, List, [], ◌∷◌, arith,
  is_some, if◌then◌else◌, length, length-append, subst, eq_iff, Option-cases,
}
use mirabilis.Pipeline.Types.{Meta, Resumption, not_waiting}
use mirabilis.Pipeline.Attempt.{
  Attempt, Input, out_event, resume_taken, timer_fired, ctx_done, run_returned, resume_called,
  Moved, begin, resume_step, stay, step, turn, drive, attempt, is_waiting,
}

-- Between two turns: the slot of the pipeline is empty or holds this step, the timer runs only if
-- there is one, and nobody waits once the context has ended.
pub record Inv (m : Meta) (a : Attempt) : Type 0 where
  pub own : a.resume ≡ true → a.waits ≡ m.name
  pub clear : a.resume ≡ false → a.waits ≡ ""
  pub timer : a.timer_on ≡ true → a.timer ≡ true
  pub ended : a.cancelled ≡ true → a.resume ≡ false
  pub listens : a.done_on ≡ not a.cancelled

-- After the last turn the slot is empty.
abbrev pub IsClear : Attempt → Type 0
IsClear a = (a.resume ≡ false) × (a.waits ≡ "")

pub begin-Inv : (m : Meta) → Inv m (begin m)
unfolding begin
begin-Inv m = ground arith

abbrev pub Keeps : Meta → Option Moved → Type 0
Keeps m none = Unit
Keeps m (some next) = Inv m next.state × (is_some next.result ≡ true → IsClear next.state)

step-Keeps : (m : Meta) (a : Attempt) (i : Input) → m.name ≢ "" → Inv m a → Keeps m (step m a i)
unfolding step
step-Keeps m a (out_event ev elapsed d) given inv =
    ground (arith, eq_iff a.waits m.name, eq_iff m.name m.name)
step-Keeps m a (resume_taken d) given inv = ground (arith, eq_iff a.waits m.name)
step-Keeps m a timer_fired given inv = ground arith
step-Keeps m a (ctx_done d) given inv = ground (arith, eq_iff a.waits m.name, eq_iff "" m.name)
step-Keeps m a (run_returned err) given inv = ground (arith, eq_iff a.waits m.name)
step-Keeps m a (resume_called name r) given inv = ground (arith, eq_iff a.waits name)

pub turn-Keeps :
    (m : Meta) (moved : Moved) (i : Input)
    → m.name ≢ ""
    → Keeps m (some moved)
    → Keeps m (some (turn m moved i))
unfolding turn
turn-Keeps m moved i given keeps = elim (Option-cases (step m moved.state i)) [
  | inl e ↦ rw (e, turn) (ground arith)
  | inr (next, e) ↦
      let kept : Keeps m (some next) =
        subst (Keeps m) e (step-Keeps m moved.state i given keeps.0) in
      rw (e, turn) (ground (arith, kept))
]

pub drive-Keeps :
    (m : Meta) (moved : Moved) (is : List Input)
    → m.name ≢ ""
    → Keeps m (some moved)
    → Keeps m (some (drive m moved is))
unfolding drive
drive-Keeps m moved [] given keeps = keeps
drive-Keeps m moved (i ∷ is) given keeps =
    drive-Keeps m (turn m moved i) is given (turn-Keeps m moved i given keeps)

-- The values that the step may still be handed.
abbrev pub pending : Attempt → ℕ
pending a = (if a.resume then 1 else 0) + (if is_some a.buffer then 1 else 0)

-- How often the step has asked.
abbrev pub asks : List Input → ℕ
asks [] = 0
asks (out_event ev elapsed d ∷ is) = (if is_waiting ev.kind then 1 else 0) + asks is
asks (_ ∷ is) = asks is

abbrev Hands : ℕ → Attempt → Option Moved → Type 0
Hands asked a none = Unit
Hands asked a (some next) = length next.handed + pending next.state ≤ pending a + asked

step-Hands :
    (m : Meta) (a : Attempt) (i : Input)
    → m.name ≢ ""
    → Inv m a
    → Hands (asks (i ∷ [])) a (step m a i)
unfolding step
step-Hands m a (out_event ev elapsed d) given inv = ground (arith, eq_iff a.waits m.name)
step-Hands m a (resume_taken d) given inv = ground (arith, eq_iff a.waits m.name)
step-Hands m a timer_fired given inv = ground arith
step-Hands m a (ctx_done d) given inv = ground (arith, eq_iff a.waits m.name, eq_iff "" m.name)
step-Hands m a (run_returned err) given inv = ground (arith, eq_iff a.waits m.name)
step-Hands m a (resume_called name r) given inv = ground (arith, eq_iff a.waits name)

pub asks-cons : (i : Input) (is : List Input) → asks (i ∷ is) ≡ asks (i ∷ []) + asks is
asks-cons (out_event ev elapsed d) is = omega arith
asks-cons (resume_taken d) is = omega arith
asks-cons timer_fired is = omega arith
asks-cons (ctx_done d) is = omega arith
asks-cons (run_returned err) is = omega arith
asks-cons (resume_called name r) is = omega arith

turn-handed :
    (m : Meta) (moved : Moved) (i : Input)
    → m.name ≢ ""
    → Inv m moved.state
    → length (turn m moved i).handed + pending (turn m moved i).state
      ≤ length moved.handed + pending moved.state + asks (i ∷ [])
unfolding turn
turn-handed m moved i given inv = elim (Option-cases (step m moved.state i)) [
  | inl e ↦ rw (e, turn) (ground arith)
  | inr (next, e) ↦
      let fewer : Hands (asks (i ∷ [])) moved.state (some next) =
        subst (Hands (asks (i ∷ [])) moved.state) e (step-Hands m moved.state i given inv) in
      rw (e, turn) (ground (arith, fewer, length-append moved.handed next.handed))
]

drive-handed :
    (m : Meta) (moved : Moved) (is : List Input)
    → m.name ≢ ""
    → Keeps m (some moved)
    → length (drive m moved is).handed + pending (drive m moved is).state
      ≤ length moved.handed + pending moved.state + asks is
unfolding drive
drive-handed m moved [] given keeps = omega arith
drive-handed m moved (i ∷ is) given keeps = omega (
  arith,
  turn-handed m moved i given keeps.0,
  drive-handed m (turn m moved i) is given (turn-Keeps m moved i given keeps),
  asks-cons i is,
)

-- A step is never handed more results than it has asked for, whatever the user, the timer and the
-- context do and in whatever order.
pub attempt-handed :
    (m : Meta) (is : List Input) → m.name ≢ "" → length (attempt m is).handed ≤ asks is
unfolding attempt begin
attempt-handed m is given =
    omega (arith, drive-handed m (stay (begin m) []) is given (begin-Inv m, λ e. cc))

-- A call of `Resume` for a waiting step is accepted and clears the slot, so that a second call is
-- refused; for a step that does not wait it is refused and changes nothing.
pub resume_once :
    (m : Meta) (a : Attempt) (r r' : Resumption)
    → m.name ≢ ""
    → Inv m a
    → let (b, err) = resume_step m.name r a in
      ((a.resume ≡ true)
        × (err ≡ none)
        × (b.buffer ≡ some r)
        × (resume_step m.name r' b ≡ (b, some (not_waiting m.name))))
      ⊎ ((a.resume ≡ false) × (err ≡ some (not_waiting m.name)) × (b ≡ a))
unfolding resume_step
resume_once m a r r' given inv = ground (arith, eq_iff a.waits m.name, eq_iff "" m.name)
