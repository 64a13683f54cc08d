-- ===== src/Pipeline/Attempt/Answers.antt =====
-- Every request of a step is answered: `attempt`, `deliver` and `takeWaiting` of
-- internal/engine/pipeline/pipeline.go.
use mirabilis.Base.{
  ℕ, ◌+◌, ◌≡◌, ◌≢◌, ◌⊎◌, inl, inr, Option, none, some, List, [], ◌∷◌, arith, length, length-append,
  subst, eq_iff, Option-cases, refl,
}
use mirabilis.Pipeline.Types.{Meta}
use mirabilis.Pipeline.Attempt.{
  Attempt, Delivery, Input, out_event, resume_taken, timer_fired, ctx_done, run_returned,
  resume_called, Moved, begin, stay, step, turn, drive, attempt,
}
use mirabilis.Pipeline.Attempt.Waiting.{
  IsClear, Inv, begin-Inv, Keeps, turn-Keeps, drive-Keeps, pending, asks, asks-cons,
}

-- `Run` asks again only when it has been handed an answer to each of its former requests: it sends
-- the event and then waits for the value.
unfoldable pub IsPatient : Meta → ℕ → Moved → List Input → Type 0
IsPatient m asked moved [] = Unit
IsPatient m asked moved (i ∷ is) =
    ((asks (i ∷ []) ≡ 0) ⊎ (length moved.handed ≡ asked))
    × IsPatient m (asked + asks (i ∷ [])) (turn m moved i) is

abbrev Exact : ℕ → Attempt → Option Moved → Type 0
Exact asked a none = asked ≡ 0
Exact asked a (some next) =
    next.result ≡ none → length next.handed + pending next.state ≡ pending a + asked

step-Exact :
    (m : Meta) (a : Attempt) (i : Input)
    → m.name ≢ ""
    → Inv m a
    → (asks (i ∷ []) ≡ 0) ⊎ (pending a ≡ 0)
    → Exact (asks (i ∷ [])) a (step m a i)
unfolding step
step-Exact m a (out_event ev elapsed d) given inv free = ground (arith, eq_iff a.waits m.name)
step-Exact m a (resume_taken d) given inv free = ground (arith, eq_iff a.waits m.name)
step-Exact m a timer_fired given inv free = ground arith
step-Exact m a (ctx_done d) given inv free = ground (arith, eq_iff a.waits m.name, eq_iff "" m.name)
step-Exact m a (run_returned err) given inv free = ground (arith, eq_iff a.waits m.name)
step-Exact m a (resume_called name r) given inv free = ground (arith, eq_iff a.waits name)

-- What has been handed on and what is pending are the requests, while there is no result.
abbrev Counts : ℕ → Moved → Type 0
Counts asked moved = moved.result ≡ none → length moved.handed + pending moved.state ≡ asked

turn-open :
    (m : Meta) (moved : Moved) (i : Input) → (turn m moved i).result ≡ none → moved.result ≡ none
unfolding turn
turn-open m moved i h = elim (Option-cases moved.result) [
  | inl e ↦ e
  | inr (x, e) ↦ ground (arith, h, e)
]

drive-open :
    (m : Meta) (moved : Moved) (is : List Input)
    → (drive m moved is).result ≡ none
    → moved.result ≡ none
unfolding drive
drive-open m moved [] h = h
drive-open m moved (i ∷ is) h = turn-open m moved i (drive-open m (turn m moved i) is h)

turn-Counts :
    (m : Meta) (asked : ℕ) (moved : Moved) (i : Input)
    → m.name ≢ ""
    → Inv m moved.state
    → Counts asked moved
    → (asks (i ∷ []) ≡ 0) ⊎ (length moved.handed ≡ asked)
    → moved.result ≡ none
    → Counts (asked + asks (i ∷ [])) (turn m moved i)
unfolding turn
turn-Counts m asked moved i given inv counts patient goes_on =
    let n = asks (i ∷ []) in
    let counted = counts goes_on in
    let free : (n ≡ 0) ⊎ (pending moved.state ≡ 0) = elim patient [
      | inl e ↦ inl e
      | inr e ↦ inr (omega (arith, e, counted))
    ] in
    let exact = step-Exact m moved.state i given inv free in
    elim (Option-cases (step m moved.state i)) [
      | inl e ↦
          let zero_asked = subst (Exact n moved.state) e exact in
          rw (e, goes_on, turn) (λ h. omega (arith, counted, zero_asked))
      | inr (next, e) ↦
          let moves = subst (Exact n moved.state) e exact in
          rw (e, goes_on, turn)
            (λ h. omega (arith, counted, moves h, length-append moved.handed next.handed))
    ]

drive-Counts :
    (m : Meta) (asked : ℕ) (moved : Moved) (is : List Input)
    → m.name ≢ ""
    → Keeps m (some moved)
    → Counts asked moved
    → IsPatient m asked moved is
    → Counts (asked + asks is) (drive m moved is)
unfolding drive IsPatient
drive-Counts m asked moved [] given keeps counts patient = λ h. omega (arith, counts h)
drive-Counts m asked moved (i ∷ is) given keeps counts (free, patient) = λ h.
    let goes_on = turn-open m moved i (drive-open m (turn m moved i) is h) in
    let counted = turn-Counts m asked moved i given keeps.0 counts free goes_on in
    let rest =
      drive-Counts m (asked + asks (i ∷ [])) (turn m moved i) is given
        (turn-Keeps m moved i given keeps) counted patient h in
    omega (arith, rest, asks-cons i is)

-- After the end of the context and one more turn nothing is pending.
last-pending :
    (m : Meta) (moved : Moved) (d d' : Delivery)
    → m.name ≢ ""
    → Inv m moved.state
    → moved.result ≡ none
    → d.exit ≡ none
    → d'.exit ≡ none
    → let end = drive m moved (ctx_done d ∷ resume_taken d' ∷ []) in
      (end.result ≡ none) × (pending end.state ≡ 0)
unfolding drive turn step
last-pending m moved d d' given inv goes_on e e' =
    ground (arith, eq_iff moved.state.waits m.name, eq_iff "" m.name)

-- Whatever the user, the timer and the context did so far to an attempt that goes on, of a step whose
-- `Run` asks again only when it has been handed an answer to each of its former requests: once the
-- context ends and the value in the channel, if there is one, is taken, with a `Run` that takes what
-- it is handed, every request of the step has been answered, exactly once, the attempt goes on, and
-- nobody is left in the waiting slot.
pub attempt-answers :
    (m : Meta) (is : List Input) (d d' : Delivery)
    → m.name ≢ ""
    → IsPatient m 0 (stay (begin m) []) is
    → (attempt m is).result ≡ none
    → d.exit ≡ none
    → d'.exit ≡ none
    → let end = drive m (attempt m is) (ctx_done d ∷ resume_taken d' ∷ []) in
      (length end.handed ≡ asks is) × (end.result ≡ none) × IsClear end.state
unfolding attempt begin IsPatient
attempt-answers m is d d' given patient goes_on e e' =
    let start = stay (begin m) [] in
    let last = ctx_done d ∷ resume_taken d' ∷ [] in
    let moved = drive m start is in
    let keeps = drive-Keeps m start is given (begin-Inv m, λ h. cc) in
    let counts : Counts (asks is) moved = λ h. omega (
      arith,
      drive-Counts m 0 start is given (begin-Inv m, λ h. cc) (λ h. omega arith) patient h,
    ) in
    let counted =
      drive-Counts m (asks is) moved last given keeps counts (inl refl, (inl refl, tt)) in
    let (open_end, none_left) = last-pending m moved d d' given keeps.0 goes_on e e' in
    let inv = (drive-Keeps m moved last given keeps).0 in
    (omega (arith, counted open_end, none_left), open_end, ground (arith, none_left, inv.clear))
