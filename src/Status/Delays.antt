-- ===== src/Status/Delays.antt =====
-- How long the watcher of the container sleeps: internal/engine/status/status.go.
use mirabilis.Base.{
  ℕ, zero, suc, ◌*◌, ◌-◌, ◌≤◌, Bool, true, false, none, some, List, [], ◌∷◌, ◌++◌, if◌then◌else◌,
  ltb, ◌≡◌, refl, ap, arith, All, length, Option-cases, Bool-cases, inl, inr, ◌∙◌,
}
use mirabilis.Backoff.{doubling}
use mirabilis.Sandbox.{Container}
use mirabilis.Status.{
  Act, report, sleep, report_of, Stream, context_done, stream_over, event, relevant, consume,
  Consumed, Watcher, max_shift, shift_left, delay, Round, Inspection, next_count, round_acts, run,
}

abbrev pub sleeps : List Act → List ℕ
sleeps [] = []
sleeps (report st d ∷ as_) = sleeps as_
sleeps (sleep d ∷ as_) = d ∷ sleeps as_

-- After one more failure the delay is twice as long, up to the longest.
delay-suc :
    (w : Watcher) (n : ℕ)
    → w.max ≤ w.base * 32
    → delay w (suc (suc n))
      ≡ (if ltb w.max (delay w (suc n) * 2) then w.max else delay w (suc n) * 2)
unfolding delay shift_left
delay-suc w n h = ground (arith, h)

delay_first : (w : Watcher) → w.base ≤ w.max → delay w 1 ≡ w.base
unfolding delay shift_left
delay_first w b = ground (arith, b)

-- A number of failures that the next one is counted after.
outage-from :
    (w : Watcher) (n : ℕ) (rs : List Round)
    → w.max ≤ w.base * 32
    → All (λ r. (r.inspected ≡ none) × (r.slept ≡ true)) rs
    → sleeps (run w n rs) ≡ doubling w.max (delay w (suc n)) (length rs)
unfolding run doubling next_count round_acts
outage-from w n [] m h = refl
outage-from w n (r ∷ rs) m h =
    ground (arith, h.0.0, h.0.1, outage-from w (suc n) rs m h.1, delay-suc w n m)

-- While docker cannot be reached, the sleeps double from the shortest up to the longest, as long as five
-- doublings of the shortest are enough for the longest.
pub run-outage :
    (w : Watcher) (rs : List Round)
    → w.base ≤ w.max
    → w.max ≤ w.base * 32
    → All (λ r. (r.inspected ≡ none) × (r.slept ≡ true)) rs
    → sleeps (run w 0 rs) ≡ doubling w.max w.base (length rs)
run-outage w rs b m h =
    outage-from w 0 rs m h ∙ ap (λ d. doubling w.max d (length rs)) (delay_first w b)

shift_left-bound : (x n : ℕ) → x ≤ shift_left x n
unfolding shift_left
shift_left-bound x zero = omega arith
shift_left-bound x (suc n) = omega (arith, shift_left-bound x n)

delay-InRange : (w : Watcher) (n : ℕ) → w.base ≤ w.max → (w.base ≤ delay w n) × (delay w n ≤ w.max)
unfolding delay
delay-InRange w n b =
    let shift = if ltb max_shift (n - 1) then max_shift else n - 1 in
    ground (arith, b, shift_left-bound w.base shift)

-- Within the shortest and the longest sleep.
abbrev pub InRange : Watcher → List ℕ → Type 0
InRange w ds = All (λ d. (w.base ≤ d) × (d ≤ w.max)) ds

sleeps-report_of : (c : Container × ℕ) (as_ : List Act) → sleeps (report_of c ∷ as_) ≡ sleeps as_
unfolding report_of
sleeps-report_of c as_ = refl

sleeps-append : (as_ bs : List Act) → sleeps as_ ≡ [] → sleeps (as_ ++ bs) ≡ sleeps bs
sleeps-append [] bs h = refl
sleeps-append (report st d ∷ as_) bs h = sleeps-append as_ bs h
sleeps-append (sleep d ∷ as_) bs h = cc

-- While events are consumed, nothing sleeps.
consume-sleeps : (p : Bool) (s : Stream) → sleeps (consume p s).acts ≡ []
unfolding consume
consume-sleeps p context_done = refl
consume-sleeps p stream_over = refl
consume-sleeps p (event action answer rest) = elim (Bool-cases (relevant action)) [
  | inl e ↦ elim (Option-cases answer) [
    | inl n ↦ rw e (rw n)
    | inr (c, n) ↦
        rw e (rw n (sleeps-report_of c (consume true rest).acts ∙ consume-sleeps true rest))
  ]
  | inr e ↦ rw e (consume-sleeps p rest)
]

slept-InRange :
    (w : Watcher) (n : ℕ) (slept : Bool) (rest : List Act)
    → w.base ≤ w.max
    → InRange w (sleeps rest)
    → InRange w (sleeps (sleep (delay w n) ∷ (if slept then rest else [])))
slept-InRange w n true rest b h = (delay-InRange w n b, h)
slept-InRange w n false rest b h = (delay-InRange w n b, tt)

round-InRange :
    (w : Watcher) (i : Inspection) (seen : Consumed) (n : ℕ) (slept : Bool) (rest : List Act)
    → w.base ≤ w.max
    → (sleeps seen.acts ≡ [])
    → InRange w (sleeps rest)
    → InRange w (sleeps (round_acts i seen (sleep (delay w n) ∷ (if slept then rest else []))))
unfolding round_acts
round-InRange w none seen n slept rest b e h = slept-InRange w n slept rest b h
round-InRange w (some c) seen n slept rest b e h = elim (Bool-cases seen.stop) [
  | inl s ↦ rw s (rw (sleeps-report_of c (seen.acts ++ [])) (rw (sleeps-append seen.acts [] e) tt))
  | inr s ↦
      let tail = sleep (delay w n) ∷ (if slept then rest else []) in
      rw s (
        rw (sleeps-report_of c (seen.acts ++ tail))
          (rw (sleeps-append seen.acts tail e) (slept-InRange w n slept rest b h)))
]

-- Every sleep lies between the shortest and the longest, whatever docker answers.
pub run-InRange :
    (w : Watcher) (n : ℕ) (rs : List Round) → w.base ≤ w.max → InRange w (sleeps (run w n rs))
unfolding run
run-InRange w n [] b = tt
run-InRange w n (r ∷ rs) b =
    let seen = consume false r.stream in
    let count = next_count r.inspected seen.processed n in
    round-InRange w r.inspected seen count r.slept (run w count rs) b
      (consume-sleeps false r.stream) (run-InRange w count rs b)
