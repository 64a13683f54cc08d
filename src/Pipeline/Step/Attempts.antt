-- ===== src/Pipeline/Step/Attempts.antt =====
-- The retry loop: how often a step runs, and what its result means.
use mirabilis.Base.{
  ℕ, zero, suc, ◌+◌, ◌≤◌, ◌<◌, max, ◌≡◌, ◌⊎◌, inl, inr, true, false, Option, none, List, [], ◌∷◌,
  arith, is_some, ap, ◌∙◌,
}
use mirabilis.Pipeline.Types.{Meta, Error, Round}
use mirabilis.Pipeline.Step.{Call, ran, is_satisfied, sleep, run_rounds, run_attempts}

abbrev pub runs : List Call → ℕ
runs [] = 0
runs (ran ∷ cs) = suc (runs cs)
runs (_ ∷ cs) = runs cs

runs-run_rounds :
    (n i : ℕ) (m : Meta) (rounds : ℕ → Round) (last : Option Error)
    → runs (run_rounds n i m rounds last).calls ≤ n
unfolding run_rounds
runs-run_rounds zero i m rounds last = omega arith
runs-run_rounds (suc n) i m rounds last =
    ground (arith, runs-run_rounds n (suc i) m rounds (rounds i).outcome)

-- The context has an error whenever a wait ends before its timer.
abbrev pub CtxLaw : (ℕ → Round) → Type 0
CtxLaw rounds = (i : ℕ) → (rounds i).timer_won ≡ false → is_some (rounds i).ctx_before ≡ true

-- Round `k` gives the step its success: the attempt returned nil, or the check before a retry was
-- satisfied.
abbrev pub Succeeds : (ℕ → Round) → ℕ → Type 0
Succeeds rounds k =
    ((rounds k).outcome ≡ none) ⊎ ((0 < k) × (is_satisfied (rounds k).recheck ≡ true))

run_rounds-later :
    (n i : ℕ) (m : Meta) (rounds : ℕ → Round) (last : Option Error)
    → CtxLaw rounds
    → (run_rounds (suc n) i m rounds last).err ≡ none
    → Succeeds rounds i
      ⊎ ((is_some (rounds i).outcome ≡ true)
          × ((run_rounds n (suc i) m rounds (rounds i).outcome).err ≡ none))
unfolding run_rounds
run_rounds-later n i m rounds last law e = ground (arith, law i)

run_rounds-Succeeds :
    (n i : ℕ) (m : Meta) (rounds : ℕ → Round) (last : Option Error)
    → CtxLaw rounds
    → (is_some last ≡ true) ⊎ (0 < n)
    → (run_rounds n i m rounds last).err ≡ none
    → (k : ℕ) × (i ≤ k) × (k < i + n) × Succeeds rounds k
run_rounds-Succeeds zero i m rounds last law h e = absurd (unfold run_rounds in ground arith)
run_rounds-Succeeds (suc n) i m rounds last law h e =
    elim (run_rounds-later n i m rounds last law e) [
      | inl now ↦ (i, omega arith, omega arith, now)
      | inr (bad, later) ↦
          let (k, low, high, good) =
            run_rounds-Succeeds n (suc i) m rounds (rounds i).outcome law (inl bad) later in
          (k, omega arith, omega arith, good)
    ]

-- A step's `Run` is called at most `max(attempts, 1)` times.
pub run_attempts_bound :
    (m : Meta) (rounds : ℕ → Round) → runs (run_attempts m rounds).calls ≤ max m.retry.attempts 1
unfolding run_attempts
run_attempts_bound m rounds = runs-run_rounds (max m.retry.attempts 1) 0 m rounds none

-- Where the retry loop reports success, one of its `max(attempts, 1)` rounds had its attempt return
-- nil, or was a retry whose check was satisfied. (A wait that ends before its timer finds an error
-- in the context.)
pub run_attempts_sound :
    (m : Meta) (rounds : ℕ → Round)
    → CtxLaw rounds
    → (run_attempts m rounds).err ≡ none
    → (k : ℕ) × (k < max m.retry.attempts 1) × Succeeds rounds k
unfolding run_attempts
run_attempts_sound m rounds law e =
    let (k, low, high, good) =
      run_rounds-Succeeds (max m.retry.attempts 1) 0 m rounds none law (inr (omega arith)) e in
    (k, omega arith, good)

-- A round that fails and may be tried again: the wait ended by its timer, the check before the
-- retry was not satisfied, and the attempt failed under a context that lives.
abbrev pub Fails : Meta → (ℕ → Round) → ℕ → Type 0
Fails m rounds k =
    (is_some (rounds k).outcome ≡ true)
    × ((rounds k).ctx_after ≡ none)
    × (sleep m.retry.delay (rounds k) ≡ true)
    × (is_satisfied (rounds k).recheck ≡ false)

run_rounds_fail :
    (n i : ℕ) (m : Meta) (rounds : ℕ → Round) (last : Option Error)
    → Fails m rounds i
    → let t = run_rounds (suc n) i m rounds last in
      let rest = run_rounds n (suc i) m rounds (rounds i).outcome in
      (t.err ≡ rest.err) × (runs t.calls ≡ suc (runs rest.calls))
unfolding run_rounds
run_rounds_fail n i m rounds last f = ground arith

run_rounds_recover :
    (k n i j : ℕ) (m : Meta) (rounds : ℕ → Round) (last : Option Error)
    → i + k ≡ j
    → k < n
    → ((l : ℕ) → i ≤ l → l < j → Fails m rounds l)
    → sleep m.retry.delay (rounds j) ≡ true
    → is_satisfied (rounds j).recheck ≡ false
    → (rounds j).outcome ≡ none
    → let t = run_rounds n i m rounds last in (t.err ≡ none) × (runs t.calls ≡ suc k)
run_rounds_recover k zero i j m rounds last e lt f s c o = elim lt [ ]
run_rounds_recover zero (suc n) i j m rounds last e lt f s c o =
    let e' : j ≡ i = omega arith in unfold run_rounds in ground (arith, e')
run_rounds_recover (suc k) (suc n) i j m rounds last e lt f s c o =
    let one = run_rounds_fail n i m rounds last (f i (omega arith) (omega arith)) in
    let ih =
      run_rounds_recover k n (suc i) j m rounds (rounds i).outcome (omega arith) (omega arith)
        (λ l a b. f l (omega arith) b) s c o in
    (one.0 ∙ ih.0, one.1 ∙ ap suc ih.1)

run_rounds_exhaust :
    (n i : ℕ) (m : Meta) (rounds : ℕ → Round) (last : Option Error)
    → ((l : ℕ) → i ≤ l → l < i + n → Fails m rounds l)
    → (is_some last ≡ true) ⊎ (0 < n)
    → let t = run_rounds n i m rounds last in (is_some t.err ≡ true) × (runs t.calls ≡ n)
run_rounds_exhaust zero i m rounds last f h = unfold run_rounds in ground arith
run_rounds_exhaust (suc n) i m rounds last f h =
    let now = f i (omega arith) (omega arith) in
    let one = run_rounds_fail n i m rounds last now in
    let ih =
      run_rounds_exhaust n (suc i) m rounds (rounds i).outcome
        (λ l a b. f l (omega arith) (omega arith)) (inl now.0) in
    (ap is_some one.0 ∙ ih.0, one.1 ∙ ap suc ih.1)

-- A step that fails in rounds 0 to k - 1 and whose attempt succeeds in round k, within the
-- attempts of its policy, succeeds after exactly k + 1 runs.
pub run_attempts_recovers :
    (m : Meta) (rounds : ℕ → Round) (k : ℕ)
    → k < max m.retry.attempts 1
    → ((l : ℕ) → l < k → Fails m rounds l)
    → sleep m.retry.delay (rounds k) ≡ true
    → is_satisfied (rounds k).recheck ≡ false
    → (rounds k).outcome ≡ none
    → let t = run_attempts m rounds in (t.err ≡ none) × (runs t.calls ≡ suc k)
unfolding run_attempts
run_attempts_recovers m rounds k lt f s c o =
    run_rounds_recover k (max m.retry.attempts 1) 0 k m rounds none (omega arith) lt
      (λ l a b. f l b) s c o

-- A step that fails in every round has used all its attempts and reports an error.
pub run_attempts_exhausts :
    (m : Meta) (rounds : ℕ → Round)
    → ((l : ℕ) → l < max m.retry.attempts 1 → Fails m rounds l)
    → let t = run_attempts m rounds in
      (is_some t.err ≡ true) × (runs t.calls ≡ max m.retry.attempts 1)
unfolding run_attempts
run_attempts_exhausts m rounds f =
    run_rounds_exhaust (max m.retry.attempts 1) 0 m rounds none (λ l a b. f l (omega arith))
      (inr (omega arith))
