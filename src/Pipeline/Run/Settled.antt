-- ===== src/Pipeline/Run/Settled.antt =====
-- Two consequences: batching is of no account, and the final states explain themselves.
use mirabilis.Base.{
  ℕ, zero, suc, max, String, ◌≡◌, refl, sym, ap, ◌∙◌, false, Option, none, some, List, [], ◌∷◌,
  ◌++◌, map, Memᴰ, arith, is_some, StringMap, lookup, insert, lookup-insert, length, contains,
  contains-cons, eq_iff, if◌then◌else◌,
}
use mirabilis.Pipeline.Types.{StepState, state_skipped, Command, name, Meta, Round, Error, Answers}
use mirabilis.Pipeline.Build.Order.{IsOrderedAfter, IsOrdered, IsOrdered-after, before, fresh}
use mirabilis.Pipeline.Step.{run_step, run_rounds, run_attempts}
use mirabilis.Pipeline.Run.{Schedule, start, run}
use mirabilis.Pipeline.Run.Batch.{Starts, ordered-apart}
use mirabilis.Pipeline.Run.Judge.{
  verdict, judge_all, fails, Same, some_failed-Same, judge_all-append,
}
use mirabilis.Pipeline.Run.Equal.{IsFair, run-Judges, run_from-Judges}

-- The same step with no batching.
abbrev pub unbatched : Command → Command
unbatched c = record { meta = record (c.meta) { parallel = false }; answers = c.answers }

run_rounds-unbatched :
    (n i : ℕ) (m : Meta) (rounds : ℕ → Round) (last : Option Error)
    → run_rounds n i (record m { parallel = false }) rounds last ≡ run_rounds n i m rounds last
unfolding run_rounds
run_rounds-unbatched zero i m rounds last = refl
run_rounds-unbatched (suc n) i m rounds last =
    rw (run_rounds-unbatched n (suc i) m rounds (rounds i).outcome) refl

run_step-unbatched :
    (m : Meta) (a : Answers) → run_step (record m { parallel = false }) a ≡ run_step m a
unfolding run_step run_attempts
run_step-unbatched m a = rw (run_rounds-unbatched (max m.retry.attempts 1) 0 m a.rounds none) refl

verdict-unbatched : (s : StringMap StepState) (c : Command) → verdict s (unbatched c) ≡ verdict s c
unfolding verdict
verdict-unbatched s c = rw (run_step-unbatched c.meta c.answers)

judge_all-unbatched :
    (cs : List Command) (s : StringMap StepState)
    → (judge_all (map unbatched cs) s ≡ judge_all cs s) × (fails (map unbatched cs) s ≡ fails cs s)
unfolding judge_all fails
judge_all-unbatched [] s = (refl, refl)
judge_all-unbatched (c ∷ cs) s =
    ground (arith, verdict-unbatched s c, judge_all-unbatched cs (insert (name c) (verdict s c) s))

IsOrderedAfter-unbatched :
    (earlier : List String) (cs : List Command)
    → IsOrderedAfter earlier cs
    → IsOrderedAfter earlier (map unbatched cs)
IsOrderedAfter-unbatched earlier [] h = tt
IsOrderedAfter-unbatched earlier (c ∷ cs) h =
    (h.0, h.1, h.2, IsOrderedAfter-unbatched (name c ∷ earlier) cs h.3)

Starts-unbatched : (cs : List Command) → Starts cs → Starts (map unbatched cs)
Starts-unbatched [] h = tt
Starts-unbatched (c ∷ cs) h = (h.0, Starts-unbatched cs h.1)

-- Running the independent parallel steps of a pipeline in concurrent batches, their results in any
-- order of arrival, ends with the same state of every step as running the same steps one at a
-- time, and returns an error in the same cases. (`New` has accepted the steps, and the context does
-- not end meanwhile.)
pub run-unbatched :
    (cs : List Command) (s t : Schedule)
    → IsOrdered cs
    → Starts cs
    → IsFair s
    → IsFair t
    → let batched = (run s (fresh cs)).0 in
      let single = (run t (fresh (map unbatched cs))).0 in
      Same batched.progress.states single.progress.states
      × (is_some batched.err ≡ is_some single.err)
unfolding run
run-unbatched cs s t ordered go fair fair' =
    let a =
      run_from-Judges (length cs) s 0 cs start [] fair go (IsOrdered-after cs ordered)
        (omega arith) in
    let b =
      run_from-Judges (length (map unbatched cs)) t 0 (map unbatched cs) start [] fair'
        (Starts-unbatched cs go) (IsOrderedAfter-unbatched [] cs (IsOrdered-after cs ordered))
        (omega arith) in
    let same = judge_all-unbatched cs [] in
    (λ k. a.1 k ∙ ap (lookup k) (sym same.0) ∙ sym (b.1 k), a.2 ∙ sym same.1 ∙ sym b.2)

judge_all-other :
    (cs : List Command) (s : StringMap StepState) (k : String)
    → contains (map name cs) k ≡ false
    → lookup k (judge_all cs s) ≡ lookup k s
unfolding judge_all
judge_all-other [] s k h = refl
judge_all-other (c ∷ cs) s k h = ground (
  arith,
  contains-cons (name c) k (map name cs),
  judge_all-other cs (insert (name c) (verdict s c) s) k,
  lookup-insert (name c) k (verdict s c) s,
)

ordered-rest :
    (acc : List String) (pre cs : List Command)
    → IsOrderedAfter acc (pre ++ cs)
    → IsOrderedAfter (before acc pre) cs
ordered-rest acc [] cs h = h
ordered-rest acc (x ∷ pre) cs h = ordered-rest (name x ∷ acc) pre cs h.3

-- The state of a step, once set, and those of the steps before it stay what they were.
judge_all-settles :
    (earlier : List String) (post : List Command) (c : Command) (s : StringMap StepState)
    → IsOrderedAfter earlier (c ∷ post)
    → (lookup (name c) (judge_all (c ∷ post) s) ≡ some (verdict s c))
      × ((d : String) → Memᴰ d earlier → lookup d (judge_all (c ∷ post) s) ≡ lookup d s)
judge_all-settles earlier post c s ordered = (
  unfold judge_all in
      judge_all-other post (insert (name c) (verdict s c) s) (name c)
        (ordered-apart (name c ∷ earlier) post (name c) ordered.3 (Memᴰ.head refl))
      ∙ ground (arith, lookup-insert (name c) (name c) (verdict s c) s, eq_iff (name c) (name c)),
  λ d m. judge_all-other (c ∷ post) s d (ordered-apart earlier (c ∷ post) d ordered m),
)

-- The final states explain themselves: every step, wherever it stands, is skipped if one of its
-- dependencies has failed in the end, and otherwise has the verdict of its own run. So a failure
-- reaches the direct dependents of a step, and these, being skipped, block no other.
pub run_settles :
    (pre post : List Command) (c : Command) (s : Schedule)
    → IsOrdered (pre ++ c ∷ post)
    → Starts (pre ++ c ∷ post)
    → IsFair s
    → let states = (run s (fresh (pre ++ c ∷ post))).0.progress.states in
      lookup (name c) states ≡ some (verdict states c)
run_settles pre post c s ordered go fair =
    let cs = pre ++ c ∷ post in
    let final = (run s (fresh cs)).0.progress.states in
    let early = judge_all pre [] in
    let rest = ordered-rest [] pre (c ∷ post) (IsOrdered-after cs ordered) in
    let judged : Same final (judge_all (c ∷ post) early) = λ k.
      (run-Judges cs s ordered go fair).1 k ∙ ap (lookup k) (judge_all-append pre (c ∷ post) []) in
    let (own, others) = judge_all-settles (before [] pre) post c early rest in
    let same : verdict early c ≡ verdict final c =
      unfold verdict in
      ap (λ o. if o then state_skipped else (run_step c.meta c.answers).state)
        (some_failed-Same c.meta.deps early final
          (λ d m. sym (judged d ∙ others d (rest.2 d m)))) in
    judged (name c) ∙ own ∙ ap some same
