-- ===== src/Pipeline/Run/Equal.antt =====
-- Running steps in batches gives the states and the outcome of running them one after another.
use mirabilis.Base.{
  ℕ, zero, suc, ◌+◌, ◌≤◌, ◌<◌, String, ◌≡◌, refl, sym, ap, ◌∙◌, ◌↔◌, ◌⊎◌, inl, inr, true, false,
  ◌||◌, Option, none, some, List, [], ◌∷◌, ◌++◌, map, Memᴰ, arith, is_some, StringMap, lookup, take,
  drop, length, length-drop, Option-cases,
}
use mirabilis.Pipeline.Types.{Command, name, Error}
use mirabilis.Pipeline.Build.Order.{IsOrderedAfter, IsOrdered, IsOrdered-after, fresh}
use mirabilis.Pipeline.Run.{
  failed_dep, collect_auto_batch, BatchResult, result_of, out_errs, Schedule, Progress, start,
  Outcome, advance, finish, skip_blocked, run_single, run_auto_batch, run_from, run_batch, run,
  keep_first,
}
use mirabilis.Pipeline.Run.Arrival.{out_states-arrive, keep_first-batch}
use mirabilis.Pipeline.Run.Batch.{
  Starts, results-IsDistinct, collect-ordered, collect-take, batch-judged,
}
use mirabilis.Pipeline.Run.Judge.{
  verdict, some_failed, failed_dep-some, judge_all, fails, Same, judge_all-Same, judge_all-append,
  fails-append, fails-Same,
}

-- Results are received as they were sent, a range visits the entries of the map, and the context
-- does not end while the pipeline runs.
pub record IsFair (s : Schedule) : Type 0 where
  pub received : (rs : List BatchResult) (r : BatchResult) → Memᴰ r (s.arrive rs) ↔ Memᴰ r rs
  pub ranged :
      (m : StringMap (Option Error)) (e : String × Option Error) → Memᴰ e (s.range m) ↔ Memᴰ e m
  pub alive : (i : ℕ) → s.ctx i ≡ none

-- What one round of the loop has done with the `n` steps that it took.
abbrev Advances : Progress → List Command → Progress × ℕ → Type 0
Advances p cs (p', n) =
    (0 < n)
    × Same p'.states (judge_all (take n cs) p.states)
    × (is_some p'.first_err ≡ (is_some p.first_err || fails (take n cs) p.states))

single-Advances :
    (c : Command) (cs : List Command) (p : Progress)
    → is_some (failed_dep c.meta.deps p.states) ≡ false
    → Advances p (c ∷ cs) (run_single c p, 1)
unfolding run_single judge_all fails verdict keep_first
single-Advances c cs p free =
    let none_failed : some_failed c.meta.deps p.states ≡ false =
      sym (failed_dep-some c.meta.deps p.states) ∙ free in
    (omega arith, λ k. rw none_failed refl, ground arith)

blocked-Advances :
    (c : Command) (cs : List Command) (p : Progress) (dep : String)
    → failed_dep c.meta.deps p.states ≡ some dep
    → Advances p (c ∷ cs) (skip_blocked c dep p, 1)
unfolding skip_blocked judge_all fails verdict
blocked-Advances c cs p dep e =
    let blocked : some_failed c.meta.deps p.states ≡ true =
      sym (failed_dep-some c.meta.deps p.states) ∙ ap is_some e in
    (omega arith, λ k. rw blocked refl, ground arith)

batch-Advances :
    (s : Schedule) (cs : List Command) (p : Progress) (earlier : List String)
    → IsFair s
    → Starts cs
    → IsOrderedAfter earlier cs
    → 0 < length (collect_auto_batch [] p.states cs)
    → let batch = collect_auto_batch [] p.states cs in
      Advances p cs (run_auto_batch s batch p, length batch)
unfolding run_auto_batch
batch-Advances s cs p earlier fair go ordered pos =
    let batch = collect_auto_batch [] p.states cs in
    let results = map result_of batch in
    let judged = batch-judged p.states cs go in
    rw (collect-take [] p.states cs) (
      pos,
      λ k.
          out_states-arrive results (s.arrive results) p.states k
            (results-IsDistinct earlier batch (collect-ordered [] earlier p.states cs ordered))
            (fair.received results)
          ∙ ap (lookup k) (sym judged.0),
      keep_first-batch p.first_err results (s.arrive results)
            (s.range (out_errs (s.arrive results) [])) (fair.received results)
            (fair.ranged (out_errs (s.arrive results) []))
          ∙ ap (◌||◌ (is_some p.first_err)) (sym judged.1),
    )

run_batch-cases :
    (s : Schedule) (c : Command) (p : Progress) (batch : List Command)
    → (run_batch s c p batch ≡ (run_single c p, 1))
      ⊎ ((0 < length batch) × (run_batch s c p batch ≡ (run_auto_batch s batch p, length batch)))
unfolding run_batch
run_batch-cases s c p [] = inl refl
run_batch-cases s c p (b ∷ bs) = inr (omega arith, refl)

advance-cases :
    (s : Schedule) (c : Command) (cs : List Command) (p : Progress)
    → (is_some (failed_dep c.meta.deps p.states) ≡ false)
    → (advance s c cs p ≡ (run_single c p, 1))
      ⊎ (advance s c cs p ≡ run_batch s c p (collect_auto_batch [] p.states (c ∷ cs)))
unfolding advance
advance-cases s c cs p e = ground arith

advance-blocked :
    (s : Schedule) (c : Command) (cs : List Command) (p : Progress) (dep : String)
    → failed_dep c.meta.deps p.states ≡ some dep
    → advance s c cs p ≡ (skip_blocked c dep p, 1)
unfolding advance
advance-blocked s c cs p dep e = rw (e, advance)

advance-Advances :
    (s : Schedule) (c : Command) (cs : List Command) (p : Progress) (earlier : List String)
    → IsFair s
    → Starts (c ∷ cs)
    → IsOrderedAfter earlier (c ∷ cs)
    → Advances p (c ∷ cs) (advance s c cs p)
advance-Advances s c cs p earlier fair go ordered =
    elim (Option-cases (failed_dep c.meta.deps p.states)) [
      | inr (dep, e) ↦ rw (advance-blocked s c cs p dep e) (blocked-Advances c cs p dep e)
      | inl e ↦
          let free : is_some (failed_dep c.meta.deps p.states) ≡ false = rw e in
          elim (advance-cases s c cs p free) [
            | inl one ↦ rw one (single-Advances c cs p free)
            | inr many ↦
                rw many (elim (run_batch-cases s c p (collect_auto_batch [] p.states (c ∷ cs))) [
                  | inl one ↦ rw one (single-Advances c cs p free)
                  | inr (pos, batch) ↦
                      rw batch (batch-Advances s (c ∷ cs) p earlier fair go ordered pos)
                ])
          ]
    ]

take-drop {ℓ} : {A : Type ℓ} (n : ℕ) (xs : List A) → take n xs ++ drop n xs ≡ xs
take-drop zero xs = refl
take-drop (suc n) [] = refl
take-drop (suc n) (x ∷ xs) = ap (◌∷◌ x) (take-drop n xs)

drop-Starts : (n : ℕ) (cs : List Command) → Starts cs → Starts (drop n cs)
drop-Starts zero cs h = h
drop-Starts (suc n) [] h = tt
drop-Starts (suc n) (c ∷ cs) h = drop-Starts n cs h.1

drop-ordered :
    (n : ℕ) (earlier : List String) (cs : List Command)
    → IsOrderedAfter earlier cs
    → (later : List String) × IsOrderedAfter later (drop n cs)
drop-ordered zero earlier cs h = (earlier, h)
drop-ordered (suc n) earlier [] h = (earlier, tt)
drop-ordered (suc n) earlier (c ∷ cs) h = drop-ordered n (name c ∷ earlier) cs h.3

-- What a run has come to: it has gone through all the steps and has their verdicts.
abbrev pub Judges : Progress → List Command → Outcome → Type 0
Judges p cs o =
    (o.left ≡ [])
    × Same o.progress.states (judge_all cs p.states)
    × (is_some o.err ≡ (is_some p.first_err || fails cs p.states))

run_from-step :
    (fuel : ℕ) (s : Schedule) (i : ℕ) (c : Command) (cs : List Command) (p : Progress)
    → IsFair s
    → let r = advance s c cs p in
      run_from (suc fuel) s i (c ∷ cs) p ≡ run_from fuel s (i + r.1) (drop r.1 (c ∷ cs)) r.0
unfolding run_from
run_from-step fuel s i c cs p fair = rw (fair.alive i)

run_from-end :
    (fuel : ℕ) (s : Schedule) (i : ℕ) (p : Progress)
    → IsFair s
    → Judges p [] (run_from fuel s i [] p)
unfolding run_from finish judge_all fails
run_from-end zero s i p fair = rw (fair.alive i) (refl, λ k. refl, ground arith)
run_from-end (suc fuel) s i p fair = rw (fair.alive i) (refl, λ k. refl, ground arith)

pub run_from-Judges :
    (fuel : ℕ) (s : Schedule) (i : ℕ) (cs : List Command) (p : Progress) (earlier : List String)
    → IsFair s
    → Starts cs
    → IsOrderedAfter earlier cs
    → length cs ≤ fuel
    → Judges p cs (run_from fuel s i cs p)
run_from-Judges fuel s i [] p earlier fair go ordered enough = run_from-end fuel s i p fair
run_from-Judges zero s i (c ∷ cs) p earlier fair go ordered enough = absurd (omega arith)
run_from-Judges (suc fuel) s i (c ∷ cs) p earlier fair go ordered enough =
    let (p', n) = advance s c cs p in
    let all = c ∷ cs in
    let (pos, states, err) = advance-Advances s c cs p earlier fair go ordered in
    let (later, rest) = drop-ordered n earlier all ordered in
    let (left, final, failed) =
      run_from-Judges fuel s (i + n) (drop n all) p' later fair (drop-Starts n all go) rest
        (omega (arith, length-drop n all)) in
    let split : take n all ++ drop n all ≡ all = take-drop n all in
    rw (run_from-step fuel s i c cs p fair) (
      left,
      λ k.
          final k
          ∙ judge_all-Same (drop n all) p'.states (judge_all (take n all) p.states) states k
          ∙ ap (lookup k) (
              sym (judge_all-append (take n all) (drop n all) p.states)
              ∙ ap (λ x. judge_all x p.states) split),
      ground (
        arith,
        failed,
        err,
        fails-Same (drop n all) p'.states (judge_all (take n all) p.states) states,
        fails-append (take n all) (drop n all) p.states,
        ap (λ x. fails x p.states) split,
      ),
    )

-- A pipeline that `New` accepts, run for the first time under a context that does not end, goes
-- through all its steps, whatever the order in which the members of a batch come back. Its states
-- are those of judging each step in turn on the states before it, and it returns an error just
-- where a step fails.
pub run-Judges :
    (cs : List Command) (s : Schedule)
    → IsOrdered cs
    → Starts cs
    → IsFair s
    → Judges start cs (run s (fresh cs)).0
unfolding run
run-Judges cs s ordered go fair =
    run_from-Judges (length cs) s 0 cs start [] fair go (IsOrdered-after cs ordered) (omega arith)
