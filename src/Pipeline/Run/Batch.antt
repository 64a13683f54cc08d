-- ===== src/Pipeline/Run/Batch.antt =====
-- A batch of parallel steps leaves the states that its steps have one after another.
use mathlib.Core.List.Memᴰ
use mirabilis.Base.{
  ◌⊎◌, String, ◌≡◌, refl, ap, sym, ◌∙◌, false, none, List, [], ◌∷◌, map, Memᴰ, arith, is_some,
  contains, contains-cons, StringMap, lookup, insert, lookup-insert, str_eq, eq_iff, Bool-cases,
  inl, inr, All, take, length,
}
use mirabilis.Pipeline.Types.{StepState, Command, name}
use mirabilis.Pipeline.Build.Order.{IsOrderedAfter}
use mirabilis.Pipeline.Step.{run_step}
use mirabilis.Pipeline.Run.{
  failed_dep, depends_on, collect_auto_batch, batch_step, result_of, out_states,
}
use mirabilis.Pipeline.Run.Arrival.{any_failed, steps, IsDistinct}
use mirabilis.Pipeline.Run.Judge.{
  verdict, judge_all, fails, some_failed, some_failed-Same, failed_dep-some,
}

-- No goroutine of the batch starts under a context that has ended.
abbrev pub Starts : List Command → Type 0
Starts = All (λ c. c.answers.ctx_start ≡ none)

depends_on-mem :
    (names ds : List String) (d : String)
    → depends_on names ds ≡ false
    → Memᴰ d ds
    → contains names d ≡ false
unfolding depends_on
depends_on-mem names [] d h m = elim m [ ]
depends_on-mem names (x ∷ ds) d h (Memᴰ.head e) = ground arith
depends_on-mem names (x ∷ ds) d h (Memᴰ.tail m) = depends_on-mem names ds d (ground arith) m

-- `t` differs from `s` at most at the names of the batch so far.
abbrev Apart : List String → StringMap StepState → StringMap StepState → Type 0
Apart names s t = (k : String) → contains names k ≡ false → lookup k s ≡ lookup k t

-- A member of the batch depends on no other, so it is judged by its own run.
member-verdict :
    (names : List String) (s t : StringMap StepState) (c : Command)
    → Apart names s t
    → is_some (failed_dep c.meta.deps s) ≡ false
    → depends_on names c.meta.deps ≡ false
    → verdict t c ≡ (run_step c.meta c.answers).state
unfolding verdict
member-verdict names s t c apart free out =
    let same =
      some_failed-Same c.meta.deps s t
        (λ d m. apart d (depends_on-mem names c.meta.deps d out m)) in
    let none_failed : some_failed c.meta.deps s ≡ false =
      sym (failed_dep-some c.meta.deps s) ∙ free in
    rw (← same) (rw none_failed)

Apart-insert :
    (names : List String) (s t : StringMap StepState) (n : String) (v : StepState)
    → Apart names s t
    → Apart (n ∷ names) s (insert n v t)
Apart-insert names s t n v apart k h =
    ground (arith, lookup-insert n k v t, contains-cons n k names, apart k)

collect-cases :
    (names : List String) (s : StringMap StepState) (c : Command) (cs : List Command)
    → (collect_auto_batch names s (c ∷ cs) ≡ [])
      ⊎ ((collect_auto_batch names s (c ∷ cs) ≡ c ∷ collect_auto_batch (name c ∷ names) s cs)
          × (is_some (failed_dep c.meta.deps s) ≡ false)
          × (depends_on names c.meta.deps ≡ false))
unfolding collect_auto_batch
collect-cases names s c cs = ground arith

batch_step-started :
    (c : Command) → c.answers.ctx_start ≡ none → batch_step c ≡ run_step c.meta c.answers
unfolding batch_step
batch_step-started c e = ground arith

judge_batch :
    (names : List String) (s t : StringMap StepState) (cs : List Command)
    → Starts cs
    → Apart names s t
    → let batch = collect_auto_batch names s cs in
      (judge_all batch t ≡ out_states (map result_of batch) t)
      × (fails batch t ≡ any_failed (map result_of batch))
unfolding judge_all fails out_states
judge_batch names s t [] go apart = unfold collect_auto_batch in (refl, refl)
judge_batch names s t (c ∷ cs) go apart = elim (collect-cases names s c cs) [
  | inl e ↦ rw e (refl, refl)
  | inr (e, free, out) ↦ rw e (
      ground (
        arith,
        member-verdict names s t c apart free out,
        batch_step-started c go.0,
        judge_batch (name c ∷ names) s (insert (name c) (run_step c.meta c.answers).state t) cs go.1
            (Apart-insert names s t (name c) (run_step c.meta c.answers).state apart),
      ))
]

-- The steps of a list in order have distinct names, and so have those of a batch.
pub ordered-apart :
    (earlier : List String) (cs : List Command) (n : String)
    → IsOrderedAfter earlier cs
    → Memᴰ n earlier
    → contains (map name cs) n ≡ false
unfolding contains
ordered-apart earlier [] n o m = refl
ordered-apart earlier (c ∷ cs) n o m = elim (Bool-cases (str_eq (name c) n)) [
  | inl e ↦ absurd (o.1 (Memᴰ.cast ((eq_iff (name c) n).0 e) m))
  | inr e ↦ rw e (ordered-apart (name c ∷ earlier) cs n o.3 (Memᴰ.tail m))
]

steps-results : (cs : List Command) → steps (map result_of cs) ≡ map name cs
steps-results [] = refl
steps-results (c ∷ cs) = ap (◌∷◌ (name c)) (steps-results cs)

pub results-IsDistinct :
    (earlier : List String) (cs : List Command)
    → IsOrderedAfter earlier cs
    → IsDistinct (map result_of cs)
results-IsDistinct earlier [] o = tt
results-IsDistinct earlier (c ∷ cs) o = (
  rw (steps-results cs) (ordered-apart (name c ∷ earlier) cs (name c) o.3 (Memᴰ.head refl)),
  results-IsDistinct (name c ∷ earlier) cs o.3,
)

pub collect-ordered :
    (names earlier : List String) (s : StringMap StepState) (cs : List Command)
    → IsOrderedAfter earlier cs
    → IsOrderedAfter earlier (collect_auto_batch names s cs)
collect-ordered names earlier s [] o = unfold collect_auto_batch in tt
collect-ordered names earlier s (c ∷ cs) o = elim (collect-cases names s c cs) [
  | inl e ↦ rw e tt
  | inr (e, _, _) ↦
      rw e (o.0, o.1, o.2, collect-ordered (name c ∷ names) (name c ∷ earlier) s cs o.3)
]

pub collect-take :
    (names : List String) (s : StringMap StepState) (cs : List Command)
    → take (length (collect_auto_batch names s cs)) cs ≡ collect_auto_batch names s cs
collect-take names s [] = unfold collect_auto_batch in refl
collect-take names s (c ∷ cs) = elim (collect-cases names s c cs) [
  | inl e ↦ rw e
  | inr (e, _, _) ↦ rw e (ap (◌∷◌ c) (collect-take (name c ∷ names) s cs))
]

pub batch-judged :
    (s : StringMap StepState) (cs : List Command)
    → Starts cs
    → let batch = collect_auto_batch [] s cs in
      (judge_all batch s ≡ out_states (map result_of batch) s)
      × (fails batch s ≡ any_failed (map result_of batch))
batch-judged s cs go = judge_batch [] s s cs go (λ k _. refl)
