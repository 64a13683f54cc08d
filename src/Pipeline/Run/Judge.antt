-- ===== src/Pipeline/Run/Judge.antt =====
-- A reference for `Run`: each step is judged in turn on the states of those before it.
use mirabilis.Base.{
  String, ◌≡◌, refl, Bool, false, ◌||◌, some, List, [], ◌∷◌, ◌++◌, Memᴰ, arith, if◌then◌else◌,
  is_some, StringMap, lookup, insert, lookup-insert,
}
use mirabilis.Pipeline.Types.{StepState, state_skipped, Command, name}
use mirabilis.Pipeline.Step.{run_step}
use mirabilis.Pipeline.Run.{failed_dep, is_failed}

-- Has one of the dependencies failed?
unfoldable pub some_failed : List String → StringMap StepState → Bool
some_failed [] states = false
some_failed (d ∷ ds) states = is_failed (lookup d states) || some_failed ds states

pub failed_dep-some :
    (ds : List String) (s : StringMap StepState) → is_some (failed_dep ds s) ≡ some_failed ds s
unfolding failed_dep some_failed
failed_dep-some [] s = refl
failed_dep-some (d ∷ ds) s = ground (arith, failed_dep-some ds s)

-- A step with a failed dependency is skipped, any other gets the verdict of its run.
unfoldable pub verdict : StringMap StepState → Command → StepState
verdict states c =
    if some_failed c.meta.deps states then state_skipped else (run_step c.meta c.answers).state

unfoldable pub judge_all : List Command → StringMap StepState → StringMap StepState
judge_all [] states = states
judge_all (c ∷ cs) states = judge_all cs (insert (name c) (verdict states c) states)

-- Does a step fail?
unfoldable pub fails : List Command → StringMap StepState → Bool
fails [] states = false
fails (c ∷ cs) states =
    is_failed (some (verdict states c)) || fails cs (insert (name c) (verdict states c) states)

-- Two maps that answer alike.
abbrev pub Same : StringMap StepState → StringMap StepState → Type 0
Same s t = (k : String) → lookup k s ≡ lookup k t

pub some_failed-Same :
    (ds : List String) (s t : StringMap StepState)
    → ((d : String) → Memᴰ d ds → lookup d s ≡ lookup d t)
    → some_failed ds s ≡ some_failed ds t
unfolding some_failed
some_failed-Same [] s t h = refl
some_failed-Same (d ∷ ds) s t h =
    ground (arith, h d (Memᴰ.head refl), some_failed-Same ds s t (λ x m. h x (Memᴰ.tail m)))

verdict-Same : (c : Command) (s t : StringMap StepState) → Same s t → verdict s c ≡ verdict t c
unfolding verdict
verdict-Same c s t h = rw (some_failed-Same c.meta.deps s t (λ d _. h d))

insert-Same :
    (k : String) (v : StepState) (s t : StringMap StepState)
    → Same s t
    → Same (insert k v s) (insert k v t)
insert-Same k v s t h j = rw (lookup-insert k j v s, lookup-insert k j v t, h j)

pub judge_all-Same :
    (cs : List Command) (s t : StringMap StepState)
    → Same s t
    → Same (judge_all cs s) (judge_all cs t)
unfolding judge_all
judge_all-Same [] s t h = h
judge_all-Same (c ∷ cs) s t h =
    judge_all-Same cs _ _ (rw (verdict-Same c s t h) (insert-Same (name c) (verdict t c) s t h))

pub fails-Same :
    (cs : List Command) (s t : StringMap StepState) → Same s t → fails cs s ≡ fails cs t
unfolding fails
fails-Same [] s t h = refl
fails-Same (c ∷ cs) s t h = rw (
  verdict-Same c s t h,
  fails-Same cs (insert (name c) (verdict t c) s) (insert (name c) (verdict t c) t)
      (insert-Same (name c) (verdict t c) s t h),
)

pub judge_all-append :
    (xs ys : List Command) (s : StringMap StepState)
    → judge_all (xs ++ ys) s ≡ judge_all ys (judge_all xs s)
unfolding judge_all
judge_all-append [] ys s = refl
judge_all-append (x ∷ xs) ys s = judge_all-append xs ys (insert (name x) (verdict s x) s)

pub fails-append :
    (xs ys : List Command) (s : StringMap StepState)
    → fails (xs ++ ys) s ≡ (fails xs s || fails ys (judge_all xs s))
unfolding judge_all fails
fails-append [] ys s = refl
fails-append (x ∷ xs) ys s = ground (arith, fails-append xs ys (insert (name x) (verdict s x) s))
