-- ===== src/Pipeline/Build.antt =====
-- `New` of internal/engine/pipeline/pipeline.go: the checks on names and dependencies.
pub mod Order
use mirabilis.Base.{String, false, List, [], ◌∷◌, map, if◌then◌else◌, contains, str_eq}
use mirabilis.Pipeline.Types.{
  empty_name, duplicate_step, unknown_dependency, dependency_cycle, Result, ok, err, ◌>>=◌, Command,
  name, Pipeline,
}

-- The first loop: no name is empty or given twice. `all` holds the names so far.
unfoldable pub check_names : List String → List Command → Result (List String)
check_names all [] = ok all
check_names all (c ∷ cs) =
    let rest = check_names (name c ∷ all) cs in
    if str_eq (name c) ""
    then err empty_name
    else if contains all (name c)
    then err (duplicate_step (name c))
    else rest

-- The inner loop over `m.Deps`.
unfoldable pub check_deps : List String → List String → String → List String → Result (Unit {0})
check_deps all earlier step [] = ok tt
check_deps all earlier step (d ∷ ds) =
    let rest = check_deps all earlier step ds in
    if contains all d
    then (if contains earlier d then rest else err (dependency_cycle step d))
    else err (unknown_dependency step d)

-- The second loop: each dependency is the name of an earlier step.
unfoldable pub check_order : List String → List String → List Command → Result (Unit {0})
check_order all earlier [] = ok tt
check_order all earlier (c ∷ cs) =
    let rest = check_order all (name c ∷ earlier) cs in
    check_deps all earlier (name c) c.meta.deps >>= λ _. rest

unfoldable pub new : List Command → Result Pipeline
unfolding check_names check_order
new cs = do
  all ← check_names [] cs
  _ ← check_order all [] cs
  ok (record { steps = cs; started = false; waiting = ""; resume = false })
