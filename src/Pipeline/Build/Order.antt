-- ===== src/Pipeline/Build/Order.antt =====
-- What `New` guarantees: the steps stand in an order in which they can run.
use mirabilis.Base.{
  String, ◌≡◌, refl, ◌≢◌, ◌↔◌, ◌⊎◌, inl, inr, false, List, [], ◌∷◌, ◌++◌, map, Memᴰ, arith,
  contains, contains-mem, mem-contains, eq_iff, Bool-cases, ap, subst,
}
use mirabilis.Pipeline.Types.{Result, ok, err, Error, Command, name, Pipeline}
use mirabilis.Pipeline.Build.{check_names, check_deps, check_order, new}

-- Names are given and new, and each dependency is among the names before.
abbrev pub IsOrderedAfter : List String → List Command → Type 0
IsOrderedAfter earlier [] = Unit
IsOrderedAfter earlier (c ∷ cs) =
    (name c ≢ "")
    × (¬ Memᴰ (name c) earlier)
    × ((d : String) → Memᴰ d c.meta.deps → Memᴰ d earlier)
    × IsOrderedAfter (name c ∷ earlier) cs

-- The names that stand before the rest of a list, the last one first.
abbrev pub before : List String → List Command → List String
before earlier [] = earlier
before earlier (c ∷ cs) = before (name c ∷ earlier) cs

check_deps-mem :
    (all earlier : List String) (step : String) (ds : List String) (u : Unit {0})
    → check_deps all earlier step ds ≡ ok u
    → (d : String) → Memᴰ d ds
    → Memᴰ d earlier
unfolding check_deps
check_deps-mem all earlier step [] u h d m = elim m [ ]
check_deps-mem all earlier step (x ∷ ds) u h d (Memᴰ.head e) = contains-mem earlier d (ground arith)
check_deps-mem all earlier step (x ∷ ds) u h d (Memᴰ.tail m) =
    check_deps-mem all earlier step ds u (ground arith) d m

Result-cases {ℓ} :
    {A : Type ℓ} (r : Result A) → ((a : A) × (r ≡ ok a)) ⊎ ((e : Error) × (r ≡ err e))
Result-cases (ok a) = inl (a, refl)
Result-cases (err e) = inr (e, refl)

sound :
    (all earlier : List String) (cs : List Command) (u : Unit {0}) (names : List String)
    → check_names earlier cs ≡ ok names
    → check_order all earlier cs ≡ ok u
    → IsOrderedAfter earlier cs
unfolding check_names check_order
sound all earlier [] u names h k = tt
sound all earlier (c ∷ cs) u names h k =
    elim (Result-cases (check_deps all earlier (name c) c.meta.deps)) [
      | inl (v, e) ↦ (
        ground (arith, eq_iff (name c) ""),
        (λ m. ground (arith, mem-contains earlier (name c) m)),
        check_deps-mem all earlier (name c) c.meta.deps v e,
        sound all (name c ∷ earlier) cs u names (ground arith) (ground arith),
      )
      | inr (x, e) ↦ absurd (ground arith)
    ]

mem-before_acc :
    (acc : List String) (cs : List Command) (d : String) → Memᴰ d acc → Memᴰ d (before acc cs)
mem-before_acc acc [] d m = m
mem-before_acc acc (c ∷ cs) d m = mem-before_acc (name c ∷ acc) cs d (Memᴰ.tail m)

mem-before :
    (acc : List String) (cs : List Command) (d : String)
    → Memᴰ d (before acc cs)
    → Memᴰ d acc ⊎ Memᴰ d (map name cs)
mem-before acc [] d m = inl m
mem-before acc (c ∷ cs) d m = elim (mem-before (name c ∷ acc) cs d m) [
  | inl (Memᴰ.head e) ↦ inr (Memᴰ.head e)
  | inl (Memᴰ.tail t) ↦ inl t
  | inr t ↦ inr (Memᴰ.tail t)
]

mem-before_names :
    (acc : List String) (cs : List Command) (d : String)
    → Memᴰ d (map name cs)
    → Memᴰ d (before acc cs)
mem-before_names acc [] d m = elim m [ ]
mem-before_names acc (c ∷ cs) d (Memᴰ.head e) = mem-before_acc (name c ∷ acc) cs d (Memᴰ.head e)
mem-before_names acc (c ∷ cs) d (Memᴰ.tail t) = mem-before_names (name c ∷ acc) cs d t

check_names_complete :
    (earlier : List String) (cs : List Command)
    → IsOrderedAfter earlier cs
    → check_names earlier cs ≡ ok (before earlier cs)
unfolding check_names
check_names_complete earlier [] h = refl
check_names_complete earlier (c ∷ cs) h = elim (Bool-cases (contains earlier (name c))) [
  | inl e ↦ absurd (h.1 (contains-mem earlier (name c) e))
  | inr e ↦ ground (arith, eq_iff (name c) "", check_names_complete (name c ∷ earlier) cs h.3)
]

check_deps_complete :
    (all earlier : List String) (step : String) (ds : List String)
    → ((d : String) → Memᴰ d earlier → Memᴰ d all)
    → ((d : String) → Memᴰ d ds → Memᴰ d earlier)
    → check_deps all earlier step ds ≡ ok tt
unfolding check_deps
check_deps_complete all earlier step [] sub h = refl
check_deps_complete all earlier step (d ∷ ds) sub h =
    rw
      (
        mem-contains all d (sub d (h d (Memᴰ.head refl))),
        mem-contains earlier d (h d (Memᴰ.head refl)),
      )
      (check_deps_complete all earlier step ds sub (λ x m. h x (Memᴰ.tail m)))

check_order_complete :
    (all earlier : List String) (cs : List Command)
    → ((d : String) → Memᴰ d (before earlier cs) → Memᴰ d all)
    → IsOrderedAfter earlier cs
    → check_order all earlier cs ≡ ok tt
unfolding check_order
check_order_complete all earlier [] sub h = refl
check_order_complete all earlier (c ∷ cs) sub h = ground (
  arith,
  check_deps_complete all earlier (name c) c.meta.deps
      (λ d m. sub d (mem-before_acc (name c ∷ earlier) cs d (Memᴰ.tail m))) h.2,
  check_order_complete all (name c ∷ earlier) cs sub h.3,
)

-- What the loop checks, read at one place of the list.
abbrev pub Fits : List String → Command → Type 0
Fits earlier c =
    (name c ≢ "") × (¬ Memᴰ (name c) earlier) × ((d : String) → Memᴰ d c.meta.deps → Memᴰ d earlier)

after-split :
    (acc : List String) (pre post : List Command) (c : Command)
    → IsOrderedAfter acc (pre ++ c ∷ post)
    → Fits (before acc pre) c
after-split acc [] post c h = (h.0, h.1, h.2)
after-split acc (x ∷ pre) post c h = after-split (name x ∷ acc) pre post c h.3

split-after :
    (acc : List String) (cs : List Command)
    → ((pre post : List Command) (c : Command) → cs ≡ pre ++ c ∷ post → Fits (before acc pre) c)
    → IsOrderedAfter acc cs
split-after acc [] h = tt
split-after acc (c ∷ cs) h =
    let (given, fresh, known) = h [] cs c refl in
    (
      given,
      fresh,
      known,
      split-after (name c ∷ acc) cs (λ pre post x e. h (c ∷ pre) post x (ap (◌∷◌ c) e)),
    )

Fits-before : (pre : List Command) (c : Command) → Fits (before [] pre) c ↔ Fits (map name pre) c
Fits-before pre c = (
  λ h. (
    h.0,
    λ m. h.1 (mem-before_names [] pre (name c) m),
    λ d m. elim (mem-before [] pre d (h.2 d m)) [ inl n ↦ elim n [ ] | inr n ↦ n ],
  ),
  λ h. (
    h.0,
    λ m. elim (mem-before [] pre (name c) m) [ inl n ↦ elim n [ ] | inr n ↦ h.1 n ],
    λ d m. mem-before_names [] pre d (h.2 d m),
  ),
)

-- Wherever the list is split, the step there has a name, which no earlier step has, and each of
-- its dependencies is the name of an earlier step.
abbrev pub IsOrdered : List Command → Type 0
IsOrdered cs =
    (pre post : List Command) (c : Command) → cs ≡ pre ++ c ∷ post → Fits (map name pre) c

pub IsOrdered-after : (cs : List Command) → IsOrdered cs → IsOrderedAfter [] cs
IsOrdered-after cs h = split-after [] cs (λ pre post c e. (Fits-before pre c).1 (h pre post c e))

-- A pipeline that has not been run.
abbrev pub fresh : List Command → Pipeline
fresh cs = record { steps = cs; started = false; waiting = ""; resume = false }

-- `New` makes the pipeline, with exactly the given steps and not yet started, just when each step
-- has a name, no name is given twice and every dependency names an earlier step.
pub new-ok_iff : (cs : List Command) → (new cs ≡ ok (fresh cs)) ↔ IsOrdered cs
unfolding new
new-ok_iff cs = (forward, back)
  where
    forward : new cs ≡ ok (fresh cs) → IsOrdered cs
    forward h pre post c e = elim (Result-cases (check_names [] cs)) [
      | inl (all, p) ↦ elim (Result-cases (check_order all [] cs)) [
        | inl (u, q) ↦
            (Fits-before pre c).0
              (after-split [] pre post c (subst (IsOrderedAfter []) e (sound all [] cs u all p q)))
        | inr (x, q) ↦ absurd (ground arith)
      ]
      | inr (x, p) ↦ absurd (ground arith)
    ]

    back : IsOrdered cs → new cs ≡ ok (fresh cs)
    back h =
        let after = IsOrdered-after cs h in
        rw (check_names_complete [] cs after)
          (rw (check_order_complete (before [] cs) [] cs (λ d m. m) after))

-- And `New` has no other success: what it returns is that pipeline.
pub new-fresh : (cs : List Command) (p : Pipeline) → new cs ≡ ok p → p ≡ fresh cs
unfolding new
new-fresh cs p h = elim (Result-cases (check_names [] cs)) [
  | inl (all, e) ↦ ground (arith)
  | inr (x, e) ↦ ground (arith)
]
