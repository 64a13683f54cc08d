-- ===== src/Steps/Forms/Persisted.antt =====
-- After a run of the form step its check is satisfied: internal/engine/steps/forms.go.
use mirabilis.Base.{
  true, some, is_some, List, [], ◌∷◌, map, ◌≡◌, refl, ap, ◌∙◌, sym, subst, arith, All, Bool-cases,
  Option-cases, inl, inr, ◌⊎◌, Memᴰ,
}
use mirabilis.Text.{Text, text_eq}
use mirabilis.Text.Csv.{IsWord}
use mirabilis.Config.Env.{Read, content, missing, unreadable, env_read}
use mirabilis.Steps.Forms.{
  Files, Group, stacks, plugins, skills, env_key, group_key, options, dotenv_read, persisted, save,
  groups, all_persisted, config_check, Asked, load, load_groups, Answer, chosen, other_value,
  cancelled, ended, completed, choice_of, save_choices, await, finish, config_run,
}
use mirabilis.Steps.Forms.Choices.{
  env_key-IsKey, written-words, env_read-save, env_read_saved, options-save,
}

persisted-lem : (g : Group) (f : Files) → persisted g f ≡ is_some (env_read (env_key g) f.env)
unfolding persisted
persisted-lem stacks f = refl
persisted-lem plugins f = ap is_some (same f.env)
  where
    same : (env : Read) → dotenv_read (env_key plugins) env ≡ env_read (env_key plugins) env
    same (content s) = refl
    same missing = refl
    same unreadable = refl
persisted-lem skills f = refl

save-persisted :
    (g : Group) (choice : List Text) (f : Files)
    → (save g choice f).1 ≡ true
    → All IsWord choice
    → All IsWord (options plugins f)
    → persisted g (save g choice f).0 ≡ true
save-persisted g choice f s h o =
    persisted-lem g (save g choice f).0
    ∙ ap is_some (env_read_saved g choice f s (written-words g choice f h o))

save-keeps :
    (g j : Group) (choice : List Text) (f : Files)
    → (save g choice f).1 ≡ true
    → All IsWord choice
    → All IsWord (options plugins f)
    → persisted j f ≡ true
    → persisted j (save g choice f).0 ≡ true
save-keeps g j choice f s h o p =
    let law =
      env_read-save g choice f (env_key j) (env_key-IsKey j) s (written-words g choice f h o) in
    ground (arith, law, persisted-lem j (save g choice f).0, persisted-lem j f, p)

-- Is the group among those that are asked for?
abbrev IsAsked : Group → List Asked → Type 0
IsAsked j asked = Memᴰ j (map (λ a. a.group) asked)

choice_of-words :
    (k : Text) (cs : List (Text × List Text)) (choice : List Text)
    → All (λ p. All IsWord p.1) cs
    → choice_of k cs ≡ some choice
    → All IsWord choice
unfolding choice_of
choice_of-words k [] choice h e = cc
choice_of-words k ((j, c) ∷ cs) choice h e = elim (Bool-cases (text_eq j k)) [
  | inl f ↦ subst (All IsWord) (ground (arith, e, f)) h.0
  | inr f ↦ choice_of-words k cs choice h.1 (ground (arith, e, f))
]

-- A group is persisted, or among some, also when the first of them is saved.
saved_or_later :
    (g j : Group) (choice : List Text) (f : Files) (gs : List Group)
    → (save g choice f).1 ≡ true
    → All IsWord choice
    → All IsWord (options plugins f)
    → (persisted j f ≡ true) ⊎ Memᴰ j (g ∷ gs)
    → (persisted j (save g choice f).0 ≡ true) ⊎ Memᴰ j gs
saved_or_later g j choice f gs s h o (inl p) = inl (save-keeps g j choice f s h o p)
saved_or_later g j choice f gs s h o (inr (Memᴰ.head e)) =
    inl (
      subst (λ k. persisted k (save g choice f).0 ≡ true) (sym e) (save-persisted g choice f s h o))
saved_or_later g j choice f gs s h o (inr (Memᴰ.tail m)) = inr m

save_choices-persisted :
    (j : Group) (asked : List Asked) (cs : List (Text × List Text)) (f : Files)
    → All (λ p. All IsWord p.1) cs
    → All IsWord (options plugins f)
    → (save_choices asked cs f).0 ≡ completed
    → (persisted j f ≡ true) ⊎ IsAsked j asked
    → persisted j (save_choices asked cs f).1 ≡ true
unfolding save_choices
save_choices-persisted j [] cs f w o e (inl p) = p
save_choices-persisted j [] cs f w o e (inr m) = elim m [ ]
save_choices-persisted j (a ∷ asked) cs f w o e h =
    elim (Option-cases (choice_of (group_key a.group) cs)) [
      | inl n ↦ ground (arith, e, n)
      | inr (choice, n) ↦ elim (Bool-cases (save a.group choice f).1) [
        | inl s ↦
            let g = (save a.group choice f).0 in
            let v = choice_of-words (group_key a.group) cs choice w n in
            let same : save_choices (a ∷ asked) cs f ≡ save_choices asked cs g =
              rw (n, s, save_choices) in
            let p = subst (All IsWord) (sym (options-save a.group plugins choice f)) o in
            rw same (
              save_choices-persisted j asked cs g w p (rw same at e)
                (saved_or_later a.group j choice f (map (λ b. b.group) asked) s v o h))
        | inr s ↦ ground (arith, e, n, s)
      ]
    ]

options-cases :
    (g : Group) (f : Files)
    → (options g f ≡ []) ⊎ ((x : Text) × ((xs : List Text) × (options g f ≡ x ∷ xs)))
options-cases g f = cases (options g f)
  where
    cases : (vs : List Text) → (vs ≡ []) ⊎ ((x : Text) × ((xs : List Text) × (vs ≡ x ∷ xs)))
    cases [] = inl refl
    cases (v ∷ vs) = inr (v, (vs, refl))

asked_first :
    (g j : Group) (f : Files) (gs : List Group) (asked : List Asked) (after : Files)
    → (persisted j f ≡ true) ⊎ Memᴰ j (g ∷ gs)
    → ((persisted j f ≡ true) ⊎ Memᴰ j gs → (persisted j after ≡ true) ⊎ IsAsked j asked)
    → (persisted j after ≡ true) ⊎ Memᴰ j (g ∷ map (λ a. a.group) asked)
asked_first g j f gs asked after (inl p) k = later (k (inl p))
  where
    later :
        (persisted j after ≡ true) ⊎ IsAsked j asked
        → (persisted j after ≡ true) ⊎ Memᴰ j (g ∷ map (λ a. a.group) asked)
    later (inl p) = inl p
    later (inr m) = inr (Memᴰ.tail m)
asked_first g j f gs asked after (inr (Memᴰ.head e)) k = inr (Memᴰ.head e)
asked_first g j f gs asked after (inr (Memᴰ.tail m)) k = elim (k (inr m)) [
  | inl p ↦ inl p
  | inr n ↦ inr (Memᴰ.tail n)
]

-- After the first loop, a group that was persisted still is, and one of the list is persisted or asked
-- for.
load_groups-persisted :
    (j : Group) (gs : List Group) (f : Files)
    → All IsWord (options plugins f)
    → (load_groups gs f).saves_ok ≡ true
    → (persisted j f ≡ true) ⊎ Memᴰ j gs
    → (persisted j (load_groups gs f).files ≡ true) ⊎ IsAsked j (load_groups gs f).asked
unfolding load_groups
load_groups-persisted j [] f o e (inl p) = inl p
load_groups-persisted j [] f o e (inr m) = elim m [ ]
load_groups-persisted j (g ∷ gs) f o e h = elim (options-cases g f) [
  | inl n ↦ elim (Bool-cases (save g [] f).1) [
    | inl s ↦
        let same : load_groups (g ∷ gs) f ≡ load_groups gs (save g [] f).0 =
          rw (n, s, load_groups) in
        let p = subst (All IsWord) (sym (options-save g plugins [] f)) o in
        rw same (
          load_groups-persisted j gs (save g [] f).0 p (rw same at e)
            (saved_or_later g j [] f gs s tt o h))
    | inr s ↦ ground (arith, e, n, s)
  ]
  | inr (x, (xs, n)) ↦
      let a : Asked = record { group = g; catalog = load g f } in
      let rest = load_groups gs f in
      let same : load_groups (g ∷ gs) f ≡ record rest { asked = a ∷ rest.asked } =
        ground (arith, n) in
      rw same (
        asked_first g j f gs rest.asked rest.files h
          (load_groups-persisted j gs f o (rw same at e)))
]

load_groups-options :
    (gs : List Group) (f : Files) → options plugins (load_groups gs f).files ≡ options plugins f
unfolding load_groups
load_groups-options [] f = refl
load_groups-options (g ∷ gs) f = ground (
  arith,
  load_groups-options gs f,
  load_groups-options gs (save g [] f).0,
  options-save g plugins [] f,
)

unfoldable pub IsWords : Answer → Type 0
IsWords (chosen cs) = All (λ p. All IsWord p.1) cs
IsWords other_value = Unit
IsWords cancelled = Unit
IsWords ended = Unit

finish-persisted :
    (j : Group) (answer : Answer) (asked : List Asked) (f : Files)
    → IsWords answer
    → All IsWord (options plugins f)
    → (finish answer asked f).0 ≡ completed
    → (persisted j f ≡ true) ⊎ IsAsked j asked
    → persisted j (finish answer asked f).1 ≡ true
unfolding finish await IsWords
finish-persisted j answer [] f w o e (inl p) = p
finish-persisted j answer [] f w o e (inr m) = elim m [ ]
finish-persisted j (chosen cs) (a ∷ asked) f w o e h =
    save_choices-persisted j (a ∷ asked) cs f w o e h
finish-persisted j other_value (a ∷ asked) f w o e h = cc
finish-persisted j cancelled (a ∷ asked) f w o e h = cc
finish-persisted j ended (a ∷ asked) f w o e h = cc

config_run-persisted :
    (j : Group) (answer : Answer) (f : Files)
    → Memᴰ j groups
    → IsWords answer
    → All IsWord (options plugins f)
    → (config_run answer f).0.0 ≡ completed
    → persisted j (config_run answer f).0.1 ≡ true
unfolding config_run
config_run-persisted j answer f m w o e =
    let l = load_groups groups f in
    elim (Bool-cases l.saves_ok) [
      | inl s ↦
          let same : (config_run answer f).0 ≡ finish answer l.asked l.files = rw (s, config_run) in
          let p = subst (All IsWord) (sym (load_groups-options groups f)) o in
          rw same (
            finish-persisted j answer l.asked l.files w p (rw same at e)
              (load_groups-persisted j groups f o s (inr m)))
      | inr s ↦ ground (arith, e, s)
    ]

-- A run of the form step that completes leaves every group persisted, so that the check is satisfied
-- and the form is not shown again. (The words of the choices and of the catalog of plugins are not
-- empty and hold neither commas nor spaces.)
pub config_run-check :
    (answer : Answer) (f : Files)
    → IsWords answer
    → All IsWord (options plugins f)
    → (config_run answer f).0.0 ≡ completed
    → config_check (config_run answer f).0.1 ≡ true
unfolding config_check all_persisted
config_run-check answer f w o e =
    let a = config_run-persisted stacks answer f (Memᴰ.head refl) w o e in
    let b = config_run-persisted plugins answer f (Memᴰ.tail (Memᴰ.head refl)) w o e in
    let c = config_run-persisted skills answer f (Memᴰ.tail (Memᴰ.tail (Memᴰ.head refl))) w o e in
    rw a (rw b (rw c))
