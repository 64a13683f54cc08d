-- ===== src/Steps/Forms/Choices.antt =====
-- What is chosen is what the next form shows: internal/engine/steps/forms.go.
use mirabilis.Base.{
  true, not, ◌&&◌, some, List, [], ◌∷◌, if◌then◌else◌, ◌≡◌, refl, ap, ◌∙◌, sym, subst, arith, All,
  Bool-cases, inl, inr,
}
use mirabilis.Text.{Text, text_eq, trim_space, trim_left, trim_right}
use mirabilis.Text.Lines.{IsLine, text_eq_iff}
use mirabilis.Text.Fields.{contains_text}
use mirabilis.Text.Trim.{trim_space_self}
use mirabilis.Text.Csv.{
  split_csv, split_commas, trimmed_pieces, join_commas, IsWord, split_csv-join,
  join_commas-no_space, no_space-IsLine,
}
use mirabilis.Config.Env.{Read, env_read}
use mirabilis.Config.Env.Lines.{IsKey}
use mirabilis.Config.Env.Laws.{env_read-env_write}
use mirabilis.Steps.Forms.{
  Files, Group, stacks, plugins, skills, env_key, options, subtract, or_blank,
  read_plugins_disabled, selected, saved_value, save,
}

pub env_key-IsKey : (g : Group) → IsKey (env_key g)
env_key-IsKey stacks = omega arith
env_key-IsKey plugins = omega arith
env_key-IsKey skills = omega arith

subtract-words : (vs except : List Text) → All IsWord vs → All IsWord (subtract vs except)
unfolding subtract
subtract-words [] except h = tt
subtract-words (v ∷ vs) except h = elim (Bool-cases (contains_text except v)) [
  | inl e ↦ rw (e, subtract) (subtract-words vs except h.1)
  | inr e ↦ rw (e, subtract) (h.0, subtract-words vs except h.1)
]

-- The words that are written for a choice.
abbrev pub written : Group → List Text → Files → List Text
written stacks choice f = choice
written plugins choice f = subtract (options plugins f) choice
written skills choice f = choice

saved_value-written :
    (g : Group) (choice : List Text) (f : Files)
    → saved_value g choice f ≡ join_commas (written g choice f)
unfolding saved_value
saved_value-written stacks choice f = refl
saved_value-written plugins choice f = refl
saved_value-written skills choice f = refl

pub written-words :
    (g : Group) (choice : List Text) (f : Files)
    → All IsWord choice
    → All IsWord (options plugins f)
    → All IsWord (written g choice f)
written-words stacks choice f h o = h
written-words plugins choice f h o = subtract-words (options plugins f) choice o
written-words skills choice f h o = h

-- What a key reads after a successful save.
pub env_read-save :
    (g : Group) (choice : List Text) (f : Files) (j : Text)
    → IsKey j
    → (save g choice f).1 ≡ true
    → All IsWord (written g choice f)
    → env_read j (save g choice f).0.env ≡ (
        if text_eq (env_key g) j then some (join_commas (written g choice f)) else env_read j f.env)
unfolding save
env_read-save g choice f j k s h =
    let ws = written g choice f in
    let clean = join_commas-no_space ws h in
    let law = env_read-env_write j (env_key g) (saved_value g choice f) f.env k (env_key-IsKey g) (
      subst IsLine (sym (saved_value-written g choice f))
        (no_space-IsLine (join_commas ws) clean)) in
    ground (arith, s, law, saved_value-written g choice f, trim_space_self (join_commas ws) clean)

contains-subtract :
    (vs except : List Text) (v : Text)
    → contains_text (subtract vs except) v ≡ (contains_text vs v && not (contains_text except v))
unfolding subtract contains_text
contains-subtract [] except v = refl
contains-subtract (w ∷ vs) except v = ground (arith, contains-subtract vs except v, text_eq_iff w v)

-- The entries of a catalog that a choice has, in the order of the catalog.
abbrev pub kept : List Text → List Text → List Text
kept [] choice = []
kept (v ∷ vs) choice = if contains_text choice v then v ∷ kept vs choice else kept vs choice

subtract_twice :
    (all choice vs : List Text)
    → All (λ v. contains_text all v ≡ true) vs
    → subtract vs (subtract all choice) ≡ kept vs choice
unfolding subtract
subtract_twice all choice [] h = refl
subtract_twice all choice (v ∷ vs) h =
    ground (arith, h.0, contains-subtract all choice v, subtract_twice all choice vs h.1)

All-cons :
    (w : Text) (all vs : List Text)
    → All (λ v. contains_text all v ≡ true) vs
    → All (λ v. contains_text (w ∷ all) v ≡ true) vs
unfolding contains_text
All-cons w all [] h = tt
All-cons w all (v ∷ vs) h = (ground (arith, h.0), All-cons w all vs h.1)

All-self : (vs : List Text) → All (λ v. contains_text vs v ≡ true) vs
unfolding contains_text
All-self [] = tt
All-self (v ∷ vs) = (ground (arith, text_eq_iff v v), All-cons v vs vs (All-self vs))

-- The entries that a form shows as selected after a choice: the choice, of the plugins those that the
-- catalog has.
abbrev pub shown : Group → List Text → Files → List Text
shown stacks choice f = choice
shown plugins choice f = kept (options plugins f) choice
shown skills choice f = choice

env_key_self : (g : Group) → text_eq (env_key g) (env_key g) ≡ true
env_key_self g = (text_eq_iff (env_key g) (env_key g)).1 refl

split_csv-cases : (v : Text) → elim v [ [] ↦ [] | c ∷ s ↦ split_csv (c ∷ s) ] ≡ split_csv v
unfolding split_csv split_commas trimmed_pieces trim_space trim_left trim_right
split_csv-cases [] = refl
split_csv-cases (c ∷ s) = refl

pub env_read_saved :
    (g : Group) (choice : List Text) (f : Files)
    → (save g choice f).1 ≡ true
    → All IsWord (written g choice f)
    → env_read (env_key g) (save g choice f).0.env ≡ some (join_commas (written g choice f))
env_read_saved g choice f s h =
    ground (arith, env_read-save g choice f (env_key g) (env_key-IsKey g) s h, env_key_self g)

pub options-save :
    (g j : Group) (choice : List Text) (f : Files) → options j (save g choice f).0 ≡ options j f
unfolding save options
options-save g stacks choice f = ground arith
options-save g plugins choice f = ground arith
options-save g skills choice f = ground arith

read_plugins_disabled-join :
    (env : Read) (ws : List Text)
    → env_read (env_key plugins) env ≡ some (join_commas ws)
    → All IsWord ws
    → read_plugins_disabled env ≡ ws
unfolding read_plugins_disabled
read_plugins_disabled-join env ws e h =
    ground (arith, e, split_csv-cases (join_commas ws), split_csv-join ws h)

-- What is chosen for a group and saved is selected when the group is loaded again: the same words, and
-- of the plugins those that are in the catalog. (The words are not empty and hold neither commas nor
-- spaces, in the choice and in the catalog of plugins.)
pub selected-save :
    (g : Group) (choice : List Text) (f : Files)
    → All IsWord choice
    → All IsWord (options plugins f)
    → (save g choice f).1 ≡ true
    → selected g (save g choice f).0 ≡ shown g choice f
unfolding selected
selected-save stacks choice f h o s =
    ap (λ r. split_csv (or_blank r)) (env_read_saved stacks choice f s h) ∙ split_csv-join choice h
selected-save plugins choice f h o s =
    let all = options plugins f in
    let w = subtract-words all choice o in
    let e = env_read_saved plugins choice f s w in
    let r = read_plugins_disabled-join (save plugins choice f).0.env (subtract all choice) e w in
    rw (options-save plugins plugins choice f) (rw r (subtract_twice all choice all (All-self all)))
selected-save skills choice f h o s =
    ap (λ r. split_csv (or_blank r)) (env_read_saved skills choice f s h) ∙ split_csv-join choice h
