-- ===== src/Steps/Forms.antt =====
-- The step that asks for the configuration: internal/engine/steps/forms.go, with `subtract` and
-- `dotenvRead` of helpers.go, and the keys of internal/engine/config/config.go that it reads and
-- writes. Titles and descriptions are left out.
pub mod Choices
pub mod Persisted
mod Examples
use mirabilis.Base.{
  Bool, true, false, not, ◌||◌, ◌&&◌, Option, none, some, is_some, List, [], ◌∷◌, ◌++◌,
  if◌then◌else◌,
}
use mirabilis.Text.{Text, codes, text_eq, split_lines}
use mirabilis.Text.Fields.{contains_text}
use mirabilis.Text.Csv.{split_csv, join_commas}
use mirabilis.Config.Env.{Read, content, missing, unreadable, read_lines, env_read, env_write}
use mirabilis.Config.Catalog.{read_list, read_skill_catalog}

-- `.env` and the lists of config/, and what a failed write of `.env` leaves, if it fails.
pub record Files : Type 0 where
  pub env : Read
  pub stacks_txt : Option Text
  pub plugins_txt : Option Text
  pub skills_txt : Option Text
  pub env_left : Option Read

pub data Group : Type 0 where
  stacks plugins skills : Group

abbrev pub env_key : Group → Text
env_key stacks = codes "STACKS"
env_key plugins = codes "PLUGINS_DISABLED"
env_key skills = codes "SKILLS"

abbrev pub group_key : Group → Text
group_key stacks = codes "stacks"
group_key plugins = codes "plugins"
group_key skills = codes "skills"

unfoldable pub options : Group → Files → List Text
unfolding read_list read_skill_catalog
options stacks f = read_list f.stacks_txt
options plugins f = read_list f.plugins_txt
options skills f = read_skill_catalog f.skills_txt

-- `dotenvRead`
unfoldable pub dotenv_read : Text → Read → Option Text
unfolding read_lines split_lines
dotenv_read key (content s) = read_lines key (split_lines s)
dotenv_read key missing = none
dotenv_read key unreadable = none

unfoldable pub persisted : Group → Files → Bool
unfolding env_read dotenv_read
persisted stacks f = is_some (env_read (env_key stacks) f.env)
persisted plugins f = is_some (dotenv_read (env_key plugins) f.env)
persisted skills f = is_some (env_read (env_key skills) f.env)

unfoldable pub subtract : List Text → List Text → List Text
unfolding contains_text
subtract [] except = []
subtract (v ∷ vs) except =
    let rest = subtract vs except in if contains_text except v then rest else v ∷ rest

abbrev pub or_blank : Option Text → Text
or_blank none = []
or_blank (some v) = v

-- `ReadPluginsDisabled`, whose loop is that of `splitCSV`.
unfoldable pub read_plugins_disabled : Read → List Text
unfolding env_read split_csv
read_plugins_disabled env = elim (env_read (env_key plugins) env) [
  | none ↦ []
  | some v ↦ elim v [ [] ↦ [] | c ∷ s ↦ split_csv (c ∷ s) ]
]

unfoldable pub selected : Group → Files → List Text
unfolding options env_read split_csv subtract read_plugins_disabled
selected stacks f = split_csv (or_blank (env_read (env_key stacks) f.env))
selected plugins f = subtract (options plugins f) (read_plugins_disabled f.env)
selected skills f = split_csv (or_blank (env_read (env_key skills) f.env))

pub record Catalog : Type 0 where
  pub key : Text
  pub options : List Text
  pub selected : List Text

unfoldable pub load : Group → Files → Catalog
unfolding options selected
load g f = record { key = group_key g; options = options g f; selected = selected g f }

-- What is written for a choice.
unfoldable pub saved_value : Group → List Text → Files → Text
unfolding join_commas subtract options
saved_value stacks choice f = join_commas choice
saved_value plugins choice f = join_commas (subtract (options plugins f) choice)
saved_value skills choice f = join_commas choice

-- The files afterwards, and whether it succeeded.
unfoldable pub save : Group → List Text → Files → Files × Bool
unfolding env_write saved_value
save g choice f = elim f.env_left [
  | none ↦ (record f { env = env_write (env_key g) (saved_value g choice f) f.env }, true)
  | some left ↦ (record f { env = left }, false)
]

abbrev pub groups : List Group
groups = stacks ∷ plugins ∷ skills ∷ []

unfoldable pub all_persisted : List Group → Files → Bool
unfolding persisted
all_persisted [] f = true
all_persisted (g ∷ gs) f =
    let rest = all_persisted gs f in if not (persisted g f) then false else rest

unfoldable pub config_check : Files → Bool
unfolding all_persisted
config_check f = all_persisted groups f

pub record Asked : Type 0 where
  pub group : Group
  pub catalog : Catalog

pub record Loaded : Type 0 where
  pub asked : List Asked
  pub files : Files
  pub saves_ok : Bool

-- The first loop of `Run`: a group without options is saved as empty, and not asked for.
unfoldable pub load_groups : List Group → Files → Loaded
unfolding load save
load_groups [] f = record { asked = []; files = f; saves_ok = true }
load_groups (g ∷ gs) f =
    let empty = load_groups gs (save g [] f).0 in
    let rest = load_groups gs f in
    elim (options g f) [
      | [] ↦
          if (save g [] f).1
          then empty
          else record { asked = []; files = (save g [] f).0; saves_ok = false }
      | o ∷ os ↦ record rest { asked = record { group = g; catalog = load g f } ∷ rest.asked }
    ]

-- What comes back to the step: the choices, another value, a cancellation, or the end of the context.
pub data Answer : Type 0 where
  chosen : List (Text × List Text) → Answer
  other_value cancelled ended : Answer

pub data FormResult : Type 0 where
  completed save_failed wrong_value was_cancelled context_ended : FormResult
  missing_group : Text → FormResult

unfoldable pub choice_of : Text → List (Text × List Text) → Option (List Text)
unfolding text_eq
choice_of k [] = none
choice_of k ((j, choice) ∷ cs) =
    let rest = choice_of k cs in if text_eq j k then some choice else rest

-- The last loop of `Run`.
unfoldable pub save_choices : List Asked → List (Text × List Text) → Files → FormResult × Files
unfolding choice_of save
save_choices [] cs f = (completed, f)
save_choices (a ∷ asked) cs f = elim (choice_of (group_key a.group) cs) [
  | none ↦ (missing_group (group_key a.group), f)
  | some choice ↦
      let (g, saved) = save a.group choice f in
      let rest = save_choices asked cs g in if saved then rest else (save_failed, g)
]

unfoldable pub await : Answer → List Asked → Files → FormResult × Files
unfolding save_choices
await (chosen cs) asked f = save_choices asked cs f
await other_value asked f = (wrong_value, f)
await cancelled asked f = (was_cancelled, f)
await ended asked f = (context_ended, f)

-- Without a group to ask for, the step is done.
unfoldable pub finish : Answer → List Asked → Files → FormResult × Files
unfolding await
finish answer [] f = (completed, f)
finish answer (a ∷ asked) f = await answer (a ∷ asked) f

-- The result, with what the wizard is asked for.
unfoldable pub config_run : Answer → Files → (FormResult × Files) × List Asked
unfolding load_groups finish
config_run answer f =
    let l = load_groups groups f in
    if not l.saves_ok
    then ((save_failed, l.files), [])
    else (finish answer l.asked l.files, l.asked)
