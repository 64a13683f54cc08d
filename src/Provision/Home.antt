-- ===== src/Provision/Home.antt =====
-- The files that the provisioning reads and writes, with `readJSON`, `writeJSON` and `copyFile` of
-- jsonio.go, `updateJSON` of jsonlock.go, and the loadout, the plugins and the sets of lines of
-- carry.go, all in internal/engine/provision.
use mirabilis.Base.{Bool, true, false, ◌||◌, Option, none, some, List, [], ◌∷◌, ◌++◌, if◌then◌else◌}
use mirabilis.Text.{Text, codes, text_eq, trim_space, split_lines}
use mirabilis.Text.Fields.{contains_text}
use mirabilis.Config.Catalog.{list_lines, read_list}
use mirabilis.Config.Loadout.{Loadout, read_loadout_manifest}
use mirabilis.Config.Tune.{Repo, default_loadout}
use mirabilis.Provision.Json.{Members, no_members}

-- A file of JSON: not there, not to be opened, no JSON object, `null`, or an object.
pub data File : Type 0 where
  absent unreadable garbled holds_null : File
  holds : Members → File

pub data Outcome : Type 0 where
  ok failed panicked : Outcome

unfoldable pub exists : File → Bool
exists absent = false
exists unreadable = true
exists garbled = true
exists holds_null = true
exists (holds m) = true

-- `null` decodes to the nil map, which reads as the empty one.
unfoldable pub read_json : File → Option Members
read_json absent = none
read_json unreadable = none
read_json garbled = none
read_json holds_null = some no_members
read_json (holds m) = some m

-- What the operating system answers to the writes: whether a directory can be made, whether a
-- temporary file can be written and renamed, and what a failed copy, or a failed write of a text,
-- leaves behind, if it fails.
pub record Disk : Type 0 where
  pub makes_dir : Bool
  pub makes_xdg : Bool
  pub replaces : Bool
  pub copy_leaves : Option File
  pub word_leaves : Option (Option Text)

-- A file that is written with the encoding of a map reads as that map.
unfoldable pub write_json : Disk → Members → File → Outcome × File
write_json d m file = if d.replaces then (ok, holds m) else (failed, file)

-- The copy is byte by byte, whatever the source holds.
unfoldable pub copy_file : Disk → File → File → Outcome × File
copy_file d absent dest = (failed, dest)
copy_file d unreadable dest = (failed, dest)
copy_file d src dest = elim d.copy_leaves [ none ↦ (ok, src) | some left ↦ (failed, left) ]

-- Setting a key of the nil map panics, before anything is written.
unfoldable pub update_json : Disk → (Members → Option Members) → File → Outcome × File
unfolding write_json
update_json d mutate absent = elim (mutate no_members) [
  | none ↦ (failed, absent)
  | some m ↦ write_json d m absent
]
update_json d mutate unreadable = (failed, unreadable)
update_json d mutate garbled = (failed, garbled)
update_json d mutate holds_null = (panicked, holds_null)
update_json d mutate (holds m) = elim (mutate m) [
  | none ↦ (failed, holds m)
  | some n ↦ write_json d n (holds m)
]

-- The home directory, the variables and the files of the repository that the steps look at. A text
-- file that cannot be read is `none`.
pub record Home : Type 0 where
  pub claude_dir : Bool
  pub xdg_dir : Bool
  pub settings : File
  pub claude_json : File
  pub settings_seed : File
  pub theme_file : Option Text
  pub loadout_file : Option Text
  pub plugins_disabled : Option Text
  pub skills_file : Option Text
  pub create_marker : Option Text
  pub start_marker : Option Text
  pub loadout_var : Text
  pub effort_var : Text
  pub repo : Repo
  pub plugins_txt : Option Text
  pub fingerprint : Text
  pub session_key : Text

unfoldable pub loadout_from_env : Home → Option Text
unfolding trim_space text_eq
loadout_from_env h =
    let name = trim_space h.loadout_var in
    if text_eq name [] || text_eq name (codes "default") then none else some name

unfoldable pub effort_from_env : Home → Option Text
unfolding trim_space text_eq
effort_from_env h = let ef = trim_space h.effort_var in if text_eq ef [] then none else some ef

-- The name in the file of the container, where it is not blank.
unfoldable pub filed_loadout : Option Text → Text
unfolding trim_space text_eq
filed_loadout none = default_loadout
filed_loadout (some text) = let s = trim_space text in if text_eq s [] then default_loadout else s

-- `Deps.loadout`: the manifest of the variable, else of the file, and where that is missing the
-- default one.
unfoldable pub loadout : Home → Loadout × Bool
unfolding loadout_from_env filed_loadout
loadout h =
    let name : Text = elim (loadout_from_env h) [
      | none ↦ filed_loadout h.loadout_file
      | some env ↦ env
    ] in
    let (lo, found) = read_loadout_manifest h.repo.packs name (h.repo.manifests name) in
    if found
    then (lo, true)
    else read_loadout_manifest h.repo.packs default_loadout (h.repo.manifests default_loadout)

-- The lines of a set, none of them blank.
unfoldable pub set_lines : List Text → List Text
unfolding text_eq trim_space
set_lines [] = []
set_lines (line ∷ lines) =
    let rest = set_lines lines in let t = trim_space line in if text_eq t [] then rest else t ∷ rest

unfoldable pub read_set : Option Text → List Text
unfolding set_lines split_lines
read_set none = []
read_set (some text) = set_lines (split_lines text)

-- `readLines`, which leaves out comments too.
unfoldable pub read_lines : Option Text → List Text
unfolding list_lines split_lines
read_lines none = []
read_lines (some text) = list_lines (split_lines text)

unfoldable pub not_allowed : List Text → List Text → List Text
unfolding contains_text
not_allowed allowed [] = []
not_allowed allowed (p ∷ ps) =
    let rest = not_allowed allowed ps in if contains_text allowed p then rest else p ∷ rest

-- `disabledPlugins`, a set as the list of its members: a loadout that lists plugins disables the
-- others of the catalog, besides those of the file.
unfoldable pub disabled_plugins : Home → List Text
unfolding loadout read_set not_allowed
disabled_plugins h =
    let explicit = read_set h.plugins_disabled in
    let (lo, found) = loadout h in
    elim lo.plugins [
      | [] ↦ explicit
      | p ∷ ps ↦
          if found then not_allowed (p ∷ ps) (read_list h.plugins_txt) ++ explicit else explicit
    ]
