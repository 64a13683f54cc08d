-- ===== src/Provision/Settings.antt =====
-- The steps that write the settings: settings.go, onboarding.go, settingsenv.go and the loadout of
-- carry.go, in internal/engine/provision.
pub mod Checks
use mirabilis.Base.{
  String, Bool, true, false, not, ◌||◌, ◌&&◌, Option, none, some, is_some, is_none, List, [], ◌∷◌,
  ◌++◌, if◌then◌else◌, ◌==◌,
}
use mirabilis.Text.{Text, codes, newline, text_eq, trim_space, trim_right}
use mirabilis.Config.Tune.{default_loadout, loadout_key, or_default}
use mirabilis.Config.Env.{env_read}
use mirabilis.Provision.Json.{
  Json, boolean, number, string, object, null, array, Members, no_members, get, put, remove, as_map,
  seed_managed_keys, merge_settings,
}
use mirabilis.Provision.Home.{
  File, absent, Outcome, ok, failed, panicked, exists, read_json, Disk, write_json, copy_file,
  update_json, Home, loadout, loadout_from_env, effort_from_env,
}

-- `m[k] == s` for a string `s`.
unfoldable pub is_string : Text → Option Json → Bool
unfolding text_eq
is_string t (some (string s)) = text_eq s t
is_string t (some null) = false
is_string t (some (boolean b)) = false
is_string t (some (number n)) = false
is_string t (some (array xs)) = false
is_string t (some (object m)) = false
is_string t none = false

-- `b, _ := m[k].(bool)`
unfoldable pub is_on : Option Json → Bool
is_on (some (boolean b)) = b
is_on (some (string s)) = false
is_on (some null) = false
is_on (some (number n)) = false
is_on (some (array xs)) = false
is_on (some (object m)) = false
is_on none = false

-- Every managed key of the seed is in the settings.
unfoldable pub keys_present : List String → Members → Members → Bool
unfolding get
keys_present [] seed m = true
keys_present (k ∷ ks) seed m =
    let rest = keys_present ks seed m in
    if is_some (get k seed) && is_none (get k m) then false else rest

unfoldable pub check_files : File → File → Bool
unfolding exists read_json keys_present
check_files seed dest =
    if not (exists seed) then true else if not (exists dest) then false else elim (read_json seed) [
      | none ↦ true
      | some sm ↦ elim (read_json dest) [
        | none ↦ true
        | some m ↦ keys_present seed_managed_keys sm m
      ]
    ]

unfoldable pub settings_check : Home → Bool
unfolding check_files
settings_check h =
    if not h.claude_dir || not h.xdg_dir then false else check_files h.settings_seed h.settings

-- What `Run` writes where both files can be read.
unfoldable pub merged_settings : Members → Members → Members
unfolding remove merge_settings
merged_settings dest seed = remove "sandbox" (merge_settings dest seed)

-- From what `readJSON` gives for the settings and for the seed: the merge, which falls back to the
-- copy where a file cannot be read or the write fails.
unfoldable pub merge_read : Disk → Option Members → Option Members → File → File → Outcome × File
unfolding merged_settings copy_file write_json
merge_read d (some dm) (some sm) seed dest =
    if d.replaces then write_json d (merged_settings dm sm) dest else copy_file d seed dest
merge_read d (some dm) none seed dest = copy_file d seed dest
merge_read d none sm seed dest = copy_file d seed dest

-- A file that is not there cannot be read, and is copied as well.
unfoldable pub install_settings : Disk → File → File → Outcome × File
unfolding merge_read read_json exists
install_settings d seed dest =
    if not (exists seed)
    then (ok, dest)
    else merge_read d (read_json dest) (read_json seed) seed dest

unfoldable pub settings_run : Disk → Home → Outcome × Home
unfolding install_settings
settings_run d h =
    let (out, file) = install_settings d h.settings_seed h.settings in
    if not d.makes_dir
    then (failed, h)
    else if not d.makes_xdg
    then (failed, record h { claude_dir = true })
    else (out, record h { claude_dir = true; xdg_dir = true; settings = file })

unfoldable pub effort : Home → Text
unfolding effort_from_env loadout
effort h = elim (effort_from_env h) [ some ef ↦ ef | none ↦ (loadout h).0.effort ]

-- What the steps of effort and theme share: a key of the settings is to be a string.
unfoldable pub string_check : String → Text → File → Bool
unfolding exists read_json is_string get
string_check k t file =
    if not (exists file)
    then true
    else elim (read_json file) [ none ↦ true | some m ↦ is_string t (get k m) ]

unfoldable pub string_run : Disk → String → Text → File → Outcome × File
unfolding exists update_json put
string_run d k t file =
    if not (exists file) then (ok, file) else update_json d (λ m. some (put k (string t) m)) file

-- No effort leaves the settings as they are.
unfoldable pub check_level : Text → File → Bool
unfolding string_check
check_level [] file = true
check_level (c ∷ t) file = string_check "effortLevel" (c ∷ t) file

unfoldable pub write_level : Disk → Text → File → Outcome × File
unfolding string_run
write_level d [] file = (ok, file)
write_level d (c ∷ t) file = string_run d "effortLevel" (c ∷ t) file

unfoldable pub effort_check : Home → Bool
unfolding effort check_level
effort_check h = check_level (effort h) h.settings

unfoldable pub effort_run : Disk → Home → Outcome × Home
unfolding effort write_level
effort_run d h =
    let (out, file) = write_level d (effort h) h.settings in (out, record h { settings = file })

-- `strings.TrimRight(s, "\r\n")`
unfoldable pub trim_ends : Text → Text
unfolding trim_right
trim_ends s = trim_right (λ c. c == 13 || c == newline) s

unfoldable pub theme : Home → Text
unfolding trim_ends text_eq
theme h = elim h.theme_file [
  | none ↦ codes "auto"
  | some file ↦ let t = trim_ends file in if text_eq t [] then codes "auto" else t
]

unfoldable pub theme_check : Home → Bool
unfolding theme string_check
theme_check h = string_check "theme" (theme h) h.settings

unfoldable pub theme_run : Disk → Home → Outcome × Home
unfolding theme string_run
theme_run d h =
    let (out, file) = string_run d "theme" (theme h) h.settings in
    (out, record h { settings = file })
