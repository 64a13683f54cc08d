-- ===== src/Provision/Belt.antt =====
-- The steps that write settings of Claude and markers: onboarding.go, settingsenv.go, marker.go and
-- the loadout of carry.go, in internal/engine/provision.
pub mod Checks
use mirabilis.Base.{
  String, Bool, true, false, not, ◌||◌, ◌&&◌, Option, none, some, is_some, is_none, List, [], ◌∷◌,
  ◌++◌, if◌then◌else◌, ◌==◌,
}
use mirabilis.Text.{Text, codes, newline, text_eq, trim_space}
use mirabilis.Config.Tune.{default_loadout, loadout_key, or_default}
use mirabilis.Config.Env.{env_read}
use mirabilis.Provision.Json.{
  Json, boolean, number, string, object, null, array, Members, no_members, get, put, as_map,
}
use mirabilis.Provision.Home.{
  File, absent, Outcome, ok, failed, panicked, exists, read_json, Disk, update_json, Home,
  loadout_from_env,
}
use mirabilis.Provision.Settings.{
  is_string, is_on, settings_check, settings_run, theme_check, theme_run, effort_check, effort_run,
}

abbrev pub onboarding_belt_keys : List (String × Json)
onboarding_belt_keys =
    ("hasCompletedOnboarding", boolean true)
    ∷ ("hasCompletedProjectOnboarding", boolean true)
    ∷ ("lastOnboardingVersion", number (codes "1"))
    ∷ ("projectOnboardingSeenCount", number (codes "1"))
    ∷ ("bypassPermissionsModeAccepted", boolean true)
    ∷ []

-- `m[k] == want`, for a want that is a boolean or a number.
unfoldable pub is_scalar : Json → Option Json → Bool
unfolding text_eq
is_scalar (boolean a) (some (boolean b)) = if a then b else not b
is_scalar (number s) (some (number t)) = text_eq s t
is_scalar want v = false

unfoldable pub belt_holds : List (String × Json) → Members → Bool
unfolding get is_scalar
belt_holds [] m = true
belt_holds ((k, want) ∷ ks) m =
    let rest = belt_holds ks m in if is_scalar want (get k m) then rest else false

unfoldable pub put_all : List (String × Json) → Members → Members
unfolding put
put_all [] m = m
put_all ((k, v) ∷ ks) m = put_all ks (put k v m)

abbrev pub workspace_dir : String
workspace_dir = "/workspace"

abbrev pub skip_prompt : String
skip_prompt = "skipDangerousModePermissionPrompt"

-- The trust in the workspace, in the projects of `.claude.json`.
unfoldable pub trusts_workspace : Members → Bool
unfolding get as_map is_on
trusts_workspace m =
    is_on (get "hasTrustDialogAccepted" (as_map (get workspace_dir (as_map (get "projects" m)))))

-- The part of the check that reads `.claude.json`.
unfoldable pub onboarded : Members → Bool
unfolding belt_holds trusts_workspace is_on get
onboarded m =
    if not (belt_holds onboarding_belt_keys m)
    then false
    else if not (trusts_workspace m)
    then false
    else is_on (get skip_prompt m)

unfoldable pub onboarding_check : Home → Bool
unfolding read_json onboarded is_on get
onboarding_check h = elim (read_json h.claude_json) [
  | none ↦ false
  | some m ↦
      if not (onboarded m)
      then false
      else elim (read_json h.settings) [ none ↦ false | some sm ↦ is_on (get skip_prompt sm) ]
]

-- The mutation of `.claude.json`: the keys of the belt, and the trust in the workspace.
unfoldable pub belted : Members → Members
unfolding put put_all
belted m = put skip_prompt (boolean true) (put_all onboarding_belt_keys m)

unfoldable pub trusting : Members → Members
unfolding put get as_map
trusting projects =
    let proj = put "hasTrustDialogAccepted" (boolean true) (as_map (get workspace_dir projects)) in
    put workspace_dir (object proj) projects

unfoldable pub onboard : Members → Members
unfolding belted trusting put get as_map
onboard m = put "projects" (object (trusting (as_map (get "projects" (belted m))))) (belted m)

-- The settings are written only after `.claude.json`. The directory of `.claude.json` is the home
-- itself, which is there.
unfoldable pub onboarding_run : Disk → Home → Outcome × Home
unfolding onboard update_json put
onboarding_run d h =
    let (out, json) = update_json d (λ m. some (onboard m)) h.claude_json in
    let (done, file) = update_json d (λ m. some (put skip_prompt (boolean true) m)) h.settings in
    elim out [
      | ok ↦
          if d.makes_dir
          then (done, record h { claude_json = json; claude_dir = true; settings = file })
          else (failed, record h { claude_json = json })
      | failed ↦ (failed, record h { claude_json = json })
      | panicked ↦ (panicked, record h { claude_json = json })
    ]

abbrev pub settings_base_url : Text
settings_base_url = codes "http://127.0.0.1:8787"

unfoldable pub holds_auth : Text → Members → Bool
unfolding get is_string text_eq
holds_auth key env =
    if not (is_string settings_base_url (get "ANTHROPIC_BASE_URL" env))
    then false
    else text_eq key [] || is_string key (get "ANTHROPIC_AUTH_TOKEN" env)

-- An environment that is no map reads as an empty one, which does not hold the address.
unfoldable pub settings_env_check : Home → Bool
unfolding read_json get as_map holds_auth
settings_env_check h = elim (read_json h.settings) [
  | none ↦ false
  | some m ↦ holds_auth h.session_key (as_map (get "env" m))
]

-- The environment in the settings, with the address of the proxy and the key, if there is one.
unfoldable pub with_auth : Text → Members → Members
unfolding put text_eq
with_auth key env =
    let env = put "ANTHROPIC_BASE_URL" (string settings_base_url) env in
    if text_eq key [] then env else put "ANTHROPIC_AUTH_TOKEN" (string key) env

unfoldable pub write_env : Text → Members → Members
unfolding get put as_map with_auth
write_env key m = put "env" (object (with_auth key (as_map (get "env" m)))) m

unfoldable pub settings_env_run : Disk → Home → Outcome × Home
unfolding update_json write_env
settings_env_run d h =
    let (out, file) = update_json d (λ m. some (write_env h.session_key m)) h.settings in
    if d.makes_dir then (out, record h { claude_dir = true; settings = file }) else (failed, h)

-- A file that holds one word: the loadout and the two markers.
unfoldable pub word_check : Text → Option Text → Bool
unfolding trim_space text_eq
word_check want none = false
word_check want (some file) = text_eq (trim_space file) want

-- `os.WriteFile` of the word on a line of its own.
unfoldable pub write_word : Disk → Text → Outcome × Option Text
write_word d want = elim d.word_leaves [
  | none ↦ (ok, some (want ++ newline ∷ []))
  | some left ↦ (failed, left)
]

unfoldable pub desired : Home → Text
unfolding loadout_from_env or_default env_read
desired h = elim (loadout_from_env h) [
  | some env ↦ env
  | none ↦ or_default default_loadout (env_read loadout_key h.repo.env)
]

unfoldable pub loadout_check : Home → Bool
unfolding word_check desired
loadout_check h = word_check (desired h) h.loadout_file

unfoldable pub loadout_run : Disk → Home → Outcome × Home
unfolding write_word desired
loadout_run d h =
    let (out, file) = write_word d (desired h) in
    if d.makes_dir then (out, record h { claude_dir = true; loadout_file = file }) else (failed, h)

abbrev pub marker_ok : Text
marker_ok = codes "ok"

unfoldable pub create_marker_check : Home → Bool
unfolding word_check
create_marker_check h = word_check marker_ok h.create_marker

unfoldable pub create_marker_run : Disk → Home → Outcome × Home
unfolding write_word
create_marker_run d h =
    let (out, file) = write_word d marker_ok in
    if d.makes_dir then (out, record h { claude_dir = true; create_marker = file }) else (failed, h)

-- The steps of both phases that write the settings and the small files.
pub data Carried : Type 0 where
  loadout_step settings_step onboarding_step theme_step effort_step : Carried
  settings_env_step create_marker_step start_marker_step : Carried

-- The marker of a session is a hash, in hexadecimal, of the fingerprint and the key together.
module _ (sha256_hex : Text → Text) where
  abbrev pub marker_hash : Home → Text
  marker_hash h = sha256_hex (h.fingerprint ++ h.session_key)

  unfoldable pub start_marker_check : Home → Bool
  unfolding word_check
  start_marker_check h = word_check (marker_hash h) h.start_marker

  unfoldable pub start_marker_run : Disk → Home → Outcome × Home
  unfolding write_word
  start_marker_run d h =
      let (out, file) = write_word d (marker_hash h) in
      if d.makes_dir
      then (out, record h { claude_dir = true; start_marker = file })
      else (failed, h)

  unfoldable pub check : Carried → Home → Bool
  unfolding loadout_check settings_check onboarding_check theme_check effort_check
      settings_env_check create_marker_check start_marker_check
  check loadout_step h = loadout_check h
  check settings_step h = settings_check h
  check onboarding_step h = onboarding_check h
  check theme_step h = theme_check h
  check effort_step h = effort_check h
  check settings_env_step h = settings_env_check h
  check create_marker_step h = create_marker_check h
  check start_marker_step h = start_marker_check h

  unfoldable pub run : Carried → Disk → Home → Outcome × Home
  unfolding loadout_run settings_run onboarding_run theme_run effort_run settings_env_run
      create_marker_run start_marker_run
  run loadout_step d h = loadout_run d h
  run settings_step d h = settings_run d h
  run onboarding_step d h = onboarding_run d h
  run theme_step d h = theme_run d h
  run effort_step d h = effort_run d h
  run settings_env_step d h = settings_env_run d h
  run create_marker_step d h = create_marker_run d h
  run start_marker_step d h = start_marker_run d h
