-- ===== src/Provision/Belt/Checks.antt =====
-- The checks of the steps after their runs, in internal/engine/provision: each step that says it has
-- done its work is found done.
use mirabilis.Base.{
  String, Bool, true, false, ◌||◌, Option, none, some, List, [], ◌∷◌, ◌++◌, if◌then◌else◌, ◌≡◌,
  refl, arith, eq_iff, Bool-cases, inl, inr, Option-cases, ap, All,
}
use mirabilis.Text.{
  Text, newline, text_eq, trim_space, cut_prefix, split_lines, is_space, trim_left, trim_right,
  push_right,
}
use mirabilis.Text.Lines.{text_eq_iff}
use mirabilis.Text.Trim.{trim_space-newline, trim_space-line}
use mirabilis.Config.Env.{
  Read, content, missing, unreadable as unreadable_env, env_read, read_lines, assignment,
}
use mirabilis.Config.Tune.{default_loadout, loadout_key, or_default}
use mirabilis.Provision.Json.{Json, boolean, string, object, Members, no_members, get, put, as_map}
use mirabilis.Provision.Json.Merge.{get-put}
use mirabilis.Provision.Home.{
  File, absent, unreadable, garbled, holds_null, holds, ok, read_json, Disk, write_json,
  update_json, Home, loadout_from_env,
}
use mirabilis.Provision.Settings.{is_string, is_on}
use mirabilis.Provision.Settings.Checks.{
  IsMapFile, settings_run-check, theme_run-check, effort_run-check,
}
use mirabilis.Provision.Belt.{
  is_scalar, belt_holds, put_all, trusts_workspace, onboarding_belt_keys, onboarding_check, onboard,
  onboarding_run, settings_env_check, settings_env_run, settings_base_url, write_env, holds_auth,
  onboarded, with_auth, belted, trusting, word_check, write_word, loadout_check, loadout_run,
  desired, create_marker_check, create_marker_run, marker_ok, marker_hash, start_marker_check,
  start_marker_run, Carried, loadout_step, settings_step, onboarding_step, theme_step, effort_step,
  settings_env_step, create_marker_step, start_marker_step, check, run, skip_prompt, workspace_dir,
}

write_word-check :
    (d : Disk) (want : Text)
    → trim_space (want ++ newline ∷ []) ≡ want
    → (write_word d want).0 ≡ ok
    → word_check want (write_word d want).1 ≡ true
unfolding write_word word_check
write_word-check d want t h = ground (arith, h, t, text_eq_iff want want)

-- What a step writes is read back, whatever the file held.
update_json-reads :
    (d : Disk) (f : Members → Members) (file : File)
    → (update_json d (λ m. some (f m)) file).0 ≡ ok
    → (m : Members) × (read_json (update_json d (λ m. some (f m)) file).1 ≡ some (f m))
unfolding update_json write_json read_json
update_json-reads d f absent h = (no_members, ground (arith, h))
update_json-reads d f unreadable h = cc
update_json-reads d f garbled h = cc
update_json-reads d f holds_null h = cc
update_json-reads d f (holds m) h = (m, ground (arith, h))

pub get-put_self : (k : String) (v : Json) (m : Members) → get k (put k v m) ≡ some v
get-put_self k v m = rw (get-put k k v m) (ground (arith, eq_iff k k))

with_auth-url :
    (key : Text) (env : Members)
    → is_string settings_base_url (get "ANTHROPIC_BASE_URL" (with_auth key env)) ≡ true
unfolding with_auth is_string
with_auth-url key env =
    let url = string settings_base_url in
    let done = put "ANTHROPIC_BASE_URL" url env in
    ground (
      arith,
      get-put_self "ANTHROPIC_BASE_URL" url env,
      get-put "ANTHROPIC_AUTH_TOKEN" "ANTHROPIC_BASE_URL" (string key) done,
      text_eq_iff settings_base_url settings_base_url,
    )

with_auth-token :
    (key : Text) (env : Members)
    → (text_eq key [] || is_string key (get "ANTHROPIC_AUTH_TOKEN" (with_auth key env))) ≡ true
unfolding with_auth is_string
with_auth-token key env =
    let done = put "ANTHROPIC_BASE_URL" (string settings_base_url) env in
    ground (arith, get-put_self "ANTHROPIC_AUTH_TOKEN" (string key) done, text_eq_iff key key)

holds_auth-with_auth : (key : Text) (env : Members) → holds_auth key (with_auth key env) ≡ true
unfolding holds_auth
holds_auth-with_auth key env = ground (arith, with_auth-url key env, with_auth-token key env)

write_env-env :
    (key : Text) (m : Members)
    → as_map (get "env" (write_env key m)) ≡ with_auth key (as_map (get "env" m))
unfolding write_env as_map
write_env-env key m =
    ap as_map (get-put_self "env" (object (with_auth key (as_map (get "env" m)))) m)

settings_env_run-check :
    (d : Disk) (h : Home)
    → (settings_env_run d h).0 ≡ ok
    → settings_env_check (settings_env_run d h).1 ≡ true
unfolding settings_env_run settings_env_check
settings_env_run-check d h e = elim (Bool-cases d.makes_dir) [
  | inl f ↦
      let (m, r) =
        update_json-reads d (write_env h.session_key) h.settings (ground (arith, e, f)) in
      let key = h.session_key in
      ground (arith, f, r, write_env-env key m, holds_auth-with_auth key (as_map (get "env" m)))
  | inr f ↦ ground (arith, e, f)
]

trusting-trusts :
    (projects : Members)
    → is_on (get "hasTrustDialogAccepted" (as_map (get workspace_dir (trusting projects)))) ≡ true
unfolding trusting as_map is_on
trusting-trusts projects =
    let proj = put "hasTrustDialogAccepted" (boolean true) (as_map (get workspace_dir projects)) in
    let w = get-put_self workspace_dir (object proj) projects in
    let t =
      get-put_self "hasTrustDialogAccepted" (boolean true) (as_map (get workspace_dir projects)) in
    ground (arith, w, t)

belted-holds : (m : Members) → belt_holds onboarding_belt_keys (belted m) ≡ true
unfolding belted belt_holds put_all is_scalar text_eq
belted-holds m = simp get-put

belt_holds-put :
    (v : Json) (m : Members)
    → belt_holds onboarding_belt_keys (put "projects" v m) ≡ belt_holds onboarding_belt_keys m
unfolding belt_holds
belt_holds-put v m = simp get-put

trusts_workspace-put :
    (t m : Members)
    → trusts_workspace (put "projects" (object t) m)
      ≡ is_on (get "hasTrustDialogAccepted" (as_map (get workspace_dir t)))
unfolding trusts_workspace as_map
trusts_workspace-put t m = simp get-put

skip_prompt-belted :
    (v : Json) (m : Members) → is_on (get skip_prompt (put "projects" v (belted m))) ≡ true
unfolding belted is_on
skip_prompt-belted v m = simp get-put

onboard-onboarded : (m : Members) → onboarded (onboard m) ≡ true
unfolding onboarded onboard
onboard-onboarded m =
    let t = trusting (as_map (get "projects" (belted m))) in
    ground (
      arith,
      belt_holds-put (object t) (belted m),
      belted-holds m,
      trusts_workspace-put t (belted m),
      trusting-trusts (as_map (get "projects" (belted m))),
      skip_prompt-belted (object t) m,
    )

onboarding_run-check :
    (d : Disk) (h : Home)
    → (onboarding_run d h).0 ≡ ok
    → onboarding_check (onboarding_run d h).1 ≡ true
unfolding onboarding_run onboarding_check is_on
onboarding_run-check d h e =
    let skip = put skip_prompt (boolean true) in
    let (m, r) = update_json-reads d onboard h.claude_json (ground (arith, e)) in
    let (n, q) = update_json-reads d skip h.settings (ground (arith, e)) in
    ground (arith, e, r, q, onboard-onboarded m, get-put_self skip_prompt (boolean true) n)

IsTrimmed : Text → Type 0
IsTrimmed t = trim_space (t ++ newline ∷ []) ≡ t

IsTrimmedOption : Option Text → Type 0
IsTrimmedOption none = Unit
IsTrimmedOption (some t) = IsTrimmed t

read_lines-IsTrimmed : (key : Text) (ls : List Text) → IsTrimmedOption (read_lines key ls)
unfolding read_lines IsTrimmedOption IsTrimmed trim_space
read_lines-IsTrimmed key [] = tt
read_lines-IsTrimmed key (l ∷ ls) = elim (Option-cases (cut_prefix l (assignment key))) [
  | inl e ↦ rw (e, read_lines, IsTrimmedOption) (read_lines-IsTrimmed key ls)
  | inr (rest, e) ↦ rw (e, read_lines, IsTrimmedOption) (trim_space-newline rest)
]

env_read-IsTrimmed : (key : Text) (file : Read) → IsTrimmedOption (env_read key file)
unfolding env_read IsTrimmedOption
env_read-IsTrimmed key (content s) = read_lines-IsTrimmed key (split_lines s)
env_read-IsTrimmed key missing = tt
env_read-IsTrimmed key unreadable_env = tt

or_default-IsTrimmed :
    (o : Option Text) → IsTrimmedOption o → IsTrimmed (or_default default_loadout o)
unfolding or_default IsTrimmedOption IsTrimmed trim_space is_space trim_left trim_right push_right
or_default-IsTrimmed none h = refl
or_default-IsTrimmed (some []) h = refl
or_default-IsTrimmed (some (c ∷ s)) h = h

chosen-IsTrimmed :
    (o : Option Text) (t : Text)
    → IsTrimmedOption o
    → IsTrimmed t
    → IsTrimmed (elim o [ some env ↦ env | none ↦ t ])
unfolding IsTrimmedOption
chosen-IsTrimmed none t h u = u
chosen-IsTrimmed (some env) t h u = h

unless-IsTrimmed : (b : Bool) (v : Text) → IsTrimmedOption (if b then none else some (trim_space v))
unfolding IsTrimmedOption IsTrimmed
unless-IsTrimmed true v = tt
unless-IsTrimmed false v = trim_space-newline v

desired-IsTrimmed : (h : Home) → IsTrimmed (desired h)
unfolding desired loadout_from_env
desired-IsTrimmed h =
    chosen-IsTrimmed (loadout_from_env h)
      (or_default default_loadout (env_read loadout_key h.repo.env))
      (unless-IsTrimmed _ h.loadout_var)
      (or_default-IsTrimmed (env_read loadout_key h.repo.env)
        (env_read-IsTrimmed loadout_key h.repo.env))

loadout_run-check :
    (d : Disk) (h : Home) → (loadout_run d h).0 ≡ ok → loadout_check (loadout_run d h).1 ≡ true
unfolding loadout_run loadout_check desired IsTrimmed
loadout_run-check d h e = ground (arith, e, write_word-check d (desired h) (desired-IsTrimmed h))

create_marker_run-check :
    (d : Disk) (h : Home)
    → (create_marker_run d h).0 ≡ ok
    → create_marker_check (create_marker_run d h).1 ≡ true
unfolding create_marker_run create_marker_check trim_space is_space trim_left trim_right push_right
create_marker_run-check d h e = ground (arith, e, write_word-check d marker_ok refl)

module _ (sha256_hex : Text → Text) where
  start_marker_run-check :
      ((t : Text) → All (λ c. is_space c ≡ false) (sha256_hex t))
      → (d : Disk) (h : Home) → (start_marker_run sha256_hex d h).0 ≡ ok
      → start_marker_check sha256_hex (start_marker_run sha256_hex d h).1 ≡ true
  unfolding start_marker_run start_marker_check
  start_marker_run-check hex d h e =
      let want = marker_hash sha256_hex h in
      ground (
        arith,
        e,
        write_word-check d want (trim_space-line want (hex (h.fingerprint ++ h.session_key))),
      )

  -- A step of the provisioning whose `Run` ends without an error is satisfied by its own check
  -- afterwards, so that a second run of the phase skips it. (The seed is read with each key once,
  -- and the digest in hexadecimal holds no space.)
  pub run-check :
      ((t : Text) → All (λ c. is_space c ≡ false) (sha256_hex t))
      → (c : Carried) (d : Disk) (h : Home) → IsMapFile h.settings_seed
      → (run sha256_hex c d h).0 ≡ ok
      → check sha256_hex c (run sha256_hex c d h).1 ≡ true
  unfolding run check
  run-check hex loadout_step d h u e = loadout_run-check d h e
  run-check hex settings_step d h u e = settings_run-check d h u e
  run-check hex onboarding_step d h u e = onboarding_run-check d h e
  run-check hex theme_step d h u e = theme_run-check d h e
  run-check hex effort_step d h u e = effort_run-check d h e
  run-check hex settings_env_step d h u e = settings_env_run-check d h e
  run-check hex create_marker_step d h u e = create_marker_run-check d h e
  run-check hex start_marker_step d h u e = start_marker_run-check hex d h e
