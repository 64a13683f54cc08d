-- ===== src/Provision/Examples.antt =====
-- Runs of the provisioning, and the theorems at concrete homes.
use mirabilis.Base.{true, false, none, some, [], ◌∷◌, ◌≡◌, refl, inr, All, contains}
use mirabilis.Text.{Text, codes, is_space}
use mirabilis.Config.Env.{missing}
use mirabilis.Provision.Json.{
  boolean, string, object, Members, managed, no_members, member, get, put, IsMap, merge_settings,
  merge_member,
}
use mirabilis.Provision.Json.Merge.{get-merge_settings, merged}
use mirabilis.Provision.Json.Twice.{merge_settings_twice}
use mirabilis.Provision.Home.{
  absent, garbled, holds_null, holds, panicked, Disk, Home, update_json, read_json,
}
use mirabilis.Provision.Settings.{theme_run, settings_run}
use mirabilis.Provision.Settings.Checks.{IsMapFile}
use mirabilis.Provision.Belt.{settings_step, theme_step, onboarding_step, run, check}
use mirabilis.Provision.Belt.Checks.{run-check}
use mirabilis.Provision.Survives.{HasKey, IsSeed, IsLeaf, run_all, run_all-HasKey}

abbrev works : Disk
works = record {
  makes_dir = true;
  makes_xdg = true;
  replaces = true;
  copy_leaves = none;
  word_leaves = none;
}

abbrev users : Members
users = member "model" (string (codes "opus")) (
    member "hooks" (object no_members)
      (member "permissions" (object (member "ask" (boolean true) no_members)) no_members))

abbrev seeds : Members
seeds = member "hooks" (object (member "Stop" (boolean true) no_members)) (
    member "model" (string (codes "sonnet"))
      (member "permissions" (object (member "deny" (boolean false) no_members)) no_members))

abbrev new_home : Home
new_home = record {
  claude_dir = false;
  xdg_dir = false;
  settings = holds users;
  claude_json = absent;
  settings_seed = holds seeds;
  theme_file = some (codes "dark");
  loadout_file = none;
  plugins_disabled = none;
  skills_file = none;
  create_marker = none;
  start_marker = none;
  loadout_var = [];
  effort_var = codes " high ";
  repo = record { env = missing; packs = none; manifests = λ name. none };
  plugins_txt = some (codes "alpha");
  fingerprint = codes "v1";
  session_key = [];
}

abbrev digest : Text → Text
digest t = codes "0f"

digest-hex : (t : Text) → All (λ c. is_space c ≡ false) (digest t)
unfolding is_space
digest-hex t = (refl, (refl, tt))

seeds-IsMap : IsMap seeds
unfolding IsMap get
seeds-IsMap = (refl, ((refl, (tt, tt)), (refl, (tt, (refl, ((refl, (tt, tt)), tt))))))

merges_both :
    merge_settings users seeds
    ≡ member "model" (string (codes "opus")) (
        member "hooks" (object (member "Stop" (boolean true) no_members)) (
          member "permissions"
            (object (member "ask" (boolean true) (member "deny" (boolean false) no_members)))
            no_members))
unfolding merge_settings merge_member put get contains
merges_both = refl

null_panics : (theme_run works (record new_home { settings = holds_null })).0 ≡ panicked
unfolding theme_run update_json
null_panics = refl

-- A seed that cannot be decoded replaces settings that can.
garbled_seed :
    (settings_run works (record new_home { settings_seed = garbled })).1.settings ≡ garbled
unfolding settings_run
garbled_seed = refl

get-merge_settings_example :
    get "hooks" (merge_settings users seeds)
    ≡ merged (managed "hooks") (get "hooks" users) (get "hooks" seeds)
get-merge_settings_example = get-merge_settings users seeds seeds-IsMap "hooks"

merge_settings_twice_example :
    merge_settings (merge_settings users seeds) seeds ≡ merge_settings users seeds
merge_settings_twice_example = merge_settings_twice users seeds seeds-IsMap

run-check_example : check digest settings_step (run digest settings_step works new_home).1 ≡ true
unfolding IsMapFile run
run-check_example = run-check digest digest-hex settings_step works new_home seeds-IsMap refl

run_all-HasKey_example :
    HasKey "model"
      (string (codes "opus"))
      (run_all digest
        ((onboarding_step, works) ∷ (settings_step, works) ∷ (theme_step, works) ∷ [])
        new_home).settings
unfolding contains IsLeaf IsSeed HasKey read_json get
run_all-HasKey_example =
    run_all-HasKey "model" (string (codes "opus")) refl tt digest
      ((onboarding_step, works) ∷ (settings_step, works) ∷ (theme_step, works) ∷ []) new_home
      (refl, (refl, (refl, tt))) (inr (seeds, (refl, seeds-IsMap))) (users, (refl, refl))
