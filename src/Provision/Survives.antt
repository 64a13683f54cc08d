-- ===== src/Provision/Survives.antt =====
-- What the user has set survives the provisioning: settings.go, onboarding.go and settingsenv.go of
-- internal/engine/provision.
use mirabilis.Base.{
  String, Bool, true, false, ◌&&◌, Option, none, some, List, [], ◌∷◌, if◌then◌else◌, ◌≡◌, refl,
  arith, str_eq, eq_iff, contains, subst, sym, Bool-cases, inl, inr, ◌⊎◌, All,
}
use mirabilis.Text.{Text}
use mirabilis.Provision.Json.{
  Json, boolean, number, string, object, null, array, Members, get, put, managed, IsMap,
  merge_value, merge_settings,
}
use mirabilis.Provision.Json.Merge.{get-put, get-remove, get-merge_settings, merged}
use mirabilis.Provision.Home.{
  File, absent, unreadable, garbled, holds_null, holds, Outcome, ok, failed, panicked, exists,
  read_json, Disk, write_json, update_json, Home,
}
use mirabilis.Provision.Settings.{
  merged_settings, merge_read, install_settings, settings_run, string_run, write_level, effort,
  theme,
}
use mirabilis.Provision.Belt.{
  onboarding_run, settings_env_run, write_env, onboard, loadout_run, create_marker_run,
  start_marker_run, Carried, loadout_step, settings_step, onboarding_step, theme_step, effort_step,
  settings_env_step, create_marker_step, start_marker_step, run, skip_prompt,
}

-- The keys that some step writes or deletes.
abbrev pub owned_keys : List String
owned_keys = "hooks" ∷ "statusLine" ∷ "env" ∷ "sandbox" ∷ "theme" ∷ "effortLevel" ∷ skip_prompt ∷ []

-- The file can be read, and the key has the value.
unfoldable pub HasKey : String → Json → File → Type 0
HasKey k v file = (m : Members) × ((read_json file ≡ some m) × (get k m ≡ some v))

-- A value that is no object, so that nothing is merged into it.
unfoldable pub IsLeaf : Json → Type 0
IsLeaf (object m) = ⊥
IsLeaf null = Unit
IsLeaf (boolean b) = Unit
IsLeaf (number t) = Unit
IsLeaf (string t) = Unit
IsLeaf (array xs) = Unit

-- The seed is not there, or it is read as a map.
unfoldable pub IsSeed : File → Type 0
IsSeed file = (exists file ≡ false) ⊎ ((m : Members) × ((read_json file ≡ some m) × IsMap m))

read-exists : (file : File) (m : Members) → read_json file ≡ some m → exists file ≡ true
unfolding read_json exists
read-exists absent m h = cc
read-exists unreadable m h = refl
read-exists garbled m h = refl
read-exists holds_null m h = refl
read-exists (holds n) m h = refl

abbrev is_ok : Outcome → Bool
is_ok ok = true
is_ok failed = false
is_ok panicked = false

-- Steps one after the other, each with what the operating system answers it; a step that fails is
-- optional or has failed the phase, and either way the files stay as it left them.
unfoldable pub run_all : (Text → Text) → List (Carried × Disk) → Home → Home
unfolding run
run_all sha256_hex [] h = h
run_all sha256_hex ((c, d) ∷ steps) h = run_all sha256_hex steps (run sha256_hex c d h).1

seed-run :
    (sha256_hex : Text → Text) (c : Carried) (d : Disk) (h : Home)
    → (run sha256_hex c d h).1.settings_seed ≡ h.settings_seed
unfolding run settings_run loadout_run onboarding_run settings_env_run create_marker_run
    start_marker_run
seed-run hex loadout_step d h = ground arith
seed-run hex settings_step d h = ground arith
seed-run hex onboarding_step d h = ground arith
seed-run hex theme_step d h = refl
seed-run hex effort_step d h = refl
seed-run hex settings_env_step d h = ground arith
seed-run hex create_marker_step d h = ground arith
seed-run hex start_marker_step d h = ground arith

module _ (k : String) (v : Json) (user : contains owned_keys k ≡ false) (leaf : IsLeaf v) where
  not_owned : (j : String) → contains owned_keys j ≡ true → str_eq j k ≡ false
  not_owned j h = ground (arith, user, h, eq_iff j k)

  not_managed : managed k ≡ false
  unfolding contains
  not_managed = ground (arith, user)

  merge_value-leaf : (w : Json) (s : Json) → IsLeaf w → merge_value w s ≡ none
  unfolding merge_settings IsLeaf
  merge_value-leaf null s h = refl
  merge_value-leaf (boolean b) s h = refl
  merge_value-leaf (number t) s h = refl
  merge_value-leaf (string t) s h = refl
  merge_value-leaf (array xs) s h = refl
  merge_value-leaf (object m) s h = absurd h

  merged-leaf : (s : Option Json) → merged false (some v) s ≡ some v
  merged-leaf none = refl
  merged-leaf (some s) = rw (merge_value-leaf v s leaf)

  get-merged_settings :
      (dest seed : Members)
      → IsMap seed
      → get k dest ≡ some v
      → get k (merged_settings dest seed) ≡ some v
  unfolding merged_settings contains
  get-merged_settings dest seed u h = ground (
    arith,
    get-remove "sandbox" k (merge_settings dest seed),
    not_owned "sandbox" refl,
    get-merge_settings dest seed u k,
    not_managed,
    h,
    merged-leaf (get k seed),
  )

  put-HasKey :
      (d : Disk) (f : Members → Members) (file : File)
      → d.replaces ≡ true
      → ((m : Members) → get k (f m) ≡ get k m)
      → HasKey k v file
      → HasKey k v (update_json d (λ m. some (f m)) file).1
  unfolding HasKey update_json write_json read_json
  put-HasKey d f absent r h (m, (e, g)) = cc
  put-HasKey d f unreadable r h (m, (e, g)) = cc
  put-HasKey d f garbled r h (m, (e, g)) = cc
  put-HasKey d f holds_null r h (m, (e, g)) = (m, (e, g))
  put-HasKey d f (holds n) r h (m, (e, g)) = (f n, (ground (arith, r), ground (arith, h n, e, g)))

  settings-HasKey :
      (d : Disk) (seed dest : File)
      → d.replaces ≡ true
      → IsSeed seed
      → HasKey k v dest
      → HasKey k v (install_settings d seed dest).1
  unfolding install_settings merge_read write_json HasKey IsSeed read_json
  settings-HasKey d seed dest r (inl e) h = rw e h
  settings-HasKey d seed dest r (inr (sm, (e, u))) (m, (f, g)) = (
    merged_settings m sm,
    (ground (arith, r, e, f, read-exists seed sm e), get-merged_settings m sm u g),
  )

  put_user :
      (j : String) (w : Json) (m : Members)
      → contains owned_keys j ≡ true
      → get k (put j w m) ≡ get k m
  put_user j w m h = ground (arith, get-put j k w m, not_owned j h)

  string_run-HasKey :
      (d : Disk) (j : String) (t : Text) (file : File)
      → contains owned_keys j ≡ true
      → d.replaces ≡ true
      → HasKey k v file
      → HasKey k v (string_run d j t file).1
  unfolding string_run
  string_run-HasKey d j t file o r h = elim (Bool-cases (exists file)) [
    | inl e ↦
        rw (e, string_run)
          (put-HasKey d (put j (string t)) file r (λ m. put_user j (string t) m o) h)
    | inr e ↦ rw (e, string_run) h
  ]

  write_level-HasKey :
      (d : Disk) (t : Text) (file : File)
      → d.replaces ≡ true
      → HasKey k v file
      → HasKey k v (write_level d t file).1
  unfolding write_level contains
  write_level-HasKey d [] file r h = h
  write_level-HasKey d (c ∷ t) file r h = string_run-HasKey d "effortLevel" (c ∷ t) file refl r h

  one_of-HasKey :
      (b : Bool) (file f g : File)
      → file ≡ (if b then f else g)
      → HasKey k v f
      → HasKey k v g
      → HasKey k v file
  one_of-HasKey true file f g e p q = subst (HasKey k v) (sym e) p
  one_of-HasKey false file f g e p q = subst (HasKey k v) (sym e) q

  settings_run-HasKey :
      (d : Disk) (h : Home)
      → d.replaces ≡ true
      → IsSeed h.settings_seed
      → HasKey k v h.settings
      → HasKey k v (settings_run d h).1.settings
  unfolding settings_run
  settings_run-HasKey d h r s u =
      one_of-HasKey (d.makes_dir && d.makes_xdg) _ (install_settings d h.settings_seed h.settings).1
        h.settings (ground arith) (settings-HasKey d h.settings_seed h.settings r s u) u

  onboarding_run-HasKey :
      (d : Disk) (h : Home)
      → d.replaces ≡ true
      → HasKey k v h.settings
      → HasKey k v (onboarding_run d h).1.settings
  unfolding onboarding_run contains
  onboarding_run-HasKey d h r u =
      let skip = put skip_prompt (boolean true) in
      one_of-HasKey (is_ok (update_json d (λ m. some (onboard m)) h.claude_json).0 && d.makes_dir) _
        (update_json d (λ m. some (skip m)) h.settings).1 h.settings (ground arith)
        (put-HasKey d skip h.settings r (λ m. put_user skip_prompt (boolean true) m refl) u) u

  settings_env_run-HasKey :
      (d : Disk) (h : Home)
      → d.replaces ≡ true
      → HasKey k v h.settings
      → HasKey k v (settings_env_run d h).1.settings
  unfolding settings_env_run write_env contains
  settings_env_run-HasKey d h r u =
      let auth = write_env h.session_key in
      one_of-HasKey d.makes_dir _ (update_json d (λ m. some (auth m)) h.settings).1 h.settings
        (ground arith) (put-HasKey d auth h.settings r (λ m. put_user "env" _ m refl) u) u

  -- The settings of a home after a step, whether it failed or not.
  run-HasKey :
      (sha256_hex : Text → Text) (c : Carried) (d : Disk) (h : Home)
      → d.replaces ≡ true
      → IsSeed h.settings_seed
      → HasKey k v h.settings
      → HasKey k v (run sha256_hex c d h).1.settings
  unfolding run loadout_run create_marker_run start_marker_run contains
  run-HasKey hex loadout_step d h r s u = subst (HasKey k v) (ground arith) u
  run-HasKey hex settings_step d h r s u = settings_run-HasKey d h r s u
  run-HasKey hex onboarding_step d h r s u = onboarding_run-HasKey d h r u
  run-HasKey hex theme_step d h r s u = string_run-HasKey d "theme" (theme h) h.settings refl r u
  run-HasKey hex effort_step d h r s u = write_level-HasKey d (effort h) h.settings r u
  run-HasKey hex settings_env_step d h r s u = settings_env_run-HasKey d h r u
  run-HasKey hex create_marker_step d h r s u = subst (HasKey k v) (ground arith) u
  run-HasKey hex start_marker_step d h r s u = subst (HasKey k v) (ground arith) u

  -- Whatever steps run, in whatever order and with whatever outcome: a key of the user's settings
  -- that no step owns keeps its value. (The value is no object; the settings can be read; the seed is
  -- not there or is read as a map; and the file can be replaced each time.)
  pub run_all-HasKey :
      (sha256_hex : Text → Text) (steps : List (Carried × Disk)) (h : Home)
      → All (λ s. s.1.replaces ≡ true) steps
      → IsSeed h.settings_seed
      → HasKey k v h.settings
      → HasKey k v (run_all sha256_hex steps h).settings
  unfolding run_all
  run_all-HasKey hex [] h r s u = u
  run_all-HasKey hex ((c, d) ∷ steps) h r s u =
      run_all-HasKey hex steps (run hex c d h).1 r.1 (subst IsSeed (sym (seed-run hex c d h)) s)
        (run-HasKey hex c d h r.0 s u)
