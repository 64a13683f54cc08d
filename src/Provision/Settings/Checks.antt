-- ===== src/Provision/Settings/Checks.antt =====
-- The checks of the steps after their runs, in internal/engine/provision.
use mirabilis.Base.{
  String, true, false, Option, none, some, is_some, List, [], ◌∷◌, ◌≡◌, refl, arith, str_eq, eq_iff,
  contains, subst, sym, Bool-cases, inl, inr,
}
use mirabilis.Text.{Text}
use mirabilis.Text.Lines.{text_eq_iff}
use mirabilis.Provision.Json.{
  Json, string, Members, no_members, get, seed_managed_keys, merge_settings, managed, IsMap,
}
use mirabilis.Provision.Json.Merge.{get-put, get-remove, get-merge_settings, merged}
use mirabilis.Provision.Home.{
  File, absent, unreadable, garbled, holds_null, holds, ok, exists, read_json, Disk, write_json,
  copy_file, update_json, Home,
}
use mirabilis.Provision.Settings.{
  is_string, keys_present, check_files, install_settings, settings_check, settings_run,
  merged_settings, merge_read, string_check, string_run, check_level, write_level, effort,
  effort_check, effort_run, theme, theme_check, theme_run,
}

string_run-check :
    (d : Disk) (k : String) (t : Text) (file : File)
    → (string_run d k t file).0 ≡ ok
    → string_check k t (string_run d k t file).1 ≡ true
unfolding string_run string_check exists update_json write_json read_json is_string
string_run-check d k t absent h = refl
string_run-check d k t unreadable h = refl
string_run-check d k t garbled h = refl
string_run-check d k t holds_null h = cc
string_run-check d k t (holds m) h = elim (Bool-cases d.replaces) [
  | inl e ↦ rw e (rw (get-put k k (string t) m) (ground (arith, eq_iff k k, text_eq_iff t t)))
  | inr e ↦ ground (arith, e, h)
]

pub theme_run-check :
    (d : Disk) (h : Home) → (theme_run d h).0 ≡ ok → theme_check (theme_run d h).1 ≡ true
unfolding theme_run theme_check theme
theme_run-check d h e = string_run-check d "theme" (theme h) h.settings e

write_level-check :
    (d : Disk) (t : Text) (file : File)
    → (write_level d t file).0 ≡ ok
    → check_level t (write_level d t file).1 ≡ true
unfolding write_level check_level
write_level-check d [] file h = refl
write_level-check d (c ∷ t) file h = string_run-check d "effortLevel" (c ∷ t) file h

pub effort_run-check :
    (d : Disk) (h : Home) → (effort_run d h).0 ≡ ok → effort_check (effort_run d h).1 ≡ true
unfolding effort_run effort_check effort
effort_run-check d h e = write_level-check d (effort h) h.settings e

keys_present-lem :
    (ks : List String) (seed m : Members)
    → ((k : String) → contains ks k ≡ true → is_some (get k seed) ≡ true → is_some (get k m) ≡ true)
    → keys_present ks seed m ≡ true
unfolding keys_present contains
keys_present-lem [] seed m h = refl
keys_present-lem (k ∷ ks) seed m h = ground (
  arith,
  h k (ground (arith, eq_iff k k)),
  keys_present-lem ks seed m (λ j c s. h j (ground (arith, c)) s),
)

managed-not_sandbox : (k : String) → managed k ≡ true → str_eq "sandbox" k ≡ false
unfolding contains
managed-not_sandbox k h = elim (Bool-cases (str_eq "sandbox" k)) [
  | inl e ↦ absurd (never (subst (λ j. managed j ≡ true) (sym ((eq_iff "sandbox" k).0 e)) h))
  | inr e ↦ e
]
  where
    never : managed "sandbox" ≡ true → ⊥
    never h = cc

is_some-merged : (d s : Option Json) → is_some s ≡ true → is_some (merged true d s) ≡ true
is_some-merged d none h = cc
is_some-merged d (some s) h = refl

merged_settings-keys :
    (dest seed : Members)
    → IsMap seed
    → keys_present seed_managed_keys seed (merged_settings dest seed) ≡ true
unfolding merged_settings
merged_settings-keys dest seed u =
    keys_present-lem seed_managed_keys seed (merged_settings dest seed) (λ k c s.
      rw (get-remove "sandbox" k (merge_settings dest seed)) (
        rw (managed-not_sandbox k c) (
          rw (get-merge_settings dest seed u k)
            (rw c (is_some-merged (get k dest) (get k seed) s)))))

seed-keys_present : (ks : List String) (seed : Members) → keys_present ks seed seed ≡ true
unfolding keys_present
seed-keys_present [] seed = refl
seed-keys_present (k ∷ ks) seed = ground (arith, seed-keys_present ks seed)

copy_file-check :
    (d : Disk) (seed dest : File)
    → (copy_file d seed dest).0 ≡ ok
    → check_files seed (copy_file d seed dest).1 ≡ true
unfolding copy_file check_files exists read_json
copy_file-check d absent dest h = cc
copy_file-check d unreadable dest h = cc
copy_file-check d garbled dest h = ground (arith, h)
copy_file-check d holds_null dest h =
    ground (arith, h, seed-keys_present seed_managed_keys no_members)
copy_file-check d (holds m) dest h = ground (arith, h, seed-keys_present seed_managed_keys m)

-- A map of the settings has each key once.
unfoldable pub IsMapFile : File → Type 0
IsMapFile (holds m) = IsMap m
IsMapFile absent = Unit
IsMapFile unreadable = Unit
IsMapFile garbled = Unit
IsMapFile holds_null = Unit

read-IsMap : (file : File) (m : Members) → IsMapFile file → read_json file ≡ some m → IsMap m
unfolding read_json IsMapFile IsMap
read-IsMap absent m u e = cc
read-IsMap unreadable m u e = cc
read-IsMap garbled m u e = cc
read-IsMap holds_null m u e =
    let v : IsMap no_members = tt in subst IsMap {x = no_members} (ground (arith, e)) v
read-IsMap (holds n) m u e = subst IsMap (ground (arith, e)) u

merged_file-check :
    (dest sm : Members) (seed : File)
    → read_json seed ≡ some sm
    → IsMap sm
    → check_files seed (holds (merged_settings dest sm)) ≡ true
unfolding check_files exists read_json
merged_file-check dest sm seed e u = ground (arith, e, merged_settings-keys dest sm u)

merge_read-check :
    (d : Disk) (dm sm : Option Members) (seed dest : File)
    → read_json seed ≡ sm
    → IsMapFile seed
    → (merge_read d dm sm seed dest).0 ≡ ok
    → check_files seed (merge_read d dm sm seed dest).1 ≡ true
unfolding merge_read write_json
merge_read-check d none sm seed dest e u h = copy_file-check d seed dest h
merge_read-check d (some dm) none seed dest e u h = copy_file-check d seed dest h
merge_read-check d (some dm) (some sm) seed dest e u h = elim (Bool-cases d.replaces) [
  | inl f ↦ rw f (merged_file-check dm sm seed e (read-IsMap seed sm u e))
  | inr f ↦ rw f (copy_file-check d seed dest (rw f at h))
]

install_settings-check :
    (d : Disk) (seed dest : File)
    → IsMapFile seed
    → (install_settings d seed dest).0 ≡ ok
    → check_files seed (install_settings d seed dest).1 ≡ true
unfolding install_settings check_files
install_settings-check d seed dest u h =
    ground (arith, h, merge_read-check d (read_json dest) (read_json seed) seed dest refl u)

pub settings_run-check :
    (d : Disk) (h : Home)
    → IsMapFile h.settings_seed
    → (settings_run d h).0 ≡ ok
    → settings_check (settings_run d h).1 ≡ true
unfolding settings_run settings_check
settings_run-check d h u e =
    ground (arith, e, install_settings-check d h.settings_seed h.settings u)
