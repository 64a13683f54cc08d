-- ===== src/Provision/Plugins.antt =====
-- The plugins of a container: internal/engine/provision/plugins/plugins.go, with the step of plugins.go.
-- Names are strings; the program claude is a record that acts on a state of any type; the text of an
-- error is left out.
pub mod Enabled
mod Examples
use mirabilis.Base.{
  String, Bool, true, false, not, ◌||◌, ◌&&◌, Option, none, some, is_some, List, [], ◌∷◌, ◌++◌,
  if◌then◌else◌, ◌==◌, contains,
}
use mirabilis.Text.{Text, codes, has_prefix}
use mirabilis.Provision.Json.{
  Json, boolean, object, null, number, string, array, Members, no_members, member, get, put,
}
use mirabilis.Provision.Home.{
  File, absent, Outcome, ok, failed, panicked, Disk, exists, read_json, update_json,
}
use mirabilis.Provision.Install.{missing}

abbrev pub neuro_matrix : String
neuro_matrix = "neuro-matrix@neuro-matrix"

pub record Plan : Type 0 where
  pub marketplaces : List String
  pub units : List String
  pub enabled : Members
  pub configured : Bool

-- `strings.Contains`
unfoldable pub contains_part : Text → Text → Bool
contains_part [] part = has_prefix [] part
contains_part (c ∷ s) part =
    let rest = contains_part s part in if has_prefix (c ∷ s) part then true else rest

-- What stands before the first `@`.
unfoldable pub base : Text → Text
base [] = []
base (c ∷ s) = let rest = base s in if c == b'@' then [] else c ∷ rest

unfoldable pub allowed : List String → List String → List String
unfolding contains
allowed [] disabled = []
allowed (p ∷ ps) disabled =
    let rest = allowed ps disabled in if contains disabled p then rest else p ∷ rest

unfoldable pub enable_all : List String → Members → Members
unfolding put
enable_all [] m = m
enable_all (p ∷ ps) m = enable_all ps (put p (boolean true) m)

abbrev pub is_blank : List String → Bool
is_blank [] = true
is_blank (p ∷ ps) = false

unfoldable pub build_plan : List String → List String → Bool → List String → Plan
unfolding allowed enable_all put
build_plan catalog disabled harness_skip marketplaces = record {
  marketplaces = marketplaces;
  units = allowed catalog disabled;
  enabled =
      enable_all (allowed catalog disabled)
        (if harness_skip then no_members else put neuro_matrix (boolean true) no_members);
  configured = not (is_blank catalog);
}

-- The program claude: is it there, what does it list, what do its commands do, and what do those that
-- led to a state make of the settings, which it writes itself?
pub record Claude {ℓ} (W : Type ℓ) : Type ℓ where
  pub runs : Bool
  pub listed : W → Text
  pub add_market : String → W → Bool × W
  pub install : String → W → Bool × W
  pub settings_after : W → File → File

unfoldable pub is_listed : Text → String → Bool
unfolding contains_part base
is_listed listed p = contains_part listed (base (codes p))

unfoldable pub all_listed : Text → List String → Bool
unfolding is_listed
all_listed listed [] = true
all_listed listed (p ∷ ps) =
    let rest = all_listed listed ps in if is_listed listed p then rest else false

unfoldable pub is_true : Option Json → Bool
is_true none = false
is_true (some (boolean b)) = b
is_true (some null) = false
is_true (some (number t)) = false
is_true (some (string t)) = false
is_true (some (array xs)) = false
is_true (some (object m)) = false

-- Is every member of the one true in both?
unfoldable pub all_true_in : Members → Members → Bool
unfolding is_true get
all_true_in no_members n = true
all_true_in (member k v m) n =
    let rest = all_true_in m n in if is_true (some v) && is_true (get k n) then rest else false

-- `reflect.DeepEqual` with a map whose values are all true; a nil map is not equal to it.
unfoldable pub equals_enabled : Option Json → Members → Bool
unfolding all_true_in
equals_enabled (some (object m)) enabled = all_true_in m enabled && all_true_in enabled m
equals_enabled none enabled = false
equals_enabled (some null) enabled = false
equals_enabled (some (boolean b)) enabled = false
equals_enabled (some (number t)) enabled = false
equals_enabled (some (string t)) enabled = false
equals_enabled (some (array xs)) enabled = false

unfoldable pub settings_hold : File → Members → Bool
unfolding exists read_json equals_enabled
settings_hold file enabled = if not (exists file) then true else elim (read_json file) [
  | none ↦ true
  | some m ↦ equals_enabled (get "enabledPlugins" m) enabled
]

unfoldable pub write_enabled : Disk → Members → File → Outcome × File
unfolding exists update_json put
write_enabled d enabled file =
    if not (exists file)
    then (ok, file)
    else update_json d (λ m. some (put "enabledPlugins" (object enabled) m)) file

-- What could not be added, added or installed, how the settings were written, and what is left.
pub record Applied {ℓ} (W : Type ℓ) : Type ℓ where
  pub markets : List String
  pub plugins : List String
  pub wrote : Outcome
  pub settings : File
  pub world : W

module _ {ℓ} {W : Type ℓ} where
  unfoldable pub satisfied : Claude W → Plan → File → W → Bool
  unfolding all_listed settings_hold
  satisfied c plan file w =
      if not c.runs || not plan.configured
      then true
      else if all_listed (c.listed w) plan.units
      then settings_hold file plan.enabled
      else false

  -- A marketplace is always added, so that none counts as there. The settings are read after the
  -- installations.
  unfoldable pub apply : Disk → Claude W → Plan → File → W → Applied W
  unfolding missing is_listed write_enabled
  apply d c plan file w =
      let (markets, added) = missing (λ p. false) c.add_market plan.marketplaces w in
      let (plugins, after) = missing (is_listed (c.listed added)) c.install plan.units added in
      let (wrote, settings) = write_enabled d plan.enabled (c.settings_after after file) in
      if not c.runs || not plan.configured
      then record { markets = []; plugins = []; wrote = ok; settings = file; world = w }
      else record {
        markets = markets;
        plugins = plugins;
        wrote = wrote;
        settings = settings;
        world = after;
      }
