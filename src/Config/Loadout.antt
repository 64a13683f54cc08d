-- ===== src/Config/Loadout.antt =====
-- `ReadLoadoutManifest`, `expandPacks` and `appendUnique` of internal/engine/config/config.go.
pub mod Tidy
pub mod Mentions
use mirabilis.Base.{
  Bool, true, false, Option, none, some, List, [], ◌∷◌, ◌++◌, if◌then◌else◌, ◌==◌, ℕ,
}
use mirabilis.Text.{Text, codes, text_eq}
use mirabilis.Text.Fields.{fields, contains_text}
use mirabilis.Config.Catalog.{
  PackKind, pack_plugins, pack_mcp, pack_tools, Pack, find_pack, read_list, read_pack_catalog,
}

pub record Loadout : Type 0 where
  pub name : Text
  pub effort : Text
  pub batch : Bool
  pub plugins : List Text
  pub mcp : List Text
  pub tools : List Text

unfoldable pub append_unique : List Text → List Text → List Text
append_unique dst [] = dst
append_unique dst (it ∷ items) =
    append_unique (if contains_text dst it then dst else dst ++ it ∷ []) items

-- The `switch` on the kind of a pack.
unfoldable pub expand_pack : Pack → Loadout → Loadout
unfolding append_unique
expand_pack p lo = elim p.kind [
  | pack_plugins ↦ record lo { plugins = append_unique lo.plugins p.items }
  | pack_mcp ↦ record lo { mcp = append_unique lo.mcp p.items }
  | pack_tools ↦ record lo { tools = append_unique lo.tools p.items }
]

unfoldable pub expand_packs : List Pack → List Text → Loadout → Loadout
expand_packs packs [] lo = lo
expand_packs packs (n ∷ names) lo =
    expand_packs packs names (elim (find_pack n packs) [ none ↦ lo | some p ↦ expand_pack p lo ])

abbrev pub first_or : Text → List Text → Text
first_or d [] = d
first_or d (x ∷ xs) = x

abbrev pub first_is_on : List Text → Bool
first_is_on [] = false
first_is_on (x ∷ xs) = text_eq x (codes "on")

-- The `switch` on the first field of a line.
unfoldable pub apply_fields : List Pack → List Text → Loadout → Loadout
apply_fields packs [] lo = lo
apply_fields packs (key ∷ args) lo =
    if text_eq key (codes "effort")
    then record lo { effort = first_or lo.effort args }
    else if text_eq key (codes "batch")
    then record lo { batch = first_is_on args }
    else if text_eq key (codes "plugins")
    then record lo { plugins = append_unique lo.plugins args }
    else if text_eq key (codes "mcp")
    then record lo { mcp = append_unique lo.mcp args }
    else if text_eq key (codes "tools")
    then record lo { tools = append_unique lo.tools args }
    else if text_eq key (codes "packs")
    then expand_packs packs args lo
    else lo

unfoldable pub apply_lines : List Pack → List Text → Loadout → Loadout
apply_lines packs [] lo = lo
apply_lines packs (line ∷ lines) lo = apply_lines packs lines (apply_fields packs (fields line) lo)

abbrev pub empty_loadout : Text → Loadout
empty_loadout n = record {
  name = n;
  effort = [];
  batch = false;
  plugins = [];
  mcp = [];
  tools = [];
}

-- The manifest of a name, from the catalog of packs and its file, and whether there is one.
unfoldable pub read_loadout_manifest : Option Text → Text → Option Text → Loadout × Bool
unfolding apply_lines
read_loadout_manifest packs_file n none = (empty_loadout [], false)
read_loadout_manifest packs_file n (some file) =
    (apply_lines (read_pack_catalog packs_file) (read_list (some file)) (empty_loadout n), true)
