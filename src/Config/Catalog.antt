-- ===== src/Config/Catalog.antt =====
-- `readList`, `ReadPackCatalog`, `SkillGroupsFrom` and `ReadSkillCatalog` of
-- internal/engine/config/config.go.
use mirabilis.Base.{Option, none, some, List, [], ◌∷◌, map, if◌then◌else◌, ◌==◌}
use mirabilis.Text.{Text, codes, text_eq, split_lines, trim_space}
use mirabilis.Text.Fields.{fields}

-- A trimmed line that is neither blank nor a comment goes before the rest.
unfoldable pub list_line : Text → List Text → List Text
list_line [] rest = rest
list_line (c ∷ s) rest = if c == b'#' then rest else (c ∷ s) ∷ rest

-- The loop of `readList`.
unfoldable pub list_lines : List Text → List Text
unfolding list_line trim_space
list_lines [] = []
list_lines (line ∷ lines) = list_line (trim_space line) (list_lines lines)

-- A file that cannot be read has no entry.
unfoldable pub read_list : Option Text → List Text
unfolding list_lines split_lines
read_list none = []
read_list (some file) = list_lines (split_lines file)

pub data PackKind : Type 0 where
  pack_plugins pack_mcp pack_tools : PackKind

unfoldable pub pack_kind : Text → Option PackKind
unfolding text_eq
pack_kind k =
    if text_eq k (codes "plugins")
    then some pack_plugins
    else if text_eq k (codes "mcp")
    then some pack_mcp
    else if text_eq k (codes "tools")
    then some pack_tools
    else none

pub record Pack : Type 0 where
  pub name : Text
  pub kind : PackKind
  pub items : List Text

-- A line of the catalog, if it names a pack of a known kind.
unfoldable pub pack_of : List Text → Option Pack
unfolding pack_kind
pack_of [] = none
pack_of (n ∷ []) = none
pack_of (n ∷ k ∷ items) = elim (pack_kind k) [
  | none ↦ none
  | some kind ↦ some (record { name = n; kind = kind; items = items })
]

-- The map of the catalog: the last line of a name counts, so it stands first.
unfoldable pub pack_catalog : List Text → List Pack → List Pack
unfolding pack_of fields
pack_catalog [] packs = packs
pack_catalog (line ∷ lines) packs =
    pack_catalog lines (elim (pack_of (fields line)) [ none ↦ packs | some p ↦ p ∷ packs ])

unfoldable pub read_pack_catalog : Option Text → List Pack
unfolding pack_catalog read_list
read_pack_catalog file = pack_catalog (read_list file) []

unfoldable pub find_pack : Text → List Pack → Option Pack
unfolding text_eq
find_pack n [] = none
find_pack n (p ∷ packs) = let rest = find_pack n packs in if text_eq p.name n then some p else rest

pub record SkillGroup : Type 0 where
  pub name : Text
  pub repo : Text
  pub skills : List Text

unfoldable pub skill_group : List Text → Option SkillGroup
skill_group [] = none
skill_group (n ∷ []) = some (record { name = n; repo = []; skills = [] })
skill_group (n ∷ r ∷ skills) = some (record { name = n; repo = r; skills = skills })

unfoldable pub skill_groups : List Text → List SkillGroup
unfolding skill_group fields
skill_groups [] = []
skill_groups (line ∷ lines) =
    let rest = skill_groups lines in
    elim (skill_group (fields line)) [ none ↦ rest | some g ↦ g ∷ rest ]

unfoldable pub read_skill_catalog : Option Text → List Text
unfolding skill_groups read_list
read_skill_catalog file = map (λ g. g.name) (skill_groups (read_list file))
