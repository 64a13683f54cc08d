-- ===== src/Config/Loadout/Tidy.antt =====
-- The lists of a loadout hold nothing twice.
use mirabilis.Base.{List, [], ◌∷◌, ◌++◌, arith, Bool-cases, inl, inr, Option-cases}
use mirabilis.Text.{Text}
use mirabilis.Text.Fields.{fields, contains_text, IsUnique, IsUnique-append_one}
use mirabilis.Config.Catalog.{PackKind, pack_plugins, pack_mcp, pack_tools, Pack, find_pack}
use mirabilis.Config.Loadout.{
  Loadout, append_unique, expand_pack, expand_packs, apply_fields, apply_lines,
}

append_unique-IsUnique : (dst items : List Text) → IsUnique dst → IsUnique (append_unique dst items)
unfolding append_unique
append_unique-IsUnique dst [] u = u
append_unique-IsUnique dst (it ∷ items) u = elim (Bool-cases (contains_text dst it)) [
  | inl e ↦ rw e (append_unique-IsUnique dst items u)
  | inr e ↦ rw e (append_unique-IsUnique (dst ++ it ∷ []) items (IsUnique-append_one dst it u e))
]

-- No list of the loadout names anything twice.
pub record IsTidy (lo : Loadout) : Type 0 where
  pub plugins : IsUnique lo.plugins
  pub mcp : IsUnique lo.mcp
  pub tools : IsUnique lo.tools

expand_pack-IsTidy : (p : Pack) (lo : Loadout) → IsTidy lo → IsTidy (expand_pack p lo)
unfolding expand_pack
expand_pack-IsTidy p lo h = go p.kind
  where
    go : (k : PackKind) → IsTidy (expand_pack (record p { kind = k }) lo)
    go pack_plugins = record {
      plugins = append_unique-IsUnique lo.plugins p.items h.plugins;
      mcp = h.mcp;
      tools = h.tools;
    }
    go pack_mcp = record {
      plugins = h.plugins;
      mcp = append_unique-IsUnique lo.mcp p.items h.mcp;
      tools = h.tools;
    }
    go pack_tools = record {
      plugins = h.plugins;
      mcp = h.mcp;
      tools = append_unique-IsUnique lo.tools p.items h.tools;
    }

expand_packs-IsTidy :
    (packs : List Pack) (names : List Text) (lo : Loadout)
    → IsTidy lo
    → IsTidy (expand_packs packs names lo)
unfolding expand_packs
expand_packs-IsTidy packs [] lo h = h
expand_packs-IsTidy packs (n ∷ names) lo h = elim (Option-cases (find_pack n packs)) [
  | inl e ↦ rw (e, expand_packs) (expand_packs-IsTidy packs names lo h)
  | inr (p, e) ↦
      rw (e, expand_packs)
        (expand_packs-IsTidy packs names (expand_pack p lo) (expand_pack-IsTidy p lo h))
]

apply_fields-IsTidy :
    (packs : List Pack) (words : List Text) (lo : Loadout)
    → IsTidy lo
    → IsTidy (apply_fields packs words lo)
unfolding apply_fields
apply_fields-IsTidy packs [] lo h = h
apply_fields-IsTidy packs (key ∷ args) lo h = ground (
  arith,
  append_unique-IsUnique lo.plugins args h.plugins,
  append_unique-IsUnique lo.mcp args h.mcp,
  append_unique-IsUnique lo.tools args h.tools,
  expand_packs-IsTidy packs args lo h,
)

pub apply_lines-IsTidy :
    (packs : List Pack) (lines : List Text) (lo : Loadout)
    → IsTidy lo
    → IsTidy (apply_lines packs lines lo)
unfolding apply_lines
apply_lines-IsTidy packs [] lo h = h
apply_lines-IsTidy packs (line ∷ lines) lo h =
    apply_lines-IsTidy packs lines _ (apply_fields-IsTidy packs (fields line) lo h)
