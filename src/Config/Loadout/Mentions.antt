-- ===== src/Config/Loadout/Mentions.antt =====
-- What a manifest comes to: the plugins, servers and tools that it mentions, each once.
use mirabilis.Base.{
  ◌≡◌, refl, ◌∙◌, Bool, true, false, ◌||◌, ◌&&◌, Option, none, some, List, [], ◌∷◌, ◌++◌,
  if◌then◌else◌, arith, Bool-cases, inl, inr, Option-cases, ◌⊎◌, sym, subst,
}
use mirabilis.Text.{Text, codes, text_eq}
use mirabilis.Text.Lines.{text_eq_iff}
use mirabilis.Text.Fields.{fields, contains_text, contains_text-append}
use mirabilis.Config.Catalog.{
  PackKind, pack_plugins, pack_mcp, pack_tools, Pack, find_pack, read_list, read_pack_catalog,
}
use mirabilis.Config.Loadout.Tidy.{IsTidy, apply_lines-IsTidy}
use mirabilis.Config.Loadout.{
  Loadout, append_unique, expand_pack, expand_packs, apply_fields, apply_lines, empty_loadout,
  read_loadout_manifest,
}

contains-append_unique :
    (dst items : List Text) (t : Text)
    → contains_text (append_unique dst items) t ≡ (contains_text dst t || contains_text items t)
unfolding append_unique contains_text
contains-append_unique dst [] t = ground arith
contains-append_unique dst (it ∷ items) t = ground (
  arith,
  contains-append_unique (if contains_text dst it then dst else dst ++ it ∷ []) items t,
  contains_text-append dst (it ∷ []) t,
  text_eq_iff it t,
)

-- The list of a kind.
abbrev pub of_kind : PackKind → Loadout → List Text
of_kind pack_plugins lo = lo.plugins
of_kind pack_mcp lo = lo.mcp
of_kind pack_tools lo = lo.tools

abbrev pub kind_eq : PackKind → PackKind → Bool
kind_eq pack_plugins pack_plugins = true
kind_eq pack_mcp pack_mcp = true
kind_eq pack_tools pack_tools = true
kind_eq _ _ = false

-- The word that begins a line of the kind.
abbrev pub keyword : PackKind → Text
keyword pack_plugins = codes "plugins"
keyword pack_mcp = codes "mcp"
keyword pack_tools = codes "tools"

-- Does one of the packs of that kind hold the item?
pub packs_mention : PackKind → List Pack → List Text → Text → Bool
packs_mention k packs [] t = false
packs_mention k packs (n ∷ names) t =
    elim (find_pack n packs) [ none ↦ false | some p ↦ kind_eq p.kind k && contains_text p.items t ]
    || packs_mention k packs names t

-- Does a line mention the item: after the keyword of the kind, or through a pack?
pub line_mentions : PackKind → List Pack → List Text → Text → Bool
unfolding packs_mention
line_mentions k packs [] t = false
line_mentions k packs (key ∷ args) t =
    (text_eq key (keyword k) && contains_text args t)
    || (text_eq key (codes "packs") && packs_mention k packs args t)

pub manifest_mentions : PackKind → List Pack → List Text → Text → Bool
manifest_mentions k packs [] t = false
manifest_mentions k packs (line ∷ lines) t =
    line_mentions k packs (fields line) t || manifest_mentions k packs lines t

contains-expand_pack :
    (k : PackKind) (p : Pack) (lo : Loadout) (t : Text)
    → contains_text (of_kind k (expand_pack p lo)) t
      ≡ (contains_text (of_kind k lo) t || (kind_eq p.kind k && contains_text p.items t))
unfolding expand_pack
contains-expand_pack k p lo t = ground (
  arith,
  contains-append_unique lo.plugins p.items t,
  contains-append_unique lo.mcp p.items t,
  contains-append_unique lo.tools p.items t,
)

contains-expand_packs :
    (k : PackKind) (packs : List Pack) (names : List Text) (lo : Loadout) (t : Text)
    → contains_text (of_kind k (expand_packs packs names lo)) t
      ≡ (contains_text (of_kind k lo) t || packs_mention k packs names t)
unfolding expand_packs packs_mention
contains-expand_packs k packs [] lo t = ground arith
contains-expand_packs k packs (n ∷ names) lo t = elim (Option-cases (find_pack n packs)) [
  | inl e ↦ ground (arith, e, contains-expand_packs k packs names lo t)
  | inr (p, e) ↦ ground (
    arith,
    e,
    contains-expand_packs k packs names (expand_pack p lo) t,
    contains-expand_pack k p lo t,
  )
]

empty_contains : (t : Text) → contains_text [] t ≡ false
unfolding contains_text
empty_contains t = refl

-- A line adds just what it mentions.
abbrev Mentions : PackKind → List Pack → Text → List Text → Loadout → Text → Type 0
Mentions k packs key args lo t =
    contains_text (of_kind k (apply_fields packs (key ∷ args) lo)) t
    ≡ (contains_text (of_kind k lo) t || line_mentions k packs (key ∷ args) t)

at_effort :
    (k : PackKind) (packs : List Pack) (args : List Text) (lo : Loadout) (t : Text)
    → Mentions k packs (codes "effort") args lo t
unfolding apply_fields line_mentions text_eq
at_effort k packs args lo t = ground (arith)

at_batch :
    (k : PackKind) (packs : List Pack) (args : List Text) (lo : Loadout) (t : Text)
    → Mentions k packs (codes "batch") args lo t
unfolding apply_fields line_mentions text_eq
at_batch k packs args lo t = ground (arith)

at_plugins :
    (k : PackKind) (packs : List Pack) (args : List Text) (lo : Loadout) (t : Text)
    → Mentions k packs (codes "plugins") args lo t
unfolding apply_fields line_mentions text_eq
at_plugins k packs args lo t = ground (arith, contains-append_unique lo.plugins args t)

at_mcp :
    (k : PackKind) (packs : List Pack) (args : List Text) (lo : Loadout) (t : Text)
    → Mentions k packs (codes "mcp") args lo t
unfolding apply_fields line_mentions text_eq
at_mcp k packs args lo t = ground (arith, contains-append_unique lo.mcp args t)

at_tools :
    (k : PackKind) (packs : List Pack) (args : List Text) (lo : Loadout) (t : Text)
    → Mentions k packs (codes "tools") args lo t
unfolding apply_fields line_mentions text_eq
at_tools k packs args lo t = ground (arith, contains-append_unique lo.tools args t)

at_packs :
    (k : PackKind) (packs : List Pack) (args : List Text) (lo : Loadout) (t : Text)
    → Mentions k packs (codes "packs") args lo t
unfolding apply_fields line_mentions text_eq
at_packs k packs args lo t = ground (arith, contains-expand_packs k packs args lo t)

is_word : (key word : Text) → (word ≡ key) ⊎ (text_eq key word ≡ false)
is_word key word = elim (Bool-cases (text_eq key word)) [
  | inl e ↦ inl (sym ((text_eq_iff key word).0 e))
  | inr e ↦ inr e
]

at_other :
    (k : PackKind) (packs : List Pack) (key : Text) (args : List Text) (lo : Loadout) (t : Text)
    → Mentions k packs key args lo t
unfolding apply_fields line_mentions
at_other k packs key args lo t =
    let by = λ (word : Text) (h : Mentions k packs word args lo t) (e : word ≡ key).
      subst (λ w. Mentions k packs w args lo t) e h in
    elim (is_word key (codes "effort")) [
      | inl e ↦ by (codes "effort") (at_effort k packs args lo t) e
      | inr effort ↦ elim (is_word key (codes "batch")) [
        | inl e ↦ by (codes "batch") (at_batch k packs args lo t) e
        | inr batch ↦ elim (is_word key (codes "plugins")) [
          | inl e ↦ by (codes "plugins") (at_plugins k packs args lo t) e
          | inr plugins ↦ elim (is_word key (codes "mcp")) [
            | inl e ↦ by (codes "mcp") (at_mcp k packs args lo t) e
            | inr mcp ↦ elim (is_word key (codes "tools")) [
              | inl e ↦ by (codes "tools") (at_tools k packs args lo t) e
              | inr tools ↦ elim (is_word key (codes "packs")) [
                | inl e ↦ by (codes "packs") (at_packs k packs args lo t) e
                | inr other ↦ ground arith
              ]
            ]
          ]
        ]
      ]
    ]

contains-apply_fields :
    (k : PackKind) (packs : List Pack) (words : List Text) (lo : Loadout) (t : Text)
    → contains_text (of_kind k (apply_fields packs words lo)) t
      ≡ (contains_text (of_kind k lo) t || line_mentions k packs words t)
contains-apply_fields k packs [] lo t = unfold apply_fields line_mentions in ground arith
contains-apply_fields k packs (key ∷ args) lo t = at_other k packs key args lo t

contains-apply_lines :
    (k : PackKind) (packs : List Pack) (lines : List Text) (lo : Loadout) (t : Text)
    → contains_text (of_kind k (apply_lines packs lines lo)) t
      ≡ (contains_text (of_kind k lo) t || manifest_mentions k packs lines t)
unfolding apply_lines manifest_mentions
contains-apply_lines k packs [] lo t = ground arith
contains-apply_lines k packs (line ∷ lines) lo t = ground (
  arith,
  contains-apply_lines k packs lines (apply_fields packs (fields line) lo) t,
  contains-apply_fields k packs (fields line) lo t,
)

-- A loadout that is read from its manifest lists its plugins, MCP servers and tools each once, and
-- lists just those that a line of the manifest mentions, by itself or through a pack that the
-- catalog knows and that is of the same kind.
pub manifest_lists :
    (packs : Option Text) (n file : Text) (k : PackKind) (t : Text)
    → let lo = (read_loadout_manifest packs n (some file)).0 in
      IsTidy lo
      × (contains_text (of_kind k lo) t
          ≡ manifest_mentions k (read_pack_catalog packs) (read_list (some file)) t)
unfolding read_loadout_manifest
manifest_lists packs n file k t = (
  apply_lines-IsTidy (read_pack_catalog packs) (read_list (some file)) (empty_loadout n)
      (record { plugins = tt; mcp = tt; tools = tt }),
  contains-apply_lines k (read_pack_catalog packs) (read_list (some file)) (empty_loadout n) t
      ∙ nothing_before k,
)
  where
    nothing_before :
        (k : PackKind)
        → (contains_text (of_kind k (empty_loadout n)) t
            || manifest_mentions k (read_pack_catalog packs) (read_list (some file)) t)
          ≡ manifest_mentions k (read_pack_catalog packs) (read_list (some file)) t
    nothing_before k = ground (arith, empty_contains t)
