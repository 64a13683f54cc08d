-- ===== src/Config/Examples.antt =====
-- The laws of the configuration on small files.
use mirabilis.Base.{◌≡◌, refl, none, some, [], ◌∷◌, if◌then◌else◌, arith}
use mirabilis.Text.{Text, codes, text_eq, trim_space}
use mirabilis.Text.Fields.{contains_text}
use mirabilis.Config.Env.{content, env_read, env_write}
use mirabilis.Config.Env.Laws.{env_read-env_write}
use mirabilis.Config.Catalog.{PackKind, pack_mcp, read_list, read_pack_catalog}
use mirabilis.Config.Loadout.{Loadout, read_loadout_manifest}
use mirabilis.Config.Loadout.Mentions.{manifest_lists, manifest_mentions}
use mirabilis.Config.Loadout.Tidy.{IsTidy}
use mirabilis.Config.Tune.{Repo}

abbrev env_text : Text
env_text = codes "EFFORT=low\nBATCH=1\nLOADOUT=solo\n"

abbrev packs_text : Text
packs_text = codes "base mcp memory browser\nextra tools lint\n"

abbrev solo : Text
solo = codes "batch on\neffort high\npacks base\nmcp browser files\n"

abbrev repo : Repo
repo = record {
  env = content env_text;
  packs = some packs_text;
  manifests = λ n. if text_eq n (codes "solo") then some solo else none;
}

env_read-env_write_example :
    env_read (codes "EFFORT") (env_write (codes "BATCH") (codes " 0 ") (content env_text))
    ≡ env_read (codes "EFFORT") (content env_text)
unfolding env_read text_eq
env_read-env_write_example =
    env_read-env_write (codes "EFFORT") (codes "BATCH") (codes " 0 ") (content env_text)
      (omega arith) (omega arith) (omega arith)

manifest_lists_example :
    let lo = (read_loadout_manifest (some packs_text) (codes "solo") (some solo)).0 in
    IsTidy lo
    × (contains_text lo.mcp (codes "memory")
        ≡ manifest_mentions pack_mcp
            (read_pack_catalog (some packs_text))
            (read_list (some solo))
            (codes "memory"))
manifest_lists_example =
    manifest_lists (some packs_text) (codes "solo") solo pack_mcp (codes "memory")

-- The browser is listed once, though the manifest and the pack both name it.
solo_mcp :
    (read_loadout_manifest (some packs_text) (codes "solo") (some solo)).0.mcp
    ≡ codes "memory" ∷ codes "browser" ∷ codes "files" ∷ []
unfolding read_loadout_manifest read_list mirabilis.Config.Loadout.apply_fields
    mirabilis.Text.Fields.fields text_eq mirabilis.Config.Loadout.append_unique contains_text
    read_pack_catalog mirabilis.Config.Loadout.expand_packs mirabilis.Config.Catalog.find_pack
    mirabilis.Config.Loadout.expand_pack
solo_mcp = refl
