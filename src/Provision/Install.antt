-- ===== src/Provision/Install.antt =====
-- Installing what is missing: `Missing` of internal/engine/provision/reconcile, and the installers of
-- internal/engine/provision/skills/skills.go and plugins/plugins.go. The programs gh and claude are
-- records that act on a state of any type; the text of an error is left out.
pub mod Missing
pub mod Done
mod Examples
use mirabilis.Base.{
  String, Bool, true, false, not, ◌||◌, ◌&&◌, Option, none, some, is_some, is_none, List, [], ◌∷◌,
  ◌++◌, map, if◌then◌else◌, ◌==◌, contains,
}
use mirabilis.Text.{Text, codes, text_eq, cut_prefix, has_prefix}
use mirabilis.Text.Fields.{contains_text}
use mirabilis.Config.Catalog.{SkillGroup}
use mirabilis.Provision.Json.{
  Json, boolean, object, null, number, string, array, Members, no_members, member, get, put,
}
use mirabilis.Provision.Home.{
  File, Outcome, ok, failed, panicked, Disk, exists, read_json, update_json,
}

-- The items whose installation failed, and the state afterwards.
unfoldable pub missing {ℓ κ} :
    {T : Type ℓ} {W : Type κ} → (T → Bool) → (T → W → Bool × W) → List T → W → List T × W
missing have install [] w = ([], w)
missing have install (t ∷ ts) w =
    let skipped = missing have install ts w in
    let (installed, after) = install t w in
    let rest = missing have install ts after in
    if have t then skipped else if installed then rest else (t ∷ rest.0, rest.1)

pub record Skill : Type 0 where
  pub repo : Text
  pub skill : Text

-- The skills of the selected groups.
unfoldable pub units : List SkillGroup → List Text → List Skill
unfolding contains_text
units [] selected = []
units (g ∷ gs) selected =
    let rest = units gs selected in
    if contains_text selected g.name
    then map (λ s. record { repo = g.repo; skill = s }) g.skills ++ rest
    else rest

-- `strings.TrimSuffix`
unfoldable pub trim_suffix : Text → Text → Text
unfolding text_eq
trim_suffix end [] = []
trim_suffix end (c ∷ s) =
    let rest = trim_suffix end s in if text_eq (c ∷ s) end then [] else c ∷ rest

-- `strings.TrimPrefix`
unfoldable pub trim_prefix : Text → Text → Text
trim_prefix start s = elim (cut_prefix s start) [ none ↦ s | some rest ↦ rest ]

unfoldable pub repo_slug : Text → Text
unfolding trim_suffix trim_prefix
repo_slug url = trim_prefix (codes "http://github.com/") (
    trim_prefix (codes "https://github.com/")
      (trim_suffix (codes "/") (trim_suffix (codes ".git") url)))

-- What gh lists of a skill.
pub record Item : Type 0 where
  pub name : Text
  pub url : Text

-- The program gh: does it run, what does it list, if that can be decoded, and what does an installation do?
pub record Gh {ℓ} (W : Type ℓ) : Type ℓ where
  pub runs : Bool
  pub listed : W → Option (List Item)
  pub install : Skill → W → Bool × W

-- `have[u]`
unfoldable pub has_skill : List Item → Skill → Bool
unfolding repo_slug text_eq
has_skill [] u = false
has_skill (i ∷ is_) u =
    let rest = has_skill is_ u in
    if text_eq (repo_slug i.url) u.repo && text_eq i.name u.skill then true else rest

unfoldable pub installed : Option (List Item) → Skill → Bool
unfolding has_skill
installed none u = false
installed (some is_) u = has_skill is_ u

unfoldable pub has_all : Option (List Item) → List Skill → Bool
unfolding installed
has_all listed [] = true
has_all listed (u ∷ us) = let rest = has_all listed us in if installed listed u then rest else false

module _ {ℓ} {W : Type ℓ} where
  unfoldable pub skills_satisfied : Gh W → List Skill → W → Bool
  unfolding has_all
  skills_satisfied g [] w = true
  skills_satisfied g (u ∷ us) w = if not g.runs then true else has_all (g.listed w) (u ∷ us)

  unfoldable pub apply_skills : Gh W → List Skill → W → List Skill × W
  unfolding missing installed
  apply_skills g [] w = ([], w)
  apply_skills g (u ∷ us) w =
      let done = missing (installed (g.listed w)) g.install (u ∷ us) w in
      if not g.runs then ([], w) else done
