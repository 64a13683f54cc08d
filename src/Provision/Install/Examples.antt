-- ===== src/Provision/Install/Examples.antt =====
-- A gh that installs what it is asked for (internal/engine/provision/skills/skills.go).
use mirabilis.Base.{◌≡◌, refl, sym, subst, true, some, List, [], ◌∷◌, map, Memᴰ, All}
use mirabilis.Text.{codes, text_eq, cut_prefix}
use mirabilis.Provision.Install.{
  missing, Skill, trim_suffix, trim_prefix, repo_slug, Gh, has_skill, installed, skills_satisfied,
  apply_skills,
}
use mirabilis.Provision.Install.Done.{item_of, GhLaws, IsRepo, apply_skills-satisfied}

-- Its state is what is installed.
abbrev gh : Gh (List Skill)
gh = record { runs = true; listed = λ w. some (map item_of w); install = λ u w. (true, u ∷ w) }

some-injective : {A : Type 0} {a b : A} → some a ≡ some b → a ≡ b
some-injective e = cc

laws : GhLaws gh
laws = record {
  lists = λ w. (map item_of w, refl);
  keeps = λ u w i old new e f m.
      subst (Memᴰ i) (some-injective f) (Memᴰ.tail (subst (Memᴰ i) (sym (some-injective e)) m));
  adds = λ u w new h f. subst (Memᴰ (item_of u)) (some-injective f) (Memᴰ.head refl);
}

abbrev review : Skill
review = record { repo = codes "a/b"; skill = codes "review" }

abbrev plan : Skill
plan = record { repo = codes "a/b"; skill = codes "plan" }

repos : All IsRepo (review ∷ plan ∷ [])
unfolding repo_slug trim_suffix trim_prefix text_eq cut_prefix
repos = (refl, (refl, tt))

-- One of two skills is there already.
no_errors : (apply_skills gh (review ∷ plan ∷ []) (plan ∷ [])).0 ≡ []
unfolding apply_skills missing installed has_skill repo_slug trim_suffix trim_prefix text_eq
    cut_prefix
no_errors = refl

apply_skills-satisfied_example :
    (skills_satisfied gh (review ∷ plan ∷ []) (apply_skills gh (review ∷ plan ∷ []) (plan ∷ [])).1
      ≡ true)
    × (apply_skills gh (review ∷ plan ∷ []) (apply_skills gh (review ∷ plan ∷ []) (plan ∷ [])).1
        ≡ ([], (apply_skills gh (review ∷ plan ∷ []) (plan ∷ [])).1))
apply_skills-satisfied_example =
    apply_skills-satisfied gh laws (review ∷ plan ∷ []) (plan ∷ []) repos no_errors
