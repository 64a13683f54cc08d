-- ===== src/Provision/Install/Done.antt =====
-- After an installation without errors, nothing is missing: internal/engine/provision/skills/skills.go.
use mirabilis.Base.{
  true, false, ◌&&◌, Option, some, List, [], ◌∷◌, ◌++◌, ◌≡◌, refl, ap, sym, ◌∙◌, subst, arith, All,
  Memᴰ, Bool-cases, inl, inr,
}
use mirabilis.Text.{codes, text_eq}
use mirabilis.Text.Lines.{text_eq_iff}
use mirabilis.Provision.Install.Missing.{missing-has, missing-idle}
use mirabilis.Provision.Install.{
  missing, Skill, repo_slug, Item, Gh, has_skill, installed, has_all, skills_satisfied,
  apply_skills,
}

-- What gh lists of an installed skill, by the repository that it was installed from.
abbrev pub item_of : Skill → Item
item_of u = record { name = u.skill; url = codes "https://github.com/" ++ u.repo }

-- What the documentation of gh says: it can list its skills; an installation keeps what is listed; and one
-- that succeeds lists the skill, with the address of its repository.
pub record GhLaws {ℓ} {W : Type ℓ} (g : Gh W) : Type ℓ where
  pub lists : (w : W) → (items : List Item) × (g.listed w ≡ some items)
  pub keeps :
      (u : Skill) (w : W) (i : Item) (old new : List Item)
      → g.listed w ≡ some old
      → g.listed (g.install u w).1 ≡ some new
      → Memᴰ i old
      → Memᴰ i new
  pub adds :
      (u : Skill) (w : W) (new : List Item)
      → (g.install u w).0 ≡ true
      → g.listed (g.install u w).1 ≡ some new
      → Memᴰ (item_of u) new

-- A repository that is found again from its address.
abbrev pub IsRepo : Skill → Type 0
IsRepo u = repo_slug (item_of u).url ≡ u.repo

has_skill-Mem :
    (items : List Item) (i : Item) (u : Skill)
    → Memᴰ i items
    → repo_slug i.url ≡ u.repo
    → i.name ≡ u.skill
    → has_skill items u ≡ true
unfolding has_skill
has_skill-Mem [] i u m e f = elim m [ ]
has_skill-Mem (j ∷ items) i u (Memᴰ.head s) e f =
    let slug =
      (text_eq_iff (repo_slug j.url) u.repo).1 (subst (λ k. repo_slug k.url ≡ u.repo) s e) in
    let name = (text_eq_iff j.name u.skill).1 (subst (λ k. k.name ≡ u.skill) s f) in
    rw (slug, name) refl
has_skill-Mem (j ∷ items) i u (Memᴰ.tail m) e f = rw (has_skill-Mem items i u m e f) (ground arith)

mem-has_skill :
    (items : List Item) (u : Skill)
    → has_skill items u ≡ true
    → (i : Item) × (Memᴰ i items × ((repo_slug i.url ≡ u.repo) × (i.name ≡ u.skill)))
unfolding has_skill
mem-has_skill [] u h = cc
mem-has_skill (j ∷ items) u h =
    elim (Bool-cases (text_eq (repo_slug j.url) u.repo && text_eq j.name u.skill)) [
      | inl e ↦ (
        j,
        (
          Memᴰ.head refl,
          (
            ground (arith, e, text_eq_iff (repo_slug j.url) u.repo),
            ground (arith, e, text_eq_iff j.name u.skill),
          ),
        ),
      )
      | inr e ↦
          let (i, (m, p)) = mem-has_skill items u (ground (arith, e, h)) in (i, (Memᴰ.tail m, p))
    ]

has_all-All :
    (listed : Option (List Item)) (us : List Skill)
    → All (λ u. installed listed u ≡ true) us
    → has_all listed us ≡ true
unfolding has_all
has_all-All listed [] h = refl
has_all-All listed (u ∷ us) h = rw h.0 (has_all-All listed us h.1)

module _ {ℓ} {W : Type ℓ} (g : Gh W) (laws : GhLaws g) where
  -- A skill that is installed stays so.
  installed-install :
      (u v : Skill) (w : W)
      → installed (g.listed w) v ≡ true
      → installed (g.listed (g.install u w).1) v ≡ true
  unfolding installed
  installed-install u v w h =
      let (old, e) = laws.lists w in
      let (new, f) = laws.lists (g.install u w).1 in
      let (i, (m, (p, q))) = mem-has_skill old v (rw e at h) in
      rw f (has_skill-Mem new i v (laws.keeps u w i old new e f m) p q)

  installed_self :
      (u : Skill) (w : W)
      → IsRepo u
      → (g.install u w).0 ≡ true
      → installed (g.listed (g.install u w).1) u ≡ true
  unfolding installed
  installed_self u w r h =
      let (new, f) = laws.lists (g.install u w).1 in
      rw f (has_skill-Mem new (item_of u) u (laws.adds u w new h f) r refl)

  apply_skills-missing :
      (u : Skill) (us : List Skill) (w : W)
      → g.runs ≡ true
      → apply_skills g (u ∷ us) w ≡ missing (installed (g.listed w)) g.install (u ∷ us) w
  unfolding apply_skills
  apply_skills-missing u us w e = rw e refl

  skills_satisfied-has_all :
      (u : Skill) (us : List Skill) (w : W)
      → has_all (g.listed w) (u ∷ us) ≡ true
      → skills_satisfied g (u ∷ us) w ≡ true
  unfolding skills_satisfied
  skills_satisfied-has_all u us w h = elim (Bool-cases g.runs) [
    | inl e ↦ rw e h
    | inr e ↦ rw e refl
  ]

  apply_skills-idle :
      (u : Skill) (us : List Skill) (w : W)
      → g.runs ≡ false
      → (apply_skills g (u ∷ us) w ≡ ([], w)) × (skills_satisfied g (u ∷ us) w ≡ true)
  unfolding apply_skills skills_satisfied
  apply_skills-idle u us w e = (rw e refl, rw e refl)

  -- What is to be shown of what a run returns.
  abbrev IsDone : List Skill → List Skill × W → Type ℓ
  IsDone us p = (skills_satisfied g us p.1 ≡ true) × (apply_skills g us p.1 ≡ ([], p.1))

  -- A run of the skills step without errors leaves nothing to install: the check is satisfied, and a second
  -- run installs nothing. (What is assumed of gh is what its documentation says, and each repository
  -- is found again from its address.)
  pub apply_skills-satisfied :
      (us : List Skill) (w : W)
      → All IsRepo us
      → (apply_skills g us w).0 ≡ []
      → (skills_satisfied g us (apply_skills g us w).1 ≡ true)
        × (apply_skills g us (apply_skills g us w).1 ≡ ([], (apply_skills g us w).1))
  unfolding apply_skills skills_satisfied
  apply_skills-satisfied [] w r h = (refl, refl)
  apply_skills-satisfied (u ∷ us) w r h = elim (Bool-cases g.runs) [
    | inl e ↦ subst (IsDone (u ∷ us)) (sym (apply_skills-missing u us w e)) (done e)
    | inr e ↦
        let (same, s) = apply_skills-idle u us w e in subst (IsDone (u ∷ us)) (sym same) (s, same)
  ]
    where
      done : g.runs ≡ true → IsDone (u ∷ us) (missing (installed (g.listed w)) g.install (u ∷ us) w)
      done e =
          let have = installed (g.listed w) in
          let after = (missing have g.install (u ∷ us) w).1 in
          let all =
            missing-has (λ s. installed (g.listed s)) g.install installed-install IsRepo
              installed_self have (u ∷ us) w r
              (ap (λ p. p.0) (sym (apply_skills-missing u us w e)) ∙ h) (λ v j. j) in
          (
            skills_satisfied-has_all u us after (has_all-All (g.listed after) (u ∷ us) all),
            apply_skills-missing u us after e
                ∙ missing-idle (λ s. installed (g.listed s)) g.install installed-install
                    (installed (g.listed after)) (u ∷ us) after all,
          )
