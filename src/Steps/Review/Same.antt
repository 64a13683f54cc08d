-- ===== src/Steps/Review/Same.antt =====
-- When two manifests say the same: internal/engine/steps/review.go.
use mirabilis.Base.{
  subst, sym, ℕ, true, Option, none, some, List, [], ◌∷◌, ◌≡◌, ◌↔◌, refl, arith, length, Permᴰ,
  Option-cases, inl, inr,
}
use mathlib.Core.List.Permᴰ
use mirabilis.Text.{Text}
use mirabilis.Text.Lines.{text_eq_iff}
use mirabilis.Text.Sorting.{sort, sort-same_iff}
use mirabilis.Steps.Review.{
  ManifestRepo, lists_equal, sets_equal, each_equal, manifest_repos_equal, Root, collect,
  ManifestFile, unreadable_manifest, garbled_manifest, manifest, harvest_check, harvested,
  harvest_run, present_run,
}

lists_equal_iff : (xs ys : List Text) → (lists_equal xs ys ≡ true) ↔ (xs ≡ ys)
unfolding lists_equal
lists_equal_iff [] [] = (λ h. refl, λ h. refl)
lists_equal_iff [] (y ∷ ys) = (λ h. cc, λ h. cc)
lists_equal_iff (x ∷ xs) [] = (λ h. cc, λ h. cc)
lists_equal_iff (x ∷ xs) (y ∷ ys) = (
  λ h. ground (arith, h, lists_equal_iff xs ys, text_eq_iff x y),
  λ h. ground (arith, h, lists_equal_iff xs ys, text_eq_iff x y),
)

length-perm : {xs ys : List Text} → Permᴰ xs ys → length xs ≡ length ys
length-perm Permᴰ.nil = refl
length-perm (Permᴰ.cons e p) = omega (arith, length-perm p)
length-perm (Permᴰ.swap e f) = omega arith
length-perm (Permᴰ.trans p q) = omega (arith, length-perm p, length-perm q)

sets_equal_iff : (xs ys : List Text) → (sets_equal xs ys ≡ true) ↔ Permᴰ xs ys
unfolding sets_equal
sets_equal_iff xs ys = (forward, back)
  where
    forward : sets_equal xs ys ≡ true → Permᴰ xs ys
    forward h = (sort-same_iff xs ys).0 (ground (arith, h, lists_equal_iff (sort xs) (sort ys)))

    back : Permᴰ xs ys → sets_equal xs ys ≡ true
    back p =
        ground
          (arith, length-perm p, (sort-same_iff xs ys).1 p, lists_equal_iff (sort xs) (sort ys))

-- The same repositories in the same order, their changed files in any order.
abbrev pub SameRepos : List ManifestRepo → List ManifestRepo → Type 0
SameRepos [] [] = Unit
SameRepos [] (b ∷ bs) = ⊥
SameRepos (a ∷ as_) [] = ⊥
SameRepos (a ∷ as_) (b ∷ bs) =
    ((a.name ≡ b.name) × ((a.dir ≡ b.dir) × ((a.diff ≡ b.diff) × Permᴰ a.files b.files)))
    × SameRepos as_ bs

each_equal_sound :
    (as_ bs : List ManifestRepo)
    → length as_ ≡ length bs
    → each_equal as_ bs ≡ true
    → SameRepos as_ bs
unfolding each_equal
each_equal_sound [] [] l h = tt
each_equal_sound [] (b ∷ bs) l h = absurd (omega (arith, l))
each_equal_sound (a ∷ as_) [] l h = absurd (omega (arith, l))
each_equal_sound (a ∷ as_) (b ∷ bs) l h = (
  (
    ground (arith, h, text_eq_iff a.name b.name),
    (
      ground (arith, h, text_eq_iff a.dir b.dir),
      (
        ground (arith, h, text_eq_iff a.diff b.diff),
        (sets_equal_iff a.files b.files).0 (ground (arith, h)),
      ),
    ),
  ),
  each_equal_sound as_ bs (omega (arith, l)) (ground (arith, h)),
)

each_equal_complete :
    (as_ bs : List ManifestRepo)
    → SameRepos as_ bs
    → (length as_ ≡ length bs) × (each_equal as_ bs ≡ true)
unfolding each_equal
each_equal_complete [] [] h = (refl, refl)
each_equal_complete [] (b ∷ bs) h = absurd h
each_equal_complete (a ∷ as_) [] h = absurd h
each_equal_complete (a ∷ as_) (b ∷ bs) ((n, (d, (f, p))), h) =
    let (l, e) = each_equal_complete as_ bs h in
    let s = (sets_equal_iff a.files b.files).1 p in
    (
      omega (arith, l),
      ground (
        arith,
        e,
        s,
        (text_eq_iff a.name b.name).1 n,
        (text_eq_iff a.dir b.dir).1 d,
        (text_eq_iff a.diff b.diff).1 f,
      ),
    )

pub manifest_repos_equal_iff :
    (as_ bs : List ManifestRepo) → (manifest_repos_equal as_ bs ≡ true) ↔ SameRepos as_ bs
unfolding manifest_repos_equal
manifest_repos_equal_iff as_ bs = (forward, back)
  where
    forward : manifest_repos_equal as_ bs ≡ true → SameRepos as_ bs
    forward h = each_equal_sound as_ bs (ground (arith, h)) (ground (arith, h))

    back : SameRepos as_ bs → manifest_repos_equal as_ bs ≡ true
    back h = let (l, e) = each_equal_complete as_ bs h in ground (arith, l, e)

SameRepos-refl : (rs : List ManifestRepo) → SameRepos rs rs
SameRepos-refl [] = tt
SameRepos-refl (r ∷ rs) = ((refl, (refl, (refl, Permᴰ.refl r.files))), SameRepos-refl rs)

manifest_check_iff :
    (root : Root) (repos : List ManifestRepo)
    → (harvest_check root (manifest repos) ≡ true)
      ↔ ((current : List ManifestRepo) × ((collect root ≡ some current) × SameRepos repos current))
unfolding harvest_check
manifest_check_iff root repos = (forward, back)
  where
    forward :
        harvest_check root (manifest repos) ≡ true
        → (current : List ManifestRepo) × ((collect root ≡ some current) × SameRepos repos current)
    forward h = elim (Option-cases (collect root)) [
      | inl e ↦ absurd (ground (arith, e, h))
      | inr (current, e) ↦
          (current, (e, (manifest_repos_equal_iff repos current).0 (ground (arith, e, h))))
    ]

    back :
        (current : List ManifestRepo) × ((collect root ≡ some current) × SameRepos repos current)
        → harvest_check root (manifest repos) ≡ true
    back (current, (e, s)) = ground (arith, e, (manifest_repos_equal_iff repos current).1 s)

-- The harvest is satisfied just when there is a manifest that can be read and decoded, the repositories
-- with local changes can be collected, and they are those of the manifest, in the same order, with the
-- same diffs and the same changed files in whatever order.
pub harvest_check_iff :
    (root : Root) (file : ManifestFile)
    → (harvest_check root file ≡ true) ↔ (
        (repos : List ManifestRepo) × ((file ≡ manifest repos)
          × ((current : List ManifestRepo) × ((collect root ≡ some current)
                × SameRepos repos current))))
unfolding harvest_check
harvest_check_iff root file = (forward file, back file)
  where
    forward :
        (file : ManifestFile)
        → harvest_check root file ≡ true
        → (repos : List ManifestRepo) × ((file ≡ manifest repos)
            × ((current : List ManifestRepo) × ((collect root ≡ some current)
                  × SameRepos repos current)))
    forward unreadable_manifest h = cc
    forward garbled_manifest h = cc
    forward (manifest repos) h = (repos, (refl, (manifest_check_iff root repos).0 h))

    back :
        (file : ManifestFile)
        → ((repos : List ManifestRepo) × ((file ≡ manifest repos)
              × ((current : List ManifestRepo) × ((collect root ≡ some current)
                    × SameRepos repos current))))
        → harvest_check root file ≡ true
    back file (repos, (e, p)) =
        subst (λ f. harvest_check root f ≡ true) (sym e) ((manifest_check_iff root repos).1 p)

-- A harvest that succeeds is satisfied, as long as nothing changes, and then the presentation says of
-- each repository with local changes how many of its files have changed.
pub harvest_run-check :
    (root : Root) (left : Option ManifestFile) (file : ManifestFile) (n : ℕ)
    → (harvest_run root left file).0 ≡ harvested n
    → (harvest_check root (harvest_run root left file).1 ≡ true)
      × ((current : List ManifestRepo) × ((collect root ≡ some current)
            × ((length current ≡ n)
                × (present_run (harvest_run root left file).1 ≡ present_run (manifest current)))))
unfolding harvest_run
harvest_run-check root none file n h = elim (Option-cases (collect root)) [
  | inl e ↦ absurd (ground (arith, e, h))
  | inr (current, e) ↦
      let c = (manifest_check_iff root current).1 (current, (e, SameRepos-refl current)) in
      (ground (arith, e, c), (current, (e, (ground (arith, e, h), ground (arith, e)))))
]
harvest_run-check root (some f) file n h = absurd (ground (arith, h))
