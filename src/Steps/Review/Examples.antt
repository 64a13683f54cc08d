-- ===== src/Steps/Review/Examples.antt =====
-- A harvest of one repository, and what git prints for two changes (internal/engine/steps/review.go).
use mirabilis.Base.{◌≡◌, ◌↔◌, refl, true, false, none, some, List, [], ◌∷◌, All, arith, map}
use mirabilis.Text.{codes, text_eq, join_lines, trim_space, trim_left, trim_right, split_lines}
use mirabilis.Steps.Review.{
  ManifestRepo, Root, entries, collect, collect_entries, repo_files, line_files, new_path,
  after_arrow, unreadable_manifest, manifest, harvest_check, harvest_run, harvested,
}
use mirabilis.Steps.Review.Same.{SameRepos, harvest_check_iff}
use mirabilis.Steps.Review.Porcelain.{Change, IsChange, status_line, repo_files-status}

-- A directory that is no repository, and a repository with a diff and a new file.
abbrev root : Root
root = entries (codes "/home/u/ecosystem") (
    record { name = codes "notes"; is_dir = true; is_repo = false; diff = none; status = none }
    ∷ record {
      name = codes "tools";
      is_dir = true;
      is_repo = true;
      diff = some (codes "+x");
      status = some (codes "?? a.go");
    }
    ∷ [])

abbrev repos : List ManifestRepo
repos =
    record {
      name = codes "tools";
      dir = codes "/home/u/ecosystem/tools";
      diff = codes "+x";
      files = codes "a.go" ∷ [];
    }
    ∷ []

root-collect : collect root ≡ some repos
unfolding collect collect_entries repo_files line_files new_path after_arrow split_lines trim_space
    trim_left trim_right text_eq
root-collect = refl

harvest_check_iff_example : (harvest_check root (manifest repos) ≡ true) ↔ (
    (read : List ManifestRepo) × ((manifest repos ≡ manifest read)
      × ((current : List ManifestRepo) × ((collect root ≡ some current) × SameRepos read current))))
harvest_check_iff_example = harvest_check_iff root (manifest repos)

ran : (harvest_run root none unreadable_manifest).0 ≡ harvested 1
unfolding harvest_run
ran = refl

-- A modified file and a renamed one.
abbrev modified : Change
modified = record { staged = b' '; unstaged = b'M'; old = none; path = codes "ab" }

abbrev renamed : Change
renamed = record { staged = b'R'; unstaged = b' '; old = some (codes "cd"); path = codes "ef" }

changes : All IsChange (modified ∷ renamed ∷ [])
changes = (
  (
    (omega arith, omega arith),
    (
      tt,
      (
        λ e. cc,
        (
          ((omega arith, omega arith), (omega arith, omega arith)),
          (((omega arith, omega arith), (omega arith, omega arith)), tt),
        ),
      ),
    ),
  ),
  (
    (
      (omega arith, omega arith),
      (
        (
          λ e. cc,
          (
            ((omega arith, omega arith), (omega arith, omega arith)),
            (((omega arith, omega arith), (omega arith, omega arith)), tt),
          ),
        ),
        (
          λ e. cc,
          (
            ((omega arith, omega arith), (omega arith, omega arith)),
            (((omega arith, omega arith), (omega arith, omega arith)), tt),
          ),
        ),
      ),
    ),
    tt,
  ),
)

repo_files-status_example :
    repo_files (some (join_lines (map status_line (modified ∷ renamed ∷ []))))
    ≡ map (λ d. d.path) (modified ∷ renamed ∷ [])
repo_files-status_example = repo_files-status modified (renamed ∷ []) changes
