-- ===== src/Steps/Review.antt =====
-- The steps of a review: internal/engine/steps/review.go, with `setsEqual` of helpers.go. What git and
-- the file system answer is data. A line of `git status --porcelain` begins with three characters of
-- ASCII, so that its first three bytes are its first three code points.
pub mod Same
pub mod Porcelain
mod Examples
use mirabilis.Base.{
  ℕ, Bool, true, false, not, ◌&&◌, Option, none, some, List, [], ◌∷◌, ◌++◌, if◌then◌else◌, ◌==◌,
  leb, length, drop,
}
use mirabilis.Text.{Text, codes, text_eq, trim_space, split_lines, cut_prefix}
use mirabilis.Text.Sorting.{sort}

pub record ManifestRepo : Type 0 where
  pub name : Text
  pub dir : Text
  pub diff : Text
  pub files : List Text

-- `slices.Equal`
unfoldable pub lists_equal : List Text → List Text → Bool
unfolding text_eq
lists_equal [] [] = true
lists_equal [] (y ∷ ys) = false
lists_equal (x ∷ xs) [] = false
lists_equal (x ∷ xs) (y ∷ ys) = let rest = lists_equal xs ys in if text_eq x y then rest else false

unfoldable pub sets_equal : List Text → List Text → Bool
unfolding lists_equal sort
sets_equal a b = if length a == length b then lists_equal (sort a) (sort b) else false

-- The loop of `manifestReposEqual`, after the lengths have been compared.
unfoldable pub each_equal : List ManifestRepo → List ManifestRepo → Bool
unfolding sets_equal text_eq
each_equal [] bs = true
each_equal (a ∷ as_) [] = true
each_equal (a ∷ as_) (b ∷ bs) =
    let rest = each_equal as_ bs in
    if text_eq a.name b.name && text_eq a.dir b.dir && text_eq a.diff b.diff
    then (if sets_equal a.files b.files then rest else false)
    else false

unfoldable pub manifest_repos_equal : List ManifestRepo → List ManifestRepo → Bool
unfolding each_equal
manifest_repos_equal as_ bs = if length as_ == length bs then each_equal as_ bs else false

abbrev pub arrow : Text
arrow = codes " -> "

-- What stands after the first arrow, if there is one.
unfoldable pub after_arrow : Text → Option Text
unfolding cut_prefix
after_arrow [] = none
after_arrow (c ∷ s) =
    let rest = after_arrow s in
    elim (cut_prefix (c ∷ s) arrow) [ some path ↦ some path | none ↦ rest ]

-- The path of a line of the porcelain format, a rename leading to its new one.
unfoldable pub new_path : Text → Text
unfolding after_arrow
new_path path = elim (after_arrow path) [ none ↦ path | some to ↦ to ]

unfoldable pub line_files : List Text → List Text
unfolding new_path trim_space text_eq
line_files [] = []
line_files (line ∷ lines) =
    let rest = line_files lines in
    let path = new_path (trim_space (drop 3 line)) in
    if leb (length line) 3 then rest else if text_eq path [] then rest else path ∷ rest

-- From what `git status --porcelain` wrote, if it ran.
unfoldable pub repo_files : Option Text → List Text
unfolding line_files split_lines
repo_files none = []
repo_files (some []) = []
repo_files (some (c ∷ out)) = line_files (split_lines (c ∷ out))

-- An entry of the root: is it a directory and a repository of git, and what do `git diff HEAD` and
-- `git status` say?
pub record Entry : Type 0 where
  pub name : Text
  pub is_dir : Bool
  pub is_repo : Bool
  pub diff : Option Text
  pub status : Option Text

abbrev pub diff_of : Option Text → Text
diff_of none = []
diff_of (some out) = out

-- `filepath.Join` of the root and the name of an entry.
abbrev pub join_dir : Text → Text → Text
join_dir root name = root ++ b'/' ∷ name

unfoldable pub collect_entries : Text → List Entry → List ManifestRepo
unfolding repo_files text_eq
collect_entries root [] = []
collect_entries root (e ∷ es) =
    let rest = collect_entries root es in
    let diff = diff_of e.diff in
    let files = repo_files e.status in
    if not (e.is_dir && e.is_repo)
    then rest
    else if text_eq diff [] && length files == 0
    then rest
    else record { name = e.name; dir = join_dir root e.name; diff = diff; files = files } ∷ rest

pub data Root : Type 0 where
  no_root unreadable_root : Root
  entries : Text → List Entry → Root

-- Nothing where the root cannot be read, which is an error.
unfoldable pub collect : Root → Option (List ManifestRepo)
unfolding collect_entries
collect no_root = some []
collect unreadable_root = none
collect (entries root es) = some (collect_entries root es)

-- The file of the manifest: its repositories, where it can be read and decoded.
pub data ManifestFile : Type 0 where
  unreadable_manifest garbled_manifest : ManifestFile
  manifest : List ManifestRepo → ManifestFile

unfoldable pub harvest_check : Root → ManifestFile → Bool
unfolding collect manifest_repos_equal
harvest_check root unreadable_manifest = false
harvest_check root garbled_manifest = false
harvest_check root (manifest repos) = elim (collect root) [
  | none ↦ false
  | some current ↦ manifest_repos_equal repos current
]

pub data HarvestResult : Type 0 where
  collect_failed write_failed : HarvestResult
  harvested : ℕ → HarvestResult

-- `left` is what a failed write of the manifest leaves, if it fails. The number is that of the event.
unfoldable pub harvest_run :
    Root → Option ManifestFile → ManifestFile → HarvestResult × ManifestFile
unfolding collect
harvest_run root left file = elim (collect root) [
  | none ↦ (collect_failed, file)
  | some repos ↦ elim left [
    | none ↦ (harvested (length repos), manifest repos)
    | some f ↦ (write_failed, f)
  ]
]

-- The lines of the presentation: a repository and how many of its files have changed.
pub data PresentResult : Type 0 where
  read_failed decode_failed no_changes : PresentResult
  changed : List (Text × ℕ) → PresentResult

abbrev pub repo_lines : List ManifestRepo → List (Text × ℕ)
repo_lines [] = []
repo_lines (r ∷ rs) = (r.name, length r.files) ∷ repo_lines rs

unfoldable pub present_run : ManifestFile → PresentResult
present_run unreadable_manifest = read_failed
present_run garbled_manifest = decode_failed
present_run (manifest []) = no_changes
present_run (manifest (r ∷ rs)) = changed (repo_lines (r ∷ rs))
