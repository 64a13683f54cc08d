-- ===== src/Steps/Review/Porcelain.antt =====
-- What `git status --porcelain` prints is read back: internal/engine/steps/review.go.
use mirabilis.Base.{
  ℕ, false, Option, none, some, List, [], ◌∷◌, ◌++◌, map, ◌≡◌, ◌≢◌, refl, ap, sym, append_assoc,
  length, ◌≤◌, ◌∙◌, arith, All,
}
use mirabilis.Text.{Text, newline, is_space, trim_space, split_lines, join_lines, cut_prefix}
use mirabilis.Text.Lines.{IsLine, text_eq_iff, split-join}
use mirabilis.Text.Trim.{trim_space_self, trim_space_between}
use mirabilis.Text.Csv.{no_space-IsLine}
use mirabilis.Steps.Review.{arrow, after_arrow, new_path, line_files, repo_files}

-- A change: two characters for its state, the old name of a renamed file, and the path.
pub record Change : Type 0 where
  pub staged : ℕ
  pub unstaged : ℕ
  pub old : Option Text
  pub path : Text

-- The line that git prints for it.
abbrev pub named : Option Text → Text → Text
named none path = path
named (some old) path = old ++ (arrow ++ path)

abbrev pub status_line : Change → Text
status_line c = c.staged ∷ c.unstaged ∷ b' ' ∷ named c.old c.path

-- A text without spaces.
abbrev pub NoSpace : Text → Type 0
NoSpace s = All (λ c. c ≢ b' ') s

after_arrow-none : (s : Text) → NoSpace s → after_arrow s ≡ none
unfolding after_arrow cut_prefix
after_arrow-none [] h = refl
after_arrow-none (c ∷ s) h = ground (arith, after_arrow-none s h.1, h.0)

after_arrow-old : (old path : Text) → NoSpace old → after_arrow (old ++ (arrow ++ path)) ≡ some path
unfolding after_arrow cut_prefix
after_arrow-old [] path h = refl
after_arrow-old (c ∷ s) path h = ground (arith, h.0, after_arrow-old s path h.1)

-- A character that git prints as it is: of ASCII, and no space, quote, backslash or control character.
abbrev pub IsPrinted : ℕ → Type 0
IsPrinted c = ((33 ≤ c) × (c ≤ 126)) × ((c ≢ b'"') × (c ≢ b'\\'))

-- A name that git prints as it is, without quotes.
abbrev pub IsName : Text → Type 0
IsName s = (s ≢ []) × All IsPrinted s

abbrev pub IsOld : Option Text → Type 0
IsOld none = Unit
IsOld (some old) = IsName old

abbrev pub IsChange : Change → Type 0
IsChange c = ((c.staged ≢ newline) × (c.unstaged ≢ newline)) × (IsOld c.old × IsName c.path)

name-NoSpace : (s : Text) → All IsPrinted s → NoSpace s
name-NoSpace [] h = tt
name-NoSpace (c ∷ s) h = (λ e. omega (arith, h.0, e), name-NoSpace s h.1)

printed-no_space : (c : ℕ) → IsPrinted c → is_space c ≡ false
unfolding is_space
printed-no_space c h = ground (arith, h)

name-no_space : (s : Text) → All IsPrinted s → All (λ c. is_space c ≡ false) s
name-no_space [] h = tt
name-no_space (c ∷ s) h = (printed-no_space c h.0, name-no_space s h.1)

-- The path of what git prints, trimmed.
trim_old :
    (c : ℕ) (s path : Text)
    → IsName (c ∷ s)
    → IsName path
    → trim_space (c ∷ s ++ (arrow ++ path)) ≡ c ∷ s ++ (arrow ++ path)
trim_old c s path o n =
    let e : c ∷ s ++ (arrow ++ path) ≡ c ∷ (s ++ arrow) ++ path =
      ap (◌∷◌ c) (sym (append_assoc s arrow path)) in
    ap trim_space e
    ∙ trim_space_between c (s ++ arrow) path (printed-no_space c o.1.0) n.0 (name-no_space path n.1)
    ∙ sym e

named-path :
    (old : Option Text) (path : Text)
    → IsOld old
    → IsName path
    → new_path (trim_space (named old path)) ≡ path
unfolding new_path
named-path none path o n =
    rw (trim_space_self path (name-no_space path n.1))
      (rw (after_arrow-none path (name-NoSpace path n.1), new_path))
named-path (some []) path o n = absurd (o.0 refl)
named-path (some (c ∷ s)) path o n =
    rw (trim_old c s path o n)
      (rw (after_arrow-old (c ∷ s) path (name-NoSpace (c ∷ s) o.1), new_path))

named-length :
    (old : Option Text) (path : Text) → IsOld old → IsName path → 1 ≤ length (named old path)
named-length none [] o n = absurd (n.0 refl)
named-length none (c ∷ s) o n = omega arith
named-length (some []) path o n = absurd (o.0 refl)
named-length (some (c ∷ s)) path o n = omega arith

line_files-status :
    (cs : List Change) → All IsChange cs → line_files (map status_line cs) ≡ map (λ c. c.path) cs
unfolding line_files
line_files-status [] h = refl
line_files-status (c ∷ cs) h = ground (
  arith,
  named-path c.old c.path h.0.1.0 h.0.1.1,
  named-length c.old c.path h.0.1.0 h.0.1.1,
  text_eq_iff c.path [],
  h.0.1.1.0,
  line_files-status cs h.1,
)

name-IsLine : (s : Text) → All IsPrinted s → IsLine s
name-IsLine s h = no_space-IsLine s (name-no_space s h)

IsLine-append : (s t : Text) → IsLine s → IsLine t → IsLine (s ++ t)
IsLine-append [] t g h = h
IsLine-append (c ∷ s) t g h = (g.0, IsLine-append s t g.1 h)

named-IsLine : (old : Option Text) (path : Text) → IsOld old → IsName path → IsLine (named old path)
named-IsLine none path o n = name-IsLine path n.1
named-IsLine (some old) path o n =
    IsLine-append old (arrow ++ path) (name-IsLine old o.1)
      (IsLine-append arrow path (omega arith) (name-IsLine path n.1))

status-IsLine : (cs : List Change) → All IsChange cs → All IsLine (map status_line cs)
status-IsLine [] h = tt
status-IsLine (c ∷ cs) h = (
  (h.0.0.0, (h.0.0.1, (omega arith, named-IsLine c.old c.path h.0.1.0 h.0.1.1))),
  status-IsLine cs h.1,
)

repo_files-lines :
    (c : ℕ) (l : Text) (ls : List Text)
    → repo_files (some (join_lines ((c ∷ l) ∷ ls)))
      ≡ line_files (split_lines (join_lines ((c ∷ l) ∷ ls)))
unfolding repo_files join_lines
repo_files-lines c l [] = refl
repo_files-lines c l (m ∷ ls) = refl

-- The lines that git prints for changes are read back as the paths of the changes, a renamed file by its
-- new name. (The names are not empty, of printable ASCII, without spaces, quotes and backslashes: git
-- puts the others between quotes.)
pub repo_files-status :
    (c : Change) (cs : List Change)
    → All IsChange (c ∷ cs)
    → repo_files (some (join_lines (map status_line (c ∷ cs)))) ≡ map (λ d. d.path) (c ∷ cs)
repo_files-status c cs h =
    let lines = map status_line cs in
    repo_files-lines c.staged (c.unstaged ∷ b' ' ∷ named c.old c.path) lines
    ∙ ap line_files (split-join (status_line c) lines (status-IsLine (c ∷ cs) h))
    ∙ line_files-status (c ∷ cs) h
