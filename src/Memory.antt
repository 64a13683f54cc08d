-- ===== src/Memory.antt =====
-- The files of the memory: `ensure` of internal/engine/provision/memory.go writes them, and
-- internal/hooks/memory.go reads them. The lines are those of a `bufio.Scanner`, none of them longer than its buffer.
pub mod Front
mod Examples
use mirabilis.Base.{
  ℕ, suc, Bool, true, false, not, ◌||◌, ◌&&◌, Option, none, some, List, [], ◌∷◌, ◌++◌, map,
  if◌then◌else◌, ◌==◌,
}
use mirabilis.Text.{
  Text, codes, text_eq, cut_prefix, has_prefix, trim_space, split_lines, join_lines,
}

-- `MemoryCategory` of internal/engine/config/config.go
pub record Category : Type 0 where
  pub name : Text
  pub memory_type : Text
  pub summary : Text

pub record MemoryMeta : Type 0 where
  pub category : Text
  pub memory_type : Text
  pub summary : Text

abbrev pub carriage_return : ℕ
carriage_return = 13

-- Without one carriage return at the end.
unfoldable pub drop_return : Text → Text
drop_return [] = []
drop_return (c ∷ []) = if c == carriage_return then [] else c ∷ []
drop_return (c ∷ d ∷ s) = c ∷ drop_return (d ∷ s)

-- Behind the last newline there is no line.
unfoldable pub drop_last_blank : List Text → List Text
drop_last_blank [] = []
drop_last_blank ([] ∷ []) = []
drop_last_blank ((c ∷ s) ∷ []) = (c ∷ s) ∷ []
drop_last_blank (l ∷ m ∷ ls) = l ∷ drop_last_blank (m ∷ ls)

unfoldable pub scan_lines : Text → List Text
unfolding drop_return drop_last_blank split_lines
scan_lines s = map drop_return (drop_last_blank (split_lines s))

abbrev pub marker : Text
marker = codes "---"

-- What a line of the front matter sets.
unfoldable pub set_category : Text → MemoryMeta → MemoryMeta
unfolding trim_space
set_category line m = elim (cut_prefix line (codes "category: ")) [
  | none ↦ m
  | some rest ↦ record m { category = trim_space rest }
]

unfoldable pub set_type : Text → MemoryMeta → MemoryMeta
unfolding trim_space
set_type line m = elim (cut_prefix line (codes "memory_type: ")) [
  | none ↦ m
  | some rest ↦ record m { memory_type = trim_space rest }
]

unfoldable pub set_summary : Text → MemoryMeta → MemoryMeta
unfolding trim_space
set_summary line m = elim (cut_prefix line (codes "summary: ")) [
  | none ↦ m
  | some rest ↦ record m { summary = trim_space rest }
]

unfoldable pub set_fields : Text → MemoryMeta → MemoryMeta
unfolding set_category set_type set_summary
set_fields line m = set_summary line (set_type line (set_category line m))

-- The loop of `parseFrontmatter`: in the front matter or not.
unfoldable pub parse_lines : Bool → MemoryMeta → List Text → MemoryMeta
unfolding set_fields text_eq
parse_lines front m [] = m
parse_lines front m (line ∷ lines) =
    let ends = text_eq line marker in
    let here = if front && not ends then set_fields line m else m in
    let rest = parse_lines (front || ends) here lines in if ends && front then m else rest

unfoldable pub parse_frontmatter : Text → MemoryMeta
unfolding parse_lines scan_lines
parse_frontmatter text =
    parse_lines false (record { category = []; memory_type = []; summary = [] }) (scan_lines text)

-- The loops of `countInvariants` and `readBullets`: in the front matter or not, and past it or not.
unfoldable pub count_lines : Bool → Bool → List Text → ℕ
unfolding text_eq
count_lines front past [] = 0
count_lines front past (line ∷ lines) =
    let ends = text_eq line marker in
    let rest = count_lines (if ends then not front else front) (past || ends && front) lines in
    if ends then rest else if past && has_prefix line (codes "- ") then suc rest else rest

unfoldable pub bullet_lines : Bool → Bool → List Text → List Text
unfolding text_eq
bullet_lines front past [] = []
bullet_lines front past (line ∷ lines) =
    let ends = text_eq line marker in
    let rest = bullet_lines (if ends then not front else front) (past || ends && front) lines in
    if ends then rest else if past && has_prefix line (codes "- ") then line ∷ rest else rest

unfoldable pub count_invariants : Text → ℕ
unfolding count_lines scan_lines
count_invariants text = count_lines false false (scan_lines text)

unfoldable pub read_bullets : Text → List Text
unfolding bullet_lines scan_lines
read_bullets text = bullet_lines false false (scan_lines text)

-- The lines that `ensure` writes for a category, with what `titleCase` makes of its name, and some lines
-- that are added to them.
abbrev pub front_lines : Category → List Text
front_lines c =
    marker
    ∷ (codes "category: " ++ c.name)
    ∷ (codes "memory_type: " ++ c.memory_type)
    ∷ (codes "summary: " ++ c.summary)
    ∷ codes "max_lines: 80"
    ∷ marker
    ∷ []

unfoldable pub memory_file : Category → Text → List Text → Text
memory_file c title added =
    join_lines (front_lines c ++ [] ∷ (codes "# " ++ title) ∷ added ++ [] ∷ [])
