-- ===== src/Text.antt =====
-- The functions of Go's package strings that the source uses, over texts as lists of code points.
pub mod Lines
pub mod Fields
pub mod Trim
pub mod Csv
pub mod Sorting
use Prim.Native.Char.{code}
use Prim.Native.String.{String}
use mirabilis.Base.{
  ℕ, Bool, true, false, ◌&&◌, ◌||◌, Option, none, some, List, [], ◌∷◌, ◌++◌, if◌then◌else◌, ◌==◌,
  leb, is_some,
}

abbrev pub Text : Type 0
Text = List ℕ

-- The code points of a literal.
abbrev pub codes : String → Text
codes String.[] = []
codes (String.◌∷◌ c s) = code c ∷ codes s

unfoldable pub text_eq : Text → Text → Bool
text_eq [] [] = true
text_eq [] (y ∷ ys) = false
text_eq (x ∷ xs) [] = false
text_eq (x ∷ xs) (y ∷ ys) = let rest = text_eq xs ys in if x == y then rest else false

abbrev pub newline : ℕ
newline = 10

-- `unicode.IsSpace`
unfoldable pub is_space : ℕ → Bool
is_space c =
    (leb 9 c && leb c 13)
    || c == 32
    || c == 0x85
    || c == 0xa0
    || c == 0x1680
    || (leb 0x2000 c && leb c 0x200a)
    || c == 0x2028
    || c == 0x2029
    || c == 0x202f
    || c == 0x205f
    || c == 0x3000

-- `strings.CutPrefix(s, prefix)`: the rest, if there is one.
unfoldable pub cut_prefix : Text → Text → Option Text
cut_prefix s [] = some s
cut_prefix [] (p ∷ ps) = none
cut_prefix (c ∷ s) (p ∷ ps) = let rest = cut_prefix s ps in if c == p then rest else none

abbrev pub has_prefix : Text → Text → Bool
has_prefix s p = is_some (cut_prefix s p)

-- `strings.TrimLeftFunc` and `strings.TrimRightFunc`. On the right a character goes only with all
-- behind it.
unfoldable pub trim_left : (ℕ → Bool) → Text → Text
trim_left f [] = []
trim_left f (c ∷ s) = let rest = trim_left f s in if f c then rest else c ∷ s

unfoldable pub push_right : (ℕ → Bool) → ℕ → Text → Text
push_right f c [] = if f c then [] else c ∷ []
push_right f c (d ∷ s) = c ∷ d ∷ s

unfoldable pub trim_right : (ℕ → Bool) → Text → Text
unfolding push_right
trim_right f [] = []
trim_right f (c ∷ s) = push_right f c (trim_right f s)

-- `strings.TrimSpace`
unfoldable pub trim_space : Text → Text
unfolding trim_left trim_right is_space
trim_space s = trim_right is_space (trim_left is_space s)

-- `strings.Split(s, "\n")`, which has at least one line.
unfoldable pub push_line : ℕ → List Text → List Text
push_line c [] = (c ∷ []) ∷ []
push_line c (l ∷ ls) = if c == newline then [] ∷ l ∷ ls else (c ∷ l) ∷ ls

unfoldable pub split_lines : Text → List Text
unfolding push_line
split_lines [] = [] ∷ []
split_lines (c ∷ s) = push_line c (split_lines s)

-- `strings.Join(lines, "\n")`
unfoldable pub join_lines : List Text → Text
join_lines [] = []
join_lines (l ∷ []) = l
join_lines (l ∷ m ∷ ls) = l ++ newline ∷ join_lines (m ∷ ls)

-- `strings.TrimRight(s, "\n")`
unfoldable pub trim_newlines : Text → Text
unfolding trim_right
trim_newlines s = trim_right (λ c. c == newline) s
