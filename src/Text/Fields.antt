-- ===== src/Text/Fields.antt =====
-- `strings.Fields`, and lists of texts without repetition.
use mirabilis.Base.{Bool, false, ◌||◌, ◌≡◌, refl, List, [], ◌∷◌, ◌++◌, if◌then◌else◌, arith}
use mirabilis.Text.{Text, text_eq, is_space}
use mirabilis.Text.Lines.{text_eq_iff}

-- A word that has ended, unless it is empty.
unfoldable pub flush : Text → List Text → List Text
flush [] ws = ws
flush (c ∷ w) ws = (c ∷ w) ∷ ws

-- The word that a text begins with, which may be empty, and the words behind it.
unfoldable pub scan_fields : Text → Text × List Text
unfolding flush is_space
scan_fields [] = ([], [])
scan_fields (c ∷ s) =
    let (w, ws) = scan_fields s in if is_space c then ([], flush w ws) else (c ∷ w, ws)

unfoldable pub fields : Text → List Text
unfolding scan_fields
fields s = let (w, ws) = scan_fields s in flush w ws

-- `slices.Contains`
unfoldable pub contains_text : List Text → Text → Bool
unfolding text_eq
contains_text [] t = false
contains_text (x ∷ xs) t = text_eq x t || contains_text xs t

-- No text stands twice.
abbrev pub IsUnique : List Text → Type 0
IsUnique [] = Unit
IsUnique (x ∷ xs) = (contains_text xs x ≡ false) × IsUnique xs

pub contains_text-append :
    (xs ys : List Text) (t : Text)
    → contains_text (xs ++ ys) t ≡ (contains_text xs t || contains_text ys t)
unfolding contains_text
contains_text-append [] ys t = refl
contains_text-append (x ∷ xs) ys t = ground (arith, contains_text-append xs ys t)

pub IsUnique-append_one :
    (xs : List Text) (t : Text) → IsUnique xs → contains_text xs t ≡ false → IsUnique (xs ++ t ∷ [])
unfolding contains_text
IsUnique-append_one [] t u h = (refl, tt)
IsUnique-append_one (x ∷ xs) t u h = (
  ground (arith, contains_text-append xs (t ∷ []) x, text_eq_iff x t, text_eq_iff t x),
  IsUnique-append_one xs t u.1 (ground arith),
)
