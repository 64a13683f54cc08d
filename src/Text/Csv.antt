-- ===== src/Text/Csv.antt =====
-- Lists of words between commas: `strings.Split(s, ",")` and `strings.Join(ss, ",")` as
-- internal/engine/config/config.go and internal/engine/steps/helpers.go use them.
use mirabilis.Base.{
  ℕ, ◌≡◌, ◌≢◌, refl, ap, ◌∙◌, inl, inr, false, List, [], ◌∷◌, ◌++◌, arith, Bool-cases, All, ◌==◌,
  if◌then◌else◌,
}
use mirabilis.Text.{Text, text_eq, is_space, trim_left, trim_right, trim_space}
use mirabilis.Text.Lines.{IsLine, text_eq_iff}
use mirabilis.Text.Trim.{trim_space_self}

abbrev pub comma : ℕ
comma = 44

unfoldable pub push_piece : ℕ → List Text → List Text
push_piece c [] = (c ∷ []) ∷ []
push_piece c (p ∷ ps) = if c == comma then [] ∷ p ∷ ps else (c ∷ p) ∷ ps

unfoldable pub split_commas : Text → List Text
unfolding push_piece
split_commas [] = [] ∷ []
split_commas (c ∷ s) = push_piece c (split_commas s)

unfoldable pub join_commas : List Text → Text
join_commas [] = []
join_commas (p ∷ []) = p
join_commas (p ∷ q ∷ ps) = p ++ comma ∷ join_commas (q ∷ ps)

-- The trimmed pieces that are not blank.
unfoldable pub trimmed_pieces : List Text → List Text
unfolding trim_space text_eq
trimmed_pieces [] = []
trimmed_pieces (p ∷ ps) =
    let rest = trimmed_pieces ps in let t = trim_space p in if text_eq t [] then rest else t ∷ rest

-- `splitCSV`
unfoldable pub split_csv : Text → List Text
unfolding trimmed_pieces split_commas
split_csv s = trimmed_pieces (split_commas s)

-- A word: not empty, and without commas and spaces, a newline being one.
abbrev pub IsPlain : Text → Type 0
IsPlain s = All (λ c. (is_space c ≡ false) × (c ≢ comma)) s

abbrev pub IsWord : Text → Type 0
IsWord s = (s ≢ []) × IsPlain s

IsPlain-no_space : (s : Text) → IsPlain s → All (λ c. is_space c ≡ false) s
IsPlain-no_space [] h = tt
IsPlain-no_space (c ∷ s) h = (h.0.0, IsPlain-no_space s h.1)

split-cons : (s : Text) → (p : Text) × ((ps : List Text) × (split_commas s ≡ p ∷ ps))
unfolding split_commas push_piece
split-cons [] = ([], ([], refl))
split-cons (c ∷ s) =
    let (p, (ps, e)) = split-cons s in
    elim (Bool-cases (c == comma)) [
      | inl f ↦ ([], (p ∷ ps, rw e (rw f)))
      | inr f ↦ (c ∷ p, (ps, rw e (rw f)))
    ]

split-plain : (s : Text) → IsPlain s → split_commas s ≡ s ∷ []
unfolding split_commas push_piece
split-plain [] h = refl
split-plain (c ∷ s) h = rw (split-plain s h.1) (ground (arith, h.0.1))

split-append-comma : (s t : Text) → IsPlain s → split_commas (s ++ comma ∷ t) ≡ s ∷ split_commas t
unfolding split_commas push_piece
split-append-comma [] t h = let (p, (ps, e)) = split-cons t in rw e
split-append-comma (c ∷ s) t h = rw (split-append-comma s t h.1) (ground (arith, h.0.1))

pub split-join_commas :
    (p : Text) (ps : List Text)
    → All IsPlain (p ∷ ps)
    → split_commas (join_commas (p ∷ ps)) ≡ p ∷ ps
unfolding join_commas
split-join_commas p [] h = split-plain p h.0
split-join_commas p (q ∷ ps) h =
    split-append-comma p (join_commas (q ∷ ps)) h.0 ∙ ap (◌∷◌ p) (split-join_commas q ps h.1)

trimmed_pieces-words : (ps : List Text) → All IsWord ps → trimmed_pieces ps ≡ ps
unfolding trimmed_pieces
trimmed_pieces-words [] h = refl
trimmed_pieces-words (p ∷ ps) h =
    let e = trim_space_self p (IsPlain-no_space p h.0.1) in
    let f : text_eq p [] ≡ false = ground (arith, h.0.0, text_eq_iff p []) in
    rw (e, f) (ap (◌∷◌ p) (trimmed_pieces-words ps h.1))

words-IsPlain : (ps : List Text) → All IsWord ps → All IsPlain ps
words-IsPlain [] h = tt
words-IsPlain (p ∷ ps) h = (h.0.1, words-IsPlain ps h.1)

-- Words that are joined are split into the same words.
pub split_csv-join : (ps : List Text) → All IsWord ps → split_csv (join_commas ps) ≡ ps
unfolding split_csv join_commas split_commas trimmed_pieces trim_space trim_left trim_right
split_csv-join [] h = refl
split_csv-join (p ∷ ps) h =
    ap trimmed_pieces (split-join_commas p ps (words-IsPlain (p ∷ ps) h))
    ∙ trimmed_pieces-words (p ∷ ps) h

no_space-append :
    (s t : Text)
    → All (λ c. is_space c ≡ false) s
    → All (λ c. is_space c ≡ false) t
    → All (λ c. is_space c ≡ false) (s ++ t)
no_space-append [] t g h = h
no_space-append (c ∷ s) t g h = (g.0, no_space-append s t g.1 h)

-- Nor do they hold a space when they are joined, so they make one line.
pub join_commas-no_space :
    (ps : List Text) → All IsWord ps → All (λ c. is_space c ≡ false) (join_commas ps)
unfolding join_commas is_space
join_commas-no_space [] h = tt
join_commas-no_space (p ∷ []) h = IsPlain-no_space p h.0.1
join_commas-no_space (p ∷ q ∷ ps) h =
    no_space-append p (comma ∷ join_commas (q ∷ ps)) (IsPlain-no_space p h.0.1)
      (refl, join_commas-no_space (q ∷ ps) h.1)

pub no_space-IsLine : (s : Text) → All (λ c. is_space c ≡ false) s → IsLine s
unfolding is_space
no_space-IsLine [] h = tt
no_space-IsLine (c ∷ s) h = (λ e. ground (arith, h.0, e), no_space-IsLine s h.1)
