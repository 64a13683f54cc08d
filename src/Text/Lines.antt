-- ===== src/Text/Lines.antt =====
-- Splitting into lines and joining them again.
use mirabilis.Base.{
  ℕ, zero, suc, ◌≡◌, refl, ap, ◌∙◌, ◌≢◌, ◌↔◌, inl, inr, true, List, [], ◌∷◌, ◌++◌, All, arith, ◌==◌,
  append-nil, Bool-cases, subst,
}
use mirabilis.Text.{
  Text, newline, text_eq, split_lines, push_line, join_lines, trim_newlines, push_right,
}

pub text_eq_iff : (s t : Text) → (text_eq s t ≡ true) ↔ (s ≡ t)
unfolding text_eq
text_eq_iff [] [] = (λ h. refl, λ h. refl)
text_eq_iff [] (y ∷ ys) = (λ h. cc, λ h. cc)
text_eq_iff (x ∷ xs) [] = (λ h. cc, λ h. cc)
text_eq_iff (x ∷ xs) (y ∷ ys) =
    (λ h. ground (arith, text_eq_iff xs ys), λ h. ground (arith, text_eq_iff xs ys))

-- A text of one line.
abbrev pub IsLine : Text → Type 0
IsLine [] = Unit
IsLine (c ∷ s) = (c ≢ newline) × IsLine s

split-cons : (s : Text) → (l : Text) × (ls : List Text) × (split_lines s ≡ l ∷ ls)
unfolding split_lines
split-cons [] = ([], [], refl)
split-cons (c ∷ s) =
    let (l, ls, e) = split-cons s in
    elim (Bool-cases (c == newline)) [
      | inl nl ↦ ([], l ∷ ls, rw e (rw nl))
      | inr other ↦ (c ∷ l, ls, rw e (rw other))
    ]

push_line-append :
    (c : ℕ) (ls ms : List Text) → ls ≢ [] → push_line c (ls ++ ms) ≡ push_line c ls ++ ms
unfolding push_line
push_line-append c [] ms h = absurd (h refl)
push_line-append c (l ∷ ls) ms h = elim (Bool-cases (c == newline)) [ inl e ↦ rw e | inr e ↦ rw e ]

pub split-append-newline :
    (s t : Text) → split_lines (s ++ newline ∷ t) ≡ split_lines s ++ split_lines t
unfolding split_lines
split-append-newline [] t = let (l, ls, e) = split-cons t in rw e
split-append-newline (c ∷ s) t =
    let (l, ls, e) = split-cons s in
    ap (push_line c) (split-append-newline s t)
    ∙ push_line-append c (split_lines s) (split_lines t) (λ h. ground (arith, e, h))

pub split-line : (s : Text) → IsLine s → split_lines s ≡ s ∷ []
unfolding split_lines
split-line [] h = refl
split-line (c ∷ s) h = ground (arith, split-line s h.1)

pub split-lines : (s : Text) → All IsLine (split_lines s)
unfolding split_lines
split-lines [] = (tt, tt)
split-lines (c ∷ s) =
    let (l, ls, e) = split-cons s in
    let both : All IsLine (l ∷ ls) = subst (All IsLine) e (split-lines s) in
    elim (Bool-cases (c == newline)) [
      | inl nl ↦ rw e (rw nl (tt, both))
      | inr other ↦ rw e (rw other ((ground arith, both.0), both.1))
    ]

-- Joining lines and splitting again gives them back, but for no line at all.
pub split-join :
    (l : Text) (ls : List Text) → All IsLine (l ∷ ls) → split_lines (join_lines (l ∷ ls)) ≡ l ∷ ls
unfolding join_lines
split-join l [] h = split-line l h.0
split-join l (m ∷ ls) h =
    split-append-newline l (join_lines (m ∷ ls))
    ∙ rw (split-line l h.0) (ap (◌∷◌ l) (split-join m ls h.1))

-- A text is what is left of it without the newlines at its end, and those newlines.
pub newlines : ℕ → Text
newlines zero = []
newlines (suc n) = newline ∷ newlines n

push_right-newlines :
    (c : ℕ) (t : Text) (n : ℕ)
    → (k : ℕ) × (c ∷ (t ++ newlines n) ≡ push_right (λ d. d == newline) c t ++ newlines k)
unfolding push_right newlines
push_right-newlines c [] n = elim (Bool-cases (c == newline)) [
  | inl e ↦ (suc n, ground arith)
  | inr e ↦ (n, rw e)
]
push_right-newlines c (d ∷ t) n = (n, refl)

pub trim-newlines : (s : Text) → (n : ℕ) × (s ≡ trim_newlines s ++ newlines n)
unfolding trim_newlines newlines
trim-newlines [] = (0, refl)
trim-newlines (c ∷ s) =
    let (n, e) = trim-newlines s in
    let (k, f) = push_right-newlines c (trim_newlines s) n in (k, ap (◌∷◌ c) e ∙ f)

-- So the lines of the whole are the lines of what is left, and empty lines.
unfoldable pub blanks : ℕ → List Text
blanks zero = []
blanks (suc n) = [] ∷ blanks n

split-newlines_only : (n : ℕ) → split_lines (newlines n) ≡ [] ∷ blanks n
unfolding newlines blanks split_lines
split-newlines_only zero = refl
split-newlines_only (suc n) =
    split-append-newline [] (newlines n) ∙ ap (λ ls. split_lines [] ++ ls) (split-newlines_only n)

split-newlines : (t : Text) (n : ℕ) → split_lines (t ++ newlines n) ≡ split_lines t ++ blanks n
unfolding newlines blanks
split-newlines t zero = rw (append-nil t, append-nil (split_lines t))
split-newlines t (suc n) =
    split-append-newline t (newlines n) ∙ ap (◌++◌ (split_lines t)) (split-newlines_only n)

pub split-trim_newlines :
    (s : Text) → (n : ℕ) × (split_lines s ≡ split_lines (trim_newlines s) ++ blanks n)
split-trim_newlines s =
    let (n, e) = trim-newlines s in (n, ap split_lines e ∙ split-newlines (trim_newlines s) n)
