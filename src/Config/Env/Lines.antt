-- ===== src/Config/Env/Lines.antt =====
-- The lines of an env file, read and filtered by key.
use mirabilis.Base.{
  ℕ, zero, suc, ◌≡◌, refl, ap, ◌∙◌, ◌≢◌, inl, inr, true, Option, none, some, List, [], ◌∷◌, ◌++◌,
  All, arith, is_some, append_assoc, Bool-cases, Option-cases,
}
use mirabilis.Text.{Text, newline, cut_prefix, has_prefix, split_lines, join_lines, trim_newlines}
use mirabilis.Text.Lines.{
  IsLine, split-append-newline, split-lines, split-join, split-trim_newlines, blanks,
}
use mirabilis.Config.Env.{
  Read, content, missing, unreadable, assignment, read_lines, keep_lines, end_line, close_lines,
  kept,
}

abbrev pub or_else {ℓ} : {A : Type ℓ} → Option A → Option A → Option A
or_else (some a) b = some a
or_else none b = b

pub read_lines-append :
    (key : Text) (ls ms : List Text)
    → read_lines key (ls ++ ms) ≡ or_else (read_lines key ls) (read_lines key ms)
unfolding read_lines
read_lines-append key [] ms = refl
read_lines-append key (l ∷ ls) ms = ground (arith, read_lines-append key ls ms)

cut_prefix-nil : (p : Text) (c : ℕ) → cut_prefix [] (p ++ c ∷ []) ≡ none
unfolding cut_prefix
cut_prefix-nil [] c = refl
cut_prefix-nil (p ∷ ps) c = refl

read_lines-blanks : (key : Text) (n : ℕ) → read_lines key (blanks n) ≡ none
unfolding read_lines blanks
read_lines-blanks key zero = refl
read_lines-blanks key (suc n) = rw (cut_prefix-nil key b'=', read_lines) (read_lines-blanks key n)

pub read-trim_newlines :
    (key : Text) (s : Text)
    → read_lines key (split_lines (trim_newlines s)) ≡ read_lines key (split_lines s)
read-trim_newlines key s =
    let (n, e) = split-trim_newlines s in
    ground (
      arith,
      ap (read_lines key) e,
      read_lines-append key (split_lines (trim_newlines s)) (blanks n),
      read_lines-blanks key n,
    )

-- Reading what is joined is reading the lines.
pub read-empty : (key : Text) → read_lines key (split_lines []) ≡ none
unfolding split_lines read_lines
read-empty key = rw (cut_prefix-nil key b'=', read_lines)

pub read-join :
    (key : Text) (ls : List Text)
    → All IsLine ls
    → read_lines key (split_lines (join_lines ls)) ≡ read_lines key ls
read-join key [] h = unfold join_lines read_lines in read-empty key
read-join key (l ∷ ls) h = ap (read_lines key) (split-join l ls h)

read-end_line :
    (key t rest : Text)
    → read_lines key (split_lines (end_line t ++ rest))
      ≡ or_else (read_lines key (split_lines t)) (read_lines key (split_lines rest))
unfolding end_line
read-end_line key [] rest = rw (read-empty key)
read-end_line key (c ∷ s) rest =
    ap (λ x. read_lines key (split_lines x)) (append_assoc (c ∷ s) (newline ∷ []) rest)
    ∙ ap (read_lines key) (split-append-newline (c ∷ s) rest)
    ∙ read_lines-append key (split_lines (c ∷ s)) (split_lines rest)

-- Reading a closed file that goes on is reading its lines, and then the rest.
pub read-close :
    (key : Text) (ls : List Text) (rest : Text)
    → All IsLine ls
    → read_lines key (split_lines (close_lines ls ++ rest))
      ≡ or_else (read_lines key ls) (read_lines key (split_lines rest))
read-close key ls rest h =
    unfold close_lines in
    read-end_line key (trim_newlines (join_lines ls)) rest
    ∙ ap (λ o. or_else o (read_lines key (split_lines rest)))
        (read-trim_newlines key (join_lines ls) ∙ read-join key ls h)

pub keep_lines-lines :
    (key : Text) (ls : List Text) → All IsLine ls → All IsLine (keep_lines key ls)
unfolding keep_lines
keep_lines-lines key [] h = tt
keep_lines-lines key (l ∷ ls) h = elim (Bool-cases (has_prefix l (assignment key))) [
  | inl e ↦ rw e (keep_lines-lines key ls h.1)
  | inr e ↦ rw e (h.0, keep_lines-lines key ls h.1)
]

pub kept-lines : (key : Text) (file : Read) → All IsLine (kept key file)
unfolding kept
kept-lines key (content s) = keep_lines-lines key (split_lines s) (split-lines s)
kept-lines key missing = tt
kept-lines key unreadable = tt

-- No kept line sets the key.
pub read-keep_self : (key : Text) (ls : List Text) → read_lines key (keep_lines key ls) ≡ none
unfolding read_lines keep_lines
read-keep_self key [] = refl
read-keep_self key (l ∷ ls) = ground (arith, read-keep_self key ls)

-- A key that no `=` stands in and that another key's assignment cannot begin with.
abbrev pub IsKey : Text → Type 0
IsKey [] = Unit
IsKey (c ∷ s) = (c ≢ b'=') × (c ≢ newline) × IsKey s

-- Two keys whose assignments begin the same line are one.
pub prefix-same :
    (line j k : Text)
    → IsKey j
    → IsKey k
    → is_some (cut_prefix line (assignment j)) ≡ true
    → is_some (cut_prefix line (assignment k)) ≡ true
    → j ≡ k
unfolding cut_prefix
prefix-same [] [] k hj hk p q = cc
prefix-same [] (a ∷ j) k hj hk p q = cc
prefix-same (c ∷ line) [] [] hj hk p q = refl
prefix-same (c ∷ line) [] (b ∷ k) hj hk p q = absurd (ground arith)
prefix-same (c ∷ line) (a ∷ j) [] hj hk p q = absurd (ground arith)
prefix-same (c ∷ line) (a ∷ j) (b ∷ k) hj hk p q = ground (arith, prefix-same line j k hj.2 hk.2)

pub read-keep_other :
    (j k : Text) (ls : List Text)
    → IsKey j
    → IsKey k
    → j ≢ k
    → read_lines j (keep_lines k ls) ≡ read_lines j ls
unfolding read_lines keep_lines
read-keep_other j k [] hj hk ne = refl
read-keep_other j k (l ∷ ls) hj hk ne = elim (Bool-cases (has_prefix l (assignment k))) [
  | inl e ↦ elim (Option-cases (cut_prefix l (assignment j))) [
    | inl f ↦ rw e (rw (f, read_lines) (read-keep_other j k ls hj hk ne))
    | inr (v, f) ↦ absurd (ne (prefix-same l j k hj hk (rw f) e))
  ]
  | inr e ↦ rw e (ground (arith, read-keep_other j k ls hj hk ne))
]
