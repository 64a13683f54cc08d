-- ===== src/Text/Trim.antt =====
-- `strings.TrimSpace` of a text that has been trimmed, with a newline after it.
use mirabilis.Base.{
  ℕ, ◌≡◌, ◌≢◌, refl, ap, ◌∙◌, inl, inr, Bool, true, false, [], ◌∷◌, ◌++◌, arith, Bool-cases, All,
}
use mirabilis.Text.{Text, newline, is_space, trim_left, trim_right, push_right, trim_space}

module _ (f : ℕ → Bool) where
  trim_right-append_one :
      (s : Text) (c : ℕ) → f c ≡ true → trim_right f (s ++ c ∷ []) ≡ trim_right f s
  unfolding trim_right push_right
  trim_right-append_one [] c h = rw h
  trim_right-append_one (d ∷ s) c h = ap (push_right f d) (trim_right-append_one s c h)

  trim_right-push_right :
      (c : ℕ) (s : Text) → trim_right f s ≡ s → trim_right f (push_right f c s) ≡ push_right f c s
  unfolding trim_right push_right
  trim_right-push_right c [] h = elim (Bool-cases (f c)) [ inl e ↦ rw e | inr e ↦ rw (e, e) ]
  trim_right-push_right c (d ∷ s) h = ap (push_right f c) h

  trim_right_twice : (s : Text) → trim_right f (trim_right f s) ≡ trim_right f s
  unfolding trim_right
  trim_right_twice [] = refl
  trim_right_twice (c ∷ s) = trim_right-push_right c (trim_right f s) (trim_right_twice s)

  Starts : Text → Type 0
  Starts [] = Unit
  Starts (c ∷ s) = f c ≡ false

  trim_left-Starts : (s : Text) → Starts (trim_left f s)
  unfolding trim_left Starts
  trim_left-Starts [] = tt
  trim_left-Starts (c ∷ s) = elim (Bool-cases (f c)) [
    | inl e ↦ rw e (trim_left-Starts s)
    | inr e ↦ rw e e
  ]

  push_right-Starts : (c : ℕ) (s : Text) → f c ≡ false → Starts (push_right f c s)
  unfolding push_right Starts
  push_right-Starts c [] h = rw h h
  push_right-Starts c (d ∷ s) h = h

  trim_right-Starts : (s : Text) → Starts s → Starts (trim_right f s)
  unfolding trim_right Starts
  trim_right-Starts [] h = tt
  trim_right-Starts (c ∷ s) h = push_right-Starts c (trim_right f s) h

  trim-Starts :
      (s : Text) (c : ℕ)
      → Starts s
      → f c ≡ true
      → trim_right f s ≡ s
      → trim_right f (trim_left f (s ++ c ∷ [])) ≡ s
  unfolding trim_left Starts trim_right
  trim-Starts [] c h e t = rw e
  trim-Starts (d ∷ s) c h e t = rw h (trim_right-append_one (d ∷ s) c e ∙ t)

pub trim_space-newline : (s : Text) → trim_space (trim_space s ++ newline ∷ []) ≡ trim_space s
unfolding trim_space is_space
trim_space-newline s =
    trim-Starts is_space (trim_space s) newline
      (trim_right-Starts is_space (trim_left is_space s) (trim_left-Starts is_space s)) refl
      (trim_right_twice is_space (trim_left is_space s))

trim_right-none : (f : ℕ → Bool) (s : Text) → All (λ c. f c ≡ false) s → trim_right f s ≡ s
unfolding trim_right push_right
trim_right-none f [] h = refl
trim_right-none f (c ∷ []) h = ground (arith, h.0)
trim_right-none f (c ∷ d ∷ s) h = ap (push_right f c) (trim_right-none f (d ∷ s) h.1)

-- A text without spaces is read back from a line of its own.
pub trim_space-line :
    (s : Text) → All (λ c. is_space c ≡ false) s → trim_space (s ++ newline ∷ []) ≡ s
unfolding trim_space is_space Starts
trim_space-line [] h = refl
trim_space-line (c ∷ s) h =
    trim-Starts is_space (c ∷ s) newline h.0 refl (trim_right-none is_space (c ∷ s) h)

-- A text without spaces is its own trim.
pub trim_space_self : (s : Text) → All (λ c. is_space c ≡ false) s → trim_space s ≡ s
unfolding trim_space trim_left trim_right
trim_space_self [] h = refl
trim_space_self (c ∷ s) h =
    let e : trim_left is_space (c ∷ s) ≡ c ∷ s = ground (arith, h.0) in
    ap (trim_right is_space) e ∙ trim_right-none is_space (c ∷ s) h

trim_right-append :
    (f : ℕ → Bool) (s t : Text) → t ≢ [] → trim_right f t ≡ t → trim_right f (s ++ t) ≡ s ++ t
unfolding trim_right push_right
trim_right-append f [] t n h = h
trim_right-append f (c ∷ []) [] n h = absurd (n refl)
trim_right-append f (c ∷ []) (d ∷ t) n h = ap (push_right f c) h
trim_right-append f (c ∷ d ∷ s) t n h = ap (push_right f c) (trim_right-append f (d ∷ s) t n h)

-- A text between two others that have no space is not trimmed.
pub trim_space_between :
    (c : ℕ) (s t : Text)
    → is_space c ≡ false
    → t ≢ []
    → All (λ d. is_space d ≡ false) t
    → trim_space (c ∷ s ++ t) ≡ c ∷ s ++ t
unfolding trim_space trim_left
trim_space_between c s t h n a =
    let e : trim_left is_space (c ∷ s ++ t) ≡ c ∷ s ++ t = ground (arith, h) in
    ap (trim_right is_space) e
    ∙ trim_right-append is_space (c ∷ s) t n (trim_right-none is_space t a)
