-- ===== src/Router/Address.antt =====
-- One address contains another just when it lies above it.
use mirabilis.Base.{
  true, ◌≡◌, refl, ap, sym, subst, ◌∙◌, ◌⊎◌, inl, inr, ◌↔◌, ◌≢◌, [], ◌∷◌, ◌++◌, arith, Bool-cases,
  append_assoc,
}
use mirabilis.Text.{Text, text_eq, has_prefix, cut_prefix}
use mirabilis.Text.Lines.{text_eq_iff}
use mirabilis.Router.{child, contains_id}

-- The addresses below `n`, and `n` itself.
abbrev pub IsWithin : Text → Text → Type 0
IsWithin n target = (target ≡ n) ⊎ ((rest : Text) × (target ≡ n ++ 47 ∷ rest))

has_prefix_iff : (s p : Text) → (has_prefix s p ≡ true) ↔ ((rest : Text) × (s ≡ p ++ rest))
unfolding cut_prefix
has_prefix_iff s [] = (λ h. (s, refl), λ h. refl)
has_prefix_iff [] (p ∷ ps) = (λ h. absurd (ground (arith, h)), λ h. absurd (ground (arith, h.1)))
has_prefix_iff (c ∷ s) (p ∷ ps) = (
  λ h. let (rest, e) = (has_prefix_iff s ps).0 (ground (arith, h)) in (rest, ground (arith, h, e)),
  λ h. ground (arith, h.1, (has_prefix_iff s ps).1 (h.0, ground (arith, h.1))),
)

-- An address contains a target just when it is the empty address, or is the target, or the target
-- goes on from it after a slash.
pub contains_id_iff :
    (n target : Text) → (contains_id n target ≡ true) ↔ ((n ≡ []) ⊎ IsWithin n target)
unfolding contains_id
contains_id_iff [] target = (λ h. inl refl, λ h. refl)
contains_id_iff (c ∷ n) target = (
  λ h. elim (Bool-cases (text_eq target (c ∷ n))) [
    | inl e ↦ inr (inl ((text_eq_iff target (c ∷ n)).0 e))
    | inr e ↦
        let (rest, f) = (has_prefix_iff target ((c ∷ n) ++ 47 ∷ [])).0 (ground (arith, h, e)) in
        inr (inr (rest, f ∙ append_assoc (c ∷ n) (47 ∷ []) rest))
  ],
  λ h. elim h [
    | inl e ↦ absurd (ground (arith, e))
    | inr (inl e) ↦ ground (arith, (text_eq_iff target (c ∷ n)).1 e)
    | inr (inr (rest, e)) ↦ ground (
      arith,
      (has_prefix_iff target ((c ∷ n) ++ 47 ∷ [])).1
          (rest, e ∙ sym (append_assoc (c ∷ n) (47 ∷ []) rest)),
    )
  ],
)

IsWithin-trans : (a b c : Text) → IsWithin a b → IsWithin b c → IsWithin a c
IsWithin-trans a b c (inl e) h = subst (λ x. IsWithin x c) e h
IsWithin-trans a b c (inr (r, e)) (inl f) = inr (r, f ∙ e)
IsWithin-trans a b c (inr (r, e)) (inr (s, f)) =
    inr (r ++ 47 ∷ s, f ∙ ap (◌++ 47 ∷ s) e ∙ append_assoc a (47 ∷ r) (47 ∷ s))

-- Containment is transitive, and an address contains its children.
pub contains_id_trans :
    (a b c : Text)
    → contains_id a b ≡ true
    → contains_id b c ≡ true
    → (contains_id a c ≡ true) × ((name : Text) → contains_id b (child b name) ≡ true)
unfolding child
contains_id_trans a b c h k = (
  (contains_id_iff a c).1 (joined ((contains_id_iff a b).0 h) ((contains_id_iff b c).0 k)),
  own b,
)
  where
    not_empty : (x r : Text) → [] ≢ x ++ 47 ∷ r
    not_empty [] r e = ground (arith, e)
    not_empty (y ∷ x) r e = ground (arith, e)

    joined : (a ≡ []) ⊎ IsWithin a b → (b ≡ []) ⊎ IsWithin b c → (a ≡ []) ⊎ IsWithin a c
    joined (inl e) h = inl e
    joined (inr (inl e)) (inl f) = inl (sym e ∙ f)
    joined (inr (inr (r, e))) (inl f) = absurd (not_empty a r (sym f ∙ e))
    joined (inr h) (inr k) = inr (IsWithin-trans a b c h k)

    own : (n name : Text) → contains_id n (child n name) ≡ true
    own [] name = (contains_id_iff [] name).1 (inl refl)
    own (x ∷ n) name = (contains_id_iff (x ∷ n) ((x ∷ n) ++ 47 ∷ name)).1 (inr (inr (name, refl)))
