-- ===== src/Release/Badge.antt =====
-- What the check for a release shows: internal/engine/release/release.go, with internal/obs/obs.go and the
-- badge of internal/tui/frame/frame.go.
use mirabilis.Base.{
  true, none, [], ◌∷◌, ◌++◌, ◌==◌, ◌≡◌, ◌≢◌, ◌↔◌, refl, ap, arith, Option-cases, Bool-cases, inl,
  inr,
}
use mirabilis.Text.{Text, cut_prefix, trim_space}
use mirabilis.Text.Lines.{text_eq_iff}
use mirabilis.Config.Env.Laws.{cut_prefix-append}
use mirabilis.Release.{is_behind, check, Round}

cut_prefix_iff : (s p : Text) → (cut_prefix s p ≢ none) ↔ ((rest : Text) × (s ≡ p ++ rest))
unfolding cut_prefix
cut_prefix_iff s p = (cut s p, back s p)
  where
    cut : (s p : Text) → cut_prefix s p ≢ none → (rest : Text) × (s ≡ p ++ rest)
    cut s [] h = (s, refl)
    cut [] (y ∷ p) h = absurd (h refl)
    cut (x ∷ s) (y ∷ p) h = elim (Bool-cases (x == y)) [
      | inl e ↦
          let (rest, f) = cut s p (λ n. h (rw e n)) in
          let same : x ≡ y = ground (arith, e) in (rest, rw same (ap (◌∷◌ y) f))
      | inr e ↦ absurd (h (rw e))
    ]

    back : (s p : Text) → ((rest : Text) × (s ≡ p ++ rest)) → cut_prefix s p ≢ none
    back s p (rest, h) e = let f = rw h at e in absurd (ground (arith, f, cut_prefix-append p rest))

-- The program is behind a release just when the version and the commit of the release are not blank and
-- the version, trimmed, is not what the commit begins with.
pub is_behind_iff :
    (current sha : Text)
    → (is_behind current sha ≡ true) ↔ (
        (trim_space current ≢ [])
        × ((trim_space sha ≢ []) × ((rest : Text) → trim_space sha ≢ trim_space current ++ rest)))
unfolding is_behind
is_behind_iff current sha = (forward, back)
  where
    forward :
        is_behind current sha ≡ true
        → (trim_space current ≢ [])
          × ((trim_space sha ≢ []) × ((rest : Text) → trim_space sha ≢ trim_space current ++ rest))
    forward h = (
      λ e. ground (arith, h, (text_eq_iff (trim_space current) []).1 e),
      (
        λ e. ground (arith, h, (text_eq_iff (trim_space sha) []).1 e),
        λ rest e.
            ground (arith, h, (cut_prefix_iff (trim_space sha) (trim_space current)).1 (rest, e)),
      ),
    )

    back :
        (trim_space current ≢ [])
          × ((trim_space sha ≢ []) × ((rest : Text) → trim_space sha ≢ trim_space current ++ rest))
        → is_behind current sha ≡ true
    back (a, (b, n)) = elim (Option-cases (cut_prefix (trim_space sha) (trim_space current))) [
      | inl e ↦
          ground
            (arith, a, b, e, text_eq_iff (trim_space current) [], text_eq_iff (trim_space sha) [])
      | inr (rest, e) ↦
          let (more, f) =
            (cut_prefix_iff (trim_space sha) (trim_space current)).0 (λ m. ground (arith, e, m)) in
          absurd (n more f)
    ]

abbrev pub IsFailing : Text → Round → Type 0
IsFailing current r = (check current r.reply ≡ none) × (r.slept ≡ true)
