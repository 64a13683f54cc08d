-- ===== src/Provision/Install/Missing.antt =====
-- What an installation without errors leaves: `Missing` of internal/engine/provision/reconcile, for a
-- program that keeps what is there and that has what it has installed.
use mirabilis.Base.{
  Bool, true, false, List, [], ◌∷◌, if◌then◌else◌, ◌≡◌, ◌≢◌, refl, sym, subst, All, Bool-cases, inl,
  inr,
}
use mirabilis.Provision.Install.{missing}

module _ {ℓ κ} {T : Type ℓ} {W : Type κ} (has : W → T → Bool) (install : T → W → Bool × W)
    (keeps : (t u : T) (w : W) → has w u ≡ true → has (install t w).1 u ≡ true) where
  missing_one :
      (have : T → Bool) (t : T) (ts : List T) (w : W) (b : Bool)
      → have t ≡ false
      → (install t w).0 ≡ b
      → missing have install (t ∷ ts) w ≡ (
          if b then missing have install ts (install t w).1 else (
            t ∷ (missing have install ts (install t w).1).0,
            (missing have install ts (install t w).1).1,
          ))
  unfolding missing
  missing_one have t ts w b e f = rw (e, f) refl

  missing_skips :
      (have : T → Bool) (t : T) (ts : List T) (w : W)
      → have t ≡ true
      → missing have install (t ∷ ts) w ≡ missing have install ts w
  unfolding missing
  missing_skips have t ts w e = rw e refl

  -- What is there stays there.
  pub missing-keeps :
      (have : T → Bool) (ts : List T) (u : T) (w : W)
      → has w u ≡ true
      → has (missing have install ts w).1 u ≡ true
  unfolding missing
  missing-keeps have [] u w h = h
  missing-keeps have (t ∷ ts) u w h = elim (Bool-cases (have t)) [
    | inl e ↦ rw e (missing-keeps have ts u w h)
    | inr e ↦ elim (Bool-cases (install t w).0) [
      | inl f ↦ rw e (rw f (missing-keeps have ts u (install t w).1 (keeps t u w h)))
      | inr f ↦ rw e (rw f (missing-keeps have ts u (install t w).1 (keeps t u w h)))
    ]
  ]

  -- Without errors, everything that was asked for is there.
  pub missing-has {μ} :
      (P : T → Type μ)
      → ((t : T) (w : W) → P t → (install t w).0 ≡ true → has (install t w).1 t ≡ true)
      → (have : T → Bool) (ts : List T) (w : W) → All P ts
      → (missing have install ts w).0 ≡ []
      → ((t : T) → have t ≡ true → has w t ≡ true)
      → All (λ t. has (missing have install ts w).1 t ≡ true) ts
  missing-has P adds have [] w p h k = tt
  missing-has P adds have (t ∷ ts) w p h k = elim (Bool-cases (have t)) [
    | inl e ↦
        let same = missing_skips have t ts w e in
        subst (λ r. All (λ u. has r.1 u ≡ true) (t ∷ ts)) (sym same)
          (
            missing-keeps have ts t w (k t e),
            missing-has P adds have ts w p.1 (subst (λ r. r.0 ≡ []) same h) k,
          )
    | inr e ↦ elim (Bool-cases (install t w).0) [
      | inl f ↦
          let after = (install t w).1 in
          let same = missing_one have t ts w true e f in
          subst (λ r. All (λ u. has r.1 u ≡ true) (t ∷ ts)) (sym same)
            (
              missing-keeps have ts t after (adds t w p.0 f),
              missing-has P adds have ts after p.1 (subst (λ r. r.0 ≡ []) same h)
                  (λ u j. keeps t u w (k u j)),
            )
      | inr f ↦ absurd (not_nil (subst (λ r. r.0 ≡ []) (missing_one have t ts w false e f) h))
    ]
  ]
    where
      not_nil : {u : T} {us : List T} → u ∷ us ≢ []
      not_nil e = cc

  -- Where everything is there, nothing is done.
  pub missing-idle :
      (have : T → Bool) (ts : List T) (w : W)
      → All (λ t. have t ≡ true) ts
      → missing have install ts w ≡ ([], w)
  unfolding missing
  missing-idle have [] w h = refl
  missing-idle have (t ∷ ts) w h = rw h.0 (missing-idle have ts w h.1)
