-- ===== src/Sandbox/Stale.antt =====
-- When a container is stale: internal/engine/sandbox/sandbox.go.
use mirabilis.Base.{
  Bool, true, false, some, [], ◌∷◌, ◌++◌, if◌then◌else◌, ◌≡◌, ◌≢◌, ◌↔◌, refl, ap, sym, ◌∙◌, lookup,
  All, arith, append-nil,
}
use mirabilis.Text.{Text, codes, text_eq}
use mirabilis.Text.Lines.{text_eq_iff}
use mirabilis.Config.Env.{env_read}
use mirabilis.Sandbox.{
  Container, Host, or_empty, sock, revision, stacks_key, desired, version_key, running, stale,
}

abbrev pub NoDash : Text → Type 0
NoDash s = All (λ c. c ≢ b'-') s

-- What stands before the first dash, and behind it.
split_dash :
    (s t a b : Text) → NoDash s → NoDash t → s ++ b'-' ∷ a ≡ t ++ b'-' ∷ b → (s ≡ t) × (a ≡ b)
split_dash [] [] a b g h e = (refl, ground (arith, e))
split_dash [] (y ∷ t) a b g h e = absurd (h.0 (ground (arith, e)))
split_dash (x ∷ s) [] a b g h e = absurd (g.0 (ground (arith, e)))
split_dash (x ∷ s) (y ∷ t) a b g h e =
    let (f, k) = split_dash s t a b g.1 h.1 (ground (arith, e)) in
    let same : x ≡ y = ground (arith, e) in (rw same (ap (◌∷◌ y) f), k)

no_dash : (s t u : Text) → NoDash s → s ++ [] ≢ t ++ b'-' ∷ u
no_dash [] [] u g e = cc
no_dash [] (y ∷ t) u g e = cc
no_dash (x ∷ s) [] u g e = g.0 (ground (arith, e))
no_dash (x ∷ s) (y ∷ t) u g e = no_dash s t u g.1 (ground (arith, e))

suffix :
    (s t : Text) (p q : Bool)
    → NoDash s
    → NoDash t
    → s ++ (if p then codes "-sock" else []) ≡ t ++ (if q then codes "-sock" else [])
    → (s ≡ t) × (p ≡ q)
suffix s t true true g h e = ((split_dash s t (codes "sock") (codes "sock") g h e).0, refl)
suffix s t true false g h e = absurd (no_dash t s (codes "sock") h (sym e))
suffix s t false true g h e = absurd (no_dash s t (codes "sock") g e)
suffix s t false false g h e = (sym (append-nil s) ∙ e ∙ append-nil t, refl)

abbrev pub stacks_of : Host → Text
stacks_of h = or_empty (env_read stacks_key h.env)

desired_iff :
    (h k : Host)
    → NoDash (revision h.rev)
    → NoDash (revision k.rev)
    → NoDash (stacks_of h)
    → NoDash (stacks_of k)
    → (desired h ≡ desired k) ↔ (
        (revision h.rev ≡ revision k.rev)
        × ((stacks_of h ≡ stacks_of k) × (sock h.env ≡ sock k.env)))
unfolding desired
desired_iff h k r q s t = (forward, back)
  where
    forward :
        desired h ≡ desired k
        → (revision h.rev ≡ revision k.rev)
          × ((stacks_of h ≡ stacks_of k) × (sock h.env ≡ sock k.env))
    forward e =
        let (f, g) =
          split_dash (revision h.rev) (revision k.rev)
            (stacks_of h ++ (if sock h.env then codes "-sock" else []))
            (stacks_of k ++ (if sock k.env then codes "-sock" else [])) r q e in
        (f, suffix (stacks_of h) (stacks_of k) (sock h.env) (sock k.env) s t g)

    back :
        (revision h.rev ≡ revision k.rev)
          × ((stacks_of h ≡ stacks_of k) × (sock h.env ≡ sock k.env))
        → desired h ≡ desired k
    back (e, (f, g)) = rw (e, f, g)

desired_some : (h : Host) → desired h ≢ []
unfolding desired
desired_some h e = dashed (revision h.rev) _ e
  where
    dashed : (s b : Text) → s ++ b'-' ∷ b ≢ []
    dashed [] b e = cc
    dashed (c ∷ s) b e = cc

-- A running container that was brought up with the version of one state of the host is not stale in
-- another just when the revision, the stacks and the use of the socket are the same. (Neither revisions
-- nor stacks hold a dash.)
pub stale_iff :
    (c : Container) (h k : Host)
    → c.running ≡ true
    → lookup version_key c.env ≡ some (desired h)
    → NoDash (revision h.rev)
    → NoDash (revision k.rev)
    → NoDash (stacks_of h)
    → NoDash (stacks_of k)
    → (stale (some c) k ≡ false) ↔ (
        (revision h.rev ≡ revision k.rev)
        × ((stacks_of h ≡ stacks_of k) × (sock h.env ≡ sock k.env)))
unfolding stale running
stale_iff c h k u v r q s t =
    let law = desired_iff h k r q s t in
    let some_version : text_eq (desired h) [] ≡ false =
      ground (arith, desired_some h, text_eq_iff (desired h) []) in
    let e : running (some c) ≡ desired h = rw (u, v, running) refl in
    let same = text_eq_iff (desired h) (desired k) in
    (
      λ f. law.0 (ground (arith, f, e, some_version, same)),
      λ p. ground (arith, law.1 p, e, some_version, same),
    )
