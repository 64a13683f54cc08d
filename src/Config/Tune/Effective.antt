-- ===== src/Config/Tune/Effective.antt =====
-- What is written by the tune screen takes effect, and what is cleared falls back to the loadout.
use mirabilis.Base.{
  ◌≡◌, refl, ◌≢◌, ◌⊎◌, inl, inr, Bool, true, false, Option, none, some, [], ◌∷◌, arith, Bool-cases,
  ◌&&◌,
}
use mirabilis.Text.{Text, codes, text_eq, trim_space, split_lines}
use mirabilis.Text.Lines.{IsLine, text_eq_iff}
use mirabilis.Config.Env.{
  content, env_read, env_write, env_clear, sets_key, keep_lines, close_lines,
}
use mirabilis.Config.Env.Lines.{IsKey}
use mirabilis.Config.Env.Laws.{env_read-env_write, env_read-env_clear}
use mirabilis.Config.Tune.{
  Repo, loadout_key, effort_key, batch_key, active_loadout, nonempty, read_effort_override,
  read_batch_override, launch_batched, effective_effort, effective_tune, flag, write_tune,
  clear_tune, allowed_mode,
}

effort-IsKey : IsKey effort_key
effort-IsKey = omega arith

batch-IsKey : IsKey batch_key
batch-IsKey = omega arith

loadout-IsKey : IsKey loadout_key
loadout-IsKey = omega arith

flag-IsLine : (on : Bool) → IsLine (flag on)
flag-IsLine true = omega arith
flag-IsLine false = omega arith

-- The three keys differ.
apart :
    (text_eq batch_key effort_key ≡ false)
    × (text_eq batch_key loadout_key ≡ false)
    × (text_eq effort_key loadout_key ≡ false)
    × (text_eq effort_key batch_key ≡ false)
    × (text_eq batch_key batch_key ≡ true)
    × (text_eq effort_key effort_key ≡ true)
    × (text_eq loadout_key loadout_key ≡ true)
unfolding text_eq
apart = (refl, refl, refl, refl, refl, refl, refl)

flag-read : (on : Bool) → nonempty (some (trim_space (flag on))) ≡ some (flag on)
unfolding nonempty trim_space
flag-read true = refl
flag-read false = refl

flag-on : (on : Bool) → text_eq (flag on) (codes "1") ≡ on
unfolding text_eq
flag-on true = refl
flag-on false = refl

nonempty-some : (t : Text) → t ≢ [] → nonempty (some t) ≡ some t
unfolding nonempty
nonempty-some [] h = absurd (h refl)
nonempty-some (c ∷ s) h = refl

module _ (r : Repo) (effort : Text) (fleet : Bool) (line : IsLine effort) where
  batch_written : read_batch_override (write_tune effort fleet r) ≡ some fleet
  unfolding read_batch_override write_tune
  batch_written =
      let read =
        env_read-env_write batch_key batch_key (flag fleet) (env_write effort_key effort r.env)
          batch-IsKey batch-IsKey (flag-IsLine fleet) in
      rw (read, read_batch_override) (rw apart.4 (ground (arith, flag-read fleet, flag-on fleet)))

  effort_written :
      trim_space effort ≢ []
      → read_effort_override (write_tune effort fleet r) ≡ some (trim_space effort)
  unfolding read_effort_override write_tune
  effort_written some_left =
      let over =
        env_read-env_write effort_key batch_key (flag fleet) (env_write effort_key effort r.env)
          effort-IsKey batch-IsKey (flag-IsLine fleet) in
      let read =
        env_read-env_write effort_key effort_key effort r.env effort-IsKey effort-IsKey line in
      rw over (rw apart.0 (rw read (rw apart.5 (nonempty-some (trim_space effort) some_left))))

-- A tune that has been written is the tune that takes effect, whatever the file held before and
-- whatever the loadout says: the effort without the spaces around it, if anything is left of it,
-- and the fleet setting.
pub effective_tune-write_tune :
    (r : Repo) (effort : Text) (fleet : Bool)
    → IsLine effort
    → trim_space effort ≢ []
    → effective_tune (write_tune effort fleet r) ≡ (trim_space effort, fleet)
unfolding effective_tune effective_effort launch_batched
effective_tune-write_tune r effort fleet line some_left =
    ground (arith, batch_written r effort fleet line, effort_written r effort fleet line some_left)

env_clear-content : (k s : Text) → (t : Text) × (env_clear k (content s) ≡ (content t, false))
unfolding env_clear
env_clear-content k s = elim (Bool-cases (sets_key k (split_lines s))) [
  | inl e ↦ (close_lines (keep_lines k (split_lines s)), rw e)
  | inr e ↦ (s, rw e)
]

-- What is left of a file after both overrides are cleared.
cleared :
    (s : Text) (p : Option Text) (m : Text → Option Text)
    → (t : Text) × (clear_tune (record { env = content s; packs = p; manifests = m })
        ≡ (record { env = content t; packs = p; manifests = m }, false))
      × (env_read batch_key (content t) ≡ none)
      × (env_read effort_key (content t) ≡ none)
      × (env_read loadout_key (content t) ≡ env_read loadout_key (content s))
unfolding clear_tune
cleared s p m =
    let (u, e) = env_clear-content effort_key s in
    let (t, f) = env_clear-content batch_key u in
    let first = λ (j : Text) (h : IsKey j). env_read-env_clear j effort_key s h effort-IsKey in
    let second = λ (j : Text) (h : IsKey j). env_read-env_clear j batch_key u h batch-IsKey in
    (
      t,
      ground (arith, e, f),
      ground (arith, f, second batch_key batch-IsKey, apart),
      ground (arith, e, f, second effort_key effort-IsKey, first effort_key effort-IsKey, apart),
      ground
          (arith, e, f, second loadout_key loadout-IsKey, first loadout_key loadout-IsKey, apart),
    )

-- After the tune is cleared in a file that can be read, no override is left and the active
-- loadout, which is the same as before, decides: its effort, and its batch setting if its
-- manifest exists.
pub effective_tune-clear_tune :
    (s : Text) (p : Option Text) (m : Text → Option Text)
    → let r : Repo = record { env = content s; packs = p; manifests = m } in
      let (after, failed) = clear_tune r in
      (failed ≡ false)
      × (effective_tune after
          ≡ ((active_loadout r).0.effort, (active_loadout r).1 && (active_loadout r).0.batch))
unfolding effective_tune effective_effort launch_batched read_batch_override read_effort_override
    nonempty active_loadout
effective_tune-clear_tune s p m =
    let (t, e, batch, effort, loadout) = cleared s p m in ground (arith, e, batch, effort, loadout)

allowed_mode_known :
    (v : Text) → (allowed_mode v ≡ codes "cache") ⊎ (allowed_mode v ≡ codes "token")
unfolding allowed_mode
allowed_mode_known v = elim (Bool-cases (text_eq v (codes "cache"))) [
  | inl e ↦ rw e (inl ((text_eq_iff v (codes "cache")).0 e))
  | inr e ↦ elim (Bool-cases (text_eq v (codes "token"))) [
    | inl f ↦ rw e (rw f (inr ((text_eq_iff v (codes "token")).0 f)))
    | inr f ↦ rw e (rw f (inl refl))
  ]
]
