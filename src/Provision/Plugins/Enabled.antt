-- ===== src/Provision/Plugins/Enabled.antt =====
-- After an installation without errors the plugins are listed and enabled:
-- internal/engine/provision/plugins/plugins.go.
use mirabilis.Base.{
  String, Bool, true, false, not, ◌||◌, some, is_some, List, [], ◌∷◌, ◌≡◌, refl, sym, ◌∙◌, arith,
  All, Bool-cases, inl, inr, str_eq, eq_iff,
}
use mirabilis.Text.{Text}
use mirabilis.Provision.Json.{boolean, object, Members, no_members, member, get, put}
use mirabilis.Provision.Belt.Checks.{get-put_self}
use mirabilis.Provision.Home.{
  File, absent, unreadable, garbled, holds_null, holds, ok, Disk, exists, read_json, update_json,
  write_json,
}
use mirabilis.Provision.Install.{missing}
use mirabilis.Provision.Install.Missing.{missing-has}
use mirabilis.Provision.Plugins.{
  Plan, neuro_matrix, allowed, enable_all, build_plan, Claude, is_listed, all_listed, is_true,
  all_true_in, equals_enabled, settings_hold, write_enabled, satisfied, apply,
}

abbrev IsAllTrue : Members → Type 0
IsAllTrue no_members = Unit
IsAllTrue (member k v m) = (is_true (some v) ≡ true) × IsAllTrue m

put-IsAllTrue : (k : String) (m : Members) → IsAllTrue m → IsAllTrue (put k (boolean true) m)
unfolding put is_true
put-IsAllTrue k no_members h = (refl, tt)
put-IsAllTrue k (member j v m) h = elim (Bool-cases (str_eq j k)) [
  | inl e ↦ rw e (refl, h.1)
  | inr e ↦ rw e (h.0, put-IsAllTrue k m h.1)
]

enable_all-IsAllTrue : (ps : List String) (m : Members) → IsAllTrue m → IsAllTrue (enable_all ps m)
unfolding enable_all
enable_all-IsAllTrue [] m h = h
enable_all-IsAllTrue (p ∷ ps) m h =
    enable_all-IsAllTrue ps (put p (boolean true) m) (put-IsAllTrue p m h)

get-true :
    (k : String) (m : Members) → IsAllTrue m → is_some (get k m) ≡ true → is_true (get k m) ≡ true
unfolding get
get-true k no_members h e = cc
get-true k (member j v m) h e = elim (Bool-cases (str_eq j k)) [
  | inl f ↦ rw f h.0
  | inr f ↦ rw f (get-true k m h.1 (ground (arith, e, f)))
]

all_true_in_self :
    (m n : Members)
    → IsAllTrue m
    → IsAllTrue n
    → ((k : String) → is_some (get k m) ≡ true → is_some (get k n) ≡ true)
    → all_true_in m n ≡ true
unfolding all_true_in get
all_true_in_self no_members n g h k = refl
all_true_in_self (member j v m) n g h k =
    let here = k j (ground (arith, eq_iff j j)) in
    rw (g.0, get-true j n h here) (all_true_in_self m n g.1 h (λ i e. k i (ground (arith, e))))

equals_self : (m : Members) → IsAllTrue m → equals_enabled (some (object m)) m ≡ true
unfolding equals_enabled
equals_self m h = rw (all_true_in_self m m h h (λ k e. e)) refl

plan-IsAllTrue :
    (catalog disabled : List String) (skip : Bool) (markets : List String)
    → IsAllTrue (build_plan catalog disabled skip markets).enabled
unfolding build_plan
plan-IsAllTrue catalog disabled true markets =
    enable_all-IsAllTrue (allowed catalog disabled) no_members tt
plan-IsAllTrue catalog disabled false markets =
    enable_all-IsAllTrue (allowed catalog disabled) (put neuro_matrix (boolean true) no_members)
      (put-IsAllTrue neuro_matrix no_members tt)

written-hold :
    (d : Disk) (m : Members) (file : File)
    → IsAllTrue m
    → (write_enabled d m file).0 ≡ ok
    → settings_hold (write_enabled d m file).1 m ≡ true
unfolding write_enabled settings_hold exists update_json read_json write_json
written-hold d m absent t h = refl
written-hold d m unreadable t h = cc
written-hold d m garbled t h = cc
written-hold d m holds_null t h = cc
written-hold d m (holds n) t h = elim (Bool-cases d.replaces) [
  | inl e ↦ rw e (rw (get-put_self "enabledPlugins" (object m) n) (equals_self m t))
  | inr e ↦ ground (arith, e, h)
]

-- What the documentation of claude says: what it lists is kept by an installation, and a plugin that has been
-- installed is listed.
pub record ClaudeLaws {ℓ} {W : Type ℓ} (c : Claude W) : Type ℓ where
  pub install_keeps :
      (q p : String) (w : W)
      → is_listed (c.listed w) p ≡ true
      → is_listed (c.listed (c.install q w).1) p ≡ true
  pub adds :
      (p : String) (w : W)
      → (c.install p w).0 ≡ true
      → is_listed (c.listed (c.install p w).1) p ≡ true

all_listed-All :
    (listed : Text) (ps : List String)
    → All (λ p. is_listed listed p ≡ true) ps
    → all_listed listed ps ≡ true
unfolding all_listed
all_listed-All listed [] h = refl
all_listed-All listed (p ∷ ps) h = rw h.0 (all_listed-All listed ps h.1)

All-Unit : (ps : List String) → All (λ p. Unit {0}) ps
All-Unit [] = tt
All-Unit (p ∷ ps) = (tt, All-Unit ps)

module _ {ℓ} {W : Type ℓ} (c : Claude W) (laws : ClaudeLaws c) (d : Disk) where
  satisfied-idle :
      (plan : Plan) (file : File) (w : W)
      → not c.runs || not plan.configured ≡ true
      → satisfied c plan (apply d c plan file w).settings (apply d c plan file w).world ≡ true
  unfolding satisfied
  satisfied-idle plan file w e = rw e refl

  satisfied-done :
      (plan : Plan) (file : File) (w : W)
      → all_listed (c.listed w) plan.units ≡ true
      → settings_hold file plan.enabled ≡ true
      → satisfied c plan file w ≡ true
  unfolding satisfied
  satisfied-done plan file w a h = elim (Bool-cases (not c.runs || not plan.configured)) [
    | inl e ↦ rw e refl
    | inr e ↦ rw e (rw (a, h) refl)
  ]

  -- What a run leaves that has something to do.
  abbrev added : Plan → W → W
  added plan w = (missing (λ p. false) c.add_market plan.marketplaces w).1

  abbrev tried : Plan → W → List String × W
  tried plan w = missing (is_listed (c.listed (added plan w))) c.install plan.units (added plan w)

  abbrev left : Plan → File → W → File
  left plan file w = c.settings_after (tried plan w).1 file

  apply-parts :
      (plan : Plan) (file : File) (w : W)
      → not c.runs || not plan.configured ≡ false
      → ((apply d c plan file w).plugins ≡ (tried plan w).0)
        × (((apply d c plan file w).wrote ≡ (write_enabled d plan.enabled (left plan file w)).0)
            × (((apply d c plan file w).world ≡ (tried plan w).1)
                × ((apply d c plan file w).settings
                    ≡ (write_enabled d plan.enabled (left plan file w)).1)))
  unfolding apply
  apply-parts plan file w e = (rw e refl, (rw e refl, (rw e refl, rw e refl)))

  -- A run of the plugins step that installs every plugin and writes the settings leaves its check satisfied:
  -- the plugins are listed, and the settings enable just those of the plan. A marketplace that could
  -- not be added does not matter. (What is assumed of claude is what its documentation says.)
  pub apply-satisfied :
      (catalog disabled : List String) (skip : Bool) (markets : List String) (file : File) (w : W)
      → (apply d c (build_plan catalog disabled skip markets) file w).plugins ≡ []
      → (apply d c (build_plan catalog disabled skip markets) file w).wrote ≡ ok
      → satisfied c
          (build_plan catalog disabled skip markets)
          (apply d c (build_plan catalog disabled skip markets) file w).settings
          (apply d c (build_plan catalog disabled skip markets) file w).world
        ≡ true
  apply-satisfied catalog disabled skip markets file w p h =
      let plan = build_plan catalog disabled skip markets in
      elim (Bool-cases (not c.runs || not plan.configured)) [
        | inl e ↦ satisfied-idle plan file w e
        | inr e ↦
            let (f, (g, (same, set))) = apply-parts plan file w e in
            let here =
              missing-has (λ v. is_listed (c.listed v)) c.install
                (λ q u v. laws.install_keeps q u v) (λ u. Unit {0}) (λ u v t. laws.adds u v)
                (is_listed (c.listed (added plan w))) plan.units (added plan w)
                (All-Unit plan.units) (sym f ∙ p) (λ u j. j) in
            rw (same, set)
              (satisfied-done plan (write_enabled d plan.enabled (left plan file w)).1
                (tried plan w).1 (all_listed-All (c.listed (tried plan w).1) plan.units here)
                (written-hold d plan.enabled (left plan file w)
                  (plan-IsAllTrue catalog disabled skip markets) (sym g ∙ h)))
      ]
