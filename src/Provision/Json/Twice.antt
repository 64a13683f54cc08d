-- ===== src/Provision/Json/Twice.antt =====
-- Merging a seed again: `mergeSettings` of internal/engine/provision/settings.go.
use mirabilis.Base.{
  String, true, false, Option, none, some, str_eq, eq_iff, ◌≡◌, refl, arith, Bool-cases,
  Option-cases, inl, inr, ap, subst, ◌∙◌, sym,
}
use mirabilis.Provision.Json.{
  Json, null, boolean, number, string, array, object, Members, no_members, member, get, IsMap,
  IsMapValue, managed, merge_settings, merge_member, merge_value,
}
use mirabilis.Provision.Json.Merge.{put_same, get-merge_settings, merged, either}

-- What merging a member of the seed would set is there already.
IsSettled : Members → String → Json → Type 0
IsSettled m k v =
    (w : Json) × (get k m ≡ some w)
    × ((managed k ≡ true → w ≡ v) × (managed k ≡ false → either w (merge_value w v) ≡ w))

merge_member-settled :
    (m : Members) (k : String) (v : Json)
    → IsSettled m k v
    → merge_member k v (λ d. merge_value d v) m ≡ m
unfolding merge_member IsSettled
merge_member-settled m k v (w, e, (s, t)) = elim (Bool-cases (managed k)) [
  | inl f ↦ rw f (put_same k v m (e ∙ ap some (s f)))
  | inr f ↦
      rw (f, e)
        (elim (Option-cases (merge_value w v)) [
          | inl g ↦ rw g
          | inr (x, g) ↦ rw g (put_same k x m (e ∙ ap some (sym (t f) ∙ ap (either w) g)))
        ])
]

merge_settings-settled :
    (m seed : Members)
    → IsMap seed
    → ((k : String) (v : Json) → get k seed ≡ some v → IsSettled m k v)
    → merge_settings m seed ≡ m
unfolding merge_settings IsMap get
merge_settings-settled m no_members u h = refl
merge_settings-settled m (member k v seed) u h =
    ap (merge_member k v (λ d. merge_value d v))
      (merge_settings-settled m seed u.1.1 (λ j w e. h j w (ground (arith, eq_iff k j, e, u.0))))
    ∙ merge_member-settled m k v (h k v (ground (arith, eq_iff k k)))

AllValues : (Json → Type 0) → Members → Type 0
AllValues P no_members = Unit
AllValues P (member k v m) = P v × AllValues P m

get-AllValues :
    (P : Json → Type 0) (m : Members)
    → AllValues P m
    → (k : String) (v : Json) → get k m ≡ some v
    → P v
unfolding AllValues get
get-AllValues P no_members a k v e = cc
get-AllValues P (member j w m) a k v e = elim (Bool-cases (str_eq j k)) [
  | inl f ↦ subst P (ground arith) a.0
  | inr f ↦ get-AllValues P m a.1 k v (ground arith)
]

abbrev MergesItself : Json → Type 0
MergesItself v = either v (merge_value v v) ≡ v

mutual
  unfolding merge_settings IsMap AllValues IsSettled

  value-MergesItself : (v : Json) → IsMapValue v → MergesItself v
  value-MergesItself null u = refl
  value-MergesItself (boolean b) u = refl
  value-MergesItself (number t) u = refl
  value-MergesItself (string t) u = refl
  value-MergesItself (array xs) u = refl
  value-MergesItself (object m) u =
      let all = values-MergesItself m u in
      ap object (
        merge_settings-settled m m u
          (λ k v e. (v, e, ((λ f. refl), (λ f. get-AllValues MergesItself m all k v e)))))

  values-MergesItself : (m : Members) → IsMap m → AllValues MergesItself m
  values-MergesItself no_members u = tt
  values-MergesItself (member k v m) u = (value-MergesItself v u.1.0, values-MergesItself m u.1.1)

-- A value that has been merged over `d` stays when it is merged again.
abbrev MergesOnce : Json → Type 0
MergesOnce v = (d : Json) → let w = either d (merge_value d v) in either w (merge_value w v) ≡ w

merged-IsSettled :
    (m : Members) (k : String) (d : Option Json) (v : Json)
    → MergesItself v
    → MergesOnce v
    → get k m ≡ merged (managed k) d (some v)
    → IsSettled m k v
unfolding IsSettled
merged-IsSettled m k none v self once e = elim (Bool-cases (managed k)) [
  | inl f ↦ (v, ground (arith, e, f), ((λ g. refl), (λ g. cc)))
  | inr f ↦ (v, ground (arith, e, f), ((λ g. cc), (λ g. self)))
]
merged-IsSettled m k (some d) v self once e = elim (Bool-cases (managed k)) [
  | inl f ↦ (v, ground (arith, e, f), ((λ g. refl), (λ g. cc)))
  | inr f ↦ (either d (merge_value d v), ground (arith, e, f), ((λ g. cc), (λ g. once d)))
]

twice :
    (dest seed : Members)
    → IsMap seed
    → AllValues MergesOnce seed
    → merge_settings (merge_settings dest seed) seed ≡ merge_settings dest seed
twice dest seed u once = merge_settings-settled (merge_settings dest seed) seed u (λ k v e.
    merged-IsSettled (merge_settings dest seed) k (get k dest) v
      (get-AllValues MergesItself seed (values-MergesItself seed u) k v e)
      (get-AllValues MergesOnce seed once k v e)
      (get-merge_settings dest seed u k ∙ ap (merged (managed k) (get k dest)) e))

mutual
  unfolding merge_settings IsMap AllValues

  value-MergesOnce : (v : Json) → IsMapValue v → MergesOnce v
  value-MergesOnce (object s) u (object d) = ap object (twice d s u (values-MergesOnce s u))
  value-MergesOnce (object s) u null = refl
  value-MergesOnce (object s) u (boolean b) = refl
  value-MergesOnce (object s) u (number t) = refl
  value-MergesOnce (object s) u (string t) = refl
  value-MergesOnce (object s) u (array xs) = refl
  value-MergesOnce null u d = ground arith
  value-MergesOnce (boolean b) u d = ground arith
  value-MergesOnce (number t) u d = ground arith
  value-MergesOnce (string t) u d = ground arith
  value-MergesOnce (array xs) u d = ground arith

  values-MergesOnce : (m : Members) → IsMap m → AllValues MergesOnce m
  values-MergesOnce no_members u = tt
  values-MergesOnce (member k v m) u = (value-MergesOnce v u.1.0, values-MergesOnce m u.1.1)

-- Merging the same seed a second time changes nothing, at any depth.
pub merge_settings_twice :
    (dest seed : Members)
    → IsMap seed
    → merge_settings (merge_settings dest seed) seed ≡ merge_settings dest seed
merge_settings_twice dest seed u = twice dest seed u (values-MergesOnce seed u)
