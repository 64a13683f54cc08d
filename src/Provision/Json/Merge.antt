-- ===== src/Provision/Json/Merge.antt =====
-- Reading a key of what `mergeSettings` and the writes of a key make.
use mirabilis.Base.{
  String, Bool, true, false, Option, none, some, if◌then◌else◌, str_eq, eq_iff, ◌≡◌, refl, arith,
  Bool-cases, Option-cases, inl, inr, ap, ◌∙◌,
}
use mirabilis.Provision.Json.{
  Json, Members, no_members, member, get, put, remove, IsMap, managed, merge_settings, merge_member,
  merge_value,
}

pub get-put :
    (k j : String) (v : Json) (m : Members)
    → get j (put k v m) ≡ (if str_eq k j then some v else get j m)
unfolding get put
get-put k j v no_members = refl
get-put k j v (member i w m) = ground (arith, get-put k j v m, eq_iff i k, eq_iff i j, eq_iff k j)

pub get-remove :
    (k j : String) (m : Members) → get j (remove k m) ≡ (if str_eq k j then none else get j m)
unfolding get remove
get-remove k j no_members = ground arith
get-remove k j (member i w m) = ground (arith, get-remove k j m, eq_iff i k, eq_iff i j, eq_iff k j)

pub put_same : (k : String) (v : Json) (m : Members) → get k m ≡ some v → put k v m ≡ m
unfolding get put
put_same k v no_members h = cc
put_same k v (member i w m) h = elim (Bool-cases (str_eq i k)) [
  | inl e ↦ rw e (ap (λ x. member i x m) (ground arith))
  | inr e ↦ rw e (ap (member i w) (put_same k v m (ground arith)))
]

-- The value of a key of the merge, from the values in the settings and in the seed.
abbrev pub either {ℓ} : {A : Type ℓ} → A → Option A → A
either a none = a
either a (some b) = b

abbrev pub merged : Bool → Option Json → Option Json → Option Json
merged true d none = d
merged true d (some s) = some s
merged false d none = d
merged false none (some s) = some s
merged false (some d) (some s) = some (either d (merge_value d s))

get-merge_member :
    (k j : String) (v : Json) (out : Members)
    → get j (merge_member k v (λ d. merge_value d v) out)
      ≡ (if str_eq k j then merged (managed k) (get k out) (some v) else get j out)
unfolding merge_member
get-merge_member k j v out = elim (Bool-cases (managed k)) [
  | inl e ↦ rw e (get-put k j v out)
  | inr e ↦ rw e (elim (Option-cases (get k out)) [
    | inl f ↦ rw f (get-put k j v out)
    | inr (d, f) ↦ rw f (elim (Option-cases (merge_value d v)) [
      | inl g ↦ rw g (ground (arith, f, eq_iff k j))
      | inr (w, g) ↦ rw g (rw (get-put k j w out))
    ])
  ])
]

-- A key of the merged settings has the value of the seed where the key is managed or the settings
-- have none, both objects merged where both have one, and the value of the settings otherwise; a
-- key that the seed lacks keeps its value.
pub get-merge_settings :
    (dest seed : Members)
    → IsMap seed
    → (k : String) → get k (merge_settings dest seed) ≡ merged (managed k) (get k dest) (get k seed)
unfolding merge_settings get IsMap
get-merge_settings dest no_members u k = elim (Bool-cases (managed k)) [
  | inl e ↦ rw e
  | inr e ↦ rw e
]
get-merge_settings dest (member j v seed) u k =
    get-merge_member j k v (merge_settings dest seed) ∙ elim (Bool-cases (str_eq j k)) [
      | inl e ↦ rw e (ground (arith, eq_iff j k, get-merge_settings dest seed u.1.1 j))
      | inr e ↦ rw e (get-merge_settings dest seed u.1.1 k)
    ]
