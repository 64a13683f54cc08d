-- ===== src/Provision/Json.antt =====
-- JSON values as internal/engine/provision reads them from a file, and `mergeSettings` of its
-- settings.go. An object is a Go map: its members stand in some order, each key once.
pub mod Merge
pub mod Twice
use mirabilis.Base.{
  String, Bool, true, false, ◌||◌, Option, none, some, List, [], ◌∷◌, if◌then◌else◌, str_eq,
  contains, ◌≡◌,
}
use mirabilis.Text.{Text}

-- A number is kept as its text, since the decoder uses `json.Number`.
mutual
  pub data Json : Type 0 where
    null : Json
    boolean : Bool → Json
    number : Text → Json
    string : Text → Json
    array : Items → Json
    object : Members → Json

  pub data Items : Type 0 where
    no_items : Items
    item : Json → Items → Items

  pub data Members : Type 0 where
    no_members : Members
    member : String → Json → Members → Members

-- `v, ok := m[k]`
unfoldable pub get : String → Members → Option Json
get k no_members = none
get k (member j v m) = if str_eq j k then some v else get k m

-- `m[k] = v`
unfoldable pub put : String → Json → Members → Members
put k v no_members = member k v no_members
put k v (member j w m) =
    let rest = put k v m in if str_eq j k then member j v m else member j w rest

-- `delete(m, k)`
unfoldable pub remove : String → Members → Members
remove k no_members = no_members
remove k (member j w m) = let rest = remove k m in if str_eq j k then rest else member j w rest

-- Each key stands once, also in the objects within.
unfoldable mutual
  pub IsMap : Members → Type 0
  IsMap no_members = Unit
  IsMap (member k v m) = (get k m ≡ none) × (IsMapValue v × IsMap m)

  pub IsMapValue : Json → Type 0
  IsMapValue (object m) = IsMap m
  IsMapValue null = Unit
  IsMapValue (boolean b) = Unit
  IsMapValue (number t) = Unit
  IsMapValue (string t) = Unit
  IsMapValue (array xs) = Unit

-- The value of an interface as a map, which is nil for another value.
unfoldable pub as_map : Option Json → Members
as_map (some (object m)) = m
as_map (some null) = no_members
as_map (some (boolean b)) = no_members
as_map (some (number t)) = no_members
as_map (some (string t)) = no_members
as_map (some (array xs)) = no_members
as_map none = no_members

abbrev pub seed_managed_keys : List String
seed_managed_keys = "hooks" ∷ "statusLine" ∷ "env" ∷ []

abbrev pub managed : String → Bool
managed k = contains seed_managed_keys k

-- A round of the loop of `mergeSettings`. `merge` gives the value to set where both are maps.
unfoldable pub merge_member : String → Json → (Json → Option Json) → Members → Members
merge_member k v merge out = if managed k then put k v out else elim (get k out) [
  | none ↦ put k v out
  | some dv ↦ elim (merge dv) [ none ↦ out | some w ↦ put k w out ]
]

-- The loop over the seed takes its keys in any order; here the last one comes first.
unfoldable mutual
  pub merge_settings : Members → Members → Members
  merge_settings dest no_members = dest
  merge_settings dest (member k v seed) =
      merge_member k v (λ d. merge_value d v) (merge_settings dest seed)

  pub merge_value : Json → Json → Option Json
  merge_value (object d) (object s) = some (object (merge_settings d s))
  merge_value (object d) null = none
  merge_value (object d) (boolean b) = none
  merge_value (object d) (number t) = none
  merge_value (object d) (string t) = none
  merge_value (object d) (array xs) = none
  merge_value null s = none
  merge_value (boolean b) s = none
  merge_value (number t) s = none
  merge_value (string t) s = none
  merge_value (array xs) s = none
