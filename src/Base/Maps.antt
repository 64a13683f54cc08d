-- ===== src/Base/Maps.antt =====
-- Go's `map[string]V` as an association list: the newest entry of a key comes first.
use Prim.Native.String.{String}
use mathlib.Core.Path.{◌≡◌, refl}
use mathlib.Core.Option.{Option, none, some}
use mathlib.Core.List.{List, [], ◌∷◌}
use native.Mathlib.Omega.{arith}
use text.Mathlib.Text.{◌==◌ as str_eq}
use text.Mathlib.TextEquality.{eq_iff}
use mirabilis.Base.Tests.{if◌then◌else◌}

abbrev pub StringMap {ℓ} : Type ℓ → Type ℓ
StringMap V = List (String × V)

module _ {ℓ} {V : Type ℓ} where
  unfoldable pub lookup : String → StringMap V → Option V
  lookup k [] = none
  lookup k ((j, v) ∷ m) = if str_eq j k then some v else lookup k m

  unfoldable pub delete : String → StringMap V → StringMap V
  delete k [] = []
  delete k ((j, v) ∷ m) = let rest = delete k m in if str_eq j k then rest else (j, v) ∷ rest

  unfoldable pub insert : String → V → StringMap V → StringMap V
  unfolding delete
  insert k v m = (k, v) ∷ delete k m

  -- `for k, v := range src { dst[k] = v }`. A key stands once in `src`, so the order is free.
  unfoldable pub insert_all : StringMap V → StringMap V → StringMap V
  insert_all [] m = m
  insert_all ((k, v) ∷ src) m = insert k v (insert_all src m)

  pub lookup-delete :
      (k j : String) (m : StringMap V)
      → lookup j (delete k m) ≡ (if str_eq k j then none else lookup j m)
  unfolding lookup delete
  lookup-delete k j [] = ground arith
  lookup-delete k j ((i, v) ∷ m) =
      ground (arith, lookup-delete k j m, eq_iff i k, eq_iff i j, eq_iff k j)

  pub lookup-insert :
      (k j : String) (v : V) (m : StringMap V)
      → lookup j (insert k v m) ≡ (if str_eq k j then some v else lookup j m)
  unfolding insert lookup
  lookup-insert k j v m = let e = lookup-delete k j m in ground (arith, e)

  pub lookup-insert_all :
      (k : String) (src m : StringMap V)
      → lookup k (insert_all src m) ≡ elim (lookup k src) [ some v ↦ some v | none ↦ lookup k m ]
  unfolding insert_all lookup
  lookup-insert_all k [] m = refl
  lookup-insert_all k ((j, v) ∷ src) m =
      ground (arith, lookup-insert j k v (insert_all src m), lookup-insert_all k src m)
