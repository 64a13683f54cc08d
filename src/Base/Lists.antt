-- ===== src/Base/Lists.antt =====
-- Lists measured by native numbers, predicates over every entry, and membership as a test.
use Prim.Native.Nat.{ℕ, zero, suc, ◌+◌, ◌-◌}
use Prim.Native.String.{String}
use mathlib.Core.Path.{◌≡◌, refl, sym}
use mathlib.Core.Logic.{inl, inr}
use mathlib.Core.Bool.{Bool, true, false, ◌||◌}
use mathlib.Core.List.{List, [], ◌∷◌, ◌++◌, Memᴰ}
use native.Mathlib.Omega.{arith}
use text.Mathlib.Text.{◌==◌ as str_eq}
use text.Mathlib.TextEquality.{eq_iff}
use mirabilis.Base.Tests.{Bool-cases}

module _ {ℓ} {A : Type ℓ} where
  abbrev pub length : List A → ℕ
  length [] = 0
  length (x ∷ xs) = suc (length xs)

  abbrev pub take : ℕ → List A → List A
  take zero xs = []
  take (suc n) [] = []
  take (suc n) (x ∷ xs) = x ∷ take n xs

  abbrev pub drop : ℕ → List A → List A
  drop zero xs = xs
  drop (suc n) [] = []
  drop (suc n) (x ∷ xs) = drop n xs

  pub length-append : (xs ys : List A) → length (xs ++ ys) ≡ length xs + length ys
  length-append [] ys = omega arith
  length-append (x ∷ xs) ys = omega (arith, length-append xs ys)

  pub length-drop : (n : ℕ) (xs : List A) → length (drop n xs) ≡ length xs - n
  length-drop zero xs = omega arith
  length-drop (suc n) [] = omega arith
  length-drop (suc n) (x ∷ xs) = omega (arith, length-drop n xs)

-- A predicate that holds of every entry.
abbrev pub All {ℓ κ} : {A : Type ℓ} → (A → Type κ) → List A → Type κ
All P [] = Unit
All P (x ∷ xs) = P x × All P xs

-- The test behind Go's `set[name]` and `slices.Contains`.
unfoldable pub contains : List String → String → Bool
contains [] a = false
contains (x ∷ xs) a = str_eq x a || contains xs a

pub contains-cons :
    (x a : String) (xs : List String) → contains (x ∷ xs) a ≡ (str_eq x a || contains xs a)
unfolding contains
contains-cons x a xs = refl

pub contains-mem : (xs : List String) (a : String) → contains xs a ≡ true → Memᴰ a xs
unfolding contains
contains-mem [] a h = cc
contains-mem (x ∷ xs) a h = elim (Bool-cases (str_eq x a)) [
  | inl e ↦ Memᴰ.head (sym ((eq_iff x a).0 e))
  | inr e ↦ Memᴰ.tail (contains-mem xs a (ground arith))
]

pub mem-contains : (xs : List String) (a : String) → Memᴰ a xs → contains xs a ≡ true
unfolding contains
mem-contains [] a m = elim m [ ]
mem-contains (x ∷ xs) a (Memᴰ.head e) = ground (arith, eq_iff x a)
mem-contains (x ∷ xs) a (Memᴰ.tail m) = ground (arith, mem-contains xs a m)
