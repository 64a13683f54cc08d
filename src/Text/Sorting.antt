-- ===== src/Text/Sorting.antt =====
-- `slices.Sort` on texts, as `setsEqual` of internal/engine/steps/helpers.go uses it. Texts are ordered
-- by their code points, which is how their bytes order them.
use mirabilis.Base.{
  ◌≡◌, ◌↔◌, ◌⊎◌, refl, ap, ◌∙◌, sym, inl, inr, Bool, true, false, List, [], ◌∷◌, arith, Bool-cases,
  ltb, ◌==◌, if◌then◌else◌, Permᴰ, subst,
}
use mathlib.Core.List.Permᴰ
use mirabilis.Text.{Text}

unfoldable pub text_leb : Text → Text → Bool
text_leb [] t = true
text_leb (x ∷ s) [] = false
text_leb (x ∷ s) (y ∷ t) =
    let rest = text_leb s t in if ltb x y then true else if x == y then rest else false

text_leb_total : (s t : Text) → (text_leb s t ≡ true) ⊎ (text_leb t s ≡ true)
unfolding text_leb
text_leb_total [] t = inl refl
text_leb_total (x ∷ s) [] = inr refl
text_leb_total (x ∷ s) (y ∷ t) = elim (text_leb_total s t) [
  | inl h ↦ ground (arith, h)
  | inr h ↦ ground (arith, h)
]

text_leb_antisym : (s t : Text) → text_leb s t ≡ true → text_leb t s ≡ true → s ≡ t
unfolding text_leb
text_leb_antisym [] [] g h = refl
text_leb_antisym [] (y ∷ t) g h = cc
text_leb_antisym (x ∷ s) [] g h = cc
text_leb_antisym (x ∷ s) (y ∷ t) g h = ground (arith, g, h, text_leb_antisym s t)

text_leb_trans : (s t u : Text) → text_leb s t ≡ true → text_leb t u ≡ true → text_leb s u ≡ true
unfolding text_leb
text_leb_trans [] t u g h = refl
text_leb_trans (x ∷ s) [] u g h = cc
text_leb_trans (x ∷ s) (y ∷ t) [] g h = cc
text_leb_trans (x ∷ s) (y ∷ t) (z ∷ u) g h = ground (arith, g, h, text_leb_trans s t u)

unfoldable pub insert_sorted : Text → List Text → List Text
unfolding text_leb
insert_sorted a [] = a ∷ []
insert_sorted a (y ∷ ys) =
    let rest = insert_sorted a ys in if text_leb a y then a ∷ y ∷ ys else y ∷ rest

unfoldable pub sort : List Text → List Text
unfolding insert_sorted
sort [] = []
sort (x ∷ xs) = insert_sorted x (sort xs)

insert_sorted_ordered :
    (a b y : Text) (l : List Text)
    → text_leb a b ≡ true
    → insert_sorted a (insert_sorted b l) ≡ insert_sorted b (insert_sorted a l)
    → insert_sorted a (insert_sorted b (y ∷ l)) ≡ insert_sorted b (insert_sorted a (y ∷ l))
unfolding insert_sorted
insert_sorted_ordered a b y l h e = elim (Bool-cases (text_leb b y)) [
  | inl f ↦ let g = text_leb_trans a b y h f in ground (arith, f, g, h, text_leb_antisym a b h)
  | inr f ↦ elim (Bool-cases (text_leb a y)) [
    | inl g ↦ ground (arith, f, g, h, text_leb_trans b a y)
    | inr g ↦ ground (arith, f, g, e)
  ]
]

insert_sorted_comm :
    (a b : Text) (l : List Text)
    → insert_sorted a (insert_sorted b l) ≡ insert_sorted b (insert_sorted a l)
unfolding insert_sorted
insert_sorted_comm a b [] = ground (arith, text_leb_total a b, text_leb_antisym a b)
insert_sorted_comm a b (y ∷ l) = elim (text_leb_total a b) [
  | inl h ↦ insert_sorted_ordered a b y l h (insert_sorted_comm a b l)
  | inr h ↦ sym (insert_sorted_ordered b a y l h (sym (insert_sorted_comm a b l)))
]

sort-perm : {xs ys : List Text} → Permᴰ xs ys → sort xs ≡ sort ys
unfolding sort
sort-perm Permᴰ.nil = refl
sort-perm (Permᴰ.cons {b = b} e p) = rw e (ap (insert_sorted b) (sort-perm p))
sort-perm (Permᴰ.swap {a' = x} {b' = y} {l = l} e f) = rw e (rw f (insert_sorted_comm y x (sort l)))
sort-perm (Permᴰ.trans p q) = sort-perm p ∙ sort-perm q

insert_sorted-perm : (a : Text) (l : List Text) → Permᴰ (a ∷ l) (insert_sorted a l)
unfolding insert_sorted
insert_sorted-perm a [] = Permᴰ.refl (a ∷ [])
insert_sorted-perm a (y ∷ l) = elim (Bool-cases (text_leb a y)) [
  | inl e ↦ rw e (Permᴰ.refl (a ∷ y ∷ l))
  | inr e ↦ rw e (Permᴰ.trans (Permᴰ.swap refl refl) (Permᴰ.cons refl (insert_sorted-perm a l)))
]

perm-sort : (xs : List Text) → Permᴰ xs (sort xs)
unfolding sort
perm-sort [] = Permᴰ.nil
perm-sort (x ∷ xs) = Permᴰ.trans (Permᴰ.cons refl (perm-sort xs)) (insert_sorted-perm x (sort xs))

-- Two lists are sorted into the same list just when one is a permutation of the other.
pub sort-same_iff : (xs ys : List Text) → (sort xs ≡ sort ys) ↔ Permᴰ xs ys
sort-same_iff xs ys = (
  λ e. Permᴰ.trans (perm-sort xs) (subst (λ l. Permᴰ l ys) (sym e) (Permᴰ.symm (perm-sort ys))),
  λ p. sort-perm p,
)
