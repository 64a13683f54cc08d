-- ===== src/Frame/Menu.antt =====
-- Where the cursor of the menu stands: internal/tui/frame/frame.go.
use mirabilis.Base.{
  ℕ, zero, suc, ◌+◌, ◌-◌, ◌≤◌, ◌<◌, ◌≡◌, refl, sym, ap, ◌∙◌, subst, true, false, none, some, List,
  [], ◌∷◌, length, drop, arith, Bool-cases, Option-cases, inl, inr, ◌⊎◌,
}
use mirabilis.Frame.{Item, scan_from, scan_back, first_enabled, item_at, is_enabled}

-- Is the item with this index enabled? An index outside the list has none.
abbrev pub EnabledAt : ℕ → List Item → Type 0
EnabledAt i items = is_enabled (item_at i items) ≡ true

pub EnabledAt-bound : (i : ℕ) (items : List Item) → EnabledAt i items → i < length items
unfolding item_at
EnabledAt-bound i [] h = cc
EnabledAt-bound zero (it ∷ its) h = omega arith
EnabledAt-bound (suc i) (it ∷ its) h = omega (arith, EnabledAt-bound i its h)

pub item_at-bound :
    (i : ℕ) (items : List Item) → i < length items → (it : Item) × (item_at i items ≡ some it)
unfolding item_at
item_at-bound i [] h = absurd (omega (arith, h))
item_at-bound zero (it ∷ its) h = (it, refl)
item_at-bound (suc i) (it ∷ its) h = item_at-bound i its (omega (arith, h))

item_at-drop : (n k : ℕ) (items : List Item) → item_at k (drop n items) ≡ item_at (n + k) items
unfolding item_at
item_at-drop zero k items = ap (λ j. item_at j items) (omega arith)
item_at-drop (suc n) k [] = refl
item_at-drop (suc n) k (it ∷ its) =
    item_at-drop n k its ∙ ap (λ j. item_at j (it ∷ its)) {x = suc (n + k)} (omega arith)

-- The first item that is enabled has the index `n`.
IsFirst : ℕ → List Item → Type 0
IsFirst n items = EnabledAt n items × ((j : ℕ) → j < n → is_enabled (item_at j items) ≡ false)

later_disabled :
    (it : Item) (its : List Item) (n : ℕ)
    → it.enabled ≡ false
    → ((j : ℕ) → j < n → is_enabled (item_at j its) ≡ false)
    → (j : ℕ) → j < suc n
    → is_enabled (item_at j (it ∷ its)) ≡ false
unfolding item_at
later_disabled it its n e h zero l = e
later_disabled it its n e h (suc j) l = h j (omega (arith, l))

scan_from-IsFirst :
    (i k : ℕ) (items : List Item)
    → scan_from i items ≡ some k
    → (n : ℕ) × ((k ≡ i + n) × IsFirst n items)
unfolding scan_from item_at IsFirst
scan_from-IsFirst i k [] h = cc
scan_from-IsFirst i k (it ∷ its) h = elim (Bool-cases it.enabled) [
  | inl e ↦ (0, (ground (arith, h), (e, λ j l. absurd (omega (arith, l)))))
  | inr e ↦
      let (n, (f, (g, none_before))) = scan_from-IsFirst (suc i) k its (ground (arith, h)) in
      (suc n, (omega (arith, f), (g, later_disabled it its n e none_before)))
]

pub scan_from-none :
    (i : ℕ) (items : List Item)
    → scan_from i items ≡ none
    → (j : ℕ) → is_enabled (item_at j items) ≡ false
unfolding scan_from item_at
scan_from-none i [] h j = refl
scan_from-none i (it ∷ its) h zero = ground (arith, h)
scan_from-none i (it ∷ its) h (suc j) = scan_from-none (suc i) its (ground (arith, h)) j

pub first_enabled-lem :
    (items : List Item) (j : ℕ) → EnabledAt j items → EnabledAt (first_enabled items) items
unfolding first_enabled IsFirst
first_enabled-lem items j h = elim (Option-cases (scan_from 0 items)) [
  | inl e ↦ ground (arith, h, scan_from-none 0 items e j)
  | inr (k, e) ↦
      let (n, (f, (g, before))) = scan_from-IsFirst 0 k items e in
      let same : n ≡ first_enabled items = ground (arith, e, f) in
      subst (λ i. EnabledAt i items) same g
]

at_end : (j i : ℕ) → j < suc i → (j ≡ i) ⊎ (j < i)
at_end j i h = omega (arith, h)

-- Backwards: the item found is enabled, and those between are not.
pub scan_back-some :
    (i k : ℕ) (items : List Item)
    → scan_back i items ≡ some k
    → (k < i)
      × (EnabledAt k items × ((j : ℕ) → k < j → j < i → is_enabled (item_at j items) ≡ false))
unfolding scan_back
scan_back-some zero k items h = cc
scan_back-some (suc i) k items h = elim (Option-cases (item_at i items)) [
  | inl e ↦ ground (arith, e, h)
  | inr (it, e) ↦ elim (Bool-cases it.enabled) [
    | inl f ↦
        let same : i ≡ k = ground (arith, e, f, h) in
        (
          omega (arith, same),
          (
            subst (λ n. EnabledAt n items) same (ground (arith, e, f)),
            λ j l m. absurd (omega (arith, l, m, same)),
          ),
        )
    | inr f ↦
        let (l, (g, between)) = scan_back-some i k items (ground (arith, e, f, h)) in
        (
          omega (arith, l),
          (
            g,
            λ j a b. elim (at_end j i b) [
              | inl s ↦
                  subst (λ n. is_enabled (item_at n items) ≡ false) (sym s) (ground (arith, e, f))
              | inr t ↦ between j a t
            ],
          ),
        )
  ]
]

-- From an index before which no item but `c` is enabled, the way back leads to `c`.
pub scan_back-gap :
    (c i : ℕ) (items : List Item)
    → EnabledAt c items
    → c < i
    → i ≤ length items
    → ((j : ℕ) → c < j → j < i → is_enabled (item_at j items) ≡ false)
    → scan_back i items ≡ some c
unfolding scan_back
scan_back-gap c zero items h l b d = absurd (omega (arith, l))
scan_back-gap c (suc i) items h l b d =
    let (it, e) = item_at-bound i items (omega (arith, b)) in
    elim (at_end c i l) [
      | inl s ↦
          let f : is_enabled (item_at i items) ≡ true = subst (λ n. EnabledAt n items) s h in
          ground (arith, e, f, s)
      | inr t ↦
          let f = d i t (omega arith) in
          ground (
            arith,
            e,
            f,
            scan_back-gap c i items h t (omega (arith, b)) (λ j x y. d j x (omega (arith, y))),
          )
    ]

-- Forwards from the cursor: the item found is enabled, and those between are not.
pub scan_on :
    (c k : ℕ) (items : List Item)
    → scan_from (suc c) (drop (suc c) items) ≡ some k
    → (c < k)
      × (EnabledAt k items × ((j : ℕ) → c < j → j < k → is_enabled (item_at j items) ≡ false))
unfolding IsFirst
scan_on c k items h =
    let (n, (e, (g, before))) = scan_from-IsFirst (suc c) k (drop (suc c) items) h in
    let at : (j : ℕ) → item_at j (drop (suc c) items) ≡ item_at (suc c + j) items =
      λ j. item_at-drop (suc c) j items in
    (
      omega (arith, e),
      (
        subst (λ i. EnabledAt i items) (sym e) (ap is_enabled (sym (at n)) ∙ g),
        λ j a b.
            ap (λ i. is_enabled (item_at i items)) {x = j} {y = suc c + (j - suc c)}
              (omega (arith, a))
            ∙ ap is_enabled (sym (at (j - suc c)))
            ∙ before (j - suc c) (omega (arith, a, b, e)),
      ),
    )

-- Where the scan finds nothing, no later item is enabled.
pub scan_on-none :
    (c : ℕ) (items : List Item)
    → scan_from (suc c) (drop (suc c) items) ≡ none
    → (j : ℕ) → c < j
    → is_enabled (item_at j items) ≡ false
scan_on-none c items h j a =
    ap (λ i. is_enabled (item_at i items)) {x = j} {y = suc c + (j - suc c)} (omega (arith, a))
    ∙ ap is_enabled (sym (item_at-drop (suc c) (j - suc c) items))
    ∙ scan_from-none (suc c) (drop (suc c) items) h (j - suc c)

pub first_enabled-cases :
    (items : List Item) → (first_enabled items ≡ 0) ⊎ EnabledAt (first_enabled items) items
unfolding first_enabled IsFirst
first_enabled-cases items = elim (Option-cases (scan_from 0 items)) [
  | inl e ↦ inl (ground (arith, e))
  | inr (k, e) ↦
      let (n, (f, (g, before))) = scan_from-IsFirst 0 k items e in
      let same : n ≡ first_enabled items = ground (arith, e, f) in
      inr (subst (λ i. EnabledAt i items) same g)
]
