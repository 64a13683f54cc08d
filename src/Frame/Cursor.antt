-- ===== src/Frame/Cursor.antt =====
-- What holds of the menu after any keys, messages and changes of its items:
-- internal/tui/frame/frame.go.
use mirabilis.Base.{
  ℕ, suc, ◌<◌, ◌≡◌, refl, subst, Bool, true, false, none, some, List, [], ◌∷◌, length, drop, arith,
  Bool-cases, Option-cases, inl, inr, ◌⊎◌,
}
use mirabilis.Text.{Text}
use mirabilis.Frame.{
  Item, Frame, scan_from, scan_back, first_enabled, item_at, is_enabled, move_up, move_down,
  selected, new, Message, window_size, status_changed, key_up, key_down, key_enter, key_other,
  update, mark_items, set_enabled, chosen,
}
use mirabilis.Frame.Menu.{
  EnabledAt, EnabledAt-bound, item_at-bound, scan_on, scan_on-none, first_enabled-lem,
  first_enabled-cases, scan_back-some, scan_back-gap,
}

-- The cursor is an index of the list, if that is not empty, and stands on an item that is enabled,
-- if there is one.
pub record IsOn (items : List Item) (cursor : ℕ) : Type 0 where
  in_range : (items ≡ []) ⊎ (cursor < length items)
  on_enabled : (j : ℕ) → EnabledAt j items → EnabledAt cursor items

enabled-IsOn : (items : List Item) (c : ℕ) → EnabledAt c items → IsOn items c
enabled-IsOn items c h = record {
  in_range = inr (EnabledAt-bound c items h);
  on_enabled = λ j e. h;
}

first_enabled-range : (items : List Item) → (items ≡ []) ⊎ (first_enabled items < length items)
first_enabled-range [] = inl refl
first_enabled-range (it ∷ its) = inr (elim (first_enabled-cases (it ∷ its)) [
  | inl e ↦ omega (arith, e)
  | inr h ↦ EnabledAt-bound (first_enabled (it ∷ its)) (it ∷ its) h
])

first_enabled-IsOn : (items : List Item) → IsOn items (first_enabled items)
first_enabled-IsOn items = record {
  in_range = first_enabled-range items;
  on_enabled = first_enabled-lem items;
}

items_up : (m : Frame) → m.items ≡ (move_up m).items
unfolding move_up
items_up m = ground arith

items_down : (m : Frame) → m.items ≡ (move_down m).items
unfolding move_down
items_down m = ground arith

move_up-IsOn : (m : Frame) → IsOn m.items m.cursor → IsOn m.items (move_up m).cursor
unfolding move_up
move_up-IsOn m h = elim (Option-cases (scan_back m.cursor m.items)) [
  | inl e ↦ rw e h
  | inr (k, e) ↦ rw e (enabled-IsOn m.items k (scan_back-some m.cursor k m.items e).1.0)
]

move_down-IsOn : (m : Frame) → IsOn m.items m.cursor → IsOn m.items (move_down m).cursor
unfolding move_down
move_down-IsOn m h = elim (Option-cases (scan_from (suc m.cursor) (drop (suc m.cursor) m.items))) [
  | inl e ↦ rw e h
  | inr (k, e) ↦ rw e (enabled-IsOn m.items k (scan_on m.cursor k m.items e).1.0)
]

length-mark_items :
    (a : Text) (on : Bool) (items : List Item) → length (mark_items a on items) ≡ length items
unfolding mark_items
length-mark_items a on [] = refl
length-mark_items a on (it ∷ its) = ground (arith, length-mark_items a on its)

mark_items-range :
    (a : Text) (on : Bool) (items : List Item) (c : ℕ)
    → (items ≡ []) ⊎ (c < length items)
    → (mark_items a on items ≡ []) ⊎ (c < length (mark_items a on items))
unfolding mark_items
mark_items-range a on items c (inl e) = inl (rw e)
mark_items-range a on items c (inr l) = inr (omega (arith, l, length-mark_items a on items))

off_list :
    (items : List Item) (c : ℕ)
    → (items ≡ []) ⊎ (c < length items)
    → item_at c items ≡ none
    → IsOn items c
off_list items c r e = record {
  in_range = r;
  on_enabled = λ j f. elim r [
    | inl n ↦ absurd (no_item j (subst (EnabledAt j) n f))
    | inr l ↦ absurd (ground (arith, e, (item_at-bound c items l).1))
  ];
}
  where
    no_item : (j : ℕ) → EnabledAt j [] → ⊥
    no_item j h = absurd (omega (arith, EnabledAt-bound j [] h))

set_enabled-IsOn :
    (a : Text) (on : Bool) (m : Frame)
    → IsOn m.items m.cursor
    → IsOn (set_enabled a on m).items (set_enabled a on m).cursor
unfolding set_enabled
set_enabled-IsOn a on m h =
    let items = mark_items a on m.items in
    elim (Option-cases (item_at m.cursor items)) [
      | inl e ↦
          rw (e, set_enabled)
            (off_list items m.cursor (mark_items-range a on m.items m.cursor h.in_range) e)
      | inr (it, e) ↦ elim (Bool-cases it.enabled) [
        | inl f ↦ rw (e, f, set_enabled) (enabled-IsOn items m.cursor (ground (arith, e, f)))
        | inr f ↦ rw (e, f, set_enabled) (first_enabled-IsOn items)
      ]
    ]

update-IsOn :
    (msg : Message) (m : Frame)
    → IsOn m.items m.cursor
    → IsOn (update msg m).0.items (update msg m).0.cursor
unfolding update
update-IsOn (window_size w h) m s = s
update-IsOn (status_changed snap) m s = s
update-IsOn key_up m s = subst (λ xs. IsOn xs (move_up m).cursor) (items_up m) (move_up-IsOn m s)
update-IsOn key_down m s =
    subst (λ xs. IsOn xs (move_down m).cursor) (items_down m) (move_down-IsOn m s)
update-IsOn key_enter m s = s
update-IsOn key_other m s = s

-- What changes the frame: a message, or the application enabling or disabling an action.
pub data Change : Type 0 where
  message : Message → Change
  enable : Text → Bool → Change

unfoldable pub changed : List Change → Frame → Frame
unfolding update set_enabled
changed [] m = m
changed (message msg ∷ cs) m = changed cs (update msg m).0
changed (enable a on ∷ cs) m = changed cs (set_enabled a on m)

changed-IsOn :
    (cs : List Change) (m : Frame)
    → IsOn m.items m.cursor
    → IsOn (changed cs m).items (changed cs m).cursor
unfolding changed
changed-IsOn [] m h = h
changed-IsOn (message msg ∷ cs) m h = changed-IsOn cs (update msg m).0 (update-IsOn msg m h)
changed-IsOn (enable a on ∷ cs) m h =
    changed-IsOn cs (set_enabled a on m) (set_enabled-IsOn a on m h)

chosen-some :
    (m : Frame)
    → EnabledAt m.cursor m.items
    → (it : Item) × ((selected m ≡ some it) × ((it.enabled ≡ true) × (chosen m ≡ some it.action)))
unfolding selected chosen
chosen-some m h = elim (Option-cases (item_at m.cursor m.items)) [
  | inl e ↦ ground (arith, e, h)
  | inr (it, e) ↦ (it, (e, (ground (arith, e, h), ground (arith, e, h))))
]

-- After any messages and changes of its items, the menu that `New` makes has its cursor on an item
-- that is enabled, provided that any is, and Enter chooses the action of that item.
pub changed-chosen :
    (title version : Text) (items : List Item) (cs : List Change) (j : ℕ)
    → is_enabled (item_at j (changed cs (new title version items)).items) ≡ true
    → let m = changed cs (new title version items) in
      (it : Item) × ((selected m ≡ some it)
        × ((it.enabled ≡ true) × ((update key_enter m).1 ≡ some it.action)))
unfolding update new
changed-chosen title version items cs j h =
    let m = changed cs (new title version items) in
    let s = changed-IsOn cs (new title version items) (first_enabled-IsOn items) in
    chosen-some m (s.on_enabled j h)

-- From an enabled item, Down goes to the next enabled one, over none, and Up comes back from it; where
-- there is no next one, Down does nothing.
pub move_up-move_down :
    (m : Frame)
    → is_enabled (item_at m.cursor m.items) ≡ true
    → ((move_down m ≡ m) × ((j : ℕ) → m.cursor < j → is_enabled (item_at j m.items) ≡ false))
      ⊎ ((m.cursor < (move_down m).cursor)
          × ((is_enabled (item_at (move_down m).cursor m.items) ≡ true)
              × (((j : ℕ)
                    → m.cursor < j
                    → j < (move_down m).cursor
                    → is_enabled (item_at j m.items) ≡ false)
                  × (move_up (move_down m) ≡ m))))
unfolding move_down move_up
move_up-move_down m h =
    elim (Option-cases (scan_from (suc m.cursor) (drop (suc m.cursor) m.items))) [
      | inl e ↦ inl (rw e, scan_on-none m.cursor m.items e)
      | inr (k, e) ↦
          let (l, (g, between)) = scan_on m.cursor k m.items e in
          let back =
            scan_back-gap m.cursor k m.items h l (omega (arith, EnabledAt-bound k m.items g))
              between in
          inr (rw e (l, (g, (between, rw back))))
    ]
