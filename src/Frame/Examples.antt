-- ===== src/Frame/Examples.antt =====
-- Runs of the frame, and its theorems at concrete windows and menus.
use mirabilis.Base.{◌≡◌, refl, Bool, true, false, some, List, [], ◌∷◌}
use mirabilis.Text.{Text, codes, text_eq}
use mirabilis.Frame.{
  Item, Frame, new, update, key_enter, key_down, move_down, selected, item_at, place_row,
  place_center, set_enabled, mark_items, scan_from, first_enabled,
}
use mirabilis.Frame.Cursor.{message, enable, changed, changed-chosen}

abbrev entry : Text → Bool → Item
entry a on = record { title = a; desc = []; action = a; enabled = on }

abbrev entries : List Item
entries =
    entry (codes "launch") true ∷ entry (codes "attach") false ∷ entry (codes "quit") true ∷ []

abbrev menu : Frame
menu = new (codes "mirabilis") (codes "v1") entries

-- Down goes over the item in the middle.
down_skips : (move_down menu).cursor ≡ 2
unfolding move_down new first_enabled scan_from
down_skips = refl

wide_row : place_row 10 5 6 40 ≡ record { left = 10; left_pad = 9; right_pad = 10; right = 6 }
unfolding place_row place_center
wide_row = refl

changed-chosen_example :
    let m = changed (message key_down ∷ enable (codes "quit") false ∷ []) menu in
    (it : Item) × ((selected m ≡ some it)
      × ((it.enabled ≡ true) × ((update key_enter m).1 ≡ some it.action)))
unfolding changed update move_down set_enabled mark_items new first_enabled scan_from item_at
    text_eq
changed-chosen_example =
    changed-chosen (codes "mirabilis") (codes "v1") entries
      (message key_down ∷ enable (codes "quit") false ∷ []) 0 refl
