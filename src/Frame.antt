-- ===== src/Frame.antt =====
-- The frame around the screens: internal/tui/frame/frame.go. What it draws is given by its parts and
-- their widths; the styles and the drawing library are left out.
pub mod Status
pub mod Menu
pub mod Cursor
pub mod Layout
mod Examples
use mirabilis.Base.{
  ℕ, zero, suc, ◌+◌, ◌-◌, ◌*◌, ◌/◌, ◌%◌, max, Bool, true, false, not, ◌||◌, ◌&&◌, Option, none,
  some, List, [], ◌∷◌, map, if◌then◌else◌, ltb, leb, ◌==◌, length, drop,
}
use mirabilis.Text.{Text, text_eq}
use mirabilis.Frame.Status.{Snapshot, outdated_badge}

pub data Breakpoint : Type 0 where
  tiny narrow short normal : Breakpoint

pub record Item : Type 0 where
  pub title : Text
  pub desc : Text
  pub action : Text
  pub enabled : Bool

-- A cursor is an index; it and the sizes are never negative.
pub record Frame : Type 0 where
  pub title : Text
  pub version : Text
  pub outdated : Text
  pub items : List Item
  pub status : Snapshot
  pub cursor : ℕ
  pub width : ℕ
  pub height : ℕ
  pub busy : Text
  pub chrome_frame : ℕ

unfoldable pub breakpoint : Frame → Breakpoint
breakpoint m =
    if ltb m.width 40 || ltb m.height 10
    then tiny
    else if ltb m.width 60
    then narrow
    else if ltb m.height 16
    then short
    else normal

abbrev pub clamp : ℕ → ℕ
clamp w = if ltb w 12 then 12 else if ltb 22 w then 22 else w

unfoldable pub menu_width : Frame → ℕ
unfolding breakpoint
menu_width m = elim (breakpoint m) [
  | narrow ↦ 4
  | tiny ↦ clamp (m.width * 22 / 100)
  | short ↦ clamp (m.width * 22 / 100)
  | normal ↦ clamp (m.width * 22 / 100)
]

-- The index of the first item that is enabled, the list starting at the index `i`.
unfoldable pub scan_from : ℕ → List Item → Option ℕ
scan_from i [] = none
scan_from i (it ∷ its) = let rest = scan_from (suc i) its in if it.enabled then some i else rest

unfoldable pub first_enabled : List Item → ℕ
unfolding scan_from
first_enabled items = elim (scan_from 0 items) [ none ↦ 0 | some i ↦ i ]

unfoldable pub item_at : ℕ → List Item → Option Item
item_at i [] = none
item_at zero (it ∷ its) = some it
item_at (suc i) (it ∷ its) = item_at i its

abbrev pub is_enabled : Option Item → Bool
is_enabled none = false
is_enabled (some it) = it.enabled

-- Backwards from the index before `i`, as long as it is an index of the list.
unfoldable pub scan_back : ℕ → List Item → Option ℕ
unfolding item_at
scan_back zero items = none
scan_back (suc i) items = elim (item_at i items) [
  | none ↦ none
  | some it ↦ let rest = scan_back i items in if it.enabled then some i else rest
]

abbrev pub go_to : Option ℕ → Frame → Frame
go_to none m = m
go_to (some i) m = record m { cursor = i }

-- `move(-1)` and `move(+1)`
unfoldable pub move_up : Frame → Frame
unfolding scan_back
move_up m = go_to (scan_back m.cursor m.items) m

unfoldable pub move_down : Frame → Frame
unfolding scan_from
move_down m = go_to (scan_from (suc m.cursor) (drop (suc m.cursor) m.items)) m

unfoldable pub selected : Frame → Option Item
unfolding item_at
selected m = item_at m.cursor m.items

unfoldable pub new : Text → Text → List Item → Frame
unfolding first_enabled
new title version items = record {
  title = title;
  version = version;
  outdated = [];
  items = items;
  status = [];
  cursor = first_enabled items;
  width = 80;
  height = 24;
  busy = [];
  chrome_frame = 0;
}

pub data Message : Type 0 where
  window_size : ℕ → ℕ → Message
  status_changed : Snapshot → Message
  key_up key_down key_enter key_other : Message

-- The action of the item that is chosen, if one is.
unfoldable pub chosen : Frame → Option Text
unfolding selected
chosen m = elim (selected m) [ none ↦ none | some it ↦ if it.enabled then some it.action else none ]

unfoldable pub update : Message → Frame → Frame × Option Text
unfolding move_up move_down chosen outdated_badge
update (window_size w h) m = (record m { width = w; height = h }, none)
update (status_changed snap) m = (record m { status = snap; outdated = outdated_badge snap }, none)
update key_up m = (move_up m, none)
update key_down m = (move_down m, none)
update key_enter m = (m, chosen m)
update key_other m = (m, none)

-- `Enabled`: the first item with the action decides.
unfoldable pub enabled_action : Text → List Item → Bool
unfolding text_eq
enabled_action action [] = false
enabled_action action (it ∷ its) =
    let rest = enabled_action action its in if text_eq it.action action then it.enabled else rest

unfoldable pub mark_items : Text → Bool → List Item → List Item
unfolding text_eq
mark_items action on [] = []
mark_items action on (it ∷ its) =
    let rest = mark_items action on its in
    if text_eq it.action action then record it { enabled = on } ∷ rest else it ∷ rest

unfoldable pub set_enabled : Text → Bool → Frame → Frame
unfolding mark_items item_at first_enabled
set_enabled action on m =
    let items = mark_items action on m.items in
    elim (item_at m.cursor items) [
      | none ↦ record m { items = items }
      | some it ↦
          if it.enabled
          then record m { items = items }
          else record m { items = items; cursor = first_enabled items }
    ]

abbrev pub set_chrome : ℕ → Frame → Frame
set_chrome frame m = record m { chrome_frame = frame }

abbrev pub set_busy : Text → Frame → Frame
set_busy text m = record m { busy = text }

unfoldable pub header_height : Frame → ℕ
unfolding breakpoint
header_height m = elim (breakpoint m) [ normal ↦ 3 | tiny ↦ 1 | narrow ↦ 1 | short ↦ 1 ]

unfoldable pub main_size : Frame → ℕ × ℕ
unfolding menu_width header_height
main_size m = (m.width - menu_width m - 1, m.height - (header_height m + 2))

unfoldable pub main_origin : Frame → ℕ × ℕ
unfolding menu_width header_height
main_origin m = (menu_width m + 1, header_height m + 1)

-- A row by the widths of its parts: what is left of the left and the right one, and the two gaps.
pub record Row : Type 0 where
  pub left : ℕ
  pub left_pad : ℕ
  pub right_pad : ℕ
  pub right : ℕ

-- The second half of `placeRow`. A difference below nothing ends in a gap of one, as it does here.
unfoldable pub place_center : ℕ → ℕ → ℕ → ℕ → Row
place_center left center right width =
    let gap_start = left + 1 in
    let gap_end = width - right - 1 in
    let middle = gap_start + (gap_end - gap_start - center) / 2 in
    let target = if ltb gap_end (middle + center) then gap_end - center else middle in
    let left_pad = max (target - left) 1 in
    record {
      left = left;
      left_pad = left_pad;
      right_pad = max (width - left - left_pad - center - right) 1;
      right = right;
    }

unfoldable pub place_row : ℕ → ℕ → ℕ → ℕ → Row
unfolding place_center
place_row left center right width =
    if center == 0
    then record {
      left = left;
      left_pad = max (width - left - right) 1;
      right_pad = 0;
      right = right;
    }
    else if leb (left + 1 + center + 1 + right) width
    then place_center left center right width
    else if leb (left + 1 + center) width
    then place_center left center 0 width
    else place_center 0 center right width
