-- ===== src/Frame/Layout.antt =====
-- The sizes of the parts of the frame: internal/tui/frame/frame.go.
use mirabilis.Base.{ℕ, ◌*◌, ◌/◌, ◌+◌, ◌-◌, ◌≤◌, ◌<◌, ◌≡◌, ◌≢◌, refl, true, false, arith, leb, ◌==◌}
use mirabilis.Frame.{
  clamp, Frame, tiny, breakpoint, menu_width, header_height, main_size, main_origin, Row,
  place_center, place_row,
}

clamp-bound : (w : ℕ) → clamp w ≤ 22
clamp-bound w = ground arith

menu_width-room : (m : Frame) → breakpoint m ≢ tiny → menu_width m + 36 ≤ m.width
unfolding breakpoint menu_width
menu_width-room m h = ground (arith, h, clamp-bound (m.width * 22 / 100))

header_height-room : (m : Frame) → breakpoint m ≢ tiny → header_height m + 7 ≤ m.height
unfolding breakpoint header_height
header_height-room m h = ground (arith, h)

-- In a window that is not too small, the main area begins right of the menu and its border and below
-- the header and its border, and fills the window up to its right edge and its last line but one; it
-- is at least 35 columns wide and 5 lines high.
pub main_size-fills :
    (m : Frame)
    → breakpoint m ≢ tiny
    → (((main_origin m).0 + (main_size m).0 ≡ m.width)
        × ((main_origin m).1 + (main_size m).1 + 1 ≡ m.height))
      × ((35 ≤ (main_size m).0) × (5 ≤ (main_size m).1))
unfolding main_size main_origin
main_size-fills m h =
    let w = menu_width-room m h in
    let t = header_height-room m h in
    ((omega (arith, w), omega (arith, t)), (omega (arith, w), omega (arith, t)))

-- The width of a row.
abbrev pub row_width : ℕ → Row → ℕ
row_width center r = r.left + r.left_pad + center + r.right_pad + r.right

place_center-fills :
    (left center right width : ℕ)
    → left + 1 + center + 1 + right ≤ width
    → let r = place_center left center right width in
      (row_width center r ≡ width) × ((1 ≤ r.left_pad) × (1 ≤ r.right_pad))
unfolding place_center
place_center-fills left center right width h =
    let gap_start = left + 1 in
    let gap_end = width - right - 1 in
    let middle = gap_start + (gap_end - gap_start - center) / 2 in
    let inner : middle + center ≤ gap_end = omega (arith, h) in
    (ground (arith, inner, h), (omega arith, omega arith))

place_row-center :
    (left center right width : ℕ)
    → 0 < center
    → left + 1 + center + 1 + right ≤ width
    → place_row left center right width ≡ place_center left center right width
unfolding place_row
place_row-center left center right width c h =
    let e : (center == 0) ≡ false = ground (arith, c) in
    let f : leb (left + 1 + center + 1 + right) width ≡ true = ground (arith, h) in
    rw (e, f, place_row)

-- Where the three parts fit with a gap between them, the row shows them all and is as wide as the
-- window, with gaps on both sides of the middle.
pub place_row-fills :
    (left center right width : ℕ)
    → 0 < center
    → left + 1 + center + 1 + right ≤ width
    → let r = place_row left center right width in
      (r.left ≡ left)
      × ((r.right ≡ right)
          × ((row_width center r ≡ width) × ((1 ≤ r.left_pad) × (1 ≤ r.right_pad))))
unfolding place_center
place_row-fills left center right width c h =
    rw (place_row-center left center right width c h)
      (refl, (refl, place_center-fills left center right width h))
