-- ===== src/Steplist/Height.antt =====
-- The list of steps fits its place: internal/tui/components/steplist/steplist.go and
-- internal/tui/app/screens.go, in the main area of internal/tui/frame/frame.go.
use mirabilis.Base.{
  ℕ, zero, suc, ◌+◌, ◌-◌, ◌/◌, ◌≤◌, ◌≡◌, ◌≢◌, refl, Bool, List, [], ◌∷◌, ◌++◌, length, take,
  length-append, arith, max, map, String, str_eq, if◌then◌else◌, All, ◌∙◌, ap,
}
use mirabilis.App.State.{StepEvent}
use mirabilis.Frame.{Frame, breakpoint, tiny, main_size}
use mirabilis.Frame.Layout.{main_size-fills}
use mirabilis.Steplist.{
  StepList, StepRow, Drawn, more, row, is_active, title_width, entry_lines, count_lines, view_lines,
  clamp_height, view, progress_view, active_detail, retarget, apply, LaunchScreen, Message,
  window_size, toggle_cmdlog, step_event, update,
}

length-take : (n : ℕ) (ls : List Drawn) → length (take n ls) ≤ n
length-take zero ls = omega arith
length-take (suc n) [] = omega arith
length-take (suc n) (l ∷ ls) = omega (arith, length-take n ls)

clamp_height-bound :
    (height : ℕ) (ls : List Drawn) → 3 ≤ height → length (clamp_height height ls) + 1 ≤ height
unfolding clamp_height
clamp_height-bound height ls h =
    let keep = max (height - 1 - 1) 1 in
    ground
      (arith, h, length-append (take keep ls) (more (length ls - keep) ∷ []), length-take keep ls)

view-bound : (m : StepList) → 3 ≤ m.height → length (view m) ≤ m.height
unfolding view
view-bound m h =
    let drawn = progress_view m.rows ++ map row m.rows in
    omega (
      arith,
      clamp_height-bound m.height drawn h,
      length-append (clamp_height m.height drawn) (active_detail m.rows ∷ []),
    )

-- The lines that a text takes after its first.
abbrev pub wrapped : (ℕ → String → ℕ) → ℕ → String → ℕ
wrapped lines_at width text = lines_at width text - 1

-- The lines that wrapped titles add, shown or not.
abbrev pub wrapped_titles : (ℕ → String → ℕ) → List StepRow → ℕ
wrapped_titles lines_at [] = 0
wrapped_titles lines_at (r ∷ rs) = wrapped lines_at title_width r.title + wrapped_titles lines_at rs

-- The lines that the wrapped detail of the first step that runs or waits adds.
abbrev pub wrapped_detail : (ℕ → String → ℕ) → ℕ → List StepRow → ℕ
wrapped_detail lines_at width [] = wrapped lines_at width " "
wrapped_detail lines_at width (r ∷ rs) =
    if is_active r.state
    then wrapped lines_at width (if str_eq r.detail "" then " " else r.detail)
    else wrapped_detail lines_at width rs

module _ (lines_at : ℕ → String → ℕ) (width : ℕ) where
  -- The lines that the entries add to one for each.
  more_lines : List Drawn → ℕ
  more_lines [] = 0
  more_lines (d ∷ ds) = (entry_lines lines_at width d - 1) + more_lines ds

  count_lines-more : (ds : List Drawn) → count_lines lines_at width ds ≤ length ds + more_lines ds
  unfolding count_lines more_lines
  count_lines-more [] = omega arith
  count_lines-more (d ∷ ds) = omega (arith, count_lines-more ds)

  more_lines-append : (ds es : List Drawn) → more_lines (ds ++ es) ≡ more_lines ds + more_lines es
  unfolding more_lines
  more_lines-append [] es = omega arith
  more_lines-append (d ∷ ds) es = omega (arith, more_lines-append ds es)

  more_lines-take : (n : ℕ) (ds : List Drawn) → more_lines (take n ds) ≤ more_lines ds
  unfolding more_lines
  more_lines-take zero ds = omega arith
  more_lines-take (suc n) [] = omega arith
  more_lines-take (suc n) (d ∷ ds) = omega (arith, more_lines-take n ds)

  more_lines-rows : (rs : List StepRow) → more_lines (map row rs) ≡ wrapped_titles lines_at rs
  unfolding more_lines entry_lines
  more_lines-rows [] = omega arith
  more_lines-rows (r ∷ rs) = omega (arith, more_lines-rows rs)

  more_lines-progress : (rs : List StepRow) → more_lines (progress_view rs) ≡ 0
  unfolding more_lines entry_lines progress_view
  more_lines-progress rs = ground arith

  more_lines-clamp :
      (height : ℕ) (ds : List Drawn) → more_lines (clamp_height height ds) ≤ more_lines ds
  unfolding clamp_height more_lines entry_lines
  more_lines-clamp height ds =
      let keep = max (height - 1 - 1) 1 in
      ground (
        arith,
        more_lines-append (take keep ds) (more (length ds - keep) ∷ []),
        more_lines-take keep ds,
      )

  entry_lines-detail :
      (rs : List StepRow)
      → entry_lines lines_at width (active_detail rs) - 1 ≡ wrapped_detail lines_at width rs
  unfolding active_detail entry_lines
  entry_lines-detail [] = refl
  entry_lines-detail (r ∷ rs) = ground (arith, entry_lines-detail rs)

view_lines-bound :
    (lines_at : ℕ → String → ℕ) (m : StepList)
    → 3 ≤ m.height
    → view_lines lines_at m
      ≤ m.height + (wrapped_titles lines_at m.rows + wrapped_detail lines_at m.width m.rows)
unfolding view_lines view more_lines
view_lines-bound lines_at m h =
    let drawn = progress_view m.rows ++ map row m.rows in
    let clamped = clamp_height m.height drawn in
    omega (
      arith,
      view-bound m h,
      count_lines-more lines_at m.width (clamped ++ active_detail m.rows ∷ []),
      more_lines-append lines_at m.width clamped (active_detail m.rows ∷ []),
      more_lines-clamp lines_at m.width m.height drawn,
      more_lines-append lines_at m.width (progress_view m.rows) (map row m.rows),
      more_lines-progress lines_at m.width m.rows,
      more_lines-rows lines_at m.width m.rows,
      entry_lines-detail lines_at m.width m.rows,
    )

height-apply :
    (reduced : Bool) (ev : StepEvent) (m : StepList) → (apply reduced ev m).0.height ≡ m.height
unfolding apply retarget
height-apply reduced ev m = ground arith

-- Messages that are no window size.
unfoldable pub updates : Bool → List Message → LaunchScreen → LaunchScreen
unfolding update
updates reduced [] s = s
updates reduced (msg ∷ msgs) s = updates reduced msgs (update reduced msg s).0

-- No message of these is a window size.
unfoldable pub IsKept : Message → Type 0
IsKept (window_size w h) = ⊥
IsKept toggle_cmdlog = Unit
IsKept (step_event ev) = Unit

updates-height :
    (reduced : Bool) (msgs : List Message) (s : LaunchScreen)
    → All IsKept msgs
    → ((updates reduced msgs s).steps.height ≡ s.steps.height)
      × ((updates reduced msgs s).log_size ≡ s.log_size)
unfolding updates IsKept
updates-height reduced [] s k = (refl, refl)
updates-height reduced (window_size w h ∷ msgs) s k = absurd k.0
updates-height reduced (toggle_cmdlog ∷ msgs) s k =
    updates-height reduced msgs (update reduced toggle_cmdlog s).0 k.1
updates-height reduced (step_event ev ∷ msgs) s k =
    let (e, f) = updates-height reduced msgs (update reduced (step_event ev) s).0 k.1 in
    (e ∙ height-apply reduced ev s.steps, f)

-- In the main area of a window that is not too small, whatever events come in, the lines of the step
-- list and those given to the command log, which has at least one, fit with one to spare, but for the
-- lines that wrapped titles and the wrapped detail of the active step add.
pub view-fits :
    (lines_at : ℕ → String → ℕ) (m : Frame) (reduced : Bool) (msgs : List Message)
    (s : LaunchScreen)
    → breakpoint m ≢ tiny
    → All IsKept msgs
    → let (w, h) = main_size m in
      let t = updates reduced (window_size w h ∷ msgs) s in
      (view_lines lines_at t.steps + t.log_size.1 + 1
        ≤ h
          + (wrapped_titles lines_at t.steps.rows
              + wrapped_detail lines_at t.steps.width t.steps.rows))
      × (1 ≤ t.log_size.1)
unfolding updates update
view-fits lines_at m reduced msgs s n k =
    let (w, h) = main_size m in
    let sized = (update reduced (window_size w h) s).0 in
    let (e, f) = updates-height reduced msgs sized k in
    let t = updates reduced msgs sized in
    let five = (main_size-fills m n).1.1 in
    let l : t.log_size.1 ≡ h / 3 = ap (λ p. p.1) f in
    let b = view_lines-bound lines_at t.steps (omega (arith, e, five)) in
    (omega (arith, b, e, l, five), omega (arith, l, five))
