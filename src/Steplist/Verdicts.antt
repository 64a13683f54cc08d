-- ===== src/Steplist/Verdicts.antt =====
-- What the rows show after the events of a run: internal/tui/components/steplist/steplist.go.
use mirabilis.Base.{
  map, suc, ◌≡◌, refl, ap, ◌∙◌, Bool, true, false, Option, none, some, String, List, [], ◌∷◌,
  length, arith, str_eq, if◌then◌else◌, All,
}
use mirabilis.App.State.{
  StepEvent, StepEventKind, step_started, step_line, step_done, step_failed, step_skipped,
  step_waiting,
}
use mirabilis.Steplist.{
  RowState, running, done, failed, skipped, waiting, StepRow, StepList, is_settled, is_running,
  completed, apply_row, apply_rows, retarget, apply, any_running,
}

-- The state that an event says, if it says one.
abbrev pub said : StepEventKind → Option RowState
said step_started = some running
said step_line = none
said step_done = some done
said step_failed = some failed
said step_skipped = some skipped
said step_waiting = some waiting

-- The state that the last of the events of a step that says one gives it; before any, the first one.
abbrev pub last_said : String → RowState → List StepEvent → RowState
last_said n s [] = s
last_said n s (ev ∷ evs) =
    last_said n (if str_eq n ev.step then elim (said ev.kind) [ none ↦ s | some t ↦ t ] else s) evs

unfoldable pub apply_all : Bool → List StepEvent → StepList → StepList
unfolding apply
apply_all reduced [] m = m
apply_all reduced (ev ∷ evs) m = apply_all reduced evs (apply reduced ev m).0

-- A row after an event, and after events.
abbrev pub row_applied : StepEvent → StepRow → StepRow
row_applied ev r = if str_eq r.name ev.step then apply_row ev.kind ev.line r else r

row_after : List StepEvent → StepRow → StepRow
row_after [] r = r
row_after (ev ∷ evs) r = row_after evs (row_applied ev r)

apply_rows-map : (ev : StepEvent) (rs : List StepRow) → apply_rows ev rs ≡ map (row_applied ev) rs
unfolding apply_rows
apply_rows-map ev [] = refl
apply_rows-map ev (r ∷ rs) = ap (◌∷◌ (row_applied ev r)) (apply_rows-map ev rs)

rows-apply :
    (reduced : Bool) (ev : StepEvent) (m : StepList)
    → (apply reduced ev m).0.rows ≡ map (row_applied ev) m.rows
unfolding apply retarget
rows-apply reduced ev m = rows_same (apply_rows-map ev m.rows)
  where
    rows_same :
        apply_rows ev m.rows ≡ map (row_applied ev) m.rows
        → (apply reduced ev m).0.rows ≡ map (row_applied ev) m.rows
    rows_same e = ground (arith, e)

map-row_after :
    (ev : StepEvent) (evs : List StepEvent) (rs : List StepRow)
    → map (row_after evs) (map (row_applied ev) rs) ≡ map (row_after (ev ∷ evs)) rs
unfolding row_after
map-row_after ev evs [] = refl
map-row_after ev evs (r ∷ rs) =
    ap (◌∷◌ (row_after evs (row_applied ev r))) (map-row_after ev evs rs)

map-no_events : (rs : List StepRow) → rs ≡ map (row_after []) rs
unfolding row_after
map-no_events [] = refl
map-no_events (r ∷ rs) = ap (◌∷◌ r) (map-no_events rs)

rows-apply_all :
    (reduced : Bool) (evs : List StepEvent) (m : StepList)
    → (apply_all reduced evs m).rows ≡ map (row_after evs) m.rows
unfolding apply_all
rows-apply_all reduced [] m = map-no_events m.rows
rows-apply_all reduced (ev ∷ evs) m =
    rows-apply_all reduced evs (apply reduced ev m).0
    ∙ ap (map (row_after evs)) (rows-apply reduced ev m)
    ∙ map-row_after ev evs m.rows

row_applied-lem :
    (ev : StepEvent) (q : StepRow)
    → ((row_applied ev q).name ≡ q.name)
      × (((row_applied ev q).title ≡ q.title)
          × ((row_applied ev q).state ≡ last_said q.name q.state (ev ∷ [])))
unfolding apply_row
row_applied-lem ev q = (ground arith, (ground arith, ground arith))

row_after-lem :
    (evs : List StepEvent) (q : StepRow)
    → ((row_after evs q).name ≡ q.name)
      × (((row_after evs q).title ≡ q.title)
          × ((row_after evs q).state ≡ last_said q.name q.state evs))
unfolding row_after
row_after-lem [] q = (refl, (refl, refl))
row_after-lem (ev ∷ evs) q =
    let (n, (t, s)) = row_applied-lem ev q in
    let (n2, (t2, s2)) = row_after-lem evs (row_applied ev q) in
    (n2 ∙ n, (t2 ∙ t, s2 ∙ ap2_last n s evs))
  where
    ap2_last :
        {a b : String} {x y : RowState}
        → a ≡ b
        → x ≡ y
        → (evs : List StepEvent) → last_said a x evs ≡ last_said b y evs
    ap2_last p q evs = rw p (rw q)

abbrev pub shown : StepRow → String × (String × RowState)
shown r = (r.name, (r.title, r.state))

map-shown :
    (evs : List StepEvent) (rs : List StepRow)
    → map shown (map (row_after evs) rs)
      ≡ map (λ q. (q.name, (q.title, last_said q.name q.state evs))) rs
map-shown evs [] = refl
map-shown evs (r ∷ rs) =
    let (n, (t, s)) = row_after-lem evs r in
    rw n
      (rw t (rw s (ap (◌∷◌ (r.name, (r.title, last_said r.name r.state evs))) (map-shown evs rs))))

settled-running : (s : RowState) → is_settled s ≡ true → is_running s ≡ false
settled-running s h = ground (arith, h)

completed-settled :
    (evs : List StepEvent) (rs : List StepRow)
    → All (λ q. is_settled (last_said q.name q.state evs) ≡ true) rs
    → (completed (map (row_after evs) rs) ≡ length rs)
      × (any_running (map (row_after evs) rs) ≡ false)
unfolding completed any_running
completed-settled evs [] h = (refl, refl)
completed-settled evs (r ∷ rs) h =
    let (n, (t, s)) = row_after-lem evs r in
    let (c, a) = completed-settled evs rs h.1 in
    let d : is_settled (row_after evs r).state ≡ true = rw s h.0 in
    (rw d (ap suc c), rw (settled-running (row_after evs r).state d) a)

-- Whatever events come, a row keeps its name and its title, and its state is the one that the last
-- event of its step has given it, but for lines.
pub apply_all-shown :
    (reduced : Bool) (evs : List StepEvent) (m : StepList)
    → map shown (apply_all reduced evs m).rows
      ≡ map (λ q. (q.name, (q.title, last_said q.name q.state evs))) m.rows
apply_all-shown reduced evs m = rw (rows-apply_all reduced evs m) (map-shown evs m.rows)

-- If the last events of the steps, but for lines, are verdicts (done, failed, skipped), all steps are
-- counted as completed and none runs.
pub apply_all-completed :
    (reduced : Bool) (evs : List StepEvent) (m : StepList)
    → All (λ q. is_settled (last_said q.name q.state evs) ≡ true) m.rows
    → (completed (apply_all reduced evs m).rows ≡ length m.rows)
      × (any_running (apply_all reduced evs m).rows ≡ false)
apply_all-completed reduced evs m h =
    rw (rows-apply_all reduced evs m) (completed-settled evs m.rows h)
