-- ===== src/Cmdlog/Ring.antt =====
-- The ring keeps the last lines that were added, in order.
use mirabilis.Base.{
  str_eq, length-drop, subst, ℕ, zero, suc, ◌+◌, ◌-◌, ◌%◌, ◌≤◌, ◌<◌, ltb, ◌==◌, String, true, false,
  ◌≡◌, refl, ap, sym, ◌∙◌, List, [], ◌∷◌, ◌++◌, arith, length, drop, length-append, Bool-cases, inl,
  inr, if◌then◌else◌, append-nil, append_assoc,
}
use mirabilis.App.State.{
  StepEvent, StepEventKind, step_started, step_line, step_done, step_failed, step_skipped,
  step_waiting,
}
use mirabilis.Cmdlog.{
  update_by, update, ran, wrote, Line, Log, empty_log, max_lines, set, add, tabulate, lines,
}

-- The indices are in range.
abbrev pub IsLog : Log → Type 0
IsLog m = (m.head < max_lines) × (m.size ≤ max_lines)

tabulate-ext {ℓ} :
    {A : Type ℓ} (n : ℕ) (f g : ℕ → A) → ((i : ℕ) → i < n → f i ≡ g i) → tabulate n f ≡ tabulate n g
tabulate-ext zero f g h = refl
tabulate-ext (suc n) f g h = rw (
  h 0 (omega arith),
  tabulate-ext n (λ i. f (suc i)) (λ i. g (suc i)) (λ i l. h (suc i) (omega (arith, l))),
)

tabulate-suc {ℓ} : {A : Type ℓ} (n : ℕ) (f : ℕ → A) → tabulate (suc n) f ≡ tabulate n f ++ f n ∷ []
tabulate-suc zero f = refl
tabulate-suc (suc n) f = ap (◌∷◌ (f 0)) (tabulate-suc n (λ i. f (suc i)))

length-tabulate {ℓ} : {A : Type ℓ} (n : ℕ) (f : ℕ → A) → length (tabulate n f) ≡ n
length-tabulate zero f = refl
length-tabulate (suc n) f = ap suc (length-tabulate n (λ i. f (suc i)))

add-IsLog : (line : Line) (m : Log) → IsLog m → IsLog (add line m)
unfolding add
add-IsLog line m h = ground (arith, h)

apart : (h i s : ℕ) → i < s → s < 5000 → ((h + i) % 5000 == (h + s) % 5000) ≡ false
apart h i s l k = ground (arith, l, k)

index-add : (h s : ℕ) → ((h + s) % 5000 == (h + s) % 5000) ≡ true
index-add h s = ground arith

lines-add_room :
    (line : Line) (m : Log) → m.size < max_lines → lines (add line m) ≡ lines m ++ line ∷ []
unfolding lines add
lines-add_room line m room =
    let at = set ((m.head + m.size) % 5000) line m.ring in
    let has_room : ltb m.size 5000 ≡ true = ground (arith, room) in
    let kept : tabulate m.size (λ i. at ((m.head + i) % 5000))
        ≡ tabulate m.size (λ i. m.ring ((m.head + i) % 5000)) =
      tabulate-ext m.size (λ i. at ((m.head + i) % 5000)) (λ i. m.ring ((m.head + i) % 5000))
        (λ i l. rw (apart m.head i m.size l room) refl) in
    rw (has_room, add)
      (tabulate-suc m.size (λ i. at ((m.head + i) % 5000))
        ∙ rw (kept, index-add m.head m.size) refl)

apart_full : (h i : ℕ) → h < 5000 → i < 4999 → (((h + 1) % 5000 + i) % 5000 == h) ≡ false
apart_full h i l k = ground (arith, l, k)

shifted : (h i : ℕ) → ((h + 1) % 5000 + i) % 5000 ≡ (h + suc i) % 5000
shifted h i = omega arith

wraps : (h n : ℕ) → h < 5000 → n ≡ 4999 → (((h + 1) % 5000 + n) % 5000 == h) ≡ true
wraps h n l e = ground (arith, l, e)

full :
    (line : Line) (ring : ℕ → Line) (h n : ℕ)
    → n ≡ 4999
    → h < 5000
    → tabulate (suc n) (λ i. set h line ring (((h + 1) % 5000 + i) % 5000))
      ≡ drop 1 (tabulate (suc n) (λ i. ring ((h + i) % 5000)) ++ line ∷ [])
full line ring h n e l =
    let at : ℕ → Line = λ i. set h line ring (((h + 1) % 5000 + i) % 5000) in
    let old : ℕ → Line = λ i. ring ((h + suc i) % 5000) in
    let kept : tabulate n at ≡ tabulate n old =
      tabulate-ext n at old
        (λ i k. rw (apart_full h i l (omega (arith, k, e))) (ap ring (shifted h i))) in
    let last : at n ≡ line = rw (wraps h n l e) refl in tabulate-suc n at ∙ rw (kept, last) refl

lines-add_full :
    (line : Line) (m : Log)
    → IsLog m
    → ltb m.size 5000 ≡ false
    → lines (add line m) ≡ drop 1 (lines m ++ line ∷ [])
unfolding lines add
lines-add_full line m (in_range, fits) no_room =
    let size_full : suc (m.size - 1) ≡ m.size = ground (arith, no_room) in
    let size_last : m.size - 1 ≡ 4999 = ground (arith, no_room, fits) in
    rw (no_room, add)
      (subst
        (λ s.
          tabulate s (λ i. set m.head line m.ring (((m.head + 1) % 5000 + i) % 5000))
          ≡ drop 1 (tabulate s (λ i. m.ring ((m.head + i) % 5000)) ++ line ∷ []))
        size_full (full line m.ring m.head (m.size - 1) size_last in_range))

drop-suc {ℓ} :
    {A : Type ℓ} (k : ℕ) (xs ys : List A)
    → k < length xs
    → drop 1 (drop k xs ++ ys) ≡ drop (suc k) (xs ++ ys)
drop-suc k [] ys l = absurd (omega (arith, l))
drop-suc zero (x ∷ xs) ys l = refl
drop-suc (suc k) (x ∷ xs) ys l = drop-suc k xs ys (omega (arith, l))

-- The last lines of all that were added.
abbrev pub last_lines : List Line → List Line
last_lines all = drop (length all - max_lines) all

lines-add :
    (line : Line) (m : Log) (done : List Line)
    → IsLog m
    → lines m ≡ last_lines done
    → lines (add line m) ≡ last_lines (done ++ line ∷ [])
unfolding lines
lines-add line m done h e = elim (Bool-cases (ltb m.size 5000)) [
  | inl room ↦
      let short : length done - 5000 ≡ 0 = ground (arith, size, room) in
      let longer : length (done ++ line ∷ []) - 5000 ≡ 0 =
        ground (arith, size, room, length-append done (line ∷ [])) in
      lines-add_room line m (ground (arith, room)) ∙ ap (◌++ line ∷ []) e ∙ rw (short, longer) refl
  | inr no_room ↦
      let longer : length (done ++ line ∷ []) - 5000 ≡ suc (length done - 5000) =
        ground (arith, size, no_room, h, length-append done (line ∷ [])) in
      lines-add_full line m h no_room
      ∙ ap (λ xs. drop 1 (xs ++ line ∷ [])) e
      ∙ drop-suc (length done - 5000) done (line ∷ []) (ground (arith, size, no_room, h))
      ∙ rw longer refl
]
  where
    size : m.size ≡ length done - (length done - 5000)
    size =
        sym (length-tabulate m.size (λ i. m.ring ((m.head + i) % 5000)))
        ∙ ap length e
        ∙ length-drop (length done - 5000) done

-- What an event says, by its kind, words and line.
abbrev pub said_by : StepEventKind → List String → String → List Line
said_by step_started [] line = []
said_by step_started (w ∷ ws) line = ran (w ∷ ws) ∷ []
said_by step_line argv line = if str_eq line "" then [] else wrote line ∷ []
said_by step_done argv line = []
said_by step_failed argv line = []
said_by step_skipped argv line = []
said_by step_waiting argv line = []

-- The words of a command that starts, or a line that is not empty.
abbrev pub said : StepEvent → List Line
said ev = said_by ev.kind ev.argv ev.line

abbrev pub said_all : List StepEvent → List Line
said_all [] = []
said_all (ev ∷ evs) = said ev ++ said_all evs

abbrev pub updates_log : List StepEvent → Log → Log
updates_log [] m = m
updates_log (ev ∷ evs) m = updates_log evs (update ev m)

-- The log holds the last lines of those.
Holds : List Line → Log → Type 0
Holds done m = IsLog m × (lines m ≡ last_lines done)

add-Holds :
    (line : Line) (done : List Line) (m : Log)
    → Holds done m
    → Holds (done ++ line ∷ []) (add line m)
unfolding Holds
add-Holds line done m (h, e) = (add-IsLog line m h, lines-add line m done h e)

Holds-nil : (done : List Line) (m : Log) → Holds done m → Holds (done ++ []) m
Holds-nil done m = subst (λ ls. Holds ls m) (sym (append-nil done))

update_by-Holds :
    (kind : StepEventKind) (argv : List String) (line : String) (done : List Line) (m : Log)
    → Holds done m
    → Holds (done ++ said_by kind argv line) (update_by kind argv line m)
unfolding update_by
update_by-Holds step_started [] line done m h = Holds-nil done m h
update_by-Holds step_started (w ∷ ws) line done m h = add-Holds (ran (w ∷ ws)) done m h
update_by-Holds step_line argv line done m h = elim (Bool-cases (str_eq line "")) [
  | inl e ↦ rw e (Holds-nil done m h)
  | inr e ↦ rw e (add-Holds (wrote line) done m h)
]
update_by-Holds step_done argv line done m h = Holds-nil done m h
update_by-Holds step_failed argv line done m h = Holds-nil done m h
update_by-Holds step_skipped argv line done m h = Holds-nil done m h
update_by-Holds step_waiting argv line done m h = Holds-nil done m h

update-Holds :
    (ev : StepEvent) (done : List Line) (m : Log)
    → Holds done m
    → Holds (done ++ said ev) (update ev m)
unfolding update
update-Holds ev done m h = update_by-Holds ev.kind ev.argv ev.line done m h

updates_log-Holds :
    (evs : List StepEvent) (done : List Line) (m : Log)
    → Holds done m
    → Holds (done ++ said_all evs) (updates_log evs m)
updates_log-Holds [] done m h = subst (λ ls. Holds ls m) (sym (append-nil done)) h
updates_log-Holds (ev ∷ evs) done m h =
    subst (λ ls. Holds ls (updates_log evs (update ev m)))
      (append_assoc done (said ev) (said_all evs))
      (updates_log-Holds evs (done ++ said ev) (update ev m) (update-Holds ev done m h))

-- After any events, the log holds the last 5000 of the lines that they say, in order: the words of
-- each command that started and each line that was not empty.
pub updates_log-lines :
    (evs : List StepEvent) → lines (updates_log evs empty_log) ≡ last_lines (said_all evs)
unfolding Holds lines
updates_log-lines evs = (updates_log-Holds evs [] empty_log start).1
  where
    start : Holds [] empty_log
    start = (omega arith, refl)
