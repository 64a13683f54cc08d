-- ===== src/Screens/Tune/Known.antt =====
-- What the quick tune answers takes effect: internal/tui/screens/tune.go, with cmd/mirabilis/facade.go.
use mirabilis.Base.{
  ℕ, zero, suc, ◌+◌, ◌<◌, Bool, some, List, [], ◌∷◌, length, ◌≡◌, ◌≢◌, refl, sym, ap, ◌∙◌, subst,
  arith, Memᴰ, Option-cases, inl, inr, All, Bool-cases,
}
use mirabilis.Text.{Text, text_eq, is_space, trim_space, trim_left, trim_right}
use mirabilis.Text.Lines.{IsLine, text_eq_iff}
use mirabilis.Config.Tune.{Repo, write_tune, effective_tune}
use mirabilis.Config.Tune.Effective.{effective_tune-write_tune}
use mirabilis.Screens.{
  Press, press_up, press_down, press_left, press_right, press_space, press_enter, press_esc,
  press_other, move_back, move_on,
}
use mirabilis.Screens.Tune.{
  Tune, effort_cycle, index_from, normalize_effort, effort_index, new_tune, effort_at, back_index,
  on_index, TuneAsked, no_ask, leave, out_of_range, tuned, set_effort, adjust, press_tune,
  press_all,
}

-- One of the five efforts, on one of the two rows.
abbrev pub IsKnown : Tune → Type 0
IsKnown t = (Memᴰ t.effort effort_cycle) × (t.row < 2)

effort_at-Mem :
    (i : ℕ) (es : List Text) → i < length es → (e : Text) × ((effort_at i es ≡ some e) × Memᴰ e es)
unfolding effort_at
effort_at-Mem i [] h = absurd (omega (arith, h))
effort_at-Mem zero (e ∷ es) h = (e, (refl, Memᴰ.head refl))
effort_at-Mem (suc i) (e ∷ es) h =
    let (f, (g, m)) = effort_at-Mem i es (omega (arith, h)) in (f, (g, Memᴰ.tail m))

index_from-Mem :
    (i : ℕ) (t : Text) (es : List Text) (j : ℕ)
    → index_from i t es ≡ some j
    → Memᴰ t es × (j < i + length es)
unfolding index_from
index_from-Mem i t [] j h = cc
index_from-Mem i t (e ∷ es) j h = elim (Bool-cases (text_eq e t)) [
  | inl f ↦ let s : t ≡ e = sym ((text_eq_iff e t).0 f) in (Memᴰ.head s, ground (arith, f, h))
  | inr f ↦
      let (m, b) = index_from-Mem (suc i) t es j (ground (arith, f, h)) in
      (Memᴰ.tail m, omega (arith, b))
]

normalize_effort-Mem : (effort : Text) → Memᴰ (normalize_effort effort) effort_cycle
unfolding normalize_effort
normalize_effort-Mem effort = elim (Option-cases (index_from 0 effort effort_cycle)) [
  | inl e ↦ rw e (Memᴰ.tail (Memᴰ.head refl))
  | inr (i, e) ↦ rw e (index_from-Mem 0 effort effort_cycle i e).0
]

effort_index-bound : (effort : Text) → effort_index effort < 5
unfolding effort_index
effort_index-bound effort = elim (Option-cases (index_from 0 effort effort_cycle)) [
  | inl e ↦ rw e (omega arith)
  | inr (i, e) ↦ rw e (index_from-Mem 0 effort effort_cycle i e).1
]

-- A key that is pressed: the tune stays known, and no index is out of range.
abbrev IsKnownAsked : TuneAsked → Type 0
IsKnownAsked no_ask = Unit
IsKnownAsked leave = Unit
IsKnownAsked out_of_range = ⊥
IsKnownAsked (tuned effort fleet) = Memᴰ effort effort_cycle

adjust-IsKnown :
    (n i : ℕ) (t : Tune)
    → i < 5
    → IsKnown t
    → IsKnown (adjust n i t).0 × IsKnownAsked (adjust n i t).1
unfolding adjust set_effort
adjust-IsKnown zero i t b h =
    let (e, (f, m)) = effort_at-Mem i effort_cycle b in rw f ((m, h.1), tt)
adjust-IsKnown (suc zero) i t b h = (h, tt)
adjust-IsKnown (suc (suc n)) i t b h = (h, tt)

back_index-bound : (i : ℕ) → i < 5 → back_index i < 5
unfolding back_index
back_index-bound i h = ground (arith, h)

on_index-bound : (i : ℕ) → on_index i < 5
unfolding on_index
on_index-bound i = ground arith

move_back-row : (n : ℕ) → n < 2 → move_back 1 n < 2
unfolding move_back
move_back-row n h = ground (arith, h)

move_on-row : (n : ℕ) → n < 2 → move_on 1 2 n < 2
unfolding move_on
move_on-row n h = ground (arith, h)

press_tune-IsKnown :
    (k : Press) (t : Tune)
    → IsKnown t
    → IsKnown (press_tune k t).0 × IsKnownAsked (press_tune k t).1
unfolding press_tune
press_tune-IsKnown press_up t h = ((h.0, move_back-row t.row h.1), tt)
press_tune-IsKnown press_down t h = ((h.0, move_on-row t.row h.1), tt)
press_tune-IsKnown press_left t h =
    adjust-IsKnown t.row (back_index (effort_index t.effort)) t
      (back_index-bound (effort_index t.effort) (effort_index-bound t.effort)) h
press_tune-IsKnown press_right t h =
    adjust-IsKnown t.row (on_index (effort_index t.effort)) t
      (on_index-bound (effort_index t.effort)) h
press_tune-IsKnown press_space t h =
    adjust-IsKnown t.row (on_index (effort_index t.effort)) t
      (on_index-bound (effort_index t.effort)) h
press_tune-IsKnown press_enter t h = (h, h.0)
press_tune-IsKnown press_esc t h = (h, tt)
press_tune-IsKnown press_other t h = (h, tt)

press_all-IsKnown : (ks : List Press) (t : Tune) → IsKnown t → IsKnown (press_all ks t)
unfolding press_all
press_all-IsKnown [] t h = h
press_all-IsKnown (k ∷ ks) t h =
    press_all-IsKnown ks (press_tune k t).0 (press_tune-IsKnown k t h).0

pub new_tune-IsKnown : (effort : Text) (fleet : Bool) → IsKnown (new_tune effort fleet)
unfolding new_tune
new_tune-IsKnown effort fleet = (normalize_effort-Mem effort, omega arith)

-- The five efforts are lines that stay as they are when they are trimmed.
abbrev IsTrimmedLine : Text → Type 0
IsTrimmedLine e = IsLine e × ((trim_space e ≡ e) × (e ≢ []))

known-IsTrimmedLine : (e : Text) → Memᴰ e effort_cycle → IsTrimmedLine e
unfolding trim_space trim_left trim_right is_space
known-IsTrimmedLine e m = from_all e effort_cycle m (
  (omega arith, (refl, λ n. cc)),
  (
    (omega arith, (refl, λ n. cc)),
    (
      (omega arith, (refl, λ n. cc)),
      ((omega arith, (refl, λ n. cc)), ((omega arith, (refl, λ n. cc)), tt)),
    ),
  ),
)
  where
    from_all : (e : Text) (es : List Text) → Memᴰ e es → All IsTrimmedLine es → IsTrimmedLine e
    from_all e [] m h = elim m [ ]
    from_all e (f ∷ es) (Memᴰ.head s) h = subst IsTrimmedLine (sym s) h.0
    from_all e (f ∷ es) (Memᴰ.tail m) h = from_all e es m h.1

-- Whatever keys are pressed on the tune, from whatever effort it begins with, what it answers to the
-- enter key takes effect once it is written: an effort of the five, and the fleet.
pub press_all-effective :
    (effort : Text) (fleet : Bool) (ks : List Press) (k : Press) (e : Text) (on : Bool) (r : Repo)
    → (press_tune k (press_all ks (new_tune effort fleet))).1 ≡ tuned e on
    → Memᴰ e effort_cycle × (effective_tune (write_tune e on r) ≡ (e, on))
press_all-effective effort fleet ks k e on r h =
    let t = press_all ks (new_tune effort fleet) in
    let known =
      (press_tune-IsKnown k t
        (press_all-IsKnown ks (new_tune effort fleet) (new_tune-IsKnown effort fleet))).1 in
    let m = subst IsKnownAsked h known in
    let (line, (same, some_left)) = known-IsTrimmedLine e m in
    (
      m,
      effective_tune-write_tune r e on line (λ n. some_left (sym same ∙ n))
          ∙ ap (λ t. (t, on)) same,
    )
