-- ===== src/Screens/Cursor.antt =====
-- The cursor stays on an option, so that what is chosen is one of them.
use mirabilis.Base.{
  ℕ, zero, suc, ◌+◌, ◌<◌, ◌≡◌, refl, ◌⊎◌, inl, inr, List, [], ◌∷◌, length, map, Memᴰ, arith, ap,
  subst, ◌∙◌,
}
use mirabilis.Text.{Text, codes}
use mirabilis.App.State.{LoadoutChoice}
use mirabilis.Screens.{
  Press, press_up, press_down, press_left, press_right, press_space, press_enter, press_esc,
  press_other, Asked, nothing, pop, out_of_range, result, move_back, move_on, at_index,
  gate_options, warn_options, press_list, press_gate, press_warn, RolePicker, default_index,
  new_role_picker, columns, press_role,
}

-- Nothing, a pop, or one of the options.
abbrev pub IsAnswer : List Text → Asked → Type 0
IsAnswer options nothing = Unit
IsAnswer options pop = Unit
IsAnswer options out_of_range = ⊥
IsAnswer options (result t) = Memᴰ t options

at_index-IsAnswer : (n : ℕ) (ts : List Text) → n < length ts → IsAnswer ts (at_index n ts)
unfolding at_index
at_index-IsAnswer n ts h = found n ts h
  where
    widen : (t : Text) (ts : List Text) (a : Asked) → IsAnswer ts a → IsAnswer (t ∷ ts) a
    widen t ts nothing h = tt
    widen t ts pop h = tt
    widen t ts out_of_range h = h
    widen t ts (result x) h = Memᴰ.tail h

    found : (n : ℕ) (ts : List Text) → n < length ts → IsAnswer ts (at_index n ts)
    found n [] h = absurd (omega (arith, h))
    found zero (t ∷ ts) h = Memᴰ.head refl
    found (suc n) (t ∷ ts) h = widen t ts (at_index n ts) (found n ts (omega (arith, h)))

move_back-bound : (d n len : ℕ) → n < len → move_back d n < len
unfolding move_back
move_back-bound d n len h = ground (arith, h)

move_on-bound : (d len n : ℕ) → n < len → move_on d len n < len
unfolding move_on
move_on-bound d len n h = ground (arith, h)

-- On the update gate and on the restart warning, from a cursor on an option, every key leaves the
-- cursor on an option and asks for nothing or for one of the options: no index is out of range.
pub press-IsAnswer :
    (key : Press) (gate warn : ℕ)
    → gate < length gate_options
    → warn < length warn_options
    → (((press_gate key gate).0 < length gate_options)
        × IsAnswer gate_options (press_gate key gate).1)
      × (((press_warn key warn).0 < length warn_options)
          × IsAnswer warn_options (press_warn key warn).1)
unfolding press_gate press_warn
press-IsAnswer key gate warn g w = (
  listed gate_options (codes "skip") (Memᴰ.head refl) key gate g,
  listed warn_options (codes "restart-cancel") (Memᴰ.head refl) key warn w,
)
  where
    listed :
        (options : List Text) (leave : Text)
        → Memᴰ leave options
        → (key : Press) (n : ℕ) → n < length options
        → ((press_list options leave key n).0 < length options)
          × IsAnswer options (press_list options leave key n).1
    listed options leave m press_up n h = (move_back-bound 1 n (length options) h, tt)
    listed options leave m press_down n h = (move_on-bound 1 (length options) n h, tt)
    listed options leave m press_left n h = (h, tt)
    listed options leave m press_right n h = (h, tt)
    listed options leave m press_space n h = (h, tt)
    listed options leave m press_enter n h = (h, at_index-IsAnswer n options h)
    listed options leave m press_esc n h = (h, m)
    listed options leave m press_other n h = (h, tt)

-- The cursor is on an option, if there are any.
record InRange (r : RolePicker) : Type 0 where
  on_option : (r.options ≡ []) ⊎ (r.cursor < length r.options)

abbrev pub key_of : LoadoutChoice → Text
key_of c = c.key

length-map : (cs : List LoadoutChoice) → length (map key_of cs) ≡ length cs
length-map [] = refl
length-map (c ∷ cs) = ap suc (length-map cs)

default_index-bound :
    (i : ℕ) (cs : List LoadoutChoice)
    → (default_index i cs ≡ 0) ⊎ (default_index i cs < i + length cs)
unfolding default_index
default_index-bound i [] = inl refl
default_index-bound i (c ∷ cs) = ground (arith, default_index-bound (suc i) cs)

new_role_picker-InRange : (options : List LoadoutChoice) → InRange (new_role_picker options)
unfolding new_role_picker
new_role_picker-InRange [] = record { on_option = inl refl }
new_role_picker-InRange (c ∷ cs) = record {
  on_option = inr (ground (arith, default_index-bound 0 (c ∷ cs)));
}

moved :
    (r : RolePicker) (n : ℕ)
    → (r.cursor < length r.options → n < length r.options)
    → InRange r
    → InRange (record r { cursor = n })
moved r n h s = elim s.on_option [
  | inl e ↦ record { on_option = inl e }
  | inr l ↦ record { on_option = inr (h l) }
]

press_role-InRange : (key : Press) (r : RolePicker) → InRange r → InRange (press_role key r).0
unfolding press_role
press_role-InRange press_left r = moved r _ (move_back-bound 1 r.cursor (length r.options))
press_role-InRange press_right r = moved r _ (move_on-bound 1 (length r.options) r.cursor)
press_role-InRange press_up r = moved r _ (move_back-bound (columns r) r.cursor (length r.options))
press_role-InRange press_down r = moved r _ (move_on-bound (columns r) (length r.options) r.cursor)
press_role-InRange press_enter r = λ s. s
press_role-InRange press_esc r = λ s. s
press_role-InRange press_space r = λ s. s
press_role-InRange press_other r = λ s. s

chosen :
    (cs : List LoadoutChoice) (n : ℕ)
    → (cs ≡ []) ⊎ (n < length cs)
    → IsAnswer
        (map key_of cs)
        (elim cs [ [] ↦ nothing | d ∷ ds ↦ at_index n (map key_of (d ∷ ds)) ])
chosen [] n h = tt
chosen (c ∷ cs) n (inl e) = absurd (ground (arith, e))
chosen (c ∷ cs) n (inr l) =
    at_index-IsAnswer n (map key_of (c ∷ cs)) (omega (arith, l, length-map cs))

press_role-IsAnswer :
    (key : Press) (r : RolePicker)
    → InRange r
    → IsAnswer (map key_of r.options) (press_role key r).1
unfolding press_role
press_role-IsAnswer press_left r s = tt
press_role-IsAnswer press_right r s = tt
press_role-IsAnswer press_up r s = tt
press_role-IsAnswer press_down r s = tt
press_role-IsAnswer press_enter r s = chosen r.options r.cursor s.on_option
press_role-IsAnswer press_esc r s = tt
press_role-IsAnswer press_space r s = tt
press_role-IsAnswer press_other r s = tt

-- The picker after some keys.
abbrev pub pressed : List Press → RolePicker → RolePicker
pressed [] r = r
pressed (key ∷ keys) r = pressed keys (press_role key r).0

options-press_role : (key : Press) (r : RolePicker) → (press_role key r).0.options ≡ r.options
unfolding press_role
options-press_role key r = ground arith

pressed-InRange :
    (keys : List Press) (r : RolePicker)
    → InRange r
    → InRange (pressed keys r) × ((pressed keys r).options ≡ r.options)
pressed-InRange [] r s = (s, refl)
pressed-InRange (key ∷ keys) r s =
    let (t, e) = pressed-InRange keys (press_role key r).0 (press_role-InRange key r s) in
    (t, e ∙ options-press_role key r)

-- The role picker, at any width of the window and after any keys, asks at the next key for nothing,
-- for a pop, or for the key of one of the loadouts it was opened with: no index is out of range.
pub pressed-IsAnswer :
    (options : List LoadoutChoice) (width : ℕ) (keys : List Press) (key : Press)
    → IsAnswer
        (map key_of options)
        (press_role key (pressed keys (record (new_role_picker options) { win_w = width }))).1
unfolding new_role_picker
pressed-IsAnswer options width keys key =
    let opened : RolePicker = record (new_role_picker options) { win_w = width } in
    let start : InRange opened = record {
      on_option = (new_role_picker-InRange options).on_option;
    } in
    let (s, e) = pressed-InRange keys opened start in
    subst (λ cs. IsAnswer (map key_of cs) (press_role key (pressed keys opened)).1) e
      (press_role-IsAnswer key (pressed keys opened) s)
