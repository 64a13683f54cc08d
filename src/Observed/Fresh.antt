-- ===== src/Observed/Fresh.antt =====
-- A watcher reads the states as they are: internal/obs/obs.go.
use mirabilis.Base.{
  ℕ, String, Bool, true, false, Option, none, some, List, [], ◌∷◌, ◌++◌, if◌then◌else◌, ◌==◌, ◌≡◌,
  ◌≢◌, refl, All, arith, ◌⊎◌, inl, inr, insert, Bool-cases,
}
use mirabilis.Text.{Text}
use mirabilis.App.State.{State}
use mirabilis.Frame.Status.{Snapshot}
use mirabilis.Observed.{
  Channel, Obs, new, try_send, try_drain, offer, offer_all, set, watch, remove_watcher, unwatch,
  slot_of, empty_slot, receive, Event, set_done, watch_done, unwatch_done, receive_done, apply,
  apply_all,
}

-- A channel is empty, or it holds the states as they are.
abbrev pub IsCurrent : Snapshot → Option Snapshot → Type 0
IsCurrent snap slot = (slot ≡ none) ⊎ (slot ≡ some snap)

abbrev pub IsFresh : Obs → Type 0
IsFresh o = All (λ w. IsCurrent o.statuses w.slot) o.watchers

pub offer_lem :
    (snap : Snapshot) (taken : Bool) (slot : Option Snapshot) → offer snap taken slot ≡ some snap
unfolding offer try_send try_drain
offer_lem snap taken none = refl
offer_lem snap true (some old) = refl
offer_lem snap false (some old) = refl

offer_all-IsFresh :
    (snap : Snapshot) (raced : ℕ → Bool) (ws : List Channel)
    → All (λ w. IsCurrent snap w.slot) (offer_all snap raced ws)
unfolding offer_all
offer_all-IsFresh snap raced [] = tt
offer_all-IsFresh snap raced (w ∷ ws) =
    (inr (offer_lem snap (raced w.id) w.slot), offer_all-IsFresh snap raced ws)

module _ (snap : Snapshot) where
  added-IsFresh :
      (n : ℕ) (ws : List Channel)
      → All (λ w. IsCurrent snap w.slot) ws
      → All (λ w. IsCurrent snap w.slot) (ws ++ record { id = n; slot = none } ∷ [])
  added-IsFresh n [] h = (inl refl, tt)
  added-IsFresh n (w ∷ ws) h = (h.0, added-IsFresh n ws h.1)

  removed-IsFresh :
      (n : ℕ) (ws : List Channel)
      → All (λ w. IsCurrent snap w.slot) ws
      → All (λ w. IsCurrent snap w.slot) (remove_watcher n ws)
  unfolding remove_watcher
  removed-IsFresh n [] h = tt
  removed-IsFresh n (w ∷ ws) h = elim (Bool-cases (w.id == n)) [
    | inl e ↦ rw e h.1
    | inr e ↦ rw e (h.0, removed-IsFresh n ws h.1)
  ]

  emptied-IsFresh :
      (n : ℕ) (ws : List Channel)
      → All (λ w. IsCurrent snap w.slot) ws
      → All (λ w. IsCurrent snap w.slot) (empty_slot n ws)
  unfolding empty_slot
  emptied-IsFresh n [] h = tt
  emptied-IsFresh n (w ∷ ws) h = elim (Bool-cases (w.id == n)) [
    | inl e ↦ rw e (inl refl, emptied-IsFresh n ws h.1)
    | inr e ↦ rw e (h.0, emptied-IsFresh n ws h.1)
  ]

apply-IsFresh : (e : Event) (o : Obs) → IsFresh o → IsFresh (apply e o)
unfolding apply set watch unwatch receive
apply-IsFresh (set_done node st detail raced) o h =
    offer_all-IsFresh (insert node (record { state = st; detail = detail }) o.statuses) raced
      o.watchers
apply-IsFresh watch_done o h = added-IsFresh o.statuses o.made o.watchers h
apply-IsFresh (unwatch_done n) o h = removed-IsFresh o.statuses n o.watchers h
apply-IsFresh (receive_done n) o h = emptied-IsFresh o.statuses n o.watchers h

apply_all-IsFresh : (es : List Event) (o : Obs) → IsFresh o → IsFresh (apply_all es o)
unfolding apply_all
apply_all-IsFresh [] o h = h
apply_all-IsFresh (e ∷ es) o h = apply_all-IsFresh es (apply e o) (apply-IsFresh e o h)

slot_of-IsCurrent :
    (snap : Snapshot) (n : ℕ) (ws : List Channel)
    → All (λ w. IsCurrent snap w.slot) ws
    → IsCurrent snap (slot_of n ws)
unfolding slot_of
slot_of-IsCurrent snap n [] h = inl refl
slot_of-IsCurrent snap n (w ∷ ws) h = elim (Bool-cases (w.id == n)) [
  | inl e ↦ rw e h.0
  | inr e ↦ rw e (slot_of-IsCurrent snap n ws h.1)
]

-- Whatever has happened since the start, a reader gets nothing or the states as they are: no channel
-- holds older ones.
pub receive-IsCurrent :
    (es : List Event) (n : ℕ)
    → IsCurrent (apply_all es new).statuses (receive n (apply_all es new)).1
unfolding receive
receive-IsCurrent es n =
    slot_of-IsCurrent (apply_all es new).statuses n (apply_all es new).watchers
      (apply_all-IsFresh es new tt)

-- An event that is not about this channel: neither its end nor a read of it.
abbrev pub IsOther : ℕ → Event → Type 0
IsOther n (set_done node st detail raced) = Unit
IsOther n watch_done = Unit
IsOther n (unwatch_done m) = m ≢ n
IsOther n (receive_done m) = m ≢ n

-- Does the channel hold the states as they are?
abbrev IsWaiting : ℕ → Obs → Type 0
IsWaiting n o = slot_of n o.watchers ≡ some o.statuses

unfoldable pub is_watching : ℕ → List Channel → Bool
is_watching n [] = false
is_watching n (w ∷ ws) = let rest = is_watching n ws in if w.id == n then true else rest

offer_all-waiting :
    (snap : Snapshot) (raced : ℕ → Bool) (n : ℕ) (ws : List Channel)
    → is_watching n ws ≡ true
    → slot_of n (offer_all snap raced ws) ≡ some snap
unfolding offer_all is_watching slot_of
offer_all-waiting snap raced n [] h = cc
offer_all-waiting snap raced n (w ∷ ws) h =
    ground (arith, h, offer_lem snap (raced w.id) w.slot, offer_all-waiting snap raced n ws)

waiting-watching :
    (n : ℕ) (ws : List Channel) (snap : Snapshot)
    → slot_of n ws ≡ some snap
    → is_watching n ws ≡ true
unfolding slot_of is_watching
waiting-watching n [] snap h = cc
waiting-watching n (w ∷ ws) snap h = ground (arith, h, waiting-watching n ws snap)

slot_of-added :
    (n k : ℕ) (ws : List Channel) (snap : Snapshot)
    → slot_of n ws ≡ some snap
    → slot_of n (ws ++ record { id = k; slot = none } ∷ []) ≡ some snap
unfolding slot_of
slot_of-added n k [] snap h = cc
slot_of-added n k (w ∷ ws) snap h = ground (arith, h, slot_of-added n k ws snap)

slot_of-removed :
    (n m : ℕ) (ws : List Channel) → m ≢ n → slot_of n (remove_watcher m ws) ≡ slot_of n ws
unfolding slot_of remove_watcher
slot_of-removed n m [] h = refl
slot_of-removed n m (w ∷ ws) h = ground (arith, h, slot_of-removed n m ws h)

slot_of-emptied : (n m : ℕ) (ws : List Channel) → m ≢ n → slot_of n (empty_slot m ws) ≡ slot_of n ws
unfolding slot_of empty_slot
slot_of-emptied n m [] h = refl
slot_of-emptied n m (w ∷ ws) h = ground (arith, h, slot_of-emptied n m ws h)

apply-IsWaiting :
    (n : ℕ) (e : Event) (o : Obs) → IsOther n e → IsWaiting n o → IsWaiting n (apply e o)
unfolding apply set watch unwatch receive
apply-IsWaiting n (set_done node st detail raced) o i h =
    offer_all-waiting (insert node (record { state = st; detail = detail }) o.statuses) raced n
      o.watchers (waiting-watching n o.watchers o.statuses h)
apply-IsWaiting n watch_done o i h = slot_of-added n o.made o.watchers o.statuses h
apply-IsWaiting n (unwatch_done m) o i h = rw (slot_of-removed n m o.watchers i) h
apply-IsWaiting n (receive_done m) o i h = rw (slot_of-emptied n m o.watchers i) h

apply_all-IsWaiting :
    (n : ℕ) (es : List Event) (o : Obs)
    → All (IsOther n) es
    → IsWaiting n o
    → IsWaiting n (apply_all es o)
unfolding apply_all
apply_all-IsWaiting n [] o i h = h
apply_all-IsWaiting n (e ∷ es) o i h =
    apply_all-IsWaiting n es (apply e o) i.1 (apply-IsWaiting n e o i.0 h)

-- Once a state has been set, a watcher that has neither read nor left gets the states as they are,
-- however many have been set meanwhile and whatever readers take between the selects of a set.
pub receive-set :
    (n : ℕ) (node : String) (st : State) (detail : Text) (raced : ℕ → Bool) (es : List Event)
    (o : Obs)
    → is_watching n o.watchers ≡ true
    → All (IsOther n) es
    → (receive n (apply_all es (set node st detail raced o))).1
      ≡ some (apply_all es (set node st detail raced o)).statuses
unfolding receive set
receive-set n node st detail raced es o w i =
    let statuses = insert node (record { state = st; detail = detail }) o.statuses in
    apply_all-IsWaiting n es (set node st detail raced o) i
      (offer_all-waiting statuses raced n o.watchers w)
