-- ===== src/Observed.antt =====
-- The map of observed states and its watchers: internal/obs/obs.go. A channel of one snapshot is its
-- buffer, named by a number. What a reader takes while `Set` runs is an argument. The log is left out.
pub mod Fresh
mod Examples
use mirabilis.Base.{
  ℕ, suc, String, Bool, true, false, Option, none, some, List, [], ◌∷◌, ◌++◌, if◌then◌else◌, ◌==◌,
  insert, delete,
}
use mirabilis.Text.{Text}
use mirabilis.App.State.{State, NodeStatus}
use mirabilis.Frame.Status.{Snapshot}

pub record Channel : Type 0 where
  pub id : ℕ
  pub slot : Option Snapshot

-- `made` is the number of channels that `Watch` has made.
pub record Obs : Type 0 where
  pub statuses : Snapshot
  pub watchers : List Channel
  pub made : ℕ

abbrev pub new : Obs
new = record { statuses = []; watchers = []; made = 0 }

-- A send that does not wait, and whether it was done.
unfoldable pub try_send : Snapshot → Option Snapshot → Option Snapshot × Bool
try_send snap none = (some snap, true)
try_send snap (some old) = (some old, false)

-- A read that does not wait.
unfoldable pub try_drain : Option Snapshot → Option Snapshot
try_drain none = none
try_drain (some old) = none

-- The selects of `Set` on one channel. `taken`: a reader takes the old snapshot after the first of
-- them, so that the second finds the channel empty.
unfoldable pub offer : Snapshot → Bool → Option Snapshot → Option Snapshot
unfolding try_send try_drain
offer snap taken slot =
    let (now, sent) = try_send snap slot in
    let kept = if taken then none else now in
    if sent then now else (try_send snap (try_drain kept)).0

-- The loop of `Set`; `raced` tells whose reader takes the old snapshot meanwhile.
unfoldable pub offer_all : Snapshot → (ℕ → Bool) → List Channel → List Channel
unfolding offer
offer_all snap raced [] = []
offer_all snap raced (w ∷ ws) =
    record w { slot = offer snap (raced w.id) w.slot } ∷ offer_all snap raced ws

unfoldable pub set : String → State → Text → (ℕ → Bool) → Obs → Obs
unfolding offer_all insert delete
set node st detail raced o =
    let statuses = insert node (record { state = st; detail = detail }) o.statuses in
    record o { statuses = statuses; watchers = offer_all statuses raced o.watchers }

unfoldable pub watch : Obs → Obs
watch o = record o {
  watchers = o.watchers ++ record { id = o.made; slot = none } ∷ [];
  made = suc o.made;
}

unfoldable pub remove_watcher : ℕ → List Channel → List Channel
remove_watcher n [] = []
remove_watcher n (w ∷ ws) = let rest = remove_watcher n ws in if w.id == n then ws else w ∷ rest

unfoldable pub unwatch : ℕ → Obs → Obs
unfolding remove_watcher
unwatch n o = record o { watchers = remove_watcher n o.watchers }

-- What a channel that is watched holds.
unfoldable pub slot_of : ℕ → List Channel → Option Snapshot
slot_of n [] = none
slot_of n (w ∷ ws) = let rest = slot_of n ws in if w.id == n then w.slot else rest

unfoldable pub empty_slot : ℕ → List Channel → List Channel
empty_slot n [] = []
empty_slot n (w ∷ ws) = (if w.id == n then record w { slot = none } else w) ∷ empty_slot n ws

-- A read of a channel: without a snapshot the reader waits, and nothing changes.
unfoldable pub receive : ℕ → Obs → Obs × Option Snapshot
unfolding slot_of empty_slot
receive n o = (record o { watchers = empty_slot n o.watchers }, slot_of n o.watchers)

pub data Event : Type 0 where
  set_done : String → State → Text → (ℕ → Bool) → Event
  watch_done : Event
  unwatch_done receive_done : ℕ → Event

unfoldable pub apply : Event → Obs → Obs
unfolding set watch unwatch receive
apply (set_done node st detail raced) o = set node st detail raced o
apply watch_done o = watch o
apply (unwatch_done n) o = unwatch n o
apply (receive_done n) o = (receive n o).0

unfoldable pub apply_all : List Event → Obs → Obs
unfolding apply
apply_all [] o = o
apply_all (e ∷ es) o = apply_all es (apply e o)
