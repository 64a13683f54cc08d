-- ===== src/Router.antt =====
-- The stack of screens of internal/tui/router/router.go, and the addresses of internal/bus/bus.go.
-- A screen is of any type that has an address and takes messages. What it asks for in return
-- (`tea.Cmd`) is a list of requests. The stack is never empty: its root stands apart, and the others
-- are listed from the top.
pub mod Address
pub mod Delivery
mod Examples
use mirabilis.Base.{
  Bool, true, false, ◌||◌, List, [], ◌∷◌, ◌++◌, if◌then◌else◌, is_some, Option, none, some,
}
use mirabilis.Text.{Text, text_eq, has_prefix}

-- `NodeID.Child`
unfoldable pub child : Text → Text → Text
child [] name = name
child (c ∷ n) name = (c ∷ n) ++ 47 ∷ name

-- `NodeID.Contains`
unfoldable pub contains_id : Text → Text → Bool
unfolding text_eq
contains_id [] target = true
contains_id (c ∷ n) target = text_eq target (c ∷ n) || has_prefix target ((c ∷ n) ++ 47 ∷ [])

-- What the router needs of its screens and of their messages: `enclose` puts one into an envelope, which
-- is a message too.
pub record Screens (S Msg Cmd : Type 0) : Type 0 where
  pub id : S → Text
  pub init : S → List Cmd
  pub update : Msg → S → S × List Cmd
  pub enclose : Text → Msg → Msg

pub record Router (S : Type 0) : Type 0 where
  pub above : List S
  pub root : S

pub data Message (S Msg : Type 0) : Type 0 where
  screen_push : S → Message S Msg
  screen_pop : Message S Msg
  envelope : Text → Msg → Message S Msg
  window_size : Msg → Message S Msg
  plain : Msg → Message S Msg

module _ {S Msg Cmd : Type 0} (k : Screens S Msg Cmd) where
  -- The loop of `broadcast`, here from the top of the stack.
  unfoldable pub update_all : Msg → List S → List S × List Cmd
  update_all m [] = ([], [])
  update_all m (s ∷ ss) =
      let (next, asked) = k.update m s in
      let (rest, others) = update_all m ss in (next ∷ rest, others ++ asked)

  unfoldable pub broadcast : Msg → Router S → Router S × List Cmd
  unfolding update_all
  broadcast m r =
      let (next, asked) = k.update m r.root in
      let (above, others) = update_all m r.above in
      (record { above = above; root = next }, asked ++ others)

  -- The loop of `address`: the first screen from the top whose address contains the target, or none. It
  -- is passed the whole envelope.
  unfoldable pub update_first : Text → Msg → List S → Option (List S × List Cmd)
  unfolding contains_id
  update_first target m [] = none
  update_first target m (s ∷ ss) =
      let rest = update_first target m ss in
      if contains_id (k.id s) target
      then some ((k.update (k.enclose target m) s).0 ∷ ss, (k.update (k.enclose target m) s).1)
      else elim rest [ none ↦ none | some r ↦ some (s ∷ r.0, r.1) ]

  unfoldable pub address : Text → Msg → Router S → Router S × List Cmd
  unfolding update_first
  address target m r = elim (update_first target m r.above) [
    | some a ↦ (record r { above = a.0 }, a.1)
    | none ↦
        if contains_id (k.id r.root) target
        then (
          record r { root = (k.update (k.enclose target m) r.root).0 },
          (k.update (k.enclose target m) r.root).1,
        )
        else (r, [])
  ]

  unfoldable pub update_top : Msg → Router S → Router S × List Cmd
  update_top m r = elim r.above [
    | [] ↦ (record r { root = (k.update m r.root).0 }, (k.update m r.root).1)
    | s ∷ ss ↦ (record r { above = (k.update m s).0 ∷ ss }, (k.update m s).1)
  ]

  unfoldable pub update : Message S Msg → Router S → Router S × List Cmd
  unfolding broadcast address update_top
  update (screen_push s) r = (record r { above = s ∷ r.above }, k.init s)
  update screen_pop r = (record r { above = elim r.above [ [] ↦ [] | s ∷ ss ↦ ss ] }, [])
  update (envelope [] m) r = broadcast m r
  update (envelope (c ∷ target) m) r = address (c ∷ target) m r
  update (window_size m) r = broadcast m r
  update (plain m) r = update_top m r
