-- ===== src/Router/Delivery.antt =====
-- Which screens a message reaches, and what becomes of the stack.
use mirabilis.Base.{
  ◌-◌, subst, Option-cases, inl, inr, ℕ, suc, Bool, true, false, ◌≡◌, refl, ap, Option, none, some,
  List, [], ◌∷◌, ◌++◌, arith, All, length, if◌then◌else◌,
}
use mirabilis.Text.{Text}
use mirabilis.Router.{
  contains_id, Screens, Router, Message, screen_push, screen_pop, envelope, window_size, plain,
  update_first, address, update, update_all, broadcast, update_top,
}

module _ {S Msg Cmd : Type 0} (k : Screens S Msg Cmd) where
  update_first-found :
      (target : Text) (m : Msg) (pre post : List S) (s : S)
      → All (λ (x : S). contains_id (k.id x) target ≡ false) pre
      → contains_id (k.id s) target ≡ true
      → update_first k target m (pre ++ s ∷ post)
        ≡ some
            (pre ++ (k.update (k.enclose target m) s).0 ∷ post, (k.update (k.enclose target m) s).1)
  unfolding update_first
  update_first-found target m [] post s out here = rw here refl
  update_first-found target m (x ∷ pre) post s out here =
      rw (out.0, update_first-found target m pre post s out.1 here) refl

  -- A message with an address, not the empty one, goes to the topmost screen above the root whose
  -- address contains it, and to no other: that screen takes the whole envelope where it stands, all others stay, and
  -- only its requests are returned.
  pub envelope-topmost :
      (c : ℕ) (target : Text) (m : Msg) (pre post : List S) (s root : S)
      → All (λ (x : S). contains_id (k.id x) (c ∷ target) ≡ false) pre
      → contains_id (k.id s) (c ∷ target) ≡ true
      → update k (envelope (c ∷ target) m) (record { above = pre ++ s ∷ post; root = root }) ≡ (
        record { above = pre ++ (k.update (k.enclose (c ∷ target) m) s).0 ∷ post; root = root },
        (k.update (k.enclose (c ∷ target) m) s).1,
      )
  unfolding update address
  envelope-topmost c target m pre post s root out here =
      rw (update_first-found (c ∷ target) m pre post s out here, address) refl

  length-update_all : (m : Msg) (ss : List S) → length (update_all k m ss).0 ≡ length ss
  unfolding update_all
  length-update_all m [] = refl
  length-update_all m (s ∷ ss) = ap suc (length-update_all m ss)

  -- A result, if there is one, has that many screens.
  abbrev Keeps : ℕ → Option (List S × List Cmd) → Type 0
  Keeps n none = Unit
  Keeps n (some r) = length r.0 ≡ n

  Keeps-cons :
      (here : Bool) (s next : S) (ss : List S) (asked : List Cmd)
      (rest : Option (List S × List Cmd))
      → Keeps (length ss) rest
      → Keeps (suc (length ss)) (
          if here
          then some (next ∷ ss, asked)
          else elim rest [ none ↦ none | some r ↦ some (s ∷ r.0, r.1) ])
  Keeps-cons true s next ss asked rest h = refl
  Keeps-cons false s next ss asked none h = tt
  Keeps-cons false s next ss asked (some r) h = ap suc h

  update_first-Keeps :
      (target : Text) (m : Msg) (ss : List S) → Keeps (length ss) (update_first k target m ss)
  unfolding update_first
  update_first-Keeps target m [] = tt
  update_first-Keeps target m (s ∷ ss) =
      Keeps-cons (contains_id (k.id s) target) s (k.update (k.enclose target m) s).0 ss
        (k.update (k.enclose target m) s).1 (update_first k target m ss)
        (update_first-Keeps target m ss)

  -- How many screens lie above the root after a message.
  abbrev pub depth_after : Message S Msg → ℕ → ℕ
  depth_after (screen_push s) n = suc n
  depth_after screen_pop n = n - 1
  depth_after (envelope target m) n = n
  depth_after (window_size m) n = n
  depth_after (plain m) n = n

  -- A push adds a screen, a pop takes one off if there is one above the root, and no other message
  -- changes how many there are, whatever the screens do with it.
  pub length-update :
      (msg : Message S Msg) (r : Router S)
      → length (update k msg r).0.above ≡ depth_after msg (length r.above)
  unfolding update broadcast address update_top
  length-update (screen_push s) r = refl
  length-update screen_pop r = ground arith
  length-update (envelope [] m) r = length-update_all m r.above
  length-update (envelope (c ∷ target) m) r =
      elim (Option-cases (update_first k (c ∷ target) m r.above)) [
        | inl e ↦ ground (arith, e)
        | inr (x, e) ↦
            ground (
              arith,
              e,
              subst (Keeps (length r.above)) e (update_first-Keeps (c ∷ target) m r.above),
            )
      ]
  length-update (window_size m) r = length-update_all m r.above
  length-update (plain m) r = ground arith
