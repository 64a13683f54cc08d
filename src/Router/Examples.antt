-- ===== src/Router/Examples.antt =====
-- A menu under two screens that note the messages they take, an envelope as its message and a hundred.
use mirabilis.Base.{◌+◌, ℕ, ◌≡◌, refl, List, [], ◌∷◌}
use mirabilis.Text.{Text, codes, cut_prefix}
use mirabilis.Router.{contains_id, Screens, Router, envelope, update}
use mirabilis.Router.Delivery.{envelope-topmost}

abbrev Noting : Type 0
Noting = Text × List ℕ

abbrev noting : Screens Noting ℕ ℕ
noting = record {
  id = λ s. s.0;
  init = λ s. [];
  update = λ m s. ((s.0, m ∷ s.1), m ∷ []);
  enclose = λ target m. 100 + m;
}

abbrev stack : Router Noting
stack = record {
  above = (codes "app/form", []) ∷ (codes "app/launch", []) ∷ [];
  root = (codes "app/menu", []);
}

envelope-topmost_example : update noting (envelope (codes "app/launch/steps") 3) stack ≡ (
  record {
    above = (codes "app/form", []) ∷ (codes "app/launch", 103 ∷ []) ∷ [];
    root = (codes "app/menu", []);
  },
  103 ∷ [],
)
unfolding contains_id cut_prefix
envelope-topmost_example =
    envelope-topmost noting 97 (codes "pp/launch/steps") 3 ((codes "app/form", []) ∷ []) []
      (codes "app/launch", []) (codes "app/menu", []) (refl, tt) refl
