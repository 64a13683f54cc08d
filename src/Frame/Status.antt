-- ===== src/Frame/Status.antt =====
-- The bar of states: internal/tui/components/statusbar/statusbar.go, and `outdatedBadge` of
-- internal/tui/frame/frame.go.
use mirabilis.Base.{
  ℕ, suc, String, none, some, [], ◌∷◌, ◌++◌, if◌then◌else◌, str_eq, StringMap, lookup,
}
use mirabilis.Text.{Text, codes}
use mirabilis.App.State.{State, unknown, ok_state, degraded, off, NodeStatus}

abbrev pub Snapshot : Type 0
Snapshot = StringMap NodeStatus

abbrev pub version_node : String
version_node = "version"

unfoldable pub outdated_badge : Snapshot → Text
unfolding lookup
outdated_badge snap = elim (lookup version_node snap) [
  | none ↦ []
  | some st ↦ elim st.state [
    | degraded ↦ codes "update " ++ elim st.detail [ [] ↦ codes "available" | c ∷ t ↦ c ∷ t ]
    | unknown ↦ []
    | ok_state ↦ []
    | off ↦ []
  ]
]

pub record Counts : Type 0 where
  pub oks : ℕ
  pub degradeds : ℕ
  pub offs : ℕ
  pub unknowns : ℕ

abbrev pub count : State → Counts → Counts
count ok_state c = record c { oks = suc c.oks }
count degraded c = record c { degradeds = suc c.degradeds }
count off c = record c { offs = suc c.offs }
count unknown c = record c { unknowns = suc c.unknowns }

-- The loop of `Health`, which leaves the version out.
unfoldable pub count_states : Snapshot → Counts
count_states [] = record { oks = 0; degradeds = 0; offs = 0; unknowns = 0 }
count_states ((node, st) ∷ snap) =
    let rest = count_states snap in if str_eq node version_node then rest else count st.state rest
