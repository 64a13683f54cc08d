-- ===== src/Backoff.antt =====
-- Delays that double up to a cap, which internal/engine/status/status.go and
-- internal/engine/release/release.go both wait for.
use mirabilis.Base.{ℕ, zero, suc, ◌*◌, List, [], ◌∷◌, if◌then◌else◌, ltb}

unfoldable pub doubling : ℕ → ℕ → ℕ → List ℕ
doubling cap d zero = []
doubling cap d (suc n) = d ∷ doubling cap (if ltb cap (d * 2) then cap else d * 2) n
