-- ===== src/Observed/Examples.antt =====
-- A watcher that reads after two sets (internal/obs/obs.go).
use mirabilis.Base.{◌≡◌, refl, false, true, some, arith, [], ◌∷◌, List}
use mirabilis.Text.{codes}
use mirabilis.App.State.{ok_state, degraded, off}
use mirabilis.Observed.{
  new, set, watch, receive, Event, set_done, watch_done, unwatch_done, apply_all,
}
use mirabilis.Observed.Fresh.{is_watching, receive-set}

abbrev events : List Event
events =
    watch_done
    ∷ set_done "container" off (codes "not running") (λ n. false)
    ∷ set_done "container" ok_state (codes "up") (λ n. true)
    ∷ []

-- Another watcher comes and goes meanwhile.
abbrev others : List Event
others = watch_done ∷ set_done "version" degraded (codes "v2") (λ n. true) ∷ unwatch_done 1 ∷ []

watched : is_watching 0 (watch new).watchers ≡ true
unfolding is_watching watch
watched = refl

receive-set_example :
    (receive 0
      (apply_all others (set "container" off (codes "not running") (λ n. false) (watch new)))).1
    ≡ some
        (apply_all others
          (set "container" off (codes "not running") (λ n. false) (watch new))).statuses
receive-set_example =
    receive-set 0 "container" off (codes "not running") (λ n. false) others (watch new) watched
      (tt, (tt, ((λ e. absurd (omega (arith, e))), tt)))
