-- ===== src/Status/Examples.antt =====
-- An outage of docker (internal/engine/status/status.go).
use mirabilis.Base.{◌≡◌, refl, true, none, List, [], ◌∷◌, arith, length}
use mirabilis.Backoff.{doubling}
use mirabilis.Status.{
  uptime_of, up_days, whole_hours, top_power, Round, stream_over, new, run, second,
}
use mirabilis.Status.Elapsed.{IsElapsed, uptime_of-IsElapsed}
use mirabilis.Status.Delays.{sleeps, run-outage}

abbrev failed : Round
failed = record { inspected = none; stream = stream_over; slept = true }

abbrev outage : List Round
outage = failed ∷ failed ∷ failed ∷ failed ∷ failed ∷ failed ∷ failed ∷ []

run-outage_example : sleeps (run new 0 outage) ≡ doubling new.max new.base (length outage)
run-outage_example = run-outage new outage (omega arith) (omega arith) (
  (refl, refl),
  (
    (refl, refl),
    ((refl, refl), ((refl, refl), ((refl, refl), ((refl, refl), ((refl, refl), tt))))),
  ),
)

-- One, two, four, eight and sixteen seconds, and then half a minute.
doubling-outage :
    doubling new.max new.base 7
    ≡ second ∷ 2000000000 ∷ 4000000000 ∷ 8000000000 ∷ 16000000000 ∷ 30000000000 ∷ 30000000000 ∷ []
unfolding doubling
doubling-outage = refl

-- A minute and a half after the start.
uptime_of-IsElapsed_example : IsElapsed (uptime_of 90000000000) 90000000000
uptime_of-IsElapsed_example = uptime_of-IsElapsed 90000000000

-- A nanosecond before the end of 200 days, 200 days are shown.
early_day : uptime_of 17279999999999999 ≡ up_days 200
unfolding uptime_of whole_hours top_power
early_day = refl
