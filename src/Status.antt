-- ===== src/Status.antt =====
-- The watcher of the container: internal/engine/status/status.go. What docker answers is an argument.
-- Times are in nanoseconds, as in the code. A detail is a value; its text is left out.
pub mod Elapsed
pub mod Delays
mod Examples
use mirabilis.Base.{
  ℕ, zero, suc, ◌+◌, ◌*◌, ◌-◌, ◌/◌, Bool, true, false, ◌||◌, Option, none, some, List, [], ◌∷◌,
  ◌++◌, if◌then◌else◌, ltb, leb, ◌%◌,
}
use mirabilis.Text.{Text, codes, text_eq, has_prefix}
use mirabilis.Sandbox.{Container}
use mirabilis.App.State.{State, ok_state, degraded, off}

pub data Uptime : Type 0 where
  up_since_unknown up_under_minute : Uptime
  up_minutes up_hours up_days : ℕ → Uptime

abbrev pub second : ℕ
second = 1000000000

abbrev pub minute : ℕ
minute = 60000000000

abbrev pub hour : ℕ
hour = 3600000000000

-- The largest power of two up to a number, by as many doublings as the fuel allows: the hours of a
-- `time.Duration`, which has 64 bits, stay below the 22nd.
unfoldable pub top_power : ℕ → ℕ → ℕ → ℕ
top_power zero p q = p
top_power (suc fuel) p q = let next = top_power fuel (p * 2) q in if leb (p * 2) q then next else p

abbrev pub mantissa : ℕ
mantissa = 9007199254740992

-- `int(d.Hours())`, from the whole hours and the nanoseconds after them. `Hours` adds the fraction of
-- the hour, a float64, to the hours as another: the fraction is the nearest one of 53 bits (there is no
-- tie, and below a half more bits do not matter), and the sum is rounded up to the next hour where
-- what the fraction lacks of one is at most half of what two sums of that size differ by.
unfoldable pub whole_hours : ℕ → ℕ → ℕ
unfolding top_power
whole_hours q r =
    let fraction = (r * mantissa + hour / 2) / hour in
    if leb (mantissa - fraction) (top_power 22 1 q) then suc q else q

-- `uptime`, from the time since the start. The minutes are below sixty, where the sum of `Minutes` is
-- never rounded up to the next one.
unfoldable pub uptime_of : ℕ → Uptime
unfolding whole_hours
uptime_of d =
    if ltb d minute
    then up_under_minute
    else if ltb d hour
    then up_minutes (d / minute)
    else if ltb d (24 * hour)
    then up_hours (whole_hours (d / hour) (d % hour))
    else up_days (whole_hours (d / hour) (d % hour) / 24)

unfoldable pub uptime : Option ℕ → ℕ → Uptime
unfolding uptime_of
uptime none now = up_since_unknown
uptime (some started) now = if ltb now started then up_since_unknown else uptime_of (now - started)

pub data Detail : Type 0 where
  daemon_unreachable not_running : Detail
  up up_unhealthy up_starting up_healthy : Uptime → Detail

unfoldable pub status_for : Container → ℕ → State × Detail
unfolding uptime text_eq
status_for c now =
    let u = uptime c.started_at now in
    if c.running
    then (if text_eq c.health (codes "unhealthy")
        then (degraded, up_unhealthy u)
        else if text_eq c.health (codes "starting")
        then (ok_state, up_starting u)
        else if text_eq c.health (codes "healthy")
        then (ok_state, up_healthy u)
        else (ok_state, up u))
    else (off, not_running)

abbrev pub actions : List Text
actions =
    codes "create"
    ∷ codes "start"
    ∷ codes "restart"
    ∷ codes "pause"
    ∷ codes "unpause"
    ∷ codes "stop"
    ∷ codes "kill"
    ∷ codes "die"
    ∷ codes "oom"
    ∷ codes "destroy"
    ∷ []

unfoldable pub is_one_of : List Text → Text → Bool
unfolding text_eq
is_one_of [] a = false
is_one_of (x ∷ xs) a = let rest = is_one_of xs a in if text_eq x a then true else rest

unfoldable pub relevant : Text → Bool
unfolding is_one_of
relevant action =
    if has_prefix action (codes "health_status") then true else is_one_of actions action

-- An inspection: the container and the time at which it is reported, or an error.
abbrev pub Inspection : Type 0
Inspection = Option (Container × ℕ)

-- What `consume` meets: the end of the context, the end of the events or an error of theirs, or an event
-- with the answer to the inspection that follows if it is relevant.
pub data Stream : Type 0 where
  context_done stream_over : Stream
  event : Text → Inspection → Stream → Stream

-- What the watcher does: it sets a state, and it sleeps.
pub data Act : Type 0 where
  report : State → Detail → Act
  sleep : ℕ → Act

unfoldable pub report_of : Container × ℕ → Act
unfolding status_for
report_of (c, now) = report (status_for c now).0 (status_for c now).1

abbrev pub unreachable : Act
unreachable = report off daemon_unreachable

pub record Consumed : Type 0 where
  pub stop : Bool
  pub processed : Bool
  pub acts : List Act

unfoldable pub consume : Bool → Stream → Consumed
unfolding relevant report_of
consume processed context_done = record { stop = true; processed = processed; acts = [] }
consume processed stream_over = record { stop = false; processed = processed; acts = [] }
consume processed (event action answer rest) =
    let skipped = consume processed rest in
    let next = consume true rest in
    if relevant action
    then elim answer [
      | none ↦ record { stop = false; processed = processed; acts = unreachable ∷ [] }
      | some c ↦ record next { acts = report_of c ∷ next.acts }
    ]
    else skipped

pub record Watcher : Type 0 where
  pub base : ℕ
  pub max : ℕ

abbrev pub new : Watcher
new = record { base = second; max = 30 * second }

abbrev pub max_shift : ℕ
max_shift = 5

-- `x << n`
unfoldable pub shift_left : ℕ → ℕ → ℕ
shift_left x zero = x
shift_left x (suc n) = shift_left x n * 2

-- How long `sleep` sleeps. `failures` is never zero there.
unfoldable pub delay : Watcher → ℕ → ℕ
unfolding shift_left
delay w failures =
    let shift = if ltb max_shift (failures - 1) then max_shift else failures - 1 in
    let d = shift_left w.base shift in if ltb w.max d then w.max else d

-- A round of `run`: the inspection, what `consume` meets, and whether the time of the sleep passes before
-- the context ends.
pub record Round : Type 0 where
  pub inspected : Inspection
  pub stream : Stream
  pub slept : Bool

-- The failures after a round; those before it are forgotten after an inspection.
unfoldable pub next_count : Inspection → Bool → ℕ → ℕ
next_count none processed failures = suc failures
next_count (some c) processed failures = suc (if processed then 0 else 0)

-- What a round does, and then its sleep and the next rounds.
unfoldable pub round_acts : Inspection → Consumed → List Act → List Act
unfolding report_of
round_acts none seen slept = unreachable ∷ slept
round_acts (some c) seen slept = report_of c ∷ seen.acts ++ (if seen.stop then [] else slept)

-- The loop of `run`, by what its rounds bring.
unfoldable pub run : Watcher → ℕ → List Round → List Act
unfolding consume delay next_count round_acts
run w failures [] = []
run w failures (r ∷ rs) =
    let seen = consume false r.stream in
    let count = next_count r.inspected seen.processed failures in
    let rest = run w count rs in
    round_acts r.inspected seen (sleep (delay w count) ∷ (if r.slept then rest else []))
