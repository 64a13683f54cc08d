-- ===== src/Release.antt =====
-- The check for a newer release: internal/engine/release/release.go. What the server answers is an
-- argument. Times are in seconds.
pub mod Badge
mod Examples
use mirabilis.Base.{
  ℕ, ◌*◌, Bool, true, false, not, ◌||◌, ◌&&◌, Option, none, some, List, [], ◌∷◌, if◌then◌else◌,
  ◌==◌, ltb,
}
use mirabilis.Text.{Text, codes, text_eq, has_prefix, trim_space}
use mirabilis.App.State.{degraded}
use mirabilis.Frame.Status.{version_node}
use mirabilis.Observed.{Obs, set}

-- The body of an answer, where it can be decoded: `tag_name` and `target_commitish`.
pub data Body : Type 0 where
  unreadable garbled : Body
  release : Text → Text → Body

-- No request, no answer, or a status and a body.
pub data Reply : Type 0 where
  no_request no_answer : Reply
  answer : ℕ → Body → Reply

unfoldable pub is_behind : Text → Text → Bool
unfolding trim_space text_eq
is_behind current sha =
    let c = trim_space current in
    let s = trim_space sha in if text_eq c [] || text_eq s [] then false else not (has_prefix s c)

-- The tag and whether the program is behind it. An error is `none`.
unfoldable pub check : Text → Reply → Option (Text × Bool)
unfolding is_behind
check current no_request = none
check current no_answer = none
check current (answer status unreadable) = none
check current (answer status garbled) = none
check current (answer status (release tag sha)) =
    if not (status == 200)
    then none
    else if text_eq tag []
    then none
    else some (tag, is_behind current sha)

abbrev pub backoff_initial : ℕ
backoff_initial = 30

abbrev pub backoff_cap : ℕ
backoff_cap = 300

unfoldable pub next_backoff : ℕ → ℕ
next_backoff backoff = if ltb backoff_cap (backoff * 2) then backoff_cap else backoff * 2

-- One round of the loop: the answer, and whether the time of the sleep after an error passes before the
-- context ends.
pub record Round : Type 0 where
  pub reply : Reply
  pub slept : Bool

-- The states afterwards and the sleeps, by what the rounds bring. The loop goes on after the last of
-- them if it has not returned. `raced` is the argument of `set`.
unfoldable pub run_from : (ℕ → Bool) → Text → ℕ → List Round → Obs → Obs × List ℕ
unfolding check next_backoff
run_from raced current backoff [] o = (o, [])
run_from raced current backoff (r ∷ rs) o =
    let rest = run_from raced current (next_backoff backoff) rs o in
    elim (check current r.reply) [
      | some (tag, behind) ↦ (if behind then set version_node degraded tag raced o else o, [])
      | none ↦ if r.slept then (rest.0, backoff ∷ rest.1) else (o, backoff ∷ [])
    ]

unfoldable pub run : (ℕ → Bool) → Text → List Round → Obs → Obs × List ℕ
unfolding run_from text_eq
run raced current rounds o =
    if text_eq current [] || text_eq current (codes "unknown")
    then (o, [])
    else run_from raced current backoff_initial rounds o
