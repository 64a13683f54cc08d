-- ===== src/Cmdlog.antt =====
-- The command log of the launch screen (internal/tui/components/cmdlog/cmdlog.go): a ring of lines.
-- The array is a function on its indices. Scrolling and drawing are left out.
pub mod Ring
mod Examples
use mirabilis.Base.{
  ℕ, zero, suc, ◌+◌, ◌%◌, ltb, ◌==◌, String, Bool, List, [], ◌∷◌, if◌then◌else◌, str_eq,
}
use mirabilis.App.State.{
  StepEvent, StepEventKind, step_started, step_line, step_done, step_failed, step_skipped,
  step_waiting,
}

abbrev pub max_lines : ℕ
max_lines = 5000

-- A line: the words of a command, or what a command wrote. `blank` is the zero value.
pub data Line : Type 0 where
  blank : Line
  ran : List String → Line
  wrote : String → Line

pub record Log : Type 0 where
  pub ring : ℕ → Line
  pub head : ℕ
  pub size : ℕ

-- `New`
abbrev pub empty_log : Log
empty_log = record { ring = λ i. blank; head = 0; size = 0 }

-- `ring[i] = line`
abbrev pub set : ℕ → Line → (ℕ → Line) → ℕ → Line
set i line ring j = if j == i then line else ring j

unfoldable pub add : Line → Log → Log
add line m =
    if ltb m.size max_lines
    then record m { ring = set ((m.head + m.size) % max_lines) line m.ring; size = suc m.size }
    else record m { ring = set m.head line m.ring; head = (m.head + 1) % max_lines }

abbrev pub tabulate {ℓ} : {A : Type ℓ} → ℕ → (ℕ → A) → List A
tabulate zero f = []
tabulate (suc n) f = f 0 ∷ tabulate n (λ i. f (suc i))

unfoldable pub lines : Log → List Line
lines m = tabulate m.size (λ i. m.ring ((m.head + i) % max_lines))

-- The cases of `Update` on a step's event, by its kind, words and line: a command that starts and a
-- line that is not empty are added.
unfoldable pub update_by : StepEventKind → List String → String → Log → Log
unfolding add
update_by step_started [] line m = m
update_by step_started (w ∷ ws) line m = add (ran (w ∷ ws)) m
update_by step_line argv line m = if str_eq line "" then m else add (wrote line) m
update_by step_done argv line m = m
update_by step_failed argv line m = m
update_by step_skipped argv line m = m
update_by step_waiting argv line m = m

unfoldable pub update : StepEvent → Log → Log
unfolding update_by
update ev m = update_by ev.kind ev.argv ev.line m
