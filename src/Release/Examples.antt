-- ===== src/Release/Examples.antt =====
-- A failing check and then a newer release (internal/engine/release/release.go).
use mirabilis.Base.{true}
use mirabilis.Text.{Text, codes}
use mirabilis.Release.{no_answer, answer, release, Round}

abbrev failed : Round
failed = record { reply = no_answer; slept = true }

abbrev current : Text
current = codes "4f2a"

abbrev newer : Round
newer = record { reply = answer 200 (release (codes "v2") (codes "9bc1")); slept = true }
