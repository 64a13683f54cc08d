-- ===== src/Sandbox/Examples.antt =====
-- A container that is up, and another stack (internal/engine/sandbox/sandbox.go).
use mirabilis.Base.{◌≡◌, ◌↔◌, refl, true, false, some, [], ◌∷◌, lookup, arith}
use mirabilis.Text.{codes, is_space, trim_space, trim_left, trim_right, split_lines, cut_prefix}
use mirabilis.Config.Env.{content, env_read, read_lines}
use mirabilis.Sandbox.{Container, Host, desired, revision, sock, stale, version_key}
use mirabilis.Sandbox.Stale.{stacks_of, stale_iff}

abbrev before : Host
before = record { rev = some (codes "4f2a"); env = content (codes "STACKS=dotnet"); tz = [] }

abbrev after : Host
after = record { rev = some (codes "4f2a"); env = content (codes "STACKS=rust"); tz = [] }

abbrev container : Container
container = record {
  env = (version_key, desired before) ∷ [];
  health = codes "healthy";
  started_at = some 0;
  running = true;
}

found : lookup version_key container.env ≡ some (desired before)
unfolding lookup
found = refl

stale_iff_example : (stale (some container) after ≡ false) ↔ (
    (revision before.rev ≡ revision after.rev)
    × ((stacks_of before ≡ stacks_of after) × (sock before.env ≡ sock after.env)))
unfolding revision trim_space trim_left trim_right is_space env_read read_lines split_lines
    cut_prefix
stale_iff_example =
    stale_iff container before after refl found (omega arith) (omega arith) (omega arith)
      (omega arith)
