-- ===== src/Sandbox.antt =====
-- The version of the container: internal/engine/sandbox/sandbox.go, with `Container` of docker.go and
-- `Sock` and `WriteSock` of internal/engine/config/config.go. What git and docker answer is data.
pub mod Stale
mod Examples
use mirabilis.Base.{
  ℕ, Bool, true, false, not, ◌||◌, ◌&&◌, Option, none, some, List, [], ◌∷◌, ◌++◌, if◌then◌else◌,
  String, StringMap, lookup,
}
use mirabilis.Text.{Text, codes, text_eq, trim_space}
use mirabilis.Config.Env.{Read, env_read, env_write}

-- A start at no time is `none`. The mounts are left out.
pub record Container : Type 0 where
  pub env : StringMap Text
  pub health : Text
  pub started_at : Option ℕ
  pub running : Bool

-- What `git rev-parse --short HEAD` prints, the file `.env`, and the variable `TZ`.
pub record Host : Type 0 where
  pub rev : Option Text
  pub env : Read
  pub tz : Text

abbrev pub or_empty : Option Text → Text
or_empty none = []
or_empty (some t) = t

abbrev pub sock_key : Text
sock_key = codes "SOCK"

unfoldable pub sock : Read → Bool
unfolding env_read text_eq
sock env = text_eq (or_empty (env_read sock_key env)) (codes "1")

unfoldable pub write_sock : Bool → Read → Read
unfolding env_write
write_sock on env = env_write sock_key (if on then codes "1" else codes "0") env

unfoldable pub revision : Option Text → Text
unfolding trim_space
revision rev =
    let sha = trim_space (or_empty rev) in elim sha [ [] ↦ codes "unknown" | c ∷ s ↦ c ∷ s ]

abbrev pub stacks_key : Text
stacks_key = codes "STACKS"

-- The fingerprint that a container should have.
unfoldable pub desired : Host → Text
unfolding revision env_read sock
desired h =
    revision h.rev
    ++ b'-' ∷ (or_empty (env_read stacks_key h.env) ++ (if sock h.env then codes "-sock" else []))

abbrev pub version_key : String
version_key = "MIRABILIS_VERSION"

unfoldable pub running : Option Container → Text
unfolding lookup
running none = []
running (some c) = if c.running then or_empty (lookup version_key c.env) else []

unfoldable pub stale : Option Container → Host → Bool
unfolding running desired text_eq
stale c h = text_eq (running c) [] || not (text_eq (running c) (desired h))

unfoldable pub will_recreate : Option Container → Host → Bool
unfolding running stale text_eq
will_recreate c h = not (text_eq (running c) []) && stale c h

unfoldable pub compose_argv : List Text → Host → List Text
unfolding sock
compose_argv args h =
    codes "docker"
    ∷ codes "compose"
    ∷ codes "-f"
    ∷ codes "docker-compose.yml"
    ∷ (if sock h.env then codes "-f" ∷ codes "compose.sock.yml" ∷ args else args)

unfoldable pub compose_env : Host → List Text
unfolding desired env_read
compose_env h =
    (codes "MIRABILIS_VERSION=" ++ desired h)
    ∷ (elim (env_read stacks_key h.env) [
      | none ↦ []
      | some stacks ↦ (codes "STACKS=" ++ stacks) ∷ []
    ]
        ++ elim h.tz [ [] ↦ [] | c ∷ s ↦ (codes "TZ=" ++ c ∷ s) ∷ [] ])
