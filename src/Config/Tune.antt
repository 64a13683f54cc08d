-- ===== src/Config/Tune.antt =====
-- The overrides of a launch and what takes effect: `ReadLoadout`, `LaunchBatched`, the effort and
-- batch overrides, `EffectiveEffort`, `HeadroomMode` of internal/engine/config/config.go, and
-- `EffectiveTune`, `WriteTune`, `ClearTune` of cmd/mirabilis/facade.go.
pub mod Effective
use mirabilis.Base.{Bool, true, false, ◌&&◌, Option, none, some, List, [], ◌∷◌, if◌then◌else◌}
use mirabilis.Text.{Text, codes, text_eq}
use mirabilis.Config.Env.{Read, env_read, env_write, env_clear}
use mirabilis.Config.Loadout.{Loadout, read_loadout_manifest}

-- The files that the functions read: `.env`, `config/packs.txt`, and the manifests by name.
pub record Repo : Type 0 where
  pub env : Read
  pub packs : Option Text
  pub manifests : Text → Option Text

abbrev pub loadout_key : Text
loadout_key = codes "LOADOUT"

abbrev pub effort_key : Text
effort_key = codes "EFFORT"

abbrev pub batch_key : Text
batch_key = codes "BATCH"

abbrev pub default_loadout : Text
default_loadout = codes "forge"

-- `!ok || name == ""`
unfoldable pub or_default : Text → Option Text → Text
or_default d none = d
or_default d (some []) = d
or_default d (some (c ∷ s)) = c ∷ s

unfoldable pub active_loadout : Repo → Loadout × Bool
unfolding or_default
active_loadout r =
    let name = or_default default_loadout (env_read loadout_key r.env) in
    read_loadout_manifest r.packs name (r.manifests name)

unfoldable pub nonempty : Option Text → Option Text
nonempty none = none
nonempty (some []) = none
nonempty (some (c ∷ s)) = some (c ∷ s)

unfoldable pub read_effort_override : Repo → Option Text
unfolding nonempty
read_effort_override r = nonempty (env_read effort_key r.env)

unfoldable pub read_batch_override : Repo → Option Bool
unfolding nonempty
read_batch_override r = elim (nonempty (env_read batch_key r.env)) [
  | none ↦ none
  | some v ↦ some (text_eq v (codes "1"))
]

unfoldable pub launch_batched : Repo → Bool
launch_batched r = elim (read_batch_override r) [
  | some on ↦ on
  | none ↦ (active_loadout r).1 && (active_loadout r).0.batch
]

unfoldable pub effective_effort : Repo → Text
effective_effort r = elim (read_effort_override r) [
  | some v ↦ v
  | none ↦ (active_loadout r).0.effort
]

unfoldable pub effective_tune : Repo → Text × Bool
effective_tune r = (effective_effort r, launch_batched r)

abbrev pub flag : Bool → Text
flag on = if on then codes "1" else codes "0"

unfoldable pub write_tune : Text → Bool → Repo → Repo
write_tune effort fleet r = record r {
  env = env_write batch_key (flag fleet) (env_write effort_key effort r.env);
}

-- The error of a clear leaves the rest undone.
unfoldable pub clear_tune : Repo → Repo × Bool
clear_tune r =
    let (env, failed) = env_clear effort_key r.env in
    if failed
    then (record r { env = env }, true)
    else (record r { env = (env_clear batch_key env).0 }, (env_clear batch_key env).1)

unfoldable pub write_loadout : Text → Repo → Repo
write_loadout name r = record r { env = env_write loadout_key name r.env }

unfoldable pub allowed_mode : Text → Text
unfolding text_eq
allowed_mode v =
    if text_eq v (codes "cache") then v else if text_eq v (codes "token") then v else codes "cache"

-- The mode from the file, else from the process's environment, else the default.
unfoldable pub headroom_mode : Repo → Text → Text
unfolding nonempty
headroom_mode r from_process = elim (nonempty (env_read (codes "HEADROOM_MODE") r.env)) [
  | some v ↦ allowed_mode v
  | none ↦ elim from_process [ [] ↦ codes "cache" | c ∷ s ↦ allowed_mode (c ∷ s) ]
]
