-- ===== src/Steps/Examples.antt =====
-- The laws of batches on the batch of a launch.
use mirabilis.Base.{String, true, false, ◌≡◌, refl, ap, none, some, [], ◌∷◌, map, Memᴰ, contains}
use mirabilis.Pipeline.Types.{other, Answers, Command, name}
use mirabilis.Steps.Batch.{Batch, waves, in_waves, run_batch, split_wave}
use mirabilis.Steps.Batch.Waves.{Decided, waves-Decided}
use mirabilis.Steps.Batch.Effects.{IsOptional, run_batch-optional}
use mirabilis.Steps.Launch.{apply_batch, answering, provision_start, provision_create}

-- Every step fails.
abbrev failing : String → Answers
failing n = record {
  ctx_start = none;
  first_check = (false, none);
  rounds = λ i. record {
    ctx_before = none;
    timer_won = true;
    recheck = (false, none);
    outcome = some (other n);
    ctx_after = none;
  };
}

abbrev batch : Batch
batch = apply_batch failing

waves-Decided_example : Decided batch.name (map name batch.cmds) [] batch.cmds (waves batch)
waves-Decided_example = waves-Decided batch

-- Its three steps run in one wave.
batch_waves : waves batch ≡ in_waves (batch.cmds ∷ [])
unfolding waves contains apply_batch split_wave
batch_waves = refl

-- Of two provisioning steps, listed the wrong way round, the second runs first.
abbrev provisioning : Batch
provisioning = record {
  name = "provision";
  title = "Provision";
  deps = "container" ∷ [];
  cmds = answering failing (provision_start ∷ provision_create ∷ []);
}

provisioning-waves :
    waves provisioning
    ≡ in_waves
        (answering failing (provision_create ∷ []) ∷ answering failing (provision_start ∷ []) ∷ [])
unfolding waves contains split_wave
provisioning-waves = refl

run_batch-optional_example : (run_batch (λ n. []) (λ w. w) (λ i. none) batch).1 ≡ none
unfolding apply_batch
run_batch-optional_example =
    run_batch-optional batch (λ n. []) (λ w. w) (λ i. none) (batch.cmds ∷ []) batch_waves
      (λ w c m. m) (λ i. refl) optional
  where
    optional : (c : Command) → Memᴰ c batch.cmds → IsOptional c
    optional c (Memᴰ.head e) = ap (λ (x : Command). x.meta.optional) e
    optional c (Memᴰ.tail (Memᴰ.head e)) = ap (λ (x : Command). x.meta.optional) e
    optional c (Memᴰ.tail (Memᴰ.tail (Memᴰ.head e))) = ap (λ (x : Command). x.meta.optional) e
    optional c (Memᴰ.tail (Memᴰ.tail (Memᴰ.tail m))) = elim m [ ]
