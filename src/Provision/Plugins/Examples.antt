-- ===== src/Provision/Plugins/Examples.antt =====
-- A claude that installs what it is asked for (internal/engine/provision/plugins/plugins.go).
use mirabilis.Base.{String, ◌≡◌, refl, true, false, none, List, [], ◌∷◌, ◌++◌, arith, contains}
use mirabilis.Text.{Text, codes, cut_prefix}
use mirabilis.Provision.Json.{no_members}
use mirabilis.Provision.Home.{holds, ok, Disk, update_json, write_json, exists}
use mirabilis.Provision.Install.{missing}
use mirabilis.Config.Env.Laws.{cut_prefix-append}
use mirabilis.Provision.Plugins.{
  Claude, base, contains_part, is_listed, allowed, write_enabled, build_plan, satisfied, apply,
}
use mirabilis.Provision.Plugins.Enabled.{ClaudeLaws, apply-satisfied}

contains-behind : (s w t : Text) → contains_part w t ≡ true → contains_part (s ++ w) t ≡ true
unfolding contains_part
contains-behind [] w t h = h
contains-behind (c ∷ s) w t h = rw (contains-behind s w t h) (ground arith)

contains-start : (b w : Text) → contains_part (b ++ w) b ≡ true
unfolding contains_part cut_prefix
contains-start [] [] = refl
contains-start [] (c ∷ w) = refl
contains-start (c ∷ b) w = rw (cut_prefix-append (c ∷ b) w) refl

-- Its state is what it lists.
abbrev claude : Claude Text
claude = record {
  runs = true;
  listed = λ w. w;
  add_market = λ m w. (false, w);
  install = λ p w. (true, base (codes p) ++ w);
  settings_after = λ w file. file;
}

laws : ClaudeLaws claude
unfolding is_listed
laws = record {
  install_keeps = λ q p w h. contains-behind (base (codes q)) w (base (codes p)) h;
  adds = λ p w h. contains-start (base (codes p)) w;
}

abbrev disk : Disk
disk = record {
  makes_dir = true;
  makes_xdg = true;
  replaces = true;
  copy_leaves = none;
  word_leaves = none;
}

abbrev catalog : List String
catalog = "hud@market" ∷ "lsp@market" ∷ []

-- The marketplace cannot be added, and one plugin is disabled.
no_errors :
    (apply disk claude
      (build_plan catalog ("hud@market" ∷ []) false ("market" ∷ []))
      (holds no_members)
      []).plugins
    ≡ []
unfolding apply missing is_listed contains_part base build_plan allowed contains cut_prefix
no_errors = refl

wrote :
    (apply disk claude
      (build_plan catalog ("hud@market" ∷ []) false ("market" ∷ []))
      (holds no_members)
      []).wrote
    ≡ ok
unfolding apply write_enabled update_json write_json exists build_plan
wrote = refl

apply-satisfied_example :
    satisfied claude
      (build_plan catalog ("hud@market" ∷ []) false ("market" ∷ []))
      (apply disk claude
        (build_plan catalog ("hud@market" ∷ []) false ("market" ∷ []))
        (holds no_members)
        []).settings
      (apply disk claude
        (build_plan catalog ("hud@market" ∷ []) false ("market" ∷ []))
        (holds no_members)
        []).world
    ≡ true
apply-satisfied_example =
    apply-satisfied claude laws disk catalog ("hud@market" ∷ []) false ("market" ∷ [])
      (holds no_members) [] no_errors wrote
