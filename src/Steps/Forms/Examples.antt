-- ===== src/Steps/Forms/Examples.antt =====
-- A choice of plugins, and a run of the form step (internal/engine/steps/forms.go).
use mirabilis.Base.{◌≡◌, refl, true, sym, subst, none, some, List, [], ◌∷◌, All, arith}
use mirabilis.Text.{Text, codes, text_eq, is_space, split_lines, trim_space, trim_left, trim_right}
use mirabilis.Config.Catalog.{read_list, list_lines, list_line, read_skill_catalog, skill_groups}
use mirabilis.Text.Csv.{IsWord}
use mirabilis.Config.Env.{content}
use mirabilis.Steps.Forms.{
  Files, plugins, options, save, selected, Answer, chosen, completed, config_check, config_run,
  load_groups, load, finish, await, save_choices, choice_of,
}
use mirabilis.Steps.Forms.Choices.{shown, selected-save}
use mirabilis.Steps.Forms.Persisted.{IsWords, config_run-check}

abbrev files : Files
files = record {
  env = content (codes "EFFORT=high");
  stacks_txt = none;
  plugins_txt = some (codes "git\nlsp\n");
  skills_txt = none;
  env_left = none;
}

abbrev git : List Text
git = codes "git" ∷ []

abbrev catalog : List Text
catalog = codes "git" ∷ codes "lsp" ∷ []

files-options : options plugins files ≡ catalog
unfolding options read_list list_lines list_line split_lines trim_space trim_left trim_right
files-options = refl

word : IsWord (codes "git")
unfolding is_space
word = (λ e. cc, ((refl, omega arith), ((refl, omega arith), ((refl, omega arith), tt))))

git-words : All IsWord git
git-words = (word, tt)

catalog-words : All IsWord (options plugins files)
unfolding is_space
catalog-words =
    subst (All IsWord) (sym files-options) (
      word,
      ((λ e. cc, ((refl, omega arith), ((refl, omega arith), ((refl, omega arith), tt)))), tt),
    )

saved : (save plugins git files).1 ≡ true
unfolding save
saved = refl

selected-save_example : selected plugins (save plugins git files).0 ≡ shown plugins git files
selected-save_example = selected-save plugins git files git-words catalog-words saved

-- The other groups have no options, so the wizard asks for the plugins only.
abbrev answer : Answer
answer = chosen ((codes "plugins", git) ∷ [])

ran : (config_run answer files).0.0 ≡ completed
unfolding config_run load_groups options read_list read_skill_catalog skill_groups list_lines
    list_line split_lines trim_space trim_left trim_right text_eq finish await save_choices
    choice_of save load
ran = refl

answer-IsWords : IsWords answer
unfolding IsWords
answer-IsWords = (git-words, tt)

config_run-check_example : config_check (config_run answer files).0.1 ≡ true
config_run-check_example = config_run-check answer files answer-IsWords catalog-words ran
