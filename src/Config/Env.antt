-- ===== src/Config/Env.antt =====
-- `envRead`, `envWrite` and `envClear` of internal/engine/config/config.go. The file is what a read
-- of it gives; a write replaces the whole content.
pub mod Lines
pub mod Laws
use mirabilis.Base.{
  ℕ, Bool, true, false, not, Option, none, some, List, [], ◌∷◌, ◌++◌, if◌then◌else◌, ◌==◌, is_some,
}
use mirabilis.Text.{
  Text, codes, newline, text_eq, cut_prefix, has_prefix, split_lines, join_lines, trim_space,
  trim_newlines,
}

-- `os.ReadFile`: the content, or an error, of which a missing file is one.
pub data Read : Type 0 where
  content : Text → Read
  missing : Read
  unreadable : Read

-- `key + "="`
abbrev pub assignment : Text → Text
assignment key = key ++ b'=' ∷ []

-- The loop of `envRead`.
unfoldable pub read_lines : Text → List Text → Option Text
read_lines key [] = none
read_lines key (line ∷ lines) =
    let rest = read_lines key lines in
    elim (cut_prefix line (assignment key)) [ some value ↦ some (trim_space value) | none ↦ rest ]

unfoldable pub env_read : Text → Read → Option Text
unfolding read_lines split_lines trim_space
env_read key (content s) = read_lines key (split_lines s)
env_read key missing = none
env_read key unreadable = none

-- The loop that both writers share: the lines that do not set the key.
unfoldable pub keep_lines : Text → List Text → List Text
keep_lines key [] = []
keep_lines key (line ∷ lines) =
    let rest = keep_lines key lines in
    if has_prefix line (assignment key) then rest else line ∷ rest

-- The kept lines without the newlines at their end, and one newline if anything is left.
unfoldable pub end_line : Text → Text
end_line [] = []
end_line (c ∷ s) = (c ∷ s) ++ newline ∷ []

unfoldable pub close_lines : List Text → Text
unfolding join_lines trim_newlines end_line
close_lines keep = end_line (trim_newlines (join_lines keep))

unfoldable pub kept : Text → Read → List Text
unfolding keep_lines split_lines
kept key (content s) = keep_lines key (split_lines s)
kept key missing = []
kept key unreadable = []

unfoldable pub env_write : Text → Text → Read → Read
unfolding kept close_lines
env_write key value file =
    content (close_lines (kept key file) ++ (assignment key ++ (value ++ newline ∷ [])))

-- Does a line set the key?
unfoldable pub sets_key : Text → List Text → Bool
sets_key key [] = false
sets_key key (line ∷ lines) =
    let rest = sets_key key lines in if has_prefix line (assignment key) then true else rest

-- The file afterwards and whether an error is returned. Where the key is not set nothing is
-- written.
unfoldable pub env_clear : Text → Read → Read × Bool
unfolding sets_key keep_lines close_lines split_lines
env_clear key missing = (missing, false)
env_clear key unreadable = (unreadable, true)
env_clear key (content s) =
    if sets_key key (split_lines s)
    then (content (close_lines (keep_lines key (split_lines s))), false)
    else (content s, false)
