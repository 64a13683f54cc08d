-- ===== src/Memory/Examples.antt =====
-- The file of the interview preparation, with a bullet (internal/engine/provision/memory.go and
-- internal/hooks/memory.go).
use mirabilis.Base.{◌≡◌, refl, [], ◌∷◌, arith}
use mirabilis.Text.{codes, is_space, trim_space, trim_left, trim_right}
use mirabilis.Memory.{Category, parse_frontmatter, memory_file}
use mirabilis.Memory.Front.{IsSaid, parse_frontmatter-memory_file}

abbrev prep : Category
prep = record { name = codes "prep"; memory_type = codes "episodic"; summary = codes "weak spots" }

said : IsSaid prep
unfolding trim_space trim_left trim_right is_space
said = ((omega arith, refl), ((omega arith, refl), (omega arith, refl)))

parse_frontmatter-memory_file_example :
    parse_frontmatter (memory_file prep (codes "Prep") (codes "- heaps" ∷ []))
    ≡ record { category = prep.name; memory_type = prep.memory_type; summary = prep.summary }
parse_frontmatter-memory_file_example =
    parse_frontmatter-memory_file prep (codes "Prep") (codes "- heaps" ∷ []) said (omega arith)
      (omega arith, tt)
