-- ===== src/Memory/Front.antt =====
-- What is written of a category is read back: internal/engine/provision/memory.go and
-- internal/hooks/memory.go.
use mirabilis.Base.{
  Bool, false, not, ◌||◌, ◌&&◌, List, [], ◌∷◌, ◌++◌, map, if◌then◌else◌, length, ◌≡◌, ◌≢◌, refl, ap,
  ◌∙◌, arith, All,
}
use mirabilis.Text.{Text, codes, newline, text_eq, cut_prefix, trim_space, split_lines, join_lines}
use mirabilis.Text.Lines.{IsLine, split-join}
use mirabilis.Memory.{
  Category, MemoryMeta, carriage_return, drop_return, drop_last_blank, scan_lines, marker,
  set_category, set_type, set_summary, set_fields, parse_lines, parse_frontmatter, count_lines,
  bullet_lines, count_invariants, read_bullets, front_lines, memory_file,
}

-- The number of invariants is that of the bullets.
pub count_invariants-read_bullets :
    (text : Text) → count_invariants text ≡ length (read_bullets text)
unfolding count_invariants read_bullets count_lines bullet_lines
count_invariants-read_bullets text = counted false false (scan_lines text)
  where
    counted :
        (front past : Bool) (lines : List Text)
        → count_lines front past lines ≡ length (bullet_lines front past lines)
    counted front past [] = refl
    counted front past (line ∷ lines) =
        let ends = text_eq line marker in
        ground (arith, counted (if ends then not front else front) (past || ends && front) lines)

-- A line without a carriage return.
abbrev pub IsClean : Text → Type 0
IsClean s = All (λ c. (c ≢ newline) × (c ≢ carriage_return)) s

-- What a file can say of a category: clean lines without spaces around them.
abbrev pub IsSaid : Category → Type 0
IsSaid c =
    (IsClean c.name × (trim_space c.name ≡ c.name))
    × ((IsClean c.memory_type × (trim_space c.memory_type ≡ c.memory_type))
        × (IsClean c.summary × (trim_space c.summary ≡ c.summary)))

drop_return-clean : (s : Text) → IsClean s → drop_return s ≡ s
unfolding drop_return
drop_return-clean [] h = refl
drop_return-clean (c ∷ []) h = ground (arith, h.0.1)
drop_return-clean (c ∷ d ∷ s) h = ap (◌∷◌ c) (drop_return-clean (d ∷ s) h.1)

IsClean-append : (s t : Text) → IsClean s → IsClean t → IsClean (s ++ t)
IsClean-append [] t g h = h
IsClean-append (c ∷ s) t g h = (g.0, IsClean-append s t g.1 h)

IsClean-IsLine : (s : Text) → IsClean s → IsLine s
IsClean-IsLine [] h = tt
IsClean-IsLine (c ∷ s) h = (h.0.0, IsClean-IsLine s h.1)

front-IsClean : (c : Category) → IsSaid c → All IsClean (front_lines c)
front-IsClean c h = (
  omega arith,
  (
    IsClean-append (codes "category: ") c.name (omega arith) h.0.0,
    (
      IsClean-append (codes "memory_type: ") c.memory_type (omega arith) h.1.0.0,
      (
        IsClean-append (codes "summary: ") c.summary (omega arith) h.1.1.0,
        (omega arith, (omega arith, tt)),
      ),
    ),
  ),
)

drop_last_blank-append :
    (ls : List Text) (r : Text) (rs : List Text)
    → drop_last_blank (ls ++ r ∷ rs) ≡ ls ++ drop_last_blank (r ∷ rs)
unfolding drop_last_blank
drop_last_blank-append [] r rs = refl
drop_last_blank-append ([] ∷ []) r rs = refl
drop_last_blank-append ((c ∷ s) ∷ []) r rs = refl
drop_last_blank-append ([] ∷ m ∷ ls) r rs = ap (◌∷◌ []) (drop_last_blank-append (m ∷ ls) r rs)
drop_last_blank-append ((c ∷ s) ∷ m ∷ ls) r rs =
    ap (◌∷◌ (c ∷ s)) (drop_last_blank-append (m ∷ ls) r rs)

map-clean :
    (ls ms : List Text) → All IsClean ls → map drop_return (ls ++ ms) ≡ ls ++ map drop_return ms
map-clean [] ms h = refl
map-clean (l ∷ ls) ms h = rw (drop_return-clean l h.0) (ap (◌∷◌ l) (map-clean ls ms h.1))

parse-front :
    (c : Category) (rest : List Text)
    → IsSaid c
    → parse_lines false
        (record { category = []; memory_type = []; summary = [] })
        (front_lines c ++ rest)
      ≡ record { category = c.name; memory_type = c.memory_type; summary = c.summary }
unfolding parse_lines set_fields set_category set_type set_summary text_eq cut_prefix
parse-front c rest h = rw (h.0.1) (rw (h.1.0.1) (rw (h.1.1.1) refl))

All-append : (ls ms : List Text) → All IsLine ls → All IsLine ms → All IsLine (ls ++ ms)
All-append [] ms g h = h
All-append (l ∷ ls) ms g h = (g.0, All-append ls ms g.1 h)

lines-IsLine : (ls : List Text) → All IsClean ls → All IsLine ls
lines-IsLine [] h = tt
lines-IsLine (l ∷ ls) h = (IsClean-IsLine l h.0, lines-IsLine ls h.1)

-- The front matter of the file that is made for a category is read back as the category, whatever lines are
-- added to the file. (What it says is clean: without line breaks, and without spaces around it.)
pub parse_frontmatter-memory_file :
    (c : Category) (title : Text) (added : List Text)
    → IsSaid c
    → IsLine title
    → All IsLine added
    → parse_frontmatter (memory_file c title added)
      ≡ record { category = c.name; memory_type = c.memory_type; summary = c.summary }
unfolding parse_frontmatter memory_file scan_lines
parse_frontmatter-memory_file c title added h t a =
    let behind = (codes "# " ++ title) ∷ added ++ [] ∷ [] in
    let tail = [] ∷ behind in
    let heading : IsLine (codes "# " ++ title) = (omega arith, (omega arith, t)) in
    let more : All IsLine tail = (tt, (heading, All-append added ([] ∷ []) a (tt, tt))) in
    let split : split_lines (join_lines (front_lines c ++ tail)) ≡ front_lines c ++ tail =
      split-join marker _
        (All-append (front_lines c) tail (lines-IsLine (front_lines c) (front-IsClean c h)) more) in
    let start : MemoryMeta = record { category = []; memory_type = []; summary = [] } in
    ap (λ ls. parse_lines false start (map drop_return (drop_last_blank ls))) split
    ∙ ap (λ ls. parse_lines false start (map drop_return ls))
        (drop_last_blank-append (front_lines c) [] behind)
    ∙ ap (parse_lines false start)
        (map-clean (front_lines c) (drop_last_blank tail) (front-IsClean c h))
    ∙ parse-front c (map drop_return (drop_last_blank tail)) h
