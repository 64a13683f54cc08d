-- ===== src/Config/Env/Laws.antt =====
-- The env file as a map from keys to values.
use mirabilis.Base.{
  ◌≡◌, refl, sym, ap, ◌∙◌, ◌≢◌, ◌⊎◌, inl, inr, true, false, Option, none, some, List, [], ◌∷◌, ◌++◌,
  All, arith, if◌then◌else◌, append_assoc, append-nil, Bool-cases, Option-cases,
}
use mirabilis.Text.{Text, text_eq, newline, cut_prefix, split_lines, trim_space}
use mirabilis.Text.Lines.{IsLine, split-append-newline, split-line, split-lines, text_eq_iff}
use mirabilis.Config.Env.{
  Read, content, missing, unreadable, assignment, read_lines, env_read, keep_lines, close_lines,
  kept, env_write, sets_key, env_clear,
}
use mirabilis.Config.Env.Lines.{
  or_else, read-close, kept-lines, keep_lines-lines, read-keep_self, read-keep_other, read-empty,
  IsKey, prefix-same,
}

pub cut_prefix-append : (p s : Text) → cut_prefix (p ++ s) p ≡ some s
unfolding cut_prefix
cut_prefix-append [] s = refl
cut_prefix-append (c ∷ p) s = ground (arith, cut_prefix-append p s)

IsLine-append : (s t : Text) → IsLine s → IsLine t → IsLine (s ++ t)
IsLine-append [] t hs ht = ht
IsLine-append (c ∷ s) t hs ht = (hs.0, IsLine-append s t hs.1 ht)

IsKey-IsLine : (k : Text) → IsKey k → IsLine k
IsKey-IsLine [] h = tt
IsKey-IsLine (c ∷ k) h = (h.1, IsKey-IsLine k h.2)

-- The line that a write adds.
abbrev setting : Text → Text → Text
setting key value = assignment key ++ value

setting-IsLine : (key value : Text) → IsKey key → IsLine value → IsLine (setting key value)
setting-IsLine key value hk hv =
    IsLine-append (assignment key) value
      (IsLine-append key (b'=' ∷ []) (IsKey-IsLine key hk) (ground arith, tt)) hv

split-setting :
    (key value : Text)
    → IsKey key
    → IsLine value
    → split_lines (assignment key ++ (value ++ newline ∷ [])) ≡ setting key value ∷ [] ∷ []
split-setting key value hk hv =
    ap split_lines (sym (append_assoc (assignment key) value (newline ∷ [])))
    ∙ split-append-newline (setting key value) []
    ∙ unfold split_lines in
      ap (λ l. l ++ [] ∷ []) (split-line (setting key value) (setting-IsLine key value hk hv))

read-setting_self :
    (key value : Text) → read_lines key (setting key value ∷ [] ∷ []) ≡ some (trim_space value)
unfolding read_lines
read-setting_self key value = rw (cut_prefix-append (assignment key) value, read_lines)

read-setting_other :
    (j k value : Text) → IsKey j → IsKey k → j ≢ k → read_lines j (setting k value ∷ [] ∷ []) ≡ none
unfolding read_lines
read-setting_other j k value hj hk ne =
    elim (Option-cases (cut_prefix (setting k value) (assignment j))) [
      | inr (v, e) ↦ absurd (
          ne (
            prefix-same (setting k value) j k hj hk (rw e)
              (rw (cut_prefix-append (assignment k) value))))
      | inl e ↦ rw (e, read_lines) (unfold split_lines in read-empty j)
    ]

read-kept :
    (j k : Text) (file : Read)
    → IsKey j
    → IsKey k
    → j ≢ k
    → read_lines j (kept k file) ≡ env_read j file
unfolding kept env_read
read-kept j k (content s) hj hk ne = read-keep_other j k (split_lines s) hj hk ne
read-kept j k missing hj hk ne = refl
read-kept j k unreadable hj hk ne = refl

read-kept_self : (k : Text) (file : Read) → read_lines k (kept k file) ≡ none
unfolding kept read_lines
read-kept_self k (content s) = read-keep_self k (split_lines s)
read-kept_self k missing = refl
read-kept_self k unreadable = refl

or_else-none {ℓ} : {A : Type ℓ} (o : Option A) → or_else o none ≡ o
or_else-none none = refl
or_else-none (some a) = refl

read_written :
    (j k value : Text) (file : Read)
    → IsKey k
    → IsLine value
    → env_read j (env_write k value file)
      ≡ or_else (read_lines j (kept k file)) (read_lines j (setting k value ∷ [] ∷ []))
unfolding env_read env_write
read_written j k value file hk hv =
    read-close j (kept k file) (assignment k ++ (value ++ newline ∷ [])) (kept-lines k file)
    ∙ ap (λ ls. or_else (read_lines j (kept k file)) (read_lines j ls))
        (split-setting k value hk hv)

same_or_other : (j k : Text) → ((text_eq k j ≡ true) × (j ≡ k)) ⊎ ((text_eq k j ≡ false) × (j ≢ k))
same_or_other j k = elim (Bool-cases (text_eq k j)) [
  | inl e ↦ inl (e, sym ((text_eq_iff k j).0 e))
  | inr e ↦ inr (e, λ h. ground (arith, e, (text_eq_iff k j).1 (sym h)))
]

-- After a write of a value of one line, the key reads as that value without the spaces around it,
-- and every other key reads as before. (Keys hold neither `=` nor a newline.)
pub env_read-env_write :
    (j k value : Text) (file : Read)
    → IsKey j
    → IsKey k
    → IsLine value
    → env_read j (env_write k value file)
      ≡ (if text_eq k j then some (trim_space value) else env_read j file)
env_read-env_write j k value file hj hk hv = elim (same_or_other j k) [
  | inl (e, same) ↦
      rw (e, same)
        (read_written k k value file hk hv
          ∙ ground (arith, read-kept_self k file, read-setting_self k value))
  | inr (e, ne) ↦ rw e (
      read_written j k value file hk hv
      ∙ ground (
        arith,
        read-kept j k file hj hk ne,
        read-setting_other j k value hj hk ne,
        or_else-none (env_read j file),
      ))
]

sets_key-read : (k : Text) (ls : List Text) → sets_key k ls ≡ false → read_lines k ls ≡ none
unfolding sets_key read_lines
sets_key-read k [] h = refl
sets_key-read k (l ∷ ls) h = ground (arith, sets_key-read k ls)

read-closed :
    (j : Text) (ls : List Text)
    → All IsLine ls
    → read_lines j (split_lines (close_lines ls)) ≡ read_lines j ls
read-closed j ls h =
    ap (λ t. read_lines j (split_lines t)) (sym (append-nil (close_lines ls)))
    ∙ read-close j ls [] h
    ∙ ground (arith, read-empty j, or_else-none (read_lines j ls))

-- After a key is cleared from a file that could be read it reads as absent, and every other key
-- reads as before.
pub env_read-env_clear :
    (j k : Text) (s : Text)
    → IsKey j
    → IsKey k
    → env_read j (env_clear k (content s)).0
      ≡ (if text_eq k j then none else env_read j (content s))
unfolding env_read env_clear
env_read-env_clear j k s hj hk = elim (Bool-cases (sets_key k (split_lines s))) [
  | inl set ↦ rw set (
      read-closed j (keep_lines k (split_lines s))
        (keep_lines-lines k (split_lines s) (split-lines s))
      ∙ elim (same_or_other j k) [
        | inl (e, same) ↦ rw (e, same) (read-keep_self k (split_lines s))
        | inr (e, ne) ↦ rw e (read-keep_other j k (split_lines s) hj hk ne)
      ])
  | inr unset ↦ rw unset (elim (same_or_other j k) [
    | inl (e, same) ↦ rw (e, same) (sets_key-read k (split_lines s) unset)
    | inr (e, ne) ↦ rw e
  ])
]

-- A write after a write of the same key leaves nothing of the first: whatever is read reads the
-- same as after the second alone.
pub env_write_twice :
    (j k v w : Text) (file : Read)
    → IsKey j
    → IsKey k
    → IsLine v
    → IsLine w
    → env_read j (env_write k v (env_write k w file)) ≡ env_read j (env_write k v file)
env_write_twice j k v w file hj hk hv hw = ground (
  arith,
  env_read-env_write j k v (env_write k w file) hj hk hv,
  env_read-env_write j k w file hj hk hw,
  env_read-env_write j k v file hj hk hv,
)
