-- ===== src/Steps/Batch/Effects.antt =====
-- What a batch waits for, and what its optional steps cannot do.
use mirabilis.Base.{
  ℕ, suc, String, Bool, true, false, not, ◌&&◌, ◌||◌, ◌≡◌, refl, ◌∙◌, subst, Option, none, List, [],
  ◌∷◌, ◌++◌, map, Memᴰ, Permᴰ, sym, arith, contains, str_eq, eq_iff, if◌then◌else◌,
}
use mirabilis.Pipeline.Types.{Error, Event, Command, name}
use mirabilis.Steps.Batch.Waves.{flatten, waves-Decided, Decided, mem-append-left, mem-append-right}
use mirabilis.Steps.Batch.{
  Batch, add_deps, collect_deps, insert_sorted, sort_strings, outer_deps, in_waves, waves, run_one,
  run_wave, run_waves, run_batch,
}

contains-append :
    (xs ys : List String) (a : String) → contains (xs ++ ys) a ≡ (contains xs a || contains ys a)
unfolding contains
contains-append [] ys a = refl
contains-append (x ∷ xs) ys a = ground (arith, contains-append xs ys a)

contains-insert_sorted :
    (x : String) (xs : List String) (a : String)
    → contains (insert_sorted x xs) a ≡ (str_eq x a || contains xs a)
unfolding contains insert_sorted
contains-insert_sorted x [] a = ground arith
contains-insert_sorted x (y ∷ ys) a = ground (arith, contains-insert_sorted x ys a)

contains-sort_strings :
    (xs : List String) (a : String) → contains (sort_strings xs) a ≡ contains xs a
unfolding contains sort_strings
contains-sort_strings [] a = refl
contains-sort_strings (x ∷ xs) a =
    contains-insert_sorted x (sort_strings xs) a ∙ ground (arith, contains-sort_strings xs a)

contains-add_deps :
    (inner deps ds : List String) (a : String)
    → contains (add_deps inner deps ds) a
      ≡ (contains deps a || (contains ds a && not (contains inner a)))
unfolding add_deps contains
contains-add_deps inner deps [] a = ground arith
contains-add_deps inner deps (d ∷ ds) a = ground (
  arith,
  contains-add_deps inner (if contains inner d || contains deps d then deps else deps ++ d ∷ []) ds
      a,
  contains-append deps (d ∷ []) a,
  eq_iff d a,
)

-- Does one of the steps depend on that name?
abbrev pub some_depends : List Command → String → Bool
some_depends [] d = false
some_depends (c ∷ cs) d = contains c.meta.deps d || some_depends cs d

contains-collect_deps :
    (inner deps : List String) (cs : List Command) (a : String)
    → contains (collect_deps inner deps cs) a
      ≡ (contains deps a || (some_depends cs a && not (contains inner a)))
unfolding collect_deps
contains-collect_deps inner deps [] a = ground arith
contains-collect_deps inner deps (c ∷ cs) a = ground (
  arith,
  contains-collect_deps inner (add_deps inner deps c.meta.deps) cs a,
  contains-add_deps inner deps c.meta.deps a,
)

-- A batch depends on just what one of its steps depends on and that is not itself one of them.
pub contains-outer_deps :
    (cmds : List Command) (d : String)
    → contains (outer_deps cmds) d ≡ (some_depends cmds d && not (contains (map name cmds) d))
unfolding outer_deps contains
contains-outer_deps cmds d =
    contains-sort_strings (collect_deps (map name cmds) [] cmds) d
    ∙ contains-collect_deps (map name cmds) [] cmds d

abbrev pub IsOptional : Command → Type 0
IsOptional c = c.meta.optional ≡ true

run_one-optional :
    (b : String) (lines : List Event) (c : Command) → IsOptional c → (run_one b lines c).1 ≡ none
unfolding run_one
run_one-optional b lines c h = ground (arith, h)

run_wave-optional :
    (b : String) (lines : String → List Event) (w : List Command)
    → ((c : Command) → Memᴰ c w → IsOptional c)
    → (run_wave b lines w).1 ≡ none
unfolding run_wave
run_wave-optional b lines [] h = refl
run_wave-optional b lines (c ∷ cs) h = ground (
  arith,
  run_one-optional b (lines (name c)) c (h c (Memᴰ.head refl)),
  run_wave-optional b lines cs (λ x m. h x (Memᴰ.tail m)),
)

run_waves-optional :
    (b : String) (lines : String → List Event) (order : List Command → List Command)
    (ctx : ℕ → Option Error) (ws : List (List Command))
    → ((w : List Command) (c : Command) → Memᴰ c (order w) → Memᴰ c w)
    → ((i : ℕ) → ctx i ≡ none)
    → ((c : Command) → Memᴰ c (flatten ws) → IsOptional c)
    → (run_waves b lines order ctx ws).1 ≡ none
unfolding run_waves
run_waves-optional b lines order ctx [] from live h = refl
run_waves-optional b lines order ctx (w ∷ ws) from live h = ground (
  arith,
  live 0,
  run_wave-optional b lines (order w) (λ c m. h c (mem-append-left w (flatten ws) (from w c m))),
  run_waves-optional b lines order (λ i. ctx (suc i)) ws from (λ i. live (suc i))
      (λ c m. h c (mem-append-right w (flatten ws) m)),
)

mem-perm {ℓ} : {A : Type ℓ} {xs ys : List A} {a : A} → Permᴰ xs ys → Memᴰ a ys → Memᴰ a xs
mem-perm Permᴰ.nil m = m
mem-perm (Permᴰ.cons e p) (Memᴰ.head h) = Memᴰ.head (h ∙ sym e)
mem-perm (Permᴰ.cons e p) (Memᴰ.tail m) = Memᴰ.tail (mem-perm p m)
mem-perm (Permᴰ.swap e f) (Memᴰ.head h) = Memᴰ.tail (Memᴰ.head (h ∙ sym f))
mem-perm (Permᴰ.swap e f) (Memᴰ.tail (Memᴰ.head h)) = Memᴰ.head (h ∙ sym e)
mem-perm (Permᴰ.swap e f) (Memᴰ.tail (Memᴰ.tail m)) = Memᴰ.tail (Memᴰ.tail m)
mem-perm (Permᴰ.trans p q) m = mem-perm p (mem-perm q m)

-- A batch of optional steps that can be laid out in waves does not fail while its context lives,
-- whatever its steps answer and in whatever order the steps of a wave finish.
pub run_batch-optional :
    (b : Batch) (lines : String → List Event) (order : List Command → List Command)
    (ctx : ℕ → Option Error) (ws : List (List Command))
    → waves b ≡ in_waves ws
    → ((w : List Command) (c : Command) → Memᴰ c (order w) → Memᴰ c w)
    → ((i : ℕ) → ctx i ≡ none)
    → ((c : Command) → Memᴰ c b.cmds → IsOptional c)
    → (run_batch lines order ctx b).1 ≡ none
unfolding run_batch
run_batch-optional b lines order ctx ws laid from live h =
    rw (laid, run_batch)
      (run_waves-optional b.name lines order ctx ws from live (λ c m. h c (mem-perm (decided.1) m)))
  where
    decided : Decided b.name (map name b.cmds) [] b.cmds (in_waves ws)
    decided = subst (Decided b.name (map name b.cmds) [] b.cmds) laid (waves-Decided b)
