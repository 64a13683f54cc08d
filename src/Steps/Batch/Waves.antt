-- ===== src/Steps/Batch/Waves.antt =====
-- How `waves` orders the steps of a batch.
use mathlib.Core.List.Permᴰ.{symm, middle, append_left}
use mirabilis.Base.{
  ℕ, zero, suc, ◌+◌, ◌≤◌, String, true, false, ◌≡◌, refl, ◌≢◌, ◌⊎◌, inl, inr, List, [], ◌∷◌, ◌++◌,
  map, Memᴰ, Permᴰ, arith, contains, contains-mem, mem-contains, Bool-cases, length, All,
}
use mirabilis.Pipeline.Types.{Command, name}
use mirabilis.Steps.Batch.{
  Batch, cycle_error, inner_deps_satisfied, split_wave, Planned, in_waves, no_waves, then_waves,
  waves_from, waves,
}

-- Each dependency among the batch's own steps is finished.
abbrev pub Ready : List String → List String → Command → Type 0
Ready inner finished c = (d : String) → Memᴰ d c.meta.deps → Memᴰ d inner → Memᴰ d finished

-- Each wave waits only for the waves before.
abbrev pub IsLayered : List String → List String → List (List Command) → Type 0
IsLayered inner finished [] = Unit
IsLayered inner finished (w ∷ ws) =
    (w ≢ []) × All (Ready inner finished) w × IsLayered inner (map name w ++ finished) ws

abbrev pub flatten : List (List Command) → List Command
flatten [] = []
flatten (w ∷ ws) = w ++ flatten ws

-- A step that waits for an inner step which is not finished.
abbrev pub Blocked : List String → List String → Command → Type 0
Blocked inner finished c = (d : String) × Memᴰ d c.meta.deps × Memᴰ d inner × (¬ Memᴰ d finished)

-- A step that waits for a step among those.
abbrev pub Waits : List Command → Command → Type 0
Waits stuck c = (d : String) × Memᴰ d c.meta.deps × Memᴰ d (map name stuck)

satisfied-Ready :
    (inner finished ds : List String)
    → inner_deps_satisfied inner finished ds ≡ true
    → (d : String) → Memᴰ d ds
    → Memᴰ d inner
    → Memᴰ d finished
unfolding inner_deps_satisfied
satisfied-Ready inner finished [] h d m i = elim m [ ]
satisfied-Ready inner finished (x ∷ ds) h d (Memᴰ.head e) i =
    contains-mem finished d (ground (arith, e, mem-contains inner d i))
satisfied-Ready inner finished (x ∷ ds) h d (Memᴰ.tail m) i =
    satisfied-Ready inner finished ds (ground arith) d m i

unsatisfied-dep :
    (inner finished ds : List String)
    → inner_deps_satisfied inner finished ds ≡ false
    → (d : String) × Memᴰ d ds × Memᴰ d inner × (¬ Memᴰ d finished)
unfolding inner_deps_satisfied
unsatisfied-dep inner finished [] h = absurd (ground arith)
unsatisfied-dep inner finished (x ∷ ds) h = elim (Bool-cases (contains inner x)) [
  | inl i ↦ elim (Bool-cases (contains finished x)) [
    | inl f ↦
        let (d, m, k, l) = unsatisfied-dep inner finished ds (ground arith) in
        (d, Memᴰ.tail m, k, l)
    | inr f ↦
        (x, Memᴰ.head refl, contains-mem inner x i, λ m. ground (arith, mem-contains finished x m))
  ]
  | inr i ↦
      let (d, m, k, l) = unsatisfied-dep inner finished ds (ground arith) in (d, Memᴰ.tail m, k, l)
]

-- What one round does to the steps that remain.
record Split (inner finished : List String) (cs wave blocked : List Command) : Type 0 where
  perm : Permᴰ cs (wave ++ blocked)
  measure : length wave + length blocked ≡ length cs
  ready : All (Ready inner finished) wave
  waiting : All (Blocked inner finished) blocked
  names : (d : String) → Memᴰ d (map name cs) → Memᴰ d (map name wave) ⊎ Memᴰ d (map name blocked)
  within : (c : Command) → Memᴰ c blocked → Memᴰ c cs

split_wave-Split :
    (inner finished : List String) (cs : List Command)
    → let (wave, blocked) = split_wave inner finished cs in Split inner finished cs wave blocked
unfolding split_wave
split_wave-Split inner finished [] = record {
  perm = Permᴰ.nil;
  measure = refl;
  ready = tt;
  waiting = tt;
  names = λ d m. inl m;
  within = λ c m. m;
}
split_wave-Split inner finished (c ∷ cs) =
    let s = split_wave-Split inner finished cs in
    let (wave, blocked) = split_wave inner finished cs in
    elim (Bool-cases (inner_deps_satisfied inner finished c.meta.deps)) [
      | inl e ↦ rw e (record {
        perm = Permᴰ.cons refl s.perm;
        measure = omega (arith, s.measure);
        ready = (satisfied-Ready inner finished c.meta.deps e, s.ready);
        waiting = s.waiting;
        names = λ d m. elim m [
          | Memᴰ.head h ↦ inl (Memᴰ.head h)
          | Memᴰ.tail t ↦ elim (s.names d t) [ inl k ↦ inl (Memᴰ.tail k) | inr k ↦ inr k ]
        ];
        within = λ x m. Memᴰ.tail (s.within x m);
      })
      | inr e ↦ rw e (record {
        perm = Permᴰ.trans (Permᴰ.cons refl s.perm) (symm (middle c wave blocked));
        measure = omega (arith, s.measure);
        ready = s.ready;
        waiting = (unsatisfied-dep inner finished c.meta.deps e, s.waiting);
        names = λ d m. elim m [
          | Memᴰ.head h ↦ inr (Memᴰ.head h)
          | Memᴰ.tail t ↦ elim (s.names d t) [ inl k ↦ inl k | inr k ↦ inr (Memᴰ.tail k) ]
        ];
        within =
            λ x m. elim m [ Memᴰ.head h ↦ Memᴰ.head h | Memᴰ.tail t ↦ Memᴰ.tail (s.within x t) ];
      })
    ]

-- Every inner step is finished or remains.
abbrev Covers : List String → List String → List Command → Type 0
Covers inner finished cs = (d : String) → Memᴰ d inner → Memᴰ d finished ⊎ Memᴰ d (map name cs)

-- What the waves are, or why there are none.
abbrev pub Decided : String → List String → List String → List Command → Planned → Type 0
Decided b inner finished cs (in_waves ws) = IsLayered inner finished ws × Permᴰ cs (flatten ws)
Decided b inner finished cs (no_waves e) =
    (stuck : List Command) × (e ≡ cycle_error b (length stuck))
    × (stuck ≢ [])
    × ((c : Command) → Memᴰ c stuck → Memᴰ c cs)
    × All (Waits stuck) stuck

All-map {ℓ κ μ} :
    {A : Type ℓ} {P : A → Type κ} {Q : A → Type μ}
    → ((a : A) → P a → Q a)
    → (xs : List A) → All P xs
    → All Q xs
All-map f [] h = tt
All-map f (x ∷ xs) h = (f x h.0, All-map f xs h.1)

Blocked-Waits :
    (inner finished : List String) (cs blocked : List Command)
    → Covers inner finished cs
    → ((d : String) → Memᴰ d (map name cs) → Memᴰ d (map name blocked))
    → (c : Command) → Blocked inner finished c
    → Waits blocked c
Blocked-Waits inner finished cs blocked cover into c (d, m, i, l) = elim (cover d i) [
  | inl f ↦ absurd (l f)
  | inr k ↦ (d, m, into d k)
]

pub mem-append-left {ℓ} : {A : Type ℓ} {a : A} (xs ys : List A) → Memᴰ a xs → Memᴰ a (xs ++ ys)
mem-append-left [] ys m = elim m [ ]
mem-append-left (x ∷ xs) ys (Memᴰ.head e) = Memᴰ.head e
mem-append-left (x ∷ xs) ys (Memᴰ.tail m) = Memᴰ.tail (mem-append-left xs ys m)

pub mem-append-right {ℓ} : {A : Type ℓ} {a : A} (xs ys : List A) → Memᴰ a ys → Memᴰ a (xs ++ ys)
mem-append-right [] ys m = m
mem-append-right (x ∷ xs) ys m = Memᴰ.tail (mem-append-right xs ys m)

after_wave :
    (b : String) (inner finished : List String) (cs wave blocked : List Command) (rest : Planned)
    → wave ≢ []
    → Split inner finished cs wave blocked
    → Decided b inner (map name wave ++ finished) blocked rest
    → Decided b inner finished cs (then_waves wave rest)
after_wave b inner finished cs wave blocked (in_waves ws) some_wave s ih =
    ((some_wave, s.ready, ih.0), Permᴰ.trans s.perm (append_left wave ih.1))
after_wave b inner finished cs wave blocked (no_waves e) some_wave s
      (stuck, eq, some_stuck, from, waits) =
    (stuck, eq, some_stuck, (λ c m. s.within c (from c m)), waits)

after_round :
    (b : String) (inner finished : List String) (c : Command) (cs wave blocked : List Command)
    (rest : Planned)
    → Covers inner finished (c ∷ cs)
    → Split inner finished (c ∷ cs) wave blocked
    → (wave ≢ [] → Decided b inner (map name wave ++ finished) blocked rest)
    → Decided b inner finished (c ∷ cs) (elim wave [
      | [] ↦ no_waves (cycle_error b (length blocked))
      | x ∷ xs ↦ then_waves (x ∷ xs) rest
    ])
after_round b inner finished c cs [] blocked rest cover s ih = (
  blocked,
  refl,
  (λ e. ground (arith, s.measure, e)),
  s.within,
  All-map
      (Blocked-Waits inner finished (c ∷ cs) blocked cover
        (λ d m. elim (s.names d m) [ inl k ↦ elim k [ ] | inr k ↦ k ]))
      blocked s.waiting,
)
after_round b inner finished c cs (x ∷ xs) blocked rest cover s ih =
    let some_wave : (x ∷ xs) ≢ [] = λ e. ground (arith, e) in
    after_wave b inner finished (c ∷ cs) (x ∷ xs) blocked rest some_wave s (ih some_wave)

waves_from-Decided :
    (fuel : ℕ) (b : String) (inner finished : List String) (cs : List Command)
    → length cs ≤ fuel
    → Covers inner finished cs
    → Decided b inner finished cs (waves_from fuel b inner finished cs)
unfolding waves_from
waves_from-Decided fuel b inner finished [] fits cover = (tt, Permᴰ.nil)
waves_from-Decided zero b inner finished (c ∷ cs) fits cover = absurd (omega (arith, fits))
waves_from-Decided (suc fuel) b inner finished (c ∷ cs) fits cover =
    let (wave, blocked) = split_wave inner finished (c ∷ cs) in
    let s = split_wave-Split inner finished (c ∷ cs) in
    after_round b inner finished c cs wave blocked
      (waves_from fuel b inner (map name wave ++ finished) blocked) cover s
      (λ some_wave.
        waves_from-Decided fuel b inner (map name wave ++ finished) blocked
          (shorter wave some_wave s.measure fits)
          (λ d i. elim (cover d i) [
            | inl f ↦ inl (mem-append-right (map name wave) finished f)
            | inr m ↦ elim (s.names d m) [
              | inl k ↦ inl (mem-append-left (map name wave) finished k)
              | inr k ↦ inr k
            ]
          ]))
  where
    shorter : {n m k : ℕ} (w : List Command) → w ≢ [] → length w + n ≡ k → k ≤ suc m → n ≤ m
    shorter [] h e l = absurd (h refl)
    shorter (x ∷ xs) h e l = omega (arith, e, l)

-- The steps of a batch are either laid out in waves, none of them empty, which together are the
-- steps of the batch in some order and of which each waits, among the steps of the batch, only for
-- waves before it; or there are steps of the batch of which each waits for one of them, and the
-- error tells how many these are. The fuel of the loop is always enough.
pub waves-Decided : (b : Batch) → Decided b.name (map name b.cmds) [] b.cmds (waves b)
unfolding waves
waves-Decided b =
    waves_from-Decided (length b.cmds) b.name (map name b.cmds) [] b.cmds (omega arith)
      (λ d m. inr m)
