-- ===== src/Pipeline/Run/Arrival.antt =====
-- What is made of the results of a batch does not depend on the order in which they arrive.
use mathlib.Core.List.Memᴰ
use mirabilis.Base.{
  String, ◌≡◌, refl, sym, ◌∙◌, ◌↔◌, Bool, true, false, ◌||◌, Option, none, some, List, [], ◌∷◌, map,
  Memᴰ, arith, if◌then◌else◌, is_some, contains, contains-cons, mem-contains, contains-mem,
  StringMap, lookup, insert, insert_all, lookup-insert, lookup-insert_all, eq_iff, subst,
  Bool-cases, inl, inr,
}
use mirabilis.Pipeline.Types.{StepState, Error}
use mirabilis.Pipeline.Run.{is_failed, BatchResult, out_states, out_errs, keep_first, wrap}

abbrev pub any_failed : List BatchResult → Bool
any_failed [] = false
any_failed (r ∷ rs) = is_failed (some r.state) || any_failed rs

-- The map made from the results, read at a step's name.
abbrev pub steps : List BatchResult → List String
steps = map (λ r. r.step)

out_states-other :
    (rs : List BatchResult) (m : StringMap StepState) (k : String)
    → contains (steps rs) k ≡ false
    → lookup k (out_states rs m) ≡ lookup k m
unfolding out_states
out_states-other [] m k h = refl
out_states-other (r ∷ rs) m k h = ground (
  arith,
  contains-cons r.step k (steps rs),
  out_states-other rs (insert r.step r.state m) k,
  lookup-insert r.step k r.state m,
)

-- Where every result agrees with one function of the names, so does the map.
out_states-agrees :
    (g : String → Option StepState) (rs : List BatchResult) (m : StringMap StepState) (k : String)
    → ((r : BatchResult) → Memᴰ r rs → g r.step ≡ some r.state)
    → lookup k (out_states rs m) ≡ (if contains (steps rs) k then g k else lookup k m)
unfolding out_states contains
out_states-agrees g [] m k h = refl
out_states-agrees g (r ∷ rs) m k h = ground (
  arith,
  h r (Memᴰ.head refl),
  eq_iff r.step k,
  out_states-agrees g rs (insert r.step r.state m) k (λ x n. h x (Memᴰ.tail n)),
  lookup-insert r.step k r.state m,
)

-- No two results are of one step.
abbrev pub IsDistinct : List BatchResult → Type 0
IsDistinct [] = Unit
IsDistinct (r ∷ rs) = (contains (steps rs) r.step ≡ false) × IsDistinct rs

-- A step's own entry, where no step of the batch has the name of another.
out_states-own :
    (rs : List BatchResult) (m : StringMap StepState) (r : BatchResult)
    → IsDistinct rs
    → Memᴰ r rs
    → lookup r.step (out_states rs m) ≡ some r.state
unfolding out_states
out_states-own [] m r d h = elim h [ ]
out_states-own (x ∷ rs) m r d (Memᴰ.head e) = rw e (
    out_states-other rs (insert x.step x.state m) x.step d.0
    ∙ ground (arith, lookup-insert x.step x.step x.state m, eq_iff x.step x.step))
out_states-own (x ∷ rs) m r d (Memᴰ.tail h) = out_states-own rs (insert x.step x.state m) r d.1 h

contains-eq :
    (xs ys : List String) (k : String)
    → (Memᴰ k xs → Memᴰ k ys)
    → (Memᴰ k ys → Memᴰ k xs)
    → contains xs k ≡ contains ys k
contains-eq xs ys k f g = elim (Bool-cases (contains xs k)) [
  | inl e ↦ e ∙ sym (mem-contains ys k (f (contains-mem xs k e)))
  | inr e ↦ elim (Bool-cases (contains ys k)) [
    | inl e' ↦ absurd (ground (arith, mem-contains xs k (g (contains-mem ys k e'))))
    | inr e' ↦ e ∙ sym e'
  ]
]

steps-sub :
    (rs qs : List BatchResult) (k : String)
    → ((r : BatchResult) → Memᴰ r rs → Memᴰ r qs)
    → Memᴰ k (steps rs)
    → Memᴰ k (steps qs)
steps-sub rs qs k sub m =
    let (r, here, e) = Memᴰ.of_map (λ (r : BatchResult). r.step) rs m in
    Memᴰ.cast (sym e) (Memᴰ.map (λ (r : BatchResult). r.step) (sub r here))

agree_some :
    (g : String → Option StepState) (rs : List BatchResult) (k : String)
    → ((r : BatchResult) → Memᴰ r rs → g r.step ≡ some r.state)
    → contains (steps rs) k ≡ true
    → is_some (g k) ≡ true
agree_some g rs k own h =
    let (r, here, e) = Memᴰ.of_map (λ (r : BatchResult). r.step) rs (contains-mem (steps rs) k h) in
    rw (← e) (rw (own r here))

-- The order in which the results arrive is of no account.
pub out_states-arrive :
    (rs qs : List BatchResult) (s : StringMap StepState) (k : String)
    → IsDistinct rs
    → ((r : BatchResult) → Memᴰ r qs ↔ Memᴰ r rs)
    → lookup k (insert_all (out_states qs []) s) ≡ lookup k (out_states rs s)
unfolding lookup
out_states-arrive rs qs s k d same = ground (
  arith,
  lookup-insert_all k (out_states qs []) s,
  out_states-agrees g qs [] k (λ r m. own r ((same r).0 m)),
  out_states-agrees g rs [] k own,
  out_states-agrees g rs s k own,
  contains-eq (steps qs) (steps rs) k (steps-sub qs rs k (λ r. (same r).0))
      (steps-sub rs qs k (λ r. (same r).1)),
  agree_some g rs k own,
)
  where
    g : String → Option StepState
    g k = lookup k (out_states rs [])

    own : (r : BatchResult) → Memᴰ r rs → g r.step ≡ some r.state
    own r m = out_states-own rs [] r d m

any_failed-mem :
    (rs : List BatchResult) (r : BatchResult)
    → Memᴰ r rs
    → is_failed (some r.state) ≡ true
    → any_failed rs ≡ true
any_failed-mem [] r m h = elim m [ ]
any_failed-mem (x ∷ rs) r (Memᴰ.head e) h =
    let failed : is_failed (some x.state) ≡ true =
      subst (λ (y : BatchResult). is_failed (some y.state) ≡ true) e h in
    ground arith
any_failed-mem (x ∷ rs) r (Memᴰ.tail m) h = ground (arith, any_failed-mem rs r m h)

any_failed-sub :
    (rs qs : List BatchResult)
    → ((r : BatchResult) → Memᴰ r rs → Memᴰ r qs)
    → any_failed rs ≡ true
    → any_failed qs ≡ true
any_failed-sub [] qs sub h = cc
any_failed-sub (r ∷ rs) qs sub h = elim (Bool-cases (is_failed (some r.state))) [
  | inl e ↦ any_failed-mem qs r (sub r (Memᴰ.head refl)) e
  | inr e ↦ any_failed-sub rs qs (λ x m. sub x (Memᴰ.tail m)) (ground arith)
]

any_failed-arrive :
    (rs qs : List BatchResult)
    → ((r : BatchResult) → Memᴰ r qs ↔ Memᴰ r rs)
    → any_failed qs ≡ any_failed rs
any_failed-arrive rs qs same = elim (Bool-cases (any_failed qs)) [
  | inl e ↦ e ∙ sym (any_failed-sub qs rs (λ r. (same r).0) e)
  | inr e ↦ elim (Bool-cases (any_failed rs)) [
    | inl e' ↦ absurd (ground (arith, any_failed-sub rs qs (λ r. (same r).1) e'))
    | inr e' ↦ e ∙ sym e'
  ]
]

abbrev is_cons {ℓ} : {A : Type ℓ} → List A → Bool
is_cons [] = false
is_cons (x ∷ xs) = true

out_errs-cons :
    (rs : List BatchResult) (m : StringMap (Option Error))
    → is_cons (out_errs rs m) ≡ (is_cons m || any_failed rs)
unfolding out_errs insert
out_errs-cons [] m = ground arith
out_errs-cons (r ∷ rs) m =
    out_errs-cons rs (if is_failed (some r.state) then insert r.step r.err m else m) ∙ ground arith

keep_first-cons :
    (first : Option Error) (es : StringMap (Option Error))
    → is_some (keep_first first es) ≡ (is_some first || is_cons es)
unfolding keep_first
keep_first-cons none [] = refl
keep_first-cons (some x) [] = refl
keep_first-cons none ((n, e) ∷ es) = keep_first-cons (some (wrap n e)) es
keep_first-cons (some x) ((n, e) ∷ es) = keep_first-cons (some x) es

is_cons-range {ℓ} :
    {A : Type ℓ} (xs ys : List A) → ((a : A) → Memᴰ a ys ↔ Memᴰ a xs) → is_cons ys ≡ is_cons xs
is_cons-range [] [] same = refl
is_cons-range [] (y ∷ ys) same = elim ((same y).0 (Memᴰ.head refl)) [ ]
is_cons-range (x ∷ xs) [] same = elim ((same x).1 (Memᴰ.head refl)) [ ]
is_cons-range (x ∷ xs) (y ∷ ys) same = refl

-- A batch adds an error just where one of its steps failed.
pub keep_first-batch :
    (first : Option Error) (rs qs : List BatchResult) (es : StringMap (Option Error))
    → ((r : BatchResult) → Memᴰ r qs ↔ Memᴰ r rs)
    → ((e : String × Option Error) → Memᴰ e es ↔ Memᴰ e (out_errs qs []))
    → is_some (keep_first first es) ≡ (is_some first || any_failed rs)
keep_first-batch first rs qs es same ranged = ground (
  arith,
  keep_first-cons first es,
  is_cons-range (out_errs qs []) es ranged,
  out_errs-cons qs [],
  any_failed-arrive rs qs same,
)
