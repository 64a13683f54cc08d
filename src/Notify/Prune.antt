-- ===== src/Notify/Prune.antt =====
-- Pruning takes delivered jobs away and leaves those that wait.
use mirabilis.Base.{
  ℕ, String, Bool, true, false, ◌&&◌, ◌≡◌, refl, ◌∙◌, is_some, is_none, List, [], ◌∷◌, arith,
  StringMap, lookup, lookup-delete, eq_iff, All, Bool-cases, inl, inr, ltb, ◌+◌,
}
use mirabilis.Notify.Queue.{
  JobStatus, Outbox, Removals, remove_both, prune_entries, prune_delivered,
}

-- A job with that name waits to be delivered.
abbrev pub is_pending : String → Outbox → Bool
is_pending k o = is_some (lookup k o.jobs) && is_none (lookup k o.statuses)

remove_both-pending :
    (r : Removals) (n k : String) (o : Outbox)
    → r.job_stuck n ≡ false
    → is_pending n o ≡ false
    → is_pending k (remove_both r n o) ≡ is_pending k o
unfolding remove_both
remove_both-pending r n k o gone settled =
    ground
      (arith, gone, settled, lookup-delete n k o.jobs, lookup-delete n k o.statuses, eq_iff n k)

All-map {ℓ κ μ} :
    {A : Type ℓ} {P : A → Type κ} {Q : A → Type μ}
    → ((a : A) → P a → Q a)
    → (xs : List A) → All P xs
    → All Q xs
All-map f [] h = tt
All-map f (x ∷ xs) h = (f x h.0, All-map f xs h.1)

prune_entries-pending :
    (r : Removals) (now retention : ℕ) (es : List (String × JobStatus)) (k : String) (o : Outbox)
    → ((n : String) → r.job_stuck n ≡ false)
    → All (λ (e : String × JobStatus). is_pending e.0 o ≡ false) es
    → is_pending k (prune_entries r now retention es o) ≡ is_pending k o
unfolding prune_entries
prune_entries-pending r now retention [] k o gone settled = refl
prune_entries-pending r now retention ((n, st) ∷ es) k o gone settled =
    elim (Bool-cases (ltb now (st.written + retention))) [
      | inl young ↦ rw young (prune_entries-pending r now retention es k o gone settled.1)
      | inr old ↦ rw old (
          prune_entries-pending r now retention es k (remove_both r n o) gone (
            All-map
              (λ (e : String × JobStatus) h. remove_both-pending r n e.0 o (gone n) settled.0 ∙ h)
              es settled.1)
          ∙ remove_both-pending r n k o (gone n) settled.0)
    ]

-- Each key of a map is found in it.
keys-found :
    (m : StringMap JobStatus) → All (λ (e : String × JobStatus). is_some (lookup e.0 m) ≡ true) m
unfolding lookup
keys-found [] = tt
keys-found ((n, st) ∷ m) = (
  ground (arith, eq_iff n n),
  All-map (λ (e : String × JobStatus) h. ground (arith, h)) m (keys-found m),
)

-- While the files of jobs can be removed, pruning changes nothing about which jobs wait: a job that
-- has been delivered never comes back, and none that waits is lost, even if a status stays.
pub prune_delivered-pending :
    (r : Removals) (now retention : ℕ) (o : Outbox) (k : String)
    → ((n : String) → r.job_stuck n ≡ false)
    → is_pending k (prune_delivered r now retention o) ≡ is_pending k o
unfolding prune_delivered
prune_delivered-pending r now retention o k gone =
    prune_entries-pending r now retention o.statuses k o gone
      (All-map (λ (e : String × JobStatus) h. ground (arith, h)) o.statuses (keys-found o.statuses))
