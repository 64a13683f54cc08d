-- ===== src/Notify/Examples.antt =====
-- An outbox with a job that cannot be sent and one that has been delivered.
use mirabilis.Base.{true, false, ◌≡◌, refl, none, some, [], ◌∷◌, arith, eq_iff}
use mirabilis.Text.{codes}
use mirabilis.Notify.Queue.{Job, Outbox, Removals, prune_delivered}
use mirabilis.Notify.Watcher.{Outside, Watcher, healthy}
use mirabilis.Notify.Prune.{is_pending, prune_delivered-pending}
use mirabilis.Notify.Attempts.{IsCounted, deliveries, has_status, deliveries-three}

abbrev job : Job
job = record { id = "a"; chat_id = codes "7"; body = codes "hello" }

abbrev outbox : Outbox
outbox = record {
  jobs = ("a", some job) ∷ ("b", some job) ∷ [];
  statuses = ("b", record { id = "b"; is_sent = true; error = []; written = 1 }) ∷ [];
}

abbrev removals : Removals
removals = record { job_stuck = λ n. false; status_stuck = λ n. false }

-- Every send fails for a while.
abbrev offline : Outside
offline = record {
  send = λ j. some (record { permanent = false; text = codes "offline" });
  write_error = λ n. none;
  now = 100;
  is_done = λ i. false;
  removals = removals;
}

abbrev watcher : Watcher
watcher = record { outbox = outbox; seen = []; sent = []; health = healthy }

no_tries : IsCounted watcher
unfolding mirabilis.Base.lookup
no_tries n = omega arith

prune_delivered-pending_example :
    is_pending "a" (prune_delivered removals 100 10 outbox) ≡ is_pending "a" outbox
prune_delivered-pending_example = prune_delivered-pending removals 100 10 outbox "a" (λ n. refl)

deliveries-three_example :
    has_status job (deliveries (offline ∷ offline ∷ offline ∷ []) ("a", some job) watcher) ≡ true
deliveries-three_example =
    deliveries-three (offline ∷ offline ∷ offline ∷ []) "a" job watcher
      (λ e. ground (arith, (eq_iff "a" "").1 e)) (refl, (refl, (refl, tt))) no_tries (omega arith)
