-- ===== src/Notify/Queue.antt =====
-- internal/engine/notify/queue.go. The outbox is its two kinds of files by the name before the
-- suffix; a job that cannot be read or parsed is `none`. Times are numbers. Files are written whole
-- or not at all (`writeAtomic`): the error of a write is an argument.
use mirabilis.Base.{
  ℕ, ◌+◌, ltb, String, Bool, Option, none, some, is_some, List, [], ◌∷◌, if◌then◌else◌, StringMap,
  lookup, insert, delete, str_eq,
}
use mirabilis.Text.{Text}

pub record Job : Type 0 where
  pub id : String
  pub chat_id : Text
  pub body : Text

pub record JobStatus : Type 0 where
  pub id : String
  pub is_sent : Bool
  pub error : Text
  pub written : ℕ

pub record Outbox : Type 0 where
  pub jobs : StringMap (Option Job)
  pub statuses : StringMap JobStatus

pub data QueueError : Type 0 where
  empty_id : QueueError
  unreadable : String → QueueError
  not_written : Text → QueueError

-- `WriteJob`, with the error of the write.
unfoldable pub write_job : Option Text → Job → Outbox → Outbox × Option QueueError
write_job failing job o = if str_eq job.id "" then (o, some empty_id) else elim failing [
  | some e ↦ (o, some (not_written e))
  | none ↦ (record o { jobs = insert job.id (some job) o.jobs }, none)
]

unfoldable pub write_status : Option Text → JobStatus → Outbox → Outbox × Option QueueError
write_status failing status o = if str_eq status.id "" then (o, some empty_id) else elim failing [
  | some e ↦ (o, some (not_written e))
  | none ↦ (record o { statuses = insert status.id status o.statuses }, none)
]

-- The second loop of `PendingJobs`: the jobs that have no status.
unfoldable pub without_status :
    StringMap JobStatus → List (String × Option Job) → List (String × Option Job)
without_status statuses [] = []
without_status statuses ((n, job) ∷ rest) =
    let others = without_status statuses rest in
    if is_some (lookup n statuses) then others else (n, job) ∷ others

unfoldable pub pending_jobs : Outbox → List (String × Option Job)
unfolding without_status
pending_jobs o = without_status o.statuses o.jobs

-- What the file system does to a removal: the files that cannot be removed.
pub record Removals : Type 0 where
  pub job_stuck : String → Bool
  pub status_stuck : String → Bool

-- The inner loop of `PruneDelivered`: the job and then the status.
unfoldable pub remove_both : Removals → String → Outbox → Outbox
remove_both r n o = record {
  jobs = if r.job_stuck n then o.jobs else delete n o.jobs;
  statuses = if r.status_stuck n then o.statuses else delete n o.statuses;
}

-- The loop of `PruneDelivered` over the entries that were read. A status that is younger than the
-- retention is kept.
unfoldable pub prune_entries : Removals → ℕ → ℕ → List (String × JobStatus) → Outbox → Outbox
unfolding remove_both
prune_entries r now retention [] o = o
prune_entries r now retention ((n, st) ∷ rest) o =
    if ltb now (st.written + retention)
    then prune_entries r now retention rest o
    else prune_entries r now retention rest (remove_both r n o)

unfoldable pub prune_delivered : Removals → ℕ → ℕ → Outbox → Outbox
unfolding prune_entries
prune_delivered r now retention o = prune_entries r now retention o.statuses o
