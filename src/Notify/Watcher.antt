-- ===== src/Notify/Watcher.antt =====
-- internal/engine/notify/watcher.go: the attempts of each job, one delivery, and one tick.
use mirabilis.Base.{
  ℕ, suc, leb, String, Bool, true, false, ◌||◌, Option, none, some, List, [], ◌∷◌, ◌++◌,
  if◌then◌else◌, StringMap, lookup, insert, delete,
}
use mirabilis.Text.{Text}
use mirabilis.Notify.Queue.{
  Job, JobStatus, Outbox, QueueError, unreadable, write_status, pending_jobs, Removals,
  prune_delivered,
}

abbrev pub max_transient_attempts : ℕ
max_transient_attempts = 3

-- The error of a send: permanent if it wraps `ErrPermanent`.
pub record SendError : Type 0 where
  pub permanent : Bool
  pub text : Text

pub data Detail : Type 0 where
  queue_error : QueueError → Detail
  send_error : SendError → Detail

pub data Health : Type 0 where
  healthy : Health
  degraded : Detail → Health

-- What the outside does during a tick: the answers of the sends, the writes that fail, the time, and
-- before which of the jobs the context has ended.
pub record Outside : Type 0 where
  pub send : Job → Option SendError
  pub write_error : String → Option Text
  pub now : ℕ
  pub is_done : ℕ → Bool
  pub removals : Removals

-- The outbox, the map of `attemptTracker`, the jobs sent so far, and the state of the node.
pub record Watcher : Type 0 where
  pub outbox : Outbox
  pub seen : StringMap ℕ
  pub sent : List Job
  pub health : Health

-- A counter that is missing reads as 0.
abbrev pub count_of : String → StringMap ℕ → ℕ
count_of n m = elim (lookup n m) [ none ↦ 0 | some k ↦ k ]

unfoldable pub inc : String → StringMap ℕ → StringMap ℕ × ℕ
inc n m = (insert n (suc (count_of n m)) m, suc (count_of n m))

-- The status is written and the error, if any, of the write is reported, else that of the send.
unfoldable pub close_job : Outside → Job → Option SendError → Watcher → Watcher × Option Detail
unfolding write_status
close_job out job e w =
    let status : JobStatus = record {
      id = job.id;
      is_sent = elim e [ none ↦ true | some x ↦ false ];
      error = elim e [ none ↦ [] | some x ↦ x.text ];
      written = out.now;
    } in
    let (outbox, failed) = write_status (out.write_error job.id) status w.outbox in
    let closed = record w { outbox = outbox; seen = delete job.id w.seen } in
    elim failed [
      | some x ↦ (closed, some (queue_error x))
      | none ↦ (closed, elim e [ none ↦ none | some x ↦ some (send_error x) ])
    ]

-- What `deliver` does with the error of `Send`.
unfoldable pub after_send : Outside → Job → Option SendError → Watcher → Watcher × Option Detail
unfolding close_job inc
after_send out job none w = close_job out job none w
after_send out job (some e) w =
    let (seen, count) = inc job.id w.seen in
    let counted = record w { seen = seen } in
    if e.permanent || leb max_transient_attempts count
    then close_job out job (some e) counted
    else (counted, some (send_error e))

unfoldable pub deliver : Outside → String × Option Job → Watcher → Watcher × Option Detail
unfolding after_send
deliver out (n, none) w = (w, some (queue_error (unreadable n)))
deliver out (n, some job) w =
    after_send out job (out.send job) (record w { sent = w.sent ++ job ∷ [] })

-- The loop of `tick`: the last error that a delivery reports stays, and `none` at the front says
-- that the context ended.
unfoldable pub deliver_all :
    Outside
    → ℕ
    → List (String × Option Job)
    → Option Detail
    → Watcher
    → Option (Option Detail) × Watcher
unfolding deliver
deliver_all out i [] failed w = (some failed, w)
deliver_all out i (p ∷ ps) failed w =
    let (next, detail) = deliver out p w in
    let rest = deliver_all out (suc i) ps (elim detail [ none ↦ failed | some d ↦ some d ]) next in
    if out.is_done i then (none, w) else rest

-- The end of `tick`: the state of the node, unless the context has ended.
unfoldable pub report : Option (Option Detail) → Watcher → Watcher
report none w = w
report (some none) w = record w { health = healthy }
report (some (some d)) w = record w { health = degraded d }

-- `tick` after the scan of the queue.
unfoldable pub tick_pending : Outside → List (String × Option Job) → Watcher → Watcher
unfolding deliver_all report
tick_pending out [] w = w
tick_pending out (p ∷ ps) w =
    let (ended, after) = deliver_all out 0 (p ∷ ps) none w in report ended after

unfoldable pub tick : ℕ → Outside → Watcher → Watcher
unfolding prune_delivered pending_jobs tick_pending
tick retention out w =
    let outbox = prune_delivered out.removals out.now retention w.outbox in
    tick_pending out (pending_jobs outbox) (record w { outbox = outbox })
