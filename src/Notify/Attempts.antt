-- ===== src/Notify/Attempts.antt =====
-- How often a job is tried.
use mirabilis.Base.{
  ℕ, suc, ◌+◌, ◌≤◌, ◌<◌, String, Bool, true, false, ◌≡◌, ◌≢◌, ◌⊎◌, inl, inr, Option, none, some,
  is_some, List, [], ◌∷◌, ◌++◌, arith, lookup, insert, lookup-insert, lookup-delete, eq_iff, All,
  length, Bool-cases,
}
use mirabilis.Text.{Text}
use mirabilis.Notify.Queue.{Job, JobStatus, Outbox, write_status, prune_delivered, pending_jobs}
use mirabilis.Notify.Watcher.{
  SendError, Detail, Outside, Watcher, count_of, inc, close_job, after_send, report, tick_pending,
  deliver, deliver_all, tick,
}

-- No job that is still open has been tried three times.
abbrev pub IsCounted : Watcher → Type 0
IsCounted w = (n : String) → count_of n w.seen < 3

close_job-IsCounted :
    (out : Outside) (job : Job) (e : Option SendError) (w : Watcher)
    → ((n : String) → n ≢ job.id → count_of n w.seen < 3)
    → IsCounted (close_job out job e w).0
unfolding close_job
close_job-IsCounted out job e w h n =
    ground (arith, h n, lookup-delete job.id n w.seen, eq_iff job.id n)

-- The watcher when a failed send of the job has been counted.
abbrev counted : Job → Watcher → Watcher
counted job w = record w { seen = insert job.id (suc (count_of job.id w.seen)) w.seen }

counted-others :
    (job : Job) (w : Watcher) (n : String)
    → IsCounted w
    → n ≢ job.id
    → count_of n (counted job w).seen < 3
counted-others job w n h apart = ground (
  arith,
  h n,
  apart,
  lookup-insert job.id n (suc (count_of job.id w.seen)) w.seen,
  eq_iff job.id n,
)

after_send-IsCounted :
    (out : Outside) (job : Job) (e : Option SendError) (w : Watcher)
    → IsCounted w
    → IsCounted (after_send out job e w).0
unfolding after_send inc
after_send-IsCounted out job none w h n = close_job-IsCounted out job none w (λ k _. h k) n
after_send-IsCounted out job (some e) w h n = ground (
  arith,
  h n,
  lookup-insert job.id n (suc (count_of job.id w.seen)) w.seen,
  close_job-IsCounted out job (some e) (counted job w) (λ k. counted-others job w k h) n,
)

deliver-IsCounted :
    (out : Outside) (p : String × Option Job) (w : Watcher)
    → IsCounted w
    → IsCounted (deliver out p w).0
unfolding deliver
deliver-IsCounted out (m, none) w h = h
deliver-IsCounted out (m, some job) w h =
    after_send-IsCounted out job (out.send job) (record w { sent = w.sent ++ job ∷ [] }) h

deliver_all-IsCounted :
    (out : Outside) (i : ℕ) (ps : List (String × Option Job)) (failed : Option Detail) (w : Watcher)
    → IsCounted w
    → IsCounted (deliver_all out i ps failed w).1
unfolding deliver_all
deliver_all-IsCounted out i [] failed w h = h
deliver_all-IsCounted out i (p ∷ ps) failed w h = elim (Bool-cases (out.is_done i)) [
  | inl e ↦ rw e h
  | inr e ↦
      rw e
        (deliver_all-IsCounted out (suc i) ps _ (deliver out p w).0 (deliver-IsCounted out p w h))
]

report-IsCounted :
    (ended : Option (Option Detail)) (w : Watcher) → IsCounted w → IsCounted (report ended w)
unfolding report
report-IsCounted none w h = h
report-IsCounted (some none) w h = h
report-IsCounted (some (some d)) w h = h

tick_pending-IsCounted :
    (out : Outside) (ps : List (String × Option Job)) (w : Watcher)
    → IsCounted w
    → IsCounted (tick_pending out ps w)
unfolding tick_pending
tick_pending-IsCounted out [] w h = h
tick_pending-IsCounted out (p ∷ ps) w h =
    let (ended, after) = deliver_all out 0 (p ∷ ps) none w in
    report-IsCounted ended after (deliver_all-IsCounted out 0 (p ∷ ps) none w h)

-- Whatever the outside does in a tick, a counter that is kept stays below three.
pub tick-IsCounted :
    (retention : ℕ) (out : Outside) (w : Watcher) → IsCounted w → IsCounted (tick retention out w)
unfolding tick
tick-IsCounted retention out w h =
    let outbox = prune_delivered out.removals out.now retention w.outbox in
    tick_pending-IsCounted out (pending_jobs outbox) (record w { outbox = outbox }) h

-- The deliveries of one job, one after another.
abbrev pub deliveries : List Outside → String × Option Job → Watcher → Watcher
deliveries [] p w = w
deliveries (out ∷ outs) p w = deliveries outs p (deliver out p w).0

-- A status has been written for the job.
abbrev pub has_status : Job → Watcher → Bool
has_status job w = is_some (lookup job.id w.outbox.statuses)

write_status-found :
    (failing : Option Text) (st : JobStatus) (o : Outbox)
    → st.id ≢ ""
    → failing ≡ none
    → is_some (lookup st.id (write_status failing st o).0.statuses) ≡ true
unfolding write_status
write_status-found failing st o named written = ground (
  arith,
  named,
  written,
  eq_iff st.id "",
  eq_iff st.id st.id,
  lookup-insert st.id st.id st o.statuses,
)

abbrev status_of : Outside → Job → Option SendError → JobStatus
status_of out job e = record {
  id = job.id;
  is_sent = elim e [ none ↦ true | some x ↦ false ];
  error = elim e [ none ↦ [] | some x ↦ x.text ];
  written = out.now;
}

has_status-close_job :
    (out : Outside) (job : Job) (e : Option SendError) (w : Watcher)
    → job.id ≢ ""
    → out.write_error job.id ≡ none
    → has_status job (close_job out job e w).0 ≡ true
unfolding close_job
has_status-close_job out job e w named written = ground (
  arith,
  write_status-found (out.write_error job.id) (status_of out job e) w.outbox named written,
)

-- A delivery of a readable job writes its status, or counts a try and leaves the job open.
abbrev Progress : Job → Watcher → Watcher → Type 0
Progress job w after =
    (has_status job after ≡ true)
    ⊎ ((has_status job after ≡ has_status job w)
        × (count_of job.id after.seen ≡ suc (count_of job.id w.seen)))

after_send-Progress :
    (out : Outside) (job : Job) (e : Option SendError) (w : Watcher)
    → job.id ≢ ""
    → out.write_error job.id ≡ none
    → Progress job w (after_send out job e w).0
unfolding after_send inc
after_send-Progress out job none w named written =
    inl (has_status-close_job out job none w named written)
after_send-Progress out job (some e) w named written = ground (
  arith,
  has_status-close_job out job (some e) (counted job w) named written,
  lookup-insert job.id job.id (suc (count_of job.id w.seen)) w.seen,
  eq_iff job.id job.id,
)

deliver-Progress :
    (out : Outside) (n : String) (job : Job) (w : Watcher)
    → job.id ≢ ""
    → out.write_error job.id ≡ none
    → Progress job w (deliver out (n, some job) w).0
unfolding deliver
deliver-Progress out n job w named written =
    after_send-Progress out job (out.send job) (record w { sent = w.sent ++ job ∷ [] }) named
      written

-- Every status that is written stays.
deliveries-settle :
    (outs : List Outside) (n : String) (job : Job) (w : Watcher)
    → job.id ≢ ""
    → All (λ (out : Outside). out.write_error job.id ≡ none) outs
    → IsCounted w
    → (has_status job w ≡ true) ⊎ (3 ≤ count_of job.id w.seen + length outs)
    → has_status job (deliveries outs (n, some job) w) ≡ true
deliveries-settle [] n job w named written h near = ground (arith, h job.id, near)
deliveries-settle (out ∷ outs) n job w named written h near =
    deliveries-settle outs n job (deliver out (n, some job) w).0 named written.1
      (deliver-IsCounted out (n, some job) w h)
      (ground (arith, near, deliver-Progress out n job w named written.0))

-- A job that can be read, that has a name and whose status can be written, in a watcher whose
-- counters are below three, is settled after three deliveries at most, whatever the sends answer:
-- further deliveries leave it with a status.
pub deliveries-three :
    (outs : List Outside) (n : String) (job : Job) (w : Watcher)
    → job.id ≢ ""
    → All (λ (out : Outside). out.write_error job.id ≡ none) outs
    → IsCounted w
    → 3 ≤ length outs
    → has_status job (deliveries outs (n, some job) w) ≡ true
deliveries-three outs n job w named written h enough =
    deliveries-settle outs n job w named written h (inr (omega (arith, enough)))
