-- ===== src/Store/Cancel.antt =====
-- `cancel`, `cancel_requested`, `interrupt_uncertain_jobs`, `get_job` and `events` of `Store`.
use go7_spark_broker.Prelude.{
  ℕ, String, Bool, true, false, ◌&&◌, Option, none, some, List, [], ◌∷◌, map, select, find,
  update_where, ltb, ◌==◌, if◌then◌else◌,
}
use go7_spark_broker.Json.{Json, text, boolean, dict}
use go7_spark_broker.Clock.{Stamp}
use go7_spark_broker.Store.Tables.{
  cancelled, interrupted, is_queued, is_active, is_terminal, Job, JobEvent, Store,
}
use go7_spark_broker.Store.Queue.{push_event, has_id}
use go7_spark_broker.Store.Jobs.{set_error}

-- SET status='cancelled',cancel_requested=1,…
abbrev pub cancel_queued : Stamp → Job → Job
cancel_queued now j = record j {
  status = cancelled;
  cancel_requested = true;
  updated_at = now;
  finished_at = some now;
}

-- SET cancel_requested=1,updated_at=?
abbrev pub request_cancel : Stamp → Job → Job
request_cancel now j = record j { cancel_requested = true; updated_at = now }

unfoldable pub cancel_row : String → Stamp → Store → Job → Store
unfolding push_event
cancel_row job_id now s row =
    if is_queued row.status
    then push_event job_id cancelled (dict (("reason", text "cancelled_before_start") ∷ [])) now
        (record s { jobs = update_where (has_id job_id) (cancel_queued now) s.jobs })
    else if is_terminal row.status
    then s
    else push_event job_id row.status (dict (("cancelRequested", boolean true) ∷ [])) now
        (record s { jobs = update_where (has_id job_id) (request_cancel now) s.jobs })

-- The answer is the row after the update, or `none` for an unknown job.
unfoldable pub cancel : String → Stamp → Store → Store × Option Job
unfolding cancel_row
cancel job_id now s = elim (find (has_id job_id) s.jobs) [
  | none ↦ (s, none)
  | some row ↦
      (cancel_row job_id now s row, find (has_id job_id) (cancel_row job_id now s row).jobs)
]

abbrev pub is_requested : Option Job → Bool
is_requested none = false
is_requested (some j) = j.cancel_requested

unfoldable pub cancel_requested : String → Store → Bool
cancel_requested job_id s = is_requested (find (has_id job_id) s.jobs)

unfoldable pub get_job : String → Store → Option Job
get_job job_id s = find (has_id job_id) s.jobs

-- Rows of one job after a sequence number. They are stored in the order of the sequence.
unfoldable pub events : String → ℕ → Store → List JobEvent
events job_id after s = select (λ e. e.job_id == job_id && ltb after e.sequence) s.events

abbrev pub restart_error : Json
restart_error = dict (
    ("code", text "broker_restarted")
    ∷ (
      "message",
      text "broker restarted while job was active; runtime state was not safely reattached",
    )
    ∷ ("retryable", boolean false)
    ∷ [])

-- The body of the loop, for the id of one row.
unfoldable pub interrupt_job : Stamp → String → Store → Store
unfolding push_event
interrupt_job now job_id s =
    push_event job_id interrupted (dict (("reason", text "broker_restart") ∷ [])) now (record s {
      jobs = update_where (has_id job_id) (set_error interrupted restart_error now) s.jobs;
    })

unfoldable pub interrupt_jobs : Stamp → List String → Store → Store
unfolding interrupt_job
interrupt_jobs now [] s = s
interrupt_jobs now (job_id ∷ rest) s = interrupt_jobs now rest (interrupt_job now job_id s)

unfoldable pub uncertain_jobs : Store → List String
uncertain_jobs s = map (λ j. j.id) (select (λ j. is_active j.status) s.jobs)

unfoldable pub interrupt_uncertain_jobs : Stamp → Store → Store × List String
unfolding interrupt_jobs uncertain_jobs
interrupt_uncertain_jobs now s = (interrupt_jobs now (uncertain_jobs s) s, uncertain_jobs s)
