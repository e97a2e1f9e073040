-- ===== src/Store/Jobs.antt =====
-- The life of a job in `Store`: `submit`, `defer`, `transition`, `finish`, `fail`, `cancel`,
-- `interrupt_uncertain_jobs`, and the reads `get_job`, `events` and `cancel_requested`.
use go7_spark_broker.Prelude.{
  ℕ, ◌+◌, String, Bool, true, false, not, ◌&&◌, Option, none, some, [], ◌∷◌, ◌++◌, find,
  count_where, update_where, any, length, Result, ok, err, ltb, leb, eqb, ◌==◌, if◌then◌else◌,
}
use go7_spark_broker.Json.{
  Json, text, boolean, int, pos, array, object, dict, get, with_field, items, entries,
}
use go7_spark_broker.Text.{size}
use go7_spark_broker.Clock.{Stamp}
use go7_spark_broker.Contract.Types.{Request}
use go7_spark_broker.Store.Tables.{
  JobStatus, queued, loading, running, completed, cancelled, is_active, is_pending, is_terminal,
  Job, Store, StoreError, idempotency_conflict, queue_full, integrity_error, type_error,
}
use go7_spark_broker.Store.Queue.{push_event, has_id}

-- WHERE origin=? AND idempotency_key=?
abbrev pub has_key : String → String → Job → Bool
has_key origin key j = j.origin == origin && j.idempotency_key == key

abbrev pub new_job : (Request → String) → Request → Stamp → String → Job
new_job digest request now job_id = record {
  id = job_id;
  origin = request.origin;
  idempotency_key = request.idempotency_key;
  request_id = request.request_id;
  trace_id = request.trace_id;
  capability = request.capability;
  priority = request.priority;
  status = queued;
  request_digest = digest request;
  request = request;
  result = none;
  error = none;
  profile_id = none;
  cancel_requested = false;
  attempt = 0;
  created_at = now;
  updated_at = now;
  started_at = none;
  finished_at = none;
  not_before = none;
}

abbrev pub at_limit : Option ℕ → ℕ → Bool
at_limit none pending = false
at_limit (some limit) pending = leb limit pending

unfoldable pub pending_jobs : Store → ℕ
pending_jobs s = count_where (λ j. is_pending j.status) s.jobs

-- The part of `submit` after the look-up of the idempotency key. `job_id` is the new
-- `job_<uuid4>`; PRIMARY KEY refuses one that is taken.
unfoldable pub insert_job :
    (Request → String)
    → Request
    → Option ℕ
    → Stamp
    → String
    → Store
    → Result StoreError (Store × Job × Bool)
unfolding pending_jobs push_event
insert_job digest request max_pending now job_id s =
    if at_limit max_pending (pending_jobs s)
    then err queue_full
    else if any (has_id job_id) s.jobs
    then err integrity_error
    else ok (
      push_event job_id queued (dict []) now
          (record s { jobs = s.jobs ++ (new_job digest request now job_id ∷ []) }),
      new_job digest request now job_id,
      true,
    )

abbrev pub answer_existing : String → Store → Job → Result StoreError (Store × Job × Bool)
answer_existing digest s existing =
    if existing.request_digest == digest then ok (s, existing, false) else err idempotency_conflict

-- `digest` is `request_digest` of contract.py, SHA-256 over the canonical JSON of the request.
unfoldable pub submit :
    (Request → String)
    → Request
    → Option ℕ
    → Stamp
    → String
    → Store
    → Result StoreError (Store × Job × Bool)
unfolding insert_job
submit digest request max_pending now job_id s =
    elim (find (has_key request.origin request.idempotency_key) s.jobs) [
      | some existing ↦ answer_existing (digest request) s existing
      | none ↦ insert_job digest request max_pending now job_id s
    ]

-- status IN ('loading','running')
abbrev pub is_deferrable : JobStatus → Bool
is_deferrable loading = true
is_deferrable running = true
is_deferrable _ = false

-- max(0.1, min(delay_seconds, 300)), in microseconds
abbrev pub bounded_delay : ℕ → ℕ
bounded_delay delay =
    let capped = if ltb 300000000 delay then 300000000 else delay in
    if ltb capped 100000 then 100000 else capped

abbrev pub requeue : Stamp → Stamp → Job → Job
requeue not_before now j = record j {
  status = queued;
  not_before = some not_before;
  updated_at = now;
}

abbrev pub may_defer : String → Job → Bool
may_defer job_id j = has_id job_id j && (is_deferrable j.status && not j.cancel_requested)

-- `detail` is an object; the event adds "phase" to it.
unfoldable pub defer : String → Json → ℕ → Stamp → Store → Store
unfolding push_event
defer job_id detail delay now s =
    let s' = record s {
      jobs = update_where (may_defer job_id) (requeue (now + bounded_delay delay) now) s.jobs;
    } in
    if any (may_defer job_id) s.jobs
    then push_event job_id queued (with_field "phase" (text "admission_wait") detail) now s'
    else s'

-- COALESCE(?, column)
abbrev pub coalesce {ℓ} : {A : Type ℓ} → Option A → Option A → Option A
coalesce none old = old
coalesce (some a) old = some a

abbrev pub set_status : JobStatus → Option String → Stamp → Job → Job
set_status status profile_id now j = record j {
  status = status;
  profile_id = coalesce profile_id j.profile_id;
  updated_at = now;
  finished_at = if is_terminal status then some now else j.finished_at;
}

-- The event refers to the job: without the job the foreign key refuses it, and the transaction is
-- rolled back.
unfoldable pub insert_event : String → JobStatus → Json → Stamp → Store → Result StoreError Store
unfolding push_event
insert_event job_id status detail now s =
    if any (has_id job_id) s.jobs
    then ok (push_event job_id status detail now s)
    else err integrity_error

unfoldable pub transition :
    String → JobStatus → Json → Option String → Stamp → Store → Result StoreError Store
unfolding insert_event
transition job_id status detail profile_id now s =
    insert_event job_id status detail now
      (record s { jobs = update_where (has_id job_id) (set_status status profile_id now) s.jobs })

abbrev pub set_error : JobStatus → Json → Stamp → Job → Job
set_error status error now j = record j {
  status = status;
  error = some error;
  updated_at = now;
  finished_at = some now;
}

unfoldable pub fail : String → Json → JobStatus → Stamp → Store → Result StoreError Store
unfolding insert_event
fail job_id error status now s =
    insert_event job_id status error now
      (record s { jobs = update_where (has_id job_id) (set_error status error now) s.jobs })

abbrev pub set_result : Json → Stamp → Job → Job
set_result result now j = record j {
  status = completed;
  result = some result;
  error = none;
  updated_at = now;
  finished_at = some now;
}

abbrev pub may_finish : String → Job → Bool
may_finish job_id j = has_id job_id j && (not j.cancel_requested && is_active j.status)

abbrev pub cancelled_before_commit : Json
cancelled_before_commit = dict (
    ("code", text "cancelled")
    ∷ ("message", text "job was cancelled before completion committed")
    ∷ ("retryable", boolean false)
    ∷ [])

-- The branch of `finish` where no row was updated.
unfoldable pub finish_cancelled : String → Stamp → Store → Option Job → Store
unfolding push_event
finish_cancelled job_id now s none = s
finish_cancelled job_id now s (some row) =
    if row.cancel_requested && not (is_terminal row.status)
    then push_event job_id cancelled cancelled_before_commit now (record s {
      jobs = update_where (has_id job_id) (set_error cancelled cancelled_before_commit now) s.jobs;
    })
    else s

-- len(result.get("artifacts", []))
abbrev pub artifact_count : Option Json → Result StoreError ℕ
artifact_count none = ok 0
artifact_count (some (array xs)) = ok (length (items xs))
artifact_count (some (object f)) = ok (length (entries f))
artifact_count (some (text t)) = ok (size t)
artifact_count (some _) = err type_error

-- The event behind the update; where the count raises, the transaction is rolled back.
unfoldable pub finish_completed :
    String → Json → Stamp → Store → Result StoreError ℕ → Store × Result StoreError Bool
unfolding push_event
finish_completed job_id result now s (ok n) = (
  push_event job_id completed (dict (("artifactCount", int (pos n)) ∷ [])) now
      (record s { jobs = update_where (may_finish job_id) (set_result result now) s.jobs }),
  ok true,
)
finish_completed job_id result now s (err e) = (s, err e)

unfoldable pub finish : String → Json → Stamp → Store → Store × Result StoreError Bool
unfolding finish_cancelled finish_completed
finish job_id result now s =
    if eqb (count_where (may_finish job_id) s.jobs) 1
    then finish_completed job_id result now s (artifact_count (get "artifacts" result))
    else (finish_cancelled job_id now s (find (has_id job_id) s.jobs), ok false)

-- What a caller of `finish` sees that does not look at its answer.
abbrev pub settled : Store × Result StoreError Bool → Result StoreError Store
settled (s, ok b) = ok s
settled (s, err e) = err e
