-- ===== src/Store/Queue.antt =====
-- The queue: `claim_next`, `peek_next` and `peek_queued` of `Store`.
use go7_spark_broker.Prelude.{
  ℕ, ◌+◌, String, Bool, true, not, ◌&&◌, ◌||◌, Option, none, some, List, [], ◌∷◌, ◌++◌, take, drop,
  select, count_where, update_where, contains, sort_by, first, is_empty, Result, ok, err, ◌>>=◌,
  eqb, ltb, leb, ◌==◌, if◌then◌else◌,
}
use go7_spark_broker.Json.{Json, dict}
use go7_spark_broker.Clock.{Stamp, text_le, text_lt}
use go7_spark_broker.Store.Tables.{
  JobStatus, loading, is_queued, Job, Store, StoreError, value_error,
}

-- INSERT INTO job_events; the job is known to be there
unfoldable pub push_event : String → JobStatus → Json → Stamp → Store → Store
push_event job_id status detail now s = record s {
  events =
      s.events
      ++ (record {
        sequence = s.last_sequence + 1;
        job_id = job_id;
        status = status;
        detail = detail;
        created_at = now;
      }
          ∷ []);
  last_sequence = s.last_sequence + 1;
}

abbrev pub has_id : String → Job → Bool
has_id job_id j = j.id == job_id

-- not_before IS NULL OR not_before<=?
abbrev pub is_due : Stamp → Option Stamp → Bool
is_due now none = true
is_due now (some t) = text_le t now

-- the WHERE clause of `claim_next` and `peek_queued`
unfoldable pub is_eligible : List String → Stamp → Job → Bool
is_eligible supported now j =
    is_queued j.status
    && not j.cancel_requested
    && is_due now j.not_before
    && contains j.capability supported

-- ORDER BY priority DESC, created_at ASC: whether `a` stands before `b`
unfoldable pub goes_before : Job → Job → Bool
goes_before a b =
    ltb b.priority a.priority || (eqb a.priority b.priority && text_lt a.created_at b.created_at)

-- The rows that the SELECT of `claim_next` and `peek_queued` runs through. Rows that the ORDER BY
-- does not tell apart stay in the order of insertion.
unfoldable pub queue : List String → Stamp → List Job → List Job
unfolding is_eligible goes_before sort_by
queue supported now jobs = sort_by goes_before (select (is_eligible supported now) jobs)

-- SET status='loading', not_before=NULL, attempt=attempt+1, started_at=COALESCE(started_at,?), …
abbrev pub started : Stamp → Option Stamp → Option Stamp
started now none = some now
started now (some t) = some t

unfoldable pub load : Stamp → Job → Job
load now j = record j {
  status = loading;
  not_before = none;
  attempt = j.attempt + 1;
  started_at = started now j.started_at;
  updated_at = now;
}

-- WHERE id=? AND status='queued' AND cancel_requested=0
abbrev pub is_claimable : String → Job → Bool
is_claimable job_id j = has_id job_id j && (is_queued j.status && not j.cancel_requested)

unfoldable pub claim_row : Stamp → Store → Option Job → Store × Option Job
unfolding load push_event
claim_row now s none = (s, none)
claim_row now s (some row) =
    if eqb (count_where (is_claimable row.id) s.jobs) 1
    then (
      push_event row.id loading (dict []) now
          (record s { jobs = update_where (is_claimable row.id) (load now) s.jobs }),
      some (load now row),
    )
    else (s, none)

unfoldable pub claim_next : List String → Stamp → Store → Store × Option Job
unfolding claim_row queue
claim_next supported now s =
    if is_empty supported then (s, none) else claim_row now s (first (queue supported now s.jobs))

-- An `offset` of the callers is a count, so the test `offset < 0` cannot pass.
unfoldable pub peek_queued : List String → ℕ → ℕ → Stamp → Store → Result StoreError (List Job)
unfolding queue
peek_queued supported limit offset now s =
    if is_empty supported
    then ok []
    else if leb 1 limit && leb limit 100
    then ok (take limit (drop offset (queue supported now s.jobs)))
    else err value_error

unfoldable pub peek_next : List String → Stamp → Store → Result StoreError (Option Job)
unfolding peek_queued
peek_next supported now s = do values ← peek_queued supported 1 0 now s; ok (first values)
