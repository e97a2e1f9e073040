-- ===== src/Store/Cancellation.antt =====
-- What a cancellation does to the rest of a job's life.
use mathlib.Core.Option
use mathlib.Core.Option.{some-injective}
use go7_spark_broker.Prelude.{
  ◌≡◌, ◌≢◌, refl, ap, ◌∙◌, sym, String, true, false, not, ◌&&◌, Option, some, List, arith, inl, inr,
  find, find_of_mem, find-update_where, not-any_and, update_where, count_where-zero, Distinct,
  Bool-cases, ok, eq_iff, if◌then◌else◌,
}
use go7_spark_broker.Json.{Json}
use go7_spark_broker.Clock.{Stamp}
use go7_spark_broker.Store.Tables.{
  JobStatus, queued, loading, running, validating, completed, failed, cancelled, interrupted, Job,
  Store, is_queued, is_active, is_terminal, same_id,
}
use go7_spark_broker.Store.Queue.{has_id, is_eligible, load, claim_next}
use go7_spark_broker.Store.Jobs.{
  set_error, may_finish, finish_cancelled, finish, cancelled_before_commit,
}
use go7_spark_broker.Store.Cancel.{cancel_row, cancel, cancel_queued, request_cancel, get_job}
use go7_spark_broker.Store.Invariant.{IsWellFormed}
use go7_spark_broker.Store.JobSteps.{cancel-IsWellFormed}
use go7_spark_broker.Store.Claims.{claim_next_lem}

-- A job that keeps the id under an update of the rows with that id.
found_updated :
    (job_id : String) (f : Job → Job) (s : Store)
    → ((j : Job) → (f j).id ≡ j.id)
    → find (has_id job_id) (update_where (has_id job_id) f s.jobs)
      ≡ Option.map f (find (has_id job_id) s.jobs)
found_updated job_id f s keep = find-update_where (has_id job_id) f (λ j h. rw keep h) s.jobs

-- What `cancel` makes of a job: a queued one is cancelled, a terminal one stays as it is, and any
-- other keeps its status and is marked.
abbrev pub after_cancel : Stamp → Job → Job
after_cancel now row =
    if is_queued row.status
    then cancel_queued now row
    else if is_terminal row.status
    then row
    else request_cancel now row

get_job-cancel_row :
    (job_id : String) (now : Stamp) (s : Store) (row : Job)
    → find (has_id job_id) s.jobs ≡ some row
    → find (has_id job_id) (cancel_row job_id now s row).jobs ≡ some (after_cancel now row)
unfolding cancel_row
get_job-cancel_row job_id now s row h =
    let stopped = found_updated job_id (cancel_queued now) s (λ j. refl) in
    let asked = found_updated job_id (request_cancel now) s (λ j. refl) in
    elim (Bool-cases (is_queued row.status)) [
      | inl e ↦ rw e (rw h at stopped)
      | inr e ↦ rw e (elim (Bool-cases (is_terminal row.status)) [
        | inl over ↦ rw over h
        | inr live ↦ rw live (rw h at asked)
      ])
    ]

cancel_after :
    (job_id : String) (now : Stamp) (s : Store) (row : Job)
    → get_job job_id s ≡ some row
    → (get_job job_id (cancel job_id now s).0 ≡ some (after_cancel now row))
      × ((cancel job_id now s).1 ≡ some (after_cancel now row))
unfolding get_job cancel
cancel_after job_id now s row h =
    rw (h, cancel) (get_job-cancel_row job_id now s row h, get_job-cancel_row job_id now s row h)

-- What a cancellation makes of a job of each status.
abbrev pub IsCancelled : JobStatus → Stamp → Job → Job → Type 0
IsCancelled queued now row j =
    (j.status ≡ cancelled) × (j.cancel_requested ≡ true) × (j.finished_at ≡ some now)
IsCancelled loading now row j = (j.status ≡ loading) × (j.cancel_requested ≡ true)
IsCancelled running now row j = (j.status ≡ running) × (j.cancel_requested ≡ true)
IsCancelled validating now row j = (j.status ≡ validating) × (j.cancel_requested ≡ true)
IsCancelled completed now row j = j ≡ row
IsCancelled failed now row j = j ≡ row
IsCancelled cancelled now row j = j ≡ row
IsCancelled interrupted now row j = j ≡ row

after_cancel_gives :
    (st : JobStatus) (now : Stamp) (row : Job)
    → row.status ≡ st
    → IsCancelled st now row (after_cancel now row)
after_cancel_gives queued now row e = (ground (arith, e), ground (arith, e), ground (arith, e))
after_cancel_gives loading now row e = (ground (arith, e), ground (arith, e))
after_cancel_gives running now row e = (ground (arith, e), ground (arith, e))
after_cancel_gives validating now row e = (ground (arith, e), ground (arith, e))
after_cancel_gives completed now row e = ground (arith, e)
after_cancel_gives failed now row e = ground (arith, e)
after_cancel_gives cancelled now row e = ground (arith, e)
after_cancel_gives interrupted now row e = ground (arith, e)

result-after_cancel : (now : Stamp) (row : Job) → (after_cancel now row).result ≡ row.result
result-after_cancel now row = ground arith

-- `cancel` of a stored job answers with the job as it is stored after it. A queued job has then the
-- status cancelled and is finished; a loading, running or validating one keeps its status and is asked
-- to be cancelled; a terminal one is as it was. No result is touched.
pub cancel_lem :
    (job_id : String) (now : Stamp) (s : Store) (row : Job)
    → get_job job_id s ≡ some row
    → (j : Job) × (get_job job_id (cancel job_id now s).0 ≡ some j)
      × ((cancel job_id now s).1 ≡ some j)
      × IsCancelled row.status now row j
      × (j.result ≡ row.result)
cancel_lem job_id now s row h =
    let (state, answer) = cancel_after job_id now s row h in
    (_, state, answer, after_cancel_gives row.status now row refl, result-after_cancel now row)

-- `finish` for a job that is active and marked.
one :
    (job_id : String) (j k : Job)
    → has_id job_id j ≡ true
    → has_id job_id k ≡ true
    → same_id j k ≡ true
one job_id j k a b = ground (arith, eq_iff j.id job_id, eq_iff k.id job_id, eq_iff j.id k.id)

live_open : (st : JobStatus) → is_active st ≡ true → is_terminal st ≡ false
live_open st h = ground arith

finish-requested :
    (job_id : String) (result : Json) (now : Stamp) (s : Store) (row : Job)
    → Distinct same_id s.jobs
    → get_job job_id s ≡ some row
    → is_active row.status ≡ true
    → row.cancel_requested ≡ true
    → (get_job job_id (finish job_id result now s).0
        ≡ some (set_error cancelled cancelled_before_commit now row))
      × ((finish job_id result now s).1 ≡ ok false)
unfolding get_job finish finish_cancelled
finish-requested job_id result now s row d h live marked =
    let none_may =
      not-any_and same_id (has_id job_id) (λ j. not j.cancel_requested && is_active j.status)
        (one job_id) s.jobs d h (ground arith) in
    let updated =
      found_updated job_id (set_error cancelled cancelled_before_commit now) s (λ j. refl) in
    let open_lem : (row.cancel_requested && not (is_terminal row.status)) ≡ true =
      ground (arith, live_open row.status live) in
    rw (count_where-zero (may_finish job_id) s.jobs none_may)
      (rw (h, finish_cancelled) (rw open_lem (rw h at updated, refl)))

-- In a well-formed database, if an active job is cancelled and its result is committed next, the
-- cancellation wins: the commit is refused, the job ends cancelled, and its result is what it was
-- before both.
pub cancel-finish :
    (job_id : String) (result : Json) (now later : Stamp) (s : Store) (row : Job)
    → IsWellFormed s
    → get_job job_id s ≡ some row
    → is_active row.status ≡ true
    → (j : Job) × (get_job job_id (finish job_id result later (cancel job_id now s).0).0 ≡ some j)
      × ((finish job_id result later (cancel job_id now s).0).1 ≡ ok false)
      × (j.status ≡ cancelled)
      × (j.result ≡ row.result)
cancel-finish job_id result now later s row w h live =
    let (state, answer) = cancel_after job_id now s row h in
    let marked : (after_cancel now row) ≡ request_cancel now row = ground arith in
    let (ended, refused) =
      finish-requested job_id result later (cancel job_id now s).0 (request_cancel now row)
        (cancel-IsWellFormed job_id now s w).jobs.ids (state ∙ ap some marked) live refl in
    (_, ended, refused, refl, refl)

not_eligible :
    (supported : List String) (later now : Stamp) (row : Job)
    → is_eligible supported later (after_cancel now row) ≡ false
unfolding is_eligible
not_eligible supported later now row = ground arith

-- In a well-formed database, a claim that directly follows a cancellation of a stored job does not
-- return that job, whatever is supported and at whatever time.
pub cancel-claim_next :
    (job_id : String) (now later : Stamp) (supported : List String) (s : Store) (row claimed : Job)
    → IsWellFormed s
    → get_job job_id s ≡ some row
    → (claim_next supported later (cancel job_id now s).0).1 ≡ some claimed
    → claimed.id ≢ job_id
unfolding get_job load
cancel-claim_next job_id now later supported s row claimed w h c e =
    let s1 = (cancel job_id now s).0 in
    let d = (cancel-IsWellFormed job_id now s w).jobs.ids in
    elim (claim_next_lem supported later s1 d) [
      | inl (nothing, _) ↦ absurd (cc (ap (λ (t : Store × Option Job). t.1) nothing))
      | inr (r, n, took) ↦
          let same : r.id ≡ job_id =
            ap (λ (j : Job). j.id) (some-injective _ _ (sym took ∙ c)) ∙ e in
          let found =
            find_of_mem same_id (has_id job_id) (one job_id) s1.jobs d n.stored
              ((eq_iff r.id job_id).1 same) in
          let is_it = some-injective _ _ (sym found ∙ (cancel_after job_id now s row h).0) in
          absurd (
            cc (
              n.eligible,
              ap (is_eligible supported later) is_it,
              not_eligible supported later now row,
            ))
    ]
