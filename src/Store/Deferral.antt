-- ===== src/Store/Deferral.antt =====
-- What `defer` does to its job: it goes back to the queue, unless it was asked to be cancelled.
use go7_spark_broker.Prelude.{
  ℕ, ◌+◌, ◌≡◌, ap, ◌∙◌, ◌≤◌, ◌<◌, ◌⊎◌, refl, String, true, false, not, ◌&&◌, some, List, arith, inl,
  inr, any, not-any_and, find-update_and, update_where_none, Bool-cases, eq_iff, contains,
  if◌then◌else◌,
}
use go7_spark_broker.Json.{Json}
use go7_spark_broker.Clock.{Stamp, second}
use go7_spark_broker.Store.Tables.{
  JobStatus, queued, loading, running, Job, Store, is_pending, same_id,
}
use go7_spark_broker.Store.Queue.{has_id, is_eligible}
use go7_spark_broker.Store.Jobs.{is_deferrable, may_defer, requeue, bounded_delay, defer}
use go7_spark_broker.Store.Cancel.{get_job}
use go7_spark_broker.Store.Invariant.{IsWellFormed}

one :
    (job_id : String) (j k : Job)
    → has_id job_id j ≡ true
    → has_id job_id k ≡ true
    → same_id j k ≡ true
one job_id j k a b = ground (arith, eq_iff j.id job_id, eq_iff k.id job_id, eq_iff j.id k.id)

pending : (st : JobStatus) → is_deferrable st ≡ true → is_pending st ≡ true
pending st h = ground arith

deferred_row :
    (job_id : String) (detail : Json) (delay : ℕ) (now : Stamp) (s : Store) (row : Job)
    → get_job job_id s ≡ some row
    → get_job job_id (defer job_id detail delay now s)
      ≡ some (
          if is_deferrable row.status && not row.cancel_requested
          then requeue (now + bounded_delay delay) now row
          else row)
unfolding get_job defer
deferred_row job_id detail delay now s row h =
    let u =
      find-update_and same_id (has_id job_id)
        (λ j. is_deferrable j.status && not j.cancel_requested) (one job_id)
        (requeue (now + bounded_delay delay) now) (λ x. refl) s.jobs h in
    elim (Bool-cases (any (may_defer job_id) s.jobs)) [ inl e ↦ rw e u | inr e ↦ rw e u ]

-- The time of the next attempt: the delay is kept between a tenth of a second and five minutes.
abbrev pub IsDue : ℕ → Stamp → Stamp → Type 0
IsDue delay now t =
    ((delay < 100000) × (t ≡ now + 100000))
    ⊎ (((100000 ≤ delay) × (delay ≤ 300000000) × (t ≡ now + delay))
        ⊎ ((300000000 < delay) × (t ≡ now + 300000000)))

-- A queued job that waits until `t`: no claim may take it more than a second before, and from a second
-- behind it every claim that supports its capability may.
pub record IsWaiting (t : Stamp) (j : Job) : Type 0 where
  pub is_queued : j.status ≡ queued
  pub waits : j.not_before ≡ some t
  pub early :
      (supported : List String) (now : Stamp)
      → now + second < t
      → is_eligible supported now j ≡ false
  pub late :
      (supported : List String) (now : Stamp)
      → t + second ≤ now
      → is_eligible supported now j ≡ contains j.capability supported

-- The statuses that a deferral takes up.
abbrev pub IsLive : JobStatus → Type 0
IsLive st = (st ≡ loading) ⊎ (st ≡ running)

deferrable_or_not :
    (st : JobStatus)
    → ((is_deferrable st ≡ true) × IsLive st) ⊎ ((is_deferrable st ≡ false) × (¬ (IsLive st)))
deferrable_or_not st = ground arith

waiting :
    (t now : Stamp) (row : Job) → row.cancel_requested ≡ false → IsWaiting t (requeue t now row)
unfolding is_eligible
waiting t now row h = record {
  is_queued = refl;
  waits = refl;
  early = λ supported later e. ground (arith, h, e);
  late = λ supported later e. ground (arith, h, e);
}

due : (delay : ℕ) (now : Stamp) → IsDue delay now (now + bounded_delay delay)
due delay now = ground arith

-- A deferral of a stored job: one that is loading or running and not asked to be cancelled waits in the
-- queue, for the delay, but for a tenth of a second at least and five minutes at most; any other is as it
-- was.
pub defer-get_job :
    (job_id : String) (detail : Json) (delay : ℕ) (now : Stamp) (s : Store) (row : Job)
    → get_job job_id s ≡ some row
    → (IsLive row.status
        × (row.cancel_requested ≡ false)
        × ((t : Stamp) × (j : Job) × (get_job job_id (defer job_id detail delay now s) ≡ some j)
            × IsDue delay now t
            × IsWaiting t j
            × (j.attempt ≡ row.attempt)))
      ⊎ (((¬ (IsLive row.status)) ⊎ (row.cancel_requested ≡ true))
          × (get_job job_id (defer job_id detail delay now s) ≡ some row))
defer-get_job job_id detail delay now s row h =
    let state = deferred_row job_id detail delay now s row h in
    elim (deferrable_or_not row.status) [
      | inr (e, dead) ↦ inr (inl dead, state ∙ ap some (ground (arith, e)))
      | inl (e, live) ↦ elim (Bool-cases row.cancel_requested) [
        | inl marked ↦ inr (inr marked, state ∙ ap some (ground (arith, e, marked)))
        | inr clear ↦ inl (
          live,
          clear,
          (
            now + bounded_delay delay,
            requeue (now + bounded_delay delay) now row,
            state ∙ ap some (ground (arith, e, clear)),
            due delay now,
            waiting (now + bounded_delay delay) now row clear,
            refl,
          ),
        )
      ]
    ]

-- In a well-formed database, a deferral of a loading or running job that was asked to be cancelled
-- changes nothing: the job stays pending, and it is not eligible for any claim.
pub defer-cancel_requested :
    (job_id : String) (detail : Json) (delay : ℕ) (now : Stamp) (s : Store) (row : Job)
    → IsWellFormed s
    → get_job job_id s ≡ some row
    → is_deferrable row.status ≡ true
    → row.cancel_requested ≡ true
    → (defer job_id detail delay now s ≡ s)
      × (is_pending row.status ≡ true)
      × ((supported : List String) (later : Stamp) → is_eligible supported later row ≡ false)
unfolding get_job defer is_eligible
defer-cancel_requested job_id detail delay now s row w h live marked =
    let stuck =
      not-any_and same_id (has_id job_id) (λ j. is_deferrable j.status && not j.cancel_requested)
        (one job_id) s.jobs w.jobs.ids h (ground arith) in
    (
      rw (
        stuck,
        update_where_none (may_defer job_id) (requeue (now + bounded_delay delay) now) s.jobs stuck,
      ),
      pending row.status live,
      λ supported later. ground arith,
    )
