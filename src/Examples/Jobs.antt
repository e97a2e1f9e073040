-- ===== src/Examples/Jobs.antt =====
-- The queue and the life of a job, at fixed inputs.
use go7_spark_broker.Prelude.{
  ℕ, ◌≤◌, ◌≡◌, ◌≢◌, ◌⊎◌, refl, sym, ◌∙◌, ltb, String, true, false, none, some, List, [], ◌∷◌, arith,
  All, find, Ensures, ok, err,
}
use go7_spark_broker.Json.{text, dict}
use go7_spark_broker.Clock.{rank}
use go7_spark_broker.Clock.Texts.{
  codes_lt, digits, utc_text, IsDate, length-digits, codes_lt-digits, codes_lt-rank,
}
use go7_spark_broker.Store.Tables.{cancelled, Job, Store, init, is_active, is_pending, queue_full}
use go7_spark_broker.Store.Queue.{is_eligible, load, claim_next}
use go7_spark_broker.Store.Jobs.{has_key, submit, pending_jobs, defer, finish}
use go7_spark_broker.Store.Cancel.{get_job, cancel, interrupt_uncertain_jobs}
use go7_spark_broker.Store.Claims.{IsNext, claim_next_lem}
use go7_spark_broker.Store.Invariant.{IsWellFormed}
use go7_spark_broker.Store.Reach.{Step, Reach, reachable-IsWellFormed}
use go7_spark_broker.Store.Cancellation.{IsCancelled, cancel_lem, cancel-finish, cancel-claim_next}
use go7_spark_broker.Store.Final.{Step-final}
use go7_spark_broker.Store.Idempotency.{submit-submit, submit-pending}
use go7_spark_broker.Store.Deferral.{
  IsDue, IsLive, IsWaiting, defer-get_job, defer-cancel_requested,
}
use go7_spark_broker.Store.Restart.{interrupt_uncertain_jobs-none_active}
use go7_spark_broker.Examples.Data.{
  digest, ask, first_job, second_job, running_job, marked_job, ended_job, queued_store,
  running_store, marked_store, ended_store, running_store-IsWellFormed, queued_store-IsWellFormed,
  marked_store-IsWellFormed, ended_store-IsWellFormed,
}

abbrev submitted : Store
unfolding submit
submitted = elim (submit digest (ask "a" 5) none 10 "job_1" init) [ ok t ↦ t.0 | err e ↦ init ]

submission : submit digest (ask "a" 5) none 10 "job_1" init ≡ ok (submitted, first_job, true)
unfolding submit
submission = refl

reachable-IsWellFormed_example : IsWellFormed submitted
reachable-IsWellFormed_example =
    reachable-IsWellFormed digest submitted
      (Reach.next Reach.here (Step.submitted (ask "a" 5) none 10 "job_1" first_job true submission))

claim_next_lem_example :
    ((claim_next ("image" ∷ []) 30 queued_store ≡ (queued_store, none))
      × All (λ k. is_eligible ("image" ∷ []) 30 k ≡ false) queued_store.jobs)
    ⊎ ((row : Job) × IsNext ("image" ∷ []) 30 queued_store.jobs row
        × ((claim_next ("image" ∷ []) 30 queued_store).1 ≡ some (load 30 row)))
claim_next_lem_example =
    claim_next_lem ("image" ∷ []) 30 queued_store queued_store-IsWellFormed.jobs.ids

-- The job of the higher priority is claimed, and nothing where the capability is not supported.
claims_higher : (claim_next ("image" ∷ []) 30 queued_store).1 ≡ some (load 30 second_job)
unfolding claim_next load
claims_higher = refl

claims_none : claim_next ("audio" ∷ []) 30 queued_store ≡ (queued_store, none)
unfolding claim_next
claims_none = refl

found_running : get_job "job_1" running_store ≡ some running_job
unfolding get_job
found_running = refl

cancel-finish_example :
    (j : Job) × (get_job "job_1"
        (finish "job_1" (text "r") 40 (cancel "job_1" 30 running_store).0).0
      ≡ some j)
    × ((finish "job_1" (text "r") 40 (cancel "job_1" 30 running_store).0).1 ≡ ok false)
    × (j.status ≡ cancelled)
    × (j.result ≡ none)
cancel-finish_example =
    cancel-finish "job_1" (text "r") 30 40 running_store running_job running_store-IsWellFormed
      found_running refl

-- Without a cancellation the result is committed.
finishes : (finish "job_1" (text "r") 40 running_store).1 ≡ ok true
unfolding finish
finishes = refl

cancel_lem_example :
    (j : Job) × (get_job "job_1" (cancel "job_1" 30 running_store).0 ≡ some j)
    × ((cancel "job_1" 30 running_store).1 ≡ some j)
    × IsCancelled running_job.status 30 running_job j
    × (j.result ≡ none)
cancel_lem_example = cancel_lem "job_1" 30 running_store running_job found_running

found_first : get_job "job_1" queued_store ≡ some first_job
unfolding get_job
found_first = refl

claims_other :
    (claim_next ("image" ∷ []) 40 (cancel "job_1" 30 queued_store).0).1 ≡ some (load 40 second_job)
unfolding claim_next cancel load
claims_other = refl

cancel-claim_next_example : (load 40 second_job).id ≢ "job_1"
cancel-claim_next_example =
    cancel-claim_next "job_1" 30 40 ("image" ∷ []) queued_store first_job (load 40 second_job)
      queued_store-IsWellFormed found_first claims_other

found_ended : get_job "job_1" ended_store ≡ some ended_job
unfolding get_job
found_ended = refl

Step-final_example : get_job "job_1" (cancel "job_1" 30 ended_store).0 ≡ some ended_job
Step-final_example =
    Step-final {digest = digest} {s = ended_store} {t = (cancel "job_1" 30 ended_store).0}
      (Step.cancelled "job_1" 30) "job_1" ended_job tt ended_store-IsWellFormed found_ended refl

submit-submit_example :
    submit digest (ask "a" 5) (some 0) 99 "job_9" submitted ≡ ok (submitted, first_job, false)
submit-submit_example =
    submit-submit digest (ask "a" 5) (ask "a" 5) none (some 0) 10 99 "job_1" "job_9" init submitted
      first_job true submission refl refl

pending_two : pending_jobs queued_store ≤ 2
unfolding pending_jobs
pending_two = omega arith

submit-pending_example :
    Ensures (λ t. pending_jobs t.0 ≤ 2) (submit digest (ask "c" 5) (some 2) 30 "job_3" queued_store)
    × (find (has_key "hermes" "c") queued_store.jobs ≡ none
        → pending_jobs queued_store ≡ 2
        → submit digest (ask "c" 5) (some 2) 30 "job_3" queued_store ≡ err queue_full)
submit-pending_example = submit-pending digest (ask "c" 5) 2 30 "job_3" queued_store pending_two

defer-get_job_example :
    (IsLive running_job.status
      × (running_job.cancel_requested ≡ false)
      × ((t : ℕ) × (j : Job) × (get_job "job_1" (defer "job_1" (dict []) 2000000 30 running_store)
            ≡ some j)
          × IsDue 2000000 30 t
          × IsWaiting t j
          × (j.attempt ≡ running_job.attempt)))
    ⊎ (((¬ (IsLive running_job.status)) ⊎ (running_job.cancel_requested ≡ true))
        × (get_job "job_1" (defer "job_1" (dict []) 2000000 30 running_store) ≡ some running_job))
defer-get_job_example =
    defer-get_job "job_1" (dict []) 2000000 30 running_store running_job found_running

found_marked : get_job "job_1" marked_store ≡ some marked_job
unfolding get_job
found_marked = refl

defer-cancel_requested_example :
    (defer "job_1" (dict []) 2000000 30 marked_store ≡ marked_store)
    × (is_pending marked_job.status ≡ true)
    × ((supported : List String) (later : ℕ) → is_eligible supported later marked_job ≡ false)
defer-cancel_requested_example =
    defer-cancel_requested "job_1" (dict []) 2000000 30 marked_store marked_job
      marked_store-IsWellFormed found_marked refl refl

interrupt_uncertain_jobs-none_active_example :
    All (λ j. is_active j.status ≡ false) (interrupt_uncertain_jobs 30 running_store).0.jobs
interrupt_uncertain_jobs-none_active_example = interrupt_uncertain_jobs-none_active 30 running_store

interrupts_one : (interrupt_uncertain_jobs 30 running_store).1 ≡ "job_1" ∷ []
unfolding interrupt_uncertain_jobs
interrupts_one = refl

-- The seconds as twelve digits stand for a date.
seconds-IsDate : IsDate (digits 12)
seconds-IsDate = record {
  width = λ a b la lb. length-digits 12 a ∙ sym (length-digits 12 b);
  later = λ a b h l. codes_lt-digits 12 a b h (omega (arith, l));
}

-- An instant on a whole second is before one half a second later, and its text is not.
codes_lt-rank_example :
    codes_lt (utc_text (digits 12) 3000000) (utc_text (digits 12) 3500000)
    ≡ ltb (rank 3000000) (rank 3500000)
codes_lt-rank_example =
    codes_lt-rank (digits 12) seconds-IsDate 3000000 3500000 (omega arith) (omega arith)

stands_behind : codes_lt (utc_text (digits 12) 3000000) (utc_text (digits 12) 3500000) ≡ false
unfolding codes_lt utc_text
stands_behind = refl
