-- ===== src/Store/JobSteps.antt =====
-- Every transaction on jobs keeps the tables well formed.
use go7_spark_broker.Prelude.{
  ℕ, ◌+◌, ◌≡◌, refl, String, false, not, ◌&&◌, List, [], ◌∷◌, ◌++◌, Option, none, some, inl, inr,
  All_of_not-any, Distinct-append, any, find, count_where, not-any_of_find, Ensures, Bool-cases,
  Option-cases, eqb, Result, ok, err, ◌==◌,
}
use go7_spark_broker.Json.{Json}
use go7_spark_broker.Clock.{Stamp}
use go7_spark_broker.Contract.Types.{Request}
use go7_spark_broker.Store.Tables.{
  JobStatus, Job, Store, StoreError, is_queued, is_terminal, same_id, same_key,
}
use go7_spark_broker.Store.Queue.{has_id, is_claimable, claim_row, claim_next}
use go7_spark_broker.Store.Jobs.{
  has_key, new_job, insert_job, submit, pending_jobs, at_limit, may_defer, defer, insert_event,
  transition, fail, may_finish, finish_cancelled, finish_completed, finish, requeue, bounded_delay,
}
use go7_spark_broker.Store.Cancel.{
  cancel_row, cancel, cancel_queued, request_cancel, interrupt_jobs,
}
use go7_spark_broker.Store.Invariant.{
  IsWellFormed, push_event-IsWellFormed, update_jobs-IsWellFormed,
}

append_job-IsWellFormed :
    (digest : Request → String) (r : Request) (now : Stamp) (job_id : String) (s : Store)
    → find (has_key r.origin r.idempotency_key) s.jobs ≡ none
    → any (has_id job_id) s.jobs ≡ false
    → IsWellFormed s
    → IsWellFormed (record s { jobs = s.jobs ++ (new_job digest r now job_id ∷ []) })
append_job-IsWellFormed digest r now job_id s fresh free w = record {
  jobs = record {
    ids = Distinct-append same_id s.jobs _ w.jobs.ids (All_of_not-any (has_id job_id) s.jobs free);
    keys = Distinct-append same_key s.jobs _ w.jobs.keys (
        All_of_not-any (has_key r.origin r.idempotency_key) s.jobs
          (not-any_of_find (has_key r.origin r.idempotency_key) s.jobs fresh));
  };
  events = w.events;
  leases = w.leases;
}

insert_job-IsWellFormed :
    (digest : Request → String) (r : Request) (limit : Option ℕ) (now : Stamp) (job_id : String)
    (s : Store)
    → find (has_key r.origin r.idempotency_key) s.jobs ≡ none
    → IsWellFormed s
    → Ensures (λ t. IsWellFormed t.0) (insert_job digest r limit now job_id s)
unfolding insert_job
insert_job-IsWellFormed digest r limit now job_id s fresh w =
    elim (Bool-cases (at_limit limit (pending_jobs s))) [
      | inl e ↦ rw e tt
      | inr e ↦ rw e (elim (Bool-cases (any (has_id job_id) s.jobs)) [
        | inl taken ↦ rw taken tt
        | inr free ↦ rw free (
            push_event-IsWellFormed job_id _ _ now _
              (append_job-IsWellFormed digest r now job_id s fresh free w))
      ])
    ]

pub submit-IsWellFormed :
    (digest : Request → String) (r : Request) (limit : Option ℕ) (now : Stamp) (job_id : String)
    (s : Store)
    → IsWellFormed s
    → Ensures (λ t. IsWellFormed t.0) (submit digest r limit now job_id s)
unfolding submit
submit-IsWellFormed digest r limit now job_id s w =
    elim (Option-cases (find (has_key r.origin r.idempotency_key) s.jobs)) [
      | inl fresh ↦ rw (fresh, submit) (insert_job-IsWellFormed digest r limit now job_id s fresh w)
      | inr (old, e) ↦
          rw (e, submit)
            (elim (Bool-cases (old.request_digest == digest r)) [
              | inl same ↦ rw same w
              | inr other ↦ rw other tt
            ])
    ]

claim_row-IsWellFormed :
    (now : Stamp) (s : Store) (row : Option Job)
    → IsWellFormed s
    → IsWellFormed (claim_row now s row).0
unfolding claim_row
claim_row-IsWellFormed now s none w = w
claim_row-IsWellFormed now s (some row) w =
    elim (Bool-cases (eqb (count_where (is_claimable row.id) s.jobs) 1)) [
      | inl e ↦ rw e (
          push_event-IsWellFormed row.id _ _ now _
            (update_jobs-IsWellFormed _ _ (λ j. refl) (λ j. refl) (λ j. refl) s w))
      | inr e ↦ rw e w
    ]

pub claim_next-IsWellFormed :
    (supported : List String) (now : Stamp) (s : Store)
    → IsWellFormed s
    → IsWellFormed (claim_next supported now s).0
unfolding claim_next
claim_next-IsWellFormed [] now s w = w
claim_next-IsWellFormed (c ∷ cs) now s w = claim_row-IsWellFormed now s _ w

pub defer-IsWellFormed :
    (job_id : String) (detail : Json) (delay : ℕ) (now : Stamp) (s : Store)
    → IsWellFormed s
    → IsWellFormed (defer job_id detail delay now s)
unfolding defer
defer-IsWellFormed job_id detail delay now s w =
    let updated =
      update_jobs-IsWellFormed (may_defer job_id) (requeue (now + bounded_delay delay) now)
        (λ j. refl) (λ j. refl) (λ j. refl) s w in
    elim (Bool-cases (any (may_defer job_id) s.jobs)) [
      | inl e ↦ rw e (push_event-IsWellFormed job_id _ _ now _ updated)
      | inr e ↦ rw e updated
    ]

insert_event-IsWellFormed :
    (job_id : String) (status : JobStatus) (detail : Json) (now : Stamp) (s : Store)
    → IsWellFormed s
    → Ensures IsWellFormed (insert_event job_id status detail now s)
unfolding insert_event
insert_event-IsWellFormed job_id status detail now s w =
    elim (Bool-cases (any (has_id job_id) s.jobs)) [
      | inl e ↦ rw e (push_event-IsWellFormed job_id status detail now s w)
      | inr e ↦ rw e tt
    ]

pub transition-IsWellFormed :
    (job_id : String) (status : JobStatus) (detail : Json) (profile : Option String) (now : Stamp)
    (s : Store)
    → IsWellFormed s
    → Ensures IsWellFormed (transition job_id status detail profile now s)
unfolding transition
transition-IsWellFormed job_id status detail profile now s w =
    insert_event-IsWellFormed job_id status detail now _
      (update_jobs-IsWellFormed _ _ (λ j. refl) (λ j. refl) (λ j. refl) s w)

pub fail-IsWellFormed :
    (job_id : String) (error : Json) (status : JobStatus) (now : Stamp) (s : Store)
    → IsWellFormed s
    → Ensures IsWellFormed (fail job_id error status now s)
unfolding fail
fail-IsWellFormed job_id error status now s w =
    insert_event-IsWellFormed job_id status error now _
      (update_jobs-IsWellFormed _ _ (λ j. refl) (λ j. refl) (λ j. refl) s w)

finish_cancelled-IsWellFormed :
    (job_id : String) (now : Stamp) (s : Store) (row : Option Job)
    → IsWellFormed s
    → IsWellFormed (finish_cancelled job_id now s row)
unfolding finish_cancelled
finish_cancelled-IsWellFormed job_id now s none w = w
finish_cancelled-IsWellFormed job_id now s (some row) w =
    elim (Bool-cases (row.cancel_requested && not (is_terminal row.status))) [
      | inl e ↦ rw e (
          push_event-IsWellFormed job_id _ _ now _
            (update_jobs-IsWellFormed _ _ (λ j. refl) (λ j. refl) (λ j. refl) s w))
      | inr e ↦ rw e w
    ]

finish_completed-IsWellFormed :
    (job_id : String) (result : Json) (now : Stamp) (s : Store) (r : Result StoreError ℕ)
    → IsWellFormed s
    → IsWellFormed (finish_completed job_id result now s r).0
unfolding finish_completed
finish_completed-IsWellFormed job_id result now s (ok n) w =
    push_event-IsWellFormed job_id _ _ now _
      (update_jobs-IsWellFormed _ _ (λ j. refl) (λ j. refl) (λ j. refl) s w)
finish_completed-IsWellFormed job_id result now s (err e) w = w

pub finish-IsWellFormed :
    (job_id : String) (result : Json) (now : Stamp) (s : Store)
    → IsWellFormed s
    → IsWellFormed (finish job_id result now s).0
unfolding finish
finish-IsWellFormed job_id result now s w =
    elim (Bool-cases (eqb (count_where (may_finish job_id) s.jobs) 1)) [
      | inl e ↦ rw e (finish_completed-IsWellFormed job_id result now s _ w)
      | inr e ↦ rw e (finish_cancelled-IsWellFormed job_id now s _ w)
    ]

cancel_row-IsWellFormed :
    (job_id : String) (now : Stamp) (s : Store) (row : Job)
    → IsWellFormed s
    → IsWellFormed (cancel_row job_id now s row)
unfolding cancel_row
cancel_row-IsWellFormed job_id now s row w =
    let stopped =
      update_jobs-IsWellFormed (has_id job_id) (cancel_queued now) (λ j. refl) (λ j. refl)
        (λ j. refl) s w in
    let asked =
      update_jobs-IsWellFormed (has_id job_id) (request_cancel now) (λ j. refl) (λ j. refl)
        (λ j. refl) s w in
    elim (Bool-cases (is_queued row.status)) [
      | inl e ↦ rw e (push_event-IsWellFormed job_id _ _ now _ stopped)
      | inr e ↦ rw e (elim (Bool-cases (is_terminal row.status)) [
        | inl over ↦ rw over w
        | inr live ↦ rw live (push_event-IsWellFormed job_id _ _ now _ asked)
      ])
    ]

pub cancel-IsWellFormed :
    (job_id : String) (now : Stamp) (s : Store)
    → IsWellFormed s
    → IsWellFormed (cancel job_id now s).0
unfolding cancel
cancel-IsWellFormed job_id now s w = elim (Option-cases (find (has_id job_id) s.jobs)) [
  | inl e ↦ rw (e, cancel) w
  | inr (row, e) ↦ rw (e, cancel) (cancel_row-IsWellFormed job_id now s row w)
]

pub interrupt_jobs-IsWellFormed :
    (now : Stamp) (ids : List String) (s : Store)
    → IsWellFormed s
    → IsWellFormed (interrupt_jobs now ids s)
unfolding interrupt_jobs
interrupt_jobs-IsWellFormed now [] s w = w
interrupt_jobs-IsWellFormed now (job_id ∷ rest) s w = interrupt_jobs-IsWellFormed now rest _ (
    push_event-IsWellFormed job_id _ _ now _
      (update_jobs-IsWellFormed _ _ (λ j. refl) (λ j. refl) (λ j. refl) s w))
