-- ===== src/Store/Idempotency.antt =====
-- `submit`: one job for each origin and idempotency key, and the limit on pending jobs.
use go7_spark_broker.Prelude.{
  ℕ, ◌+◌, ◌≡◌, ◌≤◌, refl, String, Bool, false, Option, none, some, [], ◌∷◌, arith, inl, inr, any,
  find, find-append, count_where-append, Bool-cases, Option-cases, Result, Ensures, Ensures_ok, ok,
  err, ◌==◌, eq_iff, leb, if◌then◌else◌,
}
use go7_spark_broker.Clock.{Stamp}
use go7_spark_broker.Contract.Types.{Request}
use go7_spark_broker.Store.Tables.{
  Job, Store, StoreError, is_pending, queue_full, idempotency_conflict,
}
use go7_spark_broker.Store.Queue.{has_id}
use go7_spark_broker.Store.Jobs.{has_key, new_job, at_limit, pending_jobs, insert_job, submit}

-- What the database holds for the key of `r` after a submission that returned `j`.
record IsStored (digest : Request → String) (r : Request) (s : Store) (j : Job) : Type 0 where
  found : find (has_key r.origin r.idempotency_key) s.jobs ≡ some j
  same_digest : j.request_digest ≡ digest r

module _ (digest : Request → String) (r : Request) (limit : Option ℕ) (now : Stamp)
    (job_id : String) (s : Store) where
  insert_job-IsStored :
      find (has_key r.origin r.idempotency_key) s.jobs ≡ none
      → Ensures (λ t. IsStored digest r t.0 t.1) (insert_job digest r limit now job_id s)
  unfolding insert_job
  insert_job-IsStored fresh = elim (Bool-cases (at_limit limit (pending_jobs s))) [
    | inl e ↦ rw e tt
    | inr e ↦ rw e (elim (Bool-cases (any (has_id job_id) s.jobs)) [
      | inl taken ↦ rw taken tt
      | inr free ↦ rw free (record {
        found =
            find-append (has_key r.origin r.idempotency_key) s.jobs (new_job digest r now job_id)
              fresh
              (ground
                (arith, eq_iff r.origin r.origin, eq_iff r.idempotency_key r.idempotency_key));
        same_digest = refl;
      })
    ])
  ]

  submit-IsStored : Ensures (λ t. IsStored digest r t.0 t.1) (submit digest r limit now job_id s)
  unfolding submit
  submit-IsStored = elim (Option-cases (find (has_key r.origin r.idempotency_key) s.jobs)) [
    | inl fresh ↦ rw (fresh, submit) (insert_job-IsStored fresh)
    | inr (old, e) ↦
        rw (e, submit)
          (elim (Bool-cases (old.request_digest == digest r)) [
            | inl same ↦ rw same (record { found = e; same_digest = (eq_iff _ _).0 same })
            | inr other ↦ rw other tt
          ])
  ]

-- After a submission that returned a job, a further one on that database with the same origin and
-- key answers with that job and changes nothing, whatever its limit, if the digests agree, and is
-- refused as a conflict if they differ.
pub submit-submit :
    (digest : Request → String) (r r' : Request) (limit limit' : Option ℕ) (now now' : Stamp)
    (job_id job_id' : String) (s s' : Store) (j : Job) (b : Bool)
    → submit digest r limit now job_id s ≡ ok (s', j, b)
    → r'.origin ≡ r.origin
    → r'.idempotency_key ≡ r.idempotency_key
    → submit digest r' limit' now' job_id' s'
      ≡ (if digest r == digest r' then ok (s', j, false) else err idempotency_conflict)
unfolding submit
submit-submit digest r r' limit limit' now now' job_id job_id' s s' j b h same_origin same_key =
    let st =
      Ensures_ok (λ t. IsStored digest r t.0 t.1) _ (submit-IsStored digest r limit now job_id s)
        h in
    rw (same_origin, same_key) (rw (st.found, submit) (rw st.same_digest refl))

insert_job-pending :
    (digest : Request → String) (r : Request) (n : ℕ) (now : Stamp) (job_id : String) (s : Store)
    → Ensures
        (λ t. (pending_jobs t.0 ≡ pending_jobs s + 1) × (pending_jobs t.0 ≤ n))
        (insert_job digest r (some n) now job_id s)
unfolding insert_job
insert_job-pending digest r n now job_id s = elim (Bool-cases (leb n (pending_jobs s))) [
  | inl e ↦ rw e tt
  | inr e ↦ rw e (elim (Bool-cases (any (has_id job_id) s.jobs)) [
    | inl taken ↦ rw taken tt
    | inr free ↦
        let grown =
          count_where-append (λ (j : Job). is_pending j.status) s.jobs
            (new_job digest r now job_id ∷ []) in
        rw free (grown, ground (arith, grown))
  ])
]

-- A limit on pending jobs that holds before a submission holds after it, and a submission with a
-- new key is refused as queue full where the pending jobs are at the limit.
pub submit-pending :
    (digest : Request → String) (r : Request) (n : ℕ) (now : Stamp) (job_id : String) (s : Store)
    → pending_jobs s ≤ n
    → Ensures (λ t. pending_jobs t.0 ≤ n) (submit digest r (some n) now job_id s)
      × (find (has_key r.origin r.idempotency_key) s.jobs ≡ none
          → pending_jobs s ≡ n
          → submit digest r (some n) now job_id s ≡ err queue_full)
unfolding submit
submit-pending digest r n now job_id s h = (keeps, λ fresh full. rw (fresh, submit) (refused full))
  where
    refused : pending_jobs s ≡ n → insert_job digest r (some n) now job_id s ≡ err queue_full
    refused full = unfold insert_job in ground arith

    from :
        (o : Result StoreError (Store × Job × Bool))
        → Ensures (λ t. (pending_jobs t.0 ≡ pending_jobs s + 1) × (pending_jobs t.0 ≤ n)) o
        → Ensures (λ t. pending_jobs t.0 ≤ n) o
    from (ok t) e = e.1
    from (err e) _ = tt

    keeps : Ensures (λ t. pending_jobs t.0 ≤ n) (submit digest r (some n) now job_id s)
    keeps = elim (Option-cases (find (has_key r.origin r.idempotency_key) s.jobs)) [
      | inl fresh ↦ rw (fresh, submit) (from _ (insert_job-pending digest r n now job_id s))
      | inr (old, e) ↦
          rw (e, submit)
            (elim (Bool-cases (old.request_digest == digest r)) [
              | inl same ↦ rw same h
              | inr other ↦ rw other tt
            ])
    ]
