-- ===== src/Store/Terminal.antt =====
-- A job that has ended stays as it ended, under every method that tests the status.
use mathlib.Core.List.{Memᴰ}
use mathlib.Core.Option.{some-injective}
use go7_spark_broker.Prelude.{
  ℕ, ◌+◌, ◌≡◌, refl, ap, ◌∙◌, sym, String, Bool, true, false, not, ◌&&◌, Option, none, some, List,
  [], ◌∷◌, arith, inl, inr, All, select-mem, any, find, find-append_some, find_holds, find_of_mem,
  find-update_ne, update_where, count_where, Distinct, Bool-cases, Option-cases, Ensures, eqb, map,
  Result, ok, err, ◌==◌, eq_iff,
}
use go7_spark_broker.Json.{Json}
use go7_spark_broker.Clock.{Stamp}
use go7_spark_broker.Contract.Types.{Request}
use go7_spark_broker.Store.Tables.{
  JobStatus, Job, Store, StoreError, is_queued, is_active, is_terminal, same_id,
}
use go7_spark_broker.Store.Queue.{has_id, load, is_claimable, claim_row, claim_next}
use go7_spark_broker.Store.Jobs.{
  has_key, insert_job, submit, at_limit, pending_jobs, set_result, may_finish, finish_cancelled,
  finish_completed, finish, may_defer, requeue, bounded_delay, defer,
}
use go7_spark_broker.Store.Cancel.{
  cancel_row, cancel, interrupt_job, interrupt_jobs, interrupt_uncertain_jobs,
}
use go7_spark_broker.Store.Invariant.{IsWellFormed}
use go7_spark_broker.Store.Reach.{Step}

-- The steps of the methods that test the status before they write: all but `transition` and `fail`.
abbrev pub IsGuarded : {digest : Request → String} {s t : Store} → Step digest s t → Type 0
IsGuarded (Step.moved job_id status detail profile now e) = ⊥
IsGuarded (Step.failed job_id error status now e) = ⊥
IsGuarded _ = Unit

live_open : (st : JobStatus) → is_active st ≡ true → is_terminal st ≡ false
live_open st h = ground arith

module _ (i : String) (j : Job) (over : is_terminal j.status ≡ true) where
  abbrev pub Kept : Store → Type 0
  Kept s = find (has_id i) s.jobs ≡ some j

  Kept-update :
      (u : Job → Bool) (f : Job → Job) (s : Store)
      → ((k : Job) → (f k).id ≡ k.id)
      → u j ≡ false
      → Kept s
      → find (has_id i) (update_where u f s.jobs) ≡ some j
  Kept-update u f s keep n k = find-update_ne (has_id i) u f (λ x. rw keep refl) s.jobs k n

  pub submit-Kept :
      (digest : Request → String) (r : Request) (limit : Option ℕ) (now : Stamp) (job_id : String)
      (s : Store)
      → Kept s
      → Ensures (λ t. Kept t.0) (submit digest r limit now job_id s)
  unfolding submit insert_job
  submit-Kept digest r limit now job_id s k =
      elim (Option-cases (find (has_key r.origin r.idempotency_key) s.jobs)) [
        | inl e ↦
            rw (e, submit)
              (elim (Bool-cases (at_limit limit (pending_jobs s))) [
                | inl full ↦ rw (full, insert_job) tt
                | inr room ↦
                    rw (room, insert_job)
                      (elim (Bool-cases (any (has_id job_id) s.jobs)) [
                        | inl taken ↦ rw taken tt
                        | inr free ↦ rw free (find-append_some (has_id i) s.jobs _ k)
                      ])
              ])
        | inr (old, e) ↦
            rw (e, submit)
              (elim (Bool-cases (old.request_digest == digest r)) [
                | inl same ↦ rw same k
                | inr other ↦ rw other tt
              ])
      ]

  claim_row-Kept :
      (now : Stamp) (s : Store) (row : Option Job) → Kept s → Kept (claim_row now s row).0
  unfolding claim_row
  claim_row-Kept now s none k = k
  claim_row-Kept now s (some row) k =
      elim (Bool-cases (eqb (count_where (is_claimable row.id) s.jobs) 1)) [
        | inl e ↦ rw e (Kept-update (is_claimable row.id) (load now) s (λ x. refl) (ground arith) k)
        | inr e ↦ rw e k
      ]

  pub claim_next-Kept :
      (supported : List String) (now : Stamp) (s : Store)
      → Kept s
      → Kept (claim_next supported now s).0
  unfolding claim_next
  claim_next-Kept [] now s k = k
  claim_next-Kept (c ∷ cs) now s k = claim_row-Kept now s _ k

  pub defer-Kept :
      (job_id : String) (detail : Json) (delay : ℕ) (now : Stamp) (s : Store)
      → Kept s
      → Kept (defer job_id detail delay now s)
  unfolding defer
  defer-Kept job_id detail delay now s k =
      let u =
        Kept-update (may_defer job_id) (requeue (now + bounded_delay delay) now) s (λ x. refl)
          (ground arith) k in
      elim (Bool-cases (any (may_defer job_id) s.jobs)) [ inl e ↦ rw e u | inr e ↦ rw e u ]

  -- An update by the id of another job, or of one that is found not to have ended.
  Kept-by_id :
      (job_id : String) (f : Job → Job) (s : Store) (row : Job)
      → ((k : Job) → (f k).id ≡ k.id)
      → find (has_id job_id) s.jobs ≡ some row
      → is_terminal row.status ≡ false
      → Kept s
      → find (has_id i) (update_where (has_id job_id) f s.jobs) ≡ some j
  Kept-by_id job_id f s row keep found live k = elim (Bool-cases (has_id job_id j)) [
    | inl e ↦
        let same : job_id ≡ i =
          sym ((eq_iff j.id job_id).0 e) ∙ (eq_iff j.id i).0 (find_holds (has_id i) s.jobs k) in
        let row_j = some-injective _ _ (sym (rw same at found) ∙ k) in
        absurd (cc (over, live, ap (λ (x : Job). is_terminal x.status) row_j))
    | inr e ↦ Kept-update (has_id job_id) f s keep e k
  ]

  finish_cancelled-Kept :
      (job_id : String) (now : Stamp) (s : Store)
      → Kept s
      → Kept (finish_cancelled job_id now s (find (has_id job_id) s.jobs))
  unfolding finish_cancelled
  finish_cancelled-Kept job_id now s k = elim (Option-cases (find (has_id job_id) s.jobs)) [
    | inl e ↦ rw e k
    | inr (row, e) ↦
        rw (e, finish_cancelled)
          (elim (Bool-cases (row.cancel_requested && not (is_terminal row.status))) [
            | inl t ↦ rw t (Kept-by_id job_id _ s row (λ x. refl) e (ground arith) k)
            | inr t ↦ rw t k
          ])
  ]

  finish_completed-Kept :
      (job_id : String) (result : Json) (now : Stamp) (s : Store) (r : Result StoreError ℕ)
      → Kept s
      → Kept (finish_completed job_id result now s r).0
  unfolding finish_completed
  finish_completed-Kept job_id result now s (ok n) k =
      Kept-update (may_finish job_id) (set_result result now) s (λ x. refl) (ground arith) k
  finish_completed-Kept job_id result now s (err e) k = k

  pub finish-Kept :
      (job_id : String) (result : Json) (now : Stamp) (s : Store)
      → Kept s
      → Kept (finish job_id result now s).0
  unfolding finish
  finish-Kept job_id result now s k =
      elim (Bool-cases (eqb (count_where (may_finish job_id) s.jobs) 1)) [
        | inl e ↦ rw e (finish_completed-Kept job_id result now s _ k)
        | inr e ↦ rw e (finish_cancelled-Kept job_id now s k)
      ]

  pub cancel-Kept :
      (job_id : String) (now : Stamp) (s : Store) → Kept s → Kept (cancel job_id now s).0
  unfolding cancel cancel_row
  cancel-Kept job_id now s k = elim (Option-cases (find (has_id job_id) s.jobs)) [
    | inl e ↦ rw (e, cancel) k
    | inr (row, e) ↦
        rw (e, cancel)
          (elim (Bool-cases (is_queued row.status)) [
            | inl q ↦ rw (q, cancel_row) (Kept-by_id job_id _ s row (λ x. refl) e (ground arith) k)
            | inr q ↦
                rw (q, cancel_row)
                  (elim (Bool-cases (is_terminal row.status)) [
                    | inl t ↦ rw t k
                    | inr t ↦ rw t (Kept-by_id job_id _ s row (λ x. refl) e t k)
                  ])
          ])
  ]

  interrupt_jobs-Kept :
      (now : Stamp) (ids : List String) (s : Store)
      → All (λ id. (j.id == id) ≡ false) ids
      → Kept s
      → Kept (interrupt_jobs now ids s)
  unfolding interrupt_jobs
  interrupt_jobs-Kept now [] s a k = k
  interrupt_jobs-Kept now (id ∷ rest) s a k =
      interrupt_jobs-Kept now rest (interrupt_job now id s) a.1
        (Kept-update (has_id id) _ s (λ x. refl) a.0 k)

  -- No job that has ended is among the uncertain ones.
  not_uncertain :
      (l m : List Job)
      → Distinct same_id m
      → find (has_id i) m ≡ some j
      → All (λ k. Memᴰ k m × (is_active k.status ≡ true)) l
      → All (λ id. (j.id == id) ≡ false) (map (λ k. k.id) l)
  not_uncertain [] m d f a = tt
  not_uncertain (k ∷ r) m d f a = (
    elim (Bool-cases (j.id == k.id)) [
      | inl e ↦
          let ki : has_id i k ≡ true =
            ground
              (arith, eq_iff j.id k.id, eq_iff k.id i, eq_iff j.id i, find_holds (has_id i) m f) in
          let fk = find_of_mem same_id (has_id i) one m d a.0.0 ki in
          let kj = some-injective _ _ (sym fk ∙ f) in
          absurd (cc (live_open k.status a.0.1, over, ap (λ (x : Job). is_terminal x.status) kj))
      | inr e ↦ e
    ],
    not_uncertain r m d f a.1,
  )
    where
      one : (x y : Job) → has_id i x ≡ true → has_id i y ≡ true → same_id x y ≡ true
      one x y p q = ground (arith, eq_iff x.id i, eq_iff y.id i, eq_iff x.id y.id)

  pub interrupt_uncertain_jobs-Kept :
      (now : Stamp) (s : Store) → IsWellFormed s → Kept s → Kept (interrupt_uncertain_jobs now s).0
  unfolding interrupt_uncertain_jobs
  interrupt_uncertain_jobs-Kept now s w k =
      interrupt_jobs-Kept now _ s
        (not_uncertain _ s.jobs w.jobs.ids k (select-mem (λ x. is_active x.status) s.jobs)) k
