-- ===== src/Store/Final.antt =====
-- Ended jobs are final over every interleaving of guarded methods.
use go7_spark_broker.Prelude.{ℕ, ◌≡◌, String, true, Option, some, List, arith, Ensures_ok, ok, find}
use go7_spark_broker.Clock.{Stamp}
use go7_spark_broker.Contract.Types.{Request}
use go7_spark_broker.Resources.Types.{Throttle, Decision}
use go7_spark_broker.Store.Tables.{Job, Lease, LeaseStatus, Artifact, Store, is_terminal}
use go7_spark_broker.Store.Queue.{has_id}
use go7_spark_broker.Store.Cancel.{get_job}
use go7_spark_broker.Store.Leases.{
  begin_broker_epoch, insert_lease, set_resource_lease_status, mark_active_leases_unknown,
  controller_normal_since, mark_controller_normal,
}
use go7_spark_broker.Store.Artifacts.{add_artifact}
use go7_spark_broker.Store.Invariant.{IsWellFormed}
use go7_spark_broker.Store.Reach.{Step}
use go7_spark_broker.Store.Terminal.{
  IsGuarded, submit-Kept, claim_next-Kept, defer-Kept, finish-Kept, cancel-Kept,
  interrupt_uncertain_jobs-Kept,
}

jobs-begin_broker_epoch :
    (i : String) (m : ℕ) (now : Stamp) (s t : Store) (e : ℕ)
    → begin_broker_epoch i m now s ≡ ok (t, e)
    → t.jobs ≡ s.jobs
unfolding begin_broker_epoch
jobs-begin_broker_epoch i m now s t e h = ground arith

jobs-insert_lease : (l : Lease) (s t : Store) → insert_lease l s ≡ ok t → t.jobs ≡ s.jobs
unfolding insert_lease
jobs-insert_lease l s t h = ground arith

jobs-set_lease :
    (lease_id : String) (status : LeaseStatus) (throttle : Option (List Throttle))
    (decision : Option Decision) (now : Stamp) (s t : Store)
    → set_resource_lease_status lease_id status throttle decision now s ≡ ok t
    → t.jobs ≡ s.jobs
unfolding set_resource_lease_status
jobs-set_lease lease_id status throttle decision now s t h = ground arith

jobs-quantum :
    (id : String) (now : Stamp) (s : Store) → (controller_normal_since id now s).0.jobs ≡ s.jobs
unfolding controller_normal_since
jobs-quantum id now s = ground arith

jobs-mark :
    (id : String) (now : Stamp) (s : Store) → (mark_controller_normal id now s).jobs ≡ s.jobs
unfolding mark_controller_normal
jobs-mark id now s = ground arith

jobs-artifact : (a : Artifact) (s t : Store) → add_artifact a s ≡ ok t → t.jobs ≡ s.jobs
unfolding add_artifact
jobs-artifact a s t h = ground arith

-- In a well-formed database, a job that is completed, failed, cancelled or interrupted is unchanged,
-- in every field, by each method of the store other than `transition` and `fail`.
pub Step-final :
    {digest : Request → String} {s t : Store} (st : Step digest s t) (job_id : String) (j : Job)
    → IsGuarded st
    → IsWellFormed s
    → get_job job_id s ≡ some j
    → is_terminal j.status ≡ true
    → get_job job_id t ≡ some j
unfolding get_job
Step-final {digest} {s} (Step.submitted r limit now id k b e) i j g w f over =
    Ensures_ok (λ t. find (has_id i) t.0.jobs ≡ some j) _
      (submit-Kept i j over digest r limit now id s f) e
Step-final {digest} {s} (Step.claimed supported now) i j g w f over =
    claim_next-Kept i j over supported now s f
Step-final {digest} {s} (Step.deferred id detail delay now) i j g w f over =
    defer-Kept i j over id detail delay now s f
Step-final {digest} {s} (Step.moved id status detail profile now e) i j g w f over = absurd g
Step-final {digest} {s} (Step.failed id error status now e) i j g w f over = absurd g
Step-final {digest} {s} (Step.finished id result now) i j g w f over =
    finish-Kept i j over id result now s f
Step-final {digest} {s} (Step.cancelled id now) i j g w f over = cancel-Kept i j over id now s f
Step-final {digest} {s} (Step.interrupted now) i j g w f over =
    interrupt_uncertain_jobs-Kept i j over now s w f
Step-final {digest} {s} {t} (Step.epoch_begun n m now epoch e) i j g w f over =
    rw (jobs-begin_broker_epoch n m now s t epoch e) f
Step-final {digest} {s} {t} (Step.lease_created l e) i j g w f over =
    rw (jobs-insert_lease l s t e) f
Step-final {digest} {s} {t} (Step.lease_set id status throttle decision now e) i j g w f over =
    rw (jobs-set_lease id status throttle decision now s t e) f
Step-final {digest} {s} Step.leases_forgotten i j g w f over =
    unfold mark_active_leases_unknown in f
Step-final {digest} {s} (Step.quantum_read id now) i j g w f over = rw (jobs-quantum id now s) f
Step-final {digest} {s} (Step.quantum_begun id now) i j g w f over = rw (jobs-mark id now s) f
Step-final {digest} {s} {t} (Step.artifact_added a e) i j g w f over = rw (jobs-artifact a s t e) f
