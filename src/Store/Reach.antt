-- ===== src/Store/Reach.antt =====
-- The database under any interleaving of transactions. Every method of `Store` is one immediate
-- transaction, so the threads of the broker interleave whole methods.
use go7_spark_broker.Prelude.{ℕ, ◌≡◌, String, Bool, Option, List, ok, Ensures_ok}
use go7_spark_broker.Json.{Json}
use go7_spark_broker.Clock.{Stamp}
use go7_spark_broker.Contract.Types.{Request}
use go7_spark_broker.Resources.Types.{Throttle, Decision}
use go7_spark_broker.Store.Tables.{JobStatus, Job, Lease, LeaseStatus, Artifact, Store, init}
use go7_spark_broker.Store.Queue.{claim_next}
use go7_spark_broker.Store.Jobs.{submit, defer, transition, fail, finish}
use go7_spark_broker.Store.Cancel.{cancel, interrupt_uncertain_jobs, uncertain_jobs}
use go7_spark_broker.Store.Leases.{
  begin_broker_epoch, insert_lease, set_resource_lease_status, mark_active_leases_unknown,
  controller_normal_since, mark_controller_normal,
}
use go7_spark_broker.Store.Artifacts.{add_artifact}
use go7_spark_broker.Store.OtherSteps.{
  begin_broker_epoch-IsWellFormed, controller_normal_since-IsWellFormed,
  mark_controller_normal-IsWellFormed, add_artifact-IsWellFormed,
}
use go7_spark_broker.Store.Invariant.{IsWellFormed, init-IsWellFormed}
use go7_spark_broker.Store.JobSteps.{
  submit-IsWellFormed, claim_next-IsWellFormed, defer-IsWellFormed, transition-IsWellFormed,
  fail-IsWellFormed, finish-IsWellFormed, cancel-IsWellFormed, interrupt_jobs-IsWellFormed,
}
use go7_spark_broker.Store.LeaseSteps.{
  insert_lease-IsWellFormed, set_resource_lease_status-IsWellFormed,
  mark_active_leases_unknown-IsWellFormed,
}

-- One method that returned. A method that raised has rolled its transaction back.
pub data Step (digest : Request → String) (s : Store) : Store → Type 0 where
  submitted :
      (r : Request) (limit : Option ℕ) (now : Stamp) (job_id : String) {s' : Store} (j : Job)
      (b : Bool)
      → submit digest r limit now job_id s ≡ ok (s', j, b)
      → Step digest s s'
  claimed : (supported : List String) (now : Stamp) → Step digest s (claim_next supported now s).0
  deferred :
      (job_id : String) (detail : Json) (delay : ℕ) (now : Stamp)
      → Step digest s (defer job_id detail delay now s)
  moved :
      (job_id : String) (status : JobStatus) (detail : Json) (profile : Option String) (now : Stamp)
      {s' : Store}
      → transition job_id status detail profile now s ≡ ok s'
      → Step digest s s'
  failed :
      (job_id : String) (error : Json) (status : JobStatus) (now : Stamp) {s' : Store}
      → fail job_id error status now s ≡ ok s'
      → Step digest s s'
  finished :
      (job_id : String) (result : Json) (now : Stamp) → Step digest s (finish job_id result now s).0
  cancelled : (job_id : String) (now : Stamp) → Step digest s (cancel job_id now s).0
  interrupted : (now : Stamp) → Step digest s (interrupt_uncertain_jobs now s).0
  epoch_begun :
      (instance_id : String) (minimum : ℕ) (now : Stamp) {s' : Store} (epoch : ℕ)
      → begin_broker_epoch instance_id minimum now s ≡ ok (s', epoch)
      → Step digest s s'
  lease_created : (l : Lease) {s' : Store} → insert_lease l s ≡ ok s' → Step digest s s'
  lease_set :
      (lease_id : String) (status : LeaseStatus) (throttle : Option (List Throttle))
      (decision : Option Decision) (now : Stamp) {s' : Store}
      → set_resource_lease_status lease_id status throttle decision now s ≡ ok s'
      → Step digest s s'
  leases_forgotten : Step digest s (mark_active_leases_unknown s).0
  quantum_read : (id : String) (now : Stamp) → Step digest s (controller_normal_since id now s).0
  quantum_begun : (id : String) (now : Stamp) → Step digest s (mark_controller_normal id now s)
  artifact_added : (a : Artifact) {s' : Store} → add_artifact a s ≡ ok s' → Step digest s s'

pub data Reach (digest : Request → String) (s : Store) : Store → Type 0 where
  here : Reach digest s s
  next : {t u : Store} → Reach digest s t → Step digest t u → Reach digest s u

pub Step-IsWellFormed :
    {digest : Request → String} {s t : Store} → Step digest s t → IsWellFormed s → IsWellFormed t
unfolding interrupt_uncertain_jobs
Step-IsWellFormed {digest} {s} (submitted r limit now job_id j b e) w =
    Ensures_ok (λ t. IsWellFormed t.0) _ (submit-IsWellFormed digest r limit now job_id s w) e
Step-IsWellFormed {digest} {s} (claimed supported now) w = claim_next-IsWellFormed supported now s w
Step-IsWellFormed {digest} {s} (deferred job_id detail delay now) w =
    defer-IsWellFormed job_id detail delay now s w
Step-IsWellFormed {digest} {s} (moved job_id status detail profile now e) w =
    Ensures_ok IsWellFormed _ (transition-IsWellFormed job_id status detail profile now s w) e
Step-IsWellFormed {digest} {s} (failed job_id error status now e) w =
    Ensures_ok IsWellFormed _ (fail-IsWellFormed job_id error status now s w) e
Step-IsWellFormed {digest} {s} (finished job_id result now) w =
    finish-IsWellFormed job_id result now s w
Step-IsWellFormed {digest} {s} (cancelled job_id now) w = cancel-IsWellFormed job_id now s w
Step-IsWellFormed {digest} {s} (interrupted now) w =
    interrupt_jobs-IsWellFormed now (uncertain_jobs s) s w
Step-IsWellFormed {digest} {s} (epoch_begun i m now epoch e) w =
    Ensures_ok (λ t. IsWellFormed t.0) _ (begin_broker_epoch-IsWellFormed i m now s w) e
Step-IsWellFormed {digest} {s} (lease_created l e) w =
    Ensures_ok IsWellFormed _ (insert_lease-IsWellFormed l s w) e
Step-IsWellFormed {digest} {s} (lease_set lease_id status throttle decision now e) w =
    Ensures_ok IsWellFormed _
      (set_resource_lease_status-IsWellFormed lease_id status throttle decision now s w) e
Step-IsWellFormed {digest} {s} leases_forgotten w = mark_active_leases_unknown-IsWellFormed s w
Step-IsWellFormed {digest} {s} (quantum_read id now) w =
    controller_normal_since-IsWellFormed id now s w
Step-IsWellFormed {digest} {s} (quantum_begun id now) w =
    mark_controller_normal-IsWellFormed id now s w
Step-IsWellFormed {digest} {s} (artifact_added a e) w =
    Ensures_ok IsWellFormed _ (add_artifact-IsWellFormed a s w) e

pub Reach-IsWellFormed :
    {digest : Request → String} {s t : Store} → Reach digest s t → IsWellFormed s → IsWellFormed t
Reach-IsWellFormed here w = w
Reach-IsWellFormed (next r st) w = Step-IsWellFormed st (Reach-IsWellFormed r w)

-- However the threads interleave, from an empty database on: job ids and idempotency keys are
-- unique, event numbers rise, and no two leases hold one resource group.
pub reachable-IsWellFormed :
    (digest : Request → String) (s : Store) → Reach digest init s → IsWellFormed s
reachable-IsWellFormed digest s r = Reach-IsWellFormed r init-IsWellFormed
