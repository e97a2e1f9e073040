-- ===== src/Resources/Acquire.antt =====
-- `acquire`, `release` and `verify_activation` of `ResourceCoordinator`.
use go7_spark_broker.Prelude.{
  ℕ, suc, String, Bool, true, false, not, ◌&&◌, ◌||◌, Option, none, some, List, [], ◌∷◌, contains,
  is_empty, ltb, if◌then◌else◌,
}
use go7_spark_broker.Prelude.Exec.{pure, raise, lift, gets, modify, ◌>>>=◌ as ◌>>=◌, catch}
use go7_spark_broker.Text.{joined, decimal}
use go7_spark_broker.Store.Tables.{Lease, active, releasing, released, unknown, denied}
use go7_spark_broker.Store.Leases.{new_lease, insert_lease, held_leases, get_resource_lease, or_old}
use go7_spark_broker.Resources.Types.{
  ExecutionPlan, ServiceClass, class_name, no_lease, ControllerPolicy, Snapshot, Throttle,
  requested, applied, Decision,
}
use go7_spark_broker.Resources.Admission.{
  deferred_long, is_exclusive, validate_snapshot, validate_compatibility,
  released_profile_is_verified, controllers_for,
}
use go7_spark_broker.Resources.Probe.{Raised, admission, other}
use go7_spark_broker.Resources.Coordinator.{Outside, Coordinator, M, is_some, get_now, get_uuid}
use go7_spark_broker.Resources.Control.{
  deferral, ◌>>◌, committed, generation_of, verify_observation, verify_restored, combined_snapshot,
  set_mode, set_status,
}
use go7_spark_broker.Resources.Lifecycle.{
  as_raised, LeaseHandle, enforce_quanta, mark_restored, restore_handle, journal, journal_applied,
}

abbrev pub needs_lease : ExecutionPlan → Bool
needs_lease plan =
    is_some plan.resource_group && elim plan.lease_mode [ no_lease ↦ false | _ ↦ true ]

-- The code that the handlers report: that of AdmissionDeferred, or a fixed one.
abbrev pub code_of : Raised → String
code_of (admission d) = d.code
code_of (other e) = "controller_restore_failed"

abbrev pub record_for : ControllerPolicy → ℕ → String → Throttle
record_for p generation mutation_id = record {
  controller_id = p.id;
  normal_mode = p.normal_mode;
  generation = generation;
  mutation_id = mutation_id;
  state = requested;
  acknowledgement = none;
}

module _ (o : Outside) where
  open o use {World}

  -- One controller of the loop of `acquire`: the generation at which its throttling was observed.
  unfoldable pub throttle_one : ServiceClass → Lease → ℕ → ℕ → ControllerPolicy → M World ℕ
  unfolding get_uuid journal set_mode combined_snapshot journal_applied
  throttle_one cls lease generation causal p = do
    u ← get_uuid o
    let mutation_id = joined ("mutation_" ∷ u ∷ [])
    journal o lease.id (record_for p generation mutation_id)
    ack ←
        set_mode o p mutation_id p.throttled_mode lease.id lease.fencing_token lease.broker_epoch
          generation (joined ("admit:" ∷ class_name cls ∷ ":" ∷ lease.job_id ∷ []))
    observation ← combined_snapshot o
    g ← lift (generation_of observation)
    (if ltb causal g then pure tt else deferral "controller_observation_stale")
    lift (
        verify_observation observation p.id mutation_id lease.id lease.fencing_token
          lease.broker_epoch generation p.throttled_mode ack)
    journal_applied o lease.id (record (record_for p generation mutation_id) {
      state = applied;
      acknowledgement = some ack;
    })
    pure g

  unfoldable pub throttle_all : ServiceClass → Lease → ℕ → ℕ → List ControllerPolicy → M World ℕ
  unfolding throttle_one
  throttle_all cls lease generation causal [] = pure causal
  throttle_all cls lease generation causal (p ∷ r) = do
    g ← throttle_one cls lease generation causal p
    throttle_all cls lease (suc generation) g r

  abbrev pub decision_of : ExecutionPlan → Snapshot → Option Snapshot → Decision
  decision_of plan before after = record {
    before = before;
    plan = plan;
    reason = plan.route_reason;
    after_throttle = after;
  }

  -- The body of the `try` of `acquire`.
  unfoldable pub admit :
      Lease → ExecutionPlan → Snapshot → List ControllerPolicy → M World LeaseHandle
  unfolding throttle_all combined_snapshot set_status
  admit lease plan before controllers = do
    first ← lift (generation_of before)
    causal ← throttle_all plan.service_class lease 1 first controllers
    after ← combined_snapshot o
    g ← lift (generation_of after)
    (if ltb g causal then deferral "resource_snapshot_stale" else pure tt)
    policy ← gets (λ c. c.policy)
    lift (as_raised (validate_snapshot policy after plan true))
    lift (as_raised (validate_compatibility policy after plan))
    modify (λ c. record c { after = some after })
    records ← gets (λ c. c.throttled)
    set_status o lease.id active (some records) (some (decision_of plan before (some after)))
    stored ← gets (λ c. get_resource_lease lease.id c.store)
    pure (record { lease = or_old stored lease; throttled = records })

  -- The `try` of the handler: the controllers go back, once the profile is gone.
  unfoldable pub undo : Lease → M World (Unit {0})
  unfolding combined_snapshot restore_handle mark_restored
  undo lease = do
    records ← gets (λ c. c.throttled)
    floor ←
        (if is_empty records then pure none else do
          before ← combined_snapshot o
          (if released_profile_is_verified before lease.profile_id true
              then pure tt
              else deferral "rollback_release_unverified")
          g ← lift (generation_of before)
          pure (some g))
    (expected, profiles) ← restore_handle o (record { lease = lease; throttled = records }) floor
    restored ← combined_snapshot o
    lift (verify_restored restored expected profiles)
    policy ← gets (λ c. c.policy)
    mark_restored o policy.controllers profiles

  -- The restoration failed: the lease is unknown and the coordinator is quarantined.
  unfoldable pub give_up : Lease → ExecutionPlan → Snapshot → Raised → M World (Unit {0})
  unfolding set_status
  give_up lease plan before e = do
    records ← gets (λ c. c.throttled)
    after ← gets (λ c. c.after)
    set_status o lease.id unknown (some records) (some (decision_of plan before after))
    modify (λ c. record c {
      quarantine =
          some (joined ("lease " ∷ lease.id ∷ " admission rollback failed: " ∷ code_of e ∷ []));
    })
    raise (admission (deferred_long "admission_rollback_failed"))

  -- The handler of `acquire`.
  unfoldable pub roll_back : Lease → ExecutionPlan → Snapshot → Raised → M World LeaseHandle
  unfolding undo give_up set_status
  roll_back lease plan before e = do
    catch (undo lease) (give_up lease plan before)
    records ← gets (λ c. c.throttled)
    after ← gets (λ c. c.after)
    set_status o lease.id denied (some records) (some (decision_of plan before after))
    raise e

  -- `create_resource_lease`, with its two `uuid4` and the clock
  unfoldable pub create_lease : String → ExecutionPlan → String → Snapshot → M World Lease
  unfolding get_now get_uuid
  create_lease job_id plan group before = do
    t ← get_now o
    u ← get_uuid o
    v ← get_uuid o
    epoch ← gets (λ c. c.epoch)
    let lease =
        new_lease job_id epoch group plan.profile_id plan.route_id plan.service_class
          plan.lease_mode plan.estimated_memory_gb [] (decision_of plan before none) t
          (joined ("lease_" ∷ u ∷ [])) (joined ("fence_" ∷ decimal epoch ∷ "_" ∷ v ∷ []))
    (λ c. committed (insert_lease lease c.store) c)
    modify (λ c. record c { throttled = []; after = none })
    pure lease

  -- `acquire` where no lease is held.
  unfoldable pub acquire_free : String → ExecutionPlan → String → M World LeaseHandle
  unfolding combined_snapshot enforce_quanta create_lease admit roll_back
  acquire_free job_id plan group = do
    snapshot ← combined_snapshot o
    policy ← gets (λ c. c.policy)
    lift (as_raised (validate_snapshot policy snapshot plan false))
    t ← get_now o
    enforce_quanta o t (controllers_for policy plan)
    lease ← create_lease job_id plan group snapshot
    catch (admit lease plan snapshot (controllers_for policy plan)) (roll_back lease plan snapshot)

  -- `acquire` behind its early returns, on a plan that names a group.
  unfoldable pub acquire_group : String → ExecutionPlan → String → M World LeaseHandle
  unfolding acquire_free
  acquire_group job_id plan group = do
    busy ← gets (λ c. not (is_empty (held_leases c.store)))
    (if busy then deferral "resource_busy" else pure tt)
    acquire_free job_id plan group

  abbrev ready : Coordinator World → Bool
  ready c =
      c.policy.require_probe && is_some c.policy.probe_endpoint && is_some c.policy.probe_token_file

  abbrev some_handle : LeaseHandle → M World (Option LeaseHandle)
  some_handle h = pure (some h)

  -- The early returns of `acquire`; `cancelled` is the answer of the callback.
  unfoldable pub acquire_leased : String → ExecutionPlan → Bool → M World LeaseHandle
  unfolding acquire_group
  acquire_leased job_id plan cancelled = do
    (if cancelled
        then raise (admission (record { code = "cancelled"; retry_after = 0 }))
        else pure tt)
    quarantined ← gets (λ c. is_some c.quarantine)
    (if quarantined then raise (admission (deferred_long "resource_quarantined")) else pure tt)
    configured ← gets (λ c. ready c)
    (if configured then pure tt else raise (admission (deferred_long "resource_probe_required")))
    acquire_group job_id plan (or_old plan.resource_group "")

  unfoldable pub acquire : String → ExecutionPlan → Bool → M World (Option LeaseHandle)
  unfolding acquire_leased
  acquire job_id plan cancelled =
      if needs_lease plan
      then (do h ← acquire_leased job_id plan cancelled; pure (some h))
      else pure none

  abbrev requires_absence : LeaseHandle → Bool
  requires_absence h = is_exclusive h.lease.mode || not (is_empty h.throttled)

  -- before_restore, and the generation floor if there are throttle records
  unfoldable pub check_gone : LeaseHandle → M World (Option ℕ)
  unfolding combined_snapshot
  check_gone h = do
    before ← combined_snapshot o
    (if released_profile_is_verified before h.lease.profile_id true
        then pure tt
        else deferral "release_unverified")
    (if is_empty h.throttled
        then pure none
        else (do g ← lift (generation_of before); pure (some g)))

  -- The `try` of `release`.
  unfoldable pub let_go : LeaseHandle → M World (Unit {0})
  unfolding check_gone restore_handle combined_snapshot mark_restored
  let_go h = do
    floor ← (if requires_absence h then check_gone h else pure none)
    (expected, profiles) ← restore_handle o h floor
    snapshot ← combined_snapshot o
    lift (verify_restored snapshot expected profiles)
    (if requires_absence h && not (released_profile_is_verified snapshot h.lease.profile_id true)
        then deferral "release_unverified"
        else pure tt)
    policy ← gets (λ c. c.policy)
    mark_restored o policy.controllers profiles

  abbrev release_raised : Raised → Raised
  release_raised (admission d) = admission d
  release_raised (other e) = admission (deferred_long "release_restore_failed")

  -- The handler of `release`.
  unfoldable pub keep_unknown : LeaseHandle → Raised → M World (Unit {0})
  unfolding set_status
  keep_unknown h e = do
    set_status o h.lease.id unknown (some h.throttled) none
    modify (λ c. record c {
      quarantine = some (joined ("lease " ∷ h.lease.id ∷ " release failed: " ∷ code_of e ∷ []));
    })
    raise (release_raised e)

  unfoldable pub release_lease : LeaseHandle → M World (Unit {0})
  unfolding let_go keep_unknown set_status
  release_lease h = do
    set_status o h.lease.id releasing (some h.throttled) none
    catch (let_go h) (keep_unknown h)
    set_status o h.lease.id released (some h.throttled) none

  unfoldable pub release : Option LeaseHandle → M World (Unit {0})
  unfolding release_lease
  release none = pure tt
  release (some h) = release_lease h

  unfoldable pub verify_activation : Option LeaseHandle → ExecutionPlan → M World (Unit {0})
  unfolding combined_snapshot
  verify_activation none plan = pure tt
  verify_activation (some h) plan = do
    snapshot ← combined_snapshot o
    policy ← gets (λ c. c.policy)
    lift (as_raised (validate_snapshot policy snapshot plan true))
    lift (as_raised (validate_compatibility policy snapshot plan))
    (if plan.verify_profile_active && not (contains plan.profile_id snapshot.active_profiles)
        then deferral "selected_profile_unobserved"
        else pure tt)
