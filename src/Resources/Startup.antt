-- ===== src/Resources/Startup.antt =====
-- `_reconcile_after_lock`, `_recover_recorded_throttles` and `takeover_mode`: what a broker does when
-- it has the lock of the host.
use Prim.Native.Nat.{max}
use mathlib.Core.List.{reverse}
use go7_spark_broker.Prelude.{
  ℕ, ◌+◌, String, Bool, true, not, ◌&&◌, ◌||◌, none, some, List, [], ◌∷◌, ◌++◌, find, is_empty,
  Result, ok, err, ltb, if◌then◌else◌,
}
use go7_spark_broker.Prelude.Exec.{pure, raise, lift, gets, modify, ◌>>>=◌ as ◌>>=◌, attempt}
use go7_spark_broker.Text.{joined, decimal}
use go7_spark_broker.Json.{Json, int, pos, text, Fields, get_field, dict}
use go7_spark_broker.Store.Tables.{Store, StoreError, Lease, released}
use go7_spark_broker.Store.Leases.{begin_broker_epoch, mark_active_leases_unknown}
use go7_spark_broker.Store.Cancel.{interrupt_uncertain_jobs}
use go7_spark_broker.Resources.Types.{ControllerPolicy, Snapshot, Throttle, Ack}
use go7_spark_broker.Resources.Admission.{deferred, is_exclusive, released_profile_is_verified}
use go7_spark_broker.Resources.Probe.{Raised, admission, other, is_true_value}
use go7_spark_broker.Resources.Coordinator.{
  Outside, M, says_count, ack_checkpoint, get_uuid, post_mode,
}
use go7_spark_broker.Resources.Control.{
  deferral, ◌>>◌, exception, same_text, generation_of, not_stale, verify_observation,
  verify_restored, checked, combined_snapshot, set_status,
}
use go7_spark_broker.Resources.Lifecycle.{with_id, policy_of, mark_restored}

abbrev pub takeover_payload : String → String → String → String → ℕ → ℕ → String → Json
takeover_payload mutation_id lease_id fence recovery_fence epoch generation mode = dict (
    ("protocolVersion", text "1.0")
    ∷ ("mutationId", text mutation_id)
    ∷ ("previousLeaseId", text lease_id)
    ∷ ("previousFencingToken", text fence)
    ∷ ("recoveryFencingToken", text recovery_fence)
    ∷ ("brokerEpoch", int (pos epoch))
    ∷ ("controlGeneration", int (pos generation))
    ∷ ("targetMode", text mode)
    ∷ ("reason", text (joined ("restart-recovery:" ∷ lease_id ∷ [])))
    ∷ [])

-- The answer to a takeover repeats it and is healthy.
unfoldable pub check_takeover :
    String → String → String → String → ℕ → ℕ → String → Fields → Result Raised Ack
check_takeover mutation_id lease_id fence recovery_fence epoch generation mode v =
    if same_text mutation_id (get_field "mutationId" v)
      && same_text lease_id (get_field "previousLeaseId" v)
      && same_text fence (get_field "previousFencingToken" v)
      && same_text recovery_fence (get_field "recoveryFencingToken" v)
      && says_count epoch (get_field "brokerEpoch" v)
      && says_count generation (get_field "acknowledgedGeneration" v)
      && same_text mode (get_field "effectiveMode" v)
      && same_text "healthy" (get_field "health" v)
      && is_true_value (get_field "appliedAtSafeBoundary" v)
    then ok (ack_checkpoint (get_field "checkpoint" v))
    else err (admission (deferred "controller_takeover_mismatch"))

-- The file that keeps the epoch of the host: `read` is its number, 0 where there is no file, and
-- `write` replaces it. Both raise where the file or its directory is not safe.
pub record EpochFile (World : Type 0) : Type 0 where
  pub read : World → Result Raised ℕ × World
  pub write : ℕ → World → Result Raised (Unit {0}) × World

module _ (o : Outside) where
  open o use {World}

  unfoldable pub takeover_mode :
      ControllerPolicy → String → String → String → String → ℕ → ℕ → String → M World Ack
  unfolding post_mode check_takeover
  takeover_mode p mutation_id lease_id fence recovery_fence epoch generation mode c =
      let (r, c') =
        post_mode o "/v1/resource-takeover" p.id
          (takeover_payload mutation_id lease_id fence recovery_fence epoch generation mode) c in
      checked o r (check_takeover mutation_id lease_id fence recovery_fence epoch generation mode)
        c'

  -- One record of the loop; `offset` counts the records from one.
  unfoldable pub recover_one : Lease → String → ℕ → ℕ → Throttle → M World (ℕ × String)
  unfolding get_uuid takeover_mode combined_snapshot
  recover_one lease recovery_fence offset causal t = do
    found ← gets (λ c. find (with_id t.controller_id) c.policy.controllers)
    p ← policy_of o found
    u ← get_uuid o
    epoch ← gets (λ c. c.epoch)
    let mutation_id = joined ("mutation_" ∷ u ∷ [])
    ack ←
        takeover_mode p mutation_id lease.id lease.fencing_token recovery_fence epoch
          (1000000 + offset) t.normal_mode
    observation ← combined_snapshot o
    g ← lift (generation_of observation)
    (if ltb causal g then pure tt else deferral "controller_restore_stale")
    lift (
        verify_observation observation p.id mutation_id lease.id recovery_fence epoch
          (1000000 + offset) t.normal_mode ack)
    pure (g, p.profile_id)

  unfoldable pub recover_all :
      Lease → String → ℕ → ℕ → ℕ → List String → List Throttle → M World (ℕ × List String)
  unfolding recover_one
  recover_all lease recovery_fence offset causal expected restored [] = pure (expected, restored)
  recover_all lease recovery_fence offset causal expected restored (t ∷ r) = do
    (g, profile) ← recover_one lease recovery_fence offset causal t
    recover_all lease recovery_fence (offset + 1) g (max expected g) (restored ++ (profile ∷ [])) r

  unfoldable pub recover_recorded_throttles : Lease → ℕ → M World (ℕ × List String)
  unfolding get_uuid recover_all
  recover_recorded_throttles lease floor = do
    u ← get_uuid o
    epoch ← gets (λ c. c.epoch)
    recover_all lease (joined ("fence_" ∷ decimal epoch ∷ "_recovery_" ∷ u ∷ [])) 1 floor 0 []
        (reverse lease.throttle)

  -- self._quarantine_reason = …, and `continue`
  abbrev pub set_aside : String → String → M World (Unit {0})
  set_aside lease_id reason =
      modify
        (λ c. record c { quarantine = some (joined ("stale lease " ∷ lease_id ∷ reason ∷ [])) })

  -- except AdmissionDeferred as exc: quarantine and `continue`
  abbrev pub aside_if_deferred : String → String → Raised → M World (Unit {0})
  aside_if_deferred lease_id reason (admission d) =
      set_aside lease_id (joined (reason ∷ d.code ∷ []))
  aside_if_deferred lease_id reason (other e) = raise (other e)

  abbrev pub stale_absence : Lease → Bool
  stale_absence lease = is_exclusive lease.mode || not (is_empty lease.throttle)

  -- The lease is let go at the end of the body.
  unfoldable pub let_stale_go : Lease → M World (Unit {0})
  unfolding set_status
  let_stale_go lease = set_status o lease.id released none none

  -- The body behind the restoration of the controllers.
  unfoldable pub finish_recovery : Lease → Snapshot → ℕ → List String → M World (Unit {0})
  unfolding let_stale_go mark_restored
  finish_recovery lease restored expected profiles =
      if not (released_profile_is_verified restored lease.profile_id true)
      then set_aside lease.id " restore could not be verified"
      else do
        policy ← gets (λ c. c.policy)
        mark_restored o policy.controllers profiles
        let_stale_go lease

  unfoldable pub check_recovery : Lease → (Snapshot × (ℕ × List String)) → M World (Unit {0})
  unfolding finish_recovery
  check_recovery lease (restored, (expected, profiles)) =
      if not (not_stale restored.probe_generation expected)
      then set_aside lease.id " recovery snapshot is stale"
      else attempt (lift (verify_restored restored expected profiles))
          (λ _. finish_recovery lease restored expected profiles)
          (aside_if_deferred lease.id " recovery restore failed: ")

  unfoldable pub recover : Lease → Snapshot → M World (Snapshot × (ℕ × List String))
  unfolding recover_recorded_throttles combined_snapshot
  recover lease snapshot = do
    floor ← lift (generation_of snapshot)
    found ← recover_recorded_throttles lease floor
    restored ← combined_snapshot o
    pure (restored, found)

  unfoldable pub reconcile_observed : Lease → Snapshot → M World (Unit {0})
  unfolding recover check_recovery let_stale_go
  reconcile_observed lease snapshot =
      if not (released_profile_is_verified snapshot lease.profile_id (stale_absence lease))
      then set_aside lease.id " has no verified resource release"
      else if is_empty lease.throttle
      then let_stale_go lease
      else attempt (recover lease snapshot) (check_recovery lease)
          (aside_if_deferred lease.id " recovery takeover failed: ")

  -- The body of the loop over the stale leases.
  unfoldable pub reconcile_one : Lease → M World (Unit {0})
  unfolding reconcile_observed combined_snapshot
  reconcile_one lease =
      attempt (combined_snapshot o) (reconcile_observed lease)
        (aside_if_deferred lease.id " could not reconcile: ")

  unfoldable pub reconcile_all : List Lease → M World (Unit {0})
  unfolding reconcile_one
  reconcile_all [] = pure tt
  reconcile_all (lease ∷ rest) = do reconcile_one lease; reconcile_all rest

  unfoldable pub forget_leases : M World (List Lease)
  unfolding mark_active_leases_unknown
  forget_leases c =
      let (s, stale) = mark_active_leases_unknown c.store in (ok stale, record c { store = s })

  unfoldable pub interrupt_jobs_now : M World (Unit {0})
  unfolding interrupt_uncertain_jobs
  interrupt_jobs_now c =
      let (t, w) = o.now c.world in
      (ok tt, record c { store = (interrupt_uncertain_jobs t c.store).0; world = w })

  module _ (instance_id : String) (file : EpochFile World) where
    abbrev pub begun : Result StoreError (Store × ℕ) → M World ℕ
    begun (ok (s, epoch)) c = (ok epoch, record c { store = s })
    begun (err e) c = (err (exception e), c)

    unfoldable pub begin_epoch : ℕ → M World ℕ
    unfolding begin_broker_epoch
    begin_epoch minimum c =
        let (t, w) = o.now c.world in
        begun (begin_broker_epoch instance_id minimum t c.store) (record c { world = w })

    unfoldable pub read_epoch : M World ℕ
    read_epoch c = let (r, w) = file.read c.world in (r, record c { world = w })

    unfoldable pub write_epoch : ℕ → M World (Unit {0})
    write_epoch epoch c = let (r, w) = file.write epoch c.world in (r, record c { world = w })

    unfoldable pub advance_host_epoch : M World ℕ
    unfolding read_epoch begin_epoch write_epoch
    advance_host_epoch = do
      previous ← read_epoch
      epoch ← begin_epoch (previous + 1)
      write_epoch epoch
      pure epoch

    unfoldable pub reconcile_after_lock : M World (Unit {0})
    unfolding advance_host_epoch forget_leases reconcile_all interrupt_jobs_now
    reconcile_after_lock = do
      epoch ← advance_host_epoch
      modify (λ c. record c { epoch = epoch })
      stale ← forget_leases
      reconcile_all stale
      interrupt_jobs_now
