-- ===== src/Resources/Control.antt =====
-- `_combined_snapshot`, `set_mode`, `_verify_controller_observation`, `_verify_restored_controllers`
-- and the writes to the store, as actions of the coordinator.
use go7_spark_broker.Prelude.{
  ℕ, String, Bool, true, false, not, ◌&&◌, Option, none, some, List, [], ◌∷◌, all, contains, lookup,
  Result, ok, err, eqb, ltb, ◌==◌, if◌then◌else◌,
}
use go7_spark_broker.Prelude.Exec.{Exec, raise, continue, ◌>>>=◌ as ◌>>=◌}
use go7_spark_broker.Json.{pos, Json, int, text, Fields, get_field, dict}
use go7_spark_broker.Store.Tables.{
  Store, StoreError, LeaseStatus, idempotency_conflict, queue_full, integrity_error, value_error,
  key_error, overflow_error, type_error,
}
use go7_spark_broker.Store.Leases.{set_resource_lease_status}
use go7_spark_broker.Resources.Types.{
  ControllerPolicy, Checkpoint, ControllerState, Snapshot, Throttle, Decision, Ack, no_checkpoint,
  malformed, given,
}
use go7_spark_broker.Resources.Admission.{deferred, says, is_healthy}
use go7_spark_broker.Resources.Probe.{Raised, admission, other, is_true_value}
use go7_spark_broker.Resources.Sample.{Host, Remote, local_snapshot, read_remote, accept}
use go7_spark_broker.Resources.Coordinator.{
  Outside, Coordinator, M, is_some, says_count, ack_checkpoint, check_proof, fenced,
  combined_sample, get_now, fetch_probe, post_mode,
}

abbrev pub deferral : {A : Type 0} {W : Type 0} → String → M W A
deferral code = raise (admission (deferred code))

infixl 10 ◌>>◌
abbrev pub ◌>>◌ : {S E B : Type 0} → Exec S E (Unit {0}) → Exec S E B → Exec S E B
m >> n = m >>= λ _. n

-- Names that a store exception has in Python.
abbrev pub exception : StoreError → Raised
exception idempotency_conflict = other "IdempotencyConflict"
exception queue_full = other "QueueFull"
exception integrity_error = other "IntegrityError"
exception value_error = other "ValueError"
exception key_error = other "KeyError"
exception overflow_error = other "OverflowError"
exception type_error = other "TypeError"

abbrev pub committed : {W : Type 0} → Result StoreError Store → M W (Unit {0})
committed (ok s) c = (ok tt, record c { store = s })
committed (err e) c = (err (exception e), c)

-- int(snapshot["probeGeneration"])
abbrev pub generation_of : Snapshot → Result Raised ℕ
generation_of s = elim s.probe_generation [ none ↦ err (other "KeyError") | some g ↦ ok g ]

abbrev pub same_text : String → Option Json → Bool
same_text t o = says t o

abbrev pub is_throttling : ControllerPolicy → String → Bool
is_throttling c mode = c.requires_checkpoint && c.throttled_mode == mode

abbrev pub proved : Result Raised (Unit {0}) → Ack → Result Raised Ack
proved (ok _) a = ok a
proved (err e) a = err e

-- The answer of a controller repeats the mutation, its fence and generation, and is healthy; where
-- training is displaced it proves a checkpoint.
unfoldable pub check_ack :
    ControllerPolicy → String → String → String → String → ℕ → ℕ → Fields → Result Raised Ack
unfolding check_proof
check_ack c mutation_id mode lease_id fencing_token broker_epoch generation v =
    if not (
      same_text lease_id (get_field "leaseId" v)
      && same_text mutation_id (get_field "mutationId" v)
      && same_text fencing_token (get_field "fencingToken" v)
      && says_count broker_epoch (get_field "brokerEpoch" v))
    then err (admission (deferred "controller_fence_mismatch"))
    else if not (
        says_count generation (get_field "acknowledgedGeneration" v)
        && same_text mode (get_field "effectiveMode" v))
    then err (admission (deferred "controller_ack_mismatch"))
    else if not (
        same_text "healthy" (get_field "health" v)
        && is_true_value (get_field "appliedAtSafeBoundary" v))
    then err (admission (deferred "controller_unhealthy"))
    else proved (if is_throttling c mode then check_proof (get_field "checkpoint" v) else ok tt)
        (ack_checkpoint (get_field "checkpoint" v))

abbrev pub payload : String → String → String → String → ℕ → ℕ → String → Json
payload mutation_id mode lease_id fencing_token broker_epoch generation reason = dict (
    ("protocolVersion", text "1.0")
    ∷ ("mutationId", text mutation_id)
    ∷ ("leaseId", text lease_id)
    ∷ ("fencingToken", text fencing_token)
    ∷ ("brokerEpoch", int (pos broker_epoch))
    ∷ ("controlGeneration", int (pos generation))
    ∷ ("targetMode", text mode)
    ∷ ("reason", text reason)
    ∷ [])

-- `_verify_controller_observation`: the published state is the one of the mutation.
abbrev pub same_checkpoint : Ack → Option Checkpoint → Bool
same_checkpoint no_checkpoint o = true
same_checkpoint malformed o = false
same_checkpoint (given k) none = false
same_checkpoint (given k) (some l) =
    k.run_id == l.run_id && k.checkpoint_id == l.checkpoint_id && k.sha256 == l.sha256

abbrev pub matches : String → String → String → ℕ → ℕ → String → Ack → ControllerState → Bool
matches mutation_id lease_id fencing_token broker_epoch generation mode ack st =
    st.mutation_id == mutation_id
    && st.lease_id == lease_id
    && st.fencing_token == fencing_token
    && eqb st.broker_epoch broker_epoch
    && eqb st.control_generation generation
    && st.effective_mode == mode
    && same_checkpoint ack st.checkpoint

abbrev pub state_of : String → Option (List (String × ControllerState)) → Option ControllerState
state_of id none = none
state_of id (some states) = lookup id states

abbrev pub judged : Option ControllerState → (ControllerState → Bool) → Result Raised (Unit {0})
judged none test = err (admission (deferred "controller_observation_missing"))
judged (some st) test = fenced (test st) "controller_observation_mismatch"

unfoldable pub verify_observation :
    Snapshot → String → String → String → String → ℕ → ℕ → String → Ack → Result Raised (Unit {0})
verify_observation s id mutation_id lease_id fencing_token broker_epoch generation mode ack =
    judged (state_of id s.controller_states)
      (matches mutation_id lease_id fencing_token broker_epoch generation mode ack)

-- `_verify_restored_controllers`
abbrev pub is_restored : Snapshot → String → Bool
is_restored s id =
    contains id s.active_profiles
    && elim (lookup id s.profiles) [ none ↦ false | some f ↦ is_healthy f ]

abbrev pub not_stale : Option ℕ → ℕ → Bool
not_stale none expected = false
not_stale (some g) expected = not (ltb g expected)

unfoldable pub verify_restored : Snapshot → ℕ → List String → Result Raised (Unit {0})
verify_restored s expected restored =
    if not_stale s.probe_generation expected
    then fenced (all (is_restored s) restored) "controller_restore_unverified"
    else err (admission (deferred "controller_restore_stale"))

module _ (o : Outside) where
  open o use {World}

  abbrev pub local_view : Host → Bool → Option Bool → Result Raised Snapshot
  local_view h required healthy =
      if required
      then err (admission (deferred "resource_probe_required"))
      else ok (local_snapshot h healthy)

  -- except AdmissionDeferred: raise if the probe is required
  abbrev pub unreachable : Host → Raised → M World Snapshot
  unreachable h (admission d) c =
      (if c.policy.require_probe then err (admission d) else ok (local_snapshot h (some false)), c)
  unreachable h (other e) c = (err (other e), c)

  abbrev pub remember : Remote → Coordinator World → Coordinator World
  remember r c = record c { last_generation = some r.generation }

  abbrev pub accepted : Result Raised Snapshot → Remote → M World Snapshot
  accepted (ok s) r c = (ok s, remember r c)
  accepted (err e) r c = (err e, c)

  abbrev pub parsed : Host → Result Raised Remote → M World Snapshot
  parsed h (ok r) c = accepted (accept h c.last_generation r) r c
  parsed h (err e) c = (err e, c)

  abbrev pub answered : Host → Result Raised Fields → M World Snapshot
  answered h (ok f) = parsed h (read_remote f)
  answered h (err e) = unreachable h e

  unfoldable pub remote_view : Host → M World Snapshot
  unfolding fetch_probe read_remote
  remote_view h c = let (r, c') = fetch_probe o c in answered h r c'

  abbrev pub view : Host → M World Snapshot
  view h c =
      if is_some c.policy.probe_endpoint && is_some c.policy.probe_token_file
      then remote_view h c
      else (local_view h c.policy.require_probe none, c)

  -- The lock serialises it: one sample is one action.
  unfoldable pub combined_snapshot : M World Snapshot
  unfolding combined_sample remote_view
  combined_snapshot c = let (h, c') = combined_sample o c in continue h view c'

  abbrev pub checked : Result Raised Fields → (Fields → Result Raised Ack) → M World Ack
  checked (ok v) check c = (check v, c)
  checked (err e) check c = (err e, c)

  unfoldable pub set_mode :
      ControllerPolicy → String → String → String → String → ℕ → ℕ → String → M World Ack
  unfolding post_mode check_ack
  set_mode p mutation_id mode lease_id fencing_token broker_epoch generation reason c =
      let (r, c') =
        post_mode o "/v1/resource-mode" p.id
          (payload mutation_id mode lease_id fencing_token broker_epoch generation reason) c in
      checked r (check_ack p mutation_id mode lease_id fencing_token broker_epoch generation) c'

  unfoldable pub set_status :
      String → LeaseStatus → Option (List Throttle) → Option Decision → M World (Unit {0})
  unfolding get_now set_resource_lease_status
  set_status lease_id status throttle decision c =
      let (t, c') = o.now c.world in
      committed (set_resource_lease_status lease_id status throttle decision t c.store)
        (record c { world = c' })
