-- ===== src/Resources/Lifecycle.antt =====
-- `acquire`, `release` and `verify_activation` of `ResourceCoordinator`, with `_restore_handle`,
-- `_enforce_training_quanta` and `_mark_restored_quanta`.
use Prim.Native.Nat.{max}
use mathlib.Core.List.{reverse}
use go7_spark_broker.Prelude.{
  ℕ, ◌+◌, ◌-◌, String, Bool, true, ◌&&◌, Option, none, some, List, [], ◌∷◌, ◌++◌, find, contains,
  Result, ok, err, ltb, ◌==◌, if◌then◌else◌,
}
use go7_spark_broker.Prelude.Exec.{pure, raise, lift, gets, modify, ◌>>>=◌ as ◌>>=◌}
use go7_spark_broker.Text.{joined}
use go7_spark_broker.Clock.{Stamp}
use go7_spark_broker.Store.Tables.{Lease, acquiring}
use go7_spark_broker.Store.Leases.{controller_normal_since, mark_controller_normal}
use go7_spark_broker.Resources.Types.{ControllerPolicy, Throttle, Deferred}
use go7_spark_broker.Resources.Admission.{is_training}
use go7_spark_broker.Resources.Probe.{Raised, admission}
use go7_spark_broker.Resources.Coordinator.{Outside, M, get_uuid}
use go7_spark_broker.Resources.Control.{
  deferral, ◌>>◌, generation_of, verify_observation, combined_snapshot, set_mode, set_status,
}

abbrev pub as_raised : {A : Type 0} → Result Deferred A → Result Raised A
as_raised (ok a) = ok a
as_raised (err d) = err (admission d)

-- The lease of a handle and its throttle records, the latest last.
pub record LeaseHandle : Type 0 where
  pub lease : Lease
  pub throttled : List Throttle

abbrev pub with_id : String → ControllerPolicy → Bool
with_id id c = c.id == id

-- max(0.1, remaining) seconds
abbrev pub quantum_active : ℕ → Raised
quantum_active remaining = admission (record {
  code = "training_quantum_active";
  retry_after = if ltb remaining 100000 then 100000 else remaining;
})

module _ (o : Outside) where
  open o use {World}

  -- The stamps of the store are texts that it wrote itself, so they parse.
  unfoldable pub normal_since : String → M World Stamp
  normal_since id c =
      let (t, w) = o.now c.world in
      let (s, since) = controller_normal_since id t c.store in
      (ok since, record c { store = s; world = w })

  abbrev pub inside : Stamp → Stamp → ControllerPolicy → Bool
  inside now since p = ltb now (since + p.minimum_normal)

  abbrev pub past_quantum : Stamp → ControllerPolicy → Stamp → M World (Unit {0})
  past_quantum now p since =
      if inside now since p
      then raise (quantum_active (since + p.minimum_normal - now))
      else pure tt

  unfoldable pub enforce_quanta : Stamp → List ControllerPolicy → M World (Unit {0})
  unfolding normal_since
  enforce_quanta now [] = pure tt
  enforce_quanta now (p ∷ r) = do
    (if is_training p.workload_kind
        then (do since ← normal_since p.id; past_quantum now p since)
        else pure tt)
    enforce_quanta now r

  unfoldable pub mark_normal : String → M World (Unit {0})
  mark_normal id c =
      let (t, w) = o.now c.world in
      (ok tt, record c { store = mark_controller_normal id t c.store; world = w })

  unfoldable pub mark_restored : List ControllerPolicy → List String → M World (Unit {0})
  unfolding mark_normal
  mark_restored [] restored = pure tt
  mark_restored (p ∷ r) restored = do
    (if is_training p.workload_kind && contains p.profile_id restored
        then mark_normal p.id
        else pure tt)
    mark_restored r restored

  -- `observation_generation <= causal_generation`; no floor is -1
  abbrev pub newer : Option ℕ → ℕ → Bool
  newer none g = true
  newer (some causal) g = ltb causal g

  abbrev pub policy_of : Option ControllerPolicy → M World ControllerPolicy
  policy_of none = deferral "controller_missing"
  policy_of (some p) = pure p

  -- One controller of `_restore_handle`: the generation at which its restoration was observed.
  unfoldable pub restore_one : Lease → Option ℕ → Throttle → M World (ℕ × String)
  unfolding get_uuid set_mode combined_snapshot
  restore_one lease causal t = do
    found ← gets (λ c. find (with_id t.controller_id) c.policy.controllers)
    p ← policy_of found
    u ← get_uuid o
    let mutation_id = joined ("mutation_" ∷ u ∷ [])
    ack ←
        set_mode o p mutation_id t.normal_mode lease.id lease.fencing_token lease.broker_epoch
          (t.generation + 1000000) (joined ("release:" ∷ lease.job_id ∷ []))
    observation ← combined_snapshot o
    g ← lift (generation_of observation)
    (if newer causal g then pure tt else deferral "controller_restore_stale")
    lift (
        verify_observation observation p.id mutation_id lease.id lease.fencing_token
          lease.broker_epoch (t.generation + 1000000) t.normal_mode ack)
    pure (g, p.profile_id)

  -- The loop of `_restore_handle`, over the records in reverse.
  unfoldable pub restore_all :
      Lease → Option ℕ → ℕ → List String → List Throttle → M World (ℕ × List String)
  unfolding restore_one
  restore_all lease causal expected restored [] = pure (expected, restored)
  restore_all lease causal expected restored (t ∷ r) = do
    (g, profile) ← restore_one lease causal t
    restore_all lease (some g) (max expected g) (restored ++ (profile ∷ [])) r

  unfoldable pub restore_handle : LeaseHandle → Option ℕ → M World (ℕ × List String)
  unfolding restore_all
  restore_handle h floor = restore_all h.lease floor 0 [] (reverse h.throttled)

  -- The journal of the throttle records, in the handle and in the store.
  unfoldable pub journal : String → Throttle → M World (Unit {0})
  unfolding set_status
  journal lease_id t = do
    modify (λ c. record c { throttled = c.throttled ++ (t ∷ []) })
    records ← gets (λ c. c.throttled)
    set_status o lease_id acquiring (some records) none

  abbrev pub replace_last : List Throttle → Throttle → List Throttle
  replace_last [] t = []
  replace_last (x ∷ []) t = t ∷ []
  replace_last (x ∷ y ∷ r) t = x ∷ replace_last (y ∷ r) t

  -- throttle_record["state"] = "applied", on the record journalled last
  unfoldable pub journal_applied : String → Throttle → M World (Unit {0})
  unfolding set_status
  journal_applied lease_id t = do
    modify (λ c. record c { throttled = replace_last c.throttled t })
    records ← gets (λ c. c.throttled)
    set_status o lease_id acquiring (some records) none
