-- ===== src/Examples/Gpu.antt =====
-- Admission to the GPU, at fixed inputs.
use go7_spark_broker.Prelude.{
  sort_by, ℕ, ◌≡◌, ◌↔◌, ◌⊎◌, ◌+◌, refl, true, false, some, [], ◌∷◌, All, map, ok,
}
use go7_spark_broker.Prelude.Exec.{◌>>>=◌, catch, attempt}
use go7_spark_broker.Prelude.Outcomes.{Outcome}
use go7_spark_broker.Store.Tables.{active, released}
use go7_spark_broker.Store.Leases.{get_resource_lease, held_leases, insert_lease}
use go7_spark_broker.Store.Invariant.{IsWellFormed}
use go7_spark_broker.Resources.Admission.{
  controllers_for, released_profile_is_verified, validate_snapshot, validate_compatibility,
}
use go7_spark_broker.Resources.Admits.{
  IsAdmissible, validate_snapshot-IsAdmissible, validate_compatibility-exclusive,
}
use go7_spark_broker.Resources.Coordinator.{Coordinator, is_some}
use go7_spark_broker.Resources.Lifecycle.{LeaseHandle}
use go7_spark_broker.Resources.Acquire.{acquire, release}
use go7_spark_broker.Resources.Sole.{NoneHeld}
use go7_spark_broker.Resources.Sound.{at_least}
use go7_spark_broker.Resources.Exclusive.{Says, IsGranted, IsUncertain}
use go7_spark_broker.Resources.Grants.{Answered, Refused}
use go7_spark_broker.Resources.Holders.{
  acquires, acquire-Outcome, release-Outcome, perform_all, perform_all-keeps,
}
use go7_spark_broker.Resources.Startup.{EpochFile, reconcile_after_lock}
use go7_spark_broker.Resources.Pending.{NoneInUse}
use go7_spark_broker.Resources.Restarted.{IsRecovered, reconcile_after_lock-fail_closed}
use go7_spark_broker.Examples.Data.{
  plan, policy, calm, idle, start, busy, lease, queued_store-IsWellFormed,
}

validate_snapshot-IsAdmissible_example :
    (validate_snapshot policy calm plan true ≡ ok tt) ↔ IsAdmissible policy calm plan
validate_snapshot-IsAdmissible_example = validate_snapshot-IsAdmissible policy calm plan

admits : validate_snapshot policy calm plan true ≡ ok tt
unfolding validate_snapshot
admits = refl

compatible : validate_compatibility policy calm plan ≡ ok tt
unfolding validate_compatibility
compatible = refl

validate_compatibility-exclusive_example : All (λ p. p ≡ "flux") calm.active_profiles
validate_compatibility-exclusive_example =
    validate_compatibility-exclusive policy calm plan compatible refl refl

acquire-Outcome_example :
    Outcome
      (Answered idle [])
      (Refused idle [])
      (acquire idle "job_1" plan false start).0
      (acquire idle "job_1" plan false start).1
acquire-Outcome_example = acquire-Outcome idle "job_1" plan false start

abbrev taken : Coordinator ℕ
unfolding acquire
taken = (acquire idle "job_1" plan false start).1

-- The lease is granted on the idle host, and released.
takes : map (λ l. l.status) taken.store.leases ≡ active ∷ []
unfolding taken ◌>>>=◌ held_leases sort_by validate_snapshot controllers_for insert_lease catch
    validate_compatibility
takes = refl

abbrev handle : LeaseHandle
handle = record { lease = record (lease "l1") { status = active }; throttled = [] }

granted : IsGranted handle busy
unfolding get_resource_lease
granted = record {
  stored = refl;
  is_active = refl;
  sole = record {
    there = (handle.lease, refl, refl);
    rows = (((λ _. refl), (λ n. absurd (cc))), tt);
  };
}

release-Outcome_example :
    Outcome
      (λ _. Says NoneHeld)
      (λ _. IsUncertain)
      (release idle (some handle) busy).0
      (release idle (some handle) busy).1
release-Outcome_example = release-Outcome idle handle busy granted

perform_all-keeps_example :
    IsWellFormed (perform_all idle (acquires "job_1" plan false ∷ []) start).store
    × (at_least 3 (perform_all idle (acquires "job_1" plan false ∷ []) start).last_generation
        ≡ true)
    × (is_some start.quarantine ≡ true
        → is_some (perform_all idle (acquires "job_1" plan false ∷ []) start).quarantine ≡ true)
perform_all-keeps_example =
    perform_all-keeps idle (acquires "job_1" plan false ∷ []) start 3 queued_store-IsWellFormed refl

abbrev epoch_file : EpochFile ℕ
epoch_file = record { read = λ w. (ok 4, w); write = λ n w. (ok tt, w + n) }

-- A restart lets the lease of `busy` go, for the idle host shows that its profile is gone.
abbrev restarted : Coordinator ℕ
unfolding reconcile_after_lock
restarted = (reconcile_after_lock idle "broker_1" epoch_file busy).1

lets_go : map (λ l. l.status) restarted.store.leases ≡ released ∷ []
unfolding restarted ◌>>>=◌ reconcile_after_lock attempt sort_by released_profile_is_verified
lets_go = refl

reconcile_after_lock-fail_closed_example :
    Outcome
      (λ _. IsRecovered)
      (λ _ d. (d.store.leases ≡ busy.store.leases) ⊎ NoneInUse d.store.leases)
      (reconcile_after_lock idle "broker_1" epoch_file busy).0
      (reconcile_after_lock idle "broker_1" epoch_file busy).1
reconcile_after_lock-fail_closed_example =
    reconcile_after_lock-fail_closed idle "broker_1" epoch_file busy
