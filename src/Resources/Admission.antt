-- ===== src/Resources/Admission.antt =====
-- The pure checks of `ResourceCoordinator`: `_validate_snapshot`, `_validate_compatibility`,
-- `_released_profile_is_verified`, `_controllers_for`, and the reads of a snapshot they rest on.
use go7_spark_broker.Prelude.{
  ℕ, ◌+◌, ◌*◌, String, Bool, true, false, not, ◌&&◌, ◌||◌, Option, none, some, List, select, any,
  all, contains, lookup, is_empty, sort_by, str_lt, Result, ok, err, ◌>>◌, eqb, ltb, ◌==◌,
  if◌then◌else◌,
}
use go7_spark_broker.Resources.Types.{
  ServiceClass, LeaseMode, exclusive, ExecutionPlan, WorkloadKind, ControllerPolicy, ResourcePolicy,
  Snapshot, Deferred,
}
use go7_spark_broker.Json.{Json, text, Fields, get_field}

abbrev pub Check : Type 0
Check = Result Deferred (Unit {0})

-- `raise AdmissionDeferred(code, …)`, with the default of two seconds
abbrev pub deferred : String → Deferred
deferred code = record { code = code; retry_after = 2000000 }

-- … with `retry_after_seconds=10`
abbrev pub deferred_long : String → Deferred
deferred_long code = record { code = code; retry_after = 10000000 }

abbrev pub require : Bool → Deferred → Check
require true d = ok tt
require false d = err d

-- value is True
abbrev pub is_true : Option Bool → Bool
is_true (some b) = b
is_true none = false

-- value in {None, 0}, and value == 0
abbrev pub none_or_zero : Option ℕ → Bool
none_or_zero none = true
none_or_zero (some n) = eqb n 0

abbrev pub is_zero : Option ℕ → Bool
is_zero none = false
is_zero (some n) = eqb n 0

-- isinstance(profile, dict) and profile.get("health") != "healthy"
abbrev pub says : String → Option Json → Bool
says t (some (text u)) = u == t
says t _ = false

abbrev pub is_healthy : Fields → Bool
is_healthy profile = says "healthy" (get_field "health" profile)

abbrev pub is_unhealthy : Option Fields → Bool
is_unhealthy none = false
is_unhealthy (some profile) = not (is_healthy profile)

abbrev pub exceeds : Option ℕ → ℕ → Bool
exceeds none limit = false
exceeds (some p) limit = ltb limit p

abbrev pub gib : ℕ
gib = 1073741824

abbrev pub is_resident : ExecutionPlan → Snapshot → Bool
is_resident plan s = contains plan.profile_id s.active_profiles

-- int((reserve + (0 if resident else estimated)) * 1024**3)
abbrev pub required_bytes : ℕ → ExecutionPlan → Snapshot → ℕ
required_bytes reserve plan s =
    reserve + (if is_resident plan s then 0 else plan.estimated_memory_gb * gib)

-- The measure is there and is at least what is required.
abbrev pub check_bytes : Option ℕ → ℕ → String → String → Check
check_bytes none required absent short = err (deferred absent)
check_bytes (some available) required absent short =
    require (not (ltb available required)) (deferred short)

unfoldable pub check_memory : ResourcePolicy → Snapshot → ExecutionPlan → Check
check_memory policy s plan =
    if policy.enforce_memory_admission
    then check_bytes s.available_memory (required_bytes policy.host_reserve_bytes plan s)
        "memory_unknown" "insufficient_memory"
    else ok tt

unfoldable pub check_cuda : ResourcePolicy → Snapshot → ExecutionPlan → Check
check_cuda policy s plan =
    if policy.enforce_cuda_admission
    then check_bytes s.cuda_allocatable (required_bytes policy.cuda_reserve_bytes plan s)
        "cuda_memory_unknown" "insufficient_cuda_memory"
    else ok tt

unfoldable pub validate_snapshot : ResourcePolicy → Snapshot → ExecutionPlan → Bool → Check
unfolding check_memory check_cuda
validate_snapshot policy s plan check_capacity = do
  require (not (policy.require_probe && not (is_true s.probe_healthy)))
      (deferred "resource_probe_unhealthy")
  require (none_or_zero s.unknown_consumers) (deferred_long "unknown_gpu_consumer")
  require (not (is_unhealthy (lookup plan.profile_id s.profiles)))
      (deferred "selected_profile_unhealthy")
  require (not (exceeds s.memory_pressure policy.maximum_memory_pressure))
      (deferred "memory_pressure")
  if check_capacity then (do check_memory policy s plan; check_cuda policy s plan) else ok tt

-- probeHealthy is True, unknownConsumers == 0, and the profile gone if it must be
unfoldable pub released_profile_is_verified : Snapshot → String → Bool → Bool
released_profile_is_verified s profile_id requires_absence =
    is_true s.probe_healthy
    && is_zero s.unknown_consumers
    && (not requires_absence || not (contains profile_id s.active_profiles))

abbrev pub is_exclusive : LeaseMode → Bool
is_exclusive exclusive = true
is_exclusive _ = false

-- tuple(sorted((a, b)))
abbrev pub sorted_pair : String → String → String × String
sorted_pair a b = if str_lt b a then (b, a) else (a, b)

abbrev pub is_certified : List (String × String) → String → String → Bool
is_certified pairs a b =
    any (λ p. (p.0 == (sorted_pair a b).0) && (p.1 == (sorted_pair a b).1)) pairs

-- The other profiles that are active. The source walks over their set; here duplicates stay, which
-- changes no outcome.
abbrev pub others : Snapshot → ExecutionPlan → List String
others s plan = select (λ p. not (p == plan.profile_id)) s.active_profiles

unfoldable pub validate_compatibility : ResourcePolicy → Snapshot → ExecutionPlan → Check
validate_compatibility policy s plan =
    if not (is_true s.probe_healthy) || is_empty (others s plan) then ok tt else do
      require (not (is_exclusive plan.lease_mode)) (deferred "exclusive_profile_conflict")
      require
          (all (λ p. is_certified policy.shared_certifications p plan.profile_id) (others s plan))
          (deferred "uncertified_coexistence")

-- plan.service_class in item.throttle_for
abbrev pub same_class : ServiceClass → ServiceClass → Bool
same_class ServiceClass.interactive ServiceClass.interactive = true
same_class ServiceClass.batch ServiceClass.batch = true
same_class ServiceClass.background ServiceClass.background = true
same_class ServiceClass.training ServiceClass.training = true
same_class ServiceClass.system ServiceClass.system = true
same_class _ _ = false

abbrev pub is_training : WorkloadKind → Bool
is_training WorkloadKind.training = true
is_training _ = false

abbrev pub is_displaced : ExecutionPlan → ControllerPolicy → Bool
is_displaced plan c =
    any (same_class plan.service_class) c.throttle_for && not (c.profile_id == plan.profile_id)

-- key=lambda item: (item.priority, item.id)
unfoldable pub controller_before : ControllerPolicy → ControllerPolicy → Bool
controller_before a b = ltb a.priority b.priority || (eqb a.priority b.priority && str_lt a.id b.id)

unfoldable pub controllers_for : ResourcePolicy → ExecutionPlan → List ControllerPolicy
unfolding controller_before
controllers_for policy plan =
    sort_by controller_before (select (is_displaced plan) policy.controllers)
