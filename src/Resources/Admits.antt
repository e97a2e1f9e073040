-- ===== src/Resources/Admits.antt =====
-- What it takes to be admitted: the checks against a description of the host.
use go7_spark_broker.Prelude.{
  ℕ, ◌+◌, ◌*◌, ◌≤◌, ◌≡◌, ◌↔◌, inl, inr, String, true, false, not, ◌&&◌, Option, some, List, [], ◌∷◌,
  arith, All, select, contains, lookup, is_empty, Bool-cases, Option-cases, ok, ◌==◌, eq_iff,
  if◌then◌else◌,
}
use go7_spark_broker.Resources.Types.{exclusive, ExecutionPlan, ResourcePolicy, Snapshot}
use go7_spark_broker.Json.{Fields}
use go7_spark_broker.Resources.Admission.{
  gib, check_memory, check_cuda, validate_snapshot, validate_compatibility, is_true, none_or_zero,
  is_unhealthy, is_healthy, exceeds,
}

-- A measure that was taken and leaves the required bytes.
abbrev pub Leaves : Option ℕ → ℕ → Type 0
Leaves measure required = (n : ℕ) × (measure ≡ some n) × (required ≤ n)

-- The bytes that the plan needs on top of a reserve: none if its profile is resident.
abbrev pub need : ResourcePolicy → ℕ → Snapshot → ExecutionPlan → ℕ
need policy reserve s plan =
    if contains plan.profile_id s.active_profiles
    then reserve
    else reserve + plan.estimated_memory_gb * gib

-- The host as an administrator would describe a safe admission.
pub record IsAdmissible (policy : ResourcePolicy) (s : Snapshot) (plan : ExecutionPlan)
    : Type 0 where
  pub observed : policy.require_probe ≡ true → s.probe_healthy ≡ some true
  pub no_unknown : (n : ℕ) → s.unknown_consumers ≡ some n → n ≡ 0
  pub healthy : (f : Fields) → lookup plan.profile_id s.profiles ≡ some f → is_healthy f ≡ true
  pub calm : (p : ℕ) → s.memory_pressure ≡ some p → p ≤ policy.maximum_memory_pressure
  pub memory :
      policy.enforce_memory_admission ≡ true
      → Leaves s.available_memory (need policy policy.host_reserve_bytes s plan)
  pub cuda :
      policy.enforce_cuda_admission ≡ true
      → Leaves s.cuda_allocatable (need policy policy.cuda_reserve_bytes s plan)

module _ (policy : ResourcePolicy) (s : Snapshot) (plan : ExecutionPlan) where
  memory-Leaves :
      check_memory policy s plan ≡ ok tt
      → policy.enforce_memory_admission ≡ true
      → Leaves s.available_memory (need policy policy.host_reserve_bytes s plan)
  unfolding check_memory
  memory-Leaves h e = elim (Option-cases s.available_memory) [
    | inl n ↦ absurd (ground arith)
    | inr (n, m) ↦ (n, m, ground arith)
  ]

  cuda-Leaves :
      check_cuda policy s plan ≡ ok tt
      → policy.enforce_cuda_admission ≡ true
      → Leaves s.cuda_allocatable (need policy policy.cuda_reserve_bytes s plan)
  unfolding check_cuda
  cuda-Leaves h e = elim (Option-cases s.cuda_allocatable) [
    | inl n ↦ absurd (ground arith)
    | inr (n, m) ↦ (n, m, ground arith)
  ]

  memory_passes :
      (policy.enforce_memory_admission ≡ true
        → Leaves s.available_memory (need policy policy.host_reserve_bytes s plan))
      → check_memory policy s plan ≡ ok tt
  unfolding check_memory
  memory_passes h = elim (Bool-cases policy.enforce_memory_admission) [
    | inl e ↦ let (n, m, l) = h e in ground arith
    | inr e ↦ ground arith
  ]

  cuda_passes :
      (policy.enforce_cuda_admission ≡ true
        → Leaves s.cuda_allocatable (need policy policy.cuda_reserve_bytes s plan))
      → check_cuda policy s plan ≡ ok tt
  unfolding check_cuda
  cuda_passes h = elim (Bool-cases policy.enforce_cuda_admission) [
    | inl e ↦ let (n, m, l) = h e in ground arith
    | inr e ↦ ground arith
  ]

  observed_passes :
      IsAdmissible policy s plan → (policy.require_probe && not (is_true s.probe_healthy)) ≡ false
  observed_passes a = elim (Bool-cases policy.require_probe) [
    | inl e ↦ ground (arith, a.observed e)
    | inr e ↦ ground arith
  ]

  unknown_passes : IsAdmissible policy s plan → none_or_zero s.unknown_consumers ≡ true
  unknown_passes a = elim (Option-cases s.unknown_consumers) [
    | inl e ↦ rw e
    | inr (n, e) ↦ ground (arith, a.no_unknown n e)
  ]

  healthy_passes :
      IsAdmissible policy s plan → is_unhealthy (lookup plan.profile_id s.profiles) ≡ false
  healthy_passes a = elim (Option-cases (lookup plan.profile_id s.profiles)) [
    | inl e ↦ rw e
    | inr (f, e) ↦ rw e (rw (a.healthy f e))
  ]

  calm_passes :
      IsAdmissible policy s plan → exceeds s.memory_pressure policy.maximum_memory_pressure ≡ false
  calm_passes a = elim (Option-cases s.memory_pressure) [
    | inl e ↦ rw e
    | inr (p, e) ↦ ground (arith, a.calm p e)
  ]

  -- `_validate_snapshot` with the capacity check passes exactly on a host that is admissible: healthy
  -- where a probe is required, without an unknown consumer, an unhealthy record of the profile or
  -- pressure above the maximum, and with the reserves and the needed memory free where that is
  -- enforced.
  pub validate_snapshot-IsAdmissible :
      (validate_snapshot policy s plan true ≡ ok tt) ↔ IsAdmissible policy s plan
  unfolding validate_snapshot
  validate_snapshot-IsAdmissible = (
    λ h. record {
      observed = λ r. ground arith;
      no_unknown = λ n e. ground arith;
      healthy = λ f e. ground arith;
      calm = λ p e. ground arith;
      memory = memory-Leaves (ground arith);
      cuda = cuda-Leaves (ground arith);
    },
    λ a. rw (
      observed_passes a,
      unknown_passes a,
      healthy_passes a,
      calm_passes a,
      memory_passes a.memory,
      cuda_passes a.cuda,
    ),
  )

  other_profiles :
      (l : List String)
      → is_empty (select (λ p. not (p == plan.profile_id)) l) ≡ true
      → All (λ p. p ≡ plan.profile_id) l
  other_profiles [] h = tt
  other_profiles (p ∷ r) h = (
    ground (arith, eq_iff p plan.profile_id),
    other_profiles r (ground (arith, eq_iff p plan.profile_id)),
  )

  -- If an exclusive plan passes the compatibility check on a snapshot with a healthy probe, every
  -- active profile is its own.
  pub validate_compatibility-exclusive :
      validate_compatibility policy s plan ≡ ok tt
      → s.probe_healthy ≡ some true
      → plan.lease_mode ≡ exclusive
      → All (λ p. p ≡ plan.profile_id) s.active_profiles
  unfolding validate_compatibility
  validate_compatibility-exclusive h probe mode = other_profiles s.active_profiles (ground arith)
