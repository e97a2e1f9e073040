-- ===== src/Resources/Sample.antt =====
-- The rest of `_combined_snapshot_serialized`: memory, generation, and the snapshot it returns.
use go7_spark_broker.Prelude.{
  ℕ, String, Bool, true, false, not, ◌&&◌, ◌||◌, Option, none, some, List, [], ◌∷◌, all, lookup,
  Result, ok, err, ◌>>=◌, ◌>>◌, ltb, leb, eqb, if◌then◌else◌,
}
use go7_spark_broker.Json.{Json, boolean, int, object, Fields, get_field}
use go7_spark_broker.Resources.Types.{ControllerState, Snapshot}
use go7_spark_broker.Resources.Admission.{deferred}
use go7_spark_broker.Resources.Probe.{
  Raised, admission, need, take_or, as_count, names, covers, is_none, has_count, check_health,
  read_active, read_table, owned_record, healthy_record, valid_metrics, valid_count,
  read_controllers,
}

-- Either both numbers of the CUDA envelope are there and consistent, or neither.
abbrev pub valid_envelope : Option ℕ → Option ℕ → Bool
valid_envelope (some a) (some t) = ltb 0 t && leb a t
valid_envelope _ _ = false

abbrev pub envelope_of : Fields → Result Raised (Option ℕ × Option ℕ)
envelope_of f =
    let a = get_field "cudaAllocatableBytes" f in
    let t = get_field "cudaAddressSpaceTotalBytes" f in
    if is_none a && is_none t
    then ok (none, none)
    else do need (valid_envelope (as_count a) (as_count t)); ok (as_count a, as_count t)

unfoldable pub read_metrics : Option Json → Result Raised (Option ℕ × Option ℕ)
read_metrics (some (object f)) = envelope_of f
read_metrics o = do need (is_none o); ok (none, none)

abbrev pub is_boolean : Option Json → Bool
is_boolean (some (boolean b)) = true
is_boolean _ = false

abbrev pub is_integer : Option Json → Bool
is_integer (some (int z)) = true
is_integer _ = false

abbrev pub says_false : Option Json → Bool
says_false (some (boolean b)) = not b
says_false _ = false

abbrev pub gpu_memory_fields : List String
gpu_memory_fields =
    "reportedUsedBytes" ∷ "attributedBytes" ∷ "residualBytes" ∷ "reconciled" ∷ "toleranceBytes" ∷ []

unfoldable pub valid_gpu_memory : ℕ → Fields → Bool
valid_gpu_memory unknown f =
    covers (names f) gpu_memory_fields
    && covers gpu_memory_fields (names f)
    && is_boolean (get_field "reconciled" f)
    && valid_count (get_field "reportedUsedBytes" f)
    && valid_count (get_field "attributedBytes" f)
    && (is_none (get_field "residualBytes" f) || is_integer (get_field "residualBytes" f))
    && has_count (as_count (get_field "toleranceBytes" f))
    && not (
        not (is_none (get_field "reportedUsedBytes" f))
        && says_false (get_field "reconciled" f)
        && eqb unknown 0)

unfoldable pub read_gpu_memory : ℕ → Option Json → Result Raised (Unit {0})
unfolding valid_gpu_memory
read_gpu_memory unknown (some (object f)) = need (valid_gpu_memory unknown f)
read_gpu_memory unknown o = need (is_none o)

-- What the probe said, once it is accepted.
pub record Remote : Type 0 where
  pub healthy : Bool
  pub unknown : ℕ
  pub active : List String
  pub profiles : List (String × Fields)
  pub controllers : List (String × ControllerState)
  pub cuda_allocatable : Option ℕ
  pub generation : ℕ

abbrev pub required_fields : List String
required_fields =
    "health" ∷ "generation" ∷ "unknownConsumers" ∷ "activeProfiles" ∷ "profiles"
    ∷ "controllerStates" ∷ []

unfoldable pub read_remote : Fields → Result Raised Remote
unfolding read_active read_table read_controllers read_metrics read_gpu_memory
read_remote f = do
  need (covers (names f) required_fields)
  is_healthy ← check_health (get_field "health" f)
  active ← read_active (get_field "activeProfiles" f)
  unknown ← take_or (as_count (get_field "unknownConsumers" f))
  profiles ← read_table (get_field "profiles" f)
  need (all (λ id. owned_record (lookup id profiles)) active)
  need (all (λ p. valid_metrics p.1) profiles)
  states ← read_table (get_field "controllerStates" f)
  controllers ← read_controllers states
  (allocatable, total) ← read_metrics (get_field "metrics" f)
  read_gpu_memory unknown (get_field "gpuMemory" f)
  generation ← take_or (as_count (get_field "generation" f))
  ok (record {
    healthy = is_healthy && all (λ id. healthy_record (lookup id profiles)) active;
    unknown = unknown;
    active = active;
    profiles = profiles;
    controllers = controllers;
    cuda_allocatable = allocatable;
    generation = generation;
  })

-- What `HostProbe.snapshot` reads of the host.
pub record Host : Type 0 where
  pub available_memory : Option ℕ
  pub total_memory : Option ℕ
  pub memory_pressure : Option ℕ

abbrev pub local_snapshot : Host → Option Bool → Snapshot
local_snapshot h healthy = record {
  available_memory = h.available_memory;
  total_memory = h.total_memory;
  memory_pressure = h.memory_pressure;
  probe_healthy = healthy;
  unknown_consumers = none;
  active_profiles = [];
  profiles = [];
  controller_states = none;
  cuda_allocatable = none;
  probe_generation = none;
}

abbrev pub remote_snapshot : Host → Remote → Snapshot
remote_snapshot h r = record {
  available_memory = h.available_memory;
  total_memory = h.total_memory;
  memory_pressure = h.memory_pressure;
  probe_healthy = some r.healthy;
  unknown_consumers = some r.unknown;
  active_profiles = r.active;
  profiles = r.profiles;
  controller_states = some r.controllers;
  cuda_allocatable = r.cuda_allocatable;
  probe_generation = some r.generation;
}

-- `_last_probe_generation`: none is -1.
abbrev pub regressed : Option ℕ → ℕ → Bool
regressed none generation = false
regressed (some last) generation = ltb generation last

abbrev pub accept : Host → Option ℕ → Remote → Result Raised Snapshot
accept h last r =
    if regressed last r.generation
    then err (admission (deferred "resource_probe_regressed"))
    else ok (remote_snapshot h r)
