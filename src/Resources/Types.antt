-- ===== src/Resources/Types.antt =====
-- The records of spark_broker/resources.py: plans, policies, what the probe reports.
--
-- Quantities that the source holds as floats are whole numbers in the unit of the source's input:
-- memory reserves in bytes (a reserve of a whole number of bytes is exact in the source's floats
-- too), memory pressure in hundredths of a percent (as the kernel prints it), times in microseconds.
use go7_spark_broker.Prelude.{ℕ, String, Bool, Option, List}
use go7_spark_broker.Json.{Fields}

-- `_SERVICE_CLASSES`
pub data ServiceClass : Type 0 where
  interactive batch background training system : ServiceClass

abbrev pub class_name : ServiceClass → String
class_name interactive = "interactive"
class_name batch = "batch"
class_name background = "background"
class_name training = "training"
class_name system = "system"

-- `_LEASE_MODES`
pub data LeaseMode : Type 0 where
  exclusive shared_certified permit no_lease : LeaseMode

pub data PreemptionMode : Type 0 where
  no_preemption checkpoint : PreemptionMode

pub record ExecutionPlan : Type 0 where
  pub profile_id : String
  pub route_id : Option String
  pub resource_group : Option String
  pub service_class : ServiceClass
  pub lease_mode : LeaseMode
  pub estimated_memory_gb : ℕ
  pub preemption_mode : PreemptionMode
  pub route_reason : String
  pub verify_profile_active : Bool

pub data WorkloadKind : Type 0 where
  training inference background : WorkloadKind

pub record ControllerPolicy : Type 0 where
  pub id : String
  pub profile_id : String
  pub throttle_for : List ServiceClass
  pub normal_mode : String
  pub throttled_mode : String
  pub priority : ℕ
  pub workload_kind : WorkloadKind
  pub requires_checkpoint : Bool
  pub minimum_normal : ℕ

pub record ResourcePolicy : Type 0 where
  pub host_reserve_bytes : ℕ
  pub cuda_reserve_bytes : ℕ
  pub maximum_memory_pressure : ℕ
  pub enforce_memory_admission : Bool
  pub enforce_cuda_admission : Bool
  pub require_probe : Bool
  -- `probe_endpoint` and `probe_token_file`
  pub probe_endpoint : Option String
  pub probe_token_file : Option String
  pub controllers : List ControllerPolicy
  pub shared_certifications : List (String × String)
  pub maximum_inference_window : Option ℕ

pub record Checkpoint : Type 0 where
  pub run_id : String
  pub checkpoint_id : String
  pub sha256 : String

-- The state of a controller, as the probe publishes it.
pub record ControllerState : Type 0 where
  pub mutation_id : String
  pub lease_id : String
  pub fencing_token : String
  pub broker_epoch : ℕ
  pub control_generation : ℕ
  pub effective_mode : String
  pub checkpoint : Option Checkpoint

-- What `_combined_snapshot` returns.
pub record Snapshot : Type 0 where
  pub available_memory : Option ℕ
  pub total_memory : Option ℕ
  pub memory_pressure : Option ℕ
  pub probe_healthy : Option Bool
  pub unknown_consumers : Option ℕ
  pub active_profiles : List String
  -- each profile's record as the probe sent it
  pub profiles : List (String × Fields)
  pub controller_states : Option (List (String × ControllerState))
  pub cuda_allocatable : Option ℕ
  pub probe_generation : Option ℕ

-- `acknowledgement.get("checkpoint")` of a controller's answer
pub data Ack : Type 0 where
  no_checkpoint malformed : Ack
  given : Checkpoint → Ack

-- `throttle_record["state"]`
pub data ThrottleState : Type 0 where
  requested applied : ThrottleState

pub record Throttle : Type 0 where
  pub controller_id : String
  pub normal_mode : String
  pub generation : ℕ
  pub mutation_id : String
  pub state : ThrottleState
  -- once the controller has acknowledged
  pub acknowledgement : Option Ack

-- The audit record of an admission.
pub record Decision : Type 0 where
  pub before : Snapshot
  pub plan : ExecutionPlan
  pub reason : String
  pub after_throttle : Option Snapshot

-- `AdmissionDeferred`: its code, and `retry_after_seconds` in microseconds
pub record Deferred : Type 0 where
  pub code : String
  pub retry_after : ℕ
