-- ===== src/Scheduler/Types.antt =====
-- scheduler.py: executors as programs that call back, and the state of the scheduler's thread.
use go7_spark_broker.Prelude.{ℕ, String, Bool, Option, none, some, List, [], ◌∷◌, Result}
use go7_spark_broker.Json.{Json, null, int, pos, text, boolean, Fields, dict}
use go7_spark_broker.Store.Tables.{Job, JobStatus}
use go7_spark_broker.Resources.Types.{
  ExecutionPlan, Snapshot, Deferred, LeaseMode, exclusive, shared_certified, permit, no_lease,
  PreemptionMode, no_preemption, checkpoint, class_name,
}
use go7_spark_broker.Resources.Coordinator.{Coordinator}
use go7_spark_broker.Resources.Lifecycle.{LeaseHandle}

-- What the body of `_execute` catches, each by its class: `AdmissionDeferred`, `ExecutionCancelled`,
-- `ContractError`, `ExecutionFailure`, and the others by the name of the class: where a handler asks
-- for `OSError`, `ValueError` or `ArtifactError`, an instance of a subclass has the name of that class.
pub data Failure : Type 0 where
  deferral : Deferred → Failure
  cancellation : Failure
  contract : (code : String) (field : Option String) → Failure
  execution : (code : String) (retryable : Bool) → Failure
  other : String → Failure

-- The body of an executor: it moves the world, asks its control whether to stop, and calls `stage`,
-- whose exception it may handle.
pub data Program (W A : Type 0) : Type 0 where
  ends : Result Failure A → Program W A
  acts : (W → W) → (W → Program W A) → Program W A
  asks : (Bool → Program W A) → Program W A
  stages : JobStatus → Option Json → (Result Failure (Unit {0}) → Program W A) → Program W A

-- An executor, which the scheduler calls, and what else it takes from outside: `interrupted` is whether
-- the stop event is set or the execution window, of that length, is over; `is_late` whether the time of
-- a deadline has come; `message` and `detail` are the texts of exceptions.
pub record Executor (W : Type 0) : Type 0 where
  pub profile_id : String
  pub validate_request : Job → W → Result Failure (Unit {0}) × W
  pub plan : Job → Option Snapshot → W → Result Failure ExecutionPlan × W
  pub activate_plan : ExecutionPlan → Program W (Unit {0})
  pub execute_plan : ExecutionPlan → Job → Program W Fields
  pub deactivate_plan : ExecutionPlan → W → Result Failure Bool × W
  pub interrupted : Option ℕ → W → Bool
  pub is_late : String → W → Bool
  pub message : Failure → String
  pub detail : Deferred → List (String × Json)

-- The state that `status` shows.
pub record Shown : Type 0 where
  pub job_id : Option String
  pub priority : Option ℕ
  pub plan : Option ExecutionPlan
  pub profile_id : Option String
  pub profile_state : Option String

-- The coordinator and the store behind it, the locals of `_execute`, and the shown state. `window` is
-- the execution window of the control.
pub record Thread (W : Type 0) : Type 0 where
  pub host : Coordinator W
  pub lease : Option LeaseHandle
  pub plan : Option ExecutionPlan
  pub performed : Bool
  pub activated : Bool
  pub attempted : Bool
  pub window : Option ℕ
  pub shown : Shown

abbrev pub mode_name : LeaseMode → String
mode_name exclusive = "exclusive"
mode_name shared_certified = "shared-certified"
mode_name permit = "permit"
mode_name no_lease = "none"

abbrev pub preemption_name : PreemptionMode → String
preemption_name no_preemption = "none"
preemption_name checkpoint = "checkpoint"

abbrev pub text_or_null : Option String → Json
text_or_null none = null
text_or_null (some t) = text t

-- `ExecutionPlan.public`
abbrev pub plan_json : ExecutionPlan → Json
plan_json p = dict (
    ("profileId", text p.profile_id)
    ∷ ("routeId", text_or_null p.route_id)
    ∷ ("resourceGroup", text_or_null p.resource_group)
    ∷ ("serviceClass", text (class_name p.service_class))
    ∷ ("leaseMode", text (mode_name p.lease_mode))
    ∷ ("estimatedMemoryGb", int (pos p.estimated_memory_gb))
    ∷ ("preemptionMode", text (preemption_name p.preemption_mode))
    ∷ ("routeReason", text p.route_reason)
    ∷ ("verifyProfileActive", boolean p.verify_profile_active)
    ∷ [])
