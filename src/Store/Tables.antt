-- ===== src/Store/Tables.antt =====
-- The tables of `Store._initialize`. A row is a record, a table the list of its rows in the order
-- of insertion. Columns that hold JSON hold the value.
use go7_spark_broker.Prelude.{ℕ, String, Bool, true, false, ◌&&◌, Option, List, [], ◌==◌}
use go7_spark_broker.Json.{Json}
use go7_spark_broker.Clock.{Stamp}
use go7_spark_broker.Contract.Types.{Request}
use go7_spark_broker.Resources.Types.{ServiceClass, LeaseMode, Throttle, Decision}

-- `JOB_STATES`
pub data JobStatus : Type 0 where
  queued loading running validating completed failed cancelled interrupted : JobStatus

abbrev pub is_queued : JobStatus → Bool
is_queued queued = true
is_queued _ = false

-- status IN ('loading','running','validating')
abbrev pub is_active : JobStatus → Bool
is_active loading = true
is_active running = true
is_active validating = true
is_active _ = false

-- status IN ('queued','loading','running','validating')
abbrev pub is_pending : JobStatus → Bool
is_pending queued = true
is_pending loading = true
is_pending running = true
is_pending validating = true
is_pending _ = false

-- status IN ('completed','failed','cancelled','interrupted')
abbrev pub is_terminal : JobStatus → Bool
is_terminal completed = true
is_terminal failed = true
is_terminal cancelled = true
is_terminal interrupted = true
is_terminal _ = false

pub record Job : Type 0 where
  pub id : String
  pub origin : String
  pub idempotency_key : String
  pub request_id : String
  pub trace_id : String
  pub capability : String
  pub priority : ℕ
  pub status : JobStatus
  pub request_digest : String
  pub request : Request
  pub result : Option Json
  pub error : Option Json
  pub profile_id : Option String
  pub cancel_requested : Bool
  pub attempt : ℕ
  pub created_at : Stamp
  pub updated_at : Stamp
  pub started_at : Option Stamp
  pub finished_at : Option Stamp
  pub not_before : Option Stamp

-- PRIMARY KEY
abbrev pub same_id : Job → Job → Bool
same_id j k = j.id == k.id

-- UNIQUE(origin, idempotency_key)
abbrev pub same_key : Job → Job → Bool
same_key j k = j.origin == k.origin && j.idempotency_key == k.idempotency_key

pub record JobEvent : Type 0 where
  pub sequence : ℕ
  pub job_id : String
  pub status : JobStatus
  pub detail : Json
  pub created_at : Stamp

pub record Artifact : Type 0 where
  pub id : String
  pub job_id : Option String
  pub kind : String
  pub role : String
  pub media_type : String
  pub relative_path : String
  pub sha256 : String
  pub size_bytes : ℕ
  pub metadata : Json
  pub validation : Json
  pub created_at : Stamp

pub record Epoch : Type 0 where
  pub epoch : ℕ
  pub instance_id : String
  pub started_at : Stamp

pub data LeaseStatus : Type 0 where
  acquiring active releasing released unknown denied : LeaseStatus

-- status IN ('acquiring','active','releasing','unknown')
abbrev pub is_held : LeaseStatus → Bool
is_held acquiring = true
is_held active = true
is_held releasing = true
is_held unknown = true
is_held _ = false

pub record Lease : Type 0 where
  pub id : String
  pub job_id : String
  pub broker_epoch : ℕ
  pub fencing_token : String
  pub resource_group : String
  pub profile_id : String
  pub route_id : Option String
  pub service_class : ServiceClass
  pub mode : LeaseMode
  pub estimated_memory_gb : ℕ
  pub status : LeaseStatus
  pub throttle : List Throttle
  pub decision : Decision
  pub created_at : Stamp
  pub released_at : Option Stamp

-- UNIQUE INDEX active_resource_group_idx
abbrev pub both_hold : Lease → Lease → Bool
both_hold l m = is_held l.status && is_held m.status && l.resource_group == m.resource_group

pub record Quantum : Type 0 where
  pub controller_id : String
  pub normal_since : Stamp

-- `last_sequence` is the counter of AUTOINCREMENT.
pub record Store : Type 0 where
  pub jobs : List Job
  pub events : List JobEvent
  pub last_sequence : ℕ
  pub artifacts : List Artifact
  pub epoch : Option Epoch
  pub leases : List Lease
  pub quanta : List Quantum

abbrev pub init : Store
init = record {
  jobs = [];
  events = [];
  last_sequence = 0;
  artifacts = [];
  epoch = Option.none;
  leases = [];
  quanta = [];
}

-- What a method of the store raises.
pub data StoreError : Type 0 where
  idempotency_conflict queue_full integrity_error value_error key_error overflow_error type_error :
      StoreError
