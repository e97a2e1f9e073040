-- ===== src/Contract/Types.antt =====
-- What `validate_job_request` of spark_broker/contract.py returns.
use go7_spark_broker.Prelude.{ℕ, String, Bool, Option, List}
use go7_spark_broker.Json.{Json}

pub record ArtifactReference : Type 0 where
  pub artifact_id : String
  pub role : Option String
  pub sha256 : Option String

pub record RequiredOutput : Type 0 where
  pub role : String
  pub kind : String
  pub media_types : List String
  pub required : Bool

pub record Workflow : Type 0 where
  pub auto_continue : Bool
  pub approved_capabilities : List String
  pub max_continuations : ℕ

-- `protocolVersion` is the constant `PROTOCOL_VERSION`.
pub record Request : Type 0 where
  pub request_id : String
  pub trace_id : String
  pub idempotency_key : String
  pub origin : String
  pub visited_systems : List String
  pub hop_count : ℕ
  pub capability : String
  pub priority : ℕ
  pub deadline : Option String
  pub inputs : List ArtifactReference
  pub required_outputs : List RequiredOutput
  pub constraints : Json
  pub workflow : Workflow
  pub metadata : Json
