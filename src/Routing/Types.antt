-- ===== src/Routing/Types.antt =====
-- The data classes of spark_broker/routing.py.
use go7_spark_broker.Prelude.{ℕ, String, Option, List}

pub record RoutePolicy : Type 0 where
  pub id : String
  pub model : String
  pub profile_id : String
  pub estimated_memory_gb : ℕ
  pub priority : ℕ
  pub service_classes : List String

pub record RouteDecision : Type 0 where
  pub route_id : String
  pub profile_id : String
  pub model : String
  pub reason : String
  pub preference : String
  pub config_revision : String
  pub ranked_route_ids : List String

-- What is kept of a profile's metrics. A latency is a double, in units of 2⁻¹⁰⁷⁴.
pub record Metrics : Type 0 where
  pub health : Option String
  pub latency : Option ℕ
  pub available_concurrency : Option ℕ

-- What `normalize_routing_snapshot` returns, without "probeHealthy", which nothing reads.
pub record Context : Type 0 where
  pub active : List String
  pub profiles : List (String × Metrics)

-- `RoutingError` with its code, or another exception by its name.
pub data Failure : Type 0 where
  routing_error crashed : String → Failure
