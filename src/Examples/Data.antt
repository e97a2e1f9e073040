-- ===== src/Examples/Data.antt =====
-- A small database and a host, to run the model on.
use go7_spark_broker.Prelude.{ℕ, ◌+◌, String, true, false, none, some, List, [], ◌∷◌, refl, ok}
use go7_spark_broker.Json.{int, pos, text, dict, array, nil, Fields, fields}
use go7_spark_broker.Contract.Types.{Request}
use go7_spark_broker.Resources.Types.{
  batch, exclusive, ExecutionPlan, PreemptionMode, ResourcePolicy, Snapshot, Decision,
}
use go7_spark_broker.Store.Tables.{loading, completed, Job, Lease, active, Store, init}
use go7_spark_broker.Store.Jobs.{new_job}
use go7_spark_broker.Store.Leases.{new_lease}
use go7_spark_broker.Store.Invariant.{IsWellFormed}
use go7_spark_broker.Resources.Sample.{Host}
use go7_spark_broker.Resources.Coordinator.{Outside, Coordinator}

abbrev pub digest : Request → String
digest r = r.request_id

abbrev pub ask : String → ℕ → Request
ask key priority = record {
  request_id = "req_1";
  trace_id = "trace_1";
  idempotency_key = key;
  origin = "hermes";
  visited_systems = [];
  hop_count = 0;
  capability = "image";
  priority = priority;
  deadline = none;
  inputs = [];
  required_outputs = [];
  constraints = dict [];
  workflow = record { auto_continue = false; approved_capabilities = []; max_continuations = 0 };
  metadata = dict [];
}

abbrev pub first_job : Job
first_job = new_job digest (ask "a" 5) 10 "job_1"

abbrev pub second_job : Job
second_job = new_job digest (ask "b" 7) 20 "job_2"

abbrev pub running_job : Job
running_job = record first_job { status = loading }

abbrev pub marked_job : Job
marked_job = record running_job { cancel_requested = true }

abbrev pub ended_job : Job
ended_job = record first_job { status = completed; result = some (text "done") }

abbrev pub with_jobs : List Job → Store
with_jobs jobs = record init { jobs = jobs }

abbrev pub queued_store : Store
queued_store = with_jobs (first_job ∷ second_job ∷ [])

abbrev pub running_store : Store
running_store = with_jobs (running_job ∷ second_job ∷ [])

abbrev pub marked_store : Store
marked_store = with_jobs (marked_job ∷ second_job ∷ [])

abbrev pub ended_store : Store
ended_store = with_jobs (ended_job ∷ second_job ∷ [])

pub running_store-IsWellFormed : IsWellFormed running_store
running_store-IsWellFormed = record {
  jobs = record { ids = ((refl, tt), (tt, tt)); keys = ((refl, tt), (tt, tt)) };
  events = record { numbered = tt; increasing = tt };
  leases = record { ids = tt; tokens = tt; groups = tt };
}

pub queued_store-IsWellFormed : IsWellFormed queued_store
queued_store-IsWellFormed = record {
  jobs = record { ids = ((refl, tt), (tt, tt)); keys = ((refl, tt), (tt, tt)) };
  events = record { numbered = tt; increasing = tt };
  leases = record { ids = tt; tokens = tt; groups = tt };
}

pub marked_store-IsWellFormed : IsWellFormed marked_store
marked_store-IsWellFormed = record {
  jobs = record { ids = ((refl, tt), (tt, tt)); keys = ((refl, tt), (tt, tt)) };
  events = record { numbered = tt; increasing = tt };
  leases = record { ids = tt; tokens = tt; groups = tt };
}

pub ended_store-IsWellFormed : IsWellFormed ended_store
ended_store-IsWellFormed = record {
  jobs = record { ids = ((refl, tt), (tt, tt)); keys = ((refl, tt), (tt, tt)) };
  events = record { numbered = tt; increasing = tt };
  leases = record { ids = tt; tokens = tt; groups = tt };
}

abbrev pub plan : ExecutionPlan
plan = record {
  profile_id = "flux";
  route_id = none;
  resource_group = some "gpu";
  service_class = batch;
  lease_mode = exclusive;
  estimated_memory_gb = 1;
  preemption_mode = PreemptionMode.no_preemption;
  route_reason = "default";
  verify_profile_active = false;
}

abbrev pub policy : ResourcePolicy
policy = record {
  host_reserve_bytes = 1000;
  cuda_reserve_bytes = 1000;
  maximum_memory_pressure = 1000;
  enforce_memory_admission = true;
  enforce_cuda_admission = false;
  require_probe = true;
  probe_endpoint = some "http://127.0.0.1:9000";
  probe_token_file = some "/etc/token";
  controllers = [];
  shared_certifications = [];
  maximum_inference_window = none;
}

abbrev pub calm : Snapshot
calm = record {
  available_memory = some 5000000000;
  total_memory = some 9000000000;
  memory_pressure = some 10;
  probe_healthy = some true;
  unknown_consumers = some 0;
  active_profiles = [];
  profiles = [];
  controller_states = some [];
  cuda_allocatable = none;
  probe_generation = some 5;
}

-- A probe that reports an idle GPU, and an outside that answers every call.
abbrev pub report : Fields
report = fields (
    ("health", text "healthy")
    ∷ ("generation", int (pos 5))
    ∷ ("unknownConsumers", int (pos 0))
    ∷ ("activeProfiles", array nil)
    ∷ ("profiles", dict [])
    ∷ ("controllerStates", dict [])
    ∷ [])

abbrev pub host : Host
host = record {
  available_memory = some 5000000000;
  total_memory = some 9000000000;
  memory_pressure = some 10;
}

abbrev pub idle : Outside
idle = record {
  World = ℕ;
  host = λ w. (host, w);
  fetch = λ w. (ok report, w);
  post = λ path id payload w. (ok report, w);
  now = λ w. (w, w + 1);
  uuid = λ w. ("u", w + 1);
}

abbrev pub start : Coordinator ℕ
start = record {
  store = queued_store;
  policy = policy;
  epoch = 1;
  quarantine = none;
  last_generation = some 3;
  throttled = [];
  after = none;
  world = 0;
}

abbrev pub decision : Decision
decision = record { before = calm; plan = plan; reason = "default"; after_throttle = none }

abbrev pub lease : String → Lease
lease id = new_lease "job_1" 1 "gpu" "flux" none batch exclusive 1 [] decision 30 id id

abbrev pub leased_store : Store
leased_store = record queued_store { leases = record (lease "l1") { status = active } ∷ [] }

abbrev pub busy : Coordinator ℕ
busy = record start { store = leased_store }
