-- ===== src/Resources/Probe.antt =====
-- `_combined_snapshot_serialized` of `ResourceCoordinator`: what the broker accepts from its probe.
use go7_spark_broker.Prelude.{
  ℕ, suc, String, Bool, true, false, not, ◌&&◌, ◌||◌, Option, none, some, List, [], ◌∷◌, map, all,
  contains, Result, ok, err, ◌>>=◌, ◌>>◌, leb, ◌==◌,
}
use go7_spark_broker.Text.{size, is_identifier, is_tagged, is_sha256, is_fence}
use go7_spark_broker.Json.{
  pos, finite, Json, null, boolean, int, real, text, array, object, Fields, entries, items,
  get_field,
}
use go7_spark_broker.Resources.Types.{Checkpoint, ControllerState, Deferred}
use go7_spark_broker.Resources.Admission.{deferred, is_healthy, says}

-- What a method of the coordinator raises: `AdmissionDeferred`, or another exception by its name.
pub data Raised : Type 0 where
  admission : Deferred → Raised
  other : String → Raised

abbrev pub invalid : Raised
invalid = admission (deferred "resource_probe_invalid")

-- A condition whose failure is `resource_probe_invalid`.
abbrev pub need : Bool → Result Raised (Unit {0})
need true = ok tt
need false = err invalid

abbrev pub take_or : {A : Type 0} → Option A → Result Raised A
take_or none = err invalid
take_or (some a) = ok a

abbrev pub as_text : Option Json → Option String
as_text (some (text t)) = some t
as_text _ = none

-- isinstance(x, int) and not isinstance(x, bool) and x >= 0
abbrev pub as_count : Option Json → Option ℕ
as_count (some (int (pos n))) = some n
as_count _ = none

-- … and x >= 1
abbrev pub as_positive : Option Json → Option ℕ
as_positive (some (int (pos (suc n)))) = some (suc n)
as_positive _ = none

abbrev pub as_object : Option Json → Option Fields
as_object (some (object f)) = some f
as_object _ = none

abbrev pub is_true_value : Option Json → Bool
is_true_value (some (boolean b)) = b
is_true_value _ = false

abbrev pub names : Fields → List String
names f = map (λ e. e.0) (entries f)

abbrev pub covers : List String → List String → Bool
covers big small = all (λ k. contains k big) small

-- x.get(k) is None
abbrev pub is_none : Option Json → Bool
is_none none = true
is_none (some null) = true
is_none _ = false

-- `health in {"healthy", "degraded", "unhealthy"}`; a list or an object cannot be hashed
abbrev pub check_health : Option Json → Result Raised Bool
check_health (some (text t)) = do
  need (contains t ("healthy" ∷ "degraded" ∷ "unhealthy" ∷ []))
  ok (t == "healthy")
check_health (some (array _)) = err (other "TypeError")
check_health (some (object _)) = err (other "TypeError")
check_health _ = err invalid

abbrev pub all_distinct : List String → Bool
all_distinct [] = true
all_distinct (x ∷ r) = not (contains x r) && all_distinct r

unfoldable pub identifier_list : List Json → Result Raised (List String)
identifier_list [] = ok []
identifier_list (text t ∷ r) = do need (is_identifier t); rest ← identifier_list r; ok (t ∷ rest)
identifier_list (_ ∷ r) = err invalid

unfoldable pub read_active : Option Json → Result Raised (List String)
unfolding identifier_list
read_active (some (array xs)) = do ids ← identifier_list (items xs); need (all_distinct ids); ok ids
read_active _ = err invalid

-- A dictionary from identifiers to dictionaries.
unfoldable pub read_records : Fields → Result Raised (List (String × Fields))
read_records Fields.end = ok []
read_records (Fields.field k (object f) r) = do
  need (is_identifier k)
  rest ← read_records r
  ok ((k, f) ∷ rest)
read_records (Fields.field k _ r) = err invalid

unfoldable pub read_table : Option Json → Result Raised (List (String × Fields))
unfolding read_records
read_table (some (object f)) = read_records f
read_table _ = err invalid

abbrev pub bounded_text : ℕ → Option String → Bool
bounded_text limit none = false
bounded_text limit (some t) = leb 1 (size t) && leb (size t) limit

abbrev pub identifier_text : Option String → Bool
identifier_text none = false
identifier_text (some t) = is_identifier t

-- An active profile has a record whose runtime and owner are verified.
abbrev pub is_owned : Fields → Bool
is_owned f =
    is_true_value (get_field "identityVerified" f)
    && bounded_text 512 (as_text (get_field "runtimeIdentity" f))
    && identifier_text (as_text (get_field "ownerId" f))

abbrev pub owned_record : Option Fields → Bool
owned_record none = false
owned_record (some f) = is_owned f

abbrev pub healthy_record : Option Fields → Bool
healthy_record none = false
healthy_record (some f) = is_healthy f

-- latencyMs: none, or a finite number that is not negative
abbrev pub valid_latency : Option Json → Bool
valid_latency (some (int (pos n))) = true
valid_latency (some (real (finite (pos m)))) = true
valid_latency o = is_none o

abbrev pub has_count : Option ℕ → Bool
has_count none = false
has_count (some n) = true

abbrev pub valid_count : Option Json → Bool
valid_count o = is_none o || has_count (as_count o)

abbrev pub valid_metrics : Fields → Bool
valid_metrics f =
    valid_latency (get_field "latencyMs" f) && valid_count (get_field "availableConcurrency" f)

abbrev pub controller_required : List String
controller_required =
    "protocolVersion" ∷ "controllerId" ∷ "mutationId" ∷ "leaseId" ∷ "fencingToken" ∷ "brokerEpoch"
    ∷ "controlGeneration" ∷ "effectiveMode" ∷ "health" ∷ "appliedAtSafeBoundary" ∷ []

abbrev pub nonempty : Option String → Bool
nonempty none = false
nonempty (some t) = leb 1 (size t)

-- `re.fullmatch(…, checkpoint.get("sha256", ""))`, which raises for a value that is no text
abbrev pub read_sha256 : Option Json → Result Raised String
read_sha256 (some (text t)) = do need (is_sha256 t); ok t
read_sha256 none = err invalid
read_sha256 (some _) = err (other "TypeError")

unfoldable pub read_checkpoint : Option Json → Result Raised (Option Checkpoint)
read_checkpoint none = ok none
read_checkpoint (some null) = ok none
read_checkpoint (some (object f)) = do
  need (
      covers (names f) ("runId" ∷ "checkpointId" ∷ "sha256" ∷ [])
      && covers ("runId" ∷ "checkpointId" ∷ "sha256" ∷ []) (names f))
  need (nonempty (as_text (get_field "runId" f)) && nonempty (as_text (get_field "checkpointId" f)))
  run ← take_or (as_text (get_field "runId" f))
  id ← take_or (as_text (get_field "checkpointId" f))
  sha ← read_sha256 (get_field "sha256" f)
  ok (some (record { run_id = run; checkpoint_id = id; sha256 = sha }))
read_checkpoint (some _) = err invalid

unfoldable pub read_controller : String → Fields → Result Raised ControllerState
unfolding read_checkpoint
read_controller id f = do
  need (
      covers (names f) controller_required && covers ("checkpoint" ∷ controller_required) (names f))
  need (says "1.0" (get_field "protocolVersion" f) && says id (get_field "controllerId" f))
  mutation ← take_or (as_text (get_field "mutationId" f))
  need (is_tagged "mutation_" mutation)
  lease ← take_or (as_text (get_field "leaseId" f))
  need (is_tagged "lease_" lease)
  fence ← take_or (as_text (get_field "fencingToken" f))
  need (is_fence fence)
  epoch ← take_or (as_positive (get_field "brokerEpoch" f))
  generation ← take_or (as_positive (get_field "controlGeneration" f))
  mode ← take_or (as_text (get_field "effectiveMode" f))
  need (is_identifier mode)
  need (says "healthy" (get_field "health" f))
  need (is_true_value (get_field "appliedAtSafeBoundary" f))
  checkpoint ← read_checkpoint (get_field "checkpoint" f)
  ok (record {
    mutation_id = mutation;
    lease_id = lease;
    fencing_token = fence;
    broker_epoch = epoch;
    control_generation = generation;
    effective_mode = mode;
    checkpoint = checkpoint;
  })

unfoldable pub read_controllers :
    List (String × Fields) → Result Raised (List (String × ControllerState))
unfolding read_controller
read_controllers [] = ok []
read_controllers ((id, f) ∷ r) = do
  state ← read_controller id f
  rest ← read_controllers r
  ok ((id, state) ∷ rest)
