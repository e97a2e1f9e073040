-- ===== src/Contract/Whole.antt =====
-- `validate_job_request` of spark_broker/contract.py as a whole, with the parts of a request.
use go7_spark_broker.Prelude.{
  ℕ, String, Bool, true, false, ◌&&◌, Option, none, some, List, [], ◌∷◌, all, length, map, Result,
  ok, err, ◌>>=◌, ◌>>◌, leb, ltb, ◌==◌,
}
use go7_spark_broker.Text.{is_tagged, is_sha256}
use go7_spark_broker.Json.{Json, null, boolean, text, object, Fields, get_field, dict}
use go7_spark_broker.Clock.{Stamp}
use go7_spark_broker.Contract.Types.{ArtifactReference, RequiredOutput, Workflow, Request}
use go7_spark_broker.Contract.Validate.{
  Checked, insist, is_id, is_capability, any_text, read_string, read_strings, only, no_repeats,
  as_list, as_number, read_route, read_priority,
}

-- A field that may be left out.
abbrev pub optional {ℓ} :
    {A : Type ℓ} → (Option Json → Result String A) → Option Json → Result String (Option A)
optional read none = ok none
optional read (some v) = do a ← read (some v); ok (some a)

abbrev pub as_fields : Json → Checked Fields
as_fields (object f) = ok f
as_fields _ = err "invalid_type"

abbrev pub read_sha : Option Json → Checked String
read_sha v = do sha ← read_string 64 any_text v; insist (is_sha256 sha) "invalid_format"; ok sha

unfoldable pub validate_artifact_reference : Json → Checked ArtifactReference
validate_artifact_reference value = do
  f ← as_fields value
  insist (only ("artifactId" ∷ "role" ∷ "sha256" ∷ []) f) "unknown_field"
  id ← read_string 36 (is_tagged "art_") (get_field "artifactId" f)
  role ← optional (read_string 64 is_id) (get_field "role" f)
  sha ← optional read_sha (get_field "sha256" f)
  ok (record { artifact_id = id; role = role; sha256 = sha })

abbrev pub as_flag : Bool → Option Json → Checked Bool
as_flag default none = ok default
as_flag default (some (boolean b)) = ok b
as_flag default (some _) = err "invalid_type"

unfoldable pub validate_required_output : Json → Checked RequiredOutput
validate_required_output value = do
  f ← as_fields value
  insist (only ("role" ∷ "kind" ∷ "mediaTypes" ∷ "required" ∷ []) f) "unknown_field"
  role ← read_string 64 is_id (get_field "role" f)
  kind ← read_string 64 is_id (get_field "kind" f)
  media ← as_list [] "invalid_output" (get_field "mediaTypes" f)
  insist (leb 1 (length media) && leb (length media) 8) "invalid_output"
  media_types ← read_strings 128 any_text media
  required ← as_flag true (get_field "required" f)
  ok (record { role = role; kind = kind; media_types = media_types; required = required })

unfoldable pub read_inputs : List Json → Checked (List ArtifactReference)
unfolding validate_artifact_reference
read_inputs [] = ok []
read_inputs (v ∷ r) = do x ← validate_artifact_reference v; rest ← read_inputs r; ok (x ∷ rest)

unfoldable pub read_outputs : List Json → Checked (List RequiredOutput)
unfolding validate_required_output
read_outputs [] = ok []
read_outputs (v ∷ r) = do x ← validate_required_output v; rest ← read_outputs r; ok (x ∷ rest)

unfoldable pub read_workflow : Fields → Checked Workflow
read_workflow f = do
  insist (only ("autoContinue" ∷ "approvedCapabilities" ∷ "maxContinuations" ∷ []) f)
      "unknown_field"
  auto ← as_flag false (get_field "autoContinue" f)
  values ← as_list [] "invalid_workflow" (get_field "approvedCapabilities" f)
  insist (leb (length values) 16) "invalid_workflow"
  approved ← read_strings 128 is_capability values
  n ← as_number 0 "invalid_workflow" (get_field "maxContinuations" f)
  insist (leb n 16) "invalid_workflow"
  ok (record { auto_continue = auto; approved_capabilities = approved; max_continuations = n })

abbrev pub or_empty : Option Json → Json
or_empty none = dict []
or_empty (some v) = v

abbrev pub top_level_fields : List String
top_level_fields =
    "protocolVersion" ∷ "requestId" ∷ "traceId" ∷ "idempotencyKey" ∷ "origin" ∷ "visitedSystems"
    ∷ "hopCount" ∷ "capability" ∷ "priority" ∷ "deadline" ∷ "inputs" ∷ "requiredOutputs"
    ∷ "constraints" ∷ "workflow" ∷ "metadata" ∷ []

abbrev pub has_all : List String → Fields → Bool
has_all wanted f = all (λ k. elim (get_field k f) [ none ↦ false | some v ↦ true ]) wanted

abbrev pub is_version : Option Json → Bool
is_version (some (text t)) = t == "1.0"
is_version _ = false

-- What `datetime.fromisoformat` makes of a text: an error, a time without a zone, or an instant.
pub data Parsed : Type 0 where
  unreadable zoneless : Parsed
  instant : Stamp → Parsed

-- `json_size v` is len(canonical_json(v).encode()), `parse` reads a deadline, `now` is the clock.
module _ (json_size : Json → ℕ) (parse : String → Parsed) (now : Stamp) where
  abbrev pub check_instant : Parsed → Checked (Unit {0})
  check_instant unreadable = err "invalid_deadline"
  check_instant zoneless = err "invalid_deadline"
  check_instant (instant t) = insist (ltb now t) "deadline_expired"

  unfoldable pub validate_deadline : Option Json → Checked (Option String)
  validate_deadline none = ok none
  validate_deadline (some null) = ok none
  validate_deadline (some v) = do
    t ← read_string 64 any_text (some v)
    check_instant (parse t)
    ok (some t)

  -- `_object` and `_json_size`
  abbrev pub sized : ℕ → Json → Checked Fields
  sized maximum v = do f ← as_fields v; insist (leb (json_size v) maximum) "too_large"; ok f

  unfoldable pub validate_job_request : String → ℕ → Json → Checked Request
  unfolding read_route read_priority read_inputs read_outputs read_workflow validate_deadline
  validate_job_request broker_id max_hops value = do
    body ← as_fields value
    insist (only top_level_fields body) "unknown_field"
    insist
        (has_all
          ("protocolVersion" ∷ "requestId" ∷ "traceId" ∷ "idempotencyKey" ∷ "origin" ∷ "capability"
            ∷ [])
          body)
        "missing_field"
    insist (is_version (get_field "protocolVersion" body)) "unsupported_protocol"
    (visited, hop_count) ← read_route broker_id max_hops body
    priority ← read_priority body
    inputs ← as_list [] "invalid_inputs" (get_field "inputs" body)
    insist (leb (length inputs) 32) "invalid_inputs"
    clean_inputs ← read_inputs inputs
    outputs ← as_list [] "invalid_outputs" (get_field "requiredOutputs" body)
    insist (leb (length outputs) 32) "invalid_outputs"
    clean_outputs ← read_outputs outputs
    insist (no_repeats (map (λ (x : RequiredOutput). x.role) clean_outputs)) "duplicate_output"
    sized 32768 (or_empty (get_field "constraints" body)) >>= λ _. do
      sized 16384 (or_empty (get_field "metadata" body)) >>= λ _. do
        flow ← sized 16384 (or_empty (get_field "workflow" body))
        workflow ← read_workflow flow
        request_id ← read_string 128 is_id (get_field "requestId" body)
        trace_id ← read_string 128 is_id (get_field "traceId" body)
        idempotency_key ← read_string 128 is_id (get_field "idempotencyKey" body)
        origin ← read_string 128 is_id (get_field "origin" body)
        capability ← read_string 128 is_capability (get_field "capability" body)
        deadline ← validate_deadline (get_field "deadline" body)
        ok (record {
          request_id = request_id;
          trace_id = trace_id;
          idempotency_key = idempotency_key;
          origin = origin;
          visited_systems = visited;
          hop_count = hop_count;
          capability = capability;
          priority = priority;
          deadline = deadline;
          inputs = clean_inputs;
          required_outputs = clean_outputs;
          constraints = or_empty (get_field "constraints" body);
          workflow = workflow;
          metadata = or_empty (get_field "metadata" body);
        })
