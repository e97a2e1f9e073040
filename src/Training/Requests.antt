-- ===== src/Training/Requests.antt =====
-- `_validate_request` of `TrainingController`.
use go7_spark_broker.Prelude.{
  ℕ, String, Bool, true, false, ◌&&◌, ◌||◌, Option, none, some, List, [], ◌∷◌, Result, ok, err,
  ◌>>=◌, ◌>>◌, leb, ◌==◌, if◌then◌else◌,
}
use go7_spark_broker.Text.{size, is_tagged, is_fence}
use go7_spark_broker.Json.{Json, text, array, object, get_field}
use go7_spark_broker.Resources.Probe.{names, covers, as_positive}
use go7_spark_broker.Training.Types.{Failure, refused, other, Policy, ModeRequest, TakeoverRequest}

abbrev pub invalid_request : Failure
invalid_request = refused "invalid_request" 400

abbrev pub expect : Bool → Result Failure (Unit {0})
expect true = ok tt
expect false = err invalid_request

abbrev pub text_that : (String → Bool) → Option Json → Result Failure String
text_that p (some (text t)) = do expect (p t); ok t
text_that p _ = err invalid_request

abbrev pub positive : Option Json → Result Failure ℕ
positive o = elim (as_positive o) [ none ↦ err invalid_request | some n ↦ ok n ]

abbrev pub is_mode : Policy → String → Bool
is_mode p t = t == p.normal_mode || t == p.released_mode

-- `value not in {…}`: a list or an object cannot be hashed.
abbrev pub mode_of : Policy → Option Json → Result Failure String
mode_of p (some (text t)) = do expect (is_mode p t); ok t
mode_of p (some (array _)) = err (other "TypeError")
mode_of p (some (object _)) = err (other "TypeError")
mode_of p _ = err invalid_request

abbrev pub is_reason : String → Bool
is_reason t = leb 1 (size t) && leb (size t) 512

abbrev pub mode_names : List String
mode_names =
    "protocolVersion" ∷ "mutationId" ∷ "leaseId" ∷ "fencingToken" ∷ "brokerEpoch"
    ∷ "controlGeneration" ∷ "targetMode" ∷ "reason" ∷ []

abbrev pub takeover_names : List String
takeover_names =
    "protocolVersion" ∷ "mutationId" ∷ "previousLeaseId" ∷ "previousFencingToken"
    ∷ "recoveryFencingToken" ∷ "brokerEpoch" ∷ "controlGeneration" ∷ "targetMode" ∷ "reason" ∷ []

-- set(value) == required
abbrev pub has_names : List String → List String → Bool
has_names required given = covers given required && covers required given

unfoldable pub read_mode_request : Policy → Json → Result Failure ModeRequest
unfolding is_tagged is_fence
read_mode_request p (object f) = do
  expect (has_names mode_names (names f))
  _ ← text_that (λ t. t == "1.0") (get_field "protocolVersion" f)
  mutation_id ← text_that (is_tagged "mutation_") (get_field "mutationId" f)
  lease_id ← text_that (is_tagged "lease_") (get_field "leaseId" f)
  fencing_token ← text_that is_fence (get_field "fencingToken" f)
  broker_epoch ← positive (get_field "brokerEpoch" f)
  control_generation ← positive (get_field "controlGeneration" f)
  target_mode ← mode_of p (get_field "targetMode" f)
  reason ← text_that is_reason (get_field "reason" f)
  ok (record {
    mutation_id = mutation_id;
    lease_id = lease_id;
    fencing_token = fencing_token;
    broker_epoch = broker_epoch;
    control_generation = control_generation;
    target_mode = target_mode;
    reason = reason;
  })
read_mode_request p _ = err invalid_request

unfoldable pub read_takeover_request : Policy → Json → Result Failure TakeoverRequest
unfolding is_tagged is_fence
read_takeover_request p (object f) = do
  expect (has_names takeover_names (names f))
  _ ← text_that (λ t. t == "1.0") (get_field "protocolVersion" f)
  mutation_id ← text_that (is_tagged "mutation_") (get_field "mutationId" f)
  previous_lease_id ← text_that (is_tagged "lease_") (get_field "previousLeaseId" f)
  previous_fencing_token ← text_that is_fence (get_field "previousFencingToken" f)
  recovery_fencing_token ← text_that is_fence (get_field "recoveryFencingToken" f)
  broker_epoch ← positive (get_field "brokerEpoch" f)
  control_generation ← positive (get_field "controlGeneration" f)
  target_mode ← mode_of p (get_field "targetMode" f)
  reason ← text_that is_reason (get_field "reason" f)
  ok (record {
    mutation_id = mutation_id;
    previous_lease_id = previous_lease_id;
    previous_fencing_token = previous_fencing_token;
    recovery_fencing_token = recovery_fencing_token;
    broker_epoch = broker_epoch;
    control_generation = control_generation;
    target_mode = target_mode;
    reason = reason;
  })
read_takeover_request p _ = err invalid_request

-- The check of a request that a recovery reads back from the authority, whose schema its type has.
unfoldable pub validate_mode : Policy → ModeRequest → Result Failure ModeRequest
unfolding is_tagged is_fence
validate_mode p r =
    if is_tagged "mutation_" r.mutation_id
      && is_tagged "lease_" r.lease_id
      && is_fence r.fencing_token
      && leb 1 r.broker_epoch
      && leb 1 r.control_generation
      && is_mode p r.target_mode
      && is_reason r.reason
    then ok r
    else err invalid_request

unfoldable pub validate_takeover : Policy → TakeoverRequest → Result Failure TakeoverRequest
unfolding is_tagged is_fence
validate_takeover p r =
    if is_tagged "mutation_" r.mutation_id
      && is_tagged "lease_" r.previous_lease_id
      && is_fence r.previous_fencing_token
      && is_fence r.recovery_fencing_token
      && leb 1 r.broker_epoch
      && leb 1 r.control_generation
      && is_mode p r.target_mode
      && is_reason r.reason
    then ok r
    else err invalid_request
