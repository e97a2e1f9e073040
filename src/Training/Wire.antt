-- ===== src/Training/Wire.antt =====
-- What the broker and the training controller say to each other: `ResourceControlClient.set_mode` and
-- `takeover_mode` against `_validate_request` and the responses.
use go7_spark_broker.Prelude.{
  ◌≡◌, ◌≤◌, String, Bool, true, false, ◌&&◌, Option, none, some, [], ◌∷◌, leb,
}
use go7_spark_broker.Text.{size, is_tagged, is_fence, is_sha256}
use go7_spark_broker.Json.{Json, int, pos, text, object, Fields, fields, dict}
use go7_spark_broker.Resources.Types.{Checkpoint, ControllerPolicy, Ack, no_checkpoint, given}
use go7_spark_broker.Resources.Control.{payload, is_throttling}
use go7_spark_broker.Training.Types.{Policy, ModeRequest, TakeoverRequest}
use go7_spark_broker.Training.Requests.{is_mode, is_reason}

module _ (p : Policy) (r : ModeRequest) where
  abbrev mode_payload : Json
  mode_payload =
      payload r.mutation_id r.target_mode r.lease_id r.fencing_token r.broker_epoch
        r.control_generation r.reason

abbrev pub fields_of : Json → Fields
fields_of (object f) = f
fields_of _ = fields []

-- What the broker makes of the checkpoint in an answer.
abbrev pub ack_of : Option Checkpoint → Ack
ack_of none = no_checkpoint
ack_of (some k) = given k

-- Training that is displaced has a checkpoint with names and a hash.
abbrev pub Proves : ControllerPolicy → String → Option Checkpoint → Type 0
Proves c mode none = is_throttling c mode ≡ false
Proves c mode (some k) =
    (1 ≤ size k.run_id) × (1 ≤ size k.checkpoint_id) × (is_sha256 k.sha256 ≡ true)

-- The payload of a takeover with any reason.
abbrev takeover_with : TakeoverRequest → String → Json
takeover_with r reason = dict (
    ("protocolVersion", text "1.0")
    ∷ ("mutationId", text r.mutation_id)
    ∷ ("previousLeaseId", text r.previous_lease_id)
    ∷ ("previousFencingToken", text r.previous_fencing_token)
    ∷ ("recoveryFencingToken", text r.recovery_fencing_token)
    ∷ ("brokerEpoch", int (pos r.broker_epoch))
    ∷ ("controlGeneration", int (pos r.control_generation))
    ∷ ("targetMode", text r.target_mode)
    ∷ ("reason", text reason)
    ∷ [])

abbrev takeover_tests : Policy → TakeoverRequest → Bool
takeover_tests p r =
    is_tagged "mutation_" r.mutation_id
    && is_tagged "lease_" r.previous_lease_id
    && is_fence r.previous_fencing_token
    && is_fence r.recovery_fencing_token
    && leb 1 r.broker_epoch
    && leb 1 r.control_generation
    && is_mode p r.target_mode
    && is_reason r.reason
