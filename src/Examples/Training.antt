-- ===== src/Examples/Training.antt =====
-- The training controller at fixed inputs.
use go7_spark_broker.Prelude.{
  ℕ, ◌≡◌, ◌<◌, ◌⊎◌, refl, String, Bool, true, false, Option, none, some, [], ◌∷◌, arith, ok, err,
  sort_by, ◌>>-◌, if◌then◌else◌, ◌==◌,
}
use go7_spark_broker.Prelude.Exec.{◌>>>=◌, pure}
use go7_spark_broker.Prelude.Outcomes.{Outcome}
use go7_spark_broker.Json.{
  Json, boolean, int, pos, text, array, object, nil, cons, Fields, fields, dict, get_field,
}
use go7_spark_broker.Resources.Types.{Checkpoint, ControllerPolicy, WorkloadKind}
use go7_spark_broker.Resources.Control.{payload}
use go7_spark_broker.Training.Types.{
  Failure, Policy, ModeRequest, TakeoverRequest, by_mode, Public, Ready, ready, file_json,
}
use go7_spark_broker.Training.Requests.{read_mode_request}
use go7_spark_broker.Training.Config.{Paths, Config, read_config, IsSound, read_config-IsSound}
use go7_spark_broker.Text.{joined}
use go7_spark_broker.Training.Mode.{Machine, Controller, regular, written, write_state}
use go7_spark_broker.Training.Control.{set_mode, response_to_mode}
use go7_spark_broker.Training.Since.{IsSince, sets, restarts, perform_all, perform_all-Since}
use go7_spark_broker.Training.Settled.{IsSettled, call_in, set_mode-Outcome, set_mode-again}

abbrev hash_a : String
hash_a = "aaaaaaaaaaaaaaaaaaaaaaaaaaaaaaaaaaaaaaaaaaaaaaaaaaaaaaaaaaaaaaaa"

abbrev hash_b : String
hash_b = "bbbbbbbbbbbbbbbbbbbbbbbbbbbbbbbbbbbbbbbbbbbbbbbbbbbbbbbbbbbbbbbb"

abbrev files_json : String → String → Fields
files_json id hash = fields (
    ("version", int (pos 1))
    ∷ ("runId", text "run1")
    ∷ ("checkpointId", text id)
    ∷ ("files", array (cons (file_json (record { path = hash; size = 3; sha256 = hash })) nil))
    ∷ [])

abbrev text_or : Option Json → String
text_or (some (text t)) = t
text_or _ = ""

abbrev file_hash : Option Json → String
file_hash (some (array (cons (object f) r))) = text_or (get_field "sha256" f)
file_hash _ = ""

-- A hash that tells two checkpoints of one file apart.
abbrev hash_of : Json → String
hash_of (object f) = file_hash (get_field "files" f)
hash_of _ = ""

-- The unit runs or not; when it stops it writes the checkpoint c2 behind c1, and its files.
abbrev machine : Machine
machine = record {
  World = Bool;
  start = λ unit t w. (ok tt, true);
  stop = λ unit t w. (ok tt, false);
  active = λ unit w. (ok w, w);
  inspect = λ w. (regular, w);
  receipt = λ w. (some (if w then files_json "c1" hash_a else files_json "c2" hash_b), w);
  observe = λ path w. (ok (if w then 0 else 3, path), w);
  write_authority = λ w. (written, w);
  write_state = λ w. (written, w);
  digest = hash_of;
}

abbrev controller_policy : Policy
controller_policy = record {
  controller_id = "trainer";
  profile_id = "train";
  unit = "train.service";
  normal_mode = "training";
  released_mode = "released";
  allow_fresh_start = true;
  stop_timeout_seconds = 600;
}

abbrev release : ℕ → ℕ → ModeRequest
release epoch generation = record {
  mutation_id = "mutation_00000000000000000000000000000001";
  lease_id = "lease_00000000000000000000000000000002";
  fencing_token = "fence_5_a";
  broker_epoch = epoch;
  control_generation = generation;
  target_mode = "released";
  reason = "default";
}

abbrev raw_of : ModeRequest → Json
raw_of r =
    payload r.mutation_id r.target_mode r.lease_id r.fencing_token r.broker_epoch
      r.control_generation r.reason

-- The authority behind an earlier resumption, of epoch 4.
abbrev resumed : Ready
resumed = record {
  call = by_mode (record (release 4 2) { target_mode = "training" });
  public = some (record {
    controller_id = "trainer";
    mutation_id = "mutation_00000000000000000000000000000009";
    lease_id = "lease_00000000000000000000000000000003";
    fencing_token = "fence_4_b";
    broker_epoch = 4;
    control_generation = 2;
    effective_mode = "training";
    checkpoint = none;
  });
  response = dict [];
  evidence = none;
}

abbrev running : Controller Bool
running = record { authority = ready resumed; state_file = none; world = true }

abbrev checkpoint_c2 : Checkpoint
checkpoint_c2 = record { run_id = "run1"; checkpoint_id = "c2"; sha256 = hash_b }

reads : read_mode_request controller_policy (raw_of (release 5 1)) ≡ ok (release 5 1)
unfolding read_mode_request
reads = refl

-- The release is answered with the new checkpoint.
answers :
    (set_mode machine controller_policy (raw_of (release 5 1)) running).0
    ≡ ok (response_to_mode (release 5 1) (some checkpoint_c2))
unfolding set_mode ◌>>>=◌ read_mode_request sort_by
answers = refl

perform_all-Since_example :
    IsSince 4
      (perform_all machine controller_policy
        (sets (raw_of (release 5 1)) ∷ restarts ∷ [])
        running).authority
    × ((r : ModeRequest) (raw : Json)
        → read_mode_request controller_policy raw ≡ ok r
        → r.broker_epoch < 4
        → (e : Failure) × ((set_mode machine controller_policy raw (
              perform_all machine controller_policy
                (sets (raw_of (release 5 1)) ∷ restarts ∷ [])
                running)).0
            ≡ err e))
perform_all-Since_example =
    perform_all-Since machine controller_policy 4 (sets (raw_of (release 5 1)) ∷ restarts ∷ [])
      running (omega arith, refl)

set_mode-Outcome_example :
    Outcome
      (IsSettled (release 5 1))
      (λ _ d.
        (call_in d.authority ≡ call_in running.authority)
        ⊎ (call_in d.authority ≡ some (by_mode (release 5 1))))
      (set_mode machine controller_policy (raw_of (release 5 1)) running).0
      (set_mode machine controller_policy (raw_of (release 5 1)) running).1
set_mode-Outcome_example =
    set_mode-Outcome machine controller_policy running (raw_of (release 5 1)) (release 5 1) reads

set_mode-again_example :
    (q : Public) × ((set_mode machine controller_policy (raw_of (release 5 1)) running).1.state_file
      ≡ some q)
    × (set_mode machine controller_policy
          (raw_of (release 5 1))
          (set_mode machine controller_policy (raw_of (release 5 1)) running).1
        ≡ (write_state machine q >>>= λ _.
              pure (response_to_mode (release 5 1) (some checkpoint_c2)))
            (set_mode machine controller_policy (raw_of (release 5 1)) running).1)
set_mode-again_example =
    set_mode-again machine controller_policy running (raw_of (release 5 1)) (release 5 1)
      (response_to_mode (release 5 1) (some checkpoint_c2)) reads answers

-- The unit does not run.
abbrev IsDown : Bool → Type 0
IsDown w = w ≡ false

abbrev trainer : ControllerPolicy
trainer = record {
  id = "trainer";
  profile_id = "train";
  throttle_for = [];
  normal_mode = "training";
  throttled_mode = "released";
  priority = 1;
  workload_kind = WorkloadKind.training;
  requires_checkpoint = true;
  minimum_normal = 60;
}

abbrev recovery : TakeoverRequest
recovery = record {
  mutation_id = "mutation_00000000000000000000000000000001";
  previous_lease_id = "lease_00000000000000000000000000000003";
  previous_fencing_token = "fence_4_b";
  recovery_fencing_token = "fence_6_recovery_a";
  broker_epoch = 6;
  control_generation = 1000001;
  target_mode = "training";
  reason = joined ("restart-recovery:" ∷ "lease_00000000000000000000000000000003" ∷ []);
}

abbrev paths : Paths
paths = record {
  is_absolute = λ t. true;
  resolve = λ t. t;
  is_inside = λ root t. true;
  are_same = λ s t. s == t;
}

abbrev config_json : Json
config_json = dict (
    ("version", int (pos 1))
    ∷ ("controllerId", text "trainer")
    ∷ ("profileId", text "train")
    ∷ ("unit", text "train.service")
    ∷ ("normalMode", text "training")
    ∷ ("releasedMode", text "released")
    ∷ ("checkpointRoot", text "/c")
    ∷ ("checkpointReceiptFile", text "/c/r")
    ∷ ("stateFile", text "/s")
    ∷ ("authorityFile", text "/a")
    ∷ ("allowFreshStart", boolean true)
    ∷ [])

abbrev config : Config
config = record {
  policy = controller_policy;
  checkpoint_root = "/c";
  checkpoint_receipt_file = "/c/r";
  state_file = "/s";
  authority_file = "/a";
}

reads_config : read_config paths config_json ≡ ok config
unfolding read_config ◌>>-◌
reads_config = refl

read_config-IsSound_example : IsSound paths config
read_config-IsSound_example = read_config-IsSound paths config_json config reads_config
