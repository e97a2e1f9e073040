-- ===== src/Training/Types.antt =====
-- training_controller.py: its policy, the requests it takes, and the durable authority it writes.
use go7_spark_broker.Prelude.{
  ℕ, String, Bool, true, false, ◌&&◌, Option, none, some, List, [], ◌∷◌, eqb, ◌==◌,
}
use go7_spark_broker.Json.{Json, int, pos, text, nil, cons, Items, dict}
use go7_spark_broker.Resources.Types.{Checkpoint}

-- What a method raises: `TrainingControllerError` with its code and status, or another exception.
pub data Failure : Type 0 where
  refused : String → ℕ → Failure
  other : String → Failure

-- The checkpoint's root and the files are arguments of the outside.
pub record Policy : Type 0 where
  pub controller_id : String
  pub profile_id : String
  pub unit : String
  pub normal_mode : String
  pub released_mode : String
  pub allow_fresh_start : Bool
  pub stop_timeout_seconds : ℕ

pub record ModeRequest : Type 0 where
  pub mutation_id : String
  pub lease_id : String
  pub fencing_token : String
  pub broker_epoch : ℕ
  pub control_generation : ℕ
  pub target_mode : String
  pub reason : String

pub record TakeoverRequest : Type 0 where
  pub mutation_id : String
  pub previous_lease_id : String
  pub previous_fencing_token : String
  pub recovery_fencing_token : String
  pub broker_epoch : ℕ
  pub control_generation : ℕ
  pub target_mode : String
  pub reason : String

-- The key "request" or the key "takeoverRequest" of an authority.
pub data Call : Type 0 where
  by_mode : ModeRequest → Call
  by_takeover : TakeoverRequest → Call

abbrev pub same_request : ModeRequest → ModeRequest → Bool
same_request r s =
    r.mutation_id == s.mutation_id
    && r.lease_id == s.lease_id
    && r.fencing_token == s.fencing_token
    && eqb r.broker_epoch s.broker_epoch
    && eqb r.control_generation s.control_generation
    && r.target_mode == s.target_mode
    && r.reason == s.reason

abbrev pub same_takeover : TakeoverRequest → TakeoverRequest → Bool
same_takeover r s =
    r.mutation_id == s.mutation_id
    && r.previous_lease_id == s.previous_lease_id
    && r.previous_fencing_token == s.previous_fencing_token
    && r.recovery_fencing_token == s.recovery_fencing_token
    && eqb r.broker_epoch s.broker_epoch
    && eqb r.control_generation s.control_generation
    && r.target_mode == s.target_mode
    && r.reason == s.reason

-- A file of a checkpoint, as a receipt lists it.
pub record FileRecord : Type 0 where
  pub path : String
  pub size : ℕ
  pub sha256 : String

pub record Receipt : Type 0 where
  pub run_id : String
  pub checkpoint_id : String
  pub files : List FileRecord

-- The identity of a receipt: "runId", "checkpointId" and "contentSha256".
pub record Baseline : Type 0 where
  pub run_id : String
  pub checkpoint_id : String
  pub content_sha256 : String

pub record Public : Type 0 where
  pub controller_id : String
  pub mutation_id : String
  pub lease_id : String
  pub fencing_token : String
  pub broker_epoch : ℕ
  pub control_generation : ℕ
  pub effective_mode : String
  pub checkpoint : Option Checkpoint

-- An authority in the phase "ready". `public` is `none` where the key does not hold an object.
pub record Ready : Type 0 where
  pub call : Call
  pub public : Option Public
  pub response : Json
  pub evidence : Option Receipt

-- An authority in the phase "applying". `baseline` is `none` without the key "releaseBaseline".
pub record Applying : Type 0 where
  pub call : Call
  pub previous : Option Ready
  pub baseline : Option (Option Baseline)

-- The file of the authority. `foreign` is an object whose version, phase, previous state or requests
-- are none that the controller writes, `unreadable` no object, or a file that is not safe.
pub data AuthorityFile : Type 0 where
  absent unreadable foreign : AuthorityFile
  ready : Ready → AuthorityFile
  applying : Applying → AuthorityFile

abbrev pub same_file : FileRecord → FileRecord → Bool
same_file f g = f.path == g.path && eqb f.size g.size && f.sha256 == g.sha256

abbrev pub same_files : List FileRecord → List FileRecord → Bool
same_files [] [] = true
same_files [] (g ∷ s) = false
same_files (f ∷ r) [] = false
same_files (f ∷ r) (g ∷ s) = same_file f g && same_files r s

abbrev pub same_receipt : Receipt → Receipt → Bool
same_receipt a b =
    a.run_id == b.run_id && a.checkpoint_id == b.checkpoint_id && same_files a.files b.files

abbrev pub file_json : FileRecord → Json
file_json f =
    dict (("path", text f.path) ∷ ("size", int (pos f.size)) ∷ ("sha256", text f.sha256) ∷ [])

abbrev pub file_items : List FileRecord → Items
file_items [] = nil
file_items (f ∷ r) = cons (file_json f) (file_items r)

abbrev pub checkpoint_json : Checkpoint → Json
checkpoint_json k = dict (
    ("runId", text k.run_id)
    ∷ ("checkpointId", text k.checkpoint_id)
    ∷ ("sha256", text k.sha256)
    ∷ [])

abbrev pub checkpoint_entry : Option Checkpoint → List (String × Json)
checkpoint_entry none = []
checkpoint_entry (some k) = ("checkpoint", checkpoint_json k) ∷ []
