-- ===== src/Resources/Coordinator.antt =====
-- `ResourceCoordinator` and `ResourceControlClient`: the state, the calls to the outside, and the
-- checks of what comes back.
use go7_spark_broker.Prelude.{
  ℕ, ◌*◌, ◌^◌, String, Bool, true, false, ◌&&◌, Option, none, some, List, [], ◌∷◌, Result, ok, err,
  eqb, if◌then◌else◌,
}
use go7_spark_broker.Prelude.Exec.{Exec}
use go7_spark_broker.Text.{is_sha256}
use go7_spark_broker.Json.{
  pos, finite, Json, null, boolean, int, real, text, object, Fields, get_field,
}
use go7_spark_broker.Clock.{Stamp}
use go7_spark_broker.Store.Tables.{Store}
use go7_spark_broker.Resources.Types.{
  ResourcePolicy, Snapshot, Throttle, Ack, no_checkpoint, malformed, given,
}
use go7_spark_broker.Resources.Admission.{deferred}
use go7_spark_broker.Resources.Probe.{Raised, admission, other, as_text, names, covers, nonempty}
use go7_spark_broker.Resources.Sample.{Host}

-- What the coordinator calls and the repository does not implement: the files under /proc, the two
-- HTTP services, the clock and `uuid4`. `fetch` and `post` are `_request`: a JSON object, or an
-- exception.
pub record Outside : Type 1 where
  pub World : Type 0
  pub host : World → Host × World
  pub fetch : World → Result Raised Fields × World
  -- POST to the path of the controller with the id
  pub post : String → String → Json → World → Result Raised Fields × World
  pub now : World → Stamp × World
  pub uuid : World → String × World

-- `throttled` and `after` are the locals of `acquire`: the records of its handle, and the snapshot
-- that it puts under "afterThrottle".
pub record Coordinator (W : Type 0) : Type 0 where
  pub store : Store
  pub policy : ResourcePolicy
  pub epoch : ℕ
  pub quarantine : Option String
  pub last_generation : Option ℕ
  pub throttled : List Throttle
  pub after : Option Snapshot
  pub world : W

abbrev pub M : Type 0 → Type 0 → Type 0
M W A = Exec (Coordinator W) Raised A

abbrev pub is_some {ℓ} : {A : Type ℓ} → Option A → Bool
is_some none = false
is_some (some a) = true

-- A number of the source, in a JSON value: 1, 1.0 and true are equal to it.
abbrev pub says_count : ℕ → Option Json → Bool
says_count n (some (int (pos m))) = eqb m n
says_count n (some (real (finite (pos m)))) = eqb m (n * 2 ^ 1074)
says_count n (some (boolean b)) = if b then eqb n 1 else eqb n 0
says_count n _ = false

abbrev pub three : Fields → Bool
three f =
    covers (names f) ("runId" ∷ "checkpointId" ∷ "sha256" ∷ [])
    && covers ("runId" ∷ "checkpointId" ∷ "sha256" ∷ []) (names f)

abbrev pub given_or : Option String → Option String → Option String → Ack
given_or (some r) (some c) (some h) = given (record { run_id = r; checkpoint_id = c; sha256 = h })
given_or _ _ _ = malformed

abbrev pub ack_checkpoint : Option Json → Ack
ack_checkpoint none = no_checkpoint
ack_checkpoint (some null) = no_checkpoint
ack_checkpoint (some (object f)) =
    if three f
    then given_or (as_text (get_field "runId" f)) (as_text (get_field "checkpointId" f))
        (as_text (get_field "sha256" f))
    else malformed
ack_checkpoint (some _) = malformed

abbrev pub missing : Result Raised (Unit {0})
missing = err (admission (deferred "controller_checkpoint_missing"))

abbrev pub check_sha : Option Json → Result Raised (Unit {0})
check_sha (some (text t)) = if is_sha256 t then ok tt else missing
check_sha none = missing
check_sha (some _) = err (other "TypeError")

-- The proof of a durable checkpoint in an acknowledgement.
unfoldable pub check_proof : Option Json → Result Raised (Unit {0})
check_proof (some (object f)) =
    if three f
      && (nonempty (as_text (get_field "runId" f))
          && nonempty (as_text (get_field "checkpointId" f)))
    then check_sha (get_field "sha256" f)
    else missing
check_proof _ = missing

abbrev pub fenced : Bool → String → Result Raised (Unit {0})
fenced true code = ok tt
fenced false code = err (admission (deferred code))

module _ (o : Outside) where
  open o use {World}

  unfoldable pub combined_sample : M World Host
  combined_sample c = let (h, w) = o.host c.world in (ok h, record c { world = w })

  unfoldable pub get_now : M World Stamp
  get_now c = let (t, w) = o.now c.world in (ok t, record c { world = w })

  unfoldable pub get_uuid : M World String
  get_uuid c = let (t, w) = o.uuid c.world in (ok t, record c { world = w })

  unfoldable pub fetch_probe : M World Fields
  fetch_probe c = let (r, w) = o.fetch c.world in (r, record c { world = w })

  unfoldable pub post_mode : String → String → Json → M World Fields
  post_mode path id payload c =
      let (r, w) = o.post path id payload c.world in (r, record c { world = w })
