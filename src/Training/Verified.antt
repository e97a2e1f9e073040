-- ===== src/Training/Verified.antt =====
-- A release of the training: what has been seen of the unit and of the files when it is answered.
use go7_spark_broker.Prelude.{ℕ, ◌≡◌, String, true, Option, some, All, IsOrdered, Result, ok}
use go7_spark_broker.Resources.Types.{Checkpoint}
use go7_spark_broker.Prelude.Exec.{Exec}
use go7_spark_broker.Resources.Coordinator.{is_some}
use go7_spark_broker.Json.{Json}
use go7_spark_broker.Training.Types.{
  Failure, Policy, ModeRequest, FileRecord, Receipt, Baseline, Ready, ready,
}
use go7_spark_broker.Training.Receipt.{path_before}
use go7_spark_broker.Training.Mode.{
  Machine, Controller, certified, evidence_of, receipt_identity_if_present,
}
use go7_spark_broker.Training.Control.{done_mode, response_to_mode}
use go7_spark_broker.Training.Seen.{IsStill, Advances, Quiet, Evident}

module _ (m : Machine) (p : Policy) (Down : Machine.World m → Type 0)
    (still : IsStill m p.unit Down) where
  open m use {World}

  abbrev Look : Type 0
  Look = String → Result Failure (ℕ × String)

  -- The evidence of a release, and its checkpoint.
  abbrev Shown : Look → Option Baseline → (Option Checkpoint × Option Receipt) → Type 0
  Shown look b x =
      (e : Receipt) × (x ≡ (some (certified m e).0, some e))
      × Evident m p Down still look e
      × Advances m p Down still b e

  abbrev Rested : Look → Controller World → Type 0
  Rested look = Quiet m p Down still look

  -- A release that answers: the unit is down; the record holds the evidence, which lists files in the
  -- order of their paths, each of which has now the size and the hash that the list says; and the
  -- checkpoint advances.
  abbrev pub Released : ModeRequest → Option Baseline → Json → Controller World → Type 0
  Released r b answer d =
      (e : Receipt) × (d.authority ≡ ready (done_mode p r (some (certified m e).0, some e)))
      × (answer ≡ response_to_mode r (some (certified m e).0))
      × All (λ (f : FileRecord). (m.observe f.path d.world).0 ≡ ok (f.size, f.sha256)) e.files
      × IsOrdered path_before e.files
      × Advances m p Down still b e
      × Down d.world

  -- What the receipt before the release is about: `receipt_identity_if_present` has said so at the start.
  -- Where the last change had evidence, it is there.
  abbrev pub Known : Controller World → Option Ready → Option Baseline → Type 0
  Known c current b =
      ((receipt_identity_if_present m c).0 ≡ ok b)
      × (is_some (evidence_of current) ≡ true → is_some b ≡ true)

  -- As the receipt is at `c`.
  abbrev Same : Controller World → Controller World → Type 0
  Same c d = (receipt_identity_if_present m d).0 ≡ (receipt_identity_if_present m c).0
