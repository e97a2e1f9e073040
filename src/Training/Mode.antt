-- ===== src/Training/Mode.antt =====
-- `TrainingController`: the changes of mode, their recovery, and takeovers.
use go7_spark_broker.Prelude.{
  ℕ, String, Bool, true, not, ◌&&◌, Option, none, some, List, [], ◌∷◌, sort_by, Result, ok, err,
  eqb, if◌then◌else◌, ◌==◌,
}
use go7_spark_broker.Prelude.Exec.{Exec, pure, raise, ◌>>>=◌ as ◌>>=◌}
use go7_spark_broker.Resources.Types.{Checkpoint}
use go7_spark_broker.Resources.Control.{◌>>◌}
use go7_spark_broker.Json.{Json, int, pos, text, array, Fields, dict}
use go7_spark_broker.Training.Types.{
  Failure, refused, Policy, FileRecord, Receipt, Baseline, Public, Ready, AuthorityFile,
  same_receipt, file_items,
}
use go7_spark_broker.Training.Receipt.{
  bad_checkpoint, read_receipt, path_before, receipt_content_digest, baseline_of,
}

-- What lstat says of the file of the receipt.
pub data Inspected : Type 0 where
  missing uninspectable irregular regular : Inspected

-- `_atomic_json`: the file is replaced, or the exception comes before the replacement, or behind it.
pub data Written : Type 0 where
  written : Written
  kept torn : Failure → Written

-- The service manager, the files and the hash. `receipt` is `_owner_json` of the receipt, `none` where
-- it raises; `observe` is the size and the hash of a file below the checkpoint's root, or what
-- `_checkpoint_path` and the opening of the file raise.
pub record Machine : Type 1 where
  pub World : Type 0
  pub start : String → ℕ → World → Result Failure (Unit {0}) × World
  pub stop : String → ℕ → World → Result Failure (Unit {0}) × World
  pub active : String → World → Result Failure Bool × World
  pub inspect : World → Inspected × World
  pub receipt : World → Option Fields × World
  pub observe : String → World → Result Failure (ℕ × String) × World
  pub write_authority : World → Written × World
  pub write_state : World → Written × World
  pub digest : Json → String

-- The two files that the controller writes, and the world.
pub record Controller (W : Type 0) : Type 0 where
  pub authority : AuthorityFile
  pub state_file : Option Public
  pub world : W

abbrev pub M : Type 0 → Type 0 → Type 0
M W A = Exec (Controller W) Failure A

abbrev pub fail : {A : Type 0} {W : Type 0} → String → ℕ → M W A
fail code status = raise (refused code status)

abbrev pub must : {W : Type 0} → Bool → String → ℕ → M W (Unit {0})
must b code status = if b then pure tt else fail code status

abbrev pub evidence_of : Option Ready → Option Receipt
evidence_of none = none
evidence_of (some r) = r.evidence

module _ (m : Machine) where
  open m use {World}

  abbrev pub outside : {A : Type 0} → (World → Result Failure A × World) → M World A
  outside f c = let (r, w) = f c.world in (r, record c { world = w })

  abbrev pub replaced : Written → (Controller World → Controller World) → M World (Unit {0})
  replaced written f c = (ok tt, f c)
  replaced (kept e) f c = (err e, c)
  replaced (torn e) f c = (err e, f c)

  unfoldable pub write_authority : AuthorityFile → M World (Unit {0})
  write_authority a c =
      let (r, w) = m.write_authority c.world in
      replaced r (λ c. record c { authority = a }) (record c { world = w })

  unfoldable pub write_state : Public → M World (Unit {0})
  write_state p c =
      let (r, w) = m.write_state c.world in
      replaced r (λ c. record c { state_file = some p }) (record c { world = w })

  unfoldable pub active : String → M World Bool
  active unit = outside (m.active unit)

  unfoldable pub load_receipt : M World Receipt
  unfolding read_receipt
  load_receipt c =
      let (o, w) = m.receipt c.world in
      (
        elim o [ none ↦ err (refused "state_invalid" 503) | some f ↦ read_receipt f ],
        record c { world = w },
      )

  abbrev pub identity_for : Inspected → M World (Option Baseline)
  identity_for missing = pure none
  identity_for uninspectable = raise bad_checkpoint
  identity_for irregular = raise bad_checkpoint
  identity_for regular = do r ← load_receipt; pure (some (baseline_of m.digest r))

  unfoldable pub receipt_identity_if_present : M World (Option Baseline)
  unfolding load_receipt receipt_content_digest
  receipt_identity_if_present = do
    i ← (λ c. let (i, w) = m.inspect c.world in (ok i, record c { world = w }))
    identity_for i

  unfoldable pub check_file : FileRecord → M World (Unit {0})
  check_file f = do
    (size, sha256) ← outside (m.observe f.path)
    must (eqb size f.size && sha256 == f.sha256) "checkpoint_changed" 503

  unfoldable pub check_files : List FileRecord → M World (Unit {0})
  unfolding check_file
  check_files [] = pure tt
  check_files (f ∷ r) = do check_file f; check_files r

  abbrev pub evidence_json : Receipt → Json
  evidence_json r = dict (
      ("version", int (pos 1))
      ∷ ("runId", text r.run_id)
      ∷ ("checkpointId", text r.checkpoint_id)
      ∷ ("files", array (file_items r.files))
      ∷ [])

  abbrev pub certified : Receipt → Checkpoint × Receipt
  certified e = (
    record {
      run_id = e.run_id;
      checkpoint_id = e.checkpoint_id;
      sha256 = m.digest (evidence_json e);
    },
    e,
  )

  -- `_checkpoint`: the checkpoint of the receipt, and the evidence with its files in order.
  unfoldable pub checkpoint : M World (Checkpoint × Receipt)
  unfolding load_receipt check_files
  checkpoint = do
    r ← load_receipt
    check_files r.files
    pure (certified (record r { files = sort_by path_before r.files }))

  abbrev pub is_advanced : Option Baseline → Checkpoint × Receipt → Bool
  is_advanced none _ = true
  is_advanced (some b) (k, e) =
      k.run_id == b.run_id
      && not (k.checkpoint_id == b.checkpoint_id)
      && not (receipt_content_digest m.digest e == b.content_sha256)

  module _ (p : Policy) where
    unfoldable pub apply_release : Option Baseline → M World (Option Checkpoint × Option Receipt)
    unfolding active checkpoint receipt_content_digest
    apply_release baseline = do
      outside (m.stop p.unit p.stop_timeout_seconds)
      running ← active p.unit
      must (not running) "release_unverified" 503
      found ← checkpoint
      must (is_advanced baseline found) "checkpoint_not_advanced" 503
      pure (some found.0, some found.1)

    unfoldable pub resume_evidence : Option Receipt → M World (Option Checkpoint × Option Receipt)
    unfolding checkpoint
    resume_evidence (some expected) = do
      found ← checkpoint
      must (same_receipt found.1 expected) "checkpoint_changed" 503
      pure (some found.0, some found.1)
    resume_evidence none = do must p.allow_fresh_start "checkpoint_required" 503; pure (none, none)

    unfoldable pub apply_resume : Option Ready → M World (Option Checkpoint × Option Receipt)
    unfolding resume_evidence active
    apply_resume current = do
      found ← resume_evidence (evidence_of current)
      outside (m.start p.unit p.stop_timeout_seconds)
      running ← active p.unit
      must running "resume_unverified" 503
      pure found

    unfoldable pub apply :
        String → Option Ready → Option Baseline → M World (Option Checkpoint × Option Receipt)
    unfolding apply_release apply_resume
    apply target current baseline =
        if target == p.released_mode then apply_release baseline else apply_resume current
