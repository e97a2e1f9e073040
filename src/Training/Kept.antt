-- ===== src/Training/Kept.antt =====
-- What the calls of the machine, and the writes, do to the file of the authority.
use go7_spark_broker.Prelude.{
  ℕ, ◌≡◌, refl, String, Bool, true, false, Option, none, some, List, [], ◌∷◌, Result,
}
use go7_spark_broker.Prelude.Exec.{pure, raise, ◌>>>=◌, Keeps, Keeps-bind, keeps_rules}
use go7_spark_broker.Training.Types.{
  Failure, Policy, ModeRequest, Receipt, Baseline, FileRecord, Public, Ready, AuthorityFile,
}
use go7_spark_broker.Training.Mode.{
  Machine, Controller, M, Inspected, missing, uninspectable, irregular, regular, Written, written,
  kept, torn, outside, replaced, write_authority, write_state, active, load_receipt,
  receipt_identity_if_present, identity_for, check_file, check_files, checkpoint, apply_release,
  resume_evidence, apply_resume, apply, must,
}
use go7_spark_broker.Training.Control.{answer_again, observed_baseline, release_baseline}

module _ {W A : Type 0} (P : Controller W → Type 0) where
  -- Behind a test that was passed it is known to hold.
  pub Keeps-must :
      (b : Bool) (code : String) (status : ℕ) (f : Unit {0} → M W A)
      → (b ≡ true → Keeps P (f tt))
      → Keeps P (must b code status >>>= f)
  unfolding ◌>>>=◌ pure raise
  Keeps-must true code status f k = record { at = λ c h. (k refl).at c h }
  Keeps-must false code status f k = record { at = λ c h. h }

-- Only the writes of the authority concern it.
module _ (m : Machine) (P : AuthorityFile → Type 0) where
  open m use {World}

  abbrev pub Holds : Controller World → Type 0
  Holds c = P c.authority

  outside_kept : {A : Type 0} (f : World → Result Failure A × World) → Keeps Holds (outside m f)
  outside_kept f = record { at = λ c h. h }

  active_kept : (unit : String) → Keeps Holds (active m unit)
  unfolding active
  active_kept unit = record { at = λ c h. h }

  load_receipt_kept : Keeps Holds (load_receipt m)
  unfolding load_receipt
  load_receipt_kept = record { at = λ c h. h }

  pub write_state_kept : (q : Public) → Keeps Holds (write_state m q)
  unfolding write_state
  write_state_kept q = record {
    at = λ c h. go (m.write_state c.world).0 c (m.write_state c.world).1 h;
  }
    where
      go :
          (r : Written) (c : Controller World) (w : World)
          → P c.authority
          → P
              (replaced m r
                (λ d. record d { state_file = some q })
                (record c { world = w })).1.authority
      go written c w h = h
      go (kept e) c w h = h
      go (torn e) c w h = h

  check_files_kept : (l : List FileRecord) → Keeps Holds (check_files m l)
  unfolding check_files check_file
  check_files_kept [] = search keeps_rules
  check_files_kept (f ∷ r) =
      Keeps-bind _ _ (Keeps-bind _ _ (outside_kept (m.observe f.path)) (λ x. search keeps_rules))
        (λ _. check_files_kept r)

  checkpoint_kept : Keeps Holds (checkpoint m)
  unfolding checkpoint
  checkpoint_kept =
      Keeps-bind _ _ load_receipt_kept
        (λ r. Keeps-bind _ _ (check_files_kept r.files) (λ _. search keeps_rules))

  -- Either the new file is there, or the old one.
  pub write_authority_kept : (a : AuthorityFile) → P a → Keeps Holds (write_authority m a)
  unfolding write_authority
  write_authority_kept a new = record {
    at = λ c h. go (m.write_authority c.world).0 c (m.write_authority c.world).1 h;
  }
    where
      go :
          (r : Written) (c : Controller World) (w : World)
          → P c.authority
          → P (replaced m r (λ d. record d { authority = a }) (record c { world = w })).1.authority
      go written c w h = new
      go (kept e) c w h = h
      go (torn e) c w h = new

  identity_kept : Keeps Holds (receipt_identity_if_present m)
  unfolding receipt_identity_if_present
  identity_kept = Keeps-bind _ _ (record { at = λ c h. h }) found
    where
      found : (i : Inspected) → Keeps Holds (identity_for m i)
      found missing = search keeps_rules
      found uninspectable = search keeps_rules
      found irregular = search keeps_rules
      found regular = Keeps-bind _ _ load_receipt_kept (λ r. search keeps_rules)

  module _ (p : Policy) where
    release_kept : (b : Option Baseline) → Keeps Holds (apply_release m p b)
    unfolding apply_release
    release_kept b =
        Keeps-bind _ _ (outside_kept (m.stop p.unit p.stop_timeout_seconds))
          (λ _. search (keeps_rules, active_kept, checkpoint_kept) depth 30)

    evidence_kept : (e : Option Receipt) → Keeps Holds (resume_evidence m p e)
    unfolding resume_evidence
    evidence_kept none = search keeps_rules
    evidence_kept (some e) = Keeps-bind _ _ checkpoint_kept (λ x. search keeps_rules)

    resume_kept : (current : Option Ready) → Keeps Holds (apply_resume m p current)
    unfolding apply_resume
    resume_kept current = Keeps-bind _ _ (evidence_kept _) (λ x.
        Keeps-bind _ _ (outside_kept (m.start p.unit p.stop_timeout_seconds))
          (λ _. search (keeps_rules, active_kept)))

    pub apply-Kept :
        (target : String) (current : Option Ready) (b : Option Baseline)
        → Keeps Holds (apply m p target current b)
    unfolding apply
    apply-Kept target current b = search (keeps_rules, release_kept, resume_kept)

    pub release_baseline-Kept :
        (r : ModeRequest) (current : Option Ready) → Keeps Holds (release_baseline m p r current)
    unfolding release_baseline observed_baseline
    release_baseline-Kept r current = search (keeps_rules, identity_kept)

    pub answer_again-Kept : (a : Ready) → Keeps Holds (answer_again m p a)
    unfolding answer_again
    answer_again-Kept a = search (keeps_rules, write_state_kept)
