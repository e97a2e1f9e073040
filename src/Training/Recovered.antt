-- ===== src/Training/Recovered.antt =====
-- What a recovery keeps, and that it answers with what the file says then.
use mathlib.Core.Path.{subst}
use go7_spark_broker.Prelude.{◌≡◌, refl, ap, inl, inr, Option, none, some, arith, Result-cases, ok}
use go7_spark_broker.Prelude.Exec.{lift, gets, ◌>>>=◌, Keeps, Keeps-bind, Keeps-lifted, keeps_rules}
use go7_spark_broker.Prelude.Outcomes.{Gives, Gives-Keeps, Gives-bind}
use go7_spark_broker.Resources.Types.{Checkpoint}
use go7_spark_broker.Training.Types.{
  Failure, Policy, ModeRequest, TakeoverRequest, Call, by_mode, by_takeover, Receipt, Baseline,
  Ready, Applying, AuthorityFile, absent, unreadable, foreign, ready, applying,
}
use go7_spark_broker.Training.Requests.{validate_mode, validate_takeover}
use go7_spark_broker.Training.Mode.{Machine, Controller}
use go7_spark_broker.Training.Control.{
  done_mode, done_takeover, complete_set_mode, complete_takeover, loaded, recovered_baseline,
  recover_applying, recover_file, recover_if_needed,
}
use go7_spark_broker.Training.Kept.{Holds, write_state_kept, write_authority_kept, apply-Kept}

-- The file is that of the answer of the recovery.
abbrev pub Is : Option Ready → AuthorityFile → Type 0
Is current f = loaded f ≡ ok current

module _ (m : Machine) (p : Policy) (P : AuthorityFile → Type 0) where
  open m use {World}

  pub complete_set_mode-Kept :
      (r : ModeRequest) (previous : Option Ready) (b : Option Baseline)
      → ((x : Option Checkpoint × Option Receipt) → P (ready (done_mode p r x)))
      → Keeps (Holds m P) (complete_set_mode m p r previous b)
  unfolding complete_set_mode
  complete_set_mode-Kept r previous b new =
      Keeps-bind _ _ (apply-Kept m P p r.target_mode previous b) (λ x.
        Keeps-bind _ _ (write_authority_kept m P _ (new x))
          (λ _. Keeps-bind _ _ (write_state_kept m P _) (λ _. search keeps_rules)))

  pub complete_takeover-Kept :
      (r : TakeoverRequest) (previous : Ready)
      → ((x : Option Checkpoint × Option Receipt) → P (ready (done_takeover p r x)))
      → Keeps (Holds m P) (complete_takeover m p r previous)
  unfolding complete_takeover
  complete_takeover-Kept r previous new =
      Keeps-bind _ _ (apply-Kept m P p r.target_mode (some previous) none) (λ x.
        Keeps-bind _ _ (write_authority_kept m P _ (new x))
          (λ _. Keeps-bind _ _ (write_state_kept m P _) (λ _. search keeps_rules)))

  -- The completion of a request leaves a file with the property.
  abbrev pub Finishes : Call → Type 0
  Finishes (by_mode r) = (x : Option Checkpoint × Option Receipt) → P (ready (done_mode p r x))
  Finishes (by_takeover r) =
      (x : Option Checkpoint × Option Receipt) → P (ready (done_takeover p r x))

  valid_mode : (r s : ModeRequest) → validate_mode p r ≡ ok s → r ≡ s
  unfolding validate_mode
  valid_mode r s e = ground (arith, e)

  valid_takeover : (r s : TakeoverRequest) → validate_takeover p r ≡ ok s → r ≡ s
  unfolding validate_takeover
  valid_takeover r s e = ground (arith, e)

  recovered_baseline_kept :
      (r : ModeRequest) (b : Option (Option Baseline))
      → Keeps (Holds m P) (recovered_baseline m p r b)
  unfolding recovered_baseline
  recovered_baseline_kept r none = search keeps_rules
  recovered_baseline_kept r (some b) = search keeps_rules

  recover_applying_kept :
      (call : Call) (previous : Option Ready) (b : Option (Option Baseline))
      → Finishes call
      → Keeps (Holds m P) (recover_applying m p call previous b)
  unfolding recover_applying
  recover_applying_kept (by_mode r) previous b h = Keeps-lifted (validate_mode p r) _ (λ s e.
      Keeps-bind _ _ (recovered_baseline_kept s b) (λ found.
        complete_set_mode-Kept s previous found
          (subst (λ t. Finishes (by_mode t)) (valid_mode r s e) h)))
  recover_applying_kept (by_takeover r) none b h = search keeps_rules
  recover_applying_kept (by_takeover r) (some a) b h =
      Keeps-lifted (validate_takeover p r) _ (λ s e. Keeps-bind _ _ (search keeps_rules) (λ _.
        complete_takeover-Kept s a
          (subst (λ t. Finishes (by_takeover t)) (valid_takeover r s e) h)))

  abbrev pub Read : Option Ready → Controller World → Type 0
  Read current c = P c.authority × Is current c.authority

  abbrev pub Raises : Failure → Controller World → Type 0
  Raises _ c = P c.authority

  reload_outcome : Gives (Holds m P) (gets (λ c. c.authority) >>>= λ f. lift (loaded f)) Read Raises
  unfolding ◌>>>=◌ gets lift
  reload_outcome = record {
    at = λ c h. elim (Result-cases (loaded c.authority)) [
      | inl (a, e) ↦ rw e (h, e)
      | inr (x, e) ↦ rw e h
    ];
  }

  file_gives :
      ((a : Applying) → P (applying a) → Finishes a.call)
      → (f : AuthorityFile)
      → Gives (λ c. (c.authority ≡ f) × P c.authority) (recover_file m p f) Read Raises
  unfolding lift
  file_gives k absent = record { at = λ c h. (h.1, ap loaded h.0) }
  file_gives k unreadable = record { at = λ c h. h.1 }
  file_gives k foreign = record { at = λ c h. h.1 }
  file_gives k (ready a) = record { at = λ c h. (h.1, ap loaded h.0) }
  file_gives k (applying a) = record {
    at = λ c h.
        (Gives-bind _ _
            (Gives-Keeps
              (recover_applying_kept a.call a.previous a.baseline (k a (subst P h.0 h.1))))
            (λ _. reload_outcome)).at
          c h.1;
  }

  pub recover_if_needed-Read :
      ((a : Applying) → P (applying a) → Finishes a.call)
      → Gives (Holds m P) (recover_if_needed m p) Read Raises
  unfolding recover_if_needed ◌>>>=◌ gets
  recover_if_needed-Read k = record { at = λ c h. (file_gives k c.authority).at c (refl, h) }
