-- ===== src/Training/Control.antt =====
-- `TrainingController`: the fence of a request, the completion of a change, its recovery, `set_mode` and
-- `takeover`.
use go7_spark_broker.Prelude.{
  String, Bool, true, false, not, ◌&&◌, ◌||◌, Option, none, some, [], ◌∷◌, Result, ok, err, ltb,
  leb, eqb, if◌then◌else◌, ◌==◌,
}
use go7_spark_broker.Prelude.Exec.{pure, lift, gets, ◌>>>=◌ as ◌>>=◌}
use go7_spark_broker.Resources.Types.{Checkpoint}
use go7_spark_broker.Resources.Coordinator.{is_some}
use go7_spark_broker.Resources.Control.{◌>>◌}
use go7_spark_broker.Json.{Json, int, pos, text, boolean, dict}
use go7_spark_broker.Training.Types.{
  Failure, refused, Policy, ModeRequest, TakeoverRequest, Call, by_mode, by_takeover, same_request,
  same_takeover, Receipt, Baseline, Public, Ready, AuthorityFile, absent, unreadable, foreign,
  ready, applying, checkpoint_entry,
}
use go7_spark_broker.Training.Requests.{
  read_mode_request, read_takeover_request, validate_mode, validate_takeover,
}
use go7_spark_broker.Training.Receipt.{validate_release_baseline}
use go7_spark_broker.Training.Mode.{
  Machine, M, fail, must, write_authority, write_state, receipt_identity_if_present, evidence_of,
  apply,
}

-- `_public_from_authority`
abbrev pub public_from : Ready → Result Failure Public
public_from a = elim a.public [ none ↦ err (refused "state_invalid" 503) | some q ↦ ok q ]

abbrev pub conflict : {A : Type 0} → String → Result Failure A
conflict code = err (refused code 409)

-- The same epoch: the lease goes on, or another one starts after it.
abbrev pub check_lease : Policy → ModeRequest → Public → Result Failure (Unit {0})
check_lease p r q =
    if r.lease_id == q.lease_id
    then if not (r.fencing_token == q.fencing_token)
      then conflict "fence_conflict"
      else if leb r.control_generation q.control_generation
      then conflict "generation_conflict"
      else ok tt
    else if not (q.effective_mode == p.normal_mode) || not (eqb r.control_generation 1)
    then conflict "lease_conflict"
    else ok tt

abbrev pub check_epoch : Policy → ModeRequest → Public → Result Failure (Unit {0})
check_epoch p r q =
    if ltb r.broker_epoch q.broker_epoch
    then conflict "stale_epoch"
    else if eqb r.broker_epoch q.broker_epoch
    then check_lease p r q
    else if not (q.effective_mode == p.normal_mode)
    then conflict "takeover_required"
    else ok tt

abbrev pub check_public : Policy → ModeRequest → Option Public → Result Failure (Unit {0})
check_public p r none = err (refused "state_invalid" 503)
check_public p r (some q) = check_epoch p r q

unfoldable pub check_fence : Policy → ModeRequest → Option Ready → Result Failure (Unit {0})
check_fence p r none = ok tt
check_fence p r (some a) = check_public p r a.public

abbrev pub public_of_mode : Policy → ModeRequest → Option Checkpoint → Public
public_of_mode p r k = record {
  controller_id = p.controller_id;
  mutation_id = r.mutation_id;
  lease_id = r.lease_id;
  fencing_token = r.fencing_token;
  broker_epoch = r.broker_epoch;
  control_generation = r.control_generation;
  effective_mode = r.target_mode;
  checkpoint = k;
}

abbrev pub response_to_mode : ModeRequest → Option Checkpoint → Json
response_to_mode r k = dict (
    ("mutationId", text r.mutation_id)
    ∷ ("leaseId", text r.lease_id)
    ∷ ("fencingToken", text r.fencing_token)
    ∷ ("brokerEpoch", int (pos r.broker_epoch))
    ∷ ("acknowledgedGeneration", int (pos r.control_generation))
    ∷ ("effectiveMode", text r.target_mode)
    ∷ ("health", text "healthy")
    ∷ ("appliedAtSafeBoundary", boolean true)
    ∷ checkpoint_entry k)

abbrev pub public_of_takeover : Policy → TakeoverRequest → Public
public_of_takeover p r = record {
  controller_id = p.controller_id;
  mutation_id = r.mutation_id;
  lease_id = r.previous_lease_id;
  fencing_token = r.recovery_fencing_token;
  broker_epoch = r.broker_epoch;
  control_generation = r.control_generation;
  effective_mode = r.target_mode;
  checkpoint = none;
}

abbrev pub response_to_takeover : TakeoverRequest → Json
response_to_takeover r = dict (
    ("mutationId", text r.mutation_id)
    ∷ ("previousLeaseId", text r.previous_lease_id)
    ∷ ("previousFencingToken", text r.previous_fencing_token)
    ∷ ("recoveryFencingToken", text r.recovery_fencing_token)
    ∷ ("brokerEpoch", int (pos r.broker_epoch))
    ∷ ("acknowledgedGeneration", int (pos r.control_generation))
    ∷ ("effectiveMode", text r.target_mode)
    ∷ ("health", text "healthy")
    ∷ ("appliedAtSafeBoundary", boolean true)
    ∷ [])

abbrev pub done_mode : Policy → ModeRequest → (Option Checkpoint × Option Receipt) → Ready
done_mode p r (k, e) = record {
  call = by_mode r;
  public = some (public_of_mode p r k);
  response = response_to_mode r k;
  evidence = e;
}

abbrev pub done_takeover : Policy → TakeoverRequest → (Option Checkpoint × Option Receipt) → Ready
done_takeover p r (k, e) = record {
  call = by_takeover r;
  public = some (public_of_takeover p r);
  response = response_to_takeover r;
  evidence = e;
}

abbrev pub flat : Option (Option Baseline) → Option Baseline
flat none = none
flat (some b) = b

-- `_authority` behind the recovery, where only the phase "ready" can be met.
abbrev pub loaded : AuthorityFile → Result Failure (Option Ready)
loaded absent = ok none
loaded (ready a) = ok (some a)
loaded unreadable = err (refused "state_invalid" 503)
loaded foreign = err (refused "recovery_required" 503)
loaded (applying a) = err (refused "recovery_required" 503)

abbrev pub is_mode_again : ModeRequest → Call → Bool
is_mode_again r (by_mode s) = same_request s r
is_mode_again r (by_takeover s) = false

abbrev pub displaces : TakeoverRequest → Public → Bool
displaces r q =
    q.lease_id == r.previous_lease_id
    && q.fencing_token == r.previous_fencing_token
    && ltb q.broker_epoch r.broker_epoch

abbrev pub is_takeover_again : TakeoverRequest → Call → Bool
is_takeover_again r (by_mode s) = false
is_takeover_again r (by_takeover s) = same_takeover s r

module _ (m : Machine) (p : Policy) where
  open m use {World}

  unfoldable pub complete_set_mode : ModeRequest → Option Ready → Option Baseline → M World Json
  unfolding apply write_authority write_state
  complete_set_mode r previous baseline = do
    (k, e) ← apply m p r.target_mode previous baseline
    write_authority m (ready (done_mode p r (k, e)))
    write_state m (public_of_mode p r k)
    pure (response_to_mode r k)

  unfoldable pub complete_takeover : TakeoverRequest → Ready → M World Json
  unfolding apply write_authority write_state
  complete_takeover r previous = do
    (k, e) ← apply m p r.target_mode (some previous) none
    write_authority m (ready (done_takeover p r (k, e)))
    write_state m (public_of_takeover p r)
    pure (response_to_takeover r)

  abbrev pub recovery_required : {A : Type 0} → M World A
  recovery_required = fail "recovery_required" 503

  unfoldable pub recovered_baseline :
      ModeRequest → Option (Option Baseline) → M World (Option Baseline)
  unfolding validate_release_baseline
  recovered_baseline r none =
      if r.target_mode == p.released_mode then recovery_required else pure none
  recovered_baseline r (some b) =
      if r.target_mode == p.released_mode then lift (validate_release_baseline b) else pure none

  unfoldable pub recover_applying : Call → Option Ready → Option (Option Baseline) → M World Json
  unfolding validate_mode validate_takeover recovered_baseline complete_set_mode complete_takeover
  recover_applying (by_mode r) previous baseline = do
    r' ← lift (validate_mode p r)
    b ← recovered_baseline r' baseline
    complete_set_mode r' previous b
  recover_applying (by_takeover r) none baseline = recovery_required
  recover_applying (by_takeover r) (some previous) baseline = do
    r' ← lift (validate_takeover p r)
    must (r'.target_mode == p.normal_mode) "recovery_required" 503
    complete_takeover r' previous

  abbrev pub recover_file : AuthorityFile → M World (Option Ready)
  recover_file (applying a) = do
    _ ← recover_applying a.call a.previous a.baseline
    file ← gets (λ c. c.authority)
    lift (loaded file)
  recover_file file = lift (loaded file)

  unfoldable pub recover_if_needed : M World (Option Ready)
  unfolding recover_applying
  recover_if_needed = do file ← gets (λ c. c.authority); recover_file file

  -- The answer that the authority keeps.
  unfoldable pub answer_again : Ready → M World Json
  unfolding write_state
  answer_again a = do q ← lift (public_from a); write_state m q; pure a.response

  abbrev pub lost_receipt : Option Ready → Option Baseline → Bool
  lost_receipt current baseline = not (is_some baseline) && is_some (evidence_of current)

  unfoldable pub observed_baseline : Option Ready → M World (Option (Option Baseline))
  unfolding receipt_identity_if_present
  observed_baseline current = do
    baseline ← receipt_identity_if_present m
    must (not (lost_receipt current baseline)) "checkpoint_required" 503
    pure (some baseline)

  unfoldable pub release_baseline : ModeRequest → Option Ready → M World (Option (Option Baseline))
  unfolding observed_baseline
  release_baseline r current =
      if r.target_mode == p.released_mode then observed_baseline current else pure none

  unfoldable pub change_mode : ModeRequest → Option Ready → M World Json
  unfolding check_fence release_baseline write_authority complete_set_mode
  change_mode r current = do
    lift (check_fence p r current)
    baseline ← release_baseline r current
    write_authority m
        (applying (record { call = by_mode r; previous = current; baseline = baseline }))
    complete_set_mode r current (flat baseline)

  unfoldable pub set_mode_from : ModeRequest → Option Ready → M World Json
  unfolding answer_again change_mode
  set_mode_from r none = change_mode r none
  set_mode_from r (some a) =
      if is_mode_again r a.call then answer_again a else change_mode r (some a)

  unfoldable pub set_mode : Json → M World Json
  unfolding read_mode_request recover_if_needed set_mode_from
  set_mode raw = do
    r ← lift (read_mode_request p raw)
    current ← recover_if_needed
    set_mode_from r current

  unfoldable pub displace : TakeoverRequest → Ready → M World Json
  unfolding write_authority complete_takeover
  displace r a = do
    q ← lift (public_from a)
    must (displaces r q) "takeover_conflict" 409
    write_authority m
        (applying (record { call = by_takeover r; previous = some a; baseline = none }))
    complete_takeover r a

  unfoldable pub takeover_from : TakeoverRequest → Option Ready → M World Json
  unfolding answer_again displace
  takeover_from r none = fail "takeover_conflict" 409
  takeover_from r (some a) = if is_takeover_again r a.call then answer_again a else displace r a

  unfoldable pub takeover : Json → M World Json
  unfolding read_takeover_request recover_if_needed takeover_from
  takeover raw = do
    r ← lift (read_takeover_request p raw)
    must (r.target_mode == p.normal_mode) "invalid_request" 400
    current ← recover_if_needed
    takeover_from r current
