-- ===== src/Resources/Sound.antt =====
-- What every method of the coordinator keeps, whether it returns or raises.
use go7_spark_broker.Prelude.{
  ℕ, ◌≡◌, refl, String, Bool, true, false, Option, none, some, List, arith, Result, ok, err,
  Ensures, Ensures_ok, leb,
}
use go7_spark_broker.Prelude.Exec.{pure, modify, ◌>>>=◌, Keeps, Keeps-bind, Keeps-if, keeps_rules}
use go7_spark_broker.Store.Tables.{Store, StoreError, Lease, LeaseStatus}
use go7_spark_broker.Store.Leases.{insert_lease}
use go7_spark_broker.Store.Invariant.{IsWellFormed}
use go7_spark_broker.Store.LeaseSteps.{
  insert_lease-IsWellFormed, set_resource_lease_status-IsWellFormed,
}
use go7_spark_broker.Store.OtherSteps.{
  controller_normal_since-IsWellFormed, mark_controller_normal-IsWellFormed,
}
use go7_spark_broker.Resources.Types.{ExecutionPlan, ControllerPolicy, Snapshot, Throttle, Decision}
use go7_spark_broker.Resources.Probe.{Raised}
use go7_spark_broker.Resources.Sample.{regressed}
use go7_spark_broker.Resources.Coordinator.{Outside, Coordinator, M, is_some}
use go7_spark_broker.Resources.Control.{committed, set_status}
use go7_spark_broker.Resources.Stable.{IsStable, IsJournalled, stable_rules}
use go7_spark_broker.Resources.Kept.{
  enforce_quanta-Kept, mark_restored-Kept, restore_handle-Kept, throttle_all-Kept,
}
use go7_spark_broker.Resources.Lifecycle.{LeaseHandle}
use go7_spark_broker.Resources.Acquire.{
  needs_lease, admit, undo, give_up, roll_back, create_lease, acquire_free, acquire_group,
  acquire_leased, acquire, check_gone, let_go, keep_unknown, release_lease, release,
  verify_activation,
}

-- The probe's generation has been seen to be at least `n`.
abbrev pub at_least : ℕ → Option ℕ → Bool
at_least n none = false
at_least n (some g) = leb n g

-- The tables are well formed, the last accepted generation is at least `n`, and, if `b`, the
-- coordinator is quarantined.
pub record IsSound {W : Type 0} (n : ℕ) (b : Bool) (c : Coordinator W) : Type 0 where
  pub tables : IsWellFormed c.store
  pub seen : at_least n c.last_generation ≡ true
  pub closed : b ≡ true → is_some c.quarantine ≡ true

-- A generation that is accepted does not lie before the last.
later :
    (n : ℕ) (o : Option ℕ) (g : ℕ)
    → at_least n o ≡ true
    → regressed o g ≡ false
    → at_least n (some g) ≡ true
later n none g h r = absurd (ground arith)
later n (some l) g h r = ground arith

module _ {W : Type 0} {n : ℕ} {b : Bool} where
  -- Only the outside moved.
  pub moved : (c : Coordinator W) (w : W) → IsSound n b c → IsSound n b (record c { world = w })
  moved c w h = record { tables = h.tables; seen = h.seen; closed = h.closed }

  -- The tables changed, and are well formed again.
  pub rewritten :
      (c : Coordinator W) (s : Store)
      → IsSound n b c
      → IsWellFormed s
      → IsSound n b (record c { store = s })
  rewritten c s h w = record { tables = w; seen = h.seen; closed = h.closed }

  committed-IsSound :
      (r : Result StoreError Store) (c : Coordinator W)
      → Ensures IsWellFormed r
      → IsSound n b c
      → IsSound n b (committed r c).1
  committed-IsSound (ok s) c w h = rewritten c s h w
  committed-IsSound (err e) c w h = h

  pub Keeps-insert_lease :
      (l : Lease) → Keeps (IsSound {W = W} n b) (λ c. committed (insert_lease l c.store) c)
  Keeps-insert_lease l = record {
    at = λ c h. committed-IsSound _ c (insert_lease-IsWellFormed l c.store h.tables) h;
  }

  pub Keeps-locals :
      (f : Coordinator W → List Throttle) (g : Coordinator W → Option Snapshot)
      → Keeps
          (IsSound {W = W} n b)
          (modify {E = Raised} (λ c. record c { throttled = f c; after = g c }))
  unfolding modify
  Keeps-locals f g = record {
    at = λ c h. record { tables = h.tables; seen = h.seen; closed = h.closed };
  }

  pub Keeps-quarantine :
      (t : String)
      → Keeps (IsSound {W = W} n b) (modify {E = Raised} (λ c. record c { quarantine = some t }))
  unfolding modify
  Keeps-quarantine t = record {
    at = λ c h. record { tables = h.tables; seen = h.seen; closed = λ _. refl };
  }

  pub IsSound-IsStable : IsStable (IsSound {W = W} n b)
  IsSound-IsStable = record {
    moves = moved;
    accepts = λ c g e h. record {
      tables = h.tables;
      seen = later n c.last_generation g h.seen e;
      closed = h.closed;
    };
    reads_quantum =
        λ c id t h. rewritten c _ h (controller_normal_since-IsWellFormed id t c.store h.tables);
    marks_quantum =
        λ c id t h. rewritten c _ h (mark_controller_normal-IsWellFormed id t c.store h.tables);
    sets_throttled = λ c l h. record { tables = h.tables; seen = h.seen; closed = h.closed };
    sets_after = λ c s h. record { tables = h.tables; seen = h.seen; closed = h.closed };
  }

  pub IsSound-IsJournalled : (lease_id : String) → IsJournalled lease_id (IsSound {W = W} n b)
  IsSound-IsJournalled lease_id = record {
    journals = λ c l t s e h. rewritten c s h (
        Ensures_ok IsWellFormed _
          (set_resource_lease_status-IsWellFormed lease_id _ (some l) none t c.store h.tables) e);
  }

module _ (o : Outside) (n : ℕ) (b : Bool) where
  open o use {World}

  Keeps-set_status :
      (lease_id : String) (status : LeaseStatus) (throttle : Option (List Throttle))
      (decision : Option Decision)
      → Keeps (IsSound {W = World} n b) (set_status o lease_id status throttle decision)
  unfolding set_status
  Keeps-set_status lease_id status throttle decision = record {
    at = λ c h.
        committed-IsSound _ _
          (set_resource_lease_status-IsWellFormed lease_id status throttle decision _ c.store
            h.tables)
          (moved c _ h);
  }

ruleset sound_rules = (
  Keeps-insert_lease, Keeps-locals, Keeps-quarantine, Keeps-set_status, IsSound-IsStable,
  IsSound-IsJournalled,
)

module _ (o : Outside) (n : ℕ) (b : Bool) where
  open o use {World}

  abbrev Sound : {A : Type 0} → M World A → Type 0
  Sound m = Keeps (IsSound {W = World} n b) m

  admit-IsSound :
      (lease : Lease) (plan : ExecutionPlan) (before : Snapshot) (l : List ControllerPolicy)
      → Sound (admit o lease plan before l)
  unfolding admit
  admit-IsSound lease plan before l =
      Keeps-bind _ _ (search keeps_rules)
        (λ first. search (keeps_rules, stable_rules, sound_rules, throttle_all-Kept) depth 50)

  undo-IsSound : (lease : Lease) → Sound (undo o lease)
  unfolding undo
  undo-IsSound lease = Keeps-bind _ _ (search keeps_rules) (λ records.
      search (keeps_rules, stable_rules, sound_rules, restore_handle-Kept, mark_restored-Kept) depth
        50)

  give_up-IsSound :
      (lease : Lease) (plan : ExecutionPlan) (before : Snapshot) (e : Raised)
      → Sound (give_up o lease plan before e)
  unfolding give_up
  give_up-IsSound lease plan before e =
      Keeps-bind _ _ (search keeps_rules)
        (λ records. search (keeps_rules, stable_rules, sound_rules) depth 30)

  roll_back-IsSound :
      (lease : Lease) (plan : ExecutionPlan) (before : Snapshot) (e : Raised)
      → Sound (roll_back o lease plan before e)
  unfolding roll_back
  roll_back-IsSound lease plan before e =
      Keeps-bind _ _ (search (keeps_rules, undo-IsSound, give_up-IsSound))
        (λ _. search (keeps_rules, stable_rules, sound_rules) depth 30)

  create_lease-IsSound :
      (job_id : String) (plan : ExecutionPlan) (group : String) (before : Snapshot)
      → Sound (create_lease o job_id plan group before)
  unfolding create_lease
  create_lease-IsSound job_id plan group before =
      Keeps-bind _ _ (search (stable_rules, sound_rules))
        (λ t. search (keeps_rules, stable_rules, sound_rules) depth 40)

  acquire_free-IsSound :
      (job_id : String) (plan : ExecutionPlan) (group : String)
      → Sound (acquire_free o job_id plan group)
  unfolding acquire_free
  acquire_free-IsSound job_id plan group =
      Keeps-bind _ _ (search (stable_rules, sound_rules)) (λ busy.
        search
          (
            keeps_rules, stable_rules, sound_rules, enforce_quanta-Kept, create_lease-IsSound,
            admit-IsSound, roll_back-IsSound,
          )
          depth 50)

  acquire_group-IsSound :
      (job_id : String) (plan : ExecutionPlan) (group : String)
      → Sound (acquire_group o job_id plan group)
  unfolding acquire_group
  acquire_group-IsSound job_id plan group =
      Keeps-bind _ _ (search keeps_rules)
        (λ busy. search (keeps_rules, acquire_free-IsSound) depth 30)

  acquire_leased-IsSound :
      (job_id : String) (plan : ExecutionPlan) (cancelled : Bool)
      → Sound (acquire_leased o job_id plan cancelled)
  unfolding acquire_leased
  acquire_leased-IsSound job_id plan cancelled =
      Keeps-bind _ _ (search keeps_rules)
        (λ _. search (keeps_rules, acquire_group-IsSound) depth 30)

  pub acquire-IsSound :
      (job_id : String) (plan : ExecutionPlan) (cancelled : Bool)
      → Sound (acquire o job_id plan cancelled)
  unfolding acquire
  acquire-IsSound job_id plan cancelled =
      Keeps-if (needs_lease plan) (acquire_leased o job_id plan cancelled >>>= λ h. pure (some h))
        (pure none) (search (keeps_rules, acquire_leased-IsSound)) (search keeps_rules)

  check_gone-IsSound : (h : LeaseHandle) → Sound (check_gone o h)
  unfolding check_gone
  check_gone-IsSound h =
      Keeps-bind _ _ (search (stable_rules, sound_rules)) (λ before. search (keeps_rules) depth 30)

  let_go-IsSound : (h : LeaseHandle) → Sound (let_go o h)
  unfolding let_go
  let_go-IsSound h = Keeps-bind _ _ (search (keeps_rules, check_gone-IsSound)) (λ floor.
      search (keeps_rules, stable_rules, sound_rules, restore_handle-Kept, mark_restored-Kept) depth
        50)

  keep_unknown-IsSound : (h : LeaseHandle) (e : Raised) → Sound (keep_unknown o h e)
  unfolding keep_unknown
  keep_unknown-IsSound h e =
      Keeps-bind _ _ (search (stable_rules, sound_rules))
        (λ _. search (keeps_rules, stable_rules, sound_rules) depth 30)

  release_lease-IsSound : (h : LeaseHandle) → Sound (release_lease o h)
  unfolding release_lease
  release_lease-IsSound h = Keeps-bind _ _ (search (stable_rules, sound_rules)) (λ _.
      search (keeps_rules, stable_rules, sound_rules, let_go-IsSound, keep_unknown-IsSound) depth
        30)

  pub release-IsSound : (h : Option LeaseHandle) → Sound (release o h)
  unfolding release
  release-IsSound none = search keeps_rules
  release-IsSound (some h) = release_lease-IsSound h

  pub verify_activation-IsSound :
      (h : Option LeaseHandle) (plan : ExecutionPlan) → Sound (verify_activation o h plan)
  unfolding verify_activation
  verify_activation-IsSound none plan = search keeps_rules
  verify_activation-IsSound (some h) plan =
      Keeps-bind _ _ (search (stable_rules, sound_rules)) (λ s. search (keeps_rules) depth 40)
