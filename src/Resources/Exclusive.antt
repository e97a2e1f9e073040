-- ===== src/Resources/Exclusive.antt =====
-- `acquire` and `release`: who holds the GPU when they return, and when they raise.
use go7_spark_broker.Prelude.{
  ◌≡◌, ◌⊎◌, refl, ap, ◌∙◌, String, true, Option, none, some, List, arith, inl, inr, find,
  find_holds, eq_iff, Result, ok,
}
use go7_spark_broker.Prelude.Exec.{pure, gets, ◌>>>=◌, Keeps, Keeps-bind, keeps_rules}
use go7_spark_broker.Prelude.Outcomes.{
  Gives, Gives-raise, Gives-gets, Gives-Keeps, Gives-weaken, Gives-before, Gives-catch,
  Gives-modify, Gives-bind,
}
use go7_spark_broker.Clock.{Stamp}
use go7_spark_broker.Store.Tables.{
  Store, StoreError, Lease, LeaseStatus, acquiring, active, unknown, denied,
}
use go7_spark_broker.Store.Leases.{
  has_lease_id, controller_normal_since, mark_controller_normal, get_resource_lease, or_old,
}
use go7_spark_broker.Resources.Types.{ExecutionPlan, ControllerPolicy, Snapshot, Throttle, Decision}
use go7_spark_broker.Resources.Probe.{Raised}
use go7_spark_broker.Resources.Coordinator.{Outside, Coordinator, is_some}
use go7_spark_broker.Resources.Control.{set_status}
use go7_spark_broker.Resources.Lifecycle.{LeaseHandle}
use go7_spark_broker.Resources.Acquire.{decision_of, admit, undo, give_up, roll_back}
use go7_spark_broker.Resources.Sole.{IsSole, NoneHeld, IsSole-NoneHeld, set_status-IsSole}
use go7_spark_broker.Resources.Stable.{IsStable, IsJournalled, Keeps-after, stable_rules}
use go7_spark_broker.Resources.Kept.{mark_restored-Kept, restore_handle-Kept, throttle_all-Kept}

-- What the lease table says.
abbrev pub Says : {W : Type 0} → (List Lease → Type 0) → Coordinator W → Type 0
Says P c = P c.store.leases

pub read_same :
    (s : Store) (id : String) (t : Stamp) → (controller_normal_since id t s).0.leases ≡ s.leases
unfolding controller_normal_since
read_same s id t = ground arith

pub mark_same :
    (s : Store) (id : String) (t : Stamp) → (mark_controller_normal id t s).leases ≡ s.leases
unfolding mark_controller_normal
mark_same s id t = ground arith

pub Says-IsStable : {W : Type 0} (P : List Lease → Type 0) → IsStable (Says {W = W} P)
Says-IsStable P = record {
  moves = λ c w h. h;
  accepts = λ c g e h. h;
  reads_quantum = λ c id t h. rw (read_same c.store id t) h;
  marks_quantum = λ c id t h. rw (mark_same c.store id t) h;
  sets_throttled = λ c l h. h;
  sets_after = λ c s h. h;
}

Sole-IsJournalled :
    {W : Type 0} (id : String) → IsJournalled id (Says {W = W} (IsSole id acquiring))
Sole-IsJournalled id = record {
  journals = λ c l t s e h.
      let (s', e', sole, _) = set_status-IsSole id acquiring acquiring (some l) none t c.store h in
      rw (ok_same _ s' s e' e) at sole;
}
  where
    ok_same : (r : Result StoreError Store) (s s' : Store) → r ≡ ok s → r ≡ ok s' → s ≡ s'
    ok_same r s s' e f = cc

module _ (o : Outside) (id : String) where
  open o use {World}

  -- The write of a status cannot fail while the lease is the only one.
  pub Gives-set_status :
      (st st' : LeaseStatus) (throttle : Option (List Throttle)) (decision : Option Decision)
      {R : Raised → Coordinator World → Type 0}
      → Gives
          (Says (IsSole id st))
          (set_status o id st' throttle decision)
          (λ _. Says (IsSole id st'))
          R
  unfolding set_status
  Gives-set_status st st' throttle decision = record {
    at = λ c h.
        let (s', e, sole, _) =
          set_status-IsSole id st st' throttle decision (o.now c.world).0 c.store h in
        rw e sole;
  }

-- A lease was granted: the handle's lease is stored, it is active, and no other is held.
pub record IsGranted {W : Type 0} (h : LeaseHandle) (c : Coordinator W) : Type 0 where
  pub stored : get_resource_lease h.lease.id c.store ≡ some h.lease
  pub is_active : h.lease.status ≡ active
  pub sole : IsSole h.lease.id active c.store.leases

-- The coordinator is quarantined, and the lease stays held as unknown.
pub record IsUncertain {W : Type 0} (c : Coordinator W) : Type 0 where
  pub closed : is_some c.quarantine ≡ true
  pub kept : (id : String) × IsSole id unknown c.store.leases

module _ (o : Outside) (lease : Lease) (plan : ExecutionPlan) (before : Snapshot) where
  open o use {World}

  abbrev Acquiring : Coordinator World → Type 0
  Acquiring = Says (IsSole lease.id acquiring)

  stable : IsStable Acquiring
  stable = Says-IsStable (IsSole lease.id acquiring)

  answer_gives :
      (records : List Throttle) {R : Raised → Coordinator World → Type 0}
      → Gives
          (Says (IsSole lease.id active))
          (gets (λ c. get_resource_lease lease.id c.store) >>>= λ stored.
            pure (record { lease = or_old stored lease; throttled = records }))
          IsGranted
          R
  unfolding ◌>>>=◌ gets pure get_resource_lease
  answer_gives records = record {
    at = λ c h.
        let (l, e, st) = h.there in
        let l_id = (eq_iff l.id lease.id).0 (find_holds (has_lease_id lease.id) c.store.leases e) in
        rw e (record {
          stored = ap (λ x. find (has_lease_id x) c.store.leases) l_id ∙ e;
          is_active = st;
          sole = rw l_id h;
        });
  }

  pub admit_gives :
      (l : List ControllerPolicy)
      → Gives Acquiring (admit o lease plan before l) IsGranted (λ _. Acquiring)
  unfolding admit
  admit_gives l = Gives-bind _ _ (Gives-Keeps (search keeps_rules)) (λ first.
      Gives-bind _ _
        (Gives-Keeps
          (throttle_all-Kept o Acquiring stable lease (Sole-IsJournalled lease.id) _ _ _ l))
        (λ causal. Gives-bind _ _ (Gives-Keeps (search (stable_rules, stable))) (λ after.
          Gives-bind _ _ (Gives-Keeps (search keeps_rules)) (λ g.
            Gives-bind _ _ (Gives-Keeps (search keeps_rules)) (λ _.
              Gives-bind _ _ (Gives-Keeps (search keeps_rules)) (λ policy.
                Gives-bind _ _ (Gives-Keeps (search keeps_rules)) (λ _.
                  Gives-bind _ _ (Gives-Keeps (search keeps_rules)) (λ _.
                    Gives-bind _ _ (Gives-Keeps (Keeps-after Acquiring stable (some after))) (λ _.
                      Gives-bind _ _ (Gives-Keeps (search keeps_rules)) (λ records.
                        Gives-bind _ _
                          (Gives-set_status o lease.id acquiring active (some records)
                            (some (decision_of o plan before (some after))))
                          (λ _. answer_gives records)))))))))))

  undo_kept : Keeps Acquiring (undo o lease)
  unfolding undo
  undo_kept = Keeps-bind _ _ (search keeps_rules) (λ records.
      search (keeps_rules, stable_rules, stable, restore_handle-Kept, mark_restored-Kept) depth 50)

  give_up_gives :
      (e : Raised)
      → Gives Acquiring (give_up o lease plan before e) (λ _. Acquiring) (λ _. IsUncertain)
  unfolding give_up
  give_up_gives e = Gives-bind _ _ (Gives-gets _ _) (λ records.
      Gives-bind _ _ (Gives-gets _ _) (λ after.
        Gives-bind _ _
          (Gives-set_status o lease.id acquiring unknown (some records)
            (some (decision_of o plan before after)))
          (λ _.
            Gives-bind _ _ (Gives-modify _ (λ c h. record { closed = refl; kept = (lease.id, h) }))
              (λ _. Gives-raise (λ _. IsUncertain) _))))

  pub roll_back_gives :
      (e : Raised)
      → Gives Acquiring
          (roll_back o lease plan before e)
          IsGranted
          (λ _ c. NoneHeld c.store.leases ⊎ IsUncertain c)
  unfolding roll_back
  roll_back_gives e =
      Gives-bind _ _
        (Gives-weaken (Gives-catch _ _ (Gives-Keeps undo_kept) give_up_gives) (λ a c h. h)
          (λ x c h. inr h))
        (λ _. Gives-bind _ _ (Gives-gets _ _) (λ records. Gives-bind _ _ (Gives-gets _ _) (λ after.
          Gives-bind _ _
            (Gives-set_status o lease.id acquiring denied (some records)
              (some (decision_of o plan before after)))
            (λ _.
              Gives-before (λ c h. inl (IsSole-NoneHeld lease.id denied c.store.leases refl h))
                (Gives-raise (λ _ c. NoneHeld c.store.leases ⊎ IsUncertain c) e)))))
