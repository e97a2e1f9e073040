-- ===== src/Resources/Grants.antt =====
-- `acquire` and `release`: who holds the GPU when they return, and when they raise.
use go7_spark_broker.Prelude.{
  ◌≡◌, ◌⊎◌, refl, String, Bool, true, false, not, Option, none, some, List, arith, inl, inr,
  is_empty, Bool-cases, Result, ok, err, if◌then◌else◌,
}
use go7_spark_broker.Prelude.Exec.{pure, gets, Keeps, keeps_rules}
use go7_spark_broker.Prelude.Outcomes.{
  Outcome, Gives, Gives-pure, Gives-raise, Gives-gets, Gives-Keeps, Gives-weaken, Gives-before,
  Gives-catch, Gives-modify, Gives-bind,
}
use go7_spark_broker.Store.Tables.{Store, StoreError, Lease, acquiring}
use go7_spark_broker.Store.Leases.{insert_lease, held_leases}
use go7_spark_broker.Resources.Types.{ExecutionPlan, Snapshot}
use go7_spark_broker.Resources.Probe.{Raised}
use go7_spark_broker.Resources.Coordinator.{Outside, Coordinator, M}
use go7_spark_broker.Resources.Control.{deferral, committed}
use go7_spark_broker.Resources.Lifecycle.{LeaseHandle}
use go7_spark_broker.Resources.Acquire.{
  needs_lease, create_lease, acquire_free, acquire_group, acquire_leased, acquire,
}
use go7_spark_broker.Resources.Sole.{IsSole, NoneHeld, held_leases-NoneHeld, insert_lease-IsSole}
use go7_spark_broker.Resources.Stable.{IsStable, stable_rules}
use go7_spark_broker.Resources.Kept.{enforce_quanta-Kept}
use go7_spark_broker.Resources.Exclusive.{
  Says, Says-IsStable, IsGranted, IsUncertain, admit_gives, roll_back_gives,
}

module _ (o : Outside) where
  open o use {World}

  unheld : IsStable (Says {W = World} NoneHeld)
  unheld = Says-IsStable NoneHeld

  insert_gives :
      (l : Lease)
      → Gives
          (Says NoneHeld)
          (λ (c : Coordinator World). committed (insert_lease l c.store) c)
          (λ _. Says (IsSole l.id l.status))
          (λ _. Says NoneHeld)
  insert_gives l = record { at = λ c h. inserted c (insert_lease l c.store) refl h }
    where
      inserted :
          (c : Coordinator World) (r : Result StoreError Store)
          → insert_lease l c.store ≡ r
          → NoneHeld c.store.leases
          → Outcome {E = Raised} {A = Unit {0}}
              (λ _. Says (IsSole l.id l.status))
              (λ _. Says NoneHeld)
              (committed r c).0
              (committed r c).1
      inserted c (ok s) e h = insert_lease-IsSole l c.store s h e
      inserted c (err x) e h = h

  create_lease_gives :
      (job_id : String) (plan : ExecutionPlan) (group : String) (before : Snapshot)
      → Gives
          (Says NoneHeld)
          (create_lease o job_id plan group before)
          (λ l. Says (IsSole l.id acquiring))
          (λ _. Says NoneHeld)
  unfolding create_lease
  create_lease_gives job_id plan group before =
      Gives-bind _ _ (Gives-Keeps (search (stable_rules, unheld))) (λ t.
        Gives-bind _ _ (Gives-Keeps (search (stable_rules, unheld))) (λ id.
          Gives-bind _ _ (Gives-Keeps (search (stable_rules, unheld))) (λ fence.
            Gives-bind _ _ (Gives-gets _ _) (λ epoch. Gives-bind _ _ (insert_gives _) (λ _.
              Gives-bind _ _ (Gives-modify _ (λ c h. h))
                (λ _. Gives-pure (λ l. Says (IsSole l.id acquiring)) _))))))

  abbrev pub Ended : Coordinator World → Type 0
  Ended c = NoneHeld c.store.leases ⊎ IsUncertain c

  early :
      {A : Type 0} {m : M World A}
      → Keeps (Says NoneHeld) m
      → Gives (Says NoneHeld) m (λ _. Says NoneHeld) (λ _. Ended)
  early k = Gives-weaken (Gives-Keeps k) (λ a c h. h) (λ e c h. inl h)

  -- Behind the test that no lease is held.
  admission_gives :
      (job_id : String) (plan : ExecutionPlan) (group : String)
      → Gives (Says NoneHeld) (acquire_free o job_id plan group) IsGranted (λ _. Ended)
  unfolding acquire_free
  admission_gives job_id plan group =
      Gives-bind _ _ (early (search (stable_rules, unheld))) (λ snapshot.
        Gives-bind _ _ (early (search keeps_rules)) (λ policy.
          Gives-bind _ _ (early (search keeps_rules)) (λ _.
            Gives-bind _ _ (early (search (stable_rules, unheld))) (λ t.
              Gives-bind _ _ (early (enforce_quanta-Kept o _ unheld t _)) (λ _.
                Gives-bind _ _
                  (Gives-weaken (create_lease_gives job_id plan group snapshot) (λ a c h. h)
                    (λ e c h. inl h))
                  (λ lease.
                    Gives-catch _ _ (admit_gives o lease plan snapshot _)
                      (roll_back_gives o lease plan snapshot)))))))

  module _ (table : List Lease) where
    abbrev pub Same : Coordinator World → Type 0
    Same = Says (λ l. l ≡ table)

    busy_gives :
        Gives Same
          (gets {E = Raised} (λ c. not (is_empty (held_leases c.store))))
          (λ busy c. Same c × (busy ≡ false → NoneHeld c.store.leases))
          (λ _. Same)
    unfolding gets
    busy_gives = record { at = λ c h. (h, λ b. held_leases-NoneHeld c.store (ground arith)) }

    abbrev pub Refused : Raised → Coordinator World → Type 0
    Refused e c = Same c ⊎ Ended c

    first : {A : Type 0} {m : M World A} → Keeps Same m → Gives Same m (λ _. Same) Refused
    first k = Gives-weaken (Gives-Keeps k) (λ a c h. h) (λ e c h. inl h)

    free_gives :
        (busy : Bool)
        → Gives
            (λ c. Same c × (busy ≡ false → NoneHeld c.store.leases))
            (if busy then deferral "resource_busy" else pure tt)
            (λ _. Says NoneHeld)
            Refused
    free_gives true = Gives-before (λ c h. inl h.0) (Gives-raise Refused _)
    free_gives false = Gives-before (λ c h. h.1 refl) (Gives-pure (λ _. Says NoneHeld) tt)

    acquire_group_gives :
        (job_id : String) (plan : ExecutionPlan) (group : String)
        → Gives Same (acquire_group o job_id plan group) IsGranted Refused
    unfolding acquire_group
    acquire_group_gives job_id plan group =
        Gives-bind _ _ (Gives-weaken busy_gives (λ a c h. h) (λ e c h. inl h)) (λ busy.
          Gives-bind _ _ (free_gives busy)
            (λ _. Gives-weaken (admission_gives job_id plan group) (λ a c h. h) (λ e c h. inr h)))

    acquire_leased_gives :
        (job_id : String) (plan : ExecutionPlan) (cancelled : Bool)
        → Gives Same (acquire_leased o job_id plan cancelled) IsGranted Refused
    unfolding acquire_leased
    acquire_leased_gives job_id plan cancelled = Gives-bind _ _ (first (search keeps_rules)) (λ _.
        Gives-bind _ _ (first (search keeps_rules)) (λ _.
          Gives-bind _ _ (first (search keeps_rules)) (λ _.
            Gives-bind _ _ (first (search keeps_rules)) (λ _.
              Gives-bind _ _ (first (search keeps_rules))
                (λ _. acquire_group_gives job_id plan _)))))

    -- The answer of `acquire`: nothing and an unchanged lease table, or a lease that is granted.
    abbrev pub Answered : Option LeaseHandle → Coordinator World → Type 0
    Answered none c = Same c
    Answered (some h) c = IsGranted h c

    pub acquire_gives :
        (job_id : String) (plan : ExecutionPlan) (cancelled : Bool)
        → Gives Same (acquire o job_id plan cancelled) Answered Refused
    unfolding acquire
    acquire_gives job_id plan cancelled = elim (Bool-cases (needs_lease plan)) [
      | inl e ↦ rw e (
          Gives-bind _ _ (acquire_leased_gives job_id plan cancelled)
            (λ h. Gives-pure Answered (some h)))
      | inr e ↦ rw e (Gives-pure Answered none)
    ]
