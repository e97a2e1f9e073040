-- ===== src/Resources/Restarted.antt =====
-- `_reconcile_after_lock`: what a restart leaves of leases and jobs.
use go7_spark_broker.Prelude.{
  ℕ, ◌+◌, ◌≡◌, ◌⊎◌, refl, ◌∙◌, String, true, false, Option, List, [], ◌∷◌, arith, inl, inr, All,
  All-map, All-select_inv, sort_by-All_inv, map, contains, Bool-cases, Result, ok, err, eq_iff,
}
use go7_spark_broker.Prelude.Exec.{Keeps, Keeps-bind, keeps_rules}
use go7_spark_broker.Prelude.Outcomes.{
  Outcome, Gives, Gives-Keeps, Gives-weaken, Gives-modify, Gives-bind,
}
use go7_spark_broker.Clock.{Stamp}
use go7_spark_broker.Store.Tables.{Store, StoreError, Lease, is_held, is_active}
use go7_spark_broker.Store.Leases.{
  held_leases, lease_before, mark_active_leases_unknown, begin_broker_epoch,
}
use go7_spark_broker.Store.Cancel.{
  interrupt_job, interrupt_jobs, uncertain_jobs, interrupt_uncertain_jobs,
}
use go7_spark_broker.Store.Restart.{
  mark_active_leases_unknown-fail_closed, interrupt_uncertain_jobs-none_active,
}
use go7_spark_broker.Resources.Probe.{Raised}
use go7_spark_broker.Resources.Coordinator.{Outside, Coordinator, is_some}
use go7_spark_broker.Resources.Startup.{
  EpochFile, forget_leases, interrupt_jobs_now, begin_epoch, read_epoch, write_epoch,
  advance_host_epoch, begun, reconcile_after_lock,
}
use go7_spark_broker.Resources.Sole.{NoneHeld}
use go7_spark_broker.Resources.Pending.{NoneInUse, AreLeft, IsPending, ids_of, reconcile_all_gives}

contains_here : (l : List Lease) → All (λ m. contains m.id (map (λ x. x.id) l) ≡ true) l
contains_here [] = tt
contains_here (m ∷ r) =
    (ground (arith, eq_iff m.id m.id), All-map _ _ (λ k h. ground (arith, h)) r (contains_here r))

-- What `mark_active_leases_unknown` answers with is what the loop has before it.
forgotten :
    (s : Store) (q : Option String)
    → AreLeft (ids_of (mark_active_leases_unknown s).1) (mark_active_leases_unknown s).0.leases q
unfolding held_leases
forgotten s q =
    let (_, _, same) = mark_active_leases_unknown-fail_closed s in
    let P =
      λ (m : Lease). contains m.id (ids_of (held_leases (mark_active_leases_unknown s).0)) ≡ true in
    rw same (
      inr (
        All-select_inv P (λ m. is_held m.status) (mark_active_leases_unknown s).0.leases
          (sort_by-All_inv lease_before P _
            (contains_here (held_leases (mark_active_leases_unknown s).0)))))

none_left : (l : List Lease) (q : Option String) → AreLeft [] l q → (is_some q ≡ true) ⊎ NoneHeld l
none_left l q (inl e) = inl e
none_left l q (inr h) = inr (All-map _ _ unheld l h)
  where
    unheld :
        (m : Lease) → (is_held m.status ≡ true → contains m.id [] ≡ true) → is_held m.status ≡ false
    unheld m f = elim (Bool-cases (is_held m.status)) [ inl e ↦ absurd (cc (f e)) | inr e ↦ e ]

jobs_of_interrupt_kept :
    (t : Stamp) (ids : List String) (s : Store) → (interrupt_jobs t ids s).leases ≡ s.leases
unfolding interrupt_jobs interrupt_job
jobs_of_interrupt_kept t [] s = refl
jobs_of_interrupt_kept t (id ∷ r) s = jobs_of_interrupt_kept t r (interrupt_job t id s)

leases_of_interrupt : (t : Stamp) (s : Store) → (interrupt_uncertain_jobs t s).0.leases ≡ s.leases
unfolding interrupt_uncertain_jobs
leases_of_interrupt t s = jobs_of_interrupt_kept t (uncertain_jobs s) s

-- No lease is in use, no job is active, and the coordinator is quarantined or every group is free.
pub record IsRecovered {W : Type 0} (c : Coordinator W) : Type 0 where
  pub unused : NoneInUse c.store.leases
  pub closed : (is_some c.quarantine ≡ true) ⊎ NoneHeld c.store.leases
  pub settled : All (λ j. is_active j.status ≡ false) c.store.jobs

module _ (o : Outside) (instance_id : String) (file : EpochFile (Outside.World o))
    (leases : List Lease) where
  open o use {World}

  Untouched : Coordinator World → Type 0
  Untouched c = c.store.leases ≡ leases

  Stopped : Raised → Coordinator World → Type 0
  Stopped _ c = (c.store.leases ≡ leases) ⊎ NoneInUse c.store.leases

  begun_kept :
      (r : Result StoreError (Store × ℕ)) (c : Coordinator World)
      → ((s : Store) (n : ℕ) → r ≡ ok (s, n) → s.leases ≡ leases)
      → Untouched c
      → Untouched (begun o instance_id file r c).1
  unfolding Untouched
  begun_kept (ok (s, n)) c f h = f s n refl
  begun_kept (err e) c f h = h

  begun_same :
      (m : ℕ) (t : Stamp) (s s' : Store) (n : ℕ)
      → begin_broker_epoch instance_id m t s ≡ ok (s', n)
      → s'.leases ≡ s.leases
  unfolding begin_broker_epoch
  begun_same m t s s' n e = ground (arith, e)

  advance_kept : Keeps Untouched (advance_host_epoch o instance_id file)
  unfolding Untouched advance_host_epoch read_epoch begin_epoch write_epoch
  advance_kept =
      Keeps-bind _ _ (record { at = λ c h. h })
        (λ previous.
          Keeps-bind _ _
            (record {
              at = λ c h.
                  begun_kept _ _
                    (λ s n e. begun_same (previous + 1) (o.now c.world).0 c.store s n e ∙ h) h;
            })
            (λ epoch. Keeps-bind _ _ (record { at = λ c h. h }) (λ _. search keeps_rules)))

  forget_gives : Gives Untouched (forget_leases o) (λ stale. IsPending (ids_of stale)) Stopped
  unfolding Untouched Stopped forget_leases
  forget_gives = record {
    at = λ c h. record {
      unused = (mark_active_leases_unknown-fail_closed c.store).0;
      left = forgotten c.store c.quarantine;
    };
  }

  interrupt_gives : Gives (IsPending []) (interrupt_jobs_now o) (λ _. IsRecovered) Stopped
  unfolding interrupt_jobs_now
  interrupt_gives = record {
    at = λ c h.
        let same = leases_of_interrupt (o.now c.world).0 c.store in
        record {
          unused = rw same h.unused;
          closed = rw same (none_left c.store.leases c.quarantine h.left);
          settled = interrupt_uncertain_jobs-none_active (o.now c.world).0 c.store;
        };
  }

  reconcile_gives :
      Gives Untouched (reconcile_after_lock o instance_id file) (λ _. IsRecovered) Stopped
  unfolding Untouched Stopped reconcile_after_lock
  reconcile_gives =
      Gives-bind _ _ (Gives-weaken (Gives-Keeps advance_kept) (λ a c h. h) (λ e c h. inl h))
        (λ epoch. Gives-bind _ _ (Gives-modify _ (λ c h. h)) (λ _.
          Gives-bind _ _ forget_gives (λ stale.
            Gives-bind _ _
              (Gives-weaken (reconcile_all_gives o stale) (λ a c h. h) (λ e c h. inr h))
              (λ _. interrupt_gives))))

module _ (o : Outside) (instance_id : String) (file : EpochFile (Outside.World o)) where
  open o use {World}

  -- Where the start-up recovery returns, no lease is in use, the coordinator is quarantined or no
  -- resource group is held, and no job is active. Where it raises, the lease table is as it was or no
  -- lease is in use.
  pub reconcile_after_lock-fail_closed :
      (c : Coordinator World)
      → Outcome
          (λ _. IsRecovered)
          (λ _ d. (d.store.leases ≡ c.store.leases) ⊎ NoneInUse d.store.leases)
          (reconcile_after_lock o instance_id file c).0
          (reconcile_after_lock o instance_id file c).1
  unfolding Untouched Stopped
  reconcile_after_lock-fail_closed c = (reconcile_gives o instance_id file c.store.leases).at c refl
