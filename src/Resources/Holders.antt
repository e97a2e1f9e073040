-- ===== src/Resources/Holders.antt =====
-- Who holds the GPU after `acquire` and after `release`, and what a run of calls keeps.
use go7_spark_broker.Prelude.{
  ℕ, ◌≡◌, refl, String, Bool, true, Option, none, some, List, [], ◌∷◌, arith,
}
use go7_spark_broker.Prelude.Exec.{Keeps, Keeps-bind, keeps_rules}
use go7_spark_broker.Prelude.Outcomes.{
  Outcome, Gives, Gives-raise, Gives-Keeps, Gives-weaken, Gives-catch, Gives-modify, Gives-bind,
}
use go7_spark_broker.Store.Tables.{LeaseStatus, active, releasing, released, unknown}
use go7_spark_broker.Resources.Types.{ExecutionPlan}
use go7_spark_broker.Resources.Probe.{Raised}
use go7_spark_broker.Resources.Coordinator.{Outside, Coordinator, is_some}
use go7_spark_broker.Resources.Lifecycle.{LeaseHandle}
use go7_spark_broker.Resources.Acquire.{
  acquire, check_gone, let_go, keep_unknown, release_lease, release, verify_activation,
}
use go7_spark_broker.Resources.Sole.{IsSole, NoneHeld, IsSole-NoneHeld}
use go7_spark_broker.Resources.Stable.{IsStable, stable_rules}
use go7_spark_broker.Resources.Kept.{mark_restored-Kept, restore_handle-Kept}
use go7_spark_broker.Store.Invariant.{IsWellFormed}
use go7_spark_broker.Resources.Exclusive.{
  Says, Says-IsStable, Gives-set_status, IsGranted, IsUncertain,
}
use go7_spark_broker.Resources.Grants.{Refused, Answered, acquire_gives}
use go7_spark_broker.Resources.Sound.{
  IsSound, at_least, acquire-IsSound, release-IsSound, verify_activation-IsSound,
}

-- Where `acquire` answers nothing, the lease table is as it was. Where it answers a lease, that lease
-- is stored and active, and no other lease holds a resource. Where it raises, the table is as it was,
-- or no lease holds a resource, or the coordinator is quarantined and exactly one lease is held, as
-- unknown.
pub acquire-Outcome :
    (o : Outside) (job_id : String) (plan : ExecutionPlan) (cancelled : Bool)
    (c : Coordinator (Outside.World o))
    → Outcome
        (Answered o c.store.leases)
        (Refused o c.store.leases)
        (acquire o job_id plan cancelled c).0
        (acquire o job_id plan cancelled c).1
acquire-Outcome o job_id plan cancelled c =
    (acquire_gives o c.store.leases job_id plan cancelled).at c refl

module _ (o : Outside) (h : LeaseHandle) where
  open o use {World}

  abbrev Releasing : Coordinator World → Type 0
  Releasing = Says (IsSole h.lease.id releasing)

  stable : IsStable Releasing
  stable = Says-IsStable (IsSole h.lease.id releasing)

  check_gone_kept : Keeps Releasing (check_gone o h)
  unfolding check_gone
  check_gone_kept =
      Keeps-bind _ _ (search (stable_rules, stable)) (λ before. search (keeps_rules) depth 30)

  let_go_kept : Keeps Releasing (let_go o h)
  unfolding let_go
  let_go_kept = Keeps-bind _ _ (search (keeps_rules, check_gone_kept)) (λ floor.
      search (keeps_rules, stable_rules, stable, restore_handle-Kept, mark_restored-Kept) depth 50)

  keep_unknown_gives :
      (e : Raised) → Gives Releasing (keep_unknown o h e) (λ _. Releasing) (λ _. IsUncertain)
  unfolding keep_unknown
  keep_unknown_gives e =
      Gives-bind _ _ (Gives-set_status o h.lease.id releasing unknown (some h.throttled) none) (λ _.
        Gives-bind _ _ (Gives-modify _ (λ c s. record { closed = refl; kept = (h.lease.id, s) }))
          (λ _. Gives-raise (λ _. IsUncertain) _))

  pub release_gives :
      (st : LeaseStatus)
      → Gives
          (Says (IsSole h.lease.id st))
          (release o (some h))
          (λ _. Says NoneHeld)
          (λ _. IsUncertain)
  unfolding release release_lease
  release_gives st =
      Gives-bind _ _ (Gives-set_status o h.lease.id st releasing (some h.throttled) none) (λ _.
        Gives-bind _ _ (Gives-catch _ _ (Gives-Keeps let_go_kept) keep_unknown_gives) (λ _.
          Gives-weaken (Gives-set_status o h.lease.id releasing released (some h.throttled) none)
            (λ a c s. IsSole-NoneHeld h.lease.id released c.store.leases refl s) (λ e c s. s)))

-- The release of a granted lease, by whatever the controllers and the probe answer: where it returns
-- no lease holds a resource, and where it raises the coordinator is quarantined and exactly one lease
-- is held, as unknown.
pub release-Outcome :
    (o : Outside) (h : LeaseHandle) (c : Coordinator (Outside.World o))
    → IsGranted h c
    → Outcome
        (λ _. Says NoneHeld)
        (λ _. IsUncertain)
        (release o (some h) c).0
        (release o (some h) c).1
release-Outcome o h c g = (release_gives o h active).at c g.sole

-- A call of a thread of the broker.
pub data Call : Type 0 where
  acquires : (job_id : String) (plan : ExecutionPlan) (cancelled : Bool) → Call
  releases : Option LeaseHandle → Call
  verifies : Option LeaseHandle → ExecutionPlan → Call

module _ (o : Outside) where
  open o use {World}

  -- The coordinator after a call, whether it returned or raised.
  unfoldable pub perform : Call → Coordinator World → Coordinator World
  unfolding acquire release verify_activation
  perform (acquires job_id plan cancelled) c = (acquire o job_id plan cancelled c).1
  perform (releases h) c = (release o h c).1
  perform (verifies h plan) c = (verify_activation o h plan c).1

  unfoldable pub perform_all : List Call → Coordinator World → Coordinator World
  unfolding perform
  perform_all [] c = c
  perform_all (x ∷ r) c = perform_all r (perform x c)

  module _ (n : ℕ) (b : Bool) where
    perform-IsSound : (x : Call) (c : Coordinator World) → IsSound n b c → IsSound n b (perform x c)
    unfolding perform
    perform-IsSound (acquires job_id plan cancelled) c s =
        (acquire-IsSound o n b job_id plan cancelled).at c s
    perform-IsSound (releases h) c s = (release-IsSound o n b h).at c s
    perform-IsSound (verifies h plan) c s = (verify_activation-IsSound o n b h plan).at c s

    perform_all-IsSound :
        (l : List Call) (c : Coordinator World) → IsSound n b c → IsSound n b (perform_all l c)
    unfolding perform_all
    perform_all-IsSound [] c s = s
    perform_all-IsSound (x ∷ r) c s = perform_all-IsSound r (perform x c) (perform-IsSound x c s)

-- Over any sequence of calls, whatever is answered from outside and whichever calls raise, the tables
-- stay well formed, the accepted generation of the probe never falls, and a quarantine is never lifted.
pub perform_all-keeps :
    (o : Outside) (l : List Call) (c : Coordinator (Outside.World o)) (n : ℕ)
    → IsWellFormed c.store
    → c.last_generation ≡ some n
    → IsWellFormed (perform_all o l c).store
      × (at_least n (perform_all o l c).last_generation ≡ true)
      × (is_some c.quarantine ≡ true → is_some (perform_all o l c).quarantine ≡ true)
perform_all-keeps o l c n w g =
    let s =
      perform_all-IsSound o n (is_some c.quarantine) l c
        (record { tables = w; seen = rw g (ground arith); closed = λ e. e }) in
    (s.tables, s.seen, s.closed)
