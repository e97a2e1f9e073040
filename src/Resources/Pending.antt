-- ===== src/Resources/Pending.antt =====
-- The loop of `_reconcile_after_lock` over the stale leases: what is left to let go.
use Prim.Native.Nat.{max}
use go7_spark_broker.Prelude.{
  find, ◌++◌, ℕ, ◌+◌, ◌≡◌, ◌⊎◌, refl, String, true, false, Option, none, some, List, [], ◌∷◌, arith,
  inl, inr, All, map, contains, update_where, Bool-cases, Option-cases, ◌==◌, eq_iff,
}
use go7_spark_broker.Prelude.Exec.{gets, ◌>>>=◌, Keeps, Keeps-bind, Keeps-lift, keeps_rules}
use go7_spark_broker.Prelude.Outcomes.{
  Outcome, Gives, Gives-pure, Gives-raise, Gives-Keeps, Gives-weaken, Gives-before, Gives-if,
  Gives-attempt, Gives-modify, Gives-bind,
}
use go7_spark_broker.Clock.{Stamp}
use go7_spark_broker.Store.Tables.{Lease, released, is_held}
use go7_spark_broker.Store.Leases.{
  has_lease_id, set_lease, update_lease, set_resource_lease_status, is_in_use,
}
use go7_spark_broker.Resources.Types.{ControllerPolicy, Snapshot, Throttle}
use go7_spark_broker.Resources.Probe.{Raised, admission, other}
use go7_spark_broker.Resources.Coordinator.{Outside, Coordinator, M, is_some}
use go7_spark_broker.Resources.Control.{verify_restored, set_status}
use go7_spark_broker.Resources.Lifecycle.{policy_of, mark_restored}
use go7_spark_broker.Resources.Startup.{
  takeover_mode, recover_one, recover_all, recover_recorded_throttles, set_aside, aside_if_deferred,
  let_stale_go, finish_recovery, check_recovery, recover, reconcile_observed, reconcile_one,
  reconcile_all,
}
use go7_spark_broker.Resources.Exclusive.{read_same, mark_same}
use go7_spark_broker.Resources.Stable.{IsStable, stable_rules, Keeps-post, checked_kept}
use go7_spark_broker.Resources.Kept.{mark_restored-Kept}

abbrev pub NoneInUse : List Lease → Type 0
NoneInUse leases = All (λ m. is_in_use m.status ≡ false) leases

-- A held lease is one of `ids`, unless the coordinator is quarantined.
abbrev pub AreLeft : List String → List Lease → Option String → Type 0
AreLeft ids leases q =
    (is_some q ≡ true) ⊎ All (λ m. is_held m.status ≡ true → contains m.id ids ≡ true) leases

pub record IsPending {W : Type 0} (ids : List String) (c : Coordinator W) : Type 0 where
  pub unused : NoneInUse c.store.leases
  pub left : AreLeft ids c.store.leases c.quarantine

IsPending-IsStable : {W : Type 0} (ids : List String) → IsStable (IsPending {W = W} ids)
IsPending-IsStable ids = record {
  moves = λ c w h. record { unused = h.unused; left = h.left };
  accepts = λ c g e h. record { unused = h.unused; left = h.left };
  reads_quantum = λ c id t h. record {
    unused = rw (read_same c.store id t) h.unused;
    left = rw (read_same c.store id t) h.left;
  };
  marks_quantum = λ c id t h. record {
    unused = rw (mark_same c.store id t) h.unused;
    left = rw (mark_same c.store id t) h.left;
  };
  sets_throttled = λ c l h. record { unused = h.unused; left = h.left };
  sets_after = λ c s h. record { unused = h.unused; left = h.left };
}

module _ (o : Outside) (P : Coordinator (Outside.World o) → Type 0) (stable : IsStable P) where
  open o use {World}

  Keeps-takeover_mode :
      (p : ControllerPolicy) (mutation_id lease_id fence recovery_fence : String)
      (epoch generation : ℕ) (mode : String)
      → Keeps P (takeover_mode o p mutation_id lease_id fence recovery_fence epoch generation mode)
  unfolding takeover_mode
  Keeps-takeover_mode p mutation_id lease_id fence recovery_fence epoch generation mode = record {
    at = λ c h. checked_kept o P stable _ _ _ ((Keeps-post o P stable _ _ _).at c h);
  }

  policy_of-Kept : (p : Option ControllerPolicy) → Keeps P (policy_of o p)
  policy_of-Kept none = search keeps_rules
  policy_of-Kept (some p) = search keeps_rules

  recover_one-Kept :
      (lease : Lease) (fence : String) (offset causal : ℕ) (t : Throttle)
      → Keeps P (recover_one o lease fence offset causal t)
  unfolding recover_one
  recover_one-Kept lease fence offset causal t =
      Keeps-bind _ _ (search keeps_rules)
        (λ p. search (keeps_rules, stable_rules, policy_of-Kept, Keeps-takeover_mode) depth 40)

  recover_all-Kept :
      (lease : Lease) (fence : String) (offset causal expected : ℕ) (restored : List String)
      (l : List Throttle)
      → Keeps P (recover_all o lease fence offset causal expected restored l)
  unfolding recover_all
  recover_all-Kept lease fence offset causal expected restored [] = search keeps_rules
  recover_all-Kept lease fence offset causal expected restored (t ∷ r) =
      Keeps-bind _ _ (recover_one-Kept lease fence offset causal t) (λ found.
        recover_all-Kept lease fence (offset + 1) found.0 (max expected found.0)
          (restored ++ (found.1 ∷ [])) r)

  recover-Kept : (lease : Lease) (snapshot : Snapshot) → Keeps P (recover o lease snapshot)
  unfolding recover recover_recorded_throttles
  recover-Kept lease snapshot =
      Keeps-bind _ _ (search keeps_rules)
        (λ floor. search (keeps_rules, stable_rules, stable, recover_all-Kept) depth 40)

module _ (id : String) (rest : List String) (t : Stamp) where
  rows_unused :
      (l : List Lease)
      → NoneInUse l
      → NoneInUse (update_where (has_lease_id id) (set_lease released none none t) l)
  rows_unused [] h = tt
  rows_unused (m ∷ r) h = elim (Bool-cases (m.id == id)) [
    | inl e ↦ rw e (refl, rows_unused r h.1)
    | inr e ↦ rw e (h.0, rows_unused r h.1)
  ]

  IsLeft : List String → Lease → Type 0
  IsLeft ids m = is_held m.status ≡ true → contains m.id ids ≡ true

  rows-IsLeft :
      (l : List Lease)
      → All (IsLeft (id ∷ rest)) l
      → All (IsLeft rest) (update_where (has_lease_id id) (set_lease released none none t) l)
  unfolding IsLeft
  rows-IsLeft [] h = tt
  rows-IsLeft (m ∷ r) h = elim (Bool-cases (m.id == id)) [
    | inl e ↦ rw e ((λ (a : false ≡ true). absurd (cc)), rows-IsLeft r h.1)
    | inr e ↦ rw e ((λ a. ground (arith, h.0 a, eq_iff id m.id, eq_iff m.id id)), rows-IsLeft r h.1)
  ]

  left_after :
      (l : List Lease) (q : Option String)
      → AreLeft (id ∷ rest) l q
      → AreLeft rest (update_where (has_lease_id id) (set_lease released none none t) l) q
  unfolding IsLeft
  left_after l q (inl h) = inl h
  left_after l q (inr h) = inr (rows-IsLeft l h)

module _ (o : Outside) (lease : Lease) (rest : List String) where
  open o use {World}

  Before : Coordinator World → Type 0
  Before = IsPending (lease.id ∷ rest)

  After : Unit {0} → Coordinator World → Type 0
  After _ = IsPending rest

  Raises : Raised → Coordinator World → Type 0
  Raises _ c = NoneInUse c.store.leases

  let_go_gives : Gives Before (let_stale_go o lease) After Raises
  unfolding Before After Raises let_stale_go set_status set_resource_lease_status update_lease
  let_go_gives = record {
    at = λ c h. elim (Option-cases (find (has_lease_id lease.id) c.store.leases)) [
      | inl e ↦ rw (e, Outcome, let_stale_go, set_status, set_resource_lease_status) h.unused
      | inr (row, e) ↦
          rw (e, Outcome, let_stale_go, set_status, set_resource_lease_status)
            (record {
              unused = rows_unused lease.id rest (o.now c.world).0 c.store.leases h.unused;
              left = left_after lease.id rest (o.now c.world).0 c.store.leases c.quarantine h.left;
            })
    ];
  }

  aside_gives : (reason : String) → Gives Before (set_aside o lease.id reason) After Raises
  unfolding Before After
  aside_gives reason = Gives-modify _ (λ c h. record { unused = h.unused; left = inl refl })

  deferred_gives :
      (reason : String) (e : Raised)
      → Gives Before (aside_if_deferred o lease.id reason e) After Raises
  unfolding Before Raises
  deferred_gives reason (admission d) = aside_gives _
  deferred_gives reason (other e) =
      Gives-before (λ c h. h.unused) (Gives-raise (λ _ c. NoneInUse c.store.leases) _)

  kept : {A : Type 0} (m : M World A) → Keeps Before m → Gives Before m (λ _. Before) Raises
  unfolding Before Raises
  kept m k = Gives-weaken (Gives-Keeps k) (λ a c h. h) (λ e c h. h.unused)

  stable : IsStable Before
  unfolding Before
  stable = IsPending-IsStable (lease.id ∷ rest)

  freed_gives :
      (profiles : List String)
      → Gives Before
          (gets (λ c. c.policy) >>>= λ policy.
            mark_restored o policy.controllers profiles >>>= λ _. let_stale_go o lease)
          After
          Raises
  freed_gives profiles = Gives-bind _ _ (kept _ (search keeps_rules)) (λ policy.
      Gives-bind _ _ (kept _ (mark_restored-Kept o Before stable _ _)) (λ _. let_go_gives))

  finish_gives :
      (restored : Snapshot) (expected : ℕ) (profiles : List String)
      → Gives Before (finish_recovery o lease restored expected profiles) After Raises
  unfolding finish_recovery
  finish_gives restored expected profiles = search (Gives-if, aside_gives, freed_gives profiles)

  check_gives :
      (x : Snapshot × (ℕ × List String)) → Gives Before (check_recovery o lease x) After Raises
  unfolding check_recovery
  check_gives (restored, (expected, profiles)) = search (
    Gives-if,
    aside_gives,
    Gives-attempt _ _ _ (Gives-Keeps (Keeps-lift (verify_restored restored expected profiles)))
        (λ _. finish_gives restored expected profiles)
        (deferred_gives " recovery restore failed: "),
  )

  observed_gives :
      (snapshot : Snapshot) → Gives Before (reconcile_observed o lease snapshot) After Raises
  unfolding reconcile_observed
  observed_gives snapshot = search (
    Gives-if,
    aside_gives,
    let_go_gives,
    Gives-attempt _ _ _ (Gives-Keeps (recover-Kept o Before stable lease snapshot)) check_gives
        (deferred_gives " recovery takeover failed: "),
  )

  reconcile_one_gives : Gives Before (reconcile_one o lease) After Raises
  unfolding reconcile_one
  reconcile_one_gives =
      Gives-attempt _ _ _ (Gives-Keeps (search (stable_rules, stable))) observed_gives
        (deferred_gives _)

abbrev pub ids_of : List Lease → List String
ids_of l = map (λ m. m.id) l

module _ (o : Outside) where
  open o use {World}

  pub reconcile_all_gives :
      (l : List Lease)
      → Gives
          (IsPending {W = World} (ids_of l))
          (reconcile_all o l)
          (λ _. IsPending [])
          (λ _ c. NoneInUse c.store.leases)
  unfolding reconcile_all Before After Raises
  reconcile_all_gives [] = Gives-pure (λ _. IsPending []) tt
  reconcile_all_gives (lease ∷ r) =
      Gives-bind _ _ (reconcile_one_gives o lease (ids_of r)) (λ _. reconcile_all_gives r)
