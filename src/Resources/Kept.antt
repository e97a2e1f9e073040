-- ===== src/Resources/Kept.antt =====
-- A stable property is kept by the throttling of controllers and by their restoration.
use Prim.Native.Nat.{max}
use go7_spark_broker.Prelude.{◌++◌, ℕ, String, Option, none, some, List, [], ◌∷◌}
use go7_spark_broker.Prelude.Exec.{Keeps, Keeps-bind, keeps_rules}
use go7_spark_broker.Clock.{Stamp}
use go7_spark_broker.Store.Tables.{Lease}
use go7_spark_broker.Resources.Types.{ServiceClass, ControllerPolicy, Throttle}
use go7_spark_broker.Resources.Coordinator.{Outside, Coordinator, M}
use go7_spark_broker.Resources.Lifecycle.{
  LeaseHandle, normal_since, enforce_quanta, mark_normal, mark_restored, policy_of, restore_one,
  restore_all, restore_handle, journal, replace_last, journal_applied,
}
use go7_spark_broker.Resources.Acquire.{throttle_one, throttle_all}
use go7_spark_broker.Resources.Stable.{IsStable, IsJournalled, Keeps-throttled, stable_rules}

module _ (o : Outside) (P : Coordinator (Outside.World o) → Type 0) (stable : IsStable P) where
  open o use {World}

  abbrev Kept : {A : Type 0} → M World A → Type 0
  Kept m = Keeps P m

  normal_since-Kept : (id : String) → Kept (normal_since o id)
  unfolding normal_since
  normal_since-Kept id = record { at = λ c h. stable.reads_quantum _ id _ (stable.moves c _ h) }

  mark_normal-Kept : (id : String) → Kept (mark_normal o id)
  unfolding mark_normal
  mark_normal-Kept id = record { at = λ c h. stable.marks_quantum _ id _ (stable.moves c _ h) }

  pub enforce_quanta-Kept :
      (now : Stamp) (l : List ControllerPolicy) → Kept (enforce_quanta o now l)
  unfolding enforce_quanta
  enforce_quanta-Kept now [] = search (keeps_rules)
  enforce_quanta-Kept now (p ∷ r) =
      Keeps-bind _ _ (search (keeps_rules, normal_since-Kept)) (λ _. enforce_quanta-Kept now r)

  pub mark_restored-Kept :
      (l : List ControllerPolicy) (restored : List String) → Kept (mark_restored o l restored)
  unfolding mark_restored
  mark_restored-Kept [] restored = search (keeps_rules)
  mark_restored-Kept (p ∷ r) restored =
      Keeps-bind _ _ (search (keeps_rules, mark_normal-Kept)) (λ _. mark_restored-Kept r restored)

  policy_of-Kept : (p : Option ControllerPolicy) → Kept (policy_of o p)
  policy_of-Kept none = search (keeps_rules)
  policy_of-Kept (some p) = search (keeps_rules)

  restore_one-Kept :
      (lease : Lease) (causal : Option ℕ) (t : Throttle) → Kept (restore_one o lease causal t)
  unfolding restore_one
  restore_one-Kept lease causal t =
      Keeps-bind _ _ (search keeps_rules)
        (λ a. search (keeps_rules, stable_rules, policy_of-Kept) depth 30)

  restore_all-Kept :
      (lease : Lease) (causal : Option ℕ) (expected : ℕ) (restored : List String)
      (l : List Throttle)
      → Kept (restore_all o lease causal expected restored l)
  unfolding restore_all
  restore_all-Kept lease causal expected restored [] = search (keeps_rules)
  restore_all-Kept lease causal expected restored (t ∷ r) =
      Keeps-bind _ _ (restore_one-Kept lease causal t)
        (λ g. restore_all-Kept lease (some g.0) (max expected g.0) (restored ++ (g.1 ∷ [])) r)

  pub restore_handle-Kept : (h : LeaseHandle) (floor : Option ℕ) → Kept (restore_handle o h floor)
  unfolding restore_handle
  restore_handle-Kept h floor = restore_all-Kept h.lease floor 0 [] _

module _ (o : Outside) (P : Coordinator (Outside.World o) → Type 0) (stable : IsStable P)
    (lease : Lease) (journalled : IsJournalled lease.id P) where
  open o use {World}

  journal-Kept : (t : Throttle) → Keeps P (journal o lease.id t)
  unfolding journal
  journal-Kept t =
      Keeps-bind _ _ (Keeps-throttled P stable (λ c. c.throttled ++ (t ∷ [])))
        (λ _. search (keeps_rules, stable_rules) depth 30)

  journal_applied-Kept : (t : Throttle) → Keeps P (journal_applied o lease.id t)
  unfolding journal_applied
  journal_applied-Kept t =
      Keeps-bind _ _ (Keeps-throttled P stable (λ c. replace_last o c.throttled t))
        (λ _. search (keeps_rules, stable_rules) depth 30)

  throttle_one-Kept :
      (cls : ServiceClass) (generation causal : ℕ) (p : ControllerPolicy)
      → Keeps P (throttle_one o cls lease generation causal p)
  unfolding throttle_one
  throttle_one-Kept cls generation causal p =
      Keeps-bind _ _ (search stable_rules)
        (λ _. search (keeps_rules, stable_rules, journal-Kept, journal_applied-Kept) depth 40)

  pub throttle_all-Kept :
      (cls : ServiceClass) (generation causal : ℕ) (l : List ControllerPolicy)
      → Keeps P (throttle_all o cls lease generation causal l)
  unfolding throttle_all
  throttle_all-Kept cls generation causal [] = search (keeps_rules)
  throttle_all-Kept cls generation causal (p ∷ r) =
      Keeps-bind _ _ (throttle_one-Kept cls generation causal p) (λ g. throttle_all-Kept cls _ g r)
