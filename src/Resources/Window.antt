-- ===== src/Resources/Window.antt =====
-- `configure_execution_control` and `preemption_candidate` of `ResourceCoordinator`.
use go7_spark_broker.Prelude.{
  ℕ, ◌+◌, ◌*◌, Bool, true, false, not, ◌&&◌, Option, none, some, select, is_empty, Result, ok, err,
  ltb, if◌then◌else◌,
}
use go7_spark_broker.Prelude.Exec.{pure, raise, lift, gets, ◌>>>=◌ as ◌>>=◌, catch}
use go7_spark_broker.Resources.Types.{
  interactive, ExecutionPlan, ResourcePolicy, Snapshot, Deferred,
}
use go7_spark_broker.Resources.Admission.{
  deferred, gib, is_training, same_class, validate_snapshot, controllers_for,
}
use go7_spark_broker.Resources.Probe.{Raised, admission, other}
use go7_spark_broker.Resources.Coordinator.{Outside, M, is_some}
use go7_spark_broker.Resources.Control.{◌>>◌, combined_snapshot}
use go7_spark_broker.Resources.Lifecycle.{as_raised}

abbrev pub bounded_window : Option ℕ → Result Deferred (Option ℕ)
bounded_window none = err (deferred "inference_window_required")
bounded_window (some w) = ok (some w)

-- The window that is set on the control, or none.
unfoldable pub configure_execution_control :
    ResourcePolicy → ExecutionPlan → Result Deferred (Option ℕ)
unfolding controllers_for
configure_execution_control policy plan =
    if is_empty (select (λ c. is_training c.workload_kind) (controllers_for policy plan))
    then ok none
    else bounded_window policy.maximum_inference_window

abbrev pub fits_total : ResourcePolicy → ExecutionPlan → Snapshot → Bool
fits_total policy plan s = elim s.total_memory [
  | none ↦ true
  | some total ↦ not (ltb total (policy.host_reserve_bytes + plan.estimated_memory_gb * gib))
]

module _ (o : Outside) where
  open o use {World}

  -- except AdmissionDeferred: return False
  abbrev pub refused : Raised → M World Bool
  refused (admission d) = pure false
  refused (other e) = raise (other e)

  unfoldable pub observe_candidate : ExecutionPlan → M World Bool
  unfolding combined_snapshot validate_snapshot
  observe_candidate plan = do
    s ← combined_snapshot o
    policy ← gets (λ c. c.policy)
    lift (as_raised (validate_snapshot policy s plan false))
    pure (fits_total policy plan s)

  unfoldable pub preemption_candidate : ExecutionPlan → M World Bool
  unfolding observe_candidate
  preemption_candidate plan =
      if same_class plan.service_class interactive && is_some plan.resource_group
      then catch (observe_candidate plan) refused
      else pure false
