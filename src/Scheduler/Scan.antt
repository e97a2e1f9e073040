-- ===== src/Scheduler/Scan.antt =====
-- `_control_loop` of `Scheduler`: one scan of the queue for a job that the running one yields to.
use go7_spark_broker.Prelude.{
  ℕ, zero, suc, ◌+◌, String, Bool, true, false, not, ◌||◌, Option, none, some, List, [], ◌∷◌,
  is_empty, length, lookup, map, Result, ok, err, leb, ltb, ◌==◌, if◌then◌else◌,
}
use go7_spark_broker.Prelude.Exec.{Exec, pure, raise, attempt, ◌>>>=◌ as ◌>>=◌}
use go7_spark_broker.Text.{joined}
use go7_spark_broker.Store.Tables.{StoreError, Job}
use go7_spark_broker.Store.Queue.{peek_queued}
use go7_spark_broker.Resources.Types.{ExecutionPlan, Snapshot, interactive}
use go7_spark_broker.Resources.Admission.{same_class}
use go7_spark_broker.Resources.Probe.{Raised}
use go7_spark_broker.Resources.Coordinator.{Outside, Coordinator}
use go7_spark_broker.Resources.Control.{◌>>◌, exception}
use go7_spark_broker.Resources.Window.{preemption_candidate}
use go7_spark_broker.Scheduler.Types.{
  Failure, deferral, cancellation, contract, execution, other, Executor,
}
use go7_spark_broker.Scheduler.Execute.{raised}

-- The coordinator and the store, and the reason for which the running job is asked to yield.
pub record Watch (W : Type 0) : Type 0 where
  pub host : Coordinator W
  pub reason : Option String

abbrev pub M : Type 0 → Type 0 → Type 0
M W A = Exec (Watch W) Failure A

-- except (ArtifactError, ContractError, OSError, ValueError): continue
abbrev pub is_skipped : Failure → Bool
is_skipped (contract code f) = true
is_skipped (other e) = e == "ArtifactError" || e == "OSError" || e == "ValueError"
is_skipped (deferral d) = false
is_skipped cancellation = false
is_skipped (execution code b) = false

module _ (o : Outside) (executors : List (String × Executor (Outside.World o))) where
  open o use {World}

  abbrev pub on_host : {A : Type 0} → Exec (Coordinator World) Raised A → M World A
  on_host m t = let (r, c) = m t.host in (raised r, record t { host = c })

  abbrev pub called : {A : Type 0} → (World → Result Failure A × World) → M World A
  called f t = let (r, w) = f t.host.world in (r, record t { host = record t.host { world = w } })

  abbrev pub stored : {A : Type 0} → Result StoreError A → Result Raised A
  stored (ok a) = ok a
  stored (err e) = err (exception e)

  unfoldable pub peek : ℕ → Exec (Coordinator World) Raised (List Job)
  unfolding peek_queued
  peek offset c =
      let (n, w) = o.now c.world in
      (stored (peek_queued (map (λ e. e.0) executors) 100 offset n c.store), record c { world = w })

  module _ (priority : ℕ) (context : Option Snapshot) where
    abbrev pub is_overdue : Executor World → Option String → World → Bool
    is_overdue x none w = false
    is_overdue x (some d) w = x.is_late d w

    abbrev pub in_time : Executor World → Job → M World (Unit {0})
    in_time x job t = (
      if is_overdue x job.request.deadline t.host.world
          then err (contract "deadline_expired" (some "deadline"))
          else ok tt,
      t,
    )

    unfoldable pub candidate : Job → Option (Executor World) → M World ExecutionPlan
    candidate job none = raise (other "KeyError")
    candidate job (some x) = do
      in_time x job
      called (x.validate_request job)
      called (x.plan job context)

    -- `request_yield` keeps the first reason.
    abbrev pub request_yield : Job → M World Bool
    request_yield job t = (
      ok true,
      elim t.reason [
        | none ↦ record t {
          reason = some (joined ("higher_priority_interactive_job:" ∷ job.id ∷ []));
        }
        | some r ↦ t
      ],
    )

    unfoldable pub consider : Job → ExecutionPlan → M World Bool
    unfolding preemption_candidate
    consider job p = if not (same_class p.service_class interactive) then pure false else (do
      able ← on_host (preemption_candidate o p)
      (if able then request_yield job else pure false))

    abbrev pub skip : Failure → M World Bool
    skip e = if is_skipped e then pure false else raise e

    -- Whether the scan is over with this job.
    unfoldable pub examine : Job → M World Bool
    unfolding candidate consider
    examine job =
        if leb job.priority priority
        then pure true
        else attempt (candidate job (lookup job.capability executors)) (consider job) skip

    unfoldable pub examine_page : List Job → M World Bool
    unfolding examine
    examine_page [] = pure false
    examine_page (job ∷ r) = do found ← examine job; (if found then pure true else examine_page r)

    -- The loop over the pages; `false` is that the fuel is used up.
    unfoldable pub scan : ℕ → ℕ → M World Bool
    unfolding peek examine_page
    scan zero offset = pure false
    scan (suc fuel) offset = do
      page ← on_host (peek offset)
      (if is_empty page then pure true else (do
        found ← examine_page page
        (if found || ltb (length page) 100 then pure true else scan fuel (offset + length page))))
