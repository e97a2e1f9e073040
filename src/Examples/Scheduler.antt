-- ===== src/Examples/Scheduler.antt =====
-- The scheduler at fixed inputs.
use mathlib.Core.Path.{subst}
use go7_spark_broker.Prelude.{
  arith, ◌≢◌, ℕ, ◌≡◌, refl, Bool, true, false, none, [], ◌∷◌, map, sort_by, Result, ok, err,
}
use go7_spark_broker.Prelude.Exec.{◌>>>=◌, catch, attempt}
use go7_spark_broker.Json.{fields, dict}
use go7_spark_broker.Store.Tables.{running, released}
use go7_spark_broker.Resources.Types.{ExecutionPlan}
use go7_spark_broker.Resources.Admission.{
  validate_snapshot, validate_compatibility, released_profile_is_verified,
}
use go7_spark_broker.Resources.Control.{verify_restored}
use go7_spark_broker.Store.Leases.{held_leases, insert_lease, get_resource_lease}
use go7_spark_broker.Scheduler.Types.{Failure, execution, ends, stages, Executor, Thread}
use go7_spark_broker.Scheduler.Execute.{execute}
use go7_spark_broker.Scheduler.Holding.{Safe}
use go7_spark_broker.Scheduler.Safe.{IsTame, execute-Safe}
use go7_spark_broker.Scheduler.Scan.{Watch, scan}
use go7_spark_broker.Scheduler.Scanned.{scan-ends, scan-kept}
use go7_spark_broker.Examples.Data.{idle, plan, start, first_job}

-- An executor that says that it runs and fails to unload.
abbrev drawing : Executor ℕ
drawing = record {
  profile_id = "flux";
  validate_request = λ job w. (ok tt, w);
  plan = λ job context w. (ok plan, w);
  activate_plan = λ p. ends (ok tt);
  execute_plan = λ p job. stages running none (λ r. ends (ok (fields (("data", dict []) ∷ []))));
  deactivate_plan = λ p w. (err (execution "model_unload_failed" true), w);
  interrupted = λ window w. false;
  is_late = λ d w. false;
  message = λ e. "";
  detail = λ d. [];
}

tame :
    (p : ExecutionPlan) (w : ℕ) (e : Failure) → (drawing.deactivate_plan p w).0 ≡ err e → IsTame e
tame p w e q = subst IsTame (same e q) tt
  where
    same :
        (e : Failure)
        → ◌≡◌ {A = Result Failure Bool} (err (execution "model_unload_failed" true)) (err e)
        → execution "model_unload_failed" true ≡ e
    same e q = cc

abbrev thread : Thread ℕ
thread = record {
  host = start;
  lease = none;
  plan = none;
  performed = false;
  activated = false;
  attempted = false;
  window = none;
  shown = record {
    job_id = none;
    priority = none;
    plan = none;
    profile_id = none;
    profile_state = none;
  };
}

abbrev executed : Thread ℕ
unfolding execute
executed = (execute idle "broker" drawing first_job thread).1

-- The lease of the job was granted, and is released although the unloading failed.
gives_back : map (λ l. l.status) executed.host.store.leases ≡ released ∷ []
unfolding executed execute ◌>>>=◌ attempt catch sort_by held_leases validate_snapshot insert_lease
    validate_compatibility get_resource_lease released_profile_is_verified verify_restored
gives_back = refl

execute-Safe_example : Safe (execute idle "broker" drawing first_job thread).1.host
execute-Safe_example = execute-Safe idle "broker" drawing first_job tame thread tt

abbrev watch : Watch ℕ
watch = record { host = start; reason = none }

scan-ends_example : (scan idle (("image", drawing) ∷ []) 0 none 1 0 watch).0 ≢ ok false
scan-ends_example = scan-ends idle (("image", drawing) ∷ []) 0 none 1 watch (omega arith)

scan-kept_example :
    ((scan idle (("image", drawing) ∷ []) 0 none 2 0 watch).1.host.store.jobs ≡ start.store.jobs)
    × ((scan idle (("image", drawing) ∷ []) 0 none 2 0 watch).1.host.store.leases
        ≡ start.store.leases)
scan-kept_example = scan-kept idle (("image", drawing) ∷ []) 0 none 2 0 watch
