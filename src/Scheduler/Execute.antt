-- ===== src/Scheduler/Execute.antt =====
-- `_execute`, `_check_deadline` and `stage` of `Scheduler`, with a coordinator.
use go7_spark_broker.Prelude.{
  ◌+◌, String, Bool, true, false, not, ◌||◌, Option, none, some, List, [], ◌∷◌, ◌++◌, Result, ok,
  err, ◌==◌, if◌then◌else◌,
}
use go7_spark_broker.Prelude.Exec.{
  Exec, pure, raise, lift, gets, modify, catch, attempt, ◌>>>=◌ as ◌>>=◌,
}
use go7_spark_broker.Json.{
  Json, int, pos, text, boolean, object, array, Fields, field, end, nil, cons, Items, fields,
  get_field, dict,
}
use go7_spark_broker.Clock.{Stamp}
use go7_spark_broker.Store.Tables.{Store, StoreError, Job, JobStatus, loading, failed, cancelled}
use go7_spark_broker.Store.Jobs.{transition, fail, defer, finish, settled}
use go7_spark_broker.Store.Cancel.{cancel_requested}
use go7_spark_broker.Resources.Types.{ExecutionPlan, Snapshot, Deferred}
use go7_spark_broker.Resources.Probe.{Raised, admission}
use go7_spark_broker.Resources.Coordinator.{Outside, Coordinator}
use go7_spark_broker.Resources.Control.{◌>>◌, committed, combined_snapshot}
use go7_spark_broker.Resources.Lifecycle.{LeaseHandle, as_raised}
use go7_spark_broker.Resources.Acquire.{acquire, release, verify_activation}
use go7_spark_broker.Resources.Window.{configure_execution_control}
use go7_spark_broker.Scheduler.Types.{
  Failure, deferral, cancellation, contract, execution, other, Program, ends, acts, asks, stages,
  Executor, Shown, Thread, plan_json,
}

abbrev pub M : Type 0 → Type 0 → Type 0
M W A = Exec (Thread W) Failure A

abbrev pub raised : {A : Type 0} → Result Raised A → Result Failure A
raised (ok a) = ok a
raised (err (admission d)) = err (deferral d)
raised (err (Raised.other e)) = err (other e)

-- (str(v) for a field): the list of the systems of a request, as JSON.
abbrev pub text_items : List String → Items
text_items [] = nil
text_items (t ∷ r) = cons (text t) (text_items r)

abbrev pub append_fields : Fields → Fields → Fields
append_fields end g = g
append_fields (field k v r) g = field k v (append_fields r g)

abbrev pub without : String → Fields → Fields
without k end = end
without k (field j v r) = let rest = without k r in if j == k then rest else field j v rest

-- d[k] = v
abbrev pub put : String → Json → Fields → Fields
put k v f = append_fields (without k f) (field k v end)

-- {**first, **second}: a value of the second replaces one of the first.
abbrev pub merged : Fields → Fields → Fields
merged f end = f
merged f (field k v r) = merged (put k v f) r

-- payload.get("data", {}), which must be an object
abbrev pub data_of : Option Json → Result Failure Fields
data_of none = ok end
data_of (some (object f)) = ok f
data_of (some _) = err (other "AttributeError")

abbrev pub is_yielded : Option Json → Bool
is_yielded (some (text t)) = t == "yielded"
is_yielded _ = false

abbrev pub error_json : String → String → Bool → List (String × Json) → Json
error_json code message retryable more =
    dict (("code", text code) ∷ ("message", text message) ∷ ("retryable", boolean retryable) ∷ more)

abbrev pub field_entry : Option String → List (String × Json)
field_entry none = []
field_entry (some f) = ("field", text f) ∷ []

module _ (o : Outside) where
  open o use {World}

  abbrev pub on_host : {A : Type 0} → Exec (Coordinator World) Raised A → M World A
  on_host m t = let (r, c) = m t.host in (raised r, record t { host = c })

  -- A call of the executor, which may move the world.
  abbrev pub called : {A : Type 0} → (World → Result Failure A × World) → M World A
  called f t = let (r, w) = f t.host.world in (r, record t { host = record t.host { world = w } })

  -- A transaction of the store, at the time of the clock.
  unfoldable pub commit : (Stamp → Store → Result StoreError Store) → M World (Unit {0})
  commit f =
      on_host (λ c. let (n, w) = o.now c.world in committed (f n c.store) (record c { world = w }))

  abbrev pub observed : Raised → Exec (Coordinator World) Raised (Option Snapshot)
  observed (admission d) = pure none
  observed (Raised.other e) = raise (Raised.other e)

  unfoldable pub routing_context : Exec (Coordinator World) Raised (Option Snapshot)
  unfolding combined_snapshot
  routing_context = catch (do s ← combined_snapshot o; pure (some s)) observed

  module _ (broker_id : String) (x : Executor World) (job : Job) where
    -- control()
    abbrev pub is_stopped : Thread World → Bool
    is_stopped t = x.interrupted t.window t.host.world || cancel_requested job.id t.host.store

    abbrev pub profile_of : Option ExecutionPlan → String
    profile_of none = x.profile_id
    profile_of (some p) = p.profile_id

    abbrev pub detail_or_empty : Option Json → Json
    detail_or_empty none = dict []
    detail_or_empty (some d) = d

    unfoldable pub check_stopped : M World (Unit {0})
    unfolding cancel_requested
    check_stopped t = (if is_stopped t then err cancellation else ok tt, t)

    unfoldable pub stage : JobStatus → Option Json → M World (Unit {0})
    unfolding check_stopped commit transition
    stage status detail = do
      check_stopped
      plan ← gets (λ t. t.plan)
      commit (transition job.id status (detail_or_empty detail) (some (profile_of plan)))

    -- The executor's program, as it runs in the thread.
    unfoldable pub run : {A : Type 0} → Program World A → M World A
    unfolding stage cancel_requested
    run (ends r) t = (r, t)
    run (acts move next) t =
        run (next t.host.world) (record t { host = record t.host { world = move t.host.world } })
    run (asks next) t = run (next (is_stopped t)) t
    run (stages status detail next) t = let (r, t') = stage status detail t in run (next r) t'

    abbrev pub is_expired : Option String → World → Bool
    is_expired none w = false
    is_expired (some d) w = x.is_late d w

    unfoldable pub check_deadline : M World (Unit {0})
    check_deadline t = (
      if is_expired job.request.deadline t.host.world
          then err (contract "deadline_expired" (some "deadline"))
          else ok tt,
      t,
    )

    -- The result of the job: the protocol's fields, the payload over them, and the plan in its data.
    abbrev pub result_of : ExecutionPlan → Fields → Fields → Json
    result_of p payload info = object (
        put "data" (object (put "executionPlan" (plan_json p) info)) (
          merged
            (fields (
              ("protocolVersion", text "1.0")
              ∷ ("jobId", text job.id)
              ∷ ("traceId", text job.trace_id)
              ∷ (
                "route",
                dict (
                    (
                      "visitedSystems",
                      array (text_items (job.request.visited_systems ++ (broker_id ∷ []))),
                    )
                    ∷ ("hopCount", int (pos (job.request.hop_count + 1)))
                    ∷ []),
              )
              ∷ []))
            payload))

    unfoldable pub admit : ExecutionPlan → M World (Unit {0})
    unfolding acquire configure_execution_control cancel_requested
    admit p = do
      stopped ← gets is_stopped
      h ← on_host (acquire o job.id p stopped)
      modify (λ t. record t { lease = h })
      policy ← gets (λ t. t.host.policy)
      w ← lift (raised (as_raised (configure_execution_control policy p)))
      modify (λ t. record t { window = w })

    -- Routing and admission: nothing is loaded before.
    unfoldable pub prepare : M World ExecutionPlan
    unfolding check_deadline routing_context commit transition admit
    prepare = do
      check_deadline
      called (x.validate_request job)
      context ← on_host routing_context
      p ← called (x.plan job context)
      modify (λ t. record t { plan = some p; shown = record t.shown { plan = some p } })
      commit (transition job.id loading (dict (("plan", plan_json p) ∷ [])) (some p.profile_id))
      admit p
      pure p

    unfoldable pub perform : ExecutionPlan → M World Fields
    unfolding run verify_activation
    perform p = do
      modify (λ t. record t { activated = true })
      run (x.activate_plan p)
      lease ← gets (λ t. t.lease)
      on_host (verify_activation o lease p)
      modify (λ t. record t {
        shown = record t.shown { profile_id = some p.profile_id; profile_state = some "active" };
      })
      run (x.execute_plan p job)

    unfoldable pub give_back : M World (Unit {0})
    unfolding release
    give_back = do
      modify (λ t. record t { attempted = true })
      lease ← gets (λ t. t.lease)
      on_host (release o lease)
      modify (λ t. record t { lease = none })

    unfoldable pub conclude : ExecutionPlan → Fields → M World (Unit {0})
    unfolding check_stopped give_back commit finish
    conclude p payload = do
      modify (λ t. record t { performed = true })
      check_stopped
      info ← lift (data_of (get_field "data" payload))
      (if is_yielded (get_field "outcome" info)
          then raise (execution "yield_protocol_unsupported" false)
          else pure tt)
      gone ← called (x.deactivate_plan p)
      modify (λ t. record t { activated = not gone })
      give_back
      commit (λ n s. settled (finish job.id (result_of p payload info) n s))

    unfoldable pub body : M World (Unit {0})
    unfolding prepare perform conclude
    body = do p ← prepare; payload ← perform p; conclude p payload

    abbrev pub fails :
        JobStatus → String → Failure → Bool → List (String × Json) → M World (Unit {0})
    fails status code e retryable more =
        commit (fail job.id (error_json code (x.message e) retryable more) status)

    abbrev pub release_detail : Deferred → List (String × Json)
    release_detail d =
        ("detail", object (merged (field "releaseCode" (text d.code) end) (fields (x.detail d))))
        ∷ []

    abbrev pub handle_deferral : Deferred → Bool → M World (Unit {0})
    handle_deferral d performed =
        if performed
        then fails failed "resource_release_uncertain" (deferral d) false (release_detail d)
        else commit (λ n s. ok (
            defer job.id
              (object (
                merged
                  (fields (("code", text d.code) ∷ ("message", text (x.message (deferral d))) ∷ []))
                  (fields (x.detail d))))
              d.retry_after n s))

    -- The except clauses.
    unfoldable pub handle : Failure → M World (Unit {0})
    unfolding commit fail defer
    handle (deferral d) = do
      performed ← gets (λ t. t.performed)
      (if d.code == "cancelled"
          then fails cancelled "cancelled" (deferral d) false []
          else handle_deferral d performed)
    handle cancellation = fails cancelled "cancelled" cancellation false []
    handle (contract code f) = fails failed code (contract code f) false (field_entry f)
    handle (execution code retryable) = fails failed code (execution code retryable) retryable []
    handle (other e) = fails failed "internal_error" (other e) false []

    -- except (ExecutionFailure, OSError): pass
    abbrev pub pass_over : Failure → M World (Unit {0})
    pass_over (execution code retryable) = pure tt
    pass_over (other e) = if e == "OSError" then pure tt else raise (other e)
    pass_over e = raise e

    abbrev pub put_down : Option ExecutionPlan → Bool → M World (Unit {0})
    put_down (some p) true =
        catch
          (do gone ← called (x.deactivate_plan p); modify (λ t. record t { activated = not gone }))
          pass_over
    put_down _ _ = pure tt

    -- except AdmissionDeferred: pass
    abbrev pub pass_deferral : Failure → M World (Unit {0})
    pass_deferral (deferral d) = pure tt
    pass_deferral e = raise e

    abbrev pub hand_in : Option LeaseHandle → Bool → M World (Unit {0})
    hand_in (some h) false =
        catch (do modify (λ t. record t { attempted = true }); on_host (release o (some h)))
          pass_deferral
    hand_in _ _ = pure tt

    abbrev pub idle : Bool → Shown → Shown
    idle activated s = record {
      job_id = none;
      priority = none;
      plan = none;
      profile_id = if activated then s.profile_id else none;
      profile_state = if activated then some "resident_or_unknown" else none;
    }

    -- The finally clause.
    unfoldable pub clean_up : M World (Unit {0})
    unfolding release
    clean_up = do
      plan ← gets (λ t. t.plan)
      activated ← gets (λ t. t.activated)
      put_down plan activated
      lease ← gets (λ t. t.lease)
      attempted ← gets (λ t. t.attempted)
      hand_in lease attempted
      modify (λ t. record t { shown = idle t.activated t.shown })

    abbrev pub begin : Thread World → Thread World
    begin t = record {
      host = t.host;
      lease = none;
      plan = none;
      performed = false;
      activated = false;
      attempted = false;
      window = none;
      shown = record t.shown { job_id = some job.id; priority = some job.priority };
    }

    unfoldable pub execute : M World (Unit {0})
    unfolding body handle clean_up
    execute = do
      modify begin
      attempt (catch body handle) (λ _. clean_up) (λ e. do clean_up; raise e)
