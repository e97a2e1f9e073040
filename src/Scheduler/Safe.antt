-- ===== src/Scheduler/Safe.antt =====
-- `_execute`: whatever the executor, the controllers and the probe do, no lease stays in use behind it.
use go7_spark_broker.Prelude.{
  ◌≡◌, refl, ap, sym, ◌∙◌, inl, inr, String, Bool, true, false, Option, none, some, List, [], ◌∷◌,
  Result, ok, err, ◌==◌,
}
use go7_spark_broker.Prelude.Exec.{pure, raise, gets, Keeps, keeps_rules}
use go7_spark_broker.Prelude.Outcomes.{
  Outcome, Gives, Gives-pure, Gives-raise, Gives-Keeps, Gives-weaken, Gives-before, Gives-if,
  Gives-bind, Gives-attempt, Gives-catch, Gives-modify,
}
use go7_spark_broker.Json.{Json, Fields, dict}
use go7_spark_broker.Clock.{Stamp}
use go7_spark_broker.Store.Tables.{Store, StoreError, Job, JobStatus, active, loading}
use go7_spark_broker.Store.Jobs.{defer, finish, settled}
use go7_spark_broker.Resources.Types.{ExecutionPlan, Deferred}
use go7_spark_broker.Resources.Probe.{Raised, admission}
use go7_spark_broker.Resources.Coordinator.{Outside, Coordinator}
use go7_spark_broker.Resources.Lifecycle.{LeaseHandle}
use go7_spark_broker.Resources.Acquire.{acquire, release}
use go7_spark_broker.Resources.Sole.{NoneHeld}
use go7_spark_broker.Resources.Exclusive.{IsUncertain}
use go7_spark_broker.Scheduler.Types.{
  Failure, deferral, cancellation, contract, execution, other, Program, Executor, Thread, plan_json,
}
use go7_spark_broker.Scheduler.Execute.{M, raised, on_host, commit, run}
use go7_spark_broker.Resources.Grants.{Answered, Refused}
use go7_spark_broker.Resources.Holders.{acquire-Outcome, release_gives}
use go7_spark_broker.Scheduler.Execute.{
  admit, prepare, perform, give_back, conclude, body, fails, handle_deferral, handle, pass_over,
  put_down, pass_deferral, hand_in, clean_up, execute, result_of, error_json, release_detail,
  field_entry,
}
use go7_spark_broker.Scheduler.Holding.{
  transition_leases, fail_leases, defer_leases, finish_leases, Safe, Held, Lift, Starting, Working,
  Held-IsCarried, Working-IsCarried, Starting-IsCarried, called-Kept, commit-Kept,
  routing_context-Kept, verify_activation-Kept, check_stopped-Kept, check_deadline-Kept, run-Kept,
}

-- What `deactivate_plan` may raise: what the finally clause passes over.
abbrev pub IsTame : Failure → Type 0
IsTame (execution code b) = Unit
IsTame (other e) = (e == "OSError") ≡ true
IsTame (deferral d) = ⊥
IsTame cancellation = ⊥
IsTame (contract code f) = ⊥

module _ (o : Outside) where
  open o use {World}

  -- What `acquire` answers, while the thread has not taken it over.
  Offered : Option LeaseHandle → Thread World → Type 0
  Offered h t = (t.attempted ≡ false) × Held h false t.host

  acquired :
      (r : Result Raised (Option LeaseHandle)) (t : Thread World) (c : Coordinator World)
      → t.lease ≡ none
      → t.attempted ≡ false
      → NoneHeld t.host.store.leases
      → Outcome (Answered o t.host.store.leases) (Refused o t.host.store.leases) r c
      → Outcome Offered (λ _. Lift Held) (raised r) (record t { host = c })
  unfolding Offered
  acquired (ok none) t c l a n h = (a, inl (rw h n))
  acquired (ok (some x)) t c l a n h = (a, h.sole)
  acquired (err (admission d)) t c l a n (inl h) = rw l (inl (rw h n))
  acquired (err (admission d)) t c l a n (inr h) = rw l h
  acquired (err (Raised.other e)) t c l a n (inl h) = rw l (inl (rw h n))
  acquired (err (Raised.other e)) t c l a n (inr h) = rw l h

  acquire_gives :
      (id : String) (p : ExecutionPlan) (b : Bool)
      → Gives (Lift Starting) (on_host o (acquire o id p b)) Offered (λ _. Lift Held)
  acquire_gives id p b = record {
    at = λ t h. acquired _ t _ h.0 h.1 h.2 (acquire-Outcome o id p b t.host);
  }

  -- A lease that is held, or none, before its release.
  Returning : Option LeaseHandle → Thread World → Type 0
  Returning l t = (t.attempted ≡ true) × (t.lease ≡ l) × Held l false t.host

  Returned : Thread World → Type 0
  Returned t = (t.attempted ≡ true) × Safe t.host

  settled_either :
      (l : Option LeaseHandle) (a : Bool) (c : Coordinator World) → a ≡ true → Safe c → Held l a c
  settled_either none a c e h = h
  settled_either (some x) true c e h = h
  settled_either (some x) false c e h = absurd (cc)

  released :
      (r : Result Raised (Unit {0})) (t : Thread World) (c : Coordinator World)
      → t.attempted ≡ true
      → Outcome (λ _ d. NoneHeld d.store.leases) (λ _. IsUncertain) r c
      → Outcome (λ _. Returned) (λ _. Returned) (raised r) (record t { host = c })
  unfolding Returned
  released (ok u) t c a h = (a, inl h)
  released (err (admission d)) t c a h = (a, inr h)
  released (err (Raised.other e)) t c a h = (a, inr h)

  release_held :
      (l : Option LeaseHandle)
      → Gives (Returning l) (on_host o (release o l)) (λ _. Returned) (λ _. Returned)
  unfolding Returning Returned release pure
  release_held none = record { at = λ t h. (h.0, h.2) }
  release_held (some x) = record {
    at = λ t h. released _ t _ h.0 ((release_gives o x active).at t.host h.2);
  }

  module _ (broker_id : String) (x : Executor World) (job : Job) where
    give_back_gives :
        Gives (Lift Working) (give_back o broker_id x job) (λ _. Lift Held) (λ _. Lift Held)
    unfolding give_back Returning Returned gets
    give_back_gives =
        Gives-bind _ _
          (Gives-modify (λ t. record t { attempted = true })
            {Q = λ t. (t.attempted ≡ true) × Held t.lease false t.host} (λ t h. (refl, h.1)))
          (λ _.
            Gives-bind {Q = Returning} _ _ (record { at = λ t h. (h.0, refl, h.1) })
              (λ l.
                Gives-bind _ _
                  (Gives-weaken (release_held l) (λ _ t h. h)
                    (λ _ t h. settled_either t.lease t.attempted t.host h.0 h.1))
                  (λ _. Gives-modify (λ t. record t { lease = none }) (λ t h. h.1))))

    abbrev Ends : Failure → Thread World → Type 0
    Ends _ = Lift Held

    -- While the lease is not tried to be released, what is true of it is true of the locals.
    weaker : (t : Thread World) → Lift Working t → Lift Held t
    weaker t h = rw h.0 h.1

    working :
        {A : Type 0} {m : M World A}
        → Keeps (Lift Working) m
        → Gives (Lift Working) m (λ _. Lift Working) Ends
    working k = Gives-weaken (Gives-Keeps k) (λ a t h. h) (λ e t h. weaker t h)

    started :
        {A : Type 0} {m : M World A}
        → Keeps (Lift Starting) m
        → Gives (Lift Starting) m (λ _. Lift Starting) Ends
    started k = Gives-weaken (Gives-Keeps k) (λ a t h. h) (λ e t h. rw h.0 (inl h.2))

    admit_gives :
        (p : ExecutionPlan)
        → Gives (Lift Starting) (admit o broker_id x job p) (λ _. Lift Working) Ends
    unfolding admit Offered
    admit_gives p = Gives-bind _ _ (started (search keeps_rules)) (λ stopped.
        Gives-bind _ _ (acquire_gives job.id p stopped) (λ h.
          Gives-bind _ _ (Gives-modify (λ t. record t { lease = h }) {Q = Lift Working} (λ t g. g))
            (λ _. Gives-bind _ _ (working (search keeps_rules)) (λ policy.
              Gives-bind _ _ (working (search keeps_rules)) (λ w. Gives-modify _ (λ t g. g))))))

    prepare_gives : Gives (Lift Starting) (prepare o broker_id x job) (λ _. Lift Working) Ends
    unfolding prepare
    prepare_gives =
        Gives-bind _ _ (started (check_deadline-Kept o Starting Starting-IsCarried broker_id x job))
          (λ _.
            Gives-bind _ _
              (started (called-Kept o Starting Starting-IsCarried (x.validate_request job)))
              (λ _.
                Gives-bind _ _ (started (routing_context-Kept o Starting Starting-IsCarried))
                  (λ context.
                    Gives-bind _ _
                      (started (called-Kept o Starting Starting-IsCarried (x.plan job context)))
                      (λ p. Gives-bind _ _ (Gives-modify _ {Q = Lift Starting} (λ t g. g)) (λ _.
                        Gives-bind _ _
                          (started (
                            commit-Kept o Starting Starting-IsCarried _ (
                              transition_leases job.id loading (dict (("plan", plan_json p) ∷ []))
                                (some p.profile_id))))
                          (λ _.
                            Gives-bind _ _ (admit_gives p)
                              (λ _. Gives-pure (λ _. Lift Working) p)))))))

    ran :
        {A : Type 0} (prog : Program World A)
        → Gives (Lift Working) (run o broker_id x job prog) (λ _. Lift Working) Ends
    ran prog = working (run-Kept o Working Working-IsCarried broker_id x job prog)

    perform_gives :
        (p : ExecutionPlan)
        → Gives (Lift Working) (perform o broker_id x job p) (λ _. Lift Working) Ends
    unfolding perform
    perform_gives p = Gives-bind _ _ (Gives-modify _ {Q = Lift Working} (λ t g. g)) (λ _.
        Gives-bind _ _ (ran (x.activate_plan p)) (λ _.
          Gives-bind _ _ (working (search keeps_rules)) (λ l.
            Gives-bind _ _ (working (verify_activation-Kept o Working Working-IsCarried l p)) (λ _.
              Gives-bind _ _ (Gives-modify _ {Q = Lift Working} (λ t g. g))
                (λ _. ran (x.execute_plan p job))))))

    held :
        {A : Type 0} {m : M World A}
        → Keeps (Lift Held) m
        → Gives (Lift Held) m (λ _. Lift Held) Ends
    held k = Gives-weaken (Gives-Keeps k) (λ a t h. h) (λ e t h. h)

    committed_gives :
        (f : Stamp → Store → Result StoreError Store)
        → ((n : Stamp) (s s' : Store) → f n s ≡ ok s' → s'.leases ≡ s.leases)
        → Gives (Lift Held) (commit o f) (λ _. Lift Held) Ends
    committed_gives f k = held (commit-Kept o Held Held-IsCarried f k)

    finished :
        (id : String) (r : Json) (n : Stamp) (s s' : Store)
        → ◌≡◌ {A = Result StoreError Store} (settled (finish id r n s)) (ok s')
        → s'.leases ≡ s.leases
    finished id r n s s' e =
        ap (λ (k : Store). k.leases) (sym (same (finish id r n s) s' e)) ∙ finish_leases id r n s
      where
        same : (y : Store × Result StoreError Bool) (s' : Store) → settled y ≡ ok s' → y.0 ≡ s'
        same (t, ok b) s' e = cc
        same (t, err q) s' e = absurd (cc)

    conclude_gives :
        (p : ExecutionPlan) (f : Fields)
        → Gives (Lift Working) (conclude o broker_id x job p f) (λ _. Lift Held) Ends
    unfolding conclude
    conclude_gives p f = Gives-bind _ _ (Gives-modify _ {Q = Lift Working} (λ t g. g)) (λ _.
        Gives-bind _ _ (working (check_stopped-Kept o Working Working-IsCarried broker_id x job))
          (λ _. Gives-bind _ _ (working (search keeps_rules)) (λ info.
            Gives-bind _ _ (working (search keeps_rules)) (λ _.
              Gives-bind _ _
                (working (called-Kept o Working Working-IsCarried (x.deactivate_plan p)))
                (λ gone. Gives-bind _ _ (Gives-modify _ {Q = Lift Working} (λ t g. g)) (λ _.
                  Gives-bind _ _ give_back_gives (λ _.
                    committed_gives _
                      (finished job.id (result_of o broker_id x job p f info)))))))))

    body_gives : Gives (Lift Starting) (body o broker_id x job) (λ _. Lift Held) Ends
    unfolding body
    body_gives =
        Gives-bind _ _ prepare_gives
          (λ p. Gives-bind _ _ (perform_gives p) (λ f. conclude_gives p f))

    fails_gives :
        (st : JobStatus) (code : String) (e : Failure) (b : Bool) (more : List (String × Json))
        → Gives (Lift Held) (fails o broker_id x job st code e b more) (λ _. Lift Held) Ends
    fails_gives st code e b more =
        committed_gives _ (fail_leases job.id (error_json code (x.message e) b more) st)

    deferred :
        (id : String) (d : Json) (k n : Stamp) (s s' : Store)
        → ◌≡◌ {A = Result StoreError Store} (ok (defer id d k n s)) (ok s')
        → s'.leases ≡ s.leases
    deferred id d k n s s' e = cc (e, defer_leases id d k n s)

    deferral_gives :
        (d : Deferred) (b : Bool)
        → Gives (Lift Held) (handle_deferral o broker_id x job d b) (λ _. Lift Held) Ends
    deferral_gives d true = fails_gives _ _ _ _ (release_detail o broker_id x job d)
    deferral_gives d false = committed_gives _ (deferred job.id _ d.retry_after)

    handle_gives :
        (e : Failure) → Gives (Lift Held) (handle o broker_id x job e) (λ _. Lift Held) Ends
    unfolding handle
    handle_gives (deferral d) = Gives-bind _ _ (held (search keeps_rules)) (λ performed.
        Gives-if (d.code == "cancelled") _ _ (λ _. fails_gives _ _ _ _ [])
          (λ _. deferral_gives d performed))
    handle_gives cancellation = fails_gives _ _ _ _ []
    handle_gives (contract code f) = fails_gives _ _ _ _ (field_entry f)
    handle_gives (execution code b) = fails_gives _ _ _ _ []
    handle_gives (other e) = fails_gives _ _ _ _ []

    module _
        (tame : (p : ExecutionPlan) (w : World) (e : Failure)
          → (x.deactivate_plan p w).0 ≡ err e
          → IsTame e) where
      Known : Failure → Thread World → Type 0
      Known e t = IsTame e × Lift Held t

      called_gives :
          (p : ExecutionPlan) (r : Result Failure Bool) (t : Thread World) (w : World)
          → ((e : Failure) → r ≡ err e → IsTame e)
          → Lift Held t
          → Outcome (λ _. Lift Held) Known r (record t { host = record t.host { world = w } })
      unfolding Known
      called_gives p (ok b) t w k h = (Held-IsCarried.stable t.lease t.attempted).moves t.host w h
      called_gives p (err e) t w k h =
          (k e refl, (Held-IsCarried.stable t.lease t.attempted).moves t.host w h)

      passed :
          (e : Failure)
          → Gives (Known e) (pass_over o broker_id x job e) (λ _. Lift Held) (λ _ t. Safe t.host)
      unfolding Known pure
      passed (execution code b) = record { at = λ t h. h.1 }
      passed (other e) = record { at = λ t h. rw h.0 h.1 }
      passed (deferral d) = record { at = λ t h. absurd h.0 }
      passed cancellation = record { at = λ t h. absurd h.0 }
      passed (contract code f) = record { at = λ t h. absurd h.0 }

      put_down_gives :
          (p : Option ExecutionPlan) (b : Bool)
          → Gives (Lift Held) (put_down o broker_id x job p b) (λ _. Lift Held) (λ _ t. Safe t.host)
      put_down_gives none b = Gives-pure (λ _. Lift Held) tt
      put_down_gives (some p) false = Gives-pure (λ _. Lift Held) tt
      put_down_gives (some p) true =
          Gives-catch {R = Known} _ _
            (Gives-bind {Q = λ _. Lift Held} _ _
              (record { at = λ t h. called_gives p _ t _ (tame p t.host.world) h })
              (λ gone. Gives-modify _ (λ t h. h)))
            passed

      Leaving : Option LeaseHandle → Bool → Thread World → Type 0
      Leaving l a t = (t.lease ≡ l) × (t.attempted ≡ a) × Held l a t.host

      passed_deferral :
          (e : Failure)
          → Gives Returned
              (pass_deferral o broker_id x job e)
              (λ _ t. Safe t.host)
              (λ _ t. Safe t.host)
      unfolding Returned pure raise
      passed_deferral (deferral d) = record { at = λ t h. h.1 }
      passed_deferral (execution code b) = record { at = λ t h. h.1 }
      passed_deferral (other e) = record { at = λ t h. h.1 }
      passed_deferral cancellation = record { at = λ t h. h.1 }
      passed_deferral (contract code f) = record { at = λ t h. h.1 }

      hand_in_gives :
          (l : Option LeaseHandle) (a : Bool)
          → Gives
              (Leaving l a)
              (hand_in o broker_id x job l a)
              (λ _ t. Safe t.host)
              (λ _ t. Safe t.host)
      unfolding Leaving Returning
      hand_in_gives none a = Gives-before (λ t h. h.2) (Gives-pure (λ _ t. Safe t.host) tt)
      hand_in_gives (some h) true = Gives-before (λ t h. h.2) (Gives-pure (λ _ t. Safe t.host) tt)
      hand_in_gives (some h) false =
          Gives-catch {R = λ _. Returned} _ _
            (Gives-weaken
              (Gives-bind {Q = λ _. Returning (some h)} _ _
                (Gives-modify _ (λ t g. (refl, g.0, g.2))) (λ _. release_held (some h)))
              (λ _ t g. (unfold Returned in g.1)) (λ _ t g. g))
            passed_deferral

      clean_up_gives :
          Gives (Lift Held) (clean_up o broker_id x job) (λ _ t. Safe t.host) (λ _ t. Safe t.host)
      unfolding clean_up gets Leaving
      clean_up_gives =
          Gives-bind {Q = λ _. Lift Held} _ _ (record { at = λ t h. h })
            (λ p.
              Gives-bind {Q = λ _. Lift Held} _ _ (record { at = λ t h. h })
                (λ b. Gives-bind _ _ (put_down_gives p b) (λ _.
                  Gives-bind {Q = λ l t. (t.lease ≡ l) × Held l t.attempted t.host} _ _
                    (record { at = λ t h. (refl, h) })
                    (λ l.
                      Gives-bind {Q = λ a. Leaving l a} _ _
                        (record { at = λ t h. (h.0, refl, h.1) })
                        (λ a.
                          Gives-bind _ _ (hand_in_gives l a) (λ _. Gives-modify _ (λ t h. h)))))))

      execute_gives :
          Gives
            (λ t. NoneHeld t.host.store.leases)
            (execute o broker_id x job)
            (λ _ t. Safe t.host)
            (λ _ t. Safe t.host)
      unfolding execute
      execute_gives =
          Gives-bind _ _ (Gives-modify _ {Q = Lift Starting} (λ t h. (refl, refl, h))) (λ _.
            Gives-attempt {Q = λ _. Lift Held} {R = Ends} _ _ _
              (Gives-catch {R = Ends} _ _ body_gives handle_gives) (λ _. clean_up_gives)
              (λ e. Gives-bind _ _ clean_up_gives (λ _. Gives-raise (λ _ t. Safe t.host) e)))

      -- From a host with no lease held, the execution of a job ends with none held, or with the coordinator
      -- quarantined and one lease held as unknown: whatever the executor, the controllers and the probe
      -- answer, whichever of them raises and whether the execution itself does, if `deactivate_plan` raises
      -- nothing but `ExecutionFailure` and `OSError`.
      pub execute-Safe :
          (t : Thread World)
          → NoneHeld t.host.store.leases
          → Safe (execute o broker_id x job t).1.host
      execute-Safe t h =
          both ((execute o broker_id x job t).0) ((execute o broker_id x job t).1)
            (execute_gives.at t h)
        where
          both :
              (r : Result Failure (Unit {0})) (d : Thread World)
              → Outcome (λ _ s. Safe s.host) (λ _ s. Safe s.host) r d
              → Safe d.host
          both (ok u) d g = g
          both (err e) d g = g
