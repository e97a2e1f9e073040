-- ===== src/Scheduler/Holding.antt =====
-- The leases while the scheduler executes a job: what the steps of `_execute` keep.
use go7_spark_broker.Prelude.{
  ◌≡◌, ◌⊎◌, refl, inl, inr, String, Bool, true, false, Option, none, some, arith, Result, ok, err,
}
use go7_spark_broker.Prelude.Exec.{Exec, Keeps, Keeps-bind, keeps_rules}
use go7_spark_broker.Json.{Json}
use go7_spark_broker.Clock.{Stamp}
use go7_spark_broker.Store.Tables.{Store, StoreError, Job, JobStatus, active}
use go7_spark_broker.Store.Jobs.{
  insert_event, transition, fail, defer, finish, finish_cancelled, finish_completed,
}
use go7_spark_broker.Store.Queue.{push_event}
use go7_spark_broker.Resources.Types.{ExecutionPlan}
use go7_spark_broker.Resources.Probe.{Raised, admission}
use go7_spark_broker.Resources.Coordinator.{Outside, Coordinator}
use go7_spark_broker.Resources.Control.{committed}
use go7_spark_broker.Resources.Lifecycle.{LeaseHandle}
use go7_spark_broker.Resources.Acquire.{verify_activation}
use go7_spark_broker.Resources.Sole.{IsSole, NoneHeld}
use go7_spark_broker.Resources.Stable.{IsStable, stable_rules}
use go7_spark_broker.Resources.Exclusive.{IsUncertain, read_same, mark_same}
use go7_spark_broker.Scheduler.Types.{Failure, Program, ends, acts, asks, stages, Executor, Thread}
use go7_spark_broker.Scheduler.Execute.{
  on_host, called, commit, routing_context, observed, check_stopped, stage, run, check_deadline,
  detail_or_empty, profile_of,
}

-- The methods on jobs leave the leases alone.
pub transition_leases :
    (id : String) (st : JobStatus) (d : Json) (p : Option String) (n : Stamp) (s s' : Store)
    → transition id st d p n s ≡ ok s'
    → s'.leases ≡ s.leases
unfolding transition insert_event push_event
transition_leases id st d p n s s' e = ground (arith, e)

pub fail_leases :
    (id : String) (d : Json) (st : JobStatus) (n : Stamp) (s s' : Store)
    → fail id d st n s ≡ ok s'
    → s'.leases ≡ s.leases
unfolding fail insert_event push_event
fail_leases id d st n s s' e = ground (arith, e)

pub defer_leases :
    (id : String) (d : Json) (k n : Stamp) (s : Store) → (defer id d k n s).leases ≡ s.leases
unfolding defer push_event
defer_leases id d k n s = ground arith

pub finish_leases :
    (id : String) (r : Json) (n : Stamp) (s : Store) → (finish id r n s).0.leases ≡ s.leases
unfolding finish finish_cancelled finish_completed push_event
finish_leases id r n s = ground arith

-- No group is held, or the coordinator is quarantined and one lease is held, as unknown.
abbrev pub Safe : {W : Type 0} → Coordinator W → Type 0
Safe c = NoneHeld c.store.leases ⊎ IsUncertain c

-- What the locals of `_execute` say of the leases: a lease that was not tried to release is held, alone.
abbrev pub Held : {W : Type 0} → Option LeaseHandle → Bool → Coordinator W → Type 0
Held none attempted c = Safe c
Held (some h) true c = Safe c
Held (some h) false c = IsSole h.lease.id active c.store.leases

pub rows_again :
    {W : Type 0} (c d : Coordinator W)
    → d.store.leases ≡ c.store.leases
    → d.quarantine ≡ c.quarantine
    → Safe c
    → Safe d
rows_again c d e q (inl h) = inl (rw e h)
rows_again c d e q (inr h) =
    inr (record { closed = rw q h.closed; kept = (h.kept.0, rw e h.kept.1) })

claim_again :
    {W : Type 0} (l : Option LeaseHandle) (a : Bool) (c d : Coordinator W)
    → d.store.leases ≡ c.store.leases
    → d.quarantine ≡ c.quarantine
    → Held l a c
    → Held l a d
claim_again none a c d e q h = rows_again c d e q h
claim_again (some x) true c d e q h = rows_again c d e q h
claim_again (some x) false c d e q h = rw e h

Held-IsStable : {W : Type 0} (l : Option LeaseHandle) (a : Bool) → IsStable (Held {W = W} l a)
Held-IsStable l a = record {
  moves = λ c w h. claim_again l a c (record c { world = w }) refl refl h;
  accepts = λ c g e h. claim_again l a c (record c { last_generation = some g }) refl refl h;
  reads_quantum = λ c id t h. claim_again l a c _ (read_same c.store id t) refl h;
  marks_quantum = λ c id t h. claim_again l a c _ (mark_same c.store id t) refl h;
  sets_throttled = λ c r h. claim_again l a c (record c { throttled = r }) refl refl h;
  sets_after = λ c s h. claim_again l a c (record c { after = s }) refl refl h;
}

abbrev pub Claim : Type 0 → Type 1
Claim W = Option LeaseHandle → Bool → Coordinator W → Type 0

-- A claim on the lease of the thread that samples, and changes of jobs, leave true.
pub record IsCarried {W : Type 0} (C : Claim W) : Type 0 where
  pub stable : (l : Option LeaseHandle) (a : Bool) → IsStable (C l a)
  pub jobs :
      (l : Option LeaseHandle) (a : Bool) (c : Coordinator W) (s : Store)
      → s.leases ≡ c.store.leases
      → C l a c
      → C l a (record c { store = s })

abbrev pub Lift : {W : Type 0} → Claim W → Thread W → Type 0
Lift C t = C t.lease t.attempted t.host

abbrev pub Starting : {W : Type 0} → Claim W
Starting l a c = (l ≡ none) × (a ≡ false) × NoneHeld c.store.leases

abbrev pub Working : {W : Type 0} → Claim W
Working l a c = (a ≡ false) × Held l false c

pub Held-IsCarried : {W : Type 0} → IsCarried {W = W} Held
Held-IsCarried = record {
  stable = λ l a. Held-IsStable l a;
  jobs = λ l a c s e h. claim_again l a c (record c { store = s }) e refl h;
}

pub Working-IsCarried : {W : Type 0} → IsCarried {W = W} Working
Working-IsCarried = record {
  stable = λ l a. record {
    moves = λ c w h. (h.0, (Held-IsStable l false).moves c w h.1);
    accepts = λ c g e h. (h.0, (Held-IsStable l false).accepts c g e h.1);
    reads_quantum = λ c id t h. (h.0, (Held-IsStable l false).reads_quantum c id t h.1);
    marks_quantum = λ c id t h. (h.0, (Held-IsStable l false).marks_quantum c id t h.1);
    sets_throttled = λ c r h. (h.0, (Held-IsStable l false).sets_throttled c r h.1);
    sets_after = λ c s h. (h.0, (Held-IsStable l false).sets_after c s h.1);
  };
  jobs = λ l a c s e h. (h.0, claim_again l false c (record c { store = s }) e refl h.1);
}

pub Starting-IsCarried : {W : Type 0} → IsCarried {W = W} Starting
Starting-IsCarried = record {
  stable = λ l a. record {
    moves = λ c w h. h;
    accepts = λ c g e h. h;
    reads_quantum = λ c id t h. (h.0, h.1, rw (read_same c.store id t) h.2);
    marks_quantum = λ c id t h. (h.0, h.1, rw (mark_same c.store id t) h.2);
    sets_throttled = λ c r h. h;
    sets_after = λ c s h. h;
  };
  jobs = λ l a c s e h. (h.0, h.1, rw e h.2);
}

module _ (o : Outside) (C : Claim (Outside.World o)) (carried : IsCarried C) where
  open o use {World}

  pub on_host-Kept :
      {A : Type 0} (m : Exec (Coordinator World) Raised A)
      → ((l : Option LeaseHandle) (a : Bool) → Keeps (C l a) m)
      → Keeps (Lift C) (on_host o m)
  on_host-Kept m k = record { at = λ t h. (k t.lease t.attempted).at t.host h }

  pub called-Kept :
      {A : Type 0} (f : World → Result Failure A × World) → Keeps (Lift C) (called o f)
  called-Kept f = record { at = λ t h. (carried.stable t.lease t.attempted).moves t.host _ h }

  committed_kept :
      (l : Option LeaseHandle) (a : Bool) (r : Result StoreError Store) (c : Coordinator World)
      → ((s : Store) → r ≡ ok s → s.leases ≡ c.store.leases)
      → C l a c
      → C l a (committed r c).1
  committed_kept l a (ok s) c k h = carried.jobs l a c s (k s refl) h
  committed_kept l a (err e) c k h = h

  pub commit-Kept :
      (f : Stamp → Store → Result StoreError Store)
      → ((n : Stamp) (s s' : Store) → f n s ≡ ok s' → s'.leases ≡ s.leases)
      → Keeps (Lift C) (commit o f)
  unfolding commit
  commit-Kept f k =
      on_host-Kept
        (λ c. committed (f (o.now c.world).0 c.store) (record c { world = (o.now c.world).1 }))
        (λ l a. record {
          at = λ c h.
              committed_kept l a _ (record c { world = (o.now c.world).1 })
                (k (o.now c.world).0 c.store) ((carried.stable l a).moves c _ h);
        })

  observed_kept : (l : Option LeaseHandle) (a : Bool) (e : Raised) → Keeps (C l a) (observed o e)
  observed_kept l a (admission d) = search keeps_rules
  observed_kept l a (Raised.other e) = search keeps_rules

  context_kept : (l : Option LeaseHandle) (a : Bool) → Keeps (C l a) (routing_context o)
  unfolding routing_context
  context_kept l a =
      search (keeps_rules, stable_rules, carried.stable l a, observed_kept l a) depth 20

  pub routing_context-Kept : Keeps (Lift C) (on_host o (routing_context o))
  routing_context-Kept = on_host-Kept (routing_context o) context_kept

  activation_kept :
      (h : Option LeaseHandle) (p : ExecutionPlan) (l : Option LeaseHandle) (a : Bool)
      → Keeps (C l a) (verify_activation o h p)
  unfolding verify_activation
  activation_kept none p l a = search keeps_rules
  activation_kept (some h) p l a =
      Keeps-bind _ _ (search (stable_rules, carried.stable l a)) (λ s. search keeps_rules depth 30)

  pub verify_activation-Kept :
      (h : Option LeaseHandle) (p : ExecutionPlan)
      → Keeps (Lift C) (on_host o (verify_activation o h p))
  verify_activation-Kept h p = on_host-Kept (verify_activation o h p) (activation_kept h p)

  module _ (broker_id : String) (x : Executor World) (job : Job) where
    pub check_stopped-Kept : Keeps (Lift C) (check_stopped o broker_id x job)
    unfolding check_stopped
    check_stopped-Kept = record { at = λ t h. h }

    pub check_deadline-Kept : Keeps (Lift C) (check_deadline o broker_id x job)
    unfolding check_deadline
    check_deadline-Kept = record { at = λ t h. h }

    stage-Kept : (st : JobStatus) (d : Option Json) → Keeps (Lift C) (stage o broker_id x job st d)
    unfolding stage
    stage-Kept st d = Keeps-bind _ _ check_stopped-Kept (λ _.
        Keeps-bind _ _ (search keeps_rules) (λ plan.
          commit-Kept
            (transition job.id st (detail_or_empty o broker_id x job d)
              (some (profile_of o broker_id x job plan)))
            (transition_leases job.id st (detail_or_empty o broker_id x job d)
              (some (profile_of o broker_id x job plan)))))

    pub run-Kept :
        {A : Type 0} (prog : Program World A) → Keeps (Lift C) (run o broker_id x job prog)
    unfolding run
    run-Kept (ends r) = record { at = λ t h. h }
    run-Kept (acts move next) = record {
      at = λ t h.
          (run-Kept (next t.host.world)).at _
            ((carried.stable t.lease t.attempted).moves t.host _ h);
    }
    run-Kept (asks next) = record { at = λ t h. (run-Kept (next _)).at t h }
    run-Kept (stages st d next) = record {
      at = λ t h. (run-Kept (next _)).at _ ((stage-Kept st d).at t h);
    }
