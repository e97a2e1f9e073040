-- ===== src/Scheduler/Scanned.antt =====
-- The scan of `_control_loop` ends, and leaves the tables as they are.
use mathlib.Core.Path.{subst}
use go7_spark_broker.Prelude.{
  ◌≢◌, ℕ, zero, suc, ◌+◌, ◌*◌, ◌≤◌, ◌<◌, ◌≡◌, refl, String, Bool, true, false, ◌||◌, Option, none,
  some, List, [], ◌∷◌, arith, is_empty, length, lookup, map, Result, ok, err, ltb,
}
use go7_spark_broker.Prelude.Exec.{
  pure, Keeps, Keeps-bind, Keeps-attempt, Keeps-if, Keeps-pure, Keeps-raise, keeps_rules,
}
use go7_spark_broker.Prelude.Outcomes.{
  Outcome, Gives, Gives-Keeps, Gives-bind, Gives-if, Gives-known,
}
use go7_spark_broker.Store.Tables.{
  Store, Lease, StoreError, idempotency_conflict, queue_full, integrity_error, value_error,
  key_error, overflow_error, type_error, Job,
}
use go7_spark_broker.Store.Pages.{peek_queued_gives}
use go7_spark_broker.Store.Leases.{controller_normal_since, mark_controller_normal}
use go7_spark_broker.Clock.{Stamp}
use go7_spark_broker.Resources.Types.{ExecutionPlan, Snapshot}
use go7_spark_broker.Resources.Probe.{Raised, admission}
use go7_spark_broker.Resources.Coordinator.{Outside, Coordinator}
use go7_spark_broker.Resources.Window.{preemption_candidate, observe_candidate, refused}
use go7_spark_broker.Resources.Stable.{IsStable, stable_rules}
use go7_spark_broker.Text.{joined}
use go7_spark_broker.Scheduler.Execute.{raised}
use go7_spark_broker.Scheduler.Types.{Failure, Executor}
use go7_spark_broker.Scheduler.Scan.{
  Watch, on_host, peek, stored, candidate, request_yield, consider, skip, is_skipped, examine,
  examine_page, scan,
}

read_jobs : (s : Store) (id : String) (t : Stamp) → (controller_normal_since id t s).0.jobs ≡ s.jobs
unfolding controller_normal_since
read_jobs s id t = ground arith

mark_jobs : (s : Store) (id : String) (t : Stamp) → (mark_controller_normal id t s).jobs ≡ s.jobs
unfolding mark_controller_normal
mark_jobs s id t = ground arith

read_leases :
    (s : Store) (id : String) (t : Stamp) → (controller_normal_since id t s).0.leases ≡ s.leases
unfolding controller_normal_since
read_leases s id t = ground arith

mark_leases :
    (s : Store) (id : String) (t : Stamp) → (mark_controller_normal id t s).leases ≡ s.leases
unfolding mark_controller_normal
mark_leases s id t = ground arith

module _ (o : Outside) (executors : List (String × Executor (Outside.World o))) (jobs : List Job)
    (leases : List Lease) where
  open o use {World}

  abbrev Tables : Coordinator World → Type 0
  Tables c = (c.store.jobs ≡ jobs) × (c.store.leases ≡ leases)

  abbrev Watched : Watch World → Type 0
  Watched t = Tables t.host

  stable : IsStable Tables
  stable = record {
    moves = λ c w h. h;
    accepts = λ c g e h. h;
    reads_quantum =
        λ c id t h. (rw (read_jobs c.store id t) h.0, rw (read_leases c.store id t) h.1);
    marks_quantum =
        λ c id t h. (rw (mark_jobs c.store id t) h.0, rw (mark_leases c.store id t) h.1);
    sets_throttled = λ c l h. h;
    sets_after = λ c s h. h;
  }

  observe_kept : (p : ExecutionPlan) → Keeps Tables (observe_candidate o p)
  unfolding observe_candidate
  observe_kept p = Keeps-bind _ _ (search (stable_rules, stable)) (λ s. search keeps_rules depth 20)

  refused_kept : (e : Raised) → Keeps Tables (refused o e)
  refused_kept (admission d) = search keeps_rules
  refused_kept (Raised.other e) = search keeps_rules

  able_kept : (p : ExecutionPlan) → Keeps Tables (preemption_candidate o p)
  unfolding preemption_candidate
  able_kept p = search (keeps_rules, observe_kept, refused_kept)

  module _ (priority : ℕ) (context : Option Snapshot) where
    candidate_kept :
        (job : Job) (x : Option (Executor World))
        → Keeps Watched (candidate o executors priority context job x)
    unfolding candidate
    candidate_kept job none = search keeps_rules
    candidate_kept job (some x) =
        Keeps-bind _ _ (record { at = λ t h. h })
          (λ _. Keeps-bind _ _ (record { at = λ t h. h }) (λ _. record { at = λ t h. h }))

    ask_kept : (job : Job) → Keeps Watched (request_yield o executors priority context job)
    ask_kept job = record { at = λ t h. go t.reason t h }
      where
        go :
            (r : Option String) (t : Watch World)
            → Watched t
            → Watched (elim r [
              | none ↦ record t {
                reason = some (joined ("higher_priority_interactive_job:" ∷ job.id ∷ []));
              }
              | some q ↦ t
            ])
        go none t h = h
        go (some q) t h = h

    on_able : (p : ExecutionPlan) → Keeps Watched (on_host o executors (preemption_candidate o p))
    on_able p = record { at = λ t h. (able_kept p).at t.host h }

    skip_kept : (e : Failure) → Keeps Watched (skip o executors priority context e)
    skip_kept e = Keeps-if (is_skipped e) _ _ (Keeps-pure false) (Keeps-raise e)

    consider_kept :
        (job : Job) (p : ExecutionPlan)
        → Keeps Watched (consider o executors priority context job p)
    unfolding consider
    consider_kept job p =
        Keeps-if _ _ _ (Keeps-pure false)
          (Keeps-bind _ _ (on_able p) (λ able. Keeps-if able _ _ (ask_kept job) (Keeps-pure false)))

    examine_kept : (job : Job) → Keeps Watched (examine o executors priority context job)
    unfolding examine
    examine_kept job = Keeps-if _ _ _ (Keeps-pure true) (
        Keeps-attempt _ _ _ (candidate_kept job (lookup job.capability executors))
          (consider_kept job) skip_kept)

    page_kept : (l : List Job) → Keeps Watched (examine_page o executors priority context l)
    unfolding examine_page
    page_kept [] = search keeps_rules
    page_kept (job ∷ r) =
        Keeps-bind _ _ (examine_kept job)
          (λ found. Keeps-if found _ _ (search keeps_rules) (page_kept r))

    peeked_as :
        (offset : ℕ) (n : Stamp) (r : Result StoreError (List Job)) (t : Watch World) (w : World)
        → ((page : List Job)
            → r ≡ ok page
            → is_empty page ≡ false
            → offset + length page ≤ length jobs)
        → Watched t
        → Outcome
            (λ page d. (is_empty page ≡ false → offset + length page ≤ length jobs) × Watched d)
            (λ _. Watched)
            (raised (stored o executors r))
            (record t { host = record t.host { world = w } })
    peeked_as offset n (ok page) t w k h = (k page refl, h)
    peeked_as offset n (err idempotency_conflict) t w k h = h
    peeked_as offset n (err queue_full) t w k h = h
    peeked_as offset n (err integrity_error) t w k h = h
    peeked_as offset n (err value_error) t w k h = h
    peeked_as offset n (err key_error) t w k h = h
    peeked_as offset n (err overflow_error) t w k h = h
    peeked_as offset n (err type_error) t w k h = h

    peek_gives :
        (offset : ℕ)
        → Gives Watched
            (on_host o executors (peek o executors offset))
            (λ page t. (is_empty page ≡ false → offset + length page ≤ length jobs) × Watched t)
            (λ _. Watched)
    unfolding peek
    peek_gives offset = record {
      at = λ t h.
          peeked_as offset (o.now t.host.world).0 _ t _
            (λ page e g.
              subst (λ k. offset + length page ≤ length k) h.0
                (peek_queued_gives (map (λ e. e.0) executors) offset (o.now t.host.world).0
                  t.host.store page e g))
            h;
    }

    abbrev Over : Bool → Watch World → Type 0
    Over b t = (b ≡ true) × Watched t

    over : Gives Watched (pure {E = Failure} true) Over (λ _. Watched)
    unfolding pure
    over = record { at = λ t h. (refl, h) }

    peek_kept : (offset : ℕ) → Keeps Watched (on_host o executors (peek o executors offset))
    unfolding peek
    peek_kept offset = record { at = λ t h. h }

    scan_kept : (fuel offset : ℕ) → Keeps Watched (scan o executors priority context fuel offset)
    unfolding scan
    scan_kept zero offset = Keeps-pure false
    scan_kept (suc fuel) offset = Keeps-bind _ _ (peek_kept offset) (λ page.
        Keeps-if (is_empty page) _ _ (Keeps-pure true) (
          Keeps-bind _ _ (page_kept page) (λ found.
            Keeps-if (found || ltb (length page) 100) _ _ (Keeps-pure true)
              (scan_kept fuel (offset + length page)))))

    scan_gives :
        (fuel offset : ℕ)
        → offset ≤ length jobs
        → length jobs < offset + 100 * fuel
        → Gives Watched (scan o executors priority context fuel offset) Over (λ _. Watched)
    unfolding scan
    scan_gives zero offset low high = absurd (omega (arith, low, high))
    scan_gives (suc fuel) offset low high = Gives-bind _ _ (peek_gives offset) (λ page.
        Gives-known (λ within.
          Gives-if (is_empty page) _ _ (λ _. over)
            (λ some_left. Gives-bind _ _ (Gives-Keeps (page_kept page)) (λ found.
              Gives-if (found || ltb (length page) 100) _ _ (λ _. over)
                (λ full.
                  let long : 100 ≤ length page = ground (arith, full) in
                  let within_jobs : offset + length page ≤ length jobs = within some_left in
                  scan_gives fuel (offset + length page) within_jobs
                    (omega (arith, long, high)))))))

-- A scan of the queue ends, or raises, with one page of fuel for every hundred jobs of the table and one
-- more: it is never cut short.
pub scan-ends :
    (o : Outside) (executors : List (String × Executor (Outside.World o))) (priority : ℕ)
    (context : Option Snapshot) (fuel : ℕ) (t : Watch (Outside.World o))
    → length t.host.store.jobs < 100 * fuel
    → (scan o executors priority context fuel 0 t).0 ≢ ok false
scan-ends o executors priority context fuel t enough = ended _ _ (
    (scan_gives o executors t.host.store.jobs t.host.store.leases priority context fuel 0
        (omega arith) (omega (arith, enough))).at
      t (refl, refl))
  where
    ended :
        (r : Result Failure Bool) (d : Watch (Outside.World o))
        → Outcome
            (λ b e.
              (b ≡ true)
              × ((e.host.store.jobs ≡ t.host.store.jobs)
                  × (e.host.store.leases ≡ t.host.store.leases)))
            (λ _ e.
              (e.host.store.jobs ≡ t.host.store.jobs) × (e.host.store.leases ≡ t.host.store.leases))
            r
            d
        → r ≢ ok false
    ended (ok true) d h e = absurd (cc)
    ended (ok false) d h e = absurd (cc (h.0))
    ended (err x) d h e = absurd (cc)

-- A scan of the queue changes no job and no lease, whether it ends, raises or is cut short.
pub scan-kept :
    (o : Outside) (executors : List (String × Executor (Outside.World o))) (priority : ℕ)
    (context : Option Snapshot) (fuel offset : ℕ) (t : Watch (Outside.World o))
    → let e = (scan o executors priority context fuel offset t).1 in
      (e.host.store.jobs ≡ t.host.store.jobs) × (e.host.store.leases ≡ t.host.store.leases)
scan-kept o executors priority context fuel offset t =
    (scan_kept o executors t.host.store.jobs t.host.store.leases priority context fuel offset).at t
      (refl, refl)
