-- ===== src/Store/Invariant.antt =====
-- What holds of the tables between two transactions.
use go7_spark_broker.Prelude.{
  ℕ, ◌+◌, ◌≤◌, ◌≡◌, refl, String, Bool, List, arith, All, All-append, All-map, Distinct,
  Distinct-append, Distinct-update_where, leb, update_where, ◌==◌,
}
use go7_spark_broker.Json.{Json}
use go7_spark_broker.Clock.{Stamp}
use go7_spark_broker.Store.Tables.{
  JobStatus, Job, JobEvent, Lease, Store, init, same_id, same_key, both_hold,
}
use go7_spark_broker.Store.Queue.{push_event}

abbrev pub same_lease : Lease → Lease → Bool
same_lease l m = l.id == m.id

abbrev pub same_token : Lease → Lease → Bool
same_token l m = l.fencing_token == m.fencing_token

-- No later event has a sequence number that is not greater.
abbrev pub not_later : JobEvent → JobEvent → Bool
not_later e f = leb f.sequence e.sequence

pub record JobsOk (jobs : List Job) : Type 0 where
  pub ids : Distinct same_id jobs
  pub keys : Distinct same_key jobs

pub record EventsOk (events : List JobEvent) (last : ℕ) : Type 0 where
  pub numbered : All (λ e. e.sequence ≤ last) events
  pub increasing : Distinct not_later events

pub record LeasesOk (leases : List Lease) : Type 0 where
  pub ids : Distinct same_lease leases
  pub tokens : Distinct same_token leases
  pub groups : Distinct both_hold leases

pub record IsWellFormed (s : Store) : Type 0 where
  pub jobs : JobsOk s.jobs
  pub events : EventsOk s.events s.last_sequence
  pub leases : LeasesOk s.leases

pub init-IsWellFormed : IsWellFormed init
init-IsWellFormed = record {
  jobs = record { ids = tt; keys = tt };
  events = record { numbered = tt; increasing = tt };
  leases = record { ids = tt; tokens = tt; groups = tt };
}

pub push_event-IsWellFormed :
    (job_id : String) (status : JobStatus) (detail : Json) (now : Stamp) (s : Store)
    → IsWellFormed s
    → IsWellFormed (push_event job_id status detail now s)
unfolding push_event
push_event-IsWellFormed job_id status detail now s w = record {
  jobs = w.jobs;
  events = record {
    numbered =
        All-append _ s.events _
          (All-map (λ e. e.sequence ≤ s.last_sequence) (λ e. e.sequence ≤ s.last_sequence + 1)
            (λ e h. omega arith) s.events w.events.numbered)
          (omega arith, tt);
    increasing = Distinct-append not_later s.events _ w.events.increasing (
        All-map (λ e. e.sequence ≤ s.last_sequence) _ (λ e h. ground arith) s.events
          w.events.numbered);
  };
  leases = w.leases;
}

-- An update of jobs that leaves id, origin and idempotency key alone.
pub update_jobs-IsWellFormed :
    (p : Job → Bool) (f : Job → Job)
    → ((j : Job) → (f j).id ≡ j.id)
    → ((j : Job) → (f j).origin ≡ j.origin)
    → ((j : Job) → (f j).idempotency_key ≡ j.idempotency_key)
    → (s : Store) → IsWellFormed s
    → IsWellFormed (record s { jobs = update_where p f s.jobs })
update_jobs-IsWellFormed p f i o k s w = record {
  jobs = record {
    ids =
        Distinct-update_where same_id p f (λ x y _. rw i refl) (λ x y _. rw i refl) s.jobs
          w.jobs.ids;
    keys =
        Distinct-update_where same_key p f (λ x y _. rw (o, k) refl) (λ x y _. rw (o, k) refl)
          s.jobs w.jobs.keys;
  };
  events = w.events;
  leases = w.leases;
}
