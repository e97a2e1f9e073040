-- ===== src/Store/Restart.antt =====
-- What a restart makes of jobs and leases.
use go7_spark_broker.Prelude.{
  ◌≡◌, refl, ap, String, true, false, List, [], ◌∷◌, arith, inl, inr, All, All-map, any, select,
  map, update_where, contains, sort_by, Bool-cases, ◌==◌, eq_iff,
}
use go7_spark_broker.Clock.{Stamp}
use go7_spark_broker.Store.Tables.{interrupted, Job, Lease, Store, is_active, is_held}
use go7_spark_broker.Store.Queue.{has_id}
use go7_spark_broker.Store.Jobs.{set_error}
use go7_spark_broker.Store.Cancel.{
  restart_error, interrupt_job, interrupt_jobs, interrupt_uncertain_jobs,
}
use go7_spark_broker.Store.Leases.{
  holds_group, is_in_use, is_unknown, forget, lease_before, mark_active_leases_unknown, held_leases,
}

-- Where the ids of a loop are, and a job is active, the loop has still to come to it.
Settled : List String → Job → Type 0
Settled ids j = is_active j.status ≡ true → contains j.id ids ≡ true

step-Settled :
    (now : Stamp) (id : String) (rest : List String) (l : List Job)
    → All (Settled (id ∷ rest)) l
    → All (Settled rest) (update_where (has_id id) (set_error interrupted restart_error now) l)
unfolding Settled
step-Settled now id rest [] h = tt
step-Settled now id rest (j ∷ r) h = elim (Bool-cases (j.id == id)) [
  | inl e ↦ rw e ((λ (a : false ≡ true). absurd (cc)), step-Settled now id rest r h.1)
  | inr e ↦
      rw e (
        (λ a. ground (arith, h.0 a, eq_iff id j.id, eq_iff j.id id)),
        step-Settled now id rest r h.1,
      )
]

loop-Settled :
    (now : Stamp) (ids : List String) (s : Store)
    → All (Settled ids) s.jobs
    → All (Settled []) (interrupt_jobs now ids s).jobs
unfolding interrupt_jobs
loop-Settled now [] s h = h
loop-Settled now (id ∷ rest) s h =
    loop-Settled now rest (interrupt_job now id s)
      (unfold interrupt_job in step-Settled now id rest s.jobs h)

abbrev active_ids : List Job → List String
active_ids l = map (λ j. j.id) (select (λ j. is_active j.status) l)

here_first : (j : Job) (r : List Job) → Settled (active_ids (j ∷ r)) j
unfolding Settled
here_first j r a = ground (arith, eq_iff j.id j.id)

later_too :
    (j : Job) (r : List Job) (k : Job) → Settled (active_ids r) k → Settled (active_ids (j ∷ r)) k
unfolding Settled
later_too j r k h a = ground (arith, h a)

-- At its start the loop has every active job before it.
all_before : (l : List Job) → All (Settled (active_ids l)) l
all_before [] = tt
all_before (j ∷ r) = (
  here_first j r,
  All-map (Settled (active_ids r)) (Settled (active_ids (j ∷ r))) (later_too j r) r (all_before r),
)

none-Settled : (l : List Job) → All (Settled []) l → All (λ j. is_active j.status ≡ false) l
unfolding Settled
none-Settled [] h = tt
none-Settled (j ∷ r) h = (
  elim (Bool-cases (is_active j.status)) [ inl e ↦ absurd (cc (h.0 e)) | inr e ↦ e ],
  none-Settled r h.1,
)

-- After `interrupt_uncertain_jobs` no job is loading, running or validating.
pub interrupt_uncertain_jobs-none_active :
    (now : Stamp) (s : Store)
    → All (λ j. is_active j.status ≡ false) (interrupt_uncertain_jobs now s).0.jobs
unfolding interrupt_uncertain_jobs
interrupt_uncertain_jobs-none_active now s =
    none-Settled _ (loop-Settled now _ s (all_before s.jobs))

module _ (group : String) where
  group_kept :
      (l : List Lease)
      → any (holds_group group) (update_where (λ m. is_in_use m.status) forget l)
        ≡ any (holds_group group) l
  group_kept [] = refl
  group_kept (m ∷ r) = ground (arith, group_kept r)

all_unused :
    (l : List Lease)
    → All (λ m. is_in_use m.status ≡ false) (update_where (λ m. is_in_use m.status) forget l)
all_unused [] = tt
all_unused (m ∷ r) = (ground arith, all_unused r)

unknown_held :
    (l : List Lease)
    → All (λ m. is_in_use m.status ≡ false) l
    → select (λ m. is_unknown m.status) l ≡ select (λ m. is_held m.status) l
unknown_held [] h = refl
unknown_held (m ∷ r) h = ground (arith, unknown_held r h.1)

-- `mark_active_leases_unknown` frees no resource group: no lease is in use after it, every group
-- that was held is held still and no other is, and it answers with all the leases that are held.
pub mark_active_leases_unknown-fail_closed :
    (s : Store)
    → All (λ m. is_in_use m.status ≡ false) (mark_active_leases_unknown s).0.leases
      × ((group : String)
          → any (holds_group group) (mark_active_leases_unknown s).0.leases
            ≡ any (holds_group group) s.leases)
      × ((mark_active_leases_unknown s).1 ≡ held_leases (mark_active_leases_unknown s).0)
unfolding mark_active_leases_unknown held_leases
mark_active_leases_unknown-fail_closed s = (
  all_unused s.leases,
  λ group. group_kept group s.leases,
  ap (sort_by lease_before) (unknown_held _ (all_unused s.leases)),
)
