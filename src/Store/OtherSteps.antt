-- ===== src/Store/OtherSteps.antt =====
-- Epochs, quanta and artifacts: their transactions keep the tables well formed, and what they do.
use Prim.Native.Nat.{max}
use go7_spark_broker.Prelude.{
  ℕ, ◌+◌, ◌^◌, ◌≡◌, ◌≤◌, ◌<◌, ◌⊎◌, refl, String, not, ◌||◌, Option, none, some, arith, inl, inr,
  any, find, Bool-cases, Option-cases, Ensures, ok, err, ltb, leb,
}
use go7_spark_broker.Clock.{Stamp}
use go7_spark_broker.Store.Tables.{Store, overflow_error, Artifact, Epoch}
use go7_spark_broker.Store.Leases.{
  integer_limit, begin_broker_epoch, next_epoch, is_controller, controller_normal_since,
  mark_controller_normal,
}
use go7_spark_broker.Store.Artifacts.{same_artifact, has_job, add_artifact}
use go7_spark_broker.Store.Invariant.{IsWellFormed}

-- The invariant is about jobs, events and leases.
carry :
    {s t : Store}
    → IsWellFormed s
    → t.jobs ≡ s.jobs
    → t.events ≡ s.events
    → t.last_sequence ≡ s.last_sequence
    → t.leases ≡ s.leases
    → IsWellFormed t
carry w j e q l = record { jobs = rw j w.jobs; events = rw (e, q) w.events; leases = rw l w.leases }

pub begin_broker_epoch-IsWellFormed :
    (i : String) (m : ℕ) (now : Stamp) (s : Store)
    → IsWellFormed s
    → Ensures (λ t. IsWellFormed t.0) (begin_broker_epoch i m now s)
unfolding begin_broker_epoch
begin_broker_epoch-IsWellFormed i m now s w = elim (Bool-cases (ltb m 1)) [
  | inl e ↦ rw e tt
  | inr e ↦ rw e (elim (Bool-cases (leb integer_limit (max (next_epoch s.epoch) m))) [
    | inl q ↦ rw q tt
    | inr q ↦ rw q (carry w refl refl refl refl)
  ])
]

pub controller_normal_since-IsWellFormed :
    (id : String) (now : Stamp) (s : Store)
    → IsWellFormed s
    → IsWellFormed (controller_normal_since id now s).0
unfolding controller_normal_since
controller_normal_since-IsWellFormed id now s w =
    elim (Option-cases (find (is_controller id) s.quanta)) [
      | inl e ↦ rw e (carry w refl refl refl refl)
      | inr (q, e) ↦ rw e w
    ]

pub mark_controller_normal-IsWellFormed :
    (id : String) (now : Stamp) (s : Store)
    → IsWellFormed s
    → IsWellFormed (mark_controller_normal id now s)
unfolding mark_controller_normal
mark_controller_normal-IsWellFormed id now s w =
    elim (Bool-cases (any (is_controller id) s.quanta)) [
      | inl e ↦ rw e (carry w refl refl refl refl)
      | inr e ↦ rw e (carry w refl refl refl refl)
    ]

pub add_artifact-IsWellFormed :
    (a : Artifact) (s : Store) → IsWellFormed s → Ensures IsWellFormed (add_artifact a s)
unfolding add_artifact
add_artifact-IsWellFormed a s w =
    elim (Bool-cases (any (same_artifact a) s.artifacts || not (has_job a.job_id s))) [
      | inl e ↦ rw e tt
      | inr e ↦ rw e (carry w refl refl refl refl)
    ]

abbrev pub epoch_of : Option Epoch → ℕ
epoch_of none = 0
epoch_of (some e) = e.epoch

next_epoch_lem : (o : Option Epoch) → next_epoch o ≡ epoch_of o + 1
next_epoch_lem none = refl
next_epoch_lem (some e) = refl

-- With a minimum of at least one: where the minimum and the successor of the last epoch of the database
-- are below 2 ^ 63, `begin_broker_epoch` answers with the greater of the two, and the database keeps it;
-- else it raises an overflow.
pub begin_broker_epoch-fresh :
    (i : String) (m : ℕ) (now : Stamp) (s : Store)
    → 1 ≤ m
    → ((m < 2 ^ 63)
        × (epoch_of s.epoch + 1 < 2 ^ 63)
        × ((t : Store) × (e : ℕ) × (begin_broker_epoch i m now s ≡ ok (t, e))
            × (epoch_of s.epoch < e)
            × (m ≤ e)
            × ((e ≡ m) ⊎ (e ≡ epoch_of s.epoch + 1))
            × (epoch_of t.epoch ≡ e)))
      ⊎ (((2 ^ 63 ≤ m) ⊎ (2 ^ 63 ≤ epoch_of s.epoch + 1))
          × (begin_broker_epoch i m now s ≡ err overflow_error))
unfolding begin_broker_epoch
begin_broker_epoch-fresh i m now s h =
    let e = max (next_epoch s.epoch) m in
    let next = next_epoch_lem s.epoch in
    elim (Bool-cases (leb integer_limit e)) [
      | inl over ↦ inr (ground (arith, over, next), rw over (ground arith))
      | inr fits ↦ inl (
        ground (arith, fits, next),
        ground (arith, fits, next),
        (
          record s { epoch = some (record { epoch = e; instance_id = i; started_at = now }) },
          e,
          rw fits (ground arith),
          omega (arith, next),
          omega arith,
          ground (arith, next),
          refl,
        ),
      )
    ]
