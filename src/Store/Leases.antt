-- ===== src/Store/Leases.antt =====
-- Broker epochs, resource leases and training quanta of `Store`.
use Prim.Native.Nat.{max}
use go7_spark_broker.Prelude.{
  ℕ, ◌+◌, ◌^◌, String, Bool, true, false, not, ◌&&◌, ◌||◌, Option, none, some, List, [], ◌∷◌, ◌++◌,
  select, find, update_where, any, sort_by, str_lt, Result, ok, err, eqb, ltb, leb, ◌==◌,
  if◌then◌else◌,
}
use go7_spark_broker.Clock.{Stamp, text_lt}
use go7_spark_broker.Resources.Types.{ServiceClass, LeaseMode, Throttle, Decision}
use go7_spark_broker.Store.Tables.{
  Epoch, Lease, LeaseStatus, acquiring, active, releasing, released, unknown, denied, is_held,
  Quantum, Store, StoreError, integrity_error, value_error, key_error, overflow_error,
}
use go7_spark_broker.Store.Queue.{has_id}

abbrev pub next_epoch : Option Epoch → ℕ
next_epoch none = 1
next_epoch (some row) = row.epoch + 1

-- sqlite3 raises OverflowError for a parameter beyond a signed integer of 64 bits.
abbrev pub integer_limit : ℕ
integer_limit = 2 ^ 63

unfoldable pub begin_broker_epoch : String → ℕ → Stamp → Store → Result StoreError (Store × ℕ)
begin_broker_epoch instance_id minimum_epoch now s =
    let epoch = max (next_epoch s.epoch) minimum_epoch in
    if ltb minimum_epoch 1
    then err value_error
    else if leb integer_limit epoch
    then err overflow_error
    else ok (
      record s {
        epoch = some (record { epoch = epoch; instance_id = instance_id; started_at = now });
      },
      epoch,
    )

abbrev pub has_lease_id : String → Lease → Bool
has_lease_id lease_id l = l.id == lease_id

-- The index `active_resource_group_idx`: a held lease of the group.
abbrev pub holds_group : String → Lease → Bool
holds_group group l = is_held l.status && l.resource_group == group

-- What PRIMARY KEY, UNIQUE and the partial index refuse beside the row `l`.
abbrev pub conflicts : Lease → Lease → Bool
conflicts l m =
    m.id == l.id
    || m.fencing_token == l.fencing_token
    || (is_held l.status && holds_group l.resource_group m)

-- `lease` is the row to insert, with the new `lease_<uuid4>` and `fence_<epoch>_<uuid4>`.
unfoldable pub insert_lease : Lease → Store → Result StoreError Store
insert_lease lease s =
    if not (any (has_id lease.job_id) s.jobs) || any (conflicts lease) s.leases
    then err integrity_error
    else ok (record s { leases = s.leases ++ (lease ∷ []) })

abbrev pub new_lease :
    String
    → ℕ
    → String
    → String
    → Option String
    → ServiceClass
    → LeaseMode
    → ℕ
    → List Throttle
    → Decision
    → Stamp
    → String
    → String
    → Lease
new_lease job_id broker_epoch group profile_id route_id service_class mode memory throttle decision
      now lease_id fencing_token =
    record {
      id = lease_id;
      job_id = job_id;
      broker_epoch = broker_epoch;
      fencing_token = fencing_token;
      resource_group = group;
      profile_id = profile_id;
      route_id = route_id;
      service_class = service_class;
      mode = mode;
      estimated_memory_gb = memory;
      status = acquiring;
      throttle = throttle;
      decision = decision;
      created_at = now;
      released_at = none;
    }

-- released_at = now if status in {"released", "denied"} else None
abbrev pub end_stamp : LeaseStatus → Stamp → Option Stamp
end_stamp released now = some now
end_stamp denied now = some now
end_stamp _ now = none

abbrev pub or_old {ℓ} : {A : Type ℓ} → Option A → A → A
or_old none old = old
or_old (some a) old = a

abbrev pub set_lease :
    LeaseStatus → Option (List Throttle) → Option Decision → Stamp → Lease → Lease
set_lease status throttle decision now l = record l {
  status = status;
  throttle = or_old throttle l.throttle;
  decision = or_old decision l.decision;
  released_at = end_stamp status now;
}

-- Another held lease of the group keeps this one from being held.
abbrev pub blocks : Lease → Lease → Bool
blocks l m = not (m.id == l.id) && holds_group l.resource_group m

unfoldable pub update_lease :
    String
    → LeaseStatus
    → Option (List Throttle)
    → Option Decision
    → Stamp
    → Store
    → Lease
    → Result StoreError Store
update_lease lease_id status throttle decision now s row =
    if is_held status && any (blocks row) s.leases
    then err integrity_error
    else ok (record s {
      leases =
          update_where (has_lease_id lease_id) (set_lease status throttle decision now) s.leases;
    })

-- The statuses of the type are those that the method accepts.
unfoldable pub set_resource_lease_status :
    String
    → LeaseStatus
    → Option (List Throttle)
    → Option Decision
    → Stamp
    → Store
    → Result StoreError Store
unfolding update_lease
set_resource_lease_status lease_id status throttle decision now s =
    elim (find (has_lease_id lease_id) s.leases) [
      | none ↦ err key_error
      | some row ↦ update_lease lease_id status throttle decision now s row
    ]

unfoldable pub get_resource_lease : String → Store → Option Lease
get_resource_lease lease_id s = find (has_lease_id lease_id) s.leases

-- ORDER BY created_at,id
unfoldable pub lease_before : Lease → Lease → Bool
lease_before a b =
    text_lt a.created_at b.created_at || (eqb a.created_at b.created_at && str_lt a.id b.id)

-- `resource_leases(active_only=True)`
unfoldable pub held_leases : Store → List Lease
unfolding lease_before
held_leases s = sort_by lease_before (select (λ l. is_held l.status) s.leases)

-- status IN ('acquiring','active','releasing')
abbrev pub is_in_use : LeaseStatus → Bool
is_in_use acquiring = true
is_in_use active = true
is_in_use releasing = true
is_in_use _ = false

abbrev pub is_unknown : LeaseStatus → Bool
is_unknown unknown = true
is_unknown _ = false

abbrev pub forget : Lease → Lease
forget l = record l { status = unknown }

unfoldable pub mark_active_leases_unknown : Store → Store × List Lease
unfolding lease_before
mark_active_leases_unknown s =
    let leases = update_where (λ l. is_in_use l.status) forget s.leases in
    (record s { leases = leases }, sort_by lease_before (select (λ l. is_unknown l.status) leases))

abbrev pub is_controller : String → Quantum → Bool
is_controller id q = q.controller_id == id

abbrev pub new_quantum : String → Stamp → Quantum
new_quantum id now = record { controller_id = id; normal_since = now }

-- INSERT OR IGNORE, then SELECT: the row that was there, or the new one.
abbrev pub since_or_insert : String → Stamp → Store → Option Quantum → Store × Stamp
since_or_insert id now s (some q) = (s, q.normal_since)
since_or_insert id now s none = (record s { quanta = s.quanta ++ (new_quantum id now ∷ []) }, now)

unfoldable pub controller_normal_since : String → Stamp → Store → Store × Stamp
controller_normal_since id now s = since_or_insert id now s (find (is_controller id) s.quanta)

-- INSERT … ON CONFLICT DO UPDATE
unfoldable pub mark_controller_normal : String → Stamp → Store → Store
mark_controller_normal id now s =
    if any (is_controller id) s.quanta
    then record s { quanta = update_where (is_controller id) (λ _. new_quantum id now) s.quanta }
    else record s { quanta = s.quanta ++ (new_quantum id now ∷ []) }
