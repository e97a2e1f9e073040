-- ===== src/Store/LeaseSteps.antt =====
-- Every transaction on leases keeps the tables well formed: at most one lease holds a group.
use mathlib.Core.List.{Memᴰ}
use mathlib.Core.Option.{some-injective}
use go7_spark_broker.Prelude.{
  ◌≡◌, refl, ap, ◌∙◌, sym, ◌⊎◌, String, Bool, true, false, not, ◌&&◌, ◌||◌, List, [], ◌∷◌, arith,
  Option, some, inl, inr, All, All-map, All_of_not-any, Distinct, Distinct-append,
  Distinct-update_where, any, find, find_holds, find_of_mem, update_where, update_where_none,
  Bool-cases, Option-cases, Ensures, eq_iff,
}
use go7_spark_broker.Clock.{Stamp}
use go7_spark_broker.Resources.Types.{Throttle, Decision}
use go7_spark_broker.Store.Tables.{Lease, LeaseStatus, Store, is_held, both_hold}
use go7_spark_broker.Store.Queue.{has_id}
use go7_spark_broker.Store.Leases.{
  has_lease_id, conflicts, insert_lease, set_lease, blocks, update_lease, set_resource_lease_status,
  is_in_use, forget, mark_active_leases_unknown,
}
use go7_spark_broker.Store.Invariant.{IsWellFormed, LeasesOk, same_lease, same_token}

with_leases :
    (s : Store) (ls : List Lease)
    → IsWellFormed s
    → LeasesOk ls
    → IsWellFormed (record s { leases = ls })
with_leases s ls w l = record { jobs = w.jobs; events = w.events; leases = l }

apart :
    (l m : Lease)
    → conflicts l m ≡ false
    → (same_lease m l ≡ false) × (same_token m l ≡ false) × (both_hold m l ≡ false)
apart l m h = (ground arith, ground arith, ground arith)

pub insert_lease-IsWellFormed :
    (l : Lease) (s : Store) → IsWellFormed s → Ensures IsWellFormed (insert_lease l s)
unfolding insert_lease
insert_lease-IsWellFormed l s w =
    elim (Bool-cases (not (any (has_id l.job_id) s.jobs) || any (conflicts l) s.leases)) [
      | inl e ↦ rw e tt
      | inr e ↦
          let free = All_of_not-any (conflicts l) s.leases (ground arith) in
          rw e (
            with_leases s _ w (record {
              ids =
                  Distinct-append same_lease s.leases l w.leases.ids
                    (All-map (λ m. conflicts l m ≡ false) _ (λ m h. (apart l m h).0) s.leases free);
              tokens =
                  Distinct-append same_token s.leases l w.leases.tokens
                    (All-map (λ m. conflicts l m ≡ false) _ (λ m h. (apart l m h).1) s.leases free);
              groups =
                  Distinct-append both_hold s.leases l w.leases.groups
                    (All-map (λ m. conflicts l m ≡ false) _ (λ m h. (apart l m h).2) s.leases free);
            }))
    ]

module _ (lease_id : String) (status : LeaseStatus) (throttle : Option (List Throttle))
    (decision : Option Decision) (now : Stamp) (row : Lease) where
  abbrev updated : Lease → Lease
  updated = set_lease status throttle decision now

  abbrev blocked : Lease → Bool
  blocked m = is_held status && blocks row m

  abbrev is_row : Lease → Bool
  is_row = has_lease_id lease_id

  -- What the update knows of each lease: it does not block, and the one updated has the group.
  record IsFree (m : Lease) : Type 0 where
    clear : blocked m ≡ false
    same_group : is_row m ≡ true → m.resource_group ≡ row.resource_group

  abbrev HasId : Type 0
  HasId = is_row row ≡ true

  behind_row :
      HasId
      → (x m : Lease) → is_row x ≡ true
      → IsFree x
      → is_row m ≡ false
      → IsFree m
      → both_hold (updated x) m ≡ false
  behind_row h x m px fx pm fm = ground (
    arith,
    eq_iff row.id lease_id,
    eq_iff m.id row.id,
    eq_iff m.id lease_id,
    fx.same_group px,
    fm.clear,
    eq_iff m.resource_group row.resource_group,
    eq_iff row.resource_group m.resource_group,
    eq_iff x.resource_group m.resource_group,
  )

  before_row :
      HasId
      → (x m : Lease) → is_row x ≡ false
      → IsFree x
      → is_row m ≡ true
      → IsFree m
      → both_hold x (updated m) ≡ false
  before_row h x m px fx pm fm = ground (
    arith,
    eq_iff row.id lease_id,
    eq_iff x.id row.id,
    eq_iff x.id lease_id,
    fm.same_group pm,
    fx.clear,
    eq_iff x.resource_group row.resource_group,
    eq_iff x.resource_group m.resource_group,
  )

  -- Leases behind the updated one: none has its id.
  all_behind :
      HasId
      → (x : Lease) → is_row x ≡ true
      → IsFree x
      → (r : List Lease) → All IsFree r
      → All (λ m. same_lease x m ≡ false) r
      → All (λ m. both_hold (updated x) m ≡ false) r × (any is_row r ≡ false)
  all_behind h x px fx [] f d = (tt, refl)
  all_behind h x px fx (m ∷ r) f d =
      let pm : is_row m ≡ false =
        ground (arith, eq_iff x.id m.id, eq_iff m.id lease_id, eq_iff x.id lease_id) in
      let rest = all_behind h x px fx r f.1 d.1 in
      ((behind_row h x m px fx pm f.0, rest.0), rw (pm, rest.1))

  all_before :
      HasId
      → (x : Lease) → is_row x ≡ false
      → IsFree x
      → (r : List Lease) → All IsFree r
      → All (λ m. both_hold x m ≡ false) r
      → All (λ m. both_hold x m ≡ false) (update_where is_row updated r)
  all_before h x px fx [] f d = tt
  all_before h x px fx (m ∷ r) f d = elim (Bool-cases (is_row m)) [
    | inl e ↦ rw e (before_row h x m px fx e f.0, all_before h x px fx r f.1 d.1)
    | inr e ↦ rw e (d.0, all_before h x px fx r f.1 d.1)
  ]

  groups_updated :
      HasId
      → (l : List Lease) → All IsFree l
      → Distinct same_lease l
      → Distinct both_hold l
      → Distinct both_hold (update_where is_row updated l)
  groups_updated h [] f d g = tt
  groups_updated h (x ∷ r) f d g = elim (Bool-cases (is_row x)) [
    | inl e ↦
        let (apart, none_else) = all_behind h x e f.0 r f.1 d.0 in
        rw e (rw (update_where_none is_row updated r none_else) (apart, g.1))
    | inr e ↦ rw e (all_before h x e f.0 r f.1 g.0, groups_updated h r f.1 d.1 g.1)
  ]

  all-IsFree :
      (l : List Lease)
      → any (blocks row) l ≡ false ⊎ is_held status ≡ false
      → ((m : Lease) → Memᴰ m l → is_row m ≡ true → m.resource_group ≡ row.resource_group)
      → All IsFree l
  all-IsFree [] c g = tt
  all-IsFree (m ∷ r) c g = (
    record { clear = ground arith; same_group = g m (Memᴰ.head refl) },
    all-IsFree r (elim c [ inl b ↦ inl (ground arith) | inr n ↦ inr n ]) (λ z i. g z (Memᴰ.tail i)),
  )

  update_lease-IsWellFormed :
      (s : Store)
      → find is_row s.leases ≡ some row
      → IsWellFormed s
      → Ensures IsWellFormed (update_lease lease_id status throttle decision now s row)
  unfolding update_lease
  update_lease-IsWellFormed s found w =
      elim (Bool-cases (is_held status && any (blocks row) s.leases)) [
        | inl e ↦ rw e tt
        | inr e ↦ rw e (
            with_leases s _ w (record {
              ids =
                  Distinct-update_where same_lease is_row updated (λ x y _. refl) (λ x y _. refl)
                    s.leases w.leases.ids;
              tokens =
                  Distinct-update_where same_token is_row updated (λ x y _. refl) (λ x y _. refl)
                    s.leases w.leases.tokens;
              groups =
                  groups_updated (find_holds is_row s.leases found) s.leases
                    (all-IsFree s.leases (either e) group_of) w.leases.ids w.leases.groups;
            }))
      ]
    where
      either :
          (is_held status && any (blocks row) s.leases) ≡ false
          → (any (blocks row) s.leases ≡ false) ⊎ (is_held status ≡ false)
      either e = elim (Bool-cases (is_held status)) [ inl q ↦ inl (ground arith) | inr q ↦ inr q ]

      group_of :
          (m : Lease) → Memᴰ m s.leases → is_row m ≡ true → m.resource_group ≡ row.resource_group
      group_of m i p =
          ap (λ (l : Lease). l.resource_group)
            (some-injective _ _ (
              sym (
                find_of_mem same_lease is_row
                  (λ x y a b.
                    ground (arith, eq_iff x.id lease_id, eq_iff y.id lease_id, eq_iff x.id y.id))
                  s.leases w.leases.ids i p)
              ∙ found))

pub set_resource_lease_status-IsWellFormed :
    (lease_id : String) (status : LeaseStatus) (throttle : Option (List Throttle))
    (decision : Option Decision) (now : Stamp) (s : Store)
    → IsWellFormed s
    → Ensures IsWellFormed (set_resource_lease_status lease_id status throttle decision now s)
unfolding set_resource_lease_status
set_resource_lease_status-IsWellFormed lease_id status throttle decision now s w =
    elim (Option-cases (find (has_lease_id lease_id) s.leases)) [
      | inl e ↦ rw (e, set_resource_lease_status) tt
      | inr (row, e) ↦
          rw (e, set_resource_lease_status)
            (update_lease-IsWellFormed lease_id status throttle decision now row s e w)
    ]

pub mark_active_leases_unknown-IsWellFormed :
    (s : Store) → IsWellFormed s → IsWellFormed (mark_active_leases_unknown s).0
unfolding mark_active_leases_unknown
mark_active_leases_unknown-IsWellFormed s w = with_leases s _ w (record {
  ids =
      Distinct-update_where same_lease _ forget (λ x y _. refl) (λ x y _. refl) s.leases
        w.leases.ids;
  tokens =
      Distinct-update_where same_token _ forget (λ x y _. refl) (λ x y _. refl) s.leases
        w.leases.tokens;
  groups =
      Distinct-update_where both_hold (λ l. is_in_use l.status) forget (λ x y h. still_left x y h)
        (λ x y h. still_right x y h) s.leases w.leases.groups;
})
  where
    still_left : (x y : Lease) → is_in_use x.status ≡ true → both_hold (forget x) y ≡ both_hold x y
    still_left x y h = ground arith

    still_right : (x y : Lease) → is_in_use y.status ≡ true → both_hold x (forget y) ≡ both_hold x y
    still_right x y h = ground arith
