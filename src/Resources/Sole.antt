-- ===== src/Resources/Sole.antt =====
-- One lease holds the GPU: the rows of the lease table while `acquire` and `release` run.
use go7_spark_broker.Prelude.{
  ◌≡◌, refl, String, true, false, Option, none, some, List, [], ◌∷◌, ◌++◌, arith, inl, inr, All,
  All-append, All-map, All_of_not-any, not-any_of_All, find-append, All-select_inv, sort_by,
  sort_by-All_inv, select, any, find, find_holds, find-update_where, find-update_where, is_empty,
  update_where, Bool-cases, ok, ◌==◌, eq_iff,
}
use go7_spark_broker.Clock.{Stamp}
use go7_spark_broker.Resources.Types.{Throttle, Decision}
use go7_spark_broker.Store.Tables.{Store, Lease, LeaseStatus, is_held}
use go7_spark_broker.Store.Leases.{
  has_lease_id, conflicts, insert_lease, set_lease, blocks, update_lease, set_resource_lease_status,
  held_leases, lease_before,
}

-- A row of the lease has the status, any other holds nothing.
abbrev pub IsPlaced : String → LeaseStatus → Lease → Type 0
IsPlaced id st m =
    ((m.id == id) ≡ true → m.status ≡ st) × ((m.id == id) ≡ false → is_held m.status ≡ false)

-- The lease is in the table with the status, and no other lease holds a resource.
pub record IsSole (id : String) (st : LeaseStatus) (leases : List Lease) : Type 0 where
  pub there : (l : Lease) × (find (has_lease_id id) leases ≡ some l) × (l.status ≡ st)
  pub rows : All (IsPlaced id st) leases

abbrev pub NoneHeld : List Lease → Type 0
NoneHeld leases = All (λ m. is_held m.status ≡ false) leases

module _ (id : String) (st : LeaseStatus) where
  placed_unheld : (m : Lease) → is_held st ≡ false → IsPlaced id st m → is_held m.status ≡ false
  placed_unheld m h p = elim (Bool-cases (m.id == id)) [ inl e ↦ rw (p.0 e) h | inr e ↦ p.1 e ]

  -- A lease that is over leaves none that holds a resource.
  pub IsSole-NoneHeld : (l : List Lease) → is_held st ≡ false → IsSole id st l → NoneHeld l
  IsSole-NoneHeld l h s = All-map _ _ (λ m p. placed_unheld m h p) l s.rows

  free_of : (row m : Lease) → row.id ≡ id → IsPlaced id st m → blocks row m ≡ false
  free_of row m e p = elim (Bool-cases (m.id == id)) [
    | inl same ↦ ground (arith, eq_iff m.id id, eq_iff m.id row.id)
    | inr other ↦ ground (arith, p.1 other)
  ]

  none_block :
      (row : Lease)
      → row.id ≡ id
      → (l : List Lease) → All (IsPlaced id st) l
      → any (blocks row) l ≡ false
  none_block row e l h = not-any_of_All (blocks row) l (All-map _ _ (λ m p. free_of row m e p) l h)

module _ (id : String) (st st' : LeaseStatus) (throttle : Option (List Throttle))
    (decision : Option Decision) (t : Stamp) where
  IsPlaced-again :
      (l : List Lease)
      → All (IsPlaced id st) l
      → All (IsPlaced id st') (update_where (has_lease_id id) (set_lease st' throttle decision t) l)
  IsPlaced-again [] h = tt
  IsPlaced-again (m ∷ r) h = elim (Bool-cases (m.id == id)) [
    | inl e ↦ rw e (((λ _. refl), (λ n. absurd (cc))), IsPlaced-again r h.1)
    | inr e ↦ rw e (((λ y. absurd (cc)), h.0.1), IsPlaced-again r h.1)
  ]

  -- The status of the lease can be set, and the lease stays the only one.
  pub set_status-IsSole :
      (s : Store)
      → IsSole id st s.leases
      → (s' : Store) × (set_resource_lease_status id st' throttle decision t s ≡ ok s')
        × IsSole id st' s'.leases
        × (s'.leases ≡ update_where (has_lease_id id) (set_lease st' throttle decision t) s.leases)
  unfolding set_resource_lease_status update_lease
  set_status-IsSole s h =
      let (row, e, st_row) = h.there in
      let row_id = (eq_iff row.id id).0 (find_holds (has_lease_id id) s.leases e) in
      let free = none_block id st row row_id s.leases h.rows in
      let u =
        find-update_where (has_lease_id id) (set_lease st' throttle decision t) (λ x k. k)
          s.leases in
      (
        record s {
          leases = update_where (has_lease_id id) (set_lease st' throttle decision t) s.leases;
        },
        rw (e, set_resource_lease_status) (ground arith),
        record {
          there = (set_lease st' throttle decision t row, rw e at u, refl);
          rows = IsPlaced-again s.leases h.rows;
        },
        refl,
      )

-- No lease in the answer of `resource_leases(active_only=True)` means that none holds a resource.
pub held_leases-NoneHeld : (s : Store) → is_empty (held_leases s) ≡ true → NoneHeld s.leases
unfolding held_leases
held_leases-NoneHeld s h =
    let nothing =
      All-select_inv (λ l. is_held l.status ≡ false) (λ l. is_held l.status) s.leases
        (sort_by-All_inv lease_before (λ l. is_held l.status ≡ false) _
          (of_empty (sort_by lease_before (select (λ l. is_held l.status) s.leases)) h)) in
    All-map _ _ (λ m k. (elim (Bool-cases (is_held m.status)) [ inl e ↦ k e | inr e ↦ e ])) s.leases
      nothing
  where
    of_empty : (l : List Lease) → is_empty l ≡ true → All (λ m. is_held m.status ≡ false) l
    of_empty [] e = tt
    of_empty (m ∷ r) e = absurd (cc)

module _ (l : Lease) where
  absent :
      (xs : List Lease) → All (λ m. conflicts l m ≡ false) xs → find (has_lease_id l.id) xs ≡ none
  absent [] h = refl
  absent (m ∷ r) h = ground (arith, absent r h.1, h.0)

  IsPlaced-fresh :
      (xs : List Lease)
      → All (λ m. conflicts l m ≡ false) xs
      → NoneHeld xs
      → All (IsPlaced l.id l.status) xs
  IsPlaced-fresh [] h n = tt
  IsPlaced-fresh (m ∷ r) h n =
      (((λ e. absurd (ground (arith, h.0))), (λ _. n.0)), IsPlaced-fresh r h.1 n.1)

-- A lease that was inserted where none was held is the only one.
pub insert_lease-IsSole :
    (l : Lease) (s s' : Store)
    → NoneHeld s.leases
    → insert_lease l s ≡ ok s'
    → IsSole l.id l.status s'.leases
unfolding insert_lease
insert_lease-IsSole l s s' none_held h =
    let fresh : any (conflicts l) s.leases ≡ false = ground arith in
    let rest = All_of_not-any (conflicts l) s.leases fresh in
    let e : s'.leases ≡ s.leases ++ (l ∷ []) = ground arith in
    rw e (record {
      there = (
        l,
        find-append (has_lease_id l.id) s.leases l (absent l s.leases rest)
            ((eq_iff l.id l.id).1 refl),
        refl,
      );
      rows =
          All-append _ s.leases (l ∷ []) (IsPlaced-fresh l s.leases rest none_held)
            (((λ _. refl), (λ n. absurd (ground (arith, eq_iff l.id l.id)))), tt);
    })
