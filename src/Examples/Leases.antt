-- ===== src/Examples/Leases.antt =====
-- Epochs and leases in the database, at fixed inputs.
use go7_spark_broker.Prelude.{
  ℕ, ◌+◌, ◌^◌, ◌⊎◌, ◌≡◌, ◌≤◌, ◌<◌, refl, String, false, All, any, arith, ok, err,
}
use go7_spark_broker.Store.Tables.{Store, integrity_error, overflow_error}
use go7_spark_broker.Store.Leases.{
  insert_lease, holds_group, begin_broker_epoch, held_leases, is_in_use, mark_active_leases_unknown,
}
use go7_spark_broker.Store.OtherSteps.{epoch_of, begin_broker_epoch-fresh}
use go7_spark_broker.Store.Restart.{mark_active_leases_unknown-fail_closed}
use go7_spark_broker.Examples.Data.{lease, leased_store, queued_store}

-- A second lease of a held group is refused.
refuses_second : insert_lease (lease "l2") leased_store ≡ err integrity_error
unfolding insert_lease
refuses_second = refl

begin_broker_epoch-fresh_example :
    ((4 < 2 ^ 63)
      × (epoch_of queued_store.epoch + 1 < 2 ^ 63)
      × ((t : Store) × (e : ℕ) × (begin_broker_epoch "broker" 4 30 queued_store ≡ ok (t, e))
          × (epoch_of queued_store.epoch < e)
          × (4 ≤ e)
          × ((e ≡ 4) ⊎ (e ≡ epoch_of queued_store.epoch + 1))
          × (epoch_of t.epoch ≡ e)))
    ⊎ (((2 ^ 63 ≤ 4) ⊎ (2 ^ 63 ≤ epoch_of queued_store.epoch + 1))
        × (begin_broker_epoch "broker" 4 30 queued_store ≡ err overflow_error))
begin_broker_epoch-fresh_example = begin_broker_epoch-fresh "broker" 4 30 queued_store (omega arith)

mark_active_leases_unknown-fail_closed_example :
    All (λ m. is_in_use m.status ≡ false) (mark_active_leases_unknown leased_store).0.leases
    × ((group : String)
        → any (holds_group group) (mark_active_leases_unknown leased_store).0.leases
          ≡ any (holds_group group) leased_store.leases)
    × ((mark_active_leases_unknown leased_store).1
        ≡ held_leases (mark_active_leases_unknown leased_store).0)
mark_active_leases_unknown-fail_closed_example = mark_active_leases_unknown-fail_closed leased_store
