-- ===== src/Resources/Stable.antt =====
-- A property of the coordinator that the calls to the outside and the small writes keep.
use go7_spark_broker.Prelude.{
  ℕ, ◌≡◌, String, false, ◌&&◌, Option, none, some, List, inl, inr, Bool-cases, Result, Result-cases,
  ok, err,
}
use go7_spark_broker.Prelude.Exec.{modify, Keeps}
use go7_spark_broker.Json.{Json, Fields}
use go7_spark_broker.Clock.{Stamp}
use go7_spark_broker.Store.Tables.{Store, acquiring}
use go7_spark_broker.Store.Leases.{
  set_resource_lease_status, controller_normal_since, mark_controller_normal,
}
use go7_spark_broker.Resources.Types.{ControllerPolicy, Snapshot, Throttle, Ack}
use go7_spark_broker.Resources.Probe.{Raised, admission, other}
use go7_spark_broker.Resources.Sample.{Host, Remote, read_remote, regressed, accept}
use go7_spark_broker.Resources.Coordinator.{
  Outside, Coordinator, is_some, combined_sample, get_now, get_uuid, fetch_probe, post_mode,
}
use go7_spark_broker.Resources.Control.{
  checked, accepted, parsed, answered, view, committed, remote_view, combined_snapshot, set_mode,
  set_status,
}

pub record IsStable {W : Type 0} (P : Coordinator W → Type 0) : Type 0 where
  pub moves : (c : Coordinator W) (w : W) → P c → P (record c { world = w })
  pub accepts :
      (c : Coordinator W) (g : ℕ)
      → regressed c.last_generation g ≡ false
      → P c
      → P (record c { last_generation = some g })
  pub reads_quantum :
      (c : Coordinator W) (id : String) (t : Stamp)
      → P c
      → P (record c { store = (controller_normal_since id t c.store).0 })
  pub marks_quantum :
      (c : Coordinator W) (id : String) (t : Stamp)
      → P c
      → P (record c { store = mark_controller_normal id t c.store })
  pub sets_throttled :
      (c : Coordinator W) (l : List Throttle) → P c → P (record c { throttled = l })
  pub sets_after : (c : Coordinator W) (s : Option Snapshot) → P c → P (record c { after = s })

-- The journal of the throttling of one lease keeps the property too.
pub record IsJournalled {W : Type 0} (lease_id : String) (P : Coordinator W → Type 0) : Type 0 where
  pub journals :
      (c : Coordinator W) (l : List Throttle) (t : Stamp) (s : Store)
      → set_resource_lease_status lease_id acquiring (some l) none t c.store ≡ ok s
      → P c
      → P (record c { store = s })

module _ {W : Type 0} (P : Coordinator W → Type 0) (stable : IsStable P) where
  pub Keeps-throttled :
      (f : Coordinator W → List Throttle)
      → Keeps P (modify {E = Raised} (λ c. record c { throttled = f c }))
  unfolding modify
  Keeps-throttled f = record { at = λ c h. stable.sets_throttled c _ h }

  pub Keeps-after :
      (a : Option Snapshot) → Keeps P (modify {E = Raised} (λ c. record c { after = a }))
  unfolding modify
  Keeps-after a = record { at = λ c h. stable.sets_after c a h }

module _ (o : Outside) (P : Coordinator (Outside.World o) → Type 0) (stable : IsStable P) where
  open o use {World}

  pub Keeps-get_now : Keeps P (get_now o)
  unfolding get_now
  Keeps-get_now = record { at = λ c h. stable.moves c _ h }

  pub Keeps-get_uuid : Keeps P (get_uuid o)
  unfolding get_uuid
  Keeps-get_uuid = record { at = λ c h. stable.moves c _ h }

  Keeps-sample : Keeps P (combined_sample o)
  unfolding combined_sample
  Keeps-sample = record { at = λ c h. stable.moves c _ h }

  Keeps-fetch : Keeps P (fetch_probe o)
  unfolding fetch_probe
  Keeps-fetch = record { at = λ c h. stable.moves c _ h }

  pub Keeps-post : (path id : String) (p : Json) → Keeps P (post_mode o path id p)
  unfolding post_mode
  Keeps-post path id p = record { at = λ c h. stable.moves c _ h }

  pub checked_kept :
      (r : Result Raised Fields) (f : Fields → Result Raised Ack) (c : Coordinator World)
      → P c
      → P (checked o r f c).1
  checked_kept (ok v) f c h = h
  checked_kept (err e) f c h = h

  pub Keeps-set_mode :
      (p : ControllerPolicy) (mutation_id mode lease_id fencing_token : String)
      (broker_epoch generation : ℕ) (reason : String)
      → Keeps P
          (set_mode o p mutation_id mode lease_id fencing_token broker_epoch generation reason)
  unfolding set_mode
  Keeps-set_mode p mutation_id mode lease_id fencing_token broker_epoch generation reason = record {
    at = λ c h. checked_kept _ _ _ ((Keeps-post _ _ _).at c h);
  }

  accepted_kept :
      (h : Host) (r : Remote) (c : Coordinator World)
      → P c
      → P (accepted o (accept h c.last_generation r) r c).1
  accepted_kept h r c s = elim (Bool-cases (regressed c.last_generation r.generation)) [
    | inl e ↦ rw e s
    | inr e ↦ rw e (stable.accepts c r.generation e s)
  ]

  parsed_kept :
      (h : Host) (r : Result Raised Remote) (c : Coordinator World) → P c → P (parsed o h r c).1
  parsed_kept h (ok r) c s = accepted_kept h r c s
  parsed_kept h (err e) c s = s

  answered_kept :
      (h : Host) (r : Result Raised Fields) (c : Coordinator World) → P c → P (answered o h r c).1
  answered_kept h (ok f) c s = parsed_kept h (read_remote f) c s
  answered_kept h (err (admission d)) c s = s
  answered_kept h (err (other e)) c s = s

  Keeps-remote_view : (h : Host) → Keeps P (remote_view o h)
  unfolding remote_view
  Keeps-remote_view h = record {
    at = λ c s. answered_kept h (fetch_probe o c).0 _ (Keeps-fetch.at c s);
  }

  view_kept : (h : Host) → Keeps P (view o h)
  view_kept h = record {
    at = λ c s.
        elim (Bool-cases (is_some c.policy.probe_endpoint && is_some c.policy.probe_token_file)) [
          | inl e ↦ rw e ((Keeps-remote_view h).at c s)
          | inr e ↦ rw e s
        ];
  }

  pub Keeps-combined_snapshot : Keeps P (combined_snapshot o)
  unfolding combined_snapshot combined_sample
  Keeps-combined_snapshot = record { at = λ c s. (view_kept _).at _ (Keeps-sample.at c s) }

  -- A write of the lease's status to `acquiring`, with the journal.
  pub Keeps-journal :
      (lease_id : String)
      → IsJournalled lease_id P
      → (l : List Throttle) → Keeps P (set_status o lease_id acquiring (some l) none)
  unfolding set_status
  Keeps-journal lease_id j l = record {
    at = λ c h. written c (o.now c.world).0 _ (stable.moves c _ h);
  }
    where
      written :
          (c : Coordinator World) (t : Stamp) (w : World)
          → P (record c { world = w })
          → P
              (committed
                (set_resource_lease_status lease_id acquiring (some l) none t c.store)
                (record c { world = w })).1
      written c t w h =
          elim (Result-cases
            (set_resource_lease_status lease_id acquiring (some l) none t c.store)) [
              | inl (s, e) ↦ rw e (j.journals _ l t s e h)
              | inr (x, e) ↦ rw e h
            ]

pub ruleset stable_rules = (
  Keeps-throttled, Keeps-after, Keeps-get_now, Keeps-get_uuid, Keeps-set_mode,
  Keeps-combined_snapshot, Keeps-journal,
)
