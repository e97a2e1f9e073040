-- ===== src/Examples/Models.antt =====
-- Routing, at fixed inputs.
use go7_spark_broker.Prelude.{
  ℕ, ◌≡◌, ◌⊎◌, refl, String, false, Option, none, some, List, [], ◌∷◌, All, ok, err, sort_by,
}
use go7_spark_broker.Json.{Json, text, array, dict, cons, nil}
use go7_spark_broker.Routing.Types.{RoutePolicy, RouteDecision, Context, routing_error}
use go7_spark_broker.Routing.Context.{normalize_routing_snapshot}
use go7_spark_broker.Routing.Decide.{ranking, decide, decision_for}
use go7_spark_broker.Routing.Choice.{IsChosen, decide_lem, decide-answers}
use go7_spark_broker.Routing.Preference.{Preference, name_of, low_memory, Fits}

abbrev route : String → ℕ → ℕ → RoutePolicy
route id memory priority = record {
  id = id;
  model = "qwen";
  profile_id = id;
  estimated_memory_gb = memory;
  priority = priority;
  service_classes = "interactive" ∷ [];
}

abbrev routes : List RoutePolicy
routes = route "gpu.a" 80 50 ∷ route "gpu.b" 40 50 ∷ []

abbrev snapshot : Json
snapshot = dict (("activeProfiles", array (cons (text "gpu.a") nil)) ∷ [])

abbrev context : Context
context = record { active = "gpu.a" ∷ []; profiles = [] }

-- Small latencies only: one millisecond is 2¹⁰⁷⁴ units.
abbrev to_float : ℕ → Option ℕ
to_float n = some n

abbrev resident : RouteDecision
unfolding ranking
resident =
    decision_for none "balanced" "rev" (ranking none "interactive" "balanced" context routes)
      (route "gpu.a" 80 50)

-- The balanced preference takes the active profile, that of memory the smaller one.
takes_resident : decide to_float routes "rev" none "interactive" "balanced" snapshot ≡ ok resident
unfolding decide resident sort_by
takes_resident = refl

normalizes : normalize_routing_snapshot to_float false snapshot ≡ ok context
unfolding normalize_routing_snapshot
normalizes = refl

decide_lem_example :
    (q : Preference) × (c : Context) × (r : RoutePolicy) × (name_of q ≡ "balanced")
    × (normalize_routing_snapshot to_float false snapshot ≡ ok c)
    × IsChosen none "interactive" q c routes r
    × (resident.route_id ≡ r.id)
    × (resident.profile_id ≡ r.profile_id)
    × (resident.model ≡ r.model)
    × (resident.preference ≡ "balanced")
decide_lem_example =
    decide_lem to_float routes "rev" none "interactive" "balanced" snapshot resident takes_resident

decide-answers_example :
    ((d : RouteDecision) × (decide to_float routes "rev" none "batch" "memory" snapshot ≡ ok d))
    ⊎ ((decide to_float routes "rev" none "batch" "memory" snapshot
          ≡ err (routing_error "route_unavailable"))
        × All (λ k. ¬ (Fits none "batch" context k)) routes)
decide-answers_example =
    decide-answers to_float routes "rev" none "batch" low_memory snapshot context refl refl
      normalizes
