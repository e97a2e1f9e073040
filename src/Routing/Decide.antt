-- ===== src/Routing/Decide.antt =====
-- `RoutingEngine.decide` and `_validate_route_set` of spark_broker/routing.py.
use go7_spark_broker.Prelude.{
  ℕ, String, Bool, true, false, not, ◌&&◌, ◌||◌, Option, none, some, List, [], ◌∷◌, map, any,
  contains, select, first, lookup, length, sort_by, str_lt, Result, ok, err, ◌>>=◌, ◌>>◌, eqb, ltb,
  leb, ◌==◌, if◌then◌else◌,
}
use go7_spark_broker.Text.{size, joined}
use go7_spark_broker.Json.{Json}
use go7_spark_broker.Resources.Probe.{all_distinct}
use go7_spark_broker.Routing.Types.{
  RoutePolicy, RouteDecision, Metrics, Context, Failure, routing_error,
}
use go7_spark_broker.Routing.Context.{demand, normalize_routing_snapshot}

-- model is None or route.model == model
abbrev pub is_model : Option String → RoutePolicy → Bool
is_model none r = true
is_model (some m) r = r.model == m

abbrev pub is_candidate : Option String → String → RoutePolicy → Bool
is_candidate model service_class r = is_model model r && contains service_class r.service_classes

abbrev pub health_is : String → Option Metrics → Bool
health_is t none = false
health_is t (some m) = elim m.health [ none ↦ false | some h ↦ h == t ]

abbrev pub is_usable : Context → RoutePolicy → Bool
is_usable c r = not (health_is "unhealthy" (lookup r.profile_id c.profiles))

-- The latency of a route; none is infinite.
abbrev pub latency_of_route : Context → RoutePolicy → Option ℕ
latency_of_route c r = elim (lookup r.profile_id c.profiles) [ none ↦ none | some m ↦ m.latency ]

abbrev pub concurrency_of_route : Context → RoutePolicy → ℕ
concurrency_of_route c r = elim (lookup r.profile_id c.profiles) [
  | none ↦ 0
  | some m ↦ elim m.available_concurrency [ none ↦ 0 | some n ↦ n ]
]

-- route.profile_id not in active_profiles, as a number
unfoldable pub inactivity : Context → RoutePolicy → ℕ
inactivity c r = if contains r.profile_id c.active then 0 else 1

abbrev pub faster : Option ℕ → Option ℕ → Bool
faster none o = false
faster (some a) none = true
faster (some a) (some b) = ltb a b

-- (-priority, id)
abbrev pub preferred : RoutePolicy → RoutePolicy → Bool
preferred a b = ltb b.priority a.priority || (eqb a.priority b.priority && str_lt a.id b.id)

abbrev pub lighter : RoutePolicy → RoutePolicy → Bool
lighter a b =
    ltb a.estimated_memory_gb b.estimated_memory_gb
    || (eqb a.estimated_memory_gb b.estimated_memory_gb && str_lt a.id b.id)

unfoldable pub by_memory : RoutePolicy → RoutePolicy → Bool
by_memory a b =
    ltb a.estimated_memory_gb b.estimated_memory_gb
    || (eqb a.estimated_memory_gb b.estimated_memory_gb && preferred a b)

unfoldable pub by_latency : Context → RoutePolicy → RoutePolicy → Bool
by_latency c a b =
    faster (latency_of_route c a) (latency_of_route c b)
    || (not (faster (latency_of_route c b) (latency_of_route c a)) && preferred a b)

unfoldable pub by_throughput : Context → RoutePolicy → RoutePolicy → Bool
by_throughput c a b =
    ltb (concurrency_of_route c b) (concurrency_of_route c a)
    || (eqb (concurrency_of_route c a) (concurrency_of_route c b) && preferred a b)

unfoldable pub balanced : Context → RoutePolicy → RoutePolicy → Bool
unfolding inactivity
balanced c a b =
    ltb (inactivity c a) (inactivity c b)
    || (eqb (inactivity c a) (inactivity c b)
        && (ltb b.priority a.priority || (eqb a.priority b.priority && lighter a b)))

-- The order of candidates; each key ends in the id.
unfoldable pub ranks_before : String → Context → RoutePolicy → RoutePolicy → Bool
unfolding by_memory by_latency by_throughput balanced
ranks_before preference c a b =
    if preference == "memory"
    then by_memory a b
    else if preference == "latency"
    then by_latency c a b
    else if preference == "throughput"
    then by_throughput c a b
    else balanced c a b

abbrev pub unavailable : {A : Type 0} → Result Failure A
unavailable = err (routing_error "route_unavailable")

abbrev pub reason_of : Option String → String → String
reason_of none preference = joined ("policy:" ∷ preference ∷ [])
reason_of (some m) preference = "explicit_model"

abbrev pub decision_for :
    Option String → String → String → List RoutePolicy → RoutePolicy → RouteDecision
decision_for model preference revision ranked r = record {
  route_id = r.id;
  profile_id = r.profile_id;
  model = r.model;
  reason = reason_of model preference;
  preference = preference;
  config_revision = revision;
  ranked_route_ids = map (λ (x : RoutePolicy). x.id) ranked;
}

unfoldable pub ranking :
    Option String → String → String → Context → List RoutePolicy → List RoutePolicy
unfolding ranks_before
ranking model service_class preference c routes =
    sort_by (ranks_before preference c)
      (select (is_usable c) (select (is_candidate model service_class) routes))

-- The part of `decide` behind the tests of its arguments. An empty list of candidates, before or
-- after the unhealthy ones are taken out, is refused with one code.
unfoldable pub choose :
    Option String
    → String
    → String
    → String
    → Context
    → List RoutePolicy
    → Result Failure RouteDecision
unfolding ranking
choose model service_class preference revision c routes =
    let ranked = ranking model service_class preference c routes in
    elim (first ranked) [
      | none ↦ unavailable
      | some r ↦ ok (decision_for model preference revision ranked r)
    ]

abbrev pub has_model : Option String → List RoutePolicy → Bool
has_model none routes = true
has_model (some m) routes = any (λ r. r.model == m) routes

abbrev pub is_named : Option String → Bool
is_named none = true
is_named (some m) = leb 1 (size m)

-- `decide` of the engine with the routes and the revision
unfoldable pub decide :
    (ℕ → Option ℕ)
    → List RoutePolicy
    → String
    → Option String
    → String
    → String
    → Json
    → Result Failure RouteDecision
unfolding choose normalize_routing_snapshot
decide to_float routes revision model service_class preference snapshot = do
  demand (is_named model) "invalid_request"
  demand (contains service_class ("interactive" ∷ "batch" ∷ "background" ∷ [])) "invalid_request"
  demand (contains preference ("balanced" ∷ "latency" ∷ "throughput" ∷ "memory" ∷ []))
      "invalid_request"
  demand (has_model model routes) "route_unavailable"
  c ← normalize_routing_snapshot to_float false snapshot
  choose model service_class preference revision c routes

-- `_validate_route_set`
abbrev pub id_before : RoutePolicy → RoutePolicy → Bool
id_before a b = str_lt a.id b.id

unfoldable pub validate_route_set : List RoutePolicy → Result Failure (List RoutePolicy)
validate_route_set routes = do
  let sorted = sort_by id_before routes
  demand (leb 1 (length sorted) && leb (length sorted) 32) "invalid_routes"
  demand (all_distinct (map (λ (r : RoutePolicy). r.id) sorted)) "duplicate_route"
  demand (all_distinct (map (λ (r : RoutePolicy). r.profile_id) sorted)) "duplicate_profile"
  ok sorted
