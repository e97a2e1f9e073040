-- ===== src/Routing/Context.antt =====
-- `normalize_routing_snapshot` and `_metric_number` of spark_broker/routing.py.
use go7_spark_broker.Prelude.{
  ℕ, suc, String, Bool, true, false, not, ◌&&◌, Option, none, some, List, [], ◌∷◌, all, contains,
  Result, ok, err, ◌>>=◌, ◌>>◌, leb,
}
use go7_spark_broker.Text.{size}
use go7_spark_broker.Json.{
  pos, negsuc, finite, Json, null, boolean, int, real, text, array, object, Fields, items,
  get_field,
}
use go7_spark_broker.Resources.Probe.{names, covers, all_distinct}
use go7_spark_broker.Routing.Types.{Metrics, Context, Failure, routing_error, crashed}

abbrev pub demand : Bool → String → Result Failure (Unit {0})
demand true code = ok tt
demand false code = err (routing_error code)

-- `_object`
abbrev pub as_mapping : Json → Result Failure Fields
as_mapping (object f) = ok f
as_mapping _ = err (routing_error "invalid_type")

abbrev pub valid_health_flag : Option Json → Bool
valid_health_flag none = true
valid_health_flag (some null) = true
valid_health_flag (some (boolean b)) = true
valid_health_flag (some _) = false

abbrev pub profile_ids : List Json → Result Failure (List String)
profile_ids [] = ok []
profile_ids (text t ∷ r) = do
  demand (leb 1 (size t)) "invalid_metric"
  rest ← profile_ids r
  ok (t ∷ rest)
profile_ids (_ ∷ r) = err (routing_error "invalid_metric")

abbrev pub active_profiles_of : Option Json → Result Failure (List String)
active_profiles_of none = ok []
active_profiles_of (some (array xs)) = profile_ids (items xs)
active_profiles_of (some _) = err (routing_error "invalid_metric")

abbrev pub profile_fields : Option Json → Result Failure Fields
profile_fields none = ok Fields.end
profile_fields (some (object f)) = do
  demand (all (λ k. leb 1 (size k)) (names f)) "invalid_metric"
  ok f
profile_fields (some _) = err (routing_error "invalid_metric")

abbrev pub health_of : Option Json → Result Failure (Option String)
health_of none = ok none
health_of (some (text t)) = do
  demand (contains t ("healthy" ∷ "unhealthy" ∷ "degraded" ∷ "unknown" ∷ [])) "invalid_metric"
  ok (some t)
health_of (some _) = err (routing_error "invalid_metric")

abbrev pub concurrency_of : Option Json → Result Failure (Option ℕ)
concurrency_of none = ok none
concurrency_of (some (int (pos n))) = ok (some n)
concurrency_of (some _) = err (routing_error "invalid_metric")

-- `to_float n` is float(n) of Python in units of 2⁻¹⁰⁷⁴, or `none` where it overflows.
module _ (to_float : ℕ → Option ℕ) where
  abbrev pub converted : ℕ → Result Failure ℕ
  converted n = elim (to_float n) [ none ↦ err (crashed "OverflowError") | some x ↦ ok x ]

  -- `_metric_number`
  unfoldable pub metric_number : Json → Result Failure ℕ
  metric_number (int (pos n)) = converted n
  metric_number (int (negsuc n)) = do x ← converted (suc n); err (routing_error "invalid_metric")
  metric_number (real (finite (pos m))) = ok m
  metric_number _ = err (routing_error "invalid_metric")

  abbrev pub latency_of : Option Json → Result Failure (Option ℕ)
  unfolding metric_number
  latency_of none = ok none
  latency_of (some v) = do x ← metric_number v; ok (some x)

  unfoldable pub read_profile : Bool → Json → Result Failure Metrics
  unfolding latency_of
  read_profile reject v = do
    f ← as_mapping v
    demand
        (not
          (reject && not (covers ("health" ∷ "latencyMs" ∷ "availableConcurrency" ∷ []) (names f))))
        "unknown_field"
    health ← health_of (get_field "health" f)
    latency ← latency_of (get_field "latencyMs" f)
    concurrency ← concurrency_of (get_field "availableConcurrency" f)
    ok (record { health = health; latency = latency; available_concurrency = concurrency })

  unfoldable pub read_profiles : Bool → Fields → Result Failure (List (String × Metrics))
  unfolding read_profile
  read_profiles reject Fields.end = ok []
  read_profiles reject (Fields.field k v r) = do
    m ← read_profile reject v
    rest ← read_profiles reject r
    ok ((k, m) ∷ rest)

  -- None is read as an empty object.
  abbrev pub present : Json → Json
  present null = object Fields.end
  present v = v

  unfoldable pub normalize_routing_snapshot : Bool → Json → Result Failure Context
  unfolding read_profiles
  normalize_routing_snapshot reject value = do
    f ← as_mapping (present value)
    demand
        (not
          (reject && not (covers ("probeHealthy" ∷ "activeProfiles" ∷ "profiles" ∷ []) (names f))))
        "unknown_field"
    demand (valid_health_flag (get_field "probeHealthy" f)) "invalid_metric"
    active ← active_profiles_of (get_field "activeProfiles" f)
    demand (all_distinct active) "duplicate_value"
    fields ← profile_fields (get_field "profiles" f)
    profiles ← read_profiles reject fields
    ok (record { active = active; profiles = profiles })
