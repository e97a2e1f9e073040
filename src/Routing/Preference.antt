-- ===== src/Routing/Preference.antt =====
-- What the documentation asks of a route, and of the route that each preference takes.
use mathlib.Core.Option.{some-injective}
use go7_spark_broker.Prelude.{
  ℕ, ◌≡◌, ◌≢◌, ◌⊎◌, ◌<◌, refl, ap, sym, ◌∙◌, String, Bool, true, false, not, ◌&&◌, ◌||◌, Option,
  none, some, [], ◌∷◌, arith, inl, inr, contains, lookup, str_lt, Bool-cases, ltb, ◌==◌, eq_iff,
}
use go7_spark_broker.Routing.Types.{RoutePolicy, Metrics, Context}
use go7_spark_broker.Routing.Decide.{
  is_model, is_candidate, is_usable, health_is, faster, latency_of_route, concurrency_of_route,
  preferred, by_memory, by_latency, by_throughput, balanced, inactivity, ranks_before,
}

-- A route of the model, if one is asked for, and of the service class, whose profile is not reported
-- unhealthy.
pub record Fits (model : Option String) (service_class : String) (c : Context) (r : RoutePolicy)
    : Type 0 where
  pub of_model : (model ≡ none) ⊎ (model ≡ some r.model)
  pub of_class : contains service_class r.service_classes ≡ true
  pub healthy :
      (lookup r.profile_id c.profiles ≡ none)
      ⊎ ((m : Metrics) × (lookup r.profile_id c.profiles ≡ some m) × (m.health ≢ some "unhealthy"))

pub data Preference : Type 0 where
  resident low_latency high_throughput low_memory : Preference

abbrev pub name_of : Preference → String
name_of resident = "balanced"
name_of low_latency = "latency"
name_of high_throughput = "throughput"
name_of low_memory = "memory"

-- Of the higher priority, and where they are alike of the lesser id.
abbrev pub Leads : RoutePolicy → RoutePolicy → Type 0
Leads r k = (k.priority < r.priority) ⊎ ((r.priority ≡ k.priority) × (str_lt k.id r.id ≡ false))

-- The reported latency of a profile, none where none is reported.
abbrev pub reported_latency : Option Metrics → Option ℕ
reported_latency none = none
reported_latency (some m) = m.latency

-- The reported free slots of a profile, none of them where nothing is reported.
abbrev pub free_slots : Option Metrics → ℕ
free_slots none = 0
free_slots (some m) = elim m.available_concurrency [ none ↦ 0 | some n ↦ n ]

-- A reported latency is lower than a greater one, and than none.
abbrev pub Lower : Option ℕ → Option ℕ → Type 0
Lower (some a) (some b) = a < b
Lower (some a) none = Unit {0}
Lower none b = ¬ (Unit {0})

-- The preference takes the route `r` rather than `k`, or is as content with it.
abbrev pub Prefers : Preference → Context → RoutePolicy → RoutePolicy → Type 0
Prefers low_memory c r k =
    (r.estimated_memory_gb < k.estimated_memory_gb)
    ⊎ ((r.estimated_memory_gb ≡ k.estimated_memory_gb) × Leads r k)
Prefers low_latency c r k =
    Lower (reported_latency (lookup r.profile_id c.profiles))
      (reported_latency (lookup k.profile_id c.profiles))
    ⊎ ((reported_latency (lookup r.profile_id c.profiles)
          ≡ reported_latency (lookup k.profile_id c.profiles))
        × Leads r k)
Prefers high_throughput c r k =
    (free_slots (lookup k.profile_id c.profiles) < free_slots (lookup r.profile_id c.profiles))
    ⊎ ((free_slots (lookup r.profile_id c.profiles) ≡ free_slots (lookup k.profile_id c.profiles))
        × Leads r k)
Prefers resident c r k =
    ((contains r.profile_id c.active ≡ true) × (contains k.profile_id c.active ≡ false))
    ⊎ ((contains r.profile_id c.active ≡ contains k.profile_id c.active)
        × ((k.priority < r.priority)
            ⊎ ((r.priority ≡ k.priority)
                × ((r.estimated_memory_gb < k.estimated_memory_gb)
                    ⊎ ((r.estimated_memory_gb ≡ k.estimated_memory_gb)
                        × (str_lt k.id r.id ≡ false))))))

leads : (r k : RoutePolicy) → preferred k r ≡ false → Leads r k
leads r k h = ground (arith, h)

latency_as :
    (c : Context) (r : RoutePolicy)
    → latency_of_route c r ≡ reported_latency (lookup r.profile_id c.profiles)
latency_as c r = go (lookup r.profile_id c.profiles)
  where
    go : (o : Option Metrics) → elim o [ none ↦ none | some m ↦ m.latency ] ≡ reported_latency o
    go none = refl
    go (some m) = refl

slots_as :
    (c : Context) (r : RoutePolicy)
    → concurrency_of_route c r ≡ free_slots (lookup r.profile_id c.profiles)
slots_as c r = go (lookup r.profile_id c.profiles)
  where
    go :
        (o : Option Metrics)
        → elim o [ none ↦ 0 | some m ↦ elim m.available_concurrency [ none ↦ 0 | some n ↦ n ] ]
          ≡ free_slots o
    go none = refl
    go (some m) = refl

latency_cases :
    (a b : Option ℕ) (p : Bool)
    → (faster b a || (not (faster a b) && p)) ≡ false
    → Lower a b ⊎ ((a ≡ b) × (p ≡ false))
latency_cases none none p h = inr (refl, h)
latency_cases none (some b) p h = absurd (cc)
latency_cases (some a) none p h = inl tt
latency_cases (some a) (some b) p h = elim (Bool-cases (ltb a b)) [
  | inl e ↦ inl (ground (arith, e))
  | inr e ↦ inr (ap some (ground (arith, e, h)), ground (arith, e, h))
]

by_latency_gives :
    (c : Context) (r k : RoutePolicy) → by_latency c k r ≡ false → Prefers low_latency c r k
unfolding by_latency
by_latency_gives c r k h =
    rw (sym (latency_as c r), sym (latency_as c k))
      (elim (latency_cases (latency_of_route c r) (latency_of_route c k) (preferred k r) h) [
        | inl e ↦ inl e
        | inr (e, p) ↦ inr (e, leads r k p)
      ])

by_throughput_gives :
    (c : Context) (r k : RoutePolicy) → by_throughput c k r ≡ false → Prefers high_throughput c r k
unfolding by_throughput
by_throughput_gives c r k h = rw (sym (slots_as c r), sym (slots_as c k)) (ground (arith, h))

by_memory_gives :
    (c : Context) (r k : RoutePolicy) → by_memory k r ≡ false → Prefers low_memory c r k
unfolding by_memory
by_memory_gives c r k h = ground (arith, h)

balanced_gives : (c : Context) (r k : RoutePolicy) → balanced c k r ≡ false → Prefers resident c r k
unfolding balanced inactivity
balanced_gives c r k h = ground (arith, h)

-- A route before which `k` does not rank is preferred to it.
pub ranks_before_gives :
    (q : Preference) (c : Context) (r k : RoutePolicy)
    → ranks_before (name_of q) c k r ≡ false
    → Prefers q c r k
unfolding ranks_before
ranks_before_gives resident c r k h = balanced_gives c r k h
ranks_before_gives low_latency c r k h = by_latency_gives c r k h
ranks_before_gives high_throughput c r k h = by_throughput_gives c r k h
ranks_before_gives low_memory c r k h = by_memory_gives c r k h

pub preference_named :
    (p : String)
    → contains p ("balanced" ∷ "latency" ∷ "throughput" ∷ "memory" ∷ []) ≡ true
    → (q : Preference) × (name_of q ≡ p)
preference_named p h = elim (Bool-cases ("balanced" == p)) [
  | inl a ↦ (resident, (eq_iff "balanced" p).0 a)
  | inr a ↦ elim (Bool-cases ("latency" == p)) [
    | inl b ↦ (low_latency, (eq_iff "latency" p).0 b)
    | inr b ↦ elim (Bool-cases ("throughput" == p)) [
      | inl d ↦ (high_throughput, (eq_iff "throughput" p).0 d)
      | inr d ↦ (low_memory, (eq_iff "memory" p).0 (left _ _ _ _ h a b d))
    ]
  ]
]
  where
    left :
        (x y z w : Bool)
        → (x || (y || (z || (w || false)))) ≡ true
        → x ≡ false
        → y ≡ false
        → z ≡ false
        → w ≡ true
    left x y z w h a b d = ground (arith, h, a, b, d)

-- The tests of `decide` are the description.
healthy_of :
    (o : Option Metrics)
    → health_is "unhealthy" o ≡ false
    → (o ≡ none) ⊎ ((m : Metrics) × (o ≡ some m) × (m.health ≢ some "unhealthy"))
healthy_of none h = inl refl
healthy_of (some m) h = inr (m, refl, go m.health h)
  where
    go :
        (x : Option String)
        → elim x [ none ↦ false | some t ↦ t == "unhealthy" ] ≡ false
        → x ≢ some "unhealthy"
    go none h e = absurd (cc)
    go (some t) h e = absurd (cc (h, (eq_iff t "unhealthy").1 (some-injective _ _ e)))

unhealthy_not :
    (o : Option Metrics)
    → (o ≡ none) ⊎ ((m : Metrics) × (o ≡ some m) × (m.health ≢ some "unhealthy"))
    → health_is "unhealthy" o ≡ false
unhealthy_not none h = refl
unhealthy_not (some m) (inl e) = absurd (cc)
unhealthy_not (some m) (inr (n, e, k)) =
    go m.health
      (λ q. k (ap (λ (o : Option Metrics). elim o [ none ↦ none | some y ↦ y.health ]) (sym e) ∙ q))
  where
    go :
        (x : Option String)
        → x ≢ some "unhealthy"
        → elim x [ none ↦ false | some t ↦ t == "unhealthy" ] ≡ false
    go none k = refl
    go (some t) k = elim (Bool-cases (t == "unhealthy")) [
      | inl e ↦ absurd (k (ap some ((eq_iff t "unhealthy").0 e)))
      | inr e ↦ e
    ]

of_model_lem :
    (o : Option String) (r : RoutePolicy) → is_model o r ≡ true → (o ≡ none) ⊎ (o ≡ some r.model)
of_model_lem none r h = inl refl
of_model_lem (some m) r h = inr (ap some (sym ((eq_iff r.model m).0 h)))

is_model_lem :
    (o : Option String) (r : RoutePolicy) → (o ≡ none) ⊎ (o ≡ some r.model) → is_model o r ≡ true
is_model_lem none r h = refl
is_model_lem (some m) r (inl e) = absurd (cc)
is_model_lem (some m) r (inr e) = (eq_iff r.model m).1 (sym (some-injective _ _ e))

module _ (model : Option String) (service_class : String) (c : Context) (r : RoutePolicy) where
  pub tests_give :
      (is_candidate model service_class r && is_usable c r) ≡ true → Fits model service_class c r
  tests_give h = record {
    of_model = of_model_lem model r (ground (arith, h));
    of_class = ground (arith, h);
    healthy = healthy_of (lookup r.profile_id c.profiles) (ground (arith, h));
  }

  pub tests_hold :
      Fits model service_class c r → (is_candidate model service_class r && is_usable c r) ≡ true
  tests_hold f = ground (
    arith,
    is_model_lem model r f.of_model,
    f.of_class,
    unhealthy_not (lookup r.profile_id c.profiles) f.healthy,
  )
