-- ===== src/Routing/Choice.antt =====
-- The route that `decide` selects.
use mathlib.Core.List.{Memᴰ}
use mathlib.Core.Option.{some-injective}
use go7_spark_broker.Prelude.{
  ℕ, ◌≡◌, ◌⊎◌, refl, ap, sym, ◌∙◌, String, Bool, true, false, ◌&&◌, Option, none, some, List, [],
  ◌∷◌, arith, inl, inr, All, All-map, contains, Result, err, Bool-cases, eq_iff, select, first,
  sort_by, IsStrictOrder, first-best, first-none, str_lt-asym, str_lt-through, Option-cases,
  Result-cases, ok, ◌==◌, if◌then◌else◌,
}
use go7_spark_broker.Json.{Json}
use go7_spark_broker.Routing.Context.{normalize_routing_snapshot}
use go7_spark_broker.Routing.Types.{RoutePolicy, RouteDecision, Context, Failure, routing_error}
use go7_spark_broker.Routing.Preference.{
  Fits, Preference, resident, low_latency, high_throughput, low_memory, name_of, Prefers,
  ranks_before_gives, preference_named, tests_give, tests_hold,
}
use go7_spark_broker.Routing.Decide.{
  is_candidate, is_usable, by_memory, by_latency, by_throughput, balanced, ranks_before,
  unavailable, decision_for, ranking, choose, has_model, is_named, decide,
}

module _ (c : Context) where
  by_memory-IsStrictOrder : IsStrictOrder by_memory
  unfolding by_memory
  by_memory-IsStrictOrder = record {
    asym = λ x y h. ground (arith, str_lt-asym x.id y.id);
    through = λ x y z h k. ground (arith, str_lt-through x.id y.id z.id);
  }

  by_latency-IsStrictOrder : IsStrictOrder (by_latency c)
  unfolding by_latency
  by_latency-IsStrictOrder = record {
    asym = λ x y h. ground (arith, str_lt-asym x.id y.id);
    through = λ x y z h k. ground (arith, str_lt-through x.id y.id z.id);
  }

  by_throughput-IsStrictOrder : IsStrictOrder (by_throughput c)
  unfolding by_throughput
  by_throughput-IsStrictOrder = record {
    asym = λ x y h. ground (arith, str_lt-asym x.id y.id);
    through = λ x y z h k. ground (arith, str_lt-through x.id y.id z.id);
  }

  balanced-IsStrictOrder : IsStrictOrder (balanced c)
  unfolding balanced
  balanced-IsStrictOrder = record {
    asym = λ x y h. ground (arith, str_lt-asym x.id y.id);
    through = λ x y z h k. ground (arith, str_lt-through x.id y.id z.id);
  }

ranks_before-IsStrictOrder :
    (preference : String) (c : Context) → IsStrictOrder (ranks_before preference c)
unfolding ranks_before
ranks_before-IsStrictOrder preference c =
    either (preference == "memory") (by_memory-IsStrictOrder c) (
      either (preference == "latency") (by_latency-IsStrictOrder c) (
        either (preference == "throughput") (by_throughput-IsStrictOrder c)
          (balanced-IsStrictOrder c)))
  where
    either :
        (b : Bool) {f g : RoutePolicy → RoutePolicy → Bool}
        → IsStrictOrder f
        → IsStrictOrder g
        → IsStrictOrder (λ x y. if b then f x y else g x y)
    either true f g = record { asym = f.asym; through = f.through }
    either false f g = record { asym = g.asym; through = g.through }

select-select :
    (p q : RoutePolicy → Bool) (l : List RoutePolicy)
    → select q (select p l) ≡ select (λ x. p x && q x) l
select-select p q [] = refl
select-select p q (x ∷ r) = ground (arith, select-select p q r)

module _ (model : Option String) (service_class preference revision : String) (c : Context) where
  abbrev pub fits : RoutePolicy → Bool
  fits r = is_candidate model service_class r && is_usable c r

  -- A route that fits, and before which no other fitting route ranks.
  pub record IsBest (routes : List RoutePolicy) (r : RoutePolicy) : Type 0 where
    pub installed : Memᴰ r routes
    pub fitting : fits r ≡ true
    pub best : All (λ k. fits k ≡ true → ranks_before preference c k r ≡ false) routes

  -- Either no installed route of the model and the service class is usable, and the request is
  -- refused as unavailable, or the decision is for one of them before which none of them ranks.
  pub choose_lem :
      (routes : List RoutePolicy)
      → ((choose model service_class preference revision c routes ≡ unavailable)
          × All (λ k. fits k ≡ false) routes)
        ⊎ ((r : RoutePolicy) × IsBest routes r
            × (choose model service_class preference revision c routes
                ≡ ok (
                    decision_for model preference revision
                      (ranking model service_class preference c routes)
                      r)))
  unfolding choose ranking
  choose_lem routes =
      let o = ranks_before-IsStrictOrder preference c in
      let one = select-select (is_candidate model service_class) (is_usable c) routes in
      let moved : (x : Option RoutePolicy)
          → first (sort_by (ranks_before preference c) (select fits routes)) ≡ x
          → first (
              sort_by (ranks_before preference c)
                (select (is_usable c) (select (is_candidate model service_class) routes)))
            ≡ x =
        λ x h. rw one h in
      elim (Option-cases (first (sort_by (ranks_before preference c) (select fits routes)))) [
        | inl e ↦ inl (
          rw (moved none e, choose, ranking) refl,
          first-none (ranks_before preference c) o fits routes e,
        )
        | inr (r, e) ↦
            let b = first-best (ranks_before preference c) o fits routes e in
            inr (
              r,
              record { installed = b.0; fitting = b.1; best = b.2 },
              rw (moved (some r) e, choose, ranking) refl,
            )
      ]

-- The decision of `decide` behind its tests.
decide_through :
    (to_float : ℕ → Option ℕ) (routes : List RoutePolicy) (revision : String)
    (model : Option String) (service_class preference : String) (snapshot : Json)
    (d : RouteDecision)
    → decide to_float routes revision model service_class preference snapshot ≡ ok d
    → (contains preference ("balanced" ∷ "latency" ∷ "throughput" ∷ "memory" ∷ []) ≡ true)
      × ((c : Context) × (normalize_routing_snapshot to_float false snapshot ≡ ok c)
          × (choose model service_class preference revision c routes ≡ ok d))
unfolding decide
decide_through to_float routes revision model service_class preference snapshot d h =
    elim (Result-cases (normalize_routing_snapshot to_float false snapshot)) [
      | inl (c, n) ↦ (ground (arith, n), (c, n, ground (arith, n)))
      | inr (x, n) ↦ absurd (ground (arith, n))
    ]

-- An installed route that fits the request, and that the preference takes rather than each other one that
-- fits, or is as content with.
pub record IsChosen (model : Option String) (service_class : String) (q : Preference) (c : Context)
    (routes : List RoutePolicy) (r : RoutePolicy) : Type 0 where
  pub installed : Memᴰ r routes
  pub fitting : Fits model service_class c r
  pub chosen : All (λ k. Fits model service_class c k → Prefers q c r k) routes

best_gives :
    (model : Option String) (service_class revision : String) (q : Preference) (c : Context)
    (routes : List RoutePolicy) (r : RoutePolicy)
    → IsBest model service_class (name_of q) revision c routes r
    → IsChosen model service_class q c routes r
best_gives model service_class revision q c routes r b = record {
  installed = b.installed;
  fitting = tests_give model service_class c r b.fitting;
  chosen =
      All-map _ _ (λ k h f. ranks_before_gives q c r k (h (tests_hold model service_class c k f)))
        routes b.best;
}

-- A decision of `decide` names an installed route of the model and the service class whose profile is not
-- reported unhealthy. Of those, by the preference: the least memory; the lowest reported latency; the most
-- free slots; each then by the higher priority and the lesser id; or, balanced, an active profile, then
-- the higher priority, the least memory and the lesser id.
pub decide_lem :
    (to_float : ℕ → Option ℕ) (routes : List RoutePolicy) (revision : String)
    (model : Option String) (service_class preference : String) (snapshot : Json)
    (d : RouteDecision)
    → decide to_float routes revision model service_class preference snapshot ≡ ok d
    → (q : Preference) × (c : Context) × (r : RoutePolicy) × (name_of q ≡ preference)
      × (normalize_routing_snapshot to_float false snapshot ≡ ok c)
      × IsChosen model service_class q c routes r
      × (d.route_id ≡ r.id)
      × (d.profile_id ≡ r.profile_id)
      × (d.model ≡ r.model)
      × (d.preference ≡ preference)
decide_lem to_float routes revision model service_class preference snapshot d h =
    let (known, (c, n, chosen)) =
      decide_through to_float routes revision model service_class preference snapshot d h in
    let (q, e) = preference_named preference known in
    elim (choose_lem model service_class (name_of q) revision c routes) [
      | inl (none_fits, _) ↦ absurd (cc)
      | inr (r, b, made) ↦
          let same = same_decision _ _ (sym chosen ∙ rw e at made) in
          (
            q,
            c,
            r,
            e,
            n,
            best_gives model service_class revision q c routes r b,
            ap (λ (x : RouteDecision). x.route_id) same,
            ap (λ (x : RouteDecision). x.profile_id) same,
            ap (λ (x : RouteDecision). x.model) same,
            ap (λ (x : RouteDecision). x.preference) same,
          )
    ]
  where
    same_decision :
        (a b : RouteDecision) → ◌≡◌ {A = Result Failure RouteDecision} (ok a) (ok b) → a ≡ b
    same_decision a b e = cc

known_name :
    (q : Preference)
    → contains (name_of q) ("balanced" ∷ "latency" ∷ "throughput" ∷ "memory" ∷ []) ≡ true
known_name resident = refl
known_name low_latency = refl
known_name high_throughput = refl
known_name low_memory = refl

decide_chooses :
    (to_float : ℕ → Option ℕ) (routes : List RoutePolicy) (revision : String)
    (model : Option String) (service_class : String) (q : Preference) (snapshot : Json)
    (c : Context)
    → is_named model ≡ true
    → contains service_class ("interactive" ∷ "batch" ∷ "background" ∷ []) ≡ true
    → has_model model routes ≡ true
    → normalize_routing_snapshot to_float false snapshot ≡ ok c
    → decide to_float routes revision model service_class (name_of q) snapshot
      ≡ choose model service_class (name_of q) revision c routes
unfolding decide
decide_chooses to_float routes revision model service_class q snapshot c named class has n =
    rw (named, class, known_name q, has, n, decide) refl

decide_unknown :
    (to_float : ℕ → Option ℕ) (routes : List RoutePolicy) (revision : String)
    (model : Option String) (service_class : String) (q : Preference) (snapshot : Json)
    → is_named model ≡ true
    → contains service_class ("interactive" ∷ "batch" ∷ "background" ∷ []) ≡ true
    → has_model model routes ≡ false
    → decide to_float routes revision model service_class (name_of q) snapshot
      ≡ err (routing_error "route_unavailable")
unfolding decide
decide_unknown to_float routes revision model service_class q snapshot named class has =
    rw (named, class, known_name q, has, decide) refl

no_model :
    (model : Option String) (service_class : String) (c : Context) (routes : List RoutePolicy)
    → has_model model routes ≡ false
    → All (λ k. ¬ (Fits model service_class c k)) routes
no_model none service_class c routes h = absurd (cc)
no_model (some m) service_class c [] h = tt
no_model (some m) service_class c (k ∷ r) h = (
  (λ f. elim f.of_model [
    | inl e ↦ absurd (cc)
    | inr e ↦ absurd (ground (arith, h, eq_iff k.model m, some-injective _ _ e))
  ]),
  no_model (some m) service_class c r (ground (arith, h)),
)

-- For a named model, a service class, a preference and a snapshot as they should be, `decide` answers, or
-- refuses the request as unavailable and no installed route fits it.
pub decide-answers :
    (to_float : ℕ → Option ℕ) (routes : List RoutePolicy) (revision : String)
    (model : Option String) (service_class : String) (q : Preference) (snapshot : Json)
    (c : Context)
    → is_named model ≡ true
    → contains service_class ("interactive" ∷ "batch" ∷ "background" ∷ []) ≡ true
    → normalize_routing_snapshot to_float false snapshot ≡ ok c
    → ((d : RouteDecision) × (decide to_float routes revision model service_class
            (name_of q)
            snapshot
          ≡ ok d))
      ⊎ ((decide to_float routes revision model service_class (name_of q) snapshot
            ≡ err (routing_error "route_unavailable"))
          × All (λ k. ¬ (Fits model service_class c k)) routes)
decide-answers to_float routes revision model service_class q snapshot c named class n =
    elim (Bool-cases (has_model model routes)) [
      | inr none_has ↦ inr (
        decide_unknown to_float routes revision model service_class q snapshot named class none_has,
        no_model model service_class c routes none_has,
      )
      | inl has ↦
          let through =
            decide_chooses to_float routes revision model service_class q snapshot c named class has
              n in
          elim (choose_lem model service_class (name_of q) revision c routes) [
            | inl (refused, none_fits) ↦ inr (
              through ∙ refused,
              All-map _ _ (λ k h f. absurd (cc (h, tests_hold model service_class c k f))) routes
                  none_fits,
            )
            | inr (r, b, made) ↦ inl (_, through ∙ made)
          ]
    ]
