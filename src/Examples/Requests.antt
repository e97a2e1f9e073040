-- ===== src/Examples/Requests.antt =====
-- The reading of a request, at fixed inputs.
use go7_spark_broker.Prelude.{
  String, List, ◌≡◌, ◌<◌, refl, true, false, [], ◌∷◌, contains, length, ok, err,
}
use go7_spark_broker.Json.{Fields, fields, text, int, pos, array, cons, nil, dict}
use go7_spark_broker.Contract.Validate.{read_route, no_repeats}
use go7_spark_broker.Contract.Whole.{unreadable, validate_job_request}
use go7_spark_broker.Contract.Route.{read_route_lem}

abbrev body : Fields
body =
    fields (("visitedSystems", array (cons (text "hermes") nil)) ∷ ("hopCount", int (pos 1)) ∷ [])

accepts : read_route "spark" 8 body ≡ ok ("hermes" ∷ [], 1)
unfolding read_route
accepts = refl

-- A request that was at this broker is refused.
refuses_cycle : read_route "hermes" 8 body ≡ err "route_cycle"
unfolding read_route
refuses_cycle = refl

refuses_unknown_field :
    validate_job_request (λ v. 0) (λ t. unreadable) 0 "spark" 8 (dict (("colour", text "red") ∷ []))
    ≡ err "unknown_field"
unfolding validate_job_request
refuses_unknown_field = refl

abbrev came : List String
came = "hermes" ∷ []

read_route_lem_example :
    (no_repeats came ≡ true) × (contains "spark" came ≡ false) × (1 ≡ length came) × (1 < 8)
read_route_lem_example = read_route_lem "spark" 8 body came 1 accepts
