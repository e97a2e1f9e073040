-- ===== src/Contract/Route.antt =====
-- What a request that passed says of the systems it came through.
use go7_spark_broker.Prelude.{ℕ, ◌≡◌, ◌<◌, String, true, false, List, arith, contains, length, ok}
use go7_spark_broker.Json.{Fields}
use go7_spark_broker.Contract.Validate.{read_route, no_repeats}

-- A route that is accepted names no system twice and not this broker, counts its systems, and has
-- fewer than the maximum of hops.
pub read_route_lem :
    (broker_id : String) (max_hops : ℕ) (body : Fields) (visited : List String) (hop_count : ℕ)
    → read_route broker_id max_hops body ≡ ok (visited, hop_count)
    → (no_repeats visited ≡ true)
      × (contains broker_id visited ≡ false)
      × (hop_count ≡ length visited)
      × (hop_count < max_hops)
unfolding read_route
read_route_lem broker_id max_hops body visited hop_count h =
    (ground arith, ground arith, ground arith, ground arith)
