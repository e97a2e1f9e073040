-- ===== src/Contract/Validate.antt =====
-- `validate_job_request` of spark_broker/contract.py.
use go7_spark_broker.Prelude.{
  ℕ, String, Bool, true, false, not, ◌&&◌, ◌||◌, Option, none, some, List, [], ◌∷◌, all, contains,
  length, Result, ok, err, ◌>>=◌, ◌>>◌, leb, ltb, eqb, if◌then◌else◌,
}
use go7_spark_broker.Text.{codes, size, is_lower, is_upper, is_digit, is_word}
use go7_spark_broker.Json.{pos, Json, int, text, array, Fields, entries, items, get_field}

-- `ContractError` by its code
abbrev pub Checked : Type 0 → Type 0
Checked A = Result String A

abbrev pub insist : Bool → String → Checked (Unit {0})
insist true code = ok tt
insist false code = err code

-- [A-Za-z0-9] and [A-Za-z0-9._:-]
abbrev pub is_alphanumeric : ℕ → Bool
is_alphanumeric c = is_lower c || (is_upper c || is_digit c)

abbrev pub is_id_part : ℕ → Bool
is_id_part c = is_alphanumeric c || (eqb c b'.' || (eqb c b'_' || (eqb c b':' || eqb c b'-')))

-- `_ID`
abbrev pub is_id_codes : List ℕ → Bool
is_id_codes [] = false
is_id_codes (c ∷ r) = is_alphanumeric c && (all is_id_part r && leb (length r) 127)

abbrev pub is_id : String → Bool
is_id t = is_id_codes (codes t)

-- `_CAPABILITY`: what is left behind a letter or a segment, with the number of dots that came.
unfoldable pub capability_rest : Bool → ℕ → List ℕ → Bool
capability_rest inside n [] = inside && (leb 1 n && leb n 7)
capability_rest true n (c ∷ r) =
    if eqb c b'.' then capability_rest false (ℕ.suc n) r else is_word c && capability_rest true n r
capability_rest false n (c ∷ r) = is_word c && capability_rest true n r

abbrev pub is_capability_codes : List ℕ → Bool
unfolding capability_rest
is_capability_codes [] = false
is_capability_codes (c ∷ r) = is_lower c && capability_rest true 0 r

abbrev pub is_capability : String → Bool
unfolding is_capability_codes
is_capability t = is_capability_codes (codes t)

abbrev pub any_text : String → Bool
any_text t = true

-- `_string`, with its maximum and pattern
abbrev pub read_string : ℕ → (String → Bool) → Option Json → Checked String
read_string maximum pattern (some (text t)) = do
  insist (leb 1 (size t) && leb (size t) maximum) "invalid_string"
  insist (pattern t) "invalid_format"
  ok t
read_string maximum pattern _ = err "invalid_string"

abbrev pub read_strings : ℕ → (String → Bool) → List Json → Checked (List String)
read_strings maximum pattern [] = ok []
read_strings maximum pattern (v ∷ r) = do
  t ← read_string maximum pattern (some v)
  rest ← read_strings maximum pattern r
  ok (t ∷ rest)

abbrev pub only : List String → Fields → Bool
only allowed f = all (λ e. contains e.0 allowed) (entries f)

abbrev pub no_repeats : List String → Bool
no_repeats [] = true
no_repeats (x ∷ r) = not (contains x r) && no_repeats r

-- isinstance(value, list), with a default where the key is missing
abbrev pub as_list : List Json → String → Option Json → Checked (List Json)
as_list default code none = ok default
as_list default code (some (array xs)) = ok (items xs)
as_list default code (some _) = err code

-- isinstance(value, int) and not isinstance(value, bool) and value >= 0
abbrev pub as_number : ℕ → String → Option Json → Checked ℕ
as_number default code none = ok default
as_number default code (some (int (pos n))) = ok n
as_number default code (some _) = err code

-- visitedSystems and hopCount
unfoldable pub read_route : String → ℕ → Fields → Checked (List String × ℕ)
read_route broker_id max_hops body = do
  values ← as_list [] "invalid_route" (get_field "visitedSystems" body)
  insist (leb (length values) max_hops) "invalid_route"
  visited ← read_strings 128 is_id values
  insist (no_repeats visited) "route_cycle"
  insist (not (contains broker_id visited)) "route_cycle"
  hop_count ← as_number 0 "hop_limit" (get_field "hopCount" body)
  insist (ltb hop_count max_hops) "hop_limit"
  insist (eqb hop_count (length visited)) "invalid_route"
  ok (visited, hop_count)

unfoldable pub read_priority : Fields → Checked ℕ
read_priority body = do
  priority ← as_number 50 "invalid_priority" (get_field "priority" body)
  insist (leb priority 100) "invalid_priority"
  ok priority
