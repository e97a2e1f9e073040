-- ===== src/Json.antt =====
-- The values that `json.loads` returns and `json.dumps` takes: the program's dynamic data.
use Prim.Native.Nat.{ℕ}
use Prim.Native.String.{String}
use go7_spark_broker.Prelude.{Bool, Option, none, some, List, [], ◌∷◌, if◌then◌else◌, ◌==◌}

-- `negsuc n` is -(n + 1).
pub data ℤ : Type 0 where
  pos : ℕ → ℤ
  negsuc : ℕ → ℤ

-- Every finite double is a whole multiple of 2⁻¹⁰⁷⁴: `finite m` is m · 2⁻¹⁰⁷⁴.
pub data Float : Type 0 where
  finite : ℤ → Float
  infinite neg_infinite not_a_number : Float

mutual
  pub data Json : Type 0 where
    null : Json
    boolean : Bool → Json
    int : ℤ → Json
    real : Float → Json
    text : String → Json
    array : Items → Json
    object : Fields → Json

  pub data Items : Type 0 where
    nil : Items
    cons : Json → Items → Items

  pub data Fields : Type 0 where
    end : Fields
    field : String → Json → Fields → Fields

abbrev pub fields : List (String × Json) → Fields
fields [] = end
fields ((k, v) ∷ r) = field k v (fields r)

-- A dictionary display, `{k: v, …}`.
abbrev pub dict : List (String × Json) → Json
dict l = object (fields l)

abbrev pub entries : Fields → List (String × Json)
entries end = []
entries (field k v r) = (k, v) ∷ entries r

abbrev pub items : Items → List Json
items nil = []
items (cons x r) = x ∷ items r

abbrev pub get_field : String → Fields → Option Json
get_field k end = none
get_field k (field j v r) = if j == k then some v else get_field k r

-- `value.get(k)`, at a value that is an object
abbrev pub get : String → Json → Option Json
get k (object r) = get_field k r
get k other = none

-- `{"k": v, **rest}`, at an object: a value of `rest` under the key stays.
abbrev pub with_field : String → Json → Json → Json
with_field k v (object r) = elim (get_field k r) [ none ↦ object (field k v r) | some _ ↦ object r ]
with_field k v other = object (field k v end)
