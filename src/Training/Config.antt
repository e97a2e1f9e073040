-- ===== src/Training/Config.antt =====
-- `TrainingControllerPolicy.from_file`: the configuration of the controller.
use mathlib.Core.Path.{subst}
use go7_spark_broker.Prelude.{
  refl, ℕ, ◌-◌, ◌≤◌, ◌≡◌, ◌≢◌, String, Bool, true, false, not, ◌&&◌, ◌||◌, Option, none, some, List,
  [], ◌∷◌, arith, all, length, take, drop, Result, ok, err, ◌>>-◌ as ◌>>=◌, Returns, Returns-bind,
  Returns-ok, leb, eqb, eq_iff, ◌==◌, if◌then◌else◌,
}
use go7_spark_broker.Text.{codes, is_identifier, is_upper, is_word, is_joint}
use go7_spark_broker.Json.{Json, boolean, int, pos, negsuc, text, object, Fields, get_field}
use go7_spark_broker.Resources.Coordinator.{says_count}
use go7_spark_broker.Resources.Probe.{names, covers}
use go7_spark_broker.Training.Types.{Policy}

-- What pathlib says of paths: whether one is absolute, what one resolves to, whether one resolves to a place below a root, and
-- whether two are equal.
pub record Paths : Type 0 where
  pub is_absolute : String → Bool
  pub resolve : String → String
  pub is_inside : String → String → Bool
  pub are_same : String → String → Bool

pub record Config : Type 0 where
  pub policy : Policy
  pub checkpoint_root : String
  pub checkpoint_receipt_file : String
  pub state_file : String
  pub authority_file : String

abbrev pub Checked : Type 0 → Type 0
Checked A = Result String A

infixl 10 ◌>>◌
abbrev ◌>>◌ : {B : Type 0} → Checked (Unit {0}) → Checked B → Checked B
m >> n = m >>= λ _. n

abbrev value_error : {A : Type 0} → Checked A
value_error = err "ValueError"

abbrev demand : Bool → Checked (Unit {0})
demand true = ok tt
demand false = value_error

-- [A-Za-z0-9:_.@\-]
abbrev is_unit_char : ℕ → Bool
is_unit_char c = is_upper c || is_word c || is_joint c || eqb c b':' || eqb c b'@'

abbrev same_codes : List ℕ → List ℕ → Bool
same_codes [] [] = true
same_codes [] (d ∷ r) = false
same_codes (c ∷ r) [] = false
same_codes (c ∷ r) (d ∷ s) = eqb c d && same_codes r s

abbrev unit_codes : List ℕ → Bool
unit_codes l =
    let n = length l - 8 in
    leb 9 (length l)
    && leb (length l) 248
    && all is_unit_char (take n l)
    && same_codes (drop n l) (codes ".service")

-- `_SYSTEMD_UNIT`: ^[A-Za-z0-9:_.@\-]{1,240}\.service$
unfoldable pub is_unit : String → Bool
is_unit t = unit_codes (codes t)

abbrev text_with : (String → Bool) → Option Json → Checked String
text_with p (some (text t)) = if p t then ok t else value_error
text_with p _ = value_error

abbrev flag_or : Bool → Option Json → Checked Bool
flag_or b none = ok b
flag_or b (some (boolean c)) = ok c
flag_or b _ = value_error

abbrev bounded_or : ℕ → Option Json → Checked ℕ
bounded_or n none = ok n
bounded_or n (some (int (pos k))) = if leb 1 k && leb k 3600 then ok k else value_error
bounded_or n _ = value_error

abbrev required : List String
required =
    "version" ∷ "controllerId" ∷ "profileId" ∷ "unit" ∷ "normalMode" ∷ "releasedMode"
    ∷ "checkpointRoot" ∷ "checkpointReceiptFile" ∷ "stateFile" ∷ "authorityFile" ∷ []

abbrev allowed : List String
allowed = "allowFreshStart" ∷ "stopTimeoutSeconds" ∷ required

module _ (paths : Paths) where
  open paths use {is_absolute}

  unfoldable pub read_fields : Fields → Checked Config
  unfolding is_identifier is_unit
  read_fields f = do
    unit ← text_with is_unit (get_field "unit" f)
    given ← text_with is_absolute (get_field "checkpointRoot" f)
    let root = paths.resolve given
    receipt ← text_with is_absolute (get_field "checkpointReceiptFile" f)
    demand (paths.is_inside root receipt)
    state ← text_with is_absolute (get_field "stateFile" f)
    authority ← text_with is_absolute (get_field "authorityFile" f)
    demand (not (paths.are_same state authority))
    normal ← text_with is_identifier (get_field "normalMode" f)
    released ← text_with is_identifier (get_field "releasedMode" f)
    demand (not (normal == released))
    fresh ← flag_or false (get_field "allowFreshStart" f)
    timeout ← bounded_or 600 (get_field "stopTimeoutSeconds" f)
    controller ← text_with is_identifier (get_field "controllerId" f)
    profile ← text_with is_identifier (get_field "profileId" f)
    ok (record {
      policy = record {
        controller_id = controller;
        profile_id = profile;
        unit = unit;
        normal_mode = normal;
        released_mode = released;
        allow_fresh_start = fresh;
        stop_timeout_seconds = timeout;
      };
      checkpoint_root = root;
      checkpoint_receipt_file = receipt;
      state_file = state;
      authority_file = authority;
    })

  unfoldable pub read_config : Json → Checked Config
  unfolding read_fields
  read_config (object f) = do
    demand (
        covers (names f) required
        && covers allowed (names f)
        && says_count 1 (get_field "version" f))
    read_fields f
  read_config _ = value_error

  -- What the controller relies on in its configuration.
  pub record IsSound (c : Config) : Type 0 where
    pub unit : is_unit c.policy.unit ≡ true
    pub modes : c.policy.normal_mode ≢ c.policy.released_mode
    pub positive : 1 ≤ c.policy.stop_timeout_seconds
    pub bounded : c.policy.stop_timeout_seconds ≤ 3600
    pub inside : paths.is_inside c.checkpoint_root c.checkpoint_receipt_file ≡ true
    pub apart : paths.are_same c.state_file c.authority_file ≡ false

-- What a test that was passed says.
demand_lem : (b : Bool) (u : Unit {0}) → demand b ≡ ok u → b ≡ true
demand_lem true u e = refl
demand_lem false u e = absurd (cc)

not_lem : (b : Bool) (u : Unit {0}) → demand (not b) ≡ ok u → b ≡ false
not_lem true u e = absurd (cc)
not_lem false u e = refl

differ_lem : (s t : String) (u : Unit {0}) → demand (not (s == t)) ≡ ok u → s ≢ t
differ_lem s t u e q = ground (arith, q, not_lem (s == t) u e, eq_iff s t)

chosen_lem :
    {A : Type 0} (b : Bool) (x y : A)
    → (if b then ok x else value_error) ≡ ok y
    → (b ≡ true) × (x ≡ y)
chosen_lem true x y e = (refl, cc)
chosen_lem false x y e = absurd (cc)

text_with_lem :
    (p : String → Bool) (o : Option Json) (t : String) → text_with p o ≡ ok t → p t ≡ true
text_with_lem p none t e = absurd (cc)
text_with_lem p (some (text s)) t e =
    let (holds, same) = chosen_lem (p s) s t e in subst (λ z. p z ≡ true) same holds
text_with_lem p (some Json.null) t e = absurd (cc)
text_with_lem p (some (boolean b)) t e = absurd (cc)
text_with_lem p (some (int z)) t e = absurd (cc)
text_with_lem p (some (Json.real z)) t e = absurd (cc)
text_with_lem p (some (Json.array z)) t e = absurd (cc)
text_with_lem p (some (object z)) t e = absurd (cc)

bounded_or_lem : (o : Option Json) (k : ℕ) → bounded_or 600 o ≡ ok k → (1 ≤ k) × (k ≤ 3600)
bounded_or_lem none k e =
    subst (λ z. (1 ≤ z) × (z ≤ 3600)) (same 600 k e) (omega arith, omega arith)
  where
    same : (a b : ℕ) → ◌≡◌ {A = Result String ℕ} (ok a) (ok b) → a ≡ b
    same a b e = cc
bounded_or_lem (some (int (pos n))) k e =
    let (holds, same) = chosen_lem (leb 1 n && leb n 3600) n k e in
    subst (λ z. (1 ≤ z) × (z ≤ 3600)) same (ground (arith, holds), ground (arith, holds))
bounded_or_lem (some (int (negsuc n))) k e = absurd (cc)
bounded_or_lem (some Json.null) k e = absurd (cc)
bounded_or_lem (some (boolean b)) k e = absurd (cc)
bounded_or_lem (some (text b)) k e = absurd (cc)
bounded_or_lem (some (Json.real z)) k e = absurd (cc)
bounded_or_lem (some (Json.array z)) k e = absurd (cc)
bounded_or_lem (some (object z)) k e = absurd (cc)

module _ (paths : Paths) where
  open paths use {is_absolute}

  fields-IsSound : (f : Fields) → Returns (IsSound paths) (read_fields paths f)
  unfolding read_fields
  fields-IsSound f = Returns-bind (text_with is_unit (get_field "unit" f)) _ (λ unit u.
      Returns-bind _ _ (λ root _. Returns-bind _ _ (λ receipt _. Returns-bind _ _ (λ _ inside.
        Returns-bind _ _ (λ state _. Returns-bind _ _ (λ authority _. Returns-bind _ _ (λ _ apart.
          Returns-bind _ _ (λ normal _. Returns-bind _ _ (λ released _.
            Returns-bind _ _ (λ _ differ. Returns-bind _ _ (λ fresh _.
              Returns-bind _ _ (λ timeout t. Returns-bind _ _ (λ controller _.
                Returns-bind _ _ (λ profile _. Returns-ok _ (record {
                  unit = text_with_lem is_unit (get_field "unit" f) unit u;
                  modes = differ_lem normal released _ differ;
                  positive = (bounded_or_lem (get_field "stopTimeoutSeconds" f) timeout t).0;
                  bounded = (bounded_or_lem (get_field "stopTimeoutSeconds" f) timeout t).1;
                  inside = demand_lem _ _ inside;
                  apart = not_lem (paths.are_same state authority) _ apart;
                })))))))))))))))

  sound : (j : Json) → Returns (IsSound paths) (read_config paths j)
  unfolding read_config
  sound (object f) =
      Returns-bind
        (demand (
          covers (names f) required
          && covers allowed (names f)
          && says_count 1 (get_field "version" f)))
        (λ _. read_fields paths f) (λ _ _. fields-IsSound f)
  sound Json.null = record { at = λ c e. absurd (cc) }
  sound (boolean b) = record { at = λ c e. absurd (cc) }
  sound (int z) = record { at = λ c e. absurd (cc) }
  sound (text t) = record { at = λ c e. absurd (cc) }
  sound (Json.real z) = record { at = λ c e. absurd (cc) }
  sound (Json.array z) = record { at = λ c e. absurd (cc) }

  -- A configuration that is accepted names a unit, two modes and two files that differ, a receipt below
  -- the checkpoint root, and a time limit between one second and one hour.
  pub read_config-IsSound : (j : Json) (c : Config) → read_config paths j ≡ ok c → IsSound paths c
  read_config-IsSound j c e = (sound j).at c e
