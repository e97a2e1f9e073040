-- ===== src/Text.antt =====
-- The regular expressions of the sources, as tests of texts. All are matched in full.
use Prim.Native.Char.{code}
use Prim.Native.String.{◌++◌}
use go7_spark_broker.Prelude.{
  ℕ, zero, suc, ◌/◌, ◌%◌, String, Bool, true, false, ◌&&◌, ◌||◌, List, [], ◌∷◌, all, length, leb,
  eqb, if◌then◌else◌,
}

abbrev pub codes : String → List ℕ
codes String.[] = []
codes (String.◌∷◌ x rest) = code x ∷ codes rest

-- len(value)
abbrev pub size : String → ℕ
size t = length (codes t)

abbrev pub is_lower : ℕ → Bool
is_lower c = leb b'a' c && leb c b'z'

abbrev pub is_upper : ℕ → Bool
is_upper c = leb b'A' c && leb c b'Z'

abbrev pub is_digit : ℕ → Bool
is_digit c = leb b'0' c && leb c b'9'

abbrev pub is_hex : ℕ → Bool
is_hex c = is_digit c || (leb b'a' c && leb c b'f')

-- [a-z0-9]
abbrev pub is_word : ℕ → Bool
is_word c = is_lower c || is_digit c

-- [._-]
abbrev pub is_joint : ℕ → Bool
is_joint c = eqb c b'.' || eqb c b'_' || eqb c b'-'

-- The rest of an identifier behind a letter or digit (`true`) or a joint (`false`), with the number
-- of joints that may still come.
unfoldable pub identifier_rest : Bool → ℕ → List ℕ → Bool
identifier_rest inside n [] = inside
identifier_rest false n (c ∷ r) = is_word c && identifier_rest true n r
identifier_rest true zero (c ∷ r) = is_word c && identifier_rest true zero r
identifier_rest true (suc n) (c ∷ r) =
    let joined = is_joint c && identifier_rest false n r in
    if is_word c then identifier_rest true (suc n) r else joined

abbrev pub identifier_codes : List ℕ → Bool
identifier_codes [] = false
identifier_codes (c ∷ r) = is_lower c && identifier_rest true 7 r

-- `_IDENTIFIER` of resources.py: ^[a-z][a-z0-9]*(?:[._-][a-z0-9]+){0,7}$
unfoldable pub is_identifier : String → Bool
unfolding identifier_rest
is_identifier t = identifier_codes (codes t)

-- The rest of a list behind a prefix, if it starts with it.
unfoldable pub follows : List ℕ → List ℕ → (List ℕ → Bool) → Bool
follows [] l p = p l
follows (c ∷ r) [] p = false
follows (c ∷ r) (d ∷ l) p = eqb c d && follows r l p

-- [a-f0-9]{n}
abbrev pub hex_digits : ℕ → List ℕ → Bool
hex_digits n l = eqb (length l) n && all is_hex l

-- prefix[a-f0-9]{32}
unfoldable pub is_tagged : String → String → Bool
unfolding follows
is_tagged prefix t = follows (codes prefix) (codes t) (hex_digits 32)

-- [a-f0-9]{64}
abbrev pub is_sha256 : String → Bool
is_sha256 t = hex_digits 64 (codes t)

abbrev pub is_fence_char : ℕ → Bool
is_fence_char c = is_upper c || is_lower c || is_digit c || eqb c b'_'

-- fence_[A-Za-z0-9_]{1,240}
unfoldable pub is_fence : String → Bool
unfolding follows
is_fence t =
    follows (codes "fence_") (codes t)
      (λ l. leb 1 (length l) && leb (length l) 240 && all is_fence_char l)

-- The pieces of an f-string, one after the other.
abbrev pub joined : List String → String
joined [] = ""
joined (t ∷ r) = t ++ joined r

-- str(n) of a natural number. The number itself is fuel enough, since a tenth of it is less.
abbrev pub digit : ℕ → String
digit n =
    if eqb n 0
    then "0"
    else if eqb n 1
    then "1"
    else if eqb n 2
    then "2"
    else if eqb n 3
    then "3"
    else if eqb n 4
    then "4"
    else if eqb n 5
    then "5"
    else if eqb n 6
    then "6"
    else if eqb n 7
    then "7"
    else if eqb n 8
    then "8"
    else "9"

abbrev decimal_from : ℕ → ℕ → String
decimal_from zero n = digit (n % 10)
decimal_from (suc fuel) n =
    let rest = decimal_from fuel (n / 10) in if leb n 9 then digit n else rest ++ digit (n % 10)

unfoldable pub decimal : ℕ → String
decimal n = decimal_from n n
