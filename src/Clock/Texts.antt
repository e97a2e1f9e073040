-- ===== src/Clock/Texts.antt =====
-- `utc_now` of spark_broker/store.py: the text of an instant as code points, and its place in the order
-- of texts.
use go7_spark_broker.Prelude.{
  ℕ, zero, suc, ◌+◌, ◌*◌, ◌/◌, ◌%◌, ◌≡◌, ◌<◌, refl, sym, ◌∙◌, inl, inr, Bool, true, false, ◌&&◌,
  ◌||◌, List, [], ◌∷◌, ◌++◌, arith, length, eqb, ltb, Bool-cases, if◌then◌else◌,
}
use go7_spark_broker.Clock.{Stamp, second, rank}

-- `a < b` of two texts, as SQL compares them
unfoldable pub codes_lt : List ℕ → List ℕ → Bool
codes_lt [] [] = false
codes_lt [] (d ∷ t) = true
codes_lt (c ∷ s) [] = false
codes_lt (c ∷ s) (d ∷ t) = ltb c d || (eqb c d && codes_lt s t)

-- The decimal digits of a number, `k` of them.
unfoldable pub digits : ℕ → ℕ → List ℕ
digits zero n = []
digits (suc k) n = digits k (n / 10) ++ ((48 + n % 10) ∷ [])

-- The fraction of a second, which `isoformat` leaves out where it is zero, and the "Z" for "+00:00".
unfoldable pub suffix : ℕ → List ℕ
unfolding digits
suffix f = if eqb f 0 then 90 ∷ [] else 46 ∷ (digits 6 f ++ (90 ∷ []))

-- `date` is the text of a whole second without its offset, `YYYY-MM-DDTHH:MM:SS`.
unfoldable pub utc_text : (ℕ → List ℕ) → Stamp → List ℕ
unfolding suffix
utc_text date t = date (t / second) ++ suffix (t % second)

-- The seconds up to the year 10000, where datetime ends.
abbrev pub date_limit : ℕ
date_limit = 253402300800

-- Dates of that range have one width, and their texts follow each other in time.
pub record IsDate (date : ℕ → List ℕ) : Type 0 where
  pub width : (a b : ℕ) → a < date_limit → b < date_limit → length (date a) ≡ length (date b)
  pub later : (a b : ℕ) → a < b → b < date_limit → codes_lt (date a) (date b) ≡ true

codes_lt-asym : (s t : List ℕ) → codes_lt s t ≡ true → codes_lt t s ≡ false
unfolding codes_lt
codes_lt-asym [] [] h = refl
codes_lt-asym [] (d ∷ t) h = refl
codes_lt-asym (c ∷ s) [] h = absurd (cc)
codes_lt-asym (c ∷ s) (d ∷ t) h = ground (arith, codes_lt-asym s t)

codes_lt_refl : (s : List ℕ) → codes_lt s s ≡ false
unfolding codes_lt
codes_lt_refl [] = refl
codes_lt_refl (c ∷ s) = ground (arith, codes_lt_refl s)

-- A prefix of one width decides, or the rest does.
codes_lt-append :
    (s t x y : List ℕ)
    → length s ≡ length t
    → codes_lt s t ≡ true
    → codes_lt (s ++ x) (t ++ y) ≡ true
unfolding codes_lt
codes_lt-append [] [] x y l h = absurd (cc)
codes_lt-append [] (d ∷ t) x y l h = absurd (omega (arith, l))
codes_lt-append (c ∷ s) [] x y l h = absurd (cc)
codes_lt-append (c ∷ s) (d ∷ t) x y l h = ground (arith, codes_lt-append s t x y (omega (arith, l)))

codes_lt-same : (s x y : List ℕ) → codes_lt (s ++ x) (s ++ y) ≡ codes_lt x y
unfolding codes_lt
codes_lt-same [] x y = refl
codes_lt-same (c ∷ s) x y = ground (arith, codes_lt-same s x y)

length-append_one : (s : List ℕ) (c : ℕ) → length (s ++ (c ∷ [])) ≡ length s + 1
length-append_one [] c = refl
length-append_one (d ∷ s) c = omega (arith, length-append_one s c)

pub length-digits : (k n : ℕ) → length (digits k n) ≡ k
unfolding digits
length-digits zero n = refl
length-digits (suc k) n =
    omega (arith, length-append_one (digits k (n / 10)) (48 + n % 10), length-digits k (n / 10))

-- 10 ^ k
abbrev pub ten_to : ℕ → ℕ
ten_to zero = 1
ten_to (suc k) = 10 * ten_to k

digits_last : (c d : ℕ) → c < d → codes_lt (c ∷ []) (d ∷ []) ≡ true
unfolding codes_lt
digits_last c d h = ground (arith, h)

pub codes_lt-digits : (k a b : ℕ) → a < b → b < ten_to k → codes_lt (digits k a) (digits k b) ≡ true
unfolding digits
codes_lt-digits zero a b h l = absurd (omega (arith, h, l))
codes_lt-digits (suc k) a b h l = elim (Bool-cases (ltb (a / 10) (b / 10))) [
  | inl e ↦
      codes_lt-append (digits k (a / 10)) (digits k (b / 10)) _ _
        (length-digits k (a / 10) ∙ sym (length-digits k (b / 10)))
        (codes_lt-digits k (a / 10) (b / 10) (ground (arith, e)) (omega (arith, l)))
  | inr e ↦
      let same : a / 10 ≡ b / 10 = ground (arith, e, h) in
      rw same (
        codes_lt-same (digits k (b / 10)) ((48 + a % 10) ∷ []) ((48 + b % 10) ∷ [])
        ∙ digits_last (48 + a % 10) (48 + b % 10) (omega (arith, same, h)))
]

fraction_order :
    (x y : ℕ)
    → x < y
    → y < 1000000
    → codes_lt (digits 6 x ++ (90 ∷ [])) (digits 6 y ++ (90 ∷ [])) ≡ true
fraction_order x y h l =
    codes_lt-append (digits 6 x) (digits 6 y) _ _ (length-digits 6 x ∙ sym (length-digits 6 y))
      (codes_lt-digits 6 x y h l)

-- Within one second: fractions compare as numbers, and the text without one comes last.
within_order :
    (x y : ℕ)
    → x < 1000000
    → y < 1000000
    → codes_lt (digits 6 x ++ (90 ∷ [])) (digits 6 y ++ (90 ∷ [])) ≡ ltb x y
within_order x y hx hy = elim (Bool-cases (ltb x y)) [
  | inl e ↦ rw e (fraction_order x y (ground (arith, e)) hy)
  | inr e ↦ rw e (elim (Bool-cases (ltb y x)) [
    | inl g ↦ codes_lt-asym _ _ (fraction_order y x (ground (arith, g)) hx)
    | inr g ↦
        let same : x ≡ y = ground (arith, e, g) in rw same (codes_lt_refl (digits 6 y ++ (90 ∷ [])))
  ])
]

-- The place of a fraction in its second.
abbrev place : ℕ → ℕ
place f = if eqb f 0 then 1000000 else f

codes_lt-suffix :
    (x y : ℕ) → x < 1000000 → y < 1000000 → codes_lt (suffix x) (suffix y) ≡ ltb (place x) (place y)
unfolding codes_lt suffix
codes_lt-suffix x y hx hy = elim (Bool-cases (eqb x 0)) [
  | inl a ↦
      rw a (elim (Bool-cases (eqb y 0)) [ inl b ↦ rw b refl | inr b ↦ rw b (ground (arith, hy)) ])
  | inr a ↦ rw a (elim (Bool-cases (eqb y 0)) [
    | inl b ↦ rw b (ground (arith, hx))
    | inr b ↦ rw b (within_order x y hx hy)
  ])
]

module _ (date : ℕ → List ℕ) (d : IsDate date) where
  order_before :
      (a b : Stamp)
      → a / second < b / second
      → b < date_limit * second
      → codes_lt (utc_text date a) (utc_text date b) ≡ true
  unfolding utc_text
  order_before a b h l =
      codes_lt-append (date (a / second)) (date (b / second)) _ _
        (d.width (a / second) (b / second) (omega (arith, h, l)) (omega (arith, l)))
        (d.later (a / second) (b / second) h (omega (arith, l)))

  order_within :
      (a b : Stamp)
      → a / second ≡ b / second
      → codes_lt (utc_text date a) (utc_text date b) ≡ ltb (rank a) (rank b)
  unfolding utc_text
  order_within a b h = rw h (
      codes_lt-same (date (b / second)) (suffix (a % second)) (suffix (b % second))
      ∙ codes_lt-suffix (a % second) (b % second) (omega arith) (omega arith)
      ∙ ground (arith, h))

  -- Up to the year 10000 the text of an instant stands before another one just when its rank is less: the
  -- instant itself, but for one on a whole second, which ranks as a second later.
  pub codes_lt-rank :
      (a b : Stamp)
      → a < date_limit * second
      → b < date_limit * second
      → codes_lt (utc_text date a) (utc_text date b) ≡ ltb (rank a) (rank b)
  codes_lt-rank a b la lb = elim (Bool-cases (ltb (a / second) (b / second))) [
    | inl e ↦ order_before a b (ground (arith, e)) lb ∙ ground (arith, e)
    | inr e ↦ elim (Bool-cases (ltb (b / second) (a / second))) [
      | inl g ↦ codes_lt-asym _ _ (order_before b a (ground (arith, g)) la) ∙ ground (arith, g)
      | inr g ↦ order_within a b (ground (arith, e, g))
    ]
  ]
