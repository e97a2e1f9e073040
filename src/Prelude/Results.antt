-- ===== src/Prelude/Results.antt =====
-- Functions that may raise: a value, or the exception.
use mathlib.Core.Path.{◌≡◌, refl, subst}
use mathlib.Core.Logic.{◌⊎◌, inl, inr}

pub data Result {ℓ κ} (E : Type ℓ) (A : Type κ) : Type (ℓ ⊔ κ) where
  ok : A → Result E A
  err : E → Result E A

-- The chains of a `do` block, with a value or without.
infixl 5 ◌>>=◌
abbrev pub ◌>>=◌ {ℓ κ μ} :
    {E : Type ℓ} {A : Type κ} {B : Type μ} → Result E A → (A → Result E B) → Result E B
err e >>= rest = err e
ok a >>= rest = rest a

infixl 5 ◌>>◌
abbrev pub ◌>>◌ {ℓ μ} : {E : Type ℓ} {B : Type μ} → Result E (Unit {0}) → Result E B → Result E B
first >> rest = first >>= λ _. rest

-- What holds of the value, if there is one.
abbrev pub Ensures {ℓ κ μ} : {E : Type ℓ} {A : Type κ} → (A → Type μ) → Result E A → Type μ
Ensures P (ok a) = P a
Ensures P (err e) = Unit

pub Ensures_ok {ℓ κ μ} :
    {E : Type ℓ} {A : Type κ} (P : A → Type μ) (r : Result E A) {a : A}
    → Ensures P r
    → r ≡ ok a
    → P a
Ensures_ok P r h e = rw e at h

pub Result-cases {ℓ κ} :
    {E : Type ℓ} {A : Type κ} (r : Result E A) → ((a : A) × (r ≡ ok a)) ⊎ ((e : E) × (r ≡ err e))
Result-cases (ok a) = inl (a, refl)
Result-cases (err e) = inr (e, refl)

-- The same, shut, for a function of many steps.
module _ {E A B : Type 0} where
  infixl 10 ◌>>-◌
  unfoldable pub ◌>>-◌ : Result E A → (A → Result E B) → Result E B
  (ok a) >>- f = f a
  (err e) >>- f = err e

-- A value that is returned has the property.
pub record Returns {E A : Type 0} (P : A → Type 0) (r : Result E A) : Type 0 where
  pub at : (a : A) → r ≡ ok a → P a

module _ {E A B : Type 0} {P : B → Type 0} where
  returned :
      (r : Result E A) (f : A → Result E B)
      → ((a : A) → r ≡ ok a → Returns P (f a))
      → (b : B) → (r >>- f) ≡ ok b
      → P b
  unfolding ◌>>-◌
  returned (ok a) f k b e = (k a refl).at b e
  returned (err x) f k b e = absurd (cc)

  pub Returns-bind :
      (r : Result E A) (f : A → Result E B)
      → ((a : A) → r ≡ ok a → Returns P (f a))
      → Returns P (r >>- f)
  Returns-bind r f k = record { at = returned r f k }

module _ {E A : Type 0} {P : A → Type 0} where
  pub Returns-ok : (a : A) → P a → Returns {E = E} P (ok a)
  Returns-ok a h = record { at = λ b e. subst P (same b e) h }
    where
      same : (b : A) → ◌≡◌ {A = Result E A} (ok a) (ok b) → a ≡ b
      same b e = cc
