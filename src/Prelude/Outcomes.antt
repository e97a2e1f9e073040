-- ===== src/Prelude/Outcomes.antt =====
-- What a method that changes an object gives, where it returns and where it raises.
use mathlib.Core.Path.{◌≡◌, refl}
use mathlib.Core.Bool.{Bool, true, false}
use go7_spark_broker.Prelude.Tests.{if◌then◌else◌}
use go7_spark_broker.Prelude.Results.{Result, ok, err}
use go7_spark_broker.Prelude.Exec.{
  Exec, pure, raise, lift, gets, modify, continue, ◌>>>=◌, rescue, catch, resume, attempt, Keeps,
}

abbrev pub Outcome :
    {S E A : Type 0} → (A → S → Type 0) → (E → S → Type 0) → Result E A → S → Type 0
Outcome Q R (ok a) s = Q a s
Outcome Q R (err e) s = R e s

-- From a state with `P`, `m` returns in a state with `Q` or raises in one with `R`.
pub record Gives {S E A : Type 0} (P : S → Type 0) (m : Exec S E A) (Q : A → S → Type 0)
    (R : E → S → Type 0) : Type 0 where
  pub at : (s : S) → P s → Outcome Q R (m s).0 (m s).1

module _ {S E A : Type 0} where
  pub Gives-pure :
      (Q : A → S → Type 0) {R : E → S → Type 0} (a : A) → Gives (Q a) (pure {E = E} a) Q R
  unfolding pure
  Gives-pure Q a = record { at = λ s h. h }

  pub Gives-raise :
      (R : E → S → Type 0) {Q : A → S → Type 0} (e : E) → Gives (R e) (raise {A = A} e) Q R
  unfolding raise
  Gives-raise R e = record { at = λ s h. h }

  pub Gives-gets :
      (f : S → A) (P : S → Type 0) {R : E → S → Type 0} → Gives P (gets {E = E} f) (λ _. P) R
  unfolding gets
  Gives-gets f P = record { at = λ s h. h }

  spread : (P : S → Type 0) (r : Result E A) (s : S) → P s → Outcome (λ _. P) (λ _. P) r s
  spread P (ok a) s h = h
  spread P (err e) s h = h

  pub Gives-Keeps : {P : S → Type 0} {m : Exec S E A} → Keeps P m → Gives P m (λ _. P) (λ _. P)
  Gives-Keeps {P} {m} k = record { at = λ s h. spread P (m s).0 (m s).1 (k.at s h) }

  weaken :
      (Q Q' : A → S → Type 0) (R R' : E → S → Type 0) (r : Result E A) (s : S)
      → ((a : A) (s : S) → Q a s → Q' a s)
      → ((e : E) (s : S) → R e s → R' e s)
      → Outcome Q R r s
      → Outcome Q' R' r s
  weaken Q Q' R R' (ok a) s q r h = q a s h
  weaken Q Q' R R' (err e) s q r h = r e s h

  pub Gives-weaken :
      {P : S → Type 0} {m : Exec S E A} {Q Q' : A → S → Type 0} {R R' : E → S → Type 0}
      → Gives P m Q R
      → ((a : A) (s : S) → Q a s → Q' a s)
      → ((e : E) (s : S) → R e s → R' e s)
      → Gives P m Q' R'
  Gives-weaken {P} {m} {Q} {Q'} {R} {R'} g q r = record {
    at = λ s h. weaken Q Q' R R' (m s).0 (m s).1 q r (g.at s h);
  }

  pub Gives-before :
      {P P' : S → Type 0} {m : Exec S E A} {Q : A → S → Type 0} {R : E → S → Type 0}
      → ((s : S) → P' s → P s)
      → Gives P m Q R
      → Gives P' m Q R
  Gives-before f g = record { at = λ s h. g.at s (f s h) }

  -- A fact that does not depend on the state may be used to choose the rule.
  pub Gives-known :
      {X : Type 0} {P : S → Type 0} {m : Exec S E A} {Q : A → S → Type 0} {R : E → S → Type 0}
      → (X → Gives P m Q R)
      → Gives (λ s. X × P s) m Q R
  Gives-known k = record { at = λ s h. (k h.0).at s h.1 }

  pub Gives-if :
      {P : S → Type 0} (b : Bool) (m n : Exec S E A) {Q : A → S → Type 0} {R : E → S → Type 0}
      → (b ≡ true → Gives P m Q R)
      → (b ≡ false → Gives P n Q R)
      → Gives P (if b then m else n) Q R
  Gives-if true m n gm gn = gm refl
  Gives-if false m n gm gn = gn refl

  handled :
      (Q : A → S → Type 0) (R R' : E → S → Type 0) (r : Result E A) (handler : E → Exec S E A)
      (s : S)
      → ((e : E) → Gives (R e) (handler e) Q R')
      → Outcome Q R r s
      → Outcome Q R' (rescue handler r s).0 (rescue handler r s).1
  handled Q R R' (ok a) handler s k h = h
  handled Q R R' (err e) handler s k h = (k e).at s h

  pub Gives-catch :
      {P : S → Type 0} {Q : A → S → Type 0} {R R' : E → S → Type 0} (m : Exec S E A)
      (handler : E → Exec S E A)
      → Gives P m Q R
      → ((e : E) → Gives (R e) (handler e) Q R')
      → Gives P (catch m handler) Q R'
  unfolding catch
  Gives-catch {P} {Q} {R} {R'} m handler g k = record {
    at = λ s h. handled Q R R' (m s).0 handler (m s).1 k (g.at s h);
  }

module _ {S E : Type 0} where
  pub Gives-modify :
      (f : S → S) {P Q : S → Type 0} {R : E → S → Type 0}
      → ((s : S) → P s → Q (f s))
      → Gives P (modify {E = E} f) (λ _. Q) R
  unfolding modify
  Gives-modify f k = record { at = λ s h. k s h }

module _ {S E A B : Type 0} where
  continued :
      (Q : A → S → Type 0) (Q' : B → S → Type 0) (R : E → S → Type 0) (r : Result E A)
      (f : A → Exec S E B) (s : S)
      → ((a : A) → Gives (Q a) (f a) Q' R)
      → Outcome Q R r s
      → Outcome Q' R (continue r f s).0 (continue r f s).1
  continued Q Q' R (ok a) f s k h = (k a).at s h
  continued Q Q' R (err e) f s k h = h

  pub Gives-bind :
      {P : S → Type 0} {Q : A → S → Type 0} {Q' : B → S → Type 0} {R : E → S → Type 0}
      (m : Exec S E A) (f : A → Exec S E B)
      → Gives P m Q R
      → ((a : A) → Gives (Q a) (f a) Q' R)
      → Gives P (m >>>= f) Q' R
  unfolding ◌>>>=◌
  Gives-bind {P} {Q} {Q'} {R} m f g k = record {
    at = λ s h. continued Q Q' R (m s).0 f (m s).1 k (g.at s h);
  }

  resumed :
      (Q : A → S → Type 0) (Q' : B → S → Type 0) (R R' : E → S → Type 0) (r : Result E A)
      (f : A → Exec S E B) (handler : E → Exec S E B) (s : S)
      → ((a : A) → Gives (Q a) (f a) Q' R')
      → ((e : E) → Gives (R e) (handler e) Q' R')
      → Outcome Q R r s
      → Outcome Q' R' (resume r f handler s).0 (resume r f handler s).1
  resumed Q Q' R R' (ok a) f handler s kf kh h = (kf a).at s h
  resumed Q Q' R R' (err e) f handler s kf kh h = (kh e).at s h

  pub Gives-attempt :
      {P : S → Type 0} {Q : A → S → Type 0} {Q' : B → S → Type 0} {R R' : E → S → Type 0}
      (m : Exec S E A) (f : A → Exec S E B) (handler : E → Exec S E B)
      → Gives P m Q R
      → ((a : A) → Gives (Q a) (f a) Q' R')
      → ((e : E) → Gives (R e) (handler e) Q' R')
      → Gives P (attempt m f handler) Q' R'
  unfolding attempt
  Gives-attempt {P} {Q} {Q'} {R} {R'} m f handler g kf kh = record {
    at = λ s h. resumed Q Q' R R' (m s).0 f handler (m s).1 kf kh (g.at s h);
  }

  lifted :
      (P : S → Type 0) (Q : B → S → Type 0) (R : E → S → Type 0) (r : Result E A)
      (f : A → Exec S E B) (s : S)
      → ((a : A) → r ≡ ok a → Gives P (f a) Q R)
      → ((e : E) (s : S) → P s → R e s)
      → P s
      → Outcome Q R (continue r f s).0 (continue r f s).1
  lifted P Q R (ok a) f s k x h = (k a refl).at s h
  lifted P Q R (err e) f s k x h = x e s h

  -- Behind a pure result the equation that it gives is known.
  pub Gives-lifted :
      {P : S → Type 0} {Q : B → S → Type 0} {R : E → S → Type 0} (r : Result E A)
      (f : A → Exec S E B)
      → ((a : A) → r ≡ ok a → Gives P (f a) Q R)
      → ((e : E) (s : S) → P s → R e s)
      → Gives P (lift r >>>= f) Q R
  unfolding ◌>>>=◌ lift
  Gives-lifted {P} {Q} {R} r f k x = record { at = λ s h. lifted P Q R r f s k x h }

joined :
    {S E A : Type 0} (P : S → Type 0) (r : Result E A) (s : S) → Outcome (λ _. P) (λ _. P) r s → P s
joined P (ok a) s h = h
joined P (err e) s h = h

module _ {S E A : Type 0} {P : S → Type 0} where
  pub Keeps-Gives : {m : Exec S E A} → Gives P m (λ _. P) (λ _. P) → Keeps P m
  Keeps-Gives {m} g = record { at = λ s h. joined P (m s).0 (m s).1 (g.at s h) }
