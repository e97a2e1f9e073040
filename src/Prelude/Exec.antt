-- ===== src/Prelude/Exec.antt =====
-- Methods that change an object and may raise. What was written before an exception stays written.
use mathlib.Core.Path.{◌≡◌, refl}
use mathlib.Core.Bool.{Bool, true, false}
use go7_spark_broker.Prelude.Tests.{if◌then◌else◌}
use go7_spark_broker.Prelude.Results.{Result, ok, err}

abbrev pub Exec : Type 0 → Type 0 → Type 0 → Type 0
Exec S E A = S → Result E A × S

module _ {S E A : Type 0} where
  unfoldable pub pure : A → Exec S E A
  pure a s = (ok a, s)

  unfoldable pub raise : E → Exec S E A
  raise e s = (err e, s)

  unfoldable pub lift : Result E A → Exec S E A
  lift r s = (r, s)

  unfoldable pub gets : (S → A) → Exec S E A
  gets f s = (ok (f s), s)

module _ {S E : Type 0} where
  unfoldable pub modify : (S → S) → Exec S E (Unit {0})
  modify f s = (ok tt, f s)

  unfoldable pub guard : Bool → E → Exec S E (Unit {0})
  guard true e s = (ok tt, s)
  guard false e s = (err e, s)

module _ {S E A B : Type 0} where
  abbrev pub continue : Result E A → (A → Exec S E B) → Exec S E B
  continue (ok a) f s = f a s
  continue (err e) f s = (err e, s)

  infixl 10 ◌>>>=◌
  unfoldable pub ◌>>>=◌ : Exec S E A → (A → Exec S E B) → Exec S E B
  unfolding pure raise lift gets modify guard
  ◌>>>=◌ m f s = let (r, s') = m s in continue r f s'

-- try: m, except: handler
module _ {S E A : Type 0} where
  abbrev pub rescue : (E → Exec S E A) → Result E A → Exec S E A
  rescue handler (ok a) s = (ok a, s)
  rescue handler (err e) s = handler e s

  unfoldable pub catch : Exec S E A → (E → Exec S E A) → Exec S E A
  catch m handler s = let (r, s') = m s in rescue handler r s'

-- try: a = m, except: handler, else: f(a)
module _ {S E A B : Type 0} where
  abbrev pub resume : Result E A → (A → Exec S E B) → (E → Exec S E B) → Exec S E B
  resume (ok a) f handler s = f a s
  resume (err e) f handler s = handler e s

  unfoldable pub attempt : Exec S E A → (A → Exec S E B) → (E → Exec S E B) → Exec S E B
  attempt m f handler s = let (r, s') = m s in resume r f handler s'

-- `m` keeps `P`, whether it returns or raises.
pub record Keeps {S E A : Type 0} (P : S → Type 0) (m : Exec S E A) : Type 0 where
  pub at : (s : S) → P s → P (m s).1

module _ {S E A : Type 0} {P : S → Type 0} where
  pub Keeps-pure : (a : A) → Keeps P (pure {E = E} a)
  unfolding pure
  Keeps-pure a = record { at = λ s h. h }

  pub Keeps-raise : (e : E) → Keeps P (raise {A = A} e)
  unfolding raise
  Keeps-raise e = record { at = λ s h. h }

  pub Keeps-lift : (r : Result E A) → Keeps P (lift r)
  unfolding lift
  Keeps-lift r = record { at = λ s h. h }

  pub Keeps-gets : (f : S → A) → Keeps P (gets {E = E} f)
  unfolding gets
  Keeps-gets f = record { at = λ s h. h }

  pub Keeps-if :
      (b : Bool) (m n : Exec S E A) → Keeps P m → Keeps P n → Keeps P (if b then m else n)
  Keeps-if true m n km kn = km
  Keeps-if false m n km kn = kn

module _ {S E : Type 0} {P : S → Type 0} where
  pub Keeps-guard : (b : Bool) (e : E) → Keeps P (guard b e)
  unfolding guard
  Keeps-guard true e = record { at = λ s h. h }
  Keeps-guard false e = record { at = λ s h. h }

module _ {S E A B : Type 0} {P : S → Type 0} where
  keeps_continue :
      (r : Result E A) (f : A → Exec S E B) (s : S)
      → ((a : A) → Keeps P (f a))
      → P s
      → P (continue r f s).1
  keeps_continue (ok a) f s k h = (k a).at s h
  keeps_continue (err e) f s k h = h

  pub Keeps-bind :
      (m : Exec S E A) (f : A → Exec S E B)
      → Keeps P m
      → ((a : A) → Keeps P (f a))
      → Keeps P (m >>>= f)
  unfolding ◌>>>=◌
  Keeps-bind m f km kf = record { at = λ s h. keeps_continue (m s).0 f (m s).1 kf (km.at s h) }

  keeps_lifted :
      (r : Result E A) (f : A → Exec S E B) (s : S)
      → ((a : A) → r ≡ ok a → Keeps P (f a))
      → P s
      → P (continue r f s).1
  keeps_lifted (ok a) f s k h = (k a refl).at s h
  keeps_lifted (err e) f s k h = h

  -- Behind a pure result the equation that it gives is known.
  pub Keeps-lifted :
      (r : Result E A) (f : A → Exec S E B)
      → ((a : A) → r ≡ ok a → Keeps P (f a))
      → Keeps P (lift r >>>= f)
  unfolding ◌>>>=◌ lift
  Keeps-lifted r f k = record { at = λ s h. keeps_lifted r f s k h }

module _ {S E A : Type 0} {P : S → Type 0} where
  keeps_rescue :
      (r : Result E A) (handler : E → Exec S E A) (s : S)
      → ((e : E) → Keeps P (handler e))
      → P s
      → P (rescue handler r s).1
  keeps_rescue (ok a) handler s k h = h
  keeps_rescue (err e) handler s k h = (k e).at s h

  pub Keeps-catch :
      (m : Exec S E A) (handler : E → Exec S E A)
      → Keeps P m
      → ((e : E) → Keeps P (handler e))
      → Keeps P (catch m handler)
  unfolding catch
  Keeps-catch m handler km kh = record {
    at = λ s h. keeps_rescue (m s).0 handler (m s).1 kh (km.at s h);
  }

module _ {S E A B : Type 0} {P : S → Type 0} where
  keeps_resume :
      (r : Result E A) (f : A → Exec S E B) (handler : E → Exec S E B) (s : S)
      → ((a : A) → Keeps P (f a))
      → ((e : E) → Keeps P (handler e))
      → P s
      → P (resume r f handler s).1
  keeps_resume (ok a) f handler s kf kh h = (kf a).at s h
  keeps_resume (err e) f handler s kf kh h = (kh e).at s h

  pub Keeps-attempt :
      (m : Exec S E A) (f : A → Exec S E B) (handler : E → Exec S E B)
      → Keeps P m
      → ((a : A) → Keeps P (f a))
      → ((e : E) → Keeps P (handler e))
      → Keeps P (attempt m f handler)
  unfolding attempt
  Keeps-attempt m f handler km kf kh = record {
    at = λ s h. keeps_resume (m s).0 f handler (m s).1 kf kh (km.at s h);
  }

pub ruleset keeps_rules = (
  Keeps-pure, Keeps-raise, Keeps-lift, Keeps-gets, Keeps-if, Keeps-guard, Keeps-bind, Keeps-catch,
  Keeps-attempt,
)
