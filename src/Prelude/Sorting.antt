-- ===== src/Prelude/Sorting.antt =====
-- A stable sort by a strict order given as a test, and the order of texts.
use Prim.Native.Char.{code}
use Prim.Native.String.{String}
use mathlib.Core.Path.{◌≡◌, refl}
use mathlib.Core.Bool.{Bool, true, false, ◌&&◌, ◌||◌}
use mathlib.Core.Logic.{inl, inr}
use mathlib.Core.List.{List, [], ◌∷◌, Perm}
use mathlib.Core.List.Perm
use native.Mathlib.Omega.{arith}
use go7_spark_broker.Prelude.Tests.{if◌then◌else◌, ltb, eqb, Bool-cases}
use go7_spark_broker.Prelude.Lists.{All}

module _ {ℓ} {A : Type ℓ} (before : A → A → Bool) where
  unfoldable pub insert_by : A → List A → List A
  insert_by x [] = x ∷ []
  insert_by x (y ∷ r) = if before y x then y ∷ insert_by x r else x ∷ y ∷ r

  -- Values that the order does not tell apart keep their places.
  unfoldable pub sort_by : List A → List A
  unfolding insert_by
  sort_by [] = []
  sort_by (x ∷ r) = insert_by x (sort_by r)

  -- No value stands behind one that it goes before.
  abbrev pub IsOrdered : List A → Type ℓ
  IsOrdered [] = Unit
  IsOrdered (x ∷ r) = All (λ y. before y x ≡ false) r × IsOrdered r

  insert_by-perm : (x : A) (l : List A) → Perm (insert_by x l) (x ∷ l)
  unfolding insert_by
  insert_by-perm x [] = Perm.refl _
  insert_by-perm x (y ∷ r) = elim (Bool-cases (before y x)) [
    | inl h ↦ rw h (Perm.trans (Perm.cons y (insert_by-perm x r)) (Perm.swap x y r))
    | inr h ↦ rw h (Perm.refl _)
  ]

  pub sort_by-perm : (l : List A) → Perm (sort_by l) l
  unfolding sort_by
  sort_by-perm [] = Perm.refl _
  sort_by-perm (x ∷ r) = Perm.trans (insert_by-perm x (sort_by r)) (Perm.cons x (sort_by-perm r))

module _ {ℓ κ} {A : Type ℓ} (before : A → A → Bool) (P : A → Type κ) where
  pub insert_by-All : (x : A) (l : List A) → P x → All P l → All P (insert_by before x l)
  unfolding insert_by
  insert_by-All x [] px h = (px, tt)
  insert_by-All x (y ∷ r) px h = elim (Bool-cases (before y x)) [
    | inl e ↦ rw e (h.0, insert_by-All x r px h.1)
    | inr e ↦ rw e (px, h)
  ]

  pub sort_by-All : (l : List A) → All P l → All P (sort_by before l)
  unfolding sort_by
  sort_by-All [] h = tt
  sort_by-All (x ∷ r) h = insert_by-All x (sort_by before r) h.0 (sort_by-All r h.1)

  insert_by-All_inv : (x : A) (l : List A) → All P (insert_by before x l) → P x × All P l
  unfolding insert_by
  insert_by-All_inv x [] h = h
  insert_by-All_inv x (y ∷ r) h = elim (Bool-cases (before y x)) [
    | inl e ↦ let h' = rw e at h in let ih = insert_by-All_inv x r h'.1 in (ih.0, (h'.0, ih.1))
    | inr e ↦ rw e at h
  ]

  pub sort_by-All_inv : (l : List A) → All P (sort_by before l) → All P l
  unfolding sort_by
  sort_by-All_inv [] h = tt
  sort_by-All_inv (x ∷ r) h =
      let i = insert_by-All_inv x (sort_by before r) h in (i.0, sort_by-All_inv r i.1)

pub record IsStrictOrder {ℓ} {A : Type ℓ} (before : A → A → Bool) : Type ℓ where
  pub asym : (a b : A) → before a b ≡ true → before b a ≡ false
  pub through : (a b c : A) → before b a ≡ false → before c b ≡ false → before c a ≡ false

module _ {ℓ} {A : Type ℓ} (before : A → A → Bool) (o : IsStrictOrder before) where
  All-through :
      (x y : A) (l : List A)
      → before y x ≡ false
      → All (λ z. before z y ≡ false) l
      → All (λ z. before z x ≡ false) l
  All-through x y [] h a = tt
  All-through x y (z ∷ r) h a = (o.through x y z h a.0, All-through x y r h a.1)

  insert_by-IsOrdered :
      (x : A) (l : List A) → IsOrdered before l → IsOrdered before (insert_by before x l)
  unfolding insert_by
  insert_by-IsOrdered x [] h = (tt, tt)
  insert_by-IsOrdered x (y ∷ r) h = elim (Bool-cases (before y x)) [
    | inl e ↦ rw e (
      insert_by-All before (λ z. before z y ≡ false) x r (o.asym y x e) h.0,
      insert_by-IsOrdered x r h.1,
    )
    | inr e ↦ rw e ((e, All-through x y r e h.0), h)
  ]

  pub sort_by-IsOrdered : (l : List A) → IsOrdered before (sort_by before l)
  unfolding sort_by
  sort_by-IsOrdered [] = tt
  sort_by-IsOrdered (x ∷ r) = insert_by-IsOrdered x (sort_by before r) (sort_by-IsOrdered r)

-- `a < b` of texts, by code points
unfoldable pub str_lt : String → String → Bool
str_lt String.[] String.[] = false
str_lt String.[] (String.◌∷◌ d t) = true
str_lt (String.◌∷◌ c s) String.[] = false
str_lt (String.◌∷◌ c s) (String.◌∷◌ d t) =
    ltb (code c) (code d) || (eqb (code c) (code d) && str_lt s t)

pub str_lt-asym : (s t : String) → str_lt s t ≡ true → str_lt t s ≡ false
unfolding str_lt
str_lt-asym String.[] String.[] h = refl
str_lt-asym String.[] (String.◌∷◌ d t) h = refl
str_lt-asym (String.◌∷◌ c s) String.[] h = cc
str_lt-asym (String.◌∷◌ c s) (String.◌∷◌ d t) h = ground (arith, str_lt-asym s t)

pub str_lt-through : (s t u : String) → str_lt t s ≡ false → str_lt u t ≡ false → str_lt u s ≡ false
unfolding str_lt
str_lt-through String.[] String.[] String.[] h k = refl
str_lt-through String.[] (String.◌∷◌ d t) String.[] h k = refl
str_lt-through (String.◌∷◌ c s) String.[] String.[] h k = cc
str_lt-through (String.◌∷◌ c s) (String.◌∷◌ d t) String.[] h k = cc
str_lt-through String.[] String.[] (String.◌∷◌ e u) h k = refl
str_lt-through String.[] (String.◌∷◌ d t) (String.◌∷◌ e u) h k = refl
str_lt-through (String.◌∷◌ c s) String.[] (String.◌∷◌ e u) h k = cc
str_lt-through (String.◌∷◌ c s) (String.◌∷◌ d t) (String.◌∷◌ e u) h k =
    ground (arith, str_lt-through s t u)
