-- ===== src/Prelude/Best.antt =====
-- The first row of a sorted selection.
use mathlib.Core.Path.{◌≡◌, refl, subst}
use mathlib.Core.Bool.{Bool, true, false}
use mathlib.Core.Logic.{inl, inr}
use mathlib.Core.List.{List, [], ◌∷◌, Memᴰ}
use mathlib.Core.Option.{none, some, some-injective}
use native.Mathlib.Omega.{arith}
use go7_spark_broker.Prelude.Tests.{Bool-cases}
use go7_spark_broker.Prelude.Lists.{select, first, All}
use go7_spark_broker.Prelude.Rows.{All-map, select-mem, All-select_inv}
use go7_spark_broker.Prelude.Sorting.{
  sort_by, IsStrictOrder, IsOrdered, sort_by-IsOrdered, sort_by-All, sort_by-All_inv,
}

module _ {ℓ κ} {A : Type ℓ} (P : A → Type κ) where
  first-All : (l : List A) {x : A} → All P l → first l ≡ some x → P x
  first-All [] h e = absurd (cc)
  first-All (y ∷ r) h e = subst P (some-injective _ _ e) h.0

refuted : (b : Bool) → (b ≡ true → ⊥) → b ≡ false
refuted true n = absurd (n refl)
refuted false n = refl

none_of_empty {ℓ} : {A : Type ℓ} (l : List A) → first l ≡ none → All (λ _. ⊥) l
none_of_empty [] h = tt
none_of_empty (x ∷ r) h = absurd (cc)

module _ {ℓ} {A : Type ℓ} (before : A → A → Bool) (o : IsStrictOrder before) where
  irrefl : (x : A) → before x x ≡ false
  irrefl x = elim (Bool-cases (before x x)) [ inl h ↦ o.asym x x h | inr h ↦ h ]

  least :
      (l : List A) {x : A} → IsOrdered before l → first l ≡ some x → All (λ y. before y x ≡ false) l
  least [] h e = tt
  least (y ∷ r) {x} h e = ground (arith, irrefl y)

  -- It is in the table, it passes the test, and no row that passes goes before it.
  pub first-best :
      (p : A → Bool) (l : List A) {x : A}
      → first (sort_by before (select p l)) ≡ some x
      → Memᴰ x l × (p x ≡ true) × All (λ y. p y ≡ true → before y x ≡ false) l
  first-best p l {x} h =
      let (m, t) =
        first-All (λ z. Memᴰ z l × (p z ≡ true)) (sort_by before (select p l))
          (sort_by-All before (λ z. Memᴰ z l × (p z ≡ true)) (select p l) (select-mem p l)) h in
      (
        m,
        t,
        All-select_inv (λ y. before y x ≡ false) p l
            (sort_by-All_inv before (λ y. before y x ≡ false) (select p l)
              (least (sort_by before (select p l)) (sort_by-IsOrdered before o (select p l)) h)),
      )

  -- None is found exactly when no row passes.
  pub first-none :
      (p : A → Bool) (l : List A)
      → first (sort_by before (select p l)) ≡ none
      → All (λ y. p y ≡ false) l
  first-none p l h =
      All-map (λ y. p y ≡ true → ⊥) (λ y. p y ≡ false) (λ y n. refuted (p y) n) l
        (All-select_inv (λ _. ⊥) p l
          (sort_by-All_inv before (λ _. ⊥) (select p l)
            (none_of_empty (sort_by before (select p l)) h)))
