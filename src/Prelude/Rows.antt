-- ===== src/Prelude/Rows.antt =====
-- Lemmas on the statements of `Lists`: what a row is before and after an update.
use Prim.Native.Nat.{◌+◌, ◌≤◌}
use mathlib.Core.Path.{◌≡◌, refl, ◌∙◌}
use mathlib.Core.Bool.{Bool, true, false, ◌&&◌, ◌||◌}
use mathlib.Core.Logic.{inl, inr}
use mathlib.Core.List.{List, [], ◌∷◌, ◌++◌, Memᴰ}
use mathlib.Core.Option
use mathlib.Core.Option.{Option, none, some}
use native.Mathlib.Omega.{arith}
use go7_spark_broker.Prelude.Tests.{if◌then◌else◌, Bool-cases}
use go7_spark_broker.Prelude.Lists.{select, find, count_where, update_where, any, All}

module _ {ℓ} {A : Type ℓ} where
  -- No two rows are the same by the test `same`.
  abbrev pub Distinct : (A → A → Bool) → List A → Type ℓ
  Distinct same [] = Unit
  Distinct same (x ∷ r) = All (λ y. same x y ≡ false) r × Distinct same r

not_both : (b : Bool) → b ≡ true → b ≡ false → ⊥
not_both b h k = cc

module _ {ℓ} {A : Type ℓ} (p : A → Bool) where
  pub find_holds : (l : List A) {x : A} → find p l ≡ some x → p x ≡ true
  find_holds [] h = cc
  find_holds (y ∷ r) {x} h = ground (arith, find_holds r {x = x})

  pub find-mem : (l : List A) {x : A} → find p l ≡ some x → Memᴰ x l
  find-mem [] h = cc
  find-mem (y ∷ r) h = elim (Bool-cases (p y)) [
    | inl e ↦ Memᴰ.head (ground arith)
    | inr e ↦ Memᴰ.tail (find-mem r (ground arith))
  ]

  pub any_of_find : (l : List A) {x : A} → find p l ≡ some x → any p l ≡ true
  any_of_find [] h = cc
  any_of_find (y ∷ r) {x} h = ground (arith, any_of_find r {x = x})

  pub not-any_of_find : (l : List A) → find p l ≡ none → any p l ≡ false
  not-any_of_find [] h = refl
  not-any_of_find (y ∷ r) h = ground (arith, not-any_of_find r)

  pub find_of_not-any : (l : List A) → any p l ≡ false → find p l ≡ none
  find_of_not-any [] h = refl
  find_of_not-any (y ∷ r) h = ground (arith, find_of_not-any r)

  pub any_of_mem : {x : A} (l : List A) → Memᴰ x l → p x ≡ true → any p l ≡ true
  any_of_mem [] m h = elim m [ ]
  any_of_mem (y ∷ r) (Memᴰ.head e) h = ground arith
  any_of_mem (y ∷ r) (Memᴰ.tail m) h = ground (arith, any_of_mem r m h)

  pub find-append :
      (l : List A) (x : A) → find p l ≡ none → p x ≡ true → find p (l ++ x ∷ []) ≡ some x
  find-append [] x n h = ground arith
  find-append (y ∷ r) x n h = ground (arith, find-append r x)

  pub find-append_some :
      (l : List A) {x : A} (m : List A) → find p l ≡ some x → find p (l ++ m) ≡ some x
  find-append_some [] m h = cc
  find-append_some (y ∷ r) {x} m h = ground (arith, find-append_some r {x = x} m)

  pub any-append : (l m : List A) → any p (l ++ m) ≡ any p l || any p m
  any-append [] m = refl
  any-append (y ∷ r) m = ground (arith, any-append r m)

  pub count_where-append :
      (l m : List A) → count_where p (l ++ m) ≡ count_where p l + count_where p m
  count_where-append [] m = omega arith
  count_where-append (y ∷ r) m = omega (arith, count_where-append r m)

  pub count_where-pos : (l : List A) → any p l ≡ true → 1 ≤ count_where p l
  count_where-pos [] h = cc
  count_where-pos (y ∷ r) h = ground (arith, count_where-pos r)

  pub count_where-zero : (l : List A) → any p l ≡ false → count_where p l ≡ 0
  count_where-zero [] h = refl
  count_where-zero (y ∷ r) h = ground (arith, count_where-zero r)

  -- The rows that the update leaves to `find` are those that it found before, updated.
  pub find-update_where :
      (f : A → A)
      → ((x : A) → p x ≡ true → p (f x) ≡ true)
      → (l : List A) → find p (update_where p f l) ≡ Option.map f (find p l)
  find-update_where f keep [] = refl
  find-update_where f keep (y ∷ r) = elim (Bool-cases (p y)) [
    | inl e ↦ rw (e, keep y e)
    | inr e ↦ rw (e, e) (find-update_where f keep r)
  ]

  pub All-update_where {κ} :
      (P : A → Type κ) (f : A → A)
      → ((x : A) → p x ≡ true → P x → P (f x))
      → (l : List A) → All P l
      → All P (update_where p f l)
  All-update_where P f keep [] h = tt
  All-update_where P f keep (y ∷ r) h = elim (Bool-cases (p y)) [
    | inl e ↦ rw e (keep y e h.0, All-update_where P f keep r h.1)
    | inr e ↦ rw e (h.0, All-update_where P f keep r h.1)
  ]

  pub update_where_none : (f : A → A) (l : List A) → any p l ≡ false → update_where p f l ≡ l
  update_where_none f [] h = refl
  update_where_none f (y ∷ r) h = ground (arith, update_where_none f r)

  pub All_of_not-any : (l : List A) → any p l ≡ false → All (λ y. p y ≡ false) l
  All_of_not-any [] h = tt
  All_of_not-any (y ∷ r) h = (ground arith, All_of_not-any r (ground arith))

  pub not-any_of_All : (l : List A) → All (λ y. p y ≡ false) l → any p l ≡ false
  not-any_of_All [] h = refl
  not-any_of_All (y ∷ r) h = rw (h.0, not-any_of_All r h.1)

  others :
      (same : A → A → Bool) (y : A)
      → ((z : A) → p z ≡ true → same y z ≡ true)
      → (l : List A) → All (λ z. same y z ≡ false) l
      → All (λ z. p z ≡ false) l
  others same y one [] d = tt
  others same y one (z ∷ r) d = (
    elim (Bool-cases (p z)) [ inl q ↦ absurd (ground (arith, one z q)) | inr q ↦ q ],
    others same y one r d.1,
  )

  -- A test under which at most one row of a distinct table can pass.
  pub count_where-le-one :
      (same : A → A → Bool)
      → ((x y : A) → p x ≡ true → p y ≡ true → same x y ≡ true)
      → (l : List A) → Distinct same l
      → count_where p l ≤ 1
  count_where-le-one same one [] d = omega arith
  count_where-le-one same one (y ∷ r) d = elim (Bool-cases (p y)) [
    | inl e ↦ rw e (
        omega
          (arith, count_where-zero r (not-any_of_All r (others same y (λ z q. one y z e q) r d.0))))
    | inr e ↦ rw e (omega (arith, count_where-le-one same one r d.1))
  ]

module _ {ℓ} {A : Type ℓ} where
  pub All-append {κ} : (P : A → Type κ) (l m : List A) → All P l → All P m → All P (l ++ m)
  All-append P [] m h k = k
  All-append P (x ∷ r) m h k = (h.0, All-append P r m h.1 k)

  pub All-map {κ μ} :
      (P : A → Type κ) (Q : A → Type μ) → ((x : A) → P x → Q x) → (l : List A) → All P l → All Q l
  All-map P Q f [] h = tt
  All-map P Q f (x ∷ r) h = (f x h.0, All-map P Q f r h.1)

  pub All_of_each {κ} : (P : A → Type κ) → ((x : A) → P x) → (l : List A) → All P l
  All_of_each P f [] = tt
  All_of_each P f (x ∷ r) = (f x, All_of_each P f r)

  pub All-get {κ} : (P : A → Type κ) {x : A} (l : List A) → All P l → Memᴰ x l → P x
  All-get P [] h m = elim m [ ]
  All-get P (y ∷ r) h (Memᴰ.head e) = rw e h.0
  All-get P (y ∷ r) h (Memᴰ.tail m) = All-get P r h.1 m

  -- What SELECT returns: the rows of the table that pass, and no other row passes.
  pub select-mem : (p : A → Bool) (l : List A) → All (λ x. Memᴰ x l × (p x ≡ true)) (select p l)
  select-mem p [] = tt
  select-mem p (x ∷ r) =
      let rest =
        All-map (λ z. Memᴰ z r × (p z ≡ true)) (λ z. Memᴰ z (x ∷ r) × (p z ≡ true))
          (λ z m. (Memᴰ.tail m.0, m.1)) (select p r) (select-mem p r) in
      elim (Bool-cases (p x)) [ inl e ↦ rw e ((Memᴰ.head refl, e), rest) | inr e ↦ rw e rest ]

  pub All-select_inv {κ} :
      (P : A → Type κ) (p : A → Bool) (l : List A)
      → All P (select p l)
      → All (λ x. p x ≡ true → P x) l
  All-select_inv P p [] h = tt
  All-select_inv P p (x ∷ r) h = elim (Bool-cases (p x)) [
    | inl e ↦ let h' = rw e at h in ((λ _. h'.0), All-select_inv P p r h'.1)
    | inr e ↦ ((λ t. absurd (cc)), All-select_inv P p r (rw e at h))
  ]

  pub Distinct-append :
      (same : A → A → Bool) (l : List A) (x : A)
      → Distinct same l
      → All (λ y. same y x ≡ false) l
      → Distinct same (l ++ x ∷ [])
  Distinct-append same [] x d a = (tt, tt)
  Distinct-append same (y ∷ r) x d a = (
    All-append (λ z. same y z ≡ false) r (x ∷ []) d.0 (a.0, tt),
    Distinct-append same r x d.1 a.1,
  )

  -- An update that the test does not see keeps a table distinct.
  pub Distinct-update_where :
      (same : A → A → Bool) (p : A → Bool) (f : A → A)
      → ((x y : A) → p x ≡ true → same (f x) y ≡ same x y)
      → ((x y : A) → p y ≡ true → same x (f y) ≡ same x y)
      → (l : List A) → Distinct same l
      → Distinct same (update_where p f l)
  Distinct-update_where same p f left right [] d = tt
  Distinct-update_where same p f left right (x ∷ r) d = elim (Bool-cases (p x)) [
    | inl e ↦
        let apart =
          All-map (λ z. same x z ≡ false) (λ z. same (f x) z ≡ false) (λ z h. left x z e ∙ h) r
            d.0 in
        rw e (
          All-update_where p (λ z. same (f x) z ≡ false) f (λ z t h. right (f x) z t ∙ h) r apart,
          Distinct-update_where same p f left right r d.1,
        )
    | inr e ↦ rw e (
      All-update_where p (λ z. same x z ≡ false) f (λ z t h. right x z t ∙ h) r d.0,
      Distinct-update_where same p f left right r d.1,
    )
  ]

  -- The row that a distinct table holds for a key is the one that `find` gives.
  pub find_of_mem :
      (same : A → A → Bool) (p : A → Bool)
      → ((x y : A) → p x ≡ true → p y ≡ true → same x y ≡ true)
      → {x : A} (l : List A) → Distinct same l
      → Memᴰ x l
      → p x ≡ true
      → find p l ≡ some x
  find_of_mem same p one [] d m h = elim m [ ]
  find_of_mem same p one {x} (y ∷ r) d (Memᴰ.head e) h = rw (← e, h)
  find_of_mem same p one {x} (y ∷ r) d (Memᴰ.tail m) h = elim (Bool-cases (p y)) [
    | inl e ↦ absurd (not_both (same y x) (one y x e h) (All-get (λ z. same y z ≡ false) r d.0 m))
    | inr e ↦ rw e (find_of_mem same p one r d.1 m h)
  ]

-- Updates by a key and a condition, in a table where the key is unique.
module _ {ℓ} {A : Type ℓ} (same : A → A → Bool) (p q : A → Bool)
    (one : (x y : A) → p x ≡ true → p y ≡ true → same x y ≡ true) where
  none_passes : (l : List A) → All (λ z. p z ≡ false) l → any (λ z. p z && q z) l ≡ false
  none_passes [] h = refl
  none_passes (z ∷ r) h = rw (h.0, none_passes r h.1)

  pub not-any_and :
      (l : List A) {x : A}
      → Distinct same l
      → find p l ≡ some x
      → q x ≡ false
      → any (λ z. p z && q z) l ≡ false
  not-any_and [] d f n = refl
  not-any_and (y ∷ r) {x} d f n = elim (Bool-cases (p y)) [
    | inl e ↦ let ns = none_passes r (others p same y (λ z t. one y z e t) r d.0) in ground arith
    | inr e ↦ ground (arith, not-any_and r {x = x} d.1)
  ]

  pub count_where-and :
      (l : List A) {x : A}
      → Distinct same l
      → find p l ≡ some x
      → q x ≡ true
      → count_where (λ z. p z && q z) l ≡ 1
  count_where-and [] d f n = cc
  count_where-and (y ∷ r) {x} d f n = elim (Bool-cases (p y)) [
    | inl e ↦
        let z =
          count_where-zero (λ z. p z && q z) r
            (none_passes r (others p same y (λ z t. one y z e t) r d.0)) in
        ground arith
    | inr e ↦ ground (arith, count_where-and r {x = x} d.1)
  ]

  -- The row of the key after the update: changed if it meets the condition.
  pub find-update_and :
      (f : A → A)
      → ((x : A) → p (f x) ≡ p x)
      → (l : List A) → {x : A} → find p l ≡ some x
      → find p (update_where (λ z. p z && q z) f l) ≡ some (if q x then f x else x)
  find-update_and f keep [] e = cc
  find-update_and f keep (y ∷ r) {x} e = elim (Bool-cases (p y)) [
    | inl t ↦ ground (arith, keep y)
    | inr t ↦ ground (arith, find-update_and f keep r {x = x})
  ]

-- A row that an update does not select stays the row of its key.
pub find-update_ne {ℓ} :
    {A : Type ℓ} (p u : A → Bool) (f : A → A)
    → ((x : A) → p (f x) ≡ p x)
    → (l : List A) {x : A} → find p l ≡ some x
    → u x ≡ false
    → find p (update_where u f l) ≡ some x
find-update_ne p u f keep [] h n = cc
find-update_ne p u f keep (y ∷ r) {x} h n = elim (Bool-cases (p y)) [
  | inl t ↦ ground arith
  | inr t ↦ ground (arith, keep y, find-update_ne p u f keep r {x = x})
]
