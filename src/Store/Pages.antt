-- ===== src/Store/Pages.antt =====
-- The pages that `peek_queued` of `Store` reads.
use go7_spark_broker.Prelude.{
  ℕ, zero, suc, ◌+◌, ◌≤◌, ◌≡◌, refl, sym, ap, ◌∙◌, inl, inr, String, Bool, true, false, List, [],
  ◌∷◌, arith, is_empty, length, take, drop, select, insert_by, sort_by, Result, ok, Bool-cases,
}
use go7_spark_broker.Store.Tables.{Store, StoreError, Job}
use go7_spark_broker.Store.Queue.{peek_queued, queue, goes_before, is_eligible}
use go7_spark_broker.Clock.{Stamp}

module _ {ℓ} {A : Type ℓ} where
  length-take : (n : ℕ) (l : List A) → length (take n l) ≤ length l
  length-take zero l = omega arith
  length-take (suc n) [] = omega arith
  length-take (suc n) (x ∷ r) = omega (arith, length-take n r)

  -- A page that is not empty ends within the list.
  page_within :
      (n m : ℕ) (l : List A)
      → is_empty (take n (drop m l)) ≡ false
      → m + length (take n (drop m l)) ≤ length l
  page_within n zero l h = omega (arith, length-take n l)
  page_within zero (suc m) l h = absurd (cc)
  page_within (suc n) (suc m) [] h = absurd (cc)
  page_within (suc n) (suc m) (x ∷ r) h = omega (arith, page_within (suc n) m r h)

  length-select : (p : A → Bool) (l : List A) → length (select p l) ≤ length l
  length-select p [] = omega arith
  length-select p (x ∷ r) = ground (arith, length-select p r)

  length-insert_by :
      (before : A → A → Bool) (x : A) (l : List A) → length (insert_by before x l) ≡ suc (length l)
  unfolding insert_by
  length-insert_by before x [] = refl
  length-insert_by before x (y ∷ r) = ground (arith, length-insert_by before x r)

  length-sort_by : (before : A → A → Bool) (l : List A) → length (sort_by before l) ≡ length l
  unfolding sort_by
  length-sort_by before [] = refl
  length-sort_by before (x ∷ r) =
      length-insert_by before x (sort_by before r) ∙ ap suc (length-sort_by before r)

length-queue :
    (supported : List String) (n : Stamp) (jobs : List Job)
    → length (queue supported n jobs) ≤ length jobs
unfolding queue
length-queue supported n jobs = omega (
  arith,
  length-sort_by goes_before (select (is_eligible supported n) jobs),
  length-select (is_eligible supported n) jobs,
)

-- A page that is not empty lies within the table.
pub peek_queued_gives :
    (supported : List String) (offset : ℕ) (n : Stamp) (s : Store) (page : List Job)
    → peek_queued supported 100 offset n s ≡ ok page
    → is_empty page ≡ false
    → offset + length page ≤ length s.jobs
unfolding peek_queued
peek_queued_gives supported offset n s page e h = elim (Bool-cases (is_empty supported)) [
  | inl q ↦ absurd (cc (nothing page (rw q at e), h))
  | inr q ↦
      let same = something (take 100 (drop offset (queue supported n s.jobs))) page (rw q at e) in
      rw (sym same) (
        omega (
          arith,
          page_within 100 offset (queue supported n s.jobs) (rw (sym same) at h),
          length-queue supported n s.jobs,
        ))
]
  where
    nothing :
        (page : List Job)
        → ◌≡◌ {A = Result StoreError (List Job)} (ok []) (ok page)
        → is_empty page ≡ true
    nothing [] e = refl
    nothing (x ∷ r) e = absurd (cc)

    something : (a b : List Job) → ◌≡◌ {A = Result StoreError (List Job)} (ok a) (ok b) → a ≡ b
    something a b e = cc
