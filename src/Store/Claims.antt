-- ===== src/Store/Claims.antt =====
-- Which job `claim_next` takes, and what `peek_next` shows of it.
use mathlib.Core.List.{Memᴰ}
use go7_spark_broker.Prelude.{
  ◌≡◌, ◌≤◌, refl, String, true, false, none, some, List, [], ◌∷◌, arith, ◌⊎◌, inl, inr, first,
  count_where, All, Distinct, All-map, All_of_each, IsStrictOrder, first-best, first-none,
  count_where-pos, count_where-le-one, any_of_mem, Option-cases, eq_iff,
}
use go7_spark_broker.Clock.{Stamp, rank}
use go7_spark_broker.Store.Tables.{Job, Store, same_id}
use go7_spark_broker.Store.Queue.{is_eligible, goes_before, queue, load, is_claimable, claim_next}

goes_before-IsStrictOrder : IsStrictOrder goes_before
unfolding goes_before
goes_before-IsStrictOrder = record {
  asym = λ a b h. ground arith;
  through = λ a b c h k. ground arith;
}

-- `row` is a row of `jobs` that may be claimed. No such row has a higher priority, and none of the
-- same priority has an earlier text of its creation time.
pub record IsNext (supported : List String) (now : Stamp) (jobs : List Job) (row : Job)
    : Type 0 where
  pub stored : Memᴰ row jobs
  pub eligible : is_eligible supported now row ≡ true
  pub earliest :
      All
        (λ k.
          is_eligible supported now k ≡ true
          → (k.priority ≤ row.priority)
            × (k.priority ≡ row.priority → rank row.created_at ≤ rank k.created_at))
        jobs

not_before_lem :
    (k row : Job)
    → goes_before k row ≡ false
    → (k.priority ≤ row.priority)
      × (k.priority ≡ row.priority → rank row.created_at ≤ rank k.created_at)
unfolding goes_before
not_before_lem k row h = (ground arith, λ e. ground arith)

first-IsNext :
    (supported : List String) (now : Stamp) (jobs : List Job) (row : Job)
    → first (queue supported now jobs) ≡ some row
    → IsNext supported now jobs row
unfolding queue
first-IsNext supported now jobs row h =
    let b = first-best goes_before goes_before-IsStrictOrder (is_eligible supported now) jobs h in
    record {
      stored = b.0;
      eligible = b.1;
      earliest = All-map _ _ (λ k f e. not_before_lem k row (f e)) jobs b.2;
    }

-- Every row that may be claimed is claimable by its id, and no other row is.
claimable_once :
    (supported : List String) (now : Stamp) (jobs : List Job) (row : Job)
    → Distinct same_id jobs
    → Memᴰ row jobs
    → is_eligible supported now row ≡ true
    → count_where (is_claimable row.id) jobs ≡ 1
unfolding is_eligible
claimable_once supported now jobs row d m e = omega (
  arith,
  count_where-pos (is_claimable row.id) jobs
      (any_of_mem (is_claimable row.id) jobs m (ground (arith, eq_iff row.id row.id))),
  count_where-le-one (is_claimable row.id) same_id
      (λ x y p q. ground (arith, eq_iff x.id row.id, eq_iff y.id row.id, eq_iff x.id y.id)) jobs d,
)

-- Where ids are unique, `claim_next` either finds no job that is queued, not cancelled, due and
-- supported, and changes nothing, or it answers with such a job, set to loading with one more
-- attempt. No job that could be claimed has a higher priority than that one, and none of the same
-- priority has an earlier text of its creation time.
pub claim_next_lem :
    (supported : List String) (now : Stamp) (s : Store)
    → Distinct same_id s.jobs
    → ((claim_next supported now s ≡ (s, none))
        × All (λ k. is_eligible supported now k ≡ false) s.jobs)
      ⊎ ((row : Job) × IsNext supported now s.jobs row
          × ((claim_next supported now s).1 ≡ some (load now row)))
unfolding claim_next is_eligible
claim_next_lem [] now s d = inl (refl, All_of_each _ (λ k. ground arith) s.jobs)
claim_next_lem (c ∷ cs) now s d = elim (Option-cases (first (queue (c ∷ cs) now s.jobs))) [
  | inl e ↦ inl (
    rw (e, claim_next),
    first-none goes_before goes_before-IsStrictOrder (is_eligible (c ∷ cs) now) s.jobs e,
  )
  | inr (row, e) ↦
      let n = first-IsNext (c ∷ cs) now s.jobs row e in
      inr (
        row,
        n,
        rw (e, claim_next) (rw (claimable_once (c ∷ cs) now s.jobs row d n.stored n.eligible)),
      )
]
