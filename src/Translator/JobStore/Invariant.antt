-- ===== src/Translator/JobStore/Invariant.antt =====
-- The store's bookkeeping: the order lists the past jobs, each once, the active job is none of
-- them, and the cap holds after every activation.
use sv2_apps_fork.Prelude.{
  ◌≤◌, ◌≡◌, refl, not, Option, none, some, List, [], ◌∷◌, ◌++◌, String, is_some, ◌==◌, string_eq,
  length, keep, contains, Distinct, contains-keep, keep-Distinct, contains-snoc, snoc-Distinct,
  arith,
}
use sv2_apps_fork.Prelude.Assoc.{Assoc, lookup, insert, without, lookup-without, lookup-insert}
use sv2_apps_fork.Translator.JobStore.{ActiveJob, Sv1JobStore}

-- The order has the keys of the past jobs, each once.
unfoldable pub IsIndexed : {T : Type 0} → List String → Assoc String T → Type 0
IsIndexed order past = Distinct order × ((k : String) → contains k order ≡ is_some (lookup k past))

module _ {T : Type 0} where
  -- No past job has the active job's id.
  unfoldable pub IsApart : Option (ActiveJob T) → Assoc String T → Type 0
  IsApart none past = Unit
  IsApart (some active) past = lookup active.job_id past ≡ none

  pub record IsWellFormed (s : Sv1JobStore T) : Type 0 where
    pub indexed : IsIndexed s.past_job_order s.past_jobs
    pub apart : IsApart s.active_job s.past_jobs
    pub capped : length s.past_jobs ≤ s.max_past_jobs

  pub without-IsIndexed :
      (j : String) (order : List String) (past : Assoc String T)
      → IsIndexed order past
      → IsIndexed (keep (λ k. not (k == j)) order) (without j past)
  unfolding IsIndexed
  without-IsIndexed j order past i = (
    keep-Distinct j order i.0,
    λ k. ground (arith, contains-keep j k order, lookup-without j k past, i.1 k),
  )

  pub insert-IsIndexed :
      (j : String) (job : T) (order : List String) (past : Assoc String T)
      → IsIndexed order past
      → lookup j past ≡ none
      → IsIndexed (order ++ (j ∷ [])) (insert j job past)
  unfolding IsIndexed
  insert-IsIndexed j job order past i new_key = (
    snoc-Distinct j order (ground (arith, i.1 j, new_key)) i.0,
    λ k. ground (arith, contains-snoc k j order, lookup-insert j k job past, i.1 k),
  )

  pub front-IsIndexed :
      (j : String) (order : List String) (past : Assoc String T)
      → IsIndexed (j ∷ order) past
      → IsIndexed order (without j past)
  unfolding IsIndexed
  front-IsIndexed j order past i =
      (i.0.1, λ k. ground (arith, lookup-without j k past, i.1 k, i.0.0, string_eq.agrees_iff j k))

  pub empty_of_no_keys : (past : Assoc String T) → IsIndexed [] past → length past ≡ 0
  unfolding IsIndexed lookup
  empty_of_no_keys [] i = refl
  empty_of_no_keys ((k, v) ∷ past) i = ground (arith, i.1 k, string_eq.agrees_iff k k)
