-- ===== src/Translator/JobStore/Lookup.antt =====
-- Where the jobs that `get` finds come from.
use sv2_apps_fork.Prelude.{
  ℕ, zero, suc, ◌≡◌, refl, sym, subst, ◌⊎◌, inl, inr, Option, none, some, List, String, ◌==◌,
  string_eq, arith, Bool-cases,
}
use sv2_apps_fork.Prelude.Assoc.{Assoc, lookup, insert, lookup_of_insert, lookup_of_without}
use sv2_apps_fork.Translator.JobStore.{
  ActiveJob, Sv1JobStore, remove_past, retire, install, get, active_named, or_else, new,
}
use sv2_apps_fork.Translator.JobStore.Invariant.{IsApart}
use sv2_apps_fork.Translator.JobStore.Eviction.{store}

module _ {T : Type 0} where
  get_of_past :
      (k : String) (c : T) (active_job : Option (ActiveJob T)) (past : Assoc String T)
      → IsApart active_job past
      → lookup k past ≡ some c
      → or_else (active_named k active_job) (lookup k past) ≡ some c
  unfolding IsApart
  get_of_past k c none past a e = e
  get_of_past k c (some active) past a e = ground (arith, string_eq.agrees_iff active.job_id k)

  remove_past-same_active :
      (job_id : String) (s : Sv1JobStore T) → (remove_past job_id s).active_job ≡ s.active_job
  unfolding remove_past
  remove_past-same_active job_id s = ground arith

  removed-kept :
      (k job_id : String) (c : T) (s : Sv1JobStore T)
      → lookup k (remove_past job_id s).past_jobs ≡ some c
      → lookup k s.past_jobs ≡ some c
  unfolding remove_past
  removed-kept k job_id c s e = ground (arith, lookup_of_without job_id k c s.past_jobs)

  retired-kept :
      (k job_id : String) (c : T) (active_job : Option (ActiveJob T)) (past : Assoc String T)
      (order : List String) (cap : ℕ)
      → lookup k (retire job_id (store active_job past order cap)).past_jobs ≡ some c
      → (active_named k active_job ≡ some c) ⊎ (lookup k past ≡ some c)
  unfolding retire
  retired-kept k job_id c none past order cap' e = inr e
  retired-kept k job_id c (some active) past order cap' e =
      elim (Bool-cases (active.job_id == job_id)) [
        | inl same ↦ inr (ground (arith, same, e))
        | inr other ↦
            let e' : lookup k (insert active.job_id active.job past) ≡ some c =
              ground (arith, other, e) in
            elim (lookup_of_insert active.job_id k active.job c past e') [
              | inl (named, it) ↦ inl (ground (arith, string_eq.agrees_iff active.job_id k))
              | inr old ↦ inr old
            ]
      ]

  -- A job that is found under an id after the other steps was found there before.
  pub before_retire :
      (k job_id : String) (c : T) (s : Sv1JobStore T)
      → IsApart s.active_job s.past_jobs
      → lookup k (retire job_id (remove_past job_id s)).past_jobs ≡ some c
      → get k s ≡ some c
  unfolding get
  before_retire k job_id c s apart e =
      let s1 = remove_past job_id s in
      elim (retired-kept k job_id c s1.active_job s1.past_jobs s1.past_job_order s1.max_past_jobs
        e) [
          | inl active ↦
              let active' : active_named k s.active_job ≡ some c =
                subst (λ a. active_named k a ≡ some c) (remove_past-same_active job_id s) active in
              ground (arith, active')
          | inr past ↦
              get_of_past k c s.active_job s.past_jobs apart (removed-kept k job_id c s past)
        ]

  pub get-install :
      (k job_id : String) (job c : T) (s : Sv1JobStore T)
      → get k (install job_id job s) ≡ some c
      → ((k ≡ job_id) × (c ≡ job)) ⊎ (lookup k s.past_jobs ≡ some c)
  unfolding get
  get-install k job_id job c s e = elim (Bool-cases (job_id == k)) [
    | inl same ↦ inl (sym ((string_eq.agrees_iff job_id k).0 same), ground (arith, same, e))
    | inr other ↦ inr (ground (arith, other, e))
  ]

  pub get-new :
      (job_id : String) (default : ℕ) (max_past_jobs : Option ℕ)
      → let s : Sv1JobStore T = new default max_past_jobs in get job_id s ≡ none
  unfolding get new lookup
  get-new job_id default none = refl
  get-new job_id default (some zero) = refl
  get-new job_id default (some (suc n)) = refl
