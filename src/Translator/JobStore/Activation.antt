-- ===== src/Translator/JobStore/Activation.antt =====
-- `activate` and `get`.
use sv2_apps_fork.Prelude.{
  ℕ, zero, suc, ◌+◌, ◌≤◌, ◌<◌, ◌≡◌, refl, ◌∙◌, ◌⊎◌, inl, inr, Bool, true, false, not, Option, none,
  some, List, [], ◌∷◌, String, ◌==◌, string_eq, length, length-keep-le, length-append, ap, arith,
  Bool-cases, Option-cases,
}
use sv2_apps_fork.Prelude.Assoc.{
  Assoc, lookup, without, without-none, lookup-without_self, lookup-insert,
}
use sv2_apps_fork.Translator.JobStore.{
  ActiveJob, Sv1JobStore, new, remove_past, clear, retire, install, install_result, activate, get,
}
use sv2_apps_fork.Translator.JobStore.Invariant.{
  IsIndexed, IsApart, IsWellFormed, without-IsIndexed, insert-IsIndexed,
}
use sv2_apps_fork.Translator.JobStore.Lookup.{before_retire, get-install}
use sv2_apps_fork.Translator.JobStore.Eviction.{store, evict-ends}

module _ {T : Type 0} where
  -- The order lists the past jobs, and none of them has the new id.
  pub record IsReady (job_id : String) (s : Sv1JobStore T) : Type 0 where
    indexed : IsIndexed s.past_job_order s.past_jobs
    away : lookup job_id s.past_jobs ≡ none

  remove_past-IsIndexed :
      (job_id : String) (s : Sv1JobStore T)
      → IsIndexed s.past_job_order s.past_jobs
      → IsReady job_id (remove_past job_id s)
  unfolding remove_past
  remove_past-IsIndexed job_id s i = elim (Option-cases (lookup job_id s.past_jobs)) [
    | inl gone ↦ rw (gone) (record { indexed = i; away = gone })
    | inr (job, there) ↦ rw (there) (record {
      indexed = without-IsIndexed job_id s.past_job_order s.past_jobs i;
      away = lookup-without_self job_id s.past_jobs;
    })
  ]

  without-IsApart :
      (j : String) (active_job : Option (ActiveJob T)) (past : Assoc String T)
      → IsApart active_job past
      → IsApart active_job (without j past)
  unfolding IsApart
  without-IsApart j none past a = tt
  without-IsApart j (some active) past a = without-none j active.job_id past a

  remove_past-IsApart :
      (job_id : String) (s : Sv1JobStore T)
      → IsApart s.active_job s.past_jobs
      → let t : Sv1JobStore T = remove_past job_id s in IsApart t.active_job t.past_jobs
  unfolding remove_past
  remove_past-IsApart job_id s a = elim (Option-cases (lookup job_id s.past_jobs)) [
    | inl gone ↦ rw (gone) a
    | inr (job, there) ↦ rw (there) (without-IsApart job_id s.active_job s.past_jobs a)
  ]

  remove_past-shorter :
      (job_id : String) (s : Sv1JobStore T)
      → length (remove_past job_id s).past_job_order ≤ length s.past_job_order
  unfolding remove_past
  remove_past-shorter job_id s =
      ground (arith, length-keep-le (λ k. not (k == job_id)) s.past_job_order)

  remove_past-same_cap :
      (job_id : String) (s : Sv1JobStore T) → (remove_past job_id s).max_past_jobs ≡ s.max_past_jobs
  unfolding remove_past
  remove_past-same_cap job_id s = ground arith

  retire-IsReady :
      (job_id : String) (active_job : Option (ActiveJob T)) (past : Assoc String T)
      (order : List String) (cap : ℕ)
      → let s : Sv1JobStore T = store active_job past order cap in
        IsReady job_id s
        → IsApart active_job past
        → IsReady job_id (retire job_id s)
          × (length (retire job_id s).past_job_order ≤ length order + 1)
          × ((retire job_id s).max_past_jobs ≡ cap)
  unfolding retire IsApart
  retire-IsReady job_id none past order cap' r a = (r, omega arith, refl)
  retire-IsReady job_id (some active) past order cap' r a =
      elim (Bool-cases (active.job_id == job_id)) [
        | inl same ↦ rw (same) (record { indexed = r.indexed; away = r.away }, omega arith, refl)
        | inr other ↦ rw (other) (
          record {
            indexed = insert-IsIndexed active.job_id active.job order past r.indexed a;
            away =
                ground (arith, lookup-insert active.job_id job_id active.job past, other, r.away);
          },
          omega (arith, length-append order (active.job_id ∷ [])),
          refl,
        )
      ]

  active_is_found :
      (job_id : String) (job : T) (s : Sv1JobStore T) → get job_id (install job_id job s) ≡ some job
  unfolding get
  active_is_found job_id job s = ground (arith, string_eq.agrees_iff job_id job_id)

  -- An activation on a well-formed store ends, given one unit of fuel for each id of the order and
  -- two more, with or without `clean_jobs`: the new job is found under its id, every other job that is
  -- found was found under its id before, and the store is
  -- well-formed again, the cap on past jobs included, whatever id the upstream has reused.
  pub activate-IsWellFormed :
      (fuel : ℕ) (job_id : String) (job : T) (clean_jobs : Bool) (s : Sv1JobStore T)
      → IsWellFormed s
      → length s.past_job_order + 1 < fuel
      → (t : Sv1JobStore T) × (activate fuel job_id job clean_jobs s ≡ some t)
        × IsWellFormed t
        × (get job_id t ≡ some job)
        × (t.max_past_jobs ≡ s.max_past_jobs)
        × ((k : String) (c : T)
            → get k t ≡ some c
            → ((k ≡ job_id) × (c ≡ job)) ⊎ (get k s ≡ some c))
  unfolding activate clear IsApart IsIndexed lookup
  activate-IsWellFormed fuel job_id job true s w enough = (
    install job_id job (clear s),
    refl,
    record { indexed = (tt, λ k. refl); apart = refl; capped = omega arith },
    active_is_found job_id job (clear s),
    refl,
    λ k c e. elim (get-install k job_id job c (clear s) e) [
      | inl it ↦ inl it
      | inr old ↦ absurd (ground (arith, old))
    ],
  )
  activate-IsWellFormed fuel job_id job false s w enough =
      let s1 = remove_past job_id s in
      let s2 = retire job_id s1 in
      let (ready, longer, same) =
        retire-IsReady job_id s1.active_job s1.past_jobs s1.past_job_order s1.max_past_jobs
          (remove_past-IsIndexed job_id s w.indexed) (remove_past-IsApart job_id s w.apart) in
      let (t, e, r) =
        evict-ends fuel s2.active_job s2.past_jobs s2.past_job_order s2.max_past_jobs ready.indexed
          (omega (arith, longer, remove_past-shorter job_id s)) in
      (
        install job_id job t,
        ap (install_result job_id job) e,
        record { indexed = r.indexed; apart = r.fewer job_id ready.away; capped = r.capped },
        active_is_found job_id job t,
        r.same_cap ∙ same ∙ remove_past-same_cap job_id s,
        λ k c e'. elim (get-install k job_id job c t e') [
          | inl it ↦ inl it
          | inr old ↦ inr (before_retire k job_id c s w.apart (r.kept k c old))
        ],
      )

  -- A store as `new` makes it is well-formed, and its cap is not zero when the default is not.
  pub new-IsWellFormed :
      (default : ℕ) (max_past_jobs : Option ℕ)
      → 0 < default
      → let s : Sv1JobStore T = new default max_past_jobs in IsWellFormed s × (0 < s.max_past_jobs)
  unfolding new IsIndexed IsApart lookup
  new-IsWellFormed default none positive =
      (record { indexed = (tt, λ k. refl); apart = tt; capped = omega arith }, positive)
  new-IsWellFormed default (some zero) positive =
      (record { indexed = (tt, λ k. refl); apart = tt; capped = omega arith }, positive)
  new-IsWellFormed default (some (suc n)) positive =
      (record { indexed = (tt, λ k. refl); apart = tt; capped = omega arith }, omega arith)
