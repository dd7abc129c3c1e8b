-- ===== src/Translator/JobStore/Eviction.antt =====
-- The eviction loop of `activate`: the order's length is enough fuel, one round more.
use sv2_apps_fork.Prelude.{
  ℕ, zero, suc, ◌≤◌, ◌<◌, ◌≡◌, refl, ◌∙◌, inl, inr, true, false, Option, none, some, List, [], ◌∷◌,
  String, ltb, string_eq, length, arith, Bool-cases,
}
use sv2_apps_fork.Prelude.Assoc.{Assoc, lookup, lookup_of_without, without, without-none}
use sv2_apps_fork.Translator.JobStore.{ActiveJob, Sv1JobStore, evict_front, evict}
use sv2_apps_fork.Translator.JobStore.Invariant.{IsIndexed, front-IsIndexed, empty_of_no_keys}

module _ {T : Type 0} where
  -- What the eviction keeps, besides the index.
  pub record IsTrimmed (s t : Sv1JobStore T) : Type 0 where
    pub indexed : IsIndexed t.past_job_order t.past_jobs
    pub capped : length t.past_jobs ≤ t.max_past_jobs
    pub same_active : t.active_job ≡ s.active_job
    pub same_cap : t.max_past_jobs ≡ s.max_past_jobs
    pub fewer : (k : String) → lookup k s.past_jobs ≡ none → lookup k t.past_jobs ≡ none
    pub kept :
        (k : String) (job : T) → lookup k t.past_jobs ≡ some job → lookup k s.past_jobs ≡ some job

  abbrev pub store : Option (ActiveJob T) → Assoc String T → List String → ℕ → Sv1JobStore T
  store active_job past order cap = record {
    active_job = active_job;
    past_jobs = past;
    past_job_order = order;
    max_past_jobs = cap;
  }

  evict-stops :
      (fuel : ℕ) (s : Sv1JobStore T)
      → ltb s.max_past_jobs (length s.past_jobs) ≡ false
      → evict (suc fuel) s ≡ some s
  unfolding evict
  evict-stops fuel s fits = rw (fits) refl

  evict-goes_on :
      (fuel : ℕ) (s : Sv1JobStore T)
      → ltb s.max_past_jobs (length s.past_jobs) ≡ true
      → evict (suc fuel) s ≡ evict fuel (evict_front s)
  unfolding evict
  evict-goes_on fuel s over = rw (over) refl

  IsTrimmed-further :
      (active_job : Option (ActiveJob T)) (past : Assoc String T) (j : String) (order : List String)
      (cap : ℕ) (t : Sv1JobStore T)
      → IsTrimmed (store active_job (without j past) order cap) t
      → IsTrimmed (store active_job past (j ∷ order) cap) t
  IsTrimmed-further active_job past j order cap t r = record {
    indexed = r.indexed;
    capped = r.capped;
    same_active = r.same_active;
    same_cap = r.same_cap;
    fewer = λ k e. r.fewer k (without-none j k past e);
    kept = λ k job e. lookup_of_without j k job past (r.kept k job e);
  }

  pub evict-ends :
      (fuel : ℕ) (active_job : Option (ActiveJob T)) (past : Assoc String T) (order : List String)
      (cap : ℕ)
      → IsIndexed order past
      → length order < fuel
      → let s : Sv1JobStore T = store active_job past order cap in
        (t : Sv1JobStore T) × (evict fuel s ≡ some t) × IsTrimmed s t
  unfolding evict_front
  evict-ends zero active_job past order cap i enough = absurd (omega arith)
  evict-ends (suc fuel) active_job past [] cap i enough =
      let s = store active_job past [] cap in
      let none_left = empty_of_no_keys past i in
      (
        s,
        evict-stops fuel s (ground (arith, none_left)),
        record {
          indexed = i;
          capped = omega (arith, none_left);
          same_active = refl;
          same_cap = refl;
          fewer = λ k e. e;
          kept = λ k job e. e;
        },
      )
  evict-ends (suc fuel) active_job past (j ∷ order) cap i enough =
      let s = store active_job past (j ∷ order) cap in
      elim (Bool-cases (ltb cap (length past))) [
        | inl over ↦
            let (t, e, r) =
              evict-ends fuel active_job (without j past) order cap (front-IsIndexed j order past i)
                (omega (arith, enough)) in
            (t, evict-goes_on fuel s over ∙ e, IsTrimmed-further active_job past j order cap t r)
        | inr fits ↦ (
          s,
          evict-stops fuel s fits,
          record {
            indexed = i;
            capped = ground (arith, fits);
            same_active = refl;
            same_cap = refl;
            fewer = λ k e. e;
            kept = λ k job e. e;
          },
        )
      ]
