-- ===== src/Translator/JobStore.antt =====
-- miner-apps/translator/src/lib/sv1/job_store.rs: the jobs that an SV1 share may still refer to,
-- under their texts. `MAX_PAST_JOBS` of `channels_sv2` is a parameter of `new`. The eviction loop
-- runs on fuel.
pub mod Invariant
pub mod Eviction
pub mod Activation
pub mod Lookup
use sv2_apps_fork.Prelude.{
  ℕ, zero, suc, Bool, true, false, not, Option, none, some, List, [], ◌∷◌, ◌++◌, String, is_some,
  ltb, if◌then◌else◌, ◌==◌, string_eq, length, keep,
}
use sv2_apps_fork.Prelude.Assoc.{Assoc, lookup, insert, without}

pub record ActiveJob (T : Type 0) : Type 0 where
  pub job_id : String
  pub job : T

pub record Sv1JobStore (T : Type 0) : Type 0 where
  pub active_job : Option (ActiveJob T)
  pub past_jobs : Assoc String T
  pub past_job_order : List String
  pub max_past_jobs : ℕ

abbrev cap : ℕ → Option ℕ → ℕ
cap default none = default
cap default (some zero) = default
cap default (some (suc n)) = suc n

module _ {T : Type 0} where
  unfoldable pub new : ℕ → Option ℕ → Sv1JobStore T
  new default_past_jobs max_past_jobs = record {
    active_job = none;
    past_jobs = [];
    past_job_order = [];
    max_past_jobs = cap default_past_jobs max_past_jobs;
  }

  unfoldable pub remove_past : String → Sv1JobStore T → Sv1JobStore T
  remove_past job_id s =
      if is_some (lookup job_id s.past_jobs)
      then (record s {
        past_jobs = without job_id s.past_jobs;
        past_job_order = keep (λ past_job_id. not (past_job_id == job_id)) s.past_job_order;
      })
      else s

  unfoldable pub clear : Sv1JobStore T → Sv1JobStore T
  clear s = record s { active_job = none; past_jobs = []; past_job_order = [] }

  -- The displaced active job is kept, unless it has the new job's id.
  unfoldable pub retire : String → Sv1JobStore T → Sv1JobStore T
  retire job_id s = elim (s.active_job) [
    | none ↦ s
    | some active ↦
        let taken : Sv1JobStore T = record s { active_job = none } in
        if active.job_id == job_id then taken else (record taken {
          past_job_order = s.past_job_order ++ (active.job_id ∷ []);
          past_jobs = insert active.job_id active.job s.past_jobs;
        })
  ]

  -- `pop_front` of the order, and the removal of what it gave.
  unfoldable pub evict_front : Sv1JobStore T → Sv1JobStore T
  evict_front s = elim (s.past_job_order) [
    | [] ↦ s
    | evicted ∷ rest ↦ record s { past_job_order = rest; past_jobs = without evicted s.past_jobs }
  ]

  -- `while self.past_jobs.len() > self.max_past_jobs`; none when the fuel ends first.
  unfoldable pub evict : ℕ → Sv1JobStore T → Option (Sv1JobStore T)
  evict zero s = none
  evict (suc fuel) s =
      let rest = evict fuel (evict_front s) in
      if ltb s.max_past_jobs (length s.past_jobs) then rest else some s

  abbrev pub install : String → T → Sv1JobStore T → Sv1JobStore T
  install job_id job s = record s { active_job = some (record { job_id = job_id; job = job }) }

  abbrev pub install_result : String → T → Option (Sv1JobStore T) → Option (Sv1JobStore T)
  install_result job_id job none = none
  install_result job_id job (some s) = some (install job_id job s)

  unfoldable pub activate : ℕ → String → T → Bool → Sv1JobStore T → Option (Sv1JobStore T)
  activate fuel job_id job clean_jobs s =
      if clean_jobs
      then some (install job_id job (clear s))
      else install_result job_id job (evict fuel (retire job_id (remove_past job_id s)))

  abbrev pub active_named : String → Option (ActiveJob T) → Option T
  active_named job_id none = none
  active_named job_id (some active) = if active.job_id == job_id then some active.job else none

  abbrev pub or_else : Option T → Option T → Option T
  or_else none other = other
  or_else (some a) other = some a

  unfoldable pub get : String → Sv1JobStore T → Option T
  get job_id s = or_else (active_named job_id s.active_job) (lookup job_id s.past_jobs)

  unfoldable pub active : Sv1JobStore T → Option T
  active s = elim (s.active_job) [ none ↦ none | some a ↦ some a.job ]
