-- ===== src/Translator/Keepalive/Times.antt =====
-- The times of keepalive jobs.
use sv2_apps_fork.Prelude.{
  ℕ, zero, suc, ◌+◌, ◌-◌, ◌%◌, ◌^◌, ◌<◌, ◌≤◌, ◌≡◌, ◌⊎◌, refl, ap, ◌∙◌, inl, inr, false, none, some,
  if◌then◌else◌, ◌==◌, nat_eq, is_some, arith, Bool-cases,
}
use sv2_apps_fork.Prelude.Assoc.{lookup, adjust, lookup-adjust}
use sv2_apps_fork.Translator.JobStore
use sv2_apps_fork.Translator.JobStore.{Sv1JobStore}
use sv2_apps_fork.Translator.JobStore.Invariant.{IsWellFormed}
use sv2_apps_fork.Translator.Downstream.{activate_job}
use sv2_apps_fork.Translator.Downstream.Views.{activate_job-IsActivated}
use sv2_apps_fork.Translator.Submission.{StoredSv1Job, Sv1Server}
use sv2_apps_fork.Translator.Keepalive.{
  latest_time, next_time, resolve_channel_id, active_of, get_last_job, keepalive_of,
  create_keepalive_job,
}
use sv2_apps_fork.Translator.Keepalive.Ids.{original_id, original_id-next}

next_time-range :
    (interval time base_time : ℕ)
    → time < 2 ^ 32
    → time ≤ latest_time base_time
    → (next_time interval time base_time == time) ≡ false
    → (time < next_time interval time base_time)
      × (next_time interval time base_time ≤ latest_time base_time)
unfolding next_time
next_time-range interval time base_time h k e =
    ground (arith, h, k, e, nat_eq.agrees_iff (next_time interval time base_time) time)

-- The newest job of a channel, in a store that is consistent, at a time that is not too late.
pub record HasJob (s : Sv1Server) (channel_id : ℕ) (job : StoredSv1Job) : Type 0 where
  pub jobs : Sv1JobStore StoredSv1Job
  pub held : lookup (resolve_channel_id s channel_id) s.valid_sv1_jobs ≡ some jobs
  pub consistent : IsWellFormed jobs
  pub newest : JobStore.active jobs ≡ some job
  pub fits : job.notify.time < 2 ^ 32
  pub on_time : job.notify.time ≤ latest_time job.keepalive_base_time

get_last_job-HasJob :
    (s : Sv1Server) (channel_id : ℕ) (job : StoredSv1Job)
    → HasJob s channel_id job
    → get_last_job s channel_id ≡ some job
unfolding get_last_job
get_last_job-HasJob s channel_id job h = ap active_of h.held ∙ h.newest

-- A keepalive job that follows a job.
pub record Follows (job next : StoredSv1Job) : Type 0 where
  pub later : job.notify.time < next.notify.time
  pub same_base : next.keepalive_base_time ≡ job.keepalive_base_time
  pub same_job : original_id next.notify.job_id ≡ original_id job.notify.job_id
  pub keeps_jobs : next.notify.clean_jobs ≡ false

latest_time-fits : (base_time : ℕ) → latest_time base_time < 2 ^ 32
latest_time-fits base_time = ground arith

keepalive-Follows :
    (interval counter : ℕ) (job : StoredSv1Job)
    → job.notify.time < 2 ^ 32
    → job.notify.time ≤ latest_time job.keepalive_base_time
    → (next_time interval job.notify.time job.keepalive_base_time == job.notify.time) ≡ false
    → Follows job (keepalive_of interval counter job)
unfolding keepalive_of
keepalive-Follows interval counter job fits on_time e = record {
  later = (next_time-range interval job.notify.time job.keepalive_base_time fits on_time e).0;
  same_base = refl;
  same_job = original_id-next counter job.notify.job_id;
  keeps_jobs = refl;
}

-- The state after a keepalive job was made.
advanced : (interval channel_id : ℕ) → StoredSv1Job → Sv1Server → Sv1Server
advanced interval channel_id job s =
    let stored = keepalive_of interval s.keepalive_job_id_counter job in
    record s {
      keepalive_job_id_counter = (s.keepalive_job_id_counter + 1) % 2 ^ 32;
      valid_sv1_jobs =
          adjust (resolve_channel_id s channel_id) (activate_job stored.notify.job_id stored false)
            s.valid_sv1_jobs;
    }

advanced-HasJob :
    (interval channel_id : ℕ) (s : Sv1Server) (job : StoredSv1Job)
    → HasJob s channel_id job
    → (next_time interval job.notify.time job.keepalive_base_time == job.notify.time) ≡ false
    → HasJob
        (advanced interval channel_id job s)
        channel_id
        (keepalive_of interval s.keepalive_job_id_counter job)
unfolding advanced keepalive_of
advanced-HasJob interval channel_id s job h e =
    let stored = keepalive_of interval s.keepalive_job_id_counter job in
    let act = activate_job-IsActivated stored.notify.job_id stored false h.jobs h.consistent in
    let (later, on_time) =
      next_time-range interval job.notify.time job.keepalive_base_time h.fits h.on_time e in
    let key = resolve_channel_id s channel_id in
    record {
      jobs = activate_job stored.notify.job_id stored false h.jobs;
      held =
          lookup-adjust key key (activate_job stored.notify.job_id stored false) s.valid_sv1_jobs
          ∙ rw ((nat_eq.agrees_iff key key).1 refl, h.held) refl;
      consistent = act.well_formed;
      newest = act.newest;
      fits = omega (arith, latest_time-fits job.keepalive_base_time, on_time);
      on_time = on_time;
    }

-- A keepalive job is made from the newest job of a channel and becomes the newest: it is later than
-- the job before, at most two hours after the upstream job, leads back to the same upstream job, and
-- keeps the older jobs; or nothing changes, when the time can no longer advance. The store is
-- consistent, and the newest job's time at most two hours after the upstream job's.
pub create_keepalive_job_cases :
    (interval channel_id : ℕ) (s : Sv1Server) (job : StoredSv1Job)
    → HasJob s channel_id job
    → let (s', made) = create_keepalive_job interval channel_id s in
      ((made ≡ none) × (s' ≡ s))
      ⊎ ((next : StoredSv1Job) × (made ≡ some next.notify)
          × HasJob s' channel_id next
          × Follows job next)
unfolding create_keepalive_job advanced
create_keepalive_job_cases interval channel_id s job h =
    let last = get_last_job-HasJob s channel_id job h in
    let next = next_time interval job.notify.time job.keepalive_base_time in
    elim (Bool-cases (next == job.notify.time)) [
      | inl stuck ↦ rw (last, create_keepalive_job, stuck) (inl (refl, refl))
      | inr advances ↦
          rw (last, create_keepalive_job, advances)
            (inr (
              keepalive_of interval s.keepalive_job_id_counter job,
              refl,
              advanced-HasJob interval channel_id s job h advances,
              keepalive-Follows interval s.keepalive_job_id_counter job h.fits h.on_time advances,
            ))
    ]

-- The keepalive jobs that some calls make.
unfoldable pub count_made : (calls interval channel_id : ℕ) → Sv1Server → ℕ
count_made zero interval channel_id s = 0
count_made (suc calls) interval channel_id s =
    let (s', made) = create_keepalive_job interval channel_id s in
    let rest = count_made calls interval channel_id s' in if is_some made then suc rest else rest

count_made-within :
    (calls interval channel_id : ℕ) (s : Sv1Server) (job : StoredSv1Job)
    → HasJob s channel_id job
    → count_made calls interval channel_id s ≤ latest_time job.keepalive_base_time - job.notify.time
unfolding count_made
count_made-within zero interval channel_id s job h = omega arith
count_made-within (suc calls) interval channel_id s job h =
    elim (create_keepalive_job_cases interval channel_id s job h) [
      | inl (made, same) ↦ rw (made, same) (count_made-within calls interval channel_id s job h)
      | inr (next, made, h', f) ↦
          let rest = count_made-within calls interval channel_id _ next h' in
          let bound : latest_time next.keepalive_base_time ≡ latest_time job.keepalive_base_time =
            ap latest_time f.same_base in
          rw (made) (omega (arith, rest, f.later, h'.on_time, bound))
    ]

latest_time-le : (base_time : ℕ) → latest_time base_time ≤ base_time + 7200
latest_time-le base_time = ground arith

-- Between two upstream jobs, however often it is called for a channel, at most 7200 keepalive jobs
-- are made, when the channel has a newest job in a consistent store, at a time from its upstream
-- job's to two hours later.
pub keepalives_end :
    (calls interval channel_id : ℕ) (s : Sv1Server) (job : StoredSv1Job)
    → HasJob s channel_id job
    → job.keepalive_base_time ≤ job.notify.time
    → count_made calls interval channel_id s ≤ 7200
keepalives_end calls interval channel_id s job h started = omega (
  arith,
  count_made-within calls interval channel_id s job h,
  latest_time-le job.keepalive_base_time,
  started,
)
