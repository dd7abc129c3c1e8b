-- ===== src/Translator/Keepalive.antt =====
-- miner-apps/translator/src/lib/sv1/sv1_server/mod.rs: keepalive jobs, which repeat the newest job at
-- a later time for miners that had no job for an interval. Time is in the units of the interval;
-- numbers of 32 bits saturate or wrap as written.
pub mod Ids
pub mod Times
use sv2_apps_fork.Prelude.{
  ℕ, zero, suc, ◌+◌, ◌-◌, ◌%◌, ◌^◌, Bool, true, false, not, ◌&&◌, Option, none, some, List, [], ◌∷◌,
  ◌++◌, String, if◌then◌else◌, ◌==◌, nat_eq, ltb, leb,
}
use sv2_apps_fork.Prelude.Assoc.{Assoc, lookup, adjust}
use sv2_apps_fork.Translator.JobStore
use sv2_apps_fork.Translator.JobStore.{Sv1JobStore}
use sv2_apps_fork.Translator.Downstream.{Notify, DownstreamData, is_ready, activate_job}
use sv2_apps_fork.Translator.Submission.{StoredSv1Job, Sv1Server, aggregated_channel_id}
use sv2_apps_fork.Translator.Keepalive.Ids.{original_id, next_keepalive_job_id, is_keepalive_job_id}

-- `saturating_add` of 32 bits.
abbrev pub saturating_add : ℕ → ℕ → ℕ
saturating_add a b = if leb (2 ^ 32) (a + b) then 2 ^ 32 - 1 else a + b

abbrev pub max_future_block_time : ℕ
max_future_block_time = 7200

-- The latest time of a keepalive job.
abbrev pub latest_time : (base_time : ℕ) → ℕ
latest_time base_time = saturating_add base_time max_future_block_time

unfoldable pub next_time : (interval time base_time : ℕ) → ℕ
next_time interval time base_time =
    if leb (saturating_add time interval) (latest_time base_time)
    then saturating_add time interval
    else latest_time base_time

abbrev pub resolve_channel_id : Sv1Server → ℕ → ℕ
resolve_channel_id s channel_id = if s.is_aggregated then aggregated_channel_id else channel_id

abbrev pub active_of : Option (Sv1JobStore StoredSv1Job) → Option StoredSv1Job
active_of none = none
active_of (some jobs) = JobStore.active jobs

unfoldable pub get_last_job : Sv1Server → (channel_id : ℕ) → Option StoredSv1Job
get_last_job s channel_id = active_of (lookup (resolve_channel_id s channel_id) s.valid_sv1_jobs)

unfoldable pub keepalive_of : (interval counter : ℕ) → StoredSv1Job → StoredSv1Job
keepalive_of interval counter last = record {
  notify = record last.notify {
    job_id = next_keepalive_job_id counter (original_id last.notify.job_id);
    time = next_time interval last.notify.time last.keepalive_base_time;
    clean_jobs = false;
  };
  keepalive_base_time = last.keepalive_base_time;
}

-- The job, when its time can still advance.
unfoldable pub create_keepalive_job :
    (interval channel_id : ℕ) → Sv1Server → Sv1Server × Option Notify
create_keepalive_job interval channel_id s = elim (get_last_job s channel_id) [
  | none ↦ (s, none)
  | some last ↦
      let stored = keepalive_of interval s.keepalive_job_id_counter last in
      if next_time interval last.notify.time last.keepalive_base_time == last.notify.time
      then (s, none)
      else (
        record s {
          keepalive_job_id_counter = (s.keepalive_job_id_counter + 1) % 2 ^ 32;
          valid_sv1_jobs =
              adjust (resolve_channel_id s channel_id)
                (activate_job stored.notify.job_id stored false) s.valid_sv1_jobs;
        },
        some stored.notify,
      )
]

abbrev pub anchored : (now : ℕ) → DownstreamData → DownstreamData
anchored now data' = record data' { keepalive_timer_anchor = some now }

abbrev pub deliver : (now downstream_id : ℕ) → Notify → Option Bool → Sv1Server → Sv1Server
deliver now id n (some true) s = record s {
  events = (id, n) ∷ s.events;
  downstreams = adjust id (anchored now) s.downstreams;
}
deliver now id n (some false) s = s
deliver now id n none s = s

unfoldable pub send_keepalive_to_downstream :
    (now downstream_id : ℕ) → Notify → Sv1Server → Sv1Server
send_keepalive_to_downstream now id n s =
    deliver now id n (lookup id s.sv1_server_to_downstream_sender) s

-- A ready miner with a channel whose last job is an interval old.
abbrev pub is_due : (now interval : ℕ) (anchor : Option ℕ) → Bool
is_due now interval none = false
is_due now interval (some last_time) = leb interval (now - last_time)

abbrev pub targets_of : (downstream_id : ℕ) (is_due : Bool) (channel_id : Option ℕ) → List (ℕ × ℕ)
targets_of id due none = []
targets_of id true (some channel_id) = (id, channel_id) ∷ []
targets_of id false (some channel_id) = []

unfoldable pub keepalive_targets : (now interval : ℕ) → Assoc ℕ DownstreamData → List (ℕ × ℕ)
keepalive_targets now interval [] = []
keepalive_targets now interval ((id, d) ∷ ds) =
    targets_of id (is_ready d.session_state && is_due now interval d.keepalive_timer_anchor)
      d.channel_id
    ++ keepalive_targets now interval ds

unfoldable pub send_to_all : (now : ℕ) → Notify → List (ℕ × ℕ) → Sv1Server → Sv1Server
send_to_all now n [] s = s
send_to_all now n ((id, channel_id) ∷ targets) s =
    send_to_all now n targets (send_keepalive_to_downstream now id n s)

-- A job of its own for each miner.
abbrev pub send_created : (now downstream_id : ℕ) → Sv1Server × Option Notify → Sv1Server
send_created now id (s, none) = s
send_created now id (s, some n) = send_keepalive_to_downstream now id n s

unfoldable pub send_each : (now interval : ℕ) → List (ℕ × ℕ) → Sv1Server → Sv1Server
send_each now interval [] s = s
send_each now interval ((id, channel_id) ∷ targets) s =
    send_each now interval targets
      (send_created now id (create_keepalive_job interval channel_id s))

-- Within an interval of the last mutation, the newest job if it is a keepalive job.
abbrev pub keepalive_only : Option StoredSv1Job → Option Notify
keepalive_only none = none
keepalive_only (some job) = if is_keepalive_job_id job.notify.job_id then some job.notify else none

abbrev pub mutated : (now : ℕ) → Sv1Server × Option Notify → Sv1Server × Option Notify
mutated now (s, none) = (s, none)
mutated now (s, some n) = (record s { aggregated_job_mutation_time = some now }, some n)

abbrev pub is_recent : (now interval : ℕ) (last_mutation : Option ℕ) → Bool
is_recent now interval none = false
is_recent now interval (some last_mutation) = ltb (now - last_mutation) interval

unfoldable pub shared_job : (now interval : ℕ) → Sv1Server → Sv1Server × Option Notify
shared_job now interval s =
    if is_recent now interval s.aggregated_job_mutation_time
    then (s, keepalive_only (get_last_job s aggregated_channel_id))
    else mutated now (create_keepalive_job interval aggregated_channel_id s)

abbrev pub send_shared : (now : ℕ) (targets : List (ℕ × ℕ)) → Sv1Server × Option Notify → Sv1Server
send_shared now targets (s, none) = s
send_shared now targets (s, some n) = send_to_all now n targets s

abbrev pub send_due : (now interval : ℕ) → List (ℕ × ℕ) → Sv1Server → Sv1Server
send_due now interval [] s = s
send_due now interval (target ∷ targets) s =
    if s.is_aggregated
    then send_shared now (target ∷ targets) (shared_job now interval s)
    else send_each now interval (target ∷ targets) s

unfoldable pub send_keepalive_jobs : (now interval : ℕ) → Sv1Server → Sv1Server
send_keepalive_jobs now interval s =
    send_due now interval (keepalive_targets now interval s.downstreams) s
