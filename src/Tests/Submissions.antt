-- ===== src/Tests/Submissions.antt =====
-- Submissions and keepalive jobs at concrete inputs.
use sv2_apps_fork.Prelude.{
  ℕ, String, Option, ◌≤◌, ◌≡◌, ◌↔◌, refl, true, false, none, some, [], ◌∷◌, arith, length, nat_eq,
}
use sv2_apps_fork.Prelude.Assoc.{lookup}
use sv2_apps_fork.Translator.JobStore
use sv2_apps_fork.Translator.JobStore.{Sv1JobStore}
use sv2_apps_fork.Translator.JobStore.Activation.{new-IsWellFormed}
use sv2_apps_fork.Translator.Downstream.{
  Notify, Submit, DownstreamData, Sv1JobValidationContext, ready, new_data, activate_job,
  insert_if_new, job_validation_context,
}
use sv2_apps_fork.Translator.Downstream.Views.{activate_job-IsActivated}
use sv2_apps_fork.Translator.Submission.{
  Hashing, StoredSv1Job, Sv1Server, accepted, rejected, duplicate_share, validate_sv1_share,
  handle_submit,
}
use sv2_apps_fork.Translator.Submission.Accepted.{IsAcceptable}
use sv2_apps_fork.Translator.Submission.Outcomes.{IsKept, handle_submit-accepted_iff, accepted_once}
use sv2_apps_fork.Translator.Keepalive.Times.{HasJob, count_made, keepalives_end}
use sv2_apps_fork.Translator.Downstream.{SubmitShareWithChannelId}
use sv2_apps_fork.Translator.Keepalive.Ids.{is_keepalive_job_id, extract_original_job_id}
use sv2_apps_fork.Translator.Handover.{Outbox, handle_submit_shares, upstream_job_id}
use sv2_apps_fork.Translator.Handover.Outcomes.{Handled, handle_submit_shares-Handled}

-- A hash is the nonce.
abbrev hashing : Hashing
hashing = record {
  version_rolling_mask = 6;
  prev_hash = λ job. some 1;
  merkle_root_from_path = λ job extranonce. some (length extranonce);
  block_hash = λ job version prev root time nonce. nonce;
}

abbrev work : Notify
work = record { job_id = "1"; clean_jobs = true; version = 4; time = 100; work = 0 }

abbrev stored_job : StoredSv1Job
stored_job = record { notify = work; keepalive_base_time = 100 }

abbrev context : Sv1JobValidationContext
context = record {
  extranonce = record { extra_nonce1 = 7 ∷ []; extra_nonce2_size = 4 };
  target = 50;
}

abbrev no_contexts : Sv1JobStore Sv1JobValidationContext
no_contexts = JobStore.new 3 none

abbrev no_jobs : Sv1JobStore StoredSv1Job
no_jobs = JobStore.new 3 none

abbrev jobs : Sv1JobStore StoredSv1Job
jobs = activate_job "1" stored_job true no_jobs

abbrev miner : DownstreamData
miner = record (new_data 3 50 none) {
  channel_id = some 5;
  session_state = ready;
  job_validation_contexts = activate_job "1" context true no_contexts;
}

abbrev server : Sv1Server
server = record {
  is_aggregated = false;
  valid_sv1_jobs = (5, jobs) ∷ [];
  downstreams = (9, miner) ∷ [];
  keepalive_job_id_counter = 0;
  aggregated_job_mutation_time = none;
  sv1_server_to_downstream_sender = (9, true) ∷ [];
  events = [];
}

abbrev share : Submit
share = record {
  job_id = "1";
  extra_nonce2 = 1 ∷ 2 ∷ [];
  time = 101;
  nonce = 30;
  version_bits = some 2;
}

handle_submit-accepted_iff_example :
    ((handle_submit hashing 10 9 share server).1 ≡ some accepted)
    ↔ IsAcceptable hashing 10 9 share server
handle_submit-accepted_iff_example = handle_submit-accepted_iff hashing 10 9 share server

share_is_accepted : (handle_submit hashing 10 9 share server).1 ≡ some accepted
unfolding handle_submit validate_sv1_share lookup new_data activate_job insert_if_new
    job_validation_context JobStore.get JobStore.activate JobStore.clear JobStore.new
share_is_accepted = refl

accepted_once_example :
    let t = (handle_submit hashing 10 9 share server).0 in
    IsKept hashing 10 9 share server t
    × ((handle_submit hashing 10 9 share t).1 ≡ some (rejected duplicate_share))
accepted_once_example = accepted_once hashing 10 9 share server share_is_accepted

server_job-HasJob : HasJob server 5 stored_job
unfolding lookup
server_job-HasJob =
    let act =
      activate_job-IsActivated "1" stored_job true no_jobs
        (new-IsWellFormed 3 none (omega arith)).0 in
    record {
      jobs = jobs;
      held = refl;
      consistent = act.well_formed;
      newest = act.newest;
      fits = omega arith;
      on_time = omega arith;
    }

keepalives_end_example : count_made 20000 60 5 server ≤ 7200
keepalives_end_example = keepalives_end 20000 60 5 server stored_job server_job-HasJob (omega arith)

-- A share becomes the id that it is submitted under.
abbrev build : Submit → ℕ → ℕ → ℕ → Option ℕ → Option String
build share channel_id sequence_number version mask = some share.job_id

abbrev outbox : Outbox String
outbox = record {
  shares_since_last_update = (9, 4) ∷ [];
  sequence_counter = 12;
  channel_manager_open = true;
  submitted = [];
}

abbrev message : SubmitShareWithChannelId
message = record {
  channel_id = 5;
  downstream_id = 9;
  share = record share { job_id = "1#8" };
  extranonce = context.extranonce;
  version_rolling_mask = none;
  job_version = some 4;
}

handle_submit_shares-Handled_example :
    Handled build true message
      ((9, miner) ∷ [])
      outbox
      (handle_submit_shares build true message ((9, miner) ∷ []) outbox)
handle_submit_shares-Handled_example =
    handle_submit_shares-Handled build true message ((9, miner) ∷ []) outbox

-- The share goes out without a worker, and as a share of the upstream job.
submitted_upstream :
    (handle_submit_shares build true message ((9, miner) ∷ []) outbox).0.submitted
    ≡ ("1", none) ∷ []
unfolding handle_submit_shares upstream_job_id is_keepalive_job_id extract_original_job_id lookup
    new_data
submitted_upstream = refl
