-- ===== src/Tests/Miners.antt =====
-- SV1 miners at concrete inputs.
use sv2_apps_fork.Prelude.{
  ℕ, ◌≤◌, ◌≡◌, refl, true, false, none, some, List, [], ◌∷◌, arith, length, nat_eq,
}
use sv2_apps_fork.Prelude.Assoc.{lookup, insert}
use sv2_apps_fork.Translator.JobStore
use sv2_apps_fork.Translator.JobStore.{Sv1JobStore}
use sv2_apps_fork.Translator.Downstream.{
  Sv1SetupRequest, Sv1SessionState, starting, subscribe, authorize, ready, Extranonce, Notify,
  notify, set_difficulty, job, extranonce, complete, difficulty, Downstream, ok, new_data,
  record_response, record_job_validation_context, activate_job, set_pending_target,
  job_validation_context,
}
use sv2_apps_fork.Translator.Downstream.Shares.{
  insert_shares, accept_all, IsWindow, insert_shares-IsWindow,
}
use sv2_apps_fork.Translator.Downstream.Delivery.{
  handle_sv1_server_message, enable_notification_forwarding, send_job, send_all,
}
use sv2_apps_fork.Translator.Downstream.Views.{told_job}
use sv2_apps_fork.Translator.Downstream.Extranonces.{
  Step, handles, responds, announces, run, subscribed, validated_as_told,
}
use sv2_apps_fork.Translator.Downstream.Difficulty.{stale_difficulty}

abbrev requests : List Sv1SetupRequest
requests = authorize ∷ subscribe ∷ authorize ∷ []

insert_shares-IsWindow_example :
    let (hashes, accepted) = insert_shares 2 (5 ∷ 6 ∷ 5 ∷ 7 ∷ []) ([], []) in
    (accepted ≡ accept_all 2 (5 ∷ 6 ∷ 5 ∷ 7 ∷ []) [])
    × IsWindow 2 hashes accepted
    × (length hashes ≤ 2)
insert_shares-IsWindow_example = insert_shares-IsWindow 2 (5 ∷ 6 ∷ 5 ∷ 7 ∷ []) (omega arith)

abbrev first_job : Notify
first_job = record { job_id = "1"; clean_jobs = true; version = 5; time = 100; work = 0 }

-- A connected miner that is set up, and whose channel takes five messages.
abbrev miner : Downstream
miner = record {
  downstream_data = record (new_data 3 50 none) { session_state = ready };
  sent = [];
  room = 5;
  disconnected = false;
}

abbrev prefix : ℕ → Extranonce
prefix n = record { extra_nonce1 = n ∷ []; extra_nonce2_size = 4 }

-- A job, a change of the extranonce, and a job after it.
abbrev steps : List Step
steps =
    responds authorize
    ∷ announces
    ∷ handles 1 (job first_job)
    ∷ handles 1 complete
    ∷ handles 2 (extranonce (prefix 8) true)
    ∷ handles 3 (job (record first_job { job_id = "2"; clean_jobs = false }))
    ∷ []

abbrev session : Sv1SessionState
session = starting true false

abbrev start : Downstream
start = subscribed 3 50 none 5 (prefix 7) session

steps_go_well : (run steps start).1 ≡ ok
unfolding run new_data handle_sv1_server_message record_response enable_notification_forwarding
    send_job send_all record_job_validation_context activate_job JobStore.activate
steps_go_well = refl

-- The first job is still validated with the first extranonce.
old_context :
    job_validation_context "1" (run steps start).0.downstream_data
    ≡ some (record { extranonce = prefix 7; target = 50 })
unfolding run new_data handle_sv1_server_message record_response enable_notification_forwarding
    send_job send_all record_job_validation_context activate_job JobStore.activate
    job_validation_context JobStore.get JobStore.evict JobStore.retire JobStore.remove_past lookup
    JobStore.clear JobStore.new insert
old_context = refl

validated_as_told_example : told_job (prefix 7) "1" (run steps start).0.sent ≡ some (prefix 7)
validated_as_told_example =
    validated_as_told 3 50 none 5 (omega arith) (prefix 7) session steps steps_go_well "1"
      (record { extranonce = prefix 7; target = 50 }) old_context

stale_difficulty_example :
    let (told, r) =
      handle_sv1_server_message 1 (difficulty 4) (record miner {
        room = 2;
        downstream_data = set_pending_target 60 miner.downstream_data;
      }) in
    let harder = record told { downstream_data = set_pending_target 20 told.downstream_data } in
    let (after, r') = handle_sv1_server_message 1 (job first_job) harder in
    (r' ≡ ok)
    × (after.sent ≡ notify first_job ∷ set_difficulty 4 ∷ [])
    × (after.downstream_data.target ≡ 20)
unfolding new_data
stale_difficulty_example = stale_difficulty 1 60 20 4 0 first_job miner refl refl
