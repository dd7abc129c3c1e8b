-- ===== src/Translator/Downstream/Extranonces.antt =====
-- Runs of what happens to a subscribed miner.
use sv2_apps_fork.Prelude.{
  ℕ, ◌≡◌, ◌<◌, refl, inl, inr, true, false, not, ◌||◌, Option, none, some, List, [], ◌∷◌, String,
  arith, Bool-cases,
}
use sv2_apps_fork.Translator.JobStore.Activation.{new-IsWellFormed}
use sv2_apps_fork.Translator.JobStore.Lookup.{get-new}
use sv2_apps_fork.Translator.Downstream.{
  Sv1SetupRequest, Sv1SessionState, record_response, insert_if_new, set_pending_target, is_ready,
  setup_complete, Extranonce, Notify, Sv1ServerEvent, job, difficulty, extranonce, complete,
  Sv1JobValidationContext, Downstream, Result, ok, channel_error, job_validation_context, new_data,
}
use sv2_apps_fork.Translator.Downstream.Delivery.{
  become_ready, release, enable_notification_forwarding, handle_sv1_server_message, with_data,
}
use sv2_apps_fork.Translator.Downstream.Views.{told_extranonce, told_job, Agrees, send_job-Agrees}

-- The first after success, the second after a refused message.
abbrev pub if_ok : Result → Downstream × Result → Downstream × Result → Downstream × Result
if_ok ok after stopped = after
if_ok channel_error after stopped = stopped

-- What happens to a subscribed miner: an event at a time, a setup response, the announcement that it
-- takes `mining.set_extranonce`, a new pending target, an accepted share.
pub data Step : Type 0 where
  handles : (now : ℕ) → Sv1ServerEvent → Step
  responds : Sv1SetupRequest → Step
  announces : Step
  retargets : (target : ℕ) → Step
  accepts : (max_seen_shares hash : ℕ) → Step

unfoldable pub step : Step → Downstream → Downstream × Result
step (handles now event) d = handle_sv1_server_message now event d
step (responds request) d =
    let data' = d.downstream_data in
    with_data d (record data' { session_state = (record_response request data'.session_state).0 })
step announces d = with_data d (record d.downstream_data { supports_set_extranonce = true })
step (retargets target) d = with_data d (set_pending_target target d.downstream_data)
step (accepts max hash) d =
    let data' = d.downstream_data in
    with_data d (record data' {
      accepted_share_hashes = (insert_if_new max hash data'.accepted_share_hashes).0;
    })

-- The steps until a message is refused.
unfoldable pub run : List Step → Downstream → Downstream × Result
unfolding step
run [] d = (d, ok)
run (s ∷ ss) d =
    let stepped = step s d in let rest = run ss stepped.0 in if_ok stepped.1 rest stepped

module _ (first : Extranonce) where
  abbrev pub AgreesIn : Downstream → Type 0
  AgreesIn d = Agrees first d.downstream_data d.sent

  release-Agrees :
      (now : ℕ) (n : Option Notify) (d : Downstream)
      → (release now n d).1 ≡ ok
      → AgreesIn d
      → AgreesIn (release now n d).0
  release-Agrees now none d e a = a
  release-Agrees now (some n) d e a = send_job-Agrees first now n d e a

  become_ready-Agrees :
      (r : Downstream × Result)
      → (become_ready r).1 ≡ ok
      → (r.1 ≡ ok → AgreesIn r.0)
      → AgreesIn (become_ready r).0
  unfolding job_validation_context
  become_ready-Agrees (d, ok) e f =
      let a = f refl in record { stored = a.stored; current = a.current; jobs = a.jobs }
  become_ready-Agrees (d, channel_error) e f = absurd (cc)

  forwarding-Agrees :
      (now : ℕ) (d : Downstream)
      → (enable_notification_forwarding now d).1 ≡ ok
      → AgreesIn d
      → AgreesIn (enable_notification_forwarding now d).0
  unfolding enable_notification_forwarding job_validation_context
  forwarding-Agrees now d e a =
      let data' = d.downstream_data in
      elim (Bool-cases (is_ready data'.session_state || not (setup_complete data'.session_state))) [
        | inl early ↦ rw (early) a
        | inr late ↦ rw (late) (
            become_ready-Agrees
              (release now data'.cached_notify
                (record d { downstream_data = record data' { cached_notify = none } }))
              (ground (arith, late, e))
              (λ went.
                release-Agrees now data'.cached_notify
                  (record d { downstream_data = record data' { cached_notify = none } }) went
                  (record { stored = a.stored; current = a.current; jobs = a.jobs })))
      ]

  handle_sv1_server_message-Agrees :
      (now : ℕ) (event : Sv1ServerEvent) (d : Downstream)
      → (handle_sv1_server_message now event d).1 ≡ ok
      → AgreesIn d
      → AgreesIn (handle_sv1_server_message now event d).0
  unfolding handle_sv1_server_message job_validation_context
  handle_sv1_server_message-Agrees now complete d e a = forwarding-Agrees now d e a
  handle_sv1_server_message-Agrees now (difficulty message) d e a = record {
    stored = a.stored;
    current = a.current;
    jobs = a.jobs;
  }
  handle_sv1_server_message-Agrees now (job n) d e a =
      elim (Bool-cases (is_ready d.downstream_data.session_state)) [
        | inl is ↦ rw (is) (send_job-Agrees first now n d (ground (arith, is, e)) a)
        | inr waits ↦ rw (waits) (record { stored = a.stored; current = a.current; jobs = a.jobs })
      ]
  handle_sv1_server_message-Agrees now (extranonce message true) d e a = record {
    stored = a.stored;
    current = refl;
    jobs = a.jobs;
  }
  handle_sv1_server_message-Agrees now (extranonce message false) d e a = record {
    stored = a.stored;
    current = a.current;
    jobs = a.jobs;
  }

  if_ok-Agrees :
      (r : Result) (after stopped : Downstream × Result)
      → (if_ok r after stopped).1 ≡ ok
      → stopped.1 ≡ r
      → (r ≡ ok → after.1 ≡ ok → AgreesIn after.0)
      → AgreesIn (if_ok r after stopped).0
  if_ok-Agrees ok after stopped e same f = f refl e
  if_ok-Agrees channel_error after stopped e same f = absurd (ground (arith, e, same))

  step-Agrees : (s : Step) (d : Downstream) → (step s d).1 ≡ ok → AgreesIn d → AgreesIn (step s d).0
  unfolding step job_validation_context set_pending_target
  step-Agrees (handles now event) d e a = handle_sv1_server_message-Agrees now event d e a
  step-Agrees (responds request) d e a = record {
    stored = a.stored;
    current = a.current;
    jobs = a.jobs;
  }
  step-Agrees announces d e a = record { stored = a.stored; current = a.current; jobs = a.jobs }
  step-Agrees (retargets target) d e a = record {
    stored = a.stored;
    current = a.current;
    jobs = a.jobs;
  }
  step-Agrees (accepts max hash) d e a = record {
    stored = a.stored;
    current = a.current;
    jobs = a.jobs;
  }

  run-Agrees :
      (steps : List Step) (d : Downstream)
      → (run steps d).1 ≡ ok
      → AgreesIn d
      → AgreesIn (run steps d).0
  unfolding run
  run-Agrees [] d e a = a
  run-Agrees (s ∷ ss) d e a =
      let stepped = step s d in
      if_ok-Agrees stepped.1 (run ss stepped.0) stepped e refl
        (λ went later. run-Agrees ss stepped.0 later (step-Agrees s d went a))

-- A subscribed miner to which nothing was sent yet.
abbrev pub subscribed :
    (default_past_jobs target : ℕ) (max_past_jobs : Option ℕ) (room : ℕ)
    → (first : Extranonce) → Sv1SessionState
    → Downstream
subscribed default_past_jobs target max_past_jobs room first session = record {
  downstream_data = record (new_data default_past_jobs target max_past_jobs) {
    extranonce = first;
    session_state = session;
  };
  sent = [];
  room = room;
  disconnected = false;
}

-- When past jobs are kept by default: from the subscribe response with its extranonce on, whatever
-- steps follow, as long as no message is refused, a job that the miner's shares are still validated for was sent to it, and they are
-- validated with the extranonce that it had been told by then.
pub validated_as_told :
    (default_past_jobs target : ℕ) (max_past_jobs : Option ℕ) (room : ℕ)
    → 0 < default_past_jobs
    → (first : Extranonce) (session : Sv1SessionState) (steps : List Step)
    → let (d, r) =
        run steps (subscribed default_past_jobs target max_past_jobs room first session) in
      r ≡ ok
      → (job_id : String) (c : Sv1JobValidationContext)
      → job_validation_context job_id d.downstream_data ≡ some c
      → told_job first job_id d.sent ≡ some c.extranonce
unfolding new_data told_extranonce told_job job_validation_context
validated_as_told default_past_jobs target max_past_jobs room positive first session steps r job_id
      c found =
    (run-Agrees first steps (subscribed default_past_jobs target max_past_jobs room first session) r
        (record {
          stored = (new-IsWellFormed default_past_jobs max_past_jobs positive).0;
          current = refl;
          jobs = λ k c' e. absurd (
              ground (
                arith,
                get-new {T = Sv1JobValidationContext} k default_past_jobs max_past_jobs,
                e,
              ));
        })).jobs
      job_id c found
