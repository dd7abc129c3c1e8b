-- ===== src/Tests/Declarations.antt =====
-- pool-apps/jd-server/src/lib/job_declarator: a client's requests.
use sv2_apps_fork.Prelude.{ℕ, ◌≡◌, ◌≢◌, ◌⊎◌, refl, some, [], ◌∷◌, arith}
use sv2_apps_fork.Prelude.Assoc.{lookup}
use sv2_apps_fork.JdServer.Tokens
use sv2_apps_fork.JdServer.TokenBytes.{to_le_bytes, le_bytes, parse_token, from_le_bytes}
use sv2_apps_fork.JdServer.Messages.{
  invalid_mining_job_token, accepted, refused, declare_mining_job_success, panicked,
}
use sv2_apps_fork.JdServer.Declarator.{JobDeclarator}
use sv2_apps_fork.JdServer.Declarator.Declare.{
  handle_declare_mining_job, handle_provide_missing_transactions_success,
}
use sv2_apps_fork.JdServer.Declarator.Lifecycle.{
  handle_set_custom_mining_job, cleanup_downstream, custom_response,
}
use sv2_apps_fork.JdServer.Declarator.Responses.{Responds, handle_declare_mining_job-Responds}
use sv2_apps_fork.JdServer.Declarator.CustomJobs.{
  IsEntitled, handle_set_custom_mining_job_cases, custom_job_once, used, engine_call,
}
use sv2_apps_fork.JdServer.Declarator.Disconnects.{EndsRefused, disconnect_while_validating}
use sv2_apps_fork.JdServer.Declarator.Journey.{Ready, declared, allocation_message, job_accepted}
use sv2_apps_fork.JdServer.Declarator.Pending.{HoldsParsed}
use sv2_apps_fork.JdServer.Declarator.Panics.{
  handle_declare_mining_job-HoldsParsed, handle_provide_missing_transactions_success_settles,
}
use sv2_apps_fork.Tests.Fixture.{
  accepting, lacking_one, env, jd, granted, activated, ask, declaration, custom,
}

ready : Ready accepting env 7 70 jd ask declaration custom
unfolding lookup to_le_bytes le_bytes
ready = record {
  here = refl;
  open' = refl;
  room = omega arith;
  accepts = refl;
  accepts_custom = refl;
  names_token = refl;
  names_active = refl;
}

job_accepted_example :
    ((declared accepting env 7 70 jd ask declaration custom).delivered
      ≡ (70, declare_mining_job_success 2 (to_le_bytes 2))
        ∷ (70, allocation_message accepting env 7 70 jd ask declaration custom)
        ∷ [])
    × ((handle_set_custom_mining_job accepting custom "alice"
          (declared accepting env 7 70 jd ask declaration custom)).1
        ≡ accepted 3 4 0)
job_accepted_example = job_accepted accepting env 7 70 jd ask declaration custom ready

custom_job_once_example :
    let jd' = (handle_set_custom_mining_job accepting custom "alice" activated).0 in
    handle_set_custom_mining_job accepting custom "bob" jd'
    ≡ (jd', refused 4 3 invalid_mining_job_token)
unfolding handle_set_custom_mining_job parse_token from_le_bytes Tokens.allocated_from_active lookup
custom_job_once_example =
    custom_job_once accepting custom custom "alice" "bob" activated 3 4 0 refl refl

handle_set_custom_mining_job_cases_example :
    ((e : IsEntitled activated.token_manager custom "alice") × (handle_set_custom_mining_job
          accepting custom "alice" activated
        ≡ (
          used accepting custom "alice" activated e.token e.bound,
          custom_response 3 4 (engine_call accepting custom "alice" activated e.token e.bound).1,
        )))
    ⊎ (¬ IsEntitled activated.token_manager custom "alice"
        × (handle_set_custom_mining_job accepting custom "alice" activated
            ≡ (activated, refused 4 3 invalid_mining_job_token)))
handle_set_custom_mining_job_cases_example =
    handle_set_custom_mining_job_cases accepting custom "alice" activated

handle_declare_mining_job-Responds_example :
    Responds 7 2 granted
      (handle_declare_mining_job lacking_one (λ s. s) env (some 7) declaration granted)
handle_declare_mining_job-Responds_example =
    handle_declare_mining_job-Responds lacking_one (λ s. s) (λ s. refl) env 7 declaration granted

nothing_pending : HoldsParsed granted
unfolding lookup
nothing_pending = λ c r d entry e f. absurd (ground (arith, e, f))

abbrev waiting : JobDeclarator ℕ
waiting = (handle_declare_mining_job lacking_one (λ s. s) env (some 7) declaration granted).0

waiting-HoldsParsed : HoldsParsed waiting
waiting-HoldsParsed =
    handle_declare_mining_job-HoldsParsed env 7 lacking_one (λ s. s) (λ s h. h) declaration granted
      nothing_pending

handle_provide_missing_transactions_success_settles_example :
    let r =
      handle_provide_missing_transactions_success accepting
        (λ s. s)
        env
        (some 7)
        (record { request_id = 2; transaction_list = [] })
        waiting in
    Responds 7 2 waiting r × (r.1 ≢ panicked)
handle_provide_missing_transactions_success_settles_example =
    handle_provide_missing_transactions_success_settles env 7 accepting (λ s. s) (λ s. refl)
      (record { request_id = 2; transaction_list = [] }) waiting waiting-HoldsParsed

disconnect_while_validating_example :
    EndsRefused env 7 70 2 granted
      (handle_declare_mining_job accepting
        (cleanup_downstream accepting 7)
        env
        (some 7)
        declaration
        granted).0
unfolding lookup parse_token from_le_bytes Tokens.is_allocated
disconnect_while_validating_example =
    disconnect_while_validating accepting env 7 70 1 declaration granted refl refl refl
