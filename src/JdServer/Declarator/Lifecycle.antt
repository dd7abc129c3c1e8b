-- ===== src/JdServer/Declarator/Lifecycle.antt =====
-- The other handlers of job_declarator/mod.rs and job_declaration_message_handler.rs: allocation,
-- solutions, custom jobs, clean-up, and what an error makes the message loop do.
use sv2_apps_fork.Prelude.{
  ℕ, ◌+◌, String, Option, none, some, List, [], ◌∷◌, if◌then◌else◌, ◌==◌, nat_eq, string_eq,
}
use sv2_apps_fork.Prelude.Assoc.{lookup, insert, without}
use sv2_apps_fork.JdServer.Tokens
use sv2_apps_fork.JdServer.Tokens.{TokenManager, ActiveTokenData}
use sv2_apps_fork.JdServer.TokenBytes.{to_le_bytes, parse_token}
use sv2_apps_fork.JdServer.Messages.{
  AllocateMiningJobToken, invalid_mining_job_token, PushSolution, SetCustomMiningJob,
  allocate_mining_job_token_success, SetCustomMiningJobResponse, accepted, refused,
  SetCustomMiningJobResult, custom_success, custom_error, Action, log, disconnect, shutdown,
  LoopControl, continue, break, ok, JobValidationEngine, Env,
}
use sv2_apps_fork.JdServer.Declarator.{
  Downstream, JobDeclarator, Exec, ◌>>=◌, require_client, client_sender, send,
}

abbrev pub custom_response : ℕ → ℕ → SetCustomMiningJobResult → SetCustomMiningJobResponse
custom_response channel_id request_id custom_success = accepted channel_id request_id 0
custom_response channel_id request_id (custom_error code) = refused request_id channel_id code

abbrev pub cancel_if_present : ℕ → Option Downstream → List ℕ → List ℕ
cancel_if_present downstream_id none cancelled = cancelled
cancel_if_present downstream_id (some _) cancelled = downstream_id ∷ cancelled

module _ {V : Type 0} where
  unfoldable pub handle_allocate_mining_job_token :
      Env → Option ℕ → AllocateMiningJobToken → Exec V (Unit {0})
  unfolding Tokens.allocate
  handle_allocate_mining_job_token env client msg = do
    client_id ← require_client client
    token ← (λ jd.
        let (tm, t) = Tokens.allocate jd.token_manager env.now client_id msg.user_identifier in
        (record jd { token_manager = tm }, ok t))
    script ← (λ jd. (jd, ok jd.coinbase_reward_script))
    sender ← client_sender client_id
    send env client_id sender (
        allocate_mining_job_token_success msg.request_id (to_le_bytes token)
          (env.serialize (record { value = 0; script_pubkey = script } ∷ [])))

  unfoldable pub handle_push_solution :
      JobValidationEngine V → Option ℕ → PushSolution → Exec V (Unit {0})
  handle_push_solution engine client msg = do
    client_id ← require_client client
    (λ jd. (
      record jd { job_validator = engine.handle_push_solution jd.job_validator client_id msg },
      ok tt,
    ))

  -- The token is active: the identity must be the one that it was allocated under.
  abbrev pub custom_job_of :
      JobValidationEngine V
      → SetCustomMiningJob
      → String
      → ℕ
      → Option ActiveTokenData
      → JobDeclarator V
      → JobDeclarator V × SetCustomMiningJobResponse
  custom_job_of engine msg user_identity active_token none jd =
      (jd, refused msg.request_id msg.channel_id invalid_mining_job_token)
  custom_job_of engine msg user_identity active_token (some bound) jd =
      if user_identity == bound.user_identity
      then (let tm = Tokens.deactivate jd.token_manager active_token in
          let (v, r) =
            engine.handle_set_custom_mining_job jd.job_validator bound.owner msg
              bound.allocated_token in
          (
            record jd { token_manager = tm; job_validator = v },
            custom_response msg.channel_id msg.request_id r,
          ))
      else (jd, refused msg.request_id msg.channel_id invalid_mining_job_token)

  abbrev pub custom_job_with :
      JobValidationEngine V
      → SetCustomMiningJob
      → String
      → Option ℕ
      → JobDeclarator V
      → JobDeclarator V × SetCustomMiningJobResponse
  custom_job_with engine msg user_identity none jd =
      (jd, refused msg.request_id msg.channel_id invalid_mining_job_token)
  custom_job_with engine msg user_identity (some active_token) jd =
      custom_job_of engine msg user_identity active_token
        (Tokens.allocated_from_active jd.token_manager active_token) jd

  unfoldable pub handle_set_custom_mining_job :
      JobValidationEngine V
      → SetCustomMiningJob
      → String
      → JobDeclarator V
      → JobDeclarator V × SetCustomMiningJobResponse
  handle_set_custom_mining_job engine msg user_identity jd =
      custom_job_with engine msg user_identity (parse_token msg.token) jd

  unfoldable pub cleanup_downstream : JobValidationEngine V → ℕ → JobDeclarator V → JobDeclarator V
  cleanup_downstream engine downstream_id jd = record jd {
    cancelled =
        cancel_if_present downstream_id (lookup downstream_id jd.downstream_clients) jd.cancelled;
    downstream_clients = without downstream_id jd.downstream_clients;
    downstream_client_senders = without downstream_id jd.downstream_client_senders;
    job_validator = engine.cleanup_downstream jd.job_validator downstream_id;
    token_manager = Tokens.remove_downstream jd.token_manager downstream_id;
  }

  unfoldable pub handle_error_action :
      JobValidationEngine V → JobDeclarator V → Action → JobDeclarator V × LoopControl
  unfolding cleanup_downstream
  handle_error_action engine jd log = (jd, continue)
  handle_error_action engine jd (disconnect downstream_id) =
      (cleanup_downstream engine downstream_id jd, continue)
  handle_error_action engine jd shutdown = (jd, break)

  -- A connection whose handshake is done gets the next identifier and a channel of its own.
  unfoldable pub accept_downstream : ℕ → JobDeclarator V → JobDeclarator V
  accept_downstream to_downstream_sender jd =
      let downstream_id = jd.downstream_id_factory in
      let downstream : Downstream = record { pending_declare_mining_jobs = [] } in
      record jd {
        downstream_id_factory = downstream_id + 1;
        downstream_clients = insert downstream_id downstream jd.downstream_clients;
        downstream_client_senders =
            insert downstream_id to_downstream_sender jd.downstream_client_senders;
      }

  unfoldable pub shutdown_declarator : JobValidationEngine V → JobDeclarator V → JobDeclarator V
  shutdown_declarator engine jd = record jd {
    downstream_client_senders = [];
    downstream_clients = [];
    job_validator = engine.shutdown_engine jd.job_validator;
  }
