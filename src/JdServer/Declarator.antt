-- ===== src/JdServer/Declarator.antt =====
-- pool-apps/jd-server/src/lib/job_declarator/mod.rs: the state of the Job Declaration Protocol's
-- engine, and the actions on it that the handlers in the modules below are made of.
pub mod Declare
pub mod Lifecycle
pub mod Responses
pub mod CustomJobs
pub mod Spent
pub mod Disconnects
pub mod Journey
pub mod Pending
pub mod Panics
use sv2_apps_fork.Prelude.{
  ℕ, zero, suc, ◌+◌, ◌%◌, String, Bool, true, false, Option, none, some, List, [], ◌∷◌, not,
  if◌then◌else◌, ◌==◌, nat_eq, string_eq,
}
use sv2_apps_fork.Prelude.Assoc.{Assoc, lookup, insert, without}
use sv2_apps_fork.JdServer.Tokens
use sv2_apps_fork.JdServer.Tokens.{TokenManager, ActiveTokenData}
use sv2_apps_fork.JdServer.TokenBytes.{to_le_bytes, parse_token}
use sv2_apps_fork.JdServer.Messages.{
  AllocateMiningJobToken, ErrorCode, invalid_mining_job_token, missing_txs, DeclareMiningJob,
  ProvideMissingTransactionsSuccess, PushSolution, SetCustomMiningJob, TxOut, JobDeclaration,
  allocate_mining_job_token_success, declare_mining_job_success, declare_mining_job_error,
  provide_missing_transactions, SetCustomMiningJobResponse, accepted, refused,
  DeclareMiningJobResult, success, error, missing_transactions, SetCustomMiningJobResult,
  custom_success, custom_error, Action, log, disconnect, shutdown, LoopControl, continue, break,
  JdsErrorKind, client_not_found, client_sender_not_found, pending_declare_mining_job_not_found,
  channel_send, binary_sv2, JdsError, Result, ok, err, panicked, JobValidationEngine, Env,
}

-- A client: what it declared and still owes transactions for.
pub record Downstream : Type 0 where
  pub pending_declare_mining_jobs : Assoc ℕ (ℕ × DeclareMiningJob)

-- A sender is the number of its channel; `delivered` is all that was ever sent, the newest first;
-- `cancelled` are the clients whose cancellation token was cancelled; `downstream_id_factory` counts
-- without a wrap.
pub record JobDeclarator (V : Type 0) : Type 0 where
  pub token_manager : TokenManager
  pub job_validator : V
  pub downstream_client_senders : Assoc ℕ ℕ
  pub coinbase_reward_script : List ℕ
  pub downstream_clients : Assoc ℕ Downstream
  pub downstream_id_factory : ℕ
  pub cancelled : List ℕ
  pub delivered : List (ℕ × JobDeclaration)

abbrev pub Exec : Type 0 → Type 0 → Type 0
Exec V A = JobDeclarator V → JobDeclarator V × Result A

module _ {V A B : Type 0} where
  abbrev pub after : Result A → (A → Exec V B) → Exec V B
  after (ok a) f jd = f a jd
  after (err e) f jd = (jd, err e)
  after panicked f jd = (jd, panicked)

  infixl 5 ◌>>=◌
  abbrev pub ◌>>=◌ : Exec V A → (A → Exec V B) → Exec V B
  ◌>>=◌ m f jd = let (jd', r) = m jd in after r f jd'

abbrev pub jds_shutdown : JdsErrorKind → JdsError
jds_shutdown kind = record { kind = kind; action = shutdown }

abbrev pub jds_disconnect : JdsErrorKind → ℕ → JdsError
jds_disconnect kind downstream_id = record { kind = kind; action = disconnect downstream_id }

abbrev pub jds_log : JdsErrorKind → JdsError
jds_log kind = record { kind = kind; action = log }

module _ {V : Type 0} where
  -- `client_id.ok_or_else(..)`
  abbrev pub require_client : Option ℕ → Exec V ℕ
  require_client none jd = (jd, err (jds_shutdown (client_not_found 0)))
  require_client (some client_id) jd = (jd, ok client_id)

  abbrev pub found_sender : ℕ → Option ℕ → Exec V ℕ
  found_sender client_id none jd =
      (jd, err (jds_disconnect (client_sender_not_found client_id) client_id))
  found_sender client_id (some sender) jd = (jd, ok sender)

  abbrev pub client_sender : ℕ → Exec V ℕ
  client_sender client_id jd =
      found_sender client_id (lookup client_id jd.downstream_client_senders) jd

  -- `client_sender.send(..).await.map_err(disconnect)`
  abbrev pub send : Env → ℕ → ℕ → JobDeclaration → Exec V (Unit {0})
  send env client_id sender msg jd =
      if env.closed sender
      then (jd, err (jds_disconnect channel_send client_id))
      else (record jd { delivered = (sender, msg) ∷ jd.delivered }, ok tt)
