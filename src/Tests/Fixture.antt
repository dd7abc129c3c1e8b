-- ===== src/Tests/Fixture.antt =====
-- A job declarator with one client, and engines that accept or lack a transaction.
use sv2_apps_fork.Prelude.{ℕ, true, false, [], ◌∷◌}
use sv2_apps_fork.JdServer.Tokens
use sv2_apps_fork.JdServer.Messages.{
  AllocateMiningJobToken, DeclareMiningJob, SetCustomMiningJob, success, missing_transactions,
  custom_success, JobValidationEngine, Env, DeclareMiningJobResult,
}
use sv2_apps_fork.JdServer.Declarator.{JobDeclarator}

abbrev pub answering : DeclareMiningJobResult → JobValidationEngine ℕ
answering result = record {
  handle_declare_mining_job = λ v client msg missing. (v, result);
  handle_push_solution = λ v client msg. v;
  handle_set_custom_mining_job = λ v client msg token. (v, custom_success);
  cleanup_downstream = λ v client. v;
  shutdown_engine = λ v. v;
}

abbrev pub accepting : JobValidationEngine ℕ
accepting = answering success

abbrev pub lacking_one : JobValidationEngine ℕ
lacking_one = answering (missing_transactions (5 ∷ []))

abbrev pub env : Env
env = record {
  now = 0;
  closed = λ sender. false;
  fits_seq064k = λ positions. true;
  serialize = λ outputs. [];
}

abbrev pub manager : Tokens.TokenManager
manager = record { token_factory = 1; allocated_tokens = []; active_tokens = [] }

abbrev pub jd : JobDeclarator ℕ
jd = record {
  token_manager = manager;
  job_validator = 0;
  downstream_client_senders = (7, 70) ∷ [];
  coinbase_reward_script = [];
  downstream_clients = (7, record { pending_declare_mining_jobs = [] }) ∷ [];
  downstream_id_factory = 8;
  cancelled = [];
  delivered = [];
}

-- The same with token 1 allocated to the client.
abbrev pub granted : JobDeclarator ℕ
granted = record jd {
  token_manager = record {
    token_factory = 2;
    allocated_tokens = (1, record { allocated_at = 0; owner = 7; user_identity = "alice" }) ∷ [];
    active_tokens = [];
  };
}

-- The same with token 2 active for the client.
abbrev pub activated : JobDeclarator ℕ
activated = record jd {
  token_manager = record {
    token_factory = 3;
    allocated_tokens = [];
    active_tokens =
        (2, record { allocated_token = 1; activated_at = 0; owner = 7; user_identity = "alice" })
        ∷ [];
  };
}

abbrev pub ask : AllocateMiningJobToken
ask = record { request_id = 1; user_identifier = "alice" }

abbrev pub declaration : DeclareMiningJob
declaration = record {
  request_id = 2;
  mining_job_token = 1 ∷ 0 ∷ 0 ∷ 0 ∷ 0 ∷ 0 ∷ 0 ∷ 0 ∷ [];
  version = 4;
  coinbase_tx_prefix = [];
  coinbase_tx_suffix = [];
  wtxid_list = 4 ∷ 5 ∷ [];
}

abbrev pub custom : SetCustomMiningJob
custom = record {
  channel_id = 3;
  request_id = 4;
  token = 2 ∷ 0 ∷ 0 ∷ 0 ∷ 0 ∷ 0 ∷ 0 ∷ 0 ∷ [];
  version = 4;
  prev_hash = 0;
  nbits = 0;
  coinbase_tx_version = 2;
  coinbase_prefix = [];
  coinbase_tx_input_n_sequence = 0;
  coinbase_tx_outputs = [];
  coinbase_tx_locktime = 0;
  merkle_path = [];
}
