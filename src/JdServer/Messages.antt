-- ===== src/JdServer/Messages.antt =====
-- The messages, errors and engine results of the job declarator: the fields that the handlers read,
-- of the protocol's messages (third-party types), of pool-apps/jd-server/src/lib/error.rs and of
-- job_declarator/job_validation/mod.rs. A script, a hash and an identifier are numbers or bytes.
use sv2_apps_fork.Prelude.{ℕ, String, Bool, List, Option}

pub record AllocateMiningJobToken : Type 0 where
  pub request_id : ℕ
  pub user_identifier : String

pub record DeclareMiningJob : Type 0 where
  pub request_id : ℕ
  pub mining_job_token : List ℕ
  pub version : ℕ
  pub coinbase_tx_prefix : List ℕ
  pub coinbase_tx_suffix : List ℕ
  pub wtxid_list : List ℕ

pub record ProvideMissingTransactionsSuccess : Type 0 where
  pub request_id : ℕ
  pub transaction_list : List (List ℕ)

pub record PushSolution : Type 0 where
  pub extranonce : List ℕ
  pub prev_hash : ℕ
  pub nonce : ℕ
  pub ntime : ℕ
  pub nbits : ℕ
  pub version : ℕ

pub record SetCustomMiningJob : Type 0 where
  pub channel_id : ℕ
  pub request_id : ℕ
  pub token : List ℕ
  pub version : ℕ
  pub prev_hash : ℕ
  pub nbits : ℕ
  pub coinbase_tx_version : ℕ
  pub coinbase_prefix : List ℕ
  pub coinbase_tx_input_n_sequence : ℕ
  pub coinbase_tx_outputs : List ℕ
  pub coinbase_tx_locktime : ℕ
  pub merkle_path : List ℕ

pub record TxOut : Type 0 where
  pub value : ℕ
  pub script_pubkey : List ℕ

-- The error codes, third-party constants: by name, or a text that the node's side chose.
pub data ErrorCode : Type 0 where
  invalid_mining_job_token missing_txs internal_error stale_chain_tip : ErrorCode
  invalid_coinbase_tx invalid_coinbase_tx_input job_not_yet_validated : ErrorCode
  invalid_nbits invalid_version invalid_coinbase_tx_version invalid_coinbase_prefix : ErrorCode
  invalid_coinbase_tx_input_n_sequence invalid_coinbase_tx_outputs : ErrorCode
  invalid_coinbase_tx_locktime invalid_merkle_path : ErrorCode
  from_node : String → ErrorCode

-- What the server sends to a client.
pub data JobDeclaration : Type 0 where
  allocate_mining_job_token_success :
      (request_id : ℕ) (mining_job_token coinbase_outputs : List ℕ) → JobDeclaration
  declare_mining_job_success : (request_id : ℕ) (new_mining_job_token : List ℕ) → JobDeclaration
  declare_mining_job_error : (request_id : ℕ) (error_code : ErrorCode) → JobDeclaration
  provide_missing_transactions :
      (request_id : ℕ) (unknown_tx_position_list : List ℕ) → JobDeclaration

-- `SetCustomMiningJobResponse`, which goes back to the pool.
pub data SetCustomMiningJobResponse : Type 0 where
  accepted : (channel_id request_id job_id : ℕ) → SetCustomMiningJobResponse
  refused : (request_id channel_id : ℕ) (error_code : ErrorCode) → SetCustomMiningJobResponse

pub data DeclareMiningJobResult : Type 0 where
  success : DeclareMiningJobResult
  error : ErrorCode → DeclareMiningJobResult
  missing_transactions : List ℕ → DeclareMiningJobResult

pub data SetCustomMiningJobResult : Type 0 where
  custom_success : SetCustomMiningJobResult
  custom_error : ErrorCode → SetCustomMiningJobResult

pub data Action : Type 0 where
  log : Action
  disconnect : ℕ → Action
  shutdown : Action

pub data LoopControl : Type 0 where
  continue break : LoopControl

-- The kinds of `JDSErrorKind` that the job declarator raises.
pub data JdsErrorKind : Type 0 where
  client_not_found : ℕ → JdsErrorKind
  client_sender_not_found : ℕ → JdsErrorKind
  pending_declare_mining_job_not_found : ℕ → JdsErrorKind
  channel_send : JdsErrorKind
  binary_sv2 : JdsErrorKind

pub record JdsError : Type 0 where
  pub kind : JdsErrorKind
  pub action : Action

-- `panicked` is a failed `expect`.
pub data Result {ℓ} (A : Type ℓ) : Type ℓ where
  ok : A → Result A
  err : JdsError → Result A
  panicked : Result A

-- The trait `JobValidationEngine` over the engine's own state.
pub record JobValidationEngine (V : Type 0) : Type 0 where
  pub handle_declare_mining_job :
      V
      → ℕ
      → DeclareMiningJob
      → Option ProvideMissingTransactionsSuccess
      → V × DeclareMiningJobResult
  pub handle_push_solution : V → ℕ → PushSolution → V
  pub handle_set_custom_mining_job : V → ℕ → SetCustomMiningJob → ℕ → V × SetCustomMiningJobResult
  pub cleanup_downstream : V → ℕ → V
  pub shutdown_engine : V → V

-- What the handlers take from outside: the clock, whether the receiving end of a channel is gone,
-- the limit of a sequence on the wire, and bitcoin's serialisation.
pub record Env : Type 0 where
  pub now : ℕ
  pub closed : ℕ → Bool
  pub fits_seq064k : List ℕ → Bool
  pub serialize : List TxOut → List ℕ
