-- ===== src/Pool/Messages.antt =====
-- What the pool's channel manager receives and sends: the fields that the handlers read or write, of
-- the protocol's messages (third-party types), with pool-apps/pool/src/lib/error.rs and
-- `RouteMessageTo` of channel_manager/mod.rs. A target is a number, a hashrate the bits of its float.
use sv2_apps_fork.Prelude.{ℕ, String, Bool, List}
use sv2_apps_fork.JdServer.Messages.{SetCustomMiningJobResponse}

pub record NewTemplate : Type 0 where
  pub template_id : ℕ
  pub future_template : Bool
  pub coinbase_tx_value_remaining : ℕ
  pub body : List ℕ

-- The template provider's `SetNewPrevHash`.
pub record SetNewPrevHash : Type 0 where
  pub template_id : ℕ
  pub prev_hash : ℕ
  pub ntime_start : ℕ
  pub n_bits : ℕ

pub record OpenStandardMiningChannel : Type 0 where
  pub request_id : ℕ
  pub user_identity : String
  pub nominal_hash_rate : ℕ
  pub max_target : ℕ

pub record OpenExtendedMiningChannel : Type 0 where
  pub request_id : ℕ
  pub user_identity : String
  pub nominal_hash_rate : ℕ
  pub max_target : ℕ
  pub min_extranonce_size : ℕ

pub record UpdateChannel : Type 0 where
  pub channel_id : ℕ
  pub nominal_hash_rate : ℕ
  pub max_target : ℕ

-- `SubmitSharesStandard` and `SubmitSharesExtended`: the extranonce of the first is empty.
pub record SubmitShares : Type 0 where
  pub channel_id : ℕ
  pub sequence_number : ℕ
  pub job_id : ℕ
  pub nonce : ℕ
  pub ntime : ℕ
  pub version : ℕ
  pub extranonce : List ℕ

-- Error codes: the protocol's constants by name, or the text that the channels' library chose.
pub data ErrorCode : Type 0 where
  standard_channels_not_supported_for_custom_work : ErrorCode
  extended_channels_not_supported_for_standard_jobs : ErrorCode
  invalid_user_identity incompatible_payout_mode : ErrorCode
  channel_capacity_exhausted min_extranonce_size_too_large : ErrorCode
  submit_shares_invalid_channel_id update_channel_invalid_channel_id : ErrorCode
  library_code : String → ErrorCode

-- The mining messages that go to a downstream.
pub data Mining : Type 0 where
  open_mining_channel_error : (request_id : ℕ) (error_code : ErrorCode) → Mining
  open_standard_mining_channel_success :
      (request_id channel_id target : ℕ) (extranonce_prefix : List ℕ) (group_channel_id : ℕ)
      → Mining
  open_extended_mining_channel_success :
      (request_id channel_id target : ℕ) (extranonce_prefix : List ℕ)
      (extranonce_size group_channel_id : ℕ)
      → Mining
  new_mining_job new_extended_mining_job : (message : List ℕ) → Mining
  set_new_prev_hash : (channel_id job_id prev_hash ntime_start nbits : ℕ) → Mining
  submit_shares_success :
      (channel_id last_sequence_number new_submits_accepted_count new_shares_sum : ℕ) → Mining
  submit_shares_error : (channel_id sequence_number : ℕ) (error_code : ErrorCode) → Mining
  close_channel : (channel_id : ℕ) (reason_code : ErrorCode) → Mining
  update_channel_error : (channel_id : ℕ) (error_code : ErrorCode) → Mining
  set_target : (channel_id target : ℕ) → Mining
  set_custom_mining_job_success : (channel_id request_id job_id : ℕ) → Mining
  set_custom_mining_job_jd_not_supported : (request_id channel_id : ℕ) → Mining
  set_custom_mining_job_invalid_channel_id : (request_id channel_id : ℕ) → Mining
  set_custom_mining_job_refused : SetCustomMiningJobResponse → Mining

-- `SubmitSolution`, which goes to the template provider.
pub record SubmitSolution : Type 0 where
  pub template_id : ℕ
  pub version : ℕ
  pub ntime : ℕ
  pub nonce : ℕ
  pub coinbase_tx : List ℕ

pub data RouteMessageTo : Type 0 where
  template_provider : SubmitSolution → RouteMessageTo
  downstream : (downstream_id : ℕ) (message : Mining) → RouteMessageTo

pub data Action : Type 0 where
  log : Action
  disconnect : ℕ → Action
  shutdown : Action

pub data LoopControl : Type 0 where
  continue break : LoopControl

-- The kinds of `PoolErrorKind` that the channel manager raises; an error of the channels' library
-- is a number.
pub data PoolErrorKind : Type 0 where
  future_template_not_present last_new_prevhash_not_found : PoolErrorKind
  channel_error_sender job_not_found binary_sv2 : PoolErrorKind
  downstream_not_found : ℕ → PoolErrorKind
  channels : ℕ → PoolErrorKind

pub record PoolError : Type 0 where
  pub kind : PoolErrorKind
  pub action : Action

-- `panicked` is a failed `expect` or an `unreachable!`.
pub data Result {ℓ} (A : Type ℓ) : Type ℓ where
  ok : A → Result A
  err : PoolError → Result A
  panicked : Result A
