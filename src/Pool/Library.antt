-- ===== src/Pool/Library.antt =====
-- channels_sv2, a third-party library, as the pool uses it: channels, group channels, the extranonce
-- allocator and the vardiff. Types and operations are parameters; what they return is spelt out.
use sv2_apps_fork.Prelude.{ℕ, String, Bool, List, Option}
use sv2_apps_fork.JdServer.Messages.{TxOut, SetCustomMiningJob, JobValidationEngine}
use sv2_apps_fork.Pool.Messages.{NewTemplate, SetNewPrevHash, SubmitShares}

pub record Job : Type 0 where
  pub get_job_id : ℕ
  pub get_job_message : List ℕ

pub data AllocatorError : Type 0 where
  capacity_exhausted invalid_rollable_size : AllocatorError
  other_allocator_error : ℕ → AllocatorError

-- The errors of opening or updating a channel: one with a code for the miner, or another.
pub data ChannelError : Type 0 where
  coded : String → ChannelError
  uncoded : ℕ → ChannelError

pub data ShareValidation : Type 0 where
  valid_share : ShareValidation
  block_found : (template_id : Option ℕ) (coinbase : List ℕ) → ShareValidation
  -- `Invalid`, `Stale`, `InvalidJobId`, `DoesNotMeetTarget`, `DuplicateShare`,
  -- `VersionRollingNotAllowed`, and `BadExtranonceSize` of an extended channel
  rejected : String → ShareValidation
  -- `SeenSharesBudgetExhausted` and the errors without a code
  fatal : ℕ → ShareValidation

pub record ShareAccounting : Type 0 where
  pub should_acknowledge : Bool
  pub get_last_share_sequence_number : ℕ
  pub get_last_batch_accepted : ℕ
  pub get_last_batch_work_sum : ℕ

pub data Try {ℓ} (A : Type ℓ) (X : Type 0) : Type ℓ where
  success : A → Try A X
  failure : X → Try A X

-- What `StandardChannel` and `ExtendedChannel` have in common. An operation that fails with an
-- error still returns the channel that it leaves.
pub record ChannelOps (C : Type 0) : Type 0 where
  pub get_target : C → ℕ
  pub get_nominal_hashrate : C → ℕ
  pub get_shares_per_minute : C → ℕ
  pub get_user_identity : C → String
  pub get_extranonce_prefix : C → List ℕ
  pub update_channel : C → ℕ → Option ℕ → C × Option ChannelError
  pub set_stable_hashrate : C → Bool → C
  pub validate_share : C → SubmitShares → C × ShareValidation
  pub get_share_accounting : C → ShareAccounting
  pub on_new_template : C → NewTemplate → List TxOut → C × Option ℕ
  pub on_set_new_prev_hash : C → SetNewPrevHash → C × Option ℕ
  pub on_group_channel_job : C → Job → C × Option ℕ
  pub get_future_job_id_from_template_id : C → ℕ → Option ℕ
  pub get_future_job : C → ℕ → Option Job
  pub get_active_job : C → Option Job

pub record GroupOps (G : Type 0) : Type 0 where
  pub new_for_pool : ℕ → Try G ℕ
  pub get_group_channel_id : G → ℕ
  pub has_channel_id : G → ℕ → Bool
  pub remove_channel_id : G → ℕ → G
  pub add_channel_id : G → ℕ → ℕ → G × Option ℕ
  pub is_empty : G → Bool
  pub on_new_template : G → NewTemplate → List TxOut → G × Option ℕ
  pub on_set_new_prev_hash : G → SetNewPrevHash → G × Option ℕ
  pub get_future_job_id_from_template_id : G → ℕ → Option ℕ
  pub get_future_job : G → ℕ → Option Job
  pub get_active_job : G → Option Job

-- `release` is the drop of an `ExtranoncePrefix`.
pub record AllocatorOps (A : Type 0) : Type 0 where
  pub allocate_standard : A → A × Try (List ℕ) AllocatorError
  pub allocate_extended : A → ℕ → A × Try (List ℕ) AllocatorError
  pub release : List ℕ → A → A

pub record VardiffOps (V : Type 0) : Type 0 where
  pub new : Try V ℕ
  pub increment_shares_since_last_update : V → V
  pub try_vardiff : V → ℕ → ℕ → ℕ → V × Try (Option ℕ) ℕ

-- The library and the pool's configuration, which the channels' constructors also take, with the
-- state of the engine that validates declared jobs.
pub record Library : Type 1 where
  pub StandardChannel : Type 0
  pub ExtendedChannel : Type 0
  pub GroupChannel : Type 0
  pub ExtranonceAllocator : Type 0
  pub VardiffState : Type 0
  pub Validator : Type 0
  pub standard : ChannelOps StandardChannel
  pub extended : ChannelOps ExtendedChannel
  pub group : GroupOps GroupChannel
  pub allocator : AllocatorOps ExtranonceAllocator
  pub vardiff : VardiffOps VardiffState
  pub engine : JobValidationEngine Validator
  -- channel id, user identity, extranonce prefix, requested maximal target, nominal hashrate
  pub new_standard : ℕ → String → List ℕ → ℕ → ℕ → Try StandardChannel ChannelError
  pub new_extended : ℕ → String → List ℕ → ℕ → ℕ → Try ExtendedChannel ChannelError
  pub get_rollable_extranonce_size : ExtendedChannel → ℕ
  pub get_full_extranonce_size : ExtendedChannel → ℕ
  pub on_set_custom_mining_job : ExtendedChannel → SetCustomMiningJob → ExtendedChannel × Try ℕ ℕ
  -- The bounds of `B032` and `B064K` on the wire, and bitcoin's reading of an address.
  pub fits_b032 : List ℕ → Bool
  pub fits_b064k : List ℕ → Bool
  pub script_from_address : List ℕ → Option (List ℕ)
  pub coinbase_reward_script : List ℕ
  -- `coinbase_outputs`, deserialised.
  pub pool_outputs : List TxOut
