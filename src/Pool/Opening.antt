-- ===== src/Pool/Opening.antt =====
-- channel_manager/mining_message_handler.rs: opening standard and extended channels, and closing
-- one. A prefix that was allocated for a channel that does not come to be is dropped, and released.
pub mod Standard
pub mod Answers
pub mod StandardOutcomes
pub mod ExtendedOutcomes
pub mod Payouts
pub mod Extended
use sv2_apps_fork.Prelude.{
  ℕ, String, Bool, true, false, not, ◌&&◌, Option, none, some, List, [], ◌∷◌, if◌then◌else◌, length,
  nat_eq, codes,
}
use sv2_apps_fork.Prelude.Tests.{pair_eq}
use sv2_apps_fork.Prelude.Assoc.{Assoc, lookup, insert, without}
use sv2_apps_fork.StratumApps.Payout.{PayoutMode, full_donation, coinbase_outputs}
use sv2_apps_fork.StratumApps.Payout.Parse.{Parsed, try_from}
use sv2_apps_fork.StratumApps.Payout.Parse
use sv2_apps_fork.Pool.Messages
use sv2_apps_fork.Pool.Messages.{
  NewTemplate, SetNewPrevHash, OpenStandardMiningChannel, OpenExtendedMiningChannel, ErrorCode,
  standard_channels_not_supported_for_custom_work, invalid_user_identity, incompatible_payout_mode,
  extended_channels_not_supported_for_standard_jobs, channel_capacity_exhausted, library_code,
  min_extranonce_size_too_large, Mining, open_mining_channel_error, new_mining_job,
  open_standard_mining_channel_success, open_extended_mining_channel_success, set_new_prev_hash,
  new_extended_mining_job, RouteMessageTo, downstream, future_template_not_present,
  last_new_prevhash_not_found, channel_error_sender, channels, PoolErrorKind, Result, ok, err,
  panicked, binary_sv2,
}
use sv2_apps_fork.Pool.Library.{
  Job, AllocatorError, capacity_exhausted, invalid_rollable_size, other_allocator_error,
  ChannelError, coded, uncoded, Try, success, failure, ChannelOps, Library,
}
use sv2_apps_fork.Pool.Manager.{
  Downstream, ChannelManager, disconnecting, shutting_down, u32_next, Guarded,
  with_registered_downstream, finish, payout_is_compatible,
}

abbrev pub extranonce_allocation_error_code : AllocatorError → Result ErrorCode
extranonce_allocation_error_code capacity_exhausted = ok channel_capacity_exhausted
extranonce_allocation_error_code invalid_rollable_size = ok min_extranonce_size_too_large
extranonce_allocation_error_code (other_allocator_error e) = err (shutting_down (channels e))

-- An identity without a payout mode donates everything.
abbrev pub payout_of : Parsed → Option PayoutMode
payout_of (Parse.ok mode) = some mode
payout_of (Parse.err (Parse.no_payout_mode identity)) = some full_donation
payout_of (Parse.err _) = none

module _ (lib : Library) where
  abbrev pub Answer : Type 0
  Answer = ChannelManager lib × Downstream lib × Result (List RouteMessageTo)

  -- The only message is a refusal.
  abbrev pub refuse : ℕ → ℕ → ErrorCode → ChannelManager lib → Downstream lib → Answer
  refuse client request_id code cm d =
      (cm, d, ok (downstream client (open_mining_channel_error request_id code) ∷ []))

  abbrev pub fail_shutdown : PoolErrorKind → ChannelManager lib → Downstream lib → Answer
  fail_shutdown kind cm d = (cm, d, err (shutting_down kind))

  abbrev pub fail_disconnect : ℕ → PoolErrorKind → ChannelManager lib → Downstream lib → Answer
  fail_disconnect client kind cm d = (cm, d, err (disconnecting client kind))

  abbrev pub refuse_allocation :
      ℕ → ℕ → Result ErrorCode → ChannelManager lib → Downstream lib → Answer
  refuse_allocation client request_id (ok code) cm d = refuse client request_id code cm d
  refuse_allocation client request_id (err e) cm d = (cm, d, err e)
  refuse_allocation client request_id panicked cm d = (cm, d, panicked)

  -- A channel, or its prefix, is dropped.
  abbrev pub drop_prefix : List ℕ → ChannelManager lib → ChannelManager lib
  drop_prefix prefix cm = record cm {
    extranonce_allocator = lib.allocator.release prefix cm.extranonce_allocator;
  }

  abbrev pub allocated : lib.ExtranonceAllocator → ChannelManager lib → ChannelManager lib
  allocated a cm = record cm { extranonce_allocator = a }

  abbrev pub next_channel : Downstream lib → Downstream lib
  next_channel d = record d { channel_id_factory = u32_next d.channel_id_factory }

  -- The vardiff of the new channel, last of all.
  abbrev pub with_vardiff :
      ℕ
      → ℕ
      → List RouteMessageTo
      → Try lib.VardiffState ℕ
      → ChannelManager lib
      → Downstream lib
      → Answer
  with_vardiff client channel_id messages (success v) cm d =
      (record cm { vardiff = insert (client, channel_id) v cm.vardiff }, d, ok messages)
  with_vardiff client channel_id messages (failure e) cm d = fail_shutdown (channels e) cm d

  abbrev pub prev_hash_message : ℕ → SetNewPrevHash → ℕ → Mining
  prev_hash_message channel_id hash job_id =
      set_new_prev_hash channel_id job_id hash.prev_hash hash.ntime_start hash.n_bits

module _ {C : Type 0} (ops : ChannelOps C) where
  abbrev job_at : C → ℕ → Option (ℕ × Job)
  job_at channel job_id = elim (ops.get_future_job channel job_id) [
    | none ↦ none
    | some job ↦ some (job_id, job)
  ]

  -- The future job that a template became, with its identifier; both reads are `expect`ed.
  unfoldable pub future_job : C → ℕ → Option (ℕ × Job)
  future_job channel template_id =
      elim (ops.get_future_job_id_from_template_id channel template_id) [
        | none ↦ none
        | some job_id ↦ job_at channel job_id
      ]
