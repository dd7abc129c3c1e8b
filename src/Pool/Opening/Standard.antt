-- ===== src/Pool/Opening/Standard.antt =====
-- channel_manager/mining_message_handler.rs: `handle_open_standard_mining_channel`.
use sv2_apps_fork.Prelude.{
  ℕ, Option, none, some, List, [], ◌∷◌, if◌then◌else◌, length, nat_eq, codes,
}
use sv2_apps_fork.Prelude.Assoc.{insert}
use sv2_apps_fork.StratumApps.Payout.{PayoutMode, coinbase_outputs}
use sv2_apps_fork.StratumApps.Payout.Parse.{try_from}
use sv2_apps_fork.Pool.Messages.{
  NewTemplate, SetNewPrevHash, OpenStandardMiningChannel,
  standard_channels_not_supported_for_custom_work, invalid_user_identity, incompatible_payout_mode,
  library_code, Mining, new_mining_job, open_standard_mining_channel_success, RouteMessageTo,
  downstream, future_template_not_present, last_new_prevhash_not_found, channel_error_sender,
  channels, Result, panicked,
}
use sv2_apps_fork.Pool.Library.{
  Job, AllocatorError, ChannelError, coded, uncoded, Try, success, failure, Library,
}
use sv2_apps_fork.Pool.Manager.{
  Downstream, ChannelManager, Guarded, with_registered_downstream, finish, payout_is_compatible,
}
use sv2_apps_fork.Pool.Opening.{
  payout_of, Answer, refuse, fail_shutdown, fail_disconnect, refuse_allocation, drop_prefix,
  allocated, next_channel, with_vardiff, prev_hash_message, future_job,
  extranonce_allocation_error_code,
}

module _ (lib : Library) (client : ℕ) (msg : OpenStandardMiningChannel) where
  -- What is known once the policy is: the template, the last hash and the payout.
  module _ (template : NewTemplate) (hash : SetNewPrevHash) (mode : PayoutMode) where
    module _ (channel_id : ℕ) (messages : List RouteMessageTo) where
      abbrev pub joined :
          lib.GroupChannel × Option ℕ → ChannelManager lib → Downstream lib → Answer lib
      joined (g, none) cm d =
          with_vardiff lib client channel_id messages lib.vardiff.new cm
            (record d { group_channel = g })
      joined (g, some e) cm d = fail_shutdown lib (channels e) cm (record d { group_channel = g })

      -- The channel joins the group unless the connection asks for standard jobs.
      abbrev pub join : ℕ → ChannelManager lib → Downstream lib → Answer lib
      join prefix_size cm d =
          if d.requires_standard_jobs
          then with_vardiff lib client channel_id messages lib.vardiff.new cm d
          else joined (lib.group.add_channel_id d.group_channel channel_id prefix_size) cm d

      abbrev pub activated :
          ℕ → lib.StandardChannel × Option ℕ → ChannelManager lib → Downstream lib → Answer lib
      activated prefix_size (channel, some e) cm d =
          fail_shutdown lib (channels e)
            (drop_prefix lib (lib.standard.get_extranonce_prefix channel) cm) d
      activated prefix_size (channel, none) cm d = join prefix_size cm (record d {
        standard_channels = insert channel_id channel d.standard_channels;
        payout_mode = some mode;
      })

    module _ (channel_id : ℕ) where
      abbrev pub announce :
          Mining
          → ℕ
          → lib.StandardChannel
          → Option (ℕ × Job)
          → ChannelManager lib
          → Downstream lib
          → Answer lib
      announce opened prefix_size channel none cm d = (cm, d, panicked)
      announce opened prefix_size channel (some (job_id, job)) cm d =
          activated channel_id
            (downstream client opened
              ∷ downstream client (new_mining_job job.get_job_message)
              ∷ downstream client (prev_hash_message lib channel_id hash job_id)
              ∷ [])
            prefix_size (lib.standard.on_set_new_prev_hash channel hash) cm d

      abbrev pub with_template :
          Mining
          → ℕ
          → lib.StandardChannel × Option ℕ
          → ChannelManager lib
          → Downstream lib
          → Answer lib
      with_template opened prefix_size (channel, some e) cm d =
          fail_shutdown lib (channels e)
            (drop_prefix lib (lib.standard.get_extranonce_prefix channel) cm) d
      with_template opened prefix_size (channel, none) cm d =
          announce opened prefix_size channel (future_job lib.standard channel template.template_id)
            cm d

      abbrev pub created :
          List ℕ
          → Try lib.StandardChannel ChannelError
          → ChannelManager lib
          → Downstream lib
          → Answer lib
      created prefix (failure (coded code)) cm d =
          refuse lib client msg.request_id (library_code code) (drop_prefix lib prefix cm) d
      created prefix (failure (uncoded e)) cm d =
          fail_disconnect lib client channel_error_sender (drop_prefix lib prefix cm) d
      created prefix (success channel) cm d =
          let own = lib.standard.get_extranonce_prefix channel in
          if lib.fits_b032 own
          then with_template
              (open_standard_mining_channel_success msg.request_id channel_id
                (lib.standard.get_target channel) own
                (lib.group.get_group_channel_id d.group_channel))
              (length own)
              (lib.standard.on_new_template channel template (
                coinbase_outputs mode template.coinbase_tx_value_remaining
                  lib.coinbase_reward_script))
              cm d
          else (cm, d, panicked)

    abbrev pub with_prefix :
        lib.ExtranonceAllocator × Try (List ℕ) AllocatorError
        → ChannelManager lib
        → Downstream lib
        → Answer lib
    with_prefix (a, failure e) cm d =
        refuse_allocation lib client msg.request_id (extranonce_allocation_error_code e)
          (allocated lib a cm) d
    with_prefix (a, success prefix) cm d =
        let channel_id = d.channel_id_factory in
        created channel_id prefix
          (lib.new_standard channel_id msg.user_identity prefix msg.max_target
            msg.nominal_hash_rate)
          (allocated lib a cm) (next_channel lib d)

  abbrev pub with_payout :
      NewTemplate
      → SetNewPrevHash
      → Option PayoutMode
      → ChannelManager lib
      → Downstream lib
      → Answer lib
  with_payout template hash none cm d = refuse lib client msg.request_id invalid_user_identity cm d
  with_payout template hash (some mode) cm d =
      if payout_is_compatible lib d mode lib.coinbase_reward_script
      then with_prefix template hash mode (lib.allocator.allocate_standard cm.extranonce_allocator)
          cm d
      else refuse lib client msg.request_id incompatible_payout_mode cm d

  abbrev pub with_tip :
      Option NewTemplate → Option SetNewPrevHash → ChannelManager lib → Downstream lib → Answer lib
  with_tip none hash cm d = fail_disconnect lib client future_template_not_present cm d
  with_tip (some template) none cm d = fail_disconnect lib client last_new_prevhash_not_found cm d
  with_tip (some template) (some hash) cm d =
      with_payout template hash
        (payout_of (try_from lib.script_from_address (codes msg.user_identity))) cm d

  unfoldable pub open_standard : Guarded lib (List RouteMessageTo)
  open_standard cm d =
      if d.requires_custom_work
      then refuse lib client msg.request_id standard_channels_not_supported_for_custom_work cm d
      else with_tip cm.last_future_template cm.last_new_prev_hash cm d

  unfoldable pub handle_open_standard_mining_channel :
      ChannelManager lib → ChannelManager lib × Result (Unit {0})
  handle_open_standard_mining_channel cm =
      finish lib (with_registered_downstream lib client open_standard cm)
