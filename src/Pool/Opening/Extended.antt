-- ===== src/Pool/Opening/Extended.antt =====
-- channel_manager/mining_message_handler.rs: `handle_open_extended_mining_channel`.
use sv2_apps_fork.Prelude.{ℕ, Option, none, some, List, [], ◌∷◌, if◌then◌else◌, nat_eq, codes}
use sv2_apps_fork.Prelude.Assoc.{insert}
use sv2_apps_fork.StratumApps.Payout.{PayoutMode, coinbase_outputs}
use sv2_apps_fork.StratumApps.Payout.Parse.{try_from}
use sv2_apps_fork.Pool.Messages.{
  NewTemplate, SetNewPrevHash, OpenExtendedMiningChannel, invalid_user_identity,
  incompatible_payout_mode, extended_channels_not_supported_for_standard_jobs, library_code, Mining,
  open_extended_mining_channel_success, new_extended_mining_job, RouteMessageTo, downstream,
  future_template_not_present, last_new_prevhash_not_found, channels, Result, panicked, binary_sv2,
}
use sv2_apps_fork.Pool.Library.{
  Job, AllocatorError, ChannelError, coded, uncoded, Try, success, failure, Library,
}
use sv2_apps_fork.Pool.Manager.{
  Downstream, ChannelManager, Guarded, with_registered_downstream, finish, payout_is_compatible,
}
use sv2_apps_fork.Pool.Opening.{
  payout_of, Answer, refuse, fail_shutdown, fail_disconnect, refuse_allocation, drop_prefix,
  allocated, next_channel, with_vardiff, prev_hash_message, future_job,
  extranonce_allocation_error_code,
}

module _ (lib : Library) (client : ℕ) (msg : OpenExtendedMiningChannel) where
  abbrev pub drop_channel : lib.ExtendedChannel → ChannelManager lib → ChannelManager lib
  drop_channel channel cm = drop_prefix lib (lib.extended.get_extranonce_prefix channel) cm

  module _ (mode : PayoutMode) (channel_id : ℕ) where
    abbrev pub commit :
        List RouteMessageTo → lib.ExtendedChannel → ChannelManager lib → Downstream lib → Answer lib
    commit messages channel cm d =
        with_vardiff lib client channel_id messages lib.vardiff.new cm (record d {
          extended_channels = insert channel_id channel d.extended_channels;
          payout_mode = some mode;
        })

    -- A connection with custom work of its own is sent no job.
    abbrev pub with_custom_work :
        List RouteMessageTo
        → lib.ExtendedChannel × Option ℕ
        → ChannelManager lib
        → Downstream lib
        → Answer lib
    with_custom_work messages (channel, some e) cm d =
        fail_shutdown lib (channels e) (drop_channel channel cm) d
    with_custom_work messages (channel, none) cm d = commit messages channel cm d

    abbrev pub grouped :
        List RouteMessageTo
        → lib.ExtendedChannel
        → lib.GroupChannel × Option ℕ
        → ChannelManager lib
        → Downstream lib
        → Answer lib
    grouped messages channel (g, some e) cm d =
        fail_shutdown lib (channels e) (drop_channel channel cm) (record d { group_channel = g })
    grouped messages channel (g, none) cm d =
        commit messages channel cm (record d { group_channel = g })

    abbrev pub activated :
        List RouteMessageTo
        → lib.ExtendedChannel × Option ℕ
        → ChannelManager lib
        → Downstream lib
        → Answer lib
    activated messages (channel, some e) cm d =
        fail_shutdown lib (channels e) (drop_channel channel cm) d
    activated messages (channel, none) cm d =
        grouped messages channel
          (lib.group.add_channel_id d.group_channel channel_id
            (lib.get_full_extranonce_size channel))
          cm d

    abbrev pub announce :
        Mining
        → SetNewPrevHash
        → lib.ExtendedChannel
        → Option (ℕ × Job)
        → ChannelManager lib
        → Downstream lib
        → Answer lib
    announce opened hash channel none cm d = (cm, d, panicked)
    announce opened hash channel (some (job_id, job)) cm d =
        activated
          (downstream client opened
            ∷ downstream client (new_extended_mining_job job.get_job_message)
            ∷ downstream client (prev_hash_message lib channel_id hash job_id)
            ∷ [])
          (lib.extended.on_set_new_prev_hash channel hash) cm d

    abbrev pub with_template :
        Mining
        → NewTemplate
        → SetNewPrevHash
        → lib.ExtendedChannel × Option ℕ
        → ChannelManager lib
        → Downstream lib
        → Answer lib
    with_template opened template hash (channel, some e) cm d =
        fail_shutdown lib (channels e) (drop_channel channel cm) d
    with_template opened template hash (channel, none) cm d =
        announce opened hash channel (future_job lib.extended channel template.template_id) cm d

    abbrev pub with_tip :
        Mining
        → lib.ExtendedChannel
        → Option SetNewPrevHash
        → Option NewTemplate
        → ChannelManager lib
        → Downstream lib
        → Answer lib
    with_tip opened channel none template cm d =
        fail_disconnect lib client last_new_prevhash_not_found (drop_channel channel cm) d
    with_tip opened channel (some hash) none cm d =
        fail_disconnect lib client future_template_not_present (drop_channel channel cm) d
    with_tip opened channel (some hash) (some template) cm d =
        if d.requires_custom_work
        then with_custom_work (downstream client opened ∷ [])
            (lib.extended.on_set_new_prev_hash channel hash) cm d
        else with_template opened template hash
            (lib.extended.on_new_template channel template (
              coinbase_outputs mode template.coinbase_tx_value_remaining
                lib.coinbase_reward_script))
            cm d

    abbrev pub created :
        List ℕ
        → Try lib.ExtendedChannel ChannelError
        → ChannelManager lib
        → Downstream lib
        → Answer lib
    created prefix (failure (coded code)) cm d =
        refuse lib client msg.request_id (library_code code) (drop_prefix lib prefix cm) d
    created prefix (failure (uncoded e)) cm d =
        fail_disconnect lib client (channels e) (drop_prefix lib prefix cm) d
    created prefix (success channel) cm d =
        let own = lib.extended.get_extranonce_prefix channel in
        if lib.fits_b032 own
        then with_tip
            (open_extended_mining_channel_success msg.request_id channel_id
              (lib.extended.get_target channel) own (lib.get_rollable_extranonce_size channel)
              (lib.group.get_group_channel_id d.group_channel))
            channel cm.last_new_prev_hash cm.last_future_template cm d
        else fail_shutdown lib binary_sv2 (drop_channel channel cm) d

  abbrev pub with_prefix :
      PayoutMode
      → lib.ExtranonceAllocator × Try (List ℕ) AllocatorError
      → ChannelManager lib
      → Downstream lib
      → Answer lib
  with_prefix mode (a, failure e) cm d =
      refuse_allocation lib client msg.request_id (extranonce_allocation_error_code e)
        (allocated lib a cm) d
  with_prefix mode (a, success prefix) cm d =
      let channel_id = d.channel_id_factory in
      created mode channel_id prefix
        (lib.new_extended channel_id msg.user_identity prefix msg.max_target msg.nominal_hash_rate)
        (allocated lib a cm) (next_channel lib d)

  abbrev pub with_payout : Option PayoutMode → ChannelManager lib → Downstream lib → Answer lib
  with_payout none cm d = refuse lib client msg.request_id invalid_user_identity cm d
  with_payout (some mode) cm d =
      if payout_is_compatible lib d mode lib.coinbase_reward_script
      then with_prefix mode
          (lib.allocator.allocate_extended cm.extranonce_allocator msg.min_extranonce_size) cm d
      else refuse lib client msg.request_id incompatible_payout_mode cm d

  unfoldable pub open_extended : Guarded lib (List RouteMessageTo)
  open_extended cm d =
      if d.requires_standard_jobs
      then refuse lib client msg.request_id extended_channels_not_supported_for_standard_jobs cm d
      else with_payout (payout_of (try_from lib.script_from_address (codes msg.user_identity))) cm d

  unfoldable pub handle_open_extended_mining_channel :
      ChannelManager lib → ChannelManager lib × Result (Unit {0})
  handle_open_extended_mining_channel cm =
      finish lib (with_registered_downstream lib client open_extended cm)
