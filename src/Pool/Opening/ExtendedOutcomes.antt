-- ===== src/Pool/Opening/ExtendedOutcomes.antt =====
-- `handle_open_extended_mining_channel`: how each of its branches answers.
use sv2_apps_fork.Prelude.{true}
use sv2_apps_fork.Prelude.{ℕ, ◌≡◌, refl, inr, Option, none, some, List, [], ◌∷◌}
use sv2_apps_fork.StratumApps.Payout.{PayoutMode}
use sv2_apps_fork.Pool.Messages.{
  NewTemplate, SetNewPrevHash, OpenExtendedMiningChannel, incompatible_payout_mode,
  invalid_user_identity, library_code, channels, future_template_not_present,
  extended_channels_not_supported_for_standard_jobs, last_new_prevhash_not_found,
  new_extended_mining_job, RouteMessageTo, downstream, Mining,
}
use sv2_apps_fork.Pool.Library.{
  Job, AllocatorError, ChannelError, coded, uncoded, Try, success, failure, Library,
}
use sv2_apps_fork.Pool.Manager.{Downstream, ChannelManager, payout_is_compatible}
use sv2_apps_fork.Prelude.{ap, nat_eq}
use sv2_apps_fork.Prelude.Assoc.{insert}
use sv2_apps_fork.Pool.Opening.{drop_prefix, allocated, next_channel, prev_hash_message}
use sv2_apps_fork.Pool.Opening.Answers.{
  answer_of, answers, Kept, Opens, halted, dropped, refuse-Opens, allocation-Opens, vardiff-Opens,
  answers_opened, answers_alone, if-Opens, guard-Opens,
}
use sv2_apps_fork.Pool.Opening.Extended
use sv2_apps_fork.Pool.Opening.Extended.{open_extended}

module _ (lib : Library) (client : ℕ) (msg : OpenExtendedMiningChannel) (cm : ChannelManager lib)
    (d : Downstream lib) where
  module _ (mode : PayoutMode)
      (fits : payout_is_compatible lib d mode lib.coinbase_reward_script ≡ true) where
    extended_commit-Opens :
        (messages : List RouteMessageTo) (channel : lib.ExtendedChannel) (cm' : ChannelManager lib)
        (d' : Downstream lib)
        → answers client messages ≡ (msg.request_id, some d.channel_id_factory) ∷ []
        → Kept lib client msg.request_id cm d cm' d'
        → Opens lib client msg.request_id cm d
            (Extended.commit lib client msg mode d.channel_id_factory messages channel cm' d')
    extended_commit-Opens messages channel cm' d' answered k =
        vardiff-Opens lib client msg.request_id cm d lib.vardiff.new messages cm' _ answered k.0 k.1
          (inr (channel, k.2, ap (insert d.channel_id_factory channel) k.3)) (mode, refl, fits)

    extended_custom-Opens :
        (messages : List RouteMessageTo) (x : lib.ExtendedChannel × Option ℕ)
        (cm' : ChannelManager lib) (d' : Downstream lib)
        → answers client messages ≡ (msg.request_id, some d.channel_id_factory) ∷ []
        → Kept lib client msg.request_id cm d cm' d'
        → Opens lib client msg.request_id cm d
            (Extended.with_custom_work lib client msg mode d.channel_id_factory messages x cm' d')
    extended_custom-Opens messages (channel, some e) cm' d' answered k = halted refl
    extended_custom-Opens messages (channel, none) cm' d' answered k =
        extended_commit-Opens messages channel cm' d' answered k

    extended_grouped-Opens :
        (messages : List RouteMessageTo) (channel : lib.ExtendedChannel)
        (x : lib.GroupChannel × Option ℕ) (cm' : ChannelManager lib) (d' : Downstream lib)
        → answers client messages ≡ (msg.request_id, some d.channel_id_factory) ∷ []
        → Kept lib client msg.request_id cm d cm' d'
        → Opens lib client msg.request_id cm d
            (Extended.grouped lib client msg mode d.channel_id_factory messages channel x cm' d')
    extended_grouped-Opens messages channel (g, some e) cm' d' answered k = halted refl
    extended_grouped-Opens messages channel (g, none) cm' d' answered k =
        extended_commit-Opens messages channel cm' (record d' { group_channel = g }) answered k

    extended_activated-Opens :
        (messages : List RouteMessageTo) (x : lib.ExtendedChannel × Option ℕ)
        (cm' : ChannelManager lib) (d' : Downstream lib)
        → answers client messages ≡ (msg.request_id, some d.channel_id_factory) ∷ []
        → Kept lib client msg.request_id cm d cm' d'
        → Opens lib client msg.request_id cm d
            (Extended.activated lib client msg mode d.channel_id_factory messages x cm' d')
    extended_activated-Opens messages (channel, some e) cm' d' answered k = halted refl
    extended_activated-Opens messages (channel, none) cm' d' answered k =
        extended_grouped-Opens messages channel _ cm' d' answered k

    extended_announce-Opens :
        (won : Mining) (hash : SetNewPrevHash) (channel : lib.ExtendedChannel)
        (x : Option (ℕ × Job)) (cm' : ChannelManager lib) (d' : Downstream lib)
        → answer_of won ≡ (msg.request_id, some d.channel_id_factory) ∷ []
        → Kept lib client msg.request_id cm d cm' d'
        → Opens lib client msg.request_id cm d
            (Extended.announce lib client msg mode d.channel_id_factory won hash channel x cm' d')
    extended_announce-Opens won hash channel none cm' d' a k = halted refl
    extended_announce-Opens won hash channel (some (job_id, job)) cm' d' a k =
        extended_activated-Opens _ (lib.extended.on_set_new_prev_hash channel hash) cm' d'
          (answers_opened lib client msg.request_id cm d won
            (new_extended_mining_job job.get_job_message)
            (prev_hash_message lib d.channel_id_factory hash job_id) a refl refl)
          k

    extended_template-Opens :
        (won : Mining) (template : NewTemplate) (hash : SetNewPrevHash)
        (x : lib.ExtendedChannel × Option ℕ) (cm' : ChannelManager lib) (d' : Downstream lib)
        → answer_of won ≡ (msg.request_id, some d.channel_id_factory) ∷ []
        → Kept lib client msg.request_id cm d cm' d'
        → Opens lib client msg.request_id cm d (
            Extended.with_template lib client msg mode d.channel_id_factory won template hash x cm'
              d')
    extended_template-Opens won template hash (channel, some e) cm' d' a k = halted refl
    extended_template-Opens won template hash (channel, none) cm' d' a k =
        extended_announce-Opens won hash channel _ cm' d' a k

    extended_tip-Opens :
        (won : Mining) (channel : lib.ExtendedChannel) (hash : Option SetNewPrevHash)
        (template : Option NewTemplate) (cm' : ChannelManager lib) (d' : Downstream lib)
        → answer_of won ≡ (msg.request_id, some d.channel_id_factory) ∷ []
        → Kept lib client msg.request_id cm d cm' d'
        → Opens lib client msg.request_id cm d (
            Extended.with_tip lib client msg mode d.channel_id_factory won channel hash template cm'
              d')
    extended_tip-Opens won channel none template cm' d' a k =
        dropped last_new_prevhash_not_found refl k
    extended_tip-Opens won channel (some hash) none cm' d' a k =
        dropped future_template_not_present refl k
    extended_tip-Opens won channel (some hash) (some template) cm' d' a k =
        if-Opens lib client msg.request_id cm d d'.requires_custom_work _ _
          (extended_custom-Opens (downstream client won ∷ []) _ cm' d'
            (answers_alone lib client msg.request_id cm d won a) k)
          (extended_template-Opens won template hash _ cm' d' a k)

    extended_created-Opens :
        (prefix : List ℕ) (x : Try lib.ExtendedChannel ChannelError) (cm' : ChannelManager lib)
        (d' : Downstream lib)
        → Kept lib client msg.request_id cm d cm' d'
        → Opens lib client msg.request_id cm d
            (Extended.created lib client msg mode d.channel_id_factory prefix x cm' d')
    extended_created-Opens prefix (failure (coded code)) cm' d' k =
        refuse-Opens lib client msg.request_id cm d (library_code code) (drop_prefix lib prefix cm')
          d' k
    extended_created-Opens prefix (failure (uncoded e)) cm' d' k = dropped (channels e) refl k
    extended_created-Opens prefix (success channel) cm' d' k =
        if-Opens lib client msg.request_id cm d
          (lib.fits_b032 (lib.extended.get_extranonce_prefix channel)) _ _
          (extended_tip-Opens _ channel cm'.last_new_prev_hash cm'.last_future_template cm' d' refl
            k)
          (halted refl)

    extended_prefix-Opens :
        (x : lib.ExtranonceAllocator × Try (List ℕ) AllocatorError)
        → Opens lib client msg.request_id cm d (Extended.with_prefix lib client msg mode x cm d)
    extended_prefix-Opens (a, failure e) =
        allocation-Opens lib client msg.request_id cm d e (allocated lib a cm) d
          (refl, refl, refl, refl, refl)
    extended_prefix-Opens (a, success prefix) =
        extended_created-Opens prefix _ (allocated lib a cm) (next_channel lib d)
          (refl, refl, refl, refl, refl)

  extended_payout-Opens :
      (x : Option PayoutMode)
      → Opens lib client msg.request_id cm d (Extended.with_payout lib client msg x cm d)
  extended_payout-Opens none =
      refuse-Opens lib client msg.request_id cm d invalid_user_identity cm d
        (refl, refl, refl, refl, refl)
  extended_payout-Opens (some mode) =
      guard-Opens lib client msg.request_id cm d
        (payout_is_compatible lib d mode lib.coinbase_reward_script) _ _
        (λ fits. extended_prefix-Opens mode fits _)
        (refuse-Opens lib client msg.request_id cm d incompatible_payout_mode cm d
          (refl, refl, refl, refl, refl))

  -- A request for an extended channel ends in one of four ways: the result halts the message loop; the
  -- error disconnects the client, and channels, vardiffs and payout mode are kept; one message
  -- answers the request with an error, and they are kept; or one message answers it with the next
  -- channel identifier, a channel and a vardiff are stored under that, and the payout mode is set to
  -- one that the payout mode of before is compatible with.
  pub open_extended-Opens : Opens lib client msg.request_id cm d (open_extended lib client msg cm d)
  unfolding open_extended
  open_extended-Opens =
      if-Opens lib client msg.request_id cm d d.requires_standard_jobs _ _
        (refuse-Opens lib client msg.request_id cm d
          extended_channels_not_supported_for_standard_jobs cm d (refl, refl, refl, refl, refl))
        (extended_payout-Opens _)
