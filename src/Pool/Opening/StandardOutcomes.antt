-- ===== src/Pool/Opening/StandardOutcomes.antt =====
-- `handle_open_standard_mining_channel`: how each of its branches answers.
use sv2_apps_fork.Prelude.{true}
use sv2_apps_fork.Prelude.{ℕ, ◌≡◌, refl, inl, Option, none, some, List, [], ◌∷◌}
use sv2_apps_fork.StratumApps.Payout.{PayoutMode}
use sv2_apps_fork.Pool.Messages.{
  NewTemplate, SetNewPrevHash, OpenStandardMiningChannel, incompatible_payout_mode,
  invalid_user_identity, library_code, channel_error_sender, new_mining_job,
  standard_channels_not_supported_for_custom_work, future_template_not_present,
  last_new_prevhash_not_found, RouteMessageTo, downstream, Mining,
}
use sv2_apps_fork.Pool.Library.{
  Job, AllocatorError, ChannelError, coded, uncoded, Try, success, failure, Library,
}
use sv2_apps_fork.Pool.Manager.{Downstream, ChannelManager, payout_is_compatible}
use sv2_apps_fork.Prelude.{ap, nat_eq}
use sv2_apps_fork.Prelude.Assoc.{insert}
use sv2_apps_fork.Pool.Opening.{
  drop_prefix, with_vardiff, allocated, next_channel, prev_hash_message, future_job,
}
use sv2_apps_fork.Pool.Opening.Answers.{
  answer_of, answers, Kept, Grown, Opens, halted, dropped, refuse-Opens, allocation-Opens,
  vardiff-Opens, answers_opened, if-Opens, guard-Opens, Paid,
}
use sv2_apps_fork.Pool.Opening.Standard
use sv2_apps_fork.Pool.Opening.Standard.{open_standard}

module _ (lib : Library) (client : ℕ) (msg : OpenStandardMiningChannel) (cm : ChannelManager lib)
    (d : Downstream lib) where
  module _ (template : NewTemplate) (hash : SetNewPrevHash) (mode : PayoutMode)
      (fits : payout_is_compatible lib d mode lib.coinbase_reward_script ≡ true) where
    module _ (messages : List RouteMessageTo)
        (answered : answers client messages
          ≡ (msg.request_id, some d.channel_id_factory) ∷ []) where
      joined-Opens :
          (x : lib.GroupChannel × Option ℕ) (cm' : ChannelManager lib) (d' : Downstream lib)
          → cm'.downstreams ≡ cm.downstreams
          → cm'.vardiff ≡ cm.vardiff
          → Grown lib client msg.request_id cm d d'
          → Paid lib client msg.request_id cm d d'
          → Opens lib client msg.request_id cm d (
              Standard.joined lib client msg template hash mode d.channel_id_factory messages x cm'
                d')
      joined-Opens (g, none) cm' d' s v grown paid =
          vardiff-Opens lib client msg.request_id cm d lib.vardiff.new messages cm'
            (record d' { group_channel = g }) answered s v grown paid
      joined-Opens (g, some e) cm' d' s v grown paid = halted refl

      activated-Opens :
          (size : ℕ) (x : lib.StandardChannel × Option ℕ) (cm' : ChannelManager lib)
          (d' : Downstream lib)
          → Kept lib client msg.request_id cm d cm' d'
          → Opens lib client msg.request_id cm d (
              Standard.activated lib client msg template hash mode d.channel_id_factory messages
                size x cm' d')
      activated-Opens size (channel, some e) cm' d' k = halted refl
      activated-Opens size (channel, none) cm' d' k =
          let grown = record d' {
            standard_channels = insert d.channel_id_factory channel d'.standard_channels;
            payout_mode = some mode;
          } in
          let g : Grown lib client msg.request_id cm d grown =
            inl (channel, ap (insert d.channel_id_factory channel) k.2, k.3) in
          if-Opens lib client msg.request_id cm d d'.requires_standard_jobs
            (with_vardiff lib client d.channel_id_factory messages lib.vardiff.new cm' grown)
            (Standard.joined lib client msg template hash mode d.channel_id_factory messages
              (lib.group.add_channel_id d'.group_channel d.channel_id_factory size) cm' grown)
            (vardiff-Opens lib client msg.request_id cm d lib.vardiff.new messages cm' grown
              answered k.0 k.1 g (mode, refl, fits))
            (joined-Opens (lib.group.add_channel_id d'.group_channel d.channel_id_factory size) cm'
              grown k.0 k.1 g (mode, refl, fits))

    announce-Opens :
        (won : Mining) (size : ℕ) (channel : lib.StandardChannel) (x : Option (ℕ × Job))
        (cm' : ChannelManager lib) (d' : Downstream lib)
        → answer_of won ≡ (msg.request_id, some d.channel_id_factory) ∷ []
        → Kept lib client msg.request_id cm d cm' d'
        → Opens lib client msg.request_id cm d (
            Standard.announce lib client msg template hash mode d.channel_id_factory won size
              channel x cm' d')
    announce-Opens won size channel none cm' d' a k = halted refl
    announce-Opens won size channel (some (job_id, job)) cm' d' a k =
        activated-Opens
          (downstream client won
            ∷ downstream client (new_mining_job job.get_job_message)
            ∷ downstream client (prev_hash_message lib d.channel_id_factory hash job_id)
            ∷ [])
          (answers_opened lib client msg.request_id cm d won (new_mining_job job.get_job_message)
            (prev_hash_message lib d.channel_id_factory hash job_id) a refl refl)
          size (lib.standard.on_set_new_prev_hash channel hash) cm' d' k

    template-Opens :
        (won : Mining) (size : ℕ) (x : lib.StandardChannel × Option ℕ) (cm' : ChannelManager lib)
        (d' : Downstream lib)
        → answer_of won ≡ (msg.request_id, some d.channel_id_factory) ∷ []
        → Kept lib client msg.request_id cm d cm' d'
        → Opens lib client msg.request_id cm d (
            Standard.with_template lib client msg template hash mode d.channel_id_factory won size x
              cm' d')
    template-Opens won size (channel, some e) cm' d' a k = halted refl
    template-Opens won size (channel, none) cm' d' a k =
        announce-Opens won size channel (future_job lib.standard channel template.template_id) cm'
          d' a k

    created-Opens :
        (prefix : List ℕ) (x : Try lib.StandardChannel ChannelError) (cm' : ChannelManager lib)
        (d' : Downstream lib)
        → Kept lib client msg.request_id cm d cm' d'
        → Opens lib client msg.request_id cm d (
            Standard.created lib client msg template hash mode d.channel_id_factory prefix x cm' d')
    created-Opens prefix (failure (coded code)) cm' d' k =
        refuse-Opens lib client msg.request_id cm d (library_code code) (drop_prefix lib prefix cm')
          d' k
    created-Opens prefix (failure (uncoded e)) cm' d' k = dropped channel_error_sender refl k
    created-Opens prefix (success channel) cm' d' k =
        if-Opens lib client msg.request_id cm d
          (lib.fits_b032 (lib.standard.get_extranonce_prefix channel)) _ _
          (template-Opens _ _ _ cm' d' refl k) (halted refl)

    prefix-Opens :
        (x : lib.ExtranonceAllocator × Try (List ℕ) AllocatorError)
        → Opens lib client msg.request_id cm d
            (Standard.with_prefix lib client msg template hash mode x cm d)
    prefix-Opens (a, failure e) =
        allocation-Opens lib client msg.request_id cm d e (allocated lib a cm) d
          (refl, refl, refl, refl, refl)
    prefix-Opens (a, success prefix) =
        created-Opens prefix _ (allocated lib a cm) (next_channel lib d)
          (refl, refl, refl, refl, refl)

  payout-Opens :
      (template : NewTemplate) (hash : SetNewPrevHash) (x : Option PayoutMode)
      → Opens lib client msg.request_id cm d
          (Standard.with_payout lib client msg template hash x cm d)
  payout-Opens template hash none =
      refuse-Opens lib client msg.request_id cm d invalid_user_identity cm d
        (refl, refl, refl, refl, refl)
  payout-Opens template hash (some mode) =
      guard-Opens lib client msg.request_id cm d
        (payout_is_compatible lib d mode lib.coinbase_reward_script) _ _
        (λ fits. prefix-Opens template hash mode fits _)
        (refuse-Opens lib client msg.request_id cm d incompatible_payout_mode cm d
          (refl, refl, refl, refl, refl))

  tip-Opens :
      (template : Option NewTemplate) (hash : Option SetNewPrevHash)
      → Opens lib client msg.request_id cm d (Standard.with_tip lib client msg template hash cm d)
  tip-Opens none hash = dropped future_template_not_present refl (refl, refl, refl, refl, refl)
  tip-Opens (some template) none =
      dropped last_new_prevhash_not_found refl (refl, refl, refl, refl, refl)
  tip-Opens (some template) (some hash) = payout-Opens template hash _

  -- A request for a standard channel ends in one of four ways: the result halts the message loop; the
  -- error disconnects the client, and channels, vardiffs and payout mode are kept; one message
  -- answers the request with an error, and they are kept; or one message answers it with the next
  -- channel identifier, a channel and a vardiff are stored under that, and the payout mode is set to
  -- one that the payout mode of before is compatible with.
  pub open_standard-Opens : Opens lib client msg.request_id cm d (open_standard lib client msg cm d)
  unfolding open_standard
  open_standard-Opens =
      if-Opens lib client msg.request_id cm d d.requires_custom_work _ _
        (refuse-Opens lib client msg.request_id cm d standard_channels_not_supported_for_custom_work
          cm d (refl, refl, refl, refl, refl))
        (tip-Opens cm.last_future_template cm.last_new_prev_hash)
