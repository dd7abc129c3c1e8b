-- ===== src/Pool/Shares.antt =====
-- channel_manager/mining_message_handler.rs: the shares of standard and of extended channels, and
-- `handle_update_channel`. The worker's identity in a share's TLV fields is read and not used.
use sv2_apps_fork.Prelude.{ℕ, Option, none, some, List, [], ◌∷◌, if◌then◌else◌, nat_eq}
use sv2_apps_fork.Prelude.Tests.{pair_eq}
use sv2_apps_fork.Prelude.Assoc.{lookup, adjust}
use sv2_apps_fork.Pool.Messages.{
  SubmitShares, UpdateChannel, ErrorCode, submit_shares_invalid_channel_id, library_code,
  update_channel_invalid_channel_id, submit_shares_success, submit_shares_error, close_channel,
  update_channel_error, set_target, SubmitSolution, RouteMessageTo, downstream, template_provider,
  channels, binary_sv2, Result, ok, err, panicked,
}
use sv2_apps_fork.Pool.Library.{
  ShareValidation, valid_share, block_found, rejected, fatal, ShareAccounting, ChannelError, coded,
  uncoded, ChannelOps, Library,
}
use sv2_apps_fork.Pool.Manager.{
  Downstream, ChannelManager, disconnecting, shutting_down, Guarded, with_registered_downstream,
  finish, put_standard, put_extended,
}

module _ (lib : Library) (client : ℕ) (msg : SubmitShares) where
  abbrev pub share_refused : ErrorCode → RouteMessageTo
  share_refused code =
      downstream client (submit_shares_error msg.channel_id msg.sequence_number code)

  abbrev pub acknowledgement : ShareAccounting → RouteMessageTo
  acknowledgement accounting = downstream client (
      submit_shares_success msg.channel_id accounting.get_last_share_sequence_number
        accounting.get_last_batch_accepted accounting.get_last_batch_work_sum)

  abbrev pub solution_of : ℕ → List ℕ → SubmitSolution
  solution_of template_id coinbase = record {
    template_id = template_id;
    version = msg.version;
    ntime = msg.ntime;
    nonce = msg.nonce;
    coinbase_tx = coinbase;
  }

  -- What a validated share makes the pool send. The solution of a custom job, which has no
  -- template, is not the pool's to submit.
  unfoldable pub share_messages : ShareAccounting → ShareValidation → Result (List RouteMessageTo)
  share_messages accounting valid_share =
      ok (if accounting.should_acknowledge then acknowledgement accounting ∷ [] else [])
  share_messages accounting (block_found none coinbase) = ok (acknowledgement accounting ∷ [])
  share_messages accounting (block_found (some template_id) coinbase) =
      if lib.fits_b064k coinbase
      then ok
          (template_provider (solution_of template_id coinbase) ∷ acknowledgement accounting ∷ [])
      else err (shutting_down binary_sv2)
  share_messages accounting (rejected code) = ok (share_refused (library_code code) ∷ [])
  share_messages accounting (fatal e) = err (disconnecting client (channels e))

  abbrev pub no_channel : RouteMessageTo
  no_channel = share_refused submit_shares_invalid_channel_id

  abbrev pub closing : RouteMessageTo
  closing = downstream client (close_channel msg.channel_id submit_shares_invalid_channel_id)

  -- A share was validated, with whatever result.
  abbrev pub counted : ChannelManager lib → ChannelManager lib
  counted cm = record cm {
    vardiff =
        adjust (client, msg.channel_id) lib.vardiff.increment_shares_since_last_update cm.vardiff;
  }

  abbrev pub validated :
      {C : Type 0}
      → ChannelOps C
      → ChannelManager lib
      → (C → Downstream lib)
      → C × ShareValidation
      → ChannelManager lib × Downstream lib × Result (List RouteMessageTo)
  validated ops cm put (channel, result) =
      (counted cm, put channel, share_messages (ops.get_share_accounting channel) result)

  -- The share's channel is looked up, then its vardiff.
  unfoldable pub submit :
      {C : Type 0}
      → ChannelOps C
      → ChannelManager lib
      → Downstream lib
      → (C → Downstream lib)
      → Option C
      → Option lib.VardiffState
      → ChannelManager lib × Downstream lib × Result (List RouteMessageTo)
  submit ops cm d put none v = (cm, d, ok (no_channel ∷ []))
  submit ops cm d put (some channel) none = (cm, d, ok (closing ∷ []))
  submit ops cm d put (some channel) (some v) =
      validated ops cm put (ops.validate_share channel msg)

  unfoldable pub submit_standard : Guarded lib (List RouteMessageTo)
  unfolding submit
  submit_standard cm d =
      submit lib.standard cm d (put_standard lib msg.channel_id d)
        (lookup msg.channel_id d.standard_channels) (lookup (client, msg.channel_id) cm.vardiff)

  unfoldable pub submit_extended : Guarded lib (List RouteMessageTo)
  unfolding submit
  submit_extended cm d =
      submit lib.extended cm d (put_extended lib msg.channel_id d)
        (lookup msg.channel_id d.extended_channels) (lookup (client, msg.channel_id) cm.vardiff)

  unfoldable pub handle_submit_shares_standard :
      ChannelManager lib → ChannelManager lib × Result (Unit {0})
  handle_submit_shares_standard cm =
      finish lib (with_registered_downstream lib client submit_standard cm)

  unfoldable pub handle_submit_shares_extended :
      ChannelManager lib → ChannelManager lib × Result (Unit {0})
  handle_submit_shares_extended cm =
      finish lib (with_registered_downstream lib client submit_extended cm)

module _ (lib : Library) (client : ℕ) (msg : UpdateChannel) where
  abbrev pub update_refused : ErrorCode → RouteMessageTo
  update_refused code = downstream client (update_channel_error msg.channel_id code)

  abbrev pub target_message : ℕ → RouteMessageTo
  target_message target = downstream client (set_target msg.channel_id target)

  -- The target follows, also after an error; an error without a code is `unreachable!`.
  abbrev pub updated : ℕ → Option ChannelError → Result (List RouteMessageTo)
  updated target none = ok (target_message target ∷ [])
  updated target (some (coded code)) =
      ok (update_refused (library_code code) ∷ target_message target ∷ [])
  updated target (some (uncoded e)) = panicked

  abbrev update_in :
      {C : Type 0}
      → ChannelOps C
      → ChannelManager lib
      → (C → Downstream lib)
      → C × Option ChannelError
      → ChannelManager lib × Downstream lib × Result (List RouteMessageTo)
  update_in ops cm put (channel, e) = (cm, put channel, updated (ops.get_target channel) e)

  unfoldable pub update_with :
      Option lib.StandardChannel → Option lib.ExtendedChannel → Guarded lib (List RouteMessageTo)
  update_with (some channel) extended cm d =
      update_in lib.standard cm (put_standard lib msg.channel_id d)
        (lib.standard.update_channel channel msg.nominal_hash_rate (some msg.max_target))
  update_with none (some channel) cm d =
      update_in lib.extended cm (put_extended lib msg.channel_id d)
        (lib.extended.update_channel channel msg.nominal_hash_rate (some msg.max_target))
  update_with none none cm d = (cm, d, ok (update_refused update_channel_invalid_channel_id ∷ []))

  unfoldable pub update : Guarded lib (List RouteMessageTo)
  unfolding update_with
  update cm d =
      update_with (lookup msg.channel_id d.standard_channels)
        (lookup msg.channel_id d.extended_channels) cm d

  unfoldable pub handle_update_channel : ChannelManager lib → ChannelManager lib × Result (Unit {0})
  handle_update_channel cm = finish lib (with_registered_downstream lib client update cm)
