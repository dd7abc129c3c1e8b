-- ===== src/Pool/Closing.antt =====
-- channel_manager/mining_message_handler.rs: `handle_close_channel`. The removed channels are
-- dropped, which releases their extranonce prefixes.
use sv2_apps_fork.Prelude.{
  ℕ, Bool, true, false, ◌&&◌, Option, none, some, List, [], ◌∷◌, if◌then◌else◌, nat_eq,
}
use sv2_apps_fork.Prelude.Tests.{pair_eq}
use sv2_apps_fork.Prelude.Assoc.{lookup, without}
use sv2_apps_fork.StratumApps.Payout.{PayoutMode}
use sv2_apps_fork.Pool.Messages.{Result, ok, err, panicked}
use sv2_apps_fork.Pool.Library.{ChannelOps, Library}
use sv2_apps_fork.Pool.Manager.{Downstream, ChannelManager, Guarded, with_registered_downstream}
use sv2_apps_fork.Pool.Opening.{drop_prefix}

abbrev pub is_empty {ℓ} : {A : Type ℓ} → List A → Bool
is_empty [] = true
is_empty (x ∷ xs) = false

module _ (lib : Library) where
  -- The prefix of a channel that a map gives up.
  abbrev pub drop_from :
      {C : Type 0} → ChannelOps C → Option C → ChannelManager lib → ChannelManager lib
  drop_from ops none cm = cm
  drop_from ops (some channel) cm = drop_prefix lib (ops.get_extranonce_prefix channel) cm

  abbrev pub left_group : ℕ → lib.GroupChannel → lib.GroupChannel
  left_group channel_id g =
      if lib.group.has_channel_id g channel_id then lib.group.remove_channel_id g channel_id else g

  -- The payout mode of a connection ends with its last channel.
  abbrev pub payout_left : Downstream lib → Option PayoutMode
  payout_left d =
      if is_empty d.standard_channels && is_empty d.extended_channels then none else d.payout_mode

  abbrev pub without_channel : ℕ → Downstream lib → Downstream lib
  without_channel channel_id d = record d {
    group_channel = left_group channel_id d.group_channel;
    standard_channels = without channel_id d.standard_channels;
    extended_channels = without channel_id d.extended_channels;
  }

  unfoldable pub close : ℕ → Guarded lib (Unit {0})
  close channel_id cm d =
      let d' = without_channel channel_id d in
      (
        drop_from lib.extended (lookup channel_id d.extended_channels)
            (drop_from lib.standard (lookup channel_id d.standard_channels) cm),
        record d' { payout_mode = payout_left d' },
        ok tt,
      )

  abbrev forget_vardiff :
      ℕ × ℕ → ChannelManager lib × Result (Unit {0}) → ChannelManager lib × Result (Unit {0})
  forget_vardiff key (cm, ok done) = (record cm { vardiff = without key cm.vardiff }, ok done)
  forget_vardiff key (cm, err e) = (cm, err e)
  forget_vardiff key (cm, panicked) = (cm, panicked)

  unfoldable pub handle_close_channel :
      ℕ → ℕ → ChannelManager lib → ChannelManager lib × Result (Unit {0})
  handle_close_channel client channel_id cm =
      forget_vardiff (client, channel_id)
        (with_registered_downstream lib client (close channel_id) cm)
