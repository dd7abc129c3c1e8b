-- ===== src/Pool/Retarget.antt =====
-- channel_manager/mod.rs: the periodic vardiff over all channels.
use sv2_apps_fork.Prelude.{ℕ, true, false, Option, none, some, List, [], ◌∷◌, ◌++◌, nat_eq}
use sv2_apps_fork.Prelude.Tests.{pair_eq}
use sv2_apps_fork.Prelude.Assoc.{Assoc, lookup, adjust, without}
use sv2_apps_fork.Pool.Messages.{set_target, RouteMessageTo, downstream}
use sv2_apps_fork.Pool.Library.{ChannelError, Try, success, failure, ChannelOps, Library}
use sv2_apps_fork.Pool.Manager.{Downstream, ChannelManager, forward_all}

module _ (lib : Library) (client channel_id : ℕ) {C : Type 0} (ops : ChannelOps C) where
  abbrev retargeted : C × Option ChannelError → C × List RouteMessageTo
  retargeted (channel, none) =
      (channel, downstream client (set_target channel_id (ops.get_target channel)) ∷ [])
  retargeted (channel, some e) = (channel, [])

  abbrev retarget_by : C → lib.VardiffState × Try (Option ℕ) ℕ → C × List RouteMessageTo
  retarget_by channel (v, failure e) = (channel, [])
  retarget_by channel (v, success none) = (ops.set_stable_hashrate channel true, [])
  retarget_by channel (v, success (some new_hashrate)) =
      retargeted (ops.update_channel (ops.set_stable_hashrate channel false) new_hashrate none)

  -- One channel: its vardiff proposes a hashrate, finds it stable, or fails.
  unfoldable pub run_vardiff_on_channel :
      C → lib.VardiffState → (C × List RouteMessageTo) × lib.VardiffState
  run_vardiff_on_channel channel v =
      let tried =
        lib.vardiff.try_vardiff v (ops.get_nominal_hashrate channel) (ops.get_target channel)
          (ops.get_shares_per_minute channel) in
      (retarget_by channel tried, tried.0)

  abbrev vardiff_put :
      Assoc ℕ C
      → (C × List RouteMessageTo) × lib.VardiffState
      → (Assoc ℕ C × List RouteMessageTo) × lib.VardiffState
  vardiff_put m ((channel, messages), v) = ((adjust channel_id (λ _. channel) m, messages), v)

  abbrev pub vardiff_at :
      Assoc ℕ C → Option C → lib.VardiffState → (Assoc ℕ C × List RouteMessageTo) × lib.VardiffState
  vardiff_at m none v = ((m, []), v)
  vardiff_at m (some channel) v = vardiff_put m (run_vardiff_on_channel channel v)

  -- The same on the map that may hold the channel.
  unfoldable pub run_vardiff_in :
      Assoc ℕ C → lib.VardiffState → (Assoc ℕ C × List RouteMessageTo) × lib.VardiffState
  run_vardiff_in m v = vardiff_at m (lookup channel_id m) v

module _ (lib : Library) where
  abbrev pub ran :
      ℕ
      → ℕ
      → Downstream lib
      → lib.VardiffState
      → ChannelManager lib
      → ChannelManager lib × List RouteMessageTo
  ran client channel_id d v cm =
      let ((standards, first), v') =
        run_vardiff_in lib client channel_id lib.standard d.standard_channels v in
      let ((extendeds, second), v'') =
        run_vardiff_in lib client channel_id lib.extended d.extended_channels v' in
      (
        record cm {
          vardiff = adjust (client, channel_id) (λ _. v'') cm.vardiff;
          downstreams =
              adjust client
                (λ (old : Downstream lib). record d {
                  standard_channels = standards;
                  extended_channels = extendeds;
                })
                cm.downstreams;
        },
        first ++ second,
      )

  abbrev pub run_key_with :
      ℕ
      → ℕ
      → Option (Downstream lib)
      → Option lib.VardiffState
      → ChannelManager lib
      → ChannelManager lib × List RouteMessageTo
  run_key_with client channel_id none v cm =
      (record cm { vardiff = without (client, channel_id) cm.vardiff }, [])
  run_key_with client channel_id (some d) none cm = (cm, [])
  run_key_with client channel_id (some d) (some v) cm = ran client channel_id d v cm

  -- One key of the vardiff map; the entry of a downstream that is gone is removed.
  unfoldable pub run_key : ℕ × ℕ → ChannelManager lib → ChannelManager lib × List RouteMessageTo
  run_key (client, channel_id) cm =
      run_key_with client channel_id (lookup client cm.downstreams)
        (lookup (client, channel_id) cm.vardiff) cm

  abbrev pub keys_of : Assoc (ℕ × ℕ) lib.VardiffState → List (ℕ × ℕ)
  keys_of [] = []
  keys_of ((key, v) ∷ m) = key ∷ keys_of m

  unfoldable pub run_keys :
      List (ℕ × ℕ) → ChannelManager lib → ChannelManager lib × List RouteMessageTo
  unfolding run_key
  run_keys [] cm = (cm, [])
  run_keys (key ∷ keys) cm =
      let (cm', messages) = run_key key cm in
      let (cm'', more) = run_keys keys cm' in (cm'', messages ++ more)

  abbrev send_updates : ChannelManager lib × List RouteMessageTo → ChannelManager lib
  send_updates (cm, messages) = forward_all lib messages cm

  unfoldable pub run_vardiff : ChannelManager lib → ChannelManager lib
  run_vardiff cm = send_updates (run_keys (keys_of cm.vardiff) cm)
