-- ===== src/Pool/System.antt =====
-- channel_manager/mod.rs: the message loop as a run over the events that change the manager, which
-- the task of a connection also causes when it ends. A run ends with a request to shut down, with a
-- panic, and where the u64 counter of downstreams has come back to an identifier in use.
use sv2_apps_fork.Prelude.{ℕ, Bool, true, false, Option, none, some, List, [], ◌∷◌, nat_eq, is_some}
use sv2_apps_fork.Prelude.Assoc.{lookup}
use sv2_apps_fork.JdServer.Messages.{SetCustomMiningJob}
use sv2_apps_fork.Pool.Messages.{
  NewTemplate, SetNewPrevHash, OpenStandardMiningChannel, OpenExtendedMiningChannel, UpdateChannel,
  SubmitShares, LoopControl, continue, break, Result, ok, err, panicked,
}
use sv2_apps_fork.Pool.Library.{Library}
use sv2_apps_fork.Pool.Manager.{
  ChannelManager, handle_error_action, accept_downstream, setup_flags, remove_downstream,
}
use sv2_apps_fork.Pool.Opening.Standard.{handle_open_standard_mining_channel}
use sv2_apps_fork.Pool.Opening.Extended.{handle_open_extended_mining_channel}
use sv2_apps_fork.Pool.Closing.{handle_close_channel}
use sv2_apps_fork.Pool.Shares.{
  handle_submit_shares_standard, handle_submit_shares_extended, handle_update_channel,
}
use sv2_apps_fork.Pool.CustomJobs.{handle_set_custom_mining_job}
use sv2_apps_fork.Pool.Templates.{handle_new_template}
use sv2_apps_fork.Pool.PrevHash.{handle_set_new_prev_hash}
use sv2_apps_fork.Pool.Retarget.{run_vardiff}

pub data Event : Type 0 where
  connected : Event
  flags : (client : ℕ) (standard_jobs custom_work : Bool) → Event
  lost : (client : ℕ) → Event
  asks_standard : (client : ℕ) → OpenStandardMiningChannel → Event
  asks_extended : (client : ℕ) → OpenExtendedMiningChannel → Event
  closes : (client channel_id : ℕ) → Event
  shares_standard shares_extended : (client : ℕ) → SubmitShares → Event
  updates : (client : ℕ) → UpdateChannel → Event
  sets_custom_job : (client : ℕ) (closed : Bool) (gone : List ℕ) → SetCustomMiningJob → Event
  template : NewTemplate → Event
  prev_hash : SetNewPrevHash → Event
  vardiff_tick : Event

module _ (lib : Library) where
  abbrev pub goes_on : (ChannelManager lib × Bool) × LoopControl → Option (ChannelManager lib)
  goes_on ((cm, token), continue) = some cm
  goes_on ((cm, token), break) = none

  -- What the loop makes of a handler's result.
  abbrev pub settle : ChannelManager lib × Result (Unit {0}) → Option (ChannelManager lib)
  settle (cm, ok done) = some cm
  settle (cm, err e) = goes_on (handle_error_action lib e (cm, false))
  settle (cm, panicked) = none

  abbrev pub connect : Bool → ChannelManager lib → Option (ChannelManager lib)
  connect true cm = none
  connect false cm = some (accept_downstream lib cm).0

  unfoldable pub step : Event → ChannelManager lib → Option (ChannelManager lib)
  step connected cm = connect (is_some (lookup cm.downstream_id_factory cm.downstreams)) cm
  step (flags client standard_jobs custom_work) cm =
      some (setup_flags lib client standard_jobs custom_work cm)
  step (lost client) cm = some (remove_downstream lib client cm)
  step (asks_standard client msg) cm =
      settle (handle_open_standard_mining_channel lib client msg cm)
  step (asks_extended client msg) cm =
      settle (handle_open_extended_mining_channel lib client msg cm)
  step (closes client channel_id) cm = settle (handle_close_channel lib client channel_id cm)
  step (shares_standard client msg) cm = settle (handle_submit_shares_standard lib client msg cm)
  step (shares_extended client msg) cm = settle (handle_submit_shares_extended lib client msg cm)
  step (updates client msg) cm = settle (handle_update_channel lib client msg cm)
  step (sets_custom_job client closed gone msg) cm =
      settle (handle_set_custom_mining_job lib client msg closed gone cm)
  step (template msg) cm = settle (handle_new_template lib msg cm)
  step (prev_hash msg) cm = settle (handle_set_new_prev_hash lib msg cm)
  step vardiff_tick cm = some (run_vardiff lib cm)

  abbrev pub and_then :
      Option (ChannelManager lib)
      → (ChannelManager lib → Option (ChannelManager lib))
      → Option (ChannelManager lib)
  and_then none f = none
  and_then (some cm) f = f cm

  unfoldable pub run : List Event → ChannelManager lib → Option (ChannelManager lib)
  run [] cm = some cm
  run (event ∷ events) cm = and_then (step event cm) (λ next. run events next)
