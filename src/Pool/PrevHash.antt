-- ===== src/Pool/PrevHash.antt =====
-- channel_manager/template_distribution_message_handler.rs: previous hashes, which go to every
-- downstream and to each of its channels.
use sv2_apps_fork.Prelude.{ℕ, Bool, not, ◌&&◌, Option, none, some, List, [], ◌∷◌, if◌then◌else◌}
use sv2_apps_fork.Prelude.Assoc.{Assoc}
use sv2_apps_fork.Pool.Messages.{
  SetNewPrevHash, set_new_prev_hash, RouteMessageTo, downstream, channels, job_not_found, Result,
  ok, err, panicked,
}
use sv2_apps_fork.Pool.Library.{Job, Library}
use sv2_apps_fork.Pool.Manager.{Downstream, ChannelManager, finish}
use sv2_apps_fork.Pool.Templates.{Messages, also, try_each, fail_in, followed, silent}

module _ (lib : Library) (msg : SetNewPrevHash) where
  abbrev pub hash_message : ℕ → ℕ → Job → RouteMessageTo
  hash_message client channel_id job =
      downstream client
        (set_new_prev_hash channel_id job.get_job_id msg.prev_hash msg.ntime_start msg.n_bits)

  abbrev pub active_hash : ℕ → ℕ → lib.StandardChannel → Option Job → lib.StandardChannel × Messages
  active_hash client channel_id channel none = fail_in job_not_found channel
  active_hash client channel_id channel (some job) =
      (channel, ok (hash_message client channel_id job ∷ []))

  unfoldable pub hash_to_standard :
      ℕ → Bool → ℕ → lib.StandardChannel → lib.StandardChannel × Messages
  hash_to_standard client requires_standard_jobs channel_id channel =
      followed
        (λ c.
          if requires_standard_jobs
          then active_hash client channel_id c (lib.standard.get_active_job c)
          else silent c)
        (lib.standard.on_set_new_prev_hash channel msg)

  unfoldable pub hash_to_extended : ℕ → lib.ExtendedChannel → lib.ExtendedChannel × Messages
  hash_to_extended channel_id channel =
      followed silent (lib.extended.on_set_new_prev_hash channel msg)

  abbrev pub group_active : ℕ → lib.GroupChannel → Option Job → Messages
  group_active client g none = panicked
  group_active client g (some job) =
      ok (hash_message client (lib.group.get_group_channel_id g) job ∷ [])

  -- The group's message, unless standard jobs are required or the group is empty.
  abbrev pub group_hash : ℕ → Bool → lib.GroupChannel → Messages
  group_hash client requires_standard_jobs g =
      if not requires_standard_jobs && not (lib.group.is_empty g)
      then group_active client g (lib.group.get_active_job g)
      else ok []

  abbrev pub hash_to_standards :
      List RouteMessageTo → ℕ → Downstream lib → Downstream lib × Messages
  hash_to_standards sent client d =
      let (standards, result) =
        try_each (hash_to_standard client d.requires_standard_jobs) d.standard_channels in
      (record d { standard_channels = standards }, also sent result)

  abbrev pub hash_to_channels :
      List RouteMessageTo
      → ℕ
      → Assoc ℕ lib.ExtendedChannel × Messages
      → Downstream lib
      → Downstream lib × Messages
  hash_to_channels sent client (extendeds, ok messages) d =
      hash_to_standards sent client (record d { extended_channels = extendeds })
  hash_to_channels sent client (extendeds, err e) d =
      (record d { extended_channels = extendeds }, err e)
  hash_to_channels sent client (extendeds, panicked) d =
      (record d { extended_channels = extendeds }, panicked)

  abbrev pub hash_after_group : ℕ → Messages → Downstream lib → Downstream lib × Messages
  hash_after_group client (ok sent) d =
      hash_to_channels sent client (try_each hash_to_extended d.extended_channels) d
  hash_after_group client (err e) d = (d, err e)
  hash_after_group client panicked d = (d, panicked)

  abbrev pub hash_to_group :
      ℕ → lib.GroupChannel × Option ℕ → Downstream lib → Downstream lib × Messages
  hash_to_group client (g, some e) d = fail_in (channels e) (record d { group_channel = g })
  hash_to_group client (g, none) d =
      hash_after_group client (group_hash client d.requires_standard_jobs g)
        (record d { group_channel = g })

  unfoldable pub hash_to_downstream : ℕ → Downstream lib → Downstream lib × Messages
  hash_to_downstream client d =
      if d.requires_custom_work
      then (d, ok [])
      else hash_to_group client (lib.group.on_set_new_prev_hash d.group_channel msg) d

  abbrev pub hash_in_downstreams :
      ChannelManager lib → Assoc ℕ (Downstream lib) × Messages → ChannelManager lib × Messages
  hash_in_downstreams cm (downstreams, result) =
      (record cm { downstreams = downstreams; last_new_prev_hash = some msg }, result)

  unfoldable pub handle_set_new_prev_hash :
      ChannelManager lib → ChannelManager lib × Result (Unit {0})
  handle_set_new_prev_hash cm =
      finish lib (hash_in_downstreams cm (try_each hash_to_downstream cm.downstreams))
