-- ===== src/Pool/Templates.antt =====
-- channel_manager/template_distribution_message_handler.rs: new templates, which
-- go to every downstream and to each of its channels. A loop stops at the first error.
pub mod Reach
pub mod Sends
use sv2_apps_fork.Prelude.{
  ℕ, Bool, true, false, not, ◌&&◌, Option, none, some, List, [], ◌∷◌, ◌++◌, if◌then◌else◌,
}
use sv2_apps_fork.Prelude.Assoc.{Assoc}
use sv2_apps_fork.JdServer.Messages.{TxOut}
use sv2_apps_fork.StratumApps.Payout.{PayoutMode, coinbase_outputs}
use sv2_apps_fork.Pool.Messages.{
  NewTemplate, SetNewPrevHash, Mining, new_mining_job, new_extended_mining_job, set_new_prev_hash,
  RouteMessageTo, downstream, channels, job_not_found, PoolErrorKind, Result, ok, err, panicked,
}
use sv2_apps_fork.Pool.Library.{Job, ChannelOps, GroupOps, Library}
use sv2_apps_fork.Pool.Manager.{Downstream, ChannelManager, shutting_down, finish}
use sv2_apps_fork.Pool.Opening.{future_job}

abbrev pub Messages : Type 0
Messages = Result (List RouteMessageTo)

abbrev pub also : List RouteMessageTo → Messages → Messages
also messages (ok more) = ok (messages ++ more)
also messages (err e) = err e
also messages panicked = panicked

module _ {ℓ} {C : Type ℓ} where
  abbrev pub each_step : ℕ → C × Messages → Assoc ℕ C → Assoc ℕ C × Messages → Assoc ℕ C × Messages
  each_step k (c, ok messages) rest (done, result) = ((k, c) ∷ done, also messages result)
  each_step k (c, err e) rest (done, result) = ((k, c) ∷ rest, err e)
  each_step k (c, panicked) rest (done, result) = ((k, c) ∷ rest, panicked)

  -- `try_for_each` of a map.
  unfoldable pub try_each : (ℕ → C → C × Messages) → Assoc ℕ C → Assoc ℕ C × Messages
  try_each f [] = ([], ok [])
  try_each f ((k, c) ∷ m) = each_step k (f k c) m (try_each f m)

abbrev pub fail_in {ℓ} : {C : Type ℓ} → PoolErrorKind → C → C × Messages
fail_in kind c = (c, err (shutting_down kind))

-- A call of the library is followed by messages, or fails.
abbrev pub followed {ℓ} : {C : Type ℓ} → (C → C × Messages) → C × Option ℕ → C × Messages
followed f (c, none) = f c
followed f (c, some e) = fail_in (channels e) c

abbrev pub silent {ℓ} : {C : Type ℓ} → C → C × Messages
silent c = (c, ok [])

abbrev pub replaced : TxOut → ℕ → TxOut
replaced out total = record out { value = total }

module _ (lib : Library) (msg : NewTemplate) where
  abbrev pub group_future_job : lib.GroupChannel → Option ℕ → Option Job
  group_future_job g none = none
  group_future_job g (some job_id) = lib.group.get_future_job g job_id

  -- The job of the group channel: the future job of the template, or the active one.
  abbrev pub group_job : lib.GroupChannel → Option Job
  group_job g =
      if msg.future_template
      then group_future_job g (lib.group.get_future_job_id_from_template_id g msg.template_id)
      else lib.group.get_active_job g

  abbrev pub job_part : Option (ℕ × Job) → Option Job
  job_part none = none
  job_part (some (job_id, job)) = some job

  abbrev pub standard_job : lib.StandardChannel → Option Job
  standard_job channel =
      if msg.future_template
      then job_part (future_job lib.standard channel msg.template_id)
      else lib.standard.get_active_job channel

  abbrev pub sent_job : ℕ → lib.StandardChannel → Option Job → lib.StandardChannel × Messages
  sent_job client channel none = (channel, panicked)
  sent_job client channel (some job) =
      (channel, ok (downstream client (new_mining_job job.get_job_message) ∷ []))

  -- A standard channel takes the group's job, or, where standard jobs are required, its own.
  unfoldable pub template_to_standard :
      ℕ → Bool → List TxOut → Job → ℕ → lib.StandardChannel → lib.StandardChannel × Messages
  template_to_standard client requires_standard_jobs outputs job channel_id channel =
      if requires_standard_jobs
      then followed (λ c. sent_job client c (standard_job c))
          (lib.standard.on_new_template channel msg outputs)
      else followed silent (lib.standard.on_group_channel_job channel job)

  unfoldable pub template_to_extended :
      Job → ℕ → lib.ExtendedChannel → lib.ExtendedChannel × Messages
  template_to_extended job channel_id channel =
      followed silent (lib.extended.on_group_channel_job channel job)

  abbrev pub group_message : ℕ → Bool → lib.GroupChannel → Job → List RouteMessageTo
  group_message client requires_standard_jobs g job =
      if not requires_standard_jobs && not (lib.group.is_empty g)
      then downstream client (new_extended_mining_job job.get_job_message) ∷ []
      else []

  abbrev pub template_to_rest :
      Job
      → List RouteMessageTo
      → Downstream lib
      → Assoc ℕ lib.StandardChannel × Messages
      → Downstream lib × Messages
  template_to_rest job sent d (standards, err e) =
      (record d { standard_channels = standards }, err e)
  template_to_rest job sent d (standards, panicked) =
      (record d { standard_channels = standards }, panicked)
  template_to_rest job sent d (standards, ok messages) =
      let (extendeds, result) = try_each (template_to_extended job) d.extended_channels in
      (
        record d { standard_channels = standards; extended_channels = extendeds },
        also sent (also messages result),
      )

  abbrev pub template_to_channels :
      ℕ → List TxOut → Option Job → Downstream lib → Downstream lib × Messages
  template_to_channels client outputs none d = fail_in job_not_found d
  template_to_channels client outputs (some job) d =
      template_to_rest job (group_message client d.requires_standard_jobs d.group_channel job) d (
        try_each (template_to_standard client d.requires_standard_jobs outputs job)
          d.standard_channels)

  abbrev pub template_to_group :
      ℕ → List TxOut → lib.GroupChannel × Option ℕ → Downstream lib → Downstream lib × Messages
  template_to_group client outputs (g, some e) d =
      fail_in (channels e) (record d { group_channel = g })
  template_to_group client outputs (g, none) d =
      template_to_channels client outputs (group_job g) (record d { group_channel = g })

  -- The outputs of the connection's payout mode, or the pool's own.
  abbrev pub outputs_for : List TxOut → Option PayoutMode → List TxOut
  outputs_for pool_outputs none = pool_outputs
  outputs_for pool_outputs (some mode) =
      coinbase_outputs mode msg.coinbase_tx_value_remaining lib.coinbase_reward_script

  -- A connection with custom work of its own is left out.
  unfoldable pub template_to_downstream :
      List TxOut → ℕ → Downstream lib → Downstream lib × Messages
  template_to_downstream pool_outputs client d =
      if d.requires_custom_work
      then (d, ok [])
      else (let outputs = outputs_for pool_outputs d.payout_mode in
          template_to_group client outputs (lib.group.on_new_template d.group_channel msg outputs)
            d)

  abbrev pub in_downstreams :
      ChannelManager lib → Assoc ℕ (Downstream lib) × Messages → ChannelManager lib × Messages
  in_downstreams cm (downstreams, result) = (record cm { downstreams = downstreams }, result)

  abbrev pub remember : ChannelManager lib → ChannelManager lib
  remember cm = if msg.future_template then record cm { last_future_template = some msg } else cm

  abbrev pub template_to_all : List TxOut → ChannelManager lib → ChannelManager lib × Messages
  template_to_all [] cm = (cm, panicked)
  template_to_all (out ∷ outputs) cm = in_downstreams cm (
      try_each (template_to_downstream (replaced out msg.coinbase_tx_value_remaining ∷ outputs))
        cm.downstreams)

  unfoldable pub handle_new_template : ChannelManager lib → ChannelManager lib × Result (Unit {0})
  handle_new_template cm = finish lib (template_to_all lib.pool_outputs (remember cm))
