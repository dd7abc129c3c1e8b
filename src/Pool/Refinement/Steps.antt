-- ===== src/Pool/Refinement/Steps.antt =====
-- Every event of the system against the abstract machine, and runs of events.
use sv2_apps_fork.Prelude.{
  ℕ, ◌≡◌, refl, subst, Bool, true, false, ◌||◌, ◌&&◌, Option, none, some, ◌==◌, nat_eq, is_some,
  arith, inr, contains,
}
use sv2_apps_fork.Prelude.Tests.{pair_eq}
use sv2_apps_fork.Prelude.Assoc.{lookup}
use sv2_apps_fork.Pool.Library.{Library}
use sv2_apps_fork.Pool.Manager.{Downstream, ChannelManager, accept_downstream}
use sv2_apps_fork.Pool.Opening.StandardOutcomes.{open_standard-Opens}
use sv2_apps_fork.Pool.Opening.ExtendedOutcomes.{open_extended-Opens}
use sv2_apps_fork.Pool.Opening.Standard.{handle_open_standard_mining_channel, open_standard}
use sv2_apps_fork.Pool.Opening.Extended.{handle_open_extended_mining_channel, open_extended}
use sv2_apps_fork.Pool.Shares.{
  handle_submit_shares_standard, handle_submit_shares_extended, handle_update_channel,
  submit_standard, submit_extended, update,
}
use sv2_apps_fork.Pool.Retarget.{run_vardiff}
use sv2_apps_fork.Pool.Refinement.Jobs.{custom_job-Explained}
use sv2_apps_fork.Pool.System.{
  Event, connected, flags, lost, asks_standard, asks_extended, closes, shares_standard,
  shares_extended, updates, sets_custom_job, template, prev_hash, vardiff_tick, connect, step,
}
use sv2_apps_fork.Pool.Views.{Move, adds, removes, drops}
use sv2_apps_fork.Pool.Refinement.{
  Explained, some-inj, quiet-Explained, removed-Explained, guarded-Explained,
}
use sv2_apps_fork.Pool.Refinement.Handlers.{Opens-Local}
use sv2_apps_fork.Pool.Refinement.Channels.{
  submit_standard-Local, submit_extended-Local, update-Local,
}
use sv2_apps_fork.Pool.Refinement.Rest.{close-Explained}
use sv2_apps_fork.Pool.Refinement.Ticks.{IsTracked, run_vardiff-Same}
use sv2_apps_fork.Pool.Refinement.Arrivals.{flags-Explained, registered-Explained}
use sv2_apps_fork.Pool.Refinement.Distribution.{hash-Explained, new_template-Explained}

-- The moves that an event may come to: a connection is added to, or loses a channel, by its own
-- request only, and is dropped by its end, or for an error of its own.
abbrev pub allowed : Event → Move → Bool
allowed (lost client) (drops c) = client == c
allowed (asks_standard client msg) (adds c k) = client == c
allowed (asks_standard client msg) (drops c) = client == c
allowed (asks_extended client msg) (adds c k) = client == c
allowed (asks_extended client msg) (drops c) = client == c
allowed (closes client channel_id) (removes c k) = client == c && channel_id == k
allowed (closes client channel_id) (drops c) = client == c
allowed (shares_standard client msg) (drops c) = client == c
allowed (shares_extended client msg) (drops c) = client == c
allowed (updates client msg) (drops c) = client == c
allowed (sets_custom_job client closed gone msg) (drops c) = client == c || contains c gone
allowed _ _ = false

module _ (lib : Library) where
  self : (c : ℕ) → (c == c) ≡ true
  self c = (nat_eq.agrees_iff c c).1 refl

  connect-Explained :
      (may : Move → Bool) (cm after : ChannelManager lib) (o : Option (Downstream lib))
      → lookup cm.downstream_id_factory cm.downstreams ≡ o
      → connect lib (is_some o) cm ≡ some after
      → Explained lib may cm after
  unfolding accept_downstream
  connect-Explained may cm after none fresh h =
      subst (Explained lib may cm) (some-inj h) (registered-Explained lib may _ cm fresh)
  connect-Explained may cm after (some d) used h = absurd (cc)

  -- From a manager in which exactly the open channels have a vardiff, a step that does not end the run
  -- changes the open channels and the channels with a vardiff by one list of moves of the abstract
  -- machine, each of which the event allows.
  pub step-Explained :
      (event : Event) (cm after : ChannelManager lib)
      → IsTracked lib cm
      → step lib event cm ≡ some after
      → Explained lib (allowed event) cm after
  unfolding step handle_open_standard_mining_channel handle_open_extended_mining_channel
      handle_submit_shares_standard handle_submit_shares_extended handle_update_channel
  step-Explained connected cm after tracked h =
      connect-Explained (allowed connected) cm after _ refl h
  step-Explained (flags client s w) cm after tracked h =
      subst (Explained lib (allowed (flags client s w)) cm) (some-inj h)
        (flags-Explained lib (allowed (flags client s w)) client s w cm)
  step-Explained (lost client) cm after tracked h =
      subst (Explained lib (allowed (lost client)) cm) (some-inj h)
        (removed-Explained lib (allowed (lost client)) client cm (self client))
  step-Explained (asks_standard client msg) cm after tracked h =
      guarded-Explained lib (allowed (asks_standard client msg)) client
        (open_standard lib client msg) cm after (self client)
        (λ d found.
          Opens-Local lib (allowed (asks_standard client msg)) client cm d found msg.request_id
            (open_standard lib client msg cm d) (self client)
            (open_standard-Opens lib client msg cm d))
        h
  step-Explained (asks_extended client msg) cm after tracked h =
      guarded-Explained lib (allowed (asks_extended client msg)) client
        (open_extended lib client msg) cm after (self client)
        (λ d found.
          Opens-Local lib (allowed (asks_extended client msg)) client cm d found msg.request_id
            (open_extended lib client msg cm d) (self client)
            (open_extended-Opens lib client msg cm d))
        h
  step-Explained (closes client channel_id) cm after tracked h =
      close-Explained lib client channel_id cm (allowed (closes client channel_id)) after
        (self client) (ground (arith, self client, self channel_id)) h
  step-Explained (shares_standard client msg) cm after tracked h =
      guarded-Explained lib (allowed (shares_standard client msg)) client
        (submit_standard lib client msg) cm after (self client)
        (λ d found.
          inr (
            submit_standard-Local lib client msg (allowed (shares_standard client msg)) cm d found))
        h
  step-Explained (shares_extended client msg) cm after tracked h =
      guarded-Explained lib (allowed (shares_extended client msg)) client
        (submit_extended lib client msg) cm after (self client)
        (λ d found.
          inr (
            submit_extended-Local lib client msg (allowed (shares_extended client msg)) cm d found))
        h
  step-Explained (updates client msg) cm after tracked h =
      guarded-Explained lib (allowed (updates client msg)) client (update lib client msg) cm after
        (self client)
        (λ d found. inr (update-Local lib client msg (allowed (updates client msg)) cm d found)) h
  step-Explained (sets_custom_job client closed gone msg) cm after tracked h =
      custom_job-Explained lib client msg (allowed (sets_custom_job client closed gone msg))
        (ground (arith, self client)) gone (λ c e. ground (arith, e)) cm after closed h
  step-Explained (template msg) cm after tracked h =
      new_template-Explained lib (allowed (template msg)) msg cm after h
  step-Explained (prev_hash msg) cm after tracked h =
      hash-Explained lib (allowed (prev_hash msg)) msg cm after h
  step-Explained vardiff_tick cm after tracked h =
      let s = run_vardiff-Same lib cm tracked in
      subst (Explained lib (allowed vardiff_tick) cm) (some-inj h)
        (quiet-Explained lib (allowed vardiff_tick) cm (run_vardiff lib cm) s.0 s.1)
