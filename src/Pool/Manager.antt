-- ===== src/Pool/Manager.antt =====
-- The state of pool-apps/pool/src/lib/channel_manager/mod.rs and downstream/mod.rs, the guard under
-- which handlers change a downstream, the routing of messages, and what adds and removes downstreams.
-- The locks are not poisoned. Identifiers of channels are u32, of downstreams u64.
use sv2_apps_fork.Prelude.{
  ℕ, ◌+◌, ◌%◌, ◌^◌, Bool, true, false, not, Option, none, some, List, [], ◌∷◌, ◌++◌, ◌==◌, nat_eq,
}
use sv2_apps_fork.Prelude.Tests.{pair_eq}
use sv2_apps_fork.Prelude.Assoc.{Assoc, lookup, insert, without, retain, adjust}
use sv2_apps_fork.JdServer.Declarator.{JobDeclarator}
use sv2_apps_fork.StratumApps.Payout.{PayoutMode, tx_out, has_same_coinbase_outputs_as}
use sv2_apps_fork.Pool.Messages.{
  NewTemplate, SetNewPrevHash, Mining, RouteMessageTo, template_provider, downstream, disconnect,
  shutdown, log, LoopControl, continue, break, PoolErrorKind, downstream_not_found, PoolError,
  Result, ok, err, panicked, SubmitSolution,
}
use sv2_apps_fork.Pool.Library.{Library, Try, success, failure}

pub record Downstream (lib : Library) : Type 0 where
  pub group_channel : lib.GroupChannel
  pub extended_channels : Assoc ℕ lib.ExtendedChannel
  pub standard_channels : Assoc ℕ lib.StandardChannel
  pub channel_id_factory : ℕ
  pub negotiated_extensions : List ℕ
  pub payout_mode : Option PayoutMode
  pub requires_standard_jobs : Bool
  pub requires_custom_work : Bool

-- With what was sent: to each connected downstream and to the template provider.
pub record ChannelManager (lib : Library) : Type 0 where
  pub downstreams : Assoc ℕ (Downstream lib)
  pub extranonce_allocator : lib.ExtranonceAllocator
  pub downstream_id_factory : ℕ
  pub vardiff : Assoc (ℕ × ℕ) lib.VardiffState
  pub last_new_prev_hash : Option SetNewPrevHash
  pub last_future_template : Option NewTemplate
  pub downstream_sender : Assoc ℕ (List Mining)
  pub tp_sender : List SubmitSolution
  pub job_declarator : Option (JobDeclarator lib.Validator)

abbrev pub disconnecting : ℕ → PoolErrorKind → PoolError
disconnecting downstream_id kind = record { kind = kind; action = disconnect downstream_id }

abbrev pub shutting_down : PoolErrorKind → PoolError
shutting_down kind = record { kind = kind; action = shutdown }

pub data Acceptance : Type 0 where
  registered cancelled task_panicked : Acceptance

abbrev pub u32_next : ℕ → ℕ
u32_next n = (n + 1) % 2 ^ 32

abbrev pub u64_next : ℕ → ℕ
u64_next n = (n + 1) % 2 ^ 64

module _ (lib : Library) where
  unfoldable pub remove_downstream : ℕ → ChannelManager lib → ChannelManager lib
  remove_downstream downstream_id cm = record cm {
    downstreams = without downstream_id cm.downstreams;
    vardiff = retain (λ (key : ℕ × ℕ) v. not (key.0 == downstream_id)) cm.vardiff;
    downstream_sender = without downstream_id cm.downstream_sender;
  }

  -- A handler's work on one downstream, under the guard of its entry. It changes the manager too,
  -- but not the map of downstreams.
  abbrev pub Guarded {ℓ} : Type ℓ → Type ℓ
  Guarded R = ChannelManager lib → Downstream lib → ChannelManager lib × Downstream lib × Result R

  abbrev pub write_back {ℓ} :
      {R : Type ℓ}
      → ℕ
      → ChannelManager lib × Downstream lib × Result R
      → ChannelManager lib × Result R
  write_back downstream_id (cm, d, r) =
      (record cm { downstreams = adjust downstream_id (λ _. d) cm.downstreams }, r)

  abbrev pub guarded {ℓ} :
      {R : Type ℓ}
      → ℕ
      → Guarded R
      → ChannelManager lib
      → Option (Downstream lib)
      → ChannelManager lib × Result R
  guarded downstream_id f cm none =
      (cm, err (disconnecting downstream_id (downstream_not_found downstream_id)))
  guarded downstream_id f cm (some d) = write_back downstream_id (f cm d)

  unfoldable pub with_registered_downstream {ℓ} :
      {R : Type ℓ} → ℕ → Guarded R → ChannelManager lib → ChannelManager lib × Result R
  with_registered_downstream downstream_id f cm =
      guarded downstream_id f cm (lookup downstream_id cm.downstreams)

  -- `forward`: a message for a downstream that is gone is dropped.
  unfoldable pub forward : RouteMessageTo → ChannelManager lib → ChannelManager lib
  forward (template_provider solution) cm = record cm {
    tp_sender = cm.tp_sender ++ (solution ∷ []);
  }
  forward (downstream downstream_id message) cm = record cm {
    downstream_sender = adjust downstream_id (λ sent. sent ++ (message ∷ [])) cm.downstream_sender;
  }

  unfoldable pub forward_all : List RouteMessageTo → ChannelManager lib → ChannelManager lib
  unfolding forward
  forward_all [] cm = cm
  forward_all (message ∷ messages) cm = forward_all messages (forward message cm)

  -- The end of a handler: its messages are sent, unless it has failed.
  abbrev pub finish :
      ChannelManager lib × Result (List RouteMessageTo) → ChannelManager lib × Result (Unit {0})
  finish (cm, ok messages) = (forward_all messages cm, ok tt)
  finish (cm, err e) = (cm, err e)
  finish (cm, panicked) = (cm, panicked)

  -- `with_mut` of one of a connection's channels.
  abbrev pub put_standard : ℕ → Downstream lib → lib.StandardChannel → Downstream lib
  put_standard channel_id d channel = record d {
    standard_channels = adjust channel_id (λ _. channel) d.standard_channels;
  }

  abbrev pub put_extended : ℕ → Downstream lib → lib.ExtendedChannel → Downstream lib
  put_extended channel_id d channel = record d {
    extended_channels = adjust channel_id (λ _. channel) d.extended_channels;
  }

  -- What an error of a handler makes the message loop do; the second part of the state is the
  -- cancellation token.
  unfoldable pub handle_error_action :
      PoolError → ChannelManager lib × Bool → (ChannelManager lib × Bool) × LoopControl
  handle_error_action e (cm, true) = ((cm, true), continue)
  handle_error_action e (cm, false) = elim e.action [
    | log ↦ ((cm, false), continue)
    | disconnect downstream_id ↦ ((remove_downstream downstream_id cm, false), continue)
    | shutdown ↦ ((cm, true), break)
  ]

  unfoldable pub payout_is_compatible : Downstream lib → PayoutMode → List ℕ → Bool
  payout_is_compatible d mode pool_reward_script = elim d.payout_mode [
    | none ↦ true
    | some current ↦ has_same_coinbase_outputs_as current mode pool_reward_script
  ]

  abbrev pub bootstrapped : Option ℕ → lib.GroupChannel → Option lib.GroupChannel
  bootstrapped none g = some g
  bootstrapped (some e) g = none

  abbrev pub bootstrap_prev_hash :
      SetNewPrevHash → lib.GroupChannel × Option ℕ → Option lib.GroupChannel
  bootstrap_prev_hash hash (g, none) =
      let (g', failed) = lib.group.on_set_new_prev_hash g hash in bootstrapped failed g'
  bootstrap_prev_hash hash (g, some e) = none

  abbrev pub bootstrap_new :
      NewTemplate → SetNewPrevHash → Try lib.GroupChannel ℕ → Option lib.GroupChannel
  bootstrap_new template hash (failure e) = none
  bootstrap_new template hash (success g) = bootstrap_prev_hash hash (
      lib.group.on_new_template g template
        (tx_out template.coinbase_tx_value_remaining lib.coinbase_reward_script ∷ []))

  -- A group channel for a new downstream; both `expect`s are on the readiness check.
  unfoldable pub bootstrap_group_channel :
      Option NewTemplate → Option SetNewPrevHash → ℕ → Result (Option lib.GroupChannel)
  bootstrap_group_channel none hash channel_id = panicked
  bootstrap_group_channel (some template) none channel_id = panicked
  bootstrap_group_channel (some template) (some hash) channel_id =
      ok (bootstrap_new template hash (lib.group.new_for_pool channel_id))

  -- `Downstream::new`, with a factory that has given the group channel its identifier.
  abbrev pub new_downstream : lib.GroupChannel → Downstream lib
  new_downstream g = record {
    group_channel = g;
    extended_channels = [];
    standard_channels = [];
    channel_id_factory = 2;
    negotiated_extensions = [];
    payout_mode = none;
    requires_standard_jobs = false;
    requires_custom_work = false;
  }

  abbrev pub next_downstream : ChannelManager lib → ChannelManager lib
  next_downstream cm = record cm { downstream_id_factory = u64_next cm.downstream_id_factory }

  -- Without a group channel the global token is cancelled; a panic ends the connection's task.
  abbrev pub register :
      Result (Option lib.GroupChannel) → ChannelManager lib → ChannelManager lib × Acceptance
  register (ok (some g)) cm =
      let downstream_id = cm.downstream_id_factory in
      (
        record cm {
          downstream_id_factory = u64_next downstream_id;
          downstream_sender = insert downstream_id [] cm.downstream_sender;
          downstreams = insert downstream_id (new_downstream g) cm.downstreams;
        },
        registered,
      )
  register (ok none) cm = (next_downstream cm, cancelled)
  register (err e) cm = (next_downstream cm, cancelled)
  register panicked cm = (next_downstream cm, task_panicked)

  -- A connection is accepted: the part of `start_downstream_server` after the noise handshake.
  unfoldable pub accept_downstream : ChannelManager lib → ChannelManager lib × Acceptance
  accept_downstream cm =
      register (bootstrap_group_channel cm.last_future_template cm.last_new_prev_hash 1) cm

  -- The flags of `SetupConnection`, which the downstream's own task writes.
  unfoldable pub setup_flags : ℕ → Bool → Bool → ChannelManager lib → ChannelManager lib
  setup_flags downstream_id standard_jobs custom_work cm = record cm {
    downstreams =
        adjust downstream_id
          (λ (d : Downstream lib). record d {
            requires_standard_jobs = standard_jobs;
            requires_custom_work = custom_work;
          })
          cm.downstreams;
  }
