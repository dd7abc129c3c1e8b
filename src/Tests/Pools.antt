-- ===== src/Tests/Pools.antt =====
-- The pool's channel manager over a small library of channels: a channel is its extranonce prefix and
-- the number of its shares, a group the number of its channels, an allocator counts.
use sv2_apps_fork.Prelude.{
  ℕ, ◌+◌, ◌≡◌, refl, ◌⊎◌, true, false, none, some, List, [], ◌∷◌, ◌==◌, nat_eq, list_eq,
  if◌then◌else◌, arith, codes,
}
use sv2_apps_fork.Prelude.Assoc.{lookup, insert, without, adjust}
use sv2_apps_fork.JdServer.Messages.{refused, invalid_mining_job_token}
use sv2_apps_fork.StratumApps.Payout.{solo, legacy_solo, coinbase_outputs}
use sv2_apps_fork.Pool.Messages.{
  NewTemplate, SetNewPrevHash, OpenExtendedMiningChannel, SubmitShares, downstream,
  set_custom_mining_job_refused,
}
use sv2_apps_fork.Pool.Library.{
  Job, ChannelOps, GroupOps, AllocatorOps, VardiffOps, Library, success, valid_share,
}
use sv2_apps_fork.Pool.Manager.{Downstream, ChannelManager}
use sv2_apps_fork.StratumApps.Payout.{has_same_coinbase_outputs_as}
use sv2_apps_fork.StratumApps.Payout.Parse.{try_from, before, of_parts, split}
use sv2_apps_fork.Prelude.Equality.{list_agrees}
use sv2_apps_fork.JdServer.Tokens
use sv2_apps_fork.JdServer.TokenBytes.{parse_token, from_le_bytes}
use sv2_apps_fork.JdServer.Declarator.Lifecycle
use sv2_apps_fork.Pool.Messages.{submit_shares_success, new_extended_mining_job}
use sv2_apps_fork.Pool.Manager.{
  with_registered_downstream, forward, forward_all, put_extended, payout_is_compatible,
}
use sv2_apps_fork.Pool.Opening.{future_job}
use sv2_apps_fork.Pool.Opening.Extended.{open_extended}
use sv2_apps_fork.Pool.Opening.Answers.{Opens}
use sv2_apps_fork.Pool.Opening.ExtendedOutcomes.{open_extended-Opens}
use sv2_apps_fork.Pool.Opening.Payouts.{open_extended_payout}
use sv2_apps_fork.Pool.Closing.{close, handle_close_channel}
use sv2_apps_fork.Pool.Shares.{
  submit, submit_extended, share_messages, handle_submit_shares_extended,
}
use sv2_apps_fork.Pool.Judged.{Unknown, Validated, submit_extended-judged}
use sv2_apps_fork.Pool.CustomJobs.{
  handle_set_custom_mining_job, answer_job, remove_all, after_declarator, commit_custom_job,
}
use sv2_apps_fork.Pool.CustomJobs.Once.{CustomJob, handle, handle_all, custom_job_at_most_once}
use sv2_apps_fork.Pool.Templates.{
  template_to_downstream, template_to_standard, template_to_extended, try_each,
}
use sv2_apps_fork.Pool.Templates.Reach.{Due, outputs, group_after, template_reaches}
use sv2_apps_fork.Pool.System.{shares_extended, closes, step, run}
use sv2_apps_fork.Pool.Refinement.{Explained}
use sv2_apps_fork.Pool.Refinement.Ticks.{IsTracked}
use sv2_apps_fork.Pool.Refinement.Steps.{allowed, step-Explained}
use sv2_apps_fork.Pool.Refinement.Runs.{run-IsTracked}
use sv2_apps_fork.Tests.Fixture.{accepting, activated, custom}

abbrev job : Job
job = record { get_job_id = 5; get_job_message = 7 ∷ [] }

abbrev channels : ChannelOps (ℕ × List ℕ)
channels = record {
  get_target = λ c. 100;
  get_nominal_hashrate = λ c. 10;
  get_shares_per_minute = λ c. 6;
  get_user_identity = λ c. "alice";
  get_extranonce_prefix = λ c. c.1;
  update_channel = λ c rate target. (c, none);
  set_stable_hashrate = λ c stable. c;
  validate_share = λ c msg. ((c.0 + 1, c.1), valid_share);
  get_share_accounting = λ c. record {
    should_acknowledge = true;
    get_last_share_sequence_number = c.0;
    get_last_batch_accepted = 1;
    get_last_batch_work_sum = 100;
  };
  on_new_template = λ c template outputs. (c, none);
  on_set_new_prev_hash = λ c hash. (c, none);
  on_group_channel_job = λ c j. (c, none);
  get_future_job_id_from_template_id = λ c t. some 5;
  get_future_job = λ c j. some job;
  get_active_job = λ c. some job;
}

abbrev groups : GroupOps ℕ
groups = record {
  new_for_pool = λ id. success 0;
  get_group_channel_id = λ g. 1;
  has_channel_id = λ g k. true;
  remove_channel_id = λ g k. g;
  add_channel_id = λ g k size. (g + 1, none);
  is_empty = λ g. g == 0;
  on_new_template = λ g template outputs. (g, none);
  on_set_new_prev_hash = λ g hash. (g, none);
  get_future_job_id_from_template_id = λ g t. some 5;
  get_future_job = λ g j. some job;
  get_active_job = λ g. some job;
}

abbrev allocators : AllocatorOps ℕ
allocators = record {
  allocate_standard = λ a. (a + 1, success (a ∷ []));
  allocate_extended = λ a size. (a + 1, success (a ∷ []));
  release = λ prefix a. a;
}

abbrev vardiffs : VardiffOps ℕ
vardiffs = record {
  new = success 0;
  increment_shares_since_last_update = λ v. v + 1;
  try_vardiff = λ v rate target shares. (0, success none);
}

abbrev library : Library
library = record {
  StandardChannel = ℕ × List ℕ;
  ExtendedChannel = ℕ × List ℕ;
  GroupChannel = ℕ;
  ExtranonceAllocator = ℕ;
  VardiffState = ℕ;
  Validator = ℕ;
  standard = channels;
  extended = channels;
  group = groups;
  allocator = allocators;
  vardiff = vardiffs;
  engine = accepting;
  new_standard = λ id user prefix target rate. success (0, prefix);
  new_extended = λ id user prefix target rate. success (0, prefix);
  get_rollable_extranonce_size = λ c. 16;
  get_full_extranonce_size = λ c. 20;
  on_set_custom_mining_job = λ c msg. (c, success 9);
  fits_b032 = λ prefix. true;
  fits_b064k = λ bytes. true;
  script_from_address = λ text. if text == codes "tb1q" then some (2 ∷ 9 ∷ []) else none;
  coinbase_reward_script = 1 ∷ [];
  pool_outputs = record { value = 0; script_pubkey = 1 ∷ [] } ∷ [];
}

abbrev new_template : NewTemplate
new_template = record {
  template_id = 2;
  future_template = true;
  coinbase_tx_value_remaining = 5000;
  body = [];
}

abbrev tip : SetNewPrevHash
tip = record { template_id = 2; prev_hash = 11; ntime_start = 12; n_bits = 13 }

-- One connection with the extended channel 3 and the standard channel 4.
abbrev entry : Downstream library
entry = record {
  group_channel = 2;
  extended_channels = (3, (0, 8 ∷ [])) ∷ [];
  standard_channels = (4, (0, 9 ∷ [])) ∷ [];
  channel_id_factory = 5;
  negotiated_extensions = [];
  payout_mode = some (solo (codes "tb1q") (2 ∷ 9 ∷ []));
  requires_standard_jobs = false;
  requires_custom_work = false;
}

abbrev pool : ChannelManager library
pool = record {
  downstreams = (1, entry) ∷ [];
  extranonce_allocator = 10;
  downstream_id_factory = 2;
  vardiff = ((1, 3), 0) ∷ ((1, 4), 0) ∷ [];
  last_new_prev_hash = some tip;
  last_future_template = some new_template;
  downstream_sender = (1, []) ∷ [];
  tp_sender = [];
  job_declarator = some activated;
}

abbrev share : SubmitShares
share = record {
  channel_id = 3;
  sequence_number = 1;
  job_id = 5;
  nonce = 0;
  ntime = 12;
  version = 4;
  extranonce = [];
}

abbrev request : OpenExtendedMiningChannel
request = record {
  request_id = 6;
  user_identity = "tb1q.worker";
  nominal_hash_rate = 10;
  max_target = 200;
  min_extranonce_size = 4;
}

pool-IsTracked : IsTracked library pool
unfolding lookup
pool-IsTracked c k = ground arith

-- After a share of channel 3, its channel has one share and its vardiff has counted it.
abbrev shared : ChannelManager library
shared = record pool {
  downstreams = (1, record entry { extended_channels = (3, (1, 8 ∷ [])) ∷ [] }) ∷ [];
  vardiff = ((1, 3), 1) ∷ ((1, 4), 0) ∷ [];
  downstream_sender = (1, submit_shares_success 3 1 1 100 ∷ []) ∷ [];
}

step-Explained_example : Explained library (allowed (shares_extended 1 share)) pool shared
unfolding step handle_submit_shares_extended with_registered_downstream submit_extended submit
    share_messages forward_all forward lookup adjust
step-Explained_example =
    step-Explained library (shares_extended 1 share) pool shared pool-IsTracked refl

-- And after the closing of channel 4.
abbrev left : ChannelManager library
left = record shared {
  downstreams =
      (1, record entry { extended_channels = (3, (1, 8 ∷ [])) ∷ []; standard_channels = [] }) ∷ [];
  vardiff = ((1, 3), 1) ∷ [];
}

run-IsTracked_example : IsTracked library left
unfolding run step handle_submit_shares_extended with_registered_downstream submit_extended submit
    share_messages forward_all forward handle_close_channel close lookup adjust without
run-IsTracked_example =
    run-IsTracked library (shares_extended 1 share ∷ closes 1 4 ∷ []) pool left pool-IsTracked refl

submit_extended-judged_example :
    Unknown library 1 share pool entry entry.extended_channels
      (submit_extended library 1 share pool entry)
    ⊎ Validated library 1 share pool entry channels entry.extended_channels
        (put_extended library 3 entry)
        (submit_extended library 1 share pool entry)
unfolding lookup
submit_extended-judged_example =
    submit_extended-judged library 1 share pool entry refl pool-IsTracked

open_extended-Opens_example :
    Opens library 1 6 pool entry (open_extended library 1 request pool entry)
open_extended-Opens_example = open_extended-Opens library 1 request pool entry

abbrev custom_job : CustomJob
custom_job = record { client = 1; message = custom; closed = false; gone = [] }

-- The same job with another token goes before.
abbrev other_job : CustomJob
other_job = record custom_job { message = record custom { token = [] } }

custom_job_at_most_once_example :
    let after = handle_all library (other_job ∷ []) (handle library custom_job pool) in
    handle_set_custom_mining_job library 1 custom false [] after
    ≡ answer_job library 1 custom false
        (set_custom_mining_job_refused (refused 4 3 invalid_mining_job_token))
        after
unfolding handle_set_custom_mining_job remove_all after_declarator commit_custom_job handle_all
    with_registered_downstream forward lookup adjust Lifecycle.handle_set_custom_mining_job
    parse_token Tokens.allocated_from_active from_le_bytes
custom_job_at_most_once_example =
    custom_job_at_most_once library custom_job custom_job (other_job ∷ []) pool activated "alice"
      "alice" 3 4 0
      (record {
        entry = entry;
        channel = (0, 8 ∷ []);
        registered = refl;
        holds = refl;
        identity = refl;
      })
      refl refl refl
      (record {
        entry = entry;
        channel = (0, 8 ∷ []);
        registered = refl;
        holds = refl;
        identity = refl;
      })

open_extended_payout_example :
    coinbase_outputs (solo (codes "tb1q") (2 ∷ 9 ∷ [])) 77 (1 ∷ [])
    ≡ coinbase_outputs (legacy_solo (codes "tb1q") (2 ∷ 9 ∷ [])) 77 (1 ∷ [])
unfolding open_extended payout_is_compatible has_same_coinbase_outputs_as coinbase_outputs
    future_job try_from before of_parts split list_agrees lookup insert without
open_extended_payout_example =
    open_extended_payout library 1 request pool entry (solo (codes "tb1q") (2 ∷ 9 ∷ []))
      (legacy_solo (codes "tb1q") (2 ∷ 9 ∷ [])) 77 refl tt tt refl refl

template_reaches_example :
    Due library 1 new_template entry.requires_custom_work entry.requires_standard_jobs
      (library.group.is_empty (group_after library 1 new_template library.pool_outputs entry))
      (outputs library 1 new_template library.pool_outputs entry)
      (group_after library 1 new_template library.pool_outputs entry)
      entry.standard_channels
      (downstream 1 (new_extended_mining_job (7 ∷ [])) ∷ [])
unfolding template_to_downstream template_to_standard template_to_extended try_each
template_reaches_example =
    template_reaches library 1 new_template library.pool_outputs entry
      (downstream 1 (new_extended_mining_job (7 ∷ [])) ∷ []) refl
