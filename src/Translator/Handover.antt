-- ===== src/Translator/Handover.antt =====
-- miner-apps/translator/src/lib/sv1/sv1_server/mod.rs, `handle_submit_shares`: an accepted share is
-- handed to the channel manager. The message that a share becomes is a parameter.
pub mod Outcomes
use sv2_apps_fork.Prelude.{
  ℕ, ◌+◌, ◌%◌, ◌^◌, ◌≡◌, ◌≢◌, ◌⊎◌, inl, inr, refl, sym, subst, Bool, true, false, ◌&&◌, Option,
  none, some, List, [], ◌∷◌, ◌++◌, String, if◌then◌else◌, ◌==◌, nat_eq, string_eq, Bool-cases,
}
use sv2_apps_fork.Prelude.Assoc.{Assoc, lookup, adjust, adjusted, lookup-adjust}
use sv2_apps_fork.Translator.Downstream.{Submit, SubmitShareWithChannelId, DownstreamData}
use sv2_apps_fork.Translator.Vardiff.{Result, ok, shutdown}
use sv2_apps_fork.Translator.Keepalive.Ids.{
  is_keepalive_job_id, extract_original_job_id, original_id, original_id-tested,
}

-- The parts of `Sv1Server` that handing over changes: the shares since the last update of each vardiff
-- machine, the counter, and what was sent with the worker's name, the newest first.
pub record Outbox (S : Type 0) : Type 0 where
  pub shares_since_last_update : Assoc ℕ ℕ
  pub sequence_counter : ℕ
  pub channel_manager_open : Bool
  pub submitted : List (S × Option String)

-- No name when it is empty.
abbrev pub worker_of : String → Option String
worker_of worker_name = if worker_name == "" then none else some worker_name

-- The id of the upstream job; none for one that looks like a keepalive job's and is not.
unfoldable pub upstream_job_id : String → Option String
upstream_job_id job_id =
    if is_keepalive_job_id job_id then extract_original_job_id job_id else some job_id

module _ {S : Type 0} where
  abbrev pub count_share : (enable_vardiff : Bool) (downstream_id : ℕ) → Outbox S → Outbox S
  count_share enable_vardiff id s =
      if enable_vardiff
      then record s { shares_since_last_update = adjust id (λ n. n + 1) s.shares_since_last_update }
      else s

  -- The number is taken before the share is built.
  abbrev pub take_number : Outbox S → Outbox S
  take_number s = record s { sequence_counter = (s.sequence_counter + 1) % 2 ^ 32 }

  abbrev pub submit_share : S → Option DownstreamData → Outbox S → Outbox S × Result
  submit_share share none s = (s, ok)
  submit_share share (some data') s =
      if s.channel_manager_open
      then (record s { submitted = (share, worker_of data'.sv1_worker_name) ∷ s.submitted }, ok)
      else (s, shutdown)

  abbrev pub submit_built : Option S → Option DownstreamData → Outbox S → Outbox S × Result
  submit_built none downstream s = (s, shutdown)
  submit_built (some share) downstream s = submit_share share downstream s

  module _
      (build : Submit → (channel_id sequence_number job_version : ℕ) → Option ℕ → Option S) where
    abbrev pub submit_for :
        SubmitShareWithChannelId
        → (job_version : ℕ) → Option String
        → Option DownstreamData
        → Outbox S
        → Outbox S × Result
    submit_for message version none downstream s = (s, ok)
    submit_for message version (some job_id) downstream s =
        submit_built
          (build (record message.share { job_id = job_id }) message.channel_id s.sequence_counter
            version message.version_rolling_mask)
          downstream (take_number s)

    abbrev pub submit_versioned :
        SubmitShareWithChannelId
        → (job_version : Option ℕ) → Option DownstreamData
        → Outbox S
        → Outbox S × Result
    submit_versioned message none downstream s = (s, ok)
    submit_versioned message (some version) downstream s =
        submit_for message version (upstream_job_id message.share.job_id) downstream s

    unfoldable pub handle_submit_shares :
        (enable_vardiff : Bool)
        → SubmitShareWithChannelId
        → Assoc ℕ DownstreamData
        → Outbox S
        → Outbox S × Result
    handle_submit_shares enable_vardiff message downstreams s =
        submit_versioned message message.job_version (lookup message.downstream_id downstreams)
          (count_share enable_vardiff message.downstream_id s)
