-- ===== src/Translator/Downstream.antt =====
-- miner-apps/translator/src/lib/sv1/downstream.rs: an SV1 miner's state, the shares that it was
-- accepted for, and the delivery of difficulty, extranonce and jobs. `Target`s are numbers, easier
-- ones larger; hashrates, texts of the handshake and poisoned locks are left out.
pub mod Session
pub mod Shares
pub mod Delivery
pub mod Views
pub mod Extranonces
pub mod Difficulty
use sv2_apps_fork.Prelude.{
  ℕ, zero, suc, ◌+◌, ◌-◌, Bool, true, false, not, ◌&&◌, Option, none, some, List, [], ◌∷◌, ◌++◌,
  String, is_some, if◌then◌else◌, ◌==◌, nat_eq, length, contains,
}
use sv2_apps_fork.Translator.JobStore
use sv2_apps_fork.Translator.JobStore.{Sv1JobStore}

pub data Sv1SetupRequest : Type 0 where
  subscribe authorize : Sv1SetupRequest

pub data Sv1SessionState : Type 0 where
  starting : (subscribed authorized : Bool) → Sv1SessionState
  ready : Sv1SessionState

abbrev pub default_session : Sv1SessionState
default_session = starting false false

unfoldable pub record_response : Sv1SetupRequest → Sv1SessionState → Sv1SessionState × Bool
record_response request ready = (ready, false)
record_response subscribe (starting subscribed authorized) =
    (starting true authorized, not (subscribed && authorized) && authorized)
record_response authorize (starting subscribed authorized) =
    (starting subscribed true, not (subscribed && authorized) && subscribed)

abbrev pub is_ready : Sv1SessionState → Bool
is_ready (starting subscribed authorized) = false
is_ready ready = true

abbrev pub is_subscribed : Sv1SessionState → Bool
is_subscribed (starting subscribed authorized) = subscribed
is_subscribed ready = true

abbrev pub setup_complete : Sv1SessionState → Bool
setup_complete (starting subscribed authorized) = subscribed && authorized
setup_complete ready = true

pub record Extranonce : Type 0 where
  pub extra_nonce1 : List ℕ
  pub extra_nonce2_size : ℕ

-- `work` stands for the hashes, coinbase parts and bits.
pub record Notify : Type 0 where
  pub job_id : String
  pub clean_jobs : Bool
  pub version : ℕ
  pub time : ℕ
  pub work : ℕ

-- What a miner is sent.
pub data Message : Type 0 where
  set_difficulty : (difficulty : ℕ) → Message
  set_extranonce : Extranonce → Message
  notify : Notify → Message

-- `Sv1ServerEvent`
pub data Sv1ServerEvent : Type 0 where
  job : Notify → Sv1ServerEvent
  difficulty : ℕ → Sv1ServerEvent
  extranonce : (message : Extranonce) (notify_miner : Bool) → Sv1ServerEvent
  complete : Sv1ServerEvent

pub record Sv1JobValidationContext : Type 0 where
  pub extranonce : Extranonce
  pub target : ℕ

-- `mining.submit`
pub record Submit : Type 0 where
  pub job_id : String
  pub extra_nonce2 : List ℕ
  pub time : ℕ
  pub nonce : ℕ
  pub version_bits : Option ℕ

pub record SubmitShareWithChannelId : Type 0 where
  pub channel_id : ℕ
  pub downstream_id : ℕ
  pub share : Submit
  pub extranonce : Extranonce
  pub version_rolling_mask : Option ℕ
  pub job_version : Option ℕ

-- `extranonce` is the pair of `extranonce1` and `extranonce2_len`.
pub record DownstreamData : Type 0 where
  pub extranonce : Extranonce
  pub target : ℕ
  pub cached_set_difficulty : Option ℕ
  pub cached_notify : Option Notify
  pub cached_set_extranonce : Option Extranonce
  pub session_state : Sv1SessionState
  pub job_validation_contexts : Sv1JobStore Sv1JobValidationContext
  pub accepted_share_hashes : List ℕ
  pub pending_set_extranonce_notifications : ℕ
  pub pending_target : Option ℕ
  pub upstream_target : Option ℕ
  pub keepalive_timer_anchor : Option ℕ
  pub supports_set_extranonce : Bool
  pub channel_id : Option ℕ
  pub version_rolling_mask : Option ℕ
  pub pending_share : Option SubmitShareWithChannelId
  pub sv1_worker_name : String
  pub sv1_username : String
  pub version_rolling_min_bit : Option ℕ

-- The miner's channel takes `room` more messages before its other end is gone; `sent` is all that it
-- took, the newest first.
pub record Downstream : Type 0 where
  pub downstream_data : DownstreamData
  pub sent : List Message
  pub room : ℕ
  pub disconnected : Bool

pub data Result : Type 0 where
  ok : Result
  channel_error : Result

abbrev pub initial_extranonce : Extranonce
initial_extranonce = record {
  extra_nonce1 = 0 ∷ 0 ∷ 0 ∷ 0 ∷ 0 ∷ 0 ∷ 0 ∷ 0 ∷ [];
  extra_nonce2_size = 4;
}

unfoldable pub new_data : ℕ → ℕ → Option ℕ → DownstreamData
new_data default_past_jobs target max_past_jobs = record {
  extranonce = initial_extranonce;
  target = target;
  cached_set_difficulty = none;
  cached_notify = none;
  cached_set_extranonce = none;
  session_state = default_session;
  job_validation_contexts = JobStore.new default_past_jobs max_past_jobs;
  accepted_share_hashes = [];
  pending_set_extranonce_notifications = 0;
  pending_target = none;
  upstream_target = none;
  keepalive_timer_anchor = none;
  supports_set_extranonce = false;
  channel_id = none;
  version_rolling_mask = none;
  pending_share = none;
  sv1_worker_name = "";
  sv1_username = "";
  version_rolling_min_bit = none;
}

unfoldable pub set_pending_target : ℕ → DownstreamData → DownstreamData
set_pending_target new_target data' = record data' { pending_target = some new_target }

unfoldable pub set_upstream_target : ℕ → DownstreamData → DownstreamData
set_upstream_target upstream_target data' = record data' { upstream_target = some upstream_target }

-- `pop_front` of a queue that holds the oldest first.
abbrev pub pop_front : List ℕ → List ℕ
pop_front [] = []
pop_front (x ∷ xs) = xs

-- `insert_if_new` of the cache of accepted shares.
unfoldable pub insert_if_new : ℕ → ℕ → List ℕ → List ℕ × Bool
insert_if_new max_seen_shares hash hashes = if contains hash hashes then (hashes, false) else (
  (if length hashes == max_seen_shares then pop_front hashes else hashes) ++ (hash ∷ []),
  true,
)

module _ {T : Type 0} where
  -- `activate`, with fuel for every job in the order.
  abbrev pub or_kept : Sv1JobStore T → Option (Sv1JobStore T) → Sv1JobStore T
  or_kept old none = old
  or_kept old (some store) = store

  unfoldable pub activate_job : String → T → Bool → Sv1JobStore T → Sv1JobStore T
  activate_job job_id context clean_jobs store =
      or_kept store (
        JobStore.activate (suc (suc (length store.past_job_order))) job_id context clean_jobs store)

-- `record_job_validation_context`, at a time.
unfoldable pub record_job_validation_context : ℕ → Notify → DownstreamData → DownstreamData
record_job_validation_context now n data' = record data' {
  accepted_share_hashes = if n.clean_jobs then [] else data'.accepted_share_hashes;
  job_validation_contexts =
      activate_job n.job_id (record { extranonce = data'.extranonce; target = data'.target })
        n.clean_jobs data'.job_validation_contexts;
  keepalive_timer_anchor =
      if data'.pending_set_extranonce_notifications == 0
      then some now
      else data'.keepalive_timer_anchor;
}

unfoldable pub job_validation_context : String → DownstreamData → Option Sv1JobValidationContext
job_validation_context job_id data' = JobStore.get job_id data'.job_validation_contexts
