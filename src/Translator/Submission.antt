-- ===== src/Translator/Submission.antt =====
-- miner-apps/translator/src/lib/sv1/sv1_server/downstream_message_handler.rs, `handle_submit`, and
-- `validate_sv1_share` of utils.rs: what happens to a share that a miner submits. Merkle root and
-- block hash are parameters; a hash is the number that its bytes are.
pub mod Accepted
pub mod Outcomes
pub mod Versions
use sv2_apps_fork.Prelude.{
  ℕ, zero, suc, ◌+◌, ◌-◌, ◌*◌, ◌/◌, ◌%◌, ◌^◌, Bool, true, false, Option, none, some, List, [], ◌∷◌,
  ◌++◌, String, if◌then◌else◌, ◌==◌, nat_eq, ltb,
}
use sv2_apps_fork.Prelude.Assoc.{Assoc, lookup, adjust}
use sv2_apps_fork.Translator.JobStore
use sv2_apps_fork.Translator.JobStore.{Sv1JobStore}
use sv2_apps_fork.Translator.Downstream.{
  Extranonce, Notify, Submit, SubmitShareWithChannelId, DownstreamData, Sv1JobValidationContext,
  insert_if_new, job_validation_context,
}

pub data Sv1ShareValidationOutcome : Type 0 where
  meets_target : (hash : ℕ) → Sv1ShareValidationOutcome
  does_not_meet_target : Sv1ShareValidationOutcome

pub data SubmitError : Type 0 where
  other job_not_found duplicate_share low_difficulty_share : SubmitError

pub data SubmitOutcome : Type 0 where
  accepted : SubmitOutcome
  rejected : SubmitError → SubmitOutcome

-- What channels_sv2, bitcoin and sv1_api give.
pub record Hashing : Type 0 where
  pub version_rolling_mask : ℕ
  pub prev_hash : (job : Notify) → Option ℕ
  pub merkle_root_from_path : (job : Notify) (full_extranonce : List ℕ) → Option ℕ
  pub block_hash : (job : Notify) (version prev_hash merkle_root time nonce : ℕ) → ℕ

pub record StoredSv1Job : Type 0 where
  pub notify : Notify
  pub keepalive_base_time : ℕ

-- The parts of `Sv1Server` that submissions and keepalive jobs use; the channel to a miner is absent,
-- closed or open, and `events` holds the newest job first.
pub record Sv1Server : Type 0 where
  pub is_aggregated : Bool
  pub valid_sv1_jobs : Assoc ℕ (Sv1JobStore StoredSv1Job)
  pub downstreams : Assoc ℕ DownstreamData
  pub keepalive_job_id_counter : ℕ
  pub aggregated_job_mutation_time : Option ℕ
  pub sv1_server_to_downstream_sender : Assoc ℕ Bool
  pub events : List (ℕ × Notify)

-- `u32::MAX`
abbrev pub aggregated_channel_id : ℕ
aggregated_channel_id = 2 ^ 32 - 1

-- `(job & !mask) | (share & mask)` of integers of some bits, the lowest first.
unfoldable pub merge_bits : (bits mask job share : ℕ) → ℕ
merge_bits zero mask job share = 0
merge_bits (suc bits) mask job share =
    let rest = merge_bits bits (mask / 2) (job / 2) (share / 2) in
    (if mask % 2 == 1 then share % 2 else job % 2) + 2 * rest

abbrev pub or_version : Option ℕ → ℕ → ℕ
or_version none version = version
or_version (some given) version = given

unfoldable pub share_version : (default_mask : ℕ) → Submit → Option ℕ → Notify → ℕ
share_version default_mask share version_rolling_mask job =
    merge_bits 32 (or_version version_rolling_mask default_mask) job.version
      (or_version share.version_bits job.version)

-- The comparison with the target.
abbrev pub against : (hash target : ℕ) → Sv1ShareValidationOutcome
against hash target = if ltb hash target then meets_target hash else does_not_meet_target

abbrev pub or_unknown : Option (Sv1JobStore StoredSv1Job) → String → Option StoredSv1Job
or_unknown none job_id = none
or_unknown (some jobs) job_id = JobStore.get job_id jobs

module _ (hashing : Hashing) where
  -- None when the data cannot form a header.
  unfoldable pub validate_sv1_share :
      Submit
      → (target : ℕ) (extranonce1 : List ℕ) (version_rolling_mask : Option ℕ) → Notify
      → Option Sv1ShareValidationOutcome
  validate_sv1_share share target extranonce1 mask job = elim (hashing.prev_hash job) [
    | none ↦ none
    | some prev ↦ elim (hashing.merkle_root_from_path job (extranonce1 ++ share.extra_nonce2)) [
      | none ↦ none
      | some root ↦ some (
          against
            (hashing.block_hash job (share_version hashing.version_rolling_mask share mask job) prev
              root share.time share.nonce)
            target)
    ]
  ]

  abbrev pub keep_share : SubmitShareWithChannelId → List ℕ → DownstreamData → DownstreamData
  keep_share share hashes data' = record data' {
    accepted_share_hashes = hashes;
    pending_share = some share;
  }

  -- What becomes of a share with a hash.
  unfoldable pub take_share :
      (max_seen_shares : ℕ)
      → SubmitShareWithChannelId
      → Option Sv1ShareValidationOutcome
      → DownstreamData
      → DownstreamData × SubmitOutcome
  take_share max pending none data' = (data', rejected other)
  take_share max pending (some does_not_meet_target) data' = (data', rejected low_difficulty_share)
  take_share max pending (some (meets_target hash)) data' =
      let (hashes, is_new) = insert_if_new max hash data'.accepted_share_hashes in
      if is_new
      then (keep_share pending hashes data', accepted)
      else (data', rejected duplicate_share)

  -- The share of a miner with a channel, for a job that the server knows.
  unfoldable pub submit_to :
      (max_seen_shares downstream_id channel_id : ℕ)
      → Submit
      → Notify
      → DownstreamData
      → DownstreamData × SubmitOutcome
  unfolding take_share
  submit_to max id channel_id request job data' =
      elim (job_validation_context request.job_id data') [
        | none ↦ (data', rejected job_not_found)
        | some c ↦
            take_share max
              (record {
                channel_id = channel_id;
                downstream_id = id;
                share = request;
                extranonce = c.extranonce;
                version_rolling_mask = data'.version_rolling_mask;
                job_version = some job.version;
              })
              (validate_sv1_share request c.target c.extranonce.extra_nonce1
                data'.version_rolling_mask job)
              data'
      ]

  unfoldable pub submit_on :
      (max_seen_shares downstream_id : ℕ)
      → Submit
      → Sv1Server
      → DownstreamData
      → Option ℕ
      → DownstreamData × SubmitOutcome
  unfolding submit_to
  submit_on max id request s data' none = (data', rejected other)
  submit_on max id request s data' (some channel_id) =
      elim (or_unknown
        (lookup (if s.is_aggregated then aggregated_channel_id else channel_id) s.valid_sv1_jobs)
        request.job_id) [
          | none ↦ (data', rejected job_not_found)
          | some job ↦ submit_to max id channel_id request job.notify data'
        ]

  -- None when the miner is not registered: `DownstreamNotPresent`.
  unfoldable pub handle_submit :
      (max_seen_shares downstream_id : ℕ) → Submit → Sv1Server → Sv1Server × Option SubmitOutcome
  unfolding submit_on
  handle_submit max id request s = elim (lookup id s.downstreams) [
    | none ↦ (s, none)
    | some data' ↦
        let (after, outcome) = submit_on max id request s data' data'.channel_id in
        (record s { downstreams = adjust id (λ old. after) s.downstreams }, some outcome)
  ]
