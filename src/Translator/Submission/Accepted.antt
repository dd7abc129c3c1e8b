-- ===== src/Translator/Submission/Accepted.antt =====
-- Which shares are accepted, and what is kept of them.
use sv2_apps_fork.Prelude.{
  ℕ, ◌<◌, ◌≡◌, refl, sym, ap, ◌∙◌, inl, inr, false, Option, none, some, [], ◌∷◌, ◌++◌, String,
  if◌then◌else◌, ◌==◌, nat_eq, length, contains, arith, Bool-cases, Option-cases,
}
use sv2_apps_fork.Prelude.Assoc.{lookup, adjust}
use sv2_apps_fork.Translator.Downstream.{
  Submit, SubmitShareWithChannelId, DownstreamData, Notify, Sv1JobValidationContext, pop_front,
  insert_if_new, job_validation_context,
}
use sv2_apps_fork.Translator.Submission.{
  Sv1ShareValidationOutcome, meets_target, does_not_meet_target, SubmitOutcome, accepted, Hashing,
  StoredSv1Job, Sv1Server, aggregated_channel_id, or_unknown, share_version, against,
  validate_sv1_share, keep_share, take_share, submit_to, submit_on, handle_submit,
}

-- The job of a miner's channel under an id.
abbrev pub server_job : Sv1Server → (channel_id : ℕ) → String → Option StoredSv1Job
server_job s channel_id job_id =
    or_unknown
      (lookup (if s.is_aggregated then aggregated_channel_id else channel_id) s.valid_sv1_jobs)
      job_id

module _ (hashing : Hashing) (max_seen_shares : ℕ) (id : ℕ) (request : Submit) where
  -- The hash of the header that the share makes of a job: the previous block and the merkle root of the
  -- coinbase with both extranonces can be formed, and the version is the job's, but for the bits that
  -- the share may roll.
  pub record IsHashOf (mask : Option ℕ) (job : Notify) (context : Sv1JobValidationContext)
      (hash : ℕ) : Type 0 where
    pub prev_hash : ℕ
    pub has_prev_hash : hashing.prev_hash job ≡ some prev_hash
    pub merkle_root : ℕ
    pub has_merkle_root :
        hashing.merkle_root_from_path job (context.extranonce.extra_nonce1 ++ request.extra_nonce2)
        ≡ some merkle_root
    pub is_hash :
        hash
        ≡ hashing.block_hash job
            (share_version hashing.version_rolling_mask request mask job)
            prev_hash
            merkle_root
            request.time
            request.nonce

  -- A share of a registered miner that is for a known job, hashes below the target of its job's context, and is new.
  pub record IsAcceptable (s : Sv1Server) : Type 0 where
    pub data' : DownstreamData
    pub registered : lookup id s.downstreams ≡ some data'
    pub channel_id : ℕ
    pub opened : data'.channel_id ≡ some channel_id
    pub job : StoredSv1Job
    pub known : server_job s channel_id request.job_id ≡ some job
    pub context : Sv1JobValidationContext
    pub current : job_validation_context request.job_id data' ≡ some context
    pub hash : ℕ
    pub hashed : IsHashOf data'.version_rolling_mask job.notify context hash
    pub below : hash < context.target
    pub fresh : contains hash data'.accepted_share_hashes ≡ false

  against-below :
      (hash target found : ℕ)
      → against hash target ≡ meets_target found
      → (found ≡ hash) × (hash < target)
  against-below hash target found e = ground arith

  -- Validation finds the hash that is below the target, and no other.
  pub validates :
      (mask : Option ℕ) (job : Notify) (c : Sv1JobValidationContext) (hash : ℕ)
      → IsHashOf mask job c hash
      → hash < c.target
      → validate_sv1_share hashing request c.target c.extranonce.extra_nonce1 mask job
        ≡ some (meets_target hash)
  unfolding validate_sv1_share
  validates mask job c hash h below =
      rw (h.has_prev_hash, h.has_merkle_root, validate_sv1_share, ← h.is_hash)
        (ground (arith, below))

  validated-below :
      (mask : Option ℕ) (job : Notify) (c : Sv1JobValidationContext) (hash : ℕ)
      → validate_sv1_share hashing request c.target c.extranonce.extra_nonce1 mask job
        ≡ some (meets_target hash)
      → IsHashOf mask job c hash × (hash < c.target)
  unfolding validate_sv1_share
  validated-below mask job c hash e = elim (Option-cases (hashing.prev_hash job)) [
    | inl nothing ↦ absurd (cc (rw (nothing, validate_sv1_share) at e))
    | inr (prev, p) ↦
        elim (Option-cases
          (hashing.merkle_root_from_path job (c.extranonce.extra_nonce1 ++ request.extra_nonce2))) [
            | inl nothing ↦ absurd (cc (rw (p, nothing, validate_sv1_share) at e))
            | inr (root, r) ↦
                let h : ℕ =
                  hashing.block_hash job
                    (share_version hashing.version_rolling_mask request mask job) prev root
                    request.time request.nonce in
                let (same, below) : (hash ≡ h) × (h < c.target) =
                  against-below h c.target hash (cc (rw (p, r, validate_sv1_share) at e)) in
                (
                  record {
                    prev_hash = prev;
                    has_prev_hash = p;
                    merkle_root = root;
                    has_merkle_root = r;
                    is_hash = same;
                  },
                  omega (arith, same, below),
                )
          ]
  ]

  -- What is handed on, with the extranonce of the job's context.
  abbrev pub pending_of : {s : Sv1Server} → IsAcceptable s → SubmitShareWithChannelId
  pending_of a = record {
    channel_id = a.channel_id;
    downstream_id = id;
    share = request;
    extranonce = a.context.extranonce;
    version_rolling_mask = a.data'.version_rolling_mask;
    job_version = some a.job.notify.version;
  }

  take_share-accepted :
      (pending : SubmitShareWithChannelId) (o : Option Sv1ShareValidationOutcome)
      (data' : DownstreamData)
      → (take_share hashing max_seen_shares pending o data').1 ≡ accepted
      → (hash : ℕ) × (o ≡ some (meets_target hash))
        × (contains hash data'.accepted_share_hashes ≡ false)
  unfolding take_share insert_if_new
  take_share-accepted pending none data' e = absurd (cc)
  take_share-accepted pending (some does_not_meet_target) data' e = absurd (cc)
  take_share-accepted pending (some (meets_target hash)) data' e =
      elim (Bool-cases (contains hash data'.accepted_share_hashes)) [
        | inl known ↦ absurd (ground (arith, known, e))
        | inr new ↦ (hash, refl, new)
      ]

  accept_share :
      (pending : SubmitShareWithChannelId) (hash : ℕ) (data' : DownstreamData)
      → contains hash data'.accepted_share_hashes ≡ false
      → take_share hashing max_seen_shares pending (some (meets_target hash)) data' ≡ (
        keep_share hashing pending
            ((if length data'.accepted_share_hashes == max_seen_shares
                then pop_front data'.accepted_share_hashes
                else data'.accepted_share_hashes)
              ++ (hash ∷ []))
            data',
        accepted,
      )
  unfolding take_share insert_if_new
  accept_share pending hash data' new = rw (new) refl

  -- The outcome that a hash has for a share.
  abbrev pub outcome_of :
      DownstreamData
      → (channel_id : ℕ) → StoredSv1Job
      → Sv1JobValidationContext
      → DownstreamData × SubmitOutcome
  outcome_of data' channel_id job c =
      take_share hashing max_seen_shares
        (record {
          channel_id = channel_id;
          downstream_id = id;
          share = request;
          extranonce = c.extranonce;
          version_rolling_mask = data'.version_rolling_mask;
          job_version = some job.notify.version;
        })
        (validate_sv1_share hashing request c.target c.extranonce.extra_nonce1
          data'.version_rolling_mask job.notify)
        data'

  abbrev pub stored : Sv1Server → DownstreamData × SubmitOutcome → Sv1Server × Option SubmitOutcome
  stored s (after, outcome) =
      (record s { downstreams = adjust id (λ old. after) s.downstreams }, some outcome)

  submit_on_known :
      (s : Sv1Server) (data' : DownstreamData) (channel_id : ℕ) (job : StoredSv1Job)
      (c : Sv1JobValidationContext)
      → server_job s channel_id request.job_id ≡ some job
      → job_validation_context request.job_id data' ≡ some c
      → submit_on hashing max_seen_shares id request s data' (some channel_id)
        ≡ outcome_of data' channel_id job c
  unfolding submit_on submit_to
  submit_on_known s data' channel_id job c known current =
      rw (known, submit_on, current, submit_to) refl

  pub submit_known :
      (s : Sv1Server) (data' : DownstreamData) (channel_id : ℕ) (job : StoredSv1Job)
      (c : Sv1JobValidationContext)
      → lookup id s.downstreams ≡ some data'
      → data'.channel_id ≡ some channel_id
      → server_job s channel_id request.job_id ≡ some job
      → job_validation_context request.job_id data' ≡ some c
      → handle_submit hashing max_seen_shares id request s
        ≡ stored s (outcome_of data' channel_id job c)
  unfolding handle_submit
  submit_known s data' channel_id job c registered opened known current =
      rw (registered, handle_submit)
        (ap (λ o. stored s (submit_on hashing max_seen_shares id request s data' o)) opened
          ∙ ap (stored s) (submit_on_known s data' channel_id job c known current))

  -- An acceptable share is accepted: its hash is kept and it waits to be handed on.
  pub accept_known :
      (s : Sv1Server) (a : IsAcceptable s)
      → handle_submit hashing max_seen_shares id request s
        ≡ stored s (
          keep_share hashing
              (pending_of a)
              ((if length a.data'.accepted_share_hashes == max_seen_shares
                  then pop_front a.data'.accepted_share_hashes
                  else a.data'.accepted_share_hashes)
                ++ (a.hash ∷ []))
              a.data',
          accepted,
        )
  accept_known s a =
      submit_known s a.data' a.channel_id a.job a.context a.registered a.opened a.known a.current
      ∙ ap (stored s) (
          ap (λ o. take_share hashing max_seen_shares (pending_of a) o a.data')
            (validates a.data'.version_rolling_mask a.job.notify a.context a.hash a.hashed a.below)
          ∙ accept_share (pending_of a) a.hash a.data' a.fresh)

  submit_on-IsAcceptable :
      (s : Sv1Server) (data' : DownstreamData) (o : Option ℕ)
      → lookup id s.downstreams ≡ some data'
      → data'.channel_id ≡ o
      → (submit_on hashing max_seen_shares id request s data' o).1 ≡ accepted
      → IsAcceptable s
  unfolding submit_on submit_to
  submit_on-IsAcceptable s data' none registered opened e = absurd (cc)
  submit_on-IsAcceptable s data' (some channel_id) registered opened e =
      elim (Option-cases (server_job s channel_id request.job_id)) [
        | inl unknown ↦ absurd (cc (rw (unknown, submit_on) at e))
        | inr (job, known) ↦ elim (Option-cases (job_validation_context request.job_id data')) [
          | inl gone ↦ absurd (cc (rw (known, submit_on, gone, submit_to) at e))
          | inr (c, current) ↦
              let e' : (outcome_of data' channel_id job c).1 ≡ accepted =
                ap (λ r. r.1) (sym (submit_on_known s data' channel_id job c known current)) ∙ e in
              let (hash, meets, new) = take_share-accepted _ _ data' e' in
              let (hashed, below) =
                validated-below data'.version_rolling_mask job.notify c hash meets in
              record {
                data' = data';
                registered = registered;
                channel_id = channel_id;
                opened = opened;
                job = job;
                known = known;
                context = c;
                current = current;
                hash = hash;
                hashed = hashed;
                below = below;
                fresh = new;
              }
        ]
      ]

  pub handle_submit-IsAcceptable :
      (s : Sv1Server)
      → (handle_submit hashing max_seen_shares id request s).1 ≡ some accepted
      → IsAcceptable s
  unfolding handle_submit
  handle_submit-IsAcceptable s e = elim (Option-cases (lookup id s.downstreams)) [
    | inl nobody ↦ absurd (cc (rw (nobody, handle_submit) at e))
    | inr (data', registered) ↦
        submit_on-IsAcceptable s data' data'.channel_id registered refl
          (cc (rw (registered, handle_submit) at e))
  ]
