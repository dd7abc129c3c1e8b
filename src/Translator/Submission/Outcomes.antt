-- ===== src/Translator/Submission/Outcomes.antt =====
-- The outcome of a submission, and of its repetition.
use sv2_apps_fork.Prelude.{
  ℕ, ◌≡◌, refl, ap, ◌∙◌, ◌↔◌, true, some, List, [], ◌∷◌, ◌++◌, if◌then◌else◌, ◌==◌, nat_eq, length,
  contains, contains-snoc,
}
use sv2_apps_fork.Prelude.Assoc.{lookup, lookup-adjust}
use sv2_apps_fork.Translator.Downstream.{
  Submit, SubmitShareWithChannelId, DownstreamData, pop_front, insert_if_new,
  job_validation_context,
}
use sv2_apps_fork.Translator.Submission.{
  meets_target, duplicate_share, accepted, rejected, Hashing, Sv1Server, keep_share, take_share,
  handle_submit,
}
use sv2_apps_fork.Translator.Submission.Accepted.{
  IsAcceptable, pending_of, stored, submit_known, accept_known, handle_submit-IsAcceptable,
  validates,
}

module _ (hashing : Hashing) (max_seen_shares : ℕ) (id : ℕ) (request : Submit) where
  -- A submission is accepted exactly when the miner is registered and has a channel, the server
  -- knows the job, the miner has a validation context for it, the header can be formed with the
  -- context's extranonce, its hash is a number below the context's target, and the hash is not among
  -- those kept.
  pub handle_submit-accepted_iff :
      (s : Sv1Server)
      → ((handle_submit hashing max_seen_shares id request s).1 ≡ some accepted)
        ↔ IsAcceptable hashing max_seen_shares id request s
  handle_submit-accepted_iff s = (
    handle_submit-IsAcceptable hashing max_seen_shares id request s,
    λ a. ap (λ r. r.1) (accept_known hashing max_seen_shares id request s a),
  )

  known_hash :
      (pending : SubmitShareWithChannelId) (hash : ℕ) (data' : DownstreamData)
      → contains hash data'.accepted_share_hashes ≡ true
      → take_share hashing max_seen_shares pending (some (meets_target hash)) data'
        ≡ (data', rejected duplicate_share)
  unfolding take_share insert_if_new
  known_hash pending hash data' known = rw (known) refl

  -- What the server keeps of an accepted share.
  pub record IsKept (s t : Sv1Server) : Type 0 where
    pub acceptable : IsAcceptable hashing max_seen_shares id request s
    pub after : DownstreamData
    pub stored_data : lookup id t.downstreams ≡ some after
    pub pending :
        after.pending_share ≡ some (pending_of hashing max_seen_shares id request acceptable)
    pub remembered : contains acceptable.hash after.accepted_share_hashes ≡ true

  stored-IsKept :
      (s : Sv1Server) (a : IsAcceptable hashing max_seen_shares id request s) (hashes : List ℕ)
      → contains a.hash (hashes ++ (a.hash ∷ [])) ≡ true
      → let after =
          keep_share hashing
            (pending_of hashing max_seen_shares id request a)
            (hashes ++ (a.hash ∷ []))
            a.data' in
        let t = (stored hashing max_seen_shares id request s (after, accepted)).0 in
        IsKept s t
        × ((handle_submit hashing max_seen_shares id request t).1 ≡ some (rejected duplicate_share))
  unfolding job_validation_context
  stored-IsKept s a hashes has =
      let after =
        keep_share hashing (pending_of hashing max_seen_shares id request a)
          (hashes ++ (a.hash ∷ [])) a.data' in
      let t = (stored hashing max_seen_shares id request s (after, accepted)).0 in
      let found : lookup id t.downstreams ≡ some after =
        lookup-adjust id id (λ old. after) s.downstreams
        ∙ rw (a.registered, (nat_eq.agrees_iff id id).1 refl) refl in
      (
        record {
          acceptable = a;
          after = after;
          stored_data = found;
          pending = refl;
          remembered = has;
        },
        ap (λ r. r.1)
              (submit_known hashing max_seen_shares id request t after a.channel_id a.job a.context
                found a.opened a.known a.current)
            ∙ ap
                (λ o.
                  some
                    (take_share hashing max_seen_shares
                      (pending_of hashing max_seen_shares id request a) o after).1)
                (validates hashing max_seen_shares id request a.data'.version_rolling_mask
                  a.job.notify a.context a.hash a.hashed a.below)
            ∙ ap (λ r. some r.1)
                (known_hash (pending_of hashing max_seen_shares id request a) a.hash after has),
      )

  -- After a submission is accepted, the share waits to be handed on with the extranonce of its job's
  -- context, its hash is kept, and the same submission is refused as a duplicate.
  pub accepted_once :
      (s : Sv1Server)
      → (handle_submit hashing max_seen_shares id request s).1 ≡ some accepted
      → let t = (handle_submit hashing max_seen_shares id request s).0 in
        IsKept s t
        × ((handle_submit hashing max_seen_shares id request t).1 ≡ some (rejected duplicate_share))
  accepted_once s e =
      let a = handle_submit-IsAcceptable hashing max_seen_shares id request s e in
      let hashes =
        if length a.data'.accepted_share_hashes == max_seen_shares
        then pop_front a.data'.accepted_share_hashes
        else a.data'.accepted_share_hashes in
      let same = ap (λ r. r.0) (accept_known hashing max_seen_shares id request s a) in
      rw (same) (
        stored-IsKept s a hashes
          (contains-snoc a.hash a.hash hashes ∙ rw ((nat_eq.agrees_iff a.hash a.hash).1 refl) refl))
