-- ===== src/Translator/Handover/Outcomes.antt =====
-- What becomes of an accepted share, on every branch.
use sv2_apps_fork.Prelude.{
  ℕ, ◌+◌, ◌%◌, ◌^◌, ◌≡◌, ◌≢◌, ◌⊎◌, inl, inr, refl, sym, subst, Bool, true, false, ◌&&◌, Option,
  none, some, List, [], ◌∷◌, ◌++◌, String, if◌then◌else◌, ◌==◌, nat_eq, string_eq, Bool-cases,
}
use sv2_apps_fork.Prelude.Assoc.{Assoc, lookup, adjust, adjusted, lookup-adjust}
use sv2_apps_fork.Translator.Downstream.{Submit, SubmitShareWithChannelId, DownstreamData}
use sv2_apps_fork.Translator.Vardiff.{Result, ok, shutdown}
use sv2_apps_fork.Translator.Keepalive.Ids.{original_id, original_id-tested}
use sv2_apps_fork.Translator.Handover.{
  Outbox, worker_of, upstream_job_id, take_number, submit_share, submit_built, submit_for,
  submit_versioned, handle_submit_shares,
}

branches :
    {A : Type 0} (P : A → Type 0) (b : Bool) (x y : A)
    → (b ≡ true → P x)
    → (b ≡ false → P y)
    → P (if b then x else y)
branches P true x y p q = p refl
branches P false x y p q = q refl

-- The worker that a name stands for.
abbrev pub Names : (worker_name : String) → Option String → Type 0
Names worker_name worker =
    ((worker_name ≡ "") × (worker ≡ none)) ⊎ ((worker_name ≢ "") × (worker ≡ some worker_name))

worker_of-Names : (worker_name : String) → Names worker_name (worker_of worker_name)
worker_of-Names worker_name = elim (Bool-cases (worker_name == "")) [
  | inl empty ↦ inl ((string_eq.agrees_iff worker_name "").0 empty, rw (empty) refl)
  | inr filled ↦
      inr (λ e. absurd (cc (filled, (string_eq.agrees_iff worker_name "").1 e)), rw (filled) refl)
]

module _ {S : Type 0}
    (build : Submit → (channel_id sequence_number job_version : ℕ) → Option ℕ → Option S)
    (enable_vardiff : Bool) (message : SubmitShareWithChannelId)
    (downstreams : Assoc ℕ DownstreamData) (s : Outbox S) where
  -- The share of the upstream job, under the number that is next.
  abbrev pub share_for : ℕ → Option S
  share_for version =
      build (record message.share { job_id = original_id message.share.job_id }) message.channel_id
        s.sequence_counter version message.version_rolling_mask

  -- The shares of the miner since the last update, one more if there is variable difficulty.
  abbrev Counts : Assoc ℕ ℕ → Type 0
  Counts shares =
      (j : ℕ)
      → lookup j shares ≡ (
          if enable_vardiff && (message.downstream_id == j)
          then adjusted (λ n. n + 1) (lookup j s.shares_since_last_update)
          else lookup j s.shares_since_last_update)

  -- What a share leaves: the number that is next, what went out, and the result.
  pub record Leaves (next : ℕ) (out : List (S × Option String)) (result : Result)
      (after : Outbox S × Result) : Type 0 where
    pub ends : after.1 ≡ result
    pub sent : after.0.submitted ≡ out ++ s.submitted
    pub numbered : after.0.sequence_counter ≡ next
    pub counts : Counts after.0.shares_since_last_update

  abbrev pub following : ℕ
  following = (s.sequence_counter + 1) % 2 ^ 32

  -- What becomes of an accepted share. The number is used up once the version of the job is known.
  pub data Handled (after : Outbox S × Result) : Type 0 where
    unversioned : message.job_version ≡ none → Leaves s.sequence_counter [] ok after → Handled after
    unbuilt :
        (version : ℕ)
        → message.job_version ≡ some version
        → share_for version ≡ none
        → Leaves following [] shutdown after
        → Handled after
    absent :
        (version : ℕ) (share : S)
        → message.job_version ≡ some version
        → share_for version ≡ some share
        → lookup message.downstream_id downstreams ≡ none
        → Leaves following [] ok after
        → Handled after
    closed :
        (version : ℕ) (share : S) (data' : DownstreamData)
        → message.job_version ≡ some version
        → share_for version ≡ some share
        → lookup message.downstream_id downstreams ≡ some data'
        → s.channel_manager_open ≡ false
        → Leaves following [] shutdown after
        → Handled after
    handed :
        (version : ℕ) (share : S) (data' : DownstreamData) (worker : Option String)
        → message.job_version ≡ some version
        → share_for version ≡ some share
        → lookup message.downstream_id downstreams ≡ some data'
        → s.channel_manager_open ≡ true
        → Names data'.sv1_worker_name worker
        → Leaves following ((share, worker) ∷ []) ok after
        → Handled after

  module _ (m : Assoc ℕ ℕ) (counted : Counts m) where
    abbrev with_count : Outbox S
    with_count = record s { shares_since_last_update = m }

    leaves :
        (next : ℕ) (out : List (S × Option String)) (result : Result)
        → Leaves next out result
            (record with_count { sequence_counter = next; submitted = out ++ s.submitted }, result)
    leaves next out result = record { ends = refl; sent = refl; numbered = refl; counts = counted }

    open_or_closed :
        (version : ℕ) (share : S) (data' : DownstreamData)
        → message.job_version ≡ some version
        → share_for version ≡ some share
        → lookup message.downstream_id downstreams ≡ some data'
        → Handled (submit_share share (some data') (take_number with_count))
    open_or_closed version share data' e built found =
        branches Handled s.channel_manager_open _ _
          (λ takes.
            handed version share data' (worker_of data'.sv1_worker_name) e built found takes
              (worker_of-Names data'.sv1_worker_name)
              (leaves following ((share, worker_of data'.sv1_worker_name) ∷ []) ok))
          (λ shut. closed version share data' e built found shut (leaves following [] shutdown))

    built_or_not :
        (version : ℕ) (o : Option S) (p : Option DownstreamData)
        → message.job_version ≡ some version
        → share_for version ≡ o
        → lookup message.downstream_id downstreams ≡ p
        → Handled (submit_built o p (take_number with_count))
    built_or_not version none p e built found =
        unbuilt version e built (leaves following [] shutdown)
    built_or_not version (some share) none e built found =
        absent version share e built found (leaves following [] ok)
    built_or_not version (some share) (some data') e built found =
        open_or_closed version share data' e built found

    versioned_or_not :
        (o : Option ℕ)
        → message.job_version ≡ o
        → Handled
            (submit_versioned build message o (lookup message.downstream_id downstreams) with_count)
    unfolding upstream_job_id
    versioned_or_not none e = unversioned e (leaves s.sequence_counter [] ok)
    versioned_or_not (some version) e =
        subst
          (λ j. Handled (
            submit_for build message version j (lookup message.downstream_id downstreams)
              with_count))
          (sym (original_id-tested message.share.job_id)) (built_or_not version _ _ e refl refl)

module _ {S : Type 0}
    (build : Submit → (channel_id sequence_number job_version : ℕ) → Option ℕ → Option S) where
  -- An accepted share ends in one of five ways, for each of which the condition is given. Without the
  -- version of its job, it is dropped. Otherwise it takes the next sequence number. When the message
  -- cannot be built, or the channel manager is gone, the server shuts down; when the miner is gone,
  -- the share is dropped; and else it is handed to the channel manager once, as a share of the upstream
  -- job, also when it was found for a keepalive job, with the worker's name unless that is empty. In
  -- all five, with variable difficulty, the miner's share is counted once and no other miner's.
  pub handle_submit_shares-Handled :
      (enable_vardiff : Bool) (message : SubmitShareWithChannelId)
      (downstreams : Assoc ℕ DownstreamData) (s : Outbox S)
      → Handled build enable_vardiff message downstreams s
          (handle_submit_shares build enable_vardiff message downstreams s)
  unfolding handle_submit_shares
  handle_submit_shares-Handled true message downstreams s =
      versioned_or_not build true message downstreams s
        (adjust message.downstream_id (λ n. n + 1) s.shares_since_last_update)
        (λ j. lookup-adjust message.downstream_id j (λ n. n + 1) s.shares_since_last_update)
        message.job_version refl
  handle_submit_shares-Handled false message downstreams s =
      versioned_or_not build false message downstreams s s.shares_since_last_update (λ j. refl)
        message.job_version refl
