-- ===== src/JdServer/Engine/Agreement.antt =====
-- A custom job is accepted exactly when it agrees with its declaration; and what a declaration leaves
-- behind when its client went away.
use sv2_apps_fork.Prelude.{
  ℕ, ◌≡◌, ◌↔◌, refl, inl, inr, Bool, true, Option, none, some, List, [], ◌∷◌, if◌then◌else◌, ◌==◌,
  nat_eq, arith, Bool-cases, ◌&&◌,
}
use sv2_apps_fork.Prelude.Assoc.{lookup}
use sv2_apps_fork.JdServer.Messages.{
  DeclareMiningJob, SetCustomMiningJob, ErrorCode, custom_success, error, internal_error,
  stale_chain_tip,
}
use sv2_apps_fork.JdServer.Engine.Coinbase.{
  TxIn, Transaction, BitcoinCodec, Outcome, done, failed, panicked,
}
use sv2_apps_fork.JdServer.Engine.Merkle.{merkle_branch}
use sv2_apps_fork.JdServer.Engine.State.{ValidationContext, DeclaredCustomJob}
use sv2_apps_fork.JdServer.Engine.Handlers.{
  States, JdResponse, validated_job, refused_job, lacking, answer_response, tip_drifted,
}
use sv2_apps_fork.JdServer.Engine.CustomJob.{
  bytes_eq, bytes_eq_sound, bytes_eq_refl, starts_with, check_passed, check_merkle_path,
  check_input, check_coinbase, check_job, Matches,
}

nat_sound : (a b : ℕ) → (a == b) ≡ true → a ≡ b
nat_sound a b h = (nat_eq.agrees_iff a b).0 h

nat_complete : (a b : ℕ) → a ≡ b → (a == b) ≡ true
nat_complete a b h = (nat_eq.agrees_iff a b).1 h

module _ (codec : BitcoinCodec) (msg : SetCustomMiningJob) where
  PathAgrees : Transaction → Option (List ℕ) → Type 0
  PathAgrees tx o =
      (txids : List ℕ) × (o ≡ some txids)
      × (merkle_branch codec.hash_nodes (codec.compute_txid tx ∷ txids) ≡ msg.merkle_path)

  path_sound :
      (tx : Transaction) (o : Option (List ℕ))
      → check_merkle_path codec msg tx o ≡ done custom_success
      → PathAgrees tx o
  unfolding PathAgrees
  path_sound tx none h = absurd (ground arith)
  path_sound tx (some txids) h = (txids, refl, bytes_eq_sound _ _ (check_passed _ _ _ h).0)

  record InputAgrees (tx : Transaction) (inputs : List TxIn) (o : Option (List ℕ)) : Type 0 where
    input : TxIn
    rest : List TxIn
    one_input : inputs ≡ input ∷ rest
    prefix : starts_with input.script_sig msg.coinbase_prefix ≡ true
    sequence : input.sequence ≡ msg.coinbase_tx_input_n_sequence
    outputs : tx.output ≡ msg.coinbase_tx_outputs
    lock_time : tx.lock_time ≡ msg.coinbase_tx_locktime
    path : PathAgrees tx o

  input_sound :
      (tx : Transaction) (inputs : List TxIn) (o : Option (List ℕ))
      → check_input codec msg tx inputs o ≡ done custom_success
      → InputAgrees tx inputs o
  input_sound tx [] o h = absurd (ground arith)
  input_sound tx (input ∷ rest) o h =
      let (prefix, h1) = check_passed _ _ _ h in
      let (sequence, h2) = check_passed _ _ _ h1 in
      let (outputs, h3) = check_passed _ _ _ h2 in
      let (lock_time, h4) = check_passed _ _ _ h3 in
      record {
        input = input;
        rest = rest;
        one_input = refl;
        prefix = prefix;
        sequence = nat_sound _ _ sequence;
        outputs = bytes_eq_sound _ _ outputs;
        lock_time = nat_sound _ _ lock_time;
        path = path_sound tx o h4;
      }

  record CoinbaseAgrees (out : Outcome Transaction) (o : Option (List ℕ)) : Type 0 where
    tx : Transaction
    decodes : out ≡ done tx
    version : tx.version ≡ msg.coinbase_tx_version
    input : InputAgrees tx tx.input o

  coinbase_sound :
      (out : Outcome Transaction) (o : Option (List ℕ))
      → check_coinbase codec msg out o ≡ done custom_success
      → CoinbaseAgrees out o
  coinbase_sound failed o h = absurd (ground arith)
  coinbase_sound panicked o h = absurd (ground arith)
  coinbase_sound (done tx) o h =
      let (version, h1) = check_passed _ _ _ h in
      record {
        tx = tx;
        decodes = refl;
        version = nat_sound _ _ version;
        input = input_sound tx tx.input o h1;
      }

  job_sound :
      (job : DeclaredCustomJob)
      → check_job codec msg job ≡ done custom_success
      → Matches codec msg job
  unfolding check_job PathAgrees
  job_sound job h =
      let (validated, h1) = check_passed _ _ _ h in
      let (prev_hash, h2) = check_passed _ _ _ h1 in
      let (nbits, h3) = check_passed _ _ _ h2 in
      let (version, h4) = check_passed _ _ _ h3 in
      let c = coinbase_sound _ _ h4 in
      record {
        tx = c.tx;
        input = c.input.input;
        rest = c.input.rest;
        txids = c.input.path.0;
        validated = validated;
        prev_hash = nat_sound _ _ prev_hash;
        nbits = nat_sound _ _ nbits;
        version = nat_sound _ _ version;
        decodes = c.decodes;
        one_input = c.input.one_input;
        coinbase_version = c.version;
        prefix = c.input.prefix;
        sequence = c.input.sequence;
        outputs = c.input.outputs;
        lock_time = c.input.lock_time;
        declared_txids = c.input.path.1;
        path = c.input.path.2;
      }

  bytes_complete : (xs ys : List ℕ) → xs ≡ ys → bytes_eq xs ys ≡ true
  bytes_complete xs ys e = rw e (bytes_eq_refl ys)

  input_complete :
      (tx : Transaction) (inputs : List TxIn) (o : Option (List ℕ)) (input : TxIn)
      (rest : List TxIn) (txids : List ℕ)
      → inputs ≡ input ∷ rest
      → o ≡ some txids
      → starts_with input.script_sig msg.coinbase_prefix ≡ true
      → input.sequence ≡ msg.coinbase_tx_input_n_sequence
      → tx.output ≡ msg.coinbase_tx_outputs
      → tx.lock_time ≡ msg.coinbase_tx_locktime
      → merkle_branch codec.hash_nodes (codec.compute_txid tx ∷ txids) ≡ msg.merkle_path
      → check_input codec msg tx inputs o ≡ done custom_success
  input_complete tx inputs o input rest txids one declared prefix sequence outputs lock_time path =
      rw
        (
          one,
          declared,
          prefix,
          nat_complete _ _ sequence,
          bytes_complete _ _ outputs,
          nat_complete _ _ lock_time,
          bytes_complete _ _ path,
        )
        refl

  job_complete :
      (job : DeclaredCustomJob)
      → Matches codec msg job
      → check_job codec msg job ≡ done custom_success
  unfolding check_job
  job_complete job m =
      rw
        (
          m.validated,
          nat_complete _ _ m.prev_hash,
          nat_complete _ _ m.nbits,
          nat_complete _ _ m.version,
          m.decodes,
          nat_complete _ _ m.coinbase_version,
        )
        (input_complete m.tx m.tx.input job.txid_list m.input m.rest m.txids m.one_input
          m.declared_txids m.prefix m.sequence m.outputs m.lock_time m.path)

  -- A custom job is accepted exactly when its declaration was validated and the two agree on the
  -- previous hash, the bits, the version, the coinbase transaction's version, input, outputs and lock
  -- time, and on the merkle path that the declared transactions give.
  pub check_job-iff-Matches :
      (job : DeclaredCustomJob)
      → (check_job codec msg job ≡ done custom_success) ↔ Matches codec msg job
  check_job-iff-Matches job = (job_sound job, job_complete job)

-- When the client was cleaned up while Bitcoin Core was asked, no answer of Bitcoin Core brings its
-- state back, and the declaration ends in an error.
pub answer_response_after_cleanup :
    (now client token : ℕ) (msg : DeclareMiningJob) (retry : Bool)
    (previous : Option ValidationContext) (core : Option JdResponse) (states : States)
    → lookup client states ≡ none
    → (code : ErrorCode) × (answer_response now client token msg retry previous core states
        ≡ (states, error code))
unfolding answer_response
answer_response_after_cleanup now client token msg retry previous none states gone =
    (internal_error, refl)
answer_response_after_cleanup now client token msg retry previous (some (validated_job p n t))
      states gone =
    (internal_error, rw gone refl)
answer_response_after_cleanup now client token msg retry previous (some (refused_job c ctx)) states
      gone =
    (if tip_drifted previous ctx then stale_chain_tip else c, rw gone refl)
answer_response_after_cleanup now client token msg retry previous (some (lacking m ctx)) states
      gone =
    elim (Bool-cases (retry && tip_drifted previous ctx)) [
      | inl stale ↦ (stale_chain_tip, rw (stale, gone) refl)
      | inr fresh ↦ (internal_error, rw (fresh, gone) refl)
    ]
